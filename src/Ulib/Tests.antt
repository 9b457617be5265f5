-- ===== src/Ulib/Tests.antt =====
-- Runs of lab5/xv6-thread/user/ulib.c and printf.c.
use ecnu_oslab.Base.{ℕ, ◌≡◌, refl, arith, List, [], ◌∷◌, pos, negsuc}
use ecnu_oslab.Ulib.{gets, atoi, put_digits, printint, thread_stack}
use ecnu_oslab.Ulib.Numbers.{atoi-printint}

printint_run : printint (negsuc 41) 10 ≡ (45 ∷ 52 ∷ 50 ∷ [])
unfolding put_digits
printint_run = refl

-- A line of two characters with its newline, and the rest.
gets_run : gets 5 (104 ∷ 105 ∷ 10 ∷ 120 ∷ []) ≡ (104 ∷ 105 ∷ 10 ∷ [], 120 ∷ [])
unfolding gets
gets_run = refl

-- The block that malloc returns is not the address of the stack.
thread_stack_run : thread_stack 20488 ≡ 24576
thread_stack_run = refl

atoi-printint_example : atoi (printint (pos 1234) 10) ≡ 1234
atoi-printint_example = atoi-printint 1234 (omega arith)

abbrev ab : List ℕ
ab = 97 ∷ 98 ∷ []

abbrev just_a : List ℕ
just_a = 97 ∷ []
