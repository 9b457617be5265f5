-- ===== src/Ulib.antt =====
-- lab5/xv6-thread/user/ulib.c: the strings and the threads of user programs, and printint of printf.c. A string
-- is the list of its characters, without the 0 at its end.
pub mod Numbers
pub mod Text
mod Tests
use ecnu_oslab.Base.{
  ℕ, zero, suc, ◌+◌, ◌-◌, ◌*◌, ◌/◌, ◌%◌, ◌^◌, Bool, true, false, ◌&&◌, ◌||◌, not, Option, none,
  some, List, [], ◌∷◌, ltb, leb, ◌==◌, if◌then◌else◌, ℤ, pos, negsuc, minus_one,
}

-- (uchar)*p - (uchar)*q
abbrev pub difference : ℕ → ℕ → ℤ
difference a b = if ltb a b then negsuc (b - a - 1) else pos (a - b)

unfoldable pub strcmp : List ℕ → List ℕ → ℤ
strcmp [] [] = pos 0
strcmp [] (d ∷ ds) = difference 0 d
strcmp (c ∷ cs) [] = difference c 0
strcmp (c ∷ cs) (d ∷ ds) = let rest = strcmp cs ds in if c == d then rest else difference c d

-- What is left from the first c on.
unfoldable pub strchr : List ℕ → ℕ → Option (List ℕ)
strchr [] c = none
strchr (x ∷ xs) c = let rest = strchr xs c in if x == c then some (x ∷ xs) else rest

-- gets with room for `room` characters and the 0, on what is left to read; the line and the rest.
unfoldable pub gets : (room : ℕ) → List ℕ → List ℕ × List ℕ
gets zero input = ([], input)
gets (suc n) [] = ([], [])
gets (suc n) (c ∷ cs) =
    let (line, rest) = gets n cs in if c == 10 || c == 13 then (c ∷ [], cs) else (c ∷ line, rest)

-- The loop of atoi; n is the bits of an int.
unfoldable pub atoi_from : ℕ → List ℕ → ℕ
atoi_from n [] = n
atoi_from n (c ∷ cs) =
    let rest = atoi_from ((n * 10 + c - 48) % 2 ^ 32) cs in if leb 48 c && leb c 57 then rest else n

abbrev pub atoi : List ℕ → ℕ
atoi s = atoi_from 0 s

-- digits[d], the string "0123456789ABCDEF"
abbrev pub digit : ℕ → ℕ
digit d = if ltb d 10 then 48 + d else 55 + d

-- The loop of printint: the digits of x in front of those in `written`. A round for each value of x is enough.
unfoldable pub put_digits : (fuel base x : ℕ) → (written : List ℕ) → List ℕ
put_digits zero base x written = written
put_digits (suc n) base x written =
    let rest = put_digits n base (x / base) (digit (x % base) ∷ written) in
    if x / base == 0 then digit (x % base) ∷ written else rest

-- With sgn, for an int.
abbrev pub printint : ℤ → (base : ℕ) → List ℕ
printint (pos x) base = put_digits (x + 1) base x []
printint (negsuc x) base = 45 ∷ put_digits (x + 2) base (x + 1) []

-- The stack that thread_create passes to clone: the block of two pages is rounded up to a page.
abbrev pub thread_stack : ℕ → ℕ
thread_stack block = (block + 4095) % 2 ^ 32 / 4096 * 4096

-- malloc and clone are parameters.
abbrev pub thread_create :
    (malloc : ℕ → Option ℕ) (clone : (start_routine arg stack : ℕ) → ℤ) (start_routine arg : ℕ) → ℤ
thread_create malloc clone start_routine arg = elim (malloc 8192) [
  | none ↦ minus_one
  | some block ↦ clone start_routine arg (thread_stack block)
]
