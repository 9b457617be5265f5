-- ===== src/Ulib/Numbers.antt =====
-- atoi of lab5/xv6-thread/user/ulib.c and printint of printf.c.
use ecnu_oslab.Base.{
  ℕ, zero, suc, ◌+◌, ◌-◌, ◌*◌, ◌/◌, ◌%◌, ◌^◌, ◌<◌, ◌≡◌, refl, ap, ◌∙◌, inl, inr, arith, true, ◌&&◌,
  List, [], ◌∷◌, leb, ◌==◌, Bool-cases, pos,
}
use ecnu_oslab.Ulib.{atoi_from, atoi, digit, put_digits, printint}

-- atoi at a digit.
at_digit :
    (k d : ℕ) (cs : List ℕ)
    → d < 10
    → k * 10 + d < 2 ^ 31
    → atoi_from k (digit d ∷ cs) ≡ atoi_from (k * 10 + d) cs
unfolding atoi_from
at_digit k d cs l m = rw (is_digit, value) refl
  where
    is_digit : (leb 48 (digit d) && leb (digit d) 57) ≡ true
    is_digit = ground (arith, l)

    value : (k * 10 + digit d - 48) % 2 ^ 32 ≡ k * 10 + d
    value = ground (arith, l, m)

atoi_from-put_digits :
    (fuel x : ℕ) (written : List ℕ)
    → x < fuel
    → x < 2 ^ 31
    → atoi_from 0 (put_digits fuel 10 x written) ≡ atoi_from x written
unfolding put_digits
atoi_from-put_digits zero x written l m = absurd (omega (arith, l))
atoi_from-put_digits (suc n) x written l m = elim (Bool-cases (x / 10 == 0)) [
  | inl t ↦ rw t (
      at_digit 0 (x % 10) written (omega arith) (omega (arith, m))
      ∙ ap (λ y. atoi_from y written) (ground (arith, t)))
  | inr t ↦ rw t (
      atoi_from-put_digits n (x / 10) (digit (x % 10) ∷ written) (ground (arith, t, l))
        (omega (arith, m))
      ∙ at_digit (x / 10) (x % 10) written (omega arith) (omega (arith, m))
      ∙ ap (λ y. atoi_from y written) (omega arith))
]

-- For a number below 2^31, atoi of what printint writes in base 10 is the number.
pub atoi-printint : (x : ℕ) → x < 2 ^ 31 → atoi (printint (pos x) 10) ≡ x
unfolding atoi_from
atoi-printint x l = atoi_from-put_digits (x + 1) x [] (omega arith) l
