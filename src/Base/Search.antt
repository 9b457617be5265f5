-- ===== src/Base/Search.antt =====
-- The loop that looks for the first index with a property, as the kernel's tables are searched.
use Prim.Native.Nat.{ℕ, zero, suc, ◌+◌, ◌≤◌, ◌<◌}
use mathlib.Core.Path.{◌≡◌, refl}
use mathlib.Core.Logic.{◌⊎◌, inl, inr}
use mathlib.Core.Bool.{Bool, true, false}
use mathlib.Core.Option.{Option, none, some}
use native.Mathlib.Omega.{arith}
use ecnu_oslab.Base.Tests.{if◌then◌else◌, Bool-cases}

-- for (i = start; i < start + n; i++) if (test(i)) goto found;
unfoldable pub find_index : (ℕ → Bool) → (n start : ℕ) → Option ℕ
find_index test zero start = none
find_index test (suc n) start =
    let rest = find_index test n (start + 1) in if test start then some start else rest

-- What the loop finds is the first such index; it finds none only if there is none.
pub data FirstIndex (test : ℕ → Bool) (start stop : ℕ) : Option ℕ → Type 0 where
  missing : ((j : ℕ) → start ≤ j → j < stop → test j ≡ false) → FirstIndex test start stop none
  found :
      {i : ℕ}
      → start ≤ i
      → i < stop
      → test i ≡ true
      → ((j : ℕ) → start ≤ j → j < i → test j ≡ false)
      → FirstIndex test start stop (some i)

extend :
    {test : ℕ → Bool} (start stop : ℕ) {o : Option ℕ}
    → test start ≡ false
    → FirstIndex test (start + 1) stop o
    → FirstIndex test start stop o
extend start stop e (missing h) = missing (λ j l r. ground (arith, h j))
extend start stop e (found l r t h) = found (omega arith) r t (λ j p q. ground (arith, h j))

pub find_index-FirstIndex :
    (test : ℕ → Bool) (n start : ℕ) → FirstIndex test start (start + n) (find_index test n start)
unfolding find_index
find_index-FirstIndex test zero start = missing (λ j l r. absurd (omega arith))
find_index-FirstIndex test (suc n) start = elim (Bool-cases (test start)) [
  | inl t ↦ rw t (found (omega arith) (omega arith) t (λ j l r. absurd (omega arith)))
  | inr f ↦ rw f (extend start (start + suc n) f (shift (find_index-FirstIndex test n (start + 1))))
]
  where
    shift :
        {o : Option ℕ}
        → FirstIndex test (start + 1) (start + 1 + n) o
        → FirstIndex test (start + 1) (start + suc n) o
    shift (missing h) = missing (λ j l r. h j l (omega arith))
    shift (found l r t h) = found l (omega arith) t h

pub find_index-cases :
    (test : ℕ → Bool) (n : ℕ)
    → ((find_index test n 0 ≡ none) × ((j : ℕ) → j < n → test j ≡ false))
      ⊎ ((i : ℕ) × (find_index test n 0 ≡ some i)
          × (i < n)
          × (test i ≡ true)
          × ((j : ℕ) → j < i → test j ≡ false))
find_index-cases test n = cases (find_index test n 0) (find_index-FirstIndex test n 0)
  where
    cases :
        (o : Option ℕ)
        → FirstIndex test 0 (0 + n) o
        → ((o ≡ none) × ((j : ℕ) → j < n → test j ≡ false))
          ⊎ ((i : ℕ) × (o ≡ some i)
              × (i < n)
              × (test i ≡ true)
              × ((j : ℕ) → j < i → test j ≡ false))
    cases none (missing h) = inl (refl, λ j l. h j (omega arith) (omega arith))
    cases (some i) (found p l t h) = inr (i, refl, omega arith, t, λ j r. h j (omega arith) r)
