-- ===== src/Fs/Bits.antt =====
-- The bitmap of lab5/xv6-thread/kernel/fs.c: setting and clearing one bit of a block.
use ecnu_oslab.Base.{
  ℕ, zero, suc, ◌-◌, ◌/◌, ◌%◌, ◌^◌, ◌<◌, ◌≡◌, ◌≢◌, refl, ap, ◌∙◌, inl, inr, arith, Bool, true,
  false, ◌&&◌, not, equal, ◌==◌, ==_iff, if◌then◌else◌,
}
use Prim.Native.Nat.{bit_and, bit_or}
use ecnu_oslab.Fs.{Block, is_clear, set_bit, clear_bit}

-- The conjunction of a test over the numbers below `stop`, computed from the largest one down.
holds_for : (test : ℕ → Bool) (stop : ℕ) → Bool
holds_for test zero = true
holds_for test (suc last) = let fewer = holds_for test last in if test last then fewer else false

holds_for-at :
    (test : ℕ → Bool) (stop i : ℕ) → i < stop → holds_for test stop ≡ true → test i ≡ true
unfolding holds_for
holds_for-at test (suc last) i below good = elim (equal i last) [
  | inl e ↦ ap test e ∙ ground (arith, good)
  | inr n ↦ holds_for-at test last i (omega arith) (ground (arith, good))
]
holds_for-at test zero i below good = absurd (omega (arith, below))

-- Whether the j-th bit of a byte is clear.
abbrev clear_at : (x j : ℕ) → Bool
clear_at x j = bit_and x (2 ^ j) == 0

abbrev same : Bool → Bool → Bool
same true b = b
same false b = not b

same-eq : (a b : Bool) → same a b ≡ true → a ≡ b
same-eq true b e = ground arith
same-eq false b e = ground arith

-- What `|= 1 << k` and `&= ~(1 << k)` do to the bits of a byte.
abbrev masks : (x k j : ℕ) → Bool
masks x k j =
    same (clear_at (bit_or x (2 ^ k)) j) (if j == k then false else clear_at x j)
    && same (clear_at (bit_and x (255 - 2 ^ k)) j) (if j == k then true else clear_at x j)

masks_table : holds_for (λ x. holds_for (λ k. holds_for (masks x k) 8) 8) 256 ≡ true
unfolding holds_for
masks_table = refl

masks_lem : (x k j : ℕ) → x < 256 → k < 8 → j < 8 → masks x k j ≡ true
masks_lem x k j l m n =
    holds_for-at _ 8 j n (holds_for-at _ 8 k m (holds_for-at _ 256 x l masks_table))

bounds_table :
    holds_for
      (λ x. holds_for (λ k. bit_or x (2 ^ k) / 256 == 0 && bit_and x (255 - 2 ^ k) / 256 == 0) 8)
      256
    ≡ true
unfolding holds_for
bounds_table = refl

abbrev pub IsBytes : Block → Type 0
IsBytes b = (i : ℕ) → b i < 256

-- The test of a bit in a block whose byte `at` has been changed by f.
changed :
    (f : ℕ → ℕ) (b : Block) (i j at : ℕ)
    → i ≡ at
    → clear_at (if i == at then f (b i) else b i) j ≡ clear_at (f (b i)) j
changed f b i j at e = ap (λ x. clear_at x j) (ground (arith, e))

kept :
    (f : ℕ → ℕ) (b : Block) (i j at : ℕ)
    → i ≢ at
    → clear_at (if i == at then f (b i) else b i) j ≡ clear_at (b i) j
kept f b i j at n = ap (λ x. clear_at x j) (ground (arith, n))

same_index : (ci bi : ℕ) → ci / 8 ≡ bi / 8 → (ci % 8 == bi % 8) ≡ (ci == bi)
same_index ci bi e = ground (arith, e)

both : (a b : Bool) → (a && b) ≡ true → (a ≡ true) × (b ≡ true)
both a b e = (ground arith, ground arith)

pub choose_same : (t u : Bool) (a b : Bool) → t ≡ u → (if t then a else b) ≡ (if u then a else b)
choose_same t u a b e = ap (λ x. if x then a else b) e

pub choose_false : (t : Bool) (a b : Bool) → t ≡ false → b ≡ (if t then a else b)
choose_false t a b e = ground (arith, e)

other_index : (ci bi : ℕ) → ci / 8 ≢ bi / 8 → (ci == bi) ≡ false
other_index ci bi n = ground (arith, n)

pub is_clear-set_bit :
    (b : Block) (bi ci : ℕ)
    → IsBytes b
    → is_clear (set_bit b bi) ci ≡ (if ci == bi then false else is_clear b ci)
is_clear-set_bit b bi ci h = elim (equal (ci / 8) (bi / 8)) [
  | inl e ↦
      changed (λ x. bit_or x (2 ^ (bi % 8))) b (ci / 8) (ci % 8) (bi / 8) e
      ∙ same-eq _ _
          (both _ _
            (masks_lem (b (ci / 8)) (bi % 8) (ci % 8) (h (ci / 8)) (omega arith) (omega arith))).0
      ∙ choose_same _ _ false (is_clear b ci) (same_index ci bi e)
  | inr n ↦
      kept (λ x. bit_or x (2 ^ (bi % 8))) b (ci / 8) (ci % 8) (bi / 8) n
      ∙ choose_false (ci == bi) false (is_clear b ci) (other_index ci bi n)
]

pub is_clear-clear_bit :
    (b : Block) (bi ci : ℕ)
    → IsBytes b
    → is_clear (clear_bit b bi) ci ≡ (if ci == bi then true else is_clear b ci)
is_clear-clear_bit b bi ci h = elim (equal (ci / 8) (bi / 8)) [
  | inl e ↦
      changed (λ x. bit_and x (255 - 2 ^ (bi % 8))) b (ci / 8) (ci % 8) (bi / 8) e
      ∙ same-eq _ _
          (both _ _
            (masks_lem (b (ci / 8)) (bi % 8) (ci % 8) (h (ci / 8)) (omega arith) (omega arith))).1
      ∙ choose_same _ _ true (is_clear b ci) (same_index ci bi e)
  | inr n ↦
      kept (λ x. bit_and x (255 - 2 ^ (bi % 8))) b (ci / 8) (ci % 8) (bi / 8) n
      ∙ choose_false (ci == bi) true (is_clear b ci) (other_index ci bi n)
]

bounds : (x k : ℕ) → x < 256 → k < 8 → bit_or x (2 ^ k) / 256 ≡ 0
bounds x k l m =
    (==_iff (bit_or x (2 ^ k) / 256) 0).0
      (both _ _ (holds_for-at _ 8 k m (holds_for-at _ 256 x l bounds_table))).0

pub set_bit-IsBytes : (b : Block) (bi : ℕ) → IsBytes b → IsBytes (set_bit b bi)
set_bit-IsBytes b bi h i = ground (arith, h i, bounds (b i) (bi % 8) (h i) (omega arith))
