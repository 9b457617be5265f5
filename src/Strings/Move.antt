-- ===== src/Strings/Move.antt =====
-- memmove of lab5/xv6-thread/kernel/string.c copies also where the two ranges overlap.
use ecnu_oslab.Base.{
  ℕ, zero, suc, ◌+◌, ◌%◌, ◌^◌, ◌≤◌, ◌<◌, ◌≡◌, ◌⊎◌, refl, ap, ◌∙◌, inl, inr, arith, Bool-cases,
  equal, ◌&&◌, ltb,
}
use ecnu_oslab.Strings.{Memory, up, down, write, forward, backward, memmove}

pub up_lem : (x : ℕ) → x + 1 < 2 ^ 32 → up x ≡ x + 1
up_lem x l = omega arith

down_lem : (x y : ℕ) → x ≡ y + 1 → x < 2 ^ 32 → down x ≡ y
down_lem x y e l = omega (arith, e)

wrap : (x : ℕ) → x < 2 ^ 32 → x % 2 ^ 32 ≡ x
wrap x l = omega arith

-- The memory m' has at d the n bytes that m has at s, and elsewhere what m has.
pub record Copied (n d s : ℕ) (m m' : Memory) : Type 0 where
  pub inside : (i : ℕ) → i < n → m' (d + i) ≡ m (s + i)
  pub outside : (a : ℕ) → (a < d) ⊎ (d + n ≤ a) → m' a ≡ m a

forward_step :
    (n d s : ℕ) (m m' : Memory)
    → (d ≤ s) ⊎ (s + suc n ≤ d)
    → Copied n (d + 1) (s + 1) (write m d (m s)) m'
    → Copied (suc n) d s m m'
forward_step n d s m m' o c = record {
  inside = inside;
  outside = λ a l. c.outside a (beyond a l) ∙ ground arith;
}
  where
    beyond : (a : ℕ) → (a < d) ⊎ (d + suc n ≤ a) → (a < d + 1) ⊎ (d + 1 + n ≤ a)
    beyond a (inl l) = inl (omega arith)
    beyond a (inr l) = inr (omega arith)

    inside : (i : ℕ) → i < suc n → m' (d + i) ≡ m (s + i)
    inside zero l = ap m' (omega arith) ∙ c.outside d (inl (omega arith)) ∙ ground arith
    inside (suc i) l = ap m' (omega arith) ∙ c.inside i (omega arith) ∙ ground (arith, o)

forward-Copied :
    (n d s : ℕ) (m : Memory)
    → s + n < 2 ^ 32
    → d + n < 2 ^ 32
    → (d ≤ s) ⊎ (s + n ≤ d)
    → Copied n d s m (forward n d s m)
unfolding forward
forward-Copied zero d s m p q o = record {
  inside = λ i l. absurd (omega arith);
  outside = λ a l. refl;
}
forward-Copied (suc n) d s m p q o =
    rw (up_lem d (omega arith), up_lem s (omega arith))
      (forward_step n d s m _ o
        (forward-Copied n (d + 1) (s + 1) _ (omega arith) (omega arith) (ground (arith, o))))

backward_step :
    (n d s : ℕ) (m m' : Memory)
    → s ≤ d
    → Copied n d s (write m (d + n) (m (s + n))) m'
    → Copied (suc n) d s m m'
backward_step n d s m m' o c = record {
  inside = inside;
  outside = λ a l. c.outside a (beyond a l) ∙ ground arith;
}
  where
    beyond : (a : ℕ) → (a < d) ⊎ (d + suc n ≤ a) → (a < d) ⊎ (d + n ≤ a)
    beyond a (inl l) = inl l
    beyond a (inr l) = inr (omega arith)

    inside : (i : ℕ) → i < suc n → m' (d + i) ≡ m (s + i)
    inside i l = elim (equal i n) [
      | inl e ↦ c.outside (d + i) (inr (omega (arith, e))) ∙ ground (arith, e)
      | inr e ↦ c.inside i (omega (arith, e)) ∙ ground (arith, e)
    ]

-- The pointers start behind the ranges.
backward-Copied :
    (n d s : ℕ) (m : Memory)
    → s + n < 2 ^ 32
    → d + n < 2 ^ 32
    → s ≤ d
    → Copied n d s m (backward n (d + n) (s + n) m)
unfolding backward
backward-Copied zero d s m p q o = record {
  inside = λ i l. absurd (omega arith);
  outside = λ a l. refl;
}
backward-Copied (suc n) d s m p q o =
    rw
      (
        down_lem (d + suc n) (d + n) (omega arith) (omega arith),
        down_lem (s + suc n) (s + n) (omega arith) (omega arith),
      )
      (backward_step n d s m _ o (backward-Copied n d s _ (omega arith) (omega arith) o))

-- If neither range reaches the end of the 32-bit addresses, memmove leaves at dst the n bytes that were
-- at src, also where the ranges overlap, and changes no other byte.
pub memmove-Copied :
    (dst src n : ℕ) (m : Memory)
    → src + n < 2 ^ 32
    → dst + n < 2 ^ 32
    → Copied n dst src m (memmove dst src n m)
unfolding memmove
memmove-Copied dst src n m p q =
    rw (wrap (src + n) p, wrap (dst + n) q)
      (elim (Bool-cases (ltb src dst && ltb dst (src + n))) [
        | inl t ↦ rw t (backward-Copied n dst src m p q (ground (arith, t)))
        | inr t ↦ rw t (forward-Copied n dst src m p q (ground (arith, t)))
      ])
