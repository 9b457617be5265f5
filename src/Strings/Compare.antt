-- ===== src/Strings/Compare.antt =====
-- memcmp and strncmp of lab5/xv6-thread/kernel/string.c, and when they find their arguments equal.
use ecnu_oslab.Base.{
  ℕ, zero, suc, ◌+◌, ◌-◌, ◌^◌, ◌<◌, ◌≡◌, ◌≢◌, ◌↔◌, refl, sym, ap, ◌∙◌, inl, inr, arith, true, ◌&&◌,
  not, leb, ◌==◌, if◌then◌else◌, Bool-cases, ℤ, pos, negsuc,
}
use ecnu_oslab.Strings.{Memory, up}
use ecnu_oslab.Strings.Move.{up_lem}

-- The difference of two bytes as an int.
abbrev pub minus : ℕ → ℕ → ℤ
minus a b = if leb b a then pos (a - b) else negsuc (b - a - 1)

unfoldable pub memcmp : (n p q : ℕ) → Memory → ℤ
memcmp zero p q m = pos 0
memcmp (suc n) p q m =
    let rest = memcmp n (up p) (up q) m in if m p == m q then rest else minus (m p) (m q)

unfoldable pub strncmp : (n p q : ℕ) → Memory → ℤ
strncmp zero p q m = pos 0
strncmp (suc n) p q m =
    let rest = strncmp n (up p) (up q) m in
    if not (m p == 0) && m p == m q then rest else minus (m p) (m q)

minus-zero : (a b : ℕ) → minus a b ≡ pos 0 → a ≡ b
minus-zero a b e = ground (arith, e)

minus_same : (a b : ℕ) → a ≡ b → minus a b ≡ pos 0
minus_same a b e = ground (arith, e)

-- The n bytes at p and those at q are the same.
abbrev pub SameBytes : (n p q : ℕ) → Memory → Type 0
SameBytes n p q m = (i : ℕ) → i < n → m (p + i) ≡ m (q + i)

SameBytes-suc :
    (n p q : ℕ) (m : Memory) → m p ≡ m q → SameBytes n (p + 1) (q + 1) m → SameBytes (suc n) p q m
SameBytes-suc n p q m e h zero l = ap m (omega arith) ∙ e ∙ ap m (omega arith)
SameBytes-suc n p q m e h (suc i) l = ap m (omega arith) ∙ h i (omega arith) ∙ ap m (omega arith)

memcmp-SameBytes :
    (n p q : ℕ) (m : Memory)
    → p + n < 2 ^ 32
    → q + n < 2 ^ 32
    → memcmp n p q m ≡ pos 0
    → SameBytes n p q m
unfolding memcmp
memcmp-SameBytes zero p q m a b e = λ i l. absurd (omega arith)
memcmp-SameBytes (suc n) p q m a b e = elim (Bool-cases (m p == m q)) [
  | inl t ↦ SameBytes-suc n p q m (ground (arith, t)) (
      memcmp-SameBytes n (p + 1) (q + 1) m (omega arith) (omega arith)
        (ground (arith, t, e, up_lem p (omega arith), up_lem q (omega arith))))
  | inr t ↦ absurd (ground (arith, t, minus-zero (m p) (m q) (ground (arith, t, e))))
]

SameBytes-memcmp :
    (n p q : ℕ) (m : Memory)
    → p + n < 2 ^ 32
    → q + n < 2 ^ 32
    → SameBytes n p q m
    → memcmp n p q m ≡ pos 0
unfolding memcmp
SameBytes-memcmp zero p q m a b h = refl
SameBytes-memcmp (suc n) p q m a b h =
    rw (up_lem p (omega arith), up_lem q (omega arith), same)
      (SameBytes-memcmp n (p + 1) (q + 1) m (omega arith) (omega arith) later)
  where
    same : (m p == m q) ≡ true
    same = ground (arith, ap m (first p) ∙ h 0 (omega arith) ∙ ap m (sym (first q)))
      where
        first : (x : ℕ) → x ≡ x + 0
        first x = omega arith

    later : SameBytes n (p + 1) (q + 1) m
    later i l = ap m (omega arith) ∙ h (suc i) (omega arith) ∙ ap m (omega arith)

-- For ranges that do not reach the end of the 32-bit addresses, memcmp returns 0 exactly if their bytes
-- are the same.
pub memcmp-SameBytes_iff :
    (n p q : ℕ) (m : Memory)
    → p + n < 2 ^ 32
    → q + n < 2 ^ 32
    → (memcmp n p q m ≡ pos 0) ↔ SameBytes n p q m
memcmp-SameBytes_iff n p q m a b = (memcmp-SameBytes n p q m a b, SameBytes-memcmp n p q m a b)

-- The strings at p and q agree on n bytes, or up to the end of both before that.
abbrev pub SameStart : (n p q : ℕ) → Memory → Type 0
SameStart n p q m = (i : ℕ) → i < n → ((j : ℕ) → j < i → m (p + j) ≢ 0) → m (p + i) ≡ m (q + i)

SameStart-suc :
    (n p q : ℕ) (m : Memory)
    → m p ≡ m q
    → (m p ≢ 0 → SameStart n (p + 1) (q + 1) m)
    → SameStart (suc n) p q m
SameStart-suc n p q m e h zero l z = ap m (omega arith) ∙ e ∙ ap m (omega arith)
SameStart-suc n p q m e h (suc i) l z =
    ap m (omega arith)
    ∙ h (λ x. z 0 (omega arith) (ap m (omega arith) ∙ x)) i (omega arith)
        (λ j k x. z (suc j) (omega arith) (ap m (omega arith) ∙ x))
    ∙ ap m (omega arith)

strncmp-SameStart :
    (n p q : ℕ) (m : Memory)
    → p + n < 2 ^ 32
    → q + n < 2 ^ 32
    → strncmp n p q m ≡ pos 0
    → SameStart n p q m
unfolding strncmp
strncmp-SameStart zero p q m a b e = λ i l z. absurd (omega arith)
strncmp-SameStart (suc n) p q m a b e = elim (Bool-cases (not (m p == 0) && m p == m q)) [
  | inl t ↦ SameStart-suc n p q m (ground (arith, t)) (λ x.
      strncmp-SameStart n (p + 1) (q + 1) m (omega arith) (omega arith)
        (ground (arith, t, e, up_lem p (omega arith), up_lem q (omega arith))))
  | inr t ↦
      let same = minus-zero (m p) (m q) (ground (arith, t, e)) in
      SameStart-suc n p q m same (λ x. absurd (ground (arith, t, same, x)))
]

SameStart-strncmp :
    (n p q : ℕ) (m : Memory)
    → p + n < 2 ^ 32
    → q + n < 2 ^ 32
    → SameStart n p q m
    → strncmp n p q m ≡ pos 0
unfolding strncmp
SameStart-strncmp zero p q m a b h = refl
SameStart-strncmp (suc n) p q m a b h = elim (Bool-cases (m p == 0)) [
  | inl t ↦ ground (arith, t, minus_same (m p) (m q) same)
  | inr t ↦ ground (
    arith,
    t,
    same,
    up_lem p (omega arith),
    up_lem q (omega arith),
    SameStart-strncmp n (p + 1) (q + 1) m (omega arith) (omega arith) (later (ground (arith, t))),
  )
]
  where
    same : m p ≡ m q
    same = ap m (omega arith) ∙ h 0 (omega arith) (λ j k. absurd (omega arith)) ∙ ap m (omega arith)

    later : m p ≢ 0 → SameStart n (p + 1) (q + 1) m
    later x i l z = ap m (omega arith) ∙ h (suc i) (omega arith) before ∙ ap m (omega arith)
      where
        before : (j : ℕ) → j < suc i → m (p + j) ≢ 0
        before zero k e = x (ap m (omega arith) ∙ e)
        before (suc j) k e = z j (omega arith) (ap m (omega arith) ∙ e)

-- For ranges that do not reach the end of the 32-bit addresses, strncmp returns 0 exactly if the strings
-- agree on n bytes, or up to the end of both before that.
pub strncmp-SameStart_iff :
    (n p q : ℕ) (m : Memory)
    → p + n < 2 ^ 32
    → q + n < 2 ^ 32
    → (strncmp n p q m ≡ pos 0) ↔ SameStart n p q m
strncmp-SameStart_iff n p q m a b = (strncmp-SameStart n p q m a b, SameStart-strncmp n p q m a b)
