-- ===== src/Buffers/Order.antt =====
-- The list of buffers in lab5/xv6-thread/kernel/bio.c: its members, and the two searches.
use ecnu_oslab.Base.{
  In, ℕ, zero, suc, ◌<◌, ◌≡◌, ◌≢◌, ◌⊎◌, refl, sym, ap, ◌∙◌, subst, inl, inr, arith, Bool, true,
  false, none, some, List, [], ◌∷◌, ◌==◌, equal, Bool-cases,
}
use ecnu_oslab.Buffers.{down_from, find_next, find_prev, unlink}

pub find_next-cases :
    (test : ℕ → Bool) (bs : List ℕ)
    → ((find_next test bs ≡ none) × ((i : ℕ) → In i bs → test i ≡ false))
      ⊎ ((i : ℕ) × (find_next test bs ≡ some i) × In i bs × (test i ≡ true))
unfolding find_next
find_next-cases test [] = inl (refl, λ i e. elim e [ ])
find_next-cases test (b ∷ bs) = elim (Bool-cases (test b)) [
  | inl t ↦ inr (b, rw t refl, inl refl, t)
  | inr t ↦ elim (find_next-cases test bs) [
    | inl (e, h) ↦ inl (rw t e, λ i m. elim m [ inl q ↦ ap test q ∙ t | inr m' ↦ h i m' ])
    | inr (i, e, m, u) ↦ inr (i, rw t e, inr m, u)
  ]
]

pub find_prev-cases :
    (test : ℕ → Bool) (bs : List ℕ)
    → ((find_prev test bs ≡ none) × ((i : ℕ) → In i bs → test i ≡ false))
      ⊎ ((i : ℕ) × (find_prev test bs ≡ some i) × In i bs × (test i ≡ true))
unfolding find_prev
find_prev-cases test [] = inl (refl, λ i e. elim e [ ])
find_prev-cases test (b ∷ bs) = elim (find_prev-cases test bs) [
  | inr (i, e, m, u) ↦ inr (i, rw e refl, inr m, u)
  | inl (e, h) ↦ elim (Bool-cases (test b)) [
    | inl t ↦ inr (b, rw (e, t) refl, inl refl, t)
    | inr t ↦ inl (rw (e, t) refl, λ i m. elim m [ inl q ↦ ap test q ∙ t | inr m' ↦ h i m' ])
  ]
]

-- The list holds the numbers below n, and no others.
abbrev pub Members : ℕ → List ℕ → Type 0
Members n bs = ((i : ℕ) → i < n → In i bs) × ((i : ℕ) → In i bs → i < n)

pub down_from-Members : (n : ℕ) → Members n (down_from n)
unfolding down_from
down_from-Members zero = (λ i l. absurd (omega (arith, l)), λ i e. elim e [ ])
down_from-Members (suc n) =
    let (f, g) = down_from-Members n in
    (
      λ i l. elim (equal i n) [ inl e ↦ inl e | inr d ↦ inr (f i (omega (arith, l, d))) ],
      λ i m. elim m [ inl e ↦ omega (arith, e) | inr m' ↦ omega (arith, g i m') ],
    )

unlink-other : (b i : ℕ) (bs : List ℕ) → i ≢ b → In i bs → In i (unlink b bs)
unfolding unlink
unlink-other b i [] n e = e
unlink-other b i (x ∷ xs) n m = elim (Bool-cases (x == b)) [
  | inl t ↦
      rw t
        (elim m [ inl q ↦ absurd (n (q ∙ ground (arith, t))) | inr m' ↦ unlink-other b i xs n m' ])
  | inr t ↦ rw t (elim m [ inl q ↦ inl q | inr m' ↦ inr (unlink-other b i xs n m') ])
]

unlink-fewer : (b i : ℕ) (bs : List ℕ) → In i (unlink b bs) → In i bs
unfolding unlink
unlink-fewer b i [] e = e
unlink-fewer b i (x ∷ xs) m = elim (Bool-cases (x == b)) [
  | inl t ↦ inr (unlink-fewer b i xs (rw t at m))
  | inr t ↦ elim (the_rest t m) [ inl q ↦ inl q | inr m' ↦ inr (unlink-fewer b i xs m') ]
]
  where
    the_rest : (x == b) ≡ false → In i (unlink b (x ∷ xs)) → (i ≡ x) ⊎ In i (unlink b xs)
    the_rest t m = rw t at m

-- A buffer moves to the head of the list.
pub moved-Members : (n b : ℕ) (bs : List ℕ) → b < n → Members n bs → Members n (b ∷ unlink b bs)
moved-Members n b bs l (f, g) = (
  λ i q. elim (equal i b) [ inl e ↦ inl e | inr d ↦ inr (unlink-other b i bs d (f i q)) ],
  λ i m. elim m [ inl e ↦ subst (λ k. k < n) (sym e) l | inr m' ↦ g i (unlink-fewer b i bs m') ],
)
