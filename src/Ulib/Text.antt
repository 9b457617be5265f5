-- ===== src/Ulib/Text.antt =====
-- strcmp of lab5/xv6-thread/user/ulib.c.
use ecnu_oslab.Base.{
  ℕ, ◌-◌, ◌<◌, ◌≡◌, ◌↔◌, refl, subst, inl, inr, arith, true, List, [], ◌∷◌, All, ltb, ◌==◌,
  Bool-cases, pos, negsuc,
}
use ecnu_oslab.Ulib.{difference, strcmp}

difference-zero : (a b : ℕ) → difference a b ≡ pos 0 → a ≡ b
difference-zero a b e = elim (Bool-cases (ltb a b)) [
  | inl t ↦ absurd (negative (b - a - 1) (rw t at e))
  | inr t ↦ ground (arith, t, positive (a - b) (rw t at e))
]
  where
    negative : (n : ℕ) → negsuc n ≡ pos 0 → ⊥
    negative n q = ground (arith, q)

    positive : (n : ℕ) → pos n ≡ pos 0 → n ≡ 0
    positive n q = ground (arith, q)

strcmp-zero : (p q : List ℕ) → All (λ c. 0 < c) p → All (λ c. 0 < c) q → strcmp p q ≡ pos 0 → p ≡ q
unfolding strcmp
strcmp-zero [] [] a b e = refl
strcmp-zero [] (d ∷ ds) a (z, b) e = absurd (ground (arith, z, difference-zero 0 d e))
strcmp-zero (c ∷ cs) [] (z, a) b e = absurd (ground (arith, z, difference-zero c 0 e))
strcmp-zero (c ∷ cs) (d ∷ ds) (y, a) (z, b) e = elim (Bool-cases (c == d)) [
  | inl t ↦ cons (ground (arith, t)) (strcmp-zero cs ds a b (rw t at e))
  | inr t ↦ absurd (ground (arith, t, difference-zero c d (rw t at e)))
]
  where
    cons : c ≡ d → cs ≡ ds → (c ∷ cs) ≡ (d ∷ ds)
    cons u v k = u k ∷ v k

strcmp-same : (p : List ℕ) → strcmp p p ≡ pos 0
unfolding strcmp
strcmp-same [] = refl
strcmp-same (c ∷ cs) = rw (self c) (strcmp-same cs)
  where
    self : (n : ℕ) → (n == n) ≡ true
    self n = ground arith

-- For strings of characters other than 0, strcmp returns 0 exactly if the strings are the same.
pub strcmp-Same_iff :
    (p q : List ℕ) → All (λ c. 0 < c) p → All (λ c. 0 < c) q → (strcmp p q ≡ pos 0) ↔ (p ≡ q)
strcmp-Same_iff p q a b =
    (strcmp-zero p q a b, (λ e. subst (λ x. strcmp p x ≡ pos 0) e (strcmp-same p)))
