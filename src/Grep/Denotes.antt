-- ===== src/Grep/Denotes.antt =====
-- The language of the expressions of lab5/xv6-thread/user/grep.c, as rules, and the matcher against it.
use ecnu_oslab.Base.{
  ℕ, ◌≡◌, ◌≢◌, ◌⊎◌, ◌↔◌, refl, sym, ap, subst, inl, inr, arith, Bool, true, ◌&&◌, ◌||◌, List, [],
  ◌∷◌, ◌++◌, ◌==◌, Bool-cases,
}
use ecnu_oslab.Grep.{star, dollar, caret, fits, matchstar, match_char, matchhere, anywhere, match}

-- A beginning of the text matches the expression: a character with a star behind it stands for any
-- number of characters that fit it, a dollar at the end of the expression for the end of the text, and
-- any other character for one that fits it.
pub data Here : (re text : List ℕ) → Type 0 where
  done : {text : List ℕ} → Here [] text
  at_end : Here (dollar ∷ []) []
  stop : {c : ℕ} {re text : List ℕ} → Here re text → Here (c ∷ star ∷ re) text
  more :
      {c t : ℕ} {re text : List ℕ}
      → fits c t ≡ true
      → Here (c ∷ star ∷ re) text
      → Here (c ∷ star ∷ re) (t ∷ text)
  final : {c t : ℕ} {text : List ℕ} → c ≢ dollar → fits c t ≡ true → Here (c ∷ []) (t ∷ text)
  one :
      {c d t : ℕ} {re text : List ℕ}
      → d ≢ star
      → fits c t ≡ true
      → Here (d ∷ re) text
      → Here (c ∷ d ∷ re) (t ∷ text)

and-true : (a b : Bool) → (a && b) ≡ true → (a ≡ true) × (b ≡ true)
and-true a b e = (ground arith, ground arith)

or-true : (a b : Bool) → (a || b) ≡ true → (a ≡ true) ⊎ (b ≡ true)
or-true a b e = ground arith

matchstar-Here :
    (c : ℕ) (re text : List ℕ)
    → ((ts : List ℕ) → matchhere re ts ≡ true → Here re ts)
    → matchstar (matchhere re) c text ≡ true
    → Here (c ∷ star ∷ re) text
unfolding matchstar
matchstar-Here c re [] f e = stop (f [] e)
matchstar-Here c re (t ∷ ts) f e = elim (or-true _ _ e) [
  | inl h ↦ stop (f (t ∷ ts) h)
  | inr h ↦ let (a, b) = and-true _ _ h in more a (matchstar-Here c re ts f b)
]

match_char-Here :
    (c d : ℕ) (re text : List ℕ)
    → d ≢ star
    → ((ts : List ℕ) → matchhere (d ∷ re) ts ≡ true → Here (d ∷ re) ts)
    → match_char (matchhere (d ∷ re)) c text ≡ true
    → Here (c ∷ d ∷ re) text
match_char-Here c d re [] n f e = absurd (ground (arith, e))
match_char-Here c d re (t ∷ ts) n f e = let (a, b) = and-true _ _ e in one n a (f ts b)

matchhere-Here : (re text : List ℕ) → matchhere re text ≡ true → Here re text
unfolding matchhere
matchhere-Here [] text e = done
matchhere-Here (c ∷ []) [] e = elim (Bool-cases (c == dollar)) [
  | inl q ↦ subst (λ d. Here (d ∷ []) []) (ground (arith, q)) at_end
  | inr q ↦ absurd (ground (arith, q, e))
]
matchhere-Here (c ∷ []) (t ∷ ts) e = elim (Bool-cases (c == dollar)) [
  | inl q ↦ absurd (ground (arith, q, e))
  | inr q ↦ final (ground (arith, q)) (ground (arith, q, e))
]
matchhere-Here (c ∷ d ∷ re) text e = elim (Bool-cases (d == star)) [
  | inl q ↦
      subst (λ x. Here (c ∷ x ∷ re) text) (ground (arith, q))
        (matchstar-Here c re text (matchhere-Here re) (ground (arith, q, e)))
  | inr q ↦
      match_char-Here c d re text (ground (arith, q)) (matchhere-Here (d ∷ re))
        (ground (arith, q, e))
]

matchstar-stop :
    (here : List ℕ → Bool) (c : ℕ) (text : List ℕ) → here text ≡ true → matchstar here c text ≡ true
unfolding matchstar
matchstar-stop here c [] e = e
matchstar-stop here c (t ∷ ts) e = ground (arith, e)

Here-matchhere : {re text : List ℕ} → Here re text → matchhere re text ≡ true
unfolding matchhere matchstar
Here-matchhere done = refl
Here-matchhere at_end = refl
Here-matchhere (stop {c} {re} {text} h) = matchstar-stop (matchhere re) c text (Here-matchhere h)
Here-matchhere (more e h) = ground (arith, e, Here-matchhere h)
Here-matchhere (final n e) = ground (arith, n, e)
Here-matchhere (one n e h) = ground (arith, n, e, Here-matchhere h)

-- matchhere finds a match exactly if a beginning of the text matches the expression.
pub matchhere-Here_iff : (re text : List ℕ) → (matchhere re text ≡ true) ↔ Here re text
matchhere-Here_iff re text = (matchhere-Here re text, Here-matchhere)

-- The places in the text where a match may start.
abbrev pub Somewhere : (re text : List ℕ) → Type 0
Somewhere re text = (front : List ℕ) × (back : List ℕ) × (text ≡ front ++ back) × Here re back

anywhere-Somewhere : (re text : List ℕ) → anywhere re text ≡ true → Somewhere re text
unfolding anywhere
anywhere-Somewhere re [] e = ([], [], refl, matchhere-Here re [] e)
anywhere-Somewhere re (t ∷ ts) e = elim (or-true _ _ e) [
  | inl h ↦ ([], t ∷ ts, refl, matchhere-Here re (t ∷ ts) h)
  | inr h ↦
      let (front, back, q, m) = anywhere-Somewhere re ts h in
      (t ∷ front, back, ap (λ x. t ∷ x) q, m)
]

Here-anywhere : (re front back : List ℕ) → Here re back → anywhere re (front ++ back) ≡ true
unfolding anywhere
Here-anywhere re [] [] h = Here-matchhere h
Here-anywhere re [] (t ∷ ts) h = ground (arith, Here-matchhere h)
Here-anywhere re (t ∷ front) back h = ground (arith, Here-anywhere re front back h)

-- What match looks for: behind a caret at the start of the expression, a match at the start of the
-- text, and else one that starts anywhere in the text, also at its end.
abbrev pub Found : (re text : List ℕ) → Type 0
Found [] text = Somewhere [] text
Found (c ∷ re) text = ((c ≡ caret) × Here re text) ⊎ ((c ≢ caret) × Somewhere (c ∷ re) text)

match-Found : (re text : List ℕ) → match re text ≡ true → Found re text
unfolding match
match-Found [] text e = anywhere-Somewhere [] text e
match-Found (c ∷ re) text e = elim (Bool-cases (c == caret)) [
  | inl q ↦ inl (ground (arith, q), matchhere-Here re text (ground (arith, q, e)))
  | inr q ↦ inr (ground (arith, q), anywhere-Somewhere (c ∷ re) text (ground (arith, q, e)))
]

Found-match : (re text : List ℕ) → Found re text → match re text ≡ true
unfolding match
Found-match [] text (front, back, e, h) =
    subst (λ t. anywhere [] t ≡ true) (sym e) (Here-anywhere [] front back h)
Found-match (c ∷ re) text (inl (q, h)) = ground (arith, q, Here-matchhere h)
Found-match (c ∷ re) text (inr (n, (front, back, e, h))) = ground (
  arith,
  n,
  subst (λ t. anywhere (c ∷ re) t ≡ true) (sym e) (Here-anywhere (c ∷ re) front back h),
)

-- match returns true exactly if the text matches the expression: at its start for an expression that
-- begins with a caret, and else from some place on, its end included.
pub match-Found_iff : (re text : List ℕ) → (match re text ≡ true) ↔ Found re text
match-Found_iff re text = (match-Found re text, Found-match re text)
