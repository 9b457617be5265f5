-- ===== src/Fs/Elements.antt =====
-- Paths in lab5/xv6-thread/kernel/fs.c: skipelem.
use ecnu_oslab.Base.{
  ℕ, ◌<◌, ◌≡◌, ◌≢◌, ◌⊎◌, refl, sym, ap, ◌∙◌, inl, inr, subst, arith, ◌==◌, Bool-cases, none, some,
  List, [], ◌∷◌, ◌++◌, length, append-nil, All,
}
use ecnu_oslab.Fs.Content.{take}
use ecnu_oslab.Fs.Names.{dirsiz, slash, skip_slashes, element, split_path, skipelem}

-- A predicate on the first character, if there is one.
abbrev pub First : (ℕ → Type 0) → List ℕ → Type 0
First P [] = Unit
First P (c ∷ cs) = P c

skip_slashes_lem :
    (p : List ℕ)
    → (pre : List ℕ) × (p ≡ pre ++ skip_slashes p)
      × All (λ c. c ≡ slash) pre
      × First (λ c. c ≢ slash) (skip_slashes p)
unfolding skip_slashes
skip_slashes_lem [] = ([], refl, tt, tt)
skip_slashes_lem (c ∷ cs) = elim (Bool-cases (c == slash)) [
  | inl t ↦
      (let (pre, e, a, f) = skip_slashes_lem cs in
        rw t (c ∷ pre, ap (λ l. c ∷ l) e, (ground (arith, t), a), f))
  | inr t ↦ rw t ([], refl, tt, (λ e. ground (arith, t, e)))
]

element_lem :
    (p : List ℕ)
    → (p ≡ (element p).0 ++ (element p).1)
      × All (λ c. c ≢ slash) (element p).0
      × First (λ c. c ≡ slash) (element p).1
unfolding element
element_lem [] = (refl, tt, tt)
element_lem (c ∷ cs) = elim (Bool-cases (c == slash)) [
  | inl t ↦ rw t (refl, tt, ground (arith, t))
  | inr t ↦
      (let (e, a, f) = element_lem cs in
        rw t (ap (λ l. c ∷ l) e, ((λ e. ground (arith, t, e)), a), f))
]

element-some : (c : ℕ) (cs : List ℕ) → c ≢ slash → 0 < length (element (c ∷ cs)).0
unfolding element
element-some c cs n = elim (Bool-cases (c == slash)) [
  | inl t ↦ absurd (ground (arith, t, n))
  | inr t ↦ rw t (omega arith)
]

-- How a path falls into slashes, a name without slashes, slashes, and the rest.
pub record Split (path name rest : List ℕ) : Type 0 where
  pub before : List ℕ
  pub between : List ℕ
  pub whole : path ≡ before ++ (name ++ (between ++ rest))
  pub slashes_before : All (λ c. c ≡ slash) before
  pub slashes_between : All (λ c. c ≡ slash) between
  pub no_slash : All (λ c. c ≢ slash) name
  pub some_name : 0 < length name
  pub name_ends : First (λ c. c ≡ slash) (between ++ rest)
  pub rest_starts : First (λ c. c ≢ slash) rest

split_path_lem :
    (pre p : List ℕ)
    → All (λ c. c ≡ slash) pre
    → First (λ c. c ≢ slash) p
    → ((split_path p ≡ none) × All (λ c. c ≡ slash) (pre ++ p))
      ⊎ ((name : List ℕ) × (rest : List ℕ) × (split_path p ≡ some (take dirsiz name, rest))
          × Split (pre ++ p) name rest)
split_path_lem pre [] a f = inl (refl, subst (All (λ c. c ≡ slash)) (sym (append-nil pre)) a)
split_path_lem pre (c ∷ cs) a f =
    let (e, w, g) = element_lem (c ∷ cs) in
    let (mid, e', a', g') = skip_slashes_lem (element (c ∷ cs)).1 in
    inr (
      (element (c ∷ cs)).0,
      skip_slashes (element (c ∷ cs)).1,
      refl,
      record {
        before = pre;
        between = mid;
        whole = ap (λ l. pre ++ l) (e ∙ ap (λ l. (element (c ∷ cs)).0 ++ l) e');
        slashes_before = a;
        slashes_between = a';
        no_slash = w;
        some_name = element-some c cs f;
        name_ends = subst (First (λ c. c ≡ slash)) e' g;
        rest_starts = g';
      },
    )

-- skipelem returns none exactly for a path of slashes. Else the path is slashes, a name of characters other
-- than a slash, slashes, and a rest, where the name is not empty, a slash or the end of the path follows it,
-- and the rest does not start with a slash; skipelem returns the name, cut after 14 characters, and the rest.
pub skipelem_lem :
    (path : List ℕ)
    → ((skipelem path ≡ none) × All (λ c. c ≡ slash) path)
      ⊎ ((name : List ℕ) × (rest : List ℕ) × (skipelem path ≡ some (take dirsiz name, rest))
          × Split path name rest)
unfolding skipelem
skipelem_lem path =
    let (pre, e, a, f) = skip_slashes_lem path in
    subst
      (λ q.
        ((split_path (skip_slashes path) ≡ none) × All (λ c. c ≡ slash) q)
        ⊎ ((name : List ℕ) × (rest : List ℕ) × (split_path (skip_slashes path)
              ≡ some (take dirsiz name, rest))
            × Split q name rest))
      (sym e) (split_path_lem pre (skip_slashes path) a f)
