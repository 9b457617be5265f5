-- ===== src/Mem/Search.antt =====
-- Blocks found by a search, and the first-fit loop of mem_alloc.
use ecnu_oslab.Base.{
  ℕ, zero, suc, ◌+◌, ◌≤◌, ◌<◌, ◌≡◌, ◌⊎◌, inl, inr, refl, ap, some, List, [], ◌∷◌, ◌++◌,
  append_assoc, arith, leb, length, All, Bool-cases,
}
use ecnu_oslab.Mem.{Heap, first_fit}
use ecnu_oslab.Mem.Blocks.{Block, free, used, total, first_free, last_free, Tiles}

-- A block that a request for `need` bytes cannot have.
abbrev pub Unfit : ℕ → Block → Type 0
Unfit need (free n) = n < need
Unfit need (used n) = Unit

-- A block no better than one of `size` bytes, by the order R.
abbrev pub Beaten : (ℕ → ℕ → Type 0) → (need size : ℕ) → Block → Type 0
Beaten R need size (free n) = need ≤ n → R size n
Beaten R need size (used n) = Unit

-- The free block at address n of the blocks laid out from a; prev is the free block before it.
pub record Found (bs : List Block) (a p n prev size : ℕ) : Type 0 where
  pub before : List Block
  pub after : List Block
  pub split : bs ≡ before ++ (free size ∷ after)
  pub place : n ≡ a + total before
  pub link : prev ≡ last_free before a p

pub All-append : (P : Block → Type 0) (xs ys : List Block) → All P xs → All P ys → All P (xs ++ ys)
All-append P [] ys h k = k
All-append P (x ∷ xs) ys h k = (h.0, All-append P xs ys h.1 k)

pub total-append : (xs ys : List Block) → total (xs ++ ys) ≡ total xs + total ys
total-append [] ys = omega arith
total-append (x ∷ xs) ys = omega (arith, total-append xs ys)

pub Found-append :
    {a p n prev size : ℕ} (bs cs : List Block)
    → Found bs a p n prev size
    → Found (bs ++ cs) a p n prev size
Found-append bs cs w = record {
  before = w.before;
  after = w.after ++ cs;
  split = rw w.split (append_assoc w.before (free _ ∷ w.after) cs);
  place = w.place;
  link = w.link;
}

Found-free :
    {bs : List Block} {a n m prev size : ℕ} (p : ℕ)
    → Found bs (a + n) a m prev size
    → Found (free n ∷ bs) a p m prev size
Found-free {a} {n} p w = record {
  before = free n ∷ w.before;
  after = w.after;
  split = ap (λ l. free n ∷ l) w.split;
  place = omega (arith, w.place);
  link = w.link;
}

Found-used :
    {bs : List Block} {a n m p prev size : ℕ}
    → Found bs (a + n) p m prev size
    → Found (used n ∷ bs) a p m prev size
Found-used {n} w = record {
  before = used n ∷ w.before;
  after = w.after;
  split = ap (λ l. used n ∷ l) w.split;
  place = omega (arith, w.place);
  link = w.link;
}

pub Found-last :
    (bs : List Block) (a p size : ℕ)
    → Found (bs ++ (free size ∷ [])) a p (a + total bs) (last_free bs a p) size
Found-last bs a p size = record { before = bs; after = []; split = refl; place = refl; link = refl }

-- first fit: either nothing fits, or the block found fits and none before it does.
pub record FirstFit (bs : List Block) (a p need n prev size : ℕ) : Type 0 where
  pub found : Found bs a p n prev size
  pub fits : need ≤ size
  pub first : All (Unfit need) found.before

module _ (h : Heap) (need : ℕ) where
  pub first_fit_lem :
      (fuel : ℕ) (bs : List Block) (a e p : ℕ)
      → length bs < fuel
      → 0 < a
      → Tiles h bs a e 0
      → (All (Unfit need) bs
          × (first_fit fuel h need (first_free bs a 0) p ≡ some (0, last_free bs a p)))
        ⊎ ((n : ℕ) × (prev : ℕ) × (size : ℕ) × FirstFit bs a p need n prev size
            × (first_fit fuel h need (first_free bs a 0) p ≡ some (n, prev)))
  unfolding first_fit Found-free Found-used
  first_fit_lem zero bs a e p q r t = absurd (omega arith)
  first_fit_lem (suc fuel) [] a e p q r t = inl (tt, refl)
  first_fit_lem (suc fuel) (free n ∷ bs) a e p q r t = elim (Bool-cases (leb need n)) [
    | inl y ↦ inr (
      a,
      p,
      n,
      record {
        found = record { before = []; after = bs; split = refl; place = omega arith; link = refl };
        fits = ground arith;
        first = tt;
      },
      ground arith,
    )
    | inr z ↦ elim (first_fit_lem fuel bs (a + n) e a (omega arith) (omega arith) t.1) [
      | inl (u, q) ↦ inl ((ground arith, u), ground arith)
      | inr (m, prev, size, w, q) ↦ inr (
        m,
        prev,
        size,
        record { found = Found-free p w.found; fits = w.fits; first = (ground arith, w.first) },
        ground arith,
      )
    ]
  ]
  first_fit_lem (suc fuel) (used n ∷ bs) a e p q r t =
      elim (first_fit_lem (suc fuel) bs (a + n) e p (omega arith) (omega arith) t.1) [
        | inl (u, k) ↦ inl ((tt, u), k)
        | inr (m, prev, size, w, k) ↦ inr (
          m,
          prev,
          size,
          record { found = Found-used w.found; fits = w.fits; first = (tt, w.first) },
          k,
        )
      ]
