-- ===== src/Mem/Free.antt =====
-- mem_free in a valid state: the loop finds the neighbours, and the links to both sides are made.
use ecnu_oslab.Base.{
  ℕ, zero, suc, ◌+◌, ◌^◌, ◌≤◌, ◌<◌, ◌≡◌, ◌⊎◌, inl, inr, refl, ◌∙◌, some, List, [], ◌∷◌, ◌++◌, arith,
  ◌==◌, if◌then◌else◌, length,
}
use ecnu_oslab.Mem.{
  State, Heap, connect, node_bytes, node_next, neighbours, link_left, link_right, absorb,
}
use ecnu_oslab.Mem.Blocks.{
  Block, free, used, total, first_free, last_free, Tiles, Tiles-split, Tiles-agree, Tiles-le,
  last_free_within, first_free-append_at, free_cases,
}
use ecnu_oslab.Mem.Valid.{IsLinked}
use ecnu_oslab.Mem.Assemble.{relinked_before, relinked_behind, relinked_base, reassemble}

-- The loop stops at the first node f behind t, having passed the free blocks that end before t.
pub neighbours_lem :
    (h : Heap) (t f : ℕ)
    → (f ≡ 0) ⊎ (t ≤ f)
    → (fuel : ℕ) (bs : List Block) (a e lp : ℕ) → suc (length bs) < fuel
    → 0 < a
    → e ≤ t
    → Tiles h bs a e f
    → neighbours fuel h t (first_free bs a f) lp ≡ some (last_free bs a lp, f)
unfolding neighbours
neighbours_lem h t f c zero bs a e lp q p l u = absurd (omega arith)
neighbours_lem h t f c (suc fuel) [] a e lp q p l u = neighbours_end h t f c fuel lp
  where
    neighbours_end :
        (h : Heap) (t f : ℕ)
        → (f ≡ 0) ⊎ (t ≤ f)
        → (fuel lp : ℕ) → neighbours (suc fuel) h t f lp ≡ some (lp, f)
    neighbours_end h t f (inl z) fuel lp = ground arith
    neighbours_end h t f (inr g) fuel lp = ground arith
neighbours_lem h t f c (suc fuel) (free n ∷ bs) a e lp q p l u =
    ground (arith, neighbours_lem h t f c fuel bs (a + n) e a, Tiles-le h bs (a + n) e f u.1)
neighbours_lem h t f c (suc fuel) (used n ∷ bs) a e lp q p l u =
    neighbours_lem h t f c (suc fuel) bs (a + n) e lp (omega arith) (omega arith) l u.1

-- The last free block ends within the blocks.
pub last_free_end :
    (h : Heap) (bs : List Block) (a e f p : ℕ)
    → Tiles h bs a e f
    → (last_free bs a p ≡ p)
      ⊎ ((a ≤ last_free bs a p) × (last_free bs a p + node_bytes h (last_free bs a p) + 16 ≤ e))
last_free_end h [] a e f p t = inl refl
last_free_end h (free n ∷ bs) a e f p t =
    ground (arith, last_free_end h bs (a + n) e f a t.1, Tiles-le h bs (a + n) e f t.1)
last_free_end h (used n ∷ bs) a e f p t = ground (arith, last_free_end h bs (a + n) e f p t.1)

module _ {s : State} (xs ys : List Block) (t n : ℕ) (v : IsLinked s (xs ++ (used n ∷ ys)))
    (place : t ≡ s.hptr + total xs) (sized : node_bytes s.heap t + 16 ≡ n) where
  abbrev pub prev : ℕ
  prev = last_free xs s.hptr 0

  abbrev pub after : ℕ
  after = first_free ys (t + n) 0

  abbrev stop : ℕ
  stop = s.hptr + s.totsize

  pub parts : Tiles s.heap xs s.hptr t after × Tiles s.heap (used n ∷ ys) t stop 0
  parts = Tiles-split s.heap xs (used n ∷ ys) s.hptr t stop 0 place v.tiles

  head_eq : s.base ≡ first_free xs s.hptr after
  head_eq = v.head ∙ first_free-append_at xs (used n ∷ ys) s.hptr t 0 place

  abbrev pub loose : State
  loose = record s {
    base = if prev == 0 then t else s.base;
    heap = connect (connect s.heap t after) prev t;
  }

  -- No free block touches t from the left: t becomes a node of its own.
  abbrev pub Loose : Type 0
  Loose = (prev ≡ 0) ⊎ ((s.hptr ≤ prev) × (prev + node_bytes s.heap prev + 16 < t))

  pub loose-IsLinked : IsLinked loose (xs ++ ((free n ∷ []) ++ ys))
  loose-IsLinked =
      reassemble v (record { same_called = refl; same_hptr = refl; same_totsize = refl }) xs
        (free n ∷ []) ys t (t + n)
        (relinked_before s.heap xs ys s.hptr t stop (t + n) v.start loose.heap after t parts.0
          (λ x l. ground arith))
        ((parts.1.0.0, parts.1.0.1, ground (arith, within), ground (arith, within)), refl)
        (relinked_behind s.heap xs ys s.hptr t stop (t + n) v.start loose.heap after t parts.0
          (omega arith) parts.1.1 (λ x l. ground (arith, parts.1.0.0)))
        (relinked_base xs s.hptr after t s.base v.start head_eq)
    where
      within : (prev ≡ 0) ⊎ ((s.hptr ≤ prev) × (prev + 16 ≤ t))
      within = last_free_within s.heap xs s.hptr t after 0 parts.0

  pub loose-eq : Loose → link_left s t prev after ≡ (loose, t)
  unfolding link_left
  loose-eq (inl z) = ground (arith, z, head_eq, free_cases xs s.hptr after after 0)
  loose-eq (inr q) = ground (arith, q, v.start)

-- The free block m before t takes in the block at t.
module _ {s : State} (xs ys : List Block) (t m n : ℕ)
    (v : IsLinked s (xs ++ (free m ∷ used n ∷ ys))) (place : t ≡ s.hptr + total xs + m)
    (sized : node_bytes s.heap t + 16 ≡ n) where
  abbrev pub left : ℕ
  left = s.hptr + total xs

  abbrev limit : ℕ
  limit = s.hptr + s.totsize

  left_parts : Tiles s.heap xs s.hptr left left × Tiles s.heap (free m ∷ used n ∷ ys) left limit 0
  left_parts = Tiles-split s.heap xs (free m ∷ used n ∷ ys) s.hptr left limit 0 refl v.tiles

  fits_word : m + n < 2 ^ 31
  fits_word = omega (arith, v.small, Tiles-le s.heap ys (left + m + n) limit 0 left_parts.1.1.1)

  abbrev pub merged : State
  merged = record s { heap = absorb s.heap left t }

  pub merged-IsLinked : IsLinked merged (xs ++ ((free (m + n) ∷ []) ++ ys))
  merged-IsLinked =
      reassemble v (record { same_called = refl; same_hptr = refl; same_totsize = refl }) xs
        (free (m + n) ∷ []) ys left (left + m + n)
        (Tiles-agree s.heap merged.heap xs s.hptr left left (λ x p l. ground arith) left_parts.0)
        (
          (
            omega (arith, left_parts.1.0),
            omega (arith, left_parts.1.0, left_parts.1.1.0),
            ground (arith, left_parts.1.0, fits_word),
            ground (arith, left_parts.1.0),
          ),
          omega arith,
        )
        (Tiles-agree s.heap merged.heap ys (left + m + n) limit 0
          (λ x p l. ground (arith, left_parts.1.0, left_parts.1.1.0)) left_parts.1.1.1)
        (v.head ∙ first_free-append_at xs (free m ∷ used n ∷ ys) s.hptr left 0 refl)

  pub merged-eq : link_left s t left (first_free ys (t + n) 0) ≡ (merged, left)
  unfolding link_left
  merged-eq = ground (arith, left_parts.1.0, v.start)

pub first_free_within :
    (bs : List Block) (a f : ℕ) → (first_free bs a f ≡ f) ⊎ (a ≤ first_free bs a f)
first_free_within [] a f = inl refl
first_free_within (free n ∷ bs) a f = inr (omega arith)
first_free_within (used n ∷ bs) a f = ground (arith, first_free_within bs (a + n) f)

-- The block at t takes in the free block that follows it.
module _ {s : State} (xs ys : List Block) (t n k : ℕ)
    (v : IsLinked s (xs ++ (free n ∷ free k ∷ ys))) (place : t ≡ s.hptr + total xs) where
  abbrev bound : ℕ
  bound = s.hptr + s.totsize

  right_parts : Tiles s.heap xs s.hptr t t × Tiles s.heap (free n ∷ free k ∷ ys) t bound 0
  right_parts = Tiles-split s.heap xs (free n ∷ free k ∷ ys) s.hptr t bound 0 place v.tiles

  joined_fits : n + k < 2 ^ 31
  joined_fits = omega (arith, v.small, Tiles-le s.heap ys (t + n + k) bound 0 right_parts.1.1.1)

  abbrev pub joined : State
  joined =
      (let h = absorb s.heap t (t + n) in record s { heap = connect h t (node_next h (t + n)) })

  pub joined-IsLinked : IsLinked joined (xs ++ ((free (n + k) ∷ []) ++ ys))
  joined-IsLinked =
      reassemble v (record { same_called = refl; same_hptr = refl; same_totsize = refl }) xs
        (free (n + k) ∷ []) ys t (t + n + k)
        (Tiles-agree s.heap joined.heap xs s.hptr t t (λ x p l. ground arith) right_parts.0)
        (
          (
            omega (arith, right_parts.1.0),
            omega (arith, right_parts.1.0, right_parts.1.1.0),
            ground (arith, right_parts.1.0, right_parts.1.1.0, joined_fits, v.start),
            ground (arith, right_parts.1.0, right_parts.1.1.0, v.start),
          ),
          omega arith,
        )
        (Tiles-agree s.heap joined.heap ys (t + n + k) bound 0
          (λ x p l. ground (arith, right_parts.1.0, right_parts.1.1.0)) right_parts.1.1.1)
        (v.head ∙ first_free-append_at xs (free n ∷ free k ∷ ys) s.hptr t 0 place)

  pub joined-eq : link_right s t (t + n) ≡ joined
  unfolding link_right
  joined-eq = ground (arith, right_parts.1.0, v.start)
