-- ===== src/Mem/Assemble.antt =====
-- Replacing a stretch of blocks in a valid state: what has to be shown of the new heap.
use ecnu_oslab.Base.{ℕ, ◌+◌, ◌≤◌, ◌<◌, ◌≡◌, List, [], ◌∷◌, ◌++◌, arith, ◌==◌, if◌then◌else◌}
use ecnu_oslab.Mem.{State, Heap, connect}
use ecnu_oslab.Mem.Blocks.{
  Block, free, used, first_free, last_free, Tiles, Tiles-end, Tiles-append, Tiles-agree,
  Tiles-relink, last_free_within, free_cases, first_free-append_at,
}
use ecnu_oslab.Mem.Valid.{IsLinked, Coalesced, Apart}

pub Coalesced-right : (xs ys : List Block) → Coalesced (xs ++ ys) → Coalesced ys
Coalesced-right [] ys c = c
Coalesced-right (x ∷ xs) ys c = Coalesced-right xs ys c.1

Apart-used : (x : Block) (n : ℕ) (ys : List Block) → Apart x (used n ∷ ys)
Apart-used (free k) n ys = tt
Apart-used (used k) n ys = tt

pub Apart-used_left : (n : ℕ) (ys : List Block) → Apart (used n) ys
Apart-used_left n [] = tt
Apart-used_left n (y ∷ ys) = tt

-- The size of a free block does not matter for being apart.
pub Apart-resize : (n k : ℕ) (ys : List Block) → Apart (free n) ys → Apart (free k) ys
Apart-resize n k [] p = tt
Apart-resize n k (free m ∷ ys) p = p
Apart-resize n k (used m ∷ ys) p = tt

-- A used block separates.
pub Coalesced-used :
    (xs ys : List Block) (zs : List Block) (n : ℕ)
    → Coalesced (xs ++ ys)
    → Coalesced zs
    → Coalesced (xs ++ (used n ∷ zs))
Coalesced-used [] ys zs n c d = (Apart-used_left n zs, d)
Coalesced-used (x ∷ []) ys zs n c d = (Apart-used x n zs, (Apart-used_left n zs, d))
Coalesced-used (free m ∷ free k ∷ xs) ys zs n c d = absurd c.0
Coalesced-used (free m ∷ used k ∷ xs) ys zs n c d = (tt, Coalesced-used (used k ∷ xs) ys zs n c.1 d)
Coalesced-used (used m ∷ y ∷ xs) ys zs n c d = (tt, Coalesced-used (y ∷ xs) ys zs n c.1 d)

module _ (h : Heap) (xs ys : List Block) (a n e k : ℕ) (a_pos : 0 < a) where
  -- The blocks before the stretch, when their last free block has been relinked to g.
  pub relinked_before :
      (h' : Heap) (f g : ℕ)
      → Tiles h xs a n f
      → ((x : ℕ) → x < n → h' x ≡ connect h (last_free xs a 0) g x)
      → Tiles h' xs a n g
  relinked_before h' f g t same =
      Tiles-agree (connect h (last_free xs a 0) g) h' xs a n g (λ x l r. same x r)
        (Tiles-relink h xs a n f g 0 a_pos t)

  -- The blocks behind the stretch do not notice the relinking.
  pub relinked_behind :
      (h' : Heap) (f g : ℕ)
      → Tiles h xs a n f
      → n ≤ k
      → Tiles h ys k e 0
      → ((x : ℕ) → k ≤ x → h' x ≡ connect h (last_free xs a 0) g x)
      → Tiles h' ys k e 0
  relinked_behind h' f g t l u same =
      Tiles-agree h h' ys k e 0 (λ x p q. ground (arith, same x p, last_free_within h xs a n f 0 t))
        u

-- Only the heap and the head of the list have changed.
pub record Framed (s s' : State) : Type 0 where
  pub same_called : s'.called ≡ s.called
  pub same_hptr : s'.hptr ≡ s.hptr
  pub same_totsize : s'.totsize ≡ s.totsize

-- The head of the list, when the last free block before n has been relinked to g.
pub relinked_base :
    (xs : List Block) (a f g base : ℕ)
    → 0 < a
    → base ≡ first_free xs a f
    → (if last_free xs a 0 == 0 then g else base) ≡ first_free xs a g
relinked_base xs a f g base p e = ground (arith, free_cases xs a f g 0)

module _ {s s' : State} {bs : List Block} (v : IsLinked s bs) (q : Framed s s') where
  pub reassemble :
      (xs zs ys : List Block) (n k : ℕ)
      → Tiles s'.heap xs s.hptr n (first_free zs n (first_free ys k 0))
      → Tiles s'.heap zs n k (first_free ys k 0)
      → Tiles s'.heap ys k (s.hptr + s.totsize) 0
      → s'.base ≡ first_free xs s.hptr (first_free zs n (first_free ys k 0))
      → IsLinked s' (xs ++ (zs ++ ys))
  reassemble xs zs ys n k x z y b = record {
    live = omega (arith, q.same_called, v.live);
    start = omega (arith, q.same_hptr, v.start);
    aligned = rw q.same_hptr v.aligned;
    small = rw q.same_totsize v.small;
    room = rw (q.same_totsize, q.same_hptr) v.room;
    head = rw (q.same_hptr, outer, inner) b;
    tiles =
        rw (q.same_totsize, q.same_hptr)
          (Tiles-append h' xs (zs ++ ys) s.hptr n (s.hptr + s.totsize) 0 (rw inner x)
            (Tiles-append h' zs ys n k (s.hptr + s.totsize) 0 z y));
  }
    where
      h' : Heap
      h' = s'.heap

      inner : first_free (zs ++ ys) n 0 ≡ first_free zs n (first_free ys k 0)
      inner = first_free-append_at zs ys n k 0 (Tiles-end h' zs n k _ z)

      outer :
          first_free (xs ++ (zs ++ ys)) s.hptr 0 ≡ first_free xs s.hptr (first_free (zs ++ ys) n 0)
      outer = first_free-append_at xs (zs ++ ys) s.hptr n 0 (Tiles-end h' xs s.hptr n _ x)
