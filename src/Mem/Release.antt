-- ===== src/Mem/Release.antt =====
-- mem_free as a whole: the block becomes free, and free blocks that touch are merged.
use ecnu_oslab.Base.{
  ℕ, ◌+◌, ◌-◌, ◌%◌, ◌^◌, ◌<◌, ◌≡◌, refl, ◌∙◌, some, List, [], ◌∷◌, ◌++◌, arith, pos, Snoc-view,
}
use ecnu_oslab.Mem.{
  State, Heap, set_node, node_size, node_bytes, neighbours, link_left, link_right, release,
  mem_free, header_of, header_magic, header_bytes, header_size, magic,
}
use ecnu_oslab.Mem.Blocks.{
  Block, free, used, At, total, first_free, last_free, Tiles, Tiles-split, Tiles-append,
  Tiles-agree, Tiles-le, first_free-append_at,
}
use ecnu_oslab.Mem.Valid.{IsLinked, IsValid, length-le}
use ecnu_oslab.Mem.Assemble.{Coalesced-right}
use ecnu_oslab.Mem.Coalesce.{coalesce, coalesce_onto-Coalesced, Coalesced-left}
use ecnu_oslab.Mem.Free.{neighbours_lem, first_free_within}
use ecnu_oslab.Mem.Links.{link_left_lem, link_right_lem}

-- Writing the size of the node over the payload of the block leaves the blocks as they are.
module _ {s : State} (xs ys : List Block) (t n : ℕ) (v : IsValid s (xs ++ (used n ∷ ys)))
    (place : t ≡ s.hptr + total xs) where
  abbrev end : ℕ
  end = s.hptr + s.totsize

  cut_at : Tiles s.heap xs s.hptr t (first_free ys (t + n) 0) × Tiles s.heap (used n ∷ ys) t end 0
  cut_at = Tiles-split s.heap xs (used n ∷ ys) s.hptr t end 0 place v.tiles

  abbrev sized_heap : Heap
  sized_heap =
      set_node s.heap t ((header_bytes s.heap t + header_size + 2 ^ 64 - node_size) % 2 ^ 32)

  abbrev sized_state : State
  sized_state = record s { heap = sized_heap }

  sized_bytes : node_bytes sized_heap t + 16 ≡ n
  sized_bytes = ground (arith, cut_at.1.0, v.small, Tiles-le s.heap ys (t + n) end 0 cut_at.1.1)

  sized-IsLinked : IsLinked sized_state (xs ++ (used n ∷ ys))
  sized-IsLinked = record {
    live = v.live;
    start = v.start;
    aligned = v.aligned;
    small = v.small;
    room = v.room;
    head = v.head;
    tiles =
        Tiles-append sized_heap xs (used n ∷ ys) s.hptr t end 0
          (Tiles-agree s.heap sized_heap xs s.hptr t _ (λ x p l. ground arith) cut_at.0)
          (
            (ground (arith, cut_at.1.0)),
            Tiles-agree s.heap sized_heap ys (t + n) end 0 (λ x p l. ground (arith, cut_at.1.0))
                cut_at.1.1,
          );
  }

  found :
      neighbours (s.totsize + 1) sized_heap t s.base 0
      ≡ some (last_free xs s.hptr 0, first_free ys (t + n) 0)
  found =
      rw (v.head, first_free-append_at xs (used n ∷ ys) s.hptr t 0 place)
        (neighbours_lem sized_heap t (first_free ys (t + n) 0)
          (ground (arith, first_free_within ys (t + n) 0)) (s.totsize + 1) xs s.hptr t 0
          (omega (
            arith,
            length-le s.heap xs s.hptr t _ cut_at.0,
            cut_at.1.0,
            Tiles-le s.heap ys (t + n) end 0 cut_at.1.1,
          ))
          v.start (omega arith)
          (Tiles-split sized_heap xs (used n ∷ ys) s.hptr t end 0 place sized-IsLinked.tiles).0)

  release-eq :
      {s' : State} {t' lp rp : ℕ}
      → neighbours (s.totsize + 1) sized_heap t s.base 0 ≡ some (lp, rp)
      → link_left sized_state t lp rp ≡ (s', t')
      → release t s ≡ some (pos 0, link_right s' t' rp)
  unfolding release
  release-eq p q = ground (arith, p, q)

  release_lem :
      (s' : State) × (release t s ≡ some (pos 0, s')) × IsValid s' (coalesce (xs ++ (free n ∷ ys)))
  release_lem =
      let rest = (Coalesced-right xs (used n ∷ ys) v.coalesced).1 in
      let (s', t', e, left) =
        link_left_lem {s = sized_state} ys t n sized_bytes rest xs place sized-IsLinked
          (Coalesced-left xs (used n ∷ ys) v.coalesced) (Snoc-view xs) in
      (
        link_right s' t' (first_free ys (t + n) 0),
        release-eq found e,
        record {
          linked =
              rw (left.merge, ← left.reach)
                (link_right_lem left.before t' left.size left.place ys left.linked);
          coalesced = coalesce_onto-Coalesced (xs ++ (free n ∷ ys)) [] tt;
        },
      )

accepted :
    (ptr t : ℕ) (s : State)
    → 0 < s.called
    → header_of ptr ≡ t
    → header_magic s.heap t ≡ magic
    → mem_free ptr s ≡ release t s
unfolding mem_free
accepted ptr t s l e m = ground (arith, e, m)

-- In a valid state the call of mem_free on the address of any allocated block returns 0, and the
-- new state is valid with the old blocks, that block being free and free blocks that touch being
-- merged.
pub mem_free_lem :
    {s : State} (xs ys : List Block) (n : ℕ)
    → IsValid s (xs ++ (used n ∷ ys))
    → (s' : State) × (mem_free (s.hptr + total xs + 8) s ≡ some (pos 0, s'))
      × IsValid s' (coalesce (xs ++ (free n ∷ ys)))
mem_free_lem {s} xs ys n v =
    let (s', e, w) = release_lem xs ys t n v refl in
    (s', accepted (t + 8) t s v.live address cut.0.3 ∙ e, w)
  where
    t : ℕ
    t = s.hptr + total xs

    cut :
        At s.heap (used n) t (first_free ys (t + n) 0)
        × Tiles s.heap ys (t + n) (s.hptr + s.totsize) 0
    cut = (cut_at xs ys t n v refl).1

    address : header_of (t + 8) ≡ t
    address = omega (arith, v.room, cut.0, Tiles-le s.heap ys (t + n) (s.hptr + s.totsize) 0 cut.1)
