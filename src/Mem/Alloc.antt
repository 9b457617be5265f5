-- ===== src/Mem/Alloc.antt =====
-- mem_alloc in a valid state: the block that it carves, and every outcome of the call.
use ecnu_oslab.Base.{
  ℕ, ◌+◌, ◌-◌, ◌%◌, ◌^◌, ◌≤◌, ◌<◌, ◌≡◌, ◌⊎◌, refl, ap, ◌∙◌, false, List, [], ◌∷◌, ◌++◌, arith, ◌==◌,
  if◌then◌else◌, ltb, dec_lt, lt→ltb,
}
use ecnu_oslab.Mem.{
  State, Heap, connect, node_size, carve, node_bytes, node_next, set_node, set_header,
}
use ecnu_oslab.Mem.Blocks.{
  Block, free, used, total, first_free, last_free, Tiles, Tiles-split, Tiles-le, last_free_within,
  first_free-append_at,
}
use ecnu_oslab.Mem.Valid.{IsValid, Coalesced}
use ecnu_oslab.Mem.Assemble.{
  Coalesced-right, Apart-resize, Coalesced-used, relinked_before, relinked_behind, relinked_base,
  Framed, reassemble,
}

-- A free block of `size` bytes after a request for `need`: a rest with no room for a node goes to
-- the request.
abbrev pub split : (need size : ℕ) → List Block
split need size =
    if ltb (size - need) node_size then used size ∷ [] else used need ∷ free (size - need) ∷ []

pub not_ltb : (a b : ℕ) → ¬ (a < b) → ltb a b ≡ false
not_ltb a b h = ground arith

module _ {s : State} (xs ys : List Block) (n size req need : ℕ)
    (v : IsValid s (xs ++ (free size ∷ ys))) (place : n ≡ s.hptr + total xs) (eight : req % 8 ≡ 0)
    (some_bytes : 8 ≤ req) (asked : need ≡ req + 8) (fits : need ≤ size) where
  abbrev prev : ℕ
  prev = last_free xs s.hptr 0

  abbrev after : ℕ
  after = first_free ys (n + size) 0

  abbrev stop : ℕ
  stop = s.hptr + s.totsize

  parts : Tiles s.heap xs s.hptr n n × Tiles s.heap (free size ∷ ys) n stop 0
  parts = Tiles-split s.heap xs (free size ∷ ys) s.hptr n stop 0 place v.tiles

  record Facts : Type 0 where
    size_min : 16 ≤ size
    size_eight : size % 8 ≡ 0
    size_word : node_bytes s.heap n + 16 ≡ size
    next_word : node_next s.heap n ≡ after
    small : size < 2 ^ 31
    positive : 0 < n
    prev_small : (prev ≡ 0) ⊎ ((s.hptr ≤ prev) × (prev + 16 ≤ n))

  facts : Facts
  facts = record {
    size_min = parts.1.0.0;
    size_eight = parts.1.0.1;
    size_word = parts.1.0.2;
    next_word = parts.1.0.3;
    small = omega (arith, v.small, Tiles-le s.heap ys (n + size) stop 0 parts.1.1);
    positive = omega (arith, v.start);
    prev_small = last_free_within s.heap xs s.hptr n n 0 parts.0;
  }

  abbrev relinked : Heap → (g m : ℕ) → State
  relinked h g m = record s {
    base = if prev == 0 then g else s.base;
    heap = set_header (connect h prev g) n m;
  }

  module _ (f : Facts) where
    open f use {size_min, size_eight, size_word, next_word, small, positive, prev_small}

    relinked-base : (h : Heap) (g m : ℕ) → (relinked h g m).base ≡ first_free xs s.hptr g
    relinked-base h g m =
        relinked_base xs s.hptr n g s.base v.start
          (v.head ∙ first_free-append_at xs (free size ∷ ys) s.hptr n 0 place)

    relinked-before :
        (h : Heap) (g m : ℕ)
        → ((x : ℕ) → x < n → h x ≡ s.heap x)
        → Tiles (relinked h g m).heap xs s.hptr n g
    relinked-before h g m same =
        relinked_before s.heap xs ys s.hptr n stop (n + size) v.start (relinked h g m).heap n g
          parts.0 (λ x l. ground (arith, same x l))

    relinked-behind :
        (h : Heap) (g m : ℕ)
        → ((x : ℕ) → n + size ≤ x → h x ≡ s.heap x)
        → Tiles (relinked h g m).heap ys (n + size) stop 0
    relinked-behind h g m same =
        relinked_behind s.heap xs ys s.hptr n stop (n + size) v.start (relinked h g m).heap n g
          parts.0 (omega arith) parts.1.1 (λ x l. ground (arith, same x l))

    whole-eq :
        size - need < 16 → carve s req need n prev ≡ (n + 8, relinked s.heap after (size - 8))
    unfolding carve
    whole-eq l = ground arith

    carve-whole :
        size - need < 16 → IsValid (carve s req need n prev).1 (xs ++ ((used size ∷ []) ++ ys))
    carve-whole l = rw (whole-eq l) record {
      linked =
          (reassemble v.linked
            (record { same_called = refl; same_hptr = refl; same_totsize = refl }) xs
            (used size ∷ []) ys n (n + size) (relinked-before s.heap after (size - 8) (λ x p. refl))
            (((size_min, size_eight, ground arith, ground arith)), refl)
            (relinked-behind s.heap after (size - 8) (λ x p. refl))
            (relinked-base s.heap after (size - 8)));
      coalesced =
          (Coalesced-used xs (free size ∷ ys) ys size v.coalesced
            (Coalesced-right xs _ v.coalesced).1);
    }

    abbrev rest_heap : Heap
    rest_heap = connect (set_node s.heap (n + need) (size - need - 16)) (n + need) after

    split-eq :
        16 ≤ size - need → carve s req need n prev ≡ (n + 8, relinked rest_heap (n + need) req)
    unfolding carve
    split-eq l = ground arith

    carve-split :
        16 ≤ size - need
        → IsValid (carve s req need n prev).1 (xs ++ ((used need ∷ free (size - need) ∷ []) ++ ys))
    carve-split l = rw (split-eq l) record {
      linked =
          (reassemble v.linked
            (record { same_called = refl; same_hptr = refl; same_totsize = refl }) xs
            (used need ∷ free (size - need) ∷ []) ys n (n + size)
            (relinked-before rest_heap (n + need) req (λ x p. ground arith))
            (
              (omega arith, omega arith, ground arith, ground arith),
              ((omega arith, omega arith, ground arith, ground arith), omega arith),
            )
            (relinked-behind rest_heap (n + need) req (λ x p. ground arith))
            (relinked-base rest_heap (n + need) req));
      coalesced =
          (Coalesced-used xs (free size ∷ ys) _ need v.coalesced
            (Apart-resize size (size - need) ys tail.0, tail.1));
    }
      where
        tail : Coalesced (free size ∷ ys)
        tail = Coalesced-right xs _ v.coalesced

    IsValid-after : IsValid (carve s req need n prev).1 (xs ++ (split need size ++ ys))
    IsValid-after = elim (dec_lt (size - need) 16) [
      | yes l ↦ rw (lt→ltb _ _ l) (carve-whole l)
      | no l ↦ rw (not_ltb (size - need) 16 l) (carve-split (omega arith))
    ]

    address_after : (carve s req need n prev).0 ≡ n + 8
    address_after = elim (dec_lt (size - need) 16) [
      | yes l ↦ ap (λ r. r.0) (whole-eq l)
      | no l ↦ ap (λ r. r.0) (split-eq (omega arith))
    ]

  -- The block at n becomes the block that is returned, and perhaps a free rest.
  pub carve-IsValid : IsValid (carve s req need n prev).1 (xs ++ (split need size ++ ys))
  carve-IsValid = IsValid-after facts

  pub carve-address : carve s req need n prev ≡ (n + 8, (carve s req need n prev).1)
  carve-address = ground (arith, address_after facts)

-- Only the heap and the head of the list change.
pub carve-Framed : (s : State) (size need n prevp : ℕ) → Framed s (carve s size need n prevp).1
unfolding carve
carve-Framed s size need n prevp = ground arith
