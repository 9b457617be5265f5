-- ===== src/Mem/Links.antt =====
-- link_right and link_left of lab3/Malloc and Free/mem.c, the two merging steps of mem_free.
use ecnu_oslab.Base.{
  ℕ, ◌+◌, ◌≤◌, ◌≡◌, inl, refl, sym, ap, subst, ◌∙◌, List, [], ◌∷◌, ◌++◌, append_assoc, arith, Snoc,
  nil, snoc,
}
use ecnu_oslab.Mem.{State, node_size, node_bytes, link_left, link_right}
use ecnu_oslab.Mem.Blocks.{
  Block, free, used, total, first_free, last_free, last_free-append, Tiles, Tiles-split,
}
use ecnu_oslab.Mem.Search.{total-append}
use ecnu_oslab.Mem.Valid.{IsLinked, Coalesced}
use ecnu_oslab.Mem.Coalesce.{
  put, coalesce, coalesce_onto, coalesce-append, coalesce-Coalesced, put-put, coalesce_onto-put,
  coalesce_onto-keeps, coalesce_onto-append,
}
use ecnu_oslab.Mem.Free.{
  last_free_end, Loose, loose, loose-IsLinked, loose-eq, merged, merged-IsLinked, merged-eq,
  joined-IsLinked, joined-eq, first_free_within, parts,
}

null_right : (s : State) (t : ℕ) → link_right s t 0 ≡ s
unfolding link_right
null_right s t = refl

far_right :
    {s : State} (xs ys : List Block) (t n k : ℕ)
    → IsLinked s (xs ++ (free n ∷ used k ∷ ys))
    → t ≡ s.hptr + total xs
    → link_right s t (first_free ys (t + n + k) 0) ≡ s
unfolding link_right
far_right {s} xs ys t n k v place = ground (arith, first_free_within ys (t + n + k) 0, p.0, p.1)
  where
    p : (node_size ≤ k) × (node_bytes s.heap t + node_size ≡ n)
    p =
        let split = Tiles-split s.heap xs (free n ∷ used k ∷ ys) s.hptr t _ 0 place v.tiles in
        (split.1.1.0.0, split.1.0.2)

module _ {s : State} (xs : List Block) (t n : ℕ) (place : t ≡ s.hptr + total xs) where
  -- The block at t and what follows it, merged.
  pub link_right_lem :
      (ys : List Block)
      → IsLinked s (xs ++ (free n ∷ ys))
      → IsLinked (link_right s t (first_free ys (t + n) 0)) (xs ++ put (free n) ys)
  link_right_lem [] v = rw nothing v
    where
      nothing : link_right s t 0 ≡ s
      nothing = null_right s t
  link_right_lem (free k ∷ ys) v =
      rw (joined-eq xs ys t n k v place) (joined-IsLinked xs ys t n k v place)
  link_right_lem (used k ∷ ys) v = rw nothing v
    where
      nothing : link_right s t (first_free ys (t + n + k) 0) ≡ s
      nothing = far_right xs ys t n k v place

-- What the links to the left make of the block at t: a free block of `size` bytes behind `before`.
pub record LinkedLeft (xs ys : List Block) (n stop : ℕ) (s : State) (t : ℕ) : Type 0 where
  pub before : List Block
  pub size : ℕ
  pub linked : IsLinked s (before ++ (free size ∷ ys))
  pub place : t ≡ s.hptr + total before
  pub reach : t + size ≡ stop
  pub merge : coalesce (xs ++ (free n ∷ ys)) ≡ before ++ put (free size) ys

coalesce-middle :
    (ys : List Block) (n : ℕ)
    → Coalesced ys
    → (xs : List Block) → coalesce (xs ++ (free n ∷ ys)) ≡ coalesce_onto xs (put (free n) ys)
coalesce-middle ys n rest xs =
    coalesce-append xs (free n ∷ ys)
    ∙ ap (λ l. coalesce_onto xs (put (free n) l)) (coalesce-Coalesced ys rest)

module _ {s : State} (ys : List Block) (t n : ℕ) (sized : node_bytes s.heap t + 16 ≡ n)
    (rest : Coalesced ys) where
  module _ (xs : List Block) (place : t ≡ s.hptr + total xs)
      (v : IsLinked s (xs ++ (used n ∷ ys))) where
    abbrev pub LinkedTo : Type 0
    LinkedTo =
        (s' : State) × (t' : ℕ) × (link_left s t (last_free xs s.hptr 0) (first_free ys (t + n) 0)
          ≡ (s', t'))
        × LinkedLeft xs ys n (t + n) s' t'

    link_loose :
        Loose xs ys t n v place sized
        → coalesce (xs ++ (free n ∷ ys)) ≡ xs ++ put (free n) ys
        → LinkedTo
    link_loose l e = (
      loose xs ys t n v place sized,
      t,
      loose-eq xs ys t n v place sized l,
      record {
        before = xs;
        size = n;
        linked = loose-IsLinked xs ys t n v place sized;
        place = place;
        reach = refl;
        merge = e;
      },
    )

  module _ (bs : List Block) (m : ℕ) where
    after_used :
        (place : t ≡ s.hptr + total (bs ++ (used m ∷ [])))
        (v : IsLinked s ((bs ++ (used m ∷ [])) ++ (used n ∷ ys)))
        → Coalesced (bs ++ (used m ∷ []))
        → LinkedTo (bs ++ (used m ∷ [])) place v
    after_used place v c = link_loose (bs ++ (used m ∷ [])) place v apart (
        coalesce-middle ys n rest (bs ++ (used m ∷ []))
        ∙ coalesce_onto-append bs (used m ∷ []) (put (free n) ys)
        ∙ coalesce_onto-keeps bs (used m) (put (free n) ys) c
        ∙ sym (append_assoc bs (used m ∷ []) (put (free n) ys)))
      where
        cut :
            Tiles s.heap bs s.hptr (s.hptr + total bs) (first_free ys (t + n) 0)
            × Tiles s.heap (used m ∷ []) (s.hptr + total bs) t (first_free ys (t + n) 0)
        cut =
            Tiles-split s.heap bs (used m ∷ []) s.hptr (s.hptr + total bs) t
              (first_free ys (t + n) 0) refl (parts (bs ++ (used m ∷ [])) ys t n v place sized).0

        apart : Loose (bs ++ (used m ∷ [])) ys t n v place sized
        apart = rw (last_free-append bs (used m ∷ []) s.hptr 0) (
            ground (
              arith,
              last_free_end s.heap bs s.hptr (s.hptr + total bs) (first_free ys (t + n) 0) 0 cut.0,
              cut.1,
            ))

    after_free :
        (place : t ≡ s.hptr + total (bs ++ (free m ∷ [])))
        (v : IsLinked s ((bs ++ (free m ∷ [])) ++ (used n ∷ ys)))
        → Coalesced (bs ++ (free m ∷ []))
        → LinkedTo (bs ++ (free m ∷ [])) place v
    after_free place v c = (
      merged bs ys t m n w here sized,
      s.hptr + total bs,
      rw (last_free-append bs (free m ∷ []) s.hptr 0) (merged-eq bs ys t m n w here sized),
      record {
        before = bs;
        size = m + n;
        linked = merged-IsLinked bs ys t m n w here sized;
        place = refl;
        reach = omega (arith, here);
        merge =
            coalesce-middle ys n rest (bs ++ (free m ∷ []))
            ∙ coalesce_onto-append bs (free m ∷ []) (put (free n) ys)
            ∙ ap (coalesce_onto bs) (put-put m n ys)
            ∙ coalesce_onto-put bs m (m + n) ys c;
      },
    )
      where
        w : IsLinked s (bs ++ (free m ∷ used n ∷ ys))
        w = subst (IsLinked s) (append_assoc bs (free m ∷ []) (used n ∷ ys)) v

        here : t ≡ s.hptr + total bs + m
        here = omega (arith, place, total-append bs (free m ∷ []))

  pub link_left_lem :
      (xs : List Block) (place : t ≡ s.hptr + total xs) (v : IsLinked s (xs ++ (used n ∷ ys)))
      → Coalesced xs
      → Snoc xs
      → LinkedTo xs place v
  link_left_lem xs place v c nil = link_loose [] place v (inl refl) (coalesce-middle ys n rest [])
  link_left_lem xs place v c (snoc bs (used m)) = after_used bs m place v c
  link_left_lem xs place v c (snoc bs (free m)) = after_free bs m place v c
