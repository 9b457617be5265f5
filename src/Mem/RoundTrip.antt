-- ===== src/Mem/RoundTrip.antt =====
-- mem_alloc followed by mem_free of the address that it returned.
use ecnu_oslab.Base.{
  ℕ, ◌+◌, ◌-◌, ◌%◌, ◌^◌, ◌≤◌, ◌<◌, ◌≡◌, ◌≢◌, sym, ap, subst, ◌∙◌, Option, some, List, [], ◌∷◌, ◌++◌,
  arith, if◌then◌else◌, ltb, pos, dec_lt, lt→ltb, append_assoc,
}
use ecnu_oslab.Mem.{State, Heap, node_size, mem_alloc, mem_free, header_bytes}
use ecnu_oslab.Mem.Blocks.{Block, free, used, total, Tiles, Tiles-split, Tiles-le, first_free}
use ecnu_oslab.Mem.Valid.{IsValid, Coalesced}
use ecnu_oslab.Mem.Alloc.{split, not_ltb}
use ecnu_oslab.Mem.Assemble.{Framed, Coalesced-right, Apart-resize}
use ecnu_oslab.Mem.Outcomes.{request, Allocated, refused, granted, mem_alloc_lem}
use ecnu_oslab.Mem.Coalesce.{
  put, coalesce, coalesce_onto, coalesce-append, coalesce-Coalesced, coalesce_onto-keeps, put-Apart,
  Coalesced-left,
}
use ecnu_oslab.Mem.Release.{mem_free_lem}

-- The block that a request gets, and the rest of the free block that it came from.
abbrev pub taken : (need size : ℕ) → ℕ
taken need size = if ltb (size - need) node_size then size else need

coalesce-rest :
    (need rest size : ℕ) (xs ys : List Block)
    → need + rest ≡ size
    → Coalesced (xs ++ (free size ∷ ys))
    → coalesce (xs ++ (free need ∷ free rest ∷ ys)) ≡ xs ++ (free size ∷ ys)
coalesce-rest need rest size xs ys e c =
    coalesce-append xs (free need ∷ free rest ∷ ys)
    ∙ ap (coalesce_onto xs) merge
    ∙ coalesce_onto-keeps xs (free size) ys (
        Coalesced-left (xs ++ (free size ∷ [])) ys
          (subst Coalesced (sym (append_assoc xs (free size ∷ []) ys)) c))
  where
    behind : Coalesced (free size ∷ ys)
    behind = Coalesced-right xs (free size ∷ ys) c

    merge : coalesce (free need ∷ free rest ∷ ys) ≡ free size ∷ ys
    merge =
        ap (λ l. put (free need) (put (free rest) l)) (coalesce-Coalesced ys behind.1)
        ∙ ap (put (free need)) (put-Apart (free rest) ys (Apart-resize size rest ys behind.0))
        ∙ ap (λ m. free m ∷ ys) e

-- Freeing at once what has been granted merges it with its rest.
coalesce-split :
    (need size : ℕ) (xs ys : List Block)
    → need ≤ size
    → Coalesced (xs ++ (free size ∷ ys))
    → (zs : List Block) × (xs ++ (split need size ++ ys) ≡ xs ++ (used (taken need size) ∷ zs))
      × (coalesce (xs ++ (free (taken need size) ∷ zs)) ≡ xs ++ (free size ∷ ys))
coalesce-split need size xs ys l c = elim (dec_lt (size - need) 16) [
  | yes p ↦ (ys, rw (lt→ltb _ _ p), rw (lt→ltb _ _ p) (coalesce-Coalesced _ c))
  | no p ↦ (
    free (size - need) ∷ ys,
    rw (not_ltb (size - need) 16 p),
    rw (not_ltb (size - need) 16 p) (coalesce-rest need (size - need) size xs ys (omega arith) c),
  )
]

module _ (s : State) (bs : List Block) (v : IsValid s bs) (style need : ℕ) where
  free-Allocated :
      {o : Option (ℕ × State)} (p : ℕ) (s' : State)
      → Allocated style need s bs o
      → o ≡ some (p, s')
      → p ≢ 0
      → (s'' : State) × (mem_free p s' ≡ some (pos 0, s'')) × IsValid s'' bs
  free-Allocated p s' (refused u) e z = absurd (ground (arith, e, z))
  free-Allocated p s' (granted {n} size t w f g inv same) e z =
      let (zs, cut, merge) =
        coalesce-split need size w.before w.after f (subst Coalesced w.split v.coalesced) in
      let (s'', r, y) = mem_free_lem w.before zs (taken need size) (subst (IsValid t) cut inv) in
      (s'', rw (state, address) r, subst (IsValid s'') (merge ∙ sym w.split) y)
    where
      state : s' ≡ t
      state = ground (arith, e)

      address : p ≡ t.hptr + total w.before + 8
      address = ground (arith, e, w.place, same.same_hptr)

-- In a valid state, if mem_alloc grants k bytes (0 < k < 2^31 - 8, one of the three styles), then
-- mem_free of the returned address returns 0 and leads to a valid state with the blocks from before
-- the allocation.
pub free-alloc :
    (s s' : State) (bs : List Block) (style k p : ℕ)
    → IsValid s bs
    → style < 3
    → 0 < k
    → k < 2 ^ 31 - 8
    → mem_alloc (pos k) style s ≡ some (p, s')
    → p ≢ 0
    → (s'' : State) × (mem_free p s' ≡ some (pos 0, s'')) × IsValid s'' bs
free-alloc s s' bs style k p v q l b e z =
    free-Allocated s bs v style (request k) p s' (mem_alloc_lem style k v q l b) e z

Tiles-aligned : (h : Heap) (bs : List Block) (a e f : ℕ) → a % 8 ≡ 0 → Tiles h bs a e f → e % 8 ≡ 0
Tiles-aligned h [] a e f p t = rw (← t) p
Tiles-aligned h (free n ∷ bs) a e f p t = Tiles-aligned h bs (a + n) e f (omega arith) t.1
Tiles-aligned h (used n ∷ bs) a e f p t = Tiles-aligned h bs (a + n) e f (omega arith) t.1

taken-ge : (need size : ℕ) → need ≤ size → need ≤ taken need size
taken-ge need size l = ground arith

payload :
    (s : State) (bs : List Block) (k : ℕ) (t : State) (xs zs : List Block) (m n p : ℕ) (s' : State)
    → IsValid t (xs ++ (used m ∷ zs))
    → n ≡ t.hptr + total xs
    → Framed s t
    → k + 8 ≤ m
    → p ≡ n + 8
    → s' ≡ t
    → (s.hptr + 8 ≤ p)
      × (p + k ≤ s.hptr + s.totsize)
      × (p % 8 ≡ 0)
      × (k ≤ header_bytes s'.heap (p - 8))
payload s bs k t xs zs m n p s' v place same l e i =
    rw (i, e)
      (
        omega (arith, same.same_hptr),
        omega (
          arith,
          same.same_hptr,
          same.same_totsize,
          Tiles-le t.heap zs (n + m) (t.hptr + t.totsize) 0 cut.1.1,
          l,
        ),
        omega (arith, Tiles-aligned t.heap xs t.hptr n _ v.aligned cut.0),
        ground (arith, cut.1.0.2),
      )
  where
    cut :
        Tiles t.heap xs t.hptr n (first_free zs (n + m) 0)
        × Tiles t.heap (used m ∷ zs) n (t.hptr + t.totsize) 0
    cut = Tiles-split t.heap xs (used m ∷ zs) t.hptr n (t.hptr + t.totsize) 0 place v.tiles

module _ (s : State) (bs : List Block) (v : IsValid s bs) (style k need : ℕ)
    (enough : k + 8 ≤ need) where
  payload-Allocated :
      {o : Option (ℕ × State)} (p : ℕ) (s' : State)
      → Allocated style need s bs o
      → o ≡ some (p, s')
      → p ≢ 0
      → (s.hptr + 8 ≤ p)
        × (p + k ≤ s.hptr + s.totsize)
        × (p % 8 ≡ 0)
        × (k ≤ header_bytes s'.heap (p - 8))
  payload-Allocated p s' (refused u) e z = absurd (ground (arith, e, z))
  payload-Allocated p s' (granted {n} size t w f g inv same) e z =
      let (zs, cut, merge) =
        coalesce-split need size w.before w.after f (subst Coalesced w.split v.coalesced) in
      payload s bs k t w.before zs (taken need size) n p s' (subst (IsValid t) cut inv)
        (ground (arith, w.place, same.same_hptr)) same (omega (arith, taken-ge need size f))
        (ground (arith, e)) (ground (arith, e))

-- In a valid state, if mem_alloc grants k bytes (0 < k < 2^31 - 8, one of the three styles), then
-- the returned address is a multiple of 8 at least 8 bytes into the region, the k bytes from there
-- on lie inside the region, and the header before it records a size of at least k.
pub alloc-payload :
    (s s' : State) (bs : List Block) (style k p : ℕ)
    → IsValid s bs
    → style < 3
    → 0 < k
    → k < 2 ^ 31 - 8
    → mem_alloc (pos k) style s ≡ some (p, s')
    → p ≢ 0
    → (s.hptr + 8 ≤ p)
      × (p + k ≤ s.hptr + s.totsize)
      × (p % 8 ≡ 0)
      × (k ≤ header_bytes s'.heap (p - 8))
alloc-payload s s' bs style k p v q l b e z =
    payload-Allocated s bs v style k (request k) (omega arith) p s' (mem_alloc_lem style k v q l b)
      e z
