-- ===== src/Mem/Scan.antt =====
-- The best-fit and worst-fit loops of mem_alloc: a scan of the free list that keeps the best block.
use ecnu_oslab.Base.{
  ℕ, zero, suc, ◌+◌, ◌-◌, ◌^◌, ◌≤◌, ◌<◌, ◌≡◌, inl, inr, refl, sym, ◌∙◌, Bool, true, false, some,
  List, [], ◌∷◌, ◌++◌, append-nil, append_assoc, arith, le→leb, dec_lt, length, All, Bool-cases,
}
use ecnu_oslab.Mem.{Heap, node_bytes, node_size, Choice, choose, scan, best_test, worst_test}
use ecnu_oslab.Mem.Blocks.{
  Block, free, used, bytes, total, first_free, last_free, last_free-append, Tiles, Tiles-le,
}
use ecnu_oslab.Mem.Search.{Unfit, Beaten, Found, All-append, total-append, Found-append, Found-last}

-- What the variables of a scan hold after the blocks `bs`: nothing fits, or the best block so far.
pub data Scanned (R : ℕ → ℕ → Type 0) (need init : ℕ) (bs : List Block) (a : ℕ) (c : Choice)
    : Type 0 where
  nothing : All (Unfit need) bs → c.node ≡ 0 → c.best ≡ init → Scanned R need init bs a c
  something :
      (size : ℕ)
      → Found bs a 0 c.node c.prev size
      → need ≤ size
      → c.best + node_size ≡ size
      → All (Beaten R need size) bs
      → Scanned R need init bs a c

Found-nil-append :
    {a p n prev size : ℕ} (bs : List Block)
    → Found (bs ++ []) a p n prev size
    → Found bs a p n prev size
Found-nil-append {a} {p} {n} {prev} {size} bs w = rw (append-nil bs) at w

-- The order R on sizes goes with the test of the loop, and every node passes the first test.
pub record Order (better : ℕ → ℕ → Bool) (R : ℕ → ℕ → Type 0) (init : ℕ) : Type 0 where
  same : (x : ℕ) → R x x
  join : (x y z : ℕ) → R x y → R y z → R x z
  wins : (x y : ℕ) → better x y ≡ true → R (x + node_size) (y + node_size)
  loses : (x y : ℕ) → better x y ≡ false → R (y + node_size) (x + node_size)
  starts : (x : ℕ) → x < 2 ^ 32 - 1 → better x init ≡ true

module _ {better : ℕ → ℕ → Bool} {R : ℕ → ℕ → Type 0} {init : ℕ} (o : Order better R init)
    (h : Heap) (need : ℕ) where
  Beaten-mono :
      (x y : ℕ) (bs : List Block) → R x y → All (Beaten R need y) bs → All (Beaten R need x) bs
  Beaten-mono x y [] r g = tt
  Beaten-mono x y (free n ∷ bs) r g = (λ k. o.join x y n r (g.0 k), Beaten-mono x y bs r g.1)
  Beaten-mono x y (used n ∷ bs) r g = (tt, Beaten-mono x y bs r g.1)

  Unfit-Beaten : (x : ℕ) (bs : List Block) → All (Unfit need) bs → All (Beaten R need x) bs
  Unfit-Beaten x [] g = tt
  Unfit-Beaten x (free n ∷ bs) g = (λ k. absurd (omega arith), Unfit-Beaten x bs g.1)
  Unfit-Beaten x (used n ∷ bs) g = (tt, Unfit-Beaten x bs g.1)

  module _ (cn cp : ℕ) (c : Choice) where
    choose_take :
        better (node_bytes h cn) c.best ≡ true
        → need ≤ node_bytes h cn + node_size
        → choose better h need cn cp c ≡ record { node = cn; prev = cp; best = node_bytes h cn }
    choose_take t l = ground (arith, t, le→leb _ _ l)

    choose_small : node_bytes h cn + node_size < need → choose better h need cn cp c ≡ c
    choose_small l = ground arith

    choose_worse : better (node_bytes h cn) c.best ≡ false → choose better h need cn cp c ≡ c
    choose_worse t = ground (arith, t)

  module _ (bs : List Block) (a n : ℕ) (c : Choice)
      (e : node_bytes h (a + total bs) + node_size ≡ n) where
    abbrev next_choice : Choice
    next_choice = choose better h need (a + total bs) (last_free bs a 0) c

    abbrev taken : Choice
    taken = record {
      node = a + total bs;
      prev = last_free bs a 0;
      best = node_bytes h (a + total bs);
    }

    Scanned-taken :
        need ≤ n → All (Beaten R need n) bs → Scanned R need init (bs ++ (free n ∷ [])) a taken
    Scanned-taken l g =
        something n (Found-last bs a 0 n) l e
          (All-append (Beaten R need n) bs _ g ((λ _. o.same n), tt))

    Scanned-free :
        n < 2 ^ 32
        → Scanned R need init bs a c
        → Scanned R need init (bs ++ (free n ∷ [])) a next_choice
    Scanned-free b (nothing u z i) = elim (dec_lt n need) [
      | yes l ↦
          rw (choose_small (a + total bs) (last_free bs a 0) c (omega arith))
            (nothing (All-append (Unfit need) bs _ u (l, tt)) z i)
      | no l ↦
          rw
            (choose_take (a + total bs) (last_free bs a 0) c (rw i (o.starts _ (omega arith)))
              (omega arith))
            (Scanned-taken (omega arith) (Unfit-Beaten n bs u))
    ]
    Scanned-free b (something size w f i g) = elim (dec_lt n need) [
      | yes l ↦ rw (choose_small (a + total bs) (last_free bs a 0) c (omega arith)) (
          something size (Found-append bs _ w) f i
            (All-append (Beaten R need size) bs _ g ((λ k. absurd (omega arith)), tt)))
      | no l ↦ elim (Bool-cases (better (node_bytes h (a + total bs)) c.best)) [
        | inl y ↦
            rw (choose_take (a + total bs) (last_free bs a 0) c y (omega arith))
              (Scanned-taken (omega arith) (Beaten-mono n size bs (rw (← e, ← i) (o.wins _ _ y)) g))
        | inr z ↦ rw (choose_worse (a + total bs) (last_free bs a 0) c z) (
            something size (Found-append bs _ w) f i
              (All-append (Beaten R need size) bs _ g ((λ k. rw (← e, ← i) (o.loses _ _ z)), tt)))
      ]
    ]

  Scanned-used :
      (bs : List Block) (a n : ℕ) (c : Choice)
      → Scanned R need init bs a c
      → Scanned R need init (bs ++ (used n ∷ [])) a c
  Scanned-used bs a n c (nothing u z i) = nothing (All-append (Unfit need) bs _ u (tt, tt)) z i
  Scanned-used bs a n c (something size w f i g) =
      something size (Found-append bs _ w) f i (All-append (Beaten R need size) bs _ g (tt, tt))

  total-snoc : (bs : List Block) (b : Block) → total (bs ++ (b ∷ [])) ≡ total bs + bytes b
  total-snoc bs b = omega (arith, total-append bs (b ∷ []))

  pub scan_from :
      (fuel : ℕ) (bs seen whole : List Block) (a m e cp : ℕ) (c : Choice)
      → length bs < fuel
      → 0 < m
      → e < a + 2 ^ 32
      → m ≡ a + total seen
      → cp ≡ last_free seen a 0
      → whole ≡ seen ++ bs
      → Tiles h bs m e 0
      → Scanned R need init seen a c
      → (c' : Choice) × (scan better fuel h need (first_free bs m 0) cp c ≡ some (c'.node, c'.prev))
        × Scanned R need init whole a c'
  unfolding scan
  scan_from zero bs seen whole a m e cp c q r b k l w t s = absurd (omega arith)
  scan_from (suc fuel) [] seen whole a m e cp c q r b k l w t s = (c, refl, rw (w, append-nil) s)
  scan_from (suc fuel) (free n ∷ bs) seen whole a m e cp c q r b k l w t s =
      let (c', p, z) =
        scan_from fuel bs (seen ++ (free n ∷ [])) whole a (m + n) e m (choose better h need m cp c)
          (omega arith) (omega arith) b (omega (arith, total-snoc seen (free n)))
          (k ∙ sym (last_free-append seen (free n ∷ []) a 0))
          (w ∙ sym (append_assoc seen (free n ∷ []) bs)) t.1 next in
      (c', ground (arith, p), z)
    where
      next : Scanned R need init (seen ++ (free n ∷ [])) a (choose better h need m cp c)
      next =
          rw (k, l)
            (Scanned-free seen a n c (rw (← k) t.0.2) (omega (arith, Tiles-le h bs (m + n) e 0 t.1))
              s)
  scan_from (suc fuel) (used n ∷ bs) seen whole a m e cp c q r b k l w t s =
      scan_from (suc fuel) bs (seen ++ (used n ∷ [])) whole a (m + n) e cp c (omega arith)
        (omega arith) b (omega (arith, total-snoc seen (used n)))
        (l ∙ sym (last_free-append seen (used n ∷ []) a 0))
        (w ∙ sym (append_assoc seen (used n ∷ []) bs)) t.1 (Scanned-used seen a n c s)

pub best-Order : Order best_test (λ x y. x ≤ y) (2 ^ 32 - 1)
best-Order = record {
  same = λ x. omega arith;
  join = λ x y z p q. omega arith;
  wins = λ x y p. ground arith;
  loses = λ x y p. ground arith;
  starts = λ x p. ground arith;
}

pub worst-Order : Order worst_test (λ x y. y ≤ x) 0
worst-Order = record {
  same = λ x. omega arith;
  join = λ x y z p q. omega arith;
  wins = λ x y p. ground arith;
  loses = λ x y p. ground arith;
  starts = λ x p. ground arith;
}
