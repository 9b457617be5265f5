-- ===== src/Mem/Valid.antt =====
-- The invariant of the allocator, and the searches of mem_alloc in a valid state.
use ecnu_oslab.Base.{
  ℕ, zero, suc, ◌+◌, ◌*◌, ◌%◌, ◌^◌, ◌≤◌, ◌<◌, ◌≡◌, inl, inr, refl, Bool, Option, some, List, [],
  ◌∷◌, arith, length, All,
}
use ecnu_oslab.Mem.{State, Heap, first_fit, Choice, scan, chosen_none, search_style}
use ecnu_oslab.Mem.Blocks.{Block, free, used, first_free, Tiles}
use ecnu_oslab.Mem.Search.{Unfit, Beaten, Found, first_fit_lem}
use ecnu_oslab.Mem.Scan.{scan_from, Scanned, nothing, something, Order, best-Order, worst-Order}

-- No two free blocks touch.
abbrev pub Apart : Block → List Block → Type 0
Apart (free n) (free k ∷ bs) = ⊥
Apart b bs = Unit

abbrev pub Coalesced : List Block → Type 0
Coalesced [] = Unit
Coalesced (b ∷ bs) = Apart b bs × Coalesced bs

-- The allocator is initialised and its region consists of the blocks `bs`: the free list links
-- exactly the free ones in order of address. All addresses are multiples of 8, and no size or
-- address wraps.
pub record IsLinked (s : State) (bs : List Block) : Type 0 where
  pub live : 0 < s.called
  pub start : 0 < s.hptr
  pub aligned : s.hptr % 8 ≡ 0
  pub small : s.totsize < 2 ^ 31
  pub room : s.hptr + s.totsize ≤ 2 ^ 64
  pub head : s.base ≡ first_free bs s.hptr 0
  pub tiles : Tiles s.heap bs s.hptr (s.hptr + s.totsize) 0

-- No two free blocks touch, either.
pub record IsValid (s : State) (bs : List Block) : Type 0 where
  pub linked : IsLinked s bs
  pub open linked use *
  pub coalesced : Coalesced bs

pub length-le : (h : Heap) (bs : List Block) (a e f : ℕ) → Tiles h bs a e f → a + 16 * length bs ≤ e
length-le h [] a e f t = omega arith
length-le h (free n ∷ bs) a e f t = omega (arith, length-le h bs (a + n) e f t.1)
length-le h (used n ∷ bs) a e f t = omega (arith, length-le h bs (a + n) e f t.1)

-- What the style of a search promises of the block that it chooses: for M_BESTFIT no fitting free
-- block is smaller, for M_WORSTFIT none is larger, for M_FIRSTFIT none before it fits.
abbrev pub Promise : (style need size : ℕ) (before bs : List Block) → Type 0
Promise zero need size before bs = All (Beaten (λ x y. x ≤ y) need size) bs
Promise (suc zero) need size before bs = All (Beaten (λ x y. y ≤ x) need size) bs
Promise (suc (suc zero)) need size before bs = All (Unfit need) before
Promise style need size before bs = Unit

pub data Outcome (style need : ℕ) (bs : List Block) (a : ℕ) : Option (ℕ × ℕ) → Type 0 where
  no_fit : {prev : ℕ} → All (Unfit need) bs → Outcome style need bs a (some (0, prev))
  chosen :
      {n prev : ℕ} (size : ℕ) (w : Found bs a 0 n prev size)
      → need ≤ size
      → Promise style need size w.before bs
      → Outcome style need bs a (some (n, prev))

module _ {s : State} {bs : List Block} (v : IsValid s bs) (need : ℕ) where
  rounds : length bs < s.totsize + 1
  rounds = omega (arith, length-le s.heap bs s.hptr _ 0 v.tiles)

  first-Outcome : Outcome 2 need bs s.hptr (first_fit (s.totsize + 1) s.heap need s.base 0)
  first-Outcome =
      elim (first_fit_lem s.heap need (s.totsize + 1) bs s.hptr _ 0 rounds v.start v.tiles) [
        | inl (u, k) ↦ rw (v.head, k) (no_fit u)
        | inr (n, prev, size, w, k) ↦ rw (v.head, k) (chosen size w.found w.fits w.first)
      ]

  module _ (style : ℕ) {better : ℕ → ℕ → Bool} {R : ℕ → ℕ → Type 0} {init : ℕ}
      (o : Order better R init)
      (promised : (size : ℕ) (before : List Block)
        → All (Beaten R need size) bs
        → Promise style need size before bs) where
    Outcome-of_Scanned :
        (c : Choice)
        → Scanned R need init bs s.hptr c
        → Outcome style need bs s.hptr (some (c.node, c.prev))
    Outcome-of_Scanned c (nothing u z i) = rw z (no_fit u)
    Outcome-of_Scanned c (something size w f i g) = chosen size w f (promised size w.before g)

    scan-Outcome :
        Outcome style need bs s.hptr
          (scan better (s.totsize + 1) s.heap need s.base 0 (chosen_none init))
    scan-Outcome =
        let (c, k, z) =
          scan_from o s.heap need (s.totsize + 1) bs [] bs s.hptr s.hptr (s.hptr + s.totsize) 0
            (chosen_none init) rounds v.start (omega (arith, v.small)) (omega arith) refl refl
            v.tiles (nothing tt refl refl) in
        rw (v.head, k) (Outcome-of_Scanned c z)

-- Each of the three styles ends its search and returns a block that it promises, or finds that no
-- block fits.
pub search_lem :
    {s : State} {bs : List Block} (style need : ℕ)
    → style < 3
    → IsValid s bs
    → Outcome style need bs s.hptr (search_style s style need)
unfolding search_style
search_lem zero need q v = scan-Outcome v need 0 best-Order (λ size before g. g)
search_lem (suc zero) need q v = scan-Outcome v need 1 worst-Order (λ size before g. g)
search_lem (suc (suc zero)) need q v = first-Outcome v need
search_lem (suc (suc (suc style))) need q v = absurd (omega arith)
