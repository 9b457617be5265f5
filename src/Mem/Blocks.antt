-- ===== src/Mem/Blocks.antt =====
-- The region of mem.c as a sequence of blocks, free or allocated, and what a heap that holds such a
-- sequence looks like. A block's size counts its node or header.
use ecnu_oslab.Base.{ℕ, ◌+◌, ◌%◌, ◌≤◌, ◌<◌, ◌≡◌, ◌⊎◌, inl, refl, sym, List, [], ◌∷◌, ◌++◌, arith}
use ecnu_oslab.Mem.{
  Heap, node_next, node_bytes, header_bytes, header_magic, node_size, header_size, magic, connect,
}

pub data Block : Type 0 where
  free : ℕ → Block
  used : ℕ → Block

abbrev pub bytes : Block → ℕ
bytes (free n) = n
bytes (used n) = n

abbrev pub total : List Block → ℕ
total [] = 0
total (b ∷ bs) = bytes b + total bs

-- The address of the first free block of `bs`, laid out from address `a` on; `f` if it has none.
abbrev pub first_free : List Block → ℕ → ℕ → ℕ
first_free [] a f = f
first_free (free n ∷ bs) a f = a
first_free (used n ∷ bs) a f = first_free bs (a + n) f

-- The address of the last free block; `p` if there is none.
abbrev pub last_free : List Block → ℕ → ℕ → ℕ
last_free [] a p = p
last_free (free n ∷ bs) a p = last_free bs (a + n) a
last_free (used n ∷ bs) a p = last_free bs (a + n) p

-- The words that a block has in the heap. `f` is the next free block behind it.
abbrev pub At : Heap → Block → ℕ → ℕ → Type 0
At h (free n) a f =
    (node_size ≤ n) × (n % 8 ≡ 0) × (node_bytes h a + node_size ≡ n) × (node_next h a ≡ f)
At h (used n) a f =
    (node_size ≤ n)
    × (n % 8 ≡ 0)
    × (header_bytes h a + header_size ≡ n)
    × (header_magic h a ≡ magic)

-- The blocks `bs` fill the addresses from `a` to `e`, and the free list behind them goes on at `f`.
abbrev pub Tiles : Heap → List Block → (a e f : ℕ) → Type 0
Tiles h [] a e f = a ≡ e
Tiles h (b ∷ bs) a e f = At h b a (first_free bs (a + bytes b) f) × Tiles h bs (a + bytes b) e f

pub first_free-append :
    (xs ys : List Block) (a f : ℕ)
    → first_free (xs ++ ys) a f ≡ first_free xs a (first_free ys (a + total xs) f)
first_free-append [] ys a f = ground (arith)
first_free-append (free n ∷ xs) ys a f = refl
first_free-append (used n ∷ xs) ys a f = ground (arith, first_free-append xs ys (a + n) f)

pub last_free-append :
    (xs ys : List Block) (a p : ℕ)
    → last_free (xs ++ ys) a p ≡ last_free ys (a + total xs) (last_free xs a p)
last_free-append [] ys a p = ground (arith)
last_free-append (free n ∷ xs) ys a p = ground (arith, last_free-append xs ys (a + n) a)
last_free-append (used n ∷ xs) ys a p = ground (arith, last_free-append xs ys (a + n) p)

pub Tiles-end : (h : Heap) (bs : List Block) (a e f : ℕ) → Tiles h bs a e f → e ≡ a + total bs
Tiles-end h [] a e f t = omega arith
Tiles-end h (b ∷ bs) a e f t = omega (arith, Tiles-end h bs (a + bytes b) e f t.1)

pub first_free-append_at :
    (xs ys : List Block) (a m f : ℕ)
    → m ≡ a + total xs
    → first_free (xs ++ ys) a f ≡ first_free xs a (first_free ys m f)
first_free-append_at xs ys a m f e = rw e (first_free-append xs ys a f)

pub Tiles-append :
    (h : Heap) (xs ys : List Block) (a m e f : ℕ)
    → Tiles h xs a m (first_free ys m f)
    → Tiles h ys m e f
    → Tiles h (xs ++ ys) a e f
Tiles-append h [] ys a m e f t u = ground arith
Tiles-append h (b ∷ xs) ys a m e f t u = (
  rw (first_free-append_at xs ys (a + bytes b) m f (Tiles-end h xs (a + bytes b) m _ t.1)) t.0,
  Tiles-append h xs ys (a + bytes b) m e f t.1 u,
)

pub Tiles-split :
    (h : Heap) (xs ys : List Block) (a m e f : ℕ)
    → m ≡ a + total xs
    → Tiles h (xs ++ ys) a e f
    → Tiles h xs a m (first_free ys m f) × Tiles h ys m e f
Tiles-split h [] ys a m e f q t = let q' : m ≡ a = omega arith in (sym q', rw q' t)
Tiles-split h (b ∷ xs) ys a m e f q t =
    let q' : m ≡ a + bytes b + total xs = omega arith in
    let (l, r) = Tiles-split h xs ys (a + bytes b) m e f q' t.1 in
    ((rw (first_free-append_at xs ys (a + bytes b) m f q') at t.0, l), r)

pub Tiles-le : (h : Heap) (bs : List Block) (a e f : ℕ) → Tiles h bs a e f → a ≤ e
Tiles-le h bs a e f t = omega (arith, Tiles-end h bs a e f t)

At-agree :
    (h h' : Heap) (b : Block) (a f : ℕ)
    → ((x : ℕ) → a ≤ x → x < a + bytes b → h' x ≡ h x)
    → At h b a f
    → At h' b a f
At-agree h h' (free n) a f g t = ground (arith, g a, g (a + 8))
At-agree h h' (used n) a f g t = ground (arith, g a)

-- Two heaps that agree on the region hold the same blocks there.
pub Tiles-agree :
    (h h' : Heap) (bs : List Block) (a e f : ℕ)
    → ((x : ℕ) → a ≤ x → x < e → h' x ≡ h x)
    → Tiles h bs a e f
    → Tiles h' bs a e f
Tiles-agree h h' [] a e f g t = t
Tiles-agree h h' (b ∷ bs) a e f g t = (
  At-agree h h' b a _ (λ x l r. g x l (omega (arith, Tiles-le h bs (a + bytes b) e f t.1))) t.0,
  Tiles-agree h h' bs (a + bytes b) e f (λ x l r. g x (omega arith) r) t.1,
)

-- Every block has room for a node, so its last free block ends within the region.
pub last_free_within :
    (h : Heap) (bs : List Block) (a e f p : ℕ)
    → Tiles h bs a e f
    → (last_free bs a p ≡ p) ⊎ ((a ≤ last_free bs a p) × (last_free bs a p + 16 ≤ e))
last_free_within h [] a e f p t = inl refl
last_free_within h (free n ∷ bs) a e f p t =
    ground (arith, last_free_within h bs (a + n) e f a t.1, Tiles-le h bs (a + n) e f t.1)
last_free_within h (used n ∷ bs) a e f p t = ground (arith, last_free_within h bs (a + n) e f p t.1)

-- Either no block is free, or the list starts within the blocks, whatever comes behind them.
pub free_cases :
    (bs : List Block) (a f g p : ℕ)
    → ((last_free bs a p ≡ p) × (first_free bs a g ≡ g))
      ⊎ ((a ≤ last_free bs a p) × (first_free bs a f ≡ first_free bs a g))
free_cases [] a f g p = inl (refl, refl)
free_cases (free n ∷ bs) a f g p = ground (arith, free_cases bs (a + n) f g a)
free_cases (used n ∷ bs) a f g p = ground (arith, free_cases bs (a + n) f g p)

-- Relinking the last free block moves the end of the free list from f to g.
pub Tiles-relink :
    (h : Heap) (bs : List Block) (a e f g p : ℕ)
    → p < a
    → Tiles h bs a e f
    → Tiles (connect h (last_free bs a p) g) bs a e g
Tiles-relink h [] a e f g p q t = t
Tiles-relink h (free n ∷ bs) a e f g p q t = (
  ground (arith, free_cases bs (a + n) f g a),
  Tiles-relink h bs (a + n) e f g a (omega arith) t.1,
)
Tiles-relink h (used n ∷ bs) a e f g p q t = (
  ground (arith, free_cases bs (a + n) f g p),
  Tiles-relink h bs (a + n) e f g p (omega arith) t.1,
)
