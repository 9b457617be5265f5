-- ===== src/Fs/Alloc.antt =====
-- balloc of lab5/xv6-thread/kernel/fs.c on the bitmap.
use ecnu_oslab.Base.{
  ℕ, zero, suc, ◌+◌, ◌-◌, ◌*◌, ◌/◌, ◌%◌, ◌≤◌, ◌<◌, ◌≡◌, ◌≢◌, ◌⊎◌, refl, sym, ap, ◌∙◌, subst, inl,
  inr, arith, Bool, true, false, ◌&&◌, equal, ◌==◌, if◌then◌else◌, Bool-cases, ltb,
  find_index-cases,
}
use ecnu_oslab.Fs.{
  Block, Fs, Result, done, panic, superblock, word, bitmap_block, is_clear, set_bit, balloc_from,
  balloc, bpb,
}
use ecnu_oslab.Fs.Bits.{IsBytes, is_clear-set_bit, choose_same, choose_false}

-- The number of inodes in the superblock, and whether the bit of block b is clear.
abbrev pub inode_count : (dev : ℕ) → Fs → ℕ
inode_count dev s = (superblock (s.disk dev 1)).ninodes

abbrev pub is_free : (dev : ℕ) → Fs → ℕ → Bool
is_free dev s b = is_clear (s.disk dev (bitmap_block b (inode_count dev s))) (b % bpb)

-- The blocks whose bits balloc looks at: those of all bitmap blocks that begin below the size.
abbrev pub scanned : (dev : ℕ) → Fs → ℕ
scanned dev s = ((superblock (s.disk dev 1)).size + 4095) / bpb * bpb

abbrev pub put_block : (dev bno : ℕ) → Block → Fs → Fs
put_block dev bno b s = record s { disk = λ d n. if d == dev && n == bno then b else s.disk d n }

-- The disk with the bit of block b set.
abbrev pub marked : (dev b : ℕ) → Fs → Fs
marked dev b s =
    let bno = bitmap_block b (inode_count dev s) in
    put_block dev bno (set_bit (s.disk dev bno) (b % bpb)) s

zero-add : (n : ℕ) → 0 + n ≡ n
zero-add n = omega arith

module _ (dev : ℕ) (s : Fs) where
  abbrev ni : ℕ
  ni = inode_count dev s

  same_block : (b bi : ℕ) → b % bpb ≡ 0 → bi < bpb → bitmap_block (b + bi) ni ≡ bitmap_block b ni
  same_block b bi a l = omega (arith, a, l)

  same_place : (b bi : ℕ) → b % bpb ≡ 0 → bi < bpb → (b + bi) % bpb ≡ bi
  same_place b bi a l = omega (arith, a, l)

  is_free-at :
      (b bi : ℕ)
      → b % bpb ≡ 0
      → bi < bpb
      → is_free dev s (b + bi) ≡ is_clear (s.disk dev (bitmap_block b ni)) bi
  is_free-at b bi a l = rw (same_block b bi a l, same_place b bi a l) refl

  -- A block from b on in terms of its place in the bitmap block.
  all_used :
      (b : ℕ)
      → b % bpb ≡ 0
      → (k : ℕ) → k ≤ bpb
      → ((j : ℕ) → j < k → is_clear (s.disk dev (bitmap_block b ni)) j ≡ false)
      → (m : ℕ) → b ≤ m
      → m < b + k
      → is_free dev s m ≡ false
  all_used b a k q h m l r =
      ap (is_free dev s) (omega (arith, l))
      ∙ is_free-at b (m - b) a (omega arith)
      ∙ h (m - b) (omega arith)

  marked-at :
      (b bi : ℕ)
      → b % bpb ≡ 0
      → bi < bpb
      → marked dev (b + bi) s
        ≡ put_block dev (bitmap_block b ni) (set_bit (s.disk dev (bitmap_block b ni)) bi) s
  marked-at b bi a l = rw (same_block b bi a l, same_place b bi a l) refl

  glue :
      (b stop : ℕ)
      → ((m : ℕ) → b ≤ m → m < b + bpb → is_free dev s m ≡ false)
      → ((m : ℕ) → b + bpb ≤ m → m < stop → is_free dev s m ≡ false)
      → (m : ℕ) → b ≤ m
      → m < stop
      → is_free dev s m ≡ false
  glue b stop f g m l r = elim (Bool-cases (ltb m (b + bpb))) [
    | inl t ↦ f m l (ground (arith, t))
    | inr t ↦ g m (ground (arith, t)) r
  ]

  -- The two outcomes of the search from block b on.
  abbrev Found : (b stop : ℕ) → Result ℕ → Type 0
  Found b stop r =
      ((n : ℕ) × (r ≡ done n (marked dev n s))
        × (b ≤ n)
        × (n < stop)
        × (is_free dev s n ≡ true)
        × ((m : ℕ) → b ≤ m → m < n → is_free dev s m ≡ false))
      ⊎ ((r ≡ panic) × ((m : ℕ) → b ≤ m → m < stop → is_free dev s m ≡ false))

  balloc_from-Found :
      (rounds b : ℕ) → b % bpb ≡ 0 → Found b (b + rounds * bpb) (balloc_from dev ni rounds b s)
  unfolding balloc_from
  balloc_from-Found zero b a = inr (refl, λ m l r. absurd (omega arith))
  balloc_from-Found (suc n) b a =
      elim (find_index-cases (is_clear (s.disk dev (bitmap_block b ni))) bpb) [
        | inr (bi, e, l, t, h) ↦ rw e (
            inl (
              b + bi,
              ap (done (b + bi)) (sym (marked-at b bi a l)),
              omega arith,
              omega (arith, l),
              is_free-at b bi a l ∙ t,
              all_used b a bi (omega (arith, l)) h,
            ))
        | inl (e, h) ↦ rw e (elim (balloc_from-Found n (b + bpb) (omega (arith, a))) [
          | inl (k, q, l, r, t, g) ↦ inl (
            k,
            q,
            omega arith,
            omega (arith, r),
            t,
            glue b k (all_used b a bpb (omega arith) h) g,
          )
          | inr (q, g) ↦ inr (
            q,
            glue b (b + suc n * bpb) (all_used b a bpb (omega arith) h)
                (λ m l r. g m l (omega (arith, r))),
          )
        ])
      ]

  balloc-Found : Found 0 (scanned dev s) (balloc dev s)
  unfolding balloc
  balloc-Found =
      subst (λ k. Found 0 k (balloc dev s)) (zero-add (scanned dev s))
        (balloc_from-Found (((superblock (s.disk dev 1)).size + 4095) / bpb) 0 refl)

-- Reading a block after a block has been written.
pub put_block-other :
    (dev bno d n : ℕ) (b : Block) (s : Fs)
    → (d ≢ dev) ⊎ (n ≢ bno)
    → (put_block dev bno b s).disk d n ≡ s.disk d n
put_block-other dev bno d n b s o = ground (arith, o)

pub put_block_same : (dev bno : ℕ) (b : Block) (s : Fs) → (put_block dev bno b s).disk dev bno ≡ b
put_block_same dev bno b s = ground arith

same_bit : (m n ni : ℕ) → bitmap_block m ni ≡ bitmap_block n ni → (m % bpb == n % bpb) ≡ (m == n)
same_bit m n ni e = ground (arith, e)

other_bit : (m n ni : ℕ) → bitmap_block m ni ≢ bitmap_block n ni → (m == n) ≡ false
other_bit m n ni e = ground (arith, e)

-- Changing the bit of one block in the bitmap changes the answer for that block only.
pub change_bit :
    (dev n : ℕ) (s : Fs) (f : Block) (value : Bool)
    → ((k : ℕ)
        → is_clear f k ≡ (
            if k == n % bpb
            then value
            else is_clear (s.disk dev (bitmap_block n (inode_count dev s))) k))
    → (m : ℕ)
    → is_free dev (put_block dev (bitmap_block n (inode_count dev s)) f s) m
      ≡ (if m == n then value else is_free dev s m)
change_bit dev n s f value h m =
    let bno = bitmap_block n (inode_count dev s) in
    let count = ap (λ b. word b 8) (put_block-other dev bno dev 1 f s (inr (ground arith))) in
    let s' = put_block dev bno f s in
    ap (λ c. is_clear (s'.disk dev (bitmap_block m c)) (m % bpb)) count
    ∙ elim (equal (bitmap_block m (inode_count dev s)) bno) [
      | inl e ↦
          ap (λ k. is_clear (s'.disk dev k) (m % bpb)) e
          ∙ ap (λ b. is_clear b (m % bpb)) (put_block_same dev bno f s)
          ∙ h (m % bpb)
          ∙ choose_same _ _ value (is_clear (s.disk dev bno) (m % bpb))
              (same_bit m n (inode_count dev s) e)
          ∙ ap (λ k. if m == n then value else is_clear (s.disk dev k) (m % bpb)) (sym e)
      | inr e ↦
          ap (λ b. is_clear b (m % bpb))
            (put_block-other dev bno dev (bitmap_block m (inode_count dev s)) f s (inr e))
          ∙ choose_false (m == n) value (is_free dev s m) (other_bit m n (inode_count dev s) e)
    ]

-- The bytes of the disk are numbers below 256.
abbrev pub DiskBytes : ℕ → Fs → Type 0
DiskBytes dev s = (b : ℕ) → IsBytes (s.disk dev b)

-- On a disk of bytes balloc searches the blocks of all bitmap blocks that begin below the size. It
-- returns the first that is free and sets its bit, so that the others are free as before and it is
-- not; or none of them is free and it panics.
pub balloc_lem :
    (dev : ℕ) (s : Fs)
    → DiskBytes dev s
    → ((n : ℕ) × (balloc dev s ≡ done n (marked dev n s))
        × (n < scanned dev s)
        × (is_free dev s n ≡ true)
        × ((m : ℕ) → m < n → is_free dev s m ≡ false)
        × ((m : ℕ) → is_free dev (marked dev n s) m ≡ (if m == n then false else is_free dev s m)))
      ⊎ ((balloc dev s ≡ panic) × ((m : ℕ) → m < scanned dev s → is_free dev s m ≡ false))
balloc_lem dev s h = elim (balloc-Found dev s) [
  | inl (n, e, l, r, t, g) ↦ inl (
    n,
    e,
    r,
    t,
    λ m q. g m (omega arith) q,
    change_bit dev n s (set_bit (s.disk dev (bitmap_block n (inode_count dev s))) (n % bpb)) false
        (λ k. is_clear-set_bit (s.disk dev (bitmap_block n (inode_count dev s))) (n % bpb) k (h _)),
  )
  | inr (e, g) ↦ inr (e, λ m q. g m (omega arith) q)
]
