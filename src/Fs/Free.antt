-- ===== src/Fs/Free.antt =====
-- bfree of lab5/xv6-thread/kernel/fs.c on the bitmap.
use ecnu_oslab.Base.{
  ℕ, ◌%◌, ◌<◌, ◌≡◌, ◌≢◌, ◌⊎◌, refl, sym, ap, ◌∙◌, inl, inr, arith, true, false, ◌==◌, if◌then◌else◌,
  Bool-cases,
}
use ecnu_oslab.Fs.{Fs, done, panic, word, bitmap_block, is_clear, clear_bit, bfree, bpb}
use ecnu_oslab.Fs.Bits.{is_clear-clear_bit}
use ecnu_oslab.Fs.Alloc.{
  inode_count, is_free, put_block, put_block_same, put_block-other, change_bit, DiskBytes,
}

-- The block of zeros that bzero writes first.
abbrev pub zeroed : (dev b : ℕ) → Fs → Fs
zeroed dev b s = put_block dev b (λ i. 0) s

zeroed-count : (dev b : ℕ) (s : Fs) → b ≢ 1 → inode_count dev (zeroed dev b s) ≡ inode_count dev s
zeroed-count dev b s n =
    ap (λ x. word x 8) (put_block-other dev b dev 1 (λ i. 0) s (inr (λ e. n (sym e))))

zeroed-is_free :
    (dev b : ℕ) (s : Fs)
    → b ≢ 1
    → (m : ℕ) → bitmap_block m (inode_count dev s) ≢ b
    → is_free dev (zeroed dev b s) m ≡ is_free dev s m
zeroed-is_free dev b s n m o =
    ap (λ c. is_clear ((zeroed dev b s).disk dev (bitmap_block m c)) (m % bpb))
      (zeroed-count dev b s n)
    ∙ ap (λ x. is_clear x (m % bpb))
        (put_block-other dev b dev (bitmap_block m (inode_count dev s)) (λ i. 0) s (inr o))

zeroed-DiskBytes : (dev b : ℕ) (s : Fs) → DiskBytes dev s → DiskBytes dev (zeroed dev b s)
zeroed-DiskBytes dev b s h n i = ground (arith, h n i)

-- The disk behind bfree.
abbrev pub freed : (dev b : ℕ) → Fs → Fs
freed dev b s =
    let z = zeroed dev b s in
    let bno = bitmap_block b (inode_count dev z) in
    put_block dev bno (clear_bit (z.disk dev bno) (b % bpb)) z

-- On a disk of bytes with fewer than `limit` blocks, for a block that is neither the superblock nor the
-- bitmap block of one of them, bfree panics if the block is free already; else it fills the block with
-- zeros and clears its bit, and the other blocks are free as before.
pub bfree_lem :
    (dev b limit : ℕ) (s : Fs)
    → DiskBytes dev s
    → b ≢ 1
    → b < limit
    → ((m : ℕ) → m < limit → bitmap_block m (inode_count dev s) ≢ b)
    → ((is_free dev s b ≡ true) × (bfree dev b s ≡ panic))
      ⊎ ((is_free dev s b ≡ false)
          × (bfree dev b s ≡ done tt (freed dev b s))
          × ((m : ℕ)
              → m < limit
              → is_free dev (freed dev b s) m ≡ (if m == b then true else is_free dev s m))
          × ((i : ℕ) → (freed dev b s).disk dev b i ≡ 0))
unfolding bfree
bfree_lem dev b limit s h n q o = elim (Bool-cases (is_free dev (zeroed dev b s) b)) [
  | inl t ↦ inl (sym (zeroed-is_free dev b s n b (o b q)) ∙ t, rw t refl)
  | inr t ↦ inr (
    sym (zeroed-is_free dev b s n b (o b q)) ∙ t,
    rw t refl,
    λ m r.
        change_bit dev b (zeroed dev b s)
          (clear_bit ((zeroed dev b s).disk dev (bitmap_block b (inode_count dev (zeroed dev b s))))
            (b % bpb))
          true (λ k. is_clear-clear_bit _ (b % bpb) k (zeroed-DiskBytes dev b s h _)) m
        ∙ ap (λ x. if m == b then true else x) (zeroed-is_free dev b s n m (o m r)),
    λ i.
        ap (λ x. x i)
          (put_block-other dev (bitmap_block b (inode_count dev (zeroed dev b s))) dev b _
            (zeroed dev b s)
            (inr (λ e. o b q (sym (e ∙ ap (λ c. bitmap_block b c) (zeroed-count dev b s n))))))
        ∙ ap (λ x. x i) (put_block_same dev b (λ j. 0) s),
  )
]
