-- ===== src/Buffers/Writes.antt =====
-- bwrite and brelse of lab5/xv6-thread/kernel/bio.c and the blocks on the disk.
use ecnu_oslab.Base.{
  ℕ, ◌%◌, ◌^◌, ◌<◌, ◌≡◌, ◌≢◌, refl, ◌∙◌, inl, inr, arith, true, false, ◌&&◌, not, ◌∷◌, ◌==◌,
  if◌then◌else◌, equal, Bool-cases,
}
use ecnu_oslab.Fs.{Block}
use ecnu_oslab.Buffers.{
  nbuf, no_dev, Buf, Cache, block_at, store_at, Outcome, done, panic, sleeps, set_buf, iderw,
  bwrite, unlink, brelse,
}
use ecnu_oslab.Buffers.Clean.{Clean, Clean-busy, Clean-release}
use ecnu_oslab.Buffers.Reads.{single-alone}

abbrev pub then_do : {A B : Type 0} → Outcome A → (A → Cache → Outcome B) → Outcome B
then_do (done a c) f = f a c
then_do panic f = panic
then_do (sleeps i c) f = sleeps i c

-- The bytes of a locked buffer are changed.
abbrev pub with_bytes : ℕ → Block → Cache → Cache
with_bytes b x c = set_buf b (record (c.bufs b) { bytes = x }) c

-- The disks with the block of the buffer b replaced.
abbrev pub stored : ℕ → Block → Cache → (drive sector : ℕ) → Block
stored b x c = store_at (c.bufs b).dev (c.bufs b).sector x c.disk

-- A device and a sector that the controller can tell from all others.
abbrev pub Addressable : Buf → Type 0
Addressable p = (p.dev < 2) × (p.sector < 2 ^ 28)

-- The cache after bwrite.
abbrev pub flushed : ℕ → Block → Cache → Cache
flushed b x c = record c {
  bufs = λ i.
      if i == b then record (c.bufs b) { valid = true; dirty = false; bytes = x } else c.bufs i;
  disk = stored b x c;
}

abbrev pub released : ℕ → Cache → Cache
released b c =
    set_buf b (record (c.bufs b) { busy = false }) (record c { order = b ∷ unlink b c.order })

stored-if :
    (b : ℕ) (x : Block) (c : Cache)
    → Addressable (c.bufs b)
    → (d n : ℕ)
    → stored b x c d n ≡ (if d == (c.bufs b).dev && n == (c.bufs b).sector then x else c.disk d n)
stored-if b x c a d n =
    let e : (c.bufs b).dev % 2 ≡ (c.bufs b).dev = omega (arith, a.0) in
    let f : (c.bufs b).sector % 2 ^ 28 ≡ (c.bufs b).sector = omega (arith, a.1) in rw (e, f) refl

same : (b : ℕ) → (b == b) ≡ true
same b = ground arith

module _ (b : ℕ) (x : Block) (c : Cache) (ok : Clean c) (l : b < nbuf) (y : (c.bufs b).busy ≡ true)
    (a : Addressable (c.bufs b))
    (others : (i : ℕ) → i < nbuf → (c.bufs i).valid ≡ true → Addressable (c.bufs i)) where
  unaliased : (c.bufs b).dev ≢ no_dev
  unaliased = ground (arith, a)

  flushed-Clean : Clean (flushed b x c)
  flushed-Clean =
      Clean-busy c (flushed b x c) b ok refl kept (λ i d. ground (arith, d)) (ground (arith, y))
        (λ i m d e q. single-alone c b ok l unaliased i m d (ground (arith, e)) (ground (arith, q)))
    where
      kept :
          (i : ℕ)
          → i < nbuf
          → i ≢ b
          → (c.bufs i).valid ≡ true
          → block_at (flushed b x c) (c.bufs i).dev (c.bufs i).sector
            ≡ block_at c (c.bufs i).dev (c.bufs i).sector
      kept i m d v = ground (arith, a, others i m v, single-alone c b ok l unaliased i m d)

  released-Clean : Clean (released b (flushed b x c))
  released-Clean = Clean-release (flushed b x c) b flushed-Clean l (ground arith) held
    where
      held :
          ((flushed b x c).bufs b).bytes
          ≡ block_at (flushed b x c) ((flushed b x c).bufs b).dev ((flushed b x c).bufs b).sector
      held = ground arith

-- The cache after bwrite, as the calls build it.
abbrev nested : ℕ → Block → Cache → Cache
nested b x c = record c {
  bufs = λ i.
      if i == b
      then record (c.bufs b) { valid = true; dirty = false; bytes = x }
      else if i == b
      then record (c.bufs b) { dirty = true; bytes = x }
      else if i == b
      then record (c.bufs b) { bytes = x }
      else c.bufs i;
  disk = stored b x c;
}

nested-bufs :
    (b : ℕ) (x : Block) (c : Cache) (i : ℕ) → (nested b x c).bufs i ≡ (flushed b x c).bufs i
nested-bufs b x c i = elim (equal i b) [ inl e ↦ rw (e, same b) refl | inr n ↦ ground (arith, n) ]

bwrite-nested :
    (b : ℕ) (x : Block) (c : Cache)
    → (c.bufs b).busy ≡ true
    → (not ((c.bufs b).dev == 0) && not c.has_disk1) ≡ false
    → bwrite b (with_bytes b x c) ≡ done tt (nested b x c)
unfolding bwrite iderw
bwrite-nested b x c y p = elim (Bool-cases (c.bufs b).valid) [
  | inl v ↦ rw (same b, y, v, p) refl
  | inr v ↦ rw (same b, y, v, p) refl
]

bwrite-flushed :
    (b : ℕ) (x : Block) (c : Cache)
    → (c.bufs b).busy ≡ true
    → (not ((c.bufs b).dev == 0) && not c.has_disk1) ≡ false
    → bwrite b (with_bytes b x c) ≡ done tt (flushed b x c)
bwrite-flushed b x c y p =
    bwrite-nested b x c y p
    ∙ (λ k. done tt (record c { bufs = λ i. nested-bufs b x c i k; disk = stored b x c }))

brelse-released : (b : ℕ) (c : Cache) → (c.bufs b).busy ≡ true → brelse b c ≡ done tt (released b c)
unfolding brelse
brelse-released b c y = rw y refl

-- In a clean cache, the bytes of a locked buffer with a block of a device are changed, and bwrite and brelse
-- are called, where the device is 0, or 1 with the second disk there, and the sector is below 2^28, as are
-- those of all valid buffers: both return, the block on the disk has the new bytes and every other block
-- of both disks is the same, the buffer is the first in the list and not busy, and the cache is clean.
pub brelse-bwrite :
    (b : ℕ) (x : Block) (c : Cache)
    → Clean c
    → b < nbuf
    → (c.bufs b).busy ≡ true
    → Addressable (c.bufs b)
    → ((i : ℕ) → i < nbuf → (c.bufs i).valid ≡ true → Addressable (c.bufs i))
    → (not ((c.bufs b).dev == 0) && not c.has_disk1) ≡ false
    → (c' : Cache) × (then_do (bwrite b (with_bytes b x c)) (λ a. brelse b) ≡ done tt c')
      × ((d n : ℕ)
          → c'.disk d n ≡ (if d == (c.bufs b).dev && n == (c.bufs b).sector then x else c.disk d n))
      × (c'.order ≡ b ∷ unlink b c.order)
      × ((c'.bufs b).busy ≡ false)
      × Clean c'
brelse-bwrite b x c ok l y a o p = (
  released b (flushed b x c),
  rw (bwrite-flushed b x c y p) (brelse-released b (flushed b x c) (ground (arith, y))),
  stored-if b x c a,
  refl,
  ground arith,
  released-Clean b x c ok l y a o,
)
