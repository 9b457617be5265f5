-- ===== src/Buffers.antt =====
-- lab5/xv6-thread/kernel/bio.c: the cache of disk blocks, and iderw of ide.c, which moves a block between
-- a buffer and the disk.
pub mod Order
pub mod Clean
pub mod Reads
pub mod Writes
mod Tests
use ecnu_oslab.Base.{
  ℕ, zero, suc, ◌+◌, ◌-◌, ◌%◌, ◌^◌, Bool, true, false, ◌&&◌, ◌||◌, not, Option, none, some, List,
  [], ◌∷◌, ◌==◌, if◌then◌else◌,
}
use ecnu_oslab.Fs.{Block}

abbrev pub nbuf : ℕ
nbuf = 10

-- struct buf, its flags as three fields.
pub record Buf : Type 0 where
  pub dev : ℕ
  pub sector : ℕ
  pub busy : Bool
  pub valid : Bool
  pub dirty : Bool
  pub bytes : Block

-- bcache: the buffers, and their numbers in the order of the list, head.next first; and the disks, by the
-- number of the drive and of the sector on it.
pub record Cache : Type 0 where
  pub bufs : ℕ → Buf
  pub order : List ℕ
  pub disk : (drive sector : ℕ) → Block
  pub has_disk1 : Bool

-- What a function does: it returns, panics, or sleeps on a buffer.
pub data Outcome (A : Type 0) : Type 0 where
  done : A → Cache → Outcome A
  panic : Outcome A
  sleeps : ℕ → Cache → Outcome A

-- The block that the controller is asked for: the lowest bit of the device selects the drive, and the sector
-- has 28 bits.
abbrev pub block_at : Cache → (dev sector : ℕ) → Block
block_at c dev sector = c.disk (dev % 2) (sector % 2 ^ 28)

abbrev pub store_at : (dev sector : ℕ) → Block → (ℕ → ℕ → Block) → ℕ → ℕ → Block
store_at dev sector x disk d n = if d == dev % 2 && n == sector % 2 ^ 28 then x else disk d n

abbrev pub set_buf : ℕ → Buf → Cache → Cache
set_buf b x c = record c { bufs = λ i. if i == b then x else c.bufs i }

-- The list that binit makes of the first n buffers.
unfoldable pub down_from : ℕ → List ℕ
down_from zero = []
down_from (suc n) = n ∷ down_from n

-- dev = -1
abbrev pub no_dev : ℕ
no_dev = 2 ^ 32 - 1

abbrev pub binit : Cache → Cache
binit c = record c { bufs = λ i. record (c.bufs i) { dev = no_dev }; order = down_from nbuf }

-- The first buffer in the list with a property, along next.
unfoldable pub find_next : (ℕ → Bool) → List ℕ → Option ℕ
find_next test [] = none
find_next test (b ∷ bs) = let rest = find_next test bs in if test b then some b else rest

abbrev pub or_else : Option ℕ → Option ℕ → Option ℕ
or_else none other = other
or_else (some b) other = some b

-- The last one: the first along prev.
unfoldable pub find_prev : (ℕ → Bool) → List ℕ → Option ℕ
find_prev test [] = none
find_prev test (b ∷ bs) = or_else (find_prev test bs) (if test b then some b else none)

abbrev pub holds : (dev sector : ℕ) → Buf → Bool
holds dev sector x = x.dev == dev && x.sector == sector

abbrev pub recycle : (dev sector : ℕ) → Option ℕ → Cache → Outcome ℕ
recycle dev sector none c = panic
recycle dev sector (some b) c = done b (
    set_buf b
      (record (c.bufs b) { dev = dev; sector = sector; busy = true; valid = false; dirty = false })
      c)

-- The buffer with the block, or the least recently used one that is free.
abbrev pub lock_buf : (dev sector : ℕ) → Option ℕ → Cache → Outcome ℕ
lock_buf dev sector none c = recycle dev sector (find_prev (λ b. not (c.bufs b).busy) c.order) c
lock_buf dev sector (some b) c =
    if (c.bufs b).busy then sleeps b c else done b (set_buf b (record (c.bufs b) { busy = true }) c)

-- Up to the sleep, after which it starts again, or to the end.
unfoldable pub bget : (dev sector : ℕ) → Cache → Outcome ℕ
bget dev sector c = lock_buf dev sector (find_next (λ b. holds dev sector (c.bufs b)) c.order) c

-- iderw, the request included: writes a dirty buffer, and reads another one. The drive is taken to report no
-- error.
unfoldable pub iderw : ℕ → Cache → Outcome (Unit {0})
iderw b c =
    let x = c.bufs b in
    if not x.busy || x.valid && not x.dirty || not (x.dev == 0) && not c.has_disk1
    then panic
    else if x.dirty
    then done tt (
        set_buf b (record x { valid = true; dirty = false })
          (record c { disk = store_at x.dev x.sector x.bytes c.disk }))
    else done tt (set_buf b (record x { valid = true; bytes = block_at c x.dev x.sector }) c)

abbrev pub return : ℕ → Outcome (Unit {0}) → Outcome ℕ
return b (done a c) = done b c
return b panic = panic
return b (sleeps i c) = sleeps i c

abbrev pub fetch : Outcome ℕ → Outcome ℕ
fetch (done b c) = if (c.bufs b).valid then done b c else return b (iderw b c)
fetch panic = panic
fetch (sleeps i c) = sleeps i c

unfoldable pub bread : (dev sector : ℕ) → Cache → Outcome ℕ
bread dev sector c = fetch (bget dev sector c)

unfoldable pub bwrite : ℕ → Cache → Outcome (Unit {0})
bwrite b c =
    if not (c.bufs b).busy
    then panic
    else iderw b (set_buf b (record (c.bufs b) { dirty = true }) c)

-- A buffer is taken out of the list.
unfoldable pub unlink : ℕ → List ℕ → List ℕ
unlink b [] = []
unlink b (x ∷ xs) = let rest = unlink b xs in if x == b then rest else x ∷ rest

-- The processes that sleep on the buffer are woken.
unfoldable pub brelse : ℕ → Cache → Outcome (Unit {0})
brelse b c =
    if not (c.bufs b).busy
    then panic
    else done tt
        (set_buf b (record (c.bufs b) { busy = false }) (record c { order = b ∷ unlink b c.order }))
