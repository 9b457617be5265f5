-- ===== src/Fs.antt =====
-- lab5/xv6-thread/kernel/fs.c: the file system. The cache of blocks of bio.c is transparent here: bread gives
-- the bytes of a block, and bwrite puts the bytes of a block back.
pub mod Bits
pub mod Alloc
pub mod Free
pub mod Inodes
pub mod Content
pub mod Names
pub mod Twins
pub mod Whole
pub mod Paths
pub mod Steps
pub mod Cache
pub mod Dinode
pub mod Restore
pub mod Elements
mod Tests
use ecnu_oslab.Base.{
  ℕ, zero, suc, ◌+◌, ◌-◌, ◌*◌, ◌/◌, ◌%◌, ◌^◌, Bool, true, false, ◌&&◌, not, Option, none, some, ltb,
  ◌==◌, if◌then◌else◌, find_index,
}
use Prim.Native.Nat.{bit_and, bit_or}

-- The bytes of a block.
abbrev pub Block : Type 0
Block = ℕ → ℕ

-- struct inode, the flags I_BUSY and I_VALID as two fields. The shorts are their bit patterns.
pub record Inode : Type 0 where
  pub dev : ℕ
  pub inum : ℕ
  pub ref : ℕ
  pub busy : Bool
  pub valid : Bool
  pub type : ℕ
  pub major : ℕ
  pub minor : ℕ
  pub nlink : ℕ
  pub size : ℕ
  pub addrs : ℕ → ℕ

-- The disks, by device and number of the block, and the table icache.
pub record Fs : Type 0 where
  pub disk : (dev bno : ℕ) → Block
  pub inodes : ℕ → Inode

-- What a function does: it returns, panics, or sleeps on the inode in a slot of the table. `stray` is
-- a use of an inode that nobody refers to, which the code does not guard against.
pub data Result (A : Type 0) : Type 0 where
  done : A → Fs → Result A
  panic : Result A
  sleeps : ℕ → Fs → Result A
  stray : Result A

abbrev pub M : Type 0 → Type 0
M A = Fs → Result A

abbrev pub then_do : {A B : Type 0} → Result A → (A → M B) → Result B
then_do (done a s) f = f a s
then_do panic f = panic
then_do (sleeps i s) f = sleeps i s
then_do stray f = stray

infixl 5 ◌>>=◌ ◌>>◌
abbrev pub ◌>>=◌ : {A B : Type 0} → M A → (A → M B) → M B
◌>>=◌ m f s = then_do (m s) f

abbrev pub ◌>>◌ : {A B : Type 0} → M A → M B → M B
m >> k = m >>= λ _. k

abbrev pub pure : {A : Type 0} → A → M A
pure a s = done a s

abbrev pub stop : {A : Type 0} → M A
stop s = panic

abbrev pub bsize : ℕ
bsize = 512

-- Bits of the bitmap in a block.
abbrev pub bpb : ℕ
bpb = 4096

-- Little-endian words and half words.
abbrev pub word : Block → ℕ → ℕ
word b a = b a + 256 * b (a + 1) + 65536 * b (a + 2) + 16777216 * b (a + 3)

abbrev pub half : Block → ℕ → ℕ
half b a = b a + 256 * b (a + 1)

abbrev pub set_half : Block → ℕ → ℕ → Block
set_half b a x i = if i == a then x % 256 else if i == a + 1 then x / 256 % 256 else b i

abbrev pub set_word : Block → ℕ → ℕ → Block
set_word b a x = set_half (set_half b a (x % 65536)) (a + 2) (x / 65536)

abbrev pub bread : (dev bno : ℕ) → M Block
bread dev bno s = done (s.disk dev bno) s

abbrev pub bwrite : (dev bno : ℕ) → Block → M (Unit {0})
bwrite dev bno b s =
    done tt (record s { disk = λ d n. if d == dev && n == bno then b else s.disk d n })

-- struct superblock
pub record Superblock : Type 0 where
  pub size : ℕ
  pub nblocks : ℕ
  pub ninodes : ℕ

abbrev pub superblock : Block → Superblock
superblock b = record { size = word b 0; nblocks = word b 4; ninodes = word b 8 }

abbrev pub readsb : ℕ → M Superblock
readsb dev s = done (superblock (s.disk dev 1)) s

abbrev pub bzero : (dev bno : ℕ) → M (Unit {0})
bzero dev bno = bwrite dev bno (λ i. 0)

-- BBLOCK
abbrev pub bitmap_block : (b ninodes : ℕ) → ℕ
bitmap_block b ninodes = b / bpb + ninodes / 8 + 3

-- (data[bi/8] & 1 << (bi % 8)) == 0
abbrev pub is_clear : Block → ℕ → Bool
is_clear b bi = bit_and (b (bi / 8)) (2 ^ (bi % 8)) == 0

abbrev pub set_bit : Block → ℕ → Block
set_bit b bi i = if i == bi / 8 then bit_or (b i) (2 ^ (bi % 8)) else b i

abbrev pub clear_bit : Block → ℕ → Block
clear_bit b bi i = if i == bi / 8 then bit_and (b i) (255 - 2 ^ (bi % 8)) else b i

-- A round of balloc at the bitmap block with the bit for block b: the first bit that is clear.
abbrev pub take_bit : (dev b bno : ℕ) → Block → Option ℕ → M ℕ → M ℕ
take_bit dev b bno bits none other = other
take_bit dev b bno bits (some bi) other = bwrite dev bno (set_bit bits bi) >> pure (b + bi)

pub balloc_from : (dev ninodes rounds b : ℕ) → M ℕ
balloc_from dev ninodes zero b s = panic
balloc_from dev ninodes (suc n) b s =
    let rest = balloc_from dev ninodes n (b + bpb) in
    let bno = bitmap_block b ninodes in
    let bits = s.disk dev bno in take_bit dev b bno bits (find_index (is_clear bits) bpb 0) rest s

-- The loop runs over b = 0, BPB, ... below the size.
pub balloc : ℕ → M ℕ
balloc dev = readsb dev >>= λ sb. balloc_from dev sb.ninodes ((sb.size + 4095) / bpb) 0

pub bfree : (dev b : ℕ) → M (Unit {0})
bfree dev b = do
  bzero dev b
  sb ← readsb dev
  bits ← bread dev (bitmap_block b sb.ninodes)
  (if is_clear bits (b % bpb)
      then stop
      else bwrite dev (bitmap_block b sb.ninodes) (clear_bit bits (b % bpb)))
