-- ===== src/Fs/Content.antt =====
-- The contents of inodes in lab5/xv6-thread/kernel/fs.c: bmap, itrunc, iput, readi and writei.
use ecnu_oslab.Base.{
  ℕ, zero, suc, ◌+◌, ◌-◌, ◌*◌, ◌/◌, ◌%◌, ◌^◌, true, false, ◌&&◌, ◌||◌, Option, none, some, List, [],
  ◌∷◌, ◌++◌, length, ltb, ◌==◌, if◌then◌else◌, ℤ, pos, minus_one,
}
use ecnu_oslab.Fs.{
  Block, Inode, M, ◌>>=◌, ◌>>◌, pure, stop, done, stray, word, set_word, bread, bwrite, balloc,
  bfree, bsize,
}
use ecnu_oslab.Fs.Inodes.{get_inode, put_inode, iupdate, iunlock}

abbrev pub ndirect : ℕ
ndirect = 12

abbrev pub nindirect : ℕ
nindirect = 128

abbrev pub t_dev : ℕ
t_dev = 3

abbrev pub set_addr : ℕ → ℕ → Inode → Inode
set_addr k a ip = record ip { addrs = λ j. if j == k then a else ip.addrs j }

-- ip->addrs[k], after a block has been allocated for it if it was 0.
unfoldable pub own_block : (i k : ℕ) → M ℕ
own_block i k s =
    let ip = s.inodes i in
    (if ip.addrs k == 0
        then (do a ← balloc ip.dev; now ← get_inode i; put_inode i (set_addr k a now); pure a)
        else pure (ip.addrs k))
      s

-- The k-th word of the indirect block at `table`, after the same.
unfoldable pub indirect_block : (dev table k : ℕ) → M ℕ
indirect_block dev table k s =
    let old = word (s.disk dev table) (4 * k) in
    (if old == 0
        then (do
          a ← balloc dev
          now ← bread dev table
          bwrite dev table (set_word now (4 * k) a)
          pure a)
        else pure old)
      s

unfoldable pub bmap : (i bn : ℕ) → M ℕ
bmap i bn s =
    (if ltb bn ndirect
        then own_block i bn
        else if ltb (bn - ndirect) nindirect
        then (do
          table ← own_block i ndirect
          ip ← get_inode i
          indirect_block ip.dev table (bn - ndirect))
        else stop)
      s

-- itrunc, the first loop.
unfoldable pub free_direct : (i n k : ℕ) → M (Unit {0})
free_direct i zero k s = done tt s
free_direct i (suc n) k s =
    let rest = free_direct i n (k + 1) in
    let ip = s.inodes i in
    (if ip.addrs k == 0
        then rest
        else do bfree ip.dev (ip.addrs k); now ← get_inode i; put_inode i (set_addr k 0 now); rest)
      s

-- itrunc, the second loop; the words are those of the block as it was read.
unfoldable pub free_indirect : (dev : ℕ) → Block → (n j : ℕ) → M (Unit {0})
free_indirect dev table zero j s = done tt s
free_indirect dev table (suc n) j s =
    let rest = free_indirect dev table n (j + 1) in
    (if word table (4 * j) == 0 then rest else (bfree dev (word table (4 * j)) >> rest)) s

unfoldable pub free_table : ℕ → M (Unit {0})
free_table i s =
    let ip = s.inodes i in
    (if ip.addrs ndirect == 0 then pure tt else do
      table ← bread ip.dev (ip.addrs ndirect)
      free_indirect ip.dev table nindirect 0
      bfree ip.dev (ip.addrs ndirect)
      now ← get_inode i
      put_inode i (set_addr ndirect 0 now))
      s

unfoldable pub itrunc : ℕ → M (Unit {0})
itrunc i = do
  free_direct i ndirect 0
  free_table i
  ip ← get_inode i
  put_inode i (record ip { size = 0 })
  iupdate i

abbrev pub drop_ref : ℕ → M (Unit {0})
drop_ref i s =
    let ip = s.inodes i in
    if ip.ref == 0 then stray else put_inode i (record ip { ref = ip.ref - 1 }) s

-- What iput does for an inode that nobody else refers to and that has no link.
abbrev pub discard : ℕ → M (Unit {0})
discard i = do
  ip ← get_inode i
  put_inode i (record ip { busy = true })
  itrunc i
  now ← get_inode i
  put_inode i (record now { type = 0 })
  iupdate i
  last ← get_inode i
  put_inode i (record last { busy = false; valid = false })

unfoldable pub iput : ℕ → M (Unit {0})
iput i s =
    let ip = s.inodes i in
    (if ip.ref == 1 && ip.valid && ip.nlink == 0
        then (if ip.busy then stop else (discard i >> drop_ref i))
        else drop_ref i)
      s

unfoldable pub iunlockput : ℕ → M (Unit {0})
iunlockput i = iunlock i >> iput i

-- struct stat
pub record Stat : Type 0 where
  pub dev : ℕ
  pub ino : ℕ
  pub type : ℕ
  pub nlink : ℕ
  pub size : ℕ

unfoldable pub stati : ℕ → M Stat
stati i = do
  ip ← get_inode i
  pure (record { dev = ip.dev; ino = ip.inum; type = ip.type; nlink = ip.nlink; size = ip.size })

-- The n bytes from o on.
unfoldable pub slice : Block → (o n : ℕ) → List ℕ
slice b o zero = []
slice b o (suc n) = b o ∷ slice b (o + 1) n

-- memmove(bp->data + o, src, n) for the bytes src.
unfoldable pub splice : Block → (o : ℕ) → List ℕ → Block
splice b o [] = b
splice b o (c ∷ cs) = splice (λ i. if i == o then c else b i) (o + 1) cs

-- min(n - tot, BSIZE - off%BSIZE), n - tot being `left`.
abbrev pub chunk : (left off : ℕ) → ℕ
chunk left off = if ltb left (bsize - off % bsize) then left else bsize - off % bsize

-- The loops run on fuel; each round moves at least one byte.
unfoldable pub read_loop : (fuel i off left : ℕ) → M (List ℕ)
read_loop zero i off left s = done [] s
read_loop (suc fuel) i off left s =
    let rest = read_loop fuel i (off + chunk left off) (left - chunk left off) in
    (if left == 0 then pure [] else do
      ip ← get_inode i
      a ← bmap i (off / bsize)
      b ← bread ip.dev a
      bytes ← rest
      pure (slice b (off % bsize) (chunk left off) ++ bytes))
      s

-- devsw[ip->major].read, if there is such a device.
abbrev pub read_device : (i n : ℕ) → Option (ℕ → ℕ → M (ℤ × List ℕ)) → M (ℤ × List ℕ)
read_device i n none = pure (minus_one, [])
read_device i n (some f) = f i n

module _ (dev_read : ℕ → Option (ℕ → ℕ → M (ℤ × List ℕ))) where
  -- A major number of 2^15 or more is a negative short. With the result the bytes put at dst.
  unfoldable pub readi : (i off n : ℕ) → M (ℤ × List ℕ)
  readi i off n s =
      let ip = s.inodes i in
      (if ip.type == t_dev
          then read_device i n (if ltb ip.major 10 then dev_read ip.major else none)
          else if ltb ip.size off || ltb ((off + n) % 2 ^ 32) off
          then pure (minus_one, [])
          else (let m = if ltb ip.size ((off + n) % 2 ^ 32) then ip.size - off else n in
              read_loop m i off m >>= λ bytes. pure (pos m, bytes)))
        s

abbrev pub maxfile : ℕ
maxfile = ndirect + nindirect

unfoldable pub take : ℕ → List ℕ → List ℕ
take zero cs = []
take (suc n) [] = []
take (suc n) (c ∷ cs) = c ∷ take n cs

unfoldable pub drop : ℕ → List ℕ → List ℕ
drop zero cs = cs
drop (suc n) [] = []
drop (suc n) (c ∷ cs) = drop n cs

-- The bytes that are left to write; with the result the offset behind the last one.
unfoldable pub write_loop : (fuel i off : ℕ) → List ℕ → M ℕ
write_loop zero i off src s = done off s
write_loop (suc fuel) i off src s =
    let m = chunk (length src) off in
    let rest = write_loop fuel i (off + m) (drop m src) in
    (if length src == 0 then pure off else do
      ip ← get_inode i
      a ← bmap i (off / bsize)
      b ← bread ip.dev a
      bwrite ip.dev a (splice b (off % bsize) (take m src))
      rest)
      s

-- if(n > 0 && off > ip->size){ ip->size = off; iupdate(ip); }
unfoldable pub grow : (i n off : ℕ) → M (Unit {0})
grow i n off s =
    let ip = s.inodes i in
    (if ltb 0 n && ltb ip.size off
        then (put_inode i (record ip { size = off }) >> iupdate i)
        else pure tt)
      s

abbrev pub write_device : (i : ℕ) → List ℕ → Option (ℕ → List ℕ → M ℤ) → M ℤ
write_device i src none = pure minus_one
write_device i src (some f) = f i src

module _ (dev_write : ℕ → Option (ℕ → List ℕ → M ℤ)) where
  -- The n bytes at src. The size is at most MAXFILE*BSIZE, so that MAXFILE*BSIZE - off does not wrap.
  unfoldable pub writei : (i : ℕ) → (src : List ℕ) → (off : ℕ) → M ℤ
  writei i src off s =
      let ip = s.inodes i in
      let n = length src in
      (if ip.type == t_dev
          then write_device i src (if ltb ip.major 10 then dev_write ip.major else none)
          else if ltb ip.size off || ltb ((off + n) % 2 ^ 32) off
          then pure minus_one
          else (let m =
                if ltb (maxfile * bsize) ((off + n) % 2 ^ 32)
                then (maxfile * bsize + 2 ^ 32 - off) % 2 ^ 32
                else n in
              do stop_at ← write_loop m i off (take m src); grow i m stop_at; pure (pos m)))
        s
