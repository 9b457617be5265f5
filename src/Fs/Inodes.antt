-- ===== src/Fs/Inodes.antt =====
-- The inodes of lab5/xv6-thread/kernel/fs.c: the ones on disk, and the table of those in memory.
use ecnu_oslab.Base.{
  ℕ, zero, suc, ◌+◌, ◌-◌, ◌*◌, ◌/◌, ◌%◌, Bool, true, false, ◌&&◌, ◌||◌, not, Option, none, some,
  ltb, ◌==◌, if◌then◌else◌, find_index,
}
use ecnu_oslab.Fs.{
  Block, Inode, M, ◌>>=◌, ◌>>◌, pure, stop, done, panic, sleeps, word, half, set_half, set_word,
  bread, bwrite, readsb,
}

abbrev pub ninode : ℕ
ninode = 50

-- IBLOCK, and where the inode starts in that block: struct dinode has 64 bytes.
abbrev pub inode_block : ℕ → ℕ
inode_block inum = inum / 8 + 2

abbrev pub inode_offset : ℕ → ℕ
inode_offset inum = 64 * (inum % 8)

-- struct dinode at `at`: the fields that ilock reads.
abbrev pub load_inode : Block → (at : ℕ) → Inode → Inode
load_inode b at ip = record ip {
  type = half b at;
  major = half b (at + 2);
  minor = half b (at + 4);
  nlink = half b (at + 6);
  size = word b (at + 8);
  addrs = λ i. word b (at + 12 + 4 * i);
}

-- memmove(dip->addrs, ip->addrs, sizeof(ip->addrs)), from the i-th of the n addresses on.
unfoldable pub store_addrs : (n i : ℕ) → Block → (at : ℕ) → (ℕ → ℕ) → Block
store_addrs zero i b at addrs = b
store_addrs (suc n) i b at addrs =
    store_addrs n (i + 1) (set_word b (at + 12 + 4 * i) (addrs i)) at addrs

abbrev pub store_fields : Block → (at : ℕ) → Inode → Block
store_fields b at ip =
    set_word
      (set_half (set_half (set_half (set_half b at ip.type) (at + 2) ip.major) (at + 4) ip.minor)
        (at + 6) ip.nlink)
      (at + 8) ip.size

unfoldable pub store_inode : Block → (at : ℕ) → Inode → Block
store_inode b at ip = store_addrs 13 0 (store_fields b at ip) at ip.addrs

abbrev pub get_inode : ℕ → M Inode
get_inode i s = done (s.inodes i) s

abbrev pub put_inode : ℕ → Inode → M (Unit {0})
put_inode i ip s = done tt (record s { inodes = λ j. if j == i then ip else s.inodes j })

unfoldable pub iupdate : ℕ → M (Unit {0})
iupdate i = do
  ip ← get_inode i
  b ← bread ip.dev (inode_block ip.inum)
  bwrite ip.dev (inode_block ip.inum) (store_inode b (inode_offset ip.inum) ip)

-- The slot of the inode, with one reference more.
abbrev pub refer : ℕ → M ℕ
refer i = do ip ← get_inode i; put_inode i (record ip { ref = ip.ref + 1 }); pure i

abbrev pub is_cached : (dev inum : ℕ) → Inode → Bool
is_cached dev inum ip = ltb 0 ip.ref && ip.dev == dev && ip.inum == inum

-- The fields of an empty slot that iget leaves keep what they held.
abbrev pub enter : (dev inum i : ℕ) → M ℕ
enter dev inum i = do
  ip ← get_inode i
  put_inode i (record ip { dev = dev; inum = inum; ref = 1; busy = false; valid = false })
  pure i

abbrev pub enter_at : (dev inum : ℕ) → Option ℕ → M ℕ
enter_at dev inum none = stop
enter_at dev inum (some i) = enter dev inum i

abbrev pub refer_or : Option ℕ → M ℕ → M ℕ
refer_or none other = other
refer_or (some i) other = refer i

unfoldable pub iget : (dev inum : ℕ) → M ℕ
iget dev inum s =
    refer_or (find_index (λ i. is_cached dev inum (s.inodes i)) ninode 0)
      (enter_at dev inum (find_index (λ i. (s.inodes i).ref == 0) ninode 0)) s

unfoldable pub idup : ℕ → M ℕ
idup i = refer i

-- ialloc, from the inode inum on: the 64 bytes of a free one are cleared.
abbrev pub claim : Block → (at type : ℕ) → Block
claim b at type = set_half (λ i. if not (ltb i at) && ltb i (at + 64) then 0 else b i) at type

unfoldable pub ialloc_from : (dev type n inum : ℕ) → M ℕ
ialloc_from dev type zero inum s = panic
ialloc_from dev type (suc n) inum s =
    let rest = ialloc_from dev type n (inum + 1) in
    let b = s.disk dev (inode_block inum) in
    let found = bwrite dev (inode_block inum) (claim b (inode_offset inum) type) >> iget dev inum in
    (if half b (inode_offset inum) == 0 then found else rest) s

-- The inodes 1, ..., ninodes - 1.
unfoldable pub ialloc : (dev type : ℕ) → M ℕ
ialloc dev type = readsb dev >>= λ sb. ialloc_from dev type (sb.ninodes - 1) 1

abbrev pub fill : ℕ → M (Unit {0})
fill i = do
  ip ← get_inode i
  b ← bread ip.dev (inode_block ip.inum)
  put_inode i (record (load_inode b (inode_offset ip.inum) ip) { valid = true })
  (if half b (inode_offset ip.inum) == 0 then stop else pure tt)

-- Up to the sleep, or to the end.
unfoldable pub ilock : ℕ → M (Unit {0})
ilock i s =
    let ip = s.inodes i in
    if ip.ref == 0
    then panic
    else if ip.busy
    then sleeps i s
    else (put_inode i (record ip { busy = true }) >> (if ip.valid then pure tt else fill i)) s

-- The processes that sleep on the inode are woken.
unfoldable pub iunlock : ℕ → M (Unit {0})
iunlock i s =
    let ip = s.inodes i in
    if not ip.busy || ip.ref == 0 then panic else put_inode i (record ip { busy = false }) s
