-- ===== src/Fs/Restore.antt =====
-- iupdate and ilock in lab5/xv6-thread/kernel/fs.c: an inode that is written and later read again.
use ecnu_oslab.Base.{
  ℕ, ◌+◌, ◌≤◌, ◌<◌, ap, subst, ◌≡◌, ◌≢◌, refl, sym, ◌∙◌, arith, true, false, ◌&&◌, ◌==◌,
  if◌then◌else◌,
}
use ecnu_oslab.Fs.{Block, Inode, Fs, done, half}
use ecnu_oslab.Fs.Inodes.{inode_block, inode_offset, load_inode, store_inode, iupdate, ilock}
use ecnu_oslab.Fs.Dinode.{Fits, SameContents, SameContents-trans, load_inode-same, load-store}

-- The disk after iupdate of the inode in the slot i.
abbrev pub updated : (i : ℕ) → Fs → Fs
updated i s =
    let ip = s.inodes i in
    record s {
      disk = λ d n.
          if d == ip.dev && n == inode_block ip.inum
          then store_inode (s.disk ip.dev (inode_block ip.inum)) (inode_offset ip.inum) ip
          else s.disk d n;
    }

-- What ilock puts in a slot that has not been read, and the state that it leaves.
abbrev pub full : (j : ℕ) → Fs → Inode
full j s =
    let ip = s.inodes j in
    record (load_inode (s.disk ip.dev (inode_block ip.inum)) (inode_offset ip.inum)
      (record ip { busy = true })) { valid = true }

abbrev pub loaded : (j : ℕ) → Fs → Fs
loaded j s = record s {
  inodes = λ k.
      if k == j
      then full j s
      else if k == j
      then record (s.inodes j) { busy = true }
      else s.inodes k;
}

done-injective : {s t : Fs} → done tt s ≡ done tt t → s ≡ t
done-injective e = cc

pub iupdate-updated : (i : ℕ) (s : Fs) → iupdate i s ≡ done tt (updated i s)
unfolding iupdate
iupdate-updated i s = refl

same : (i : ℕ) → (i == i) ≡ true
same i = ground arith

-- ilock of a slot that has not been read.
ilock-loaded :
    (j : ℕ) (s : Fs)
    → 0 < (s.inodes j).ref
    → (s.inodes j).busy ≡ false
    → (s.inodes j).valid ≡ false
    → half
        (s.disk (s.inodes j).dev (inode_block (s.inodes j).inum))
        (inode_offset (s.inodes j).inum)
      ≢ 0
    → ilock j s ≡ done tt (loaded j s)
unfolding ilock
ilock-loaded j s r b v n = rw (used, b, v, same j, typed) refl
  where
    used : ((s.inodes j).ref == 0) ≡ false
    used = ground (arith, r)

    typed :
        (half
            (s.disk (s.inodes j).dev (inode_block (s.inodes j).inum))
            (inode_offset (s.inodes j).inum)
          == 0)
        ≡ false
    typed = ground (arith, n)

-- The block that iupdate writes for the inode in the slot i.
abbrev pub stored : (i : ℕ) → Fs → Block
stored i s =
    store_inode (s.disk (s.inodes i).dev (inode_block (s.inodes i).inum))
      (inode_offset (s.inodes i).inum) (s.inodes i)

updated-block :
    (i : ℕ) (s : Fs)
    → (updated i s).disk (s.inodes i).dev (inode_block (s.inodes i).inum) ≡ stored i s
updated-block i s = rw (same (s.inodes i).dev, same (inode_block (s.inodes i).inum)) refl

-- An inode whose fields fit their places on disk and whose type is not 0 is written by iupdate. In
-- any later state in which its 64 bytes on disk are still the ones that iupdate has left, a slot
-- has been given to that inode of that device, and is in use, not locked and not read yet: ilock of
-- the slot returns, locks it, fills it with the type, numbers, links, size and addresses that were
-- written, keeps its device, number and references, and changes no other slot and nothing on disk.
pub ilock-iupdate :
    (i j : ℕ) (s s' t : Fs)
    → iupdate i s ≡ done tt s'
    → Fits (s.inodes i)
    → (s.inodes i).type ≢ 0
    → ((k : ℕ)
        → inode_offset (s.inodes i).inum ≤ k
        → k < inode_offset (s.inodes i).inum + 64
        → t.disk (s.inodes i).dev (inode_block (s.inodes i).inum) k
          ≡ s'.disk (s.inodes i).dev (inode_block (s.inodes i).inum) k)
    → (t.inodes j).dev ≡ (s.inodes i).dev
    → (t.inodes j).inum ≡ (s.inodes i).inum
    → 0 < (t.inodes j).ref
    → (t.inodes j).busy ≡ false
    → (t.inodes j).valid ≡ false
    → (u : Fs) × (ilock j t ≡ done tt u)
      × SameContents (u.inodes j) (s.inodes i)
      × ((u.inodes j).busy ≡ true)
      × ((u.inodes j).valid ≡ true)
      × ((u.inodes j).dev ≡ (t.inodes j).dev)
      × ((u.inodes j).inum ≡ (t.inodes j).inum)
      × ((u.inodes j).ref ≡ (t.inodes j).ref)
      × ((k : ℕ) → k ≢ j → u.inodes k ≡ t.inodes k)
      × (u.disk ≡ t.disk)
ilock-iupdate i j s s' t e f n h d m r b v = (
  loaded j t,
  ilock-loaded j t r b v typed,
  rw (same j) contents,
  rw (same j) refl,
  rw (same j) refl,
  rw (same j) refl,
  rw (same j) refl,
  rw (same j) refl,
  (λ k q. ground (arith, q)),
  refl,
)
  where
    kept :
        (k : ℕ)
        → inode_offset (s.inodes i).inum ≤ k
        → k < inode_offset (s.inodes i).inum + 64
        → t.disk (t.inodes j).dev (inode_block (t.inodes j).inum) k ≡ stored i s k
    kept k l q =
        rw (d, m)
          (h k l q
            ∙ ap (λ x. x.disk (s.inodes i).dev (inode_block (s.inodes i).inum) k)
                (done-injective (sym e ∙ iupdate-updated i s))
            ∙ ap (λ x. x k) (updated-block i s))

    written : Block
    written = t.disk (t.inodes j).dev (inode_block (t.inodes j).inum)

    read :
        (jp : Inode)
        → SameContents (load_inode written (inode_offset (t.inodes j).inum) jp) (s.inodes i)
    read jp =
        subst (λ x. SameContents (load_inode written (inode_offset x) jp) (s.inodes i)) (sym m)
          (SameContents-trans _ _ _
            (load_inode-same (stored i s) written (inode_offset (s.inodes i).inum) jp jp kept)
            (load-store _ (inode_offset (s.inodes i).inum) (s.inodes i) jp f))

    contents : SameContents (full j t) (s.inodes i)
    contents =
        let c = read (s.inodes i) in
        record {
          type = c.type;
          major = c.major;
          minor = c.minor;
          nlink = c.nlink;
          size = c.size;
          addrs = c.addrs;
        }

    typed : half written (inode_offset (t.inodes j).inum) ≢ 0
    typed z = n (sym ((read (s.inodes i)).type) ∙ z)
