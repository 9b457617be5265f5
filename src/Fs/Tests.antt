-- ===== src/Fs/Tests.antt =====
-- Runs of lab5/xv6-thread/kernel/fs.c.
use ecnu_oslab.Base.{
  ℕ, ◌+◌, ◌<◌, ◌≡◌, ◌≢◌, ◌⊎◌, refl, inl, inr, arith, true, false, ltb, ◌==◌, if◌then◌else◌, Option,
  none, some, List, [], ◌∷◌, find_index,
}
use ecnu_oslab.Fs.{Fs, Inode, Block, done, panic, balloc, balloc_from, bfree}
use ecnu_oslab.Fs.{Result, M, then_do, ◌>>◌, pure}
use ecnu_oslab.Base.{ℤ, pos, Bool-cases}
use ecnu_oslab.Fs.Inodes.{iget, ilock, iunlock}
use ecnu_oslab.Fs.Content.{read_device}
use ecnu_oslab.Fs.Twins.{NoTwins, Keeps, then_do-Good, ilock-Keeps, iunlock-Keeps}
use ecnu_oslab.Fs.Steps.{Leaves, gets, stay, next, Changes-NoTwins}
use ecnu_oslab.Base.{All}
use ecnu_oslab.Fs.Content.{take, iput}
use ecnu_oslab.Fs.Names.{dirsiz, slash, skipelem, skip_slashes, element}
use ecnu_oslab.Fs.Cache.{referred, entered}
use ecnu_oslab.Fs.Dinode.{Fits, SameContents}
use ecnu_oslab.Fs.Restore.{updated, iupdate-updated, ilock-iupdate}
use ecnu_oslab.Fs.Elements.{Split, skipelem_lem}
use ecnu_oslab.Fs.Alloc.{DiskBytes, balloc_lem, is_free, marked, scanned}
use ecnu_oslab.Fs.Free.{bfree_lem, freed}

-- A disk of 100 blocks with 8 inodes, whose bitmap block is 4: the blocks 0 to 29 are in use.
abbrev contents : ℕ → Block
contents b i =
    if b == 1
    then (if i == 0 then 100 else if i == 8 then 8 else 0)
    else if b == 4
    then (if ltb i 3 then 255 else if i == 3 then 63 else 0)
    else 7

abbrev no_inode : Inode
no_inode = record {
  dev = 0;
  inum = 0;
  ref = 0;
  busy = false;
  valid = false;
  type = 0;
  major = 0;
  minor = 0;
  nlink = 0;
  size = 0;
  addrs = λ i. 0;
}

abbrev disk : Fs
disk = record { disk = λ dev b. contents b; inodes = λ i. no_inode }

disk-DiskBytes : DiskBytes 1 disk
disk-DiskBytes b i = ground arith

balloc_lem_example :
    ((n : ℕ) × (balloc 1 disk ≡ done n (marked 1 n disk))
      × (n < scanned 1 disk)
      × (is_free 1 disk n ≡ true)
      × ((m : ℕ) → m < n → is_free 1 disk m ≡ false)
      × ((m : ℕ) → is_free 1 (marked 1 n disk) m ≡ (if m == n then false else is_free 1 disk m)))
    ⊎ ((balloc 1 disk ≡ panic) × ((m : ℕ) → m < scanned 1 disk → is_free 1 disk m ≡ false))
balloc_lem_example = balloc_lem 1 disk disk-DiskBytes

balloc_run : balloc 1 disk ≡ done 30 (marked 1 30 disk)
unfolding balloc balloc_from find_index
balloc_run = refl

bfree_lem_example :
    ((is_free 1 disk 20 ≡ true) × (bfree 1 20 disk ≡ panic))
    ⊎ ((is_free 1 disk 20 ≡ false)
        × (bfree 1 20 disk ≡ done tt (freed 1 20 disk))
        × ((m : ℕ)
            → m < 100
            → is_free 1 (freed 1 20 disk) m ≡ (if m == 20 then true else is_free 1 disk m))
        × ((i : ℕ) → (freed 1 20 disk).disk 1 20 i ≡ 0))
bfree_lem_example =
    bfree_lem 1 20 100 disk disk-DiskBytes (λ e. ground (arith, e)) (omega arith)
      (λ m l e. ground (arith, l, e))

-- A console: it lets the inode go while it waits, and reads nothing.
abbrev console : ℕ → Option (ℕ → ℕ → M (ℤ × List ℕ))
console major = if major == 1 then some (λ i n. iunlock i >> ilock i >> pure (pos 0, [])) else none

abbrev no_device : ℕ → Option (ℕ → List ℕ → M ℤ)
no_device major = none

console-Keeps : (major i n : ℕ) → Keeps (read_device i n (console major))
console-Keeps major i n s v = elim (Bool-cases (major == 1)) [
  | inl t ↦ rw t (
      then_do-Good (then_do (iunlock i s) (λ a. ilock i)) _
        (then_do-Good (iunlock i s) _ (iunlock-Keeps i s v) (λ a. ilock-Keeps i)) (λ a x w. w))
  | inr t ↦ rw t v
]

-- The state with the inode 5 in the slot 0, referred to once.
abbrev one_inode : Fs
one_inode = record disk {
  inodes = λ j. if j == 0 then record no_inode { dev = 1; inum = 5; ref = 1 } else no_inode;
}

gets_one : Leaves (iget 1 5 disk) one_inode
unfolding iget find_index
gets_one = refl

Changes-NoTwins_example : NoTwins one_inode
Changes-NoTwins_example =
    Changes-NoTwins console no_device console-Keeps (λ major i src s v. v) disk one_inode
      (λ i l. refl) (next (gets 1 5 gets_one) stay)

-- The path //usr///bin.
abbrev usr_bin : List ℕ
usr_bin = 47 ∷ 47 ∷ 117 ∷ 115 ∷ 114 ∷ 47 ∷ 47 ∷ 47 ∷ 98 ∷ 105 ∷ 110 ∷ []

skipelem_run : skipelem usr_bin ≡ some (117 ∷ 115 ∷ 114 ∷ [], 98 ∷ 105 ∷ 110 ∷ [])
unfolding skipelem skip_slashes element take
skipelem_run = refl

skipelem_lem_example :
    ((skipelem usr_bin ≡ none) × All (λ c. c ≡ slash) usr_bin)
    ⊎ ((name : List ℕ) × (rest : List ℕ) × (skipelem usr_bin ≡ some (take dirsiz name, rest))
        × Split usr_bin name rest)
skipelem_lem_example = skipelem_lem usr_bin

one_entered : iget 1 5 disk ≡ done 0 (entered 1 5 0 disk)
unfolding iget find_index
one_entered = refl

twice : iget 1 5 one_inode ≡ done 0 (referred 0 one_inode)
unfolding iget find_index
twice = refl

-- A file of 600 bytes, its inode in the slot 0, locked and read.
abbrev file : Inode
file = record no_inode {
  dev = 1;
  inum = 9;
  ref = 1;
  busy = true;
  valid = true;
  type = 2;
  nlink = 1;
  size = 600;
  addrs = λ k. if ltb k 2 then 30 + k else 0;
}

abbrev with_file : Fs
with_file = record disk { inodes = λ j. if j == 0 then file else no_inode }

file-Fits : Fits file
file-Fits = record {
  type = omega arith;
  major = omega arith;
  minor = omega arith;
  nlink = omega arith;
  size = omega arith;
  addrs = λ k l. ground (arith, l);
}

-- The inode is let go, and then opened again.
abbrev state_after : {A : Type 0} → Result A → Fs
state_after (done a s) = s
state_after _ = disk

abbrev reopened : Fs
reopened = state_after ((iunlock 0 >> iput 0 >> iget 1 9) (updated 0 with_file))

reopened_run : (iunlock 0 >> iput 0 >> iget 1 9) (updated 0 with_file) ≡ done 0 reopened
unfolding iunlock iput iget find_index
reopened_run = refl

ilock-iupdate_example :
    (u : Fs) × (ilock 0 reopened ≡ done tt u)
    × SameContents (u.inodes 0) file
    × ((u.inodes 0).busy ≡ true)
    × ((u.inodes 0).valid ≡ true)
    × ((u.inodes 0).dev ≡ (reopened.inodes 0).dev)
    × ((u.inodes 0).inum ≡ (reopened.inodes 0).inum)
    × ((u.inodes 0).ref ≡ (reopened.inodes 0).ref)
    × ((k : ℕ) → k ≢ 0 → u.inodes k ≡ reopened.inodes k)
    × (u.disk ≡ reopened.disk)
unfolding iunlock iput iget find_index
ilock-iupdate_example =
    ilock-iupdate 0 0 with_file (updated 0 with_file) reopened (iupdate-updated 0 with_file)
      file-Fits (λ e. ground (arith, e)) (λ k l r. refl) refl refl (omega arith) refl refl
