-- ===== src/Fs/Steps.antt =====
-- The calls into lab5/xv6-thread/kernel/fs.c as a transition system, and the table icache on its runs.
use ecnu_oslab.Base.{ℕ, ◌<◌, ◌≡◌, Bool, Option, List, ℤ, arith, subst}
use ecnu_oslab.Fs.{Fs, M, Result, done, panic, sleeps, stray, balloc, bfree}
use ecnu_oslab.Fs.Inodes.{ninode, iupdate, iget, idup, ialloc, ilock, iunlock}
use ecnu_oslab.Fs.Content.{bmap, itrunc, iput, iunlockput, read_device, readi, write_device, writei}
use ecnu_oslab.Fs.Names.{dirlookup, dirlink, namex}
use ecnu_oslab.Fs.Twins.{
  NoTwins, Good, Keeps, iupdate-Keeps, iget-Keeps, idup-Good, ialloc-Keeps, ilock-Keeps,
  iunlock-Keeps, balloc-Keeps, bfree-Keeps,
}
use ecnu_oslab.Fs.Whole.{bmap-Keeps, itrunc-Keeps, iput-Keeps, iunlockput-Keeps}
use ecnu_oslab.Fs.Paths.{readi-Keeps, writei-Keeps, dirlookup-Keeps, dirlink-Keeps, namex-Good}

-- The call leaves the state t: it returns, or it sleeps.
abbrev pub Leaves : {A : Type 0} → Result A → Fs → Type 0
Leaves (done a s) t = s ≡ t
Leaves panic t = ⊥
Leaves (sleeps i s) t = s ≡ t
Leaves stray t = ⊥

-- A call at the state s. A reference is duplicated, and a path starts at the current directory, only
-- while that reference is held.
pub data Change (dev_read : ℕ → Option (ℕ → ℕ → M (ℤ × List ℕ)))
    (dev_write : ℕ → Option (ℕ → List ℕ → M ℤ)) : Fs → Fs → Type 0 where
  allocates : {s t : Fs} (dev : ℕ) → Leaves (balloc dev s) t → Change dev_read dev_write s t
  frees : {s t : Fs} (dev b : ℕ) → Leaves (bfree dev b s) t → Change dev_read dev_write s t
  updates : {s t : Fs} (i : ℕ) → Leaves (iupdate i s) t → Change dev_read dev_write s t
  gets : {s t : Fs} (dev inum : ℕ) → Leaves (iget dev inum s) t → Change dev_read dev_write s t
  dups :
      {s t : Fs} (i : ℕ)
      → 0 < (s.inodes i).ref
      → Leaves (idup i s) t
      → Change dev_read dev_write s t
  creates : {s t : Fs} (dev type : ℕ) → Leaves (ialloc dev type s) t → Change dev_read dev_write s t
  locks : {s t : Fs} (i : ℕ) → Leaves (ilock i s) t → Change dev_read dev_write s t
  unlocks : {s t : Fs} (i : ℕ) → Leaves (iunlock i s) t → Change dev_read dev_write s t
  puts : {s t : Fs} (i : ℕ) → Leaves (iput i s) t → Change dev_read dev_write s t
  unlocks_puts : {s t : Fs} (i : ℕ) → Leaves (iunlockput i s) t → Change dev_read dev_write s t
  maps : {s t : Fs} (i bn : ℕ) → Leaves (bmap i bn s) t → Change dev_read dev_write s t
  truncates : {s t : Fs} (i : ℕ) → Leaves (itrunc i s) t → Change dev_read dev_write s t
  reads :
      {s t : Fs} (i off n : ℕ) → Leaves (readi dev_read i off n s) t → Change dev_read dev_write s t
  writes :
      {s t : Fs} (i : ℕ) (src : List ℕ) (off : ℕ)
      → Leaves (writei dev_write i src off s) t
      → Change dev_read dev_write s t
  looks_up :
      {s t : Fs} (i : ℕ) (name : ℕ → ℕ)
      → Leaves (dirlookup i name s) t
      → Change dev_read dev_write s t
  links :
      {s t : Fs} (i : ℕ) (name : ℕ → ℕ) (inum : ℕ)
      → Leaves (dirlink dev_read dev_write i name inum s) t
      → Change dev_read dev_write s t
  follows :
      {s t : Fs} (cwd : ℕ) (parent : Bool) (path : List ℕ)
      → 0 < (s.inodes cwd).ref
      → Leaves (namex cwd parent path s) t
      → Change dev_read dev_write s t

pub data Changes (dev_read : ℕ → Option (ℕ → ℕ → M (ℤ × List ℕ)))
    (dev_write : ℕ → Option (ℕ → List ℕ → M ℤ)) : Fs → Fs → Type 0 where
  stay : {s : Fs} → Changes dev_read dev_write s s
  next :
      {s t u : Fs}
      → Change dev_read dev_write s t
      → Changes dev_read dev_write t u
      → Changes dev_read dev_write s u

Leaves-Good : {A : Type 0} (r : Result A) (t : Fs) → Good r → Leaves r t → NoTwins t
Leaves-Good (done a s) t g e = subst NoTwins e g
Leaves-Good panic t g e = elim e [ ]
Leaves-Good stray t g e = elim e [ ]
Leaves-Good (sleeps i s) t g e = subst NoTwins e g

module _ (dev_read : ℕ → Option (ℕ → ℕ → M (ℤ × List ℕ)))
    (dev_write : ℕ → Option (ℕ → List ℕ → M ℤ))
    (reads_keep : (major i n : ℕ) → Keeps (read_device i n (dev_read major)))
    (writes_keep : (major i : ℕ) (src : List ℕ)
      → Keeps (write_device i src (dev_write major))) where
  Change-Keeps : {s t : Fs} → Change dev_read dev_write s t → NoTwins s → NoTwins t
  Change-Keeps {s} {t} (allocates dev l) v = Leaves-Good (balloc dev s) t (balloc-Keeps dev s v) l
  Change-Keeps {s} {t} (frees dev b l) v = Leaves-Good (bfree dev b s) t (bfree-Keeps dev b s v) l
  Change-Keeps {s} {t} (updates i l) v = Leaves-Good (iupdate i s) t (iupdate-Keeps i s v) l
  Change-Keeps {s} {t} (gets dev inum l) v =
      Leaves-Good (iget dev inum s) t (iget-Keeps dev inum s v) l
  Change-Keeps {s} {t} (dups i r l) v = Leaves-Good (idup i s) t (idup-Good i s v r) l
  Change-Keeps {s} {t} (creates dev type l) v =
      Leaves-Good (ialloc dev type s) t (ialloc-Keeps dev type s v) l
  Change-Keeps {s} {t} (locks i l) v = Leaves-Good (ilock i s) t (ilock-Keeps i s v) l
  Change-Keeps {s} {t} (unlocks i l) v = Leaves-Good (iunlock i s) t (iunlock-Keeps i s v) l
  Change-Keeps {s} {t} (puts i l) v = Leaves-Good (iput i s) t (iput-Keeps i s v) l
  Change-Keeps {s} {t} (unlocks_puts i l) v =
      Leaves-Good (iunlockput i s) t (iunlockput-Keeps i s v) l
  Change-Keeps {s} {t} (maps i bn l) v = Leaves-Good (bmap i bn s) t (bmap-Keeps i bn s v) l
  Change-Keeps {s} {t} (truncates i l) v = Leaves-Good (itrunc i s) t (itrunc-Keeps i s v) l
  Change-Keeps {s} {t} (reads i off n l) v =
      Leaves-Good (readi dev_read i off n s) t (readi-Keeps dev_read reads_keep i off n s v) l
  Change-Keeps {s} {t} (writes i src off l) v =
      Leaves-Good (writei dev_write i src off s) t
        (writei-Keeps dev_write writes_keep i src off s v) l
  Change-Keeps {s} {t} (looks_up i name l) v =
      Leaves-Good (dirlookup i name s) t (dirlookup-Keeps i name s v) l
  Change-Keeps {s} {t} (links i name inum l) v =
      Leaves-Good (dirlink dev_read dev_write i name inum s) t
        (dirlink-Keeps dev_read dev_write reads_keep writes_keep i name inum s v) l
  Change-Keeps {s} {t} (follows cwd parent path r l) v =
      Leaves-Good (namex cwd parent path s) t (namex-Good cwd parent path s v r) l

  Changes-Keep : {s t : Fs} → Changes dev_read dev_write s t → NoTwins s → NoTwins t
  Changes-Keep stay v = v
  Changes-Keep (next c r) v = Changes-Keep r (Change-Keeps c v)

-- If the device drivers keep the table free of twins, then on any run of the calls that starts with no
-- inode in use, no two slots in use ever hold the same inode of the same device.
pub Changes-NoTwins :
    (dev_read : ℕ → Option (ℕ → ℕ → M (ℤ × List ℕ))) (dev_write : ℕ → Option (ℕ → List ℕ → M ℤ))
    → ((major i n : ℕ) → Keeps (read_device i n (dev_read major)))
    → ((major i : ℕ) (src : List ℕ) → Keeps (write_device i src (dev_write major)))
    → (s t : Fs) → ((i : ℕ) → i < ninode → (s.inodes i).ref ≡ 0)
    → Changes dev_read dev_write s t
    → NoTwins t
Changes-NoTwins dev_read dev_write a b s t e r =
    Changes-Keep dev_read dev_write a b r (λ i j l m p q u w. ground (arith, e i l))
