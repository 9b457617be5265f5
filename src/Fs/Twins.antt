-- ===== src/Fs/Twins.antt =====
-- The table icache of lab5/xv6-thread/kernel/fs.c and one inode in two of its slots: the invariant, and the
-- operations on inodes and blocks.
use ecnu_oslab.Base.{
  ℕ, zero, suc, ◌+◌, ◌<◌, ◌≡◌, refl, inl, inr, arith, Bool, true, false, ◌||◌, not, ◌==◌,
  if◌then◌else◌, Bool-cases, find_index-cases,
}
use ecnu_oslab.Fs.{
  Inode, Fs, M, Result, done, panic, sleeps, stray, then_do, pure, stop, half, bitmap_block,
  is_clear, balloc_from, balloc, bfree, bpb,
}
use ecnu_oslab.Fs.Alloc.{is_free}
use ecnu_oslab.Fs.Free.{zeroed}
use ecnu_oslab.Fs.Inodes.{
  ninode, inode_block, inode_offset, iupdate, is_cached, iget, idup, ialloc_from, ialloc, fill,
  ilock, iunlock,
}

-- Two slots in use do not hold the same inode of the same device.
abbrev pub NoTwins : Fs → Type 0
NoTwins s =
    (i j : ℕ)
    → i < ninode
    → j < ninode
    → 0 < (s.inodes i).ref
    → 0 < (s.inodes j).ref
    → (s.inodes i).dev ≡ (s.inodes j).dev
    → (s.inodes i).inum ≡ (s.inodes j).inum
    → i ≡ j

-- What an operation leaves, where it leaves a state.
abbrev pub Good : {A : Type 0} → Result A → Type 0
Good (done a s) = NoTwins s
Good panic = Unit {0}
Good (sleeps i s) = NoTwins s
Good stray = Unit {0}

abbrev pub Keeps : {A : Type 0} → M A → Type 0
Keeps m = (s : Fs) → NoTwins s → Good (m s)

pub then_do-Good :
    {A B : Type 0} (r : Result A) (f : A → M B)
    → Good r
    → ((a : A) → Keeps (f a))
    → Good (then_do r f)
then_do-Good (done a s) f g k = k a s g
then_do-Good panic f g k = tt
then_do-Good (sleeps i s) f g k = g
then_do-Good stray f g k = tt

pub if-Keeps : {A : Type 0} (b : Bool) (m n : M A) → Keeps m → Keeps n → Keeps (if b then m else n)
if-Keeps true m n h k = h
if-Keeps false m n h k = k

-- A slot that gets an inode with the same identity, and is not put in use.
pub NoTwins-put :
    (s : Fs) (i : ℕ) (ip : Inode)
    → NoTwins s
    → ip.dev ≡ (s.inodes i).dev
    → ip.inum ≡ (s.inodes i).inum
    → (0 < ip.ref → 0 < (s.inodes i).ref)
    → NoTwins (record s { inodes = λ j. if j == i then ip else s.inodes j })
NoTwins-put s i ip v d n r a b la lb ra rb e f = ground (arith, v a b la lb)

-- A free slot that gets an inode which no slot holds.
pub NoTwins-enter :
    (s : Fs) (i : ℕ) (ip : Inode)
    → NoTwins s
    → ((j : ℕ) → j < ninode → is_cached ip.dev ip.inum (s.inodes j) ≡ false)
    → NoTwins (record s { inodes = λ j. if j == i then ip else s.inodes j })
NoTwins-enter s i ip v h a b la lb ra rb e f = ground (arith, v a b la lb, h a la, h b lb)

pub iupdate-Keeps : (i : ℕ) → Keeps (iupdate i)
unfolding iupdate
iupdate-Keeps i s v = v

pub iget-Keeps : (dev inum : ℕ) → Keeps (iget dev inum)
unfolding iget
iget-Keeps dev inum s v = elim (find_index-cases (λ i. is_cached dev inum (s.inodes i)) ninode) [
  | inr (i, e, l, t, h) ↦ rw e (NoTwins-put s i _ v refl refl (λ z. ground (arith, t)))
  | inl (e, h) ↦ elim (find_index-cases (λ i. (s.inodes i).ref == 0) ninode) [
    | inl (e', h') ↦ rw (e, e') tt
    | inr (i, e', l, t, h') ↦ rw (e, e') (NoTwins-enter s i _ v h)
  ]
]

pub idup-Good : (i : ℕ) (s : Fs) → NoTwins s → 0 < (s.inodes i).ref → Good (idup i s)
unfolding idup
idup-Good i s v r = NoTwins-put s i _ v refl refl (λ z. r)

ialloc_from-Keeps : (dev type n inum : ℕ) → Keeps (ialloc_from dev type n inum)
unfolding ialloc_from
ialloc_from-Keeps dev type zero inum s v = tt
ialloc_from-Keeps dev type (suc n) inum s v =
    if-Keeps (half (s.disk dev (inode_block inum)) (inode_offset inum) == 0) _ _
      (λ t w. iget-Keeps dev inum _ w) (ialloc_from-Keeps dev type n (inum + 1)) s v

pub ialloc-Keeps : (dev type : ℕ) → Keeps (ialloc dev type)
unfolding ialloc
ialloc-Keeps dev type s v = ialloc_from-Keeps dev type _ 1 s v

pub iunlock-Keeps : (i : ℕ) → Keeps (iunlock i)
unfolding iunlock
iunlock-Keeps i s v = elim (Bool-cases (not (s.inodes i).busy || (s.inodes i).ref == 0)) [
  | inl t ↦ rw t tt
  | inr t ↦ rw t (NoTwins-put s i _ v refl refl (λ z. z))
]

fill-Keeps : (i : ℕ) → Keeps (fill i)
fill-Keeps i s v =
    if-Keeps
      (half (s.disk (s.inodes i).dev (inode_block (s.inodes i).inum))
          (inode_offset (s.inodes i).inum)
        == 0)
      stop (pure tt) (λ t w. tt) (λ t w. w) _ (NoTwins-put s i _ v refl refl (λ z. z))

pub ilock-Keeps : (i : ℕ) → Keeps (ilock i)
unfolding ilock
ilock-Keeps i s v = elim (Bool-cases ((s.inodes i).ref == 0)) [
  | inl t ↦ rw t tt
  | inr t ↦ elim (Bool-cases (s.inodes i).busy) [
    | inl u ↦ rw (t, u) v
    | inr u ↦
        rw (t, u)
          (if-Keeps (s.inodes i).valid (pure tt) (fill i) (λ x w. w) (fill-Keeps i) _
            (NoTwins-put s i _ v refl refl (λ z. z)))
  ]
]

balloc_from-Keeps : (dev n rounds b : ℕ) → Keeps (balloc_from dev n rounds b)
unfolding balloc_from
balloc_from-Keeps dev n zero b s v = tt
balloc_from-Keeps dev n (suc r) b s v =
    elim (find_index-cases (is_clear (s.disk dev (bitmap_block b n))) bpb) [
      | inl (e, h) ↦ rw e (balloc_from-Keeps dev n r (b + bpb) s v)
      | inr (i, e, l, t, h) ↦ rw e v
    ]

pub balloc-Keeps : (dev : ℕ) → Keeps (balloc dev)
unfolding balloc
balloc-Keeps dev s v = balloc_from-Keeps dev _ _ 0 s v

pub bfree-Keeps : (dev b : ℕ) → Keeps (bfree dev b)
unfolding bfree
bfree-Keeps dev b s v = elim (Bool-cases (is_free dev (zeroed dev b s) b)) [
  | inl t ↦ rw t tt
  | inr t ↦ rw t v
]
