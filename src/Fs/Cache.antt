-- ===== src/Fs/Cache.antt =====
-- The table icache of lab5/xv6-thread/kernel/fs.c: what iget does, and iget followed by iget and by iput.
use ecnu_oslab.Base.{
  ℕ, ◌+◌, ◌-◌, ◌<◌, ◌≡◌, ◌⊎◌, refl, ap, ◌∙◌, inl, inr, subst, arith, true, false, equal, ◌==◌,
  if◌then◌else◌, find_index-cases,
}
use ecnu_oslab.Fs.{Inode, Fs, Result, done, panic, sleeps, stray}
use ecnu_oslab.Fs.Inodes.{ninode, is_cached, iget}
use ecnu_oslab.Fs.Content.{iput}

abbrev pub with_inode : ℕ → Inode → Fs → Fs
with_inode i ip s = record s { inodes = λ j. if j == i then ip else s.inodes j }

-- The table with one reference more to the inode in the slot i.
abbrev pub referred : ℕ → Fs → Fs
referred i s = with_inode i (record (s.inodes i) { ref = (s.inodes i).ref + 1 }) s

abbrev pub entered : (dev inum i : ℕ) → Fs → Fs
entered dev inum i s =
    with_inode i
      (record (s.inodes i) { dev = dev; inum = inum; ref = 1; busy = false; valid = false }) s

-- iget takes the first slot in use with that inode and adds a reference to it. If there is none, it takes
-- the first slot without a reference, which then holds the inode, referred to once, neither locked nor
-- read; if every slot is in use, it panics.
pub iget_lem :
    (dev inum : ℕ) (s : Fs)
    → ((i : ℕ) × (iget dev inum s ≡ done i (referred i s))
        × (i < ninode)
        × (is_cached dev inum (s.inodes i) ≡ true)
        × ((j : ℕ) → j < i → is_cached dev inum (s.inodes j) ≡ false))
      ⊎ ((i : ℕ) × (iget dev inum s ≡ done i (entered dev inum i s))
          × (i < ninode)
          × ((s.inodes i).ref ≡ 0)
          × ((j : ℕ) → j < i → 0 < (s.inodes j).ref)
          × ((j : ℕ) → j < ninode → is_cached dev inum (s.inodes j) ≡ false))
      ⊎ ((iget dev inum s ≡ panic)
          × ((j : ℕ) → j < ninode → 0 < (s.inodes j).ref)
          × ((j : ℕ) → j < ninode → is_cached dev inum (s.inodes j) ≡ false))
unfolding iget
iget_lem dev inum s = elim (find_index-cases (λ i. is_cached dev inum (s.inodes i)) ninode) [
  | inr (i, e, l, t, h) ↦ inl (i, rw e refl, l, t, h)
  | inl (e, h) ↦ elim (find_index-cases (λ i. (s.inodes i).ref == 0) ninode) [
    | inr (i, e', l, t, h') ↦
        inr (inl (i, rw (e, e') refl, l, ground (arith, t), (λ j q. ground (arith, h' j q)), h))
    | inl (e', h') ↦ inr (inr (rw (e, e') refl, (λ j q. ground (arith, h' j q)), h))
  ]
]

-- iget at a state where the slot i is the first that holds the inode.
iget-first :
    (dev inum i : ℕ) (s : Fs)
    → i < ninode
    → is_cached dev inum (s.inodes i) ≡ true
    → ((j : ℕ) → j < i → is_cached dev inum (s.inodes j) ≡ false)
    → iget dev inum s ≡ done i (referred i s)
unfolding iget
iget-first dev inum i s l t h =
    elim (find_index-cases (λ i. is_cached dev inum (s.inodes i)) ninode) [
      | inl (e, h') ↦ absurd (ground (arith, t, h' i l))
      | inr (k, e, q, t', h') ↦ rw (e, first k t' h') refl
    ]
  where
    first :
        (k : ℕ)
        → is_cached dev inum (s.inodes k) ≡ true
        → ((j : ℕ) → j < k → is_cached dev inum (s.inodes j) ≡ false)
        → k ≡ i
    first k t' h' = ground (arith, t, t', h k, h' i)

-- The slot that a call returned is the first that holds the inode.
abbrev IsFirst : (dev inum : ℕ) → Result ℕ → Type 0
IsFirst dev inum (done i t) =
    (i < ninode)
    × (is_cached dev inum (t.inodes i) ≡ true)
    × ((j : ℕ) → j < i → is_cached dev inum (t.inodes j) ≡ false)
IsFirst dev inum panic = Unit {0}
IsFirst dev inum (sleeps i t) = Unit {0}
IsFirst dev inum stray = Unit {0}

iget-IsFirst : (dev inum : ℕ) (s : Fs) → IsFirst dev inum (iget dev inum s)
iget-IsFirst dev inum s = elim (iget_lem dev inum s) [
  | inl (k, e, l, c, h) ↦ rw e (l, ground (arith, c), (λ j q. ground (arith, h j q)))
  | inr (inl (k, e, l, z, m, h)) ↦
      rw e (l, ground arith, (λ j q. ground (arith, h j (omega (arith, q, l)))))
  | inr (inr (e, m, h)) ↦ rw e tt
]

-- Two calls of iget for the same inode return the same slot: if the first one returns a slot, the second
-- one, made at the state that the first leaves, returns it again and adds a reference to it.
pub iget-iget :
    (dev inum i : ℕ) (s t : Fs)
    → iget dev inum s ≡ done i t
    → iget dev inum t ≡ done i (referred i t)
iget-iget dev inum i s t e =
    let (l, c, h) = subst (IsFirst dev inum) e (iget-IsFirst dev inum s) in
    iget-first dev inum i t l c h

==_refl : (i : ℕ) → (i == i) ≡ true
==_refl i = ground arith

-- iput where others refer to the inode, too.
iput-shared :
    (i : ℕ) (s : Fs)
    → 1 < (s.inodes i).ref
    → iput i s ≡ done tt (with_inode i (record (s.inodes i) { ref = (s.inodes i).ref - 1 }) s)
unfolding iput
iput-shared i s l = rw (several, used) refl
  where
    several : ((s.inodes i).ref == 1) ≡ false
    several = ground (arith, l)

    used : ((s.inodes i).ref == 0) ≡ false
    used = ground (arith, l)

dropped : (i : ℕ) (s : Fs) → Fs
dropped i s =
    with_inode i (record ((referred i s).inodes i) { ref = ((referred i s).inodes i).ref - 1 })
      (referred i s)

dropped-inodes : (i : ℕ) (s : Fs) (j : ℕ) → (dropped i s).inodes j ≡ s.inodes j
unfolding dropped
dropped-inodes i s j = elim (equal j i) [
  | inl e ↦ rw (e, ==_refl i) (ap (λ r. record (s.inodes i) { ref = r }) (omega arith))
  | inr n ↦ ground (arith, n)
]

-- The slot that a call returned can be given back if it was in use before.
IsUndone : Fs → Result ℕ → Type 0
IsUndone s (done i t) = 0 < (s.inodes i).ref → iput i t ≡ done tt s
IsUndone s panic = Unit {0}
IsUndone s (sleeps i t) = Unit {0}
IsUndone s stray = Unit {0}

iput-referred : (i : ℕ) (s : Fs) → 0 < (s.inodes i).ref → iput i (referred i s) ≡ done tt s
unfolding dropped
iput-referred i s r =
    iput-shared i (referred i s) (ground (arith, r))
    ∙ (λ k. done tt (record s { inodes = λ j. dropped-inodes i s j k }))

iget-IsUndone : (dev inum : ℕ) (s : Fs) → IsUndone s (iget dev inum s)
unfolding IsUndone
iget-IsUndone dev inum s = elim (iget_lem dev inum s) [
  | inl (k, e, l, c, h) ↦ rw e (iput-referred k s)
  | inr (inl (k, e, l, z, m, h)) ↦ rw e (λ r. absurd (omega (arith, z, r)))
  | inr (inr (e, m, h)) ↦ rw e tt
]

-- iput undoes iget: if iget returns a slot that was in use already, iput of that slot gives back the state
-- before.
pub iput-iget :
    (dev inum i : ℕ) (s t : Fs)
    → iget dev inum s ≡ done i t
    → 0 < (s.inodes i).ref
    → iput i t ≡ done tt s
unfolding IsUndone
iput-iget dev inum i s t e r = subst (IsUndone s) e (iget-IsUndone dev inum s) r
