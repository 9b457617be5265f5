-- ===== src/Fs/Whole.antt =====
-- The contents of inodes in lab5/xv6-thread/kernel/fs.c and the invariant of Fs/Twins: bmap, itrunc, iput.
use ecnu_oslab.Base.{
  ℕ, zero, suc, ◌+◌, ◌-◌, ◌*◌, refl, inl, inr, arith, true, false, ◌&&◌, ◌==◌, ltb, Bool-cases,
}
use ecnu_oslab.Fs.{Block, word, balloc, bfree}
use ecnu_oslab.Fs.Inodes.{iupdate, iunlock}
use ecnu_oslab.Fs.Content.{
  ndirect, nindirect, set_addr, own_block, indirect_block, bmap, free_direct, free_indirect,
  free_table, itrunc, drop_ref, discard, iput, iunlockput,
}
use ecnu_oslab.Fs.Twins.{
  Keeps, then_do-Good, NoTwins-put, iupdate-Keeps, iunlock-Keeps, balloc-Keeps, bfree-Keeps,
}

own_block-Keeps : (i k : ℕ) → Keeps (own_block i k)
unfolding own_block
own_block-Keeps i k s v = elim (Bool-cases ((s.inodes i).addrs k == 0)) [
  | inl t ↦ rw t (
      then_do-Good (balloc (s.inodes i).dev s) _ (balloc-Keeps _ s v)
        (λ a u w. NoTwins-put u i (set_addr k a (u.inodes i)) w refl refl (λ z. z)))
  | inr t ↦ rw t v
]

indirect_block-Keeps : (dev table k : ℕ) → Keeps (indirect_block dev table k)
unfolding indirect_block
indirect_block-Keeps dev table k s v = elim (Bool-cases (word (s.disk dev table) (4 * k) == 0)) [
  | inl t ↦ rw t (then_do-Good (balloc dev s) _ (balloc-Keeps dev s v) (λ a u w. w))
  | inr t ↦ rw t v
]

pub bmap-Keeps : (i bn : ℕ) → Keeps (bmap i bn)
unfolding bmap
bmap-Keeps i bn s v = elim (Bool-cases (ltb bn ndirect)) [
  | inl t ↦ rw t (own_block-Keeps i bn s v)
  | inr t ↦ elim (Bool-cases (ltb (bn - ndirect) nindirect)) [
    | inl u ↦
        rw (t, u)
          (then_do-Good (own_block i ndirect s) _ (own_block-Keeps i ndirect s v)
            (λ a x w. indirect_block-Keeps (x.inodes i).dev a (bn - ndirect) x w))
    | inr u ↦ rw (t, u) tt
  ]
]

free_direct-Keeps : (i n k : ℕ) → Keeps (free_direct i n k)
unfolding free_direct
free_direct-Keeps i zero k s v = v
free_direct-Keeps i (suc n) k s v = elim (Bool-cases ((s.inodes i).addrs k == 0)) [
  | inl t ↦ rw t (free_direct-Keeps i n (k + 1) s v)
  | inr t ↦ rw t (
      then_do-Good (bfree (s.inodes i).dev ((s.inodes i).addrs k) s) _ (bfree-Keeps _ _ s v)
        (λ a u w.
          free_direct-Keeps i n (k + 1) _
            (NoTwins-put u i (set_addr k 0 (u.inodes i)) w refl refl (λ z. z))))
]

free_indirect-Keeps : (dev : ℕ) (b : Block) (n j : ℕ) → Keeps (free_indirect dev b n j)
unfolding free_indirect
free_indirect-Keeps dev b zero j s v = v
free_indirect-Keeps dev b (suc n) j s v = elim (Bool-cases (word b (4 * j) == 0)) [
  | inl t ↦ rw t (free_indirect-Keeps dev b n (j + 1) s v)
  | inr t ↦ rw t (
      then_do-Good (bfree dev (word b (4 * j)) s) _ (bfree-Keeps dev _ s v)
        (λ a u w. free_indirect-Keeps dev b n (j + 1) u w))
]

free_table-Keeps : (i : ℕ) → Keeps (free_table i)
unfolding free_table
free_table-Keeps i s v = elim (Bool-cases ((s.inodes i).addrs ndirect == 0)) [
  | inl t ↦ rw t v
  | inr t ↦ rw t (
      then_do-Good
        (free_indirect (s.inodes i).dev (s.disk (s.inodes i).dev ((s.inodes i).addrs ndirect))
          nindirect 0 s)
        _ (free_indirect-Keeps _ _ nindirect 0 s v)
        (λ a u w.
          then_do-Good (bfree (s.inodes i).dev ((s.inodes i).addrs ndirect) u) _
            (bfree-Keeps _ _ u w)
            (λ a x y. NoTwins-put x i (set_addr ndirect 0 (x.inodes i)) y refl refl (λ z. z))))
]

pub itrunc-Keeps : (i : ℕ) → Keeps (itrunc i)
unfolding itrunc
itrunc-Keeps i s v =
    then_do-Good (free_direct i ndirect 0 s) _ (free_direct-Keeps i ndirect 0 s v) (λ a u w.
      then_do-Good (free_table i u) _ (free_table-Keeps i u w) (λ a x y.
        iupdate-Keeps i _
          (NoTwins-put x i (record (x.inodes i) { size = 0 }) y refl refl (λ z. z))))

drop_ref-Keeps : (i : ℕ) → Keeps (drop_ref i)
drop_ref-Keeps i s v = elim (Bool-cases ((s.inodes i).ref == 0)) [
  | inl t ↦ rw t tt
  | inr t ↦ rw t (
      NoTwins-put s i (record (s.inodes i) { ref = (s.inodes i).ref - 1 }) v refl refl
        (λ z. ground (arith, z)))
]

discard-Keeps : (i : ℕ) → Keeps (discard i)
discard-Keeps i s v =
    then_do-Good (itrunc i _) _
      (itrunc-Keeps i _
        (NoTwins-put s i (record (s.inodes i) { busy = true }) v refl refl (λ z. z)))
      (λ a u w.
        then_do-Good (iupdate i _) _
          (iupdate-Keeps i _
            (NoTwins-put u i (record (u.inodes i) { type = 0 }) w refl refl (λ z. z)))
          (λ a x y.
            NoTwins-put x i (record (x.inodes i) { busy = false; valid = false }) y refl refl
              (λ z. z)))

pub iput-Keeps : (i : ℕ) → Keeps (iput i)
unfolding iput
iput-Keeps i s v =
    elim (Bool-cases ((s.inodes i).ref == 1 && (s.inodes i).valid && (s.inodes i).nlink == 0)) [
      | inl t ↦ elim (Bool-cases (s.inodes i).busy) [
        | inl u ↦ rw (t, u) tt
        | inr u ↦
            rw (t, u)
              (then_do-Good (discard i s) _ (discard-Keeps i s v) (λ a x w. drop_ref-Keeps i x w))
      ]
      | inr t ↦ rw t (drop_ref-Keeps i s v)
    ]

pub iunlockput-Keeps : (i : ℕ) → Keeps (iunlockput i)
unfolding iunlockput
iunlockput-Keeps i s v =
    then_do-Good (iunlock i s) _ (iunlock-Keeps i s v) (λ a x w. iput-Keeps i x w)
