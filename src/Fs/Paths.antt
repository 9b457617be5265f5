-- ===== src/Fs/Paths.antt =====
-- Reading, writing, directories and paths in lab5/xv6-thread/kernel/fs.c and the invariant of Fs/Twins.
use ecnu_oslab.Base.{
  ℕ, zero, suc, ◌+◌, ◌*◌, ◌/◌, ◌%◌, ◌^◌, ◌<◌, refl, inl, inr, Bool, true, false, ◌&&◌, ◌||◌, not,
  ◌==◌, ltb, Bool-cases, Option, none, some, List, length, find_index, ℤ, pos,
}
use ecnu_oslab.Fs.{Block, Fs, M, pure, stop, bsize, half}
use ecnu_oslab.Fs.Inodes.{iget, idup, ilock, iunlock}
use ecnu_oslab.Fs.Content.{
  t_dev, bmap, iput, iunlockput, read_loop, read_device, readi, write_loop, grow, write_device,
  writei,
}
use ecnu_oslab.Fs.Names.{
  t_dir, is_entry, enter_found, lookup_from, dirlookup, is_free_entry, is_count, free_entry,
  link_found, dirlink, skipelem, enter_dir, visit, arrive, walk, is_absolute, is_nil, name_buffer,
  namex,
}
use ecnu_oslab.Fs.Twins.{
  NoTwins, Good, Keeps, then_do-Good, if-Keeps, NoTwins-put, iupdate-Keeps, iget-Keeps, idup-Good,
  ilock-Keeps, iunlock-Keeps,
}
use ecnu_oslab.Fs.Whole.{bmap-Keeps, iput-Keeps, iunlockput-Keeps}

read_loop-Keeps : (fuel i off left : ℕ) → Keeps (read_loop fuel i off left)
unfolding read_loop
read_loop-Keeps zero i off left s v = v
read_loop-Keeps (suc fuel) i off left s v = elim (Bool-cases (left == 0)) [
  | inl t ↦ rw t v
  | inr t ↦ rw t (
      then_do-Good (bmap i (off / bsize) s) _ (bmap-Keeps i _ s v) (λ a u w.
        then_do-Good (read_loop fuel i _ _ u) _ (read_loop-Keeps fuel i _ _ u w) (λ b x y. y)))
]

write_loop-Keeps : (fuel i off : ℕ) (src : List ℕ) → Keeps (write_loop fuel i off src)
unfolding write_loop
write_loop-Keeps zero i off src s v = v
write_loop-Keeps (suc fuel) i off src s v = elim (Bool-cases (length src == 0)) [
  | inl t ↦ rw t v
  | inr t ↦ rw t (
      then_do-Good (bmap i (off / bsize) s) _ (bmap-Keeps i _ s v)
        (λ a u w. write_loop-Keeps fuel i _ _ _ w))
]

grow-Keeps : (i n off : ℕ) → Keeps (grow i n off)
unfolding grow
grow-Keeps i n off s v = elim (Bool-cases (ltb 0 n && ltb (s.inodes i).size off)) [
  | inl t ↦ rw t (
      iupdate-Keeps i _ (NoTwins-put s i (record (s.inodes i) { size = off }) v refl refl (λ z. z)))
  | inr t ↦ rw t v
]

module _ (dev_read : ℕ → Option (ℕ → ℕ → M (ℤ × List ℕ)))
    (reads : (major i n : ℕ) → Keeps (read_device i n (dev_read major))) where
  pub readi-Keeps : (i off n : ℕ) → Keeps (readi dev_read i off n)
  unfolding readi
  readi-Keeps i off n s v = elim (Bool-cases ((s.inodes i).type == t_dev)) [
    | inl t ↦ elim (Bool-cases (ltb (s.inodes i).major 10)) [
      | inl u ↦ rw (t, u) (reads _ i n s v)
      | inr u ↦ rw (t, u) v
    ]
    | inr t ↦ elim (Bool-cases (ltb (s.inodes i).size off || ltb ((off + n) % 2 ^ 32) off)) [
      | inl u ↦ rw (t, u) v
      | inr u ↦
          rw (t, u)
            (then_do-Good (read_loop _ i off _ s) _ (read_loop-Keeps _ i off _ s v) (λ b y z. z))
    ]
  ]

module _ (dev_write : ℕ → Option (ℕ → List ℕ → M ℤ))
    (writes : (major i : ℕ) (src : List ℕ) → Keeps (write_device i src (dev_write major))) where
  pub writei-Keeps : (i : ℕ) (src : List ℕ) (off : ℕ) → Keeps (writei dev_write i src off)
  unfolding writei
  writei-Keeps i src off s v = elim (Bool-cases ((s.inodes i).type == t_dev)) [
    | inl t ↦ elim (Bool-cases (ltb (s.inodes i).major 10)) [
      | inl u ↦ rw (t, u) (writes _ i src s v)
      | inr u ↦ rw (t, u) v
    ]
    | inr t ↦
        elim (Bool-cases (ltb (s.inodes i).size off || ltb ((off + length src) % 2 ^ 32) off)) [
          | inl u ↦ rw (t, u) v
          | inr u ↦
              rw (t, u)
                (then_do-Good (write_loop _ i off _ s) _ (write_loop-Keeps _ i off _ s v)
                  (λ b y z. then_do-Good (grow i _ b y) _ (grow-Keeps i _ b y z) (λ c p q. q)))
        ]
  ]

enter_found-Keeps :
    (dev off : ℕ) (b : Block) (e : Option ℕ) (m : M (Option (ℕ × ℕ)))
    → Keeps m
    → Keeps (enter_found dev off b e m)
enter_found-Keeps dev off b none m k s v = k s v
enter_found-Keeps dev off b (some e) m k s v =
    then_do-Good (iget dev (half b (16 * e)) s) _ (iget-Keeps dev _ s v) (λ a x w. w)

lookup_from-Keeps : (i : ℕ) (name : ℕ → ℕ) (n off : ℕ) → Keeps (lookup_from i name n off)
unfolding lookup_from
lookup_from-Keeps i name zero off s v = v
lookup_from-Keeps i name (suc n) off s v =
    then_do-Good (bmap i (off / bsize) s) _ (bmap-Keeps i _ s v) (λ a u w.
      enter_found-Keeps (s.inodes i).dev off (u.disk (s.inodes i).dev a)
        (find_index (is_entry (u.disk (s.inodes i).dev a) name) 32 0) _
        (lookup_from-Keeps i name n (off + bsize)) u w)

pub dirlookup-Keeps : (i : ℕ) (name : ℕ → ℕ) → Keeps (dirlookup i name)
unfolding dirlookup
dirlookup-Keeps i name s v =
    if-Keeps (not ((s.inodes i).type == t_dir)) _ _ (λ x w. tt) (lookup_from-Keeps i name _ 0) s v

module _ (dev_read : ℕ → Option (ℕ → ℕ → M (ℤ × List ℕ)))
    (dev_write : ℕ → Option (ℕ → List ℕ → M ℤ))
    (reads : (major i n : ℕ) → Keeps (read_device i n (dev_read major)))
    (writes : (major i : ℕ) (src : List ℕ) → Keeps (write_device i src (dev_write major))) where
  free_entry-Keeps : (i n off : ℕ) → Keeps (free_entry dev_read dev_write i n off)
  unfolding free_entry
  free_entry-Keeps i zero off s v = v
  free_entry-Keeps i (suc n) off s v =
      then_do-Good (readi dev_read i off 16 s) _ (readi-Keeps dev_read reads i off 16 s v) (λ r.
        if-Keeps (not (is_count r.0 16)) stop _ (λ x w. tt)
          (if-Keeps (is_free_entry r.1) (pure off) _ (λ x w. w) (free_entry-Keeps i n (off + 16))))

  link_found-Keeps :
      (i : ℕ) (name : ℕ → ℕ) (inum : ℕ) (f : Option (ℕ × ℕ))
      → Keeps (link_found dev_read dev_write i name inum f)
  link_found-Keeps i name inum none s v =
      then_do-Good (free_entry dev_read dev_write i _ 0 s) _ (free_entry-Keeps i _ 0 s v)
        (λ off x w.
          then_do-Good (writei dev_write i _ off x) _ (writei-Keeps dev_write writes i _ off x w)
            (λ n. if-Keeps (is_count n 16) (pure (pos 0)) stop (λ y z. z) (λ y z. tt)))
  link_found-Keeps i name inum (some (ip, off)) s v =
      then_do-Good (iput ip s) _ (iput-Keeps ip s v) (λ a x w. w)

  pub dirlink-Keeps :
      (i : ℕ) (name : ℕ → ℕ) (inum : ℕ) → Keeps (dirlink dev_read dev_write i name inum)
  unfolding dirlink
  dirlink-Keeps i name inum s v =
      then_do-Good (dirlookup i name s) _ (dirlookup-Keeps i name s v)
        (link_found-Keeps i name inum)

enter_dir-Keeps :
    (i : ℕ) (f : Option (ℕ × ℕ)) (next : ℕ → M (Option ℕ))
    → ((j : ℕ) → Keeps (next j))
    → Keeps (enter_dir i f next)
enter_dir-Keeps i none next k s v =
    then_do-Good (iunlockput i s) _ (iunlockput-Keeps i s v) (λ a x w. w)
enter_dir-Keeps i (some (j, off)) next k s v =
    then_do-Good (iunlockput i s) _ (iunlockput-Keeps i s v) (λ a. k j)

visit-Keeps :
    (parent : Bool) (i : ℕ) (name path : List ℕ) (next : ℕ → M (Option ℕ))
    → ((j : ℕ) → Keeps (next j))
    → Keeps (visit parent i name path next)
visit-Keeps parent i name path next k s v = then_do-Good (ilock i s) _ (ilock-Keeps i s v) (λ a x w.
    if-Keeps (not ((x.inodes i).type == t_dir)) _ _ (enter_dir-Keeps i none next k)
      (if-Keeps (parent && is_nil path) _ _
        (λ y z. then_do-Good (iunlock i y) _ (iunlock-Keeps i y z) (λ b p q. q))
        (λ y z.
          then_do-Good (dirlookup i (name_buffer name) y) _
            (dirlookup-Keeps i (name_buffer name) y z) (λ f. enter_dir-Keeps i f next k)))
      x w)

round-Good :
    (parent : Bool) (i : ℕ) (o : Option (List ℕ × List ℕ)) (next : List ℕ → ℕ → M (Option ℕ))
    (s : Fs)
    → NoTwins s
    → ((path : List ℕ) (j : ℕ) → Keeps (next path j))
    → Good {A = Option ℕ} (elim o [
      | none ↦ arrive parent i s
      | some (name, rest) ↦ visit parent i name rest (next rest) s
    ])
round-Good true i none next s v k = then_do-Good (iput i s) _ (iput-Keeps i s v) (λ a x w. w)
round-Good false i none next s v k = v
round-Good parent i (some (name, rest)) next s v k =
    visit-Keeps parent i name rest (next rest) (k rest) s v

walk-Keeps : (fuel : ℕ) (parent : Bool) (path : List ℕ) (i : ℕ) → Keeps (walk fuel parent path i)
unfolding walk
walk-Keeps zero parent path i s v = v
walk-Keeps (suc fuel) parent path i s v =
    round-Good parent i (skipelem path) (walk fuel parent) s v (walk-Keeps fuel parent)

pub namex-Good :
    (cwd : ℕ) (parent : Bool) (path : List ℕ) (s : Fs)
    → NoTwins s
    → 0 < (s.inodes cwd).ref
    → Good (namex cwd parent path s)
unfolding namex
namex-Good cwd parent path s v r = elim (Bool-cases (is_absolute path)) [
  | inl t ↦ rw t (then_do-Good (iget 1 1 s) _ (iget-Keeps 1 1 s v) (walk-Keeps _ parent path))
  | inr t ↦ rw t (then_do-Good (idup cwd s) _ (idup-Good cwd s v r) (walk-Keeps _ parent path))
]
