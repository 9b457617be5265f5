-- ===== src/Fs/Names.antt =====
-- Directories and paths in lab5/xv6-thread/kernel/fs.c: dirlookup, dirlink, skipelem and namex.
use ecnu_oslab.Base.{
  ℕ, zero, suc, ◌+◌, ◌*◌, ◌/◌, ◌%◌, Bool, true, false, ◌&&◌, ◌||◌, not, Option, none, some, List,
  [], ◌∷◌, length, get_or, ◌==◌, if◌then◌else◌, find_index, replicate, ℤ, pos, minus_one,
}
use ecnu_oslab.Fs.{Block, M, ◌>>=◌, ◌>>◌, pure, stop, done, half, bread, bsize}
use ecnu_oslab.Fs.Inodes.{get_inode, iget, idup, ilock, iunlock}
use ecnu_oslab.Fs.Content.{bmap, iput, iunlockput, readi, writei, take}

abbrev pub dirsiz : ℕ
dirsiz = 14

abbrev pub t_dir : ℕ
t_dir = 1

-- namecmp(s, t) == 0, for n characters.
unfoldable pub same_name : ℕ → (s t : ℕ → ℕ) → Bool
same_name zero s t = true
same_name (suc n) s t =
    let rest = same_name n (λ i. s (i + 1)) (λ i. t (i + 1)) in
    if s 0 == 0 || not (s 0 == t 0) then s 0 == t 0 else rest

-- The entry e of a block of a directory: struct dirent has 16 bytes.
abbrev pub is_entry : Block → (name : ℕ → ℕ) → ℕ → Bool
is_entry b name e = not (half b (16 * e) == 0) && same_name dirsiz name (λ i. b (16 * e + 2 + i))

abbrev pub enter_found : (dev off : ℕ) → Block → Option ℕ → M (Option (ℕ × ℕ)) → M (Option (ℕ × ℕ))
enter_found dev off b none other = other
enter_found dev off b (some e) other =
    iget dev (half b (16 * e)) >>= λ i. pure (some (i, off + 16 * e))

-- The blocks of the directory from the offset on; a block is searched to its end.
unfoldable pub lookup_from : (i : ℕ) → (name : ℕ → ℕ) → (rounds off : ℕ) → M (Option (ℕ × ℕ))
lookup_from i name zero off s = done none s
lookup_from i name (suc n) off s =
    let rest = lookup_from i name n (off + bsize) in
    (do
      ip ← get_inode i
      a ← bmap i (off / bsize)
      b ← bread ip.dev a
      enter_found ip.dev off b (find_index (is_entry b name) 32 0) rest)
      s

-- The slot of the inode found and *poff.
unfoldable pub dirlookup : (i : ℕ) → (name : ℕ → ℕ) → M (Option (ℕ × ℕ))
dirlookup i name s =
    let ip = s.inodes i in
    (if not (ip.type == t_dir) then stop else lookup_from i name ((ip.size + 511) / bsize) 0) s

-- strncpy(de.name, name, n), from the character k on.
unfoldable pub padded : (n : ℕ) → (name : ℕ → ℕ) → ℕ → List ℕ
padded zero name k = []
padded (suc n) name k =
    let rest = padded n name (k + 1) in if name k == 0 then replicate (suc n) 0 else name k ∷ rest

-- The bytes of struct dirent.
abbrev pub dirent : (inum : ℕ) → (name : ℕ → ℕ) → List ℕ
dirent inum name = inum % 256 ∷ inum / 256 % 256 ∷ padded dirsiz name 0

abbrev pub is_free_entry : List ℕ → Bool
is_free_entry de = get_or de 0 0 == 0 && get_or de 1 0 == 0

abbrev pub is_count : ℤ → ℕ → Bool
is_count (pos n) m = n == m
is_count _ m = false

module _ (dev_read : ℕ → Option (ℕ → ℕ → M (ℤ × List ℕ)))
    (dev_write : ℕ → Option (ℕ → List ℕ → M ℤ)) where
  -- The offset of the first free entry from `off` on, or the end.
  unfoldable pub free_entry : (i rounds off : ℕ) → M ℕ
  free_entry i zero off s = done off s
  free_entry i (suc n) off s =
      let rest = free_entry i n (off + 16) in
      (readi dev_read i off 16 >>= λ r.
      if not (is_count r.0 16) then stop else if is_free_entry r.1 then pure off else rest)
        s

  abbrev pub link_new : (i : ℕ) → (name : ℕ → ℕ) → (inum : ℕ) → M ℤ
  link_new i name inum = do
    ip ← get_inode i
    off ← free_entry i ((ip.size + 15) / 16) 0
    n ← writei dev_write i (dirent inum name) off
    (if is_count n 16 then pure (pos 0) else stop)

  abbrev pub link_found : (i : ℕ) → (name : ℕ → ℕ) → (inum : ℕ) → Option (ℕ × ℕ) → M ℤ
  link_found i name inum none = link_new i name inum
  link_found i name inum (some (ip, off)) = iput ip >> pure minus_one

  unfoldable pub dirlink : (i : ℕ) → (name : ℕ → ℕ) → (inum : ℕ) → M ℤ
  dirlink i name inum = dirlookup i name >>= link_found i name inum

abbrev pub slash : ℕ
slash = 47

unfoldable pub skip_slashes : List ℕ → List ℕ
skip_slashes [] = []
skip_slashes (c ∷ cs) = if c == slash then skip_slashes cs else c ∷ cs

-- The characters up to the next slash or the end, and what follows them.
unfoldable pub element : List ℕ → List ℕ × List ℕ
element [] = ([], [])
element (c ∷ cs) =
    let (name, rest) = element cs in if c == slash then ([], c ∷ cs) else (c ∷ name, rest)

abbrev pub split_path : List ℕ → Option (List ℕ × List ℕ)
split_path [] = none
split_path (c ∷ cs) =
    let (name, rest) = element (c ∷ cs) in some (take dirsiz name, skip_slashes rest)

-- A path without the 0 at its end; the name is the string in the buffer, of which memmove writes at
-- most DIRSIZ characters.
unfoldable pub skipelem : List ℕ → Option (List ℕ × List ℕ)
skipelem path = split_path (skip_slashes path)

-- The buffer `name` behind a call of skipelem.
abbrev pub name_buffer : List ℕ → ℕ → ℕ
name_buffer name i = get_or name i 0

abbrev pub is_nil : List ℕ → Bool
is_nil [] = true
is_nil (c ∷ cs) = false

-- A round of namex at the element `name`, the rest of the path being `path`; `next` is the loop.
abbrev pub enter_dir : (i : ℕ) → Option (ℕ × ℕ) → (ℕ → M (Option ℕ)) → M (Option ℕ)
enter_dir i none next = iunlockput i >> pure none
enter_dir i (some (j, off)) next = iunlockput i >> next j

abbrev pub visit : (parent : Bool) (i : ℕ) (name path : List ℕ) → (ℕ → M (Option ℕ)) → M (Option ℕ)
visit parent i name path next = do
  ilock i
  ip ← get_inode i
  (if not (ip.type == t_dir)
      then (iunlockput i >> pure none)
      else if parent && is_nil path
      then (iunlock i >> pure (some i))
      else (dirlookup i (name_buffer name) >>= λ found. enter_dir i found next))

abbrev pub arrive : (parent : Bool) (i : ℕ) → M (Option ℕ)
arrive parent i = if parent then (iput i >> pure none) else pure (some i)

-- The loop; each round takes at least one character of the path.
unfoldable pub walk : (fuel : ℕ) (parent : Bool) (path : List ℕ) (i : ℕ) → M (Option ℕ)
walk zero parent path i s = done none s
walk (suc fuel) parent path i s = elim (skipelem path) [
  | none ↦ arrive parent i s
  | some (name, rest) ↦ visit parent i name rest (λ j. walk fuel parent rest j) s
]

abbrev pub is_absolute : List ℕ → Bool
is_absolute [] = false
is_absolute (c ∷ cs) = c == slash

-- iget(ROOTDEV, ROOTINO), or proc->cwd.
unfoldable pub namex : (cwd : ℕ) (parent : Bool) (path : List ℕ) → M (Option ℕ)
namex cwd parent path =
    (if is_absolute path then iget 1 1 else idup cwd) >>= walk (length path + 1) parent path

abbrev pub namei : (cwd : ℕ) (path : List ℕ) → M (Option ℕ)
namei cwd path = namex cwd false path

-- The last element of the path, which is what name holds, is that of skipelem's last call.
abbrev pub nameiparent : (cwd : ℕ) (path : List ℕ) → M (Option ℕ)
nameiparent cwd path = namex cwd true path
