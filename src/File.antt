-- ===== src/File.antt =====
-- lab5/xv6-thread/kernel/file.c: the table of open files, on top of the pipes of pipe.c and the inodes of
-- fs.c, and pipealloc of pipe.c, which makes two files.
pub mod Ends
pub mod Made
pub mod Calls
pub mod Transfer
pub mod Steps
mod Tests
use ecnu_oslab.Base.{
  ℕ, zero, suc, ◌+◌, ◌-◌, ◌%◌, ◌^◌, Bool, true, false, ◌&&◌, ◌||◌, not, Option, none, some, List,
  [], ◌∷◌, length, ltb, ◌==◌, if◌then◌else◌, find_index, ℤ, pos, minus_one,
}
use ecnu_oslab.Pipe.{
  Pipe, fresh, WriteCall, refused, sleeps as waits_to_write, written, pipewrite, ReadCall, denied,
  waits, got, piperead, pipeclose,
}
use ecnu_oslab.Fs
use ecnu_oslab.Fs.{Fs}
use ecnu_oslab.Fs.Inodes.{ilock, iunlock}
use ecnu_oslab.Fs.Content.{Stat, stati, readi, writei, iput}

abbrev pub nfile : ℕ
nfile = 100

pub data FileType : Type 0 where
  fd_none fd_pipe fd_inode : FileType

-- struct file. `pipe` is the address of the pipe's page, and `ip` a slot of icache.
pub record File : Type 0 where
  pub type : FileType
  pub ref : ℕ
  pub readable : Bool
  pub writable : Bool
  pub pipe : ℕ
  pub ip : ℕ
  pub off : ℕ

-- ftable, the pages that hold pipes, and the file system.
pub record Files : Type 0 where
  pub files : ℕ → File
  pub pipes : ℕ → Option Pipe
  pub fs : Fs

-- What a call does: it returns, panics or sleeps. `freed` is a use of a pipe whose page has been freed, and
-- `stray` of an inode that nobody refers to.
pub data Outcome (A : Type 0) : Type 0 where
  done : A → Files → Outcome A
  panic : Outcome A
  sleeps : Files → Outcome A
  freed : Outcome A
  stray : Outcome A

abbrev pub Run : Type 0 → Type 0
Run A = Files → Outcome A

abbrev pub then_run : {A B : Type 0} → Outcome A → (A → Run B) → Outcome B
then_run (done a s) f = f a s
then_run panic f = panic
then_run (sleeps s) f = sleeps s
then_run freed f = freed
then_run stray f = stray

infixl 5 ◌>>=◌ ◌>>◌
abbrev pub ◌>>=◌ : {A B : Type 0} → Run A → (A → Run B) → Run B
◌>>=◌ m f s = then_run (m s) f

abbrev pub ◌>>◌ : {A B : Type 0} → Run A → Run B → Run B
m >> k = m >>= λ _. k

abbrev pub pure : {A : Type 0} → A → Run A
pure a s = done a s

abbrev pub stop : {A : Type 0} → Run A
stop s = panic

-- A call into the file system.
abbrev pub fs_result : {A : Type 0} → Fs.Result A → Run A
fs_result (Fs.done a t) s = done a (record s { fs = t })
fs_result Fs.panic s = panic
fs_result (Fs.sleeps i t) s = sleeps (record s { fs = t })
fs_result Fs.stray s = stray

abbrev pub in_fs : {A : Type 0} → Fs.M A → Run A
in_fs m s = fs_result (m s.fs) s

abbrev pub set_file : ℕ → File → Files → Files
set_file f file s = record s { files = λ g. if g == f then file else s.files g }

abbrev pub set_pipe : ℕ → Option Pipe → Files → Files
set_pipe a p s = record s { pipes = λ b. if b == a then p else s.pipes b }

-- The slot found, with a reference.
abbrev pub take_slot : Option ℕ → Run (Option ℕ)
take_slot none s = done none s
take_slot (some f) s = done (some f) (set_file f (record (s.files f) { ref = 1 }) s)

unfoldable pub filealloc : Run (Option ℕ)
filealloc s = take_slot (find_index (λ f. (s.files f).ref == 0) nfile 0) s

unfoldable pub filedup : ℕ → Run ℕ
filedup f s =
    let file = s.files f in
    if file.ref == 0 then panic else done f (set_file f (record file { ref = file.ref + 1 }) s)

-- pipeclose(ff.pipe, ff.writable)
abbrev pub close_pipe : (a : ℕ) (writable : Bool) → Option Pipe → Run (Unit {0})
close_pipe a writable none s = freed
close_pipe a writable (some p) s = done tt (set_pipe a (pipeclose writable p).1 s)

-- What fileclose does behind the table, for the copy of the file.
abbrev pub close_target : FileType → File → Run (Unit {0})
close_target fd_none ff s = done tt s
close_target fd_pipe ff s = close_pipe ff.pipe ff.writable (s.pipes ff.pipe) s
close_target fd_inode ff s = in_fs (iput ff.ip) s

unfoldable pub fileclose : ℕ → Run (Unit {0})
fileclose f s =
    let ff = s.files f in
    if ff.ref == 0
    then panic
    else if ltb 1 ff.ref
    then done tt (set_file f (record ff { ref = ff.ref - 1 }) s)
    else close_target ff.type ff (set_file f (record ff { ref = 0; type = fd_none }) s)

abbrev pub stat_of : FileType → (ip : ℕ) → Run (Option Stat)
stat_of fd_inode ip = do in_fs (ilock ip); st ← in_fs (stati ip); in_fs (iunlock ip); pure (some st)
stat_of _ ip = pure none

unfoldable pub filestat : ℕ → Run (Option Stat)
filestat f s = stat_of (s.files f).type (s.files f).ip s

-- f->off += r for r > 0
abbrev pub advance : (f : ℕ) → ℤ → Run (Unit {0})
advance f (pos r) s =
    done tt (set_file f (record (s.files f) { off = ((s.files f).off + r) % 2 ^ 32 }) s)
advance f _ s = done tt s

abbrev pub end_read : (a : ℕ) → ReadCall → Run (ℤ × List ℕ)
end_read a (denied p) s = done (minus_one, []) (set_pipe a (some p) s)
end_read a (waits p) s = sleeps (set_pipe a (some p) s)
end_read a (got woken cs p) s = done (pos (length cs), cs) (set_pipe a (some p) s)

abbrev pub read_pipe : (killed : Bool) (a n : ℕ) → Option Pipe → Run (ℤ × List ℕ)
read_pipe killed a n none s = freed
read_pipe killed a n (some p) s = end_read a (piperead killed p n) s

abbrev pub end_write : (a n : ℕ) → WriteCall → Run ℤ
end_write a n (refused woken p) s = done minus_one (set_pipe a (some p) s)
end_write a n (waits_to_write woken rest p) s = sleeps (set_pipe a (some p) s)
end_write a n (written woken p) s = done (pos n) (set_pipe a (some p) s)

abbrev pub write_pipe : (killed : Bool) (a : ℕ) → List ℕ → Option Pipe → Run ℤ
write_pipe killed a src none s = freed
write_pipe killed a src (some p) s = end_write a (length src) (pipewrite killed p src) s

module _ (dev_read : ℕ → Option (ℕ → ℕ → Fs.M (ℤ × List ℕ))) where
  abbrev pub read_from : FileType → (killed : Bool) (f n : ℕ) → Run (ℤ × List ℕ)
  read_from fd_none killed f n s = panic
  read_from fd_pipe killed f n s = read_pipe killed (s.files f).pipe n (s.pipes (s.files f).pipe) s
  read_from fd_inode killed f n s =
      (do
        in_fs (ilock (s.files f).ip)
        r ← in_fs (readi dev_read (s.files f).ip (s.files f).off n)
        advance f r.0
        in_fs (iunlock (s.files f).ip)
        pure r)
        s

  -- With the bytes put at addr; n is not negative.
  unfoldable pub fileread : (killed : Bool) (f n : ℕ) → Run (ℤ × List ℕ)
  fileread killed f n s =
      if not (s.files f).readable
      then done (minus_one, []) s
      else read_from (s.files f).type killed f n s

module _ (dev_write : ℕ → Option (ℕ → List ℕ → Fs.M ℤ)) where
  abbrev pub write_to : FileType → (killed : Bool) (f : ℕ) → List ℕ → Run ℤ
  write_to fd_none killed f src s = panic
  write_to fd_pipe killed f src s =
      write_pipe killed (s.files f).pipe src (s.pipes (s.files f).pipe) s
  write_to fd_inode killed f src s =
      (do
        in_fs (ilock (s.files f).ip)
        r ← in_fs (writei dev_write (s.files f).ip src (s.files f).off)
        advance f r
        in_fs (iunlock (s.files f).ip)
        pure r)
        s

  -- The bytes at addr.
  unfoldable pub filewrite : (killed : Bool) (f : ℕ) → List ℕ → Run ℤ
  filewrite killed f src s =
      if not (s.files f).writable
      then done minus_one s
      else write_to (s.files f).type killed f src s

-- if(*f) fileclose(*f);
abbrev pub close_some : Option ℕ → Run (Unit {0})
close_some none = pure tt
close_some (some f) = fileclose f

-- The label bad: of pipealloc, where no page has been allocated.
abbrev pub give_up : (f0 f1 : Option ℕ) → Run (Option (ℕ × ℕ))
give_up f0 f1 = close_some f0 >> close_some f1 >> pure none

-- The files and the pipe that pipealloc sets up.
abbrev pub set_up : (a : ℕ) → (bytes : ℕ → ℕ) → (f0 f1 : ℕ) → Files → Files
set_up a bytes f0 f1 s =
    let s1 = set_pipe a (some (fresh bytes)) s in
    let s2 =
      set_file f0
        (record (s1.files f0) { type = fd_pipe; readable = true; writable = false; pipe = a }) s1 in
    set_file f1
      (record (s2.files f1) { type = fd_pipe; readable = false; writable = true; pipe = a }) s2

-- What pipealloc does with the two files; `page` is what kalloc returns, with the bytes found there.
abbrev pub join_files : Option (ℕ × (ℕ → ℕ)) → (f0 f1 : Option ℕ) → Run (Option (ℕ × ℕ))
join_files (some (a, bytes)) (some f0) (some f1) s = done (some (f0, f1)) (set_up a bytes f0 f1 s)
join_files none (some f0) (some f1) s = give_up (some f0) (some f1) s
join_files page none f1 s = give_up none f1 s
join_files page (some f0) none s = give_up (some f0) none s

-- The second file is allocated only if the first one is there.
abbrev pub second : Option ℕ → Run (Option ℕ)
second none = pure none
second (some f0) = filealloc

unfoldable pub pipealloc : Option (ℕ × (ℕ → ℕ)) → Run (Option (ℕ × ℕ))
pipealloc page = do f0 ← filealloc; f1 ← second f0; join_files page f0 f1
