-- ===== src/File/Tests.antt =====
-- Runs of lab5/xv6-thread/kernel/file.c.
use ecnu_oslab.Base.{
  ℕ, ◌<◌, ◌≡◌, ◌≢◌, refl, arith, Bool, false, Option, none, some, List, [], ◌∷◌, find_index, ℤ, pos,
}
use ecnu_oslab.Pipe.{Pipe, pipewrite, piperead, copy_out, pipeclose}
use ecnu_oslab.Pipe.Ends.{OpenEnd}
use ecnu_oslab.Fs
use ecnu_oslab.File.{
  nfile, fd_none, fd_pipe, File, Files, Outcome, done, freed, filealloc, fileclose, fileread,
  filewrite, pipealloc, set_up, set_file, Run, ◌>>=◌, ◌>>◌, pure,
}
use ecnu_oslab.File.Ends.{IsEnd}
use ecnu_oslab.File.Steps.{Leaves, pipes, stay, next, FileCalls-Safe}

abbrev no_file : File
no_file = record {
  type = fd_none;
  ref = 0;
  readable = false;
  writable = false;
  pipe = 0;
  ip = 0;
  off = 0;
}

abbrev empty : Fs.Fs
empty = record {
  disk = λ dev b i. 0;
  inodes = λ i. record {
    dev = 0;
    inum = 0;
    ref = 0;
    busy = false;
    valid = false;
    type = 0;
    major = 0;
    minor = 0;
    nlink = 0;
    size = 0;
    addrs = λ k. 0;
  };
}

abbrev no_files : Files
no_files = record { files = λ f. no_file; pipes = λ a. none; fs = empty }

abbrev no_reader : ℕ → Option (ℕ → ℕ → Fs.M (ℤ × List ℕ))
no_reader major = none

abbrev no_writer : ℕ → Option (ℕ → List ℕ → Fs.M ℤ)
no_writer major = none

-- The table after a pipe has been made in the page at 4096.
abbrev two_files : Files
two_files =
    set_up 4096 (λ i. 0) 0 1
      (set_file 1 (record no_file { ref = 1 }) (set_file 0 (record no_file { ref = 1 }) no_files))

pipealloc-two : Leaves (pipealloc (some (4096, λ i. 0)) no_files) two_files
unfolding pipealloc filealloc find_index
pipealloc-two = refl

-- Two bytes written into the pipe are read again, and the read end is closed before the write end.
abbrev session : Run (ℤ × List ℕ)
session = filewrite no_writer false 1 (7 ∷ 8 ∷ []) >> fileread no_reader false 0 10 >>= λ r.
    fileclose 0 >> fileclose 1 >> pure r

abbrev value : {A : Type 0} → Outcome A → Option A
value (done a s) = some a
value _ = none

session_run : value (session two_files) ≡ some (pos 2, 7 ∷ 8 ∷ [])
unfolding filewrite fileread fileclose pipewrite piperead copy_out pipeclose
session_run = refl

FileCalls-Safe_example :
    ((killed : Bool) (n : ℕ) → fileread no_reader killed 0 n two_files ≢ freed)
    × ((killed : Bool) (src : List ℕ) → filewrite no_writer killed 0 src two_files ≢ freed)
    × (fileclose 0 two_files ≢ freed)
    × ((two_files.files 0).type ≡ fd_pipe
        → ((p : Pipe) × (two_files.pipes (two_files.files 0).pipe ≡ some p)
            × OpenEnd (two_files.files 0).writable p)
          × ((g : ℕ)
              → g < nfile
              → IsEnd (two_files.files g)
              → (two_files.files g).pipe ≡ (two_files.files 0).pipe
              → (two_files.files g).writable ≡ (two_files.files 0).writable
              → g ≡ 0))
FileCalls-Safe_example =
    FileCalls-Safe no_reader no_writer no_files two_files (λ f. (refl, refl))
      (next (pipes (some (4096, λ i. 0)) refl pipealloc-two) stay) 0 (omega arith) (omega arith)
