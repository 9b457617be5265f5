-- ===== src/File/Steps.antt =====
-- pipealloc of lab5/xv6-thread/kernel/pipe.c and the invariant of File/Ends, and the calls on files as a
-- transition system.
use ecnu_oslab.Base.{ℕ, ◌<◌, ◌≡◌, ◌≢◌, subst, inl, inr, arith, Bool, Option, none, some, List, ℤ}
use ecnu_oslab.Pipe.{Pipe}
use ecnu_oslab.Pipe.Ends.{OpenEnd}
use ecnu_oslab.Fs
use ecnu_oslab.File.{
  nfile, fd_none, fd_pipe, File, Files, Outcome, done, panic, sleeps, freed, stray, ◌>>=◌, ◌>>◌,
  set_file, filealloc, filedup, fileclose, filestat, fileread, filewrite, close_some, give_up,
  join_files, pipealloc,
}
use ecnu_oslab.File.Ends.{IsEnd, EndsOk, EndsOk-take, EndsOk-fs}
use ecnu_oslab.File.Made.{EndsOk-set_up}
use ecnu_oslab.File.Calls.{
  Good, Keeps, then_run-Good, filealloc-cases, filealloc-Keeps, filedup-Keeps, fileclose-Good,
}
use ecnu_oslab.File.Transfer.{filestat-Keeps, fileread-Good, filewrite-Good}

-- kalloc returns a page that holds no pipe.
abbrev pub NewPage : Option (ℕ × (ℕ → ℕ)) → Files → Type 0
NewPage none s = Unit {0}
NewPage (some (a, bytes)) s = s.pipes a ≡ none

InTable : Option ℕ → Type 0
InTable none = Unit {0}
InTable (some f) = f < nfile

close_some-Good : (f : Option ℕ) → InTable f → Keeps (close_some f)
unfolding InTable
close_some-Good none l s ok = ok
close_some-Good (some f) l s ok = fileclose-Good f l s ok

give_up-Good : (f0 f1 : Option ℕ) → InTable f0 → InTable f1 → Keeps (give_up f0 f1)
give_up-Good f0 f1 l m s ok =
    then_run-Good ((close_some f0 >> close_some f1) s) _
      (then_run-Good (close_some f0 s) _ (close_some-Good f0 l s ok) (λ a. close_some-Good f1 m))
      (λ b u p. p)

-- pipealloc from where it has the first file.
with_one :
    (f : ℕ) (page : Option (ℕ × (ℕ → ℕ))) (s : Files)
    → EndsOk s
    → f < nfile
    → 0 < (s.files f).ref
    → NewPage page s
    → Good ((filealloc >>= join_files page (some f)) s)
unfolding InTable
with_one f none s ok l r n = elim (filealloc-cases s) [
  | inl e ↦ rw e (give_up-Good (some f) none l tt s ok)
  | inr (g, e, m, z) ↦ rw e (give_up-Good (some f) (some g) l m _ (EndsOk-take s g ok z))
]
with_one f (some (a, bytes)) s ok l r n = elim (filealloc-cases s) [
  | inl e ↦ rw e (give_up-Good (some f) none l tt s ok)
  | inr (g, e, m, z) ↦ rw e (
      EndsOk-set_up _ a f g bytes (EndsOk-take s g ok z) n (λ q. ground (arith, q, r, z))
        (ground (arith, r)) (ground arith))
]

NewPage-take :
    (page : Option (ℕ × (ℕ → ℕ))) (f : ℕ) (file : File) (s : Files)
    → NewPage page s
    → NewPage page (set_file f file s)
NewPage-take none f file s n = tt
NewPage-take (some (a, bytes)) f file s n = n

pub pipealloc-Good :
    (page : Option (ℕ × (ℕ → ℕ))) (s : Files) → EndsOk s → NewPage page s → Good (pipealloc page s)
unfolding pipealloc
pipealloc-Good page s ok n = elim (filealloc-cases s) [
  | inl e ↦ rw e (nothing page)
  | inr (f, e, l, z) ↦
      rw e (with_one f page _ (EndsOk-take s f ok z) l (ground arith) (NewPage-take page f _ s n))
]
  where
    nothing : (page : Option (ℕ × (ℕ → ℕ))) → Good (join_files page none none s)
    nothing none = ok
    nothing (some (a, bytes)) = ok

-- The call leaves the state t: it returns, or it sleeps.
abbrev pub Leaves : {A : Type 0} → Outcome A → Files → Type 0
Leaves (done a s) t = s ≡ t
Leaves panic t = ⊥
Leaves (sleeps s) t = s ≡ t
Leaves freed t = ⊥
Leaves stray t = ⊥

-- A call at the state s, which is made with files that are open. What the rest of the kernel does with the
-- file system is `elsewhere`.
pub data FileCall (dev_read : ℕ → Option (ℕ → ℕ → Fs.M (ℤ × List ℕ)))
    (dev_write : ℕ → Option (ℕ → List ℕ → Fs.M ℤ)) : Files → Files → Type 0 where
  allocates : {s t : Files} → Leaves (filealloc s) t → FileCall dev_read dev_write s t
  dups : {s t : Files} (f : ℕ) → Leaves (filedup f s) t → FileCall dev_read dev_write s t
  closes :
      {s t : Files} (f : ℕ) → f < nfile → Leaves (fileclose f s) t → FileCall dev_read dev_write s t
  stats : {s t : Files} (f : ℕ) → Leaves (filestat f s) t → FileCall dev_read dev_write s t
  reads :
      {s t : Files} (killed : Bool) (f n : ℕ)
      → f < nfile
      → 0 < (s.files f).ref
      → Leaves (fileread dev_read killed f n s) t
      → FileCall dev_read dev_write s t
  writes :
      {s t : Files} (killed : Bool) (f : ℕ) (src : List ℕ)
      → f < nfile
      → 0 < (s.files f).ref
      → Leaves (filewrite dev_write killed f src s) t
      → FileCall dev_read dev_write s t
  pipes :
      {s t : Files} (page : Option (ℕ × (ℕ → ℕ)))
      → NewPage page s
      → Leaves (pipealloc page s) t
      → FileCall dev_read dev_write s t
  elsewhere : {s : Files} (t : Fs.Fs) → FileCall dev_read dev_write s (record s { fs = t })

pub data FileCalls (dev_read : ℕ → Option (ℕ → ℕ → Fs.M (ℤ × List ℕ)))
    (dev_write : ℕ → Option (ℕ → List ℕ → Fs.M ℤ)) : Files → Files → Type 0 where
  stay : {s : Files} → FileCalls dev_read dev_write s s
  next :
      {s t u : Files}
      → FileCall dev_read dev_write s t
      → FileCalls dev_read dev_write t u
      → FileCalls dev_read dev_write s u

Leaves-EndsOk : {A : Type 0} (r : Outcome A) (t : Files) → Good r → Leaves r t → EndsOk t
Leaves-EndsOk (done a s) t g e = subst EndsOk e g
Leaves-EndsOk panic t g e = elim e [ ]
Leaves-EndsOk (sleeps s) t g e = subst EndsOk e g
Leaves-EndsOk freed t g e = elim e [ ]
Leaves-EndsOk stray t g e = elim e [ ]

module _ (dev_read : ℕ → Option (ℕ → ℕ → Fs.M (ℤ × List ℕ)))
    (dev_write : ℕ → Option (ℕ → List ℕ → Fs.M ℤ)) where
  FileCall-Ok : {s t : Files} → FileCall dev_read dev_write s t → EndsOk s → EndsOk t
  FileCall-Ok {s} {t} (allocates l) ok = Leaves-EndsOk (filealloc s) t (filealloc-Keeps s ok) l
  FileCall-Ok {s} {t} (dups f l) ok = Leaves-EndsOk (filedup f s) t (filedup-Keeps f s ok) l
  FileCall-Ok {s} {t} (closes f m l) ok =
      Leaves-EndsOk (fileclose f s) t (fileclose-Good f m s ok) l
  FileCall-Ok {s} {t} (stats f l) ok = Leaves-EndsOk (filestat f s) t (filestat-Keeps f s ok) l
  FileCall-Ok {s} {t} (reads killed f n m r l) ok =
      Leaves-EndsOk (fileread dev_read killed f n s) t (fileread-Good dev_read killed f n s ok m r)
        l
  FileCall-Ok {s} {t} (writes killed f src m r l) ok =
      Leaves-EndsOk (filewrite dev_write killed f src s) t
        (filewrite-Good dev_write killed f src s ok m r) l
  FileCall-Ok {s} {t} (pipes page n l) ok =
      Leaves-EndsOk (pipealloc page s) t (pipealloc-Good page s ok n) l
  FileCall-Ok {s} (elsewhere t) ok = EndsOk-fs s t ok

  FileCalls-Ok : {s t : Files} → FileCalls dev_read dev_write s t → EndsOk s → EndsOk t
  FileCalls-Ok stay ok = ok
  FileCalls-Ok (next c r) ok = FileCalls-Ok r (FileCall-Ok c ok)

not_freed : {A : Type 0} (r : Outcome A) → Good r → r ≢ freed
not_freed (done a s) g e = absurd (ground (arith, e))
not_freed panic g e = absurd (ground (arith, e))
not_freed (sleeps s) g e = absurd (ground (arith, e))
not_freed freed g e = elim g [ ]
not_freed stray g e = absurd (ground (arith, e))

-- No pipe is used after its page has been freed: in every state t that a run of the calls reaches from a
-- table of free slots of type FD_NONE, for every open file f, fileread, filewrite and fileclose do not touch
-- a freed pipe; and if f is an end of a pipe, then that pipe exists, the end of f is open, and no other open
-- file is the same end.
pub FileCalls-Safe :
    (dev_read : ℕ → Option (ℕ → ℕ → Fs.M (ℤ × List ℕ)))
    (dev_write : ℕ → Option (ℕ → List ℕ → Fs.M ℤ)) (s t : Files)
    → ((f : ℕ) → ((s.files f).ref ≡ 0) × ((s.files f).type ≡ fd_none))
    → FileCalls dev_read dev_write s t
    → (f : ℕ) → f < nfile
    → 0 < (t.files f).ref
    → ((killed : Bool) (n : ℕ) → fileread dev_read killed f n t ≢ freed)
      × ((killed : Bool) (src : List ℕ) → filewrite dev_write killed f src t ≢ freed)
      × (fileclose f t ≢ freed)
      × ((t.files f).type ≡ fd_pipe
          → ((p : Pipe) × (t.pipes (t.files f).pipe ≡ some p) × OpenEnd (t.files f).writable p)
            × ((g : ℕ)
                → g < nfile
                → IsEnd (t.files g)
                → (t.files g).pipe ≡ (t.files f).pipe
                → (t.files g).writable ≡ (t.files f).writable
                → g ≡ f))
FileCalls-Safe dev_read dev_write s t e run f l r =
    let start : EndsOk s = record {
      target = λ g m d. absurd (ground (arith, d, e g));
      apart = λ g h m k d d' a w. absurd (ground (arith, d, e g));
      idle = λ g z. (e g).1;
    } in
    let ok = FileCalls-Ok dev_read dev_write run start in
    (
      λ killed n. not_freed _ (fileread-Good dev_read killed f n t ok l r),
      λ killed src. not_freed _ (filewrite-Good dev_write killed f src t ok l r),
      not_freed _ (fileclose-Good f l t ok),
      λ d. (ok.target f l (r, d), λ g m d' a w. ok.apart g f m l d' (r, d) a w),
    )
