-- ===== src/File/Calls.antt =====
-- filealloc, filedup and fileclose of lab5/xv6-thread/kernel/file.c and the invariant of File/Ends.
use ecnu_oslab.Base.{
  ℕ, ◌+◌, ◌-◌, ◌%◌, ◌^◌, ◌<◌, ◌≡◌, ◌⊎◌, refl, inl, inr, arith, none, some, ltb, ◌==◌, Bool-cases,
  find_index-cases, ℤ, pos, negsuc,
}
use ecnu_oslab.Fs
use ecnu_oslab.Fs.Content.{iput}
use ecnu_oslab.File.{
  nfile, FileType, fd_none, fd_pipe, fd_inode, Files, Outcome, done, panic, sleeps, freed, stray,
  Run, then_run, fs_result, in_fs, set_file, filealloc, filedup, fileclose, advance,
}
use ecnu_oslab.File.Ends.{EndsOk, EndsOk-set, EndsOk-fs, EndsOk-take, EndsOk-empty, EndsOk-close}

-- What a call leaves, where it leaves a state; it does not use a freed pipe.
abbrev pub Good : {A : Type 0} → Outcome A → Type 0
Good (done a s) = EndsOk s
Good panic = Unit {0}
Good (sleeps s) = EndsOk s
Good freed = ⊥
Good stray = Unit {0}

abbrev pub Keeps : {A : Type 0} → Run A → Type 0
Keeps m = (s : Files) → EndsOk s → Good (m s)

pub then_run-Good :
    {A B : Type 0} (r : Outcome A) (f : A → Run B)
    → Good r
    → ((a : A) → Keeps (f a))
    → Good (then_run r f)
then_run-Good (done a s) f g k = k a s g
then_run-Good panic f g k = tt
then_run-Good (sleeps s) f g k = g
then_run-Good freed f g k = g
then_run-Good stray f g k = tt

fs_result-Good : {A : Type 0} (r : Fs.Result A) (s : Files) → EndsOk s → Good (fs_result r s)
fs_result-Good (Fs.done a t) s ok = EndsOk-fs s t ok
fs_result-Good Fs.panic s ok = tt
fs_result-Good (Fs.sleeps i t) s ok = EndsOk-fs s t ok
fs_result-Good Fs.stray s ok = tt

pub in_fs-Keeps : {A : Type 0} (m : Fs.M A) → Keeps (in_fs m)
in_fs-Keeps m s ok = fs_result-Good (m s.fs) s ok

pub advance-Keeps : (f : ℕ) (r : ℤ) → Keeps (advance f r)
advance-Keeps f (pos r) s ok =
    EndsOk-set s f (record (s.files f) { off = ((s.files f).off + r) % 2 ^ 32 }) ok (λ x. x) refl
      refl refl (ok.idle f)
advance-Keeps f (negsuc r) s ok = ok

pub filealloc-cases :
    (s : Files)
    → (filealloc s ≡ done none s)
      ⊎ ((f : ℕ) × (filealloc s ≡ done (some f) (set_file f (record (s.files f) { ref = 1 }) s))
          × (f < nfile)
          × ((s.files f).ref ≡ 0))
unfolding filealloc
filealloc-cases s = elim (find_index-cases (λ f. (s.files f).ref == 0) nfile) [
  | inl (e, h) ↦ inl (rw e refl)
  | inr (f, e, l, t, h) ↦ inr (f, rw e refl, l, ground (arith, t))
]

pub filealloc-Keeps : Keeps filealloc
filealloc-Keeps s ok = elim (filealloc-cases s) [
  | inl e ↦ rw e ok
  | inr (f, e, l, z) ↦ rw e (EndsOk-take s f ok z)
]

pub filedup-Keeps : (f : ℕ) → Keeps (filedup f)
unfolding filedup
filedup-Keeps f s ok = elim (Bool-cases ((s.files f).ref == 0)) [
  | inl t ↦ rw t tt
  | inr t ↦ rw t (
      EndsOk-set s f (record (s.files f) { ref = (s.files f).ref + 1 }) ok (λ x. ground (arith, t))
        refl refl refl (λ e. absurd (omega (arith, e))))
]

pub type-cases : (t : FileType) → (t ≡ fd_none) ⊎ (t ≡ fd_pipe) ⊎ (t ≡ fd_inode)
type-cases fd_none = inl refl
type-cases fd_pipe = inr (inl refl)
type-cases fd_inode = inr (inr refl)

pub fileclose-Good : (f : ℕ) → f < nfile → Keeps (fileclose f)
unfolding fileclose
fileclose-Good f l s ok = elim (Bool-cases ((s.files f).ref == 0)) [
  | inl t ↦ rw t tt
  | inr t ↦ elim (Bool-cases (ltb 1 (s.files f).ref)) [
    | inl m ↦
        rw (t, m)
          (EndsOk-set s f (record (s.files f) { ref = (s.files f).ref - 1 }) ok
            (λ x. ground (arith, t)) refl refl refl (λ e. absurd (ground (arith, e, m))))
    | inr m ↦ elim (type-cases (s.files f).type) [
      | inl e ↦ rw (t, m, e) (EndsOk-empty s f ok)
      | inr (inr e) ↦ rw (t, m, e) (in_fs-Keeps (iput (s.files f).ip) _ (EndsOk-empty s f ok))
      | inr (inl e) ↦
          (let (p, q, o) = ok.target f l (ground (arith, t), e) in
            rw (t, m, e, q) (EndsOk-close s f p ok l (ground (arith, t), e) q))
    ]
  ]
]
