-- ===== src/File/Ends.antt =====
-- The invariant of the table ftable of lab5/xv6-thread/kernel/file.c: who holds the ends of the pipes.
use ecnu_oslab.Base.{
  ℕ, ◌<◌, ◌≡◌, ◌≢◌, refl, sym, ap, ◌∙◌, subst, inl, inr, arith, Bool, true, false, not, some, ◌==◌,
  if◌then◌else◌, equal,
}
use mathlib.Core.Option.{some-injective}
use ecnu_oslab.Pipe.{Pipe, pipeclose}
use ecnu_oslab.Pipe.Ends.{OpenEnd, SameEnds, SameEnds-OpenEnd, pipeclose-other}
use ecnu_oslab.Fs.{Fs}
use ecnu_oslab.File.{nfile, fd_none, fd_pipe, File, Files, set_file, set_pipe}

-- An open file that is an end of a pipe.
abbrev pub IsEnd : File → Type 0
IsEnd file = (0 < file.ref) × (file.type ≡ fd_pipe)

-- The pipe of an open file exists, and the end of the file is open; no two open files are the same end of
-- a pipe; and a free slot has the type FD_NONE.
pub record EndsOk (s : Files) : Type 0 where
  pub target :
      (f : ℕ)
      → f < nfile
      → IsEnd (s.files f)
      → (p : Pipe) × (s.pipes (s.files f).pipe ≡ some p) × OpenEnd (s.files f).writable p
  pub apart :
      (f g : ℕ)
      → f < nfile
      → g < nfile
      → IsEnd (s.files f)
      → IsEnd (s.files g)
      → (s.files f).pipe ≡ (s.files g).pipe
      → (s.files f).writable ≡ (s.files g).writable
      → f ≡ g
  pub idle : (f : ℕ) → (s.files f).ref ≡ 0 → (s.files f).type ≡ fd_none

-- The file f at the state t is an end of a pipe that it was already at the state s.
abbrev pub IsOld : (s t : Files) → ℕ → Type 0
IsOld s t f =
    IsEnd (s.files f)
    × ((t.files f).pipe ≡ (s.files f).pipe)
    × ((t.files f).writable ≡ (s.files f).writable)

-- A state with no new end of a pipe, where the pipes still in use are still open.
pub EndsOk-less :
    (s t : Files)
    → EndsOk s
    → ((f : ℕ) → IsEnd (t.files f) → IsOld s t f)
    → ((f : ℕ) (p : Pipe)
        → f < nfile
        → IsEnd (t.files f)
        → s.pipes (s.files f).pipe ≡ some p
        → OpenEnd (s.files f).writable p
        → (p' : Pipe) × (t.pipes (s.files f).pipe ≡ some p') × OpenEnd (s.files f).writable p')
    → ((f : ℕ) → (t.files f).ref ≡ 0 → (t.files f).type ≡ fd_none)
    → EndsOk t
EndsOk-less s t ok old alive z = record {
  target = λ f l e.
      (let (o, a, w) = old f e in
        let (p, q, r) = ok.target f l o in
        let (p', q', r') = alive f p l e q r in (p', rw a q', rw w r'));
  apart = λ f g l m e d a w.
      (let (o, a1, w1) = old f e in
        let (o', a2, w2) = old g d in ok.apart f g l m o o' (sym a1 ∙ a ∙ a2) (sym w1 ∙ w ∙ w2));
  idle = z;
}

-- A change of the file in slot f that keeps its end.
pub EndsOk-set :
    (s : Files) (f : ℕ) (file : File)
    → EndsOk s
    → (0 < file.ref → 0 < (s.files f).ref)
    → file.type ≡ (s.files f).type
    → file.pipe ≡ (s.files f).pipe
    → file.writable ≡ (s.files f).writable
    → (file.ref ≡ 0 → file.type ≡ fd_none)
    → EndsOk (set_file f file s)
EndsOk-set s f file ok r t p w z =
    EndsOk-less s (set_file f file s) ok old (λ g p l e q o. (p, q, o))
      (λ g e. ground (arith, e, z, ok.idle g))
  where
    old : (g : ℕ) → IsEnd ((set_file f file s).files g) → IsOld s (set_file f file s) g
    old g e = elim (equal g f) [
      | inl q ↦ ground (arith, q, e, r, t, p, w)
      | inr n ↦ ground (arith, n, e)
    ]

-- The pipe of an open file changes, its ends do not.
pub EndsOk-pipe :
    (s : Files) (a : ℕ) (p q : Pipe)
    → EndsOk s
    → s.pipes a ≡ some p
    → SameEnds q p
    → EndsOk (set_pipe a (some q) s)
EndsOk-pipe s a p q ok e k =
    EndsOk-less s (set_pipe a (some q) s) ok (λ f d. (d, refl, refl)) alive ok.idle
  where
    alive :
        (f : ℕ) (p' : Pipe)
        → f < nfile
        → IsEnd (s.files f)
        → s.pipes (s.files f).pipe ≡ some p'
        → OpenEnd (s.files f).writable p'
        → (p'' : Pipe) × ((set_pipe a (some q) s).pipes (s.files f).pipe ≡ some p'')
          × OpenEnd (s.files f).writable p''
    alive f p' l d e' o = elim (equal (s.files f).pipe a) [
      | inr n ↦ (p', ground (arith, n, e'), o)
      | inl m ↦ (
        q,
        ground (arith, m),
        SameEnds-OpenEnd (s.files f).writable q p k (
            subst (OpenEnd (s.files f).writable) (some-injective p' p (sym e' ∙ ap s.pipes m ∙ e))
              o),
      )
    ]

pub EndsOk-fs : (s : Files) (t : Fs) → EndsOk s → EndsOk (record s { fs = t })
EndsOk-fs s t ok = record { target = ok.target; apart = ok.apart; idle = ok.idle }

-- A free slot gets a reference.
pub EndsOk-take :
    (s : Files) (f : ℕ)
    → EndsOk s
    → (s.files f).ref ≡ 0
    → EndsOk (set_file f (record (s.files f) { ref = 1 }) s)
EndsOk-take s f ok e =
    EndsOk-less s (set_file f (record (s.files f) { ref = 1 }) s) ok old (λ g p l d q o. (p, q, o))
      (λ g d. ground (arith, d, ok.idle g))
  where
    not_end : fd_none ≢ fd_pipe
    not_end q = ground (arith, q)

    old :
        (g : ℕ)
        → IsEnd ((set_file f (record (s.files f) { ref = 1 }) s).files g)
        → IsOld s (set_file f (record (s.files f) { ref = 1 }) s) g
    old g d = elim (equal g f) [
      | inl q ↦ absurd (ground (arith, q, d, ok.idle f e))
      | inr n ↦ ground (arith, n, d)
    ]

-- The slot of a file is emptied.
abbrev pub emptied : ℕ → Files → Files
emptied f s = set_file f (record (s.files f) { ref = 0; type = fd_none }) s

emptied-IsOld :
    (s : Files) (f g : ℕ) → IsEnd ((emptied f s).files g) → IsOld s (emptied f s) g × (g ≢ f)
emptied-IsOld s f g d = elim (equal g f) [
  | inl q ↦ absurd (ground (arith, q, d))
  | inr n ↦ (ground (arith, n, d), n)
]

pub EndsOk-empty : (s : Files) (f : ℕ) → EndsOk s → EndsOk (emptied f s)
EndsOk-empty s f ok =
    EndsOk-less s (emptied f s) ok (λ g d. (emptied-IsOld s f g d).0) (λ g p l d q o. (p, q, o))
      (λ g d. ground (arith, d, ok.idle g))

differ : (v w : Bool) → v ≢ w → v ≡ not w
differ true true n = absurd (n refl)
differ true false n = refl
differ false true n = refl
differ false false n = absurd (n refl)

-- The slot of an end of a pipe is emptied, and the end closed.
pub EndsOk-close :
    (s : Files) (f : ℕ) (p : Pipe)
    → EndsOk s
    → f < nfile
    → IsEnd (s.files f)
    → s.pipes (s.files f).pipe ≡ some p
    → EndsOk (set_pipe (s.files f).pipe (pipeclose (s.files f).writable p).1 (emptied f s))
EndsOk-close s f p ok l e q =
    EndsOk-less s _ ok (λ g d. (emptied-IsOld s f g d).0) alive
      (λ g d. ground (arith, d, ok.idle g))
  where
    other :
        (g : ℕ)
        → g < nfile
        → g ≢ f
        → IsEnd (s.files g)
        → (s.files g).pipe ≡ (s.files f).pipe
        → (s.files g).writable ≡ not (s.files f).writable
    other g m n d a = differ _ _ (λ x. n (ok.apart g f m l d e a x))

    alive :
        (g : ℕ) (r : Pipe)
        → g < nfile
        → IsEnd ((emptied f s).files g)
        → s.pipes (s.files g).pipe ≡ some r
        → OpenEnd (s.files g).writable r
        → (r' : Pipe) × ((if (s.files g).pipe == (s.files f).pipe
              then (pipeclose (s.files f).writable p).1
              else s.pipes (s.files g).pipe)
            ≡ some r')
          × OpenEnd (s.files g).writable r'
    alive g r m d q' o =
        let (old, n) = emptied-IsOld s f g d in
        elim (equal (s.files g).pipe (s.files f).pipe) [
          | inr k ↦ (r, ground (arith, k, q'), o)
          | inl k ↦
              (let same = some-injective r p (sym q' ∙ ap s.pipes k ∙ q) in
                let (r', u, v) =
                  pipeclose-other (s.files f).writable (s.files g).writable p (other g m n old.0 k)
                    (subst (OpenEnd (s.files g).writable) same o) in
                (r', ground (arith, k, u), v))
        ]
