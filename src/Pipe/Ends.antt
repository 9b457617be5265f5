-- ===== src/Pipe/Ends.antt =====
-- The two ends of a pipe in lab5/xv6-thread/kernel/pipe.c.
use ecnu_oslab.Base.{
  ℕ, zero, suc, ◌≡◌, refl, inl, inr, arith, ◌∙◌, Bool, true, false, ◌&&◌, ◌||◌, not, some, List, [],
  ◌∷◌, Bool-cases,
}
use ecnu_oslab.Pipe.{
  Pipe, is_full, is_empty, put_byte, skip_byte, WriteCall, refused, sleeps, written, pipewrite,
  copy_out, ReadCall, denied, waits, got, piperead, pipeclose,
}

-- The file that writes, or the one that reads, has its end of the pipe open.
abbrev pub OpenEnd : (writable : Bool) → Pipe → Type 0
OpenEnd true p = p.writeopen ≡ true
OpenEnd false p = p.readopen ≡ true

abbrev pub SameEnds : Pipe → Pipe → Type 0
SameEnds p q = (p.readopen ≡ q.readopen) × (p.writeopen ≡ q.writeopen)

abbrev pub WriteEnds : WriteCall → (r w : Bool) → Type 0
WriteEnds (refused woken p) r w = (p.readopen ≡ r) × (p.writeopen ≡ w)
WriteEnds (sleeps woken rest p) r w = (p.readopen ≡ r) × (p.writeopen ≡ w)
WriteEnds (written woken p) r w = (p.readopen ≡ r) × (p.writeopen ≡ w)

abbrev pub ReadEnds : ReadCall → Pipe → Type 0
ReadEnds (denied p) q = SameEnds p q
ReadEnds (waits p) q = SameEnds p q
ReadEnds (got woken cs p) q = SameEnds p q

pub pipewrite-WriteEnds :
    (killed : Bool) (p : Pipe) (cs : List ℕ)
    → WriteEnds (pipewrite killed p cs) p.readopen p.writeopen
unfolding pipewrite
pipewrite-WriteEnds killed p [] = (refl, refl)
pipewrite-WriteEnds killed p (c ∷ cs) = elim (Bool-cases (is_full p)) [
  | inr f ↦ rw f (pipewrite-WriteEnds killed (put_byte c p) cs)
  | inl f ↦ elim (Bool-cases (not p.readopen || killed)) [
    | inl k ↦ rw (f, k) (refl, refl)
    | inr k ↦ rw (f, k) (refl, refl)
  ]
]

copy_out-SameEnds : (n : ℕ) (p : Pipe) → SameEnds (copy_out n p).1 p
unfolding copy_out
copy_out-SameEnds zero p = (refl, refl)
copy_out-SameEnds (suc n) p = elim (Bool-cases (is_empty p)) [
  | inl e ↦ rw e (refl, refl)
  | inr e ↦ rw e (copy_out-SameEnds n (skip_byte p))
]

pub piperead-ReadEnds : (killed : Bool) (p : Pipe) (n : ℕ) → ReadEnds (piperead killed p n) p
unfolding piperead
piperead-ReadEnds killed p n = elim (Bool-cases (is_empty p && p.writeopen)) [
  | inr e ↦ rw e (copy_out-SameEnds n p)
  | inl e ↦ elim (Bool-cases killed) [
    | inl k ↦ rw (e, k) (refl, refl)
    | inr k ↦ rw (e, k) (refl, refl)
  ]
]

pub SameEnds-OpenEnd : (w : Bool) (p q : Pipe) → SameEnds p q → OpenEnd w q → OpenEnd w p
SameEnds-OpenEnd true p q (r, e) o = e ∙ o
SameEnds-OpenEnd false p q (r, e) o = r ∙ o

-- If both ends are open, pipeclose of one leaves the other open; it does not free the pipe.
pub pipeclose-other :
    (w v : Bool) (p : Pipe)
    → v ≡ not w
    → OpenEnd v p
    → (p' : Pipe) × ((pipeclose w p).1 ≡ some p') × OpenEnd v p'
unfolding pipeclose
pipeclose-other true true p e o = absurd (ground (arith, e))
pipeclose-other true false p e o = (record p { writeopen = false }, rw o refl, o)
pipeclose-other false true p e o = (record p { readopen = false }, rw o refl, o)
pipeclose-other false false p e o = absurd (ground (arith, e))
