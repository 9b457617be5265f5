-- ===== src/Shell/Run.antt =====
-- runcmd and main of lab5/xv6-thread/user/sh.c: the programs that a command starts, with their open
-- files. The descriptors are those of fdalloc, sys_dup, sys_close and sys_pipe in kernel/sysfile.c;
-- fork and exec are taken to succeed, and `opens` says whether a file can be opened.
use ecnu_oslab.Base.{
  ℕ, zero, suc, ◌+◌, ◌≤◌, ◌<◌, ◌≡◌, refl, ap, arith, Bool, true, false, not, ◌&&◌, Option, none,
  some, List, [], ◌∷◌, ◌++◌, ◌==◌, if◌then◌else◌, find_index, FirstIndex, missing, found,
  find_index-FirstIndex,
}
use ecnu_oslab.Shell.{Cmd, execcmd, redircmd, pipecmd, listcmd, backcmd, is_some}

-- What a descriptor is open for: a file, or an end of the pipe that the command at a place makes,
-- or another file.
pub data Object : Type 0 where
  file : (name : List ℕ) → (mode : ℕ) → Object
  reader writer : (place : List Bool) → Object
  other : ℕ → Object

abbrev pub Fds : Type 0
Fds = ℕ → Option Object

abbrev pub nofile : ℕ
nofile = 16

abbrev pub put : Fds → ℕ → Option Object → Fds
put f i o k = if k == i then o else f k

abbrev pub close : ℕ → Fds → Fds
close i f = put f i none

unfoldable pub lowest : Fds → Option ℕ
lowest f = find_index (λ i. not (is_some (f i))) nofile 0

-- open and dup, on what they open; the shell ignores the result of dup.
abbrev pub open_file : Fds → Object → Option Fds
open_file f o = elim (lowest f) [ none ↦ none | some i ↦ some (put f i (some o)) ]

abbrev pub dup : ℕ → Fds → Fds
dup fd f = elim (lowest f) [ none ↦ f | some i ↦ put f i (f fd) ]

pub record NewPipe : Type 0 where
  pub p0 : ℕ
  pub p1 : ℕ
  pub fds : Fds

abbrev pub second_end : (place : List Bool) → (i : ℕ) → Fds → Option NewPipe
second_end place i f = elim (lowest f) [
  | none ↦ none
  | some j ↦ some (record { p0 = i; p1 = j; fds = put f j (some (writer place)) })
]

abbrev pub new_pipe : (place : List Bool) → Fds → Option NewPipe
new_pipe place f = elim (lowest f) [
  | none ↦ none
  | some i ↦ second_end place i (put f i (some (reader place)))
]

-- The children of a pipe: close(1); dup(p[1]); and close(0); dup(p[0]);, then both ends are closed.
abbrev pub left_child : NewPipe → Fds
left_child p = close p.p1 (close p.p0 (dup p.p1 (close 1 p.fds)))

abbrev pub right_child : NewPipe → Fds
right_child p = close p.p1 (close p.p0 (dup p.p0 (close 0 p.fds)))

-- A program that exec starts.
pub record Start : Type 0 where
  pub argv : List (List ℕ)
  pub fds : Fds

module _ (opens : List ℕ → ℕ → Bool) where
  unfoldable pub runcmd : Cmd (List ℕ) → (place : List Bool) → Fds → List Start
  runcmd (execcmd []) place f = []
  runcmd (execcmd (w ∷ ws)) place f = record { argv = w ∷ ws; fds = f } ∷ []
  runcmd (redircmd c name mode fd) place f =
      if opens name mode
      then elim (open_file (close fd f) (file name mode)) [ none ↦ [] | some g ↦ runcmd c place g ]
      else []
  runcmd (listcmd l r) place f = runcmd l (false ∷ place) f ++ runcmd r (true ∷ place) f
  runcmd (pipecmd l r) place f = elim (new_pipe place f) [
    | none ↦ []
    | some p ↦ runcmd l (false ∷ place) (left_child p) ++ runcmd r (true ∷ place) (right_child p)
  ]
  runcmd (backcmd c) place f = runcmd c (false ∷ place) f

  -- What the commands mean: the left side of a pipe writes to it on 1, the right side reads from it on 0.
  unfoldable pub meaning : Cmd (List ℕ) → (place : List Bool) → Fds → List Start
  meaning (execcmd []) place f = []
  meaning (execcmd (w ∷ ws)) place f = record { argv = w ∷ ws; fds = f } ∷ []
  meaning (redircmd c name mode fd) place f =
      if opens name mode then meaning c place (put f fd (some (file name mode))) else []
  meaning (listcmd l r) place f = meaning l (false ∷ place) f ++ meaning r (true ∷ place) f
  meaning (pipecmd l r) place f =
      meaning l (false ∷ place) (put f 1 (some (writer place)))
      ++ meaning r (true ∷ place) (put f 0 (some (reader place)))
  meaning (backcmd c) place f = meaning c (false ∷ place) f

-- The descriptors 0, 1 and 2 are open, and at least two others are not.
pub record Standard (f : Fds) : Type 0 where
  pub input : is_some (f 0) ≡ true
  pub output : is_some (f 1) ≡ true
  pub errors : is_some (f 2) ≡ true
  pub low : ℕ
  pub high : ℕ
  pub low_free : f low ≡ none
  pub high_free : f high ≡ none
  pub apart : low < high
  pub few : high < nofile

-- Only the standard input and output are redirected, as the parser does.
abbrev pub Streams : Cmd (List ℕ) → Type 0
Streams (execcmd argv) = Unit
Streams (redircmd c name mode fd) = Streams c × (fd < 2)
Streams (pipecmd l r) = Streams l × Streams r
Streams (listcmd l r) = Streams l × Streams r
Streams (backcmd c) = Streams c

pub lowest-at :
    (f : Fds) (i : ℕ)
    → i < nofile
    → is_some (f i) ≡ false
    → ((j : ℕ) → j < i → is_some (f j) ≡ true)
    → lowest f ≡ some i
unfolding lowest
lowest-at f i l e h = at_first _ (find_index-FirstIndex (λ k. not (is_some (f k))) nofile 0)
  where
    unused : not (is_some (f i)) ≡ true
    unused = rw e refl

    same :
        (j : ℕ)
        → (j < i → is_some (f j) ≡ true)
        → not (is_some (f j)) ≡ true
        → (i < j → not (is_some (f i)) ≡ false)
        → j ≡ i
    same j a t b = ground (arith, a, t, b, e)

    at_first : (o : Option ℕ) → FirstIndex (λ k. not (is_some (f k))) 0 (0 + 16) o → o ≡ some i
    at_first none (missing m) = absurd (ground (arith, m i (omega arith) (omega (arith, l)), e))
    at_first (some j) (found p q t m) = ap some (same j (h j) t (m i (omega arith)))

below_three :
    (f : Fds)
    → is_some (f 0) ≡ true
    → is_some (f 1) ≡ true
    → is_some (f 2) ≡ true
    → (j : ℕ) → not (is_some (f j)) ≡ true
    → 3 ≤ j
below_three f a b c zero t = absurd (ground (arith, a, t))
below_three f a b c (suc zero) t = absurd (ground (arith, b, t))
below_three f a b c (suc (suc zero)) t = absurd (ground (arith, c, t))
below_three f a b c (suc (suc (suc j))) t = omega arith

-- The lowest free descriptor of a table with 0, 1 and 2 open.
pub record First (f : Fds) : Type 0 where
  pub at : ℕ
  pub found_at : lowest f ≡ some at
  pub above : 3 ≤ at
  pub unused : f at ≡ none

is_some-false : {A : Type 0} (o : Option A) → not (is_some o) ≡ true → o ≡ none
is_some-false none e = refl
is_some-false (some a) e = absurd (ground (arith, e))

pub free_first :
    (f : Fds)
    → is_some (f 0) ≡ true
    → is_some (f 1) ≡ true
    → is_some (f 2) ≡ true
    → (k : ℕ) → k < nofile
    → f k ≡ none
    → First f
unfolding lowest
free_first f a b c k l e =
    at_first _ refl (find_index-FirstIndex (λ i. not (is_some (f i))) nofile 0)
  where
    unused : not (is_some (f k)) ≡ true
    unused = rw e refl

    at_first :
        (o : Option ℕ) → lowest f ≡ o → FirstIndex (λ i. not (is_some (f i))) 0 (0 + 16) o → First f
    at_first none q (missing m) =
        absurd (ground (arith, m k (omega arith) (omega (arith, l)), unused))
    at_first (some j) q (found p r t m) = record {
      at = j;
      found_at = q;
      above = below_three f a b c j t;
      unused = is_some-false (f j) t;
    }

-- What main does with a line: chdir to what follows `cd `, without the last character, or a child that runs it.
pub data Request : Type 0 where
  chdir : (path : List ℕ) → Request
  command : (line : List ℕ) → Request

abbrev drop_last : List ℕ → List ℕ
drop_last [] = []
drop_last (c ∷ []) = []
drop_last (c ∷ d ∷ cs) = c ∷ drop_last (d ∷ cs)

unfoldable pub request : List ℕ → Request
request (c ∷ d ∷ e ∷ cs) =
    if c == b'c' && d == b'd' && e == b' ' then chdir (drop_last cs) else command (c ∷ d ∷ e ∷ cs)
request line = command line
