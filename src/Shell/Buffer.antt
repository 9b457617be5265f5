-- ===== src/Shell/Buffer.antt =====
-- nulterminate of lab5/xv6-thread/user/sh.c: the 0s that it writes into the buffer of the line.
use ecnu_oslab.Base.{
  ℕ, zero, suc, ◌-◌, ◌<◌, ◌≡◌, ◌≢◌, refl, arith, false, List, [], ◌∷◌, length, All, get_or, set,
  ◌==◌, if◌then◌else◌,
}
use ecnu_oslab.Shell.{
  Word, Cmd, execcmd, redircmd, pipecmd, listcmd, backcmd, terminate, terminate_all, nulterminate,
}
use ecnu_oslab.Shell.Reads.{IsWord}
use ecnu_oslab.Shell.Words.{Fits}

-- The string that begins at index i of a buffer.
unfoldable pub up_to_zero : List ℕ → List ℕ
up_to_zero [] = []
up_to_zero (c ∷ cs) = let rest = up_to_zero cs in if c == 0 then [] else c ∷ rest

unfoldable pub string_at : List ℕ → ℕ → List ℕ
string_at cs zero = up_to_zero cs
string_at [] (suc i) = []
string_at (c ∷ cs) (suc i) = string_at cs i

pub string_at-zero : (cs : List ℕ) (i : ℕ) → get_or cs i 0 ≡ 0 → string_at cs i ≡ []
unfolding string_at up_to_zero
string_at-zero [] zero e = refl
string_at-zero [] (suc i) e = refl
string_at-zero (c ∷ cs) zero e = rw e refl
string_at-zero (c ∷ cs) (suc i) e = string_at-zero cs i e

pub string_at-char :
    (cs : List ℕ) (i c : ℕ) → 0 < c → get_or cs i 0 ≡ c → string_at cs i ≡ c ∷ string_at cs (suc i)
unfolding string_at up_to_zero
string_at-char [] i c p e = absurd (ground (arith, e, p))
string_at-char (x ∷ xs) zero c p e = rw (e, other c p) refl
  where
    other : (n : ℕ) → 0 < n → (n == 0) ≡ false
    other n q = ground (arith, q)
string_at-char (x ∷ xs) (suc i) c p e = string_at-char xs i c p e

-- P holds for the words of a command.
abbrev pub Words : (P : Word → Type 0) → Cmd Word → Type 0
Words P (execcmd argv) = All P argv
Words P (redircmd cmd file mode fd) = Words P cmd × P file
Words P (pipecmd l r) = Words P l × Words P r
Words P (listcmd l r) = Words P l × Words P r
Words P (backcmd cmd) = Words P cmd

pub Fits-Words : (line : List ℕ) (c : Cmd Word) → Fits line c → Words (IsWord line) c
Fits-Words line (execcmd argv) (a, l) = a
Fits-Words line (redircmd c file mode fd) (a, q, l) = (Fits-Words line c a, q)
Fits-Words line (pipecmd l r) (a, b) = (Fits-Words line l a, Fits-Words line r b)
Fits-Words line (listcmd l r) (a, b) = (Fits-Words line l a, Fits-Words line r b)
Fits-Words line (backcmd c) a = Fits-Words line c a

abbrev Zero : Word → List ℕ → List ℕ → Type 0
Zero w line buf = get_or buf (length line - length w.eq) 0 ≡ 0

get-set-zero : (cs : List ℕ) (i j : ℕ) → get_or cs j 0 ≡ 0 → get_or (set cs i 0) j 0 ≡ 0
get-set-zero [] i j e = e
get-set-zero (c ∷ cs) zero zero e = refl
get-set-zero (c ∷ cs) zero (suc j) e = e
get-set-zero (c ∷ cs) (suc i) zero e = e
get-set-zero (c ∷ cs) (suc i) (suc j) e = get-set-zero cs i j e

get-set-same : (cs : List ℕ) (i : ℕ) → get_or (set cs i 0) i 0 ≡ 0
get-set-same [] i = refl
get-set-same (c ∷ cs) zero = refl
get-set-same (c ∷ cs) (suc i) = get-set-same cs i

pub get-set-other : (cs : List ℕ) (i j : ℕ) → i ≢ j → get_or (set cs i 0) j 0 ≡ get_or cs j 0
get-set-other [] i j p = refl
get-set-other (c ∷ cs) zero zero p = absurd (p refl)
get-set-other (c ∷ cs) zero (suc j) p = refl
get-set-other (c ∷ cs) (suc i) zero p = refl
get-set-other (c ∷ cs) (suc i) (suc j) p = get-set-other cs i j (λ e. p (e' e))
  where
    e' : i ≡ j → suc i ≡ suc j
    e' q = omega (arith, q)

terminate_all-zero :
    (line : List ℕ) (ws : List Word) (buf : List ℕ) (j : ℕ)
    → get_or buf j 0 ≡ 0
    → get_or (terminate_all line ws buf) j 0 ≡ 0
unfolding terminate_all
terminate_all-zero line [] buf j e = e
terminate_all-zero line (w ∷ ws) buf j e =
    terminate_all-zero line ws (terminate line w buf) j (get-set-zero buf _ j e)

nulterminate-zero :
    (line : List ℕ) (c : Cmd Word) (buf : List ℕ) (j : ℕ)
    → get_or buf j 0 ≡ 0
    → get_or (nulterminate line c buf) j 0 ≡ 0
unfolding nulterminate
nulterminate-zero line (execcmd argv) buf j e = terminate_all-zero line argv buf j e
nulterminate-zero line (redircmd c file mode fd) buf j e =
    get-set-zero (nulterminate line c buf) _ j (nulterminate-zero line c buf j e)
nulterminate-zero line (pipecmd l r) buf j e =
    nulterminate-zero line r (nulterminate line l buf) j (nulterminate-zero line l buf j e)
nulterminate-zero line (listcmd l r) buf j e =
    nulterminate-zero line r (nulterminate line l buf) j (nulterminate-zero line l buf j e)
nulterminate-zero line (backcmd c) buf j e = nulterminate-zero line c buf j e

-- Every word has its 0.
Words-map : {P Q : Word → Type 0} (c : Cmd Word) → ((w : Word) → P w → Q w) → Words P c → Words Q c
Words-map {P} {Q} (execcmd argv) f a = all argv a
  where
    all : (ws : List Word) → All P ws → All Q ws
    all [] tt = tt
    all (w ∷ ws) (p, r) = (f w p, all ws r)
Words-map (redircmd c file mode fd) f (a, p) = (Words-map c f a, f file p)
Words-map (pipecmd l r) f (a, b) = (Words-map l f a, Words-map r f b)
Words-map (listcmd l r) f (a, b) = (Words-map l f a, Words-map r f b)
Words-map (backcmd c) f a = Words-map c f a

pub Words-both :
    {P Q R : Word → Type 0} (c : Cmd Word)
    → Words P c
    → Words Q c
    → ((w : Word) → P w → Q w → R w)
    → Words R c
Words-both {P} {Q} {R} (execcmd argv) a b f = all argv a b
  where
    all : (ws : List Word) → All P ws → All Q ws → All R ws
    all [] a b = tt
    all (w ∷ ws) (p, r) (q, s) = (f w p q, all ws r s)
Words-both (redircmd c file mode fd) (a, p) (b, q) f = (Words-both c a b f, f file p q)
Words-both (pipecmd l r) (a, c) (b, d) f = (Words-both l a b f, Words-both r c d f)
Words-both (listcmd l r) (a, c) (b, d) f = (Words-both l a b f, Words-both r c d f)
Words-both (backcmd c) a b f = Words-both c a b f

terminate_all-Zero :
    (line : List ℕ) (ws : List Word) (buf : List ℕ)
    → All (λ w. Zero w line (terminate_all line ws buf)) ws
unfolding terminate_all
terminate_all-Zero line [] buf = tt
terminate_all-Zero line (w ∷ ws) buf = (
  terminate_all-zero line ws (terminate line w buf) _ (get-set-same buf _),
  terminate_all-Zero line ws (terminate line w buf),
)

pub nulterminate-Zero :
    (line : List ℕ) (c : Cmd Word) (buf : List ℕ)
    → Words (λ w. Zero w line (nulterminate line c buf)) c
unfolding nulterminate
nulterminate-Zero line (execcmd argv) buf = terminate_all-Zero line argv buf
nulterminate-Zero line (redircmd c file mode fd) buf = (
  Words-map c (λ w z. get-set-zero (nulterminate line c buf) _ _ z) (nulterminate-Zero line c buf),
  get-set-same (nulterminate line c buf) _,
)
nulterminate-Zero line (pipecmd l r) buf = (
  Words-map l (λ w z. nulterminate-zero line r (nulterminate line l buf) _ z)
      (nulterminate-Zero line l buf),
  nulterminate-Zero line r (nulterminate line l buf),
)
nulterminate-Zero line (listcmd l r) buf = (
  Words-map l (λ w z. nulterminate-zero line r (nulterminate line l buf) _ z)
      (nulterminate-Zero line l buf),
  nulterminate-Zero line r (nulterminate line l buf),
)
nulterminate-Zero line (backcmd c) buf = nulterminate-Zero line c buf
