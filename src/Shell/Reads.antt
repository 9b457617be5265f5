-- ===== src/Shell/Reads.antt =====
-- The tokens of the shell, lab5/xv6-thread/user/sh.c: what skip, scan and gettoken take of the line.
use ecnu_oslab.Base.{
  ℕ, ◌≤◌, ◌<◌, ◌≡◌, ◌≢◌, refl, inl, inr, arith, true, false, ◌||◌, List, [], ◌∷◌, length, ◌==◌,
  Bool-cases,
}
use ecnu_oslab.Ulib.{strchr}
use ecnu_oslab.Shell.{
  Word, Token, whitespace, symbols, skip, skip_word, single, after_greater, scan, gettoken, starts,
}

-- The second list is what is left from some place of the first on.
pub data Tail : List ℕ → List ℕ → Type 0 where
  same : {s : List ℕ} → Tail s s
  after : {c : ℕ} {s t : List ℕ} → Tail s t → Tail (c ∷ s) t

pub Tail-trans : {r s t : List ℕ} → Tail r s → Tail s t → Tail r t
Tail-trans same b = b
Tail-trans (after a) b = after (Tail-trans a b)

pub Tail-nil : (s : List ℕ) → Tail s []
Tail-nil [] = same
Tail-nil (c ∷ cs) = after (Tail-nil cs)

pub Tail-length : {s t : List ℕ} → Tail s t → length t ≤ length s
Tail-length same = omega arith
Tail-length (after a) = omega (arith, Tail-length a)

-- From the first list to the second there are only characters of words.
pub data Run : List ℕ → List ℕ → Type 0 where
  stop : {s : List ℕ} → Run s s
  over : {c : ℕ} {s t : List ℕ} → (whitespace c || symbols c) ≡ false → Run s t → Run (c ∷ s) t

pub Run-Tail : {s t : List ℕ} → Run s t → Tail s t
Run-Tail stop = same
Run-Tail (over p r) = after (Run-Tail r)

-- Nothing follows, or a character that is not one of a word.
abbrev pub Stops : List ℕ → Type 0
Stops [] = Unit
Stops (c ∷ cs) = (whitespace c || symbols c) ≡ true

-- A word of the line: not empty, and as long as it can be.
pub record IsWord (line : List ℕ) (w : Word) : Type 0 where
  pub from : Tail line w.q
  pub run : Run w.q w.eq
  pub long : length w.eq < length w.q
  pub stops : Stops w.eq

pub skip-Tail : (s : List ℕ) → Tail s (skip s)
unfolding skip
skip-Tail [] = same
skip-Tail (c ∷ cs) = elim (Bool-cases (whitespace c)) [
  | inl t ↦ rw t (after (skip-Tail cs))
  | inr t ↦ rw t same
]

abbrev pub Black : List ℕ → Type 0
Black [] = Unit
Black (c ∷ cs) = whitespace c ≡ false

skip-Black : (s : List ℕ) → Black (skip s)
unfolding skip
skip-Black [] = tt
skip-Black (c ∷ cs) = elim (Bool-cases (whitespace c)) [
  | inl t ↦ rw t (skip-Black cs)
  | inr t ↦ rw t t
]

pub Black-skip : (s : List ℕ) → Black s → skip s ≡ s
unfolding skip
Black-skip [] b = refl
Black-skip (c ∷ cs) b = rw b refl

pub skip_twice : (s : List ℕ) → skip (skip s) ≡ skip s
skip_twice s = Black-skip (skip s) (skip-Black s)

pub skip_word-Run : (s : List ℕ) → Run s (skip_word s) × Stops (skip_word s)
unfolding skip_word
skip_word-Run [] = (stop, tt)
skip_word-Run (c ∷ cs) = elim (Bool-cases (whitespace c || symbols c)) [
  | inl t ↦ rw t (stop, t)
  | inr t ↦ rw t (over t (skip_word-Run cs).0, (skip_word-Run cs).1)
]

-- A token that ends at t: a word if its kind is 97, and not empty if it is not the end of the line.
abbrev Scanned : List ℕ → ℕ × List ℕ → Type 0
Scanned s (ret, t) =
    Tail s t
    × ((ret ≡ b'a') → Run s t × Stops t × (length t < length s))
    × ((ret ≢ 0) → length t < length s)

after_greater-Scanned : (cs : List ℕ) → Scanned (b'>' ∷ cs) (after_greater cs)
unfolding after_greater
after_greater-Scanned [] = (after same, (λ e. absurd (ground (arith, e))), (λ e. omega arith))
after_greater-Scanned (c ∷ cs) = elim (Bool-cases (c == b'>')) [
  | inl t ↦ rw t (after (after same), (λ e. absurd (ground (arith, e))), (λ e. omega arith))
  | inr t ↦ rw t (after same, (λ e. absurd (ground (arith, e))), (λ e. omega arith))
]

not_symbol : (c : ℕ) → single c ≡ false → (c == b'>') ≡ false → symbols c ≡ false
unfolding symbols strchr
not_symbol c a b = ground (arith, a, b)

skip_word-less :
    (c : ℕ) (cs : List ℕ)
    → (whitespace c || symbols c) ≡ false
    → length (skip_word (c ∷ cs)) < length (c ∷ cs)
unfolding skip_word
skip_word-less c cs p = rw p (omega (arith, Tail-length (Run-Tail (skip_word-Run cs).0)))

scan-Scanned : (s : List ℕ) → Black s → Scanned s (scan s)
unfolding scan
scan-Scanned [] b = (same, (λ e. absurd (ground (arith, e))), (λ e. absurd (e refl)))
scan-Scanned (c ∷ cs) b = elim (Bool-cases (single c)) [
  | inl t ↦ rw t (after same, (λ e. absurd (ground (arith, e, t))), (λ e. omega arith))
  | inr t ↦ elim (Bool-cases (c == b'>')) [
    | inl u ↦ rw (t, u) (greater (ground (arith, u)))
    | inr u ↦ rw (t, u) (word (rw (b, not_symbol c t u) refl))
  ]
]
  where
    greater : c ≡ b'>' → Scanned (c ∷ cs) (after_greater cs)
    greater e = rw e (after_greater-Scanned cs)

    word : (whitespace c || symbols c) ≡ false → Scanned (c ∷ cs) (b'a', skip_word (c ∷ cs))
    word p =
        let (r, s) = skip_word-Run (c ∷ cs) in
        (Run-Tail r, (λ e. (r, s, skip_word-less c cs p)), (λ e. skip_word-less c cs p))

-- What gettoken takes of what is left of the line.
pub record Taken (line s : List ℕ) (t : Token) : Type 0 where
  pub tail : Tail line t.rest
  pub most : length t.rest ≤ length s
  pub less : t.ret ≢ 0 → length t.rest < length s
  pub word : t.ret ≡ b'a' → IsWord line t.word

pub gettoken-Taken : (line s : List ℕ) → Tail line s → Taken line s (gettoken s)
unfolding gettoken
gettoken-Taken line s h = record {
  tail = Tail-trans start (Tail-trans sc.0 (skip-Tail _));
  most = omega (arith, back, Tail-length sc.0, Tail-length (skip-Tail s));
  less = λ e. omega (arith, back, sc.2 e, Tail-length (skip-Tail s));
  word = λ e. record { from = start; run = (sc.1 e).0; stops = (sc.1 e).1; long = (sc.1 e).2 };
}
  where
    sc : Scanned (skip s) (scan (skip s))
    sc = scan-Scanned (skip s) (skip-Black s)

    start : Tail line (skip s)
    start = Tail-trans h (skip-Tail s)

    back : length (skip (scan (skip s)).1) ≤ length (scan (skip s)).1
    back = Tail-length (skip-Tail (scan (skip s)).1)

positive : (n : ℕ) → (n == 0) ≡ false → n ≡ 0 → ⊥
positive n f q = ground (arith, f, q)

kind_of_greater : (cs : List ℕ) → (after_greater cs).0 ≡ 0 → ⊥
unfolding after_greater
kind_of_greater [] e = positive b'>' refl e
kind_of_greater (c ∷ cs) e = elim (Bool-cases (c == b'>')) [
  | inl t ↦ positive b'+' refl (rw t at e)
  | inr t ↦ positive b'>' refl (rw t at e)
]

scan-end : (s : List ℕ) → (scan s).0 ≡ 0 → s ≡ []
unfolding scan
scan-end [] e = refl
scan-end (c ∷ cs) e = elim (Bool-cases (single c)) [
  | inl t ↦ absurd (ground (arith, t, rw t at e))
  | inr t ↦ elim (Bool-cases (c == b'>')) [
    | inl u ↦ absurd (kind_of_greater cs (rw (t, u) at e))
    | inr u ↦ absurd (positive b'a' refl (rw (t, u) at e))
  ]
]

starts-nil : (toks : List ℕ) → starts toks [] ≡ true → ⊥
unfolding starts
starts-nil toks e = ground (arith, e)

-- Where peek has found one of its characters, a token follows.
pub starts-gettoken : (toks s : List ℕ) → starts toks (skip s) ≡ true → (gettoken (skip s)).ret ≢ 0
unfolding gettoken
starts-gettoken toks s t e = empty (skip s) t (rw (skip_twice s) at (scan-end (skip (skip s)) e))
  where
    empty : (u : List ℕ) → starts toks u ≡ true → u ≡ [] → ⊥
    empty u p q = starts-nil toks (rw q at p)
