-- ===== src/Shell/Strings.antt =====
-- nulterminate of lab5/xv6-thread/user/sh.c: the buffer of the line after it, as the system calls read it.
use ecnu_oslab.Base.{
  ℕ, zero, suc, ◌-◌, ◌≤◌, ◌<◌, ◌≡◌, ◌∙◌, refl, sym, ap, subst, inl, inr, arith, true, false, ◌||◌,
  List, [], ◌∷◌, ◌++◌, length, All, get_or, equal,
}
use ecnu_oslab.Shell.{
  Word, Cmd, execcmd, redircmd, pipecmd, listcmd, backcmd, whitespace, symbols, terminate,
  terminate_all, nulterminate, take, text,
}
use ecnu_oslab.Shell.Parse.{ok, parsecmd}
use ecnu_oslab.Shell.Reads.{
  Tail, same, after, Tail-length, Tail-trans, Run, stop, over, Run-Tail, Stops, IsWord,
}
use ecnu_oslab.Shell.Commands.{of_ok, parsecmd-Good}
use ecnu_oslab.Shell.Buffer.{
  string_at, string_at-zero, string_at-char, Words, Fits-Words, get-set-other, Words-both,
  nulterminate-Zero,
}

-- The characters of the line that belong to words are in the buffer.
Intact : List ℕ → List ℕ → Type 0
Intact line buf =
    (i c : ℕ) (t : List ℕ)
    → Tail line (c ∷ t)
    → i ≡ length line - length (c ∷ t)
    → (whitespace c || symbols c) ≡ false
    → get_or buf i 0 ≡ c

Tail-unique : {line s t : List ℕ} → Tail line s → Tail line t → length s ≡ length t → s ≡ t
Tail-unique same same e = refl
Tail-unique same (after b) e = absurd (omega (arith, e, Tail-length b))
Tail-unique (after a) same e = absurd (omega (arith, e, Tail-length a))
Tail-unique (after a) (after b) e = Tail-unique a b e

terminate-Intact :
    (line : List ℕ) (w : Word) (buf : List ℕ)
    → IsWord line w
    → Intact line buf
    → Intact line (terminate line w buf)
unfolding Intact
terminate-Intact line w buf p keeps i c t h e f = elim (equal (length line - length w.eq) i) [
  | inr q ↦ get-set-other buf _ i q ∙ keeps i c t h e f
  | inl q ↦ absurd (apart (Tail-unique eq h (omega (arith, q, e, Tail-length eq, Tail-length h))))
]
  where
    eq : Tail line w.eq
    eq = Tail-trans p.from (Run-Tail p.run)

    true-false : (whitespace c || symbols c) ≡ true → ⊥
    true-false r = ground (arith, r, f)

    apart : w.eq ≡ (c ∷ t) → ⊥
    apart r = true-false (subst Stops r p.stops)

terminate_all-Intact :
    (line : List ℕ) (ws : List Word) (buf : List ℕ)
    → All (IsWord line) ws
    → Intact line buf
    → Intact line (terminate_all line ws buf)
unfolding terminate_all
terminate_all-Intact line [] buf a k = k
terminate_all-Intact line (w ∷ ws) buf (p, a) k =
    terminate_all-Intact line ws (terminate line w buf) a (terminate-Intact line w buf p k)

nulterminate-Intact :
    (line : List ℕ) (c : Cmd Word) (buf : List ℕ)
    → Words (IsWord line) c
    → Intact line buf
    → Intact line (nulterminate line c buf)
unfolding nulterminate
nulterminate-Intact line (execcmd argv) buf a k = terminate_all-Intact line argv buf a k
nulterminate-Intact line (redircmd c file mode fd) buf (a, p) k =
    terminate-Intact line file (nulterminate line c buf) p (nulterminate-Intact line c buf a k)
nulterminate-Intact line (pipecmd l r) buf (a, b) k =
    nulterminate-Intact line r (nulterminate line l buf) b (nulterminate-Intact line l buf a k)
nulterminate-Intact line (listcmd l r) buf (a, b) k =
    nulterminate-Intact line r (nulterminate line l buf) b (nulterminate-Intact line l buf a k)
nulterminate-Intact line (backcmd c) buf a k = nulterminate-Intact line c buf a k

-- The line itself, with its 0.
line-Intact : (line : List ℕ) → Intact line (line ++ 0 ∷ [])
unfolding Intact
line-Intact [] i c t h e f = elim h [ ]
line-Intact (d ∷ ds) i c t same e f = here i (omega (arith, e))
  where
    here : (j : ℕ) → j ≡ 0 → get_or (d ∷ (ds ++ 0 ∷ [])) j 0 ≡ d
    here zero q = refl
    here (suc j) q = absurd (omega (arith, q))
line-Intact (d ∷ ds) i c t (after h) e f =
    later i (omega (arith, e, Tail-length h)) (λ j q. line-Intact ds j c t h q f)
  where
    later :
        (j : ℕ)
        → j ≡ suc (length ds - length (c ∷ t))
        → ((k : ℕ) → k ≡ length ds - length (c ∷ t) → get_or (ds ++ 0 ∷ []) k 0 ≡ c)
        → get_or (d ∷ (ds ++ 0 ∷ [])) j 0 ≡ c
    later zero q r = absurd (omega (arith, q))
    later (suc j) q r = r j (omega (arith, q))

chars : (cs : List ℕ) → All (λ c. 0 < c) cs → (c : ℕ) (t : List ℕ) → Tail cs (c ∷ t) → 0 < c
chars [] a c t h = elim h [ ]
chars (d ∷ ds) (p, a) c t same = p
chars (d ∷ ds) (p, a) c t (after h) = chars ds a c t h

take-none : (n : ℕ) (q : List ℕ) → n ≡ 0 → take n q ≡ []
take-none zero q e = refl
take-none (suc n) q e = absurd (omega (arith, e))

take-more : (n m c : ℕ) (s : List ℕ) → n ≡ suc m → take n (c ∷ s) ≡ c ∷ take m s
take-more zero m c s e = absurd (omega (arith, e))
take-more (suc n) m c s e = ap (λ k. c ∷ take k s) (omega (arith, e))

string_at-Run :
    (line buf : List ℕ)
    → All (λ c. 0 < c) line
    → Intact line buf
    → {q e : List ℕ} → Run q e
    → Tail line q
    → get_or buf (length line - length e) 0 ≡ 0
    → string_at buf (length line - length q) ≡ text (record { q = q; eq = e })
unfolding Intact
string_at-Run line buf a k {q} stop h z = string_at-zero buf _ z ∙ sym (take-none _ q (omega arith))
string_at-Run line buf a k {e = t} (over {c} {s} p r) h z =
    string_at-char buf _ c (chars line a c s h) (k _ c s h refl p)
    ∙ ap (λ u. c ∷ u)
        (ap (string_at buf) (next (Tail-length h))
          ∙ string_at-Run line buf a k r (Tail-trans h (after same)) z)
    ∙ sym (take-more _ (length s - length t) c s (omega (arith, Tail-length (Run-Tail r))))
  where
    next :
        length (c ∷ s) ≤ length line → suc (length line - length (c ∷ s)) ≡ length line - length s
    next l = omega (arith, l)

-- For a line without a 0 of which the parser makes a command, nulterminate makes a string of every word of that
-- command: in the buffer that it leaves, the string that begins where the word begins is the word.
pub nulterminate_lem :
    (line : List ℕ) (c : Cmd Word) (t : List ℕ)
    → All (λ d. 0 < d) line
    → parsecmd line ≡ ok c t
    → Words
        (λ w. string_at (nulterminate line c (line ++ 0 ∷ [])) (length line - length w.q) ≡ text w)
        c
nulterminate_lem line c t a e =
    Words-both c words (nulterminate-Zero line c (line ++ 0 ∷ [])) (λ w p z.
      string_at-Run line _ a (nulterminate-Intact line c _ words (line-Intact line)) p.run p.from z)
  where
    words : Words (IsWord line) c
    words = Fits-Words line c (of_ok e (parsecmd-Good line))
