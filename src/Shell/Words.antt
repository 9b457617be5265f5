-- ===== src/Shell/Words.antt =====
-- The words of the commands that the parser of lab5/xv6-thread/user/sh.c returns: redirections and arguments.
use ecnu_oslab.Base.{
  ℕ, zero, suc, ◌+◌, ◌≤◌, ◌<◌, ◌≡◌, ◌≢◌, inl, inr, arith, true, false, List, [], ◌∷◌, ◌++◌, length,
  All, leb, ◌==◌, Bool-cases, length-append,
}
use ecnu_oslab.Shell.{
  Word, Cmd, execcmd, redircmd, pipecmd, listcmd, backcmd, Token, maxargs, skip, gettoken, starts,
  push_arg,
}
use ecnu_oslab.Shell.Parse.{
  Message, no_block, missing_file, syntax, too_many_args, Parsed, ok, panic, continue, redirect,
  redir_round, parseredirs, with_token, arg_round, parseargs,
}
use ecnu_oslab.Shell.Reads.{
  Tail, Tail-trans, Tail-length, IsWord, Taken, skip-Tail, gettoken-Taken, starts-gettoken,
}

-- Every word of the command is a word of the line, every argv has room for the 0 at its end, and
-- descriptor 0 or 1 is redirected.
abbrev pub Fits : (line : List ℕ) → Cmd Word → Type 0
Fits line (execcmd argv) = All (IsWord line) argv × (length argv < maxargs)
Fits line (redircmd cmd file mode fd) = Fits line cmd × IsWord line file × (fd < 2)
Fits line (pipecmd l r) = Fits line l × Fits line r
Fits line (listcmd l r) = Fits line l × Fits line r
Fits line (backcmd cmd) = Fits line cmd

-- Redirections around an execcmd with n arguments.
abbrev pub Simple : (line : List ℕ) → (n : ℕ) → Cmd Word → Type 0
Simple line n (execcmd argv) = All (IsWord line) argv × (length argv ≡ n)
Simple line n (redircmd cmd file mode fd) = Simple line n cmd × IsWord line file × (fd < 2)
Simple line n _ = ⊥

-- A result for what is left of the line, s: the command is as P asks, and the rest is not longer than s. The
-- parser does not run out of fuel, and does not ask for a block without a bracket.
pub data Good (P : Cmd Word → Type 0) (line s : List ℕ) : Parsed → Type 0 where
  fits :
      {c : Cmd Word} {t : List ℕ} → P c → Tail line t → length t ≤ length s → Good P line s (ok c t)
  refused : {m : Message} → m ≢ no_block → Good P line s (panic m)

pub continue-Good :
    {P Q : Cmd Word → Type 0} {line s s' : List ℕ} {r : Parsed} {k : Cmd Word → List ℕ → Parsed}
    → Good P line s r
    → ((c : Cmd Word) (t : List ℕ)
        → P c
        → Tail line t
        → length t ≤ length s
        → Good Q line s' (k c t))
    → Good Q line s' (continue r k)
continue-Good (fits {c} {t} p h l) g = g c t p h l
continue-Good (refused p) g = refused p

pub weaken :
    {P Q : Cmd Word → Type 0} {line s s' : List ℕ} {r : Parsed}
    → ((c : Cmd Word) → P c → Q c)
    → length s ≤ length s'
    → Good P line s r
    → Good Q line s' r
weaken f m (fits {c} p h l) = fits (f c p) h (omega (arith, l, m))
weaken f m (refused p) = refused p

-- For a property that both kinds of command have: it survives a redirection.
abbrev Redirects : (line : List ℕ) → (Cmd Word → Type 0) → Type 0
Redirects line P =
    (c : Cmd Word) (w : Word) (mode fd : ℕ)
    → P c
    → IsWord line w
    → fd < 2
    → P (redircmd c w mode fd)

redirect-keeps :
    {P : Cmd Word → Type 0} (line : List ℕ)
    → Redirects line P
    → (tok : ℕ) (c : Cmd Word) (w : Word) → P c
    → IsWord line w
    → P (redirect tok c w)
redirect-keeps line f tok c w p q = elim (Bool-cases (tok == b'<')) [
  | inl t ↦ rw t (f c w _ _ p q (omega arith))
  | inr t ↦ elim (Bool-cases (tok == b'>')) [
    | inl u ↦ rw (t, u) (f c w _ _ p q (omega arith))
    | inr u ↦ elim (Bool-cases (tok == b'+')) [
      | inl v ↦ rw (t, u, v) (f c w _ _ p q (omega arith))
      | inr v ↦ rw (t, u, v) p
    ]
  ]
]

-- What a token takes where peek found one of its characters.
pub record Next (line s : List ℕ) (t : Token) : Type 0 where
  pub tail : Tail line t.rest
  pub less : length t.rest < length s

pub gettoken-Next :
    (toks line s : List ℕ)
    → Tail line s
    → starts toks (skip s) ≡ true
    → Next line s (gettoken (skip s))
gettoken-Next toks line s h e =
    let t = gettoken-Taken line (skip s) (Tail-trans h (skip-Tail s)) in
    record {
      tail = t.tail;
      less = omega (arith, t.less (starts-gettoken toks s e), Tail-length (skip-Tail s));
    }

==-ℕ : (a b : ℕ) → (a == b) ≡ true → a ≡ b
==-ℕ a b e = ground (arith, e)

-- What a loop does with the rest of the line, if the rest is shorter.
abbrev Later : (P Q : Cmd Word → Type 0) → (line s : List ℕ) → (Cmd Word → List ℕ → Parsed) → Type 0
Later P Q line s k =
    (c : Cmd Word) (t : List ℕ) → P c → Tail line t → length t < length s → Good Q line s (k c t)

file-Good :
    {P : Cmd Word → Type 0} (line s : List ℕ) (c : Cmd Word) (op : Token)
    (k : Cmd Word → List ℕ → Parsed)
    → Redirects line P
    → P c
    → Next line s op
    → Later P P line s k
    → Good P line s (elim ((gettoken op.rest).ret == b'a') [
      | false ↦ panic missing_file
      | true ↦ k (redirect op.ret c (gettoken op.rest).word) (gettoken op.rest).rest
    ])
file-Good line s c op k f p o later = elim (Bool-cases ((gettoken op.rest).ret == b'a')) [
  | inr e ↦ rw e (refused (λ q. missing_file-no_block q))
  | inl e ↦ rw e (
      later _ _ (redirect-keeps line f op.ret c _ p (file.word (==-ℕ _ _ e))) file.tail
        (omega (arith, file.most, o.less)))
]
  where
    file : Taken line op.rest (gettoken op.rest)
    file = gettoken-Taken line op.rest o.tail

    missing_file-no_block : missing_file ≢ no_block
    missing_file-no_block q = ground (arith, q)

pub parseredirs-Good :
    {P : Cmd Word → Type 0} (line : List ℕ)
    → Redirects line P
    → (n : ℕ) (c : Cmd Word) (s : List ℕ) → P c
    → Tail line s
    → length s < n
    → Good P line s (parseredirs n c s)
unfolding parseredirs
parseredirs-Good line f zero c s p h l = absurd (omega (arith, l))
parseredirs-Good line f (suc n) c s p h l = elim (Bool-cases (starts (b'<' ∷ b'>' ∷ []) (skip s))) [
  | inr e ↦
      rw (e, parseredirs, redir_round)
        (fits p (Tail-trans h (skip-Tail s)) (Tail-length (skip-Tail s)))
  | inl e ↦
      rw (e, parseredirs, redir_round)
        (file-Good line s c (gettoken (skip s)) _ f p (gettoken-Next _ line s h e) (λ c' t p' h' l'.
          weaken (λ d q. q) (omega (arith, l'))
            (parseredirs-Good line f n c' t p' h' (omega (arith, l, l')))))
]

All-snoc : (P : Word → Type 0) (w : Word) (ws : List Word) → All P ws → P w → All P (ws ++ w ∷ [])
All-snoc P w [] a p = (p, tt)
All-snoc P w (x ∷ xs) (q, a) p = (q, All-snoc P w xs a p)

push_arg-Simple :
    (line : List ℕ) (w : Word) (n : ℕ) (c : Cmd Word)
    → Simple line n c
    → IsWord line w
    → Simple line (n + 1) (push_arg w c)
unfolding push_arg
push_arg-Simple line w n (execcmd argv) (a, l) p =
    (All-snoc _ w argv a p, omega (arith, l, length-append argv (w ∷ [])))
push_arg-Simple line w n (redircmd c file mode fd) (a, q, l) p =
    (push_arg-Simple line w n c a p, q, l)
push_arg-Simple line w n (pipecmd l r) a p = a
push_arg-Simple line w n (listcmd l r) a p = a
push_arg-Simple line w n (backcmd c) a p = a

Simple-Fits : (line : List ℕ) (n : ℕ) → n < maxargs → (c : Cmd Word) → Simple line n c → Fits line c
Simple-Fits line n l (execcmd argv) (a, e) = (a, omega (arith, l, e))
Simple-Fits line n l (redircmd c file mode fd) (a, q, h) = (Simple-Fits line n l c a, q, h)
Simple-Fits line n l (pipecmd a b) p = elim p [ ]
Simple-Fits line n l (listcmd a b) p = elim p [ ]
Simple-Fits line n l (backcmd c) p = elim p [ ]

pub parseargs-Good :
    (line : List ℕ) (n argc : ℕ) (c : Cmd Word) (s : List ℕ)
    → argc < maxargs
    → Simple line argc c
    → Tail line s
    → length s < n
    → Good (Fits line) line s (parseargs n argc c s)
unfolding parseargs
parseargs-Good line zero argc c s b p h l = absurd (omega (arith, l))
parseargs-Good line (suc n) argc c s b p h l =
    elim (Bool-cases (starts (b'|' ∷ b')' ∷ b'&' ∷ b';' ∷ []) (skip s))) [
      | inl e ↦
          rw (e, parseargs, arg_round, with_token)
            (fits (Simple-Fits line argc b c p) (Tail-trans h (skip-Tail s))
              (Tail-length (skip-Tail s)))
      | inr e ↦ elim (Bool-cases ((gettoken (skip s)).ret == 0)) [
        | inl u ↦
            rw (e, u, parseargs, arg_round, with_token)
              (fits (Simple-Fits line argc b c p) tok.tail
                (omega (arith, tok.most, Tail-length (skip-Tail s))))
        | inr u ↦ elim (Bool-cases ((gettoken (skip s)).ret == b'a')) [
          | inr v ↦ rw (e, u, v, parseargs, arg_round, with_token) (refused syntax-no_block)
          | inl v ↦ elim (Bool-cases (leb maxargs (argc + 1))) [
            | inl w ↦ rw (e, u, v, w, parseargs, arg_round, with_token) (refused many-no_block)
            | inr w ↦
                rw (e, u, v, w, parseargs, arg_round, with_token)
                  (continue-Good
                    (parseredirs-Good line (λ d x m f q y z. (q, y, z)) n _ _
                      (push_arg-Simple line _ argc c p (tok.word (==-ℕ _ _ v))) tok.tail
                      (omega (arith, l, shorter u)))
                    (λ d t q g m.
                      weaken (λ x y. y) (omega (arith, m, shorter u))
                        (parseargs-Good line n (argc + 1) d t (ground (arith, w)) q g
                          (omega (arith, l, m, shorter u)))))
          ]
        ]
      ]
    ]
  where
    tok : Taken line (skip s) (gettoken (skip s))
    tok = gettoken-Taken line (skip s) (Tail-trans h (skip-Tail s))

    shorter : ((gettoken (skip s)).ret == 0) ≡ false → length (gettoken (skip s)).rest < length s
    shorter u = omega (arith, tok.less (λ q. ground (arith, q, u)), Tail-length (skip-Tail s))

    syntax-no_block : syntax ≢ no_block
    syntax-no_block q = ground (arith, q)

    many-no_block : too_many_args ≢ no_block
    many-no_block q = ground (arith, q)
