-- ===== src/Shell/Arguments.antt =====
-- The arguments that the parser of lab5/xv6-thread/user/sh.c reads from what Shell/Grammar writes.
use ecnu_oslab.Base.{
  ℕ, zero, suc, ◌+◌, ◌≤◌, ◌<◌, ◌≡◌, ◌∙◌, refl, sym, subst, ap, arith, Bool, true, false, ◌||◌, List,
  [], ◌∷◌, ◌++◌, map, length, All, leb, ◌==◌,
}
use ecnu_oslab.Ulib.{strchr}
use ecnu_oslab.Shell.{
  Word, Cmd, execcmd, redircmd, pipecmd, listcmd, backcmd, maxargs, whitespace, symbols, skip, scan,
  gettoken, starts, push_arg, text,
}
use ecnu_oslab.Shell.Parse.{Parsed, continue, with_token, arg_round, parseredirs, parseargs}
use ecnu_oslab.Shell.Reads.{Stops}
use ecnu_oslab.Shell.Grammar.{
  Argument, write_word, write_redirs, write_args, with_args, texts, IsText, IsArgument,
}
use ecnu_oslab.Shell.Parts.{
  Yields, yields, text-write, plain_parts, skip-write, gettoken-word, gettoken-skip,
  parseredirs-skip, parseargs-skip, Stops-redirs, parseredirs-Yields,
}

-- What follows a stage, a pipeline, the ampersands behind it, and a line: nothing, or a character of the test.
abbrev pub Follows : (test : ℕ → Bool) → List ℕ → Type 0
Follows test [] = Unit
Follows test (c ∷ cs) = test c ≡ true

abbrev pub ends_line : ℕ → Bool
ends_line c = c == b')'

abbrev pub ends_backs : ℕ → Bool
ends_backs c = c == b')' || c == b';'

abbrev pub ends_pipe : ℕ → Bool
ends_pipe c = c == b')' || c == b';' || c == b'&'

abbrev pub ends_stage : ℕ → Bool
ends_stage c = c == b')' || c == b';' || c == b'&' || c == b'|'

-- What the tests of the parser say of a character behind a stage.
record Separates (c : ℕ) : Type 0 where
  black : whitespace c ≡ false
  symbol : symbols c ≡ true
  no_redir : starts (b'<' ∷ b'>' ∷ []) (c ∷ []) ≡ false
  no_block : starts (b'(' ∷ []) (c ∷ []) ≡ false
  ends : starts (b'|' ∷ b')' ∷ b'&' ∷ b';' ∷ []) (c ∷ []) ≡ true

ends_stage-Separates : (c : ℕ) → ends_stage c ≡ true → Separates c
unfolding whitespace symbols starts strchr
ends_stage-Separates c e = record {
  black = ground (arith, e);
  symbol = ground (arith, e);
  no_redir = ground (arith, e);
  no_block = ground (arith, e);
  ends = ground (arith, e);
}

pub Follows-Stops : (rest : List ℕ) → Follows ends_stage rest → Stops rest
Follows-Stops [] f = tt
Follows-Stops (c ∷ cs) f = let s = ends_stage-Separates c f in rw (s.black, s.symbol) refl

pub Follows-skip : (rest : List ℕ) → Follows ends_stage rest → skip rest ≡ rest
unfolding skip
Follows-skip [] f = refl
Follows-skip (c ∷ cs) f = rw ((ends_stage-Separates c f).black) refl

pub Follows-redir :
    (rest : List ℕ) → Follows ends_stage rest → starts (b'<' ∷ b'>' ∷ []) (skip rest) ≡ false
unfolding starts
Follows-redir rest f = rw (Follows-skip rest f) (here rest f)
  where
    here : (t : List ℕ) → Follows ends_stage t → starts (b'<' ∷ b'>' ∷ []) t ≡ false
    here [] g = refl
    here (c ∷ cs) g = (ends_stage-Separates c g).no_redir

pub Follows-no_block :
    (rest : List ℕ) → Follows ends_stage rest → starts (b'(' ∷ []) (skip rest) ≡ false
unfolding starts
Follows-no_block rest f = rw (Follows-skip rest f) (here rest f)
  where
    here : (t : List ℕ) → Follows ends_stage t → starts (b'(' ∷ []) t ≡ false
    here [] g = refl
    here (c ∷ cs) g = (ends_stage-Separates c g).no_block

texts-push_arg : (w : Word) (c : Cmd Word) → texts (push_arg w c) ≡ push_arg (text w) (texts c)
unfolding texts push_arg
texts-push_arg w (execcmd argv) = ap execcmd (snoc argv)
  where
    snoc : (ws : List Word) → map text (ws ++ w ∷ []) ≡ map text ws ++ text w ∷ []
    snoc [] = refl
    snoc (x ∷ xs) = ap (λ k. text x ∷ k) (snoc xs)
texts-push_arg w (redircmd c file mode fd) =
    ap (λ k. redircmd k (text file) mode fd) (texts-push_arg w c)
texts-push_arg w (pipecmd l r) = refl
texts-push_arg w (listcmd l r) = refl
texts-push_arg w (backcmd c) = refl

-- The fuel for arguments.
abbrev pub args_size : List Argument → ℕ
args_size [] = 1
args_size (a ∷ xs) = 1 + (length a.redirs + args_size xs)

pub size-pos : (xs : List Argument) → 0 < args_size xs
size-pos [] = omega arith
size-pos (x ∷ xs) = omega arith

arg_step :
    (again : ℕ → Cmd Word → List ℕ → Parsed) (n argc : ℕ) (c : Cmd Word) (t rest : List ℕ)
    (w : Word)
    → starts (b'|' ∷ b')' ∷ b'&' ∷ b';' ∷ []) t ≡ false
    → leb maxargs (argc + 1) ≡ false
    → gettoken t ≡ record { ret = b'a'; word = w; rest = rest }
    → arg_round again n argc c t ≡ continue (parseredirs n (push_arg w c) rest) (again (argc + 1))
arg_step again n argc c t rest w f b g =
    rw (f, arg_round) ((λ k. with_token again n argc c (g k)) ∙ rw (b, with_token) refl)

pub Stops-args : (xs : List Argument) (rest : List ℕ) → Stops rest → Stops (write_args xs rest)
unfolding whitespace strchr
Stops-args [] rest s = s
Stops-args (a ∷ xs) rest s = refl

-- No test that only symbols pass holds at a word.
pub starts-word :
    (toks w rest : List ℕ)
    → ((c : ℕ) → symbols c ≡ false → starts toks (c ∷ []) ≡ false)
    → IsText w
    → starts toks (skip (write_word w rest)) ≡ false
unfolding starts
starts-word toks [] rest h a = elim a [ ]
starts-word toks (c ∷ cs) rest h (p, a) =
    rw (skip-write (c ∷ cs) rest (p, a)) (h c (plain_parts c p).1)

redir_symbol : (c : ℕ) → symbols c ≡ false → starts (b'<' ∷ b'>' ∷ []) (c ∷ []) ≡ false
unfolding symbols starts strchr
redir_symbol c e = ground (arith, e)

end_symbol : (c : ℕ) → symbols c ≡ false → starts (b'|' ∷ b')' ∷ b'&' ∷ b';' ∷ []) (c ∷ []) ≡ false
unfolding symbols starts strchr
end_symbol c e = ground (arith, e)

pub args-no_redir :
    (xs : List Argument) (rest : List ℕ)
    → All IsArgument xs
    → Follows ends_stage rest
    → starts (b'<' ∷ b'>' ∷ []) (skip (write_args xs rest)) ≡ false
args-no_redir [] rest a f = Follows-redir rest f
args-no_redir (x ∷ xs) rest (p, a) f = starts-word _ x.word _ redir_symbol p.0

pub continue-Yields :
    {m m' : Cmd (List ℕ)} {s rest : List ℕ} {r : Parsed}
    → Yields m s r
    → (k : Cmd Word → List ℕ → Parsed)
    → ((c : Cmd Word) → texts c ≡ m → Yields m' rest (k c (skip s)))
    → Yields m' rest (continue r k)
continue-Yields {m' = m'} {rest = rest} (yields {c} e t) k f =
    subst (λ u. Yields m' rest (k c u)) (sym t) (f c e)

pub args-end :
    (n argc : ℕ) (c : Cmd Word) (m : Cmd (List ℕ)) (rest : List ℕ)
    → texts c ≡ m
    → Follows ends_stage rest
    → Yields m rest (parseargs (suc n) argc c rest)
unfolding parseargs starts skip gettoken scan
args-end n argc c m [] e f = yields e refl
args-end n argc c m (d ∷ ds) e f =
    let s = ends_stage-Separates d f in rw (s.black, s.ends, arg_round) (yields e refl)

pub parseargs-Yields :
    (xs : List Argument) (n argc : ℕ) (c : Cmd Word) (m : Cmd (List ℕ)) (rest : List ℕ)
    → texts c ≡ m
    → All IsArgument xs
    → argc + length xs < maxargs
    → Follows ends_stage rest
    → args_size xs ≤ n
    → Yields (with_args xs m) rest (parseargs n argc c (write_args xs rest))
unfolding parseargs
parseargs-Yields [] zero argc c m rest e a b f l = absurd (omega (arith, l))
parseargs-Yields (x ∷ xs) zero argc c m rest e a b f l = absurd (omega (arith, l))
parseargs-Yields [] (suc n) argc c m rest e a b f l = args-end n argc c m rest e f
parseargs-Yields (x ∷ xs) (suc n) argc c m rest e (p, a) b f l = subst (Yields _ rest) (sym step) (
    continue-Yields
      (parseredirs-Yields x.redirs n _ _ tail (texts-push_arg word c ∙ same_push) p.1 stops
        (args-no_redir xs rest a f) (omega (arith, l, size-pos xs)))
      (parseargs n (argc + 1))
      (λ d g.
        rw (parseargs-skip n (argc + 1) d tail)
          (parseargs-Yields xs n (argc + 1) d _ rest g a (omega (arith, b)) f (omega (arith, l)))))
  where
    tail : List ℕ
    tail = write_args xs rest

    behind : List ℕ
    behind = write_redirs x.redirs tail

    stops : Stops tail
    stops = Stops-args xs rest (Follows-Stops rest f)

    word : Word
    word = record { q = x.word ++ behind; eq = behind }

    same_push : push_arg (text word) (texts c) ≡ push_arg x.word m
    same_push k = push_arg (text-write x.word behind k) (e k)

    step :
        parseargs (suc n) argc c (write_word x.word behind)
        ≡ continue (parseredirs n (push_arg word c) behind) (parseargs n (argc + 1))
    step =
        arg_step (parseargs n) n argc c (skip (write_word x.word behind)) (skip behind) word
          (starts-word _ x.word behind end_symbol p.0) (ground (arith, b))
          (gettoken-skip _ ∙ gettoken-word x.word behind p.0 (Stops-redirs x.redirs tail stops))
        ∙ ap (λ r. continue r (parseargs n (argc + 1)))
            (parseredirs-skip n (push_arg word c) behind)
