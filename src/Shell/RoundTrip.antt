-- ===== src/Shell/RoundTrip.antt =====
-- The tests of the parser of lab5/xv6-thread/user/sh.c between the stages that Shell/Grammar writes.
use ecnu_oslab.Base.{
  ℕ, zero, suc, ◌+◌, ◌≤◌, ◌<◌, ◌≡◌, refl, ap, arith, true, false, List, [], ◌∷◌, ◌++◌, length, All,
  replicate,
}
use ecnu_oslab.Ulib.{strchr}
use ecnu_oslab.Shell.{
  Word, Cmd, execcmd, pipecmd, listcmd, backcmd, whitespace, symbols, skip, scan, gettoken, starts,
}
use ecnu_oslab.Shell.Parse.{
  Parsed, ok, continue, parsebacks, then_list, then_pipe, parseline, parsepipe, parseblock,
  parseexec, parseredirs, parseargs,
}
use ecnu_oslab.Shell.Reads.{skip_twice}
use ecnu_oslab.Shell.Grammar.{
  Redirection, Argument, Line, last, sequence, Pipeline, alone, piped, Stage, simple, block, Op,
  input, output, append, write_op, write_redirs, write_args, write_line, write_stage, redirected,
  in_background, line_cmd, stage_cmd, texts, IsArgument, IsLine, IsStage,
}
use ecnu_oslab.Shell.Parts.{Yields, yields, parseredirs-Yields, parseredirs-skip, parseargs-skip}
use ecnu_oslab.Shell.Arguments.{
  Follows, ends_line, ends_backs, ends_pipe, ends_stage, Follows-Stops, Follows-skip,
  Follows-no_block, starts-word, args_size, size-pos, continue-Yields, parseargs-Yields,
  args-no_redir, Stops-args,
}

-- Fuel that is enough for a line.
unfoldable mutual
  pub line_size : Line → ℕ
  line_size (last p n) = 1 + (pipe_size p + n)
  line_size (sequence p n l) = 1 + (pipe_size p + n + line_size l)

  pub pipe_size : Pipeline → ℕ
  pipe_size (alone s) = 1 + stage_size s
  pipe_size (piped s p) = 1 + (stage_size s + pipe_size p)

  pub stage_size : Stage → ℕ
  stage_size (simple rs xs) = 1 + (length rs + args_size xs)
  stage_size (block l rs) = 2 + (line_size l + length rs)

pub line-pos : (l : Line) → 0 < line_size l
unfolding line_size
line-pos (last p n) = omega arith
line-pos (sequence p n l) = omega arith

pub pipe-pos : (p : Pipeline) → 0 < pipe_size p
unfolding line_size
pipe-pos (alone s) = omega arith
pipe-pos (piped s p) = omega arith

-- The tests widen.
pub backs-pipe : (s : List ℕ) → Follows ends_backs s → Follows ends_pipe s
backs-pipe [] f = tt
backs-pipe (c ∷ cs) f = ground (arith, f)

pub line-backs : (s : List ℕ) → Follows ends_line s → Follows ends_backs s
line-backs [] f = tt
line-backs (c ∷ cs) f = ground (arith, f)

pub pipe-stage : (s : List ℕ) → Follows ends_pipe s → Follows ends_stage s
pipe-stage [] f = tt
pipe-stage (c ∷ cs) f = ground (arith, f)

pub Follows-backs :
    (n : ℕ) (s : List ℕ) → Follows ends_pipe s → Follows ends_pipe (replicate n b'&' ++ s)
Follows-backs zero s f = f
Follows-backs (suc n) s f = refl

-- What the tests of the parser say there.
no_bar : (s : List ℕ) → Follows ends_pipe s → starts (b'|' ∷ []) s ≡ false
unfolding starts strchr
no_bar [] f = refl
no_bar (c ∷ cs) f = ground (arith, f)

no_ampersand : (s : List ℕ) → Follows ends_backs s → starts (b'&' ∷ []) s ≡ false
unfolding starts strchr
no_ampersand [] f = refl
no_ampersand (c ∷ cs) f = ground (arith, f)

no_semicolon : (s : List ℕ) → Follows ends_line s → starts (b';' ∷ []) s ≡ false
unfolding starts strchr
no_semicolon [] f = refl
no_semicolon (c ∷ cs) f = ground (arith, f)

pub parsebacks-skip :
    (n : ℕ) (c : Cmd Word) (s : List ℕ) → parsebacks n c (skip s) ≡ parsebacks n c s
unfolding parsebacks
parsebacks-skip zero c s = refl
parsebacks-skip (suc n) c s = ap round (skip_twice s)
  where
    round : List ℕ → Parsed
    round t = elim (starts (b'&' ∷ []) t) [
      | true ↦ parsebacks n (backcmd c) (gettoken t).rest
      | false ↦ ok c t
    ]

parsebacks-end :
    (n : ℕ) (c : Cmd Word) (m : Cmd (List ℕ)) (rest : List ℕ)
    → texts c ≡ m
    → Follows ends_backs rest
    → Yields m rest (parsebacks (suc n) c rest)
unfolding parsebacks
parsebacks-end n c m rest e f =
    rw (Follows-skip rest (pipe-stage rest (backs-pipe rest f)), no_ampersand rest f, parsebacks)
      (yields e refl)

pub parsebacks-Yields :
    (k n : ℕ) (c : Cmd Word) (m : Cmd (List ℕ)) (rest : List ℕ)
    → texts c ≡ m
    → Follows ends_backs rest
    → k < n
    → Yields (in_background k m) rest (parsebacks n c (replicate k b'&' ++ rest))
unfolding parsebacks starts skip scan gettoken whitespace strchr texts
parsebacks-Yields k zero c m rest e f l = absurd (omega (arith, l))
parsebacks-Yields zero (suc n) c m rest e f l = parsebacks-end n c m rest e f
parsebacks-Yields (suc k) (suc n) c m rest e f l =
    rw (parsebacks-skip n (backcmd c) (replicate k b'&' ++ rest))
      (parsebacks-Yields k n (backcmd c) (backcmd m) rest (ap backcmd e) f (omega (arith, l)))

-- Behind a stage.
pub then_pipe-end :
    (k : List ℕ → Parsed) (c : Cmd Word) (m : Cmd (List ℕ)) (s : List ℕ)
    → texts c ≡ m
    → Follows ends_pipe s
    → Yields m s (then_pipe k c (skip s))
unfolding then_pipe
then_pipe-end k c m s e f =
    rw (skip_twice s, Follows-skip s (pipe-stage s f), no_bar s f, then_pipe)
      (yields e (skip_twice s))

pub then_pipe-bar :
    (k : List ℕ → Parsed) (c : Cmd Word) (m m' : Cmd (List ℕ)) (s rest : List ℕ)
    → texts c ≡ m
    → Yields m' rest (k (skip s))
    → Yields (pipecmd m m') rest (then_pipe k c (skip (b'|' ∷ s)))
unfolding then_pipe starts skip scan gettoken whitespace strchr texts
then_pipe-bar k c m m' s rest e y =
    continue-Yields y (λ r u. ok (pipecmd c r) u) (λ d g. yields (λ i. pipecmd (e i) (g i)) refl)

-- Behind the ampersands.
pub then_list-end :
    (k : List ℕ → Parsed) (c : Cmd Word) (m : Cmd (List ℕ)) (s : List ℕ)
    → texts c ≡ m
    → Follows ends_line s
    → Yields m s (then_list k c (skip s))
unfolding then_list
then_list-end k c m s e f =
    let skipped = Follows-skip s (pipe-stage s (backs-pipe s (line-backs s f))) in
    rw (skip_twice s, skipped, no_semicolon s f, then_list) (yields e (skip_twice s))

pub then_list-semicolon :
    (k : List ℕ → Parsed) (c : Cmd Word) (m m' : Cmd (List ℕ)) (s rest : List ℕ)
    → texts c ≡ m
    → Yields m' rest (k (skip s))
    → Yields (listcmd m m') rest (then_list k c (skip (b';' ∷ s)))
unfolding then_list starts skip scan gettoken whitespace strchr texts
then_list-semicolon k c m m' s rest e y =
    continue-Yields y (λ r u. ok (listcmd c r) u) (λ d g. yields (λ i. listcmd (e i) (g i)) refl)

-- The functions of the parser skip white space first.
parseexec-skip : (n : ℕ) (s : List ℕ) → parseexec n (skip s) ≡ parseexec n s
unfolding parseline
parseexec-skip zero s = refl
parseexec-skip (suc n) s = ap round (skip_twice s)
  where
    round : List ℕ → Parsed
    round t = elim (starts (b'(' ∷ []) t) [
      | true ↦ parseblock n t
      | false ↦ continue (parseredirs n (execcmd []) t) (parseargs n 0)
    ]

pub parsepipe-skip : (n : ℕ) (s : List ℕ) → parsepipe n (skip s) ≡ parsepipe n s
unfolding parseline
parsepipe-skip zero s = refl
parsepipe-skip (suc n) s = ap (λ r. continue r (then_pipe (parsepipe n))) (parseexec-skip n s)

pub parseline-skip : (n : ℕ) (s : List ℕ) → parseline n (skip s) ≡ parseline n s
unfolding parseline
parseline-skip zero s = refl
parseline-skip (suc n) s =
    ap (λ r. continue r (λ c t. continue (parsebacks n c t) (then_list (parseline n))))
      (parsepipe-skip n s)

-- A stage without a bracket.
block_symbol : (c : ℕ) → symbols c ≡ false → starts (b'(' ∷ []) (c ∷ []) ≡ false
unfolding symbols starts strchr
block_symbol c e = ground (arith, e)

op-no_block : (o : Op) (s : List ℕ) → starts (b'(' ∷ []) (skip (write_op o s)) ≡ false
unfolding starts skip whitespace strchr
op-no_block input s = refl
op-no_block output s = refl
op-no_block append s = refl

stage-no_block :
    (rs : List Redirection) (xs : List Argument) (rest : List ℕ)
    → All IsArgument xs
    → Follows ends_stage rest
    → starts (b'(' ∷ []) (skip (write_redirs rs (write_args xs rest))) ≡ false
stage-no_block [] [] rest a f = Follows-no_block rest f
stage-no_block [] (x ∷ xs) rest (p, a) f = starts-word _ x.word _ block_symbol p.0
stage-no_block (r ∷ rs) xs rest a f = op-no_block r.op _

pub simple-Yields :
    (rs : List Redirection) (xs : List Argument) (n : ℕ) (rest : List ℕ)
    → IsStage (simple rs xs)
    → Follows ends_stage rest
    → 1 + (length rs + args_size xs) ≤ n
    → Yields (stage_cmd (simple rs xs)) rest (parseexec n (write_stage (simple rs xs) rest))
unfolding parseline IsLine line_cmd write_line texts
simple-Yields rs xs zero rest (a, b, c) f l = absurd (omega (arith, l))
simple-Yields rs xs (suc n) rest (a, b, c) f l =
    rw (stage-no_block rs xs rest b f, parseexec)
      (continue-Yields {m = redirected rs (execcmd [])} {s = write_args xs rest}
        (rw (parseredirs-skip n (execcmd []) (write_redirs rs (write_args xs rest))) (
          parseredirs-Yields rs n (execcmd []) (execcmd []) (write_args xs rest) refl a
            (Stops-args xs rest (Follows-Stops rest f)) (args-no_redir xs rest b f)
            (omega (arith, l, size-pos xs))))
        (parseargs n 0)
        (λ d g.
          rw (parseargs-skip n 0 d (write_args xs rest))
            (parseargs-Yields xs n 0 d _ rest g b (omega (arith, c)) f (omega (arith, l)))))
