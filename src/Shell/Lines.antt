-- ===== src/Shell/Lines.antt =====
-- The parser of lab5/xv6-thread/user/sh.c on the lines that Shell/Grammar writes.
use ecnu_oslab.Base.{
  ℕ, zero, suc, ◌≤◌, ◌≡◌, ◌∙◌, refl, sym, subst, arith, List, ◌∷◌, ◌++◌, replicate,
}
use ecnu_oslab.Ulib.{strchr}
use ecnu_oslab.Shell.{Word, Cmd, whitespace, skip, scan, gettoken, starts}
use ecnu_oslab.Shell.Parse.{
  continue, parsebacks, then_list, then_pipe, close_block, parseline, parsepipe, parseexec,
  parseredirs,
}
use ecnu_oslab.Shell.Grammar.{
  Line, last, sequence, Pipeline, alone, piped, Stage, simple, block, write_redirs, write_line,
  write_pipe, write_stage, in_background, line_cmd, pipe_cmd, stage_cmd, IsLine, IsPipeline,
  IsStage,
}
use ecnu_oslab.Shell.Parts.{Yields, parseredirs-Yields, parseredirs-skip}
use ecnu_oslab.Shell.Arguments.{
  Follows, ends_line, ends_pipe, ends_stage, Follows-Stops, Follows-redir, continue-Yields,
}
use ecnu_oslab.Shell.RoundTrip.{
  line_size, pipe_size, stage_size, line-pos, pipe-pos, backs-pipe, line-backs, pipe-stage,
  Follows-backs, parsebacks-skip, parsebacks-Yields, then_pipe-end, then_pipe-bar, then_list-end,
  then_list-semicolon, parsepipe-skip, parseline-skip, simple-Yields,
}

open_block :
    (n : ℕ) (s : List ℕ)
    → parseexec (suc (suc n)) (b'(' ∷ s) ≡ continue (parseline n (skip s)) (close_block n)
unfolding parseline starts skip scan gettoken whitespace strchr
open_block n s = refl

close_bracket :
    (n : ℕ) (c : Cmd Word) (s : List ℕ)
    → close_block n c (skip (b')' ∷ s)) ≡ parseredirs n c (skip s)
unfolding close_block starts skip scan gettoken whitespace strchr
close_bracket n c s = refl

-- The functions of the parser, each on what stands for it in the grammar.
mutual
  unfolding line_size line_cmd write_line IsLine parseline

  pub line-Yields :
      (l : Line) (n : ℕ) (rest : List ℕ)
      → IsLine l
      → Follows ends_line rest
      → line_size l ≤ n
      → Yields (line_cmd l) rest (parseline n (write_line l rest))
  line-Yields l zero rest a f b = absurd (omega (arith, b, line-pos l))
  line-Yields (last p k) (suc n) rest a f b =
      let g = line-backs rest f in
      continue-Yields
        (pipe-Yields p n (replicate k b'&' ++ rest) a (Follows-backs k rest (backs-pipe rest g))
          (omega (arith, b)))
        (λ c t. continue (parsebacks n c t) (then_list (parseline n)))
        (λ c e.
          continue-Yields {m = in_background k (pipe_cmd p)} {s = rest}
            (rw (parsebacks-skip n c (replicate k b'&' ++ rest))
              (parsebacks-Yields k n c _ rest e g (omega (arith, b, pipe-pos p))))
            (then_list (parseline n)) (λ d h. then_list-end (parseline n) d _ rest h f))
  line-Yields (sequence p k l) (suc n) rest (a, a') f b =
      let tail = b';' ∷ write_line l rest in
      continue-Yields
        (pipe-Yields p n (replicate k b'&' ++ tail) a (Follows-backs k tail refl)
          (omega (arith, b)))
        (λ c t. continue (parsebacks n c t) (then_list (parseline n)))
        (λ c e.
          continue-Yields {m = in_background k (pipe_cmd p)} {s = tail}
            (rw (parsebacks-skip n c (replicate k b'&' ++ tail))
              (parsebacks-Yields k n c _ tail e refl (omega (arith, b, pipe-pos p))))
            (then_list (parseline n))
            (λ d h. then_list-semicolon (parseline n) d _ _ (write_line l rest) rest h (
              rw (parseline-skip n (write_line l rest))
                (line-Yields l n rest a' f (omega (arith, b))))))

  pipe-Yields :
      (p : Pipeline) (n : ℕ) (rest : List ℕ)
      → IsPipeline p
      → Follows ends_pipe rest
      → pipe_size p ≤ n
      → Yields (pipe_cmd p) rest (parsepipe n (write_pipe p rest))
  pipe-Yields p zero rest a f b = absurd (omega (arith, b, pipe-pos p))
  pipe-Yields (alone s) (suc n) rest a f b =
      continue-Yields (stage-Yields s n rest a (pipe-stage rest f) (omega (arith, b)))
        (then_pipe (parsepipe n)) (λ c e. then_pipe-end (parsepipe n) c _ rest e f)
  pipe-Yields (piped s p) (suc n) rest (a, a') f b =
      continue-Yields (stage-Yields s n (b'|' ∷ write_pipe p rest) a refl (omega (arith, b)))
        (then_pipe (parsepipe n))
        (λ c e. then_pipe-bar (parsepipe n) c _ _ (write_pipe p rest) rest e (
          rw (parsepipe-skip n (write_pipe p rest)) (pipe-Yields p n rest a' f (omega (arith, b)))))

  stage-Yields :
      (s : Stage) (n : ℕ) (rest : List ℕ)
      → IsStage s
      → Follows ends_stage rest
      → stage_size s ≤ n
      → Yields (stage_cmd s) rest (parseexec n (write_stage s rest))
  stage-Yields (simple rs xs) n rest a f b = simple-Yields rs xs n rest a f b
  stage-Yields (block l rs) zero rest a f b = absurd (omega (arith, b))
  stage-Yields (block l rs) (suc zero) rest a f b = absurd (omega (arith, b))
  stage-Yields (block l rs) (suc (suc n)) rest (a, a') f b =
      let tail = b')' ∷ write_redirs rs rest in
      subst (Yields _ rest) (sym (open_block n (write_line l tail))) (
        continue-Yields {m = line_cmd l} {s = tail}
          (rw (parseline-skip n (write_line l tail))
            (line-Yields l n tail a refl (omega (arith, b))))
          (close_block n)
          (λ c e.
            subst (Yields _ rest)
              (sym (close_bracket n c (write_redirs rs rest) ∙ parseredirs-skip n c _))
              (parseredirs-Yields rs n c _ rest e a' (Follows-Stops rest f) (Follows-redir rest f)
                (omega (arith, b, line-pos l)))))
