-- ===== src/Shell/Printed.antt =====
-- parsecmd of lab5/xv6-thread/user/sh.c on a whole line that Shell/Grammar writes.
use ecnu_oslab.Base.{
  ℕ, zero, suc, ◌+◌, ◌*◌, ◌≤◌, ◌≡◌, arith, List, [], ◌∷◌, ◌++◌, length, replicate, length-append,
}
use ecnu_oslab.Shell.Grammar.{
  Op, input, output, append, Redirection, Argument, Line, last, sequence, Pipeline, alone, piped,
  Stage, simple, block, write_op, write_word, write_redirs, write_args, write_line, write_pipe,
  write_stage,
}
use ecnu_oslab.Shell.Arguments.{args_size}
use ecnu_oslab.Shell.RoundTrip.{line_size, pipe_size, stage_size}

length-write_word : (w rest : List ℕ) → length rest + 1 ≤ length (write_word w rest)
length-write_word w rest = omega (arith, length-append w rest)

length-write_op : (o : Op) (s : List ℕ) → length s + 1 ≤ length (write_op o s)
length-write_op input s = omega arith
length-write_op output s = omega arith
length-write_op append s = omega arith

length-write_redirs :
    (rs : List Redirection) (rest : List ℕ)
    → length rs + length rest ≤ length (write_redirs rs rest)
length-write_redirs [] rest = omega arith
length-write_redirs (r ∷ rs) rest = omega (
  arith,
  length-write_op r.op (write_word r.file (write_redirs rs rest)),
  length-write_word r.file (write_redirs rs rest),
  length-write_redirs rs rest,
)

args_size-bound :
    (xs : List Argument) (rest : List ℕ)
    → args_size xs + 4 * length rest ≤ 4 * length (write_args xs rest) + 1
args_size-bound [] rest = omega arith
args_size-bound (x ∷ xs) rest = omega (
  arith,
  length-write_word x.word (write_redirs x.redirs (write_args xs rest)),
  length-write_redirs x.redirs (write_args xs rest),
  args_size-bound xs rest,
)

length-amps : (n : ℕ) (s : List ℕ) → length (replicate n b'&' ++ s) ≡ n + length s
length-amps zero s = omega arith
length-amps (suc n) s = omega (arith, length-amps n s)

-- The fuel of parsecmd is enough for the line.
mutual
  unfolding line_size write_line

  line_size-bound :
      (l : Line) (rest : List ℕ)
      → line_size l + 4 * length rest ≤ 4 * length (write_line l rest) + 4
  line_size-bound (last p n) rest =
      omega (arith, pipe_size-bound p (replicate n b'&' ++ rest), length-amps n rest)
  line_size-bound (sequence p n l) rest = omega (
    arith,
    pipe_size-bound p (replicate n b'&' ++ b';' ∷ write_line l rest),
    length-amps n (b';' ∷ write_line l rest),
    line_size-bound l rest,
  )

  pipe_size-bound :
      (p : Pipeline) (rest : List ℕ)
      → pipe_size p + 4 * length rest ≤ 4 * length (write_pipe p rest) + 3
  pipe_size-bound (alone s) rest = omega (arith, stage_size-bound s rest)
  pipe_size-bound (piped s p) rest =
      omega (arith, stage_size-bound s (b'|' ∷ write_pipe p rest), pipe_size-bound p rest)

  stage_size-bound :
      (s : Stage) (rest : List ℕ)
      → stage_size s + 4 * length rest ≤ 4 * length (write_stage s rest) + 2
  stage_size-bound (simple rs xs) rest =
      omega (arith, length-write_redirs rs (write_args xs rest), args_size-bound xs rest)
  stage_size-bound (block l rs) rest =
      omega (arith, line_size-bound l (b')' ∷ write_redirs rs rest), length-write_redirs rs rest)
