-- ===== src/Shell/Grammar.antt =====
-- The grammar of the command lines that the shell of lab5/xv6-thread/user/sh.c takes, a way to
-- write them, and the commands that they stand for.
use ecnu_oslab.Base.{
  ℕ, zero, suc, ◌+◌, ◌<◌, ◌≡◌, false, ◌||◌, List, [], ◌∷◌, ◌++◌, map, length, All, replicate,
}
use ecnu_oslab.Shell.{
  Word, Cmd, execcmd, redircmd, pipecmd, listcmd, backcmd, maxargs, o_rdonly, o_wronly, o_create,
  whitespace, symbols, push_arg, text,
}

pub data Op : Type 0 where
  input output append : Op

pub record Redirection : Type 0 where
  pub op : Op
  pub file : List ℕ

-- An argument and the redirections behind it.
pub record Argument : Type 0 where
  pub word : List ℕ
  pub redirs : List Redirection

mutual
  -- A pipeline and its ampersands, up to the end of the line or to a semicolon.
  pub data Line : Type 0 where
    last : Pipeline → (backs : ℕ) → Line
    sequence : Pipeline → (backs : ℕ) → Line → Line

  pub data Pipeline : Type 0 where
    alone : Stage → Pipeline
    piped : Stage → Pipeline → Pipeline

  pub data Stage : Type 0 where
    simple : List Redirection → List Argument → Stage
    block : Line → List Redirection → Stage

-- Each function writes in front of `rest`.
abbrev pub write_word : List ℕ → (rest : List ℕ) → List ℕ
write_word w rest = b' ' ∷ (w ++ rest)

abbrev pub write_op : Op → (rest : List ℕ) → List ℕ
write_op input rest = b'<' ∷ rest
write_op output rest = b'>' ∷ rest
write_op append rest = b'>' ∷ b'>' ∷ rest

abbrev pub write_redirs : List Redirection → (rest : List ℕ) → List ℕ
write_redirs [] rest = rest
write_redirs (r ∷ rs) rest = write_op r.op (write_word r.file (write_redirs rs rest))

abbrev pub write_args : List Argument → (rest : List ℕ) → List ℕ
write_args [] rest = rest
write_args (a ∷ xs) rest = write_word a.word (write_redirs a.redirs (write_args xs rest))

unfoldable mutual
  pub write_line : Line → (rest : List ℕ) → List ℕ
  write_line (last p n) rest = write_pipe p (replicate n b'&' ++ rest)
  write_line (sequence p n l) rest = write_pipe p (replicate n b'&' ++ b';' ∷ write_line l rest)

  pub write_pipe : Pipeline → (rest : List ℕ) → List ℕ
  write_pipe (alone s) rest = write_stage s rest
  write_pipe (piped s p) rest = write_stage s (b'|' ∷ write_pipe p rest)

  pub write_stage : Stage → (rest : List ℕ) → List ℕ
  write_stage (simple rs xs) rest = write_redirs rs (write_args xs rest)
  write_stage (block l rs) rest = b'(' ∷ write_line l (b')' ∷ write_redirs rs rest)

-- The commands, on texts.
abbrev pub with_op : Op → (file : List ℕ) → Cmd (List ℕ) → Cmd (List ℕ)
with_op input file c = redircmd c file o_rdonly 0
with_op _ file c = redircmd c file (o_wronly + o_create) 1

abbrev pub redirected : List Redirection → Cmd (List ℕ) → Cmd (List ℕ)
redirected [] c = c
redirected (r ∷ rs) c = redirected rs (with_op r.op r.file c)

abbrev pub with_args : List Argument → Cmd (List ℕ) → Cmd (List ℕ)
with_args [] c = c
with_args (a ∷ xs) c = with_args xs (redirected a.redirs (push_arg a.word c))

abbrev pub in_background : ℕ → Cmd (List ℕ) → Cmd (List ℕ)
in_background zero c = c
in_background (suc n) c = in_background n (backcmd c)

unfoldable mutual
  pub line_cmd : Line → Cmd (List ℕ)
  line_cmd (last p n) = in_background n (pipe_cmd p)
  line_cmd (sequence p n l) = listcmd (in_background n (pipe_cmd p)) (line_cmd l)

  pub pipe_cmd : Pipeline → Cmd (List ℕ)
  pipe_cmd (alone s) = stage_cmd s
  pipe_cmd (piped s p) = pipecmd (stage_cmd s) (pipe_cmd p)

  pub stage_cmd : Stage → Cmd (List ℕ)
  stage_cmd (simple rs xs) = with_args xs (redirected rs (execcmd []))
  stage_cmd (block l rs) = redirected rs (line_cmd l)

unfoldable pub texts : Cmd Word → Cmd (List ℕ)
texts (execcmd argv) = execcmd (map text argv)
texts (redircmd c file mode fd) = redircmd (texts c) (text file) mode fd
texts (pipecmd l r) = pipecmd (texts l) (texts r)
texts (listcmd l r) = listcmd (texts l) (texts r)
texts (backcmd c) = backcmd (texts c)

-- A word that can be written: not empty, and without white space and symbols.
abbrev pub IsText : List ℕ → Type 0
IsText [] = ⊥
IsText (c ∷ cs) = All (λ d. (whitespace d || symbols d) ≡ false) (c ∷ cs)

abbrev pub AreTexts : List Redirection → Type 0
AreTexts rs = All (λ (r : Redirection). IsText r.file) rs

abbrev pub IsArgument : Argument → Type 0
IsArgument a = IsText a.word × AreTexts a.redirs

-- Its words can be written, and each command has fewer than ten arguments.
unfoldable mutual
  pub IsLine : Line → Type 0
  IsLine (last p n) = IsPipeline p
  IsLine (sequence p n l) = IsPipeline p × IsLine l

  pub IsPipeline : Pipeline → Type 0
  IsPipeline (alone s) = IsStage s
  IsPipeline (piped s p) = IsStage s × IsPipeline p

  pub IsStage : Stage → Type 0
  IsStage (simple rs xs) = AreTexts rs × All IsArgument xs × (length xs < maxargs)
  IsStage (block l rs) = IsLine l × AreTexts rs
