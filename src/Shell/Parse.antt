-- ===== src/Shell/Parse.antt =====
-- lab5/xv6-thread/user/sh.c: the parser of the shell. Each function returns its command and what it
-- leaves of the line. Fuel bounds the calls and the rounds of loops.
use ecnu_oslab.Base.{
  ℕ, zero, suc, ◌+◌, ◌*◌, true, false, List, [], ◌∷◌, length, leb, ◌==◌, if◌then◌else◌,
}
use ecnu_oslab.Shell.{
  Word, Cmd, execcmd, redircmd, pipecmd, listcmd, backcmd, maxargs, o_rdonly, o_wronly, o_create,
  Token, gettoken, starts, skip, peek, push_arg,
}

pub data Message : Type 0 where
  leftovers missing_file no_block missing_paren syntax too_many_args : Message

-- panic prints the message and ends the process; `unfinished` is the end of the fuel.
pub data Parsed : Type 0 where
  ok : Cmd Word → (rest : List ℕ) → Parsed
  panic : Message → Parsed
  unfinished : Parsed

abbrev pub continue : Parsed → (Cmd Word → List ℕ → Parsed) → Parsed
continue (ok c t) k = k c t
continue (panic m) k = panic m
continue unfinished k = unfinished

-- switch(tok)
abbrev pub redirect : {W : Type 0} → (tok : ℕ) → Cmd W → W → Cmd W
redirect tok cmd file =
    if tok == b'<'
    then redircmd cmd file o_rdonly 0
    else if tok == b'>'
    then redircmd cmd file (o_wronly + o_create) 1
    else if tok == b'+'
    then redircmd cmd file (o_wronly + o_create) 1
    else cmd

-- A round of the loop of parseredirs: behind the operator, and at what peek leaves. Then the loop.
abbrev pub with_file :
    (again : Cmd Word → List ℕ → Parsed) → Cmd Word → (op : ℕ) → (file : Token) → Parsed
with_file again cmd op file = elim (file.ret == b'a') [
  | false ↦ panic missing_file
  | true ↦ again (redirect op cmd file.word) file.rest
]

abbrev pub redir_round : (again : Cmd Word → List ℕ → Parsed) → Cmd Word → List ℕ → Parsed
redir_round again cmd t = elim (starts (b'<' ∷ b'>' ∷ []) t) [
  | false ↦ ok cmd t
  | true ↦ with_file again cmd (gettoken t).ret (gettoken (gettoken t).rest)
]

unfoldable pub parseredirs : (fuel : ℕ) → Cmd Word → List ℕ → Parsed
parseredirs zero cmd s = unfinished
parseredirs (suc n) cmd s = redir_round (parseredirs n) cmd (skip s)

-- A round of the loop of parseexec over the arguments, at a token and at what peek leaves. Then the loop.
abbrev pub with_token :
    (again : ℕ → Cmd Word → List ℕ → Parsed)
    → (n argc : ℕ) → (ret : Cmd Word) → (tok : Token) → Parsed
with_token again n argc ret tok = elim (tok.ret == 0) [
  | true ↦ ok ret tok.rest
  | false ↦ elim (tok.ret == b'a') [
    | false ↦ panic syntax
    | true ↦ elim (leb maxargs (argc + 1)) [
      | true ↦ panic too_many_args
      | false ↦ continue (parseredirs n (push_arg tok.word ret) tok.rest) (again (argc + 1))
    ]
  ]
]

abbrev pub arg_round :
    (again : ℕ → Cmd Word → List ℕ → Parsed) → (n argc : ℕ) → (ret : Cmd Word) → List ℕ → Parsed
arg_round again n argc ret t = elim (starts (b'|' ∷ b')' ∷ b'&' ∷ b';' ∷ []) t) [
  | true ↦ ok ret t
  | false ↦ with_token again n argc ret (gettoken t)
]

unfoldable pub parseargs : (fuel : ℕ) → (argc : ℕ) → (ret : Cmd Word) → List ℕ → Parsed
parseargs zero argc ret s = unfinished
parseargs (suc n) argc ret s = arg_round (parseargs n) n argc ret (skip s)

-- The loop of parseline over the ampersands.
unfoldable pub parsebacks : (fuel : ℕ) → Cmd Word → List ℕ → Parsed
parsebacks zero cmd s = unfinished
parsebacks (suc n) cmd s =
    let (more, t) = peek (b'&' ∷ []) s in
    elim more [ true ↦ parsebacks n (backcmd cmd) (gettoken t).rest | false ↦ ok cmd t ]

-- What follows the first pipe of a line, the first command of a pipe, and the bracket of a block, with the
-- function for what comes next.
unfoldable pub then_list : (line : List ℕ → Parsed) → Cmd Word → List ℕ → Parsed
then_list line cmd s =
    let (more, t) = peek (b';' ∷ []) s in
    elim more [
      | true ↦ continue (line (gettoken t).rest) (λ r u. ok (listcmd cmd r) u)
      | false ↦ ok cmd t
    ]

unfoldable pub then_pipe : (pipe : List ℕ → Parsed) → Cmd Word → List ℕ → Parsed
then_pipe pipe cmd s =
    let (more, t) = peek (b'|' ∷ []) s in
    elim more [
      | true ↦ continue (pipe (gettoken t).rest) (λ r u. ok (pipecmd cmd r) u)
      | false ↦ ok cmd t
    ]

unfoldable pub close_block : (fuel : ℕ) → Cmd Word → List ℕ → Parsed
close_block n cmd s =
    let (closes, t) = peek (b')' ∷ []) s in
    elim closes [ false ↦ panic missing_paren | true ↦ parseredirs n cmd (gettoken t).rest ]

unfoldable mutual
  pub parseline : (fuel : ℕ) → List ℕ → Parsed
  parseline zero s = unfinished
  parseline (suc n) s =
      continue (parsepipe n s) (λ c t. continue (parsebacks n c t) (then_list (parseline n)))

  pub parsepipe : (fuel : ℕ) → List ℕ → Parsed
  parsepipe zero s = unfinished
  parsepipe (suc n) s = continue (parseexec n s) (then_pipe (parsepipe n))

  pub parseblock : (fuel : ℕ) → List ℕ → Parsed
  parseblock zero s = unfinished
  parseblock (suc n) s =
      let (opens, t) = peek (b'(' ∷ []) s in
      elim opens [
        | false ↦ panic no_block
        | true ↦ continue (parseline n (gettoken t).rest) (close_block n)
      ]

  pub parseexec : (fuel : ℕ) → List ℕ → Parsed
  parseexec zero s = unfinished
  parseexec (suc n) s =
      let (opens, t) = peek (b'(' ∷ []) s in
      elim opens [
        | true ↦ parseblock n t
        | false ↦ continue (parseredirs n (execcmd []) t) (parseargs n 0)
      ]

abbrev pub at_end : Cmd Word → List ℕ → Parsed
at_end cmd [] = ok cmd []
at_end cmd (c ∷ cs) = panic leftovers

-- The tests that follow parseline in parsecmd.
abbrev pub parsecmd : List ℕ → Parsed
parsecmd s = continue (parseline (4 * length s + 4) s) (λ c t. at_end c (peek [] t).1)
