-- ===== src/Shell.antt =====
-- lab5/xv6-thread/user/sh.c: the tokens and the commands of the shell. The line is the list of its characters,
-- without the 0 at its end, and a pointer into it is what is left of the line from there.
pub mod Parse
pub mod Reads
pub mod Words
pub mod Commands
pub mod Buffer
pub mod Strings
pub mod Grammar
pub mod Parts
pub mod Arguments
pub mod RoundTrip
pub mod Lines
pub mod Printed
pub mod Run
pub mod Streams
pub mod Started
mod Tests
use ecnu_oslab.Base.{
  ℕ, zero, suc, ◌-◌, Bool, true, false, ◌||◌, Option, none, some, List, [], ◌∷◌, ◌++◌, length, set,
  ◌==◌, if◌then◌else◌,
}
use ecnu_oslab.Ulib.{strchr}

-- The characters from q up to eq.
pub record Word : Type 0 where
  pub q : List ℕ
  pub eq : List ℕ

abbrev pub take {ℓ} : {A : Type ℓ} → ℕ → List A → List A
take zero xs = []
take (suc n) [] = []
take (suc n) (x ∷ xs) = x ∷ take n xs

-- The string that nulterminate makes of a word.
abbrev pub text : Word → List ℕ
text w = take (length w.q - length w.eq) w.q

-- The commands; W is the type of the arguments and of the names of files.
pub data Cmd (W : Type 0) : Type 0 where
  execcmd : (argv : List W) → Cmd W
  redircmd : (cmd : Cmd W) → (file : W) → (mode fd : ℕ) → Cmd W
  pipecmd : (left right : Cmd W) → Cmd W
  listcmd : (left right : Cmd W) → Cmd W
  backcmd : (cmd : Cmd W) → Cmd W

abbrev pub maxargs : ℕ
maxargs = 10

abbrev pub o_rdonly : ℕ
o_rdonly = 0x000

abbrev pub o_wronly : ℕ
o_wronly = 0x001

abbrev pub o_create : ℕ
o_create = 0x200

abbrev pub is_some {ℓ} : {A : Type ℓ} → Option A → Bool
is_some none = false
is_some (some a) = true

-- strchr(whitespace, c) and strchr(symbols, c)
unfoldable pub whitespace : ℕ → Bool
unfolding strchr
whitespace c = is_some (strchr (b' ' ∷ b'\t' ∷ b'\r' ∷ b'\n' ∷ 11 ∷ []) c)

unfoldable pub symbols : ℕ → Bool
unfolding strchr
symbols c = is_some (strchr (b'<' ∷ b'|' ∷ b'>' ∷ b'&' ∷ b';' ∷ b'(' ∷ b')' ∷ []) c)

-- while(s < es && strchr(whitespace, *s)) s++;
unfoldable pub skip : List ℕ → List ℕ
skip [] = []
skip (c ∷ cs) = let rest = skip cs in if whitespace c then rest else c ∷ cs

unfoldable pub skip_word : List ℕ → List ℕ
skip_word [] = []
skip_word (c ∷ cs) = let rest = skip_word cs in if whitespace c || symbols c then c ∷ cs else rest

pub record Token : Type 0 where
  pub ret : ℕ
  pub word : Word
  pub rest : List ℕ

abbrev pub single : ℕ → Bool
single c = c == b'|' || c == b'(' || c == b')' || c == b';' || c == b'&' || c == b'<'

unfoldable pub after_greater : List ℕ → ℕ × List ℕ
after_greater [] = (b'>', [])
after_greater (c ∷ cs) = if c == b'>' then (b'+', cs) else (b'>', c ∷ cs)

-- The switch: the kind of the token at s, and its end.
unfoldable pub scan : List ℕ → ℕ × List ℕ
unfolding after_greater
scan [] = (0, [])
scan (c ∷ cs) =
    if single c then (c, cs) else if c == b'>' then after_greater cs else (b'a', skip_word (c ∷ cs))

unfoldable pub gettoken : List ℕ → Token
gettoken s = record {
  ret = (scan (skip s)).0;
  word = record { q = skip s; eq = (scan (skip s)).1 };
  rest = skip (scan (skip s)).1;
}

-- What peek returns on what skip leaves, which it stores in *ps.
unfoldable pub starts : (toks : List ℕ) → List ℕ → Bool
unfolding strchr
starts toks [] = false
starts toks (c ∷ cs) = is_some (strchr toks c)

abbrev pub peek : (toks : List ℕ) → List ℕ → Bool × List ℕ
peek toks s = (starts toks (skip s), skip s)

-- cmd->argv[argc] = q, where cmd is the execcmd inside the redirections that ret is made of.
unfoldable pub push_arg : {W : Type 0} → W → (ret : Cmd W) → Cmd W
push_arg w (execcmd argv) = execcmd (argv ++ w ∷ [])
push_arg w (redircmd cmd file mode fd) = redircmd (push_arg w cmd) file mode fd
push_arg w cmd = cmd

-- *eq = 0, on the buffer of the line.
abbrev pub terminate : (line : List ℕ) → Word → List ℕ → List ℕ
terminate line w buf = set buf (length line - length w.eq) 0

unfoldable pub terminate_all : (line : List ℕ) → List Word → List ℕ → List ℕ
terminate_all line [] buf = buf
terminate_all line (w ∷ ws) buf = terminate_all line ws (terminate line w buf)

unfoldable pub nulterminate : (line : List ℕ) → Cmd Word → List ℕ → List ℕ
nulterminate line (execcmd argv) buf = terminate_all line argv buf
nulterminate line (redircmd cmd file mode fd) buf = terminate line file (nulterminate line cmd buf)
nulterminate line (pipecmd l r) buf = nulterminate line r (nulterminate line l buf)
nulterminate line (listcmd l r) buf = nulterminate line r (nulterminate line l buf)
nulterminate line (backcmd cmd) buf = nulterminate line cmd buf
