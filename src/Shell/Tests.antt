-- ===== src/Shell/Tests.antt =====
-- Runs of the parser of lab5/xv6-thread/user/sh.c, and the theorems about it at examples.
use ecnu_oslab.Base.{
  ℕ, ◌-◌, ◌≡◌, refl, arith, true, some, none, ltb, if◌then◌else◌, List, [], ◌∷◌, ◌++◌, length,
}
use ecnu_oslab.Ulib.{strchr}
use ecnu_oslab.Shell.{
  Word, Cmd, execcmd, redircmd, listcmd, whitespace, symbols, skip, skip_word, scan, gettoken,
  starts, nulterminate, text, push_arg,
}
use ecnu_oslab.Shell.Parse.{
  ok, panic, missing_paren, missing_file, too_many_args, leftovers, parseredirs, parseargs,
  parsebacks, then_list, then_pipe, close_block, parseline, parsecmd,
}
use ecnu_oslab.Shell.Words.{Fits, Good}
use ecnu_oslab.Shell.Commands.{parsecmd-Good}
use ecnu_oslab.Shell.Buffer.{Words, string_at}
use ecnu_oslab.Shell.Strings.{nulterminate_lem}
use ecnu_oslab.Shell.Grammar.{
  input, append, Line, last, sequence, alone, piped, simple, block, line_cmd, texts,
}
use ecnu_oslab.Shell.Run.{other, Fds, Standard, runcmd, meaning, chdir, request}
use ecnu_oslab.Shell.Started.{runcmd-meaning}

-- a<b;c
abbrev sample : List ℕ
sample = b'a' ∷ b'<' ∷ b'b' ∷ b';' ∷ b'c' ∷ []

abbrev sample_cmd : Cmd Word
sample_cmd =
    listcmd
      (redircmd (execcmd (record { q = sample; eq = b'<' ∷ b'b' ∷ b';' ∷ b'c' ∷ [] } ∷ []))
        (record { q = b'b' ∷ b';' ∷ b'c' ∷ []; eq = b';' ∷ b'c' ∷ [] }) 0 0)
      (execcmd (record { q = b'c' ∷ []; eq = [] } ∷ []))

sample_run : parsecmd sample ≡ ok sample_cmd []
unfolding parseline parseredirs parseargs parsebacks then_list then_pipe close_block gettoken scan
    skip skip_word starts whitespace symbols strchr push_arg
sample_run = refl

-- (a
open_bracket : parsecmd (b'(' ∷ b'a' ∷ []) ≡ panic missing_paren
unfolding parseline parseredirs parseargs parsebacks then_list then_pipe close_block gettoken scan
    skip skip_word starts whitespace symbols strchr push_arg
open_bracket = refl

-- a >
no_file : parsecmd (b'a' ∷ b' ' ∷ b'>' ∷ []) ≡ panic missing_file
unfolding parseline parseredirs parseargs parsebacks then_list then_pipe close_block gettoken scan
    skip skip_word starts whitespace symbols strchr push_arg
no_file = refl

-- a & b: what follows an ampersand without a semicolon is left over.
background_only : parsecmd (b'a' ∷ b'&' ∷ b'b' ∷ []) ≡ panic leftovers
unfolding parseline parseredirs parseargs parsebacks then_list then_pipe close_block gettoken scan
    skip skip_word starts whitespace symbols strchr push_arg
background_only = refl

-- a b c d e f g h i j: ten words.
ten_words :
    parsecmd (
      b'a' ∷ b' ' ∷ b'b' ∷ b' ' ∷ b'c' ∷ b' ' ∷ b'd' ∷ b' ' ∷ b'e' ∷ b' ' ∷ b'f' ∷ b' ' ∷ b'g'
      ∷ b' ' ∷ b'h' ∷ b' ' ∷ b'i' ∷ b' ' ∷ b'j' ∷ [])
    ≡ panic too_many_args
unfolding parseline parseredirs parseargs parsebacks then_list then_pipe close_block gettoken scan
    skip skip_word starts whitespace symbols strchr push_arg
ten_words = refl

-- An append opens the file as an output does.
append_mode :
    line_cmd (last (alone (simple (record { op = append; file = b'f' ∷ [] } ∷ []) [])) 0)
    ≡ redircmd (execcmd []) (b'f' ∷ []) 0x201 1
unfolding line_cmd
append_mode = refl

-- < f a | (b &); c
abbrev written : Line
written =
    sequence
      (piped
        (simple (record { op = input; file = b'f' ∷ [] } ∷ [])
          (record { word = b'a' ∷ []; redirs = [] } ∷ []))
        (alone
          (block (last (alone (simple [] (record { word = b'b' ∷ []; redirs = [] } ∷ []))) 1) [])))
      0 (last (alone (simple [] (record { word = b'c' ∷ []; redirs = [] } ∷ []))) 0)

parsecmd-Good_example : Good (Fits sample) sample sample (parsecmd sample)
parsecmd-Good_example = parsecmd-Good sample

nulterminate_lem_example :
    Words
      (λ w. string_at (nulterminate sample sample_cmd (sample ++ 0 ∷ [])) (5 - length w.q) ≡ text w)
      sample_cmd
nulterminate_lem_example =
    nulterminate_lem sample sample_cmd []
      (omega arith, (omega arith, (omega arith, (omega arith, (omega arith, tt))))) sample_run

-- The descriptors of the shell: 0, 1 and 2.
abbrev console : Fds
console i = if ltb i 3 then some (other i) else none

console-Standard : Standard console
console-Standard = record {
  input = refl;
  output = refl;
  errors = refl;
  low = 3;
  high = 4;
  low_free = refl;
  high_free = refl;
  apart = omega arith;
  few = omega arith;
}

runcmd-meaning_example :
    runcmd (λ w m. true) (texts sample_cmd) [] console
    ≡ meaning (λ w m. true) (texts sample_cmd) [] console
runcmd-meaning_example =
    runcmd-meaning (λ w m. true) sample sample_cmd [] console sample_run console-Standard

-- cd without a newline behind it: the last character of the path is dropped.
chopped : request (b'c' ∷ b'd' ∷ b' ' ∷ b'a' ∷ b'b' ∷ []) ≡ chdir (b'a' ∷ [])
unfolding request
chopped = refl
