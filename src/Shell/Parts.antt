-- ===== src/Shell/Parts.antt =====
-- The words and the redirections that the parser of lab5/xv6-thread/user/sh.c reads from what
-- Shell/Grammar writes.
use ecnu_oslab.Base.{
  ℕ, zero, suc, ◌<◌, ◌≡◌, ◌∙◌, refl, sym, subst, ap, arith, true, false, ◌||◌, List, [], ◌∷◌, ◌++◌,
  length, All, ◌==◌, length-append,
}
use ecnu_oslab.Ulib.{strchr}
use ecnu_oslab.Shell.{
  Word, Cmd, Token, whitespace, symbols, skip, skip_word, single, after_greater, scan, gettoken,
  starts, text, take,
}
use ecnu_oslab.Shell.Parse.{
  Parsed, ok, redirect, with_file, redir_round, arg_round, parseredirs, parseargs,
}
use ecnu_oslab.Shell.Reads.{Stops, skip_twice, Black-skip}
use ecnu_oslab.Shell.Grammar.{
  Op, input, output, append, Redirection, write_word, write_op, write_redirs, redirected, with_op,
  texts, IsText, AreTexts,
}

-- The parser has made the command m and has come to `rest`, or to the first character behind its white space.
pub data Yields (m : Cmd (List ℕ)) (rest : List ℕ) : Parsed → Type 0 where
  yields : {c : Cmd Word} {t : List ℕ} → texts c ≡ m → t ≡ skip rest → Yields m rest (ok c t)

take-length : (w rest : List ℕ) (n : ℕ) → n ≡ length w → take n (w ++ rest) ≡ w
take-length [] rest zero e = refl
take-length [] rest (suc n) e = absurd (omega (arith, e))
take-length (c ∷ cs) rest zero e = absurd (omega (arith, e))
take-length (c ∷ cs) rest (suc n) e = ap (λ k. c ∷ k) (take-length cs rest n (omega (arith, e)))

pub text-write : (w rest : List ℕ) → text (record { q = w ++ rest; eq = rest }) ≡ w
text-write w rest = take-length w rest _ (omega (arith, length-append w rest))

pub plain_parts :
    (c : ℕ) → (whitespace c || symbols c) ≡ false → (whitespace c ≡ false) × (symbols c ≡ false)
plain_parts c e = ground (arith, e)

plain_scan : (c : ℕ) → symbols c ≡ false → (single c ≡ false) × ((c == b'>') ≡ false)
unfolding symbols strchr
plain_scan c e = ground (arith, e)

skip_word-write :
    (w rest : List ℕ)
    → All (λ d. (whitespace d || symbols d) ≡ false) w
    → Stops rest
    → skip_word (w ++ rest) ≡ rest
unfolding skip_word
skip_word-write [] [] a s = refl
skip_word-write [] (c ∷ cs) a s = rw s refl
skip_word-write (c ∷ cs) rest (p, a) s = rw p (skip_word-write cs rest a s)

pub skip-write : (w rest : List ℕ) → IsText w → skip (write_word w rest) ≡ w ++ rest
unfolding skip whitespace strchr
skip-write [] rest a = elim a [ ]
skip-write (c ∷ cs) rest (p, a) = Black-skip (c ∷ cs ++ rest) (plain_parts c p).0

scan-write : (w rest : List ℕ) → IsText w → Stops rest → scan (w ++ rest) ≡ (b'a', rest)
unfolding scan
scan-write [] rest a s = elim a [ ]
scan-write (c ∷ cs) rest (p, a) s =
    let (u, v) = plain_scan c (plain_parts c p).1 in
    rw (u, v) (λ k. (b'a', skip_word-write (c ∷ cs) rest (p, a) s k))

abbrev word_token : List ℕ → (rest : List ℕ) → Token
word_token w rest = record {
  ret = b'a';
  word = record { q = w ++ rest; eq = rest };
  rest = skip rest;
}

pub gettoken-word :
    (w rest : List ℕ) → IsText w → Stops rest → gettoken (write_word w rest) ≡ word_token w rest
unfolding gettoken
gettoken-word w rest a s = rw (skip-write w rest a, scan-write w rest a s) refl

pub gettoken-skip : (s : List ℕ) → gettoken (skip s) ≡ gettoken s
unfolding gettoken
gettoken-skip s = rw (skip_twice s) refl

pub parseredirs-skip :
    (n : ℕ) (c : Cmd Word) (s : List ℕ) → parseredirs n c (skip s) ≡ parseredirs n c s
unfolding parseredirs
parseredirs-skip zero c s = refl
parseredirs-skip (suc n) c s = ap (redir_round (parseredirs n) c) (skip_twice s)

pub parseargs-skip :
    (n argc : ℕ) (c : Cmd Word) (s : List ℕ) → parseargs n argc c (skip s) ≡ parseargs n argc c s
unfolding parseargs
parseargs-skip zero argc c s = refl
parseargs-skip (suc n) argc c s = ap (arg_round (parseargs n) n argc c) (skip_twice s)

op_ret : Op → ℕ
op_ret input = b'<'
op_ret output = b'>'
op_ret append = b'+'

-- The operator and what follows it.
starts-op : (o : Op) (s : List ℕ) → starts (b'<' ∷ b'>' ∷ []) (skip (write_op o s)) ≡ true
unfolding starts skip whitespace strchr
starts-op input s = refl
starts-op output s = refl
starts-op append s = refl

gettoken-op :
    (o : Op) (w s : List ℕ)
    → ((gettoken (write_op o (write_word w s))).ret ≡ op_ret o)
      × ((gettoken (write_op o (write_word w s))).rest ≡ skip (write_word w s))
unfolding scan skip whitespace strchr op_ret after_greater gettoken
gettoken-op input w s = (refl, refl)
gettoken-op output w s = (refl, refl)
gettoken-op append w s = (refl, refl)

texts-redirect :
    (o : Op) (c : Cmd Word) (m : Cmd (List ℕ)) (w : Word) (f : List ℕ)
    → texts c ≡ m
    → text w ≡ f
    → texts (redirect (op_ret o) c w) ≡ with_op o f m
unfolding texts op_ret
texts-redirect input c m w f e t = rw (e, t) refl
texts-redirect output c m w f e t = rw (e, t) refl
texts-redirect append c m w f e t = rw (e, t) refl

pub Stops-redirs :
    (rs : List Redirection) (rest : List ℕ) → Stops rest → Stops (write_redirs rs rest)
unfolding symbols whitespace strchr
Stops-redirs [] rest s = s
Stops-redirs (r ∷ rs) rest s = op r.op (write_word r.file (write_redirs rs rest))
  where
    op : (o : Op) (t : List ℕ) → Stops (write_op o t)
    op input t = refl
    op output t = refl
    op append t = refl

redir_step :
    (again : Cmd Word → List ℕ → Parsed) (c : Cmd Word) (t rest : List ℕ) (op : ℕ) (w : Word)
    → starts (b'<' ∷ b'>' ∷ []) t ≡ true
    → (gettoken t).ret ≡ op
    → gettoken (gettoken t).rest ≡ record { ret = b'a'; word = w; rest = rest }
    → redir_round again c t ≡ again (redirect op c w) rest
redir_step again c t rest op w f e g = rw (f, redir_round) (λ k. with_file again c (e k) (g k))

pub parseredirs-Yields :
    (rs : List Redirection) (n : ℕ) (c : Cmd Word) (m : Cmd (List ℕ)) (rest : List ℕ)
    → texts c ≡ m
    → AreTexts rs
    → Stops rest
    → starts (b'<' ∷ b'>' ∷ []) (skip rest) ≡ false
    → length rs < n
    → Yields (redirected rs m) rest (parseredirs n c (write_redirs rs rest))
unfolding parseredirs
parseredirs-Yields rs zero c m rest e a s f l = absurd (omega (arith, l))
parseredirs-Yields [] (suc n) c m rest e a s f l = rw (f, parseredirs, redir_round) (yields e refl)
parseredirs-Yields (r ∷ rs) (suc n) c m rest e (p, a) s f l = subst (Yields _ rest) (sym step) (
    parseredirs-Yields rs n _ _ rest (texts-redirect r.op c m _ r.file e (text-write r.file tail)) a
      s f (omega (arith, l)))
  where
    tail : List ℕ
    tail = write_redirs rs rest

    all : List ℕ
    all = write_op r.op (write_word r.file tail)

    op :
        ((gettoken (skip all)).ret ≡ op_ret r.op)
        × ((gettoken (skip all)).rest ≡ skip (write_word r.file tail))
    op = rw (gettoken-skip all) (gettoken-op r.op r.file tail)

    file : gettoken (gettoken (skip all)).rest ≡ word_token r.file tail
    file = ap gettoken op.1 ∙ gettoken-skip _ ∙ gettoken-word r.file tail p (Stops-redirs rs rest s)

    step :
        parseredirs (suc n) c all
        ≡ parseredirs n (redirect (op_ret r.op) c (word_token r.file tail).word) tail
    step =
        redir_step (parseredirs n) c (skip all) _ _ _ (starts-op r.op _) op.0 file
        ∙ parseredirs-skip n _ tail
