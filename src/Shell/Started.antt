-- ===== src/Shell/Started.antt =====
-- The programs that runcmd of lab5/xv6-thread/user/sh.c starts.
use ecnu_oslab.Base.{
  ℕ, zero, suc, ◌<◌, ◌≡◌, ◌≢◌, refl, sym, ◌∙◌, ap, inl, inr, arith, Bool, true, false, none, some,
  List, [], ◌∷◌, ◌++◌, if◌then◌else◌, equal,
}
use ecnu_oslab.Shell.{Word, Cmd, execcmd, redircmd, pipecmd, listcmd, backcmd, is_some}
use ecnu_oslab.Shell.Parse.{ok, parsecmd}
use ecnu_oslab.Shell.Words.{Fits}
use ecnu_oslab.Shell.Commands.{of_ok, parsecmd-Good}
use ecnu_oslab.Shell.Grammar.{texts}
use ecnu_oslab.Shell.Run.{
  Object, file, reader, writer, Fds, put, close, open_file, runcmd, meaning, Standard, Streams,
  lowest-at,
}
use ecnu_oslab.Shell.Streams.{
  put-same, put-other, new_pipe-Ends, made_fds, left-meaning, right-meaning,
}

module _ (f : Fds) (s : Standard f) where
  standard : (k : ℕ) → k < 3 → is_some (f k) ≡ true
  standard zero l = s.input
  standard (suc zero) l = s.output
  standard (suc (suc zero)) l = s.errors
  standard (suc (suc (suc k))) l = absurd (omega (arith, l))

  free-away : (k t : ℕ) → f k ≡ none → t < 2 → k ≢ t
  free-away k t e l q =
      clash (sym (ap (λ o. is_some o) (sym (ap f q) ∙ e)) ∙ standard t (omega (arith, l)))
    where
      clash : false ≡ true → ⊥
      clash r = ground (arith, r)

  put-open : (t : ℕ) (o : Object) → (k : ℕ) → k < 3 → is_some (put f t (some o) k) ≡ true
  put-open t o k l = elim (equal k t) [
    | inl e ↦ rw e (ap (λ x. is_some x) (put-same f t (some o)))
    | inr n ↦ ap (λ x. is_some x) (put-other f t k (some o) n) ∙ standard k l
  ]

  pub put-Standard : (t : ℕ) (o : Object) → t < 2 → Standard (put f t (some o))
  put-Standard t o l = record {
    input = put-open t o 0 (omega arith);
    output = put-open t o 1 (omega arith);
    errors = put-open t o 2 (omega arith);
    low = s.low;
    high = s.high;
    low_free = put-other f t s.low (some o) (free-away s.low t s.low_free l) ∙ s.low_free;
    high_free = put-other f t s.high (some o) (free-away s.high t s.high_free l) ∙ s.high_free;
    apart = s.apart;
    few = s.few;
  }

  -- open after close takes the descriptor that was closed.
  open-closed : (t : ℕ) (o : Object) → t < 2 → open_file (close t f) o ≡ some (put f t (some o))
  open-closed t o l =
      rw (lowest-at (close t f) t (omega (arith, l)) closed below, open_file)
        (λ z. some (λ k. same k z))
    where
      closed : is_some (close t f t) ≡ false
      closed = ap (λ x. is_some x) (put-same f t none)

      below : (j : ℕ) → j < t → is_some (close t f j) ≡ true
      below j q =
          ap (λ x. is_some x) (put-other f t j none (λ w. absurd (omega (arith, q, w))))
          ∙ standard j (omega (arith, q, l))

      same : (k : ℕ) → put (close t f) t (some o) k ≡ put f t (some o) k
      same k = elim (equal k t) [
        | inl e ↦ rw e (put-same (close t f) t (some o) ∙ sym (put-same f t (some o)))
        | inr n ↦
            put-other (close t f) t k (some o) n
            ∙ put-other f t k none n
            ∙ sym (put-other f t k (some o) n)
      ]

-- The commands of the parser redirect only those.
Fits-Streams : (line : List ℕ) (c : Cmd Word) → Fits line c → Streams (texts c)
unfolding texts
Fits-Streams line (execcmd argv) a = tt
Fits-Streams line (redircmd c w mode fd) (a, p, l) = (Fits-Streams line c a, l)
Fits-Streams line (pipecmd l r) (a, b) = (Fits-Streams line l a, Fits-Streams line r b)
Fits-Streams line (listcmd l r) (a, b) = (Fits-Streams line l a, Fits-Streams line r b)
Fits-Streams line (backcmd c) a = Fits-Streams line c a

meant :
    (opens : List ℕ → ℕ → Bool) (c : Cmd (List ℕ)) (place : List Bool) (f : Fds)
    → Streams c
    → Standard f
    → runcmd opens c place f ≡ meaning opens c place f
unfolding runcmd meaning made_fds
meant opens (execcmd []) place f a s = refl
meant opens (execcmd (w ∷ ws)) place f a s = refl
meant opens (redircmd c name mode fd) place f (a, l) s =
    rw (open-closed f s fd (file name mode) l, runcmd)
      (ap (λ z. if opens name mode then z else [])
        (meant opens c place (put f fd (some (file name mode))) a
          (put-Standard f s fd (file name mode) l)))
meant opens (listcmd l r) place f (a, b) s =
    λ k. meant opens l (false ∷ place) f a s k ++ meant opens r (true ∷ place) f b s k
meant opens (pipecmd l r) place f (a, b) s =
    let e = new_pipe-Ends place f s in
    rw (e.made, runcmd)
      (λ k.
        (ap (runcmd opens l (false ∷ place)) (left-meaning place f s e)
            ∙ meant opens l (false ∷ place) (put f 1 (some (writer place))) a
                (put-Standard f s 1 (writer place) (omega arith)))
          k
        ++ (ap (runcmd opens r (true ∷ place)) (right-meaning place f s e)
              ∙ meant opens r (true ∷ place) (put f 0 (some (reader place))) b
                  (put-Standard f s 0 (reader place) (omega arith)))
            k)
meant opens (backcmd c) place f a s = meant opens c (false ∷ place) f a s

-- For a line of which the parser makes a command, run with the descriptors 0, 1 and 2 open and two
-- more to be had, the calls of close, open, dup and pipe of runcmd come to what the command means:
-- every program starts with the descriptors of the shell, but for a redirected one, which is open
-- for the file, for the standard output of the left side of a pipe, which is its writing end, and
-- for the standard input of the right side, which is its reading end; a redirection to a file that
-- cannot be opened starts nothing.
pub runcmd-meaning :
    (opens : List ℕ → ℕ → Bool) (line : List ℕ) (c : Cmd Word) (t : List ℕ) (f : Fds)
    → parsecmd line ≡ ok c t
    → Standard f
    → runcmd opens (texts c) [] f ≡ meaning opens (texts c) [] f
runcmd-meaning opens line c t f e s =
    meant opens (texts c) [] f (Fits-Streams line c (of_ok e (parsecmd-Good line))) s
