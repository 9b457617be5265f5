-- ===== src/Shell/Commands.antt =====
-- The commands that the parser of lab5/xv6-thread/user/sh.c returns, and its fuel.
use ecnu_oslab.Base.{
  ℕ, zero, suc, ◌+◌, ◌*◌, ◌≤◌, ◌<◌, ◌≡◌, ◌≢◌, refl, subst, inl, inr, arith, true, List, [], ◌∷◌,
  length, Bool-cases,
}
use ecnu_oslab.Shell.{Word, Cmd, execcmd, backcmd, skip, gettoken, starts}
use ecnu_oslab.Shell.Parse.{
  at_end, no_block, missing_paren, leftovers, Parsed, ok, parsebacks, then_list, then_pipe,
  close_block, parseline, parsepipe, parseblock, parseexec, parsecmd,
}
use ecnu_oslab.Shell.Reads.{Tail, same, Tail-trans, Tail-nil, Tail-length, skip-Tail, skip_twice}
use ecnu_oslab.Shell.Words.{
  Fits, Simple, Good, fits, refused, continue-Good, weaken, gettoken-Next, parseredirs-Good,
  parseargs-Good,
}

parsebacks-Good :
    (line : List ℕ) (n : ℕ) (c : Cmd Word) (s : List ℕ)
    → Fits line c
    → Tail line s
    → length s < n
    → Good (Fits line) line s (parsebacks n c s)
unfolding parsebacks
parsebacks-Good line zero c s p h l = absurd (omega (arith, l))
parsebacks-Good line (suc n) c s p h l = elim (Bool-cases (starts (b'&' ∷ []) (skip s))) [
  | inr e ↦ rw (e, parsebacks) (fits p (Tail-trans h (skip-Tail s)) (Tail-length (skip-Tail s)))
  | inl e ↦
      let t = gettoken-Next _ line s h e in
      rw (e, parsebacks)
        (weaken (λ d q. q) (omega (arith, t.less))
          (parsebacks-Good line n (backcmd c) (gettoken (skip s)).rest p t.tail
            (omega (arith, l, t.less))))
]

then_list-Good :
    (line : List ℕ) (k : List ℕ → Parsed) (c : Cmd Word) (s : List ℕ)
    → Fits line c
    → Tail line s
    → ((t : List ℕ) → Tail line t → length t < length s → Good (Fits line) line t (k t))
    → Good (Fits line) line s (then_list k c s)
unfolding then_list
then_list-Good line k c s p h later = elim (Bool-cases (starts (b';' ∷ []) (skip s))) [
  | inr e ↦ rw (e, then_list) (fits p (Tail-trans h (skip-Tail s)) (Tail-length (skip-Tail s)))
  | inl e ↦
      let t = gettoken-Next _ line s h e in
      rw (e, then_list)
        (continue-Good (later _ t.tail t.less)
          (λ d u q g m. fits (p, q) g (omega (arith, m, t.less))))
]

then_pipe-Good :
    (line : List ℕ) (k : List ℕ → Parsed) (c : Cmd Word) (s : List ℕ)
    → Fits line c
    → Tail line s
    → ((t : List ℕ) → Tail line t → length t < length s → Good (Fits line) line t (k t))
    → Good (Fits line) line s (then_pipe k c s)
unfolding then_pipe
then_pipe-Good line k c s p h later = elim (Bool-cases (starts (b'|' ∷ []) (skip s))) [
  | inr e ↦ rw (e, then_pipe) (fits p (Tail-trans h (skip-Tail s)) (Tail-length (skip-Tail s)))
  | inl e ↦
      let t = gettoken-Next _ line s h e in
      rw (e, then_pipe)
        (continue-Good (later _ t.tail t.less)
          (λ d u q g m. fits (p, q) g (omega (arith, m, t.less))))
]

close_block-Good :
    (line : List ℕ) (n : ℕ) (c : Cmd Word) (s : List ℕ)
    → Fits line c
    → Tail line s
    → length s < n
    → Good (Fits line) line s (close_block n c s)
unfolding close_block
close_block-Good line n c s p h l = elim (Bool-cases (starts (b')' ∷ []) (skip s))) [
  | inr e ↦ rw (e, close_block) (refused paren-no_block)
  | inl e ↦
      let t = gettoken-Next _ line s h e in
      rw (e, close_block)
        (weaken (λ d q. q) (omega (arith, t.less))
          (parseredirs-Good line (λ d x m f q y z. (q, y, z)) n c _ p t.tail
            (omega (arith, l, t.less))))
]
  where
    paren-no_block : missing_paren ≢ no_block
    paren-no_block q = ground (arith, q)

-- The fuel of each function, by what is left of the line.
mutual
  unfolding parseline

  parseline-Good :
      (line : List ℕ) (n : ℕ) (s : List ℕ)
      → Tail line s
      → 4 * length s + 4 ≤ n
      → Good (Fits line) line s (parseline n s)
  parseline-Good line zero s h l = absurd (omega (arith, l))
  parseline-Good line (suc n) s h l =
      continue-Good (parsepipe-Good line n s h (omega (arith, l))) (λ c t p g m.
        continue-Good (parsebacks-Good line n c t p g (omega (arith, l, m))) (λ d u q f k.
          weaken (λ x y. y) (omega (arith, m, k))
            (then_list-Good line (parseline n) d u q f
              (λ v w r. parseline-Good line n v w (omega (arith, l, m, k, r))))))

  parsepipe-Good :
      (line : List ℕ) (n : ℕ) (s : List ℕ)
      → Tail line s
      → 4 * length s + 3 ≤ n
      → Good (Fits line) line s (parsepipe n s)
  parsepipe-Good line zero s h l = absurd (omega (arith, l))
  parsepipe-Good line (suc n) s h l =
      continue-Good (parseexec-Good line n s h (omega (arith, l))) (λ d u q f k.
        weaken (λ x y. y) (omega (arith, k))
          (then_pipe-Good line (parsepipe n) d u q f
            (λ v w r. parsepipe-Good line n v w (omega (arith, l, k, r)))))

  -- At a bracket.
  parseblock-Good :
      (line : List ℕ) (n : ℕ) (s : List ℕ)
      → Tail line s
      → 4 * length s + 1 ≤ n
      → starts (b'(' ∷ []) (skip s) ≡ true
      → Good (Fits line) line s (parseblock n s)
  parseblock-Good line zero s h l e = absurd (omega (arith, l))
  parseblock-Good line (suc n) s h l e =
      let t = gettoken-Next _ line s h e in
      rw (e, parseblock)
        (continue-Good
          (parseline-Good line n (gettoken (skip s)).rest t.tail (omega (arith, l, t.less)))
          (λ c u p g m.
            weaken (λ x y. y) (omega (arith, m, t.less))
              (close_block-Good line n c u p g (omega (arith, l, m, t.less)))))

  parseexec-Good :
      (line : List ℕ) (n : ℕ) (s : List ℕ)
      → Tail line s
      → 4 * length s + 2 ≤ n
      → Good (Fits line) line s (parseexec n s)
  parseexec-Good line zero s h l = absurd (omega (arith, l))
  parseexec-Good line (suc n) s h l =
      let t = Tail-trans h (skip-Tail s) in
      let m : length (skip s) ≤ length s = Tail-length (skip-Tail s) in
      elim (Bool-cases (starts (b'(' ∷ []) (skip s))) [
        | inl e ↦
            rw (e, parseexec)
              (weaken (λ x y. y) m
                (parseblock-Good line n (skip s) t (omega (arith, l, m)) (rw (skip_twice s) e)))
        | inr e ↦
            rw (e, parseexec)
              (continue-Good
                (parseredirs-Good {P = Simple line 0} line (λ d x m f q y z. (q, y, z)) n
                  (execcmd []) (skip s) (tt, refl) t (omega (arith, l, m)))
                (λ d u q g k.
                  weaken (λ x y. y) (omega (arith, m, k))
                    (parseargs-Good line n 0 d u (omega arith) q g (omega (arith, l, m, k)))))
      ]

-- For every line the parser ends with a command or a message within its fuel, and never with the
-- message of parseblock: a command that it returns consists of words of the line, each one from
-- some place on as long as it can be, has at most 9 arguments in each argv, so that the 0 behind
-- them is in the array, and redirects only the descriptors 0 and 1.
pub parsecmd-Good : (line : List ℕ) → Good (Fits line) line line (parsecmd line)
parsecmd-Good line =
    continue-Good (parseline-Good line _ line same (omega arith)) (λ c t p h l. ends c (skip t) p)
  where
    leftovers-no_block : leftovers ≢ no_block
    leftovers-no_block q = ground (arith, q)

    ends : (c : Cmd Word) (t : List ℕ) → Fits line c → Good (Fits line) line line (at_end c t)
    ends c [] p = fits p (Tail-nil line) (omega arith)
    ends c (x ∷ xs) p = refused leftovers-no_block

fitting :
    {line s : List ℕ} {c : Cmd Word} {t : List ℕ} → Good (Fits line) line s (ok c t) → Fits line c
fitting (fits p h l) = p

pub of_ok :
    {line s : List ℕ} {r : Parsed} {c : Cmd Word} {t : List ℕ}
    → r ≡ ok c t
    → Good (Fits line) line s r
    → Fits line c
of_ok {line} {s} e g = fitting (subst (Good (Fits line) line s) e g)
