-- ===== src/Pipe/RoundTrip.antt =====
-- What is written into a new pipe of lab5/xv6-thread/kernel/pipe.c is what is read.
use ecnu_oslab.Base.{
  ℕ, ◌≤◌, ◌<◌, ◌≡◌, refl, sym, ap, ◌∙◌, subst, inl, inr, arith, false, List, [], ◌∷◌, ◌++◌,
  append-nil, length, length-append, ltb, Bool-cases,
}
use ecnu_oslab.Pipe.{Pipe, readers, writers, pipesize, fresh, pipewrite, written, piperead, got}
use ecnu_oslab.Pipe.Queue.{Holds}
use ecnu_oslab.Pipe.Transfer.{pipewrite_lem, piperead_lem, length-zero}

fresh-Holds : (bytes : ℕ → ℕ) → Holds (fresh bytes) []
fresh-Holds bytes = record {
  room = omega arith;
  small = omega arith;
  count = refl;
  stored = λ i l. absurd (omega arith);
}

whole :
    (n : ℕ) (cs xs rest : List ℕ)
    → cs ≡ xs ++ rest
    → length cs ≤ n
    → (length xs < n → rest ≡ [])
    → rest ≡ []
whole n cs xs rest e l f = elim (Bool-cases (ltb (length xs) n)) [
  | inl t ↦ f (ground (arith, t))
  | inr t ↦ length-zero rest (ground (arith, t, l, ap length e, length-append xs rest))
]

-- If at least 1 and at most 512 bytes are written into a new pipe, the call ends without sleeping, and
-- a read of at least as many bytes then returns them in order and leaves the pipe empty.
pub piperead-pipewrite :
    (bytes : ℕ → ℕ) (cs : List ℕ) (n : ℕ)
    → 0 < length cs
    → length cs ≤ pipesize
    → length cs ≤ n
    → (p : Pipe) × (p' : Pipe) × (pipewrite false (fresh bytes) cs ≡ written (readers ∷ []) p)
      × (piperead false p n ≡ got (writers ∷ []) cs p')
      × Holds p' []
piperead-pipewrite bytes cs n l m r =
    elim (pipewrite_lem false (fresh bytes) [] cs (fresh-Holds bytes)) [
      | inr (front, rest, p, e, u, v, h, o) ↦
          absurd (omega (arith, ap length e, length-append front rest, u, v))
      | inl (p, e, u, h) ↦ elim (piperead_lem false p cs n h) [
        | inl (z, w, c) ↦ absurd (omega (arith, l, ap length z))
        | inr (xs, rest, p', c, q, g, a, f, b) ↦
            let z = whole n cs xs rest q r f in
            let same = q ∙ ap (λ t. xs ++ t) z ∙ append-nil xs in
            (p, p', e, c ∙ ap (λ t. got (writers ∷ []) t p') (sym same), subst (Holds p') z g)
      ]
    ]
