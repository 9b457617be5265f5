-- ===== src/Pipe/Transfer.antt =====
-- pipewrite and piperead of lab5/xv6-thread/kernel/pipe.c as operations on a bounded queue.
use ecnu_oslab.Base.{
  ℕ, zero, suc, ◌+◌, ◌≤◌, ◌<◌, ◌≡◌, ◌⊎◌, refl, sym, ap, ◌∙◌, subst, inl, inr, arith, Bool, true,
  false, not, ◌&&◌, ◌||◌, List, [], ◌∷◌, ◌++◌, append-nil, append_assoc, if◌then◌else◌, length,
  length-append, Bool-cases,
}
use ecnu_oslab.Pipe.{
  Pipe, readers, writers, pipesize, is_full, is_empty, put_byte, next_byte, skip_byte, WriteCall,
  refused, sleeps, written, pipewrite, copy_out, ReadCall, denied, waits, got, piperead,
}
use ecnu_oslab.Pipe.Queue.{
  Holds, Holds-put, Holds-skip, Holds-next, is_full-Holds, is_empty-Holds, is_empty-cons,
}

-- How a call of pipewrite ends, in the words of the theorem pipewrite_lem.
abbrev pub WriteOutcome : (killed : Bool) → Pipe → (q cs : List ℕ) → WriteCall → Type 0
WriteOutcome killed p q cs call =
    ((p' : Pipe) × (call ≡ written (readers ∷ []) p')
      × (length q + length cs ≤ pipesize)
      × Holds p' (q ++ cs))
    ⊎ ((front : List ℕ) × (rest : List ℕ) × (p' : Pipe) × (cs ≡ front ++ rest)
        × (0 < length rest)
        × (length q + length front ≡ pipesize)
        × Holds p' (q ++ front)
        × (((call ≡ refused [] p') × ((not p.readopen || killed) ≡ true))
            ⊎ ((call ≡ sleeps (readers ∷ []) rest p') × ((not p.readopen || killed) ≡ false))))

WriteOutcome-cons :
    (killed : Bool) (p : Pipe) (q : List ℕ) (c : ℕ) (cs : List ℕ) (call : WriteCall)
    → WriteOutcome killed (put_byte c p) (q ++ (c ∷ [])) cs call
    → WriteOutcome killed p q (c ∷ cs) call
WriteOutcome-cons killed p q c cs call (inl (p', e, l, h)) = inl (
  p',
  e,
  omega (arith, l, length-append q (c ∷ [])),
  subst (Holds p') (append_assoc q (c ∷ []) cs) h,
)
WriteOutcome-cons killed p q c cs call (inr (front, rest, p', e, n, l, h, o)) = inr (
  c ∷ front,
  rest,
  p',
  ap (λ x. c ∷ x) e,
  n,
  omega (arith, l, length-append q (c ∷ [])),
  subst (Holds p') (append_assoc q (c ∷ []) front) h,
  o,
)

-- Of the bytes cs, a pipe that holds q takes those that fit in 512. If all fit, pipewrite wakes the
-- readers and ends with the pipe holding q followed by cs. Else the pipe is full and holds q followed
-- by the first bytes of cs, some being left, and the call fails if the pipe has no reader or the
-- process has been killed, and else wakes the readers and sleeps with the rest of the bytes to write.
pub pipewrite_lem :
    (killed : Bool) (p : Pipe) (q cs : List ℕ)
    → Holds p q
    → WriteOutcome killed p q cs (pipewrite killed p cs)
unfolding pipewrite
pipewrite_lem killed p q [] h =
    inl (p, refl, omega (arith, h.room), subst (Holds p) (sym (append-nil q)) h)
pipewrite_lem killed p q (c ∷ cs) h = elim (Bool-cases (is_full p)) [
  | inr f ↦ rw f (
      WriteOutcome-cons killed p q c cs _ (
        pipewrite_lem killed (put_byte c p) (q ++ (c ∷ [])) cs
          (Holds-put p q c h (ground (arith, h.room, is_full-Holds p q h, f)))))
  | inl f ↦ rw f (
      inr (
        [],
        c ∷ cs,
        p,
        refl,
        omega arith,
        ground (arith, is_full-Holds p q h, f),
        subst (Holds p) (sym (append-nil q)) h,
        stuck,
      ))
]
  where
    stuck :
        (((if not p.readopen || killed then refused [] p else sleeps (readers ∷ []) (c ∷ cs) p)
            ≡ refused [] p)
          × ((not p.readopen || killed) ≡ true))
        ⊎ (((if not p.readopen || killed then refused [] p else sleeps (readers ∷ []) (c ∷ cs) p)
              ≡ sleeps (readers ∷ []) (c ∷ cs) p)
            × ((not p.readopen || killed) ≡ false))
    stuck = elim (Bool-cases (not p.readopen || killed)) [
      | inl t ↦ inl (rw t refl, t)
      | inr t ↦ inr (rw t refl, t)
    ]

-- How a call of piperead ends, in the words of the theorem piperead_lem.
abbrev pub ReadOutcome : (killed : Bool) → Pipe → (q : List ℕ) → ℕ → ReadCall → Type 0
ReadOutcome killed p q n call =
    ((q ≡ []) × (p.writeopen ≡ true) × (call ≡ (if killed then denied p else waits p)))
    ⊎ ((cs : List ℕ) × (rest : List ℕ) × (p' : Pipe) × (call ≡ got (writers ∷ []) cs p')
        × (q ≡ cs ++ rest)
        × Holds p' rest
        × (length cs ≤ n)
        × (length cs < n → rest ≡ [])
        × (q ≡ [] → p.writeopen ≡ false))

pub length-zero : (q : List ℕ) → length q ≡ 0 → q ≡ []
length-zero [] e = refl
length-zero (c ∷ q) e = absurd (omega (arith, e))

copy_out_lem :
    (n : ℕ) (p : Pipe) (q : List ℕ)
    → Holds p q
    → (rest : List ℕ) × (q ≡ (copy_out n p).0 ++ rest)
      × Holds (copy_out n p).1 rest
      × (length (copy_out n p).0 ≤ n)
      × (length (copy_out n p).0 < n → rest ≡ [])
unfolding copy_out
copy_out_lem zero p q h = (q, refl, h, omega arith, λ l. absurd (omega (arith, l)))
copy_out_lem (suc n) p [] h = rw (is_empty-Holds p [] h) ([], refl, h, omega arith, λ l. refl)
copy_out_lem (suc n) p (c ∷ q) h =
    let (rest, e, g, l, f) = copy_out_lem n (skip_byte p) q (Holds-skip p q c h) in
    rw (is_empty-cons p c q h) (
      rest,
      ap (λ x. x ∷ q) (sym (Holds-next p q c h)) ∙ ap (λ x. next_byte p ∷ x) e,
      g,
      omega (arith, l),
      λ m. f (omega (arith, m)),
    )

-- If a pipe that holds q is empty and has a writer, piperead fails for a killed process and else
-- sleeps. Otherwise it wakes the writers and returns the oldest bytes, at most n; the pipe then holds
-- the rest, which is none if it returns fewer than n, and it returns none for n > 0 only if no writer
-- is left.
pub piperead_lem :
    (killed : Bool) (p : Pipe) (q : List ℕ) (n : ℕ)
    → Holds p q
    → ReadOutcome killed p q n (piperead killed p n)
unfolding piperead
piperead_lem killed p q n h = elim (Bool-cases (is_empty p && p.writeopen)) [
  | inl t ↦
      rw t (inl (length-zero q (ground (arith, is_empty-Holds p q h, t)), ground (arith, t), refl))
  | inr t ↦
      let (rest, e, g, l, f) = copy_out_lem n p q h in
      rw t (
        inr (
          (copy_out n p).0,
          rest,
          (copy_out n p).1,
          refl,
          e,
          g,
          l,
          f,
          λ z. ground (arith, is_empty-Holds p q h, ap length z, t),
        ))
]
