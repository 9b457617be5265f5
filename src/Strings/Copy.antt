-- ===== src/Strings/Copy.antt =====
-- safestrcpy of lab5/xv6-thread/kernel/string.c: what the buffer holds afterwards.
use ecnu_oslab.Base.{
  ℕ, zero, suc, ◌+◌, ◌^◌, ◌≤◌, ◌<◌, ◌≡◌, ◌≢◌, ◌⊎◌, refl, sym, ap, ◌∙◌, inl, inr, arith, Bool-cases,
  ◌==◌, pos,
}
use ecnu_oslab.Strings.{Memory, write, copy_string, safestrcpy}
use ecnu_oslab.Strings.Move.{up_lem}

-- The buffer of n + 1 bytes at s holds the first `size` bytes of the string at t in m, which are not 0,
-- and a 0 behind them; the string ends there, or the buffer does; no byte outside the buffer changes.
pub record Terminated (n s t : ℕ) (m m' : Memory) (size : ℕ) : Type 0 where
  pub fits : size ≤ n
  pub copied : (i : ℕ) → i < size → (m (t + i) ≢ 0) × (m' (s + i) ≡ m (t + i))
  pub ended : m' (s + size) ≡ 0
  pub whole : (m (t + size) ≡ 0) ⊎ (size ≡ n)
  pub outside : (a : ℕ) → (a < s) ⊎ (s + n < a) → m' a ≡ m a

Terminated-suc :
    (n s t : ℕ) (m m' : Memory) (size : ℕ)
    → m t ≢ 0
    → (t + suc n < s) ⊎ (s + suc n < t)
    → Terminated n (s + 1) (t + 1) (write m s (m t)) m' size
    → Terminated (suc n) s t m m' (suc size)
Terminated-suc n s t m m' size z o r = record {
  fits = omega (arith, r.fits);
  copied = copied;
  ended = ap m' (omega arith) ∙ r.ended;
  whole = whole r.whole;
  outside = λ a l. r.outside a (beyond a l) ∙ ground (arith, l);
}
  where
    same : (i : ℕ) → i ≤ n → write m s (m t) (t + 1 + i) ≡ m (t + suc i)
    same i l = ground (arith, o)

    beyond : (a : ℕ) → (a < s) ⊎ (s + suc n < a) → (a < s + 1) ⊎ (s + 1 + n < a)
    beyond a (inl l) = inl (omega arith)
    beyond a (inr l) = inr (omega arith)

    whole :
        (write m s (m t) (t + 1 + size) ≡ 0) ⊎ (size ≡ n)
        → (m (t + suc size) ≡ 0) ⊎ (suc size ≡ suc n)
    whole (inl e) = inl (sym (same size r.fits) ∙ e)
    whole (inr e) = inr (ap suc e)

    copied : (i : ℕ) → i < suc size → (m (t + i) ≢ 0) × (m' (s + i) ≡ m (t + i))
    copied zero l = (
      λ e. z (ap m (omega arith) ∙ e),
      ap m' (omega arith) ∙ r.outside s (inl (omega arith)) ∙ ground arith,
    )
    copied (suc i) l =
        let (a, b) = r.copied i (omega arith) in
        let e = same i (omega (arith, r.fits)) in (λ q. a (e ∙ q), ap m' (omega arith) ∙ b ∙ e)

copy_string-Terminated :
    (n s t : ℕ) (m : Memory)
    → s + n < 2 ^ 32
    → t + n < 2 ^ 32
    → (t + n < s) ⊎ (s + n < t)
    → (size : ℕ) × Terminated n s t m (copy_string n s t m) size
unfolding copy_string
copy_string-Terminated zero s t m p q o = (
  0,
  record {
    fits = omega arith;
    copied = λ i l. absurd (omega arith);
    ended = ground arith;
    whole = inr refl;
    outside = λ a l. ground (arith, l);
  },
)
copy_string-Terminated (suc n) s t m p q o = elim (Bool-cases (m t == 0)) [
  | inl e ↦
      rw (e, up_lem s (omega arith))
        (
          0,
          record {
            fits = omega arith;
            copied = λ i l. absurd (omega arith);
            ended = ground (arith, e);
            whole = inl (ground (arith, e));
            outside = λ a l. ground (arith, l);
          },
        )
  | inr e ↦
      let (size, r) =
        copy_string-Terminated n (s + 1) (t + 1) (write m s (m t)) (omega arith) (omega arith)
          (ground (arith, o)) in
      rw (e, up_lem s (omega arith), up_lem t (omega arith))
        (suc size, Terminated-suc n s t m _ size (ground (arith, e)) o r)
]

-- For a buffer of n + 1 bytes and a string whose first n + 1 bytes lie outside it, neither reaching the
-- end of the 32-bit addresses, safestrcpy copies the string up to its end or to the last byte of the
-- buffer, puts a 0 behind what it copied, and changes no byte outside the buffer.
pub safestrcpy-Terminated :
    (s t n : ℕ) (m : Memory)
    → s + n < 2 ^ 32
    → t + n < 2 ^ 32
    → (t + n < s) ⊎ (s + n < t)
    → (size : ℕ) × Terminated n s t m (safestrcpy s t (pos (suc n)) m) size
unfolding safestrcpy
safestrcpy-Terminated s t n m p q o = copy_string-Terminated n s t m p q o
