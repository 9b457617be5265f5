-- ===== src/Shell/Streams.antt =====
-- The descriptors of runcmd in lab5/xv6-thread/user/sh.c: what the calls of close, open, dup and pipe come to.
use ecnu_oslab.Base.{
  ℕ, zero, suc, ◌≤◌, ◌<◌, ◌≡◌, ◌≢◌, ◌⊎◌, refl, sym, ◌∙◌, ap, inl, inr, arith, Bool, true, false,
  Option, none, some, List, ◌==◌, equal,
}
use ecnu_oslab.Shell.{is_some}
use ecnu_oslab.Shell.Run.{
  Object, reader, writer, Fds, nofile, put, close, lowest, dup, second_end, new_pipe, left_child,
  right_child, Standard, lowest-at, First, free_first,
}

-- The two ends of a new pipe.
pub record Ends (place : List Bool) (f : Fds) : Type 0 where
  pub i : ℕ
  pub j : ℕ
  pub made :
      new_pipe place f
      ≡ some (record {
        p0 = i;
        p1 = j;
        fds = put (put f i (some (reader place))) j (some (writer place));
      })
  pub low : 3 ≤ i
  pub high : 3 ≤ j
  pub differ : i ≢ j
  pub free : f i ≡ none
  pub free' : f j ≡ none

pub put-other : (f : Fds) (i k : ℕ) (o : Option Object) → k ≢ i → put f i o k ≡ f k
put-other f i k o n = rw (differ k i n) refl
  where
    differ : (a b : ℕ) → a ≢ b → (a == b) ≡ false
    differ a b m = ground (arith, m)

pub put-same : (f : Fds) (i : ℕ) (o : Option Object) → put f i o i ≡ o
put-same f i o = rw (self i) refl
  where
    self : (a : ℕ) → (a == a) ≡ true
    self a = ground arith

-- A free descriptor other than i.
spare : (f : Fds) → Standard f → (i : ℕ) → (k : ℕ) × (k ≢ i) × (k < nofile) × (f k ≡ none)
spare f s i = elim (equal s.low i) [
  | inl e ↦ (s.high, (λ q. absurd (omega (arith, s.apart, e, q))), s.few, s.high_free)
  | inr n ↦ (s.low, n, omega (arith, s.apart, s.few), s.low_free)
]

module _ (place : List Bool) (f : Fds) (s : Standard f) (first : First f) where
  with_reader : Fds
  with_reader = put f first.at (some (reader place))

  still_open : (k : ℕ) → k < 3 → is_some (f k) ≡ true → is_some (with_reader k) ≡ true
  unfolding with_reader
  still_open k l e =
      ap (λ o. is_some o)
        (put-other f first.at k (some (reader place))
          (λ q. absurd (omega (arith, first.above, l, q))))
      ∙ e

  second : First with_reader
  unfolding with_reader
  second =
      let (k, n, l, e) = spare f s first.at in
      free_first with_reader (still_open 0 (omega arith) s.input)
        (still_open 1 (omega arith) s.output) (still_open 2 (omega arith) s.errors) k l
        (put-other f first.at k (some (reader place)) n ∙ e)

  differ : first.at ≢ second.at
  unfolding with_reader
  differ e =
      taken (sym (ap with_reader e ∙ second.unused) ∙ put-same f first.at (some (reader place)))
    where
      taken : none ≡ some (reader place) → ⊥
      taken q = ground (arith, q)

  second_found : lowest (put f first.at (some (reader place))) ≡ some second.at
  unfolding with_reader
  second_found = second.found_at

  both-Ends : Ends place f
  unfolding with_reader
  both-Ends = record {
    i = first.at;
    j = second.at;
    made = rw (first.found_at, new_pipe) (rw (second_found, second_end) refl);
    low = first.above;
    high = second.above;
    differ = differ;
    free = first.unused;
    free' =
        sym (put-other f first.at second.at (some (reader place)) (λ q. differ (sym q)))
        ∙ second.unused;
  }

pub new_pipe-Ends : (place : List Bool) (f : Fds) → Standard f → Ends place f
new_pipe-Ends place f s =
    both-Ends place f s
      (free_first f s.input s.output s.errors s.low (omega (arith, s.apart, s.few)) s.low_free)

-- The descriptors of the children.
module _ (place : List Bool) (f : Fds) (s : Standard f) (e : Ends place f) where
  unfoldable pub made_fds : Fds
  made_fds = put (put f e.i (some (reader place))) e.j (some (writer place))

  made_below : (k : ℕ) → k < 3 → made_fds k ≡ f k
  unfolding made_fds
  made_below k l =
      put-other (put f e.i (some (reader place))) e.j k _
        (λ q. absurd (omega (arith, e.high, l, q)))
      ∙ put-other f e.i k _ (λ q. absurd (omega (arith, e.low, l, q)))

  made_other : (k : ℕ) → k ≢ e.i → k ≢ e.j → made_fds k ≡ f k
  unfolding made_fds
  made_other k n m = put-other (put f e.i (some (reader place))) e.j k _ m ∙ put-other f e.i k _ n

  made_reader : made_fds e.i ≡ some (reader place)
  unfolding made_fds
  made_reader = put-other (put f e.i (some (reader place))) e.j e.i _ e.differ ∙ put-same f e.i _

  made_writer : made_fds e.j ≡ some (writer place)
  unfolding made_fds
  made_writer = put-same (put f e.i (some (reader place))) e.j _

  -- A child with the object o on descriptor t, 0 or 1, which it got from the end d.
  duped : (t d : ℕ) → Fds
  duped t d = put (close t made_fds) t (close t made_fds d)

  child_fds : (t d : ℕ) → Fds
  child_fds t d = close e.j (close e.i (duped t d))

  child-meaning :
      (t d : ℕ) (o : Object)
      → t < 2
      → 3 ≤ d
      → made_fds d ≡ some o
      → (k : ℕ) → child_fds t d k ≡ put f t (some o) k
  unfolding child_fds duped
  child-meaning t d o l m h k = elim (equal k e.j) [
    | inl u ↦ rw u (
        put-same (close e.i (duped t d)) e.j none
        ∙ sym (put-other f t e.j _ (away e.j e.high) ∙ e.free'))
    | inr u ↦ elim (equal k e.i) [
      | inl v ↦ rw v (
          put-other (close e.i (duped t d)) e.j e.i none e.differ
          ∙ put-same (duped t d) e.i none
          ∙ sym (put-other f t e.i _ (away e.i e.low) ∙ e.free))
      | inr v ↦
          put-other (close e.i (duped t d)) e.j k none u
          ∙ put-other (duped t d) e.i k none v
          ∙ rest v u (equal k t)
    ]
  ]
    where
      away : (z : ℕ) → 3 ≤ z → z ≢ t
      away z q w = absurd (omega (arith, q, w, l))

      rest :
          k ≢ e.i
          → k ≢ e.j
          → (k ≡ t) ⊎ (k ≢ t)
          → put (close t made_fds) t (close t made_fds d) k ≡ put f t (some o) k
      rest v u (inl w) = rw w (
          put-same (close t made_fds) t _
          ∙ put-other made_fds t d none (away d m)
          ∙ h
          ∙ sym (put-same f t (some o)))
      rest v u (inr w) =
          put-other (close t made_fds) t k _ w
          ∙ put-other made_fds t k none w
          ∙ made_other k v u
          ∙ sym (put-other f t k (some o) w)

  dup-lowest :
      (t d : ℕ) → t < 2 → dup d (close t made_fds) ≡ put (close t made_fds) t (close t made_fds d)
  dup-lowest t d l = rw (lowest-at (close t made_fds) t (omega (arith, l)) closed below, dup) refl
    where
      closed : is_some (close t made_fds t) ≡ false
      closed = ap (λ o. is_some o) (put-same made_fds t none)

      standard : (j : ℕ) → j < 2 → is_some (f j) ≡ true
      standard zero q = s.input
      standard (suc zero) q = s.output
      standard (suc (suc j)) q = absurd (omega (arith, q))

      below : (j : ℕ) → j < t → is_some (close t made_fds j) ≡ true
      below j q =
          ap (λ o. is_some o)
            (put-other made_fds t j none (λ w. absurd (omega (arith, q, w)))
              ∙ made_below j (omega (arith, q, l)))
          ∙ standard j (omega (arith, q, l))

  pub left-meaning :
      left_child (record { p0 = e.i; p1 = e.j; fds = made_fds }) ≡ put f 1 (some (writer place))
  unfolding child_fds duped
  left-meaning =
      ap (λ g. close e.j (close e.i g)) (dup-lowest 1 e.j (omega arith))
      ∙ (λ z k. child-meaning 1 e.j (writer place) (omega arith) e.high made_writer k z)

  pub right-meaning :
      right_child (record { p0 = e.i; p1 = e.j; fds = made_fds }) ≡ put f 0 (some (reader place))
  unfolding child_fds duped
  right-meaning =
      ap (λ g. close e.j (close e.i g)) (dup-lowest 0 e.i (omega arith))
      ∙ (λ z k. child-meaning 0 e.i (reader place) (omega arith) e.low made_reader k z)
