-- ===== src/Pipe/Queue.antt =====
-- The bounded queue that a pipe of lab5/xv6-thread/kernel/pipe.c stands for, and the moves of one byte.
use ecnu_oslab.Base.{
  ℕ, zero, suc, ◌+◌, ◌%◌, ◌^◌, ◌≤◌, ◌<◌, ◌≡◌, ◌≢◌, refl, ap, ◌∙◌, equal, inl, inr, arith, false,
  List, [], ◌∷◌, ◌++◌, ◌==◌, if◌then◌else◌, length, length-append, get_or,
}
use ecnu_oslab.Pipe.{Pipe, pipesize, is_full, is_empty, put_byte, next_byte, skip_byte}

-- The pipe p holds the bytes q, the oldest first.
pub record Holds (p : Pipe) (q : List ℕ) : Type 0 where
  pub room : length q ≤ pipesize
  pub small : p.nread < 2 ^ 32
  pub count : p.nwrite ≡ (p.nread + length q) % 2 ^ 32
  pub stored : (i : ℕ) → i < length q → p.bytes ((p.nread + i) % pipesize) ≡ get_or q i 0

get_or-snoc :
    (q : List ℕ) (c i : ℕ)
    → get_or (q ++ (c ∷ [])) i 0 ≡ (if i == length q then c else get_or q i 0)
get_or-snoc [] c zero = refl
get_or-snoc [] c (suc i) = ground arith
get_or-snoc (x ∷ q) c zero = ground arith
get_or-snoc (x ∷ q) c (suc i) = ground (arith, get_or-snoc q c i)

-- The place of the next byte is not that of a byte that the pipe holds.
apart :
    (p : Pipe) (q : List ℕ) (i : ℕ)
    → Holds p q
    → length q < pipesize
    → i < length q
    → (p.nread + i) % pipesize ≢ p.nwrite % pipesize
apart p q i h l m e = omega (arith, h.count, h.small, e)

pub Holds-put :
    (p : Pipe) (q : List ℕ) (c : ℕ)
    → Holds p q
    → length q < pipesize
    → Holds (put_byte c p) (q ++ (c ∷ []))
Holds-put p q c h l = record {
  room = omega (arith, length-append q (c ∷ []));
  small = h.small;
  count = omega (arith, length-append q (c ∷ []), h.count);
  stored = λ i m. elim (equal i (length q)) [
    | inl e ↦ ground (arith, get_or-snoc q c i, h.count, h.small, h.room, e)
    | inr n ↦ ground (
      arith,
      get_or-snoc q c i,
      h.stored i (omega (arith, n, m, length-append q (c ∷ []))),
      apart p q i h l (omega (arith, n, m, length-append q (c ∷ []))),
    )
  ];
}

pub Holds-skip : (p : Pipe) (q : List ℕ) (c : ℕ) → Holds p (c ∷ q) → Holds (skip_byte p) q
Holds-skip p q c h = record {
  room = omega (arith, h.room);
  small = omega arith;
  count = omega (arith, h.count, h.room);
  stored = λ i m. ap p.bytes (omega (arith, h.small)) ∙ h.stored (suc i) (omega arith);
}

pub Holds-next : (p : Pipe) (q : List ℕ) (c : ℕ) → Holds p (c ∷ q) → next_byte p ≡ c
Holds-next p q c h = ap p.bytes (omega arith) ∙ h.stored 0 (omega arith)

same_test : {a b c d : ℕ} → (a ≡ b → c ≡ d) → (c ≡ d → a ≡ b) → (a == b) ≡ (c == d)
same_test f g = ground (arith, f, g)

pub is_full-Holds : (p : Pipe) (q : List ℕ) → Holds p q → is_full p ≡ (length q == pipesize)
is_full-Holds p q h =
    same_test (λ e. omega (arith, h.count, h.room, h.small, e))
      (λ e. omega (arith, h.count, h.small, e))

pub is_empty-Holds : (p : Pipe) (q : List ℕ) → Holds p q → is_empty p ≡ (length q == 0)
is_empty-Holds p q h =
    same_test (λ e. omega (arith, h.count, h.room, h.small, e))
      (λ e. omega (arith, h.count, h.small, e))

pub is_empty-cons : (p : Pipe) (c : ℕ) (q : List ℕ) → Holds p (c ∷ q) → is_empty p ≡ false
is_empty-cons p c q h = is_empty-Holds p (c ∷ q) h ∙ ground arith
