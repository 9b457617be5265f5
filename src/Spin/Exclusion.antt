-- ===== src/Spin/Exclusion.antt =====
-- Mutual exclusion by the lock of lab5/xv6-thread/kernel/spinlock.c.
use ecnu_oslab.Base.{
  ℕ, ◌+◌, ◌-◌, ◌<◌, ◌≡◌, ◌≢◌, refl, sym, ap, ◌∙◌, subst, inl, inr, arith, Bool, true, false, ◌&&◌,
  none, some, ◌==◌, equal,
}
use mathlib.Core.Option.{some-injective}
use ecnu_oslab.Spin.{
  Cpu, Spinlock, pushcli, popcli, holding, Place, outside, spinning, won, inside, leaving, left,
  Machine, move, LockStep, elsewhere, enters, spins, wins, marks, nests, unnests, leaves, frees,
  pops, LockRun, stay, next, start,
}

-- The processor has got the lock and not given it back.
abbrev pub owns : Place → Bool
owns won = true
owns inside = true
owns leaving = true
owns _ = false

abbrev in_call : Place → Bool
in_call outside = false
in_call _ = true

-- At most one processor owns the lock, and only while it is locked; a processor between acquire and
-- release is the one that the lock names; and in all of acquire and release interrupts are off.
record Exclusive (m : Machine) : Type 0 where
  one : (i j : ℕ) → owns (m.places i) ≡ true → owns (m.places j) ≡ true → i ≡ j
  taken : (i : ℕ) → owns (m.places i) ≡ true → m.lock.locked ≡ true
  named : (i : ℕ) → m.places i ≡ inside → m.lock.cpu ≡ i + 1
  counted : (i : ℕ) → in_call (m.places i) ≡ true → 0 < (m.cpus i).ncli
  masked : (i : ℕ) → 0 < (m.cpus i).ncli → (m.cpus i).fl_if ≡ false

-- A processor that does not own the lock moves to a place where it does not own it either.
moves_free :
    (m : Machine) (i : ℕ) (p : Place) (c : Cpu) (lk : Spinlock)
    → Exclusive m
    → (owns p ≡ true → owns (m.places i) ≡ true)
    → (p ≡ inside → m.places i ≡ inside)
    → ((j : ℕ) → j ≢ i → owns (m.places j) ≡ true → lk.locked ≡ true)
    → (owns p ≡ true → lk.locked ≡ true)
    → lk.cpu ≡ m.lock.cpu
    → (in_call p ≡ true → 0 < c.ncli)
    → (0 < c.ncli → c.fl_if ≡ false)
    → Exclusive (move i p c lk m)
moves_free m i p c lk ok o q t t' n k f = record {
  one = λ a b u v. ok.one a b (back a u) (back b v);
  taken = λ a u. elim (equal a i) [
    | inl e ↦ t' (ground (arith, e, u))
    | inr d ↦ t a d (ground (arith, d, u))
  ];
  named = λ a u. elim (equal a i) [
    | inl e ↦ n ∙ ok.named a (subst (λ x. m.places x ≡ inside) (sym e) (q (ground (arith, e, u))))
    | inr d ↦ n ∙ ok.named a (ground (arith, d, u))
  ];
  counted = λ a u. elim (equal a i) [
    | inl e ↦ ground (arith, e, k (ground (arith, e, u)))
    | inr d ↦ ground (arith, d, ok.counted a (ground (arith, d, u)))
  ];
  masked = λ a u. elim (equal a i) [
    | inl e ↦ ground (arith, e, f (ground (arith, e, u)))
    | inr d ↦ ground (arith, d, ok.masked a (ground (arith, d, u)))
  ];
}
  where
    back : (a : ℕ) → owns ((move i p c lk m).places a) ≡ true → owns (m.places a) ≡ true
    back a u = elim (equal a i) [
      | inl e ↦ ground (arith, e, o (ground (arith, e, u)))
      | inr d ↦ ground (arith, d, u)
    ]

-- A processor moves to a place where it owns the lock, while no other one does.
moves_own :
    (m : Machine) (i : ℕ) (p : Place) (c : Cpu) (lk : Spinlock)
    → Exclusive m
    → ((j : ℕ) → j ≢ i → owns (m.places j) ≡ true → ⊥)
    → lk.locked ≡ true
    → (p ≡ inside → lk.cpu ≡ i + 1)
    → 0 < c.ncli
    → c.fl_if ≡ false
    → Exclusive (move i p c lk m)
moves_own m i p c lk ok sole t n k f = record {
  one = λ a b u v. only a u ∙ sym (only b v);
  taken = λ a u. t;
  named = λ a u. elim (equal a i) [
    | inl e ↦ n (ground (arith, e, u)) ∙ ap (λ x. x + 1) (sym e)
    | inr d ↦ (let q : m.places a ≡ inside = ground (arith, d, u) in absurd (sole a d (ap owns q)))
  ];
  counted = λ a u. elim (equal a i) [
    | inl e ↦ ground (arith, e, k)
    | inr d ↦ ground (arith, d, ok.counted a (ground (arith, d, u)))
  ];
  masked = λ a u. elim (equal a i) [
    | inl e ↦ ground (arith, e, f)
    | inr d ↦ ground (arith, d, ok.masked a (ground (arith, d, u)))
  ];
}
  where
    only : (a : ℕ) → owns ((move i p c lk m).places a) ≡ true → a ≡ i
    only a u = elim (equal a i) [ inl e ↦ e | inr d ↦ absurd (sole a d (ground (arith, d, u))) ]

-- The owner is the only one.
others :
    (m : Machine) (i : ℕ)
    → Exclusive m
    → owns (m.places i) ≡ true
    → (j : ℕ) → j ≢ i
    → owns (m.places j) ≡ true
    → ⊥
others m i ok o j d u = d (ok.one j i u o)

popcli-some :
    (c : Cpu)
    → 0 < c.ncli
    → c.fl_if ≡ false
    → popcli c ≡ some (record c { ncli = c.ncli - 1; fl_if = c.ncli == 1 && c.intena })
unfolding popcli
popcli-some c k f = rw (f, used) refl
  where
    used : (c.ncli == 0) ≡ false
    used = ground (arith, k)

popped :
    (c d : Cpu)
    → 0 < c.ncli
    → c.fl_if ≡ false
    → popcli c ≡ some d
    → (d.ncli ≡ c.ncli - 1) × (0 < d.ncli → d.fl_if ≡ false)
popped c d k f e =
    let same =
      some-injective (record c { ncli = c.ncli - 1; fl_if = c.ncli == 1 && c.intena }) d
        (sym (popcli-some c k f) ∙ e) in
    (
      sym (ap (λ x. x.ncli) same),
      λ l. sym (ap (λ x. x.fl_if) same) ∙ ground (arith, l, ap (λ x. x.ncli) same),
    )

LockStep-Exclusive : {m n : Machine} → LockStep m n → Exclusive m → Exclusive n
LockStep-Exclusive {m} (elsewhere i c e f) ok =
    moves_free m i outside c m.lock ok (λ u. absurd (ground (arith, u)))
      (λ u. absurd (ground (arith, u))) (λ j d u. ok.taken j u) (λ u. absurd (ground (arith, u)))
      refl (λ u. absurd (ground (arith, u))) f
LockStep-Exclusive {m} (enters i e h) ok =
    moves_free m i spinning (pushcli (m.cpus i)) m.lock ok (λ u. absurd (ground (arith, u)))
      (λ u. absurd (ground (arith, u))) (λ j d u. ok.taken j u) (λ u. absurd (ground (arith, u)))
      refl (λ u. omega arith) (λ l. refl)
LockStep-Exclusive {m} (spins i e l) ok =
    moves_free m i spinning (m.cpus i) (record m.lock { locked = true }) ok
      (λ u. absurd (ground (arith, u))) (λ u. absurd (ground (arith, u))) (λ j d u. refl)
      (λ u. refl) refl (λ u. ok.counted i (ap in_call e)) (ok.masked i)
LockStep-Exclusive {m} (wins i e l) ok =
    moves_own m i won (m.cpus i) (record m.lock { locked = true }) ok
      (λ j d u. ground (arith, l, ok.taken j u)) refl (λ u. absurd (ground (arith, u)))
      (ok.counted i (ap in_call e)) (ok.masked i (ok.counted i (ap in_call e)))
LockStep-Exclusive {m} (marks i e) ok =
    moves_own m i inside (m.cpus i) (record m.lock { cpu = i + 1 }) ok (others m i ok (ap owns e))
      (ok.taken i (ap owns e)) (λ u. refl) (ok.counted i (ap in_call e))
      (ok.masked i (ok.counted i (ap in_call e)))
LockStep-Exclusive {m} (nests i e) ok =
    moves_own m i inside (pushcli (m.cpus i)) m.lock ok (others m i ok (ap owns e))
      (ok.taken i (ap owns e)) (λ u. ok.named i e) (omega arith) refl
LockStep-Exclusive {m} (unnests i c e l p) ok =
    let k = ok.counted i (ap in_call e) in
    let (n, f) = popped (m.cpus i) c k (ok.masked i k) p in
    moves_own m i inside c m.lock ok (others m i ok (ap owns e)) (ok.taken i (ap owns e))
      (λ u. ok.named i e) (omega (arith, n, l)) (f (omega (arith, n, l)))
LockStep-Exclusive {m} (leaves i e h) ok =
    moves_own m i leaving (m.cpus i) (record m.lock { cpu = 0 }) ok (others m i ok (ap owns e))
      (ok.taken i (ap owns e)) (λ u. absurd (ground (arith, u))) (ok.counted i (ap in_call e))
      (ok.masked i (ok.counted i (ap in_call e)))
LockStep-Exclusive {m} (frees i e) ok =
    moves_free m i left (m.cpus i) (record m.lock { locked = false }) ok
      (λ u. absurd (ground (arith, u))) (λ u. absurd (ground (arith, u)))
      (λ j d u. absurd (others m i ok (ap owns e) j d u)) (λ u. absurd (ground (arith, u))) refl
      (λ u. ok.counted i (ap in_call e)) (ok.masked i)
LockStep-Exclusive {m} (pops i c e p) ok =
    let k = ok.counted i (ap in_call e) in
    moves_free m i outside c m.lock ok (λ u. absurd (ground (arith, u)))
      (λ u. absurd (ground (arith, u))) (λ j d u. ok.taken j u) (λ u. absurd (ground (arith, u)))
      refl (λ u. absurd (ground (arith, u))) (popped (m.cpus i) c k (ok.masked i k) p).1

LockRun-Exclusive : {m n : Machine} → LockRun m n → Exclusive m → Exclusive n
LockRun-Exclusive stay ok = ok
LockRun-Exclusive (next s r) ok = LockRun-Exclusive r (LockStep-Exclusive s ok)

-- Mutual exclusion: let no processor have interrupts on while its count is positive, and all be
-- outside at first. On every run of acquire and release on the processors, in any order, at most
-- one has got the lock and not given it back; for one that is between acquire and release, holding
-- is true, so that release does not panic, and its interrupts are off; and popcli at the end of
-- release does not panic.
pub LockRun-Exclusion :
    (cpus : ℕ → Cpu) (m : Machine)
    → ((i : ℕ) → 0 < (cpus i).ncli → (cpus i).fl_if ≡ false)
    → LockRun (start cpus) m
    → ((i j : ℕ) → owns (m.places i) ≡ true → owns (m.places j) ≡ true → i ≡ j)
      × ((i : ℕ) → m.places i ≡ inside → (holding i m.lock ≡ true) × ((m.cpus i).fl_if ≡ false))
      × ((i : ℕ) → m.places i ≡ left → popcli (m.cpus i) ≢ none)
LockRun-Exclusion cpus m f run =
    let ok = LockRun-Exclusive run (record {
      one = λ i j u v. absurd (ground (arith, u));
      taken = λ i u. absurd (ground (arith, u));
      named = λ i u. absurd (ground (arith, u));
      counted = λ i u. absurd (ground (arith, u));
      masked = f;
    }) in
    (
      ok.one,
      (λ i e. (
        ground (arith, ok.taken i (ap owns e), ok.named i e),
        ok.masked i (ok.counted i (ap in_call e)),
      )),
      (λ i e n.
          (let k = ok.counted i (ap in_call e) in
            ground (arith, sym (popcli-some (m.cpus i) k (ok.masked i k)) ∙ n))),
    )
