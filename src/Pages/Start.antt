-- ===== src/Pages/Start.antt =====
-- kinit of lab5/xv6-thread/kernel/kalloc.c, and what kalloc returns after it.
use ecnu_oslab.Base.{
  ℕ, zero, suc, ◌+◌, ◌-◌, ◌*◌, ◌/◌, ◌%◌, ◌≤◌, ◌<◌, ◌≡◌, ◌⊎◌, refl, sym, subst, inl, inr, arith,
  true, false, some, List, [], ◌∷◌, equal, In,
}
use ecnu_oslab.Pages.{pgsize, phystop, Ram, kalloc, free_range, round_up_page, kinit}
use ecnu_oslab.Pages.Chain.{IsPage, Chain, Chain-IsPage, given, Chain-kfree, Chain-kalloc}
use ecnu_oslab.Pages.Steps.{Pool, PageSteps, Parted, PageSteps-Parted}

-- The loop of kinit: the list that was there, and the pages of the range.
free_range-Chain :
    (kend n p : ℕ) (r : Ram) (ps : List ℕ)
    → Chain kend r.bytes ps r.freelist
    → ((q : ℕ) → In q ps → q < p)
    → kend ≤ p
    → 0 < p
    → p % pgsize ≡ 0
    → p + n * pgsize ≤ phystop
    → (r' : Ram) × (qs : List ℕ) × (free_range kend n p r ≡ some r')
      × Chain kend r'.bytes qs r'.freelist
      × ((q : ℕ) → In q ps → In q qs)
      × ((q : ℕ) → q % pgsize ≡ 0 → p ≤ q → q < p + n * pgsize → In q qs)
unfolding free_range
free_range-Chain kend zero p r ps c b k z a l =
    (r, ps, refl, c, (λ q m. m), (λ q d e f. absurd (omega (arith, e, f))))
free_range-Chain kend (suc n) p r ps c b k z a l =
    let (e, c') =
      Chain-kfree kend p r ps c (a, k, omega (arith, l), z) (λ m. absurd (omega (arith, b p m))) in
    let (r', qs, e', c'', old, new) =
      free_range-Chain kend n (p + pgsize) (given p r) (p ∷ ps) c'
        (λ q m. elim m [ inl u ↦ omega (arith, u) | inr m' ↦ omega (arith, b q m') ])
        (omega (arith, k)) (omega arith) (omega (arith, a)) (omega (arith, l)) in
    (
      r',
      qs,
      rw e e',
      c'',
      (λ q m. old q (inr m)),
      (λ q d f g. elim (equal q p) [
        | inl u ↦ old q (inl u)
        | inr v ↦ new q d (omega (arith, d, a, f, v)) (omega (arith, g))
      ]),
    )

-- The memory with no page handed out.
abbrev pub fresh_pool : Ram → Pool
fresh_pool r = record { ram = r; used = λ q. false }

-- Let `end` be above 0 and not above PHYSTOP, and the list empty at first. Then kinit does not
-- panic; and in every state that a run reaches after it, where pages are handed out by kalloc and
-- taken back by kfree, and the users write to the pages in use only, kalloc returns a page between
-- `end` and PHYSTOP that is not in use, or it returns 0, and every such page is in use.
pub kalloc_lem :
    (kend : ℕ) (r : Ram)
    → 0 < kend
    → kend ≤ phystop
    → r.freelist ≡ 0
    → (r' : Ram) × (kinit kend r ≡ some r')
      × ((s : Pool)
          → PageSteps kend (fresh_pool r') s
          → ((p : ℕ) × (r'' : Ram) × (kalloc s.ram ≡ (p, r'')) × IsPage kend p × (s.used p ≡ false))
            ⊎ ((kalloc s.ram ≡ (0, s.ram)) × ((p : ℕ) → IsPage kend p → s.used p ≡ true)))
kalloc_lem kend r z l e =
    let (r', qs, e', c, old, new) =
      free_range-Chain kend ((phystop - round_up_page kend) / pgsize) (round_up_page kend) r [] e
        (λ q m. elim m [ ]) (omega arith) (omega (arith, z)) (omega arith) (omega (arith, l)) in
    (
      r',
      e',
      λ s run. finish s (
          PageSteps-Parted kend run (record {
            free = qs;
            chain = c;
            idle = λ p m. refl;
            pages = λ p u. absurd (ground (arith, u));
            all = λ p w. inl (new p w.0 (omega (arith, w.1, w.0)) (omega (arith, w.2, w.0, l)));
          })),
    )
  where
    finish :
        (s : Pool)
        → Parted kend s
        → ((p : ℕ) × (r'' : Ram) × (kalloc s.ram ≡ (p, r'')) × IsPage kend p × (s.used p ≡ false))
          ⊎ ((kalloc s.ram ≡ (0, s.ram)) × ((p : ℕ) → IsPage kend p → s.used p ≡ true))
    finish s ok = elim (Chain-kalloc kend s.ram ok.free ok.chain) [
      | inr (p, qs, m, e', c) ↦ inl (
        p,
        _,
        e',
        Chain-IsPage kend s.ram.bytes ok.free s.ram.freelist ok.chain p
            (subst (In p) (sym m) (inl refl)),
        ok.idle p (subst (In p) (sym m) (inl refl)),
      )
      | inl (n, e') ↦
          inr (e', λ p w. elim (ok.all p w) [ inl m ↦ elim (subst (In p) n m) [ ] | inr u ↦ u ])
    ]
