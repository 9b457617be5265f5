-- ===== src/Pages/Steps.antt =====
-- The allocator of lab5/xv6-thread/kernel/kalloc.c and its users as a transition system: which
-- pages are in use.
use ecnu_oslab.Base.{
  ℕ, ◌+◌, ◌≤◌, ◌<◌, ◌≡◌, ◌⊎◌, refl, sym, ap, ◌∙◌, subst, inl, inr, arith, Bool, true, false, some,
  List, ◌∷◌, ◌==◌, if◌then◌else◌, equal, In,
}
use mathlib.Core.Option.{some-injective}
use ecnu_oslab.Fs.{Block, word}
use ecnu_oslab.Pages.{pgsize, Ram, kfree, kalloc}
use ecnu_oslab.Pages.Chain.{
  IsPage, Chain, Chain-IsPage, Chain-same, given, apart, Chain-kfree, Chain-kalloc,
}

-- The memory, and which pages have been handed out.
pub record Pool : Type 0 where
  pub ram : Ram
  pub used : ℕ → Bool

-- kalloc hands out a page, kfree takes a page that is in use back, or the users write to their pages.
pub data PageStep (kend : ℕ) : Pool → Pool → Type 0 where
  gets :
      {s : Pool} (p : ℕ) (r : Ram)
      → kalloc s.ram ≡ (p, r)
      → 0 < p
      → PageStep kend s (record { ram = r; used = λ q. if q == p then true else s.used q })
  gives :
      {s : Pool} (v : ℕ) (r : Ram)
      → s.used v ≡ true
      → kfree kend v s.ram ≡ some r
      → PageStep kend s (record { ram = r; used = λ q. if q == v then false else s.used q })
  writes :
      {s : Pool} (b : Block)
      → ((i : ℕ) → ((p : ℕ) → s.used p ≡ true → (i < p) ⊎ (p + pgsize ≤ i)) → b i ≡ s.ram.bytes i)
      → PageStep kend s (record s { ram = record s.ram { bytes = b } })

pub data PageSteps (kend : ℕ) : Pool → Pool → Type 0 where
  stay : {s : Pool} → PageSteps kend s s
  next : {s t u : Pool} → PageStep kend s t → PageSteps kend t u → PageSteps kend s u

-- Every page is in the list or in use, and not both.
pub record Parted (kend : ℕ) (s : Pool) : Type 0 where
  pub free : List ℕ
  pub chain : Chain kend s.ram.bytes free s.ram.freelist
  pub idle : (p : ℕ) → In p free → s.used p ≡ false
  pub pages : (p : ℕ) → s.used p ≡ true → IsPage kend p
  pub all : (p : ℕ) → IsPage kend p → In p free ⊎ (s.used p ≡ true)

-- The first free page is in use.
taken :
    (kend : ℕ) (s : Pool) (p : ℕ) (qs : List ℕ) (ok : Parted kend s)
    → ok.free ≡ p ∷ qs
    → Chain kend s.ram.bytes qs (word s.ram.bytes p)
    → Parted kend (record {
      ram = record s.ram { freelist = word s.ram.bytes p };
      used = λ q. if q == p then true else s.used q;
    })
taken kend s p qs ok m c = record {
  free = qs;
  chain = c;
  idle = λ q n. elim (equal q p) [
    | inl e ↦ absurd (first.2 (subst (λ x. In x qs) e n))
    | inr d ↦ ground (arith, d, ok.idle q (subst (In q) (sym m) (inr n)))
  ];
  pages = λ q u. elim (equal q p) [
    | inl e ↦ subst (IsPage kend) (sym e) first.1
    | inr d ↦ ok.pages q (ground (arith, d, u))
  ];
  all = λ q w. elim (equal q p) [
    | inl e ↦ inr (ground (arith, e))
    | inr d ↦ elim (ok.all q w) [
      | inr u ↦ inr (ground (arith, d, u))
      | inl n ↦ elim (in_rest q n) [ inl e ↦ absurd (d e) | inr n' ↦ inl n' ]
    ]
  ];
}
  where
    first :
        (s.ram.freelist ≡ p)
        × IsPage kend p
        × (In p qs → ⊥)
        × Chain kend s.ram.bytes qs (word s.ram.bytes p)
    first = subst (λ l. Chain kend s.ram.bytes l s.ram.freelist) m ok.chain

    in_rest : (q : ℕ) → In q ok.free → (q ≡ p) ⊎ In q qs
    in_rest q n = subst (In q) m n

gets-Parted :
    (kend : ℕ) (s : Pool) (p : ℕ) (r : Ram)
    → Parted kend s
    → kalloc s.ram ≡ (p, r)
    → 0 < p
    → Parted kend (record { ram = r; used = λ q. if q == p then true else s.used q })
gets-Parted kend s p r ok e z = elim (Chain-kalloc kend s.ram ok.free ok.chain) [
  | inl (n, e') ↦ absurd (ground (arith, ap (λ x. x.0) (sym e ∙ e'), z))
  | inr (p', qs, m, e', c) ↦
      subst
        (λ x. Parted kend (record { ram = x.1; used = λ q. if q == x.0 then true else s.used q }))
        (sym e' ∙ e) (taken kend s p' qs ok m c)
]

gives-Parted :
    (kend : ℕ) (s : Pool) (v : ℕ) (r : Ram)
    → Parted kend s
    → s.used v ≡ true
    → kfree kend v s.ram ≡ some r
    → Parted kend (record { ram = r; used = λ q. if q == v then false else s.used q })
gives-Parted kend s v r ok u e =
    let (e', c) =
      Chain-kfree kend v s.ram ok.free ok.chain (ok.pages v u)
        (λ m. ground (arith, u, ok.idle v m)) in
    subst (λ x. Parted kend (record { ram = x; used = λ q. if q == v then false else s.used q }))
      (some-injective (given v s.ram) r (sym e' ∙ e))
      (record {
        free = v ∷ ok.free;
        chain = c;
        idle = λ p m. elim m [ inl q ↦ ground (arith, q) | inr m' ↦ ground (arith, ok.idle p m') ];
        pages = λ p w. ok.pages p (ground (arith, w));
        all = λ p w. elim (equal p v) [
          | inl q ↦ inl (inl q)
          | inr d ↦ elim (ok.all p w) [ inl m ↦ inl (inr m) | inr u' ↦ inr (ground (arith, d, u')) ]
        ];
      })

writes-Parted :
    (kend : ℕ) (s : Pool) (b : Block)
    → Parted kend s
    → ((i : ℕ) → ((p : ℕ) → s.used p ≡ true → (i < p) ⊎ (p + pgsize ≤ i)) → b i ≡ s.ram.bytes i)
    → Parted kend (record s { ram = record s.ram { bytes = b } })
writes-Parted kend s b ok h = record {
  free = ok.free;
  chain = Chain-same kend s.ram.bytes b ok.free s.ram.freelist ok.chain (λ p m.
      rw
        (
          kept p m p (omega arith) (omega arith),
          kept p m (p + 1) (omega arith) (omega arith),
          kept p m (p + 2) (omega arith) (omega arith),
          kept p m (p + 3) (omega arith) (omega arith),
        )
        refl);
  idle = ok.idle;
  pages = ok.pages;
  all = ok.all;
}
  where
    kept : (p : ℕ) → In p ok.free → (i : ℕ) → p ≤ i → i < p + 4 → b i ≡ s.ram.bytes i
    kept p m i k l = h i (λ q u.
        elim (apart kend q p (ok.pages q u)
          (Chain-IsPage kend s.ram.bytes ok.free s.ram.freelist ok.chain p m)
          (λ e. ground (arith, e, u, ok.idle p m))) [
            | inl x ↦ inl (omega (arith, x, l))
            | inr x ↦ inr (omega (arith, x, k))
          ])

pub PageSteps-Parted : (kend : ℕ) {s t : Pool} → PageSteps kend s t → Parted kend s → Parted kend t
PageSteps-Parted kend stay ok = ok
PageSteps-Parted kend (next {s} (gets p r e z) run) ok =
    PageSteps-Parted kend run (gets-Parted kend s p r ok e z)
PageSteps-Parted kend (next {s} (gives v r u e) run) ok =
    PageSteps-Parted kend run (gives-Parted kend s v r ok u e)
PageSteps-Parted kend (next {s} (writes b h) run) ok =
    PageSteps-Parted kend run (writes-Parted kend s b ok h)
