-- ===== src/Vm/Ranges.antt =====
-- The loop of mappages of lab5/xv6-thread/kernel/vm.c, over the pages of a range.
use ecnu_oslab.Base.{
  ℕ, zero, suc, ◌+◌, ◌-◌, ◌*◌, ◌/◌, ◌%◌, ◌^◌, ◌≤◌, ◌<◌, ◌≡◌, ◌≢◌, ◌⊎◌, refl, ◌∙◌, ap, inl, inr,
  arith, Bool, true, false, List, [], ◌==◌, Bool-cases,
}
use ecnu_oslab.Fs.{Block}
use ecnu_oslab.Pages.{Ram}
use ecnu_oslab.Vm.{round_down, pte_p, has_flag, Out, done, map_loop, mappages}
use ecnu_oslab.Vm.Tables.{lookup, Tables}
use ecnu_oslab.Vm.Maps.{IsPerm, mapping, Changed, Stepped, no_memory, sets, map_page-Stepped}

-- The map c is b, but the n pages from a on go to those from pa on.
pub record Extends (pgdir a n pa : ℕ) (perm : List ℕ) (b c : Block) : Type 0 where
  pub inside :
      (v : ℕ)
      → v < 2 ^ 32
      → a ≤ v
      → v < a + 4096 * n
      → lookup c pgdir v ≡ mapping (pa + (v - a) / 4096 * 4096) perm
  pub outside :
      (v : ℕ) → v < 2 ^ 32 → (v < a) ⊎ (a + 4096 * n ≤ v) → lookup c pgdir v ≡ lookup b pgdir v

-- All pages are mapped, or the memory is used up and other pages keep their entries.
pub data Mapped (kend pgdir a n pa : ℕ) (perm : List ℕ) (r : Ram) : Out Bool → Type 0 where
  mapped :
      {free : List ℕ} {r' : Ram}
      → Tables kend pgdir free r'
      → Extends pgdir a n pa perm r.bytes r'.bytes
      → Mapped kend pgdir a n pa perm r (done true r')
  used_up :
      {r' : Ram}
      → Tables kend pgdir [] r'
      → ((v : ℕ)
          → v < 2 ^ 32
          → (v < a) ⊎ (a + 4096 * n ≤ v)
          → lookup r'.bytes pgdir v ≡ lookup r.bytes pgdir v)
      → Mapped kend pgdir a n pa perm r (done false r')

-- The pages that a range meets.
abbrev pub pages : (la size : ℕ) → ℕ
pages la size = suc ((round_down (la + size - 1) - round_down la) / 4096)

-- No page of the range has an entry.
abbrev pub Clear : (b : Block) → (pgdir a n : ℕ) → Type 0
Clear b pgdir a n =
    (v : ℕ) → v < 2 ^ 32 → a ≤ v → v < a + 4096 * n → has_flag pte_p (lookup b pgdir v) ≡ false

-- Outside a range with one page more in front.
beyond : (a n v : ℕ) → (v < a) ⊎ (a + 4096 * suc n ≤ v) → (v < a + 4096) ⊎ (a + 4096 + 4096 * n ≤ v)
beyond a n v (inl u) = inl (omega (arith, u))
beyond a n v (inr u) = inr (omega (arith, u))

not_first : (a n v : ℕ) → a % 4096 ≡ 0 → (v < a) ⊎ (a + 4096 * suc n ≤ v) → v / 4096 ≢ a / 4096
not_first a n v al (inl u) e = absurd (omega (arith, u, e, al))
not_first a n v al (inr u) e = absurd (omega (arith, u, e, al))

module _ (kend pgdir a n pa : ℕ) (perm : List ℕ) (al : a % 4096 ≡ 0) where
  one_page : {b c : Block} → Changed pgdir a (mapping pa perm) b c → Extends pgdir a 1 pa perm b c
  one_page {b} {c} h = record {
    inside = λ v l u w.
        h.at_page v l (omega (arith, u, w, al)) ∙ ap (λ z. mapping z perm) (omega (arith, u, w));
    outside = λ v l o. h.elsewhere v l (not_first a 0 v al o);
  }

  -- One page in front of n pages.
  more_pages :
      {b c d : Block}
      → Changed pgdir a (mapping pa perm) b c
      → Extends pgdir (a + 4096) n (pa + 4096) perm c d
      → a + 4096 * suc n ≤ 2 ^ 32
      → Extends pgdir a (suc n) pa perm b d
  more_pages {b} {c} {d} h x top = record {
    inside = λ v l u w. elim (Bool-cases (v / 4096 == a / 4096)) [
      | inl e ↦
          x.outside v l (inl (ground (arith, e, al, u)))
          ∙ h.at_page v l (ground (arith, e))
          ∙ ap (λ z. mapping z perm) (ground (arith, e, al, u))
      | inr e ↦
          x.inside v l (ground (arith, e, al, u)) (omega (arith, w))
          ∙ ap (λ z. mapping z perm) (ground (arith, e, al, u))
    ];
    outside = λ v l o. x.outside v l (beyond a n v o) ∙ h.elsewhere v l (not_first a n v al o);
  }

  Mapped-more :
      {r r' : Ram} {o : Out Bool}
      → Changed pgdir a (mapping pa perm) r.bytes r'.bytes
      → a + 4096 * suc n ≤ 2 ^ 32
      → Mapped kend pgdir (a + 4096) n (pa + 4096) perm r' o
      → Mapped kend pgdir a (suc n) pa perm r o
  Mapped-more h top (mapped t x) = mapped t (more_pages h x top)
  Mapped-more h top (used_up t s) =
      used_up t (λ v l o. s v l (beyond a n v o) ∙ h.elsewhere v l (not_first a n v al o))

  -- A round behind which n pages are left.
  last-Mapped :
      {next : Ram → Out Bool} {last : ℕ} {r : Ram} {o : Out Bool}
      → (a == last) ≡ true
      → Stepped kend pgdir a last (mapping pa perm) next r o
      → Mapped kend pgdir a 1 pa perm r o
  last-Mapped e (no_memory t) = used_up t (λ v l o. refl)
  last-Mapped e (sets t h) = rw e (mapped t (one_page h))

  next-Mapped :
      {next : Ram → Out Bool} {last : ℕ} {r : Ram} {o : Out Bool}
      → (a == last) ≡ false
      → a + 4096 * suc n ≤ 2 ^ 32
      → Clear r.bytes pgdir a (suc n)
      → ((free : List ℕ) (r' : Ram)
          → Tables kend pgdir free r'
          → Clear r'.bytes pgdir (a + 4096) n
          → Mapped kend pgdir (a + 4096) n (pa + 4096) perm r' (next r'))
      → Stepped kend pgdir a last (mapping pa perm) next r o
      → Mapped kend pgdir a (suc n) pa perm r o
  next-Mapped e top clear rest (no_memory t) = used_up t (λ v l o. refl)
  next-Mapped e top clear rest (sets {r' = r'} t h) = rw e (
      Mapped-more h top (
        rest _ r' t (λ v l u w.
          ap (λ z. has_flag pte_p z) (h.elsewhere v l (not_first_page v u))
          ∙ clear v l (omega (arith, u)) (omega (arith, w)))))
    where
      not_first_page : (v : ℕ) → a + 4096 ≤ v → v / 4096 ≢ a / 4096
      not_first_page v u q = absurd (omega (arith, u, q, al))

map_loop-Mapped :
    (kend pgdir : ℕ) (perm : List ℕ) (n a last pa : ℕ) (free : List ℕ) (r : Ram)
    → IsPerm perm
    → Tables kend pgdir free r
    → a % 4096 ≡ 0
    → last ≡ a + 4096 * n
    → a + 4096 * suc n ≤ 2 ^ 32
    → pa + 4096 * suc n ≤ 2 ^ 32
    → Clear r.bytes pgdir a (suc n)
    → Mapped kend pgdir a (suc n) pa perm r (map_loop (suc n) pgdir a last pa perm r)
unfolding map_loop
map_loop-Mapped kend pgdir perm zero a last pa free r p t al e top top' clear =
    last-Mapped kend pgdir a 0 pa perm al (ground (arith, e)) (
      map_page-Stepped kend pgdir a last pa perm _ (omega (arith, top)) (omega (arith, top')) p free
        r t (clear a (omega (arith, top)) (omega arith) (omega arith)))
map_loop-Mapped kend pgdir perm (suc n) a last pa free r p t al e top top' clear =
    next-Mapped kend pgdir a (suc n) pa perm al (ground (arith, e)) top clear
      (λ free' r' t' c.
        rw (step, step')
          (map_loop-Mapped kend pgdir perm n (a + 4096) last (pa + 4096) free' r' p t'
            (omega (arith, al)) (omega (arith, e)) (omega (arith, top)) (omega (arith, top')) c))
      (map_page-Stepped kend pgdir a last pa perm _ (omega (arith, top)) (omega (arith, top')) p
        free r t (clear a (omega (arith, top)) (omega arith) (omega arith)))
  where
    step : (a + 4096) % 2 ^ 32 ≡ a + 4096
    step = omega (arith, top)

    step' : (pa + 4096) % 2 ^ 32 ≡ pa + 4096
    step' = omega (arith, top')

-- For a range of at least a byte that does not reach past 2^32, physical pages that do not either,
-- and a permission of PTE_W and PTE_U: if the directory and its tables are pages of the memory that
-- are not free and differ, and no page of the range has an entry, mappages ends without a panic.
-- Either it returns 0, and then the directory and its tables are such pages again, each page of the
-- range has the entry of its physical page with the flags and PTE_P, and the entries of all other
-- pages are as before; or it returns -1, no page is free, and the entries of the pages outside the
-- range are as before.
pub mappages-Mapped :
    (kend pgdir la size pa : ℕ) (perm : List ℕ) (free : List ℕ) (r : Ram)
    → IsPerm perm
    → Tables kend pgdir free r
    → 0 < size
    → la + size ≤ 2 ^ 32
    → pa + 4096 * pages la size ≤ 2 ^ 32
    → Clear r.bytes pgdir (round_down la) (pages la size)
    → Mapped kend pgdir (round_down la) (pages la size) pa perm r (mappages pgdir la size pa perm r)
unfolding mappages
mappages-Mapped kend pgdir la size pa perm free r p t z top top' clear =
    rw (rounds, last)
      (map_loop-Mapped kend pgdir perm ((round_down (la + size - 1) - round_down la) / 4096)
        (round_down la) _ pa free r p t (omega arith) (omega (arith, z, top))
        (omega (arith, z, top)) (omega (arith, top')) clear)
  where
    last : round_down ((la + size + 2 ^ 32 - 1) % 2 ^ 32) ≡ round_down (la + size - 1)
    last = omega (arith, z, top)

    rounds :
        (round_down ((la + size + 2 ^ 32 - 1) % 2 ^ 32) + 2 ^ 32 - round_down la) % 2 ^ 32 / 4096
          + 1
        ≡ suc ((round_down (la + size - 1) - round_down la) / 4096)
    rounds = omega (arith, z, top)
