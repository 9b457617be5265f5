-- ===== src/Vm/Access.antt =====
-- uva2ka of lab5/xv6-thread/kernel/vm.c on pages that mappages has mapped.
use ecnu_oslab.Base.{
  ℕ, ◌+◌, ◌-◌, ◌*◌, ◌/◌, ◌%◌, ◌^◌, ◌≤◌, ◌<◌, ◌≡◌, refl, ◌∙◌, ap, subst, inl, inr, arith, Bool, true,
  false, List, [], ◌∷◌, not, if◌then◌else◌, Bool-cases,
}
use ecnu_oslab.Fs.{Block}
use ecnu_oslab.Pages.{Ram}
use ecnu_oslab.Vm.{
  pdx, pte_addr, round_down, pte_p, pte_w, pte_u, has_flag, set_flag, done, walkpgdir, mappages,
}
use ecnu_oslab.Vm.Space.{uva2ka}
use ecnu_oslab.Vm.Tables.{present, lookup, Tables}
use ecnu_oslab.Vm.Entries.{lookup-there, lookup-absent}
use ecnu_oslab.Vm.Maps.{IsPerm, mapping, mapping-page, mapping-present}
use ecnu_oslab.Vm.Ranges.{pages, Clear, Mapped, mapped, mappages-Mapped}

-- An entry with PTE_P stands in a table.
entry-present :
    (b : Block) (pgdir va : ℕ)
    → has_flag pte_p (lookup b pgdir va) ≡ true
    → present b pgdir (pdx va) ≡ true
entry-present b pgdir va e = elim (Bool-cases (present b pgdir (pdx va))) [
  | inl q ↦ q
  | inr q ↦ absurd (nothing (lookup b pgdir va) (lookup-absent b pgdir va q) e)
]
  where
    nothing : (x : ℕ) → x ≡ 0 → has_flag pte_p x ≡ true → ⊥
    nothing x u v = ground (arith, u, v)

uva2ka-lookup :
    (pgdir va : ℕ) (r : Ram)
    → has_flag pte_p (lookup r.bytes pgdir va) ≡ true
    → uva2ka pgdir va r
      ≡ (if has_flag pte_u (lookup r.bytes pgdir va) then pte_addr (lookup r.bytes pgdir va) else 0)
unfolding uva2ka walkpgdir
uva2ka-lookup pgdir va r e = rw (q, walkpgdir) (at_entry _ (lookup-there r.bytes pgdir va q))
  where
    q : present r.bytes pgdir (pdx va) ≡ true
    q = entry-present r.bytes pgdir va e

    turn :
        (t : Bool)
        → (if not t then 0 else pte_addr (lookup r.bytes pgdir va))
          ≡ (if t then pte_addr (lookup r.bytes pgdir va) else 0)
    turn true = refl
    turn false = refl

    at_entry :
        (x : ℕ)
        → lookup r.bytes pgdir va ≡ x
        → (if not (has_flag pte_p x) then 0 else if not (has_flag pte_u x) then 0 else pte_addr x)
          ≡ (if has_flag pte_u (lookup r.bytes pgdir va)
              then pte_addr (lookup r.bytes pgdir va)
              else 0)
    at_entry x h = rw (← h, e) (turn (has_flag pte_u (lookup r.bytes pgdir va)))

Mapped-entries :
    {kend pgdir a n pa : ℕ} {perm : List ℕ} {r r' : Ram}
    → Mapped kend pgdir a n pa perm r (done true r')
    → (v : ℕ) → v < 2 ^ 32
    → a ≤ v
    → v < a + 4096 * n
    → lookup r'.bytes pgdir v ≡ mapping (pa + (v - a) / 4096 * 4096) perm
Mapped-entries (mapped t x) = x.inside

mapping-user : (pa : ℕ) → has_flag pte_u (mapping pa (pte_w ∷ pte_u ∷ [])) ≡ true
mapping-user pa = kept (set_flag pte_w pa)
  where
    kept : (x : ℕ) → has_flag pte_u (set_flag pte_p (set_flag pte_u x)) ≡ true
    kept x = ground arith

-- Let the directory and its tables be pages of the memory that are not free and differ, let no page
-- of a range of at least a byte have an entry, and let neither the range nor its physical pages,
-- which start at a page, reach past 2^32. If mappages maps the range to them with the flags PTE_W
-- and PTE_U and returns 0, then for every address of the pages of the range uva2ka returns the
-- physical page that its page goes to.
pub uva2ka-mappages :
    (kend pgdir la size pa : ℕ) (free : List ℕ) (r r' : Ram)
    → Tables kend pgdir free r
    → 0 < size
    → la + size ≤ 2 ^ 32
    → pa % 4096 ≡ 0
    → pa + 4096 * pages la size ≤ 2 ^ 32
    → Clear r.bytes pgdir (round_down la) (pages la size)
    → mappages pgdir la size pa (pte_w ∷ pte_u ∷ []) r ≡ done true r'
    → (v : ℕ) → round_down la ≤ v
    → v < round_down la + 4096 * pages la size
    → uva2ka pgdir v r' ≡ pa + (v - round_down la) / 4096 * 4096
uva2ka-mappages kend pgdir la size pa free r r' t z top al top' clear e v u w =
    uva2ka-lookup pgdir v r'
      (ap (λ x. has_flag pte_p x) known ∙ mapping-present page (pte_w ∷ pte_u ∷ []))
    ∙ rw (known, mapping-user page) found
  where
    perm : IsPerm (pte_w ∷ pte_u ∷ [])
    perm = (inl refl, (inr refl, tt))

    page : ℕ
    page = pa + (v - round_down la) / 4096 * 4096

    known : lookup r'.bytes pgdir v ≡ mapping page (pte_w ∷ pte_u ∷ [])
    known =
        Mapped-entries
          (subst (Mapped kend pgdir (round_down la) (pages la size) pa (pte_w ∷ pte_u ∷ []) r) e (
            mappages-Mapped kend pgdir la size pa (pte_w ∷ pte_u ∷ []) free r perm t z top top'
              clear))
          v (omega (arith, w, z, top)) u w

    found : pte_addr (mapping page (pte_w ∷ pte_u ∷ [])) ≡ page
    found = omega (arith, mapping-page page (pte_w ∷ pte_u ∷ []) perm, al)
