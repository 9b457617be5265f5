-- ===== src/Vm/Maps.antt =====
-- mappages of lab5/xv6-thread/kernel/vm.c: the map of addresses after it.
use ecnu_oslab.Base.{
  ℕ, ◌+◌, ◌*◌, ◌/◌, ◌^◌, ◌<◌, ◌≡◌, ◌≢◌, ◌⊎◌, refl, sym, ◌∙◌, ap, subst, inl, inr, arith, Bool, true,
  false, List, [], ◌∷◌, All, ◌==◌, if◌then◌else◌, equal,
}
use ecnu_oslab.Fs.{Block, word}
use ecnu_oslab.Pages.{Ram}
use ecnu_oslab.Vm.{
  pdx, ptx, pte_p, has_flag, set_flag, or_flags, Out, done, panic, set_pte, map_page,
}
use ecnu_oslab.Vm.Tables.{present, table, lookup, Tables}
use ecnu_oslab.Vm.Entries.{lookup-there, written, written-Tables, written-same, written-other}
use ecnu_oslab.Vm.Walk.{Walked, used_up, entry, walkpgdir-Walked}

-- The flags of a permission: PTE_W and PTE_U.
abbrev pub IsPerm : List ℕ → Type 0
IsPerm perm = All (λ f. (f ≡ 2) ⊎ (f ≡ 4)) perm

-- pa | perm | PTE_P
abbrev pub mapping : (pa : ℕ) → (perm : List ℕ) → ℕ
mapping pa perm = set_flag pte_p (or_flags pa perm)

set_flag-page : (f x : ℕ) → (f ≡ 1) ⊎ ((f ≡ 2) ⊎ (f ≡ 4)) → set_flag f x / 4096 ≡ x / 4096
set_flag-page f x (inl e) = rw e (ground arith)
set_flag-page f x (inr (inl e)) = rw e (ground arith)
set_flag-page f x (inr (inr e)) = rw e (ground arith)

or_flags-page : (fs : List ℕ) (x : ℕ) → IsPerm fs → or_flags x fs / 4096 ≡ x / 4096
or_flags-page [] x a = refl
or_flags-page (f ∷ fs) x (p, a) = or_flags-page fs (set_flag f x) a ∙ set_flag-page f x (inr p)

pub mapping-page : (pa : ℕ) (perm : List ℕ) → IsPerm perm → mapping pa perm / 4096 ≡ pa / 4096
mapping-page pa perm a = set_flag-page 1 (or_flags pa perm) (inl refl) ∙ or_flags-page perm pa a

pub mapping-present : (pa : ℕ) (perm : List ℕ) → has_flag pte_p (mapping pa perm) ≡ true
mapping-present pa perm = flagged (or_flags pa perm)
  where
    flagged : (x : ℕ) → has_flag pte_p (set_flag pte_p x) ≡ true
    flagged x = ground arith

-- One page of the map is new.
pub record Changed (pgdir va x : ℕ) (b c : Block) : Type 0 where
  pub at_page : (v : ℕ) → v < 2 ^ 32 → v / 4096 ≡ va / 4096 → lookup c pgdir v ≡ x
  pub elsewhere : (v : ℕ) → v < 2 ^ 32 → v / 4096 ≢ va / 4096 → lookup c pgdir v ≡ lookup b pgdir v

-- What one round of mappages does: it stops for want of memory, or it sets the entry and goes on.
pub data Stepped (kend pgdir a last x : ℕ) (next : Ram → Out Bool) (r : Ram)
    : Out Bool → Type 0 where
  no_memory : Tables kend pgdir [] r → Stepped kend pgdir a last x next r (done false r)
  sets :
      {free : List ℕ} {r' : Ram}
      → Tables kend pgdir free r'
      → Changed pgdir a x r.bytes r'.bytes
      → Stepped kend pgdir a last x next r (if a == last then done true r' else next r')

same_entry :
    (va v : ℕ)
    → v < 2 ^ 32
    → v / 4096 ≡ va / 4096
    → va < 2 ^ 32
    → (pdx va ≡ pdx v) × (ptx va ≡ ptx v)
same_entry va v l e m = (omega (arith, e), omega (arith, e))

other_entry :
    (va v : ℕ)
    → v < 2 ^ 32
    → v / 4096 ≢ va / 4096
    → va < 2 ^ 32
    → (pdx va ≢ pdx v) ⊎ (ptx va ≢ ptx v)
other_entry va v l n m = elim (equal (pdx va) (pdx v)) [
  | inr u ↦ inl u
  | inl u ↦ inr (λ w. n (omega (arith, u, w, l, m)))
]

-- The round behind walkpgdir.
abbrev behind_walk :
    (pgdir a last pa : ℕ) → (perm : List ℕ) → (next : Ram → Out Bool) → ℕ × Ram → Out Bool
behind_walk pgdir a last pa perm next (pte, r) =
    if pte == 0
    then done false r
    else if has_flag pte_p (word r.bytes pte)
    then panic
    else if a == last
    then done true (set_pte pte pa perm r)
    else next (set_pte pte pa perm r)

module _ (kend pgdir a last pa : ℕ) (perm : List ℕ) (next : Ram → Out Bool) (l : a < 2 ^ 32)
    (m : pa < 2 ^ 32) (p : IsPerm perm) where
  entry-Stepped :
      (free : List ℕ) (r r' : Ram)
      → has_flag pte_p (lookup r.bytes pgdir a) ≡ false
      → Tables kend pgdir free r'
      → ((v : ℕ) → lookup r'.bytes pgdir v ≡ lookup r.bytes pgdir v)
      → present r'.bytes pgdir (pdx a) ≡ true
      → Stepped kend pgdir a last
          (mapping pa perm)
          next
          r
          (behind_walk pgdir a last pa perm next (table r'.bytes pgdir (pdx a) + 4 * ptx a, r'))
  unfolding written
  entry-Stepped free r r' clear t same q =
      rw (used, empty, behind_walk)
        (sets (written-Tables kend pgdir free r' t (pdx a) (ptx a) x (omega arith) (omega arith) q)
          (record {
            at_page = λ v h e.
                written-same kend pgdir free r' t a v x q small (same_entry a v h e l).0
                  (same_entry a v h e l).1;
            elsewhere = λ v h n.
                written-other kend pgdir free r' t a v x q (other_entry a v h n l) ∙ same v;
          }))
    where
      x : ℕ
      x = mapping pa perm

      small : mapping pa perm < 2 ^ 32
      small = omega (arith, mapping-page pa perm p, m)

      used : (table r'.bytes pgdir (pdx a) + 4 * ptx a == 0) ≡ false
      used = ground (arith, t.table_page (pdx a) (omega arith) q)

      empty : has_flag pte_p (word r'.bytes (table r'.bytes pgdir (pdx a) + 4 * ptx a)) ≡ false
      empty = ap (λ z. has_flag pte_p z) (sym (lookup-there r'.bytes pgdir a q) ∙ same a) ∙ clear

  pub map_page-Stepped :
      (free : List ℕ) (r : Ram)
      → Tables kend pgdir free r
      → has_flag pte_p (lookup r.bytes pgdir a) ≡ false
      → Stepped kend pgdir a last (mapping pa perm) next r (map_page pgdir a last pa perm next r)
  unfolding map_page
  map_page-Stepped free r t clear = walked (walkpgdir-Walked kend pgdir free r a t)
    where
      walked :
          {w : ℕ × Ram}
          → Walked kend pgdir free r a w
          → Stepped kend pgdir a last
              (mapping pa perm)
              next
              r
              (behind_walk pgdir a last pa perm next w)
      walked (used_up e) = no_memory (subst (λ z. Tables kend pgdir z r) e t)
      walked (entry {r' = r'} t' same q) = entry-Stepped _ r r' clear t' same q
