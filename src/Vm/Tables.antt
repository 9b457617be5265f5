-- ===== src/Vm/Tables.antt =====
-- The page tables of lab5/xv6-thread/kernel/vm.c beside the list of free pages, and the map that
-- they stand for.
use ecnu_oslab.Base.{
  ℕ, ◌+◌, ◌*◌, ◌≤◌, ◌<◌, ◌≡◌, ◌≢◌, ◌⊎◌, sym, ◌∙◌, ap, subst, inl, inr, arith, Bool, true, List, In,
  if◌then◌else◌,
}
use ecnu_oslab.Fs.{Block, word, set_word}
use ecnu_oslab.Fs.Dinode.{Outside, word-Outside, set_word-Outside}
use ecnu_oslab.Pages.{Ram}
use ecnu_oslab.Pages.Chain.{IsPage, Chain, Chain-IsPage, Chain-same}
use ecnu_oslab.Vm.{pdx, ptx, pte_addr, pte_p, has_flag}

-- Entry d of the directory, and its table.
abbrev pub pde : Block → (pgdir d : ℕ) → ℕ
pde b pgdir d = word b (pgdir + 4 * d)

abbrev pub present : Block → (pgdir d : ℕ) → Bool
present b pgdir d = has_flag pte_p (pde b pgdir d)

abbrev pub table : Block → (pgdir d : ℕ) → ℕ
table b pgdir d = pte_addr (pde b pgdir d)

-- The map: the entry for an address, 0 if it has no table.
unfoldable pub lookup : Block → (pgdir va : ℕ) → ℕ
lookup b pgdir va =
    if present b pgdir (pdx va) then word b (table b pgdir (pdx va) + 4 * ptx va) else 0

-- The directory and its tables are pages that are not free and differ from each other.
pub record Tables (kend pgdir : ℕ) (free : List ℕ) (r : Ram) : Type 0 where
  pub chain : Chain kend r.bytes free r.freelist
  pub page : IsPage kend pgdir
  pub kept : In pgdir free → ⊥
  pub table_page :
      (d : ℕ) → d < 1024 → present r.bytes pgdir d ≡ true → IsPage kend (table r.bytes pgdir d)
  pub table_kept :
      (d : ℕ) → d < 1024 → present r.bytes pgdir d ≡ true → In (table r.bytes pgdir d) free → ⊥
  pub table_other :
      (d : ℕ) → d < 1024 → present r.bytes pgdir d ≡ true → table r.bytes pgdir d ≢ pgdir
  pub distinct :
      (d e : ℕ)
      → d < 1024
      → e < 1024
      → present r.bytes pgdir d ≡ true
      → present r.bytes pgdir e ≡ true
      → table r.bytes pgdir d ≡ table r.bytes pgdir e
      → d ≡ e

pages_apart :
    (kend p q : ℕ) → IsPage kend p → IsPage kend q → p ≢ q → (p + 4096 ≤ q) ⊎ (q + 4096 ≤ p)
pages_apart kend p q (a, l, h, z) (a', l', h', z') n = ground (arith, a, a', n)

-- A change of one page does not touch the words of another.
pub word-elsewhere :
    (kend p q : ℕ) (b c : Block)
    → IsPage kend p
    → IsPage kend q
    → p ≢ q
    → Outside q 4096 b c
    → (j : ℕ) → j < 1024
    → word c (p + 4 * j) ≡ word b (p + 4 * j)
word-elsewhere kend p q b c w v n o j l =
    word-Outside q 4096 b c o (p + 4 * j) (place (pages_apart kend p q w v n))
  where
    place : (p + 4096 ≤ q) ⊎ (q + 4096 ≤ p) → (p + 4 * j + 4 ≤ q) ⊎ (q + 4096 ≤ p + 4 * j)
    place (inl u) = inl (omega (arith, u, l))
    place (inr u) = inr (omega (arith, u))

pub set_word-page : (b : Block) (q j x : ℕ) → j < 1024 → Outside q 4096 b (set_word b (q + 4 * j) x)
set_word-page b q j x l i (inl u) = set_word-Outside b (q + 4 * j) x i (inl (omega (arith, u)))
set_word-page b q j x l i (inr u) = set_word-Outside b (q + 4 * j) x i (inr (omega (arith, u, l)))

-- Another word of the same page.
pub word-beside :
    (b : Block) (q j k x : ℕ)
    → j ≢ k
    → word (set_word b (q + 4 * j) x) (q + 4 * k) ≡ word b (q + 4 * k)
word-beside b q j k x n =
    word-Outside (q + 4 * j) 4 b (set_word b (q + 4 * j) x) (set_word-Outside b (q + 4 * j) x)
      (q + 4 * k) (side n)
  where
    side : j ≢ k → (q + 4 * k + 4 ≤ q + 4 * j) ⊎ (q + 4 * j + 4 ≤ q + 4 * k)
    side m = ground (arith, m)

-- Memory that has the same directory and the same links of free pages.
pub Tables-same :
    (kend pgdir : ℕ) (free : List ℕ) (r : Ram) (b : Block)
    → Tables kend pgdir free r
    → ((d : ℕ) → d < 1024 → pde b pgdir d ≡ pde r.bytes pgdir d)
    → ((p : ℕ) → In p free → word b p ≡ word r.bytes p)
    → Tables kend pgdir free (record r { bytes = b })
Tables-same kend pgdir free r b t same links = record {
  chain = Chain-same kend r.bytes b free r.freelist t.chain links;
  page = t.page;
  kept = t.kept;
  table_page = λ d l e.
      subst (λ x. IsPage kend (pte_addr x)) (sym (same d l)) (t.table_page d l (there d l e));
  table_kept =
      λ d l e m. t.table_kept d l (there d l e) (subst (λ x. In (pte_addr x) free) (same d l) m);
  table_other =
      λ d l e q. t.table_other d l (there d l e) (sym (ap (λ x. pte_addr x) (same d l)) ∙ q);
  distinct = λ d e l m u v q.
      t.distinct d e l m (there d l u) (there e m v)
        (sym (ap (λ x. pte_addr x) (same d l)) ∙ q ∙ ap (λ x. pte_addr x) (same e m));
}
  where
    there : (d : ℕ) → d < 1024 → present b pgdir d ≡ true → present r.bytes pgdir d ≡ true
    there d l e = subst (λ x. has_flag pte_p x ≡ true) (same d l) e

-- The words of free pages are not touched by a change of a page that is not free.
pub links-elsewhere :
    (kend q : ℕ) (free : List ℕ) (r : Ram) (c : Block)
    → Chain kend r.bytes free r.freelist
    → IsPage kend q
    → (In q free → ⊥)
    → Outside q 4096 r.bytes c
    → (p : ℕ) → In p free
    → word c p ≡ word r.bytes p
links-elsewhere kend q free r c ch v n o p m = at_zero (
    word-elsewhere kend p q r.bytes c (Chain-IsPage kend r.bytes free r.freelist ch p m) v
      (λ e. n (subst (λ x. In x free) e m)) o 0 (omega arith))
  where
    at_zero : word c (p + 4 * 0) ≡ word r.bytes (p + 4 * 0) → word c p ≡ word r.bytes p
    at_zero e = subst (λ x. word c x ≡ word r.bytes x) (omega arith) e
