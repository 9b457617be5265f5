-- ===== src/Vm/Entries.antt =====
-- A write to an entry of a page table of lab5/xv6-thread/kernel/vm.c.
use ecnu_oslab.Base.{
  ℕ, ◌+◌, ◌*◌, ◌^◌, ◌<◌, ◌≡◌, ◌≢◌, ◌⊎◌, refl, sym, ◌∙◌, ap, subst, inl, inr, arith, true, false,
  List, if◌then◌else◌, Bool-cases, equal,
}
use ecnu_oslab.Fs.{Block, word, set_word}
use ecnu_oslab.Fs.Dinode.{word-set}
use ecnu_oslab.Pages.{Ram}
use ecnu_oslab.Vm.{pdx, ptx, pte_addr, pte_p, has_flag}
use ecnu_oslab.Vm.Tables.{
  pde, present, table, lookup, Tables, word-elsewhere, set_word-page, word-beside, Tables-same,
  links-elsewhere,
}

pub lookup-there :
    (b : Block) (pgdir va : ℕ)
    → present b pgdir (pdx va) ≡ true
    → lookup b pgdir va ≡ word b (table b pgdir (pdx va) + 4 * ptx va)
unfolding lookup
lookup-there b pgdir va e = rw e refl

pub lookup-absent :
    (b : Block) (pgdir va : ℕ) → present b pgdir (pdx va) ≡ false → lookup b pgdir va ≡ 0
unfolding lookup
lookup-absent b pgdir va e = rw e refl

module _ (kend pgdir : ℕ) (free : List ℕ) (r : Ram) (t : Tables kend pgdir free r) where
  -- A write into the table of directory entry d.
  unfoldable pub written : (d j x : ℕ) → Block
  written d j x = set_word r.bytes (table r.bytes pgdir d + 4 * j) x

  written-pde :
      (d j x : ℕ)
      → d < 1024
      → j < 1024
      → present r.bytes pgdir d ≡ true
      → (e : ℕ) → e < 1024
      → pde (written d j x) pgdir e ≡ pde r.bytes pgdir e
  unfolding written
  written-pde d j x l m p e k =
      word-elsewhere kend pgdir (table r.bytes pgdir d) r.bytes (written d j x) t.page
        (t.table_page d l p) (λ q. t.table_other d l p (sym q)) (set_word-page r.bytes _ j x m) e k

  pub written-Tables :
      (d j x : ℕ)
      → d < 1024
      → j < 1024
      → present r.bytes pgdir d ≡ true
      → Tables kend pgdir free (record r { bytes = written d j x })
  unfolding written
  written-Tables d j x l m p =
      Tables-same kend pgdir free r (written d j x) t (written-pde d j x l m p) (
        links-elsewhere kend (table r.bytes pgdir d) free r (written d j x) t.chain
          (t.table_page d l p) (t.table_kept d l p) (set_word-page r.bytes _ j x m))

  -- The entries of the others.
  written-word :
      (d j x e k : ℕ)
      → d < 1024
      → j < 1024
      → e < 1024
      → k < 1024
      → present r.bytes pgdir d ≡ true
      → present r.bytes pgdir e ≡ true
      → (d ≢ e) ⊎ (j ≢ k)
      → word (written d j x) (table r.bytes pgdir e + 4 * k)
        ≡ word r.bytes (table r.bytes pgdir e + 4 * k)
  unfolding written
  written-word d j x e k l m l' m' p q n = elim (equal d e) [
    | inr u ↦
        word-elsewhere kend (table r.bytes pgdir e) (table r.bytes pgdir d) r.bytes (written d j x)
          (t.table_page e l' q) (t.table_page d l p) (λ v. u (t.distinct d e l l' p q (sym v)))
          (set_word-page r.bytes _ j x m) k m'
    | inl u ↦
        subst
          (λ z.
            word (written d j x) (table r.bytes pgdir z + 4 * k)
            ≡ word r.bytes (table r.bytes pgdir z + 4 * k))
          u (word-beside r.bytes (table r.bytes pgdir d) j k x (other u n))
  ]
    where
      other : d ≡ e → (d ≢ e) ⊎ (j ≢ k) → j ≢ k
      other u (inl v) = absurd (v u)
      other u (inr v) = v

  -- The map after the write.
  written-lookup :
      (d j x va : ℕ)
      → d < 1024
      → j < 1024
      → present r.bytes pgdir d ≡ true
      → lookup (written d j x) pgdir va ≡ (
          if present r.bytes pgdir (pdx va)
          then word (written d j x) (table r.bytes pgdir (pdx va) + 4 * ptx va)
          else 0)
  unfolding lookup
  written-lookup d j x va l m p =
      ap (λ z. if has_flag pte_p z then word (written d j x) (pte_addr z + 4 * ptx va) else 0)
        (written-pde d j x l m p (pdx va) (omega arith))

  pub written-same :
      (va va' x : ℕ)
      → present r.bytes pgdir (pdx va) ≡ true
      → x < 2 ^ 32
      → pdx va ≡ pdx va'
      → ptx va ≡ ptx va'
      → lookup (written (pdx va) (ptx va) x) pgdir va' ≡ x
  unfolding written lookup
  written-same va va' x p l e f =
      ap (λ z. lookup z pgdir va') (λ k. written (e k) (f k) x)
      ∙ written-lookup (pdx va') (ptx va') x va' (omega arith) (omega arith) q
      ∙ rw q (word-set r.bytes (table r.bytes pgdir (pdx va') + 4 * ptx va') x l)
    where
      q : present r.bytes pgdir (pdx va') ≡ true
      q = subst (λ z. present r.bytes pgdir z ≡ true) e p

  pub written-other :
      (va va' x : ℕ)
      → present r.bytes pgdir (pdx va) ≡ true
      → (pdx va ≢ pdx va') ⊎ (ptx va ≢ ptx va')
      → lookup (written (pdx va) (ptx va) x) pgdir va' ≡ lookup r.bytes pgdir va'
  written-other va va' x p n = elim (Bool-cases (present r.bytes pgdir (pdx va'))) [
    | inr q ↦
        written-lookup (pdx va) (ptx va) x va' (omega arith) (omega arith) p
        ∙ rw q refl
        ∙ sym (lookup-absent r.bytes pgdir va' q)
    | inl q ↦
        written-lookup (pdx va) (ptx va) x va' (omega arith) (omega arith) p
        ∙ rw q (
            written-word (pdx va) (ptx va) x (pdx va') (ptx va') (omega arith) (omega arith)
              (omega arith) (omega arith) p q n)
        ∙ sym (lookup-there r.bytes pgdir va' q)
  ]
