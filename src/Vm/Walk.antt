-- ===== src/Vm/Walk.antt =====
-- A new table of walkpgdir in lab5/xv6-thread/kernel/vm.c.
use ecnu_oslab.Base.{
  ℕ, ◌+◌, ◌*◌, ◌%◌, ◌≤◌, ◌<◌, ◌≡◌, ◌≢◌, refl, sym, ◌∙◌, ap, subst, inl, inr, arith, true, false,
  List, [], ◌∷◌, In, ◌==◌, Bool-cases, equal,
}
use ecnu_oslab.Fs.{Block, word, set_word}
use ecnu_oslab.Fs.Dinode.{Outside, word-set}
use ecnu_oslab.Pages.{Ram}
use ecnu_oslab.Pages.Chain.{IsPage, Chain, Chain-IsPage, Chain-same, Chain-kalloc}
use ecnu_oslab.Vm.{
  pdx, ptx, pte_addr, pte_p, pte_w, pte_u, has_flag, or_flags, zero_page, new_table, link_table,
  walkpgdir,
}
use ecnu_oslab.Vm.Tables.{
  pde, present, table, lookup, Tables, word-elsewhere, set_word-page, word-beside,
}
use ecnu_oslab.Vm.Entries.{lookup-there, lookup-absent}

or_flags-page : (p : ℕ) → p % 4096 ≡ 0 → or_flags p (pte_p ∷ pte_w ∷ pte_u ∷ []) ≡ p + 7
or_flags-page p e = ground (arith, e)

pub flags-page : (p : ℕ) → p % 4096 ≡ 0 → (has_flag pte_p (p + 7) ≡ true) × (pte_addr (p + 7) ≡ p)
flags-page p e = (ground (arith, e), omega (arith, e))

zero_bytes :
    (c : Block) (a : ℕ) → c a ≡ 0 → c (a + 1) ≡ 0 → c (a + 2) ≡ 0 → c (a + 3) ≡ 0 → word c a ≡ 0
zero_bytes c a e f g h = rw (e, f, g, h) refl

zero_page-word : (p : ℕ) (b : Block) (k : ℕ) → k < 1024 → word (zero_page p b) (p + 4 * k) ≡ 0
zero_page-word p b k l =
    zero_bytes (zero_page p b) (p + 4 * k) (byte _ (omega arith) (omega (arith, l)))
      (byte _ (omega arith) (omega (arith, l))) (byte _ (omega arith) (omega (arith, l)))
      (byte _ (omega arith) (omega (arith, l)))
  where
    byte : (i : ℕ) → p ≤ i → i < p + 4096 → zero_page p b i ≡ 0
    byte i u v = ground (arith, u, v)

zero_page-Outside : (p : ℕ) (b : Block) → Outside p 4096 b (zero_page p b)
zero_page-Outside p b i (inl l) = ground (arith, l)
zero_page-Outside p b i (inr l) = ground (arith, l)

module _ (kend pgdir p : ℕ) (qs : List ℕ) (r : Ram) (t : Tables kend pgdir (p ∷ qs) r) (d : ℕ)
    (l : d < 1024) (absent : present r.bytes pgdir d ≡ false) where
  fresh : Block
  fresh = set_word (zero_page p r.bytes) (pgdir + 4 * d) (p + 7)

  fresh-IsPage : IsPage kend p
  fresh-IsPage = t.chain.1

  fresh-other : p ≢ pgdir
  fresh-other e = t.kept (inl (sym e))

  -- Words of pages that are neither the new one nor the directory.
  fresh-elsewhere :
      (q k : ℕ)
      → IsPage kend q
      → q ≢ p
      → q ≢ pgdir
      → k < 1024
      → word fresh (q + 4 * k) ≡ word r.bytes (q + 4 * k)
  unfolding fresh
  fresh-elsewhere q k w n m h =
      word-elsewhere kend q pgdir (zero_page p r.bytes) fresh w t.page m
        (set_word-page _ pgdir d (p + 7) l) k h
      ∙ word-elsewhere kend q p r.bytes (zero_page p r.bytes) w fresh-IsPage n
          (zero_page-Outside p r.bytes) k h

  fresh-pde : (e : ℕ) → e < 1024 → d ≢ e → pde fresh pgdir e ≡ pde r.bytes pgdir e
  unfolding fresh
  fresh-pde e h n =
      word-beside (zero_page p r.bytes) pgdir d e (p + 7) n
      ∙ word-elsewhere kend pgdir p r.bytes (zero_page p r.bytes) t.page fresh-IsPage
          (λ q. fresh-other (sym q)) (zero_page-Outside p r.bytes) e h

  fresh-own : pde fresh pgdir d ≡ p + 7
  unfolding fresh
  fresh-own = word-set (zero_page p r.bytes) (pgdir + 4 * d) (p + 7) (omega (arith, fresh-IsPage))

  fresh-zero : (k : ℕ) → k < 1024 → word fresh (p + 4 * k) ≡ 0
  unfolding fresh
  fresh-zero k h =
      word-elsewhere kend p pgdir (zero_page p r.bytes) fresh fresh-IsPage t.page fresh-other
        (set_word-page _ pgdir d (p + 7) l) k h
      ∙ zero_page-word p r.bytes k h

  -- A present entry of the new directory is the new one, or one of the old.
  old : (e : ℕ) → e < 1024 → d ≢ e → present fresh pgdir e ≡ true → present r.bytes pgdir e ≡ true
  old e h n q = subst (λ x. has_flag pte_p x ≡ true) (fresh-pde e h n) q

  own_table : table fresh pgdir d ≡ p
  own_table = ap (λ x. pte_addr x) fresh-own ∙ (flags-page p fresh-IsPage.0).1

  old_table : (e : ℕ) → e < 1024 → d ≢ e → table fresh pgdir e ≡ table r.bytes pgdir e
  old_table e h n = ap (λ x. pte_addr x) (fresh-pde e h n)

  not_fresh : (e : ℕ) → e < 1024 → present r.bytes pgdir e ≡ true → table r.bytes pgdir e ≢ p
  not_fresh e h q u = t.table_kept e h q (inl u)

  fresh-Tables : Tables kend pgdir qs (record { bytes = fresh; freelist = word r.bytes p })
  fresh-Tables = record {
    chain = Chain-same kend r.bytes fresh qs (word r.bytes p) t.chain.3 links;
    page = t.page;
    kept = λ m. t.kept (inr m);
    table_page = λ e h q. elim (equal d e) [
      | inl u ↦
          subst (λ x. IsPage kend (table fresh pgdir x)) u
            (subst (IsPage kend) (sym own_table) fresh-IsPage)
      | inr n ↦ subst (IsPage kend) (sym (old_table e h n)) (t.table_page e h (old e h n q))
    ];
    table_kept = λ e h q m. elim (equal d e) [
      | inl u ↦
          t.chain.2
            (subst (λ x. In x qs) own_table (subst (λ x. In (table fresh pgdir x) qs) (sym u) m))
      | inr n ↦ t.table_kept e h (old e h n q) (inr (subst (λ x. In x qs) (old_table e h n) m))
    ];
    table_other = λ e h q m. elim (equal d e) [
      | inl u ↦ fresh-other (sym own_table ∙ ap (table fresh pgdir) u ∙ m)
      | inr n ↦ t.table_other e h (old e h n q) (sym (old_table e h n) ∙ m)
    ];
    distinct = λ e f h k q u m. elim (equal d e) [
      | inl v ↦ elim (equal d f) [
        | inl w ↦ sym v ∙ w
        | inr w ↦ absurd (
            not_fresh f k (old f k w u)
              (sym (old_table f k w) ∙ sym m ∙ sym (ap (table fresh pgdir) v) ∙ own_table))
      ]
      | inr v ↦ elim (equal d f) [
        | inl w ↦ absurd (
            not_fresh e h (old e h v q)
              (sym (old_table e h v) ∙ m ∙ sym (ap (table fresh pgdir) w) ∙ own_table))
        | inr w ↦
            t.distinct e f h k (old e h v q) (old f k w u)
              (sym (old_table e h v) ∙ m ∙ old_table f k w)
      ]
    ];
  }
    where
      whole : Chain kend r.bytes (p ∷ qs) r.freelist
      whole = t.chain

      at_zero :
          (q : ℕ)
          → word fresh (q + 4 * 0) ≡ word r.bytes (q + 4 * 0)
          → word fresh q ≡ word r.bytes q
      at_zero q e = subst (λ x. word fresh x ≡ word r.bytes x) (omega arith) e

      links : (q : ℕ) → In q qs → word fresh q ≡ word r.bytes q
      links q m = at_zero q (
          fresh-elsewhere q 0 (Chain-IsPage kend r.bytes (p ∷ qs) r.freelist whole q (inr m))
            (λ e. t.chain.2 (subst (λ x. In x qs) e m))
            (λ e. t.kept (inr (subst (λ x. In x qs) e m))) (omega arith))

  new_present : present fresh pgdir d ≡ true
  new_present = ap (λ x. has_flag pte_p x) fresh-own ∙ (flags-page p fresh-IsPage.0).0

  fresh-lookup : (va : ℕ) → lookup fresh pgdir va ≡ lookup r.bytes pgdir va
  fresh-lookup va = elim (equal d (pdx va)) [
    | inl u ↦ own u
    | inr n ↦ elim (Bool-cases (present r.bytes pgdir (pdx va))) [
      | inr q ↦
          lookup-absent fresh pgdir va
            (ap (λ x. has_flag pte_p x) (fresh-pde (pdx va) (omega arith) n) ∙ q)
          ∙ sym (lookup-absent r.bytes pgdir va q)
      | inl q ↦
          lookup-there fresh pgdir va
            (ap (λ x. has_flag pte_p x) (fresh-pde (pdx va) (omega arith) n) ∙ q)
          ∙ ap (λ x. word fresh (x + 4 * ptx va)) (old_table (pdx va) (omega arith) n)
          ∙ fresh-elsewhere (table r.bytes pgdir (pdx va)) (ptx va)
              (t.table_page (pdx va) (omega arith) q) (not_fresh (pdx va) (omega arith) q)
              (t.table_other (pdx va) (omega arith) q) (omega arith)
          ∙ sym (lookup-there r.bytes pgdir va q)
    ]
  ]
    where
      own : d ≡ pdx va → lookup fresh pgdir va ≡ lookup r.bytes pgdir va
      own u =
          lookup-there fresh pgdir va (subst (λ x. present fresh pgdir x ≡ true) u new_present)
          ∙ ap (λ x. word fresh (x + 4 * ptx va)) (sym (ap (table fresh pgdir) u) ∙ own_table)
          ∙ fresh-zero (ptx va) (omega arith)
          ∙ sym (
              lookup-absent r.bytes pgdir va
                (subst (λ x. present r.bytes pgdir x ≡ false) u absent))

-- What walkpgdir with `create` does: it returns 0 and changes nothing, and no page is free; or it returns the
-- address of the entry, where the table may be new, and the map is the same.
pub data Walked (kend pgdir : ℕ) (free : List ℕ) (r : Ram) (va : ℕ) : ℕ × Ram → Type 0 where
  used_up : free ≡ [] → Walked kend pgdir free r va (0, r)
  entry :
      {free' : List ℕ} {r' : Ram}
      → Tables kend pgdir free' r'
      → ((va' : ℕ) → lookup r'.bytes pgdir va' ≡ lookup r.bytes pgdir va')
      → present r'.bytes pgdir (pdx va) ≡ true
      → Walked kend pgdir free r va (table r'.bytes pgdir (pdx va) + 4 * ptx va, r')

link_table-Walked :
    (kend pgdir p : ℕ) (qs : List ℕ) (r : Ram) (va : ℕ)
    → Tables kend pgdir (p ∷ qs) r
    → present r.bytes pgdir (pdx va) ≡ false
    → Walked kend pgdir
        (p ∷ qs)
        r
        va
        (link_table pgdir va p (record r { freelist = word r.bytes p }))
unfolding link_table fresh
link_table-Walked kend pgdir p qs r va t absent =
    rw (used, link_table)
      (subst (Walked kend pgdir (p ∷ qs) r va) same (
        entry (fresh-Tables kend pgdir p qs r t (pdx va) (omega arith) absent)
          (fresh-lookup kend pgdir p qs r t (pdx va) (omega arith) absent)
          (new_present kend pgdir p qs r t (pdx va) (omega arith) absent)))
  where
    used : (p == 0) ≡ false
    used = ground (arith, t.chain.1)

    all : Block
    all = fresh kend pgdir p qs r t (pdx va) (omega arith) absent

    same :
        ◌≡◌ {A = ℕ × Ram}
          (table all pgdir (pdx va) + 4 * ptx va, record { bytes = all; freelist = word r.bytes p })
          (p + 4 * ptx va, new_table pgdir va p (record r { freelist = word r.bytes p }))
    same k = (
      own_table kend pgdir p qs r t (pdx va) (omega arith) absent k + 4 * ptx va,
      record {
        bytes =
            set_word (zero_page p r.bytes) (pgdir + 4 * pdx va)
              (sym (or_flags-page p t.chain.1.0) k);
        freelist = word r.bytes p;
      },
    )

pub walkpgdir-Walked :
    (kend pgdir : ℕ) (free : List ℕ) (r : Ram) (va : ℕ)
    → Tables kend pgdir free r
    → Walked kend pgdir free r va (walkpgdir pgdir va true r)
unfolding walkpgdir link_table
walkpgdir-Walked kend pgdir free r va t = elim (Bool-cases (present r.bytes pgdir (pdx va))) [
  | inl q ↦ rw (q, walkpgdir) (entry t (λ v. refl) q)
  | inr q ↦ elim (Chain-kalloc kend r free t.chain) [
    | inl (e, k) ↦ rw (q, k, walkpgdir) (used_up e)
    | inr (p, qs, e, k, c) ↦
        rw (q, k, walkpgdir)
          (subst
            (λ x.
              Walked kend pgdir x r va
                (link_table pgdir va p (record r { freelist = word r.bytes p })))
            (sym e)
            (link_table-Walked kend pgdir p qs r va (subst (λ x. Tables kend pgdir x r) e t) q))
  ]
]
