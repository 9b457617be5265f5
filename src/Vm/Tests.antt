-- ===== src/Vm/Tests.antt =====
-- A small memory on which the definitions of lab5/xv6-thread/kernel/vm.c run, and the theorems at it.
use ecnu_oslab.Base.{
  ◌≡◌, refl, inl, inr, arith, Option, none, some, ◌==◌, if◌then◌else◌, true, [], ◌∷◌,
}
use ecnu_oslab.Pages.{Ram, kalloc}
use ecnu_oslab.Vm.{pte_w, pte_u, Out, done, walkpgdir, link_table, map_page, map_loop, mappages}
use ecnu_oslab.Vm.Fuel.{Ends}
use ecnu_oslab.Vm.Loops.{loops-Ends}
use ecnu_oslab.Vm.Space.{copyuvm, freevm, copyout, uva2ka, alloc_loop, allocuvm}
use ecnu_oslab.Vm.Tables.{Tables, lookup}
use ecnu_oslab.Vm.Ranges.{Mapped, Clear, mappages-Mapped}
use ecnu_oslab.Vm.Access.{uva2ka-mappages}

-- One page is free, at 12288; the directory at 8192 is empty.
abbrev small : Ram
small = record { bytes = λ i. 0; freelist = 12288 }

small-Tables : Tables 4096 8192 (12288 ∷ []) small
small-Tables = record {
  chain = (refl, (refl, omega arith, omega arith, omega arith), (λ m. elim m [ ]), refl);
  page = (refl, omega arith, omega arith, omega arith);
  kept = λ m. elim m [ inl e ↦ ground (arith, e) | inr m' ↦ elim m' [ ] ];
  table_page = λ d l e. absurd (ground (arith, e));
  table_kept = λ d l e. absurd (ground (arith, e));
  table_other = λ d l e. absurd (ground (arith, e));
  distinct = λ d e l m p. absurd (ground (arith, p));
}

small-Clear : Clear small.bytes 8192 4096 2
unfolding lookup
small-Clear v l a b = refl

mappages-Mapped_example :
    Mapped 4096 8192 4096 2 20480
      (pte_w ∷ [])
      small
      (mappages 8192 5000 7000 20480 (pte_w ∷ []) small)
mappages-Mapped_example =
    mappages-Mapped 4096 8192 5000 7000 20480 (pte_w ∷ []) (12288 ∷ []) small (inl refl, tt)
      small-Tables (omega arith) (omega arith) (omega arith) small-Clear

memory_of : {A : Type 0} → Out A → Ram
memory_of (done a r) = r
memory_of _ = small

-- The memory after the pages are mapped for the user.
after : Ram
after = memory_of (mappages 8192 5000 7000 20480 (pte_w ∷ pte_u ∷ []) small)

maps : mappages 8192 5000 7000 20480 (pte_w ∷ pte_u ∷ []) small ≡ done true after
unfolding after memory_of mappages map_loop map_page walkpgdir link_table kalloc
maps = refl

uva2ka-mappages_example : uva2ka 8192 9000 after ≡ 24576
uva2ka-mappages_example =
    uva2ka-mappages 4096 8192 5000 7000 20480 (12288 ∷ []) small after small-Tables (omega arith)
      (omega arith) refl (omega arith) small-Clear maps 9000 (omega arith) (omega arith)

result : {A : Type 0} → Out A → Option A
result (done a r) = some a
result _ = none

-- The page for the table is the last one: allocuvm then ignores that mappages has failed and
-- returns the new size.
two_pages : Ram
two_pages = record { bytes = λ i. 0; freelist = 12288 }

lost_page : result (allocuvm 4096 8192 0 4096 two_pages) ≡ some 4096
unfolding result two_pages alloc_loop mappages map_loop map_page walkpgdir link_table kalloc
lost_page = refl

-- An address in no page table: uva2ka reads the word at address 0.
reads_zero :
    uva2ka 8192 5000
      (record { bytes = λ i. if i == 0 then 7 else if i == 1 then 80 else 0; freelist = 0 })
    ≡ 20480
unfolding uva2ka walkpgdir kalloc
reads_zero = refl

loops-Ends_example :
    Ends (copyuvm 4096 0x102000 8192 4096 small)
    × Ends (allocuvm 4096 8192 0 4096 small)
    × Ends (freevm 4096 8192 small)
    × Ends (copyout 8192 5000 100 30 small)
loops-Ends_example =
    loops-Ends 4096 0x102000 8192 4096 0 4096 5000 100 30 small (omega arith) (omega arith)
