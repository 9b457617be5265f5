-- ===== src/Pages/Tests.antt =====
-- Runs of lab5/xv6-thread/kernel/kalloc.c.
use ecnu_oslab.Base.{ℕ, ◌≡◌, ◌⊎◌, refl, arith, true, false, Option, none, some}
use ecnu_oslab.Pages.{Ram, kalloc, kfree, kinit, free_range}
use ecnu_oslab.Pages.Chain.{IsPage}
use ecnu_oslab.Pages.Steps.{Pool, PageSteps}
use ecnu_oslab.Pages.Start.{fresh_pool, kalloc_lem}

abbrev empty : Ram
empty = record { bytes = λ i. 0; freelist = 0 }

-- The address of a page and what is left behind it.
abbrev head_of : Option Ram → Option (ℕ × ℕ)
head_of none = none
head_of (some r) = some ((kalloc r).0, (kalloc r).1.freelist)

-- The last two pages below PHYSTOP.
kinit_run : head_of (kinit 16769024 empty) ≡ some (16773120, 16769024)
unfolding free_range kfree kalloc
kinit_run = refl

kalloc_lem_example :
    (r' : Ram) × (kinit 1100000 empty ≡ some r')
    × ((s : Pool)
        → PageSteps 1100000 (fresh_pool r') s
        → ((p : ℕ) × (r'' : Ram) × (kalloc s.ram ≡ (p, r''))
            × IsPage 1100000 p
            × (s.used p ≡ false))
          ⊎ ((kalloc s.ram ≡ (0, s.ram)) × ((p : ℕ) → IsPage 1100000 p → s.used p ≡ true)))
kalloc_lem_example = kalloc_lem 1100000 empty (omega arith) (omega arith) refl
