-- ===== src/Mem/Init.antt =====
-- mem_init of lab3/Malloc and Free/mem.c.
use ecnu_oslab.Base.{ℕ, ◌+◌, ◌*◌, ◌%◌, ◌^◌, ◌≤◌, ◌<◌, ◌≡◌, Option, some}
use ecnu_oslab.Mem.{Heap}

-- What mem.c relies on of getpagesize and of a private mapping of /dev/zero: a page is a multiple of
-- 8 and has at least 16 bytes; a new mapping is not at address 0, starts at a multiple of 8, lies in
-- the 64-bit address space and holds zeros.
pub record System (page : ℕ) (mmap : ℕ → Option (ℕ × Heap)) : Type 0 where
  pub page_size : 16 ≤ page
  pub page_unit : ℕ
  pub page_eight : page ≡ 8 * page_unit
  pub mapped :
      (n p : ℕ) (contents : Heap)
      → mmap n ≡ some (p, contents)
      → (0 < p) × (p % 8 ≡ 0) × (p + n ≤ 2 ^ 64) × ((x : ℕ) → p ≤ x → x < p + n → contents x ≡ 0)
