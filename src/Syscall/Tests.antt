-- ===== src/Syscall/Tests.antt =====
-- Runs of lab5/xv6-thread/kernel/syscall.c.
use ecnu_oslab.Base.{
  ℕ, ◌+◌, ◌≤◌, ◌<◌, ◌≡◌, ◌≢◌, ◌⊎◌, refl, arith, none, some, pos, negsuc, ◌==◌, if◌then◌else◌,
}
use ecnu_oslab.Syscall.{User, fetchint, fetchstr, argint, argptr}
use ecnu_oslab.Syscall.Bounds.{fetchstr_lem, argptr_lem}

-- A memory of two pages; the first argument is 100.
abbrev small : User
small = record { byte = λ a. if a == 5000 then 100 else 0; sz = 8192; esp = 4996 }

fetchstr_lem_example :
    ((k : ℕ) × (fetchstr small 5000 ≡ some k)
      × (5000 + k < small.sz)
      × (small.byte (5000 + k) ≡ 0)
      × ((j : ℕ) → j < k → small.byte (5000 + j) ≢ 0))
    ⊎ ((fetchstr small 5000 ≡ none) × ((j : ℕ) → 5000 + j < small.sz → small.byte (5000 + j) ≢ 0))
fetchstr_lem_example = fetchstr_lem small 5000

argptr_lem_example :
    ((argint small 0 ≡ none) × (argptr small 0 (pos 50) ≡ none))
    ⊎ ((i : ℕ) × (argint small 0 ≡ some i)
        × (((i < small.sz) × (i + 50 ≤ small.sz) × (argptr small 0 (pos 50) ≡ some i))
            ⊎ (((small.sz ≤ i) ⊎ (small.sz < i + 50)) × (argptr small 0 (pos 50) ≡ none))))
argptr_lem_example = argptr_lem small 0 50 (omega arith)

argptr_run : argptr small 0 (pos 50) ≡ some 100
unfolding argptr argint fetchint
argptr_run = refl

-- A negative size passes the test.
argptr_negative : argptr small 0 (negsuc 49) ≡ some 100
unfolding argptr argint fetchint
argptr_negative = refl
