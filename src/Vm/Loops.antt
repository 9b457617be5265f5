-- ===== src/Vm/Loops.antt =====
-- The loops of copyuvm and copyout of lab5/xv6-thread/kernel/vm.c and their fuel.
use ecnu_oslab.Base.{
  ℕ, zero, suc, ◌+◌, ◌-◌, ◌*◌, ◌/◌, ◌%◌, ◌^◌, ◌≤◌, ◌<◌, ◌≡◌, ◌⊎◌, subst, inl, inr, arith, Bool,
  true, false, not, ◌||◌, ltb, ◌==◌, if◌then◌else◌, Bool-cases,
}
use ecnu_oslab.Fs.{word}
use ecnu_oslab.Pages.{pgsize, Ram, kalloc}
use ecnu_oslab.Vm.{done, round_down, walkpgdir, has_flag, pte_p}
use ecnu_oslab.Vm.Space.{
  allocuvm, freevm, free_copy, copy_pages, copyuvm, uva2ka, copyout_loop, copyout,
}
use ecnu_oslab.Vm.Fuel.{
  Ends, returns, panics, then_do-Ends, mappages-Ends, setupkvm-Ends, allocuvm-Ends, freevm-Ends,
}

free_copy-Ends : (kend d : ℕ) (r : Ram) → Ends (free_copy kend d r)
free_copy-Ends kend d r = then_do-Ends (freevm-Ends kend d r) (λ u r'. returns)

copy_pages-Ends :
    (n kend d pgdir sz i : ℕ) (r : Ram)
    → sz + 4096 ≤ 2 ^ 32
    → sz ≤ i + 4096 * n
    → Ends (copy_pages (suc n) kend d pgdir sz i r)
unfolding copy_pages
copy_pages-Ends zero kend d pgdir sz i r l h = rw (over, copy_pages) returns
  where
    over : not (ltb i sz) ≡ true
    over = ground (arith, h)
copy_pages-Ends (suc n) kend d pgdir sz i r l h = elim (Bool-cases (ltb i sz)) [
  | inr t ↦ rw (t, copy_pages) returns
  | inl t ↦
      elim (Bool-cases (
        (walkpgdir pgdir i false r).0 == 0
        || not (
            has_flag pte_p
              (word (walkpgdir pgdir i false r).1.bytes (walkpgdir pgdir i false r).0)))) [
                | inl u ↦ rw (t, u, copy_pages) panics
                | inr u ↦ elim (Bool-cases ((kalloc (walkpgdir pgdir i false r).1).0 == 0)) [
                  | inl v ↦ rw (t, u, v, copy_pages) (free_copy-Ends kend d _)
                  | inr v ↦
                      rw (t, u, v, copy_pages)
                        (then_do-Ends (mappages-Ends d i _ _ _ _ (ground (arith, t, l))) (
                          next (λ r'.
                            copy_pages-Ends n kend d pgdir sz _ r' l (ground (arith, t, l, h)))))
                ]
              ]
]
  where
    next :
        ((r' : Ram) → Ends (copy_pages (suc n) kend d pgdir sz ((i + pgsize) % 2 ^ 32) r'))
        → (ok : Bool) (r' : Ram)
        → Ends {A = ℕ} (elim ok [
          | false ↦ free_copy kend d r'
          | true ↦ copy_pages (suc n) kend d pgdir sz ((i + pgsize) % 2 ^ 32) r'
        ])
    next f true r' = f r'
    next f false r' = free_copy-Ends kend d r'

pub copyuvm-Ends :
    (kend kdata pgdir sz : ℕ) (r : Ram)
    → kdata < 2 ^ 32
    → sz + 4096 ≤ 2 ^ 32
    → Ends (copyuvm kend kdata pgdir sz r)
unfolding copyuvm
copyuvm-Ends kend kdata pgdir sz r l h =
    then_do-Ends (setupkvm-Ends kdata r l) (λ d r'. copied d r' (Bool-cases (d == 0)))
  where
    more : suc (sz / pgsize + 1) ≡ sz / pgsize + 2
    more = omega arith

    copied :
        (d : ℕ) (r' : Ram)
        → ((d == 0) ≡ true) ⊎ ((d == 0) ≡ false)
        → Ends (if d == 0 then done 0 r' else copy_pages (sz / pgsize + 2) kend d pgdir sz 0 r')
    copied d r' (inl t) = rw t returns
    copied d r' (inr t) = rw t (
        subst (λ n. Ends (copy_pages n kend d pgdir sz 0 r')) more
          (copy_pages-Ends (sz / pgsize + 1) kend d pgdir sz 0 r' h (omega arith)))

copyout_loop-Ends :
    (n pgdir va buf len : ℕ) (r : Ram) → len ≤ n → Ends (copyout_loop (suc n) pgdir va buf len r)
unfolding copyout_loop
copyout_loop-Ends zero pgdir va buf len r l = rw (none_left, copyout_loop) returns
  where
    none_left : (len == 0) ≡ true
    none_left = ground (arith, l)
copyout_loop-Ends (suc n) pgdir va buf len r l = elim (Bool-cases (len == 0)) [
  | inl t ↦ rw (t, copyout_loop) returns
  | inr t ↦ elim (Bool-cases (uva2ka pgdir (round_down va) r == 0)) [
    | inl u ↦ rw (t, u, copyout_loop) returns
    | inr u ↦
        rw (t, u, copyout_loop)
          (copyout_loop-Ends n pgdir _ _ _ _ (less (pgsize - (va - round_down va)) t (omega arith)))
  ]
]
  where
    less :
        (room : ℕ) → (len == 0) ≡ false → 0 < room → len - (if ltb len room then len else room) ≤ n
    less room t h = ground (arith, t, h, l)

pub copyout-Ends : (pgdir va p len : ℕ) (r : Ram) → Ends (copyout pgdir va p len r)
copyout-Ends pgdir va p len r =
    subst (λ n. Ends (copyout_loop n pgdir va p len r)) more
      (copyout_loop-Ends len pgdir va p len r (omega arith))
  where
    more : suc len ≡ len + 1
    more = omega arith

-- The loops of vm.c come to an end: on every memory, for a kernel whose data lies in the 32-bit
-- addresses and a size that leaves a page below 2^32, copyuvm returns or panics, with setupkvm and
-- mappages, which it calls; and so do allocuvm, freevm and copyout, with deallocuvm.
pub loops-Ends :
    (kend kdata pgdir sz oldsz newsz va p len : ℕ) (r : Ram)
    → kdata < 2 ^ 32
    → sz + 4096 ≤ 2 ^ 32
    → Ends (copyuvm kend kdata pgdir sz r)
      × Ends (allocuvm kend pgdir oldsz newsz r)
      × Ends (freevm kend pgdir r)
      × Ends (copyout pgdir va p len r)
loops-Ends kend kdata pgdir sz oldsz newsz va p len r l h = (
  copyuvm-Ends kend kdata pgdir sz r l h,
  allocuvm-Ends kend pgdir oldsz newsz r,
  freevm-Ends kend pgdir r,
  copyout-Ends pgdir va p len r,
)
