-- ===== src/Vm/Space.antt =====
-- lab5/xv6-thread/kernel/vm.c: address spaces made of page tables. `kend` is the address of the symbol end, and
-- `kdata` that of the symbol data.
use ecnu_oslab.Base.{
  ℕ, zero, suc, ◌+◌, ◌-◌, ◌*◌, ◌/◌, ◌%◌, ◌^◌, Bool, true, false, ◌&&◌, ◌||◌, not, none, some, List,
  [], ◌∷◌, ltb, leb, ◌==◌, if◌then◌else◌,
}
use ecnu_oslab.Fs.{word, set_word}
use ecnu_oslab.Strings.{memmove}
use ecnu_oslab.Pages.{pgsize, phystop, round_up_page, Ram, kalloc, kfree}
use ecnu_oslab.Vm.{
  usertop, npdentries, round_down, pte_addr, pte_p, pte_w, pte_u, has_flag, zero_page, Out, done,
  panic, unfinished, then_do, walkpgdir, mappages,
}

-- memset(p, 0, PGSIZE) and memmove, on the memory.
abbrev clear_page : ℕ → Ram → Ram
clear_page p r = record r { bytes = zero_page p r.bytes }

abbrev move_bytes : (dst src n : ℕ) → Ram → Ram
move_bytes dst src n r = record r { bytes = memmove dst src n r.bytes }

abbrev pub free_page : (kend v : ℕ) → Ram → Out Unit
free_page kend v r = elim (kfree kend v r) [ none ↦ panic | some r' ↦ done tt r' ]

pub record Kmap : Type 0 where
  pub p : ℕ
  pub e : ℕ
  pub perm : List ℕ

abbrev pub kmap : (kdata : ℕ) → List Kmap
kmap kdata =
    record { p = usertop; e = 0x100000; perm = pte_w ∷ [] }
    ∷ record { p = 0x100000; e = kdata; perm = [] }
    ∷ record { p = kdata; e = phystop; perm = pte_w ∷ [] }
    ∷ record { p = 0xFE000000; e = 0; perm = pte_w ∷ [] }
    ∷ []

-- The loop of setupkvm; 0 if the memory is used up.
unfoldable pub map_kernel : List Kmap → (pgdir : ℕ) → Ram → Out ℕ
map_kernel [] pgdir r = done pgdir r
map_kernel (k ∷ ks) pgdir r =
    then_do (mappages pgdir k.p ((k.e + 2 ^ 32 - k.p) % 2 ^ 32) k.p k.perm r)
      (λ ok r'. elim ok [ false ↦ done 0 r' | true ↦ map_kernel ks pgdir r' ])

unfoldable pub setupkvm : (kdata : ℕ) → Ram → Out ℕ
setupkvm kdata r =
    let (pgdir, r') = kalloc r in
    if pgdir == 0 then done 0 r' else map_kernel (kmap kdata) pgdir (clear_page pgdir r')

-- The new page at address a of the user; whether it could be mapped.
abbrev map_user : (pgdir a mem : ℕ) → Ram → Out Bool
map_user pgdir a mem r = mappages pgdir a pgsize mem (pte_w ∷ pte_u ∷ []) r

unfoldable pub inituvm : (pgdir init sz : ℕ) → Ram → Out Unit
inituvm pgdir init sz r =
    let (mem, r') = kalloc r in
    if leb pgsize sz
    then panic
    else then_do (map_user pgdir 0 mem (clear_page mem r'))
        (λ ok r''. done tt (move_bytes mem init sz r''))

-- The loop of loaduvm, at offset i of the segment. `readi` reads at a physical address: its
-- address, the offset in the file and the number of bytes, to whether all of them were read.
unfoldable pub load_pages :
    (readi : (pa off n : ℕ) → Ram → Out Bool)
    → (fuel : ℕ) → (pgdir addr offset sz i : ℕ) → Ram
    → Out Bool
load_pages readi zero pgdir addr offset sz i r = unfinished
load_pages readi (suc n) pgdir addr offset sz i r =
    let (pte, r') = walkpgdir pgdir (addr + i) false r in
    let count = if ltb (sz - i) pgsize then sz - i else pgsize in
    if not (ltb i sz)
    then done true r
    else if pte == 0
    then panic
    else then_do (readi (pte_addr (word r'.bytes pte)) ((offset + i) % 2 ^ 32) count r') (λ ok r''.
      elim ok [
        | false ↦ done false r''
        | true ↦ load_pages readi n pgdir addr offset sz ((i + pgsize) % 2 ^ 32) r''
      ])

abbrev pub loaduvm :
    (readi : (pa off n : ℕ) → Ram → Out Bool) → (pgdir addr offset sz : ℕ) → Ram → Out Bool
loaduvm readi pgdir addr offset sz r =
    if not (addr % pgsize == 0)
    then panic
    else load_pages readi (sz / pgsize + 2) pgdir addr offset sz 0 r

-- The page at a, if it is there.
unfoldable pub free_user : (kend pgdir a : ℕ) → Ram → Out Unit
free_user kend pgdir a r =
    let (pte, r') = walkpgdir pgdir a false r in
    let pa = pte_addr (word r'.bytes pte) in
    if not (pte == 0) && has_flag pte_p (word r'.bytes pte)
    then (if pa == 0
        then panic
        else then_do (free_page kend pa r')
            (λ u r''. done tt (record r'' { bytes = set_word r''.bytes pte 0 })))
    else done tt r'

unfoldable pub dealloc_loop : (fuel : ℕ) → (kend pgdir a oldsz : ℕ) → Ram → Out Unit
dealloc_loop zero kend pgdir a oldsz r = unfinished
dealloc_loop (suc n) kend pgdir a oldsz r =
    if ltb a oldsz
    then then_do (free_user kend pgdir a r)
        (λ u. dealloc_loop n kend pgdir ((a + pgsize) % 2 ^ 32) oldsz)
    else done tt r

-- One round for each page below oldsz is enough, unless oldsz lies in the last page of the addresses.
abbrev pub deallocuvm : (kend pgdir oldsz newsz : ℕ) → Ram → Out ℕ
deallocuvm kend pgdir oldsz newsz r =
    if leb oldsz newsz
    then done oldsz r
    else then_do
        (dealloc_loop (oldsz / pgsize + 2) kend pgdir (round_up_page newsz % 2 ^ 32) oldsz r)
        (λ u. done newsz)

-- The result of mappages is ignored.
unfoldable pub alloc_loop : (fuel : ℕ) → (kend pgdir a oldsz newsz : ℕ) → Ram → Out ℕ
alloc_loop zero kend pgdir a oldsz newsz r = unfinished
alloc_loop (suc n) kend pgdir a oldsz newsz r =
    let (mem, r') = kalloc r in
    if ltb a newsz
    then (if mem == 0
        then then_do (deallocuvm kend pgdir newsz oldsz r') (λ u. done 0)
        else then_do (map_user pgdir a mem (clear_page mem r'))
            (λ ok. alloc_loop n kend pgdir (a + pgsize) oldsz newsz))
    else done newsz r

abbrev pub allocuvm : (kend pgdir oldsz newsz : ℕ) → Ram → Out ℕ
allocuvm kend pgdir oldsz newsz r =
    if ltb usertop newsz
    then done 0 r
    else if ltb newsz oldsz
    then done oldsz r
    else alloc_loop (newsz / pgsize + 2) kend pgdir (round_up_page oldsz) oldsz newsz r

-- The loop of freevm over the entries of the directory.
unfoldable pub free_tables : (n : ℕ) → (kend pgdir i : ℕ) → Ram → Out Unit
free_tables zero kend pgdir i r = done tt r
free_tables (suc n) kend pgdir i r =
    let pde = word r.bytes (pgdir + 4 * i) in
    if has_flag pte_p pde
    then then_do (free_page kend (pte_addr pde) r) (λ u. free_tables n kend pgdir (i + 1))
    else free_tables n kend pgdir (i + 1) r

abbrev pub freevm : (kend pgdir : ℕ) → Ram → Out Unit
freevm kend pgdir r =
    if pgdir == 0
    then panic
    else then_do (deallocuvm kend pgdir usertop 0 r)
        (λ u r'. then_do (free_tables npdentries kend pgdir 0 r') (λ v. free_page kend pgdir))

-- bad: freevm(d); return 0;
abbrev pub free_copy : (kend d : ℕ) → Ram → Out ℕ
free_copy kend d r = then_do (freevm kend d r) (λ u. done 0)

unfoldable pub copy_pages : (fuel : ℕ) → (kend d pgdir sz i : ℕ) → Ram → Out ℕ
copy_pages zero kend d pgdir sz i r = unfinished
copy_pages (suc n) kend d pgdir sz i r =
    let (pte, r') = walkpgdir pgdir i false r in
    let pa = pte_addr (word r'.bytes pte) in
    let (mem, s) = kalloc r' in
    if not (ltb i sz)
    then done d r
    else if pte == 0 || not (has_flag pte_p (word r'.bytes pte))
    then panic
    else if mem == 0
    then free_copy kend d s
    else then_do (map_user d i mem (move_bytes mem pa pgsize s)) (λ ok s'. elim ok [
      | false ↦ free_copy kend d s'
      | true ↦ copy_pages n kend d pgdir sz ((i + pgsize) % 2 ^ 32) s'
    ])

unfoldable pub copyuvm : (kend kdata pgdir sz : ℕ) → Ram → Out ℕ
copyuvm kend kdata pgdir sz r =
    then_do (setupkvm kdata r)
      (λ d r'. if d == 0 then done 0 r' else copy_pages (sz / pgsize + 2) kend d pgdir sz 0 r')

-- The kernel's address of a page of the user, or 0. The entry is read also where walkpgdir returns 0.
unfoldable pub uva2ka : (pgdir uva : ℕ) → Ram → ℕ
uva2ka pgdir uva r =
    let (pte, r') = walkpgdir pgdir uva false r in
    let e = word r'.bytes pte in
    if not (has_flag pte_p e) then 0 else if not (has_flag pte_u e) then 0 else pte_addr e

-- Each round copies at least a byte.
unfoldable pub copyout_loop : (fuel : ℕ) → (pgdir va buf len : ℕ) → Ram → Out Bool
copyout_loop zero pgdir va buf len r = unfinished
copyout_loop (suc f) pgdir va buf len r =
    let va0 = round_down va in
    let pa0 = uva2ka pgdir va0 r in
    let room = pgsize - (va - va0) in
    let n = if ltb len room then len else room in
    if len == 0
    then done true r
    else if pa0 == 0
    then done false r
    else copyout_loop f pgdir ((va0 + pgsize) % 2 ^ 32) ((buf + n) % 2 ^ 32) (len - n)
        (move_bytes (pa0 + (va - va0)) buf n r)

abbrev pub copyout : (pgdir va p len : ℕ) → Ram → Out Bool
copyout pgdir va p len r = copyout_loop (len + 1) pgdir va p len r
