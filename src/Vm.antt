-- ===== src/Vm.antt =====
-- lab5/xv6-thread/kernel/vm.c: page tables, in the memory of Pages. Physical addresses are kernel
-- addresses, 0 is the null pointer.
pub mod Space
pub mod Tables
pub mod Entries
pub mod Walk
pub mod Maps
pub mod Ranges
pub mod Access
pub mod Fuel
pub mod Loops
mod Tests
use ecnu_oslab.Base.{
  ℕ, zero, suc, ◌+◌, ◌-◌, ◌*◌, ◌/◌, ◌%◌, ◌^◌, Bool, true, false, ◌&&◌, not, List, [], ◌∷◌, ltb, leb,
  ◌==◌, if◌then◌else◌,
}
use ecnu_oslab.Fs.{Block, word, set_word}
use ecnu_oslab.Pages.{pgsize, phystop, Ram, kalloc}

abbrev pub usertop : ℕ
usertop = 0xA0000

abbrev pub npdentries : ℕ
npdentries = 1024

-- PDX, PTX, PGROUNDDOWN and PTE_ADDR
abbrev pub pdx : ℕ → ℕ
pdx la = la / 2 ^ 22 % 1024

abbrev pub ptx : ℕ → ℕ
ptx la = la / 2 ^ 12 % 1024

abbrev pub round_down : ℕ → ℕ
round_down a = a / pgsize * pgsize

abbrev pub pte_addr : ℕ → ℕ
pte_addr pte = pte / pgsize * pgsize

abbrev pub pte_p : ℕ
pte_p = 1

abbrev pub pte_w : ℕ
pte_w = 2

abbrev pub pte_u : ℕ
pte_u = 4

-- pte & flag and pte | flag, for a flag of one bit.
abbrev pub has_flag : (flag pte : ℕ) → Bool
has_flag flag pte = pte / flag % 2 == 1

abbrev pub set_flag : (flag pte : ℕ) → ℕ
set_flag flag pte = if has_flag flag pte then pte else pte + flag

abbrev pub or_flags : (pte : ℕ) → List ℕ → ℕ
or_flags pte [] = pte
or_flags pte (f ∷ fs) = or_flags (set_flag f pte) fs

-- memset(p, 0, PGSIZE)
abbrev pub zero_page : (p : ℕ) → Block → Block
zero_page p b i = if leb p i && ltb i (p + pgsize) then 0 else b i

-- A result with the memory, or a panic; `unfinished` is the end of the fuel of a loop.
pub data Out (A : Type 0) : Type 0 where
  done : A → Ram → Out A
  panic : Out A
  unfinished : Out A

abbrev pub then_do : {A B : Type 0} → Out A → (A → Ram → Out B) → Out B
then_do (done a r) f = f a r
then_do panic f = panic
then_do unfinished f = unfinished

abbrev pub new_table : (pgdir va t : ℕ) → Ram → Ram
new_table pgdir va t r = record r {
  bytes =
      set_word (zero_page t r.bytes) (pgdir + 4 * pdx va) (or_flags t (pte_p ∷ pte_w ∷ pte_u ∷ []));
}

-- The page that kalloc returned, as a table behind the entry for va.
unfoldable pub link_table : (pgdir va : ℕ) → (t : ℕ) → Ram → ℕ × Ram
link_table pgdir va t r = if t == 0 then (0, r) else (t + 4 * ptx va, new_table pgdir va t r)

-- The address of the entry for va in its page table, or 0.
unfoldable pub walkpgdir : (pgdir va : ℕ) → (create : Bool) → Ram → ℕ × Ram
walkpgdir pgdir va create r =
    let pde = word r.bytes (pgdir + 4 * pdx va) in
    let (t, r') = kalloc r in
    if has_flag pte_p pde
    then (pte_addr pde + 4 * ptx va, r)
    else if not create
    then (0, r)
    else link_table pgdir va t r'

-- *pte = pa | perm | PTE_P
abbrev pub set_pte : (pte pa : ℕ) → (perm : List ℕ) → Ram → Ram
set_pte pte pa perm r = record r {
  bytes = set_word r.bytes pte (set_flag pte_p (or_flags pa perm));
}

-- One round of the loop of mappages, at page a; `next` is the rest of the loop. True is 0, false is -1.
unfoldable pub map_page :
    (pgdir a last pa : ℕ) → (perm : List ℕ) → (next : Ram → Out Bool) → Ram → Out Bool
map_page pgdir a last pa perm next r =
    let (pte, r') = walkpgdir pgdir a true r in
    let r'' = set_pte pte pa perm r' in
    if pte == 0
    then done false r'
    else if has_flag pte_p (word r'.bytes pte)
    then panic
    else if a == last
    then done true r''
    else next r''

unfoldable pub map_loop : (rounds : ℕ) → (pgdir a last pa : ℕ) → (perm : List ℕ) → Ram → Out Bool
map_loop zero pgdir a last pa perm r = unfinished
map_loop (suc n) pgdir a last pa perm r =
    map_page pgdir a last pa perm
      (map_loop n pgdir ((a + pgsize) % 2 ^ 32) last ((pa + pgsize) % 2 ^ 32) perm) r

-- The loop goes round once for each page from the first to the last.
unfoldable pub mappages : (pgdir la size pa : ℕ) → (perm : List ℕ) → Ram → Out Bool
mappages pgdir la size pa perm =
    let a = round_down la in
    let last = round_down ((la + size + 2 ^ 32 - 1) % 2 ^ 32) in
    map_loop ((last + 2 ^ 32 - a) % 2 ^ 32 / pgsize + 1) pgdir a last pa perm
