-- ===== src/Pages.antt =====
-- lab5/xv6-thread/kernel/kalloc.c: the allocator of physical pages, a list that is threaded through the free
-- pages themselves.
pub mod Chain
pub mod Steps
pub mod Start
mod Tests
use ecnu_oslab.Base.{
  ℕ, zero, suc, ◌+◌, ◌-◌, ◌*◌, ◌/◌, ◌%◌, ◌^◌, Bool, true, false, ◌||◌, not, Option, none, some, ltb,
  leb, ◌==◌, ◌&&◌, if◌then◌else◌,
}
use ecnu_oslab.Fs.{Block, word, set_word}

abbrev pub pgsize : ℕ
pgsize = 4096

abbrev pub phystop : ℕ
phystop = 16777216

-- The memory by physical address, and kmem.freelist.
pub record Ram : Type 0 where
  pub bytes : Block
  pub freelist : ℕ

-- memset(v, 1, PGSIZE)
abbrev pub junk : Block → (v : ℕ) → Block
junk b v i = if not (ltb i v) && ltb i (v + pgsize) then 1 else b i

-- `kend` is the address of `end`. None is a panic.
unfoldable pub kfree : (kend v : ℕ) → Ram → Option Ram
kfree kend v r =
    if not (v % pgsize == 0) || ltb v kend || not (ltb v phystop)
    then none
    else some (record { bytes = set_word (junk r.bytes v) v r.freelist; freelist = v })

unfoldable pub kalloc : Ram → ℕ × Ram
kalloc r =
    (r.freelist, if r.freelist == 0 then r else record r { freelist = word r.bytes r.freelist })

abbrev pub then_free : Option Ram → (Ram → Option Ram) → Option Ram
then_free none f = none
then_free (some r) f = f r

-- The loop of kinit, of n rounds.
unfoldable pub free_range : (kend n p : ℕ) → Ram → Option Ram
free_range kend zero p r = some r
free_range kend (suc n) p r = then_free (kfree kend p r) (free_range kend n (p + pgsize))

-- PGROUNDUP
abbrev pub round_up_page : ℕ → ℕ
round_up_page a = (a + 4095) / pgsize * pgsize

-- The loop runs while p + PGSIZE <= PHYSTOP.
abbrev pub kinit : (kend : ℕ) → Ram → Option Ram
kinit kend r = free_range kend ((phystop - round_up_page kend) / pgsize) (round_up_page kend) r
