-- ===== src/Mem.antt =====
-- lab3/Malloc and Free/mem.c: mem_init, mem_alloc and mem_free on an explicit heap.
pub mod Blocks
pub mod Search
pub mod Scan
pub mod Valid
pub mod Assemble
pub mod Alloc
pub mod Outcomes
pub mod Coalesce
pub mod Free
pub mod Links
pub mod Release
pub mod Init
pub mod RoundTrip
mod Tests
use ecnu_oslab.Base.{
  ℕ, zero, suc, ◌+◌, ◌-◌, ◌*◌, ◌/◌, ◌%◌, ◌^◌, Bool, true, false, ◌&&◌, ◌||◌, Option, none, some,
  ltb, leb, ◌==◌, if◌then◌else◌, ℤ, pos, negsuc, minus_one, to_size_t,
}

-- Sizes on the 64-bit target: `union node` is 16 bytes, `union header` and `Align` are 8.
abbrev pub node_size : ℕ
node_size = 16

abbrev pub header_size : ℕ
header_size = 8

abbrev pub magic : ℕ
magic = 0x19260817

abbrev pub e_no_space : ℕ
e_no_space = 1

abbrev pub e_bad_args : ℕ
e_bad_args = 4

abbrev pub e_bad_pointer : ℕ
e_bad_pointer = 5

-- 8-byte words by their address; the program uses addresses that 8 divides.
abbrev pub Heap : Type 0
Heap = ℕ → ℕ

-- `called` counts successful calls of mem_init; base = 0 is NULL.
pub record State : Type 0 where
  pub called : ℕ
  pub base : ℕ
  pub hptr : ℕ
  pub totsize : ℕ
  pub m_error : ℕ
  pub heap : Heap

abbrev pub write : Heap → ℕ → ℕ → Heap
write h a v x = if a == x then v else h x

-- n->s.next and n->s.size of a node at address n: the low half of the second word is the size.
abbrev pub node_next : Heap → ℕ → ℕ
node_next h n = h n

abbrev pub node_bytes : Heap → ℕ → ℕ
node_bytes h n = h (n + 8) % 2 ^ 32

-- p->s.size and p->s.magic of a header at address p: the two halves of one word.
abbrev pub header_bytes : Heap → ℕ → ℕ
header_bytes h p = h p % 2 ^ 32

abbrev pub header_magic : Heap → ℕ → ℕ
header_magic h p = h p / 2 ^ 32

abbrev pub connect : Heap → ℕ → ℕ → Heap
connect h prev next = if prev == 0 then h else write h prev next

abbrev pub set_node : Heap → ℕ → ℕ → Heap
set_node h n size = write h (n + 8) (h (n + 8) / 2 ^ 32 * 2 ^ 32 + size)

abbrev pub set_header : Heap → ℕ → ℕ → Heap
set_header h p size = write h p (magic * 2 ^ 32 + size)

-- `page` is getpagesize(); `mmap` gives the address and the contents of a new mapping of the given
-- size, or none for MAP_FAILED. The `int` arithmetic of the rounding is taken not to overflow.
abbrev pub round_up : ℕ → ℕ → ℕ
round_up page n = (n + page - 1) / page * page

pub mem_init : (page : ℕ) → (mmap : ℕ → Option (ℕ × Heap)) → ℤ → State → ℤ × State
mem_init page mmap (negsuc n) s = (minus_one, record s { m_error = e_bad_args })
mem_init page mmap (pos n) s =
    if (n == 0) || ltb 0 s.called
    then (minus_one, record s { m_error = e_bad_args })
    else elim (mmap (round_up page n)) [
      | none ↦ (
        minus_one,
        record s { totsize = round_up page n; hptr = 2 ^ 64 - 1; m_error = e_bad_args },
      )
      | some (p, contents) ↦ (
        pos 0,
        record s {
          called = s.called + 1;
          base = p;
          hptr = p;
          totsize = round_up page n;
          heap = set_node contents p ((round_up page n + 2 ^ 64 - node_size) % 2 ^ 32);
        },
      )
    ]

-- The three searches of mem_alloc. They return the node found (0 if none) and the one before it;
-- none means that the loop did not end within the fuel.
pub first_fit : ℕ → Heap → (need n prevp : ℕ) → Option (ℕ × ℕ)
first_fit zero h need n prevp = none
first_fit (suc fuel) h need n prevp =
    let rest = first_fit fuel h need (node_next h n) n in
    if n == 0
    then some (0, prevp)
    else if leb need (node_bytes h n + node_size)
    then some (n, prevp)
    else rest

-- The variables n, prevp and bestsize of the other two loops.
pub record Choice : Type 0 where
  pub node : ℕ
  pub prev : ℕ
  pub best : ℕ

-- `better size best` is the first test of the loop: size < best, or size ≥ best.
abbrev pub choose : (ℕ → ℕ → Bool) → Heap → (need cn cp : ℕ) → Choice → Choice
choose better h need cn cp c =
    if better (node_bytes h cn) c.best && leb need (node_bytes h cn + node_size)
    then record { node = cn; prev = cp; best = node_bytes h cn }
    else c

pub scan : (ℕ → ℕ → Bool) → ℕ → Heap → (need cn cp : ℕ) → Choice → Option (ℕ × ℕ)
scan better zero h need cn cp c = none
scan better (suc fuel) h need cn cp c =
    let rest = scan better fuel h need (node_next h cn) cn (choose better h need cn cp c) in
    if cn == 0 then some (c.node, c.prev) else rest

abbrev pub best_test : ℕ → ℕ → Bool
best_test size best = ltb size best

abbrev pub worst_test : ℕ → ℕ → Bool
worst_test size best = leb best size

abbrev pub chosen_none : ℕ → Choice
chosen_none best = record { node = 0; prev = 0; best = best }

-- The styles of mem.h.
abbrev pub m_bestfit : ℕ
m_bestfit = 0

abbrev pub m_worstfit : ℕ
m_worstfit = 1

abbrev pub m_firstfit : ℕ
m_firstfit = 2

-- The list has at most totsize / 16 nodes, so totsize + 1 rounds end every search of it.
pub search_style : State → (style need : ℕ) → Option (ℕ × ℕ)
search_style s style need =
    if style == m_firstfit
    then first_fit (s.totsize + 1) s.heap need s.base 0
    else if style == m_bestfit
    then scan best_test (s.totsize + 1) s.heap need s.base 0 (chosen_none 0xffffffff)
    else if style == m_worstfit
    then scan worst_test (s.totsize + 1) s.heap need s.base 0 (chosen_none 0)
    else some (0, 0)

-- size rounded up to a multiple of 8, as the bit pattern of the `int` that holds it.
abbrev pub aligned_size : ℤ → ℕ
aligned_size size = (to_size_t size + 8 - 1) % 2 ^ 64 / 8 * 8 % 2 ^ 32

abbrev pub need_of : ℤ → ℕ
need_of size = (aligned_size size + header_size) % 2 ^ 32

abbrev store_base : State → (prevp newnode : ℕ) → Heap → State
store_base s prevp newnode h =
    if prevp == 0
    then record s { base = newnode; heap = h }
    else record s { heap = connect h prevp newnode }

-- The part of mem_alloc behind the search, for n ≠ NULL.
pub carve : State → (size need n prevp : ℕ) → ℕ × State
carve s size need n prevp =
    let remain = (node_bytes s.heap n + node_size + 2 ^ 32 - need) % 2 ^ 32 in
    if leb node_size remain
    then (let newnode = n + need in
        let h = set_node s.heap newnode ((node_bytes s.heap n + 2 ^ 32 - need) % 2 ^ 32) in
        let s' = store_base s prevp newnode (connect h newnode (node_next h n)) in
        (n + header_size, record s' { heap = set_header s'.heap n size }))
    else (let s' = store_base s prevp (node_next s.heap n) s.heap in
        (n + header_size, record s' { heap = set_header s'.heap n ((size + remain) % 2 ^ 32) }))

-- The address returned is 0 for NULL; none: a search does not end.
pub mem_alloc : ℤ → (style : ℕ) → State → Option (ℕ × State)
mem_alloc size style s =
    if s.called == 0
    then some (0, record s { m_error = e_bad_args })
    else elim (search_style s style (need_of size)) [
      | none ↦ none
      | some (n, prevp) ↦
          if n == 0
          then some (0, record s { m_error = e_no_space })
          else some (carve s (aligned_size size) (need_of size) n prevp)
    ]

-- The loop of mem_free: the last node that ends at or before t, and the node behind it.
pub neighbours : ℕ → Heap → (t n lp : ℕ) → Option (ℕ × ℕ)
neighbours zero h t n lp = none
neighbours (suc fuel) h t n lp =
    let rest = neighbours fuel h t (node_next h n) n in
    if n == 0
    then some (lp, 0)
    else if leb (n + node_bytes h n + node_size) t
    then rest
    else some (lp, n)

-- lp->s.size += sizeof(Node) + t->s.size
abbrev pub absorb : Heap → (l r : ℕ) → Heap
absorb h l r = set_node h l ((node_bytes h l + node_size + node_bytes h r) % 2 ^ 32)

-- The links to the left: the new heap, base and t.
pub link_left : State → (t lp rp : ℕ) → State × ℕ
link_left s t lp rp =
    if lp == 0
    then (record s { heap = connect s.heap t s.base; base = t }, t)
    else if lp + node_bytes s.heap lp + node_size == t
    then (record s { heap = absorb s.heap lp t }, lp)
    else (record s { heap = connect (connect s.heap t rp) lp t }, t)

pub link_right : State → (t rp : ℕ) → State
link_right s t rp =
    if ltb 0 rp && (t + node_size + node_bytes s.heap t == rp)
    then (let h = absorb s.heap t rp in record s { heap = connect h t (node_next h rp) })
    else s

-- (void *)ptr - sizeof(Header), modulo the 64-bit address space. mem_free reads the header there, which the
-- model follows only inside the mapped region: for NULL the C code faults.
abbrev pub header_of : ℕ → ℕ
header_of ptr = (ptr + 2 ^ 64 - header_size) % 2 ^ 64

-- mem_free behind its checks, for the block at t.
pub release : (t : ℕ) → State → Option (ℤ × State)
release t s =
    let h =
      set_node s.heap t ((header_bytes s.heap t + header_size + 2 ^ 64 - node_size) % 2 ^ 32) in
    elim (neighbours (s.totsize + 1) h t s.base 0) [
      | none ↦ none
      | some (lp, rp) ↦
          let (s', t') = link_left (record s { heap = h }) t lp rp in
          some (pos 0, link_right s' t' rp)
    ]

pub mem_free : ℕ → State → Option (ℤ × State)
mem_free ptr s =
    if s.called == 0
    then some (minus_one, record s { m_error = e_bad_args })
    else if header_magic s.heap (header_of ptr) == magic
    then release (header_of ptr) s
    else some (minus_one, record s { m_error = e_bad_pointer })
