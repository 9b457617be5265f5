-- ===== src/Mem/Tests.antt =====
-- Runs of the allocator on a small region, and the theorems at it.
use ecnu_oslab.Base.{
  ℕ, ◌+◌, ◌*◌, ◌-◌, ◌%◌, ◌^◌, ◌≤◌, ◌≡◌, refl, Option, some, none, List, [], ◌∷◌, arith,
  if◌then◌else◌, ltb, pos,
}
use mathlib.Core.Option
use ecnu_oslab.Mem.{
  State, Heap, write, mem_alloc, mem_free, magic, header_bytes, search_style, first_fit, scan,
  carve, release, neighbours, link_left, link_right,
}
use ecnu_oslab.Mem.Blocks.{Block, free, used}
use ecnu_oslab.Mem.Valid.{IsValid}
use ecnu_oslab.Mem.Outcomes.{Allocated, request, mem_alloc_lem}
use ecnu_oslab.Mem.Release.{mem_free_lem}
use ecnu_oslab.Mem.RoundTrip.{free-alloc, alloc-payload}

abbrev start : ℕ
start = 4096

abbrev node : Heap → (a size next : ℕ) → Heap
node h a size next = write (write h (a + 8) (size - 16)) a next

abbrev header : Heap → (a size : ℕ) → Heap
header h a size = write h a (magic * 2 ^ 32 + (size - 8))

-- Six blocks: 16 used, 24 free, 32 used, 40 free, 16 used, 64 free.
abbrev words : Heap
words =
    header
      (node (header (node (header (node (λ _. 0) 4224 64 0) 4208 16) 4168 40 4224) 4136 32) 4112 24
        4168)
      4096 16

abbrev sample : State
sample = record { called = 1; base = 4112; hptr = start; totsize = 192; m_error = 0; heap = words }

abbrev blocks : List Block
blocks = used 16 ∷ free 24 ∷ used 32 ∷ free 40 ∷ used 16 ∷ free 64 ∷ []

sample-IsValid : IsValid sample blocks
sample-IsValid = record {
  linked = record {
    live = omega arith;
    start = omega arith;
    aligned = refl;
    small = omega arith;
    room = omega arith;
    head = refl;
    tiles = omega arith;
  };
  coalesced = omega arith;
}

-- What a call returns, without the state.
abbrev address : Option (ℕ × State) → Option ℕ
address o = elim o [ none ↦ none | some (p, s) ↦ some p ]

best_run : address (mem_alloc (pos 20) 0 sample) ≡ some 4176
unfolding mem_alloc search_style scan carve
best_run = refl

worst_run : address (mem_alloc (pos 20) 1 sample) ≡ some 4232
unfolding mem_alloc search_style scan carve
worst_run = refl

first_run : address (mem_alloc (pos 8) 2 sample) ≡ some 4120
unfolding mem_alloc search_style first_fit carve
first_run = refl

abbrev zeros : ℕ → Option (ℕ × Heap)
zeros n = some (4096, λ _. 0)

abbrev small_zeros : ℕ → Option (ℕ × Heap)
small_zeros n = if ltb n 65536 then zeros n else none

abbrev blank : State
blank = record { called = 0; base = 0; hptr = 0; totsize = 0; m_error = 0; heap = λ _. 0 }

mem_alloc_lem_example : Allocated 0 (request 20) sample blocks (mem_alloc (pos 20) 0 sample)
mem_alloc_lem_example = mem_alloc_lem 0 20 sample-IsValid (omega arith) (omega arith) (omega arith)

-- The block of 32 bytes has a free block on either side.
mem_free_lem_example :
    (s' : State) × (mem_free 4144 sample ≡ some (pos 0, s'))
    × IsValid s' (used 16 ∷ free 96 ∷ used 16 ∷ free 64 ∷ [])
mem_free_lem_example =
    mem_free_lem (used 16 ∷ free 24 ∷ []) (free 40 ∷ used 16 ∷ free 64 ∷ []) 32 sample-IsValid

-- The state after a first-fit request for 20 bytes.
abbrev granted_state : State
granted_state = (carve sample 24 32 4168 4112).1

first_grant : mem_alloc (pos 20) 2 sample ≡ some (4176, granted_state)
unfolding mem_alloc search_style first_fit carve
first_grant = refl

free-alloc_example :
    (s'' : State) × (mem_free 4176 granted_state ≡ some (pos 0, s'')) × IsValid s'' blocks
free-alloc_example =
    free-alloc sample granted_state blocks 2 20 4176 sample-IsValid (omega arith) (omega arith)
      (omega arith) first_grant (omega arith)

alloc-payload_example :
    (4096 + 8 ≤ 4176)
    × (4176 + 20 ≤ 4096 + 192)
    × (4176 % 8 ≡ 0)
    × (20 ≤ header_bytes granted_state.heap 4168)
alloc-payload_example =
    alloc-payload sample granted_state blocks 2 20 4176 sample-IsValid (omega arith) (omega arith)
      (omega arith) first_grant (omega arith)

-- Requests for 0 bytes get blocks of 8 bytes. Freeing one writes a node of 16 bytes over it and over
-- the header of the next block, and the size that it computes wraps: a later request for more than
-- the whole region succeeds.
abbrev zero_run : Option (Option ℕ)
zero_run =
    Option.bind (mem_alloc (pos 0) 2 sample)
      λ (p, s). Option.bind (mem_free p s) λ (r, s'). some (address (mem_alloc (pos 100000) 2 s'))

zero_size_corrupts : zero_run ≡ some (some 4120)
unfolding mem_alloc mem_free release neighbours link_left link_right search_style first_fit carve
    Option.bind
zero_size_corrupts = refl
