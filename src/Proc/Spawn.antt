-- ===== src/Proc/Spawn.antt =====
-- growproc, allocproc, fork and clone of proc.c keep the invariant of the table.
use ecnu_oslab.Base.{
  ℕ, zero, ◌+◌, ◌%◌, ◌^◌, ◌<◌, ◌≡◌, ◌≢◌, ◌⊎◌, inl, inr, refl, true, false, not, none, some, ◌==◌, ℤ,
  pos, find_index-cases, arith, Bool-cases,
}
use ecnu_oslab.Proc.{
  unused, embryo, is, Proc, Services, Kernel, nproc, proc, set_size, growproc, alloc_slot, no_stack,
  with_stack, allocproc, fork, fork_into, clone, clone_into, finish_child,
}
use ecnu_oslab.Proc.Table.{TableOk-set, TableOk-new, TableOk-next, TableOk-free, TableOk-map, Ok}

module _ {R : Type 0} (sys : Services R) where
  set_size-Ok : (k : Kernel R) (r : ℕ × R) → Ok k → Ok (set_size sys k r).1
  set_size-Ok k (sz, r) v = elim (Bool-cases (sz == 0)) [
    | inl t ↦ rw t v
    | inr t ↦ rw t (
        TableOk-map v (λ j. ground arith) (λ j z. ground arith) (λ j z. ground arith)
          (λ j z. ground arith))
  ]

  pub growproc-Ok : (n : ℤ) (k : Kernel R) → Ok k → Ok (growproc sys n k).1
  unfolding growproc
  growproc-Ok (pos zero) k v =
      TableOk-map v (λ j. ground arith) (λ j z. ground arith) (λ j z. ground arith)
        (λ j z. ground arith)
  growproc-Ok n k v = set_size-Ok k _ v

  -- A failing kalloc leaves a free slot; otherwise the slot is an EMBRYO with the next number.
  pub alloc_slot-cases :
      (i : ℕ) (k : Kernel R)
      → i < nproc
      → is (k.procs i).state unused ≡ true
      → ((k.procs i).state ≡ unused → (k.procs i).parent ≡ 0)
      → (k' : Kernel R) × (Ok k → k.nextpid + 1 < 2 ^ 32 → Ok k')
        × (k'.current ≡ k.current)
        × ((j : ℕ) → j ≢ i → k'.procs j ≡ k.procs j)
        × (((alloc_slot sys i k ≡ (none, k')) × ((k'.procs i).state ≡ unused))
            ⊎ ((alloc_slot sys i k ≡ (some i, k'))
                × ((k'.procs i).state ≡ embryo)
                × ((k'.procs i).pid ≡ k.nextpid)
                × (k'.nextpid ≡ (k.nextpid + 1) % 2 ^ 32)
                × ((k'.procs i).ofile ≡ (k.procs i).ofile)
                × ((k'.procs i).parent ≡ 0)))
  unfolding alloc_slot
  alloc_slot-cases i k l t f = elim (Bool-cases ((sys.kalloc k.rest).0 == 0)) [
    | inl z ↦ (
      no_stack sys i k,
      (λ v m.
          TableOk-next k.nextpid m
            (TableOk-new i _ v refl (λ s. f (ground (arith, t))) (λ s. ground arith))),
      refl,
      λ j n. ground arith,
      inl (rw z, ground arith),
    )
    | inr z ↦ (
      with_stack sys i k,
      (λ v m.
          TableOk-next k.nextpid m
            (TableOk-new i _ v refl (λ s. ground arith) (λ s. ground arith))),
      refl,
      λ j n. ground arith,
      inr (
        rw z,
        ground arith,
        ground arith,
        refl,
        ground arith,
        ground (arith, f (ground (arith, t))),
      ),
    )
  ]

  pub allocproc-cases :
      (k : Kernel R)
      → ((allocproc sys k ≡ (none, k))
          × ((j : ℕ) → j < nproc → is (k.procs j).state unused ≡ false))
        ⊎ ((i : ℕ) × (allocproc sys k ≡ alloc_slot sys i k)
            × (i < nproc)
            × (is (k.procs i).state unused ≡ true)
            × ((j : ℕ) → j < i → is (k.procs j).state unused ≡ false))
  unfolding allocproc
  allocproc-cases k = elim (find_index-cases (λ i. is (k.procs i).state unused) nproc) [
    | inl (e, h) ↦ inl (rw (e, allocproc), h)
    | inr (i, e, l, t, h) ↦ inr (i, rw (e, allocproc), l, t, h)
  ]

  finish_child-Ok :
      (i : ℕ) (p : Proc) (k : Kernel R)
      → (k.procs i).state ≢ unused
      → p.pid ≡ (k.procs i).pid
      → Ok k
      → Ok (finish_child sys i p k).1
  unfolding finish_child
  finish_child-Ok i p k u e v =
      TableOk-set i _ v e (λ z. absurd (u z)) (λ z. ground arith) (λ z. ground arith)

  pub fork_into-Ok :
      (i : ℕ) (k : Kernel R)
      → (k.procs i).state ≡ embryo
      → (k.procs i).parent ≡ 0
      → i < nproc
      → Ok k
      → Ok (fork_into sys i k).1
  unfolding fork_into
  fork_into-Ok i k u z l v =
      elim (Bool-cases ((sys.copyuvm (proc k).pgdir (proc k).sz k.rest).0 == 0)) [
        | inl t ↦ rw (t, fork_into) (TableOk-free i _ v (v.bound i l) refl z)
        | inr t ↦ rw (t, fork_into) (finish_child-Ok i _ _ (λ s. ground (arith, s)) refl v)
      ]

  pub clone_into-Ok :
      (fcn arg stack i : ℕ) (k : Kernel R)
      → (k.procs i).state ≡ embryo
      → Ok k
      → Ok (clone_into sys fcn arg stack i k).1
  unfolding clone_into
  clone_into-Ok fcn arg stack i k u v = finish_child-Ok i _ _ (λ z. ground (arith, z)) refl v

  pub allocproc-Ok : (k : Kernel R) → k.nextpid + 1 < 2 ^ 32 → Ok k → Ok (allocproc sys k).1
  allocproc-Ok k m v = elim (allocproc-cases k) [
    | inl (e, h) ↦ rw e v
    | inr (i, e, l, t, h) ↦
        let (k', w, c, same, o) = alloc_slot-cases i k l t (v.free i l) in
        elim o [ inl (q, d) ↦ rw (e, q) (w v m) | inr (q, u, n, x, y, z) ↦ rw (e, q) (w v m) ]
  ]

  pub fork-Ok : (k : Kernel R) → k.nextpid + 1 < 2 ^ 32 → Ok k → Ok (fork sys k).1
  unfolding fork
  fork-Ok k m v = elim (allocproc-cases k) [
    | inl (e, h) ↦ rw e v
    | inr (i, e, l, t, h) ↦
        let (k', w, c, same, o) = alloc_slot-cases i k l t (v.free i l) in
        elim o [
          | inl (q, d) ↦ rw (e, q) (w v m)
          | inr (q, u, n, x, y, z) ↦ rw (e, q) (fork_into-Ok i k' u z l (w v m))
        ]
  ]

  pub clone-Ok :
      (fcn arg stack : ℕ) (k : Kernel R)
      → k.nextpid + 1 < 2 ^ 32
      → Ok k
      → Ok (clone sys fcn arg stack k).1
  unfolding clone
  clone-Ok fcn arg stack k m v = elim (Bool-cases (not (stack % 4096 == 0))) [
    | inl b ↦ rw b v
    | inr b ↦ rw b (elim (allocproc-cases k) [
      | inl (e, h) ↦ rw e v
      | inr (i, e, l, t, h) ↦
          let (k', w, c, same, o) = alloc_slot-cases i k l t (v.free i l) in
          elim o [
            | inl (q, d) ↦ rw (e, q) (w v m)
            | inr (q, u, n, x, y, z) ↦ rw (e, q) (clone_into-Ok fcn arg stack i k' u (w v m))
          ]
    ])
  ]
