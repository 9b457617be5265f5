-- ===== src/Proc/Scanning.antt =====
-- How the scan of the table decides what wait and join of lab5/xv6-thread/kernel/proc.c do.
use ecnu_oslab.Base.{
  ℕ, ◌<◌, ◌≡◌, ◌⊎◌, refl, inl, inr, arith, Bool, true, false, ◌&&◌, Bool-cases, to_int, minus_one,
}
use ecnu_oslab.Proc.{Proc, Services, Kernel, nproc, pointer, update, proc}
use ecnu_oslab.Proc.Wait.{
  scan_children, Call, returned, blocked, reap, sleep, idle_children, collect, free_process,
  free_thread, wait, join, join_check, is_process_child, is_thread_child, is_zombie,
}
use ecnu_oslab.Proc.Keeps.{scan_children-cases}

module _ {R : Type 0} where
  -- The child at i is the first zombie child, and the call frees its slot and returns its number.
  pub record Reaped (child : ℕ → Bool) (release : Proc → R → R) (k : Kernel R) (i : ℕ) (c : Call R)
      : Type 0 where
    pub slot : i < nproc
    pub is_child : child i ≡ true
    pub gone : is_zombie k i ≡ true
    pub first : (j : ℕ) → j < i → (child j && is_zombie k j) ≡ false
    pub result :
        c
        ≡ returned (to_int (k.procs i).pid) (record k {
          procs = update k.procs i (reap (k.procs i));
          rest = release (k.procs i) k.rest;
        })

  -- The three outcomes of wait and join, by the tests and the steps of the code.
  abbrev pub Outcome : (child : ℕ → Bool) → (Proc → R → R) → Kernel R → Call R → Type 0
  Outcome child release k c =
      ((i : ℕ) × Reaped child release k i c)
      ⊎ (((c ≡ returned minus_one k)
            × ((j : ℕ) → j < nproc → (child j && is_zombie k j) ≡ false)
            × (((proc k).killed ≡ true) ⊎ ((j : ℕ) → j < nproc → child j ≡ false)))
          ⊎ ((c ≡ blocked (sleep (pointer k.current) k))
              × ((proc k).killed ≡ false)
              × ((j : ℕ) → j < nproc → (child j && is_zombie k j) ≡ false)
              × ((j : ℕ) × (j < nproc) × (child j ≡ true))))

  collect-Outcome :
      (child : ℕ → Bool) (release : Proc → R → R) (k : Kernel R)
      → Outcome child release k
          (collect release (scan_children child (is_zombie k) nproc 0 false) k)
  unfolding collect idle_children
  collect-Outcome child release k = elim (scan_children-cases child (is_zombie k) nproc 0 false) [
    | inl (j, e, l, m, c, z, h) ↦ rw e (
        inl (
          j,
          record {
            slot = omega arith;
            is_child = c;
            gone = z;
            first = λ m r. h m (omega arith) r;
            result = refl;
          },
        ))
    | inr (false, e, h, f, w) ↦ rw e (
        inr (
          inl (
            refl,
            λ j l. ground (arith, h j),
            inr (λ j l. (f refl).1 j (omega arith) (omega arith)),
          )))
    | inr (true, e, h, f, w) ↦ elim (Bool-cases (proc k).killed) [
      | inl q ↦ rw (e, q) (inr (inl (refl, λ j l. ground (arith, h j), inl refl)))
      | inr q ↦
          rw (e, q)
            (inr (
              inr (
                refl,
                refl,
                λ j l. ground (arith, h j),
                elim (w refl) [
                  | inl x ↦ absurd (ground (arith, x))
                  | inr (j, l, r, c) ↦ (j, omega arith, c)
                ],
              )))
    ]
  ]

module _ {R : Type 0} (sys : Services R) where
  pub wait-cases : (k : Kernel R) → Outcome (is_process_child k) (free_process sys) k (wait sys k)
  unfolding wait
  wait-cases k = collect-Outcome (is_process_child k) (free_process sys) k

  pub join-cases :
      (stack : ℕ) (k : Kernel R)
      → ((join_check (proc k).sz stack ≡ false) × (join sys stack k ≡ returned minus_one k))
        ⊎ ((join_check (proc k).sz stack ≡ true)
            × Outcome
                (is_thread_child k)
                (free_thread sys (proc k).pgdir stack)
                k
                (join sys stack k))
  unfolding join
  join-cases stack k = elim (Bool-cases (join_check (proc k).sz stack)) [
    | inl t ↦
        inr (t, rw t (collect-Outcome (is_thread_child k) (free_thread sys (proc k).pgdir stack) k))
    | inr t ↦ inl (t, rw t refl)
  ]
