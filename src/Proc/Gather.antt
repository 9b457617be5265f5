-- ===== src/Proc/Gather.antt =====
-- wait, join and exit of proc.c keep the invariant of the table.
use ecnu_oslab.Base.{
  ℕ, ◌≡◌, ◌≢◌, refl, sym, subst, inl, inr, arith, Bool, false, some, not, ◌==◌, Bool-cases,
}
use ecnu_oslab.Proc.{Proc, Services, Kernel, unused, nproc, pointer, proc, wakeup1}
use ecnu_oslab.Proc.Wait.{
  scan_children, Call, returned, blocked, idle_children, collect, free_process, free_thread,
  give_up_children, close_all, die, leave, wait, join, join_check, exit, is_process_child,
  is_thread_child, is_zombie,
}
use ecnu_oslab.Proc.Table.{TableOk-set, TableOk-free, Ok, Busy}
use ecnu_oslab.Proc.Keeps.{
  wakeup1-Ok, sleep-Ok, give_up_children-Ok, give_up_children-keeps, scan_children-cases,
  idle_children-cases,
}

module _ {R : Type 0} where
  -- The state in which a call leaves the kernel, whether it returns or waits.
  abbrev pub after : Call R → Kernel R
  after (returned v k) = k
  after (blocked k) = k

  idle_children-Ok : (b : Bool) (k : Kernel R) → Busy k → Ok (after (idle_children b k))
  idle_children-Ok b k v = elim (idle_children-cases b k) [
    | inl e ↦ rw e v.table
    | inr e ↦ rw e (sleep-Ok (pointer k.current) k (λ z. ground (arith, v.state)) v.table)
  ]

  collect-Ok :
      (child : ℕ → Bool) (release : Proc → R → R) (k : Kernel R)
      → Busy k
      → Ok (after (collect release (scan_children child (is_zombie k) nproc 0 false) k))
  unfolding collect
  collect-Ok child release k v = elim (scan_children-cases child (is_zombie k) nproc 0 false) [
    | inl (j, e, l, m, c, z, h) ↦ rw e (TableOk-free j _ v.table v.table.positive refl refl)
    | inr (b, e, h, f, w) ↦ rw e (idle_children-Ok b k v)
  ]

  -- The loop over the children, behind the wake-up of the parent.
  abbrev loop : Kernel R → Kernel R
  loop k = give_up_children nproc 0 (wakeup1 (proc k).parent k)

  loop-keeps : (k : Kernel R) → Busy k → (proc (loop k)).state ≢ unused
  unfolding wakeup1
  loop-keeps k v =
      let (c, s) = give_up_children-keeps nproc 0 k.current (wakeup1 (proc k).parent k) in
      rw c (s (ground (arith, v.state)))

  pub leave-Ok : (k : Kernel R) → Busy k → Ok (leave k)
  leave-Ok k v =
      TableOk-set (loop k).current _
        (give_up_children-Ok nproc 0 _ (omega arith) (wakeup1-Ok _ _ v.table)) refl
        (λ z. absurd (loop-keeps k v z)) (λ z. ground arith) (λ z. ground arith)

module _ {R : Type 0} (sys : Services R) where
  pub wait-Ok : (k : Kernel R) → Busy k → Ok (after (wait sys k))
  unfolding wait
  wait-Ok k v = collect-Ok (is_process_child k) (free_process sys) k v

  pub join-Ok : (stack : ℕ) (k : Kernel R) → Busy k → Ok (after (join sys stack k))
  unfolding join
  join-Ok stack k v = elim (Bool-cases (not (join_check (proc k).sz stack))) [
    | inl t ↦ rw (t, join) v.table
    | inr t ↦
        rw (t, join) (collect-Ok (is_thread_child k) (free_thread sys (proc k).pgdir stack) k v)
  ]

  pub close_all-Ok : (k : Kernel R) → Busy k → Ok (close_all sys k)
  close_all-Ok k v =
      TableOk-set k.current _ v.table refl (λ z. z) (v.table.free k.current v.here) (λ z. refl)

  -- What exit has done before it makes the process a ZOMBIE.
  abbrev pub abandon : Kernel R → Kernel R
  abandon k = give_up_children nproc 0 (wakeup1 (proc k).parent (close_all sys k))

  abandon-keeps : (k : Kernel R) → Busy k → (proc (abandon k)).state ≢ unused
  unfolding wakeup1
  abandon-keeps k v =
      let (c, s) =
        give_up_children-keeps nproc 0 k.current (wakeup1 (proc k).parent (close_all sys k)) in
      rw c (s (ground (arith, v.state)))

  die-Ok : (k : Kernel R) → Busy k → Ok (die (abandon k))
  die-Ok k v =
      TableOk-set (abandon k).current _
        (give_up_children-Ok nproc 0 _ (omega arith) (wakeup1-Ok _ _ (close_all-Ok k v))) refl
        (λ z. absurd (abandon-keeps k v z)) (λ z. ground arith) (λ z. ground arith)

  pub exit-some :
      (k k' : Kernel R) → exit sys k ≡ some k' → (k.current ≢ k.initproc) × (k' ≡ die (abandon k))
  unfolding exit
  exit-some k k' e = elim (Bool-cases (k.current == k.initproc)) [
    | inl t ↦ absurd (ground (arith, e, t))
    | inr t ↦ (ground (arith, t), ground (arith, e, t))
  ]

  pub exit-Ok : (k k' : Kernel R) → Busy k → exit sys k ≡ some k' → Ok k'
  exit-Ok k k' v e = subst Ok (sym (exit-some k k' e).1) (die-Ok k v)
