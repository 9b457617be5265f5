-- ===== src/Proc/Handover.antt =====
-- What exit of lab5/xv6-thread/kernel/proc.c leaves in the table, and that the parent's wait sees it.
use ecnu_oslab.Base.{ℕ, ◌<◌, ◌≡◌, ◌≢◌, sym, ◌∙◌, subst, inl, inr, arith, true, ◌&&◌, some}
use ecnu_oslab.Proc.{Services, Kernel, sleeping, zombie, nproc, pointer, proc, wakeup1}
use ecnu_oslab.Proc.Wait.{
  wait, woken, is_process_child, is_zombie, close_all, die, exit, free_process,
}
use ecnu_oslab.Proc.Gather.{abandon, exit-some}
use ecnu_oslab.Proc.Exit.{
  Later, give_up_children-Later, give_up_children-Left, Left, pointer-injective,
}
use ecnu_oslab.Proc.Run.{run_slot}
use ecnu_oslab.Proc.Scanning.{Reaped, wait-cases}

module _ {R : Type 0} where
  -- What exit does to the slots of the table.
  pub record Exited (k k' : Kernel R) : Type 0 where
    pub current : k'.current ≡ k.current
    pub zombie : (k'.procs k.current).state ≡ zombie
    pub pgdir : (j : ℕ) → (k'.procs j).pgdir ≡ (k.procs j).pgdir
    pub parent :
        (j : ℕ) → (k.procs j).parent ≢ pointer k.current → (k'.procs j).parent ≡ (k.procs j).parent
    pub children :
        (j : ℕ)
        → j < nproc
        → j ≢ k.current
        → (k.procs j).parent ≡ pointer k.current
        → Left (proc k).pgdir k.initproc (k.procs j) (k'.procs j)
    pub woken :
        (m : ℕ)
        → m ≢ k.current
        → (proc k).parent ≡ pointer m
        → (k.procs m).chan ≡ pointer m
        → (k'.procs m).state ≢ sleeping

module _ {R : Type 0} (sys : Services R) where
  -- The state in which the loop over the children starts.
  abbrev start : Kernel R → Kernel R
  start k = wakeup1 (proc k).parent (close_all sys k)

  start-slot :
      (k : Kernel R) (j : ℕ)
      → (((start k).procs j).pgdir ≡ (k.procs j).pgdir)
        × (((start k).procs j).parent ≡ (k.procs j).parent)
  unfolding wakeup1
  start-slot k j = (ground arith, ground arith)

  start-awake :
      (k : Kernel R) (m : ℕ)
      → m ≢ k.current
      → (proc k).parent ≡ pointer m
      → (k.procs m).chan ≡ pointer m
      → ((start k).procs m).state ≢ sleeping
  unfolding wakeup1
  start-awake k m n e c = ground arith

  abandon-Left :
      (k : Kernel R) (j : ℕ)
      → j < nproc
      → k.current ≢ k.initproc
      → (k.procs j).parent ≡ pointer k.current
      → Left (proc k).pgdir k.initproc (k.procs j) ((abandon sys k).procs j)
  unfolding wakeup1
  abandon-Left k j l n e =
      let (d, p) = start-slot k j in
      let (d', p') = start-slot k k.current in
      let (a, b) =
        give_up_children-Left nproc 0 j (start k) (omega arith) (omega arith) (λ z. n (sym z))
          (p ∙ e) in
      (λ q. a (d ∙ q ∙ sym d'), λ q. b (λ z. q (sym d ∙ z ∙ d')))

  die-slot : (k : Kernel R) (j : ℕ) → j ≢ k.current → (die k).procs j ≡ k.procs j
  die-slot k j n = ground arith

  die-fields :
      (k : Kernel R) (j : ℕ)
      → (((die k).procs j).pgdir ≡ (k.procs j).pgdir)
        × (((die k).procs j).parent ≡ (k.procs j).parent)
  die-fields k j = (ground arith, ground arith)

  die-Exited : (k : Kernel R) → k.current ≢ k.initproc → Exited k (die (abandon sys k))
  unfolding wakeup1
  die-Exited k n = record {
    current = (later 0).1;
    zombie = ground (arith, (later 0).1);
    pgdir = λ j. (die-fields (abandon sys k) j).0 ∙ (later j).0.pgdir ∙ (start-slot k j).0;
    parent = λ j u.
        (die-fields (abandon sys k) j).1
        ∙ (later j).0.parent (λ z. u (sym (start-slot k j).1 ∙ z))
        ∙ (start-slot k j).1;
    children = λ j l u e.
        subst (λ p. Left (proc k).pgdir k.initproc (k.procs j) p)
          (sym (die-slot (abandon sys k) j (here j u))) (abandon-Left k j l n e);
    woken = λ m u e c.
        subst (λ p. p.state ≢ sleeping) (sym (die-slot (abandon sys k) m (here m u)))
          ((later m).0.awake (start-awake k m u e c));
  }
    where
      later :
          (j : ℕ)
          → Later k.current ((start k).procs j) ((abandon sys k).procs j)
            × ((abandon sys k).current ≡ k.current)
      later j = give_up_children-Later nproc 0 j (start k)

      here : (j : ℕ) → j ≢ k.current → j ≢ (abandon sys k).current
      here j u e = u (e ∙ (later 0).1)

  -- If exit does not panic, it leaves the process a ZOMBIE, and changes no page table and no parent of
  -- a slot that is not its child. A child that shares its page table is a ZOMBIE, any other child has
  -- initproc as its parent, and the parent is not SLEEPING if it waited on its own address.
  pub exit-Exited : (k k' : Kernel R) → exit sys k ≡ some k' → Exited k k'
  exit-Exited k k' e =
      let (n, q) = exit-some sys k k' e in subst (Exited k) (sym q) (die-Exited k n)

  resumed-child :
      (k' : Kernel R) (m c : ℕ)
      → m ≢ c
      → (k'.procs c).parent ≡ pointer m
      → (k'.procs c).pgdir ≢ (k'.procs m).pgdir
      → (k'.procs c).state ≡ zombie
      → (is_process_child (woken (run_slot m k')) c && is_zombie (woken (run_slot m k')) c) ≡ true
  unfolding woken run_slot
  resumed-child k' m c n e d z = ground (arith, e, d, z, n)

  -- No wake-up is lost: when a process in a slot of the table exits whose parent m, another slot with
  -- another page table, waits on its own address, m is not SLEEPING any more, and when m is the next
  -- process to run and goes round the loop of wait again, wait reaps a ZOMBIE child and returns.
  pub exit-wait :
      (k k' : Kernel R) (m : ℕ)
      → exit sys k ≡ some k'
      → k.current < nproc
      → m ≢ k.current
      → (proc k).parent ≡ pointer m
      → (k.procs m).chan ≡ pointer m
      → (k.procs m).pgdir ≢ (proc k).pgdir
      → ((k'.procs m).state ≢ sleeping)
        × ((i : ℕ) × Reaped
              (is_process_child (woken (run_slot m k')))
              (free_process sys)
              (woken (run_slot m k'))
              i
              (wait sys (woken (run_slot m k'))))
  exit-wait k k' m e l n p c d =
      let x = exit-Exited k k' e in
      let child =
        resumed-child k' m k.current n
          (x.parent k.current (λ z. n (pointer-injective (sym p ∙ z))) ∙ p)
          (λ z. d (sym (x.pgdir m) ∙ sym z ∙ x.pgdir k.current)) x.zombie in
      (
        x.woken m n p c,
        elim (wait-cases sys (woken (run_slot m k'))) [
          | inl r ↦ r
          | inr (inl (_, h, _)) ↦ absurd (ground (arith, h k.current l, child))
          | inr (inr (_, _, h, _)) ↦ absurd (ground (arith, h k.current l, child))
        ],
      )
