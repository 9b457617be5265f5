-- ===== src/Proc/Safety.antt =====
-- What every run of proc.c keeps, from the table at boot on.
use ecnu_oslab.Base.{
  ℕ, ◌+◌, ◌-◌, ◌^◌, ◌<◌, ◌≡◌, ◌≢◌, refl, ap, ◌∙◌, arith, inl, inr, subst, sym, some, ◌==◌,
  Bool-cases,
}
use ecnu_oslab.Proc.{Services, Kernel, embryo, unused, running, nproc, proc}
use ecnu_oslab.Proc.Table.{TableOk-set, TableOk-new, TableOk-next, TableOk-free, Ok, Busy, TableOk}
use ecnu_oslab.Proc.Keeps.{wakeup1-Ok, kill-Ok, sleep-Ok, woken-Ok}
use ecnu_oslab.Proc.Spawn.{
  growproc-Ok, fork_into-Ok, clone_into-Ok, allocproc-Ok, fork-Ok, clone-Ok, allocproc-cases,
  alloc_slot-cases,
}
use ecnu_oslab.Proc.Gather.{wait-Ok, join-Ok, close_all-Ok, leave-Ok, exit-Ok}
use ecnu_oslab.Proc.Run.{boot, wakeup, yield, run_slot, userinit, first_process, init_slot}
use ecnu_oslab.Proc.Step.{
  Running, Step, forks, clones, takes_slot, fills_process, fills_thread, marks, prepares,
  gives_back, starts, names, drops_files, closes, leaves, Counts, kills, grows, waits, joins, exits,
  yields, sleeps, resumes, wakes, schedules, elsewhere, Reach, stay, next,
}

module _ {R : Type 0} where
  boot-Ok : (r : R) → Ok (boot r)
  boot-Ok r = record {
    positive = omega arith;
    bound = λ j l. omega arith;
    unique = λ i j l m u w e. absurd (u refl);
    free = λ j l e. refl;
    alone = λ j l e. ground (arith, e);
  }

  run_slot-Ok :
      (i : ℕ) (k : Kernel R)
      → i < nproc
      → (proc k).state ≢ running
      → (k.procs i).state ≢ unused
      → Ok k
      → Ok (run_slot i k)
  unfolding run_slot
  run_slot-Ok i k l n u v =
      TableOk-set {c = i} i _ lone refl (λ z. absurd (u z)) (λ z. ground arith) (λ z. refl)
    where
      lone : TableOk k.procs k.nextpid i
      lone = record {
        positive = v.positive;
        bound = v.bound;
        unique = v.unique;
        free = v.free;
        alone = λ j m e. absurd (n (subst (λ c. (k.procs c).state ≡ running) (v.alone j m e) e));
      }

module _ {R : Type 0} (sys : Services R) where
  busy : {k : Kernel R} → Running k → Ok k → Busy k
  busy (l, e) v = record { table = v; here = l; state = e }

  Step-Ok : {k k' : Kernel R} → Step sys k k' → k.nextpid < 2 ^ 31 - 1 → Ok k → Ok k'
  unfolding wakeup yield
  Step-Ok {k} (forks r) m v = fork-Ok sys k (omega arith) v
  Step-Ok {k} (clones fcn arg stack r) m v = clone-Ok sys fcn arg stack k (omega arith) v
  Step-Ok {k} (takes_slot r) m v = allocproc-Ok sys k (omega arith) v
  Step-Ok {k} (fills_process i r l e z) m v = fork_into-Ok sys i k e z l v
  Step-Ok {k} (fills_thread fcn arg stack i r e) m v = clone_into-Ok sys fcn arg stack i k e v
  Step-Ok {k} (marks i r u l) m v =
      TableOk-next k.nextpid (omega arith)
        (TableOk-new i _ v refl (λ z. v.free i l u) (λ z. ground arith))
  Step-Ok {k} (prepares i p r u e d) m v =
      TableOk-set i p v d (λ z. ground (arith, z, u)) (λ z. ground (arith, z, e))
        (λ z. ground (arith, z, e))
  Step-Ok {k} (gives_back i dir r l u z) m v = TableOk-free i _ v (v.bound i l) refl z
  Step-Ok {k} (starts i r u) m v =
      TableOk-set i _ v refl (λ z. ground (arith, z, u)) (λ z. ground arith) (λ z. ground arith)
  Step-Ok {k} (names i cs r l) m v =
      TableOk-set i _ v refl (λ z. z) (λ z. v.free i l z) (λ z. v.alone i l z)
  Step-Ok {k} (kills pid r) m v = kill-Ok pid k v
  Step-Ok {k} (grows n r) m v = growproc-Ok sys n k v
  Step-Ok {k} (waits r) m v = wait-Ok sys k (busy r v)
  Step-Ok {k} (joins stack r) m v = join-Ok sys stack k (busy r v)
  Step-Ok {k} {k'} (exits r e) m v = exit-Ok sys k k' (busy r v) e
  Step-Ok {k} (drops_files files cwd (l, e)) m v =
      TableOk-set k.current _ v refl (λ z. z) (v.free k.current l) (λ z. refl)
  Step-Ok {k} (closes r) m v = close_all-Ok sys k (busy r v)
  Step-Ok {k} (leaves r) m v = leave-Ok k (busy r v)
  Step-Ok {k} (yields (l, e)) m v =
      TableOk-set k.current _ v refl (λ z. ground (arith, z, e)) (λ z. ground (arith, z))
        (λ z. refl)
  Step-Ok {k} (sleeps chan (l, e)) m v = sleep-Ok chan k (λ z. ground (arith, e, z)) v
  Step-Ok {k} (resumes (l, e)) m v = woken-Ok k l v
  Step-Ok {k} (wakes chan) m v = wakeup1-Ok chan k v
  Step-Ok {k} (schedules i l n e) m v = run_slot-Ok i k l n (λ z. ground (arith, e, z)) v
  Step-Ok (elsewhere r) m v = v

  Reach-Ok : {k k' : Kernel R} (r : Reach sys k k') → Counts r → Ok k → Ok k'
  Reach-Ok stay m v = v
  Reach-Ok (next s r) (m, n) v = Reach-Ok r n (Step-Ok s m v)

  first_process-Ok :
      (i : ℕ) (k : Kernel R) → (k.procs i).state ≡ embryo → Ok k → Ok (first_process sys i k)
  first_process-Ok i k e v =
      TableOk-set {c = k.current} i _ v refl (λ z. ground (arith, z, e)) (λ z. ground (arith, z))
        (λ z. ground (arith, z))

  init_slot-some :
      (i : ℕ) (k k' : Kernel R) → init_slot sys (some i, k) ≡ some k' → k' ≡ first_process sys i k
  init_slot-some i k k' e = elim (Bool-cases ((sys.setupkvm k.rest).0 == 0)) [
    | inl t ↦ absurd (ground (arith, e, t))
    | inr t ↦ ground (arith, e, t)
  ]

  userinit-Ok : (k k' : Kernel R) → userinit sys k ≡ some k' → k.nextpid + 1 < 2 ^ 32 → Ok k → Ok k'
  unfolding userinit
  userinit-Ok k k' q m v = elim (allocproc-cases sys k) [
    | inl (e, h) ↦ absurd (ground (arith, q, e))
    | inr (i, e, l, t, h) ↦
        let (k1, w, c, same, o) = alloc_slot-cases sys i k l t (v.free i l) in
        elim o [
          | inl (a, d) ↦ absurd (ground (arith, q, e, a))
          | inr (a, u, n, x, y, z) ↦
              subst Ok (sym (init_slot-some i k1 k' (ap (init_slot sys) (sym (e ∙ a)) ∙ q)))
                (first_process-Ok i k1 u (w v m))
        ]
  ]

  -- On one processor, where any steps of others may come in wherever fork, clone and exit do not
  -- hold the lock of the table, and as long as nextpid is below the largest int where the run takes
  -- a step, in every state that a run reaches after userinit has set up the first process in the
  -- table of boot, every process number is below nextpid, which is positive, no two slots in use
  -- have the same number, a free slot has no parent, and no process is RUNNING but the current one.
  pub Reach-TableOk :
      (r : R) {k k' : Kernel R}
      → userinit sys (boot r) ≡ some k
      → (s : Reach sys k k') → Counts s
      → TableOk k'.procs k'.nextpid k'.current
  Reach-TableOk r {k} e s n = Reach-Ok s n (userinit-Ok (boot r) k e (omega arith) (boot-Ok r))
