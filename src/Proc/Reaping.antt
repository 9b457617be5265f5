-- ===== src/Proc/Reaping.antt =====
-- What wait and join of lab5/xv6-thread/kernel/proc.c return, and when they wait.
use ecnu_oslab.Base.{
  ℕ, ◌+◌, ◌-◌, ◌%◌, ◌^◌, ◌≤◌, ◌<◌, ◌≡◌, ◌≢◌, ◌⊎◌, refl, inl, inr, arith, Bool, true, false, List,
  [], ◌∷◌, get_or, to_int, minus_one,
}
use ecnu_oslab.Proc.{unused, sleeping, zombie, Proc, Services, Kernel, nproc, pointer, update, proc}
use ecnu_oslab.Proc.Wait.{
  Call, returned, blocked, clear_name, reap, sleep, free_process, free_thread, wait, join,
  is_process_child, is_thread_child,
}
use ecnu_oslab.Proc.Scanning.{Outcome, wait-cases, join-cases}

clear_name-first : (cs : List ℕ) → get_or (clear_name cs) 0 0 ≡ 0
clear_name-first [] = refl
clear_name-first (c ∷ cs) = refl

module _ {R : Type 0} where
  -- The slot i is given back, and nothing else in the table changes.
  pub record Freed (k : Kernel R) (i : ℕ) (k' : Kernel R) : Type 0 where
    pub state : (k'.procs i).state ≡ unused
    pub pid : (k'.procs i).pid ≡ 0
    pub parent : (k'.procs i).parent ≡ 0
    pub kstack : (k'.procs i).kstack ≡ 0
    pub killed : (k'.procs i).killed ≡ false
    pub name : get_or (k'.procs i).name 0 0 ≡ 0
    pub others : (j : ℕ) → j ≢ i → k'.procs j ≡ k.procs j
    pub nextpid : k'.nextpid ≡ k.nextpid
    pub current : k'.current ≡ k.current

  -- The current process sleeps on its own address, and nothing else changes.
  pub record Waits (k k' : Kernel R) : Type 0 where
    pub state : (k'.procs k.current).state ≡ sleeping
    pub chan : (k'.procs k.current).chan ≡ k.current + 1
    pub pid : (k'.procs k.current).pid ≡ (proc k).pid
    pub parent : (k'.procs k.current).parent ≡ (proc k).parent
    pub others : (j : ℕ) → j ≢ k.current → k'.procs j ≡ k.procs j
    pub rest : k'.rest ≡ k.rest

  -- How a call ends that looks for a ZOMBIE among the slots with the property Child, `left i` being what
  -- the rest of the kernel is after the slot i has been reaped, in the words of the theorems.
  abbrev pub Ends : (Child : ℕ → Type 0) (left : ℕ → R) → Kernel R → Call R → Type 0
  Ends Child left k c =
      ((i : ℕ) × (k' : Kernel R) × (c ≡ returned (to_int (k.procs i).pid) k')
        × (i < nproc)
        × Child i
        × ((k.procs i).state ≡ zombie)
        × ((j : ℕ) → j < i → Child j → (k.procs j).state ≢ zombie)
        × Freed k i k'
        × (k'.rest ≡ left i))
      ⊎ (((c ≡ returned minus_one k)
            × ((j : ℕ) → j < nproc → Child j → (k.procs j).state ≢ zombie)
            × (((proc k).killed ≡ true) ⊎ ((j : ℕ) → j < nproc → ¬ Child j)))
          ⊎ ((k' : Kernel R) × (c ≡ blocked k')
              × Waits k k'
              × ((proc k).killed ≡ false)
              × ((j : ℕ) → j < nproc → Child j → (k.procs j).state ≢ zombie)
              × ((j : ℕ) × (j < nproc) × Child j)))

  -- A child with a page table of its own, and one that shares that of the process.
  abbrev pub ProcessChild : Kernel R → ℕ → Type 0
  ProcessChild k j = ((k.procs j).parent ≡ k.current + 1) × ((k.procs j).pgdir ≢ (proc k).pgdir)

  abbrev pub ThreadChild : Kernel R → ℕ → Type 0
  ThreadChild k j = ((k.procs j).parent ≡ k.current + 1) × ((k.procs j).pgdir ≡ (proc k).pgdir)

  -- The table with the slot i reaped.
  abbrev reaped : (i : ℕ) → R → Kernel R → Kernel R
  reaped i r k = record k { procs = update k.procs i (reap (k.procs i)); rest = r }

  reaped-slot : (i : ℕ) (r : R) (k : Kernel R) → (reaped i r k).procs i ≡ reap (k.procs i)
  reaped-slot i r k = ground arith

  reaped-Freed : (i : ℕ) (r : R) (k : Kernel R) → Freed k i (reaped i r k)
  reaped-Freed i r k = record {
    state = ground arith;
    pid = ground arith;
    parent = ground arith;
    kstack = ground arith;
    killed = ground arith;
    name = rw (reaped-slot i r k) (clear_name-first (k.procs i).name);
    others = λ j n. ground (arith, n);
    nextpid = refl;
    current = refl;
  }

  sleep-Waits : (k : Kernel R) → Waits k (sleep (pointer k.current) k)
  unfolding sleep
  sleep-Waits k = record {
    state = ground arith;
    chan = ground arith;
    pid = ground arith;
    parent = ground arith;
    others = λ j n. ground (arith, n);
    rest = refl;
  }

  module _ (child : ℕ → Bool) (Child : ℕ → Type 0) (release : Proc → R → R) (k : Kernel R)
      (sound : (j : ℕ) → child j ≡ true → Child j)
      (complete : (j : ℕ) → Child j → child j ≡ true) where
    Outcome-Ends :
        (c : Call R) → Outcome child release k c → Ends Child (λ i. release (k.procs i) k.rest) k c
    Outcome-Ends c (inl (i, r)) = inl (
      i,
      reaped i (release (k.procs i) k.rest) k,
      r.result,
      r.slot,
      sound i r.is_child,
      ground (arith, r.gone),
      (λ j l h z. ground (arith, r.first j l, complete j h, z)),
      reaped-Freed i (release (k.procs i) k.rest) k,
      refl,
    )
    Outcome-Ends c (inr (inl (e, h, inl q))) =
        inr (inl (e, (λ j l d z. ground (arith, h j l, complete j d, z)), inl q))
    Outcome-Ends c (inr (inl (e, h, inr n))) = inr (
        inl (
          e,
          (λ j l d z. ground (arith, h j l, complete j d, z)),
          inr (λ j l d. ground (arith, n j l, complete j d)),
        ))
    Outcome-Ends c (inr (inr (e, q, h, (j, l, d)))) = inr (
        inr (
          sleep (pointer k.current) k,
          e,
          sleep-Waits k,
          q,
          (λ j l d z. ground (arith, h j l, complete j d, z)),
          (j, l, sound j d),
        ))

module _ {R : Type 0} (sys : Services R) where
  -- wait ends its scan of the table in one of three ways. It returns the number of the first ZOMBIE
  -- child that has another page table than the process, frees first its kernel stack and then that page
  -- table, and gives its slot back: UNUSED, without number, parent, kernel stack, mark of a kill and
  -- name, no other slot changing; or there is no such ZOMBIE, and the process has been killed or has no
  -- such child, and it returns -1 and changes nothing; or there is such a child but no ZOMBIE, the
  -- process has not been killed, and it sleeps on its own address, no other slot changing.
  pub wait-Outcome :
      (k : Kernel R)
      → Ends
          (ProcessChild k)
          (λ i. sys.freevm (k.procs i).pgdir (sys.kfree (k.procs i).kstack k.rest))
          k
          (wait sys k)
  wait-Outcome k =
      Outcome-Ends (is_process_child k) (ProcessChild k) (free_process sys) k
        (λ j e. (ground (arith, e), ground (arith, e))) (λ j h. ground (arith, h)) (wait sys k)
        (wait-cases sys k)

  -- join(stack) returns -1 and changes nothing if the size of the process minus the address, modulo
  -- 2^32, is below 4. Else it ends its scan of the table in one of three ways. It returns the number of
  -- the first ZOMBIE child that shares the page table of the process, frees its kernel stack but not the
  -- page table, stores the thread's stack at the address in that page table, and gives the slot back:
  -- UNUSED, without number, parent, kernel stack, mark of a kill and name, no other slot changing; or
  -- there is no such ZOMBIE, and the process has been killed or has no such child, and it returns -1
  -- and changes nothing; or there is such a child but no ZOMBIE, the process has not been killed, and
  -- it sleeps on its own address, no other slot changing.
  pub join-Outcome :
      (stack : ℕ) (k : Kernel R)
      → ((((proc k).sz + 2 ^ 32 - stack) % 2 ^ 32 < 4) × (join sys stack k ≡ returned minus_one k))
        ⊎ ((4 ≤ ((proc k).sz + 2 ^ 32 - stack) % 2 ^ 32)
            × Ends
                (ThreadChild k)
                (λ i.
                  sys.store_user
                    (proc k).pgdir
                    stack
                    (k.procs i).thread_stack
                    (sys.kfree (k.procs i).kstack k.rest))
                k
                (join sys stack k))
  join-Outcome stack k = elim (join-cases sys stack k) [
    | inl (t, e) ↦ inl (ground (arith, t), e)
    | inr (t, o) ↦ inr (
      ground (arith, t),
      Outcome-Ends (is_thread_child k) (ThreadChild k) (free_thread sys (proc k).pgdir stack) k
          (λ j e. (ground (arith, e), ground (arith, e))) (λ j h. ground (arith, h))
          (join sys stack k) o,
    )
  ]
