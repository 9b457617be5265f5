-- ===== src/Proc/Wait.antt =====
-- The second half of lab5/xv6-thread/kernel/proc.c: exit, wait and join, and where they wait.
use ecnu_oslab.Base.{
  ℕ, zero, suc, ◌+◌, ◌-◌, ◌%◌, ◌^◌, Bool, false, ◌&&◌, ◌||◌, not, Option, none, some, List, [], ◌∷◌,
  map, leb, ◌==◌, if◌then◌else◌, ℤ, to_int, minus_one,
}
use ecnu_oslab.Proc.{
  unused, sleeping, zombie, is, Proc, Services, Kernel, nproc, pointer, update, proc, put, wakeup1,
}

-- What the scan of the table for children finds: the first zombie child, or whether there are any.
pub data Children : Type 0 where
  dead : ℕ → Children
  alive : (havekids : Bool) → Children

-- `child i` tells whether the loop goes past its `continue` lines at slot i.
unfoldable pub scan_children : (child gone : ℕ → Bool) → (n i : ℕ) → (havekids : Bool) → Children
scan_children child gone zero i havekids = alive havekids
scan_children child gone (suc n) i havekids =
    let rest = scan_children child gone n (i + 1) (havekids || child i) in
    if child i && gone i then dead i else rest

-- A call that may sleep: it returns, or the process sleeps and goes round the loop again when it
-- has been woken and scheduled.
pub data Call (R : Type 0) : Type 0 where
  returned : ℤ → Kernel R → Call R
  blocked : Kernel R → Call R

abbrev pub clear_name : List ℕ → List ℕ
clear_name [] = []
clear_name (c ∷ cs) = 0 ∷ cs

-- What wait and join leave of a zombie's slot.
abbrev pub reap : Proc → Proc
reap p = record p {
  kstack = 0;
  state = unused;
  pid = 0;
  parent = 0;
  name = clear_name p.name;
  killed = false;
}

-- join(stack): the unsigned difference of the size of the process and the address has to be at
-- least the size of a pointer.
abbrev pub join_check : (sz stack : ℕ) → Bool
join_check sz stack = leb 4 ((sz + 2 ^ 32 - stack) % 2 ^ 32)

module _ {R : Type 0} where
  abbrev pub has_parent : Kernel R → ℕ → Bool
  has_parent k i = (k.procs i).parent == pointer k.current

  -- Threads share the page table of the process.
  abbrev pub shares : Kernel R → ℕ → Bool
  shares k i = (k.procs i).pgdir == (proc k).pgdir

  abbrev pub is_process_child : Kernel R → ℕ → Bool
  is_process_child k i = has_parent k i && not (shares k i)

  abbrev pub is_thread_child : Kernel R → ℕ → Bool
  is_thread_child k i = has_parent k i && shares k i

  abbrev pub is_zombie : Kernel R → ℕ → Bool
  is_zombie k i = is (k.procs i).state zombie

  -- sleep(chan, &ptable.lock), up to the switch to the scheduler, and what follows the switch back.
  unfoldable pub sleep : ℕ → Kernel R → Kernel R
  sleep chan k = put k.current (record (proc k) { chan = chan; state = sleeping }) k

  unfoldable pub woken : Kernel R → Kernel R
  woken k = put k.current (record (proc k) { chan = 0 }) k

  -- No zombie child: fail if there is no child or the process has been killed, else wait.
  unfoldable pub idle_children : Bool → Kernel R → Call R
  idle_children havekids k =
      if not havekids || (proc k).killed
      then returned minus_one k
      else blocked (sleep (pointer k.current) k)

  -- A child process of an exiting process goes to initproc, which is woken for a zombie.
  abbrev pub adopted : ℕ → Kernel R → Kernel R
  adopted i k = put i (record (k.procs i) { parent = pointer k.initproc }) k

  unfoldable pub hand_over : ℕ → Kernel R → Kernel R
  hand_over i k =
      if is_zombie (adopted i k) i then wakeup1 (pointer k.initproc) (adopted i k) else adopted i k

  -- exit, a round of the loop over the children: a thread becomes a zombie.
  unfoldable pub give_up_child : ℕ → Kernel R → Kernel R
  give_up_child i k =
      if has_parent k i
      then (if shares k i then put i (record (k.procs i) { state = zombie }) k else hand_over i k)
      else k

  unfoldable pub give_up_children : (n i : ℕ) → Kernel R → Kernel R
  give_up_children zero i k = k
  give_up_children (suc n) i k = give_up_children n (i + 1) (give_up_child i k)

  -- What wait and join do with the scan's result: reap the zombie, `release` being what they do with
  -- its memory, or give up or wait.
  unfoldable pub collect : (release : Proc → R → R) → Children → Kernel R → Call R
  collect release (alive havekids) k = idle_children havekids k
  collect release (dead i) k =
      returned (to_int (k.procs i).pid) (record k {
        procs = update k.procs i (reap (k.procs i));
        rest = release (k.procs i) k.rest;
      })

  abbrev pub die : Kernel R → Kernel R
  die k = put k.current (record (proc k) { state = zombie }) k

  -- The part of exit under the lock of the table, up to the switch to the scheduler.
  abbrev pub leave : Kernel R → Kernel R
  leave k = die (give_up_children nproc 0 (wakeup1 (proc k).parent k))

module _ {R : Type 0} (sys : Services R) where
  open sys use {kfree, freevm, fileclose, iput, store_user}

  abbrev pub free_process : Proc → R → R
  free_process p r = freevm p.pgdir (kfree p.kstack r)

  -- `pgdir` is the page table of the caller, whose memory takes the thread's stack.
  abbrev pub free_thread : (pgdir stack : ℕ) → Proc → R → R
  free_thread pgdir stack p r = store_user pgdir stack p.thread_stack (kfree p.kstack r)

  unfoldable pub wait : Kernel R → Call R
  wait k = collect free_process (scan_children (is_process_child k) (is_zombie k) nproc 0 false) k

  unfoldable pub join : (stack : ℕ) → Kernel R → Call R
  join stack k =
      if not (join_check (proc k).sz stack)
      then returned minus_one k
      else collect (free_thread (proc k).pgdir stack)
          (scan_children (is_thread_child k) (is_zombie k) nproc 0 false) k

  unfoldable pub close_files : List ℕ → R → R
  close_files [] r = r
  close_files (f ∷ fs) r = close_files fs (if f == 0 then r else fileclose f r)

  -- The part of exit before the table is locked.
  abbrev pub close_all : Kernel R → Kernel R
  close_all k = record k {
    procs =
        update k.procs k.current (record (proc k) { ofile = map (λ _. 0) (proc k).ofile; cwd = 0 });
    rest = iput (proc k).cwd (close_files (proc k).ofile k.rest);
  }

  -- exit, up to the switch to the scheduler; none is the panic of the first process.
  unfoldable pub exit : Kernel R → Option (Kernel R)
  exit k =
      if k.current == k.initproc
      then none
      else some (die (give_up_children nproc 0 (wakeup1 (proc k).parent (close_all k))))
