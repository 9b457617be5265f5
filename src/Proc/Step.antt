-- ===== src/Proc/Step.antt =====
-- The kernel of lab5/xv6-thread/kernel/proc.c as a transition system: any sequence of system calls,
-- wake-ups and switches on one processor. fork, clone and exit also come in pieces, with other steps between
-- them, since they do not hold the lock of the table from start to end.
use ecnu_oslab.Base.{ℕ, List, ◌%◌, ◌+◌, ◌-◌, ◌^◌, ◌<◌, ◌≡◌, ◌≢◌, ℤ, some}
use ecnu_oslab.Proc.{
  unused, Proc, Services, Kernel, update, put, embryo, runnable, running, nproc, proc, kill,
  growproc, allocproc, fork_into, fork, clone_into, clone,
}
use ecnu_oslab.Proc.Wait.{sleep, woken, wait, join, close_all, leave, exit}
use ecnu_oslab.Proc.Gather.{after}
use ecnu_oslab.Proc.Run.{wakeup, yield, run_slot}

module _ {R : Type 0} where
  -- The current process is RUNNING: it can make a system call.
  abbrev pub Running : Kernel R → Type 0
  Running k = (k.current < nproc) × ((proc k).state ≡ running)

-- The operations in the order in which the processor runs them. What other processes and devices do to
-- the rest of the kernel is `elsewhere`.
pub data Step {R : Type 0} (sys : Services R) : Kernel R → Kernel R → Type 0 where
  forks : {k : Kernel R} → Running k → Step sys k (fork sys k).1
  clones : {k : Kernel R} (fcn arg stack : ℕ) → Running k → Step sys k (clone sys fcn arg stack k).1
  -- allocproc, and the filling of the slot, which is still an EMBRYO without a parent.
  takes_slot : {k : Kernel R} → Running k → Step sys k (allocproc sys k).1
  fills_process :
      {k : Kernel R} (i : ℕ)
      → Running k
      → i < nproc
      → (k.procs i).state ≡ embryo
      → (k.procs i).parent ≡ 0
      → Step sys k (fork_into sys i k).1
  fills_thread :
      {k : Kernel R} (fcn arg stack i : ℕ)
      → Running k
      → (k.procs i).state ≡ embryo
      → Step sys k (clone_into sys fcn arg stack i k).1
  -- The same in smaller pieces: the slot is marked under the lock; its fields are written while it is an
  -- EMBRYO; it is given back or made RUNNABLE; and its name may be written after that.
  marks :
      {k : Kernel R} (i : ℕ)
      → Running k
      → (k.procs i).state ≡ unused
      → i < nproc
      → Step sys k (record k {
        procs = update k.procs i (record (k.procs i) { pid = k.nextpid; state = embryo });
        nextpid = (k.nextpid + 1) % 2 ^ 32;
      })
  prepares :
      {k : Kernel R} (i : ℕ) (p : Proc)
      → Running k
      → (k.procs i).state ≡ embryo
      → p.state ≡ embryo
      → p.pid ≡ (k.procs i).pid
      → Step sys k (put i p k)
  gives_back :
      {k : Kernel R} (i pgdir : ℕ)
      → Running k
      → i < nproc
      → (k.procs i).state ≡ embryo
      → (k.procs i).parent ≡ 0
      → Step sys k (put i (record (k.procs i) { pgdir = pgdir; kstack = 0; state = unused }) k)
  starts :
      {k : Kernel R} (i : ℕ)
      → Running k
      → (k.procs i).state ≡ embryo
      → Step sys k (put i (record (k.procs i) { state = runnable }) k)
  names :
      {k : Kernel R} (i : ℕ) (cs : List ℕ)
      → Running k
      → i < nproc
      → Step sys k (put i (record (k.procs i) { name = cs }) k)
  kills : {k : Kernel R} (pid : ℕ) → Running k → Step sys k (kill pid k).1
  grows : {k : Kernel R} (n : ℤ) → Running k → Step sys k (growproc sys n k).1
  waits : {k : Kernel R} → Running k → Step sys k (after (wait sys k))
  joins : {k : Kernel R} (stack : ℕ) → Running k → Step sys k (after (join sys stack k))
  exits : {k k' : Kernel R} → Running k → exit sys k ≡ some k' → Step sys k k'
  -- The part of exit without the lock, a piece of it or the whole, and the part with the lock.
  drops_files :
      {k : Kernel R} (files : List ℕ) (cwd : ℕ)
      → Running k
      → Step sys k (put k.current (record (proc k) { ofile = files; cwd = cwd }) k)
  closes : {k : Kernel R} → Running k → Step sys k (close_all sys k)
  leaves : {k : Kernel R} → Running k → Step sys k (leave k)
  yields : {k : Kernel R} → Running k → Step sys k (yield k)
  sleeps : {k : Kernel R} (chan : ℕ) → Running k → Step sys k (sleep chan k)
  resumes : {k : Kernel R} → Running k → Step sys k (woken k)
  wakes : {k : Kernel R} (chan : ℕ) → Step sys k (wakeup chan k)
  schedules :
      {k : Kernel R} (i : ℕ)
      → i < nproc
      → (proc k).state ≢ running
      → (k.procs i).state ≡ runnable
      → Step sys k (run_slot i k)
  elsewhere : {k : Kernel R} (r : R) → Step sys k (record k { rest = r })

pub data Reach {R : Type 0} (sys : Services R) : Kernel R → Kernel R → Type 0 where
  stay : {k : Kernel R} → Reach sys k k
  next : {k k' k'' : Kernel R} → Step sys k k' → Reach sys k' k'' → Reach sys k k''

-- The counter of process numbers has not reached the largest int where the run takes a step.
abbrev pub Counts : {R : Type 0} {sys : Services R} {k k' : Kernel R} → Reach sys k k' → Type 0
Counts stay = Unit
Counts (next {k} s r) = (k.nextpid < 2 ^ 31 - 1) × Counts r
