-- ===== src/Proc/Run.antt =====
-- The rest of lab5/xv6-thread/kernel/proc.c: userinit, and what the scheduler and its callers do to the table.
use ecnu_oslab.Base.{ℕ, ◌==◌, Option, none, some, List, [], ◌∷◌, false, if◌then◌else◌, replicate}
use ecnu_oslab.Proc.{
  Proc, Services, Kernel, unused, runnable, running, nofile, page, update, proc, put, wakeup1,
  allocproc,
}

-- The table at boot: static storage is zero, but nextpid is 1.
abbrev pub no_proc : Proc
no_proc = record {
  sz = 0;
  pgdir = 0;
  kstack = 0;
  thread_stack = 0;
  state = unused;
  pid = 0;
  parent = 0;
  tf = record { eip = 0; esp = 0; ebp = 0; eax = 0; others = [] };
  context = 0;
  chan = 0;
  killed = false;
  ofile = replicate nofile 0;
  cwd = 0;
  name = replicate 16 0;
}

-- cs, ds, es, ss and eflags of a user process: SEG_UCODE << 3 | DPL_USER, SEG_UDATA << 3 | DPL_USER, FL_IF.
abbrev pub user_segments : List ℕ
user_segments = 0x23 ∷ 0x2b ∷ 0x2b ∷ 0x2b ∷ 0x200 ∷ []

-- The name "initcode".
abbrev pub initcode : List ℕ
initcode = 105 ∷ 110 ∷ 105 ∷ 116 ∷ 99 ∷ 111 ∷ 100 ∷ 101 ∷ 0 ∷ []

module _ {R : Type 0} where
  abbrev pub boot : R → Kernel R
  boot r = record { procs = λ i. no_proc; nextpid = 1; initproc = 0; current = 0; rest = r }

  unfoldable pub wakeup : ℕ → Kernel R → Kernel R
  wakeup chan k = wakeup1 chan k

  -- yield, up to the switch to the scheduler.
  unfoldable pub yield : Kernel R → Kernel R
  yield k = put k.current (record (proc k) { state = runnable }) k

  -- A round of the scheduler at a RUNNABLE slot, up to the switch to the process.
  unfoldable pub run_slot : ℕ → Kernel R → Kernel R
  run_slot i k = record k {
    procs = update k.procs i (record (k.procs i) { state = running });
    current = i;
  }

module _ {R : Type 0} (sys : Services R) where
  open sys use {setupkvm, inituvm, namei_root, copy_name}

  abbrev pub first_process : ℕ → Kernel R → Kernel R
  first_process i k =
      let p = k.procs i in
      let (dir, r) = setupkvm k.rest in
      let (root, r') = namei_root (inituvm dir r) in
      record k {
        procs = update k.procs i (record p {
          pgdir = dir;
          sz = page;
          tf = record { eip = 0; esp = page; ebp = 0; eax = 0; others = user_segments };
          name = copy_name p.name initcode;
          cwd = root;
          state = runnable;
        });
        initproc = i;
        rest = r';
      }

  -- none where the kernel panics, and where allocproc fails, whose null pointer is not tested.
  abbrev pub init_slot : Option ℕ × Kernel R → Option (Kernel R)
  init_slot (none, k) = none
  init_slot (some i, k) = if (setupkvm k.rest).0 == 0 then none else some (first_process i k)

  unfoldable pub userinit : Kernel R → Option (Kernel R)
  userinit k = init_slot (allocproc sys k)
