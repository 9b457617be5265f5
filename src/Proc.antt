-- ===== src/Proc.antt =====
-- lab5/xv6-thread/kernel/proc.c and proc.h: the process table, and the kernel threads that lab 5 adds.
-- fork and clone hold the table's lock only while allocproc takes a slot, exit takes it after the files are
-- closed, and the other operations hold it from start to end but for sched(), where a process waits.
pub mod Wait
pub mod Table
pub mod Keeps
pub mod Spawn
pub mod Gather
pub mod Run
pub mod Step
pub mod Safety
pub mod Child
pub mod Outcomes
pub mod Scanning
pub mod Reaping
pub mod Exit
pub mod Handover
mod Tests
use ecnu_oslab.Base.{
  ℕ, zero, suc, ◌+◌, ◌-◌, ◌%◌, ◌^◌, ◌≡◌, Bool, true, false, ◌&&◌, ◌||◌, not, Option, none, some,
  List, [], ◌∷◌, map, ltb, leb, ◌==◌, if◌then◌else◌, ℤ, pos, negsuc, minus_one, to_uint, to_int,
  find_index,
}

-- enum procstate
pub data ProcState : Type 0 where
  unused embryo sleeping runnable running zombie : ProcState

abbrev pub is : ProcState → ProcState → Bool
is unused unused = true
is embryo embryo = true
is sleeping sleeping = true
is runnable runnable = true
is running running = true
is zombie zombie = true
is _ _ = false

-- The registers of a trap frame that the kernel sets, and the other saved ones.
pub record Trapframe : Type 0 where
  pub eip : ℕ
  pub esp : ℕ
  pub ebp : ℕ
  pub eax : ℕ
  pub others : List ℕ

-- struct proc. A pointer to a process is 0 or its index in the table plus one; `tf` and `context` are
-- what p->tf and p->context point to, the context by the address where the process resumes.
pub record Proc : Type 0 where
  pub sz : ℕ
  pub pgdir : ℕ
  pub kstack : ℕ
  pub thread_stack : ℕ
  pub state : ProcState
  pub pid : ℕ
  pub parent : ℕ
  pub tf : Trapframe
  pub context : ℕ
  pub chan : ℕ
  pub killed : Bool
  pub ofile : List ℕ
  pub cwd : ℕ
  pub name : List ℕ

-- The rest of the kernel, of state R, as proc.c calls it: kalloc.c, vm.c, file.c, fs.c and the
-- memory of user processes; inituvm loads initcode, namei_root is namei("/"). Addresses are 0 where
-- the C function returns a null pointer.
pub record Services (R : Type 0) : Type 0 where
  pub kalloc : R → ℕ × R
  pub kfree : ℕ → R → R
  pub copyuvm : (pgdir sz : ℕ) → R → ℕ × R
  pub freevm : ℕ → R → R
  pub allocuvm : (pgdir oldsz newsz : ℕ) → R → ℕ × R
  pub deallocuvm : (pgdir oldsz newsz : ℕ) → R → ℕ × R
  pub copyout : (pgdir va : ℕ) → List ℕ → R → R
  pub filedup : ℕ → R → R
  pub fileclose : ℕ → R → R
  pub idup : ℕ → R → R
  pub iput : ℕ → R → R
  pub copy_name : List ℕ → List ℕ → List ℕ
  pub forkret : ℕ
  pub setupkvm : R → ℕ × R
  pub inituvm : (pgdir : ℕ) → R → R
  pub namei_root : R → ℕ × R
  pub store_user : (pgdir va value : ℕ) → R → R

-- The table, with the per-CPU variable `proc` as the index of the current process. `nextpid` and the process
-- numbers are the 32-bit patterns of C's ints; nextpid++ wraps around, as the compiled code does.
pub record Kernel (R : Type 0) : Type 0 where
  pub procs : ℕ → Proc
  pub nextpid : ℕ
  pub initproc : ℕ
  pub current : ℕ
  pub rest : R

abbrev pub nproc : ℕ
nproc = 64

abbrev pub nofile : ℕ
nofile = 16

abbrev pub page : ℕ
page = 4096

abbrev pub pointer : ℕ → ℕ
pointer i = i + 1

-- A write to one slot of the table.
abbrev pub update : (ℕ → Proc) → ℕ → Proc → ℕ → Proc
update f i p j = if i == j then p else f j

-- wakeup1: the loop changes each slot on its own.
abbrev pub wake : ℕ → Proc → Proc
wake chan p = if is p.state sleeping && (p.chan == chan) then record p { state = runnable } else p

-- kill: a slot is found by its pid, whatever its state.
abbrev pub kill_proc : Proc → Proc
kill_proc p = record p { killed = true; state = if is p.state sleeping then runnable else p.state }

-- The user stack of a new thread: a fake return address and the argument.
abbrev pub ustack : ℕ → List ℕ
ustack arg = 0xffffffff ∷ arg ∷ []

abbrev pub thread_esp : ℕ → ℕ
thread_esp stack = (stack + page + 2 ^ 32 - 8) % 2 ^ 32

module _ {R : Type 0} where
  abbrev pub proc : Kernel R → Proc
  proc k = k.procs k.current

  abbrev pub put : ℕ → Proc → Kernel R → Kernel R
  put i p k = record k { procs = update k.procs i p }

  pub wakeup1 : ℕ → Kernel R → Kernel R
  wakeup1 chan k = record k { procs = λ i. wake chan (k.procs i) }

  pub kill : ℕ → Kernel R → ℤ × Kernel R
  kill pid k = elim (find_index (λ i. (k.procs i).pid == pid) nproc 0) [
    | none ↦ (minus_one, k)
    | some i ↦ (pos 0, put i (kill_proc (k.procs i)) k)
  ]

  -- if((np = allocproc()) == 0) return -1;
  abbrev pub on_slot : (ℕ → Kernel R → ℤ × Kernel R) → Option ℕ × Kernel R → ℤ × Kernel R
  on_slot fill (none, k) = (minus_one, k)
  on_slot fill (some i, k) = fill i k

module _ {R : Type 0} (sys : Services R) where
  open sys use {
    kalloc, kfree, copyuvm, freevm, allocuvm, deallocuvm, copyout, filedup, fileclose, idup, iput,
    copy_name, forkret,
  }

  -- allocproc behind `found`: the slot keeps its new pid when there is no kernel stack.
  abbrev pub no_stack : ℕ → Kernel R → Kernel R
  no_stack i k = record k {
    procs = update k.procs i (record (k.procs i) { pid = k.nextpid; kstack = 0; state = unused });
    nextpid = (k.nextpid + 1) % 2 ^ 32;
    rest = (kalloc k.rest).1;
  }

  abbrev pub with_stack : ℕ → Kernel R → Kernel R
  with_stack i k = record k {
    procs = update k.procs i (record (k.procs i) {
      pid = k.nextpid;
      kstack = (kalloc k.rest).0;
      state = embryo;
      context = forkret;
    });
    nextpid = (k.nextpid + 1) % 2 ^ 32;
    rest = (kalloc k.rest).1;
  }

  pub alloc_slot : ℕ → Kernel R → Option ℕ × Kernel R
  alloc_slot i k = if (kalloc k.rest).0 == 0 then (none, no_stack i k) else (some i, with_stack i k)

  -- The slot found, or none.
  pub allocproc : Kernel R → Option ℕ × Kernel R
  allocproc k = elim (find_index (λ i. is (k.procs i).state unused) nproc 0) [
    | none ↦ (none, k)
    | some i ↦ alloc_slot i k
  ]

  -- growproc: the size of every slot with the page table of the process follows.
  abbrev pub resize : (pgdir sz : ℕ) → Proc → Proc
  resize pgdir sz p = if p.pgdir == pgdir then record p { sz = sz } else p

  abbrev pub set_size : Kernel R → ℕ × R → ℤ × Kernel R
  set_size k (sz, r) =
      if sz == 0
      then (minus_one, record k { rest = r })
      else (pos 0, record k { procs = λ i. resize (proc k).pgdir sz (k.procs i); rest = r })

  -- For n = 0 no service is called and the size stays.
  pub growproc : ℤ → Kernel R → ℤ × Kernel R
  growproc (pos zero) k =
      (pos 0, record k { procs = λ i. resize (proc k).pgdir (proc k).sz (k.procs i) })
  growproc (pos (suc n)) k =
      set_size k (
        allocuvm (proc k).pgdir (proc k).sz (((proc k).sz + to_uint (pos (suc n))) % 2 ^ 32) k.rest)
  growproc (negsuc n) k =
      set_size k
        (deallocuvm (proc k).pgdir (proc k).sz (((proc k).sz + to_uint (negsuc n)) % 2 ^ 32) k.rest)

  -- for (i = 0; i < NOFILE; i++) if (proc->ofile[i]) np->ofile[i] = filedup(proc->ofile[i]);
  -- np is the list of the child's slots, whose other entries stay.
  pub dup_files : (from to : List ℕ) → R → List ℕ × R
  dup_files [] to r = (to, r)
  dup_files (f ∷ from) [] r = ([], r)
  dup_files (f ∷ from) (g ∷ to) r =
      let (rest, r') = dup_files from to (if f == 0 then r else filedup f r) in
      ((if f == 0 then g else f) ∷ rest, r')

  -- The end that fork and clone share: files, directory, state and name of the child at i, whose
  -- other fields are already in p.
  pub finish_child : ℕ → Proc → Kernel R → ℤ × Kernel R
  finish_child i p k =
      let (files, r) = dup_files (proc k).ofile p.ofile k.rest in
      (
        to_int p.pid,
        record k {
          procs = update k.procs i (record p {
            ofile = files;
            cwd = (proc k).cwd;
            state = runnable;
            name = copy_name p.name (proc k).name;
          });
          rest = idup (proc k).cwd r;
        },
      )

  pub fork_into : ℕ → Kernel R → ℤ × Kernel R
  fork_into i k =
      let parent = proc k in
      let np = k.procs i in
      let (dir, r) = copyuvm parent.pgdir parent.sz k.rest in
      if dir == 0
      then (
        minus_one,
        record k {
          procs = update k.procs i (record np { pgdir = 0; kstack = 0; state = unused });
          rest = kfree np.kstack r;
        },
      )
      else finish_child i
          (record np {
            pgdir = dir;
            sz = parent.sz;
            parent = pointer k.current;
            tf = record (parent.tf) { eax = 0 };
          })
          (record k { rest = r })

  pub fork : Kernel R → ℤ × Kernel R
  fork k = on_slot fork_into (allocproc k)

  pub clone_into : (fcn arg stack i : ℕ) → Kernel R → ℤ × Kernel R
  clone_into fcn arg stack i k =
      let parent = proc k in
      let np = k.procs i in
      finish_child i
        (record np {
          pgdir = parent.pgdir;
          sz = parent.sz;
          parent = pointer k.current;
          tf = record (parent.tf) {
            esp = thread_esp stack;
            eip = fcn;
            ebp = thread_esp stack;
            eax = 0;
          };
          thread_stack = stack;
        })
        (record k { rest = copyout parent.pgdir (thread_esp stack) (ustack arg) k.rest })

  pub clone : (fcn arg stack : ℕ) → Kernel R → ℤ × Kernel R
  clone fcn arg stack k =
      if not (stack % page == 0)
      then (minus_one, k)
      else on_slot (clone_into fcn arg stack) (allocproc k)
