-- ===== src/Proc/Child.antt =====
-- The outcomes of fork and clone of lab5/xv6-thread/kernel/proc.c: the words in which they are stated.
use ecnu_oslab.Base.{ℕ, ◌+◌, ◌<◌, ◌≡◌, ◌≢◌, ◌⊎◌, ◌%◌, ◌^◌, ◌-◌, get_or, ℤ, to_int, minus_one}
use ecnu_oslab.Proc.{Kernel, unused, runnable, nproc, pointer, page, proc}

module _ {R : Type 0} where
  -- No slot in use changes and no free slot is taken.
  pub record Unchanged (k k' : Kernel R) : Type 0 where
    pub states : (j : ℕ) → (k'.procs j).state ≡ (k.procs j).state
    pub used : (j : ℕ) → (k.procs j).state ≢ unused → k'.procs j ≡ k.procs j

  -- The child at i that the current process of k has in k'.
  pub record Child (k : Kernel R) (i : ℕ) (k' : Kernel R) : Type 0 where
    pub slot : i < nproc
    pub was_free : (k.procs i).state ≡ unused
    pub state : (k'.procs i).state ≡ runnable
    pub pid : (k'.procs i).pid ≡ k.nextpid
    pub parent : (k'.procs i).parent ≡ pointer k.current
    pub size : (k'.procs i).sz ≡ (proc k).sz
    pub cwd : (k'.procs i).cwd ≡ (proc k).cwd
    pub files :
        (j : ℕ)
        → get_or (proc k).ofile j 0 ≢ 0
        → get_or (k'.procs i).ofile j 0 ≡ get_or (proc k).ofile j 0
    pub others : (j : ℕ) → j ≢ i → k'.procs j ≡ k.procs j
    pub next : k'.nextpid ≡ (k.nextpid + 1) % 2 ^ 32

  -- The two outcomes of fork, in the words of the theorem fork_lem.
  abbrev pub ForkOutcome : Kernel R → ℤ × Kernel R → Type 0
  ForkOutcome k (v, k') =
      ((v ≡ minus_one) × Unchanged k k')
      ⊎ ((i : ℕ) × (v ≡ to_int k.nextpid)
          × Child k i k'
          × ((k'.procs i).pgdir ≢ 0)
          × ((k'.procs i).tf ≡ record ((proc k).tf) { eax = 0 }))

  -- The two outcomes of clone, in the words of the theorem clone_lem.
  abbrev pub CloneOutcome : (fcn stack : ℕ) → Kernel R → ℤ × Kernel R → Type 0
  CloneOutcome fcn stack k (v, k') =
      ((v ≡ minus_one) × Unchanged k k')
      ⊎ ((i : ℕ) × (stack % page ≡ 0)
          × (v ≡ to_int k.nextpid)
          × Child k i k'
          × ((k'.procs i).pgdir ≡ (proc k).pgdir)
          × ((k'.procs i).thread_stack ≡ stack)
          × ((k'.procs i).tf ≡ record ((proc k).tf) {
            eip = fcn;
            esp = (stack + 4096 - 8) % 2 ^ 32;
            ebp = (stack + 4096 - 8) % 2 ^ 32;
            eax = 0;
          }))
