-- ===== src/Proc/Tests.antt =====
-- A small kernel on which the definitions of lab5/xv6-thread/kernel/proc.c run, and runs of them.
use ecnu_oslab.Base.{
  ℕ, ◌-◌, ◌%◌, ◌^◌, ◌≤◌, ◌<◌, zero, suc, ◌+◌, ◌≡◌, ◌≢◌, refl, ◌⊎◌, arith, find_index, length, some,
  true, pos, minus_one,
}
use ecnu_oslab.Proc.{
  Services, Kernel, proc, allocproc, kill, fork, clone, alloc_slot, fork_into, finish_child,
  dup_files, sleeping, with_stack,
}
use ecnu_oslab.Proc.Wait.{
  join, returned, wait, join_check, exit, die, collect, idle_children, sleep, scan_children,
  blocked, is_process_child, free_process, woken,
}
use ecnu_oslab.Proc.Table.{TableOk, Busy}
use ecnu_oslab.Proc.Gather.{abandon}
use ecnu_oslab.Proc.Run.{boot, userinit, first_process, run_slot}
use ecnu_oslab.Proc.Step.{Reach, Counts, stay, next, schedules}
use ecnu_oslab.Proc.Safety.{Reach-TableOk}
use ecnu_oslab.Proc.Outcomes.{fork_lem, clone_lem}
use ecnu_oslab.Proc.Child.{ForkOutcome, CloneOutcome}
use ecnu_oslab.Proc.Scanning.{Reaped}
use ecnu_oslab.Proc.Reaping.{Ends, ProcessChild, ThreadChild, wait-Outcome, join-Outcome}
use ecnu_oslab.Proc.Handover.{Exited, exit-Exited, exit-wait}

-- The rest of the kernel is a count of the pages handed out; page n is at address 4096 * n.
abbrev pages : Services ℕ
pages = record {
  kalloc = λ r. (4096 + 4096 + r, r + 4096);
  kfree = λ p r. r;
  copyuvm = λ dir sz r. (4096 + 4096 + r, r + 4096);
  freevm = λ dir r. r;
  allocuvm = λ dir old new r. (new, r);
  deallocuvm = λ dir old new r. (new, r);
  copyout = λ dir va bytes r. r;
  filedup = λ f r. r;
  fileclose = λ f r. r;
  idup = λ f r. r;
  iput = λ f r. r;
  copy_name = λ to from. from;
  forkret = 1;
  setupkvm = λ r. (4096 + 4096 + r, r + 4096);
  inituvm = λ dir r. r;
  namei_root = λ r. (1, r);
  store_user = λ dir va value r. r;
}

-- The same without memory for a kernel stack.
abbrev no_pages : Services ℕ
no_pages = record pages { kalloc = λ r. (0, r) }

abbrev initial : Kernel ℕ
initial = first_process pages 0 (with_stack pages 0 (boot 0))

userinit_run : userinit pages (boot 0) ≡ some initial
unfolding userinit allocproc alloc_slot find_index
userinit_run = refl

abbrev first : Kernel ℕ
first = run_slot 0 initial

first_run : Reach pages initial first
unfolding run_slot
first_run = next (schedules 0 (omega arith) (λ e. ground (arith, e)) refl) stay

first_run-Counts : Counts first_run
unfolding first_run
first_run-Counts = (omega arith, tt)

Reach-TableOk_example : TableOk first.procs first.nextpid first.current
Reach-TableOk_example = Reach-TableOk pages 0 userinit_run first_run first_run-Counts

first-Busy : Busy first
unfolding run_slot
first-Busy = record { table = Reach-TableOk_example; here = omega arith; state = refl }

files_length : (j : ℕ) → length (proc first).ofile ≡ length (first.procs j).ofile
unfolding run_slot
files_length zero = refl
files_length (suc j) = ground arith

fork_lem_example : ForkOutcome first (fork pages first)
fork_lem_example = fork_lem pages first first-Busy files_length

clone_lem_example : CloneOutcome 100 8192 first (clone pages 100 7 8192 first)
clone_lem_example = clone_lem pages 100 7 8192 first first-Busy files_length

-- The parent waits, and the child runs.
abbrev forked : Kernel ℕ
forked = (fork pages first).1

abbrev child : Kernel ℕ
child = run_slot 1 (sleep 1 forked)

-- The child has number 2, and wait of the parent blocks.
fork_run : (fork pages first).0 ≡ pos 2
unfolding fork allocproc alloc_slot fork_into finish_child dup_files find_index run_slot
fork_run = refl

wait_run : wait pages forked ≡ blocked (sleep 1 forked)
unfolding fork allocproc alloc_slot fork_into finish_child dup_files find_index run_slot wait
    scan_children collect idle_children
wait_run = refl

abbrev left : Kernel ℕ
left = die (abandon pages child)

exit_run : exit pages child ≡ some left
unfolding fork allocproc alloc_slot fork_into finish_child dup_files find_index run_slot exit sleep
exit_run = refl

exit-Exited_example : Exited child left
exit-Exited_example = exit-Exited pages child left exit_run

-- The first process as it goes on after the switch.
abbrev resumed : Kernel ℕ
resumed = woken (run_slot 0 left)

exit-wait_example :
    ((left.procs 0).state ≢ sleeping)
    × ((i : ℕ) × Reaped
          (is_process_child resumed)
          (free_process pages)
          resumed
          i
          (wait pages resumed))
unfolding fork allocproc alloc_slot fork_into finish_child dup_files find_index run_slot sleep
exit-wait_example =
    exit-wait pages child left 0 exit_run (omega arith) (λ e. ground (arith, e)) refl refl
      (λ e. ground (arith, e))

wait-Outcome_example :
    Ends
      (ProcessChild resumed)
      (λ i.
        pages.freevm (resumed.procs i).pgdir (pages.kfree (resumed.procs i).kstack resumed.rest))
      resumed
      (wait pages resumed)
wait-Outcome_example = wait-Outcome pages resumed

join-Outcome_example :
    ((((proc resumed).sz + 2 ^ 32 - 100) % 2 ^ 32 < 4)
      × (join pages 100 resumed ≡ returned minus_one resumed))
    ⊎ ((4 ≤ ((proc resumed).sz + 2 ^ 32 - 100) % 2 ^ 32)
        × Ends
            (ThreadChild resumed)
            (λ i.
              pages.store_user
                (proc resumed).pgdir
                100
                (resumed.procs i).thread_stack
                (pages.kfree (resumed.procs i).kstack resumed.rest))
            resumed
            (join pages 100 resumed))
join-Outcome_example = join-Outcome pages 100 resumed

-- A stack that does not start at a page is refused, and takes no slot.
clone_run : clone pages 100 7 8193 first ≡ (minus_one, first)
unfolding clone
clone_run = refl

-- The test of join lets an address above the size of the process pass, since the difference wraps.
join_check_above : join_check 8192 0xfffff000 ≡ true
join_check_above = refl

-- When kalloc fails, the free slot keeps the new number, kill finds the slot by it and marks it as
-- killed, and allocproc leaves the mark for the process that gets the slot next.
stale_kill :
    ((kill 1 (alloc_slot no_pages 0 (boot 0)).1).0 ≡ pos 0)
    × ((((alloc_slot pages 0 (kill 1 (alloc_slot no_pages 0 (boot 0)).1).1).1).procs 0).killed
        ≡ true)
unfolding alloc_slot kill find_index
stale_kill = (refl, refl)
