-- ===== src/Spin/Tests.antt =====
-- Runs of lab5/xv6-thread/kernel/spinlock.c.
use ecnu_oslab.Base.{ℕ, ◌≡◌, ◌≢◌, refl, arith, true, false, none, some}
use ecnu_oslab.Spin.{
  Cpu, pushcli, popcli, holding, spinning, won, inside, left, Machine, move, enters, wins, marks,
  LockRun, stay, next, start,
}
use ecnu_oslab.Spin.Exclusion.{owns, LockRun-Exclusion}

-- Interrupts are on, and no lock is held.
abbrev idle : ℕ → Cpu
idle i = record { ncli = 0; intena = false; fl_if = true }

-- The processor 1 acquires the lock, and then the processor 0 waits for it.
abbrev after_one : Machine
after_one = move 1 spinning (pushcli (idle 1)) (start idle).lock (start idle)

abbrev after_two : Machine
after_two = move 1 won (pushcli (idle 1)) (record { locked = true; cpu = 0 }) after_one

abbrev after_three : Machine
after_three = move 1 inside (pushcli (idle 1)) (record { locked = true; cpu = 2 }) after_two

abbrev after_four : Machine
after_four = move 0 spinning (pushcli (idle 0)) after_three.lock after_three

waiting : LockRun (start idle) after_four
waiting =
    next (enters 1 refl refl)
      (next (wins 1 refl refl) (next (marks 1 refl) (next (enters 0 refl refl) stay)))

-- popcli undoes pushcli.
popcli_run : popcli (pushcli (idle 0)) ≡ some (record { ncli = 0; intena = true; fl_if = true })
unfolding popcli
popcli_run = refl

LockRun-Exclusion_example :
    ((i j : ℕ) → owns (after_four.places i) ≡ true → owns (after_four.places j) ≡ true → i ≡ j)
    × ((i : ℕ)
        → after_four.places i ≡ inside
        → (holding i after_four.lock ≡ true) × ((after_four.cpus i).fl_if ≡ false))
    × ((i : ℕ) → after_four.places i ≡ left → popcli (after_four.cpus i) ≢ none)
LockRun-Exclusion_example =
    LockRun-Exclusion idle after_four (λ i l. absurd (omega (arith, l))) waiting
