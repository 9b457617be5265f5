-- ===== src/Spin.antt =====
-- lab5/xv6-thread/kernel/spinlock.c: a lock, and pushcli and popcli, on several processors.
pub mod Exclusion
mod Tests
use ecnu_oslab.Base.{
  ℕ, zero, suc, ◌+◌, ◌-◌, ◌<◌, ◌≡◌, ◌≢◌, Bool, true, false, ◌&&◌, ◌||◌, not, Option, none, some,
  ltb, ◌==◌, if◌then◌else◌,
}

-- struct cpu, of which this code uses the count and the flag, and the interrupt flag of the processor.
pub record Cpu : Type 0 where
  pub ncli : ℕ
  pub intena : Bool
  pub fl_if : Bool

-- struct spinlock; `cpu` is the number of the processor plus one, or 0.
pub record Spinlock : Type 0 where
  pub locked : Bool
  pub cpu : ℕ

abbrev pub initlock : Spinlock
initlock = record { locked = false; cpu = 0 }

abbrev pub pushcli : Cpu → Cpu
pushcli c = record {
  fl_if = false;
  intena = if c.ncli == 0 then c.fl_if else c.intena;
  ncli = c.ncli + 1;
}

-- None is a panic.
unfoldable pub popcli : Cpu → Option Cpu
popcli c =
    if c.fl_if || c.ncli == 0
    then none
    else some (record c { ncli = c.ncli - 1; fl_if = c.ncli == 1 && c.intena })

abbrev pub holding : ℕ → Spinlock → Bool
holding i lk = lk.locked && lk.cpu == i + 1

-- Where a processor is: outside; in the loop of acquire; behind the loop, before it has written lk->cpu;
-- between acquire and release; in release before the exchange; and before popcli.
pub data Place : Type 0 where
  outside spinning won inside leaving left : Place

pub record Machine : Type 0 where
  pub lock : Spinlock
  pub cpus : ℕ → Cpu
  pub places : ℕ → Place

abbrev pub move : (i : ℕ) → Place → Cpu → Spinlock → Machine → Machine
move i p c lk m = record {
  lock = lk;
  cpus = λ j. if j == i then c else m.cpus j;
  places = λ j. if j == i then p else m.places j;
}

-- The steps of acquire and release on the processor i, in any order of the processors. A processor outside
-- changes its count and flags with other locks; between acquire and release it may take other locks
-- and give them back.
pub data LockStep : Machine → Machine → Type 0 where
  elsewhere :
      {m : Machine} (i : ℕ) (c : Cpu)
      → m.places i ≡ outside
      → (0 < c.ncli → c.fl_if ≡ false)
      → LockStep m (move i outside c m.lock m)
  enters :
      {m : Machine} (i : ℕ)
      → m.places i ≡ outside
      → holding i m.lock ≡ false
      → LockStep m (move i spinning (pushcli (m.cpus i)) m.lock m)
  spins :
      {m : Machine} (i : ℕ)
      → m.places i ≡ spinning
      → m.lock.locked ≡ true
      → LockStep m (move i spinning (m.cpus i) (record m.lock { locked = true }) m)
  wins :
      {m : Machine} (i : ℕ)
      → m.places i ≡ spinning
      → m.lock.locked ≡ false
      → LockStep m (move i won (m.cpus i) (record m.lock { locked = true }) m)
  marks :
      {m : Machine} (i : ℕ)
      → m.places i ≡ won
      → LockStep m (move i inside (m.cpus i) (record m.lock { cpu = i + 1 }) m)
  nests :
      {m : Machine} (i : ℕ)
      → m.places i ≡ inside
      → LockStep m (move i inside (pushcli (m.cpus i)) m.lock m)
  unnests :
      {m : Machine} (i : ℕ) (c : Cpu)
      → m.places i ≡ inside
      → 1 < (m.cpus i).ncli
      → popcli (m.cpus i) ≡ some c
      → LockStep m (move i inside c m.lock m)
  leaves :
      {m : Machine} (i : ℕ)
      → m.places i ≡ inside
      → holding i m.lock ≡ true
      → LockStep m (move i leaving (m.cpus i) (record m.lock { cpu = 0 }) m)
  frees :
      {m : Machine} (i : ℕ)
      → m.places i ≡ leaving
      → LockStep m (move i left (m.cpus i) (record m.lock { locked = false }) m)
  pops :
      {m : Machine} (i : ℕ) (c : Cpu)
      → m.places i ≡ left
      → popcli (m.cpus i) ≡ some c
      → LockStep m (move i outside c m.lock m)

pub data LockRun : Machine → Machine → Type 0 where
  stay : {m : Machine} → LockRun m m
  next : {m n k : Machine} → LockStep m n → LockRun n k → LockRun m k

-- Every processor outside, and the lock as initlock leaves it.
abbrev pub start : (ℕ → Cpu) → Machine
start cpus = record { lock = initlock; cpus = cpus; places = λ i. outside }
