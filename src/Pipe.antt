-- ===== src/Pipe.antt =====
-- lab5/xv6-thread/kernel/pipe.c: a pipe as a ring of 512 bytes with two 32-bit counters.
-- The lock of the pipe is held from the start of an operation to its end or to its sleep.
pub mod Queue
pub mod Ends
pub mod Transfer
pub mod RoundTrip
mod Tests
use ecnu_oslab.Base.{
  ℕ, zero, suc, ◌+◌, ◌%◌, ◌^◌, Bool, true, false, ◌&&◌, ◌||◌, not, Option, none, some, List, [],
  ◌∷◌, ◌==◌, if◌then◌else◌,
}

abbrev pub pipesize : ℕ
pipesize = 512

-- struct pipe; only the first 512 places of `bytes` are the array.
pub record Pipe : Type 0 where
  pub bytes : ℕ → ℕ
  pub nread : ℕ
  pub nwrite : ℕ
  pub readopen : Bool
  pub writeopen : Bool

-- Where processes sleep: &p->nread and &p->nwrite.
pub data Channel : Type 0 where
  readers writers : Channel

-- What pipealloc puts into a page whose old contents are `bytes`.
abbrev pub fresh : (ℕ → ℕ) → Pipe
fresh bytes = record { bytes = bytes; nread = 0; nwrite = 0; readopen = true; writeopen = true }

abbrev pub is_full : Pipe → Bool
is_full p = p.nwrite == (p.nread + pipesize) % 2 ^ 32

abbrev pub is_empty : Pipe → Bool
is_empty p = p.nread == p.nwrite

-- p->data[p->nwrite++ % PIPESIZE] = c
abbrev pub put_byte : ℕ → Pipe → Pipe
put_byte c p = record p {
  bytes = λ i. if i == p.nwrite % pipesize then c else p.bytes i;
  nwrite = (p.nwrite + 1) % 2 ^ 32;
}

-- p->data[p->nread++ % PIPESIZE]
abbrev pub next_byte : Pipe → ℕ
next_byte p = p.bytes (p.nread % pipesize)

abbrev pub skip_byte : Pipe → Pipe
skip_byte p = record p { nread = (p.nread + 1) % 2 ^ 32 }

-- A call of pipewrite, up to its end or its sleep: the lists are the channels it has woken. `sleeps`
-- has the bytes that are left to write.
pub data WriteCall : Type 0 where
  refused : List Channel → Pipe → WriteCall
  sleeps : List Channel → (rest : List ℕ) → Pipe → WriteCall
  written : List Channel → Pipe → WriteCall

unfoldable pub pipewrite : (killed : Bool) → Pipe → List ℕ → WriteCall
pipewrite killed p [] = written (readers ∷ []) p
pipewrite killed p (c ∷ cs) =
    let rest = pipewrite killed (put_byte c p) cs in
    if is_full p
    then (if not p.readopen || killed then refused [] p else sleeps (readers ∷ []) (c ∷ cs) p)
    else rest

-- The loop of piperead behind the sleep.
unfoldable pub copy_out : ℕ → Pipe → List ℕ × Pipe
copy_out zero p = ([], p)
copy_out (suc n) p =
    let (cs, p') = copy_out n (skip_byte p) in
    if is_empty p then ([], p) else (next_byte p ∷ cs, p')

pub data ReadCall : Type 0 where
  denied : Pipe → ReadCall
  waits : Pipe → ReadCall
  got : List Channel → List ℕ → Pipe → ReadCall

unfoldable pub piperead : (killed : Bool) → Pipe → ℕ → ReadCall
piperead killed p n =
    if is_empty p && p.writeopen
    then (if killed then denied p else waits p)
    else (let (cs, p') = copy_out n p in got (writers ∷ []) cs p')

-- The pipe is none when both ends are closed and its page is freed.
unfoldable pub pipeclose : (writable : Bool) → Pipe → Channel × Option Pipe
pipeclose true p = (readers, if p.readopen then some (record p { writeopen = false }) else none)
pipeclose false p = (writers, if p.writeopen then some (record p { readopen = false }) else none)
