-- ===== src/Pipe/Tests.antt =====
-- Runs of lab5/xv6-thread/kernel/pipe.c on a small pipe.
use ecnu_oslab.Base.{
  ℕ, zero, suc, ◌+◌, ◌<◌, ◌≡◌, refl, arith, [], ◌∷◌, true, false, replicate, get_or, none, ◌%◌,
}
use ecnu_oslab.Pipe.{
  Pipe, fresh, pipewrite, piperead, copy_out, readers, writers, written, got, pipeclose,
}
use ecnu_oslab.Pipe.Queue.{Holds}
use ecnu_oslab.Pipe.RoundTrip.{piperead-pipewrite}
use ecnu_oslab.Pipe.Transfer.{WriteOutcome, pipewrite_lem, ReadOutcome, piperead_lem}

-- The counters are about to wrap, and two bytes are in the pipe.
abbrev wrapping : Pipe
wrapping = record {
  bytes = λ i. i + 1000;
  nread = 0xfffffffe;
  nwrite = 0;
  readopen = true;
  writeopen = true;
}

wrapping-Holds : Holds wrapping (1510 ∷ 1511 ∷ [])
wrapping-Holds = record {
  room = omega arith;
  small = omega arith;
  count = refl;
  stored = λ i l. at i l;
}
  where
    at : (i : ℕ) → i < 2 → (0xfffffffe + i) % 512 + 1000 ≡ get_or (1510 ∷ 1511 ∷ []) i 0
    at zero l = refl
    at (suc zero) l = refl
    at (suc (suc i)) l = absurd (omega (arith, l))

pipewrite_lem_example :
    WriteOutcome false wrapping
      (1510 ∷ 1511 ∷ [])
      (replicate 511 7)
      (pipewrite false wrapping (replicate 511 7))
pipewrite_lem_example =
    pipewrite_lem false wrapping (1510 ∷ 1511 ∷ []) (replicate 511 7) wrapping-Holds

piperead_lem_example : ReadOutcome false wrapping (1510 ∷ 1511 ∷ []) 5 (piperead false wrapping 5)
piperead_lem_example = piperead_lem false wrapping (1510 ∷ 1511 ∷ []) 5 wrapping-Holds

piperead-pipewrite_example :
    (p : Pipe) × (p' : Pipe) × (pipewrite false (fresh (λ i. 0)) (5 ∷ 6 ∷ [])
      ≡ written (readers ∷ []) p)
    × (piperead false p 100 ≡ got (writers ∷ []) (5 ∷ 6 ∷ []) p')
    × Holds p' []
piperead-pipewrite_example =
    piperead-pipewrite (λ i. 0) (5 ∷ 6 ∷ []) 100 (omega arith) (omega arith) (omega arith)

-- A read across the end of the array and of the counters' range.
read_run : copy_out 5 wrapping ≡ (1510 ∷ 1511 ∷ [], record wrapping { nread = 0 })
unfolding copy_out
read_run = refl

-- The page of a pipe is freed when the second end is closed.
close_run : pipeclose false (record wrapping { writeopen = false }) ≡ (writers, none)
unfolding pipeclose
close_run = refl
