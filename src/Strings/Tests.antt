-- ===== src/Strings/Tests.antt =====
-- Runs of lab5/xv6-thread/kernel/string.c.
use ecnu_oslab.Base.{ℕ, ◌≡◌, refl, arith, inl, pos}
use ecnu_oslab.Strings.{Memory, memmove, forward, backward, safestrcpy, copy_string}
use ecnu_oslab.Strings.Move.{Copied, memmove-Copied}
use ecnu_oslab.Base.{negsuc}
use ecnu_oslab.Strings.Compare.{memcmp, strncmp}
use ecnu_oslab.Strings.Copy.{Terminated, safestrcpy-Terminated}

-- Each byte is its address.
abbrev ramp : Memory
ramp = λ a. a

-- The ranges overlap.
memmove-Copied_example : Copied 5 12 10 ramp (memmove 12 10 5 ramp)
memmove-Copied_example = memmove-Copied 12 10 5 ramp (omega arith) (omega arith)

memmove_run :
    (memmove 12 10 5 ramp 16 ≡ 14) × (memmove 12 10 5 ramp 12 ≡ 10) × (memmove 10 12 5 ramp 14 ≡ 16)
unfolding memmove forward backward
memmove_run = (refl, refl, refl)

safestrcpy-Terminated_example :
    (size : ℕ) × Terminated 3 100 10 ramp (safestrcpy 100 10 (pos 4) ramp) size
safestrcpy-Terminated_example =
    safestrcpy-Terminated 100 10 3 ramp (omega arith) (omega arith) (inl (omega arith))

-- The string is cut at the last byte of the buffer.
safestrcpy_run :
    (safestrcpy 100 10 (pos 4) ramp 102 ≡ 12) × (safestrcpy 100 10 (pos 4) ramp 103 ≡ 0)
unfolding safestrcpy copy_string
safestrcpy_run = (refl, refl)

compare_run : (memcmp 3 10 20 ramp ≡ negsuc 9) × (strncmp 3 20 10 ramp ≡ pos 10)
unfolding memcmp strncmp
compare_run = (refl, refl)
