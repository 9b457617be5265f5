-- ===== src/Strings.antt =====
-- lab5/xv6-thread/kernel/string.c on a memory of bytes with 32-bit addresses: memmove and
-- safestrcpy here, memcmp and strncmp in Compare.
pub mod Move
pub mod Copy
pub mod Compare
mod Tests
use ecnu_oslab.Base.{
  ℕ, zero, suc, ◌+◌, ◌-◌, ◌%◌, ◌^◌, Bool, ◌&&◌, ltb, ◌==◌, ℤ, pos, negsuc, if◌then◌else◌,
}

-- The byte at each address, from 0 to 255.
abbrev pub Memory : Type 0
Memory = ℕ → ℕ

abbrev pub up : ℕ → ℕ
up a = (a + 1) % 2 ^ 32

abbrev pub down : ℕ → ℕ
down a = (a + 2 ^ 32 - 1) % 2 ^ 32

abbrev pub write : Memory → (a b : ℕ) → Memory
write m a b x = if x == a then b else m x

-- while(n-- > 0) *d++ = *s++;
pub forward : (n d s : ℕ) → Memory → Memory
forward zero d s m = m
forward (suc n) d s m = forward n (up d) (up s) (write m d (m s))

-- while(n-- > 0) *--d = *--s;
pub backward : (n d s : ℕ) → Memory → Memory
backward zero d s m = m
backward (suc n) d s m = backward n (down d) (down s) (write m (down d) (m (down s)))

pub memmove : (dst src n : ℕ) → Memory → Memory
memmove dst src n m =
    if ltb src dst && ltb dst ((src + n) % 2 ^ 32)
    then backward n ((dst + n) % 2 ^ 32) ((src + n) % 2 ^ 32) m
    else forward n dst src m

-- safestrcpy: the loop at n bytes to go but for the last, and the write of the 0.
pub copy_string : (n s t : ℕ) → Memory → Memory
copy_string zero s t m = write m s 0
copy_string (suc n) s t m =
    let m' = write m s (m t) in
    let rest = copy_string n (up s) (up t) m' in if m t == 0 then write m' (up s) 0 else rest

pub safestrcpy : (s t : ℕ) → (n : ℤ) → Memory → Memory
safestrcpy s t (pos zero) m = m
safestrcpy s t (pos (suc n)) m = copy_string n s t m
safestrcpy s t (negsuc n) m = m
