-- ===== src/Syscall.antt =====
-- lab5/xv6-thread/kernel/syscall.c: how the kernel reads the arguments of a system call from the memory of
-- the process, which it must not leave. Addresses and words have 32 bits.
pub mod Bounds
mod Tests
use ecnu_oslab.Base.{
  ℕ, zero, suc, ◌+◌, ◌-◌, ◌*◌, ◌%◌, ◌^◌, Bool, ◌&&◌, ◌||◌, Option, none, some, ltb, leb, ◌==◌,
  if◌then◌else◌, ℤ, pos, to_uint,
}

-- What is read: the byte at each address, proc->sz and proc->tf->esp.
pub record User : Type 0 where
  pub byte : ℕ → ℕ
  pub sz : ℕ
  pub esp : ℕ

-- *(int*)(addr), as the unsigned word with the same bits.
abbrev pub word : User → ℕ → ℕ
word u a = u.byte a + 256 * u.byte (a + 1) + 65536 * u.byte (a + 2) + 16777216 * u.byte (a + 3)

-- none is -1.
pub fetchint : User → (addr : ℕ) → Option ℕ
fetchint u addr =
    if leb u.sz addr || ltb u.sz ((addr + 4) % 2 ^ 32) then none else some (word u addr)

-- The loop of fetchstr, n being the distance to the end of the memory.
pub string_length : User → (n s count : ℕ) → Option ℕ
string_length u zero s count = none
string_length u (suc n) s count =
    let rest = string_length u n (s + 1) (count + 1) in if u.byte s == 0 then some count else rest

-- The length; *pp is addr.
pub fetchstr : User → (addr : ℕ) → Option ℕ
fetchstr u addr = if leb u.sz addr then none else string_length u (u.sz - addr) addr 0

pub argint : User → (n : ℕ) → Option ℕ
argint u n = fetchint u ((u.esp + 4 + 4 * n) % 2 ^ 32)

-- The pointer, if the block of `size` bytes behind it passes the test.
pub argptr : User → (n : ℕ) → (size : ℤ) → Option ℕ
argptr u n size = elim (argint u n) [
  | none ↦ none
  | some i ↦ if leb u.sz i || ltb u.sz ((i + to_uint size) % 2 ^ 32) then none else some i
]

pub argstr : User → (n : ℕ) → Option (ℕ × ℕ)
argstr u n = elim (argint u n) [
  | none ↦ none
  | some addr ↦ elim (fetchstr u addr) [ none ↦ none | some len ↦ some (addr, len) ]
]
