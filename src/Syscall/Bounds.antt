-- ===== src/Syscall/Bounds.antt =====
-- What lab5/xv6-thread/kernel/syscall.c takes from a user lies inside the memory of the process.
use ecnu_oslab.Base.{
  ℕ, zero, suc, ◌+◌, ◌-◌, ◌^◌, ◌≤◌, ◌<◌, ◌≡◌, ◌≢◌, ◌⊎◌, refl, ap, ◌∙◌, inl, inr, arith, false, none,
  some, Option-cases, Bool-cases, leb, ◌==◌, pos,
}
use ecnu_oslab.Syscall.{User, word, fetchint, string_length, fetchstr, argint, argptr}

-- For a memory below 2^32 - 4, fetchint returns the word if its four bytes are in the memory, else none.
pub fetchint_lem :
    (u : User) (addr : ℕ)
    → u.sz < 2 ^ 32 - 4
    → ((addr + 4 ≤ u.sz) × (fetchint u addr ≡ some (word u addr)))
      ⊎ ((u.sz < addr + 4) × (fetchint u addr ≡ none))
unfolding fetchint
fetchint_lem u addr l = ground arith

plus_zero : (n : ℕ) → n + 0 ≡ n
plus_zero n = omega arith

string_length-cases :
    (u : User) (n s count : ℕ)
    → ((k : ℕ) × (string_length u n s count ≡ some (count + k))
        × (k < n)
        × (u.byte (s + k) ≡ 0)
        × ((j : ℕ) → j < k → u.byte (s + j) ≢ 0))
      ⊎ ((string_length u n s count ≡ none) × ((j : ℕ) → j < n → u.byte (s + j) ≢ 0))
unfolding string_length
string_length-cases u zero s count = inr (refl, λ j l. absurd (omega arith))
string_length-cases u (suc n) s count = elim (Bool-cases (u.byte s == 0)) [
  | inl e ↦
      inl (
        0,
        rw e (ap some (omega arith)),
        omega arith,
        ground (arith, e),
        λ j l. absurd (omega arith),
      )
  | inr e ↦ elim (string_length-cases u n (s + 1) (count + 1)) [
    | inl (k, q, l, z, h) ↦ inl (
      suc k,
      rw e (q ∙ ap some (omega arith)),
      omega arith,
      ap u.byte (omega arith) ∙ z,
      earlier k e h,
    )
    | inr (q, h) ↦ inr (rw e q, earlier n e h)
  ]
]
  where
    earlier :
        (k : ℕ)
        → (u.byte s == 0) ≡ false
        → ((j : ℕ) → j < k → u.byte (s + 1 + j) ≢ 0)
        → (j : ℕ) → j < suc k
        → u.byte (s + j) ≢ 0
    earlier k e h zero l q = ground (arith, e, ap u.byte (plus_zero s), q)
    earlier k e h (suc j) l q = h j (omega arith) (ap u.byte (omega arith) ∙ q)

-- fetchstr returns the length of the string at the address, if that is in the memory and a 0 stands
-- between it and the end of the memory: all bytes of the string and its 0 are in the memory. Else it
-- returns none.
pub fetchstr_lem :
    (u : User) (addr : ℕ)
    → ((k : ℕ) × (fetchstr u addr ≡ some k)
        × (addr + k < u.sz)
        × (u.byte (addr + k) ≡ 0)
        × ((j : ℕ) → j < k → u.byte (addr + j) ≢ 0))
      ⊎ ((fetchstr u addr ≡ none) × ((j : ℕ) → addr + j < u.sz → u.byte (addr + j) ≢ 0))
unfolding fetchstr
fetchstr_lem u addr = elim (Bool-cases (leb u.sz addr)) [
  | inl t ↦ rw t (inr (refl, λ j l. absurd (ground (arith, t, l))))
  | inr t ↦ rw t (elim (string_length-cases u (u.sz - addr) addr 0) [
    | inl (k, q, l, z, h) ↦ inl (k, q ∙ ap some (omega arith), omega (arith, l), z, h)
    | inr (q, h) ↦ inr (q, λ j l. h j (omega (arith, l)))
  ])
]

-- For a size that is not negative and does not lead past 2^32 from the end of the memory, argptr passes a
-- word of the stack on as a pointer exactly if the block behind it starts and ends in the memory, and
-- fails if the word cannot be fetched.
pub argptr_lem :
    (u : User) (n size : ℕ)
    → u.sz + size < 2 ^ 32
    → ((argint u n ≡ none) × (argptr u n (pos size) ≡ none))
      ⊎ ((i : ℕ) × (argint u n ≡ some i)
          × (((i < u.sz) × (i + size ≤ u.sz) × (argptr u n (pos size) ≡ some i))
              ⊎ (((u.sz ≤ i) ⊎ (u.sz < i + size)) × (argptr u n (pos size) ≡ none))))
unfolding argptr
argptr_lem u n size l = elim (Option-cases (argint u n)) [
  | inl e ↦ rw (e, argptr) (inl (refl, refl))
  | inr (i, e) ↦ rw (e, argptr) (inr (i, refl, ground arith))
]
