-- ===== src/Mem/Outcomes.antt =====
-- What mem_alloc returns in a valid state.
use ecnu_oslab.Base.{
  ℕ, ◌+◌, ◌*◌, ◌-◌, ◌%◌, ◌/◌, ◌^◌, ◌≤◌, ◌<◌, ◌≡◌, refl, subst, false, Option, some, none, List,
  ◌++◌, arith, ◌==◌, if◌then◌else◌, All, ℤ, pos,
}
use ecnu_oslab.Mem.{State, carve, mem_alloc, search_style, e_no_space, need_of, aligned_size}
use ecnu_oslab.Mem.Blocks.{Block}
use ecnu_oslab.Mem.Search.{Unfit, Found}
use ecnu_oslab.Mem.Valid.{IsValid, Promise, Outcome, no_fit, chosen, search_lem}
use ecnu_oslab.Mem.Alloc.{split, carve-IsValid, carve-address, carve-Framed}
use ecnu_oslab.Mem.Assemble.{Framed}

-- The bytes that a request for k takes, its header included.
abbrev pub request : ℕ → ℕ
request k = (k + 7) / 8 * 8 + 8

-- The two outcomes of a request for `need` bytes in a state of blocks `bs`.
pub data Allocated (style need : ℕ) (s : State) (bs : List Block)
    : Option (ℕ × State) → Type 0 where
  refused :
      All (Unfit need) bs → Allocated style need s bs (some (0, record s { m_error = e_no_space }))
  granted :
      {n prev : ℕ} (size : ℕ) (s' : State) (w : Found bs s.hptr 0 n prev size)
      → need ≤ size
      → Promise style need size w.before bs
      → IsValid s' (w.before ++ (split need size ++ w.after))
      → Framed s s'
      → Allocated style need s bs (some (n + 8, s'))

nonzero : (n : ℕ) → 0 < n → (n == 0) ≡ false
nonzero n h = ground arith

after_search : (size need : ℕ) → State → Option (ℕ × ℕ) → Option (ℕ × State)
after_search size need s none = none
after_search size need s (some (n, prevp)) =
    if n == 0 then some (0, record s { m_error = e_no_space }) else some (carve s size need n prevp)

mem_alloc-eq :
    (k : ℤ) (style : ℕ) (s : State)
    → 0 < s.called
    → mem_alloc k style s
      ≡ after_search (aligned_size k) (need_of k) s (search_style s style (need_of k))
unfolding mem_alloc after_search
mem_alloc-eq k style s l = ground arith

module _ {s : State} {bs : List Block} (v : IsValid s bs) (style req need : ℕ) (eight : req % 8 ≡ 0)
    (some_bytes : 8 ≤ req) (asked : need ≡ req + 8) where
  after_search-Allocated :
      {o : Option (ℕ × ℕ)}
      → Outcome style need bs s.hptr o
      → Allocated style need s bs (after_search req need s o)
  unfolding after_search
  after_search-Allocated (no_fit u) = refused u
  after_search-Allocated (chosen {n} {prev} size w f g) =
      let inv = subst (IsValid s) w.split v in
      rw
        (
          w.link,
          nonzero n (omega (arith, w.place, v.start)),
          carve-address w.before w.after n size req need inv w.place eight some_bytes asked f,
        )
        (granted size _ w f g
          (carve-IsValid w.before w.after n size req need inv w.place eight some_bytes asked f)
          (carve-Framed s req need n _))

-- In a valid state a request for k > 0 bytes (k < 2^31 - 8) by one of the three styles ends. Either
-- no free block fits and the call returns NULL with E_NO_SPACE, changing nothing else; or it
-- returns the address behind the header of a free block that fits and that its style promises (none
-- before it fits, none that fits is smaller, none is larger), and in the new state, which is valid,
-- the blocks are the old ones but for that block, which is split.
pub mem_alloc_lem :
    {s : State} {bs : List Block} (style k : ℕ)
    → IsValid s bs
    → style < 3
    → 0 < k
    → k < 2 ^ 31 - 8
    → Allocated style (request k) s bs (mem_alloc (pos k) style s)
mem_alloc_lem {s} {bs} style k v q p b =
    rw (mem_alloc-eq (pos k) style s v.live, need_eq, req_eq)
      (after_search-Allocated v style ((k + 7) / 8 * 8) (request k) (omega arith) (omega arith) refl
        (search_lem style (request k) q v))
  where
    req_eq : aligned_size (pos k) ≡ (k + 7) / 8 * 8
    req_eq = omega arith

    need_eq : need_of (pos k) ≡ request k
    need_eq = omega arith
