-- ===== src/Vm/Fuel.antt =====
-- The loops of allocuvm, deallocuvm and freevm of lab5/xv6-thread/kernel/vm.c and their fuel.
use ecnu_oslab.Base.{
  ℕ, zero, suc, ◌+◌, ◌-◌, ◌*◌, ◌/◌, ◌%◌, ◌^◌, ◌≤◌, ◌<◌, ◌≡◌, subst, inl, inr, arith, Bool, true,
  false, not, ◌&&◌, Option, none, some, List, [], ◌∷◌, All, ltb, leb, ◌==◌, Bool-cases,
}
use ecnu_oslab.Fs.{word}
use ecnu_oslab.Pages.{pgsize, round_up_page, Ram, kalloc, kfree}
use ecnu_oslab.Vm.{
  Out, done, panic, then_do, usertop, round_down, pte_addr, walkpgdir, has_flag, pte_p, map_page,
  map_loop, mappages,
}
use ecnu_oslab.Vm.Space.{
  Kmap, map_kernel, setupkvm, free_user, dealloc_loop, deallocuvm, alloc_loop, allocuvm,
  free_tables, freevm, free_page, kmap,
}

-- A result or a panic: the fuel has not run out.
pub data Ends {A : Type 0} : Out A → Type 0 where
  returns : {a : A} {r : Ram} → Ends (done a r)
  panics : Ends panic

pub then_do-Ends :
    {A B : Type 0} {m : Out A} {k : A → Ram → Out B}
    → Ends m
    → ((a : A) (r : Ram) → Ends (k a r))
    → Ends (then_do m k)
then_do-Ends (returns {a} {r}) f = f a r
then_do-Ends panics f = panics

map_page-Ends :
    (pgdir a last pa : ℕ) (perm : List ℕ) (next : Ram → Out Bool) (r : Ram)
    → ((a == last) ≡ false → (r' : Ram) → Ends (next r'))
    → Ends (map_page pgdir a last pa perm next r)
unfolding map_page
map_page-Ends pgdir a last pa perm next r f =
    elim (Bool-cases ((walkpgdir pgdir a true r).0 == 0)) [
      | inl t ↦ rw (t, map_page) returns
      | inr t ↦
          elim (Bool-cases (
            has_flag pte_p
              (word (walkpgdir pgdir a true r).1.bytes (walkpgdir pgdir a true r).0))) [
                | inl u ↦ rw (t, u, map_page) panics
                | inr u ↦ elim (Bool-cases (a == last)) [
                  | inl v ↦ rw (t, u, v, map_page) returns
                  | inr v ↦ rw (t, u, v, map_page) (f v _)
                ]
              ]
    ]

map_loop-Ends :
    (n pgdir a last pa : ℕ) (perm : List ℕ) (r : Ram)
    → a < 2 ^ 32
    → last ≡ (a + 4096 * n) % 2 ^ 32
    → Ends (map_loop (suc n) pgdir a last pa perm r)
unfolding map_loop
map_loop-Ends zero pgdir a last pa perm r l e =
    map_page-Ends pgdir a last pa perm _ r (λ q r'. absurd (ground (arith, q, e, l)))
map_loop-Ends (suc n) pgdir a last pa perm r l e =
    map_page-Ends pgdir a last pa perm _ r
      (λ q r'. map_loop-Ends n pgdir _ last _ perm r' (omega arith) (omega (arith, e)))

pub mappages-Ends :
    (pgdir la size pa : ℕ) (perm : List ℕ) (r : Ram)
    → la < 2 ^ 32
    → Ends (mappages pgdir la size pa perm r)
unfolding mappages
mappages-Ends pgdir la size pa perm r l =
    subst (λ n. Ends (map_loop n pgdir (round_down la) last pa perm r)) more
      (map_loop-Ends ((last + 2 ^ 32 - round_down la) % 2 ^ 32 / 4096) pgdir (round_down la) last pa
        perm r (omega (arith, l)) (omega (arith, l)))
  where
    last : ℕ
    last = round_down ((la + size + 2 ^ 32 - 1) % 2 ^ 32)

    more :
        suc ((last + 2 ^ 32 - round_down la) % 2 ^ 32 / 4096)
        ≡ (last + 2 ^ 32 - round_down la) % 2 ^ 32 / pgsize + 1
    more = omega arith

map_kernel-Ends :
    (ks : List Kmap) (pgdir : ℕ) (r : Ram)
    → All (λ (k : Kmap). k.p < 2 ^ 32) ks
    → Ends (map_kernel ks pgdir r)
unfolding map_kernel
map_kernel-Ends [] pgdir r a = returns
map_kernel-Ends (k ∷ ks) pgdir r (l, a) =
    then_do-Ends (mappages-Ends pgdir k.p _ k.p k.perm r l)
      (next ks pgdir a (λ r'. map_kernel-Ends ks pgdir r' a))
  where
    next :
        (qs : List Kmap) (d : ℕ)
        → All (λ (q : Kmap). q.p < 2 ^ 32) qs
        → ((r' : Ram) → Ends (map_kernel qs d r'))
        → (ok : Bool) (r' : Ram)
        → Ends {A = ℕ} (elim ok [ false ↦ done 0 r' | true ↦ map_kernel qs d r' ])
    next qs d b f true r' = f r'
    next qs d b f false r' = returns

pub setupkvm-Ends : (kdata : ℕ) (r : Ram) → kdata < 2 ^ 32 → Ends (setupkvm kdata r)
unfolding setupkvm
setupkvm-Ends kdata r l = elim (Bool-cases ((kalloc r).0 == 0)) [
  | inl t ↦ rw (t, setupkvm) returns
  | inr t ↦
      rw (t, setupkvm)
        (map_kernel-Ends (kmap kdata) _ _ (omega arith, (omega arith, (l, (omega arith, tt)))))
]

free_page-Ends : (kend v : ℕ) (r : Ram) → Ends (free_page kend v r)
free_page-Ends kend v r = freed (kfree kend v r)
  where
    freed : (o : Option Ram) → Ends {A = Unit} (elim o [ none ↦ panic | some r' ↦ done tt r' ])
    freed none = panics
    freed (some r') = returns

free_user-Ends : (kend pgdir a : ℕ) (r : Ram) → Ends (free_user kend pgdir a r)
unfolding free_user
free_user-Ends kend pgdir a r =
    elim (Bool-cases (
      not ((walkpgdir pgdir a false r).0 == 0)
      && has_flag pte_p (word (walkpgdir pgdir a false r).1.bytes (walkpgdir pgdir a false r).0))) [
        | inr t ↦ rw (t, free_user) returns
        | inl t ↦
            elim (Bool-cases (
              pte_addr (word (walkpgdir pgdir a false r).1.bytes (walkpgdir pgdir a false r).0)
              == 0)) [
                | inl u ↦ rw (t, u, free_user) panics
                | inr u ↦
                    rw (t, u, free_user) (then_do-Ends (free_page-Ends kend _ _) (λ v r'. returns))
              ]
      ]

dealloc_loop-Ends :
    (n kend pgdir a oldsz : ℕ) (r : Ram)
    → oldsz + 4096 ≤ 2 ^ 32
    → oldsz ≤ a + 4096 * n
    → Ends (dealloc_loop (suc n) kend pgdir a oldsz r)
unfolding dealloc_loop
dealloc_loop-Ends zero kend pgdir a oldsz r l h = rw (over, dealloc_loop) returns
  where
    over : ltb a oldsz ≡ false
    over = ground (arith, h)
dealloc_loop-Ends (suc n) kend pgdir a oldsz r l h = elim (Bool-cases (ltb a oldsz)) [
  | inr t ↦ rw (t, dealloc_loop) returns
  | inl t ↦
      rw (t, dealloc_loop)
        (then_do-Ends (free_user-Ends kend pgdir a r)
          (λ u r'. dealloc_loop-Ends n kend pgdir _ oldsz r' l (ground (arith, t, l, h))))
]

pub deallocuvm-Ends :
    (kend pgdir oldsz newsz : ℕ) (r : Ram)
    → oldsz + 4096 ≤ 2 ^ 32
    → Ends (deallocuvm kend pgdir oldsz newsz r)
deallocuvm-Ends kend pgdir oldsz newsz r l = elim (Bool-cases (leb oldsz newsz)) [
  | inl t ↦ rw (t, deallocuvm) returns
  | inr t ↦
      rw (t, deallocuvm)
        (then_do-Ends
          (subst (λ n. Ends (dealloc_loop n kend pgdir (round_up_page newsz % 2 ^ 32) oldsz r)) more
            (dealloc_loop-Ends (oldsz / pgsize + 1) kend pgdir _ oldsz r l (omega arith)))
          (λ u r'. returns))
]
  where
    more : suc (oldsz / pgsize + 1) ≡ oldsz / pgsize + 2
    more = omega arith

alloc_loop-Ends :
    (n kend pgdir a oldsz newsz : ℕ) (r : Ram)
    → newsz ≤ usertop
    → newsz ≤ a + 4096 * n
    → Ends (alloc_loop (suc n) kend pgdir a oldsz newsz r)
unfolding alloc_loop
alloc_loop-Ends zero kend pgdir a oldsz newsz r l h = rw (over, alloc_loop) returns
  where
    over : ltb a newsz ≡ false
    over = ground (arith, h)
alloc_loop-Ends (suc n) kend pgdir a oldsz newsz r l h = elim (Bool-cases (ltb a newsz)) [
  | inr t ↦ rw (t, alloc_loop) returns
  | inl t ↦ elim (Bool-cases ((kalloc r).0 == 0)) [
    | inl u ↦
        rw (t, u, alloc_loop)
          (then_do-Ends (deallocuvm-Ends kend pgdir newsz oldsz _ (omega (arith, l)))
            (λ v r'. returns))
    | inr u ↦
        rw (t, u, alloc_loop)
          (then_do-Ends (mappages-Ends pgdir a _ _ _ _ (ground (arith, t, l))) (λ ok r'.
            alloc_loop-Ends n kend pgdir (a + pgsize) oldsz newsz r' l (omega (arith, h))))
  ]
]

pub allocuvm-Ends :
    (kend pgdir oldsz newsz : ℕ) (r : Ram) → Ends (allocuvm kend pgdir oldsz newsz r)
allocuvm-Ends kend pgdir oldsz newsz r = elim (Bool-cases (ltb usertop newsz)) [
  | inl t ↦ rw (t, allocuvm) returns
  | inr t ↦ elim (Bool-cases (ltb newsz oldsz)) [
    | inl u ↦ rw (t, u, allocuvm) returns
    | inr u ↦
        rw (t, u, allocuvm)
          (subst (λ n. Ends (alloc_loop n kend pgdir (round_up_page oldsz) oldsz newsz r)) more
            (alloc_loop-Ends (newsz / pgsize + 1) kend pgdir (round_up_page oldsz) oldsz newsz r
              (ground (arith, t)) (omega arith)))
  ]
]
  where
    more : suc (newsz / pgsize + 1) ≡ newsz / pgsize + 2
    more = omega arith

free_tables-Ends : (n kend pgdir i : ℕ) (r : Ram) → Ends (free_tables n kend pgdir i r)
unfolding free_tables
free_tables-Ends zero kend pgdir i r = returns
free_tables-Ends (suc n) kend pgdir i r =
    elim (Bool-cases (has_flag pte_p (word r.bytes (pgdir + 4 * i)))) [
      | inl t ↦
          rw (t, free_tables)
            (then_do-Ends (free_page-Ends kend _ r)
              (λ u r'. free_tables-Ends n kend pgdir (i + 1) r'))
      | inr t ↦ rw (t, free_tables) (free_tables-Ends n kend pgdir (i + 1) r)
    ]

pub freevm-Ends : (kend pgdir : ℕ) (r : Ram) → Ends (freevm kend pgdir r)
freevm-Ends kend pgdir r = elim (Bool-cases (pgdir == 0)) [
  | inl t ↦ rw (t, freevm) panics
  | inr t ↦
      rw (t, freevm)
        (then_do-Ends (deallocuvm-Ends kend pgdir usertop 0 r (omega arith)) (λ u r'.
          then_do-Ends (free_tables-Ends _ kend pgdir 0 r')
            (λ v r''. free_page-Ends kend pgdir r'')))
]
