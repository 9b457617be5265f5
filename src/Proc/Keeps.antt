-- ===== src/Proc/Keeps.antt =====
-- Waking, killing, sleeping and the loops of exit, wait and join keep the invariant of the table.
use ecnu_oslab.Base.{
  ℕ, zero, suc, ◌+◌, ◌≤◌, ◌<◌, ◌≡◌, ◌≢◌, ◌⊎◌, inl, inr, refl, ◌∙◌, Bool, true, false, ◌&&◌, ◌||◌,
  ◌==◌, minus_one, find_index-cases, arith, Bool-cases,
}
use ecnu_oslab.Proc.{unused, zombie, Kernel, nproc, pointer, proc, wakeup1, kill, kill_proc}
use ecnu_oslab.Proc.Wait.{
  dead, alive, scan_children, returned, blocked, sleep, woken, idle_children, adopted, hand_over,
  give_up_child, give_up_children, is_zombie, has_parent, shares,
}
use ecnu_oslab.Proc.Table.{TableOk-set, TableOk-map, Ok}

module _ {R : Type 0} where
  pub wakeup1-Ok : (chan : ℕ) (k : Kernel R) → Ok k → Ok (wakeup1 chan k)
  unfolding wakeup1
  wakeup1-Ok chan k v =
      TableOk-map v (λ j. ground arith) (λ j z. ground arith) (λ j z. ground arith)
        (λ j z. ground arith)

  pub kill-Ok : (pid : ℕ) (k : Kernel R) → Ok k → Ok (kill pid k).1
  unfolding kill
  kill-Ok pid k v = elim (find_index-cases (λ i. (k.procs i).pid == pid) nproc) [
    | inl (e, h) ↦ rw (e, kill) v
    | inr (i, e, l, t, h) ↦
        rw (e, kill)
          (TableOk-set i (kill_proc (k.procs i)) v refl (λ z. ground arith)
            (λ z. ground (arith, v.free i l)) (λ z. ground (arith, v.alone i l)))
  ]

  pub sleep-Ok : (chan : ℕ) (k : Kernel R) → (proc k).state ≢ unused → Ok k → Ok (sleep chan k)
  unfolding sleep
  sleep-Ok chan k u v =
      TableOk-set k.current _ v refl (λ z. absurd (u z)) (λ z. ground arith) (λ z. refl)

  pub woken-Ok : (k : Kernel R) → k.current < nproc → Ok k → Ok (woken k)
  unfolding woken
  woken-Ok k l v = TableOk-set k.current _ v refl (λ z. z) (v.free k.current l) (λ z. refl)

  pub idle_children-cases :
      (b : Bool) (k : Kernel R)
      → (idle_children b k ≡ returned minus_one k)
        ⊎ (idle_children b k ≡ blocked (sleep (pointer k.current) k))
  unfolding idle_children
  idle_children-cases b k = ground arith

  hand_over-Ok :
      (i : ℕ) (k : Kernel R) → (k.procs i).state ≢ unused → i < nproc → Ok k → Ok (hand_over i k)
  unfolding hand_over
  hand_over-Ok i k u l v = elim (Bool-cases (is_zombie (adopted i k) i)) [
    | inl t ↦ rw (t, hand_over) (wakeup1-Ok (pointer k.initproc) _ moved)
    | inr t ↦ rw (t, hand_over) moved
  ]
    where
      moved : Ok (adopted i k)
      moved = TableOk-set i _ v refl (λ z. z) (λ z. absurd (u z)) (λ z. v.alone i l z)

  give_up_child-Ok : (i : ℕ) (k : Kernel R) → i < nproc → Ok k → Ok (give_up_child i k)
  unfolding give_up_child
  give_up_child-Ok i k l v = elim (Bool-cases (has_parent k i)) [
    | inl t ↦ elim (Bool-cases (shares k i)) [
      | inl q ↦
          rw (t, q)
            (TableOk-set i (record (k.procs i) { state = zombie }) v refl
              (λ z. ground (arith, v.free i l z)) (λ z. ground arith) (λ z. ground arith))
      | inr q ↦ rw (t, q) (hand_over-Ok i k (λ z. ground (arith, v.free i l z)) l v)
    ]
    | inr t ↦ rw t v
  ]

  pub give_up_children-Ok :
      (n i : ℕ) (k : Kernel R) → i + n ≤ nproc → Ok k → Ok (give_up_children n i k)
  unfolding give_up_children
  give_up_children-Ok zero i k l v = v
  give_up_children-Ok (suc n) i k l v =
      give_up_children-Ok n (i + 1) (give_up_child i k) (omega arith)
        (give_up_child-Ok i k (omega arith) v)

  -- What the loop of exit leaves alone: the current process, and which slots are free.
  give_up_child-keeps :
      (i j : ℕ) (k : Kernel R)
      → ((give_up_child i k).current ≡ k.current)
        × ((k.procs j).state ≢ unused → ((give_up_child i k).procs j).state ≢ unused)
  unfolding give_up_child hand_over wakeup1
  give_up_child-keeps i j k = (ground arith, ground arith)

  pub give_up_children-keeps :
      (n i j : ℕ) (k : Kernel R)
      → ((give_up_children n i k).current ≡ k.current)
        × ((k.procs j).state ≢ unused → ((give_up_children n i k).procs j).state ≢ unused)
  unfolding give_up_children
  give_up_children-keeps zero i j k = (refl, λ u. u)
  give_up_children-keeps (suc n) i j k =
      let (c, s) = give_up_children-keeps n (i + 1) j (give_up_child i k) in
      let (c', s') = give_up_child-keeps i j k in (c ∙ c', λ u. s (s' u))

-- What the scan for children finds.
pub scan_children-cases :
    (child gone : ℕ → Bool) (n i : ℕ) (b : Bool)
    → ((j : ℕ) × (scan_children child gone n i b ≡ dead j)
        × (i ≤ j)
        × (j < i + n)
        × (child j ≡ true)
        × (gone j ≡ true)
        × ((m : ℕ) → i ≤ m → m < j → (child m && gone m) ≡ false))
      ⊎ ((b' : Bool) × (scan_children child gone n i b ≡ alive b')
          × ((j : ℕ) → i ≤ j → j < i + n → child j ≡ true → gone j ≡ false)
          × ((b' ≡ false) → (b ≡ false) × ((j : ℕ) → i ≤ j → j < i + n → child j ≡ false))
          × ((b' ≡ true) → (b ≡ true) ⊎ ((j : ℕ) × (i ≤ j) × (j < i + n) × (child j ≡ true))))
unfolding scan_children
scan_children-cases child gone zero i b =
    inr
      (b, refl, λ j l r. absurd (omega arith), λ e. (e, λ j l r. absurd (omega arith)), λ e. inl e)
scan_children-cases child gone (suc n) i b = elim (Bool-cases (child i && gone i)) [
  | inl t ↦ inl (
    i,
    rw t,
    omega arith,
    omega arith,
    ground (arith, t),
    ground (arith, t),
    λ m l r. absurd (omega arith),
  )
  | inr t ↦ elim (scan_children-cases child gone n (i + 1) (b || child i)) [
    | inl (j, e, l, r, c, g, h) ↦
        inl (j, rw (t, e), omega arith, omega arith, c, g, λ m l r. ground (arith, h m, t))
    | inr (b', e, h, f, w) ↦ inr (
      b',
      rw (t, e),
      λ j l r c. ground (arith, h j, t),
      λ z. (ground (arith, f z), λ j l r. ground (arith, f z, (f z).1 j)),
      λ z. elim (w z) [
        | inl q ↦ elim (Bool-cases b) [
          | inl x ↦ inl x
          | inr x ↦ inr (i, omega arith, omega arith, ground (arith, q, x))
        ]
        | inr (j, l, r, c) ↦ inr (j, omega arith, omega arith, c)
      ],
    )
  ]
]
