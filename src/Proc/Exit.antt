-- ===== src/Proc/Exit.antt =====
-- The loop of exit in lab5/xv6-thread/kernel/proc.c: what it does to each slot of the table.
use ecnu_oslab.Base.{
  ℕ, zero, suc, ◌+◌, ◌≤◌, ◌<◌, ◌≡◌, ◌≢◌, refl, sym, ap, ◌∙◌, subst, inl, inr, arith, equal,
}
use ecnu_oslab.Proc.{Proc, Kernel, sleeping, zombie, pointer, proc, wakeup1}
use ecnu_oslab.Proc.Wait.{give_up_child, hand_over, give_up_children}

pub pointer-injective : {i j : ℕ} → pointer i ≡ pointer j → i ≡ j
pointer-injective e = omega (arith, e)

-- What the loop of exit keeps in each slot, c being the process that exits.
pub record Later (c : ℕ) (p q : Proc) : Type 0 where
  pub pgdir : q.pgdir ≡ p.pgdir
  pub parent : p.parent ≢ pointer c → q.parent ≡ p.parent
  pub awake : p.state ≢ sleeping → q.state ≢ sleeping
  pub dead : p.state ≡ zombie → q.state ≡ zombie

Later-refl : (c : ℕ) (p : Proc) → Later c p p
Later-refl c p = record { pgdir = refl; parent = λ n. refl; awake = λ n. n; dead = λ e. e }

Later-trans : (c : ℕ) {p q r : Proc} → Later c p q → Later c q r → Later c p r
Later-trans c a b = record {
  pgdir = b.pgdir ∙ a.pgdir;
  parent = λ n. b.parent (λ z. n (sym (a.parent n) ∙ z)) ∙ a.parent n;
  awake = λ n. b.awake (a.awake n);
  dead = λ e. b.dead (a.dead e);
}

-- What becomes of a child p of the process that exits, whose page table is dir.
abbrev pub Left : (dir init : ℕ) → Proc → Proc → Type 0
Left dir init p q = (p.pgdir ≡ dir → q.state ≡ zombie) × (p.pgdir ≢ dir → q.parent ≡ pointer init)

module _ {R : Type 0} where
  pub wakeup1-Later : (chan c j : ℕ) (k : Kernel R) → Later c (k.procs j) ((wakeup1 chan k).procs j)
  unfolding wakeup1
  wakeup1-Later chan c j k = record {
    pgdir = ground arith;
    parent = λ n. ground arith;
    awake = λ n. ground arith;
    dead = λ e. ground arith;
  }

  give_up_child-Later :
      (i j : ℕ) (k : Kernel R) → Later k.current (k.procs j) ((give_up_child i k).procs j)
  unfolding give_up_child hand_over wakeup1
  give_up_child-Later i j k = record {
    pgdir = ground arith;
    parent = λ n. ground arith;
    awake = λ n. ground arith;
    dead = λ e. ground arith;
  }

  -- The fields of the kernel that the loop does not write.
  give_up_child-fixed :
      (i : ℕ) (k : Kernel R)
      → ((give_up_child i k).current ≡ k.current) × ((give_up_child i k).initproc ≡ k.initproc)
  unfolding give_up_child hand_over wakeup1
  give_up_child-fixed i k = (ground arith, ground arith)

  pub give_up_children-Later :
      (n i j : ℕ) (k : Kernel R)
      → Later k.current (k.procs j) ((give_up_children n i k).procs j)
        × ((give_up_children n i k).current ≡ k.current)
  unfolding give_up_children
  give_up_children-Later zero i j k = (Later-refl k.current (k.procs j), refl)
  give_up_children-Later (suc n) i j k =
      let (l, e) = give_up_children-Later n (i + 1) j (give_up_child i k) in
      let (c, f) = give_up_child-fixed i k in
      (
        Later-trans k.current (give_up_child-Later i j k) (
            subst
              (λ c.
                Later c ((give_up_child i k).procs j)
                  ((give_up_children n (i + 1) (give_up_child i k)).procs j))
              c l),
        e ∙ c,
      )

  give_up_child-Left :
      (i : ℕ) (k : Kernel R)
      → (k.procs i).parent ≡ pointer k.current
      → Left (proc k).pgdir k.initproc (k.procs i) ((give_up_child i k).procs i)
  unfolding give_up_child hand_over wakeup1
  give_up_child-Left i k e = (λ d. ground arith, λ d. ground arith)

  give_up_child-other :
      (i j : ℕ) (k : Kernel R) → j ≢ i → ((give_up_child i k).procs j).parent ≡ (k.procs j).parent
  unfolding give_up_child hand_over wakeup1
  give_up_child-other i j k n = ground arith

  pub give_up_children-Left :
      (n i j : ℕ) (k : Kernel R)
      → i ≤ j
      → j < i + n
      → k.initproc ≢ k.current
      → (k.procs j).parent ≡ pointer k.current
      → Left (proc k).pgdir k.initproc (k.procs j) ((give_up_children n i k).procs j)
  unfolding give_up_children
  give_up_children-Left zero i j k l r u e = absurd (omega arith)
  give_up_children-Left (suc n) i j k l r u e =
      let next = give_up_child i k in
      let (c, f) = give_up_child-fixed i k in
      let (later, c') = give_up_children-Later n (i + 1) j next in
      elim (equal j i) [
        | inl z ↦
            let (a, b) =
              subst (λ m. Left (proc k).pgdir k.initproc (k.procs j) ((give_up_child m k).procs j))
                z (give_up_child-Left j k e) in
            (
              λ d. later.dead (a d),
              λ d. later.parent (λ q. u (pointer-injective (sym (b d) ∙ q ∙ ap pointer c))) ∙ b d,
            )
        | inr z ↦
            let (a, b) =
              give_up_children-Left n (i + 1) j next (omega (arith, z)) (omega arith)
                (λ q. u (sym f ∙ q ∙ c)) (give_up_child-other i j k z ∙ e ∙ ap pointer (sym c)) in
            let same = (give_up_child-Later i j k).pgdir in
            let dir =
              ap (λ m. (next.procs m).pgdir) c ∙ (give_up_child-Later i k.current k).pgdir in
            (λ d. a (same ∙ d ∙ sym dir), λ d. b (λ q. d (sym same ∙ q ∙ dir)) ∙ ap pointer f)
      ]
