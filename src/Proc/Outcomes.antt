-- ===== src/Proc/Outcomes.antt =====
-- What fork and clone of lab5/xv6-thread/kernel/proc.c return, and the child they make.
use ecnu_oslab.Base.{
  ℕ, zero, suc, ◌+◌, ◌<◌, ◌≡◌, ◌≢◌, ◌⊎◌, refl, sym, ap, ◌∙◌, subst, inl, inr, arith, List, [], ◌∷◌,
  not, ◌==◌, ◌%◌, ◌^◌, ◌-◌, Bool-cases, equal, length, get_or, ℤ, to_int, minus_one,
}
use ecnu_oslab.Proc.{
  Proc, Services, Kernel, embryo, unused, nproc, update, pointer, page, proc, allocproc, on_slot,
  dup_files, finish_child, fork_into, fork, clone_into, clone, thread_esp,
}
use ecnu_oslab.Proc.Child.{Unchanged, Child, ForkOutcome, CloneOutcome}
use ecnu_oslab.Proc.Table.{Busy}
use ecnu_oslab.Proc.Spawn.{allocproc-cases, alloc_slot-cases}

update-same : (f : ℕ → Proc) (i : ℕ) (p : Proc) → update f i p i ≡ p
update-same f i p = ground arith

thread_esp_lem : (stack : ℕ) → thread_esp stack ≡ (stack + 4096 - 8) % 2 ^ 32
thread_esp_lem stack = omega arith

module _ {R : Type 0} (sys : Services R) where
  dup_files-get :
      (from to : List ℕ) (r : R) (j : ℕ)
      → length from ≡ length to
      → get_or from j 0 ≢ 0
      → get_or (dup_files sys from to r).0 j 0 ≡ get_or from j 0
  unfolding dup_files
  dup_files-get [] to r j e n = absurd (n refl)
  dup_files-get (f ∷ from) [] r j e n = absurd (ground arith)
  dup_files-get (f ∷ from) (g ∷ to) r zero e n = ground arith
  dup_files-get (f ∷ from) (g ∷ to) r (suc j) e n = dup_files-get from to _ j (omega (arith, e)) n

  -- What the code behind allocproc is given.
  pub record Given (k : Kernel R) (i : ℕ) (k' : Kernel R) : Type 0 where
    pub slot : i < nproc
    pub was_free : (k.procs i).state ≡ unused
    pub state : (k'.procs i).state ≡ embryo
    pub pid : (k'.procs i).pid ≡ k.nextpid
    pub files : (k'.procs i).ofile ≡ (k.procs i).ofile
    pub others : (j : ℕ) → j ≢ i → k'.procs j ≡ k.procs j
    pub next : k'.nextpid ≡ (k.nextpid + 1) % 2 ^ 32
    pub current : k'.current ≡ k.current
    pub parent : proc k' ≡ proc k

  on_slot-cases :
      (fill : ℕ → Kernel R → ℤ × Kernel R) (k : Kernel R)
      → Busy k
      → ((k' : Kernel R) × (on_slot fill (allocproc sys k) ≡ (minus_one, k')) × Unchanged k k')
        ⊎ ((i : ℕ) × (k' : Kernel R) × (on_slot fill (allocproc sys k) ≡ fill i k') × Given k i k')
  on_slot-cases fill k v = elim (allocproc-cases sys k) [
    | inl (e, h) ↦ inl (k, ap (on_slot fill) e, record { states = λ j. refl; used = λ j u. refl })
    | inr (i, e, l, t, h) ↦
        let (k', w, c, same, o) = alloc_slot-cases sys i k l t (v.table.free i l) in
        elim o [
          | inl (q, d) ↦ inl (
            k',
            ap (on_slot fill) (e ∙ q),
            record {
              states = λ j. elim (equal j i) [
                | inl z ↦
                    subst (λ m. (k'.procs m).state ≡ (k.procs m).state) (sym z)
                      (ground (arith, d, t))
                | inr z ↦ ap (λ p. p.state) (same j z)
              ];
              used = λ j u.
                  same j
                    (λ z. u (subst (λ m. (k.procs m).state ≡ unused) (sym z) (ground (arith, t))));
            },
          )
          | inr (q, u, n, x, y, z) ↦ inr (
            i,
            k',
            ap (on_slot fill) (e ∙ q),
            record {
              slot = l;
              was_free = ground (arith, t);
              state = u;
              pid = n;
              files = y;
              others = same;
              next = x;
              current = c;
              parent =
                  subst (λ m. k'.procs m ≡ proc k) (sym c)
                    (same k.current
                      (λ z. ground (arith, t, v.state, ap (λ m. (k.procs m).state) z)));
            },
          )
        ]
  ]

  finish_child-Child :
      (i : ℕ) (p : Proc) (k k1 : Kernel R)
      → Given k i k1
      → (p.pid ≡ k.nextpid)
        × (p.parent ≡ pointer k.current)
        × (p.sz ≡ (proc k).sz)
        × (p.ofile ≡ (k.procs i).ofile)
      → length (proc k).ofile ≡ length (k.procs i).ofile
      → (r : R) → Child k i (finish_child sys i p (record k1 { rest = r })).1
  unfolding finish_child
  finish_child-Child i p k k1 g (e, z, m, o) q r = record {
    slot = g.slot;
    was_free = g.was_free;
    state = ground arith;
    pid = ground (arith, e);
    parent = ground (arith, z);
    size = ground (arith, m);
    cwd = ground (arith, ap (λ p. p.cwd) g.parent);
    files = λ j n.
        ap (λ c. get_or c.ofile j 0) (update-same k1.procs i _)
        ∙ ap (λ c. get_or (dup_files sys c.ofile p.ofile r).0 j 0) g.parent
        ∙ dup_files-get (proc k).ofile p.ofile r j (q ∙ sym (ap length o)) n;
    others = λ j n. ground (arith, g.others j n);
    next = g.next;
  }

  finish_child-fields :
      (i : ℕ) (p : Proc) (k : Kernel R)
      → ((finish_child sys i p k).0 ≡ to_int p.pid)
        × (((finish_child sys i p k).1.procs i).pgdir ≡ p.pgdir)
        × (((finish_child sys i p k).1.procs i).thread_stack ≡ p.thread_stack)
        × (((finish_child sys i p k).1.procs i).tf ≡ p.tf)
  unfolding finish_child
  finish_child-fields i p k =
      (refl, ground arith, ground arith, ap (λ c. c.tf) (update-same k.procs i _))

  fork_into-ForkOutcome :
      (i : ℕ) (k k1 : Kernel R)
      → Given k i k1
      → length (proc k).ofile ≡ length (k.procs i).ofile
      → ForkOutcome k (fork_into sys i k1)
  unfolding fork_into
  fork_into-ForkOutcome i k k1 g q =
      elim (Bool-cases ((sys.copyuvm (proc k1).pgdir (proc k1).sz k1.rest).0 == 0)) [
        | inl t ↦
            rw (t, fork_into)
              (inl (
                refl,
                record {
                  states = λ j. ground (arith, g.others j, g.was_free);
                  used = λ j u. ground (arith, g.others j, g.was_free);
                },
              ))
        | inr t ↦
            let (v, d, s, f) = finish_child-fields i _ _ in
            rw (t, fork_into)
              (inr (
                i,
                v ∙ ap to_int g.pid,
                finish_child-Child i _ k k1 g
                    (g.pid, ap pointer g.current, ap (λ p. p.sz) g.parent, g.files) q _,
                λ z. ground (arith, sym d ∙ z, t),
                f ∙ ap (λ p. record (p.tf) { eax = 0 }) g.parent,
              ))
      ]

  -- When the current process is RUNNING in a table that satisfies the invariant, and its list of files
  -- is as long as that of every slot, fork either returns -1 and changes no slot in use and takes no
  -- free slot; or it returns nextpid as an int, and a slot that was free is the new RUNNABLE child, with that
  -- number, the process as its parent, its size, directory and open files, a page table that is not
  -- null and its trap frame but for a return value of 0, while no other slot changes.
  pub fork_lem :
      (k : Kernel R)
      → Busy k
      → ((j : ℕ) → length (proc k).ofile ≡ length (k.procs j).ofile)
      → ForkOutcome k (fork sys k)
  unfolding fork
  fork_lem k v q = elim (on_slot-cases (fork_into sys) k v) [
    | inl (k', e, u) ↦ rw e (inl (refl, u))
    | inr (i, k', e, g) ↦ rw e (fork_into-ForkOutcome i k k' g (q i))
  ]

  clone_into-CloneOutcome :
      (fcn arg stack i : ℕ) (k k1 : Kernel R)
      → Given k i k1
      → stack % page ≡ 0
      → length (proc k).ofile ≡ length (k.procs i).ofile
      → CloneOutcome fcn stack k (clone_into sys fcn arg stack i k1)
  unfolding clone_into
  clone_into-CloneOutcome fcn arg stack i k k1 g a q =
      let (v, d, s, f) = finish_child-fields i _ _ in
      inr (
        i,
        a,
        v ∙ ap to_int g.pid,
        finish_child-Child i _ k k1 g
            (g.pid, ap pointer g.current, ap (λ p. p.sz) g.parent, g.files) q _,
        d ∙ ap (λ p. p.pgdir) g.parent,
        s,
        f
            ∙ ap (λ esp. record ((proc k1).tf) { eip = fcn; esp = esp; ebp = esp; eax = 0 })
                (thread_esp_lem stack)
            ∙ ap
                (λ p. record (p.tf) {
                  eip = fcn;
                  esp = (stack + 4096 - 8) % 2 ^ 32;
                  ebp = (stack + 4096 - 8) % 2 ^ 32;
                  eax = 0;
                })
                g.parent,
      )

  -- When the current process is RUNNING in a table that satisfies the invariant, and its list of files
  -- is as long as that of every slot, clone either returns -1 and changes no slot in use and takes no
  -- free slot; or the stack starts at a page, it returns nextpid as an int, and a slot that was free is the new
  -- RUNNABLE thread, with that number, the process as its parent, its size, directory, open files and
  -- page table, the given stack, and its trap frame but for a return value of 0, an instruction pointer
  -- at the function and stack and base pointers 8 bytes below the end of the stack's page, modulo 2^32,
  -- while no other slot changes.
  pub clone_lem :
      (fcn arg stack : ℕ) (k : Kernel R)
      → Busy k
      → ((j : ℕ) → length (proc k).ofile ≡ length (k.procs j).ofile)
      → CloneOutcome fcn stack k (clone sys fcn arg stack k)
  unfolding clone
  clone_lem fcn arg stack k v q = elim (Bool-cases (not (stack % page == 0))) [
    | inl t ↦ rw t (inl (refl, record { states = λ j. refl; used = λ j u. refl }))
    | inr t ↦ rw t (elim (on_slot-cases (clone_into sys fcn arg stack) k v) [
      | inl (k', e, u) ↦ rw e (inl (refl, u))
      | inr (i, k', e, g) ↦
          rw e (clone_into-CloneOutcome fcn arg stack i k k' g (ground (arith, t)) (q i))
    ])
  ]
