-- ===== src/Proc/Table.antt =====
-- The invariant of the process table, and the writes to it that keep the invariant.
use ecnu_oslab.Base.{ℕ, ◌+◌, ◌%◌, ◌^◌, ◌<◌, subst, ◌≡◌, ◌≢◌, arith}
use ecnu_oslab.Proc.{unused, running, Proc, Kernel, nproc, update, proc}

-- No two slots in use have the same process number, nextpid is above all of them, a free slot has no
-- parent, and at most the slot c is RUNNING.
pub record TableOk (f : ℕ → Proc) (n c : ℕ) : Type 0 where
  pub positive : 0 < n
  pub bound : (j : ℕ) → j < nproc → (f j).pid < n
  pub unique :
      (i j : ℕ)
      → i < nproc
      → j < nproc
      → (f i).state ≢ unused
      → (f j).state ≢ unused
      → (f i).pid ≡ (f j).pid
      → i ≡ j
  pub free : (j : ℕ) → j < nproc → (f j).state ≡ unused → (f j).parent ≡ 0
  pub alone : (j : ℕ) → j < nproc → (f j).state ≡ running → j ≡ c

-- A slot whose number stays, and which is not put in use.
pub TableOk-set :
    {f : ℕ → Proc} {n c : ℕ} (i : ℕ) (p : Proc)
    → TableOk f n c
    → p.pid ≡ (f i).pid
    → ((f i).state ≡ unused → p.state ≡ unused)
    → (p.state ≡ unused → p.parent ≡ 0)
    → (p.state ≡ running → i ≡ c)
    → TableOk (update f i p) n c
TableOk-set i p v e u z r = record {
  positive = v.positive;
  bound = λ j l. ground (arith, v.bound j l);
  unique = λ a b la lb ua ub q. ground (arith, v.unique a b la lb);
  free = λ j l s. ground (arith, v.free j l);
  alone = λ j l s. ground (arith, v.alone j l);
}

-- A slot that gets the next number.
pub TableOk-new :
    {f : ℕ → Proc} {n c : ℕ} (i : ℕ) (p : Proc)
    → TableOk f n c
    → p.pid ≡ n
    → (p.state ≡ unused → p.parent ≡ 0)
    → p.state ≢ running
    → TableOk (update f i p) (n + 1) c
TableOk-new i p v e z r = record {
  positive = omega arith;
  bound = λ j l. ground (arith, v.bound j l);
  unique = λ a b la lb ua ub q. ground (arith, v.unique a b la lb, v.bound a la, v.bound b lb);
  free = λ j l s. ground (arith, v.free j l);
  alone = λ j l s. ground (arith, v.alone j l);
}

-- nextpid++ without overflow.
pub TableOk-next :
    {f : ℕ → Proc} {c : ℕ} (n : ℕ)
    → n + 1 < 2 ^ 32
    → TableOk f (n + 1) c
    → TableOk f ((n + 1) % 2 ^ 32) c
TableOk-next {f} {c} n m v =
    let e : n + 1 ≡ (n + 1) % 2 ^ 32 = omega arith in subst (λ x. TableOk f x c) e v

-- A slot that is given back.
pub TableOk-free :
    {f : ℕ → Proc} {n c : ℕ} (i : ℕ) (p : Proc)
    → TableOk f n c
    → p.pid < n
    → p.state ≡ unused
    → p.parent ≡ 0
    → TableOk (update f i p) n c
TableOk-free i p v e u z = record {
  positive = v.positive;
  bound = λ j l. ground (arith, v.bound j l);
  unique = λ a b la lb ua ub q. ground (arith, v.unique a b la lb);
  free = λ j l s. ground (arith, v.free j l);
  alone = λ j l s. ground (arith, v.alone j l);
}

-- A change of all slots that keeps their numbers and parents, and which are free or running.
pub TableOk-map :
    {f g : ℕ → Proc} {n c : ℕ}
    → TableOk f n c
    → ((j : ℕ) → (g j).pid ≡ (f j).pid)
    → ((j : ℕ) → (f j).state ≡ unused → (g j).state ≡ unused)
    → ((j : ℕ) → (g j).state ≡ unused → ((f j).state ≡ unused) × ((g j).parent ≡ (f j).parent))
    → ((j : ℕ) → (g j).state ≡ running → (f j).state ≡ running)
    → TableOk g n c
TableOk-map v e u w r = record {
  positive = v.positive;
  bound = λ j l. rw e (v.bound j l);
  unique = λ a b la lb ua ub q.
      v.unique a b la lb (λ z. ua (u a z)) (λ z. ub (u b z)) (ground (arith, e a, e b));
  free = λ j l s. ground (arith, w j s, v.free j l);
  alone = λ j l s. v.alone j l (r j s);
}

module _ {R : Type 0} where
  -- The invariant of the table of a kernel.
  abbrev pub Ok : Kernel R → Type 0
  Ok k = TableOk k.procs k.nextpid k.current

  -- The same, while the process at k.current is using the processor.
  pub record Busy (k : Kernel R) : Type 0 where
    pub table : Ok k
    pub here : k.current < nproc
    pub state : (proc k).state ≡ running
