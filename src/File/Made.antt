-- ===== src/File/Made.antt =====
-- The ends of a new pipe in pipealloc of lab5/xv6-thread/kernel/pipe.c.
use ecnu_oslab.Base.{
  ℕ, ◌<◌, ◌≡◌, ◌≢◌, ◌⊎◌, refl, sym, ap, ◌∙◌, subst, inl, inr, arith, true, false, Option, none,
  some, equal,
}
use ecnu_oslab.Pipe.{Pipe, fresh}
use ecnu_oslab.Pipe.Ends.{OpenEnd}
use ecnu_oslab.File.{nfile, Files, set_up}
use ecnu_oslab.File.Ends.{IsEnd, EndsOk, IsOld}

module _ (s : Files) (a f0 f1 : ℕ) (bytes : ℕ → ℕ) where
  -- Which end a file is after the pipe has been set up.
  abbrev Kind : ℕ → Type 0
  Kind g =
      let t = set_up a bytes f0 f1 s in
      ((g ≡ f1) × ((t.files g).pipe ≡ a) × ((t.files g).writable ≡ true))
      ⊎ ((g ≡ f0) × ((t.files g).pipe ≡ a) × ((t.files g).writable ≡ false))
      ⊎ (IsOld s t g × ((s.files g).pipe ≢ a))

  used :
      EndsOk s → s.pipes a ≡ none → (g : ℕ) → g < nfile → IsEnd (s.files g) → (s.files g).pipe ≢ a
  used ok e g l d q = let (p, u, o) = ok.target g l d in ground (arith, sym u ∙ ap s.pipes q ∙ e)

  kind :
      EndsOk s
      → s.pipes a ≡ none
      → (g : ℕ) → g < nfile
      → f0 ≢ f1
      → IsEnd ((set_up a bytes f0 f1 s).files g)
      → Kind g
  kind ok e g l n d = elim (equal g f1) [
    | inl q ↦ inl (q, ground (arith, q), ground (arith, q))
    | inr n1 ↦ elim (equal g f0) [
      | inl q ↦ inr (inl (q, ground (arith, q, n), ground (arith, q, n)))
      | inr n0 ↦
          (let old : IsEnd (s.files g) = ground (arith, n0, n1, d) in
            inr (inr ((old, ground (arith, n0, n1), ground (arith, n0, n1)), used ok e g l old)))
    ]
  ]

  made_target :
      EndsOk s
      → s.pipes a ≡ none
      → f0 ≢ f1
      → (g : ℕ) → g < nfile
      → IsEnd ((set_up a bytes f0 f1 s).files g)
      → (p : Pipe) × ((set_up a bytes f0 f1 s).pipes ((set_up a bytes f0 f1 s).files g).pipe
          ≡ some p)
        × OpenEnd ((set_up a bytes f0 f1 s).files g).writable p
  made_target ok e n g l d = elim (kind ok e g l n d) [
    | inl (q, u, w) ↦
        (fresh bytes, ap pages u ∙ ground arith, subst (λ v. OpenEnd v (fresh bytes)) (sym w) refl)
    | inr (inl (q, u, w)) ↦
        (fresh bytes, ap pages u ∙ ground arith, subst (λ v. OpenEnd v (fresh bytes)) (sym w) refl)
    | inr (inr ((o, u, w), m)) ↦
        (let (p, x, y) = ok.target g l o in
          (p, ap pages u ∙ ground (arith, m, x), subst (λ v. OpenEnd v p) (sym w) y))
  ]
    where
      pages : ℕ → Option Pipe
      pages = (set_up a bytes f0 f1 s).pipes

  made_apart :
      EndsOk s
      → s.pipes a ≡ none
      → f0 ≢ f1
      → (g h : ℕ) → g < nfile
      → h < nfile
      → IsEnd ((set_up a bytes f0 f1 s).files g)
      → IsEnd ((set_up a bytes f0 f1 s).files h)
      → ((set_up a bytes f0 f1 s).files g).pipe ≡ ((set_up a bytes f0 f1 s).files h).pipe
      → ((set_up a bytes f0 f1 s).files g).writable ≡ ((set_up a bytes f0 f1 s).files h).writable
      → g ≡ h
  made_apart ok e n g h l m d d' x y = join (kind ok e g l n d) (kind ok e h m n d')
    where
      join : Kind g → Kind h → g ≡ h
      join (inl (q, u, w)) (inl (q', u', w')) = q ∙ sym q'
      join (inl (q, u, w)) (inr (inl (q', u', w'))) = absurd (ground (arith, sym w ∙ y ∙ w'))
      join (inl (q, u, w)) (inr (inr ((o, u', w'), m'))) = absurd (m' (sym u' ∙ sym x ∙ u))
      join (inr (inl (q, u, w))) (inl (q', u', w')) = absurd (ground (arith, sym w ∙ y ∙ w'))
      join (inr (inl (q, u, w))) (inr (inl (q', u', w'))) = q ∙ sym q'
      join (inr (inl (q, u, w))) (inr (inr ((o, u', w'), m'))) = absurd (m' (sym u' ∙ sym x ∙ u))
      join (inr (inr ((o, u, w), k))) (inl (q', u', w')) = absurd (k (sym u ∙ x ∙ u'))
      join (inr (inr ((o, u, w), k))) (inr (inl (q', u', w'))) = absurd (k (sym u ∙ x ∙ u'))
      join (inr (inr ((o, u, w), k))) (inr (inr ((o', u', w'), k'))) =
          ok.apart g h l m o o' (sym u ∙ x ∙ u') (sym w ∙ y ∙ w')

  -- Two open files that are nothing yet become the ends of a new pipe.
  pub EndsOk-set_up :
      EndsOk s
      → s.pipes a ≡ none
      → f0 ≢ f1
      → 0 < (s.files f0).ref
      → 0 < (s.files f1).ref
      → EndsOk (set_up a bytes f0 f1 s)
  EndsOk-set_up ok e n r0 r1 = record {
    target = made_target ok e n;
    apart = made_apart ok e n;
    idle = λ g d. ground (arith, d, ok.idle g, r0, r1);
  }
