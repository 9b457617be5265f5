-- ===== src/Pages/Chain.antt =====
-- The list of free pages of lab5/xv6-thread/kernel/kalloc.c.
use ecnu_oslab.Base.{
  ℕ, ◌+◌, ◌%◌, ◌^◌, ◌≤◌, ◌<◌, ◌≡◌, ◌≢◌, ◌⊎◌, refl, sym, ◌∙◌, subst, inl, inr, arith, false, ◌||◌,
  not, some, List, [], ◌∷◌, ltb, ◌==◌, In,
}
use ecnu_oslab.Fs.{Block, word, set_word}
use ecnu_oslab.Fs.Dinode.{Outside, word-Outside, word-set, set_word-Outside}
use ecnu_oslab.Pages.{pgsize, phystop, Ram, junk, kfree, kalloc}

-- A page that the allocator hands out.
abbrev pub IsPage : (kend p : ℕ) → Type 0
IsPage kend p = (p % pgsize ≡ 0) × (kend ≤ p) × (p < phystop) × (0 < p)

-- The pages from `head` on, each once.
abbrev pub Chain : (kend : ℕ) → Block → List ℕ → (head : ℕ) → Type 0
Chain kend b [] head = head ≡ 0
Chain kend b (p ∷ ps) head = (head ≡ p) × IsPage kend p × (In p ps → ⊥) × Chain kend b ps (word b p)

pub Chain-IsPage :
    (kend : ℕ) (b : Block) (ps : List ℕ) (head : ℕ)
    → Chain kend b ps head
    → (p : ℕ) → In p ps
    → IsPage kend p
Chain-IsPage kend b [] head c p m = elim m [ ]
Chain-IsPage kend b (q ∷ qs) head (e, w, n, c) p (inl u) = subst (IsPage kend) (sym u) w
Chain-IsPage kend b (q ∷ qs) head (e, w, n, c) p (inr m) = Chain-IsPage kend b qs (word b q) c p m

-- Bytes that do not belong to the free pages may change.
pub Chain-same :
    (kend : ℕ) (b b' : Block) (ps : List ℕ) (head : ℕ)
    → Chain kend b ps head
    → ((p : ℕ) → In p ps → word b' p ≡ word b p)
    → Chain kend b' ps head
Chain-same kend b b' [] head c h = c
Chain-same kend b b' (p ∷ ps) head (e, w, n, c) h = (
  e,
  w,
  n,
  Chain-same kend b b' ps (word b' p) (subst (Chain kend b ps) (sym (h p (inl refl))) c)
      (λ q m. h q (inr m)),
)

-- The memory after a page is freed.
abbrev pub given : (v : ℕ) → Ram → Ram
given v r = record { bytes = set_word (junk r.bytes v) v r.freelist; freelist = v }

kfree-given : (kend v : ℕ) (r : Ram) → IsPage kend v → kfree kend v r ≡ some (given v r)
unfolding kfree
kfree-given kend v r (a, l, h, z) = rw test refl
  where
    test : (not (v % pgsize == 0) || ltb v kend || not (ltb v phystop)) ≡ false
    test = ground (arith, a, l, h)

junk-Outside : (b : Block) (v : ℕ) → Outside v 4096 b (junk b v)
junk-Outside b v i (inl l) = ground (arith, l)
junk-Outside b v i (inr l) = ground (arith, l)

given-Outside : (v : ℕ) (r : Ram) → Outside v 4096 r.bytes (given v r).bytes
given-Outside v r i (inl l) =
    set_word-Outside (junk r.bytes v) v r.freelist i (inl l) ∙ junk-Outside r.bytes v i (inl l)
given-Outside v r i (inr l) =
    set_word-Outside (junk r.bytes v) v r.freelist i (inr (omega (arith, l)))
    ∙ junk-Outside r.bytes v i (inr l)

-- Two pages do not overlap.
pub apart : (kend v p : ℕ) → IsPage kend v → IsPage kend p → p ≢ v → (p + 4 ≤ v) ⊎ (v + 4096 ≤ p)
apart kend v p (a, l, h, z) (a', l', h', z') n = ground (arith, a, a', n)

below : (kend : ℕ) (b : Block) (ps : List ℕ) (head : ℕ) → Chain kend b ps head → head < 2 ^ 32
below kend b [] head c = omega (arith, c)
below kend b (p ∷ ps) head (e, (a, l, h, z), n, c) = omega (arith, e, h)

-- kfree of a page that is not free puts it at the head of the list.
pub Chain-kfree :
    (kend v : ℕ) (r : Ram) (ps : List ℕ)
    → Chain kend r.bytes ps r.freelist
    → IsPage kend v
    → (In v ps → ⊥)
    → (kfree kend v r ≡ some (given v r)) × Chain kend (given v r).bytes (v ∷ ps) v
Chain-kfree kend v r ps c w n = (
  kfree-given kend v r w,
  (
    refl,
    w,
    n,
    subst (Chain kend (given v r).bytes ps)
        (sym (word-set (junk r.bytes v) v r.freelist (below kend r.bytes ps r.freelist c)))
        (Chain-same kend r.bytes (given v r).bytes ps r.freelist c (λ p m.
          word-Outside v 4096 r.bytes (given v r).bytes (given-Outside v r) p (
            apart kend v p w (Chain-IsPage kend r.bytes ps r.freelist c p m)
              (λ e. n (subst (λ q. In q ps) e m))))),
  ),
)

-- kalloc takes the head of the list, and returns 0 if there is none.
pub Chain-kalloc :
    (kend : ℕ) (r : Ram) (ps : List ℕ)
    → Chain kend r.bytes ps r.freelist
    → ((ps ≡ []) × (kalloc r ≡ (0, r)))
      ⊎ ((p : ℕ) × (qs : List ℕ) × (ps ≡ p ∷ qs)
          × (kalloc r ≡ (p, record r { freelist = word r.bytes p }))
          × Chain kend r.bytes qs (word r.bytes p))
unfolding kalloc
Chain-kalloc kend r [] c = inl (refl, rw c refl)
Chain-kalloc kend r (p ∷ qs) (e, w, n, c) = inr (p, qs, refl, rw (e, used) refl, c)
  where
    used : (p == 0) ≡ false
    used = ground (arith, w)
