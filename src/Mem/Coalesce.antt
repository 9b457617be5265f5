-- ===== src/Mem/Coalesce.antt =====
-- Merging free blocks that touch, as a function on blocks: the specification of mem_free.
use ecnu_oslab.Base.{ℕ, ◌+◌, ◌≡◌, refl, ap, ◌∙◌, List, [], ◌∷◌, ◌++◌, arith}
use ecnu_oslab.Mem.Blocks.{Block, free, used}
use ecnu_oslab.Mem.Valid.{Coalesced, Apart}
use ecnu_oslab.Mem.Assemble.{Apart-used_left, Apart-resize}

-- Put a block before coalesced ones.
abbrev pub put : Block → List Block → List Block
put (free n) (free k ∷ bs) = free (n + k) ∷ bs
put b bs = b ∷ bs

abbrev pub coalesce_onto : List Block → List Block → List Block
coalesce_onto [] bs = bs
coalesce_onto (x ∷ xs) bs = put x (coalesce_onto xs bs)

abbrev pub coalesce : List Block → List Block
coalesce bs = coalesce_onto bs []

pub put-Apart : (b : Block) (bs : List Block) → Apart b bs → put b bs ≡ b ∷ bs
put-Apart (free n) [] p = refl
put-Apart (free n) (free k ∷ bs) p = absurd p
put-Apart (free n) (used k ∷ bs) p = refl
put-Apart (used n) bs p = refl

Apart-head : (x y : Block) (bs cs : List Block) → Apart x (y ∷ bs) → Apart x (y ∷ cs)
Apart-head (free n) (free k) bs cs p = p
Apart-head (free n) (used k) bs cs p = tt
Apart-head (used n) y bs cs p = tt

pub coalesce-append : (xs ys : List Block) → coalesce (xs ++ ys) ≡ coalesce_onto xs (coalesce ys)
coalesce-append [] ys = refl
coalesce-append (x ∷ xs) ys = ap (put x) (coalesce-append xs ys)

pub coalesce-Coalesced : (bs : List Block) → Coalesced bs → coalesce bs ≡ bs
coalesce-Coalesced [] c = refl
coalesce-Coalesced (b ∷ bs) c = ap (put b) (coalesce-Coalesced bs c.1) ∙ put-Apart b bs c.0

put-Coalesced : (b : Block) (bs : List Block) → Coalesced bs → Coalesced (put b bs)
put-Coalesced (free n) [] c = (tt, tt)
put-Coalesced (free n) (free k ∷ bs) c = (Apart-resize k (n + k) bs c.0, c.1)
put-Coalesced (free n) (used k ∷ bs) c = (tt, c)
put-Coalesced (used n) bs c = (Apart-used_left n bs, c)

pub coalesce_onto-Coalesced : (xs bs : List Block) → Coalesced bs → Coalesced (coalesce_onto xs bs)
coalesce_onto-Coalesced [] bs c = c
coalesce_onto-Coalesced (x ∷ xs) bs c = put-Coalesced x _ (coalesce_onto-Coalesced xs bs c)

-- Blocks that are apart from what follows them are kept.
pub coalesce_onto-keeps :
    (xs : List Block) (b : Block) (bs : List Block)
    → Coalesced (xs ++ (b ∷ []))
    → coalesce_onto xs (b ∷ bs) ≡ xs ++ (b ∷ bs)
coalesce_onto-keeps [] b bs c = refl
coalesce_onto-keeps (x ∷ []) b bs c = put-Apart x (b ∷ bs) (Apart-head x b [] bs c.0)
coalesce_onto-keeps (x ∷ y ∷ xs) b bs c =
    ap (put x) (coalesce_onto-keeps (y ∷ xs) b bs c.1)
    ∙ put-Apart x (y ∷ (xs ++ (b ∷ bs))) (Apart-head x y (xs ++ (b ∷ [])) (xs ++ (b ∷ bs)) c.0)

pub put-put : (m n : ℕ) (bs : List Block) → put (free m) (put (free n) bs) ≡ put (free (m + n)) bs
put-put m n [] = refl
put-put m n (free k ∷ bs) = ap (λ x. free x ∷ bs) (omega arith)
put-put m n (used k ∷ bs) = refl

Coalesced-resize :
    (xs : List Block) (m k : ℕ) → Coalesced (xs ++ (free m ∷ [])) → Coalesced (xs ++ (free k ∷ []))
Coalesced-resize [] m k c = c
Coalesced-resize (free n ∷ []) m k c = absurd c.0
Coalesced-resize (used n ∷ []) m k c = (tt, c.1)
Coalesced-resize (x ∷ y ∷ xs) m k c = (
  Apart-head x y (xs ++ (free m ∷ [])) (xs ++ (free k ∷ [])) c.0,
  Coalesced-resize (y ∷ xs) m k c.1,
)

-- A free block of any size, merged with what follows it, stays where free m has been.
pub coalesce_onto-put :
    (xs : List Block) (m n : ℕ) (bs : List Block)
    → Coalesced (xs ++ (free m ∷ []))
    → coalesce_onto xs (put (free n) bs) ≡ xs ++ put (free n) bs
coalesce_onto-put xs m n [] c = coalesce_onto-keeps xs (free n) [] (Coalesced-resize xs m n c)
coalesce_onto-put xs m n (free k ∷ bs) c =
    coalesce_onto-keeps xs (free (n + k)) bs (Coalesced-resize xs m (n + k) c)
coalesce_onto-put xs m n (used k ∷ bs) c =
    coalesce_onto-keeps xs (free n) (used k ∷ bs) (Coalesced-resize xs m n c)

pub coalesce_onto-append :
    (xs ys bs : List Block) → coalesce_onto (xs ++ ys) bs ≡ coalesce_onto xs (coalesce_onto ys bs)
coalesce_onto-append [] ys bs = refl
coalesce_onto-append (x ∷ xs) ys bs = ap (put x) (coalesce_onto-append xs ys bs)

pub Coalesced-left : (xs ys : List Block) → Coalesced (xs ++ ys) → Coalesced xs
Coalesced-left [] ys c = tt
Coalesced-left (free n ∷ []) ys c = (tt, tt)
Coalesced-left (used n ∷ []) ys c = (tt, tt)
Coalesced-left (x ∷ y ∷ xs) ys c =
    (Apart-head x y (xs ++ ys) xs c.0, Coalesced-left (y ∷ xs) ys c.1)
