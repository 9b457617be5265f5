-- ===== src/Buffers/Clean.antt =====
-- The invariant of the cache of buffers of lab5/xv6-thread/kernel/bio.c, and changes of one buffer.
use ecnu_oslab.Base.{
  ℕ, ◌<◌, ◌≡◌, ◌≢◌, ◌⊎◌, refl, sym, ap, ◌∙◌, subst, inl, inr, arith, true, false, ◌∷◌, ◌==◌,
  if◌then◌else◌, equal,
}
use ecnu_oslab.Buffers.{nbuf, no_dev, Buf, Cache, block_at, set_buf, binit, unlink}
use ecnu_oslab.Buffers.Order.{Members, down_from-Members, moved-Members}

-- The list has every buffer; no block of a device is in two buffers; and a buffer that is not busy is not
-- dirty and, if it is valid, holds what is on the disk.
pub record Clean (c : Cache) : Type 0 where
  pub members : Members nbuf c.order
  pub single :
      (i j : ℕ)
      → i < nbuf
      → j < nbuf
      → (c.bufs i).dev ≢ no_dev
      → (c.bufs i).dev ≡ (c.bufs j).dev
      → (c.bufs i).sector ≡ (c.bufs j).sector
      → i ≡ j
  pub written : (i : ℕ) → i < nbuf → (c.bufs i).busy ≡ false → (c.bufs i).dirty ≡ false
  pub fresh :
      (i : ℕ)
      → i < nbuf
      → (c.bufs i).busy ≡ false
      → (c.bufs i).valid ≡ true
      → (c.bufs i).bytes ≡ block_at c (c.bufs i).dev (c.bufs i).sector

-- binit makes a clean cache of buffers that are not busy, dirty or valid.
pub binit-Clean :
    (c : Cache)
    → ((i : ℕ) → ((c.bufs i).dirty ≡ false) × ((c.bufs i).valid ≡ false))
    → Clean (binit c)
binit-Clean c h = record {
  members = down_from-Members nbuf;
  single = λ i j l m n e q. absurd (n refl);
  written = λ i l b. (h i).0;
  fresh = λ i l b v. absurd (ground (arith, v, (h i).1));
}

-- The buffer b is busy with a block that is in no other buffer, and the other buffers and the blocks on
-- disk of those that are valid have not changed.
pub Clean-busy :
    (c c' : Cache) (b : ℕ)
    → Clean c
    → c'.order ≡ c.order
    → ((i : ℕ)
        → i < nbuf
        → i ≢ b
        → (c.bufs i).valid ≡ true
        → block_at c' (c.bufs i).dev (c.bufs i).sector
          ≡ block_at c (c.bufs i).dev (c.bufs i).sector)
    → ((i : ℕ) → i ≢ b → c'.bufs i ≡ c.bufs i)
    → (c'.bufs b).busy ≡ true
    → ((i : ℕ)
        → i < nbuf
        → i ≢ b
        → (c.bufs i).dev ≡ (c'.bufs b).dev
        → (c.bufs i).sector ≢ (c'.bufs b).sector)
    → Clean c'
Clean-busy c c' b ok o d same busy alone = record {
  members = subst (Members nbuf) (sym o) ok.members;
  single = λ i j l m n e q. one i j l m n e q (equal i b) (equal j b);
  written = λ i l z.
      (let k = other i z in
        subst (λ x. x.dirty ≡ false) (sym (same i k))
          (ok.written i l (subst (λ x. x.busy ≡ false) (same i k) z)));
  fresh = λ i l z v.
      (let k = other i z in
        subst (λ x. x.bytes ≡ block_at c' x.dev x.sector) (sym (same i k))
          (ok.fresh i l (subst (λ x. x.busy ≡ false) (same i k) z)
              (subst (λ x. x.valid ≡ true) (same i k) v)
            ∙ sym (d i l k (subst (λ x. x.valid ≡ true) (same i k) v))));
}
  where
    other : (i : ℕ) → (c'.bufs i).busy ≡ false → i ≢ b
    other i z e = absurd (ground (arith, sym z ∙ ap (λ k. (c'.bufs k).busy) e ∙ busy))

    one :
        (i j : ℕ)
        → i < nbuf
        → j < nbuf
        → (c'.bufs i).dev ≢ no_dev
        → (c'.bufs i).dev ≡ (c'.bufs j).dev
        → (c'.bufs i).sector ≡ (c'.bufs j).sector
        → (i ≡ b) ⊎ (i ≢ b)
        → (j ≡ b) ⊎ (j ≢ b)
        → i ≡ j
    one i j l m n e q (inl u) (inl w) = u ∙ sym w
    one i j l m n e q (inl u) (inr w) = absurd (
        alone j m w (ap (λ x. x.dev) (sym (same j w)) ∙ sym e ∙ ap (λ k. (c'.bufs k).dev) u)
          (ap (λ x. x.sector) (sym (same j w)) ∙ sym q ∙ ap (λ k. (c'.bufs k).sector) u))
    one i j l m n e q (inr u) (inl w) = absurd (
        alone i l u (ap (λ x. x.dev) (sym (same i u)) ∙ e ∙ ap (λ k. (c'.bufs k).dev) w)
          (ap (λ x. x.sector) (sym (same i u)) ∙ q ∙ ap (λ k. (c'.bufs k).sector) w))
    one i j l m n e q (inr u) (inr w) =
        ok.single i j l m (subst (λ x. x.dev ≢ no_dev) (same i u) n)
          (ap (λ x. x.dev) (sym (same i u)) ∙ e ∙ ap (λ x. x.dev) (same j w))
          (ap (λ x. x.sector) (sym (same i u)) ∙ q ∙ ap (λ x. x.sector) (same j w))

-- A buffer that holds what is on the disk is released.
pub Clean-release :
    (c : Cache) (b : ℕ)
    → Clean c
    → b < nbuf
    → (c.bufs b).dirty ≡ false
    → (c.bufs b).bytes ≡ block_at c (c.bufs b).dev (c.bufs b).sector
    → Clean
        (set_buf b (record (c.bufs b) { busy = false }) (record c { order = b ∷ unlink b c.order }))
Clean-release c b ok l d e = record {
  members = moved-Members nbuf b c.order l ok.members;
  single = λ i j m n v p q.
      ok.single i j m n (subst (λ x. x ≢ no_dev) (dev i) v) (sym (dev i) ∙ p ∙ dev j)
        (sym (sector i) ∙ q ∙ sector j);
  written = λ i m z. dirty i ∙ clean i m z (equal i b);
  fresh = λ i m z v.
      bytes i
      ∙ disk i m z v (equal i b)
      ∙ sym (
          ap (λ x. block_at c x (new i).sector) (dev i)
          ∙ ap (block_at c (c.bufs i).dev) (sector i));
}
  where
    new : ℕ → Buf
    new i = if i == b then record (c.bufs b) { busy = false } else c.bufs i

    dev : (i : ℕ) → (new i).dev ≡ (c.bufs i).dev
    dev i = ground arith

    sector : (i : ℕ) → (new i).sector ≡ (c.bufs i).sector
    sector i = ground arith

    dirty : (i : ℕ) → (new i).dirty ≡ (c.bufs i).dirty
    dirty i = ground arith

    bytes : (i : ℕ) → (new i).bytes ≡ (c.bufs i).bytes
    bytes i = ground arith

    valid : (i : ℕ) → (new i).valid ≡ (c.bufs i).valid
    valid i = ground arith

    busy : (i : ℕ) → i ≢ b → (new i).busy ≡ (c.bufs i).busy
    busy i n = ground (arith, n)

    clean : (i : ℕ) → i < nbuf → (new i).busy ≡ false → (i ≡ b) ⊎ (i ≢ b) → (c.bufs i).dirty ≡ false
    clean i m z (inl q) = ap (λ k. (c.bufs k).dirty) q ∙ d
    clean i m z (inr n) = ok.written i m (sym (busy i n) ∙ z)

    disk :
        (i : ℕ)
        → i < nbuf
        → (new i).busy ≡ false
        → (new i).valid ≡ true
        → (i ≡ b) ⊎ (i ≢ b)
        → (c.bufs i).bytes ≡ block_at c (c.bufs i).dev (c.bufs i).sector
    disk i m z v (inl q) =
        subst (λ k. (c.bufs k).bytes ≡ block_at c (c.bufs k).dev (c.bufs k).sector) (sym q) e
    disk i m z v (inr n) = ok.fresh i m (sym (busy i n) ∙ z) (sym (valid i) ∙ v)
