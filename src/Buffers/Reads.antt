-- ===== src/Buffers/Reads.antt =====
-- bread of lab5/xv6-thread/kernel/bio.c and the blocks on the disk.
use ecnu_oslab.Base.{
  ℕ, ◌%◌, ◌^◌, ◌<◌, ◌≡◌, ◌≢◌, ◌⊎◌, refl, sym, ap, ◌∙◌, inl, inr, arith, true, false, ◌&&◌, not,
  ◌==◌, Bool-cases,
}
use ecnu_oslab.Buffers.{
  nbuf, no_dev, Cache, block_at, Outcome, done, panic, sleeps, set_buf, holds, bget, iderw, fetch,
  bread,
}
use ecnu_oslab.Buffers.Order.{find_next-cases, find_prev-cases}
use ecnu_oslab.Buffers.Clean.{Clean, Clean-busy}

-- The buffer b is locked at the state c', has the block, and holds what is on the disk, which is the same as
-- at the state c.
pub record Got (dev sector : ℕ) (c : Cache) (b : ℕ) (c' : Cache) : Type 0 where
  pub inside : b < nbuf
  pub dev_is : (c'.bufs b).dev ≡ dev
  pub sector_is : (c'.bufs b).sector ≡ sector
  pub is_busy : (c'.bufs b).busy ≡ true
  pub not_dirty : (c'.bufs b).dirty ≡ false
  pub bytes_are : (c'.bufs b).bytes ≡ block_at c dev sector
  pub same_disk : c'.disk ≡ c.disk
  pub clean : Clean c'

-- Another buffer does not have the block of the buffer b.
pub single-alone :
    (c : Cache) (b : ℕ)
    → Clean c
    → b < nbuf
    → (c.bufs b).dev ≢ no_dev
    → (i : ℕ) → i < nbuf
    → i ≢ b
    → (c.bufs i).dev ≡ (c.bufs b).dev
    → (c.bufs i).sector ≢ (c.bufs b).sector
single-alone c b ok l n i m d e q = d (sym (ok.single b i l m n (sym e) (sym q)))

-- The buffer b after iderw has read its block.
abbrev read_in : ℕ → Cache → Cache
read_in b c =
    set_buf b
      (record (c.bufs b) { valid = true; bytes = block_at c (c.bufs b).dev (c.bufs b).sector }) c

read_in-Clean :
    (b : ℕ) (c : Cache)
    → Clean c
    → b < nbuf
    → (c.bufs b).dev ≢ no_dev
    → (c.bufs b).busy ≡ true
    → Clean (read_in b c)
read_in-Clean b c ok l n y =
    Clean-busy c (read_in b c) b ok refl (λ i m d v. refl) (λ i d. ground (arith, d))
      (ground (arith, y))
      (λ i m d e q. single-alone c b ok l n i m d (ground (arith, e)) (ground (arith, q)))

fetch-Got :
    (dev sector b : ℕ) (c : Cache)
    → Clean c
    → dev ≢ no_dev
    → b < nbuf
    → (c.bufs b).dev ≡ dev
    → (c.bufs b).sector ≡ sector
    → (c.bufs b).busy ≡ true
    → (c.bufs b).dirty ≡ false
    → ((c.bufs b).valid ≡ true → (c.bufs b).bytes ≡ block_at c dev sector)
    → ((c' : Cache) × (fetch (done b c) ≡ done b c') × Got dev sector c b c')
      ⊎ ((fetch (done b c) ≡ panic) × (dev ≢ 0) × (c.has_disk1 ≡ false))
unfolding iderw
fetch-Got dev sector b c ok n l d s y z f = elim (Bool-cases (c.bufs b).valid) [
  | inl v ↦ inl (
    c,
    rw v refl,
    record {
      inside = l;
      dev_is = d;
      sector_is = s;
      is_busy = y;
      not_dirty = z;
      bytes_are = f v;
      same_disk = refl;
      clean = ok;
    },
  )
  | inr v ↦ elim (Bool-cases (not ((c.bufs b).dev == 0) && not c.has_disk1)) [
    | inl t ↦ inr (rw (v, y, t) refl, ground (arith, t, d), ground (arith, t))
    | inr t ↦ inl (
      read_in b c,
      rw (v, y, t, z) refl,
      record {
        inside = l;
        dev_is = ground (arith, d);
        sector_is = ground (arith, s);
        is_busy = ground (arith, y);
        not_dirty = ground (arith, z);
        bytes_are = self ∙ ap (λ x. block_at c x (c.bufs b).sector) d ∙ ap (block_at c dev) s;
        same_disk = refl;
        clean = read_in-Clean b c ok l (λ e. n (sym d ∙ e)) y;
      },
    )
  ]
]
  where
    self : ((read_in b c).bufs b).bytes ≡ block_at c (c.bufs b).dev (c.bufs b).sector
    self = ground arith

-- A buffer that is not busy becomes the locked buffer of the block.
abbrev locked : ℕ → Cache → Cache
locked b c = set_buf b (record (c.bufs b) { busy = true }) c

abbrev recycled : (dev sector b : ℕ) → Cache → Cache
recycled dev sector b c =
    set_buf b
      (record (c.bufs b) { dev = dev; sector = sector; busy = true; valid = false; dirty = false })
      c

-- How a call of bread ends, in the words of the theorem bread_lem.
abbrev pub ReadEnd : (dev sector : ℕ) → Cache → Outcome ℕ → Type 0
ReadEnd dev sector c call =
    ((b : ℕ) × (c' : Cache) × (call ≡ done b c') × Got dev sector c b c')
    ⊎ ((b : ℕ) × (call ≡ sleeps b c)
        × (b < nbuf)
        × (holds dev sector (c.bufs b) ≡ true)
        × ((c.bufs b).busy ≡ true))
    ⊎ ((call ≡ panic)
        × (((dev ≢ 0) × (c.has_disk1 ≡ false))
            ⊎ ((i : ℕ)
                → i < nbuf
                → ((c.bufs i).busy ≡ true) × (holds dev sector (c.bufs i) ≡ false))))

ReadEnd-fetch :
    (dev sector b : ℕ) (c c1 : Cache)
    → c1.disk ≡ c.disk
    → c1.has_disk1 ≡ c.has_disk1
    → ((c' : Cache) × (fetch (done b c1) ≡ done b c') × Got dev sector c1 b c')
      ⊎ ((fetch (done b c1) ≡ panic) × (dev ≢ 0) × (c1.has_disk1 ≡ false))
    → ReadEnd dev sector c (fetch (done b c1))
ReadEnd-fetch dev sector b c c1 d h (inr (e, n, z)) = inr (inr (e, inl (n, sym h ∙ z)))
ReadEnd-fetch dev sector b c c1 d h (inl (c', e, g)) = inl (
  b,
  c',
  e,
  record {
    inside = g.inside;
    dev_is = g.dev_is;
    sector_is = g.sector_is;
    is_busy = g.is_busy;
    not_dirty = g.not_dirty;
    bytes_are = g.bytes_are ∙ ap (λ k. k (dev % 2) (sector % 2 ^ 28)) d;
    same_disk = g.same_disk ∙ d;
    clean = g.clean;
  },
)

-- In a clean cache, bread of a block of a device either returns a locked buffer that has the block and holds
-- what is on the disk, and leaves the disk as it is and the cache clean; or it sleeps on a busy buffer that has
-- the block, and nothing has changed; or it panics, the device being another than 0 and the second disk
-- missing, or every buffer being busy with another block.
pub bread_lem :
    (dev sector : ℕ) (c : Cache)
    → Clean c
    → dev ≢ no_dev
    → ReadEnd dev sector c (bread dev sector c)
unfolding bread bget
bread_lem dev sector c ok n = elim (find_next-cases (λ b. holds dev sector (c.bufs b)) c.order) [
  | inr (b, e, m, t) ↦ elim (Bool-cases (c.bufs b).busy) [
    | inl y ↦ rw (e, y) (inr (inl (b, refl, ok.members.1 b m, t, y)))
    | inr y ↦
        rw (e, y)
          (ReadEnd-fetch dev sector b c (locked b c) refl refl (found b (ok.members.1 b m) t y))
  ]
  | inl (e, h) ↦ elim (find_prev-cases (λ b. not (c.bufs b).busy) c.order) [
    | inl (e', h') ↦
        rw (e, e')
          (inr (
            inr (
              refl,
              inr (λ i l. (ground (arith, h' i (ok.members.0 i l)), h i (ok.members.0 i l))),
            )))
    | inr (b, e', m, t) ↦
        rw (e, e')
          (ReadEnd-fetch dev sector b c (recycled dev sector b c) refl refl
            (taken b (ok.members.1 b m) (λ i l. h i (ok.members.0 i l))))
  ]
]
  where
    same_bytes : (b : ℕ) → ((locked b c).bufs b).bytes ≡ (c.bufs b).bytes
    same_bytes b = ground arith

    found :
        (b : ℕ)
        → b < nbuf
        → holds dev sector (c.bufs b) ≡ true
        → (c.bufs b).busy ≡ false
        → ((c' : Cache) × (fetch (done b (locked b c)) ≡ done b c')
            × Got dev sector (locked b c) b c')
          ⊎ ((fetch (done b (locked b c)) ≡ panic) × (dev ≢ 0) × (c.has_disk1 ≡ false))
    found b l t y =
        fetch-Got dev sector b (locked b c)
          (Clean-busy c (locked b c) b ok refl (λ i m d v. refl) (λ i d. ground (arith, d))
            (ground arith)
            (λ i m d p q.
              single-alone c b ok l (λ z. n (ground (arith, z, t))) i m d (ground (arith, p))
                (ground (arith, q))))
          n l (ground (arith, t)) (ground (arith, t)) (ground arith)
          (ground (arith, ok.written b l y))
          (λ v.
            same_bytes b
            ∙ ok.fresh b l y (ground (arith, v))
            ∙ ap (λ x. block_at c x (c.bufs b).sector) (ground (arith, t))
            ∙ ap (block_at c dev) (ground (arith, t)))

    taken :
        (b : ℕ)
        → b < nbuf
        → ((i : ℕ) → i < nbuf → holds dev sector (c.bufs i) ≡ false)
        → ((c' : Cache) × (fetch (done b (recycled dev sector b c)) ≡ done b c')
            × Got dev sector (recycled dev sector b c) b c')
          ⊎ ((fetch (done b (recycled dev sector b c)) ≡ panic) × (dev ≢ 0) × (c.has_disk1 ≡ false))
    taken b l h =
        fetch-Got dev sector b (recycled dev sector b c)
          (Clean-busy c (recycled dev sector b c) b ok refl (λ i m d v. refl)
            (λ i d. ground (arith, d)) (ground arith) (λ i m d p q. ground (arith, h i m, p, q)))
          n l (ground arith) (ground arith) (ground arith) (ground arith)
          (λ v. absurd (ground (arith, v)))
