-- ===== src/Buffers/Tests.antt =====
-- Runs of lab5/xv6-thread/kernel/bio.c.
use ecnu_oslab.Base.{
  ℕ, ◌<◌, inl, inr, Bool-cases, ◌≡◌, refl, arith, true, false, ◌&&◌, Option, none, some, [], ◌∷◌,
  ◌==◌, if◌then◌else◌,
}
use ecnu_oslab.Buffers.{
  nbuf, no_dev, Cache, Outcome, done, binit, down_from, find_next, find_prev, bget, iderw, bread,
  bwrite, brelse, unlink,
}
use ecnu_oslab.Buffers.Clean.{Clean, binit-Clean, Clean-busy}
use ecnu_oslab.Buffers.Reads.{ReadEnd, bread_lem}
use ecnu_oslab.Buffers.Writes.{then_do, with_bytes, Addressable, brelse-bwrite}

abbrev zeroed : Cache
zeroed = record {
  bufs = λ i. record {
    dev = 0;
    sector = 0;
    busy = false;
    valid = false;
    dirty = false;
    bytes = λ k. 0;
  };
  order = [];
  disk = λ d n i. n;
  has_disk1 = false;
}

zeroed-Clean : Clean (binit zeroed)
zeroed-Clean = binit-Clean zeroed (λ i. (refl, refl))

bread_lem_example : ReadEnd 0 5 (binit zeroed) (bread 0 5 (binit zeroed))
bread_lem_example = bread_lem 0 5 (binit zeroed) zeroed-Clean (λ e. ground (arith, e))

-- The sector 5 in the buffer 0, which is the last of the list.
abbrev one_read : Cache
one_read = record (binit zeroed) {
  bufs = λ i.
      if i == 0
      then record { dev = 0; sector = 5; busy = true; valid = true; dirty = false; bytes = λ k. 5 }
      else record {
        dev = no_dev;
        sector = 0;
        busy = false;
        valid = false;
        dirty = false;
        bytes = λ k. 0;
      };
}

abbrev read_byte : Outcome ℕ → Option (ℕ × ℕ)
read_byte (done b c) = some (b, (c.bufs b).bytes 0)
read_byte _ = none

bread_run : read_byte (bread 0 5 (binit zeroed)) ≡ some (0, 5)
unfolding bread bget find_next find_prev down_from iderw
bread_run = refl

one_read-Clean : Clean one_read
one_read-Clean =
    Clean-busy (binit zeroed) one_read 0 zeroed-Clean refl (λ i l n v. refl)
      (λ i n. ground (arith, n)) refl (λ i l n e. ground (arith, e))

only_valid : (i : ℕ) → i < nbuf → (one_read.bufs i).valid ≡ true → Addressable (one_read.bufs i)
only_valid i l v = elim (Bool-cases (i == 0)) [
  | inl t ↦ ground (arith, t)
  | inr t ↦ absurd (ground (arith, t, v))
]

brelse-bwrite_example :
    (c' : Cache) × (then_do (bwrite 0 (with_bytes 0 (λ k. 9) one_read)) (λ a. brelse 0)
      ≡ done tt c')
    × ((d n : ℕ) → c'.disk d n ≡ (if d == 0 && n == 5 then (λ k. 9) else one_read.disk d n))
    × (c'.order ≡ 0 ∷ unlink 0 one_read.order)
    × ((c'.bufs 0).busy ≡ false)
    × Clean c'
brelse-bwrite_example =
    brelse-bwrite 0 (λ k. 9) one_read one_read-Clean (omega arith) refl (omega arith, omega arith)
      only_valid refl
