-- ===== src/Fs/Dinode.antt =====
-- struct dinode in lab5/xv6-thread/kernel/fs.c, as iupdate writes and ilock reads it.
use ecnu_oslab.Base.{
  ℕ, zero, suc, ◌+◌, ◌*◌, ◌^◌, ◌≤◌, ◌<◌, ◌≡◌, ◌⊎◌, refl, ◌∙◌, inl, inr, arith, equal,
}
use ecnu_oslab.Fs.{Block, Inode, word, half, set_half, set_word}
use ecnu_oslab.Fs.Inodes.{load_inode, store_addrs, store_fields, store_inode}

-- The bytes outside the n bytes from a on are the same.
abbrev pub Outside : (a n : ℕ) → Block → Block → Type 0
Outside a n b c = (i : ℕ) → (i < a) ⊎ (a + n ≤ i) → c i ≡ b i

half-set : (b : Block) (a x : ℕ) → x < 65536 → half (set_half b a x) a ≡ x
half-set b a x l = ground (arith, l)

set_half-Outside : (b : Block) (a x : ℕ) → Outside a 2 b (set_half b a x)
set_half-Outside b a x i (inl l) = ground (arith, l)
set_half-Outside b a x i (inr l) = ground (arith, l)

pub word-set : (b : Block) (a x : ℕ) → x < 2 ^ 32 → word (set_word b a x) a ≡ x
word-set b a x l = ground (arith, l)

pub set_word-Outside : (b : Block) (a x : ℕ) → Outside a 4 b (set_word b a x)
set_word-Outside b a x i (inl l) = ground (arith, l)
set_word-Outside b a x i (inr l) = ground (arith, l)

-- A word or half word that does not meet the bytes that changed.
pub word-Outside :
    (a n : ℕ) (b c : Block)
    → Outside a n b c
    → (i : ℕ) → (i + 4 ≤ a) ⊎ (a + n ≤ i)
    → word c i ≡ word b i
word-Outside a n b c o i (inl l) =
    rw
      (
        o i (inl (omega (arith, l))),
        o (i + 1) (inl (omega (arith, l))),
        o (i + 2) (inl (omega (arith, l))),
        o (i + 3) (inl (omega (arith, l))),
      )
      refl
word-Outside a n b c o i (inr l) =
    rw
      (
        o i (inr (omega (arith, l))),
        o (i + 1) (inr (omega (arith, l))),
        o (i + 2) (inr (omega (arith, l))),
        o (i + 3) (inr (omega (arith, l))),
      )
      refl

half-Outside :
    (a n : ℕ) (b c : Block)
    → Outside a n b c
    → (i : ℕ) → (i + 2 ≤ a) ⊎ (a + n ≤ i)
    → half c i ≡ half b i
half-Outside a n b c o i (inl l) =
    rw (o i (inl (omega (arith, l))), o (i + 1) (inl (omega (arith, l)))) refl
half-Outside a n b c o i (inr l) =
    rw (o i (inr (omega (arith, l))), o (i + 1) (inr (omega (arith, l)))) refl

store_addrs-Outside :
    (n i : ℕ) (b : Block) (at : ℕ) (addrs : ℕ → ℕ)
    → Outside (at + 12 + 4 * i) (4 * n) b (store_addrs n i b at addrs)
unfolding store_addrs
store_addrs-Outside zero i b at addrs k l = refl
store_addrs-Outside (suc n) i b at addrs k l =
    store_addrs-Outside n (i + 1) (set_word b (at + 12 + 4 * i) (addrs i)) at addrs k (further l)
    ∙ set_word-Outside b (at + 12 + 4 * i) (addrs i) k (nearer l)
  where
    further :
        (k < at + 12 + 4 * i) ⊎ (at + 12 + 4 * i + 4 * suc n ≤ k)
        → (k < at + 12 + 4 * (i + 1)) ⊎ (at + 12 + 4 * (i + 1) + 4 * n ≤ k)
    further (inl p) = inl (omega (arith, p))
    further (inr p) = inr (omega (arith, p))

    nearer :
        (k < at + 12 + 4 * i) ⊎ (at + 12 + 4 * i + 4 * suc n ≤ k)
        → (k < at + 12 + 4 * i) ⊎ (at + 12 + 4 * i + 4 ≤ k)
    nearer (inl p) = inl p
    nearer (inr p) = inr (omega (arith, p))

-- The words that store_addrs writes.
store_addrs-word :
    (n i : ℕ) (b : Block) (at : ℕ) (addrs : ℕ → ℕ)
    → ((j : ℕ) → j < i + n → addrs j < 2 ^ 32)
    → (j : ℕ) → i ≤ j
    → j < i + n
    → word (store_addrs n i b at addrs) (at + 12 + 4 * j) ≡ addrs j
unfolding store_addrs
store_addrs-word zero i b at addrs h j l r = absurd (omega (arith, l, r))
store_addrs-word (suc n) i b at addrs h j l r = elim (equal j i) [
  | inr d ↦
      store_addrs-word n (i + 1) _ at addrs (λ k q. h k (omega arith)) j (omega arith) (omega arith)
  | inl e ↦
      word-Outside (at + 12 + 4 * (i + 1)) (4 * n) (set_word b (at + 12 + 4 * i) (addrs i)) _
        (store_addrs-Outside n (i + 1) (set_word b (at + 12 + 4 * i) (addrs i)) at addrs)
        (at + 12 + 4 * j) (inl (omega arith))
      ∙ rw e (word-set b (at + 12 + 4 * i) (addrs i) (h i (omega arith)))
]

-- The fields of an inode fit their places on disk.
pub record Fits (ip : Inode) : Type 0 where
  pub type : ip.type < 2 ^ 16
  pub major : ip.major < 2 ^ 16
  pub minor : ip.minor < 2 ^ 16
  pub nlink : ip.nlink < 2 ^ 16
  pub size : ip.size < 2 ^ 32
  pub addrs : (k : ℕ) → k < 13 → ip.addrs k < 2 ^ 32

-- Two inodes have the same contents: the fields that are on disk agree.
pub record SameContents (ip jp : Inode) : Type 0 where
  pub type : ip.type ≡ jp.type
  pub major : ip.major ≡ jp.major
  pub minor : ip.minor ≡ jp.minor
  pub nlink : ip.nlink ≡ jp.nlink
  pub size : ip.size ≡ jp.size
  pub addrs : (k : ℕ) → k < 13 → ip.addrs k ≡ jp.addrs k

store_fields-type :
    (b : Block) (at : ℕ) (ip : Inode) → ip.type < 2 ^ 16 → half (store_fields b at ip) at ≡ ip.type
store_fields-type b at ip l = ground (arith, l)

store_fields-major :
    (b : Block) (at : ℕ) (ip : Inode)
    → ip.major < 2 ^ 16
    → half (store_fields b at ip) (at + 2) ≡ ip.major
store_fields-major b at ip l = ground (arith, l)

store_fields-minor :
    (b : Block) (at : ℕ) (ip : Inode)
    → ip.minor < 2 ^ 16
    → half (store_fields b at ip) (at + 4) ≡ ip.minor
store_fields-minor b at ip l = ground (arith, l)

store_fields-nlink :
    (b : Block) (at : ℕ) (ip : Inode)
    → ip.nlink < 2 ^ 16
    → half (store_fields b at ip) (at + 6) ≡ ip.nlink
store_fields-nlink b at ip l = ground (arith, l)

store_fields-size :
    (b : Block) (at : ℕ) (ip : Inode)
    → ip.size < 2 ^ 32
    → word (store_fields b at ip) (at + 8) ≡ ip.size
store_fields-size b at ip l = ground (arith, l)

store_fields-Outside : (b : Block) (at : ℕ) (ip : Inode) → Outside at 12 b (store_fields b at ip)
store_fields-Outside b at ip i (inl l) = ground (arith, l)
store_fields-Outside b at ip i (inr l) = ground (arith, l)

store_inode-Outside : (b : Block) (at : ℕ) (ip : Inode) → Outside at 64 b (store_inode b at ip)
unfolding store_inode
store_inode-Outside b at ip k (inl l) =
    store_addrs-Outside 13 0 (store_fields b at ip) at ip.addrs k (inl (omega (arith, l)))
    ∙ store_fields-Outside b at ip k (inl l)
store_inode-Outside b at ip k (inr l) =
    store_addrs-Outside 13 0 (store_fields b at ip) at ip.addrs k (inr (omega (arith, l)))
    ∙ store_fields-Outside b at ip k (inr (omega (arith, l)))

-- What is read back from where an inode was stored.
pub load-store :
    (b : Block) (at : ℕ) (ip jp : Inode)
    → Fits ip
    → SameContents (load_inode (store_inode b at ip) at jp) ip
unfolding store_inode
load-store b at ip jp f = record {
  type =
      half-Outside (at + 12) 52 fields _ o at (inl (omega arith))
      ∙ store_fields-type b at ip f.type;
  major =
      half-Outside (at + 12) 52 fields _ o (at + 2) (inl (omega arith))
      ∙ store_fields-major b at ip f.major;
  minor =
      half-Outside (at + 12) 52 fields _ o (at + 4) (inl (omega arith))
      ∙ store_fields-minor b at ip f.minor;
  nlink =
      half-Outside (at + 12) 52 fields _ o (at + 6) (inl (omega arith))
      ∙ store_fields-nlink b at ip f.nlink;
  size =
      word-Outside (at + 12) 52 fields _ o (at + 8) (inl (omega arith))
      ∙ store_fields-size b at ip f.size;
  addrs = λ k l.
      store_addrs-word 13 0 fields at ip.addrs (λ j q. f.addrs j (omega arith)) k (omega arith)
        (omega arith);
}
  where
    fields : Block
    fields = store_fields b at ip

    o : Outside (at + 12) 52 fields (store_addrs 13 0 fields at ip.addrs)
    o k (inl l) = store_addrs-Outside 13 0 fields at ip.addrs k (inl (omega (arith, l)))
    o k (inr l) = store_addrs-Outside 13 0 fields at ip.addrs k (inr (omega (arith, l)))

-- Two blocks with the same 64 bytes from `at` on hold the same inode there.
pub load_inode-same :
    (b c : Block) (at : ℕ) (ip jp : Inode)
    → ((k : ℕ) → at ≤ k → k < at + 64 → c k ≡ b k)
    → SameContents (load_inode c at ip) (load_inode b at jp)
load_inode-same b c at ip jp h = record {
  type = same_half at (omega arith) (omega arith);
  major = same_half (at + 2) (omega arith) (omega arith);
  minor = same_half (at + 4) (omega arith) (omega arith);
  nlink = same_half (at + 6) (omega arith) (omega arith);
  size = same_word (at + 8) (omega arith) (omega arith);
  addrs = λ k l. same_word (at + 12 + 4 * k) (omega arith) (omega arith);
}
  where
    same_half : (i : ℕ) → at ≤ i → i + 2 ≤ at + 64 → half c i ≡ half b i
    same_half i l r =
        rw (h i (omega arith) (omega arith), h (i + 1) (omega arith) (omega arith)) refl

    same_word : (i : ℕ) → at ≤ i → i + 4 ≤ at + 64 → word c i ≡ word b i
    same_word i l r =
        rw
          (
            h i (omega arith) (omega arith),
            h (i + 1) (omega arith) (omega arith),
            h (i + 2) (omega arith) (omega arith),
            h (i + 3) (omega arith) (omega arith),
          )
          refl

pub SameContents-trans :
    (ip jp kp : Inode) → SameContents ip jp → SameContents jp kp → SameContents ip kp
SameContents-trans ip jp kp c d = record {
  type = c.type ∙ d.type;
  major = c.major ∙ d.major;
  minor = c.minor ∙ d.minor;
  nlink = c.nlink ∙ d.nlink;
  size = c.size ∙ d.size;
  addrs = λ k l. c.addrs k l ∙ d.addrs k l;
}
