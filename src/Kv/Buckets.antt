-- ===== src/Kv/Buckets.antt =====
-- The invariant of the table, and what a write to one bucket does to lookups and to the number of
-- entries.
use neu_cs5600_cmpsys.Base.{
  ℕ, zero, suc, ◌+◌, ◌≤◌, ◌<◌, ◌≡◌, ◌≢◌, List, [], ◌∷◌, arith, ◌==◌, if◌then◌else◌, length, get_or,
  set, get_or-set, length-append,
}
use neu_cs5600_cmpsys.Base.Bytes.{Bytes}
use neu_cs5600_cmpsys.Kv.Chain.{Bucket, read, count}
use neu_cs5600_cmpsys.Kv.{Kv, hash33, hb_max_size, table_max, kv_read, bucket, dump_from, kv_dump}

pub hash33-lt : (k : Bytes) → hash33 k < hb_max_size
unfolding hash33
hash33-lt k = omega arith

-- A key is held at most once, and only in the bucket that it hashes to.
abbrev pub IsPlaced : List Bucket → Type 0
IsPlaced bs =
    (q : Bytes) (i : ℕ)
    → (count q (get_or bs i []) ≤ 1) × (hash33 q ≢ i → count q (get_or bs i []) ≡ 0)

pub record IsValid (kv : Kv) : Type 0 where
  pub width : length kv.buckets ≡ hb_max_size
  pub placed : IsPlaced kv.buckets
  pub counted : length (kv_dump kv) ≤ kv.size
  pub limited : kv.size ≤ table_max

pub length-dump_set :
    (bs : List Bucket) (i : ℕ) (c : Bucket)
    → i < length bs
    → length (dump_from (set bs i c)) + length (get_or bs i []) ≡ length (dump_from bs) + length c
unfolding dump_from
length-dump_set [] i c h = absurd (omega arith)
length-dump_set (b ∷ bs) zero c h =
    omega (arith, length-append b (dump_from bs), length-append c (dump_from bs))
length-dump_set (b ∷ bs) (suc i) c h = omega (
  arith,
  length-dump_set bs i c (omega arith),
  length-append b (dump_from bs),
  length-append b (dump_from (set bs i c)),
)

module _ {kv : Kv} (valid : IsValid kv) (key : Bytes) where
  home-lt : hash33 key < length kv.buckets
  home-lt = omega (arith, valid.width, hash33-lt key)

  -- What every write does: the home bucket of `key` becomes some `c`.
  pub set-IsPlaced :
      (c : Bucket)
      → ((q : Bytes) → count q c ≤ 1)
      → ((q : Bytes) → hash33 q ≢ hash33 key → count q c ≡ 0)
      → IsPlaced (set kv.buckets (hash33 key) c)
  set-IsPlaced c few away q i =
      rw (get_or-set kv.buckets (hash33 key) i c [] home-lt)
        (ground (arith, valid.placed q i, few q, away q))

  pub read-set :
      (c : Bucket) (n : ℕ) (q : Bytes)
      → kv_read (record { buckets = set kv.buckets (hash33 key) c; size = n }) q
        ≡ (if hash33 key == hash33 q then read q c else kv_read kv q)
  unfolding kv_read
  read-set c n q = rw (get_or-set kv.buckets (hash33 key) (hash33 q) c [] home-lt) (ground arith)

  pub length-set_dump :
      (c : Bucket) (n : ℕ)
      → length (kv_dump (record { buckets = set kv.buckets (hash33 key) c; size = n }))
          + length (bucket kv (hash33 key))
        ≡ length (kv_dump kv) + length c
  unfolding kv_dump
  length-set_dump c n = length-dump_set kv.buckets (hash33 key) c home-lt
