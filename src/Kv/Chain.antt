-- ===== src/Kv/Chain.antt =====
-- One chain of the table (`key_entry_t`, lab3/kvstore.c): the search loop, the overwrite of the
-- entry found, and its removal from the chain.
use neu_cs5600_cmpsys.Base.{
  ℕ, ◌+◌, ◌≤◌, ◌≡◌, refl, Bool, false, List, [], ◌∷◌, Option, none, some, arith, if◌then◌else◌,
  length,
}
use neu_cs5600_cmpsys.Base.Bytes.{Bytes, streq, streq_iff}

abbrev pub Entry : Type 0
Entry = Bytes × Bytes

abbrev pub Bucket : Type 0
Bucket = List Entry

-- `while (h && 0 != strcmp(h->key, key)) h = h->next`, and the value of the entry found
unfoldable pub read : Bytes → Bucket → Option Bytes
read key [] = none
read key ((k, v) ∷ c) = if streq k key then some v else read key c

-- `h->value = val` for the entry found
unfoldable pub overwrite : Bytes → Bytes → Bucket → Bucket
overwrite key val [] = []
overwrite key val ((k, v) ∷ c) = if streq k key then (k, val) ∷ c else (k, v) ∷ overwrite key val c

-- `prev->next = h->next` for the entry found
unfoldable pub unlink : Bytes → Bucket → Bucket
unlink key [] = []
unlink key ((k, v) ∷ c) = if streq k key then c else (k, v) ∷ unlink key c

-- `prev == h`: the loop stopped at the head
unfoldable pub heads : Bytes → Bucket → Bool
heads key [] = false
heads key ((k, v) ∷ c) = streq k key

-- How many entries hold the key.
unfoldable pub count : Bytes → Bucket → ℕ
count key [] = 0
count key ((k, v) ∷ c) = (if streq k key then 1 else 0) + count key c

pub read-overwrite :
    (key q val : Bytes) (c : Bucket) (old : Bytes)
    → read key c ≡ some old
    → read q (overwrite key val c) ≡ (if streq key q then some val else read q c)
unfolding read overwrite
read-overwrite key q val [] old h = absurd (ground arith)
read-overwrite key q val ((k, v) ∷ c) old h =
    ground (arith, read-overwrite key q val c old, streq_iff k key, streq_iff key q, streq_iff k q)

pub count-overwrite : (key q val : Bytes) (c : Bucket) → count q (overwrite key val c) ≡ count q c
unfolding count overwrite
count-overwrite key q val [] = refl
count-overwrite key q val ((k, v) ∷ c) = ground (arith, count-overwrite key q val c)

pub length-overwrite : (key val : Bytes) (c : Bucket) → length (overwrite key val c) ≡ length c
unfolding overwrite
length-overwrite key val [] = refl
length-overwrite key val ((k, v) ∷ c) = ground (arith, length-overwrite key val c)

pub read-eq-none : (q : Bytes) (c : Bucket) → count q c ≡ 0 → read q c ≡ none
unfolding count read
read-eq-none q [] h = refl
read-eq-none q ((k, v) ∷ c) h = ground (arith, read-eq-none q c)

pub count-eq-zero : (q : Bytes) (c : Bucket) → read q c ≡ none → count q c ≡ 0
unfolding count read
count-eq-zero q [] h = refl
count-eq-zero q ((k, v) ∷ c) h = ground (arith, count-eq-zero q c)

pub read-unlink :
    (key q : Bytes) (c : Bucket)
    → count key c ≤ 1
    → read q (unlink key c) ≡ (if streq key q then none else read q c)
unfolding read unlink count
read-unlink key q [] h = ground arith
read-unlink key q ((k, v) ∷ c) h =
    ground (
      arith,
      read-unlink key q c,
      read-eq-none q c,
      streq_iff k key,
      streq_iff key q,
      streq_iff k q,
    )

pub count-unlink-le : (key q : Bytes) (c : Bucket) → count q (unlink key c) ≤ count q c
unfolding count unlink
count-unlink-le key q [] = omega arith
count-unlink-le key q ((k, v) ∷ c) = ground (arith, count-unlink-le key q c)

pub length-unlink :
    (key : Bytes) (c : Bucket) (old : Bytes)
    → read key c ≡ some old
    → length (unlink key c) + 1 ≡ length c
unfolding read unlink
length-unlink key [] old h = absurd (ground arith)
length-unlink key ((k, v) ∷ c) old h = ground (arith, length-unlink key c old)
