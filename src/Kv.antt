-- ===== src/Kv.antt =====
-- The key-value store of lab3 (lab3/kvstore.c, lab3/kvstore.h), without its monitor, which
-- Kv/Monitor.antt models. A bucket is the list of the entries on its chain, head first. Keys and
-- values are byte strings without the NUL.
pub mod Chain
pub mod Buckets
pub mod Write
pub mod Delete
pub mod Monitor
mod Tests
use neu_cs5600_cmpsys.Base.{
  ℕ, zero, suc, ◌+◌, ◌-◌, ◌*◌, ◌%◌, ◌^◌, Bool, true, false, List, [], ◌∷◌, Option, none, some, ltb,
  leb, ◌==◌, if◌then◌else◌, length, get_or, set, replicate, ◌++◌,
}
use neu_cs5600_cmpsys.Base.Bytes.{Bytes}
use neu_cs5600_cmpsys.Kv.Chain.{Entry, Bucket, read, overwrite, unlink, heads}

abbrev pub hb_max_size : ℕ
hb_max_size = 200

abbrev pub table_max : ℕ
table_max = 200

-- A `char` is signed: the conversion to `unsigned int` extends its sign.
pub extend : ℕ → ℕ
extend c = if ltb c 128 then c else c + 2 ^ 32 - 256

-- One round of the loop: `hash += (hash << 5) + *k++` on 32 bits.
hash_from : ℕ → Bytes → ℕ
hash_from hash [] = hash
hash_from hash (c ∷ k) = hash_from ((hash + (hash * 32 % 2 ^ 32 + extend c)) % 2 ^ 32) k

pub hash33 : Bytes → ℕ
unfolding hash_from extend
hash33 k = hash_from 5381 k % 2 ^ 31 % hb_max_size

pub record Kv : Type 0 where
  pub buckets : List Bucket
  pub size : ℕ

unfoldable pub kv_init : Kv
kv_init = record { buckets = replicate hb_max_size []; size = 0 }

-- The new entry, its `next` aside. `strcpy` into `key[32]` is undefined for a longer key.
pub kv_entry_init : Bytes → Bytes → Option Entry
kv_entry_init k v = if ltb (length k) 32 then some (k, v) else none

abbrev pub bucket : Kv → ℕ → Bucket
bucket kv i = get_or kv.buckets i []

pub kv_read : Kv → Bytes → Option Bytes
kv_read kv key = read key (bucket kv (hash33 key))

-- Puts a new entry in front of its chain.
pub insert : Kv → ℕ → Entry → Kv
insert kv index node = record {
  buckets = set kv.buckets index (node ∷ bucket kv index);
  size = kv.size + 1;
}

pub write_new : Kv → ℕ → Bytes → Bytes → Option (ℕ × Kv)
unfolding kv_entry_init insert
write_new kv index key val =
    if kv.size == table_max
    then some (1, kv)
    else elim (kv_entry_init key val) [ none ↦ none | some node ↦ some (0, insert kv index node) ]

-- The return code and the new store; `none` if the copy of the key overflows.
pub kv_write : Kv → Bytes → Bytes → Option (ℕ × Kv)
unfolding write_new
kv_write kv key val =
    let index = hash33 key in
    elim (read key (bucket kv index)) [
      | some old ↦
          some
            (0, record kv { buckets = set kv.buckets index (overwrite key val (bucket kv index)) })
      | none ↦ write_new kv index key val
    ]

-- If the first entry of the chain has the key, the bucket's pointer becomes NULL; else the entry
-- before the one with the key is linked to the one behind it.
pub kv_delete : Kv → Bytes → Kv
kv_delete kv key =
    let index = hash33 key in
    let chain = bucket kv index in
    elim (read key chain) [
      | none ↦ kv
      | some old ↦ record {
        buckets = set kv.buckets index (if heads key chain then [] else unlink key chain);
        size = kv.size - 1;
      }
    ]

-- The pairs in the order in which they are printed.
pub dump_from : List Bucket → List (Bytes × Bytes)
dump_from [] = []
dump_from (c ∷ cs) = c ++ dump_from cs

pub kv_dump : Kv → List (Bytes × Bytes)
unfolding dump_from
kv_dump kv = dump_from kv.buckets
