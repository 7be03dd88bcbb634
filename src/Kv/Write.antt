-- ===== src/Kv/Write.antt =====
-- What `kv_write` does on every branch (lab3/kvstore.c).
use neu_cs5600_cmpsys.Base.{
  ℕ, ◌+◌, ◌<◌, ◌≡◌, ◌≢◌, refl, ◌∙◌, sym, ap, true, [], ◌⊎◌, inl, inr, ◌∷◌, none, some, arith, ◌==◌,
  if◌then◌else◌, length, set, length-set, get_or-replicate, length-replicate, Option-cases,
  Bool-cases,
}
use neu_cs5600_cmpsys.Base.Bytes.{Bytes, streq, streq_iff}
use mathlib.Core.Option.{some-injective}
use mathlib.Core.Path.{subst}
use neu_cs5600_cmpsys.Kv.Chain.{
  Bucket, read, overwrite, count, count-eq-zero, read-overwrite, count-overwrite, length-overwrite,
}
use neu_cs5600_cmpsys.Kv.Buckets.{IsValid, set-IsPlaced, read-set, length-set_dump}
use neu_cs5600_cmpsys.Kv.{
  Kv, hash33, hb_max_size, table_max, kv_read, kv_init, kv_entry_init, insert, write_new, bucket,
  kv_write, kv_dump, dump_from,
}

-- `kv` after a write of `val` at `key`: valid, and every other key reads as before.
pub record Writes (kv : Kv) (key val : Bytes) (kv' : Kv) : Type 0 where
  pub valid : IsValid kv'
  pub reads : (q : Bytes) → kv_read kv' q ≡ (if streq key q then some val else kv_read kv q)

module _ (kv : Kv) (valid : IsValid kv) (key val : Bytes) where
  hash-streq : (q : Bytes) → streq key q ≡ true → hash33 key ≡ hash33 q
  hash-streq q e = ap hash33 ((streq_iff key q).0 e)

  overwrite-Writes :
      (old : Bytes)
      → kv_read kv key ≡ some old
      → Writes kv key val (record kv {
        buckets = set kv.buckets (hash33 key) (overwrite key val (bucket kv (hash33 key)));
      })
  unfolding kv_read
  overwrite-Writes old e =
      let chain = bucket kv (hash33 key) in
      let c = overwrite key val chain in
      record {
        valid = record {
          width = length-set kv.buckets (hash33 key) c ∙ valid.width;
          placed =
              set-IsPlaced valid key c
                (λ q.
                  omega (arith, count-overwrite key q val chain, (valid.placed q (hash33 key)).0))
                (λ q n. count-overwrite key q val chain ∙ (valid.placed q (hash33 key)).1 n);
          counted = omega (
            arith,
            length-set_dump valid key c kv.size,
            length-overwrite key val chain,
            valid.counted,
          );
          limited = valid.limited;
        };
        reads = λ q.
            read-set valid key c kv.size q
            ∙ ground (arith, read-overwrite key q val chain old, hash-streq q);
      }

  insert-Writes :
      kv_read kv key ≡ none
      → kv.size < table_max
      → Writes kv key val (insert kv (hash33 key) (key, val))
  unfolding kv_read insert read count
  insert-Writes e room =
      let chain = bucket kv (hash33 key) in
      let c = (key, val) ∷ chain in
      record {
        valid = record {
          width = length-set kv.buckets (hash33 key) c ∙ valid.width;
          placed =
              set-IsPlaced valid key c
                (λ q.
                  ground
                    (arith, valid.placed q (hash33 key), count-eq-zero q chain, streq_iff key q))
                (λ q n. ground (arith, valid.placed q (hash33 key), hash-streq q));
          counted = omega (arith, length-set_dump valid key c (kv.size + 1), valid.counted);
          limited = omega arith;
        };
        reads = λ q. read-set valid key c (kv.size + 1) q ∙ ground (arith, hash-streq q);
      }

  -- A key that fits `key[32]` and that the store holds, or that it has room for, is written.
  pub kv_write-Writes :
      length key < 32
      → (kv.size < table_max) ⊎ (kv_read kv key ≢ none)
      → (kv' : Kv) × (kv_write kv key val ≡ some (0, kv')) × Writes kv key val kv'
  unfolding kv_write write_new kv_entry_init kv_read
  kv_write-Writes fits ok = elim (Option-cases (kv_read kv key)) [
    | inl e ↦ (insert kv (hash33 key) (key, val), ground arith, insert-Writes e (ground arith))
    | inr (old, e) ↦ (
      record kv {
        buckets = set kv.buckets (hash33 key) (overwrite key val (bucket kv (hash33 key)));
      },
      ground arith,
      overwrite-Writes old e,
    )
  ]

  -- A new key in a full store is refused with code 1, and the store does not change.
  pub kv_write_full :
      kv.size ≡ table_max → kv_read kv key ≡ none → kv_write kv key val ≡ some (1, kv)
  unfolding kv_write write_new kv_read
  kv_write_full full absent = ground arith

-- The empty store satisfies the invariant and holds no key.
pub kv_init-IsValid : IsValid kv_init × ((q : Bytes) → kv_read kv_init q ≡ none)
unfolding kv_init kv_read count read kv_dump dump_from
kv_init-IsValid = (
  record {
    width = length-replicate {A = Bucket} hb_max_size [];
    placed = λ q i. rw (get_or-replicate {A = Bucket} 200 i []) (ground arith);
    counted = omega arith;
    limited = omega arith;
  },
  λ q. rw (get_or-replicate {A = Bucket} 200 (hash33 q) []) refl,
)

result-IsValid : (r t : ℕ × Kv) → some r ≡ some t → IsValid t.1 → IsValid r.1
result-IsValid r t e v = subst (λ (x : ℕ × Kv). IsValid x.1) (sym (some-injective r t e)) v

-- Whatever `kv_write` returns, the store keeps its invariant.
pub kv_write-IsValid :
    (kv : Kv) (key val : Bytes) (r : ℕ × Kv)
    → IsValid kv
    → length key < 32
    → kv_write kv key val ≡ some r
    → IsValid r.1
kv_write-IsValid kv key val r valid fits run = elim (Option-cases (kv_read kv key)) [
  | inr (old, e) ↦
      let (kv', run', w) = kv_write-Writes kv valid key val fits (inr (ground (arith, e))) in
      result-IsValid r (0, kv') (sym run ∙ run') w.valid
  | inl e ↦ elim (Bool-cases (kv.size == table_max)) [
    | inl full ↦
        result-IsValid r (1, kv) (sym run ∙ kv_write_full kv valid key val (ground arith) e) valid
    | inr roomy ↦
        let room : kv.size < table_max = ground (arith, valid.limited) in
        let (kv', run', w) = kv_write-Writes kv valid key val fits (inl room) in
        result-IsValid r (0, kv') (sym run ∙ run') w.valid
  ]
]
