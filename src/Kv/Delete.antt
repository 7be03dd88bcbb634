-- ===== src/Kv/Delete.antt =====
-- What `kv_delete` does (lab3/kvstore.c). When the entry found is the first of its chain the code
-- clears the bucket's pointer, so the entries behind it are lost and stay counted.
use neu_cs5600_cmpsys.Base.{
  ◌+◌, ◌-◌, ◌≤◌, ◌≡◌, ◌≢◌, refl, ◌∙◌, ap, true, false, [], inl, inr, none, some, arith, ◌==◌,
  if◌then◌else◌, length, set, length-set, Option-cases,
}
use neu_cs5600_cmpsys.Base.Bytes.{Bytes, streq, streq_iff}
use neu_cs5600_cmpsys.Kv.Chain.{
  Bucket, read, unlink, heads, count, read-unlink, count-unlink-le, length-unlink,
}
use neu_cs5600_cmpsys.Kv.Buckets.{IsValid, set-IsPlaced, read-set, length-set_dump}
use neu_cs5600_cmpsys.Kv.{Kv, hash33, kv_read, bucket, kv_delete}

module _ (kv : Kv) (valid : IsValid kv) (key : Bytes) where
  -- The chain that the deletion leaves in the bucket of a key that is there.
  left : Bucket
  left = if heads key (bucket kv (hash33 key)) then [] else unlink key (bucket kv (hash33 key))

  hash-streq : (q : Bytes) → streq key q ≡ true → hash33 key ≡ hash33 q
  hash-streq q e = ap hash33 ((streq_iff key q).0 e)

  kv_delete_found :
      (old : Bytes)
      → kv_read kv key ≡ some old
      → kv_delete kv key ≡ record { buckets = set kv.buckets (hash33 key) left; size = kv.size - 1 }
  unfolding kv_delete kv_read left
  kv_delete_found old e = ground arith

  kv_delete_missing : kv_read kv key ≡ none → kv_delete kv key ≡ kv
  unfolding kv_delete kv_read
  kv_delete_missing e = ground arith

  count-left-le : (q : Bytes) → count q left ≤ count q (bucket kv (hash33 key))
  unfolding left count
  count-left-le q = ground (arith, count-unlink-le key q (bucket kv (hash33 key)))

  length-left-lt :
      (old : Bytes) → kv_read kv key ≡ some old → length left + 1 ≤ length (bucket kv (hash33 key))
  unfolding left kv_read
  length-left-lt old e = ground (arith, length-unlink key (bucket kv (hash33 key)) old)

  left-IsValid :
      (old : Bytes)
      → kv_read kv key ≡ some old
      → IsValid (record { buckets = set kv.buckets (hash33 key) left; size = kv.size - 1 })
  left-IsValid old e = record {
    width = length-set kv.buckets (hash33 key) left ∙ valid.width;
    placed =
        set-IsPlaced valid key left
          (λ q. omega (arith, count-left-le q, (valid.placed q (hash33 key)).0))
          (λ q n. ground (arith, count-left-le q, valid.placed q (hash33 key)));
    counted =
        omega (
          arith,
          length-set_dump valid key left (kv.size - 1),
          length-left-lt old e,
          valid.counted,
        );
    limited = omega (arith, valid.limited);
  }

  -- Deleting keeps the invariant: buckets in place, and never more entries than `size`.
  pub kv_delete-IsValid : IsValid (kv_delete kv key)
  kv_delete-IsValid = elim (Option-cases (kv_read kv key)) [
    | inl e ↦ rw (kv_delete_missing e) valid
    | inr (old, e) ↦ rw (kv_delete_found old e) (left-IsValid old e)
  ]

  read-left :
      (q old : Bytes)
      → kv_read kv key ≡ some old
      → kv_read (kv_delete kv key) q
        ≡ (if hash33 key == hash33 q then read q left else kv_read kv q)
  read-left q old e = rw (kv_delete_found old e) (read-set valid key left (kv.size - 1) q)

  -- A key that does not stand first on its chain is deleted, and every other key reads as before.
  pub kv_read-delete :
      heads key (bucket kv (hash33 key)) ≡ false
      → (q : Bytes) → kv_read (kv_delete kv key) q ≡ (if streq key q then none else kv_read kv q)
  unfolding left kv_read
  kv_read-delete h q = elim (Option-cases (kv_read kv key)) [
    | inl e ↦ rw (kv_delete_missing e) (ground (arith, streq_iff key q))
    | inr (old, e) ↦
        read-left q old e
        ∙ ground (
          arith,
          read-unlink key q (bucket kv (hash33 key)),
          valid.placed key (hash33 key),
          hash-streq q,
        )
  ]

  -- Whatever its place, the deleted key is gone, and the keys of other buckets read as before.
  pub kv_read-delete_self :
      (kv_read (kv_delete kv key) key ≡ none)
      × ((q : Bytes) → hash33 key ≢ hash33 q → kv_read (kv_delete kv key) q ≡ kv_read kv q)
  unfolding left kv_read
  kv_read-delete_self = elim (Option-cases (kv_read kv key)) [
    | inl e ↦ rw (kv_delete_missing e) (e, λ q n. refl)
    | inr (old, e) ↦ (
      read-left key old e
          ∙ unfold read in
            ground (
              arith,
              read-unlink key key (bucket kv (hash33 key)),
              valid.placed key (hash33 key),
              streq_iff key key,
            ),
      λ q n. read-left q old e ∙ ground arith,
    )
  ]

  -- The defect: deleting a key that stands first on its chain makes every key of that bucket
  -- unreadable, while `size` falls by one only.
  pub kv_delete_drops :
      (old q : Bytes)
      → kv_read kv key ≡ some old
      → heads key (bucket kv (hash33 key)) ≡ true
      → hash33 q ≡ hash33 key
      → (kv_read (kv_delete kv key) q ≡ none) × ((kv_delete kv key).size + 1 ≡ kv.size)
  unfolding left read
  kv_delete_drops old q e h same = (
    read-left q old e ∙ ground arith,
    rw (kv_delete_found old e) (
        omega (
          arith,
          length-set_dump valid key left (kv.size - 1),
          length-left-lt old e,
          valid.counted,
        )),
  )
