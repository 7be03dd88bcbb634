-- ===== src/Client/Replies.antt =====
-- The value that the client reads of a reply (lab3/dbclient.c, do_get).
use neu_cs5600_cmpsys.Base.{
  ℕ, ◌+◌, ◌≡◌, ◌≤◌, refl, sym, ap, ◌∙◌, false, List, [], ◌∷◌, ◌++◌, some, arith, ltb, Bool-cases,
  inl, inr, map, length, length-append, length-take, length-drop, take, drop,
}
use mathlib.Core.List.{append_assoc, append-nil}
use neu_cs5600_cmpsys.Base.Bytes.{Bytes}
use neu_cs5600_cmpsys.Server.{received}
use neu_cs5600_cmpsys.Client.{store_at, get_data}

abbrev pub joined : List Bytes → Bytes
joined [] = []
joined (t ∷ ts) = t ++ joined ts

take_all : (s : Bytes) → take (length s) s ≡ s
take_all [] = refl
take_all (c ∷ s) = ap (λ (t : Bytes). c ∷ t) (take_all s)

take-append : (a b : Bytes) → take (length a) (a ++ b) ≡ a
take-append [] b = refl
take-append (c ∷ a) b = ap (λ (t : Bytes). c ∷ t) (take-append a b)

length-nil : (s : Bytes) → length s ≡ 0 → s ≡ []
length-nil [] h = refl
length-nil (c ∷ s) h = absurd (omega arith)

-- The buffer up to the end of what was stored.
store_at_front :
    (at : ℕ) (text buf : Bytes)
    → at + length text ≤ length buf
    → take (at + length text) (store_at at text buf) ≡ take at buf ++ text
store_at_front at text buf h =
    let e : length (take at buf ++ text) ≡ at + length text =
      length-append (take at buf) text ∙ ground (arith, length-take at buf) in
    ap (λ n. take n (store_at at text buf)) (sym e)
    ∙ take-append (take at buf ++ text) (drop (at + length text) buf)

length-store_at :
    (at : ℕ) (text buf : Bytes)
    → at + length text ≤ length buf
    → length (store_at at text buf) ≡ length buf
length-store_at at text buf h =
    length-append (take at buf ++ text) (drop (at + length text) buf)
    ∙ ground (
      arith,
      length-append (take at buf) text,
      length-take at buf,
      length-drop (at + length text) buf,
    )

module _ (errno : Bytes) where
  -- The loop puts together what the reads bring, in however many pieces, and pieces of nothing
  -- among them.
  get_data_from :
      (len at : ℕ) (buf : Bytes) (ts : List Bytes)
      → length buf ≡ len
      → at + length (joined ts) ≡ len
      → get_data errno len at buf (map received ts) ≡ some ([], take at buf ++ joined ts)
  unfolding get_data
  get_data_from len at buf [] h f =
      let e : at ≡ length buf = omega (arith, f, h) in
      let done : ltb at len ≡ false = ground (arith, f) in
      rw (done, append-nil, e) (ap (λ b. some ([], b)) (sym (take_all buf)))
  get_data_from len at buf (t ∷ ts) h f = elim (Bool-cases (ltb at len)) [
    | inl on ↦
        let n = length-append t (joined ts) in
        let i =
          get_data_from len (at + length t) (store_at at t buf) ts
            (length-store_at at t buf (omega (arith, n, f, h)) ∙ h) (omega (arith, n, f)) in
        rw (on, i, store_at_front at t buf (omega (arith, n, f, h)), append_assoc) refl
    | inr off ↦
        let at_end : at ≡ len = ground (arith, f) in
        let e : at ≡ length buf = omega (arith, at_end, h) in
        rw (off, length-nil (joined (t ∷ ts)) (omega (arith, f, at_end)), append-nil, e)
          (ap (λ b. some ([], b)) (sym (take_all buf)))
  ]

  pub get_data-joined :
      (buf : Bytes) (ts : List Bytes)
      → length buf ≡ length (joined ts)
      → get_data errno (length (joined ts)) 0 buf (map received ts) ≡ some ([], joined ts)
  get_data-joined buf ts h = get_data_from (length (joined ts)) 0 buf ts h (omega arith)
