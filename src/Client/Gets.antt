-- ===== src/Client/Gets.antt =====
-- A get whose reply was read whole (lab3/dbclient.c, do_get).
use neu_cs5600_cmpsys.Base.{
  ◌≡◌, refl, ap, ◌∙◌, Bool, true, false, List, [], ◌∷◌, ◌++◌, some, arith, if◌then◌else◌, map,
  length,
}
use neu_cs5600_cmpsys.Base.Bytes.{Bytes, codes, c_string}
use neu_cs5600_cmpsys.Base.Decimal.{decimal, atoi-decimal}
use neu_cs5600_cmpsys.Server.{received}
use neu_cs5600_cmpsys.Server.Wire.{Struct, image}
use neu_cs5600_cmpsys.Client.{named, get_value, get_reply, do_get}
use neu_cs5600_cmpsys.Client.Replies.{joined, get_data-joined}
use neu_cs5600_cmpsys.Client.Calls.{
  IsStruct, sized, sprintf_len-some, sized-IsStruct, struct_after-image, image_whole,
}

-- The value of a get, in the pieces that the reads bring.
pub get_value_reads :
    (rq : Struct) (errno buf : Bytes) (ts : List Bytes) (wanted : Bool)
    → c_string rq.len ≡ decimal (length (joined ts))
    → length buf ≡ length (joined ts)
    → get_value errno rq wanted buf (map received ts)
      ≡ some (
          if wanted
          then ([], joined ts)
          else (codes "=" ++ b'"' ∷ (c_string (joined ts) ++ b'"' ∷ b'\n' ∷ []), []))
unfolding get_value
get_value_reads rq errno buf ts wanted e h =
    rw (e, get_value, atoi-decimal (length (joined ts)), get_data-joined errno buf ts h) refl

abbrev pub shown : Bytes → Bytes
shown text = codes "=" ++ b'"' ∷ (c_string text ++ b'"' ∷ b'\n' ∷ [])

get_reply_okay :
    (rq rq' : Struct) (errno buf : Bytes) (ts : List Bytes) (wanted : Bool)
    → IsStruct rq'
    → rq'.op_status ≡ b'K'
    → c_string rq'.len ≡ decimal (length (joined ts))
    → length buf ≡ length (joined ts)
    → get_reply errno rq rq' wanted (received (image rq')) buf (map received ts)
      ≡ some (record {
        sent = image rq;
        printed = if wanted then [] else shown (joined ts);
        result = b'K';
        data_read = if wanted then joined ts else [];
      })
unfolding get_reply
get_reply_okay rq rq' errno buf ts false h k len size =
    rw (image_whole rq' h, get_reply, k, get_value_reads rq' errno buf ts false len size) refl
get_reply_okay rq rq' errno buf ts true h k len size =
    rw (image_whole rq' h, get_reply, k, get_value_reads rq' errno buf ts true len size) refl

-- A get whose reply was read whole, and is `K` with the length of what follows.
pub get_reads :
    (rq₀ rq : Struct) (errno name buf : Bytes) (ts : List Bytes) (wanted : Bool)
    → IsStruct (named rq₀ b'R' name)
    → IsStruct rq
    → rq.op_status ≡ b'K'
    → c_string rq.len ≡ decimal (length (joined ts))
    → length buf ≡ length (joined ts)
    → do_get rq₀ errno name wanted (received (image rq)) buf (map received ts)
      ≡ some (record {
        sent = image (sized (named rq₀ b'R' name) 0);
        printed = if wanted then [] else shown (joined ts);
        result = b'K';
        data_read = if wanted then joined ts else [];
      })
unfolding do_get
get_reads rq₀ rq errno name buf ts wanted h h' k len size =
    let q₀ = sized (named rq₀ b'R' name) 0 in
    rw (sprintf_len-some (named rq₀ b'R' name) 0 (omega arith)) (
      ap (λ (q : Struct). get_reply errno q₀ q wanted (received (image rq)) buf (map received ts))
        (struct_after-image q₀ rq (sized-IsStruct (named rq₀ b'R' name) 0 h (omega arith)) h')
      ∙ get_reply_okay q₀ rq errno buf ts wanted h' k len size)
