-- ===== src/Client/RoundTrip.antt =====
-- The client's calls and the server (lab3/dbclient.c, lab3/worker.c): what a set stores, a get
-- prints.
use neu_cs5600_cmpsys.Base.{
  ℕ, ◌+◌, ◌≡◌, ◌≢◌, ◌<◌, ◌⊎◌, refl, sym, ap, ◌∙◌, false, List, [], ◌∷◌, ◌++◌, none, some, arith,
  map, length,
}
use neu_cs5600_cmpsys.Base.Bytes.{Bytes, NoNul, codes, c_string}
use neu_cs5600_cmpsys.Base.Decimal.{decimal, decimal-NoNul, atoi-decimal, power_ten}
use neu_cs5600_cmpsys.Kv.{kv_read, table_max}
use neu_cs5600_cmpsys.Kv.Buckets.{IsValid}
use neu_cs5600_cmpsys.Server.{Server, Response, answers, received, handle_read, dispatch}
use neu_cs5600_cmpsys.Server.Receive.{dispatch-write-read}
use neu_cs5600_cmpsys.Server.Wire.{Struct, name_size, image, serve, c_string-put_string}
use neu_cs5600_cmpsys.Client.{named, do_set, do_get}
use neu_cs5600_cmpsys.Client.Replies.{joined}
use neu_cs5600_cmpsys.Client.Calls.{
  IsStruct, sized, sized-IsStruct, serve_whole, reply_bytes_okay, set_reads, named-IsStruct,
  request_of-sized,
}
use neu_cs5600_cmpsys.Client.Gets.{get_reads}

-- The server reads a request for a value by its name alone.
read_by_name :
    (t r : Server) (name digits : Bytes) (a : Response)
    → dispatch t (some (record { op_status = b'R'; name = name; len = [] })) [] []
      ≡ some (answers a r)
    → dispatch t (some (record { op_status = b'R'; name = name; len = digits })) [] []
      ≡ some (answers a r)
unfolding dispatch handle_read
read_by_name t r name digits a h = h

-- The client's part of a set that succeeds, with the reply that it reads.
abbrev pub Sets : Struct → Bytes → Bytes → Bytes → Struct → Type 0
Sets rq₀ errno name text reply =
    do_set rq₀ errno name text false (received (image reply))
    ≡ some (record {
      sent = image (sized (named rq₀ b'W' name) (length text)) ++ text;
      printed = codes "ok" ++ b'\n' ∷ [];
      result = b'K';
      data_read = [];
    })

-- The line that `do_get` prints of a value.
abbrev pub quoted : Bytes → Bytes
quoted text = codes "=" ++ b'"' ∷ (text ++ b'"' ∷ b'\n' ∷ [])

c_string_clean : (text : Bytes) → NoNul text → c_string text ≡ text
unfolding c_string
c_string_clean [] h = refl
c_string_clean (c ∷ text) h = ground (arith, c_string_clean text h.1, h.0)

module _ (s : Server) (valid : IsValid s.kv) (rq₀ rq₁ rq₂ : Struct) (errno : Bytes)
    (is₀ : IsStruct rq₀) (is₁ : IsStruct rq₁) (is₂ : IsStruct rq₂) where
  -- A client that sets a key of at most 30 characters to a text of fewer than ten million, not
  -- empty and with no NUL, in a server whose store is valid and has room for it. When the socket
  -- brings each request, the value and each reply in one read, the server answers `K` and the
  -- client prints ok. A get of that key that follows prints the text in quotes, in however many
  -- pieces the socket brings it. Sizes and texts go through the struct's arrays, whatever stood in
  -- them.
  pub set-get :
      (name : Bytes) (c : ℕ) (text buf buf' : Bytes) (ts : List Bytes)
      → length name < name_size
      → NoNul name
      → (s.kv.size < table_max) ⊎ (kv_read s.kv name ≢ none)
      → NoNul (c ∷ text)
      → length (c ∷ text) < power_ten 7
      → length buf ≡ length (c ∷ text) + 1
      → length buf' ≡ length (joined ts)
      → joined ts ≡ c ∷ text
      → (s' s'' : Server) × (w r : Struct) × (serve s rq₂
            (received (image (sized (named rq₀ b'W' name) (length (c ∷ text)))))
            buf
            (received (c ∷ text) ∷ [])
          ≡ some (image w ++ [], some s'))
        × Sets rq₀ errno name (c ∷ text) w
        × (serve s' rq₂ (received (image (sized (named rq₁ b'R' name) 0))) [] []
            ≡ some (image r ++ c ∷ text, some s''))
        × (do_get rq₁ errno name false (received (image r)) buf' (map received ts)
            ≡ some (record {
              sent = image (sized (named rq₁ b'R' name) 0);
              printed = quoted (c ∷ text);
              result = b'K';
              data_read = [];
            }))
  set-get name c text buf buf' ts fits clean room value small size size' whole =
      let n = length (c ∷ text) in
      let q = sized (named rq₀ b'W' name) n in
      let g = sized (named rq₁ b'R' name) 0 in
      let w = sized (record q { op_status = b'K' }) 0 in
      let r = sized (record g { op_status = b'K' }) n in
      let is_q : IsStruct q =
        sized-IsStruct (named rq₀ b'W' name) n (named-IsStruct name fits clean rq₀ b'W' is₀)
          small in
      let is_g : IsStruct g =
        sized-IsStruct (named rq₁ b'R' name) 0 (named-IsStruct name fits clean rq₁ b'R' is₁)
          (omega arith) in
      let (s', stored, (s'', found)) =
        dispatch-write-read s valid name (decimal n) buf c text (omega arith) room value size
          (atoi-decimal n) in
      let is_w : IsStruct w = sized-IsStruct (record q { op_status = b'K' }) 0 is_q (omega arith) in
      let is_r : IsStruct r = sized-IsStruct (record g { op_status = b'K' }) n is_g small in
      (
        s',
        s'',
        w,
        r,
        serve_whole s s' q rq₂ buf (image w ++ []) (received (c ∷ text) ∷ []) _ is_q is₂
            (ap (λ a. dispatch s (some a) buf (received (c ∷ text) ∷ []))
                (request_of-sized name fits clean rq₀ b'W' n)
              ∙ stored)
            (reply_bytes_okay q [] (omega arith)),
        set_reads rq₀ w errno name (c ∷ text) (named-IsStruct name fits clean rq₀ b'W' is₀) is_w
            small refl,
        serve_whole s' s'' g rq₂ [] (image r ++ c ∷ text) [] _ is_g is₂
            (ap (λ a. dispatch s' (some a) [] []) (request_of-sized name fits clean rq₁ b'R' 0)
              ∙ read_by_name s' s'' name (decimal 0) _ found)
            (reply_bytes_okay g (c ∷ text) small),
        get_reads rq₁ r errno name buf' ts false (named-IsStruct name fits clean rq₁ b'R' is₁) is_r
              refl
              (c_string-put_string (decimal n) g.len (decimal-NoNul n)
                ∙ ap (λ t. decimal (length t)) (sym whole))
              size'
            ∙ ap
                (λ (t : Bytes). some (record {
                  sent = image g;
                  printed = codes "=" ++ b'"' ∷ (t ++ b'"' ∷ b'\n' ∷ []);
                  result = b'K';
                  data_read = [];
                }))
                (ap c_string whole ∙ c_string_clean (c ∷ text) value),
      )
