-- ===== src/Client/Tests.antt =====
-- Concrete calls of the client (lab3/dbclient.c).
use neu_cs5600_cmpsys.Base.{
  false, ◌≡◌, refl, List, [], ◌∷◌, ◌++◌, none, some, inl, arith, map, replicate,
}
use neu_cs5600_cmpsys.Base.Bytes.{Bytes, codes}
use neu_cs5600_cmpsys.Base.Int.{pos}
use neu_cs5600_cmpsys.Kv.{kv_init}
use neu_cs5600_cmpsys.Kv.Write.{kv_init-IsValid}
use neu_cs5600_cmpsys.Server.{Server, received}
use neu_cs5600_cmpsys.Server.Wire.{Struct, image, serve}
use neu_cs5600_cmpsys.Client.{named, get_data, do_get}
use neu_cs5600_cmpsys.Client.Options.{
  op_set, Args, cleared, init, set, get, argument, end, continues, exits, long_key, parse_opt,
  argp_parse, main_action,
}
use neu_cs5600_cmpsys.Client.Options.Keys.{Runs, argp_parse-Runs}
use neu_cs5600_cmpsys.Client.Replies.{get_data-joined}
use neu_cs5600_cmpsys.Client.Calls.{sized}
use neu_cs5600_cmpsys.Client.RoundTrip.{Sets, quoted, set-get}

-- A struct with something in its arrays.
abbrev old_struct : Struct
old_struct = record { op_status = 7; name = replicate 31 9; len = replicate 8 5 }

abbrev new_server : Server
new_server = record {
  kv = kv_init;
  stats = record { n_writes = 0; n_reads = 0; n_deletes = 0; n_fails = 0 };
}

abbrev pieces : List Bytes
pieces = codes "h" ∷ [] ∷ codes "i!" ∷ []

get_data-joined_example :
    get_data [] 3 0 (0 ∷ 0 ∷ 0 ∷ []) (map received pieces) ≡ some ([], codes "hi!")
get_data-joined_example = get_data-joined [] (0 ∷ 0 ∷ 0 ∷ []) pieces refl

set-get_example :
    (s' s'' : Server) × (w r : Struct) × (serve new_server old_struct
        (received (image (sized (named old_struct b'W' (codes "a")) 3)))
        (9 ∷ 9 ∷ 9 ∷ 9 ∷ [])
        (received (codes "hi!") ∷ [])
      ≡ some (image w ++ [], some s'))
    × Sets old_struct [] (codes "a") (codes "hi!") w
    × (serve s' old_struct (received (image (sized (named old_struct b'R' (codes "a")) 0))) [] []
        ≡ some (image r ++ codes "hi!", some s''))
    × (do_get old_struct []
          (codes "a")
          false
          (received (image r))
          (0 ∷ 0 ∷ 0 ∷ [])
          (map received pieces)
        ≡ some (record {
          sent = image (sized (named old_struct b'R' (codes "a")) 0);
          printed = quoted (codes "hi!");
          result = b'K';
          data_read = [];
        }))
unfolding kv_init
set-get_example =
    set-get new_server kv_init-IsValid.0 old_struct old_struct old_struct [] (refl, refl)
      (refl, refl) (refl, refl) (codes "a") b'h' (codes "i!") (9 ∷ 9 ∷ 9 ∷ 9 ∷ []) (0 ∷ 0 ∷ 0 ∷ [])
      pieces (omega arith) (ground arith, tt) (inl (omega arith))
      (ground arith, (ground arith, (ground arith, tt))) (omega arith) refl refl refl

abbrev set_args : Args
set_args = record {
  nthreads = pos 1;
  port = pos 5600;
  op = op_set;
  key = some (codes "k");
  val = some (codes "v");
}

parsed :
    argp_parse (init ∷ set (codes "k") ∷ argument 0 (codes "v") ∷ end ∷ []) cleared
    ≡ continues set_args (codes "val set to v" ++ b'\n' ∷ [])
unfolding argp_parse parse_opt
parsed = refl

argp_parse-Runs_example : Runs set_args (main_action set_args)
argp_parse-Runs_example =
    argp_parse-Runs (init ∷ set (codes "k") ∷ argument 0 (codes "v") ∷ end ∷ []) set_args
      (codes "val set to v" ++ b'\n' ∷ []) parsed

-- A set with no value, and a key that is too long.
no_value :
    argp_parse (init ∷ set (codes "k") ∷ end ∷ []) cleared
    ≡ continues (record set_args { val = none }) []
unfolding argp_parse parse_opt
no_value = refl

crashes : main_action (record set_args { val = none }) ≡ none
unfolding main_action
crashes = refl

too_long : argp_parse (init ∷ get (replicate 31 b'k') ∷ end ∷ []) cleared ≡ exits long_key
unfolding argp_parse parse_opt
too_long = refl
