-- ===== src/Client/Options.antt =====
-- The client's command line (lab3/dbclient.c, `parse_opt` and `main`). The parser of the C library
-- calls `parse_opt` with each option, in order; `argp_usage` ends the program.
pub mod Keys
use neu_cs5600_cmpsys.Base.{
  ℕ, Bool, true, false, List, [], ◌∷◌, ◌++◌, Option, none, some, ltb, ◌==◌, ◌&&◌, if◌then◌else◌,
  length,
}
use neu_cs5600_cmpsys.Base.Bytes.{Bytes, codes, atoi}
use neu_cs5600_cmpsys.Base.Int.{ℤ, pos, negsuc}

pub data Op : Type 0 where
  op_none op_set op_get op_delete op_quit op_test : Op

-- The fields that the program reads; `count`, `max` and the log file are set and not read.
pub record Args : Type 0 where
  pub nthreads : ℤ
  pub port : ℤ
  pub op : Op
  pub key : Option Bytes
  pub val : Option Bytes

-- After `memset`.
abbrev pub cleared : Args
cleared = record { nthreads = pos 0; port = pos 0; op = op_none; key = none; val = none }

-- What `parse_opt` is called with; an argument that is no option comes with its number.
pub data Event : Type 0 where
  init : Event
  logfile : Bool → Event
  quit : Event
  get : Bytes → Event
  set : Bytes → Event
  test : Bytes → Event
  delete : Bytes → Event
  count : Event
  port : Bytes → Event
  argument : ℕ → Bytes → Event
  end : Event

-- The program ends, or goes on; in both cases it has printed a text.
pub data Parsed : Type 0 where
  exits : Bytes → Parsed
  continues : Args → Bytes → Parsed

abbrev pub long_key : Bytes
long_key = codes "key must be <= 30 chars" ++ b'\n' ∷ []

abbrev pub is_zero : ℤ → Bool
is_zero (pos n) = n == 0
is_zero (negsuc n) = false

abbrev pub with_key : Op → Args → Bytes → Parsed
with_key op a arg =
    if ltb 30 (length arg)
    then exits long_key
    else continues (record a { op = op; key = some arg }) []

abbrev pub is_set : Op → Bool
is_set op_set = true
is_set op_none = false
is_set op_get = false
is_set op_delete = false
is_set op_quit = false
is_set op_test = false

unfoldable pub parse_opt : Event → Args → Parsed
unfolding atoi
parse_opt init a = continues (record a { nthreads = pos 1; port = pos 5600 }) []
parse_opt (logfile opens) a = if opens then continues a [] else exits []
parse_opt quit a = continues (record a { op = op_quit }) []
parse_opt (get arg) a = with_key op_get a arg
parse_opt (set arg) a = with_key op_set a arg
parse_opt (delete arg) a = with_key op_delete a arg
parse_opt (test arg) a =
    if is_zero (atoi arg)
    then exits (codes "#threads must be a number" ++ b'\n' ∷ [])
    else continues (record a { op = op_test; nthreads = atoi arg }) []
parse_opt count a = continues a []
parse_opt (port arg) a = continues (record a { port = atoi arg }) []
parse_opt (argument n arg) a =
    if n == 0 && is_set a.op
    then continues (record a { val = some arg }) (codes "val set to " ++ arg ++ b'\n' ∷ [])
    else exits []
parse_opt end a = continues a []

abbrev pub add_output : Bytes → Parsed → Parsed
add_output out (exits out') = exits (out ++ out')
add_output out (continues a out') = continues a (out ++ out')

abbrev pub and_then : Parsed → (Args → Parsed) → Parsed
and_then (exits out) next = exits out
and_then (continues a out) next = add_output out (next a)

-- All the calls, in order.
unfoldable pub argp_parse : List Event → Args → Parsed
unfolding parse_opt
argp_parse [] a = continues a []
argp_parse (e ∷ es) a = and_then (parse_opt e a) (λ a'. argp_parse es a')

-- What `main` calls.
pub data Action : Type 0 where
  sets : Bytes → Bytes → Action
  gets deletes : Bytes → Action
  quits usage : Action
  tests : ℤ → Action

-- `strlen` of a value that was not given is a read through NULL.
unfoldable pub main_action : Args → Option Action
main_action a = elim a.op [
  | op_set ↦ elim a.key [
    | none ↦ none
    | some key ↦ elim a.val [ none ↦ none | some val ↦ some (sets key val) ]
  ]
  | op_get ↦ elim a.key [ none ↦ none | some key ↦ some (gets key) ]
  | op_delete ↦ elim a.key [ none ↦ none | some key ↦ some (deletes key) ]
  | op_quit ↦ some quits
  | op_test ↦ some (tests a.nthreads)
  | op_none ↦ some usage
]
