-- ===== src/Client/Options/Keys.antt =====
-- What the command line guarantees of the keys (lab3/dbclient.c, `parse_opt` and `main`).
use neu_cs5600_cmpsys.Base.{
  ℕ, ◌≤◌, ◌≡◌, ◌≢◌, inl, inr, refl, Bool, true, false, List, [], ◌∷◌, Option, none, some, arith,
  ltb, ◌==◌, ◌&&◌, Bool-cases, if◌then◌else◌, length,
}
use neu_cs5600_cmpsys.Base.Bytes.{Bytes, atoi}
use neu_cs5600_cmpsys.Base.Int.{ℤ}
use neu_cs5600_cmpsys.Client.Options.{
  Op, op_none, op_set, op_get, op_delete, op_quit, op_test, Args, cleared, Event, init, logfile,
  quit, get, set, test, delete, count, port, argument, end, Parsed, exits, continues, is_zero,
  is_set, with_key, parse_opt, add_output, and_then, argp_parse, Action, sets, gets, deletes, quits,
  usage, tests, main_action,
}

abbrev needs_key : Op → Bool
needs_key op_none = false
needs_key op_set = true
needs_key op_get = true
needs_key op_delete = true
needs_key op_quit = false
needs_key op_test = false

abbrev AtMost : ℕ → Option Bytes → Type 0
AtMost n none = Unit
AtMost n (some s) = length s ≤ n

-- A key is there when the operation needs one, and it fits in `name`.
record HasKey (a : Args) : Type 0 where
  short : AtMost 30 a.key
  given : needs_key a.op ≡ true → a.key ≢ none

abbrev Keeps : Parsed → Type 0
Keeps (exits out) = Unit
Keeps (continues a out) = HasKey a

with_key-Keeps : (op : Op) (a : Args) (arg : Bytes) → Keeps (with_key op a arg)
with_key-Keeps op a arg = elim (Bool-cases (ltb 30 (length arg))) [
  | inl long ↦ rw long tt
  | inr short ↦ rw short (record { short = ground arith; given = λ _ e. ground arith })
]

if_Keeps : (b : Bool) (x y : Parsed) → Keeps x → Keeps y → Keeps (if b then x else y)
if_Keeps true x y h k = h
if_Keeps false x y h k = k

parse_opt-Keeps : (e : Event) (a : Args) → HasKey a → Keeps (parse_opt e a)
unfolding parse_opt
parse_opt-Keeps init a h = record { short = h.short; given = h.given }
parse_opt-Keeps (logfile opens) a h = if_Keeps opens _ _ h tt
parse_opt-Keeps quit a h = record { short = h.short; given = λ e. absurd (ground arith) }
parse_opt-Keeps (get arg) a h = with_key-Keeps op_get a arg
parse_opt-Keeps (set arg) a h = with_key-Keeps op_set a arg
parse_opt-Keeps (delete arg) a h = with_key-Keeps op_delete a arg
parse_opt-Keeps (test arg) a h =
    if_Keeps (is_zero (atoi arg)) _ _ tt
      (record { short = h.short; given = λ e. absurd (ground arith) })
parse_opt-Keeps count a h = h
parse_opt-Keeps (port arg) a h = record { short = h.short; given = h.given }
parse_opt-Keeps (argument n arg) a h =
    if_Keeps (n == 0 && is_set a.op) _ _ (record { short = h.short; given = h.given }) tt
parse_opt-Keeps end a h = h

add_output-Keeps : (out : Bytes) (p : Parsed) → Keeps p → Keeps (add_output out p)
add_output-Keeps out (exits out') k = tt
add_output-Keeps out (continues a out') k = k

and_then-Keeps :
    (p : Parsed) (next : Args → Parsed)
    → Keeps p
    → ((a : Args) → HasKey a → Keeps (next a))
    → Keeps (and_then p next)
and_then-Keeps (exits out) next k f = tt
and_then-Keeps (continues a out) next k f = add_output-Keeps out (next a) (f a k)

argp_parse-Keeps : (es : List Event) (a : Args) → HasKey a → Keeps (argp_parse es a)
unfolding argp_parse
argp_parse-Keeps [] a h = h
argp_parse-Keeps (e ∷ es) a h =
    and_then-Keeps (parse_opt e a) (λ a'. argp_parse es a') (parse_opt-Keeps e a h)
      (λ a' k. argp_parse-Keeps es a' k)

-- What `main` then does: a key of at most 30 characters, or the one undefined run.
abbrev pub Runs : Args → Option Action → Type 0
Runs a none = (a.op ≡ op_set) × (a.val ≡ none)
Runs a (some (sets key val)) = (length key ≤ 30) × (a.val ≡ some val)
Runs a (some (gets key)) = length key ≤ 30
Runs a (some (deletes key)) = length key ≤ 30
Runs a (some quits) = a.op ≡ op_quit
Runs a (some usage) = a.op ≡ op_none
Runs a (some (tests n)) = (a.op ≡ op_test) × (n ≡ a.nthreads)

abbrev args : ℤ → ℤ → Op → Option Bytes → Option Bytes → Args
args n p op key val = record { nthreads = n; port = p; op = op; key = key; val = val }

main_action-Runs :
    (n p : ℤ) (op : Op) (key val : Option Bytes)
    → HasKey (args n p op key val)
    → Runs (args n p op key val) (main_action (args n p op key val))
unfolding main_action
main_action-Runs n p op_none key val h = refl
main_action-Runs n p op_set none val h = absurd (h.given refl refl)
main_action-Runs n p op_set (some k) none h = (refl, refl)
main_action-Runs n p op_set (some k) (some v) h = (h.short, refl)
main_action-Runs n p op_get none val h = absurd (h.given refl refl)
main_action-Runs n p op_get (some k) val h = h.short
main_action-Runs n p op_delete none val h = absurd (h.given refl refl)
main_action-Runs n p op_delete (some k) val h = h.short
main_action-Runs n p op_quit key val h = refl
main_action-Runs n p op_test key val h = (refl, refl)

continues-HasKey : (q : Parsed) (a : Args) (out : Bytes) → q ≡ continues a out → Keeps q → HasKey a
continues-HasKey q a out e k = rw e at k

-- Whatever the options and their order, when the parser goes on to the end, `main` sets, gets or
-- deletes a key of at most 30 characters, or it quits, tests or prints the usage as the operation
-- says; the one undefined run is a set for which no value was given.
pub argp_parse-Runs :
    (es : List Event) (a : Args) (out : Bytes)
    → argp_parse es cleared ≡ continues a out
    → Runs a (main_action a)
argp_parse-Runs es a out e = main_action-Runs a.nthreads a.port a.op a.key a.val (
    continues-HasKey (argp_parse es cleared) a out e
      (argp_parse-Keeps es cleared (record { short = tt; given = λ q. absurd (ground arith) })))
