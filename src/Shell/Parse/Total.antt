-- ===== src/Shell/Parse/Total.antt =====
-- The parser on a whole line (lab2/cmdparse.c): with three calls for each character of the line,
-- and two, it ends, and what it gives is a list of commands of the right shape.
use neu_cs5600_cmpsys.Base.{
  ℕ, zero, suc, ◌+◌, ◌*◌, ◌≤◌, ◌≡◌, refl, ◌⊎◌, inl, inr, false, length, arith,
}
use neu_cs5600_cmpsys.Base.Bytes.{Bytes}
use neu_cs5600_cmpsys.Shell.Token.{ParseState, parse_init}
use neu_cs5600_cmpsys.Shell.Parse.{
  Parsed, crash, unfinished, syntax_error, parsed, CommandList, null, cmd_alloc, parse_line,
  cmd_parse, cmd_line_parse,
}
use neu_cs5600_cmpsys.Shell.Parse.Shape.{IsLine}
use neu_cs5600_cmpsys.Shell.Parse.Progress.{Ends, then_parse-Ends}
use neu_cs5600_cmpsys.Shell.Parse.CommandEnds.{CmdPost, CmdEnds, LinePost, LineEnds, cmd_parse_step}
use neu_cs5600_cmpsys.Shell.Parse.ListEnds.{ConnectEnds, connect_step}
use neu_cs5600_cmpsys.Shell.Parse.Separators.{MayEnds, may_end_step}

cmd_line_parse_step : (f : ℕ) → CmdEnds f → ConnectEnds f → LineEnds (suc f)
unfolding cmd_line_parse cmd_alloc
cmd_line_parse_step f cmd conn before st in_parens n b h le le' w =
    let m = length st.position in
    then_parse-Ends (CmdPost m) (LinePost n b in_parens) (cmd_parse f cmd_alloc st) _
      (cmd cmd_alloc st m (omega arith) (record { few = omega arith; apart = refl; sub = tt })
        (inl (refl, omega arith)))
      λ c st' p. conn before c st' in_parens m n b (omega arith) le le' p.1 w p.0

-- The calls, for every fuel.
record AllEnd (f : ℕ) : Type 0 where
  cmd : CmdEnds f
  line : LineEnds f
  conn : ConnectEnds f
  may : MayEnds f

all_end : (f : ℕ) → AllEnd f
all_end zero = record {
  cmd = λ d st b h. absurd (omega arith);
  line = λ before st in_parens n b h. absurd (omega arith);
  conn = λ before c st in_parens m n b h. absurd (omega arith);
  may = λ before c st in_parens m n b h le le' s. absurd (omega (arith, s.0));
}
all_end (suc f) =
    let a = all_end f in
    record {
      cmd = cmd_parse_step f a.cmd a.line;
      line = cmd_line_parse_step f a.cmd a.conn;
      conn = λ before c st in_parens m n b h le le' s w v.
          connect_step f before c st in_parens m n b a.line a.may (omega arith) le le' s w v;
      may = λ before c st in_parens m n b h le le' s w v j.
          may_end_step f before c st in_parens m n b a.line h le le' s w v j;
    }

-- With three calls of fuel for each character of the line, and two, the parser always ends: with a
-- failed assertion, a syntax error, or a list of commands. Such a list has at least one command, an
-- operator that joins behind each but the last, and one that may end a line behind the last; and
-- each command has one to `max_tokens` arguments or a subshell, which is such a list again.
pub parse_line_total :
    (fuel : ℕ) (line : Bytes)
    → 3 * length line + 2 ≤ fuel
    → (parse_line fuel line ≡ crash)
      ⊎ (parse_line fuel line ≡ syntax_error)
      ⊎ ((l : CommandList) × (st : ParseState) × (parse_line fuel line ≡ parsed l st) × IsLine l)
unfolding parse_line parse_init
parse_line_total fuel line h = result (parse_line fuel line) refl (
    (all_end fuel).line null (parse_init line) false (length line) (length line) h (omega arith)
      (omega arith) tt)
  where
    result :
        (r : Parsed CommandList)
        → parse_line fuel line ≡ r
        → Ends (LinePost (length line) (length line) false) r
        → (parse_line fuel line ≡ crash)
          ⊎ (parse_line fuel line ≡ syntax_error)
          ⊎ ((l : CommandList) × (st : ParseState) × (parse_line fuel line ≡ parsed l st)
              × IsLine l)
    result crash e p = inl e
    result unfinished e p = absurd p
    result syntax_error e p = inr (inl e)
    result (parsed l st) e p = inr (inr (l, st, e, p.0))
