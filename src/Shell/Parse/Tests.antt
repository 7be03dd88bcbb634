-- ===== src/Shell/Parse/Tests.antt =====
-- A concrete line that the parser fails on (lab2/cmdparse.c).
use neu_cs5600_cmpsys.Base.{◌≡◌, refl, ◌⊎◌, arith}
use neu_cs5600_cmpsys.Base.Bytes.{Bytes, codes}
use neu_cs5600_cmpsys.Shell.Parse.{crash, syntax_error, parsed, CommandList, parse_line}
use neu_cs5600_cmpsys.Shell.Parse.Crash.{parse_line_crash}
use neu_cs5600_cmpsys.Shell.Parse.Shape.{IsLine}
use neu_cs5600_cmpsys.Shell.Parse.Total.{parse_line_total}
use neu_cs5600_cmpsys.Shell.Token.{ParseState}

parse_line_crash_example : parse_line 2 (codes "\"ls") ≡ crash
parse_line_crash_example = parse_line_crash 0 (codes "ls") (refl, (refl, tt))

abbrev grouped_line : Bytes
grouped_line = codes "(a;b)>f && c&"

parse_line_total_example :
    (parse_line 41 grouped_line ≡ crash)
    ⊎ (parse_line 41 grouped_line ≡ syntax_error)
    ⊎ ((l : CommandList) × (st : ParseState) × (parse_line 41 grouped_line ≡ parsed l st)
        × IsLine l)
parse_line_total_example = parse_line_total 41 grouped_line (omega arith)
