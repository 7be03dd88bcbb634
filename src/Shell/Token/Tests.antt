-- ===== src/Shell/Token/Tests.antt =====
-- Concrete tokens (lab2/cmdparse.c).
use neu_cs5600_cmpsys.Base.{◌≡◌, some, arith}
use neu_cs5600_cmpsys.Base.Bytes.{codes, streq, skip_spaces, isspace}
use neu_cs5600_cmpsys.Shell.Token.{
  ParseState, parse_init, parse_gettoken, parse_ungettoken, gettoken_at, scan, special, is_special,
  finish_token, classify,
}
use neu_cs5600_cmpsys.Shell.Token.Laws.{GetsToken, parse_gettoken-GetsToken, ungettoken-gettoken}

abbrev line : ParseState
line = parse_init (codes " ls>out")

parse_gettoken-GetsToken_example : GetsToken line (parse_gettoken line)
parse_gettoken-GetsToken_example = parse_gettoken-GetsToken line

ungettoken-gettoken_example :
    (st' : ParseState) × (parse_ungettoken (parse_gettoken line).0 ≡ some st')
    × (st'.position ≡ line.position)
    × ((parse_gettoken st').1 ≡ (parse_gettoken line).1)
unfolding parse_init parse_gettoken gettoken_at scan special is_special finish_token classify streq
    skip_spaces isspace
ungettoken-gettoken_example = ungettoken-gettoken line (ground arith)
