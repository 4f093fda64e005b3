-- ===== src/SubtokenLexer.antt =====
-- `SubtokenLexer` of compiler/Lexer/SubtokenLexer.h and SubtokenLexer.cpp. The stream is the list of
-- the bytes not yet read.
pub mod Scan
pub mod Shape
pub mod Splits
pub mod Sequence
pub mod Feed
use three.Base.{◌≡◌, Bool, true, Bytes, if◌then◌else◌, Outcome, ok, ◌>>=◌}
use three.Subtoken.{Subtoken, undefined, blank, type_eq}
use Scan.{advance}

pub record SubtokenLexer : Type 0 where
  pub potential_directive : Bool
  pub stream : Bytes
  pub subtoken : Subtoken

abbrev pub start : Bytes → SubtokenLexer
start stream = record { potential_directive = true; stream = stream; subtoken = blank }

-- `_subtoken = this->advance()`.
unfoldable pub refill : SubtokenLexer → Outcome SubtokenLexer
refill l = do
  (t, pd, rest) ← advance l.potential_directive l.stream
  ok (record { potential_directive = pd; stream = rest; subtoken = t })

unfoldable pub populate_subtoken_buffer : SubtokenLexer → Outcome SubtokenLexer
unfolding refill type_eq
populate_subtoken_buffer l = if type_eq l.subtoken.type undefined then refill l else ok l

unfoldable pub next : SubtokenLexer → Outcome (Subtoken × SubtokenLexer)
unfolding populate_subtoken_buffer refill
next l = do p ← populate_subtoken_buffer l; q ← refill p; ok (p.subtoken, q)

unfoldable pub peek : SubtokenLexer → Outcome (Subtoken × SubtokenLexer)
unfolding populate_subtoken_buffer
peek l = do p ← populate_subtoken_buffer l; ok (p.subtoken, p)
