-- ===== src/Lexer.antt =====
-- `Lexer` of compiler/Lexer/Lexer.h and Lexer.cpp: the token buffer over `advance`.
pub mod Keywords
pub mod Calls
pub mod Words
pub mod Punctuation
pub mod Advance
pub mod Buffer
pub mod Munch
pub mod Pending
pub mod Lookahead
pub mod Reading
pub mod Comments
pub mod Whole
pub mod Vocabulary
use three.Base.{ℕ, suc, ◌+◌, Bool, true, [], Bytes, length, Outcome}
use three.Token.Kind.{TokenType}
use three.Token.{Token}
use three.SubtokenLexer.{SubtokenLexer, start}
use Advance.{advance_token}
use Buffer.{TokenBuffer}

abbrev pub Lexer : Type 0
Lexer = TokenBuffer SubtokenLexer

-- `Lexer(stream)`.
abbrev pub new : Bytes → Lexer
new input = record { source = start input; tokens = []; filter_whitespace = true }

-- Every round of a loop takes a token from the buffer or reads one, and no more tokens than
-- characters are left before the end.
abbrev pub fuel_of : ℕ → Lexer → ℕ
fuel_of distance b = distance + (length b.tokens + (length b.source.stream + 3))

unfoldable pub next : Lexer → Outcome (Token × Lexer)
unfolding Buffer.next advance_token
next b = Buffer.next advance_token (fuel_of 0 b) b

unfoldable pub peek : ℕ → Lexer → Outcome (Token × Lexer)
unfolding Buffer.peek advance_token
peek distance b = Buffer.peek advance_token (fuel_of distance b) distance b

unfoldable pub next_if_str : Bytes → Lexer → Outcome (Bool × Lexer)
unfolding Buffer.next_if_str advance_token
next_if_str value b = Buffer.next_if_str advance_token (fuel_of 1 b) value b

unfoldable pub next_if_type : TokenType → Lexer → Outcome (Bool × Lexer)
unfolding Buffer.next_if_type advance_token
next_if_type type b = Buffer.next_if_type advance_token (fuel_of 1 b) type b

unfoldable pub at_end : Lexer → Outcome (Bool × Lexer)
unfolding Buffer.at_end advance_token
at_end b = Buffer.at_end advance_token (fuel_of 1 b) b
