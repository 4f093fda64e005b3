-- ===== src/Lexer/Advance.antt =====
-- `Lexer::advance` of compiler/Lexer/Lexer.cpp: one token, comments left out.
use three.Base.{
  ℕ, zero, suc, Bool, true, false, ◌==◌, if◌then◌else◌, codes, char_at, length, out_of_fuel,
}
use three.Token.Kind.{TokenType}
use three.Token.{Token}
use three.Subtoken.{
  SubtokenType, Subtoken, newline, word, number, string, character, punctuation, comment,
  whitespace,
}
use three.Lexer.Calls.{
  Call, ◌>>=◌, ◌>>◌, pure, token, no_token, subtoken_peek, subtoken_advance, if_next,
  subtoken_advance_if_equal,
}
use three.Lexer.Punctuation.{
  lex_punctuation, lex_compound, lex_first, simple_type, lex_minus, lex_plus, lex_percent,
  lex_slash, lex_star, lex_equal, lex_less, lex_not, lex_greater, lex_and, lex_or, lex_xor,
}
use three.Lexer.Keywords.{find_type}
use three.Lexer.Words.{lex_word, lex_number, lex_annotation}
use three.SubtokenLexer.{peek, next}
use three.SubtokenLexer.Scan.{advance}

unfoldable pub is_comment : SubtokenType → Bool
is_comment comment = true
is_comment _ = false

-- The `while` loop: past the comments, to the subtoken behind them.
unfoldable pub skip_comments : ℕ → Call Subtoken
unfolding is_comment
skip_comments zero l = out_of_fuel
skip_comments (suc f) l =
    (do
      t ← subtoken_peek
      let rest = (do u ← subtoken_advance; skip_comments f)
      if is_comment t.type then rest else pure t)
      l

-- The `switch`. A directive, an undefined subtoken and the end of the input are left where they are.
unfoldable pub lex_subtoken : Subtoken → SubtokenType → Call Token
unfolding char_at
lex_subtoken t word = lex_word
lex_subtoken t number = lex_number
lex_subtoken t string = subtoken_advance >> token TokenType.literal_string t.str
lex_subtoken t character = subtoken_advance >> token TokenType.literal_character t.str
lex_subtoken t punctuation = if char_at t.str 0 == b'@' then lex_annotation else lex_punctuation
lex_subtoken t newline = subtoken_advance >> token TokenType.newline (codes "\n")
lex_subtoken t whitespace = subtoken_advance >> token TokenType.whitespace t.str
lex_subtoken t _ = pure no_token

-- There are at most as many comments as characters that are left, and one that was read before.
unfoldable pub advance_token : Call Token
unfolding skip_comments lex_subtoken lex_word lex_number lex_annotation lex_punctuation lex_compound
    lex_first simple_type lex_minus lex_plus lex_percent lex_slash lex_star lex_equal lex_less
    lex_not lex_greater lex_and lex_or lex_xor if_next subtoken_advance_if_equal subtoken_peek
    subtoken_advance peek next advance find_type
advance_token l = (do t ← skip_comments (suc (suc (length l.stream))); lex_subtoken t t.type) l
