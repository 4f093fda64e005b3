-- ===== src/Lexer/Words.antt =====
-- `lexWord`, `lexNumber` and `lexAnnotation` of compiler/Lexer/Lexer.cpp.
use three.Base.{◌∷◌, ◌++◌, ◌==◌, Option, none, some, if◌then◌else◌, Bytes, codes, bytes_eq, char_at}
use three.Token.Kind.{TokenType}
use three.Token.{Token}
use three.Subtoken.{number, type_eq}
use three.Lexer.Calls.{Call, ◌>>=◌, pure, fail, token, no_token, subtoken_peek, subtoken_advance}
use three.Lexer.Keywords.{keyword_map, annotation_map, find_type}

-- The type found in a map, or `type`.
unfoldable pub found_or : Option TokenType → TokenType → TokenType
found_or (some found) type = found
found_or none type = type

-- The type of a word: a literal with a base prefix, a keyword or an identifier.
unfoldable pub word_type : Bytes → TokenType
unfolding char_at found_or
word_type s =
    let named = found_or (find_type s keyword_map) TokenType.identifier in
    if char_at s 0 == b'0'
    then (if char_at s 1 == b'b'
        then TokenType.literal_binary
        else if char_at s 1 == b'x'
        then TokenType.literal_hex
        else named)
    else named

unfoldable pub lex_word : Call Token
unfolding word_type
lex_word = do t ← subtoken_advance; token (word_type t.str) t.str

unfoldable pub lex_number : Call Token
unfolding type_eq
lex_number = do
  whole ← subtoken_advance
  point ← subtoken_peek
  let real = (do
    dot ← subtoken_advance
    fraction ← subtoken_peek
    let digits = (do
      f ← subtoken_advance
      token TokenType.literal_real (whole.str ++ (dot.str ++ f.str)))
    if type_eq fraction.type number then digits else pure no_token)
  if bytes_eq point.str (codes ".") then real else token TokenType.literal_integer whole.str

unfoldable pub annotation_type : Bytes → TokenType
unfolding found_or
annotation_type s = found_or (find_type s annotation_map) TokenType.undefined

unfoldable pub lex_annotation : Call Token
unfolding annotation_type
lex_annotation = do
  mark ← subtoken_advance
  if bytes_eq mark.str (codes "@")
      then (do t ← subtoken_advance; token (annotation_type t.str) (b'@' ∷ t.str))
      else fail
