-- ===== src/Lexer/Punctuation.antt =====
-- `lexPunctuation` of compiler/Lexer/Lexer.cpp.
use three.Base.{ℕ, [], ◌∷◌, ◌==◌, Option, none, some, if◌then◌else◌, codes, char_at}
use three.Token.Kind.{TokenType}
use three.Token.{Token}
use three.Lexer.Calls.{Call, ◌>>=◌, pure, token, no_token, subtoken_advance, if_next}

-- The first `switch`: characters that start no longer operator.
unfoldable pub simple_type : ℕ → Option TokenType
simple_type c =
    if c == b':'
    then some TokenType.punctuation_colon
    else if c == b';'
    then some TokenType.punctuation_semicolon
    else if c == b','
    then some TokenType.punctuation_comma
    else if c == b'['
    then some TokenType.punctuation_open_bracket
    else if c == b']'
    then some TokenType.punctuation_close_bracket
    else if c == b'{'
    then some TokenType.punctuation_open_brace
    else if c == b'}'
    then some TokenType.punctuation_close_brace
    else if c == b'('
    then some TokenType.punctuation_open_paren
    else if c == b')'
    then some TokenType.punctuation_close_paren
    else if c == b'~'
    then some TokenType.operator_binary_not
    else if c == b'?'
    then some TokenType.operator_question_mark
    else if c == b'.'
    then some TokenType.operator_dot
    else none

-- The cases of the second `switch`.
unfoldable pub lex_minus : Call Token
lex_minus = if_next (codes "-") (token TokenType.operator_decrement (codes "--")) (
    if_next (codes "=") (token TokenType.operator_subtract_assign (codes "-=")) (
      if_next (codes ">") (token TokenType.operator_arrow (codes "->"))
        (token TokenType.operator_minus (codes "-"))))

unfoldable pub lex_plus : Call Token
lex_plus = if_next (codes "+") (token TokenType.operator_increment (codes "++")) (
    if_next (codes "=") (token TokenType.operator_add_assign (codes "+="))
      (token TokenType.operator_plus (codes "+")))

unfoldable pub lex_percent : Call Token
lex_percent =
    if_next (codes "=") (token TokenType.operator_mod_assign (codes "%="))
      (token TokenType.operator_mod (codes "%"))

unfoldable pub lex_slash : Call Token
lex_slash =
    if_next (codes "=") (token TokenType.operator_divide_assign (codes "/="))
      (token TokenType.operator_divide (codes "/"))

unfoldable pub lex_star : Call Token
lex_star =
    if_next (codes "=") (token TokenType.operator_multiply_assign (codes "*="))
      (token TokenType.operator_star (codes "*"))

unfoldable pub lex_equal : Call Token
lex_equal =
    if_next (codes "=")
      (if_next (codes "=") (token TokenType.operator_deep_equal (codes "==="))
        (token TokenType.operator_equal (codes "==")))
      (token TokenType.operator_assign (codes "="))

unfoldable pub lex_less : Call Token
lex_less =
    if_next (codes "=")
      (if_next (codes ">") (token TokenType.operator_compare (codes "<=>"))
        (token TokenType.operator_less_or_equal (codes "<=")))
      (if_next (codes "<")
        (if_next (codes "=") (token TokenType.operator_left_shift_assign (codes "<<="))
          (token TokenType.operator_left_shift (codes "<<")))
        (token TokenType.operator_less_than (codes "<")))

unfoldable pub lex_not : Call Token
lex_not =
    if_next (codes "=") (token TokenType.operator_not_equal (codes "!="))
      (token TokenType.operator_not (codes "!"))

unfoldable pub lex_greater : Call Token
lex_greater = if_next (codes "=") (token TokenType.operator_greater_or_equal (codes ">=")) (
    if_next (codes ">")
      (if_next (codes "=") (token TokenType.operator_right_shift_assign (codes ">>="))
        (token TokenType.operator_right_shift (codes ">>")))
      (token TokenType.operator_greater_than (codes ">")))

unfoldable pub lex_and : Call Token
lex_and =
    if_next (codes "&")
      (if_next (codes "=") (token TokenType.operator_logical_and_assign (codes "&&="))
        (token TokenType.operator_logical_and (codes "&&")))
      (if_next (codes "=") (token TokenType.operator_bitwise_and_assign (codes "&="))
        (token TokenType.operator_ampersand (codes "&")))

unfoldable pub lex_or : Call Token
lex_or =
    if_next (codes "|")
      (if_next (codes "=") (token TokenType.operator_logical_or_assign (codes "||="))
        (token TokenType.operator_logical_or (codes "||")))
      (if_next (codes "=") (token TokenType.operator_bitwise_or_assign (codes "|="))
        (token TokenType.operator_binary_or (codes "|")))

unfoldable pub lex_xor : Call Token
lex_xor = if_next (codes "^") (token TokenType.operator_logical_xor (codes "^^")) (
    if_next (codes "=") (token TokenType.operator_bitwise_xor_assign (codes "^="))
      (token TokenType.operator_binary_xor (codes "^")))

-- The second `switch`.
unfoldable pub lex_compound : ℕ → Call Token
lex_compound c =
    if c == b'-'
    then lex_minus
    else if c == b'+'
    then lex_plus
    else if c == b'%'
    then lex_percent
    else if c == b'/'
    then lex_slash
    else if c == b'*'
    then lex_star
    else if c == b'='
    then lex_equal
    else if c == b'<'
    then lex_less
    else if c == b'!'
    then lex_not
    else if c == b'>'
    then lex_greater
    else if c == b'&'
    then lex_and
    else if c == b'|'
    then lex_or
    else if c == b'^'
    then lex_xor
    else pure no_token

-- The text of a simple token is its one character.
unfoldable pub lex_first : ℕ → Call Token
lex_first c = elim (simple_type c) [ some type ↦ token type (c ∷ []) | none ↦ lex_compound c ]

unfoldable pub lex_punctuation : Call Token
unfolding char_at
lex_punctuation = do t ← subtoken_advance; lex_first (char_at t.str 0)
