-- ===== src/Literals.antt =====
-- `IntegerLiteralNode` of compiler/AST/Literals/IntegerLiteralNode.cpp: the value and the type of an
-- integer literal. `strtol` is that of a 64-bit `long`, for texts that begin with a digit or
-- have none at all in front of other characters than spaces and signs.
pub mod Values
pub mod Reading
pub mod Texts
use three.Base.{
  ℕ, zero, suc, ◌+◌, ◌-◌, ◌*◌, Bool, not, ◌&&◌, [], ◌∷◌, if◌then◌else◌, ◌==◌, leb, ltb, Bytes,
  char_at, length, drop, Outcome, ok, aborted, false, ◌||◌, ◌>>=◌, codes,
}
use three.Token.Kind.{TokenType, type_eq}
use three.DataType.{DataType, of_kind}
use three.ParseContext.{ParseContext, type_kind_with_name}
use three.ParseHelper.{Stream, front, rest_of, is_at}
use three.TypeParser.Composite.{parse_type}
use three.TypeParser.Parsing.{largest_long}

-- The digit that a byte is in the bases up to 36; one that is none counts as 36.
unfoldable pub digit_value : ℕ → ℕ
digit_value c =
    if leb b'0' c && leb c b'9'
    then c - b'0'
    else if leb b'a' c && leb c b'z'
    then c - b'a' + 10
    else if leb b'A' c && leb c b'Z'
    then c - b'A' + 10
    else 36

-- The number of the digits in front, behind those of `value`.
unfoldable pub leading_digits : ℕ → ℕ → Bytes → ℕ
unfolding digit_value
leading_digits base value [] = value
leading_digits base value (c ∷ cs) =
    let rest = leading_digits base (value * base + digit_value c) cs in
    if ltb (digit_value c) base then rest else value

unfoldable pub strtol : ℕ → Bytes → ℕ
unfolding leading_digits
strtol base s =
    let value = leading_digits base 0 s in if ltb largest_long value then largest_long else value

-- Base 16 skips the prefix itself, and for base 2 the code does.
unfoldable pub integer_value : Bytes → Outcome ℕ
unfolding strtol char_at
integer_value s =
    if not (char_at s 0 == b'0' && ltb 1 (length s))
    then ok (strtol 10 s)
    else if not (ltb 2 (length s))
    then aborted
    else if char_at s 1 == b'x'
    then ok (strtol 16 (drop 2 s))
    else if char_at s 1 == b'b'
    then ok (strtol 2 (drop 2 s))
    else aborted

pub record IntegerLiteral : Type 0 where
  pub value : ℕ
  pub data_type : DataType

-- A colon is that of a type specifier where an identifier is behind it.
abbrev pub is_at_specifier : Stream → Bool
is_at_specifier ts = is_at TokenType.punctuation_colon ts && is_at TokenType.identifier (rest_of ts)

-- `IntegerLiteralNode::parse`, with the fuel of `parseType`.
unfoldable pub parse_integer_literal : ℕ → ParseContext → Stream → Outcome (IntegerLiteral × Stream)
unfolding integer_value parse_type type_kind_with_name type_eq
parse_integer_literal f c ts =
    let node = integer_value (front ts).str >>= λ n.
    (let ts' = rest_of ts in
      let specified = parse_type f c false (rest_of ts') >>= λ (type, ts'').
      ok (record { value = n; data_type = type }, ts'') in
      if is_at_specifier ts'
      then specified
      else ok
          (record { value = n; data_type = of_kind (type_kind_with_name c (codes "Int")) }, ts')) in
    if is_at TokenType.literal_integer ts
      || is_at TokenType.literal_binary ts
      || is_at TokenType.literal_hex ts
    then node
    else aborted
