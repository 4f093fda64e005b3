-- ===== src/Parser/Operands.antt =====
-- The literals among the operands of `parseExpressionElementWithoutTailingOperators` of
-- compiler/Parser/Parser.cpp, with `LiteralNode::parse` of compiler/AST/Literals/LiteralNode.cpp. The
-- reader of the other operands, of real numbers too, is an argument, and their nodes are of any type.
pub mod Spelling
pub mod Conditional
use three.Base.{ℕ, Bool, Outcome, ok, aborted, ◌>>=◌}
use three.Token.Kind.{TokenType}
use three.DataType.{DataType}
use three.ParseContext.{ParseContext}
use three.ParseHelper.{Stream, front_type}
use three.Literals.{IntegerLiteral, parse_integer_literal}
use three.Literals.Texts.{
  TextLiteral, parse_string_literal, parse_character_literal, parse_boolean_literal,
  parse_null_literal,
}

pub data Operand (X : Type 0) : Type 0 where
  integer_literal : IntegerLiteral → Operand X
  string_literal : TextLiteral → Operand X
  character_literal : TextLiteral → Operand X
  boolean_literal : Bool × DataType → Operand X
  null_literal : DataType → Operand X
  other_operand : X → Operand X

module _ {X : Type 0} (read_other : Stream → Outcome (X × Stream)) (c : ParseContext) where
  abbrev read_other_operand : Stream → Outcome (Operand X × Stream)
  read_other_operand ts = read_other ts >>= λ (x, ts'). ok (other_operand x, ts')

  -- `LiteralNode::parse`.
  unfoldable pub parse_literal : Stream → Outcome (Operand X × Stream)
  unfolding parse_character_literal parse_boolean_literal
  parse_literal ts =
      let character = parse_character_literal c ts >>= λ (l, ts'). ok (character_literal l, ts') in
      let boolean = parse_boolean_literal c ts >>= λ (l, ts'). ok (boolean_literal l, ts') in
      elim (front_type ts) [
        | TokenType.literal_real ↦ read_other_operand ts
        | TokenType.literal_character ↦ character
        | TokenType.literal_true ↦ boolean
        | TokenType.literal_false ↦ boolean
        | _ ↦ aborted
      ]

  -- The switch; `f` is the fuel for the type of an integer.
  unfoldable pub parse_operand : ℕ → Stream → Outcome (Operand X × Stream)
  unfolding parse_literal parse_integer_literal parse_string_literal parse_null_literal
  parse_operand f ts =
      let integer = parse_integer_literal f c ts >>= λ (l, ts'). ok (integer_literal l, ts') in
      let string = parse_string_literal c ts >>= λ (l, ts'). ok (string_literal l, ts') in
      let null = parse_null_literal c ts >>= λ (t, ts'). ok (null_literal t, ts') in
      elim (front_type ts) [
        | TokenType.literal_string ↦ string
        | TokenType.literal_integer ↦ integer
        | TokenType.literal_hex ↦ integer
        | TokenType.literal_binary ↦ integer
        | TokenType.literal_real ↦ parse_literal ts
        | TokenType.literal_scientific_notation ↦ parse_literal ts
        | TokenType.literal_character ↦ parse_literal ts
        | TokenType.literal_true ↦ parse_literal ts
        | TokenType.literal_false ↦ parse_literal ts
        | TokenType.literal_null ↦ null
        | _ ↦ read_other_operand ts
      ]
