-- ===== src/Tests/Expressions.antt =====
-- Instances of the theorems on expressions and on literals of text.
use three.Base.{
  ◌≡◌, ◌≢◌, refl, ◌∷◌, [], true, none, inl, inr, codes, Bytes, Outcome, ok, aborted, arith,
}
use three.Token.Kind.{TokenType, type_eq}
use three.Token.Classes.{
  is_unary_operator, precedence, is_statement_ending, is_end, is_operator, is_left_associative,
}
use three.Token.{Token}
use three.ParseHelper.{Stream}
use three.Parser.{
  Expression, is_tailing, creates_operator, ternary, next_precedence, parse_expression,
}
use three.Parser.Climbing.{
  Written, leaf, unary_of, enclosed, binary_of, ternary_of, tree_of, IsNested, IsPlaced, spell,
}
use three.Parser.Operands.{Operand, parse_operand}
use three.Parser.Operands.Spelling.{
  WrittenLiteral, an_integer, a_boolean, a_null, spell_literal, node_of, MayStand,
  parse_expression-spell,
}
use three.Parser.Operands.Conditional.{conditional-aborts}
use three.Literals.Reading.{literal}
use three.Literals.Values.{decimal, hexadecimal, IsNumeral, and_digit, no_digits}
use three.TypeParser.Syntax.{identifier, token_of, colon}
use three.DataType.{of_kind, set_character_encoding, add_subtype}
use three.DataType.Kinds.{Kind, CharacterEncoding}
use three.ParseContext.{new_context}
use three.Literals.Texts.{parse_string_literal, parse_character_literal}
use three.Literals.Texts.Quotes.{encoding_name, quoted, character, parse_string_literal-quoted}

abbrev no_others : Stream → Outcome (Bytes × Stream)
no_others ts = aborted

abbrev no_tails :
    Expression (Operand Bytes) → Stream → Outcome (Expression (Operand Bytes) × Stream)
no_tails e ts = aborted

abbrev minus : Token
minus = token_of TokenType.operator_minus (codes "-")

abbrev slash : Token
slash = token_of TokenType.operator_divide (codes "/")

abbrev question : Token
question = token_of TokenType.operator_question_mark (codes "?")

abbrev one : WrittenLiteral
one = an_integer decimal (codes "1") 1 none

one-IsNumeral : IsNumeral decimal (codes "1") 1
one-IsNumeral =
    (and_digit no_digits b'1' 1 (inl (omega arith, refl)) (omega arith), omega arith, inr refl)

-- `0xfF`.
abbrev mixed : WrittenLiteral
mixed = an_integer hexadecimal (codes "fF") 255 none

mixed-IsNumeral : IsNumeral hexadecimal (codes "fF") 255
mixed-IsNumeral = (
  and_digit (and_digit no_digits b'f' 15 (inr (inl (omega arith, refl))) (omega arith)) b'F' 15
      (inr (inr (omega arith, refl))) (omega arith),
  omega arith,
  tt,
)

-- `1 - 0xfF - (true ? null : 1) / -1`: a subtraction stands in the right operand of another.
abbrev differences : Written WrittenLiteral
differences = binary_of minus (leaf one) (
    binary_of minus (leaf mixed) (
      binary_of slash
        (enclosed (ternary_of question (leaf (a_boolean true)) (leaf a_null) (leaf one)))
        (unary_of minus (leaf one))))

abbrev end_of_line : Stream
end_of_line = token_of TokenType.newline (codes "\n") ∷ []

minus-IsPlaced : IsPlaced minus
unfolding precedence is_statement_ending is_end is_operator creates_operator is_tailing type_eq
minus-IsPlaced = (refl, refl, refl, omega arith, refl)

slash-IsPlaced : IsPlaced slash
unfolding precedence is_statement_ending is_end is_operator creates_operator is_tailing type_eq
slash-IsPlaced = (refl, refl, refl, omega arith, refl)

question-IsPlaced : IsPlaced question
unfolding precedence is_statement_ending is_end is_operator creates_operator is_tailing type_eq
question-IsPlaced = (refl, refl, refl, omega arith, refl)

differences-IsNested : IsNested spell_literal (MayStand 0 new_context) 1 differences end_of_line
unfolding precedence next_precedence is_left_associative ternary is_unary_operator type_eq
differences-IsNested = (
  minus-IsPlaced,
  refl,
  omega arith,
  (one-IsNumeral, refl),
  tt,
  (
    minus-IsPlaced,
    refl,
    omega arith,
    (mixed-IsNumeral, refl),
    tt,
    (
      slash-IsPlaced,
      refl,
      omega arith,
      (question-IsPlaced, refl, omega arith, tt, tt, tt, (one-IsNumeral, refl)),
      tt,
      (refl, tt, (one-IsNumeral, refl)),
    ),
  ),
)

parse_expression-spell_example :
    parse_expression
      (parse_operand no_others new_context 0)
      no_tails
      12
      1
      (spell spell_literal differences end_of_line)
    ≡ ok (tree_of (node_of new_context) differences, end_of_line)
unfolding is_statement_ending is_end is_operator is_tailing type_eq
parse_expression-spell_example =
    parse_expression-spell no_others new_context 0 no_tails 12 1 differences end_of_line
      (omega arith) (omega arith) differences-IsNested (inl refl) refl

not_blank_b : codes "b" ≢ []
not_blank_b e = cc

-- `true ? 1 : b`.
conditional-aborts_example :
    parse_expression (parse_operand no_others new_context 1) no_tails 2 1 (
      spell_literal
        (a_boolean true)
        (question ∷ literal decimal (codes "1") ∷ colon ∷ identifier (codes "b") ∷ end_of_line))
    ≡ aborted
unfolding precedence ternary is_statement_ending is_end is_operator is_tailing type_eq
conditional-aborts_example =
    conditional-aborts no_others new_context 0 no_tails 0 1 (a_boolean true) question decimal
      (codes "1") 1 (codes "b") end_of_line (omega arith) (omega arith) question-IsPlaced refl tt
      one-IsNumeral not_blank_b (refl, refl, refl, refl) (inl refl) refl

parse_string_literal-quoted_example :
    (parse_string_literal new_context
        (token_of TokenType.literal_string (quoted b'"' (codes "ab")) ∷ end_of_line)
      ≡ ok (
        record {
          value = codes "ab";
          data_type = add_subtype (character new_context) (of_kind Kind.pointer);
        },
        end_of_line,
      ))
    × (parse_string_literal new_context (
          token_of TokenType.literal_string (quoted b'"' (codes "ab"))
          ∷ colon
          ∷ identifier (encoding_name CharacterEncoding.utf16)
          ∷ end_of_line)
        ≡ ok (
          record {
            value = codes "ab";
            data_type =
                add_subtype
                  (set_character_encoding CharacterEncoding.utf16 (character new_context))
                  (of_kind Kind.pointer);
          },
          end_of_line,
        ))
    × (parse_character_literal new_context
          (token_of TokenType.literal_character (quoted b'"' (codes "ab")) ∷ end_of_line)
        ≡ ok (record { value = codes "ab"; data_type = character new_context }, end_of_line))
    × (parse_character_literal new_context (
          token_of TokenType.literal_character (quoted b'"' (codes "ab"))
          ∷ colon
          ∷ identifier (encoding_name CharacterEncoding.utf16)
          ∷ end_of_line)
        ≡ ok (
          record {
            value = codes "ab";
            data_type = set_character_encoding CharacterEncoding.utf16 (character new_context);
          },
          end_of_line,
        ))
unfolding type_eq
parse_string_literal-quoted_example =
    parse_string_literal-quoted new_context b'"' (codes "ab") CharacterEncoding.utf16 end_of_line
      refl
