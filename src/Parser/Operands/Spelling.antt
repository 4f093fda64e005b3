-- ===== src/Parser/Operands/Spelling.antt =====
-- Expressions whose operands are literals: their tokens are parsed to their tree.
use three.Base.{
  ℕ, ◌≤◌, ◌<◌, ◌≡◌, refl, Bool, true, false, ◌∷◌, Option, none, some, Bytes, codes, Outcome, ok,
}
use three.Token.Kind.{TokenType, type_eq}
use three.Token.Classes.{is_unary_operator}
use three.DataType.{DataType, of_kind, set_character_encoding, add_subtype}
use three.DataType.Kinds.{Kind, CharacterEncoding}
use three.ParseContext.{ParseContext, type_kind_with_name}
use three.ParseHelper.{Stream, front_type, is_at, next_if}
use three.TypeParser.Syntax.{TypeSyntax, token_of, identifier}
use three.TypeParser.Syntax
use three.TypeParser.Meaning.{denote, IsType, Ends}
use three.Literals.{is_at_specifier}
use three.Literals.Values.{Radix, decimal, hexadecimal, binary, IsNumeral, saturated}
use three.Literals.Reading.{literal, unspecified_literal, specified_literal}
use three.Literals.Texts.{parse_boolean_literal, parse_null_literal}
use three.Literals.Texts.Quotes.{
  encoding_name, quoted, character, plain_string, encoded_string, plain_character,
  encoded_character,
}
use three.Parser.{Expression, is_tailing, parse_expression}
use three.Parser.Climbing.{Written, tree_of, spell, IsNested, size, Stops}
use three.Parser.Trees.{parse_nested}
use three.Parser.Operands.{
  Operand, integer_literal, string_literal, character_literal, boolean_literal, null_literal,
  parse_literal, parse_operand,
}

-- A written literal: the digits of an integer, with the number that they write, and a type, where there
-- is one; the quote and the text of a string or a character, and an encoding, where there is one.
pub data WrittenLiteral : Type 0 where
  an_integer : Radix → Bytes → ℕ → Option TypeSyntax → WrittenLiteral
  a_string a_character : ℕ → Bytes → Option CharacterEncoding → WrittenLiteral
  a_boolean : Bool → WrittenLiteral
  a_null : WrittenLiteral

abbrev spell_type : Option TypeSyntax → Stream → Stream
spell_type none ts = ts
spell_type (some t) ts = Syntax.colon ∷ Syntax.spell t ts

abbrev spell_encoding : Option CharacterEncoding → Stream → Stream
spell_encoding none ts = ts
spell_encoding (some e) ts = Syntax.colon ∷ identifier (encoding_name e) ∷ ts

abbrev pub spell_literal : WrittenLiteral → Stream → Stream
spell_literal (an_integer r s n t) ts = literal r s ∷ spell_type t ts
spell_literal (a_string q s e) ts =
    token_of TokenType.literal_string (quoted q s) ∷ spell_encoding e ts
spell_literal (a_character q s e) ts =
    token_of TokenType.literal_character (quoted q s) ∷ spell_encoding e ts
spell_literal (a_boolean true) ts = token_of TokenType.literal_true (codes "true") ∷ ts
spell_literal (a_boolean false) ts = token_of TokenType.literal_false (codes "false") ∷ ts
spell_literal a_null ts = token_of TokenType.literal_null (codes "null") ∷ ts

abbrev encoded : ParseContext → Option CharacterEncoding → DataType
encoded c none = character c
encoded c (some e) = set_character_encoding e (character c)

abbrev type_named : ParseContext → Bytes → DataType
type_named c name = of_kind (type_kind_with_name c name)

-- The node of a literal.
abbrev pub node_of : {X : Type 0} → ParseContext → WrittenLiteral → Operand X
node_of c (an_integer r s n none) =
    integer_literal (record { value = saturated n; data_type = type_named c (codes "Int") })
node_of c (an_integer r s n (some t)) =
    integer_literal (record { value = saturated n; data_type = denote c t })
node_of c (a_string q s e) =
    string_literal
      (record { value = s; data_type = add_subtype (encoded c e) (of_kind Kind.pointer) })
node_of c (a_character q s e) = character_literal (record { value = s; data_type = encoded c e })
node_of c (a_boolean b) = boolean_literal (b, type_named c (codes "Bool"))
node_of c a_null = null_literal (add_subtype (type_named c (codes "Void")) (of_kind Kind.pointer))

-- What may stand behind a literal: where a type or an encoding may still follow, no colon that begins
-- it, and behind a type nothing that goes on with it. `f` is the fuel for the type.
abbrev pub MayStand : ℕ → ParseContext → WrittenLiteral → Stream → Type 0
MayStand f c (an_integer r s n none) ts = IsNumeral r s n × (is_at_specifier ts ≡ false)
MayStand f c (an_integer r s n (some t)) ts =
    IsNumeral r s n
    × (Syntax.size t ≤ f)
    × IsType c t
    × Ends ts
    × (is_at TokenType.identifier (Syntax.spell t ts) ≡ true)
MayStand f c (a_string q s none) ts = is_at TokenType.punctuation_colon ts ≡ false
MayStand f c (a_character q s none) ts = is_at TokenType.punctuation_colon ts ≡ false
MayStand f c _ ts = Unit

module _ {X : Type 0} (read_other : Stream → Outcome (X × Stream)) (c : ParseContext) (f : ℕ) where
  pub parse_operand-spell_literal :
      (l : WrittenLiteral) (ts : Stream)
      → MayStand f c l ts
      → parse_operand read_other c f (spell_literal l ts) ≡ ok (node_of c l, ts)
  unfolding parse_operand parse_literal parse_boolean_literal parse_null_literal next_if type_eq
  parse_operand-spell_literal (an_integer decimal s n none) ts (is, bare) =
      rw (unspecified_literal f c decimal s n ts is bare) refl
  parse_operand-spell_literal (an_integer hexadecimal s n none) ts (is, bare) =
      rw (unspecified_literal f c hexadecimal s n ts is bare) refl
  parse_operand-spell_literal (an_integer binary s n none) ts (is, bare) =
      rw (unspecified_literal f c binary s n ts is bare) refl
  parse_operand-spell_literal (an_integer decimal s n (some t)) ts (is, small, type, ends, named) =
      rw (specified_literal f c decimal s n t ts is small type ends named) refl
  parse_operand-spell_literal (an_integer hexadecimal s n (some t)) ts
        (is, small, type, ends, named) =
      rw (specified_literal f c hexadecimal s n t ts is small type ends named) refl
  parse_operand-spell_literal (an_integer binary s n (some t)) ts (is, small, type, ends, named) =
      rw (specified_literal f c binary s n t ts is small type ends named) refl
  parse_operand-spell_literal (a_string q s none) ts bare = rw (plain_string c q s ts bare) refl
  parse_operand-spell_literal (a_string q s (some e)) ts h = rw (encoded_string c q s e ts) refl
  parse_operand-spell_literal (a_character q s none) ts bare =
      rw (plain_character c q s ts bare) refl
  parse_operand-spell_literal (a_character q s (some e)) ts h =
      rw (encoded_character c q s e ts) refl
  parse_operand-spell_literal (a_boolean true) ts h = refl
  parse_operand-spell_literal (a_boolean false) ts h = refl
  parse_operand-spell_literal a_null ts h = refl

  -- A literal begins with no unary operator and no parenthesis.
  pub front-spell_literal :
      (l : WrittenLiteral) (ts : Stream)
      → (is_unary_operator (front_type (spell_literal l ts)) ≡ false)
        × (is_at TokenType.punctuation_open_paren (spell_literal l ts) ≡ false)
  unfolding is_unary_operator type_eq
  front-spell_literal (an_integer decimal s n t) ts = (refl, refl)
  front-spell_literal (an_integer hexadecimal s n t) ts = (refl, refl)
  front-spell_literal (an_integer binary s n t) ts = (refl, refl)
  front-spell_literal (a_string q s e) ts = (refl, refl)
  front-spell_literal (a_character q s e) ts = (refl, refl)
  front-spell_literal (a_boolean true) ts = (refl, refl)
  front-spell_literal (a_boolean false) ts = (refl, refl)
  front-spell_literal a_null ts = (refl, refl)

  -- A written expression of literals, unary operators, parentheses and operators of two and three
  -- operands that nest as the precedences say, with each literal in front of tokens that may stand
  -- behind it, is parsed to its tree, for a precedence above 0 and with fuel for each node of it. Behind
  -- it stand tokens at which the loop for the precedence stops and that are no tailing operator.
  pub parse_expression-spell :
      (read_tail : Expression (Operand X) → Stream → Outcome (Expression (Operand X) × Stream))
      (g p : ℕ) (w : Written WrittenLiteral) (ts : Stream)
      → 0 < p
      → size w ≤ g
      → IsNested spell_literal (MayStand f c) p w ts
      → Stops p ts
      → is_tailing (front_type ts) ≡ false
      → parse_expression (parse_operand read_other c f) read_tail g p (spell spell_literal w ts)
        ≡ ok (tree_of (node_of c) w, ts)
  parse_expression-spell read_tail =
      parse_nested (parse_operand read_other c f) read_tail (MayStand f c) spell_literal (node_of c)
        λ l ts may tail. (
          parse_operand-spell_literal l ts may,
          (front-spell_literal l ts).0,
          (front-spell_literal l ts).1,
        )
