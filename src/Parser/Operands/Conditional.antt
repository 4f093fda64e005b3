-- ===== src/Parser/Operands/Conditional.antt =====
-- An integer between the operator and the colon of a conditional takes the colon for its own.
use three.Base.{
  ℕ, suc, ◌≤◌, ◌<◌, ◌≡◌, ◌≢◌, refl, ◌∙◌, true, false, ◌∷◌, [], Bytes, some, Outcome, ok, aborted,
  arith,
}
use three.Token.Kind.{TokenType, type_eq}
use three.Token.Classes.{precedence, is_unary_operator}
use three.Token.{Token}
use three.ParseContext.{ParseContext}
use three.ParseHelper.{Stream, front_type, is_at}
use three.TypeParser.Syntax.{TypeSyntax, spelled, named, unspecified, Marks, identifier, colon}
use three.TypeParser.Meaning.{denote, Ends}
use three.TypeParser.Composite.{parse_type}
use three.TypeParser.Parts.{parse_named_type-spell}
use three.Literals.{parse_integer_literal}
use three.Literals.Values.{
  Radix, decimal, hexadecimal, binary, IsNumeral, saturated, integer_value-IsNumeral,
}
use three.Literals.Reading.{literal}
use three.Parser.{
  Expression, element, is_tailing, next_precedence, ternary, operator_node, parse_expression,
}
use three.Parser.Climbing.{leaf, IsPlaced, Stops}
use three.Parser.Steps.{next_bounds, climb_step}
use three.Parser.Trees.{parse_nested, first_operand}
use three.Parser.Operands.{Operand, parse_operand}
use three.Parser.Operands.Spelling.{
  WrittenLiteral, an_integer, spell_literal, node_of, MayStand, parse_operand-spell_literal,
  front-spell_literal,
}

abbrev no_marks : Marks
no_marks = record { is_mutable = false; is_nullable = false }

abbrev plain_name : Bytes → TypeSyntax
plain_name x = spelled [] (named x [] unspecified no_marks)

-- A name is read as a type, whether or not it is one of a type.
parse_type-name :
    (f : ℕ) (c : ParseContext) (x : Bytes) (ts : Stream)
    → x ≢ []
    → Ends ts
    → parse_type (suc f) c false (identifier x ∷ ts) ≡ ok (denote c (plain_name x), ts)
unfolding parse_type
parse_type-name f c x ts ne ends =
    parse_named_type-spell (suc f) c x [] unspecified no_marks ts (omega arith) (ne, tt) tt ends

named_literal :
    (f : ℕ) (c : ParseContext) (r : Radix) (s : Bytes) (n : ℕ) (x : Bytes) (ts : Stream)
    → IsNumeral r s n
    → x ≢ []
    → Ends ts
    → parse_integer_literal (suc f) c (literal r s ∷ colon ∷ identifier x ∷ ts)
      ≡ ok (record { value = saturated n; data_type = denote c (plain_name x) }, ts)
unfolding parse_integer_literal type_eq
named_literal f c decimal s n x ts is ne ends =
    rw (integer_value-IsNumeral decimal s n is) (rw (parse_type-name f c x ts ne ends) refl)
named_literal f c hexadecimal s n x ts is ne ends =
    rw (integer_value-IsNumeral hexadecimal s n is) (rw (parse_type-name f c x ts ne ends) refl)
named_literal f c binary s n x ts is ne ends =
    rw (integer_value-IsNumeral binary s n is) (rw (parse_type-name f c x ts ne ends) refl)

-- Where no colon is behind the second operand of a conditional, the parser aborts.
node_aborted :
    {E : Type 0} (parse : Stream → Outcome (Expression E × Stream)) (left right : Expression E)
    (op : Token) (ts ts1 : Stream)
    → IsPlaced op
    → ternary op ≡ true
    → parse ts ≡ ok (right, ts1)
    → is_at TokenType.punctuation_colon ts1 ≡ false
    → operator_node parse left (op ∷ ts) ≡ aborted
unfolding operator_node
node_aborted parse left right op ts ts1 placed is e none = rw placed.2 (rw e (rw is (rw none refl)))

module _ {X : Type 0} (read_other : Stream → Outcome (X × Stream)) (c : ParseContext) (f : ℕ)
    (read_tail : Expression (Operand X) → Stream → Outcome (Expression (Operand X) × Stream)) where
  abbrev IsRead : WrittenLiteral → Stream → Type 0
  IsRead l ts = parse_operand read_other c (suc f) (spell_literal l ts) ≡ ok (node_of c l, ts)

  named_operand :
      (r : Radix) (s : Bytes) (n : ℕ) (x : Bytes) (ts : Stream)
      → IsNumeral r s n
      → x ≢ []
      → Ends ts
      → IsRead (an_integer r s n (some (plain_name x))) ts
  unfolding parse_operand
  named_operand decimal s n x ts is ne ends =
      rw (named_literal f c decimal s n x ts is ne ends) refl
  named_operand hexadecimal s n x ts is ne ends =
      rw (named_literal f c hexadecimal s n x ts is ne ends) refl
  named_operand binary s n x ts is ne ends = rw (named_literal f c binary s n x ts is ne ends) refl

  reads_literal :
      (l : WrittenLiteral) (ts : Stream)
      → IsRead l ts
      → is_tailing (front_type ts) ≡ false
      → (parse_operand read_other c (suc f) (spell_literal l ts) ≡ ok (node_of c l, ts))
        × (is_unary_operator (front_type (spell_literal l ts)) ≡ false)
        × (is_at TokenType.punctuation_open_paren (spell_literal l ts) ≡ false)
  reads_literal l ts read tail = (
    read,
    (front-spell_literal read_other c (suc f) l ts).0,
    (front-spell_literal read_other c (suc f) l ts).1,
  )

  -- A conditional, or another operator of three operands, whose first operand is a literal that may
  -- stand in front of it, whose second one is an integer without a type and whose third one is a name
  -- that is not blank aborts the parser, with any fuel from 2 on and for each precedence above 0 that
  -- the operator's is not below: the integer takes the colon and the name for its type. Behind the name
  -- stand tokens that go on with no type and no expression.
  pub conditional-aborts :
      (g p : ℕ) (l : WrittenLiteral) (op : Token) (r : Radix) (s : Bytes) (n : ℕ) (x : Bytes)
      (ts : Stream)
      → 0 < p
      → p ≤ precedence op.type
      → IsPlaced op
      → ternary op ≡ true
      → MayStand (suc f) c l (op ∷ literal r s ∷ colon ∷ identifier x ∷ ts)
      → IsNumeral r s n
      → x ≢ []
      → Ends ts
      → Stops (next_precedence op.type) ts
      → is_tailing (front_type ts) ≡ false
      → parse_expression
          (parse_operand read_other c (suc f))
          read_tail
          (suc (suc g))
          p
          (spell_literal l (op ∷ literal r s ∷ colon ∷ identifier x ∷ ts))
        ≡ aborted
  conditional-aborts g p l op r s n x ts pos high placed is may numeral ne ends stops tail =
      let behind : Stream = literal r s ∷ colon ∷ identifier x ∷ ts in
      let read = parse_operand read_other c (suc f) in
      let parse = parse_expression read read_tail (suc g) in
      let nested = parse_nested read read_tail IsRead spell_literal (node_of c) reads_literal in
      first_operand read read_tail IsRead spell_literal (node_of c) reads_literal (suc g) p
        (nested (suc g)) (leaf l) (op ∷ behind) pos (omega arith) tt
        (parse_operand-spell_literal read_other c (suc f) l (op ∷ behind) may) placed.4
      ∙ climb_step parse (suc g) p (element (node_of c l)) op behind placed high
      ∙ rw
          (node_aborted (parse (next_precedence op.type)) (element (node_of c l)) _ op behind ts
            placed is
            (nested (suc g) (next_precedence op.type)
              (leaf (an_integer r s n (some (plain_name x)))) ts
              (omega (arith, next_bounds op.type, placed.3)) (omega arith)
              (named_operand r s n x ts numeral ne ends) stops tail)
            ends.0)
          refl
