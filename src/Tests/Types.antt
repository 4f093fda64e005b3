-- ===== src/Tests/Types.antt =====
-- Instances of the theorems on types: their texts, the type parser, and integers with their types.
use three.Base.{
  ℕ, ◌+◌, ◌≡◌, ◌≢◌, refl, true, false, List, [], ◌∷◌, ◌++◌, codes, Bytes, bytes_eq, byte_mem,
  length, if◌then◌else◌, none, some, ok, aborted, out_of_fuel, ◌>>=◌, arith, inl,
}
use three.Token.Kind.{TokenType, type_eq}
use three.QualifiedName.{to_s}
use three.DataType.{Attributes, DataTypes, data_type, nil, cons, of_kind, attributes_of}
use three.DataType.Kinds.{Kind, name_of_kind, is_c_scalar_kind}
use three.ParseContext.{
  new_context, data_type_for_name, defines_type_with_name, type_kind_with_name,
}
use three.CTypeCodeGenerator.{
  is_bare_pointer, code_gen, code_gen_type, with_variable, tuple_struct_name, tuple_parts,
}
use three.CTypeCodeGenerator.Pointers.{
  points_to, stars, code_gen-points_to, code_gen-array_of_pointers,
}
use three.CTypeCodeGenerator.Tuples.{tuple_struct_name-bytes}
use three.ParseHelper.{Stream, is_at}
use three.TypeParser.{annotation_argument, peek_type, is_at_type, peek_qualified_name}
use three.TypeParser.Parsing.{is_character, parse_qualified_name}
use three.TypeParser.Composite.{parse_type}
use three.TypeParser.Syntax.{
  TypeSyntax, spelled, named, function, closure, item, no_items, star, sized, unspecified, width,
  Marks, token_of, identifier, colon, spell,
}
use three.TypeParser.Meaning.{denote, IsType}
use three.TypeParser.Names.{peek-parse_qualified_name}
use three.TypeParser.Endless.{peek_type-endless}
use three.TypeParser.RoundTrip.{parse_type-spell}
use three.Literals.{parse_integer_literal}
use three.Literals.Values.{binary, IsNumeral, and_digit, no_digits, saturated}
use three.Literals.Reading.{literal, parse_integer_literal-spell}

abbrev plain : Marks
plain = record { is_mutable = false; is_nullable = false }

abbrev mutable : Marks
mutable = record { is_mutable = true; is_nullable = false }

-- `*!(Int x, [3] Natural:32) -> {Bool}`.
abbrev callback : TypeSyntax
callback = spelled (star mutable ∷ []) (
    function
      (item (spelled [] (named (codes "Int") [] unspecified plain)) (some (codes "x"))
        (item (spelled (sized 3 ∷ []) (named (codes "Natural") [] (width 32) plain)) none no_items))
      (spelled []
        (closure (item (spelled [] (named (codes "Bool") [] unspecified plain)) none no_items))))

abbrev line_end : Stream
line_end = token_of TokenType.newline (codes "\n") ∷ []

not_blank_text : (c : ℕ) (cs : Bytes) → c ∷ cs ≢ []
not_blank_text c cs e = cc

callback-IsType : IsType new_context callback
unfolding defines_type_with_name is_character data_type_for_name bytes_eq to_s
callback-IsType = (
  (tt, tt),
  (
    omega arith,
    (
      (tt, ((not_blank_text _ _, tt), refl, tt)),
      tt,
      (((omega arith, tt), ((not_blank_text _ _, tt), refl, (refl, omega arith))), tt, tt),
    ),
    (tt, (omega arith, ((tt, ((not_blank_text _ _, tt), refl, tt)), refl, tt))),
  ),
)

parse_type-spell_example :
    (parse_type (length (spell callback line_end)) new_context false (spell callback line_end)
      ≡ ok (denote new_context callback, line_end))
    × (peek_type (length (spell callback line_end)) new_context (spell callback line_end)
        ≡ ok (true, line_end))
    × (is_at_type new_context (spell callback line_end) ≡ ok true)
unfolding type_eq
parse_type-spell_example =
    parse_type-spell new_context callback line_end callback-IsType (refl, refl, refl, refl)

-- `Natural:32`.
abbrev natural_32 : TypeSyntax
natural_32 = spelled [] (named (codes "Natural") [] (width 32) plain)

natural_32-IsType : IsType new_context natural_32
unfolding defines_type_with_name is_character data_type_for_name bytes_eq to_s
natural_32-IsType = (tt, ((not_blank_text _ _, tt), refl, (refl, omega arith)))

-- `0b0100`.
four-IsNumeral : IsNumeral binary (codes "0100") 4
four-IsNumeral = (
  and_digit
      (and_digit
        (and_digit (and_digit no_digits b'0' 0 (inl (omega arith, refl)) (omega arith)) b'1' 1
          (inl (omega arith, refl)) (omega arith))
        b'0' 0 (inl (omega arith, refl)) (omega arith))
      b'0' 0 (inl (omega arith, refl)) (omega arith),
  omega arith,
  tt,
)

parse_integer_literal-spell_example :
    (parse_integer_literal 1 new_context (literal binary (codes "0100") ∷ line_end)
      ≡ ok (
        record {
          value = saturated 4;
          data_type = of_kind (type_kind_with_name new_context (codes "Int"));
        },
        line_end,
      ))
    × (parse_integer_literal 1 new_context
          (literal binary (codes "0100") ∷ colon ∷ spell natural_32 line_end)
        ≡ ok (record { value = saturated 4; data_type = denote new_context natural_32 }, line_end))
unfolding type_eq
parse_integer_literal-spell_example =
    parse_integer_literal-spell 1 new_context binary (codes "0100") 4 natural_32 line_end line_end
      four-IsNumeral refl (omega arith) natural_32-IsType (refl, refl, refl, refl) refl

abbrev io_print : Stream
io_print = identifier (codes "io") ∷ colon ∷ colon ∷ identifier (codes "print") ∷ []

abbrev bare_access : Stream
bare_access = token_of TokenType.annotation_access (codes "@access") ∷ identifier (codes "Int") ∷ []

abbrev two_pointers : List Attributes
two_pointers = attributes_of Kind.pointer ∷ attributes_of Kind.nullable_pointer ∷ []

-- A name of two components, and no name.
peek-parse_qualified_name_example :
    (peek_qualified_name 3 io_print ≡ (
      if is_at TokenType.identifier io_print
      then (parse_qualified_name 3 true io_print >>= λ (name, ts'). ok (some name, ts'))
      else ok (none, io_print)))
    × (is_at TokenType.identifier io_print ≡ false → parse_qualified_name 3 true io_print ≡ aborted)
peek-parse_qualified_name_example = peek-parse_qualified_name 2 io_print

-- `@access Int`.
peek_type-endless_example : peek_type 50 new_context bare_access ≡ out_of_fuel
unfolding annotation_argument type_eq
peek_type-endless_example = peek_type-endless 50 new_context bare_access refl refl

code_gen-points_to_example :
    code_gen (points_to two_pointers (of_kind Kind.integer)) (codes "p") ≡ (
      code_gen_type (of_kind Kind.integer) >>= λ s.
      ok (s ++ with_variable (stars two_pointers) (codes "p")))
unfolding is_bare_pointer name_of_kind
code_gen-points_to_example =
    code_gen-points_to two_pointers (attributes_of Kind.integer) nil nil nil nil (codes "p")
      (refl, (refl, tt)) refl refl

-- `[0] *Int`.
code_gen-array_of_pointers_example :
    code_gen
      (data_type
        (attributes_of Kind.array)
        (cons
          (data_type (attributes_of Kind.pointer) (cons (of_kind Kind.integer) nil) nil nil nil)
          nil)
        nil
        nil
        nil)
      (codes "a")
    ≡ aborted
unfolding is_bare_pointer name_of_kind
code_gen-array_of_pointers_example =
    code_gen-array_of_pointers [] (attributes_of Kind.array) (attributes_of Kind.pointer) nil nil
      nil nil (cons (of_kind Kind.integer) nil) nil nil nil (codes "a") tt refl refl

abbrev pair_of_pointers : DataTypes
pair_of_pointers =
    cons (data_type (attributes_of Kind.pointer) (cons (of_kind Kind.integer) nil) nil nil nil)
      (cons (of_kind Kind.boolean) nil)

tuple_struct_name-bytes_example :
    (length (codes "const_intP_const_const_bool_tuple_t")
      ≡ length (codes "const int* const_const bool_") + 7)
    × (byte_mem b'*' (codes "const_intP_const_const_bool_tuple_t") ≡ false)
    × (byte_mem b' ' (codes "const_intP_const_const_bool_tuple_t") ≡ false)
    × ((c : ℕ)
        → c ≢ b'*'
        → c ≢ b'P'
        → c ≢ b' '
        → c ≢ b'_'
        → byte_mem c (codes "const_intP_const_const_bool_tuple_t")
          ≡ byte_mem c (codes "const int* const_const bool_" ++ codes "tuple_t"))
unfolding tuple_parts tuple_struct_name name_of_kind is_c_scalar_kind
tuple_struct_name-bytes_example =
    tuple_struct_name-bytes pair_of_pointers (codes "const int* const_const bool_")
      (codes "const_intP_const_const_bool_tuple_t") refl refl
