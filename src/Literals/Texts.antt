-- ===== src/Literals/Texts.antt =====
-- The other literals of compiler/AST/Literals: `StringLiteralNode`, `CharacterLiteralNode`,
-- `BooleanLiteralNode` and `NullLiteralNode`, with `parseCharacterEncodingSpecifier` of
-- compiler/Parser/Parser.cpp.
pub mod Quotes
use three.Base.{
  Bool, true, false, not, [], ◌∷◌, some, none, if◌then◌else◌, Bytes, codes, Outcome, ok, aborted,
  ◌>>=◌,
}
use three.Token.Kind.{TokenType, type_eq}
use three.DataType.{DataType, of_kind, set_character_encoding, add_subtype}
use three.DataType.Kinds.{Kind, CharacterEncoding}
use three.Scope.{find}
use three.ParseContext.{ParseContext, type_kind_with_name}
use three.ParseHelper.{Stream, front, front_type, rest_of, is_at, next_if}
use three.TypeParser.Parsing.{character_encoding_map}

unfoldable pub without_last : Bytes → Bytes
without_last [] = []
without_last (c ∷ []) = []
without_last (c ∷ d ∷ s) = c ∷ without_last (d ∷ s)

-- `strTrimmingFirstAndLast`; `substr` throws where there is no first byte.
unfoldable pub str_trimming_first_and_last : Bytes → Outcome Bytes
unfolding without_last
str_trimming_first_and_last [] = aborted
str_trimming_first_and_last (c ∷ s) = ok (without_last s)

unfoldable pub parse_character_encoding_specifier : Stream → Outcome (CharacterEncoding × Stream)
unfolding find type_eq
parse_character_encoding_specifier ts =
    let encoding : Outcome (CharacterEncoding × Stream) =
      elim (find (front ts).str character_encoding_map) [
        | some e ↦ ok (e, rest_of ts)
        | none ↦ aborted
      ] in
    if not (is_at TokenType.identifier ts) then aborted else encoding

-- The type of the characters: `Char`, with the specifier that may follow.
unfoldable pub character_type : ParseContext → Stream → Outcome (DataType × Stream)
unfolding next_if parse_character_encoding_specifier set_character_encoding type_kind_with_name
character_type c ts =
    let type = of_kind (type_kind_with_name c (codes "Char")) in
    let (colon, ts') = next_if TokenType.punctuation_colon ts in
    let encoded = parse_character_encoding_specifier ts' >>= λ (e, ts'').
    ok (set_character_encoding e type, ts'') in
    if colon then encoded else ok (type, ts)

pub record TextLiteral : Type 0 where
  pub value : Bytes
  pub data_type : DataType

-- `StringLiteralNode::parse`.
unfoldable pub parse_string_literal : ParseContext → Stream → Outcome (TextLiteral × Stream)
unfolding str_trimming_first_and_last character_type add_subtype type_eq
parse_string_literal c ts =
    let node = str_trimming_first_and_last (front ts).str >>= λ s.
    character_type c (rest_of ts) >>= λ (type, ts').
    ok (record { value = s; data_type = add_subtype type (of_kind Kind.pointer) }, ts') in
    if is_at TokenType.literal_string ts then node else aborted

-- `CharacterLiteralNode::parse`.
unfoldable pub parse_character_literal : ParseContext → Stream → Outcome (TextLiteral × Stream)
unfolding str_trimming_first_and_last character_type type_eq
parse_character_literal c ts =
    let node = str_trimming_first_and_last (front ts).str >>= λ s.
    character_type c (rest_of ts) >>= λ (type, ts').
    ok (record { value = s; data_type = type }, ts') in
    if is_at TokenType.literal_character ts then node else aborted

-- `BooleanLiteralNode::parse`: the value and the type.
unfoldable pub parse_boolean_literal : ParseContext → Stream → Outcome ((Bool × DataType) × Stream)
unfolding type_kind_with_name
parse_boolean_literal c ts =
    let type = of_kind (type_kind_with_name c (codes "Bool")) in
    elim (front_type ts) [
      | TokenType.literal_true ↦ ok ((true, type), rest_of ts)
      | TokenType.literal_false ↦ ok ((false, type), rest_of ts)
      | _ ↦ aborted
    ]

-- `NullLiteralNode::parse`: the type.
unfoldable pub parse_null_literal : ParseContext → Stream → Outcome (DataType × Stream)
unfolding next_if add_subtype type_kind_with_name
parse_null_literal c ts =
    let (found, ts') = next_if TokenType.literal_null ts in
    let type =
      add_subtype (of_kind (type_kind_with_name c (codes "Void"))) (of_kind Kind.pointer) in
    if found then ok (type, ts') else aborted
