-- ===== src/TypeParser/Parsing.antt =====
-- `TypeParser` of compiler/Parser/TypeParser.cpp: reading a type. A parse takes the tokens to come and
-- returns those behind it.
use three.Base.{
  ℕ, zero, suc, ◌+◌, ◌-◌, ◌*◌, Bool, true, false, not, ◌&&◌, List, [], ◌∷◌, none, some,
  if◌then◌else◌, leb, ltb, Bytes, codes, drop, Outcome, ok, aborted, out_of_fuel, ◌>>=◌,
}
use Prim.Native.Nat.{◌%◌, ◌^◌}
use three.Token.Kind.{TokenType, type_eq}
use three.QualifiedName.{QualifiedName, unnamed, append_component, shift_last_component_to_name}
use three.DataType.{
  DataType, of_kind, kind, set_kind, set_access, set_width_specifier, set_alignment_specifier,
  set_vector_size_specifier, set_character_encoding, add_subtype, wrap_in_type,
}
use three.DataType.Kinds.{Kind, CharacterEncoding, read_write}
use three.Scope.{find}
use three.ParseHelper.{Stream, front, rest_of, is_at, next_if}
use three.TypeParser.{continues}

-- `parseQualifiedName`, with the loop's fuel.
unfoldable pub parse_components : ℕ → QualifiedName → Stream → Outcome (QualifiedName × Stream)
unfolding append_component type_eq
parse_components zero name ts = out_of_fuel
parse_components (suc f) name ts =
    let round = append_component (front ts).str name >>= λ name'.
    (let ts' = rest_of ts in
      let more = parse_components f name' (drop 2 ts') in
      if continues ts' then more else ok (name', ts')) in
    if not (is_at TokenType.identifier ts) then aborted else round

unfoldable pub parse_qualified_name : ℕ → Bool → Stream → Outcome (QualifiedName × Stream)
unfolding parse_components shift_last_component_to_name
parse_qualified_name f adjust_for_identifier ts = parse_components f unnamed ts >>= λ (name, ts').
    if adjust_for_identifier
    then (shift_last_component_to_name name >>= λ name'. ok (name', ts'))
    else ok (name, ts')

-- `strtol(s, NULL, 10)` of a text that begins with a digit, stored in 32 bits.
unfoldable pub leading_number : ℕ → Bytes → ℕ
leading_number value [] = value
leading_number value (c ∷ cs) =
    let rest = leading_number (value * 10 + (c - b'0')) cs in
    if leb b'0' c && leb c b'9' then rest else value

abbrev pub largest_long : ℕ
largest_long = 2 ^ 63 - 1

unfoldable pub integer_value : Bytes → ℕ
unfolding leading_number
integer_value s =
    let value = leading_number 0 s in
    (if ltb largest_long value then largest_long else value) % 2 ^ 32

unfoldable pub parse_integer_specifier_value : Stream → Outcome (ℕ × Stream)
unfolding integer_value type_eq
parse_integer_specifier_value ts =
    if not (is_at TokenType.literal_integer ts)
    then aborted
    else ok (integer_value (front ts).str, rest_of ts)

-- One of the first two specifiers: nothing, a colon with another colon behind it, or a colon and a
-- number, which `set` stores.
unfoldable pub parse_specifier :
    (ℕ → DataType → DataType) → DataType → Stream → Outcome (DataType × Stream)
unfolding next_if parse_integer_specifier_value type_eq
parse_specifier set type ts =
    let (colon, ts') = next_if TokenType.punctuation_colon ts in
    let number = parse_integer_specifier_value ts' >>= λ (value, ts''). ok (set value type, ts'') in
    if not colon
    then ok (type, ts)
    else if is_at TokenType.punctuation_colon ts'
    then ok (type, ts')
    else number

unfoldable pub parse_vector_specifier : DataType → Stream → Outcome (DataType × Stream)
unfolding next_if parse_integer_specifier_value set_vector_size_specifier type_eq
parse_vector_specifier type ts =
    let (colon, ts') = next_if TokenType.punctuation_colon ts in
    let number = parse_integer_specifier_value ts' >>= λ (value, ts'').
    ok (set_vector_size_specifier value type, ts'') in
    if not colon then ok (type, ts) else number

abbrev pub character_encoding_map : List (Bytes × CharacterEncoding)
character_encoding_map =
    (codes "ascii", CharacterEncoding.ascii)
    ∷ (codes "utf8", CharacterEncoding.utf8)
    ∷ (codes "utf16", CharacterEncoding.utf16)
    ∷ (codes "utf16le", CharacterEncoding.utf16le)
    ∷ (codes "utf16be", CharacterEncoding.utf16be)
    ∷ (codes "utf32", CharacterEncoding.utf32)
    ∷ (codes "utf32le", CharacterEncoding.utf32le)
    ∷ (codes "utf32be", CharacterEncoding.utf32be)
    ∷ []

unfoldable pub parse_character_type_specifiers : DataType → Stream → Outcome (DataType × Stream)
unfolding next_if find set_character_encoding type_eq
parse_character_type_specifiers type ts =
    let (colon, ts') = next_if TokenType.punctuation_colon ts in
    let encoded : Outcome (DataType × Stream) = elim (find (front ts').str character_encoding_map) [
      | some encoding ↦ ok (set_character_encoding encoding type, rest_of ts')
      | none ↦ aborted
    ] in
    if not colon
    then ok (type, ts)
    else if not (is_at TokenType.identifier ts')
    then aborted
    else encoded

unfoldable pub is_character : Kind → Bool
is_character Kind.character = true
is_character _ = false

unfoldable pub parse_type_specifiers : DataType → Stream → Outcome (DataType × Stream)
unfolding is_character parse_character_type_specifiers parse_specifier parse_vector_specifier
    set_width_specifier set_alignment_specifier
parse_type_specifiers type ts =
    let numbers = (do
      (type1, ts1) ← parse_specifier set_width_specifier type ts
      (type2, ts2) ← parse_specifier set_alignment_specifier type1 ts1
      parse_vector_specifier type2 ts2) in
    if is_character (kind type) then parse_character_type_specifiers type ts else numbers

abbrev pub nullable_kind : Bool → Kind
nullable_kind generic_param =
    if generic_param then Kind.generic_nullable_pointer else Kind.nullable_pointer

-- `applyTypePostfixes`.
unfoldable pub apply_type_postfixes : DataType → Bool → Stream → DataType × Stream
unfolding next_if set_access add_subtype
apply_type_postfixes original_type generic_param ts =
    let (is_mutable, ts1) = next_if TokenType.operator_not ts in
    let type = if is_mutable then set_access read_write original_type else original_type in
    let (is_nullable, ts2) = next_if TokenType.operator_question_mark ts1 in
    (if is_nullable then add_subtype type (of_kind (nullable_kind generic_param)) else type, ts2)

-- `parseTypePostfixes`: what `?` makes of a type.
unfoldable pub nullable_version : Kind → DataType → DataType
unfolding set_kind wrap_in_type
nullable_version Kind.pointer type = set_kind Kind.nullable_pointer type
nullable_version Kind.generic_pointer type = set_kind Kind.generic_nullable_pointer type
nullable_version Kind.generic type = wrap_in_type Kind.generic_nullable_pointer type []
nullable_version _ type = wrap_in_type Kind.nullable_pointer type []

unfoldable pub parse_type_postfixes : DataType → Stream → DataType × Stream
unfolding next_if set_access nullable_version
parse_type_postfixes original_type ts =
    let (is_mutable, ts1) = next_if TokenType.operator_not ts in
    let type = if is_mutable then set_access read_write original_type else original_type in
    let (is_nullable, ts2) = next_if TokenType.operator_question_mark ts1 in
    (if is_nullable then nullable_version (kind original_type) type else type, ts2)
