-- ===== src/TypeParser/Composite.antt =====
-- `TypeParser` of compiler/Parser/TypeParser.cpp: `parseType` and the types that hold types. Each of
-- these takes `parseType` for the types inside it.
use three.Base.{
  ℕ, zero, suc, Bool, true, false, not, ◌&&◌, [], if◌then◌else◌, Outcome, ok, aborted, out_of_fuel,
  ◌>>=◌,
}
use three.Token.Kind.{TokenType, type_eq}
use three.QualifiedName.{of_identifier, to_s, valid}
use three.DataType.{
  DataType, DataTypes, data_type, nil, cons, of_kind, set_kind, set_name, set_label,
  set_array_count, add_subtype, set_return_type, wrap_in_pointer,
}
use three.DataType.Kinds.{Kind}
use three.ParseContext.{ParseContext, data_type_for_name}
use three.ParseHelper.{Stream, front, front_type, rest_of, is_at, next_if}
use three.TypeParser.{is_at_type}
use three.TypeParser.Parsing.{
  parse_qualified_name, parse_type_specifiers, apply_type_postfixes, parse_type_postfixes,
  parse_integer_specifier_value,
}

-- The types of the sections below; `parse_type` takes `genericParam`.
abbrev pub TypeReader : Type 0
TypeReader = Bool → Stream → Outcome (DataType × Stream)

unfoldable pub parse_pointer_type : TypeReader → TypeReader
unfolding parse_type_postfixes add_subtype apply_type_postfixes
parse_pointer_type parse_type generic_param ts =
    let pointer = if generic_param then Kind.generic_pointer else Kind.pointer in
    let (type, ts1) = parse_type_postfixes (of_kind pointer) (rest_of ts) in
    parse_type generic_param ts1 >>= λ (subtype, ts2).
    ok (apply_type_postfixes (add_subtype subtype type) generic_param ts2)

-- The count, where there is one.
unfoldable pub parse_array_count : DataType → Stream → Outcome (DataType × Stream)
unfolding parse_integer_specifier_value set_array_count type_eq
parse_array_count type ts =
    let counted =
      parse_integer_specifier_value ts >>= λ (value, ts'). ok (set_array_count value type, ts') in
    if not (is_at TokenType.punctuation_close_bracket ts) then counted else ok (type, ts)

unfoldable pub parse_array_type : TypeReader → TypeReader
unfolding parse_array_count add_subtype apply_type_postfixes type_eq
parse_array_type parse_type generic_param ts =
    let array = if generic_param then Kind.generic_array else Kind.array in
    parse_array_count (of_kind array) (rest_of ts) >>= λ (type, ts1).
    (let element = parse_type generic_param (rest_of ts1) >>= λ (subtype, ts2).
    ok (apply_type_postfixes (add_subtype subtype type) generic_param ts2) in
      if not (is_at TokenType.punctuation_close_bracket ts1) then aborted else element)

-- The loop of `parseTypeList`, of `rounds` rounds at most: its answer, the types that it passes to its
-- function, in order, and the tokens behind. `at_type` is `isAtType`.
unfoldable pub type_list_loop :
    (Stream → Outcome Bool)
    → TypeReader
    → TokenType
    → Bool
    → ℕ
    → Stream
    → Outcome (Bool × DataTypes × Stream)
unfolding next_if set_label type_eq
type_list_loop at_type parse_type closing allow_identifiers zero ts = aborted
type_list_loop at_type parse_type closing allow_identifiers (suc rounds) ts =
    let round = parse_type false ts >>= λ (t, ts1).
    (let labelled = allow_identifiers && is_at TokenType.identifier ts1 in
      let type = if labelled then set_label (front ts1).str t else t in
      let ts2 = if labelled then rest_of ts1 else ts1 in
      let (comma, ts3) = next_if TokenType.punctuation_comma ts2 in
      let more =
        type_list_loop at_type parse_type closing allow_identifiers rounds ts3
        >>= λ (found, types, ts4). ok (found, cons type types, ts4) in
      if not comma && is_at closing ts3 then ok (true, cons type nil, ts3) else more) in
    at_type ts >>= λ there. (if not there then ok (false, nil, ts) else round)

unfoldable pub parse_type_list :
    (Stream → Outcome Bool)
    → TypeReader
    → TokenType
    → Bool
    → Stream
    → Outcome (Bool × DataTypes × Stream)
unfolding type_list_loop type_eq
parse_type_list at_type parse_type closing allow_identifiers ts =
    if is_at closing ts
    then ok (true, nil, ts)
    else type_list_loop at_type parse_type closing allow_identifiers 100 ts

unfoldable pub with_subtypes : DataTypes → DataType → DataType
with_subtypes types (data_type a ss ps rs gs) = data_type a types ps rs gs

unfoldable pub with_parameters : DataTypes → DataType → DataType
with_parameters types (data_type a ss ps rs gs) = data_type a ss types rs gs

unfoldable pub parse_function_or_tuple_type :
    (Stream → Outcome Bool) → TypeReader → Stream → Outcome (DataType × Stream)
unfolding next_if parse_type_list with_subtypes with_parameters set_kind set_return_type type_eq
parse_function_or_tuple_type at_type parse_type ts =
    let elements =
      parse_type_list at_type parse_type TokenType.punctuation_close_paren true (rest_of ts) in
    if not (is_at TokenType.punctuation_open_paren ts)
    then aborted
    else elements >>= λ (found, types, ts1).
        (let (closed, ts2) = next_if TokenType.punctuation_close_paren ts1 in
          let (arrow, ts3) = next_if TokenType.operator_arrow ts2 in
          let tuple = set_kind Kind.tuple (with_subtypes types (of_kind Kind.undefined)) in
          let function = parse_type false ts3 >>= λ (result, ts4). ok (
            set_return_type result
                (set_kind Kind.function (with_parameters types (of_kind Kind.undefined))),
            ts4,
          ) in
          if not closed then aborted else if not arrow then ok (tuple, ts2) else function)

unfoldable pub parse_closure_type :
    (Stream → Outcome Bool) → TypeReader → Stream → Outcome (DataType × Stream)
unfolding next_if parse_type_list with_parameters wrap_in_pointer set_return_type type_eq
parse_closure_type at_type parse_type ts =
    let elements =
      parse_type_list at_type parse_type TokenType.punctuation_close_brace true (rest_of ts) in
    if not (is_at TokenType.punctuation_open_brace ts)
    then aborted
    else elements >>= λ (found, types, ts1).
        (let (closed, ts2) = next_if TokenType.punctuation_close_brace ts1 in
          let (arrow, ts3) = next_if TokenType.operator_arrow ts2 in
          let environment = wrap_in_pointer (of_kind Kind.void) [] in
          let type = with_parameters (cons environment types) (of_kind Kind.closure) in
          let returning =
            parse_type false ts3 >>= λ (result, ts4). ok (set_return_type result type, ts4) in
          if not closed
          then aborted
          else if not arrow
          then ok (set_return_type (of_kind Kind.void) type, ts2)
          else returning)

-- The end of `parseType`, for a name.
unfoldable pub parse_named_type : ℕ → ParseContext → TypeReader
unfolding parse_qualified_name valid set_name parse_type_specifiers apply_type_postfixes
parse_named_type f c generic_param ts = parse_qualified_name f true ts >>= λ (name, ts1).
    (let generic = set_name (of_identifier (to_s name)) (of_kind Kind.generic) in
      let type =
        if generic_param then generic else data_type_for_name c (of_identifier (to_s name)) in
      let specified = parse_type_specifiers type ts1 >>= λ (type', ts2).
      ok (apply_type_postfixes type' generic_param ts2) in
      if not (valid name) then aborted else specified)

-- `parseType`. Fuel is spent on types inside types and on the components of a name.
unfoldable pub parse_type : ℕ → ParseContext → TypeReader
unfolding parse_pointer_type parse_array_type parse_function_or_tuple_type parse_closure_type
    parse_named_type is_at_type
parse_type zero c generic_param ts = out_of_fuel
parse_type (suc f) c generic_param ts = elim (front_type ts) [
  | TokenType.operator_star ↦ parse_pointer_type (parse_type f c) generic_param ts
  | TokenType.punctuation_open_bracket ↦ parse_array_type (parse_type f c) generic_param ts
  | TokenType.punctuation_open_paren ↦
      parse_function_or_tuple_type (is_at_type c) (parse_type f c) ts
  | TokenType.punctuation_open_brace ↦ parse_closure_type (is_at_type c) (parse_type f c) ts
  | TokenType.keyword_vararg ↦ ok (of_kind Kind.vararg, rest_of ts)
  | _ ↦ parse_named_type (suc f) c generic_param ts
]
