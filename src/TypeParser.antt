-- ===== src/TypeParser.antt =====
-- `TypeParser` of compiler/Parser/TypeParser.cpp: looking ahead for a type. A depth is kept as the tokens
-- from that depth on, so `*peekDepth += 1` drops the first of them. Where a caller does not use the
-- answer of a loop, only the tokens are returned.
pub mod Parsing
pub mod Composite
pub mod Syntax
pub mod Meaning
pub mod Names
pub mod Prefixes
pub mod Lists
pub mod Looking
pub mod Sizes
pub mod Reading
pub mod Parts
pub mod RoundTrip
pub mod Endless
use three.Base.{
  ℕ, zero, suc, ◌+◌, ◌-◌, Bool, true, false, not, ◌&&◌, ◌||◌, List, [], ◌∷◌, Option, none, some,
  if◌then◌else◌, Bytes, codes, bytes_eq, drop, length, Outcome, ok, aborted, out_of_fuel, ◌>>=◌,
}
use three.Token.Kind.{TokenType, type_eq}
use three.Token.Classes.{closing_counterpart}
use three.QualifiedName.{QualifiedName, unnamed, append_component, shift_last_component_to_name}
use three.ParseContext.{ParseContext, defines_type_with_name}
use three.ParseHelper.{Stream, front, front_type, rest_of, is_at}

-- Whether `::` and an identifier follow.
abbrev pub continues : Stream → Bool
continues ts =
    is_at TokenType.punctuation_colon ts
    && (is_at TokenType.punctuation_colon (drop 1 ts) && is_at TokenType.identifier (drop 2 ts))

-- The loop of `peekQualifiedName`; the answer is none where no identifier leads.
unfoldable pub peek_components :
    ℕ → QualifiedName → Stream → Outcome (Option QualifiedName × Stream)
unfolding append_component type_eq
peek_components zero name ts = out_of_fuel
peek_components (suc f) name ts =
    let round = append_component (front ts).str name >>= λ name'.
    (let ts' = rest_of ts in
      let more = peek_components f name' (drop 2 ts') in
      if continues ts' then more else ok (some name', ts')) in
    if not (is_at TokenType.identifier ts) then ok (none, ts) else round

unfoldable pub peek_qualified_name : ℕ → Stream → Outcome (Option QualifiedName × Stream)
unfolding peek_components shift_last_component_to_name
peek_qualified_name f ts = peek_components f unnamed ts >>= λ (found, ts'). elim found [
  | some name ↦ shift_last_component_to_name name >>= λ name'. ok (some name', ts')
  | none ↦ ok (none, ts')
]

-- `!` and `?`.
unfoldable pub is_postfix : TokenType → Bool
is_postfix TokenType.operator_not = true
is_postfix TokenType.operator_question_mark = true
is_postfix _ = false

unfoldable pub peek_type_postfixes : Stream → Stream
unfolding is_postfix
peek_type_postfixes [] = []
peek_type_postfixes (t ∷ ts) =
    let rest = peek_type_postfixes ts in if is_postfix t.type then rest else t ∷ ts

-- The argument of an annotation, in parentheses.
unfoldable pub annotation_argument : Stream → Option Stream
unfolding type_eq
annotation_argument ts =
    if not (is_at TokenType.punctuation_open_paren ts)
    then none
    else if not (is_at TokenType.punctuation_close_paren (drop 2 ts))
    then none
    else some (drop 3 ts)

-- One round of `peekTypeAnnotations`: the tokens behind an annotation.
unfoldable pub annotation_round : Stream → Option Stream
unfolding annotation_argument type_eq
annotation_round ts =
    let behind = rest_of ts in
    elim (front_type ts) [
      | TokenType.annotation_const ↦ some behind
      | TokenType.annotation_restrict ↦ some behind
      | TokenType.annotation_volatile ↦
          if not (is_at TokenType.punctuation_open_paren behind)
          then some behind
          else annotation_argument behind
      | TokenType.annotation_access ↦ annotation_argument behind
      | TokenType.annotation_alias ↦ annotation_argument behind
      | _ ↦ none
    ]

unfoldable pub peek_type_annotations : ℕ → Stream → Outcome Stream
unfolding annotation_round
peek_type_annotations zero ts = out_of_fuel
peek_type_annotations (suc f) ts = elim (annotation_round ts) [
  | none ↦ ok ts
  | some ts' ↦ peek_type_annotations f ts'
]

-- How a round of the loop of `peekTypePrefixes` ends: it goes on at a depth, or the loop returns with
-- the depth it has reached.
pub data Step : Type 0 where
  goes_on stops : Stream → Step

-- A `[`, an integer and a `]`.
unfoldable pub peek_array_prefix : Stream → Step
unfolding type_eq
peek_array_prefix ts =
    if not (is_at TokenType.literal_integer (drop 1 ts))
    then Step.stops (drop 1 ts)
    else if not (is_at TokenType.punctuation_close_bracket (drop 2 ts))
    then Step.stops (drop 2 ts)
    else Step.goes_on (drop 3 ts)

unfoldable pub is_prefix_annotation : TokenType → Bool
is_prefix_annotation TokenType.annotation_access = true
is_prefix_annotation TokenType.annotation_volatile = true
is_prefix_annotation TokenType.annotation_alias = true
is_prefix_annotation TokenType.annotation_const = true
is_prefix_annotation TokenType.annotation_restrict = true
is_prefix_annotation _ = false

unfoldable pub prefix_round : ℕ → Stream → Outcome Step
unfolding peek_type_postfixes peek_array_prefix is_prefix_annotation peek_type_annotations type_eq
prefix_round f ts =
    if is_at TokenType.operator_star ts
    then ok (Step.goes_on (peek_type_postfixes (rest_of ts)))
    else if is_at TokenType.punctuation_open_bracket ts
    then ok (peek_array_prefix ts)
    else if is_prefix_annotation (front_type ts)
    then (peek_type_annotations f ts >>= λ ts'. ok (Step.goes_on ts'))
    else ok (Step.stops ts)

-- The loop of `peekTypePrefixes`; `limit` is the fuel of the annotations.
unfoldable pub peek_type_prefixes : ℕ → ℕ → Stream → Outcome Stream
unfolding prefix_round
peek_type_prefixes limit zero ts = out_of_fuel
peek_type_prefixes limit (suc f) ts = prefix_round limit ts >>= λ step. elim step [
  | Step.goes_on ts' ↦ peek_type_prefixes limit f ts'
  | Step.stops ts' ↦ ok ts'
]

-- The specifiers behind a type's name: up to three, each behind a colon.
unfoldable pub peek_third_specifier : Stream → Bool × Stream
unfolding type_eq
peek_third_specifier ts =
    if not (is_at TokenType.punctuation_colon ts)
    then (true, ts)
    else if not (is_at TokenType.literal_integer (drop 1 ts))
    then (false, drop 1 ts)
    else (true, drop 2 ts)

unfoldable pub peek_second_specifier : Stream → Bool × Stream
unfolding peek_third_specifier type_eq
peek_second_specifier ts =
    if not (is_at TokenType.punctuation_colon ts)
    then (true, ts)
    else if is_at TokenType.literal_integer (drop 1 ts)
    then peek_third_specifier (drop 2 ts)
    else if is_at TokenType.punctuation_colon (drop 1 ts)
    then peek_third_specifier (drop 1 ts)
    else (false, drop 1 ts)

unfoldable pub peek_specifiers : Stream → Bool × Stream
unfolding peek_second_specifier type_eq
peek_specifiers ts =
    if not (is_at TokenType.punctuation_colon ts)
    then (true, ts)
    else if is_at TokenType.identifier (drop 1 ts) || is_at TokenType.literal_integer (drop 1 ts)
    then peek_second_specifier (drop 2 ts)
    else if is_at TokenType.punctuation_colon (drop 1 ts)
    then peek_second_specifier (drop 1 ts)
    else (false, drop 1 ts)

unfoldable pub peek_simple_type : ℕ → ParseContext → Stream → Outcome (Bool × Stream)
unfolding peek_qualified_name defines_type_with_name peek_specifiers type_eq
peek_simple_type f c ts =
    let named = peek_qualified_name f ts >>= λ (found, ts'). elim found [
      | some name ↦
          ok (if not (defines_type_with_name c name) then (false, ts) else peek_specifiers ts')
      | none ↦ ok (false, ts)
    ] in
    if is_at TokenType.keyword_vararg ts then ok (true, rest_of ts) else named

-- `peekTypeList`, over `peekType`. The loop makes `rounds` rounds at most.
unfoldable pub peek_type_list :
    (Stream → Outcome (Bool × Stream))
    → TokenType
    → Bool
    → ℕ
    → Bool
    → Stream
    → Outcome (Bool × Stream)
unfolding type_eq
peek_type_list peek_type closing allow_label zero must_peek_type ts = aborted
peek_type_list peek_type closing allow_label (suc rounds) must_peek_type ts =
    let round = peek_type ts >>= λ (found, ts1).
    (let ts2 = if allow_label && is_at TokenType.identifier ts1 then rest_of ts1 else ts1 in
      let comma = is_at TokenType.punctuation_comma ts2 in
      let more =
        peek_type_list peek_type closing allow_label rounds comma
          (if comma then rest_of ts2 else ts2) in
      if not found then ok (false, ts1) else more) in
    if not must_peek_type && is_at closing ts then ok (true, ts) else round

-- `peekFunctionOrTupleType`, at an opening parenthesis or brace.
unfoldable pub peek_function_or_tuple_type :
    (Stream → Outcome (Bool × Stream)) → Stream → Outcome (Bool × Stream)
unfolding closing_counterpart peek_type_list type_eq
peek_function_or_tuple_type peek_type ts =
    let closing = closing_counterpart (front_type ts) in
    let maybe_a_tuple = type_eq closing TokenType.punctuation_close_paren in
    peek_type_list peek_type closing maybe_a_tuple 100 false (rest_of ts) >>= λ (found, ts1).
    (let ts2 = rest_of ts1 in
      if not found
      then ok (false, ts1)
      else if not (is_at TokenType.operator_arrow ts2)
      then ok (true, ts2)
      else peek_type (rest_of ts2))

-- The rest of `peekType`, behind the prefixes.
unfoldable pub peek_core :
    ℕ → (Stream → Outcome (Bool × Stream)) → ParseContext → Stream → Outcome (Bool × Stream)
unfolding peek_function_or_tuple_type peek_simple_type peek_type_postfixes type_eq
peek_core f peek_type c ts =
    let simple = peek_simple_type f c ts >>= λ (found, ts').
    ok (if found then (true, peek_type_postfixes ts') else (false, ts')) in
    if is_at TokenType.punctuation_open_paren ts || is_at TokenType.punctuation_open_brace ts
    then peek_function_or_tuple_type peek_type ts
    else simple

-- `peekType`. Fuel is spent on types inside types and on the rounds of the other loops.
unfoldable pub peek_type : ℕ → ParseContext → Stream → Outcome (Bool × Stream)
unfolding peek_type_prefixes peek_core
peek_type zero c ts = out_of_fuel
peek_type (suc f) c ts =
    peek_type_prefixes (suc f) (suc f) ts >>= peek_core (suc f) (peek_type f c) c

-- The fuel that the tokens to come allow.
unfoldable pub is_at_type : ParseContext → Stream → Outcome Bool
unfolding peek_type
is_at_type c ts = peek_type (suc (length ts)) c ts >>= λ (found, ts'). ok found

-- `peekDepthIfAtType(peekDepth)`.
unfoldable pub peek_depth_if_at_type : ParseContext → ℕ → Stream → Outcome ℕ
unfolding peek_type
peek_depth_if_at_type c depth ts =
    let at = drop (depth - 1) ts in
    peek_type (suc (length at)) c at >>= λ (found, ts').
    ok (if found then depth + (length at - length ts') else 0)
