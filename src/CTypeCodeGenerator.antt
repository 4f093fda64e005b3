-- ===== src/CTypeCodeGenerator.antt =====
-- `CTypeCodeGenerator` of compiler/CodeGen/CTypeCodeGenerator.cpp: the C text of a type. The
-- functions are recursive on the type; each takes the texts of the types that it holds.
pub mod Pointers
pub mod Tuples
use three.Base.{
  ℕ, zero, suc, ◌+◌, Bool, true, false, not, ◌&&◌, ◌||◌, [], ◌∷◌, ◌++◌, ◌==◌, ltb, leb,
  if◌then◌else◌, Bytes, codes, length, decimal, Outcome, ok, aborted, ◌>>=◌,
}
use three.QualifiedName.{to_s, valid}
use three.DataType.{Attributes, attributes, DataType, DataTypes, data_type, nil, cons, count}
use three.DataType.Kinds.{Kind, Access, is_pointer_kind, is_c_scalar_kind}

unfoldable pub is_read : Access → Bool
is_read Access.read = true
is_read _ = false

unfoldable pub type_can_be_const : Attributes → Bool
unfolding is_read
type_can_be_const a = elim a.kind [ Kind.void ↦ false | Kind.vararg ↦ false | _ ↦ is_read a.access ]

unfoldable pub code_gen_c_scalar_type : Attributes → Outcome Bytes
unfolding valid
code_gen_c_scalar_type a =
    let unnamed_text : Outcome Bytes = elim a.kind [
      | Kind.c_unsigned_int ↦ ok (codes "unsigned int")
      | Kind.c_int ↦ ok (codes "int")
      | Kind.c_char ↦ ok (codes "char")
      | _ ↦ aborted
    ] in
    if not (is_c_scalar_kind a.kind)
    then aborted
    else if valid a.name
    then ok (to_s a.name)
    else unnamed_text

-- The second `switch` of `codeGenScalarType`; `tuple_name` is the name of the type's tuple structure.
unfoldable pub scalar_text : Kind → Attributes → Outcome Bytes → Outcome Bytes
scalar_text Kind.void a tuple_name = ok (codes "void")
scalar_text Kind.integer a tuple_name = ok (codes "int")
scalar_text Kind.boolean a tuple_name = ok (codes "bool")
scalar_text Kind.natural a tuple_name = ok (
    if ltb 16 a.width_specifier && leb a.width_specifier 32
    then codes "uint32_t"
    else codes "unsigned int")
scalar_text Kind.float a tuple_name =
    ok (if ltb 32 a.width_specifier then codes "double" else codes "float")
scalar_text Kind.real a tuple_name =
    ok (if ltb 32 a.width_specifier then codes "double" else codes "float")
scalar_text Kind.character a tuple_name = ok (codes "char")
scalar_text Kind.closure a tuple_name = ok (codes "three_closure_t")
scalar_text Kind.vararg a tuple_name = ok (codes "va_list")
scalar_text Kind.tuple a tuple_name = tuple_name
scalar_text Kind.structure a tuple_name = ok (to_s a.name)
scalar_text Kind.enumeration a tuple_name = ok (to_s a.name)
scalar_text Kind.union a tuple_name = ok (to_s a.name)
scalar_text Kind.c_structure a tuple_name = ok (to_s a.name)
scalar_text Kind.c_struct_prefixed_structure a tuple_name = ok (codes "struct " ++ to_s a.name)
scalar_text _ a tuple_name = aborted

-- `const `, where the type can be.
unfoldable pub const_prefix : Attributes → Bytes
unfolding type_can_be_const
const_prefix a = if type_can_be_const a then codes "const " else []

unfoldable pub code_gen_scalar_type : Attributes → Outcome Bytes → Outcome Bytes
unfolding const_prefix code_gen_c_scalar_type scalar_text
code_gen_scalar_type a tuple_name = do
  s ← if is_c_scalar_kind a.kind then code_gen_c_scalar_type a else scalar_text a.kind a tuple_name
  ok (const_prefix a ++ s)

-- How `codeGenType` treats a kind.
pub data Rendering : Type 0 where
  as_scalar as_array as_named_pointer not_rendered : Rendering

unfoldable pub rendering : Kind → Rendering
rendering Kind.void = Rendering.as_scalar
rendering Kind.integer = Rendering.as_scalar
rendering Kind.boolean = Rendering.as_scalar
rendering Kind.natural = Rendering.as_scalar
rendering Kind.float = Rendering.as_scalar
rendering Kind.real = Rendering.as_scalar
rendering Kind.character = Rendering.as_scalar
rendering Kind.vararg = Rendering.as_scalar
rendering Kind.tuple = Rendering.as_scalar
rendering Kind.c_int = Rendering.as_scalar
rendering Kind.c_char = Rendering.as_scalar
rendering Kind.c_unsigned_int = Rendering.as_scalar
rendering Kind.closure = Rendering.as_scalar
rendering Kind.structure = Rendering.as_scalar
rendering Kind.enumeration = Rendering.as_scalar
rendering Kind.union = Rendering.as_scalar
rendering Kind.c_structure = Rendering.as_scalar
rendering Kind.c_struct_prefixed_structure = Rendering.as_scalar
rendering Kind.array = Rendering.as_array
rendering Kind.pointer = Rendering.as_named_pointer
rendering Kind.nullable_pointer = Rendering.as_named_pointer
rendering _ = Rendering.not_rendered

-- `[n]`, or `[]` for no count.
unfoldable pub array_suffix : ℕ → Bytes
array_suffix n = codes "[" ++ ((if ltb 0 n then decimal n else []) ++ codes "]")

-- `codeGenType`; `element` is the text of the first subtype.
unfoldable pub type_text : Attributes → Outcome Bytes → Outcome Bytes → Outcome Bytes
unfolding rendering code_gen_scalar_type array_suffix const_prefix valid
type_text a element tuple_name = elim (rendering a.kind) [
  | Rendering.as_scalar ↦ code_gen_scalar_type a tuple_name
  | Rendering.as_array ↦ element >>= λ s. ok (s ++ array_suffix a.array_count)
  | Rendering.as_named_pointer ↦
      if valid a.name then ok (const_prefix a ++ to_s a.name) else aborted
  | Rendering.not_rendered ↦ aborted
]

-- `std::replace`, for `*` and then for a space.
unfoldable pub replace : ℕ → ℕ → Bytes → Bytes
replace old new [] = []
replace old new (c ∷ cs) = (if c == old then new else c) ∷ replace old new cs

-- The end of `codeGenTupleStructName`, from the parts that the loop printed.
unfoldable pub tuple_struct_name : DataTypes → Outcome Bytes → Outcome Bytes
unfolding replace
tuple_struct_name nil parts = aborted
tuple_struct_name (cons t ts) parts = do
  s ← parts
  ok (replace b' ' b'_' (replace b'*' b'P' (s ++ codes "tuple_t")))

-- The text of one pointer, in the first loop of `codeGen`.
unfoldable pub pointer_text : Attributes → Bytes
unfolding type_can_be_const
pointer_text a =
    let star : Bytes = elim a.kind [
      | Kind.nullable_pointer ↦ codes "* THREE_ATTR_NULLABLE"
      | _ ↦ codes "*"
    ] in
    if type_can_be_const a then star ++ codes " const" else star

-- The variable's name behind the pointers.
unfoldable pub with_variable : Bytes → Bytes → Bytes
with_variable inner variable = if ltb 0 (length variable) then inner ++ (b' ' ∷ variable) else inner

-- Whether the loop over the pointers goes on at a type.
unfoldable pub is_bare_pointer : Attributes → Bool
unfolding is_pointer_kind valid
is_bare_pointer a = is_pointer_kind a.kind && not (valid a.name)

-- `codeGenFunctionType`; `result` and `parameters` are the texts of the return type and of the
-- parameters.
unfoldable pub function_text : Bytes → Outcome Bytes → Outcome Bytes → Outcome Bytes
function_text inner result parameters = do
  r ← result
  ps ← parameters
  ok (r ++ (codes " (" ++ (inner ++ (codes ")(" ++ (ps ++ codes ")")))))

-- The last `switch` of `codeGen`.
unfoldable pub declaration_text : Kind → Bytes → Outcome Bytes → Outcome Bytes → Outcome Bytes
declaration_text Kind.function inner function plain = function
declaration_text Kind.c_function inner function plain = function
declaration_text _ inner function plain = plain >>= λ s. ok (s ++ inner)

unfoldable mutual
  unfolding type_text tuple_struct_name pointer_text with_variable is_bare_pointer function_text
      declaration_text

  -- `codeGen`, with the text of the pointers that its loop passed.
  pub code_gen_from : DataType → Bytes → Bytes → Outcome Bytes
  code_gen_from (data_type a ss ps rs gs) inner variable =
      let pointee = code_gen_only ss (pointer_text a ++ inner) variable in
      let tuple_name = tuple_struct_name ss (tuple_parts ss) in
      let inside = with_variable inner variable in
      let function = function_text inside (first_code_gen rs) (parameter_list ps) in
      let plain = type_text a (first_type ss) tuple_name in
      if is_bare_pointer a then pointee else declaration_text a.kind inside function plain

  pub code_gen_type : DataType → Outcome Bytes
  code_gen_type (data_type a ss ps rs gs) =
      type_text a (first_type ss) (tuple_struct_name ss (tuple_parts ss))

  -- A pointer has one subtype.
  pub code_gen_only : DataTypes → Bytes → Bytes → Outcome Bytes
  code_gen_only nil inner variable = aborted
  code_gen_only (cons t nil) inner variable = code_gen_from t inner variable
  code_gen_only (cons t (cons u ts)) inner variable = aborted

  -- The text of the first type, by `codeGen` and by `codeGenType`.
  pub first_code_gen : DataTypes → Outcome Bytes
  first_code_gen nil = aborted
  first_code_gen (cons t ts) = code_gen_from t [] []

  pub first_type : DataTypes → Outcome Bytes
  first_type nil = aborted
  first_type (cons t ts) = code_gen_type t

  -- Each subtype of a tuple with `_` behind it.
  pub tuple_parts : DataTypes → Outcome Bytes
  tuple_parts nil = ok []
  tuple_parts (cons t ts) =
      code_gen_from t [] [] >>= λ s. (tuple_parts ts >>= λ rest. ok (s ++ (b'_' ∷ rest)))

  pub parameter_list : DataTypes → Outcome Bytes
  parameter_list nil = ok (codes "void")
  parameter_list (cons t ts) = code_gen_from t [] (attributes t).label >>= λ s.
      (more_parameters ts >>= λ rest. ok (s ++ rest))

  pub more_parameters : DataTypes → Outcome Bytes
  more_parameters nil = ok []
  more_parameters (cons t ts) = code_gen_from t [] (attributes t).label >>= λ s.
      (more_parameters ts >>= λ rest. ok (codes ", " ++ (s ++ rest)))

unfoldable pub code_gen : DataType → Bytes → Outcome Bytes
unfolding code_gen_from
code_gen t variable = code_gen_from t [] variable
