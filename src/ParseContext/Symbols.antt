-- ===== src/ParseContext/Symbols.antt =====
-- The functions, variables, constants and scopes of a `ParseContext` of
-- compiler/Parser/ParseContext.cpp, over the `SymbolContainer` of compiler/Constructs/SymbolContainer.h.
use three.Base.{
  Bool, true, false, not, List, [], ◌∷◌, Option, none, some, if◌then◌else◌, Bytes, Outcome, ok,
  aborted,
}
use three.QualifiedName.{QualifiedName, unnamed, of_identifier, to_s, prepend_name}
use three.DataType.{DataType, of_kind, kind, defined}
use three.DataType.Kinds.{Kind}
use three.Scope.{new_scope, Frame, Scope, find, insert, full_namespace}
use three.Scope
use three.ParseContext.{
  Variable, Constant, ParseContext, context, ParseContexts, none_imported, importing, set_contents,
}

-- `SymbolContainer`: the symbols by the C text of their names.
module _ {A : Type 0} where
  unfoldable pub symbol_for_exact_name : A → List (Bytes × A) → QualifiedName → A
  unfolding find
  symbol_for_exact_name missing symbols name = elim (find (to_s name) symbols) [
    | some symbol ↦ symbol
    | none ↦ missing
  ]

  unfoldable pub symbol_for_name : A → List (Bytes × A) → QualifiedName → QualifiedName → A
  unfolding symbol_for_exact_name prepend_name
  symbol_for_name missing symbols name containing_namespace =
      symbol_for_exact_name missing symbols (prepend_name containing_namespace name)

  unfoldable pub define_symbol_for_name :
      A → QualifiedName → List (Bytes × A) → Bool × List (Bytes × A)
  unfolding find insert
  define_symbol_for_name symbol name symbols = elim (find (to_s name) symbols) [
    | some s ↦ (false, symbols)
    | none ↦ (true, insert (to_s name) symbol symbols)
  ]

-- `functionForName`.
unfoldable mutual
  unfolding symbol_for_name defined full_namespace

  pub function_for_name : ParseContext → QualifiedName → DataType
  function_for_name (context k imported) name =
      let outer = symbol_for_name (of_kind Kind.undefined) k.functions name unnamed in
      let inner =
        symbol_for_name (of_kind Kind.undefined) k.functions name (full_namespace k.scope) in
      let others = imported_function imported name in
      if defined outer then outer else if defined inner then inner else others

  pub imported_function : ParseContexts → QualifiedName → DataType
  imported_function none_imported name = of_kind Kind.undefined
  imported_function (importing c cs) name =
      let type = function_for_name c name in
      let rest = imported_function cs name in if defined type then type else rest

-- The first of two pointers that is not null.
abbrev pub first_of {ℓ} : {A : Type ℓ} → Option A → Option A → Option A
first_of (some a) other = some a
first_of none other = other

-- `variableForName`.
unfoldable mutual
  unfolding symbol_for_name full_namespace Scope.variable_for_name

  pub variable_for_name : ParseContext → QualifiedName → Option Variable
  variable_for_name (context k imported) name =
      let outer = symbol_for_name none k.variables name unnamed in
      let inner = symbol_for_name none k.variables name (full_namespace k.scope) in
      let others = imported_variable imported name in
      first_of outer (first_of inner (first_of others (Scope.variable_for_name name k.scope)))

  pub imported_variable : ParseContexts → QualifiedName → Option Variable
  imported_variable none_imported name = none
  imported_variable (importing c cs) name =
      let rest = imported_variable cs name in first_of (variable_for_name c name) rest

unfoldable pub define_variable : Variable → Bool → ParseContext → Bool × ParseContext
unfolding define_symbol_for_name Scope.define_variable
define_variable variable scoped (context k imported) =
    let (defined, symbols) = define_symbol_for_name (some variable) variable.name k.variables in
    if scoped
    then (
      true,
      context (record k { scope = Scope.define_variable variable.name variable k.scope }) imported,
    )
    else (defined, context (record k { variables = symbols }) imported)

unfoldable pub define_variable_type_for_name :
    DataType → QualifiedName → Bool → ParseContext → Bool × ParseContext
unfolding define_variable
define_variable_type_for_name type name scoped c =
    define_variable (record { name = name; type = type; global = false }) scoped c

unfoldable pub is_function_kind : Kind → Bool
is_function_kind Kind.function = true
is_function_kind Kind.c_function = true
is_function_kind _ = false

unfoldable pub define_function_for_name :
    DataType → QualifiedName → ParseContext → Outcome (Bool × ParseContext)
unfolding is_function_kind define_symbol_for_name define_variable_type_for_name
define_function_for_name type name (context k imported) =
    let (added, symbols) = define_symbol_for_name type name k.functions in
    let c = context (record k { functions = symbols }) imported in
    if not (is_function_kind (kind type))
    then aborted
    else ok (if not added then (false, c) else define_variable_type_for_name type name false c)

unfoldable mutual
  unfolding find

  pub constant_for_name : ParseContext → QualifiedName → Option Constant
  constant_for_name (context k imported) name =
      let others = imported_constant imported (to_s name) in
      elim (find (to_s name) k.constants) [ some c ↦ some c | none ↦ others ]

  pub imported_constant : ParseContexts → Bytes → Option Constant
  imported_constant none_imported name = none
  imported_constant (importing c cs) name =
      let rest = imported_constant cs name in
      first_of (constant_for_name c (of_identifier name)) rest

unfoldable pub define_constant : Constant → ParseContext → Bool × ParseContext
unfolding constant_for_name insert
define_constant constant c = elim (constant_for_name c constant.name) [
  | some other ↦ (false, c)
  | none ↦ (
    true,
    set_contents (λ k. record k { constants = insert (to_s constant.name) constant k.constants }) c,
  )
]

unfoldable pub push_scope : ParseContext → ParseContext
push_scope = set_contents λ k. record k { scope = (new_scope, k.scope.0 ∷ k.scope.1) }

-- The root scope has no parent.
unfoldable pub pop_scope : ParseContext → Outcome ParseContext
pop_scope (context k imported) = elim k.scope.1 [
  | [] ↦ aborted
  | parent ∷ parents ↦ ok (context (record k { scope = (parent, parents) }) imported)
]

-- `Scope::defineVariableTypeForName`.
unfoldable pub define_type_in_scope : DataType → QualifiedName → Scope Variable → Scope Variable
unfolding Scope.define_variable
define_type_in_scope type name scope =
    Scope.define_variable name (record { name = name; type = type; global = false }) scope
