-- ===== src/ParseContext.antt =====
-- `ParseContext` of compiler/Parser/ParseContext.cpp, with the `Variable` and `Constant` it keeps. A context holds the contexts that
-- it imports. A pointer to a variable or a constant that may be null is an option.
pub mod Types
pub mod Symbols
pub mod Variables
use three.Base.{
  ℕ, Bool, true, false, not, ◌&&◌, ◌||◌, List, [], ◌∷◌, ◌++◌, Option, none, some, ◌==◌, length,
  if◌then◌else◌, Bytes, codes, bytes_eq, Outcome, ok, aborted, ◌>>=◌,
}
use three.QualifiedName.{QualifiedName, unnamed, of_identifier, to_s, prepend_name}
use three.DataType.{DataType, of_kind, kind, defined}
use three.DataType.Kinds.{Kind}
use three.Scope.{new_scope, Frame, Scope, find, insert, full_namespace}
use three.Scope

pub record Variable : Type 0 where
  pub name : QualifiedName
  pub type : DataType
  pub global : Bool

pub record Constant : Type 0 where
  pub name : QualifiedName
  pub type : DataType

pub record Contents : Type 0 where
  pub data_types : List (Bytes × DataType)
  pub functions : List (Bytes × DataType)
  pub variables : List (Bytes × Option Variable)
  pub constants : List (Bytes × Constant)
  -- The current scope and its parents, up to the root.
  pub scope : Scope Variable

mutual
  pub data ParseContext : Type 0 where
    context : Contents → ParseContexts → ParseContext

  pub data ParseContexts : Type 0 where
    none_imported : ParseContexts
    importing : ParseContext → ParseContexts → ParseContexts

abbrev pub contents : ParseContext → Contents
contents (context k imported) = k

abbrev pub set_contents : (Contents → Contents) → ParseContext → ParseContext
set_contents f (context k imported) = context (f k) imported

-- `new ParseContext()`.
abbrev pub new_context : ParseContext
new_context =
    context
      (record {
        data_types =
            (codes "Void", of_kind Kind.void)
            ∷ (codes "Bool", of_kind Kind.boolean)
            ∷ (codes "Int", of_kind Kind.integer)
            ∷ (codes "Natural", of_kind Kind.natural)
            ∷ (codes "Float", of_kind Kind.float)
            ∷ (codes "Real", of_kind Kind.real)
            ∷ (codes "Char", of_kind Kind.character)
            ∷ (codes "Vararg", of_kind Kind.vararg)
            ∷ [];
        functions = [];
        variables = [];
        constants = [];
        scope = (new_scope, []);
      })
      none_imported

-- `dataTypeForName`, where `exact` is `dataTypeForExactName`.
unfoldable pub lookup_type : Scope Variable → (Bytes → DataType) → QualifiedName → DataType
unfolding defined prepend_name full_namespace
lookup_type scope exact name =
    let type = exact (to_s name) in
    if defined type
    then type
    else if length (full_namespace scope).components == 0
    then of_kind Kind.undefined
    else exact (to_s (prepend_name (full_namespace scope) name))

-- `dataTypeForExactName`, where `imported` is the search of the imported contexts.
unfoldable pub exact_type : List (Bytes × DataType) → (Bytes → DataType) → Bytes → DataType
unfolding find
exact_type types imported name = elim (find name types) [ some t ↦ t | none ↦ imported name ]

unfoldable mutual
  unfolding lookup_type exact_type defined

  pub data_type_for_name : ParseContext → QualifiedName → DataType
  data_type_for_name (context k imported) name =
      lookup_type k.scope (exact_type k.data_types (imported_type imported)) name

  pub imported_type : ParseContexts → Bytes → DataType
  imported_type none_imported name = of_kind Kind.undefined
  imported_type (importing c cs) name =
      let type = data_type_for_name c (of_identifier name) in
      let rest = imported_type cs name in if defined type then type else rest

unfoldable pub data_type_for_exact_name : ParseContext → Bytes → DataType
unfolding exact_type imported_type
data_type_for_exact_name (context k imported) name =
    exact_type k.data_types (imported_type imported) name

unfoldable pub type_kind_with_name : ParseContext → Bytes → Kind
unfolding data_type_for_name
type_kind_with_name c name = kind (data_type_for_name c (of_identifier name))

unfoldable pub is_undefined : Kind → Bool
is_undefined Kind.undefined = true
is_undefined _ = false

-- `definesTypeWithName` of a string, and of a qualified name.
unfoldable pub defines_type : ParseContext → Bytes → Bool
unfolding type_kind_with_name is_undefined
defines_type c name = not (is_undefined (type_kind_with_name c name))

unfoldable pub defines_type_with_name : ParseContext → QualifiedName → Bool
unfolding defines_type full_namespace prepend_name
defines_type_with_name c name =
    let namespace = full_namespace (contents c).scope in
    if defines_type c (to_s name)
    then true
    else if length namespace.components == 0
    then false
    else defines_type c (to_s (prepend_name namespace name))

unfoldable mutual
  unfolding defines_type bytes_eq

  pub identifier_available_for_definition : ParseContext → Bytes → Bool
  identifier_available_for_definition (context k imported) name =
      let others = all_available imported name in
      if defines_type (context k imported) name
      then false
      else if bytes_eq name (codes "cas")
      then false
      else others

  pub all_available : ParseContexts → Bytes → Bool
  all_available none_imported name = true
  all_available (importing c cs) name =
      let rest = all_available cs name in
      let first = identifier_available_for_definition c name in if not first then false else rest

-- `_dataTypeMap[name] = type`.
unfoldable pub store_type : DataType → Bytes → ParseContext → ParseContext
unfolding insert
store_type type name = set_contents λ k. record k { data_types = insert name type k.data_types }

unfoldable pub define_type_for_name : DataType → Bytes → ParseContext → Bool × ParseContext
unfolding defines_type store_type
define_type_for_name type name c =
    if defines_type c name then (false, c) else (true, store_type type name c)

unfoldable pub redefine_type_for_name : DataType → Bytes → ParseContext → Bool × ParseContext
unfolding defines_type store_type
redefine_type_for_name type name c =
    if not (defines_type c name) then (false, c) else (true, store_type type name c)
