-- ===== src/Tests/Contexts.antt =====
-- Instances of the theorems on the types and the variables of a context.
use three.Base.{◌≡◌, ◌≢◌, refl, true, false, [], ◌∷◌, codes, bytes_eq, if◌then◌else◌, some}
use three.QualifiedName.{of_identifier, to_s, prepend_name}
use three.DataType.{DataType, of_kind, defined}
use three.DataType.Kinds.{Kind}
use three.Scope.{Frame, Scope, new_scope, full_namespace}
use three.Scope
use three.ParseContext.{
  ParseContext, Variable, contents, new_context, data_type_for_name, store_type,
  define_type_for_name, data_type_for_exact_name, defines_type_with_name,
}
use three.ParseContext.Symbols.{variable_for_name, define_variable, first_of}
use three.ParseContext.Types.{in_scope, define_type_for_name-lookup, defines_type_with_name-doubled}
use three.ParseContext.Variables.{file_variable, variable_for_name-define_local}

abbrev point : DataType
point = of_kind Kind.structure

abbrev with_point : ParseContext
with_point = store_type point (codes "Point") new_context

abbrev counter_variable : Variable
counter_variable = record {
  name = of_identifier (codes "i");
  type = of_kind Kind.integer;
  global = false;
}

-- The scope of a function in the namespace `io`.
abbrev elsewhere : Scope Variable
elsewhere =
    (record new_scope { namespace = record { components = codes "io" ∷ []; name = [] } }, [])

not_point : to_s (of_identifier (codes "Int")) ≢ codes "Point"
unfolding to_s
not_point e = cc

not_io_point :
    to_s (prepend_name (full_namespace elsewhere) (of_identifier (codes "Int"))) ≢ codes "Point"
unfolding to_s prepend_name full_namespace
not_io_point e = cc

define_type_for_name-lookup_example :
    (data_type_for_name (in_scope elsewhere with_point) (of_identifier (codes "Point")) ≡ point)
    × (data_type_for_name (in_scope elsewhere with_point) (of_identifier (codes "Int"))
        ≡ data_type_for_name (in_scope elsewhere new_context) (of_identifier (codes "Int")))
    × (define_type_for_name (of_kind Kind.union) (codes "Point") (in_scope elsewhere with_point)
        ≡ (false, in_scope elsewhere with_point))
unfolding define_type_for_name defined bytes_eq to_s
define_type_for_name-lookup_example =
    define_type_for_name-lookup point (of_kind Kind.union) (codes "Point") new_context with_point
      elsewhere (of_identifier (codes "Int")) refl refl not_point not_io_point

-- In the namespace `N`, with the type `N::N::x`.
abbrev nested_types : ParseContext
nested_types = store_type point (codes "N_3_N_3_x") (
    in_scope
      (record new_scope { namespace = record { components = codes "N" ∷ []; name = [] } }, [])
      new_context)

defines_type_with_name-doubled_example :
    (defines_type_with_name nested_types (of_identifier (codes "x")) ≡ true)
    × (data_type_for_name nested_types (of_identifier (codes "x")) ≡ of_kind Kind.undefined)
unfolding store_type full_namespace data_type_for_exact_name bytes_eq to_s prepend_name defined
defines_type_with_name-doubled_example =
    defines_type_with_name-doubled nested_types (of_identifier (codes "x")) refl refl refl refl

variable_for_name-define_local_example :
    variable_for_name
      (define_variable counter_variable true new_context).1
      (of_identifier (codes "i"))
    ≡ first_of (file_variable new_context (of_identifier (codes "i"))) (
        if bytes_eq (to_s counter_variable.name) (to_s (of_identifier (codes "i")))
        then some counter_variable
        else Scope.variable_for_name (of_identifier (codes "i")) (contents new_context).scope)
variable_for_name-define_local_example =
    variable_for_name-define_local counter_variable (of_identifier (codes "i")) new_context
