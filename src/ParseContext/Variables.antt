-- ===== src/ParseContext/Variables.antt =====
-- The variables of a context: those of its file and of its imports, and those of its scopes.
use three.Base.{◌≡◌, refl, ◌∙◌, ap, true, Option, none, some, if◌then◌else◌, bytes_eq}
use three.QualifiedName.{QualifiedName, unnamed, to_s}
use three.Scope.{full_namespace}
use three.Scope
use three.Scope.Lookup.{variable_for_name-define_variable}
use three.ParseContext.{contents, ParseContext, context, Variable}
use three.ParseContext.Symbols.{
  first_of, symbol_for_name, variable_for_name, imported_variable, define_variable,
}

-- The variable of the file with the name, as it stands or in the namespace of the scope, or else that
-- of an imported context.
abbrev pub file_variable : ParseContext → QualifiedName → Option Variable
file_variable (context k imported) name = first_of (symbol_for_name none k.variables name unnamed) (
    first_of (symbol_for_name none k.variables name (full_namespace k.scope))
      (imported_variable imported name))

first_of_assoc {ℓ} :
    {A : Type ℓ} (a b c : Option A) → first_of a (first_of b c) ≡ first_of (first_of a b) c
first_of_assoc (some x) b c = refl
first_of_assoc none b c = refl

lookup_in_order :
    (c : ParseContext) (name : QualifiedName)
    → variable_for_name c name
      ≡ first_of (file_variable c name) (Scope.variable_for_name name (contents c).scope)
unfolding variable_for_name
lookup_in_order (context k imported) name =
    ap (first_of (symbol_for_name none k.variables name unnamed))
      (first_of_assoc (symbol_for_name none k.variables name (full_namespace k.scope)) _ _)
    ∙ first_of_assoc (symbol_for_name none k.variables name unnamed) _ _

full_namespace-define :
    (v : Variable) (s : Scope.Scope Variable)
    → full_namespace (Scope.define_variable v.name v s) ≡ full_namespace s
unfolding full_namespace Scope.define_variable
full_namespace-define v s = refl

-- A variable that a scope defines is found under each name with the same C text, in front of those of
-- the scope and its parents, but only where the file and its imports have no variable of the name.
pub variable_for_name-define_local :
    (v : Variable) (name : QualifiedName) (c : ParseContext)
    → variable_for_name (define_variable v true c).1 name
      ≡ first_of (file_variable c name) (
          if bytes_eq (to_s v.name) (to_s name)
          then some v
          else Scope.variable_for_name name (contents c).scope)
unfolding define_variable
variable_for_name-define_local v name (context k imported) =
    lookup_in_order (context (record k { scope = Scope.define_variable v.name v k.scope }) imported)
      name
    ∙ rw (full_namespace-define v k.scope)
        (rw (variable_for_name-define_variable v.name name v k.scope) refl)
