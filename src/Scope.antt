-- ===== src/Scope.antt =====
-- `Scope` of compiler/Constructs/Scope.h and Scope.cpp. A scope and the chain of its parents are the
-- list of their own fields, the scope first; a call that changes a parent returns the changed chain.
-- Variables are an abstract type: the code keeps pointers to them and looks into none.
pub mod Names
pub mod Lookup
use three.Base.{
  ℕ, suc, ◌+◌, ◌≡◌, Bool, true, false, not, ◌&&◌, ◌||◌, List, [], ◌∷◌, ◌++◌, Option, none, some,
  ◌==◌, if◌then◌else◌, Bytes, codes, bytes_eq, decimal, length, Outcome, ok, aborted, ◌>>=◌,
}
use Prim.Native.Nat.{◌%◌, ◌^◌}
use three.DataType.{DataType, of_kind, defined}
use three.DataType.Kinds.{Kind}
use three.QualifiedName.{QualifiedName, unnamed, of_identifier, to_s, prepend_name}

-- `std::map` with string keys.
module _ {ℓ} {A : Type ℓ} where
  unfoldable pub find : Bytes → List (Bytes × A) → Option A
  find key [] = none
  find key ((k, v) ∷ map) = if bytes_eq k key then some v else find key map

  unfoldable pub insert : Bytes → A → List (Bytes × A) → List (Bytes × A)
  insert key value [] = (key, value) ∷ []
  insert key value ((k, v) ∷ map) =
      if bytes_eq k key then (key, value) ∷ map else (k, v) ∷ insert key value map

-- `std::find` on a vector of strings.
unfoldable pub mentions : Bytes → List Bytes → Bool
mentions name [] = false
mentions name (n ∷ ns) = bytes_eq n name || mentions name ns

pub record Frame (V : Type 0) : Type 0 where
  pub capturing : Bool
  pub namespace : QualifiedName
  pub scoped_names : List (Bytes × ℕ)
  pub scoped_basename : Bytes
  pub variables : List (Bytes × V)
  pub referenced_variables : List Bytes
  pub captured_variables : List Bytes
  pub return_type : DataType

-- A 32-bit counter.
abbrev pub add_one : ℕ → ℕ
add_one n = (n + 1) % 2 ^ 32

-- The entry that `operator[]` of the map makes where there is none is 0.
unfoldable pub counter : Bytes → List (Bytes × ℕ) → ℕ
unfolding find
counter name names = elim (find name names) [ some n ↦ n | none ↦ 0 ]

-- `s << basename << "_" << name << "_" << value`.
unfoldable pub numbered : Bytes → Bytes → ℕ → Bytes
numbered base name value = base ++ (b'_' ∷ (name ++ (b'_' ∷ decimal value)))

-- A chain is a scope and its parents; the parents of the outermost are none.
abbrev pub Scope : Type 0 → Type 0
Scope V = Frame V × List (Frame V)

module _ {V : Type 0} where
  -- `new Scope()`.
  abbrev pub new_scope : Frame V
  new_scope = record {
    capturing = false;
    namespace = unnamed;
    scoped_names = [];
    scoped_basename = [];
    variables = [];
    referenced_variables = [];
    captured_variables = [];
    return_type = of_kind Kind.undefined;
  }

  abbrev pub set_capturing : Bool → Scope V → Scope V
  set_capturing value (s, ps) = (record s { capturing = value }, ps)

  abbrev pub set_scoped_basename : Bytes → Scope V → Scope V
  set_scoped_basename value (s, ps) = (record s { scoped_basename = value }, ps)

  abbrev pub set_namespace : QualifiedName → Scope V → Scope V
  set_namespace name (s, ps) = (record s { namespace = name }, ps)

  abbrev pub set_current_function_return_type : DataType → Scope V → Scope V
  set_current_function_return_type type (s, ps) = (record s { return_type = type }, ps)

  -- The end of the chain stands for a parent that is missing.
  unfoldable pub return_type_in : List (Frame V) → Outcome DataType
  unfolding defined
  return_type_in [] = aborted
  return_type_in (s ∷ ps) =
      let outer = return_type_in ps in if defined s.return_type then ok s.return_type else outer

  unfoldable pub current_function_return_type : Scope V → Outcome DataType
  unfolding return_type_in
  current_function_return_type (s, ps) = return_type_in (s ∷ ps)

  unfoldable pub capturing_or_parent_capturing : Scope V → Bool
  capturing_or_parent_capturing (s, []) = s.capturing
  capturing_or_parent_capturing (s, p ∷ ps) = if s.capturing then true else p.capturing

  -- The name, and the chain with the counter that was stepped. The chain is given as a list, so that
  -- its end stands for a parent that is missing.
  unfoldable pub scoped_name_in : Bytes → List (Frame V) → Outcome (Bytes × List (Frame V))
  unfolding bytes_eq counter insert numbered
  scoped_name_in name [] = aborted
  scoped_name_in name (s ∷ ps) =
      let value = add_one (counter name s.scoped_names) in
      let outer = scoped_name_in name ps >>= λ (n, qs). ok (n, s ∷ qs) in
      let stepped = record s { scoped_names = insert name value s.scoped_names } in
      if length s.scoped_basename == 0
      then outer
      else ok (numbered s.scoped_basename name value, stepped ∷ ps)

  unfoldable pub scoped_name : Bytes → Scope V → Outcome (Bytes × List (Frame V))
  unfolding scoped_name_in
  scoped_name name (s, ps) = scoped_name_in name (s ∷ ps)

  unfoldable pub current_scoped_name : Bytes → Scope V → Bytes
  unfolding find numbered
  current_scoped_name basename (s, ps) = elim (find basename s.scoped_names) [
    | some value ↦ numbered s.scoped_basename basename value
    | none ↦ []
  ]

  unfoldable pub variable_in : Bytes → List (Frame V) → Option V
  unfolding find
  variable_in name [] = none
  variable_in name (s ∷ ps) =
      let outer = variable_in name ps in
      elim (find name s.variables) [ some v ↦ some v | none ↦ outer ]

  unfoldable pub variable_for_name : QualifiedName → Scope V → Option V
  unfolding variable_in
  variable_for_name name (s, ps) = variable_in (to_s name) (s ∷ ps)

  -- `_variables[variable->name.to_s()] = variable`.
  unfoldable pub define_variable : QualifiedName → V → Scope V → Scope V
  unfolding insert
  define_variable name v (s, ps) = (record s { variables = insert (to_s name) v s.variables }, ps)

  -- The argument `passed` is `passedOverCapturing`.
  unfoldable pub referenced_in : Bytes → Bool → Frame V → List (Frame V) → Bool
  unfolding mentions
  referenced_in name passed s [] = mentions name s.referenced_variables
  referenced_in name passed s (p ∷ ps) =
      let passed' = passed || p.capturing in
      let outer = referenced_in name passed' p ps in
      if mentions name s.referenced_variables
      then true
      else if passed
      then false
      else if s.capturing && passed'
      then false
      else outer

  unfoldable pub referenced_variable : Bytes → Scope V → Bool
  unfolding referenced_in
  referenced_variable name (s, ps) = referenced_in name false s ps

  unfoldable pub add_referenced_variable : Bytes → Scope V → Outcome (Scope V)
  unfolding referenced_variable
  add_referenced_variable name (s, ps) =
      if referenced_variable name (s, ps)
      then aborted
      else ok (record s { referenced_variables = s.referenced_variables ++ name ∷ [] }, ps)

  unfoldable pub captured_in : Bytes → Bool → List (Frame V) → Bool
  unfolding find
  captured_in name passed [] = false
  captured_in name passed (s ∷ ps) =
      let outer = captured_in name (passed || s.capturing) ps in
      elim (find name s.variables) [ some v ↦ passed | none ↦ outer ]

  unfoldable pub captured_variable : Bytes → Scope V → Bool
  unfolding captured_in
  captured_variable name (s, ps) = captured_in name false (s ∷ ps)

  unfoldable pub capture_variable : Bytes → Scope V → Scope V
  unfolding mentions
  capture_variable name (s, ps) =
      if mentions name s.captured_variables
      then (s, ps)
      else (record s { captured_variables = s.captured_variables ++ name ∷ [] }, ps)

  -- The loop over the parents in `fullNamespace`.
  unfoldable pub namespace_from : QualifiedName → List (Frame V) → QualifiedName
  unfolding prepend_name
  namespace_from name [] = name
  namespace_from name (s ∷ ps) = namespace_from (prepend_name s.namespace name) ps

  unfoldable pub full_namespace : Scope V → QualifiedName
  unfolding namespace_from
  full_namespace (s, ps) = namespace_from s.namespace ps

  unfoldable pub qualified_name_with_identifier : Bytes → Scope V → QualifiedName
  unfolding full_namespace
  qualified_name_with_identifier name s = prepend_name (full_namespace s) (of_identifier name)
