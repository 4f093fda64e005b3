-- ===== src/Tests/Names.antt =====
-- Instances of the theorems on qualified names and scopes.
use three.Base.{
  ℕ, ◌≡◌, ◌↔◌, refl, Bool, true, false, List, [], ◌∷◌, codes, Bytes, bytes_eq, if◌then◌else◌, some,
  ok, aborted, arith,
}
use three.QualifiedName.{QualifiedName, to_s, of_identifier}
use three.QualifiedName.Mangling.{IsManglable, to_s-injective}
use three.DataType.{of_kind}
use three.DataType.Kinds.{Kind}
use three.Scope.{
  Frame, Scope, find, counter, variable_for_name, define_variable, captured_variable,
  add_referenced_variable, referenced_variable, qualified_name_with_identifier,
}
use three.Scope.Names.{IsDistinct, HasRoom, scoped_names_in, scoped_names_in-IsDistinct}
use three.Scope.Lookup.{
  variable_for_name-define_variable, IsCaptured, captured_variable-IsCaptured,
  add_referenced_variable-add_referenced_variable, qualified_name_with_identifier-path,
}

abbrev print_name : QualifiedName
print_name = record { components = codes "io" ∷ []; name = codes "print" }

print_name-IsManglable : IsManglable print_name
print_name-IsManglable = (
  ((λ e. omega (arith, e), (λ e. omega (arith, e), tt)), tt),
  (
    λ e. omega (arith, e),
    (
      λ e. omega (arith, e),
      (λ e. omega (arith, e), (λ e. omega (arith, e), (λ e. omega (arith, e), tt))),
    ),
  ),
  λ e. cc,
)

to_s-injective_example : print_name ≡ print_name
to_s-injective_example =
    to_s-injective print_name print_name print_name-IsManglable print_name-IsManglable refl

abbrev io : QualifiedName
io = record { components = codes "io" ∷ []; name = [] }

abbrev frame : Bool → Bytes → List (Bytes × ℕ) → Frame ℕ
frame capturing base variables = record {
  capturing = capturing;
  namespace = io;
  scoped_names = [];
  scoped_basename = base;
  variables = variables;
  referenced_variables = [];
  captured_variables = [];
  return_type = of_kind Kind.void;
}

abbrev body : Frame ℕ
body = frame true [] []

abbrev function : Frame ℕ
function = frame false (codes "main") ((codes "x", 5) ∷ [])

function-HasRoom : HasRoom function 3
unfolding counter find
function-HasRoom m = omega arith

scoped_names_in-IsDistinct_example :
    (xs : List Bytes) × (gs : List (Frame ℕ)) × (scoped_names_in
        (codes "t" ∷ codes "t_1" ∷ codes "t" ∷ [])
        (body ∷ function ∷ [])
      ≡ ok (xs, gs))
    × IsDistinct xs
scoped_names_in-IsDistinct_example =
    scoped_names_in-IsDistinct (codes "t" ∷ codes "t_1" ∷ codes "t" ∷ []) (body ∷ function ∷ [])
      function refl function-HasRoom

variable_for_name-define_variable_example :
    variable_for_name
      (of_identifier (codes "x"))
      (define_variable (of_identifier (codes "x")) 9 (body, function ∷ []))
    ≡ (if bytes_eq (to_s (of_identifier (codes "x"))) (to_s (of_identifier (codes "x")))
        then some 9
        else variable_for_name (of_identifier (codes "x")) (body, function ∷ []))
variable_for_name-define_variable_example =
    variable_for_name-define_variable (of_identifier (codes "x")) (of_identifier (codes "x")) 9
      (body, function ∷ [])

captured_variable-IsCaptured_example :
    (captured_variable (codes "x") (body, function ∷ []) ≡ true)
    ↔ IsCaptured (codes "x") false (body ∷ function ∷ [])
captured_variable-IsCaptured_example = captured_variable-IsCaptured (codes "x") body (function ∷ [])

abbrev referencing : Scope ℕ
referencing = (record body { referenced_variables = codes "x" ∷ [] }, function ∷ [])

add_referenced_variable-add_referenced_variable_example :
    (referenced_variable (codes "x") (body, function ∷ []) ≡ false)
    × (referenced_variable (codes "x") referencing ≡ true)
    × (add_referenced_variable (codes "x") referencing ≡ aborted)
add_referenced_variable-add_referenced_variable_example =
    add_referenced_variable-add_referenced_variable (codes "x") (body, function ∷ []) referencing
      (unfold add_referenced_variable in refl)

qualified_name_with_identifier-path_example :
    qualified_name_with_identifier (codes "f") (body, function ∷ [])
    ≡ record { components = codes "io" ∷ codes "io" ∷ []; name = codes "f" }
qualified_name_with_identifier-path_example =
    qualified_name_with_identifier-path (codes "f") body (function ∷ [])
