-- ===== src/QualifiedName.antt =====
-- `QualifiedName` of compiler/Constructs/QualifiedName.h and QualifiedName.cpp: a name in a namespace.
use three.Base.{
  ℕ, ◌≡◌, Bool, true, false, not, ◌&&◌, ◌||◌, List, [], ◌∷◌, ◌++◌, ◌==◌, ltb, if◌then◌else◌, Bytes,
  codes, bytes_eq, length, Option, none, some, Outcome, ok, aborted, ◌>>=◌,
}
pub mod Mangling

pub record QualifiedName : Type 0 where
  pub components : List Bytes
  pub name : Bytes

-- `QualifiedName()` and `QualifiedName(identifier)`.
abbrev pub unnamed : QualifiedName
unnamed = record { components = []; name = [] }

abbrev pub of_identifier : Bytes → QualifiedName
of_identifier identifier = record { components = []; name = identifier }

abbrev pub separator : Bytes
separator = codes "_3_"

-- The loop of `to_s`: a separator behind each component, unless the name is blank.
unfoldable pub join : Bytes → List Bytes → Bytes
unfolding bytes_eq
join name [] = name
join name (c ∷ cs) =
    let rest = join name cs in c ++ (if not (bytes_eq name []) then separator ++ rest else rest)

unfoldable pub to_s : QualifiedName → Bytes
unfolding join
to_s q = join q.name q.components

-- `setName`, with its assertion.
unfoldable pub set_name : Bytes → QualifiedName → Outcome QualifiedName
unfolding bytes_eq
set_name name q = if bytes_eq name [] then aborted else ok (record q { name = name })

unfoldable pub valid : QualifiedName → Bool
unfolding bytes_eq
valid q = ltb 0 (length q.components) || not (bytes_eq q.name [])

unfoldable pub namespaced : QualifiedName → Bool
namespaced q = ltb 0 (length q.components)

-- `==` on vectors of strings.
unfoldable pub components_eq : List Bytes → List Bytes → Bool
unfolding bytes_eq
components_eq [] [] = true
components_eq (x ∷ xs) (y ∷ ys) = bytes_eq x y && components_eq xs ys
components_eq _ _ = false

unfoldable pub same_namespace_as : QualifiedName → QualifiedName → Bool
unfolding namespaced components_eq
same_namespace_as q r =
    if not (namespaced q) || not (namespaced r)
    then false
    else components_eq q.components r.components

unfoldable pub append_component : Bytes → QualifiedName → Outcome QualifiedName
unfolding bytes_eq
append_component path q =
    if bytes_eq path [] then aborted else ok (record q { components = q.components ++ path ∷ [] })

-- `back()` and what `pop_back()` leaves.
unfoldable pub split_last : List Bytes → Option (List Bytes × Bytes)
split_last [] = none
split_last (c ∷ []) = some ([], c)
split_last (c ∷ d ∷ cs) = elim (split_last (d ∷ cs)) [
  | some (front, last) ↦ some (c ∷ front, last)
  | none ↦ none
]

unfoldable pub shift_last_component_to_name : QualifiedName → Outcome QualifiedName
unfolding split_last set_name bytes_eq
shift_last_component_to_name q =
    if not (bytes_eq q.name []) then aborted else elim (split_last q.components) [
      | some (front, last) ↦ do r ← set_name last q; ok (record r { components = front })
      | none ↦ aborted
    ]

unfoldable pub prepend_name : QualifiedName → QualifiedName → QualifiedName
prepend_name prefix q = record q { components = prefix.components ++ q.components }

-- `operator==`.
unfoldable pub name_eq : QualifiedName → QualifiedName → Bool
unfolding bytes_eq components_eq
name_eq q r =
    if not (bytes_eq q.name r.name) then false else components_eq q.components r.components
