-- ===== src/ParseContext/Types.antt =====
-- The types that a context defines: definition and then lookup, and the test for a type's name.
use three.Base.{
  ◌≡◌, ◌≢◌, refl, sym, ◌∙◌, true, false, ◌==◌, length, if◌then◌else◌, Bytes, bytes_eq, bytes_eq_iff,
  Bool-cases, inl, inr, arith,
}
use three.QualifiedName.{QualifiedName, of_identifier, to_s, prepend_name}
use three.DataType.{DataType, of_kind, defined}
use three.DataType.Kinds.{Kind, is_defined_kind}
use three.Scope.{Scope, full_namespace}
use three.Scope.Names.{find-insert}
use three.ParseContext.{
  contents, ParseContext, context, Variable, lookup_type, exact_type, data_type_for_name,
  data_type_for_exact_name, is_undefined, type_kind_with_name, defines_type, defines_type_with_name,
  store_type, define_type_for_name,
}

defined_kind : (k : Kind) → is_defined_kind k ≡ true → is_undefined k ≡ false
unfolding is_defined_kind is_undefined
defined_kind k h = ground arith

exact_type-store :
    (c : ParseContext) (t : DataType) (name key : Bytes)
    → data_type_for_exact_name (store_type t name c) key
      ≡ (if bytes_eq name key then t else data_type_for_exact_name c key)
unfolding data_type_for_exact_name store_type exact_type
exact_type-store (context k imported) t name key = elim (Bool-cases (bytes_eq name key)) [
  | inl same ↦ rw (find-insert name key t k.data_types, exact_type) (rw same refl)
  | inr other ↦ rw (find-insert name key t k.data_types, exact_type) (rw other refl)
]

-- The lookup by its two searches.
pub lookup_by_exact :
    (c : ParseContext) (name : QualifiedName)
    → data_type_for_name c name ≡ lookup_type (contents c).scope (data_type_for_exact_name c) name
unfolding data_type_for_name data_type_for_exact_name
lookup_by_exact (context k imported) name = refl

lookup_of_defined :
    (scope : Scope Variable) (exact : Bytes → DataType) (name : QualifiedName) (t : DataType)
    → exact (to_s name) ≡ t
    → defined t ≡ true
    → lookup_type scope exact name ≡ t
unfolding lookup_type
lookup_of_defined scope exact name t e d = rw e (rw d refl)

lookup_eq :
    (scope : Scope Variable) (exact exact' : Bytes → DataType) (name : QualifiedName)
    → exact' (to_s name) ≡ exact (to_s name)
    → exact' (to_s (prepend_name (full_namespace scope) name))
      ≡ exact (to_s (prepend_name (full_namespace scope) name))
    → lookup_type scope exact' name ≡ lookup_type scope exact name
unfolding lookup_type
lookup_eq scope exact exact' name e f = rw (e, f) refl

lookup_namespaced :
    (scope : Scope Variable) (exact : Bytes → DataType) (name : QualifiedName)
    → defined (exact (to_s name)) ≡ false
    → (length (full_namespace scope).components == 0) ≡ false
    → lookup_type scope exact name ≡ exact (to_s (prepend_name (full_namespace scope) name))
unfolding lookup_type
lookup_namespaced scope exact name d inside = rw d (rw inside refl)

defines_of_lookup :
    (c : ParseContext) (name : Bytes)
    → defined (data_type_for_name c (of_identifier name)) ≡ true
    → defines_type c name ≡ true
unfolding defines_type type_kind_with_name defined
defines_of_lookup c name d = rw (defined_kind _ d) refl

contents-store :
    (t : DataType) (name : Bytes) (c : ParseContext)
    → (contents (store_type t name c)).scope ≡ (contents c).scope
unfolding store_type
contents-store t name (context k imported) = refl

lookup-store :
    (t : DataType) (name : Bytes) (c : ParseContext)
    → defined t ≡ true
    → data_type_for_name (store_type t name c) (of_identifier name) ≡ t
unfolding to_s
lookup-store t name c d =
    lookup_by_exact (store_type t name c) (of_identifier name)
    ∙ lookup_of_defined _ _ (of_identifier name) t
        (exact_type-store c t name name ∙ rw ((bytes_eq_iff name name).1 refl) refl) d

other_key : (a b : Bytes) → b ≢ a → bytes_eq a b ≡ false
other_key a b h = ground (arith, bytes_eq_iff a b, h)

lookup-store_other :
    (t : DataType) (name : Bytes) (c : ParseContext) (r : QualifiedName)
    → to_s r ≢ name
    → to_s (prepend_name (full_namespace (contents c).scope) r) ≢ name
    → data_type_for_name (store_type t name c) r ≡ data_type_for_name c r
lookup-store_other t name c r h k =
    lookup_by_exact (store_type t name c) r
    ∙ rw (contents-store t name c) (
        lookup_eq (contents c).scope _ _ r
          (exact_type-store c t name _ ∙ rw (other_key name _ h) refl)
          (exact_type-store c t name _ ∙ rw (other_key name _ k) refl))
    ∙ sym (lookup_by_exact c r)

define-store :
    (t : DataType) (name : Bytes) (c c' : ParseContext)
    → define_type_for_name t name c ≡ (true, c')
    → c' ≡ store_type t name c
unfolding define_type_for_name
define-store t name c c' made = elim (Bool-cases (defines_type c name)) [
  | inl there ↦ let refused = rw there at made in cc
  | inr new ↦ let stored = rw new at made in cc
]

define-defined :
    (u : DataType) (name : Bytes) (c : ParseContext)
    → defines_type c name ≡ true
    → define_type_for_name u name c ≡ (false, c)
unfolding define_type_for_name
define-defined u name c there = rw there refl

-- A context with another current scope.
abbrev pub in_scope : Scope Variable → ParseContext → ParseContext
in_scope scope (context k imported) = context (record k { scope = scope }) imported

store-in_scope :
    (scope : Scope Variable) (t : DataType) (name : Bytes) (c : ParseContext)
    → in_scope scope (store_type t name c) ≡ store_type t name (in_scope scope c)
unfolding store_type
store-in_scope scope t name (context k imported) = refl

contents-in_scope :
    (scope : Scope Variable) (c : ParseContext) → (contents (in_scope scope c)).scope ≡ scope
contents-in_scope scope (context k imported) = refl

-- Where a definition adds a type that is defined, neither of an undefined nor of an unknown kind, the
-- type is found under its name whatever scope is then current, a lookup that does not reach that name,
-- neither as it is nor behind the namespace of the current scope, is as before, and a second definition
-- of the name is refused in every scope.
pub define_type_for_name-lookup :
    (t u : DataType) (name : Bytes) (c c' : ParseContext) (scope : Scope Variable)
    (r : QualifiedName)
    → define_type_for_name t name c ≡ (true, c')
    → defined t ≡ true
    → to_s r ≢ name
    → to_s (prepend_name (full_namespace scope) r) ≢ name
    → (data_type_for_name (in_scope scope c') (of_identifier name) ≡ t)
      × (data_type_for_name (in_scope scope c') r ≡ data_type_for_name (in_scope scope c) r)
      × (define_type_for_name u name (in_scope scope c') ≡ (false, in_scope scope c'))
define_type_for_name-lookup t u name c c' scope r made d h k =
    let found = lookup-store t name (in_scope scope c) d in
    rw (define-store t name c c' made, store-in_scope scope t name c)
      (
        found,
        lookup-store_other t name (in_scope scope c) r h (rw (contents-in_scope scope c) k),
        define-defined u name (store_type t name (in_scope scope c))
            (defines_of_lookup _ name (rw found d)),
      )

abbrev pub namespace_of : ParseContext → QualifiedName
namespace_of c = full_namespace (contents c).scope

lookup_in_namespace :
    (c : ParseContext) (name : Bytes)
    → data_type_for_exact_name c name ≡ of_kind Kind.undefined
    → (length (namespace_of c).components == 0) ≡ false
    → data_type_for_name c (of_identifier name)
      ≡ data_type_for_exact_name c (to_s (prepend_name (namespace_of c) (of_identifier name)))
unfolding defined is_defined_kind to_s
lookup_in_namespace c name missing inside =
    lookup_by_exact c (of_identifier name)
    ∙ lookup_namespaced (contents c).scope (data_type_for_exact_name c) (of_identifier name)
        (rw missing refl) inside

-- In a namespace N, where neither x nor N::x is a type, but what the lookup of the C name of N::x finds
-- behind N is one, x is taken for the name of a type, although no lookup of x finds one: the test looks
-- the C name of N::x up by a lookup that puts N in front of it once more.
pub defines_type_with_name-doubled :
    (c : ParseContext) (q : QualifiedName)
    → (length (namespace_of c).components == 0) ≡ false
    → defined (data_type_for_exact_name c (to_s q)) ≡ false
    → data_type_for_exact_name c (to_s (prepend_name (namespace_of c) q)) ≡ of_kind Kind.undefined
    → defined (
        data_type_for_exact_name c (
          to_s (
            prepend_name
              (namespace_of c)
              (of_identifier (to_s (prepend_name (namespace_of c) q))))))
      ≡ true
    → (defines_type_with_name c q ≡ true) × (data_type_for_name c q ≡ of_kind Kind.undefined)
unfolding defines_type_with_name
defines_type_with_name-doubled c q inside unknown missing found = (
  elim (Bool-cases (defines_type c (to_s q))) [
    | inl there ↦ rw there refl
    | inr new ↦
        rw new
          (rw inside (defines_of_lookup c _ (rw (lookup_in_namespace c _ missing inside) found)))
  ],
  lookup_by_exact c q
      ∙ lookup_namespaced (contents c).scope (data_type_for_exact_name c) q unknown inside
      ∙ missing,
)
