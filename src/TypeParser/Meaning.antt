-- ===== src/TypeParser/Meaning.antt =====
-- What the written types of TypeParser/Syntax stand for in a context, and which of them are types.
use three.Base.{
  ℕ, suc, ◌<◌, ◌≡◌, ◌≢◌, Bool, true, false, List, [], ◌∷◌, Option, none, some, if◌then◌else◌, Bytes,
  All,
}
use Prim.Native.Nat.{◌^◌}
use three.Token.Kind.{TokenType}
use three.QualifiedName.{QualifiedName, of_identifier, to_s}
use three.DataType.{
  DataType, DataTypes, nil, cons, of_kind, kind, set_kind, set_label, set_access, set_array_count,
  set_width_specifier, set_alignment_specifier, set_vector_size_specifier, add_subtype,
  set_return_type, wrap_in_pointer,
}
use three.DataType.Kinds.{Kind, read_write}
use three.ParseContext.{ParseContext, data_type_for_name, defines_type_with_name}
use three.ParseHelper.{Stream, is_at}
use three.TypeParser.Parsing.{is_character}
use three.TypeParser.Composite.{with_subtypes, with_parameters}
use three.TypeParser.Syntax.{
  Marks, Prefix, star, sized, Specifiers, unspecified, width, aligned, vector, TypeSyntax, spelled,
  Core, named, vararg, tuple, closure, function, returning_closure, Items, no_items, item,
}

-- The name: the last component in the namespace of the others.
abbrev pub qualified : Bytes → List Bytes → QualifiedName
qualified first [] = of_identifier first
qualified first (c ∷ cs) =
    let q = qualified c cs in record { components = first ∷ q.components; name = q.name }

abbrev pub with_access : Marks → DataType → DataType
with_access m t = if m.is_mutable then set_access read_write t else t

-- A marked pointer, and a marked type behind the mark `?`.
abbrev pub marked_pointer : Marks → DataType
marked_pointer m =
    let pointer = with_access m (of_kind Kind.pointer) in
    if m.is_nullable then set_kind Kind.nullable_pointer pointer else pointer

abbrev pub marked : Marks → DataType → DataType
marked m t =
    if m.is_nullable
    then add_subtype (with_access m t) (of_kind Kind.nullable_pointer)
    else with_access m t

abbrev pub prefixed : List Prefix → DataType → DataType
prefixed [] t = t
prefixed (star m ∷ ps) t = add_subtype (prefixed ps t) (marked_pointer m)
prefixed (sized n ∷ ps) t = add_subtype (prefixed ps t) (set_array_count n (of_kind Kind.array))

abbrev pub specified : Specifiers → DataType → DataType
specified unspecified t = t
specified (width n) t = set_width_specifier n t
specified (aligned n m) t = set_alignment_specifier m (set_width_specifier n t)
specified (vector n m k) t =
    set_vector_size_specifier k (set_alignment_specifier m (set_width_specifier n t))

abbrev pub labelled : Option Bytes → DataType → DataType
labelled none t = t
labelled (some l) t = set_label l t

abbrev pub closure_of : DataTypes → DataType → DataType
closure_of types result =
    set_return_type result
      (with_parameters (cons (wrap_in_pointer (of_kind Kind.void) []) types) (of_kind Kind.closure))

-- The type that a name stands for.
abbrev pub named_type : ParseContext → Bytes → List Bytes → DataType
named_type c first more = data_type_for_name c (of_identifier (to_s (qualified first more)))

abbrev mutual
  pub denote : ParseContext → TypeSyntax → DataType
  denote c (spelled ps k) = prefixed ps (denote_core c k)

  pub denote_core : ParseContext → Core → DataType
  denote_core c (named first more sp m) = marked m (specified sp (named_type c first more))
  denote_core c vararg = of_kind Kind.vararg
  denote_core c (tuple items) =
      set_kind Kind.tuple (with_subtypes (denote_items c items) (of_kind Kind.undefined))
  denote_core c (closure items) = closure_of (denote_items c items) (of_kind Kind.void)
  denote_core c (function items result) =
      set_return_type (denote c result)
        (set_kind Kind.function (with_parameters (denote_items c items) (of_kind Kind.undefined)))
  denote_core c (returning_closure items result) =
      closure_of (denote_items c items) (denote c result)

  pub denote_items : ParseContext → Items → DataTypes
  denote_items c no_items = nil
  denote_items c (item s l more) = cons (labelled l (denote c s)) (denote_items c more)

abbrev pub Fits : ℕ → Type 0
Fits n = n < 2 ^ 32

abbrev pub FitsPrefix : Prefix → Type 0
FitsPrefix (star m) = Unit
FitsPrefix (sized n) = Fits n

-- Specifiers that fit, of a type that is no character type.
abbrev pub FitsType : Specifiers → DataType → Type 0
FitsType unspecified t = Unit
FitsType (width n) t = (is_character (kind t) ≡ false) × Fits n
FitsType (aligned n m) t = (is_character (kind t) ≡ false) × Fits n × Fits m
FitsType (vector n m k) t = (is_character (kind t) ≡ false) × Fits n × Fits m × Fits k

abbrev pub count_items : Items → ℕ
count_items no_items = 0
count_items (item s l more) = suc (count_items more)

abbrev pub MayHaveLabel : Bool → Option Bytes → Type 0
MayHaveLabel true l = Unit
MayHaveLabel false l = l ≡ none

-- The names are names of types, the numbers fit, a list has fewer than 100 types, and the types of a
-- closure's list have no labels.
abbrev mutual
  pub IsType : ParseContext → TypeSyntax → Type 0
  IsType c (spelled ps k) = All FitsPrefix ps × IsCore c k

  pub IsCore : ParseContext → Core → Type 0
  IsCore c (named first more sp m) =
      All (λ s. s ≢ []) (first ∷ more)
      × (defines_type_with_name c (qualified first more) ≡ true)
      × FitsType sp (named_type c first more)
  IsCore c vararg = Unit
  IsCore c (tuple items) = (count_items items < 100) × AreItems c true items
  IsCore c (closure items) = (count_items items < 100) × AreItems c false items
  IsCore c (function items result) =
      (count_items items < 100) × AreItems c true items × IsType c result
  IsCore c (returning_closure items result) =
      (count_items items < 100) × AreItems c false items × IsType c result

  pub AreItems : ParseContext → Bool → Items → Type 0
  AreItems c allow no_items = Unit
  AreItems c allow (item s l more) = IsType c s × MayHaveLabel allow l × AreItems c allow more

-- What may follow a type: no token that would go on with it.
abbrev pub Ends : Stream → Type 0
Ends ts =
    (is_at TokenType.punctuation_colon ts ≡ false)
    × (is_at TokenType.operator_not ts ≡ false)
    × (is_at TokenType.operator_question_mark ts ≡ false)
    × (is_at TokenType.operator_arrow ts ≡ false)
