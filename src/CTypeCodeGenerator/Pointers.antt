-- ===== src/CTypeCodeGenerator/Pointers.antt =====
-- Types behind pointers: the text of a pointer to a type, and of an array of pointers.
use three.Base.{
  ◌≡◌, refl, sym, ◌∙◌, ap, Bool, true, false, List, [], ◌∷◌, ◌++◌, append_assoc, append-nil, All,
  Bytes, Outcome, ok, aborted, ◌>>=◌, arith, ◌⊎◌, inl, inr,
}
use three.QualifiedName.{valid}
use three.DataType.{Attributes, DataType, DataTypes, data_type, nil, cons}
use three.DataType.Kinds.{Kind, is_pointer_kind}
use three.CTypeCodeGenerator.{
  is_bare_pointer, pointer_text, with_variable, declaration_text, type_text, tuple_struct_name,
  tuple_parts, first_type, code_gen_from, code_gen_type, code_gen_only, code_gen, array_suffix,
  rendering, Rendering,
}

-- The pointer types `layers`, the outermost first, around a type.
abbrev pub points_to : List Attributes → DataType → DataType
points_to [] t = t
points_to (a ∷ layers) t = data_type a (cons (points_to layers t) nil) nil nil nil

-- The texts of pointers, the innermost first.
abbrev pub stars : List Attributes → Bytes
stars [] = []
stars (a ∷ layers) = stars layers ++ pointer_text a

abbrev pub is_function : Kind → Bool
is_function Kind.function = true
is_function Kind.c_function = true
is_function _ = false

bare_step :
    (a : Attributes) (t : DataType) (inner variable : Bytes)
    → is_bare_pointer a ≡ true
    → code_gen_from (data_type a (cons t nil) nil nil nil) inner variable
      ≡ code_gen_from t (pointer_text a ++ inner) variable
unfolding code_gen_from code_gen_only
bare_step a t inner variable bare = rw bare refl

element_step :
    (b : Attributes) (ss ps rs gs ts : DataTypes)
    → first_type (cons (data_type b ss ps rs gs) ts)
      ≡ type_text b (first_type ss) (tuple_struct_name ss (tuple_parts ss))
unfolding first_type tuple_parts code_gen_type
element_step b ss ps rs gs ts = refl

declaration_text-plain :
    (k : Kind) (inner : Bytes) (function plain : Outcome Bytes)
    → is_function k ≡ false
    → declaration_text k inner function plain ≡ (plain >>= λ s. ok (s ++ inner))
unfolding declaration_text
declaration_text-plain k inner function plain e = ground arith

type_step :
    (a : Attributes) (ss ps rs gs : DataTypes)
    → code_gen_type (data_type a ss ps rs gs)
      ≡ type_text a (first_type ss) (tuple_struct_name ss (tuple_parts ss))
unfolding code_gen_type first_type tuple_parts
type_step a ss ps rs gs = refl

other_step :
    (a : Attributes) (ss ps rs gs : DataTypes) (inner variable : Bytes)
    → is_bare_pointer a ≡ false
    → is_function a.kind ≡ false
    → code_gen_from (data_type a ss ps rs gs) inner variable
      ≡ (code_gen_type (data_type a ss ps rs gs) >>= λ s. ok (s ++ with_variable inner variable))
unfolding code_gen_from code_gen_type
other_step a ss ps rs gs inner variable other plain =
    rw other (declaration_text-plain a.kind _ _ _ plain)

code_gen_from-points_to :
    (layers : List Attributes) (t : DataType) (inner variable : Bytes)
    → All (λ a. is_bare_pointer a ≡ true) layers
    → code_gen_from (points_to layers t) inner variable
      ≡ code_gen_from t (stars layers ++ inner) variable
code_gen_from-points_to [] t inner variable bare = refl
code_gen_from-points_to (a ∷ layers) t inner variable (bare, more) =
    bare_step a (points_to layers t) inner variable bare
    ∙ code_gen_from-points_to layers t (pointer_text a ++ inner) variable more
    ∙ ap (λ s. code_gen_from t s variable)
        (sym (append_assoc (stars layers) (pointer_text a) inner))

-- A pointer to a type that is neither a pointer without a name nor a function is declared by the
-- type's text, the pointers from the innermost to the outermost, and the variable's name. So are a
-- variable of such a type and a pointer to an array, where C has the count behind the name.
pub code_gen-points_to :
    (layers : List Attributes) (a : Attributes) (ss ps rs gs : DataTypes) (variable : Bytes)
    → All (λ p. is_bare_pointer p ≡ true) layers
    → is_bare_pointer a ≡ false
    → is_function a.kind ≡ false
    → code_gen (points_to layers (data_type a ss ps rs gs)) variable ≡ (
        code_gen_type (data_type a ss ps rs gs) >>= λ s.
        ok (s ++ with_variable (stars layers) variable))
unfolding code_gen
code_gen-points_to layers a ss ps rs gs variable bare other plain =
    code_gen_from-points_to layers (data_type a ss ps rs gs) [] variable bare
    ∙ rw append-nil (other_step a ss ps rs gs (stars layers) variable other plain)

pointer-rendering :
    (k : Kind)
    → is_pointer_kind k ≡ true
    → (rendering k ≡ Rendering.as_named_pointer) ⊎ (rendering k ≡ Rendering.not_rendered)
unfolding is_pointer_kind rendering
pointer-rendering k h = ground arith

bare_pointer_text :
    (b : Attributes) (element tuple_name : Outcome Bytes)
    → is_bare_pointer b ≡ true
    → type_text b element tuple_name ≡ aborted
unfolding is_bare_pointer type_text
bare_pointer_text b element tuple_name h =
    let nameless : valid b.name ≡ false = ground arith in
    elim (pointer-rendering b.kind (ground arith)) [
      | inl named ↦ rw (named, type_text) (rw nameless refl)
      | inr none ↦ rw (none, type_text) refl
    ]

array_text :
    (a : Attributes) (element tuple_name : Outcome Bytes)
    → a.kind ≡ Kind.array
    → type_text a element tuple_name ≡ (element >>= λ s. ok (s ++ array_suffix a.array_count))
unfolding type_text rendering
array_text a element tuple_name h = rw (h, type_text) refl

-- An array of pointers without a name has no text: the assertion on the element's name fails.
pub code_gen-array_of_pointers :
    (layers : List Attributes) (a b : Attributes) (ts ps rs gs ss' ps' rs' gs' : DataTypes)
    (variable : Bytes)
    → All (λ p. is_bare_pointer p ≡ true) layers
    → a.kind ≡ Kind.array
    → is_bare_pointer b ≡ true
    → code_gen
        (points_to layers (data_type a (cons (data_type b ss' ps' rs' gs') ts) ps rs gs))
        variable
      ≡ aborted
unfolding code_gen
code_gen-array_of_pointers layers a b ts ps rs gs ss' ps' rs' gs' variable bare array pointer =
    code_gen-points_to layers a (cons (data_type b ss' ps' rs' gs') ts) ps rs gs variable bare
      (rw (array, is_bare_pointer) refl) (rw array refl)
    ∙ rw (type_step a (cons (data_type b ss' ps' rs' gs') ts) ps rs gs) (
        rw
          (array_text a (first_type (cons (data_type b ss' ps' rs' gs') ts))
            (tuple_struct_name (cons (data_type b ss' ps' rs' gs') ts)
              (tuple_parts (cons (data_type b ss' ps' rs' gs') ts)))
            array)
          (rw (element_step b ss' ps' rs' gs' ts) (
            rw
              (bare_pointer_text b (first_type ss') (tuple_struct_name ss' (tuple_parts ss'))
                pointer)
              refl)))
