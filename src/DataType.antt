-- ===== src/DataType.antt =====
-- `DataType` of compiler/Constructs/DataType.h and DataType.cpp. A type holds lists of types: its
-- subtypes, parameters, returns and generic parameters.
pub mod Kinds
use three.Base.{
  ℕ, zero, suc, ◌+◌, Bool, true, false, [], ltb, if◌then◌else◌, Bytes, bytes_eq, Outcome, ok,
  aborted,
}
use three.QualifiedName.{QualifiedName, to_s, valid}
use three.DataType.Kinds.{
  Kind, CharacterEncoding, utf8, Access, inaccessible, read, read_write, name_of_kind,
  is_defined_kind, is_pointer_kind, is_c_scalar_kind,
}

-- The fields that are no types.
pub record Attributes : Type 0 where
  pub kind : Kind
  pub name : QualifiedName
  pub label : Bytes
  pub width_specifier : ℕ
  pub alignment_specifier : ℕ
  pub vector_size_specifier : ℕ
  pub character_encoding : CharacterEncoding
  pub array_count : ℕ
  pub access : Access
  pub volatility : Access
  pub potentially_aliased : Bool

mutual
  pub data DataType : Type 0 where
    data_type : Attributes → DataTypes → DataTypes → DataTypes → DataTypes → DataType

  pub data DataTypes : Type 0 where
    nil : DataTypes
    cons : DataType → DataTypes → DataTypes

abbrev pub attributes : DataType → Attributes
attributes (data_type a ss ps rs gs) = a

abbrev pub subtypes : DataType → DataTypes
subtypes (data_type a ss ps rs gs) = ss

abbrev pub parameters : DataType → DataTypes
parameters (data_type a ss ps rs gs) = ps

abbrev pub returns : DataType → DataTypes
returns (data_type a ss ps rs gs) = rs

-- What the constructor sets.
abbrev pub attributes_of : Kind → Attributes
attributes_of k = record {
  kind = k;
  name = name_of_kind k;
  label = [];
  width_specifier = 0;
  alignment_specifier = 0;
  vector_size_specifier = 0;
  character_encoding = utf8;
  array_count = 0;
  access = read;
  volatility = inaccessible;
  potentially_aliased = true;
}

-- `DataType(kind)`.
abbrev pub of_kind : Kind → DataType
of_kind k = data_type (attributes_of k) nil nil nil nil

abbrev pub kind : DataType → Kind
kind t = (attributes t).kind

abbrev pub set_attributes : (Attributes → Attributes) → DataType → DataType
set_attributes f (data_type a ss ps rs gs) = data_type (f a) ss ps rs gs

unfoldable pub set_kind : Kind → DataType → DataType
set_kind k = set_attributes λ a. record a { kind = k }

unfoldable pub set_name : QualifiedName → DataType → DataType
set_name q = set_attributes λ a. record a { name = q }

unfoldable pub set_label : Bytes → DataType → DataType
set_label s = set_attributes λ a. record a { label = s }

unfoldable pub set_access : Access → DataType → DataType
set_access x = set_attributes λ a. record a { access = x }

unfoldable pub set_array_count : ℕ → DataType → DataType
set_array_count n = set_attributes λ a. record a { array_count = n }

unfoldable pub set_width_specifier : ℕ → DataType → DataType
set_width_specifier n = set_attributes λ a. record a { width_specifier = n }

unfoldable pub set_alignment_specifier : ℕ → DataType → DataType
set_alignment_specifier n = set_attributes λ a. record a { alignment_specifier = n }

unfoldable pub set_vector_size_specifier : ℕ → DataType → DataType
set_vector_size_specifier n = set_attributes λ a. record a { vector_size_specifier = n }

unfoldable pub set_character_encoding : CharacterEncoding → DataType → DataType
set_character_encoding e = set_attributes λ a. record a { character_encoding = e }

unfoldable pub set_volatility : Access → DataType → DataType
set_volatility x = set_attributes λ a. record a { volatility = x }

unfoldable pub set_potentially_aliased : Bool → DataType → DataType
set_potentially_aliased b = set_attributes λ a. record a { potentially_aliased = b }

unfoldable pub has_name : DataType → Bool
unfolding valid
has_name t = valid (attributes t).name

unfoldable pub defined : DataType → Bool
unfolding is_defined_kind
defined t = is_defined_kind (kind t)

unfoldable pub is_pointer : DataType → Bool
unfolding is_pointer_kind
is_pointer t = is_pointer_kind (kind t)

unfoldable pub is_c_scalar : DataType → Bool
unfolding is_c_scalar_kind
is_c_scalar t = is_c_scalar_kind (kind t)

-- `push_back`, `size` and `at` of a vector of types.
abbrev pub snoc : DataTypes → DataType → DataTypes
snoc nil t = cons t nil
snoc (cons s ss) t = cons s (snoc ss t)

abbrev pub count : DataTypes → ℕ
count nil = 0
count (cons t ts) = suc (count ts)

abbrev pub type_at : DataTypes → ℕ → Outcome DataType
type_at nil i = aborted
type_at (cons t ts) zero = ok t
type_at (cons t ts) (suc i) = type_at ts i

unfoldable pub add_subtype : DataType → DataType → DataType
add_subtype s (data_type a ss ps rs gs) = data_type a (snoc ss s) ps rs gs

unfoldable pub add_parameter : DataType → DataType → DataType
add_parameter p (data_type a ss ps rs gs) = data_type a ss (snoc ps p) rs gs

unfoldable pub add_return : DataType → DataType → DataType
add_return r (data_type a ss ps rs gs) = data_type a ss ps (snoc rs r) gs

unfoldable pub add_generic_parameter : DataType → DataType → DataType
add_generic_parameter g (data_type a ss ps rs gs) = data_type a ss ps rs (snoc gs g)

unfoldable pub is_generic : DataType → Bool
is_generic (data_type a ss ps rs gs) = ltb 0 (count gs)

unfoldable pub set_return_type : DataType → DataType → DataType
set_return_type r (data_type a ss ps rs gs) = data_type a ss ps (cons r nil) gs

unfoldable pub return_type : DataType → Outcome DataType
return_type t = type_at (returns t) 0

-- The first subtype with the label, or an undefined type.
unfoldable pub with_label : Bytes → DataTypes → DataType
with_label label nil = of_kind Kind.undefined
with_label label (cons t ts) =
    let rest = with_label label ts in if bytes_eq (attributes t).label label then t else rest

unfoldable pub subtype_with_label : Bytes → DataType → DataType
unfolding with_label
subtype_with_label label t = with_label label (subtypes t)

unfoldable pub wrap_in_type : Kind → DataType → Bytes → DataType
unfolding add_subtype set_label
wrap_in_type k subtype label = set_label label (add_subtype subtype (of_kind k))

unfoldable pub wrap_in_pointer : DataType → Bytes → DataType
unfolding wrap_in_type
wrap_in_pointer t label = wrap_in_type Kind.pointer t label

unfoldable pub mutable_version : DataType → DataType
unfolding set_access
mutable_version t = set_access read_write t
