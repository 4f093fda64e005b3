-- ===== src/DataType/Kinds.antt =====
-- The enumerations of compiler/Constructs/DataType.h, and the classes of kinds of DataType.cpp.
use three.Base.{Bool, true, false, codes}
use three.QualifiedName.{QualifiedName, unnamed, of_identifier}

pub data Kind : Type 0 where
  undefined unknown void integer boolean natural float real character : Kind
  pointer nullable_pointer tuple array function closure structure enumeration union : Kind
  vararg generic generic_array generic_pointer generic_nullable_pointer : Kind
  c_function c_structure c_struct_prefixed_structure : Kind
  c_char c_unsigned_char c_short c_unsigned_short c_int c_unsigned_int : Kind
  c_long c_unsigned_long c_long_long c_unsigned_long_long c_unspecified_macro : Kind

pub data CharacterEncoding : Type 0 where
  ascii utf8 utf16 utf16be utf16le utf32 utf32le utf32be : CharacterEncoding

pub data Access : Type 0 where
  inaccessible read write read_write : Access

-- The name that the constructor gives a type of the kind.
unfoldable pub name_of_kind : Kind → QualifiedName
name_of_kind Kind.integer = of_identifier (codes "Int")
name_of_kind Kind.boolean = of_identifier (codes "Bool")
name_of_kind Kind.natural = of_identifier (codes "Natural")
name_of_kind Kind.float = of_identifier (codes "Float")
name_of_kind Kind.real = of_identifier (codes "Real")
name_of_kind _ = unnamed

unfoldable pub is_defined_kind : Kind → Bool
is_defined_kind Kind.undefined = false
is_defined_kind Kind.unknown = false
is_defined_kind _ = true

unfoldable pub is_pointer_kind : Kind → Bool
is_pointer_kind Kind.pointer = true
is_pointer_kind Kind.nullable_pointer = true
is_pointer_kind Kind.generic_pointer = true
is_pointer_kind Kind.generic_nullable_pointer = true
is_pointer_kind _ = false

unfoldable pub is_c_scalar_kind : Kind → Bool
is_c_scalar_kind Kind.c_char = true
is_c_scalar_kind Kind.c_unsigned_char = true
is_c_scalar_kind Kind.c_short = true
is_c_scalar_kind Kind.c_unsigned_short = true
is_c_scalar_kind Kind.c_int = true
is_c_scalar_kind Kind.c_unsigned_int = true
is_c_scalar_kind Kind.c_long = true
is_c_scalar_kind Kind.c_unsigned_long = true
is_c_scalar_kind Kind.c_long_long = true
is_c_scalar_kind Kind.c_unsigned_long_long = true
is_c_scalar_kind _ = false
