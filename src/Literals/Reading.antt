-- ===== src/Literals/Reading.antt =====
-- Reading an integer literal, with its type or without one.
use three.Base.{ℕ, ◌≤◌, ◌≡◌, refl, false, true, ◌∷◌, ◌++◌, Bytes, codes, ok}
use three.Token.Kind.{TokenType, type_eq}
use three.Token.{Token}
use three.DataType.{of_kind}
use three.ParseContext.{ParseContext, type_kind_with_name}
use three.ParseHelper.{Stream, is_at}
use three.TypeParser.Syntax.{TypeSyntax, spell, size, token_of, colon}
use three.TypeParser.Meaning.{denote, IsType, Ends}
use three.TypeParser.RoundTrip.{reads-spell}
use three.Literals.{is_at_specifier, parse_integer_literal}
use three.Literals.Values.{
  Radix, decimal, hexadecimal, binary, prefix_of, IsNumeral, saturated, integer_value-IsNumeral,
}

-- The token of a numeral, as the lexer makes it.
abbrev pub literal : Radix → Bytes → Token
literal decimal s = token_of TokenType.literal_integer (prefix_of decimal ++ s)
literal hexadecimal s = token_of TokenType.literal_hex (prefix_of hexadecimal ++ s)
literal binary s = token_of TokenType.literal_binary (prefix_of binary ++ s)

pub unspecified_literal :
    (f : ℕ) (c : ParseContext) (r : Radix) (s : Bytes) (n : ℕ) (ts : Stream)
    → IsNumeral r s n
    → is_at_specifier ts ≡ false
    → parse_integer_literal f c (literal r s ∷ ts)
      ≡ ok (
        record { value = saturated n; data_type = of_kind (type_kind_with_name c (codes "Int")) },
        ts,
      )
unfolding parse_integer_literal type_eq
unspecified_literal f c decimal s n ts is bare =
    rw (integer_value-IsNumeral decimal s n is) (rw bare refl)
unspecified_literal f c hexadecimal s n ts is bare =
    rw (integer_value-IsNumeral hexadecimal s n is) (rw bare refl)
unspecified_literal f c binary s n ts is bare =
    rw (integer_value-IsNumeral binary s n is) (rw bare refl)

pub specified_literal :
    (f : ℕ) (c : ParseContext) (r : Radix) (s : Bytes) (n : ℕ) (t : TypeSyntax) (ts : Stream)
    → IsNumeral r s n
    → size t ≤ f
    → IsType c t
    → Ends ts
    → is_at TokenType.identifier (spell t ts) ≡ true
    → parse_integer_literal f c (literal r s ∷ colon ∷ spell t ts)
      ≡ ok (record { value = saturated n; data_type = denote c t }, ts)
unfolding parse_integer_literal type_eq
specified_literal f c decimal s n t ts is small type ends named =
    rw (integer_value-IsNumeral decimal s n is)
      (rw named (rw (reads-spell f c t ts small type ends) refl))
specified_literal f c hexadecimal s n t ts is small type ends named =
    rw (integer_value-IsNumeral hexadecimal s n is)
      (rw named (rw (reads-spell f c t ts small type ends) refl))
specified_literal f c binary s n t ts is small type ends named =
    rw (integer_value-IsNumeral binary s n is)
      (rw named (rw (reads-spell f c t ts small type ends) refl))

-- Digits that write a number in base 10, or in base 16 or 2 behind the prefix `0x` or `0b`, with letters
-- of either case and zeros in front where there is a prefix, are read to the number, as long as it fits
-- a signed integer of 64 bits, and to the largest such integer otherwise. Where no colon with an
-- identifier behind it follows, the type is `Int`. Where a colon follows and a written type that begins
-- with an identifier, in front of tokens that do not go on with a type, the type is the one that is
-- written, and both are taken, with fuel for the size of the type.
pub parse_integer_literal-spell :
    (f : ℕ) (c : ParseContext) (r : Radix) (s : Bytes) (n : ℕ) (t : TypeSyntax) (ts ts' : Stream)
    → IsNumeral r s n
    → is_at_specifier ts' ≡ false
    → size t ≤ f
    → IsType c t
    → Ends ts
    → is_at TokenType.identifier (spell t ts) ≡ true
    → (parse_integer_literal f c (literal r s ∷ ts')
        ≡ ok (
          record { value = saturated n; data_type = of_kind (type_kind_with_name c (codes "Int")) },
          ts',
        ))
      × (parse_integer_literal f c (literal r s ∷ colon ∷ spell t ts)
          ≡ ok (record { value = saturated n; data_type = denote c t }, ts))
parse_integer_literal-spell f c r s n t ts ts' is bare small type ends named = (
  unspecified_literal f c r s n ts' is bare,
  specified_literal f c r s n t ts is small type ends named,
)
