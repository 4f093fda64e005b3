-- ===== src/Literals/Texts/Quotes.antt =====
-- Reading a string or a character: the text between the quotes, and the encoding that is written.
use three.Base.{ℕ, ◌≡◌, refl, ap, false, [], ◌∷◌, ◌++◌, some, Bytes, bytes_eq, codes, ok}
use three.Token.Kind.{TokenType, type_eq}
use three.DataType.{DataType, of_kind, set_character_encoding, add_subtype}
use three.DataType.Kinds.{Kind, CharacterEncoding}
use three.Scope.{find}
use three.ParseContext.{ParseContext, type_kind_with_name}
use three.ParseHelper.{Stream, is_at, next_if}
use three.TypeParser.Parsing.{character_encoding_map}
use three.TypeParser.Syntax.{token_of, identifier, colon}
use three.Literals.Texts.{
  without_last, str_trimming_first_and_last, parse_character_encoding_specifier, character_type,
  parse_string_literal, parse_character_literal,
}

-- The specifier of an encoding.
unfoldable pub encoding_name : CharacterEncoding → Bytes
encoding_name CharacterEncoding.ascii = codes "ascii"
encoding_name CharacterEncoding.utf8 = codes "utf8"
encoding_name CharacterEncoding.utf16 = codes "utf16"
encoding_name CharacterEncoding.utf16be = codes "utf16be"
encoding_name CharacterEncoding.utf16le = codes "utf16le"
encoding_name CharacterEncoding.utf32 = codes "utf32"
encoding_name CharacterEncoding.utf32le = codes "utf32le"
encoding_name CharacterEncoding.utf32be = codes "utf32be"

find-encoding_name :
    (e : CharacterEncoding) → find (encoding_name e) character_encoding_map ≡ some e
unfolding find bytes_eq encoding_name
find-encoding_name CharacterEncoding.ascii = refl
find-encoding_name CharacterEncoding.utf8 = refl
find-encoding_name CharacterEncoding.utf16 = refl
find-encoding_name CharacterEncoding.utf16be = refl
find-encoding_name CharacterEncoding.utf16le = refl
find-encoding_name CharacterEncoding.utf32 = refl
find-encoding_name CharacterEncoding.utf32le = refl
find-encoding_name CharacterEncoding.utf32be = refl

without_last-append : (s : Bytes) (c : ℕ) → without_last (s ++ c ∷ []) ≡ s
unfolding without_last
without_last-append [] c = refl
without_last-append (x ∷ []) c = refl
without_last-append (x ∷ y ∷ s) c = ap (λ t. x ∷ t) (without_last-append (y ∷ s) c)

abbrev pub quoted : ℕ → Bytes → Bytes
quoted q s = q ∷ s ++ q ∷ []

abbrev pub character : ParseContext → DataType
character c = of_kind (type_kind_with_name c (codes "Char"))

character_type-plain :
    (c : ParseContext) (ts : Stream)
    → is_at TokenType.punctuation_colon ts ≡ false
    → character_type c ts ≡ ok (character c, ts)
unfolding character_type next_if
character_type-plain c ts bare = rw bare refl

character_type-encoded :
    (c : ParseContext) (e : CharacterEncoding) (ts : Stream)
    → character_type c (colon ∷ identifier (encoding_name e) ∷ ts)
      ≡ ok (set_character_encoding e (character c), ts)
unfolding character_type next_if parse_character_encoding_specifier type_eq
character_type-encoded c e ts = rw (find-encoding_name e) refl

module _ (c : ParseContext) (q : ℕ) (s : Bytes) where
  pub plain_string :
      (ts : Stream)
      → is_at TokenType.punctuation_colon ts ≡ false
      → parse_string_literal c (token_of TokenType.literal_string (quoted q s) ∷ ts)
        ≡ ok
            (record { value = s; data_type = add_subtype (character c) (of_kind Kind.pointer) }, ts)
  unfolding parse_string_literal str_trimming_first_and_last type_eq
  plain_string ts bare = rw (without_last-append s q) (rw (character_type-plain c ts bare) refl)

  pub encoded_string :
      (e : CharacterEncoding) (ts : Stream)
      → parse_string_literal c (
          token_of TokenType.literal_string (quoted q s)
          ∷ colon
          ∷ identifier (encoding_name e)
          ∷ ts)
        ≡ ok (
          record {
            value = s;
            data_type = add_subtype (set_character_encoding e (character c)) (of_kind Kind.pointer);
          },
          ts,
        )
  unfolding parse_string_literal str_trimming_first_and_last type_eq
  encoded_string e ts = rw (without_last-append s q) (rw (character_type-encoded c e ts) refl)

  pub plain_character :
      (ts : Stream)
      → is_at TokenType.punctuation_colon ts ≡ false
      → parse_character_literal c (token_of TokenType.literal_character (quoted q s) ∷ ts)
        ≡ ok (record { value = s; data_type = character c }, ts)
  unfolding parse_character_literal str_trimming_first_and_last type_eq
  plain_character ts bare = rw (without_last-append s q) (rw (character_type-plain c ts bare) refl)

  pub encoded_character :
      (e : CharacterEncoding) (ts : Stream)
      → parse_character_literal c (
          token_of TokenType.literal_character (quoted q s)
          ∷ colon
          ∷ identifier (encoding_name e)
          ∷ ts)
        ≡ ok (record { value = s; data_type = set_character_encoding e (character c) }, ts)
  unfolding parse_character_literal str_trimming_first_and_last type_eq
  encoded_character e ts = rw (without_last-append s q) (rw (character_type-encoded c e ts) refl)

-- A string, which is its text in quotes, is read to its text and a pointer to `Char`; where a colon and
-- the name of an encoding follow, they are taken too, and the characters have the encoding. A character
-- literal is read in the same way, to `Char` itself.
pub parse_string_literal-quoted :
    (c : ParseContext) (q : ℕ) (s : Bytes) (e : CharacterEncoding) (ts : Stream)
    → is_at TokenType.punctuation_colon ts ≡ false
    → (parse_string_literal c (token_of TokenType.literal_string (quoted q s) ∷ ts)
        ≡ ok (
          record { value = s; data_type = add_subtype (character c) (of_kind Kind.pointer) },
          ts,
        ))
      × (parse_string_literal c (
            token_of TokenType.literal_string (quoted q s)
            ∷ colon
            ∷ identifier (encoding_name e)
            ∷ ts)
          ≡ ok (
            record {
              value = s;
              data_type =
                  add_subtype (set_character_encoding e (character c)) (of_kind Kind.pointer);
            },
            ts,
          ))
      × (parse_character_literal c (token_of TokenType.literal_character (quoted q s) ∷ ts)
          ≡ ok (record { value = s; data_type = character c }, ts))
      × (parse_character_literal c (
            token_of TokenType.literal_character (quoted q s)
            ∷ colon
            ∷ identifier (encoding_name e)
            ∷ ts)
          ≡ ok (record { value = s; data_type = set_character_encoding e (character c) }, ts))
parse_string_literal-quoted c q s e ts bare = (
  plain_string c q s ts bare,
  encoded_string c q s e ts,
  plain_character c q s ts bare,
  encoded_character c q s e ts,
)
