-- ===== src/Lexer/Munch.antt =====
-- `lexPunctuation` takes the longest operator: what that means, and the rule for each call that it
-- makes. The cases are in the child modules.
pub mod Compounds
pub mod Cases
use three.Base.{
  ℕ, ◌≡◌, ◌≢◌, refl, sym, ◌∙◌, ap, subst, ◌⊎◌, inl, inr, Bool, true, false, List, [], ◌∷◌, ◌++◌,
  append_assoc, append-nil, ◌==◌, All, All-append_right, Option, none, some, if◌then◌else◌,
  Bool-cases, Bytes, codes, bytes_eq, bytes_eq_iff, Outcome, ok, arith, char_at,
}
use three.Token.Kind.{TokenType}
use three.Token.{Token}
use three.Subtoken.{Subtoken}
use three.SubtokenLexer.{SubtokenLexer}
use three.SubtokenLexer.Feed.{Yields, ends, gives}
use three.Preprocessor.Expansion.{texts}
use three.Lexer.Keywords.{find_type}
use three.Lexer.Calls.{
  Call, token, subtoken_peek, subtoken_advance, subtoken_advance_if_equal, if_next,
}
use three.Lexer.Punctuation.{
  simple_type, lex_minus, lex_plus, lex_percent, lex_slash, lex_star, lex_equal, lex_less, lex_not,
  lex_greater, lex_and, lex_or, lex_xor, lex_compound, lex_first, lex_punctuation,
}

-- The operators and the punctuation of the language.
abbrev pub operators : List (Bytes × TokenType)
operators =
    (codes ":", TokenType.punctuation_colon)
    ∷ (codes ";", TokenType.punctuation_semicolon)
    ∷ (codes ",", TokenType.punctuation_comma)
    ∷ (codes "[", TokenType.punctuation_open_bracket)
    ∷ (codes "]", TokenType.punctuation_close_bracket)
    ∷ (codes "{", TokenType.punctuation_open_brace)
    ∷ (codes "}", TokenType.punctuation_close_brace)
    ∷ (codes "(", TokenType.punctuation_open_paren)
    ∷ (codes ")", TokenType.punctuation_close_paren)
    ∷ (codes "~", TokenType.operator_binary_not)
    ∷ (codes "?", TokenType.operator_question_mark)
    ∷ (codes ".", TokenType.operator_dot)
    ∷ (codes "--", TokenType.operator_decrement)
    ∷ (codes "-=", TokenType.operator_subtract_assign)
    ∷ (codes "->", TokenType.operator_arrow)
    ∷ (codes "-", TokenType.operator_minus)
    ∷ (codes "++", TokenType.operator_increment)
    ∷ (codes "+=", TokenType.operator_add_assign)
    ∷ (codes "+", TokenType.operator_plus)
    ∷ (codes "%=", TokenType.operator_mod_assign)
    ∷ (codes "%", TokenType.operator_mod)
    ∷ (codes "/=", TokenType.operator_divide_assign)
    ∷ (codes "/", TokenType.operator_divide)
    ∷ (codes "*=", TokenType.operator_multiply_assign)
    ∷ (codes "*", TokenType.operator_star)
    ∷ (codes "===", TokenType.operator_deep_equal)
    ∷ (codes "==", TokenType.operator_equal)
    ∷ (codes "=", TokenType.operator_assign)
    ∷ (codes "<=>", TokenType.operator_compare)
    ∷ (codes "<=", TokenType.operator_less_or_equal)
    ∷ (codes "<<=", TokenType.operator_left_shift_assign)
    ∷ (codes "<<", TokenType.operator_left_shift)
    ∷ (codes "<", TokenType.operator_less_than)
    ∷ (codes "!=", TokenType.operator_not_equal)
    ∷ (codes "!", TokenType.operator_not)
    ∷ (codes ">=", TokenType.operator_greater_or_equal)
    ∷ (codes ">>=", TokenType.operator_right_shift_assign)
    ∷ (codes ">>", TokenType.operator_right_shift)
    ∷ (codes ">", TokenType.operator_greater_than)
    ∷ (codes "&&=", TokenType.operator_logical_and_assign)
    ∷ (codes "&&", TokenType.operator_logical_and)
    ∷ (codes "&=", TokenType.operator_bitwise_and_assign)
    ∷ (codes "&", TokenType.operator_ampersand)
    ∷ (codes "||=", TokenType.operator_logical_or_assign)
    ∷ (codes "||", TokenType.operator_logical_or)
    ∷ (codes "|=", TokenType.operator_bitwise_or_assign)
    ∷ (codes "|", TokenType.operator_binary_or)
    ∷ (codes "^^", TokenType.operator_logical_xor)
    ∷ (codes "^=", TokenType.operator_bitwise_xor_assign)
    ∷ (codes "^", TokenType.operator_binary_xor)
    ∷ []

-- What stands behind the token is not the rest of a longer operator.
abbrev pub IsLongest : Bytes → List Subtoken → Type 0
IsLongest s [] = Unit
IsLongest s (u ∷ us) = (c : ℕ) → u.str ≡ c ∷ [] → find_type (s ++ c ∷ []) operators ≡ none

-- With `s` read, the call takes the subtokens `used` off the front of `ts`: together they are the
-- longest operator, and the token holds their text and its type.
pub record Munches (s : Bytes) (ts : List Subtoken) (r : Outcome (Token × SubtokenLexer))
    : Type 0 where
  pub result : Token
  pub left : SubtokenLexer
  pub used : List Subtoken
  pub rest : List Subtoken
  pub returns : r ≡ ok (result, left)
  pub takes : ts ≡ used ++ rest
  pub yields : Yields left rest
  pub text : result.str ≡ s ++ texts used
  pub type_is : find_type result.str operators ≡ some result.type
  pub longest : IsLongest result.str rest

-- The character by which `key` is longer than `s`, and those of all operators.
abbrev pub extension : Bytes → Bytes → Bytes
extension [] (x ∷ []) = x ∷ []
extension [] _ = []
extension (a ∷ s) [] = []
extension (a ∷ s) (b ∷ key) = if a == b then extension s key else []

abbrev pub extensions : Bytes → List (Bytes × TokenType) → Bytes
extensions s [] = []
extensions s ((key, type) ∷ map) = extension s key ++ extensions s map

extension_lem :
    (s key : Bytes) (c : ℕ) → bytes_eq key (s ++ c ∷ []) ≡ true → extension s key ≡ c ∷ []
unfolding bytes_eq
extension_lem [] [] c h = cc
extension_lem [] (x ∷ []) c h = ground arith
extension_lem [] (x ∷ y ∷ key) c h = ground arith
extension_lem (a ∷ s) [] c h = cc
extension_lem (a ∷ s) (b ∷ key) c h = ground (arith, extension_lem s key c)

-- A character that is none of `cs`.
abbrev pub IsNone : ℕ → Bytes → Type 0
IsNone c = All (λ x. c ≢ x)

find_type-eq-none :
    (map : List (Bytes × TokenType)) (s : Bytes) (c : ℕ)
    → IsNone c (extensions s map)
    → find_type (s ++ c ∷ []) map ≡ none
unfolding find_type
find_type-eq-none [] s c h = refl
find_type-eq-none ((key, type) ∷ map) s c h = elim (Bool-cases (bytes_eq key (s ++ c ∷ []))) [
  | inl same ↦
      let others = subst (λ x. IsNone c (x ++ extensions s map)) (extension_lem s key c same) h in
      absurd (others.0 refl)
  | inr differs ↦
      rw differs
        (find_type-eq-none map s c (All-append_right _ (extension s key) (extensions s map) h))
]

-- What the next subtoken says, the end of the input having no text.
abbrev pub Follows : (Bytes → Type 0) → List Subtoken → Type 0
Follows P [] = P []
Follows P (u ∷ us) = P u.str

-- The next subtoken is none of the characters `cs`.
abbrev pub Excludes : Bytes → List Subtoken → Type 0
Excludes cs ts = All (λ x. Follows (λ v. v ≢ x ∷ []) ts) cs

IsNone-of_excludes :
    (u : Subtoken) (c : ℕ) (cs : Bytes)
    → u.str ≡ c ∷ []
    → All (λ x. u.str ≢ x ∷ []) cs
    → IsNone c cs
IsNone-of_excludes u c [] e h = tt
IsNone-of_excludes u c (x ∷ cs) e h =
    ((λ same. h.0 (e ∙ ap (λ y. y ∷ []) same)), IsNone-of_excludes u c cs e h.1)

IsLongest-of_Excludes :
    (s : Bytes) (ts : List Subtoken) → Excludes (extensions s operators) ts → IsLongest s ts
IsLongest-of_Excludes s [] h = tt
IsLongest-of_Excludes s (u ∷ us) h =
    λ c e. find_type-eq-none operators s c (IsNone-of_excludes u c (extensions s operators) e h)

-- Where no operator goes on with the text of the next subtoken.
pub token-Munches :
    (type : TokenType) (s : Bytes) (ts : List Subtoken) (l : SubtokenLexer)
    → find_type s operators ≡ some type
    → Excludes (extensions s operators) ts
    → Yields l ts
    → Munches s ts (token type s l)
token-Munches type s ts l found excluded y = record {
  result = record { type = type; str = s };
  left = l;
  used = [];
  rest = ts;
  returns = refl;
  takes = refl;
  yields = y;
  text = sym (append-nil s);
  type_is = found;
  longest = IsLongest-of_Excludes s ts excluded;
}

-- A call that is made after one more subtoken was taken.
pub Munches-cons :
    (s : Bytes) (u : Subtoken) (ts : List Subtoken) {r : Outcome (Token × SubtokenLexer)}
    → Munches (s ++ u.str) ts r
    → Munches s (u ∷ ts) r
Munches-cons s u ts m = record {
  result = m.result;
  left = m.left;
  used = u ∷ m.used;
  rest = m.rest;
  returns = m.returns;
  takes = ap (λ x. u ∷ x) m.takes;
  yields = m.yields;
  text = m.text ∙ append_assoc s u.str (texts m.used);
  type_is = m.type_is;
  longest = m.longest;
}

empty_ne : (c : ℕ) → bytes_eq [] (c ∷ []) ≡ false
unfolding bytes_eq
empty_ne c = refl

pub if_next-Munches :
    (s : Bytes) (c : ℕ) (matched rest : Call Token) (ts : List Subtoken) (l : SubtokenLexer)
    → ((us : List Subtoken) (l' : SubtokenLexer)
        → Yields l' us
        → Munches (s ++ c ∷ []) us (matched l'))
    → ((l' : SubtokenLexer) → Follows (λ v. v ≢ c ∷ []) ts → Yields l' ts → Munches s ts (rest l'))
    → Yields l ts
    → Munches s ts (if_next (c ∷ []) matched rest l)
unfolding if_next subtoken_advance_if_equal subtoken_peek subtoken_advance
if_next-Munches s c matched rest [] l yes_ no_ (ends {l' = l'} p q n m at_end empty) =
    rw (p, empty, empty_ne c) (no_ l' (λ x. cc) (ends q q m m at_end empty))
if_next-Munches s c matched rest (u ∷ us) l yes_ no_
      (gives {l₁ = l₁} {l₂ = l₂} p q n m ne kt b₁ b₂ more) =
    elim (Bool-cases (bytes_eq u.str (c ∷ []))) [
      | inl same ↦
          rw (p, same)
            (rw n (Munches-cons s u us (rw ((bytes_eq_iff _ _).0 same) (yes_ us l₂ more))))
      | inr other ↦
          rw (p, other)
            (no_ l₁ (λ x. cc (other, (bytes_eq_iff _ _).1 x)) (gives q q n n ne kt b₂ b₂ more))
    ]

-- Each case of the second `switch`, at its character.
abbrev pub Case : Bytes → Call Token → Type 0
Case s lex = (ts : List Subtoken) (l : SubtokenLexer) → Yields l ts → Munches s ts (lex l)
