-- ===== src/Lexer/Reading.antt =====
-- `Lexer::advance` on the subtokens to come: what it takes and returns, and the
-- calls for words and annotations. Numbers and the whole are in the child module.
pub mod Total
use three.Base.{
  ℕ, zero, suc, ◌+◌, ◌≤◌, ◌<◌, ◌≡◌, ◌≢◌, refl, sym, ◌∙◌, ap, ap₂, subst, Bool, true, false, List,
  [], ◌∷◌, ◌++◌, append-nil, append_assoc, ◌==◌, if◌then◌else◌, Bool-cases, inl, inr, All, length,
  Bytes, codes, bytes_eq, bytes_eq_iff, char_at, Option, none, some, Outcome, ok, arith,
}
use three.Token.Kind.{TokenType}
use three.Token.{Token}
use three.Subtoken.{
  SubtokenType, Subtoken, undefined, end_of_input, newline, word, number, string, character,
  punctuation, comment, whitespace, directive_switch, directive_case, directive_else, directive_end,
  directive_if, type_eq, type_eq_iff,
}
use three.SubtokenLexer.{SubtokenLexer}
use three.SubtokenLexer.Shape.{Shape}
use three.SubtokenLexer.Feed.{Yields, ends, gives}
use three.Preprocessor.Expansion.{texts}
use three.Lexer.Calls.{Call, ◌>>=◌, ◌>>◌, pure, token, no_token, subtoken_peek, subtoken_advance}
use three.Lexer.Words.{lex_word, lex_number, lex_annotation, word_type, annotation_type}
use three.Lexer.Punctuation.{lex_punctuation}
use three.Lexer.Munch.Cases.{lex_punctuation-Munches}
use three.Lexer.Advance.{is_comment, skip_comments, lex_subtoken, advance_token}

-- The subtokens that `advance` makes no token of: it leaves them where they are.
abbrev pub is_left : SubtokenType → Bool
is_left undefined = true
is_left end_of_input = true
is_left directive_switch = true
is_left directive_case = true
is_left directive_else = true
is_left directive_end = true
is_left directive_if = true
is_left _ = false

-- The tokens stop at the end of the input, or at a directive.
abbrev pub IsStuck : List Subtoken → Type 0
IsStuck [] = Unit
IsStuck (u ∷ us) = is_left u.type ≡ true

-- The call takes the subtokens `used` off the front of `ts`; a token with a type has their text.
pub record Reads (ts : List Subtoken) (r : Outcome (Token × SubtokenLexer)) : Type 0 where
  pub result : Token
  pub left : SubtokenLexer
  pub used : List Subtoken
  pub rest : List Subtoken
  pub returns : r ≡ ok (result, left)
  pub takes : ts ≡ used ++ rest
  pub yields : Yields left rest
  pub text : result.type ≢ TokenType.undefined → result.str ≡ texts used
  pub stuck : used ≡ [] → (result.type ≡ TokenType.undefined) × IsStuck rest

-- `next` at the front of the subtokens to come, and at their end.
pub advance-Yields :
    {l : SubtokenLexer} {u : Subtoken} {ts : List Subtoken}
    → Yields l (u ∷ ts)
    → (l' : SubtokenLexer) × (subtoken_advance l ≡ ok (u, l')) × Yields l' ts
unfolding subtoken_advance
advance-Yields (gives {l₂ = l₂} p q n m ne kt b₁ b₂ more) = (l₂, m, more)

pub advance_at_end :
    {l : SubtokenLexer}
    → Yields l []
    → (t : Subtoken) × (l' : SubtokenLexer) × (subtoken_advance l ≡ ok (t, l'))
      × Yields l' []
      × (t.str ≡ [])
unfolding subtoken_advance
advance_at_end (ends {l' = l'} {t} p q n m at_end empty) =
    (t, l', n, ends q q m m at_end empty, empty)

pub peek-Yields :
    {l : SubtokenLexer} {u : Subtoken} {ts : List Subtoken}
    → Yields l (u ∷ ts)
    → (l' : SubtokenLexer) × (subtoken_peek l ≡ ok (u, l')) × Yields l' (u ∷ ts)
unfolding subtoken_peek
peek-Yields (gives {l₁ = l₁} p q n m ne kt b₁ b₂ more) = (l₁, p, gives q q n n ne kt b₂ b₂ more)

pub peek_at_end :
    {l : SubtokenLexer}
    → Yields l []
    → (t : Subtoken) × (l' : SubtokenLexer) × (subtoken_peek l ≡ ok (t, l'))
      × Yields l' []
      × (t.type ≡ end_of_input)
      × (t.str ≡ [])
unfolding subtoken_peek
peek_at_end (ends {l' = l'} {t} p q n m at_end empty) =
    (t, l', p, ends q q m m at_end empty, at_end, empty)

-- A token that was made of the subtokens `u ∷ us`.
pub reads :
    (t : Token) (l : SubtokenLexer) (u : Subtoken) (us rest : List Subtoken)
    {r : Outcome (Token × SubtokenLexer)}
    → r ≡ ok (t, l)
    → Yields l rest
    → (t.type ≢ TokenType.undefined → t.str ≡ texts (u ∷ us))
    → Reads (u ∷ (us ++ rest)) r
reads t l u us rest e y text = record {
  result = t;
  left = l;
  used = u ∷ us;
  rest = rest;
  returns = e;
  takes = refl;
  yields = y;
  text = text;
  stuck = λ x. cc;
}

-- A call that takes one subtoken and makes a token of it.
pub one-Reads :
    (type : TokenType) (s : Bytes) (l : SubtokenLexer) (u : Subtoken) (ts : List Subtoken)
    → s ≡ u.str
    → Yields l (u ∷ ts)
    → Reads (u ∷ ts) ((subtoken_advance >> token type s) l)
one-Reads type s l u ts e y =
    let (l', taken, y') = advance-Yields y in
    reads (record { type = type; str = s }) l' u [] ts (rw taken) y'
      (λ _. e ∙ sym (append-nil u.str))

pub lex_word-Reads :
    (l : SubtokenLexer) (u : Subtoken) (ts : List Subtoken)
    → Yields l (u ∷ ts)
    → Reads (u ∷ ts) (lex_word l)
unfolding lex_word
lex_word-Reads l u ts y =
    let (l', taken, y') = advance-Yields y in
    reads (record { type = word_type u.str; str = u.str }) l' u [] ts (rw taken) y'
      (λ _. sym (append-nil u.str))

pub lex_annotation-Reads :
    (l : SubtokenLexer) (u : Subtoken) (ts : List Subtoken)
    → u.str ≡ codes "@"
    → Yields l (u ∷ ts)
    → Reads (u ∷ ts) (lex_annotation l)
unfolding lex_annotation
lex_annotation-Reads l u [] at_sign y =
    let (l₁, taken, y₁) = advance-Yields y in
    let (t, l₂, taken', y₂, empty) = advance_at_end y₁ in
    let same = (bytes_eq_iff u.str (codes "@")).1 at_sign in
    reads (record { type = annotation_type t.str; str = b'@' ∷ t.str }) l₂ u [] []
      (rw taken (rw same (rw taken'))) y₂ (λ _. rw (at_sign, empty) refl)
lex_annotation-Reads l u (t ∷ ts) at_sign y =
    let (l₁, taken, y₁) = advance-Yields y in
    let (l₂, taken', y₂) = advance-Yields y₁ in
    let same = (bytes_eq_iff u.str (codes "@")).1 at_sign in
    reads (record { type = annotation_type t.str; str = b'@' ∷ t.str }) l₂ u (t ∷ []) ts
      (rw taken (rw same (rw taken'))) y₂ (λ _. rw (at_sign, append-nil) refl)
