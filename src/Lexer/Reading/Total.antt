-- ===== src/Lexer/Reading/Total.antt =====
-- `Lexer::advance` returns a token wherever the subtokens to come are known.
use three.Base.{
  ◌≡◌, ◌≢◌, refl, sym, ◌∙◌, ap, subst, true, false, List, [], ◌∷◌, ◌++◌, append-nil, ◌==◌, ==_iff,
  Bool-cases, inl, inr, codes, bytes_eq, char_at, some, ok,
}
use three.Token.Kind.{TokenType}
use three.Subtoken.{
  SubtokenType, Subtoken, end_of_input, newline, word, number, string, character, punctuation,
  comment, whitespace, type_eq,
}
use three.SubtokenLexer.{SubtokenLexer}
use three.SubtokenLexer.Shape.{Shape}
use three.SubtokenLexer.Feed.{Yields}
use three.Preprocessor.Expansion.{texts}
use three.Lexer.Keywords.{find_type}
use three.Lexer.Calls.{no_token, subtoken_peek, subtoken_advance}
use three.Lexer.Words.{lex_number}
use three.Lexer.Punctuation.{lex_punctuation}
use three.Lexer.Munch.{Munches, operators}
use three.Lexer.Munch.Cases.{lex_punctuation-Munches}
use three.Lexer.Advance.{is_comment, lex_subtoken}
use three.Lexer.Reading.{
  Reads, IsStuck, reads, advance-Yields, peek-Yields, peek_at_end, one-Reads, lex_word-Reads,
  lex_annotation-Reads,
}

-- Behind the point of a number: digits make a real, anything else no token.
not_number : (t : Subtoken) → t.type ≡ end_of_input → type_eq t.type number ≡ false
not_number t e = rw e (unfold type_eq in refl)

-- A number with a point behind its digits.
lex_real-Reads :
    (l l₁ l₂ : SubtokenLexer) (u p : Subtoken) (ts : List Subtoken)
    → subtoken_advance l ≡ ok (u, l₁)
    → subtoken_peek l₁ ≡ ok (p, l₂)
    → bytes_eq p.str (codes ".") ≡ true
    → Yields l₂ (p ∷ ts)
    → Reads (u ∷ p ∷ ts) (lex_number l)
unfolding lex_number
lex_real-Reads l l₁ l₂ u p [] taken seen point y₂ =
    let (l₃, dot, y₃) = advance-Yields y₂ in
    let (f, l₄, seen', y₄, at_end, empty) = peek_at_end y₃ in
    reads no_token l₄ u (p ∷ []) []
      (rw taken (rw seen (rw point (rw dot (rw seen' (rw (not_number f at_end) refl)))))) y₄
      (λ ne. absurd (ne refl))
lex_real-Reads l l₁ l₂ u p (f ∷ ts) taken seen point y₂ =
    let (l₃, dot, y₃) = advance-Yields y₂ in
    let (l₄, seen', y₄) = peek-Yields y₃ in
    elim (Bool-cases (type_eq f.type number)) [
      | inl digits ↦
          let (l₅, taken', y₅) = advance-Yields y₄ in
          reads (record { type = TokenType.literal_real; str = u.str ++ (p.str ++ f.str) }) l₅ u
            (p ∷ f ∷ []) ts
            (rw taken (rw seen (rw point (rw dot (rw seen' (rw digits (rw taken'))))))) y₅
            (λ _. ap (λ s. u.str ++ (p.str ++ s)) (sym (append-nil f.str)))
      | inr other ↦
          reads no_token l₄ u (p ∷ []) (f ∷ ts)
            (rw taken (rw seen (rw point (rw dot (rw seen' (rw other)))))) y₄
            (λ ne. absurd (ne refl))
    ]

lex_number-Reads :
    (l : SubtokenLexer) (u : Subtoken) (ts : List Subtoken)
    → Yields l (u ∷ ts)
    → Reads (u ∷ ts) (lex_number l)
unfolding lex_number
lex_number-Reads l u [] y =
    let (l₁, taken, y₁) = advance-Yields y in
    let (p, l₂, seen, y₂, at_end, empty) = peek_at_end y₁ in
    let other : bytes_eq p.str (codes ".") ≡ false = rw empty (unfold bytes_eq in refl) in
    reads (record { type = TokenType.literal_integer; str = u.str }) l₂ u [] []
      (rw taken (rw seen (rw other))) y₂ (λ _. sym (append-nil u.str))
lex_number-Reads l u (p ∷ ts) y =
    let (l₁, taken, y₁) = advance-Yields y in
    let (l₂, seen, y₂) = peek-Yields y₁ in
    elim (Bool-cases (bytes_eq p.str (codes "."))) [
      | inl point ↦ lex_real-Reads l l₁ l₂ u p ts taken seen point y₂
      | inr other ↦
          reads (record { type = TokenType.literal_integer; str = u.str }) l₂ u [] (p ∷ ts)
            (rw taken (rw seen (rw other))) y₂ (λ _. sym (append-nil u.str))
    ]

no_operator : (t : TokenType) → find_type [] operators ≢ some t
unfolding find_type bytes_eq
no_operator t e = cc

punctuation-Reads :
    (l : SubtokenLexer) (u : Subtoken) (ts : List Subtoken)
    → Munches [] (u ∷ ts) (lex_punctuation l)
    → Reads (u ∷ ts) (lex_punctuation l)
punctuation-Reads l u ts m = record {
  result = m.result;
  left = m.left;
  used = m.used;
  rest = m.rest;
  returns = m.returns;
  takes = m.takes;
  yields = m.yields;
  text = λ _. m.text;
  stuck = λ none_used.
      let blank : m.result.str ≡ [] = m.text ∙ ap texts none_used in
      absurd (
        no_operator m.result.type
          (subst (λ s. find_type s operators ≡ some m.result.type) blank m.type_is));
}

lex_punctuation-Reads :
    (l : SubtokenLexer) (u : Subtoken) (ts : List Subtoken)
    → Shape punctuation u.str
    → Yields l (u ∷ ts)
    → Reads (u ∷ ts) (lex_subtoken u punctuation l)
unfolding lex_subtoken
lex_punctuation-Reads l u ts (c, e, found) y =
    let first : char_at u.str 0 ≡ c = unfold char_at in ap (λ s. char_at s 0) e in
    elim (Bool-cases (c == b'@')) [
      | inl annotation ↦
          let at_sign : u.str ≡ codes "@" = e ∙ ap (λ x. x ∷ []) ((==_iff c b'@').0 annotation) in
          rw first (rw annotation (lex_annotation-Reads l u ts at_sign y))
      | inr operator ↦
          let ne : c ≢ b'@' = λ x. cc (operator, (==_iff c b'@').1 x) in
          rw first
            (rw operator (punctuation-Reads l u ts (lex_punctuation-Munches l u ts c e found ne y)))
    ]

-- The subtokens that are left where they are.
pub left-Reads :
    (l : SubtokenLexer) (us : List Subtoken)
    → IsStuck us
    → Yields l us
    → Reads us (ok (no_token, l))
left-Reads l us stuck y = record {
  result = no_token;
  left = l;
  used = [];
  rest = us;
  returns = refl;
  takes = refl;
  yields = y;
  text = λ ne. absurd (ne refl);
  stuck = λ _. (refl, stuck);
}

pub lex_subtoken-Reads :
    (type : SubtokenType) (l : SubtokenLexer) (u : Subtoken) (ts : List Subtoken)
    → u.type ≡ type
    → is_comment type ≡ false
    → Shape type u.str
    → Yields l (u ∷ ts)
    → Reads (u ∷ ts) (lex_subtoken u type l)
unfolding lex_subtoken is_comment
lex_subtoken-Reads comment l u ts e nc shape y = cc
lex_subtoken-Reads word l u ts e nc shape y = lex_word-Reads l u ts y
lex_subtoken-Reads number l u ts e nc shape y = lex_number-Reads l u ts y
lex_subtoken-Reads string l u ts e nc shape y = one-Reads _ u.str l u ts refl y
lex_subtoken-Reads character l u ts e nc shape y = one-Reads _ u.str l u ts refl y
lex_subtoken-Reads punctuation l u ts e nc shape y = lex_punctuation-Reads l u ts shape y
lex_subtoken-Reads newline l u ts e nc shape y = one-Reads _ (codes "\n") l u ts (sym shape) y
lex_subtoken-Reads whitespace l u ts e nc shape y = one-Reads _ u.str l u ts refl y
lex_subtoken-Reads _ l u ts e nc shape y = left-Reads l (u ∷ ts) (rw e) y
