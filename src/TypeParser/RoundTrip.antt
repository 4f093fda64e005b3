-- ===== src/TypeParser/RoundTrip.antt =====
-- Reading a written type yields the type it stands for.
use three.Base.{
  ℕ, zero, suc, ◌≤◌, ◌≡◌, refl, ◌∙◌, true, false, List, [], ◌∷◌, Bytes, length, ok, arith,
}
use three.Token.Kind.{TokenType, type_eq}
use three.ParseContext.{ParseContext}
use three.ParseHelper.{Stream, front_type, is_at}
use three.TypeParser.{is_at_type, peek_type}
use three.TypeParser.Composite.{
  parse_pointer_type, parse_array_type, parse_function_or_tuple_type, parse_closure_type,
  parse_named_type, parse_type,
}
use three.TypeParser.Syntax.{
  TypeSyntax, spelled, Core, named, vararg, tuple, closure, function, returning_closure, Prefix,
  star, sized, open_paren, open_brace, open_bracket, close_paren, close_brace, star_token, arrow,
  spell, spell_core, spell_items, spell_name, spell_specifiers, spell_marks, size, size_core,
}
use three.TypeParser.Meaning.{
  denote, denote_core, denote_items, IsType, IsCore, Ends, marked_pointer,
}
use three.TypeParser.Prefixes.{starts_core}
use three.TypeParser.Lists.{core-starts}
use three.TypeParser.Looking.{core_positive, peek_type-spell}
use three.TypeParser.Sizes.{is_at_type-spell, size_le_length}
use three.TypeParser.Reading.{parse_type_postfixes-spell}
use three.TypeParser.Parts.{
  parse_named_type-spell, behind_star, array_step, list-spell, tuple_step, function_step,
  closure_step, returning_step,
}

not_mark :
    (k : TokenType)
    → starts_core k ≡ true
    → (type_eq k TokenType.operator_not ≡ false)
      × (type_eq k TokenType.operator_question_mark ≡ false)
unfolding type_eq
not_mark k h = ground arith

no_mark :
    (ps : List Prefix) (k : Core) (ts : Stream)
    → (is_at TokenType.operator_not (spell (spelled ps k) ts) ≡ false)
      × (is_at TokenType.operator_question_mark (spell (spelled ps k) ts) ≡ false)
unfolding type_eq
no_mark [] k ts = not_mark (front_type (spell_core k ts)) (core-starts k ts)
no_mark (star m ∷ ps) k ts = (refl, refl)
no_mark (sized n ∷ ps) k ts = (refl, refl)

module _ (f : ℕ) (c : ParseContext) where
  at_name :
      (first : Bytes) (more : List Bytes) (ts : Stream)
      → parse_type (suc f) c false (spell_name first more ts)
        ≡ parse_named_type (suc f) c false (spell_name first more ts)
  unfolding parse_type
  at_name first [] ts = refl
  at_name first (d ∷ ds) ts = refl

  at_vararg :
      (ts : Stream)
      → parse_type (suc f) c false (spell_core vararg ts) ≡ ok (denote_core c vararg, ts)
  unfolding parse_type
  at_vararg ts = refl

  at_star :
      (ts : Stream)
      → parse_type (suc f) c false (star_token ∷ ts)
        ≡ parse_pointer_type (parse_type f c) false (star_token ∷ ts)
  unfolding parse_type
  at_star ts = refl

  at_bracket :
      (ts : Stream)
      → parse_type (suc f) c false (open_bracket ∷ ts)
        ≡ parse_array_type (parse_type f c) false (open_bracket ∷ ts)
  unfolding parse_type
  at_bracket ts = refl

  at_paren :
      (ts : Stream)
      → parse_type (suc f) c false (open_paren ∷ ts)
        ≡ parse_function_or_tuple_type (is_at_type c) (parse_type f c) (open_paren ∷ ts)
  unfolding parse_type
  at_paren ts = refl

  at_brace :
      (ts : Stream)
      → parse_type (suc f) c false (open_brace ∷ ts)
        ≡ parse_closure_type (is_at_type c) (parse_type f c) (open_brace ∷ ts)
  unfolding parse_type
  at_brace ts = refl

  module _
      (reads : (s : TypeSyntax) (ts : Stream)
        → size s ≤ f
        → IsType c s
        → Ends ts
        → parse_type f c false (spell s ts) ≡ ok (denote c s, ts)) where
    core-spell :
        (k : Core) (ts : Stream)
        → size_core k ≤ suc f
        → IsCore c k
        → Ends ts
        → parse_type (suc f) c false (spell_core k ts) ≡ ok (denote_core c k, ts)
    core-spell (named first more sp m) ts small (full, there, fits) ends =
        at_name first more (spell_specifiers sp (spell_marks m ts))
        ∙ parse_named_type-spell (suc f) c first more sp m ts (omega arith) full fits ends
    core-spell vararg ts small is ends = at_vararg ts
    core-spell (tuple items) ts small (few, are) ends =
        at_paren (spell_items items (close_paren ∷ ts))
        ∙ tuple_step (is_at_type c) (parse_type f c) _ (denote_items c items) ts
            (list-spell c (is_at_type c) (parse_type f c) f (is_at_type-spell c) reads true items ts
              few (omega arith) are)
            ends.3
    core-spell (closure items) ts small (few, are) ends =
        at_brace (spell_items items (close_brace ∷ ts))
        ∙ closure_step (is_at_type c) (parse_type f c) _ (denote_items c items) ts
            (list-spell c (is_at_type c) (parse_type f c) f (is_at_type-spell c) reads false items
              ts few (omega arith) are)
            ends.3
    core-spell (function items result) ts small (few, are, is) ends =
        at_paren (spell_items items (close_paren ∷ arrow ∷ spell result ts))
        ∙ function_step (is_at_type c) (parse_type f c) _ (denote_items c items) (spell result ts)
            (denote c result) ts
            (list-spell c (is_at_type c) (parse_type f c) f (is_at_type-spell c) reads true items
              (arrow ∷ spell result ts) few (omega arith) are)
            (reads result ts (omega arith) is ends)
    core-spell (returning_closure items result) ts small (few, are, is) ends =
        at_brace (spell_items items (close_brace ∷ arrow ∷ spell result ts))
        ∙ returning_step (is_at_type c) (parse_type f c) _ (denote_items c items) (spell result ts)
            (denote c result) ts
            (list-spell c (is_at_type c) (parse_type f c) f (is_at_type-spell c) reads false items
              (arrow ∷ spell result ts) few (omega arith) are)
            (reads result ts (omega arith) is ends)

pub reads-spell :
    (f : ℕ) (c : ParseContext) (s : TypeSyntax) (ts : Stream)
    → size s ≤ f
    → IsType c s
    → Ends ts
    → parse_type f c false (spell s ts) ≡ ok (denote c s, ts)
reads-spell zero c (spelled ps k) ts small is ends =
    let positive = core_positive k in absurd (omega arith)
reads-spell (suc f) c (spelled [] k) ts small (fits, is) ends =
    core-spell f c (reads-spell f c) k ts (omega arith) is ends
reads-spell (suc f) c (spelled (star m ∷ ps) k) ts small (fits, is) ends =
    let inner = spell (spelled ps k) ts in
    at_star f c (spell_marks m inner)
    ∙ behind_star (parse_type f c) (denote c (spelled ps k)) inner ts (spell_marks m inner)
        (marked_pointer m)
        (parse_type_postfixes-spell m inner (no_mark ps k ts).0 (no_mark ps k ts).1)
        (reads-spell f c (spelled ps k) ts (omega arith) (fits.1, is) ends) ends
reads-spell (suc f) c (spelled (sized n ∷ ps) k) ts small (fits, is) ends =
    let inner = spell (spelled ps k) ts in
    at_bracket f c _
    ∙ array_step (parse_type f c) (denote c (spelled ps k)) inner ts n fits.0
        (reads-spell f c (spelled ps k) ts (omega arith) (fits.1, is) ends) ends

-- Reading a written type, in front of tokens that do not go on with it, yields the type that it stands
-- for and leaves those tokens; looking ahead for a type there ends at the same tokens. A list in
-- parentheses with no arrow behind it stands for a tuple, behind a star too. Fuel for each token is
-- enough.
pub parse_type-spell :
    (c : ParseContext) (s : TypeSyntax) (ts : Stream)
    → IsType c s
    → Ends ts
    → (parse_type (length (spell s ts)) c false (spell s ts) ≡ ok (denote c s, ts))
      × (peek_type (length (spell s ts)) c (spell s ts) ≡ ok (true, ts))
      × (is_at_type c (spell s ts) ≡ ok true)
parse_type-spell c s ts is ends = (
  reads-spell (length (spell s ts)) c s ts (size_le_length s ts) is ends,
  peek_type-spell (length (spell s ts)) c s ts (size_le_length s ts) is ends,
  is_at_type-spell c s ts is ends,
)
