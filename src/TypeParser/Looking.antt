-- ===== src/TypeParser/Looking.antt =====
-- Looking ahead for a type that stands in front of the tokens to come.
use three.Base.{
  ℕ, zero, suc, ◌≤◌, ◌<◌, ◌≡◌, ◌≢◌, refl, ◌∙◌, Bool, true, false, not, List, [], ◌∷◌, some,
  if◌then◌else◌, Bytes, length, All, Outcome, ok, arith,
}
use three.Token.Kind.{TokenType, type_eq}
use three.Token.Classes.{closing_counterpart}
use three.Token.{Token}
use three.ParseContext.{ParseContext, defines_type_with_name}
use three.ParseHelper.{Stream, front_type, rest_of, is_at}
use three.TypeParser.{
  peek_qualified_name, peek_type_postfixes, peek_simple_type, peek_function_or_tuple_type,
  peek_core, peek_type,
}
use three.TypeParser.Syntax.{
  TypeSyntax, spelled, Core, named, vararg, tuple, closure, function, returning_closure, Items,
  Specifiers, open_paren, open_brace, arrow, spell, spell_core, spell_items, spell_name,
  spell_specifiers, spell_marks, size, size_core, size_items,
}
use three.TypeParser.Meaning.{qualified, count_items, AreItems, IsType, IsCore, Ends}
use three.TypeParser.Names.{names_agree, parse_qualified_name-spell}
use three.TypeParser.Prefixes.{
  Ends-postfix, no_postfix, postfixes-marks, marks-colon, specifiers_end, peek_specifiers-spell,
  peek_type_prefixes-spell,
}
use three.TypeParser.Lists.{closing, core-starts, peek_type_list-spell}

-- The token in front of a list.
abbrev pub opening : Bool → Token
opening true = open_paren
opening false = open_brace

pub name_leads :
    (first : Bytes) (more : List Bytes) (ts : Stream)
    → front_type (spell_name first more ts) ≡ TokenType.identifier
name_leads first [] ts = refl
name_leads first (d ∷ ds) ts = refl

peek_name :
    (f : ℕ) (first : Bytes) (more : List Bytes) (sp : Specifiers) (ts : Stream)
    → length more < f
    → All (λ s. s ≢ []) (first ∷ more)
    → is_at TokenType.punctuation_colon ts ≡ false
    → peek_qualified_name f (spell_name first more (spell_specifiers sp ts))
      ≡ ok (some (qualified first more), spell_specifiers sp ts)
unfolding type_eq
peek_name f first more sp ts h full colon =
    names_agree f (spell_name first more (spell_specifiers sp ts))
      (rw (name_leads first more (spell_specifiers sp ts)) refl)
    ∙ rw
        (parse_qualified_name-spell f first more (spell_specifiers sp ts) h full
          (specifiers_end sp ts colon))
        refl

peek_simple :
    (f : ℕ) (c : ParseContext) (first : Bytes) (more : List Bytes) (sp : Specifiers) (ts : Stream)
    → length more < f
    → All (λ s. s ≢ []) (first ∷ more)
    → defines_type_with_name c (qualified first more) ≡ true
    → is_at TokenType.punctuation_colon ts ≡ false
    → peek_simple_type f c (spell_name first more (spell_specifiers sp ts)) ≡ ok (true, ts)
unfolding peek_simple_type type_eq
peek_simple f c first more sp ts h full there colon =
    rw (name_leads first more (spell_specifiers sp ts)) (
      rw (peek_name f first more sp ts h full colon)
        (rw there (rw (peek_specifiers-spell sp ts colon) refl)))

module _ (c : ParseContext) (peek : Stream → Outcome (Bool × Stream)) (limit : ℕ)
    (peeks : (s : TypeSyntax) (ts : Stream)
      → size s ≤ limit
      → IsType c s
      → Ends ts
      → peek (spell s ts) ≡ ok (true, ts)) where
  peek_around :
      (allow : Bool) (items : Items) (ts : Stream)
      → size_items items ≤ limit
      → count_items items < 100
      → AreItems c allow items
      → peek_function_or_tuple_type peek (opening allow ∷ spell_items items (closing allow ∷ ts))
        ≡ (if not (is_at TokenType.operator_arrow ts) then ok (true, ts) else peek (rest_of ts))
  unfolding peek_function_or_tuple_type closing_counterpart type_eq
  peek_around true items ts small few are =
      rw (peek_type_list-spell c peek limit peeks true 100 items ts few small are) refl
  peek_around false items ts small few are =
      rw (peek_type_list-spell c peek limit peeks false 100 items ts few small are) refl

  core_simple :
      (g : ℕ) (ts ts' : Stream)
      → front_type ts ≡ TokenType.identifier
      → peek_simple_type g c ts ≡ ok (true, ts')
      → peek_core g peek c ts ≡ ok (true, peek_type_postfixes ts')
  unfolding peek_core type_eq
  core_simple g ts ts' e found = rw found (rw e refl)

  peek_core-spell :
      (g : ℕ) (k : Core) (ts : Stream)
      → limit < g
      → size_core k ≤ suc limit
      → IsCore c k
      → Ends ts
      → peek_core g peek c (spell_core k ts) ≡ ok (true, ts)
  unfolding peek_core type_eq
  peek_core-spell g (named first more sp m) ts h small (full, there, fits) ends =
      core_simple g (spell_core (named first more sp m) ts) (spell_marks m ts)
        (name_leads first more (spell_specifiers sp (spell_marks m ts)))
        (peek_simple g c first more sp (spell_marks m ts) (omega arith) full there
          (marks-colon m ts ends.0))
      ∙ rw (postfixes-marks m ts (Ends-postfix ts ends)) refl
  peek_core-spell g vararg ts h small is ends = rw (no_postfix ts (Ends-postfix ts ends)) refl
  peek_core-spell g (tuple items) ts h small (few, are) ends =
      peek_around true items ts (omega arith) few are ∙ rw (ends.3) refl
  peek_core-spell g (closure items) ts h small (few, are) ends =
      peek_around false items ts (omega arith) few are ∙ rw (ends.3) refl
  peek_core-spell g (function items result) ts h small (few, are, is) ends =
      peek_around true items (arrow ∷ spell result ts) (omega arith) few are
      ∙ peeks result ts (omega arith) is ends
  peek_core-spell g (returning_closure items result) ts h small (few, are, is) ends =
      peek_around false items (arrow ∷ spell result ts) (omega arith) few are
      ∙ peeks result ts (omega arith) is ends

pub core_positive : (k : Core) → 1 ≤ size_core k
core_positive (named first more sp m) = omega arith
core_positive vararg = omega arith
core_positive (tuple items) = omega arith
core_positive (closure items) = omega arith
core_positive (function items result) = omega arith
core_positive (returning_closure items result) = omega arith

-- With the fuel that a written type needs, looking ahead for it succeeds, at the depth behind it.
pub peek_type-spell :
    (f : ℕ) (c : ParseContext) (s : TypeSyntax) (ts : Stream)
    → size s ≤ f
    → IsType c s
    → Ends ts
    → peek_type f c (spell s ts) ≡ ok (true, ts)
unfolding peek_type
peek_type-spell zero c (spelled ps k) ts small is ends =
    let positive = core_positive k in absurd (omega arith)
peek_type-spell (suc f) c (spelled ps k) ts small (fits, is) ends =
    let positive = core_positive k in
    rw
      (peek_type_prefixes-spell (suc f) (suc f) ps (spell_core k ts) (omega arith)
        (core-starts k ts))
      (peek_core-spell c (peek_type f c) f (peek_type-spell f c) (suc f) k ts (omega arith)
        (omega arith) is ends)
