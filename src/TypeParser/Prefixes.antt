-- ===== src/TypeParser/Prefixes.antt =====
-- Looking ahead for a type: the marks, the prefixes and the specifiers of a written type.
use three.Base.{
  ℕ, zero, suc, ◌<◌, ◌≡◌, ◌⊎◌, inl, inr, refl, Bool, true, false, List, [], ◌∷◌, length, ok, arith,
}
use three.Token.Kind.{TokenType, type_eq}
use three.ParseHelper.{Stream, front_type, is_at}
use three.TypeParser.{
  continues, is_postfix, peek_type_postfixes, Step, prefix_round, peek_type_prefixes,
  is_prefix_annotation, peek_array_prefix, peek_specifiers,
}
use three.TypeParser.Syntax.{
  Marks, Prefix, star, sized, Specifiers, unspecified, width, aligned, vector, spell_marks,
  spell_prefixes, spell_specifiers,
}
use three.TypeParser.Meaning.{Ends}

-- The tokens that a type begins with behind its prefixes.
abbrev pub starts_core : TokenType → Bool
starts_core TokenType.identifier = true
starts_core TokenType.keyword_vararg = true
starts_core TokenType.punctuation_open_paren = true
starts_core TokenType.punctuation_open_brace = true
starts_core _ = false

pub core-cases :
    (k : TokenType)
    → starts_core k ≡ true
    → (k ≡ TokenType.identifier)
      ⊎ (k ≡ TokenType.keyword_vararg)
      ⊎ (k ≡ TokenType.punctuation_open_paren)
      ⊎ (k ≡ TokenType.punctuation_open_brace)
core-cases k h = ground arith

postfix-cases :
    (k : TokenType)
    → (is_postfix k ≡ false) ⊎ (k ≡ TokenType.operator_not) ⊎ (k ≡ TokenType.operator_question_mark)
unfolding is_postfix
postfix-cases k = ground arith

pub Ends-postfix : (ts : Stream) → Ends ts → is_postfix (front_type ts) ≡ false
unfolding type_eq
Ends-postfix ts (colon, bang, question, arrow) = elim (postfix-cases (front_type ts)) [
  | inl other ↦ other
  | inr (inl is_not) ↦ let impossible = rw is_not at bang in cc
  | inr (inr is_question) ↦ let impossible = rw is_question at question in cc
]

pub no_postfix : (ts : Stream) → is_postfix (front_type ts) ≡ false → peek_type_postfixes ts ≡ ts
unfolding peek_type_postfixes
no_postfix [] h = refl
no_postfix (t ∷ ts) h = rw (h, peek_type_postfixes) refl

abbrev flags : Bool → Bool → Marks
flags a b = record { is_mutable = a; is_nullable = b }

postfixes-flags :
    (a b : Bool) (ts : Stream)
    → is_postfix (front_type ts) ≡ false
    → peek_type_postfixes (spell_marks (flags a b) ts) ≡ ts
unfolding peek_type_postfixes is_postfix
postfixes-flags true true ts h = no_postfix ts h
postfixes-flags true false ts h = no_postfix ts h
postfixes-flags false true ts h = no_postfix ts h
postfixes-flags false false ts h = no_postfix ts h

flags-colon :
    (a b : Bool) (ts : Stream)
    → is_at TokenType.punctuation_colon ts ≡ false
    → is_at TokenType.punctuation_colon (spell_marks (flags a b) ts) ≡ false
unfolding type_eq
flags-colon true b ts h = refl
flags-colon false true ts h = refl
flags-colon false false ts h = h

pub postfixes-marks :
    (m : Marks) (ts : Stream)
    → is_postfix (front_type ts) ≡ false
    → peek_type_postfixes (spell_marks m ts) ≡ ts
postfixes-marks m = postfixes-flags m.is_mutable m.is_nullable

pub marks-colon :
    (m : Marks) (ts : Stream)
    → is_at TokenType.punctuation_colon ts ≡ false
    → is_at TokenType.punctuation_colon (spell_marks m ts) ≡ false
marks-colon m = flags-colon m.is_mutable m.is_nullable

prefixes-postfix :
    (ps : List Prefix) (ts : Stream)
    → starts_core (front_type ts) ≡ true
    → is_postfix (front_type (spell_prefixes ps ts)) ≡ false
unfolding is_postfix
prefixes-postfix [] ts h = elim (core-cases (front_type ts) h) [
  | inl e ↦ rw e refl
  | inr (inl e) ↦ rw e refl
  | inr (inr (inl e)) ↦ rw e refl
  | inr (inr (inr e)) ↦ rw e refl
]
prefixes-postfix (star m ∷ ps) ts h = refl
prefixes-postfix (sized n ∷ ps) ts h = refl

core_stops :
    (limit : ℕ) (ts : Stream)
    → starts_core (front_type ts) ≡ true
    → prefix_round limit ts ≡ ok (Step.stops ts)
unfolding prefix_round is_prefix_annotation type_eq
core_stops limit ts h = elim (core-cases (front_type ts) h) [
  | inl e ↦ rw (e, prefix_round) refl
  | inr (inl e) ↦ rw (e, prefix_round) refl
  | inr (inr (inl e)) ↦ rw (e, prefix_round) refl
  | inr (inr (inr e)) ↦ rw (e, prefix_round) refl
]

-- The loop over the prefixes ends behind them.
pub peek_type_prefixes-spell :
    (limit n : ℕ) (ps : List Prefix) (ts : Stream)
    → length ps < n
    → starts_core (front_type ts) ≡ true
    → peek_type_prefixes limit n (spell_prefixes ps ts) ≡ ok ts
unfolding peek_type_prefixes peek_array_prefix type_eq
peek_type_prefixes-spell limit zero ps ts h core = elim h [ ]
peek_type_prefixes-spell limit (suc n) [] ts h core = rw (core_stops limit ts core) refl
peek_type_prefixes-spell limit (suc n) (star m ∷ ps) ts h core =
    rw (postfixes-marks m (spell_prefixes ps ts) (prefixes-postfix ps ts core))
      (peek_type_prefixes-spell limit n ps ts (omega arith) core)
peek_type_prefixes-spell limit (suc n) (sized k ∷ ps) ts h core =
    peek_type_prefixes-spell limit n ps ts (omega arith) core

pub specifiers_end :
    (sp : Specifiers) (ts : Stream)
    → is_at TokenType.punctuation_colon ts ≡ false
    → continues (spell_specifiers sp ts) ≡ false
unfolding type_eq
specifiers_end unspecified ts h = rw h refl
specifiers_end (width n) ts h = refl
specifiers_end (aligned n m) ts h = refl
specifiers_end (vector n m k) ts h = refl

-- Looking ahead over specifiers ends behind them.
pub peek_specifiers-spell :
    (sp : Specifiers) (ts : Stream)
    → is_at TokenType.punctuation_colon ts ≡ false
    → peek_specifiers (spell_specifiers sp ts) ≡ (true, ts)
unfolding peek_specifiers
peek_specifiers-spell unspecified ts h = rw h refl
peek_specifiers-spell (width n) ts h = rw h refl
peek_specifiers-spell (aligned n m) ts h = rw h refl
peek_specifiers-spell (vector n m k) ts h = refl
