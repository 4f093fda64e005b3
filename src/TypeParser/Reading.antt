-- ===== src/TypeParser/Reading.antt =====
-- Reading the parts of a written type: its numbers, marks and specifiers, and its name.
use three.Base.{
  ℕ, ◌+◌, ◌-◌, ◌*◌, ◌<◌, ◌≡◌, refl, ◌∙◌, Bool, true, false, [], ◌∷◌, Bytes, decimal, IsDecimal,
  decimal-IsDecimal, value_from, value-decimal, ok, arith, Bool-cases, inl, inr,
}
use Prim.Native.Nat.{◌^◌}
use three.Token.Kind.{TokenType, type_eq}
use three.DataType.{
  DataType, of_kind, kind, set_width_specifier, set_alignment_specifier, set_vector_size_specifier,
}
use three.DataType.Kinds.{Kind}
use three.ParseHelper.{Stream, is_at}
use three.TypeParser.Parsing.{
  leading_number, integer_value, parse_integer_specifier_value, parse_specifier,
  parse_vector_specifier, is_character, parse_character_type_specifiers, parse_type_specifiers,
  apply_type_postfixes, parse_type_postfixes,
}
use three.TypeParser.Syntax.{
  Marks, Specifiers, unspecified, width, aligned, vector, spell_marks, spell_specifiers, integer,
  colon,
}
use three.TypeParser.Meaning.{marked, marked_pointer, specified, FitsType, Fits, Ends}

leading-value : (value : ℕ) (s : Bytes) → IsDecimal s → leading_number value s ≡ value_from value s
unfolding leading_number value_from
leading-value value [] h = refl
leading-value value (c ∷ cs) ((low, high), h) =
    ground (arith, leading-value (value * 10 + (c - b'0')) cs h)

-- The text of a number that fits in 32 bits is read as the number.
pub integer_value-decimal : (n : ℕ) → n < 2 ^ 32 → integer_value (decimal n) ≡ n
unfolding integer_value
integer_value-decimal n h =
    rw (leading-value 0 (decimal n) (decimal-IsDecimal n) ∙ value-decimal n) (ground arith)

abbrev flags : Bool → Bool → Marks
flags a b = record { is_mutable = a; is_nullable = b }

apply-flags :
    (a b : Bool) (t : DataType) (ts : Stream)
    → is_at TokenType.operator_not ts ≡ false
    → is_at TokenType.operator_question_mark ts ≡ false
    → apply_type_postfixes t false (spell_marks (flags a b) ts) ≡ (marked (flags a b) t, ts)
unfolding apply_type_postfixes type_eq
apply-flags true true t ts h k = refl
apply-flags true false t ts h k = rw k refl
apply-flags false true t ts h k = refl
apply-flags false false t ts h k = rw h (rw k refl)

-- The marks behind a type.
pub apply_type_postfixes-spell :
    (m : Marks) (t : DataType) (ts : Stream)
    → Ends ts
    → apply_type_postfixes t false (spell_marks m ts) ≡ (marked m t, ts)
apply_type_postfixes-spell m t ts ends = apply-flags m.is_mutable m.is_nullable t ts ends.1 ends.2

pub apply_type_postfixes-nothing :
    (t : DataType) (ts : Stream) → Ends ts → apply_type_postfixes t false ts ≡ (t, ts)
apply_type_postfixes-nothing t ts ends = apply-flags false false t ts ends.1 ends.2

pointer-flags :
    (a b : Bool) (ts : Stream)
    → is_at TokenType.operator_not ts ≡ false
    → is_at TokenType.operator_question_mark ts ≡ false
    → parse_type_postfixes (of_kind Kind.pointer) (spell_marks (flags a b) ts)
      ≡ (marked_pointer (flags a b), ts)
unfolding parse_type_postfixes type_eq
pointer-flags true true ts h k = refl
pointer-flags true false ts h k = rw k refl
pointer-flags false true ts h k = refl
pointer-flags false false ts h k = rw h (rw k refl)

-- The marks behind the star of a pointer.
pub parse_type_postfixes-spell :
    (m : Marks) (ts : Stream)
    → is_at TokenType.operator_not ts ≡ false
    → is_at TokenType.operator_question_mark ts ≡ false
    → parse_type_postfixes (of_kind Kind.pointer) (spell_marks m ts) ≡ (marked_pointer m, ts)
parse_type_postfixes-spell m = pointer-flags m.is_mutable m.is_nullable

pub parse_integer-spell :
    (n : ℕ) (ts : Stream) → Fits n → parse_integer_specifier_value (integer n ∷ ts) ≡ ok (n, ts)
unfolding parse_integer_specifier_value type_eq
parse_integer-spell n ts h = rw (integer_value-decimal n h) refl

module _ (set : ℕ → DataType → DataType) (t : DataType) where
  specifier_read :
      (n : ℕ) (ts : Stream)
      → Fits n
      → parse_specifier set t (colon ∷ integer n ∷ ts) ≡ ok (set n t, ts)
  unfolding parse_specifier type_eq
  specifier_read n ts h = rw (integer_value-decimal n h) refl

  specifier_none :
      (ts : Stream)
      → is_at TokenType.punctuation_colon ts ≡ false
      → parse_specifier set t ts ≡ ok (t, ts)
  unfolding parse_specifier
  specifier_none ts h = rw h refl

vector_read :
    (t : DataType) (n : ℕ) (ts : Stream)
    → Fits n
    → parse_vector_specifier t (colon ∷ integer n ∷ ts) ≡ ok (set_vector_size_specifier n t, ts)
unfolding parse_vector_specifier type_eq
vector_read t n ts h = rw (integer_value-decimal n h) refl

vector_none :
    (t : DataType) (ts : Stream)
    → is_at TokenType.punctuation_colon ts ≡ false
    → parse_vector_specifier t ts ≡ ok (t, ts)
unfolding parse_vector_specifier
vector_none t ts h = rw h refl

numbers :
    (t : DataType) (ts : Stream) (t1 : DataType) (ts1 : Stream) (t2 : DataType) (ts2 : Stream)
    (r : DataType × Stream)
    → is_character (kind t) ≡ false
    → parse_specifier set_width_specifier t ts ≡ ok (t1, ts1)
    → parse_specifier set_alignment_specifier t1 ts1 ≡ ok (t2, ts2)
    → parse_vector_specifier t2 ts2 ≡ ok r
    → parse_type_specifiers t ts ≡ ok r
unfolding parse_type_specifiers
numbers t ts t1 ts1 t2 ts2 r plain e f g = rw (e, f, g) (rw plain refl)

characters :
    (t : DataType) (ts : Stream)
    → is_character (kind t) ≡ true
    → is_at TokenType.punctuation_colon ts ≡ false
    → parse_type_specifiers t ts ≡ ok (t, ts)
unfolding parse_type_specifiers parse_character_type_specifiers
characters t ts h colon = rw h (rw colon refl)

-- The specifiers behind a name.
pub parse_type_specifiers-spell :
    (sp : Specifiers) (t : DataType) (ts : Stream)
    → FitsType sp t
    → is_at TokenType.punctuation_colon ts ≡ false
    → parse_type_specifiers t (spell_specifiers sp ts) ≡ ok (specified sp t, ts)
parse_type_specifiers-spell unspecified t ts fits h = elim (Bool-cases (is_character (kind t))) [
  | inl character ↦ characters t ts character h
  | inr plain ↦
      numbers t ts t ts t ts _ plain (specifier_none _ t ts h) (specifier_none _ t ts h)
        (vector_none t ts h)
]
parse_type_specifiers-spell (width n) t ts (plain, fits) h =
    let t1 = set_width_specifier n t in
    numbers t _ t1 ts t1 ts _ plain (specifier_read _ t n ts fits) (specifier_none _ t1 ts h)
      (vector_none t1 ts h)
parse_type_specifiers-spell (aligned n m) t ts (plain, fits, fits') h =
    let t1 = set_width_specifier n t in
    let t2 = set_alignment_specifier m t1 in
    numbers t _ t1 (colon ∷ integer m ∷ ts) t2 ts _ plain
      (specifier_read _ t n (colon ∷ integer m ∷ ts) fits) (specifier_read _ t1 m ts fits')
      (vector_none t2 ts h)
parse_type_specifiers-spell (vector n m k) t ts (plain, fits, fits', fits'') h =
    let t1 = set_width_specifier n t in
    let t2 = set_alignment_specifier m t1 in
    numbers t _ t1 (colon ∷ integer m ∷ colon ∷ integer k ∷ ts) t2 (colon ∷ integer k ∷ ts) _ plain
      (specifier_read _ t n (colon ∷ integer m ∷ colon ∷ integer k ∷ ts) fits)
      (specifier_read _ t1 m (colon ∷ integer k ∷ ts) fits') (vector_read t2 k ts fits'')
