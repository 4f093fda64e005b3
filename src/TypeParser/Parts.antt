-- ===== src/TypeParser/Parts.antt =====
-- Reading each form of a written type, where the types inside it are read as they should be.
use three.Base.{
  ℕ, zero, suc, ◌≤◌, ◌<◌, ◌≡◌, ◌≢◌, refl, ap, Bool, true, false, List, [], ◌∷◌, Option, none, some,
  Bytes, length, All, Outcome, ok, arith,
}
use three.Token.Kind.{TokenType, type_eq}
use three.QualifiedName.{QualifiedName, valid, of_identifier, to_s}
use three.DataType.{
  DataType, DataTypes, of_kind, add_subtype, set_array_count, set_kind, set_return_type,
}
use three.DataType.Kinds.{Kind}
use three.ParseContext.{ParseContext, data_type_for_name}
use three.ParseHelper.{Stream, is_at}
use three.TypeParser.Parsing.{
  parse_qualified_name, parse_type_specifiers, apply_type_postfixes, parse_type_postfixes,
}
use three.TypeParser.Composite.{
  TypeReader, parse_pointer_type, parse_array_type, type_list_loop, parse_type_list,
  parse_function_or_tuple_type, parse_closure_type, parse_named_type, with_subtypes,
  with_parameters,
}
use three.TypeParser.Syntax.{
  TypeSyntax, identifier, comma, named, Items, no_items, item, Marks, Specifiers, open_paren,
  open_brace, close_paren, close_brace, open_bracket, close_bracket, star_token, arrow, integer,
  spell, spell_core, spell_items, spell_specifiers, spell_marks, spell_label, separate, size,
  size_items,
}
use three.TypeParser.Meaning.{
  closure_of, qualified, specified, named_type, denote, denote_core, denote_items, Fits, FitsType,
  count_items, AreItems, IsType, Ends,
}
use three.TypeParser.Names.{not_blank, name_full, parse_qualified_name-spell}
use three.TypeParser.Prefixes.{marks-colon, specifiers_end}
use three.TypeParser.Lists.{closing, not_closing, Ends-item}
use three.TypeParser.Reading.{
  integer_value-decimal, apply_type_postfixes-spell, apply_type_postfixes-nothing,
  parse_type_specifiers-spell,
}

named_step :
    (f : ℕ) (c : ParseContext) (ts : Stream) (name : QualifiedName) (ts1 : Stream) (t : DataType)
    (ts2 : Stream) (r : DataType × Stream)
    → parse_qualified_name f true ts ≡ ok (name, ts1)
    → valid name ≡ true
    → parse_type_specifiers (data_type_for_name c (of_identifier (to_s name))) ts1 ≡ ok (t, ts2)
    → apply_type_postfixes t false ts2 ≡ r
    → parse_named_type f c false ts ≡ ok r
unfolding parse_named_type
named_step f c ts name ts1 t ts2 r e v g h = rw e (rw v (rw g (ap ok h)))

valid_of_name : (q : QualifiedName) → q.name ≢ [] → valid q ≡ true
unfolding valid
valid_of_name q h = ground (arith, not_blank q.name h)

-- Reading a name with its specifiers and marks.
pub parse_named_type-spell :
    (f : ℕ) (c : ParseContext) (first : Bytes) (more : List Bytes) (sp : Specifiers) (m : Marks)
    (ts : Stream)
    → length more < f
    → All (λ s. s ≢ []) (first ∷ more)
    → FitsType sp (named_type c first more)
    → Ends ts
    → parse_named_type f c false (spell_core (named first more sp m) ts)
      ≡ ok (denote_core c (named first more sp m), ts)
parse_named_type-spell f c first more sp m ts h full fits ends =
    let colon = marks-colon m ts ends.0 in
    named_step f c _ (qualified first more) (spell_specifiers sp (spell_marks m ts))
      (specified sp (named_type c first more)) (spell_marks m ts) _
      (parse_qualified_name-spell f first more (spell_specifiers sp (spell_marks m ts)) h full
        (specifiers_end sp (spell_marks m ts) colon))
      (valid_of_name (qualified first more) (name_full first more full))
      (parse_type_specifiers-spell sp (named_type c first more) (spell_marks m ts) fits colon)
      (apply_type_postfixes-spell m _ ts ends)

module _ (parse : TypeReader) (t : DataType) (inner ts : Stream) where
  pub behind_star :
      (behind : Stream) (p : DataType)
      → parse_type_postfixes (of_kind Kind.pointer) behind ≡ (p, inner)
      → parse false inner ≡ ok (t, ts)
      → Ends ts
      → parse_pointer_type parse false (star_token ∷ behind) ≡ ok (add_subtype t p, ts)
  unfolding parse_pointer_type
  behind_star behind p marks e ends = rw (ap (λ (r : DataType × Stream). r.1) marks) (
      rw (ap (λ (r : DataType × Stream). r.0) marks)
        (rw e (ap ok (apply_type_postfixes-nothing (add_subtype t p) ts ends))))

  pub array_step :
      (n : ℕ)
      → Fits n
      → parse false inner ≡ ok (t, ts)
      → Ends ts
      → parse_array_type parse false (open_bracket ∷ integer n ∷ close_bracket ∷ inner)
        ≡ ok (add_subtype t (set_array_count n (of_kind Kind.array)), ts)
  unfolding parse_array_type type_eq
  array_step n h e ends =
      rw (integer_value-decimal n h) (rw e (ap ok (apply_type_postfixes-nothing _ ts ends)))

module _ (c : ParseContext) (at_type : Stream → Outcome Bool) (parse : TypeReader) (limit : ℕ)
    (there : (s : TypeSyntax) (ts : Stream) → IsType c s → Ends ts → at_type (spell s ts) ≡ ok true)
    (reads : (s : TypeSyntax) (ts : Stream)
      → size s ≤ limit
      → IsType c s
      → Ends ts
      → parse false (spell s ts) ≡ ok (denote c s, ts)) where
  loop-spell :
      (allow : Bool) (n : ℕ) (s : TypeSyntax) (l : Option Bytes) (more : Items) (ts : Stream)
      → count_items (item s l more) ≤ n
      → size_items (item s l more) ≤ limit
      → AreItems c allow (item s l more)
      → type_list_loop at_type parse
          (closing allow).type
          true
          n
          (spell_items (item s l more) (closing allow ∷ ts))
        ≡ ok (true, denote_items c (item s l more), closing allow ∷ ts)
  unfolding type_list_loop type_eq
  loop-spell allow zero s l more ts h small are = elim h [ ]
  loop-spell allow (suc n) s none (item s' l' more) ts h small (is, may, are) =
      rw
        (there s (comma ∷ spell_items (item s' l' more) (closing allow ∷ ts)) is
          (Ends-item allow none (item s' l' more) ts))
        (rw
          (reads s (comma ∷ spell_items (item s' l' more) (closing allow ∷ ts)) (omega arith) is
            (Ends-item allow none (item s' l' more) ts))
          (rw (loop-spell allow n s' l' more ts (omega arith) (omega arith) are) refl))
  loop-spell allow (suc n) s (some l) (item s' l' more) ts h small (is, may, are) =
      rw
        (there s (identifier l ∷ comma ∷ spell_items (item s' l' more) (closing allow ∷ ts)) is
          (Ends-item allow (some l) (item s' l' more) ts))
        (rw
          (reads s (identifier l ∷ comma ∷ spell_items (item s' l' more) (closing allow ∷ ts))
            (omega arith) is (Ends-item allow (some l) (item s' l' more) ts))
          (rw (loop-spell allow n s' l' more ts (omega arith) (omega arith) are) refl))
  loop-spell true (suc n) s none no_items ts h small (is, may, are) =
      rw (there s (closing true ∷ ts) is (Ends-item true none no_items ts))
        (rw (reads s (closing true ∷ ts) (omega arith) is (Ends-item true none no_items ts)) refl)
  loop-spell true (suc n) s (some l) no_items ts h small (is, may, are) =
      rw (there s (identifier l ∷ closing true ∷ ts) is (Ends-item true (some l) no_items ts)) (
        rw
          (reads s (identifier l ∷ closing true ∷ ts) (omega arith) is
            (Ends-item true (some l) no_items ts))
          refl)
  loop-spell false (suc n) s none no_items ts h small (is, may, are) =
      rw (there s (closing false ∷ ts) is (Ends-item false none no_items ts))
        (rw (reads s (closing false ∷ ts) (omega arith) is (Ends-item false none no_items ts)) refl)
  loop-spell false (suc n) s (some l) no_items ts h small (is, may, are) = cc

  pub list-spell :
      (allow : Bool) (items : Items) (ts : Stream)
      → count_items items < 100
      → size_items items ≤ limit
      → AreItems c allow items
      → parse_type_list at_type parse
          (closing allow).type
          true
          (spell_items items (closing allow ∷ ts))
        ≡ ok (true, denote_items c items, closing allow ∷ ts)
  unfolding parse_type_list type_eq
  list-spell true no_items ts h small are = refl
  list-spell false no_items ts h small are = refl
  list-spell allow (item s l more) ts h small are =
      rw
        (not_closing allow s
          (spell_label l (separate more (spell_items more (closing allow ∷ ts)))))
        (loop-spell allow 100 s l more ts (omega arith) small are)

module _ (at_type : Stream → Outcome Bool) (parse : TypeReader) (behind : Stream)
    (types : DataTypes) (ts : Stream) where
  pub tuple_step :
      parse_type_list at_type parse TokenType.punctuation_close_paren true behind
        ≡ ok (true, types, close_paren ∷ ts)
      → is_at TokenType.operator_arrow ts ≡ false
      → parse_function_or_tuple_type at_type parse (open_paren ∷ behind)
        ≡ ok (set_kind Kind.tuple (with_subtypes types (of_kind Kind.undefined)), ts)
  unfolding parse_function_or_tuple_type type_eq
  tuple_step e h = rw e (rw h refl)

  pub function_step :
      (result : DataType) (ts' : Stream)
      → parse_type_list at_type parse TokenType.punctuation_close_paren true behind
        ≡ ok (true, types, close_paren ∷ arrow ∷ ts)
      → parse false ts ≡ ok (result, ts')
      → parse_function_or_tuple_type at_type parse (open_paren ∷ behind)
        ≡ ok (
          set_return_type result
              (set_kind Kind.function (with_parameters types (of_kind Kind.undefined))),
          ts',
        )
  unfolding parse_function_or_tuple_type type_eq
  function_step result ts' e h = rw e (rw h refl)

  pub closure_step :
      parse_type_list at_type parse TokenType.punctuation_close_brace true behind
        ≡ ok (true, types, close_brace ∷ ts)
      → is_at TokenType.operator_arrow ts ≡ false
      → parse_closure_type at_type parse (open_brace ∷ behind)
        ≡ ok (closure_of types (of_kind Kind.void), ts)
  unfolding parse_closure_type type_eq
  closure_step e h = rw e (rw h refl)

  pub returning_step :
      (result : DataType) (ts' : Stream)
      → parse_type_list at_type parse TokenType.punctuation_close_brace true behind
        ≡ ok (true, types, close_brace ∷ arrow ∷ ts)
      → parse false ts ≡ ok (result, ts')
      → parse_closure_type at_type parse (open_brace ∷ behind) ≡ ok (closure_of types result, ts')
  unfolding parse_closure_type type_eq
  returning_step result ts' e h = rw e (rw h refl)
