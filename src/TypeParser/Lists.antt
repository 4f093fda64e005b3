-- ===== src/TypeParser/Lists.antt =====
-- The tokens around the types of a list, and looking ahead over a list of types.
use three.Base.{
  ℕ, zero, suc, ◌≤◌, ◌<◌, ◌≡◌, refl, ◌∙◌, Bool, true, false, ◌&&◌, [], ◌∷◌, Option, none, some,
  if◌then◌else◌, Bytes, Outcome, ok, arith,
}
use three.Token.Kind.{TokenType, type_eq}
use three.Token.{Token}
use three.ParseContext.{ParseContext}
use three.ParseHelper.{Stream, front_type, rest_of, is_at}
use three.TypeParser.{peek_type_list}
use three.TypeParser.Syntax.{
  TypeSyntax, spelled, Core, named, vararg, tuple, closure, function, returning_closure, Items,
  no_items, item, star, sized, close_paren, close_brace, spell, spell_core, spell_items,
  spell_label, separate, size, size_items,
}
use three.TypeParser.Meaning.{count_items, MayHaveLabel, AreItems, IsType, Ends}
use three.TypeParser.Prefixes.{starts_core}

-- The token behind a list: a parenthesis where labels are allowed, and else a brace.
abbrev pub closing : Bool → Token
closing true = close_paren
closing false = close_brace

pub core-starts : (k : Core) (ts : Stream) → starts_core (front_type (spell_core k ts)) ≡ true
core-starts (named first [] sp m) ts = refl
core-starts (named first (d ∷ ds) sp m) ts = refl
core-starts vararg ts = refl
core-starts (tuple items) ts = refl
core-starts (closure items) ts = refl
core-starts (function items result) ts = refl
core-starts (returning_closure items result) ts = refl

core_not_closing :
    (allow : Bool) (k : TokenType) → starts_core k ≡ true → type_eq k (closing allow).type ≡ false
unfolding type_eq
core_not_closing true k h = ground arith
core_not_closing false k h = ground arith

pub not_closing :
    (allow : Bool) (s : TypeSyntax) (ts : Stream) → is_at (closing allow).type (spell s ts) ≡ false
unfolding type_eq
not_closing allow (spelled [] k) ts =
    core_not_closing allow (front_type (spell_core k ts)) (core-starts k ts)
not_closing true (spelled (star m ∷ ps) k) ts = refl
not_closing false (spelled (star m ∷ ps) k) ts = refl
not_closing true (spelled (sized n ∷ ps) k) ts = refl
not_closing false (spelled (sized n ∷ ps) k) ts = refl

-- What follows a type in a list ends the type.
pub Ends-item :
    (allow : Bool) (l : Option Bytes) (more : Items) (ts : Stream)
    → Ends (spell_label l (separate more (spell_items more (closing allow ∷ ts))))
unfolding type_eq
Ends-item allow (some l) more ts = (refl, refl, refl, refl)
Ends-item allow none (item s l more) ts = (refl, refl, refl, refl)
Ends-item true none no_items ts = (refl, refl, refl, refl)
Ends-item false none no_items ts = (refl, refl, refl, refl)

pub no_label :
    (allow : Bool) (more : Items) (ts : Stream)
    → is_at TokenType.identifier (separate more (spell_items more (closing allow ∷ ts))) ≡ false
unfolding type_eq
no_label allow (item s l more) ts = refl
no_label true no_items ts = refl
no_label false no_items ts = refl

label_skipped :
    (allow : Bool) (l : Option Bytes) (ts : Stream)
    → MayHaveLabel allow l
    → is_at TokenType.identifier ts ≡ false
    → (if allow && is_at TokenType.identifier (spell_label l ts)
        then rest_of (spell_label l ts)
        else spell_label l ts)
      ≡ ts
unfolding type_eq
label_skipped true (some l) ts may h = refl
label_skipped true none ts may h = rw h refl
label_skipped false (some l) ts may h = cc
label_skipped false none ts may h = refl

module _ (c : ParseContext) (peek_type : Stream → Outcome (Bool × Stream)) (limit : ℕ)
    (peeks : (s : TypeSyntax) (ts : Stream)
      → size s ≤ limit
      → IsType c s
      → Ends ts
      → peek_type (spell s ts) ≡ ok (true, ts)) where
  item_step :
      (allow must : Bool) (n : ℕ) (s : TypeSyntax) (l : Option Bytes) (more : Items) (ts : Stream)
      → size s ≤ limit
      → IsType c s
      → MayHaveLabel allow l
      → (let after = separate more (spell_items more (closing allow ∷ ts)) in
          let comma = is_at TokenType.punctuation_comma after in
          peek_type_list peek_type
            (closing allow).type
            allow
            (suc n)
            must
            (spell_items (item s l more) (closing allow ∷ ts))
          ≡ peek_type_list peek_type
              (closing allow).type
              allow
              n
              comma
              (if comma then rest_of after else after))
  unfolding peek_type_list
  item_step allow true n s l more ts small is may =
      rw (peeks s _ small is (Ends-item allow l more ts))
        (rw (label_skipped allow l _ may (no_label allow more ts)) refl)
  item_step allow false n s l more ts small is may =
      rw
        (not_closing allow s
          (spell_label l (separate more (spell_items more (closing allow ∷ ts)))))
        (rw (peeks s _ small is (Ends-item allow l more ts))
          (rw (label_skipped allow l _ may (no_label allow more ts)) refl))

  -- Behind a comma there is another type.
  abbrev Expects : Bool → Items → Type 0
  Expects true no_items = ⊥
  Expects _ _ = Unit

  list_from :
      (allow must : Bool) (n : ℕ) (items : Items) (ts : Stream)
      → Expects must items
      → count_items items < n
      → size_items items ≤ limit
      → AreItems c allow items
      → peek_type_list peek_type
          (closing allow).type
          allow
          n
          must
          (spell_items items (closing allow ∷ ts))
        ≡ ok (true, closing allow ∷ ts)
  unfolding peek_type_list type_eq
  list_from allow must zero items ts e h small are = elim h [ ]
  list_from allow true (suc n) no_items ts e h small are = elim e [ ]
  list_from true false (suc n) no_items ts e h small are = refl
  list_from false false (suc n) no_items ts e h small are = refl
  list_from true must (suc n) (item s l no_items) ts e h small (is, may, are) =
      item_step true must n s l no_items ts (omega arith) is may
      ∙ list_from true false n no_items ts tt (omega arith) (omega arith) tt
  list_from false must (suc n) (item s l no_items) ts e h small (is, may, are) =
      item_step false must n s l no_items ts (omega arith) is may
      ∙ list_from false false n no_items ts tt (omega arith) (omega arith) tt
  list_from allow must (suc n) (item s l (item s' l' more)) ts e h small (is, may, are) =
      item_step allow must n s l (item s' l' more) ts (omega arith) is may
      ∙ list_from allow true n (item s' l' more) ts tt (omega arith) (omega arith) are

  -- Looking ahead over a list ends at the token behind it.
  pub peek_type_list-spell :
      (allow : Bool) (n : ℕ) (items : Items) (ts : Stream)
      → count_items items < n
      → size_items items ≤ limit
      → AreItems c allow items
      → peek_type_list peek_type
          (closing allow).type
          allow
          n
          false
          (spell_items items (closing allow ∷ ts))
        ≡ ok (true, closing allow ∷ ts)
  peek_type_list-spell allow n items ts h small are =
      list_from allow false n items ts (expects items) h small are
    where
      expects : (items : Items) → Expects false items
      expects no_items = tt
      expects (item s l more) = tt
