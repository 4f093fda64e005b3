-- ===== src/TypeParser/Sizes.antt =====
-- The fuel that `isAtType` gets, the number of tokens to come, is enough for a written type.
use three.Base.{
  ℕ, zero, suc, ◌+◌, ◌≤◌, ◌≡◌, refl, Bool, true, false, List, [], ◌∷◌, Option, none, some, Bytes,
  length, ok, arith,
}
use three.ParseContext.{ParseContext}
use three.ParseHelper.{Stream}
use three.TypeParser.{is_at_type}
use three.TypeParser.Syntax.{
  TypeSyntax, spelled, Core, named, vararg, tuple, closure, function, returning_closure, Items,
  no_items, item, Prefix, star, sized, Marks, Specifiers, unspecified, width, aligned, vector,
  arrow, close_paren, close_brace, spell, spell_core, spell_items, spell_name, spell_specifiers,
  spell_marks, spell_prefixes, spell_label, separate, size, size_core, size_items,
}
use three.TypeParser.Meaning.{IsType, Ends}
use three.TypeParser.Looking.{core_positive, peek_type-spell}

flags-length :
    (a b : Bool) (ts : Stream)
    → length ts ≤ length (spell_marks (record { is_mutable = a; is_nullable = b }) ts)
flags-length true true ts = omega arith
flags-length true false ts = omega arith
flags-length false true ts = omega arith
flags-length false false ts = omega arith

marks-length : (m : Marks) (ts : Stream) → length ts ≤ length (spell_marks m ts)
marks-length m = flags-length m.is_mutable m.is_nullable

prefixes-length :
    (ps : List Prefix) (ts : Stream) → length ps + length ts ≤ length (spell_prefixes ps ts)
prefixes-length [] ts = omega arith
prefixes-length (star m ∷ ps) ts =
    omega (arith, prefixes-length ps ts, marks-length m (spell_prefixes ps ts))
prefixes-length (sized n ∷ ps) ts = omega (arith, prefixes-length ps ts)

name-length :
    (first : Bytes) (more : List Bytes) (ts : Stream)
    → suc (length more) + length ts ≤ length (spell_name first more ts)
name-length first [] ts = omega arith
name-length first (c ∷ cs) ts = omega (arith, name-length c cs ts)

specifiers-length : (sp : Specifiers) (ts : Stream) → length ts ≤ length (spell_specifiers sp ts)
specifiers-length unspecified ts = omega arith
specifiers-length (width n) ts = omega arith
specifiers-length (aligned n m) ts = omega arith
specifiers-length (vector n m k) ts = omega arith

label-length : (l : Option Bytes) (ts : Stream) → length ts ≤ length (spell_label l ts)
label-length none ts = omega arith
label-length (some l) ts = omega arith

separate-length : (more : Items) (ts : Stream) → length ts ≤ length (separate more ts)
separate-length no_items ts = omega arith
separate-length (item s l more) ts = omega arith

module _ (limit : ℕ)
    (fits : (s : TypeSyntax) (ts : Stream)
      → size s ≤ limit
      → size s + length ts ≤ length (spell s ts)) where
  items-length :
      (items : Items) (ts : Stream)
      → size_items items ≤ limit
      → size_items items + length ts ≤ length (spell_items items ts)
  items-length no_items ts h = omega arith
  items-length (item s l more) ts h =
      let rest = spell_items more ts in
      omega (
        arith,
        items-length more ts (omega arith),
        separate-length more rest,
        label-length l (separate more rest),
        fits s (spell_label l (separate more rest)) (omega arith),
      )

  core-length :
      (k : Core) (ts : Stream)
      → size_core k ≤ suc limit
      → size_core k + length ts ≤ length (spell_core k ts)
  core-length (named first more sp m) ts h = omega (
    arith,
    name-length first more (spell_specifiers sp (spell_marks m ts)),
    specifiers-length sp (spell_marks m ts),
    marks-length m ts,
  )
  core-length vararg ts h = omega arith
  core-length (tuple items) ts h =
      omega (arith, items-length items (close_paren ∷ ts) (omega arith))
  core-length (closure items) ts h =
      omega (arith, items-length items (close_brace ∷ ts) (omega arith))
  core-length (function items result) ts h = omega (
    arith,
    items-length items (close_paren ∷ arrow ∷ spell result ts) (omega arith),
    fits result ts (omega arith),
  )
  core-length (returning_closure items result) ts h = omega (
    arith,
    items-length items (close_brace ∷ arrow ∷ spell result ts) (omega arith),
    fits result ts (omega arith),
  )

size-length :
    (n : ℕ) (s : TypeSyntax) (ts : Stream) → size s ≤ n → size s + length ts ≤ length (spell s ts)
size-length zero (spelled ps k) ts h = omega (arith, core_positive k)
size-length (suc n) (spelled ps k) ts h = omega (
  arith,
  core_positive k,
  prefixes-length ps (spell_core k ts),
  core-length n (size-length n) k ts (omega (arith, core_positive k)),
)

pub size_le_length : (s : TypeSyntax) (ts : Stream) → size s ≤ length (spell s ts)
size_le_length s ts = omega (arith, size-length (size s) s ts (omega arith))

-- In front of a written type, the parser takes itself to be at a type.
pub is_at_type-spell :
    (c : ParseContext) (s : TypeSyntax) (ts : Stream)
    → IsType c s
    → Ends ts
    → is_at_type c (spell s ts) ≡ ok true
unfolding is_at_type
is_at_type-spell c s ts is ends =
    rw
      (peek_type-spell (suc (length (spell s ts))) c s ts (omega (arith, size_le_length s ts)) is
        ends)
      refl
