-- ===== src/TypeParser/Syntax.antt =====
-- The written form of the types that `TypeParser` of compiler/Parser/TypeParser.cpp reads: the tokens
-- of a type.
use three.Base.{
  ℕ, suc, ◌+◌, Bool, List, [], ◌∷◌, Option, none, some, if◌then◌else◌, Bytes, codes, decimal,
  length,
}
use three.Token.Kind.{TokenType}
use three.Token.{Token}
use three.ParseHelper.{Stream}

-- `!` and `?`.
pub record Marks : Type 0 where
  pub is_mutable : Bool
  pub is_nullable : Bool

pub data Prefix : Type 0 where
  star : Marks → Prefix
  sized : ℕ → Prefix

-- A width, an alignment and a vector size.
pub data Specifiers : Type 0 where
  unspecified : Specifiers
  width : ℕ → Specifiers
  aligned : ℕ → ℕ → Specifiers
  vector : ℕ → ℕ → ℕ → Specifiers

mutual
  pub data TypeSyntax : Type 0 where
    spelled : List Prefix → Core → TypeSyntax

  -- A name is its first component and the others.
  pub data Core : Type 0 where
    named : Bytes → List Bytes → Specifiers → Marks → Core
    vararg : Core
    tuple closure : Items → Core
    function returning_closure : Items → TypeSyntax → Core

  -- Types with a label each, where there is one.
  pub data Items : Type 0 where
    no_items : Items
    item : TypeSyntax → Option Bytes → Items → Items

abbrev pub token_of : TokenType → Bytes → Token
token_of type str = record { type = type; str = str }

abbrev pub integer : ℕ → Token
integer n = token_of TokenType.literal_integer (decimal n)

abbrev pub identifier : Bytes → Token
identifier s = token_of TokenType.identifier s

abbrev pub colon : Token
colon = token_of TokenType.punctuation_colon (codes ":")

abbrev pub comma : Token
comma = token_of TokenType.punctuation_comma (codes ",")

abbrev pub star_token : Token
star_token = token_of TokenType.operator_star (codes "*")

abbrev pub arrow : Token
arrow = token_of TokenType.operator_arrow (codes "->")

abbrev pub open_paren : Token
open_paren = token_of TokenType.punctuation_open_paren (codes "(")

abbrev pub close_paren : Token
close_paren = token_of TokenType.punctuation_close_paren (codes ")")

abbrev pub open_brace : Token
open_brace = token_of TokenType.punctuation_open_brace (codes "{")

abbrev pub close_brace : Token
close_brace = token_of TokenType.punctuation_close_brace (codes "}")

abbrev pub open_bracket : Token
open_bracket = token_of TokenType.punctuation_open_bracket (codes "[")

abbrev pub close_bracket : Token
close_bracket = token_of TokenType.punctuation_close_bracket (codes "]")

-- The tokens of each form, in front of the tokens to come.
abbrev pub spell_marks : Marks → Stream → Stream
spell_marks m ts =
    let nullable =
      if m.is_nullable then token_of TokenType.operator_question_mark (codes "?") ∷ ts else ts in
    if m.is_mutable then token_of TokenType.operator_not (codes "!") ∷ nullable else nullable

abbrev pub spell_prefixes : List Prefix → Stream → Stream
spell_prefixes [] ts = ts
spell_prefixes (star m ∷ ps) ts = star_token ∷ spell_marks m (spell_prefixes ps ts)
spell_prefixes (sized n ∷ ps) ts = open_bracket ∷ integer n ∷ close_bracket ∷ spell_prefixes ps ts

abbrev pub spell_name : Bytes → List Bytes → Stream → Stream
spell_name first [] ts = identifier first ∷ ts
spell_name first (c ∷ cs) ts = identifier first ∷ colon ∷ colon ∷ spell_name c cs ts

abbrev pub spell_specifiers : Specifiers → Stream → Stream
spell_specifiers unspecified ts = ts
spell_specifiers (width n) ts = colon ∷ integer n ∷ ts
spell_specifiers (aligned n m) ts = colon ∷ integer n ∷ colon ∷ integer m ∷ ts
spell_specifiers (vector n m k) ts = colon ∷ integer n ∷ colon ∷ integer m ∷ colon ∷ integer k ∷ ts

abbrev pub spell_label : Option Bytes → Stream → Stream
spell_label none ts = ts
spell_label (some l) ts = identifier l ∷ ts

abbrev pub separate : Items → Stream → Stream
separate no_items ts = ts
separate (item s l more) ts = comma ∷ ts

abbrev mutual
  pub spell : TypeSyntax → Stream → Stream
  spell (spelled ps k) ts = spell_prefixes ps (spell_core k ts)

  pub spell_core : Core → Stream → Stream
  spell_core (named first more sp m) ts =
      spell_name first more (spell_specifiers sp (spell_marks m ts))
  spell_core vararg ts = token_of TokenType.keyword_vararg (codes "Vararg") ∷ ts
  spell_core (tuple items) ts = open_paren ∷ spell_items items (close_paren ∷ ts)
  spell_core (closure items) ts = open_brace ∷ spell_items items (close_brace ∷ ts)
  spell_core (function items result) ts =
      open_paren ∷ spell_items items (close_paren ∷ arrow ∷ spell result ts)
  spell_core (returning_closure items result) ts =
      open_brace ∷ spell_items items (close_brace ∷ arrow ∷ spell result ts)

  pub spell_items : Items → Stream → Stream
  spell_items no_items ts = ts
  spell_items (item s l more) ts = spell s (spell_label l (separate more (spell_items more ts)))

-- A bound of the fuel that a type needs.
abbrev mutual
  pub size : TypeSyntax → ℕ
  size (spelled ps k) = length ps + size_core k

  pub size_core : Core → ℕ
  size_core (named first more sp m) = suc (length more)
  size_core vararg = 1
  size_core (tuple items) = suc (size_items items)
  size_core (closure items) = suc (size_items items)
  size_core (function items result) = suc (size_items items + size result)
  size_core (returning_closure items result) = suc (size_items items + size result)

  pub size_items : Items → ℕ
  size_items no_items = 0
  size_items (item s l more) = size s + size_items more
