-- ===== src/Parser/Climbing.antt =====
-- Precedence climbing: which tree the tokens of an expression become.
use three.Base.{ℕ, suc, ◌+◌, ◌≤◌, ◌<◌, ◌≡◌, ◌⊎◌, true, false, not, ◌||◌, ◌∷◌, codes}
use three.Token.Kind.{TokenType}
use three.Token.Classes.{
  non_precedence, minimum_precedence, precedence, is_unary_operator, is_statement_ending,
  is_operator,
}
use three.Token.{Token}
use three.ParseHelper.{Stream, front_type}
use three.Parser.{
  Expression, element, unary, is_tailing, operation, choice, creates_operator, ternary,
  next_precedence,
}

-- An operator with a precedence, which takes two operands or three.
abbrev pub IsPlaced : Token → Type 0
IsPlaced op =
    (is_operator op.type ≡ true)
    × (is_statement_ending op.type ≡ false)
    × (creates_operator op.type ≡ true)
    × (non_precedence < precedence op.type)
    × (is_tailing op.type ≡ false)

-- At these tokens the loop for a precedence stops: no operator, or one that binds less.
abbrev pub Stops : ℕ → Stream → Type 0
Stops p ts =
    ((is_statement_ending (front_type ts) || not (is_operator (front_type ts))) ≡ true)
    ⊎ ((is_operator (front_type ts) ≡ true)
        × (is_statement_ending (front_type ts) ≡ false)
        × (non_precedence < precedence (front_type ts))
        × (precedence (front_type ts) < p))

abbrev pub open_paren : Token
open_paren = record { type = TokenType.punctuation_open_paren; str = codes "(" }

abbrev pub close_paren : Token
close_paren = record { type = TokenType.punctuation_close_paren; str = codes ")" }

abbrev pub colon : Token
colon = record { type = TokenType.punctuation_colon; str = codes ":" }

-- Written expressions, with their parentheses.
pub data Written (E : Type 0) : Type 0 where
  leaf : E → Written E
  unary_of : Token → Written E → Written E
  enclosed : Written E → Written E
  binary_of : Token → Written E → Written E → Written E
  ternary_of : Token → Written E → Written E → Written E → Written E

module _ {E : Type 0} where
  -- The tokens of an expression; `spell_leaf` gives those of an operand.
  abbrev pub spell : (E → Stream → Stream) → Written E → Stream → Stream
  spell spell_leaf (leaf e) ts = spell_leaf e ts
  spell spell_leaf (unary_of op w) ts = op ∷ spell spell_leaf w ts
  spell spell_leaf (enclosed w) ts = open_paren ∷ spell spell_leaf w (close_paren ∷ ts)
  spell spell_leaf (binary_of op l r) ts = spell spell_leaf l (op ∷ spell spell_leaf r ts)
  spell spell_leaf (ternary_of op c a b) ts =
      spell spell_leaf c (op ∷ spell spell_leaf a (colon ∷ spell spell_leaf b ts))

  -- The tree of an expression; `means` gives the node of an operand.
  abbrev pub tree_of : {N : Type 0} → (E → N) → Written E → Expression N
  tree_of means (leaf e) = element (means e)
  tree_of means (unary_of op w) = unary op (tree_of means w)
  tree_of means (enclosed w) = tree_of means w
  tree_of means (binary_of op l r) = operation op (tree_of means l) (tree_of means r)
  tree_of means (ternary_of op c a b) =
      choice op (tree_of means c) (tree_of means a) (tree_of means b)

  abbrev pub IsOperand : Written E → Type 0
  IsOperand (binary_of op l r) = ⊥
  IsOperand (ternary_of op c a b) = ⊥
  IsOperand _ = Unit

  -- An operator may follow an expression: it binds less than the right operands of its root.
  abbrev pub MayFollow : ℕ → Written E → Type 0
  MayFollow p (binary_of op l r) = p < next_precedence op.type
  MayFollow p (ternary_of op c a b) = p < next_precedence op.type
  MayFollow p _ = Unit

  -- The operators nest as the precedences say: each of them outside parentheses binds at least as much
  -- as `p`, its right operands are such expressions for the next precedence, and it may follow its
  -- left operand. A unary operator stands in front of an operand. Each leaf is as `P` says of it in
  -- front of the tokens behind it.
  abbrev pub IsNested :
      (E → Stream → Stream) → (E → Stream → Type 0) → ℕ → Written E → Stream → Type 0
  IsNested spell_leaf P p (leaf e) ts = P e ts
  IsNested spell_leaf P p (unary_of op w) ts =
      (is_unary_operator op.type ≡ true)
      × IsOperand w
      × IsNested spell_leaf P minimum_precedence w ts
  IsNested spell_leaf P p (enclosed w) ts =
      IsNested spell_leaf P minimum_precedence w (close_paren ∷ ts)
  IsNested spell_leaf P p (binary_of op l r) ts =
      IsPlaced op
      × (ternary op ≡ false)
      × (p ≤ precedence op.type)
      × IsNested spell_leaf P p l (op ∷ spell spell_leaf r ts)
      × MayFollow (precedence op.type) l
      × IsNested spell_leaf P (next_precedence op.type) r ts
  IsNested spell_leaf P p (ternary_of op c a b) ts =
      IsPlaced op
      × (ternary op ≡ true)
      × (p ≤ precedence op.type)
      × IsNested spell_leaf P p c (op ∷ spell spell_leaf a (colon ∷ spell spell_leaf b ts))
      × MayFollow (precedence op.type) c
      × IsNested spell_leaf P (next_precedence op.type) a (colon ∷ spell spell_leaf b ts)
      × IsNested spell_leaf P (next_precedence op.type) b ts

  abbrev pub size : Written E → ℕ
  size (leaf e) = 1
  size (unary_of op w) = suc (size w)
  size (enclosed w) = suc (size w)
  size (binary_of op l r) = suc (size l + size r)
  size (ternary_of op c a b) = suc (size c + (size a + size b))

  -- The number of operators on the way to the first operand.
  abbrev pub spine : Written E → ℕ
  spine (binary_of op l r) = suc (spine l)
  spine (ternary_of op c a b) = suc (spine c)
  spine _ = 0

  -- The tokens behind an expression stop the right operands of its root.
  abbrev pub StopsRoot : Written E → Stream → Type 0
  StopsRoot (binary_of op l r) ts = Stops (next_precedence op.type) ts
  StopsRoot (ternary_of op c a b) ts = Stops (next_precedence op.type) ts
  StopsRoot _ ts = Unit
