-- ===== src/Parser/Steps.antt =====
-- One step of precedence climbing: where the loop stops, and what it makes of an operator.
use three.Base.{
  ℕ, suc, ◌≤◌, ◌<◌, ◌≡◌, inl, inr, refl, true, false, ◌∷◌, Outcome, ok, ◌>>=◌, arith, Bool-cases,
}
use three.Token.Kind.{TokenType, type_eq}
use three.Token.Classes.{
  precedence, minimum_precedence, is_statement_ending, is_operator, is_left_associative, is_end,
}
use three.Token.{Token}
use three.ParseHelper.{Stream}
use three.Parser.{
  Expression, operation, choice, creates_operator, ternary, next_precedence, operator_node, climb,
}
use three.Parser.Climbing.{
  Written, leaf, unary_of, enclosed, binary_of, ternary_of, close_paren, IsPlaced, Stops, colon,
  MayFollow, IsNested, size, spine, StopsRoot,
}

pub next_bounds : (t : TokenType) → precedence t ≤ next_precedence t
unfolding next_precedence
next_bounds t = elim (Bool-cases (is_left_associative t)) [
  | inl left ↦ rw left (omega arith)
  | inr right ↦ rw right (omega arith)
]

Stops-weaken : (p q : ℕ) (ts : Stream) → p ≤ q → Stops p ts → Stops q ts
Stops-weaken p q ts h (inl other) = inl other
Stops-weaken p q ts h (inr (a, b, c, d)) = inr (a, b, c, omega arith)

Stops-operator :
    (op : Token) (q : ℕ) (ts : Stream) → IsPlaced op → precedence op.type < q → Stops q (op ∷ ts)
Stops-operator op q ts (is, runs, creates, positive, tail) h = inr (is, runs, positive, h)

pub Stops-paren : (ts : Stream) → Stops minimum_precedence (close_paren ∷ ts)
unfolding is_statement_ending is_end is_operator type_eq
Stops-paren ts = inl refl

pub Stops-colon : (q : ℕ) (ts : Stream) → Stops q (colon ∷ ts)
unfolding is_statement_ending is_end is_operator type_eq
Stops-colon q ts = inl refl

module _ {E : Type 0} where
  pub spine-size : (w : Written E) → spine w < size w
  spine-size (leaf e) = omega arith
  spine-size (unary_of op w) = omega arith
  spine-size (enclosed w) = omega arith
  spine-size (binary_of op l r) = omega (arith, spine-size l)
  spine-size (ternary_of op c a b) = omega (arith, spine-size c)

  pub StopsRoot-nested :
      (spell_leaf : E → Stream → Stream) (P : E → Stream → Type 0) (q : ℕ) (w : Written E)
      (ts : Stream)
      → IsNested spell_leaf P q w ts
      → Stops q ts
      → StopsRoot w ts
  StopsRoot-nested spell_leaf P q (leaf e) ts nested stops = tt
  StopsRoot-nested spell_leaf P q (unary_of op w) ts nested stops = tt
  StopsRoot-nested spell_leaf P q (enclosed w) ts nested stops = tt
  StopsRoot-nested spell_leaf P q (binary_of op l r) ts (placed, binary, le, left, follow, right)
        stops =
      Stops-weaken q (next_precedence op.type) ts (omega (arith, next_bounds op.type)) stops
  StopsRoot-nested spell_leaf P q (ternary_of op c a b) ts
        (placed, is, le, left, follow, middle, right) stops =
      Stops-weaken q (next_precedence op.type) ts (omega (arith, next_bounds op.type)) stops

  pub StopsRoot-follow :
      (w : Written E) (op : Token) (ts : Stream)
      → IsPlaced op
      → MayFollow (precedence op.type) w
      → StopsRoot w (op ∷ ts)
  StopsRoot-follow (leaf e) op ts placed h = tt
  StopsRoot-follow (unary_of op' w) op ts placed h = tt
  StopsRoot-follow (enclosed w) op ts placed h = tt
  StopsRoot-follow (binary_of op' l r) op ts placed h = Stops-operator op _ ts placed h
  StopsRoot-follow (ternary_of op' c a b) op ts placed h = Stops-operator op _ ts placed h

  module _ (parse : ℕ → Stream → Outcome (Expression E × Stream)) (n p : ℕ)
      (left : Expression E) where
    pub climb_stop : (ts : Stream) → Stops p ts → climb parse (suc n) p left ts ≡ ok (left, ts)
    unfolding climb
    climb_stop ts (inl other) = rw other refl
    climb_stop ts (inr (is, runs, positive, low)) = rw (is, runs) (ground (arith, positive, low))

    pub climb_step :
        (op : Token) (ts : Stream)
        → IsPlaced op
        → p ≤ precedence op.type
        → climb parse (suc n) p left (op ∷ ts) ≡ (
            operator_node (parse (next_precedence op.type)) left (op ∷ ts) >>= λ (l, ts').
            climb parse n p l ts')
    unfolding climb
    climb_step op ts (is, runs, creates, positive, tail) high =
        rw (is, runs) (ground (arith, positive, high))

  module _ (parse : Stream → Outcome (Expression E × Stream)) (left right : Expression E)
      (op : Token) (ts ts1 : Stream) where
    pub node_binary :
        creates_operator op.type ≡ true
        → ternary op ≡ false
        → parse ts ≡ ok (right, ts1)
        → operator_node parse left (op ∷ ts) ≡ ok (operation op left right, ts1)
    unfolding operator_node
    node_binary creates binary e = rw creates (rw e (rw binary refl))

    pub node_ternary :
        (other : Expression E) (ts2 : Stream)
        → creates_operator op.type ≡ true
        → ternary op ≡ true
        → parse ts ≡ ok (right, colon ∷ ts1)
        → parse ts1 ≡ ok (other, ts2)
        → operator_node parse left (op ∷ ts) ≡ ok (choice op left right other, ts2)
    unfolding operator_node type_eq
    node_ternary other ts2 creates is e h = rw creates (rw e (rw is (rw h refl)))
