-- ===== src/Parser.antt =====
-- `parseExpression` of compiler/Parser/Parser.cpp and `OperatorNode` of
-- compiler/AST/Operators/OperatorNode.cpp: the tree of an expression's operators. The operands that are
-- neither unary nor in parentheses are of any type, and their reader and that of one tailing operator
-- are arguments.
pub mod Climbing
pub mod Steps
pub mod Trees
pub mod Operands
use three.Base.{
  ℕ, zero, suc, ◌+◌, Bool, true, false, not, ◌||◌, ◌==◌, ltb, leb, if◌then◌else◌, codes, bytes_eq,
  Outcome, ok, aborted, out_of_fuel, ◌>>=◌,
}
use three.Token.Kind.{TokenType, type_eq}
use three.Token.Classes.{
  non_precedence, minimum_precedence, precedence, is_unary_operator, is_statement_ending,
  is_operator, is_left_associative,
}
use three.Token.{Token}
use three.ParseHelper.{Stream, front, rest_of, is_at, next_if}

-- The nodes of operators, with the token that `setOp` keeps the text of.
pub data Expression (E : Type 0) : Type 0 where
  element : E → Expression E
  unary : Token → Expression E → Expression E
  operation : Token → Expression E → Expression E → Expression E
  choice : Token → Expression E → Expression E → Expression E → Expression E

-- Whether `createOperator` makes a node: of every operator but `::`.
unfoldable pub creates_operator : TokenType → Bool
unfolding is_operator
creates_operator TokenType.operator_scope = false
creates_operator t = is_operator t

-- The tokens at which `OperatorNode::parseTailing` goes on with an operand.
unfoldable pub is_tailing : TokenType → Bool
is_tailing TokenType.operator_dot = true
is_tailing TokenType.operator_arrow = true
is_tailing TokenType.punctuation_open_bracket = true
is_tailing TokenType.punctuation_open_paren = true
is_tailing _ = false

-- `OperatorNode::ternary`, of the text of the operator.
unfoldable pub ternary : Token → Bool
unfolding bytes_eq
ternary op = bytes_eq op.str (codes "?") || bytes_eq op.str (codes "cas")

-- The precedence at which the right operand is parsed.
unfoldable pub next_precedence : TokenType → ℕ
unfolding precedence is_left_associative
next_precedence t = if is_left_associative t then precedence t + 1 else precedence t

module _ {E : Type 0} where
  -- `OperatorNode::parse`, at the operator; `parse` is `parseExpression(precedence)`.
  unfoldable pub operator_node :
      (Stream → Outcome (Expression E × Stream))
      → Expression E
      → Stream
      → Outcome (Expression E × Stream)
  unfolding creates_operator ternary type_eq
  operator_node parse left ts =
      let op = front ts in
      let operands = parse (rest_of ts) >>= λ (right, ts1).
      (let third = parse (rest_of ts1) >>= λ (other, ts2). ok (choice op left right other, ts2) in
        if not (ternary op)
        then ok (operation op left right, ts1)
        else if not (is_at TokenType.punctuation_colon ts1)
        then aborted
        else third) in
      if not (creates_operator op.type) then aborted else operands

  -- The loop of `parseExpression`; `parse` is `parseExpression`, and `rounds` bounds the loop.
  unfoldable pub climb :
      (ℕ → Stream → Outcome (Expression E × Stream))
      → ℕ
      → ℕ
      → Expression E
      → Stream
      → Outcome (Expression E × Stream)
  unfolding precedence is_statement_ending is_operator next_precedence operator_node
  climb parse zero p left ts = out_of_fuel
  climb parse (suc rounds) p left ts =
      let t = (front ts).type in
      let round = operator_node (parse (next_precedence t)) left ts >>= λ (left', ts').
      climb parse rounds p left' ts' in
      if is_statement_ending t || not (is_operator t)
      then ok (left, ts)
      else if precedence t == non_precedence
      then aborted
      else if ltb (precedence t) p
      then ok (left, ts)
      else round

  module _ (read_operand : Stream → Outcome (E × Stream))
      (read_tail : Expression E → Stream → Outcome (Expression E × Stream)) where
    -- The loop of `OperatorNode::parseTailing`, of `rounds` rounds at most.
    unfoldable pub parse_tailing : ℕ → Expression E → Stream → Outcome (Expression E × Stream)
    unfolding is_tailing
    parse_tailing zero left ts = out_of_fuel
    parse_tailing (suc rounds) left ts =
        let round = read_tail left ts >>= λ (left', ts'). parse_tailing rounds left' ts' in
        if is_tailing (front ts).type then round else ok (left, ts)

    -- `parseExpressionElementWithoutTailingOperators`. The answer of `parseParentheses`, whether there
    -- is a closing parenthesis, is not used.
    unfoldable pub element_without_tailing :
        (Stream → Outcome (Expression E × Stream))
        → (ℕ → Stream → Outcome (Expression E × Stream))
        → Stream
        → Outcome (Expression E × Stream)
    unfolding is_unary_operator next_if type_eq
    element_without_tailing parse_element parse ts =
        let signed = parse_element (rest_of ts) >>= λ (e, ts'). ok (unary (front ts) e, ts') in
        let enclosed = parse minimum_precedence (rest_of ts) >>= λ (e, ts').
        ok (e, (next_if TokenType.punctuation_close_paren ts').1) in
        let operand = read_operand ts >>= λ (e, ts'). ok (element e, ts') in
        if is_unary_operator (front ts).type
        then signed
        else if is_at TokenType.punctuation_open_paren ts
        then enclosed
        else operand

    -- `parseExpressionElement`; `parse` is `parseExpression`.
    unfoldable pub parse_expression_element :
        (ℕ → Stream → Outcome (Expression E × Stream))
        → ℕ
        → Stream
        → Outcome (Expression E × Stream)
    unfolding element_without_tailing parse_tailing
    parse_expression_element parse zero ts = out_of_fuel
    parse_expression_element parse (suc n) ts =
        element_without_tailing (parse_expression_element parse n) parse ts >>= λ (e, ts').
        parse_tailing (suc n) e ts'

    -- `parseExpression(precedence)`.
    unfoldable pub parse_expression : ℕ → ℕ → Stream → Outcome (Expression E × Stream)
    unfolding climb parse_expression_element
    parse_expression zero p ts = out_of_fuel
    parse_expression (suc f) p ts =
        let expression = parse_expression_element (parse_expression f) (suc f) ts >>= λ (e, ts').
        climb (parse_expression f) (suc f) p e ts' in
        if leb p non_precedence then aborted else expression
