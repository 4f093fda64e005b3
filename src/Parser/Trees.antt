-- ===== src/Parser/Trees.antt =====
-- The tokens of an expression whose operators nest as the precedences say are parsed to its tree.
use three.Base.{
  ℕ, zero, suc, ◌+◌, ◌-◌, ◌≤◌, ◌<◌, ◌≡◌, refl, ◌∙◌, true, false, ◌∷◌, Outcome, ok, arith,
}
use three.Token.Kind.{TokenType, type_eq}
use three.Token.Classes.{minimum_precedence, is_unary_operator}
use three.Token.{Token}
use three.ParseHelper.{Stream, front_type, is_at}
use three.Parser.{
  Expression, element, unary, is_tailing, parse_tailing, element_without_tailing,
  parse_expression_element, next_precedence, climb, parse_expression,
}
use three.Parser.Climbing.{
  Written, leaf, unary_of, enclosed, binary_of, ternary_of, tree_of, IsOperand, open_paren,
  close_paren, Stops, colon, spell, IsNested, size, spine, StopsRoot,
}
use three.Parser.Steps.{
  next_bounds, Stops-paren, Stops-colon, spine-size, StopsRoot-nested, StopsRoot-follow, climb_stop,
  climb_step, node_binary, node_ternary,
}

-- The reader of operands reads what `spell_leaf` writes in front of tokens of which `P` says so, where
-- no token tails it; an operand begins with no unary operator and no parenthesis.
module _ {W E : Type 0} (read_operand : Stream → Outcome (E × Stream))
    (read_tail : Expression E → Stream → Outcome (Expression E × Stream)) (P : W → Stream → Type 0)
    (spell_leaf : W → Stream → Stream) (means : W → E)
    (reads : (e : W) (ts : Stream)
      → P e ts
      → is_tailing (front_type ts) ≡ false
      → (read_operand (spell_leaf e ts) ≡ ok (means e, ts))
        × (is_unary_operator (front_type (spell_leaf e ts)) ≡ false)
        × (is_at TokenType.punctuation_open_paren (spell_leaf e ts) ≡ false)) where
  -- What is proved of a written expression: in front of tokens that stop it, it is parsed.
  abbrev pub Parses : ℕ → Type 0
  Parses f =
      (q : ℕ) (w : Written W) (ts : Stream)
      → 0 < q
      → size w ≤ f
      → IsNested spell_leaf P q w ts
      → Stops q ts
      → is_tailing (front_type ts) ≡ false
      → parse_expression read_operand read_tail f q (spell spell_leaf w ts)
        ≡ ok (tree_of means w, ts)

  no_tail :
      (n : ℕ) (e : Expression E) (ts : Stream)
      → is_tailing (front_type ts) ≡ false
      → parse_tailing read_operand read_tail (suc n) e ts ≡ ok (e, ts)
  unfolding parse_tailing
  no_tail n e ts tail = rw tail refl

  element_step :
      (parse : ℕ → Stream → Outcome (Expression E × Stream)) (n : ℕ) (e : Expression E)
      (ts ts' : Stream)
      → element_without_tailing read_operand read_tail
          (parse_expression_element read_operand read_tail parse n)
          parse
          ts
        ≡ ok (e, ts')
      → is_tailing (front_type ts') ≡ false
      → parse_expression_element read_operand read_tail parse (suc n) ts ≡ ok (e, ts')
  unfolding parse_expression_element
  element_step parse n e ts ts' found tail = rw found (no_tail n e ts' tail)

  tail_colon : (ts : Stream) → is_tailing (front_type (colon ∷ ts)) ≡ false
  unfolding is_tailing
  tail_colon ts = refl

  tail_paren : (ts : Stream) → is_tailing (front_type (close_paren ∷ ts)) ≡ false
  unfolding is_tailing
  tail_paren ts = refl

  begins :
      (f p : ℕ) (ts : Stream) (e : Expression E) (ts' : Stream)
      → 0 < p
      → parse_expression_element read_operand read_tail
          (parse_expression read_operand read_tail f)
          (suc f)
          ts
        ≡ ok (e, ts')
      → parse_expression read_operand read_tail (suc f) p ts
        ≡ climb (parse_expression read_operand read_tail f) (suc f) p e ts'
  unfolding parse_expression
  begins f p ts e ts' h found = rw found (ground (arith, h))

  module _ (parse_element : Stream → Outcome (Expression E × Stream))
      (parse : ℕ → Stream → Outcome (Expression E × Stream)) where
    at_leaf :
        (e : W) (ts : Stream)
        → P e ts
        → is_tailing (front_type ts) ≡ false
        → element_without_tailing read_operand read_tail parse_element parse (spell_leaf e ts)
          ≡ ok (element (means e), ts)
    unfolding element_without_tailing
    at_leaf e ts is tail =
        let (read, plain, bare) = reads e ts is tail in rw plain (rw bare (rw read refl))

    at_unary :
        (op : Token) (e : Expression E) (ts ts' : Stream)
        → is_unary_operator op.type ≡ true
        → parse_element ts ≡ ok (e, ts')
        → element_without_tailing read_operand read_tail parse_element parse (op ∷ ts)
          ≡ ok (unary op e, ts')
    unfolding element_without_tailing
    at_unary op e ts ts' is found = rw is (rw found refl)

    at_paren :
        (e : Expression E) (ts ts' : Stream)
        → parse minimum_precedence ts ≡ ok (e, close_paren ∷ ts')
        → element_without_tailing read_operand read_tail parse_element parse (open_paren ∷ ts)
          ≡ ok (e, ts')
    unfolding element_without_tailing is_unary_operator type_eq
    at_paren e ts ts' found = rw found refl

  -- An operand, by the types of expression that stand in parentheses in it.
  element-spell :
      (f : ℕ)
      → Parses f
      → (n p : ℕ) (w : Written W) (ts : Stream) → size w ≤ n
      → size w ≤ suc f
      → IsOperand w
      → IsNested spell_leaf P p w ts
      → is_tailing (front_type ts) ≡ false
      → parse_expression_element read_operand read_tail
          (parse_expression read_operand read_tail f)
          n
          (spell spell_leaf w ts)
        ≡ ok (tree_of means w, ts)
  element-spell f ih zero p w ts h small is nested tail =
      let some_node = spine-size w in absurd (omega arith)
  element-spell f ih (suc n) p (leaf e) ts h small is nested tail =
      element_step _ n (element (means e)) _ ts (at_leaf _ _ e ts nested tail) tail
  element-spell f ih (suc n) p (unary_of op w) ts h small is (unary_op, operand, nested) tail =
      element_step _ n _ _ ts
        (at_unary _ _ op (tree_of means w) (spell spell_leaf w ts) ts unary_op (
          element-spell f ih n minimum_precedence w ts (omega arith) (omega arith) operand nested
            tail))
        tail
  element-spell f ih (suc n) p (enclosed w) ts h small is nested tail =
      element_step _ n _ _ ts
        (at_paren _ _ (tree_of means w) (spell spell_leaf w (close_paren ∷ ts)) ts (
          ih minimum_precedence w (close_paren ∷ ts) (omega arith) (omega arith) nested
            (Stops-paren ts) (tail_paren ts)))
        tail
  element-spell f ih (suc n) p (binary_of op l r) ts h small is nested tail = elim is [ ]
  element-spell f ih (suc n) p (ternary_of op c a b) ts h small is nested tail = elim is [ ]

  pub first_operand :
      (f p : ℕ)
      → Parses f
      → (w : Written W) (ts : Stream) → 0 < p
      → size w ≤ suc f
      → IsOperand w
      → IsNested spell_leaf P p w ts
      → is_tailing (front_type ts) ≡ false
      → parse_expression read_operand read_tail (suc f) p (spell spell_leaf w ts)
        ≡ climb (parse_expression read_operand read_tail f) (suc f) p (tree_of means w) ts
  first_operand f p ih w ts h small is nested tail =
      begins f p _ (tree_of means w) ts h
        (element-spell f ih (suc f) p w ts small small is nested tail)

  -- The loop arrives at the whole tree with the tokens behind it.
  descend :
      (f : ℕ)
      → Parses f
      → (p : ℕ) (w : Written W) (k : ℕ) (ts : Stream) → 0 < p
      → k + spine w ≡ suc f
      → size w ≤ suc f
      → IsNested spell_leaf P p w ts
      → StopsRoot w ts
      → is_tailing (front_type ts) ≡ false
      → parse_expression read_operand read_tail (suc f) p (spell spell_leaf w ts)
        ≡ climb (parse_expression read_operand read_tail f) k p (tree_of means w) ts
  descend f ih p (leaf e) k ts pos steps small nested stops tail =
      let e' : k ≡ suc f = omega arith in
      rw e' (first_operand f p ih (leaf e) ts pos small tt nested tail)
  descend f ih p (unary_of op w) k ts pos steps small nested stops tail =
      let e' : k ≡ suc f = omega arith in
      rw e' (first_operand f p ih (unary_of op w) ts pos small tt nested tail)
  descend f ih p (enclosed w) k ts pos steps small nested stops tail =
      let e' : k ≡ suc f = omega arith in
      rw e' (first_operand f p ih (enclosed w) ts pos small tt nested tail)
  descend f ih p (binary_of op l r) k ts pos steps small (placed, binary, high, left, follow, right)
        stops tail =
      let next = next_precedence op.type in
      let parse = parse_expression read_operand read_tail f in
      let behind = spell spell_leaf r ts in
      descend f ih p l (suc k) (op ∷ behind) pos (omega arith) (omega (arith, spine-size r)) left
        (StopsRoot-follow l op behind placed follow) placed.4
      ∙ climb_step parse k p (tree_of means l) op behind placed high
      ∙ rw
          (node_binary (parse next) (tree_of means l) (tree_of means r) op behind ts placed.2 binary
            (ih next r ts (omega (arith, next_bounds op.type, placed.3))
              (omega (arith, spine-size l)) right stops tail))
          refl
  descend f ih p (ternary_of op c a b) k ts pos steps small
        (placed, is, high, left, follow, middle, right) stops tail =
      let next = next_precedence op.type in
      let parse = parse_expression read_operand read_tail f in
      let last = spell spell_leaf b ts in
      let behind = spell spell_leaf a (colon ∷ last) in
      descend f ih p c (suc k) (op ∷ behind) pos (omega arith) (omega (arith, spine-size a)) left
        (StopsRoot-follow c op behind placed follow) placed.4
      ∙ climb_step parse k p (tree_of means c) op behind placed high
      ∙ rw
          (node_ternary (parse next) (tree_of means c) (tree_of means a) op behind last
            (tree_of means b) ts placed.2 is
            (ih next a (colon ∷ last) (omega (arith, next_bounds op.type, placed.3))
              (omega (arith, spine-size c)) middle (Stops-colon next last) (tail_colon last))
            (ih next b ts (omega (arith, next_bounds op.type, placed.3))
              (omega (arith, spine-size c)) right stops tail))
          refl

  -- The tokens of a written expression whose operators nest as the precedences say, in front of tokens
  -- at which a loop for the precedence stops, are parsed to its tree, with fuel for each node.
  pub parse_nested :
      (f p : ℕ) (w : Written W) (ts : Stream)
      → 0 < p
      → size w ≤ f
      → IsNested spell_leaf P p w ts
      → Stops p ts
      → is_tailing (front_type ts) ≡ false
      → parse_expression read_operand read_tail f p (spell spell_leaf w ts)
        ≡ ok (tree_of means w, ts)
  parse_nested zero p w ts pos small nested stops tail =
      let some_node = spine-size w in absurd (omega arith)
  parse_nested (suc f) p w ts pos small nested stops tail =
      let some_node = spine-size w in
      descend f (parse_nested f) p w (suc (f - spine w)) ts pos (omega arith) small nested
        (StopsRoot-nested spell_leaf P p w ts nested stops) tail
      ∙ climb_stop (parse_expression read_operand read_tail f) (f - spine w) p (tree_of means w) ts
          stops
