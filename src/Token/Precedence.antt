-- ===== src/Token/Precedence.antt =====
-- The operators that the expression parser can place.
use three.Base.{◌≡◌, refl, Bool, true, false, not, ◌&&◌, ◌||◌, ◌==◌}
use three.Token.Kind.{TokenType, type_eq}
use three.Token.Classes.{
  precedence, non_precedence, is_operator, is_unary_operator, is_ternary_operator, is_end,
  is_statement_ending, is_left_associative,
}

-- The operators with no precedence: at one of them `parseExpression` fails its assertion.
abbrev pub is_unplaced : TokenType → Bool
is_unplaced TokenType.operator_scope = true
is_unplaced TokenType.operator_deep_equal = true
is_unplaced TokenType.operator_compare = true
is_unplaced TokenType.operator_logical_xor = true
is_unplaced TokenType.operator_not = true
is_unplaced TokenType.operator_binary_not = true
is_unplaced TokenType.operator_binary_xor = true
is_unplaced _ = false

-- An operator has no precedence exactly when it is `::`, `===`, `<=>`, `^^`, `!`, `~` or `^`; of the
-- tokens that are no operators only `[` has one; and no token that ends a statement is an operator.
pub precedence_operators :
    (t : TokenType)
    → ((is_operator t && (precedence t == non_precedence)) ≡ is_unplaced t)
      × ((not (is_operator t) && not (precedence t == non_precedence))
          ≡ type_eq t TokenType.punctuation_open_bracket)
      × ((is_statement_ending t && is_operator t) ≡ false)
unfolding precedence is_operator type_eq is_statement_ending is_end
precedence_operators TokenType.undefined = (refl, refl, refl)
precedence_operators _ = (refl, refl, refl)

-- The precedence of the assignments.
abbrev pub is_assignment : TokenType → Bool
is_assignment t = precedence t == 5

-- The ternary operators are those of precedence 6, and a token associates to the right exactly when
-- it is an assignment or one of the unary operators, `-`, `*` and `&` included.
pub is_left_associative-is_unary_operator :
    (t : TokenType)
    → (is_ternary_operator t ≡ (precedence t == 6))
      × (is_left_associative t ≡ not (is_unary_operator t || is_assignment t))
unfolding precedence is_ternary_operator is_left_associative is_unary_operator
is_left_associative-is_unary_operator TokenType.undefined = (refl, refl)
is_left_associative-is_unary_operator _ = (refl, refl)
