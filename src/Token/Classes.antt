-- ===== src/Token/Classes.antt =====
-- The classification of token types by compiler/Lexer/Token.cpp: precedence, associativity, the
-- classes that the parser tests, and the closing counterpart of a token that opens a span.
use three.Base.{ℕ, Bool, true, false, ◌||◌}
use three.Token.Kind.{
  TokenType, type_eq, undefined, end_of_input, newline, punctuation_open_brace,
  punctuation_close_brace, punctuation_open_paren, punctuation_close_paren,
  punctuation_open_bracket, punctuation_close_bracket, operator_scope, operator_star,
  operator_ampersand, operator_minus, operator_increment, operator_decrement, operator_plus,
  operator_divide, operator_mod, operator_dot, operator_arrow, operator_equal, operator_deep_equal,
  operator_compare, operator_not_equal, operator_greater_than, operator_less_than,
  operator_greater_or_equal, operator_less_or_equal, operator_logical_and, operator_logical_or,
  operator_logical_xor, operator_not, operator_binary_not, operator_binary_or, operator_binary_xor,
  operator_left_shift, operator_right_shift, operator_assign, operator_add_assign,
  operator_subtract_assign, operator_multiply_assign, operator_divide_assign, operator_mod_assign,
  operator_bitwise_and_assign, operator_bitwise_or_assign, operator_bitwise_xor_assign,
  operator_left_shift_assign, operator_right_shift_assign, operator_logical_and_assign,
  operator_logical_or_assign, operator_question_mark, operator_cas, keyword_def, keyword_end,
  keyword_if, keyword_loop, keyword_for, keyword_structure, keyword_enumeration, keyword_union,
  keyword_switch, keyword_atomic, keyword_namespace, keyword_module, keyword_debug,
  annotation_access, annotation_volatile, annotation_alias, annotation_read, annotation_write,
  annotation_assert, annotation_sentinel, annotation_checked, annotation_null, annotation_success,
  annotation_global, annotation_thread, annotation_io, annotation_register, annotation_memory,
  annotation_flow, annotation_available, annotation_noreturn, annotation_common,
  annotation_uncommon, annotation_optimize, annotation_inline, annotation_prefetch, annotation_pure,
  annotation_throws, annotation_const, annotation_restrict, annotation_brief, annotation_summary,
  annotation_param, annotation_return,
}

-- `Token::NonPrecedence` and `Token::MinimumPrecedence`.
abbrev pub non_precedence : ℕ
non_precedence = 0

abbrev pub minimum_precedence : ℕ
minimum_precedence = 1

unfoldable pub precedence : TokenType → ℕ
precedence punctuation_open_bracket = 16
precedence operator_increment = 16
precedence operator_decrement = 16
precedence operator_dot = 16
precedence operator_arrow = 16
precedence operator_star = 15
precedence operator_mod = 15
precedence operator_divide = 15
precedence operator_plus = 14
precedence operator_minus = 14
precedence operator_left_shift = 13
precedence operator_right_shift = 13
precedence operator_less_than = 12
precedence operator_less_or_equal = 12
precedence operator_greater_than = 12
precedence operator_greater_or_equal = 12
precedence operator_equal = 11
precedence operator_not_equal = 11
precedence operator_ampersand = 10
precedence operator_binary_or = 9
precedence operator_logical_and = 8
precedence operator_logical_or = 7
precedence operator_question_mark = 6
precedence operator_cas = 6
precedence operator_assign = 5
precedence operator_add_assign = 5
precedence operator_subtract_assign = 5
precedence operator_multiply_assign = 5
precedence operator_divide_assign = 5
precedence operator_mod_assign = 5
precedence operator_bitwise_and_assign = 5
precedence operator_bitwise_or_assign = 5
precedence operator_bitwise_xor_assign = 5
precedence operator_left_shift_assign = 5
precedence operator_right_shift_assign = 5
precedence operator_logical_or_assign = 5
precedence operator_logical_and_assign = 5
precedence _ = non_precedence

unfoldable pub is_end : TokenType → Bool
unfolding type_eq
is_end t = type_eq t undefined || type_eq t end_of_input

unfoldable pub is_statement_ending : TokenType → Bool
unfolding is_end type_eq
is_statement_ending t = is_end t || type_eq t newline

unfoldable pub is_annotation : TokenType → Bool
is_annotation annotation_access = true
is_annotation annotation_volatile = true
is_annotation annotation_alias = true
is_annotation annotation_read = true
is_annotation annotation_write = true
is_annotation annotation_assert = true
is_annotation annotation_sentinel = true
is_annotation annotation_checked = true
is_annotation annotation_null = true
is_annotation annotation_success = true
is_annotation annotation_global = true
is_annotation annotation_thread = true
is_annotation annotation_io = true
is_annotation annotation_register = true
is_annotation annotation_memory = true
is_annotation annotation_flow = true
is_annotation annotation_available = true
is_annotation annotation_noreturn = true
is_annotation annotation_common = true
is_annotation annotation_uncommon = true
is_annotation annotation_optimize = true
is_annotation annotation_inline = true
is_annotation annotation_prefetch = true
is_annotation annotation_pure = true
is_annotation annotation_throws = true
is_annotation annotation_const = true
is_annotation annotation_restrict = true
is_annotation annotation_brief = true
is_annotation annotation_summary = true
is_annotation annotation_param = true
is_annotation annotation_return = true
is_annotation _ = false

unfoldable pub is_type_annotation : TokenType → Bool
is_type_annotation annotation_access = true
is_type_annotation annotation_volatile = true
is_type_annotation annotation_alias = true
is_type_annotation annotation_const = true
is_type_annotation annotation_restrict = true
is_type_annotation _ = false

unfoldable pub is_operator : TokenType → Bool
is_operator operator_scope = true
is_operator operator_star = true
is_operator operator_ampersand = true
is_operator operator_minus = true
is_operator operator_increment = true
is_operator operator_decrement = true
is_operator operator_plus = true
is_operator operator_divide = true
is_operator operator_mod = true
is_operator operator_dot = true
is_operator operator_arrow = true
is_operator operator_equal = true
is_operator operator_deep_equal = true
is_operator operator_compare = true
is_operator operator_not_equal = true
is_operator operator_greater_than = true
is_operator operator_less_than = true
is_operator operator_greater_or_equal = true
is_operator operator_less_or_equal = true
is_operator operator_logical_and = true
is_operator operator_logical_or = true
is_operator operator_logical_xor = true
is_operator operator_not = true
is_operator operator_binary_not = true
is_operator operator_binary_or = true
is_operator operator_binary_xor = true
is_operator operator_left_shift = true
is_operator operator_right_shift = true
is_operator operator_assign = true
is_operator operator_add_assign = true
is_operator operator_subtract_assign = true
is_operator operator_multiply_assign = true
is_operator operator_divide_assign = true
is_operator operator_mod_assign = true
is_operator operator_bitwise_and_assign = true
is_operator operator_bitwise_or_assign = true
is_operator operator_bitwise_xor_assign = true
is_operator operator_left_shift_assign = true
is_operator operator_right_shift_assign = true
is_operator operator_logical_and_assign = true
is_operator operator_logical_or_assign = true
is_operator operator_question_mark = true
is_operator operator_cas = true
is_operator _ = false

unfoldable pub is_unary_operator : TokenType → Bool
is_unary_operator operator_ampersand = true
is_unary_operator operator_star = true
is_unary_operator operator_minus = true
is_unary_operator operator_not = true
is_unary_operator operator_binary_not = true
is_unary_operator operator_increment = true
is_unary_operator operator_decrement = true
is_unary_operator _ = false

unfoldable pub is_ternary_operator : TokenType → Bool
is_ternary_operator operator_question_mark = true
is_ternary_operator operator_cas = true
is_ternary_operator _ = false

-- "easier to just check for right-associativity"
unfoldable pub is_left_associative : TokenType → Bool
is_left_associative operator_increment = false
is_left_associative operator_decrement = false
is_left_associative operator_minus = false
is_left_associative operator_not = false
is_left_associative operator_binary_not = false
is_left_associative operator_star = false
is_left_associative operator_ampersand = false
is_left_associative operator_assign = false
is_left_associative operator_add_assign = false
is_left_associative operator_subtract_assign = false
is_left_associative operator_multiply_assign = false
is_left_associative operator_divide_assign = false
is_left_associative operator_mod_assign = false
is_left_associative operator_bitwise_and_assign = false
is_left_associative operator_bitwise_or_assign = false
is_left_associative operator_bitwise_xor_assign = false
is_left_associative operator_left_shift_assign = false
is_left_associative operator_right_shift_assign = false
is_left_associative operator_logical_and_assign = false
is_left_associative operator_logical_or_assign = false
is_left_associative _ = true

unfoldable pub is_opening_span : TokenType → Bool
is_opening_span punctuation_open_brace = true
is_opening_span punctuation_open_paren = true
is_opening_span punctuation_open_bracket = true
is_opening_span keyword_def = true
is_opening_span keyword_if = true
is_opening_span keyword_loop = true
is_opening_span keyword_for = true
is_opening_span keyword_switch = true
is_opening_span keyword_atomic = true
is_opening_span keyword_namespace = true
is_opening_span keyword_module = true
is_opening_span keyword_structure = true
is_opening_span keyword_enumeration = true
is_opening_span keyword_union = true
is_opening_span keyword_debug = true
is_opening_span _ = false

unfoldable pub closing_counterpart : TokenType → TokenType
closing_counterpart punctuation_open_brace = punctuation_close_brace
closing_counterpart punctuation_open_paren = punctuation_close_paren
closing_counterpart punctuation_open_bracket = punctuation_close_bracket
closing_counterpart keyword_def = keyword_end
closing_counterpart keyword_if = keyword_end
closing_counterpart keyword_loop = keyword_end
closing_counterpart keyword_for = keyword_end
closing_counterpart keyword_switch = keyword_end
closing_counterpart keyword_atomic = keyword_end
closing_counterpart keyword_namespace = keyword_end
closing_counterpart keyword_module = keyword_end
closing_counterpart keyword_structure = keyword_end
closing_counterpart keyword_enumeration = keyword_end
closing_counterpart keyword_union = keyword_end
closing_counterpart keyword_debug = keyword_end
closing_counterpart _ = undefined

unfoldable pub might_be_closed_by_end_keyword : TokenType → Bool
unfolding closing_counterpart type_eq
might_be_closed_by_end_keyword t = type_eq (closing_counterpart t) keyword_end
