-- ===== src/Token/Kind.antt =====
-- `Token::Type` of compiler/Lexer/Token.h: the enumeration, and its constants' values.
use three.Base.{ℕ, ◌≡◌, refl, ◌↔◌, ap, sym, ◌∙◌, Bool, true, List, [], ◌∷◌, ◌==◌, ==_iff, get_or}

pub data TokenType : Type 0 where
  undefined end_of_input newline comment : TokenType
  whitespace identifier punctuation_open_brace punctuation_close_brace : TokenType
  punctuation_open_paren punctuation_close_paren punctuation_colon punctuation_comma : TokenType
  punctuation_semicolon punctuation_open_bracket punctuation_close_bracket literal_string :
      TokenType
  literal_integer literal_binary literal_hex literal_real : TokenType
  literal_scientific_notation literal_true literal_false literal_null : TokenType
  literal_character operator_scope operator_star operator_ampersand : TokenType
  operator_minus operator_increment operator_decrement operator_plus : TokenType
  operator_divide operator_mod operator_dot operator_arrow : TokenType
  operator_equal operator_deep_equal operator_compare operator_not_equal : TokenType
  operator_greater_than operator_less_than operator_greater_or_equal operator_less_or_equal :
      TokenType
  operator_logical_and operator_logical_or operator_logical_xor operator_not : TokenType
  operator_binary_not operator_binary_or operator_binary_xor operator_left_shift : TokenType
  operator_right_shift operator_assign operator_add_assign operator_subtract_assign : TokenType
  operator_multiply_assign operator_divide_assign operator_mod_assign operator_bitwise_and_assign :
      TokenType
  operator_bitwise_or_assign operator_bitwise_xor_assign operator_left_shift_assign
        operator_right_shift_assign :
      TokenType
  operator_logical_and_assign operator_logical_or_assign operator_question_mark operator_cas :
      TokenType
  metafunction_size_of metafunction_cast metafunction_alignof metafunction_offsetof : TokenType
  metafunction_typeof metafunction_abiof metafunction_nameof metafunction_cardinalityof : TokenType
  metafunction_nextarg metafunction_containerof keyword_def keyword_end : TokenType
  keyword_return keyword_ensure keyword_if keyword_else : TokenType
  keyword_unless keyword_loop keyword_for keyword_break : TokenType
  keyword_continue keyword_import keyword_closure keyword_transpose_closure : TokenType
  keyword_structure keyword_enumeration keyword_union keyword_switch : TokenType
  keyword_case keyword_atomic keyword_barrier keyword_abort : TokenType
  keyword_vararg keyword_public keyword_private keyword_namespace : TokenType
  keyword_module keyword_include keyword_linkage keyword_abi : TokenType
  keyword_assert keyword_debug annotation_access annotation_volatile : TokenType
  annotation_alias annotation_read annotation_write annotation_assert : TokenType
  annotation_sentinel annotation_checked annotation_null annotation_success : TokenType
  annotation_global annotation_thread annotation_io annotation_register : TokenType
  annotation_memory annotation_flow annotation_available annotation_noreturn : TokenType
  annotation_common annotation_uncommon annotation_optimize annotation_inline : TokenType
  annotation_prefetch annotation_sensitive annotation_untrusted annotation_pure : TokenType
  annotation_throws annotation_const annotation_restrict annotation_brief : TokenType
  annotation_summary annotation_param annotation_return annotation_todo : TokenType

-- The value that the compiler gives each enumerator.
unfoldable pub ordinal : TokenType → ℕ
ordinal undefined = 0
ordinal end_of_input = 1
ordinal newline = 2
ordinal comment = 3
ordinal whitespace = 4
ordinal identifier = 5
ordinal punctuation_open_brace = 6
ordinal punctuation_close_brace = 7
ordinal punctuation_open_paren = 8
ordinal punctuation_close_paren = 9
ordinal punctuation_colon = 10
ordinal punctuation_comma = 11
ordinal punctuation_semicolon = 12
ordinal punctuation_open_bracket = 13
ordinal punctuation_close_bracket = 14
ordinal literal_string = 15
ordinal literal_integer = 16
ordinal literal_binary = 17
ordinal literal_hex = 18
ordinal literal_real = 19
ordinal literal_scientific_notation = 20
ordinal literal_true = 21
ordinal literal_false = 22
ordinal literal_null = 23
ordinal literal_character = 24
ordinal operator_scope = 25
ordinal operator_star = 26
ordinal operator_ampersand = 27
ordinal operator_minus = 28
ordinal operator_increment = 29
ordinal operator_decrement = 30
ordinal operator_plus = 31
ordinal operator_divide = 32
ordinal operator_mod = 33
ordinal operator_dot = 34
ordinal operator_arrow = 35
ordinal operator_equal = 36
ordinal operator_deep_equal = 37
ordinal operator_compare = 38
ordinal operator_not_equal = 39
ordinal operator_greater_than = 40
ordinal operator_less_than = 41
ordinal operator_greater_or_equal = 42
ordinal operator_less_or_equal = 43
ordinal operator_logical_and = 44
ordinal operator_logical_or = 45
ordinal operator_logical_xor = 46
ordinal operator_not = 47
ordinal operator_binary_not = 48
ordinal operator_binary_or = 49
ordinal operator_binary_xor = 50
ordinal operator_left_shift = 51
ordinal operator_right_shift = 52
ordinal operator_assign = 53
ordinal operator_add_assign = 54
ordinal operator_subtract_assign = 55
ordinal operator_multiply_assign = 56
ordinal operator_divide_assign = 57
ordinal operator_mod_assign = 58
ordinal operator_bitwise_and_assign = 59
ordinal operator_bitwise_or_assign = 60
ordinal operator_bitwise_xor_assign = 61
ordinal operator_left_shift_assign = 62
ordinal operator_right_shift_assign = 63
ordinal operator_logical_and_assign = 64
ordinal operator_logical_or_assign = 65
ordinal operator_question_mark = 66
ordinal operator_cas = 67
ordinal metafunction_size_of = 68
ordinal metafunction_cast = 69
ordinal metafunction_alignof = 70
ordinal metafunction_offsetof = 71
ordinal metafunction_typeof = 72
ordinal metafunction_abiof = 73
ordinal metafunction_nameof = 74
ordinal metafunction_cardinalityof = 75
ordinal metafunction_nextarg = 76
ordinal metafunction_containerof = 77
ordinal keyword_def = 78
ordinal keyword_end = 79
ordinal keyword_return = 80
ordinal keyword_ensure = 81
ordinal keyword_if = 82
ordinal keyword_else = 83
ordinal keyword_unless = 84
ordinal keyword_loop = 85
ordinal keyword_for = 86
ordinal keyword_break = 87
ordinal keyword_continue = 88
ordinal keyword_import = 89
ordinal keyword_closure = 90
ordinal keyword_transpose_closure = 91
ordinal keyword_structure = 92
ordinal keyword_enumeration = 93
ordinal keyword_union = 94
ordinal keyword_switch = 95
ordinal keyword_case = 96
ordinal keyword_atomic = 97
ordinal keyword_barrier = 98
ordinal keyword_abort = 99
ordinal keyword_vararg = 100
ordinal keyword_public = 101
ordinal keyword_private = 102
ordinal keyword_namespace = 103
ordinal keyword_module = 104
ordinal keyword_include = 105
ordinal keyword_linkage = 106
ordinal keyword_abi = 107
ordinal keyword_assert = 108
ordinal keyword_debug = 109
ordinal annotation_access = 110
ordinal annotation_volatile = 111
ordinal annotation_alias = 112
ordinal annotation_read = 113
ordinal annotation_write = 114
ordinal annotation_assert = 115
ordinal annotation_sentinel = 116
ordinal annotation_checked = 117
ordinal annotation_null = 118
ordinal annotation_success = 119
ordinal annotation_global = 120
ordinal annotation_thread = 121
ordinal annotation_io = 122
ordinal annotation_register = 123
ordinal annotation_memory = 124
ordinal annotation_flow = 125
ordinal annotation_available = 126
ordinal annotation_noreturn = 127
ordinal annotation_common = 128
ordinal annotation_uncommon = 129
ordinal annotation_optimize = 130
ordinal annotation_inline = 131
ordinal annotation_prefetch = 132
ordinal annotation_sensitive = 133
ordinal annotation_untrusted = 134
ordinal annotation_pure = 135
ordinal annotation_throws = 136
ordinal annotation_const = 137
ordinal annotation_restrict = 138
ordinal annotation_brief = 139
ordinal annotation_summary = 140
ordinal annotation_param = 141
ordinal annotation_return = 142
ordinal annotation_todo = 143

-- The enumerators in their order, for the inverse of `ordinal`.
abbrev all_types : List TokenType
all_types =
    undefined ∷ end_of_input ∷ newline ∷ comment ∷ whitespace ∷ identifier ∷ punctuation_open_brace
    ∷ punctuation_close_brace ∷ punctuation_open_paren ∷ punctuation_close_paren ∷ punctuation_colon
    ∷ punctuation_comma ∷ punctuation_semicolon ∷ punctuation_open_bracket
    ∷ punctuation_close_bracket ∷ literal_string ∷ literal_integer ∷ literal_binary ∷ literal_hex
    ∷ literal_real ∷ literal_scientific_notation ∷ literal_true ∷ literal_false ∷ literal_null
    ∷ literal_character ∷ operator_scope ∷ operator_star ∷ operator_ampersand ∷ operator_minus
    ∷ operator_increment ∷ operator_decrement ∷ operator_plus ∷ operator_divide ∷ operator_mod
    ∷ operator_dot ∷ operator_arrow ∷ operator_equal ∷ operator_deep_equal ∷ operator_compare
    ∷ operator_not_equal ∷ operator_greater_than ∷ operator_less_than ∷ operator_greater_or_equal
    ∷ operator_less_or_equal ∷ operator_logical_and ∷ operator_logical_or ∷ operator_logical_xor
    ∷ operator_not ∷ operator_binary_not ∷ operator_binary_or ∷ operator_binary_xor
    ∷ operator_left_shift ∷ operator_right_shift ∷ operator_assign ∷ operator_add_assign
    ∷ operator_subtract_assign ∷ operator_multiply_assign ∷ operator_divide_assign
    ∷ operator_mod_assign ∷ operator_bitwise_and_assign ∷ operator_bitwise_or_assign
    ∷ operator_bitwise_xor_assign ∷ operator_left_shift_assign ∷ operator_right_shift_assign
    ∷ operator_logical_and_assign ∷ operator_logical_or_assign ∷ operator_question_mark
    ∷ operator_cas ∷ metafunction_size_of ∷ metafunction_cast ∷ metafunction_alignof
    ∷ metafunction_offsetof ∷ metafunction_typeof ∷ metafunction_abiof ∷ metafunction_nameof
    ∷ metafunction_cardinalityof ∷ metafunction_nextarg ∷ metafunction_containerof ∷ keyword_def
    ∷ keyword_end ∷ keyword_return ∷ keyword_ensure ∷ keyword_if ∷ keyword_else ∷ keyword_unless
    ∷ keyword_loop ∷ keyword_for ∷ keyword_break ∷ keyword_continue ∷ keyword_import
    ∷ keyword_closure ∷ keyword_transpose_closure ∷ keyword_structure ∷ keyword_enumeration
    ∷ keyword_union ∷ keyword_switch ∷ keyword_case ∷ keyword_atomic ∷ keyword_barrier
    ∷ keyword_abort ∷ keyword_vararg ∷ keyword_public ∷ keyword_private ∷ keyword_namespace
    ∷ keyword_module ∷ keyword_include ∷ keyword_linkage ∷ keyword_abi ∷ keyword_assert
    ∷ keyword_debug ∷ annotation_access ∷ annotation_volatile ∷ annotation_alias ∷ annotation_read
    ∷ annotation_write ∷ annotation_assert ∷ annotation_sentinel ∷ annotation_checked
    ∷ annotation_null ∷ annotation_success ∷ annotation_global ∷ annotation_thread ∷ annotation_io
    ∷ annotation_register ∷ annotation_memory ∷ annotation_flow ∷ annotation_available
    ∷ annotation_noreturn ∷ annotation_common ∷ annotation_uncommon ∷ annotation_optimize
    ∷ annotation_inline ∷ annotation_prefetch ∷ annotation_sensitive ∷ annotation_untrusted
    ∷ annotation_pure ∷ annotation_throws ∷ annotation_const ∷ annotation_restrict
    ∷ annotation_brief ∷ annotation_summary ∷ annotation_param ∷ annotation_return ∷ annotation_todo
    ∷ []

of_ordinal-ordinal : (t : TokenType) → get_or all_types (ordinal t) undefined ≡ t
unfolding ordinal
of_ordinal-ordinal undefined = refl
of_ordinal-ordinal _ = refl

pub ordinal-injective : (s t : TokenType) → ordinal s ≡ ordinal t → s ≡ t
ordinal-injective s t h =
    sym (of_ordinal-ordinal s) ∙ ap (λ n. get_or all_types n undefined) h ∙ of_ordinal-ordinal t

-- `==` on the enumeration.
unfoldable pub type_eq : TokenType → TokenType → Bool
unfolding ordinal
type_eq s t = ordinal s == ordinal t

pub type_eq_iff : (s t : TokenType) → (type_eq s t ≡ true) ↔ (s ≡ t)
unfolding type_eq
type_eq_iff s t =
    (λ h. ordinal-injective s t ((==_iff _ _).0 h), λ h. (==_iff _ _).1 (ap ordinal h))
