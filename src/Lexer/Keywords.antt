-- ===== src/Lexer/Keywords.antt =====
-- `_keywordMap` and `_annotationMap`, as the constructor of compiler/Lexer/Lexer.cpp fills them.
use three.Base.{List, [], ◌∷◌, Option, none, some, if◌then◌else◌, Bytes, codes, bytes_eq}
use three.Token.Kind.{TokenType}

abbrev pub keyword_map : List (Bytes × TokenType)
keyword_map =
    (codes "true", TokenType.literal_true)
    ∷ (codes "false", TokenType.literal_false)
    ∷ (codes "null", TokenType.literal_null)
    ∷ (codes "cas", TokenType.operator_cas)
    ∷ (codes "sizeof", TokenType.metafunction_size_of)
    ∷ (codes "cast", TokenType.metafunction_cast)
    ∷ (codes "cardinalityof", TokenType.metafunction_cardinalityof)
    ∷ (codes "alignof", TokenType.metafunction_alignof)
    ∷ (codes "offsetof", TokenType.metafunction_offsetof)
    ∷ (codes "abiof", TokenType.metafunction_abiof)
    ∷ (codes "typeof", TokenType.metafunction_typeof)
    ∷ (codes "nameof", TokenType.metafunction_nameof)
    ∷ (codes "nextarg", TokenType.metafunction_nextarg)
    ∷ (codes "containerof", TokenType.metafunction_containerof)
    ∷ (codes "def", TokenType.keyword_def)
    ∷ (codes "end", TokenType.keyword_end)
    ∷ (codes "return", TokenType.keyword_return)
    ∷ (codes "ensure", TokenType.keyword_ensure)
    ∷ (codes "if", TokenType.keyword_if)
    ∷ (codes "else", TokenType.keyword_else)
    ∷ (codes "unless", TokenType.keyword_unless)
    ∷ (codes "loop", TokenType.keyword_loop)
    ∷ (codes "for", TokenType.keyword_for)
    ∷ (codes "break", TokenType.keyword_break)
    ∷ (codes "continue", TokenType.keyword_continue)
    ∷ (codes "import", TokenType.keyword_import)
    ∷ (codes "do", TokenType.keyword_closure)
    ∷ (codes "transpose", TokenType.keyword_transpose_closure)
    ∷ (codes "struct", TokenType.keyword_structure)
    ∷ (codes "enum", TokenType.keyword_enumeration)
    ∷ (codes "union", TokenType.keyword_union)
    ∷ (codes "switch", TokenType.keyword_switch)
    ∷ (codes "case", TokenType.keyword_case)
    ∷ (codes "atomic", TokenType.keyword_atomic)
    ∷ (codes "barrier", TokenType.keyword_barrier)
    ∷ (codes "abort", TokenType.keyword_abort)
    ∷ (codes "Vararg", TokenType.keyword_vararg)
    ∷ (codes "public", TokenType.keyword_public)
    ∷ (codes "private", TokenType.keyword_private)
    ∷ (codes "namespace", TokenType.keyword_namespace)
    ∷ (codes "module", TokenType.keyword_module)
    ∷ (codes "include", TokenType.keyword_include)
    ∷ (codes "linkage", TokenType.keyword_linkage)
    ∷ (codes "abi", TokenType.keyword_abi)
    ∷ (codes "assert", TokenType.keyword_assert)
    ∷ (codes "debug", TokenType.keyword_debug)
    ∷ []

abbrev pub annotation_map : List (Bytes × TokenType)
annotation_map =
    (codes "access", TokenType.annotation_access)
    ∷ (codes "volatile", TokenType.annotation_volatile)
    ∷ (codes "alias", TokenType.annotation_alias)
    ∷ (codes "read", TokenType.annotation_read)
    ∷ (codes "write", TokenType.annotation_write)
    ∷ (codes "assert", TokenType.annotation_assert)
    ∷ (codes "sentinel", TokenType.annotation_sentinel)
    ∷ (codes "checked", TokenType.annotation_checked)
    ∷ (codes "null", TokenType.annotation_null)
    ∷ (codes "success", TokenType.annotation_success)
    ∷ (codes "global", TokenType.annotation_global)
    ∷ (codes "thread", TokenType.annotation_thread)
    ∷ (codes "io", TokenType.annotation_io)
    ∷ (codes "register", TokenType.annotation_register)
    ∷ (codes "memory", TokenType.annotation_memory)
    ∷ (codes "flow", TokenType.annotation_flow)
    ∷ (codes "available", TokenType.annotation_available)
    ∷ (codes "noreturn", TokenType.annotation_noreturn)
    ∷ (codes "common", TokenType.annotation_common)
    ∷ (codes "uncommon", TokenType.annotation_uncommon)
    ∷ (codes "optimize", TokenType.annotation_optimize)
    ∷ (codes "inline", TokenType.annotation_inline)
    ∷ (codes "prefetch", TokenType.annotation_prefetch)
    ∷ (codes "pure", TokenType.annotation_pure)
    ∷ (codes "throws", TokenType.annotation_throws)
    ∷ (codes "const", TokenType.annotation_const)
    ∷ (codes "restrict", TokenType.annotation_restrict)
    ∷ (codes "brief", TokenType.annotation_brief)
    ∷ (codes "summary", TokenType.annotation_summary)
    ∷ (codes "param", TokenType.annotation_param)
    ∷ (codes "return", TokenType.annotation_return)
    ∷ (codes "todo", TokenType.annotation_todo)
    ∷ (codes "sensitive", TokenType.annotation_sensitive)
    ∷ (codes "untrusted", TokenType.annotation_untrusted)
    ∷ []

-- `find` on a `std::map`.
unfoldable pub find_type : Bytes → List (Bytes × TokenType) → Option TokenType
unfolding bytes_eq
find_type word [] = none
find_type word ((key, type) ∷ map) = if bytes_eq key word then some type else find_type word map
