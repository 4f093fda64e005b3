-- ===== src/SubtokenLexer/Scan.antt =====
-- `SubtokenLexer::characterPeek`, `advance` and `lexDirective` of compiler/Lexer/SubtokenLexer.cpp.
use three.Base.{
  ℕ, Bool, true, false, not, ◌&&◌, ◌||◌, [], ◌∷◌, ◌++◌, Option, none, some, leb, ◌==◌,
  if◌then◌else◌, Bytes, codes, bytes_eq, byte_mem, Outcome, ok, aborted,
}
use three.Subtoken.{
  SubtokenType, Subtoken, end_of_input, newline, word, number, string, character, punctuation,
  comment, whitespace, directive_switch, directive_case, directive_else, directive_end,
  directive_if, blank, type_eq,
}

-- The end of the stream reads as -1, and so does the byte 255 through a signed `char`.
unfoldable pub character_peek : Bytes → Option ℕ
character_peek [] = none
character_peek (c ∷ cs) = if c == 255 then none else some c

-- `assert(c > 0)`, on a signed `char`.
unfoldable pub is_positive : ℕ → Bool
is_positive c = leb 1 c && leb c 127

-- The `case` labels that make a subtoken of one character.
unfoldable pub is_punctuation : ℕ → Bool
unfolding byte_mem
is_punctuation c = byte_mem c (codes "/*-+!=|><&@^.[]{}~(),;:?%")

unfoldable pub is_digit : ℕ → Bool
is_digit c = leb b'0' c && leb c b'9'

-- How one round of the loop in `advance` ends: it goes round again, it returns and leaves the
-- character in the stream, it returns after reading it, or it goes on in `lexDirective`. Each case
-- carries the new `_potentialDirective`.
pub data Flow : Type 0 where
  again : SubtokenType → Bytes → Bool → Flow
  leave : Bool → Flow
  take : SubtokenType → Bytes → Bool → Flow
  directive : Flow

-- The `switch (c)` of the loop.
unfoldable pub normal_round : Bool → SubtokenType → Bytes → ℕ → Flow
unfolding type_eq
normal_round pd type s c =
    let fresh = type_eq type end_of_input in
    let span = λ (t : SubtokenType). if fresh then again t (s ++ c ∷ []) false else leave false in
    if c == b'\n'
    then (if fresh then take newline (codes "\n") true else leave pd)
    else if is_punctuation c
    then (if not fresh
        then leave pd
        else if c == b'%' && pd
        then directive
        else take punctuation (s ++ c ∷ []) false)
    else if c == b'#'
    then span comment
    else if c == b'"'
    then span string
    else if c == b'\''
    then span character
    else if c == b' '
    then span whitespace
    else if is_digit c
    then (let t = if fresh then number else type in
        if type_eq t number || type_eq t word then again t (s ++ c ∷ []) false else leave false)
    else again word (s ++ c ∷ []) false

-- The `switch (type)` of the loop: spans take every character up to their end.
unfoldable pub round : Bool → SubtokenType → Bytes → ℕ → Flow
unfolding normal_round
round pd comment s c = if c == b'\n' then leave pd else again comment (s ++ c ∷ []) pd
round pd string s c =
    if c == b'"' then take string (s ++ c ∷ []) pd else again string (s ++ c ∷ []) pd
round pd character s c =
    if c == b'\'' then take character (s ++ c ∷ []) pd else again character (s ++ c ∷ []) pd
round pd whitespace s c = if not (c == b' ') then leave pd else again whitespace (s ++ c ∷ []) pd
round pd type s c = normal_round pd type s c

-- The loop of `lexDirective`: the word up to a newline or a space, and the stream behind it.
unfoldable pub directive_word : Bytes → Bytes → Bytes × Bytes
directive_word s [] = (s, [])
directive_word s (c ∷ cs) =
    if c == 255 || (c == b'\n' || c == b' ') then (s, c ∷ cs) else directive_word (s ++ c ∷ []) cs

unfoldable pub directive_of : Bytes → Subtoken
unfolding bytes_eq
directive_of str =
    if bytes_eq str (codes "end")
    then record { type = directive_end; str = str }
    else if bytes_eq str (codes "if")
    then record { type = directive_if; str = str }
    else if bytes_eq str (codes "else")
    then record { type = directive_else; str = str }
    else if bytes_eq str (codes "switch")
    then record { type = directive_switch; str = str }
    else if bytes_eq str (codes "case")
    then record { type = directive_case; str = str }
    else blank

unfoldable pub lex_directive : Bytes → Subtoken × Bytes
unfolding directive_word directive_of
lex_directive stream = let (str, rest) = directive_word [] stream in (directive_of str, rest)

-- The loop, from a type and the text read so far. It returns the subtoken, the new
-- `_potentialDirective` and the stream.
unfoldable pub scan : Bool → SubtokenType → Bytes → Bytes → Outcome (Subtoken × Bool × Bytes)
scan pd type s [] = ok (record { type = type; str = s }, pd, [])
scan pd type s (c ∷ cs) = elim (character_peek (c ∷ cs)) [
  | none ↦ ok (record { type = type; str = s }, pd, c ∷ cs)
  | some x ↦ elim (is_positive x) [
    | false ↦ aborted
    | true ↦ elim (round pd type s x) [
      | again t s' pd' ↦ scan pd' t s' cs
      | leave pd' ↦ ok (record { type = type; str = s }, pd', c ∷ cs)
      | take t s' pd' ↦ ok (record { type = t; str = s' }, pd', cs)
      | directive ↦ let (t, rest) = lex_directive cs in ok (t, false, rest)
    ]
  ]
]

unfoldable pub advance : Bool → Bytes → Outcome (Subtoken × Bool × Bytes)
unfolding scan character_peek is_positive round lex_directive is_punctuation is_digit
advance pd stream = scan pd end_of_input [] stream
