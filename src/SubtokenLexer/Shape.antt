-- ===== src/SubtokenLexer/Shape.antt =====
-- What the text of each kind of subtoken looks like, while `advance` reads it and when it is
-- returned, and the effect of one round of the loop.
use three.Base.{
  ℕ, ◌<◌, ◌≡◌, ◌≢◌, refl, ap, ap₂, ◌⊎◌, inl, Bool, true, not, ◌||◌, [], ◌∷◌, ◌++◌, ◌==◌, Bytes,
  codes, All, length, length-append, arith,
}
use three.Subtoken.{
  SubtokenType, undefined, end_of_input, newline, word, number, string, character, punctuation,
  comment, whitespace, directive_switch, directive_case, directive_else, directive_end,
  directive_if, type_eq,
}
use three.SubtokenLexer.Scan.{
  is_punctuation, is_digit, Flow, again, leave, take, directive, normal_round, round,
}

-- The characters that end up in a word: those that no other `case` of the loop names.
unfoldable pub is_word_byte : ℕ → Bool
unfolding is_punctuation
is_word_byte c =
    not (is_punctuation c || c == b'\n' || c == b'#' || c == b'"' || c == b'\'' || c == b' ')

-- An opening quote, and what follows it up to the closing one.
abbrev pub IsOpen : ℕ → Bytes → Type 0
IsOpen q s = (body : Bytes) × (s ≡ q ∷ body) × All (λ c. c ≢ q) body

abbrev pub IsClosed : ℕ → Bytes → Type 0
IsClosed q s = (body : Bytes) × (s ≡ q ∷ (body ++ q ∷ [])) × All (λ c. c ≢ q) body

abbrev pub IsComment : Bytes → Type 0
IsComment s = (body : Bytes) × (s ≡ b'#' ∷ body) × All (λ c. c ≢ b'\n') body

-- The text of a finished subtoken. A string or a character may be cut off by the end of the input.
abbrev pub Shape : SubtokenType → Bytes → Type 0
Shape undefined s = s ≡ []
Shape end_of_input s = s ≡ []
Shape newline s = s ≡ codes "\n"
Shape word s = All (λ c. is_word_byte c ≡ true) s × (0 < length s)
Shape number s = All (λ c. is_digit c ≡ true) s × (0 < length s)
Shape string s = IsOpen b'"' s ⊎ IsClosed b'"' s
Shape character s = IsOpen b'\'' s ⊎ IsClosed b'\'' s
Shape punctuation s = (c : ℕ) × (s ≡ c ∷ []) × (is_punctuation c ≡ true)
Shape comment s = IsComment s
Shape whitespace s = All (λ c. c ≡ b' ') s × (0 < length s)
Shape directive_switch s = s ≡ codes "switch"
Shape directive_case s = s ≡ codes "case"
Shape directive_else s = s ≡ codes "else"
Shape directive_end s = s ≡ codes "end"
Shape directive_if s = s ≡ codes "if"

-- The text of a subtoken that the loop is still reading.
abbrev pub Partial : SubtokenType → Bytes → Type 0
Partial end_of_input s = s ≡ []
Partial word s = Shape word s
Partial number s = Shape number s
Partial string s = IsOpen b'"' s
Partial character s = IsOpen b'\'' s
Partial comment s = IsComment s
Partial whitespace s = Shape whitespace s
Partial _ s = ⊥

pub Partial-Shape : (t : SubtokenType) (s : Bytes) → Partial t s → Shape t s
Partial-Shape undefined s h = absurd h
Partial-Shape string s h = inl h
Partial-Shape character s h = inl h
Partial-Shape newline s h = absurd h
Partial-Shape punctuation s h = absurd h
Partial-Shape directive_switch s h = absurd h
Partial-Shape directive_case s h = absurd h
Partial-Shape directive_else s h = absurd h
Partial-Shape directive_end s h = absurd h
Partial-Shape directive_if s h = absurd h
Partial-Shape _ s h = h

-- The source text of a subtoken: `lexDirective` drops the leading `%`.
abbrev pub spelling_of : SubtokenType → Bytes → Bytes
spelling_of directive_switch s = b'%' ∷ s
spelling_of directive_case s = b'%' ∷ s
spelling_of directive_else s = b'%' ∷ s
spelling_of directive_end s = b'%' ∷ s
spelling_of directive_if s = b'%' ∷ s
spelling_of _ s = s

pub Partial-spelled : (t : SubtokenType) (s : Bytes) → Partial t s → s ≡ spelling_of t s
Partial-spelled directive_switch s h = absurd h
Partial-spelled directive_case s h = absurd h
Partial-spelled directive_else s h = absurd h
Partial-spelled directive_end s h = absurd h
Partial-spelled directive_if s h = absurd h
Partial-spelled _ s h = refl

pub Partial-moved : (t : SubtokenType) (s : Bytes) → Partial t s → t ≢ end_of_input → 0 < length s
Partial-moved end_of_input s h ne = absurd (ne refl)
Partial-moved word s h ne = h.1
Partial-moved number s h ne = h.1
Partial-moved whitespace s h ne = h.1
Partial-moved string s h ne = rw (h.1) (omega arith)
Partial-moved character s h ne = rw (h.1) (omega arith)
Partial-moved comment s h ne = rw (h.1) (omega arith)
Partial-moved _ s h ne = absurd h

All-concat {ℓ} : (P : ℕ → Type ℓ) (s : Bytes) (c : ℕ) → All P s → P c → All P (s ++ c ∷ [])
All-concat P [] c h p = (p, tt)
All-concat P (x ∷ s) c h p = (h.0, All-concat P s c h.1 p)

is_word_byte_of_digit : (c : ℕ) → is_digit c ≡ true → is_word_byte c ≡ true
unfolding is_word_byte is_digit
is_word_byte_of_digit c h = ground arith

All-is_word_byte : (s : Bytes) → All (λ c. is_digit c ≡ true) s → All (λ c. is_word_byte c ≡ true) s
All-is_word_byte [] h = tt
All-is_word_byte (c ∷ s) h = (is_word_byte_of_digit c h.0, All-is_word_byte s h.1)

-- What a round does to the text read so far, `s`, at the character `c`.
abbrev pub RoundIsOk : SubtokenType → Bytes → ℕ → Flow → Type 0
RoundIsOk type s c (again t s' pd) = (s' ≡ s ++ c ∷ []) × Partial t s' × (t ≢ end_of_input)
RoundIsOk type s c (leave pd) = Shape type s × (0 < length s)
RoundIsOk type s c (take t s' pd) =
    (s' ≡ s ++ c ∷ []) × Shape t s' × (t ≢ end_of_input) × (s' ≡ spelling_of t s')
RoundIsOk type s c directive = (s ≡ []) × (c ≡ b'%')

abbrev IsNormal : SubtokenType → Type 0
IsNormal end_of_input = Unit
IsNormal word = Unit
IsNormal number = Unit
IsNormal _ = ⊥

IsOpen-start : (q c : ℕ) → c ≡ q → IsOpen q (c ∷ [])
IsOpen-start q c e = ([], ap (λ x. x ∷ []) e, tt)

IsOpen-concat : (q : ℕ) (s : Bytes) (c : ℕ) → IsOpen q s → c ≢ q → IsOpen q (s ++ c ∷ [])
IsOpen-concat q s c (body, e, all) h =
    (body ++ c ∷ [], ap (λ x. x ++ c ∷ []) e, All-concat (λ x. x ≢ q) body c all h)

IsOpen-close : (q : ℕ) (s : Bytes) (c : ℕ) → IsOpen q s → c ≡ q → IsClosed q (s ++ c ∷ [])
IsOpen-close q s c (body, e, all) h = (body, ap₂ (λ x y. x ++ y ∷ []) e h, all)

IsComment-start : (c : ℕ) → c ≡ b'#' → IsComment (c ∷ [])
IsComment-start c e = ([], ap (λ x. x ∷ []) e, tt)

IsComment-concat : (s : Bytes) (c : ℕ) → IsComment s → c ≢ b'\n' → IsComment (s ++ c ∷ [])
IsComment-concat s c (body, e, all) h =
    (body ++ c ∷ [], ap (λ x. x ++ c ∷ []) e, All-concat (λ x. x ≢ b'\n') body c all h)

length-IsComment : (s : Bytes) → IsComment s → 0 < length s
length-IsComment s (body, e, all) = rw e (omega arith)

-- One section holds what every kind of round needs to know of the longer text.
module _ (pd : Bool) (s : Bytes) (c : ℕ) where
  word-concat : Shape word s → is_word_byte c ≡ true → Shape word (s ++ c ∷ [])
  word-concat h w = (All-concat _ s c h.0 w, omega (arith, length-append {0} s (c ∷ [])))

  number-concat : Shape number s → is_digit c ≡ true → Shape number (s ++ c ∷ [])
  number-concat h w = (All-concat _ s c h.0 w, omega (arith, length-append {0} s (c ∷ [])))

  whitespace-concat : Shape whitespace s → c ≡ b' ' → Shape whitespace (s ++ c ∷ [])
  whitespace-concat h w = (All-concat _ s c h.0 w, omega (arith, length-append {0} s (c ∷ [])))

  number-word : Shape number s → Shape word s
  number-word h = (All-is_word_byte s h.0, h.1)

  normal_round-word : Shape word s → RoundIsOk word s c (normal_round pd word s c)
  unfolding normal_round is_word_byte type_eq
  normal_round-word h = ground (arith, word-concat h, is_word_byte_of_digit c)

  normal_round-number : Shape number s → RoundIsOk number s c (normal_round pd number s c)
  unfolding normal_round is_word_byte type_eq
  normal_round-number h = ground (arith, word-concat (number-word h), number-concat h)

normal_round-end_of_input :
    (pd : Bool) (c : ℕ) → RoundIsOk end_of_input [] c (normal_round pd end_of_input [] c)
unfolding normal_round is_word_byte type_eq
normal_round-end_of_input pd c =
    ground (arith, IsOpen-start b'"' c, IsOpen-start b'\'' c, IsComment-start c)

pub round-RoundIsOk :
    (pd : Bool) (t : SubtokenType) (s : Bytes) (c : ℕ)
    → Partial t s
    → RoundIsOk t s c (round pd t s c)
unfolding round
round-RoundIsOk pd undefined s c h = absurd h
round-RoundIsOk pd end_of_input s c h = rw h (normal_round-end_of_input pd c)
round-RoundIsOk pd word s c h = normal_round-word pd s c h
round-RoundIsOk pd number s c h = normal_round-number pd s c h
round-RoundIsOk pd string s c h = ground (arith, IsOpen-close b'"' s c h, IsOpen-concat b'"' s c h)
round-RoundIsOk pd character s c h =
    ground (arith, IsOpen-close b'\'' s c h, IsOpen-concat b'\'' s c h)
round-RoundIsOk pd comment s c h = ground (arith, IsComment-concat s c h, length-IsComment s h)
round-RoundIsOk pd whitespace s c h = ground (arith, whitespace-concat pd s c h)
round-RoundIsOk pd newline s c h = absurd h
round-RoundIsOk pd punctuation s c h = absurd h
round-RoundIsOk pd directive_switch s c h = absurd h
round-RoundIsOk pd directive_case s c h = absurd h
round-RoundIsOk pd directive_else s c h = absurd h
round-RoundIsOk pd directive_end s c h = absurd h
round-RoundIsOk pd directive_if s c h = absurd h
