-- ===== src/Lexer/Calls.antt =====
-- The calls that `Lexer` makes on its `SubtokenLexer`, and the sequencing of such calls.
use three.Base.{◌≡◌, Bool, true, false, [], if◌then◌else◌, Bytes, bytes_eq, Outcome, ok, aborted}
use three.Base
use three.Token.Kind.{TokenType}
use three.Token.{Token}
use three.Subtoken.{Subtoken}
use three.SubtokenLexer.{SubtokenLexer, peek, next}

abbrev pub Call : Type 0 → Type 0
Call A = SubtokenLexer → Outcome (A × SubtokenLexer)

infixl 5 ◌>>=◌ ◌>>◌
abbrev pub ◌>>=◌ : {A B : Type 0} → Call A → (A → Call B) → Call B
◌>>=◌ m f l = Base.◌>>=◌ (m l) (λ (a, l'). f a l')

abbrev pub ◌>>◌ : {A B : Type 0} → Call A → Call B → Call B
m >> k = m >>= λ _. k

abbrev pub pure : {A : Type 0} → A → Call A
pure a l = ok (a, l)

abbrev pub fail : {A : Type 0} → Call A
fail l = aborted

unfoldable pub subtoken_peek : Call Subtoken
subtoken_peek = peek

unfoldable pub subtoken_advance : Call Subtoken
subtoken_advance = next

unfoldable pub subtoken_advance_if_equal : Bytes → Call Bool
subtoken_advance_if_equal value = do
  t ← subtoken_peek
  if bytes_eq t.str value then (subtoken_advance >> pure true) else pure false

-- `if (this->subtokenAdvanceIfEqual(value)) { … }`, and what follows it.
unfoldable pub if_next : {A : Type 0} → Bytes → Call A → Call A → Call A
if_next value matched rest = do b ← subtoken_advance_if_equal value; if b then matched else rest

-- `Token()` and `Token(type, value)`.
abbrev pub no_token : Token
no_token = record { type = TokenType.undefined; str = [] }

abbrev pub token : TokenType → Bytes → Call Token
token type value = pure (record { type = type; str = value })
