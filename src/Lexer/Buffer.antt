-- ===== src/Lexer/Buffer.antt =====
-- The token buffer of `Lexer`: `next`, `nextIf`, `peek` and `atEnd` of compiler/Lexer/Lexer.cpp, over
-- the state of a source of tokens and the function that reads one token from it.
use three.Base.{
  ℕ, zero, suc, ◌+◌, ◌-◌, Bool, true, false, not, ◌||◌, List, [], ◌∷◌, ◌++◌, none, some, get_elem?,
  if◌then◌else◌, leb, Bytes, bytes_eq, length, Outcome, ok, aborted, out_of_fuel, ◌>>=◌,
}
use three.Token.Kind.{TokenType, type_eq}
use three.Token.{Token}

-- `_tokenBuffer`, `_filterWhitespace`, and the state behind `advance`.
pub record TokenBuffer (S : Type 0) : Type 0 where
  pub source : S
  pub tokens : List Token
  pub filter_whitespace : Bool

-- `setFilterWhitespace`.
abbrev pub set_filter_whitespace : {S : Type 0} → TokenBuffer S → Bool → TokenBuffer S
set_filter_whitespace b value = record b { filter_whitespace = value }

unfoldable pub is_whitespace : Token → Bool
unfolding type_eq
is_whitespace t = type_eq t.type TokenType.whitespace

module _ {S : Type 0} (advance : S → Outcome (Token × S)) where
  -- `_tokenBuffer.push_back(this->advance())`.
  unfoldable pub push : TokenBuffer S → Outcome (TokenBuffer S)
  push b = do (t, s) ← advance b.source; ok (record b { source = s; tokens = b.tokens ++ t ∷ [] })

  -- The front of a buffer that is not empty, and the buffer without it.
  unfoldable pub pop : TokenBuffer S → List Token → Outcome (Token × TokenBuffer S)
  pop b [] = aborted
  pop b (t ∷ ts) = ok (t, record b { tokens = ts })

  -- Read a token if the buffer is empty, and take the front.
  unfoldable pub take_front : TokenBuffer S → Outcome (Token × TokenBuffer S)
  unfolding push pop
  take_front b = do c ← elim b.tokens [ [] ↦ push b | _ ∷ _ ↦ ok b ]; pop c c.tokens

  -- The loop of `next` that skips whitespace.
  unfoldable pub next_significant : ℕ → TokenBuffer S → Outcome (Token × TokenBuffer S)
  unfolding take_front is_whitespace
  next_significant zero b = out_of_fuel
  next_significant (suc f) b = do
    (t, c) ← take_front b
    let rest = next_significant f c
    if is_whitespace t then rest else ok (t, c)

  unfoldable pub next : ℕ → TokenBuffer S → Outcome (Token × TokenBuffer S)
  unfolding next_significant
  next f b = if not b.filter_whitespace then take_front b else next_significant f b

  -- `for (int i = (distance - size); i > 0; --i)`.
  unfoldable pub push_times : ℕ → TokenBuffer S → Outcome (TokenBuffer S)
  unfolding push
  push_times zero b = ok b
  push_times (suc n) b = do c ← push b; push_times n c

  -- `_tokenBuffer.at(index)`, which throws out of range.
  unfoldable pub token_at : TokenBuffer S → ℕ → Outcome (Token × TokenBuffer S)
  token_at b index = elim (get_elem? b.tokens index) [ some t ↦ ok (t, b) | none ↦ aborted ]

  -- The `while` loop of `peek`: `index` walks over the buffer, which grows on demand.
  unfoldable pub peek_loop : ℕ → ℕ → ℕ → TokenBuffer S → Outcome (Token × TokenBuffer S)
  unfolding push token_at is_whitespace
  peek_loop zero index distance b = out_of_fuel
  peek_loop (suc f) index zero b = token_at b (index - 1)
  peek_loop (suc f) index (suc distance) b = do
    c ← if leb (length b.tokens) index then push b else ok b
    (t, d) ← token_at c index
    let rest = peek_loop f (index + 1) (if is_whitespace t then suc distance else distance) d
    rest

  -- `assert(distance > 0)` first.
  unfoldable pub peek : ℕ → ℕ → TokenBuffer S → Outcome (Token × TokenBuffer S)
  unfolding push_times token_at peek_loop
  peek f zero b = aborted
  peek f (suc n) b =
      if not b.filter_whitespace
      then (do c ← push_times (suc n - length b.tokens) b; token_at c n)
      else peek_loop f 0 (suc n) b

  -- `nextIf(value)` and `nextIf(type)`.
  unfoldable pub next_if : ℕ → (Token → Bool) → TokenBuffer S → Outcome (Bool × TokenBuffer S)
  unfolding peek next
  next_if f test b = do
    (t, c) ← peek f 1 b
    let taken = (do (u, d) ← next f c; ok (true, d))
    if test t then taken else ok (false, c)

  unfoldable pub next_if_str : ℕ → Bytes → TokenBuffer S → Outcome (Bool × TokenBuffer S)
  unfolding next_if bytes_eq
  next_if_str f value = next_if f (λ t. bytes_eq t.str value)

  unfoldable pub next_if_type : ℕ → TokenType → TokenBuffer S → Outcome (Bool × TokenBuffer S)
  unfolding next_if type_eq
  next_if_type f type = next_if f (λ t. type_eq t.type type)

  unfoldable pub at_end : ℕ → TokenBuffer S → Outcome (Bool × TokenBuffer S)
  unfolding peek type_eq
  at_end f b = do
    (t, c) ← peek f 1 b
    ok (type_eq t.type TokenType.end_of_input || type_eq t.type TokenType.undefined, c)
