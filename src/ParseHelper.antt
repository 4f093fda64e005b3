-- ===== src/ParseHelper.antt =====
-- `ParseHelper` of compiler/Parser/ParseHelper.cpp. The lexer behind it is the list of the tokens that
-- its caller is to see; behind the last one, each token is the undefined one that `advance` then makes. A function that the
-- code passes in works on the tokens and on a state of its own.
use three.Base.{
  ℕ, zero, suc, Bool, true, false, not, List, [], ◌∷◌, if◌then◌else◌, Bytes, bytes_eq, get_or, drop,
  Outcome, ok, aborted, out_of_fuel, ◌>>=◌,
}
use three.Token.Kind.{TokenType, type_eq}
use three.Token.{Token}

abbrev pub Stream : Type 0
Stream = List Token

abbrev pub end_token : Token
end_token = record { type = TokenType.undefined; str = [] }

-- `peek(distance)`, from a distance of 1.
unfoldable pub peek : Stream → ℕ → Outcome Token
peek ts zero = aborted
peek ts (suc i) = ok (get_or ts i end_token)

-- The token in front, and its type.
abbrev pub front : Stream → Token
front [] = end_token
front (t ∷ ts) = t

abbrev pub front_type : Stream → TokenType
front_type ts = (front ts).type

-- What `next` leaves.
abbrev pub rest_of : Stream → Stream
rest_of ts = drop 1 ts

unfoldable pub next : Stream → Token × Stream
next ts = (front ts, rest_of ts)

abbrev pub is_at : TokenType → Stream → Bool
is_at type ts = type_eq (front_type ts) type

unfoldable pub next_if : TokenType → Stream → Bool × Stream
next_if type ts = if is_at type ts then (true, rest_of ts) else (false, ts)

unfoldable pub next_if_str : Bytes → Stream → Bool × Stream
unfolding bytes_eq
next_if_str value ts = if bytes_eq (front ts).str value then (true, rest_of ts) else (false, ts)

-- `peekUntil`: the distance at which the test fails first, at or behind the given one; `rounds` bounds
-- the loop.
unfoldable pub peek_until : ℕ → (Token → Bool) → ℕ → Stream → Outcome ℕ
unfolding peek
peek_until zero test distance ts = out_of_fuel
peek_until (suc rounds) test distance ts = do
  t ← peek ts distance
  let later = peek_until rounds test (suc distance) ts
  if test t then later else ok distance

unfoldable pub parse_newline : Stream → Bool × Stream
unfolding next_if
parse_newline ts = next_if TokenType.newline ts

-- The loop of `parseNewlines`.
unfoldable pub skip_newlines : Stream → Stream
unfolding type_eq
skip_newlines [] = []
skip_newlines (t ∷ ts) =
    let rest = skip_newlines ts in if type_eq t.type TokenType.newline then rest else t ∷ ts

unfoldable pub parse_newlines : Stream → Bool × Stream
unfolding parse_newline skip_newlines
parse_newlines ts =
    let (found, rest) = parse_newline ts in
    if not found then (false, ts) else (true, skip_newlines rest)

module _ {S : Type 0} where
  -- `parseUntil`; `rounds` bounds the loop.
  unfoldable pub parse_until :
      ℕ
      → Bool
      → (Token → S × Stream → Outcome (Bool × S × Stream))
      → S × Stream
      → Outcome (Bool × S × Stream)
  unfolding type_eq
  parse_until zero advance_on_stop func s = out_of_fuel
  parse_until (suc rounds) advance_on_stop func (s, ts) =
      let round = func (front ts) (s, ts) >>= λ (stop, s', ts').
      (let more = parse_until rounds advance_on_stop func (s', ts') in
        if stop then ok (true, s', if advance_on_stop then rest_of ts' else ts') else more) in
      if is_at TokenType.end_of_input ts then ok (false, s, ts) else round

  -- `parseUntilEnd`; the code makes 100000 rounds at most.
  unfoldable pub parse_until_end :
      ℕ → (S × Stream → Outcome (Bool × S × Stream)) → S × Stream → Outcome (Bool × S × Stream)
  unfolding skip_newlines
  parse_until_end zero func s = aborted
  parse_until_end (suc rounds) func (s, ts) =
      let ts' = skip_newlines ts in
      let round = func (s, ts') >>= λ (stop, s', ts'').
      (let more = parse_until_end rounds func (s', ts'') in
        if stop then ok (true, s', ts'') else more) in
      elim (front_type ts') [
        | TokenType.end_of_input ↦ ok (false, s, ts')
        | TokenType.undefined ↦ ok (false, s, ts')
        | TokenType.keyword_end ↦ ok (true, s, rest_of ts')
        | _ ↦ round
      ]

  unfoldable pub parse_matching_tokens :
      TokenType
      → TokenType
      → (S × Stream → Outcome (S × Stream))
      → S × Stream
      → Outcome (Bool × S × Stream)
  unfolding next_if
  parse_matching_tokens opening closing func (s, ts) =
      let (opened, ts') = next_if opening ts in
      let inside = (do
        (s', ts'') ← func (s, ts')
        let (closed, ts''') = next_if closing ts''
        ok (closed, s', ts''')) in
      if not opened then ok (false, s, ts) else inside
