-- ===== src/Tests/Tokens.antt =====
-- Runs of the token lexer on small inputs, and instances of the theorems on tokens and their buffer.
use three.Base.{
  ℕ, zero, suc, ◌≡◌, refl, Bool, true, false, not, ◌&&◌, ◌||◌, ◌==◌, List, [], ◌∷◌, codes, Outcome,
  ok, aborted, Bytes, ◌>>=◌, arith,
}
use three.Token.{Token}
use three.Token.Kind.{TokenType, type_eq}
use three.Token.Classes.{
  precedence, non_precedence, is_operator, is_unary_operator, is_ternary_operator,
  is_statement_ending, is_left_associative, is_opening_span, closing_counterpart,
}
use three.Token.Spans.{is_opening_span-closing_counterpart}
use three.Token.Precedence.{
  is_unplaced, is_assignment, precedence_operators, is_left_associative-is_unary_operator,
}
use three.Lexer.Keywords.{find_type}
use three.Lexer.Vocabulary.{keyword-injective}
use three.Subtoken.{Subtoken, punctuation}
use three.SubtokenLexer.{start}
use three.SubtokenLexer.Scan.{advance, is_punctuation}
use three.SubtokenLexer.Sequence.{Scans, stop, step}
use three.SubtokenLexer.Feed.{Yields, Yields-start}
use three.Lexer.Punctuation.{lex_punctuation}
use three.Lexer.Munch.{Munches}
use three.Lexer.Munch.Cases.{lex_punctuation-Munches}
use three.Lexer.Buffer
use three.Lexer.Buffer.{TokenBuffer}
use three.Lexer.Pending.Peek.{peek-Returns}
use three.Lexer.Pending.{Supplies, Pending, Returns, next-Returns}
use three.SubtokenLexer.Sequence.{Shape-Scans}
use three.Lexer.Advance.{advance_token}
use three.Lexer.Whole.{Advances, advance_token-Advances, Supply, Scans-Supply}
use three.Lexer.Lookahead.{Answers, next_if-Answers}
use three.Lexer.{Lexer, new, next}

-- The first `n` tokens.
abbrev tokens : ℕ → Lexer → Outcome (List Token)
tokens zero l = ok []
tokens (suc n) l = do (t, l') ← next l; ts ← tokens n l'; ok (t ∷ ts)

abbrev tok : TokenType → Bytes → Token
tok t s = record { type = t; str = s }

lexes :
    tokens 6 (new (codes "def a1 -> 0x1F ==# c\n"))
    ≡ ok (
        tok TokenType.keyword_def (codes "def")
        ∷ tok TokenType.identifier (codes "a1")
        ∷ tok TokenType.operator_arrow (codes "->")
        ∷ tok TokenType.literal_hex (codes "0x1F")
        ∷ tok TokenType.operator_equal (codes "==")
        ∷ tok TokenType.newline (codes "\n")
        ∷ [])
unfolding next
lexes = refl

is_opening_span-closing_counterpart_example :
    (is_opening_span TokenType.punctuation_open_paren
      ≡ not (type_eq (closing_counterpart TokenType.punctuation_open_paren) TokenType.undefined))
    × (is_opening_span (closing_counterpart TokenType.punctuation_open_paren) ≡ false)
    × (closing_counterpart (closing_counterpart TokenType.punctuation_open_paren)
        ≡ TokenType.undefined)
is_opening_span-closing_counterpart_example =
    is_opening_span-closing_counterpart TokenType.punctuation_open_paren

precedence_operators_example :
    ((is_operator TokenType.operator_compare
        && (precedence TokenType.operator_compare == non_precedence))
      ≡ is_unplaced TokenType.operator_compare)
    × ((not (is_operator TokenType.operator_compare)
          && not (precedence TokenType.operator_compare == non_precedence))
        ≡ type_eq TokenType.operator_compare TokenType.punctuation_open_bracket)
    × ((is_statement_ending TokenType.operator_compare && is_operator TokenType.operator_compare)
        ≡ false)
precedence_operators_example = precedence_operators TokenType.operator_compare

is_left_associative-is_unary_operator_example :
    (is_ternary_operator TokenType.operator_minus ≡ (precedence TokenType.operator_minus == 6))
    × (is_left_associative TokenType.operator_minus
        ≡ not
            (is_unary_operator TokenType.operator_minus || is_assignment TokenType.operator_minus))
is_left_associative-is_unary_operator_example =
    is_left_associative-is_unary_operator TokenType.operator_minus

keyword-injective_example : codes "def" ≡ codes "def"
keyword-injective_example =
    keyword-injective (codes "def") (codes "def") TokenType.keyword_def (unfold find_type in refl)
      (unfold find_type in refl)

-- The text `<=a`.
abbrev mark : Bytes → Subtoken
mark s = record { type = punctuation; str = s }

abbrev less_equal : List Subtoken
less_equal =
    mark (codes "<")
    ∷ mark (codes "=")
    ∷ record { type = three.Subtoken.word; str = codes "a" }
    ∷ []

less_equal-Scans : Scans true (codes "<=a") less_equal
unfolding advance
less_equal-Scans = step refl (λ e. cc) (step refl (λ e. cc) (step refl (λ e. cc) (stop refl refl)))

less_equal-Yields : Yields (start (codes "<=a")) less_equal
less_equal-Yields = Yields-start less_equal-Scans (λ e. cc, (λ e. cc, (λ e. cc, tt)))

lex_punctuation-Munches_example : Munches [] less_equal (lex_punctuation (start (codes "<=a")))
lex_punctuation-Munches_example =
    lex_punctuation-Munches (start (codes "<=a")) (mark (codes "<"))
      (mark (codes "=") ∷ record { type = three.Subtoken.word; str = codes "a" } ∷ []) b'<' refl
      (unfold is_punctuation in refl) (λ e. omega (arith, e)) less_equal-Yields

-- A source that is the list of its tokens.
abbrev read : List Token → Outcome (Token × List Token)
read [] = aborted
read (t ∷ ts) = ok (t, ts)

abbrev space : Token
space = tok TokenType.whitespace (codes " ")

abbrev name : Token
name = tok TokenType.identifier (codes "a")

abbrev window : TokenBuffer (List Token)
window = record { source = name ∷ []; tokens = space ∷ []; filter_whitespace = true }

window-Pending : Pending read [] window.source window.tokens (space ∷ name ∷ [])
window-Pending =
    three.Lexer.Pending.buffered
      (three.Lexer.Pending.supplied (three.Lexer.Pending.more refl three.Lexer.Pending.stop))

next-Returns_example : Returns read [] [] true name (Buffer.next read 3 window)
next-Returns_example =
    next-Returns read 3 window (space ∷ name ∷ []) name [] window-Pending
      (unfold Buffer.is_whitespace in refl) (omega arith)

peek-Returns_example : Returns read [] (space ∷ name ∷ []) true name (Buffer.peek read 4 1 window)
peek-Returns_example =
    peek-Returns read 4 0 window (space ∷ name ∷ []) name window-Pending
      (unfold Buffer.is_whitespace in refl) (omega arith)

abbrev is_name : Token → Bool
is_name t = type_eq t.type TokenType.identifier

next_if-Answers_example : Answers read [] [] true true (Buffer.next_if read 4 is_name window)
unfolding type_eq
next_if-Answers_example =
    next_if-Answers read 4 is_name window (space ∷ name ∷ []) name [] window-Pending
      (unfold Buffer.is_whitespace in refl) (omega arith)

advance_token-Advances_example : Advances less_equal (advance_token (start (codes "<=a")))
advance_token-Advances_example =
    advance_token-Advances (start (codes "<=a")) less_equal less_equal-Yields
      (Shape-Scans less_equal-Scans)

Scans-Supply_example : Supply (start (codes "<=a")) less_equal
Scans-Supply_example = Scans-Supply less_equal-Scans (λ e. cc, (λ e. cc, (λ e. cc, tt)))
