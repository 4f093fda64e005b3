-- ===== src/Lexer/Whole.antt =====
-- All the tokens of an input: repeated calls of `Lexer::advance` read the subtokens to their end.
use three.Base.{
  ℕ, zero, suc, ◌≤◌, ◌<◌, ◌≡◌, ◌≢◌, refl, sym, ◌∙◌, ap, subst, true, List, [], ◌∷◌, ◌++◌, inl, inr,
  ◌⊎◌, All, All-append_right, length, length-append, Bytes, Outcome, ok, arith,
}
use three.Token.Kind.{TokenType}
use three.Token.{Token}
use three.Subtoken.{Subtoken}
use three.SubtokenLexer.{SubtokenLexer, start}
use three.SubtokenLexer.Shape.{Shape}
use three.SubtokenLexer.Sequence.{Scans, IsKnown, Shape-Scans}
use three.SubtokenLexer.Feed.{Yields, ends, gives, Yields-start}
use three.Preprocessor.Expansion.{texts}
use three.Lexer.Advance.{lex_subtoken, advance_token}
use three.Lexer.Pending.{Supplies, stop, more}
use three.Lexer.Reading.{Reads, IsStuck}
use three.Lexer.Reading.Total.{lex_subtoken-Reads, left-Reads}
use three.Lexer.Comments.{AllComments, IsFront, skip_comments-Skips}

length-Yields :
    {l : SubtokenLexer} {ts : List Subtoken} → Yields l ts → length ts ≤ suc (length l.stream)
length-Yields (ends p q n m at_end empty) = omega arith
length-Yields (gives p q n m ne kt b₁ b₂ later) = omega arith

-- Comments, and behind them what the call reads.
pub record Advances (ts : List Subtoken) (r : Outcome (Token × SubtokenLexer)) : Type 0 where
  pub comments : List Subtoken
  pub behind : List Subtoken
  pub takes : ts ≡ comments ++ behind
  pub all_comments : AllComments comments
  pub reading : Reads behind r

abbrev pub AllShaped : List Subtoken → Type 0
AllShaped = All (λ t. Shape t.type t.str)

lex_found :
    (l : SubtokenLexer) (t : Subtoken) (us : List Subtoken)
    → IsFront us t
    → AllShaped us
    → Yields l us
    → Reads us (lex_subtoken t t.type l)
unfolding lex_subtoken
lex_found l t [] front shaped y =
    subst (λ x. Reads [] (lex_subtoken t x l)) (sym front) (left-Reads l [] tt y)
lex_found l t (u ∷ us) (same, kept) shaped y =
    rw same (lex_subtoken-Reads u.type l u us refl kept shaped.0 y)

-- Where a lexer is to hand on the known subtokens `ts`, each with the text that its type asks for,
-- `advance` returns a token: it passes over the comments, and the token, if it is not undefined, has
-- the text of the subtokens behind them that it takes; it takes none only at the end of the input or
-- at a directive, and the token is undefined then.
pub advance_token-Advances :
    (l : SubtokenLexer) (ts : List Subtoken)
    → Yields l ts
    → AllShaped ts
    → Advances ts (advance_token l)
unfolding advance_token
advance_token-Advances l ts y shaped =
    let s =
      skip_comments-Skips (suc (suc (length l.stream))) l ts y (omega (arith, length-Yields y)) in
    let shaped' = All-append_right _ s.comments s.behind (subst AllShaped s.takes shaped) in
    record {
      comments = s.comments;
      behind = s.behind;
      takes = s.takes;
      all_comments = s.all_comments;
      reading = rw s.returns (lex_found s.left s.found s.behind s.front shaped' s.yields);
    }

-- The tokens of a list of subtokens: each stands for subtokens that follow some comments, and has
-- their text unless it is undefined; they stop at the end or at a directive.
pub data Lexed : List Subtoken → List Token → Type 0 where
  stops :
      (comments rest : List Subtoken)
      → AllComments comments
      → IsStuck rest
      → Lexed (comments ++ rest) []
  reads :
      (comments used rest : List Subtoken) (t : Token) (ts : List Token)
      → AllComments comments
      → used ≢ []
      → (t.type ≢ TokenType.undefined → t.str ≡ texts used)
      → Lexed rest ts
      → Lexed (comments ++ (used ++ rest)) (t ∷ ts)

-- The state `last` is behind the tokens: `advance` returns an undefined token there.
pub record Supply (l : SubtokenLexer) (ts : List Subtoken) : Type 0 where
  pub tokens : List Token
  pub last : SubtokenLexer
  pub supplies : Supplies advance_token last l tokens
  pub lexed : Lexed ts tokens
  pub fewer : length tokens ≤ length ts
  pub ended :
      (t : Token) × (l' : SubtokenLexer) × (advance_token last ≡ ok (t, l'))
      × (t.type ≡ TokenType.undefined)

cons_of_pos : (us : List Subtoken) → (us ≡ []) ⊎ (0 < length us)
cons_of_pos [] = inl refl
cons_of_pos (u ∷ us) = inr (omega arith)

Supply-below :
    (n : ℕ) (l : SubtokenLexer) (ts : List Subtoken)
    → Yields l ts
    → AllShaped ts
    → length ts < n
    → Supply l ts
Supply-below zero l ts y shaped h = absurd (omega arith)
Supply-below (suc n) l ts y shaped h =
    let a = advance_token-Advances l ts y shaped in
    let r = a.reading in
    elim (cons_of_pos r.used) [
      | inl none_used ↦
          let (untyped, stuck) = r.stuck none_used in
          let bare : a.behind ≡ r.rest = r.takes ∙ ap (λ x. x ++ r.rest) none_used in
          record {
            tokens = [];
            last = l;
            supplies = stop;
            lexed =
                subst (λ x. Lexed x []) (sym (a.takes ∙ ap (λ x. a.comments ++ x) bare))
                  (stops a.comments r.rest a.all_comments stuck);
            fewer = omega arith;
            ended = (r.result, r.left, r.returns, untyped);
          }
      | inr some_used ↦
          let counts = length-append a.comments a.behind in
          let counts' = length-append r.used r.rest in
          let whole = a.takes ∙ ap (λ x. a.comments ++ x) r.takes in
          let e₁ = ap (length {0}) a.takes in
          let e₂ = ap (length {0}) r.takes in
          let shaped' = All-append_right _ r.used r.rest (
            subst AllShaped r.takes
              (All-append_right _ a.comments a.behind (subst AllShaped a.takes shaped))) in
          let s = Supply-below n r.left r.rest r.yields shaped' (omega arith) in
          record {
            tokens = r.result ∷ s.tokens;
            last = s.last;
            supplies = more r.returns s.supplies;
            lexed =
                subst (λ x. Lexed x (r.result ∷ s.tokens)) (sym whole)
                  (reads a.comments r.used r.rest r.result s.tokens a.all_comments
                    (λ e. omega (arith, some_used, ap (length {0}) e)) r.text s.lexed);
            fewer = omega (arith, s.fewer);
            ended = s.ended;
          }
    ]

-- For an input whose subtokens are all known, repeated calls of `advance` on a fresh lexer supply
-- tokens by which the subtokens are `Lexed`, at most as many as there are subtokens, and then
-- an undefined token.
pub Scans-Supply :
    {input : Bytes} {ts : List Subtoken}
    → Scans true input ts
    → IsKnown ts
    → Supply (start input) ts
Scans-Supply {input} {ts} scans known =
    Supply-below (suc (length ts)) (start input) ts (Yields-start scans known) (Shape-Scans scans)
      (omega arith)
