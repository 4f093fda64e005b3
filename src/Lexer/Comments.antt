-- ===== src/Lexer/Comments.antt =====
-- The loop of `Lexer::advance` over the comments.
use three.Base.{
  ℕ, zero, suc, ◌<◌, ◌≡◌, refl, ap, true, false, List, [], ◌∷◌, ◌++◌, Bool-cases, inl, inr, All,
  length, Outcome, ok, arith,
}
use three.Subtoken.{Subtoken, end_of_input}
use three.SubtokenLexer.{SubtokenLexer}
use three.SubtokenLexer.Feed.{Yields}
use three.Lexer.Advance.{is_comment, skip_comments}
use three.Lexer.Reading.{advance-Yields, peek-Yields, peek_at_end}

abbrev pub AllComments : List Subtoken → Type 0
AllComments = All (λ t. is_comment t.type ≡ true)

-- The subtoken that the loop over the comments ends with.
abbrev pub IsFront : List Subtoken → Subtoken → Type 0
IsFront [] t = t.type ≡ end_of_input
IsFront (u ∷ us) t = (t ≡ u) × (is_comment u.type ≡ false)

-- The call passes over comments and ends with the subtoken behind them.
pub record Skips (ts : List Subtoken) (r : Outcome (Subtoken × SubtokenLexer)) : Type 0 where
  pub found : Subtoken
  pub left : SubtokenLexer
  pub comments : List Subtoken
  pub behind : List Subtoken
  pub returns : r ≡ ok (found, left)
  pub takes : ts ≡ comments ++ behind
  pub all_comments : AllComments comments
  pub yields : Yields left behind
  pub front : IsFront behind found

Skips-cons :
    (u : Subtoken) (ts : List Subtoken) {r : Outcome (Subtoken × SubtokenLexer)}
    → is_comment u.type ≡ true
    → Skips ts r
    → Skips (u ∷ ts) r
Skips-cons u ts is s = record {
  found = s.found;
  left = s.left;
  comments = u ∷ s.comments;
  behind = s.behind;
  returns = s.returns;
  takes = ap (λ x. u ∷ x) s.takes;
  all_comments = (is, s.all_comments);
  yields = s.yields;
  front = s.front;
}

pub skip_comments-Skips :
    (f : ℕ) (l : SubtokenLexer) (ts : List Subtoken)
    → Yields l ts
    → length ts < f
    → Skips ts (skip_comments f l)
unfolding skip_comments
skip_comments-Skips zero l ts y h = absurd (omega arith)
skip_comments-Skips (suc f) l [] y h =
    let (t, l₁, seen, y₁, at_end, empty) = peek_at_end y in
    let last : is_comment t.type ≡ false = rw at_end (unfold is_comment in refl) in
    record {
      found = t;
      left = l₁;
      comments = [];
      behind = [];
      returns = rw seen (rw last);
      takes = refl;
      all_comments = tt;
      yields = y₁;
      front = at_end;
    }
skip_comments-Skips (suc f) l (u ∷ ts) y h =
    let (l₁, seen, y₁) = peek-Yields y in
    let (l₂, taken, y₂) = advance-Yields y₁ in
    elim (Bool-cases (is_comment u.type)) [
      | inl skipped ↦ rw seen (
          rw skipped
            (rw taken (Skips-cons u ts skipped (skip_comments-Skips f l₂ ts y₂ (omega arith)))))
      | inr kept ↦ record {
        found = u;
        left = l₁;
        comments = [];
        behind = u ∷ ts;
        returns = rw seen (rw kept);
        takes = refl;
        all_comments = tt;
        yields = y₁;
        front = (refl, kept);
      }
    ]
