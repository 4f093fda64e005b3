-- ===== src/Token/Spans.antt =====
-- Tokens that open a span, and their closing counterparts.
use three.Base.{◌≡◌, refl, false, not}
use three.Token.Kind.{TokenType, type_eq}
use three.Token.Classes.{is_opening_span, closing_counterpart}

-- A token opens a span exactly when it has a closing counterpart, and what closes a span opens none
-- and has no counterpart of its own.
pub is_opening_span-closing_counterpart :
    (t : TokenType)
    → (is_opening_span t ≡ not (type_eq (closing_counterpart t) TokenType.undefined))
      × (is_opening_span (closing_counterpart t) ≡ false)
      × (closing_counterpart (closing_counterpart t) ≡ TokenType.undefined)
unfolding is_opening_span closing_counterpart type_eq
is_opening_span-closing_counterpart TokenType.undefined = (refl, refl, refl)
is_opening_span-closing_counterpart _ = (refl, refl, refl)
