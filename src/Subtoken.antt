-- ===== src/Subtoken.antt =====
-- `Subtoken` of compiler/Lexer/Subtoken.h and Subtoken.cpp.
use three.Base.{
  ℕ, ◌≡◌, refl, sym, ap, ◌∙◌, ◌↔◌, Bool, true, List, [], ◌∷◌, ◌==◌, ==_iff, get_or, Bytes,
}

pub data SubtokenType : Type 0 where
  undefined end_of_input newline word number string character : SubtokenType
  punctuation comment whitespace : SubtokenType
  directive_switch directive_case directive_else directive_end directive_if : SubtokenType

pub record Subtoken : Type 0 where
  pub type : SubtokenType
  pub str : Bytes

-- `Subtoken()`.
abbrev pub blank : Subtoken
blank = record { type = undefined; str = [] }

-- The value that the compiler gives each enumerator.
ordinal : SubtokenType → ℕ
ordinal undefined = 0
ordinal end_of_input = 1
ordinal newline = 2
ordinal word = 3
ordinal number = 4
ordinal string = 5
ordinal character = 6
ordinal punctuation = 7
ordinal comment = 8
ordinal whitespace = 9
ordinal directive_switch = 10
ordinal directive_case = 11
ordinal directive_else = 12
ordinal directive_end = 13
ordinal directive_if = 14

abbrev all_types : List SubtokenType
all_types =
    undefined ∷ end_of_input ∷ newline ∷ word ∷ number ∷ string ∷ character ∷ punctuation ∷ comment
    ∷ whitespace ∷ directive_switch ∷ directive_case ∷ directive_else ∷ directive_end ∷ directive_if
    ∷ []

of_ordinal-ordinal : (t : SubtokenType) → get_or all_types (ordinal t) undefined ≡ t
unfolding ordinal
of_ordinal-ordinal undefined = refl
of_ordinal-ordinal _ = refl

-- `==` on the enumeration.
unfoldable pub type_eq : SubtokenType → SubtokenType → Bool
unfolding ordinal
type_eq s t = ordinal s == ordinal t

pub type_eq_iff : (s t : SubtokenType) → (type_eq s t ≡ true) ↔ (s ≡ t)
unfolding type_eq
type_eq_iff s t = (
  λ h.
      sym (of_ordinal-ordinal s)
      ∙ ap (λ n. get_or all_types n undefined) ((==_iff _ _).0 h)
      ∙ of_ordinal-ordinal t,
  λ h. (==_iff _ _).1 (ap ordinal h),
)
