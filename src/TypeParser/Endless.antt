-- ===== src/TypeParser/Endless.antt =====
-- An annotation without its argument: the loop over the prefixes of a type never ends.
use three.Base.{
  ℕ, zero, suc, ◌≡◌, refl, Bool, true, false, none, ◌⊎◌, inl, inr, ok, out_of_fuel, arith,
}
use three.Token.Kind.{TokenType, type_eq}
use three.ParseContext.{ParseContext}
use three.ParseHelper.{Stream, front_type, rest_of}
use three.TypeParser.{
  annotation_argument, annotation_round, peek_type_annotations, is_prefix_annotation, prefix_round,
  Step, peek_type_prefixes, peek_type,
}

-- The annotations that want an argument.
abbrev pub wants_argument : TokenType → Bool
wants_argument TokenType.annotation_access = true
wants_argument TokenType.annotation_alias = true
wants_argument _ = false

wants-cases :
    (k : TokenType)
    → wants_argument k ≡ true
    → (k ≡ TokenType.annotation_access) ⊎ (k ≡ TokenType.annotation_alias)
wants-cases k h = ground arith

annotation_stays :
    (ts : Stream)
    → wants_argument (front_type ts) ≡ true
    → annotation_argument (rest_of ts) ≡ none
    → annotation_round ts ≡ none
unfolding annotation_round
annotation_stays ts h e = elim (wants-cases (front_type ts) h) [
  | inl access ↦ rw (access, annotation_round) e
  | inr alias ↦ rw (alias, annotation_round) e
]

annotations_stay :
    (limit : ℕ) (ts : Stream)
    → annotation_round ts ≡ none
    → peek_type_annotations (suc limit) ts ≡ ok ts
unfolding peek_type_annotations
annotations_stay limit ts e = rw (e, peek_type_annotations) refl

stays :
    (limit : ℕ) (ts : Stream)
    → wants_argument (front_type ts) ≡ true
    → peek_type_annotations limit ts ≡ ok ts
    → prefix_round limit ts ≡ ok (Step.goes_on ts)
unfolding prefix_round is_prefix_annotation type_eq
stays limit ts h e = elim (wants-cases (front_type ts) h) [
  | inl access ↦ rw (access, prefix_round) (rw e refl)
  | inr alias ↦ rw (alias, prefix_round) (rw e refl)
]

prefixes_endless :
    (limit rounds : ℕ) (ts : Stream)
    → prefix_round limit ts ≡ ok (Step.goes_on ts)
    → peek_type_prefixes limit rounds ts ≡ out_of_fuel
unfolding peek_type_prefixes
prefixes_endless limit zero ts e = refl
prefixes_endless limit (suc rounds) ts e = rw e (prefixes_endless limit rounds ts e)

-- Where `@access` or `@alias` stands at the front of a type without an argument in parentheses, no
-- number of rounds is enough to look ahead for the type.
pub peek_type-endless :
    (f : ℕ) (c : ParseContext) (ts : Stream)
    → wants_argument (front_type ts) ≡ true
    → annotation_argument (rest_of ts) ≡ none
    → peek_type f c ts ≡ out_of_fuel
unfolding peek_type
peek_type-endless zero c ts h e = refl
peek_type-endless (suc f) c ts h e =
    rw
      (prefixes_endless (suc f) (suc f) ts
        (stays (suc f) ts h (annotations_stay f ts (annotation_stays ts h e))))
      refl
