-- ===== src/SubtokenLexer/Sequence.antt =====
-- All the subtokens of an input: what repeated calls of `advance` read, and what `peek` and `next`
-- hand on.
use three.Base.{
  ℕ, zero, suc, ◌<◌, ◌≡◌, ◌≢◌, refl, ap, ap₂, none, Bool, true, List, [], ◌∷◌, ◌++◌, Bytes, All,
  All-append_right, length, length-append, ok, arith, inl, inr, Bool-cases, sym, ◌∙◌,
}
use three.Subtoken.{Subtoken, undefined, end_of_input, type_eq, type_eq_iff}
use three.SubtokenLexer.Scan.{advance, character_peek, is_positive}
use three.SubtokenLexer.Shape.{Shape}
use three.SubtokenLexer.Splits.{Splits, IsText, spelling, advance-Splits, advance_total}

-- The subtokens in front of the end of the input.
pub data Scans : Bool → Bytes → List Subtoken → Type 0 where
  stop :
      {pd pd' : Bool} {stream rest : Bytes} {t : Subtoken}
      → advance pd stream ≡ ok (t, pd', rest)
      → t.type ≡ end_of_input
      → Scans pd stream []
  step :
      {pd pd' : Bool} {stream rest : Bytes} {t : Subtoken} {ts : List Subtoken}
      → advance pd stream ≡ ok (t, pd', rest)
      → t.type ≢ end_of_input
      → Scans pd' rest ts
      → Scans pd stream (t ∷ ts)

-- The source text of a list of subtokens.
abbrev pub spell : List Subtoken → Bytes
spell [] = []
spell (t ∷ ts) = spelling t ++ spell ts

-- No subtoken is an unknown directive.
abbrev pub IsKnown : List Subtoken → Type 0
IsKnown = All (λ t. t.type ≢ undefined)

rest-IsText :
    {stream rest : Bytes} {t : Subtoken} → Splits stream t rest → IsText stream → IsText rest
rest-IsText {stream} {rest} s text =
    All-append_right (λ c. is_positive c ≡ true) s.used rest (rw s.splits at text)

-- On a text the stream is empty where its end is seen: no character reads as the end.
eq_nil_of_end : (rest : Bytes) → IsText rest → character_peek rest ≡ none → rest ≡ []
unfolding character_peek is_positive
eq_nil_of_end [] text e = refl
eq_nil_of_end (c ∷ cs) text e = ground arith

length-rest :
    {stream rest : Bytes} {t : Subtoken}
    → Splits stream t rest
    → t.type ≢ end_of_input
    → length rest < length stream
length-rest {stream} {rest} s ne =
    omega (arith, s.moved ne, ap (length {0}) s.splits, length-append {0} s.used rest)

Scans_total_below :
    (n : ℕ) (pd : Bool) (stream : Bytes)
    → IsText stream
    → length stream < n
    → (ts : List Subtoken) × Scans pd stream ts
Scans_total_below zero pd stream text h = absurd (omega arith)
Scans_total_below (suc n) pd stream text h =
    let (t, pd', rest, e) = advance_total pd stream text in
    let s = advance-Splits pd stream e in
    elim (Bool-cases (type_eq t.type end_of_input)) [
      | inl at_end ↦ ([], stop e ((type_eq_iff _ _).0 at_end))
      | inr more ↦
          let ne : t.type ≢ end_of_input = λ x. cc (more, (type_eq_iff _ _).1 x) in
          let (ts, later) =
            Scans_total_below n pd' rest (rest-IsText s text) (omega (arith, length-rest s ne)) in
          (t ∷ ts, step e ne later)
    ]

-- Repeated calls of `advance` on a stream of characters above 0 reach the end of the input.
pub Scans_total :
    (pd : Bool) (stream : Bytes) → IsText stream → (ts : List Subtoken) × Scans pd stream ts
Scans_total pd stream text = Scans_total_below (suc (length stream)) pd stream text (omega arith)

-- The subtokens of an input of characters above 0 spell out the input, if none is an unknown
-- directive: no character is lost or read twice.
pub spell-Scans :
    {pd : Bool} {stream : Bytes} {ts : List Subtoken}
    → Scans pd stream ts
    → IsText stream
    → IsKnown ts
    → spell ts ≡ stream
spell-Scans {stream = stream} (stop {rest = rest} e at_end) text known =
    let s = advance-Splits _ stream e in
    let empty : rest ≡ [] = eq_nil_of_end rest (rest-IsText s text) (s.ended at_end).1 in
    sym (s.splits ∙ ap₂ (λ x y. x ++ y) (s.ended at_end).0 empty)
spell-Scans {stream = stream} (step {rest = rest} e ne later) text known =
    let s = advance-Splits _ stream e in
    rw (spell-Scans later (rest-IsText s text) known.1)
      (sym (s.splits ∙ ap (λ x. x ++ rest) (s.spelled known.0)))

-- Every subtoken that repeated calls of `advance` return has the text that its type asks for.
pub Shape-Scans :
    {pd : Bool} {stream : Bytes} {ts : List Subtoken}
    → Scans pd stream ts
    → All (λ t. Shape t.type t.str) ts
Shape-Scans (stop e at_end) = tt
Shape-Scans {stream = stream} (step e ne later) =
    ((advance-Splits _ stream e).shape, Shape-Scans later)
