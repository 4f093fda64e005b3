-- ===== src/SubtokenLexer/Splits.antt =====
-- `advance` takes a subtoken off the front of the stream.
use three.Base.{
  ℕ, ◌<◌, ◌≡◌, ◌≢◌, refl, sym, ap, ap₂, subst, ◌⊎◌, inl, inr, Bool, true, [], ◌∷◌, ◌++◌, none, some,
  Bool-cases, Bytes, codes, All, length, length-append, append_assoc, bytes_eq_iff, Outcome, ok,
  aborted, out_of_fuel, arith,
}
use three.Subtoken.{SubtokenType, Subtoken, undefined, end_of_input}
use three.SubtokenLexer.Scan.{
  character_peek, is_positive, Flow, again, leave, take, directive, round, directive_word,
  directive_of, lex_directive, scan, advance,
}
use three.SubtokenLexer.Shape.{
  Shape, Partial, Partial-Shape, Partial-spelled, Partial-moved, spelling_of, RoundIsOk,
  round-RoundIsOk,
}

abbrev pub spelling : Subtoken → Bytes
spelling t = spelling_of t.type t.str

-- The characters that `assert(c > 0)` lets through.
abbrev pub IsText : Bytes → Type 0
IsText = All (λ c. is_positive c ≡ true)

-- `stream` is the text `used` of the subtoken `t` and then `rest`. Only an unknown directive, of
-- type `undefined`, loses its text.
pub record Splits (stream : Bytes) (t : Subtoken) (rest : Bytes) : Type 0 where
  pub used : Bytes
  pub splits : stream ≡ used ++ rest
  pub spelled : t.type ≢ undefined → used ≡ spelling t
  pub shape : Shape t.type t.str
  pub lost : t.type ≡ undefined → (word : Bytes) × (used ≡ b'%' ∷ word)
  pub moved : t.type ≢ end_of_input → 0 < length used
  pub ended : t.type ≡ end_of_input → (used ≡ []) × (character_peek rest ≡ none)

character_peek-cases :
    (c : ℕ) (cs : Bytes) → (character_peek (c ∷ cs) ≡ none) ⊎ (character_peek (c ∷ cs) ≡ some c)
unfolding character_peek
character_peek-cases c cs = ground arith

directive_word-append :
    (s stream : Bytes) → s ++ stream ≡ (directive_word s stream).0 ++ (directive_word s stream).1
unfolding directive_word
directive_word-append s [] = refl
directive_word-append s (c ∷ cs) =
    ground (arith, append_assoc s (c ∷ []) cs, directive_word-append (s ++ c ∷ []) cs)

-- The outcome of `scan` at the text `s` read so far.
abbrev ScanIsOk : Bytes → Bytes → Outcome (Subtoken × Bool × Bytes) → Type 0
ScanIsOk s stream (ok (t, pd, rest)) = Splits (s ++ stream) t rest
ScanIsOk s stream aborted = ¬ IsText stream
ScanIsOk s stream out_of_fuel = ⊥

directive_of-Shape : (str : Bytes) → Shape (directive_of str).type (directive_of str).str
unfolding directive_of
directive_of-Shape str = ground (
  arith,
  bytes_eq_iff str (codes "end"),
  bytes_eq_iff str (codes "if"),
  bytes_eq_iff str (codes "else"),
  bytes_eq_iff str (codes "switch"),
  bytes_eq_iff str (codes "case"),
)

directive_of-spelled :
    (str : Bytes) → (directive_of str).type ≢ undefined → b'%' ∷ str ≡ spelling (directive_of str)
unfolding directive_of
directive_of-spelled str = ground arith

directive_of-ne-end : (str : Bytes) → (directive_of str).type ≢ end_of_input
unfolding directive_of
directive_of-ne-end str = ground arith

lex_directive-Splits :
    (stream : Bytes) → Splits (b'%' ∷ stream) (lex_directive stream).0 (lex_directive stream).1
unfolding lex_directive
lex_directive-Splits stream =
    let str = (directive_word [] stream).0 in
    record {
      used = b'%' ∷ str;
      splits = ap (λ x. b'%' ∷ x) (directive_word-append [] stream);
      spelled = directive_of-spelled str;
      shape = directive_of-Shape str;
      lost = λ _. (str, refl);
      moved = λ _. omega arith;
      ended = λ e. absurd (directive_of-ne-end str e);
    }

undefined_empty :
    (t : SubtokenType) (s : Bytes) → t ≡ undefined → Shape t s → ¬ (t ≢ end_of_input → 0 < length s)
undefined_empty t s e shape moved =
    let nil : s ≡ [] = subst (λ x. Shape x s) e shape in
    let ne : t ≢ end_of_input = λ x. cc in omega (arith, moved ne, ap (length {0}) nil)

Splits-Shape :
    (t : SubtokenType) (s rest : Bytes)
    → Shape t s
    → s ≡ spelling_of t s
    → (t ≢ end_of_input → 0 < length s)
    → (t ≡ end_of_input → (s ≡ []) × (character_peek rest ≡ none))
    → Splits (s ++ rest) (record { type = t; str = s }) rest
Splits-Shape t s rest shape spelled moved ended = record {
  used = s;
  splits = refl;
  spelled = λ _. spelled;
  shape = shape;
  lost = λ e. absurd (undefined_empty t s e shape moved);
  moved = moved;
  ended = ended;
}

eq_nil_of_end : (t : SubtokenType) (s : Bytes) → Partial t s → t ≡ end_of_input → s ≡ []
eq_nil_of_end t s h e = rw e at h

Splits-at_end :
    (t : SubtokenType) (s rest : Bytes)
    → Partial t s
    → character_peek rest ≡ none
    → Splits (s ++ rest) (record { type = t; str = s }) rest
Splits-at_end t s rest h at_end =
    Splits-Shape t s rest (Partial-Shape t s h) (Partial-spelled t s h) (Partial-moved t s h)
      (λ e. (eq_nil_of_end t s h e, at_end))

-- Where a round returns and leaves the character.
Splits-leave :
    (t : SubtokenType) (s rest : Bytes)
    → Partial t s
    → 0 < length s
    → Splits (s ++ rest) (record { type = t; str = s }) rest
Splits-leave t s rest h pos =
    Splits-Shape t s rest (Partial-Shape t s h) (Partial-spelled t s h) (λ _. pos)
      (λ e. absurd (omega (arith, ap (length {0}) (eq_nil_of_end t s h e))))

-- Where a round returns after reading the character.
Splits-take :
    (t : SubtokenType) (s s' : Bytes) (c : ℕ) (cs : Bytes)
    → s' ≡ s ++ c ∷ []
    → Shape t s'
    → t ≢ end_of_input
    → s' ≡ spelling_of t s'
    → Splits (s ++ c ∷ cs) (record { type = t; str = s' }) cs
Splits-take t s s' c cs e shape ne spelled =
    let whole : s ++ c ∷ cs ≡ s' ++ cs = rw e (sym (append_assoc s (c ∷ []) cs)) in
    rw whole (
      Splits-Shape t s' cs shape spelled (λ _. rw e (omega (arith, length-append {0} s (c ∷ []))))
        (λ x. absurd (ne x)))

ScanIsOk-again :
    (out : Outcome (Subtoken × Bool × Bytes)) (s s' : Bytes) (c : ℕ) (cs : Bytes)
    → s' ≡ s ++ c ∷ []
    → ScanIsOk s' cs out
    → ScanIsOk s (c ∷ cs) out
ScanIsOk-again (ok (t, pd, rest)) s s' c cs e h =
    let whole : s ++ c ∷ cs ≡ s' ++ cs = rw e (sym (append_assoc s (c ∷ []) cs)) in rw whole h
ScanIsOk-again aborted s s' c cs e h = λ all. h all.1
ScanIsOk-again out_of_fuel s s' c cs e h = h

Splits-directive :
    (s : Bytes) (c : ℕ) (cs : Bytes)
    → s ≡ []
    → c ≡ b'%'
    → Splits (s ++ c ∷ cs) (lex_directive cs).0 (lex_directive cs).1
Splits-directive s c cs nil percent =
    let whole : s ++ c ∷ cs ≡ b'%' ∷ cs = ap₂ (λ x y. x ++ y ∷ cs) nil percent in
    rw whole (lex_directive-Splits cs)

data FlowCases (f : Flow) : Type 0 where
  is_again : (t : SubtokenType) (s : Bytes) (pd : Bool) → f ≡ again t s pd → FlowCases f
  is_leave : (pd : Bool) → f ≡ leave pd → FlowCases f
  is_take : (t : SubtokenType) (s : Bytes) (pd : Bool) → f ≡ take t s pd → FlowCases f
  is_directive : f ≡ directive → FlowCases f

flow_cases : (f : Flow) → FlowCases f
flow_cases (again t s pd) = is_again t s pd refl
flow_cases (leave pd) = is_leave pd refl
flow_cases (take t s pd) = is_take t s pd refl
flow_cases directive = is_directive refl

-- One round at a character that passes the assertion, with what the loop does after it.
scan-ScanIsOk :
    (stream : Bytes) (pd : Bool) (t : SubtokenType) (s : Bytes)
    → Partial t s
    → ScanIsOk s stream (scan pd t s stream)
unfolding scan
scan-ScanIsOk [] pd t s h = Splits-at_end t s [] h (unfold character_peek in refl)
scan-ScanIsOk (c ∷ cs) pd t s h = elim (character_peek-cases c cs) [
  | inl at_end ↦ rw (at_end, ScanIsOk) (Splits-at_end t s (c ∷ cs) h at_end)
  | inr peeked ↦ elim (Bool-cases (is_positive c)) [
    | inl positive ↦
        let sound = round-RoundIsOk pd t s c h in
        elim (flow_cases (round pd t s c)) [
          | is_again t' s' pd' e ↦
              rw (peeked, positive, e, ScanIsOk)
                (ScanIsOk-again (scan pd' t' s' cs) s s' c cs (rw e at sound).0
                  (scan-ScanIsOk cs pd' t' s' (rw e at sound).1))
          | is_leave pd' e ↦
              rw (peeked, positive, e, ScanIsOk) (Splits-leave t s (c ∷ cs) h (rw e at sound).1)
          | is_take t' s' pd' e ↦
              rw (peeked, positive, e, ScanIsOk)
                (Splits-take t' s s' c cs (rw e at sound).0 (rw e at sound).1 (rw e at sound).2
                  (rw e at sound).3)
          | is_directive e ↦
              rw (peeked, positive, e, ScanIsOk)
                (let (nil, percent) : (s ≡ []) × (c ≡ b'%') = subst (RoundIsOk t s c) e sound in
                  Splits-directive s c cs nil percent)
        ]
    | inr negative ↦ rw (peeked, negative, ScanIsOk) (λ all. cc (negative, all.0))
  ]
]

-- On a text, `advance` returns: no assertion fails.
advance-IsOk : (pd : Bool) (stream : Bytes) → ScanIsOk [] stream (advance pd stream)
unfolding advance
advance-IsOk pd stream = scan-ScanIsOk stream pd end_of_input [] refl

-- What `advance` returns is taken off the front of the stream: the stream is the subtoken's text
-- and then what is left, where only an unknown directive (of type `undefined`) loses its text; the
-- text has the shape of its type; a subtoken that is not the end of the input takes at least one
-- character; and the end of the input takes none and is returned only where no character reads.
pub advance-Splits :
    (pd : Bool) (stream : Bytes) {t : Subtoken} {pd' : Bool} {rest : Bytes}
    → advance pd stream ≡ ok (t, pd', rest)
    → Splits stream t rest
advance-Splits pd stream e = subst (ScanIsOk [] stream) e (advance-IsOk pd stream)

ScanIsOk-total :
    (s stream : Bytes) (out : Outcome (Subtoken × Bool × Bytes))
    → ScanIsOk s stream out
    → IsText stream
    → (t : Subtoken) × (pd' : Bool) × (rest : Bytes) × (out ≡ ok (t, pd', rest))
ScanIsOk-total s stream (ok (t, pd', rest)) h text = (t, pd', rest, refl)
ScanIsOk-total s stream aborted h text = absurd (h text)
ScanIsOk-total s stream out_of_fuel h text = absurd h

-- On a stream of characters above 0 (a byte from 128 on is negative), `advance` returns a subtoken:
-- no assertion fails, and the loop ends.
pub advance_total :
    (pd : Bool) (stream : Bytes)
    → IsText stream
    → (t : Subtoken) × (pd' : Bool) × (rest : Bytes) × (advance pd stream ≡ ok (t, pd', rest))
advance_total pd stream text = ScanIsOk-total [] stream _ (advance-IsOk pd stream) text
