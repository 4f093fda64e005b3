-- ===== src/SubtokenLexer/Feed.antt =====
-- `peek` and `next` hand on the subtokens that `advance` reads.
use three.Base.{
  ℕ, ◌≤◌, ◌≡◌, ◌≢◌, refl, sym, ◌∙◌, ap, none, subst, Bool, true, List, [], ◌∷◌, Bytes, length,
  length-append, ok, arith,
}
use three.Subtoken.{SubtokenType, Subtoken, blank, undefined, end_of_input, type_eq_iff}
use three.SubtokenLexer.{SubtokenLexer, start, refill, populate_subtoken_buffer, next, peek}
use three.SubtokenLexer.Scan.{advance, scan, character_peek}
use three.SubtokenLexer.Shape.{Shape}
use three.SubtokenLexer.Splits.{advance-Splits}
use three.SubtokenLexer.Sequence.{Scans, IsKnown}

-- `peek` shows each of the subtokens, `next` takes it, after a `peek` or without one, and at the end `peek` shows the end of
-- the input.
pub data Yields : SubtokenLexer → List Subtoken → Type 0 where
  ends :
      {l l' : SubtokenLexer} {t : Subtoken}
      → peek l ≡ ok (t, l')
      → peek l' ≡ ok (t, l')
      → next l ≡ ok (t, l')
      → next l' ≡ ok (t, l')
      → t.type ≡ end_of_input
      → t.str ≡ []
      → Yields l []
  gives :
      {l l₁ l₂ : SubtokenLexer} {t : Subtoken} {ts : List Subtoken}
      → peek l ≡ ok (t, l₁)
      → peek l₁ ≡ ok (t, l₁)
      → next l₁ ≡ ok (t, l₂)
      → next l ≡ ok (t, l₂)
      → t.type ≢ end_of_input
      → t.type ≢ undefined
      → length ts ≤ length l.stream
      → length ts ≤ length l₁.stream
      → Yields l₂ ts
      → Yields l (t ∷ ts)

pub length-Scans :
    {pd : Bool} {stream : Bytes} {ts : List Subtoken}
    → Scans pd stream ts
    → length ts ≤ length stream
length-Scans (Scans.stop e at_end) = omega arith
length-Scans {stream = stream} (Scans.step {rest = rest} e ne later) =
    let s = advance-Splits _ stream e in
    omega (
      arith,
      length-Scans later,
      s.moved ne,
      ap (length {0}) s.splits,
      length-append {0} s.used rest,
    )

abbrev holding : Bool → Bytes → Subtoken → SubtokenLexer
holding pd stream t = record { potential_directive = pd; stream = stream; subtoken = t }

module _ (pd : Bool) (stream : Bytes) (s : Subtoken) where
  refill_lem :
      {pd' : Bool} {rest : Bytes} {t : Subtoken}
      → advance pd stream ≡ ok (t, pd', rest)
      → refill (holding pd stream s) ≡ ok (holding pd' rest t)
  unfolding refill
  refill_lem e = rw e

  peek_start :
      {pd' : Bool} {rest : Bytes} {t : Subtoken}
      → s.type ≡ undefined
      → advance pd stream ≡ ok (t, pd', rest)
      → peek (holding pd stream s) ≡ ok (t, holding pd' rest t)
  unfolding peek populate_subtoken_buffer refill
  peek_start unset e = rw (unset, e)

  next_start :
      {pd' : Bool} {rest : Bytes} {t : Subtoken} {l : SubtokenLexer}
      → s.type ≡ undefined
      → advance pd stream ≡ ok (t, pd', rest)
      → refill (holding pd' rest t) ≡ ok l
      → next (holding pd stream s) ≡ ok (t, l)
  unfolding next populate_subtoken_buffer refill
  next_start unset e r = rw (unset, e) (rw r)

populate_known :
    (l : SubtokenLexer) → l.subtoken.type ≢ undefined → populate_subtoken_buffer l ≡ ok l
unfolding populate_subtoken_buffer
populate_known l ne = ground (arith, type_eq_iff l.subtoken.type undefined)

peek_known : (l : SubtokenLexer) → l.subtoken.type ≢ undefined → peek l ≡ ok (l.subtoken, l)
unfolding peek
peek_known l ne = rw (populate_known l ne)

next_known :
    (l : SubtokenLexer) {l' : SubtokenLexer}
    → l.subtoken.type ≢ undefined
    → refill l ≡ ok l'
    → next l ≡ ok (l.subtoken, l')
unfolding next
next_known l ne e = rw (populate_known l ne, e)

end-ne-undefined : (t : SubtokenType) → t ≡ end_of_input → t ≢ undefined
end-ne-undefined t e x = cc

end_text :
    (pd : Bool) (stream : Bytes) {pd' : Bool} {rest : Bytes} {t : Subtoken}
    → advance pd stream ≡ ok (t, pd', rest)
    → t.type ≡ end_of_input
    → t.str ≡ []
end_text pd stream {t = t} e at_end =
    subst (λ x. Shape x t.str) at_end (advance-Splits pd stream e).shape

scan-none :
    (pd : Bool) (c : ℕ) (cs : Bytes)
    → character_peek (c ∷ cs) ≡ none
    → scan pd end_of_input [] (c ∷ cs) ≡ ok (record { type = end_of_input; str = [] }, pd, c ∷ cs)
unfolding scan
scan-none pd c cs h = rw (h, scan)

advance-none :
    (pd : Bool) (rest : Bytes)
    → character_peek rest ≡ none
    → advance pd rest ≡ ok (record { type = end_of_input; str = [] }, pd, rest)
unfolding advance
advance-none pd [] h = refl
advance-none pd (c ∷ cs) h = scan-none pd c cs h

-- Behind the end of the input `advance` returns the end again.
advance_end :
    (pd : Bool) (stream : Bytes) {pd' : Bool} {rest : Bytes} {t : Subtoken}
    → advance pd stream ≡ ok (t, pd', rest)
    → t.type ≡ end_of_input
    → advance pd' rest ≡ ok (t, pd', rest)
advance_end pd stream {pd'} {rest} {t} e at_end =
    let empty = end_text pd stream e at_end in
    let made : record { type = end_of_input; str = [] } ≡ t =
      λ i. record { type = sym at_end i; str = sym empty i } in
    advance-none pd' rest ((advance-Splits pd stream e).ended at_end).1
    ∙ ap (λ u. ok (u, pd', rest)) made

module _ (pd : Bool) (stream : Bytes) {pd' : Bool} {rest : Bytes} {t : Subtoken}
    (e : advance pd stream ≡ ok (t, pd', rest)) (at_end : t.type ≡ end_of_input) where
  peek_end : peek (holding pd' rest t) ≡ ok (t, holding pd' rest t)
  peek_end = peek_known (holding pd' rest t) (end-ne-undefined t.type at_end)

  refill_end : refill (holding pd' rest t) ≡ ok (holding pd' rest t)
  refill_end = refill_lem pd' rest t (advance_end pd stream e at_end)

  next_end : next (holding pd' rest t) ≡ ok (t, holding pd' rest t)
  next_end = next_known (holding pd' rest t) (end-ne-undefined t.type at_end) refill_end

-- What `next` leaves behind where the lexer holds the known subtoken `t`.
abbrev Leaves : SubtokenLexer → Subtoken → List Subtoken → Type 0
Leaves l t ts = (l' : SubtokenLexer) × (next l ≡ ok (t, l')) × Yields l' ts × (refill l ≡ ok l')

next-Leaves :
    (pd : Bool) (stream : Bytes) {ts : List Subtoken} (t : Subtoken)
    → t.type ≢ undefined
    → Scans pd stream ts
    → IsKnown ts
    → Leaves (holding pd stream t) t ts
next-Leaves pd stream t kt (Scans.stop {pd'} {rest} {t = u} e at_end) known =
    let k = peek_end pd stream e at_end in
    let n = next_end pd stream e at_end in
    (
      holding pd' rest u,
      next_known _ kt (refill_lem pd stream t e),
      ends k k n n at_end (end_text pd stream e at_end),
      refill_lem pd stream t e,
    )
next-Leaves pd stream t kt (Scans.step {pd'} {rest} {t = u} e nu later) known =
    let (l, taken, more, refilled) = next-Leaves pd' rest u known.0 later known.1 in
    let k = peek_known (holding pd' rest u) known.0 in
    let b = length-Scans later in
    (
      holding pd' rest u,
      next_known _ kt (refill_lem pd stream t e),
      gives k k taken taken nu known.0 b b more,
      refill_lem pd stream t e,
    )

-- Where repeated calls of `advance` from a fresh lexer read subtokens that are all known, its calls
-- of `next` return these subtokens in their order, and `peek` before each of them returns the same
-- subtoken, however often it is called.
pub Yields-start :
    {stream : Bytes} {ts : List Subtoken}
    → Scans true stream ts
    → IsKnown ts
    → Yields (start stream) ts
Yields-start {stream} (Scans.stop e at_end) known =
    ends (peek_start true stream blank refl e) (peek_end true stream e at_end)
      (next_start true stream blank refl e (refill_end true stream e at_end))
      (next_end true stream e at_end) at_end (end_text true stream e at_end)
Yields-start {stream} (Scans.step {pd'} {rest} {t} e ne later) known =
    let (l, taken, more, refilled) = next-Leaves pd' rest t known.0 later known.1 in
    gives (peek_start true stream blank refl e) (peek_known _ known.0) taken
      (next_start true stream blank refl e refilled) ne known.0
      (omega (arith, length-Scans (Scans.step e ne later))) (length-Scans later) more
