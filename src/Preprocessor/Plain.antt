-- ===== src/Preprocessor/Plain.antt =====
-- An input with no comment and no directive is left as it is.
use three.Base.{
  ◌≡◌, ◌≢◌, refl, ◌∙◌, ap, subst, Bool, true, List, [], ◌∷◌, Bytes, All, All-append_left,
  All-append_right, ok,
}
use three.Subtoken.{
  SubtokenType, Subtoken, undefined, comment, directive_switch, directive_case, directive_else,
  directive_end, directive_if,
}
use three.SubtokenLexer.Shape.{Shape, spelling_of}
use three.SubtokenLexer.Splits.{Splits, IsText, advance-Splits}
use three.SubtokenLexer.Sequence.{Scans, IsKnown, spell, Scans_total, spell-Scans}
use three.Preprocessor.{Platform, process}
use three.Preprocessor.Expansion.{Expands, nothing, printed, IsPlain}
use three.Preprocessor.Process.{process-Expands}

-- Neither `#`, which starts a comment, nor `%`, which starts a directive.
abbrev pub IsUnmarked : Bytes → Type 0
IsUnmarked = All (λ c. (c ≢ b'#') × (c ≢ b'%'))

-- The types of the subtokens that an unmarked text may hold.
abbrev IsOrdinary : SubtokenType → Type 0
IsOrdinary undefined = ⊥
IsOrdinary comment = ⊥
IsOrdinary directive_switch = ⊥
IsOrdinary directive_case = ⊥
IsOrdinary directive_else = ⊥
IsOrdinary directive_end = ⊥
IsOrdinary directive_if = ⊥
IsOrdinary _ = Unit

ordinary_of_spelling :
    (t : SubtokenType) (s : Bytes)
    → t ≢ undefined
    → Shape t s
    → IsUnmarked (spelling_of t s)
    → IsOrdinary t
ordinary_of_spelling undefined s ne h u = absurd (ne refl)
ordinary_of_spelling comment s ne (body, e, all) u =
    let marked : IsUnmarked (b'#' ∷ body) = subst IsUnmarked e u in absurd (marked.0.0 refl)
ordinary_of_spelling directive_switch s ne h u = absurd (u.0.1 refl)
ordinary_of_spelling directive_case s ne h u = absurd (u.0.1 refl)
ordinary_of_spelling directive_else s ne h u = absurd (u.0.1 refl)
ordinary_of_spelling directive_end s ne h u = absurd (u.0.1 refl)
ordinary_of_spelling directive_if s ne h u = absurd (u.0.1 refl)
ordinary_of_spelling _ s ne h u = tt

module _ {stream rest : Bytes} {t : Subtoken} (s : Splits stream t rest)
    (u : IsUnmarked stream) where
  used-IsUnmarked : IsUnmarked s.used
  used-IsUnmarked = All-append_left _ s.used rest (subst IsUnmarked s.splits u)

  rest-IsUnmarked : IsUnmarked rest
  rest-IsUnmarked = All-append_right _ s.used rest (subst IsUnmarked s.splits u)

  known_of_unmarked : t.type ≢ undefined
  known_of_unmarked e =
      let (w, percent) = s.lost e in
      let marked : IsUnmarked (b'%' ∷ w) = subst IsUnmarked percent used-IsUnmarked in
      marked.0.1 refl

  Splits-IsOrdinary : IsOrdinary t.type
  Splits-IsOrdinary =
      ordinary_of_spelling t.type t.str known_of_unmarked s.shape
        (subst IsUnmarked (s.spelled known_of_unmarked) used-IsUnmarked)

ordinary-IsPlain : (t : Subtoken) → IsOrdinary t.type → IsPlain t
ordinary-IsPlain t o = record {
  ne_comment = λ e. subst IsOrdinary e o;
  ne_if = λ e. subst IsOrdinary e o;
}

spelling_of_ordinary : (t : SubtokenType) (s : Bytes) → IsOrdinary t → spelling_of t s ≡ s
spelling_of_ordinary directive_switch s o = absurd o
spelling_of_ordinary directive_case s o = absurd o
spelling_of_ordinary directive_else s o = absurd o
spelling_of_ordinary directive_end s o = absurd o
spelling_of_ordinary directive_if s o = absurd o
spelling_of_ordinary _ s o = refl

Scans-IsOrdinary :
    {pd : Bool} {stream : Bytes} {ts : List Subtoken}
    → Scans pd stream ts
    → IsUnmarked stream
    → All (λ t. IsOrdinary t.type) ts × IsKnown ts
Scans-IsOrdinary (Scans.stop e at_end) u = (tt, tt)
Scans-IsOrdinary {stream = stream} (Scans.step e ne later) u =
    let s = advance-Splits _ stream e in
    let (os, ks) = Scans-IsOrdinary later (rest-IsUnmarked s u) in
    ((Splits-IsOrdinary s u, os), (known_of_unmarked s u, ks))

Expands-ordinary :
    (platform : Platform) (ts : List Subtoken)
    → All (λ t. IsOrdinary t.type) ts
    → Expands platform ts (spell ts)
Expands-ordinary platform [] os = nothing
Expands-ordinary platform (t ∷ ts) (o, os) =
    rw (spelling_of_ordinary t.type t.str o)
      (printed (ordinary-IsPlain t o) (Expands-ordinary platform ts os))

-- An input of characters above 0, with no `#` and no `%` in it, is left as it is on every platform.
pub process_unmarked :
    (platform : Platform) (input : Bytes)
    → IsText input
    → IsUnmarked input
    → process platform input ≡ ok input
process_unmarked platform input text u =
    let (ts, scans) = Scans_total true input text in
    let (os, ks) = Scans-IsOrdinary scans u in
    process-Expands platform input scans ks (Expands-ordinary platform ts os)
    ∙ ap ok (spell-Scans scans text ks)
