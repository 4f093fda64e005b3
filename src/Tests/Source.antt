-- ===== src/Tests/Source.antt =====
-- Instances of the theorems on the subtoken lexer and the preprocessor.
use three.Base.{◌≡◌, refl, true, false, List, [], ◌∷◌, codes, Bytes, ok, arith}
use three.Subtoken.{
  SubtokenType, Subtoken, newline, word, whitespace, comment, directive_if, directive_else,
  directive_end,
}
use three.SubtokenLexer.{start}
use three.SubtokenLexer.Scan.{advance, is_positive, lex_directive}
use three.SubtokenLexer.Splits.{IsText, Splits, advance-Splits}
use three.SubtokenLexer.Sequence.{Scans, stop, step, IsKnown, spell, Scans_total, spell-Scans}
use three.SubtokenLexer.Feed.{Yields, Yields-start}
use three.Preprocessor.{Platform, process, condition, ends_branch}
use three.Preprocessor.Expansion.{Expands, nothing, printed, conditional, present}
use three.Preprocessor.Process.{process-Expands}
use three.Preprocessor.Unknown.{process_unknown}
use three.Preprocessor.Plain.{process_unmarked, IsUnmarked}

abbrev sub : SubtokenType → Bytes → Subtoken
sub t s = record { type = t; str = s }

abbrev linux : Platform
linux = record { darwin = false; linux = true }

abbrev line : Bytes
line = codes "a #\n"

line-IsText : IsText line
line-IsText = unfold is_positive in (refl, (refl, (refl, (refl, tt))))

advance-Splits_example : Splits line (sub word (codes "a")) (codes " #\n")
unfolding advance
advance-Splits_example = advance-Splits true line {pd' = false} refl

Scans_total_example : (ts : List Subtoken) × Scans true line ts
Scans_total_example = Scans_total true line line-IsText

abbrev line_subtokens : List Subtoken
line_subtokens =
    sub word (codes "a")
    ∷ sub whitespace (codes " ")
    ∷ sub comment (codes "#")
    ∷ sub newline (codes "\n")
    ∷ []

line-Scans : Scans true line line_subtokens
unfolding advance
line-Scans =
    step refl (λ e. cc)
      (step refl (λ e. cc) (step refl (λ e. cc) (step refl (λ e. cc) (stop refl refl))))

line-IsKnown : IsKnown line_subtokens
line-IsKnown = (λ e. cc, (λ e. cc, (λ e. cc, (λ e. cc, tt))))

spell-Scans_example : spell line_subtokens ≡ line
spell-Scans_example = spell-Scans line-Scans line-IsText line-IsKnown

Yields-start_example : Yields (start line) line_subtokens
Yields-start_example = Yields-start line-Scans line-IsKnown

-- A conditional section with two branches.
abbrev choice : Bytes
choice = codes "%if linux\na\n%else\nb\n%end\nc\n"

abbrev nl : Subtoken
nl = sub newline (codes "\n")

abbrev first_branch : List Subtoken
first_branch = sub word (codes "a") ∷ nl ∷ []

abbrev second_branch : List Subtoken
second_branch = sub word (codes "b") ∷ nl ∷ []

abbrev choice_subtokens : List Subtoken
choice_subtokens =
    sub directive_if (codes "if")
    ∷ sub whitespace (codes " ")
    ∷ sub word (codes "linux")
    ∷ nl
    ∷ sub word (codes "a")
    ∷ nl
    ∷ sub directive_else (codes "else")
    ∷ nl
    ∷ sub word (codes "b")
    ∷ nl
    ∷ sub directive_end (codes "end")
    ∷ nl
    ∷ sub word (codes "c")
    ∷ nl
    ∷ []

choice-Scans : Scans true choice choice_subtokens
unfolding advance
choice-Scans =
    step refl (λ e. cc)
      (step refl (λ e. cc)
        (step refl (λ e. cc)
          (step refl (λ e. cc)
            (step refl (λ e. cc)
              (step refl (λ e. cc)
                (step refl (λ e. cc)
                  (step refl (λ e. cc)
                    (step refl (λ e. cc)
                      (step refl (λ e. cc)
                        (step refl (λ e. cc)
                          (step refl (λ e. cc)
                            (step refl (λ e. cc) (step refl (λ e. cc) (stop refl refl))))))))))))))

choice-IsKnown : IsKnown choice_subtokens
choice-IsKnown = (
  λ e. cc,
  (
    λ e. cc,
    (
      λ e. cc,
      (
        λ e. cc,
        (
          λ e. cc,
          (
            λ e. cc,
            (
              λ e. cc,
              (λ e. cc, (λ e. cc, (λ e. cc, (λ e. cc, (λ e. cc, (λ e. cc, (λ e. cc, tt))))))),
            ),
          ),
        ),
      ),
    ),
  ),
)

choice-Expands : Expands linux choice_subtokens (codes "a\nc\n")
unfolding condition ends_branch
choice-Expands =
    conditional (sub directive_if (codes "if")) (sub whitespace (codes " "))
      (sub word (codes "linux")) nl (sub directive_end (codes "end")) nl first_branch
      (sub directive_else (codes "else") ∷ nl ∷ second_branch) second_branch
      (sub word (codes "c") ∷ nl ∷ []) (codes "c\n") true refl refl refl refl (refl, (refl, tt))
      (present refl refl (refl, (refl, tt))) refl refl
      (printed (record { ne_comment = λ e. cc; ne_if = λ e. cc })
        (printed (record { ne_comment = λ e. cc; ne_if = λ e. cc }) nothing))

process-Expands_example : process linux choice ≡ ok (codes "a\nc\n")
process-Expands_example = process-Expands linux choice choice-Scans choice-IsKnown choice-Expands

abbrev plain : Bytes
plain = codes "x 1"

plain-IsText : IsText plain
plain-IsText = unfold is_positive in (refl, (refl, (refl, tt)))

plain-IsUnmarked : IsUnmarked plain
plain-IsUnmarked = (
  (λ e. omega (arith, e), λ e. omega (arith, e)),
  (
    (λ e. omega (arith, e), λ e. omega (arith, e)),
    ((λ e. omega (arith, e), λ e. omega (arith, e)), tt),
  ),
)

process_unmarked_example : process linux plain ≡ ok plain
process_unmarked_example = process_unmarked linux plain plain-IsText plain-IsUnmarked

process_unknown_example : process linux (codes "%iff x\n") ≡ ok []
process_unknown_example = process_unknown linux (codes "iff x\n") (unfold lex_directive in refl)
