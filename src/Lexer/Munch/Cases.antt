-- ===== src/Lexer/Munch/Cases.antt =====
-- The whole of `lexPunctuation`: its two `switch` statements.
use three.Base.{
  ℕ, ◌≡◌, ◌≢◌, refl, ap, true, [], ◌∷◌, List, ◌==◌, ==_iff, Bool-cases, inl, inr, All, Bytes, codes,
  bytes_eq, byte_mem, char_at,
}
use three.Subtoken.{Subtoken}
use three.SubtokenLexer.{SubtokenLexer}
use three.SubtokenLexer.Scan.{is_punctuation}
use three.SubtokenLexer.Feed.{Yields, gives}
use three.Lexer.Keywords.{find_type}
use three.Lexer.Calls.{subtoken_advance}
use three.Lexer.Punctuation.{simple_type, lex_compound, lex_first, lex_punctuation}
use three.Lexer.Munch.{Munches, Munches-cons, token-Munches, Case}
use three.Lexer.Munch.Compounds.{
  lex_percent-Case, lex_plus-Case, lex_minus-Case, lex_slash-Case, lex_star-Case, lex_equal-Case,
  lex_less-Case, lex_not-Case, lex_greater-Case, lex_and-Case, lex_or-Case, lex_xor-Case,
}

-- A predicate that holds of each listed character holds of every character that is found there.
All_of_mem {ℓ} : (P : ℕ → Type ℓ) (c : ℕ) (cs : Bytes) → byte_mem c cs ≡ true → All P cs → P c
unfolding byte_mem
All_of_mem P c [] found all = cc
All_of_mem P c (x ∷ xs) found all = elim (Bool-cases (c == x)) [
  | inl same ↦ rw ((==_iff c x).0 same) (all.0)
  | inr other ↦ All_of_mem P c xs (rw other at found) all.1
]

infixr 5 ◌&◌
abbrev ◌&◌ : {A B : Type 0} → A → B → A × B
a & b = (a, b)

abbrev FirstIsOk : ℕ → Type 0
FirstIsOk c = c ≢ b'@' → Case (c ∷ []) (lex_first c)

lex_first-Case : (c : ℕ) → is_punctuation c ≡ true → FirstIsOk c
unfolding is_punctuation lex_first lex_compound simple_type find_type bytes_eq
lex_first-Case c found = All_of_mem FirstIsOk c (codes "/*-+!=|><&@^.[]{}~(),;:?%") found (
    (λ ne. lex_slash-Case)
    & (λ ne. lex_star-Case)
    & (λ ne. lex_minus-Case)
    & (λ ne. lex_plus-Case)
    & (λ ne. lex_not-Case)
    & (λ ne. lex_equal-Case)
    & (λ ne. lex_or-Case)
    & (λ ne. lex_greater-Case)
    & (λ ne. lex_less-Case)
    & (λ ne. lex_and-Case)
    & (λ ne. absurd (ne refl))
    & (λ ne. lex_xor-Case)
    & (λ ne ts l y. token-Munches _ (codes ".") ts l refl tt y)
    & (λ ne ts l y. token-Munches _ (codes "[") ts l refl tt y)
    & (λ ne ts l y. token-Munches _ (codes "]") ts l refl tt y)
    & (λ ne ts l y. token-Munches _ (codes "{") ts l refl tt y)
    & (λ ne ts l y. token-Munches _ (codes "}") ts l refl tt y)
    & (λ ne ts l y. token-Munches _ (codes "~") ts l refl tt y)
    & (λ ne ts l y. token-Munches _ (codes "(") ts l refl tt y)
    & (λ ne ts l y. token-Munches _ (codes ")") ts l refl tt y)
    & (λ ne ts l y. token-Munches _ (codes ",") ts l refl tt y)
    & (λ ne ts l y. token-Munches _ (codes ";") ts l refl tt y)
    & (λ ne ts l y. token-Munches _ (codes ":") ts l refl tt y)
    & (λ ne ts l y. token-Munches _ (codes "?") ts l refl tt y)
    & (λ ne. lex_percent-Case)
    & tt)

-- Where the next subtoken is a punctuation character other than `@`, `lexPunctuation` takes the
-- longest operator that the subtokens to come spell: it succeeds, its token holds the text of the
-- subtokens it took and the type of that text, and no operator is that text with the next
-- subtoken's character behind it.
pub lex_punctuation-Munches :
    (l : SubtokenLexer) (u : Subtoken) (ts : List Subtoken) (c : ℕ)
    → u.str ≡ c ∷ []
    → is_punctuation c ≡ true
    → c ≢ b'@'
    → Yields l (u ∷ ts)
    → Munches [] (u ∷ ts) (lex_punctuation l)
unfolding lex_punctuation subtoken_advance
lex_punctuation-Munches l u ts c text found ne (gives {l₂ = l₂} p q n m nend kt b₁ b₂ more) =
    let first : char_at u.str 0 ≡ c = unfold char_at in ap (λ s. char_at s 0) text in
    rw m (rw first (Munches-cons [] u ts (rw text (lex_first-Case c found ne ts l₂ more))))
