-- ===== src/Preprocessor/Process.antt =====
-- `process` computes the expansion of its input.
use three.Base.{
  ℕ, zero, suc, ◌<◌, ◌≤◌, ◌≡◌, ◌≢◌, refl, true, List, [], ◌∷◌, ◌++◌, if◌then◌else◌, Bytes, length,
  length-append, append_assoc, append-nil, Outcome, ok, ◌>>=◌, arith,
}
use three.Subtoken.{SubtokenType, Subtoken, undefined, end_of_input, comment, directive_if}
use three.SubtokenLexer.{SubtokenLexer, start}
use three.SubtokenLexer.Sequence.{Scans, IsKnown}
use three.SubtokenLexer.Feed.{Yields, ends, gives, Yields-start, length-Scans}
use three.Preprocessor.{
  Platform, Preprocessor, finish, drop, expand, print, action, process_loop, process,
}
use three.Preprocessor.Expansion.{
  Expands, nothing, dropped, printed, conditional, texts, ElseBranch, absent, present,
}
use three.Preprocessor.Branches.{prep, Ready, peek-Peeks, skip-Ready, copy-Ready, parse_if-Ready}

abbrev Prints : Bytes → Outcome Preprocessor → Type 0
Prints out r = (l : SubtokenLexer) × (r ≡ ok (prep l out))

Prints-text :
    {out out' : Bytes} {r : Outcome Preprocessor} → out ≡ out' → Prints out r → Prints out' r
Prints-text e (l, p) = (l, rw (← e) p)

Prints->>= :
    {ts : List Subtoken} {out out' : Bytes} (r : Outcome Preprocessor)
    (f : Preprocessor → Outcome Preprocessor)
    → Ready ts out r
    → ((l : SubtokenLexer) → Yields l ts → Prints out' (f (prep l out)))
    → Prints out' (r >>= f)
Prints->>= r f (l, e, y) k = rw e (k l y)

action-plain :
    (type : SubtokenType)
    → type ≢ undefined
    → type ≢ end_of_input
    → type ≢ comment
    → type ≢ directive_if
    → action type ≡ print
unfolding action
action-plain undefined a b c d = absurd (a refl)
action-plain end_of_input a b c d = absurd (b refl)
action-plain comment a b c d = absurd (c refl)
action-plain directive_if a b c d = absurd (d refl)
action-plain _ a b c d = refl

Yields-known :
    {l : SubtokenLexer} {t : Subtoken} {ts : List Subtoken}
    → Yields l (t ∷ ts)
    → (t.type ≢ undefined) × (t.type ≢ end_of_input)
Yields-known (gives p q n m ne kt b c more) = (kt, ne)

length-ElseBranch : {other ys : List Subtoken} → ElseBranch other ys → length ys ≤ length other
length-ElseBranch absent = omega arith
length-ElseBranch (present e n b) = omega arith

process_loop-Prints :
    {platform : Platform} {ts : List Subtoken} {text : Bytes} (f g : ℕ) (l : SubtokenLexer)
    (out : Bytes)
    → Expands platform ts text
    → length ts < f
    → length ts < g
    → Yields l ts
    → Prints (out ++ text) (process_loop f g platform (prep l out))
unfolding process_loop
process_loop-Prints zero g l out x h hg y = absurd (omega arith)
process_loop-Prints (suc f) g l out nothing h hg (ends {l' = l'} {t} p q n m at_end empty) =
    let a : action t.type ≡ finish = rw at_end (unfold action in refl) in
    (l', rw (p, a) (rw append-nil))
process_loop-Prints (suc f) g l out (dropped {t} is_comment x) h hg y =
    let (l₁, p, y₁) = peek-Peeks out y in
    let a : action t.type ≡ drop = rw is_comment (unfold action in refl) in
    rw (p, a)
      (Prints->>= _ _ (skip-Ready out y₁)
        λ l₂ y₂. process_loop-Prints f g l₂ out x (omega arith) (omega arith) y₂)
process_loop-Prints (suc f) g l out (printed {t} {ts} {out = text} plain x) h hg y =
    let (l₁, p, y₁) = peek-Peeks out y in
    let known = Yields-known y in
    let a = action-plain t.type known.0 known.1 plain.ne_comment plain.ne_if in
    rw (p, a)
      (Prints-text (append_assoc out t.str text) (
        Prints->>= _ _ (copy-Ready out y₁)
          λ l₂ y₂. process_loop-Prints f g l₂ _ x (omega arith) (omega arith) y₂))
process_loop-Prints (suc f) g l out
      (conditional i w c n e n' xs other ys ts text active hi hw hc hn bx o he hn' x) h hg y =
    let (l₁, p, y₁) = peek-Peeks out y in
    let a : action i.type ≡ expand = rw hi (unfold action in refl) in
    let counts = length-append xs (other ++ (e ∷ n' ∷ ts)) in
    let counts' = length-append other (e ∷ n' ∷ ts) in
    rw (p, a)
      (Prints-text (append_assoc out (if active then texts xs else texts ys) text) (
        Prints->>= _ _
          (parse_if-Ready _ g l₁ out i w c n e n' xs other ys ts active hi hw hc hn bx (omega arith)
            o (omega (arith, length-ElseBranch o)) he hn' y₁)
          λ l₂ y₂. process_loop-Prints f g l₂ _ x (omega arith) (omega arith) y₂))

-- Where the subtokens of an input are all known and expand to a text by the rules of `Expands`
-- (comments dropped, of a conditional the text of the active branch, all else printed), `process`
-- succeeds with that text; no assertion fails, and the fuel is enough.
pub process-Expands :
    (platform : Platform) (input : Bytes) {ts : List Subtoken} {out : Bytes}
    → Scans true input ts
    → IsKnown ts
    → Expands platform ts out
    → process platform input ≡ ok out
unfolding process
process-Expands platform input {ts} scans known x =
    let fuel = suc (length input) in
    let (l, e) =
      process_loop-Prints fuel fuel (start input) [] x (omega (arith, length-Scans scans))
        (omega (arith, length-Scans scans)) (Yields-start scans known) in
    rw e
