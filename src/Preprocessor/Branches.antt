-- ===== src/Preprocessor/Branches.antt =====
-- The branches of a conditional: `parse_if` takes it off the front of the subtokens and prints the
-- active branch.
use three.Base.{
  ℕ, zero, suc, ◌<◌, ◌≡◌, refl, sym, ap, subst, Bool, true, false, not, List, [], ◌∷◌, ◌++◌,
  if◌then◌else◌, Bytes, length, append_assoc, append-nil, Outcome, ok, ◌>>=◌, arith,
}
use three.Subtoken.{
  SubtokenType, Subtoken, newline, whitespace, directive_else, directive_end, directive_if, type_eq,
  type_eq_iff,
}
use three.SubtokenLexer.{SubtokenLexer, peek}
use three.SubtokenLexer.Feed.{Yields, gives}
use three.Preprocessor.Expansion.{texts, IsBranch, ElseBranch, absent, present}
use three.Preprocessor.{
  Platform, Preprocessor, skip, copy, expect, ends_branch, branch, condition, else_branch, parse_if,
}

-- The preprocessor after it printed `out`, in front of the subtokens `ts`.
abbrev pub Ready : List Subtoken → Bytes → Outcome Preprocessor → Type 0
Ready ts out r =
    (l : SubtokenLexer) × (r ≡ ok (record { lexer = l; processed = out })) × Yields l ts

abbrev pub prep : SubtokenLexer → Bytes → Preprocessor
prep l out = record { lexer = l; processed = out }

-- A `peek` at the front of the subtokens changes nothing that a later call sees.
abbrev pub Peeks : SubtokenLexer → Subtoken → List Subtoken → Type 0
Peeks l t ts = (l₁ : SubtokenLexer) × (peek l ≡ ok (t, l₁)) × Yields l₁ (t ∷ ts)

-- What one step at the front of the subtokens does.
module _ {l : SubtokenLexer} {t : Subtoken} (out : Bytes) {ts : List Subtoken} where
  pub peek-Peeks : Yields l (t ∷ ts) → Peeks l t ts
  peek-Peeks (gives p q n m ne kt b₁ b₂ more) = (_, p, gives q q n n ne kt b₂ b₂ more)

  pub skip-Ready : Yields l (t ∷ ts) → Ready ts out (skip (prep l out))
  unfolding skip
  skip-Ready (gives {l₂ = l₂} p q n m ne kt b₁ b₂ more) = (l₂, rw m, more)

  pub copy-Ready : Yields l (t ∷ ts) → Ready ts (out ++ t.str) (copy (prep l out) t)
  unfolding copy
  copy-Ready (gives {l₂ = l₂} p q n m ne kt b₁ b₂ more) = (l₂, unfold skip in rw m, more)

  expect-Ready :
      {type : SubtokenType}
      → t.type ≡ type
      → Yields l (t ∷ ts)
      → Ready ts out (expect type (prep l out))
  unfolding expect
  expect-Ready e (gives {l₂ = l₂} p q n m ne kt b₁ b₂ more) =
      (l₂, rw m (rw ((type_eq_iff _ _).1 e)), more)

pub Ready-text :
    {ts : List Subtoken} {out out' : Bytes} {r : Outcome Preprocessor}
    → out ≡ out'
    → Ready ts out r
    → Ready ts out' r
Ready-text e (l, p, y) = (l, rw (← e) p, y)

-- The step that follows one that is `Ready`.
pub Ready->>= :
    {ts us : List Subtoken} {out out' : Bytes} (r : Outcome Preprocessor)
    (f : Preprocessor → Outcome Preprocessor)
    → Ready ts out r
    → ((l : SubtokenLexer) → Yields l ts → Ready us out' (f (prep l out)))
    → Ready us out' (r >>= f)
Ready->>= r f (l, e, y) k = rw e (k l y)

abbrev other_text : Bool → List Subtoken → Bytes
other_text active ys = if active then [] else texts ys

no_text : (active : Bool) → (if active then texts [] else []) ≡ []
no_text true = refl
no_text false = refl

-- A branch is copied or skipped, up to the subtoken that ends it.
branch-Ready :
    (xs : List Subtoken) (f : ℕ) (to_else active : Bool) (l : SubtokenLexer) (out : Bytes)
    {t : Subtoken} {ts : List Subtoken}
    → length xs < f
    → IsBranch to_else xs
    → ends_branch to_else t.type ≡ true
    → Yields l (xs ++ t ∷ ts)
    → Ready
        (t ∷ ts)
        (out ++ (if active then texts xs else []))
        (branch f to_else active (prep l out))
unfolding branch
branch-Ready xs zero to_else active l out h b stop y = absurd (omega arith)
branch-Ready [] (suc f) to_else active l out h b stop y =
    let (l₁, p, y₁) = peek-Peeks out y in (l₁, rw (p, stop) (rw (no_text active, append-nil)), y₁)
branch-Ready (x ∷ xs) (suc f) to_else true l out {t} {ts} h b stop y =
    let (l₁, p, y₁) = peek-Peeks out y in
    rw (p, b.0)
      (Ready-text (append_assoc out x.str (texts xs)) (
        Ready->>= _ (λ r. branch f to_else true r) (copy-Ready out y₁)
          (λ l₂ y₂. branch-Ready xs f to_else true l₂ (out ++ x.str) (omega arith) b.1 stop y₂)))
branch-Ready (x ∷ xs) (suc f) to_else false l out h b stop y =
    let (l₁, p, y₁) = peek-Peeks out y in
    rw (p, b.0)
      (Ready->>= _ (λ r. branch f to_else false r) (skip-Ready out y₁)
        (λ l₂ y₂. branch-Ready xs f to_else false l₂ out (omega arith) b.1 stop y₂))

not_text :
    (active : Bool) (ys : List Subtoken)
    → (if not active then texts ys else []) ≡ other_text active ys
not_text true ys = refl
not_text false ys = refl

no_other_text : (active : Bool) → other_text active [] ≡ []
no_other_text true = refl
no_other_text false = refl

both_texts :
    (active : Bool) (out : Bytes) (xs ys : List Subtoken)
    → (out ++ (if active then texts xs else [])) ++ other_text active ys
      ≡ out ++ (if active then texts xs else texts ys)
both_texts true out xs ys = append-nil _
both_texts false out xs ys = ap (λ o. o ++ texts ys) (append-nil out)

else-ne-end : (e : Subtoken) → e.type ≡ directive_end → type_eq e.type directive_else ≡ false
unfolding type_eq
else-ne-end e h = rw h

else_branch-Ready :
    {other ys : List Subtoken} (f : ℕ) (active : Bool) (l : SubtokenLexer) (out : Bytes)
    (e : Subtoken) (ts : List Subtoken)
    → ElseBranch other ys
    → length ys < f
    → e.type ≡ directive_end
    → Yields l (other ++ e ∷ ts)
    → Ready (e ∷ ts) (out ++ other_text active ys) (else_branch f active (prep l out))
unfolding else_branch
else_branch-Ready f active l out e ts absent h stop y =
    let (l₁, p, y₁) = peek-Peeks out y in
    (l₁, rw (p, else-ne-end e stop) (rw (no_other_text active, append-nil)), y₁)
else_branch-Ready f active l out e ts (present {e = k} {ys = ys} is_else is_newline b) h stop y =
    let (l₁, p, y₁) = peek-Peeks out y in
    rw (p, (type_eq_iff k.type directive_else).1 is_else)
      (Ready->>= _ _ (skip-Ready out y₁) λ l₂ y₂.
        Ready->>= _ _ (expect-Ready out is_newline y₂) λ l₃ y₃.
          Ready-text (ap (λ o. out ++ o) (not_text active ys)) (
            branch-Ready ys f false (not active) l₃ out h b (rw stop (unfold ends_branch in refl))
              y₃))

ElseBranch-stops :
    {other ys : List Subtoken} (e : Subtoken) (ts : List Subtoken)
    → ElseBranch other ys
    → e.type ≡ directive_end
    → (u : Subtoken) × (us : List Subtoken) × (other ++ e ∷ ts ≡ u ∷ us)
      × (ends_branch true u.type ≡ true)
unfolding ends_branch
ElseBranch-stops e ts absent stop = (e, ts, refl, rw stop)
ElseBranch-stops e ts (present {e = k} {n} {ys} is_else is_newline b) stop =
    (k, n ∷ (ys ++ e ∷ ts), refl, rw is_else)

pub parse_if-Ready :
    (platform : Platform) (f : ℕ) (l : SubtokenLexer) (out : Bytes) (i w c n e n' : Subtoken)
    (xs other ys ts : List Subtoken) (active : Bool)
    → i.type ≡ directive_if
    → w.type ≡ whitespace
    → condition platform c.str ≡ ok active
    → n.type ≡ newline
    → IsBranch true xs
    → length xs < f
    → ElseBranch other ys
    → length ys < f
    → e.type ≡ directive_end
    → n'.type ≡ newline
    → Yields l (i ∷ w ∷ c ∷ n ∷ (xs ++ (other ++ (e ∷ n' ∷ ts))))
    → Ready ts (out ++ (if active then texts xs else texts ys)) (parse_if f platform (prep l out))
unfolding parse_if
parse_if-Ready platform f l out i w c n e n' xs other ys ts active hi hw hc hn bx fx o fy he hn' y =
    let (u, us, whole, stops) = ElseBranch-stops e (n' ∷ ts) o he in
    Ready->>= _ _ (expect-Ready out hi y) λ l₁ y₁. Ready->>= _ _ (expect-Ready out hw y₁) λ l₂ y₂.
      let (l₃, p, y₃) = peek-Peeks out y₂ in
      rw (p, hc)
        (Ready->>= _ _ (skip-Ready out y₃) λ l₄ y₄. Ready->>= _ _ (expect-Ready out hn y₄) λ l₅ y₅.
          Ready->>= _ _
            (branch-Ready xs f true active l₅ out fx bx stops
              (subst (λ z. Yields l₅ (xs ++ z)) whole y₅))
            λ l₆ y₆.
              Ready->>= _ _
                (else_branch-Ready f active l₆ _ e (n' ∷ ts) o fy he
                  (subst (Yields l₆) (sym whole) y₆))
                λ l₇ y₇.
                  Ready->>= _ _ (expect-Ready _ he y₇)
                    λ l₈ y₈. Ready-text (both_texts active out xs ys) (expect-Ready _ hn' y₈))
