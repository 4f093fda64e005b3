-- ===== src/Lexer/Lookahead.antt =====
-- Looking ahead and then reading: `peek`, `nextIf` and `next` agree on the next token.
use three.Base.{
  ℕ, suc, ◌<◌, ◌≡◌, sym, ◌∙◌, subst, Bool, ◌&&◌, List, [], ◌∷◌, some, get_elem?, if◌then◌else◌,
  Bool-cases, inl, inr, length, Outcome, ok, arith,
}
use three.Token.{Token}
use three.Lexer.Buffer.{TokenBuffer, is_whitespace, next_if}
use three.Lexer.Pending.Peek.{peek-Returns}
use three.Lexer.Pending.{significant, first_significant, Pending, next-Returns}

first_of_significant :
    (filter : Bool) (ts : List Token) {t : Token} {rest : List Token}
    → first_significant filter ts ≡ some (t, rest)
    → get_elem? (significant filter ts) 0 ≡ some t
first_of_significant filter [] e = cc
first_of_significant filter (x ∷ ts) e = elim (Bool-cases (filter && is_whitespace x)) [
  | inl skipped ↦ rw skipped (first_of_significant filter ts (rw skipped at e))
  | inr seen ↦ rw seen (let found = rw seen at e in cc)
]

module _ {S : Type 0} (advance : S → Outcome (Token × S)) where
  -- A call of `next_if` returned `taken`, with the tokens `ts` to come and the mode unchanged.
  abbrev pub Answers : S → List Token → Bool → Bool → Outcome (Bool × TokenBuffer S) → Type 0
  Answers last ts filter taken r =
      (b : TokenBuffer S) × (r ≡ ok (taken, b))
      × Pending advance last b.source b.tokens ts
      × (b.filter_whitespace ≡ filter)

  -- `nextIf` takes the next token that its caller is to see if it passes the test, and otherwise
  -- leaves all the tokens to come; the fuel is above the number of tokens to come by two.
  pub next_if-Answers :
      {last : S} (f : ℕ) (test : Token → Bool) (b : TokenBuffer S) (ts : List Token) (t : Token)
      (rest : List Token)
      → Pending advance last b.source b.tokens ts
      → first_significant b.filter_whitespace ts ≡ some (t, rest)
      → suc (length ts) < f
      → Answers last
          (if test t then rest else ts)
          b.filter_whitespace
          (test t)
          (next_if advance f test b)
  unfolding next_if
  next_if-Answers {last} f test b ts t rest p e h =
      let (c, peeked, q, same) =
        peek-Returns advance f 0 b ts t p (first_of_significant b.filter_whitespace ts e) h in
      elim (Bool-cases (test t)) [
        | inl passed ↦
            let e' = subst (λ m. first_significant m ts ≡ some (t, rest)) (sym same) e in
            let (d, taken, r, same') = next-Returns advance f c ts t rest q e' (omega arith) in
            (d, rw peeked (rw passed (rw taken)), rw passed r, same' ∙ same)
        | inr failed ↦ (c, rw peeked (rw failed), rw failed q, same)
      ]
