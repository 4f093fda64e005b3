-- ===== src/Lexer/Pending.antt =====
-- The token buffer is a window on the list of the tokens that are still to come: `next` and `peek`
-- refine reading that list. `peek` is in the child module.
pub mod Peek
use native.Mathlib.Numerals.{add-one}
use three.Base.{
  ℕ, zero, suc, ◌+◌, ◌-◌, ◌≤◌, ◌<◌, ◌≡◌, refl, ◌∙◌, ap, subst, Bool, true, false, not, ◌&&◌, List,
  [], ◌∷◌, ◌++◌, Option, none, some, get_elem?, drop, drop-cons, if◌then◌else◌, leb, length,
  length-append, Bool-cases, inl, inr, Outcome, ok, ◌>>=◌, arith,
}
use three.Token.{Token}
use three.Lexer.Buffer.{
  TokenBuffer, is_whitespace, push, pop, take_front, next_significant, next, push_times, token_at,
  peek_loop, peek,
}

-- The tokens that a caller sees: all of them, or those that are not whitespace.
abbrev pub significant : Bool → List Token → List Token
significant filter [] = []
significant filter (t ∷ ts) =
    if filter && is_whitespace t then significant filter ts else t ∷ significant filter ts

-- The first of them, and the tokens behind it.
abbrev pub first_significant : Bool → List Token → Option (Token × List Token)
first_significant filter [] = none
first_significant filter (t ∷ ts) =
    if filter && is_whitespace t then first_significant filter ts else some (t, ts)

module _ {S : Type 0} (advance : S → Outcome (Token × S)) where
  -- Repeated calls of `advance` from a state give these tokens and lead to the state `last`.
  pub data Supplies (last : S) : S → List Token → Type 0 where
    stop : Supplies last last []
    more :
        {s s' : S} {t : Token} {ts : List Token}
        → advance s ≡ ok (t, s')
        → Supplies last s' ts
        → Supplies last s (t ∷ ts)

  -- The tokens to come: those of the buffer, then those that `advance` supplies.
  pub data Pending (last : S) (s : S) : List Token → List Token → Type 0 where
    supplied : {ts : List Token} → Supplies last s ts → Pending last s [] ts
    buffered :
        {t : Token} {tokens ts : List Token}
        → Pending last s tokens ts
        → Pending last s (t ∷ tokens) (t ∷ ts)

  -- A call returned `t`; the tokens `ts` are to come, and the mode is the same.
  abbrev pub Returns : S → List Token → Bool → Token → Outcome (Token × TokenBuffer S) → Type 0
  Returns last ts filter t r =
      (b : TokenBuffer S) × (r ≡ ok (t, b))
      × Pending last b.source b.tokens ts
      × (b.filter_whitespace ≡ filter)

  pub Returns-mode :
      {last : S} {ts : List Token} {t : Token} {m m' : Bool} {r : Outcome (Token × TokenBuffer S)}
      → m ≡ m'
      → Returns last ts m t r
      → Returns last ts m' t r
  Returns-mode e (b, q, p, same) = (b, q, p, same ∙ e)

  pub Returns-eq :
      {last : S} {ts : List Token} {t : Token} {m : Bool} {r r' : Outcome (Token × TokenBuffer S)}
      → r ≡ r'
      → Returns last ts m t r'
      → Returns last ts m t r
  Returns-eq e (b, q, p, same) = (b, e ∙ q, p, same)

  take_front-Returns :
      {last : S} (s : S) (tokens : List Token) (filter : Bool) {t : Token} {ts : List Token}
      → Pending last s tokens (t ∷ ts)
      → Returns last ts filter t
          (take_front advance (record { source = s; tokens = tokens; filter_whitespace = filter }))
  unfolding take_front push pop
  take_front-Returns s tokens filter {t} (supplied (more {s' = s'} e later)) =
      (record { source = s'; tokens = []; filter_whitespace = filter }, rw e, supplied later, refl)
  take_front-Returns s tokens filter (buffered {tokens = rest} p) =
      (record { source = s; tokens = rest; filter_whitespace = filter }, refl, p, refl)

  next_significant-Returns :
      {last : S} (f : ℕ) (b : TokenBuffer S) (ts : List Token) {t : Token} {rest : List Token}
      → Pending last b.source b.tokens ts
      → first_significant true ts ≡ some (t, rest)
      → length ts < f
      → Returns last rest b.filter_whitespace t (next_significant advance f b)
  unfolding next_significant
  next_significant-Returns zero b ts p e h = absurd (omega arith)
  next_significant-Returns (suc f) b [] p e h = cc
  next_significant-Returns {last} (suc f) b (x ∷ ts) {t} {rest} p e h =
      let (c, taken, p', same) = take_front-Returns b.source b.tokens b.filter_whitespace p in
      elim (Bool-cases (is_whitespace x)) [
        | inl white ↦
            rw (taken, white)
              (Returns-mode same (next_significant-Returns f c ts p' (rw white at e) (omega arith)))
        | inr dark ↦
            let found = rw dark at e in
            let et : x ≡ t = cc in
            let er : ts ≡ rest = cc in
            (c, rw (taken, dark) (rw et), subst (Pending last c.source c.tokens) er p', same)
      ]

  first_significant_all :
      (ts : List Token) {t : Token} {rest : List Token}
      → first_significant false ts ≡ some (t, rest)
      → ts ≡ t ∷ rest
  first_significant_all [] e = cc
  first_significant_all (x ∷ ts) e = cc

  -- Where the buffered tokens and those that `advance` will supply are `ts`, and `t` is the first
  -- of them that its caller is to see (any token, or any that is not whitespace), `next` returns
  -- `t`, what stands behind it in `ts` is to come, and the mode is as before; the fuel is above the
  -- length of `ts`.
  pub next-Returns :
      {last : S} (f : ℕ) (b : TokenBuffer S) (ts : List Token) (t : Token) (rest : List Token)
      → Pending last b.source b.tokens ts
      → first_significant b.filter_whitespace ts ≡ some (t, rest)
      → length ts < f
      → Returns last rest b.filter_whitespace t (next advance f b)
  unfolding next
  next-Returns {last} f b ts t rest p e h =
      let choose =
        λ (m : Bool). if not m then take_front advance b else next_significant advance f b in
      elim (Bool-cases b.filter_whitespace) [
        | inl on ↦ Returns-eq (ap choose on) (
            next_significant-Returns f b ts p
              (subst (λ m. first_significant m ts ≡ some (t, rest)) on e) h)
        | inr off ↦ Returns-eq (ap choose off) (
            take_front-Returns b.source b.tokens b.filter_whitespace (
              subst (Pending last b.source b.tokens)
                (first_significant_all ts
                  (subst (λ m. first_significant m ts ≡ some (t, rest)) off e))
                p))
      ]
