-- ===== src/Lexer/Pending/Peek.antt =====
-- `Lexer::peek` over the tokens to come.
use native.Mathlib.Numerals.{add-one}
use three.Base.{
  ℕ, zero, suc, ◌+◌, ◌-◌, ◌≤◌, ◌<◌, ◌≡◌, refl, ◌∙◌, ap, subst, Bool, true, false, not, List, [],
  ◌∷◌, ◌++◌, some, get_elem?, drop, drop-cons, if◌then◌else◌, leb, length, length-append,
  Bool-cases, inl, inr, Outcome, ok, ◌>>=◌, arith,
}
use three.Token.{Token}
use three.Lexer.Buffer.{TokenBuffer, is_whitespace, push, push_times, token_at, peek_loop, peek}
use three.Lexer.Pending.{
  significant, stop, more, Pending, supplied, buffered, Returns, Returns-mode, Returns-eq,
}

module _ {S : Type 0} (advance : S → Outcome (Token × S)) where
  -- The buffer holds the front of the tokens to come.
  get_elem?-Pending :
      {last s : S} {tokens ts : List Token} (i : ℕ)
      → Pending advance last s tokens ts
      → i < length tokens
      → get_elem? tokens i ≡ get_elem? ts i
  get_elem?-Pending i (supplied x) h = elim h [ ]
  get_elem?-Pending zero (buffered p) h = refl
  get_elem?-Pending (suc i) (buffered p) h = get_elem?-Pending i p (omega arith)

  length-Pending :
      {last s : S} {tokens ts : List Token}
      → Pending advance last s tokens ts
      → length tokens ≤ length ts
  length-Pending (supplied x) = omega arith
  length-Pending (buffered p) = omega (arith, length-Pending p)

  -- A call that read tokens into the buffer, up to a length above `n`.
  abbrev Grows : S → List Token → Bool → ℕ → Outcome (TokenBuffer S) → Type 0
  Grows last ts filter n r =
      (b : TokenBuffer S) × (r ≡ ok b)
      × Pending advance last b.source b.tokens ts
      × (b.filter_whitespace ≡ filter)
      × (n ≡ length b.tokens)

  push-Pending :
      {last : S} (s : S) {tokens ts : List Token}
      → Pending advance last s tokens ts
      → length tokens < length ts
      → (t : Token) × (s' : S) × (advance s ≡ ok (t, s'))
        × Pending advance last s' (tokens ++ t ∷ []) ts
  push-Pending s (supplied stop) h = elim h [ ]
  push-Pending s (supplied (more {s' = s'} {t} e later)) h = (t, s', e, buffered (supplied later))
  push-Pending s (buffered {t = x} p) h =
      let (t, s', e, q) = push-Pending s p (omega arith) in (t, s', e, buffered q)

  push-Grows :
      {last : S} (b : TokenBuffer S) (ts : List Token)
      → Pending advance last b.source b.tokens ts
      → length b.tokens < length ts
      → Grows last ts b.filter_whitespace (suc (length b.tokens)) (push advance b)
  unfolding push
  push-Grows b ts p h =
      let (t, s', e, q) = push-Pending b.source p h in
      (
        record b { source = s'; tokens = b.tokens ++ t ∷ [] },
        rw e,
        q,
        refl,
        omega (arith, length-append {0} b.tokens (t ∷ [])),
      )

  token_at-Pending :
      {last : S} (b : TokenBuffer S) (ts : List Token) (i : ℕ) {t : Token}
      → Pending advance last b.source b.tokens ts
      → i < length b.tokens
      → get_elem? ts i ≡ some t
      → token_at advance b i ≡ ok (t, b)
  unfolding token_at
  token_at-Pending b ts i p h e = rw (get_elem?-Pending i p h ∙ e, token_at)

  push_times-Grows :
      {last : S} (k : ℕ) (b : TokenBuffer S) (ts : List Token)
      → Pending advance last b.source b.tokens ts
      → length b.tokens + k ≤ length ts
      → Grows last ts b.filter_whitespace (length b.tokens + k) (push_times advance k b)
  unfolding push_times
  push_times-Grows zero b ts p h = (b, refl, p, refl, omega arith)
  push_times-Grows (suc k) b ts p h =
      let (c, e, q, same, grown) = push-Grows b ts p (omega arith) in
      let (d, e', q', same', grown') = push_times-Grows k c ts q (omega arith) in
      (d, rw (e, e'), q', same' ∙ same, omega arith)

  -- Before the buffer is read at an index, it is made long enough.
  grow_to :
      {last : S} (b : TokenBuffer S) (ts : List Token) (i : ℕ)
      → Pending advance last b.source b.tokens ts
      → i ≤ length b.tokens
      → i < length ts
      → (c : TokenBuffer S) × ((if leb (length b.tokens) i then push advance b else ok b) ≡ ok c)
        × Pending advance last c.source c.tokens ts
        × (c.filter_whitespace ≡ b.filter_whitespace)
        × (i < length c.tokens)
  grow_to b ts i p h k = elim (Bool-cases (leb (length b.tokens) i)) [
    | inl short ↦
        let (c, e, q, same, grown) = push-Grows b ts p (ground arith) in
        (c, rw (short, e), q, same, ground arith)
    | inr long ↦ (b, rw long, p, refl, ground arith)
  ]

  get_elem?_lt : (ts : List Token) (i : ℕ) {t : Token} → get_elem? ts i ≡ some t → i < length ts
  get_elem?_lt [] i e = cc
  get_elem?_lt (x ∷ ts) zero e = omega arith
  get_elem?_lt (x ∷ ts) (suc i) e = omega (arith, get_elem?_lt ts i e)

  -- Past a token that counts: it is the result, or the loop goes on.
  peek_found :
      {last : S} (f i n : ℕ) (c : TokenBuffer S) (ts rest : List Token) {x t : Token}
      → Pending advance last c.source c.tokens ts
      → i < length c.tokens
      → get_elem? ts i ≡ some x
      → ((m : ℕ)
          → get_elem? (significant true rest) m ≡ some t
          → Returns advance last ts c.filter_whitespace t (peek_loop advance f (i + 1) (suc m) c))
      → get_elem? (x ∷ significant true rest) n ≡ some t
      → 0 < f
      → Returns advance last ts c.filter_whitespace t (peek_loop advance f (i + 1) n c)
  unfolding peek_loop
  peek_found zero i n c ts rest q room here again e k = elim k [ ]
  peek_found (suc f) i zero c ts rest q room here again e k =
      let back : i + 1 - 1 ≡ i = omega arith in
      (c, rw back (token_at-Pending c ts i q room (here ∙ e)), q, refl)
  peek_found (suc f) i (suc n) c ts rest q room here again e k = again n e

  peek_loop-Returns :
      {last : S} (f i n : ℕ) (b : TokenBuffer S) (ts rest : List Token) {t : Token}
      → Pending advance last b.source b.tokens ts
      → i ≤ length b.tokens
      → drop i ts ≡ rest
      → get_elem? (significant true rest) n ≡ some t
      → suc (length rest) < f
      → Returns advance last ts b.filter_whitespace t (peek_loop advance f i (suc n) b)
  unfolding peek_loop
  peek_loop-Returns zero i n b ts rest p h d e k = elim k [ ]
  peek_loop-Returns (suc f) i n b ts [] p h d e k = cc
  peek_loop-Returns {last} (suc f) i n b ts (x ∷ rest) {t} p h d e k =
      let (here, behind) = drop-cons i ts d in
      let (c, grown, q, same, room) = grow_to b ts i p h (get_elem?_lt ts i here) in
      let next_d : drop (i + 1) ts ≡ rest = rw add-one behind in
      elim (Bool-cases (is_whitespace x)) [
        | inl white ↦
            rw (grown, token_at-Pending c ts i q room here, white)
              (Returns-mode advance same (
                peek_loop-Returns f (i + 1) n c ts rest q (omega arith) next_d (rw white at e)
                  (omega arith)))
        | inr dark ↦
            rw (grown, token_at-Pending c ts i q room here, dark)
              (Returns-mode advance same (
                peek_found f i n c ts rest q room here
                  (λ m e'.
                    peek_loop-Returns f (i + 1) m c ts rest q (omega arith) next_d e' (omega arith))
                  (rw dark at e) (omega arith)))
      ]

  significant_all : (ts : List Token) → significant false ts ≡ ts
  significant_all [] = refl
  significant_all (t ∷ ts) = ap (λ us. t ∷ us) (significant_all ts)

  -- `peek` at distance `n + 1` returns token number `n` of those to come that its caller is to see,
  -- and the tokens to come and the mode stay as they are; the fuel is above the length of `ts` by
  -- two.
  pub peek-Returns :
      {last : S} (f n : ℕ) (b : TokenBuffer S) (ts : List Token) (t : Token)
      → Pending advance last b.source b.tokens ts
      → get_elem? (significant b.filter_whitespace ts) n ≡ some t
      → suc (length ts) < f
      → Returns advance last ts b.filter_whitespace t (peek advance f (suc n) b)
  unfolding peek
  peek-Returns {last} f n b ts t p e h =
      let plain = push_times advance (suc n - length b.tokens) b >>= λ c. token_at advance c n in
      let choose = λ (m : Bool). if not m then plain else peek_loop advance f 0 (suc n) b in
      let seen = λ (m : Bool). get_elem? (significant m ts) n ≡ some t in
      elim (Bool-cases b.filter_whitespace) [
        | inl on ↦
            Returns-eq advance (ap choose on)
              (peek_loop-Returns f 0 n b ts ts p (omega arith) refl (subst seen on e) h)
        | inr off ↦
            let at_n = rw significant_all at (subst seen off e) in
            let (c, grown, q, same, room) =
              push_times-Grows (suc n - length b.tokens) b ts p
                (omega (arith, get_elem?_lt ts n at_n, length-Pending p)) in
            Returns-eq advance (ap choose off)
              (c, rw (grown, token_at-Pending c ts n q (omega arith) at_n), q, same)
      ]
