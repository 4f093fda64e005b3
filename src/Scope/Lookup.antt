-- ===== src/Scope/Lookup.antt =====
-- Looking up variables in a scope and its parents: definition, shadowing, capture and reference.
use three.Base.{
  ◌≡◌, refl, sym, ◌∙◌, ap, Bool, true, false, ◌||◌, List, [], ◌∷◌, ◌++◌, append_assoc, append-nil,
  none, some, if◌then◌else◌, Bool-cases, Option-cases, inl, inr, ◌↔◌, Bytes, bytes_eq, bytes_eq_iff,
  All, Outcome, ok, aborted, arith,
}
use three.QualifiedName.{QualifiedName, to_s, prepend_name}
use three.Scope.{
  Frame, Scope, find, mentions, variable_in, variable_for_name, define_variable, referenced_in,
  referenced_variable, add_referenced_variable, captured_in, captured_variable, capture_variable,
  namespace_from, full_namespace, qualified_name_with_identifier,
}
use three.Scope.Names.{find-insert}

mentions-append : (name : Bytes) (ns : List Bytes) → mentions name (ns ++ name ∷ []) ≡ true
unfolding mentions
mentions-append name [] = rw ((bytes_eq_iff name name).1 refl) refl
mentions-append name (n ∷ ns) = ground (arith, mentions-append name ns)

module _ {V : Type 0} where
  -- A lookup after a definition finds the variable under each name with the same C name, in front of
  -- what the parents define; the lookup of any other name is as before.
  pub variable_for_name-define_variable :
      (q r : QualifiedName) (v : V) (s : Scope V)
      → variable_for_name r (define_variable q v s)
        ≡ (if bytes_eq (to_s q) (to_s r) then some v else variable_for_name r s)
  unfolding variable_for_name variable_in define_variable
  variable_for_name-define_variable q r v (s, ps) = elim (Bool-cases (bytes_eq (to_s q) (to_s r))) [
    | inl same ↦ rw (find-insert (to_s q) (to_s r) v s.variables, variable_in) (rw same)
    | inr other ↦
        rw (find-insert (to_s q) (to_s r) v s.variables, variable_in) (rw (other, variable_in))
  ]

  abbrev any_capturing : List (Frame V) → Bool
  any_capturing [] = false
  any_capturing (s ∷ ps) = s.capturing || any_capturing ps

  -- `place` is the innermost scope that defines the name; a scope inside it captures, or `passed`.
  pub record IsCaptured (name : Bytes) (passed : Bool) (fs : List (Frame V)) : Type 0 where
    pub inner : List (Frame V)
    pub place : Frame V
    pub outer : List (Frame V)
    pub value : V
    pub splits : fs ≡ inner ++ place ∷ outer
    pub unseen : All (λ f. find name f.variables ≡ none) inner
    pub seen : find name place.variables ≡ some value
    pub crossed : (passed || any_capturing inner) ≡ true

  captured_in-IsCaptured :
      (name : Bytes) (passed : Bool) (fs : List (Frame V))
      → captured_in name passed fs ≡ true
      → IsCaptured name passed fs
  unfolding captured_in
  captured_in-IsCaptured name passed [] h = cc
  captured_in-IsCaptured name passed (s ∷ ps) h = elim (Option-cases (find name s.variables)) [
    | inl unseen ↦
        let c =
          captured_in-IsCaptured name (passed || s.capturing) ps (rw (unseen, captured_in) at h) in
        record {
          inner = s ∷ c.inner;
          place = c.place;
          outer = c.outer;
          value = c.value;
          splits = ap (λ x. s ∷ x) c.splits;
          unseen = (unseen, c.unseen);
          seen = c.seen;
          crossed = ground (arith, c.crossed);
        }
    | inr (v, seen) ↦ record {
      inner = [];
      place = s;
      outer = ps;
      value = v;
      splits = refl;
      unseen = tt;
      seen = seen;
      crossed = ground (arith, rw (seen, captured_in) at h);
    }
  ]

  captured_in_of_split :
      (name : Bytes) (passed : Bool) (inner outer : List (Frame V)) (place : Frame V) (v : V)
      → All (λ f. find name f.variables ≡ none) inner
      → find name place.variables ≡ some v
      → (passed || any_capturing inner) ≡ true
      → captured_in name passed (inner ++ place ∷ outer) ≡ true
  unfolding captured_in
  captured_in_of_split name passed [] outer place v unseen seen crossed =
      rw (seen, captured_in) (ground (arith, crossed))
  captured_in_of_split name passed (s ∷ inner) outer place v unseen seen crossed =
      rw (unseen.0, captured_in)
        (captured_in_of_split name (passed || s.capturing) inner outer place v unseen.1 seen
          (ground (arith, crossed)))

  -- A variable is captured exactly when a scope inside the innermost one that defines it captures.
  pub captured_variable-IsCaptured :
      (name : Bytes) (s : Frame V) (ps : List (Frame V))
      → (captured_variable name (s, ps) ≡ true) ↔ IsCaptured name false (s ∷ ps)
  unfolding captured_variable
  captured_variable-IsCaptured name s ps = (
    captured_in-IsCaptured name false (s ∷ ps),
    λ c.
        rw c.splits (
          captured_in_of_split name false c.inner c.outer c.place c.value c.unseen c.seen
            c.crossed),
  )

  -- Capturing a variable twice is capturing it once, and the scope then holds it.
  capture_variable-capture_variable :
      (name : Bytes) (s : Frame V) (ps : List (Frame V))
      → (capture_variable name (capture_variable name (s, ps)) ≡ capture_variable name (s, ps))
        × (mentions name (capture_variable name (s, ps)).0.captured_variables ≡ true)
        × ((capture_variable name (s, ps)).1 ≡ ps)
  unfolding capture_variable
  capture_variable-capture_variable name s ps =
      elim (Bool-cases (mentions name s.captured_variables)) [
        | inl there ↦ (rw there (rw there refl), rw there there, rw there refl)
        | inr new ↦
            let added = mentions-append name s.captured_variables in
            (rw new (rw added refl), rw new added, rw new refl)
      ]

  referenced_in_of_mentions :
      (name : Bytes) (passed : Bool) (s : Frame V) (ps : List (Frame V))
      → mentions name s.referenced_variables ≡ true
      → referenced_in name passed s ps ≡ true
  unfolding referenced_in
  referenced_in_of_mentions name passed s [] h = h
  referenced_in_of_mentions name passed s (p ∷ ps) h = rw h

  aborted_ne_ok : {x : Scope V} → ¬ (Path (Outcome (Scope V)) aborted (ok x))
  aborted_ne_ok e = cc

  ok-injective : {x y : Scope V} → Path (Outcome (Scope V)) (ok x) (ok y) → x ≡ y
  ok-injective e = cc

  -- A reference to a name is added at most once: the name is referenced behind it, and the assertion
  -- against a second one fails.
  pub add_referenced_variable-add_referenced_variable :
      (name : Bytes) (s t : Scope V)
      → add_referenced_variable name s ≡ ok t
      → (referenced_variable name s ≡ false)
        × (referenced_variable name t ≡ true)
        × (add_referenced_variable name t ≡ aborted)
  unfolding add_referenced_variable
  add_referenced_variable-add_referenced_variable name (s, ps) t e =
      elim (Bool-cases (referenced_variable name (s, ps))) [
        | inl there ↦ absurd (aborted_ne_ok (rw there at e))
        | inr new ↦
            let made = ok-injective (rw new at e) in
            let found : referenced_variable name t ≡ true =
              rw (← made, referenced_variable)
                (referenced_in_of_mentions name false _ ps
                  (mentions-append name s.referenced_variables)) in
            (new, found, rw found)
      ]

  -- The components of the scope's namespace and those of its parents, the outermost first.
  abbrev pub path : List (Frame V) → List Bytes
  path [] = []
  path (s ∷ ps) = path ps ++ s.namespace.components

  namespace_from-path :
      (q : QualifiedName) (ps : List (Frame V))
      → namespace_from q ps ≡ record q { components = path ps ++ q.components }
  unfolding namespace_from prepend_name
  namespace_from-path q [] = refl
  namespace_from-path q (s ∷ ps) =
      namespace_from-path (record q { components = s.namespace.components ++ q.components }) ps
      ∙ ap (λ c. record q { components = c })
          (sym (append_assoc (path ps) s.namespace.components q.components))

  -- A declared identifier gets the namespaces of its scope and of all the parents.
  pub qualified_name_with_identifier-path :
      (name : Bytes) (s : Frame V) (ps : List (Frame V))
      → qualified_name_with_identifier name (s, ps)
        ≡ record { components = path (s ∷ ps); name = name }
  unfolding qualified_name_with_identifier full_namespace prepend_name
  qualified_name_with_identifier-path name s ps =
      rw (namespace_from-path s.namespace ps) (rw append-nil refl)
