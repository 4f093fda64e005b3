-- ===== src/QualifiedName/Mangling.antt =====
-- The C name that `to_s` makes of a qualified name.
use three.Base.{
  ℕ, ◌≡◌, ◌≢◌, refl, sym, ◌∙◌, ap₂, subst, true, false, List, [], ◌∷◌, ◌++◌, tail_eq, head_eq, All,
  All-append_right, Bytes, bytes_eq, bytes_eq_iff, ok, ◌>>=◌, Bool-cases, inl, inr, arith, some,
}
use three.QualifiedName.{
  QualifiedName, separator, join, to_s, set_name, append_component, split_last,
  shift_last_component_to_name,
}

-- No `3` stands in the name or in a component.
abbrev IsFree : Bytes → Type 0
IsFree = All (λ c. c ≢ b'3')

abbrev pub IsManglable : QualifiedName → Type 0
IsManglable q = All IsFree q.components × IsFree q.name × (q.name ≢ [])

join-cons :
    (name c : Bytes) (cs : List Bytes)
    → name ≢ []
    → join name (c ∷ cs) ≡ c ++ (separator ++ join name cs)
unfolding join
join-cons name c cs ne = elim (Bool-cases (bytes_eq name [])) [
  | inl blank ↦ absurd (ne ((bytes_eq_iff _ _).0 blank))
  | inr more ↦ rw more
]

-- A text without `3` does not run into the separator that follows it.
separator-ne : (c : ℕ) (b x y : Bytes) → IsFree b → separator ++ x ≢ c ∷ (b ++ (separator ++ y))
separator-ne c [] x y f e = absurd (omega (arith, head_eq _ _ _ _ (tail_eq _ _ _ _ e)))
separator-ne c (d ∷ b) x y f e = f.0 (sym (head_eq _ _ _ _ (tail_eq _ _ _ _ e)))

-- The separator is found again behind a text without `3`.
split_at_separator :
    (a b x y : Bytes)
    → IsFree a
    → IsFree b
    → a ++ (separator ++ x) ≡ b ++ (separator ++ y)
    → (a ≡ b) × (x ≡ y)
split_at_separator [] [] x y fa fb e = (refl, tail_eq _ _ _ _ (tail_eq _ _ _ _ (tail_eq _ _ _ _ e)))
split_at_separator [] (c ∷ b) x y fa fb e = absurd (separator-ne c b x y fb.1 e)
split_at_separator (c ∷ a) [] x y fa fb e = absurd (separator-ne c a y x fa.1 (sym e))
split_at_separator (c ∷ a) (d ∷ b) x y fa fb e =
    let rest = split_at_separator a b x y fa.1 fb.1 (tail_eq _ _ _ _ e) in
    (ap₂ (λ u v. u ∷ v) (head_eq _ _ _ _ e) rest.0, rest.1)

free-ne-separated : (n a x : Bytes) → IsFree n → n ≢ a ++ (separator ++ x)
free-ne-separated n a x f e =
    let parts = All-append_right (λ c. c ≢ b'3') a (separator ++ x) (subst IsFree e f) in
    parts.1.0 refl

join-injective :
    (m n : Bytes) (cs ds : List Bytes)
    → m ≢ []
    → n ≢ []
    → IsFree m
    → IsFree n
    → All IsFree cs
    → All IsFree ds
    → join m cs ≡ join n ds
    → (m ≡ n) × (cs ≡ ds)
join-injective m n [] [] bm bn fm fn fc fd e = (unfold join in e, refl)
join-injective m n [] (d ∷ ds) bm bn fm fn fc fd e =
    absurd (free-ne-separated m d (join n ds) fm (unfold join in (e ∙ join-cons n d ds bn)))
join-injective m n (c ∷ cs) [] bm bn fm fn fc fd e =
    absurd
      (free-ne-separated n c (join m cs) fn (sym (sym (join-cons m c cs bm) ∙ (unfold join in e))))
join-injective m n (c ∷ cs) (d ∷ ds) bm bn fm fn fc fd e =
    let (head, tail) =
      split_at_separator c d _ _ fc.0 fd.0
        (sym (join-cons m c cs bm) ∙ (e ∙ join-cons n d ds bn)) in
    let (name, later) = join-injective m n cs ds bm bn fm fn fc.1 fd.1 tail in
    (name, ap₂ (λ u v. u ∷ v) head later)

-- Two names with the same C name are one name, if neither has a `3` in its name or in a component
-- and their names are not blank.
pub to_s-injective : (q r : QualifiedName) → IsManglable q → IsManglable r → to_s q ≡ to_s r → q ≡ r
unfolding to_s
to_s-injective q r fq fr e =
    let (name, components) =
      join-injective q.name r.name q.components r.components fq.2 fr.2 fq.1 fr.1 fq.0 fr.0 e in
    λ i. record { components = components i; name = name i }

split_last-append : (cs : List Bytes) (c : Bytes) → split_last (cs ++ c ∷ []) ≡ some (cs, c)
unfolding split_last
split_last-append [] c = refl
split_last-append (d ∷ []) c = refl
split_last-append (d ∷ x ∷ cs) c = rw (split_last-append (x ∷ cs) c)

not_blank : (c : Bytes) → c ≢ [] → bytes_eq c [] ≡ false
not_blank c ne = elim (Bool-cases (bytes_eq c [])) [
  | inl blank ↦ absurd (ne ((bytes_eq_iff _ _).0 blank))
  | inr more ↦ more
]

-- Where the name is blank, a component that is not blank and is appended last becomes the name when
-- the last component is shifted, and the components are as before.
shift-append :
    (q : QualifiedName) (c : Bytes)
    → q.name ≡ []
    → c ≢ []
    → (append_component c q >>= shift_last_component_to_name)
      ≡ ok (record { components = q.components; name = c })
unfolding append_component shift_last_component_to_name set_name
shift-append q c blank ne =
    let there : bytes_eq c [] ≡ false = not_blank c ne in
    let here : bytes_eq q.name [] ≡ true = (bytes_eq_iff _ _).1 blank in
    rw (there) (rw here (rw (split_last-append q.components c) (rw there)))
