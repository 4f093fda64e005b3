-- ===== src/TypeParser/Names.antt =====
-- Qualified names: looking ahead for one and reading one.
use three.Base.{
  ℕ, zero, suc, ◌<◌, ◌≡◌, ◌≢◌, refl, ◌∙◌, ap, true, false, List, [], ◌∷◌, ◌++◌, none, some,
  if◌then◌else◌, Bytes, bytes_eq, bytes_eq_iff, length, All, append_assoc, drop, Bool-cases, inl,
  inr, Outcome, ok, aborted, out_of_fuel, ◌>>=◌, arith,
}
use three.Token.Kind.{TokenType, type_eq}
use three.QualifiedName.{
  QualifiedName, unnamed, append_component, shift_last_component_to_name, split_last, set_name,
}
use three.ParseHelper.{Stream, front, rest_of, is_at}
use three.TypeParser.{continues, peek_components, peek_qualified_name}
use three.TypeParser.Parsing.{parse_components, parse_qualified_name}
use three.TypeParser.Syntax.{colon, spell_name}
use three.TypeParser.Meaning.{qualified}

continues-identifier :
    (ts : Stream) → continues ts ≡ true → is_at TokenType.identifier (drop 2 ts) ≡ true
continues-identifier ts h = ground arith

bind_agree {ℓ κ μ} :
    {A : Type ℓ} {B : Type κ} {C : Type μ} (o : Outcome A) (f : A → Outcome C) (g : A → Outcome B)
    (k : B → Outcome C)
    → ((a : A) → f a ≡ (g a >>= k))
    → (o >>= f) ≡ ((o >>= g) >>= k)
bind_agree (ok a) f g k h = h a
bind_agree aborted f g k h = refl
bind_agree out_of_fuel f g k h = refl

components_agree :
    (f : ℕ) (name : QualifiedName) (ts : Stream)
    → is_at TokenType.identifier ts ≡ true
    → peek_components f name ts
      ≡ (parse_components f name ts >>= λ (found, ts'). ok (some found, ts'))
unfolding peek_components parse_components
components_agree zero name ts h = refl
components_agree (suc f) name ts h = rw h (
    bind_agree (append_component (front ts).str name) _ _ _ λ name'.
      (elim (Bool-cases (continues (rest_of ts))) [
        | inl more ↦ rw more (
            components_agree f name' (drop 2 (rest_of ts)) (continues-identifier (rest_of ts) more))
        | inr last ↦ rw last refl
      ]))

bind_twice {ℓ κ μ ν} :
    {A : Type ℓ} {B : Type κ} {C : Type μ} {D : Type ν} (o : Outcome A) (f : A → Outcome B)
    (g : B → Outcome D) (h : A → Outcome C) (k : C → Outcome D)
    → ((a : A) → (f a >>= g) ≡ (h a >>= k))
    → ((o >>= f) >>= g) ≡ ((o >>= h) >>= k)
bind_twice (ok a) f g h k e = e a
bind_twice aborted f g h k e = refl
bind_twice out_of_fuel f g h k e = refl

pub names_agree :
    (f : ℕ) (ts : Stream)
    → is_at TokenType.identifier ts ≡ true
    → peek_qualified_name f ts
      ≡ (parse_qualified_name f true ts >>= λ (name, ts'). ok (some name, ts'))
unfolding peek_qualified_name parse_qualified_name
names_agree f ts there = rw (components_agree f unnamed ts there) (
    bind_twice (parse_components f unnamed ts) _ _ _ _
      λ (name, ts'). (bind_agree (shift_last_component_to_name name) _ _ _ λ name'. refl))

none_found :
    (f : ℕ) (ts : Stream)
    → is_at TokenType.identifier ts ≡ false
    → (peek_qualified_name (suc f) ts ≡ ok (none, ts))
      × (parse_qualified_name (suc f) true ts ≡ aborted)
unfolding peek_qualified_name parse_qualified_name
none_found f ts other = (rw other refl, rw other refl)

-- Looking ahead for a qualified name finds the name that reading it yields, and the tokens behind it;
-- where no identifier leads it finds none, and reading fails.
pub peek-parse_qualified_name :
    (f : ℕ) (ts : Stream)
    → (peek_qualified_name (suc f) ts ≡ (
        if is_at TokenType.identifier ts
        then (parse_qualified_name (suc f) true ts >>= λ (name, ts'). ok (some name, ts'))
        else ok (none, ts)))
      × (is_at TokenType.identifier ts ≡ false → parse_qualified_name (suc f) true ts ≡ aborted)
peek-parse_qualified_name f ts = (
  elim (Bool-cases (is_at TokenType.identifier ts)) [
    | inl there ↦ rw (there) (names_agree (suc f) ts there)
    | inr other ↦ rw (other) (none_found f ts other).0
  ],
  λ other. (none_found f ts other).1,
)

pub not_blank : (s : Bytes) → s ≢ [] → bytes_eq s [] ≡ false
not_blank s h = ground (arith, bytes_eq_iff s [], h)

append_component_of :
    (s : Bytes) (q : QualifiedName)
    → s ≢ []
    → append_component s q ≡ ok (record q { components = q.components ++ s ∷ [] })
unfolding append_component
append_component_of s q h = rw (not_blank s h) refl

more_follows :
    (c : Bytes) (cs : List Bytes) (ts : Stream)
    → continues (colon ∷ colon ∷ spell_name c cs ts) ≡ true
unfolding type_eq
more_follows c [] ts = refl
more_follows c (d ∷ ds) ts = refl

parse_components-spell :
    (f : ℕ) (name : QualifiedName) (first : Bytes) (more : List Bytes) (ts : Stream)
    → length more < f
    → All (λ s. s ≢ []) (first ∷ more)
    → continues ts ≡ false
    → parse_components f name (spell_name first more ts)
      ≡ ok (record name { components = name.components ++ first ∷ more }, ts)
unfolding parse_components type_eq
parse_components-spell zero name first more ts h full last = elim h [ ]
parse_components-spell (suc f) name first [] ts h full last =
    rw (append_component_of first name full.0) (rw last refl)
parse_components-spell (suc f) name first (c ∷ cs) ts h full last =
    rw (append_component_of first name full.0) (
      rw (more_follows c cs ts) (
        parse_components-spell f (record name { components = name.components ++ first ∷ [] }) c cs
          ts (omega arith) full.1 last
        ∙ ap (λ cs'. ok (record name { components = cs' }, ts))
            (append_assoc name.components (first ∷ []) (c ∷ cs))))

split_last-qualified :
    (first : Bytes) (more : List Bytes)
    → split_last (first ∷ more)
      ≡ some ((qualified first more).components, (qualified first more).name)
unfolding split_last
split_last-qualified first [] = refl
split_last-qualified first (c ∷ cs) = rw (split_last-qualified c cs) refl

pub name_full :
    (first : Bytes) (more : List Bytes)
    → All (λ s. s ≢ []) (first ∷ more)
    → (qualified first more).name ≢ []
name_full first [] full = full.0
name_full first (c ∷ cs) full = name_full c cs full.1

-- Reading the tokens of a qualified name yields the name.
pub parse_qualified_name-spell :
    (f : ℕ) (first : Bytes) (more : List Bytes) (ts : Stream)
    → length more < f
    → All (λ s. s ≢ []) (first ∷ more)
    → continues ts ≡ false
    → parse_qualified_name f true (spell_name first more ts) ≡ ok (qualified first more, ts)
unfolding parse_qualified_name shift_last_component_to_name set_name bytes_eq
parse_qualified_name-spell f first more ts h full last =
    rw (parse_components-spell f unnamed first more ts h full last)
      (rw (split_last-qualified first more) (rw (not_blank _ (name_full first more full)) refl))
