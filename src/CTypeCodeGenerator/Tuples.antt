-- ===== src/CTypeCodeGenerator/Tuples.antt =====
-- The name of a tuple's C structure: which bytes it holds.
use three.Base.{
  ℕ, suc, ◌+◌, ◌≡◌, ◌≢◌, refl, sym, ◌∙◌, ap, false, [], ◌∷◌, ◌++◌, Bytes, codes, byte_mem, length,
  Outcome, ok, arith, length-append,
}
use three.DataType.{DataTypes, nil, cons}
use three.CTypeCodeGenerator.{replace, tuple_struct_name, tuple_parts}

replace-removes : (old new : ℕ) (s : Bytes) → old ≢ new → byte_mem old (replace old new s) ≡ false
unfolding replace byte_mem
replace-removes old new [] h = refl
replace-removes old new (c ∷ s) h = ground (arith, replace-removes old new s h, h)

replace-keeps :
    (old new c : ℕ) (s : Bytes) → c ≢ old → c ≢ new → byte_mem c (replace old new s) ≡ byte_mem c s
unfolding replace byte_mem
replace-keeps old new c [] h k = refl
replace-keeps old new c (d ∷ s) h k = ground (arith, replace-keeps old new c s h k)

length-replace : (old new : ℕ) (s : Bytes) → length (replace old new s) ≡ length s
unfolding replace
length-replace old new [] = refl
length-replace old new (d ∷ s) = ap suc (length-replace old new s)

named :
    (ts : DataTypes) (s name : Bytes) (parts : Outcome Bytes)
    → parts ≡ ok s
    → tuple_struct_name ts parts ≡ ok name
    → name ≡ replace b' ' b'_' (replace b'*' b'P' (s ++ codes "tuple_t"))
unfolding tuple_struct_name
named nil s name parts e made = cc
named (cons t ts) s name parts e made =
    let f : Outcome Bytes → Bytes = λ o. elim o [ ok n ↦ n | _ ↦ [] ] in sym (ap f (rw e at made))

-- The texts of the subtypes, as the loop prints them, and `tuple_t` are `s`: the structure's name is
-- as long, has no `*` and no space, and each byte other than `*`, `P`, space and `_` stands in it
-- exactly when it stands in `s`.
pub tuple_struct_name-bytes :
    (ts : DataTypes) (s name : Bytes)
    → tuple_parts ts ≡ ok s
    → tuple_struct_name ts (tuple_parts ts) ≡ ok name
    → (length name ≡ length s + 7)
      × (byte_mem b'*' name ≡ false)
      × (byte_mem b' ' name ≡ false)
      × ((c : ℕ)
          → c ≢ b'*'
          → c ≢ b'P'
          → c ≢ b' '
          → c ≢ b'_'
          → byte_mem c name ≡ byte_mem c (s ++ codes "tuple_t"))
tuple_struct_name-bytes ts s name parts made =
    let e = named ts s name (tuple_parts ts) parts made in
    let whole = s ++ codes "tuple_t" in
    let starless = replace b'*' b'P' whole in
    rw e (
      length-replace b' ' b'_' starless
          ∙ length-replace b'*' b'P' whole
          ∙ length-append s (codes "tuple_t"),
      replace-keeps b' ' b'_' b'*' starless (omega arith) (omega arith)
          ∙ replace-removes b'*' b'P' whole (omega arith),
      replace-removes b' ' b'_' starless (omega arith),
      λ c star p space underscore.
          replace-keeps b' ' b'_' c starless space underscore
          ∙ replace-keeps b'*' b'P' c whole star p,
    )
