-- ===== src/Preprocessor/Expansion.antt =====
-- What the preprocessor makes of a list of subtokens, as a relation.
use three.Base.{◌≡◌, ◌≢◌, Bool, true, false, List, [], ◌∷◌, ◌++◌, if◌then◌else◌, Bytes, All, ok}
use three.Subtoken.{
  Subtoken, newline, comment, whitespace, directive_else, directive_end, directive_if,
}
use three.Preprocessor.{Platform, ends_branch, condition}

-- The text of the subtokens as the preprocessor prints them.
abbrev pub texts : List Subtoken → Bytes
texts [] = []
texts (t ∷ ts) = t.str ++ texts ts

-- A branch holds no `%end`; the first one holds no `%else` either.
abbrev pub IsBranch : Bool → List Subtoken → Type 0
IsBranch to_else = All (λ t. ends_branch to_else t.type ≡ false)

-- The subtokens of `%else` and its branch, or none.
pub data ElseBranch : List Subtoken → List Subtoken → Type 0 where
  absent : ElseBranch [] []
  present :
      {e n : Subtoken} {ys : List Subtoken}
      → e.type ≡ directive_else
      → n.type ≡ newline
      → IsBranch false ys
      → ElseBranch (e ∷ n ∷ ys) ys

-- A subtoken that is printed as it stands.
pub record IsPlain (t : Subtoken) : Type 0 where
  pub ne_comment : t.type ≢ comment
  pub ne_if : t.type ≢ directive_if

-- `Expands platform ts out`: the subtokens `ts` are expanded to the text `out`.
pub data Expands (platform : Platform) : List Subtoken → Bytes → Type 0 where
  nothing : Expands platform [] []
  dropped :
      {t : Subtoken} {ts : List Subtoken} {out : Bytes}
      → t.type ≡ comment
      → Expands platform ts out
      → Expands platform (t ∷ ts) out
  printed :
      {t : Subtoken} {ts : List Subtoken} {out : Bytes}
      → IsPlain t
      → Expands platform ts out
      → Expands platform (t ∷ ts) (t.str ++ out)
  conditional :
      (i w c n e n' : Subtoken) (xs other ys ts : List Subtoken) (out : Bytes) (active : Bool)
      → i.type ≡ directive_if
      → w.type ≡ whitespace
      → condition platform c.str ≡ ok active
      → n.type ≡ newline
      → IsBranch true xs
      → ElseBranch other ys
      → e.type ≡ directive_end
      → n'.type ≡ newline
      → Expands platform ts out
      → Expands platform
          (i ∷ w ∷ c ∷ n ∷ (xs ++ (other ++ (e ∷ n' ∷ ts))))
          ((if active then texts xs else texts ys) ++ out)
