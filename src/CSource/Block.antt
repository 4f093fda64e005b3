-- ===== src/CSource/Block.antt =====
-- A block of lines with its first and last line, as the code generator prints it.
use three.Base.{
  ◌+◌, ◌-◌, ◌*◌, ◌<◌, ◌≡◌, refl, sym, ◌∙◌, ap, ap₂, subst, true, List, [], ◌∷◌, ◌++◌, append_assoc,
  append-nil, ltb, Bytes, codes, length, length-append, Outcome, ok, ◌>>=◌, arith,
}
use Prim.Native.Nat.{◌%◌, ◌^◌}
use three.CSource.{
  CSource, margin, spaces, print_line, print_line_and_indent, outdent_and_print_line,
  increase_indentation, decrease_indentation,
}
use three.CSource.Cursor.{IsAt, SameHead, Prints, line_of, print_line-Prints}

abbrev pub lines_of : CSource → List Bytes → List Bytes
lines_of c [] = []
lines_of c (s ∷ ss) = line_of c s ∷ lines_of c ss

-- Several lines in a row.
unfoldable pub print_lines : List Bytes → CSource → Outcome CSource
print_lines [] c = ok c
print_lines (s ∷ ss) c = do d ← print_line s c; print_lines ss d

-- The calls for a block.
unfoldable pub print_block : Bytes → List Bytes → Bytes → CSource → Outcome CSource
print_block first body last c = do
  d ← print_line_and_indent first c
  e ← print_lines body d
  outdent_and_print_line last e

-- The margin depends on the level only.
line_of-level :
    (c d : CSource) (s : Bytes)
    → d.indentation_level ≡ c.indentation_level
    → line_of d s ≡ line_of c s
unfolding margin
line_of-level c d s e = ap (λ n. spaces (n * 4 % 2 ^ 32) ++ (s ++ codes "\n")) e

lines_of-level :
    (c d : CSource) (ss : List Bytes)
    → d.indentation_level ≡ c.indentation_level
    → lines_of d ss ≡ lines_of c ss
lines_of-level c d [] e = refl
lines_of-level c d (s ∷ ss) e =
    ap₂ (λ x xs. x ∷ xs) (line_of-level c d s e) (lines_of-level c d ss e)

SameHead-trans : (c d e : CSource) → SameHead c d → SameHead d e → SameHead c e
SameHead-trans c d e g h = record {
  headers = h.headers ∙ g.headers;
  relative_headers = h.relative_headers ∙ g.relative_headers;
  level = h.level ∙ g.level;
}

IsAt-front : (c : CSource) {f g back : List Bytes} → f ≡ g → IsAt c f back → IsAt c g back
IsAt-front c {back = back} e at = subst (λ x. IsAt c x back) e at

print_lines-Prints :
    (ss : List Bytes) (c : CSource) (front back : List Bytes)
    → IsAt c front back
    → length front + length ss < 2 ^ 32
    → Prints c (front ++ lines_of c ss) back (print_lines ss c)
unfolding print_lines
print_lines-Prints [] c front back at room = (
  c,
  refl,
  IsAt-front c (sym (append-nil front)) at,
  record { headers = refl; relative_headers = refl; level = refl },
)
print_lines-Prints (s ∷ ss) c front back at room =
    let (d, printed, placed, same) = print_line-Prints s c front back at (omega arith) in
    let (e, later, placed', same') =
      print_lines-Prints ss d (front ++ line_of c s ∷ []) back placed
        (omega (arith, length-append {0} front (line_of c s ∷ []))) in
    let whole =
      append_assoc front (line_of c s ∷ []) (lines_of d ss)
      ∙ ap (λ x. front ++ line_of c s ∷ x) (lines_of-level c d ss same.level) in
    (e, rw printed later, IsAt-front e whole placed', SameHead-trans c d e same same')

length-lines_of : (c : CSource) (ss : List Bytes) → length (lines_of c ss) ≡ length ss
length-lines_of c [] = refl
length-lines_of c (s ∷ ss) = omega (arith, length-lines_of c ss)

-- Where the buffer is flushed and there is room for the lines and for one more level, printing a
-- block inserts its first and last line at the level of the source and its body one level deeper, in
-- their order at the position; the level, the headers and the lines behind are as before.
pub print_block-Prints :
    (first : Bytes) (body : List Bytes) (last : Bytes) (c : CSource) (front back : List Bytes)
    → IsAt c front back
    → length front + length body + 2 < 2 ^ 32
    → c.indentation_level + 1 < 2 ^ 32
    → Prints c
        (front ++ line_of c first ∷ (lines_of (increase_indentation c) body ++ line_of c last ∷ []))
        back
        (print_block first body last c)
unfolding print_block print_line_and_indent outdent_and_print_line increase_indentation
    decrease_indentation
print_block-Prints first body last c front back at room level =
    let deeper = record c { indentation_level = (c.indentation_level + 1) % 2 ^ 32 } in
    let (d, printed, placed, same) = print_line-Prints first c front back at (omega arith) in
    let d' = record d { indentation_level = (d.indentation_level + 1) % 2 ^ 32 } in
    let placed' : IsAt d' (front ++ line_of c first ∷ []) back = record {
      splits = placed.splits;
      position = placed.position;
      flushed = placed.flushed;
    } in
    let one = length-append {0} front (line_of c first ∷ []) in
    let (e, inner, placed₂, same₂) =
      print_lines-Prints body d' (front ++ line_of c first ∷ []) back placed' (omega arith) in
    let up : e.indentation_level ≡ c.indentation_level + 1 =
      omega (arith, same₂.level, same.level) in
    let e' = record e { indentation_level = e.indentation_level - 1 } in
    let placed₃ : IsAt e' ((front ++ line_of c first ∷ []) ++ lines_of d' body) back = record {
      splits = placed₂.splits;
      position = placed₂.position;
      flushed = placed₂.flushed;
    } in
    let two = length-append {0} (front ++ line_of c first ∷ []) (lines_of d' body) in
    let (g, closed, placed₄, same₄) =
      print_line-Prints last e' ((front ++ line_of c first ∷ []) ++ lines_of d' body) back placed₃
        (omega (arith, length-lines_of d' body)) in
    let raised : ltb 0 e.indentation_level ≡ true = ground (arith, up) in
    let restored : e'.indentation_level ≡ c.indentation_level = omega (arith, up) in
    let deepened : d'.indentation_level ≡ deeper.indentation_level =
      ap (λ n. (n + 1) % 2 ^ 32) same.level in
    let inside =
      ap₂ (λ x y. x ++ y ∷ []) (lines_of-level deeper d' body deepened)
        (line_of-level c e' last restored) in
    let whole =
      append_assoc (front ++ line_of c first ∷ []) (lines_of d' body) (line_of e' last ∷ [])
      ∙ (append_assoc front (line_of c first ∷ []) (lines_of d' body ++ line_of e' last ∷ [])
          ∙ ap (λ x. front ++ line_of c first ∷ x) inside) in
    (
      g,
      rw printed (rw inner (rw raised closed)),
      IsAt-front g whole placed₄,
      record {
        headers = same₄.headers ∙ (same₂.headers ∙ same.headers);
        relative_headers =
            same₄.relative_headers ∙ (same₂.relative_headers ∙ same.relative_headers);
        level = same₄.level ∙ restored;
      },
    )
