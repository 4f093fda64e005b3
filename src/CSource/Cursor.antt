-- ===== src/CSource/Cursor.antt =====
-- The line position is a cursor between the lines in front of it and those behind it.
use three.Base.{
  ◌+◌, ◌<◌, ◌≡◌, refl, sym, ◌∙◌, ap, ap₂, subst, true, false, List, [], ◌∷◌, ◌++◌, append_assoc,
  ◌==◌, leb, Bytes, codes, length, length-append, drop, Outcome, ok, arith,
}
use Prim.Native.Nat.{◌%◌, ◌^◌}
use three.CSource.{CSource, take, margin, insert_line, flush_line_buffer, print_line}

take-append : (front back : List Bytes) → take (length front) (front ++ back) ≡ front
take-append [] back = refl
take-append (x ∷ front) back = ap (λ r. x ∷ r) (take-append front back)

drop-append : (front back : List Bytes) → drop (length front) (front ++ back) ≡ back
drop-append [] back = refl
drop-append (x ∷ front) back = drop-append front back

-- The lines in front of the position and those behind it, fewer than 2^32 in all; the buffer is
-- flushed.
pub record IsAt (c : CSource) (front back : List Bytes) : Type 0 where
  pub splits : c.lines ≡ front ++ back
  pub position : c.line_position ≡ length front
  pub flushed : c.line_buffer ≡ []

-- The source `d` is `c` but for its lines and position.
pub record SameHead (c d : CSource) : Type 0 where
  pub headers : d.headers ≡ c.headers
  pub relative_headers : d.relative_headers ≡ c.relative_headers
  pub level : d.indentation_level ≡ c.indentation_level

abbrev pub Prints : CSource → List Bytes → List Bytes → Outcome CSource → Type 0
Prints c front back r = (d : CSource) × (r ≡ ok d) × IsAt d front back × SameHead c d

abbrev pub line_of : CSource → Bytes → Bytes
line_of c s = margin c ++ (s ++ codes "\n")

insert_line-splits :
    (str : Bytes) (c : CSource) (front back : List Bytes)
    → c.lines ≡ front ++ back
    → c.line_position ≡ length front
    → length front + 1 < 2 ^ 32
    → (d : CSource) × (insert_line str c ≡ ok d)
      × (d.lines ≡ (front ++ str ∷ []) ++ back)
      × (d.line_position ≡ length (front ++ str ∷ []))
      × (d.line_buffer ≡ c.line_buffer)
      × SameHead c d
unfolding insert_line
insert_line-splits str c front back splits position room =
    let counts = length-append {0} front back in
    let whole = ap (length {0}) splits in
    let inside : leb c.line_position (length c.lines) ≡ true = ground arith in
    let before : take c.line_position c.lines ≡ front =
      ap₂ (λ n ls. take n ls) position splits ∙ take-append front back in
    let behind : drop c.line_position c.lines ≡ back =
      ap₂ (λ n ls. drop n ls) position splits ∙ drop-append front back in
    (
      record c {
        lines = take c.line_position c.lines ++ str ∷ drop c.line_position c.lines;
        line_position = (c.line_position + 1) % 2 ^ 32;
      },
      rw inside refl,
      ap₂ (λ x y. x ++ str ∷ y) before behind ∙ sym (append_assoc front (str ∷ []) back),
      omega (arith, position, room, length-append {0} front (str ∷ [])),
      refl,
      record { headers = refl; relative_headers = refl; level = refl },
    )

flush_line_buffer-Prints :
    (c : CSource) (front back : List Bytes) (line : Bytes)
    → c.lines ≡ front ++ back
    → c.line_position ≡ length front
    → length front + 1 < 2 ^ 32
    → c.line_buffer ≡ line
    → 0 < length line
    → Prints c (front ++ (margin c ++ line) ∷ []) back (flush_line_buffer c)
unfolding flush_line_buffer
flush_line_buffer-Prints c front back line splits position room buffer some_text =
    let (d, inserted, lines, moved, same, heads) =
      insert_line-splits (margin c ++ c.line_buffer) c front back splits position room in
    let printed : length c.line_buffer == 0 ≡ false = ground (arith, ap (length {0}) buffer) in
    (
      record d { line_buffer = [] },
      rw printed (rw inserted refl),
      record {
        splits = subst (λ b. d.lines ≡ (front ++ (margin c ++ b) ∷ []) ++ back) buffer lines;
        position =
            subst (λ b. d.line_position ≡ length (front ++ (margin c ++ b) ∷ [])) buffer moved;
        flushed = refl;
      },
      record {
        headers = heads.headers;
        relative_headers = heads.relative_headers;
        level = heads.level;
      },
    )

-- Where the buffer is flushed, `printLine` inserts the line with its margin at the position, which
-- moves behind it, and leaves the headers, the indentation and an empty buffer; the number of the
-- lines in front stays below 2^32.
pub print_line-Prints :
    (s : Bytes) (c : CSource) (front back : List Bytes)
    → IsAt c front back
    → length front + 1 < 2 ^ 32
    → Prints c (front ++ line_of c s ∷ []) back (print_line s c)
unfolding print_line margin
print_line-Prints s c front back at room =
    let made = record c { line_buffer = c.line_buffer ++ (s ++ codes "\n") } in
    let (d, flushed, placed, heads) =
      flush_line_buffer-Prints made front back (s ++ codes "\n") at.splits at.position room
        (ap (λ b. b ++ (s ++ codes "\n")) at.flushed)
        (omega (arith, length-append {0} s (codes "\n"))) in
    (
      d,
      flushed,
      record { splits = placed.splits; position = placed.position; flushed = placed.flushed },
      record {
        headers = heads.headers;
        relative_headers = heads.relative_headers;
        level = heads.level;
      },
    )
