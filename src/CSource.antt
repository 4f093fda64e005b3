-- ===== src/CSource.antt =====
-- `CSource` of compiler/CodeGen/CSource.h and CSource.cpp: the lines of a generated C file, with a
-- position at which lines are inserted, a buffer for the line that is being printed, and headers.
pub mod Cursor
pub mod Block
use three.Base.{
  ℕ, zero, suc, ◌+◌, ◌-◌, ◌*◌, ◌≡◌, Bool, true, false, not, ◌&&◌, List, [], ◌∷◌, ◌++◌, ◌==◌, ltb,
  leb, if◌then◌else◌, Bytes, codes, bytes_eq, length, drop, Outcome, ok, aborted, ◌>>=◌,
}
use Prim.Native.Nat.{◌%◌, ◌^◌}
use three.Preprocessor.{Platform}

-- The sets are the lists of their elements in ascending order.
pub record CSource : Type 0 where
  pub relative_headers : List Bytes
  pub headers : List Bytes
  pub lines : List Bytes
  pub line_position : ℕ
  pub line_buffer : Bytes
  pub indentation_level : ℕ

-- `CSource()`.
abbrev pub empty : CSource
empty = record {
  relative_headers = [];
  headers = [];
  lines = [];
  line_position = 0;
  line_buffer = [];
  indentation_level = 0;
}

-- What `c_str()` gives of a string: the characters in front of the first 0.
unfoldable pub c_str : Bytes → Bytes
c_str [] = []
c_str (c ∷ cs) = let rest = c_str cs in if c == 0 then [] else c ∷ rest

unfoldable pub print : Bytes → CSource → CSource
print string c = record c { line_buffer = c.line_buffer ++ c_str string }

-- `std::string(n, ' ')`.
unfoldable pub spaces : ℕ → Bytes
spaces zero = []
spaces (suc n) = b' ' ∷ spaces n

-- `std::string(_indentationLevel*4, ' ')`, on 32 bits.
unfoldable pub margin : CSource → Bytes
margin c = spaces (c.indentation_level * 4 % 2 ^ 32)

abbrev pub take {ℓ} : {A : Type ℓ} → ℕ → List A → List A
take zero xs = []
take (suc n) [] = []
take (suc n) (x ∷ xs) = x ∷ take n xs

-- A position behind the end has no defined behaviour; here the call fails.
unfoldable pub insert_line : Bytes → CSource → Outcome CSource
insert_line str c =
    if leb c.line_position (length c.lines)
    then ok (record c {
      lines = take c.line_position c.lines ++ str ∷ drop c.line_position c.lines;
      line_position = (c.line_position + 1) % 2 ^ 32;
    })
    else aborted

unfoldable pub flush_line_buffer : CSource → Outcome CSource
flush_line_buffer c =
    if length c.line_buffer == 0
    then ok c
    else (do d ← insert_line (margin c ++ c.line_buffer) c; ok (record d { line_buffer = [] }))

unfoldable pub print_line : Bytes → CSource → Outcome CSource
print_line string c =
    flush_line_buffer (record c { line_buffer = c.line_buffer ++ (string ++ codes "\n") })

unfoldable pub print_new_line : CSource → Outcome CSource
print_new_line c = print_line [] c

unfoldable pub print_previous_line : Bytes → CSource → Outcome CSource
print_previous_line string c = insert_line (margin c ++ (string ++ codes "\n")) c

unfoldable pub increase_indentation : CSource → CSource
increase_indentation c = record c { indentation_level = (c.indentation_level + 1) % 2 ^ 32 }

unfoldable pub decrease_indentation : CSource → Outcome CSource
decrease_indentation c =
    if ltb 0 c.indentation_level
    then ok (record c { indentation_level = c.indentation_level - 1 })
    else aborted

unfoldable pub print_line_and_indent : Bytes → CSource → Outcome CSource
print_line_and_indent string c = do d ← print_line string c; ok (increase_indentation d)

unfoldable pub outdent_and_print_line : Bytes → CSource → Outcome CSource
outdent_and_print_line string c = do d ← decrease_indentation c; print_line string d

-- The order of strings, and insertion into a `std::set`.
unfoldable pub bytes_lt : Bytes → Bytes → Bool
bytes_lt [] [] = false
bytes_lt [] (d ∷ ds) = true
bytes_lt (c ∷ cs) [] = false
bytes_lt (c ∷ cs) (d ∷ ds) =
    let rest = bytes_lt cs ds in if ltb c d then true else if c == d then rest else false

unfoldable pub insert_header : Bytes → List Bytes → List Bytes
insert_header h [] = h ∷ []
insert_header h (k ∷ ks) =
    let rest = insert_header h ks in
    if bytes_eq h k then k ∷ ks else if bytes_lt h k then h ∷ k ∷ ks else k ∷ rest

unfoldable pub add_header : Bool → Bytes → CSource → CSource
add_header relative header c =
    if relative
    then record c { relative_headers = insert_header header c.relative_headers }
    else record c { headers = insert_header header c.headers }

-- The assertion comes after the assignment; the position is 32 bits wide.
unfoldable pub set_line_position : ℕ → CSource → Outcome CSource
set_line_position pos c =
    if ltb pos (length c.lines) then ok (record c { line_position = pos }) else aborted

-- `_lines.size() - 1`, which wraps where there is no line.
unfoldable pub set_line_position_to_end : CSource → CSource
set_line_position_to_end c = record c { line_position = (length c.lines + (2 ^ 32 - 1)) % 2 ^ 32 }

-- The text of some lines, one after the other.
unfoldable pub concat : List Bytes → Bytes
concat [] = []
concat (s ∷ ss) = s ++ concat ss

unfoldable pub includes : Bytes → Bytes → List Bytes → Bytes
includes left right [] = []
includes left right (h ∷ hs) =
    codes "#include " ++ (left ++ (h ++ (right ++ (codes "\n" ++ includes left right hs))))

-- The `#include` lines of a set and the empty line behind them, or nothing.
unfoldable pub include_section : Bytes → Bytes → List Bytes → Bytes
include_section left right hs =
    includes left right hs ++ (if ltb 0 (length hs) then codes "\n" else [])

unfoldable pub render_to_string : CSource → Outcome (Bytes × CSource)
render_to_string c = do
  d ← flush_line_buffer c
  ok (
    if length d.headers == 0 && length d.relative_headers == 0
        then concat d.lines
        else include_section (codes "<") (codes ">") d.headers
          ++ (include_section (codes "\"") (codes "\"") d.relative_headers ++ concat d.lines),
    d,
  )

-- The name is not used.
unfoldable pub include_guard : Platform → Bytes → Bytes
include_guard platform name =
    codes "#pragma once\n\n"
    ++ (if platform.linux then codes "#ifndef _GNU_SOURCE\n#define _GNU_SOURCE\n#endif\n\n" else [])
