-- ===== src/Tests/Lines.antt =====
-- Runs and instances for the generated source.
use three.Base.{refl, [], ◌∷◌, ◌++◌, codes, arith}
use three.CSource.{empty, increase_indentation}
use three.CSource.Cursor.{IsAt, Prints, line_of, print_line-Prints}
use three.CSource.Block.{print_block, lines_of, print_block-Prints}
use three.CSource.{print_line}

empty-IsAt : IsAt empty [] []
empty-IsAt = record { splits = refl; position = refl; flushed = refl }

print_line-Prints_example :
    Prints empty (line_of empty (codes "int x;") ∷ []) [] (print_line (codes "int x;") empty)
print_line-Prints_example = print_line-Prints (codes "int x;") empty [] [] empty-IsAt (omega arith)

print_block-Prints_example :
    Prints empty
      (line_of empty (codes "{")
        ∷ (lines_of (increase_indentation empty) (codes "x();" ∷ [])
            ++ line_of empty (codes "}") ∷ []))
      []
      (print_block (codes "{") (codes "x();" ∷ []) (codes "}") empty)
print_block-Prints_example =
    print_block-Prints (codes "{") (codes "x();" ∷ []) (codes "}") empty [] [] empty-IsAt
      (omega arith) (omega arith)
