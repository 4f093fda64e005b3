-- ===== src/Preprocessor/Unknown.antt =====
-- An input that begins with a directive that `lexDirective` does not know.
use three.Base.{◌≡◌, refl, true, false, [], ◌∷◌, Bytes, ok}
use three.Subtoken.{undefined}
use three.SubtokenLexer.{peek, populate_subtoken_buffer, refill}
use three.SubtokenLexer.Scan.{advance, lex_directive}
use three.Preprocessor.{Platform, process, process_loop, action}

advance_directive :
    (cs : Bytes) → advance true (b'%' ∷ cs) ≡ ok ((lex_directive cs).0, false, (lex_directive cs).1)
unfolding advance
advance_directive cs = refl

-- Where the word behind a `%` at the front of the input is not a known directive, the preprocessor
-- takes it for the end of the input: the output is empty, whatever follows.
pub process_unknown :
    (platform : Platform) (cs : Bytes)
    → (lex_directive cs).0.type ≡ undefined
    → process platform (b'%' ∷ cs) ≡ ok []
unfolding process process_loop
process_unknown platform cs unknown =
    let found = advance_directive cs in
    rw (found, peek, populate_subtoken_buffer, refill) (rw (unknown) (unfold action in refl))
