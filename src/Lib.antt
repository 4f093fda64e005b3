-- ===== src/Lib.antt =====
-- The compiler of the language Three: from the bytes of a source file to tokens, the names and
-- scopes that the later phases use, and the text of the C code.
--
-- The parts and how they interact. `Preprocessor` reads the subtokens of a file through a
-- `SubtokenLexer` and prints the text that is compiled. `Lexer` reads that text through another
-- `SubtokenLexer`, makes tokens of the subtokens, and hands them to the parser through a buffer with
-- lookahead. `QualifiedName` and `Scope` hold the names of a program, its variables and captures, and
-- make the names of the C code. `ParseContext` keeps the types, functions, variables and scopes of a
-- file and asks the contexts that it imports; `TypeParser` looks ahead for types and reads them, with
-- the names that the context defines; `parse_expression` of Parser builds the tree of an expression's
-- operators, and Literals reads the literals in it, with their types. `CTypeCodeGenerator` prints a
-- type as C. `CSource` collects the lines of the C code.
--
-- The files, by the code they model:
--   Token, Token/Kind, Token/Classes: compiler/Lexer/Token.h and Token.cpp; `Type` is the data type
--     `TokenType`, and each classification is a function on it under its own name.
--   Subtoken: compiler/Lexer/Subtoken.h and Subtoken.cpp.
--   SubtokenLexer, SubtokenLexer/Scan: compiler/Lexer/SubtokenLexer.h and SubtokenLexer.cpp. The
--     state is the record `SubtokenLexer`: the flag `_potentialDirective`, the bytes left in the
--     stream and the buffered subtoken. `advance` is the loop of the code over one `round` for each
--     character; `lexDirective`, `populateSubtokenBuffer`, `next` and `peek` have functions of their
--     names.
--   Preprocessor: compiler/Preprocessing/Preprocessor.h and Preprocessor.cpp; `process_loop` is the
--     method without argument and `process` the static one.
--   Lexer, Lexer/Keywords, Lexer/Calls, Lexer/Words, Lexer/Punctuation, Lexer/Advance, Lexer/Buffer:
--     compiler/Lexer/Lexer.h and Lexer.cpp. `advance_token` is `Lexer::advance`. The buffer stands over
--     any source of tokens, and `Lexer` gives it `advance_token`.
--   QualifiedName: compiler/Constructs/QualifiedName.h and QualifiedName.cpp.
--   Scope: compiler/Constructs/Scope.h and Scope.cpp. A scope is the list of the fields of itself and
--     of its parents; a variable is a value of any type, since the code looks into none.
--   DataType, DataType/Kinds: compiler/Constructs/DataType.h and DataType.cpp. The vectors of types that
--     a type holds are the second data type of a mutual block.
--   CTypeCodeGenerator: compiler/CodeGen/CTypeCodeGenerator.cpp, one recursion on the type;
--     `code_gen_from` is `codeGen` with the pointers that its loop has passed.
--   ParseContext, ParseContext/Symbols: compiler/Parser/ParseContext.cpp, with the `SymbolContainer` of
--     compiler/Constructs/SymbolContainer.h, Variable.h and Constant.h. A context and those it imports
--     are a mutual block; the current scope is a chain of Scope.
--   ParseHelper: compiler/Parser/ParseHelper.cpp, over the list of the tokens that its caller is to see.
--   TypeParser, TypeParser/Parsing, TypeParser/Composite: compiler/Parser/TypeParser.cpp. A depth of the
--     lookahead is the list of the tokens from there on; the functions for the types that hold types
--     take `parseType` or `peekType` for these.
--   Parser: `parseExpression` and its elements of compiler/Parser/Parser.cpp, with `parse`, `parseUnary`
--     and the loop of `parseTailing` of compiler/AST/Operators/OperatorNode.cpp. The reader of the
--     operands that are neither unary nor in parentheses and that of one tailing operator are arguments;
--     `parse_operand` of Parser/Operands is the former, with the literals of AST/Literals, over a reader
--     of the operands that are no literals or real numbers.
--   Literals, Literals/Texts: compiler/AST/Literals/IntegerLiteralNode.cpp, StringLiteralNode.cpp,
--     CharacterLiteralNode.cpp, BooleanLiteralNode.cpp and NullLiteralNode.cpp.
--   CSource: compiler/CodeGen/CSource.h and CSource.cpp. A set of headers is an ascending list; an
--     insertion behind the end, which C++ leaves undefined, fails.
-- The other files hold the specifications and the proofs, named for what they prove: among them
-- Preprocessor/Expansion (`Expands`, the expansion of subtokens as a relation), Lexer/Munch (the table
-- of the operators and what the longest one is), Lexer/Whole (the tokens of an input), Lexer/Pending
-- (the buffer as a window on the list of the tokens to come), CSource/Cursor (the position between
-- the lines), TypeParser/Syntax and TypeParser/Meaning (the written types and what they stand for),
-- Literals/Values (the numerals that write a number), and Parser/Climbing (the written expressions and
-- their trees). Base holds what the modules share, and Tests runs and instances.
--
-- A call is a value of `Outcome`: `ok`, `aborted` where an assertion fails or `at` throws, and
-- `out_of_fuel`. A byte is a number below 256; `char` is signed, so the bytes from 128 on fail the
-- assertion `c > 0`, and 255 reads as the end of the stream. A counter of a scope has 32 bits.
--
-- Fuel. The loops of the subtoken lexer are recursions on the stream and need none. The loops of the
-- preprocessor get the length of the input and one more: each round takes a subtoken, and each
-- subtoken takes a character. The loop over comments gets the length of the stream and two more, for
-- the subtoken that was read before. For the loops of the token buffer, the theorems on it say how
-- much is enough; `fuel_of` adds up the buffered tokens, the stream and the distance. The type parser
-- spends fuel on a type inside a type and on the rounds of its other loops; `isAtType` gets the number
-- of the tokens to come and one more, and the theorem on written types says that this is enough for
-- them. Lists of types keep the code's own bound of 100 rounds. `parseExpression`
-- spends fuel on the operands of an operator, on the unary operators and parentheses around an element
-- and on the rounds of its loops.
--
-- Not modelled: the parser of statements and of operands other than the literals above, the other
-- nodes of the AST and the generation of C from it; the import of a file, which reads the file and runs
-- the whole parser; the printing of messages; libclang, files, and the command line. The macros of
-- runtime/platform.h are the parameter `Platform`. The calls inside `assert` are made, as in a build
-- without `NDEBUG`. `strtol` is that of a 64-bit `long`, for texts without spaces and signs in front,
-- since the lexer makes integers of no others.
pub mod Base
pub mod Token
pub mod Subtoken
pub mod SubtokenLexer
pub mod Preprocessor
pub mod Lexer
pub mod QualifiedName
pub mod Scope
pub mod CSource
pub mod DataType
pub mod CTypeCodeGenerator
pub mod ParseContext
pub mod ParseHelper
pub mod TypeParser
pub mod Literals
pub mod Parser
mod Tests
