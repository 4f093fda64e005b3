-- ===== src/Preprocessor.antt =====
-- `Preprocessor` of compiler/Preprocessing/Preprocessor.h and Preprocessor.cpp: conditional sections
-- and comments. What the platform macros of runtime/platform.h say is a parameter.
pub mod Expansion
pub mod Branches
pub mod Process
pub mod Plain
pub mod Unknown
use three.Base.{
  ℕ, zero, suc, ◌+◌, ◌≡◌, Bool, true, false, not, ◌++◌, [], if◌then◌else◌, Bytes, codes, bytes_eq,
  length, Outcome, ok, aborted, out_of_fuel, ◌>>=◌,
}
use three.Subtoken.{
  SubtokenType, Subtoken, undefined, end_of_input, newline, comment, whitespace, directive_else,
  directive_end, directive_if, type_eq,
}
use three.SubtokenLexer.{SubtokenLexer, start, peek, next}

-- `THREE_PLATFORM_DARWIN` and `THREE_PLATFORM_LINUX`.
pub record Platform : Type 0 where
  pub darwin : Bool
  pub linux : Bool

pub record Preprocessor : Type 0 where
  pub lexer : SubtokenLexer
  pub processed : Bytes

-- `_lexer->next()`, and `_processedStream << t.str()` before it.
unfoldable pub skip : Preprocessor → Outcome Preprocessor
skip p = do (t, l) ← next p.lexer; ok (record p { lexer = l })

unfoldable pub copy : Preprocessor → Subtoken → Outcome Preprocessor
copy p t = skip (record p { processed = p.processed ++ t.str })

-- `assert(_lexer->next().type() == type)`.
unfoldable pub expect : SubtokenType → Preprocessor → Outcome Preprocessor
unfolding type_eq
expect type p = do
  (t, l) ← next p.lexer
  if type_eq t.type type then ok (record p { lexer = l }) else aborted

-- Where the loop over the first branch stops (`to_else`), and that over the second.
unfoldable pub ends_branch : Bool → SubtokenType → Bool
ends_branch to_else undefined = true
ends_branch to_else end_of_input = true
ends_branch to_else directive_end = true
ends_branch to_else directive_else = to_else
ends_branch to_else _ = false

-- The loop over one branch, which copies the subtokens if the branch is active.
unfoldable pub branch : ℕ → Bool → Bool → Preprocessor → Outcome Preprocessor
unfolding ends_branch
branch zero to_else active p = out_of_fuel
branch (suc f) to_else active p = do
  (t, l) ← peek p.lexer
  let q = record p { lexer = l }
  let rest = (if active then copy q t else skip q) >>= λ r. branch f to_else active r
  if ends_branch to_else t.type then ok q else rest

-- The value of the condition; any other is reported and fails an assertion.
unfoldable pub condition : Platform → Bytes → Outcome Bool
unfolding bytes_eq
condition platform str =
    if bytes_eq str (codes "true")
    then ok true
    else if bytes_eq str (codes "false")
    then ok false
    else if bytes_eq str (codes "darwin")
    then ok platform.darwin
    else if bytes_eq str (codes "linux")
    then ok platform.linux
    else aborted

-- The part behind the first branch: `%else`, if there is one, and its branch.
unfoldable pub else_branch : ℕ → Bool → Preprocessor → Outcome Preprocessor
unfolding type_eq
else_branch f active p = do
  (t, l) ← peek p.lexer
  let q = record p { lexer = l }
  let rest = (do r ← skip q; s ← expect newline r; branch f false (not active) s)
  if type_eq t.type directive_else then rest else ok q

unfoldable pub parse_if : ℕ → Platform → Preprocessor → Outcome Preprocessor
parse_if f platform p = do
  p₁ ← expect directive_if p
  p₂ ← expect whitespace p₁
  (t, l) ← peek p₂.lexer
  active ← condition platform t.str
  p₃ ← skip (record p₂ { lexer = l })
  p₄ ← expect newline p₃
  p₅ ← branch f true active p₄
  p₆ ← else_branch f active p₅
  p₇ ← expect directive_end p₆
  expect newline p₇

-- What the `switch` in `process` does with a subtoken.
pub data Action : Type 0 where
  finish drop expand print : Action

unfoldable pub action : SubtokenType → Action
action undefined = finish
action end_of_input = finish
action comment = drop
action directive_if = expand
action _ = print

-- The `switch`, and how the loop goes on.
unfoldable pub process_switch :
    Action
    → ℕ
    → Platform
    → Preprocessor
    → Subtoken
    → (Preprocessor → Outcome Preprocessor)
    → Outcome Preprocessor
process_switch finish g platform p t loop = ok p
process_switch drop g platform p t loop = skip p >>= loop
process_switch expand g platform p t loop = parse_if g platform p >>= loop
process_switch print g platform p t loop = copy p t >>= loop

-- The loop of `process`. The second argument is the fuel of the loops in `parseIf`.
unfoldable pub process_loop : ℕ → ℕ → Platform → Preprocessor → Outcome Preprocessor
unfolding process_switch
process_loop zero g platform p = out_of_fuel
process_loop (suc f) g platform p = do
  (t, l) ← peek p.lexer
  let q = record p { lexer = l }
  process_switch (action t.type) g platform q t (λ r. process_loop f g platform r)

-- `Preprocessor::process(stream)`. Each round reads a subtoken, so the length of the input is enough
-- fuel.
unfoldable pub process : Platform → Bytes → Outcome Bytes
unfolding process_loop action parse_if condition branch else_branch expect copy skip peek next
process platform input = do
  let fuel = suc (length input)
  p ← process_loop fuel fuel platform (record { lexer = start input; processed = [] })
  ok p.processed
