-- ===== src/Token.antt =====
-- `Token` of compiler/Lexer/Token.h and Token.cpp.
pub mod Kind
pub mod Classes
pub mod Spans
pub mod Precedence
use three.Base.{Bytes}
use Kind.{TokenType}

pub record Token : Type 0 where
  pub type : TokenType
  pub str : Bytes
