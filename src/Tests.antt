-- ===== src/Tests.antt =====
-- Runs of the model on small inputs, and instances of the theorems.
mod Source
mod Names
mod Tokens
mod Lines
mod Types
mod Contexts
mod Expressions
