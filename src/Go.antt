-- ===== src/Go.antt =====
-- The evaluator in Go: libs/go-libs/auth-scope-evaluator.
pub mod Library
pub mod Grants
pub mod Evaluator
pub mod Command
