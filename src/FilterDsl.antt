-- ===== src/FilterDsl.antt =====
-- core/filter_dsl.c: the filter expression language. Its glob matcher, the parser from a text to a
-- tree, and the evaluation of a tree against a resolver of names.
pub mod GlobStep
pub mod Classes
pub mod Element
pub mod GlobMatch
pub mod Ast
pub mod Lexing
pub mod Parsing
pub mod Operands
pub mod Descent
pub mod Compiled
pub mod ThreadCall
pub mod Eval
pub mod Meaning
mod Tests
