-- ===== src/Policy.antt =====
-- src/policy-compiler.js: policies, their evaluation and the interpreter that it is compared with.
pub mod Conditions
pub mod Compiler
pub mod Operators
pub mod Agreement
pub mod Resource
mod Examples
