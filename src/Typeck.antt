-- ===== src/Typeck.antt =====
-- crates/deed-typeck/src/facts.rs: what the checker knows about the integers in scope.
pub mod Range
pub mod Truth
pub mod Facts
pub mod Linear
pub mod Promise
pub mod Env
pub mod Reading
pub mod Prover
pub mod Narrow
pub mod Contract
pub mod Soundness
