-- ===== src/Effects.antt =====
-- Effect rows: crates/deed-effects.
pub mod Row
