-- ===== src/Transformer.antt =====
-- internal/transformer.
pub mod EdgeCases
pub mod Assignees
pub mod Service
pub mod Frame
pub mod Batch
pub mod Labels
pub mod Notes
pub mod Working
pub mod Stubs
