-- ===== src/Parser.antt =====
-- src/parser.rs
pub mod State
pub mod Cell
pub mod Externals
pub mod Values
pub mod Section
pub mod Directives
pub mod Code
pub mod Fragments
pub mod Compute
pub mod Labels
pub mod Unused
pub mod Pipeline
pub mod Consistent
pub mod Results
