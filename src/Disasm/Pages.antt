-- ===== src/Disasm/Pages.antt =====
-- src/disasm/handlers.rs: code page 0, part by part.
pub mod PartStack
pub mod Tuple
pub mod PartConstant
pub mod Arithmetic
pub mod Comparsion
pub mod Cell
pub mod ControlFlow
pub mod Exceptions
pub mod Blockchain
pub mod Dictionaries
pub mod GasRandConfig
pub mod Crypto
pub mod Debug
