-- ===== src/Disasm.antt =====
-- src/disasm: the tables of the disassembler.
pub mod Types
pub mod Operands
pub mod Handler
pub mod Loader
pub mod Run
pub mod Print
pub mod Shape
pub mod Handlers
pub mod Pages
pub mod CodePage
pub mod Lookup
pub mod Register
pub mod Opcodes
