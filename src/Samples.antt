-- ===== src/Samples.antt =====
-- Runs of the parser of src/parser.rs and of the disassembler's lookup of src/disasm on small inputs.
mod Inputs
mod Fragments
mod Unused
mod Files
mod Opcodes
mod Register
mod Rename
mod Labels
mod Computed
mod Pipeline
mod Load
mod Printed
mod Shapes
