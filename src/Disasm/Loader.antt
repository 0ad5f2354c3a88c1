-- ===== src/Disasm/Loader.antt =====
-- src/disasm/loader.rs, by the parts of the code page.
pub mod Stack
pub mod Tuple
pub mod Constant
pub mod Arithmetic
pub mod Comparison
pub mod Builder
pub mod Slice
pub mod SliceParts
pub mod Control
pub mod Loop
pub mod Continuation
pub mod Exceptions
pub mod Blockchain
pub mod DictSet
pub mod DictDelete
pub mod DictNext
pub mod Config
pub mod Crypto
pub mod Debug
