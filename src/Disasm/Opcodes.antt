-- ===== src/Disasm/Opcodes.antt =====
-- The opcode checks of src/disasm/loader.rs against code page 0 of src/disasm/handlers.rs: which
-- bytes lead to a handler that goes on, and which to one that reports an invalid opcode.
use tvm_linker.Prelude.{ℕ, List, Bool, true, ◌&&◌, ◌||◌, ◌==◌, leb, ltb}
use tvm_linker.Outcome.{Result, ◌>>=◌}
use tvm_linker.Disasm.Handler.{LoadHandler}
use tvm_linker.Disasm.Handlers.{get_handler}
use tvm_linker.Disasm.CodePage.{new_code_page_0}
mod Fits
pub mod Page

-- The table of `Loader::new`, and the lookup for one instruction in `Loader::load_slice`.
unfoldable pub load_handler : List ℕ → Result LoadHandler
unfolding new_code_page_0
load_handler bytes = new_code_page_0 >>= λ table. get_handler table bytes

-- The opcodes of the code page whose handler rejects them.
unfoldable pub is_broken : ℕ → ℕ → Bool
is_broken b0 b1 =
    ((b0 == 0x54) && ltb b1 0x10)
    || ((b0 == 0x6F) && leb 0xC0 b1)
    || (b0 == 0xB7)
    || ((b0 == 0xCF)
        && ((b1 == 0x08) || (b1 == 0x09) || (b1 == 0x10) || (b1 == 0x12) || (b1 == 0x15)))
    || ((b0 == 0xD7) && ((b1 == 0x08) || (b1 == 0x09) || (b1 == 0x1C) || (b1 == 0x20)))
    || ((b0 == 0xE3) && leb 0x80 b1)
    || ((b0 == 0xF4) && (leb 0x63 b1 && leb b1 0x65))
