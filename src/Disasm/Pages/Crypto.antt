-- ===== src/Disasm/Pages/Crypto.antt =====
-- src/disasm/handlers.rs: `add_code_page_0_crypto`.
use tvm_linker.Outcome.{Result, ◌>>=◌}
use tvm_linker.Disasm.Handlers.{Handlers, new, set, add_subset}
use tvm_linker.Disasm.Loader.Config.{hashcu}
use tvm_linker.Disasm.Loader.Crypto.{
  cdatasize, cdatasizeq, chksigns, chksignu, hashsu, sdatasizeq, sha256u,
}
use tvm_linker.Disasm.Loader.Debug.{sdatasize}

abbrev pub crypto_f9 : Result Handlers
crypto_f9 =
    set 0x00 hashcu new
    >>= set 0x01 hashsu
    >>= set 0x02 sha256u
    >>= set 0x10 chksignu
    >>= set 0x11 chksigns
    >>= set 0x40 cdatasizeq
    >>= set 0x41 cdatasize
    >>= set 0x42 sdatasizeq
    >>= set 0x43 sdatasize

unfoldable pub add_code_page_0_crypto : Handlers → Result Handlers
add_code_page_0_crypto table = add_subset 0xF9 crypto_f9 table
