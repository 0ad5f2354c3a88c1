-- ===== src/Disasm/Pages/Blockchain.antt =====
-- src/disasm/handlers.rs: `add_code_page_0_blockchain`.
use tvm_linker.Outcome.{Result, ◌>>=◌}
use tvm_linker.Disasm.Operands.{signaling, quiet}
use tvm_linker.Disasm.Handlers.{Handlers, new, set, add_subset}
use tvm_linker.Disasm.Loader.Blockchain.{
  ldgrams, ldmsgaddr, ldvarint16, ldvarint32, ldvaruint32, parsemsgaddr, rawreserve, rawreservex,
  rewrite_std_addr, rewrite_var_addr, sendrawmsg, setcode, setlibcode, stgrams, stvarint16,
  stvarint32, stvaruint32,
}
use tvm_linker.Disasm.Loader.DictSet.{changelib}

abbrev pub blockchain_fa : Result Handlers
blockchain_fa =
    set 0x00 ldgrams new
    >>= set 0x01 ldvarint16
    >>= set 0x02 stgrams
    >>= set 0x03 stvarint16
    >>= set 0x04 ldvaruint32
    >>= set 0x05 ldvarint32
    >>= set 0x06 stvaruint32
    >>= set 0x07 stvarint32
    >>= set 0x40 (ldmsgaddr signaling)
    >>= set 0x41 (ldmsgaddr quiet)
    >>= set 0x42 (parsemsgaddr signaling)
    >>= set 0x43 (parsemsgaddr quiet)
    >>= set 0x44 (rewrite_std_addr signaling)
    >>= set 0x45 (rewrite_std_addr quiet)
    >>= set 0x46 (rewrite_var_addr signaling)
    >>= set 0x47 (rewrite_var_addr quiet)

abbrev pub blockchain_fb : Result Handlers
blockchain_fb =
    set 0x00 sendrawmsg new
    >>= set 0x02 rawreserve
    >>= set 0x03 rawreservex
    >>= set 0x04 setcode
    >>= set 0x06 setlibcode
    >>= set 0x07 changelib

unfoldable pub add_code_page_0_blockchain : Handlers → Result Handlers
add_code_page_0_blockchain table =
    add_subset 0xFA blockchain_fa table >>= add_subset 0xFB blockchain_fb
