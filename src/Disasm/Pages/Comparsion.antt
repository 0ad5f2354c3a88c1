-- ===== src/Disasm/Pages/Comparsion.antt =====
-- src/disasm/handlers.rs: `add_code_page_0_comparsion`.
use tvm_linker.Outcome.{Result, ◌>>=◌}
use tvm_linker.Disasm.Operands.{signaling}
use tvm_linker.Disasm.Handlers.{Handlers, new, set, add_subset}
use tvm_linker.Disasm.Loader.Comparison.{
  chknan, cmp, eqint, equal, geq, greater, gtint, isnan, leq, less, lessint, neq, neqint,
  sdcntlead0, sdcntlead1, sdcnttrail0, sdcnttrail1, sdempty, sdeq, sdfirst, sdlexcmp, sdpfx,
  sdpfxrev, sdppfx, sdppfxrev, sdpsfx, sdpsfxrev, sdsfx, sdsfxrev, sempty, sgn, srempty,
}

abbrev pub comparsion_c7 : Result Handlers
comparsion_c7 =
    set 0x00 sempty new
    >>= set 0x01 sdempty
    >>= set 0x02 srempty
    >>= set 0x03 sdfirst
    >>= set 0x04 sdlexcmp
    >>= set 0x05 sdeq
    >>= set 0x08 sdpfx
    >>= set 0x09 sdpfxrev
    >>= set 0x0A sdppfx
    >>= set 0x0B sdppfxrev
    >>= set 0x0C sdsfx
    >>= set 0x0D sdsfxrev
    >>= set 0x0E sdpsfx
    >>= set 0x0F sdpsfxrev
    >>= set 0x10 sdcntlead0
    >>= set 0x11 sdcntlead1
    >>= set 0x12 sdcnttrail0
    >>= set 0x13 sdcnttrail1

unfoldable pub add_code_page_0_comparsion : Handlers → Result Handlers
add_code_page_0_comparsion table =
    set 0xB8 (sgn signaling) table
    >>= set 0xB9 (less signaling)
    >>= set 0xBA (equal signaling)
    >>= set 0xBB (leq signaling)
    >>= set 0xBC (greater signaling)
    >>= set 0xBD (neq signaling)
    >>= set 0xBE (geq signaling)
    >>= set 0xBF (cmp signaling)
    >>= set 0xC0 (eqint signaling)
    >>= set 0xC1 (lessint signaling)
    >>= set 0xC2 (gtint signaling)
    >>= set 0xC3 (neqint signaling)
    >>= set 0xC4 isnan
    >>= set 0xC5 chknan
    >>= add_subset 0xC7 comparsion_c7
