-- ===== src/Disasm/Pages/PartConstant.antt =====
-- src/disasm/handlers.rs: `add_code_page_0_part_constant`.
use tvm_linker.Outcome.{Result, ◌>>=◌}
use tvm_linker.Disasm.Handlers.{Handlers, new, set, set_range, add_subset}
use tvm_linker.Disasm.Loader.Constant.{
  pushcont_long, pushcont_short, pushint, pushint_big, pushnan, pushnegpow2, pushpow2, pushpow2dec,
  pushref, pushrefcont, pushrefslice, pushslice_long, pushslice_mid, pushslice_short,
}

abbrev pub part_constant_83 : Result Handlers
part_constant_83 = set_range 0x00 0xFF pushpow2 new >>= set 0xFF pushnan

unfoldable pub add_code_page_0_part_constant : Handlers → Result Handlers
add_code_page_0_part_constant table =
    set_range 0x70 0x82 pushint table
    >>= set 0x82 pushint_big
    >>= add_subset 0x83 part_constant_83
    >>= set 0x84 pushpow2dec
    >>= set 0x85 pushnegpow2
    >>= set 0x88 pushref
    >>= set 0x89 pushrefslice
    >>= set 0x8A pushrefcont
    >>= set 0x8B pushslice_short
    >>= set 0x8C pushslice_mid
    >>= set 0x8D pushslice_long
    >>= set_range 0x8E 0x90 pushcont_long
    >>= set_range 0x90 0xA0 pushcont_short
