-- ===== src/Disasm/Pages/Tuple.antt =====
-- src/disasm/handlers.rs: `add_code_page_0_tuple`.
use tvm_linker.Outcome.{Result, ◌>>=◌}
use tvm_linker.Disasm.Handlers.{Handlers, new, set, set_range, add_subset}
use tvm_linker.Disasm.Loader.Stack.{isnull, null, tuple_create, tuple_index, tuple_un}
use tvm_linker.Disasm.Loader.Tuple.{
  istuple, nullrotrif, nullrotrif2, nullrotrifnot, nullrotrifnot2, nullswapif, nullswapif2,
  nullswapifnot, nullswapifnot2, tuple_createvar, tuple_explode, tuple_explodevar, tuple_index2,
  tuple_index3, tuple_index_quiet, tuple_indexvar, tuple_indexvar_quiet, tuple_last, tuple_len,
  tuple_len_quiet, tuple_pop, tuple_push, tuple_setindex, tuple_setindex_quiet, tuple_setindexvar,
  tuple_setindexvar_quiet, tuple_unpackfirst, tuple_unpackfirstvar, tuple_untuplevar, zerorotrif,
  zerorotrif2, zerorotrifnot, zerorotrifnot2, zeroswapif, zeroswapif2, zeroswapifnot,
  zeroswapifnot2,
}

abbrev pub tuple_6f : Result Handlers
tuple_6f =
    set_range 0x00 0x10 tuple_create new
    >>= set_range 0x10 0x20 tuple_index
    >>= set_range 0x20 0x30 tuple_un
    >>= set_range 0x30 0x40 tuple_unpackfirst
    >>= set_range 0x40 0x50 tuple_explode
    >>= set_range 0x50 0x60 tuple_setindex
    >>= set_range 0x60 0x70 tuple_index_quiet
    >>= set_range 0x70 0x80 tuple_setindex_quiet
    >>= set 0x80 tuple_createvar
    >>= set 0x81 tuple_indexvar
    >>= set 0x82 tuple_untuplevar
    >>= set 0x83 tuple_unpackfirstvar
    >>= set 0x84 tuple_explodevar
    >>= set 0x85 tuple_setindexvar
    >>= set 0x86 tuple_indexvar_quiet
    >>= set 0x87 tuple_setindexvar_quiet
    >>= set 0x88 tuple_len
    >>= set 0x89 tuple_len_quiet
    >>= set 0x8A istuple
    >>= set 0x8B tuple_last
    >>= set 0x8C tuple_push
    >>= set 0x8D tuple_pop
    >>= set 0x90 zeroswapif
    >>= set 0x91 zeroswapifnot
    >>= set 0x92 zerorotrif
    >>= set 0x93 zerorotrifnot
    >>= set 0x94 zeroswapif2
    >>= set 0x95 zeroswapifnot2
    >>= set 0x96 zerorotrif2
    >>= set 0x97 zerorotrifnot2
    >>= set 0xA0 nullswapif
    >>= set 0xA1 nullswapifnot
    >>= set 0xA2 nullrotrif
    >>= set 0xA3 nullrotrifnot
    >>= set 0xA4 nullswapif2
    >>= set 0xA5 nullswapifnot2
    >>= set 0xA6 nullrotrif2
    >>= set 0xA7 nullrotrifnot2
    >>= set_range 0xB0 0xC0 tuple_index2
    >>= set_range 0xC0 0xFF tuple_index3
    >>= set 0xFF tuple_index3

unfoldable pub add_code_page_0_tuple : Handlers → Result Handlers
add_code_page_0_tuple table = set 0x6D null table >>= set 0x6E isnull >>= add_subset 0x6F tuple_6f
