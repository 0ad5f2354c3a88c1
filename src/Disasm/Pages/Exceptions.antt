-- ===== src/Disasm/Pages/Exceptions.antt =====
-- src/disasm/handlers.rs: `add_code_page_0_exceptions`.
use tvm_linker.Outcome.{Result, ◌>>=◌}
use tvm_linker.Disasm.Handlers.{Handlers, new, set, set_range, add_subset}
use tvm_linker.Disasm.Loader.Blockchain.{tryargs}
use tvm_linker.Disasm.Loader.Exceptions.{
  throw_long, throw_short, throwany, throwanyif, throwanyifnot, throwarg, throwargany,
  throwarganyif, throwarganyifnot, throwargif, throwargifnot, throwif_long, throwif_short,
  throwifnot_long, throwifnot_short, try_,
}

abbrev pub exceptions_f2 : Result Handlers
exceptions_f2 =
    set_range 0x00 0x40 throw_short new
    >>= set_range 0x40 0x80 throwif_short
    >>= set_range 0x80 0xC0 throwifnot_short
    >>= set_range 0xC0 0xC8 throw_long
    >>= set_range 0xC8 0xD0 throwarg
    >>= set_range 0xD0 0xD8 throwif_long
    >>= set_range 0xD8 0xE0 throwargif
    >>= set_range 0xE0 0xE8 throwifnot_long
    >>= set_range 0xE8 0xF0 throwargifnot
    >>= set 0xF0 throwany
    >>= set 0xF1 throwargany
    >>= set 0xF2 throwanyif
    >>= set 0xF3 throwarganyif
    >>= set 0xF4 throwanyifnot
    >>= set 0xF5 throwarganyifnot
    >>= set 0xFF try_

unfoldable pub add_code_page_0_exceptions : Handlers → Result Handlers
add_code_page_0_exceptions table = add_subset 0xF2 exceptions_f2 table >>= set 0xF3 tryargs
