-- ===== src/Disasm/Pages/Debug.antt =====
-- src/disasm/handlers.rs: `add_code_page_0_debug`.
use tvm_linker.Outcome.{Result, ◌>>=◌}
use tvm_linker.Disasm.Handlers.{Handlers, new, set, set_range, add_subset}
use tvm_linker.Disasm.Loader.Debug.{
  debug_off, debug_on, dump_bin, dump_hex, dump_stack, dump_stack_top, dump_str, dump_string,
  dump_var, print_bin, print_hex, print_str, print_var,
}

abbrev pub debug_fe : Result Handlers
debug_fe =
    set 0x00 dump_stack new
    >>= set_range 0x01 0x0F dump_stack_top
    >>= set 0x10 dump_hex
    >>= set 0x11 print_hex
    >>= set 0x12 dump_bin
    >>= set 0x13 print_bin
    >>= set 0x14 dump_str
    >>= set 0x15 print_str
    >>= set 0x1E debug_off
    >>= set 0x1F debug_on
    >>= set_range 0x20 0x2F dump_var
    >>= set_range 0x30 0x3F print_var
    >>= set_range 0xF0 0xFF dump_string
    >>= set 0xFF dump_string

unfoldable pub add_code_page_0_debug : Handlers → Result Handlers
add_code_page_0_debug table = add_subset 0xFE debug_fe table
