-- ===== src/Disasm/Loader/Debug.antt =====
-- src/disasm/loader.rs: the handlers of this part of the code page, by the opcodes that they accept
-- and the operands that they read.
use tvm_linker.Prelude.{◌==◌, pos, leb, if◌then◌else◌, ◌*◌}
use tvm_linker.Disasm.Handler.{LoadHandler, custom, create_handler_2}
use tvm_linker.Disasm.Operands.{done, refuse, next_int, next_slice, check, assert}
use tvm_linker.Disasm.Types.{new, with_param, integer, slice}

abbrev pub sdatasize : LoadHandler
sdatasize = create_handler_2 0xf943 "SDATASIZE"

abbrev pub dump_stack : LoadHandler
dump_stack = create_handler_2 0xfe00 "DUMPSTK"

abbrev pub dump_stack_top : LoadHandler
dump_stack_top =
    custom 12 (λ opc. opc == 0xfe0)
      (λ opc.
        next_int 4 (λ n. assert (leb 1 n) (done (with_param (integer (pos n)) (new "DUMPSTKTOP")))))

abbrev pub dump_hex : LoadHandler
dump_hex = create_handler_2 0xfe10 "HEXDUMP"

abbrev pub print_hex : LoadHandler
print_hex = create_handler_2 0xfe11 "HEXPRINT"

abbrev pub dump_bin : LoadHandler
dump_bin = create_handler_2 0xfe12 "BINDUMP"

abbrev pub print_bin : LoadHandler
print_bin = create_handler_2 0xfe13 "BINPRINT"

abbrev pub dump_str : LoadHandler
dump_str = create_handler_2 0xfe14 "STRDUMP"

abbrev pub print_str : LoadHandler
print_str = create_handler_2 0xfe15 "STRPRINT"

abbrev pub debug_off : LoadHandler
debug_off = create_handler_2 0xfe1e "DEBUGOFF"

abbrev pub debug_on : LoadHandler
debug_on = create_handler_2 0xfe1f "DEBUGON"

abbrev pub dump_var : LoadHandler
dump_var =
    custom 12 (λ opc. opc == 0xfe2)
      (λ opc.
        next_int 4 (λ n. assert (leb n 14) (done (with_param (integer (pos n)) (new "DUMP")))))

abbrev pub print_var : LoadHandler
print_var =
    custom 12 (λ opc. opc == 0xfe3)
      (λ opc.
        next_int 4 (λ n. assert (leb n 14) (done (with_param (integer (pos n)) (new "PRINT")))))

abbrev pub dump_string : LoadHandler
dump_string =
    custom 12 (λ opc. opc == 0xfef)
      (λ opc. next_int 4 (λ n. next_int 8 (λ mode.
        if n == 0
        then check (mode == 0) (done (new "LOGFLUSH"))
        else if mode == 0
        then next_slice (n * 8) (λ s. done (with_param (slice s) (new "LOGSTR")))
        else if mode == 1
        then next_slice (n * 8) (λ s. done (with_param (slice s) (new "PRINTSTR")))
        else refuse)))
