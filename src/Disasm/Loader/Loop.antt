-- ===== src/Disasm/Loader/Loop.antt =====
-- src/disasm/loader.rs: the opcode checks of the handlers for loops.
use tvm_linker.Prelude.{◌==◌, ◌*◌, pos}
use tvm_linker.Disasm.Handler.{LoadHandler, custom, create_handler_1, create_handler_2}
use tvm_linker.Disasm.Operands.{done, next_int, drain, load_cell}
use tvm_linker.Disasm.Types.{new, with_param, with_refs, integer, code}

abbrev pub repeat_break : LoadHandler
repeat_break = create_handler_2 0xe314 "REPEATBRK"

abbrev pub repeatend_break : LoadHandler
repeatend_break = create_handler_2 0xe315 "REPEATENDBRK"

abbrev pub until_break : LoadHandler
until_break = create_handler_2 0xe316 "UNTILBRK"

abbrev pub untilend_break : LoadHandler
untilend_break = create_handler_2 0xe317 "UNTILENDBRK"

abbrev pub while_break : LoadHandler
while_break = create_handler_2 0xe318 "WHILEBRK"

abbrev pub whileend_break : LoadHandler
whileend_break = create_handler_2 0xe319 "WHILEENDBRK"

abbrev pub again_break : LoadHandler
again_break = create_handler_2 0xe31a "AGAINBRK"

abbrev pub againend_break : LoadHandler
againend_break = create_handler_2 0xe31b "AGAINENDBRK"

abbrev pub ifbitjmp : LoadHandler
ifbitjmp =
    custom 15 (λ opc. opc * 2 == 0xe38)
      (λ opc. next_int 5 (λ n. done (with_param (integer (pos n)) (new "IFBITJMP"))))

abbrev pub ifnbitjmp : LoadHandler
ifnbitjmp =
    custom 15 (λ opc. opc * 2 == 0xe3a)
      (λ opc. next_int 5 (λ n. done (with_param (integer (pos n)) (new "IFNBITJMP"))))

abbrev pub ifbitjmpref : LoadHandler
ifbitjmpref =
    custom 15 (λ opc. opc * 2 == 0xe3c)
      (λ opc. next_int 5 (λ n. drain (λ c. load_cell c (λ loaded. done (
        with_param (code loaded c)
          (with_param (integer (pos n)) (with_refs 1 (new "IFBITJMPREF"))))))))

abbrev pub ifnbitjmpref : LoadHandler
ifnbitjmpref =
    custom 15 (λ opc. opc * 2 == 0xe3e)
      (λ opc. next_int 5 (λ n. drain (λ c. load_cell c (λ loaded. done (
        with_param (code loaded c)
          (with_param (integer (pos n)) (with_refs 1 (new "IFNBITJMPREF"))))))))

abbrev pub repeat : LoadHandler
repeat = create_handler_1 0xe4 "REPEAT"

abbrev pub repeatend : LoadHandler
repeatend = create_handler_1 0xe5 "REPEATEND"

abbrev pub until : LoadHandler
until = create_handler_1 0xe6 "UNTIL"

abbrev pub untilend : LoadHandler
untilend = create_handler_1 0xe7 "UNTILEND"

abbrev pub while_ : LoadHandler
while_ = create_handler_1 0xe8 "WHILE"

abbrev pub whileend : LoadHandler
whileend = create_handler_1 0xe9 "WHILEEND"

abbrev pub again : LoadHandler
again = create_handler_1 0xea "AGAIN"

abbrev pub againend : LoadHandler
againend = create_handler_1 0xeb "AGAINEND"
