-- ===== src/Disasm/Loader/Exceptions.antt =====
-- src/disasm/loader.rs: the handlers of this part of the code page, by the opcodes that they accept
-- and the operands that they read.
use tvm_linker.Prelude.{◌==◌, ◌*◌, pos}
use tvm_linker.Disasm.Handler.{LoadHandler, custom, create_handler_2}
use tvm_linker.Disasm.Operands.{done, next_int}
use tvm_linker.Disasm.Types.{new, with_param, integer, nargs}

abbrev pub call_long : LoadHandler
call_long =
    custom 10 (λ opc. opc * 4 == 0xf10)
      (λ opc. next_int 14 (λ n. done (with_param (nargs (pos n)) (new "CALL"))))

abbrev pub jmp : LoadHandler
jmp =
    custom 10 (λ opc. opc * 4 == 0xf14)
      (λ opc. next_int 14 (λ n. done (with_param (nargs (pos n)) (new "JMPDICT"))))

abbrev pub prepare : LoadHandler
prepare =
    custom 10 (λ opc. opc * 4 == 0xf18)
      (λ opc. next_int 14 (λ n. done (with_param (nargs (pos n)) (new "PREPARE"))))

abbrev pub throw_short : LoadHandler
throw_short =
    custom 10 (λ opc. opc * 4 == 0xf20)
      (λ opc. next_int 6 (λ nn. done (with_param (integer (pos nn)) (new "THROW"))))

abbrev pub throwif_short : LoadHandler
throwif_short =
    custom 10 (λ opc. opc * 4 == 0xf24)
      (λ opc. next_int 6 (λ nn. done (with_param (integer (pos nn)) (new "THROWIF"))))

abbrev pub throwifnot_short : LoadHandler
throwifnot_short =
    custom 10 (λ opc. opc * 4 == 0xf28)
      (λ opc. next_int 6 (λ nn. done (with_param (integer (pos nn)) (new "THROWIFNOT"))))

abbrev pub throw_long : LoadHandler
throw_long =
    custom 13 (λ opc. opc * 8 == 0xf2c0)
      (λ opc. next_int 11 (λ nn. done (with_param (integer (pos nn)) (new "THROW"))))

abbrev pub throwarg : LoadHandler
throwarg =
    custom 13 (λ opc. opc * 8 == 0xf2c8)
      (λ opc. next_int 11 (λ nn. done (with_param (integer (pos nn)) (new "THROWARG"))))

abbrev pub throwif_long : LoadHandler
throwif_long =
    custom 13 (λ opc. opc * 8 == 0xf2d0)
      (λ opc. next_int 11 (λ nn. done (with_param (integer (pos nn)) (new "THROWIF"))))

abbrev pub throwargif : LoadHandler
throwargif =
    custom 13 (λ opc. opc * 8 == 0xf2d8)
      (λ opc. next_int 11 (λ nn. done (with_param (integer (pos nn)) (new "THROWARGIF"))))

abbrev pub throwifnot_long : LoadHandler
throwifnot_long =
    custom 13 (λ opc. opc * 8 == 0xf2e0)
      (λ opc. next_int 11 (λ nn. done (with_param (integer (pos nn)) (new "THROWIFNOT"))))

abbrev pub throwargifnot : LoadHandler
throwargifnot =
    custom 13 (λ opc. opc * 8 == 0xf2e8)
      (λ opc. next_int 11 (λ nn. done (with_param (integer (pos nn)) (new "THROWARGIFNOT"))))

abbrev pub throwany : LoadHandler
throwany = create_handler_2 0xf2f0 "THROWANY"

abbrev pub throwargany : LoadHandler
throwargany = create_handler_2 0xf2f1 "THROWARGANY"

abbrev pub throwanyif : LoadHandler
throwanyif = create_handler_2 0xf2f2 "THROWANYIF"

abbrev pub throwarganyif : LoadHandler
throwarganyif = create_handler_2 0xf2f3 "THROWARGANYIF"

abbrev pub throwanyifnot : LoadHandler
throwanyifnot = create_handler_2 0xf2f4 "THROWANYIFNOT"

abbrev pub throwarganyifnot : LoadHandler
throwarganyifnot = create_handler_2 0xf2f5 "THROWARGANYIFNOT"

abbrev pub try_ : LoadHandler
try_ = create_handler_2 0xf2ff "TRY"
