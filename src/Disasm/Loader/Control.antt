-- ===== src/Disasm/Loader/Control.antt =====
-- src/disasm/loader.rs: the opcode checks of the handlers for calls, jumps and conditionals.
use tvm_linker.Prelude.{◌==◌, ◌||◌, if◌then◌else◌, ◌-◌, ◌^◌}
use tvm_linker.Disasm.Handler.{
  LoadHandler, custom, create_handler_2r, create_handler_3r, create_handler_1, create_handler_2,
}
use tvm_linker.Disasm.Operands.{done, refuse, next_int, check}
use tvm_linker.Disasm.Types.{new, with_param, pargs, rargs}

abbrev pub cdepth : LoadHandler
cdepth = create_handler_2 0xd765 "CDEPTH"

abbrev pub callx : LoadHandler
callx = create_handler_1 0xd8 "CALLX"

abbrev pub jmpx : LoadHandler
jmpx = create_handler_1 0xd9 "JMPX"

abbrev pub callxargs : LoadHandler
callxargs =
    custom 8 (λ opc. (opc == 0xda) || (opc == 0xdb))
      (λ opc.
        if opc == 0xda
        then next_int 4 (λ p.
          next_int 4 (λ r. done (with_param (rargs r) (with_param (pargs p) (new "CALLXARGS")))))
        else if opc == 0xdb
        then next_int 4 (λ z. check (z == 0) (
            next_int 4 (λ p.
              done (with_param (rargs (2 ^ 64 - 1)) (with_param (pargs p) (new "CALLXARGS"))))))
        else refuse)

abbrev pub jmpxargs : LoadHandler
jmpxargs =
    custom 12 (λ opc. opc == 0xdb1)
      (λ opc. next_int 4 (λ p. done (with_param (pargs p) (new "JMPXARGS"))))

abbrev pub retargs : LoadHandler
retargs =
    custom 12 (λ opc. opc == 0xdb2)
      (λ opc. next_int 4 (λ r. done (with_param (rargs r) (new "RETARGS"))))

abbrev pub ret : LoadHandler
ret = create_handler_2 0xdb30 "RET"

abbrev pub retalt : LoadHandler
retalt = create_handler_2 0xdb31 "RETALT"

abbrev pub retbool : LoadHandler
retbool = create_handler_2 0xdb32 "RETBOOL"

abbrev pub callcc : LoadHandler
callcc = create_handler_2 0xdb34 "CALLCC"

abbrev pub jmpxdata : LoadHandler
jmpxdata = create_handler_2 0xdb35 "JMPXDATA"

abbrev pub callccargs : LoadHandler
callccargs =
    custom 16 (λ opc. opc == 0xdb36)
      (λ opc. next_int 4 (λ p.
        next_int 4 (λ r. done (with_param (rargs r) (with_param (pargs p) (new "CALLCCARGS"))))))

abbrev pub callxva : LoadHandler
callxva = create_handler_2 0xdb38 "CALLXVARARGS"

abbrev pub retva : LoadHandler
retva = create_handler_2 0xdb39 "RETVARARGS"

abbrev pub jmpxva : LoadHandler
jmpxva = create_handler_2 0xdb3a "JMPXVARARGS"

abbrev pub callccva : LoadHandler
callccva = create_handler_2 0xdb3b "CALLCCVARARGS"

abbrev pub callref : LoadHandler
callref = create_handler_2r 0xdb3c "CALLREF"

abbrev pub jmpref : LoadHandler
jmpref = create_handler_2r 0xdb3d "JMPREF"

abbrev pub jmprefdata : LoadHandler
jmprefdata = create_handler_2r 0xdb3e "JMPREFDATA"

abbrev pub retdata : LoadHandler
retdata = create_handler_2 0xdb3f "RETDATA"

abbrev pub ifret : LoadHandler
ifret = create_handler_1 0xdc "IFRET"

abbrev pub ifnotret : LoadHandler
ifnotret = create_handler_1 0xdd "IFNOTRET"

abbrev pub if_ : LoadHandler
if_ = create_handler_1 0xde "IF"

abbrev pub ifnot : LoadHandler
ifnot = create_handler_1 0xdf "IFNOT"

abbrev pub ifjmp : LoadHandler
ifjmp = create_handler_1 0xe0 "IFJMP"

abbrev pub ifnotjmp : LoadHandler
ifnotjmp = create_handler_1 0xe1 "IFNOTJMP"

abbrev pub ifelse : LoadHandler
ifelse = create_handler_1 0xe2 "IFELSE"

abbrev pub ifref : LoadHandler
ifref = create_handler_2r 0xe300 "IFREF"

abbrev pub ifnotref : LoadHandler
ifnotref = create_handler_2r 0xe301 "IFNOTREF"

abbrev pub ifjmpref : LoadHandler
ifjmpref = create_handler_2r 0xe302 "IFJMPREF"

abbrev pub ifnotjmpref : LoadHandler
ifnotjmpref = create_handler_2r 0xe303 "IFNOTJMPREF"

abbrev pub condsel : LoadHandler
condsel = create_handler_2 0xe304 "CONDSEL"

abbrev pub condselchk : LoadHandler
condselchk = create_handler_2 0xe305 "CONDSELCHK"

abbrev pub ifretalt : LoadHandler
ifretalt = create_handler_2 0xe308 "IFRETALT"

abbrev pub ifnotretalt : LoadHandler
ifnotretalt = create_handler_2 0xe309 "IFNOTRETALT"

abbrev pub ifrefelse : LoadHandler
ifrefelse = create_handler_2r 0xe30d "IFREFELSE"

abbrev pub ifelseref : LoadHandler
ifelseref = create_handler_2r 0xe30e "IFELSEREF"

abbrev pub ifrefelseref : LoadHandler
ifrefelseref = create_handler_3r 0xe30f "IFREFELSEREF"
