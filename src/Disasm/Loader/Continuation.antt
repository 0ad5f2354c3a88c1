-- ===== src/Disasm/Loader/Continuation.antt =====
-- src/disasm/loader.rs: the opcode checks of the handlers for continuations and control registers.
use tvm_linker.Prelude.{◌==◌, pos}
use tvm_linker.Disasm.Handler.{LoadHandler, custom, create_handler_2}
use tvm_linker.Disasm.Operands.{done, next_int}
use tvm_linker.Disasm.Types.{new, with_param, control_register, nargs, pargs, rargs}

abbrev pub setcontargs : LoadHandler
setcontargs =
    custom 8 (λ opc. opc == 0xec)
      (λ opc. next_int 4 (λ r.
        next_int 4
          (λ n. done (with_param (nargs (pos n)) (with_param (rargs r) (new "SETCONTARGS"))))))

abbrev pub returnargs : LoadHandler
returnargs =
    custom 12 (λ opc. opc == 0xed0)
      (λ opc. next_int 4 (λ p. done (with_param (pargs p) (new "RETURNARGS"))))

abbrev pub returnva : LoadHandler
returnva = create_handler_2 0xed10 "RETURNVARARGS"

abbrev pub setcontva : LoadHandler
setcontva = create_handler_2 0xed11 "SETCONTVARARGS"

abbrev pub setnumva : LoadHandler
setnumva = create_handler_2 0xed12 "SETNUMVARARGS"

abbrev pub bless : LoadHandler
bless = create_handler_2 0xed1e "BLESS"

abbrev pub blessva : LoadHandler
blessva = create_handler_2 0xed1f "BLESSVARARGS"

abbrev pub pushctr : LoadHandler
pushctr =
    custom 12 (λ opc. opc == 0xed4)
      (λ opc. next_int 4 (λ i. done (with_param (control_register i) (new "PUSHCTR"))))

abbrev pub popctr : LoadHandler
popctr =
    custom 12 (λ opc. opc == 0xed5)
      (λ opc. next_int 4 (λ i. done (with_param (control_register i) (new "POPCTR"))))

abbrev pub setcontctr : LoadHandler
setcontctr =
    custom 12 (λ opc. opc == 0xed6)
      (λ opc. next_int 4 (λ i. done (with_param (control_register i) (new "SETCONTCTR"))))

abbrev pub setretctr : LoadHandler
setretctr =
    custom 12 (λ opc. opc == 0xed7)
      (λ opc. next_int 4 (λ i. done (with_param (control_register i) (new "SETRETCTR"))))

abbrev pub setaltctr : LoadHandler
setaltctr =
    custom 12 (λ opc. opc == 0xed8)
      (λ opc. next_int 4 (λ i. done (with_param (control_register i) (new "SETALTCTR"))))

abbrev pub popsave : LoadHandler
popsave =
    custom 12 (λ opc. opc == 0xed9)
      (λ opc. next_int 4 (λ i. done (with_param (control_register i) (new "POPSAVE"))))

abbrev pub save : LoadHandler
save =
    custom 12 (λ opc. opc == 0xeda)
      (λ opc. next_int 4 (λ i. done (with_param (control_register i) (new "SAVE"))))

abbrev pub savealt : LoadHandler
savealt =
    custom 12 (λ opc. opc == 0xedb)
      (λ opc. next_int 4 (λ i. done (with_param (control_register i) (new "SAVEALT"))))

abbrev pub saveboth : LoadHandler
saveboth =
    custom 12 (λ opc. opc == 0xedc)
      (λ opc. next_int 4 (λ i. done (with_param (control_register i) (new "SAVEBOTH"))))

abbrev pub pushctrx : LoadHandler
pushctrx = create_handler_2 0xede0 "PUSHCTRX"

abbrev pub popctrx : LoadHandler
popctrx = create_handler_2 0xede1 "POPCTRX"

abbrev pub setcontctrx : LoadHandler
setcontctrx = create_handler_2 0xede2 "SETCONTCTRX"

abbrev pub compos : LoadHandler
compos = create_handler_2 0xedf0 "COMPOS"

abbrev pub composalt : LoadHandler
composalt = create_handler_2 0xedf1 "COMPOSALT"

abbrev pub composboth : LoadHandler
composboth = create_handler_2 0xedf2 "COMPOSBOTH"

abbrev pub atexit : LoadHandler
atexit = create_handler_2 0xedf3 "ATEXIT"

abbrev pub atexitalt : LoadHandler
atexitalt = create_handler_2 0xedf4 "ATEXITALT"

abbrev pub setexitalt : LoadHandler
setexitalt = create_handler_2 0xedf5 "SETEXITALT"

abbrev pub thenret : LoadHandler
thenret = create_handler_2 0xedf6 "THENRET"

abbrev pub thenretalt : LoadHandler
thenretalt = create_handler_2 0xedf7 "THENRETALT"

abbrev pub invert : LoadHandler
invert = create_handler_2 0xedf8 "INVERT"

abbrev pub booleval : LoadHandler
booleval = create_handler_2 0xedf9 "BOOLEVAL"

abbrev pub samealt : LoadHandler
samealt = create_handler_2 0xedfa "SAMEALT"

abbrev pub samealt_save : LoadHandler
samealt_save = create_handler_2 0xedfb "SAMEALTSAVE"

abbrev pub blessargs : LoadHandler
blessargs =
    custom 8 (λ opc. opc == 0xee)
      (λ opc. next_int 4 (λ r.
        next_int 4
          (λ n. done (with_param (nargs (pos n)) (with_param (rargs r) (new "BLESSARGS"))))))

abbrev pub call_short : LoadHandler
call_short =
    custom 8 (λ opc. opc == 0xf0)
      (λ opc. next_int 8 (λ n. done (with_param (nargs (pos n)) (new "CALL"))))
