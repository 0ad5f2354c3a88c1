-- ===== src/Disasm/Loader/Arithmetic.antt =====
-- src/disasm/loader.rs: the handlers of this part of the code page, by the opcodes that they accept
-- and the operands that they read.
use tvm_linker.Prelude.{◌==◌, ◌||◌, if◌then◌else◌, ◌+◌}
use tvm_linker.Disasm.Handler.{LoadHandler, custom, create_handler_1t, create_handler_2t}
use tvm_linker.Disasm.Operands.{Behavior, done, refuse, next_int, divmod_operand, behave, signed}
use tvm_linker.Disasm.Types.{new, with_param, integer, length}

abbrev pub add : Behavior → LoadHandler
add behavior = create_handler_1t behavior 0xa0 "ADD"

abbrev pub sub : Behavior → LoadHandler
sub behavior = create_handler_1t behavior 0xa1 "SUB"

abbrev pub subr : Behavior → LoadHandler
subr behavior = create_handler_1t behavior 0xa2 "SUBR"

abbrev pub negate : Behavior → LoadHandler
negate behavior = create_handler_1t behavior 0xa3 "NEGATE"

abbrev pub inc : Behavior → LoadHandler
inc behavior = create_handler_1t behavior 0xa4 "INC"

abbrev pub dec : Behavior → LoadHandler
dec behavior = create_handler_1t behavior 0xa5 "DEC"

abbrev pub addconst : Behavior → LoadHandler
addconst behavior =
    custom 8 (λ opc. opc == 0xa6)
      (λ opc.
        next_int 8
          (λ cc. done (with_param (integer (signed 8 cc)) (behave behavior (new "ADDCONST")))))

abbrev pub mulconst : Behavior → LoadHandler
mulconst behavior =
    custom 8 (λ opc. opc == 0xa7)
      (λ opc.
        next_int 8
          (λ cc. done (with_param (integer (signed 8 cc)) (behave behavior (new "MULCONST")))))

abbrev pub mul : Behavior → LoadHandler
mul behavior = create_handler_1t behavior 0xa8 "MUL"

abbrev pub divmod : Behavior → LoadHandler
divmod behavior =
    custom 8 (λ opc. opc == 0xa9) (λ opc. next_int 8 (λ opc2. divmod_operand behavior opc2))

abbrev pub lshift : Behavior → LoadHandler
lshift behavior =
    custom 8 (λ opc. (opc == 0xaa) || (opc == 0xac))
      (λ opc.
        if opc == 0xaa
        then next_int 8 (λ cc. done (with_param (length (cc + 1)) (behave behavior (new "LSHIFT"))))
        else if opc == 0xac
        then done (behave behavior (new "LSHIFT"))
        else refuse)

abbrev pub rshift : Behavior → LoadHandler
rshift behavior =
    custom 8 (λ opc. (opc == 0xab) || (opc == 0xad))
      (λ opc.
        if opc == 0xab
        then next_int 8 (λ cc. done (with_param (length (cc + 1)) (behave behavior (new "RSHIFT"))))
        else if opc == 0xad
        then done (behave behavior (new "RSHIFT"))
        else refuse)

abbrev pub pow2 : Behavior → LoadHandler
pow2 behavior = create_handler_1t behavior 0xae "POW2"

abbrev pub and : Behavior → LoadHandler
and behavior = create_handler_1t behavior 0xb0 "AND"

abbrev pub or : Behavior → LoadHandler
or behavior = create_handler_1t behavior 0xb1 "OR"

abbrev pub xor : Behavior → LoadHandler
xor behavior = create_handler_1t behavior 0xb2 "XOR"

abbrev pub not : Behavior → LoadHandler
not behavior = create_handler_1t behavior 0xb3 "NOT"

abbrev pub fits : Behavior → LoadHandler
fits behavior =
    custom 8 (λ opc. opc == 0xb4)
      (λ opc. next_int 8 (λ cc. done (with_param (length (cc + 1)) (behave behavior (new "FITS")))))

abbrev pub ufits : Behavior → LoadHandler
ufits behavior =
    custom 8 (λ opc. opc == 0xb5)
      (λ opc.
        next_int 8 (λ cc. done (with_param (length (cc + 1)) (behave behavior (new "UFITS")))))

abbrev pub fitsx : Behavior → LoadHandler
fitsx behavior = create_handler_2t behavior 0xb600 "FITSX"

abbrev pub ufitsx : Behavior → LoadHandler
ufitsx behavior = create_handler_2t behavior 0xb601 "UFITSX"

abbrev pub bitsize : Behavior → LoadHandler
bitsize behavior = create_handler_2t behavior 0xb602 "BITSIZE"

abbrev pub ubitsize : Behavior → LoadHandler
ubitsize behavior = create_handler_2t behavior 0xb603 "UBITSIZE"

abbrev pub min : Behavior → LoadHandler
min behavior = create_handler_2t behavior 0xb608 "MIN"

abbrev pub max : Behavior → LoadHandler
max behavior = create_handler_2t behavior 0xb609 "MAX"
