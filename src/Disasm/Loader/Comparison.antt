-- ===== src/Disasm/Loader/Comparison.antt =====
-- src/disasm/loader.rs: the handlers of this part of the code page, by the opcodes that they accept
-- and the operands that they read.
use tvm_linker.Prelude.{◌==◌, ◌+◌}
use tvm_linker.Disasm.Handler.{
  LoadHandler, custom, create_handler_1t, create_handler_2t, create_handler_1, create_handler_2,
}
use tvm_linker.Disasm.Operands.{Behavior, done, next_int, signed, behave}
use tvm_linker.Disasm.Types.{new, with_param, integer, length}

abbrev pub minmax : Behavior → LoadHandler
minmax behavior = create_handler_2t behavior 0xb60a "MINMAX"

abbrev pub abs : Behavior → LoadHandler
abs behavior = create_handler_2t behavior 0xb60b "ABS"

abbrev pub sgn : Behavior → LoadHandler
sgn behavior = create_handler_1t behavior 0xb8 "SGN"

abbrev pub less : Behavior → LoadHandler
less behavior = create_handler_1t behavior 0xb9 "LESS"

abbrev pub equal : Behavior → LoadHandler
equal behavior = create_handler_1t behavior 0xba "EQUAL"

abbrev pub leq : Behavior → LoadHandler
leq behavior = create_handler_1t behavior 0xbb "LEQ"

abbrev pub greater : Behavior → LoadHandler
greater behavior = create_handler_1t behavior 0xbc "GREATER"

abbrev pub neq : Behavior → LoadHandler
neq behavior = create_handler_1t behavior 0xbd "NEQ"

abbrev pub geq : Behavior → LoadHandler
geq behavior = create_handler_1t behavior 0xbe "GEQ"

abbrev pub cmp : Behavior → LoadHandler
cmp behavior = create_handler_1t behavior 0xbf "CMP"

abbrev pub eqint : Behavior → LoadHandler
eqint behavior =
    custom 8 (λ opc. opc == 0xc0)
      (λ opc.
        next_int 8
          (λ yy. done (with_param (integer (signed 8 yy)) (behave behavior (new "EQINT")))))

abbrev pub lessint : Behavior → LoadHandler
lessint behavior =
    custom 8 (λ opc. opc == 0xc1)
      (λ opc.
        next_int 8
          (λ yy. done (with_param (integer (signed 8 yy)) (behave behavior (new "LESSINT")))))

abbrev pub gtint : Behavior → LoadHandler
gtint behavior =
    custom 8 (λ opc. opc == 0xc2)
      (λ opc.
        next_int 8
          (λ yy. done (with_param (integer (signed 8 yy)) (behave behavior (new "GTINT")))))

abbrev pub neqint : Behavior → LoadHandler
neqint behavior =
    custom 8 (λ opc. opc == 0xc3)
      (λ opc.
        next_int 8
          (λ yy. done (with_param (integer (signed 8 yy)) (behave behavior (new "NEQINT")))))

abbrev pub isnan : LoadHandler
isnan = create_handler_1 0xc4 "ISNAN"

abbrev pub chknan : LoadHandler
chknan = create_handler_1 0xc5 "CHKNAN"

abbrev pub sempty : LoadHandler
sempty = create_handler_2 0xc700 "SEMPTY"

abbrev pub sdempty : LoadHandler
sdempty = create_handler_2 0xc701 "SDEMPTY"

abbrev pub srempty : LoadHandler
srempty = create_handler_2 0xc702 "SREMPTY"

abbrev pub sdfirst : LoadHandler
sdfirst = create_handler_2 0xc703 "SDFIRST"

abbrev pub sdlexcmp : LoadHandler
sdlexcmp = create_handler_2 0xc704 "SDLEXCMP"

abbrev pub sdeq : LoadHandler
sdeq = create_handler_2 0xc705 "SDEQ"

abbrev pub sdpfx : LoadHandler
sdpfx = create_handler_2 0xc708 "SDPFX"

abbrev pub sdpfxrev : LoadHandler
sdpfxrev = create_handler_2 0xc709 "SDPFXREV"

abbrev pub sdppfx : LoadHandler
sdppfx = create_handler_2 0xc70a "SDPPFX"

abbrev pub sdppfxrev : LoadHandler
sdppfxrev = create_handler_2 0xc70b "SDPPFXREV"

abbrev pub sdsfx : LoadHandler
sdsfx = create_handler_2 0xc70c "SDSFX"

abbrev pub sdsfxrev : LoadHandler
sdsfxrev = create_handler_2 0xc70d "SDSFXREV"

abbrev pub sdpsfx : LoadHandler
sdpsfx = create_handler_2 0xc70e "SDPSFX"

abbrev pub sdpsfxrev : LoadHandler
sdpsfxrev = create_handler_2 0xc70f "SDPSFXREV"

abbrev pub sdcntlead0 : LoadHandler
sdcntlead0 = create_handler_2 0xc710 "SDCNTLEAD0"

abbrev pub sdcntlead1 : LoadHandler
sdcntlead1 = create_handler_2 0xc711 "SDCNTLEAD1"

abbrev pub sdcnttrail0 : LoadHandler
sdcnttrail0 = create_handler_2 0xc712 "SDCNTTRAIL0"

abbrev pub sdcnttrail1 : LoadHandler
sdcnttrail1 = create_handler_2 0xc713 "SDCNTTRAIL1"

abbrev pub newc : LoadHandler
newc = create_handler_1 0xc8 "NEWC"

abbrev pub endc : LoadHandler
endc = create_handler_1 0xc9 "ENDC"

abbrev pub sti : LoadHandler
sti =
    custom 8 (λ opc. opc == 0xca)
      (λ opc. next_int 8 (λ cc. done (with_param (length (cc + 1)) (new "STI"))))
