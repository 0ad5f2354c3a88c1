-- ===== src/Disasm/Loader/Blockchain.antt =====
-- src/disasm/loader.rs: the handlers of this part of the code page, by the opcodes that they accept
-- and the operands that they read.
use tvm_linker.Prelude.{◌==◌, bit_and}
use tvm_linker.Disasm.Handler.{LoadHandler, custom, create_handler_2}
use tvm_linker.Disasm.Operands.{Behavior, done, next_int, behave}
use tvm_linker.Disasm.Types.{new, with_param, pargs, rargs}

abbrev pub tryargs : LoadHandler
tryargs =
    custom 8 (λ opc. opc == 0xf3)
      (λ opc.
        next_int 4 (λ p.
          next_int 4 (λ r. done (with_param (rargs r) (with_param (pargs p) (new "TRYARGS"))))))

abbrev pub ldgrams : LoadHandler
ldgrams = create_handler_2 0xfa00 "LDGRAMS"

abbrev pub ldvarint16 : LoadHandler
ldvarint16 = create_handler_2 0xfa01 "LDVARINT16"

abbrev pub stgrams : LoadHandler
stgrams = create_handler_2 0xfa02 "STGRAMS"

abbrev pub stvarint16 : LoadHandler
stvarint16 = create_handler_2 0xfa03 "STVARINT16"

abbrev pub ldvaruint32 : LoadHandler
ldvaruint32 = create_handler_2 0xfa04 "LDVARUINT32"

abbrev pub ldvarint32 : LoadHandler
ldvarint32 = create_handler_2 0xfa05 "LDVARINT32"

abbrev pub stvaruint32 : LoadHandler
stvaruint32 = create_handler_2 0xfa06 "STVARUINT32"

abbrev pub stvarint32 : LoadHandler
stvarint32 = create_handler_2 0xfa07 "STVARINT32"

abbrev pub ldmsgaddr : Behavior → LoadHandler
ldmsgaddr behavior =
    custom 16 (λ opc. bit_and opc 0xfffe == 0xfa40)
      (λ opc. done (behave behavior (new "LDMSGADDR")))

abbrev pub parsemsgaddr : Behavior → LoadHandler
parsemsgaddr behavior =
    custom 16 (λ opc. bit_and opc 0xfffe == 0xfa42)
      (λ opc. done (behave behavior (new "PARSEMSGADDR")))

abbrev pub rewrite_std_addr : Behavior → LoadHandler
rewrite_std_addr behavior =
    custom 16 (λ opc. bit_and opc 0xfffe == 0xfa44)
      (λ opc. done (behave behavior (new "REWRITESTDADDR")))

abbrev pub rewrite_var_addr : Behavior → LoadHandler
rewrite_var_addr behavior =
    custom 16 (λ opc. bit_and opc 0xfffe == 0xfa46)
      (λ opc. done (behave behavior (new "REWRITEVARADDR")))

abbrev pub sendrawmsg : LoadHandler
sendrawmsg = create_handler_2 0xfb00 "SENDRAWMSG"

abbrev pub rawreserve : LoadHandler
rawreserve = create_handler_2 0xfb02 "RAWRESERVE"

abbrev pub rawreservex : LoadHandler
rawreservex = create_handler_2 0xfb03 "RAWRESERVEX"

abbrev pub setcode : LoadHandler
setcode = create_handler_2 0xfb04 "SETCODE"

abbrev pub setlibcode : LoadHandler
setlibcode = create_handler_2 0xfb06 "SETLIBCODE"
