-- ===== src/Disasm/Loader/Builder.antt =====
-- src/disasm/loader.rs: the handlers of this part of the code page, by the opcodes that they accept
-- and the operands that they read.
use tvm_linker.Prelude.{◌==◌, ◌*◌, ◌+◌}
use tvm_linker.Disasm.Handler.{LoadHandler, custom, create_handler_1, create_handler_2}
use tvm_linker.Disasm.Operands.{done, next_int, next_slice, trim, check}
use tvm_linker.Disasm.Types.{new, with_param, set_quiet, length, slice}

abbrev pub stu : LoadHandler
stu =
    custom 8 (λ opc. opc == 0xcb)
      (λ opc. next_int 8 (λ cc. done (with_param (length (cc + 1)) (new "STU"))))

abbrev pub stref : LoadHandler
stref = create_handler_1 0xcc "STREF"

abbrev pub endcst : LoadHandler
endcst = create_handler_1 0xcd "STBREFR"

abbrev pub stslice : LoadHandler
stslice = create_handler_1 0xce "STSLICE"

abbrev pub stix : LoadHandler
stix = create_handler_2 0xcf00 "STIX"

abbrev pub stux : LoadHandler
stux = create_handler_2 0xcf01 "STUX"

abbrev pub stixr : LoadHandler
stixr = create_handler_2 0xcf02 "STIXR"

abbrev pub stuxr : LoadHandler
stuxr = create_handler_2 0xcf03 "STUXR"

abbrev pub stixq : LoadHandler
stixq = create_handler_2 0xcf04 "STIXQ"

abbrev pub stuxq : LoadHandler
stuxq = create_handler_2 0xcf05 "STUXQ"

abbrev pub stixrq : LoadHandler
stixrq = create_handler_2 0xcf06 "STIXRQ"

abbrev pub stuxrq : LoadHandler
stuxrq = create_handler_2 0xcf07 "STUXRQ"

abbrev pub stir : LoadHandler
stir =
    custom 16 (λ opc. opc == 0xcf0a)
      (λ opc. next_int 8 (λ cc. done (with_param (length (cc + 1)) (new "STIR"))))

abbrev pub stur : LoadHandler
stur =
    custom 16 (λ opc. opc == 0xcf0b)
      (λ opc. next_int 8 (λ cc. done (with_param (length (cc + 1)) (new "STUR"))))

abbrev pub stiq : LoadHandler
stiq =
    custom 16 (λ opc. opc == 0xcf0c)
      (λ opc. next_int 8 (λ cc. done (with_param (length (cc + 1)) (set_quiet (new "STI")))))

abbrev pub stuq : LoadHandler
stuq =
    custom 16 (λ opc. opc == 0xcf0d)
      (λ opc. next_int 8 (λ cc. done (with_param (length (cc + 1)) (set_quiet (new "STU")))))

abbrev pub stirq : LoadHandler
stirq =
    custom 16 (λ opc. opc == 0xcf0e)
      (λ opc. next_int 8 (λ cc. done (with_param (length (cc + 1)) (set_quiet (new "STIR")))))

abbrev pub sturq : LoadHandler
sturq =
    custom 16 (λ opc. opc == 0xcf0f)
      (λ opc. next_int 8 (λ cc. done (with_param (length (cc + 1)) (set_quiet (new "STUR")))))

abbrev pub stbref : LoadHandler
stbref = create_handler_2 0xcf11 "STBREF"

abbrev pub stb : LoadHandler
stb = create_handler_2 0xcf13 "STB"

abbrev pub strefr : LoadHandler
strefr = create_handler_2 0xcf14 "STREFR"

abbrev pub stslicer : LoadHandler
stslicer = create_handler_2 0xcf16 "STSLICER"

abbrev pub stbr : LoadHandler
stbr = create_handler_2 0xcf17 "STBR"

abbrev pub strefq : LoadHandler
strefq = create_handler_2 0xcf18 "STREFQ"

abbrev pub stbrefq : LoadHandler
stbrefq = create_handler_2 0xcf19 "STBREFQ"

abbrev pub stsliceq : LoadHandler
stsliceq = create_handler_2 0xcf1a "STSLICEQ"

abbrev pub stbq : LoadHandler
stbq = create_handler_2 0xcf1b "STBQ"

abbrev pub strefrq : LoadHandler
strefrq = create_handler_2 0xcf1c "STREFRQ"

abbrev pub stbrefrq : LoadHandler
stbrefrq = create_handler_2 0xcf1d "STBREFRQ"

abbrev pub stslicerq : LoadHandler
stslicerq = create_handler_2 0xcf1e "STSLICERQ"

abbrev pub stbrq : LoadHandler
stbrq = create_handler_2 0xcf1f "STBRQ"

abbrev pub strefconst : LoadHandler
strefconst = create_handler_2 0xcf20 "STREFCONST"

abbrev pub stref2const : LoadHandler
stref2const = create_handler_2 0xcf21 "STREF2CONST"

abbrev pub endxc : LoadHandler
endxc = create_handler_2 0xcf23 "ENDXC"

abbrev pub stile4 : LoadHandler
stile4 = create_handler_2 0xcf28 "STILE4"

abbrev pub stule4 : LoadHandler
stule4 = create_handler_2 0xcf29 "STULE4"

abbrev pub stile8 : LoadHandler
stile8 = create_handler_2 0xcf2a "STILE8"

abbrev pub stule8 : LoadHandler
stule8 = create_handler_2 0xcf2b "STULE8"

abbrev pub bdepth : LoadHandler
bdepth = create_handler_2 0xcf30 "BDEPTH"

abbrev pub bbits : LoadHandler
bbits = create_handler_2 0xcf31 "BBITS"

abbrev pub brefs : LoadHandler
brefs = create_handler_2 0xcf32 "BREFS"

abbrev pub bbitrefs : LoadHandler
bbitrefs = create_handler_2 0xcf33 "BBITREFS"

abbrev pub brembits : LoadHandler
brembits = create_handler_2 0xcf35 "BREMBITS"

abbrev pub bremrefs : LoadHandler
bremrefs = create_handler_2 0xcf36 "BREMREFS"

abbrev pub brembitrefs : LoadHandler
brembitrefs = create_handler_2 0xcf37 "BREMBITREFS"

abbrev pub bchkbits_short : LoadHandler
bchkbits_short =
    custom 16 (λ opc. opc == 0xcf38)
      (λ opc. next_int 8 (λ cc. done (with_param (length (cc + 1)) (new "BCHKBITS"))))

abbrev pub bchkbits_long : LoadHandler
bchkbits_long = create_handler_2 0xcf39 "BCHKBITS"

abbrev pub bchkrefs : LoadHandler
bchkrefs = create_handler_2 0xcf3a "BCHKREFS"

abbrev pub bchkbitrefs : LoadHandler
bchkbitrefs = create_handler_2 0xcf3b "BCHKBITREFS"

abbrev pub bchkbitsq_short : LoadHandler
bchkbitsq_short =
    custom 16 (λ opc. opc == 0xcf3c)
      (λ opc. next_int 8 (λ cc. done (with_param (length (cc + 1)) (set_quiet (new "BCHKBITS")))))

abbrev pub bchkbitsq_long : LoadHandler
bchkbitsq_long = create_handler_2 0xcf3d "BCHKBITSQ"

abbrev pub bchkrefsq : LoadHandler
bchkrefsq = create_handler_2 0xcf3e "BCHKREFSQ"

abbrev pub bchkbitrefsq : LoadHandler
bchkbitrefsq = create_handler_2 0xcf3f "BCHKBITREFSQ"

abbrev pub stzeroes : LoadHandler
stzeroes = create_handler_2 0xcf40 "STZEROES"

abbrev pub stones : LoadHandler
stones = create_handler_2 0xcf41 "STONES"

abbrev pub stsame : LoadHandler
stsame = create_handler_2 0xcf42 "STSAME"

abbrev pub stsliceconst : LoadHandler
stsliceconst =
    custom 9 (λ opc. opc * 8 == 0xcf8)
      (λ opc. next_int 2 (λ x. check (x == 0) (
        next_int 3 (λ y.
          next_slice (y * 8 + 2)
            (λ raw. trim raw (λ sss. done (with_param (slice sss) (new "STSLICECONST"))))))))
