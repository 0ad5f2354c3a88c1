-- ===== src/Disasm/Loader/SliceParts.antt =====
-- src/disasm/loader.rs: the opcode checks of the handlers for cutting, testing and counting slices.
use tvm_linker.Prelude.{◌==◌, ◌*◌}
use tvm_linker.Disasm.Handler.{LoadHandler, custom, create_handler_2}
use tvm_linker.Disasm.Operands.{done, next_int}
use tvm_linker.Disasm.Types.{new, with_param, length}

abbrev pub subslice : LoadHandler
subslice = create_handler_2 0xd734 "SUBSLICE"

abbrev pub split : LoadHandler
split = create_handler_2 0xd736 "SPLIT"

abbrev pub splitq : LoadHandler
splitq = create_handler_2 0xd737 "SPLITQ"

abbrev pub xctos : LoadHandler
xctos = create_handler_2 0xd739 "XCTOS"

abbrev pub xload : LoadHandler
xload = create_handler_2 0xd73a "XLOAD"

abbrev pub xloadq : LoadHandler
xloadq = create_handler_2 0xd73b "XLOADQ"

abbrev pub schkbits : LoadHandler
schkbits = create_handler_2 0xd741 "SCHKBITS"

abbrev pub schkrefs : LoadHandler
schkrefs = create_handler_2 0xd742 "SCHKREFS"

abbrev pub schkbitrefs : LoadHandler
schkbitrefs = create_handler_2 0xd743 "XCHKBITREFS"

abbrev pub schkbitsq : LoadHandler
schkbitsq = create_handler_2 0xd745 "SCHKBITSQ"

abbrev pub schkrefsq : LoadHandler
schkrefsq = create_handler_2 0xd746 "SCHKREFSQ"

abbrev pub schkbitrefsq : LoadHandler
schkbitrefsq = create_handler_2 0xd747 "SCHKBITREFSQ"

abbrev pub pldrefvar : LoadHandler
pldrefvar = create_handler_2 0xd748 "PLDREFVAR"

abbrev pub sbits : LoadHandler
sbits = create_handler_2 0xd749 "SBITS"

abbrev pub srefs : LoadHandler
srefs = create_handler_2 0xd74a "SREFS"

abbrev pub sbitrefs : LoadHandler
sbitrefs = create_handler_2 0xd74b "SBITREFS"

abbrev pub pldref : LoadHandler
pldref = create_handler_2 0xd74c "PLDREF"

abbrev pub pldrefidx : LoadHandler
pldrefidx =
    custom 14 (λ opc. opc * 4 == 0xd74c)
      (λ opc. next_int 2 (λ n. done (with_param (length n) (new "PLDREFIDX"))))

abbrev pub ldile4 : LoadHandler
ldile4 = create_handler_2 0xd750 "LDILE4"

abbrev pub ldule4 : LoadHandler
ldule4 = create_handler_2 0xd751 "LDULE4"

abbrev pub ldile8 : LoadHandler
ldile8 = create_handler_2 0xd752 "LDILE8"

abbrev pub ldule8 : LoadHandler
ldule8 = create_handler_2 0xd753 "LDULE8"

abbrev pub pldile4 : LoadHandler
pldile4 = create_handler_2 0xd754 "PLDILE4"

abbrev pub pldule4 : LoadHandler
pldule4 = create_handler_2 0xd755 "PLDULE4"

abbrev pub pldile8 : LoadHandler
pldile8 = create_handler_2 0xd756 "PLDILE8"

abbrev pub pldule8 : LoadHandler
pldule8 = create_handler_2 0xd757 "PLDULE8"

abbrev pub ldile4q : LoadHandler
ldile4q = create_handler_2 0xd758 "LDILE4Q"

abbrev pub ldule4q : LoadHandler
ldule4q = create_handler_2 0xd759 "LDULE4Q"

abbrev pub ldile8q : LoadHandler
ldile8q = create_handler_2 0xd75a "LDILE8Q"

abbrev pub ldule8q : LoadHandler
ldule8q = create_handler_2 0xd75b "LDULE8Q"

abbrev pub pldile4q : LoadHandler
pldile4q = create_handler_2 0xd75c "PLDILE4Q"

abbrev pub pldule4q : LoadHandler
pldule4q = create_handler_2 0xd75d "PLDULE4Q"

abbrev pub pldile8q : LoadHandler
pldile8q = create_handler_2 0xd75e "PLDILE8Q"

abbrev pub pldule8q : LoadHandler
pldule8q = create_handler_2 0xd75f "PLDULE8Q"

abbrev pub ldzeroes : LoadHandler
ldzeroes = create_handler_2 0xd760 "LDZEROES"

abbrev pub ldones : LoadHandler
ldones = create_handler_2 0xd761 "LDONES"

abbrev pub ldsame : LoadHandler
ldsame = create_handler_2 0xd762 "LDSAME"

abbrev pub sdepth : LoadHandler
sdepth = create_handler_2 0xd764 "SDEPTH"
