-- ===== src/Disasm/Loader/Slice.antt =====
-- src/disasm/loader.rs: the opcode checks of the handlers for reading integers and parts of slices.
use tvm_linker.Prelude.{◌==◌, ◌*◌, ◌+◌}
use tvm_linker.Disasm.Handler.{LoadHandler, custom, create_handler_1, create_handler_2}
use tvm_linker.Disasm.Operands.{done, next_int, next_slice, trim}
use tvm_linker.Disasm.Types.{new, with_param, set_quiet, length, slice}

abbrev pub ctos : LoadHandler
ctos = create_handler_1 0xd0 "CTOS"

abbrev pub ends : LoadHandler
ends = create_handler_1 0xd1 "ENDS"

abbrev pub ldi : LoadHandler
ldi =
    custom 8 (λ opc. opc == 0xd2)
      (λ opc. next_int 8 (λ cc. done (with_param (length (cc + 1)) (new "LDI"))))

abbrev pub ldu : LoadHandler
ldu =
    custom 8 (λ opc. opc == 0xd3)
      (λ opc. next_int 8 (λ cc. done (with_param (length (cc + 1)) (new "LDU"))))

abbrev pub ldref : LoadHandler
ldref = create_handler_1 0xd4 "LDREF"

abbrev pub ldrefrtos : LoadHandler
ldrefrtos = create_handler_1 0xd5 "LDREFRTOS"

abbrev pub ldslice : LoadHandler
ldslice =
    custom 8 (λ opc. opc == 0xd6)
      (λ opc. next_int 8 (λ cc. done (with_param (length (cc + 1)) (new "LDSLICE"))))

abbrev pub ldix : LoadHandler
ldix = create_handler_2 0xd700 "LDIX"

abbrev pub ldux : LoadHandler
ldux = create_handler_2 0xd701 "LDUX"

abbrev pub pldix : LoadHandler
pldix = create_handler_2 0xd702 "PLDIX"

abbrev pub pldux : LoadHandler
pldux = create_handler_2 0xd703 "PLDUX"

abbrev pub ldixq : LoadHandler
ldixq = create_handler_2 0xd704 "LDIXQ"

abbrev pub lduxq : LoadHandler
lduxq = create_handler_2 0xd705 "LDUXQ"

abbrev pub pldixq : LoadHandler
pldixq = create_handler_2 0xd706 "PLDIXQ"

abbrev pub plduxq : LoadHandler
plduxq = create_handler_2 0xd707 "PLDUXQ"

abbrev pub pldi : LoadHandler
pldi =
    custom 16 (λ opc. opc == 0xd70a)
      (λ opc. next_int 8 (λ cc. done (with_param (length (cc + 1)) (new "PLDI"))))

abbrev pub pldu : LoadHandler
pldu =
    custom 16 (λ opc. opc == 0xd70b)
      (λ opc. next_int 8 (λ cc. done (with_param (length (cc + 1)) (new "PLDU"))))

abbrev pub ldiq : LoadHandler
ldiq =
    custom 16 (λ opc. opc == 0xd70c)
      (λ opc. next_int 8 (λ cc. done (with_param (length (cc + 1)) (set_quiet (new "LDI")))))

abbrev pub lduq : LoadHandler
lduq =
    custom 16 (λ opc. opc == 0xd70d)
      (λ opc. next_int 8 (λ cc. done (with_param (length (cc + 1)) (set_quiet (new "LDU")))))

abbrev pub pldiq : LoadHandler
pldiq =
    custom 16 (λ opc. opc == 0xd70e)
      (λ opc. next_int 8 (λ cc. done (with_param (length (cc + 1)) (set_quiet (new "PLDI")))))

abbrev pub plduq : LoadHandler
plduq =
    custom 16 (λ opc. opc == 0xd70f)
      (λ opc. next_int 8 (λ cc. done (with_param (length (cc + 1)) (set_quiet (new "PLDU")))))

abbrev pub plduz : LoadHandler
plduz =
    custom 13 (λ opc. opc * 8 == 0xd710)
      (λ opc. next_int 3 (λ c. done (with_param (length (32 * (c + 1))) (new "PLDUZ"))))

abbrev pub ldslicex : LoadHandler
ldslicex = create_handler_2 0xd718 "LDSLICEX"

abbrev pub pldslicex : LoadHandler
pldslicex = create_handler_2 0xd719 "PLDSLICEX"

abbrev pub ldslicexq : LoadHandler
ldslicexq = create_handler_2 0xd71a "LDSLICEXQ"

abbrev pub pldslicexq : LoadHandler
pldslicexq = create_handler_2 0xd71b "PLDSLICEXQ"

abbrev pub pldslice : LoadHandler
pldslice =
    custom 16 (λ opc. opc == 0xd71d)
      (λ opc. next_int 8 (λ cc. done (with_param (length (cc + 1)) (new "PLDSLICE"))))

abbrev pub ldsliceq : LoadHandler
ldsliceq =
    custom 16 (λ opc. opc == 0xd71e)
      (λ opc. next_int 8 (λ cc. done (with_param (length (cc + 1)) (set_quiet (new "LDSLICE")))))

abbrev pub pldsliceq : LoadHandler
pldsliceq =
    custom 16 (λ opc. opc == 0xd71f)
      (λ opc. next_int 8 (λ cc. done (with_param (length (cc + 1)) (set_quiet (new "PLDSLICE")))))

abbrev pub sdskipfirst : LoadHandler
sdskipfirst = create_handler_2 0xd721 "SDSKIPFIRST"

abbrev pub sdcutlast : LoadHandler
sdcutlast = create_handler_2 0xd722 "SDCUTLAST"

abbrev pub sdskiplast : LoadHandler
sdskiplast = create_handler_2 0xd723 "SDSKIPLAST"

abbrev pub sdsubstr : LoadHandler
sdsubstr = create_handler_2 0xd724 "SDSUBSTR"

abbrev pub sdbeginsx : LoadHandler
sdbeginsx = create_handler_2 0xd726 "SDBEGINSX"

abbrev pub sdbeginsxq : LoadHandler
sdbeginsxq = create_handler_2 0xd727 "SDBEGINSXQ"

abbrev pub sdbegins : LoadHandler
sdbegins =
    custom 14 (λ opc. opc * 4 == 0xd728)
      (λ opc. next_int 7 (λ x.
        next_slice (8 * x + 3)
          (λ raw. trim raw (λ bitstring. done (with_param (slice bitstring) (new "SDBEGINS"))))))

abbrev pub sdbeginsq : LoadHandler
sdbeginsq =
    custom 14 (λ opc. opc * 4 == 0xd72c)
      (λ opc. next_int 7 (λ x. next_slice (8 * x + 3) (λ raw.
        trim raw (λ bitstring. done (with_param (slice bitstring) (set_quiet (new "SDBEGINS")))))))

abbrev pub scutfirst : LoadHandler
scutfirst = create_handler_2 0xd730 "SCUTFIRST"

abbrev pub sskipfirst : LoadHandler
sskipfirst = create_handler_2 0xd731 "SSKIPFIRST"

abbrev pub scutlast : LoadHandler
scutlast = create_handler_2 0xd732 "SCUTLAST"

abbrev pub sskiplast : LoadHandler
sskiplast = create_handler_2 0xd733 "SSKIPLAST"
