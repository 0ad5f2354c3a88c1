-- ===== src/Disasm/Loader/Config.antt =====
-- src/disasm/loader.rs: the handlers of this part of the code page, by the opcodes that they accept
-- and the operands that they read.
use tvm_linker.Prelude.{◌==◌, ◌*◌, leb}
use tvm_linker.Disasm.Handler.{LoadHandler, custom, create_handler_2}
use tvm_linker.Disasm.Operands.{done, next_int, assert}
use tvm_linker.Disasm.Types.{new, with_param, length}

abbrev pub accept : LoadHandler
accept = create_handler_2 0xf800 "ACCEPT"

abbrev pub setgaslimit : LoadHandler
setgaslimit = create_handler_2 0xf801 "SETGASLIMIT"

abbrev pub buygas : LoadHandler
buygas = create_handler_2 0xf802 "BUYGAS"

abbrev pub gramtogas : LoadHandler
gramtogas = create_handler_2 0xf804 "GRAMTOGAS"

abbrev pub gastogram : LoadHandler
gastogram = create_handler_2 0xf805 "GASTOGRAM"

abbrev pub commit : LoadHandler
commit = create_handler_2 0xf80f "COMMIT"

abbrev pub randu256 : LoadHandler
randu256 = create_handler_2 0xf810 "RANDU256"

abbrev pub rand : LoadHandler
rand = create_handler_2 0xf811 "RAND"

abbrev pub setrand : LoadHandler
setrand = create_handler_2 0xf814 "SETRAND"

abbrev pub addrand : LoadHandler
addrand = create_handler_2 0xf815 "ADDRAND"

abbrev pub getparam : LoadHandler
getparam =
    custom 12 (λ opc. opc == 0xf82)
      (λ opc. next_int 4 (λ i. done (with_param (length i) (new "GETPARAM"))))

abbrev pub now : LoadHandler
now = create_handler_2 0xf823 "NOW"

abbrev pub blocklt : LoadHandler
blocklt = create_handler_2 0xf824 "BLOCKLT"

abbrev pub ltime : LoadHandler
ltime = create_handler_2 0xf825 "LTIME"

abbrev pub randseed : LoadHandler
randseed = create_handler_2 0xf826 "RANDSEED"

abbrev pub balance : LoadHandler
balance = create_handler_2 0xf827 "BALANCE"

abbrev pub my_addr : LoadHandler
my_addr = create_handler_2 0xf828 "MYADDR"

abbrev pub config_root : LoadHandler
config_root = create_handler_2 0xf829 "CONFIGROOT"

abbrev pub my_code : LoadHandler
my_code = create_handler_2 0xf82a "MYCODE"

abbrev pub config_dict : LoadHandler
config_dict = create_handler_2 0xf830 "CONFIGDICT"

abbrev pub config_ref_param : LoadHandler
config_ref_param = create_handler_2 0xf832 "CONFIGPARAM"

abbrev pub config_opt_param : LoadHandler
config_opt_param = create_handler_2 0xf833 "CONFIGOPTPARAM"

abbrev pub getglobvar : LoadHandler
getglobvar = create_handler_2 0xf840 "GETGLOBVAR"

abbrev pub getglob : LoadHandler
getglob =
    custom 11 (λ opc. opc * 2 == 0xf84)
      (λ opc. next_int 5 (λ k. assert (leb 1 k) (done (with_param (length k) (new "GETGLOB")))))

abbrev pub setglobvar : LoadHandler
setglobvar = create_handler_2 0xf860 "SETGLOBVAR"

abbrev pub setglob : LoadHandler
setglob =
    custom 11 (λ opc. opc * 2 == 0xf86)
      (λ opc. next_int 5 (λ k. assert (leb 1 k) (done (with_param (length k) (new "SETGLOB")))))

abbrev pub hashcu : LoadHandler
hashcu = create_handler_2 0xf900 "HASHCU"
