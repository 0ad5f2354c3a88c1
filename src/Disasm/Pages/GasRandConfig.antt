-- ===== src/Disasm/Pages/GasRandConfig.antt =====
-- src/disasm/handlers.rs: `add_code_page_0_gas_rand_config`.
use tvm_linker.Outcome.{Result, ◌>>=◌}
use tvm_linker.Disasm.Handlers.{Handlers, new, set, set_range, add_subset}
use tvm_linker.Disasm.Loader.Config.{
  accept, addrand, balance, blocklt, buygas, commit, config_dict, config_opt_param,
  config_ref_param, config_root, gastogram, getglob, getglobvar, getparam, gramtogas, ltime,
  my_addr, my_code, now, rand, randseed, randu256, setgaslimit, setglob, setglobvar, setrand,
}

abbrev pub gas_rand_config_f8 : Result Handlers
gas_rand_config_f8 =
    set 0x00 accept new
    >>= set 0x01 setgaslimit
    >>= set 0x02 buygas
    >>= set 0x04 gramtogas
    >>= set 0x05 gastogram
    >>= set 0x0F commit
    >>= set 0x10 randu256
    >>= set 0x11 rand
    >>= set 0x14 setrand
    >>= set 0x15 addrand
    >>= set 0x20 getparam
    >>= set 0x21 getparam
    >>= set 0x22 getparam
    >>= set 0x23 now
    >>= set 0x24 blocklt
    >>= set 0x25 ltime
    >>= set 0x26 randseed
    >>= set 0x27 balance
    >>= set 0x28 my_addr
    >>= set 0x29 config_root
    >>= set 0x2a my_code
    >>= set 0x30 config_dict
    >>= set 0x32 config_ref_param
    >>= set 0x33 config_opt_param
    >>= set 0x40 getglobvar
    >>= set_range 0x41 0x5F getglob
    >>= set 0x5F getglob
    >>= set 0x60 setglobvar
    >>= set_range 0x61 0x7F setglob
    >>= set 0x7F setglob

unfoldable pub add_code_page_0_gas_rand_config : Handlers → Result Handlers
add_code_page_0_gas_rand_config table = add_subset 0xF8 gas_rand_config_f8 table
