-- ===== src/Disasm/CodePage.antt =====
-- `Handlers::new_code_page_0` of src/disasm/handlers.rs.
use tvm_linker.Outcome.{Result, ◌>>=◌}
use tvm_linker.Disasm.Handlers.{Handlers, new, set, set_range, add_subset}
use tvm_linker.Disasm.Loader.Stack.{setcp, setcpx}
use tvm_linker.Disasm.Pages.PartStack.{add_code_page_0_part_stack}
use tvm_linker.Disasm.Pages.Tuple.{add_code_page_0_tuple}
use tvm_linker.Disasm.Pages.PartConstant.{add_code_page_0_part_constant}
use tvm_linker.Disasm.Pages.Arithmetic.{add_code_page_0_arithmetic}
use tvm_linker.Disasm.Pages.Comparsion.{add_code_page_0_comparsion}
use tvm_linker.Disasm.Pages.Cell.{add_code_page_0_cell}
use tvm_linker.Disasm.Pages.ControlFlow.{add_code_page_0_control_flow}
use tvm_linker.Disasm.Pages.Exceptions.{add_code_page_0_exceptions}
use tvm_linker.Disasm.Pages.Dictionaries.{add_code_page_0_dictionaries}
use tvm_linker.Disasm.Pages.GasRandConfig.{add_code_page_0_gas_rand_config}
use tvm_linker.Disasm.Pages.Blockchain.{add_code_page_0_blockchain}
use tvm_linker.Disasm.Pages.Crypto.{add_code_page_0_crypto}
use tvm_linker.Disasm.Pages.Debug.{add_code_page_0_debug}

abbrev pub new_code_page_0_ff : Result Handlers
new_code_page_0_ff =
    set_range 0x00 0xF0 setcp new
    >>= set 0xF0 setcpx
    >>= set_range 0xF1 0xFF setcp
    >>= set 0xFF setcp

unfoldable pub new_code_page_0 : Result Handlers
unfolding new set set_range add_subset add_code_page_0_part_stack add_code_page_0_tuple
    add_code_page_0_part_constant add_code_page_0_arithmetic add_code_page_0_comparsion
    add_code_page_0_cell add_code_page_0_control_flow add_code_page_0_exceptions
    add_code_page_0_dictionaries add_code_page_0_gas_rand_config add_code_page_0_blockchain
    add_code_page_0_crypto add_code_page_0_debug
new_code_page_0 =
    add_code_page_0_part_stack new
    >>= add_code_page_0_tuple
    >>= add_code_page_0_part_constant
    >>= add_code_page_0_arithmetic
    >>= add_code_page_0_comparsion
    >>= add_code_page_0_cell
    >>= add_code_page_0_control_flow
    >>= add_code_page_0_exceptions
    >>= add_code_page_0_dictionaries
    >>= add_code_page_0_gas_rand_config
    >>= add_code_page_0_blockchain
    >>= add_code_page_0_crypto
    >>= add_code_page_0_debug
    >>= add_subset 0xFF new_code_page_0_ff
