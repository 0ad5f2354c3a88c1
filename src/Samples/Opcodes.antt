-- ===== src/Samples/Opcodes.antt =====
-- Lookups in code page 0 of src/disasm/handlers.rs.
use tvm_linker.Prelude.{not, ◌∷◌, [], ◌≡◌, refl, false, arith}
use tvm_linker.Outcome.{ok}
use tvm_linker.Disasm.Handler.{LoadHandler, is_unknown, accepts}
use tvm_linker.Disasm.Opcodes.{load_handler, is_broken}
use tvm_linker.Disasm.Opcodes.Page.{load_handler_total, load_handler-accepts}
use tvm_linker.Disasm.Handlers.{
  get_handler, is_free, entry, replace, put_subset, subset_at, add_subset, count, new, push_subset,
  set, set_range, unknowns,
}
use tvm_linker.Disasm.Loader.Tuple.{tuple_index3}
use tvm_linker.Disasm.CodePage.{new_code_page_0}
use tvm_linker.Disasm.Pages.PartStack.{add_code_page_0_part_stack}
use tvm_linker.Disasm.Pages.Tuple.{add_code_page_0_tuple}
use tvm_linker.Disasm.Pages.PartConstant.{add_code_page_0_part_constant}
use tvm_linker.Disasm.Pages.Arithmetic.{add_code_page_0_arithmetic}
use tvm_linker.Disasm.Pages.Comparsion.{add_code_page_0_comparsion}
use tvm_linker.Disasm.Pages.Cell.{add_code_page_0_cell}
use tvm_linker.Disasm.Pages.ControlFlow.{add_code_page_0_control_flow}
use tvm_linker.Disasm.Pages.Exceptions.{add_code_page_0_exceptions}
use tvm_linker.Disasm.Pages.Dictionaries.{add_code_page_0_dictionaries}
use tvm_linker.Disasm.Pages.GasRandConfig.{add_code_page_0_gas_rand_config}
use tvm_linker.Disasm.Pages.Blockchain.{add_code_page_0_blockchain}
use tvm_linker.Disasm.Pages.Crypto.{add_code_page_0_crypto}
use tvm_linker.Disasm.Pages.Debug.{add_code_page_0_debug}

load_handler_total_example : (h : LoadHandler) × (load_handler (0xB7 ∷ 0xB6 ∷ 0x0C ∷ []) ≡ ok h)
load_handler_total_example = load_handler_total (0xB7 ∷ 0xB6 ∷ 0x0C ∷ []) (omega arith)

index3-found : load_handler (0x6F ∷ 0xC0 ∷ []) ≡ ok tuple_index3
unfolding load_handler new_code_page_0 get_handler is_free entry is_unknown replace put_subset
    subset_at add_subset count new push_subset set set_range unknowns add_code_page_0_part_stack
    add_code_page_0_tuple add_code_page_0_part_constant add_code_page_0_arithmetic
    add_code_page_0_comparsion add_code_page_0_cell add_code_page_0_control_flow
    add_code_page_0_exceptions add_code_page_0_dictionaries add_code_page_0_gas_rand_config
    add_code_page_0_blockchain add_code_page_0_crypto add_code_page_0_debug
index3-found = refl

index3-known : is_unknown tuple_index3 ≡ false
unfolding is_unknown
index3-known = refl

load_handler-accepts_example : accepts tuple_index3 0x6F 0xC0 ≡ not (is_broken 0x6F 0xC0)
load_handler-accepts_example =
    load_handler-accepts 0x6F 0xC0 [] tuple_index3 index3-found index3-known
