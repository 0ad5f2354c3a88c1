-- ===== src/Disasm/Opcodes/Page.antt =====
-- Code page 0 of src/disasm/handlers.rs: what a lookup finds, and what its opcode check says.
use tvm_linker.Prelude.{
  ◌≡◌, refl, sym, ap, subst, ◌∙◌, ◌||◌, leb, ℕ, ◌≤◌, List, ◌∷◌, Bool, true, false, not, length, ◌≤◌,
  ◌∷◌,
}
use tvm_linker.Outcome.{Result, ok, err, ◌>>=◌}
use tvm_linker.Disasm.Handler.{LoadHandler, opcode_width, is_unknown, accepts, leading}
use tvm_linker.Disasm.Lookup.{all_from, leaf_or, every, every-get_handler}
use tvm_linker.Disasm.Handlers.{
  Handlers, entry, subset_at, get_handler, is_free, replace, put_subset, add_subset, count, new,
  push_subset, set, set_range, unknowns,
}
use tvm_linker.Disasm.CodePage.{new_code_page_0}
use tvm_linker.Disasm.Pages.PartStack.{add_code_page_0_part_stack}
use tvm_linker.Disasm.Pages.Tuple.{add_code_page_0_tuple}
use tvm_linker.Disasm.Pages.PartConstant.{add_code_page_0_part_constant}
use tvm_linker.Disasm.Pages.Arithmetic.{add_code_page_0_arithmetic}
use tvm_linker.Disasm.Pages.Comparsion.{add_code_page_0_comparsion}
use tvm_linker.Disasm.Pages.Cell.{add_code_page_0_cell}
use tvm_linker.Disasm.Pages.ControlFlow.{add_code_page_0_control_flow}
use tvm_linker.Disasm.Pages.Exceptions.{add_code_page_0_exceptions}
use tvm_linker.Disasm.Pages.Dictionaries.{add_code_page_0_dictionaries}
use tvm_linker.Disasm.Pages.GasRandConfig.{add_code_page_0_gas_rand_config}
use tvm_linker.Disasm.Pages.Blockchain.{add_code_page_0_blockchain}
use tvm_linker.Disasm.Pages.Crypto.{add_code_page_0_crypto}
use tvm_linker.Disasm.Pages.Debug.{add_code_page_0_debug}
use tvm_linker.Disasm.Opcodes.{load_handler, is_broken}
use tvm_linker.Disasm.Opcodes.Fits.{
  agrees, fits, is_prefix, is_narrow, alone, fits_alone, fits_second, fits_page, fits_page-accepts,
}

unfoldable holds_of : (Handlers → Bool) → Result Handlers → Bool
holds_of p (ok table) = p table
holds_of p (err e) = false

page-fits : holds_of fits_page new_code_page_0 ≡ true
unfolding holds_of fits_page new_code_page_0 agrees alone fits fits_second fits_alone accepts
    leading is_broken is_narrow is_prefix every is_free entry is_unknown replace put_subset
    subset_at add_subset count new push_subset set set_range unknowns all_from leaf_or
    add_code_page_0_part_stack add_code_page_0_tuple add_code_page_0_part_constant
    add_code_page_0_arithmetic add_code_page_0_comparsion add_code_page_0_cell
    add_code_page_0_control_flow add_code_page_0_exceptions add_code_page_0_dictionaries
    add_code_page_0_gas_rand_config add_code_page_0_blockchain add_code_page_0_crypto
    add_code_page_0_debug
page-fits = refl

page-every : holds_of (every 3 (λ h. true)) new_code_page_0 ≡ true
unfolding holds_of every new_code_page_0 is_free entry is_unknown replace put_subset subset_at
    add_subset count new push_subset set set_range unknowns all_from leaf_or
    add_code_page_0_part_stack add_code_page_0_tuple add_code_page_0_part_constant
    add_code_page_0_arithmetic add_code_page_0_comparsion add_code_page_0_cell
    add_code_page_0_control_flow add_code_page_0_exceptions add_code_page_0_dictionaries
    add_code_page_0_gas_rand_config add_code_page_0_blockchain add_code_page_0_crypto
    add_code_page_0_debug
page-every = refl

-- A handler that reads some bits for its opcode, unless it is the one for unknown opcodes.
unfoldable pub reads_bits : LoadHandler → Bool
reads_bits h = is_unknown h || leb 1 (opcode_width h)

page-reads : holds_of (every 3 reads_bits) new_code_page_0 ≡ true
unfolding holds_of reads_bits is_unknown opcode_width every new_code_page_0 is_free entry replace
    put_subset subset_at add_subset count new push_subset set set_range unknowns all_from leaf_or
    add_code_page_0_part_stack add_code_page_0_tuple add_code_page_0_part_constant
    add_code_page_0_arithmetic add_code_page_0_comparsion add_code_page_0_cell
    add_code_page_0_control_flow add_code_page_0_exceptions add_code_page_0_dictionaries
    add_code_page_0_gas_rand_config add_code_page_0_blockchain add_code_page_0_crypto
    add_code_page_0_debug
page-reads = refl

holds_of-ok :
    (p : Handlers → Bool) (r : Result Handlers)
    → holds_of p r ≡ true
    → (table : Handlers) × (r ≡ ok table) × (p table ≡ true)
unfolding holds_of
holds_of-ok p (ok table) t = (table, refl, t)
holds_of-ok p (err e) t = cc

pub page-every_reads :
    (table : Handlers) → new_code_page_0 ≡ ok table → every 3 reads_bits table ≡ true
unfolding holds_of
page-every_reads table built = subst (λ r. holds_of (every 3 reads_bits) r ≡ true) built page-reads

-- Code page 0 is built without a code registered twice, and its tables are at most three deep: any
-- three bytes have a handler, which may be the one for unknown opcodes.
pub load_handler_total :
    (bytes : List ℕ) → 3 ≤ length bytes → (h : LoadHandler) × (load_handler bytes ≡ ok h)
unfolding load_handler
load_handler_total bytes long =
    let (table, built, t) = holds_of-ok (every 3 (λ h. true)) new_code_page_0 page-every in
    let (h, found, _) = every-get_handler 3 (λ h. true) table bytes t refl long in
    (h, ap (λ r. r >>= λ x. get_handler x bytes) built ∙ found)

-- A handler that the code page has for a slice beginning with the bytes `b0` and `b1`, other than
-- the one for unknown opcodes, passes its own opcode check on that slice exactly when the opcode
-- is not one of those that `is_broken` lists.
pub load_handler-accepts :
    (b0 b1 : ℕ) (bytes : List ℕ) (h : LoadHandler)
    → load_handler (b0 ∷ b1 ∷ bytes) ≡ ok h
    → is_unknown h ≡ false
    → accepts h b0 b1 ≡ not (is_broken b0 b1)
unfolding load_handler
load_handler-accepts b0 b1 bytes h found known =
    let (table, built, t) = holds_of-ok fits_page new_code_page_0 page-fits in
    let found_in = sym (ap (λ r. r >>= λ x. get_handler x (b0 ∷ b1 ∷ bytes)) built) ∙ found in
    fits_page-accepts b0 b1 bytes table h t found_in known
