-- ===== src/Samples/Files.antt =====
-- `parse_code` and `update_data` of src/parser.rs on a small file and a small data object.
use tvm_linker.Prelude.{
  ℕ, ◌∷◌, [], ◌+◌, List, Option, some, String, Bool, lookup, insert, adjust, string_key, int_key,
  nat_key, false, ◌≡◌, ◌↔◌, inl, inr, refl, sym, ap, ◌∙◌, subst, some-eq, pos, negsuc, starts_with,
}
use tvm_linker.Outcome.{ok}
use tvm_linker.Abi.{declares, gen_abi_id, calc_func_id, first_be_u32, is_some}
use tvm_linker.Parser.State.{
  Line, Lines, ParseEngine, blank_engine, number, function, ptr_add, type_of, new_object, func,
}
use tvm_linker.Parser.Values.{Filling, fill, piece, param_piece, take_piece, update_data}
use tvm_linker.Parser.Values.Sizes.{total, update_data-total}
use tvm_linker.Parser.Section.{
  update, update_internal, update_globl, update_function, publish_if_declared, set_func,
  create_function_id,
}
use tvm_linker.Parser.Code.{
  obey, close, declare, begin_globl, on_object, parse_line, parse_lines, clean, finish, parse_code,
  keep, alias, expect, unwrap, start, position, is_no_section,
}
use tvm_linker.Parser.Directives.{directive}
use tvm_linker.Parser.Consistent.{IsConsistent}
use tvm_linker.Parser.Consistent.Code.{parse_code-IsConsistent}
use tvm_linker.Parser.Results.{internal_name, globals}
use tvm_linker.Parser.Results.Names.{IsMap, AreOwnIds, internal_name_iff}
use tvm_linker.Parser.Results.Globals.{Provides, AreOwnFunctions, globals_iff}
use tvm_linker.Samples.Inputs.{captures, line, procedure}

abbrev fields : Lines
fields = line ".byte 7\n" ∷ line ".long 9\n" ∷ []

abbrev filled : Filling
filled = record { item_size = 0; values = number (pos 7) 1 ∷ number (pos 9) 4 ∷ [] }

abbrev declared : Filling
declared = record { item_size = 5; values = [] }

declared-filled : update_data captures fields declared ≡ ok filled
unfolding update_data fill piece param_piece take_piece lookup
declared-filled = refl

update_data-total_example :
    (total filled.values ≡ total declared.values + 5) × (filled.item_size ≡ 0)
update_data-total_example =
    update_data-total captures fields declared filled (λ l m. refl) declared-filled

abbrev pub file : List (Option String)
file =
    some ".globl main\n"
    ∷ some ".type main, @function\n"
    ∷ some "NOP\r\n"
    ∷ some ".internal-alias :fee, -2\n"
    ∷ some ".internal :fee\n"
    ∷ some "DROP"
    ∷ []

blank-IsConsistent : IsConsistent blank_engine
unfolding blank_engine lookup
blank-IsConsistent = record { coded = λ n id h. cc; once = λ n m id h k. cc; known = λ n id h. cc }

abbrev at : String → ℕ → Line
at text n = record { text = text; pos = record { filename = "a.code"; line = n; line_code = n } }

unfoldable opened : ParseEngine
unfolding blank_engine
opened = record blank_engine {
  internal_name_to_id = (":fee", negsuc 1) ∷ [];
  internal_id_to_code = (negsuc 1, procedure 0 [] (at "DROP\n" 6 ∷ [])) ∷ [];
  internal_alias_name_to_id = (":fee", negsuc 1) ∷ [];
  globl_name_to_id = ("main", 7) ∷ [];
  globl_name_to_object =
      (
        "main",
        record {
          name = "main";
          size = 0;
          public = false;
          dtype = function (procedure 7 [] (at "NOP\n" 3 ∷ []));
        },
      )
      ∷ [];
  globl_ptr = 8;
  persistent_ptr = 16;
}

file-opened : parse_code captures "a.code" file blank_engine ≡ ok opened
unfolding parse_code parse_lines parse_line clean directive obey keep begin_globl on_object unwrap
    expect alias declare new_object type_of position start finish is_no_section close update
    update_internal update_globl update_function publish_if_declared set_func create_function_id
    declares is_some gen_abi_id calc_func_id first_be_u32 lookup insert adjust blank_engine ptr_add
    opened starts_with
file-opened = refl

parse_code-IsConsistent_example : IsConsistent opened
parse_code-IsConsistent_example =
    parse_code-IsConsistent captures "a.code" file blank_engine opened blank-IsConsistent
      file-opened

opened-IsMap : IsMap opened.internal_name_to_id
unfolding opened blank_engine lookup
opened-IsMap k v (inl h) = cc h
opened-IsMap k v (inr none_left) = absurd none_left

opened-IsConsistent : IsConsistent opened
opened-IsConsistent =
    parse_code-IsConsistent captures "a.code" file blank_engine opened blank-IsConsistent
      file-opened

opened-AreOwnIds : AreOwnIds opened.internal_name_to_id
opened-AreOwnIds = opened-IsConsistent.once

internal_name_iff_example :
    (internal_name opened (negsuc 1) ≡ some ":fee")
    ↔ (lookup ":fee" opened.internal_name_to_id ≡ some (negsuc 1))
internal_name_iff_example = internal_name_iff opened (negsuc 1) ":fee" opened-IsMap opened-AreOwnIds

abbrev nop : Lines
nop = at "NOP\n" 3 ∷ []

opened-nop : (public : Bool) (id : ℕ) (body : Lines) → Provides opened public id body → nop ≡ body
unfolding opened blank_engine func
opened-nop public id body (name, (o, (inl this, offer))) =
    let its : func o.dtype ≡ some (procedure 7 [] nop) =
      subst (λ q. func q.1.dtype ≡ some (procedure 7 [] nop)) (sym this) refl in
    ap (λ f. f.body) (some-eq (sym its ∙ offer.is_function)) ∙ offer.its_body
opened-nop public id body (name, (o, (inr none_left, offer))) = absurd none_left

opened-AreOwnFunctions : AreOwnFunctions opened
opened-AreOwnFunctions public id body other h k =
    sym (opened-nop public id body h) ∙ opened-nop public id other k

globals_iff_example : (lookup 7 (globals false opened) ≡ some nop) ↔ Provides opened false 7 nop
globals_iff_example = globals_iff false opened 7 nop opened-AreOwnFunctions
