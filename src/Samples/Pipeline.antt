-- ===== src/Samples/Pipeline.antt =====
-- `ParseEngine::new_generic` of src/parser.rs on one small file.
use tvm_linker.Prelude.{
  ◌∷◌, [], none, ◌≡◌, refl, lookup, insert, adjust, retain, contains, include, string_key, int_key,
  starts_with,
}
use tvm_linker.Outcome.{Result, ok, err}
use tvm_linker.Abi.{declares, gen_abi_id, calc_func_id, first_be_u32, is_some}
use tvm_linker.Parser.State.{
  ParseEngine, blank_engine, preinit, predefined, ptr_add, type_of, new_object, func, data_of,
}
use tvm_linker.Parser.Section.{
  update, update_internal, update_globl, update_function, publish_if_declared, set_func,
  create_function_id,
}
use tvm_linker.Parser.Code.{
  obey, close, declare, begin_globl, on_object, parse_line, parse_lines, clean, finish, parse_code,
  keep, alias, expect, unwrap, start, position, is_no_section, update_predefined,
}
use tvm_linker.Parser.Directives.{directive}
use tvm_linker.Parser.Fragments.{
  map_values, rename_line, rename_func, rename_object, compat_rename_macro_calls,
  compat_rename_all_macro_calls, resolve_bodies, resolve_fragment_lines, resolve_callee, callee,
  used_bodies, function_bodies, internal_bodies, resolve_fragments,
}
use tvm_linker.Parser.Labels.{
  put_globl, put_internal, set_object_body, set_body, for_each, keys, replace_labels_in_body,
  replace_labels_in_line, replace_labels, or_else, settle, try_ids, try_addresses,
  replace_globl_labels, replace_internal_labels, replace_all_labels,
}
use tvm_linker.Resolver.{resolve_name, has_dollar, split_comment}
use tvm_linker.Parser.Unused.{
  drop_unused_objects, used_ids, retain_used, roots, public_funcs, internal_funcs, enum_roots,
  enum_calling_funcs, enum_called, keeps,
}
use tvm_linker.Parser.Pipeline.{set_abi, parse_inputs, dropped, drop_unused, parse, new_generic}
use tvm_linker.Parser.Pipeline.Consistent.{IsParsed, new_generic-IsParsed}
use tvm_linker.Samples.Inputs.{captures}
use tvm_linker.Samples.Files.{file}

abbrev value : Result ParseEngine → ParseEngine
value (err why) = blank_engine
value (ok e) = e

unfoldable parsed : ParseEngine
parsed = value (new_generic captures 1 (("a.code", file) ∷ []) none)

file-parsed : new_generic captures 1 (("a.code", file) ∷ []) none ≡ ok parsed
unfolding new_generic parse set_abi parse_inputs drop_unused dropped parse_code parse_lines
    parse_line clean directive obey keep begin_globl on_object unwrap expect alias declare
    new_object type_of position start finish is_no_section close update update_internal update_globl
    update_function publish_if_declared set_func create_function_id declares is_some gen_abi_id
    calc_func_id first_be_u32 lookup insert adjust retain contains include blank_engine ptr_add
    starts_with preinit predefined update_predefined map_values rename_line rename_func
    rename_object compat_rename_macro_calls compat_rename_all_macro_calls resolve_bodies
    resolve_fragment_lines resolve_callee callee used_bodies function_bodies internal_bodies
    resolve_fragments put_globl put_internal set_object_body set_body for_each keys
    replace_labels_in_body replace_labels_in_line replace_labels or_else settle try_ids
    try_addresses replace_globl_labels replace_internal_labels replace_all_labels resolve_name
    has_dollar split_comment drop_unused_objects used_ids retain_used roots public_funcs
    internal_funcs enum_roots enum_calling_funcs enum_called keeps func data_of parsed
file-parsed = refl

new_generic-IsParsed_example : IsParsed parsed
new_generic-IsParsed_example =
    new_generic-IsParsed captures 1 (("a.code", file) ∷ []) none parsed file-parsed
