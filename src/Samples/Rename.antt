-- ===== src/Samples/Rename.antt =====
-- `compat_rename_all_macro_calls` of src/parser.rs on a macro with an old call.
use tvm_linker.Prelude.{◌≡◌, refl, ◌∷◌, [], lookup, starts_with}
use tvm_linker.Outcome.{ok}
use tvm_linker.Parser.State.{ParseEngine, blank_engine}
use tvm_linker.Parser.Fragments.{
  map_values, rename_line, compat_rename_macro_calls, rename_func, rename_object,
  compat_rename_all_macro_calls,
}
use tvm_linker.Parser.Fragments.Rename.{IsRenamed, compat_rename_all_macro_calls-IsRenamed}
use tvm_linker.Samples.Inputs.{captures, line}

unfoldable old : ParseEngine
unfolding blank_engine
old = record blank_engine {
  macro_name_to_lines = ("outer", line "CALL $inner$\n" ∷ line "NOP\n" ∷ []) ∷ [];
}

unfoldable renamed : ParseEngine
unfolding blank_engine
renamed = record blank_engine {
  macro_name_to_lines = ("outer", line ".inline __inner\n" ∷ line "NOP\n" ∷ []) ∷ [];
}

old-renamed : compat_rename_all_macro_calls captures old ≡ ok renamed
unfolding old renamed blank_engine lookup starts_with map_values rename_line
    compat_rename_macro_calls rename_func rename_object compat_rename_all_macro_calls
old-renamed = refl

compat_rename_all_macro_calls-IsRenamed_example :
    IsRenamed captures old renamed × (compat_rename_all_macro_calls captures renamed ≡ ok renamed)
compat_rename_all_macro_calls-IsRenamed_example =
    compat_rename_all_macro_calls-IsRenamed captures old renamed old-renamed
