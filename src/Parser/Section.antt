-- ===== src/Parser/Section.antt =====
-- `ParseEngine::update` of src/parser.rs: what the end of a section does to the engine.
use tvm_linker.Prelude.{
  ℕ, none, some, String, true, if◌then◌else◌, ends_with, length, is_empty, lookup, insert, adjust,
  string_key, int_key, ◌*◌,
}
use tvm_linker.Outcome.{
  panic, another_selector, duplicate_function, duplicate_internal, duplicate_macro, no_alias,
  Result, ok, err, ◌>>=◌,
}
use tvm_linker.Abi.{gen_abi_id, declares}
use tvm_linker.Parser.State.{
  Lines, new_func, Data, untyped, function, object, Object, ParseEngine, ptr_add, word_size,
}
use tvm_linker.Parser.Externals.{Externals}
use tvm_linker.Parser.Values.{Filling, update_data}

-- The texts that `section_name` ranges over.
pub data Section : Type 0 where
  no_section globl internal macros selector : Section

-- `do not reset public flag if symbol isn't included in ABI`
unfoldable pub publish : Object → Object
publish o = record o { public = true }

unfoldable pub set_func : ℕ → Lines → Object → Object
set_func id body o = elim o.dtype [
  | function f ↦ record o { dtype = function (record f { id = id; body = body }) }
  | untyped ↦ o
  | object d ↦ o
]

module _ (x : Externals) where
  unfoldable pub update_selector : Lines → ParseEngine → Result ParseEngine
  update_selector body e =
      if is_empty e.entry_point then ok (record e { entry_point = body }) else err another_selector

  -- `create_function_id`, for an object that is there.
  unfoldable pub create_function_id : ParseEngine → Object → String → ℕ
  create_function_id e o name = gen_abi_id x.sha256 (if o.public then e.abi else none) name

  unfoldable pub update_function : String → Lines → Object → ParseEngine → Result ParseEngine
  update_function name body o e =
      let id = create_function_id e o name in
      elim (lookup name e.globl_name_to_id) [
        | some prev ↦ err duplicate_function
        | none ↦ ok (record e {
          globl_name_to_object = adjust name (set_func id body) e.globl_name_to_object;
          globl_name_to_id = insert name id e.globl_name_to_id;
        })
      ]

  -- Where a data object goes: its address, and the next free addresses.
  unfoldable pub place : String → Object → Data → Filling → ParseEngine → ParseEngine
  place name o d s e =
      let offset = length s.values * word_size in
      if ends_with name "_persistent"
      then record e {
        globl_name_to_object =
            insert name
              (record o {
                size = s.item_size;
                dtype =
                    object
                      (record { addr = e.persistent_ptr; values = s.values; persistent = true });
              })
              e.globl_name_to_object;
        persistent_ptr = ptr_add e.persistent_ptr offset;
      }
      else record e {
        globl_name_to_object =
            insert name
              (record o {
                size = s.item_size;
                dtype = object (record d { addr = e.globl_ptr; values = s.values });
              })
              e.globl_name_to_object;
        globl_ptr = ptr_add e.globl_ptr offset;
      }

  unfoldable pub update_object : String → Lines → Object → Data → ParseEngine → Result ParseEngine
  update_object name body o d e = do
    s ← update_data x body (record { item_size = o.size; values = d.values })
    ok (place name o d s e)

  unfoldable pub update_globl : String → Lines → ParseEngine → Result ParseEngine
  update_globl name body e = elim (lookup name e.globl_name_to_object) [
    | none ↦ err panic
    | some o ↦ elim o.dtype [
      | function f ↦ update_function name body o e
      | object d ↦ update_object name body o d e
      | untyped ↦ err panic
    ]
  ]

  -- An ABI name is made public first; `get_mut(name).unwrap()` is the `panic` of `update_globl`.
  unfoldable pub publish_if_declared : String → ParseEngine → ParseEngine
  publish_if_declared name e =
      if declares e.abi name
      then record e { globl_name_to_object = adjust name publish e.globl_name_to_object }
      else e

  unfoldable pub update_internal : String → Lines → ParseEngine → Result ParseEngine
  update_internal name body e = elim (lookup name e.internal_alias_name_to_id) [
    | none ↦ err no_alias
    | some id ↦ elim (lookup id e.internal_id_to_code) [
      | some prev ↦ err duplicate_internal
      | none ↦ ok (record e {
        internal_name_to_id = insert name id e.internal_name_to_id;
        internal_id_to_code = insert id (record new_func { body = body }) e.internal_id_to_code;
      })
    ]
  ]

  unfoldable pub update_macro : String → Lines → ParseEngine → Result ParseEngine
  update_macro name body e = elim (lookup name e.macro_name_to_lines) [
    | some prev ↦ err duplicate_macro
    | none ↦ ok (record e { macro_name_to_lines = insert name body e.macro_name_to_lines })
  ]

  unfoldable pub update : Section → String → Lines → ParseEngine → Result ParseEngine
  update selector name body e = update_selector body e
  update globl name body e = update_globl name body (publish_if_declared name e)
  update internal name body e = update_internal name body e
  update macros name body e = update_macro name body e
  update no_section name body e = ok e
