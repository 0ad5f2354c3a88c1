-- ===== src/Abi.antt =====
-- src/abi.rs: function identifiers. The ABI crate and SHA-256 are parameters.
use tvm_linker.Prelude.{
  ℕ, ◌+◌, ◌*◌, Option, none, some, List, ◌∷◌, String, as_bytes, Bool, true, false, ◌||◌,
}

-- What the linker reads of an `abi_json::Contract`: the identifiers of its functions
-- (`get_input_id`) and of its events (`get_function_id`), by name.
pub record Contract : Type 0 where
  pub functions : String → Option ℕ
  pub events : String → Option ℕ

-- `u32::from_be_bytes` of the first four bytes; a shorter slice panics, and a digest is 32 bytes.
unfoldable pub first_be_u32 : List ℕ → ℕ
first_be_u32 (a ∷ b ∷ c ∷ d ∷ _) = ((a * 256 + b) * 256 + c) * 256 + d
first_be_u32 _ = 0

module _ (sha256 : List ℕ → List ℕ) where
  unfoldable pub calc_func_id : String → ℕ
  calc_func_id func_interface = first_be_u32 (sha256 (as_bytes func_interface))

  unfoldable pub gen_abi_id : Option Contract → String → ℕ
  gen_abi_id none func_name = calc_func_id func_name
  gen_abi_id (some contract) func_name = elim (contract.functions func_name) [
    | some id ↦ id
    | none ↦ elim (contract.events func_name) [ some id ↦ id | none ↦ calc_func_id func_name ]
  ]

-- `ParseEngine::is_public` (src/parser.rs) asks only whether the ABI has the name.
unfoldable pub is_some : {A : Type 0} → Option A → Bool
is_some none = false
is_some (some _) = true

unfoldable pub declares : Option Contract → String → Bool
declares none name = false
declares (some contract) name = is_some (contract.functions name) || is_some (contract.events name)
