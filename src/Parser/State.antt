-- ===== src/Parser/State.antt =====
-- The data of src/parser.rs: lines, functions, data objects and the `ParseEngine`.
use tvm_linker.Prelude.{
  ℕ, ◌+◌, ◌^◌, ◌%◌, Option, none, some, List, [], ◌∷◌, String, Bool, true, false, ℤ, Dict, insert,
  if◌then◌else◌, nat_key, string_key, int_key,
}
use tvm_linker.Abi.{Contract}

-- `DbgPos`, `Line` and `Lines` of the assembler.
pub record DbgPos : Type 0 where
  pub filename : String
  pub line : ℕ
  pub line_code : ℕ

pub record Line : Type 0 where
  pub text : String
  pub pos : DbgPos

abbrev pub Lines : Type 0
Lines = List Line

-- `Ptr` is an i64: its bit pattern, and an addition that wraps.
abbrev pub Ptr : Type 0
Ptr = ℕ

unfoldable pub ptr_add : Ptr → ℕ → Ptr
ptr_add p n = (p + n) % 2 ^ 64

abbrev pub word_size : ℕ
word_size = 1

abbrev pub offset_globl_data : ℕ
offset_globl_data = 8

abbrev pub offset_pers_data : ℕ
offset_pers_data = 16

pub record InternalFunc : Type 0 where
  pub id : ℕ
  pub body : Lines
  pub called_ids : List ℕ

abbrev pub new_func : InternalFunc
new_func = record { id = 0; body = []; called_ids = [] }

pub data DataValue : Type 0 where
  empty : DataValue
  number : ℤ → ℕ → DataValue

unfoldable pub size : DataValue → ℕ
size empty = word_size
size (number integer words) = words

pub record Data : Type 0 where
  pub addr : Ptr
  pub values : List DataValue
  pub persistent : Bool

pub data ObjectType : Type 0 where
  untyped : ObjectType
  function : InternalFunc → ObjectType
  object : Data → ObjectType

-- `GloblFuncOrDataType::from`
unfoldable pub type_of : String → ObjectType
type_of stype =
    if string_key.beq stype "function"
    then function new_func
    else if string_key.beq stype "object"
    then object (record { addr = 0; values = []; persistent = false })
    else untyped

unfoldable pub func : ObjectType → Option InternalFunc
func (function f) = some f
func (untyped) = none
func (object d) = none

unfoldable pub data_of : ObjectType → Option Data
data_of (object d) = some d
data_of untyped = none
data_of (function f) = none

-- `GloblFuncOrData`
pub record Object : Type 0 where
  pub name : String
  pub size : ℕ
  pub public : Bool
  pub dtype : ObjectType

unfoldable pub new_object : String → String → Object
unfolding type_of
new_object name stype = record { name = name; size = 0; public = false; dtype = type_of stype }

pub data SelectorVariant : Type 0 where
  default update_func update_old_sol : SelectorVariant

pub record ParseEngine : Type 0 where
  pub internal_name_to_id : Dict String ℤ
  pub internal_id_to_code : Dict ℤ InternalFunc
  pub internal_alias_name_to_id : Dict String ℤ
  pub globl_name_to_id : Dict String ℕ
  pub globl_name_to_object : Dict String Object
  pub macro_name_to_lines : Dict String Lines
  pub postorder_fragments : List String
  pub entry_point : Lines
  pub func_upgrade : SelectorVariant
  pub save_all_private_functions : Bool
  pub version : Option String
  pub globl_base : Ptr
  pub globl_ptr : Ptr
  pub persistent_base : Ptr
  pub persistent_ptr : Ptr
  pub abi : Option Contract
  pub computed : Dict String Lines

-- The record that `new_generic` builds before it parses.
unfoldable pub blank_engine : ParseEngine
blank_engine = record {
  internal_name_to_id = [];
  internal_id_to_code = [];
  internal_alias_name_to_id = [];
  globl_name_to_id = [];
  globl_name_to_object = [];
  macro_name_to_lines = [];
  postorder_fragments = [];
  entry_point = [];
  func_upgrade = default;
  save_all_private_functions = false;
  version = none;
  globl_base = 0;
  globl_ptr = 0;
  persistent_base = 0;
  persistent_ptr = 0;
  abi = none;
  computed = [];
}

abbrev pub pubkey_name : String
pubkey_name = "tvm_public_key"

abbrev pub sci_name : String
sci_name = "tvm_contract_info"

unfoldable pub predefined : String → Bool → Object
predefined name persistent = record {
  name = name;
  size = 0;
  public = false;
  dtype = object (record { addr = 0; values = empty ∷ []; persistent = persistent });
}

unfoldable pub preinit : ParseEngine → ParseEngine
unfolding predefined
preinit e = record e {
  globl_name_to_object =
      insert sci_name (predefined sci_name false)
        (insert pubkey_name (predefined pubkey_name true) e.globl_name_to_object);
}
