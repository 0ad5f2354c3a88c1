-- ===== src/Disasm/Types.antt =====
-- The data of src/disasm/types.rs: instructions with their parameters, and code.
use tvm_linker.Prelude.{ℕ, List, String, Bool, true, false, Option, none, some, ℤ}
use tvm_linker.Parser.Cell.{Cell}

-- What is left of a `SliceData`: bits and references.
pub record Slice : Type 0 where
  pub data_bits : List Bool
  pub references : List Cell

mutual
  pub data Instruction : Type 0 where
    instruction :
        (name : String) (params : Params) (quiet : Bool) (comment : Option String)
        (bytecode : Option Slice) (refs : ℕ)
        → Instruction

  pub data Params : Type 0 where
    no_params : Params
    more_params : Parameter → Params → Params

  -- `BigInteger` by the arguments of `BigInt::new`: whether the sign is minus, and the digits.
  pub data Parameter : Type 0 where
    big_integer : Bool → List ℕ → Parameter
    control_register : ℕ → Parameter
    integer : ℤ → Parameter
    length : ℕ → Parameter
    length_and_index : ℕ → ℕ → Parameter
    nargs : ℤ → Parameter
    pargs : ℕ → Parameter
    rargs : ℕ → Parameter
    slice : Slice → Parameter
    stack_register : ℤ → Parameter
    stack_register_pair : ℤ → ℤ → Parameter
    stack_register_triple : ℤ → ℤ → ℤ → Parameter
    code : Code → Option Cell → Parameter
    cell : Option Cell → Bool → Parameter
    code_dict_marker : Parameter

  pub data Code : Type 0 where
    no_code : Code
    more_code : Instruction → Code → Code

unfoldable pub new : String → Instruction
new name = instruction name no_params false none none 0

unfoldable pub push_param : Parameter → Params → Params
push_param p no_params = more_params p no_params
push_param p (more_params q params) = more_params q (push_param p params)

unfoldable pub with_param : Parameter → Instruction → Instruction
unfolding push_param
with_param p (instruction name params quiet comment bytecode refs) =
    instruction name (push_param p params) quiet comment bytecode refs

unfoldable pub with_refs : ℕ → Instruction → Instruction
with_refs n (instruction name params quiet comment bytecode refs) =
    instruction name params quiet comment bytecode n

unfoldable pub set_quiet : Instruction → Instruction
set_quiet (instruction name params quiet comment bytecode refs) =
    instruction name params true comment bytecode refs

unfoldable pub set_comment : String → Instruction → Instruction
set_comment text (instruction name params quiet comment bytecode refs) =
    instruction name params quiet (some text) bytecode refs

unfoldable pub set_bytecode : Slice → Instruction → Instruction
set_bytecode s (instruction name params quiet comment bytecode refs) =
    instruction name params quiet comment (some s) refs

unfoldable pub bytecode_of : Instruction → Option Slice
bytecode_of (instruction name _ quiet comment bytecode refs) = bytecode

unfoldable pub refs_of : Instruction → ℕ
refs_of (instruction name _ quiet comment bytecode refs) = refs

unfoldable pub single : Instruction → Code
single i = more_code i no_code

unfoldable pub append : Code → Code → Code
append no_code other = other
append (more_code i rest) other = more_code i (append rest other)
