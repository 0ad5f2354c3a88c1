-- ===== src/Parser/Externals.antt =====
-- What src/parser.rs takes from other crates: the captures of its regular expressions on a line
-- (groups 1, 2, ... as texts), the named captures of `NAMES` in src/resolver.rs, integer literals
-- (`IntegerData`), the hash and the contracts of src/abi.rs, `Line::new` of the assembler, and the
-- assembly and run of the code of a `.compute` macro.
use tvm_linker.Prelude.{ℕ, Option, List, String, Bool, ℤ}
use tvm_linker.Abi.{Contract}
use tvm_linker.Parser.State.{Line, Lines}
use tvm_linker.Parser.Cell.{Cell}

-- A match of `NAMES`: where it ends, and its groups, the name with the place where it begins.
pub record NameCapture : Type 0 where
  pub id : Option (ℕ × String)
  pub offset : Option String
  pub len : Option String
  pub fmt : Option String
  pub stop : ℕ

pub record Externals : Type 0 where
  pub version : String → Option String
  pub pragma : String → Option String
  pub global_base : String → Option String
  pub persistent_base : String → Option String
  pub type : String → Option (String × String)
  pub size : String → Option (String × String)
  pub public : String → Option String
  pub globl : String → Option String
  pub macro : String → Option String
  pub internal : String → Option String
  pub alias : String → Option (String × String)
  pub label : String → Bool
  pub loc : String → Option (String × String)
  pub call : String → Option String
  pub inline : String → Option String
  pub compute : String → Option String
  pub comm : String → Option (String × String × String)
  pub asciz : String → Option String
  pub param : String → Option (String × String)
  pub parse_integer : List ℕ → Option ℤ
  pub sha256 : List ℕ → List ℕ
  pub names : String → List NameCapture
  pub new_line : (text filename : String) (line : ℕ) → Line
  pub load_abi : String → Option Contract
  -- The cell on top of the stack, if the lines assemble and run to the exit code 0 with one there.
  pub execute : Lines → Option Cell
