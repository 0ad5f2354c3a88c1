-- ===== src/Parser/Directives.antt =====
-- The tests that `parse_code` of src/parser.rs makes on a line, in their order.
use tvm_linker.Prelude.{String, ◌||◌, if◌then◌else◌, starts_with}
use tvm_linker.Parser.Externals.{Externals}

-- What one line is, by the tests of the loop in their order.
pub data Directive : Type 0 where
  ignored version pragma global_base persistent_base type_mark size_mark public_mark globl_mark :
      Directive
  macro_mark data_mark selector_mark alias_mark internal_mark label loc plain : Directive

module _ (x : Externals) where
  unfoldable pub directive : String → Directive
  unfolding starts_with
  directive l =
      if starts_with l ".p2align"
        || starts_with l ".align"
        || starts_with l ".text"
        || starts_with l ".file"
        || starts_with l ".ident"
        || starts_with l ".section"
      then ignored
      else if starts_with l ".version"
      then version
      else if starts_with l ".pragma"
      then pragma
      else if starts_with l ".global-base"
      then global_base
      else if starts_with l ".persistent-base"
      then persistent_base
      else if starts_with l ".type"
      then type_mark
      else if starts_with l ".size"
      then size_mark
      else if starts_with l ".public"
      then public_mark
      else if starts_with l ".globl"
      then globl_mark
      else if starts_with l ".macro"
      then macro_mark
      else if starts_with l ".data"
      then data_mark
      else if starts_with l ".selector"
      then selector_mark
      else if starts_with l ".internal-alias"
      then alias_mark
      else if starts_with l ".internal"
      then internal_mark
      else if x.label l
      then label
      else if starts_with l ".loc"
      then loc
      else plain
