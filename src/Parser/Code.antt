-- ===== src/Parser/Code.antt =====
-- `ParseEngine::parse_code` of src/parser.rs: the loop over the lines of one input file.
use tvm_linker.Prelude.{
  ℕ, ◌+◌, ◌^◌, Option, none, some, List, [], ◌∷◌, ◌++◌, String, Bool, true, false, ◌==◌,
  if◌then◌else◌, str_append, codes, parse_unsigned, parse_signed, lookup, insert, adjust,
  string_key,
}
use Prim.Native.Char.{code}
use mathlib.Core.List.{reverse}
use tvm_linker.Outcome.{
  Error, panic, read_failed, no_definitions, unknown_pragma, bad_global_base, bad_persistent_base,
  bad_alias_id, Result, ok, err, ◌>>=◌,
}
use tvm_linker.Parser.State.{
  Lines, DbgPos, Ptr, ptr_add, offset_globl_data, offset_pers_data, object, function, untyped,
  type_of, Object, new_object, update_func, update_old_sol, ParseEngine, pubkey_name, sci_name,
}
use tvm_linker.Parser.Externals.{Externals}
use tvm_linker.Parser.Directives.{
  Directive, directive, ignored, version, pragma, global_base, persistent_base, type_mark,
  size_mark, public_mark, globl_mark, macro_mark, data_mark, selector_mark, alias_mark,
  internal_mark, label, loc, plain,
}
use tvm_linker.Parser.Section.{
  Section, no_section, globl, internal, macros, selector, update, publish,
}

-- `update_predefined`: both objects must still be data.
unfoldable pub set_addr : Ptr → Object → Object
set_addr p o = elim o.dtype [
  | object d ↦ record o { dtype = object (record d { addr = p }) }
  | function f ↦ o
  | untyped ↦ o
]

unfoldable pub is_data : Option Object → Bool
is_data none = false
is_data (some o) = elim o.dtype [ object d ↦ true | function f ↦ false | untyped ↦ false ]

unfoldable pub update_predefined : ParseEngine → Result ParseEngine
unfolding set_addr is_data
update_predefined e =
    if is_data (lookup sci_name e.globl_name_to_object)
    then (if is_data (lookup pubkey_name e.globl_name_to_object)
        then ok (record e {
          globl_name_to_object =
              adjust pubkey_name (set_addr e.persistent_base)
                (adjust sci_name (set_addr e.globl_base) e.globl_name_to_object);
        })
        else err panic)
    else err panic

-- The local variables of the loop.
pub record Cursor : Type 0 where
  pub section : Section
  pub obj_name : String
  pub obj_body : Lines
  pub lnum : ℕ
  pub source_pos : Option DbgPos

unfoldable pub start : Cursor
start = record { section = no_section; obj_name = ""; obj_body = []; lnum = 0; source_pos = none }

-- `entry(name).or_insert_with(..)`
unfoldable pub declare : String → String → ParseEngine → ParseEngine
declare name stype e = elim (lookup name e.globl_name_to_object) [
  | some o ↦ e
  | none ↦ record e {
    globl_name_to_object = insert name (new_object name stype) e.globl_name_to_object;
  }
]

unfoldable pub on_object : String → (Object → Object) → ParseEngine → ParseEngine
on_object name f e = record e { globl_name_to_object = adjust name f e.globl_name_to_object }

unfoldable pub unwrap : {A : Type 0} → Option A → Result A
unwrap none = err panic
unwrap (some a) = ok a

unfoldable pub or_else : {A : Type 0} → A → Option A → A
or_else d none = d
or_else d (some a) = a

unfoldable pub expect : {A : Type 0} → Error → Option A → Result A
expect why none = err why
expect why (some a) = ok a

unfoldable pub set_pragma : String → ParseEngine → Result ParseEngine
set_pragma p e =
    if string_key.beq p "selector-func-solidity"
    then ok (record e { func_upgrade = update_func })
    else if string_key.beq p "selector-old-sol"
    then ok (record e { func_upgrade = update_old_sol })
    else if string_key.beq p "save-all-private-functions"
    then ok (record e { save_all_private_functions = true })
    else err unknown_pragma

unfoldable pub set_globl_base : Ptr → ParseEngine → Result ParseEngine
set_globl_base base e =
    update_predefined (record e { globl_base = base; globl_ptr = ptr_add base offset_globl_data })

unfoldable pub set_persistent_base : Ptr → ParseEngine → Result ParseEngine
set_persistent_base base e =
    update_predefined
      (record e { persistent_base = base; persistent_ptr = ptr_add base offset_pers_data })

-- `.loc`: line 0 gives the positions back to the file itself.
unfoldable pub located : String → ℕ → ℕ → Option DbgPos
located filename line lnum =
    if line == 0 then none else some (record { filename = filename; line = line; line_code = lnum })

unfoldable pub position : String → ℕ → Option DbgPos → DbgPos
position filename lnum none = record { filename = filename; line = lnum; line_code = lnum }
position filename lnum (some pos) = pos

abbrev pub State : Type 0
State = Cursor × ParseEngine

abbrev begin : Section → String → Cursor → Cursor
begin section name c = record c { section = section; obj_name = name; obj_body = [] }

unfoldable pub is_no_section : Section → Bool
is_no_section no_section = true
is_no_section _ = false

module _ (x : Externals) (filename : String) where
  -- `self.update(..)` for the section that ends here.
  unfoldable pub close : Cursor → ParseEngine → Result ParseEngine
  close c e = update x c.section c.obj_name c.obj_body e

  unfoldable pub keep : Cursor → Result ParseEngine → Result State
  keep c r = r >>= λ e. ok (c, e)

  unfoldable pub begin_globl : Cursor → ParseEngine → String × String → ParseEngine
  unfolding on_object
  begin_globl c e (name, stype) =
      on_object name (λ o. record o { dtype = type_of stype }) (declare name stype e)

  unfoldable pub sized : ParseEngine → String × String → ParseEngine
  unfolding on_object or_else
  sized e (name, text) =
      on_object name (λ o. record o { size = or_else 0 (parse_unsigned (2 ^ 64) (codes text)) })
        (declare name "" e)

  unfoldable pub alias : ParseEngine → String × String → Result ParseEngine
  unfolding expect
  alias e (name, text) = do
    id ← expect bad_alias_id (parse_signed (2 ^ 31) (codes text))
    ok (record e { internal_alias_name_to_id = insert name id e.internal_alias_name_to_id })

  -- One round of the loop, on a line that is ended by one line feed and has no carriage return.
  unfoldable pub obey : Directive → String → Cursor → ParseEngine → Result State
  unfolding keep begin_globl sized on_object unwrap expect located position set_globl_base
      set_persistent_base
  obey ignored l c e = ok (c, e)
  obey version l c e = do v ← unwrap (x.version l); ok (c, record e { version = some v })
  obey pragma l c e = do p ← unwrap (x.pragma l); keep c (set_pragma p e)
  obey global_base l c e = do
    text ← unwrap (x.global_base l)
    base ← expect bad_global_base (parse_unsigned (2 ^ 63) (codes text))
    keep c (set_globl_base base e)
  obey persistent_base l c e = do
    text ← unwrap (x.persistent_base l)
    base ← expect bad_persistent_base (parse_unsigned (2 ^ 63) (codes text))
    keep c (set_persistent_base base e)
  obey type_mark l c e = do
    e' ← close c e
    cap ← unwrap (x.type l)
    ok (begin globl cap.0 c, begin_globl c e' cap)
  obey size_mark l c e = do cap ← unwrap (x.size l); ok (c, sized e cap)
  obey public_mark l c e = do name ← unwrap (x.public l); ok (c, on_object name publish e)
  obey globl_mark l c e = do name ← unwrap (x.globl l); ok (c, declare name "" e)
  obey macro_mark l c e = do e' ← close c e; name ← unwrap (x.macro l); ok (begin macros name c, e')
  obey data_mark l c e = ok (c, e)
  obey selector_mark l c e = do e' ← close c e; ok (begin selector "" c, e')
  obey alias_mark l c e = do cap ← unwrap (x.alias l); keep c (alias e cap)
  obey internal_mark l c e = do
    e' ← close c e
    name ← unwrap (x.internal l)
    ok (begin internal name c, e')
  obey label l c e = ok (c, e)
  obey loc l c e = do
    cap ← unwrap (x.loc l)
    line ← unwrap (parse_unsigned (2 ^ 64) (codes cap.1))
    ok (record c { source_pos = located cap.0 line c.lnum }, e)
  obey plain l c e = ok (
    record c {
      obj_body =
          c.obj_body ++ record { text = l; pos = position filename c.lnum c.source_pos } ∷ [];
    },
    e,
  )

  -- `l.replace('\r', "")`, and a line feed at the end.
  without_cr : String → String
  without_cr String.[] = String.[]
  without_cr (String.◌∷◌ c s) =
      let rest = without_cr s in if code c == 13 then rest else String.◌∷◌ c rest

  ends_line : List ℕ → Bool
  ends_line [] = false
  ends_line (c ∷ s) = c == 10

  unfoldable pub clean : String → String
  unfolding without_cr ends_line
  clean l =
      let l' = without_cr l in if ends_line (reverse (codes l')) then l' else str_append l' "\n"

  unfoldable pub parse_line : Option String → State → Result State
  unfolding clean
  parse_line none s = err read_failed
  parse_line (some raw) (c, e) =
      let l = clean raw in obey (directive x l) l (record c { lnum = c.lnum + 1 }) e

  unfoldable pub parse_lines : List (Option String) → State → Result State
  parse_lines [] s = ok s
  parse_lines (raw ∷ rest) s = do s' ← parse_line raw s; parse_lines rest s'

  unfoldable pub finish : State → Result ParseEngine
  unfolding is_no_section
  finish (c, e) = if is_no_section c.section then err no_definitions else close c e

  -- The texts that `read_line` returns up to the end of the file, `none` for a failed read.
  unfoldable pub parse_code : List (Option String) → ParseEngine → Result ParseEngine
  parse_code input e =
      let e' = record e {
        globl_ptr = ptr_add e.globl_base offset_globl_data;
        persistent_ptr = ptr_add e.persistent_base offset_pers_data;
      } in
      parse_lines input (start, e') >>= finish
