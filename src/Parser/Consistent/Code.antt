-- ===== src/Parser/Consistent/Code.antt =====
-- The consistency of the tables along the lines that `parse_code` of src/parser.rs reads.
use tvm_linker.Prelude.{
  ◌^◌, Option, none, some, List, [], ◌∷◌, String, lookup, insert, string_key, ◌≡◌, refl, subst, inl,
  inr, Option-cases, codes, parse_unsigned, parse_signed,
}
use tvm_linker.Outcome.{
  bad_alias_id, no_definitions, Result, ok, err, Holds, Holds-bind, Holds-any, Holds-if,
}
use tvm_linker.Parser.State.{Object, ParseEngine, new_object, sci_name, pubkey_name}
use tvm_linker.Parser.Externals.{Externals}
use tvm_linker.Parser.Section.{publish}
use tvm_linker.Parser.Code.{
  Cursor, State, unwrap, expect, on_object, declare, set_pragma, update_predefined, is_data,
  is_no_section, located, close, keep, begin_globl, sized, alias, obey, parse_line, parse_lines,
  finish, parse_code,
}
use tvm_linker.Parser.Directives.{
  Directive, ignored, version, pragma, global_base, persistent_base, type_mark, size_mark,
  public_mark, globl_mark, macro_mark, data_mark, selector_mark, alias_mark, internal_mark, label,
  loc, plain,
}
use tvm_linker.Parser.Consistent.{
  IsConsistent, Extends, Extends-IsConsistent, Knows-insert, Knows-adjust,
}
use tvm_linker.Parser.Consistent.Section.{update-keeps}

on_object-Extends :
    (name : String) (f : Object → Object) (e : ParseEngine) → Extends e (on_object name f e)
unfolding on_object
on_object-Extends name f e = record {
  names = refl;
  code = refl;
  ids = refl;
  objects = λ n. Knows-adjust name n f e.globl_name_to_object;
}

declare-Extends : (name stype : String) (e : ParseEngine) → Extends e (declare name stype e)
unfolding declare
declare-Extends name stype e = elim (Option-cases (lookup name e.globl_name_to_object)) [
  | inr (o, old) ↦
      rw (old, declare) (record { names = refl; code = refl; ids = refl; objects = λ n h. h })
  | inl new ↦
      rw (new, declare)
        (record {
          names = refl;
          code = refl;
          ids = refl;
          objects = λ n. Knows-insert name n (new_object name stype) e.globl_name_to_object;
        })
]

set_pragma-keeps :
    (p : String) (e : ParseEngine) → IsConsistent e → Holds IsConsistent (set_pragma p e)
unfolding set_pragma
set_pragma-keeps p e c =
    Holds-if IsConsistent (string_key.beq p "selector-func-solidity") _ _
      (record { coded = c.coded; once = c.once; known = c.known })
      (Holds-if IsConsistent (string_key.beq p "selector-old-sol") _ _
        (record { coded = c.coded; once = c.once; known = c.known })
        (Holds-if IsConsistent (string_key.beq p "save-all-private-functions") _ _
          (record { coded = c.coded; once = c.once; known = c.known }) tt))

update_predefined-keeps :
    (e : ParseEngine) → IsConsistent e → Holds IsConsistent (update_predefined e)
unfolding update_predefined
update_predefined-keeps e c =
    Holds-if IsConsistent (is_data (lookup sci_name e.globl_name_to_object)) _ _
      (Holds-if IsConsistent (is_data (lookup pubkey_name e.globl_name_to_object)) _ _
        (record {
          coded = c.coded;
          once = c.once;
          known = λ n id h.
              Knows-adjust pubkey_name n _ _ (Knows-adjust sci_name n _ _ (c.known n id h));
        })
        tt)
      tt

-- The engine of a state.
abbrev pub IsConsistentState : State → Type 0
IsConsistentState (c, e) = IsConsistent e

keep-keeps :
    (x : Externals) (filename : String) (c : Cursor) (r : Result ParseEngine)
    → Holds IsConsistent r
    → Holds IsConsistentState (keep x filename c r)
unfolding keep
keep-keeps x filename c r h = Holds-bind IsConsistent IsConsistentState r _ h (λ e k. k)

module _ (x : Externals) (filename : String) where
  close-keeps :
      (c : Cursor) (e : ParseEngine) → IsConsistent e → Holds IsConsistent (close x filename c e)
  unfolding close
  close-keeps c e k = update-keeps x c.section c.obj_name c.obj_body e k

  begin_globl-Extends :
      (c : Cursor) (e : ParseEngine) (cap : String × String)
      → IsConsistent e
      → IsConsistent (begin_globl x filename c e cap)
  unfolding begin_globl
  begin_globl-Extends c e (name, stype) k =
      Extends-IsConsistent (on_object-Extends name _ _)
        (Extends-IsConsistent (declare-Extends name stype e) k)

  sized-Extends :
      (e : ParseEngine) (cap : String × String)
      → IsConsistent e
      → IsConsistent (sized x filename e cap)
  unfolding sized
  sized-Extends e (name, text) k =
      Extends-IsConsistent (on_object-Extends name _ _)
        (Extends-IsConsistent (declare-Extends name "" e) k)

  alias-keeps :
      (e : ParseEngine) (cap : String × String)
      → IsConsistent e
      → Holds IsConsistent (alias x filename e cap)
  unfolding alias
  alias-keeps e (name, text) k =
      Holds-any IsConsistent (expect bad_alias_id (parse_signed (2 ^ 31) (codes text)))
        (λ id.
          ok (record e { internal_alias_name_to_id = insert name id e.internal_alias_name_to_id }))
        (λ id. record { coded = k.coded; once = k.once; known = k.known })

  obey-keeps :
      (d : Directive) (l : String) (c : Cursor) (e : ParseEngine)
      → IsConsistent e
      → Holds IsConsistentState (obey x filename d l c e)
  unfolding obey
  obey-keeps ignored l c e k = k
  obey-keeps version l c e k =
      Holds-any IsConsistentState (unwrap (x.version l)) _
        (λ v. record { coded = k.coded; once = k.once; known = k.known })
  obey-keeps pragma l c e k =
      Holds-any IsConsistentState (unwrap (x.pragma l)) _
        (λ p. keep-keeps x filename c _ (set_pragma-keeps p e k))
  obey-keeps global_base l c e k = Holds-any IsConsistentState (unwrap (x.global_base l)) _ λ text.
      Holds-any IsConsistentState (expect _ _) _ λ base.
        keep-keeps x filename c _
          (update_predefined-keeps _ (record { coded = k.coded; once = k.once; known = k.known }))
  obey-keeps persistent_base l c e k =
      Holds-any IsConsistentState (unwrap (x.persistent_base l)) _ λ text.
        Holds-any IsConsistentState (expect _ _) _ λ base.
          keep-keeps x filename c _
            (update_predefined-keeps _ (record { coded = k.coded; once = k.once; known = k.known }))
  obey-keeps type_mark l c e k =
      Holds-bind IsConsistent IsConsistentState (close x filename c e) _ (close-keeps c e k)
        λ e' k'.
          Holds-any IsConsistentState (unwrap (x.type l)) _ λ cap. begin_globl-Extends c e' cap k'
  obey-keeps size_mark l c e k =
      Holds-any IsConsistentState (unwrap (x.size l)) _ λ cap. sized-Extends e cap k
  obey-keeps public_mark l c e k =
      Holds-any IsConsistentState (unwrap (x.public l)) _
        λ name. Extends-IsConsistent (on_object-Extends name publish e) k
  obey-keeps globl_mark l c e k =
      Holds-any IsConsistentState (unwrap (x.globl l)) _
        λ name. Extends-IsConsistent (declare-Extends name "" e) k
  obey-keeps macro_mark l c e k =
      Holds-bind IsConsistent IsConsistentState (close x filename c e) _ (close-keeps c e k)
        λ e' k'. Holds-any IsConsistentState (unwrap (x.macro l)) _ λ name. k'
  obey-keeps data_mark l c e k = k
  obey-keeps selector_mark l c e k =
      Holds-bind IsConsistent IsConsistentState (close x filename c e) _ (close-keeps c e k)
        (λ e' k'. k')
  obey-keeps alias_mark l c e k =
      Holds-any IsConsistentState (unwrap (x.alias l)) _
        λ cap. keep-keeps x filename c _ (alias-keeps e cap k)
  obey-keeps internal_mark l c e k =
      Holds-bind IsConsistent IsConsistentState (close x filename c e) _ (close-keeps c e k)
        λ e' k'. Holds-any IsConsistentState (unwrap (x.internal l)) _ λ name. k'
  obey-keeps label l c e k = k
  obey-keeps loc l c e k = Holds-any IsConsistentState (unwrap (x.loc l)) _ λ cap.
      Holds-any IsConsistentState (unwrap (parse_unsigned (2 ^ 64) (codes cap.1)))
        (λ line. ok (record c { source_pos = located cap.0 line c.lnum }, e)) λ line. k
  obey-keeps plain l c e k = k

  parse_lines-keeps :
      (input : List (Option String)) (s : State)
      → IsConsistentState s
      → Holds IsConsistentState (parse_lines x filename input s)
  unfolding parse_lines parse_line
  parse_lines-keeps [] (c, e) k = k
  parse_lines-keeps (none ∷ rest) (c, e) k = tt
  parse_lines-keeps (some raw ∷ rest) (c, e) k =
      Holds-bind IsConsistentState IsConsistentState (parse_line x filename (some raw) (c, e)) _
        (obey-keeps _ _ _ e k) (λ s h. parse_lines-keeps rest s h)

  finish-keeps : (s : State) → IsConsistentState s → Holds IsConsistent (finish x filename s)
  unfolding finish
  finish-keeps (c, e) k =
      Holds-if IsConsistent (is_no_section c.section) (err no_definitions) _ tt (close-keeps c e k)

-- One input file keeps the tables consistent, if it is read without an error: each internal name
-- has code under an id that no other name has, and each name of a global function has an object.
pub parse_code-IsConsistent :
    (x : Externals) (filename : String) (input : List (Option String)) (e e' : ParseEngine)
    → IsConsistent e
    → parse_code x filename input e ≡ ok e'
    → IsConsistent e'
unfolding parse_code
parse_code-IsConsistent x filename input e e' k h = subst (Holds IsConsistent) h (
    Holds-bind IsConsistentState IsConsistent (parse_lines x filename input _) _
      (parse_lines-keeps x filename input _
        (record { coded = k.coded; once = k.once; known = k.known }))
      (finish-keeps x filename))
