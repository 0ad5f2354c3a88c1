-- ===== src/Parser/Fragments.antt =====
-- The macro fragments of src/parser.rs: `compat_rename_all_macro_calls` turns the old calls into
-- `.inline` lines, and `resolve_fragments` lists the macros that are used, callees first.
pub mod Calls
pub mod Order
pub mod Termination
pub mod Cycles
pub mod Rename
use tvm_linker.Prelude.{
  ℕ, zero, suc, ◌+◌, Option, none, some, List, [], ◌∷◌, ◌++◌, String, Bool, true, false,
  if◌then◌else◌, ltb, starts_with, str_append, lookup, insert, Dict, length, string_key,
}
use tvm_linker.Outcome.{Error, panic, out_of_fuel, macro_cycle, Result, ok, err, ◌>>=◌}
use tvm_linker.Abi.{is_some}
use tvm_linker.Parser.State.{
  Line, Lines, InternalFunc, Object, ObjectType, function, untyped, object, ParseEngine, func,
}
use tvm_linker.Parser.Externals.{Externals}

-- A loop over the values of a map that writes each of them back.
unfoldable pub map_values : {K V : Type 0} → (V → Result V) → Dict K V → Result (Dict K V)
map_values f [] = ok []
map_values f ((k, v) ∷ m) = do v' ← f v; m' ← map_values f m; ok ((k, v') ∷ m')

module _ (x : Externals) where
  unfoldable pub rename_line : Line → Result Line
  rename_line l =
      if starts_with l.text "CALL $"
      then elim (x.call l.text) [
        | none ↦ err panic
        | some name ↦ ok (record l { text = str_append ".inline __" (str_append name "\n") })
      ]
      else ok l

  unfoldable pub compat_rename_macro_calls : Lines → Result Lines
  compat_rename_macro_calls [] = ok []
  compat_rename_macro_calls (l ∷ lines) = do
    l' ← rename_line l
    lines' ← compat_rename_macro_calls lines
    ok (l' ∷ lines')

  unfoldable pub rename_func : InternalFunc → Result InternalFunc
  rename_func f = compat_rename_macro_calls f.body >>= λ body. ok (record f { body = body })

  unfoldable pub rename_object : Object → Result Object
  rename_object o = elim o.dtype [
    | function f ↦ rename_func f >>= λ f'. ok (record o { dtype = function f' })
    | untyped ↦ ok o
    | object d ↦ ok o
  ]

  unfoldable pub compat_rename_all_macro_calls : ParseEngine → Result ParseEngine
  compat_rename_all_macro_calls e = do
    objects ← map_values rename_object e.globl_name_to_object
    internals ← map_values rename_func e.internal_id_to_code
    macros ← map_values compat_rename_macro_calls e.macro_name_to_lines
    ok (record e {
      globl_name_to_object = objects;
      internal_id_to_code = internals;
      macro_name_to_lines = macros;
    })

-- `visited` and `postorder_fragments`. A name is `false` while its macro is being resolved.
pub record Walk : Type 0 where
  pub visited : Dict String Bool
  pub order : List String

module _ (x : Externals) (macros : Dict String Lines) where
  -- The macro that a line inlines, if it is an `.inline` of one.
  unfoldable pub callee : Line → Result (Option String)
  callee l =
      if starts_with l.text ".inline "
      then elim (x.inline l.text) [
        | none ↦ err panic
        | some name ↦ ok (if is_some (lookup name macros) then some name else none)
      ]
      else ok none

  -- `visited.insert(name, false)`, and what stands behind the recursive call.
  unfoldable pub open_mark : String → Walk → Walk
  open_mark name w = record w { visited = insert name false w.visited }

  unfoldable pub close_mark : String → Walk → Walk
  close_mark name w = record { visited = insert name true w.visited; order = w.order ++ name ∷ [] }

  module _ (visit : String → Walk → Result Walk) where
    unfoldable pub resolve_callee : Option String → Walk → Result Walk
    resolve_callee none w = ok w
    resolve_callee (some name) w = visit name w

    unfoldable pub resolve_fragment_lines : Lines → Walk → Result Walk
    resolve_fragment_lines [] w = ok w
    resolve_fragment_lines (l ∷ lines) w = do
      c ← callee l
      w' ← resolve_callee c w
      resolve_fragment_lines lines w'

  -- The recursion on fuel; see Fragments/Termination for how much is enough.
  unfoldable pub resolve_fragment : ℕ → String → Walk → Result Walk
  resolve_fragment zero name w = err out_of_fuel
  resolve_fragment (suc fuel) name w = elim (lookup name w.visited) [
    | some true ↦ ok w
    | some false ↦ err macro_cycle
    | none ↦ elim (lookup name macros) [
      | none ↦ err panic
      | some lines ↦
          resolve_fragment_lines (resolve_fragment fuel) lines (open_mark name w) >>= λ w'.
          ok (close_mark name w')
    ]
  ]

  unfoldable pub resolve_bodies : ℕ → List Lines → Walk → Result Walk
  resolve_bodies fuel [] w = ok w
  resolve_bodies fuel (body ∷ bodies) w = do
    w' ← resolve_fragment_lines (resolve_fragment fuel) body w
    resolve_bodies fuel bodies w'

-- The bodies that `resolve_fragments` walks: the global functions', then the internal ones'.
unfoldable pub function_bodies : Dict String Object → List Lines
unfolding func
function_bodies [] = []
function_bodies ((name, o) ∷ m) = elim (func o.dtype) [
  | some f ↦ f.body ∷ function_bodies m
  | none ↦ function_bodies m
]

unfoldable pub internal_bodies : {K : Type 0} → Dict K InternalFunc → List Lines
internal_bodies [] = []
internal_bodies ((id, f) ∷ m) = f.body ∷ internal_bodies m

unfoldable pub used_bodies : ParseEngine → List Lines
used_bodies e = function_bodies e.globl_name_to_object ++ internal_bodies e.internal_id_to_code

-- The fuel is one more than the number of macros.
unfoldable pub resolve_fragments : Externals → ParseEngine → Result ParseEngine
resolve_fragments x e =
    let fresh : Walk = record { visited = []; order = e.postorder_fragments } in
    resolve_bodies x e.macro_name_to_lines (suc (length e.macro_name_to_lines)) (used_bodies e)
      fresh
    >>= λ w. ok (record e { postorder_fragments = w.order })
