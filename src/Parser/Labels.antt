-- ===== src/Parser/Labels.antt =====
-- `replace_all_labels` of src/parser.rs and what it calls: the names in the bodies give way to
-- identifiers and addresses, and each body learns which functions it calls.
pub mod Frame
pub mod Records
pub mod Calls
pub mod Unknown
use tvm_linker.Prelude.{
  ℕ, ◌-◌, ◌^◌, Option, none, some, List, [], ◌∷◌, ◌++◌, String, Bool, true, false, if◌then◌else◌,
  starts_with, lookup, adjust, string_key, int_key, Dict, ℤ, pos, negsuc,
}
use tvm_linker.Outcome.{Error, panic, Result, ok, err, ◌>>=◌}
use tvm_linker.Parser.State.{
  Line, Lines, InternalFunc, Object, ObjectType, function, untyped, object, ParseEngine, data_of,
  func,
}
use tvm_linker.Parser.Externals.{Externals}
use tvm_linker.Parser.Code.{unwrap}
use tvm_linker.Parser.Compute.{WithEngine, compute_cell}
use tvm_linker.Resolver.Format.{i32, u32, i64}
use tvm_linker.Resolver.{resolve_name}

pub data FunctionId : Type 0 where
  name_of : String → FunctionId
  id_of : ℤ → FunctionId

unfoldable pub call : ℕ → InternalFunc → InternalFunc
call to_func f = record f { called_ids = f.called_ids ++ to_func ∷ [] }

unfoldable pub call_object : ℕ → Object → Object
unfolding call
call_object to_func o = elim o.dtype [
  | function f ↦ record o { dtype = function (call to_func f) }
  | untyped ↦ o
  | object d ↦ o
]

unfoldable pub insert_called_func : FunctionId → ℕ → ParseEngine → ParseEngine
unfolding call call_object
insert_called_func (name_of name) to_func e = record e {
  globl_name_to_object = adjust name (call_object to_func) e.globl_name_to_object;
}
insert_called_func (id_of id) to_func e = record e {
  internal_id_to_code = adjust id (call to_func) e.internal_id_to_code;
}

-- The bit pattern of an `i32`.
unfoldable pub pattern_of : ℤ → ℕ
pattern_of (pos n) = n
pattern_of (negsuc n) = 2 ^ 32 - 1 - n

-- The four ways in which `replace_labels` looks a name up.
unfoldable pub get_internal : String → ParseEngine → Option ℕ × ParseEngine
unfolding pattern_of
get_internal name e =
    (elim (lookup name e.internal_name_to_id) [ none ↦ none | some id ↦ some (pattern_of id) ], e)

unfoldable pub get_globl : FunctionId → String → ParseEngine → Option ℕ × ParseEngine
get_globl from_func name e = elim (lookup name e.globl_name_to_id) [
  | none ↦ (none, e)
  | some id ↦ (some id, insert_called_func from_func id e)
]

unfoldable pub get_address : String → ParseEngine → Option ℕ × ParseEngine
unfolding data_of
get_address name e = (
  elim (lookup name e.globl_name_to_object) [
    | none ↦ none
    | some o ↦ elim (data_of o.dtype) [ none ↦ none | some d ↦ some d.addr ]
  ],
  e,
)

unfoldable pub get_base : String → ParseEngine → Option ℕ × ParseEngine
get_base name e = (
  if string_key.beq name "global-base"
      then some e.globl_base
      else (if string_key.beq name "persistent-base" then some e.persistent_base else none),
  e,
)

abbrev pub Try : Type 0
Try = Result Line × ParseEngine

-- `or_else`, which a panic passes by.
unfoldable pub or_else : Try → (ParseEngine → Try) → Try
or_else (ok l, e) next = (ok l, e)
or_else (err panic, e) next = (err panic, e)
or_else (err _, e) next = next e

-- A result with the state that it leaves, which an error gives up.
unfoldable pub settle : {A : Type 0} → Result A × ParseEngine → WithEngine A
settle (ok a, e) = ok (a, e)
settle (err why, e) = err why

module _ (x : Externals) where
  unfoldable pub note_inline : FunctionId → Line → ParseEngine → Try
  note_inline from_func l e = elim (x.inline l.text) [
    | none ↦ (err panic, e)
    | some name ↦ (ok l, (get_globl from_func name e).1)
  ]

  -- The identifiers, then the addresses too.
  unfoldable pub try_ids : FunctionId → Line → ParseEngine → Try
  unfolding or_else
  try_ids from_func l e =
      or_else (resolve_name x i32 get_internal l e) (resolve_name x u32 (get_globl from_func) l)

  unfoldable pub try_addresses : FunctionId → Line → ParseEngine → Try
  unfolding or_else
  try_addresses from_func l e = or_else (try_ids from_func l e) (resolve_name x i64 get_address l)

  unfoldable pub replace_labels : FunctionId → Line → ParseEngine → Try
  unfolding or_else note_inline
  replace_labels from_func l e =
      if starts_with l.text ".inline"
      then note_inline from_func l e
      else or_else (try_addresses from_func l e) (resolve_name x i64 get_base l)

  unfoldable pub replace_labels_in_line : ℕ → FunctionId → Line → ParseEngine → WithEngine Lines
  unfolding settle
  replace_labels_in_line fuel from_func l e =
      if starts_with l.text ".compute"
      then (unwrap (x.compute l.text) >>= λ name. compute_cell x fuel name e)
      else (settle (replace_labels from_func l e) >>= λ (l', e'). ok (l' ∷ [], e'))

  unfoldable pub replace_labels_in_body : ℕ → FunctionId → Lines → ParseEngine → WithEngine Lines
  replace_labels_in_body fuel from_func [] e = ok ([], e)
  replace_labels_in_body fuel from_func (l ∷ lines) e = do
    (resolved, e') ← replace_labels_in_line fuel from_func l e
    (new_lines, e'') ← replace_labels_in_body fuel from_func lines e'
    ok (resolved ++ new_lines, e'')

-- Where a body goes back to.
unfoldable pub set_body : Lines → InternalFunc → InternalFunc
set_body lines f = record f { body = lines }

unfoldable pub set_object_body : Lines → Object → Object
unfolding set_body
set_object_body lines o = elim o.dtype [
  | function f ↦ record o { dtype = function (set_body lines f) }
  | untyped ↦ o
  | object d ↦ o
]

unfoldable pub put_globl : String → Lines → ParseEngine → ParseEngine
unfolding set_object_body
put_globl name lines e = record e {
  globl_name_to_object = adjust name (set_object_body lines) e.globl_name_to_object;
}

unfoldable pub put_internal : ℤ → Lines → ParseEngine → ParseEngine
unfolding set_body
put_internal id lines e = record e {
  internal_id_to_code = adjust id (set_body lines) e.internal_id_to_code;
}

unfoldable pub put_macro : String → Lines → ParseEngine → ParseEngine
put_macro name lines e = record e {
  macro_name_to_lines = adjust name (λ old. lines) e.macro_name_to_lines;
}

-- A loop over keys that were copied before it starts.
unfoldable pub for_each :
    {K : Type 0}
    → (K → ParseEngine → Result ParseEngine)
    → List K
    → ParseEngine
    → Result ParseEngine
for_each step [] e = ok e
for_each step (k ∷ ks) e = do e' ← step k e; for_each step ks e'

unfoldable pub keys : {K V : Type 0} → Dict K V → List K
keys [] = []
keys ((k, v) ∷ m) = k ∷ keys m

module _ (x : Externals) (fuel : ℕ) where
  unfoldable pub replace_globl_labels : String → ParseEngine → Result ParseEngine
  unfolding func put_globl
  replace_globl_labels name e = elim (lookup name e.globl_name_to_object) [
    | none ↦ err panic
    | some o ↦ elim (func o.dtype) [
      | none ↦ ok e
      | some f ↦ replace_labels_in_body x fuel (name_of o.name) f.body e >>= λ (lines, e').
          ok (put_globl name lines e')
    ]
  ]

  unfoldable pub replace_fragment_labels : ℤ → String → ParseEngine → Result ParseEngine
  unfolding put_macro
  replace_fragment_labels id name e = elim (lookup name e.macro_name_to_lines) [
    | none ↦ err panic
    | some body ↦ replace_labels_in_body x fuel (id_of id) body e >>= λ (lines, e').
        ok (put_macro name lines e')
  ]

  -- The fragments are replaced again behind each internal function.
  unfoldable pub replace_internal_labels : ℤ → ParseEngine → Result ParseEngine
  unfolding put_internal replace_fragment_labels
  replace_internal_labels id e = elim (lookup id e.internal_id_to_code) [
    | none ↦ err panic
    | some f ↦ do
      (lines, e') ← replace_labels_in_body x fuel (id_of id) f.body e
      for_each (replace_fragment_labels id) e'.postorder_fragments (put_internal id lines e')
  ]

  unfoldable pub replace_all_labels : ParseEngine → Result ParseEngine
  unfolding for_each keys
  replace_all_labels e = do
    e' ← for_each replace_globl_labels (keys e.globl_name_to_object) e
    for_each replace_internal_labels (keys e'.internal_id_to_code) e'
