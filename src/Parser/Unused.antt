-- ===== src/Parser/Unused.antt =====
-- `drop_unused_objects` and `enum_calling_funcs` of src/parser.rs, which drop the functions that the
-- public and the internal functions do not call.
pub mod Closure
pub mod Reached
pub mod Termination
pub mod Kept
use tvm_linker.Prelude.{
  ℕ, zero, suc, Option, none, some, List, [], ◌∷◌, ◌++◌, String, Bool, true, false, if◌then◌else◌,
  ◌==◌, ◌&&◌, Dict, Has, retain, contains, include, length, string_key,
}
use tvm_linker.Parser.State.{InternalFunc, Object, ObjectType, func, ParseEngine}

has_id : ℕ → Option InternalFunc → Bool
has_id id none = false
has_id id (some f) = f.id == id

-- The first function, in the order of the names, that has the id.
unfoldable pub find_func : ℕ → Dict String Object → Option InternalFunc
unfolding has_id
find_func id [] = none
find_func id ((name, o) ∷ m) =
    let rest = find_func id m in if has_id id (func o.dtype) then func o.dtype else rest

-- `HashSet<u32>`, or nothing where the fuel ran out.
abbrev pub Ids : Type 0
Ids = Option (List ℕ)

abbrev pub then_ids : Ids → (List ℕ → Ids) → Ids
then_ids none f = none
then_ids (some ids) f = f ids

module _ (objects : Dict String Object) where
  module _ (enum : InternalFunc → List ℕ → Ids) where
    unfoldable pub enum_found : Option InternalFunc → List ℕ → Ids
    enum_found none ids = some ids
    enum_found (some f) ids = enum f ids

    unfoldable pub enum_called : List ℕ → List ℕ → Ids
    enum_called [] ids = some ids
    enum_called (id ∷ called) ids =
        let rest = enum_called called in
        if contains id ids
        then rest ids
        else then_ids (enum_found (find_func id objects) (include id ids)) rest

  -- The recursion on fuel; see Unused/Termination for how much is enough.
  unfoldable pub enum_calling_funcs : ℕ → InternalFunc → List ℕ → Ids
  enum_calling_funcs zero f ids = none
  enum_calling_funcs (suc fuel) f ids =
      enum_called (enum_calling_funcs fuel) f.called_ids (include f.id ids)

  unfoldable pub enum_roots : ℕ → List InternalFunc → List ℕ → Ids
  enum_roots fuel [] ids = some ids
  enum_roots fuel (f ∷ roots) ids = then_ids (enum_calling_funcs fuel f ids) (enum_roots fuel roots)

unfoldable pub public_funcs : Dict String Object → List InternalFunc
public_funcs [] = []
public_funcs ((name, o) ∷ m) = elim (func o.dtype) [
  | none ↦ public_funcs m
  | some f ↦ if o.public then f ∷ public_funcs m else public_funcs m
]

unfoldable pub internal_funcs : {K : Type 0} → Dict K InternalFunc → List InternalFunc
internal_funcs [] = []
internal_funcs ((id, f) ∷ m) = f ∷ internal_funcs m

unfoldable pub roots : ParseEngine → List InternalFunc
roots e = public_funcs e.globl_name_to_object ++ internal_funcs e.internal_id_to_code

-- The ids that the functions of the engine reach. The fuel is above the number of objects.
unfoldable pub used_ids : ParseEngine → Ids
used_ids e = enum_roots e.globl_name_to_object (suc (length e.globl_name_to_object)) (roots e) []

unfoldable pub keeps : List ℕ → Option InternalFunc → Bool
keeps ids none = true
keeps ids (some f) = contains f.id ids

unfoldable pub retain_used : List ℕ → ParseEngine → ParseEngine
retain_used ids e = record e {
  globl_name_to_object = retain (λ name o. keeps ids (func o.dtype)) e.globl_name_to_object;
  globl_name_to_id = retain (λ name id. contains id ids) e.globl_name_to_id;
}

unfoldable pub drop_unused_objects : ParseEngine → Option ParseEngine
drop_unused_objects e = elim (used_ids e) [ none ↦ none | some ids ↦ some (retain_used ids e) ]
