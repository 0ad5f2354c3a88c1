-- ===== src/Parser/Results.antt =====
-- What a `ParseEngine` of src/parser.rs gives to the rest of the linker: its functions by identifier
-- and its names.
pub mod Names
pub mod Globals
use tvm_linker.Prelude.{
  ℕ, ◌==◌, Option, none, some, List, [], ◌∷◌, String, Bool, true, false, if◌then◌else◌, Dict, ℤ,
  lookup, insert, nat_key, int_key, string_key,
}
use tvm_linker.Parser.State.{Lines, InternalFunc, Object, SelectorVariant, ParseEngine, func}

unfoldable pub entry : ParseEngine → Lines
entry e = e.entry_point

unfoldable pub version : ParseEngine → Option String
version e = e.version

unfoldable pub func_upgrade : ParseEngine → SelectorVariant
func_upgrade e = e.func_upgrade

unfoldable pub bodies : {K : Type 0} → Dict K InternalFunc → Dict K Lines
bodies [] = []
bodies ((id, f) ∷ m) = (id, f.body) ∷ bodies m

unfoldable pub internals : ParseEngine → Dict ℤ Lines
unfolding bodies
internals e = bodies e.internal_id_to_code

-- The first name, in the order of the table, that has the id.
unfoldable pub find_name : ℤ → Dict String ℤ → Option String
find_name id [] = none
find_name id ((name, i) ∷ m) = if int_key.beq i id then some name else find_name id m

unfoldable pub internal_name : ParseEngine → ℤ → Option String
unfolding find_name
internal_name e id = find_name id e.internal_name_to_id

unfoldable pub is : Bool → Bool → Bool
is true b = b
is false true = false
is false false = true

unfoldable pub add_global : Bool → Object → Dict ℕ Lines → Dict ℕ Lines
unfolding is
add_global public o found = elim (func o.dtype) [
  | none ↦ found
  | some f ↦ if is public o.public then insert f.id f.body found else found
]

-- `collect` into a map: of two functions with one id, the later one stays.
unfoldable pub collect_globals : Bool → Dict String Object → Dict ℕ Lines → Dict ℕ Lines
unfolding add_global
collect_globals public [] found = found
collect_globals public ((name, o) ∷ m) found = collect_globals public m (add_global public o found)

unfoldable pub globals : Bool → ParseEngine → Dict ℕ Lines
unfolding collect_globals
globals public e = collect_globals public e.globl_name_to_object []

unfoldable pub publics : ParseEngine → Dict ℕ Lines
unfolding globals
publics e = globals true e

unfoldable pub privates : ParseEngine → Dict ℕ Lines
unfolding globals
privates e = globals false e

has_id : ℕ → Option InternalFunc → Bool
has_id id none = false
has_id id (some f) = f.id == id

unfoldable pub find_global : ℕ → Dict String Object → Option String
unfolding has_id
find_global id [] = none
find_global id ((name, o) ∷ m) = if has_id id (func o.dtype) then some name else find_global id m

unfoldable pub global_name : ParseEngine → ℕ → Option String
unfolding find_global
global_name e id = find_global id e.globl_name_to_object

unfoldable pub global_by_name : ParseEngine → String → Option (ℕ × Lines)
global_by_name e name = elim (lookup name e.globl_name_to_object) [
  | none ↦ none
  | some o ↦ elim (func o.dtype) [ none ↦ none | some f ↦ some (f.id, f.body) ]
]
