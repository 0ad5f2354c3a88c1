-- ===== src/Parser/Consistent.antt =====
-- The tables of the `ParseEngine` of src/parser.rs that must fit together while files are parsed.
mod Section
pub mod Code
use tvm_linker.Prelude.{
  ℕ, Option, none, some, String, Bool, true, Dict, ℤ, lookup, insert, adjust, string_key, int_key,
  ◌≡◌, sym, subst, refl, lookup-insert, lookup-adjust, arith, Key,
}
use tvm_linker.Abi.{is_some}
use tvm_linker.Parser.State.{InternalFunc, Object, ParseEngine}

abbrev pub Knows : {K V : Type 0} ⦃o : Key K⦄ → Dict K V → K → Type 0
Knows m k = is_some (lookup k m) ≡ true

-- Each internal name has code, under an id of its own, and each global function's name has an
-- object.
pub record IsConsistent (e : ParseEngine) : Type 0 where
  pub coded :
      (n : String) (id : ℤ)
      → lookup n e.internal_name_to_id ≡ some id
      → Knows e.internal_id_to_code id
  pub once :
      (n m : String) (id : ℤ)
      → lookup n e.internal_name_to_id ≡ some id
      → lookup m e.internal_name_to_id ≡ some id
      → n ≡ m
  pub known :
      (n : String) (id : ℕ) → lookup n e.globl_name_to_id ≡ some id → Knows e.globl_name_to_object n

-- A change that leaves the tables of ids and loses no object.
pub record Extends (e e' : ParseEngine) : Type 0 where
  pub names : e'.internal_name_to_id ≡ e.internal_name_to_id
  pub code : e'.internal_id_to_code ≡ e.internal_id_to_code
  pub ids : e'.globl_name_to_id ≡ e.globl_name_to_id
  pub objects : (n : String) → Knows e.globl_name_to_object n → Knows e'.globl_name_to_object n

pub Extends-IsConsistent : {e e' : ParseEngine} → Extends e e' → IsConsistent e → IsConsistent e'
Extends-IsConsistent x c = record {
  coded = λ n id h. rw x.code (c.coded n id (rw x.names at h));
  once = λ n m id h k. c.once n m id (rw x.names at h) (rw x.names at k);
  known = λ n id h. x.objects n (c.known n id (rw x.ids at h));
}

pub Knows-insert :
    (k n : String) (o : Object) (m : Dict String Object) → Knows m n → Knows (insert k o m) n
unfolding is_some
Knows-insert k n o m h = ground (arith, lookup-insert k n o m)

pub Knows-adjust :
    (k n : String) (f : Object → Object) (m : Dict String Object)
    → Knows m n
    → Knows (adjust k f m) n
unfolding is_some
Knows-adjust k n f m h = ground (arith, lookup-adjust k n f m)
