-- ===== src/Parser/Unused/Kept.antt =====
-- What `drop_unused_objects` of src/parser.rs leaves of the objects.
use tvm_linker.Prelude.{
  ℕ, Option, none, some, List, [], ◌∷◌, true, false, Dict, String, Has, retain, Has-retain,
  contains, string_key, ◌≡◌, refl, sym, subst, ◌==◌, inl, inr, ◌↔◌, Bool-cases, nat_beq_iff,
  some-eq,
}
use tvm_linker.Parser.State.{InternalFunc, Object, ParseEngine, func}
use tvm_linker.Parser.Unused.{
  has_id, find_func, keeps, retain_used, roots, drop_unused_objects, used_ids,
}
use tvm_linker.Parser.Unused.Reached.{Reached, IsResolved, used_ids_iff}
use tvm_linker.Parser.Unused.Termination.{used_ids_total}

dropped_id :
    (ids : List ℕ) (b : ℕ) (p : Option InternalFunc)
    → contains b ids ≡ true
    → keeps ids p ≡ false
    → has_id b p ≡ false
unfolding keeps has_id
dropped_id ids b none h dropped = refl
dropped_id ids b (some f) h dropped = elim (Bool-cases (f.id == b)) [
  | inl same ↦ cc (subst (λ t. contains t ids ≡ true) (sym ((nat_beq_iff f.id b).0 same)) h)
  | inr other ↦ other
]

find_func-retain :
    (ids : List ℕ) (b : ℕ) (m : Dict String Object)
    → contains b ids ≡ true
    → find_func b (retain (λ name o. keeps ids (func o.dtype)) m) ≡ find_func b m
unfolding find_func retain
find_func-retain ids b [] h = refl
find_func-retain ids b ((name, o) ∷ m) h = elim (Bool-cases (keeps ids (func o.dtype))) [
  | inl kept ↦ rw (kept, find_func-retain ids b m h)
  | inr dropped ↦
      rw (dropped, find_func-retain ids b m h, dropped_id ids b (func o.dtype) h dropped)
]

-- An object is live if it is no function, or a function whose id is reached.
abbrev pub IsLive : ParseEngine → Object → Type 0
IsLive e o = (f : InternalFunc) → func o.dtype ≡ some f → Reached e f.id

-- What `drop_unused_objects` has done in `e'`.
pub record IsPruned (e e' : ParseEngine) : Type 0 where
  pub objects :
      (name : String) (o : Object)
      → Has (name, o) e'.globl_name_to_object ↔ (Has (name, o) e.globl_name_to_object × IsLive e o)
  pub ids :
      (name : String) (id : ℕ)
      → Has (name, id) e'.globl_name_to_id ↔ (Has (name, id) e.globl_name_to_id × Reached e id)
  pub found :
      (b : ℕ)
      → Reached e b
      → find_func b e'.globl_name_to_object ≡ find_func b e.globl_name_to_object
  pub internals : e'.internal_id_to_code ≡ e.internal_id_to_code

module _ (e : ParseEngine) (resolved : IsResolved e.globl_name_to_object (roots e)) where
  keeps_iff :
      (ids : List ℕ) (p : Option InternalFunc)
      → used_ids e ≡ some ids
      → (keeps ids p ≡ true) ↔ ((f : InternalFunc) → p ≡ some f → Reached e f.id)
  unfolding keeps
  keeps_iff ids none h = (λ c f k. cc, λ c. refl)
  keeps_iff ids (some f) h = (
    λ c g k. subst (λ t. Reached e t.id) (some-eq k) ((used_ids_iff e ids f.id resolved h).0 c),
    λ c. (used_ids_iff e ids f.id resolved h).1 (c f refl),
  )

-- `drop_unused_objects` ends. Where the id of each root stands for no function or for one with the
-- same calls, it keeps exactly the data objects and the functions whose ids are reached, and of the
-- table of ids exactly the reached ones; a reached id still finds the function that it found, and
-- the internal functions stay.
pub drop_unused_objects-IsPruned :
    (e : ParseEngine)
    → IsResolved e.globl_name_to_object (roots e)
    → (e' : ParseEngine) × (drop_unused_objects e ≡ some e') × IsPruned e e'
unfolding drop_unused_objects retain_used
drop_unused_objects-IsPruned e resolved =
    let (ids, h) = used_ids_total e in
    (
      retain_used ids e,
      rw (h, drop_unused_objects),
      record {
        objects = λ name o.
            let kept =
              Has-retain (λ n o'. keeps ids (func o'.dtype)) name o e.globl_name_to_object in
            let live = keeps_iff e resolved ids (func o.dtype) h in
            (λ m. let (old, k) = kept.0 m in (old, live.0 k), λ (old, l). kept.1 (old, live.1 l));
        ids = λ name id.
            let kept = Has-retain (λ n i. contains i ids) name id e.globl_name_to_id in
            let reached = used_ids_iff e ids id resolved h in
            (
              λ m. let (old, k) = kept.0 m in (old, reached.0 k),
              λ (old, l). kept.1 (old, reached.1 l),
            );
        found = λ b r.
            find_func-retain ids b e.globl_name_to_object ((used_ids_iff e ids b resolved h).1 r);
        internals = refl;
      },
    )
