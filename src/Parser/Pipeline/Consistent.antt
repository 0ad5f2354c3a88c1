-- ===== src/Parser/Pipeline/Consistent.antt =====
-- The tables of the engine along the passes of `parse` of src/parser.rs.
use tvm_linker.Prelude.{
  ℕ, List, [], ◌∷◌, String, Bool, true, false, if◌then◌else◌, Option, none, some, ◌≡◌, refl, subst,
  ℤ, Option-cases, inl, inr, ◌⊎◌, lookup, string_key, int_key,
}
use tvm_linker.Outcome.{ok, >>=-eq-ok, ok-injective, Holds}
use tvm_linker.Parser.State.{ParseEngine, blank_engine, preinit}
use tvm_linker.Parser.Externals.{Externals}
use tvm_linker.Parser.Code.{parse_code}
use tvm_linker.Parser.Consistent.{IsConsistent, Knows, Knows-insert}
use tvm_linker.Parser.Consistent.Code.{parse_code-IsConsistent}
use tvm_linker.Parser.Fragments.{
  compat_rename_all_macro_calls, resolve_fragments, resolve_bodies, used_bodies,
}
use tvm_linker.Parser.Labels.{replace_all_labels}
use tvm_linker.Parser.Labels.Frame.{Frame, same_tables-Frame, Frame-IsConsistent}
use tvm_linker.Parser.Labels.Frame.Passes.{replace_all_labels-Frame}
use tvm_linker.Parser.Unused.{drop_unused_objects, used_ids, retain_used}
use tvm_linker.Parser.Pipeline.Renamed.{compat_rename-Frame}
use tvm_linker.Parser.Pipeline.{
  Input, set_abi, parse_inputs, dropped, drop_unused, parse, new_generic,
}

-- The tables of the internal functions: each name has code, under an id of its own.
pub record IsCoded (e : ParseEngine) : Type 0 where
  pub coded :
      (n : String) (id : ℤ)
      → lookup n e.internal_name_to_id ≡ some id
      → Knows e.internal_id_to_code id
  pub once :
      (n m : String) (id : ℤ)
      → lookup n e.internal_name_to_id ≡ some id
      → lookup m e.internal_name_to_id ≡ some id
      → n ≡ m

-- Those tables, and all of them unless unused functions are dropped.
abbrev pub IsParsed : ParseEngine → Type 0
IsParsed e = IsCoded e × ((e.save_all_private_functions ≡ false) ⊎ IsConsistent e)

IsCoded-of : (e : ParseEngine) → IsConsistent e → IsCoded e
IsCoded-of e c = record { coded = c.coded; once = c.once }

blank-IsConsistent : IsConsistent blank_engine
unfolding blank_engine lookup
blank-IsConsistent = record { coded = λ n id h. cc; once = λ n m id h k. cc; known = λ n id h. cc }

preinit-IsConsistent : (e : ParseEngine) → IsConsistent e → IsConsistent (preinit e)
unfolding preinit
preinit-IsConsistent e c = record {
  coded = c.coded;
  once = c.once;
  known = λ n id h. Knows-insert _ n _ _ (Knows-insert _ n _ _ (c.known n id h));
}

retain_used-IsCoded :
    (ids : List ℕ) (e : ParseEngine) → IsConsistent e → IsCoded (retain_used ids e)
unfolding retain_used
retain_used-IsCoded ids e c = record { coded = c.coded; once = c.once }

-- Which way the pass went.
drop_unused-cases :
    (all : Bool) (r : Option ParseEngine) (e e' : ParseEngine)
    → (if all then ok e else dropped r) ≡ ok e'
    → (e ≡ e') ⊎ ((all ≡ false) × (r ≡ some e'))
unfolding dropped
drop_unused-cases true r e e' h = inl (ok-injective h)
drop_unused-cases false none e e' h = cc
drop_unused-cases false (some kept) e e' h = inr (refl, cc)

drop_unused_objects-eq :
    (e e' : ParseEngine)
    → drop_unused_objects e ≡ some e'
    → (ids : List ℕ) × (retain_used ids e ≡ e')
unfolding drop_unused_objects
drop_unused_objects-eq e e' h = elim (Option-cases (used_ids e)) [
  | inl endless ↦ cc (rw (endless, drop_unused_objects) at h)
  | inr (ids, found) ↦ (ids, cc (rw (found, drop_unused_objects) at h))
]

drop_unused-IsParsed : (e e' : ParseEngine) → drop_unused e ≡ ok e' → IsConsistent e → IsParsed e'
unfolding drop_unused retain_used
drop_unused-IsParsed e e' h c =
    elim (drop_unused-cases e.save_all_private_functions (drop_unused_objects e) e e' h) [
      | inl same ↦ subst IsParsed same (IsCoded-of e c, inr c)
      | inr (only_used, kept) ↦
          let (ids, same) = drop_unused_objects-eq e e' kept in
          subst IsParsed same (retain_used-IsCoded ids e c, inl only_used)
    ]

module _ (x : Externals) where
  set_abi-IsConsistent :
      (abi : Option String) (e e' : ParseEngine)
      → set_abi x abi e ≡ ok e'
      → IsConsistent e
      → IsConsistent e'
  unfolding set_abi
  set_abi-IsConsistent none e e' h c = subst IsConsistent (ok-injective h) c
  set_abi-IsConsistent (some s) e e' h c = elim (Option-cases (x.load_abi s)) [
    | inl missing ↦ cc (rw (missing, set_abi) at h)
    | inr (contract, there) ↦
        subst IsConsistent (ok-injective (rw (there, set_abi) at h))
          (record { coded = c.coded; once = c.once; known = c.known })
  ]

  parse_inputs-IsConsistent :
      (inputs : List Input) (e e' : ParseEngine)
      → parse_inputs x inputs e ≡ ok e'
      → IsConsistent e
      → IsConsistent e'
  unfolding parse_inputs
  parse_inputs-IsConsistent [] e e' h c = subst IsConsistent (ok-injective h) c
  parse_inputs-IsConsistent ((filename, input) ∷ inputs) e e' h c =
      let (f, first, rest) = >>=-eq-ok (parse_code x filename input e) _ h in
      parse_inputs-IsConsistent inputs f e' rest
        (parse_code-IsConsistent x filename input e f c first)

  resolve_fragments-Frame : (e e' : ParseEngine) → resolve_fragments x e ≡ ok e' → Frame e e'
  unfolding resolve_fragments
  resolve_fragments-Frame e e' h =
      let (w, walked, last) =
        >>=-eq-ok (resolve_bodies x e.macro_name_to_lines _ (used_bodies e) _) _ h in
      subst (Frame e) (ok-injective last) (same_tables-Frame e _ refl refl refl refl refl)

  -- A program that is parsed without an error has, for each name of an internal function, code under
  -- an id that no other internal name has; where its private functions are all saved, each name of a
  -- global function has an object.
  pub new_generic-IsParsed :
      (fuel : ℕ) (inputs : List Input) (abi_json : Option String) (e : ParseEngine)
      → new_generic x fuel inputs abi_json ≡ ok e
      → IsParsed e
  unfolding new_generic parse
  new_generic-IsParsed fuel inputs abi_json e h =
      let (with_abi, h1, r1) = >>=-eq-ok (set_abi x abi_json blank_engine) _ h in
      let (read, h2, r2) = >>=-eq-ok (parse_inputs x inputs (preinit with_abi)) _ r1 in
      let (renamed, h3, r3) = >>=-eq-ok (compat_rename_all_macro_calls x read) _ r2 in
      let (resolved, h4, r4) = >>=-eq-ok (resolve_fragments x renamed) _ r3 in
      let (replaced, h5, r5) = >>=-eq-ok (replace_all_labels x fuel resolved) _ r4 in
      let start = set_abi-IsConsistent abi_json blank_engine with_abi h1 blank-IsConsistent in
      let c2 =
        parse_inputs-IsConsistent inputs (preinit with_abi) read h2
          (preinit-IsConsistent with_abi start) in
      let c3 = Frame-IsConsistent read renamed (compat_rename-Frame x read renamed h3) c2 in
      let c4 =
        Frame-IsConsistent renamed resolved (resolve_fragments-Frame renamed resolved h4) c3 in
      let f5 = subst (Holds (Frame resolved)) h5 (replace_all_labels-Frame x fuel resolved) in
      drop_unused-IsParsed replaced e r5 (Frame-IsConsistent resolved replaced f5 c4)
