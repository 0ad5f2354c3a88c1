-- ===== src/Parser/Pipeline/Renamed.antt =====
-- What `compat_rename_all_macro_calls` of src/parser.rs leaves alone in the engine.
use tvm_linker.Prelude.{
  [], ◌∷◌, String, some, some-eq, ◌≡◌, refl, sym, ap, ◌∙◌, subst, ℤ, Bool-cases, Option-cases, inl,
  inr, Has, Dict, Key, lookup, string_key, int_key,
}
use tvm_linker.Outcome.{Result, ok, >>=-eq-ok, ok-injective}
use tvm_linker.Abi.{is_some}
use tvm_linker.Parser.State.{
  InternalFunc, Object, ObjectType, function, untyped, object, func, ParseEngine,
}
use tvm_linker.Parser.Externals.{Externals}
use tvm_linker.Parser.Consistent.{Knows}
use tvm_linker.Parser.Fragments.{
  map_values, rename_func, rename_object, compat_rename_macro_calls, compat_rename_all_macro_calls,
}
use tvm_linker.Parser.Labels.{FunctionId, name_of, id_of}
use tvm_linker.Parser.Labels.Frame.{Frame, Grown, func_of, function_of}

module _ {K V : Type 0} ⦃o : Key K⦄ (f : V → Result V) where
  -- A value that is found has become what `f` makes of it.
  map_values-lookup :
      (m m' : Dict K V) (k : K) (v : V)
      → map_values f m ≡ ok m'
      → lookup k m ≡ some v
      → (v' : V) × (lookup k m' ≡ some v') × (f v ≡ ok v')
  unfolding map_values lookup
  map_values-lookup [] m' k v h found = cc
  map_values-lookup ((j, w) ∷ m) m' k v h found =
      let (w', first, rest) = >>=-eq-ok (f w) _ h in
      let (n, others, last) = >>=-eq-ok (map_values f m) _ rest in
      subst (λ t. (v' : V) × (lookup k t ≡ some v') × (f v ≡ ok v')) (ok-injective last)
        (elim (Bool-cases (o.beq j k)) [
          | inl same ↦
              let this : w ≡ v = some-eq (rw same at found) in
              rw same (w', refl, ap f (sym this) ∙ first)
          | inr other ↦ rw other (map_values-lookup m n k v others (rw other at found))
        ])

  map_values-Knows : (m m' : Dict K V) (k : K) → map_values f m ≡ ok m' → Knows m k → Knows m' k
  unfolding is_some
  map_values-Knows m m' k h known = elim (Option-cases (lookup k m)) [
    | inl missing ↦ cc (rw missing at known)
    | inr (v, found) ↦ let (v', there, done) = map_values-lookup m m' k v h found in rw there refl
  ]

module _ (x : Externals) where
  rename_func-calls : (f g : InternalFunc) → rename_func x f ≡ ok g → f.called_ids ≡ g.called_ids
  unfolding rename_func
  rename_func-calls f g h =
      let (body, renamed, last) = >>=-eq-ok (compat_rename_macro_calls x f.body) _ h in
      ap (λ k. k.called_ids) (ok-injective last)

  rename_object-Grown :
      (d : ObjectType) (o o' : Object) (f : InternalFunc)
      → o.dtype ≡ d
      → rename_object x o ≡ ok o'
      → func d ≡ some f
      → Grown f (func o'.dtype)
  unfolding rename_object func
  rename_object-Grown (function g) o o' f e h there =
      let (g', renamed, last) = >>=-eq-ok (rename_func x g) _ (rw e at h) in
      let same : function g' ≡ o'.dtype = ap (λ k. k.dtype) (ok-injective last) in
      let this : g ≡ f = some-eq there in
      let calls : f.called_ids ≡ g'.called_ids =
        subst (λ k. k.called_ids ≡ g'.called_ids) this (rename_func-calls g g' renamed) in
      (g', sym (ap func same), λ id c. subst (Has id) calls c)
  rename_object-Grown untyped o o' f e h there = cc
  rename_object-Grown (object d) o o' f e h there = cc

  pub compat_rename-Frame :
      (e e' : ParseEngine) → compat_rename_all_macro_calls x e ≡ ok e' → Frame e e'
  unfolding compat_rename_all_macro_calls function_of func_of
  compat_rename-Frame e e' h =
      let (objects, a, rest) =
        >>=-eq-ok (map_values (rename_object x) e.globl_name_to_object) _ h in
      let (internals, b, rest') =
        >>=-eq-ok (map_values (rename_func x) e.internal_id_to_code) _ rest in
      let (macros, c, last) =
        >>=-eq-ok (map_values (compat_rename_macro_calls x) e.macro_name_to_lines) _ rest' in
      subst (Frame e) (ok-injective last) (record {
        names = refl;
        ids = refl;
        saves = refl;
        objects = λ n. map_values-Knows (rename_object x) e.globl_name_to_object objects n a;
        code = λ id. map_values-Knows (rename_func x) e.internal_id_to_code internals id b;
        funcs = funcs objects internals a b _ refl refl;
      })
    where
      funcs :
          (objects : Dict String Object) (internals : Dict ℤ InternalFunc)
          → map_values (rename_object x) e.globl_name_to_object ≡ ok objects
          → map_values (rename_func x) e.internal_id_to_code ≡ ok internals
          → (g : ParseEngine) → g.globl_name_to_object ≡ objects
          → g.internal_id_to_code ≡ internals
          → (fr : FunctionId) (f : InternalFunc) → function_of fr e ≡ some f
          → Grown f (function_of fr g)
      funcs objects internals a b g so si (id_of id) f there =
          let (f', found, renamed) =
            map_values-lookup (rename_func x) e.internal_id_to_code internals id f b there in
          rw si (f', found, λ i c. subst (Has i) (rename_func-calls f f' renamed) c)
      funcs objects internals a b g so si (name_of n) f there =
          elim (Option-cases (lookup n e.globl_name_to_object)) [
            | inl missing ↦ cc (rw (missing, func_of) at there)
            | inr (o, here) ↦
                let (o', found, renamed) =
                  map_values-lookup (rename_object x) e.globl_name_to_object objects n o a here in
                rw (so, found, func_of)
                  (rename_object-Grown o.dtype o o' f refl renamed (rw (here, func_of) at there))
          ]
