-- ===== src/Parser/Consistent/Section.antt =====
-- The consistency of the tables across `update` of src/parser.rs.
use tvm_linker.Prelude.{
  some, String, lookup, string_key, int_key, ◌≡◌, refl, lookup-insert, lookup-adjust, arith,
  Option-cases, Bool-cases, inl, inr, is_empty, ends_with,
}
use tvm_linker.Outcome.{panic, err, Holds, Holds-any}
use tvm_linker.Abi.{is_some, declares}
use tvm_linker.Parser.State.{
  Lines, new_func, Data, Object, ObjectType, untyped, function, object, ParseEngine,
}
use tvm_linker.Parser.Externals.{Externals}
use tvm_linker.Parser.Values.{Filling, update_data}
use tvm_linker.Parser.Section.{
  Section, no_section, globl, internal, macros, selector, publish, set_func, update_selector,
  update_function, place, update_object, update_globl, publish_if_declared, update_internal,
  update_macro, update, create_function_id,
}
use tvm_linker.Parser.Consistent.{
  IsConsistent, Extends, Extends-IsConsistent, Knows-insert, Knows-adjust,
}

module _ (x : Externals) where
  update_selector-keeps :
      (body : Lines) (e : ParseEngine)
      → IsConsistent e
      → Holds IsConsistent (update_selector x body e)
  unfolding update_selector
  update_selector-keeps body e c = elim (Bool-cases (is_empty e.entry_point)) [
    | inl empty ↦ rw empty (
        Extends-IsConsistent (record { names = refl; code = refl; ids = refl; objects = λ n h. h })
          c)
    | inr full ↦ rw full tt
  ]

  update_macro-keeps :
      (name : String) (body : Lines) (e : ParseEngine)
      → IsConsistent e
      → Holds IsConsistent (update_macro x name body e)
  unfolding update_macro
  update_macro-keeps name body e c = elim (Option-cases (lookup name e.macro_name_to_lines)) [
    | inl new ↦
        rw (new, update_macro)
          (Extends-IsConsistent
            (record { names = refl; code = refl; ids = refl; objects = λ n h. h }) c)
    | inr (prev, old) ↦ rw (old, update_macro) tt
  ]

  update_internal-keeps :
      (name : String) (body : Lines) (e : ParseEngine)
      → IsConsistent e
      → Holds IsConsistent (update_internal x name body e)
  unfolding update_internal is_some
  update_internal-keeps name body e c =
      elim (Option-cases (lookup name e.internal_alias_name_to_id)) [
        | inl missing ↦ rw (missing, update_internal) tt
        | inr (id, found) ↦ elim (Option-cases (lookup id e.internal_id_to_code)) [
          | inr (prev, old) ↦ rw (found, old, update_internal) tt
          | inl new ↦
              rw (found, new, update_internal)
                (record {
                  coded = λ n i h. ground (
                    arith,
                    c.coded n i,
                    lookup-insert name n id e.internal_name_to_id,
                    lookup-insert id i (record new_func { body = body }) e.internal_id_to_code,
                    int_key.beq_iff id i,
                  );
                  once = λ n m i h k. ground (
                    arith,
                    c.once n m i,
                    c.coded n id,
                    c.coded m id,
                    lookup-insert name n id e.internal_name_to_id,
                    lookup-insert name m id e.internal_name_to_id,
                    string_key.beq_iff name n,
                    string_key.beq_iff name m,
                  );
                  known = c.known;
                })
        ]
      ]

  update_function-keeps :
      (name : String) (body : Lines) (o : Object) (e : ParseEngine)
      → lookup name e.globl_name_to_object ≡ some o
      → IsConsistent e
      → Holds IsConsistent (update_function x name body o e)
  unfolding update_function is_some
  update_function-keeps name body o e here c =
      elim (Option-cases (lookup name e.globl_name_to_id)) [
        | inr (prev, old) ↦ rw (old, update_function) tt
        | inl new ↦
            rw (new, update_function)
              (let id = create_function_id x e o name in
                record {
                  coded = c.coded;
                  once = c.once;
                  known = λ n i h. ground (
                    arith,
                    c.known n i,
                    lookup-insert name n id e.globl_name_to_id,
                    lookup-adjust name n (set_func id body) e.globl_name_to_object,
                    string_key.beq_iff name n,
                  );
                })
      ]

  place-Extends :
      (name : String) (o : Object) (d : Data) (s : Filling) (e : ParseEngine)
      → Extends e (place x name o d s e)
  unfolding place
  place-Extends name o d s e = elim (Bool-cases (ends_with name "_persistent")) [
    | inl persistent ↦ rw (persistent) (record {
      names = refl;
      code = refl;
      ids = refl;
      objects = λ n. Knows-insert name n _ e.globl_name_to_object;
    })
    | inr plain ↦ rw (plain) (record {
      names = refl;
      code = refl;
      ids = refl;
      objects = λ n. Knows-insert name n _ e.globl_name_to_object;
    })
  ]

  update_object-keeps :
      (name : String) (body : Lines) (o : Object) (d : Data) (e : ParseEngine)
      → IsConsistent e
      → Holds IsConsistent (update_object x name body o d e)
  unfolding update_object
  update_object-keeps name body o d e c =
      Holds-any IsConsistent (update_data x body (record { item_size = o.size; values = d.values }))
        _ (λ s. Extends-IsConsistent (place-Extends name o d s e) c)

  update_globl-keeps :
      (name : String) (body : Lines) (e : ParseEngine)
      → IsConsistent e
      → Holds IsConsistent (update_globl x name body e)
  unfolding update_globl
  update_globl-keeps name body e c = elim (Option-cases (lookup name e.globl_name_to_object)) [
    | inl missing ↦ rw (missing, update_globl) tt
    | inr (o, here) ↦ rw (here, update_globl) (by_type o.dtype o here)
  ]
    where
      by_type :
          (t : ObjectType) (o : Object)
          → lookup name e.globl_name_to_object ≡ some o
          → Holds IsConsistent (elim t [
            | function f ↦ update_function x name body o e
            | object d ↦ update_object x name body o d e
            | untyped ↦ err panic
          ])
      by_type (function f) o here = update_function-keeps name body o e here c
      by_type (object d) o here = update_object-keeps name body o d e c
      by_type untyped o here = tt

  publish_if_declared-Extends :
      (name : String) (e : ParseEngine) → Extends e (publish_if_declared x name e)
  unfolding publish_if_declared
  publish_if_declared-Extends name e = elim (Bool-cases (declares e.abi name)) [
    | inl declared ↦ rw declared (record {
      names = refl;
      code = refl;
      ids = refl;
      objects = λ n. Knows-adjust name n publish e.globl_name_to_object;
    })
    | inr other ↦ rw other (record { names = refl; code = refl; ids = refl; objects = λ n h. h })
  ]

  pub update-keeps :
      (s : Section) (name : String) (body : Lines) (e : ParseEngine)
      → IsConsistent e
      → Holds IsConsistent (update x s name body e)
  unfolding update
  update-keeps selector name body e c = update_selector-keeps body e c
  update-keeps globl name body e c =
      update_globl-keeps name body _ (Extends-IsConsistent (publish_if_declared-Extends name e) c)
  update-keeps internal name body e c = update_internal-keeps name body e c
  update-keeps macros name body e c = update_macro-keeps name body e c
  update-keeps no_section name body e c = c
