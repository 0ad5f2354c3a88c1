-- ===== src/Parser/Results/Globals.antt =====
-- The functions that `publics` and `privates` of src/parser.rs list.
use tvm_linker.Prelude.{
  ℕ, some, some-eq, [], ◌∷◌, String, Bool, true, false, Dict, Has, lookup, insert, lookup-insert,
  nat_key, ◌≡◌, ◌↔◌, refl, sym, subst, ap, ◌∙◌, Option-cases, Bool-cases, inl, inr, ◌⊎◌,
}
use tvm_linker.Parser.State.{Lines, InternalFunc, Object, ParseEngine, func}
use tvm_linker.Parser.Results.{is, add_global, collect_globals, globals}

-- An object that is a function with this visibility, id and body.
pub record Offers (public : Bool) (id : ℕ) (body : Lines) (o : Object) : Type 0 where
  pub f : InternalFunc
  pub is_function : func o.dtype ≡ some f
  pub its_id : f.id ≡ id
  pub its_body : f.body ≡ body
  pub visible : o.public ≡ public

-- An engine with such an object.
abbrev pub Provides : ParseEngine → Bool → ℕ → Lines → Type 0
Provides e public id body =
    (name : String) × ((o : Object) × (Has (name, o) e.globl_name_to_object
        × Offers public id body o))

-- Functions of one visibility and with one id have one body.
abbrev pub AreOwnFunctions : ParseEngine → Type 0
AreOwnFunctions e =
    (public : Bool) (id : ℕ) (body other : Lines)
    → Provides e public id body
    → Provides e public id other
    → body ≡ other

is-eq : (a b : Bool) → is a b ≡ true → b ≡ a
unfolding is
is-eq true b h = h
is-eq false true h = cc h
is-eq false false h = refl

is_refl : (a : Bool) → is a a ≡ true
unfolding is
is_refl true = refl
is_refl false = refl

abbrev HasBody : Dict ℕ Lines → ℕ → Type 0
HasBody m id = (body : Lines) × (lookup id m ≡ some body)

insert-HasBody :
    (k id : ℕ) (v : Lines) (m : Dict ℕ Lines) → HasBody m id → HasBody (insert k v m) id
insert-HasBody k id v m (body, h) = elim (Bool-cases (nat_key.beq k id)) [
  | inl same ↦ (v, rw (lookup-insert k id v m, same) refl)
  | inr other ↦ (body, rw (lookup-insert k id v m, other) h)
]

add_global-eq :
    (public : Bool) (o : Object) (found : Dict ℕ Lines) (id : ℕ) (body : Lines)
    → lookup id (add_global public o found) ≡ some body
    → Offers public id body o ⊎ (lookup id found ≡ some body)
unfolding add_global
add_global-eq public o found id body h = elim (Option-cases (func o.dtype)) [
  | inl no_func ↦ inr (rw (no_func, add_global) at h)
  | inr (f, is_func) ↦ elim (Bool-cases (is public o.public)) [
    | inl same ↦ elim (Bool-cases (nat_key.beq f.id id)) [
      | inl this ↦
          let its = rw (is_func, same, add_global, lookup-insert f.id id f.body found, this) at h in
          inl (record {
            f = f;
            is_function = is_func;
            its_id = (nat_key.beq_iff f.id id).0 this;
            its_body = some-eq its;
            visible = is-eq public o.public same;
          })
      | inr another ↦
          inr (rw (is_func, same, add_global, lookup-insert f.id id f.body found, another) at h)
    ]
    | inr other ↦ inr (rw (is_func, other, add_global) at h)
  ]
]

add_global-Offers :
    (public : Bool) (o : Object) (found : Dict ℕ Lines) (id : ℕ) (body : Lines)
    → Offers public id body o
    → lookup id (add_global public o found) ≡ some body
unfolding add_global
add_global-Offers public o found id body h =
    let same : is public o.public ≡ true =
      subst (λ b. is public b ≡ true) (sym h.visible) (is_refl public) in
    rw
      (
        h.is_function,
        same,
        add_global,
        lookup-insert h.f.id id h.f.body found,
        (nat_key.beq_iff h.f.id id).1 h.its_id,
        h.its_body,
      )
      refl

add_global-HasBody :
    (public : Bool) (o : Object) (found : Dict ℕ Lines) (id : ℕ)
    → HasBody found id
    → HasBody (add_global public o found) id
unfolding add_global
add_global-HasBody public o found id h = elim (Option-cases (func o.dtype)) [
  | inl no_func ↦ rw (no_func, add_global) h
  | inr (f, is_func) ↦ elim (Bool-cases (is public o.public)) [
    | inl same ↦ rw (is_func, same, add_global) (insert-HasBody f.id id f.body found h)
    | inr other ↦ rw (is_func, other, add_global) h
  ]
]

collect_globals-HasBody :
    (public : Bool) (m : Dict String Object) (found : Dict ℕ Lines) (id : ℕ)
    → HasBody found id
    → HasBody (collect_globals public m found) id
unfolding collect_globals
collect_globals-HasBody public [] found id h = h
collect_globals-HasBody public ((n, p) ∷ m) found id h =
    collect_globals-HasBody public m (add_global public p found) id
      (add_global-HasBody public p found id h)

collect_globals-Offers :
    (public : Bool) (m : Dict String Object) (found : Dict ℕ Lines) (id : ℕ) (body : Lines)
    (name : String) (o : Object)
    → Has (name, o) m
    → Offers public id body o
    → HasBody (collect_globals public m found) id
unfolding collect_globals
collect_globals-Offers public [] found id body name o member h = absurd member
collect_globals-Offers public ((n, p) ∷ m) found id body name o (inl this) h =
    collect_globals-HasBody public m (add_global public p found) id (
      body,
      add_global-Offers public p found id body
          (subst (Offers public id body) (ap (λ q. q.1) this) h),
    )
collect_globals-Offers public ((n, p) ∷ m) found id body name o (inr later) h =
    collect_globals-Offers public m (add_global public p found) id body name o later h

collect_globals-eq :
    (public : Bool) (m : Dict String Object) (found : Dict ℕ Lines) (id : ℕ) (body : Lines)
    → lookup id (collect_globals public m found) ≡ some body
    → ((name : String) × ((o : Object) × (Has (name, o) m × Offers public id body o)))
      ⊎ (lookup id found ≡ some body)
unfolding collect_globals
collect_globals-eq public [] found id body h = inr h
collect_globals-eq public ((n, p) ∷ m) found id body h =
    elim (collect_globals-eq public m (add_global public p found) id body h) [
      | inl (name, (o, (member, offer))) ↦ inl (name, (o, (inr member, offer)))
      | inr before ↦ elim (add_global-eq public p found id body before) [
        | inl offer ↦ inl (n, (p, (inl refl, offer)))
        | inr old ↦ inr old
      ]
    ]

-- Where functions of one visibility and with one id have one body, the public, or the private,
-- functions of an engine have a body under an id exactly if one of the engine's objects is a function
-- with that visibility, that id and that body.
pub globals_iff :
    (public : Bool) (e : ParseEngine) (id : ℕ) (body : Lines)
    → AreOwnFunctions e
    → (lookup id (globals public e) ≡ some body) ↔ Provides e public id body
unfolding globals lookup
globals_iff public e id body own = (
  λ h. there body h,
  λ (name, (o, (member, offer))).
      let (other, found) =
        collect_globals-Offers public e.globl_name_to_object [] id body name o member offer in
      let same = own public id other body (there other found) (name, (o, (member, offer))) in
      found ∙ ap (λ b. some b) same,
)
  where
    there : (b : Lines) → lookup id (globals public e) ≡ some b → Provides e public id b
    there b h = elim (collect_globals-eq public e.globl_name_to_object [] id b h) [
      | inl found ↦ found
      | inr nothing ↦ cc nothing
    ]
