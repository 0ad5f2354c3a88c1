-- ===== src/Parser/Unused/Termination.antt =====
-- The recursion of `enum_calling_funcs` of src/parser.rs, by the functions that are still unlisted.
use tvm_linker.Prelude.{
  ℕ, zero, suc, ◌+◌, ◌≤◌, ◌<◌, Option, none, some, List, [], ◌∷◌, true, false, Dict, String,
  contains, include, length, if◌then◌else◌, ◌≡◌, refl, inl, inr, arith, Bool-cases,
  contains-include, nat_beq_iff, sym, subst,
}
use tvm_linker.Parser.State.{InternalFunc, Object, ParseEngine, func}
use tvm_linker.Parser.Unused.{
  has_id, find_func, Ids, then_ids, enum_found, enum_called, enum_calling_funcs, enum_roots,
  used_ids, roots,
}

abbrev fresh : Option InternalFunc → List ℕ → ℕ
fresh none ids = 0
fresh (some f) ids = if contains f.id ids then 0 else 1

-- The functions whose ids are not marked.
abbrev unlisted : Dict String Object → List ℕ → ℕ
unlisted [] ids = 0
unlisted ((name, o) ∷ m) ids = fresh (func o.dtype) ids + unlisted m ids

fresh-include-le :
    (o : Option InternalFunc) (id : ℕ) (ids : List ℕ) → fresh o (include id ids) ≤ fresh o ids
fresh-include-le none id ids = omega arith
fresh-include-le (some f) id ids = ground (arith, contains-include id f.id ids)

unlisted-include-le :
    (m : Dict String Object) (id : ℕ) (ids : List ℕ) → unlisted m (include id ids) ≤ unlisted m ids
unlisted-include-le [] id ids = omega arith
unlisted-include-le ((name, o) ∷ m) id ids =
    omega (arith, fresh-include-le (func o.dtype) id ids, unlisted-include-le m id ids)

fresh-le : (o : Option InternalFunc) (ids : List ℕ) → fresh o ids ≤ 1
fresh-le none ids = omega arith
fresh-le (some f) ids = ground arith

unlisted-le : (m : Dict String Object) (ids : List ℕ) → unlisted m ids ≤ length m
unlisted-le [] ids = omega arith
unlisted-le ((name, o) ∷ m) ids = omega (arith, fresh-le (func o.dtype) ids, unlisted-le m ids)

fresh-include-lt :
    (p : Option InternalFunc) (id : ℕ) (ids : List ℕ)
    → has_id id p ≡ true
    → contains id ids ≡ false
    → fresh p (include id ids) < fresh p ids
unfolding has_id
fresh-include-lt none id ids h new = cc
fresh-include-lt (some f) id ids h new =
    let same = (nat_beq_iff f.id id).0 h in
    ground (
      arith,
      contains-include id f.id ids,
      nat_beq_iff id f.id,
      subst (λ t. contains t ids ≡ false) (sym same) new,
    )

unlisted-include-lt :
    (m : Dict String Object) (id : ℕ) (ids : List ℕ) (f : InternalFunc)
    → find_func id m ≡ some f
    → contains id ids ≡ false
    → unlisted m (include id ids) < unlisted m ids
unfolding find_func
unlisted-include-lt [] id ids f h new = cc
unlisted-include-lt ((name, o) ∷ m) id ids f h new = elim (Bool-cases (has_id id (func o.dtype))) [
  | inl here ↦
      omega (arith, fresh-include-lt (func o.dtype) id ids here new, unlisted-include-le m id ids)
  | inr later ↦ omega (
    arith,
    fresh-include-le (func o.dtype) id ids,
    unlisted-include-lt m id ids f (rw later at h) new,
  )
]

module _ (objects : Dict String Object) where
  -- The fuel did not run out, and at most `k` functions are left to mark.
  abbrev Ends : ℕ → Ids → Type 0
  Ends k none = ⊥
  Ends k (some ids) = unlisted objects ids ≤ k

  Ends-bind :
      (k : ℕ) (m : Ids) (f : List ℕ → Ids)
      → Ends k m
      → ((ids : List ℕ) → unlisted objects ids ≤ k → Ends k (f ids))
      → Ends k (then_ids m f)
  Ends-bind k none f h next = absurd h
  Ends-bind k (some ids) f h next = next ids h

  Ends-mono : (j k : ℕ) (m : Ids) → j ≤ k → Ends j m → Ends k m
  Ends-mono j k none h e = e
  Ends-mono j k (some ids) h e = omega arith

  -- What a call with fewer functions left to mark than `k` gives.
  abbrev EndsBelow : ℕ → (InternalFunc → List ℕ → Ids) → Type 0
  EndsBelow k enum =
      (j : ℕ) (f : InternalFunc) (ids : List ℕ)
      → j < k
      → unlisted objects ids ≤ j
      → Ends j (enum f ids)

  enum_found-Ends :
      (k : ℕ) (enum : InternalFunc → List ℕ → Ids) (id : ℕ) (ids : List ℕ) (o : Option InternalFunc)
      → EndsBelow k enum
      → find_func id objects ≡ o
      → contains id ids ≡ false
      → unlisted objects ids ≤ k
      → Ends k (enum_found objects enum o (include id ids))
  unfolding enum_found
  enum_found-Ends k enum id ids none below e new h =
      omega (arith, unlisted-include-le objects id ids)
  enum_found-Ends zero enum id ids (some f) below e new h =
      absurd (omega (arith, unlisted-include-lt objects id ids f e new))
  enum_found-Ends (suc k) enum id ids (some f) below e new h =
      Ends-mono k (suc k) (enum f (include id ids)) (omega arith) (
        below k f (include id ids) (omega arith)
          (omega (arith, unlisted-include-lt objects id ids f e new)))

  enum_called-Ends :
      (k : ℕ) (enum : InternalFunc → List ℕ → Ids) (called ids : List ℕ)
      → EndsBelow k enum
      → unlisted objects ids ≤ k
      → Ends k (enum_called objects enum called ids)
  unfolding enum_called
  enum_called-Ends k enum [] ids below h = h
  enum_called-Ends k enum (id ∷ called) ids below h = elim (Bool-cases (contains id ids)) [
    | inl old ↦ rw old (enum_called-Ends k enum called ids below h)
    | inr new ↦ rw new (
        Ends-bind k _ _ (enum_found-Ends k enum id ids (find_func id objects) below refl new h)
          (λ mid left. enum_called-Ends k enum called mid below left))
  ]

  enum_calling_funcs-Ends : (fuel : ℕ) → EndsBelow fuel (enum_calling_funcs objects fuel)
  unfolding enum_calling_funcs
  enum_calling_funcs-Ends zero j f ids lt h = absurd (omega arith)
  enum_calling_funcs-Ends (suc fuel) j f ids lt h =
      enum_called-Ends j (enum_calling_funcs objects fuel) f.called_ids (include f.id ids)
        (λ i g l below left. enum_calling_funcs-Ends fuel i g l (omega arith) left)
        (omega (arith, unlisted-include-le objects f.id ids))

  enum_roots-Ends :
      (k : ℕ) (fs : List InternalFunc) (ids : List ℕ)
      → unlisted objects ids ≤ k
      → Ends k (enum_roots objects (suc k) fs ids)
  unfolding enum_roots
  enum_roots-Ends k [] ids h = h
  enum_roots-Ends k (f ∷ fs) ids h =
      Ends-bind k _ _ (enum_calling_funcs-Ends (suc k) k f ids (omega arith) h)
        (enum_roots-Ends k fs)

  Ends-some : (k : ℕ) (m : Ids) → Ends k m → (ids : List ℕ) × (m ≡ some ids)
  Ends-some k none h = absurd h
  Ends-some k (some ids) h = (ids, refl)

-- The fuel of `used_ids` is enough, whatever the calls.
pub used_ids_total : (e : ParseEngine) → (ids : List ℕ) × (used_ids e ≡ some ids)
unfolding used_ids
used_ids_total e =
    Ends-some objects (length objects) _
      (enum_roots-Ends objects (length objects) (roots e) [] (unlisted-le objects []))
  where
    objects : Dict String Object
    objects = e.globl_name_to_object
