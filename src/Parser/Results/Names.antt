-- ===== src/Parser/Results/Names.antt =====
-- `internal_name` of src/parser.rs against the table of names.
use tvm_linker.Prelude.{
  none, some, some-eq, [], ◌∷◌, String, Dict, ℤ, Has, lookup, string_key, int_key, ◌≡◌, ◌≢◌, ◌↔◌,
  refl, sym, subst, ◌∙◌, Option-cases, Bool-cases, inl, inr, Has-lookup,
}
use tvm_linker.Parser.State.{ParseEngine}
use tvm_linker.Parser.Results.{find_name, internal_name}

-- Each entry of the table is the one that its key finds.
abbrev pub IsMap : {V : Type 0} → Dict String V → Type 0
IsMap {V} m = (k : String) (v : V) → Has (k, v) m → lookup k m ≡ some v

-- No two names have one id.
abbrev pub AreOwnIds : Dict String ℤ → Type 0
AreOwnIds names =
    (n m : String) (id : ℤ) → lookup n names ≡ some id → lookup m names ≡ some id → n ≡ m

find_name-Has : (id : ℤ) (m : Dict String ℤ) (n : String) → find_name id m ≡ some n → Has (n, id) m
unfolding find_name
find_name-Has id [] n h = cc h
find_name-Has id ((name, i) ∷ m) n h = elim (Bool-cases (int_key.beq i id)) [
  | inl same ↦
      let this : name ≡ n = some-eq (rw same at h) in
      let its : i ≡ id = (int_key.beq_iff i id).0 same in inl (cc (this, its))
  | inr other ↦ inr (find_name-Has id m n (rw other at h))
]

find_name-none : (id : ℤ) (m : Dict String ℤ) (n : String) → Has (n, id) m → find_name id m ≢ none
unfolding find_name
find_name-none id [] n h missing = h
find_name-none id ((name, i) ∷ m) n h missing = elim (Bool-cases (int_key.beq i id)) [
  | inl same ↦ cc (rw same at missing)
  | inr other ↦ elim h [
    | inl this ↦ let its : i ≡ id = cc this in cc (other, (int_key.beq_iff i id).1 its)
    | inr later ↦ find_name-none id m n later (rw other at missing)
  ]
]

-- Where the table of internal names is a map and no two names have one id, `internal_name` finds
-- exactly the name that has the id.
pub internal_name_iff :
    (e : ParseEngine) (id : ℤ) (n : String)
    → IsMap e.internal_name_to_id
    → AreOwnIds e.internal_name_to_id
    → (internal_name e id ≡ some n) ↔ (lookup n e.internal_name_to_id ≡ some id)
unfolding internal_name
internal_name_iff e id n is_map own = (there, back)
  where
    there : find_name id e.internal_name_to_id ≡ some n → lookup n e.internal_name_to_id ≡ some id
    there h = is_map n id (find_name-Has id e.internal_name_to_id n h)

    back : lookup n e.internal_name_to_id ≡ some id → find_name id e.internal_name_to_id ≡ some n
    back h = elim (Option-cases (find_name id e.internal_name_to_id)) [
      | inl missing ↦ absurd (
          find_name-none id e.internal_name_to_id n (Has-lookup n id e.internal_name_to_id h)
            missing)
      | inr (m, found) ↦
          let its = is_map m id (find_name-Has id e.internal_name_to_id m found) in
          found ∙ sym (subst (λ k. some n ≡ some k) (own n m id h its) refl)
    ]
