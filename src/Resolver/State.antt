-- ===== src/Resolver/State.antt =====
-- The state that `resolve_name` of src/resolver.rs leaves: what the lookups of names have made of it.
use tvm_linker.Prelude.{ℕ, ◌-◌, List, [], ◌∷◌, String, Option, Bool-cases, Option-cases, inl, inr}
use tvm_linker.Outcome.{Result-cases, Result, ok, err, and_then}
use tvm_linker.Parser.State.{Line}
use tvm_linker.Parser.Externals.{NameCapture, Externals}
use tvm_linker.Resolver.Format.{Kind}
use tvm_linker.Resolver.{
  Progress, get_range, offset_of, resolve_id, resolve_capture, resolve_captures, split_comment,
  has_dollar, resolve_name,
}

-- A relation of states that each lookup respects.
module _ {S : Type 0} (Leads : S → S → Type 0) (same : (s : S) → Leads s s)
    (trans : (s t u : S) → Leads s t → Leads t u → Leads s u) where
  pub and_then-Leads :
      {A B : Type 0} (s : S) (m : Result A × S) (next : A → S → Result B × S)
      → Leads s m.1
      → ((a : A) (t : S) → Leads t (next a t).1)
      → Leads s (and_then m next).1
  and_then-Leads s (err why, t) next h k = h
  and_then-Leads s (ok a, t) next h k = trans s t (next a t).1 h (k a t)

  module _ (kind : Kind) (get : String → S → Option ℕ × S)
      (get-Leads : (name : String) (s : S) → Leads s (get name s).1) where
    resolve_id-Leads :
        (c : NameCapture) (id : ℕ × String) (text : String) (p : Progress) (s : S)
        → Leads s (resolve_id kind get c id text p s).1
    unfolding resolve_id
    resolve_id-Leads c (begin, name) text (res, stop) s =
        elim (Option-cases (get_range stop (begin - 1) text)) [
          | inl outside ↦ rw (outside, resolve_id) (same s)
          | inr (before, inside) ↦ elim (Result-cases (offset_of c.offset)) [
            | inl (why, bad) ↦ rw (inside, bad, resolve_id) (same s)
            | inr (offset, good) ↦ rw (inside, good, resolve_id) (get-Leads name s)
          ]
        ]

    resolve_capture-Leads :
        (c : NameCapture) (text : String) (p : Progress) (s : S)
        → Leads s (resolve_capture kind get c text p s).1
    unfolding resolve_capture
    resolve_capture-Leads c text p s = elim (Option-cases c.id) [
      | inl missing ↦ rw (missing, resolve_capture) (same s)
      | inr (id, there) ↦ rw (there, resolve_capture) (resolve_id-Leads c id text p s)
    ]

    pub resolve_captures-Leads :
        (caps : List NameCapture) (text : String) (p : Progress) (s : S)
        → Leads s (resolve_captures kind get caps text p s).1
    unfolding resolve_captures
    resolve_captures-Leads [] text p s = same s
    resolve_captures-Leads (c ∷ caps) text p s =
        and_then-Leads s (resolve_capture kind get c text p s) (resolve_captures kind get caps text)
          (resolve_capture-Leads c text p s) (λ q t. resolve_captures-Leads caps text q t)

    pub resolve_name-Leads :
        (x : Externals) (line : Line) (s : S) → Leads s (resolve_name x kind get line s).1
    unfolding resolve_name
    resolve_name-Leads x line s = elim (Bool-cases (has_dollar (split_comment line.text).0)) [
      | inl some_names ↦
          rw (some_names, resolve_name)
            (and_then-Leads s _ _
              (resolve_captures-Leads (x.names (split_comment line.text).0) _ _ s) (λ p t. same t))
      | inr no_names ↦ rw (no_names, resolve_name) (same s)
    ]
