-- ===== src/Resolver/Missing.antt =====
-- `resolve_name` of src/resolver.rs on a line with a name that is not found.
use tvm_linker.Prelude.{
  ℕ, ◌-◌, List, [], ◌∷◌, String, Option, none, some, ◌≡◌, ◌⊎◌, true, refl, subst, Has, Option-cases,
  inl, inr,
}
use tvm_linker.Outcome.{Error, Result, Result-cases, ok, err, IsRefused, and_then-IsRefused}
use tvm_linker.Parser.State.{Line}
use tvm_linker.Parser.Externals.{NameCapture, Externals}
use tvm_linker.Resolver.Format.{Kind}
use tvm_linker.Resolver.{
  Progress, get_range, offset_of, found_text, resolve_found, resolve_id, resolve_capture,
  resolve_captures, split_comment, has_dollar, resolve_name,
}
use tvm_linker.Resolver.State.{resolve_captures-Leads}

-- States in which the name is not found, which the lookups of other names keep.
module _ {S : Type 0} (kind : Kind) (get : String → S → Option ℕ × S) (name : String)
    (Lacks : S → Type 0) (missing : (s : S) → Lacks s → (get name s).0 ≡ none)
    (keeps : (other : String) (s : S) → Lacks s → Lacks (get other s).1) where
  resolve_id-IsRefused :
      (c : NameCapture) (begin : ℕ) (text : String) (p : Progress) (s : S)
      → Lacks s
      → IsRefused (resolve_id kind get c (begin, name) text p s).0
  unfolding resolve_id resolve_found found_text
  resolve_id-IsRefused c begin text (res, stop) s h =
      elim (Option-cases (get_range stop (begin - 1) text)) [
        | inl outside ↦ rw (outside, resolve_id) (_, refl)
        | inr (before, inside) ↦ elim (Result-cases (offset_of c.offset)) [
          | inl (why, bad) ↦ rw (inside, bad, resolve_id) (_, refl)
          | inr (offset, good) ↦ rw (inside, good, missing s h, resolve_id, resolve_found) (_, refl)
        ]
      ]

  resolve_captures-IsRefused :
      (caps : List NameCapture) (c : NameCapture) (begin : ℕ) (text : String) (p : Progress) (s : S)
      → Has c caps
      → c.id ≡ some (begin, name)
      → Lacks s
      → IsRefused (resolve_captures kind get caps text p s).0
  unfolding resolve_captures resolve_capture
  resolve_captures-IsRefused [] c begin text p s member named h = absurd member
  resolve_captures-IsRefused (k ∷ caps) c begin text p s (inl this) named h =
      let its : k.id ≡ some (begin, name) = subst (λ t. t.id ≡ some (begin, name)) this named in
      and_then-IsRefused (resolve_capture kind get k text p s) (resolve_captures kind get caps text)
        (rw (its, resolve_capture) (resolve_id-IsRefused k begin text p s h))
  resolve_captures-IsRefused (k ∷ caps) c begin text p s (inr later) named h =
      let kept =
        resolve_captures-Leads (λ s t. Lacks s → Lacks t) (λ s a. a) (λ s t u f g a. g (f a)) kind
          get keeps (k ∷ []) text p s h in
      elim (capture-cases (resolve_capture kind get k text p s)) [
        | inl (why, (t, bad)) ↦ rw (bad, resolve_captures) (_, refl)
        | inr (q, (t, good)) ↦
            let there : Lacks t = rw (good, resolve_captures) at kept in
            rw (good, resolve_captures)
              (resolve_captures-IsRefused caps c begin text q t later named there)
      ]
    where
      capture-cases :
          (m : Result Progress × S)
          → ((why : Error) × ((t : S) × (m ≡ (err why, t))))
            ⊎ ((q : Progress) × ((t : S) × (m ≡ (ok q, t))))
      capture-cases (err why, t) = inl (why, (t, refl))
      capture-cases (ok q, t) = inr (q, (t, refl))

  -- A line with a match of the name is refused.
  pub resolve_name-IsRefused :
      (x : Externals) (l : Line) (c : NameCapture) (begin : ℕ) (s : S)
      → has_dollar (split_comment l.text).0 ≡ true
      → Has c (x.names (split_comment l.text).0)
      → c.id ≡ some (begin, name)
      → Lacks s
      → IsRefused (resolve_name x kind get l s).0
  unfolding resolve_name
  resolve_name-IsRefused x l c begin s dollar member named h =
      rw (dollar, resolve_name)
        (and_then-IsRefused
          (resolve_captures kind get (x.names (split_comment l.text).0) (split_comment l.text).0
            ("", 0) s)
          _
          (resolve_captures-IsRefused (x.names (split_comment l.text).0) c begin
            (split_comment l.text).0 ("", 0) s member named h))
