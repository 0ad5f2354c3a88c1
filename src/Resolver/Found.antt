-- ===== src/Resolver/Found.antt =====
-- What `resolve_name` of src/resolver.rs has asked for, where it has a line to return.
use tvm_linker.Prelude.{
  ℕ, ◌-◌, List, [], ◌∷◌, String, true, Option, none, some, ◌≡◌, refl, sym, ap, subst, Option-cases,
  inl, inr, Has, ℤ,
}
use tvm_linker.Outcome.{Result-cases, ok, and_then-eq-ok}
use tvm_linker.Parser.State.{Line}
use tvm_linker.Parser.Externals.{NameCapture, Externals}
use tvm_linker.Resolver.Format.{Kind}
use tvm_linker.Resolver.{
  Progress, get_range, offset_of, found_text, resolve_found, resolve_id, resolve_capture,
  resolve_captures, split_comment, has_dollar, resolve_name,
}

module _ {S : Type 0} (kind : Kind) (get : String → S → Option ℕ × S) where
  -- The name had a number, and the state is the one that finding it left.
  abbrev Asked : String → S → S → Type 0
  Asked name s t = ((n : ℕ) × ((get name s).0 ≡ some n)) × (t ≡ (get name s).1)

  resolve_found-some :
      (c : NameCapture) (res : String) (offset : ℤ) (before : String) (r : Option ℕ) (p : Progress)
      → resolve_found kind get c res offset before r ≡ ok p
      → (n : ℕ) × (r ≡ some n)
  unfolding resolve_found found_text
  resolve_found-some c res offset before none p h = cc
  resolve_found-some c res offset before (some n) p h = (n, refl)

  resolve_id-Asked :
      (c : NameCapture) (begin : ℕ) (name text : String) (p q : Progress) (s t : S)
      → resolve_id kind get c (begin, name) text p s ≡ (ok q, t)
      → Asked name s t
  unfolding resolve_id
  resolve_id-Asked c begin name text (res, stop) q s t h =
      elim (Option-cases (get_range stop (begin - 1) text)) [
        | inl outside ↦ cc (rw (outside, resolve_id) at h)
        | inr (before, inside) ↦ elim (Result-cases (offset_of c.offset)) [
          | inl (why, bad) ↦ cc (rw (inside, bad, resolve_id) at h)
          | inr (offset, good) ↦
              let both = rw (inside, good, resolve_id) at h in
              (
                resolve_found-some c res offset before (get name s).0 q (ap (λ r. r.0) both),
                sym (ap (λ r. r.1) both),
              )
        ]
      ]

  resolve_capture-Asked :
      (c : NameCapture) (text : String) (p q : Progress) (s t : S)
      → resolve_capture kind get c text p s ≡ (ok q, t)
      → (begin : ℕ) × ((name : String) × ((c.id ≡ some (begin, name)) × Asked name s t))
  unfolding resolve_capture
  resolve_capture-Asked c text p q s t h = elim (Option-cases c.id) [
    | inl missing ↦ cc (rw (missing, resolve_capture) at h)
    | inr ((begin, name), there) ↦ (
      begin,
      (
        name,
        (there, resolve_id-Asked c begin name text p q s t (rw (there, resolve_capture) at h)),
      ),
    )
  ]

  -- What an answer for a name makes of a state lasts.
  module _ (Good : S → Type 0) (Told : String → S → Type 0)
      (stays : (name : String) (s : S) → Good s → Good (get name s).1)
      (tells : (name : String) (s : S) (n : ℕ)
        → Good s
        → (get name s).0 ≡ some n
        → Told name (get name s).1)
      (lasts : (name other : String) (s : S) → Told name s → Told name (get other s).1) where
    resolve_captures-lasts :
        (caps : List NameCapture) (text : String) (p q : Progress) (s t : S) (name : String)
        → resolve_captures kind get caps text p s ≡ (ok q, t)
        → Told name s
        → Told name t
    unfolding resolve_captures
    resolve_captures-lasts [] text p q s t name h k = subst (Told name) (ap (λ r. r.1) h) k
    resolve_captures-lasts (c ∷ caps) text p q s t name h k =
        let (p', (u, (first, rest))) =
          and_then-eq-ok (resolve_capture kind get c text p s) (resolve_captures kind get caps text)
            h in
        let (begin, (other, (there, (found, same)))) =
          resolve_capture-Asked c text p p' s u first in
        resolve_captures-lasts caps text p' q u t name rest
          (subst (Told name) (sym same) (lasts name other s k))

    resolve_captures-Told :
        (caps : List NameCapture) (text : String) (p q : Progress) (s t : S)
        → resolve_captures kind get caps text p s ≡ (ok q, t)
        → Good s
        → (c : NameCapture) (begin : ℕ) (name : String) → Has c caps
        → c.id ≡ some (begin, name)
        → Told name t
    unfolding resolve_captures
    resolve_captures-Told [] text p q s t h g c begin name m there = absurd m
    resolve_captures-Told (d ∷ caps) text p q s t h g c begin name m there =
        let (p', (u, (first, rest))) =
          and_then-eq-ok (resolve_capture kind get d text p s) (resolve_captures kind get caps text)
            h in
        let (begin', (other, (its, ((n, found), same)))) =
          resolve_capture-Asked d text p p' s u first in
        elim m [
          | inl this ↦
              let named : name ≡ other = cc (this, there, its) in
              resolve_captures-lasts caps text p' q u t name rest (
                subst (Told name) (sym same)
                  (subst (λ k. Told k (get other s).1) (sym named) (tells other s n g found)))
          | inr later ↦
              resolve_captures-Told caps text p' q u t rest
                (subst Good (sym same) (stays other s g)) c begin name later there
        ]

    pub resolve_name-Told :
        (x : Externals) (line l' : Line) (s t : S)
        → has_dollar (split_comment line.text).0 ≡ true
        → resolve_name x kind get line s ≡ (ok l', t)
        → Good s
        → (c : NameCapture) (begin : ℕ) (name : String)
        → Has c (x.names (split_comment line.text).0)
        → c.id ≡ some (begin, name)
        → Told name t
    unfolding resolve_name
    resolve_name-Told x line l' s t dollar h g c begin name m there =
        let (p, (u, (first, last))) = and_then-eq-ok _ _ (rw (dollar, resolve_name) at h) in
        subst (Told name) (ap (λ r. r.1) last) (
          resolve_captures-Told (x.names (split_comment line.text).0) _ _ p s u first g c begin name
            m there)
