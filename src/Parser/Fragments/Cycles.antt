-- ===== src/Parser/Fragments/Cycles.antt =====
-- Cycles of macros in `resolve_fragments` of src/parser.rs.
use tvm_linker.Prelude.{
  ℕ, zero, suc, ◌<◌, Option, none, some, List, [], ◌∷◌, String, true, false, lookup, Dict, Has,
  length, string_key, ap, ◌≡◌, ◌≢◌, refl, inl, inr, subst, Bool-cases, Option-cases, ◌⊎◌, arith,
  lookup-insert,
}
use tvm_linker.Outcome.{out_of_fuel, Result, ok, err, ◌>>=◌}
use tvm_linker.Abi.{is_some}
use tvm_linker.Parser.State.{Line, Lines, ParseEngine}
use tvm_linker.Parser.Externals.{Externals}
use tvm_linker.Parser.Fragments.{
  Walk, callee, open_mark, close_mark, resolve_callee, resolve_fragment_lines, resolve_fragment,
  resolve_bodies, used_bodies, resolve_fragments,
}
use tvm_linker.Parser.Fragments.Calls.{Calls}
use tvm_linker.Parser.Fragments.Order.{Mark-cases}
use tvm_linker.Parser.Fragments.Termination.{resolve_fragments_terminates}

-- `rank` falls along each call, so the macros have no cycle.
abbrev pub IsRanked : Externals → Dict String Lines → (String → ℕ) → Type 0
IsRanked x macros rank = (a b : String) → Calls x macros a b → rank b < rank a

-- Every `.inline` line has a name, as the regular expression wants it.
abbrev pub IsReadable : Externals → Dict String Lines → Lines → Type 0
IsReadable x macros lines =
    (l : Line) → Has l lines → (c : Option String) × (callee x macros l ≡ ok c)

module _ (x : Externals) (macros : Dict String Lines) (rank : String → ℕ)
    (ranked : IsRanked x macros rank)
    (readable : (a : String) (lines : Lines)
      → lookup a macros ≡ some lines
      → IsReadable x macros lines) where
  -- Only the fuel can fail, and no mark is left open that was not open before.
  abbrev Good : Walk → Result Walk → Type 0
  Good w (ok v) = (m : String) → lookup m v.visited ≡ some false → lookup m w.visited ≡ some false
  Good w (err e) = e ≡ out_of_fuel

  -- The macros in progress lie above `n`.
  abbrev Above : ℕ → Walk → Type 0
  Above k w = (m : String) → lookup m w.visited ≡ some false → k < rank m

  Good-bind :
      (w : Walk) (m : Result Walk) (f : Walk → Result Walk)
      → Good w m
      → ((v : Walk) → Good w (ok v) → Good v (f v))
      → Good w (m >>= f)
  Good-bind w (ok v) f h next = weaken v (f v) h (next v h)
    where
      weaken : (v : Walk) (r : Result Walk) → Good w (ok v) → Good v r → Good w r
      weaken v (ok u) h g = λ m o. h m (g m o)
      weaken v (err e) h g = g
  Good-bind w (err e) f h next = h

  callee-eq-some :
      (l : Line) (n : String)
      → callee x macros l ≡ ok (some n)
      → lookup n macros ≡ none
      → true ≡ false
  unfolding callee is_some
  callee-eq-some l n h missing = ground arith

  callee-known :
      (l : Line) (n : String)
      → callee x macros l ≡ ok (some n)
      → (lines : Lines) × (lookup n macros ≡ some lines)
  callee-known l n h = elim (Option-cases (lookup n macros)) [
    | inl missing ↦ cc (callee-eq-some l n h missing)
    | inr found ↦ found
  ]

  -- What a visit of `n` needs: its macro is there, and no macro in progress lies below it.
  abbrev Visits : (String → Walk → Result Walk) → Type 0
  Visits visit =
      (n : String) (lines : Lines) (w : Walk)
      → lookup n macros ≡ some lines
      → Above (rank n) w
      → Good w (visit n w)

  module _ (visit : String → Walk → Result Walk) (good : Visits visit) where
    resolve_callee-Good :
        (l : Line) (c : Option String) (w : Walk)
        → callee x macros l ≡ ok c
        → ((b : String) → callee x macros l ≡ ok (some b) → Above (rank b) w)
        → Good w (resolve_callee x macros visit c w)
    unfolding resolve_callee
    resolve_callee-Good l none w e above = λ m h. h
    resolve_callee-Good l (some n) w e above =
        let (lines, found) = callee-known l n e in good n lines w found (above n e)

    resolve_fragment_lines-Good :
        (lines : Lines) (w : Walk)
        → IsReadable x macros lines
        → ((l : Line) (b : String)
            → Has l lines
            → callee x macros l ≡ ok (some b)
            → Above (rank b) w)
        → Good w (resolve_fragment_lines x macros visit lines w)
    unfolding resolve_fragment_lines
    resolve_fragment_lines-Good [] w r above = λ m h. h
    resolve_fragment_lines-Good (l ∷ lines) w r above =
        let (c, e) = r l (inl refl) in
        rw e (
          Good-bind w (resolve_callee x macros visit c w) _
            (resolve_callee-Good l c w e (λ b. above l b (inl refl)))
            λ v kept.
              resolve_fragment_lines-Good lines v (λ k h. r k (inr h))
                (λ k b h t m o. above k b (inr h) t m (kept m o)))

  -- Closing the mark of `n` leaves open what was open before it.
  close-Good :
      (n : String) (w : Walk) (r : Result Walk)
      → Good (open_mark x macros n w) r
      → Good w (r >>= λ v. ok (close_mark x macros n v))
  unfolding open_mark close_mark
  close-Good n w (ok v) h = λ m o. ground (
    arith,
    h m,
    lookup-insert n m true v.visited,
    lookup-insert n m false w.visited,
    string_key.beq_iff n m,
  )
  close-Good n w (err e) h = h

  Above-open :
      (n b : String) (w : Walk)
      → rank b < rank n
      → Above (rank n) w
      → Above (rank b) (open_mark x macros n w)
  unfolding open_mark
  Above-open n b w lt above m o = elim (Bool-cases (string_key.beq n m)) [
    | inl same ↦ subst (λ k. rank b < rank k) ((string_key.beq_iff n m).0 same) lt
    | inr other ↦ omega (arith, above m (rw (lookup-insert n m false w.visited, other) at o))
  ]

  resolve_fragment-Good : (fuel : ℕ) → Visits (resolve_fragment x macros fuel)
  unfolding resolve_fragment
  resolve_fragment-Good zero n lines w found above = refl
  resolve_fragment-Good (suc fuel) n lines w found above = elim (Mark-cases (lookup n w.visited)) [
    | inl fresh ↦
        rw (fresh, found, resolve_fragment)
          (close-Good n w _ (
            resolve_fragment_lines-Good (resolve_fragment x macros fuel)
              (resolve_fragment-Good fuel) lines (open_mark x macros n w) (readable n lines found)
              λ l b h t.
                Above-open n b w
                  (ranked n b
                    (record { lines = lines; line = l; body = found; member = h; target = t }))
                  above))
    | inr (inl held) ↦ absurd (omega (arith, above n held))
    | inr (inr done) ↦ rw (done, resolve_fragment) (λ m h. h)
  ]

  -- Success, or nothing but the fuel.
  abbrev pub OkOrFuel : Result Walk → Type 0
  OkOrFuel r = ((v : Walk) × (r ≡ ok v)) ⊎ (r ≡ err out_of_fuel)

  OkOrFuel-bind :
      (w : Walk) (m : Result Walk) (f : Walk → Result Walk)
      → Good w m
      → ((v : Walk) → Good w (ok v) → OkOrFuel (f v))
      → OkOrFuel (m >>= f)
  OkOrFuel-bind w (ok v) f kept rest = rest v kept
  OkOrFuel-bind w (err e) f out rest = inr (ap err out)

  pub resolve_bodies-Good :
      (fuel : ℕ) (bodies : List Lines) (w : Walk)
      → ((body : Lines) → Has body bodies → IsReadable x macros body)
      → ((m : String) → lookup m w.visited ≢ some false)
      → OkOrFuel (resolve_bodies x macros fuel bodies w)
  unfolding resolve_bodies
  resolve_bodies-Good fuel [] w r closed = inl (w, refl)
  resolve_bodies-Good fuel (body ∷ bodies) w r closed =
      OkOrFuel-bind w (resolve_fragment_lines x macros (resolve_fragment x macros fuel) body w) _
        (resolve_fragment_lines-Good (resolve_fragment x macros fuel) (resolve_fragment-Good fuel)
          body w (r body (inl refl)) (λ l b h t m o. absurd (closed m o)))
        (λ v kept.
          resolve_bodies-Good fuel bodies v (λ k h. r k (inr h)) (λ m o. closed m (kept m o)))

-- Where no macro calls itself through others, and every `.inline` line of a body or a macro names
-- its target as the regular expression wants, `resolve_fragments` succeeds.
pub resolve_fragments_total :
    (x : Externals) (e : ParseEngine) (rank : String → ℕ)
    → IsRanked x e.macro_name_to_lines rank
    → ((a : String) (lines : Lines)
        → lookup a e.macro_name_to_lines ≡ some lines
        → IsReadable x e.macro_name_to_lines lines)
    → ((body : Lines) → Has body (used_bodies e) → IsReadable x e.macro_name_to_lines body)
    → (e' : ParseEngine) × (resolve_fragments x e ≡ ok e')
unfolding resolve_fragments lookup
resolve_fragments_total x e rank ranked readable bodies =
    elim (resolve_bodies-Good x e.macro_name_to_lines rank ranked readable
      (suc (length e.macro_name_to_lines)) (used_bodies e)
      (record { visited = []; order = e.postorder_fragments }) bodies (λ m h. cc)) [
        | inl (w, done) ↦ (record e { postorder_fragments = w.order }, rw done)
        | inr out ↦ absurd (resolve_fragments_terminates x e (rw out))
      ]
