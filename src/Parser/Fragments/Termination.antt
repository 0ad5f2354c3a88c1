-- ===== src/Parser/Fragments/Termination.antt =====
-- The recursion of `resolve_fragments` of src/parser.rs, by the macros that are still unvisited.
use tvm_linker.Prelude.{
  ℕ, zero, suc, ◌≤◌, ◌<◌, Option, none, some, List, [], ◌∷◌, String, Bool, true, false, lookup,
  insert, Dict, length, string_key, ap, ◌≡◌, ◌≢◌, inl, inr, Bool-cases, sym, subst, Option-cases,
  arith, lookup-insert, if◌then◌else◌, is_none,
}
use tvm_linker.Outcome.{out_of_fuel, Result, ok, err, ◌>>=◌}
use tvm_linker.Parser.State.{Line, Lines, ParseEngine}
use tvm_linker.Parser.Externals.{Externals}
use tvm_linker.Parser.Fragments.{
  Walk, callee, open_mark, close_mark, resolve_callee, resolve_fragment_lines, resolve_fragment,
  resolve_bodies, used_bodies, resolve_fragments,
}
use tvm_linker.Parser.Fragments.Order.{Mark-cases}

-- The macros that were not yet visited.
abbrev unvisited : Dict String Lines → Dict String Bool → ℕ
unvisited [] visited = 0
unvisited ((n, _) ∷ macros) visited =
    if is_none (lookup n visited) then suc (unvisited macros visited) else unvisited macros visited

unvisited-insert-le :
    (macros : Dict String Lines) (n : String) (b : Bool) (visited : Dict String Bool)
    → unvisited macros (insert n b visited) ≤ unvisited macros visited
unvisited-insert-le [] n b visited = omega arith
unvisited-insert-le ((m, _) ∷ macros) n b visited =
    ground (arith, lookup-insert n m b visited, unvisited-insert-le macros n b visited)

unvisited-insert-lt :
    (macros : Dict String Lines) (n : String) (b : Bool) (visited : Dict String Bool)
    {lines : Lines}
    → lookup n macros ≡ some lines
    → lookup n visited ≡ none
    → unvisited macros (insert n b visited) < unvisited macros visited
unfolding lookup
unvisited-insert-lt [] n b visited h fresh = cc
unvisited-insert-lt ((m, body) ∷ macros) n b visited h fresh =
    elim (Bool-cases (string_key.beq m n)) [
      | inl same ↦
          let e = (string_key.beq_iff m n).0 same in
          ground (
            arith,
            (string_key.beq_iff n m).1 (sym e),
            subst (λ k. lookup k visited ≡ none) (sym e) fresh,
            lookup-insert n m b visited,
            unvisited-insert-le macros n b visited,
          )
      | inr other ↦
          let later = unvisited-insert-lt macros n b visited (rw other at h) fresh in
          ground (arith, lookup-insert n m b visited, later)
    ]

unvisited-le :
    (macros : Dict String Lines) (visited : Dict String Bool)
    → unvisited macros visited ≤ length macros
unvisited-le [] visited = omega arith
unvisited-le ((m, _) ∷ macros) visited = ground (arith, unvisited-le macros visited)

module _ (x : Externals) (macros : Dict String Lines) where
  -- A result that is no time-out, and that leaves at most `k` macros to visit.
  abbrev Ends : ℕ → Result Walk → Type 0
  Ends k (ok w) = unvisited macros w.visited ≤ k
  Ends k (err e) = e ≢ out_of_fuel

  abbrev left_over : Walk → ℕ
  left_over w = unvisited macros w.visited

  Ends-bind :
      (k : ℕ) (m : Result Walk) (f : Walk → Result Walk)
      → Ends k m
      → ((w : Walk) → left_over w ≤ k → Ends k (f w))
      → Ends k (m >>= f)
  Ends-bind k (ok w) f h next = next w h
  Ends-bind k (err e) f h next = h

  callee-ne : (l : Line) → callee x macros l ≢ err out_of_fuel
  unfolding callee
  callee-ne l h = ground arith

  module _ (k : ℕ) (visit : String → Walk → Result Walk)
      (ends : (n : String) (w : Walk) → left_over w ≤ k → Ends k (visit n w)) where
    resolve_callee-Ends :
        (c : Option String) (w : Walk)
        → left_over w ≤ k
        → Ends k (resolve_callee x macros visit c w)
    unfolding resolve_callee
    resolve_callee-Ends none w h = h
    resolve_callee-Ends (some n) w h = ends n w h

    line-Ends :
        (r : Result (Option String)) (f : Walk → Result Walk) (w : Walk)
        → left_over w ≤ k
        → r ≢ err out_of_fuel
        → ((v : Walk) → left_over v ≤ k → Ends k (f v))
        → Ends k (r >>= λ c. resolve_callee x macros visit c w >>= f)
    line-Ends (ok c) f w h good next =
        Ends-bind k (resolve_callee x macros visit c w) f (resolve_callee-Ends c w h) next
    line-Ends (err e) f w h good next = λ same. good (ap err same)

    resolve_fragment_lines-Ends :
        (lines : Lines) (w : Walk)
        → left_over w ≤ k
        → Ends k (resolve_fragment_lines x macros visit lines w)
    unfolding resolve_fragment_lines
    resolve_fragment_lines-Ends [] w h = h
    resolve_fragment_lines-Ends (l ∷ lines) w h =
        line-Ends (callee x macros l) _ w h (callee-ne l) (resolve_fragment_lines-Ends lines)

  Ends-mono : (j k : ℕ) (r : Result Walk) → j ≤ k → Ends j r → Ends k r
  Ends-mono j k (ok w) h e = omega arith
  Ends-mono j k (err why) h e = e

  close-Ends :
      (k : ℕ) (n : String) (w : Walk) → left_over w ≤ k → Ends k (ok (close_mark x macros n w))
  unfolding close_mark
  close-Ends k n w h = omega (arith, unvisited-insert-le macros n true w.visited)

  open-lt :
      (n : String) (w : Walk) {lines : Lines}
      → lookup n macros ≡ some lines
      → lookup n w.visited ≡ none
      → left_over (open_mark x macros n w) < left_over w
  unfolding open_mark
  open-lt n w found fresh = unvisited-insert-lt macros n false w.visited found fresh

  descend :
      (fuel : ℕ) (n : String) (w : Walk) (k : ℕ) (lines : Lines)
      → left_over (open_mark x macros n w) < left_over w
      → k < suc fuel
      → left_over w ≤ k
      → ((j : ℕ)
          → j < fuel
          → (m : String) (v : Walk) → left_over v ≤ j
          → Ends j (resolve_fragment x macros fuel m v))
      → Ends k (
          resolve_fragment_lines x macros
            (resolve_fragment x macros fuel)
            lines
            (open_mark x macros n w)
          >>= λ w'. ok (close_mark x macros n w'))
  descend fuel n w zero lines lt h left deeper = absurd (omega arith)
  descend fuel n w (suc k) lines lt h left deeper =
      Ends-bind (suc k) _ _
        (Ends-mono k (suc k) _ (omega arith) (
          resolve_fragment_lines-Ends k (resolve_fragment x macros fuel) (deeper k (omega arith))
            lines _ (omega arith)))
        (close-Ends (suc k) n)

  -- More fuel than macros left to visit is enough.
  resolve_fragment-Ends :
      (k fuel : ℕ) (n : String) (w : Walk)
      → k < fuel
      → left_over w ≤ k
      → Ends k (resolve_fragment x macros fuel n w)
  unfolding resolve_fragment
  resolve_fragment-Ends k zero n w h left = absurd (omega arith)
  resolve_fragment-Ends k (suc fuel) n w h left = elim (Mark-cases (lookup n w.visited)) [
    | inl fresh ↦ elim (Option-cases (lookup n macros)) [
      | inl missing ↦ rw (fresh, missing, resolve_fragment) (λ e. cc)
      | inr (lines, found) ↦
          rw (fresh, found, resolve_fragment)
            (descend fuel n w k lines (open-lt n w found fresh) h left
              λ j lt m v. resolve_fragment-Ends j fuel m v lt)
    ]
    | inr (inl held) ↦ rw (held, resolve_fragment) (λ e. cc)
    | inr (inr done) ↦ rw (done, resolve_fragment) left
  ]

  resolve_bodies-Ends :
      (k : ℕ) (bodies : List Lines) (w : Walk)
      → left_over w ≤ k
      → Ends k (resolve_bodies x macros (suc k) bodies w)
  unfolding resolve_bodies
  resolve_bodies-Ends k [] w h = h
  resolve_bodies-Ends k (body ∷ bodies) w h =
      Ends-bind k _ _
        (resolve_fragment_lines-Ends k (resolve_fragment x macros (suc k))
          (λ n v. resolve_fragment-Ends k (suc k) n v (omega arith)) body w h)
        (resolve_bodies-Ends k bodies)

  pub Ends-ne :
      (k : ℕ) (r : Result Walk) {A : Type 0} (f : Walk → Result A)
      → ((w : Walk) → f w ≢ err out_of_fuel)
      → Ends k r
      → (r >>= f) ≢ err out_of_fuel
  Ends-ne k (ok w) f good h = good w
  Ends-ne k (err e) f good h = λ same. h (ground arith)

-- With one more unit of fuel than there are macros `resolve_fragments` never runs out of fuel,
-- whatever the engine holds, cyclic macros included.
pub resolve_fragments_terminates :
    (x : Externals) (e : ParseEngine) → resolve_fragments x e ≢ err out_of_fuel
unfolding resolve_fragments
resolve_fragments_terminates x e =
    Ends-ne x e.macro_name_to_lines (length e.macro_name_to_lines) _ _ (λ w same. cc)
      (resolve_bodies-Ends x e.macro_name_to_lines (length e.macro_name_to_lines) (used_bodies e) _
        (unvisited-le e.macro_name_to_lines []))
