-- ===== src/Parser/Fragments/Order.antt =====
-- The order of the macros that `resolve_fragments` of src/parser.rs lists.
use tvm_linker.Prelude.{
  ℕ, zero, suc, Option, none, some, List, [], ◌∷◌, String, Bool, true, false, lookup, Dict, Has,
  length, string_key, ◌≡◌, refl, subst, ◌⊎◌, inl, inr, Option-cases, sym, ◌∙◌, some-eq,
}
use tvm_linker.Outcome.{ok, >>=-eq-ok, ok-injective}
use tvm_linker.Parser.State.{Line, Lines, ParseEngine}
use tvm_linker.Parser.Externals.{Externals}
use tvm_linker.Parser.Fragments.{
  Walk, callee, open_mark, resolve_fragment, resolve_bodies, used_bodies, resolve_fragments,
}
use tvm_linker.Parser.Fragments.Calls.{
  Calls, IsOrdered, Inv, Grows, Grows-refl, Grows-trans, Visits, resolve_fragment_lines_lem,
  Inv-open, Inv-close,
}

pub Mark-cases : (o : Option Bool) → (o ≡ none) ⊎ ((o ≡ some false) ⊎ (o ≡ some true))
Mark-cases none = inl refl
Mark-cases (some false) = inr (inl refl)
Mark-cases (some true) = inr (inr refl)

module _ (x : Externals) (macros : Dict String Lines) where
  pub resolve_fragment_lem : (fuel : ℕ) → Visits x macros (resolve_fragment x macros fuel)
  unfolding resolve_fragment
  resolve_fragment_lem zero n w w' i e = cc
  resolve_fragment_lem (suc fuel) n w w' i e = elim (Mark-cases (lookup n w.visited)) [
    | inl fresh ↦ elim (Option-cases (lookup n macros)) [
      | inl missing ↦ cc (rw (fresh, missing, resolve_fragment) at e)
      | inr (lines, found) ↦
          let (v, walked, closed) = >>=-eq-ok _ _ (rw (fresh, found, resolve_fragment) at e) in
          let (iv, g, called) =
            resolve_fragment_lines_lem x macros (resolve_fragment x macros fuel)
              (resolve_fragment_lem fuel) lines (open_mark x macros n w) v
              (Inv-open x macros n w fresh i) walked in
          subst (λ u. Inv x macros u × Grows x macros w u × (lookup n u.visited ≡ some true))
            (ok-injective closed)
            (Inv-close x macros n w v fresh i iv g λ b c.
              called c.line b (subst (Has c.line) (some-eq (sym c.body ∙ found)) c.member) c.target)
    ]
    | inr (inl held) ↦ cc (rw (held, resolve_fragment) at e)
    | inr (inr done) ↦
        let same = ok-injective (rw (done, resolve_fragment) at e) in
        subst (λ u. Inv x macros u × Grows x macros w u × (lookup n u.visited ≡ some true)) same
          (i, Grows-refl x macros w, done)
  ]

  pub resolve_bodies_lem :
      (fuel : ℕ) (bodies : List Lines) (w w' : Walk)
      → Inv x macros w
      → resolve_bodies x macros fuel bodies w ≡ ok w'
      → Inv x macros w'
        × Grows x macros w w'
        × ((body : Lines) (l : Line) (b : String)
            → Has body bodies
            → Has l body
            → callee x macros l ≡ ok (some b)
            → lookup b w'.visited ≡ some true)
  unfolding resolve_bodies
  resolve_bodies_lem fuel [] w w' i e =
      let same = ok-injective e in
      (
        subst (Inv x macros) same i,
        subst (Grows x macros w) same (Grows-refl x macros w),
        λ body l b h. absurd h,
      )
  resolve_bodies_lem fuel (body ∷ bodies) w w' i e =
      let (v, ev, e1) = >>=-eq-ok _ _ e in
      let (iv, gv, rv) =
        resolve_fragment_lines_lem x macros (resolve_fragment x macros fuel)
          (resolve_fragment_lem fuel) body w v i ev in
      let (iw, gw, rw') = resolve_bodies_lem fuel bodies v w' iv e1 in
      (
        iw,
        Grows-trans x macros gv gw,
        λ k l b h m t. elim h [
          | inl same ↦ gw.kept b (rv l b (subst (Has l) same m) t)
          | inr later ↦ rw' k l b later m t
        ],
      )

-- A macro that a function's body inlines, directly or through other macros.
pub data Used (x : Externals) (e : ParseEngine) : String → Type 0 where
  direct :
      {b : String} (body : Lines) (l : Line)
      → Has body (used_bodies e)
      → Has l body
      → callee x e.macro_name_to_lines l ≡ ok (some b)
      → Used x e b
  through : {a b : String} → Used x e a → Calls x e.macro_name_to_lines a b → Used x e b

module _ (x : Externals) (e e' : ParseEngine) where
  walked :
      e.postorder_fragments ≡ []
      → resolve_fragments x e ≡ ok e'
      → (w : Walk) × (e' ≡ record e { postorder_fragments = w.order })
        × Inv x e.macro_name_to_lines w
        × ((body : Lines) (l : Line) (b : String)
            → Has body (used_bodies e)
            → Has l body
            → callee x e.macro_name_to_lines l ≡ ok (some b)
            → lookup b w.visited ≡ some true)
  unfolding resolve_fragments lookup
  walked empty h =
      let (w, ew, last) = >>=-eq-ok _ _ h in
      let (i, g, used) =
        resolve_bodies_lem x e.macro_name_to_lines (suc (length e.macro_name_to_lines))
          (used_bodies e) (record { visited = []; order = e.postorder_fragments }) w start ew in
      (w, sym (ok-injective last), i, used)
    where
      start : Inv x e.macro_name_to_lines (record { visited = []; order = e.postorder_fragments })
      start = record { listed = λ m. rw empty (λ c. cc, λ c. absurd c); ordered = rw empty tt }

-- Where the fragments are resolved on an engine with none listed, the list holds no name twice and
-- each macro stands behind every macro that its own lines inline.
pub resolve_fragments-IsOrdered :
    (x : Externals) (e e' : ParseEngine)
    → e.postorder_fragments ≡ []
    → resolve_fragments x e ≡ ok e'
    → IsOrdered x e.macro_name_to_lines [] e'.postorder_fragments
resolve_fragments-IsOrdered x e e' empty h =
    let (w, same, i, used) = walked x e e' empty h in
    subst (λ u. IsOrdered x e.macro_name_to_lines [] u.postorder_fragments) (sym same) i.ordered

IsOrdered-closed :
    (x : Externals) (macros : Dict String Lines) (a b : String) (seen xs : List String)
    → IsOrdered x macros seen xs
    → Has a xs
    → Calls x macros a b
    → Has b seen ⊎ Has b xs
IsOrdered-closed x macros a b seen [] h m c = absurd m
IsOrdered-closed x macros a b seen (n ∷ ns) (new, behind, h) (inl same) c =
    inl (behind b (subst (λ k. Calls x macros k b) same c))
IsOrdered-closed x macros a b seen (n ∷ ns) (new, behind, h) (inr m) c =
    elim (IsOrdered-closed x macros a b (n ∷ seen) ns h m c) [
      | inl (inl same) ↦ inr (inl same)
      | inl (inr old) ↦ inl old
      | inr later ↦ inr (inr later)
    ]

-- Where the fragments are resolved on an engine with none listed, every macro that a function's
-- body inlines, directly or through other macros, is listed.
pub resolve_fragments-complete :
    (x : Externals) (e e' : ParseEngine) (b : String)
    → e.postorder_fragments ≡ []
    → resolve_fragments x e ≡ ok e'
    → Used x e b
    → Has b e'.postorder_fragments
resolve_fragments-complete x e e' b empty h (direct body l m k t) =
    let (w, same, i, used) = walked x e e' empty h in
    subst (λ u. Has b u.postorder_fragments) (sym same) ((i.listed b).0 (used body l b m k t))
resolve_fragments-complete x e e' b empty h (through {a} u c) =
    elim (IsOrdered-closed x e.macro_name_to_lines a b [] e'.postorder_fragments
      (resolve_fragments-IsOrdered x e e' empty h) (resolve_fragments-complete x e e' a empty h u)
      c) [ inl none_seen ↦ absurd none_seen | inr m ↦ m ]
