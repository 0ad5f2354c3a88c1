-- ===== src/Parser/Fragments/Calls.antt =====
-- The calls between macro fragments, and one step of `resolve_fragment` of src/parser.rs.
use tvm_linker.Prelude.{
  Option, none, some, List, [], ◌∷◌, ◌++◌, String, true, false, lookup, insert, Dict, Has,
  string_key, ◌≡◌, subst, ◌⊎◌, inl, inr, ◌↔◌, arith, lookup-insert, ap, sym, ◌∙◌, Has-snoc,
}
use tvm_linker.Outcome.{Result, ok, >>=-eq-ok, ok-injective}
use tvm_linker.Parser.State.{Line, Lines}
use tvm_linker.Parser.Externals.{Externals}
use tvm_linker.Parser.Fragments.{
  Walk, callee, open_mark, close_mark, resolve_callee, resolve_fragment_lines,
}

module _ (x : Externals) (macros : Dict String Lines) where
  -- A line of the macro `a` inlines the macro `b`.
  pub record Calls (a b : String) : Type 0 where
    pub lines : Lines
    pub line : Line
    pub body : lookup a macros ≡ some lines
    pub member : Has line lines
    pub target : callee x macros line ≡ ok (some b)

  -- Behind the names of `seen`, each name is new and stands behind the names that it calls.
  abbrev pub IsOrdered : List String → List String → Type 0
  IsOrdered seen [] = Unit {0}
  IsOrdered seen (n ∷ ns) =
      ¬ Has n seen × ((b : String) → Calls n b → Has b seen) × IsOrdered (n ∷ seen) ns

  IsOrdered-snoc :
      (n : String) (seen xs : List String)
      → IsOrdered seen xs
      → ¬ (Has n seen ⊎ Has n xs)
      → ((b : String) → Calls n b → Has b seen ⊎ Has b xs)
      → IsOrdered seen (xs ++ n ∷ [])
  IsOrdered-snoc n seen [] h fresh known =
      (λ m. fresh (inl m), λ b c. elim (known b c) [ inl m ↦ m | inr m ↦ absurd m ], tt)
  IsOrdered-snoc n seen (y ∷ ys) (new, behind, h) fresh known = (
    new,
    behind,
    IsOrdered-snoc n (y ∷ seen) ys h (λ m. fresh (move m)) (λ b c. back b (known b c)),
  )
    where
      move : Has n (y ∷ seen) ⊎ Has n ys → Has n seen ⊎ Has n (y ∷ ys)
      move (inl (inl e)) = inr (inl e)
      move (inl (inr m)) = inl m
      move (inr m) = inr (inr m)

      back : (b : String) → Has b seen ⊎ Has b (y ∷ ys) → Has b (y ∷ seen) ⊎ Has b ys
      back b (inl m) = inl (inr m)
      back b (inr (inl e)) = inl (inl e)
      back b (inr (inr m)) = inr m

  pub record Inv (w : Walk) : Type 0 where
    pub listed : (m : String) → (lookup m w.visited ≡ some true) ↔ Has m w.order
    pub ordered : IsOrdered [] w.order

  pub record Grows (w w' : Walk) : Type 0 where
    pub kept : (m : String) → lookup m w.visited ≡ some true → lookup m w'.visited ≡ some true
    pub opened : (m : String) → lookup m w.visited ≡ some false → lookup m w'.visited ≡ some false

  pub Grows-refl : (w : Walk) → Grows w w
  Grows-refl w = record { kept = λ m h. h; opened = λ m h. h }

  pub Grows-trans : {u v w : Walk} → Grows u v → Grows v w → Grows u w
  Grows-trans g h = record {
    kept = λ m e. h.kept m (g.kept m e);
    opened = λ m e. h.opened m (g.opened m e);
  }

  abbrev pub Visits : (String → Walk → Result Walk) → Type 0
  Visits visit =
      (n : String) (w w' : Walk)
      → Inv w
      → visit n w ≡ ok w'
      → Inv w' × Grows w w' × (lookup n w'.visited ≡ some true)

  module _ (visit : String → Walk → Result Walk) (good : Visits visit) where
    abbrev Resolved : Option String → Walk → Type 0
    Resolved none w = Unit {0}
    Resolved (some n) w = lookup n w.visited ≡ some true

    resolve_callee_lem :
        (c : Option String) (w w' : Walk)
        → Inv w
        → resolve_callee x macros visit c w ≡ ok w'
        → Inv w' × Grows w w' × Resolved c w'
    unfolding resolve_callee
    resolve_callee_lem none w w' i e =
        subst (λ v. Inv v × Grows w v × Unit {0}) (ok-injective e) (i, Grows-refl w, tt)
    resolve_callee_lem (some n) w w' i e = good n w w' i e

    pub resolve_fragment_lines_lem :
        (lines : Lines) (w w' : Walk)
        → Inv w
        → resolve_fragment_lines x macros visit lines w ≡ ok w'
        → Inv w'
          × Grows w w'
          × ((l : Line) (b : String)
              → Has l lines
              → callee x macros l ≡ ok (some b)
              → lookup b w'.visited ≡ some true)
    unfolding resolve_fragment_lines
    resolve_fragment_lines_lem [] w w' i e =
        let same = ok-injective e in
        (subst Inv same i, subst (Grows w) same (Grows-refl w), λ l b h. absurd h)
    resolve_fragment_lines_lem (l ∷ lines) w w' i e =
        let (c, ec, e1) = >>=-eq-ok (callee x macros l) _ e in
        let (v, ev, e2) = >>=-eq-ok (resolve_callee x macros visit c w) _ e1 in
        let (iv, gv, rv) = resolve_callee_lem c w v i ev in
        let (iw, gw, rw') = resolve_fragment_lines_lem lines v w' iv e2 in
        (
          iw,
          Grows-trans gv gw,
          λ k b h ek. elim h [
            | inl same ↦
                first b c v w' rv gw (ok-injective (sym ec ∙ ap (callee x macros) (sym same) ∙ ek))
            | inr m ↦ rw' k b m ek
          ],
        )
      where
        first :
            (b : String) (c : Option String) (v w' : Walk)
            → Resolved c v
            → Grows v w'
            → c ≡ some b
            → lookup b w'.visited ≡ some true
        first b none v w' r g same = cc
        first b (some n) v w' r g same = g.kept b (subst (λ c. Resolved c v) same r)

  pub Inv-open :
      (name : String) (w : Walk)
      → lookup name w.visited ≡ none
      → Inv w
      → Inv (open_mark x macros name w)
  unfolding open_mark
  Inv-open name w fresh i = record {
    listed = λ m.
        ground (arith, i.listed m, lookup-insert name m false w.visited, string_key.beq_iff name m);
    ordered = i.ordered;
  }

  -- The whole step of `resolve_fragment` for a name that was not yet visited.
  pub Inv-close :
      (name : String) (w v : Walk)
      → lookup name w.visited ≡ none
      → Inv w
      → Inv v
      → Grows (open_mark x macros name w) v
      → ((b : String) → Calls name b → lookup b v.visited ≡ some true)
      → Inv (close_mark x macros name v)
        × Grows w (close_mark x macros name v)
        × (lookup name (close_mark x macros name v).visited ≡ some true)
  unfolding open_mark close_mark
  Inv-close name w v fresh i iv g known = (
    record {
      listed = λ m. ground (
        arith,
        iv.listed m,
        Has-snoc m name v.order,
        lookup-insert name m true v.visited,
        string_key.beq_iff name m,
      );
      ordered =
          IsOrdered-snoc name [] v.order iv.ordered
            (λ h. elim h [ inl m ↦ absurd m | inr m ↦ clash ((iv.listed name).1 m) ])
            (λ b c. inr ((iv.listed b).0 (known b c)));
    },
    record { kept = kept; opened = opened },
    ground (arith, lookup-insert name name true v.visited, string_key.beq_iff name name),
  )
    where
      held : lookup name v.visited ≡ some false
      held =
          g.opened name
            (ground (arith, lookup-insert name name false w.visited, string_key.beq_iff name name))

      clash : lookup name v.visited ≡ some true → ⊥
      clash h = cc (held)

      kept :
          (m : String)
          → lookup m w.visited ≡ some true
          → lookup m (insert name true v.visited) ≡ some true
      kept m h = ground (
        arith,
        g.kept m,
        lookup-insert name m false w.visited,
        lookup-insert name m true v.visited,
        string_key.beq_iff name m,
      )

      opened :
          (m : String)
          → lookup m w.visited ≡ some false
          → lookup m (insert name true v.visited) ≡ some false
      opened m h = ground (
        arith,
        g.opened m,
        lookup-insert name m false w.visited,
        lookup-insert name m true v.visited,
        string_key.beq_iff name m,
      )
