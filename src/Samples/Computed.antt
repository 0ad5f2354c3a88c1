-- ===== src/Samples/Computed.antt =====
-- `compute_cell` of src/parser.rs on a macro that computes another, and on one that computes itself.
use tvm_linker.Prelude.{
  ℕ, ◌<◌, ◌∷◌, [], none, some, some-eq, String, if◌then◌else◌, Dict, lookup, insert, string_key,
  ◌≡◌, ◌≢◌, refl, sym, subst, Has, inl, inr, ◌⊎◌, arith,
}
use tvm_linker.Outcome.{ok, err, out_of_fuel}
use tvm_linker.Parser.State.{Line, Lines, ParseEngine, blank_engine}
use tvm_linker.Parser.Cell.{cell, no_cells}
use tvm_linker.Parser.Externals.{Externals}
use tvm_linker.Parser.Compute.{
  encode_computed_cell, encode_references, collect, run_collected, compute_cell,
}
use tvm_linker.Parser.Compute.Cycles.{
  Computes, ComputesFirst, compute_cell_terminates, compute_cell_diverges,
}
use tvm_linker.Parser.Compute.Cache.{compute_cell_again}
use tvm_linker.Samples.Inputs.{captures, line}

abbrev computing : Externals
computing = record captures {
  compute = λ l. lookup l ((".compute $leaf$\n", "leaf") ∷ (".compute $knot$\n", "knot") ∷ []);
  execute = λ lines. some (cell "0a" no_cells);
}

abbrev macros : Dict String Lines
macros = ("leaf", line "NEWC\n" ∷ []) ∷ ("tree", line "NOP\n" ∷ line ".compute $leaf$\n" ∷ []) ∷ []

unfoldable before : ParseEngine
unfolding blank_engine
before = record blank_engine { macro_name_to_lines = macros }

abbrev blob : Lines
blob =
    computing.new_line "{\n" "" 0
    ∷ computing.new_line ".blob x0a\n" "" 0
    ∷ computing.new_line "}\n" "" 0
    ∷ []

unfoldable after : ParseEngine
unfolding before
after = record before { computed = ("leaf", blob) ∷ ("tree", blob) ∷ [] }

before-after : compute_cell computing 2 "tree" before ≡ ok (blob, after)
unfolding compute_cell collect run_collected encode_computed_cell encode_references lookup insert
    before after blank_engine
before-after = refl

compute_cell_again_example : compute_cell computing 1 "tree" after ≡ ok (blob, after)
compute_cell_again_example = compute_cell_again computing 2 0 "tree" before after blob before-after

abbrev rank : String → ℕ
rank n = if string_key.beq n "tree" then 1 else 0

tree_lines :
    (a : String) (lines : Lines)
    → lookup a macros ≡ some lines
    → (lines ≡ line "NEWC\n" ∷ [])
      ⊎ ((lines ≡ line "NOP\n" ∷ line ".compute $leaf$\n" ∷ []) × (rank a ≡ 1))
unfolding lookup
tree_lines a lines h = ground (arith, string_key.beq_iff "tree" a, string_key.beq_iff a "tree")

tree-target :
    (l : Line) (b : String)
    → Has l (line "NOP\n" ∷ line ".compute $leaf$\n" ∷ [])
    → computing.compute l.text ≡ some b
    → b ≡ "leaf"
unfolding lookup
tree-target l b (inl first) h = cc (subst (λ k. computing.compute k.text ≡ some b) first h)
tree-target l b (inr (inl next)) h =
    sym (some-eq (subst (λ k. computing.compute k.text ≡ some b) next h))
tree-target l b (inr (inr others)) h = absurd others

leaf-target :
    (l : Line) (b : String) → Has l (line "NEWC\n" ∷ []) → computing.compute l.text ≢ some b
unfolding lookup
leaf-target l b (inl first) h = cc (subst (λ k. computing.compute k.text ≡ some b) first h)
leaf-target l b (inr others) h = absurd others

macros-ranked : (a b : String) → Computes computing macros a b → rank b < rank a
macros-ranked a b c = elim (tree_lines a c.lines c.body) [
  | inl e ↦ absurd (leaf-target c.line b (subst (Has c.line) e c.member) c.target)
  | inr (e, r) ↦
      let leaf = tree-target c.line b (subst (Has c.line) e c.member) c.target in
      subst (λ n. rank n < rank a) (sym leaf) (omega (arith, r))
]

before-macros : before.macro_name_to_lines ≡ macros
unfolding before blank_engine
before-macros = refl

compute_cell_terminates_example : compute_cell computing 2 "tree" before ≢ err out_of_fuel
compute_cell_terminates_example =
    compute_cell_terminates computing macros rank macros-ranked 2 "tree" before (omega arith)
      before-macros

unfoldable knotted : ParseEngine
unfolding blank_engine
knotted = record blank_engine {
  macro_name_to_lines = ("knot", line "NOP\n" ∷ line ".compute $knot$\n" ∷ []) ∷ [];
}

no-target : (l : Line) → Has l (line "NOP\n" ∷ []) → computing.compute l.text ≡ none
unfolding lookup
no-target l (inl first) = rw first refl
no-target l (inr others) = absurd others

knot-ComputesFirst : ComputesFirst computing knotted "knot" "knot"
unfolding knotted blank_engine lookup
knot-ComputesFirst = record {
  plain = line "NOP\n" ∷ [];
  line = line ".compute $knot$\n";
  rest = [];
  new = refl;
  body = refl;
  no_target = no-target;
  target = refl;
}

knot-next :
    (a : String) → a ≡ "knot" → (b : String) × ((b ≡ "knot") × ComputesFirst computing knotted a b)
knot-next a h = (
  "knot",
  (refl, subst (λ n. ComputesFirst computing knotted n "knot") (sym h) knot-ComputesFirst),
)

compute_cell_diverges_example : compute_cell computing 100 "knot" knotted ≡ err out_of_fuel
compute_cell_diverges_example =
    compute_cell_diverges computing (λ n. n ≡ "knot") knotted knot-next 100 "knot" refl
