-- ===== src/Samples/Fragments.antt =====
-- `resolve_fragments` of src/parser.rs on two macros, of which one inlines the other.
use tvm_linker.Prelude.{
  ℕ, ◌∷◌, [], none, some, String, lookup, Dict, string_key, ◌≡◌, refl, ◌≢◌, Has, inl, inr, ap, sym,
  ◌∙◌, subst, some-eq, ◌⊎◌, pos, arith, starts_with, insert, ◌<◌, if◌then◌else◌,
}
use tvm_linker.Outcome.{ok, ok-injective, err, out_of_fuel}
use tvm_linker.Abi.{is_some}
use tvm_linker.Parser.State.{Line, Lines, ParseEngine, blank_engine, func}
use tvm_linker.Parser.Fragments.{
  callee, open_mark, close_mark, resolve_callee, resolve_fragment_lines, resolve_fragment,
  resolve_bodies, function_bodies, internal_bodies, used_bodies, resolve_fragments,
}
use tvm_linker.Parser.Fragments.Calls.{Calls, IsOrdered}
use tvm_linker.Parser.Fragments.Order.{
  Used, direct, through, resolve_fragments-IsOrdered, resolve_fragments-complete,
}
use tvm_linker.Parser.Fragments.Termination.{resolve_fragments_terminates}
use tvm_linker.Parser.Fragments.Cycles.{IsRanked, IsReadable, resolve_fragments_total}
use tvm_linker.Samples.Inputs.{captures, line, procedure}

abbrev macros : Dict String Lines
macros = ("inner", line "NOP\n" ∷ []) ∷ ("outer", line ".inline __inner\n" ∷ []) ∷ []

abbrev body : Lines
body = line ".inline __outer\n" ∷ []

unfoldable before : ParseEngine
unfolding blank_engine
before = record blank_engine {
  macro_name_to_lines = macros;
  internal_id_to_code = (pos 3, procedure 0 [] body) ∷ [];
}

unfoldable after : ParseEngine
unfolding before
after = record before { postorder_fragments = "inner" ∷ "outer" ∷ [] }

before-after : resolve_fragments captures before ≡ ok after
unfolding resolve_fragments resolve_bodies resolve_fragment resolve_fragment_lines resolve_callee
    close_mark open_mark callee used_bodies function_bodies internal_bodies before after starts_with
    is_some lookup insert func blank_engine
before-after = refl

before-empty : before.postorder_fragments ≡ []
unfolding before blank_engine
before-empty = refl

resolve_fragments-IsOrdered_example :
    IsOrdered captures before.macro_name_to_lines [] after.postorder_fragments
resolve_fragments-IsOrdered_example =
    resolve_fragments-IsOrdered captures before after before-empty before-after

outer-Used : Used captures before "outer"
unfolding before used_bodies function_bodies internal_bodies callee is_some starts_with lookup
    blank_engine
outer-Used = direct body (line ".inline __outer\n") (inl refl) (inl refl) refl

outer-Calls : Calls captures before.macro_name_to_lines "outer" "inner"
unfolding before callee is_some starts_with lookup
outer-Calls = record {
  lines = line ".inline __inner\n" ∷ [];
  line = line ".inline __inner\n";
  body = refl;
  member = inl refl;
  target = refl;
}

resolve_fragments-complete_example : Has "inner" after.postorder_fragments
resolve_fragments-complete_example =
    resolve_fragments-complete captures before after "inner" before-empty before-after
      (through outer-Used outer-Calls)

resolve_fragments_terminates_example : resolve_fragments captures before ≢ err out_of_fuel
resolve_fragments_terminates_example = resolve_fragments_terminates captures before

abbrev rank : String → ℕ
rank n = if string_key.beq n "outer" then 1 else 0

outer_lines :
    (a : String) (lines : Lines)
    → lookup a before.macro_name_to_lines ≡ some lines
    → (lines ≡ line "NOP\n" ∷ []) ⊎ ((lines ≡ line ".inline __inner\n" ∷ []) × (rank a ≡ 1))
unfolding before lookup
outer_lines a lines h = ground (arith, string_key.beq_iff "outer" a, string_key.beq_iff a "outer")

callee-nop : callee captures before.macro_name_to_lines (line "NOP\n") ≡ ok none
unfolding callee starts_with
callee-nop = refl

callee-inner :
    callee captures before.macro_name_to_lines (line ".inline __inner\n") ≡ ok (some "inner")
unfolding callee starts_with before lookup is_some
callee-inner = refl

callee-outer :
    callee captures before.macro_name_to_lines (line ".inline __outer\n") ≡ ok (some "outer")
unfolding callee starts_with before lookup is_some
callee-outer = refl

Has-one : (l k : Line) (lines : Lines) → Has l lines → lines ≡ k ∷ [] → l ≡ k
Has-one l k lines m e = only (subst (Has l) e m)
  where
    only : Has l (k ∷ []) → l ≡ k
    only (inl same) = same
    only (inr none_left) = absurd none_left

before-IsReadable :
    (a : String) (lines : Lines)
    → lookup a before.macro_name_to_lines ≡ some lines
    → IsReadable captures before.macro_name_to_lines lines
before-IsReadable a lines h l m = elim (outer_lines a lines h) [
  | inl e ↦
      (none, ap (callee captures before.macro_name_to_lines) (Has-one l _ lines m e) ∙ callee-nop)
  | inr (e, r) ↦ (
    some "inner",
    ap (callee captures before.macro_name_to_lines) (Has-one l _ lines m e) ∙ callee-inner,
  )
]

body-IsReadable :
    (lines : Lines)
    → Has lines (used_bodies before)
    → IsReadable captures before.macro_name_to_lines lines
unfolding before used_bodies function_bodies internal_bodies blank_engine
body-IsReadable lines (inl e) l m = (
  some "outer",
  ap (callee captures before.macro_name_to_lines) (Has-one l _ lines m e) ∙ callee-outer,
)
body-IsReadable lines (inr n) l m = absurd n

before-IsRanked : IsRanked captures before.macro_name_to_lines rank
before-IsRanked a b c = elim (outer_lines a c.lines c.body) [
  | inl e ↦
      let same = Has-one c.line _ c.lines c.member e in
      let none_called =
        sym callee-nop ∙ ap (callee captures before.macro_name_to_lines) (sym same) ∙ c.target in
      cc none_called
  | inr (e, r) ↦
      let same = Has-one c.line _ c.lines c.member e in
      let called : ok (some "inner") ≡ ok (some b) =
        sym callee-inner ∙ ap (callee captures before.macro_name_to_lines) (sym same) ∙ c.target in
      let inner : "inner" ≡ b = some-eq (ok-injective called) in
      subst (λ n. rank n < rank a) inner (omega (arith, r))
]

resolve_fragments_total_example : (e : ParseEngine) × (resolve_fragments captures before ≡ ok e)
resolve_fragments_total_example =
    resolve_fragments_total captures before rank before-IsRanked before-IsReadable body-IsReadable
