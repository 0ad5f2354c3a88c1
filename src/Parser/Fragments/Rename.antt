-- ===== src/Parser/Fragments/Rename.antt =====
-- What `compat_rename_all_macro_calls` of src/parser.rs makes of the bodies.
pub mod Settled
use tvm_linker.Prelude.{
  ◌≡◌, refl, sym, ap, subst, ◌∙◌, [], ◌∷◌, String, true, false, some, some-eq, Dict, Bool-cases,
  Option-cases, starts_with, is_prefix, trim_start, codes, str_append, ◌⊎◌, inl, inr,
}
use Prim.Native.String.append
use tvm_linker.Outcome.{Result, ok, >>=-eq-ok, ok-injective}
use tvm_linker.Parser.State.{
  Line, Lines, InternalFunc, Object, Data, ObjectType, function, untyped, object, ParseEngine,
}
use tvm_linker.Parser.Externals.{Externals}
use tvm_linker.Parser.Fragments.{
  map_values, rename_line, compat_rename_macro_calls, rename_func, rename_object,
  compat_rename_all_macro_calls,
}
use tvm_linker.Parser.Fragments.Rename.Settled.{
  Type-cases, compat_rename_all_macro_calls_idempotent,
}

-- The same keys in the same order, with related values.
abbrev pub AllRelated : {K V : Type 0} → (V → V → Type 0) → Dict K V → Dict K V → Type 0
AllRelated R [] [] = Unit {0}
AllRelated R [] (b ∷ n) = ⊥
AllRelated R (a ∷ m) [] = ⊥
AllRelated R ((k, v) ∷ m) ((j, w) ∷ n) = (k ≡ j) × (R v w × AllRelated R m n)

map_values-AllRelated :
    {K V : Type 0} (f : V → Result V) (R : V → V → Type 0)
    → ((v w : V) → f v ≡ ok w → R v w)
    → (m n : Dict K V) → map_values f m ≡ ok n
    → AllRelated R m n
unfolding map_values
map_values-AllRelated f R each [] n h = subst (AllRelated R []) (ok-injective h) tt
map_values-AllRelated f R each ((k, v) ∷ m) n h =
    let (w, first, rest) = >>=-eq-ok (f v) _ h in
    let (others, done, last) = >>=-eq-ok (map_values f m) _ rest in
    subst (AllRelated R ((k, v) ∷ m)) (ok-injective last)
      (refl, (each v w first, map_values-AllRelated f R each m others done))

module _ (x : Externals) where
  -- The old call of a macro, and its new form at the same position.
  pub record IsCall (l m : Line) : Type 0 where
    pub old : starts_with l.text "CALL $" ≡ true
    pub name : String
    pub captured : x.call l.text ≡ some name
    pub text : m.text ≡ str_append ".inline __" (str_append name "\n")
    pub position : m.pos ≡ l.pos

  -- Line by line, an old call has its new form and every other line is the same.
  abbrev pub Renames : Lines → Lines → Type 0
  Renames [] [] = Unit {0}
  Renames [] (m ∷ ms) = ⊥
  Renames (l ∷ ls) [] = ⊥
  Renames (l ∷ ls) (m ∷ ms) =
      (IsCall l m ⊎ ((starts_with l.text "CALL $" ≡ false) × (m ≡ l))) × Renames ls ms

  abbrev pub RenamesFunc : InternalFunc → InternalFunc → Type 0
  RenamesFunc f g = Renames f.body g.body × (g ≡ record f { body = g.body })

  abbrev pub RenamesType : ObjectType → ObjectType → Type 0
  RenamesType (function f) (function g) = RenamesFunc f g
  RenamesType (function f) untyped = ⊥
  RenamesType (function f) (object d) = ⊥
  RenamesType untyped t = t ≡ untyped
  RenamesType (object d) t = t ≡ object d

  abbrev pub RenamesObject : Object → Object → Type 0
  RenamesObject o p = RenamesType o.dtype p.dtype × (p ≡ record o { dtype = p.dtype })

  -- All bodies of an engine, and nothing else.
  pub record IsRenamed (e e' : ParseEngine) : Type 0 where
    pub objects : AllRelated RenamesObject e.globl_name_to_object e'.globl_name_to_object
    pub internals : AllRelated RenamesFunc e.internal_id_to_code e'.internal_id_to_code
    pub macros : AllRelated Renames e.macro_name_to_lines e'.macro_name_to_lines
    pub rest : e' ≡ record e {
      globl_name_to_object = e'.globl_name_to_object;
      internal_id_to_code = e'.internal_id_to_code;
      macro_name_to_lines = e'.macro_name_to_lines;
    }

  rename_line-Renames :
      (l m : Line)
      → rename_line x l ≡ ok m
      → IsCall l m ⊎ ((starts_with l.text "CALL $" ≡ false) × (m ≡ l))
  unfolding rename_line
  rename_line-Renames l m h = elim (Bool-cases (starts_with l.text "CALL $")) [
    | inl old ↦ elim (Option-cases (x.call l.text)) [
      | inl unread ↦ cc (rw (old, unread) at h)
      | inr (name, read) ↦
          let e : ok (record l { text = str_append ".inline __" (str_append name "\n") }) ≡ ok m =
            rw (old, read) at h in
          let same = ok-injective e in
          inl (record {
            old = old;
            name = name;
            captured = read;
            text = ap (λ k. k.text) (sym same);
            position = ap (λ k. k.pos) (sym same);
          })
    ]
    | inr new ↦ let e : ok l ≡ ok m = rw new at h in inr (new, sym (ok-injective e))
  ]

  lines-Renames : (ls ms : Lines) → compat_rename_macro_calls x ls ≡ ok ms → Renames ls ms
  unfolding compat_rename_macro_calls
  lines-Renames [] ms h = subst (Renames []) (ok-injective h) tt
  lines-Renames (l ∷ ls) ms h =
      let (m, first, rest) = >>=-eq-ok (rename_line x l) _ h in
      let (n, others, last) = >>=-eq-ok (compat_rename_macro_calls x ls) _ rest in
      subst (Renames (l ∷ ls)) (ok-injective last)
        (rename_line-Renames l m first, lines-Renames ls n others)

  func-Renames : (f g : InternalFunc) → rename_func x f ≡ ok g → RenamesFunc f g
  unfolding rename_func
  func-Renames f g h =
      let (body, renamed, last) = >>=-eq-ok (compat_rename_macro_calls x f.body) _ h in
      subst (RenamesFunc f) (ok-injective last) (lines-Renames f.body body renamed, refl)

  object-Renames : (o p : Object) → rename_object x o ≡ ok p → RenamesObject o p
  unfolding rename_object
  object-Renames o p h = elim (Type-cases o.dtype) [
    | inl (f, e) ↦
        let (g, renamed, last) = >>=-eq-ok (rename_func x f) _ (rw e at h) in
        subst (RenamesObject o) (ok-injective last) (rw e (func-Renames f g renamed), refl)
    | inr (inl e) ↦
        let kept : rename_object x o ≡ ok o = simp (e, rename_object) in
        subst (RenamesObject o) (ok-injective (sym kept ∙ h)) (rw e refl, refl)
    | inr (inr (d, e)) ↦
        let kept : rename_object x o ≡ ok o = simp (e, rename_object) in
        subst (RenamesObject o) (ok-injective (sym kept ∙ h)) (rw e refl, refl)
  ]

compat_rename-IsRenamed :
    (x : Externals) (e e' : ParseEngine)
    → compat_rename_all_macro_calls x e ≡ ok e'
    → IsRenamed x e e'
unfolding compat_rename_all_macro_calls
compat_rename-IsRenamed x e e' h =
    let (objects, a, rest) = >>=-eq-ok (map_values (rename_object x) e.globl_name_to_object) _ h in
    let (internals, b, rest') =
      >>=-eq-ok (map_values (rename_func x) e.internal_id_to_code) _ rest in
    let (macros, c, last) =
      >>=-eq-ok (map_values (compat_rename_macro_calls x) e.macro_name_to_lines) _ rest' in
    subst (IsRenamed x e) (ok-injective last) (record {
      objects = map_values-AllRelated (rename_object x) _ (object-Renames x) _ objects a;
      internals = map_values-AllRelated (rename_func x) _ (func-Renames x) _ internals b;
      macros = map_values-AllRelated (compat_rename_macro_calls x) _ (lines-Renames x) _ macros c;
      rest = refl;
    })

-- Where `compat_rename_all_macro_calls` succeeds, each line of the bodies of the functions and of the
-- macros that starts with `CALL $` has become the line `.inline __name` at its position, with the name
-- that the regular expression captures, all other lines, their order and the rest of the engine are the
-- same, and a second run changes nothing.
pub compat_rename_all_macro_calls-IsRenamed :
    (x : Externals) (e e' : ParseEngine)
    → compat_rename_all_macro_calls x e ≡ ok e'
    → IsRenamed x e e' × (compat_rename_all_macro_calls x e' ≡ ok e')
compat_rename_all_macro_calls-IsRenamed x e e' h =
    (compat_rename-IsRenamed x e e' h, compat_rename_all_macro_calls_idempotent x e e' h)
