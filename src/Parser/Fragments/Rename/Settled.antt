-- ===== src/Parser/Fragments/Rename/Settled.antt =====
-- A second run of `compat_rename_all_macro_calls` of src/parser.rs.
use tvm_linker.Prelude.{
  ◌≡◌, refl, sym, ap, subst, ◌∙◌, [], ◌∷◌, String, false, Bool-cases, Option-cases, starts_with,
  is_prefix, trim_start, codes, str_append, ◌⊎◌, inl, inr,
}
use Prim.Native.String.append
use tvm_linker.Outcome.{Result, ok, >>=-eq-ok, ok-injective}
use tvm_linker.Parser.State.{InternalFunc, Data, ObjectType, function, untyped, object, ParseEngine}
use tvm_linker.Parser.Externals.{Externals}
use tvm_linker.Parser.Fragments.{
  map_values, rename_line, compat_rename_macro_calls, rename_func, rename_object,
  compat_rename_all_macro_calls,
}

-- What a second run makes of a value that a first run has returned.
abbrev IsSettled : {A : Type 0} → (A → Result A) → Type 0
IsSettled {A} f = (a b : A) → f a ≡ ok b → f b ≡ ok b

map_values-IsSettled :
    {K V : Type 0} (f : V → Result V) → IsSettled f → IsSettled (map_values {K = K} f)
unfolding map_values
map_values-IsSettled f settled [] m' h = subst (λ t. map_values f t ≡ ok t) (ok-injective h) refl
map_values-IsSettled f settled ((k, v) ∷ m) m' h =
    let (v', first, rest) = >>=-eq-ok (f v) _ h in
    let (n, others, last) = >>=-eq-ok (map_values f m) _ rest in
    subst (λ t. map_values f t ≡ ok t) (ok-injective last)
      (rw (settled v v' first, map_values-IsSettled f settled m n others) refl)

starts_with-inline : (name : String) → starts_with (str_append ".inline __" name) "CALL $" ≡ false
unfolding starts_with
starts_with-inline name =
    ap (λ s. is_prefix (codes "CALL $") (trim_start (codes s))) (append.cons "." "inline __" name)

pub Type-cases :
    (t : ObjectType)
    → ((f : InternalFunc) × (t ≡ function f)) ⊎ ((t ≡ untyped) ⊎ ((d : Data) × (t ≡ object d)))
Type-cases (function f) = inl (f, refl)
Type-cases untyped = inr (inl refl)
Type-cases (object d) = inr (inr (d, refl))

module _ (x : Externals) where
  rename_line-IsSettled : IsSettled (rename_line x)
  unfolding rename_line
  rename_line-IsSettled l l' h = elim (Bool-cases (starts_with l.text "CALL $")) [
    | inl old ↦ elim (Option-cases (x.call l.text)) [
      | inl unread ↦ cc (rw (old, unread) at h)
      | inr (name, read) ↦
          let e : ok (record l { text = str_append ".inline __" (str_append name "\n") }) ≡ ok l' =
            rw (old, read) at h in
          subst (λ t. rename_line x t ≡ ok t) (ok-injective e)
            (rw (starts_with-inline (str_append name "\n"), rename_line) refl)
    ]
    | inr new ↦
        let e : ok l ≡ ok l' = rw new at h in
        subst (λ t. rename_line x t ≡ ok t) (ok-injective e) (rw (new, rename_line) refl)
  ]

  lines-IsSettled : IsSettled (compat_rename_macro_calls x)
  unfolding compat_rename_macro_calls
  lines-IsSettled [] lines' h =
      subst (λ t. compat_rename_macro_calls x t ≡ ok t) (ok-injective h) refl
  lines-IsSettled (l ∷ lines) lines' h =
      let (l', first, rest) = >>=-eq-ok (rename_line x l) _ h in
      let (n, others, last) = >>=-eq-ok (compat_rename_macro_calls x lines) _ rest in
      subst (λ t. compat_rename_macro_calls x t ≡ ok t) (ok-injective last)
        (rw (rename_line-IsSettled l l' first, lines-IsSettled lines n others) refl)

  func-IsSettled : IsSettled (rename_func x)
  unfolding rename_func
  func-IsSettled f f' h =
      let (body, renamed, last) = >>=-eq-ok (compat_rename_macro_calls x f.body) _ h in
      subst (λ t. rename_func x t ≡ ok t) (ok-injective last)
        (rw (lines-IsSettled f.body body renamed, rename_func) refl)

  object-IsSettled : IsSettled (rename_object x)
  unfolding rename_object
  object-IsSettled o o' h = elim (Type-cases o.dtype) [
    | inl (f, e) ↦
        let (f', renamed, last) = >>=-eq-ok (rename_func x f) _ (rw e at h) in
        subst (λ t. rename_object x t ≡ ok t) (ok-injective last)
          (rw (func-IsSettled f f' renamed, rename_object) refl)
    | inr (inl e) ↦
        let kept : rename_object x o ≡ ok o = simp (e, rename_object) in
        subst (λ t. rename_object x t ≡ ok t) (ok-injective (sym kept ∙ h)) kept
    | inr (inr (d, e)) ↦
        let kept : rename_object x o ≡ ok o = simp (e, rename_object) in
        subst (λ t. rename_object x t ≡ ok t) (ok-injective (sym kept ∙ h)) kept
  ]

-- It changes nothing.
pub compat_rename_all_macro_calls_idempotent :
    (x : Externals) (e e' : ParseEngine)
    → compat_rename_all_macro_calls x e ≡ ok e'
    → compat_rename_all_macro_calls x e' ≡ ok e'
unfolding compat_rename_all_macro_calls
compat_rename_all_macro_calls_idempotent x e e' h =
    let (objects, a, rest) = >>=-eq-ok (map_values (rename_object x) e.globl_name_to_object) _ h in
    let (internals, b, rest') =
      >>=-eq-ok (map_values (rename_func x) e.internal_id_to_code) _ rest in
    let (macros, c, last) =
      >>=-eq-ok (map_values (compat_rename_macro_calls x) e.macro_name_to_lines) _ rest' in
    subst (λ t. compat_rename_all_macro_calls x t ≡ ok t) (ok-injective last)
      (rw
        (
          map_values-IsSettled (rename_object x) (object-IsSettled x) _ objects a,
          map_values-IsSettled (rename_func x) (func-IsSettled x) _ internals b,
          map_values-IsSettled (compat_rename_macro_calls x) (lines-IsSettled x) _ macros c,
          compat_rename_all_macro_calls,
        )
        refl)
