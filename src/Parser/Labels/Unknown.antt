-- ===== src/Parser/Labels/Unknown.antt =====
-- Labels that `replace_labels` of src/parser.rs cannot replace.
use tvm_linker.Prelude.{
  ℕ, [], ◌∷◌, ◌++◌, String, false, Option, none, ◌≡◌, refl, sym, ap, subst, lookup, lookup-adjust,
  string_key, starts_with, Option-cases, Bool-cases, inl, inr,
}
use tvm_linker.Outcome.{panic, ok, err, >>=-eq-ok, ok-injective, IsRefused, >>=-IsRefused}
use tvm_linker.Parser.State.{
  Line, Lines, Object, ObjectType, function, untyped, object, data_of, ParseEngine,
}
use tvm_linker.Parser.Externals.{Externals}
use tvm_linker.Parser.Labels.{
  FunctionId, name_of, id_of, call_object, insert_called_func, get_internal, get_globl, get_address,
  get_base, Try, or_else, settle, try_ids, try_addresses, replace_labels, replace_labels_in_line,
  replace_labels_in_body,
}
use tvm_linker.Parser.Labels.Records.{HasLabel}
use tvm_linker.Resolver.Format.{Kind, i32, u32, i64}
use tvm_linker.Resolver.{resolve_name}
use tvm_linker.Resolver.State.{resolve_name-Leads}
use tvm_linker.Resolver.Missing.{resolve_name-IsRefused}

-- A name in no table.
pub record IsUnknown (e : ParseEngine) (name : String) : Type 0 where
  pub no_internal : lookup name e.internal_name_to_id ≡ none
  pub no_globl : lookup name e.globl_name_to_id ≡ none
  pub no_address : (get_address name e).0 ≡ none
  pub no_global_base : string_key.beq name "global-base" ≡ false
  pub no_persistent_base : string_key.beq name "persistent-base" ≡ false

data_of-call :
    (to_func : ℕ) (o : Object) (t : ObjectType)
    → o.dtype ≡ t
    → data_of (call_object to_func o).dtype ≡ data_of o.dtype
unfolding call_object data_of
data_of-call to_func o (function f) e = rw (e, call_object) refl
data_of-call to_func o untyped e = rw (e, call_object) (ap data_of e)
data_of-call to_func o (object d) e = rw (e, call_object) (ap data_of e)

get_address-insert :
    (fr : FunctionId) (to_func : ℕ) (name : String) (e : ParseEngine)
    → (get_address name e).0 ≡ none
    → (get_address name (insert_called_func fr to_func e)).0 ≡ none
unfolding get_address insert_called_func
get_address-insert (id_of id) to_func name e h = h
get_address-insert (name_of from) to_func name e h =
    elim (Option-cases (lookup name e.globl_name_to_object)) [
      | inl nothing ↦ elim (Bool-cases (string_key.beq from name)) [
        | inl same ↦
            rw
              (
                lookup-adjust from name (call_object to_func) e.globl_name_to_object,
                same,
                nothing,
                get_address,
              )
              refl
        | inr other ↦
            rw
              (
                lookup-adjust from name (call_object to_func) e.globl_name_to_object,
                other,
                nothing,
                get_address,
              )
              refl
      ]
      | inr (o, found) ↦ elim (Bool-cases (string_key.beq from name)) [
        | inl same ↦
            rw
              (
                lookup-adjust from name (call_object to_func) e.globl_name_to_object,
                same,
                found,
                data_of-call to_func o o.dtype refl,
                get_address,
              )
              (rw (found, get_address) at h)
        | inr other ↦
            rw
              (
                lookup-adjust from name (call_object to_func) e.globl_name_to_object,
                other,
                found,
                get_address,
              )
              (rw (found, get_address) at h)
      ]
    ]

insert-IsUnknown :
    (fr : FunctionId) (to_func : ℕ) (name : String) (e : ParseEngine)
    → IsUnknown e name
    → IsUnknown (insert_called_func fr to_func e) name
unfolding insert_called_func
insert-IsUnknown (id_of id) to_func name e u = record {
  no_internal = u.no_internal;
  no_globl = u.no_globl;
  no_address = get_address-insert (id_of id) to_func name e u.no_address;
  no_global_base = u.no_global_base;
  no_persistent_base = u.no_persistent_base;
}
insert-IsUnknown (name_of from) to_func name e u = record {
  no_internal = u.no_internal;
  no_globl = u.no_globl;
  no_address = get_address-insert (name_of from) to_func name e u.no_address;
  no_global_base = u.no_global_base;
  no_persistent_base = u.no_persistent_base;
}

get_globl-IsUnknown :
    (fr : FunctionId) (name other : String) (e : ParseEngine)
    → IsUnknown e name
    → IsUnknown (get_globl fr other e).1 name
unfolding get_globl
get_globl-IsUnknown fr name other e u = elim (Option-cases (lookup other e.globl_name_to_id)) [
  | inl nothing ↦ rw (nothing, get_globl) u
  | inr (id, found) ↦ rw (found, get_globl) (insert-IsUnknown fr id name e u)
]

-- The attempt fails, and the name stays unknown.
abbrev Fails : String → Try → Type 0
Fails name m = IsRefused m.0 × IsUnknown m.1 name

or_else-Fails :
    (name : String) (m : Try) (next : ParseEngine → Try)
    → Fails name m
    → ((e : ParseEngine) → IsUnknown e name → Fails name (next e))
    → Fails name (or_else m next)
unfolding or_else
or_else-Fails name (ok l, e) next ((why, h), u) k = cc h
or_else-Fails name (err panic, e) next (h, u) k = ((panic, refl), u)
or_else-Fails name (err _, e) next (h, u) k = k e u

module _ (x : Externals) where
  resolve_name-Fails :
      (kind : Kind) (get : String → ParseEngine → Option ℕ × ParseEngine) (l : Line)
      (e : ParseEngine) (name : String)
      → HasLabel x l name
      → ((s : ParseEngine) → IsUnknown s name → (get name s).0 ≡ none)
      → ((other : String) (s : ParseEngine) → IsUnknown s name → IsUnknown (get other s).1 name)
      → IsUnknown e name
      → Fails name (resolve_name x kind get l e)
  resolve_name-Fails kind get l e name m missing keeps u = (
    resolve_name-IsRefused kind get name (λ s. IsUnknown s name) missing keeps x l m.capture m.begin
        e m.dollar m.member m.named u,
    resolve_name-Leads (λ s t. IsUnknown s name → IsUnknown t name) (λ s a. a)
        (λ s t v f g a. g (f a)) kind get keeps x l e u,
  )

  replace_labels-Fails :
      (fr : FunctionId) (l : Line) (e : ParseEngine) (name : String)
      → HasLabel x l name
      → IsUnknown e name
      → Fails name (replace_labels x fr l e)
  unfolding replace_labels try_addresses try_ids get_internal get_globl get_address get_base
  replace_labels-Fails fr l e name m u =
      rw (m.no_inline, replace_labels)
        (or_else-Fails name (try_addresses x fr l e) _
          (or_else-Fails name (try_ids x fr l e) _
            (or_else-Fails name (resolve_name x i32 get_internal l e) _
              (resolve_name-Fails i32 get_internal l e name m
                (λ s v. rw (v.no_internal, get_internal) refl) (λ o s v. v) u)
              (λ s v.
                resolve_name-Fails u32 (get_globl fr) l s name m
                  (λ t w. rw (w.no_globl, get_globl) refl)
                  (λ o t w. get_globl-IsUnknown fr name o t w) v))
            (λ s v.
              resolve_name-Fails i64 get_address l s name m (λ t w. w.no_address) (λ o t w. w) v))
          (λ s v.
            resolve_name-Fails i64 get_base l s name m
              (λ t w. rw (w.no_global_base, w.no_persistent_base, get_base) refl) (λ o t w. w) v))

  settle-IsRefused : (m : Try) → IsRefused m.0 → IsRefused (settle m)
  unfolding settle
  settle-IsRefused (ok l, e) (why, h) = cc h
  settle-IsRefused (err why, e) h = (why, refl)

  replace_labels_in_line-IsRefused :
      (fuel : ℕ) (fr : FunctionId) (l : Line) (e : ParseEngine) (name : String)
      → starts_with l.text ".compute" ≡ false
      → HasLabel x l name
      → IsUnknown e name
      → IsRefused (replace_labels_in_line x fuel fr l e)
  unfolding replace_labels_in_line
  replace_labels_in_line-IsRefused fuel fr l e name plain m u =
      rw (plain, replace_labels_in_line)
        (>>=-IsRefused (settle (replace_labels x fr l e)) _
          (settle-IsRefused (replace_labels x fr l e) (replace_labels-Fails fr l e name m u).0))

  -- Where the labels of the first lines of a body are replaced, and the next line, which is not an
  -- .inline or .compute line, has among its matches a name between dollar signs that is in no table
  -- then, the whole body is refused, whatever the other matches of the line are and whatever comes
  -- behind it.
  pub replace_labels_in_body-unknown :
      (fuel : ℕ) (fr : FunctionId) (lines new_lines : Lines) (l : Line) (rest : Lines)
      (e e' : ParseEngine) (name : String)
      → replace_labels_in_body x fuel fr lines e ≡ ok (new_lines, e')
      → starts_with l.text ".compute" ≡ false
      → HasLabel x l name
      → IsUnknown e' name
      → IsRefused (replace_labels_in_body x fuel fr (lines ++ l ∷ rest) e)
  unfolding replace_labels_in_body
  replace_labels_in_body-unknown fuel fr [] new_lines l rest e e' name h plain m u =
      let same : e' ≡ e = sym (ap (λ p. p.1) (ok-injective h)) in
      >>=-IsRefused (replace_labels_in_line x fuel fr l e) _ (
        replace_labels_in_line-IsRefused fuel fr l e name plain m
          (subst (λ s. IsUnknown s name) same u))
  replace_labels_in_body-unknown fuel fr (k ∷ lines) new_lines l rest e e' name h plain m u =
      let ((resolved, s), first, others) = >>=-eq-ok (replace_labels_in_line x fuel fr k e) _ h in
      let ((n, t), then_others, last) =
        >>=-eq-ok (replace_labels_in_body x fuel fr lines s) _ others in
      let same : e' ≡ t = sym (ap (λ p. p.1) (ok-injective last)) in
      rw first (
        >>=-IsRefused (replace_labels_in_body x fuel fr (lines ++ l ∷ rest) s) _ (
          replace_labels_in_body-unknown fuel fr lines n l rest s t name then_others plain m
            (subst (λ v. IsUnknown v name) same u)))
