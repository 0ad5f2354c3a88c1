-- ===== src/Parser/Labels/Calls.antt =====
-- The calls that `replace_labels_in_body` of src/parser.rs attributes to a function.
use tvm_linker.Prelude.{
  ℕ, [], ◌∷◌, String, false, Option, none, some, some-eq, ◌≡◌, ◌≢◌, refl, sym, ap, subst, ◌∙◌, inl,
  inr, ◌⊎◌, Has, lookup, string_key, int_key, starts_with,
}
use tvm_linker.Outcome.{panic, ok, err, >>=-eq-ok, ok-injective, Holds}
use tvm_linker.Parser.State.{Line, Lines, InternalFunc, ParseEngine}
use tvm_linker.Parser.Externals.{Externals}
use tvm_linker.Parser.Labels.{
  FunctionId, name_of, get_internal, get_globl, get_address, get_base, Try, or_else, settle,
  note_inline, try_ids, try_addresses, replace_labels, replace_labels_in_line,
  replace_labels_in_body,
}
use tvm_linker.Parser.Labels.Frame.{Frame, Frame-refl, Frame-trans, function_of, get_globl-Frame}
use tvm_linker.Parser.Labels.Frame.Passes.{
  try_ids-Kept, replace_labels_in_line-Framed, replace_labels_in_body-Framed,
}
use tvm_linker.Resolver.Format.{Kind, i32, u32, i64}
use tvm_linker.Resolver.{resolve_name}
use tvm_linker.Resolver.Found.{resolve_name-Told}
use tvm_linker.Resolver.State.{resolve_name-Leads}
use tvm_linker.Parser.Labels.Records.{
  Records, Frame-Records, IsGlobalFunction, Frame-IsGlobalFunction, HasLabel, Mentions,
  get_globl-Records, get_globl-eq, get_address-none, inlined, labelled,
}

or_else-eq-ok :
    (m : Try) (next : ParseEngine → Try) (l : Line) (t : ParseEngine)
    → or_else m next ≡ (ok l, t)
    → (m ≡ (ok l, t)) ⊎ (next m.1 ≡ (ok l, t))
unfolding or_else
or_else-eq-ok (ok k, s) next l t h = inl h
or_else-eq-ok (err panic, s) next l t h = cc
or_else-eq-ok (err _, s) next l t h = inr h

module _ (x : Externals) where
  -- A lookup that leaves the state alone has found each name of a line that resolves.
  resolve_name-pure :
      (kind : Kind) (get : String → ParseEngine → Option ℕ × ParseEngine)
      → ((n : String) (s : ParseEngine) → (get n s).1 ≡ s)
      → (l l' : Line) (e t : ParseEngine) (name : String) → HasLabel x l name
      → resolve_name x kind get l e ≡ (ok l', t)
      → (get name e).0 ≢ none
  resolve_name-pure kind get pure l l' e t name m h =
      resolve_name-Told kind get (λ s. s ≡ e) (λ n s. (get n e).0 ≢ none) (λ n s g. pure n s ∙ g)
        (λ n s k g found missing. cc (subst (λ u. (get n u).0 ≡ some k) g found, missing))
        (λ n other s told. told) x l l' e t m.dollar h refl m.capture m.begin name m.member m.named

  get_globl-Told :
      (fr : FunctionId) (l l' : Line) (e s t : ParseEngine) (name : String) (id : ℕ)
      (f : InternalFunc)
      → function_of fr e ≡ some f
      → Frame e s
      → HasLabel x l name
      → lookup name e.globl_name_to_id ≡ some id
      → resolve_name x u32 (get_globl fr) l s ≡ (ok l', t)
      → Records fr t id
  get_globl-Told fr l l' e s t name id f there k m known h =
      resolve_name-Told u32 (get_globl fr) (Frame e)
        (λ n u. (i : ℕ) → lookup n e.globl_name_to_id ≡ some i → Records fr u i)
        (λ n u g. Frame-trans e u (get_globl fr n u).1 g (get_globl-Frame fr n u))
        (λ n u i g found j its.
          let (f', here, keep) = g.funcs fr f there in
          let same : i ≡ j =
            some-eq (sym found ∙ get_globl-eq fr n u ∙ ap (λ d. lookup n d) g.ids ∙ its) in
          subst (Records fr (get_globl fr n u).1) same (get_globl-Records fr n u f' i here found))
        (λ n other u told i its.
          Frame-Records u (get_globl fr other u).1 fr i (get_globl-Frame fr other u) (told i its))
        x l l' s t m.dollar h k m.capture m.begin name m.member m.named id known

  replace_labels-Records :
      (fr : FunctionId) (l l' : Line) (e e' : ParseEngine) (f : InternalFunc) (name : String)
      (id : ℕ)
      → function_of fr e ≡ some f
      → Mentions x l name
      → IsGlobalFunction e name id
      → replace_labels x fr l e ≡ (ok l', e')
      → Records fr e' id
  unfolding replace_labels note_inline try_addresses try_ids get_internal get_base get_address
  replace_labels-Records fr l l' e e' f name id there (inlined starts named) g h =
      let both = rw (starts, note_inline, named) at h in
      subst (λ s. Records fr s id) (ap (λ r. r.1) both)
        (get_globl-Records fr name e f id there (get_globl-eq fr name e ∙ g.globl))
  replace_labels-Records fr l l' e e' f name id there (labelled m) g h =
      elim (or_else-eq-ok (try_addresses x fr l e) (resolve_name x i64 get_base l) l' e'
        (rw m.no_inline at h)) [
          | inr by_base ↦ absurd (
              resolve_name-pure i64 get_base (λ n s. refl) l l' (try_addresses x fr l e).1 e' name m
                by_base (rw (g.no_global_base, g.no_persistent_base) refl))
          | inl early ↦
              elim (or_else-eq-ok (try_ids x fr l e) (resolve_name x i64 get_address l) l' e'
                early) [
                  | inr by_address ↦
                      let k =
                        (try_ids-Kept x fr l e).funcs (name_of name) g.defined.0 g.defined.1 in
                      absurd (
                        resolve_name-pure i64 get_address (λ n s. refl) l l' (try_ids x fr l e).1 e'
                          name m by_address (get_address-none name (try_ids x fr l e).1 k.0 k.1))
                  | inl ids ↦
                      elim (or_else-eq-ok (resolve_name x i32 get_internal l e)
                        (resolve_name x u32 (get_globl fr) l) l' e' ids) [
                          | inl by_internal ↦ absurd (
                              resolve_name-pure i32 get_internal (λ n s. refl) l l' e e' name m
                                by_internal (rw (g.no_internal, get_internal) refl))
                          | inr by_globl ↦
                              get_globl-Told fr l l' e (resolve_name x i32 get_internal l e).1 e'
                                name id f there
                                (resolve_name-Leads Frame Frame-refl Frame-trans i32 get_internal
                                  (λ n s. Frame-refl s) x l e)
                                m g.globl by_globl
                        ]
                ]
        ]

  settle-eq-ok : (t : Try) (l : Line) (s : ParseEngine) → settle t ≡ ok (l, s) → t ≡ (ok l, s)
  unfolding settle
  settle-eq-ok (ok k, u) l s h = cc
  settle-eq-ok (err why, u) l s h = cc

  replace_labels_in_line-Records :
      (fuel : ℕ) (fr : FunctionId) (l : Line) (resolved : Lines) (e e' : ParseEngine)
      (f : InternalFunc) (name : String) (id : ℕ)
      → function_of fr e ≡ some f
      → starts_with l.text ".compute" ≡ false
      → Mentions x l name
      → IsGlobalFunction e name id
      → replace_labels_in_line x fuel fr l e ≡ ok (resolved, e')
      → Records fr e' id
  unfolding replace_labels_in_line
  replace_labels_in_line-Records fuel fr l resolved e e' f name id there plain says g h =
      let ((l', s), first, last) =
        >>=-eq-ok (settle (replace_labels x fr l e)) _ (rw (plain, replace_labels_in_line) at h) in
      subst (λ p. Records fr p.1 id) (ok-injective last)
        (replace_labels-Records fr l l' e s f name id there says g
          (settle-eq-ok (replace_labels x fr l e) l' s first))

  -- Where the labels of a function's body are replaced without an error, the function has among its
  -- calls the identifier of every global function that a line of the body names, in `.inline` or
  -- between dollar signs, if the name stands for nothing else.
  pub replace_labels_in_body-Records :
      (fuel : ℕ) (fr : FunctionId) (lines new_lines : Lines) (e e' : ParseEngine) (f : InternalFunc)
      (l : Line) (name : String) (id : ℕ)
      → function_of fr e ≡ some f
      → Has l lines
      → starts_with l.text ".compute" ≡ false
      → Mentions x l name
      → IsGlobalFunction e name id
      → replace_labels_in_body x fuel fr lines e ≡ ok (new_lines, e')
      → Records fr e' id
  unfolding replace_labels_in_body
  replace_labels_in_body-Records fuel fr [] new_lines e e' f l name id there m plain says g h =
      absurd m
  replace_labels_in_body-Records fuel fr (k ∷ lines) new_lines e e' f l name id there m plain says g
        h =
      let ((resolved, s), first, rest) = >>=-eq-ok (replace_labels_in_line x fuel fr k e) _ h in
      let ((others, t), then_others, last) =
        >>=-eq-ok (replace_labels_in_body x fuel fr lines s) _ rest in
      let step =
        subst (Holds (λ p. Frame e p.1)) first (replace_labels_in_line-Framed x fuel fr k e) in
      let (f1, here, keep) = step.funcs fr f there in
      let steps =
        subst (Holds (λ p. Frame s p.1)) then_others
          (replace_labels_in_body-Framed x fuel fr lines s) in
      subst (λ p. Records fr p.1 id) (ok-injective last)
        (elim m [
          | inl this ↦ Frame-Records s t fr id steps (
              replace_labels_in_line-Records fuel fr k resolved e s f name id there
                (subst (λ i. starts_with i.text ".compute" ≡ false) this plain)
                (subst (λ i. Mentions x i name) this says) g first)
          | inr later ↦
              replace_labels_in_body-Records fuel fr lines others s t f1 l name id here later plain
                says (Frame-IsGlobalFunction e s name id step g) then_others
        ])
