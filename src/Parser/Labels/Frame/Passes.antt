-- ===== src/Parser/Labels/Frame/Passes.antt =====
-- The passes over the lines in src/parser.rs keep the tables of the engine.
use tvm_linker.Prelude.{
  ℕ, zero, suc, List, [], ◌∷◌, String, refl, ℤ, Bool-cases, Option-cases, inl, inr, lookup,
  string_key, int_key, starts_with,
}
use tvm_linker.Outcome.{panic, Result, ok, err, ◌>>=◌, Holds, Holds-bind, Holds-weaken}
use tvm_linker.Parser.State.{Line, Lines, ParseEngine, func}
use tvm_linker.Parser.Externals.{Externals}
use tvm_linker.Parser.Code.{unwrap}
use tvm_linker.Parser.Compute.{WithEngine, collect, run_collected, compute_cell}
use tvm_linker.Parser.Labels.{
  FunctionId, name_of, id_of, get_internal, get_globl, get_address, get_base, Try, or_else, settle,
  note_inline, try_ids, try_addresses, replace_labels, replace_labels_in_line,
  replace_labels_in_body, put_globl, put_internal, put_macro, set_body, set_object_body, for_each,
  keys, replace_globl_labels, replace_fragment_labels, replace_internal_labels, replace_all_labels,
}
use tvm_linker.Resolver.Format.{i32, u32, i64}
use tvm_linker.Resolver.{resolve_name}
use tvm_linker.Resolver.State.{resolve_name-Leads}
use tvm_linker.Parser.Labels.Frame.{
  Frame, Frame-refl, Frame-trans, same_tables-Frame, adjust_object-Frame, adjust_code-Frame,
  set_body-KeepsCode, set_object_body-KeepsCalls, get_globl-Frame,
}

-- The state of an attempt, and the state of a result with one.
abbrev pub Kept : ParseEngine → Try → Type 0
Kept e t = Frame e t.1

abbrev pub Framed : {A : Type 0} → ParseEngine → WithEngine A → Type 0
Framed e r = Holds (λ p. Frame e p.1) r

or_else-Kept :
    (e : ParseEngine) (t : Try) (next : ParseEngine → Try)
    → Kept e t
    → ((f : ParseEngine) → Kept f (next f))
    → Kept e (or_else t next)
unfolding or_else
or_else-Kept e (ok l, f) next h k = h
or_else-Kept e (err panic, f) next h k = h
or_else-Kept e (err _, f) next h k = Frame-trans e f (next f).1 h (k f)

module _ (x : Externals) where
  note_inline-Kept :
      (from_func : FunctionId) (l : Line) (e : ParseEngine) → Kept e (note_inline x from_func l e)
  unfolding note_inline
  note_inline-Kept from_func l e = elim (Option-cases (x.inline l.text)) [
    | inl missing ↦ rw (missing, note_inline) (Frame-refl e)
    | inr (name, there) ↦ rw (there, note_inline) (get_globl-Frame from_func name e)
  ]

  pub try_ids-Kept :
      (from_func : FunctionId) (l : Line) (e : ParseEngine) → Kept e (try_ids x from_func l e)
  unfolding try_ids get_internal
  try_ids-Kept from_func l e =
      or_else-Kept e (resolve_name x i32 get_internal l e)
        (resolve_name x u32 (get_globl from_func) l)
        (resolve_name-Leads Frame Frame-refl Frame-trans i32 get_internal (λ n s. Frame-refl s) x l
          e)
        (resolve_name-Leads Frame Frame-refl Frame-trans u32 (get_globl from_func)
          (get_globl-Frame from_func) x l)

  pub try_addresses-Kept :
      (from_func : FunctionId) (l : Line) (e : ParseEngine) → Kept e (try_addresses x from_func l e)
  unfolding try_addresses get_address
  try_addresses-Kept from_func l e =
      or_else-Kept e (try_ids x from_func l e) (resolve_name x i64 get_address l)
        (try_ids-Kept from_func l e)
        (resolve_name-Leads Frame Frame-refl Frame-trans i64 get_address (λ n s. Frame-refl s) x l)

  pub replace_labels-Kept :
      (from_func : FunctionId) (l : Line) (e : ParseEngine)
      → Kept e (replace_labels x from_func l e)
  unfolding replace_labels get_base
  replace_labels-Kept from_func l e = elim (Bool-cases (starts_with l.text ".inline")) [
    | inl inline ↦ rw inline (note_inline-Kept from_func l e)
    | inr other ↦ rw other (
        or_else-Kept e (try_addresses x from_func l e) (resolve_name x i64 get_base l)
          (try_addresses-Kept from_func l e)
          (resolve_name-Leads Frame Frame-refl Frame-trans i64 get_base (λ n s. Frame-refl s) x l))
  ]

  settle-Framed : (e : ParseEngine) (t : Try) → Kept e t → Framed e (settle t)
  unfolding settle
  settle-Framed e (ok l, f) h = h
  settle-Framed e (err why, f) h = tt

  Framed-bind :
      {A B : Type 0} (e : ParseEngine) (m : WithEngine A) (next : A × ParseEngine → WithEngine B)
      → Framed e m
      → ((a : A) (f : ParseEngine) → Framed f (next (a, f)))
      → Framed e (m >>= next)
  Framed-bind e (err why) next h k = tt
  Framed-bind e (ok (a, f)) next h k =
      Holds-weaken (λ p. Frame f p.1) (λ p. Frame e p.1) (next (a, f))
        (λ p g. Frame-trans e f p.1 h g) (k a f)

  collect-Framed :
      (compute : String → ParseEngine → WithEngine Lines)
      → ((name : String) (e : ParseEngine) → Framed e (compute name e))
      → (lines : Lines) (e : ParseEngine) → Framed e (collect x compute lines e)
  unfolding collect
  collect-Framed compute c [] e = Frame-refl e
  collect-Framed compute c (l ∷ lines) e = elim (Option-cases (x.compute l.text)) [
    | inl plain ↦
        rw (plain, collect)
          (Framed-bind e _ _ (collect-Framed compute c lines e) (λ collected f. Frame-refl f))
    | inr (name, there) ↦
        rw (there, collect)
          (Framed-bind e _ _ (c name e) (λ computed f.
            Framed-bind f _ _ (collect-Framed compute c lines f) (λ collected g. Frame-refl g)))
  ]

  run_collected-Framed :
      (name : String) (lines : Lines) (e : ParseEngine) → Framed e (run_collected x name (lines, e))
  unfolding run_collected
  run_collected-Framed name lines e = elim (Option-cases (x.execute lines)) [
    | inl failed ↦ rw (failed, run_collected) tt
    | inr (c, there) ↦ rw (there, run_collected) (same_tables-Frame e _ refl refl refl refl refl)
  ]

  compute_cell-Framed :
      (fuel : ℕ) (name : String) (e : ParseEngine) → Framed e (compute_cell x fuel name e)
  unfolding compute_cell
  compute_cell-Framed zero name e = tt
  compute_cell-Framed (suc fuel) name e = elim (Option-cases (lookup name e.computed)) [
    | inr (lines, cached) ↦ rw (cached, compute_cell) (Frame-refl e)
    | inl new ↦ elim (Option-cases (lookup name e.macro_name_to_lines)) [
      | inl missing ↦ rw (new, missing, compute_cell) tt
      | inr (lines, found) ↦
          rw (new, found, compute_cell)
            (Framed-bind e _ (run_collected x name)
              (collect-Framed (compute_cell x fuel) (compute_cell-Framed fuel) lines e)
              (run_collected-Framed name))
    ]
  ]

  pub replace_labels_in_line-Framed :
      (fuel : ℕ) (from_func : FunctionId) (l : Line) (e : ParseEngine)
      → Framed e (replace_labels_in_line x fuel from_func l e)
  unfolding replace_labels_in_line unwrap
  replace_labels_in_line-Framed fuel from_func l e =
      elim (Bool-cases (starts_with l.text ".compute")) [
        | inl computed ↦ elim (Option-cases (x.compute l.text)) [
          | inl missing ↦ rw (computed, missing, unwrap) tt
          | inr (name, there) ↦ rw (computed, there, unwrap) (compute_cell-Framed fuel name e)
        ]
        | inr other ↦ rw other (
            Framed-bind e (settle (replace_labels x from_func l e)) _
              (settle-Framed e (replace_labels x from_func l e) (replace_labels-Kept from_func l e))
              (λ l' f. Frame-refl f))
      ]

  pub replace_labels_in_body-Framed :
      (fuel : ℕ) (from_func : FunctionId) (lines : Lines) (e : ParseEngine)
      → Framed e (replace_labels_in_body x fuel from_func lines e)
  unfolding replace_labels_in_body
  replace_labels_in_body-Framed fuel from_func [] e = Frame-refl e
  replace_labels_in_body-Framed fuel from_func (l ∷ lines) e =
      Framed-bind e (replace_labels_in_line x fuel from_func l e) _
        (replace_labels_in_line-Framed fuel from_func l e)
        (λ resolved f.
          Framed-bind f (replace_labels_in_body x fuel from_func lines f) _
            (replace_labels_in_body-Framed fuel from_func lines f) (λ new_lines g. Frame-refl g))

  Holds-after :
      (e f : ParseEngine) (r : Result ParseEngine)
      → Frame e f
      → Holds (Frame f) r
      → Holds (Frame e) r
  Holds-after e f r h k = Holds-weaken (Frame f) (Frame e) r (λ g l. Frame-trans e f g h l) k

  for_each-Frame :
      {K : Type 0} (step : K → ParseEngine → Result ParseEngine)
      → ((k : K) (e : ParseEngine) → Holds (Frame e) (step k e))
      → (ks : List K) (e : ParseEngine) → Holds (Frame e) (for_each step ks e)
  unfolding for_each
  for_each-Frame step s [] e = Frame-refl e
  for_each-Frame step s (k ∷ ks) e =
      Holds-bind (Frame e) (Frame e) (step k e) (for_each step ks) (s k e)
        (λ f h. Holds-after e f (for_each step ks f) h (for_each-Frame step s ks f))

  put-Frame :
      (e : ParseEngine) (r : WithEngine Lines) (put : Lines → ParseEngine → Result ParseEngine)
      → Framed e r
      → ((lines : Lines) (f : ParseEngine) → Holds (Frame f) (put lines f))
      → Holds (Frame e) (r >>= λ p. put p.0 p.1)
  put-Frame e (err why) put h k = tt
  put-Frame e (ok (lines, f)) put h k = Holds-after e f (put lines f) h (k lines f)

  module _ (fuel : ℕ) where
    replace_globl_labels-Frame :
        (name : String) (e : ParseEngine) → Holds (Frame e) (replace_globl_labels x fuel name e)
    unfolding replace_globl_labels put_globl
    replace_globl_labels-Frame name e = elim (Option-cases (lookup name e.globl_name_to_object)) [
      | inl missing ↦ rw (missing, replace_globl_labels) tt
      | inr (o, found) ↦ elim (Option-cases (func o.dtype)) [
        | inl no_func ↦ rw (found, no_func, replace_globl_labels) (Frame-refl e)
        | inr (f, is_func) ↦
            rw (found, is_func, replace_globl_labels)
              (put-Frame e (replace_labels_in_body x fuel (name_of o.name) f.body e)
                (λ lines g. ok (put_globl name lines g))
                (replace_labels_in_body-Framed fuel (name_of o.name) f.body e)
                (λ lines g.
                  adjust_object-Frame name (set_object_body lines) g
                    (set_object_body-KeepsCalls lines)))
      ]
    ]

    replace_fragment_labels-Frame :
        (id : ℤ) (name : String) (e : ParseEngine)
        → Holds (Frame e) (replace_fragment_labels x fuel id name e)
    unfolding replace_fragment_labels put_macro
    replace_fragment_labels-Frame id name e =
        elim (Option-cases (lookup name e.macro_name_to_lines)) [
          | inl missing ↦ rw (missing, replace_fragment_labels) tt
          | inr (body, found) ↦
              rw (found, replace_fragment_labels)
                (put-Frame e (replace_labels_in_body x fuel (id_of id) body e)
                  (λ lines g. ok (put_macro name lines g))
                  (replace_labels_in_body-Framed fuel (id_of id) body e)
                  (λ lines g. same_tables-Frame g _ refl refl refl refl refl))
        ]

    replace_internal_labels-Frame :
        (id : ℤ) (e : ParseEngine) → Holds (Frame e) (replace_internal_labels x fuel id e)
    unfolding replace_internal_labels put_internal
    replace_internal_labels-Frame id e = elim (Option-cases (lookup id e.internal_id_to_code)) [
      | inl missing ↦ rw (missing, replace_internal_labels) tt
      | inr (f, found) ↦
          rw (found, replace_internal_labels)
            (put-Frame e (replace_labels_in_body x fuel (id_of id) f.body e)
              (λ lines g.
                for_each (replace_fragment_labels x fuel id) g.postorder_fragments
                  (put_internal id lines g))
              (replace_labels_in_body-Framed fuel (id_of id) f.body e)
              (λ lines g.
                Holds-after g (put_internal id lines g) _
                  (adjust_code-Frame id (set_body lines) g (set_body-KeepsCode lines))
                  (for_each-Frame (replace_fragment_labels x fuel id)
                    (replace_fragment_labels-Frame id) g.postorder_fragments
                    (put_internal id lines g))))
    ]

    pub replace_all_labels-Frame : (e : ParseEngine) → Holds (Frame e) (replace_all_labels x fuel e)
    unfolding replace_all_labels
    replace_all_labels-Frame e =
        Holds-bind (Frame e) (Frame e)
          (for_each (replace_globl_labels x fuel) (keys e.globl_name_to_object) e) _
          (for_each-Frame (replace_globl_labels x fuel) replace_globl_labels-Frame
            (keys e.globl_name_to_object) e)
          (λ f h. Holds-after e f _ h (
            for_each-Frame (replace_internal_labels x fuel) replace_internal_labels-Frame
              (keys f.internal_id_to_code) f))
