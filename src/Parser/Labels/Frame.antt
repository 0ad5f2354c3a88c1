-- ===== src/Parser/Labels/Frame.antt =====
-- What the replacement of labels in src/parser.rs leaves alone in the engine.
pub mod Passes
use tvm_linker.Prelude.{
  ℕ, zero, suc, List, [], ◌∷◌, ◌++◌, String, Option, none, some, ◌≡◌, refl, sym, subst, ◌∙◌, ℤ,
  Bool-cases, Option-cases, inl, inr, lookup, adjust, lookup-adjust, Has, some-eq, string_key,
  int_key, arith, starts_with,
}
use tvm_linker.Outcome.{panic, Result, ok, err, ◌>>=◌, Holds, Holds-bind, Holds-weaken}
use tvm_linker.Abi.{is_some}
use tvm_linker.Parser.State.{
  Line, Lines, InternalFunc, Object, ObjectType, function, untyped, object, ParseEngine, func,
}
use tvm_linker.Parser.Externals.{Externals}
use tvm_linker.Parser.Code.{unwrap}
use tvm_linker.Parser.Consistent.{IsConsistent, Knows, Knows-adjust}
use tvm_linker.Parser.Compute.{WithEngine, collect, run_collected, compute_cell}
use tvm_linker.Parser.Labels.{
  FunctionId, name_of, id_of, call, call_object, insert_called_func, get_internal, get_globl,
  get_address, get_base, Try, or_else, settle, note_inline, try_ids, try_addresses, replace_labels,
  replace_labels_in_line, replace_labels_in_body, put_globl, put_internal, put_macro, set_body,
  set_object_body, for_each, keys, replace_globl_labels, replace_fragment_labels,
  replace_internal_labels, replace_all_labels,
}
use tvm_linker.Resolver.Format.{i32, u32, i64}
use tvm_linker.Resolver.{resolve_name}
use tvm_linker.Resolver.State.{resolve_name-Leads}

-- The function that calls are attributed to.
unfoldable pub func_of : Option Object → Option InternalFunc
func_of none = none
func_of (some o) = func o.dtype

unfoldable pub function_of : FunctionId → ParseEngine → Option InternalFunc
unfolding func_of
function_of (name_of name) e = func_of (lookup name e.globl_name_to_object)
function_of (id_of id) e = lookup id e.internal_id_to_code

-- A function in the place of another that has all of its calls.
abbrev pub Grown : InternalFunc → Option InternalFunc → Type 0
Grown f r =
    (g : InternalFunc) × (r ≡ some g) × ((id : ℕ) → Has id f.called_ids → Has id g.called_ids)

-- The tables of names and the options stay, and no function, object or call is lost.
pub record Frame (e e' : ParseEngine) : Type 0 where
  pub names : e'.internal_name_to_id ≡ e.internal_name_to_id
  pub ids : e'.globl_name_to_id ≡ e.globl_name_to_id
  pub saves : e'.save_all_private_functions ≡ e.save_all_private_functions
  pub objects : (n : String) → Knows e.globl_name_to_object n → Knows e'.globl_name_to_object n
  pub code : (id : ℤ) → Knows e.internal_id_to_code id → Knows e'.internal_id_to_code id
  pub funcs :
      (fr : FunctionId) (f : InternalFunc) → function_of fr e ≡ some f → Grown f (function_of fr e')

pub Frame-refl : (e : ParseEngine) → Frame e e
Frame-refl e = record {
  names = refl;
  ids = refl;
  saves = refl;
  objects = λ n h. h;
  code = λ id h. h;
  funcs = λ fr f h. (f, h, λ id c. c);
}

Grown-trans :
    (f : InternalFunc) (r r' : Option InternalFunc)
    → Grown f r
    → ((g : InternalFunc) → r ≡ some g → Grown g r')
    → Grown f r'
Grown-trans f r r' (g, same, keep) next =
    let (k, there, keep') = next g same in (k, there, λ id c. keep' id (keep id c))

pub Frame-trans : (e f g : ParseEngine) → Frame e f → Frame f g → Frame e g
Frame-trans e f g h k = record {
  names = k.names ∙ h.names;
  ids = k.ids ∙ h.ids;
  saves = k.saves ∙ h.saves;
  objects = λ n o. k.objects n (h.objects n o);
  code = λ id c. k.code id (h.code id c);
  funcs = λ fr c there.
      Grown-trans c (function_of fr f) (function_of fr g) (h.funcs fr c there) (k.funcs fr);
}

pub Frame-IsConsistent : (e e' : ParseEngine) → Frame e e' → IsConsistent e → IsConsistent e'
Frame-IsConsistent e e' f c = record {
  coded = λ n id h. f.code id (c.coded n id (rw f.names at h));
  once = λ n m id h k. c.once n m id (rw f.names at h) (rw f.names at k);
  known = λ n id h. f.objects n (c.known n id (rw f.ids at h));
}

Knows-adjust_code :
    (id j : ℤ) (f : InternalFunc → InternalFunc) (e : ParseEngine)
    → Knows e.internal_id_to_code j
    → Knows (adjust id f e.internal_id_to_code) j
unfolding is_some
Knows-adjust_code id j f e h = ground (arith, lookup-adjust id j f e.internal_id_to_code)

-- A change of the other tables.
pub same_tables-Frame :
    (e e' : ParseEngine)
    → e'.internal_name_to_id ≡ e.internal_name_to_id
    → e'.globl_name_to_id ≡ e.globl_name_to_id
    → e'.save_all_private_functions ≡ e.save_all_private_functions
    → e'.globl_name_to_object ≡ e.globl_name_to_object
    → e'.internal_id_to_code ≡ e.internal_id_to_code
    → Frame e e'
unfolding function_of
same_tables-Frame e e' n i s o c = record {
  names = n;
  ids = i;
  saves = s;
  objects = λ k h. rw o h;
  code = λ k h. rw c h;
  funcs = funcs;
}
  where
    funcs :
        (fr : FunctionId) (f : InternalFunc)
        → function_of fr e ≡ some f
        → Grown f (function_of fr e')
    funcs (name_of k) f h = rw o (f, h, λ id d. d)
    funcs (id_of k) f h = rw c (f, h, λ id d. d)

-- A change of an object that keeps its function, with its calls.
abbrev pub KeepsCalls : (Object → Object) → Type 0
KeepsCalls f = (o : Object) (p : InternalFunc) → func o.dtype ≡ some p → Grown p (func (f o).dtype)

abbrev pub KeepsCode : (InternalFunc → InternalFunc) → Type 0
KeepsCode f = (p : InternalFunc) (id : ℕ) → Has id p.called_ids → Has id (f p).called_ids

-- What an adjusted entry has become.
func_of-adjusted :
    (f : Object → Object) (r : Option Object) (p : InternalFunc)
    → KeepsCalls f
    → func_of r ≡ some p
    → Grown p (func_of (elim r [ none ↦ none | some o ↦ some (f o) ]))
unfolding func_of
func_of-adjusted f none p k h = cc
func_of-adjusted f (some o) p k h = k o p h

code-adjusted :
    (f : InternalFunc → InternalFunc) (r : Option InternalFunc) (p : InternalFunc)
    → KeepsCode f
    → r ≡ some p
    → Grown p (elim r [ none ↦ none | some o ↦ some (f o) ])
code-adjusted f none p k h = cc
code-adjusted f (some o) p k h =
    (f o, refl, λ id c. k o id (subst (λ q. Has id q.called_ids) (sym (some-eq h)) c))

pub adjust_object-Frame :
    (name : String) (f : Object → Object) (e : ParseEngine)
    → KeepsCalls f
    → Frame e (record e { globl_name_to_object = adjust name f e.globl_name_to_object })
unfolding function_of
adjust_object-Frame name f e k = record {
  names = refl;
  ids = refl;
  saves = refl;
  objects = λ n h. Knows-adjust name n f e.globl_name_to_object h;
  code = λ id h. h;
  funcs = funcs;
}
  where
    funcs :
        (fr : FunctionId) (p : InternalFunc)
        → function_of fr e ≡ some p
        → Grown p (
            function_of fr
              (record e { globl_name_to_object = adjust name f e.globl_name_to_object }))
    funcs (id_of id) p h = (p, h, λ id c. c)
    funcs (name_of n) p h = elim (Bool-cases (string_key.beq name n)) [
      | inl same ↦
          rw (lookup-adjust name n f e.globl_name_to_object, same)
            (func_of-adjusted f (lookup n e.globl_name_to_object) p k h)
      | inr other ↦ rw (lookup-adjust name n f e.globl_name_to_object, other) (p, h, λ id c. c)
    ]

pub adjust_code-Frame :
    (id : ℤ) (f : InternalFunc → InternalFunc) (e : ParseEngine)
    → KeepsCode f
    → Frame e (record e { internal_id_to_code = adjust id f e.internal_id_to_code })
unfolding function_of
adjust_code-Frame id f e k = record {
  names = refl;
  ids = refl;
  saves = refl;
  objects = λ n h. h;
  code = λ j h. Knows-adjust_code id j f e h;
  funcs = funcs;
}
  where
    funcs :
        (fr : FunctionId) (p : InternalFunc)
        → function_of fr e ≡ some p
        → Grown p
            (function_of fr (record e { internal_id_to_code = adjust id f e.internal_id_to_code }))
    funcs (name_of n) p h = (p, h, λ id c. c)
    funcs (id_of j) p h = elim (Bool-cases (int_key.beq id j)) [
      | inl same ↦
          rw (lookup-adjust id j f e.internal_id_to_code, same)
            (code-adjusted f (lookup j e.internal_id_to_code) p k h)
      | inr other ↦ rw (lookup-adjust id j f e.internal_id_to_code, other) (p, h, λ id c. c)
    ]

Has-left : {A : Type 0} (a : A) (xs ys : List A) → Has a xs → Has a (xs ++ ys)
Has-left a [] ys h = absurd h
Has-left a (x ∷ xs) ys (inl same) = inl same
Has-left a (x ∷ xs) ys (inr later) = inr (Has-left a xs ys later)

call-KeepsCode : (id : ℕ) → KeepsCode (call id)
unfolding call
call-KeepsCode id p j h = Has-left j p.called_ids (id ∷ []) h

pub set_body-KeepsCode : (lines : Lines) → KeepsCode (set_body lines)
unfolding set_body
set_body-KeepsCode lines p j h = h

-- The two changes of an object's function.
call_object-func :
    (id : ℕ) (d : ObjectType) (o : Object) (p : InternalFunc)
    → o.dtype ≡ d
    → func d ≡ some p
    → func (call_object id o).dtype ≡ some (call id p)
unfolding func call_object
call_object-func id (function f) o p e h = rw (e, call_object) cc
call_object-func id untyped o p e h = cc
call_object-func id (object d) o p e h = cc

set_object_body-func :
    (lines : Lines) (d : ObjectType) (o : Object) (p : InternalFunc)
    → o.dtype ≡ d
    → func d ≡ some p
    → func (set_object_body lines o).dtype ≡ some (set_body lines p)
unfolding func set_object_body
set_object_body-func lines (function f) o p e h = rw (e, set_object_body) cc
set_object_body-func lines untyped o p e h = cc
set_object_body-func lines (object d) o p e h = cc

call_object-KeepsCalls : (id : ℕ) → KeepsCalls (call_object id)
call_object-KeepsCalls id o p h =
    (call id p, call_object-func id o.dtype o p refl h, call-KeepsCode id p)

pub set_object_body-KeepsCalls : (lines : Lines) → KeepsCalls (set_object_body lines)
set_object_body-KeepsCalls lines o p h =
    (set_body lines p, set_object_body-func lines o.dtype o p refl h, set_body-KeepsCode lines p)

pub insert_called_func-Frame :
    (from_func : FunctionId) (id : ℕ) (e : ParseEngine)
    → Frame e (insert_called_func from_func id e)
unfolding insert_called_func
insert_called_func-Frame (name_of name) id e =
    adjust_object-Frame name (call_object id) e (call_object-KeepsCalls id)
insert_called_func-Frame (id_of j) id e = adjust_code-Frame j (call id) e (call-KeepsCode id)

pub get_globl-Frame :
    (from_func : FunctionId) (name : String) (e : ParseEngine)
    → Frame e (get_globl from_func name e).1
unfolding get_globl
get_globl-Frame from_func name e = elim (Option-cases (lookup name e.globl_name_to_id)) [
  | inl missing ↦ rw (missing, get_globl) (Frame-refl e)
  | inr (id, found) ↦ rw (found, get_globl) (insert_called_func-Frame from_func id e)
]
