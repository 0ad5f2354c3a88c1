-- ===== src/Parser/Labels/Records.antt =====
-- Calls on record: what `insert_called_func` of src/parser.rs leaves in a function.
use tvm_linker.Prelude.{
  ℕ, List, [], ◌∷◌, ◌++◌, String, true, false, none, some, some-eq, ◌≡◌, refl, Option-cases, inl,
  inr, Has, lookup, lookup-adjust, string_key, int_key, starts_with,
}
use tvm_linker.Parser.State.{
  Line, InternalFunc, Object, ObjectType, function, untyped, object, ParseEngine, func, data_of,
}
use tvm_linker.Parser.Externals.{NameCapture, Externals}
use tvm_linker.Parser.Labels.{
  FunctionId, name_of, id_of, call, call_object, insert_called_func, get_globl, get_address,
}
use tvm_linker.Parser.Labels.Frame.{Frame, func_of, function_of}
use tvm_linker.Resolver.{split_comment, has_dollar}

-- The function has the id among its calls.
abbrev pub Records : FunctionId → ParseEngine → ℕ → Type 0
Records fr e id = (f : InternalFunc) × (function_of fr e ≡ some f) × Has id f.called_ids

pub Frame-Records :
    (e e' : ParseEngine) (fr : FunctionId) (id : ℕ)
    → Frame e e'
    → Records fr e id
    → Records fr e' id
Frame-Records e e' fr id k (f, there, has) =
    let (g, here, keep) = k.funcs fr f there in (g, here, keep id has)

-- A name that stands for a global function with an id, and for nothing else.
pub record IsGlobalFunction (e : ParseEngine) (name : String) (id : ℕ) : Type 0 where
  pub no_internal : lookup name e.internal_name_to_id ≡ none
  pub globl : lookup name e.globl_name_to_id ≡ some id
  pub defined : (f : InternalFunc) × (function_of (name_of name) e ≡ some f)
  pub no_global_base : string_key.beq name "global-base" ≡ false
  pub no_persistent_base : string_key.beq name "persistent-base" ≡ false

pub Frame-IsGlobalFunction :
    (e e' : ParseEngine) (name : String) (id : ℕ)
    → Frame e e'
    → IsGlobalFunction e name id
    → IsGlobalFunction e' name id
Frame-IsGlobalFunction e e' name id k g = record {
  no_internal = rw k.names g.no_internal;
  globl = rw k.ids g.globl;
  defined =
      let (f, there) = g.defined in
      let (f', here, keep) = k.funcs (name_of name) f there in (f', here);
  no_global_base = g.no_global_base;
  no_persistent_base = g.no_persistent_base;
}

-- A line with the name between dollar signs, and one that mentions it in either way.
pub record HasLabel (x : Externals) (l : Line) (name : String) : Type 0 where
  pub no_inline : starts_with l.text ".inline" ≡ false
  pub dollar : has_dollar (split_comment l.text).0 ≡ true
  pub capture : NameCapture
  pub begin : ℕ
  pub member : Has capture (x.names (split_comment l.text).0)
  pub named : capture.id ≡ some (begin, name)

pub data Mentions (x : Externals) (l : Line) (name : String) : Type 0 where
  inlined : starts_with l.text ".inline" ≡ true → x.inline l.text ≡ some name → Mentions x l name
  labelled : HasLabel x l name → Mentions x l name

Has-last : {A : Type 0} (a : A) (xs : List A) → Has a (xs ++ a ∷ [])
Has-last a [] = inl refl
Has-last a (x ∷ xs) = inr (Has-last a xs)

call-Has : (id : ℕ) (f : InternalFunc) → Has id (call id f).called_ids
unfolding call
call-Has id f = Has-last id f.called_ids

func_of-call :
    (d : ObjectType) (o : Object) (f : InternalFunc) (id : ℕ)
    → o.dtype ≡ d
    → func d ≡ some f
    → func (call_object id o).dtype ≡ some (call id f)
unfolding func call_object
func_of-call (function g) o f id e h = rw (e, call_object) cc
func_of-call untyped o f id e h = cc
func_of-call (object d) o f id e h = cc

insert_called_func-Records :
    (fr : FunctionId) (e : ParseEngine) (f : InternalFunc) (id : ℕ)
    → function_of fr e ≡ some f
    → Records fr (insert_called_func fr id e) id
unfolding insert_called_func function_of func_of
insert_called_func-Records (id_of j) e f id h = (
  call id f,
  rw (lookup-adjust j j (call id) e.internal_id_to_code, (int_key.beq_iff j j).1 refl, h) refl,
  call-Has id f,
)
insert_called_func-Records (name_of n) e f id h =
    elim (Option-cases (lookup n e.globl_name_to_object)) [
      | inl missing ↦ cc (rw (missing, func_of) at h)
      | inr (o, found) ↦ (
        call id f,
        rw
            (
              lookup-adjust n n (call_object id) e.globl_name_to_object,
              (string_key.beq_iff n n).1 refl,
              found,
            )
            (func_of-call o.dtype o f id refl (rw (found, func_of) at h)),
        call-Has id f,
      )
    ]

pub get_globl-Records :
    (fr : FunctionId) (name : String) (e : ParseEngine) (f : InternalFunc) (id : ℕ)
    → function_of fr e ≡ some f
    → (get_globl fr name e).0 ≡ some id
    → Records fr (get_globl fr name e).1 id
unfolding get_globl
get_globl-Records fr name e f id h got = elim (Option-cases (lookup name e.globl_name_to_id)) [
  | inl missing ↦ cc (rw (missing, get_globl) at got)
  | inr (k, found) ↦
      let this : k ≡ id = some-eq (rw (found, get_globl) at got) in
      rw (found, get_globl, this) (insert_called_func-Records fr e f id h)
]

pub get_globl-eq :
    (fr : FunctionId) (name : String) (e : ParseEngine)
    → (get_globl fr name e).0 ≡ lookup name e.globl_name_to_id
unfolding get_globl
get_globl-eq fr name e = elim (Option-cases (lookup name e.globl_name_to_id)) [
  | inl missing ↦ rw (missing, get_globl) refl
  | inr (k, found) ↦ rw (found, get_globl) refl
]

-- A function has no address.
func-no_data : (d : ObjectType) (f : InternalFunc) → func d ≡ some f → data_of d ≡ none
unfolding func data_of
func-no_data (function g) f h = refl
func-no_data untyped f h = refl
func-no_data (object d) f h = cc

pub get_address-none :
    (name : String) (e : ParseEngine) (f : InternalFunc)
    → function_of (name_of name) e ≡ some f
    → (get_address name e).0 ≡ none
unfolding get_address function_of func_of
get_address-none name e f h = elim (Option-cases (lookup name e.globl_name_to_object)) [
  | inl missing ↦ rw (missing, get_address) refl
  | inr (o, found) ↦ rw (found, func-no_data o.dtype f (rw (found, func_of) at h), get_address) refl
]
