-- ===== src/Disasm/Register.antt =====
-- What `register_handler` and `add_subset` of src/disasm/handlers.rs do to later lookups.
use tvm_linker.Prelude.{
  ◌≡◌, refl, sym, ap, subst, ◌∙◌, inl, inr, ℕ, zero, suc, ◌<◌, List, [], ◌∷◌, Bool, true, false,
  if◌then◌else◌, ◌==◌, length, arith, Bool-cases,
}
use tvm_linker.Outcome.{panic, ok, err, ok-injective}
use tvm_linker.Disasm.Handler.{LoadHandler}
use tvm_linker.Disasm.Handlers.{
  Handler, direct, subset, Handlers, handlers, Subsets, no_subsets, with_subset, entry, replace,
  count, push_subset, subset_at, is_free, set, put_subset, get_handler,
}
use tvm_linker.Disasm.Lookup.{Handler-cases, get_handler-direct, get_handler-subset}

entry-replace :
    (ds : List Handler) (code b : ℕ) (h : Handler)
    → code < length ds
    → entry (replace ds code h) b ≡ (if code == b then h else entry ds b)
unfolding entry replace
entry-replace [] code b h lt = absurd (omega (arith, lt))
entry-replace (g ∷ ds) zero zero h lt = refl
entry-replace (g ∷ ds) zero (suc b) h lt = ground arith
entry-replace (g ∷ ds) (suc code) zero h lt = ground arith
entry-replace (g ∷ ds) (suc code) (suc b) h lt = ground (arith, entry-replace ds code b h)

subset_at-push_old :
    (ss : Subsets) (inner : Handlers) (i : ℕ)
    → i < count ss
    → subset_at (push_subset ss inner) i ≡ subset_at ss i
unfolding subset_at push_subset count
subset_at-push_old no_subsets inner i lt = absurd (omega (arith, lt))
subset_at-push_old (with_subset g ss) inner zero lt = refl
subset_at-push_old (with_subset g ss) inner (suc i) lt =
    subset_at-push_old ss inner i (omega (arith, lt))

subset_at-push_new :
    (ss : Subsets) (inner : Handlers) → subset_at (push_subset ss inner) (count ss) ≡ inner
unfolding subset_at push_subset count
subset_at-push_new no_subsets inner = refl
subset_at-push_new (with_subset g ss) inner = subset_at-push_new ss inner

count-push_subset :
    (ss : Subsets) (inner : Handlers) → count (push_subset ss inner) ≡ suc (count ss)
unfolding push_subset count
count-push_subset no_subsets inner = refl
count-push_subset (with_subset g ss) inner = ap suc (count-push_subset ss inner)

-- Each reference to a subset is to one that is there.
abbrev pub IsLinked : Handlers → Type 0
IsLinked (handlers ds ss) = (b i : ℕ) → entry ds b ≡ subset i → i < count ss

-- The lookup is decided by the entry and, where that is a subset, by the subset.
get_handler-same :
    (ds es : List Handler) (ss ts : Subsets) (b : ℕ) (bytes : List ℕ)
    → entry es b ≡ entry ds b
    → ((i : ℕ) → entry ds b ≡ subset i → subset_at ts i ≡ subset_at ss i)
    → get_handler (handlers es ts) (b ∷ bytes) ≡ get_handler (handlers ds ss) (b ∷ bytes)
get_handler-same ds es ss ts b bytes same at = elim (Handler-cases (entry ds b)) [
  | inl (h, e) ↦
      get_handler-direct es ts b bytes h (same ∙ e) ∙ sym (get_handler-direct ds ss b bytes h e)
  | inr (i, e) ↦
      get_handler-subset es ts b bytes i (same ∙ e)
      ∙ ap (λ t. get_handler t bytes) (at i e)
      ∙ sym (get_handler-subset ds ss b bytes i e)
]

if-eq-ok : {A : Type 0} (t : Bool) (a c : A) → (if t then ok a else err panic) ≡ ok c → a ≡ c
if-eq-ok true a c h = ok-injective h
if-eq-ok false a c h = cc

entry-replace_here :
    (ds : List Handler) (code b : ℕ) (h : Handler)
    → code < length ds
    → (code == b) ≡ true
    → entry (replace ds code h) b ≡ h
entry-replace_here ds code b h lt same = rw (entry-replace ds code b h lt, same) refl

entry-replace_else :
    (ds : List Handler) (code b : ℕ) (h : Handler)
    → code < length ds
    → (code == b) ≡ false
    → entry (replace ds code h) b ≡ entry ds b
entry-replace_else ds code b h lt other = rw (entry-replace ds code b h lt, other) refl

-- A handler that `set` registers under a code of the table is found under that code, and what is
-- found under every other byte stays.
pub set-get_handler :
    (code : ℕ) (h : LoadHandler) (ds : List Handler) (ss : Subsets) (table : Handlers) (b : ℕ)
    (bytes : List ℕ)
    → code < length ds
    → set code h (handlers ds ss) ≡ ok table
    → get_handler table (b ∷ bytes)
      ≡ (if code == b then ok h else get_handler (handlers ds ss) (b ∷ bytes))
unfolding set
set-get_handler code h ds ss table b bytes lt done =
    subst
      (λ t.
        get_handler t (b ∷ bytes)
        ≡ (if code == b then ok h else get_handler (handlers ds ss) (b ∷ bytes)))
      (if-eq-ok (is_free (entry ds code)) _ table done)
      (elim (Bool-cases (code == b)) [
        | inl same ↦ rw same (
            get_handler-direct (replace ds code (direct h)) ss b bytes h
              (entry-replace_here ds code b (direct h) lt same))
        | inr other ↦ rw other (
            get_handler-same ds (replace ds code (direct h)) ss ss b bytes
              (entry-replace_else ds code b (direct h) lt other) (λ i e. refl))
      ])

module _ (code : ℕ) (ds : List Handler) (ss : Subsets) (inner : Handlers) (lt : code < length ds)
    (linked : IsLinked (handlers ds ss)) where
  abbrev grown : Handlers
  grown = handlers (replace ds code (subset (count ss))) (push_subset ss inner)

  grown-get_handler :
      (b : ℕ) (bytes : List ℕ)
      → get_handler grown (b ∷ bytes)
        ≡ (if code == b then get_handler inner bytes else get_handler (handlers ds ss) (b ∷ bytes))
  grown-get_handler b bytes = elim (Bool-cases (code == b)) [
    | inl same ↦ rw same (
        get_handler-subset (replace ds code (subset (count ss))) (push_subset ss inner) b bytes
          (count ss) (entry-replace_here ds code b (subset (count ss)) lt same)
        ∙ ap (λ t. get_handler t bytes) (subset_at-push_new ss inner))
    | inr other ↦ rw other (
        get_handler-same ds (replace ds code (subset (count ss))) ss (push_subset ss inner) b bytes
          (entry-replace_else ds code b (subset (count ss)) lt other)
          (λ i e. subset_at-push_old ss inner i (linked b i e)))
  ]

  grown-IsLinked : IsLinked grown
  grown-IsLinked b i e = elim (Bool-cases (code == b)) [
    | inl same ↦
        let new : subset (count ss) ≡ subset i =
          sym (entry-replace_here ds code b (subset (count ss)) lt same) ∙ e in
        let number : count ss ≡ i = cc new in omega (arith, count-push_subset ss inner, number)
    | inr other ↦
        let old = sym (entry-replace_else ds code b (subset (count ss)) lt other) ∙ e in
        omega (arith, count-push_subset ss inner, linked b i old)
  ]

-- A subset that `put_subset`, the body of `add_subset`, registers under a code of a linked table
-- decides the slices that begin with that code, what is found under every other byte stays, and the
-- table is linked again.
pub put_subset-get_handler :
    (code : ℕ) (inner : Handlers) (ds : List Handler) (ss : Subsets) (table : Handlers) (b : ℕ)
    (bytes : List ℕ)
    → code < length ds
    → IsLinked (handlers ds ss)
    → put_subset code inner (handlers ds ss) ≡ ok table
    → (get_handler table (b ∷ bytes)
        ≡ (if code == b then get_handler inner bytes else get_handler (handlers ds ss) (b ∷ bytes)))
      × IsLinked table
unfolding put_subset
put_subset-get_handler code inner ds ss table b bytes lt linked done =
    subst
      (λ t.
        (get_handler t (b ∷ bytes) ≡ (
          if code == b then get_handler inner bytes else get_handler (handlers ds ss) (b ∷ bytes)))
        × IsLinked t)
      (if-eq-ok (is_free (entry ds code)) _ table done)
      (
        grown-get_handler code ds ss inner lt linked b bytes,
        grown-IsLinked code ds ss inner lt linked,
      )
