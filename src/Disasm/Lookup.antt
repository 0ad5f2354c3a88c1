-- ===== src/Disasm/Lookup.antt =====
-- `Handlers::get_handler` of src/disasm/handlers.rs, entry by entry, and tests of whole tables.
use tvm_linker.Prelude.{
  ◌≡◌, refl, sym, subst, ◌∙◌, ◌⊎◌, inl, inr, ℕ, zero, suc, ◌+◌, ◌≤◌, List, [], ◌∷◌, Bool, true,
  false, if◌then◌else◌, length, arith,
}
use tvm_linker.Outcome.{ok, ok-injective}
use tvm_linker.Disasm.Handler.{LoadHandler, unknown}
use tvm_linker.Disasm.Handlers.{
  Handler, direct, subset, Handlers, handlers, Subsets, entry, subset_at, get_handler,
}

pub Handler-cases :
    (e : Handler) → ((h : LoadHandler) × (e ≡ direct h)) ⊎ ((i : ℕ) × (e ≡ subset i))
Handler-cases (direct h) = inl (h, refl)
Handler-cases (subset i) = inr (i, refl)

pub get_handler-direct :
    (ds : List Handler) (ss : Subsets) (b : ℕ) (bytes : List ℕ) (h : LoadHandler)
    → entry ds b ≡ direct h
    → get_handler (handlers ds ss) (b ∷ bytes) ≡ ok h
unfolding get_handler
get_handler-direct ds ss b bytes h e = rw (e, get_handler)

pub get_handler-subset :
    (ds : List Handler) (ss : Subsets) (b : ℕ) (bytes : List ℕ) (i : ℕ)
    → entry ds b ≡ subset i
    → get_handler (handlers ds ss) (b ∷ bytes) ≡ get_handler (subset_at ss i) bytes
unfolding get_handler
get_handler-subset ds ss b bytes i e = rw (e, get_handler)

-- A test of the entries from the number `k` on.
unfoldable pub all_from : ℕ → List Handler → (ℕ → Handler → Bool) → Bool
all_from k [] p = true
all_from k (h ∷ hs) p = if p k h then all_from (suc k) hs p else false

-- A test of the handler in an entry, or of the table that the entry leads to.
unfoldable pub leaf_or : (Handlers → Bool) → (LoadHandler → Bool) → Subsets → Handler → Bool
leaf_or deeper p ss (direct h) = p h
leaf_or deeper p ss (subset i) = deeper (subset_at ss i)

-- A test of every handler in a table that is at most `n` levels deep.
unfoldable pub every : ℕ → (LoadHandler → Bool) → Handlers → Bool
unfolding all_from leaf_or
every zero p table = false
every (suc n) p (handlers directs subsets) =
    all_from 0 directs (λ i e. leaf_or (λ table. every n p table) p subsets e)

all_from-suc :
    (k : ℕ) (h : Handler) (hs : List Handler) (p : ℕ → Handler → Bool)
    → all_from k (h ∷ hs) p ≡ true
    → (p k h ≡ true) × (all_from (suc k) hs p ≡ true)
unfolding all_from
all_from-suc k h hs p t = ground arith

-- An entry outside the table is `unknown`, which the test has to allow.
pub all_from-entry :
    (k : ℕ) (ds : List Handler) (p : ℕ → Handler → Bool) (i : ℕ)
    → all_from k ds p ≡ true
    → ((j : ℕ) → p j (direct unknown) ≡ true)
    → p (k + i) (entry ds i) ≡ true
unfolding entry
all_from-entry k [] p i t u = u (k + i)
all_from-entry k (h ∷ ds) p zero t u =
    let e0 : k ≡ k + 0 = omega arith in subst (λ j. p j h ≡ true) e0 ((all_from-suc k h ds p t).0)
all_from-entry k (h ∷ ds) p (suc i) t u =
    let e1 : suc k + i ≡ k + suc i = omega arith in
    subst (λ j. p j (entry ds i) ≡ true) e1
      (all_from-entry (suc k) ds p i ((all_from-suc k h ds p t).1) u)

every-entry :
    (n : ℕ) (p : LoadHandler → Bool) (ds : List Handler) (ss : Subsets) (b : ℕ)
    → every (suc n) p (handlers ds ss) ≡ true
    → p unknown ≡ true
    → leaf_or (every n p) p ss (entry ds b) ≡ true
unfolding every leaf_or
every-entry n p ds ss b t u = all_from-entry 0 ds (λ i e. leaf_or (every n p) p ss e) b t (λ j. u)

-- What a lookup finds passes the test, and bytes for every level find something.
pub every-get_handler :
    (n : ℕ) (p : LoadHandler → Bool) (table : Handlers) (bytes : List ℕ)
    → every n p table ≡ true
    → p unknown ≡ true
    → n ≤ length bytes
    → (h : LoadHandler) × (get_handler table bytes ≡ ok h) × (p h ≡ true)
unfolding every leaf_or
every-get_handler zero p table bytes t u long = cc
every-get_handler (suc n) p (handlers ds ss) [] t u long = absurd (omega (arith, long))
every-get_handler (suc n) p (handlers ds ss) (b ∷ bytes) t u long =
    let t_b = every-entry n p ds ss b t u in
    elim (Handler-cases (entry ds b)) [
      | inl (h, e) ↦ (
        h,
        get_handler-direct ds ss b bytes h e,
        subst (λ x. leaf_or (every n p) p ss x ≡ true) e t_b,
      )
      | inr (i, e) ↦
          let (h, found, passes) =
            every-get_handler n p (subset_at ss i) bytes
              (subst (λ x. leaf_or (every n p) p ss x ≡ true) e t_b) u (omega (arith, long)) in
          (h, get_handler-subset ds ss b bytes i e ∙ found, passes)
    ]

-- What a lookup finds passes the test.
pub every-passes :
    (n : ℕ) (p : LoadHandler → Bool) (table : Handlers) (bytes : List ℕ) (h : LoadHandler)
    → every n p table ≡ true
    → p unknown ≡ true
    → get_handler table bytes ≡ ok h
    → p h ≡ true
unfolding every leaf_or get_handler
every-passes zero p table bytes h t u found = cc
every-passes (suc n) p (handlers ds ss) [] h t u found = cc
every-passes (suc n) p (handlers ds ss) (b ∷ bytes) h t u found =
    let t_b = every-entry n p ds ss b t u in
    elim (Handler-cases (entry ds b)) [
      | inl (g, e) ↦
          let same : ok g ≡ ok h = sym (get_handler-direct ds ss b bytes g e) ∙ found in
          subst (λ x. p x ≡ true) (ok-injective same)
            (subst (λ x. leaf_or (every n p) p ss x ≡ true) e t_b)
      | inr (i, e) ↦
          every-passes n p (subset_at ss i) bytes h
            (subst (λ x. leaf_or (every n p) p ss x ≡ true) e t_b) u
            (sym (get_handler-subset ds ss b bytes i e) ∙ found)
    ]

pub all-entry :
    (ds : List Handler) (p : ℕ → Handler → Bool) (i : ℕ)
    → all_from 0 ds p ≡ true
    → ((j : ℕ) → p j (direct unknown) ≡ true)
    → p i (entry ds i) ≡ true
all-entry ds p i t u =
    let e : 0 + i ≡ i = omega arith in
    subst (λ j. p j (entry ds i) ≡ true) e (all_from-entry 0 ds p i t u)
