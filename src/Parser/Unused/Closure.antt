-- ===== src/Parser/Unused/Closure.antt =====
-- The ids that `enum_calling_funcs` of src/parser.rs collects, and the calls between them.
use tvm_linker.Prelude.{
  ℕ, zero, suc, Option, none, some, List, [], ◌∷◌, String, true, false, Dict, contains, include,
  string_key, ◌≡◌, refl, sym, ◌∙◌, nat_beq_iff, include_self, contains-include_self,
  contains-include_old, subst, ◌⊎◌, inl, inr, arith, Bool-cases, some-eq, contains-include, ◌==◌,
  ◌||◌,
}
use tvm_linker.Parser.State.{InternalFunc, Object}
use tvm_linker.Parser.Unused.{find_func, Ids, then_ids, enum_found, enum_called, enum_calling_funcs}

module _ (objects : Dict String Object) where
  -- The ids of a list, and those that are called by the functions which such ids stand for.
  pub data Reaches (called : List ℕ) : ℕ → Type 0 where
    calls : {b : ℕ} → contains b called ≡ true → Reaches called b
    through :
        {a b : ℕ} (g : InternalFunc)
        → Reaches called a
        → find_func a objects ≡ some g
        → contains b g.called_ids ≡ true
        → Reaches called b

  Reaches-step :
      (called : List ℕ) (a : ℕ) (g : InternalFunc) {b : ℕ}
      → Reaches called a
      → find_func a objects ≡ some g
      → Reaches g.called_ids b
      → Reaches called b
  Reaches-step called a g r e (calls c) = through g r e c
  Reaches-step called a g r e (through h s k c) = through h (Reaches-step called a g r e s) k c

  Reaches-cons : (id : ℕ) (called : List ℕ) {b : ℕ} → Reaches called b → Reaches (id ∷ called) b
  unfolding contains
  Reaches-cons id called (calls c) = calls (ground arith)
  Reaches-cons id called (through g r k c) = through g (Reaches-cons id called r) k c

  abbrev pub Within : List ℕ → List ℕ → Type 0
  Within ids ids' = (a : ℕ) → contains a ids ≡ true → contains a ids' ≡ true

  -- Of each id that is new in `ids'` the calls are in it too.
  abbrev pub Closed : List ℕ → List ℕ → Type 0
  Closed ids ids' =
      (a : ℕ) (g : InternalFunc)
      → contains a ids' ≡ true
      → contains a ids ≡ false
      → find_func a objects ≡ some g
      → Within g.called_ids ids'

  pub record Post (f : InternalFunc) (ids ids' : List ℕ) : Type 0 where
    pub grows : Within (include f.id ids) ids'
    pub called : Within f.called_ids ids'
    pub closed : Closed (include f.id ids) ids'
    pub sound :
        (a : ℕ)
        → contains a ids' ≡ true
        → contains a (include f.id ids) ≡ true ⊎ Reaches f.called_ids a

  abbrev pub Enumerates : (InternalFunc → List ℕ → Ids) → Type 0
  Enumerates enum =
      (f : InternalFunc) (ids ids' : List ℕ) → enum f ids ≡ some ids' → Post f ids ids'

  pub then_ids-eq-some :
      (m : Ids) (f : List ℕ → Ids) {ids' : List ℕ}
      → then_ids m f ≡ some ids'
      → (ids : List ℕ) × (m ≡ some ids) × (f ids ≡ some ids')
  then_ids-eq-some none f h = cc
  then_ids-eq-some (some ids) f h = (ids, refl, h)

  find_func-id :
      (id : ℕ) (m : Dict String Object) (f : InternalFunc) → find_func id m ≡ some f → f.id ≡ id
  unfolding find_func
  find_func-id id [] f h = cc
  find_func-id id ((name, o) ∷ m) f h = ground (arith, find_func-id id m f)

  module _ (enum : InternalFunc → List ℕ → Ids) (good : Enumerates enum) where
    record Step (id : ℕ) (ids ids' : List ℕ) : Type 0 where
      grows : Within (include id ids) ids'
      closed : Closed ids ids'
      sound :
          (a : ℕ)
          → contains a ids' ≡ true
          → contains a (include id ids) ≡ true
            ⊎ ((g : InternalFunc) × (find_func id objects ≡ some g) × Reaches g.called_ids a)

    enum_found-Step :
        (id : ℕ) (ids ids' : List ℕ) (o : Option InternalFunc)
        → find_func id objects ≡ o
        → contains id ids ≡ false
        → enum_found objects enum o (include id ids) ≡ some ids'
        → Step id ids ids'
    unfolding enum_found
    enum_found-Step id ids ids' none e new h = subst (Step id ids) (some-eq h) (record {
      grows = λ a c. c;
      closed = λ a g c n k. absurd (alone a g c n k);
      sound = λ a c. inl c;
    })
      where
        alone :
            (a : ℕ) (g : InternalFunc)
            → contains a (include id ids) ≡ true
            → contains a ids ≡ false
            → find_func a objects ≡ some g
            → ⊥
        alone a g c n k = elim (Bool-cases (id == a)) [
          | inl same ↦ cc (subst (λ t. find_func t objects ≡ none) ((nat_beq_iff id a).0 same) e)
          | inr other ↦ ground (arith, contains-include id a ids)
        ]
    enum_found-Step id ids ids' (some f) e new h = record {
      grows = λ a c. p.grows a (rw (sym same) at c);
      closed = closed;
      sound = λ a c. elim (p.sound a c) [ inl old ↦ inl (rw same at old) | inr r ↦ inr (f, e, r) ];
    }
      where
        p : Post f (include id ids) ids'
        p = good f (include id ids) ids' h

        same : include f.id (include id ids) ≡ include id ids
        same =
            include_self f.id (include id ids)
              (rw (find_func-id id objects f e) (contains-include_self id ids))

        closed : Closed ids ids'
        closed a g c n k = elim (Bool-cases (id == a)) [
          | inl here ↦
              let at_a = subst (λ t. find_func t objects ≡ some f) ((nat_beq_iff id a).0 here) e in
              subst (λ t. Within t.called_ids ids') (some-eq (sym at_a ∙ k)) p.called
          | inr other ↦ p.closed a g c (rw same (ground (arith, contains-include id a ids))) k
        ]

    -- What the loop over the called ids adds.
    record Loop (called ids ids' : List ℕ) : Type 0 where
      grows : Within ids ids'
      listed : Within called ids'
      closed : Closed ids ids'
      sound : (a : ℕ) → contains a ids' ≡ true → (contains a ids ≡ true) ⊎ Reaches called a

    after_old :
        (id : ℕ) (called ids ids' : List ℕ)
        → contains id ids ≡ true
        → Loop called ids ids'
        → Loop (id ∷ called) ids ids'
    unfolding contains
    after_old id called ids ids' old l = record {
      grows = l.grows;
      listed = λ a c. elim (Bool-cases (id == a)) [
        | inl here ↦
            subst (λ t. contains t ids' ≡ true) ((nat_beq_iff id a).0 here) (l.grows id old)
        | inr other ↦ l.listed a (rw other at c)
      ];
      closed = l.closed;
      sound = λ a c. elim (l.sound a c) [ inl m ↦ inl m | inr r ↦ inr (Reaches-cons id called r) ];
    }

    after_new :
        (id : ℕ) (called ids mid ids' : List ℕ)
        → Step id ids mid
        → Loop called mid ids'
        → Loop (id ∷ called) ids ids'
    unfolding contains
    after_new id called ids mid ids' s l = record {
      grows = λ a c. l.grows a (s.grows a (contains-include_old id a ids c));
      listed = λ a c. elim (Bool-cases (id == a)) [
        | inl here ↦
            subst (λ t. contains t ids' ≡ true) ((nat_beq_iff id a).0 here)
              (l.grows id (s.grows id (contains-include_self id ids)))
        | inr other ↦ l.listed a (rw other at c)
      ];
      closed = λ a g c n k. elim (Bool-cases (contains a mid)) [
        | inl m ↦ λ b t. l.grows b (s.closed a g m n k b t)
        | inr m ↦ l.closed a g c m k
      ];
      sound = λ a c. elim (l.sound a c) [
        | inl m ↦ elim (s.sound a m) [
          | inl t ↦ first a (rw (contains-include id a ids) at t)
          | inr (g, k, r) ↦
              inr (Reaches-step (id ∷ called) id g (calls (ground (arith, nat_beq_iff id id))) k r)
        ]
        | inr r ↦ inr (Reaches-cons id called r)
      ];
    }
      where
        first :
            (a : ℕ)
            → ((id == a) || contains a ids) ≡ true
            → (contains a ids ≡ true) ⊎ Reaches (id ∷ called) a
        first a t = elim (Bool-cases (id == a)) [
          | inl here ↦ inr (calls (rw here))
          | inr other ↦ inl (rw other at t)
        ]

    enum_called-Loop :
        (called ids ids' : List ℕ)
        → enum_called objects enum called ids ≡ some ids'
        → Loop called ids ids'
    unfolding enum_called
    enum_called-Loop [] ids ids' h = subst (Loop [] ids) (some-eq h) (record {
      grows = λ a c. c;
      listed = λ a c. unfold contains in cc;
      closed = λ a g c n k. cc;
      sound = λ a c. inl c;
    })
    enum_called-Loop (id ∷ called) ids ids' h = elim (Bool-cases (contains id ids)) [
      | inl old ↦
          after_old id called ids ids' old (enum_called-Loop called ids ids' (rw (old) at h))
      | inr new ↦
          let (mid, e, rest) = then_ids-eq-some _ _ (rw new at h) in
          after_new id called ids mid ids'
            (enum_found-Step id ids mid (find_func id objects) refl new e)
            (enum_called-Loop called mid ids' rest)
    ]

  pub enum_calling_funcs-Post : (fuel : ℕ) → Enumerates (enum_calling_funcs objects fuel)
  unfolding enum_calling_funcs
  enum_calling_funcs-Post zero f ids ids' h = cc
  enum_calling_funcs-Post (suc fuel) f ids ids' h =
      let l =
        enum_called-Loop (enum_calling_funcs objects fuel) (enum_calling_funcs-Post fuel)
          f.called_ids (include f.id ids) ids' h in
      record { grows = l.grows; called = l.listed; closed = l.closed; sound = l.sound }
