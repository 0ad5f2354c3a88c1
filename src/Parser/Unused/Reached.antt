-- ===== src/Parser/Unused/Reached.antt =====
-- What the public and the internal functions reach, for `drop_unused_objects` of src/parser.rs.
use tvm_linker.Prelude.{
  ℕ, suc, some, List, [], ◌∷◌, String, true, Dict, Has, contains, include, length, string_key, ◌≡◌,
  refl, sym, subst, ◌⊎◌, inl, inr, ◌↔◌, arith, Bool-cases, some-eq, contains-include, ◌==◌, ◌||◌,
  nat_beq_iff, contains-include_old, contains-include_self, contains-nil,
}
use tvm_linker.Parser.State.{InternalFunc, Object, ParseEngine}
use tvm_linker.Parser.Unused.{find_func, enum_roots, used_ids, roots}
use tvm_linker.Parser.Unused.Closure.{
  Reaches, calls, through, Within, Closed, Post, then_ids-eq-some, enum_calling_funcs-Post,
}

-- What the public and the internal functions reach: their own ids, the ids that they call, and
-- those that are called by the functions which reached ids stand for.
pub data Reached (e : ParseEngine) : ℕ → Type 0 where
  root : (f : InternalFunc) → Has f (roots e) → Reached e f.id
  called :
      {b : ℕ} (f : InternalFunc) → Has f (roots e) → contains b f.called_ids ≡ true → Reached e b
  next :
      {a b : ℕ} (g : InternalFunc)
      → Reached e a
      → find_func a e.globl_name_to_object ≡ some g
      → contains b g.called_ids ≡ true
      → Reached e b

-- The id of a root stands for no function, or for one with the same calls.
abbrev pub IsResolved : Dict String Object → List InternalFunc → Type 0
IsResolved objects fs =
    (f g : InternalFunc) → Has f fs → find_func f.id objects ≡ some g → g.called_ids ≡ f.called_ids

module _ (objects : Dict String Object) where
  record Rooted (fs : List InternalFunc) (ids ids' : List ℕ) : Type 0 where
    grows : Within objects ids ids'
    listed : (f : InternalFunc) → Has f fs → contains f.id ids' ≡ true
    called_in : (f : InternalFunc) → Has f fs → Within objects f.called_ids ids'
    closed : IsResolved objects fs → Closed objects ids ids'
    sound :
        (a : ℕ)
        → contains a ids' ≡ true
        → (contains a ids ≡ true)
          ⊎ ((f : InternalFunc) × Has f fs × ((f.id ≡ a) ⊎ Reaches objects f.called_ids a))

  first_step :
      (f : InternalFunc) (fs : List InternalFunc) (ids mid ids' : List ℕ)
      → Post objects f ids mid
      → Rooted fs mid ids'
      → Rooted (f ∷ fs) ids ids'
  first_step f fs ids mid ids' p r = record {
    grows = λ a c. r.grows a (p.grows a (contains-include_old f.id a ids c));
    listed = λ g h. elim h [
      | inl same ↦ r.grows g.id (
          p.grows g.id (
            subst (λ t. contains t.id (include f.id ids) ≡ true) (sym same)
              (contains-include_self f.id ids)))
      | inr later ↦ r.listed g later
    ];
    called_in = λ g h. elim h [
      | inl same ↦
          λ b c. r.grows b (p.called b (subst (λ t. contains b t.called_ids ≡ true) same c))
      | inr later ↦ r.called_in g later
    ];
    closed = λ resolved a g c n k. elim (Bool-cases (contains a mid)) [
      | inr late ↦ r.closed (λ f' g' h. resolved f' g' (inr h)) a g c late k
      | inl early ↦ λ b t. r.grows b (early_closed resolved a g early n k b t)
    ];
    sound = λ a c. elim (r.sound a c) [
      | inr (g, h, s) ↦ inr (g, inr h, s)
      | inl early ↦ elim (p.sound a early) [
        | inl t ↦ own a (rw (contains-include f.id a ids) at t)
        | inr s ↦ inr (f, inl refl, inr s)
      ]
    ];
  }
    where
      own :
          (a : ℕ)
          → ((f.id == a) || contains a ids) ≡ true
          → (contains a ids ≡ true)
            ⊎ ((g : InternalFunc) × Has g (f ∷ fs) × ((g.id ≡ a) ⊎ Reaches objects g.called_ids a))
      own a t = elim (Bool-cases (f.id == a)) [
        | inl here ↦ inr (f, inl refl, inl ((nat_beq_iff f.id a).0 here))
        | inr other ↦ inl (rw other at t)
      ]

      early_closed : IsResolved objects (f ∷ fs) → Closed objects ids mid
      early_closed resolved a g c n k = elim (Bool-cases (f.id == a)) [
        | inl here ↦
            let at_root =
              subst (λ t. find_func t objects ≡ some g) (sym ((nat_beq_iff f.id a).0 here)) k in
            subst (λ t. Within objects t mid) (sym (resolved f g (inl refl) at_root)) p.called
        | inr other ↦ p.closed a g c (ground (arith, contains-include f.id a ids)) k
      ]

  enum_roots-Rooted :
      (fuel : ℕ) (fs : List InternalFunc) (ids ids' : List ℕ)
      → enum_roots objects fuel fs ids ≡ some ids'
      → Rooted fs ids ids'
  unfolding enum_roots
  enum_roots-Rooted fuel [] ids ids' h = subst (Rooted [] ids) (some-eq h) (record {
    grows = λ a c. c;
    listed = λ f m. absurd m;
    called_in = λ f m. absurd m;
    closed = λ resolved a g c n k. cc;
    sound = λ a c. inl c;
  })
  enum_roots-Rooted fuel (f ∷ fs) ids ids' h =
      let (mid, e, rest) = then_ids-eq-some objects _ _ h in
      first_step f fs ids mid ids' (enum_calling_funcs-Post objects fuel f ids mid e)
        (enum_roots-Rooted fuel fs mid ids' rest)

-- The collected ids are exactly the reached ones, where the id of each root stands for no function
-- or for one with the same calls.
pub used_ids_iff :
    (e : ParseEngine) (ids : List ℕ) (a : ℕ)
    → IsResolved e.globl_name_to_object (roots e)
    → used_ids e ≡ some ids
    → (contains a ids ≡ true) ↔ Reached e a
unfolding used_ids
used_ids_iff e ids a resolved h = (to, from a)
  where
    objects : Dict String Object
    objects = e.globl_name_to_object

    r : Rooted objects (roots e) [] ids
    r = enum_roots-Rooted objects (suc (length objects)) (roots e) [] ids h

    along :
        (f : InternalFunc) (b : ℕ) → Has f (roots e) → Reaches objects f.called_ids b → Reached e b
    along f b m (calls c) = called f m c
    along f b m (through {a = c} g s k t) = next g (along f c m s) k t

    to : contains a ids ≡ true → Reached e a
    to c = elim (r.sound a c) [
      | inl old ↦ cc (contains-nil a)
      | inr (f, m, inl same) ↦ subst (Reached e) same (root f m)
      | inr (f, m, inr s) ↦ along f a m s
    ]

    from : (b : ℕ) → Reached e b → contains b ids ≡ true
    from b (root f m) = r.listed f m
    from b (called f m c) = r.called_in f m b c
    from b (next {a = c} g s k t) = r.closed resolved c g (from c s) (contains-nil c) k b t
