-- ===== src/Disasm/Opcodes/Fits.antt =====
-- The comparison of the opcode checks of src/disasm/loader.rs with `is_broken`, for a whole table.
use tvm_linker.Prelude.{
  ◌≡◌, refl, sym, ap, subst, ◌∙◌, ℕ, List, ◌∷◌, Bool, true, false, not, ◌||◌, ◌==◌, leb, inl, inr,
  ◌∷◌,
}
use tvm_linker.Outcome.{ok, ok-injective}
use tvm_linker.Disasm.Handler.{LoadHandler, unknown, insn, custom, is_unknown, accepts, leading}
use tvm_linker.Disasm.Lookup.{
  all_from, leaf_or, every, all-entry, every-passes, Handler-cases, get_handler-direct,
  get_handler-subset,
}
use tvm_linker.Disasm.Handlers.{Handlers, handlers, entry, subset_at, get_handler}
use tvm_linker.Disasm.Opcodes.{is_broken}

-- A test passes on an unknown handler; on another one it compares the acceptance with the list.
unfoldable pub agrees : Bool → Bool → Bool → Bool
agrees true accepted broken = true
agrees false accepted true = not accepted
agrees false accepted false = accepted

unfoldable pub fits : ℕ → ℕ → LoadHandler → Bool
unfolding agrees
fits b0 b1 h = agrees (is_unknown h) (accepts h b0 b1) (is_broken b0 b1)

-- The bytes that begin longer opcodes.
unfoldable pub is_prefix : ℕ → Bool
is_prefix b0 =
    (b0 == 0x54)
    || (b0 == 0x6F)
    || (b0 == 0xB7)
    || (b0 == 0xCF)
    || (b0 == 0xD7)
    || (b0 == 0xE3)
    || (b0 == 0xF4)

-- A handler that reads no more than the first byte.
unfoldable pub is_narrow : LoadHandler → Bool
is_narrow unknown = true
is_narrow (insn width opcode mnemonic behavior refs) = leb width 8
is_narrow (custom width test rest) = leb width 8

unfoldable pub alone : Bool → Bool → Bool → Bool → Bool
alone true prefix narrow fit = true
alone false true narrow fit = false
alone false false false fit = false
alone false false true fit = fit

unfoldable pub fits_alone : ℕ → LoadHandler → Bool
unfolding alone
fits_alone b0 h = alone (is_unknown h) (is_prefix b0) (is_narrow h) (fits b0 0 h)

-- The tests, level by level.
unfoldable pub fits_second : ℕ → Handlers → Bool
unfolding fits all_from leaf_or every
fits_second b0 (handlers ds ss) =
    all_from 0 ds (λ b1 e. leaf_or (every 1 (fits b0 b1)) (fits b0 b1) ss e)

unfoldable pub fits_page : Handlers → Bool
unfolding fits_second fits_alone
fits_page (handlers ds ss) = all_from 0 ds (λ b0 e. leaf_or (fits_second b0) (fits_alone b0) ss e)

or-false : (a : Bool) {b : Bool} → (a || b) ≡ false → (a ≡ false) × (b ≡ false)
or-false true h = cc
or-false false h = (refl, h)

agrees-eq : (u a k : Bool) → agrees u a k ≡ true → u ≡ false → a ≡ not k
unfolding agrees
agrees-eq true a k t n = cc
agrees-eq false true true t n = cc
agrees-eq false false true t n = refl
agrees-eq false a false t n = t

alone-eq :
    (u x n f : Bool) → alone u x n f ≡ true → u ≡ false → (x ≡ false) × (n ≡ true) × (f ≡ true)
unfolding alone
alone-eq true x n f t k = cc
alone-eq false true n f t k = cc
alone-eq false false false f t k = cc
alone-eq false false true f t k = (refl, refl, t)

fits-accepts :
    (b0 b1 : ℕ) (h : LoadHandler)
    → fits b0 b1 h ≡ true
    → is_unknown h ≡ false
    → accepts h b0 b1 ≡ not (is_broken b0 b1)
unfolding fits
fits-accepts b0 b1 h t k = agrees-eq (is_unknown h) (accepts h b0 b1) (is_broken b0 b1) t k

fits-unknown : (b0 b1 : ℕ) → fits b0 b1 unknown ≡ true
unfolding fits agrees is_unknown
fits-unknown b0 b1 = refl

-- The second byte has no part in a handler that reads one byte.
narrow-accepts :
    (b0 b1 : ℕ) (h : LoadHandler) → is_narrow h ≡ true → accepts h b0 b1 ≡ accepts h b0 0
unfolding is_narrow accepts leading
narrow-accepts b0 b1 unknown t = refl
narrow-accepts b0 b1 (insn w o m b r) t = rw t refl
narrow-accepts b0 b1 (custom w test r) t = rw t refl

not_prefix-is_broken : (b0 b1 : ℕ) → is_prefix b0 ≡ false → is_broken b0 b1 ≡ is_broken b0 0
unfolding is_prefix is_broken
not_prefix-is_broken b0 b1 n =
    let (m1, nf4) = or-false _ n in
    let (m2, ne3) = or-false _ m1 in
    let (m3, nd7) = or-false _ m2 in
    let (m4, ncf) = or-false _ m3 in
    let (m5, nb7) = or-false _ m4 in
    let (n54, n6f) = or-false (b0 == 0x54) m5 in rw (n54, n6f, nb7, ncf, nd7, ne3, nf4) refl

fits_alone-accepts :
    (b0 b1 : ℕ) (h : LoadHandler)
    → fits_alone b0 h ≡ true
    → is_unknown h ≡ false
    → accepts h b0 b1 ≡ not (is_broken b0 b1)
unfolding fits_alone
fits_alone-accepts b0 b1 h t k =
    let (n, narrow, t0) = alone-eq (is_unknown h) (is_prefix b0) (is_narrow h) (fits b0 0 h) t k in
    narrow-accepts b0 b1 h narrow
    ∙ fits-accepts b0 0 h t0 k
    ∙ ap not (sym (not_prefix-is_broken b0 b1 n))

fits_second-accepts :
    (b0 b1 : ℕ) (bytes : List ℕ) (table : Handlers) (h : LoadHandler)
    → fits_second b0 table ≡ true
    → get_handler table (b1 ∷ bytes) ≡ ok h
    → is_unknown h ≡ false
    → accepts h b0 b1 ≡ not (is_broken b0 b1)
unfolding fits_second leaf_or
fits_second-accepts b0 b1 bytes (handlers ds ss) h t found known =
    let t_b =
      all-entry ds (λ i e. leaf_or (every 1 (fits b0 i)) (fits b0 i) ss e) b1 t
        (λ j. fits-unknown b0 j) in
    elim (Handler-cases (entry ds b1)) [
      | inl (g, e) ↦
          let same : ok g ≡ ok h = sym (get_handler-direct ds ss b1 bytes g e) ∙ found in
          let t_g = subst (λ x. leaf_or (every 1 (fits b0 b1)) (fits b0 b1) ss x ≡ true) e t_b in
          fits-accepts b0 b1 h (subst (λ x. fits b0 b1 x ≡ true) (ok-injective same) t_g) known
      | inr (i, e) ↦
          let t_i = subst (λ x. leaf_or (every 1 (fits b0 b1)) (fits b0 b1) ss x ≡ true) e t_b in
          let found_i = sym (get_handler-subset ds ss b1 bytes i e) ∙ found in
          let t_h =
            every-passes 1 (fits b0 b1) (subset_at ss i) bytes h t_i (fits-unknown b0 b1) found_i in
          fits-accepts b0 b1 h t_h known
    ]

pub fits_page-accepts :
    (b0 b1 : ℕ) (bytes : List ℕ) (table : Handlers) (h : LoadHandler)
    → fits_page table ≡ true
    → get_handler table (b0 ∷ b1 ∷ bytes) ≡ ok h
    → is_unknown h ≡ false
    → accepts h b0 b1 ≡ not (is_broken b0 b1)
unfolding fits_page leaf_or fits_alone alone is_unknown
fits_page-accepts b0 b1 bytes (handlers ds ss) h t found known =
    let t_b = all-entry ds (λ i e. leaf_or (fits_second i) (fits_alone i) ss e) b0 t (λ j. refl) in
    elim (Handler-cases (entry ds b0)) [
      | inl (g, e) ↦
          let same : ok g ≡ ok h = sym (get_handler-direct ds ss b0 (b1 ∷ bytes) g e) ∙ found in
          let t_g = subst (λ x. leaf_or (fits_second b0) (fits_alone b0) ss x ≡ true) e t_b in
          fits_alone-accepts b0 b1 h (subst (λ x. fits_alone b0 x ≡ true) (ok-injective same) t_g)
            known
      | inr (i, e) ↦
          fits_second-accepts b0 b1 bytes (subset_at ss i) h
            (subst (λ x. leaf_or (fits_second b0) (fits_alone b0) ss x ≡ true) e t_b)
            (sym (get_handler-subset ds ss b0 (b1 ∷ bytes) i e) ∙ found) known
    ]
