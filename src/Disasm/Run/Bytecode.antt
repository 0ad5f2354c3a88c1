-- ===== src/Disasm/Run/Bytecode.antt =====
-- The bytecodes that `load_slice` of src/disasm/loader.rs gives to the instructions.
use tvm_linker.Prelude.{
  ℕ, zero, suc, ◌-◌, ◌+◌, ◌==◌, List, [], ◌∷◌, ◌++◌, Bool, Option, none, some, ◌≡◌, refl, sym, ap,
  subst, ◌∙◌, Option-cases, Bool-cases, inl, inr, arith, nat_beq_iff,
}
use tvm_linker.Outcome.{
  Result, Result-cases, ok-injective, ok, err, Holds, and_then, and_then-eq-ok,
}
use tvm_linker.Parser.Cell.{Cell}
use tvm_linker.Disasm.Types.{
  Slice, Instruction, instruction, Code, no_code, more_code, set_bytecode, bytecode_of,
}
use tvm_linker.Disasm.Operands.{
  Load, done, refuse, abort, next_int, next_byte, next_slice, trim, part, skip, drain, load_cell,
  load, size,
}
use tvm_linker.Disasm.Handler.{LoadHandler, operands, opcode_width}
use tvm_linker.Disasm.Handlers.{Handlers, get_handler}
use tvm_linker.Disasm.Run.{
  SliceData, History, Loading, bytes, read, run, taken, load_next, load_slice,
}

abbrev pub first : ℕ → List Bool → List Bool
first zero bs = []
first (suc n) [] = []
first (suc n) (b ∷ bs) = b ∷ first n bs

-- The rest of a slice after some bits were read.
abbrev pub Follows : Slice → Slice → Type 0
Follows s rest = (used : List Bool) × (s.data_bits ≡ used ++ rest.data_bits)

-- What is relied on of the crate of cells: reading goes on behind the bits that were read, and
-- `shrink_data(..n)` keeps the first bits.
pub record IsReader (d : SliceData) : Type 0 where
  pub after_int :
      (n v : ℕ) (s rest : Slice)
      → d.get_next_int n s ≡ some (v, rest)
      → (used : List Bool) × (s.data_bits ≡ used ++ rest.data_bits) × (size used ≡ n)
  pub after_byte : (v : ℕ) (s rest : Slice) → d.get_next_byte s ≡ some (v, rest) → Follows s rest
  pub after_slice :
      (n : ℕ) (s t rest : Slice) → d.get_next_slice n s ≡ some (t, rest) → Follows s rest
  pub after_skip : (n r : ℕ) (s : Slice) → Follows s (d.go_on n r s)
  pub after_drain :
      (s rest : Slice) (c : Cell) → d.checked_drain_reference s ≡ some (c, rest) → Follows s rest
  pub kept : (n r : ℕ) (s : Slice) → (d.shrink n r s).data_bits ≡ first n s.data_bits

append_nil : (bs : List Bool) → [] ++ bs ≡ bs
append_nil bs = refl

append_assoc : (xs bs cs : List Bool) → (xs ++ bs) ++ cs ≡ xs ++ (bs ++ cs)
append_assoc [] bs cs = refl
append_assoc (a ∷ xs) bs cs = ap (λ t. a ∷ t) (append_assoc xs bs cs)

pub int-Follows :
    (d : SliceData) (l : IsReader d) (n v : ℕ) (s rest : Slice)
    → d.get_next_int n s ≡ some (v, rest)
    → Follows s rest
int-Follows d l n v s rest found = let (used, p, long) = l.after_int n v s rest found in (used, p)

Follows-refl : (s : Slice) → Follows s s
Follows-refl s = ([], refl)

Follows-trans : (s t u : Slice) → Follows s t → Follows t u → Follows s u
Follows-trans s t u (xs, p) (bs, q) =
    (xs ++ bs, p ∙ ap (λ w. xs ++ w) q ∙ sym (append_assoc xs bs u.data_bits))

pub size-append : (xs bs : List Bool) → size (xs ++ bs) ≡ size xs + size bs
unfolding size
size-append [] bs = omega arith
size-append (a ∷ xs) bs = let later = size-append xs bs in omega (arith, later)

first-append : (xs bs : List Bool) → first (size xs) (xs ++ bs) ≡ xs
unfolding size
first-append [] bs = refl
first-append (a ∷ xs) bs = ap (λ t. a ∷ t) (first-append xs bs)

-- The bits of a part that was read, and those behind it.
first-Follows :
    (s rest : Slice)
    → Follows s rest
    → first (size s.data_bits - size rest.data_bits) s.data_bits ++ rest.data_bits ≡ s.data_bits
first-Follows s rest (used, p) =
    let length : size s.data_bits - size rest.data_bits ≡ size used =
      let whole = ap size p ∙ size-append used rest.data_bits in omega (arith, whole) in
    ap (λ n. first n s.data_bits ++ rest.data_bits) length
    ∙ ap (λ w. first (size used) w ++ rest.data_bits) p
    ∙ ap (λ w. w ++ rest.data_bits) (first-append used rest.data_bits)
    ∙ sym p

abbrev pub Reads : {A : Type 0} → Slice → Result (A × Slice) → Type 0
Reads s r = Holds (λ p. Follows s p.1) r

Reads-after :
    {A : Type 0} (s t : Slice) (r : Result (A × Slice)) → Follows s t → Reads t r → Reads s r
Reads-after s t (ok (a, u)) f g = Follows-trans s t u f g
Reads-after s t (err why) f g = tt

and_then-Reads :
    {A B : Type 0} (s : Slice) (m : Loading A) (next : A → History → Loading (B × Slice))
    → ((a : A) (h : History) → Reads s (next a h).0)
    → Reads s (and_then m next).0
and_then-Reads s (err why, h) next k = tt
and_then-Reads s (ok a, h) next k = k a h

-- The bits of the bytecode of an instruction, and of all of a code.
unfoldable pub bits_of : Option Slice → List Bool
bits_of none = []
bits_of (some s) = s.data_bits

unfoldable pub bytecode : Code → List Bool
unfolding bits_of
bytecode no_code = []
bytecode (more_code i rest) = bits_of (bytecode_of i) ++ bytecode rest

module _ (d : SliceData) (l : IsReader d) (load_code : Slice → Bool → History → Loading Code)
    (load_reference : Option Cell → History → Loading Code) where
  pub read-Reads :
      (t : Load) (s : Slice) (h : History) → Reads s (read d load_code load_reference t s h).0
  unfolding read
  read-Reads (done i) s h = Follows-refl s
  read-Reads refuse s h = tt
  read-Reads abort s h = tt
  read-Reads (next_int n next) s h = elim (Option-cases (d.get_next_int n s)) [
    | inl nothing ↦ rw (nothing, read) tt
    | inr ((v, rest), found) ↦
        rw (found, read)
          (Reads-after s rest _ (int-Follows d l n v s rest found) (read-Reads (next v) rest h))
  ]
  read-Reads (next_byte next) s h = elim (Option-cases (d.get_next_byte s)) [
    | inl nothing ↦ rw (nothing, read) tt
    | inr ((v, rest), found) ↦
        rw (found, read)
          (Reads-after s rest _ (l.after_byte v s rest found) (read-Reads (next v) rest h))
  ]
  read-Reads (next_slice n next) s h = elim (Option-cases (d.get_next_slice n s)) [
    | inl nothing ↦ rw (nothing, read) tt
    | inr ((t, rest), found) ↦
        rw (found, read)
          (Reads-after s rest _ (l.after_slice n s t rest found) (read-Reads (next t) rest h))
  ]
  read-Reads (trim t next) s h = read-Reads (next (d.trim_right t)) s h
  read-Reads (part bits refs next) s h = read-Reads (next (d.shrink bits refs s)) s h
  read-Reads (skip bits refs next) s h =
      Reads-after s (d.go_on bits refs s) _ (l.after_skip bits refs s)
        (read-Reads next (d.go_on bits refs s) h)
  read-Reads (drain next) s h = elim (Option-cases (d.checked_drain_reference s)) [
    | inl nothing ↦ rw (nothing, read) (read-Reads (next none) s h)
    | inr ((c, rest), found) ↦
        rw (found, read)
          (Reads-after s rest _ (l.after_drain s rest c found) (read-Reads (next (some c)) rest h))
  ]
  read-Reads (load_cell c next) s h =
      and_then-Reads s (load_reference c h) _ (λ loaded h'. read-Reads (next loaded) s h')
  read-Reads (load t inline next) s h =
      and_then-Reads s (load_code t inline h) _ (λ loaded h'. read-Reads (next loaded) s h')

  pub run-Reads :
      (f : LoadHandler) (s : Slice) (h : History) → Reads s (run d load_code load_reference f s h).0
  unfolding run
  run-Reads f s h = elim (Option-cases (d.get_next_int (opcode_width f) s)) [
    | inl nothing ↦ rw (nothing, run) tt
    | inr ((opc, rest), found) ↦
        rw (found, run)
          (Reads-after s rest _ (int-Follows d l (opcode_width f) opc s rest found)
            (read-Reads (operands f opc) rest h))
  ]

  bytecode_of-set : (s : Slice) (i : Instruction) → bytecode_of (set_bytecode s i) ≡ some s
  unfolding bytecode_of set_bytecode
  bytecode_of-set s (instruction name ps quiet comment code refs) = refl

  load_next-bits :
      (f : LoadHandler) (s rest : Slice) (h h' : History) (i : Instruction)
      → load_next d load_code load_reference f s h ≡ (ok (i, rest), h')
      → bits_of (bytecode_of i) ++ rest.data_bits ≡ s.data_bits
  unfolding load_next taken bits_of
  load_next-bits f s rest h h' i done' =
      let ((j, t), (h1, (ran, last))) =
        and_then-eq-ok (run d load_code load_reference f s h) _ done' in
      let reads : Follows s t = subst (λ m. Reads s m.0) ran (run-Reads f s h) in
      subst (λ p. bits_of (bytecode_of p.0) ++ p.1.data_bits ≡ s.data_bits)
        (ok-injective (ap (λ m. m.0) last))
        (ap (λ o. bits_of o ++ t.data_bits)
            (bytecode_of-set (taken d load_code load_reference s t) j)
          ∙ ap (λ b. b ++ t.data_bits) (l.kept _ _ s)
          ∙ first-Follows s t reads)

  size-none : (bs : List Bool) → size bs ≡ 0 → bs ≡ []
  unfolding size
  size-none [] h = refl
  size-none (b ∷ bs) h = absurd (omega (arith, h))

  -- Where the loop over a slice ends with code, the bytecodes of its instructions, one behind the
  -- other, are the bits of the slice, and none of its bits is left.
  pub load_slice-bytecode :
      (table : Handlers) (fuel : ℕ) (s last : Slice) (h h' : History) (c : Code)
      → load_slice d load_code load_reference table fuel s h ≡ (ok (c, last), h')
      → (bytecode c ≡ s.data_bits) × (last.data_bits ≡ [])
  unfolding load_slice bytecode
  load_slice-bytecode table zero s last h h' c ends = cc ends
  load_slice-bytecode table (suc fuel) s last h h' c ends =
      elim (Bool-cases (size s.data_bits == 0)) [
        | inl empty ↦
            let same = ok-injective (ap (λ m. m.0) (rw (empty, load_slice) at ends)) in
            let none_left = size-none s.data_bits ((nat_beq_iff _ 0).0 empty) in
            subst (λ p. (bytecode p.0 ≡ s.data_bits) × (p.1.data_bits ≡ [])) same
              (sym none_left, none_left)
        | inr more ↦ elim (Result-cases (get_handler table (bytes d (size s.data_bits) s))) [
          | inl (why, bad) ↦ cc (rw (more, load_slice, bad) at ends)
          | inr (f, found) ↦
              let ((i, rest), (h1, (loaded, others))) =
                and_then-eq-ok (load_next d load_code load_reference f s h) _
                  (rw (more, load_slice, found) at ends) in
              let ((following, last'), (h2, (after, end))) =
                and_then-eq-ok (load_slice d load_code load_reference table fuel rest h1) _
                  others in
              let (bits, none_left) =
                load_slice-bytecode table fuel rest last' h1 h2 following after in
              subst (λ p. (bytecode p.0 ≡ s.data_bits) × (p.1.data_bits ≡ []))
                (ok-injective (ap (λ m. m.0) end))
                (
                  ap (λ w. bits_of (bytecode_of i) ++ w) bits
                      ∙ load_next-bits f s rest h h1 i loaded,
                  none_left,
                )
        ]
      ]
