-- ===== src/Disasm/Print/Marks.antt =====
-- The marks of src/disasm/codedict.rs keep code printable.
use tvm_linker.Prelude.{◌&&◌, Bool, true, false, some, ◌≡◌, refl, Bool-cases, inl, inr}
use tvm_linker.Disasm.Types.{
  Instruction, instruction, Params, no_params, more_params, Parameter, length, slice, code,
  cell as cell_param, code_dict_marker, Code, no_code, more_code, push_param,
}
use tvm_linker.Disasm.Print.{
  is_dict, is_jump, name_of, mark, mark_if, mark_pairs, elaborate_code, elaborate_insn,
  elaborate_params, elaborate_param,
}
use tvm_linker.Disasm.Print.Safety.{
  is_dict_shape, printable, printable_insn, printable_jump, printable_params, printable_param,
  and-split,
}

and-join : (a b : Bool) → a ≡ true → b ≡ true → (a && b) ≡ true
and-join true b h k = k
and-join false b h k = cc h

push_param-shape :
    (ps : Params) → is_dict_shape ps ≡ true → is_dict_shape (push_param code_dict_marker ps) ≡ true
unfolding is_dict_shape push_param
push_param-shape (more_params (length l) (more_params (cell_param c false) ps)) h = refl
push_param-shape _ h = cc h

mark-printable :
    (i : Instruction)
    → is_dict (name_of i) ≡ true
    → printable_insn i ≡ true
    → printable_insn (mark i) ≡ true
unfolding mark name_of printable_insn
mark-printable (instruction name ps quiet comment bytecode refs) dict h =
    rw (dict, printable_insn) (push_param-shape ps (rw (dict, printable_insn) at h))

mark_if-printable :
    (a : Bool) (i : Instruction)
    → printable_insn i ≡ true
    → printable_insn (mark_if (a && is_dict (name_of i)) i) ≡ true
unfolding mark_if
mark_if-printable true i h = elim (Bool-cases (is_dict (name_of i))) [
  | inl dict ↦ rw (dict, mark_if) (mark-printable i dict h)
  | inr other ↦ rw (other, mark_if) h
]
mark_if-printable false i h = h

mark_pairs-printable : (c : Code) → printable c ≡ true → printable (mark_pairs c) ≡ true
unfolding mark_pairs printable
mark_pairs-printable no_code h = refl
mark_pairs-printable (more_code i no_code) h = h
mark_pairs-printable (more_code i (more_code j rest)) h =
    let (first, others) = and-split (printable_insn i) _ h in
    let (second, following) = and-split (printable_insn j) (printable rest) others in
    and-join _ _ (mark_if-printable _ i first)
      (and-join (printable_insn j) _ second (mark_pairs-printable rest following))

elaborate_params-shape :
    (ps : Params) → is_dict_shape ps ≡ true → is_dict_shape (elaborate_params ps) ≡ true
unfolding is_dict_shape elaborate_params
elaborate_params-shape (more_params (length l) (more_params (cell_param c false) ps)) h = refl
elaborate_params-shape _ h = cc h

mutual
  unfolding elaborate_code elaborate_insn elaborate_params elaborate_param printable printable_insn
      printable_jump printable_params printable_param

  elaborate_code-printable : (c : Code) → printable c ≡ true → printable (elaborate_code c) ≡ true
  elaborate_code-printable no_code h = refl
  elaborate_code-printable (more_code i rest) h =
      let (first, others) = and-split (printable_insn i) (printable rest) h in
      and-join _ _ (elaborate_insn-printable i first) (elaborate_code-printable rest others)

  elaborate_insn-printable :
      (i : Instruction) → printable_insn i ≡ true → printable_insn (elaborate_insn i) ≡ true
  elaborate_insn-printable (instruction name ps quiet comment bytecode refs) h =
      elim (Bool-cases (is_dict name)) [
        | inl dict ↦
            rw (dict, printable_insn) (elaborate_params-shape ps (rw (dict, printable_insn) at h))
        | inr no_dict ↦ elim (Bool-cases (is_jump name)) [
          | inl jump ↦
              rw (no_dict, jump, printable_insn)
                (elaborate_params-jump ps (rw (no_dict, jump, printable_insn) at h))
          | inr no_jump ↦
              rw (no_dict, no_jump, printable_insn)
                (elaborate_params-printable ps (rw (no_dict, no_jump, printable_insn) at h))
        ]
      ]

  elaborate_params-jump :
      (ps : Params) → printable_jump ps ≡ true → printable_jump (elaborate_params ps) ≡ true
  elaborate_params-jump (more_params (code c (some from)) ps) h =
      mark_pairs-printable (elaborate_code c) (elaborate_code-printable c h)
  elaborate_params-jump _ h = cc h

  elaborate_params-printable :
      (ps : Params) → printable_params ps ≡ true → printable_params (elaborate_params ps) ≡ true
  elaborate_params-printable no_params h = refl
  elaborate_params-printable (more_params p ps) h =
      let (first, others) = and-split (printable_param p) (printable_params ps) h in
      and-join _ _ (elaborate_param-printable p first) (elaborate_params-printable ps others)

  elaborate_param-printable :
      (p : Parameter) → printable_param p ≡ true → printable_param (elaborate_param p) ≡ true
  elaborate_param-printable (code c from) h =
      mark_pairs-printable (elaborate_code c) (elaborate_code-printable c h)
  elaborate_param-printable (slice s) h = h
  elaborate_param-printable code_dict_marker h = cc h
  elaborate_param-printable _ h = refl
