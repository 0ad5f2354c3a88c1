-- ===== src/Disasm/Print/Safety.antt =====
-- Which code src/disasm/fmt.rs prints without stopping the process.
use tvm_linker.Prelude.{
  ℕ, ◌==◌, ◌&&◌, String, Bool, true, false, if◌then◌else◌, none, some, ◌≡◌, refl, ap, ◌∙◌,
  Bool-cases, inl, inr, string_key, str_append,
}
use tvm_linker.Outcome.{Result, ok, ◌>>=◌}
use tvm_linker.Disasm.Types.{
  Instruction, instruction, Params, no_params, more_params, Parameter, length, slice, code,
  cell as cell_param, code_dict_marker, Code, no_code, more_code,
}
use tvm_linker.Disasm.Operands.{size}
use tvm_linker.Disasm.Print.{
  Texts, is_dict, is_jump, print_dict, print_plain, jump_text, print_code, print_insn, print_jump,
  print_params, print_param,
}

unfoldable pub is_dict_shape : Params → Bool
is_dict_shape (more_params (length l) (more_params (cell_param c false) ps)) = true
is_dict_shape _ = false

-- The shapes that the printing takes apart: dictionaries, implicit jumps with a cell, slices without
-- references, and no marks elsewhere.
unfoldable mutual
  pub printable : Code → Bool
  printable no_code = true
  printable (more_code i rest) = printable_insn i && printable rest

  pub printable_insn : Instruction → Bool
  printable_insn (instruction name ps quiet comment bytecode refs) =
      let jump = printable_jump ps in
      let plain = printable_params ps in
      if is_dict name then is_dict_shape ps else (if is_jump name then jump else plain)

  pub printable_jump : Params → Bool
  printable_jump (more_params (code c (some from)) ps) = printable c
  printable_jump _ = false

  pub printable_params : Params → Bool
  printable_params no_params = true
  printable_params (more_params p ps) = printable_param p && printable_params ps

  pub printable_param : Parameter → Bool
  printable_param (code c from) = printable c
  printable_param (slice s) = size s.references == 0
  printable_param code_dict_marker = false
  printable_param _ = true

pub and-split : (a b : Bool) → (a && b) ≡ true → (a ≡ true) × (b ≡ true)
and-split true b h = (refl, h)
and-split false b h = cc h

-- A text comes out.
abbrev pub Prints : Result String → Type 0
Prints r = (text : String) × (r ≡ ok text)

>>=-Prints :
    (r : Result String) (next : String → Result String)
    → Prints r
    → ((text : String) → Prints (next text))
    → Prints (r >>= next)
>>=-Prints r next (text, e) k = let (whole, f) = k text in (whole, ap (λ q. q >>= next) e ∙ f)

module _ (t : Texts) where
  print_dict-Prints :
      (name : String) (ps : Params) (indent : String)
      → is_dict_shape ps ≡ true
      → Prints (print_dict t name ps indent)
  unfolding is_dict_shape print_dict
  print_dict-Prints name (more_params (length l) (more_params (cell_param none false) ps)) indent
        h =
      (_, refl)
  print_dict-Prints name (more_params (length l) (more_params (cell_param (some c) false) ps))
        indent h =
      (_, refl)
  print_dict-Prints name _ indent h = cc h

  mutual
    unfolding print_code print_insn print_jump print_params print_param print_plain jump_text
        printable printable_insn printable_jump printable_params printable_param

    pub print_code-Prints :
        (c : Code) (indent : String) (width : ℕ)
        → printable c ≡ true
        → Prints (print_code t c indent true width)
    print_code-Prints no_code indent width h = ("", refl)
    print_code-Prints (more_code i rest) indent width h =
        let (first, others) = and-split (printable_insn i) (printable rest) h in
        >>=-Prints (print_insn t i indent true width) _ (print_insn-Prints i indent width first)
          (λ text.
            >>=-Prints (print_code t rest indent true width) _
              (print_code-Prints rest indent width others) (λ following. (_, refl)))

    print_insn-Prints :
        (i : Instruction) (indent : String) (width : ℕ)
        → printable_insn i ≡ true
        → Prints (print_insn t i indent true width)
    print_insn-Prints (instruction name ps quiet comment bytecode refs) indent width h =
        elim (Bool-cases (is_dict name)) [
          | inl dict ↦
              rw (dict, print_insn)
                (>>=-Prints (print_dict t name ps indent) _
                  (print_dict-Prints name ps indent (rw (dict, printable_insn) at h))
                  (λ text. (_, refl)))
          | inr no_dict ↦ elim (Bool-cases (is_jump name)) [
            | inl jump ↦
                rw (no_dict, jump, print_insn)
                  (>>=-Prints (print_jump t ps indent width) _
                    (print_jump-Prints ps indent width (rw (no_dict, jump, printable_insn) at h))
                    (λ text. (_, refl)))
            | inr no_jump ↦
                rw (no_dict, no_jump, print_insn)
                  (>>=-Prints (print_params t ps indent true width) _
                    (print_params-Prints ps indent width
                      (rw (no_dict, no_jump, printable_insn) at h))
                    (λ text. (_, refl)))
          ]
        ]

    print_jump-Prints :
        (ps : Params) (indent : String) (width : ℕ)
        → printable_jump ps ≡ true
        → Prints (print_jump t ps indent width)
    print_jump-Prints (more_params (code c (some from)) ps) indent width h =
        >>=-Prints (print_code t c (str_append "  " indent) true width) _
          (print_code-Prints c (str_append "  " indent) width h) (λ text. (_, refl))
    print_jump-Prints _ indent width h = cc h

    print_params-Prints :
        (ps : Params) (indent : String) (width : ℕ)
        → printable_params ps ≡ true
        → Prints (print_params t ps indent true width)
    print_params-Prints no_params indent width h = ("", refl)
    print_params-Prints (more_params p ps) indent width h =
        let (first, others) = and-split (printable_param p) (printable_params ps) h in
        >>=-Prints (print_param t p indent true width) _ (print_param-Prints p indent width first)
          (λ text.
            >>=-Prints (print_params t ps indent true width) _
              (print_params-Prints ps indent width others) (λ following. (_, refl)))

    print_param-Prints :
        (p : Parameter) (indent : String) (width : ℕ)
        → printable_param p ≡ true
        → Prints (print_param t p indent true width)
    print_param-Prints (code c from) indent width h =
        >>=-Prints (print_code t c (str_append "  " indent) true width) _
          (print_code-Prints c (str_append "  " indent) width h) (λ text. (_, refl))
    print_param-Prints (slice s) indent width h = rw h (_, refl)
    print_param-Prints code_dict_marker indent width h = cc h
    print_param-Prints _ indent width h = (_, refl)
