-- ===== src/Disasm/Handler.antt =====
-- A load handler of src/disasm/loader.rs: how many bits it reads first, which values of them it goes
-- on with, and what it reads then.
use tvm_linker.Prelude.{
  ℕ, zero, suc, ◌+◌, ◌-◌, ◌*◌, ◌/◌, ◌^◌, String, Bool, true, false, ◌==◌, leb, if◌then◌else◌,
}
use tvm_linker.Disasm.Operands.{
  Behavior, signaling, behave, Load, done, refuse, drain, load_cell, check,
}
use tvm_linker.Disasm.Types.{Instruction, new, with_param, with_refs, code}

pub data LoadHandler : Type 0 where
  unknown : LoadHandler
  insn : (width opcode : ℕ) (mnemonic : String) (behavior : Behavior) (refs : ℕ) → LoadHandler
  custom : (width : ℕ) (test : ℕ → Bool) (rest : ℕ → Load) → LoadHandler

-- The macros that create handlers: the opcode, the instruction, and the references that follow.
abbrev pub create_handler_1 : ℕ → String → LoadHandler
create_handler_1 opc mnemonic = insn 8 opc mnemonic signaling 0

abbrev pub create_handler_1t : Behavior → ℕ → String → LoadHandler
create_handler_1t behavior opc mnemonic = insn 8 opc mnemonic behavior 0

abbrev pub create_handler_2 : ℕ → String → LoadHandler
create_handler_2 opc mnemonic = insn 16 opc mnemonic signaling 0

abbrev pub create_handler_2t : Behavior → ℕ → String → LoadHandler
create_handler_2t behavior opc mnemonic = insn 16 opc mnemonic behavior 0

abbrev pub create_handler_2r : ℕ → String → LoadHandler
create_handler_2r opc mnemonic = insn 16 opc mnemonic signaling 1

abbrev pub create_handler_3r : ℕ → String → LoadHandler
create_handler_3r opc mnemonic = insn 16 opc mnemonic signaling 2

-- `x as usize == Loader::unknown as usize`
unfoldable pub is_unknown : LoadHandler → Bool
is_unknown unknown = true
is_unknown (insn w o m b r) = false
is_unknown (custom w t r) = false

-- The first `width` bits, at most sixteen, of the bytes `b0` and `b1`.
unfoldable pub leading : ℕ → ℕ → ℕ → ℕ
leading width b0 b1 =
    if leb width 8 then b0 / 2 ^ (8 - width) else (b0 * 256 + b1) / 2 ^ (16 - width)

-- The opcode check of a handler on a slice that begins with these bytes.
unfoldable pub accepts : LoadHandler → ℕ → ℕ → Bool
unfolding leading
accepts unknown b0 b1 = false
accepts (insn width opcode mnemonic behavior refs) b0 b1 = leading width b0 b1 == opcode
accepts (custom width test rest) b0 b1 = test (leading width b0 b1)

-- What a handler does behind its opcode, the check included.
unfoldable pub operands : LoadHandler → ℕ → Load
unfolding check behave
operands unknown opc = refuse
operands (insn width opcode mnemonic behavior refs) opc =
    check (opc == opcode) (referring refs (behave behavior (new mnemonic)))
  where
    referring : ℕ → Instruction → Load
    referring zero i = done i
    referring (suc zero) i =
        drain (λ c. load_cell c (λ loaded. done (with_param (code loaded c) (with_refs 1 i))))
    referring (suc (suc n)) i = drain (λ c1. drain (λ c2. load_cell c1 (λ code1.
        load_cell c2 (λ code2.
          done (with_param (code code2 c2) (with_param (code code1 c1) (with_refs 2 i)))))))
operands (custom width test rest) opc = check (test opc) (rest opc)

unfoldable pub opcode_width : LoadHandler → ℕ
opcode_width unknown = 0
opcode_width (insn width opcode mnemonic behavior refs) = width
opcode_width (custom width test rest) = width
