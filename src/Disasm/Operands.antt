-- ===== src/Disasm/Operands.antt =====
-- How the load handlers of src/disasm/loader.rs read the operands behind the opcode: the calls on the
-- slice and on the loader, in the order in which a handler makes them.
pub mod Complement
use tvm_linker.Prelude.{
  ℕ, zero, suc, ◌+◌, ◌-◌, ◌*◌, ◌/◌, ◌%◌, ◌^◌, ◌==◌, leb, ltb, ◌||◌, if◌then◌else◌, List, [], ◌∷◌,
  String, Bool, true, false, Option, ℤ, pos, negsuc, str_append, ◌&&◌,
}
use tvm_linker.Parser.Cell.{Cell}
use tvm_linker.Disasm.Types.{
  Slice, Instruction, Code, new, with_param, set_quiet, set_comment, length,
}
use tvm_linker.Resolver.Format.{decimal, format, u32}

-- `Signaling` and `Quiet`, the implementations of `OperationBehavior`.
pub data Behavior : Type 0 where
  signaling quiet : Behavior

unfoldable pub behave : Behavior → Instruction → Instruction
behave signaling i = i
behave quiet i = set_quiet i

-- `part n r` is the slice's clone cut to its first `n` bits and `r` references, `skip n r` goes on
-- behind them; `load_cell` and `load` are the loader's;
-- `refuse` is an error and `abort` stops the process.
pub data Load : Type 0 where
  done : Instruction → Load
  refuse : Load
  abort : Load
  next_int : ℕ → (ℕ → Load) → Load
  next_byte : (ℕ → Load) → Load
  next_slice : ℕ → (Slice → Load) → Load
  trim : Slice → (Slice → Load) → Load
  part : ℕ → ℕ → (Slice → Load) → Load
  skip : ℕ → ℕ → Load → Load
  drain : (Option Cell → Load) → Load
  load_cell : Option Cell → (Code → Load) → Load
  load : Slice → Bool → (Code → Load) → Load

-- `check!`, and `assert!`, which stops the process.
unfoldable pub check : Bool → Load → Load
check true next = next
check false next = refuse

unfoldable pub assert : Bool → Load → Load
assert true next = next
assert false next = abort

unfoldable pub minus : ℕ → ℕ → ℤ
minus a b = if leb b a then pos (a - b) else negsuc (b - a - 1)

-- The value of a pattern of `bits` bits as a signed integer.
unfoldable pub signed : ℕ → ℕ → ℤ
signed bits n = if ltb n (2 ^ (bits - 1)) then pos n else negsuc (2 ^ bits - 1 - n)

unfoldable pub pushint_operand : ℕ → (ℤ → Load) → Load
unfolding minus signed
pushint_operand opc next =
    if leb opc 0x7a
    then next (minus opc 0x70)
    else if ltb opc 0x80
    then next (minus opc 0x80)
    else if opc == 0x80
    then next_int 8 (λ x. next (signed 8 x))
    else if opc == 0x81
    then next_int 16 (λ x. next (signed 16 x))
    else next (pos 0)

-- `value <<= 8; value |= slice.get_next_byte()?` on a u32, so many times.
unfoldable pub next_bytes : ℕ → ℕ → (ℕ → Load) → Load
next_bytes zero value next = next value
next_bytes (suc n) value next = next_byte (λ b. next_bytes n ((value * 256 + b) % 2 ^ 32) next)

-- The digits below the topmost, which are read from the top; the list has the lowest first.
unfoldable pub next_digits : ℕ → List ℕ → (List ℕ → Load) → Load
unfolding next_bytes
next_digits zero digits next = next digits
next_digits (suc n) digits next = next_bytes 4 0 (λ d. next_digits n (d ∷ digits) next)

unfoldable pub twos_complement : Bool → List ℕ → List ℕ
twos_complement carry [] = []
twos_complement true (d ∷ digits) =
    let low = (2 ^ 32 - 1 - d + 1) % 2 ^ 32 in low ∷ (twos_complement (low == 0) digits)
twos_complement false (d ∷ digits) = (2 ^ 32 - 1 - d) ∷ twos_complement false digits

-- `Loader::bigint`: whether the sign is minus, and the digits of the magnitude.
unfoldable pub bigint : (Bool → List ℕ → Load) → Load
unfolding next_bytes next_digits twos_complement
bigint next = next_byte (λ first.
    let byte_len = first / 8 % 32 + 3 in
    let greatest = first % 8 in
    let negative = leb 4 greatest in
    let start = if negative then 2 ^ 32 - 8 + greatest else greatest in
    let upper = if byte_len % 4 == 0 then 4 else byte_len % 4 in
    next_bytes (upper - 1) start (λ top.
      next_digits ((byte_len + 3) / 4 - 1) (top ∷ [])
        (λ digits. next negative (if negative then twos_complement true digits else digits))))

-- The kinds of `divmod` with an operand, and those without.
unfoldable pub divmod_operand : Behavior → ℕ → Load
unfolding behave
divmod_operand behavior opc2 =
    if opc2 == 0x34
    then counted "RSHIFT"
    else if opc2 == 0x38
    then counted "MODPOW2"
    else if opc2 == 0xb4
    then counted "MULRSHIFT"
    else if opc2 == 0xb5
    then counted "MULRSHIFTR"
    else if opc2 == 0xd4
    then counted "LSHIFTDIV"
    else if opc2 == 0xd5
    then counted "LSHIFTDIVR"
    else plain kinds
  where
    counted : String → Load
    counted name =
        next_int 8 (λ tt. done (with_param (length (tt + 1)) (behave behavior (new name))))

    kinds : List (ℕ × String)
    kinds =
        (0x04, "DIV")
        ∷ (0x05, "DIVR")
        ∷ (0x06, "DIVC")
        ∷ (0x08, "MOD")
        ∷ (0x0c, "DIVMOD")
        ∷ (0x0d, "DIVMODR")
        ∷ (0x0e, "DIVMODC")
        ∷ (0x24, "RSHIFT")
        ∷ (0x84, "MULDIV")
        ∷ (0x85, "MULDIVR")
        ∷ (0x8c, "MULDIVMOD")
        ∷ (0xa4, "MULRSHIFT")
        ∷ (0xa5, "MULRSHIFTR")
        ∷ (0xc4, "LSHIFTDIV")
        ∷ (0xc5, "LSHIFTDIVR")
        ∷ []

    plain : List (ℕ × String) → Load
    plain [] = refuse
    plain ((kind, name) ∷ others) =
        let rest = plain others in if opc2 == kind then done (behave behavior (new name)) else rest

-- `comment_missing_bits_and_refs`
unfoldable pub plural : ℕ → String → String
plural n noun =
    str_append " "
      (str_append (format decimal u32 0 n) (str_append noun (if leb 2 n then "s" else "")))

unfoldable pub comment_missing : ℕ → ℕ → Instruction → Instruction
unfolding plural
comment_missing bits refs i =
    if (bits == 0) && (refs == 0)
    then i
    else set_comment
        (str_append "missing" (
          str_append (if bits == 0 then "" else plural bits " bit") (
            str_append (if (bits == 0) || (refs == 0) then "" else " and")
              (if refs == 0 then "" else plural refs " ref"))))
        i

unfoldable pub size : {A : Type 0} → List A → ℕ
size [] = 0
size (a ∷ rest) = suc (size rest)

-- What a part lacks of the bits and references that were asked for.
unfoldable pub missing : ℕ → ℕ → Slice → Instruction → Instruction
unfolding comment_missing size
missing bits refs s i = comment_missing (bits - size s.data_bits) (refs - size s.references) i
