-- ===== src/Disasm/Loader/Constant.antt =====
-- src/disasm/loader.rs: the handlers of this part of the code page, by the opcodes that they accept
-- and the operands that they read.
use tvm_linker.Prelude.{true, ◌==◌, ◌*◌, ◌&&◌, leb, ltb, pos, leb, none, false, ◌+◌}
use tvm_linker.Disasm.Handler.{LoadHandler, custom, create_handler_2}
use tvm_linker.Disasm.Operands.{
  done, next_int, next_slice, part, trim, skip, drain, load_cell, load, pushint_operand, bigint,
  missing,
}
use tvm_linker.Disasm.Types.{new, with_param, with_refs, big_integer, integer, slice, code, cell}

-- The assertion on the opcode counts as a check here: the table gives no other opcode to it.
abbrev pub pushint : LoadHandler
pushint =
    custom 8 (λ opc. leb 0x70 opc && ltb opc 0x82)
      (λ opc. pushint_operand opc (λ x. done (with_param (integer x) (new "PUSHINT"))))

abbrev pub pushint_big : LoadHandler
pushint_big =
    custom 8 (λ opc. opc == 0x82)
      (λ opc. bigint (λ minus digits. done (with_param (big_integer minus digits) (new "PUSHINT"))))

abbrev pub pushpow2 : LoadHandler
pushpow2 =
    custom 8 (λ opc. opc == 0x83)
      (λ opc. next_int 8 (λ xx. done (with_param (integer (pos (xx + 1))) (new "PUSHPOW2"))))

abbrev pub pushnan : LoadHandler
pushnan = create_handler_2 0x83ff "PUSHNAN"

abbrev pub pushpow2dec : LoadHandler
pushpow2dec =
    custom 8 (λ opc. opc == 0x84)
      (λ opc. next_int 8 (λ xx. done (with_param (integer (pos (xx + 1))) (new "PUSHPOW2DEC"))))

abbrev pub pushnegpow2 : LoadHandler
pushnegpow2 =
    custom 8 (λ opc. opc == 0x85)
      (λ opc. next_int 8 (λ xx. done (with_param (integer (pos (xx + 1))) (new "PUSHNEGPOW2"))))

abbrev pub pushref : LoadHandler
pushref =
    custom 8 (λ opc. opc == 0x88)
      (λ opc. drain (λ c. done (with_param (cell c false) (with_refs 1 (new "PUSHREF")))))

abbrev pub pushrefslice : LoadHandler
pushrefslice =
    custom 8 (λ opc. opc == 0x89)
      (λ opc. drain (λ c. done (with_param (cell c false) (with_refs 1 (new "PUSHREFSLICE")))))

abbrev pub pushrefcont : LoadHandler
pushrefcont =
    custom 8 (λ opc. opc == 0x8a)
      (λ opc. drain (λ c.
        load_cell c
          (λ loaded. done (with_param (code loaded c) (with_refs 1 (new "PUSHREFCONT"))))))

abbrev pub pushslice_short : LoadHandler
pushslice_short =
    custom 8 (λ opc. opc == 0x8b)
      (λ opc. next_int 4 (λ x.
        next_slice (x * 8 + 4)
          (λ raw. trim raw (λ bitstring. done (with_param (slice bitstring) (new "PUSHSLICE"))))))

abbrev pub pushslice_mid : LoadHandler
pushslice_mid =
    custom 8 (λ opc. opc == 0x8c)
      (λ opc. next_int 2 (λ r. next_int 5 (λ xx.
        let bits = xx * 8 + 1 in
        part bits r (λ raw. trim raw (λ subslice. skip bits r (
          done (
            missing bits r subslice
              (with_param (slice subslice) (with_refs r (new "PUSHSLICE"))))))))))

abbrev pub pushslice_long : LoadHandler
pushslice_long =
    custom 8 (λ opc. opc == 0x8d)
      (λ opc. next_int 3 (λ r. next_int 7 (λ xx.
        let bits = xx * 8 + 6 in
        part bits r (λ raw. trim raw (λ subslice. skip bits r (
          done (
            missing bits r subslice
              (with_param (slice subslice) (with_refs r (new "PUSHSLICE"))))))))))

abbrev pub pushcont_long : LoadHandler
pushcont_long =
    custom 7 (λ opc. opc * 2 == 0x8e)
      (λ opc. next_int 2 (λ r. next_int 7 (λ xx.
        let bits = xx * 8 in
        part bits r (λ subslice. load subslice false (λ c. skip bits r (
          done (
            missing bits r subslice (with_param (code c none) (with_refs r (new "PUSHCONT"))))))))))

abbrev pub pushcont_short : LoadHandler
pushcont_short =
    custom 4 (λ opc. opc == 0x9)
      (λ opc. next_int 4 (λ x.
        next_slice (x * 8)
          (λ body. load body true (λ c. done (with_param (code c none) (new "PUSHCONT"))))))
