-- ===== src/Disasm/Loader/Stack.antt =====
-- src/disasm/loader.rs: the handlers of this part of the code page, by the opcodes that they accept
-- and the operands that they read.
use tvm_linker.Prelude.{◌==◌, ◌||◌, pos, leb, if◌then◌else◌, ◌+◌}
use tvm_linker.Disasm.Handler.{LoadHandler, custom, create_handler_1, create_handler_2}
use tvm_linker.Disasm.Operands.{done, refuse, next_int, next_byte, check, minus}
use tvm_linker.Disasm.Types.{
  new, with_param, length, length_and_index, stack_register, stack_register_pair,
  stack_register_triple,
}

abbrev pub setcp : LoadHandler
setcp =
    custom 8 (λ opc. opc == 0xff)
      (λ opc. next_byte (λ b. if b == 0 then done (new "SETCP0") else refuse))

abbrev pub setcpx : LoadHandler
setcpx = create_handler_2 0xfff0 "SETCPX"

abbrev pub nop : LoadHandler
nop = create_handler_1 0x00 "NOP"

abbrev pub xchg_simple : LoadHandler
xchg_simple =
    custom 4 (λ opc. (opc == 0) || (opc == 1))
      (λ opc. next_int 4 (λ i.
        if opc == 0
        then done (with_param (stack_register (pos i)) (new "XCHG"))
        else if opc == 1
        then done (with_param (stack_register_pair (pos 1) (pos i)) (new "XCHG"))
        else refuse))

abbrev pub xchg_std : LoadHandler
xchg_std =
    custom 8 (λ opc. opc == 0x10)
      (λ opc. next_int 4 (λ i.
        next_int 4 (λ j. done (with_param (stack_register_pair (pos i) (pos j)) (new "XCHG")))))

abbrev pub xchg_long : LoadHandler
xchg_long =
    custom 8 (λ opc. opc == 0x11)
      (λ opc.
        next_int 8 (λ ii. done (with_param (stack_register_pair (pos 0) (pos ii)) (new "XCHG"))))

abbrev pub push_simple : LoadHandler
push_simple =
    custom 4 (λ opc. opc == 0x2)
      (λ opc. next_int 4 (λ i. done (with_param (stack_register (pos i)) (new "PUSH"))))

abbrev pub pop_simple : LoadHandler
pop_simple =
    custom 4 (λ opc. opc == 0x3)
      (λ opc. next_int 4 (λ i. done (with_param (stack_register (pos i)) (new "POP"))))

abbrev pub xchg3 : LoadHandler
xchg3 =
    custom 4 (λ opc. opc == 0x4)
      (λ opc. next_int 4 (λ i. next_int 4 (λ j.
        next_int 4
          (λ k. done (with_param (stack_register_triple (pos i) (pos j) (pos k)) (new "XCHG3"))))))

abbrev pub xchg2 : LoadHandler
xchg2 =
    custom 8 (λ opc. opc == 0x50)
      (λ opc. next_int 4 (λ i.
        next_int 4 (λ j. done (with_param (stack_register_pair (pos i) (pos j)) (new "XCHG2")))))

abbrev pub xcpu : LoadHandler
xcpu =
    custom 8 (λ opc. opc == 0x51)
      (λ opc. next_int 4 (λ i.
        next_int 4 (λ j. done (with_param (stack_register_pair (pos i) (pos j)) (new "XCPU")))))

abbrev pub puxc : LoadHandler
puxc =
    custom 8 (λ opc. opc == 0x52)
      (λ opc. next_int 4 (λ i.
        next_int 4 (λ j. done (with_param (stack_register_pair (pos i) (minus j 1)) (new "PUXC")))))

abbrev pub push2 : LoadHandler
push2 =
    custom 8 (λ opc. opc == 0x53)
      (λ opc. next_int 4 (λ i.
        next_int 4 (λ j. done (with_param (stack_register_pair (pos i) (pos j)) (new "PUSH2")))))

abbrev pub xc2pu : LoadHandler
xc2pu =
    custom 12 (λ opc. opc == 0x541)
      (λ opc. next_int 4 (λ i. next_int 4 (λ j.
        next_int 4
          (λ k. done (with_param (stack_register_triple (pos i) (pos j) (pos k)) (new "XC2PU"))))))

abbrev pub xcpuxc : LoadHandler
xcpuxc =
    custom 12 (λ opc. opc == 0x542)
      (λ opc. next_int 4 (λ i. next_int 4 (λ j. next_int 4 (λ k.
        done (with_param (stack_register_triple (pos i) (pos j) (minus k 1)) (new "XCPUXC"))))))

abbrev pub xcpu2 : LoadHandler
xcpu2 =
    custom 12 (λ opc. opc == 0x543)
      (λ opc. next_int 4 (λ i. next_int 4 (λ j.
        next_int 4
          (λ k. done (with_param (stack_register_triple (pos i) (pos j) (pos k)) (new "XCPU2"))))))

abbrev pub puxc2 : LoadHandler
puxc2 =
    custom 12 (λ opc. opc == 0x544)
      (λ opc. next_int 4 (λ i. next_int 4 (λ j. next_int 4 (λ k.
        done (with_param (stack_register_triple (pos i) (minus j 1) (minus k 1)) (new "PUXC2"))))))

abbrev pub puxcpu : LoadHandler
puxcpu =
    custom 12 (λ opc. opc == 0x545)
      (λ opc. next_int 4 (λ i. next_int 4 (λ j. next_int 4 (λ k.
        done (with_param (stack_register_triple (pos i) (minus j 1) (minus k 1)) (new "PUXCPU"))))))

abbrev pub pu2xc : LoadHandler
pu2xc =
    custom 12 (λ opc. opc == 0x546)
      (λ opc. next_int 4 (λ i. next_int 4 (λ j. next_int 4 (λ k.
        done (with_param (stack_register_triple (pos i) (minus j 1) (minus k 2)) (new "PU2XC"))))))

abbrev pub push3 : LoadHandler
push3 =
    custom 12 (λ opc. opc == 0x547)
      (λ opc. next_int 4 (λ i. next_int 4 (λ j.
        next_int 4
          (λ k. done (with_param (stack_register_triple (pos i) (pos j) (pos k)) (new "PUSH3"))))))

abbrev pub blkswap : LoadHandler
blkswap =
    custom 8 (λ opc. opc == 0x55)
      (λ opc. next_int 4 (λ i.
        next_int 4 (λ j. done (with_param (length_and_index (i + 1) (j + 1)) (new "BLKSWAP")))))

abbrev pub push : LoadHandler
push =
    custom 8 (λ opc. opc == 0x56)
      (λ opc. next_int 8 (λ ii. done (with_param (stack_register (pos ii)) (new "PUSH"))))

abbrev pub pop : LoadHandler
pop =
    custom 8 (λ opc. opc == 0x57)
      (λ opc. next_int 8 (λ ii. done (with_param (stack_register (pos ii)) (new "POP"))))

abbrev pub rot : LoadHandler
rot = create_handler_1 0x58 "ROT"

abbrev pub rotrev : LoadHandler
rotrev = create_handler_1 0x59 "ROTREV"

abbrev pub swap2 : LoadHandler
swap2 = create_handler_1 0x5a "SWAP2"

abbrev pub drop2 : LoadHandler
drop2 = create_handler_1 0x5b "DROP2"

abbrev pub dup2 : LoadHandler
dup2 = create_handler_1 0x5c "DUP2"

abbrev pub over2 : LoadHandler
over2 = create_handler_1 0x5d "OVER2"

abbrev pub reverse : LoadHandler
reverse =
    custom 8 (λ opc. opc == 0x5e)
      (λ opc.
        next_int 4
          (λ i. next_int 4 (λ j. done (with_param (length_and_index (i + 2) j) (new "REVERSE")))))

abbrev pub blkdrop : LoadHandler
blkdrop =
    custom 12 (λ opc. opc == 0x5f0)
      (λ opc. next_int 4 (λ i. done (with_param (length i) (new "BLKDROP"))))

abbrev pub blkpush : LoadHandler
blkpush =
    custom 8 (λ opc. opc == 0x5f)
      (λ opc.
        next_int 4
          (λ i. next_int 4 (λ j. done (with_param (length_and_index i j) (new "BLKPUSH")))))

abbrev pub pick : LoadHandler
pick = create_handler_1 0x60 "PICK"

abbrev pub rollx : LoadHandler
rollx = create_handler_1 0x61 "ROLLX"

abbrev pub rollrevx : LoadHandler
rollrevx = create_handler_1 0x62 "ROLLREVX"

abbrev pub blkswx : LoadHandler
blkswx = create_handler_1 0x63 "BLKSWX"

abbrev pub revx : LoadHandler
revx = create_handler_1 0x64 "REVX"

abbrev pub dropx : LoadHandler
dropx = create_handler_1 0x65 "DROPX"

abbrev pub tuck : LoadHandler
tuck = create_handler_1 0x66 "TUCK"

abbrev pub xchgx : LoadHandler
xchgx = create_handler_1 0x67 "XCHGX"

abbrev pub depth : LoadHandler
depth = create_handler_1 0x68 "DEPTH"

abbrev pub chkdepth : LoadHandler
chkdepth = create_handler_1 0x69 "CHKDEPTH"

abbrev pub onlytopx : LoadHandler
onlytopx = create_handler_1 0x6a "ONLYTOPX"

abbrev pub onlyx : LoadHandler
onlyx = create_handler_1 0x6b "ONLYX"

abbrev pub blkdrop2 : LoadHandler
blkdrop2 =
    custom 8 (λ opc. opc == 0x6c)
      (λ opc. next_int 4 (λ i.
        check (leb 1 i)
          (next_int 4 (λ j. done (with_param (length_and_index i j) (new "BLKDROP2"))))))

abbrev pub null : LoadHandler
null = create_handler_1 0x6d "NULL"

abbrev pub isnull : LoadHandler
isnull = create_handler_1 0x6e "ISNULL"

abbrev pub tuple_create : LoadHandler
tuple_create =
    custom 12 (λ opc. opc == 0x6f0)
      (λ opc. next_int 4 (λ k. done (with_param (length k) (new "TUPLE"))))

abbrev pub tuple_index : LoadHandler
tuple_index =
    custom 12 (λ opc. opc == 0x6f1)
      (λ opc. next_int 4 (λ k. done (with_param (length k) (new "INDEX"))))

abbrev pub tuple_un : LoadHandler
tuple_un =
    custom 12 (λ opc. opc == 0x6f2)
      (λ opc. next_int 4 (λ k. done (with_param (length k) (new "UNTUPLE"))))
