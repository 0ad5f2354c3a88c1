-- ===== src/Disasm/Pages/PartStack.antt =====
-- src/disasm/handlers.rs: `add_code_page_0_part_stack`.
use tvm_linker.Outcome.{Result, ◌>>=◌}
use tvm_linker.Disasm.Handlers.{Handlers, new, set, set_range, add_subset}
use tvm_linker.Disasm.Loader.Stack.{
  blkdrop, blkdrop2, blkpush, blkswap, blkswx, chkdepth, depth, drop2, dropx, dup2, nop, onlytopx,
  onlyx, over2, pick, pop, pop_simple, pu2xc, push, push2, push3, push_simple, puxc, puxc2, puxcpu,
  reverse, revx, rollrevx, rollx, rot, rotrev, swap2, tuck, xc2pu, xchg2, xchg3, xchg_long,
  xchg_simple, xchg_std, xchgx, xcpu, xcpu2, xcpuxc,
}

abbrev pub part_stack_54 : Result Handlers
part_stack_54 =
    set_range 0x00 0x10 xchg3 new
    >>= set_range 0x10 0x20 xc2pu
    >>= set_range 0x20 0x30 xcpuxc
    >>= set_range 0x30 0x40 xcpu2
    >>= set_range 0x40 0x50 puxc2
    >>= set_range 0x50 0x60 puxcpu
    >>= set_range 0x60 0x70 pu2xc
    >>= set_range 0x70 0x80 push3

abbrev pub part_stack_5f : Result Handlers
part_stack_5f = set_range 0x00 0x10 blkdrop new >>= set_range 0x10 0xFF blkpush >>= set 0xFF blkpush

abbrev pub part_stack_6c : Result Handlers
part_stack_6c = set_range 0x10 0xFF blkdrop2 new >>= set 0xFF blkdrop2

unfoldable pub add_code_page_0_part_stack : Handlers → Result Handlers
add_code_page_0_part_stack table =
    set 0x00 nop table
    >>= set_range 0x01 0x10 xchg_simple
    >>= set 0x10 xchg_std
    >>= set 0x11 xchg_long
    >>= set_range 0x12 0x20 xchg_simple
    >>= set_range 0x20 0x30 push_simple
    >>= set_range 0x30 0x40 pop_simple
    >>= set_range 0x40 0x50 xchg3
    >>= set 0x50 xchg2
    >>= set 0x51 xcpu
    >>= set 0x52 puxc
    >>= set 0x53 push2
    >>= add_subset 0x54 part_stack_54
    >>= set 0x55 blkswap
    >>= set 0x56 push
    >>= set 0x57 pop
    >>= set 0x58 rot
    >>= set 0x59 rotrev
    >>= set 0x5A swap2
    >>= set 0x5B drop2
    >>= set 0x5C dup2
    >>= set 0x5D over2
    >>= set 0x5E reverse
    >>= add_subset 0x5F part_stack_5f
    >>= set 0x60 pick
    >>= set 0x61 rollx
    >>= set 0x62 rollrevx
    >>= set 0x63 blkswx
    >>= set 0x64 revx
    >>= set 0x65 dropx
    >>= set 0x66 tuck
    >>= set 0x67 xchgx
    >>= set 0x68 depth
    >>= set 0x69 chkdepth
    >>= set 0x6A onlytopx
    >>= set 0x6B onlyx
    >>= add_subset 0x6C part_stack_6c
