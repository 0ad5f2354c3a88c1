-- ===== src/Disasm/Pages/ControlFlow.antt =====
-- src/disasm/handlers.rs: `add_code_page_0_control_flow`.
use tvm_linker.Outcome.{Result, ◌>>=◌}
use tvm_linker.Disasm.Handlers.{Handlers, new, set, set_range, add_subset}
use tvm_linker.Disasm.Loader.Loop.{
  again, again_break, againend, againend_break, ifbitjmp, ifbitjmpref, ifnbitjmp, ifnbitjmpref,
  repeat, repeat_break, repeatend, repeatend_break, until, until_break, untilend, untilend_break,
  while_, while_break, whileend, whileend_break,
}
use tvm_linker.Disasm.Loader.Continuation.{
  atexit, atexitalt, bless, blessargs, blessva, booleval, call_short, compos, composalt, composboth,
  invert, popctr, popctrx, popsave, pushctr, pushctrx, returnargs, returnva, samealt, samealt_save,
  save, savealt, saveboth, setaltctr, setcontargs, setcontctr, setcontctrx, setcontva, setexitalt,
  setnumva, setretctr, thenret, thenretalt,
}
use tvm_linker.Disasm.Loader.Control.{
  callcc, callccargs, callccva, callref, callx, callxargs, callxva, condsel, condselchk, if_,
  ifelse, ifelseref, ifjmp, ifjmpref, ifnot, ifnotjmp, ifnotjmpref, ifnotref, ifnotret, ifnotretalt,
  ifref, ifrefelse, ifrefelseref, ifret, ifretalt, jmpref, jmprefdata, jmpx, jmpxargs, jmpxdata,
  jmpxva, ret, retalt, retargs, retbool, retdata, retva,
}
use tvm_linker.Disasm.Loader.Exceptions.{call_long, jmp, prepare}

abbrev pub control_flow_db : Result Handlers
control_flow_db =
    set_range 0x00 0x10 callxargs new
    >>= set_range 0x10 0x20 jmpxargs
    >>= set_range 0x20 0x30 retargs
    >>= set 0x30 ret
    >>= set 0x31 retalt
    >>= set 0x32 retbool
    >>= set 0x34 callcc
    >>= set 0x35 jmpxdata
    >>= set 0x36 callccargs
    >>= set 0x38 callxva
    >>= set 0x39 retva
    >>= set 0x3A jmpxva
    >>= set 0x3B callccva
    >>= set 0x3C callref
    >>= set 0x3D jmpref
    >>= set 0x3E jmprefdata
    >>= set 0x3F retdata

abbrev pub control_flow_e3 : Result Handlers
control_flow_e3 =
    set 0x00 ifref new
    >>= set 0x01 ifnotref
    >>= set 0x02 ifjmpref
    >>= set 0x03 ifnotjmpref
    >>= set 0x04 condsel
    >>= set 0x05 condselchk
    >>= set 0x08 ifretalt
    >>= set 0x09 ifnotretalt
    >>= set 0x0D ifrefelse
    >>= set 0x0E ifelseref
    >>= set 0x0F ifrefelseref
    >>= set 0x14 repeat_break
    >>= set 0x15 repeatend_break
    >>= set 0x16 until_break
    >>= set 0x17 untilend_break
    >>= set 0x18 while_break
    >>= set 0x19 whileend_break
    >>= set 0x1A again_break
    >>= set 0x1B againend_break
    >>= set_range 0x80 0xA0 ifbitjmp
    >>= set_range 0xA0 0xC0 ifnbitjmp
    >>= set_range 0xC0 0xE0 ifbitjmpref
    >>= set_range 0xE0 0xFF ifnbitjmpref
    >>= set 0xFF ifnbitjmpref

abbrev pub control_flow_ed : Result Handlers
control_flow_ed =
    set_range 0x00 0x10 returnargs new
    >>= set 0x10 returnva
    >>= set 0x11 setcontva
    >>= set 0x12 setnumva
    >>= set 0x1E bless
    >>= set 0x1F blessva
    >>= set_range 0x40 0x50 pushctr
    >>= set_range 0x50 0x60 popctr
    >>= set_range 0x60 0x70 setcontctr
    >>= set_range 0x70 0x80 setretctr
    >>= set_range 0x80 0x90 setaltctr
    >>= set_range 0x90 0xA0 popsave
    >>= set_range 0xA0 0xB0 save
    >>= set_range 0xB0 0xC0 savealt
    >>= set_range 0xC0 0xD0 saveboth
    >>= set 0xE0 pushctrx
    >>= set 0xE1 popctrx
    >>= set 0xE2 setcontctrx
    >>= set 0xF0 compos
    >>= set 0xF1 composalt
    >>= set 0xF2 composboth
    >>= set 0xF3 atexit
    >>= set 0xF4 atexitalt
    >>= set 0xF5 setexitalt
    >>= set 0xF6 thenret
    >>= set 0xF7 thenretalt
    >>= set 0xF8 invert
    >>= set 0xF9 booleval
    >>= set 0xFA samealt
    >>= set 0xFB samealt_save

abbrev pub control_flow_f1 : Result Handlers
control_flow_f1 =
    set_range 0x00 0x40 call_long new >>= set_range 0x40 0x80 jmp >>= set_range 0x80 0xC0 prepare

unfoldable pub add_code_page_0_control_flow : Handlers → Result Handlers
add_code_page_0_control_flow table =
    set 0xD8 callx table
    >>= set 0xD9 jmpx
    >>= set 0xDA callxargs
    >>= add_subset 0xDB control_flow_db
    >>= set 0xDE if_
    >>= set 0xDC ifret
    >>= set 0xDD ifnotret
    >>= set 0xDF ifnot
    >>= set 0xE0 ifjmp
    >>= set 0xE1 ifnotjmp
    >>= set 0xE2 ifelse
    >>= add_subset 0xE3 control_flow_e3
    >>= set 0xE4 repeat
    >>= set 0xE5 repeatend
    >>= set 0xE6 until
    >>= set 0xE7 untilend
    >>= set 0xE8 while_
    >>= set 0xE9 whileend
    >>= set 0xEA again
    >>= set 0xEB againend
    >>= set 0xEC setcontargs
    >>= add_subset 0xED control_flow_ed
    >>= set 0xEE blessargs
    >>= set 0xF0 call_short
    >>= add_subset 0xF1 control_flow_f1
