-- ===== src/Disasm/Pages/Cell.antt =====
-- src/disasm/handlers.rs: `add_code_page_0_cell`.
use tvm_linker.Outcome.{Result, ◌>>=◌}
use tvm_linker.Disasm.Handlers.{Handlers, new, set, set_range, add_subset}
use tvm_linker.Disasm.Loader.Builder.{
  bbitrefs, bbits, bchkbitrefs, bchkbitrefsq, bchkbits_long, bchkbits_short, bchkbitsq_long,
  bchkbitsq_short, bchkrefs, bchkrefsq, bdepth, brefs, brembitrefs, brembits, bremrefs, endcst,
  endxc, stb, stbq, stbr, stbref, stbrefq, stbrefrq, stbrq, stile4, stile8, stiq, stir, stirq, stix,
  stixq, stixr, stixrq, stones, stref, stref2const, strefconst, strefq, strefr, strefrq, stsame,
  stslice, stsliceconst, stsliceq, stslicer, stslicerq, stu, stule4, stule8, stuq, stur, sturq,
  stux, stuxq, stuxr, stuxrq, stzeroes,
}
use tvm_linker.Disasm.Loader.Comparison.{endc, newc, sti}
use tvm_linker.Disasm.Loader.Control.{cdepth}
use tvm_linker.Disasm.Loader.Slice.{
  ctos, ends, ldi, ldiq, ldix, ldixq, ldref, ldrefrtos, ldslice, ldsliceq, ldslicex, ldslicexq, ldu,
  lduq, ldux, lduxq, pldi, pldiq, pldix, pldixq, pldslice, pldsliceq, pldslicex, pldslicexq, pldu,
  plduq, pldux, plduxq, plduz, scutfirst, scutlast, sdbegins, sdbeginsq, sdbeginsx, sdbeginsxq,
  sdcutlast, sdskipfirst, sdskiplast, sdsubstr, sskipfirst, sskiplast,
}
use tvm_linker.Disasm.Loader.SliceParts.{
  ldile4, ldile4q, ldile8, ldile8q, ldones, ldsame, ldule4, ldule4q, ldule8, ldule8q, ldzeroes,
  pldile4, pldile4q, pldile8, pldile8q, pldref, pldrefidx, pldrefvar, pldule4, pldule4q, pldule8,
  pldule8q, sbitrefs, sbits, schkbitrefs, schkbitrefsq, schkbits, schkbitsq, schkrefs, schkrefsq,
  sdepth, split, splitq, srefs, subslice, xctos, xload, xloadq,
}

abbrev pub cell_cf : Result Handlers
cell_cf =
    set 0x00 stix new
    >>= set 0x01 stux
    >>= set 0x02 stixr
    >>= set 0x03 stuxr
    >>= set 0x04 stixq
    >>= set 0x05 stuxq
    >>= set 0x06 stixrq
    >>= set 0x07 stuxrq
    >>= set 0x08 sti
    >>= set 0x09 stu
    >>= set 0x0A stir
    >>= set 0x0B stur
    >>= set 0x0C stiq
    >>= set 0x0D stuq
    >>= set 0x0E stirq
    >>= set 0x0F sturq
    >>= set 0x10 stref
    >>= set 0x11 stbref
    >>= set 0x12 stslice
    >>= set 0x13 stb
    >>= set 0x14 strefr
    >>= set 0x15 endcst
    >>= set 0x16 stslicer
    >>= set 0x17 stbr
    >>= set 0x18 strefq
    >>= set 0x19 stbrefq
    >>= set 0x1A stsliceq
    >>= set 0x1B stbq
    >>= set 0x1C strefrq
    >>= set 0x1D stbrefrq
    >>= set 0x1E stslicerq
    >>= set 0x1F stbrq
    >>= set 0x20 strefconst
    >>= set 0x21 stref2const
    >>= set 0x23 endxc
    >>= set 0x28 stile4
    >>= set 0x29 stule4
    >>= set 0x2A stile8
    >>= set 0x2B stule8
    >>= set 0x30 bdepth
    >>= set 0x31 bbits
    >>= set 0x32 brefs
    >>= set 0x33 bbitrefs
    >>= set 0x35 brembits
    >>= set 0x36 bremrefs
    >>= set 0x37 brembitrefs
    >>= set 0x38 bchkbits_short
    >>= set 0x39 bchkbits_long
    >>= set 0x3A bchkrefs
    >>= set 0x3B bchkbitrefs
    >>= set 0x3C bchkbitsq_short
    >>= set 0x3D bchkbitsq_long
    >>= set 0x3E bchkrefsq
    >>= set 0x3F bchkbitrefsq
    >>= set 0x40 stzeroes
    >>= set 0x41 stones
    >>= set 0x42 stsame
    >>= set_range 0x80 0xFF stsliceconst
    >>= set 0xFF stsliceconst

abbrev pub cell_d7 : Result Handlers
cell_d7 =
    set 0x00 ldix new
    >>= set 0x01 ldux
    >>= set 0x02 pldix
    >>= set 0x03 pldux
    >>= set 0x04 ldixq
    >>= set 0x05 lduxq
    >>= set 0x06 pldixq
    >>= set 0x07 plduxq
    >>= set 0x08 ldi
    >>= set 0x09 ldu
    >>= set 0x0A pldi
    >>= set 0x0B pldu
    >>= set 0x0C ldiq
    >>= set 0x0D lduq
    >>= set 0x0E pldiq
    >>= set 0x0F plduq
    >>= set_range 0x10 0x18 plduz
    >>= set 0x18 ldslicex
    >>= set 0x19 pldslicex
    >>= set 0x1A ldslicexq
    >>= set 0x1B pldslicexq
    >>= set 0x1C ldslice
    >>= set 0x1D pldslice
    >>= set 0x1E ldsliceq
    >>= set 0x1F pldsliceq
    >>= set 0x20 pldslicex
    >>= set 0x21 sdskipfirst
    >>= set 0x22 sdcutlast
    >>= set 0x23 sdskiplast
    >>= set 0x24 sdsubstr
    >>= set 0x26 sdbeginsx
    >>= set 0x27 sdbeginsxq
    >>= set_range 0x28 0x2C sdbegins
    >>= set_range 0x2C 0x30 sdbeginsq
    >>= set 0x30 scutfirst
    >>= set 0x31 sskipfirst
    >>= set 0x32 scutlast
    >>= set 0x33 sskiplast
    >>= set 0x34 subslice
    >>= set 0x36 split
    >>= set 0x37 splitq
    >>= set 0x39 xctos
    >>= set 0x3A xload
    >>= set 0x3B xloadq
    >>= set 0x41 schkbits
    >>= set 0x42 schkrefs
    >>= set 0x43 schkbitrefs
    >>= set 0x45 schkbitsq
    >>= set 0x46 schkrefsq
    >>= set 0x47 schkbitrefsq
    >>= set 0x48 pldrefvar
    >>= set 0x49 sbits
    >>= set 0x4A srefs
    >>= set 0x4B sbitrefs
    >>= set 0x4C pldref
    >>= set_range 0x4D 0x50 pldrefidx
    >>= set 0x50 ldile4
    >>= set 0x51 ldule4
    >>= set 0x52 ldile8
    >>= set 0x53 ldule8
    >>= set 0x54 pldile4
    >>= set 0x55 pldule4
    >>= set 0x56 pldile8
    >>= set 0x57 pldule8
    >>= set 0x58 ldile4q
    >>= set 0x59 ldule4q
    >>= set 0x5A ldile8q
    >>= set 0x5B ldule8q
    >>= set 0x5C pldile4q
    >>= set 0x5D pldule4q
    >>= set 0x5E pldile8q
    >>= set 0x5F pldule8q
    >>= set 0x60 ldzeroes
    >>= set 0x61 ldones
    >>= set 0x62 ldsame
    >>= set 0x64 sdepth
    >>= set 0x65 cdepth

unfoldable pub add_code_page_0_cell : Handlers → Result Handlers
add_code_page_0_cell table =
    set 0xC8 newc table
    >>= set 0xC9 endc
    >>= set 0xCA sti
    >>= set 0xCB stu
    >>= set 0xCC stref
    >>= set 0xCD endcst
    >>= set 0xCE stslice
    >>= add_subset 0xCF cell_cf
    >>= set 0xD0 ctos
    >>= set 0xD1 ends
    >>= set 0xD2 ldi
    >>= set 0xD3 ldu
    >>= set 0xD4 ldref
    >>= set 0xD5 ldrefrtos
    >>= set 0xD6 ldslice
    >>= add_subset 0xD7 cell_d7
