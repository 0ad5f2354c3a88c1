-- ===== src/Disasm/Pages/Dictionaries.antt =====
-- src/disasm/handlers.rs: `add_code_page_0_dictionaries`.
use tvm_linker.Outcome.{Result, ◌>>=◌}
use tvm_linker.Disasm.Handlers.{Handlers, new, set, set_range, add_subset}
use tvm_linker.Disasm.Loader.DictSet.{
  dictadd, dictaddget, dictaddgetref, dictaddref, dictget, dictgetref, dictiadd, dictiaddget,
  dictiaddgetref, dictiaddref, dictiget, dictigetref, dictireplace, dictireplaceget,
  dictireplacegetref, dictireplaceref, dictiset, dictisetget, dictisetgetref, dictisetref,
  dictreplace, dictreplaceget, dictreplacegetref, dictreplaceref, dictset, dictsetget,
  dictsetgetref, dictsetref, dictuadd, dictuaddget, dictuaddgetref, dictuaddref, dictuget,
  dictugetref, dictureplace, dictureplaceget, dictureplacegetref, dictureplaceref, dictuset,
  dictusetget, dictusetgetref, dictusetref, lddict, lddictq, lddicts, plddict, plddictq, plddicts,
  skipdict, stdict,
}
use tvm_linker.Disasm.Loader.DictDelete.{
  dictaddb, dictaddgetb, dictdel, dictdelget, dictdelgetref, dictgetoptref, dictiaddb, dictiaddgetb,
  dictidel, dictidelget, dictidelgetref, dictigetoptref, dictireplaceb, dictireplacegetb, dictisetb,
  dictisetgetb, dictisetgetoptref, dictreplaceb, dictreplacegetb, dictsetb, dictsetgetb,
  dictsetgetoptref, dictuaddb, dictuaddgetb, dictudel, dictudelget, dictudelgetref, dictugetoptref,
  dictureplaceb, dictureplacegetb, dictusetb, dictusetgetb, dictusetgetoptref, pfxdictadd,
  pfxdictdel, pfxdictreplace, pfxdictset,
}
use tvm_linker.Disasm.Loader.DictNext.{
  dictgetnext, dictgetnexteq, dictgetprev, dictgetpreveq, dictigetexec, dictigetexecz, dictigetjmp,
  dictigetjmpz, dictigetnext, dictigetnexteq, dictigetprev, dictigetpreveq, dictimax, dictimaxref,
  dictimin, dictiminref, dictiremmax, dictiremmaxref, dictiremmin, dictiremminref, dictmax,
  dictmaxref, dictmin, dictminref, dictpushconst, dictremmax, dictremmaxref, dictremmin,
  dictremminref, dictugetexec, dictugetexecz, dictugetjmp, dictugetjmpz, dictugetnext,
  dictugetnexteq, dictugetprev, dictugetpreveq, dictumax, dictumaxref, dictumin, dictuminref,
  dicturemmax, dicturemmaxref, dicturemmin, dicturemminref, pfxdictget, pfxdictgetexec,
  pfxdictgetjmp, pfxdictgetq, pfxdictswitch, subdictget, subdictiget, subdictirpget, subdictrpget,
  subdictuget, subdicturpget,
}

abbrev pub dictionaries_f4 : Result Handlers
dictionaries_f4 =
    set 0x00 stdict new
    >>= set 0x01 skipdict
    >>= set 0x02 lddicts
    >>= set 0x03 plddicts
    >>= set 0x04 lddict
    >>= set 0x05 plddict
    >>= set 0x06 lddictq
    >>= set 0x07 plddictq
    >>= set 0x0A dictget
    >>= set 0x0B dictgetref
    >>= set 0x0C dictiget
    >>= set 0x0D dictigetref
    >>= set 0x0E dictuget
    >>= set 0x0F dictugetref
    >>= set 0x12 dictset
    >>= set 0x13 dictsetref
    >>= set 0x14 dictiset
    >>= set 0x15 dictisetref
    >>= set 0x16 dictuset
    >>= set 0x17 dictusetref
    >>= set 0x1A dictsetget
    >>= set 0x1B dictsetgetref
    >>= set 0x1C dictisetget
    >>= set 0x1D dictisetgetref
    >>= set 0x1E dictusetget
    >>= set 0x1F dictusetgetref
    >>= set 0x22 dictreplace
    >>= set 0x23 dictreplaceref
    >>= set 0x24 dictireplace
    >>= set 0x25 dictireplaceref
    >>= set 0x26 dictureplace
    >>= set 0x27 dictureplaceref
    >>= set 0x2A dictreplaceget
    >>= set 0x2B dictreplacegetref
    >>= set 0x2C dictireplaceget
    >>= set 0x2D dictireplacegetref
    >>= set 0x2E dictureplaceget
    >>= set 0x2F dictureplacegetref
    >>= set 0x32 dictadd
    >>= set 0x33 dictaddref
    >>= set 0x34 dictiadd
    >>= set 0x35 dictiaddref
    >>= set 0x36 dictuadd
    >>= set 0x37 dictuaddref
    >>= set 0x3A dictaddget
    >>= set 0x3B dictaddgetref
    >>= set 0x3C dictiaddget
    >>= set 0x3D dictiaddgetref
    >>= set 0x3E dictuaddget
    >>= set 0x3F dictuaddgetref
    >>= set 0x41 dictsetb
    >>= set 0x42 dictisetb
    >>= set 0x43 dictusetb
    >>= set 0x45 dictsetgetb
    >>= set 0x46 dictisetgetb
    >>= set 0x47 dictusetgetb
    >>= set 0x49 dictreplaceb
    >>= set 0x4A dictireplaceb
    >>= set 0x4B dictureplaceb
    >>= set 0x4D dictreplacegetb
    >>= set 0x4E dictireplacegetb
    >>= set 0x4F dictureplacegetb
    >>= set 0x51 dictaddb
    >>= set 0x52 dictiaddb
    >>= set 0x53 dictuaddb
    >>= set 0x55 dictaddgetb
    >>= set 0x56 dictiaddgetb
    >>= set 0x57 dictuaddgetb
    >>= set 0x59 dictdel
    >>= set 0x5A dictidel
    >>= set 0x5B dictudel
    >>= set 0x62 dictdelget
    >>= set 0x63 dictdelgetref
    >>= set 0x64 dictidelget
    >>= set 0x65 dictidelgetref
    >>= set 0x66 dictudelget
    >>= set 0x67 dictudelgetref
    >>= set 0x69 dictgetoptref
    >>= set 0x6A dictigetoptref
    >>= set 0x6B dictugetoptref
    >>= set 0x6D dictsetgetoptref
    >>= set 0x6E dictisetgetoptref
    >>= set 0x6F dictusetgetoptref
    >>= set 0x70 pfxdictset
    >>= set 0x71 pfxdictreplace
    >>= set 0x72 pfxdictadd
    >>= set 0x73 pfxdictdel
    >>= set 0x74 dictgetnext
    >>= set 0x75 dictgetnexteq
    >>= set 0x76 dictgetprev
    >>= set 0x77 dictgetpreveq
    >>= set 0x78 dictigetnext
    >>= set 0x79 dictigetnexteq
    >>= set 0x7A dictigetprev
    >>= set 0x7B dictigetpreveq
    >>= set 0x7C dictugetnext
    >>= set 0x7D dictugetnexteq
    >>= set 0x7E dictugetprev
    >>= set 0x7F dictugetpreveq
    >>= set 0x82 dictmin
    >>= set 0x83 dictminref
    >>= set 0x84 dictimin
    >>= set 0x85 dictiminref
    >>= set 0x86 dictumin
    >>= set 0x87 dictuminref
    >>= set 0x8A dictmax
    >>= set 0x8B dictmaxref
    >>= set 0x8C dictimax
    >>= set 0x8D dictimaxref
    >>= set 0x8E dictumax
    >>= set 0x8F dictumaxref
    >>= set 0x92 dictremmin
    >>= set 0x93 dictremminref
    >>= set 0x94 dictiremmin
    >>= set 0x95 dictiremminref
    >>= set 0x96 dicturemmin
    >>= set 0x97 dicturemminref
    >>= set 0x9A dictremmax
    >>= set 0x9B dictremmaxref
    >>= set 0x9C dictiremmax
    >>= set 0x9D dictiremmaxref
    >>= set 0x9E dicturemmax
    >>= set 0x9F dicturemmaxref
    >>= set 0xA0 dictigetjmp
    >>= set 0xA1 dictugetjmp
    >>= set 0xA2 dictigetexec
    >>= set 0xA3 dictugetexec
    >>= set_range 0xA4 0xA8 dictpushconst
    >>= set 0xA8 pfxdictgetq
    >>= set 0xA9 pfxdictget
    >>= set 0xAA pfxdictgetjmp
    >>= set 0xAB pfxdictgetexec
    >>= set_range 0xAC 0xAF pfxdictswitch
    >>= set 0xAF pfxdictswitch
    >>= set 0xB1 subdictget
    >>= set 0xB2 subdictiget
    >>= set 0xB3 subdictuget
    >>= set 0xB5 subdictrpget
    >>= set 0xB6 subdictirpget
    >>= set 0xB7 subdicturpget
    >>= set 0xBC dictigetjmpz
    >>= set 0xBD dictugetjmpz
    >>= set 0xBE dictigetexecz
    >>= set 0xBF dictugetexecz

unfoldable pub add_code_page_0_dictionaries : Handlers → Result Handlers
add_code_page_0_dictionaries table = add_subset 0xF4 dictionaries_f4 table
