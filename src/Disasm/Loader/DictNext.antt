-- ===== src/Disasm/Loader/DictNext.antt =====
-- src/disasm/loader.rs: the opcode checks of the handlers for neighbours, minimum and maximum,
-- constants and prefix lookups of dictionaries.
use tvm_linker.Prelude.{◌==◌, ◌*◌, false}
use tvm_linker.Disasm.Handler.{LoadHandler, custom, create_handler_2}
use tvm_linker.Disasm.Operands.{done, next_int, drain}
use tvm_linker.Disasm.Types.{new, with_param, with_refs, length, cell}

abbrev pub dictgetnext : LoadHandler
dictgetnext = create_handler_2 0xf474 "DICTGETNEXT"

abbrev pub dictgetnexteq : LoadHandler
dictgetnexteq = create_handler_2 0xf475 "DICTGETNEXTEQ"

abbrev pub dictgetprev : LoadHandler
dictgetprev = create_handler_2 0xf476 "DICTGETPREV"

abbrev pub dictgetpreveq : LoadHandler
dictgetpreveq = create_handler_2 0xf477 "DICTGETPREVEQ"

abbrev pub dictigetnext : LoadHandler
dictigetnext = create_handler_2 0xf478 "DICTIGETNEXT"

abbrev pub dictigetnexteq : LoadHandler
dictigetnexteq = create_handler_2 0xf479 "DICTIGETNEXTEQ"

abbrev pub dictigetprev : LoadHandler
dictigetprev = create_handler_2 0xf47a "DICTIGETPREV"

abbrev pub dictigetpreveq : LoadHandler
dictigetpreveq = create_handler_2 0xf47b "DICTIGETPREVEQ"

abbrev pub dictugetnext : LoadHandler
dictugetnext = create_handler_2 0xf47c "DICTUGETNEXT"

abbrev pub dictugetnexteq : LoadHandler
dictugetnexteq = create_handler_2 0xf47d "DICTUGETNEXTEQ"

abbrev pub dictugetprev : LoadHandler
dictugetprev = create_handler_2 0xf47e "DICTUGETPREV"

abbrev pub dictugetpreveq : LoadHandler
dictugetpreveq = create_handler_2 0xf47f "DICTUGETPREVEQ"

abbrev pub dictmin : LoadHandler
dictmin = create_handler_2 0xf482 "DICTMIN"

abbrev pub dictminref : LoadHandler
dictminref = create_handler_2 0xf483 "DICTMINREF"

abbrev pub dictimin : LoadHandler
dictimin = create_handler_2 0xf484 "DICTIMIN"

abbrev pub dictiminref : LoadHandler
dictiminref = create_handler_2 0xf485 "DICTIMINREF"

abbrev pub dictumin : LoadHandler
dictumin = create_handler_2 0xf486 "DICTUMIN"

abbrev pub dictuminref : LoadHandler
dictuminref = create_handler_2 0xf487 "DICTUMINREF"

abbrev pub dictmax : LoadHandler
dictmax = create_handler_2 0xf48a "DICTMAX"

abbrev pub dictmaxref : LoadHandler
dictmaxref = create_handler_2 0xf48b "DICTMAXREF"

abbrev pub dictimax : LoadHandler
dictimax = create_handler_2 0xf48c "DICTIMAX"

abbrev pub dictimaxref : LoadHandler
dictimaxref = create_handler_2 0xf48d "DICTIMAXREF"

abbrev pub dictumax : LoadHandler
dictumax = create_handler_2 0xf48e "DICTUMAX"

abbrev pub dictumaxref : LoadHandler
dictumaxref = create_handler_2 0xf48f "DICTUMAXREF"

abbrev pub dictremmin : LoadHandler
dictremmin = create_handler_2 0xf492 "DICTREMMIN"

abbrev pub dictremminref : LoadHandler
dictremminref = create_handler_2 0xf493 "DICTREMMINREF"

abbrev pub dictiremmin : LoadHandler
dictiremmin = create_handler_2 0xf494 "DICTIREMMIN"

abbrev pub dictiremminref : LoadHandler
dictiremminref = create_handler_2 0xf495 "DICTIREMMINREF"

abbrev pub dicturemmin : LoadHandler
dicturemmin = create_handler_2 0xf496 "DICTUREMMIN"

abbrev pub dicturemminref : LoadHandler
dicturemminref = create_handler_2 0xf497 "DICTUREMMINREF"

abbrev pub dictremmax : LoadHandler
dictremmax = create_handler_2 0xf49a "DICTREMMAX"

abbrev pub dictremmaxref : LoadHandler
dictremmaxref = create_handler_2 0xf49b "DICTREMMAXREF"

abbrev pub dictiremmax : LoadHandler
dictiremmax = create_handler_2 0xf49c "DICTIREMMAX"

abbrev pub dictiremmaxref : LoadHandler
dictiremmaxref = create_handler_2 0xf49d "DICTIREMMAXREF"

abbrev pub dicturemmax : LoadHandler
dicturemmax = create_handler_2 0xf49e "DICTUREMMAX"

abbrev pub dicturemmaxref : LoadHandler
dicturemmaxref = create_handler_2 0xf49f "DICTUREMMAXREF"

abbrev pub dictigetjmp : LoadHandler
dictigetjmp = create_handler_2 0xf4a0 "DICTIGETJMP"

abbrev pub dictugetjmp : LoadHandler
dictugetjmp = create_handler_2 0xf4a1 "DICTUGETJMP"

abbrev pub dictigetexec : LoadHandler
dictigetexec = create_handler_2 0xf4a2 "DICTIGETEXEC"

abbrev pub dictugetexec : LoadHandler
dictugetexec = create_handler_2 0xf4a3 "DICTUGETEXEC"

abbrev pub dictpushconst : LoadHandler
dictpushconst =
    custom 14 (λ opc. opc * 4 == 0xf4a4)
      (λ opc. next_int 10 (λ n. drain (λ c.
        done
          (with_param (cell c false) (with_param (length n) (with_refs 1 (new "DICTPUSHCONST")))))))

abbrev pub pfxdictgetq : LoadHandler
pfxdictgetq = create_handler_2 0xf4a8 "PFXDICTGETQ"

abbrev pub pfxdictget : LoadHandler
pfxdictget = create_handler_2 0xf4a9 "PFXDICTGET"

abbrev pub pfxdictgetjmp : LoadHandler
pfxdictgetjmp = create_handler_2 0xf4aa "PFXDICTGETJMP"

abbrev pub pfxdictgetexec : LoadHandler
pfxdictgetexec = create_handler_2 0xf4ab "PFXDICTGETEXEC"

abbrev pub pfxdictswitch : LoadHandler
pfxdictswitch =
    custom 14 (λ opc. opc * 4 == 0xf4ac)
      (λ opc. next_int 10 (λ n. drain (λ c.
        done
          (with_param (cell c false) (with_param (length n) (with_refs 1 (new "PFXDICTSWITCH")))))))

abbrev pub subdictget : LoadHandler
subdictget = create_handler_2 0xf4b1 "SUBDICTGET"

abbrev pub subdictiget : LoadHandler
subdictiget = create_handler_2 0xf4b2 "SUBDICTIGET"

abbrev pub subdictuget : LoadHandler
subdictuget = create_handler_2 0xf4b3 "SUBDICTUGET"

abbrev pub subdictrpget : LoadHandler
subdictrpget = create_handler_2 0xf4b5 "SUBDICTRPGET"

abbrev pub subdictirpget : LoadHandler
subdictirpget = create_handler_2 0xf4b6 "SUBDICTIRPGET"

abbrev pub subdicturpget : LoadHandler
subdicturpget = create_handler_2 0xf4b7 "SUBDICTURPGET"

abbrev pub dictigetjmpz : LoadHandler
dictigetjmpz = create_handler_2 0xf4bc "DICTIGETJMPZ"

abbrev pub dictugetjmpz : LoadHandler
dictugetjmpz = create_handler_2 0xf4bd "DICTUGETJMPZ"

abbrev pub dictigetexecz : LoadHandler
dictigetexecz = create_handler_2 0xf4be "DICTIGETEXECZ"

abbrev pub dictugetexecz : LoadHandler
dictugetexecz = create_handler_2 0xf4bf "DICTUGETEXECZ"
