-- ===== src/Disasm/Loader/Tuple.antt =====
-- src/disasm/loader.rs: the handlers of this part of the code page, by the opcodes that they accept
-- and the operands that they read.
use tvm_linker.Prelude.{◌==◌, ◌*◌, pos}
use tvm_linker.Disasm.Handler.{LoadHandler, custom, create_handler_2}
use tvm_linker.Disasm.Operands.{done, next_int}
use tvm_linker.Disasm.Types.{new, with_param, length, stack_register_pair, stack_register_triple}

abbrev pub tuple_unpackfirst : LoadHandler
tuple_unpackfirst =
    custom 12 (λ opc. opc == 0x6f3)
      (λ opc. next_int 4 (λ k. done (with_param (length k) (new "UNPACKFIRST"))))

abbrev pub tuple_explode : LoadHandler
tuple_explode =
    custom 12 (λ opc. opc == 0x6f4)
      (λ opc. next_int 4 (λ n. done (with_param (length n) (new "EXPLODE"))))

abbrev pub tuple_setindex : LoadHandler
tuple_setindex =
    custom 12 (λ opc. opc == 0x6f5)
      (λ opc. next_int 4 (λ k. done (with_param (length k) (new "SETINDEX"))))

abbrev pub tuple_index_quiet : LoadHandler
tuple_index_quiet =
    custom 12 (λ opc. opc == 0x6f6)
      (λ opc. next_int 4 (λ k. done (with_param (length k) (new "INDEXQ"))))

abbrev pub tuple_setindex_quiet : LoadHandler
tuple_setindex_quiet =
    custom 12 (λ opc. opc == 0x6f7)
      (λ opc. next_int 4 (λ k. done (with_param (length k) (new "SETINDEXQ"))))

abbrev pub tuple_createvar : LoadHandler
tuple_createvar = create_handler_2 0x6f80 "TUPLEVAR"

abbrev pub tuple_indexvar : LoadHandler
tuple_indexvar = create_handler_2 0x6f81 "INDEXVAR"

abbrev pub tuple_untuplevar : LoadHandler
tuple_untuplevar = create_handler_2 0x6f82 "UNTUPLEVAR"

abbrev pub tuple_unpackfirstvar : LoadHandler
tuple_unpackfirstvar = create_handler_2 0x6f83 "UNPACKFIRSTVAR"

abbrev pub tuple_explodevar : LoadHandler
tuple_explodevar = create_handler_2 0x6f84 "EXPLODEVAR"

abbrev pub tuple_setindexvar : LoadHandler
tuple_setindexvar = create_handler_2 0x6f85 "SETINDEXVAR"

abbrev pub tuple_indexvar_quiet : LoadHandler
tuple_indexvar_quiet = create_handler_2 0x6f86 "INDEXVARQ"

abbrev pub tuple_setindexvar_quiet : LoadHandler
tuple_setindexvar_quiet = create_handler_2 0x6f87 "SETINDEXVARQ"

abbrev pub tuple_len : LoadHandler
tuple_len = create_handler_2 0x6f88 "TLEN"

abbrev pub tuple_len_quiet : LoadHandler
tuple_len_quiet = create_handler_2 0x6f89 "QTLEN"

abbrev pub istuple : LoadHandler
istuple = create_handler_2 0x6f8a "ISTUPLE"

abbrev pub tuple_last : LoadHandler
tuple_last = create_handler_2 0x6f8b "LAST"

abbrev pub tuple_push : LoadHandler
tuple_push = create_handler_2 0x6f8c "TPUSH"

abbrev pub tuple_pop : LoadHandler
tuple_pop = create_handler_2 0x6f8d "TPOP"

abbrev pub zeroswapif : LoadHandler
zeroswapif = create_handler_2 0x6f90 "ZEROSWAPIF"

abbrev pub zeroswapifnot : LoadHandler
zeroswapifnot = create_handler_2 0x6f91 "ZEROSWAPIFNOT"

abbrev pub zerorotrif : LoadHandler
zerorotrif = create_handler_2 0x6f92 "ZEROROTIF"

abbrev pub zerorotrifnot : LoadHandler
zerorotrifnot = create_handler_2 0x6f93 "ZEROROTIFNOT"

abbrev pub zeroswapif2 : LoadHandler
zeroswapif2 = create_handler_2 0x6f94 "ZEROSWAPIF2"

abbrev pub zeroswapifnot2 : LoadHandler
zeroswapifnot2 = create_handler_2 0x6f95 "ZEROSWAPIFNOT2"

abbrev pub zerorotrif2 : LoadHandler
zerorotrif2 = create_handler_2 0x6f96 "ZEROROTRIF2"

abbrev pub zerorotrifnot2 : LoadHandler
zerorotrifnot2 = create_handler_2 0x6f97 "ZEROROTRIFNOT2"

abbrev pub nullswapif : LoadHandler
nullswapif = create_handler_2 0x6fa0 "NULLSWAPIF"

abbrev pub nullswapifnot : LoadHandler
nullswapifnot = create_handler_2 0x6fa1 "NULLSWAPIFNOT"

abbrev pub nullrotrif : LoadHandler
nullrotrif = create_handler_2 0x6fa2 "NULLROTRIF"

abbrev pub nullrotrifnot : LoadHandler
nullrotrifnot = create_handler_2 0x6fa3 "NULLROTRIFNOT"

abbrev pub nullswapif2 : LoadHandler
nullswapif2 = create_handler_2 0x6fa4 "NULLSWAPIF2"

abbrev pub nullswapifnot2 : LoadHandler
nullswapifnot2 = create_handler_2 0x6fa5 "NULLSWAPIFNOT2"

abbrev pub nullrotrif2 : LoadHandler
nullrotrif2 = create_handler_2 0x6fa6 "NULLROTRIF2"

abbrev pub nullrotrifnot2 : LoadHandler
nullrotrifnot2 = create_handler_2 0x6fa7 "NULLROTRIFNOT2"

abbrev pub tuple_index2 : LoadHandler
tuple_index2 =
    custom 12 (λ opc. opc == 0x6fb)
      (λ opc. next_int 2 (λ i.
        next_int 2 (λ j. done (with_param (stack_register_pair (pos i) (pos j)) (new "INDEX2")))))

abbrev pub tuple_index3 : LoadHandler
tuple_index3 =
    custom 10 (λ opc. opc * 4 == 0x6fe)
      (λ opc. next_int 2 (λ i. next_int 2 (λ j.
        next_int 2
          (λ k. done (with_param (stack_register_triple (pos i) (pos j) (pos k)) (new "INDEX3"))))))
