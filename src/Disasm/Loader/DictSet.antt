-- ===== src/Disasm/Loader/DictSet.antt =====
-- src/disasm/loader.rs: the opcode checks of the handlers that get, set, replace and add in
-- dictionaries.
use tvm_linker.Disasm.Handler.{LoadHandler, create_handler_2}

abbrev pub changelib : LoadHandler
changelib = create_handler_2 0xfb07 "CHANGELIB"

abbrev pub stdict : LoadHandler
stdict = create_handler_2 0xf400 "STDICT"

abbrev pub skipdict : LoadHandler
skipdict = create_handler_2 0xf401 "SKIPDICT"

abbrev pub lddicts : LoadHandler
lddicts = create_handler_2 0xf402 "LDDICTS"

abbrev pub plddicts : LoadHandler
plddicts = create_handler_2 0xf403 "PLDDICTS"

abbrev pub lddict : LoadHandler
lddict = create_handler_2 0xf404 "LDDICT"

abbrev pub plddict : LoadHandler
plddict = create_handler_2 0xf405 "PLDDICT"

abbrev pub lddictq : LoadHandler
lddictq = create_handler_2 0xf406 "LDDICT"

abbrev pub plddictq : LoadHandler
plddictq = create_handler_2 0xf407 "PLDDICT"

abbrev pub dictget : LoadHandler
dictget = create_handler_2 0xf40a "DICTGET"

abbrev pub dictgetref : LoadHandler
dictgetref = create_handler_2 0xf40b "DICTGETREF"

abbrev pub dictiget : LoadHandler
dictiget = create_handler_2 0xf40c "DICTIGET"

abbrev pub dictigetref : LoadHandler
dictigetref = create_handler_2 0xf40d "DICTIGETREF"

abbrev pub dictuget : LoadHandler
dictuget = create_handler_2 0xf40e "DICTUGET"

abbrev pub dictugetref : LoadHandler
dictugetref = create_handler_2 0xf40f "DICTUGETREF"

abbrev pub dictset : LoadHandler
dictset = create_handler_2 0xf412 "DICTSET"

abbrev pub dictsetref : LoadHandler
dictsetref = create_handler_2 0xf413 "DICTSETREF"

abbrev pub dictiset : LoadHandler
dictiset = create_handler_2 0xf414 "DICTISET"

abbrev pub dictisetref : LoadHandler
dictisetref = create_handler_2 0xf415 "DICTISETREF"

abbrev pub dictuset : LoadHandler
dictuset = create_handler_2 0xf416 "DICTUSET"

abbrev pub dictusetref : LoadHandler
dictusetref = create_handler_2 0xf417 "DICTUSETREF"

abbrev pub dictsetget : LoadHandler
dictsetget = create_handler_2 0xf41a "DICTSETGET"

abbrev pub dictsetgetref : LoadHandler
dictsetgetref = create_handler_2 0xf41b "DICTSETGETREF"

abbrev pub dictisetget : LoadHandler
dictisetget = create_handler_2 0xf41c "DICTISETGET"

abbrev pub dictisetgetref : LoadHandler
dictisetgetref = create_handler_2 0xf41d "DICTISETGETREF"

abbrev pub dictusetget : LoadHandler
dictusetget = create_handler_2 0xf41e "DICTUSETGET"

abbrev pub dictusetgetref : LoadHandler
dictusetgetref = create_handler_2 0xf41f "DICTUSETGETREF"

abbrev pub dictreplace : LoadHandler
dictreplace = create_handler_2 0xf422 "DICTREPLACE"

abbrev pub dictreplaceref : LoadHandler
dictreplaceref = create_handler_2 0xf423 "DICTREPLACEREF"

abbrev pub dictireplace : LoadHandler
dictireplace = create_handler_2 0xf424 "DICTIREPLACE"

abbrev pub dictireplaceref : LoadHandler
dictireplaceref = create_handler_2 0xf425 "DICTIREPLACEREF"

abbrev pub dictureplace : LoadHandler
dictureplace = create_handler_2 0xf426 "DICTUREPLACE"

abbrev pub dictureplaceref : LoadHandler
dictureplaceref = create_handler_2 0xf427 "DICTUREPLACEREF"

abbrev pub dictreplaceget : LoadHandler
dictreplaceget = create_handler_2 0xf42a "DICTREPLACEGET"

abbrev pub dictreplacegetref : LoadHandler
dictreplacegetref = create_handler_2 0xf42b "DICTREPLACEGETREF"

abbrev pub dictireplaceget : LoadHandler
dictireplaceget = create_handler_2 0xf42c "DICTIREPLACEGET"

abbrev pub dictireplacegetref : LoadHandler
dictireplacegetref = create_handler_2 0xf42d "DICTIREPLACEGETREF"

abbrev pub dictureplaceget : LoadHandler
dictureplaceget = create_handler_2 0xf42e "DICTUREPLACEGET"

abbrev pub dictureplacegetref : LoadHandler
dictureplacegetref = create_handler_2 0xf42f "DICTUREPLACEGETREF"

abbrev pub dictadd : LoadHandler
dictadd = create_handler_2 0xf432 "DICTADD"

abbrev pub dictaddref : LoadHandler
dictaddref = create_handler_2 0xf433 "DICTADDREF"

abbrev pub dictiadd : LoadHandler
dictiadd = create_handler_2 0xf434 "DICTIADD"

abbrev pub dictiaddref : LoadHandler
dictiaddref = create_handler_2 0xf435 "DICTIADDREF"

abbrev pub dictuadd : LoadHandler
dictuadd = create_handler_2 0xf436 "DICTUADD"

abbrev pub dictuaddref : LoadHandler
dictuaddref = create_handler_2 0xf437 "DICTUADDREF"

abbrev pub dictaddget : LoadHandler
dictaddget = create_handler_2 0xf43a "DICTADDGET"

abbrev pub dictaddgetref : LoadHandler
dictaddgetref = create_handler_2 0xf43b "DICTADDGETREF"

abbrev pub dictiaddget : LoadHandler
dictiaddget = create_handler_2 0xf43c "DICTIADDGET"

abbrev pub dictiaddgetref : LoadHandler
dictiaddgetref = create_handler_2 0xf43d "DICTIADDGETREF"

abbrev pub dictuaddget : LoadHandler
dictuaddget = create_handler_2 0xf43e "DICTUADDGET"

abbrev pub dictuaddgetref : LoadHandler
dictuaddgetref = create_handler_2 0xf43f "DICTUADDGETREF"
