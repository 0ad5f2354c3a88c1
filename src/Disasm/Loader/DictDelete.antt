-- ===== src/Disasm/Loader/DictDelete.antt =====
-- src/disasm/loader.rs: the opcode checks of the handlers for builders as values, deletion,
-- optional references and prefix codes of dictionaries.
use tvm_linker.Disasm.Handler.{LoadHandler, create_handler_2}

abbrev pub dictsetb : LoadHandler
dictsetb = create_handler_2 0xf441 "DICTSETB"

abbrev pub dictisetb : LoadHandler
dictisetb = create_handler_2 0xf442 "DICTISETB"

abbrev pub dictusetb : LoadHandler
dictusetb = create_handler_2 0xf443 "DICTUSETB"

abbrev pub dictsetgetb : LoadHandler
dictsetgetb = create_handler_2 0xf445 "DICTSETGETB"

abbrev pub dictisetgetb : LoadHandler
dictisetgetb = create_handler_2 0xf446 "DICTISETGETB"

abbrev pub dictusetgetb : LoadHandler
dictusetgetb = create_handler_2 0xf447 "DICTUSETGETB"

abbrev pub dictreplaceb : LoadHandler
dictreplaceb = create_handler_2 0xf449 "DICTREPLACEB"

abbrev pub dictireplaceb : LoadHandler
dictireplaceb = create_handler_2 0xf44a "DICTIREPLACEB"

abbrev pub dictureplaceb : LoadHandler
dictureplaceb = create_handler_2 0xf44b "DICTUREPLACEB"

abbrev pub dictreplacegetb : LoadHandler
dictreplacegetb = create_handler_2 0xf44d "DICTREPLACEGETB"

abbrev pub dictireplacegetb : LoadHandler
dictireplacegetb = create_handler_2 0xf44e "DICTIREPLACEGETB"

abbrev pub dictureplacegetb : LoadHandler
dictureplacegetb = create_handler_2 0xf44f "DICTUREPLACEGETB"

abbrev pub dictaddb : LoadHandler
dictaddb = create_handler_2 0xf451 "DICTADDB"

abbrev pub dictiaddb : LoadHandler
dictiaddb = create_handler_2 0xf452 "DICTIADDB"

abbrev pub dictuaddb : LoadHandler
dictuaddb = create_handler_2 0xf453 "DICTUADDB"

abbrev pub dictaddgetb : LoadHandler
dictaddgetb = create_handler_2 0xf455 "DICTADDGETB"

abbrev pub dictiaddgetb : LoadHandler
dictiaddgetb = create_handler_2 0xf456 "DICTIADDGETB"

abbrev pub dictuaddgetb : LoadHandler
dictuaddgetb = create_handler_2 0xf457 "DICTUADDGETB"

abbrev pub dictdel : LoadHandler
dictdel = create_handler_2 0xf459 "DICTDEL"

abbrev pub dictidel : LoadHandler
dictidel = create_handler_2 0xf45a "DICTIDEL"

abbrev pub dictudel : LoadHandler
dictudel = create_handler_2 0xf45b "DICTUDEL"

abbrev pub dictdelget : LoadHandler
dictdelget = create_handler_2 0xf462 "DICTDELGET"

abbrev pub dictdelgetref : LoadHandler
dictdelgetref = create_handler_2 0xf443 "DICTDELGETREF"

abbrev pub dictidelget : LoadHandler
dictidelget = create_handler_2 0xf444 "DICTIDELGET"

abbrev pub dictidelgetref : LoadHandler
dictidelgetref = create_handler_2 0xf445 "DICTIDELGETREF"

abbrev pub dictudelget : LoadHandler
dictudelget = create_handler_2 0xf466 "DICTUDELGET"

abbrev pub dictudelgetref : LoadHandler
dictudelgetref = create_handler_2 0xf467 "DICTUDELGETREF"

abbrev pub dictgetoptref : LoadHandler
dictgetoptref = create_handler_2 0xf469 "DICTGETOPTREF"

abbrev pub dictigetoptref : LoadHandler
dictigetoptref = create_handler_2 0xf46a "DICTIGETOPTREF"

abbrev pub dictugetoptref : LoadHandler
dictugetoptref = create_handler_2 0xf46b "DICTUGETOPTREF"

abbrev pub dictsetgetoptref : LoadHandler
dictsetgetoptref = create_handler_2 0xf46d "DICTSETGETOPTREF"

abbrev pub dictisetgetoptref : LoadHandler
dictisetgetoptref = create_handler_2 0xf46e "DICTISETGETOPTREF"

abbrev pub dictusetgetoptref : LoadHandler
dictusetgetoptref = create_handler_2 0xf46f "DICTUSETGETOPTREF"

abbrev pub pfxdictset : LoadHandler
pfxdictset = create_handler_2 0xf470 "PFXDICTSET"

abbrev pub pfxdictreplace : LoadHandler
pfxdictreplace = create_handler_2 0xf471 "PFXDICTREPLACE"

abbrev pub pfxdictadd : LoadHandler
pfxdictadd = create_handler_2 0xf472 "PFXDICTADD"

abbrev pub pfxdictdel : LoadHandler
pfxdictdel = create_handler_2 0xf473 "PFXDICTDEL"
