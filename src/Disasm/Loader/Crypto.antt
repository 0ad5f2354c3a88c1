-- ===== src/Disasm/Loader/Crypto.antt =====
-- src/disasm/loader.rs: the handlers of this part of the code page, by the opcodes that they accept
-- and the operands that they read.
use tvm_linker.Disasm.Handler.{LoadHandler, create_handler_2}

abbrev pub hashsu : LoadHandler
hashsu = create_handler_2 0xf901 "HASHSU"

abbrev pub sha256u : LoadHandler
sha256u = create_handler_2 0xf902 "SHA256U"

abbrev pub chksignu : LoadHandler
chksignu = create_handler_2 0xf910 "CHKSIGNU"

abbrev pub chksigns : LoadHandler
chksigns = create_handler_2 0xf911 "CHKSIGNS"

abbrev pub cdatasizeq : LoadHandler
cdatasizeq = create_handler_2 0xf940 "CDATASIZEQ"

abbrev pub cdatasize : LoadHandler
cdatasize = create_handler_2 0xf941 "CDATASIZE"

abbrev pub sdatasizeq : LoadHandler
sdatasizeq = create_handler_2 0xf942 "SDATASIZEQ"
