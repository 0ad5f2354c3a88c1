-- ===== src/Lib.antt =====
-- The TVM linker: what src/parser.rs makes of assembly files, and how src/disasm turns slices into
-- instructions and prints them.
--
-- The linker reads assembly files into a `ParseEngine`: tables of global objects (functions and
-- data), internal functions and macros. `parse_code` reads one file line by line; at the end of
-- each section it calls `update`, which assigns function identifiers (src/abi.rs) and fills data
-- objects (`update_data`). Then `compat_rename_all_macro_calls` rewrites the old calls of macros,
-- `resolve_fragments` orders the used macros so that each stands behind those that it inlines,
-- `replace_all_labels` replaces the names between dollar signs by identifiers and addresses
-- (src/resolver.rs) and the `.compute` lines by cells, and `drop_unused_objects` drops the
-- functions that nothing reaches; `new_generic` and `parse` run these passes in this order. The
-- disassembler keeps a table from the first bytes of a slice to a load handler, which checks the
-- opcode again and reads the operands; `load` goes through a slice and the cells that it refers to,
-- and `print` writes the instructions down.
--
-- Files, by the code that they model:
--   Prelude, Outcome: shared names, maps, texts and integers; the errors and the `Result`.
--   Abi: `gen_abi_id`, `calc_func_id` of src/abi.rs and `is_public` of src/parser.rs.
--   Parser/State: the data types of src/parser.rs. Parser/Externals: what it takes from other crates.
--   Parser/Directives: the tests on a line. Parser/Code: `parse_code`, `update_predefined`.
--   Parser/Section: `update`, `create_function_id`.
--   Parser/Values: `update_data`. Parser/Consistent: the tables that fit together while reading.
--   Parser/Fragments: `compat_rename_all_macro_calls`, `resolve_fragments` and what they call.
--   Parser/Compute, Parser/Cell: `compute_cell`, `encode_computed_cell`, and their cells.
--   Parser/Labels: `replace_all_labels`, `insert_called_func` and what they call.
--   Parser/Unused: `drop_unused_objects`, `enum_calling_funcs`.
--   Parser/Pipeline: `new_generic`, `parse`. Parser/Results: the accessors of the `ParseEngine`.
--   Resolver: `resolve_name` of src/resolver.rs. Resolver/Format: the numbers that it prints, and
--   Resolver/Reading: the numbers that texts stand for.
--   Disasm/Handlers: the table of src/disasm/handlers.rs. Disasm/CodePage, Disasm/Pages: code page 0.
--   Disasm/Types: instructions and code of src/disasm/types.rs. Disasm/Handler, Disasm/Operands,
--   Disasm/Loader: the load handlers of src/disasm/loader.rs, with their opcode checks and operands.
--   Disasm/Run: `load`, `load_slice`, `load_cell` of src/disasm/loader.rs.
--   Disasm/Print: `Code::print` of src/disasm/fmt.rs and the marks of src/disasm/codedict.rs.
--   Disasm/Shape: `Shape` of src/disasm/types.rs. Disasm/Shape/Paths: its nodes by their paths.
--   Disasm/Lookup, Disasm/Register: lookups, and what registrations do to them.
--   Disasm/Opcodes: the opcode checks against the table of code page 0.
--   Samples: runs at concrete inputs.
--
-- State and operations: a method on `&mut self` is a function from an engine to a `Result` of an
-- engine. An `unwrap` of nothing, or an index out of range, is the error `panic`. A `BTreeMap` or
-- a `HashMap` is an association list in the order of the keys. The loop of `parse_code` has its
-- local variables in a `Cursor`. A file is the list of what `read_line` returns, `none` for a
-- failed read. A `Ptr` (i64) is its bit pattern below 2 ^ 64, and its additions wrap, as those of
-- `resolve_name` do at the width of its number type and that of `.comm` on usize: this is the release
-- build, where an overflow stops nothing. The closures that `resolve_name` takes change the engine
-- even where they end in an error, so it returns the result beside the state. A load handler is the width of its opcode, the opcodes that it goes on with, and a tree of its
-- calls on the slice and on the loader (`Load`), which `read` runs; a slice is the bits and the
-- references that are left of it. `accepts` is the opcode check on a slice that begins with two
-- given bytes. `load_slice` asserts that the bytecode that it has cut out lies in the slice's own cell;
-- slices have no cell here, and the assertion is left out.
--
-- Fuel: `resolve_fragment` recurses on one more than the number of macros, as each level of the
-- recursion marks another macro; `enum_calling_funcs` on one more than the number of objects, as
-- each level adds the id of another object. `compute_cell`, whose recursion the code does not
-- bound, takes its fuel as an argument, and so do its callers up to `new_generic`. `load_slice`
-- takes one more than the number of bits, as each instruction reads one at least; `load_code`
-- takes fuel for the nesting of cells and continuations.
--
-- Parameters (Parser/Externals): the captures of the regular expressions, the parser of integer
-- literals, SHA-256; the ABI contract, as its identifiers by name, and the loading of its file;
-- the assembly and the run of a `.compute` macro, `Line::new` of the assembler. The disassembler
-- takes the operations on slices and cells as parameters (`SliceData` of Disasm/Run), the printing
-- the texts of slices and cells (`Texts`).
--
-- Not modelled: `build_data` with the dictionaries of another crate, the opening of files, the
-- assembly of a program (src/program.rs, src/methdict.rs), the dictionaries of code in
-- src/disasm/codedict.rs, whose text is a parameter of the printing, files, other printing and
-- the command line (src/main.rs, src/printer.rs, src/keyman.rs, src/testcall.rs,
-- src/disasm/commands.rs).
pub mod Prelude
pub mod Outcome
pub mod Abi
pub mod Resolver
pub mod Parser
pub mod Disasm
pub mod Samples
