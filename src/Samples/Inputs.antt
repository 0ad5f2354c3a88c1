-- ===== src/Samples/Inputs.antt =====
-- Lines, functions and engines for the runs, and captures of the regular expressions of
-- src/parser.rs by table.
use tvm_linker.Prelude.{
  ℕ, ◌∷◌, [], List, Option, none, some, String, Bool, false, lookup, string_key, ℤ, pos,
  parse_unsigned, ◌^◌,
}
use tvm_linker.Parser.State.{Line, Lines, InternalFunc, Object, function}
use tvm_linker.Parser.Externals.{Externals}

-- A parser of natural numbers stands for `IntegerData::from_str`.
abbrev pub natural : List ℕ → Option ℤ
natural s = elim (parse_unsigned (2 ^ 64) s) [ none ↦ none | some n ↦ some (pos n) ]

abbrev pub captures : Externals
captures = record {
  version = λ l. none;
  pragma = λ l. none;
  global_base = λ l. none;
  persistent_base = λ l. none;
  type = λ l. lookup l ((".type main, @function\n", ("main", "function")) ∷ []);
  size = λ l. none;
  public = λ l. none;
  globl = λ l. lookup l ((".globl main\n", "main") ∷ []);
  macro = λ l. lookup l ((".macro twice\n", "twice") ∷ []);
  internal = λ l. lookup l ((".internal :fee\n", ":fee") ∷ []);
  alias = λ l. lookup l ((".internal-alias :fee, -2\n", (":fee", "-2")) ∷ []);
  label = λ l. false;
  loc = λ l. none;
  call = λ l. lookup l (("CALL $inner$\n", "inner") ∷ []);
  inline = λ l. lookup l ((".inline __outer\n", "outer") ∷ (".inline __inner\n", "inner") ∷ []);
  compute = λ l. none;
  comm = λ l. none;
  asciz = λ l. none;
  param = λ l. lookup l ((".byte 7\n", ("byte", "7")) ∷ (".long 9\n", ("long", "9")) ∷ []);
  parse_integer = natural;
  names = λ l. [];
  new_line = λ text filename n. record {
    text = text;
    pos = record { filename = filename; line = n; line_code = n };
  };
  load_abi = λ s. none;
  execute = λ lines. none;
  sha256 = λ bytes. 0 ∷ 0 ∷ 0 ∷ 7 ∷ [];
}

abbrev pub line : String → Line
line text = record { text = text; pos = record { filename = "a.code"; line = 1; line_code = 1 } }

abbrev pub procedure : ℕ → List ℕ → Lines → InternalFunc
procedure id called_ids body = record { id = id; body = body; called_ids = called_ids }

abbrev pub routine : String → Bool → ℕ → List ℕ → Object
routine name public id called_ids = record {
  name = name;
  size = 0;
  public = public;
  dtype = function (procedure id called_ids []);
}
