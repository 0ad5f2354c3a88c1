-- ===== src/Disasm/Pages/Arithmetic.antt =====
-- src/disasm/handlers.rs: `add_code_page_0_arithmetic`.
use tvm_linker.Outcome.{Result, ◌>>=◌}
use tvm_linker.Disasm.Operands.{signaling, quiet}
use tvm_linker.Disasm.Handlers.{Handlers, new, set, add_subset}
use tvm_linker.Disasm.Loader.Arithmetic.{
  add, addconst, and, bitsize, dec, divmod, fits, fitsx, inc, lshift, max, min, mul, mulconst,
  negate, not, or, pow2, rshift, sub, subr, ubitsize, ufits, ufitsx, xor,
}
use tvm_linker.Disasm.Loader.Comparison.{
  abs, cmp, eqint, equal, geq, greater, gtint, leq, less, lessint, minmax, neq, neqint, sgn,
}

abbrev pub arithmetic_b6 : Result Handlers
arithmetic_b6 =
    set 0x00 (fitsx signaling) new
    >>= set 0x01 (ufitsx signaling)
    >>= set 0x02 (bitsize signaling)
    >>= set 0x03 (ubitsize signaling)
    >>= set 0x08 (min signaling)
    >>= set 0x09 (max signaling)
    >>= set 0x0A (minmax signaling)
    >>= set 0x0B (abs signaling)

abbrev pub arithmetic_b7_b6 : Result Handlers
arithmetic_b7_b6 =
    set 0x00 (fitsx quiet) new
    >>= set 0x01 (ufitsx quiet)
    >>= set 0x02 (bitsize quiet)
    >>= set 0x03 (ubitsize quiet)
    >>= set 0x08 (min quiet)
    >>= set 0x09 (max quiet)
    >>= set 0x0A (minmax quiet)
    >>= set 0x0B (abs quiet)

abbrev pub arithmetic_b7 : Result Handlers
arithmetic_b7 =
    set 0xA0 (add quiet) new
    >>= set 0xA1 (sub quiet)
    >>= set 0xA2 (subr quiet)
    >>= set 0xA3 (negate quiet)
    >>= set 0xA4 (inc quiet)
    >>= set 0xA5 (dec quiet)
    >>= set 0xA6 (addconst quiet)
    >>= set 0xA7 (mulconst quiet)
    >>= set 0xA8 (mul quiet)
    >>= set 0xA9 (divmod quiet)
    >>= set 0xAA (lshift quiet)
    >>= set 0xAB (rshift quiet)
    >>= set 0xAC (lshift quiet)
    >>= set 0xAD (rshift quiet)
    >>= set 0xAE (pow2 quiet)
    >>= set 0xB0 (and quiet)
    >>= set 0xB1 (or quiet)
    >>= set 0xB2 (xor quiet)
    >>= set 0xB3 (not quiet)
    >>= set 0xB4 (fits quiet)
    >>= set 0xB5 (ufits quiet)
    >>= add_subset 0xB6 arithmetic_b7_b6
    >>= set 0xB8 (sgn quiet)
    >>= set 0xB9 (less quiet)
    >>= set 0xBA (equal quiet)
    >>= set 0xBB (leq quiet)
    >>= set 0xBC (greater quiet)
    >>= set 0xBD (neq quiet)
    >>= set 0xBE (geq quiet)
    >>= set 0xBF (cmp quiet)
    >>= set 0xC0 (eqint quiet)
    >>= set 0xC1 (lessint quiet)
    >>= set 0xC2 (gtint quiet)
    >>= set 0xC3 (neqint quiet)

unfoldable pub add_code_page_0_arithmetic : Handlers → Result Handlers
add_code_page_0_arithmetic table =
    set 0xA0 (add signaling) table
    >>= set 0xA1 (sub signaling)
    >>= set 0xA2 (subr signaling)
    >>= set 0xA3 (negate signaling)
    >>= set 0xA4 (inc signaling)
    >>= set 0xA5 (dec signaling)
    >>= set 0xA6 (addconst signaling)
    >>= set 0xA7 (mulconst signaling)
    >>= set 0xA8 (mul signaling)
    >>= set 0xA9 (divmod signaling)
    >>= set 0xAA (lshift signaling)
    >>= set 0xAB (rshift signaling)
    >>= set 0xAC (lshift signaling)
    >>= set 0xAD (rshift signaling)
    >>= set 0xAE (pow2 signaling)
    >>= set 0xB0 (and signaling)
    >>= set 0xB1 (or signaling)
    >>= set 0xB2 (xor signaling)
    >>= set 0xB3 (not signaling)
    >>= set 0xB4 (fits signaling)
    >>= set 0xB5 (ufits signaling)
    >>= add_subset 0xB6 arithmetic_b6
    >>= add_subset 0xB7 arithmetic_b7
