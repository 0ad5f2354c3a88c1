-- ===== src/Samples/Register.antt =====
-- The registration of a handler and of a subset in an empty table of src/disasm/handlers.rs.
use tvm_linker.Prelude.{◌≡◌, refl, ◌∷◌, [], ℕ, ◌<◌, true, false, length, arith, zero, suc}
use tvm_linker.Outcome.{ok}
use tvm_linker.Disasm.Handler.{is_unknown}
use tvm_linker.Disasm.Handlers.{
  direct, subset, Handlers, handlers, no_subsets, with_subset, unknowns, entry, replace, count,
  push_subset, is_free, set, put_subset, get_handler,
}
use tvm_linker.Disasm.Register.{IsLinked, set-get_handler, put_subset-get_handler}
use tvm_linker.Disasm.Loader.Stack.{nop}

abbrev one_set : Handlers
one_set = handlers (replace (unknowns 256) 0xC8 (direct nop)) no_subsets

in_range : 0xC8 < length (unknowns 256)
unfolding unknowns
in_range = omega arith

one-set : set 0xC8 nop (handlers (unknowns 256) no_subsets) ≡ ok one_set
unfolding set is_free entry unknowns is_unknown replace
one-set = refl

set-get_handler_example : get_handler one_set (0xC8 ∷ []) ≡ ok nop
set-get_handler_example =
    set-get_handler 0xC8 nop (unknowns 256) no_subsets one_set 0xC8 [] in_range one-set

abbrev one_subset : Handlers
one_subset = handlers (replace (unknowns 256) 0xC8 (subset 0)) (with_subset one_set no_subsets)

one-subset : put_subset 0xC8 one_set (handlers (unknowns 256) no_subsets) ≡ ok one_subset
unfolding put_subset is_free entry unknowns is_unknown replace count push_subset
one-subset = refl

entry-unknowns : (n b i : ℕ) → entry (unknowns n) b ≡ subset i → true ≡ false
unfolding entry unknowns
entry-unknowns zero b i e = cc
entry-unknowns (suc n) zero i e = cc
entry-unknowns (suc n) (suc b) i e = entry-unknowns n b i e

unknowns-IsLinked : IsLinked (handlers (unknowns 256) no_subsets)
unknowns-IsLinked b i e = cc (entry-unknowns 256 b i e)

put_subset-get_handler_example :
    (get_handler one_subset (0xC8 ∷ 0xC8 ∷ []) ≡ get_handler one_set (0xC8 ∷ []))
    × IsLinked one_subset
put_subset-get_handler_example =
    put_subset-get_handler 0xC8 one_set (unknowns 256) no_subsets one_subset 0xC8 (0xC8 ∷ [])
      in_range unknowns-IsLinked one-subset
