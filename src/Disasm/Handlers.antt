-- ===== src/Disasm/Handlers.antt =====
-- The table of src/disasm/handlers.rs: 256 entries, each a handler or a table for the next byte.
use tvm_linker.Prelude.{ℕ, zero, suc, ◌+◌, ◌-◌, List, [], ◌∷◌, Bool, false, if◌then◌else◌}
use tvm_linker.Outcome.{panic, no_byte, Result, ok, err, ◌>>=◌}
use tvm_linker.Disasm.Handler.{LoadHandler, unknown, is_unknown}

pub data Handler : Type 0 where
  direct : LoadHandler → Handler
  subset : ℕ → Handler

mutual
  pub data Handlers : Type 0 where
    handlers : (directs : List Handler) (subsets : Subsets) → Handlers

  pub data Subsets : Type 0 where
    no_subsets : Subsets
    with_subset : Handlers → Subsets → Subsets

unfoldable pub unknowns : ℕ → List Handler
unknowns zero = []
unknowns (suc n) = direct unknown ∷ unknowns n

unfoldable pub new : Handlers
unfolding unknowns
new = handlers (unknowns 256) no_subsets

-- `directs[code]`; a code is a byte, so it is never out of range.
unfoldable pub entry : List Handler → ℕ → Handler
entry [] code = direct unknown
entry (h ∷ directs) zero = h
entry (h ∷ directs) (suc code) = entry directs code

unfoldable pub replace : List Handler → ℕ → Handler → List Handler
replace [] code h = []
replace (g ∷ directs) zero h = h ∷ directs
replace (g ∷ directs) (suc code) h = g ∷ replace directs code h

unfoldable pub count : Subsets → ℕ
count no_subsets = 0
count (with_subset h rest) = suc (count rest)

unfoldable pub push_subset : Subsets → Handlers → Subsets
push_subset no_subsets h = with_subset h no_subsets
push_subset (with_subset g rest) h = with_subset g (push_subset rest h)

unfoldable pub subset_at : Subsets → ℕ → Handlers
unfolding new
subset_at no_subsets i = new
subset_at (with_subset h rest) zero = h
subset_at (with_subset h rest) (suc i) = subset_at rest i

-- A slot is free while it holds `Loader::unknown`.
unfoldable pub is_free : Handler → Bool
is_free (direct h) = is_unknown h
is_free (subset i) = false

-- `register_handler`, which panics on a slot that is taken.
unfoldable pub set : ℕ → LoadHandler → Handlers → Result Handlers
set code h (handlers directs subsets) =
    if is_free (entry directs code)
    then ok (handlers (replace directs code (direct h)) subsets)
    else err panic

set_next : ℕ → ℕ → LoadHandler → Handlers → Result Handlers
set_next zero code h table = ok table
set_next (suc n) code h table = set code h table >>= set_next n (code + 1) h

-- The codes from `first` on and below `last`.
unfoldable pub set_range : ℕ → ℕ → LoadHandler → Handlers → Result Handlers
unfolding set_next
set_range first last h table = set_next (last - first) first h table

unfoldable pub put_subset : ℕ → Handlers → Handlers → Result Handlers
put_subset code inner (handlers directs subsets) =
    if is_free (entry directs code)
    then ok (handlers (replace directs code (subset (count subsets))) (push_subset subsets inner))
    else err panic

unfoldable pub add_subset : ℕ → Result Handlers → Handlers → Result Handlers
add_subset code inner table = inner >>= λ h. put_subset code h table

-- `get_handler`: the bytes of the slice decide; `no_byte` is the error of an exhausted slice.
unfoldable pub get_handler : Handlers → List ℕ → Result LoadHandler
get_handler table [] = err no_byte
get_handler (handlers directs subsets) (b ∷ bytes) = elim (entry directs b) [
  | direct h ↦ ok h
  | subset i ↦ get_handler (subset_at subsets i) bytes
]
