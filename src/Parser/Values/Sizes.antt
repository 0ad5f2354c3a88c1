-- ===== src/Parser/Values/Sizes.antt =====
-- The declared size and the values of a data object in `update_data` of src/parser.rs.
use tvm_linker.Prelude.{
  ℕ, ◌+◌, Option, none, some, List, [], ◌∷◌, ◌++◌, String, true, Has, ◌≡◌, refl, subst, ◌∙◌, inl,
  inr, length, map, codes, as_bytes, arith, length-append, Option-cases, Bool-cases, ltb, ◌==◌,
}
use tvm_linker.Outcome.{ok, >>=-eq-ok, ok-injective, Holds, Holds-if, Holds-bind, Holds-weaken}
use tvm_linker.Parser.State.{Line, Lines, DataValue, size}
use tvm_linker.Parser.Externals.{Externals}
use tvm_linker.Parser.Values.{
  Filling, Piece, asciz_piece, char_value, param_piece, piece, idle, take_piece, fill, update_data,
  value_length, trim, codes_eq,
}

-- The bytes that values take.
unfoldable pub total : List DataValue → ℕ
total [] = 0
total (v ∷ values) = size v + total values

pub total-append : (xs ys : List DataValue) → total (xs ++ ys) ≡ total xs + total ys
unfolding total
total-append [] ys = omega arith
total-append (x ∷ xs) ys = omega (arith, total-append xs ys)

total-chars : (s : List ℕ) → total (map char_value s) ≡ length s
unfolding total char_value size
total-chars [] = refl
total-chars (c ∷ s) = omega (arith, total-chars s)

-- A piece takes from the size what its values need, and does not set the size.
record IsPlain (p : Piece) : Type 0 where
  taken : total p.added ≡ p.value_len
  unsized : p.resized ≡ none

asciz_piece-IsPlain : (s : String) → IsPlain (asciz_piece s)
unfolding asciz_piece
asciz_piece-IsPlain s = record {
  taken = total-chars (as_bytes s ++ 0 ∷ []) ∙ length-append (as_bytes s) (0 ∷ []);
  unsized = refl;
}

module _ (x : Externals) where
  param_piece-IsPlain : (cap : String × String) → Holds IsPlain (param_piece x cap)
  unfolding param_piece total size
  param_piece-IsPlain (pname, value) = elim (Option-cases (value_length pname)) [
    | inl unknown ↦ rw (unknown, param_piece) tt
    | inr (n, known) ↦ elim (Option-cases (x.parse_integer (trim (codes value)))) [
      | inl bad ↦ rw (known, bad, param_piece) tt
      | inr (i, good) ↦
          rw (known, good, param_piece) (record { taken = omega arith; unsized = refl })
    ]
  ]

  idle-IsPlain : IsPlain (idle x)
  unfolding total
  idle-IsPlain = record { taken = refl; unsized = refl }

  piece-IsPlain : (text : String) → x.comm text ≡ none → Holds IsPlain (piece x text)
  unfolding piece
  piece-IsPlain text no_comm =
      rw (no_comm, piece)
        (Holds-if IsPlain (codes_eq (trim (codes text)) (codes ".bss")) (ok (idle x)) _ idle-IsPlain
          (other (x.asciz text) (x.param text)))
    where
      other :
          (a : Option String) (q : Option (String × String))
          → Holds IsPlain (elim a [
            | some s ↦ ok (asciz_piece s)
            | none ↦ elim q [ some cap ↦ param_piece x cap | none ↦ ok (idle x) ]
          ])
      other (some s) q = asciz_piece-IsPlain s
      other none (some cap) = param_piece-IsPlain cap
      other none none = idle-IsPlain

  -- What `s'` has more than `s` in values it has less in size.
  abbrev Balanced : Filling → Filling → Type 0
  Balanced s s' = total s'.values + s'.item_size ≡ total s.values + s.item_size

  take_piece-Balanced :
      (s : Filling) (p : Piece) → IsPlain p → Holds (Balanced s) (take_piece x s p)
  unfolding take_piece
  take_piece-Balanced s p h = elim (Bool-cases (ltb s.item_size p.value_len)) [
    | inl small ↦ rw (h.unsized, small, take_piece) tt
    | inr fits ↦
        rw (h.unsized, fits, take_piece) (ground (arith, h.taken, total-append s.values p.added))
  ]

  fill-Balanced :
      (body : Lines) (s : Filling)
      → ((l : Line) → Has l body → x.comm l.text ≡ none)
      → Holds (Balanced s) (fill x body s)
  unfolding fill
  fill-Balanced [] s h = refl
  fill-Balanced (l ∷ body) s h =
      Holds-bind IsPlain (Balanced s) (piece x l.text) _ (piece-IsPlain l.text (h l (inl refl)))
        λ p k.
          Holds-bind (Balanced s) (Balanced s) (take_piece x s p) _ (take_piece-Balanced s p k)
            λ s' b.
              Holds-weaken (Balanced s') (Balanced s) (fill x body s') (λ s'' b'. b' ∙ b)
                (fill-Balanced body s' (λ m i. h m (inr i)))

-- Where `update_data` accepts a body with no `.comm`, the values that it adds take exactly the
-- declared size, and none of the size is left.
pub update_data-total :
    (x : Externals) (body : Lines) (s s' : Filling)
    → ((l : Line) → Has l body → x.comm l.text ≡ none)
    → update_data x body s ≡ ok s'
    → (total s'.values ≡ total s.values + s.item_size) × (s'.item_size ≡ 0)
unfolding update_data
update_data-total x body s s' no_comm h =
    let (t, filled, rest) = >>=-eq-ok (fill x body s) _ h in
    let balanced = subst (Holds (Balanced x s)) filled (fill-Balanced x body s no_comm) in
    elim (Bool-cases (t.item_size == 0)) [
      | inl zero_left ↦ exact t (rw zero_left at rest) zero_left balanced
      | inr left ↦ cc (rw left at rest)
    ]
  where
    exact :
        (t : Filling)
        → ok t ≡ ok s'
        → (t.item_size == 0) ≡ true
        → total t.values + t.item_size ≡ total s.values + s.item_size
        → (total s'.values ≡ total s.values + s.item_size) × (s'.item_size ≡ 0)
    exact t same left balanced =
        subst (λ u. (total u.values ≡ total s.values + s.item_size) × (u.item_size ≡ 0))
          (ok-injective same) (ground arith, ground arith)
