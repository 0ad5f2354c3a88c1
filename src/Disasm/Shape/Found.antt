-- ===== src/Disasm/Shape/Found.antt =====
-- What the variables of a `Shape` of src/disasm/types.rs capture.
use tvm_linker.Prelude.{
  ℕ, zero, suc, List, [], ◌∷◌, String, Has, Has-lookup, Has-insert, insert, lookup, lookup-insert,
  string_key, Option, none, some, some-eq, ◌≡◌, ◌↔◌, ◌⊎◌, inl, inr, refl, ap, sym, subst, ◌∙◌,
  arith, Bool-cases,
}
use tvm_linker.Outcome.{ok, ok-injective, >>=-eq-ok}
use tvm_linker.Parser.Cell.{Cell, cell, Cells, no_cells, more_cells}
use tvm_linker.Disasm.Shape.{
  any, literal, var, Shape, shape, Shapes, no_shapes, more_shapes, shapes_count, cells_count,
  Captures, extend, check_data, check_children, captures, captures_all,
}
use tvm_linker.Disasm.Shape.Matches.{check_children_iff}
use tvm_linker.Disasm.Shape.Paths.{shape_at, shape_in, cell_at, cell_in}

-- At a path, the shape has a variable of the name and the cell has the cell.
abbrev pub Binds : Shape → Cell → String → Cell → Type 0
Binds s c name there =
    (path : List ℕ) × ((refs : Shapes) × ((shape_at path s ≡ some (shape (var name) refs))
        × (cell_at path c ≡ some there)))

abbrev BindsIn : Shapes → Cells → String → Cell → Type 0
BindsIn rs cs name there =
    (i : ℕ) × ((path : List ℕ) × ((refs : Shapes) × ((shape_in i path rs
            ≡ some (shape (var name) refs))
          × (cell_in i path cs ≡ some there))))

-- The variable is at one path at most.
abbrev pub IsSingle : Shape → String → Type 0
IsSingle s name =
    (path other : List ℕ) (refs others : Shapes)
    → shape_at path s ≡ some (shape (var name) refs)
    → shape_at other s ≡ some (shape (var name) others)
    → path ≡ other

abbrev Known : Captures → String → Type 0
Known m name = (c : Cell) × (lookup name m ≡ some c)

variable : Shape → Option String
variable (shape any refs) = none
variable (shape (literal bytes) refs) = none
variable (shape (var name) refs) = some name

single : (name : String) (c : Cell) → Known ((name, c) ∷ []) name
unfolding lookup
single name c = (c, rw ((string_key.beq_iff name name).1 refl) refl)

Has-extend :
    (m others : Captures) (name : String) (c : Cell)
    → Has (name, c) (extend m others)
    → Has (name, c) others ⊎ Has (name, c) m
unfolding extend
Has-extend m [] name c h = inr h
Has-extend m ((k, v) ∷ others) name c h = elim (Has-extend (insert k v m) others name c h) [
  | inl later ↦ inl (inr later)
  | inr before ↦ elim (Has-insert k name v c m before) [
    | inl this ↦ inl (inl this)
    | inr old ↦ inr old
  ]
]

insert-Known :
    (k name : String) (v : Cell) (m : Captures) → Known m name → Known (insert k v m) name
insert-Known k name v m (c, h) = elim (Bool-cases (string_key.beq k name)) [
  | inl same ↦ (v, rw (lookup-insert k name v m, same) refl)
  | inr other ↦ (c, rw (lookup-insert k name v m, other) h)
]

extend-Known : (m others : Captures) (name : String) → Known m name → Known (extend m others) name
unfolding extend
extend-Known m [] name h = h
extend-Known m ((k, v) ∷ others) name h =
    extend-Known (insert k v m) others name (insert-Known k name v m h)

extend-Known_right :
    (m others : Captures) (name : String) (c : Cell)
    → Has (name, c) others
    → Known (extend m others) name
unfolding extend
extend-Known_right m [] name c h = absurd h
extend-Known_right m ((k, v) ∷ others) name c (inl this) =
    let same : name ≡ k = ap (λ p. p.0) this in
    extend-Known (insert k v m) others name
      (v, rw (lookup-insert k name v m, (string_key.beq_iff k name).1 (sym same)) refl)
extend-Known_right m ((k, v) ∷ others) name c (inr later) =
    extend-Known_right (insert k v m) others name c later

module _ (bit_length : Cell → ℕ) (data_of : Cell → List ℕ) where
  mutual
    unfolding captures captures_all shape_at shape_in cell_at cell_in

    captures-Binds :
        (s : Shape) (c : Cell) (m : Captures) (name : String) (there : Cell)
        → captures bit_length data_of s c ≡ ok m
        → Has (name, there) m
        → Binds s c name there
    captures-Binds (shape any refs) c m name there h has =
        absurd (subst (Has (name, there)) (sym (ok-injective h)) has)
    captures-Binds (shape (var k) refs) c m name there h has =
        elim (subst (Has (name, there)) (sym (ok-injective h)) has) [
          | inl this ↦ (
            [],
            (
              refs,
              (
                ap (λ n. some (shape (var n) refs)) (sym (ap (λ p. p.0) this)),
                ap some (sym (ap (λ p. p.1) this)),
              ),
            ),
          )
          | inr none_left ↦ absurd none_left
        ]
    captures-Binds (shape (literal bytes) refs) (cell hex cs) m name there h has =
        let (u, fits, counted) =
          >>=-eq-ok (check_data bit_length data_of bytes (cell hex cs)) _ h in
        let (v, same, children) = >>=-eq-ok (check_children bit_length data_of refs cs) _ counted in
        elim (captures_all-BindsIn refs cs [] m name there children has) [
          | inl (i, (path, found)) ↦ (i ∷ path, found)
          | inr none_left ↦ absurd none_left
        ]

    captures_all-BindsIn :
        (rs : Shapes) (cs : Cells) (m n : Captures) (name : String) (there : Cell)
        → captures_all bit_length data_of rs cs m ≡ ok n
        → Has (name, there) n
        → BindsIn rs cs name there ⊎ Has (name, there) m
    captures_all-BindsIn no_shapes no_cells m n name there h has =
        inr (subst (Has (name, there)) (sym (ok-injective h)) has)
    captures_all-BindsIn no_shapes (more_cells c cs) m n name there h has = cc h
    captures_all-BindsIn (more_shapes s rest) no_cells m n name there h has =
        inr (subst (Has (name, there)) (sym (ok-injective h)) has)
    captures_all-BindsIn (more_shapes s rest) (more_cells c cs) m n name there h has =
        let (found, first, others) = >>=-eq-ok (captures bit_length data_of s c) _ h in
        elim (captures_all-BindsIn rest cs (extend m found) n name there others has) [
          | inl (i, later) ↦ inl (suc i, later)
          | inr before ↦ elim (Has-extend m found name there before) [
            | inl here ↦ inl (0, captures-Binds s c found name there first here)
            | inr old ↦ inr old
          ]
        ]

  captures_all-Known :
      (rs : Shapes) (cs : Cells) (m n : Captures) (name : String)
      → captures_all bit_length data_of rs cs m ≡ ok n
      → Known m name
      → Known n name
  unfolding captures_all
  captures_all-Known no_shapes no_cells m n name h known =
      subst (λ t. Known t name) (ok-injective h) known
  captures_all-Known no_shapes (more_cells c cs) m n name h known = cc h
  captures_all-Known (more_shapes s rest) no_cells m n name h known =
      subst (λ t. Known t name) (ok-injective h) known
  captures_all-Known (more_shapes s rest) (more_cells c cs) m n name h known =
      let (found, first, others) = >>=-eq-ok (captures bit_length data_of s c) _ h in
      captures_all-Known rest cs (extend m found) n name others (extend-Known m found name known)

  mutual
    unfolding captures captures_all shape_at shape_in shapes_count cells_count variable

    at-Known :
        (s : Shape) (c : Cell) (m : Captures) (name : String) (path : List ℕ) (r : Shapes)
        → captures bit_length data_of s c ≡ ok m
        → shape_at path s ≡ some (shape (var name) r)
        → Known m name
    at-Known (shape any refs) c m name [] r h at = cc (ap variable (some-eq at))
    at-Known (shape any refs) c m name (i ∷ path) r h at = cc at
    at-Known (shape (var k) refs) c m name [] r h at =
        let same : k ≡ name = some-eq (ap variable (some-eq at)) in
        subst (λ t. Known t name) (ok-injective h)
          (subst (λ t. Known ((t, c) ∷ []) name) (sym same) (single name c))
    at-Known (shape (var k) refs) c m name (i ∷ path) r h at = cc at
    at-Known (shape (literal bytes) refs) (cell hex cs) m name [] r h at =
        cc (ap variable (some-eq at))
    at-Known (shape (literal bytes) refs) (cell hex cs) m name (i ∷ path) r h at =
        let (u, fits, counted) =
          >>=-eq-ok (check_data bit_length data_of bytes (cell hex cs)) _ h in
        let (v, same, children) = >>=-eq-ok (check_children bit_length data_of refs cs) _ counted in
        let equal = (check_children_iff bit_length data_of refs cs).0 same in
        in-Known refs cs [] m name i path r equal children at

    in-Known :
        (rs : Shapes) (cs : Cells) (m n : Captures) (name : String) (i : ℕ) (path : List ℕ)
        (r : Shapes)
        → shapes_count rs ≡ cells_count cs
        → captures_all bit_length data_of rs cs m ≡ ok n
        → shape_in i path rs ≡ some (shape (var name) r)
        → Known n name
    in-Known no_shapes cs m n name i path r e h at = cc at
    in-Known (more_shapes s rest) no_cells m n name i path r e h at = absurd (omega (arith, e))
    in-Known (more_shapes s rest) (more_cells c cs) m n name zero path r e h at =
        let (found, first, others) = >>=-eq-ok (captures bit_length data_of s c) _ h in
        let (there, known) = at-Known s c found name path r first at in
        captures_all-Known rest cs (extend m found) n name others
          (extend-Known_right m found name there (Has-lookup name there found known))
    in-Known (more_shapes s rest) (more_cells c cs) m n name (suc i) path r e h at =
        let (found, first, others) = >>=-eq-ok (captures bit_length data_of s c) _ h in
        in-Known rest cs (extend m found) n name i path r (omega (arith, e)) others at

  -- Where a shape captures cells and a variable is at no two paths of the shape, the variable has
  -- captured a cell exactly if the cell is at the variable's path.
  pub captures-Binds_iff :
      (s : Shape) (c : Cell) (m : Captures) (name : String) (there : Cell)
      → captures bit_length data_of s c ≡ ok m
      → IsSingle s name
      → (lookup name m ≡ some there) ↔ Binds s c name there
  captures-Binds_iff s c m name there h single = (
    λ found. captures-Binds s c m name there h (Has-lookup name there m found),
    λ (path, (refs, (at, sub))).
        let (other, found) = at-Known s c m name path refs h at in
        let (place, (refs', (at', sub'))) =
          captures-Binds s c m name other h (Has-lookup name other m found) in
        let same = single place path refs' refs at' at in
        let equal : other ≡ there = some-eq (sym sub' ∙ ap (λ p. cell_at p c) same ∙ sub) in
        found ∙ ap some equal,
  )
