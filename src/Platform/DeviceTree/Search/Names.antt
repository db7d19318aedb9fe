-- ===== src/Platform/DeviceTree/Search/Names.antt =====
-- The two parts of the name of a node, byte by byte, and that `split_node_name` takes them apart.
use endless_hole.Base.{ℕ, suc, ◌+◌, arith, ◌≡◌, refl, ap, false, inl, inr}
use endless_hole.Base.{List, [], ◌∷◌, Option, none, some, ◌==◌, if◌then◌else◌, Bool-cases}
use endless_hole.Platform.DeviceTree.Bytes.{drop, take}
use endless_hole.Platform.DeviceTree.Search.{position, split_node_name}

-- The bytes before the first `@`
unfoldable pub name_of : List ℕ → List ℕ
name_of [] = []
name_of (b ∷ bytes) = let rest = name_of bytes in if b == b'@' then [] else b ∷ rest

-- The bytes behind the first `@`, if there is one
unfoldable pub unit_of : List ℕ → Option (List ℕ)
unit_of [] = none
unit_of (b ∷ bytes) = let rest = unit_of bytes in if b == b'@' then some bytes else rest

-- The position of the `@` says where both parts stand.
abbrev Parts : List ℕ → Option ℕ → Type 0
Parts name none = (name_of name ≡ name) × (unit_of name ≡ none)
Parts name (some pos) = (name_of name ≡ take pos name) × (unit_of name ≡ some (drop (pos + 1) name))

position-Parts : (name : List ℕ) → Parts name (position b'@' name)
unfolding position name_of unit_of
position-Parts [] = (refl, refl)
position-Parts (b ∷ bytes) = elim (Bool-cases (b == b'@')) [
  | inl here ↦ rw here (rw here refl, rw here refl)
  | inr other ↦ rw other (later other (position b'@' bytes) (position-Parts bytes))
]
  where
    later :
        (b == b'@') ≡ false
        → (pos : Option ℕ) → Parts bytes pos
        → Parts (b ∷ bytes) (elim pos [ none ↦ none | some i ↦ some (suc i) ])
    later other none (name, unit) = (rw other (ap (λ (xs : List ℕ). b ∷ xs) name), rw other unit)
    later other (some i) (name, unit) =
        let next : suc i + 1 ≡ suc (i + 1) = omega arith in
        (rw other (ap (λ (xs : List ℕ). b ∷ xs) name), rw (other, next) unit)

pub split_node_name_lem : (name : List ℕ) → split_node_name name ≡ (name_of name, unit_of name)
unfolding split_node_name
split_node_name_lem name = go (position b'@' name) (position-Parts name)
  where
    go :
        (pos : Option ℕ)
        → Parts name pos
        → ◌≡◌ {A = List ℕ × Option (List ℕ)}
            (elim pos [
              | some pos ↦ (take pos name, some (drop (pos + 1) name))
              | none ↦ (name, none)
            ])
            (name_of name, unit_of name)
    go none (before, behind) = rw (before, behind) refl
    go (some pos) (before, behind) = rw (before, behind) refl
