-- ===== src/Collections/HandleMap/Paths.antt =====
-- The walks, by the path of bytes that a handle spells.
use mathlib.Core.Option
use endless_hole.Base.{ℕ, zero, suc, bit_and, arith}
use endless_hole.Base.{◌≡◌, refl, sym, ◌∙◌, Bool, ◌&&◌, inl, inr}
use endless_hole.Base.{
  write, Option, none, some, ◌==◌, if◌then◌else◌, Bool-cases, Option-cases, eq_of_==,
}
use endless_hole.Collections.HandleMap.Table.{
  Table, rotate_left_8, default, get_or_new_table, get_from, take_from, put_from,
}

-- The walks of `x` and `y` end at the same entry.
unfoldable pub same_path : ℕ → ℕ → ℕ → Bool
same_path zero x y = bit_and x 0xff == bit_and y 0xff
same_path (suc d) x y =
    bit_and x 0xff == bit_and y 0xff && same_path d (rotate_left_8 x) (rotate_left_8 y)

-- The handle as the loops leave it.
unfoldable pub rotated : ℕ → ℕ → ℕ
rotated zero x = x
rotated (suc d) x = rotated d (rotate_left_8 x)

module _ {ℓ} (T : Type ℓ) where
  pub get_from-default : (d x : ℕ) → get_from T d (default T d) x ≡ none
  unfolding get_from default
  get_from-default zero x = refl
  get_from-default (suc d) x = refl

  -- A read below an entry of a table.
  abbrev get_entry : (d : ℕ) → Option (Table T d) → ℕ → Option T
  get_entry d none x = none
  get_entry d (some u) x = get_from T d u x

  abbrev get_below : (d : ℕ) → Table T (suc d) → ℕ → ℕ → Option T
  get_below d t i x = get_entry d (t i) x

  get_from-suc :
      (d : ℕ) (t : Table T (suc d)) (x : ℕ)
      → get_from T (suc d) t x ≡ get_below d t (bit_and x 0xff) (rotate_left_8 x)
  unfolding get_from
  get_from-suc d t x = elim (Option-cases (t (bit_and x 0xff))) [
    | inl e ↦ rw (e, get_from)
    | inr (u, e) ↦ rw (e, get_from)
  ]

  get_below-write :
      (d : ℕ) (t : Table T (suc d)) (u : Table T d) (i j x : ℕ)
      → get_below d (write t i (some u)) j x
        ≡ (if j == i then get_from T d u x else get_below d t j x)
  get_below-write d t u i j x = elim (Bool-cases (j == i)) [ inl e ↦ rw e | inr e ↦ rw e ]

  -- A table that is made on the way down holds nothing.
  get_from-get_or_new_table :
      (d : ℕ) (t : Table T (suc d)) (i x : ℕ)
      → get_from T d (get_or_new_table T d t i) x ≡ get_below d t i x
  unfolding get_or_new_table
  get_from-get_or_new_table d t i x = elim (Option-cases (t i)) [
    | inl e ↦ rw (e, get_or_new_table) (get_from-default d x)
    | inr (u, e) ↦ rw (e, get_or_new_table)
  ]

  pub put_from-fields :
      (d : ℕ) (t : Table T d) (x : ℕ) (make : ℕ → T)
      → ((put_from T d t x make).handle ≡ rotated d x)
        × ((put_from T d t x make).val ≡ make (rotated d x))
        × ((put_from T d t x make).old ≡ get_from T d t x)
  unfolding put_from rotated
  put_from-fields zero t x make = unfold get_from in (refl, refl, refl)
  put_from-fields (suc d) t x make =
      let child = get_or_new_table T d t (bit_and x 0xff) in
      let (handle, val, old) = put_from-fields d child (rotate_left_8 x) make in
      (
        handle,
        val,
        old
            ∙ get_from-get_or_new_table d t (bit_and x 0xff) (rotate_left_8 x)
            ∙ sym (get_from-suc d t x),
      )

  -- Two answers that agree where the first bytes differ, and below where they are equal.
  split_path :
      (i j : ℕ) (same : Bool) (inner outer v : Option T)
      → (i ≡ j → inner ≡ (if same then v else outer))
      → (if i == j then inner else outer) ≡ (if i == j && same then v else outer)
  split_path i j same inner outer v h = elim (Bool-cases (i == j)) [
    | inl e ↦ rw e (h (eq_of_== i j e))
    | inr e ↦ rw e
  ]

  -- A later read finds the value put there on the same path, and else what it found before.
  pub get_from-put_from :
      (d : ℕ) (t : Table T d) (x y : ℕ) (make : ℕ → T)
      → get_from T d (put_from T d t x make).table y
        ≡ (if same_path d y x then some (put_from T d t x make).val else get_from T d t y)
  unfolding put_from same_path
  get_from-put_from zero t x y make = unfold get_from in ground arith
  get_from-put_from (suc d) t x y make =
      let i = bit_and x 0xff in
      let j = bit_and y 0xff in
      let child = get_or_new_table T d t i in
      let below = put_from T d child (rotate_left_8 x) make in
      rw (get_from-suc d t y) (
        get_from-suc d (write t i (some below.table)) y
        ∙ get_below-write d t below.table i j (rotate_left_8 y)
        ∙ split_path j i (same_path d (rotate_left_8 y) (rotate_left_8 x))
            (get_from T d below.table (rotate_left_8 y)) (get_below d t j (rotate_left_8 y))
            (some below.val)
            (λ e.
              get_from-put_from d child (rotate_left_8 x) (rotate_left_8 y) make
              ∙ rw e (rw (get_from-get_or_new_table d t i (rotate_left_8 y)))))

  -- What `take_from` promises: the value of the path, and tables that hold it no more.
  abbrev pub Takes : (d : ℕ) → Table T d → ℕ → Option (Option T × Table T d) → Type ℓ
  Takes d t x none = get_from T d t x ≡ none
  Takes d t x (some (val, u)) =
      (val ≡ get_from T d t x)
      × ((y : ℕ) → get_from T d u y ≡ (if same_path d y x then none else get_from T d t y))

  Takes-map :
      (d : ℕ) (t : Table T (suc d)) (x : ℕ) (u : Table T d) (r : Option (Option T × Table T d))
      → t (bit_and x 0xff) ≡ some u
      → Takes d u (rotate_left_8 x) r
      → Takes (suc d) t x (Option.map (λ r. (r.0, write t (bit_and x 0xff) (some r.1))) r)
  unfolding same_path
  Takes-map d t x u none e h = get_from-suc d t x ∙ rw e h
  Takes-map d t x u (some (val, v)) e (found, rest) = (
    found ∙ sym (get_from-suc d t x ∙ rw e),
    λ y.
        let i = bit_and x 0xff in
        let j = bit_and y 0xff in
        rw (get_from-suc d t y) (
          get_from-suc d (write t i (some v)) y
          ∙ get_below-write d t v i j (rotate_left_8 y)
          ∙ split_path j i (same_path d (rotate_left_8 y) (rotate_left_8 x))
              (get_from T d v (rotate_left_8 y)) (get_below d t j (rotate_left_8 y)) none
              (λ p. rest (rotate_left_8 y) ∙ rw p (rw e))),
  )

  pub take_from-Takes : (d : ℕ) (t : Table T d) (x : ℕ) → Takes d t x (take_from T d t x)
  unfolding take_from
  take_from-Takes zero t x = unfold get_from same_path in (refl, λ y. refl)
  take_from-Takes (suc d) t x =
      go (t (bit_and x 0xff)) refl (λ u. take_from-Takes d u (rotate_left_8 x))
    where
      go :
          (o : Option (Table T d))
          → t (bit_and x 0xff) ≡ o
          → ((u : Table T d) → Takes d u (rotate_left_8 x) (take_from T d u (rotate_left_8 x)))
          → Takes (suc d) t x (elim o [
            | none ↦ none
            | some u ↦
                Option.map
                  (λ r. (r.0, write t (bit_and x 0xff) (some r.1)))
                  (take_from T d u (rotate_left_8 x))
          ])
      go none e ih = get_from-suc d t x ∙ rw e
      go (some u) e ih = Takes-map d t x u (take_from T d u (rotate_left_8 x)) e (ih u)
