-- ===== src/Collections/HandleMap/Table.antt =====
-- `Table` of kernel_core/src/collections/handle_map.rs, with the loops that walk down the tables.
use mathlib.Core.Option
use endless_hole.Base.{ℕ, zero, suc, ◌+◌, ◌*◌, ◌/◌, ◌%◌, ◌^◌, bit_and}
use endless_hole.Base.{write, Option, none, some}

-- The tables above `d` further levels. An entry is `none` where the word in the array is 0. Every
-- index is masked to a byte, so the 256 words are a function.
abbrev pub Table {ℓ} : Type ℓ → ℕ → Type ℓ
Table T zero = ℕ → Option T
Table T (suc d) = ℕ → Option (Table T d)

-- `u32::rotate_left(8)`
abbrev pub rotate_left_8 : ℕ → ℕ
rotate_left_8 x = x * 2 ^ 8 % 2 ^ 32 + x / 2 ^ 24

module _ {ℓ} (T : Type ℓ) where
  unfoldable pub default : (d : ℕ) → Table T d
  default zero = λ i. none
  default (suc d) = λ i. none

  unfoldable pub get_value : Table T zero → ℕ → Option T
  get_value t index = t index

  unfoldable pub take_value : Table T zero → ℕ → Option T × Table T zero
  take_value t index = (t index, write t index none)

  unfoldable pub put_value : Table T zero → ℕ → T → Option T × Table T zero
  put_value t index val = (t index, write t index (some val))

  -- The table at an index, or the new one that is stored there.
  unfoldable pub get_or_new_table : (d : ℕ) → Table T (suc d) → ℕ → Table T d
  unfolding default
  get_or_new_table d t index = elim (t index) [ some u ↦ u | none ↦ default d ]

  -- `get`, from a table down.
  unfoldable pub get_from : (d : ℕ) → Table T d → ℕ → Option T
  unfolding get_value
  get_from zero t handle = get_value t (bit_and handle 0xff)
  get_from (suc d) t handle = elim (t (bit_and handle 0xff)) [
    | none ↦ none
    | some u ↦ get_from d u (rotate_left_8 handle)
  ]

  -- The rest of `remove` before the handle is freed; `none` where a table is missing.
  unfoldable pub take_from : (d : ℕ) → Table T d → ℕ → Option (Option T × Table T d)
  unfolding take_value
  take_from zero t handle = some (take_value t (bit_and handle 0xff))
  take_from (suc d) t handle = elim (t (bit_and handle 0xff)) [
    | none ↦ none
    | some u ↦
        Option.map (λ r. (r.0, write t (bit_and handle 0xff) (some r.1)))
          (take_from d u (rotate_left_8 handle))
  ]

  -- What the loop of `insert_self_referential` and the store after it leave.
  pub record Put (d : ℕ) : Type ℓ where
    pub handle : ℕ
    pub val : T
    pub old : Option T
    pub table : Table T d

  unfoldable pub put_from : (d : ℕ) → Table T d → ℕ → (ℕ → T) → Put d
  unfolding put_value get_or_new_table
  put_from zero t handle make_value =
      let val = make_value handle in
      let (old, table) = put_value t (bit_and handle 0xff) val in
      record { handle = handle; val = val; old = old; table = table }
  put_from (suc d) t handle make_value =
      let index = bit_and handle 0xff in
      let below = put_from d (get_or_new_table d t index) (rotate_left_8 handle) make_value in
      record {
        handle = below.handle;
        val = below.val;
        old = below.old;
        table = write t index (some below.table);
      }
