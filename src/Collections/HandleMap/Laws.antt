-- ===== src/Collections/HandleMap/Laws.antt =====
-- `HandleMap` against a finite map from handles to values.
use endless_hole.Base.{ℕ, suc, ◌%◌, ◌^◌, ◌≤◌, ◌<◌}
use endless_hole.Base.{◌≡◌, refl, ◌∙◌, Bool, true, false, not, ◌&&◌, ◌||◌}
use endless_hole.Base.{Option, none, some, ◌==◌, if◌then◌else◌, is_some}
use endless_hole.Collections.HandleAllocator as Allocator
use endless_hole.Collections.HandleAllocator.{
  HandleAllocator, div_ceil, next_handle, Freed, ok, err, free_handle,
}
use endless_hole.Collections.HandleAllocator.Laws as Handles
use endless_hole.Collections.HandleAllocator.Laws.{
  is_allocated, Allocates, next_handle-Allocates, Frees, free_handle-Frees,
}
use endless_hole.Collections.HandleMap.Map as Map
use endless_hole.Collections.HandleMap.Map.{
  HandleMap, first_index, extra_bits, Inserted, exhausted, panicked, inserted, get,
  insert_self_referential, finish_remove, remove,
}
use endless_hole.Collections.HandleMap.Paths.{rotated, same_path, get_from-default}
use endless_hole.Collections.HandleMap.Bytes.{rotated_first, same_path_first}
use endless_hole.Collections.HandleMap.Shape.{IsShape, depth-suc, new-IsShape}
use native.Mathlib.Nat.{mod-eq_of_lt}

pub is_some-some :
    {T : Type 0} (c : Bool) (val : T) (o : Option T)
    → is_some (if c then some val else o) ≡ (c || is_some o)
is_some-some true val o = refl
is_some-some false val o = refl

pub is_some-none :
    {T : Type 0} (c : Bool) (o : Option T) → is_some (if c then none else o) ≡ (not c && is_some o)
is_some-none true o = refl
is_some-none false o = refl

-- The handles below this number have paths of their own.
abbrev pub span {ℓ} : {T : Type ℓ} → HandleMap T → ℕ
span m = 256 ^ suc m.lower_levels

-- Where the walk of a handle starts.
abbrev pub first {ℓ} : {T : Type ℓ} → HandleMap T → ℕ → ℕ
first m h = first_index m.handle_zeros_prefix_bit_length h

module _ (T : Type 0) where
  -- A handle is taken exactly if there is a value at it.
  pub record IsValid (m : HandleMap T) : Type 0 where
    pub allocator : Handles.IsValid m.allocator
    pub shape : IsShape m.allocator.max_handle m.handle_zeros_prefix_bit_length m.lower_levels
    pub unused : (h : ℕ) → m.allocator.max_handle ≤ h → is_allocated m.allocator h ≡ false
    pub entries : (h : ℕ) → h < span m → is_some (get T m h) ≡ is_allocated m.allocator h

  -- A map that is well formed and has no values
  abbrev pub IsEmpty : Option (HandleMap T) → Type 0
  IsEmpty none = ⊥
  IsEmpty (some m) = IsValid m × ((h : ℕ) → get T m h ≡ none)

  -- The map that there is
  abbrev pub the_map : (o : Option (HandleMap T)) → IsEmpty o → HandleMap T
  the_map none h = absurd h
  the_map (some m) h = m

  pub the_map-IsValid : (o : Option (HandleMap T)) (h : IsEmpty o) → IsValid (the_map o h)
  the_map-IsValid none h = absurd h
  the_map-IsValid (some m) h = h.0

  of_depth-IsEmpty :
      (max_handle lower_levels : ℕ)
      → max_handle < 2 ^ 32
      → IsShape max_handle (extra_bits max_handle) lower_levels
      → IsEmpty (Map.of_depth T max_handle (suc lower_levels))
  unfolding Map.of_depth get
  of_depth-IsEmpty max_handle lower_levels h shape =
      let (valid, none_taken) = Handles.new-IsValid max_handle h in
      (
        record {
          allocator = valid;
          shape = unfold Allocator.new in shape;
          unused = λ x le. none_taken x;
          entries = λ x lt. rw (get_from-default T _ _, none_taken x) refl;
        },
        λ x. get_from-default T _ _,
      )

  -- For a number of handles that is above 0 and a `u32`: a new map has a level, is well formed, and has
  -- no value at any handle.
  pub new-IsEmpty :
      (max_handle : ℕ) → 0 < max_handle → max_handle < 2 ^ 32 → IsEmpty (Map.new T max_handle)
  unfolding Map.new
  new-IsEmpty max_handle p h =
      rw (depth-suc max_handle p h) (of_depth-IsEmpty max_handle _ h (new-IsShape max_handle p h))

  module _ (m : HandleMap T) (v : IsValid m) where
    pub first-same :
        (x y : ℕ) → same_path m.lower_levels (first m x) (first m y) ≡ (x % span m == y % span m)
    first-same x y = rw v.shape.prefix (same_path_first m.lower_levels x y v.shape.levels)

    pub first-rotated : (h : ℕ) → h < span m → rotated m.lower_levels (first m h) ≡ h
    first-rotated h lt =
        rw v.shape.prefix (rotated_first m.lower_levels h v.shape.levels ∙ mod-eq_of_lt lt)
