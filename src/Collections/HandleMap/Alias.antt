-- ===== src/Collections/HandleMap/Alias.antt =====
-- What `get` and `remove` do with a handle that is too large for the paths of the map.
use endless_hole.Base.{ℕ, suc, ◌%◌, ◌≤◌, ◌<◌, arith}
use endless_hole.Base.{◌≡◌, refl, sym, ap, ◌∙◌, true, false, inl, inr}
use endless_hole.Base.{
  Option, none, some, ◌==◌, if◌then◌else◌, Bool-cases, is_some, eq_of_==, ==_refl,
}
use endless_hole.Collections.HandleAllocator as Allocator
use endless_hole.Collections.HandleAllocator.{
  HandleAllocator, next_handle, Freed, ok, err, free_handle,
}
use endless_hole.Collections.HandleAllocator.Laws.{is_allocated, Frees, free_handle-Frees}
use endless_hole.Collections.HandleMap.Table.{Table, take_from}
use endless_hole.Collections.HandleMap.Map.{HandleMap, get, finish_remove, remove}
use endless_hole.Collections.HandleMap.Paths.{Takes, take_from-Takes}
use endless_hole.Collections.HandleMap.Laws.{span, first, IsValid, first-same}
use native.Mathlib.Nat.{mod-eq_of_lt, le_trans}
use endless_hole.Collections.HandleMap.Bytes.{first_index-mod}
use native.Mathlib.Nat.{mod-lt, mod-mod, one-le-pow}

module _ (T : Type 0) (m : HandleMap T) (v : IsValid T m) where
  first-mod : (h : ℕ) → first m (h % span m) ≡ first m h
  first-mod h = rw v.shape.prefix (first_index-mod m.lower_levels h v.shape.levels)

  -- `get` of a handle that no insertion can have returned reads the entry of the handle that has the
  -- same low bytes.
  pub get-mod : (h : ℕ) → get T m h ≡ get T m (h % span m)
  unfolding get
  get-mod h = rw (first-mod h)

  abbrev Damages : ℕ → Option T × HandleMap T → Type 0
  Damages k (result, n) =
      (result ≡ none)
      × (n.allocator ≡ m.allocator)
      × (span n ≡ span m)
      × ((i : ℕ) → i < span m → get T n i ≡ (if i == k then none else get T m i))

  remove-Damages :
      (h : ℕ) (o : Option (Option T × Table T m.lower_levels)) (r : Freed)
      → m.allocator.max_handle ≤ h
      → Takes T m.lower_levels m.table (first m (h % span m)) o
      → Frees m.allocator h r
      → Damages (h % span m) (elim o [
        | none ↦ (none, m)
        | some (val, table) ↦ finish_remove T (record m { table = table }) val r
      ])
  unfolding finish_remove get
  remove-Damages h o (ok b) le t f = absurd (omega (arith, f.0))
  remove-Damages h o (err Allocator.not_allocated) le t f = absurd (omega (arith, f.0))
  remove-Damages h none (err Allocator.out_of_bounds) le t f = (
    refl,
    refl,
    refl,
    λ i li. elim (Bool-cases (i == h % span m)) [
      | inl e ↦ rw e (ap (get T m) (eq_of_== i (h % span m) e) ∙ t)
      | inr e ↦ rw e
    ],
  )
  remove-Damages h (some (val, table)) (err Allocator.out_of_bounds) le t f = (
    refl,
    refl,
    refl,
    λ i li.
        t.1 (first m i) ∙ rw (first-same T m v i (h % span m), mod-eq_of_lt li, mod-mod h (span m)),
  )

  remove-free : (h : ℕ) → m.allocator.max_handle ≤ h → Damages (h % span m) (remove T m h)
  unfolding remove
  remove-free h le =
      remove-Damages h (take_from T m.lower_levels m.table (first m h)) (free_handle m.allocator h)
        le (rw (first-mod h) (take_from-Takes T m.lower_levels m.table (first m h)))
        (free_handle-Frees m.allocator h v.allocator)

  -- `remove` of a handle that is too large for the paths of the map takes out the value of the handle
  -- with the same low bytes, and returns `none`; the allocator keeps that handle taken, so the map is
  -- no longer well formed.
  pub remove-not-IsValid :
      (h : ℕ) (val : T)
      → span m ≤ h
      → get T m (h % span m) ≡ some val
      → ((remove T m h).0 ≡ none)
        × (get T (remove T m h).1 (h % span m) ≡ none)
        × ((remove T m h).1.allocator ≡ m.allocator)
        × (¬ IsValid T (remove T m h).1)
  remove-not-IsValid h val le found =
      let k = h % span m in
      let lk : k < span m = mod-lt h (one-le-pow (suc m.lower_levels) 256 (omega arith)) in
      let (nothing, same, width, entries) = remove-free h (le_trans v.shape.room le) in
      let gone : get T (remove T m h).1 k ≡ none = entries k lk ∙ rw (==_refl k) in
      let taken : is_allocated m.allocator k ≡ true = sym (v.entries k lk) ∙ ap is_some found in
      (
        nothing,
        gone,
        same,
        λ valid.
            let e : is_some (get T (remove T m h).1 k) ≡ is_allocated (remove T m h).1.allocator k =
              valid.entries k (rw width lk) in
            let f : false ≡ true =
              sym (ap is_some gone) ∙ e ∙ ap (λ a. is_allocated a k) same ∙ taken in
            cc,
      )
