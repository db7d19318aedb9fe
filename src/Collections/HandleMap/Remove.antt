-- ===== src/Collections/HandleMap/Remove.antt =====
-- `remove` and `get` against a finite map from handles to values.
use endless_hole.Base.{ℕ, ◌<◌, arith}
use endless_hole.Base.{◌≡◌, refl, sym, ap, ◌∙◌, false, not, ◌&&◌, inl, inr}
use endless_hole.Base.{
  Option, none, some, ltb, ◌==◌, if◌then◌else◌, Bool-cases, eq-none, eq_of_==, ltb_of_lt, ltb_of_le,
}
use endless_hole.Collections.HandleAllocator as Allocator
use endless_hole.Collections.HandleAllocator.{
  HandleAllocator, next_handle, Freed, ok, err, free_handle,
}
use endless_hole.Collections.HandleAllocator.Laws.{is_allocated, Frees, free_handle-Frees}
use endless_hole.Collections.HandleMap.Table.{Table, take_from}
use endless_hole.Collections.HandleMap.Map.{HandleMap, get, finish_remove, remove}
use endless_hole.Collections.HandleMap.Paths.{Takes, take_from-Takes}
use endless_hole.Collections.HandleMap.Laws.{span, first, IsValid, first-same, is_some-none}
use native.Mathlib.Nat.{mod-eq_of_lt}

module _ (T : Type 0) (m : HandleMap T) (v : IsValid T m) where
  -- The map with the entry at `h` taken out; the other entries are those of `m`.
  abbrev pub Without : ℕ → HandleMap T → Type 0
  Without h n = (i : ℕ) → i < span m → get T n i ≡ (if i == h then none else get T m i)

  -- What `remove` promises of its result.
  abbrev pub RemovesValue : ℕ → Option T → HandleMap T → Type 0
  RemovesValue h val n =
      Without h n
      × IsValid T n
      × (n.allocator.max_handle ≡ m.allocator.max_handle)
      × (val ≡ (if ltb h m.allocator.max_handle then get T m h else none))

  get-Takes :
      (h : ℕ) (val : Option T) (t : Table T m.lower_levels) (a : HandleAllocator)
      → h < span m
      → Takes T m.lower_levels m.table (first m h) (some (val, t))
      → Without h (record m { table = t; allocator = a }) × (val ≡ get T m h)
  unfolding get
  get-Takes h val t a lh (found, rest) = (
    λ i li. rest (first m i) ∙ rw (first-same T m v i h, mod-eq_of_lt li, mod-eq_of_lt lh),
    found,
  )

  -- A handle that the allocator does not know has no value, so its absence changes nothing.
  absent :
      (h : ℕ) (val : Option T) (t : Table T m.lower_levels)
      → h < span m
      → is_allocated m.allocator h ≡ false
      → Takes T m.lower_levels m.table (first m h) (some (val, t))
      → Without h (record m { table = t }) × IsValid T (record m { table = t }) × (none ≡ get T m h)
  absent h val t lh free taken =
      let (without, found) = get-Takes h val t m.allocator lh taken in
      (
        without,
        record {
          allocator = v.allocator;
          shape = v.shape;
          unused = v.unused;
          entries = λ i li.
              rw (without i li) (is_some-none (i == h) _ ∙ rw (v.entries i li) (not_here i));
        },
        sym (eq-none _ (v.entries h lh ∙ free)),
      )
    where
      not_here : (i : ℕ) → (not (i == h) && is_allocated m.allocator i) ≡ is_allocated m.allocator i
      not_here i = elim (Bool-cases (i == h)) [
        | inl e ↦ rw e (rw (eq_of_== i h e) (sym free))
        | inr e ↦ rw e
      ]

  remove-Frees :
      (h : ℕ) (val : Option T) (t : Table T m.lower_levels) (r : Freed)
      → h < span m
      → Takes T m.lower_levels m.table (first m h) (some (val, t))
      → Frees m.allocator h r
      → let (result, n) = finish_remove T (record m { table = t }) val r in RemovesValue h result n
  unfolding finish_remove
  remove-Frees h val t (ok b) lh taken (lt, one, removed, valid, same) =
      let (without, found) = get-Takes h val t b lh taken in
      (
        without,
        record {
          allocator = valid;
          shape = rw same v.shape;
          unused = λ i le. ground (arith, removed i, v.unused i);
          entries =
              λ i li. rw (without i li) (is_some-none (i == h) _ ∙ rw (v.entries i li, removed i));
        },
        same,
        rw (ltb_of_lt h m.allocator.max_handle lt) found,
      )
  remove-Frees h val t (err Allocator.out_of_bounds) lh taken le =
      let (without, valid, missing) = absent h val t lh (v.unused h le) taken in
      (without, valid, refl, rw (ltb_of_le h m.allocator.max_handle le))
  remove-Frees h val t (err Allocator.not_allocated) lh taken (lt, free) =
      let (without, valid, missing) = absent h val t lh free taken in
      (without, valid, refl, rw (ltb_of_lt h m.allocator.max_handle lt) missing)

  -- A table is missing on the way down.
  remove-missing : (h : ℕ) → get T m h ≡ none → RemovesValue h none m
  remove-missing h vacant = (
    λ i li. elim (Bool-cases (i == h)) [
      | inl e ↦ rw e (ap (get T m) (eq_of_== i h e) ∙ vacant)
      | inr e ↦ rw e
    ],
    v,
    refl,
    elim (Bool-cases (ltb h m.allocator.max_handle)) [ inl e ↦ rw e (sym vacant) | inr e ↦ rw e ],
  )

  -- `remove` of a handle that has a path of its own returns the value at the handle, if the handle is
  -- below the limit and has one, and takes it out; no other entry changes, and the map stays well
  -- formed.
  pub remove-RemovesValue : (h : ℕ) → h < span m → RemovesValue h (remove T m h).0 (remove T m h).1
  unfolding remove
  remove-RemovesValue h lh =
      go (take_from T m.lower_levels m.table (first m h))
        (take_from-Takes T m.lower_levels m.table (first m h))
    where
      go :
          (r : Option (Option T × Table T m.lower_levels))
          → Takes T m.lower_levels m.table (first m h) r
          → let (result, n) =
              let x : Option T × HandleMap T = elim r [
                | none ↦ (none, m)
                | some (val, table) ↦
                    finish_remove T (record m { table = table }) val (free_handle m.allocator h)
              ] in
              x in
            RemovesValue h result n
      go none missing = remove-missing h (unfold get in missing)
      go (some (val, t)) taken =
          remove-Frees h val t (free_handle m.allocator h) lh taken
            (free_handle-Frees m.allocator h v.allocator)
