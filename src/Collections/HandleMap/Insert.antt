-- ===== src/Collections/HandleMap/Insert.antt =====
-- `insert_self_referential` against a finite map from handles to values.
use endless_hole.Base.{ℕ, ◌<◌, arith}
use endless_hole.Base.{◌≡◌, refl, sym, ap, ◌∙◌, true}
use endless_hole.Base.{Option, none, some, ◌==◌, if◌then◌else◌, is_some, eq-none}
use endless_hole.Collections.HandleAllocator.{HandleAllocator}
use endless_hole.Collections.HandleAllocator.Laws.{Allocates, next_handle-Allocates}
use endless_hole.Collections.HandleMap.Table.{put_from}
use endless_hole.Collections.HandleMap.Map.{
  Insertion, refused, accepted, insert, finish_insert, HandleMap, Inserted, exhausted, panicked,
  inserted, get, insert_self_referential,
}
use endless_hole.Collections.HandleMap.Paths.{put_from-fields, get_from-put_from}
use endless_hole.Collections.HandleMap.Laws.{
  span, first, IsValid, first-same, first-rotated, is_some-some,
}
use native.Mathlib.Nat.{mod-eq_of_lt, le_trans}

module _ (T : Type 0) (m : HandleMap T) (v : IsValid T m) where
  -- What `insert_self_referential` promises of its result.
  abbrev pub Inserts : (ℕ → T) → Inserted T → Type 0
  Inserts make exhausted = (h : ℕ) → h < m.allocator.max_handle → is_some (get T m h) ≡ true
  Inserts make panicked = ⊥
  Inserts make (inserted h val n) =
      (h < m.allocator.max_handle)
      × (get T m h ≡ none)
      × ((i : ℕ) → i < h → is_some (get T m i) ≡ true)
      × (val ≡ make h)
      × ((i : ℕ) → i < span m → get T n i ≡ (if i == h then some val else get T m i))
      × IsValid T n
      × (n.allocator.max_handle ≡ m.allocator.max_handle)

  -- The map after a store at a handle.
  abbrev stored : (ℕ → T) → ℕ → HandleAllocator → HandleMap T
  stored make h allocator = record m {
    allocator = allocator;
    table = (put_from T m.lower_levels m.table (first m h) make).table;
  }

  get-stored :
      (make : ℕ → T) (h : ℕ) (allocator : HandleAllocator) (i : ℕ)
      → h < span m
      → i < span m
      → get T (stored make h allocator) i ≡ (if i == h then some (make h) else get T m i)
  unfolding get
  get-stored make h allocator i lh li =
      get_from-put_from T m.lower_levels m.table (first m h) (first m i) make
      ∙ rw (
        first-same T m v i h,
        mod-eq_of_lt li,
        mod-eq_of_lt lh,
        (put_from-fields T m.lower_levels m.table (first m h) make).1,
        first-rotated T m v h lh,
      )

  Inserts-Allocates :
      (make : ℕ → T) (r : Option (ℕ × HandleAllocator))
      → Allocates m.allocator r
      → Inserts make (elim r [
        | none ↦ exhausted
        | some (h, allocator) ↦
            let put = put_from T m.lower_levels m.table (first m h) make in
            elim (put.old) [
              | some _ ↦ panicked
              | none ↦
                  inserted put.handle put.val
                    (record m { allocator = allocator; table = put.table })
            ]
      ])
  Inserts-Allocates make none full = λ h lt. v.entries h (le_trans lt v.shape.room) ∙ full h lt
  Inserts-Allocates make (some (h, b)) (within, free, lower, insertion, valid, same) =
      let lh = le_trans within v.shape.room in
      let put = put_from T m.lower_levels m.table (first m h) make in
      let (handle, val, old) = put_from-fields T m.lower_levels m.table (first m h) make in
      let vacant : get T m h ≡ none = eq-none _ (v.entries h lh ∙ free) in
      let empty : put.old ≡ none = old ∙ unfold get in vacant in
      let returned : put.handle ≡ h = handle ∙ first-rotated T m v h lh in
      let made : put.val ≡ make h = val ∙ ap make (first-rotated T m v h lh) in
      rw (empty, returned, made)
        (
          within,
          vacant,
          λ i lt. v.entries i (omega (arith, lh)) ∙ lower i lt,
          refl,
          λ i li. get-stored make h b i lh li,
          record {
            allocator = valid;
            shape = rw same v.shape;
            unused = λ i le. ground (arith, insertion i, v.unused i);
            entries = λ i li.
                rw (get-stored make h b i lh li)
                  (is_some-some (i == h) _ _ ∙ rw (v.entries i li, insertion i));
          },
          same,
        )

  -- An insertion fails only if every handle has a value. Else it stores the value that was made for
  -- the lowest free handle at that handle, returns both, changes no other entry, and leaves the map
  -- well formed; it never finds the place occupied.
  pub insert_self_referential-Inserts :
      (make : ℕ → T) → Inserts make (insert_self_referential T m make)
  unfolding insert_self_referential
  insert_self_referential-Inserts make =
      Inserts-Allocates make _ (next_handle-Allocates m.allocator v.allocator)

  -- What `insert` promises of its result.
  abbrev pub InsertsValue : T → Insertion T → Type 0
  InsertsValue val Insertion.panicked = ⊥
  InsertsValue val (refused back) =
      (back ≡ val) × ((h : ℕ) → h < m.allocator.max_handle → is_some (get T m h) ≡ true)
  InsertsValue val (accepted h n) =
      (h < m.allocator.max_handle)
      × (get T m h ≡ none)
      × ((i : ℕ) → i < span m → get T n i ≡ (if i == h then some val else get T m i))
      × IsValid T n

  InsertsValue-Inserts :
      (val : T) (r : Inserted T) → Inserts (λ _. val) r → InsertsValue val (finish_insert T val r)
  unfolding finish_insert
  InsertsValue-Inserts val exhausted full = (refl, full)
  InsertsValue-Inserts val Inserted.panicked full = absurd full
  InsertsValue-Inserts val (inserted h made n) (within, vacant, lower, e, entries, valid, same) =
      (within, vacant, λ i li. rw (sym e) (entries i li), valid)

  -- `insert` hands the value back only if every handle has a value. Else it stores the value at a
  -- handle below the limit that had none, changes no other entry, and leaves the map well formed; it
  -- does not panic.
  pub insert-InsertsValue : (val : T) → InsertsValue val (insert T m val)
  unfolding insert
  insert-InsertsValue val = InsertsValue-Inserts val _ (insert_self_referential-Inserts (λ _. val))
