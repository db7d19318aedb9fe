-- ===== src/Process/Thread/Create.antt =====
-- What `Thread::new` does to the store of threads.
use endless_hole.Base.{
  ℕ, ◌+◌, ◌-◌, ◌%◌, ◌^◌, ◌≤◌, ◌<◌, arith, ◌≡◌, ◌≢◌, refl, sym, ap, ◌∙◌, true, Option, none, some,
  is_some, ==_refl, ==_of_ne,
}
use endless_hole.Process.Scheduler.{State, running, blocked}
use endless_hole.Process.Thread.{
  Thread, into_integer, from_integer, new_properties, state, make_thread, created, new,
}
use endless_hole.Collections.HandleMap.Map.{HandleMap, Inserted, exhausted, inserted, get}
use endless_hole.Collections.HandleMap.Laws.{span, IsValid}
use endless_hole.Collections.HandleMap.Insert.{Inserts, insert_self_referential-Inserts}
use native.Mathlib.Nat.{le_trans}

module _ (bit_range : (x msb lsb : ℕ) → ℕ) (set_bit_range : (x msb lsb value : ℕ) → ℕ)
    (bit_range-set_bit_range : (x msb lsb value : ℕ)
      → lsb ≤ msb
      → bit_range (set_bit_range x msb lsb value) msb lsb ≡ value % 2 ^ (msb + 1 - lsb))
    {P : Type 0} where
  state-make_thread :
      (initial : State) (p : P) (id : ℕ)
      → state bit_range set_bit_range (make_thread bit_range set_bit_range initial p id)
        ≡ some initial
  unfolding state make_thread new_properties into_integer from_integer
  state-make_thread running p id = rw (bit_range-set_bit_range 0 8 0 0 (omega arith)) refl
  state-make_thread blocked p id = rw (bit_range-set_bit_range 0 8 0 1 (omega arith)) refl

  -- What `Thread::new` promises of its result.
  abbrev pub Creates :
      HandleMap (Thread P) → State → P → Option (Thread P × HandleMap (Thread P)) → Type 0
  Creates store initial p none =
      (h : ℕ) → h < store.allocator.max_handle → is_some (get (Thread P) store h) ≡ true
  Creates store initial p (some (t, n)) =
      (t.id < store.allocator.max_handle)
      × (get (Thread P) store t.id ≡ none)
      × (get (Thread P) n t.id ≡ some t)
      × ((i : ℕ) → i < span store → i ≢ t.id → get (Thread P) n i ≡ get (Thread P) store i)
      × (state bit_range set_bit_range t ≡ some initial)
      × (t.processor_state ≡ p)
      × IsValid (Thread P) n

  Creates-Inserts :
      (store : HandleMap (Thread P)) (v : IsValid (Thread P) store) (initial : State) (p : P)
      (r : Inserted (Thread P))
      → Inserts (Thread P) store v (make_thread bit_range set_bit_range initial p) r
      → Creates store initial p (created bit_range set_bit_range r)
  Creates-Inserts store v initial p exhausted full = full
  Creates-Inserts store v initial p Inserted.panicked i = absurd i
  Creates-Inserts store v initial p (inserted h val n)
        (within, vacant, lower, made, entries, valid, same) =
      let lh : h < span store = le_trans within v.shape.room in
      let own : val.id ≡ h = ap (λ t. t.id) made ∙ unfold make_thread in refl in
      let entry : get (Thread P) n h ≡ some val = entries h lh ∙ rw (==_refl h) refl in
      let others : (i : ℕ) → i < span store → i ≢ h → get (Thread P) n i ≡ get (Thread P) store i =
        λ i li ne. entries i li ∙ rw (==_of_ne i h ne) refl in
      let state_is : state bit_range set_bit_range val ≡ some initial =
        ap (state bit_range set_bit_range) made ∙ state-make_thread initial p h in
      let processor : val.processor_state ≡ p =
        ap (λ t. t.processor_state) made ∙ unfold make_thread in refl in
      (
        rw own within,
        ap (get (Thread P) store) own ∙ vacant,
        ap (get (Thread P) n) own ∙ entry,
        λ i li ne. others i li (λ e. ne (e ∙ sym own)),
        state_is,
        processor,
        valid,
      )

  -- In a well formed store, `Thread::new` panics only if every thread id is taken. Else the thread that
  -- it returns has an id that was free, stands in the store under its own id, has the initial state
  -- and processor state, and no other thread of the store changes.
  pub new-Creates :
      (store : HandleMap (Thread P)) (initial : State) (p : P)
      → IsValid (Thread P) store
      → Creates store initial p (new bit_range set_bit_range store initial p)
  unfolding new
  new-Creates store initial p v = Creates-Inserts store v initial p _ (
      insert_self_referential-Inserts (Thread P) store v
        (make_thread bit_range set_bit_range initial p))
