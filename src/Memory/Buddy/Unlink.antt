-- ===== src/Memory/Buddy/Unlink.antt =====
-- What `try_remove_buddy` does to the free lists.
use endless_hole.Base.{ℕ, zero, suc, ◌+◌, ◌%◌, ◌≤◌, ◌<◌, arith, ◌≡◌, ◌≢◌, refl}
use endless_hole.Base.{true, false, none, List, [], ◌∷◌, ◌==◌, write, All, length}
use endless_hole.Base.{Bool-cases, inl, inr, eq_of_==, ==_of_ne}
use endless_hole.Memory.Buddy.{
  Allocator, Removal, no_fuel, not_found, removed, remove_from, try_remove_buddy,
}
use endless_hole.Memory.Buddy.Pool.{
  inside, covers, block_len, total, Chain, Chain-write, covers-le-total, total-write,
}
use endless_hole.Memory.Buddy.Links.{Same, free_at, IsValid, block_len-pos, at_write, at_writes}
use endless_hole.Memory.Buddy.Walks.{
  occurs, erase, covers-erase, All-erase, RemovesAfter, remove_from-RemovesAfter,
}

-- What `try_remove_buddy` promises of its result.
abbrev pub Removes : Allocator → (ℕ → List ℕ) → (k y : ℕ) → Removal → Type 0
Removes s lists k y no_fuel = ⊥
Removes s lists k y not_found = occurs y (lists k) ≡ false
Removes s lists k y (removed t) =
    let left : ℕ → List ℕ = write lists k (erase y (lists k)) in
    (occurs y (lists k) ≡ true)
    × Same s t
    × IsValid t left
    × ((a : ℕ) → free_at s lists a ≡ inside (block_len s.page_size k) y a + free_at s left a)

module _ (s : Allocator) (lists : ℕ → List ℕ) (v : IsValid s lists) (k y : ℕ)
    (h : k < s.max_order) where
  abbrev size : ℕ
  size = block_len s.page_size k

  abbrev left : ℕ → List ℕ
  left = write lists k (erase y (lists k))

  free_at-left :
      (a : ℕ) → occurs y (lists k) ≡ true → free_at s lists a ≡ inside size y a + free_at s left a
  free_at-left a present = omega (
    arith,
    total-write s.page_size s.max_order k lists (erase y (lists k)) a h,
    covers-erase size y (lists k) a present,
  )

  -- What an address of the list of order `k` lies in, is in no other list.
  covers_other :
      (j q : ℕ)
      → j < s.max_order
      → (j == k) ≡ false
      → covers size (lists k) q ≡ 1
      → covers (block_len s.page_size j) (lists j) q ≡ 0
  unfolding covers
  covers_other j q lt ne one =
      let below : covers (block_len s.page_size j) (write lists k [] j) q
          ≤ total s.page_size s.max_order (write lists k []) q =
        covers-le-total s.page_size s.max_order j (write lists k []) q lt in
      let below' : covers (block_len s.page_size j) (lists j) q
          ≤ total s.page_size s.max_order (write lists k []) q =
        rw ne at below in
      omega (arith, total-write s.page_size s.max_order k lists [] q h, v.apart q)

  -- The free lists stay well formed when the headers of order `k` hold the list without `y`.
  erase-IsValid :
      (t : Allocator)
      → Same s t
      → occurs y (lists k) ≡ true
      → ((j : ℕ) → j < s.max_order → Chain t.next_block (t.free_blocks j) (left j))
      → IsValid t left
  erase-IsValid t (e, f, p, m) present chains = record {
    positive = rw p v.positive;
    orders = rw m v.orders;
    chains = λ j lt. chains j (rw m at lt);
    aligned = λ j lt. rw p (
        at_write (λ i xs. All (λ x. x % s.page_size ≡ 0) xs) lists k (erase y (lists k)) j
          (All-erase (λ x. x % s.page_size ≡ 0) y (lists k) (v.aligned k h))
          (v.aligned j (rw m at lt)));
    apart = λ a. rw (p, m) (omega (arith, free_at-left a present, v.apart a));
  }

  -- A header that was passed is changed.
  inner-Removes :
      (x : ℕ) (xs : List ℕ) (q val : ℕ)
      → lists k ≡ x ∷ xs
      → (x == y) ≡ false
      → s.free_blocks k ≡ x
      → x ≢ 0
      → covers size (x ∷ xs) q ≡ 1
      → occurs y xs ≡ true
      → Chain (write s.next_block q val) (write s.next_block q val x) (erase y xs)
      → Removes s lists k y (removed (record s { next_block = write s.next_block q val }))
  unfolding occurs erase
  inner-Removes x xs q val e ne head pos one present chain =
      let present' : occurs y (lists k) ≡ true = rw (e, ne) present in
      (
        present',
        (refl, refl, refl, refl),
        erase-IsValid _ (refl, refl, refl, refl) present'
            (λ j lt. elim (Bool-cases (j == k)) [
              | inl same ↦
                  let here = eq_of_== j k same in rw (same, here, head, e, ne) (refl, pos, chain)
              | inr other ↦ rw other (
                  Chain-write (block_len s.page_size j) s.next_block (s.free_blocks j) (lists j) q
                    val (block_len-pos s.page_size j v.positive)
                    (covers_other j q lt other (rw e one)) (v.chains j lt))
            ]),
        λ a. free_at-left a present',
      )

  Removes-RemovesAfter :
      (x : ℕ) (xs : List ℕ) (r : Removal)
      → lists k ≡ x ∷ xs
      → (x == y) ≡ false
      → s.free_blocks k ≡ x
      → x ≢ 0
      → RemovesAfter s size y x xs r
      → Removes s lists k y r
  unfolding occurs
  Removes-RemovesAfter x xs no_fuel e ne head pos p = p
  Removes-RemovesAfter x xs not_found e ne head pos p = rw (e, ne) p
  Removes-RemovesAfter x xs (removed t) e ne head pos (q, val, t_is, present, one, chain) =
      rw t_is (inner-Removes x xs q val e ne head pos one present chain)

  remove_from-Removes :
      (fuel : ℕ) (xs : List ℕ)
      → lists k ≡ xs
      → length xs < fuel
      → Removes s lists k y (remove_from fuel s k y none (s.free_blocks k))
  unfolding remove_from occurs erase
  remove_from-Removes zero xs e lt = absurd (omega arith)
  remove_from-Removes (suc fuel) [] e lt =
      let chain : Chain s.next_block (s.free_blocks k) [] = rw e at (v.chains k h) in
      rw chain (rw e refl)
  remove_from-Removes (suc fuel) (x ∷ xs) e lt =
      let chain : Chain s.next_block (s.free_blocks k) (x ∷ xs) = rw e at (v.chains k h) in
      elim (Bool-cases (x == y)) [
        | inl g ↦
            let present : occurs y (lists k) ≡ true = rw (e, g) refl in
            rw (chain.0, ==_of_ne x 0 chain.1, g)
              (
                present,
                (refl, refl, refl, refl),
                erase-IsValid _ (refl, refl, refl, refl) present
                    (λ j lt.
                      at_writes (Chain s.next_block) s.free_blocks lists k (s.next_block x)
                        (erase y (lists k)) j (rw (e, g) chain.2) (v.chains j lt)),
                λ a. free_at-left a present,
              )
        | inr g ↦
            let once : (a : ℕ) → covers size (x ∷ xs) a ≤ 1 = λ a.
              omega
                (arith, rw e at (covers-le-total s.page_size s.max_order k lists a h), v.apart a) in
            rw (chain.0, ==_of_ne x 0 chain.1, g)
              (Removes-RemovesAfter x xs _ e g chain.0 chain.1 (
                remove_from-RemovesAfter fuel s k size y x (s.next_block x) xs
                  (block_len-pos s.page_size k v.positive) refl chain.2 once (omega arith)))
      ]

  -- With more fuel than the free list has blocks, the search ends. It finds the block if and only if
  -- it is in the list, and takes it out.
  pub try_remove_buddy-Removes :
      (fuel : ℕ) → length (lists k) < fuel → Removes s lists k y (try_remove_buddy fuel s k y)
  unfolding try_remove_buddy
  try_remove_buddy-Removes fuel lt = remove_from-Removes fuel (lists k) refl lt
