-- ===== src/Memory/Buddy/Reuse.antt =====
-- What `allocate` returned is given back by `free`.
use endless_hole.Base.{
  ℕ, zero, suc, ◌+◌, ◌^◌, ◌≤◌, ◌<◌, arith, ◌≡◌, ◌≢◌, refl, sym, ap₂, ◌∙◌, some, List, ◌⊎◌, true,
  false, [], ◌∷◌,
}
use endless_hole.Memory.Addresses.{kernel_tag}
use endless_hole.Memory.Addresses.Physical
use endless_hole.Memory.Addresses.Translate.{tag-add}
use endless_hole.Memory.Buddy.{Allocator, PhysicalAddress, order_of, buddy_of, allocate, free}
use endless_hole.Memory.Buddy.{
  out_of_memory, invalid_size, unknown_ptr, Outcome, ok, err, panic, out_of_fuel,
}
use endless_hole.Memory.Buddy.Walks.{occurs}
use endless_hole.Memory.Buddy.Pool.{inside, inside_self, block_len, total, Chain}
use endless_hole.Memory.Buddy.Links.{Same, HasLists, free_at, IsValid, block_len-pos}
use endless_hole.Memory.Buddy.Allocate.{
  Same-trans, Allocates, allocate-Allocates, Rounds, order_of-Rounds,
}
use endless_hole.Memory.Buddy.Free.{IsEnough, Frees}
use endless_hole.Memory.Buddy.Returns.{IsCall, free-Frees}

-- The headers in memory hold one list.
Chain-unique :
    (next : ℕ → ℕ) (head : ℕ) (xs ys : List ℕ) → Chain next head xs → Chain next head ys → xs ≡ ys
Chain-unique next head [] [] c d = refl
Chain-unique next head [] (y ∷ ys) c (e, ne, d) = absurd (ne (sym e ∙ c))
Chain-unique next head (x ∷ xs) [] (e, ne, c) d = absurd (ne (sym e ∙ d))
Chain-unique next head (x ∷ xs) (y ∷ ys) (e, ne, c) (f, ne', d) =
    let same : x ≡ y = sym e ∙ f in
    let rest : xs ≡ ys = Chain-unique next (next x) xs ys c (rw same d) in
    ap₂ (λ z zs. z ∷ zs) same rest

total_unique :
    (page_size n : ℕ) (lists left : ℕ → List ℕ) (a : ℕ)
    → ((k : ℕ) → k < n → lists k ≡ left k)
    → total page_size n lists a ≡ total page_size n left a
unfolding total
total_unique page_size zero lists left a same = refl
total_unique page_size (suc n) lists left a same =
    let here : lists n ≡ left n = same n (omega arith) in
    let rest = total_unique page_size n lists left a (λ k lt. same k (omega arith)) in
    rw (here, rest) refl

free_at_unique :
    (t : Allocator) (lists left : ℕ → List ℕ)
    → HasLists t lists
    → HasLists t left
    → (a : ℕ) → free_at t lists a ≡ free_at t left a
free_at_unique t lists left h h' a =
    total_unique t.page_size t.max_order lists left a
      λ k lt. Chain-unique t.next_block (t.free_blocks k) (lists k) (left k) (h k lt) (h' k lt)

-- The free blocks lie between the bounds of the allocator, and these in the kernel space.
pub record IsKernelMemory (s : Allocator) (lists : ℕ → List ℕ) : Type 0 where
  pub tagged : kernel_tag ≤ s.base_addr
  pub word : s.end_addr ≤ 2 ^ 64
  pub within : (a : ℕ) → free_at s lists a ≢ 0 → (s.base_addr ≤ a) × (a < s.end_addr)

least_order :
    (n k order : ℕ)
    → Rounds n 64 (some k)
    → n ≤ 2 ^ order
    → ((j : ℕ) → j < order → 2 ^ j < n)
    → order ≡ k
least_order n k order (fits, least) fits' least' = ground (arith, least order, least' k)

module _ (s t : Allocator) (lists left : ℕ → List ℕ) (v : IsValid s lists) (v' : IsValid t left)
    (kernel : IsKernelMemory s lists) (n k : ℕ) (pages : PhysicalAddress)
    (order : order_of n ≡ some k) where
  Allocates-IsCall :
      n ≢ 0
      → Allocates s lists n (ok (pages, t))
      → IsCall t left v' (Physical.into_raw pages) n k
        × Same s t
        × ((a : ℕ)
            → free_at s lists a
              ≡ inside (block_len s.page_size k) (Physical.into_raw pages) a + free_at s left a)
  unfolding Physical.into_raw
  Allocates-IsCall some_pages (order', b, kept, address, fits, least, aligned, same, valid, count) =
      let rounds : Rounds n 64 (some k) = rw order at (order_of-Rounds n) in
      let at_k : order' ≡ k = least_order n k order' rounds fits least in
      let size : ℕ = block_len s.page_size k in
      let positive : 0 < size = block_len-pos s.page_size k v.positive in
      let counts : (a : ℕ) → free_at s lists a ≡ inside size b a + free_at s left a = λ a.
        let lists_left : free_at s kept a ≡ free_at s left a =
          rw (same.2, same.3) at (free_at_unique t kept left valid.chains v'.chains a) in
        let before : free_at s lists a ≡ inside size b a + free_at s kept a =
          rw at_k at (count a) in
        omega (arith, before, lists_left) in
      let (low, high) =
        kernel.within b (λ e. absurd (omega (arith, e, counts b, inside_self size b positive))) in
      let back : Physical.into_raw pages ≡ b =
        tag-add pages.address (omega (arith, address))
        ∙ omega (arith, address, low, high, kernel.tagged, kernel.word) in
      rw back (
        record {
          low = rw same.0 low;
          high = rw same.1 high;
          pages = some_pages;
          order = order;
          detached = (
            omega (arith, low, kernel.tagged),
            rw same.2 aligned,
            λ a. rw (same.2, same.3) (omega (arith, counts a, v.apart a)),
          );
        },
        same,
        counts,
      )

-- The free addresses are those of before the allocation, unless the upper half of a pair was merged.
abbrev pub Restores :
    (s t : Allocator) (lists left : ℕ → List ℕ) (k b : ℕ) → Outcome Allocator → Type 0
Restores s t lists left k b (ok u) =
    (back : ℕ → List ℕ) × Same s u
    × HasLists u back
    × ((occurs (buddy_of t b k) (left k) ≡ false) ⊎ (b + block_len t.page_size k ≡ buddy_of t b k)
        → IsValid u back × ((a : ℕ) → free_at s back a ≡ free_at s lists a))
Restores s t lists left k b (err unknown_ptr) =
    (occurs (buddy_of t b k) (left k) ≡ false) × (occurs (buddy_of t b k) (left (k + 1)) ≡ true)
Restores s t lists left k b (err _) = ⊥
Restores s t lists left k b panic = ⊥
Restores s t lists left k b out_of_fuel = ⊥

Frees-Restores :
    (s t : Allocator) (lists left : ℕ → List ℕ) (k b : ℕ)
    → Same s t
    → ((a : ℕ) → free_at s lists a ≡ inside (block_len s.page_size k) b a + free_at s left a)
    → (r : Outcome Allocator) → Frees t left k b r
    → Restores s t lists left k b r
Frees-Restores s t lists left k b same counts (ok u) (back, same', chains, kept, merged) = (
  back,
  Same-trans s t u same same',
  chains,
  λ c.
      let (valid, count) = kept c in
      (valid, λ a. omega (arith, counts a, rw (same.2, same.3) at (count a))),
)
Frees-Restores s t lists left k b same counts (err unknown_ptr) p = p
Frees-Restores s t lists left k b same counts (err out_of_memory) p = p
Frees-Restores s t lists left k b same counts (err invalid_size) p = p
Frees-Restores s t lists left k b same counts panic p = p
Frees-Restores s t lists left k b same counts out_of_fuel p = p

-- For an allocator that is well formed, whose bounds lie in the kernel space and the free blocks
-- between them: when `allocate` returned pages of an order below the largest, and the allocator that
-- it left is given them back, under fuel above the lengths of its free lists, then `free` returns
-- normally or refuses the pages as unknown, the latter only if the buddy does not stand in the list of
-- its order and stands in the list of the next order. If no merge takes place, or the pages are the
-- lower half of the merged pair, then each address lies in as many free blocks as before the
-- allocation, and the free lists are well formed.
pub free-allocate :
    (s t : Allocator) (lists left : ℕ → List ℕ) (fuel n k : ℕ) (pages : PhysicalAddress)
    → IsValid s lists
    → IsKernelMemory s lists
    → IsValid t left
    → IsEnough fuel t left
    → order_of n ≡ some k
    → k + 1 < t.max_order
    → allocate s n ≡ ok (pages, t)
    → Restores s t lists left k (Physical.into_raw pages) (free fuel t pages n)
unfolding allocate
free-allocate s t lists left fuel n k pages v kernel v' enough order above given =
    let some_pages : n ≢ 0 = λ e. let bad = rw e at given in cc in
    let (call, same, counts) =
      Allocates-IsCall s t lists left v v' kernel n k pages order some_pages
        (rw given at (allocate-Allocates s lists n v)) in
    Frees-Restores s t lists left k _ same counts _
      (free-Frees t left v' fuel pages n k enough above call)
