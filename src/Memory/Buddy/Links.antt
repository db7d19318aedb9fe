-- ===== src/Memory/Buddy/Links.antt =====
-- `push_free` and `pop_free` against the free lists as lists of blocks.
use endless_hole.Base.{ℕ, ◌+◌, ◌%◌, ◌≤◌, ◌<◌, arith, ◌≡◌, ◌≢◌, refl}
use endless_hole.Base.{Option, none, some, List, [], ◌∷◌, ◌==◌, write, All}
use endless_hole.Base.{Bool-cases, inl, inr, eq_of_==, ==_refl, ==_of_ne}
use endless_hole.Memory.Buddy.{Allocator, pop_free, push_free, link}
use endless_hole.Memory.Buddy.Pool.{
  inside, covers, block_len, total, Chain, Chain-write, covers-le-total, total-write,
}
use native.Mathlib.Nat.{one-le-pow}

-- What no operation changes.
abbrev pub Same : Allocator → Allocator → Type 0
Same s t =
    (t.base_addr ≡ s.base_addr)
    × (t.end_addr ≡ s.end_addr)
    × (t.page_size ≡ s.page_size)
    × (t.max_order ≡ s.max_order)

-- How many free blocks an address lies in.
abbrev pub free_at : Allocator → (ℕ → List ℕ) → ℕ → ℕ
free_at s lists a = total s.page_size s.max_order lists a

-- The headers hold these lists of blocks.
abbrev pub HasLists : Allocator → (ℕ → List ℕ) → Type 0
HasLists s lists = (k : ℕ) → k < s.max_order → Chain s.next_block (s.free_blocks k) (lists k)

-- The headers hold these lists of blocks, which are page aligned, and no two of which overlap.
pub record IsValid (s : Allocator) (lists : ℕ → List ℕ) : Type 0 where
  pub positive : 0 < s.page_size
  pub orders : s.max_order ≤ 64
  pub chains : HasLists s lists
  pub aligned : (k : ℕ) → k < s.max_order → All (λ x. x % s.page_size ≡ 0) (lists k)
  pub apart : (a : ℕ) → free_at s lists a ≤ 1

pub block_len-pos : (page_size k : ℕ) → 0 < page_size → 0 < block_len page_size k
block_len-pos page_size k p = grind (arith, one-le-pow k 2 (omega arith))

-- A family of facts, after the list of one order is replaced.
pub at_write {ℓ} :
    (P : ℕ → List ℕ → Type ℓ) (lists : ℕ → List ℕ) (k : ℕ) (ys : List ℕ) (j : ℕ)
    → P k ys
    → P j (lists j)
    → P j (write lists k ys j)
at_write P lists k ys j here there = elim (Bool-cases (j == k)) [
  | inl e ↦ let same = eq_of_== j k e in rw (e, same) here
  | inr e ↦ rw e there
]

pub at_writes {ℓ} :
    (P : ℕ → List ℕ → Type ℓ) (heads : ℕ → ℕ) (lists : ℕ → List ℕ) (k head : ℕ) (ys : List ℕ)
    (j : ℕ)
    → P head ys
    → P (heads j) (lists j)
    → P (write heads k head j) (write lists k ys j)
at_writes P heads lists k head ys j here there = elim (Bool-cases (j == k)) [
  | inl e ↦ rw e here
  | inr e ↦ rw e there
]

pub push_free-link :
    (s : Allocator) (k b : ℕ)
    → k < s.max_order
    → b % s.page_size ≡ 0
    → push_free s k b ≡ some (link s k b)
unfolding push_free
push_free-link s k b h aligned = ground arith

module _ (s : Allocator) (lists : ℕ → List ℕ) (v : IsValid s lists) where
  pub covers-vacant :
      (k b : ℕ)
      → k < s.max_order
      → free_at s lists b ≡ 0
      → covers (block_len s.page_size k) (lists k) b ≡ 0
  covers-vacant k b h vacant = omega (arith, covers-le-total s.page_size s.max_order k lists b h)

  -- A block of an order, none of whose addresses is free, may be put into its free list.
  abbrev pub IsDetached : ℕ → ℕ → Type 0
  IsDetached k b =
      (b ≢ 0)
      × (b % s.page_size ≡ 0)
      × ((a : ℕ) → inside (block_len s.page_size k) b a + free_at s lists a ≤ 1)

  abbrev pub pushed_lists : ℕ → ℕ → ℕ → List ℕ
  pushed_lists k b = write lists k (b ∷ lists k)

  pub free_at-link :
      (k b a : ℕ)
      → k < s.max_order
      → free_at s (pushed_lists k b) a ≡ inside (block_len s.page_size k) b a + free_at s lists a
  unfolding covers
  free_at-link k b a h =
      omega (arith, total-write s.page_size s.max_order k lists (b ∷ lists k) a h)

  -- A block that lies in no free block may be put into a free list, as far as the lists go, even if
  -- the rest of it overlaps others.
  pub link-HasLists :
      (k b : ℕ)
      → k < s.max_order
      → b ≢ 0
      → free_at s lists b ≡ 0
      → HasLists (link s k b) (pushed_lists k b)
  link-HasLists k b h ne vacant j lt =
      let next : ℕ → ℕ = write s.next_block b (s.free_blocks k) in
      let kept : (i : ℕ) → i < s.max_order → Chain next (s.free_blocks i) (lists i) = λ i li.
        Chain-write (block_len s.page_size i) s.next_block (s.free_blocks i) (lists i) b
          (s.free_blocks k) (block_len-pos s.page_size i v.positive) (covers-vacant i b li vacant)
          (v.chains i li) in
      at_writes (Chain next) s.free_blocks lists k b (b ∷ lists k) j
        (refl, ne, rw (==_refl b) (kept k h)) (kept j lt)

  pub push_free-IsValid :
      (k b : ℕ)
      → k < s.max_order
      → IsDetached k b
      → (push_free s k b ≡ some (link s k b)) × IsValid (link s k b) (pushed_lists k b)
  push_free-IsValid k b h (ne, aligned, free) =
      let size = block_len s.page_size k in
      let positive : 0 < size = block_len-pos s.page_size k v.positive in
      let vacant : free_at s lists b ≡ 0 = ground (arith, free b) in
      (
        push_free-link s k b h aligned,
        record {
          positive = v.positive;
          orders = v.orders;
          chains = link-HasLists k b h ne vacant;
          aligned = λ j lt.
              at_write (λ i xs. All (λ x. x % s.page_size ≡ 0) xs) lists k (b ∷ lists k) j
                (aligned, v.aligned k h) (v.aligned j lt);
          apart = λ a. omega (arith, free_at-link k b a h, free a);
        },
      )

  -- What `pop_free` promises of its result.
  abbrev pub Pops : ℕ → Option (ℕ × Allocator) → Type 0
  Pops k none = lists k ≡ []
  Pops k (some (b, t)) =
      (left : ℕ → List ℕ) × Same s t
      × IsValid t left
      × (b ≢ 0)
      × (b % s.page_size ≡ 0)
      × ((a : ℕ) → free_at s lists a ≡ inside (block_len s.page_size k) b a + free_at s left a)

  pop_free-cons :
      (k x : ℕ) (xs : List ℕ) → k < s.max_order → lists k ≡ x ∷ xs → Pops k (pop_free s k)
  unfolding pop_free covers
  pop_free-cons k x xs h e =
      let chain : Chain s.next_block (s.free_blocks k) (x ∷ xs) = rw e at (v.chains k h) in
      let aligned : All (λ y. y % s.page_size ≡ 0) (x ∷ xs) = rw e at (v.aligned k h) in
      let count : (a : ℕ)
          → free_at s lists a
            ≡ inside (block_len s.page_size k) x a + free_at s (write lists k xs) a =
        λ a. omega (arith, rw e at (total-write s.page_size s.max_order k lists xs a h)) in
      rw (chain.0, ==_of_ne x 0 chain.1)
        (
          write lists k xs,
          (refl, refl, refl, refl),
          record {
            positive = v.positive;
            orders = v.orders;
            chains = λ j lt.
                at_writes (Chain s.next_block) s.free_blocks lists k (s.next_block x) xs j chain.2
                  (v.chains j lt);
            aligned = λ j lt.
                at_write (λ i ys. All (λ y. y % s.page_size ≡ 0) ys) lists k xs j aligned.1
                  (v.aligned j lt);
            apart = λ a. omega (arith, count a, v.apart a);
          },
          chain.1,
          aligned.0,
          count,
        )

  pub pop_free-Pops : (k : ℕ) → k < s.max_order → Pops k (pop_free s k)
  pop_free-Pops k h = go (lists k) refl
    where
      go : (xs : List ℕ) → lists k ≡ xs → Pops k (pop_free s k)
      go [] e =
          let chain : Chain s.next_block (s.free_blocks k) [] = rw e at (v.chains k h) in
          unfold pop_free in rw chain e
      go (x ∷ xs) e = pop_free-cons k x xs h e
