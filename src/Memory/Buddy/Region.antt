-- ===== src/Memory/Buddy/Region.antt =====
-- `add_memory_region` against the count of the free blocks that an address lies in.
use endless_hole.Base.{
  ℕ, zero, suc, ◌+◌, ◌-◌, ◌*◌, ◌/◌, ◌%◌, ◌^◌, ◌≤◌, ◌<◌, arith, ◌≡◌, ◌≢◌, refl, sym, ap, ◌∙◌,
}
use endless_hole.Base.{Bool, true, false, not, ◌&&◌, ◌||◌, List, ltb, leb, ◌==◌}
use endless_hole.Base.{Bool-cases, inl, inr, eq_of_==, ne_of_not_==, le_of_not_ltb}
use endless_hole.Memory.Buddy.{Allocator, link, add_from, align_offset, added, add_memory_region}
use endless_hole.Memory.Buddy.{Outcome, ok, err, panic, out_of_fuel}
use endless_hole.Memory.Buddy.Pool.{inside, block_len}
use endless_hole.Memory.Buddy.Links.{
  Same, free_at, IsValid, IsDetached, push_free-IsValid, pushed_lists, free_at-link,
}
use endless_hole.Memory.Buddy.Allocate.{Same-trans}
use native.Mathlib.Nat.{
  one-le-pow, mod-lt, div-add-mod', add-mod-mod, add-mod_right, mul-mod_left, mul-le-mul_right,
  add-mul, add-mul-mod_self_right,
}

-- The pages from an address on are free afterwards, and nothing else changes.
abbrev pub Adds : Allocator → (ℕ → List ℕ) → (start bytes : ℕ) → Outcome Allocator → Type 0
Adds s lists start bytes (ok t) =
    (left : ℕ → List ℕ) × Same s t
    × IsValid t left
    × ((a : ℕ) → free_at s left a ≡ inside bytes start a + free_at s lists a)
Adds s lists start bytes (err e) = ⊥
Adds s lists start bytes panic = ⊥
Adds s lists start bytes out_of_fuel = ⊥

whole_blocks : (p q page r : ℕ) → r < page → p * page ≤ q * page + r → p ≤ q
whole_blocks p q page r lt le = elim (Bool-cases (ltb q p)) [
  | inl less ↦
      let below : q + 1 ≤ p = ground arith in
      absurd (omega (arith, mul-le-mul_right page below, add-mul q 1 page))
  | inr more ↦ le_of_not_ltb q p more
]

less_than_page : (q page r : ℕ) → q * page + r < page → q ≡ 0
less_than_page q page r lt = elim (Bool-cases (q == 0)) [
  | inl none_left ↦ eq_of_== q 0 none_left
  | inr more ↦
      let one : 1 ≤ q = omega (arith, ne_of_not_== q 0 more) in
      absurd (omega (arith, mul-le-mul_right page one))
]

inside_parts :
    (size head tail start a : ℕ)
    → size ≡ head + tail
    → inside size start a ≡ inside head start a + inside tail (start + head) a
inside_parts size head tail start a e = ground arith

parts :
    (p q page r : ℕ)
    → p ≤ q
    → (q * page ≡ p * page + (q - p) * page) × (q * page + r - p * page ≡ (q - p) * page + r)
parts p q page r le =
    let e : q ≡ p + (q - p) = omega arith in
    let f : q * page ≡ (p + (q - p)) * page = ap (λ z. z * page) e in
    omega (arith, f, add-mul p (q - p) page)

Adds-step :
    (s t : Allocator) (lists mid : ℕ → List ℕ) (start len rest bytes : ℕ) (r : Outcome Allocator)
    → Same s t
    → ((a : ℕ) → free_at s mid a ≡ inside len start a + free_at s lists a)
    → bytes ≡ len + rest
    → Adds t mid (start + len) rest r
    → Adds s lists start bytes r
Adds-step s t lists mid start len rest bytes (ok u) same count e (left, same', valid, count') = (
  left,
  Same-trans s t u same same',
  valid,
  λ a.
      omega
        (arith, count a, rw (same.2, same.3) at (count' a), inside_parts bytes len rest start a e),
)
Adds-step s t lists mid start len rest bytes (err e) same count eq p = p
Adds-step s t lists mid start len rest bytes panic same count eq p = p
Adds-step s t lists mid start len rest bytes out_of_fuel same count eq p = p

Adds-nothing :
    (s : Allocator) (lists : ℕ → List ℕ) (start q : ℕ)
    → IsValid s lists
    → q ≡ 0
    → Adds s lists start (q * s.page_size) (ok s)
Adds-nothing s lists start q v e = (lists, (refl, refl, refl, refl), v, λ a. rw e (ground arith))

add_from-Adds :
    (fuel : ℕ) (s : Allocator) (lists : ℕ → List ℕ) (order start bytes q r : ℕ)
    → IsValid s lists
    → bytes ≡ q * s.page_size + r
    → r < s.page_size
    → q + order < fuel
    → order < s.max_order
    → start ≢ 0
    → start % s.page_size ≡ 0
    → ((a : ℕ) → inside (q * s.page_size) start a + free_at s lists a ≤ 1)
    → Adds s lists start (q * s.page_size) (add_from fuel s order start bytes)
unfolding add_from
add_from-Adds zero s lists order start bytes q r v e small enough range pos aligned free =
    absurd (omega arith)
add_from-Adds (suc fuel) s lists order start bytes q r v e small enough range pos aligned free =
    let len = block_len s.page_size order in
    elim (Bool-cases (bytes == 0)) [
      | inl done ↦
          let nothing : q ≡ 0 =
            less_than_page q s.page_size r (omega (arith, eq_of_== bytes 0 done)) in
          rw done (Adds-nothing s lists start q v nothing)
      | inr more ↦ elim (Bool-cases (leb len bytes)) [
        | inl fits ↦
            let below : 2 ^ order ≤ q =
              whole_blocks (2 ^ order) q s.page_size r small (ground arith) in
            let (whole, rest) = parts (2 ^ order) q s.page_size r below in
            let split : (a : ℕ)
                → inside (q * s.page_size) start a
                  ≡ inside len start a + inside ((q - 2 ^ order) * s.page_size) (start + len) a =
              λ a. inside_parts (q * s.page_size) len _ start a whole in
            let detached : IsDetached s lists v order start =
              (pos, aligned, λ a. omega (arith, free a, split a)) in
            let (pushed, valid) = push_free-IsValid s lists v order start range detached in
            let count : (a : ℕ)
                → free_at s (pushed_lists s lists v order start) a
                  ≡ inside len start a + free_at s lists a =
              λ a. free_at-link s lists v order start a range in
            rw (more, fits, pushed)
              (Adds-step s (link s order start) lists (pushed_lists s lists v order start) start len
                ((q - 2 ^ order) * s.page_size) (q * s.page_size) _ (refl, refl, refl, refl) count
                whole
                (add_from-Adds fuel (link s order start) (pushed_lists s lists v order start) order
                  (start + len) (bytes - len) (q - 2 ^ order) r valid (omega (arith, rest)) small
                  (omega (arith, one-le-pow order 2 (omega arith))) range (omega arith)
                  (add-mul-mod_self_right start (2 ^ order) s.page_size ∙ aligned)
                  (λ a. omega (arith, count a, split a, free a))))
        | inr large ↦
            rw (more, large)
              (lower order enough range large (λ o more room.
                add_from-Adds fuel s lists o start bytes q r v e small more room pos aligned free))
      ]
    ]
  where
    lower :
        (o : ℕ)
        → q + o < suc fuel
        → o < s.max_order
        → leb (block_len s.page_size o) bytes ≡ false
        → ((n : ℕ)
            → q + n < fuel
            → n < s.max_order
            → Adds s lists start (q * s.page_size) (add_from fuel s n start bytes))
        → Adds s lists start
            (q * s.page_size)
            (elim o [ zero ↦ ok s | suc new_order ↦ add_from fuel s new_order start bytes ])
    lower zero more room large ih =
        let less : bytes < s.page_size = ground arith in
        Adds-nothing s lists start q v (less_than_page q s.page_size r (omega arith))
    lower (suc o) more room large ih = ih o (omega arith) (omega arith)

-- A region that `add_memory_region` takes: it is not empty and lies in the allocator's region, and
-- none of its pages is free, counted from the first page boundary on.
pub record IsRegion (s : Allocator) (lists : ℕ → List ℕ) (start len : ℕ) : Type 0 where
  pub nonempty : 0 < len
  pub pos : 0 < start
  pub low : s.base_addr ≤ start
  pub high : start + len ≤ s.end_addr
  pub apart :
      (a : ℕ)
      → inside (len / s.page_size * s.page_size) (start + align_offset start s.page_size) a
          + free_at s lists a
        ≤ 1

-- What `add_memory_region` promises of its result.
abbrev pub AddsRegion :
    Allocator → (ℕ → List ℕ) → (start len : ℕ) → Outcome (Bool × Allocator) → Type 0
AddsRegion s lists start len (ok (false, t)) =
    (t ≡ s) × (len < s.page_size + align_offset start s.page_size)
AddsRegion s lists start len (ok (true, t)) =
    Adds s lists (start + align_offset start s.page_size) (len / s.page_size * s.page_size) (ok t)
AddsRegion s lists start len (err e) = ⊥
AddsRegion s lists start len panic = ⊥
AddsRegion s lists start len out_of_fuel = ⊥

AddsRegion-Adds :
    (s : Allocator) (lists : ℕ → List ℕ) (start len : ℕ) (r : Outcome Allocator)
    → Adds s lists (start + align_offset start s.page_size) (len / s.page_size * s.page_size) r
    → AddsRegion s lists start len (added r)
AddsRegion-Adds s lists start len (ok t) p = p
AddsRegion-Adds s lists start len (err e) p = p
AddsRegion-Adds s lists start len panic p = p
AddsRegion-Adds s lists start len out_of_fuel p = p

aligned_start : (start page : ℕ) → 0 < page → (start + align_offset start page) % page ≡ 0
aligned_start start page pos =
    let e : start + (page - start % page) ≡ start / page * page + page =
      omega (arith, div-add-mod' start page, mod-lt start pos) in
    add-mod-mod start (page - start % page) page
    ∙ rw e (add-mod_right (start / page * page) page ∙ mul-mod_left (start / page) page)

short_region : (len page pad : ℕ) → (ltb len page || ltb (len - pad) page) ≡ true → len < page + pad
short_region len page pad h = ground arith

-- For an allocator that is well formed and has at least one order, fuel that is not below the whole
-- pages of the region and the orders together, and a region that is not empty, does not start at null,
-- lies between the bounds of the allocator, and has no address that is free already in the pages
-- named below: `add_memory_region` returns without a panic. It returns `false`, and changes nothing,
-- only if the region has no whole page after the padding. Else it returns `true`, and all the
-- addresses from the first page boundary in the region on, over as many whole pages as the length of
-- the region has with the padding counted in, are free afterwards and no others change; the free
-- lists stay well formed.
pub add_memory_region-AddsRegion :
    (s : Allocator) (lists : ℕ → List ℕ) (fuel start len : ℕ)
    → IsValid s lists
    → 0 < s.max_order
    → IsRegion s lists start len
    → len / s.page_size + s.max_order ≤ fuel
    → AddsRegion s lists start len (add_memory_region fuel s start len)
unfolding add_memory_region
add_memory_region-AddsRegion s lists fuel start len v orders region enough =
    let pad = align_offset start s.page_size in
    let fits : (len == 0
          || start == 0
          || not (leb s.base_addr start && ltb start s.end_addr)
          || ltb s.end_addr (start + len))
        ≡ false =
      ground (arith, region.nonempty, region.pos, region.low, region.high) in
    elim (Bool-cases (ltb len s.page_size || ltb (len - pad) s.page_size)) [
      | inl short ↦ rw (fits, short) (refl, short_region len s.page_size pad short)
      | inr long ↦
          rw (fits, long)
            (AddsRegion-Adds s lists start len _ (
              add_from-Adds fuel s lists (s.max_order - 1) (start + pad) len (len / s.page_size)
                (len % s.page_size) v (sym (div-add-mod' len s.page_size)) (mod-lt len v.positive)
                (omega (arith, orders)) (omega (arith, orders)) (omega (arith, region.pos))
                (aligned_start start s.page_size v.positive) region.apart))
    ]
