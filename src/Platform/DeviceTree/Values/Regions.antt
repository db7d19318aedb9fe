-- ===== src/Platform/DeviceTree/Values/Regions.antt =====
-- `MemRegionIter`: the regions of the memory reservation map.
use endless_hole.Base.{ℕ, zero, suc, ◌+◌, ◌*◌, ◌^◌, ◌<◌, arith, ◌≡◌, ◌≢◌, refl, List, [], ◌∷◌}
use endless_hole.Base.{◌++◌, length, All, map, some, none, Option, false, ◌&&◌, ◌==◌, if◌then◌else◌}
use mathlib.Core.List.{append_assoc}
use endless_hole.Platform.DeviceTree.Bytes.{
  Run, returned, out_of_fuel, ◌>>=◌, ByteOrder, IsBigEndian, long_at, long_at-drop, word_bytes,
}
use endless_hole.Platform.DeviceTree.Values.{next_region}
use endless_hole.Platform.DeviceTree.Tokens.Encode.{At, At-append}

-- A number of 64 bits by its two words
pub record Long : Type 0 where
  pub high : ℕ
  pub low : ℕ

abbrev pub long_number : Long → ℕ
long_number n = n.high * 2 ^ 32 + n.low

abbrev pub IsLong : Long → Type 0
IsLong n = (n.high < 2 ^ 32) × (n.low < 2 ^ 32)

unfoldable pub long_bytes : Long → List ℕ
long_bytes n = word_bytes n.high ++ word_bytes n.low

-- An entry of a map, and a map with its end, an entry of zeros
abbrev pub IsRegion : Long × Long → Type 0
IsRegion (address, size) =
    IsLong address × IsLong size × (long_number address + long_number size ≢ 0)

unfoldable pub regions_bytes : List (Long × Long) → List ℕ
regions_bytes [] =
    long_bytes (record { high = 0; low = 0 }) ++ long_bytes (record { high = 0; low = 0 })
regions_bytes ((address, size) ∷ regions) =
    long_bytes address ++ (long_bytes size ++ regions_bytes regions)

unfoldable pub collect_regions : ByteOrder → ℕ → List ℕ → ℕ → Run (List (ℕ × ℕ))
collect_regions o zero bytes at = out_of_fuel
collect_regions o (suc fuel) bytes at =
    next_region o bytes at >>= collected (collect_regions o fuel bytes)
  where
    collected : (ℕ → Run (List (ℕ × ℕ))) → Option (ℕ × ℕ) × ℕ → Run (List (ℕ × ℕ))
    collected again (none, end) = returned []
    collected again (some region, end) = again end >>= λ regions. returned (region ∷ regions)

At-long :
    (o : ByteOrder)
    → IsBigEndian o
    → (xs rest : List ℕ) (at : ℕ) (n : Long) → IsLong n
    → At xs at (long_bytes n ++ rest)
    → (long_at o xs at ≡ returned (long_number n)) × At xs (at + 8) rest
unfolding long_bytes
At-long o big xs rest at n (a, b) (le, d) =
    let joined = append_assoc (word_bytes n.high) (word_bytes n.low) rest in
    (
      long_at-drop o big xs at n.high n.low rest (rw joined at d) le a b,
      At-append xs (word_bytes n.high ++ word_bytes n.low) rest at (at + 8)
          (unfold word_bytes in refl) (le, d),
    )

-- One call in front of an entry
next_region_lem :
    (o : ByteOrder)
    → IsBigEndian o
    → (xs rest : List ℕ) (at : ℕ) (address size : Long) → IsLong address
    → IsLong size
    → At xs at (long_bytes address ++ (long_bytes size ++ rest))
    → (next_region o xs at
        ≡ returned (
            if long_number address == 0 && long_number size == 0
            then (none, at + 16)
            else (some (long_number address, long_number size), at + 16)))
      × At xs (at + 16) rest
unfolding next_region
next_region_lem o big xs rest at address size ha hs stands =
    let (first, behind) = At-long o big xs _ at address ha stands in
    let (second, end) = At-long o big xs rest (at + 8) size hs behind in
    let sixteen : at + 8 + 8 ≡ at + 16 = omega arith in (rw (first, second) refl, rw sixteen at end)

collect_regions_from :
    (o : ByteOrder)
    → IsBigEndian o
    → (regions : List (Long × Long)) (fuel : ℕ) (xs rest : List ℕ) (at : ℕ) → length regions < fuel
    → All IsRegion regions
    → At xs at (regions_bytes regions ++ rest)
    → collect_regions o fuel xs at
      ≡ returned
          (map (λ (region : Long × Long). (long_number (region.0), long_number (region.1))) regions)
unfolding collect_regions regions_bytes
collect_regions_from o big regions zero xs rest at lt h stands = absurd (omega arith)
collect_regions_from o big [] (suc fuel) xs rest at lt h stands =
    let zeros = long_bytes (record { high = 0; low = 0 }) in
    let whole : At xs at (zeros ++ (zeros ++ rest)) = rw (append_assoc zeros) at stands in
    let (e, behind) =
      next_region_lem o big xs rest at (record { high = 0; low = 0 }) (record { high = 0; low = 0 })
        (omega arith) (omega arith) whole in
    rw e refl
collect_regions_from o big ((address, size) ∷ regions) (suc fuel) xs rest at lt
      ((a, s, some_bytes), h) stands =
    let joined : At xs at
        (long_bytes address ++ (long_bytes size ++ (regions_bytes regions ++ rest))) =
      rw (append_assoc (long_bytes address), append_assoc (long_bytes size)) at stands in
    let (e, behind) = next_region_lem o big xs _ at address size a s joined in
    let more : (long_number address == 0 && long_number size == 0) ≡ false = ground arith in
    rw (e, more, collect_regions_from o big regions fuel xs rest (at + 16) (omega arith) h behind)
      refl

-- A reservation map is a sequence of entries, none of them zero throughout, with an entry of zeros
-- behind it: the iterator yields the address and the size of each entry in order, and then ends,
-- whatever follows.
pub collect_regions-regions_bytes :
    (o : ByteOrder) (regions : List (Long × Long)) (xs rest : List ℕ)
    → IsBigEndian o
    → xs ≡ regions_bytes regions ++ rest
    → All IsRegion regions
    → collect_regions o (suc (length regions)) xs 0
      ≡ returned
          (map (λ (region : Long × Long). (long_number (region.0), long_number (region.1))) regions)
collect_regions-regions_bytes o regions xs rest big e h =
    collect_regions_from o big regions _ xs rest 0 (omega arith) h (omega arith, e)
