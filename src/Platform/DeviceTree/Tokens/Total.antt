-- ===== src/Platform/DeviceTree/Tokens/Total.antt =====
-- The loops of `FlattenedTreeIter` and of what runs over it end: each token moves the offset on.
use endless_hole.Base.{ℕ, zero, suc, ◌+◌, ◌%◌, ◌≤◌, ◌<◌, arith, ◌≡◌, ◌≢◌}
use endless_hole.Base.{List, [], ◌∷◌, length, Option}
use endless_hole.Platform.DeviceTree.Bytes.{
  Run, returned, out_of_fuel, ByteOrder, IsBigEndian, word_at, word_at-le, word_at-ne-out_of_fuel,
  slice, slice-ne-out_of_fuel, drop, >>=-eq-returned, >>=-ne-out_of_fuel, returned-snd,
}
use endless_hole.Platform.DeviceTree.Fdt.{
  TokenType, begin_node, end_node, prop, nop, end, unknown, token_type, Token, DeviceTree,
}
use endless_hole.Platform.DeviceTree.Tokens.{
  pad_end_4b, scan_name, name_end_from, start_from, property_from, read_token, next_from, next,
}

-- `pad_end_4b` rounds up to a multiple of 4, the least one that is not below its argument.
pub pad_end_4b-Pads : (n : ℕ) → (pad_end_4b n % 4 ≡ 0) × (n ≤ pad_end_4b n) × (pad_end_4b n < n + 4)
unfolding pad_end_4b
pad_end_4b-Pads n = ground arith

pub pad_end_4b-le : (n : ℕ) → n ≤ pad_end_4b n
unfolding pad_end_4b
pad_end_4b-le n = ground arith

scan_name-le : (bytes : List ℕ) (name_end : ℕ) → name_end ≤ scan_name bytes name_end
unfolding scan_name
scan_name-le [] name_end = omega arith
scan_name-le (b ∷ bytes) name_end = ground (arith, scan_name-le bytes (name_end + 1))

module _ (o : ByteOrder) (dt : DeviceTree) where
  start_from-le :
      (at : ℕ) {r : Option Token} {off : ℕ} → start_from o dt at ≡ returned (r, off) → at ≤ off
  unfolding start_from name_end_from
  start_from-le at {off = off} h =
      let (name, e, h) =
        >>=-eq-returned (slice dt.structure at (name_end_from dt.structure at)) h in
      let name_end = scan_name (drop at dt.structure) at in
      let moved : pad_end_4b (name_end + 1) ≡ off = returned-snd h in
      omega (arith, scan_name-le (drop at dt.structure) at, pad_end_4b-le (name_end + 1), moved)

  start_from-ne-out_of_fuel : (at : ℕ) → start_from o dt at ≢ out_of_fuel
  unfolding start_from
  start_from-ne-out_of_fuel at = >>=-ne-out_of_fuel _ (slice-ne-out_of_fuel _ _ _) (λ a e p. cc)

  property_from-le :
      (at : ℕ) {r : Option Token} {off : ℕ} → property_from o dt at ≡ returned (r, off) → at ≤ off
  unfolding property_from
  property_from-le at {off = off} h =
      let (size, _, h) = >>=-eq-returned (word_at o dt.structure at) h in
      let (start, _, h) = >>=-eq-returned (word_at o dt.structure (at + 4)) h in
      let (name, _, h) =
        >>=-eq-returned (slice dt.strings start (name_end_from dt.strings start)) h in
      let (bytes, _, h) = >>=-eq-returned (slice dt.structure (at + 8) (at + 8 + size)) h in
      let moved : at + 8 + pad_end_4b size ≡ off = returned-snd h in omega arith

  property_from-ne-out_of_fuel : (at : ℕ) → property_from o dt at ≢ out_of_fuel
  unfolding property_from
  property_from-ne-out_of_fuel at = >>=-ne-out_of_fuel _ (word_at-ne-out_of_fuel _ _ _) λ size _.
      >>=-ne-out_of_fuel _ (word_at-ne-out_of_fuel _ _ _) λ name_offset _.
        >>=-ne-out_of_fuel _ (slice-ne-out_of_fuel _ _ _)
          λ name _. >>=-ne-out_of_fuel _ (slice-ne-out_of_fuel _ _ _) λ bytes _ p. cc

  -- What `again` does not move back, a round does not.
  read_token-le :
      (again : ℕ → Run (Option Token × ℕ)) (t : TokenType) (at : ℕ) {r : Option Token} {off : ℕ}
      → (again at ≡ returned (r, off) → at ≤ off)
      → read_token o dt again t at ≡ returned (r, off)
      → at ≤ off
  unfolding read_token
  read_token-le again begin_node at k h = start_from-le at h
  read_token-le again end_node at k h = omega (arith, returned-snd h)
  read_token-le again prop at k h = property_from-le at h
  read_token-le again nop at k h = k h
  read_token-le again end at k h = omega (arith, returned-snd h)
  read_token-le again (unknown x) at k h = cc

  -- A token is read inside the structure, and the iterator moves on by its four bytes at least.
  next_from-le :
      IsBigEndian o
      → (fuel at : ℕ) {r : Option Token} {off : ℕ} → next_from o dt fuel at ≡ returned (r, off)
      → (at + 4 ≤ length dt.structure) × (at + 4 ≤ off)
  unfolding next_from
  next_from-le big zero at h = cc
  next_from-le big (suc fuel) at h =
      let (value, e, h) = >>=-eq-returned (word_at o dt.structure at) h in
      let again = next_from-le big fuel (at + 4) in
      (
        word_at-le o big dt.structure at e,
        read_token-le (next_from o dt fuel) (token_type value) (at + 4)
            (λ g. let (_, q) = again g in omega arith) h,
      )

  read_token-ne-out_of_fuel :
      (again : ℕ → Run (Option Token × ℕ)) (t : TokenType) (at : ℕ)
      → again at ≢ out_of_fuel
      → read_token o dt again t at ≢ out_of_fuel
  unfolding read_token
  read_token-ne-out_of_fuel again begin_node at k = start_from-ne-out_of_fuel at
  read_token-ne-out_of_fuel again end_node at k = λ p. cc
  read_token-ne-out_of_fuel again prop at k = property_from-ne-out_of_fuel at
  read_token-ne-out_of_fuel again nop at k = k
  read_token-ne-out_of_fuel again end at k = λ p. cc
  read_token-ne-out_of_fuel again (unknown x) at k = λ p. cc

  next_from-ne-out_of_fuel :
      IsBigEndian o
      → (fuel at : ℕ) → length dt.structure < at + suc fuel
      → next_from o dt (suc fuel) at ≢ out_of_fuel
  unfolding next_from
  next_from-ne-out_of_fuel big zero at h =
      >>=-ne-out_of_fuel _ (word_at-ne-out_of_fuel _ _ _)
        λ value e. let le = word_at-le o big dt.structure at e in absurd (omega arith)
  next_from-ne-out_of_fuel big (suc fuel) at h =
      >>=-ne-out_of_fuel _ (word_at-ne-out_of_fuel _ _ _) λ value e.
        read_token-ne-out_of_fuel _ (token_type value) (at + 4)
          (next_from-ne-out_of_fuel big fuel (at + 4) (omega arith))

  pub next-le :
      IsBigEndian o
      → (at : ℕ) {r : Option Token} {off : ℕ} → next o dt at ≡ returned (r, off)
      → (at + 4 ≤ length dt.structure) × (at + 4 ≤ off)
  unfolding next
  next-le big at h = next_from-le big _ at h

  -- `next` ends, wherever it is started and whatever the structure holds.
  pub next-ne-out_of_fuel : IsBigEndian o → (at : ℕ) → next o dt at ≢ out_of_fuel
  unfolding next
  next-ne-out_of_fuel big at = next_from-ne-out_of_fuel big _ at (omega arith)
