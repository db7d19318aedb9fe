-- ===== src/Platform/DeviceTree/Tokens.antt =====
-- kernel_core/src/platform/device_tree/iter.rs, `FlattenedTreeIter`: the iterator is its offset into
-- the structure of the tree. A loop over it runs on fuel of one more than the length of the
-- structure, since each token takes four bytes.
pub mod Total
pub mod Loops
pub mod Encode
pub mod Yields
pub mod Decode
pub mod Steps
use endless_hole.Base.{ℕ, zero, suc, ◌+◌, ◌-◌, ◌%◌, List, [], ◌∷◌, Option, none, some}
use endless_hole.Base.{length, ◌==◌, if◌then◌else◌}
use endless_hole.Platform.DeviceTree.Bytes.{
  Run, returned, panics, out_of_fuel, ◌>>=◌, ByteOrder, word_at, slice, drop,
}
use endless_hole.Platform.DeviceTree.Fdt.{
  TokenType, begin_node, end_node, prop, nop, end, unknown, token_type, Token, start_node,
  close_node, property, DeviceTree,
}

unfoldable pub pad_end_4b : ℕ → ℕ
pad_end_4b num_bytes = num_bytes + (if num_bytes % 4 == 0 then 0 else 4 - num_bytes % 4)

-- The loop that looks for the zero at the end of a name, over the bytes that are left
unfoldable pub scan_name : List ℕ → ℕ → ℕ
scan_name [] name_end = name_end
scan_name (b ∷ bytes) name_end =
    let rest = scan_name bytes (name_end + 1) in if b == 0 then name_end else rest

unfoldable pub name_end_from : List ℕ → ℕ → ℕ
name_end_from bytes start = scan_name (drop start bytes) start

-- What a loop over tokens does next: it goes on, or it leaves with a result.
pub data Flow (S R : Type 0) : Type 0 where
  continue : S → ℕ → Flow S R
  break : R → ℕ → Flow S R

module _ (o : ByteOrder) (dt : DeviceTree) where
  -- The two tokens that carry bytes, from the offset behind their type
  unfoldable pub start_from : ℕ → Run (Option Token × ℕ)
  start_from current_offset =
      let name_end = name_end_from dt.structure current_offset in
      slice dt.structure current_offset name_end >>= λ name.
      returned (some (start_node name), pad_end_4b (name_end + 1))

  unfoldable pub property_from : ℕ → Run (Option Token × ℕ)
  property_from current_offset = do
    size ← word_at o dt.structure current_offset
    name_offset ← word_at o dt.structure (current_offset + 4)
    name ← slice dt.strings name_offset (name_end_from dt.strings name_offset)
    bytes ← slice dt.structure (current_offset + 8) (current_offset + 8 + size)
    returned (some (property name bytes), current_offset + 8 + pad_end_4b size)

  -- What the type of a token leads to; `again` is the next round of the loop.
  unfoldable pub read_token : (ℕ → Run (Option Token × ℕ)) → TokenType → ℕ → Run (Option Token × ℕ)
  unfolding start_from property_from
  read_token again begin_node current_offset = start_from current_offset
  read_token again end_node current_offset = returned (some close_node, current_offset)
  read_token again prop current_offset = property_from current_offset
  read_token again nop current_offset = again current_offset
  read_token again end current_offset = returned (none, current_offset)
  read_token again (unknown x) current_offset = panics

  unfoldable pub next_from : ℕ → ℕ → Run (Option Token × ℕ)
  unfolding read_token
  next_from zero current_offset = out_of_fuel
  next_from (suc fuel) current_offset = word_at o dt.structure current_offset >>= λ value.
      read_token (next_from fuel) (token_type value) (current_offset + 4)

  unfoldable pub next : ℕ → Run (Option Token × ℕ)
  next current_offset = next_from (suc (length dt.structure)) current_offset

  -- `while let Some(token) = tokens.next() { body }`, and what comes after the loop; the body sees
  -- the iterator behind the token, and hands back where it leaves it.
  module _ {S R : Type 0} (body : S → Token → ℕ → Run (Flow S R)) (after : S → R) where
    unfoldable pub follow : (S → ℕ → Run (R × ℕ)) → Flow S R → Run (R × ℕ)
    follow again (continue s current_offset) = again s current_offset
    follow again (break r current_offset) = returned (r, current_offset)

    unfoldable pub on_item : (S → ℕ → Run (R × ℕ)) → S → Option Token × ℕ → Run (R × ℕ)
    unfolding follow
    on_item again s (none, current_offset) = returned (after s, current_offset)
    on_item again s (some token, current_offset) = body s token current_offset >>= follow again

    unfoldable pub for_tokens : ℕ → S → ℕ → Run (R × ℕ)
    unfolding on_item
    for_tokens zero s current_offset = out_of_fuel
    for_tokens (suc fuel) s current_offset = next current_offset >>= on_item (for_tokens fuel) s

  abbrev pub enough : ℕ
  enough = suc (length dt.structure)

  -- One round of the loop of `skip_node`
  unfoldable pub skip_token : ℕ → Token → ℕ → Run (Flow ℕ (Unit {0}))
  skip_token depth (start_node name) offset = returned (continue (depth + 1) offset)
  skip_token depth close_node offset =
      if depth - 1 == 0 then returned (break tt offset) else returned (continue (depth - 1) offset)
  skip_token depth (property name bytes) offset = returned (continue depth offset)

  -- Where `skip_node` leaves the iterator
  unfoldable pub skip_node : ℕ → Run ℕ
  unfolding for_tokens skip_token
  skip_node current_offset =
      for_tokens skip_token (λ depth. tt) enough 1 current_offset >>= λ r. returned (r.1)
