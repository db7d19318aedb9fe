-- ===== src/Platform/DeviceTree/Tokens/Decode.antt =====
-- `next` reads back the tokens of a structure that was laid out as the specification says.
use endless_hole.Base.{ℕ, zero, suc, ◌+◌, ◌-◌, ◌%◌, ◌≤◌, ◌<◌, arith, ◌≡◌, ◌≢◌, refl, ap, ◌∙◌}
use endless_hole.Base.{List, [], ◌∷◌, ◌++◌, length, length-append, length-replicate, map}
use endless_hole.Base.{All, some, none}
use mathlib.Core.List.{append_assoc}
use endless_hole.Platform.DeviceTree.Bytes.{returned, ByteOrder, IsBigEndian, word_bytes}
use endless_hole.Platform.DeviceTree.Fdt.{
  Token, start_node, close_node, property, token_type, DeviceTree,
}
use endless_hole.Platform.DeviceTree.Tokens.{
  pad_end_4b, start_from, property_from, read_token, next_from, next,
}
use endless_hole.Platform.DeviceTree.Tokens.Yields.{YieldsAll}
use endless_hole.Platform.DeviceTree.Tokens.Encode.{
  padding, nops, token_bytes, structure_bytes, Encodable, At, At-append, At-length, At-word,
  At-slice, name_end_from_lem,
}

length-padding : (n : ℕ) → n + length (padding n) ≡ pad_end_4b n
unfolding padding pad_end_4b
length-padding n = ground (arith, length-replicate {A = ℕ} ((4 - n % 4) % 4) 0)

-- A padded size keeps an offset at a multiple of 4.
pad_end_4b-add : (at n : ℕ) → at % 4 ≡ 0 → pad_end_4b (at + n) ≡ at + pad_end_4b n
unfolding pad_end_4b
pad_end_4b-add at n h = ground arith

pad_end_4b_mod : (n : ℕ) → pad_end_4b n % 4 ≡ 0
unfolding pad_end_4b
pad_end_4b_mod n = ground arith

module _ (o : ByteOrder) (dt : DeviceTree) (place : List ℕ → ℕ) (big : IsBigEndian o) where
  -- `next` came to the token, and it stands at the rest, at a multiple of 4.
  abbrev Read : ℕ → ℕ → Token → List ℕ → Type 0
  Read fuel at t rest =
      (off : ℕ) × (next_from o dt fuel at ≡ returned (some t, off))
      × (off % 4 ≡ 0)
      × At dt.structure off rest

  start_node-Read :
      (fuel at : ℕ) (name rest : List ℕ)
      → at % 4 ≡ 0
      → All (λ b. b ≢ 0) name
      → At dt.structure at (token_bytes place (start_node name) ++ rest)
      → Read (suc fuel) at (start_node name) rest
  unfolding token_bytes next_from read_token start_from token_type
  start_node-Read fuel at name rest aligned h stands =
      let zeros = padding (suc (length name)) in
      let body = name ++ (0 ∷ (zeros ++ rest)) in
      let joined : (name ++ (0 ∷ zeros)) ++ rest ≡ body = append_assoc name (0 ∷ zeros) rest in
      let whole : At dt.structure at (word_bytes 1 ++ body) = rw (append_assoc, joined) at stands in
      let (kind, behind) = At-word o big dt.structure body at 1 (omega arith) whole in
      let name_end = name_end_from_lem dt.structure name (zeros ++ rest) (at + 4) h behind in
      let name_bytes = At-slice dt.structure name _ (at + 4) (at + 4 + length name) refl behind in
      let size : pad_end_4b (at + 4 + length name + 1) ≡ at + 4 + pad_end_4b (suc (length name)) =
        ap pad_end_4b {x = at + 4 + length name + 1} {y = at + 4 + suc (length name)} (omega arith)
        ∙ pad_end_4b-add (at + 4) (suc (length name)) (omega arith) in
      let padded = length-padding (suc (length name)) in
      (
        at + 4 + pad_end_4b (suc (length name)),
        rw (kind, name_end, name_bytes, size) refl,
        omega (arith, pad_end_4b_mod (suc (length name))),
        At-append dt.structure (name ++ (0 ∷ zeros)) rest (at + 4) _
            (omega (arith, padded, length-append {0} name (0 ∷ zeros))) (rw joined behind),
      )

  close_node-Read :
      (fuel at : ℕ) (rest : List ℕ)
      → at % 4 ≡ 0
      → At dt.structure at (token_bytes place close_node ++ rest)
      → Read (suc fuel) at close_node rest
  unfolding token_bytes next_from read_token token_type
  close_node-Read fuel at rest aligned stands =
      let (kind, behind) = At-word o big dt.structure rest at 2 (omega arith) stands in
      (at + 4, rw kind refl, omega arith, behind)

  property-Read :
      (fuel at : ℕ) (name bytes rest : List ℕ)
      → at % 4 ≡ 0
      → Encodable place dt.strings (property name bytes)
      → At dt.structure at (token_bytes place (property name bytes) ++ rest)
      → Read (suc fuel) at (property name bytes) rest
  unfolding token_bytes next_from read_token property_from token_type
  property-Read fuel at name bytes rest aligned (small, (no_zero, placed, inside, (more, stored)))
        stands =
      let zeros = padding (length bytes) in
      let body = bytes ++ (zeros ++ rest) in
      let joined : (bytes ++ zeros) ++ rest ≡ body = append_assoc bytes zeros rest in
      let third = word_bytes (place name) in
      let second = word_bytes (length bytes) in
      let whole : At dt.structure at (word_bytes 3 ++ (second ++ (third ++ body))) =
        rw
          (
            append_assoc (word_bytes 3) (second ++ (third ++ (bytes ++ zeros))) rest,
            append_assoc second (third ++ (bytes ++ zeros)) rest,
            append_assoc third (bytes ++ zeros) rest,
            joined,
          )
          at stands in
      let (kind, one) = At-word o big dt.structure _ at 3 (omega arith) whole in
      let (size, two) = At-word o big dt.structure (third ++ body) (at + 4) _ small one in
      let (start, three) = At-word o big dt.structure body (at + 4 + 4) _ placed two in
      let name_end = name_end_from_lem dt.strings name more (place name) no_zero (inside, stored) in
      let name_bytes =
        At-slice dt.strings name _ (place name) (place name + length name) refl (inside, stored) in
      let eight : at + 4 + 8 ≡ at + 4 + 4 + 4 = omega arith in
      let found =
        At-slice dt.structure bytes _ (at + 4 + 8) (at + 4 + 8 + length bytes) refl
          (rw (← eight) at three) in
      let padded = length-padding (length bytes) in
      (
        at + 4 + 8 + pad_end_4b (length bytes),
        rw (kind, size, start, name_end, name_bytes, found) refl,
        omega (arith, pad_end_4b_mod (length bytes)),
        At-append dt.structure (bytes ++ zeros) rest (at + 4 + 4 + 4) _
            (omega (arith, padded, length-append {0} bytes zeros)) (rw joined three),
      )

  token_bytes-Read :
      (fuel at : ℕ) (t : Token) (rest : List ℕ)
      → at % 4 ≡ 0
      → Encodable place dt.strings t
      → At dt.structure at (token_bytes place t ++ rest)
      → Read (suc fuel) at t rest
  token_bytes-Read fuel at (start_node name) rest aligned h stands =
      start_node-Read fuel at name rest aligned h stands
  token_bytes-Read fuel at close_node rest aligned h stands =
      close_node-Read fuel at rest aligned stands
  token_bytes-Read fuel at (property name bytes) rest aligned h stands =
      property-Read fuel at name bytes rest aligned h stands

  -- One ignored word
  skip_nop :
      (fuel at : ℕ) (rest : List ℕ)
      → At dt.structure at (word_bytes 4 ++ rest)
      → (next_from o dt (suc fuel) at ≡ next_from o dt fuel (at + 4))
        × At dt.structure (at + 4) rest
  unfolding next_from read_token token_type
  skip_nop fuel at rest stands =
      let (kind, behind) = At-word o big dt.structure rest at 4 (omega arith) stands in
      (rw kind refl, behind)

  nops-Read :
      (k fuel at : ℕ) (t : Token) (rest : List ℕ)
      → k < fuel
      → at % 4 ≡ 0
      → Encodable place dt.strings t
      → At dt.structure at (nops k ++ (token_bytes place t ++ rest))
      → Read fuel at t rest
  unfolding nops
  nops-Read k zero at t rest lt aligned h stands = absurd (omega arith)
  nops-Read zero (suc fuel) at t rest lt aligned h stands =
      token_bytes-Read fuel at t rest aligned h stands
  nops-Read (suc k) (suc fuel) at t rest lt aligned h stands =
      let (same, behind) =
        skip_nop fuel at _ (rw (append_assoc (word_bytes 4) (nops k)) at stands) in
      let (off, e, even, later) =
        nops-Read k fuel (at + 4) t rest (omega arith) (omega arith) h behind in
      (off, same ∙ e, even, later)

  read_end :
      (k fuel at : ℕ) (rest : List ℕ)
      → k < fuel
      → At dt.structure at (nops k ++ (word_bytes 9 ++ rest))
      → (off : ℕ) × (next_from o dt fuel at ≡ returned (none, off))
  unfolding nops next_from read_token token_type
  read_end k zero at rest lt stands = absurd (omega arith)
  read_end zero (suc fuel) at rest lt stands =
      let (kind, behind) = At-word o big dt.structure rest at 9 (omega arith) stands in
      (at + 4, rw kind refl)
  read_end (suc k) (suc fuel) at rest lt stands =
      let (same, behind) =
        skip_nop fuel at _ (rw (append_assoc (word_bytes 4) (nops k)) at stands) in
      let (off, e) = read_end k fuel (at + 4) rest (omega arith) behind in (off, same ∙ e)

  length-nops : (k : ℕ) → k ≤ length (nops k)
  unfolding nops word_bytes
  length-nops zero = omega arith
  length-nops (suc k) = omega (arith, length-nops k)

  -- Whatever follows the end token, a tree whose structure is a sequence of tokens laid out as the
  -- specification says yields these tokens, skips the ignored words, and then ends.
  structure-Yields :
      (items : List (ℕ × Token)) (last at : ℕ) (rest : List ℕ)
      → at % 4 ≡ 0
      → All (λ item. Encodable place dt.strings (item.1)) items
      → At dt.structure at (structure_bytes place items last ++ rest)
      → YieldsAll o dt at (map (λ (item : ℕ × Token). item.1) items)
  unfolding structure_bytes next
  structure-Yields [] last at rest aligned h stands =
      let behind : At dt.structure at (nops last ++ (word_bytes 9 ++ rest)) =
        rw (append_assoc (nops last)) at stands in
      let size = At-length dt.structure (nops last) _ at behind in
      let (off, e) =
        read_end last (suc (length dt.structure)) at rest (omega (arith, length-nops last))
          behind in
      (at, off, refl, e)
  structure-Yields ((k, t) ∷ items) last at rest aligned (h, hs) stands =
      let whole : At dt.structure at
          (nops k ++ (token_bytes place t ++ (structure_bytes place items last ++ rest))) =
        rw (append_assoc (nops k), append_assoc (token_bytes place t)) at stands in
      let size = At-length dt.structure (nops k) _ at whole in
      let (off, e, even, behind) =
        nops-Read k (suc (length dt.structure)) at t _ (omega (arith, length-nops k)) aligned h
          whole in
      let (end, stop, later, e') = structure-Yields items last off rest even hs behind in
      (end, stop, (off, e, later), e')

-- Whatever follows the end token, a tree whose structure is a sequence of tokens laid out as the
-- specification says yields these tokens, skips the ignored words between them, and then ends. The
-- names of properties stand in the strings of the tree, lengths and places fit 32 bits.
pub structure_bytes-YieldsAll :
    (o : ByteOrder) (place : List ℕ → ℕ) (items : List (ℕ × Token)) (last : ℕ) (rest : List ℕ)
    (dt : DeviceTree)
    → IsBigEndian o
    → dt.structure ≡ structure_bytes place items last ++ rest
    → All (λ item. Encodable place dt.strings (item.1)) items
    → YieldsAll o dt 0 (map (λ (item : ℕ × Token). item.1) items)
structure_bytes-YieldsAll o place items last rest dt big e h =
    structure-Yields o dt place big items last 0 rest refl h (omega arith, e)
