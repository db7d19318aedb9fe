-- ===== src/Platform/DeviceTree/Search/Ends.antt =====
-- Every search ends, whatever the bytes of the tree are.
use mathlib.Core.List.{reverse}
use Prim.Native.String.{String}
use endless_hole.Base.{ℕ, zero, suc, ◌+◌, ◌-◌, ◌≤◌, ◌<◌, arith, ◌≡◌, ◌≢◌, refl, List, [], ◌∷◌}
use endless_hole.Base.{
  Option, none, some, length, Bool-cases, inl, inr, ◌==◌, true, false, ap, Bool, ◌||◌,
  if◌then◌else◌,
}
use endless_hole.Platform.DeviceTree.Bytes.{
  Run, returned, out_of_fuel, ◌>>=◌, ByteOrder, IsBigEndian, same_bytes, text, take, drop,
  >>=-ne-out_of_fuel, >>=-eq-returned, returned-injective, returned-ne-out_of_fuel, or_panic,
}
use endless_hole.Platform.DeviceTree.Fdt.{start_node, close_node, property, DeviceTree}
use endless_hole.Platform.DeviceTree.Tokens.{for_tokens, enough, skip_node}
use endless_hole.Platform.DeviceTree.Tokens.Loops.{
  Keeps, KeepsOn, goes_on, stops, leaves, Keeps-if, Keeps-bind, for_tokens-ne-out_of_fuel,
  for_tokens-moves, skip_node-le, skip_node-ne-out_of_fuel,
}
use endless_hole.Platform.DeviceTree.Values.{
  Value, u32, phandle, raw_bytes, parse, whole_word, string_or_bytes,
}
use endless_hole.Platform.DeviceTree.Search.{
  NodePropertyIter, property_token, next_property, Search, enter, search_token, search,
  iter_node_properties, find_named, find_in, find_split, find_property, node_token, next_node,
  NodesNamedIter, position, update_cells, properties_at, nodes_at, choose, iter_nodes_named,
}

if-ne-out_of_fuel :
    {A : Type 0} (b : Bool) {x y : Run A}
    → x ≢ out_of_fuel
    → y ≢ out_of_fuel
    → (if b then x else y) ≢ out_of_fuel
if-ne-out_of_fuel true hx hy = hx
if-ne-out_of_fuel false hx hy = hy

module _ (o : ByteOrder) where
  whole_word-ne-out_of_fuel : (bytes : List ℕ) → whole_word o bytes ≢ out_of_fuel
  unfolding whole_word
  whole_word-ne-out_of_fuel bytes = option (o.read_u32 bytes)
    where
      option : (r : Option ℕ) → or_panic r ≢ out_of_fuel
      option none = λ p. cc
      option (some a) = λ p. cc

  pub parse-ne-out_of_fuel : (name bytes : List ℕ) (a s : ℕ) → parse o name bytes a s ≢ out_of_fuel
  unfolding parse
  parse-ne-out_of_fuel name bytes a s =
      let plain = λ (v : Value). returned-ne-out_of_fuel v in
      let word : (f : ℕ → Value) → (whole_word o bytes >>= λ v. returned (f v)) ≢ out_of_fuel =
        λ f. >>=-ne-out_of_fuel _ (whole_word-ne-out_of_fuel bytes) (λ v e. plain (f v)) in
      let is = λ (s : String). same_bytes name (text s) in
      let others = if-ne-out_of_fuel (is "reg") (plain _) (plain (raw_bytes bytes)) in
      let words =
        if-ne-out_of_fuel (is "#address-cells" || (is "#size-cells" || is "virtual-reg")) (word u32)
          others in
      if-ne-out_of_fuel (is "compatible") (plain _) (
        if-ne-out_of_fuel (is "model" || (is "status" || is "device_type"))
          (plain (string_or_bytes o bytes)) (if-ne-out_of_fuel (is "phandle") (word phandle) words))

  update_cells-ne-out_of_fuel :
      {S : Type 0} (name bytes : List ℕ) (f g : ℕ → S) (s : S)
      → update_cells o name bytes f g s ≢ out_of_fuel
  unfolding update_cells
  update_cells-ne-out_of_fuel name bytes f g s =
      let word : (h : ℕ → _) → (whole_word o bytes >>= λ v. returned (h v)) ≢ out_of_fuel = λ h.
        >>=-ne-out_of_fuel _ (whole_word-ne-out_of_fuel bytes)
          (λ v e. returned-ne-out_of_fuel (h v)) in
      if-ne-out_of_fuel (same_bytes name (text "#address-cells")) (word f) (
        if-ne-out_of_fuel (same_bytes name (text "#size-cells")) (word g)
          (returned-ne-out_of_fuel s))

module _ (o : ByteOrder) (dt : DeviceTree) (big : IsBigEndian o) where
  pub property_token-KeepsOn :
      (a s : ℕ) → KeepsOn o dt (property_token o dt a s) (λ depth. (none, depth))
  unfolding property_token
  property_token-KeepsOn a s depth (start_node name) at = goes_on (omega arith)
  property_token-KeepsOn a s depth close_node at =
      Keeps-if _ at (leaves (omega arith)) (goes_on (omega arith))
  property_token-KeepsOn a s depth (property name bytes) at =
      Keeps-if _ at
        (Keeps-bind _ at (parse-ne-out_of_fuel o name bytes a s) (λ v e. leaves (omega arith)))
        (goes_on (omega arith))

  pub node_token-KeepsOn :
      (node_name : List ℕ) → KeepsOn o dt (node_token o dt node_name) (λ s. (none, s))
  unfolding node_token
  node_token-KeepsOn node_name it (start_node name) at =
      Keeps-bind _ at (skip_node-ne-out_of_fuel o dt big at)
        λ behind e. let le = skip_node-le o dt big at e in Keeps-if _ at (leaves le) (goes_on le)
  node_token-KeepsOn node_name it close_node at =
      Keeps-if _ at stops (Keeps-if _ at (leaves (omega arith)) (goes_on (omega arith)))
  node_token-KeepsOn node_name it (property name bytes) at =
      Keeps-bind _ at (update_cells-ne-out_of_fuel o name bytes _ _ it) λ t e. goes_on (omega arith)

  module _ {R : Type 0} (found : (offset address_cells size_cells : ℕ) → R) where
    enter-Keeps :
        (s : Search) (segments : List (List ℕ)) (at : ℕ)
        → s.segments ≡ segments
        → Keeps at (returned (enter o dt found s at))
    unfolding enter
    enter-Keeps s [] at e = rw e (leaves (omega arith))
    enter-Keeps s ([] ∷ rest) at e = rw e (leaves (omega arith))
    enter-Keeps s ((b ∷ segment) ∷ rest) at e = rw e (goes_on (omega arith))

    pub search_token-KeepsOn : KeepsOn o dt (search_token o dt found) (λ s. none)
    unfolding search_token
    search_token-KeepsOn s (start_node name) at = Keeps-if _ at (enter-Keeps s s.segments at refl) (
        Keeps-bind _ at (skip_node-ne-out_of_fuel o dt big at)
          λ behind e. goes_on (skip_node-le o dt big at e))
    search_token-KeepsOn s close_node at = leaves (omega arith)
    search_token-KeepsOn s (property name bytes) at =
        Keeps-bind _ at (update_cells-ne-out_of_fuel o name bytes _ _ s)
          λ t e. goes_on (omega arith)

    search-ne-out_of_fuel : (path : List ℕ) → search o dt found path ≢ out_of_fuel
    unfolding search
    search-ne-out_of_fuel path =
        >>=-ne-out_of_fuel _
          (for_tokens-ne-out_of_fuel o dt (search_token o dt found) (λ s. none) big
            search_token-KeepsOn (length dt.structure) _ 0 (omega arith))
          λ r e p. cc

  -- One call, and then the loop of `find`
  next_property-ne-out_of_fuel : (it : NodePropertyIter) → next_property o dt it ≢ out_of_fuel
  unfolding next_property
  next_property-ne-out_of_fuel it = elim (Bool-cases (it.depth == 0)) [
    | inl e ↦ rw e (returned-ne-out_of_fuel _)
    | inr e ↦ rw e (
        >>=-ne-out_of_fuel _
          (for_tokens-ne-out_of_fuel o dt
            (property_token o dt it.parent_address_cells it.parent_size_cells)
            (λ depth. (none, depth)) big (property_token-KeepsOn _ _) (length dt.structure) it.depth
            it.current_offset (omega arith))
          λ r e. returned-ne-out_of_fuel _)
  ]

  next_property-moves :
      (it behind : NodePropertyIter) (item : Option (List ℕ × Value)) (found : List ℕ × Value)
      → next_property o dt it ≡ returned (item, behind)
      → item ≡ some found
      → (it.current_offset + 4 ≤ length dt.structure)
        × (it.current_offset + 4 ≤ behind.current_offset)
  unfolding next_property
  next_property-moves it behind item found h is_some = elim (Bool-cases (it.depth == 0)) [
    | inl e ↦
        let bad : ◌≡◌ {A = Run (Option (List ℕ × Value) × NodePropertyIter)} (returned (none, it))
            (returned (item, behind)) =
          rw e at h in
        cc
    | inr e ↦
        let ((r, off), run, made) =
          >>=-eq-returned
            (for_tokens o dt (property_token o dt it.parent_address_cells it.parent_size_cells)
              (λ depth. (none, depth)) (enough o dt) it.depth it.current_offset)
            (rw e at h) in
        let (inside, moved) =
          for_tokens-moves o dt (property_token o dt it.parent_address_cells it.parent_size_cells)
            (λ depth. (none, depth)) big (property_token-KeepsOn _ _) (enough o dt) it.depth
            it.current_offset run in
        let same : off ≡ behind.current_offset =
          ap (λ (p : Option (List ℕ × Value) × NodePropertyIter). p.1.current_offset)
            (returned-injective made) in
        (inside, omega arith)
  ]

  choose-ne-out_of_fuel :
      (property_name : List ℕ) (again : NodePropertyIter → Run (Option Value))
      (item : Option (List ℕ × Value)) (it : NodePropertyIter)
      → ((found : List ℕ × Value) → item ≡ some found → again it ≢ out_of_fuel)
      → choose o dt property_name again (item, it) ≢ out_of_fuel
  unfolding choose
  choose-ne-out_of_fuel property_name again none it k = returned-ne-out_of_fuel _
  choose-ne-out_of_fuel property_name again (some (name, value)) it k =
      if-ne-out_of_fuel (same_bytes name property_name) (returned-ne-out_of_fuel _)
        (k (name, value) refl)

  find_named-ne-out_of_fuel :
      (property_name : List ℕ) (fuel : ℕ) (it : NodePropertyIter)
      → length dt.structure < it.current_offset + suc fuel
      → find_named o dt property_name (suc fuel) it ≢ out_of_fuel
  unfolding find_named
  find_named-ne-out_of_fuel property_name zero it lt =
      >>=-ne-out_of_fuel _ (next_property-ne-out_of_fuel it) λ (item, behind) e.
        choose-ne-out_of_fuel property_name _ item behind λ found is_some.
          let (inside, moved) = next_property-moves it behind item found e is_some in
          absurd (omega arith)
  find_named-ne-out_of_fuel property_name (suc fuel) it lt =
      >>=-ne-out_of_fuel _ (next_property-ne-out_of_fuel it) λ (item, behind) e.
        choose-ne-out_of_fuel property_name _ item behind λ found is_some.
          let (inside, moved) = next_property-moves it behind item found e is_some in
          find_named-ne-out_of_fuel property_name fuel behind (omega arith)

  find_in-ne-out_of_fuel :
      (node : Option NodePropertyIter) (property_name : List ℕ)
      → find_in o dt node property_name ≢ out_of_fuel
  unfolding find_in
  find_in-ne-out_of_fuel none property_name = returned-ne-out_of_fuel _
  find_in-ne-out_of_fuel (some it) property_name =
      find_named-ne-out_of_fuel property_name (length dt.structure) it (omega arith)

  iter_node_properties-ne-out_of_fuel :
      (path : List ℕ) → iter_node_properties o dt path ≢ out_of_fuel
  unfolding iter_node_properties
  iter_node_properties-ne-out_of_fuel path = search-ne-out_of_fuel properties_at path

  find_split-ne-out_of_fuel :
      (path : List ℕ) (slash : Option ℕ) → find_split o dt path slash ≢ out_of_fuel
  unfolding find_split
  find_split-ne-out_of_fuel path none = returned-ne-out_of_fuel none
  find_split-ne-out_of_fuel path (some split) =
      >>=-ne-out_of_fuel (iter_node_properties o dt (take (length path - split) path))
        (iter_node_properties-ne-out_of_fuel (take (length path - split) path))
        λ node e. find_in-ne-out_of_fuel node (drop (length path - split) path)

  find_property-ne-out_of_fuel : (path : List ℕ) → find_property o dt path ≢ out_of_fuel
  unfolding find_property
  find_property-ne-out_of_fuel path = find_split-ne-out_of_fuel path (position b'/' (reverse path))

-- Whatever the bytes of a tree and the path are, the searches for a property and for a node end, and
-- so does each call of the iterators over properties, over nodes and of `skip_node`: with a value or
-- with a panic, within the fuel of the model.
pub searches-End :
    (o : ByteOrder) (dt : DeviceTree) (path name : List ℕ) (it : NodePropertyIter)
    (nodes : NodesNamedIter) (at : ℕ)
    → IsBigEndian o
    → (find_property o dt path ≢ out_of_fuel)
      × (iter_node_properties o dt path ≢ out_of_fuel)
      × (iter_nodes_named o dt path name ≢ out_of_fuel)
      × (next_property o dt it ≢ out_of_fuel)
      × (next_node o dt nodes ≢ out_of_fuel)
      × (skip_node o dt at ≢ out_of_fuel)
unfolding iter_nodes_named next_node
searches-End o dt path name it nodes at big = (
  find_property-ne-out_of_fuel o dt big path,
  iter_node_properties-ne-out_of_fuel o dt big path,
  search-ne-out_of_fuel o dt big (nodes_at name) path,
  next_property-ne-out_of_fuel o dt big it,
  >>=-ne-out_of_fuel _
      (for_tokens-ne-out_of_fuel o dt (node_token o dt nodes.node_name) (λ s. (none, s)) big
        (node_token-KeepsOn o dt big nodes.node_name) (length dt.structure) _ nodes.current_offset
        (omega arith))
      λ r e. returned-ne-out_of_fuel _,
  skip_node-ne-out_of_fuel o dt big at,
)
