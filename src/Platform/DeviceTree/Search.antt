-- ===== src/Platform/DeviceTree/Search.antt =====
-- The searches of kernel_core/src/platform/device_tree/mod.rs and the iterators over properties and
-- nodes of kernel_core/src/platform/device_tree/iter.rs. Each loop runs on the fuel of its tokens.
pub mod Ends
pub mod Nodes
pub mod Skips
pub mod Finds
pub mod Properties
pub mod Lookup
pub mod Names
pub mod Named
use endless_hole.Base.{ℕ, zero, suc, ◌+◌, ◌-◌, List, [], ◌∷◌, Option, none, some, length}
use endless_hole.Base.{Bool, ◌==◌, if◌then◌else◌}
use endless_hole.Platform.DeviceTree.Bytes.{
  Run, returned, panics, out_of_fuel, ◌>>=◌, ByteOrder, drop, take, same_bytes, text,
}
use endless_hole.Platform.DeviceTree.Fdt.{Token, start_node, close_node, property, DeviceTree}
use endless_hole.Platform.DeviceTree.Tokens.{Flow, continue, break, for_tokens, enough, skip_node}
use endless_hole.Platform.DeviceTree.Values.{Value, parse, whole_word}
use mathlib.Core.List.{reverse}

pub record NodePropertyIter : Type 0 where
  pub current_offset : ℕ
  pub depth : ℕ
  pub parent_address_cells : ℕ
  pub parent_size_cells : ℕ

pub record NodesNamedIter : Type 0 where
  pub current_offset : ℕ
  pub depth : ℕ
  pub node_name : List ℕ
  pub parent_address_cells : ℕ
  pub parent_size_cells : ℕ

-- What `NodesNamedIter::next` changes of its iterator, but the offset
pub record Level : Type 0 where
  pub depth : ℕ
  pub parent_address_cells : ℕ
  pub parent_size_cells : ℕ

pub record NodeItem : Type 0 where
  pub unit_address : Option (List ℕ)
  pub properties : NodePropertyIter

-- `iter().position(|b| b == byte)`
unfoldable pub position : ℕ → List ℕ → Option ℕ
position byte [] = none
position byte (b ∷ bytes) =
    let rest : Option ℕ = elim (position byte bytes) [ none ↦ none | some i ↦ some (suc i) ] in
    if b == byte then some 0 else rest

unfoldable pub split_node_name : List ℕ → List ℕ × Option (List ℕ)
split_node_name full_name = elim (position b'@' full_name) [
  | some pos ↦ (take pos full_name, some (drop (pos + 1) full_name))
  | none ↦ (full_name, none)
]

-- `path.split(|p| *p == b'/')`: the first segment, which there always is, and the others
unfoldable pub split_path : List ℕ → List ℕ × List (List ℕ)
split_path [] = ([], [])
split_path (b ∷ path) =
    let rest = split_path path in if b == b'/' then ([], rest.0 ∷ rest.1) else (b ∷ rest.0, rest.1)

-- The variables of a search for a node
pub record Search : Type 0 where
  pub looking_for : List ℕ
  pub segments : List (List ℕ)
  pub current_address_cells : Option ℕ
  pub current_size_cells : Option ℕ

abbrev pub unwrap_or : Option ℕ → ℕ → ℕ
unwrap_or none d = d
unwrap_or (some v) d = v

-- The iterators over a node, from the offset behind its first token
abbrev pub properties_at : (offset address_cells size_cells : ℕ) → NodePropertyIter
properties_at offset address_cells size_cells = record {
  current_offset = offset;
  depth = 1;
  parent_address_cells = address_cells;
  parent_size_cells = size_cells;
}

abbrev pub nodes_at : List ℕ → (offset address_cells size_cells : ℕ) → NodesNamedIter
nodes_at node_name offset address_cells size_cells = record {
  current_offset = offset;
  depth = 1;
  node_name = node_name;
  parent_address_cells = address_cells;
  parent_size_cells = size_cells;
}

-- The two properties that a loop over tokens takes over into its variables
unfoldable pub update_cells :
    {S : Type 0} → ByteOrder → (name bytes : List ℕ) (set_address set_size : ℕ → S) → S → Run S
update_cells o name bytes set_address set_size s =
    if same_bytes name (text "#address-cells")
    then (whole_word o bytes >>= λ v. returned (set_address v))
    else if same_bytes name (text "#size-cells")
    then (whole_word o bytes >>= λ v. returned (set_size v))
    else returned s

module _ (o : ByteOrder) (dt : DeviceTree) where
  -- One token of `NodePropertyIter::next`
  unfoldable pub property_token :
      (address_cells size_cells : ℕ) → ℕ → Token → ℕ → Run (Flow ℕ (Option (List ℕ × Value) × ℕ))
  property_token address_cells size_cells depth (start_node name) offset =
      returned (continue (depth + 1) offset)
  property_token address_cells size_cells depth close_node offset =
      if depth - 1 == 0
      then returned (break (none, depth - 1) offset)
      else returned (continue (depth - 1) offset)
  property_token address_cells size_cells depth (property name bytes) offset =
      if depth == 1
      then (parse o name bytes address_cells size_cells >>= λ value.
          returned (break (some (name, value), depth) offset))
      else returned (continue depth offset)

  unfoldable pub next_property : NodePropertyIter → Run (Option (List ℕ × Value) × NodePropertyIter)
  unfolding property_token
  next_property it =
      if it.depth == 0
      then returned (none, it)
      else (for_tokens o dt (property_token it.parent_address_cells it.parent_size_cells)
            (λ depth. (none, depth)) (enough o dt) it.depth it.current_offset
          >>= λ r. returned (
            r.0.0,
            record {
              current_offset = r.1;
              depth = r.0.1;
              parent_address_cells = it.parent_address_cells;
              parent_size_cells = it.parent_size_cells;
            },
          ))

  -- The search that `iter_node_properties` and `iter_nodes_named` make: the node that is found, as
  -- the offset behind its first token, and the cells of its parent. One token of it:
  module _ {R : Type 0} (found : (offset address_cells size_cells : ℕ) → R) where
    unfoldable pub enter : Search → ℕ → Flow Search (Option R)
    enter s offset =
        let node =
          found offset (unwrap_or s.current_address_cells 2) (unwrap_or s.current_size_cells 1) in
        elim s.segments [
          | [] ↦ break (some node) offset
          | [] ∷ rest ↦ break (some node) offset
          | (b ∷ segment) ∷ rest ↦
              continue (record s { looking_for = b ∷ segment; segments = rest }) offset
        ]

    unfoldable pub search_token : Search → Token → ℕ → Run (Flow Search (Option R))
    unfolding enter update_cells
    search_token s (start_node name) offset =
        if same_bytes name s.looking_for
        then returned (enter s offset)
        else (skip_node o dt offset >>= λ behind. returned (continue s behind))
    search_token s close_node offset = returned (break none offset)
    search_token s (property name bytes) offset =
        update_cells o name bytes (λ v. record s { current_address_cells = some v })
          (λ v. record s { current_size_cells = some v }) s
        >>= λ t. returned (continue t offset)

    unfoldable pub search : List ℕ → Run (Option R)
    unfolding search_token
    search path =
        for_tokens o dt search_token (λ s. none) (enough o dt)
          (record {
            looking_for = (split_path path).0;
            segments = (split_path path).1;
            current_address_cells = none;
            current_size_cells = none;
          })
          0
        >>= λ r. returned (r.0)

  unfoldable pub iter_node_properties : List ℕ → Run (Option NodePropertyIter)
  unfolding search
  iter_node_properties path = search properties_at path

  unfoldable pub iter_nodes_named : List ℕ → List ℕ → Run (Option NodesNamedIter)
  unfolding search
  iter_nodes_named path node_name = search (nodes_at node_name) path

  -- `.find(|(name, _)| *name == property_name)`, and the value of what it finds
  unfoldable pub choose :
      List ℕ
      → (NodePropertyIter → Run (Option Value))
      → Option (List ℕ × Value) × NodePropertyIter
      → Run (Option Value)
  choose property_name again (none, it) = returned none
  choose property_name again (some (name, value), it) =
      let rest = again it in if same_bytes name property_name then returned (some value) else rest

  unfoldable pub find_named : List ℕ → ℕ → NodePropertyIter → Run (Option Value)
  unfolding choose
  find_named property_name zero it = out_of_fuel
  find_named property_name (suc fuel) it =
      next_property it >>= choose property_name (find_named property_name fuel)

  -- The first property of the name in a node that was found
  unfoldable pub find_in : Option NodePropertyIter → List ℕ → Run (Option Value)
  unfolding find_named
  find_in none property_name = returned none
  find_in (some it) property_name = find_named property_name (enough o dt) it

  -- Behind the position of the last slash, counted from the end of the path
  unfoldable pub find_split : List ℕ → Option ℕ → Run (Option Value)
  unfolding iter_node_properties find_in
  find_split path none = returned none
  find_split path (some split) = iter_node_properties (take (length path - split) path) >>= λ node.
      find_in node (drop (length path - split) path)

  unfoldable pub find_property : List ℕ → Run (Option Value)
  unfolding find_split
  find_property path = find_split path (position b'/' (reverse path))

  -- One token of `NodesNamedIter::next`; a node that is skipped leaves the depth as it was. The end of
  -- a node at depth 0, which only a call after the last one can meet, is an underflow.
  unfoldable pub node_token :
      List ℕ → Level → Token → ℕ → Run (Flow Level (Option NodeItem × Level))
  unfolding split_node_name update_cells
  node_token node_name s (start_node full_name) offset = skip_node o dt offset >>= λ behind.
      let item : NodeItem = record {
        unit_address = (split_node_name full_name).1;
        properties = properties_at offset s.parent_address_cells s.parent_size_cells;
      } in
      let left : Level = record s { depth = s.depth + 1 - 1 } in
      if same_bytes ((split_node_name full_name).0) node_name
      then returned (break (some item, left) behind)
      else returned (continue left behind)
  node_token node_name s close_node offset =
      let left : Level = record s { depth = s.depth - 1 } in
      if s.depth == 0
      then panics
      else if s.depth - 1 == 0
      then returned (break (none, left) offset)
      else returned (continue left offset)
  node_token node_name s (property name bytes) offset =
      update_cells o name bytes (λ v. record s { parent_address_cells = v })
        (λ v. record s { parent_size_cells = v }) s
      >>= λ t. returned (continue t offset)

  unfoldable pub next_node : NodesNamedIter → Run (Option NodeItem × NodesNamedIter)
  unfolding node_token
  next_node it =
      for_tokens o dt (node_token it.node_name) (λ s. (none, s)) (enough o dt)
        (record {
          depth = it.depth;
          parent_address_cells = it.parent_address_cells;
          parent_size_cells = it.parent_size_cells;
        })
        it.current_offset
      >>= λ r. returned (
        r.0.0,
        record {
          current_offset = r.1;
          depth = r.0.1.depth;
          node_name = it.node_name;
          parent_address_cells = r.0.1.parent_address_cells;
          parent_size_cells = r.0.1.parent_size_cells;
        },
      )
