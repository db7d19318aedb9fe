-- ===== src/Platform/DeviceTree/Search/Nodes.antt =====
-- The tree that a structure stands for, the tokens of it, and what a search is to find in it.
use endless_hole.Base.{ℕ, List, [], ◌∷◌, ◌++◌, Option, none, some, if◌then◌else◌}
use endless_hole.Platform.DeviceTree.Bytes.{Run, returned, ◌>>=◌, ByteOrder, same_bytes}
use endless_hole.Platform.DeviceTree.Fdt.{Token, start_node, close_node, property}
use endless_hole.Platform.DeviceTree.Values.{Value, parse}
use endless_hole.Platform.DeviceTree.Search.{update_cells}

abbrev pub Properties : Type 0
Properties = List (List ℕ × List ℕ)

-- The nodes of one parent, in order: each with its name, its properties and its children
pub data Nodes : Type 0 where
  leaf : Nodes
  branch : (name : List ℕ) (properties : Properties) (children siblings : Nodes) → Nodes

abbrev pub property_tokens : Properties → List Token
property_tokens [] = []
property_tokens ((name, bytes) ∷ properties) = property name bytes ∷ property_tokens properties

-- A node has its properties before its children, as the specification demands.
abbrev pub tokens : Nodes → List Token
tokens leaf = []
tokens (branch name properties children siblings) =
    start_node name
    ∷ (property_tokens properties ++ (tokens children ++ (close_node ∷ tokens siblings)))

-- What stands behind the first token of a node, to its last
abbrev pub contents : Properties → Nodes → List Token
contents properties children = property_tokens properties ++ (tokens children ++ (close_node ∷ []))

pub record Cells : Type 0 where
  pub address : Option ℕ
  pub size : Option ℕ

pub record Node : Type 0 where
  pub properties : Properties
  pub children : Nodes
  pub cells : Cells

module _ (o : ByteOrder) where
  -- The cells that hold for the children of a node with these properties
  unfoldable pub cells_after : Cells → Properties → Run Cells
  cells_after cells [] = returned cells
  cells_after cells ((name, bytes) ∷ properties) =
      update_cells o name bytes (λ v. record cells { address = some v })
        (λ v. record cells { size = some v }) cells
      >>= λ c. cells_after c properties

  -- The node at the end of a path: the first of each name on the way. The cells that hold for it are
  -- those of its parent, and where the parent has none, those of the nearest ancestor that has.
  unfoldable pub find_node : List ℕ → List (List ℕ) → Cells → Nodes → Run (Option Node)
  find_node looking_for segments cells leaf = returned none
  find_node looking_for segments cells (branch name properties children siblings) =
      let others = find_node looking_for segments cells siblings in
      let here : Run (Option Node) = elim segments [
        | [] ↦
            returned (some (record { properties = properties; children = children; cells = cells }))
        | [] ∷ rest ↦
            returned (some (record { properties = properties; children = children; cells = cells }))
        | (b ∷ segment) ∷ rest ↦
            cells_after cells properties >>= λ c. find_node (b ∷ segment) rest c children
      ] in
      if same_bytes name looking_for then here else others

  -- The values of properties by their names, and the value of the first that has a name; a value
  -- that is too short for its type panics.
  unfoldable pub parse_all :
      (address_cells size_cells : ℕ) → Properties → Run (List (List ℕ × Value))
  parse_all address_cells size_cells [] = returned []
  parse_all address_cells size_cells ((name, bytes) ∷ properties) = do
    value ← parse o name bytes address_cells size_cells
    values ← parse_all address_cells size_cells properties
    returned ((name, value) ∷ values)

  unfoldable pub find_value :
      List ℕ → (address_cells size_cells : ℕ) → Properties → Run (Option Value)
  find_value property_name address_cells size_cells [] = returned none
  find_value property_name address_cells size_cells ((name, bytes) ∷ properties) =
      parse o name bytes address_cells size_cells >>= λ value.
      let rest = find_value property_name address_cells size_cells properties in
      if same_bytes name property_name then returned (some value) else rest
