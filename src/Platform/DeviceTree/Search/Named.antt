-- ===== src/Platform/DeviceTree/Search/Named.antt =====
-- `iter_nodes_named` and `NodesNamedIter`: the children of a node that have a name.
use endless_hole.Base.{ℕ, zero, suc, ◌<◌, arith, ◌≡◌, refl, ◌∙◌}
use endless_hole.Base.{List, [], ◌∷◌, ◌++◌, length, Option, some, none, true, false, inl, inr}
use endless_hole.Base.{Bool-cases, if◌then◌else◌}
use endless_hole.Platform.DeviceTree.Bytes.{
  Run, returned, panics, out_of_fuel, ◌>>=◌, ByteOrder, IsBigEndian, Run-cases, same_bytes, text,
}
use endless_hole.Platform.DeviceTree.Fdt.{DeviceTree, Token, start_node, close_node}
use endless_hole.Platform.DeviceTree.Tokens.{next, follow}
use endless_hole.Platform.DeviceTree.Tokens.Yields.{Yields, YieldsAll, Yields-append}
use endless_hole.Platform.DeviceTree.Tokens.Steps.{loop, loop-some}
use endless_hole.Platform.DeviceTree.Values.{whole_word}
use endless_hole.Platform.DeviceTree.Search.{
  NodeItem, NodesNamedIter, Level, properties_at, nodes_at, node_token, next_node, update_cells,
  unwrap_or, iter_nodes_named, split_path,
}
use endless_hole.Platform.DeviceTree.Search.Ends.{node_token-KeepsOn}
use endless_hole.Platform.DeviceTree.Search.Nodes.{
  Properties, Nodes, leaf, branch, tokens, property_tokens, contents, Cells, cells_after, Node,
  find_node,
}
use endless_hole.Platform.DeviceTree.Search.Names.{name_of, unit_of, split_node_name_lem}
use endless_hole.Platform.DeviceTree.Search.Skips.{skip_node-contents}
use endless_hole.Platform.DeviceTree.Search.Finds.{split_closed, search-Answers}

-- The level of the children of a node, under its cells
abbrev level : Cells → Level
level cells = record {
  depth = 1;
  parent_address_cells = unwrap_or cells.address 2;
  parent_size_cells = unwrap_or cells.size 1;
}

update_cells-level :
    (o : ByteOrder) (cells : Cells) (name bytes : List ℕ)
    → update_cells o name bytes
        (λ v. record (level cells) { parent_address_cells = v })
        (λ v. record (level cells) { parent_size_cells = v })
        (level cells)
      ≡ (update_cells o name bytes
            (λ v. record cells { address = some v })
            (λ v. record cells { size = some v })
            cells
          >>= λ c. returned (level c))
unfolding update_cells
update_cells-level o cells name bytes =
    elim (Bool-cases (same_bytes name (text "#address-cells"))) [
      | inl e ↦ rw e (word (whole_word o bytes) (λ v. record cells { address = some v }))
      | inr e ↦ elim (Bool-cases (same_bytes name (text "#size-cells"))) [
        | inl f ↦ rw (e, f) (word (whole_word o bytes) (λ v. record cells { size = some v }))
        | inr f ↦ rw (e, f) refl
      ]
    ]
  where
    word :
        (r : Run ℕ) (f : ℕ → Cells)
        → (r >>= λ v. returned (level (f v)))
          ≡ ((r >>= λ v. returned (f v)) >>= λ c. returned (level c))
    word (returned v) f = refl
    word panics f = refl
    word out_of_fuel f = refl

module _ (o : ByteOrder) (dt : DeviceTree) (big : IsBigEndian o) (node_name : List ℕ) where
  abbrev running : Level → ℕ → Run ((Option NodeItem × Level) × ℕ)
  running s at = loop o dt big (node_token o dt node_name) (λ s. (none, s)) s at

  step :
      (s : Level) (at : ℕ) {t : Token} {mid : ℕ}
      → next o dt at ≡ returned (some t, mid)
      → running s at ≡ (
          node_token o dt node_name s t mid
          >>= follow o dt (node_token o dt node_name) (λ s. (none, s)) running)
  step s at e =
      loop-some o dt big (node_token o dt node_name) (λ s. (none, s))
        (node_token-KeepsOn o dt big node_name) s at e

  -- The properties of the node come first, and set the cells of its children.
  over_properties :
      (properties : Properties) (cells : Cells) (at off : ℕ)
      → Yields o dt at (property_tokens properties) off
      → running (level cells) at ≡ (cells_after o cells properties >>= λ c. running (level c) off)
  unfolding cells_after node_token follow
  over_properties [] cells at off y = rw y refl
  over_properties ((name, bytes) ∷ properties) cells at off (mid, e, y) =
      step (level cells) at e
      ∙ rw (update_cells-level o cells name bytes)
          (elim (Run-cases (
            update_cells o name bytes (λ v. record cells { address = some v })
              (λ v. record cells { size = some v }) cells)) [
                | inl (c, p) ↦ rw p (over_properties properties c mid off y)
                | inr (inl p) ↦ rw p refl
                | inr (inr p) ↦ rw p refl
              ])

  -- One child, with another name or with the name
  pass_by :
      (name : List ℕ) (cells : Cells) (properties : Properties) (children : Nodes)
      (at inside behind : ℕ)
      → next o dt at ≡ returned (some (start_node name), inside)
      → Yields o dt inside (contents properties children) behind
      → same_bytes (name_of name) node_name ≡ false
      → running (level cells) at ≡ running (level cells) behind
  unfolding node_token follow
  pass_by name cells properties children at inside behind e y other =
      step (level cells) at e
      ∙ rw
          (
            skip_node-contents o dt properties children inside behind big y,
            split_node_name_lem name,
            other,
          )
          refl

  take_up :
      (name : List ℕ) (cells : Cells) (properties : Properties) (children : Nodes)
      (at inside behind : ℕ)
      → next o dt at ≡ returned (some (start_node name), inside)
      → Yields o dt inside (contents properties children) behind
      → same_bytes (name_of name) node_name ≡ true
      → running (level cells) at
        ≡ returned (
          (
            some (record {
              unit_address = unit_of name;
              properties =
                  properties_at inside (unwrap_or cells.address 2) (unwrap_or cells.size 1);
            }),
            level cells,
          ),
          behind,
        )
  unfolding node_token follow
  take_up name cells properties children at inside behind e y same =
      step (level cells) at e
      ∙ rw
          (
            skip_node-contents o dt properties children inside behind big y,
            split_node_name_lem name,
            same,
          )
          refl

  abbrev iter : Cells → ℕ → NodesNamedIter
  iter cells at = nodes_at node_name at (unwrap_or cells.address 2) (unwrap_or cells.size 1)

  next_node_same :
      (c c' : Cells) (at at' : ℕ)
      → running (level c) at ≡ running (level c') at'
      → next_node o dt (iter c at) ≡ next_node o dt (iter c' at')
  unfolding next_node
  next_node_same c c' at at' e = rw e refl

  next_node-some :
      (c : Cells) (at behind : ℕ) (item : NodeItem)
      → running (level c) at ≡ returned ((some item, level c), behind)
      → next_node o dt (iter c at) ≡ returned (some item, iter c behind)
  unfolding next_node
  next_node-some c at behind item e = rw e refl

  next_node-none :
      (c : Cells) (at off : ℕ)
      → next o dt at ≡ returned (some close_node, off)
      → next_node o dt (iter c at) ≡ returned (none, record (iter c off) { depth = 0 })
  unfolding next_node
  next_node-none c at off e = rw (step (level c) at e) (unfold node_token follow in refl)

-- The nodes of a name: what stands behind the `@` of each, its properties and its children
pub record NamedNode : Type 0 where
  pub unit_address : Option (List ℕ)
  pub properties : Properties
  pub children : Nodes

unfoldable pub named : List ℕ → Nodes → List NamedNode
named node_name leaf = []
named node_name (branch name properties children siblings) =
    let others = named node_name siblings in
    let node : NamedNode = record {
      unit_address = unit_of name;
      properties = properties;
      children = children;
    } in
    if same_bytes (name_of name) node_name then node ∷ others else others

abbrev pub collect_rest :
    (NodesNamedIter → Run (List NodeItem)) → Option NodeItem × NodesNamedIter → Run (List NodeItem)
collect_rest again (none, it) = returned []
collect_rest again (some item, it) = again it >>= λ items. returned (item ∷ items)

-- All that the iterator yields before `none`; it is called `fuel` times at most.
unfoldable pub collect_nodes : ByteOrder → DeviceTree → ℕ → NodesNamedIter → Run (List NodeItem)
collect_nodes o dt zero it = out_of_fuel
collect_nodes o dt (suc fuel) it = next_node o dt it >>= collect_rest (collect_nodes o dt fuel)

first_call :
    (o : ByteOrder) (dt : DeviceTree) (big : IsBigEndian o) (node_name : List ℕ) (c c' : Cells)
    (at at' fuel : ℕ)
    → running o dt big node_name (level c) at ≡ running o dt big node_name (level c') at'
    → collect_nodes o dt (suc fuel) (iter o dt big node_name c at)
      ≡ collect_nodes o dt (suc fuel) (iter o dt big node_name c' at')
unfolding collect_nodes
first_call o dt big node_name c c' at at' fuel e =
    rw (next_node_same o dt big node_name c c' at at' e) refl

-- An item for each node, with its unit address, and an iterator that stands in front of the node's
-- contents, under the cells of the parent
abbrev pub Items : ByteOrder → DeviceTree → Cells → List NodeItem → List NamedNode → Type 0
Items o dt cells [] [] = Unit
Items o dt cells [] (node ∷ nodes) = ⊥
Items o dt cells (item ∷ items) [] = ⊥
Items o dt cells (item ∷ items) (node ∷ nodes) =
    (item.unit_address ≡ node.unit_address)
    × ((at : ℕ) × (off : ℕ) × (item.properties
          ≡ properties_at at (unwrap_or cells.address 2) (unwrap_or cells.size 1))
        × Yields o dt at (contents node.properties node.children) off)
    × Items o dt cells items nodes

collect_children :
    (o : ByteOrder) (dt : DeviceTree) (big : IsBigEndian o) (node_name : List ℕ) (nodes : Nodes)
    (cells : Cells) (at off fuel : ℕ)
    → Yields o dt at (tokens nodes ++ (close_node ∷ [])) off
    → length (named node_name nodes) < fuel
    → (items : List NodeItem) × (collect_nodes o dt fuel (iter o dt big node_name cells at)
        ≡ returned items)
      × Items o dt cells items (named node_name nodes)
unfolding collect_nodes named
collect_children o dt big node_name nodes cells at off zero y lt = absurd (omega arith)
collect_children o dt big node_name leaf cells at off (suc fuel) (mid, e, y) lt =
    ([], rw (next_node-none o dt big node_name cells at mid e) refl, tt)
collect_children o dt big node_name (branch name properties children siblings) cells at off
      (suc fuel) (inside, e, y) lt =
    let (behind, yn, ys) = split_closed o dt properties children siblings inside off y in
    elim (Bool-cases (same_bytes (name_of name) node_name)) [
      | inl same ↦
          let item : NodeItem = record {
            unit_address = unit_of name;
            properties = properties_at inside (unwrap_or cells.address 2) (unwrap_or cells.size 1);
          } in
          let lt' : suc (length (named node_name siblings)) < suc fuel = rw same at lt in
          let here = next_node-some o dt big node_name cells at behind item (
            take_up o dt big node_name name cells properties children at inside behind e yn same) in
          let (items, run, rest) =
            collect_children o dt big node_name siblings cells behind off fuel ys (omega arith) in
          rw same (item ∷ items, rw (here, run) refl, (refl, (inside, behind, refl, yn), rest))
      | inr other ↦
          let here = next_node_same o dt big node_name cells cells at behind (
            pass_by o dt big node_name name cells properties children at inside behind e yn
              other) in
          let (items, run, rest) =
            collect_children o dt big node_name siblings cells behind off (suc fuel) ys
              (rw other at lt) in
          rw (other, here) (items, run, rest)
    ]

-- A tree whose structure yields the tokens of `nodes` and then ends, and the first node at a path,
-- the cells of whose properties can be read: `iter_nodes_named` gives an iterator that yields, in
-- order, the children of that node whose name before the `@` is the given one, and no others, not the
-- children of children either: each with what stands behind its `@`, and with an iterator over its
-- properties under the cells of its parent; and then it ends.
pub iter_nodes_named-Items :
    (o : ByteOrder) (dt : DeviceTree) (nodes : Nodes) (path node_name : List ℕ) (node : Node)
    (cells : Cells)
    → IsBigEndian o
    → YieldsAll o dt 0 (tokens nodes)
    → find_node o
        (split_path path).0
        (split_path path).1
        (record { address = none; size = none })
        nodes
      ≡ returned (some node)
    → cells_after o node.cells node.properties ≡ returned cells
    → (it : NodesNamedIter) × (items : List NodeItem) × (iter_nodes_named o dt path node_name
        ≡ returned (some it))
      × (collect_nodes o dt (suc (length (named node_name node.children))) it ≡ returned items)
      × Items o dt cells items (named node_name node.children)
unfolding iter_nodes_named
iter_nodes_named-Items o dt nodes path node_name node cells big y e after =
    let (at, off, run, contents_yield) =
      rw e at (search-Answers o dt big (nodes_at node_name) nodes path y) in
    let (p, yp, yc) =
      Yields-append o dt (property_tokens node.properties) _ at off contents_yield in
    let first : running o dt big node_name (level node.cells) at
        ≡ running o dt big node_name (level cells) p =
      over_properties o dt big node_name node.properties node.cells at p yp ∙ rw after refl in
    let (items, collected, matched) =
      collect_children o dt big node_name node.children cells p off _ yc (omega arith) in
    (
      iter o dt big node_name node.cells at,
      items,
      run,
      first_call o dt big node_name node.cells cells at p _ first ∙ collected,
      matched,
    )
