-- ===== src/Platform/Cpu/Cores/Lists.antt =====
-- `list_cores` on the tree of a structure.
use endless_hole.Base.{
  ℕ, zero, suc, ◌+◌, ◌<◌, ◌≤◌, arith, ◌≡◌, refl, fun_ext, inl, inr, Bool-cases, Option, none, some,
  List, [], ◌∷◌, ◌++◌, length, length-append,
}
use endless_hole.Platform.DeviceTree.Bytes.{
  Run, returned, ◌>>=◌, ByteOrder, IsBigEndian, Run-cases, same_bytes, text, >>=-eq-returned,
  returned-injective,
}
use endless_hole.Platform.DeviceTree.Fdt.{DeviceTree, Token, close_node}
use endless_hole.Platform.DeviceTree.Tokens.{enough}
use endless_hole.Platform.DeviceTree.Tokens.Total.{next-le}
use endless_hole.Platform.DeviceTree.Tokens.Yields.{Yields, YieldsAll, Yields-append}
use endless_hole.Platform.DeviceTree.Values.{Value, parse}
use endless_hole.Platform.DeviceTree.Values.Typed.{OwnedParseError, owned_node_not_found, to_owned}
use endless_hole.Platform.DeviceTree.Search.{
  properties_at, next_node, iter_nodes_named, nodes_at, split_path, unwrap_or, NodeItem,
  NodesNamedIter,
}
use endless_hole.Platform.DeviceTree.Search.Names.{name_of}
use endless_hole.Platform.DeviceTree.Search.Nodes.{
  Properties, Nodes, leaf, branch, Node, Cells, property_tokens, tokens, contents, find_node,
  cells_after,
}
use endless_hole.Platform.DeviceTree.Search.Finds.{search-Answers}
use endless_hole.Platform.DeviceTree.Search.Properties.{
  next_property-some, next_property-none, length-properties,
}
use endless_hole.Platform.DeviceTree.Search.Named.{
  NamedNode, named, collect_nodes, collect_rest, Items, iter_nodes_named-Items,
}
use endless_hole.Platform.Cpu.{Result, ok, err, CoreInfo}
use endless_hole.Platform.Cpu.Cores.{
  Found, core_property, carry_on, core_properties, core_of, push_core, nothing_found, core_at,
  cores_from, list_from, list_cores,
}
use Prim.Native.String.{String}

module _ (o : ByteOrder) (dt : DeviceTree) (lossy : List ℕ → String) (format : Value → String) where
  -- The loop over the properties of a node, in the tree
  unfoldable pub found_in : (a s : ℕ) → Properties → Found → Run (Result Found OwnedParseError)
  found_in a s [] found = returned (ok found)
  found_in a s ((name, bytes) ∷ properties) found =
      let rest : Found → Run (Result Found OwnedParseError) = found_in a s properties in
      parse o name bytes a s >>= λ value.
      core_property o dt lossy format name value found >>= carry_on o dt lossy format rest

  -- A core for each node
  unfoldable pub cores_in :
      (a s : ℕ) → List NamedNode → Run (Result (List CoreInfo) OwnedParseError)
  cores_in a s [] = returned (ok [])
  cores_in a s (node ∷ nodes) =
      (found_in a s node.properties nothing_found >>= λ r. returned (core_of o dt lossy format r))
      >>= push_core o dt lossy format (cores_in a s nodes)

  module _ (big : IsBigEndian o) where
    core_properties-found_in :
        (properties : Properties) (children : Nodes) (a s at off fuel : ℕ)
        → Yields o dt at (contents properties children) off
        → length properties < fuel
        → (found : Found)
        → core_properties o dt lossy format fuel (properties_at at a s) found
          ≡ found_in a s properties found
    unfolding core_properties found_in
    core_properties-found_in properties children a s at off zero y lt found = absurd (omega arith)
    core_properties-found_in [] children a s at off (suc fuel) y lt found =
        rw (next_property-none o dt big a s children at off y) refl
    core_properties-found_in ((name, bytes) ∷ properties) children a s at off (suc fuel) (mid, e, y)
          lt found =
        let rest : core_properties o dt lossy format fuel (properties_at mid a s)
            ≡ found_in a s properties =
          fun_ext (core_properties-found_in properties children a s mid off fuel y (omega arith)) in
        rw (next_property-some o dt big a s name bytes at mid e)
          (elim (Run-cases (parse o name bytes a s)) [
            | inl (v, p) ↦ rw (p, rest) refl
            | inr (inl p) ↦ rw p refl
            | inr (inr p) ↦ rw p refl
          ])

    -- On enough fuel, the loop over the nodes goes through the items.
    unfoldable cores_of : List NodeItem → Run (Result (List CoreInfo) OwnedParseError)
    cores_of [] = returned (ok [])
    cores_of (item ∷ items) =
        core_at o dt lossy format item >>= push_core o dt lossy format (cores_of items)

    cores_from-cores_of :
        (fuel fuel' : ℕ) (it : NodesNamedIter) (items : List NodeItem)
        → fuel ≤ fuel'
        → collect_nodes o dt fuel it ≡ returned items
        → cores_from o dt lossy format fuel' it ≡ cores_of items
    unfolding cores_from cores_of collect_nodes
    cores_from-cores_of zero fuel' it items le h = cc
    cores_from-cores_of (suc fuel) zero it items le h = absurd (omega arith)
    cores_from-cores_of (suc fuel) (suc fuel') it items le h =
        let ((found, behind), e, after) = >>=-eq-returned (next_node o dt it) h in
        step found behind items
          (λ behind others run. cores_from-cores_of fuel fuel' behind others (omega arith) run) e
          after
      where
        step :
            (found : Option NodeItem) (behind : NodesNamedIter) (items : List NodeItem)
            → ((behind : NodesNamedIter) (others : List NodeItem)
                → collect_nodes o dt fuel behind ≡ returned others
                → cores_from o dt lossy format fuel' behind ≡ cores_of others)
            → next_node o dt it ≡ returned (found, behind)
            → (◌>>=◌ (returned (found, behind)) (collect_rest (collect_nodes o dt fuel)))
              ≡ returned items
            → cores_from o dt lossy format (suc fuel') it ≡ cores_of items
        step none behind items again e after =
            let empty : [] ≡ items = returned-injective after in rw (e, ← empty) refl
        step (some item) behind items again e after =
            let (others, run, joined) = >>=-eq-returned (collect_nodes o dt fuel behind) after in
            let whole : item ∷ others ≡ items = returned-injective joined in
            let rest = again behind others run in rw (e, ← whole, rest) refl

    -- The items that an iterator yields for the nodes give the cores of the nodes.
    cores_of-cores_in :
        (cells : Cells) (items : List NodeItem) (nodes : List NamedNode)
        → Items o dt cells items nodes
        → cores_of items ≡ cores_in (unwrap_or cells.address 2) (unwrap_or cells.size 1) nodes
    unfolding cores_of cores_in core_at
    cores_of-cores_in cells [] [] h = refl
    cores_of-cores_in cells [] (node ∷ nodes) h = absurd h
    cores_of-cores_in cells (item ∷ items) [] h = absurd h
    cores_of-cores_in cells (item ∷ items) (node ∷ nodes) (unit, (at, off, stands, y), h) =
        let rest = cores_of-cores_in cells items nodes h in
        let fits : length node.properties < enough o dt =
          omega (arith, length-properties o dt node.properties node.children at off big y) in
        let found =
          core_properties-found_in node.properties node.children (unwrap_or cells.address 2)
            (unwrap_or cells.size 1) at off (enough o dt) y fits nothing_found in
        rw (stands, found, rest) refl

    -- Each token takes four bytes of the structure.
    length-tokens :
        (ts : List Token) (last : Token) (at off : ℕ)
        → Yields o dt at (ts ++ (last ∷ [])) off
        → at + length ts < length dt.structure
    length-tokens [] last at off (mid, e, y) =
        let (inside, moved) = next-le o dt big at e in omega arith
    length-tokens (t ∷ ts) last at off (mid, e, y) =
        let (inside, moved) = next-le o dt big at e in
        omega (arith, length-tokens ts last mid off y)

length-named :
    (node_name : List ℕ) (nodes : Nodes) → length (named node_name nodes) ≤ length (tokens nodes)
unfolding named
length-named node_name leaf = omega arith
length-named node_name (branch name properties children siblings) =
    let one : length (tokens (branch name properties children siblings))
        ≡ 1
          + (length (property_tokens properties)
              + (length (tokens children) + (1 + length (tokens siblings)))) =
      omega (
        arith,
        length-append (property_tokens properties)
            (tokens children ++ (close_node ∷ tokens siblings)),
        length-append (tokens children) (close_node ∷ tokens siblings),
      ) in
    elim (Bool-cases (same_bytes (name_of name) node_name)) [
      | inl same ↦ rw same (omega (arith, one, length-named node_name siblings))
      | inr other ↦ rw other (omega (arith, one, length-named node_name siblings))
    ]

-- A tree whose structure yields the tokens of `nodes` and then ends, and the first node at `/cpus`,
-- the cells of whose properties can be read: `list_cores` goes through the children of that node
-- whose name before the `@` is `cpu`, in order, and for each of them through its own properties, with
-- the cells that the properties of `/cpus` leave. It gives a core for each, or the error or the
-- panic of the first property or child that is not as it should be, and never runs out of fuel.
pub list_cores-cores_in :
    (o : ByteOrder) (dt : DeviceTree) (lossy : List ℕ → String) (format : Value → String)
    (nodes : Nodes) (node : Node) (cells : Cells)
    → IsBigEndian o
    → YieldsAll o dt 0 (tokens nodes)
    → find_node o
        (split_path (text "/cpus")).0
        (split_path (text "/cpus")).1
        (record { address = none; size = none })
        nodes
      ≡ returned (some node)
    → cells_after o node.cells node.properties ≡ returned cells
    → list_cores o dt lossy format
      ≡ cores_in o dt lossy format
          (unwrap_or cells.address 2)
          (unwrap_or cells.size 1)
          (named (text "cpu") node.children)
unfolding list_cores list_from
list_cores-cores_in o dt lossy format nodes node cells big y e after =
    let (at, off, run, contents_yield) =
      rw e at (search-Answers o dt big (nodes_at (text "cpu")) nodes (text "/cpus") y) in
    let (p, yp, yc) =
      Yields-append o dt (property_tokens node.properties) _ at off contents_yield in
    let fits : length (tokens node.children) < length dt.structure =
      omega
        (arith, length-tokens o dt lossy format big (tokens node.children) close_node p off yc) in
    let (it, items, found, collected, matched) =
      iter_nodes_named-Items o dt nodes (text "/cpus") (text "cpu") node cells big y e after in
    let cores =
      cores_from-cores_of o dt lossy format big _ (enough o dt) it items
        (omega (arith, length-named (text "cpu") node.children)) collected in
    rw (found, cores) (cores_of-cores_in o dt lossy format big cells items _ matched)

-- Without a node at `/cpus`, it gives the error.
pub list_cores-err :
    (o : ByteOrder) (dt : DeviceTree) (lossy : List ℕ → String) (format : Value → String)
    (nodes : Nodes)
    → IsBigEndian o
    → YieldsAll o dt 0 (tokens nodes)
    → find_node o
        (split_path (text "/cpus")).0
        (split_path (text "/cpus")).1
        (record { address = none; size = none })
        nodes
      ≡ returned none
    → list_cores o dt lossy format ≡ returned (err (owned_node_not_found "/cpus/cpu*"))
unfolding list_cores list_from iter_nodes_named to_owned
list_cores-err o dt lossy format nodes big y e =
    let lost = rw e at (search-Answers o dt big (nodes_at (text "cpu")) nodes (text "/cpus") y) in
    rw lost refl
