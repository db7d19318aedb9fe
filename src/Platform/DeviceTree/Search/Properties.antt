-- ===== src/Platform/DeviceTree/Search/Properties.antt =====
-- `NodePropertyIter` on a node: its own properties, and none of its children.
use endless_hole.Base.{ℕ, zero, suc, ◌+◌, ◌-◌, ◌≤◌, ◌<◌, arith, ◌≡◌, refl, ◌∙◌, ◌==◌}
use endless_hole.Base.{List, [], ◌∷◌, ◌++◌, length, Option, some, none, false, inl, inr}
use endless_hole.Platform.DeviceTree.Bytes.{
  Run, returned, out_of_fuel, ◌>>=◌, ByteOrder, IsBigEndian, Run-cases,
}
use endless_hole.Platform.DeviceTree.Fdt.{DeviceTree, Token, close_node, property}
use endless_hole.Platform.DeviceTree.Tokens.{next, follow, enough}
use endless_hole.Platform.DeviceTree.Tokens.Total.{next-le}
use endless_hole.Platform.DeviceTree.Tokens.Yields.{Yields, Yields-append}
use endless_hole.Platform.DeviceTree.Tokens.Steps.{loop, loop-some}
use endless_hole.Platform.DeviceTree.Values.{Value, parse}
use endless_hole.Platform.DeviceTree.Search.{
  NodePropertyIter, properties_at, property_token, next_property, choose, find_named, find_in,
}
use endless_hole.Platform.DeviceTree.Search.Ends.{property_token-KeepsOn}
use endless_hole.Platform.DeviceTree.Search.Nodes.{
  Properties, Nodes, tokens, contents, parse_all, find_value,
}
use endless_hole.Platform.DeviceTree.Search.Skips.{Counts, over_nodes}

module _ (o : ByteOrder) (dt : DeviceTree) (big : IsBigEndian o) (a s : ℕ) where
  property_token-Counts : Counts (property_token o dt a s)
  unfolding property_token
  property_token-Counts = record {
    opens = λ depth name at. refl;
    closes = λ depth at le.
        let more : (depth + 1 - 1 == 0) ≡ false = ground arith in
        let back : depth + 1 - 1 ≡ depth = omega arith in rw (more, back) refl;
    passes = λ depth name bytes at le.
        let deeper : (depth == 1) ≡ false = ground arith in rw deeper refl;
  }

  abbrev seeking : ℕ → ℕ → Run ((Option (List ℕ × Value) × ℕ) × ℕ)
  seeking depth at = loop o dt big (property_token o dt a s) (λ depth. (none, depth)) depth at

  -- In front of a property of the node
  seeking_property :
      (name bytes : List ℕ) (at mid : ℕ)
      → next o dt at ≡ returned (some (property name bytes), mid)
      → seeking 1 at ≡ (parse o name bytes a s >>= λ v. returned ((some (name, v), 1), mid))
  unfolding property_token follow
  seeking_property name bytes at mid e =
      loop-some o dt big (property_token o dt a s) (λ depth. (none, depth))
        (property_token-KeepsOn o dt big a s) 1 at e
      ∙ elim (Run-cases (parse o name bytes a s)) [
        | inl (v, p) ↦ rw p refl
        | inr (inl p) ↦ rw p refl
        | inr (inr p) ↦ rw p refl
      ]

  -- In front of the children
  seeking_end :
      (children : Nodes) (at off : ℕ)
      → Yields o dt at (tokens children ++ (close_node ∷ [])) off
      → seeking 1 at ≡ returned ((none, 0), off)
  seeking_end children at off y =
      let (c, yc, (q, e, last)) = Yields-append o dt (tokens children) _ at off y in
      over_nodes o dt big (property_token o dt a s) (λ depth. (none, depth))
        (property_token-KeepsOn o dt big a s) property_token-Counts children 1 at c (omega arith) yc
      ∙ loop-some o dt big (property_token o dt a s) (λ depth. (none, depth))
          (property_token-KeepsOn o dt big a s) 1 c e
      ∙ (unfold property_token follow in rw last refl)

  abbrev left_at : ℕ → NodePropertyIter
  left_at off = record {
    current_offset = off;
    depth = 0;
    parent_address_cells = a;
    parent_size_cells = s;
  }

  pub next_property-some :
      (name bytes : List ℕ) (at mid : ℕ)
      → next o dt at ≡ returned (some (property name bytes), mid)
      → next_property o dt (properties_at at a s)
        ≡ (parse o name bytes a s >>= λ v. returned (some (name, v), properties_at mid a s))
  unfolding next_property
  next_property-some name bytes at mid e =
      rw (seeking_property name bytes at mid e) (elim (Run-cases (parse o name bytes a s)) [
        | inl (v, p) ↦ rw p refl
        | inr (inl p) ↦ rw p refl
        | inr (inr p) ↦ rw p refl
      ])

  pub next_property-none :
      (children : Nodes) (at off : ℕ)
      → Yields o dt at (tokens children ++ (close_node ∷ [])) off
      → next_property o dt (properties_at at a s) ≡ returned (none, left_at off)
  unfolding next_property
  next_property-none children at off y = rw (seeking_end children at off y) refl

-- All that the iterator yields before `none`; it is called `fuel` times at most.
unfoldable pub collect_properties :
    ByteOrder → DeviceTree → ℕ → NodePropertyIter → Run (List (List ℕ × Value))
collect_properties o dt zero it = out_of_fuel
collect_properties o dt (suc fuel) it =
    next_property o dt it >>= collected (collect_properties o dt fuel)
  where
    collected :
        (NodePropertyIter → Run (List (List ℕ × Value)))
        → Option (List ℕ × Value) × NodePropertyIter
        → Run (List (List ℕ × Value))
    collected again (none, it) = returned []
    collected again (some item, it) = again it >>= λ items. returned (item ∷ items)

-- On a node whose tokens an iterator is about to yield, `NodePropertyIter` yields the properties of
-- that node in order, with the values parsed under the cells that it was given, and none of the
-- properties of its children; and then it ends. Where the value of a property panics, so does the
-- run up to it.
pub collect_properties-parse_all :
    (o : ByteOrder) (dt : DeviceTree) (properties : Properties) (children : Nodes)
    (a s at off fuel : ℕ)
    → IsBigEndian o
    → Yields o dt at (contents properties children) off
    → length properties < fuel
    → collect_properties o dt fuel (properties_at at a s) ≡ parse_all o a s properties
unfolding collect_properties parse_all
collect_properties-parse_all o dt properties children a s at off zero big y lt =
    absurd (omega arith)
collect_properties-parse_all o dt [] children a s at off (suc fuel) big y lt =
    rw (next_property-none o dt big a s children at off y) refl
collect_properties-parse_all o dt ((name, bytes) ∷ properties) children a s at off (suc fuel) big
      (mid, e, y) lt =
    let rest =
      collect_properties-parse_all o dt properties children a s mid off fuel big y (omega arith) in
    rw (next_property-some o dt big a s name bytes at mid e)
      (elim (Run-cases (parse o name bytes a s)) [
        | inl (v, p) ↦ rw (p, rest) refl
        | inr (inl p) ↦ rw p refl
        | inr (inr p) ↦ rw p refl
      ])

pub find_named-find_value :
    (o : ByteOrder) (dt : DeviceTree) (property_name : List ℕ) (properties : Properties)
    (children : Nodes) (a s at off fuel : ℕ)
    → IsBigEndian o
    → Yields o dt at (contents properties children) off
    → length properties < fuel
    → find_named o dt property_name fuel (properties_at at a s)
      ≡ find_value o property_name a s properties
unfolding find_named choose find_value
find_named-find_value o dt property_name properties children a s at off zero big y lt =
    absurd (omega arith)
find_named-find_value o dt property_name [] children a s at off (suc fuel) big y lt =
    rw (next_property-none o dt big a s children at off y) refl
find_named-find_value o dt property_name ((name, bytes) ∷ properties) children a s at off (suc fuel)
      big (mid, e, y) lt =
    let rest =
      find_named-find_value o dt property_name properties children a s mid off fuel big y
        (omega arith) in
    rw (next_property-some o dt big a s name bytes at mid e)
      (elim (Run-cases (parse o name bytes a s)) [
        | inl (v, p) ↦ rw (p, rest) refl
        | inr (inl p) ↦ rw p refl
        | inr (inr p) ↦ rw p refl
      ])

Yields-le :
    (o : ByteOrder) (dt : DeviceTree)
    → IsBigEndian o
    → (ts : List Token) (at off : ℕ) → Yields o dt at ts off
    → at ≤ off
Yields-le o dt big [] at off y = omega arith
Yields-le o dt big (t ∷ ts) at off (mid, e, y) =
    let (inside, moved) = next-le o dt big at e in omega (arith, Yields-le o dt big ts mid off y)

-- Properties take their bytes of the structure.
pub length-properties :
    (o : ByteOrder) (dt : DeviceTree) (properties : Properties) (children : Nodes) (at off : ℕ)
    → IsBigEndian o
    → Yields o dt at (contents properties children) off
    → at + length properties ≤ length dt.structure
length-properties o dt [] children at off big y =
    let (c, yc, (q, e, last)) = Yields-append o dt (tokens children) _ at off y in
    let (inside, _) = next-le o dt big c e in
    omega (arith, Yields-le o dt big (tokens children) at c yc)
length-properties o dt ((name, bytes) ∷ properties) children at off big (mid, e, y) =
    let (inside, moved) = next-le o dt big at e in
    omega (arith, length-properties o dt properties children mid off big y)

-- `find_in` has the fuel for the properties of a node.
pub find_in-find_value :
    (o : ByteOrder) (dt : DeviceTree) (property_name : List ℕ) (properties : Properties)
    (children : Nodes) (a s at off : ℕ)
    → IsBigEndian o
    → Yields o dt at (contents properties children) off
    → find_in o dt (some (properties_at at a s)) property_name
      ≡ find_value o property_name a s properties
unfolding find_in
find_in-find_value o dt property_name properties children a s at off big y =
    find_named-find_value o dt property_name properties children a s at off (enough o dt) big y
      (omega (arith, length-properties o dt properties children at off big y))
