-- ===== src/Platform/DeviceTree/Search/Skips.antt =====
-- Loops that count the depth run over whole nodes and come back to the depth that they had; so
-- `skip_node` stops behind its node.
use endless_hole.Base.{ℕ, ◌+◌, ◌-◌, ◌≤◌, arith, ◌≡◌, refl, ◌∙◌, ◌==◌}
use endless_hole.Base.{List, [], ◌∷◌, some, false}
use endless_hole.Platform.DeviceTree.Bytes.{Run, returned, ByteOrder, IsBigEndian}
use endless_hole.Platform.DeviceTree.Fdt.{DeviceTree, Token, start_node, close_node, property}
use endless_hole.Platform.DeviceTree.Tokens.{skip_token, skip_node, follow, next, Flow, continue}
use endless_hole.Platform.DeviceTree.Tokens.Yields.{Yields, Yields-append}
use endless_hole.Platform.DeviceTree.Tokens.Loops.{KeepsOn, skip_token-KeepsOn}
use endless_hole.Platform.DeviceTree.Tokens.Steps.{loop, loop-some}
use endless_hole.Platform.DeviceTree.Search.Nodes.{
  Properties, Nodes, leaf, branch, tokens, property_tokens, contents,
}

-- A body that counts the depth, and lets the properties of deeper nodes pass
pub record Counts {R : Type 0} (body : ℕ → Token → ℕ → Run (Flow ℕ R)) : Type 0 where
  pub opens :
      (depth : ℕ) (name : List ℕ) (at : ℕ)
      → body depth (start_node name) at ≡ returned (continue (depth + 1) at)
  pub closes :
      (depth at : ℕ) → 1 ≤ depth → body (depth + 1) close_node at ≡ returned (continue depth at)
  pub passes :
      (depth : ℕ) (name bytes : List ℕ) (at : ℕ)
      → 2 ≤ depth
      → body depth (property name bytes) at ≡ returned (continue depth at)

module _ (o : ByteOrder) (dt : DeviceTree) (big : IsBigEndian o) where
  module _ {R : Type 0} (body : ℕ → Token → ℕ → Run (Flow ℕ R)) (after : ℕ → R)
      (keeps : KeepsOn o dt body after) (counts : Counts body) where
    abbrev counting : ℕ → ℕ → Run (R × ℕ)
    counting depth at = loop o dt big body after depth at

    -- The loop at a token on which it goes on
    pub loop_continue :
        (depth at : ℕ) {t : Token} {depth' mid : ℕ}
        → next o dt at ≡ returned (some t, mid)
        → body depth t mid ≡ returned (continue depth' mid)
        → counting depth at ≡ counting depth' mid
    unfolding follow
    loop_continue depth at e f = loop-some o dt big body after keeps depth at e ∙ rw f refl

    pub over_properties :
        (properties : Properties) (depth at off : ℕ)
        → ((name bytes : List ℕ) (at : ℕ)
            → body depth (property name bytes) at ≡ returned (continue depth at))
        → Yields o dt at (property_tokens properties) off
        → counting depth at ≡ counting depth off
    over_properties [] depth at off pass y = rw y refl
    over_properties ((name, bytes) ∷ properties) depth at off pass (mid, e, y) =
        loop_continue depth at e (pass name bytes mid)
        ∙ over_properties properties depth mid off pass y

    pub over_nodes :
        (nodes : Nodes) (depth at off : ℕ)
        → 1 ≤ depth
        → Yields o dt at (tokens nodes) off
        → counting depth at ≡ counting depth off
    over_nodes leaf depth at off le y = rw y refl
    over_nodes (branch name properties children siblings) depth at off le (mid, e, y) =
        let (p, yp, y) = Yields-append o dt (property_tokens properties) _ mid off y in
        let (c, yc, (q, e', ys)) = Yields-append o dt (tokens children) _ p off y in
        loop_continue depth at e (counts.opens depth name mid)
        ∙ over_properties properties (depth + 1) mid p
            (λ name bytes at. counts.passes (depth + 1) name bytes at (omega arith)) yp
        ∙ over_nodes children (depth + 1) p c (omega arith) yc
        ∙ loop_continue (depth + 1) c e' (counts.closes depth q le)
        ∙ over_nodes siblings depth q off le ys

  skip_token-Counts : Counts (skip_token o dt)
  unfolding skip_token
  skip_token-Counts = record {
    opens = λ depth name at. refl;
    closes = λ depth at le.
        let more : (depth + 1 - 1 == 0) ≡ false = ground arith in
        let back : depth + 1 - 1 ≡ depth = omega arith in rw (more, back) refl;
    passes = λ depth name bytes at le. refl;
  }

  skipping :
      (properties : Properties) (children : Nodes) (at off : ℕ)
      → Yields o dt at (contents properties children) off
      → loop o dt big (skip_token o dt) (λ depth. tt {0}) 1 at ≡ returned (tt, off)
  skipping properties children at off y =
      let counts = skip_token-Counts in
      let keeps = skip_token-KeepsOn o dt in
      let (p, yp, y) = Yields-append o dt (property_tokens properties) _ at off y in
      let (c, yc, (q, e, last)) = Yields-append o dt (tokens children) _ p off y in
      over_properties (skip_token o dt) (λ depth. tt) keeps counts properties 1 at p
        (λ name bytes at. unfold skip_token in refl) yp
      ∙ over_nodes (skip_token o dt) (λ depth. tt) keeps counts children 1 p c (omega arith) yc
      ∙ loop-some o dt big (skip_token o dt) (λ depth. tt) keeps 1 c e
      ∙ (unfold skip_token follow in rw last refl)

-- Started behind the first token of a node, `skip_node` leaves the iterator behind the last token of
-- that node: past its properties, its children with all that they hold, and its end.
pub skip_node-contents :
    (o : ByteOrder) (dt : DeviceTree) (properties : Properties) (children : Nodes) (at off : ℕ)
    → IsBigEndian o
    → Yields o dt at (contents properties children) off
    → skip_node o dt at ≡ returned off
unfolding skip_node
skip_node-contents o dt properties children at off big y =
    rw (skipping o dt big properties children at off y) refl
