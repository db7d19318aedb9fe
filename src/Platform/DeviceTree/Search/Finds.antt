-- ===== src/Platform/DeviceTree/Search/Finds.antt =====
-- The search along a path finds the node that `find_node` finds in the tree of the structure.
use endless_hole.Base.{ℕ, ◌≡◌, refl, ◌∙◌, ap, ◌⊎◌, inl, inr, Bool-cases}
use endless_hole.Base.{List, [], ◌∷◌, ◌++◌, Option, some, none, true, false}
use mathlib.Core.List.{append_assoc}
use endless_hole.Platform.DeviceTree.Bytes.{
  Run, returned, panics, out_of_fuel, ◌>>=◌, ByteOrder, IsBigEndian, Run-cases, same_bytes, text,
}
use endless_hole.Platform.DeviceTree.Fdt.{DeviceTree, Token, start_node, close_node}
use endless_hole.Platform.DeviceTree.Tokens.{next, follow}
use endless_hole.Platform.DeviceTree.Tokens.Yields.{Yields, YieldsAll, Yields-append, Yields-join}
use endless_hole.Platform.DeviceTree.Tokens.Steps.{loop, loop-some, loop-none}
use endless_hole.Platform.DeviceTree.Values.{whole_word}
use endless_hole.Platform.DeviceTree.Search.{
  Search, enter, search_token, search, update_cells, unwrap_or, split_path,
}
use endless_hole.Platform.DeviceTree.Search.Ends.{search_token-KeepsOn}
use endless_hole.Platform.DeviceTree.Search.Nodes.{
  Properties, Nodes, leaf, branch, tokens, property_tokens, contents, Cells, cells_after, Node,
  find_node,
}
use endless_hole.Platform.DeviceTree.Search.Skips.{skip_node-contents}

-- The variables of the search, the cells apart
abbrev pub searching : List ℕ → List (List ℕ) → Cells → Search
searching looking_for segments cells = record {
  looking_for = looking_for;
  segments = segments;
  current_address_cells = cells.address;
  current_size_cells = cells.size;
}

-- The tokens of a node with its siblings behind it
pub split_node :
    (o : ByteOrder) (dt : DeviceTree) (properties : Properties) (children siblings : Nodes)
    (at off : ℕ)
    → Yields o dt at
        (property_tokens properties ++ (tokens children ++ (close_node ∷ tokens siblings)))
        off
    → (mid : ℕ) × Yields o dt at (contents properties children) mid
      × Yields o dt mid (tokens siblings) off
split_node o dt properties children siblings at off y =
    Yields-append o dt (contents properties children) (tokens siblings) at off (rw (joined) y)
  where
    joined :
        contents properties children ++ tokens siblings
        ≡ property_tokens properties ++ (tokens children ++ (close_node ∷ tokens siblings))
    joined =
        append_assoc (property_tokens properties) (tokens children ++ (close_node ∷ []))
          (tokens siblings)
        ∙ ap (λ (ts : List Token). property_tokens properties ++ ts)
            (append_assoc (tokens children) (close_node ∷ []) (tokens siblings))

-- The same with the last token of their parent behind the siblings
pub split_closed :
    (o : ByteOrder) (dt : DeviceTree) (properties : Properties) (children siblings : Nodes)
    (at off : ℕ)
    → Yields o dt at
        ((property_tokens properties ++ (tokens children ++ (close_node ∷ tokens siblings)))
          ++ (close_node ∷ []))
        off
    → (mid : ℕ) × Yields o dt at (contents properties children) mid
      × Yields o dt mid (tokens siblings ++ (close_node ∷ [])) off
split_closed o dt properties children siblings at off y =
    let (last, before, closed) =
      Yields-append o dt
        (property_tokens properties ++ (tokens children ++ (close_node ∷ tokens siblings)))
        (close_node ∷ []) at off y in
    let (mid, node, rest) = split_node o dt properties children siblings at last before in
    (mid, node, Yields-join o dt (tokens siblings) (close_node ∷ []) mid last off rest closed)

update_cells-searching :
    (o : ByteOrder) (looking_for : List ℕ) (segments : List (List ℕ)) (cells : Cells)
    (name bytes : List ℕ)
    → update_cells o name bytes
        (λ v. record (searching looking_for segments cells) { current_address_cells = some v })
        (λ v. record (searching looking_for segments cells) { current_size_cells = some v })
        (searching looking_for segments cells)
      ≡ (update_cells o name bytes
            (λ v. record cells { address = some v })
            (λ v. record cells { size = some v })
            cells
          >>= λ c. returned (searching looking_for segments c))
unfolding update_cells
update_cells-searching o looking_for segments cells name bytes =
    elim (Bool-cases (same_bytes name (text "#address-cells"))) [
      | inl e ↦ rw e (word (whole_word o bytes) (λ v. record cells { address = some v }))
      | inr e ↦ elim (Bool-cases (same_bytes name (text "#size-cells"))) [
        | inl f ↦ rw (e, f) (word (whole_word o bytes) (λ v. record cells { size = some v }))
        | inr f ↦ rw (e, f) refl
      ]
    ]
  where
    word :
        (r : Run ℕ) (f : ℕ → Cells)
        → (r >>= λ v. returned (searching looking_for segments (f v)))
          ≡ ((r >>= λ v. returned (f v)) >>= λ c. returned (searching looking_for segments c))
    word (returned v) f = refl
    word panics f = refl
    word out_of_fuel f = refl

module _ (o : ByteOrder) (dt : DeviceTree) (big : IsBigEndian o) where
  module _ {R : Type 0} (found : (offset address_cells size_cells : ℕ) → R) where
    abbrev pub running : Search → ℕ → Run (Option R × ℕ)
    running s at = loop o dt big (search_token o dt found) (λ s. none) s at

    step :
        (s : Search) (at : ℕ) {t : Token} {mid : ℕ}
        → next o dt at ≡ returned (some t, mid)
        → running s at ≡ (
            search_token o dt found s t mid
            >>= follow o dt (search_token o dt found) (λ s. none) running)
    step s at e =
        loop-some o dt big (search_token o dt found) (λ s. none)
          (search_token-KeepsOn o dt big found) s at e

    over_properties :
        (properties : Properties) (looking_for : List ℕ) (segments : List (List ℕ)) (cells : Cells)
        (at off : ℕ)
        → Yields o dt at (property_tokens properties) off
        → running (searching looking_for segments cells) at
          ≡ (cells_after o cells properties >>= λ c. running (searching looking_for segments c) off)
    unfolding cells_after search_token follow
    over_properties [] looking_for segments cells at off y = rw y refl
    over_properties ((name, bytes) ∷ properties) looking_for segments cells at off (mid, e, y) =
        step (searching looking_for segments cells) at e
        ∙ rw (update_cells-searching o looking_for segments cells name bytes)
            (elim (Run-cases (
              update_cells o name bytes (λ v. record cells { address = some v })
                (λ v. record cells { size = some v }) cells)) [
                  | inl (c, p) ↦ rw p (over_properties properties looking_for segments c mid off y)
                  | inr (inl p) ↦ rw p refl
                  | inr (inr p) ↦ rw p refl
                ])

    -- What a run comes to for what the reference finds: a node's tokens stand behind the offset.
    abbrev pub Finds : Run (Option R × ℕ) → Run (Option Node) → Type 0
    Finds run (returned none) = (off : ℕ) × (run ≡ returned (none, off))
    Finds run (returned (some node)) =
        (at : ℕ) × (off : ℕ) × (run
          ≡ returned
              (some (found at (unwrap_or node.cells.address 2) (unwrap_or node.cells.size 1)), at))
        × Yields o dt at (contents node.properties node.children) off
    Finds run panics = run ≡ panics
    Finds run out_of_fuel = run ≡ out_of_fuel

    -- Behind the nodes comes the end of their parent, or the end of the structure.
    abbrev pub Stops : ℕ → Type 0
    Stops at =
        (off : ℕ) × ((next o dt at ≡ returned (some close_node, off))
          ⊎ (next o dt at ≡ returned (none, off)))

    stopped : (s : Search) (at : ℕ) (stop : Stops at) → running s at ≡ returned (none, stop.0)
    unfolding search_token follow
    stopped s at (off, inl e) = step s at e
    stopped s at (off, inr e) =
        loop-none o dt big (search_token o dt found) (λ s. none)
          (search_token-KeepsOn o dt big found) s at e

    Finds-bind :
        (r : Run Cells) (f : Cells → Run (Option R × ℕ)) (g : Cells → Run (Option Node))
        → ((c : Cells) → Finds (f c) (g c))
        → Finds (r >>= f) (r >>= g)
    Finds-bind (returned c) f g k = k c
    Finds-bind panics f g k = refl
    Finds-bind out_of_fuel f g k = refl

    -- A node that has another name is passed by.
    pass_by :
        (s : Search) (name : List ℕ) (properties : Properties) (children : Nodes)
        (at inside behind : ℕ)
        → next o dt at ≡ returned (some (start_node name), inside)
        → Yields o dt inside (contents properties children) behind
        → same_bytes name s.looking_for ≡ false
        → running s at ≡ running s behind
    unfolding search_token follow
    pass_by s name properties children at inside behind e y other =
        step s at e
        ∙ rw (other, skip_node-contents o dt properties children inside behind big y) refl

    -- A node that has the name is entered.
    go_in :
        (s : Search) (name : List ℕ) (at inside : ℕ)
        → next o dt at ≡ returned (some (start_node name), inside)
        → same_bytes name s.looking_for ≡ true
        → running s at
          ≡ follow o dt (search_token o dt found) (λ s. none) running (enter o dt found s inside)
    unfolding search_token
    go_in s name at inside e same = step s at e ∙ rw same refl

    pub running-Finds :
        (nodes : Nodes) (looking_for : List ℕ) (segments : List (List ℕ)) (cells : Cells)
        (at mid : ℕ)
        → Yields o dt at (tokens nodes) mid
        → Stops mid
        → Finds
            (running (searching looking_for segments cells) at)
            (find_node o looking_for segments cells nodes)
    unfolding find_node enter follow
    running-Finds leaf looking_for segments cells at mid y stop =
        (stop.0, rw y (stopped _ mid stop))
    running-Finds (branch name properties children siblings) looking_for [] cells at mid
          (inside, e, y) stop =
        let s = searching looking_for [] cells in
        let (behind, yn, ys) = split_node o dt properties children siblings inside mid y in
        let later = running-Finds siblings looking_for [] cells behind mid ys stop in
        elim (Bool-cases (same_bytes name looking_for)) [
          | inl same ↦ rw same (inside, behind, go_in s name at inside e same, yn)
          | inr other ↦
              rw (other, pass_by s name properties children at inside behind e yn other) later
        ]
    running-Finds (branch name properties children siblings) looking_for ([] ∷ rest) cells at mid
          (inside, e, y) stop =
        let s = searching looking_for ([] ∷ rest) cells in
        let (behind, yn, ys) = split_node o dt properties children siblings inside mid y in
        let later = running-Finds siblings looking_for ([] ∷ rest) cells behind mid ys stop in
        elim (Bool-cases (same_bytes name looking_for)) [
          | inl same ↦ rw same (inside, behind, go_in s name at inside e same, yn)
          | inr other ↦
              rw (other, pass_by s name properties children at inside behind e yn other) later
        ]
    running-Finds (branch name properties children siblings) looking_for ((b ∷ segment) ∷ rest)
          cells at mid (inside, e, y) stop =
        let s = searching looking_for ((b ∷ segment) ∷ rest) cells in
        let (behind, yn, ys) = split_node o dt properties children siblings inside mid y in
        let later =
          running-Finds siblings looking_for ((b ∷ segment) ∷ rest) cells behind mid ys stop in
        let (p, yp, yc) = Yields-append o dt (property_tokens properties) _ inside behind yn in
        let (c, children_yield, (q, close, last)) =
          Yields-append o dt (tokens children) _ p behind yc in
        elim (Bool-cases (same_bytes name looking_for)) [
          | inl same ↦
              rw
                (
                  same,
                  go_in s name at inside e same,
                  over_properties properties (b ∷ segment) rest cells inside p yp,
                )
                (Finds-bind (cells_after o cells properties) _ _ λ after.
                  running-Finds children (b ∷ segment) rest after p c children_yield (q, inl close))
          | inr other ↦
              rw (other, pass_by s name properties children at inside behind e yn other) later
        ]

    -- The answer that `search` takes from its loop
    abbrev pub Answers : Run (Option R) → Run (Option Node) → Type 0
    Answers run (returned none) = run ≡ returned none
    Answers run (returned (some node)) =
        (at : ℕ) × (off : ℕ) × (run
          ≡ returned
              (some (found at (unwrap_or node.cells.address 2) (unwrap_or node.cells.size 1))))
        × Yields o dt at (contents node.properties node.children) off
    Answers run panics = run ≡ panics
    Answers run out_of_fuel = run ≡ out_of_fuel

    Finds-Answers :
        (run : Run (Option R × ℕ)) (ref : Run (Option Node))
        → Finds run ref
        → Answers (run >>= λ r. returned (r.0)) ref
    Finds-Answers run (returned none) (off, e) = rw e refl
    Finds-Answers run (returned (some node)) (at, off, e, y) = (at, off, rw e refl, y)
    Finds-Answers run panics e = rw e refl
    Finds-Answers run out_of_fuel e = rw e refl

    pub search-Answers :
        (nodes : Nodes) (path : List ℕ)
        → YieldsAll o dt 0 (tokens nodes)
        → Answers (search o dt found path) (
            find_node o
              (split_path path).0
              (split_path path).1
              (record { address = none; size = none })
              nodes)
    unfolding search
    search-Answers nodes path (mid, last, y, end) =
        Finds-Answers (running (searching (split_path path).0 (split_path path).1 _) 0) _ (
          running-Finds nodes (split_path path).0 (split_path path).1
            (record { address = none; size = none }) 0 mid y (last, inr end))
