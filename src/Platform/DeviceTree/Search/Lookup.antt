-- ===== src/Platform/DeviceTree/Search/Lookup.antt =====
-- `find_property` against the lookup in the tree that a structure stands for, and from the bytes of a
-- blob on.
use endless_hole.Base.{ℕ, ◌-◌, ◌^◌, ◌<◌, arith, ◌≡◌, ◌≢◌, refl, sym, ◌∙◌, ap}
use endless_hole.Base.{List, [], ◌∷◌, ◌++◌, length, length-append, Option, some, none, All, map}
use endless_hole.Base.{==_of_ne, ==_refl}
use mathlib.Core.List.{append_assoc, append-nil, reverse, reverse-append}
use endless_hole.Platform.DeviceTree.Bytes.{
  Run, returned, panics, out_of_fuel, ◌>>=◌, ByteOrder, IsBigEndian, take, drop, take-append,
  drop-append,
}
use endless_hole.Platform.DeviceTree.Fdt.{DeviceTree, Token, from_bytes}
use endless_hole.Platform.DeviceTree.Fdt.Blob.{
  Layout, blob_bytes, blob_size, tree_of, from_bytes-blob_bytes,
}
use endless_hole.Platform.DeviceTree.Tokens.Yields.{YieldsAll}
use endless_hole.Platform.DeviceTree.Tokens.Encode.{structure_bytes, Encodable}
use endless_hole.Platform.DeviceTree.Tokens.Decode.{structure_bytes-YieldsAll}
use endless_hole.Platform.DeviceTree.Values.{Value}
use endless_hole.Platform.DeviceTree.Search.{
  NodePropertyIter, properties_at, position, split_path, unwrap_or, iter_node_properties, find_in,
  find_split, find_property,
}
use endless_hole.Platform.DeviceTree.Search.Nodes.{Nodes, Node, tokens, find_node, find_value}
use endless_hole.Platform.DeviceTree.Search.Finds.{Answers, search-Answers}
use endless_hole.Platform.DeviceTree.Search.Properties.{find_in-find_value}

position_lem :
    (byte : ℕ) (xs ys : List ℕ)
    → All (λ b. b ≢ byte) xs
    → position byte (xs ++ (byte ∷ ys)) ≡ some (length xs)
unfolding position
position_lem byte [] ys h = rw (==_refl byte) refl
position_lem byte (x ∷ xs) ys (ne, h) = rw (==_of_ne x byte ne, position_lem byte xs ys h) refl

position_missing : (byte : ℕ) (xs : List ℕ) → All (λ b. b ≢ byte) xs → position byte xs ≡ none
unfolding position
position_missing byte [] h = refl
position_missing byte (x ∷ xs) (ne, h) = rw (==_of_ne x byte ne, position_missing byte xs h) refl

All-append : (P : ℕ → Type 0) (xs ys : List ℕ) → All P xs → All P ys → All P (xs ++ ys)
All-append P [] ys h k = k
All-append P (x ∷ xs) ys (p, h) k = (p, All-append P xs ys h k)

reverse_cons : (x : ℕ) (xs : List ℕ) → reverse (x ∷ xs) ≡ reverse xs ++ (x ∷ [])
reverse_cons x xs = reverse-append (x ∷ []) xs

All-reverse : (P : ℕ → Type 0) (xs : List ℕ) → All P xs → All P (reverse xs)
All-reverse P [] h = h
All-reverse P (x ∷ xs) (p, h) =
    rw (reverse_cons x xs) (All-append P (reverse xs) (x ∷ []) (All-reverse P xs h) (p, tt))

length-reverse : (xs : List ℕ) → length (reverse xs) ≡ length xs
length-reverse [] = refl
length-reverse (x ∷ xs) =
    rw (reverse_cons x xs)
      (omega (arith, length-append {0} (reverse xs) (x ∷ []), length-reverse xs))

-- The last slash of a path, counted from its end
last_slash :
    (front name : List ℕ)
    → All (λ b. b ≢ b'/') name
    → position b'/' (reverse (front ++ (b'/' ∷ name))) ≡ some (length name)
last_slash front name h =
    let reversed : reverse (front ++ (b'/' ∷ name)) ≡ reverse name ++ (b'/' ∷ reverse front) =
      reverse-append front (b'/' ∷ name)
      ∙ ap (λ (xs : List ℕ). xs ++ reverse front) (reverse_cons b'/' name)
      ∙ append_assoc (reverse name) (b'/' ∷ []) (reverse front) in
    rw reversed (
      position_lem b'/' (reverse name) (reverse front) (All-reverse _ name h)
      ∙ ap (λ (n : ℕ). some n) (length-reverse name))

-- The reference: the node at a path, and in it the first property of a name
unfoldable pub value_in : ByteOrder → List ℕ → Option Node → Run (Option Value)
value_in o name none = returned none
value_in o name (some node) =
    find_value o name (unwrap_or node.cells.address 2) (unwrap_or node.cells.size 1) node.properties

unfoldable pub lookup : ByteOrder → Nodes → (node_path name : List ℕ) → Run (Option Value)
unfolding value_in
lookup o nodes node_path name =
    find_node o (split_path node_path).0 (split_path node_path).1
      (record { address = none; size = none }) nodes
    >>= value_in o name

-- `value_in` of what the search answers
in_node :
    (o : ByteOrder) (dt : DeviceTree) (big : IsBigEndian o) (name : List ℕ)
    (run : Run (Option NodePropertyIter)) (ref : Run (Option Node))
    → Answers o dt big properties_at run ref
    → (run >>= λ node. find_in o dt node name) ≡ (ref >>= value_in o name)
unfolding value_in
in_node o dt big name run (returned none) e = rw e (unfold find_in in refl)
in_node o dt big name run (returned (some node)) (at, off, e, y) =
    rw e (find_in-find_value o dt name node.properties node.children _ _ at off big y)
in_node o dt big name run panics e = rw e refl
in_node o dt big name run out_of_fuel e = rw e refl

-- A tree whose structure yields the tokens of `nodes` and then ends: for a path that is a node's path
-- with its slash, and behind it a name without a slash, `find_property` gives what the lookup gives,
-- the value of the first property of that name in the first node at that path, or `none`, or the
-- panic of a value that is too short; for a path without any slash it gives `none`.
pub find_property-lookup :
    (o : ByteOrder) (dt : DeviceTree) (nodes : Nodes) (front name : List ℕ)
    → IsBigEndian o
    → YieldsAll o dt 0 (tokens nodes)
    → All (λ b. b ≢ b'/') name
    → (find_property o dt (front ++ (b'/' ∷ name)) ≡ lookup o nodes (front ++ (b'/' ∷ [])) name)
      × (find_property o dt name ≡ returned none)
unfolding find_property find_split iter_node_properties lookup
find_property-lookup o dt nodes front name big y h =
    let node_path = front ++ (b'/' ∷ []) in
    let joined : node_path ++ name ≡ front ++ (b'/' ∷ name) = append_assoc front (b'/' ∷ []) name in
    let split : length (front ++ (b'/' ∷ name)) - length name ≡ length node_path =
      omega (arith, length-append {0} front (b'/' ∷ name), length-append {0} front (b'/' ∷ [])) in
    let before : take (length node_path) (front ++ (b'/' ∷ name)) ≡ node_path =
      rw joined at (take-append node_path name) in
    let after : drop (length node_path) (front ++ (b'/' ∷ name)) ≡ name =
      rw joined at (drop-append node_path name) in
    (
      rw (last_slash front name h, split, before, after)
          (in_node o dt big name _ _ (search-Answers o dt big properties_at nodes node_path y)),
      rw (position_missing b'/' (reverse name) (All-reverse _ name h)) refl,
    )

-- From the bytes of a blob on: when its structure lays out the tokens of `nodes`, its strings hold
-- the names of the properties, and it is smaller than 2 ^ 32 bytes, then `from_bytes` and
-- `find_property` together give what the lookup in `nodes` gives.
pub find_property-from_bytes :
    (o : ByteOrder) (l : Layout) (place : List ℕ → ℕ) (items : List (ℕ × Token)) (last : ℕ)
    (nodes : Nodes) (front name : List ℕ)
    → IsBigEndian o
    → blob_size l < 2 ^ 32
    → l.structure ≡ structure_bytes place items last
    → map (λ (item : ℕ × Token). item.1) items ≡ tokens nodes
    → All (λ item. Encodable place l.strings (item.1)) items
    → All (λ b. b ≢ b'/') name
    → (from_bytes o (blob_bytes l) >>= λ dt. find_property o dt (front ++ (b'/' ∷ name)))
      ≡ lookup o nodes (front ++ (b'/' ∷ [])) name
find_property-from_bytes o l place items last nodes front name big small laid_out same encodable h =
    let dt = tree_of l (record { buf = blob_bytes l }) in
    let yields : YieldsAll o dt 0 (map (λ (item : ℕ × Token). item.1) items) =
      structure_bytes-YieldsAll o place items last [] dt big
        (laid_out ∙ sym (append-nil (structure_bytes place items last))) encodable in
    rw (from_bytes-blob_bytes o l big small)
      (find_property-lookup o dt nodes front name big (rw same at yields) h).0
