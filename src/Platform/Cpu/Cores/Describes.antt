-- ===== src/Platform/Cpu/Cores/Describes.antt =====
-- Which cores a well formed `/cpus` node describes, and that `list_cores` finds them.
use endless_hole.Base.{
  ℕ, ◌+◌, ◌<◌, ◌≡◌, refl, ◌∙◌, false, some, none, List, [], ◌∷◌, ◌++◌, length, arith,
}
use endless_hole.Platform.DeviceTree.Bytes.{returned, ByteOrder, IsBigEndian, text, same_bytes}
use endless_hole.Platform.DeviceTree.Fdt.{DeviceTree}
use endless_hole.Platform.DeviceTree.Tokens.Yields.{YieldsAll}
use endless_hole.Platform.DeviceTree.Values.{Value, parse}
use endless_hole.Platform.DeviceTree.Values.Cells.{words_bytes, number_of, Words, next_register_lem}
use endless_hole.Platform.DeviceTree.Values.Typed.{Parsed, as_bytes, as_reg}
use endless_hole.Platform.DeviceTree.Search.{split_path, unwrap_or}
use endless_hole.Platform.DeviceTree.Search.Nodes.{
  Properties, Nodes, Node, Cells, tokens, find_node, cells_after,
}
use endless_hole.Platform.DeviceTree.Search.Named.{NamedNode, named}
use endless_hole.Platform.Cpu.{ok, CoreInfo}
use endless_hole.Platform.Cpu.Cores.{
  Found, nothing_found, core_property, carry_on, core_of, push_core, push, found_method, found_id,
  first_id, list_cores,
}
use endless_hole.Platform.Cpu.Cores.Lists.{found_in, cores_in, list_cores-cores_in}
use Prim.Native.String.{String}

-- What the properties leave of the two variables: an `enable-method` is taken as it stands, and a
-- `reg` for the number of the words of its first address; any other property is only read.
pub data Describes (o : ByteOrder) (a s : ℕ) : Properties → Found → Found → Type 0 where
  all_read : {found : Found} → Describes o a s [] found found
  method_is :
      {bytes : List ℕ} {properties : Properties} {found result : Found}
      → Describes o a s properties (record found { enable_method = some bytes }) result
      → Describes o a s ((text "enable-method", bytes) ∷ properties) found result
  id_is :
      {properties : Properties} {found result : Found} (address size rest : List ℕ)
      → length address ≡ a
      → length size ≡ s
      → Words address
      → Words size
      → Describes o a s properties (record found { cpu_id = some (number_of address) }) result
      → Describes o a s
          ((text "reg", words_bytes address ++ (words_bytes size ++ rest)) ∷ properties)
          found
          result
  other :
      {bytes : List ℕ} {properties : Properties} {found result : Found} (name : List ℕ)
      (value : Value)
      → same_bytes name (text "enable-method") ≡ false
      → same_bytes name (text "reg") ≡ false
      → parse o name bytes a s ≡ returned value
      → Describes o a s properties found result
      → Describes o a s ((name, bytes) ∷ properties) found result

-- A core for each node, with both of its properties
abbrev pub AreDescribed : ByteOrder → (a s : ℕ) → List NamedNode → List CoreInfo → Type 0
AreDescribed o a s [] [] = Unit
AreDescribed o a s [] (core ∷ cores) = ⊥
AreDescribed o a s (node ∷ nodes) [] = ⊥
AreDescribed o a s (node ∷ nodes) (core ∷ cores) =
    Describes o a s node.properties nothing_found
      (record { cpu_id = some core.id; enable_method = some core.enable_method })
    × AreDescribed o a s nodes cores

module _ (o : ByteOrder) (dt : DeviceTree) (lossy : List ℕ → String) (format : Value → String)
    (big : IsBigEndian o) (a s : ℕ) (some_cells : 0 < a + s) where
  reg_property :
      (address size rest : List ℕ) (found : Found)
      → length address ≡ a
      → length size ≡ s
      → Words address
      → Words size
      → first_id o dt lossy format found (
          Parsed.ok (record {
            bytes = words_bytes address ++ (words_bytes size ++ rest);
            address_cells = a;
            size_cells = s;
          }))
        ≡ returned (ok (record found { cpu_id = some (number_of address) }))
  unfolding first_id found_id
  reg_property address size rest found ea es wa ws =
      let bytes : List ℕ = words_bytes address ++ (words_bytes size ++ rest) in
      let (end, read, behind) =
        next_register_lem o big (record { bytes = bytes; address_cells = a; size_cells = s })
          address size rest 0 some_cells (ea, es, wa, ws) (omega arith, refl) in
      rw read refl

  found_in-Describes :
      {properties : Properties} {found result : Found}
      → Describes o a s properties found result
      → found_in o dt lossy format a s properties found ≡ returned (ok result)
  unfolding found_in carry_on core_property found_method parse same_bytes as_bytes as_reg
  found_in-Describes all_read = refl
  found_in-Describes (method_is rest) = found_in-Describes rest
  found_in-Describes {found = found} (id_is address size rest ea es wa ws others) =
      rw (reg_property address size rest found ea es wa ws) (found_in-Describes others)
  found_in-Describes (other name value not_method not_reg read rest) =
      rw (read, not_method, not_reg) (found_in-Describes rest)

  cores_in-AreDescribed :
      (nodes : List NamedNode) (cores : List CoreInfo)
      → AreDescribed o a s nodes cores
      → cores_in o dt lossy format a s nodes ≡ returned (ok cores)
  unfolding cores_in core_of push_core push
  cores_in-AreDescribed [] [] h = refl
  cores_in-AreDescribed [] (core ∷ cores) h = absurd h
  cores_in-AreDescribed (node ∷ nodes) [] h = absurd h
  cores_in-AreDescribed (node ∷ nodes) (core ∷ cores) (here, h) =
      rw (found_in-Describes here, cores_in-AreDescribed nodes cores h) refl

-- A tree whose structure yields the tokens of `nodes` and then ends, and the first node at `/cpus`,
-- whose properties leave some cells of addresses or of sizes: when each child that is named `cpu`
-- before its `@` has an `enable-method`, a `reg` that starts with an address and a size of as many
-- words as there are cells, and else only properties that can be read, then `list_cores` returns the
-- cores that they describe, in order: each with the number of the first address of its last `reg`
-- as its id, and the bytes of its last `enable-method`.
pub list_cores-AreDescribed :
    (o : ByteOrder) (dt : DeviceTree) (lossy : List ℕ → String) (format : Value → String)
    (nodes : Nodes) (node : Node) (cells : Cells) (cores : List CoreInfo)
    → IsBigEndian o
    → YieldsAll o dt 0 (tokens nodes)
    → find_node o
        (split_path (text "/cpus")).0
        (split_path (text "/cpus")).1
        (record { address = none; size = none })
        nodes
      ≡ returned (some node)
    → cells_after o node.cells node.properties ≡ returned cells
    → 0 < unwrap_or cells.address 2 + unwrap_or cells.size 1
    → AreDescribed o
        (unwrap_or cells.address 2)
        (unwrap_or cells.size 1)
        (named (text "cpu") node.children)
        cores
    → list_cores o dt lossy format ≡ returned (ok cores)
list_cores-AreDescribed o dt lossy format nodes node cells cores big y e after some_cells
      described =
    list_cores-cores_in o dt lossy format nodes node cells big y e after
    ∙ cores_in-AreDescribed o dt lossy format big _ _ some_cells _ cores described
