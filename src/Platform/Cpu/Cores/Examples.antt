-- ===== src/Platform/Cpu/Cores/Examples.antt =====
-- A device tree with two cores, the cores that `list_cores` finds in it, and its theorem there.
use mathlib.Core.List.{append-nil}
use endless_hole.Base.{
  ℕ, arith, ◌≡◌, refl, sym, All, List, [], ◌∷◌, ◌++◌, map, none, some, if◌then◌else◌,
}
use endless_hole.Platform.DeviceTree.Bytes.{returned, word_bytes, text, same_bytes}
use endless_hole.Platform.DeviceTree.Fdt.{Token, property, DeviceTree}
use endless_hole.Platform.DeviceTree.Tokens.Yields.{YieldsAll}
use endless_hole.Platform.DeviceTree.Tokens.Encode.{structure_bytes, Encodable}
use endless_hole.Platform.DeviceTree.Tokens.Decode.{structure_bytes-YieldsAll}
use endless_hole.Platform.DeviceTree.Values.{Value, whole_word}
use endless_hole.Platform.DeviceTree.Search.{split_path, update_cells}
use endless_hole.Platform.DeviceTree.Search.Names.{name_of, unit_of}
use endless_hole.Platform.DeviceTree.Search.Nodes.{
  Nodes, leaf, branch, Node, Cells, tokens, find_node, cells_after, Properties,
}
use endless_hole.Platform.DeviceTree.Search.Named.{named}
use endless_hole.Platform.DeviceTree.Sample.{avoids-All, big_endian, big_endian-IsBigEndian}
use endless_hole.Platform.Cpu.{ok}
use endless_hole.Platform.Cpu.Cores.{list_cores}
use endless_hole.Platform.Cpu.Cores.Describes.{
  all_read, method_is, id_is, AreDescribed, list_cores-AreDescribed,
}
use endless_hole.Platform.DeviceTree.Values.Cells.{words_bytes, number_from}
use Prim.Native.String.{String}

abbrev psci : List ℕ
psci = text "psci" ++ (0 ∷ [])

abbrev core_properties_of : ℕ → Properties
core_properties_of id = (text "enable-method", psci) ∷ (text "reg", word_bytes id) ∷ []

abbrev cpus : Nodes
cpus =
    branch (text "cpu@0") (core_properties_of 0) leaf
      (branch (text "l2-cache") [] leaf (branch (text "cpu@1") (core_properties_of 1) leaf leaf))

abbrev cpus_properties : Properties
cpus_properties = (text "#address-cells", word_bytes 1) ∷ (text "#size-cells", word_bytes 0) ∷ []

abbrev machine : Nodes
machine = branch [] [] (branch (text "cpus") cpus_properties cpus leaf) leaf

abbrev cpus_node : Node
cpus_node = record {
  properties = cpus_properties;
  children = cpus;
  cells = record { address = none; size = none };
}

abbrev cells : Cells
cells = record { address = some 1; size = some 0 }

abbrev items : List (ℕ × Token)
items = map (λ t. (0, t)) (tokens machine)

abbrev place : List ℕ → ℕ
place name =
    if same_bytes name (text "#address-cells")
    then 0
    else if same_bytes name (text "#size-cells")
    then 15
    else if same_bytes name (text "reg")
    then 27
    else 31

abbrev names : List ℕ
names =
    text "#address-cells"
    ++ (0 ∷ (text "#size-cells" ++ (0 ∷ (text "reg" ++ (0 ∷ (text "enable-method" ++ (0 ∷ [])))))))

abbrev tree : DeviceTree
tree = record {
  header = record { buf = [] };
  strings = names;
  structure = structure_bytes place items 0;
  mem_map = [];
}

items-Encodable : All (λ item. Encodable place names (item.1)) items
unfolding same_bytes word_bytes
items-Encodable =
    let address : Encodable place names (property (text "#address-cells") (word_bytes 1)) = (
      omega arith,
      (avoids-All 0 (text "#address-cells") refl, omega arith, omega arith, (_, refl)),
    ) in
    let size : Encodable place names (property (text "#size-cells") (word_bytes 0)) = (
      omega arith,
      (avoids-All 0 (text "#size-cells") refl, omega arith, omega arith, (_, refl)),
    ) in
    let method : Encodable place names (property (text "enable-method") psci) = (
      omega arith,
      (avoids-All 0 (text "enable-method") refl, omega arith, omega arith, (_, refl)),
    ) in
    let reg_0 : Encodable place names (property (text "reg") (word_bytes 0)) =
      (omega arith, (avoids-All 0 (text "reg") refl, omega arith, omega arith, (_, refl))) in
    let reg_1 : Encodable place names (property (text "reg") (word_bytes 1)) =
      (omega arith, (avoids-All 0 (text "reg") refl, omega arith, omega arith, (_, refl))) in
    (
      tt,
      (
        avoids-All 0 (text "cpus") refl,
        (
          address,
          (
            size,
            (
              avoids-All 0 (text "cpu@0") refl,
              (
                method,
                (
                  reg_0,
                  (
                    tt,
                    (
                      avoids-All 0 (text "l2-cache") refl,
                      (
                        tt,
                        (avoids-All 0 (text "cpu@1") refl, (method, (reg_1, (tt, (tt, (tt, tt)))))),
                      ),
                    ),
                  ),
                ),
              ),
            ),
          ),
        ),
      ),
    )

tree_yields : YieldsAll big_endian tree 0 (tokens machine)
tree_yields =
    structure_bytes-YieldsAll big_endian place items 0 [] tree big_endian-IsBigEndian
      (sym (append-nil (structure_bytes place items 0))) items-Encodable

-- The texts of errors are not looked at here.
abbrev lossy : List ℕ → String
lossy name = "name"

abbrev format : Value → String
format value = "value"

described :
    AreDescribed big_endian 1 0
      (named (text "cpu") cpus)
      (record { id = 0; enable_method = psci } ∷ record { id = 1; enable_method = psci } ∷ [])
unfolding named same_bytes name_of unit_of word_bytes words_bytes number_from
described = (
  method_is (id_is (0 ∷ []) [] [] (omega arith) (omega arith) (omega arith, tt) tt all_read),
  (method_is (id_is (1 ∷ []) [] [] (omega arith) (omega arith) (omega arith, tt) tt all_read), tt),
)

list_cores-AreDescribed_example :
    list_cores big_endian tree lossy format
    ≡ returned (
        ok (record { id = 0; enable_method = psci } ∷ record { id = 1; enable_method = psci } ∷ []))
unfolding word_bytes
list_cores-AreDescribed_example =
    list_cores-AreDescribed big_endian tree lossy format machine cpus_node cells
      (record { id = 0; enable_method = psci } ∷ record { id = 1; enable_method = psci } ∷ [])
      big_endian-IsBigEndian tree_yields
      (unfold find_node same_bytes split_path cells_after update_cells whole_word in refl)
      (unfold cells_after update_cells same_bytes whole_word in refl) (omega arith) described
