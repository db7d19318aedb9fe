-- ===== src/Platform/DeviceTree/Examples.antt =====
-- Runs of the parser of kernel_core/src/platform/device_tree on small blobs, and its theorems at them.
use mathlib.Core.List.{append-nil}
use endless_hole.Base.{suc, arith, ◌≡◌, ◌≢◌, refl, sym, ◌↔◌}
use endless_hole.Base.{List, [], ◌∷◌, ◌++◌, length, none, some, true, Bool}
use endless_hole.Platform.DeviceTree.Bytes.{
  returned, panics, out_of_fuel, ◌>>=◌, word_bytes, text, same_bytes, word_at, slice, slice_from,
}
use endless_hole.Platform.DeviceTree.Fdt.{
  token_type, from_bytes, from_bytes_and_header, take_apart, magic, total_size, off_dt_strings,
  size_dt_strings, off_dt_struct, size_dt_structs, off_mem_rsvmap,
}
use endless_hole.Platform.DeviceTree.Fdt.Blob.{
  blob_bytes, Accepted, from_bytes-Accepted, from_bytes-blob_bytes,
}
use endless_hole.Platform.DeviceTree.Tokens.{
  skip_node, for_tokens, next, next_from, name_end_from, scan_name, follow, on_item, pad_end_4b,
  property_from, read_token, skip_token, start_from,
}
use endless_hole.Platform.DeviceTree.Tokens.Yields.{Yields, YieldsAll}
use endless_hole.Platform.DeviceTree.Tokens.Encode.{structure_bytes, token_bytes, nops, padding}
use endless_hole.Platform.DeviceTree.Tokens.Decode.{structure_bytes-YieldsAll}
use endless_hole.Platform.DeviceTree.Values.{
  string, Registers, StringList, contains, any_window, next_register, from_bytes_until_nul, parse,
  string_or_bytes, whole_word,
}
use endless_hole.Platform.DeviceTree.Values.Cells.{
  next_register-panics, collect_registers, entries_bytes, number_of,
  collect_registers-entries_bytes,
}
use endless_hole.Platform.DeviceTree.Values.Strings.{contains-Occurs, Occurs}
use endless_hole.Platform.DeviceTree.Search.{
  NodesNamedIter, NodeItem, properties_at, nodes_at, split_path, position, find_property,
  iter_node_properties, iter_nodes_named, next_property, next_node, choose, enter, find_in,
  find_named, find_split, property_token, search, search_token, update_cells,
}
use endless_hole.Platform.DeviceTree.Search.Ends.{searches-End}
use endless_hole.Platform.DeviceTree.Search.Nodes.{
  Node, cells_after, leaf, branch, tokens, contents, find_node, parse_all,
}
use endless_hole.Platform.DeviceTree.Search.Skips.{skip_node-contents}
use endless_hole.Platform.DeviceTree.Search.Properties.{
  collect_properties, collect_properties-parse_all,
}
use endless_hole.Platform.DeviceTree.Search.Lookup.{
  lookup, find_property-lookup, find_property-from_bytes,
}
use endless_hole.Platform.DeviceTree.Search.Named.{
  iter_nodes_named-Items, Items, named, collect_nodes,
}
use endless_hole.Platform.DeviceTree.Sample.{
  big_endian, big_endian-IsBigEndian, avoids-All, sample_nodes, sample_items, place, sample,
  sample-Encodable, sample_tree, sample_yields,
}

-- A run from the bytes on
model_found :
    (from_bytes big_endian (blob_bytes sample) >>= λ dt.
    find_property big_endian dt (text "/model"))
    ≡ returned (some (string (text "ab")))
unfolding blob_bytes word_bytes structure_bytes from_bytes find_property from_bytes_and_header
    word_at slice_from off_dt_strings size_dt_strings off_dt_struct size_dt_structs slice
    off_mem_rsvmap position for_tokens next next_from token_type name_end_from scan_name same_bytes
    magic take_apart total_size choose enter find_in find_named find_split iter_node_properties
    next_property property_token search search_token split_path update_cells nops padding
    token_bytes follow on_item pad_end_4b property_from read_token skip_node skip_token start_from
    from_bytes_until_nul parse string_or_bytes whole_word
model_found = refl

-- The theorems at the sample
find_property-from_bytes_example :
    (from_bytes big_endian (blob_bytes sample) >>= λ dt.
    find_property big_endian dt (text "/cpu@1/" ++ text "reg"))
    ≡ lookup big_endian sample_nodes (text "/cpu@1/") (text "reg")
find_property-from_bytes_example =
    find_property-from_bytes big_endian sample place sample_items 0 sample_nodes (text "/cpu@1")
      (text "reg") big_endian-IsBigEndian
      (unfold structure_bytes token_bytes nops padding word_bytes in omega arith) refl refl
      sample-Encodable (avoids-All b'/' (text "reg") refl)

find_property-lookup_example :
    (find_property big_endian sample_tree (text "/cpu@1/" ++ text "reg")
      ≡ lookup big_endian sample_nodes (text "/cpu@1/") (text "reg"))
    × (find_property big_endian sample_tree (text "reg") ≡ returned none)
find_property-lookup_example =
    find_property-lookup big_endian sample_tree sample_nodes (text "/cpu@1") (text "reg")
      big_endian-IsBigEndian sample_yields (avoids-All b'/' (text "reg") refl)

structure_bytes-YieldsAll_example : YieldsAll big_endian sample_tree 0 (tokens sample_nodes)
structure_bytes-YieldsAll_example =
    structure_bytes-YieldsAll big_endian place sample_items 0 [] sample_tree big_endian-IsBigEndian
      (sym (append-nil (structure_bytes place sample_items 0))) sample-Encodable

searches-End_example :
    (find_property big_endian sample_tree (text "/a") ≢ out_of_fuel)
    × (iter_node_properties big_endian sample_tree (text "/a") ≢ out_of_fuel)
    × (iter_nodes_named big_endian sample_tree (text "/a") (text "b") ≢ out_of_fuel)
    × (next_property big_endian sample_tree (properties_at 3 2 1) ≢ out_of_fuel)
    × (next_node big_endian sample_tree (nodes_at (text "b") 5 2 1) ≢ out_of_fuel)
    × (skip_node big_endian sample_tree 7 ≢ out_of_fuel)
searches-End_example =
    searches-End big_endian sample_tree (text "/a") (text "b") (properties_at 3 2 1)
      (nodes_at (text "b") 5 2 1) 7 big_endian-IsBigEndian

from_bytes-Accepted_example : Accepted big_endian (blob_bytes sample) sample_tree
from_bytes-Accepted_example = from_bytes-Accepted big_endian (blob_bytes sample) sample_tree (
    from_bytes-blob_bytes big_endian sample big_endian-IsBigEndian
      (unfold structure_bytes token_bytes nops padding word_bytes in omega arith))

abbrev regs : Registers
regs = record {
  bytes = entries_bytes ((1 ∷ (2 ∷ []), 3 ∷ []) ∷ []);
  address_cells = 2;
  size_cells = 1;
}

collect_registers-entries_bytes_example :
    collect_registers big_endian 2 regs 0
    ≡ returned ((number_of (1 ∷ (2 ∷ [])), number_of (3 ∷ [])) ∷ [])
collect_registers-entries_bytes_example =
    collect_registers-entries_bytes big_endian ((1 ∷ (2 ∷ []), 3 ∷ []) ∷ []) regs
      big_endian-IsBigEndian refl (omega arith)
      ((refl, refl, (omega arith, (omega arith, tt)), (omega arith, tt)), tt)

-- Twelve bytes are wanted and five are there.
abbrev short_regs : Registers
short_regs = record { bytes = text "abcde"; address_cells = 2; size_cells = 1 }

next_register-panics_example : next_register big_endian short_regs 0 ≡ panics
next_register-panics_example =
    next_register-panics big_endian short_regs 0 big_endian-IsBigEndian (omega arith) (omega arith)

-- A string of the list is "ab", and its first byte is found as well.
abbrev strings : StringList
strings = record { bytes = text "ab" ++ (0 ∷ []) }

contains-Occurs_example :
    (b : Bool) × (contains strings (text "a") ≡ returned b)
    × (b ≡ true ↔ Occurs (text "a") strings.bytes)
contains-Occurs_example = contains-Occurs strings (text "a") (λ e. cc)

part_found : contains strings (text "a") ≡ returned true
unfolding contains any_window same_bytes
part_found = refl

-- The root of the sample, as it is found at the path of a slash
abbrev root : Node
root = record {
  properties = (text "model", text "ab" ++ (0 ∷ [])) ∷ [];
  children = branch (text "cpu@1") ((text "reg", word_bytes 9) ∷ []) leaf leaf;
  cells = record { address = none; size = none };
}

iter_nodes_named-Items_example :
    (it : NodesNamedIter) × (items : List NodeItem) × (iter_nodes_named big_endian sample_tree
        (text "/")
        (text "cpu")
      ≡ returned (some it))
    × (collect_nodes big_endian sample_tree (suc (length (named (text "cpu") root.children))) it
        ≡ returned items)
    × Items big_endian sample_tree root.cells items (named (text "cpu") root.children)
iter_nodes_named-Items_example =
    iter_nodes_named-Items big_endian sample_tree sample_nodes (text "/") (text "cpu") root
      root.cells big_endian-IsBigEndian sample_yields
      (unfold find_node same_bytes split_path in refl)
      (unfold cells_after update_cells same_bytes in refl)

-- A node of the structure, from the offset behind the first token of the root
root_contents : Yields big_endian sample_tree 8 (contents root.properties root.children) 64
unfolding word_bytes structure_bytes token_bytes nops padding next next_from word_at slice_from
    slice token_type name_end_from scan_name pad_end_4b property_from read_token start_from
    same_bytes
root_contents = (28, refl, (40, refl, (56, refl, (60, refl, (64, refl, refl)))))

skip_node-contents_example : skip_node big_endian sample_tree 8 ≡ returned 64
skip_node-contents_example =
    skip_node-contents big_endian sample_tree root.properties root.children 8 64
      big_endian-IsBigEndian root_contents

collect_properties-parse_all_example :
    collect_properties big_endian sample_tree 2 (properties_at 8 2 1)
    ≡ parse_all big_endian 2 1 root.properties
collect_properties-parse_all_example =
    collect_properties-parse_all big_endian sample_tree root.properties root.children 2 1 8 64 2
      big_endian-IsBigEndian root_contents (omega arith)
