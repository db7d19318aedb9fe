-- ===== src/Platform/DeviceTree/Sample.antt =====
-- A small blob to run the parser of kernel_core/src/platform/device_tree on, and an implementation of
-- the trait that it reads numbers with.
use mathlib.Core.List.{append-nil}
use endless_hole.Platform.DeviceTree.Tokens.Decode.{structure_bytes-YieldsAll}
use endless_hole.Base.{ℕ, ◌+◌, ◌*◌, ◌^◌, ◌<◌, arith, ◌≡◌, ◌≢◌, refl, ap, sym}
use endless_hole.Base.{List, [], ◌∷◌, ◌++◌, length, All, Option, none, some, true, false, Bool}
use endless_hole.Base.{◌==◌, if◌then◌else◌, Bool-cases, inl, inr, ne_of_not_==}
use endless_hole.Platform.DeviceTree.Bytes.{ByteOrder, IsBigEndian, word_bytes, text, same_bytes}
use endless_hole.Platform.DeviceTree.Fdt.{Token, start_node, close_node, property, DeviceTree}
use endless_hole.Platform.DeviceTree.Fdt.Blob.{Layout, blob_bytes, tree_of}
use endless_hole.Platform.DeviceTree.Tokens.Yields.{YieldsAll}
use endless_hole.Platform.DeviceTree.Tokens.Encode.{structure_bytes, Encodable}
use endless_hole.Platform.DeviceTree.Search.Nodes.{Nodes, leaf, branch, tokens}

abbrev pub read_word : List ℕ → Option ℕ
read_word (a ∷ b ∷ c ∷ d ∷ rest) = some (((a * 256 + b) * 256 + c) * 256 + d)
read_word _ = none

abbrev pub read_long : List ℕ → Option ℕ
read_long (a ∷ b ∷ c ∷ d ∷ e ∷ f ∷ g ∷ h ∷ rest) =
    some ((((a * 256 + b) * 256 + c) * 256 + d) * 2 ^ 32 + (((e * 256 + f) * 256 + g) * 256 + h))
read_long _ = none

abbrev pub big_endian : ByteOrder
big_endian = record { read_u32 = read_word; read_u64 = read_long }

pub big_endian-IsBigEndian : IsBigEndian big_endian
unfolding word_bytes
big_endian-IsBigEndian = record {
  word_read = λ a b c d rest. refl;
  word_short = short;
  long_read = λ hi lo rest a b. ap some (omega arith);
}
  where
    short : (xs : List ℕ) → length xs < 4 → read_word xs ≡ none
    short [] h = refl
    short (a ∷ []) h = refl
    short (a ∷ b ∷ []) h = refl
    short (a ∷ b ∷ c ∷ []) h = refl
    short (a ∷ b ∷ c ∷ d ∷ rest) h = absurd (omega arith)

-- Whether a byte does not occur
abbrev pub avoids : ℕ → List ℕ → Bool
avoids byte [] = true
avoids byte (b ∷ bytes) = if b == byte then false else avoids byte bytes

pub avoids-All : (byte : ℕ) (bytes : List ℕ) → avoids byte bytes ≡ true → All (λ b. b ≢ byte) bytes
avoids-All byte [] h = tt
avoids-All byte (b ∷ bytes) h = elim (Bool-cases (b == byte)) [
  | inl e ↦ let bad : false ≡ true = rw e at h in cc
  | inr e ↦ (ne_of_not_== b byte e, avoids-All byte bytes (rw e at h))
]

-- A root with a model, whose child has a `reg`, with an ignored word before one token
abbrev pub sample_nodes : Nodes
sample_nodes =
    branch [] ((text "model", text "ab" ++ (0 ∷ [])) ∷ [])
      (branch (text "cpu@1") ((text "reg", word_bytes 9) ∷ []) leaf leaf) leaf

abbrev pub sample_items : List (ℕ × Token)
sample_items =
    (0, start_node [])
    ∷ ((1, property (text "model") (text "ab" ++ (0 ∷ [])))
        ∷ ((0, start_node (text "cpu@1"))
            ∷ ((0, property (text "reg") (word_bytes 9))
                ∷ ((0, close_node) ∷ ((0, close_node) ∷ [])))))

abbrev pub sample_strings : List ℕ
sample_strings = text "model" ++ (0 ∷ (text "reg" ++ (0 ∷ [])))

abbrev pub place : List ℕ → ℕ
place name = if same_bytes name (text "reg") then 6 else 0

abbrev pub sample : Layout
sample = record {
  version = 17;
  last_comp_version = 16;
  boot_cpuid_phys = 0;
  mem_map = [];
  structure = structure_bytes place sample_items 0;
  strings = sample_strings;
}

pub sample-Encodable : All (λ item. Encodable place sample_strings (item.1)) sample_items
unfolding same_bytes word_bytes
sample-Encodable =
    let model : Encodable place sample_strings (property (text "model") (text "ab" ++ (0 ∷ []))) = (
      omega arith,
      (avoids-All 0 (text "model") refl, omega arith, omega arith, (text "reg" ++ (0 ∷ []), refl)),
    ) in
    let reg : Encodable place sample_strings (property (text "reg") (word_bytes 9)) =
      (omega arith, (avoids-All 0 (text "reg") refl, omega arith, omega arith, ([], refl))) in
    (tt, (model, (avoids-All 0 (text "cpu@1") refl, (reg, (tt, (tt, tt))))))

abbrev pub sample_tree : DeviceTree
sample_tree = tree_of sample (record { buf = blob_bytes sample })

pub sample_yields : YieldsAll big_endian sample_tree 0 (tokens sample_nodes)
sample_yields =
    structure_bytes-YieldsAll big_endian place sample_items 0 [] sample_tree big_endian-IsBigEndian
      (sym (append-nil (structure_bytes place sample_items 0))) sample-Encodable
