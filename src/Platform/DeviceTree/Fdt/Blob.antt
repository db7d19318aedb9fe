-- ===== src/Platform/DeviceTree/Fdt/Blob.antt =====
-- `DeviceTree::from_bytes` and `from_memory`: what they accept, and the parts of a blob that they find.
use endless_hole.Base.{ℕ, suc, ◌+◌, ◌-◌, ◌^◌, ◌≤◌, ◌<◌, arith, ◌≡◌, refl, ap, ◌∙◌, sym, subst}
use endless_hole.Base.{List, [], ◌∷◌, ◌++◌, length, get_or, length-append, true, Bool-cases}
use endless_hole.Base.{inl, inr, ◌==◌, eq_of_==, ==_refl}
use mathlib.Core.List.{append-nil}
use endless_hole.Platform.DeviceTree.Bytes.{
  returned, panics, ByteOrder, IsBigEndian, word_bytes, drop, take, slice, slice-le, slice-drop,
  >>=-eq-returned, returned-injective, word_at-drop, drop-add, drop-append,
}
use endless_hole.Platform.DeviceTree.Fdt.{
  DeviceTree, BlobHeader, header_expected_magic, magic, total_size, off_dt_struct, off_dt_strings,
  off_mem_rsvmap, size_dt_strings, size_dt_structs, take_apart, from_bytes_and_header, from_bytes,
  from_memory, from_raw_parts,
}

-- The part of `buf` from `start` on that is `size` long lies inside, and it is `part`.
abbrev pub IsPart : List ℕ → ℕ → ℕ → List ℕ → Type 0
IsPart buf start size part = (start + size ≤ length buf) × (part ≡ take size (drop start buf))

-- What `from_bytes` answers for when it returns
pub record Accepted (o : ByteOrder) (buf : List ℕ) (dt : DeviceTree) : Type 0 where
  pub header_kept : dt.header ≡ record { buf = buf }
  pub right_magic : magic o dt.header ≡ returned header_expected_magic
  pub right_size : total_size o dt.header ≡ returned (length buf)
  pub strings_inside :
      (start : ℕ) × (size : ℕ) × (off_dt_strings o dt.header ≡ returned start)
      × (size_dt_strings o dt.header ≡ returned size)
      × IsPart buf start size dt.strings
  pub structure_inside :
      (start : ℕ) × (size : ℕ) × (off_dt_struct o dt.header ≡ returned start)
      × (size_dt_structs o dt.header ≡ returned size)
      × IsPart buf start size dt.structure
  pub map_inside :
      (start : ℕ) × (size : ℕ) × (off_mem_rsvmap o dt.header ≡ returned start)
      × (off_dt_struct o dt.header ≡ returned (start + size))
      × IsPart buf start size dt.mem_map

slice-IsPart :
    (xs : List ℕ) (start size : ℕ) {ys : List ℕ}
    → slice xs start (start + size) ≡ returned ys
    → IsPart xs start size ys
slice-IsPart xs start size h =
    let (a, b, c) = slice-le xs start (start + size) h in
    let e : start + size - start ≡ size = omega arith in (b, rw e at c)

slice-IsPart_between :
    (xs : List ℕ) (start end : ℕ) {ys : List ℕ}
    → slice xs start end ≡ returned ys
    → (start + (end - start) ≡ end) × IsPart xs start (end - start) ys
slice-IsPart_between xs start end h =
    let (a, b, c) = slice-le xs start end h in (omega arith, (omega arith, c))

take_apart-Accepted :
    (o : ByteOrder) (buf : List ℕ) (dt : DeviceTree)
    → magic o (record { buf = buf }) ≡ returned header_expected_magic
    → total_size o (record { buf = buf }) ≡ returned (length buf)
    → take_apart o buf (record { buf = buf }) ≡ returned dt
    → Accepted o buf dt
unfolding take_apart
take_apart-Accepted o buf dt m t h =
    let (a, ea, h) = >>=-eq-returned _ h in
    let (b, eb, h) = >>=-eq-returned _ h in
    let (c, ec, h) = >>=-eq-returned _ h in
    let (d, ed, h) = >>=-eq-returned _ h in
    let (str, es, h) = >>=-eq-returned _ h in
    let (stt, et, h) = >>=-eq-returned _ h in
    let (f, ef, h) = >>=-eq-returned _ h in
    let (g, eg, h) = >>=-eq-returned _ h in
    let (mm, em, h) = >>=-eq-returned _ h in
    let (joined, part) = slice-IsPart_between buf f g em in
    let built : record {
      header = record { buf = buf };
      strings = str;
      structure = stt;
      mem_map = mm;
    }
        ≡ dt =
      returned-injective h in
    subst (λ (x : DeviceTree). Accepted o buf x) built
      (record {
        header_kept = refl;
        right_magic = m;
        right_size = t;
        strings_inside = (a, b, ea, eb, slice-IsPart buf a b es);
        structure_inside = (c, d, ec, ed, slice-IsPart buf c d et);
        map_inside = (f, g - f, ef, eg ∙ ap returned (sym joined), part);
      })

-- Whatever the bytes are: when `from_bytes` returns, the magic number is the expected one, the size
-- in the header is the length of the bytes, and the strings, the structure and the memory map are
-- the parts of the bytes that the header names, each wholly inside them.
pub from_bytes-Accepted :
    (o : ByteOrder) (buf : List ℕ) (dt : DeviceTree)
    → from_bytes o buf ≡ returned dt
    → Accepted o buf dt
unfolding from_bytes from_bytes_and_header
from_bytes-Accepted o buf dt h =
    let (a, ea, h) = >>=-eq-returned _ h in
    let (b, eb, h) = >>=-eq-returned _ h in
    elim (Bool-cases (a == header_expected_magic)) [
      | inl e ↦ elim (Bool-cases (b == length buf)) [
        | inl f ↦
            take_apart-Accepted o buf dt (ea ∙ ap returned (eq_of_== _ _ e))
              (eb ∙ ap returned (eq_of_== _ _ f)) (rw (e, f) at h)
        | inr f ↦ let bad : panics ≡ returned dt = rw (e, f) at h in cc
      ]
      | inr e ↦ let bad : panics ≡ returned dt = rw e at h in cc
    ]

-- The parts of a blob: three numbers of the header, and the bytes of its three regions
pub record Layout : Type 0 where
  pub version : ℕ
  pub last_comp_version : ℕ
  pub boot_cpuid_phys : ℕ
  pub mem_map : List ℕ
  pub structure : List ℕ
  pub strings : List ℕ

-- The regions stand behind the header in this order.
abbrev pub regions : Layout → List ℕ
regions l = l.mem_map ++ (l.structure ++ l.strings)

abbrev pub blob_size : Layout → ℕ
blob_size l = 40 + (length l.mem_map + (length l.structure + length l.strings))

unfoldable pub blob_bytes : Layout → List ℕ
blob_bytes l =
    word_bytes header_expected_magic
    ++ (word_bytes (blob_size l)
        ++ (word_bytes (40 + length l.mem_map)
            ++ (word_bytes (40 + length l.mem_map + length l.structure)
                ++ (word_bytes 40
                    ++ (word_bytes l.version
                        ++ (word_bytes l.last_comp_version
                            ++ (word_bytes l.boot_cpuid_phys
                                ++ (word_bytes (length l.strings)
                                    ++ (word_bytes (length l.structure) ++ regions l)))))))))

pub length-blob_bytes : (l : Layout) → length (blob_bytes l) ≡ blob_size l
unfolding blob_bytes word_bytes
length-blob_bytes l = omega (
  arith,
  length-append {0} l.mem_map (l.structure ++ l.strings),
  length-append {0} l.structure l.strings,
)

-- The words of the header, read back
record HasHeader (o : ByteOrder) (l : Layout) (h : BlobHeader) : Type 0 where
  pub magic_word : magic o h ≡ returned header_expected_magic
  pub size_word : total_size o h ≡ returned (blob_size l)
  pub structs_word : off_dt_struct o h ≡ returned (40 + length l.mem_map)
  pub strings_word : off_dt_strings o h ≡ returned (40 + length l.mem_map + length l.structure)
  pub map_word : off_mem_rsvmap o h ≡ returned 40
  pub size_strings_word : size_dt_strings o h ≡ returned (length l.strings)
  pub size_structs_word : size_dt_structs o h ≡ returned (length l.structure)

-- The first forty bytes of the blob are enough.
header_words :
    (o : ByteOrder) (l : Layout) (kept : List ℕ)
    → IsBigEndian o
    → blob_size l < 2 ^ 32
    → HasHeader o l (record { buf = take 40 (blob_bytes l) ++ kept })
unfolding blob_bytes word_bytes magic total_size off_dt_struct off_dt_strings off_mem_rsvmap
    size_dt_strings size_dt_structs
header_words o l kept big small = record {
  magic_word = word_at-drop o big _ 0 _ _ refl (omega arith) (omega arith);
  size_word = word_at-drop o big _ 4 _ _ refl (omega arith) small;
  structs_word = word_at-drop o big _ 8 _ _ refl (omega arith) (omega arith);
  strings_word = word_at-drop o big _ 12 _ _ refl (omega arith) (omega arith);
  map_word = word_at-drop o big _ 16 _ _ refl (omega arith) (omega arith);
  size_strings_word = word_at-drop o big _ 32 _ _ refl (omega arith) (omega arith);
  size_structs_word = word_at-drop o big _ 36 _ _ refl (omega arith) (omega arith);
}

-- The tree that a blob stands for, under the header that it was read with
abbrev pub tree_of : Layout → BlobHeader → DeviceTree
tree_of l h = record {
  header = h;
  strings = l.strings;
  structure = l.structure;
  mem_map = l.mem_map;
}

length-first : (l : Layout) → length (take 40 (blob_bytes l)) ≡ 40
unfolding blob_bytes word_bytes
length-first l = refl

take-first : (l : Layout) → take 40 (blob_bytes l) ++ regions l ≡ blob_bytes l
unfolding blob_bytes word_bytes
take-first l = refl

-- The regions stand where the header says.
drop-blob_bytes : (l : Layout) → drop 40 (blob_bytes l) ≡ regions l
unfolding blob_bytes word_bytes
drop-blob_bytes l = refl

drop_structure :
    (l : Layout) → drop (40 + length l.mem_map) (blob_bytes l) ≡ l.structure ++ l.strings
drop_structure l =
    drop-add 40 (length l.mem_map) (blob_bytes l)
    ∙ ap (drop (length l.mem_map)) (drop-blob_bytes l)
    ∙ drop-append l.mem_map (l.structure ++ l.strings)

drop_strings :
    (l : Layout)
    → drop (40 + length l.mem_map + length l.structure) (blob_bytes l) ≡ l.strings ++ []
drop_strings l =
    drop-add (40 + length l.mem_map) (length l.structure) (blob_bytes l)
    ∙ ap (drop (length l.structure)) (drop_structure l)
    ∙ drop-append l.structure l.strings
    ∙ sym (append-nil l.strings)

from_bytes_and_header-blob_bytes :
    (o : ByteOrder) (l : Layout) (h : BlobHeader)
    → HasHeader o l h
    → from_bytes_and_header o (blob_bytes l) h ≡ returned (tree_of l h)
unfolding from_bytes_and_header take_apart
from_bytes_and_header-blob_bytes o l h w =
    let size = length-blob_bytes l in
    let right : (blob_size l == length (blob_bytes l)) ≡ true = rw size (==_refl (blob_size l)) in
    let strings =
      slice-drop (blob_bytes l) l.strings [] _ _ (drop_strings l) refl (omega (arith, size)) in
    let structure =
      slice-drop (blob_bytes l) l.structure l.strings _ _ (drop_structure l) refl
        (omega (arith, size)) in
    let map =
      slice-drop (blob_bytes l) l.mem_map (l.structure ++ l.strings) 40 _ (drop-blob_bytes l) refl
        (omega (arith, size)) in
    rw
      (
        w.magic_word, w.size_word, right, w.strings_word, w.size_strings_word, w.structs_word,
        w.size_structs_word, strings, structure, w.map_word, map,
      )
      refl

-- A blob as the specification lays it out, smaller than 2 ^ 32 bytes: `from_bytes` returns its three
-- regions.
pub from_bytes-blob_bytes :
    (o : ByteOrder) (l : Layout)
    → IsBigEndian o
    → blob_size l < 2 ^ 32
    → from_bytes o (blob_bytes l) ≡ returned (tree_of l (record { buf = blob_bytes l }))
unfolding from_bytes blob_bytes word_bytes
from_bytes-blob_bytes o l big small =
    from_bytes_and_header-blob_bytes o l _ (header_words o l (regions l) big small)

from_raw_parts_eq :
    (memory : ℕ → ℕ) (ptr : ℕ) (bytes rest : List ℕ)
    → ((i : ℕ) → i < length (bytes ++ rest) → memory (ptr + i) ≡ get_or (bytes ++ rest) i 0)
    → from_raw_parts memory ptr (length bytes) ≡ bytes
from_raw_parts_eq memory ptr [] rest h = refl
from_raw_parts_eq memory ptr (b ∷ bytes) rest h =
    let here : ptr + 0 ≡ ptr = omega arith in
    let first : memory ptr ≡ b = rw here at (h 0 (omega arith)) in
    let shift : (i : ℕ) → ptr + 1 + i ≡ ptr + suc i = λ i. omega arith in
    let more =
      from_raw_parts_eq memory (ptr + 1) bytes rest
        (λ i lt. ap memory (shift i) ∙ h (suc i) (omega arith)) in
    cc (first, more)

-- When such a blob stands in memory at an address, `from_memory`, which is not told its length,
-- returns the same three regions, with only the forty bytes of the header kept.
pub from_memory-blob_bytes :
    (o : ByteOrder) (l : Layout) (memory : ℕ → ℕ) (ptr : ℕ)
    → IsBigEndian o
    → blob_size l < 2 ^ 32
    → ((i : ℕ) → i < length (blob_bytes l) → memory (ptr + i) ≡ get_or (blob_bytes l) i 0)
    → from_memory o memory ptr ≡ returned (tree_of l (record { buf = take 40 (blob_bytes l) }))
unfolding from_memory
from_memory-blob_bytes o l memory ptr big small stands =
    let whole : from_raw_parts memory ptr (blob_size l) ≡ blob_bytes l =
      rw (← length-blob_bytes l)
        (from_raw_parts_eq memory ptr (blob_bytes l) [] (rw append-nil stands)) in
    let header : from_raw_parts memory ptr 40 ≡ take 40 (blob_bytes l) =
      ap (from_raw_parts memory ptr) (sym (length-first l))
      ∙ from_raw_parts_eq memory ptr (take 40 (blob_bytes l)) (regions l)
          (rw (take-first l) stands) in
    let words : HasHeader o l (record { buf = take 40 (blob_bytes l) }) =
      rw append-nil at (header_words o l [] big small) in
    rw (header, words.size_word, whole) (from_bytes_and_header-blob_bytes o l _ words)
