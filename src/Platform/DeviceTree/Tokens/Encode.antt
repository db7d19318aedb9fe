-- ===== src/Platform/DeviceTree/Tokens/Encode.antt =====
-- Tokens as the bytes of a structure, as the specification of device trees lays them out, and that
-- `next` reads them back.
use endless_hole.Base.{ℕ, zero, suc, ◌+◌, ◌-◌, ◌%◌, ◌^◌, ◌≤◌, ◌<◌, arith, ◌≡◌, ◌≢◌, refl, ap, ◌∙◌}
use endless_hole.Base.{List, [], ◌∷◌, ◌++◌, length, length-append, replicate}
use endless_hole.Base.{All, ==_of_ne}
use endless_hole.Platform.DeviceTree.Bytes.{
  returned, ByteOrder, IsBigEndian, word_at, word_at-drop, word_bytes, length-word_bytes, slice,
  slice-drop, drop, drop-add, drop-append, length-from_drop,
}
use endless_hole.Platform.DeviceTree.Fdt.{Token, start_node, close_node, property}
use endless_hole.Platform.DeviceTree.Tokens.{scan_name, name_end_from}

-- The zeros up to the next multiple of 4
unfoldable pub padding : ℕ → List ℕ
padding n = replicate ((4 - n % 4) % 4) 0

unfoldable pub nops : ℕ → List ℕ
nops zero = []
nops (suc k) = word_bytes 0x04 ++ nops k

-- `place` says where the block of strings holds a name.
module _ (place : List ℕ → ℕ) where
  unfoldable pub token_bytes : Token → List ℕ
  unfolding padding
  token_bytes (start_node name) = word_bytes 0x01 ++ (name ++ (0 ∷ padding (suc (length name))))
  token_bytes close_node = word_bytes 0x02
  token_bytes (property name bytes) =
      word_bytes 0x03
      ++ (word_bytes (length bytes)
          ++ (word_bytes (place name) ++ (bytes ++ padding (length bytes))))

  -- Each token has as many ignored words before it as its number says, and the end has `last`.
  unfoldable pub structure_bytes : List (ℕ × Token) → ℕ → List ℕ
  unfolding token_bytes nops
  structure_bytes [] last = nops last ++ word_bytes 0x09
  structure_bytes ((k, t) ∷ items) last = nops k ++ (token_bytes t ++ structure_bytes items last)

  -- A name has no zero in it; the strings hold it at its place, with a zero behind it.
  abbrev pub IsPlaced : List ℕ → List ℕ → Type 0
  IsPlaced strings name =
      (All (λ b. b ≢ 0) name)
      × (place name < 2 ^ 32)
      × (place name ≤ length strings)
      × ((rest : List ℕ) × (drop (place name) strings ≡ name ++ (0 ∷ rest)))

  abbrev pub Encodable : List ℕ → Token → Type 0
  Encodable strings (start_node name) = All (λ b. b ≢ 0) name
  Encodable strings close_node = Unit
  Encodable strings (property name bytes) = (length bytes < 2 ^ 32) × IsPlaced strings name

-- What stands in a slice from a place on
abbrev pub At : List ℕ → ℕ → List ℕ → Type 0
At xs at rest = (at ≤ length xs) × (drop at xs ≡ rest)

pub At-append :
    (xs chunk rest : List ℕ) (at off : ℕ)
    → off ≡ at + length chunk
    → At xs at (chunk ++ rest)
    → At xs off rest
At-append xs chunk rest at off e (le, d) =
    let size = length-from_drop xs (chunk ++ rest) at le d in
    (
      omega (arith, length-append {0} chunk rest),
      rw e (drop-add at (length chunk) xs ∙ ap (drop (length chunk)) d ∙ drop-append chunk rest),
    )

pub At-length :
    (xs chunk rest : List ℕ) (at : ℕ) → At xs at (chunk ++ rest) → at + length chunk ≤ length xs
At-length xs chunk rest at stands = (At-append xs chunk rest at (at + length chunk) refl stands).0

pub At-word :
    (o : ByteOrder)
    → IsBigEndian o
    → (xs rest : List ℕ) (at w : ℕ) → w < 2 ^ 32
    → At xs at (word_bytes w ++ rest)
    → (word_at o xs at ≡ returned w) × At xs (at + 4) rest
At-word o big xs rest at w small (le, d) = (
  word_at-drop o big xs at w rest d le small,
  At-append xs (word_bytes w) rest at (at + 4) (omega (arith, length-word_bytes w)) (le, d),
)

pub At-slice :
    (xs chunk rest : List ℕ) (at off : ℕ)
    → off ≡ at + length chunk
    → At xs at (chunk ++ rest)
    → slice xs at off ≡ returned chunk
At-slice xs chunk rest at off e (le, d) =
    slice-drop xs chunk rest at off d e (At-append xs chunk rest at off e (le, d)).0

scan_name_lem :
    (name rest : List ℕ) (start : ℕ)
    → All (λ b. b ≢ 0) name
    → scan_name (name ++ (0 ∷ rest)) start ≡ start + length name
unfolding scan_name
scan_name_lem [] rest start h = omega arith
scan_name_lem (b ∷ name) rest start (ne, h) =
    rw (==_of_ne b 0 ne) (omega (arith, scan_name_lem name rest (start + 1) h))

pub name_end_from_lem :
    (xs name rest : List ℕ) (at : ℕ)
    → All (λ b. b ≢ 0) name
    → At xs at (name ++ (0 ∷ rest))
    → name_end_from xs at ≡ at + length name
unfolding name_end_from
name_end_from_lem xs name rest at h (le, d) = rw d (scan_name_lem name rest at h)
