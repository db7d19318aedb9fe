-- ===== src/Platform/DeviceTree/Bytes.antt =====
-- Slices of bytes as the parser takes them, and the trait of the crate byteorder that it reads
-- numbers with (kernel_core/src/platform/device_tree/fdt.rs).
use endless_hole.Base.{ℕ, zero, suc, ◌+◌, ◌-◌, ◌*◌, ◌/◌, ◌%◌, ◌^◌, ◌≤◌, ◌<◌, arith}
use endless_hole.Base.{Bool, true, false, ◌&&◌, List, [], ◌∷◌, ◌++◌, length, Option, none, some}
use endless_hole.Base.{leb, ◌==◌, if◌then◌else◌, ◌≡◌, ◌≢◌, ◌⊎◌, inl, inr, refl, ap, ◌∙◌}
use endless_hole.Base.{Bool-cases, eq_of_==, ==_refl, le_of_leb, lt_of_not_leb, leb_of_le}
use Prim.Native.Char.{code}
use Prim.Native.String.{String}

-- What a call comes to: a value or a panic; or the model has run out of fuel.
pub data Run {ℓ} (A : Type ℓ) : Type ℓ where
  returned : A → Run A
  panics : Run A
  out_of_fuel : Run A

infixl 5 ◌>>=◌
abbrev pub ◌>>=◌ {ℓ κ} : {A : Type ℓ} {B : Type κ} → Run A → (A → Run B) → Run B
returned a >>= f = f a
panics >>= f = panics
out_of_fuel >>= f = out_of_fuel

pub Run-cases {ℓ} :
    {A : Type ℓ} (r : Run A) → ((a : A) × (r ≡ returned a)) ⊎ ((r ≡ panics) ⊎ (r ≡ out_of_fuel))
Run-cases (returned a) = inl (a, refl)
Run-cases panics = inr (inl refl)
Run-cases out_of_fuel = inr (inr refl)

pub returned-injective {ℓ} : {A : Type ℓ} {a b : A} → returned a ≡ returned b → a ≡ b
returned-injective h = cc

pub returned-snd {ℓ} :
    {A : Type ℓ} {a b : A} {m n : ℕ}
    → ◌≡◌ {A = Run (A × ℕ)} (returned (a, m)) (returned (b, n))
    → m ≡ n
returned-snd {A = A} h = ap (λ (p : A × ℕ). p.1) (returned-injective h)

-- A value that comes out of a chain came out of its first call.
pub >>=-eq-returned {ℓ κ} :
    {A : Type ℓ} {B : Type κ} (r : Run A) {f : A → Run B} {b : B}
    → (r >>= f) ≡ returned b
    → (a : A) × (r ≡ returned a) × (f a ≡ returned b)
>>=-eq-returned (returned a) h = (a, refl, h)
>>=-eq-returned panics h = cc
>>=-eq-returned out_of_fuel h = cc

pub >>=-ne-out_of_fuel {ℓ κ} :
    {A : Type ℓ} {B : Type κ} (r : Run A) {f : A → Run B}
    → r ≢ out_of_fuel
    → ((a : A) → r ≡ returned a → f a ≢ out_of_fuel)
    → (r >>= f) ≢ out_of_fuel
>>=-ne-out_of_fuel (returned a) h k = k a refl
>>=-ne-out_of_fuel panics h k = cc
>>=-ne-out_of_fuel out_of_fuel h k = absurd (h refl)

pub returned-ne-out_of_fuel {ℓ} : {A : Type ℓ} (a : A) → returned a ≢ out_of_fuel
returned-ne-out_of_fuel a p = cc

abbrev pub or_panic {ℓ} : {A : Type ℓ} → Option A → Run A
or_panic none = panics
or_panic (some a) = returned a

module _ {ℓ} {A : Type ℓ} where
  abbrev pub drop : ℕ → List A → List A
  drop zero xs = xs
  drop (suc n) [] = []
  drop (suc n) (x ∷ xs) = drop n xs

  abbrev pub take : ℕ → List A → List A
  take zero xs = []
  take (suc n) [] = []
  take (suc n) (x ∷ xs) = x ∷ take n xs

  -- `&xs[start..]` and `&xs[start..end]`
  unfoldable pub slice_from : List A → ℕ → Run (List A)
  slice_from xs start = if leb start (length xs) then returned (drop start xs) else panics

  unfoldable pub slice : List A → ℕ → ℕ → Run (List A)
  slice xs start end =
      if leb start end && leb end (length xs)
      then returned (take (end - start) (drop start xs))
      else panics

  pub drop-add : (m n : ℕ) (xs : List A) → drop (m + n) xs ≡ drop n (drop m xs)
  drop-add zero n xs = let e : zero + n ≡ n = omega arith in rw e refl
  drop-add (suc m) zero [] = let e : suc m + zero ≡ suc m = omega arith in rw e refl
  drop-add (suc m) (suc n) [] = let e : suc m + suc n ≡ suc (m + suc n) = omega arith in rw e refl
  drop-add (suc m) n (x ∷ xs) =
      let e : suc m + n ≡ suc (m + n) = omega arith in rw e (drop-add m n xs)

  pub drop-append : (xs ys : List A) → drop (length xs) (xs ++ ys) ≡ ys
  drop-append [] ys = refl
  drop-append (x ∷ xs) ys = drop-append xs ys

  pub take-append : (xs ys : List A) → take (length xs) (xs ++ ys) ≡ xs
  take-append [] ys = refl
  take-append (x ∷ xs) ys = ap (λ (zs : List A). x ∷ zs) (take-append xs ys)

  pub length-drop : (n : ℕ) (xs : List A) → length (drop n xs) ≡ length xs - n
  length-drop zero xs = omega arith
  length-drop (suc n) [] = omega arith
  length-drop (suc n) (x ∷ xs) = omega (arith, length-drop n xs)

-- The functions of `BigEndian` that the parser calls; `none` stands for their panic.
pub record ByteOrder : Type 0 where
  pub read_u32 : List ℕ → Option ℕ
  pub read_u64 : List ℕ → Option ℕ

-- A word of 32 bits as four bytes, the highest first
unfoldable pub word_bytes : ℕ → List ℕ
word_bytes w = (w / 2 ^ 24 % 256) ∷ ((w / 2 ^ 16 % 256) ∷ ((w / 2 ^ 8 % 256) ∷ ((w % 256) ∷ [])))

-- What byteorder documents: the first bytes are read, the highest first, and too few of them panic.
pub record IsBigEndian (o : ByteOrder) : Type 0 where
  pub word_read :
      (a b c d : ℕ) (rest : List ℕ)
      → o.read_u32 (a ∷ (b ∷ (c ∷ (d ∷ rest)))) ≡ some (((a * 256 + b) * 256 + c) * 256 + d)
  pub word_short : (xs : List ℕ) → length xs < 4 → o.read_u32 xs ≡ none
  pub long_read :
      (hi lo : ℕ) (rest : List ℕ)
      → hi < 2 ^ 32
      → lo < 2 ^ 32
      → o.read_u64 (word_bytes hi ++ (word_bytes lo ++ rest)) ≡ some (hi * 2 ^ 32 + lo)

pub read_u32-word_bytes :
    (o : ByteOrder)
    → IsBigEndian o
    → (w : ℕ) (rest : List ℕ) → w < 2 ^ 32
    → o.read_u32 (word_bytes w ++ rest) ≡ some w
unfolding word_bytes
read_u32-word_bytes o big w rest h = big.word_read _ _ _ _ rest ∙ ap some (omega arith)

pub length-word_bytes : (w : ℕ) → length (word_bytes w) ≡ 4
unfolding word_bytes
length-word_bytes w = refl

-- `BigEndian::read_u32(&xs[start..])`
unfoldable pub word_at : ByteOrder → List ℕ → ℕ → Run ℕ
word_at o xs start = slice_from xs start >>= λ bytes. or_panic (o.read_u32 bytes)

-- `BigEndian::read_u64(&xs[start..])`
unfoldable pub long_at : ByteOrder → List ℕ → ℕ → Run ℕ
long_at o xs start = slice_from xs start >>= λ bytes. or_panic (o.read_u64 bytes)

pub long_at-drop :
    (o : ByteOrder)
    → IsBigEndian o
    → (xs : List ℕ) (start hi lo : ℕ) (rest : List ℕ)
    → drop start xs ≡ word_bytes hi ++ (word_bytes lo ++ rest)
    → start ≤ length xs
    → hi < 2 ^ 32
    → lo < 2 ^ 32
    → long_at o xs start ≡ returned (hi * 2 ^ 32 + lo)
unfolding long_at slice_from
long_at-drop o big xs start hi lo rest d h a b =
    rw (leb_of_le _ _ h, d, big.long_read hi lo rest a b) refl

-- The word that stands at a place
pub word_at-drop :
    (o : ByteOrder)
    → IsBigEndian o
    → (xs : List ℕ) (start w : ℕ) (rest : List ℕ) → drop start xs ≡ word_bytes w ++ rest
    → start ≤ length xs
    → w < 2 ^ 32
    → word_at o xs start ≡ returned w
unfolding word_at slice_from
word_at-drop o big xs start w rest d h small =
    rw (leb_of_le _ _ h, d, read_u32-word_bytes o big w rest small) refl

pub word_at-le :
    (o : ByteOrder)
    → IsBigEndian o
    → (xs : List ℕ) (start : ℕ) {w : ℕ} → word_at o xs start ≡ returned w
    → start + 4 ≤ length xs
unfolding word_at slice_from
word_at-le o big xs start {w} h = elim (Bool-cases (leb start (length xs))) [
  | inl e ↦ elim (Bool-cases (leb 4 (length (drop start xs)))) [
    | inl f ↦ omega (arith, length-drop start xs, le_of_leb _ _ e, le_of_leb _ _ f)
    | inr f ↦
        let short : o.read_u32 (drop start xs) ≡ none = big.word_short _ (lt_of_not_leb _ _ f) in
        let bad : panics ≡ returned w = rw (e, short) at h in cc
  ]
  | inr e ↦ let bad : panics ≡ returned w = rw e at h in cc
]

pub word_at-ne-out_of_fuel :
    (o : ByteOrder) (xs : List ℕ) (start : ℕ) → word_at o xs start ≢ out_of_fuel
unfolding word_at slice_from
word_at-ne-out_of_fuel o xs start = elim (Bool-cases (leb start (length xs))) [
  | inl e ↦ rw e (option (o.read_u32 (drop start xs)))
  | inr e ↦ rw e (λ p. cc)
]
  where
    option : (r : Option ℕ) → or_panic r ≢ out_of_fuel
    option none = λ p. cc
    option (some a) = λ p. cc

-- The bytes of a text, and the comparison of two slices of bytes
abbrev pub text : String → List ℕ
text String.[] = []
text (String.◌∷◌ c s) = code c ∷ text s

unfoldable pub same_bytes : List ℕ → List ℕ → Bool
same_bytes [] [] = true
same_bytes [] (y ∷ ys) = false
same_bytes (x ∷ xs) [] = false
same_bytes (x ∷ xs) (y ∷ ys) = x == y && same_bytes xs ys

pub same_bytes-eq : (xs ys : List ℕ) → same_bytes xs ys ≡ true → xs ≡ ys
unfolding same_bytes
same_bytes-eq [] [] h = refl
same_bytes-eq [] (y ∷ ys) h = cc
same_bytes-eq (x ∷ xs) [] h = cc
same_bytes-eq (x ∷ xs) (y ∷ ys) h = ground (arith, eq_of_== x y, same_bytes-eq xs ys)

pub same_bytes_self : (xs : List ℕ) → same_bytes xs xs ≡ true
unfolding same_bytes
same_bytes_self [] = refl
same_bytes_self (x ∷ xs) = rw (==_refl x) (same_bytes_self xs)

module _ {ℓ} {A : Type ℓ} where
  -- A slice that does not panic lies inside.
  pub slice-le :
      (xs : List A) (start end : ℕ) {ys : List A}
      → slice xs start end ≡ returned ys
      → (start ≤ end) × (end ≤ length xs) × (ys ≡ take (end - start) (drop start xs))
  unfolding slice
  slice-le xs start end {ys} h = elim (Bool-cases (leb start end)) [
    | inl e ↦ elim (Bool-cases (leb end (length xs))) [
      | inl f ↦
          let same : returned (take (end - start) (drop start xs)) ≡ returned ys = rw (e, f) at h in
          (le_of_leb _ _ e, le_of_leb _ _ f, cc)
      | inr f ↦ let bad : panics ≡ returned ys = rw (e, f) at h in cc
    ]
    | inr e ↦ let bad : panics ≡ returned ys = rw e at h in cc
  ]

  -- A slice at a known place
  pub slice-drop :
      (xs ys rest : List A) (start end : ℕ)
      → drop start xs ≡ ys ++ rest
      → end ≡ start + length ys
      → end ≤ length xs
      → slice xs start end ≡ returned ys
  unfolding slice
  slice-drop xs ys rest start end d e h =
      let first : leb start end ≡ true = leb_of_le _ _ (omega (arith, e)) in
      let second : leb end (length xs) ≡ true = leb_of_le _ _ h in
      let size : end - start ≡ length ys = omega (arith, e) in
      rw (first, second, d, size) (ap returned (take-append ys rest))

  pub length-from_drop :
      (xs ys : List A) (n : ℕ) → n ≤ length xs → drop n xs ≡ ys → length xs ≡ n + length ys
  length-from_drop xs ys n h d = omega (arith, length-drop n xs, ap length d)

  pub slice-ne-out_of_fuel : (xs : List A) (start end : ℕ) → slice xs start end ≢ out_of_fuel
  unfolding slice
  slice-ne-out_of_fuel xs start end = elim (Bool-cases (leb start end && leb end (length xs))) [
    | inl e ↦ rw e (λ p. cc)
    | inr e ↦ rw e (λ p. cc)
  ]
