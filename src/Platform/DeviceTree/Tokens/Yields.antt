-- ===== src/Platform/DeviceTree/Tokens/Yields.antt =====
-- What an iterator is going to yield: a sequence of tokens, and where it stands behind them.
use endless_hole.Base.{ℕ, List, [], ◌∷◌, ◌++◌, ◌≡◌, refl, some, none}
use endless_hole.Platform.DeviceTree.Bytes.{ByteOrder, returned}
use endless_hole.Platform.DeviceTree.Fdt.{Token, DeviceTree}
use endless_hole.Platform.DeviceTree.Tokens.{next}

module _ (o : ByteOrder) (dt : DeviceTree) where
  abbrev pub Yields : ℕ → List Token → ℕ → Type 0
  Yields at [] off = at ≡ off
  Yields at (t ∷ ts) off = (mid : ℕ) × (next o dt at ≡ returned (some t, mid)) × Yields mid ts off

  -- The tokens, and then the end of the structure
  abbrev pub YieldsAll : ℕ → List Token → Type 0
  YieldsAll at ts =
      (off : ℕ) × (last : ℕ) × (Yields at ts off) × (next o dt off ≡ returned (none, last))

  pub Yields-append :
      (xs ys : List Token) (at off : ℕ)
      → Yields at (xs ++ ys) off
      → (mid : ℕ) × Yields at xs mid × Yields mid ys off
  Yields-append [] ys at off h = (at, refl, h)
  Yields-append (x ∷ xs) ys at off (next_at, e, h) =
      let (mid, before, behind) = Yields-append xs ys next_at off h in
      (mid, (next_at, e, before), behind)

  pub Yields-join :
      (xs ys : List Token) (at mid off : ℕ)
      → Yields at xs mid
      → Yields mid ys off
      → Yields at (xs ++ ys) off
  Yields-join [] ys at mid off e h = rw e h
  Yields-join (x ∷ xs) ys at mid off (next_at, e, g) h =
      (next_at, e, Yields-join xs ys next_at mid off g h)
