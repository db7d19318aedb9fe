-- ===== src/Platform/DeviceTree/Tokens/Loops.antt =====
-- Loops over the tokens of a tree end, and do not move the iterator back, if their body does so.
use endless_hole.Base.{Bool, if◌then◌else◌, true, false, ◌==◌, ◌-◌, refl}
use endless_hole.Base.{ℕ, zero, suc, ◌+◌, ◌≤◌, ◌<◌, arith, ◌≡◌, ◌≢◌}
use endless_hole.Base.{length, Option, none, some}
use endless_hole.Platform.DeviceTree.Bytes.{
  Run, returned, panics, out_of_fuel, ◌>>=◌, ByteOrder, IsBigEndian, >>=-eq-returned,
  >>=-ne-out_of_fuel, returned-snd, returned-injective,
}
use endless_hole.Platform.DeviceTree.Fdt.{Token, start_node, close_node, property, DeviceTree}
use endless_hole.Platform.DeviceTree.Tokens.Total.{next-le, next-ne-out_of_fuel}
use endless_hole.Platform.DeviceTree.Tokens.{
  next, follow, on_item, for_tokens, Flow, continue, break, enough, skip_token, skip_node,
}

-- A body comes to an end, and does not move the iterator back.
pub data Keeps {S R : Type 0} (at : ℕ) : Run (Flow S R) → Type 0 where
  goes_on : {s : S} {off : ℕ} → at ≤ off → Keeps at (returned (continue s off))
  leaves : {r : R} {off : ℕ} → at ≤ off → Keeps at (returned (break r off))
  stops : Keeps at panics

module _ {S R : Type 0} where
  pub Keeps-if :
      (b : Bool) (at : ℕ) {x y : Run (Flow S R)}
      → Keeps at x
      → Keeps at y
      → Keeps at (if b then x else y)
  Keeps-if true at hx hy = hx
  Keeps-if false at hx hy = hy

  pub Keeps-bind :
      {A : Type 0} (r : Run A) (at : ℕ) {f : A → Run (Flow S R)}
      → r ≢ out_of_fuel
      → ((a : A) → r ≡ returned a → Keeps at (f a))
      → Keeps at (r >>= f)
  Keeps-bind (returned a) at ne k = k a refl
  Keeps-bind panics at ne k = stops
  Keeps-bind out_of_fuel at ne k = absurd (ne refl)

module _ (o : ByteOrder) (dt : DeviceTree) where
  -- A loop with such a body does the same.
  module _ {S R : Type 0} (body : S → Token → ℕ → Run (Flow S R)) (after : S → R) where
    abbrev pub KeepsOn : Type 0
    KeepsOn = (s : S) (t : Token) (at : ℕ) → Keeps at (body s t at)

    follow-ne-out_of_fuel :
        (again : S → ℕ → Run (R × ℕ)) (r : Run (Flow S R)) (at : ℕ)
        → Keeps at r
        → ((s : S) (off : ℕ) → at ≤ off → again s off ≢ out_of_fuel)
        → (r >>= follow o dt body after again) ≢ out_of_fuel
    unfolding follow
    follow-ne-out_of_fuel again r at (goes_on k) g = g _ _ k
    follow-ne-out_of_fuel again r at (leaves k) g = λ p. cc
    follow-ne-out_of_fuel again r at stops g = λ p. cc

    on_item-ne-out_of_fuel :
        KeepsOn
        → (again : S → ℕ → Run (R × ℕ)) (s : S) (item : Option Token) (at : ℕ)
        → ((s' : S) (off : ℕ) → at ≤ off → again s' off ≢ out_of_fuel)
        → on_item o dt body after again s (item, at) ≢ out_of_fuel
    unfolding on_item
    on_item-ne-out_of_fuel keeps again s none at k = λ p. cc
    on_item-ne-out_of_fuel keeps again s (some t) at k =
        follow-ne-out_of_fuel again (body s t at) at (keeps s t at) k

    pub for_tokens-ne-out_of_fuel :
        IsBigEndian o
        → KeepsOn
        → (fuel : ℕ) (s : S) (at : ℕ) → length dt.structure < at + suc fuel
        → for_tokens o dt body after (suc fuel) s at ≢ out_of_fuel
    unfolding for_tokens
    for_tokens-ne-out_of_fuel big keeps zero s at h =
        >>=-ne-out_of_fuel (next o dt at) (next-ne-out_of_fuel o dt big at)
          λ item e. let (inside, _) = next-le o dt big at e in absurd (omega arith)
    for_tokens-ne-out_of_fuel big keeps (suc fuel) s at h =
        >>=-ne-out_of_fuel (next o dt at) (next-ne-out_of_fuel o dt big at) λ item e.
          let (inside, moved) = next-le o dt big at e in
          on_item-ne-out_of_fuel keeps (for_tokens o dt body after (suc fuel)) s (item.0) (item.1)
            λ s' off le. for_tokens-ne-out_of_fuel big keeps fuel s' off (omega arith)

    abbrev Onward : (S → ℕ → Run (R × ℕ)) → Type 0
    Onward again = (s : S) (at : ℕ) (r : R) (off : ℕ) → again s at ≡ returned (r, off) → at ≤ off

    follow-le :
        (again : S → ℕ → Run (R × ℕ)) (b : Run (Flow S R)) (at : ℕ) {r : R} {off : ℕ}
        → Keeps at b
        → Onward again
        → (b >>= follow o dt body after again) ≡ returned (r, off)
        → at ≤ off
    unfolding follow
    follow-le again b at {r} {off} (goes_on {s} {off = mid} k) g h =
        let later = g s mid r off h in omega arith
    follow-le again b at (leaves k) g h = omega (arith, returned-snd h)
    follow-le again b at stops g h = cc

    on_item-le :
        KeepsOn
        → (again : S → ℕ → Run (R × ℕ)) (s : S) (item : Option Token) (at : ℕ) {r : R} {off : ℕ}
        → Onward again
        → on_item o dt body after again s (item, at) ≡ returned (r, off)
        → at ≤ off
    unfolding on_item
    on_item-le keeps again s none at g h = omega (arith, returned-snd h)
    on_item-le keeps again s (some t) at g h = follow-le again (body s t at) at (keeps s t at) g h

    pub for_tokens-le :
        IsBigEndian o → KeepsOn → (fuel : ℕ) → Onward (for_tokens o dt body after fuel)
    unfolding for_tokens
    for_tokens-le big keeps zero s at r off h = cc
    for_tokens-le big keeps (suc fuel) s at r off h =
        let (item, e, h) = >>=-eq-returned (next o dt at) h in
        let (_, moved) = next-le o dt big at e in
        let onward =
          on_item-le keeps (for_tokens o dt body after fuel) s (item.0) (item.1)
            (for_tokens-le big keeps fuel) h in
        omega arith

    pub for_tokens-moves :
        IsBigEndian o
        → KeepsOn
        → (fuel : ℕ) (s : S) (at : ℕ) {r : R} {off : ℕ}
        → for_tokens o dt body after fuel s at ≡ returned (r, off)
        → (at + 4 ≤ length dt.structure) × (at + 4 ≤ off)
    unfolding for_tokens
    for_tokens-moves big keeps zero s at h = cc
    for_tokens-moves big keeps (suc fuel) s at h =
        let (item, e, h) = >>=-eq-returned (next o dt at) h in
        let (inside, moved) = next-le o dt big at e in
        let onward =
          on_item-le keeps (for_tokens o dt body after fuel) s (item.0) (item.1)
            (for_tokens-le big keeps fuel) h in
        (inside, omega arith)

  pub skip_token-KeepsOn : KeepsOn (skip_token o dt) (λ depth. tt {0})
  unfolding skip_token
  skip_token-KeepsOn depth (start_node name) at = goes_on (omega arith)
  skip_token-KeepsOn depth close_node at =
      Keeps-if (depth - 1 == 0) at (leaves (omega arith)) (goes_on (omega arith))
  skip_token-KeepsOn depth (property name bytes) at = goes_on (omega arith)

  pub skip_node-ne-out_of_fuel : IsBigEndian o → (at : ℕ) → skip_node o dt at ≢ out_of_fuel
  unfolding skip_node
  skip_node-ne-out_of_fuel big at =
      >>=-ne-out_of_fuel _
        (for_tokens-ne-out_of_fuel _ _ big skip_token-KeepsOn _ 1 at (omega arith)) λ r e p. cc

  pub skip_node-le :
      IsBigEndian o → (at : ℕ) {off : ℕ} → skip_node o dt at ≡ returned off → at ≤ off
  unfolding skip_node
  skip_node-le big at h =
      let ((r, mid), e, h) =
        >>=-eq-returned (for_tokens o dt (skip_token o dt) (λ depth. tt) (enough o dt) 1 at) h in
      let moved =
        for_tokens-le (skip_token o dt) (λ depth. tt) big skip_token-KeepsOn (enough o dt) 1 at r
          mid e in
      omega (arith, returned-injective h)
