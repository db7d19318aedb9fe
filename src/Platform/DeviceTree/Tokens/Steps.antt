-- ===== src/Platform/DeviceTree/Tokens/Steps.antt =====
-- A loop over tokens one token at a time: with enough fuel it does not depend on the fuel.
use endless_hole.Base.{ℕ, zero, suc, ◌+◌, ◌≤◌, ◌<◌, arith, ◌≡◌, refl}
use endless_hole.Base.{length, Option, none, some}
use endless_hole.Platform.DeviceTree.Bytes.{Run, returned, ◌>>=◌, ByteOrder, IsBigEndian, Run-cases}
use endless_hole.Base.{inl, inr}
use endless_hole.Platform.DeviceTree.Fdt.{Token, DeviceTree}
use endless_hole.Platform.DeviceTree.Tokens.{Flow, next, follow, on_item, for_tokens, enough}
use endless_hole.Platform.DeviceTree.Tokens.Total.{next-le}
use endless_hole.Platform.DeviceTree.Tokens.Loops.{Keeps, KeepsOn, goes_on, leaves, stops}

module _ (o : ByteOrder) (dt : DeviceTree) (big : IsBigEndian o) where
  module _ {S R : Type 0} (body : S → Token → ℕ → Run (Flow S R)) (after : S → R) where
    abbrev pub loop : S → ℕ → Run (R × ℕ)
    loop s at = for_tokens o dt body after (enough o dt) s at

    module _ (keeps : KeepsOn o dt body after) where
      follow_same :
          (f g : S → ℕ → Run (R × ℕ)) (r : Run (Flow S R)) (at : ℕ)
          → Keeps at r
          → ((s : S) (off : ℕ) → at ≤ off → f s off ≡ g s off)
          → (r >>= follow o dt body after f) ≡ (r >>= follow o dt body after g)
      unfolding follow
      follow_same f g r at (goes_on k) h = h _ _ k
      follow_same f g r at (leaves k) h = refl
      follow_same f g r at stops h = refl

      on_item_same :
          (f g : S → ℕ → Run (R × ℕ)) (s : S) (item : Option Token) (at : ℕ)
          → ((s : S) (off : ℕ) → at ≤ off → f s off ≡ g s off)
          → on_item o dt body after f s (item, at) ≡ on_item o dt body after g s (item, at)
      unfolding on_item
      on_item_same f g s none at h = refl
      on_item_same f g s (some t) at h = follow_same f g (body s t at) at (keeps s t at) h

      -- Both runs make the same first call, and go on alike.
      first_same :
          (f g : ℕ) (s : S) (at : ℕ)
          → ((item : Option Token) (mid : ℕ)
              → next o dt at ≡ returned (item, mid)
              → on_item o dt body after (for_tokens o dt body after f) s (item, mid)
                ≡ on_item o dt body after (for_tokens o dt body after g) s (item, mid))
          → for_tokens o dt body after (suc f) s at ≡ for_tokens o dt body after (suc g) s at
      unfolding for_tokens
      first_same f g s at h = elim (Run-cases (next o dt at)) [
        | inl ((item, mid), e) ↦ rw e (h item mid e)
        | inr (inl e) ↦ rw e refl
        | inr (inr e) ↦ rw e refl
      ]

      for_tokens_same :
          (f g : ℕ) (s : S) (at : ℕ)
          → length dt.structure < at + suc f
          → length dt.structure < at + suc g
          → for_tokens o dt body after (suc f) s at ≡ for_tokens o dt body after (suc g) s at
      for_tokens_same zero g s at hf hg =
          first_same zero g s at
            λ item mid e. let (inside, moved) = next-le o dt big at e in absurd (omega arith)
      for_tokens_same (suc f) zero s at hf hg =
          first_same (suc f) zero s at
            λ item mid e. let (inside, moved) = next-le o dt big at e in absurd (omega arith)
      for_tokens_same (suc f) (suc g) s at hf hg = first_same (suc f) (suc g) s at λ item mid e.
          let (inside, moved) = next-le o dt big at e in
          on_item_same (for_tokens o dt body after (suc f)) (for_tokens o dt body after (suc g)) s
            item mid λ t off le. for_tokens_same f g t off (omega arith) (omega arith)

      one_less :
          (size : ℕ) (s : S) (off : ℕ)
          → length dt.structure ≡ size
          → 4 ≤ size
          → 4 ≤ off
          → for_tokens o dt body after size s off ≡ for_tokens o dt body after (suc size) s off
      one_less zero s off e some_bytes moved = absurd (omega arith)
      one_less (suc size) s off e some_bytes moved =
          for_tokens_same size (suc size) s off (omega arith) (omega arith)

      -- The loop at a token, and at the end of the structure
      pub loop-some :
          (s : S) (at : ℕ) {t : Token} {mid : ℕ}
          → next o dt at ≡ returned (some t, mid)
          → loop s at ≡ (body s t mid >>= follow o dt body after loop)
      unfolding for_tokens on_item
      loop-some s at {t} {mid} e =
          let (inside, moved) = next-le o dt big at e in
          rw e (
            follow_same (for_tokens o dt body after (length dt.structure)) loop (body s t mid) mid
              (keeps s t mid)
              λ s' off le. one_less (length dt.structure) s' off refl (omega arith) (omega arith))

      pub loop-none :
          (s : S) (at : ℕ) {mid : ℕ}
          → next o dt at ≡ returned (none, mid)
          → loop s at ≡ returned (after s, mid)
      unfolding for_tokens on_item
      loop-none s at e = rw e refl
