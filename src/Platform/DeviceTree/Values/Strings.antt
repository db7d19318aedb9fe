-- ===== src/Platform/DeviceTree/Values/Strings.antt =====
-- Lists of strings: what the iterator yields, and what `contains` looks for.
use endless_hole.Base.{ℕ, zero, suc, ◌+◌, ◌<◌, arith, ◌≡◌, ◌≢◌, refl, ap, sym, ◌∙◌, ◌↔◌}
use endless_hole.Base.{List, [], ◌∷◌, ◌++◌, length, length-append, All, some, none, Option}
use endless_hole.Base.{Bool, true, false, ◌&&◌, ◌||◌, leb, ==_of_ne, Bool-cases}
use endless_hole.Base.{inl, inr, leb_of_le}
use mathlib.Core.List.{append_assoc}
use endless_hole.Platform.DeviceTree.Bytes.{
  returned, drop, take, take-append, length-from_drop, same_bytes, same_bytes-eq, same_bytes_self,
}
use endless_hole.Platform.DeviceTree.Values.{
  from_bytes_until_nul, StringList, any_window, contains, next_string,
}
use endless_hole.Platform.DeviceTree.Tokens.Encode.{At, At-append, At-length}

-- Strings one after the other, each with its zero
unfoldable pub strings_bytes : List (List ℕ) → List ℕ
strings_bytes [] = []
strings_bytes (s ∷ strings) = s ++ (0 ∷ strings_bytes strings)

-- The strings that the iterator yields before `none`; it is called `fuel` times at most.
unfoldable pub collect_strings : ℕ → StringList → ℕ → Option (List (List ℕ))
collect_strings zero list offset = none
collect_strings (suc fuel) list offset =
    collected (next_string list offset).0 (collect_strings fuel list (next_string list offset).1)
  where
    collected : Option (List ℕ) → Option (List (List ℕ)) → Option (List (List ℕ))
    collected none rest = some []
    collected (some s) none = none
    collected (some s) (some rest) = some (s ∷ rest)

until_nul : (s rest : List ℕ) → All (λ b. b ≢ 0) s → from_bytes_until_nul (s ++ (0 ∷ rest)) ≡ some s
unfolding from_bytes_until_nul
until_nul [] rest h = refl
until_nul (b ∷ s) rest (ne, h) = rw (==_of_ne b 0 ne, until_nul s rest h) refl

next_string_lem :
    (list : StringList) (s rest : List ℕ) (at : ℕ)
    → All (λ b. b ≢ 0) s
    → At list.bytes at (s ++ (0 ∷ rest))
    → (next_string list at ≡ (some s, at + (length s + 1)))
      × At list.bytes (at + (length s + 1)) rest
unfolding next_string
next_string_lem list s rest at h (le, d) =
    let joined : (s ++ (0 ∷ [])) ++ rest ≡ s ++ (0 ∷ rest) = append_assoc s (0 ∷ []) rest in
    let whole : At list.bytes at ((s ++ (0 ∷ [])) ++ rest) = rw joined (le, d) in
    let size = length-append {0} s (0 ∷ []) in
    let inside = At-length list.bytes (s ++ (0 ∷ [])) rest at whole in
    let more : leb (length list.bytes) at ≡ false = ground (arith, size, inside) in
    (
      rw (more, d, until_nul s rest h) refl,
      At-append list.bytes (s ++ (0 ∷ [])) rest at (at + (length s + 1)) (omega (arith, size))
          whole,
    )

next_string_end :
    (list : StringList) (at : ℕ) → At list.bytes at [] → next_string list at ≡ (none, at)
unfolding next_string
next_string_end list at (le, d) =
    let size = length-from_drop list.bytes [] at le d in
    let over : leb (length list.bytes) at ≡ true = leb_of_le _ _ (omega (arith, size)) in
    rw over refl

collect_from :
    (strings : List (List ℕ)) (fuel : ℕ) (list : StringList) (at : ℕ)
    → length strings < fuel
    → All (λ s. All (λ b. b ≢ 0) s) strings
    → At list.bytes at (strings_bytes strings)
    → collect_strings fuel list at ≡ some strings
unfolding collect_strings strings_bytes
collect_from strings zero list at lt h stands = absurd (omega arith)
collect_from [] (suc fuel) list at lt h stands = rw (next_string_end list at stands) refl
collect_from (s ∷ strings) (suc fuel) list at lt (no_zero, h) stands =
    let (e, behind) = next_string_lem list s (strings_bytes strings) at no_zero stands in
    rw (e, collect_from strings fuel list _ (omega arith) h behind) refl

-- The iterator yields the strings of a list, each without its zero, in order, and then ends: when
-- the bytes are strings without zeros one after the other, each with a zero behind it.
pub collect_strings-strings_bytes :
    (strings : List (List ℕ)) (list : StringList)
    → list.bytes ≡ strings_bytes strings
    → All (λ s. All (λ b. b ≢ 0) s) strings
    → collect_strings (suc (length strings)) list 0 ≡ some strings
collect_strings-strings_bytes strings list e h =
    collect_from strings _ list 0 (omega arith) h (omega arith, e)

-- `s` stands somewhere in the bytes.
abbrev pub Occurs : List ℕ → List ℕ → Type 0
Occurs s bytes = (before : List ℕ) × (after : List ℕ) × (bytes ≡ before ++ (s ++ after))

take-drop : (n : ℕ) (xs : List ℕ) → take n xs ++ drop n xs ≡ xs
take-drop zero xs = refl
take-drop (suc n) [] = refl
take-drop (suc n) (x ∷ xs) = ap (λ (ys : List ℕ). x ∷ ys) (take-drop n xs)

any_window-Occurs : (s bytes : List ℕ) → any_window s bytes ≡ true → Occurs s bytes
unfolding any_window
any_window-Occurs s [] h = cc
any_window-Occurs s (b ∷ bytes) h =
    elim (Bool-cases
      (leb (length s) (length (b ∷ bytes)) && same_bytes (take (length s) (b ∷ bytes)) s)) [
        | inl e ↦
            let same = same_bytes-eq _ _ (ground (arith, e)) in
            (
              [],
              drop (length s) (b ∷ bytes),
              sym (take-drop (length s) (b ∷ bytes))
                  ∙ ap (λ (xs : List ℕ). xs ++ drop (length s) (b ∷ bytes)) same,
            )
        | inr e ↦
            let (before, after, p) = any_window-Occurs s bytes (rw e at h) in
            (b ∷ before, after, ap (λ (xs : List ℕ). b ∷ xs) p)
      ]

window_here : (s after : List ℕ) → 0 < length s → any_window s (s ++ after) ≡ true
unfolding any_window
window_here [] after h = absurd (omega arith)
window_here (b ∷ s) after h =
    let fits : leb (length (b ∷ s)) (length ((b ∷ s) ++ after)) ≡ true =
      leb_of_le _ _ (omega (arith, length-append {0} s after)) in
    let same : same_bytes (take (length (b ∷ s)) ((b ∷ s) ++ after)) (b ∷ s) ≡ true =
      rw (take-append (b ∷ s) after) (same_bytes_self (b ∷ s)) in
    rw (fits, same) refl

any_window-before :
    (before s after : List ℕ) → 0 < length s → any_window s (before ++ (s ++ after)) ≡ true
unfolding any_window
any_window-before [] s after h = window_here s after h
any_window-before (b ∷ before) s after h = rw (any_window-before before s after h) (or_true _)
  where
    or_true : (x : Bool) → (x || true) ≡ true
    or_true true = refl
    or_true false = refl

-- For an `s` that is not empty, for which it would panic, `contains` answers, and `true` exactly when
-- `s` stands somewhere in the bytes of the list, be it as a whole string or not.
pub contains-Occurs :
    (list : StringList) (s : List ℕ)
    → s ≢ []
    → (b : Bool) × (contains list s ≡ returned b) × (b ≡ true ↔ Occurs s list.bytes)
unfolding contains
contains-Occurs list [] ne = absurd (ne refl)
contains-Occurs list (c ∷ s) ne = (
  any_window (c ∷ s) list.bytes,
  rw (==_of_ne (suc (length s)) 0 (omega arith)) refl,
  (
    any_window-Occurs (c ∷ s) list.bytes,
    λ (before, after, e). rw e (any_window-before before (c ∷ s) after (omega arith)),
  ),
)
