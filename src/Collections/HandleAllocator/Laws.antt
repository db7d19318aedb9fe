-- ===== src/Collections/HandleAllocator/Laws.antt =====
-- `next_handle` and `free_handle` against the set of the handles that are taken.
use mathlib.Core.Option
use endless_hole.Base.{ℕ, ◌/◌, ◌%◌, ◌^◌, ◌≤◌, ◌<◌}
use endless_hole.Base.{◌≡◌, refl, ◌∙◌, Bool, true, false, not, ◌&&◌, ◌||◌, inl, inr}
use endless_hole.Base.{List, Option, none, some, arith, leb, ◌==◌}
use endless_hole.Base.{
  Bool-cases, length, get_or, set, length-set, length-replicate, All, All-set, All-get_or,
}
use endless_hole.Base.{All-replicate, get_or-replicate}
use endless_hole.Base.Bits
use endless_hole.Base.Bits.{bit}
use endless_hole.Collections.HandleAllocator.{
  word_bits, HandleAllocator, div_ceil, new, next_handle, free_handle, Freed, ok, err,
  not_allocated, out_of_bounds,
}
use endless_hole.Collections.HandleAllocator.Words.{
  Proposes, Clears, clear-Clears, handle_bit, handle_bit-set,
}
use endless_hole.Collections.HandleAllocator.Scan.{IsWord, Takes, next_from-Takes}

-- The abstract view of an allocator: which handles are taken.
pub is_allocated : HandleAllocator → ℕ → Bool
is_allocated a h = handle_bit a.bits h == 1

-- The handles are `u32`s, and the words are as many as `new` makes.
pub record IsValid (a : HandleAllocator) : Type 0 where
  pub limit : a.max_handle < 2 ^ 32
  pub enough : length a.bits ≡ div_ceil a.max_handle word_bits
  pub words : All IsWord a.bits

-- A new allocator is well formed, and has no handle taken.
pub new-IsValid :
    (max_handle : ℕ)
    → max_handle < 2 ^ 32
    → IsValid (new max_handle) × ((h : ℕ) → is_allocated (new max_handle) h ≡ false)
unfolding new is_allocated handle_bit
new-IsValid max_handle limit = (
  record {
    limit = limit;
    enough = length-replicate _ 0;
    words = All-replicate IsWord _ 0 (omega arith);
  },
  λ h.
      rw (get_or-replicate {A = ℕ} (div_ceil max_handle word_bits) (h / 64) 0)
        (rw (Bits.bit-zero (h % 64))),
)

-- The set after handle `h` was put in, or taken out.
abbrev pub Inserted : HandleAllocator → ℕ → HandleAllocator → Type 0
Inserted a h b = (i : ℕ) → is_allocated b i ≡ (i == h || is_allocated a i)

abbrev pub Removed : HandleAllocator → ℕ → HandleAllocator → Type 0
Removed a h b = (i : ℕ) → is_allocated b i ≡ (not (i == h) && is_allocated a i)

-- What `next_handle` promises of its result.
abbrev pub Allocates : HandleAllocator → Option (ℕ × HandleAllocator) → Type 0
Allocates a none = (h : ℕ) → h < a.max_handle → is_allocated a h ≡ true
Allocates a (some (h, b)) =
    (h < a.max_handle)
    × (is_allocated a h ≡ false)
    × ((i : ℕ) → i < h → is_allocated a i ≡ true)
    × Inserted a h b
    × IsValid b
    × (b.max_handle ≡ a.max_handle)

Allocates-Takes :
    (a : HandleAllocator) (r : Option (ℕ × List ℕ))
    → IsValid a
    → Takes a.max_handle 0 a.bits r
    → Allocates a (Option.map (λ r. (r.0, record a { bits = r.1 })) r)
unfolding is_allocated
Allocates-Takes a none v t = λ h p. ground (arith, t h)
Allocates-Takes a (some (h, left)) v (z, at, within, free, lower, len, words, result) = (
  within,
  ground arith,
  λ i p. ground (arith, lower i),
  λ i. ground (arith, result i),
  record { limit = v.limit; enough = len ∙ v.enough; words = words },
  refl,
)

-- The store that follows a proposal puts the proposed handle, and no other, into the set.
pub Inserted-Proposes :
    (a : HandleAllocator) (w h y : ℕ)
    → IsValid a
    → w < length a.bits
    → Proposes a.max_handle w (get_or a.bits w 0) (some (h, y))
    → (h < a.max_handle)
      × (is_allocated a h ≡ false)
      × Inserted a h (record a { bits = set a.bits w y })
      × IsValid (record a { bits = set a.bits w y })
unfolding is_allocated handle_bit
Inserted-Proposes a w h y v lt (z, at, below, within, free, lower, fits, result) =
    let q : h / 64 ≡ w = omega arith in
    let r : h % 64 ≡ z = omega arith in
    (
      within,
      rw (q, r, free),
      λ i. ground (arith, handle_bit-set a.bits w y i lt, result (i % 64)),
      record {
        limit = v.limit;
        enough = length-set _ _ _ ∙ v.enough;
        words = All-set IsWord a.bits w y v.words fits;
      },
    )

-- `next_handle` fails only if every handle is taken. Else it takes the lowest free handle and no
-- other, and leaves the allocator well formed.
pub next_handle-Allocates : (a : HandleAllocator) → IsValid a → Allocates a (next_handle a)
unfolding next_handle
next_handle-Allocates a v =
    Allocates-Takes a _ v (next_from-Takes a.max_handle 0 a.bits v.words (ground arith))

-- What `free_handle` promises of its result.
abbrev pub Frees : HandleAllocator → ℕ → Freed → Type 0
Frees a h (err out_of_bounds) = a.max_handle ≤ h
Frees a h (err not_allocated) = (h < a.max_handle) × (is_allocated a h ≡ false)
Frees a h (ok b) =
    (h < a.max_handle)
    × (is_allocated a h ≡ true)
    × Removed a h b
    × IsValid b
    × (b.max_handle ≡ a.max_handle)

pub Frees-Clears :
    (a : HandleAllocator) (h : ℕ) (r : Option ℕ)
    → IsValid a
    → h < a.max_handle
    → Clears (get_or a.bits (h / 64) 0) (h % 64) r
    → Frees a h (elim r [
      | none ↦ err not_allocated
      | some new_word ↦ ok (record a { bits = set a.bits (h / word_bits) new_word })
    ])
unfolding is_allocated handle_bit
Frees-Clears a h none v lt c = (lt, ground arith)
Frees-Clears a h (some y) v lt (one, fits, result) = (
  lt,
  ground arith,
  λ i. ground (arith, v.enough, handle_bit-set a.bits (h / 64) y i, result (i % 64)),
  record {
    limit = v.limit;
    enough = length-set _ _ _ ∙ v.enough;
    words = All-set IsWord a.bits (h / 64) y v.words fits;
  },
  refl,
)

-- `free_handle` refuses a handle out of bounds and a handle that is free, each with its error, and
-- takes any other out of the set; the allocator stays well formed.
pub free_handle-Frees : (a : HandleAllocator) (h : ℕ) → IsValid a → Frees a h (free_handle a h)
unfolding free_handle
free_handle-Frees a h v = elim (Bool-cases (leb a.max_handle h)) [
  | inl out ↦ rw out (ground arith)
  | inr inside ↦ rw inside (
      Frees-Clears a h _ v (ground arith) (
        clear-Clears (get_or a.bits (h / 64) 0) h
          (All-get_or IsWord a.bits (h / 64) 0 v.words (omega arith))))
]
