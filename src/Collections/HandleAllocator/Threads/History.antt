-- ===== src/Collections/HandleAllocator/Threads/History.antt =====
-- However the threads are interleaved, the changes form a history of a set of handles.
use endless_hole.Base.{ℕ, ◌/◌, ◌^◌, ◌<◌, ◌≡◌, refl, sym, ◌∙◌, Bool, true, false, arith}
use endless_hole.Base.{List, [], ◌∷◌, some, ◌==◌, length, get_or}
use endless_hole.Base.{All-get_or, length-set, Bool-cases, inl, inr, ◌||◌, ◌&&◌, not}
use endless_hole.Collections.HandleAllocator.{HandleAllocator, new, word_bits, propose, clear}
use endless_hole.Collections.HandleAllocator.Words.{propose-Proposes, clear-Clears}
use endless_hole.Collections.HandleAllocator.Scan.{IsWord}
use endless_hole.Collections.HandleAllocator.Laws.{
  is_allocated, IsValid, new-IsValid, Inserted-Proposes, Frees-Clears,
}
use endless_hole.Collections.HandleAllocator.Threads.{
  Pc, idle, scan, attempt, release, Event, took, gave, System, store, Move, call_next, exhausted,
  load_word, skip_word, take, retry_take, refuse, call_free, not_taken, give, retry_give, Step,
  pick, Reach, start, later,
}

-- The handles that a history leaves taken.
abbrev pub holds : List Event → ℕ → Bool
holds [] h = false
holds (took g ∷ log) h = h == g || holds log h
holds (gave g ∷ log) h = not (h == g) && holds log h

-- Only a free handle below the limit is taken, only a taken one is given back.
abbrev pub IsLegal : ℕ → List Event → Type 0
IsLegal limit [] = Unit
IsLegal limit (took h ∷ log) = (h < limit) × (holds log h ≡ false) × IsLegal limit log
IsLegal limit (gave h ∷ log) = (holds log h ≡ true) × IsLegal limit log

-- A thread that is about to change a word has its index in range.
abbrev IsPlaced : HandleAllocator → Pc → Type 0
IsPlaced a (attempt w x) = w < length a.bits
IsPlaced a (release h x) = h < a.max_handle
IsPlaced a _ = Unit

abbrev Agrees : HandleAllocator → List Event → Type 0
Agrees a log = (h : ℕ) → is_allocated a h ≡ holds log h

record Inv (limit : ℕ) (a : HandleAllocator) (log : List Event) : Type 0 where
  valid : IsValid a
  same : a.max_handle ≡ limit
  agrees : Agrees a log
  legal : IsLegal limit log

module _ {limit : ℕ} {a : HandleAllocator} {log : List Event} (inv : Inv limit a log) where
  get_or-IsWord : (w : ℕ) → IsWord (get_or a.bits w 0)
  get_or-IsWord w = All-get_or IsWord a.bits w 0 inv.valid.words (omega arith)

  take-Inv :
      (w h y : ℕ)
      → w < length a.bits
      → propose a.max_handle w (get_or a.bits w 0) ≡ some (h, y)
      → Inv limit (store a w y) (took h ∷ log)
  take-Inv w h y lt e =
      let (below, free, inserted, valid) = Inserted-Proposes a w h y inv.valid lt (
        rw e at (
          propose-Proposes a.max_handle w (get_or a.bits w 0) (get_or-IsWord w)
            (ground (arith, inv.valid.limit, inv.valid.enough)))) in
      record {
        valid = valid;
        same = inv.same;
        agrees = λ i. ground (arith, inserted i, inv.agrees i);
        legal = (rw (← inv.same) below, sym (inv.agrees h) ∙ free, inv.legal);
      }

  give-Inv :
      (h y : ℕ)
      → h < a.max_handle
      → clear (get_or a.bits (h / word_bits) 0) h ≡ some y
      → Inv limit (store a (h / word_bits) y) (gave h ∷ log)
  give-Inv h y lt e =
      let (below, taken, removed, valid, same) =
        Frees-Clears a h (some y) inv.valid lt
          (rw e at (clear-Clears (get_or a.bits (h / word_bits) 0) h (get_or-IsWord _))) in
      record {
        valid = valid;
        same = inv.same;
        agrees = λ i. ground (arith, removed i, inv.agrees i);
        legal = (sym (inv.agrees h) ∙ taken, inv.legal);
      }

  IsPlaced-store : (w y : ℕ) (p : Pc) → IsPlaced a p → IsPlaced (store a w y) p
  IsPlaced-store w y (attempt v x) h = rw (length-set a.bits w y) h
  IsPlaced-store w y (release g x) h = h
  IsPlaced-store w y idle h = tt
  IsPlaced-store w y (scan v) h = tt

-- A move keeps the invariant, leaves the mover well placed, and disturbs no other thread.
abbrev Kept : ℕ → HandleAllocator → HandleAllocator → Pc → List Event → Type 0
Kept limit a b p log = Inv limit b log × IsPlaced b p × ((q : Pc) → IsPlaced a q → IsPlaced b q)

Move-Kept :
    {limit : ℕ} {a b : HandleAllocator} {log log' : List Event} {p q : Pc}
    → Inv limit a log
    → IsPlaced a p
    → Move a log p b q log'
    → Kept limit a b q log'
Move-Kept inv h call_next = (inv, tt, λ q k. k)
Move-Kept inv h (exhausted e) = (inv, tt, λ q k. k)
Move-Kept inv h (load_word e) = (inv, e, λ q k. k)
Move-Kept inv h (skip_word e) = (inv, tt, λ q k. k)
Move-Kept inv h (take {w} {x} {h = handle} {y} e f) =
    (take-Inv inv w handle y h (rw f e), tt, IsPlaced-store inv w y)
Move-Kept inv h (retry_take e) = (inv, h, λ q k. k)
Move-Kept inv h (refuse e) = (inv, tt, λ q k. k)
Move-Kept inv h (call_free e) = (inv, e, λ q k. k)
Move-Kept inv h (not_taken e) = (inv, tt, λ q k. k)
Move-Kept inv h (give {h = handle} {x} {y} e f) =
    (give-Inv inv handle y h (rw f e), tt, IsPlaced-store inv _ y)
Move-Kept inv h (retry_give e) = (inv, h, λ q k. k)

abbrev Good : ℕ → System → Type 0
Good limit s = Inv limit s.shared s.log × ((i : ℕ) → IsPlaced s.shared (s.pc i))

Step-Good : {limit : ℕ} {s t : System} → Good limit s → Step s t → Good limit t
Step-Good {s} (inv, placed) (pick i {a} {p} mv) =
    let (inv', here, others) = Move-Kept inv (placed i) mv in
    (
      inv',
      λ j. elim (Bool-cases (j == i)) [
        | inl e ↦ rw e here
        | inr e ↦ rw e (others (s.pc j) (placed j))
      ],
    )

Reach-Good : {limit : ℕ} {s : System} → limit < 2 ^ 32 → Reach limit s → Good limit s
unfolding new
Reach-Good {limit} h start =
    let (valid, none_taken) = new-IsValid limit h in
    (record { valid = valid; same = refl; agrees = none_taken; legal = tt }, λ i. tt)
Reach-Good h (later r st) = Step-Good (Reach-Good h r) st

-- For a limit that is a `u32`, in every state that any number of threads calling `next_handle` and
-- `free_handle` can reach: the changes so far took only free handles below the limit and gave back
-- only taken ones, and the bit of each handle says whether these changes leave it taken. So no
-- handle is ever given to two callers without being freed in between.
pub Reach-IsLegal :
    {limit : ℕ} {s : System}
    → limit < 2 ^ 32
    → Reach limit s
    → IsLegal limit s.log × ((h : ℕ) → is_allocated s.shared h ≡ holds s.log h)
Reach-IsLegal h r = let (inv, placed) = Reach-Good h r in (inv.legal, inv.agrees)
