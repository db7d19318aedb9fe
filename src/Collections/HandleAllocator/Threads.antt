-- ===== src/Collections/HandleAllocator/Threads.antt =====
-- `next_handle` and `free_handle` of kernel_core/src/collections/handle_allocator.rs, called by any
-- number of threads at once. A step is one atomic access of one thread; a thread is a number.
pub mod History
use endless_hole.Base.{ℕ, suc, ◌+◌, ◌/◌, ◌≤◌, ◌<◌, ◌≡◌, Bool, true, false, List, [], ◌∷◌}
use endless_hole.Base.{Option, none, some, ◌==◌, if◌then◌else◌, length, get_or, set}
use endless_hole.Collections.HandleAllocator.{HandleAllocator, new, word_bits, propose, clear}

-- Where a thread stands, with its local variables.
pub data Pc : Type 0 where
  idle : Pc
  scan : (word_index : ℕ) → Pc  -- head of the `for` loop of `next_handle`
  attempt : (word_index current : ℕ) → Pc  -- head of its inner loop
  release : (handle current : ℕ) → Pc  -- head of the loop of `free_handle`

-- The completed changes, the latest first.
pub data Event : Type 0 where
  took gave : (handle : ℕ) → Event

pub record System : Type 0 where
  pub shared : HandleAllocator
  pub pc : ℕ → Pc
  pub log : List Event

abbrev word : HandleAllocator → ℕ → ℕ
word a index = get_or a.bits index 0

abbrev pub store : HandleAllocator → ℕ → ℕ → HandleAllocator
store a index value = record a { bits = set a.bits index value }

-- One atomic access of a thread. A weak compare-exchange may fail though the word is as expected.
pub data Move (a : HandleAllocator) (log : List Event)
    : Pc → HandleAllocator → Pc → List Event → Type 0 where
  call_next : Move a log idle a (scan 0) log
  exhausted : {w : ℕ} → length a.bits ≤ w → Move a log (scan w) a idle log
  load_word : {w : ℕ} → w < length a.bits → Move a log (scan w) a (attempt w (word a w)) log
  skip_word :
      {w x : ℕ} → propose a.max_handle w x ≡ none → Move a log (attempt w x) a (scan (w + 1)) log
  take :
      {w x h y : ℕ}
      → propose a.max_handle w x ≡ some (h, y)
      → word a w ≡ x
      → Move a log (attempt w x) (store a w y) idle (took h ∷ log)
  retry_take :
      {w x h y : ℕ}
      → propose a.max_handle w x ≡ some (h, y)
      → Move a log (attempt w x) a (attempt w (word a w)) log
  refuse : {h : ℕ} → a.max_handle ≤ h → Move a log idle a idle log
  call_free :
      {h : ℕ} → h < a.max_handle → Move a log idle a (release h (word a (h / word_bits))) log
  not_taken : {h x : ℕ} → clear x h ≡ none → Move a log (release h x) a idle log
  give :
      {h x y : ℕ}
      → clear x h ≡ some y
      → word a (h / word_bits) ≡ x
      → Move a log (release h x) (store a (h / word_bits) y) idle (gave h ∷ log)
  retry_give :
      {h x y : ℕ}
      → clear x h ≡ some y
      → Move a log (release h x) a (release h (word a (h / word_bits))) log

abbrev pub update : (ℕ → Pc) → ℕ → Pc → ℕ → Pc
update pcs i p j = if j == i then p else pcs j

pub data Step (s : System) : System → Type 0 where
  pick :
      (i : ℕ) {a : HandleAllocator} {p : Pc} {log : List Event}
      → Move s.shared s.log (s.pc i) a p log
      → Step s (record { shared = a; pc = update s.pc i p; log = log })

abbrev pub init : ℕ → System
init max_handle = record { shared = new max_handle; pc = λ _. idle; log = [] }

pub data Reach (max_handle : ℕ) : System → Type 0 where
  start : Reach max_handle (init max_handle)
  later : {s t : System} → Reach max_handle s → Step s t → Reach max_handle t
