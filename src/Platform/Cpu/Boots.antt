-- ===== src/Platform/Cpu/Boots.antt =====
-- What `boot_all_cores` of kernel_core/src/platform/cpu.rs is to do, core by core, and that it does.
use mathlib.Core.List.{append-nil, append_assoc}
use endless_hole.Base.{
  ℕ, suc, ◌+◌, ◌/◌, ◌^◌, ◌<◌, ◌==◌, arith, ◌≡◌, ◌≢◌, ◌⊎◌, refl, ap, ◌∙◌, inl, inr, Bool, true,
  false, Option, some, List, [], ◌∷◌, ◌++◌, length, ◌&&◌, Bool-cases, ltb, ltb_of_lt, eq_of_==,
  ne_of_not_==,
}
use endless_hole.Memory.Addresses.{checked, kernel_tag}
use endless_hole.Memory.Addresses.Physical
use endless_hole.Memory.Addresses.Virtual
use endless_hole.Memory.Addresses.Translate.{tag-add}
use endless_hole.Memory.Buddy as Memory
use endless_hole.Memory.PageTable.{bytes}
use endless_hole.Platform.DeviceTree.Bytes.{returned, same_bytes, same_bytes-eq, same_bytes_self}
use endless_hole.Platform.Cpu.{
  Result, ok, err, PowerManagerError, PhysicalAddress, Call, allocates, starts, PowerManager,
  PageAllocator, BootAllCoresError, unsupported_enable_method, CoreInfo, stack_size,
}
use endless_hole.Platform.Cpu.Boot.{
  method_name, boot_core, boot_from, boot_all_cores, report, start_secondary, allocated, start_on,
  powered, counted,
}

-- The physical memory has addresses below 2 ^ 48, and a stack ends below that too.
abbrev pub IsInMemory : PageAllocator → Type 0
IsInMemory page_allocator =
    (calls : List Call) (n : ℕ) (pages : PhysicalAddress)
    → page_allocator.allocate calls n ≡ ok pages
    → pages.address + stack_size < 2 ^ 48

module _ (manager : PowerManager) (page_allocator : PageAllocator)
    (from_utf8 : List ℕ → Option (List ℕ)) where
  -- The calls and the result for the cores, one after the other: the boot core is passed over; any
  -- other core gets a stack and is started with the address of its top in the kernel space; the first
  -- core that has another method, gets no memory, or is refused by the power manager ends it all.
  pub data Boots (entry : PhysicalAddress)
      : List CoreInfo → List Call → Result (Unit {0}) BootAllCoresError → Type 0 where
    done : Boots entry [] [] (ok tt)
    boot_cpu :
        {core : CoreInfo} {cores : List CoreInfo} {calls : List Call}
        {r : Result (Unit {0}) BootAllCoresError}
        → core.enable_method ≡ manager.enable_method_name
        → core.id ≡ 0
        → Boots entry cores calls r
        → Boots entry (core ∷ cores) calls r
    secondary :
        {core : CoreInfo} {cores : List CoreInfo} {calls : List Call}
        {r : Result (Unit {0}) BootAllCoresError} (pages : PhysicalAddress)
        → core.enable_method ≡ manager.enable_method_name
        → core.id ≢ 0
        → Boots entry cores calls r
        → Boots entry
            (core ∷ cores)
            (allocates (stack_size / bytes page_allocator.page_size) (ok pages)
              ∷ starts core.id entry (pages.address + stack_size + kernel_tag) (ok tt)
              ∷ calls)
            r
    other_method :
        {core : CoreInfo} {cores : List CoreInfo}
        → core.enable_method ≢ manager.enable_method_name
        → Boots entry
            (core ∷ cores)
            []
            (err (unsupported_enable_method (method_name from_utf8 core.enable_method)))
    no_stack :
        {core : CoreInfo} {cores : List CoreInfo} (e : Memory.Error)
        → core.enable_method ≡ manager.enable_method_name
        → core.id ≢ 0
        → Boots entry
            (core ∷ cores)
            (allocates (stack_size / bytes page_allocator.page_size) (err e) ∷ [])
            (err (BootAllCoresError.memory e))
    not_started :
        {core : CoreInfo} {cores : List CoreInfo} (pages : PhysicalAddress) (e : PowerManagerError)
        → core.enable_method ≡ manager.enable_method_name
        → core.id ≢ 0
        → Boots entry
            (core ∷ cores)
            (allocates (stack_size / bytes page_allocator.page_size) (ok pages)
              ∷ starts core.id entry (pages.address + stack_size + kernel_tag) (err e)
              ∷ [])
            (err (BootAllCoresError.power e))

pub Result-cases :
    {A E : Type 0} (r : Result A E) → ((a : A) × (r ≡ ok a)) ⊎ ((e : E) × (r ≡ err e))
Result-cases (ok a) = inl (a, refl)
Result-cases (err e) = inr (e, refl)

-- The top of a stack does not overflow, and is the sum in the kernel space.
stack_top :
    (pages : PhysicalAddress)
    → pages.address + stack_size < 2 ^ 48
    → (Physical.byte_add pages stack_size ≡ some (record { address = pages.address + stack_size }))
      × (Virtual.into_usize
            (Virtual.from_physical {T = Unit {0}} (record { address = pages.address + stack_size }))
          ≡ pages.address + stack_size + kernel_tag)
unfolding Physical.byte_add checked Virtual.into_usize Virtual.from_physical
stack_top pages h =
    let fits : ltb (pages.address + stack_size) (2 ^ 64) ≡ true = ltb_of_lt _ _ (omega arith) in
    (rw fits refl, tag-add (pages.address + stack_size) h)

joined :
    (calls : List Call) (a b : Call) (es : List Call)
    → (((calls ++ (a ∷ [])) ++ (b ∷ [])) ++ es) ≡ calls ++ (a ∷ b ∷ es)
joined calls a b es =
    append_assoc (calls ++ (a ∷ [])) (b ∷ []) es ∙ append_assoc calls (a ∷ []) (b ∷ es)

different : (xs ys : List ℕ) → same_bytes xs ys ≡ false → xs ≢ ys
different xs ys h e =
    let self : same_bytes ys ys ≡ true = same_bytes_self ys in
    let other : same_bytes ys ys ≡ false = rw e at h in cc

abbrev forget : Result ℕ BootAllCoresError → Result (Unit {0}) BootAllCoresError
forget (ok n) = ok tt
forget (err e) = err e

module _ (manager : PowerManager) (page_allocator : PageAllocator)
    (from_utf8 : List ℕ → Option (List ℕ)) (info_enabled : Bool)
    (in_memory : IsInMemory page_allocator) (entry : PhysicalAddress) where
  -- A core that gets a stack
  start_secondary-powered :
      (calls : List Call) (id : ℕ) (pages : PhysicalAddress)
      → page_allocator.allocate calls (stack_size / bytes page_allocator.page_size) ≡ ok pages
      → let arg : ℕ = pages.address + stack_size + kernel_tag in
        let before : List Call =
          calls ++ (allocates (stack_size / bytes page_allocator.page_size) (ok pages) ∷ []) in
        start_secondary manager page_allocator from_utf8 info_enabled calls id entry
        ≡ returned (
            powered manager page_allocator from_utf8 info_enabled before
              (starts id entry arg)
              (manager.start_core before id entry arg))
  unfolding start_secondary allocated start_on
  start_secondary-powered calls id pages given =
      let (fits, top) = stack_top pages (in_memory calls _ pages given) in
      rw (given, fits, top) refl

  -- What a run of the loop comes to
  abbrev Runs : List CoreInfo → ℕ → List Call → Type 0
  Runs cores n calls =
      (es : List Call) × (r : Result ℕ BootAllCoresError) × (boot_from manager page_allocator
          from_utf8 info_enabled entry cores n calls
        ≡ returned (r, calls ++ es))
      × Boots manager page_allocator from_utf8 entry cores es (forget r)

  -- A core other than the boot core, when the rest of the cores runs as it is to
  secondary-Boots :
      (core : CoreInfo) (cores : List CoreInfo) (n : ℕ) (calls : List Call)
      → same_bytes core.enable_method manager.enable_method_name ≡ true
      → (core.id == 0) ≡ false
      → ((m : ℕ) (before : List Call) → Runs cores m before)
      → Runs (core ∷ cores) n calls
  unfolding boot_from boot_core powered counted start_secondary allocated
  secondary-Boots core cores n calls same other again =
      let method = same_bytes-eq core.enable_method manager.enable_method_name same in
      let id = ne_of_not_== core.id 0 other in
      let num : ℕ = stack_size / bytes page_allocator.page_size in
      elim (Result-cases (page_allocator.allocate calls num)) [
        | inr (e, refused) ↦ (
          allocates num (err e) ∷ [],
          err (BootAllCoresError.memory e),
          rw (same, other, refused) refl,
          no_stack e method id,
        )
        | inl (pages, given) ↦
            let arg : ℕ = pages.address + stack_size + kernel_tag in
            let before : List Call = calls ++ (allocates num (ok pages) ∷ []) in
            elim (Result-cases (manager.start_core before core.id entry arg)) [
              | inr (e, failed) ↦ (
                allocates num (ok pages) ∷ starts core.id entry arg (err e) ∷ [],
                err (BootAllCoresError.power e),
                rw (same, other, start_secondary-powered calls core.id pages given, failed)
                    (rw (append_assoc calls) refl),
                not_started pages e method id,
              )
              | inl (t, started) ↦
                  let (es, r, run, boots) =
                    again (suc n) (before ++ (starts core.id entry arg (ok tt) ∷ [])) in
                  (
                    allocates num (ok pages) ∷ starts core.id entry arg (ok tt) ∷ es,
                    r,
                    rw (same, other, start_secondary-powered calls core.id pages given, started)
                        (run ∙ ap (λ (log : List Call). returned (r, log)) (joined calls _ _ es)),
                    secondary pages method id boots,
                  )
            ]
      ]

  boot_from-Boots : (cores : List CoreInfo) (n : ℕ) (calls : List Call) → Runs cores n calls
  unfolding boot_from boot_core counted
  boot_from-Boots [] n calls = ([], ok n, rw (append-nil calls) refl, done)
  boot_from-Boots (core ∷ cores) n calls =
      elim (Bool-cases (same_bytes core.enable_method manager.enable_method_name)) [
        | inr other ↦ (
          [],
          err (unsupported_enable_method (method_name from_utf8 core.enable_method)),
          rw (other, append-nil calls) refl,
          other_method (different core.enable_method manager.enable_method_name other),
        )
        | inl same ↦ elim (Bool-cases (core.id == 0)) [
          | inl zero_id ↦
              let (es, r, run, boots) = boot_from-Boots cores n calls in
              (
                es,
                r,
                rw (same, zero_id) run,
                boot_cpu (same_bytes-eq core.enable_method manager.enable_method_name same)
                    (eq_of_== core.id 0 zero_id) boots,
              )
          | inr other ↦
              secondary-Boots core cores n calls same other
                (λ m before. boot_from-Boots cores m before)
        ]
      ]

  reported :
      (cores : List CoreInfo)
      → (info_enabled && length cores == 0) ≡ false
      → (r : Result ℕ BootAllCoresError) (log : List Call)
      → report manager page_allocator from_utf8 info_enabled cores (r, log)
        ≡ returned (forget r, log)
  unfolding report
  reported cores some_core (ok n) log = rw some_core refl
  reported cores some_core (err e) log = refl

  -- The physical memory has addresses below 2 ^ 48, and there is a core in the list, or the level of
  -- the last message is off. Whatever the page allocator and the power manager answer: the call
  -- returns without a panic, and its result and the calls that it makes are those of the loop over
  -- the cores: every core but the boot core is started, in the order of the list, each with a
  -- stack that is allocated for it right before, and with the address of the top of that stack in
  -- the kernel space; the first core with another enable method, without memory for its stack, or
  -- refused by the power manager gives the error, and no call is made after it.
  pub boot_all_cores-Boots :
      (cores : List CoreInfo) (calls : List Call)
      → (info_enabled && length cores == 0) ≡ false
      → (es : List Call) × (r : Result (Unit {0}) BootAllCoresError) × (boot_all_cores manager
            page_allocator from_utf8 info_enabled cores entry calls
          ≡ returned (r, calls ++ es))
        × Boots manager page_allocator from_utf8 entry cores es r
  unfolding boot_all_cores
  boot_all_cores-Boots cores calls some_core =
      let (es, r, run, boots) = boot_from-Boots cores 0 calls in
      (es, forget r, rw run (reported cores some_core r (calls ++ es)), boots)
