-- ===== src/Shared/Laws.antt =====
-- The array of connections grows at its end, and keeps what it holds.
use tud_crash_tolerant_proxy.Prelude.{
  ℕ, zero, suc, ◌+◌, ◌-◌, ◌*◌, ◌/◌, ◌^◌, ◌≤◌, ◌<◌, ◌≡◌, refl, ap, sym, subst, ◌∙◌, Bool, true,
  false, none, some, List, ◌++◌, ltb, ◌==◌, if◌then◌else◌, length, length-append, drop, take_all,
  drop_all, append-nil, Bool-cases, inl, inr, arith, sub_size, add_size,
}
use native.Mathlib.Nat.{mul-div_cancel, add-mul}
use tud_crash_tolerant_proxy.Shared.{
  Connection, SharedMemory, Slotted, header_size, count_connections, copies, write_entries,
  shared_memory_resize, shared_memory_append, shared_memory_get_connection,
  shared_memory_get_or_append_connection, look_up, appended, or_append,
}

module _ (entry : ℕ) (pos : 0 < entry) where
  -- The header stores the size of all the connections, and this process has mapped some of it; sizes
  -- are below the bound of `size_t`.
  pub record IsWhole (m : SharedMemory) : Type 0 where
    pub whole : m.size ≡ header_size + length m.connections * entry
    pub within : m.mapped ≤ m.size
    pub small : m.size < 2 ^ 63

  pub length-copies : (n : ℕ) → length (copies entry n) ≡ n
  unfolding copies
  length-copies zero = refl
  length-copies (suc n) = ap (λ k. suc k) (length-copies n)

  -- Sizes read back as counts.
  div_entry : (n size : ℕ) → size ≡ header_size + n * entry → (size - header_size) / entry ≡ n
  div_entry n size h = ap (λ k. k / entry) (omega (arith, h)) ∙ mul-div_cancel n pos

  -- Entries written from the end on follow those that are there.
  write_entries_end :
      (n : ℕ) (cs : List Connection) → write_entries entry (length cs) n cs ≡ cs ++ copies entry n
  unfolding write_entries
  write_entries_end n cs =
      ap (λ l. l ++ (copies entry n ++ drop (length cs + n) cs))
        (take_all (length cs) cs (omega arith))
      ∙ ap (λ l. cs ++ (copies entry n ++ l)) (drop_all (length cs + n) cs (omega arith))
      ∙ ap (λ l. cs ++ l) (append-nil (copies entry n))

  -- What `shared_memory_get_or_append_connection` leaves: the old connections, and behind them as many
  -- unused ones as it takes to have the slot.
  pub record Extended (m : SharedMemory) (slot : ℕ) (second_ok : Bool) (r : Slotted) : Type 0 where
    pub added : ℕ
    pub same : r.memory.connections ≡ m.connections ++ copies entry added
    pub has_slot : slot < length r.memory.connections
    pub none_added : slot < length m.connections → added ≡ 0
    pub least : length m.connections ≤ slot → length r.memory.connections ≡ slot + 1
    pub whole : r.memory.size ≡ header_size + length r.memory.connections * entry
    pub answers : second_ok ≡ true → r.slot ≡ some slot

  resized :
      (m : SharedMemory) → shared_memory_resize entry true m ≡ (record m { mapped = m.size }, true)
  unfolding shared_memory_resize
  resized m = elim (Bool-cases (m.size == m.mapped)) [
    | inl same ↦ rw same (ap (λ k. (record m { mapped = k }, true)) (ground (arith, same)))
    | inr other ↦ rw other refl
  ]

  abbrev pub mapped_whole : SharedMemory → SharedMemory
  mapped_whole m = record m { mapped = m.size }

  count_mapped :
      (m : SharedMemory)
      → IsWhole m
      → count_connections entry (mapped_whole m) ≡ length m.connections
  unfolding count_connections
  count_mapped m v = div_entry (length m.connections) m.size v.whole

  pub get_lem :
      (slot : ℕ) (m : SharedMemory)
      → IsWhole m
      → shared_memory_get_connection entry true slot m ≡ record {
        memory = mapped_whole m;
        slot = if ltb slot (length m.connections) then some slot else none;
      }
  unfolding shared_memory_get_connection look_up
  get_lem slot m v =
      ap (look_up entry slot) (resized m)
      ∙ ap (λ n. record { memory = mapped_whole m; slot = if ltb slot n then some slot else none })
          (count_mapped m v)

  Kept : SharedMemory → Bool → SharedMemory × Bool → Type 0
  Kept m ok r = (r.0.connections ≡ m.connections) × (r.0.size ≡ m.size) × (ok ≡ true → r.1 ≡ true)

  by_ok :
      (b : Bool) (m : SharedMemory) → Kept m b (if b then (mapped_whole m, true) else (m, false))
  unfolding Kept
  by_ok true m = (refl, refl, λ h. refl)
  by_ok false m = (refl, refl, λ h. h)

  resize_keeps : (ok : Bool) (m : SharedMemory) → Kept m ok (shared_memory_resize entry ok m)
  unfolding shared_memory_resize Kept
  resize_keeps ok m = elim (Bool-cases (m.size == m.mapped)) [
    | inl same ↦ rw same (refl, refl, λ h. refl)
    | inr other ↦ rw other (by_ok ok m)
  ]

  -- The memory with `n` connections more, before the mapping follows.
  abbrev longer : ℕ → SharedMemory → SharedMemory
  longer n m = record m { size = m.size + n * entry; connections = m.connections ++ copies entry n }

  append_lem :
      (ok : Bool) (n : ℕ) (m : SharedMemory)
      → m.size ≡ header_size + length m.connections * entry
      → shared_memory_append entry ok (n * entry) n m ≡ shared_memory_resize entry ok (longer n m)
  unfolding shared_memory_append
  append_lem ok n m h =
      let enough : ltb (n * entry) (n * entry) ≡ false = ground arith in
      rw enough (
        ap
          (λ cs.
            shared_memory_resize entry ok
              (record m { size = m.size + n * entry; connections = cs }))
          (ap (λ k. write_entries entry k (n * entry / entry) m.connections)
              (div_entry (length m.connections) m.size h)
            ∙ ap (λ k. write_entries entry (length m.connections) k m.connections)
                (mul-div_cancel n pos)
            ∙ write_entries_end n m.connections))

  count_wanted :
      (slot : ℕ) (m : SharedMemory)
      → IsWhole m
      → slot + 1 < 2 ^ 63
      → length m.connections ≤ slot
      → sub_size (add_size slot 1) (count_connections entry (mapped_whole m))
        ≡ slot + 1 - length m.connections
  count_wanted slot m v h far = rw (count_mapped m v) (omega (arith, h, far))

  sizes :
      (m : SharedMemory) (n total : ℕ)
      → m.size ≡ header_size + length m.connections * entry
      → length m.connections + n ≡ total
      → m.size + n * entry ≡ header_size + total * entry
  sizes m n total h e =
      omega (arith, h, add-mul (length m.connections) n entry, ap (λ (t : ℕ). t * entry) e)

  new-Extended :
      (ok : Bool) (slot : ℕ) (m : SharedMemory)
      → IsWhole m
      → length m.connections ≤ slot
      → Extended m slot ok (
          appended entry slot (
            shared_memory_resize entry ok
              (longer (slot + 1 - length m.connections) (mapped_whole m))))
  unfolding appended Kept
  new-Extended ok slot m v h =
      let n : ℕ = slot + 1 - length m.connections in
      let k = resize_keeps ok (longer (slot + 1 - length m.connections) (mapped_whole m)) in
      let size : length (m.connections ++ copies entry (slot + 1 - length m.connections))
          ≡ slot + 1 =
        omega (
          arith,
          length-append m.connections (copies entry (slot + 1 - length m.connections)),
          length-copies (slot + 1 - length m.connections),
          h,
        ) in
      record {
        added = slot + 1 - length m.connections;
        same = k.0;
        has_slot = omega (arith, ap length k.0, size);
        none_added = λ t. absurd (omega (arith, t, h));
        least = λ t. ap length k.0 ∙ size;
        whole =
            k.1
            ∙ sizes m n (slot + 1) v.whole (omega (arith, h))
            ∙ ap (λ t. header_size + t * entry) (sym (ap length k.0 ∙ size));
        answers = λ t. rw (k.2 t) refl;
      }

  -- Where no other process changes the shared memory during the call, its stored size is that of the
  -- connections in it, which this process has mapped at most, and sizes are below 2^63; and where
  -- pwritev(2) writes all it is given and the first mremap(2) does not fail: the slot is there
  -- afterwards; the old connections stay, only as many unused ones follow as it takes, and the header
  -- stores the new size. The slot is returned unless the second mremap(2) fails.
  pub get_or_append-Extended :
      (second_ok : Bool) (slot : ℕ) (m : SharedMemory)
      → IsWhole m
      → slot + 1 < 2 ^ 63
      → Extended m slot second_ok (
          shared_memory_get_or_append_connection entry true second_ok
            ((slot + 1 - length m.connections) * entry)
            slot
            m)
  unfolding shared_memory_get_or_append_connection or_append appended copies
  get_or_append-Extended second_ok slot m v h =
      elim (Bool-cases (ltb slot (length m.connections))) [
        | inl inside ↦ rw (get_lem slot m v) (
            rw inside (record {
              added = 0;
              same = sym (append-nil m.connections);
              has_slot = ground (arith, inside);
              none_added = λ k. refl;
              least = λ k. absurd (ground (arith, inside, k));
              whole = v.whole;
              answers = λ k. refl;
            }))
        | inr outside ↦ rw (get_lem slot m v) (
            rw outside (
              subst (λ r. Extended m slot second_ok (appended entry slot r))
                (sym (
                  ap
                    (λ n.
                      shared_memory_append entry second_ok
                        ((slot + 1 - length m.connections) * entry) n (mapped_whole m))
                    (count_wanted slot m v h (ground (arith, outside)))
                  ∙ append_lem second_ok (slot + 1 - length m.connections) (mapped_whole m)
                      v.whole))
                (new-Extended second_ok slot m v (ground (arith, outside)))))
      ]
