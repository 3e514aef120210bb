-- ===== src/Accept/Laws.antt =====
-- `accept_connection` claims the first unused connection.
use tud_crash_tolerant_proxy.Prelude.{
  ℕ, zero, suc, ◌+◌, ◌-◌, ◌*◌, ◌^◌, ◌<◌, ◌≡◌, refl, ap, sym, ◌∙◌, true, Option, none, some, List,
  [], ◌∷◌, ◌++◌, length, length-append, set, ltb, ◌==◌, if◌then◌else◌, append_assoc, arith,
  Bool-cases, inl, inr,
}
use tud_crash_tolerant_proxy.Shared.{
  Connection, SharedMemory, Slotted, conn_unused, conn_accepting, unused_connection, copies,
  or_append, shared_memory_get_or_append_connection,
}
use tud_crash_tolerant_proxy.Shared.Laws.{
  IsWhole, get_or_append-Extended, get_lem, mapped_whole, length-copies,
}
use tud_crash_tolerant_proxy.Accept.{
  connection_at, initialize, put_at, found_empty, get_empty_connection, store_accepted, claim_slot,
  claim_found, accept_connection, all_closed,
}
use tud_crash_tolerant_proxy.Accept.First.{
  first_unused, extend, claim, accepting, extend-Ready, get_or-set, set-set, get_or-append,
  first_here, first_there, extend_here, extend_there,
}

module _ (entry : ℕ) (pos : 0 < entry) where
  abbrev whole_write : ℕ → ℕ
  whole_write n = n

  -- A slot that is there already.
  lookup_inside :
      (written i : ℕ) (m : SharedMemory)
      → IsWhole entry pos m
      → i < length m.connections
      → shared_memory_get_or_append_connection entry true true written i m
        ≡ record { memory = mapped_whole entry pos m; slot = some i }
  unfolding shared_memory_get_or_append_connection or_append
  lookup_inside written i m v h =
      let there : ltb i (length m.connections) ≡ true = ground (arith, h) in
      ap (or_append entry true written i) (
        get_lem entry pos i m v
        ∙ ap (λ t. record { memory = mapped_whole entry pos m; slot = if t then some i else none })
            there)

  mapped-IsWhole :
      (m : SharedMemory) → IsWhole entry pos m → IsWhole entry pos (mapped_whole entry pos m)
  mapped-IsWhole m v = record { whole = v.whole; within = omega arith; small = v.small }

  one_copy : (n : ℕ) → n ≡ 1 → copies entry n ≡ unused_connection ∷ []
  unfolding copies
  one_copy n e = ap (copies entry) e

  -- What the search comes to, behind the connections of `front`.
  record Found (front back : List Connection) (r : Option Slotted) : Type 0 where
    memory : SharedMemory
    ends : r ≡ some (record { memory = memory; slot = some (length front + first_unused back) })
    same : memory.connections ≡ front ++ extend back

  search-Found :
      (back : List Connection) (fuel : ℕ) (front : List Connection) (m : SharedMemory)
      → m.connections ≡ front ++ back
      → IsWhole entry pos m
      → length back < fuel
      → length front + length back + 1 < 2 ^ 63
      → Found front back (get_empty_connection entry true whole_write fuel (length front) m)
  unfolding get_empty_connection found_empty first_unused extend
  search-Found back zero front m e v h small = absurd (omega (arith, h))
  search-Found [] (suc fuel) front m e v h small =
      let size : length m.connections ≡ length front =
        ap length e ∙ length-append front [] ∙ omega arith in
      let x = get_or_append-Extended entry pos true (length front) m v (omega (arith, small)) in
      let s =
        shared_memory_get_or_append_connection entry true true
          ((length front + 1 - length m.connections) * entry) (length front) m in
      let one : x.added ≡ 1 = omega (
        arith,
        x.least (omega (arith, size)),
        ap length x.same,
        length-append m.connections (copies entry x.added),
        length-copies entry pos x.added,
        size,
      ) in
      let same : s.memory.connections ≡ front ++ (unused_connection ∷ []) =
        x.same
        ∙ ap (λ l. m.connections ++ l) (one_copy x.added one)
        ∙ ap (λ l. l ++ (unused_connection ∷ [])) e
        ∙ append_assoc front [] (unused_connection ∷ []) in
      let there : (connection_at s.memory.connections (length front)) ≡ unused_connection =
        ap (λ l. connection_at l (length front)) same ∙ get_or-append front [] unused_connection in
      let empty : ((connection_at s.memory.connections (length front)).state == conn_unused)
          ≡ true =
        ap (λ c. c.state == conn_unused) there in
      record {
        memory = s.memory;
        ends =
            ap
              (λ o.
                found_empty entry true whole_write s o
                  (get_empty_connection entry true whole_write fuel (length front + 1) s.memory))
              (x.answers refl)
            ∙ ap
                (λ b.
                  if b
                  then some s
                  else get_empty_connection entry true whole_write fuel (length front + 1) s.memory)
                empty
            ∙ ap (λ o. some (record { memory = s.memory; slot = o }))
                (x.answers refl ∙ ap (λ n. some n) (omega arith));
        same = same;
      }
  search-Found (c ∷ cs) (suc fuel) front m e v h small =
      let size : length m.connections ≡ length front + suc (length cs) =
        ap length e ∙ length-append front (c ∷ cs) in
      let m' = mapped_whole entry pos m in
      let s =
        shared_memory_get_or_append_connection entry true true
          ((length front + 1 - length m.connections) * entry) (length front) m in
      let found : s ≡ record { memory = m'; slot = some (length front) } =
        lookup_inside ((length front + 1 - length m.connections) * entry) (length front) m v
          (omega (arith, size)) in
      let there : connection_at m.connections (length front) ≡ c =
        ap (λ l. connection_at l (length front)) e ∙ get_or-append front cs c in
      let step : get_empty_connection entry true whole_write (suc fuel) (length front) m ≡ (
          if c.state == conn_unused
          then some (record { memory = m'; slot = some (length front) })
          else get_empty_connection entry true whole_write fuel (length front + 1) m') =
        ap
          (λ r.
            found_empty entry true whole_write r r.slot
              (get_empty_connection entry true whole_write fuel (length front + 1) r.memory))
          found
        ∙ ap
            (λ (d : Connection).
              if d.state == conn_unused
              then some (record { memory = m'; slot = some (length front) })
              else get_empty_connection entry true whole_write fuel (length front + 1) m')
            there in
      elim (Bool-cases (c.state == conn_unused)) [
        | inl here ↦ record {
          memory = m';
          ends =
              step
              ∙ ap
                  (λ b.
                    if b
                    then some (record { memory = m'; slot = some (length front) })
                    else get_empty_connection entry true whole_write fuel (length front + 1) m')
                  here
              ∙ ap (λ n. some (record { memory = m'; slot = some n }))
                  (omega (arith, first_here c cs here));
          same = e ∙ ap (λ l. front ++ l) (sym (extend_here c cs here));
        }
        | inr other ↦
            let more : length (front ++ (c ∷ [])) ≡ length front + 1 =
              length-append front (c ∷ []) in
            let r =
              search-Found cs fuel (front ++ (c ∷ [])) m' (e ∙ sym (append_assoc front (c ∷ []) cs))
                (mapped-IsWhole m v) (omega (arith, h)) (omega (arith, small, more)) in
            record {
              memory = r.memory;
              ends =
                  step
                  ∙ ap
                      (λ b.
                        if b
                        then some (record { memory = m'; slot = some (length front) })
                        else get_empty_connection entry true whole_write fuel (length front + 1) m')
                      other
                  ∙ ap (λ n. get_empty_connection entry true whole_write fuel n m') (sym more)
                  ∙ r.ends
                  ∙ ap (λ n. some (record { memory = r.memory; slot = some n }))
                      (omega (arith, more, first_there c cs other));
              same =
                  r.same
                  ∙ append_assoc front (c ∷ []) (extend cs)
                  ∙ ap (λ l. front ++ l) (sym (extend_there c cs other));
            }
      ]

  -- What the call comes to: the slot, and the connections.
  pub record Claims (cs : List Connection) (fd : ℕ) (r : Option Slotted) : Type 0 where
    pub memory : SharedMemory
    pub ends : r ≡ some (record { memory = memory; slot = some (first_unused cs) })
    pub same : memory.connections ≡ claim (accepting fd) cs

  -- Where pwritev(2) writes all it is given, mremap(2) does not fail, no other process interferes, and
  -- the fuel is more than there are connections: when accept(2) answers with a file descriptor, it is
  -- stored to the first unused connection, or to one that is appended where there is none; that
  -- connection is in CONN_ACCEPTING and is otherwise as new, and no other connection changes.
  pub accept_connection-Claims :
      (fuel fd : ℕ) (m : SharedMemory)
      → IsWhole entry pos m
      → length m.connections < fuel
      → length m.connections + 1 < 2 ^ 63
      → Claims m.connections fd
          (accept_connection entry true whole_write fuel ((λ c. c) ∷ []) (some fd) m)
  unfolding accept_connection claim_found claim_slot store_accepted put_at initialize all_closed
  accept_connection-Claims fuel fd m v h small =
      let f = search-Found m.connections fuel [] m refl v h (omega (arith, small)) in
      let k = first_unused m.connections in
      let r = extend-Ready m.connections in
      let empty : ((connection_at f.memory.connections k).state == conn_unused) ≡ true =
        ground (arith, ap (λ l. (connection_at l k).state) f.same ∙ r.empty) in
      let found : get_empty_connection entry true whole_write fuel 0 m
          ≡ some (record { memory = f.memory; slot = some k }) =
        f.ends ∙ ap (λ n. some (record { memory = f.memory; slot = some n })) (omega arith) in
      let claimed : Connection = record unused_connection { state = conn_accepting } in
      let at_k : connection_at (set f.memory.connections k claimed) k ≡ claimed =
        get_or-set f.memory.connections k claimed (omega (arith, r.inside, ap length f.same)) in
      let memory : SharedMemory =
        (store_accepted entry true whole_write k (put_at k claimed f.memory) (some fd)).memory in
      record {
        memory = memory;
        ends =
            ap (λ o. claim_found entry true whole_write (λ c. c) (some fd) o (λ m'. none)) found
            ∙ ap (λ b. if b then some (record { memory = memory; slot = some k }) else none) empty;
        same =
            ap
              (λ (c : Connection).
                set (set f.memory.connections k claimed) k
                  (record c { downstream = record c.downstream { fd0 = some fd } }))
              at_k
            ∙ set-set f.memory.connections k claimed (accepting fd)
            ∙ ap (λ l. set l k (accepting fd)) f.same
            ∙ r.sets (accepting fd);
      }
