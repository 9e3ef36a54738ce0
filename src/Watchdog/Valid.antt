-- ===== src/Watchdog/Valid.antt =====
-- The bounds that every operation of the watchdog keeps.
use voxhf.Dict.Laws.{
  length-insert, count-insert_same, All-insert, All-lookup, All-keep, count-keep-le,
}
use voxhf.Dict.{insert, values, lookup, Dict, count_values}
use voxhf.Watchdog.{
  without_timer, of_device, Ticket, Payload, delete_device_batches, clear_active_timer, cleanup,
  add_ticket, Watchdog, Batch, Active, Options,
}
use voxhf.Prelude.{
  false, ◌-◌, text_eq, leb, ◌&&◌, ltb, inr, Bool-cases, some, not, is_none, inl, All, ◌≤◌, length,
  arith, Option-cases, Text, ◌≡◌, refl, ℕ,
}

module _ (o : Options) where
  abbrev pub FitsBatch : Batch → Type 0
  FitsBatch b = length b.tickets ≤ o.max_tickets

  -- An armed device has tickets, and a pending callback of it belongs to a generation that was
  -- given out.
  abbrev pub FitsActive : ℕ → Active → Type 0
  FitsActive generation a =
      (1 ≤ length a.tickets)
      × (length a.tickets ≤ o.max_tickets)
      × (a.offline_generation ≤ generation)

  abbrev pub pending_batches : Text → Watchdog → ℕ
  pending_batches device w = count_values (of_device device) w.batches

  pub record IsValid (w : Watchdog) : Type 0 where
    pub few_batches : (device : Text) → pending_batches device w ≤ o.max_batches_per_device
    pub few_tickets : All FitsBatch (values w.batches)
    pub armed : All (FitsActive w.generation) (values w.active)

  pub cleanup-IsValid : (now : ℕ) (w : Watchdog) → IsValid w → IsValid (cleanup o now w)
  unfolding cleanup
  cleanup-IsValid now w v = record {
    few_batches = λ d. omega (
      arith,
      v.few_batches d,
      count-keep-le (of_device d) (λ b. not (ltb o.max_ticket_lifetime_ms (now - b.created_at_ms)))
          w.batches,
    );
    few_tickets = All-keep FitsBatch _ w.batches v.few_tickets;
    armed = v.armed;
  }

  pub delete_device_batches-IsValid :
      (device : Text) (w : Watchdog) → IsValid w → IsValid (delete_device_batches device w)
  unfolding delete_device_batches
  delete_device_batches-IsValid device w v = record {
    few_batches = λ d. omega (
      arith,
      v.few_batches d,
      count-keep-le (of_device d) (λ b. not (of_device device b)) w.batches,
    );
    few_tickets = All-keep FitsBatch _ w.batches v.few_tickets;
    armed = v.armed;
  }

  pub clear_active_timer-IsValid :
      (device : Text) (w : Watchdog) → IsValid w → IsValid (clear_active_timer device w).0
  unfolding clear_active_timer
  clear_active_timer-IsValid device w v = elim (Option-cases (lookup device w.active)) [
    | inl out ↦ rw out v
    | inr (a, found) ↦ elim (Option-cases a.offline_timer) [
      | inl idle ↦ rw (found, idle) v
      | inr (handle, set) ↦
          let (low, high, old) =
            All-lookup (FitsActive w.generation) device w.active v.armed found in
          rw (found, set)
            (record {
              few_batches = v.few_batches;
              few_tickets = v.few_tickets;
              armed =
                  All-insert (FitsActive w.generation) device (without_timer a) w.active v.armed
                    (low, high, omega arith);
            })
    ]
  ]

  length-insert-le :
      (k : Text) (t : Ticket) (m : Dict Ticket)
      → (is_none (lookup k m) && leb o.max_tickets (length m)) ≡ false
      → length m ≤ o.max_tickets
      → length (insert k t m) ≤ o.max_tickets
  length-insert-le k t m room h = ground (arith, length-insert k t m)

  pub add_ticket-IsValid :
      (key : Text) (b : Batch) (p : Payload) (w : Watchdog)
      → lookup key w.batches ≡ some b
      → IsValid w
      → IsValid (add_ticket o key b p w).0
  unfolding add_ticket
  add_ticket-IsValid key b p w found v = elim (Bool-cases (text_eq b.session_id p.session_id)) [
    | inr other ↦ rw other v
    | inl same ↦
        elim (Bool-cases
          (is_none (lookup p.ticket.device_id b.tickets) && leb o.max_tickets (length b.tickets))) [
            | inl full ↦ rw (same, full) v
            | inr room ↦
                let b' = record b { tickets = insert p.ticket.device_id p.ticket b.tickets } in
                rw (same, room)
                  (record {
                    few_batches = λ d. omega (
                      arith,
                      v.few_batches d,
                      count-insert_same (of_device d) key b' b w.batches found refl,
                    );
                    few_tickets = All-insert FitsBatch key b' w.batches v.few_tickets (
                        length-insert-le p.ticket.device_id p.ticket b.tickets room
                          (All-lookup FitsBatch key w.batches v.few_tickets found));
                    armed = v.armed;
                  })
          ]
  ]
