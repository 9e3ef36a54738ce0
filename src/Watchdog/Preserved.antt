-- ===== src/Watchdog/Preserved.antt =====
-- Each operation of the watchdog keeps the bounds.
use voxhf.Dict.Laws.{
  All-remove, All-lookup, All-insert, count-insert_new, count-insert-le, lookup-insert,
}
use voxhf.Watchdog.Valid.{
  clear_active_timer-IsValid, FitsActive, delete_device_batches-IsValid, FitsBatch,
  add_ticket-IsValid, pending_batches, cleanup-IsValid, IsValid,
}
use voxhf.Watchdog.{
  begin_fire, may_disarm, delivered, holds, disarm_current, collect_receipt, still_expected,
  fire_finish, disarm_active, disarm, commit, clear_active_timer, can_go_offline, Receipt, Active,
  of_device, cleanup, in_window, new_batch, committable, batch_key, Batch, delete_device_batches,
  Watchdog, Payload, stage_batch, stage, fire_begin, commit_batch, agent_offline, Options,
}
use voxhf.Dict.{remove, insert, lookup, values, Dict}
use voxhf.Prelude.{
  ltb, All-weaken, ◌+◌, some_inj, none, Bool, ◌&&◌, ◌≤◌, text_eq_refl, subst, text_eq_iff, arith,
  inl, text_eq, inr, some, Option-cases, false, Bool-cases, suc, leb, ap, length, Text, Option, ◌≡◌,
  refl, ◌∷◌, [], ℕ,
}

values-length {ℓ} : {V : Type ℓ} (m : Dict V) → length (values m) ≡ length m
values-length [] = refl
values-length ((k, v) ∷ m) = ap suc (values-length m)

module _ (o : Options) where
  new_batch-IsValid :
      (now : ℕ) (device : Text) (p : Payload) (key : Text) (w : Watchdog)
      → leb o.max_batches_per_device (pending_batches o device w) ≡ false
      → IsValid o w
      → IsValid o (record w { batches = insert key (new_batch o now device p) w.batches })
  new_batch-IsValid now device p key w room v =
      let fresh = new_batch o now device p in
      record {
        few_batches = λ d. elim (Bool-cases (text_eq device d)) [
          | inl same ↦
              let e : device ≡ d = (text_eq_iff device d).0 same in
              subst
                (λ x.
                  pending_batches o x (record w { batches = insert key fresh w.batches })
                  ≤ o.max_batches_per_device)
                e (ground (arith, count-insert-le (of_device device) key fresh w.batches))
          | inr other ↦
              omega
                (arith, v.few_batches d, count-insert_new (of_device d) key fresh w.batches other)
        ];
        few_tickets = All-insert (FitsBatch o) key fresh w.batches v.few_tickets (omega arith);
        armed = v.armed;
      }

  stage_batch-IsValid :
      (now : ℕ) (device : Text) (p : Payload) (w : Watchdog)
      → IsValid o w
      → IsValid o (stage_batch o now device p w).0
  unfolding stage_batch
  stage_batch-IsValid now device p w v =
      let key = batch_key device p.batch_id in
      let fresh = new_batch o now device p in
      elim (Option-cases (lookup key w.batches)) [
        | inr (b, found) ↦ rw (found, stage_batch) (add_ticket-IsValid o key b p w found v)
        | inl missing ↦
            elim (Bool-cases (leb o.max_batches_per_device (pending_batches o device w))) [
              | inl full ↦ rw (missing, stage_batch, full) v
              | inr room ↦
                  rw (missing, stage_batch, room)
                    (add_ticket-IsValid o key fresh p
                      (record w { batches = insert key fresh w.batches })
                      (ground (arith, lookup-insert key key fresh w.batches, text_eq_refl key))
                      (new_batch-IsValid now device p key w room v))
            ]
      ]

  pub stage-IsValid :
      (now : ℕ) (device : Text) (p : Payload) (w : Watchdog)
      → IsValid o w
      → IsValid o (stage o now device p w).0
  unfolding stage
  stage-IsValid now device p w v =
      let clean = cleanup-IsValid o now w v in
      elim (Bool-cases (in_window o now (o.parse_date p.ticket.expires_at))) [
        | inr out ↦ rw out clean
        | inl inside ↦ elim (Bool-cases (o.endpoint_allowed p.ticket.endpoint)) [
          | inr foreign ↦ rw (inside, foreign) clean
          | inl known ↦
              rw (inside, known) (stage_batch-IsValid now device p (cleanup o now w) clean)
        ]
      ]

  pub committable_parts :
      (session : Text) (found : Option Batch) {b : Batch}
      → committable o session found ≡ some b
      → (found ≡ some b) × (1 ≤ length b.tickets)
  committable_parts session none e = cc
  committable_parts session (some c) e =
      elim (Bool-cases (text_eq c.session_id session && leb 1 (length c.tickets))) [
        | inl fits ↦
            let same = some_inj (rw fits at e) in
            (ap some same, subst (λ x. 1 ≤ length x.tickets) same (ground arith))
        | inr other ↦ absurd (ground arith)
      ]

  commit_batch-IsValid :
      (device : Text) (b : Batch) (w : Watchdog)
      → 1 ≤ length b.tickets
      → length b.tickets ≤ o.max_tickets
      → IsValid o w
      → IsValid o (commit_batch o device b w).0
  unfolding commit_batch
  commit_batch-IsValid device b w low high v =
      let cleared = (clear_active_timer device w).0 in
      let v' =
        delete_device_batches-IsValid o device cleared (clear_active_timer-IsValid o device w v) in
      let rest = delete_device_batches device cleared in
      record {
        few_batches = v'.few_batches;
        few_tickets = v'.few_tickets;
        armed = All-insert (FitsActive o rest.generation) device _ rest.active v'.armed (
          omega (arith, values-length b.tickets),
          omega (arith, values-length b.tickets),
          omega arith,
        );
      }

  pub commit-IsValid :
      (now : ℕ) (device session batch_id : Text) (w : Watchdog)
      → IsValid o w
      → IsValid o (commit o now device session batch_id w).0
  unfolding commit
  commit-IsValid now device session batch_id w v =
      let w' = cleanup o now w in
      let key = batch_key device batch_id in
      let clean = cleanup-IsValid o now w v in
      elim (Option-cases (committable o session (lookup key w'.batches))) [
        | inl refused ↦ rw (refused, commit) clean
        | inr (b, found) ↦
            let (held, low) = committable_parts session (lookup key w'.batches) found in
            rw (found, commit)
              (commit_batch-IsValid device b w' low
                (All-lookup (FitsBatch o) key w'.batches clean.few_tickets held) clean)
      ]

  remove_active-IsValid :
      (device : Text) (w : Watchdog)
      → IsValid o w
      → IsValid o (record w { active = remove device w.active })
  remove_active-IsValid device w v = record {
    few_batches = v.few_batches;
    few_tickets = v.few_tickets;
    armed = All-remove (FitsActive o w.generation) device w.active v.armed;
  }

  with_fired-IsValid :
      (fired : Dict Receipt) (receipts : ℕ) (w : Watchdog)
      → IsValid o w
      → IsValid o (record w { fired = fired; receipts = receipts })
  with_fired-IsValid fired receipts w v = record {
    few_batches = v.few_batches;
    few_tickets = v.few_tickets;
    armed = v.armed;
  }

  disarm_active-IsValid :
      (device : Text) (w : Watchdog) → IsValid o w → IsValid o (disarm_active o device w).0
  unfolding disarm_active
  disarm_active-IsValid device w v =
      let cleared = (clear_active_timer device w).0 in
      delete_device_batches-IsValid o device
        (record cleared { active = remove device cleared.active })
        (remove_active-IsValid device cleared (clear_active_timer-IsValid o device w v))

  disarm_current-IsValid :
      (device session : Text) (w : Watchdog)
      → IsValid o w
      → IsValid o (disarm_current o device session w).0
  unfolding disarm_current
  disarm_current-IsValid device session w v =
      elim (Bool-cases (may_disarm o session (lookup device w.active))) [
        | inl may ↦ rw may (disarm_active-IsValid device w v)
        | inr not_ours ↦ rw not_ours v
      ]

  collect_receipt-IsValid :
      (device session : Text) (w : Watchdog)
      → IsValid o w
      → IsValid o (collect_receipt o device session w).0
  unfolding collect_receipt
  collect_receipt-IsValid device session w v =
      elim (Bool-cases (delivered o session (lookup device w.fired))) [
        | inl found ↦ rw found (with_fired-IsValid (remove device w.fired) w.receipts w v)
        | inr missing ↦ rw missing v
      ]

  pub disarm-IsValid :
      (now : ℕ) (device session : Text) (w : Watchdog)
      → IsValid o w
      → IsValid o (disarm o now device session w).0
  unfolding disarm
  disarm-IsValid now device session w v =
      collect_receipt-IsValid device session (disarm_current o device session (cleanup o now w)).0
        (disarm_current-IsValid device session (cleanup o now w) (cleanup-IsValid o now w v))

  can_go_offline-some :
      (found : Option Active) {a : Active} → can_go_offline o found ≡ some a → found ≡ some a
  can_go_offline-some none e = cc
  can_go_offline-some (some a) e = ground arith

  pub agent_offline-IsValid :
      (now handle : ℕ) (device : Text) (w : Watchdog)
      → IsValid o w
      → IsValid o (agent_offline o now handle device w).0
  unfolding agent_offline
  agent_offline-IsValid now handle device w v =
      let w' = cleanup o now w in
      let clean = cleanup-IsValid o now w v in
      elim (Option-cases (can_go_offline o (lookup device w'.active))) [
        | inl refused ↦ rw (refused, agent_offline) clean
        | inr (a, found) ↦
            let held = can_go_offline-some (lookup device w'.active) found in
            let (low, high, old) =
              All-lookup (FitsActive o w'.generation) device w'.active clean.armed held in
            rw (found, agent_offline)
              (record {
                few_batches = clean.few_batches;
                few_tickets = clean.few_tickets;
                armed =
                    All-insert (FitsActive o (w'.generation + 1)) device _ w'.active
                      (All-weaken (FitsActive o w'.generation) (FitsActive o (w'.generation + 1))
                        (values w'.active) (λ x p. (p.0, p.1, omega arith)) clean.armed)
                      (low, high, omega arith);
              })
      ]

  pub fire_begin-IsValid :
      (now : ℕ) (device session : Text) (expected : ℕ) (w : Watchdog)
      → IsValid o w
      → IsValid o (fire_begin o now device session expected w).0
  unfolding fire_begin begin_fire
  fire_begin-IsValid now device session expected w v =
      let unarmed = record w { active = remove device w.active } in
      elim (Option-cases (still_expected o session expected (lookup device w.active))) [
        | inl refused ↦ rw (refused, fire_begin) v
        | inr (a, found) ↦
            rw (found, fire_begin)
              (with_fired-IsValid _ _ (delete_device_batches device unarmed)
                (delete_device_batches-IsValid o device unarmed (remove_active-IsValid device w v)))
      ]

  pub fire_finish-IsValid :
      (now : ℕ) (device : Text) (r : Receipt) (sent : ℕ) (reported : Bool) (w : Watchdog)
      → IsValid o w
      → IsValid o (fire_finish o now device r sent reported w)
  unfolding fire_finish
  fire_finish-IsValid now device r sent reported w v =
      elim (Bool-cases (holds o r (lookup device w.fired))) [
        | inr gone ↦ rw gone v
        | inl held ↦ elim (Bool-cases (ltb 0 sent)) [
          | inr none_sent ↦
              rw (held, none_sent) (with_fired-IsValid (remove device w.fired) w.receipts w v)
          | inl some_sent ↦ elim (Bool-cases reported) [
            | inl yes_told ↦ rw (held, some_sent, yes_told) (with_fired-IsValid _ w.receipts w v)
            | inr untold ↦ rw (held, some_sent, untold) (with_fired-IsValid _ w.receipts w v)
          ]
        ]
      ]
