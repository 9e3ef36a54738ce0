-- ===== src/Watchdog/Fire.antt =====
-- When tickets are sent: never after a reconnection, a disarming or a replacement, and never twice.
use voxhf.Watchdog.Preserved.{committable_parts}
use voxhf.Watchdog.Valid.{pending_batches}
use voxhf.Dict.Laws.{lookup-keep_none, lookup-remove, lookup-insert}
use voxhf.Protocol.Shape.{fail, ok}
use voxhf.Watchdog.{
  may_disarm, disarm_active, disarm_current, disarm, armed, new_receipt, committable, commit_batch,
  begin_fire, state_of, disarmed, get_state, without_timer, live_tickets, delivered, cleanup,
  batch_key, Receipt, of_device, Ticket, still_expected, delete_device_batches, commit,
  clear_active_timer, Batch, fire_begin, collect_receipt, agent_online, Watchdog, Active, Options,
}
use voxhf.Dict.{values, remove, insert, lookup, keep_values, Dict, count_values}
use voxhf.Prelude.{
  ltb→lt, ltb, leb, false, codes, text_eq_iff, ◌∙◌, subst, sym, ap, some_inj, Option-cases, ◌==◌,
  inr, ◌&&◌, text_eq_refl, inl, text_eq, ◌<◌, not, arith, Bool-cases, some, none, ◌≢◌, true, List,
  Text, Option, ◌≡◌, refl, ◌∷◌, [], ℕ,
}

lookup-insert_self {ℓ} :
    {V : Type ℓ} (k : Text) (v : V) (m : Dict V) → lookup k (insert k v m) ≡ some v
lookup-insert_self k v m = ground (arith, lookup-insert k k v m, text_eq_refl k)

lookup-remove_self {ℓ} : {V : Type ℓ} (k : Text) (m : Dict V) → lookup k (remove k m) ≡ none
lookup-remove_self k m = ground (arith, lookup-remove k k m, text_eq_refl k)

no_batches_left :
    (device : Text) (m : Dict Batch)
    → count_values (of_device device) (keep_values (λ b. not (of_device device b)) m) ≡ 0
unfolding count_values keep_values
no_batches_left device [] = refl
no_batches_left device ((k, b) ∷ m) = ground (arith, no_batches_left device m)

-- A ticket whose expiry is a date after `now`.
abbrev pub Unexpired : Options → ℕ → Ticket → Type 0
Unexpired o now t = (expires : ℕ) × (o.parse_date t.expires_at ≡ some expires) × (now < expires)

-- The second list has the tickets of the first that have not expired, all of them, in order.
pub data StillValid (o : Options) (now : ℕ) : List Ticket → List Ticket → Type 0 where
  no_more : StillValid o now [] []
  sends :
      {t : Ticket} {ts us : List Ticket}
      → Unexpired o now t
      → StillValid o now ts us
      → StillValid o now (t ∷ ts) (t ∷ us)
  skips :
      {t : Ticket} {ts us : List Ticket}
      → (Unexpired o now t → ⊥)
      → StillValid o now ts us
      → StillValid o now (t ∷ ts) us

module _ (o : Options) where
  live_tickets-StillValid :
      (now : ℕ) (ts : List Ticket) → StillValid o now ts (live_tickets o now ts)
  live_tickets-StillValid now [] = no_more
  live_tickets-StillValid now (t ∷ ts) =
      let rest = live_tickets-StillValid now ts in
      elim (Option-cases (o.parse_date t.expires_at)) [
        | inl unread ↦ rw unread (skips (λ u. absurd (ground (arith, unread, u.1))) rest)
        | inr (expires, read) ↦ elim (Bool-cases (ltb now expires)) [
          | inl before ↦ rw (read, before) (sends (expires, read, ltb→lt now expires before) rest)
          | inr after ↦
              rw (read, after)
                (skips (λ u. absurd (ground (arith, some_inj (sym read ∙ u.1), u.2, after))) rest)
        ]
      ]

  -- Without an armed device, or for a generation that is not the pending one, a callback does
  -- nothing.
  fire_refused :
      (now : ℕ) (device session : Text) (expected : ℕ) (w : Watchdog)
      → still_expected o session expected (lookup device w.active) ≡ none
      → fire_begin o now device session expected w ≡ (w, none)
  unfolding fire_begin
  fire_refused now device session expected w e = rw (e, fire_begin)

  still_expected_of_generation :
      (session : Text) (expected : ℕ) (a : Active)
      → a.offline_generation ≢ expected
      → still_expected o session expected (some a) ≡ none
  still_expected_of_generation session expected a h = ground arith

  -- A callback of the grace period that comes after the agent is back sends nothing and changes
  -- nothing.
  pub fire_begin-agent_online :
      (now : ℕ) (device session : Text) (expected : ℕ) (w : Watchdog) (a : Active) (handle : ℕ)
      → lookup device w.active ≡ some a
      → a.offline_timer ≡ some handle
      → 0 < expected
      → fire_begin o now device session expected (agent_online o device w).0
        ≡ ((agent_online o device w).0, none)
  unfolding agent_online clear_active_timer
  fire_begin-agent_online now device session expected w a handle found set pos =
      fire_refused now device session expected _ (
        rw (found, set, lookup-insert_self device (without_timer a) w.active)
          (still_expected_of_generation session expected (without_timer a) (omega arith)))

  still_expected_parts :
      (session : Text) (expected : ℕ) (found : Option Active) {a : Active}
      → still_expected o session expected found ≡ some a
      → (found ≡ some a) × (a.session_id ≡ session) × (a.offline_generation ≡ expected)
  still_expected_parts session expected none e = cc
  still_expected_parts session expected (some b) e =
      elim (Bool-cases (text_eq b.session_id session && b.offline_generation == expected)) [
        | inl fits ↦
            let same = some_inj (rw fits at e) in
            (
              ap some same,
              subst (λ x. x.session_id ≡ session) same
                  ((text_eq_iff b.session_id session).0 (ground arith)),
              subst (λ x. x.offline_generation ≡ expected) same (ground arith),
            )
        | inr other ↦ absurd (ground arith)
      ]

  fire_sends :
      (now : ℕ) (device session : Text) (expected : ℕ) (w : Watchdog) (a : Active)
      → still_expected o session expected (lookup device w.active) ≡ some a
      → fire_begin o now device session expected w ≡ (
        begin_fire o device (new_receipt o now session w) w,
        some (live_tickets o now a.tickets, new_receipt o now session w),
      )
  unfolding fire_begin
  fire_sends now device session expected w a found = rw (found, fire_begin)

  -- The state that a firing callback leaves: the device is disarmed and has no batch.
  begin_fire_lem :
      (device : Text) (r : Receipt) (w : Watchdog)
      → (lookup device (begin_fire o device r w).active ≡ none)
        × (pending_batches o device (begin_fire o device r w) ≡ 0)
  unfolding begin_fire delete_device_batches
  begin_fire_lem device r w = (lookup-remove_self device w.active, no_batches_left device w.batches)

  -- When a callback does send, it sends the committed tickets of the device whose expiry is a date
  -- that is still to come, all of them and in order; the device is disarmed with no batch left, and
  -- no callback for the device sends again.
  pub fire_begin_once :
      (now : ℕ) (device session : Text) (expected : ℕ) (w w' : Watchdog) (ts : List Ticket)
      (r : Receipt)
      → fire_begin o now device session expected w ≡ (w', some (ts, r))
      → ((a : Active) × (lookup device w.active ≡ some a)
          × (a.session_id ≡ session)
          × (a.offline_generation ≡ expected)
          × StillValid o now a.tickets ts)
        × (get_state device w' ≡ disarmed)
        × (pending_batches o device w' ≡ 0)
        × ((now' : ℕ) (session' : Text) (expected' : ℕ)
            → fire_begin o now' device session' expected' w' ≡ (w', none))
  fire_begin_once now device session expected w w' ts r e =
      elim (Option-cases (still_expected o session expected (lookup device w.active))) [
        | inl refused ↦ absurd (ground (arith, fire_refused now device session expected w refused))
        | inr (a, found) ↦
            let (held, same, current) =
              still_expected_parts session expected (lookup device w.active) found in
            let (gone, empty) = begin_fire_lem device (new_receipt o now session w) w in
            let both = sym (fire_sends now device session expected w a found) ∙ e in
            let state : begin_fire o device (new_receipt o now session w) w ≡ w' =
              ap (λ t. t.0) both in
            let unarmed : lookup device w'.active ≡ none =
              subst (λ x. lookup device x.active ≡ none) state gone in
            (
              (
                a,
                held,
                same,
                current,
                subst (StillValid o now a.tickets) (ap (λ t. t.0) (some_inj (ap (λ t. t.1) both)))
                    (live_tickets-StillValid now a.tickets),
              ),
              ap state_of unarmed,
              subst (λ x. pending_batches o device x ≡ 0) state empty,
              λ now' session' expected'.
                  fire_refused now' device session' expected' w' (rw unarmed),
            )
      ]

  commit_refused :
      (now : ℕ) (device session batch_id : Text) (w : Watchdog)
      → committable o session (lookup (batch_key device batch_id) (cleanup o now w).batches) ≡ none
      → commit o now device session batch_id w
        ≡ (cleanup o now w, [], fail (codes "watchdog batch is missing or empty"))
  unfolding commit
  commit_refused now device session batch_id w e = rw (e, commit)

  commit_runs :
      (now : ℕ) (device session batch_id : Text) (w : Watchdog) (b : Batch)
      → committable o session (lookup (batch_key device batch_id) (cleanup o now w).batches)
        ≡ some b
      → commit o now device session batch_id w ≡ commit_batch o device b (cleanup o now w)
  unfolding commit
  commit_runs now device session batch_id w b e = rw (e, commit)

  commit_batch_lem :
      (device : Text) (b : Batch) (w : Watchdog)
      → (lookup device (commit_batch o device b w).0.active ≡ some (armed o b))
        × (pending_batches o device (commit_batch o device b w).0 ≡ 0)
  unfolding commit_batch delete_device_batches
  commit_batch_lem device b w = (
    lookup-insert_self device (armed o b) (clear_active_timer device w).0.active,
    no_batches_left device (clear_active_timer device w).0.batches,
  )

  -- After a commit the device is armed with the tickets of the batch, in order, and with no timer;
  -- no batch of the device is left, and a callback of an earlier grace period sends nothing.
  pub commit_replaces :
      (now : ℕ) (device session batch_id : Text) (w : Watchdog) {n : ℕ} (now' : ℕ) (session' : Text)
      (expected : ℕ)
      → 0 < expected
      → (commit o now device session batch_id w).2 ≡ ok n
      → let w' = (commit o now device session batch_id w).0 in
        ((b : Batch) × (lookup (batch_key device batch_id) (cleanup o now w).batches ≡ some b)
          × (lookup device w'.active
              ≡ some (record {
                session_id = b.session_id;
                tickets = values b.tickets;
                offline_timer = none;
                offline_generation = 0;
              })))
        × (pending_batches o device w' ≡ 0)
        × (fire_begin o now' device session' expected w' ≡ (w', none))
  commit_replaces now device session batch_id w now' session' expected pos e =
      let clean = cleanup o now w in
      elim (Option-cases
        (committable o session (lookup (batch_key device batch_id) clean.batches))) [
          | inl refused ↦
              absurd (ground (arith, commit_refused now device session batch_id w refused))
          | inr (b, found) ↦
              let (held, low) =
                committable_parts o session (lookup (batch_key device batch_id) clean.batches)
                  found in
              let (is_armed, empty) = commit_batch_lem device b clean in
              rw (commit_runs now device session batch_id w b found) (
                (b, held, is_armed),
                empty,
                fire_refused now' device session' expected _
                    (rw is_armed (still_expected_of_generation session' expected _ (omega arith))),
              )
        ]

  collect_once :
      (device session : Text) (w : Watchdog)
      → (collect_receipt o device session w).1 ≡ true
      → lookup device (collect_receipt o device session w).0.fired ≡ none
  unfolding collect_receipt
  collect_once device session w e =
      elim (Bool-cases (delivered o session (lookup device w.fired))) [
        | inl found ↦ rw found (lookup-remove_self device w.fired)
        | inr missing ↦ absurd (ground arith)
      ]

  clear_active_timer-fired :
      (device : Text) (w : Watchdog) → (clear_active_timer device w).0.fired ≡ w.fired
  unfolding clear_active_timer
  clear_active_timer-fired device w = elim (Option-cases (lookup device w.active)) [
    | inl out ↦ rw out
    | inr (a, found) ↦ elim (Option-cases a.offline_timer) [
      | inl idle ↦ rw (found, idle)
      | inr (handle, set) ↦ rw (found, set)
    ]
  ]

  disarm_current-fired :
      (device session : Text) (w : Watchdog) → (disarm_current o device session w).0.fired ≡ w.fired
  unfolding disarm_current disarm_active delete_device_batches
  disarm_current-fired device session w =
      elim (Bool-cases (may_disarm o session (lookup device w.active))) [
        | inl may ↦ rw may (clear_active_timer-fired device w)
        | inr other ↦ rw other
      ]

  no_receipt :
      (now : ℕ) (device session : Text) (w : Watchdog)
      → lookup device w.fired ≡ none
      → (disarm o now device session w).2 ≡ false
  unfolding disarm collect_receipt cleanup
  no_receipt now device session w e =
      let none_kept =
        lookup-keep_none device (λ (r : Receipt). not (leb r.expires_at_ms now)) w.fired e in
      rw (disarm_current-fired device session (cleanup o now w), none_kept)

  disarm_collects :
      (now : ℕ) (device session : Text) (w : Watchdog)
      → (disarm o now device session w).2 ≡ true
      → lookup device (disarm o now device session w).0.fired ≡ none
  unfolding disarm
  disarm_collects now device session w e =
      collect_once device session (disarm_current o device session (cleanup o now w)).0 e

  -- A delivery is reported to the proxy once: after a `disarm` that returned `fired: true`, the next
  -- one for the device returns `fired: false`, whatever its session.
  pub disarm_reports_once :
      (now : ℕ) (device session : Text) (w : Watchdog) (now' : ℕ) (session' : Text)
      → (disarm o now device session w).2 ≡ true
      → (disarm o now' device session' (disarm o now device session w).0).2 ≡ false
  disarm_reports_once now device session w now' session' e =
      no_receipt now' device session' (disarm o now device session w).0
        (disarm_collects now device session w e)
