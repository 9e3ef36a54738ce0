-- ===== src/Watchdog.antt =====
-- apps/relay/agent-watchdog.js: sealed push tickets that the relay sends when an agent stays
-- offline. An instant is a number of milliseconds. The clock's value and the handle that setTimer
-- returns are arguments, the clock's one value for a whole call. An operation returns the new state, what it asks of the timers, in order,
-- and its result.
pub mod Endpoint
pub mod Valid
pub mod Preserved
pub mod Fire
pub mod Isolation
pub mod Trace
mod Tests
use voxhf.Protocol.Shape.{ok, fail, Result}
use voxhf.Json.{fin, Number}
use voxhf.Dict.{count_values, insert, remove, lookup, values, keep_values, Dict}
use voxhf.Prelude.{
  ◌/◌, ◌||◌, ◌^◌, ◌==◌, ◌-◌, ◌&&◌, length, codes, ◌+◌, ◌%◌, true, text_eq, ltb, leb, is_some,
  is_none, false, ◌++◌, some, not, if◌then◌else◌, Bool, none, Text, Option, List, ◌∷◌, [], ℕ,
}

pub record Ticket : Type 0 where
  pub device_id : Text
  pub endpoint : Text
  pub expires_at : Text
  pub authorization : Text
  pub content_encoding : Text
  pub body : Text

pub record Payload : Type 0 where
  pub session_id : Text
  pub batch_id : Text
  pub ticket : Ticket

pub record Batch : Type 0 where
  pub device_key : Text
  pub session_id : Text
  pub created_at_ms : ℕ
  pub tickets : Dict Ticket

pub record Active : Type 0 where
  pub session_id : Text
  pub tickets : List Ticket
  pub offline_timer : Option ℕ
  pub offline_generation : ℕ

-- `identity` tells receipts apart, as `===` does.
pub record Receipt : Type 0 where
  pub session_id : Text
  pub sent : Bool
  pub expires_at_ms : ℕ
  pub identity : ℕ

pub record Watchdog : Type 0 where
  pub active : Dict Active
  pub batches : Dict Batch
  pub fired : Dict Receipt
  pub generation : ℕ
  pub receipts : ℕ

pub record Options : Type 0 where
  pub offline_delay_ms : ℕ
  pub max_ticket_lifetime_ms : ℕ
  pub fired_receipt_ttl_ms : ℕ
  pub max_tickets : ℕ
  pub max_batches_per_device : ℕ
  -- Date.parse; `none` is NaN
  pub parse_date : Text → Option ℕ
  -- isAllowedPushEndpoint with the configured origins
  pub endpoint_allowed : Text → Bool

pub data Effect : Type 0 where
  clear_timer : ℕ → Effect
  -- setTimer(() => fire(deviceKey, sessionId, expectedGeneration), offlineDelayMs)
  set_timer : Text → Text → ℕ → ℕ → Effect

-- positiveInteger(value, fallback), on the number that Number(value) gives.
unfoldable pub positive_integer : Number → ℕ → ℕ
positive_integer (fin false n k) fallback =
    if n % 2 ^ k == 0 && ltb 0 n then n / 2 ^ k else fallback
positive_integer _ fallback = fallback

-- batchKey(deviceKey, batchId)
abbrev pub batch_key : Text → Text → Text
batch_key device_key batch_id = device_key ++ (10 ∷ batch_id)

abbrev pub initial : Watchdog
initial = record { active = []; batches = []; fired = []; generation = 0; receipts = 0 }

abbrev pub of_device : Text → Batch → Bool
of_device device b = text_eq b.device_key device

unfoldable pub delete_device_batches : Text → Watchdog → Watchdog
delete_device_batches device w = record w {
  batches = keep_values (λ b. not (of_device device b)) w.batches;
}

abbrev pub without_timer : Active → Active
without_timer a = record a { offline_timer = none; offline_generation = 0 }

abbrev timer_cleared : Text → Watchdog → Active → Option ℕ → Watchdog × List Effect
timer_cleared device w a none = (w, [])
timer_cleared device w a (some handle) =
    (record w { active = insert device (without_timer a) w.active }, clear_timer handle ∷ [])

abbrev clear_found : Text → Watchdog → Option Active → Watchdog × List Effect
clear_found device w none = (w, [])
clear_found device w (some a) = timer_cleared device w a a.offline_timer

unfoldable pub clear_active_timer : Text → Watchdog → Watchdog × List Effect
clear_active_timer device w = clear_found device w (lookup device w.active)

module _ (o : Options) where
  unfoldable pub cleanup : ℕ → Watchdog → Watchdog
  cleanup now w = record w {
    batches =
        keep_values (λ b. not (ltb o.max_ticket_lifetime_ms (now - b.created_at_ms))) w.batches;
    fired = keep_values (λ r. not (leb r.expires_at_ms now)) w.fired;
  }

  -- The tests of `stage` on the ticket's expiry.
  abbrev pub in_window : ℕ → Option ℕ → Bool
  in_window now none = false
  in_window now (some expires) =
      not (leb expires (now + o.offline_delay_ms) || ltb (now + o.max_ticket_lifetime_ms) expires)

  -- The end of `stage`, with the batch in the map.
  unfoldable pub add_ticket : Text → Batch → Payload → Watchdog → Watchdog × Result ℕ
  add_ticket key batch payload w =
      let ticket = payload.ticket in
      let tickets = insert ticket.device_id ticket batch.tickets in
      if not (text_eq batch.session_id payload.session_id)
      then (w, fail (codes "watchdog batch session mismatch"))
      else if is_none (lookup ticket.device_id batch.tickets)
          && leb o.max_tickets (length batch.tickets)
      then (w, fail (codes "too many watchdog tickets"))
      else (
        record w { batches = insert key (record batch { tickets = tickets }) w.batches },
        ok (length tickets),
      )

  abbrev pub new_batch : ℕ → Text → Payload → Batch
  new_batch now device payload = record {
    device_key = device;
    session_id = payload.session_id;
    created_at_ms = now;
    tickets = [];
  }

  -- The middle of `stage`: the batch that is there, or a new one.
  unfoldable pub stage_batch : ℕ → Text → Payload → Watchdog → Watchdog × Result ℕ
  stage_batch now device payload w =
      let key = batch_key device payload.batch_id in
      let fresh = new_batch now device payload in
      elim (lookup key w.batches) [
        | some batch ↦ add_ticket key batch payload w
        | none ↦
            if leb o.max_batches_per_device (count_values (of_device device) w.batches)
            then (w, fail (codes "too many pending watchdog batches"))
            else add_ticket key fresh payload (record w { batches = insert key fresh w.batches })
      ]

  unfoldable pub stage : ℕ → Text → Payload → Watchdog → Watchdog × Result ℕ
  stage now device payload w =
      let w' = cleanup now w in
      if not (in_window now (o.parse_date payload.ticket.expires_at))
      then (w', fail (codes "watchdog ticket expiry is outside the allowed window"))
      else if not (o.endpoint_allowed payload.ticket.endpoint)
      then (w', fail (codes "watchdog push endpoint is not allowlisted"))
      else stage_batch now device payload w'

  -- `!batch || batch.sessionId !== sessionId || batch.tickets.size < 1`, denied
  abbrev pub committable : Text → Option Batch → Option Batch
  committable session none = none
  committable session (some b) =
      if text_eq b.session_id session && leb 1 (length b.tickets) then some b else none

  abbrev pub armed : Batch → Active
  armed b = record {
    session_id = b.session_id;
    tickets = values b.tickets;
    offline_timer = none;
    offline_generation = 0;
  }

  unfoldable pub commit_batch : Text → Batch → Watchdog → Watchdog × List Effect × Result ℕ
  commit_batch device b w =
      let (cleared, effects) = clear_active_timer device w in
      let rest = delete_device_batches device cleared in
      (
        record rest {
          fired = remove device rest.fired;
          active = insert device (armed b) rest.active;
        },
        effects,
        ok (length b.tickets),
      )

  unfoldable pub commit : ℕ → Text → Text → Text → Watchdog → Watchdog × List Effect × Result ℕ
  commit now device session batch_id w =
      let w' = cleanup now w in
      elim (committable session (lookup (batch_key device batch_id) w'.batches)) [
        | none ↦ (w', [], fail (codes "watchdog batch is missing or empty"))
        | some b ↦ commit_batch device b w'
      ]

  -- `!current || !sessionId || current.sessionId === sessionId`
  abbrev pub may_disarm : Text → Option Active → Bool
  may_disarm session none = true
  may_disarm session (some a) = length session == 0 || text_eq a.session_id session

  unfoldable pub disarm_active : Text → Watchdog → Watchdog × List Effect
  disarm_active device w =
      let (cleared, effects) = clear_active_timer device w in
      (
        delete_device_batches device (record cleared { active = remove device cleared.active }),
        effects,
      )

  -- `receipt && receipt.sessionId === sessionId && receipt.status === 'sent'`
  abbrev pub delivered : Text → Option Receipt → Bool
  delivered session none = false
  delivered session (some r) = text_eq r.session_id session && r.sent

  -- The first half of `disarm`: a session that does not match disarms nothing.
  unfoldable pub disarm_current : Text → Text → Watchdog → Watchdog × List Effect
  disarm_current device session w =
      if may_disarm session (lookup device w.active) then disarm_active device w else (w, [])

  -- The second half: a receipt is handed over once.
  unfoldable pub collect_receipt : Text → Text → Watchdog → Watchdog × Bool
  collect_receipt device session w =
      if delivered session (lookup device w.fired)
      then (record w { fired = remove device w.fired }, true)
      else (w, false)

  unfoldable pub disarm : ℕ → Text → Text → Watchdog → Watchdog × List Effect × Bool
  disarm now device session w =
      let (rest, effects) = disarm_current device session (cleanup now w) in
      let (done, did_fire) = collect_receipt device session rest in (done, effects, did_fire)

  unfoldable pub agent_online : Text → Watchdog → Watchdog × List Effect
  agent_online device w = clear_active_timer device w

  -- `!current || current.offlineTimer || !current.tickets.length`, denied
  abbrev pub can_go_offline : Option Active → Option Active
  can_go_offline none = none
  can_go_offline (some a) =
      if is_none a.offline_timer && leb 1 (length a.tickets) then some a else none

  unfoldable pub agent_offline : ℕ → ℕ → Text → Watchdog → Watchdog × List Effect × Bool
  agent_offline now handle device w =
      let w' = cleanup now w in
      let next = w'.generation + 1 in
      elim (can_go_offline (lookup device w'.active)) [
        | none ↦ (w', [], false)
        | some a ↦ (
          record w' {
            generation = next;
            active =
                insert device (record a { offline_timer = some handle; offline_generation = next })
                  w'.active;
          },
          set_timer device a.session_id next o.offline_delay_ms ∷ [],
          true,
        )
      ]

  -- `!current || current.sessionId !== sessionId || current.offlineGeneration !== expected`, denied
  abbrev pub still_expected : Text → ℕ → Option Active → Option Active
  still_expected session expected none = none
  still_expected session expected (some a) =
      if text_eq a.session_id session && a.offline_generation == expected then some a else none

  -- `Date.parse(ticket.expiresAt) > currentTime`
  abbrev pub unexpired : ℕ → Option ℕ → Bool
  unexpired now none = false
  unexpired now (some expires) = ltb now expires

  abbrev pub live_tickets : ℕ → List Ticket → List Ticket
  live_tickets now [] = []
  live_tickets now (t ∷ ts) =
      if unexpired now (o.parse_date t.expires_at)
      then t ∷ live_tickets now ts
      else live_tickets now ts

  abbrev pub new_receipt : ℕ → Text → Watchdog → Receipt
  new_receipt now session w = record {
    session_id = session;
    sent = false;
    expires_at_ms = now + o.fired_receipt_ttl_ms;
    identity = w.receipts;
  }

  -- `active.delete(…); deleteDeviceBatches(…); fired.set(…)`
  unfoldable pub begin_fire : Text → Receipt → Watchdog → Watchdog
  begin_fire device receipt w =
      let rest = delete_device_batches device (record w { active = remove device w.active }) in
      record rest { fired = insert device receipt rest.fired; receipts = rest.receipts + 1 }

  -- `fire` up to its `await`: the tickets that it sends, and the receipt that it holds.
  unfoldable pub fire_begin :
      ℕ → Text → Text → ℕ → Watchdog → Watchdog × Option (List Ticket × Receipt)
  fire_begin now device session expected w =
      let receipt = new_receipt now session w in
      elim (still_expected session expected (lookup device w.active)) [
        | none ↦ (w, none)
        | some a ↦ (begin_fire device receipt w, some (live_tickets now a.tickets, receipt))
      ]

  abbrev pub holds : Receipt → Option Receipt → Bool
  holds receipt none = false
  holds receipt (some r) = r.identity == receipt.identity

  -- `fire` after its `await`, when `sent` tickets were delivered. `reported` says whether
  -- onFired(…) returned `true`; it is `false` where onFired threw.
  unfoldable pub fire_finish : ℕ → Text → Receipt → ℕ → Bool → Watchdog → Watchdog
  fire_finish now device receipt sent reported w =
      let done = record receipt { sent = true; expires_at_ms = now + o.fired_receipt_ttl_ms } in
      if holds receipt (lookup device w.fired)
      then (if ltb 0 sent
          then (if reported
              then record w { fired = remove device (insert device done w.fired) }
              else record w { fired = insert device done w.fired })
          else record w { fired = remove device w.fired })
      else w

-- getState(deviceKey)
pub data DeviceState : Type 0 where
  disarmed : DeviceState
  armed_with : Text → ℕ → Bool → DeviceState

abbrev pub state_of : Option Active → DeviceState
state_of none = disarmed
state_of (some a) = armed_with a.session_id (length a.tickets) (is_some a.offline_timer)

abbrev pub get_state : Text → Watchdog → DeviceState
get_state device w = state_of (lookup device w.active)

abbrev pub running_timers : Dict Active → List Effect
running_timers [] = []
running_timers ((device, a) ∷ m) = elim a.offline_timer [
  | none ↦ running_timers m
  | some handle ↦ clear_timer handle ∷ running_timers m
]

unfoldable pub dispose : Watchdog → Watchdog × List Effect
dispose w = (record w { active = []; batches = []; fired = [] }, running_timers w.active)
