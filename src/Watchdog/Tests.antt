-- ===== src/Watchdog/Tests.antt =====
-- Runs of the watchdog, and its theorems at concrete inputs.
use voxhf.Watchdog.Isolation.{others_unchanged, disarm_other_session}
use voxhf.Watchdog.Fire.{
  StillValid, fire_begin_once, commit_replaces, fire_begin-agent_online, disarm_reports_once,
}
use voxhf.Protocol.Checks.{id_char, is_token_like, repeats, no_line_break}
use voxhf.Watchdog.Valid.{pending_batches, IsValid}
use voxhf.Watchdog.Trace.{step, offline, committed, staged, run-IsValid, Event, run}
use voxhf.Url.{Url}
use voxhf.Dict.{count_values, keep_values, values, remove, insert, lookup}
use voxhf.Prelude.{
  refl, ◌≡◌, ◌≤◌, ℕ, if◌then◌else◌, arith, ◌≢◌, true, some, none, byte_length, Option, Bool,
  text_eq, false, codes, Text, List, ◌∷◌, [],
}
use voxhf.Watchdog.{
  fire_finish, begin_fire, collect_receipt, disarm_current, disarm_active, commit_batch, stage,
  stage_batch, add_ticket, clear_active_timer, delete_device_batches, disarmed, agent_offline,
  initial, cleanup, agent_online, get_state, fire_begin, disarm, commit, batch_key, Options, Ticket,
  Payload, Watchdog, Active, Batch, Receipt,
}
use voxhf.Watchdog.Endpoint.{
  is_allowed_push_endpoint, allowed_url, sealed_request_guarded, safe_authorization,
  max_ticket_body_bytes, known_push_host, ends_with, batch_key-injective, GoesTo, Platform,
  sealed_request,
}

-- Dates are the texts of one character, an instant each.
abbrev read_date : Text → Option ℕ
read_date [] = none
read_date (c ∷ s) = some c

abbrev everywhere : Text → Bool
everywhere s = true

abbrev options : Options
options = record {
  offline_delay_ms = 30;
  max_ticket_lifetime_ms = 1200;
  fired_receipt_ttl_ms = 1800;
  max_tickets = 2;
  max_batches_per_device = 1;
  parse_date = read_date;
  endpoint_allowed = everywhere;
}

abbrev phone : Ticket
phone = record {
  device_id = codes "phone";
  endpoint = codes "https://fcm.googleapis.com/x";
  expires_at = 600 ∷ [];
  authorization = codes "vapid t=0123456789";
  content_encoding = codes "aes128gcm";
  body = codes "AAAA";
}

abbrev staged_payload : Payload
staged_payload = record { session_id = codes "s"; batch_id = codes "b"; ticket = phone }

abbrev ready : Active
ready = record {
  session_id = codes "s";
  tickets = phone ∷ [];
  offline_timer = none;
  offline_generation = 0;
}

abbrev waiting : Active
waiting = record {
  session_id = codes "s";
  tickets = phone ∷ [];
  offline_timer = some 9;
  offline_generation = 1;
}

abbrev batch : Batch
batch = record {
  device_key = codes "d";
  session_id = codes "s";
  created_at_ms = 100;
  tickets = (codes "phone", phone) ∷ [];
}

abbrev staged_state : Watchdog
staged_state = record {
  active = [];
  batches = (batch_key (codes "d") (codes "b"), batch) ∷ [];
  fired = [];
  generation = 0;
  receipts = 0;
}

abbrev waiting_state : Watchdog
waiting_state = record {
  active = (codes "d", waiting) ∷ [];
  batches = [];
  fired = [];
  generation = 1;
  receipts = 0;
}

abbrev sent_receipt : Receipt
sent_receipt = record { session_id = codes "s"; sent = true; expires_at_ms = 2000; identity = 0 }

abbrev reporting_state : Watchdog
reporting_state = record {
  active = [];
  batches = [];
  fired = (codes "d", sent_receipt) ∷ [];
  generation = 1;
  receipts = 1;
}

program : Unit {0}
unfolding text_eq lookup insert remove keep_values count_values delete_device_batches
    clear_active_timer cleanup add_ticket stage_batch stage commit_batch commit disarm_active
    disarm_current collect_receipt disarm agent_online agent_offline begin_fire fire_begin
    fire_finish step run
program = tt

abbrev story : List Event
story =
    staged 100 (codes "d") staged_payload
    ∷ committed 110 (codes "d") (codes "s") (codes "b")
    ∷ offline 120 9 (codes "d")
    ∷ []

story_runs : run options story initial ≡ waiting_state
unfolding program
story_runs = refl

run-IsValid_example : IsValid options (run options story initial)
run-IsValid_example = run-IsValid options story

fire_begin-agent_online_example :
    fire_begin options 150
      (codes "d")
      (codes "s")
      1
      (agent_online options (codes "d") waiting_state).0
    ≡ ((agent_online options (codes "d") waiting_state).0, none)
unfolding program
fire_begin-agent_online_example =
    fire_begin-agent_online options 150 (codes "d") (codes "s") 1 waiting_state waiting 9 refl refl
      (omega arith)

abbrev firing_receipt : Receipt
firing_receipt = record { session_id = codes "s"; sent = false; expires_at_ms = 1950; identity = 0 }

abbrev firing_state : Watchdog
firing_state = record {
  active = [];
  batches = [];
  fired = (codes "d", firing_receipt) ∷ [];
  generation = 1;
  receipts = 1;
}

fire_begin_once_example :
    ((a : Active) × (lookup (codes "d") waiting_state.active ≡ some a)
      × (a.session_id ≡ codes "s")
      × (a.offline_generation ≡ 1)
      × StillValid options 150 a.tickets (phone ∷ []))
    × (get_state (codes "d") firing_state ≡ disarmed)
    × (pending_batches options (codes "d") firing_state ≡ 0)
    × ((now' : ℕ) (session' : Text) (expected' : ℕ)
        → fire_begin options now' (codes "d") session' expected' firing_state
          ≡ (firing_state, none))
unfolding program
fire_begin_once_example =
    fire_begin_once options 150 (codes "d") (codes "s") 1 waiting_state firing_state (phone ∷ [])
      firing_receipt refl

commit_replaces_example :
    let w' = (commit options 110 (codes "d") (codes "s") (codes "b") staged_state).0 in
    ((b : Batch) × (lookup
          (batch_key (codes "d") (codes "b"))
          (cleanup options 110 staged_state).batches
        ≡ some b)
      × (lookup (codes "d") w'.active
          ≡ some (record {
            session_id = b.session_id;
            tickets = values b.tickets;
            offline_timer = none;
            offline_generation = 0;
          })))
    × (pending_batches options (codes "d") w' ≡ 0)
    × (fire_begin options 150 (codes "d") (codes "s") 1 w' ≡ (w', none))
unfolding program
commit_replaces_example =
    commit_replaces options 110 (codes "d") (codes "s") (codes "b") staged_state 150 (codes "s") 1
      (omega arith) refl

disarm_reports_once_example :
    (disarm options 210
      (codes "d")
      (codes "s")
      (disarm options 200 (codes "d") (codes "s") reporting_state).0).2
    ≡ false
unfolding program
disarm_reports_once_example =
    disarm_reports_once options 200 (codes "d") (codes "s") reporting_state 210 (codes "s") refl

nonempty_session : codes "t" ≢ []
nonempty_session = λ e. ground (arith, e)

other_session : codes "s" ≢ codes "t"
other_session = λ e. ground (arith, e)

disarm_other_session_example :
    (lookup (codes "d") (disarm options 200 (codes "d") (codes "t") waiting_state).0.active
      ≡ some waiting)
    × ((disarm options 200 (codes "d") (codes "t") waiting_state).1 ≡ [])
unfolding program
disarm_other_session_example =
    disarm_other_session options 200 (codes "d") (codes "t") waiting_state waiting refl
      nonempty_session other_session

others_unchanged_example :
    let w = waiting_state in
    (lookup (codes "d") (commit options 200 (codes "e") (codes "s") (codes "b") w).0.active
      ≡ lookup (codes "d") w.active)
    × (lookup (codes "d") (disarm options 200 (codes "e") (codes "s") w).0.active
        ≡ lookup (codes "d") w.active)
    × (lookup (codes "d") (agent_offline options 200 4 (codes "e") w).0.active
        ≡ lookup (codes "d") w.active)
    × (lookup (codes "d") (agent_online options (codes "e") w).0.active
        ≡ lookup (codes "d") w.active)
    × (lookup (codes "d") (fire_begin options 200 (codes "e") (codes "s") 1 w).0.active
        ≡ lookup (codes "d") w.active)
unfolding program
others_unchanged_example =
    others_unchanged options (codes "e") (codes "d") refl waiting_state 200 4 1 (codes "s")
      (codes "b")

-- A platform that reads one URL.
abbrev push_url : Url
push_url = record {
  protocol = codes "https:";
  username = [];
  password = [];
  hostname = codes "fcm.googleapis.com";
  port = [];
  origin = codes "https://fcm.googleapis.com";
}

abbrev read_url : Text → Option Url
read_url s = if text_eq s phone.endpoint then some push_url else none

abbrev platform : Platform
platform = record {
  parse_url = read_url;
  is_ip = λ s. false;
  to_lower = λ s. s;
  trim = λ s. s;
  from_base64url = λ s. 0 ∷ 0 ∷ 0 ∷ [];
}

endpoint_program : Unit {0}
unfolding text_eq byte_length ends_with known_push_host safe_authorization allowed_url
    is_allowed_push_endpoint sealed_request repeats is_token_like id_char
endpoint_program = tt

sealed_request_guarded_example :
    ((url : Url) × GoesTo platform []
        (record {
          endpoint = phone.endpoint;
          authorization = phone.authorization;
          content_encoding = phone.content_encoding;
          body = 0 ∷ 0 ∷ 0 ∷ [];
        })
        url)
    × (no_line_break phone.authorization ≡ true)
    × (1 ≤ 3)
    × (3 ≤ max_ticket_body_bytes)
unfolding endpoint_program
sealed_request_guarded_example = sealed_request_guarded platform [] phone refl

batch_key-injective_example : (codes "d\ne" ≡ codes "d\ne") × (codes "batch-01" ≡ codes "batch-01")
unfolding endpoint_program
batch_key-injective_example =
    batch_key-injective (codes "d\ne") (codes "d\ne") (codes "batch-01") (codes "batch-01") refl
      refl refl
