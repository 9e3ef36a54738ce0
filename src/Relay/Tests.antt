-- ===== src/Relay/Tests.antt =====
-- Runs of the relay's model on small inputs.
use voxhf.Relay.Codes.Fresh.{refresh_pairing_code_one, Issued}
use voxhf.Relay.Valid.{Announced}
use voxhf.Relay.Valid.Run.{
  reachable-Announced, texts, connects, at_start, after, empty_relay, Reachable,
}
use voxhf.Relay.Agents.{register_device, register_agent}
use voxhf.Relay.Connection.{new_client, connection, Decision}
use voxhf.Relay.Devices.{should_rate_limit_browser_command}
use voxhf.Protocol.Shape.{
  read_optional, read_required, in_keys, unexpected, require_shape, no_extra_payload,
}
use voxhf.Protocol.Payload.{validate_payload}
use voxhf.Protocol.Checks.{is_token_like, is_short_text, id_char, repeats, is_id}
use voxhf.Protocol.Message.{validate_remote_message, parse_remote_json}
use voxhf.Watchdog.{initial}
use voxhf.Protocol.Version.{Order}
use voxhf.Relay.Revoke.Laws.{revoke_pairing_unscoped, revoke_pairing_denies}
use voxhf.Relay.Messages.Safe.{on_text-Reach}
use voxhf.Relay.Codes.{
  refresh_pairing_code, of_device, pair, purge_expired_pairing_codes, normalize_pairing_code,
  confirm_pairing,
}
use voxhf.Protocol.Snapshot.{object}
use voxhf.Relay.Transmit.Guard.{handle_browser_tx_audio_guarded, OnAirOnly}
use voxhf.Relay.Revoke.{revoke_pairing}
use voxhf.Relay.Messages.Reach.{Reach}
use voxhf.Relay.Browsers.Guard.{route_browser_command_guarded, Usable, Forwarded, Answer}
use voxhf.Relay.Transmit.{handle_browser_tx_audio}
use voxhf.Relay.Messages.Rates.{passed-le, passed}
use voxhf.Relay.Messages.{
  create_rate_state, handle_message, incoming, next_rate, allow_rate, in_pairings, on_text,
  in_messages, Bucket,
}
use voxhf.Relay.Codes.Once.{confirm_pairing_cases, confirm_pairing_once, Paired, Refused}
use voxhf.Relay.Browsers.{forward_command, route_browser_command, whole, Incoming}
use voxhf.Relay.Access.{
  default_user_id, add_id, authorize_browser, authorized, is_browser, has_id,
  can_client_access_device,
}
use voxhf.Relay.{sent_audio, sent, scoped, Pairing, Env, Relay, Rate, Device, Config, Client}
use voxhf.Protocol.Types.{allows, known_type, MessageType, Source}
use voxhf.Json.{has, put, get, str, fin, num, Bindings}
use voxhf.Dict.{count_values, insert, keep_values, lookup, Dict}
use voxhf.Prelude.{
  byte_length, text_eq, ◌-◌, arith, is_lower, ◌⊎◌, ◌≤◌, if◌then◌else◌, List, map, codes, ℕ, Text,
  All, ◌∷◌, [], none, some, true, false, ◌≡◌, refl,
}

abbrev upper : Text → Text
upper s = map (λ c. if is_lower c then c - 32 else c) s

-- The object that any text is read as.
abbrev radio_set_fields : Bindings
radio_set_fields =
    (codes "v", num (fin false 1 0))
    ∷ (codes "id", str (codes "m1"))
    ∷ (codes "type", str (codes "xpdr.ident"))
    ∷ []

abbrev config : Config
config = record {
  require_pairing = true;
  pairing_code_ttl_ms = 600000;
  rate_window_ms = 10000;
  max_messages = 240;
  max_commands = 80;
  max_pairing_attempts = 10;
  max_audio_frame_bytes = 32768;
  max_remote_tx_ms = 120000;
  watchdog_options = record {
    offline_delay_ms = 30000;
    max_ticket_lifetime_ms = 86400000;
    fired_receipt_ttl_ms = 3600000;
    max_tickets = 20;
    max_batches_per_device = 4;
    parse_date = λ s. none;
    endpoint_allowed = λ s. false;
  };
  sha256 = λ s. s;
  to_upper = upper;
  iso = λ n. codes "later";
  parse_url = λ s. none;
  parse_json = λ s. some (object radio_set_fields);
  trim = λ s. s;
  locale_compare = λ a b. Order.equal;
  minimum_agent_version = [];
  app_version = codes "1.0";
  recommended_agent_version = codes "1.0";
  update_download_url = codes "https://x";
}

abbrev env_at : ℕ → Env
env_at t = record {
  now = t;
  is_open = λ ws. true;
  timer_handle = 7;
  now_base36 = codes "t0";
  fresh_id = codes "fresh";
  fresh_device_id = codes "dev-fresh";
  fresh_codes = codes "A1B-2C3" ∷ [];
  last_code = codes "ZZZ-ZZZ";
}

abbrev no_rate : Rate
no_rate = record { window_start_ms = 0; messages = 0; commands = 0; pairings = 0 }

abbrev client_of : Source → Text → Text → Client
client_of source browser_id selected = record {
  source = source;
  user_id = codes "anna";
  by_session = false;
  browser_id = browser_id;
  device_id = [];
  device_key = [];
  device_name = [];
  selected_device_id = selected;
  active_tx_device_id = [];
  active_tx_com = num (fin false 0 0);
  active_tx_started_at = 0;
  rate = no_rate;
}

abbrev cockpit : Text
cockpit = codes "cockpit1"

abbrev phone : Client
phone = client_of Source.browser (codes "phone-01") cockpit

abbrev talking : Client
talking = record phone { active_tx_device_id = cockpit; active_tx_started_at = 100 }

abbrev device : Device
device = record {
  key = scoped (codes "anna") cockpit;
  user_id = codes "anna";
  device_id = cockpit;
  device_name = codes "PC";
  agent_version = [];
  online = true;
  socket = codes "agent";
  last_messages = [];
}

abbrev relay_with : Dict Pairing → Dict (List Text) → Relay
relay_with pairings authorizations = record {
  clients = (codes "phone", phone) ∷ [];
  devices = (device.key, device) ∷ [];
  pairing_codes = pairings;
  authorizations = authorizations;
  watchdog = initial;
}

abbrev paired : Relay
paired = relay_with [] ((codes "anna:phone-01", cockpit ∷ []) ∷ [])

abbrev offered : Relay
offered =
    relay_with
      ((
        codes "A1B-2C3",
        record { user_id = codes "anna"; device_id = cockpit; expires_at_ms = 900 },
      )
        ∷ [])
      []

abbrev ident : Incoming
ident = record { id = codes "m1"; type = MessageType.xpdr_ident; payload = [] }

-- A command of a paired browser reaches its agent.
command_arrives :
    (on_text (env_at 5) config (codes "phone") phone (codes "{}") paired).1
    ≡ sent (codes "agent") (whole ident) ∷ []
unfolding on_text allow_rate next_rate parse_remote_json byte_length validate_remote_message get
    text_eq is_id known_type allows validate_payload no_extra_payload incoming
    should_rate_limit_browser_command handle_message route_browser_command lookup
    can_client_access_device authorized forward_command create_rate_state repeats id_char
command_arrives = refl

audio_arrives :
    (handle_browser_tx_audio (env_at 200) config (codes "phone") talking (codes "CTX1ab") paired).1
    ≡ sent_audio (codes "agent") (codes "ab") ∷ []
unfolding handle_browser_tx_audio text_eq lookup can_client_access_device authorized
audio_arrives = refl

-- A code in lower case pairs, once.
pairs :
    has_id cockpit (
      lookup
        (codes "anna:phone-01")
        (confirm_pairing
          (env_at 5)
          config
          (codes "phone")
          phone
          (codes "a1b2c3")
          offered).0.authorizations)
    ≡ true
unfolding confirm_pairing text_eq lookup can_client_access_device authorized
    purge_expired_pairing_codes keep_values normalize_pairing_code pair authorize_browser add_id
    insert
pairs = refl

route_browser_command_guarded_example :
    All
      (λ e. Answer (codes "phone") e ⊎ Forwarded (env_at 5) config paired phone ident e)
      (route_browser_command (env_at 5) config (codes "phone") phone ident paired).1
    × ((d : Device)
        → is_browser phone ≡ true
        → Usable (env_at 5) config paired phone d
        → (route_browser_command (env_at 5) config (codes "phone") phone ident paired).1
          ≡ sent d.socket (whole ident) ∷ [])
route_browser_command_guarded_example =
    route_browser_command_guarded (env_at 5) config paired phone (codes "phone") ident

handle_browser_tx_audio_guarded_example :
    All
      (OnAirOnly (env_at 200) config paired talking (codes "CTX1ab"))
      (handle_browser_tx_audio
        (env_at 200)
        config
        (codes "phone")
        talking
        (codes "CTX1ab")
        paired).1
handle_browser_tx_audio_guarded_example =
    handle_browser_tx_audio_guarded (env_at 200) config paired talking (codes "CTX1ab")
      (codes "phone")

on_text-Reach_example :
    All
      (Reach (env_at 5) config (codes "phone") paired phone)
      (on_text (env_at 5) config (codes "phone") phone (codes "{}") paired).1
on_text-Reach_example =
    on_text-Reach (env_at 5) config (codes "phone") paired phone (codes "{}") refl

confirm_pairing_cases_example :
    Refused config
      (codes "phone")
      offered
      (confirm_pairing (env_at 5) config (codes "phone") phone (codes "a1b2c3") offered)
    ⊎ Paired config
        (env_at 5)
        (codes "phone")
        phone
        (codes "a1b2c3")
        offered
        (confirm_pairing (env_at 5) config (codes "phone") phone (codes "a1b2c3") offered)
confirm_pairing_cases_example =
    confirm_pairing_cases config (env_at 5) (codes "phone") phone (codes "a1b2c3") offered

abbrev tablet : Client
tablet = client_of Source.browser (codes "tablet-1") []

confirm_pairing_once_example :
    Refused config
      (codes "phone")
      offered
      (confirm_pairing (env_at 5) config (codes "phone") phone (codes "a1b2c3") offered)
    ⊎ Refused config
        (codes "tablet")
        (confirm_pairing (env_at 5) config (codes "phone") phone (codes "a1b2c3") offered).0
        (confirm_pairing
          (env_at 6)
          config
          (codes "tablet")
          tablet
          (codes "A1B-2C3")
          (confirm_pairing (env_at 5) config (codes "phone") phone (codes "a1b2c3") offered).0)
unfolding normalize_pairing_code
confirm_pairing_once_example =
    confirm_pairing_once config (env_at 5) (env_at 6) (codes "phone") (codes "tablet") phone tablet
      (codes "a1b2c3") (codes "A1B-2C3") offered refl

revoke_pairing_denies_example :
    can_client_access_device config
      (revoke_pairing (env_at 5) config (codes "phone") phone cockpit paired).0
      phone
      cockpit
    ≡ false
unfolding can_client_access_device authorized lookup text_eq
revoke_pairing_denies_example =
    revoke_pairing_denies (env_at 5) config (codes "phone") phone phone cockpit paired refl refl
      refl refl refl refl refl refl refl

abbrev two_attempts : Config
two_attempts = record config { max_pairing_attempts = 2 }

-- Pairing attempts with another message between them, about the end of a window that began at 0.
abbrev attempts : List (Env × Bucket)
attempts =
    (env_at 9000, in_pairings)
    ∷ (env_at 9001, in_pairings)
    ∷ (env_at 11000, in_messages)
    ∷ (env_at 11001, in_pairings)
    ∷ []

passed-le_example : passed two_attempts (codes "phone") in_pairings attempts paired ≤ 4
unfolding lookup text_eq
passed-le_example =
    passed-le two_attempts (codes "phone") in_pairings 9000 attempts phone paired refl (
      (ground arith, ground arith),
      (
        (ground arith, ground arith),
        ((ground arith, ground arith), ((ground arith, ground arith), tt)),
      ),
    )

-- An agent connects and announces itself.
abbrev hello_fields : Bindings
hello_fields =
    (codes "v", num (fin false 1 0))
    ∷ (codes "id", str (codes "h1"))
    ∷ (codes "type", str (codes "agent.hello"))
    ∷ (
      codes "payload",
      object ((codes "deviceName", str (codes "PC")) ∷ (codes "deviceId", str cockpit) ∷ []),
    )
    ∷ []

abbrev hello_config : Config
hello_config = record config { parse_json = λ s. some (object hello_fields) }

abbrev agent_decision : Decision
agent_decision = record {
  source = Source.agent;
  user_id = codes "anna";
  user_name = [];
  by_session = false;
  browser_id = [];
}

abbrev connected_relay : Relay
connected_relay = (connection hello_config (env_at 5) (codes "agent") agent_decision empty_relay).0

abbrev announced_relay : Relay
announced_relay =
    (on_text (env_at 6) hello_config (codes "agent") (new_client 5 agent_decision) (codes "{}")
      connected_relay).0

announced_relay-Reachable : Reachable hello_config announced_relay
unfolding connection insert lookup text_eq
announced_relay-Reachable =
    after connected_relay announced_relay
      (after empty_relay connected_relay at_start
        (connects (env_at 5) (codes "agent") agent_decision refl))
      (texts (env_at 6) (codes "agent") (codes "{}") (new_client 5 agent_decision) refl refl)

reachable-Announced_example : Announced announced_relay.clients (codes "anna:cockpit1") device
unfolding on_text allow_rate next_rate parse_remote_json byte_length validate_remote_message get
    text_eq is_id known_type allows validate_payload incoming should_rate_limit_browser_command
    handle_message lookup create_rate_state repeats id_char connection insert register_agent
    register_device require_shape is_short_text is_token_like put has unexpected in_keys
    read_required read_optional
reachable-Announced_example =
    reachable-Announced hello_config announced_relay-Reachable (codes "anna:cockpit1") device refl

-- A browser of the default user, paired before its key had the user in it.
abbrev old_phone : Client
old_phone = record phone { user_id = default_user_id }

abbrev old_relay : Relay
old_relay = record paired { authorizations = (codes "phone-01", cockpit ∷ []) ∷ [] }

revoke_pairing_unscoped_example :
    can_client_access_device config
      (revoke_pairing (env_at 5) config (codes "phone") old_phone cockpit old_relay).0
      old_phone
      cockpit
    ≡ true
unfolding lookup text_eq
revoke_pairing_unscoped_example =
    revoke_pairing_unscoped (env_at 5) config (codes "phone") old_phone cockpit old_relay refl refl
      refl refl refl refl

abbrev cockpit_agent : Client
cockpit_agent = record (client_of Source.agent [] []) { device_id = cockpit }

refresh_pairing_code_one_example :
    (count_values
        (of_device (codes "anna") cockpit)
        (refresh_pairing_code
          (env_at 5)
          config
          (codes "agent")
          cockpit_agent
          offered).0.pairing_codes
      ≤ 1)
    × Issued
        (env_at 5)
        config
        (codes "agent")
        cockpit_agent
        (refresh_pairing_code (env_at 5) config (codes "agent") cockpit_agent offered)
refresh_pairing_code_one_example =
    refresh_pairing_code_one (env_at 5) config (codes "agent") cockpit_agent offered refl refl refl
