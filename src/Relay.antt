-- ===== src/Relay.antt =====
-- apps/relay/index.js: the relay between agents and browsers. A socket is known by a name, and
-- `client` is what the map `clients` holds for it. What a call needs of its surroundings stands in
-- `Env`: the clock, which sockets are open, the handle that setTimer returns, and what is random. An
-- operation returns the new state and its effects, in order. Audit events, logs and the times of the
-- administrator's lists are not modelled.
pub mod Access
pub mod Codes
pub mod Devices
pub mod Transmit
pub mod Browsers
pub mod Revoke
pub mod Agents
pub mod Tickets
pub mod Messages
pub mod Connection
pub mod Valid
mod Tests
use voxhf.Protocol.Version.{Order}
use voxhf.Url.{Url}
use voxhf.Protocol.Message.{envelope}
use voxhf.Protocol.Types.{Source, MessageType}
use voxhf.Json.{bool, str, Value, Bindings}
use voxhf.Dict.{insert, Dict}
use voxhf.Prelude.{
  true, ◌==◌, Option, length, if◌then◌else◌, codes, ◌++◌, ℕ, Text, List, Bool, ◌∷◌, [], none, some,
}
use voxhf.Watchdog.{Options, Watchdog, Effect as TimerEffect}

pub record Rate : Type 0 where
  pub window_start_ms : ℕ
  pub messages : ℕ
  pub commands : ℕ
  pub pairings : ℕ

pub record Client : Type 0 where
  pub source : Source
  pub user_id : Text
  -- authKind === 'session'
  pub by_session : Bool
  pub browser_id : Text
  pub device_id : Text
  pub device_key : Text
  pub device_name : Text
  pub selected_device_id : Text
  pub active_tx_device_id : Text
  pub active_tx_com : Value
  pub active_tx_started_at : ℕ
  pub rate : Rate

pub record Device : Type 0 where
  pub key : Text
  pub user_id : Text
  pub device_id : Text
  pub device_name : Text
  pub agent_version : Text
  pub online : Bool
  pub socket : Text
  -- the latest message of each type
  pub last_messages : Dict Bindings

pub record Pairing : Type 0 where
  pub user_id : Text
  pub device_id : Text
  pub expires_at_ms : ℕ

pub record Relay : Type 0 where
  pub clients : Dict Client
  pub devices : Dict Device
  pub pairing_codes : Dict Pairing
  -- the device ids that a hashed browser key may use
  pub authorizations : Dict (List Text)
  pub watchdog : Watchdog

pub record Config : Type 0 where
  pub require_pairing : Bool
  pub pairing_code_ttl_ms : ℕ
  pub rate_window_ms : ℕ
  pub max_messages : ℕ
  pub max_commands : ℕ
  pub max_pairing_attempts : ℕ
  pub max_audio_frame_bytes : ℕ
  pub max_remote_tx_ms : ℕ
  pub watchdog_options : Options
  -- sha256 in hexadecimal, toUpperCase, and an instant as an ISO text
  pub sha256 : Text → Text
  pub to_upper : Text → Text
  pub iso : ℕ → Text
  -- `new URL` and JSON.parse
  pub parse_url : Text → Option Url
  pub parse_json : Text → Option Value
  -- trim, and localeCompare(…, { numeric: true })
  pub trim : Text → Text
  pub locale_compare : Text → Text → Order
  -- MINIMUM_AGENT_VERSION, APP_VERSION, RECOMMENDED_AGENT_VERSION and UPDATE_DOWNLOAD_URL
  pub minimum_agent_version : Text
  pub app_version : Text
  pub recommended_agent_version : Text
  pub update_download_url : Text

pub record Env : Type 0 where
  pub now : ℕ
  pub is_open : Text → Bool
  pub timer_handle : ℕ
  -- Date.now().toString(36), and a random id
  pub now_base36 : Text
  pub fresh_id : Text
  pub fresh_device_id : Text
  -- the candidates of generatePairingCode, and the code that it falls back on
  pub fresh_codes : List Text
  pub last_code : Text

pub data Effect : Type 0 where
  sent : Text → Bindings → Effect
  sent_audio : Text → List ℕ → Effect
  closed : Text → Text → Effect
  closing_later : Text → Text → Effect
  stored_pairing : Text → Text → Text → Effect
  dropped_pairing : Text → Text → Text → Effect
  on_timer : TimerEffect → Effect

abbrev pub Outcome : Type 0
Outcome = Relay × List Effect

infixl 5 ◌and_then◌
abbrev pub ◌and_then◌ : Outcome → (Relay → Outcome) → Outcome
(r, effects) and_then next = let (r', more) = next r in (r', effects ++ more)

abbrev pub only_effects : (Relay → List Effect) → Relay → Outcome
only_effects f r = (r, f r)

abbrev pub no_outcome : Relay → Outcome
no_outcome r = (r, [])

-- `!s`
abbrev pub is_empty : Text → Bool
is_empty s = length s == 0

abbrev pub set_client : Text → Client → Relay → Relay
set_client ws client r = record r { clients = insert ws client r.clients }

-- scopedDeviceKey(userId, deviceId), and the text that browserAuthorizationKey hashes
abbrev pub scoped : Text → Text → Text
scoped user_id id = user_id ++ (b':' ∷ id)

module _ (env : Env) where
  -- send(ws, message) and sendBinary(ws, frame)
  abbrev pub send : Text → Bindings → List Effect
  send ws message = if env.is_open ws then sent ws message ∷ [] else []

  abbrev pub send_binary : Text → List ℕ → List Effect
  send_binary ws frame = if env.is_open ws then sent_audio ws frame ∷ [] else []

  -- createRemoteMessage(type, payload, id)
  abbrev pub create_message : MessageType → Bindings → Text → Bindings
  create_message type payload id =
      envelope (str (if is_empty id then env.fresh_id else id)) type payload

  -- createRemoteMessage(RELAY_ERROR, { code, message }, id)
  abbrev pub relay_error : Text → Text → Text → Bindings
  relay_error code message id =
      create_message MessageType.relay_error
        ((codes "code", str code) ∷ (codes "message", str message) ∷ []) id

  -- `send(ws, createRemoteMessage(RELAY_ERROR, …))`, and nothing else
  abbrev pub refuse : Text → Text → Text → Text → Relay → Outcome
  refuse ws code message id r = (r, send ws (relay_error code message id))

-- publicDevice(device)
abbrev pub public_device : Device → Bindings
public_device d =
    (codes "deviceId", str d.device_id)
    ∷ (codes "deviceName", str d.device_name)
    ∷ (codes "online", bool d.online)
    ∷ (if is_empty d.agent_version then [] else (codes "agentVersion", str d.agent_version) ∷ [])
