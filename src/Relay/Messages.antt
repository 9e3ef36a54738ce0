-- ===== src/Relay/Messages.antt =====
-- One message of a socket: the `message` callback of a connection, allowRate, handleMessage,
-- handleBinaryMessage and what a new connection is sent, in apps/relay/index.js.
pub mod Rates
pub mod Forward
pub mod Reach
pub mod Safe
use voxhf.Relay.Tickets.{handle_agent_watchdog_message}
use voxhf.Relay.Transmit.{handle_browser_tx_audio}
use voxhf.Relay.Revoke.{revoke_pairing}
use voxhf.Relay.Access.{is_browser, is_agent}
use voxhf.Relay.Codes.{confirm_pairing, refresh_pairing_code}
use voxhf.Relay.Agents.{route_agent_audio, route_agent_update, text_field, register_agent}
use voxhf.Relay.Devices.{
  agent_to_browser_types, browser_to_agent_types, agent_watchdog_types,
  should_rate_limit_browser_command, same_type, has_type,
}
use voxhf.Protocol.Snapshot.{as_object}
use voxhf.Protocol.Message.{source_text, parse_remote_json, type_of}
use voxhf.Protocol.Shape.{fail, ok, Result}
use voxhf.Relay.Browsers.{select_device, send_device_list, route_browser_command, Incoming}
use voxhf.Protocol.Types.{agent, spelling, MessageType}
use voxhf.Relay.{
  is_empty, closed, set_client, create_message, send, refuse, Outcome, Relay, Client, Config, Rate,
  Env,
}
use voxhf.Json.{str, get, Value, Bindings}
use voxhf.Prelude.{
  true, not, ◌&&◌, ◌||◌, ◌==◌, ◌++◌, length, leb, ◌-◌, List, ltb, ◌+◌, if◌then◌else◌, codes, Option,
  ℕ, Text, ◌∷◌, [], none, some, false,
}

unfoldable pub create_rate_state : ℕ → Rate
create_rate_state now = record { window_start_ms = now; messages = 0; commands = 0; pairings = 0 }

-- The buckets of allowRate, each with its entry of RATE_LIMIT_ERRORS.
pub data Bucket : Type 0 where
  in_messages in_commands in_pairings : Bucket

abbrev pub counted : Bucket → Rate → Rate
counted in_messages rate = record rate { messages = rate.messages + 1 }
counted in_commands rate = record rate { commands = rate.commands + 1 }
counted in_pairings rate = record rate { pairings = rate.pairings + 1 }

abbrev pub count_of : Bucket → Rate → ℕ
count_of in_messages rate = rate.messages
count_of in_commands rate = rate.commands
count_of in_pairings rate = rate.pairings

abbrev pub rate_limit_code : Bucket → Text
rate_limit_code in_messages = codes "message-rate-limited"
rate_limit_code in_commands = codes "command-rate-limited"
rate_limit_code in_pairings = codes "pairing-rate-limited"

abbrev pub rate_limit_text : Bucket → Text
rate_limit_text in_messages = codes "Too many remote messages. Slow down and try again."
rate_limit_text in_commands = codes "Too many remote commands. Slow down and try again."
rate_limit_text in_pairings = codes "Too many pairing attempts. Slow down and try again."

-- The state that a message is counted in: the current window's, or a new one's.
unfoldable pub next_rate : ℕ → ℕ → Bucket → Rate → Rate
unfolding create_rate_state
next_rate window now bucket rate =
    counted bucket (if ltb window (now - rate.window_start_ms) then create_rate_state now else rate)

-- The fields of a message that validateRemoteMessage returned.
abbrev pub incoming_of : Value → Option MessageType → Option Bindings → Option Incoming
incoming_of (str id) (some type) (some payload) =
    some (record { id = id; type = type; payload = payload })
incoming_of _ _ _ = none

unfoldable pub incoming : Bindings → Option Incoming
incoming b =
    incoming_of (get (codes "id") b) (type_of (get (codes "type") b))
      (as_object (get (codes "payload") b))

module _ (env : Env) (cfg : Config) where
  abbrev pub rated : Client → Rate → Client
  rated c rate = record c { rate = rate }

  -- allowRate: go on with the client that it leaves, or stop with the error that it sends.
  unfoldable pub allow_rate :
      Text → Client → Bucket → ℕ → (Client → Relay → Outcome) → Relay → Outcome
  allow_rate ws c bucket limit next r =
      let c' = rated c (next_rate cfg.rate_window_ms env.now bucket c.rate) in
      if leb (count_of bucket c'.rate) limit
      then next c' (set_client ws c' r)
      else refuse env ws (rate_limit_code bucket) (rate_limit_text bucket) [] (set_client ws c' r)

  abbrev pub not_routed : Text → Client → Incoming → Relay → Outcome
  not_routed ws c m =
      refuse env ws (codes "not-routed")
        (codes "validated "
          ++ (spelling m.type
              ++ (codes " from "
                  ++ (source_text c.source ++ codes ", routing is not implemented yet"))))
        []

  abbrev pub route_by_set : Text → Client → Incoming → Relay → Outcome
  route_by_set ws c m r =
      if has_type m.type agent_watchdog_types
      then handle_agent_watchdog_message env cfg ws c m r
      else if has_type m.type browser_to_agent_types
      then route_browser_command env cfg ws c m r
      else if has_type m.type agent_to_browser_types
      then route_agent_update env cfg ws c m r
      else not_routed ws c m r

  unfoldable pub handle_message : Text → Client → Incoming → Relay → Outcome
  handle_message ws c m r = elim m.type [
    | MessageType.ping ↦
        (r, send env ws (create_message env MessageType.pong [] (codes "pong-" ++ m.id)))
    | MessageType.agent_hello ↦ register_agent env cfg ws c m r
    | MessageType.pairing_begin ↦ refresh_pairing_code env cfg ws c r
    | MessageType.pairing_confirm ↦ confirm_pairing env cfg ws c (text_field "code" m.payload) r
    | MessageType.pairing_revoke ↦ revoke_pairing env cfg ws c (text_field "deviceId" m.payload) r
    | MessageType.device_list ↦ send_device_list env cfg ws c r
    | MessageType.device_select ↦ select_device env cfg ws c (text_field "deviceId" m.payload) r
    | _ ↦ route_by_set ws c m r
  ]

  -- The callback after validation: the two further limits, and the dispatch.
  abbrev pub limit_pairings : Text → Incoming → Client → Relay → Outcome
  limit_pairings ws m c r =
      if same_type m.type MessageType.pairing_confirm
      then allow_rate ws c in_pairings cfg.max_pairing_attempts (λ c'. handle_message ws c' m) r
      else handle_message ws c m r

  abbrev pub limit_commands : Text → Incoming → Client → Relay → Outcome
  limit_commands ws m c r =
      if should_rate_limit_browser_command m.type
      then allow_rate ws c in_commands cfg.max_commands (limit_pairings ws m) r
      else limit_pairings ws m c r

  abbrev pub accepted : Text → Client → Option Incoming → Relay → Outcome
  accepted ws c none r = (r, [])
  accepted ws c (some m) r = limit_commands ws m c r

  abbrev pub validated : Text → Client → Result Bindings → Relay → Outcome
  validated ws c (ok message) r = accepted ws c (incoming message) r
  validated ws c (fail error) r = refuse env ws (codes "invalid-message") error [] r

  unfoldable pub on_text : Text → Client → Text → Relay → Outcome
  on_text ws c text r =
      allow_rate ws c in_messages cfg.max_messages
        (λ c'.
          validated ws c' (parse_remote_json cfg.parse_url cfg.parse_json text (some c'.source)))
        r

  unfoldable pub handle_binary_message : Text → Client → List ℕ → Relay → Outcome
  handle_binary_message ws c frame r =
      if length frame == 0 || ltb cfg.max_audio_frame_bytes (length frame)
      then (r, closed ws (codes "invalid audio frame size") ∷ [])
      else if is_agent c && not (is_empty c.device_id)
      then route_agent_audio env cfg ws c frame r
      else if is_browser c
      then handle_browser_tx_audio env cfg ws c frame r
      else (r, closed ws (codes "unsupported binary source") ∷ [])
