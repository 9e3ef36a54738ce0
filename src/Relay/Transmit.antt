-- ===== src/Relay/Transmit.antt =====
-- The transmission of a browser: startBrowserTx, stopBrowserTx, clearBrowserTx and handleBrowserTxAudio
-- of apps/relay/index.js.
pub mod Guard
use voxhf.Relay.Access.{can_client_access_device}
use voxhf.Dict.{lookup}
use voxhf.Protocol.Types.{MessageType}
use voxhf.Json.{fin, Value, num, Bindings}
use voxhf.Relay.{
  closed, scoped, send, set_client, send_binary, is_empty, create_message, Outcome, Device, Effect,
  Config, Relay, Env, Client,
}
use voxhf.Prelude.{
  ◌-◌, take, not, ◌||◌, ◌++◌, text_eq, drop, ◌&&◌, length, ltb, if◌then◌else◌, codes, ℕ, Text,
  Option, Bool, List, ◌∷◌, [], none, some, true, false,
}

-- TX_PACKET_MAGIC
abbrev pub tx_packet_magic : List ℕ
tx_packet_magic = codes "CTX1"

-- `!frame.subarray(0, 4).equals(TX_PACKET_MAGIC)`, and that there is more
abbrev pub is_tx_frame : List ℕ → Bool
is_tx_frame frame = ltb 4 (length frame) && text_eq (take 4 frame) tx_packet_magic

unfoldable pub clear_browser_tx : Client → Client
clear_browser_tx c = record c {
  active_tx_device_id = [];
  active_tx_com = num (fin false 0 0);
  active_tx_started_at = 0;
}

-- `device?.online && device.ws.readyState === WebSocket.OPEN`
abbrev pub reachable : Env → Option Device → Bool
reachable env none = false
reachable env (some d) = d.online && env.is_open d.socket

abbrev pub find_device : Relay → Text → Text → Option Device
find_device r user id = if is_empty id then none else lookup (scoped user id) r.devices

module _ (env : Env) where
  unfoldable pub start_browser_tx : Text → Value → Client → Client
  start_browser_tx device_id com_number c = record c {
    active_tx_device_id = device_id;
    active_tx_com = com_number;
    active_tx_started_at = env.now;
  }

  abbrev pub tx_stop_message : Bindings
  tx_stop_message = create_message env MessageType.tx_stop [] (codes "tx-stop-" ++ env.now_base36)

  abbrev pub stop_tx_at : Option Device → List Effect
  stop_tx_at none = []
  stop_tx_at (some d) =
      if d.online && env.is_open d.socket then send env d.socket tx_stop_message else []

  -- The client that stopBrowserTx leaves, and what it sends.
  unfoldable pub stop_browser_tx : Relay → Client → Client × List Effect
  stop_browser_tx r c =
      (clear_browser_tx c, stop_tx_at (find_device r c.user_id c.active_tx_device_id))

  abbrev pub stop_tx_if : Bool → Relay → Client → Client × List Effect
  stop_tx_if test r c = if test then stop_browser_tx r c else (c, [])

  module _ (cfg : Config) where
    abbrev pub stopped : Text → Relay → Client × List Effect → Outcome
    stopped ws r (c, effects) = (set_client ws c r, effects)

    abbrev pub usable : Relay → Client → Option Device → Option Device
    usable r c none = none
    usable r c (some d) =
        if d.online && env.is_open d.socket && can_client_access_device cfg r c d.device_id
        then some d
        else none

    abbrev pub tx_audio_to : Text → Client → List ℕ → Option Device → Relay → Outcome
    tx_audio_to ws c frame none r = stopped ws r (stop_browser_tx r c)
    tx_audio_to ws c frame (some d) r = (r, send_binary env d.socket (drop 4 frame))

    unfoldable pub handle_browser_tx_audio : Text → Client → List ℕ → Relay → Outcome
    handle_browser_tx_audio ws c frame r =
        if is_empty c.active_tx_device_id
          || not (text_eq c.active_tx_device_id c.selected_device_id)
        then (r, [])
        else if ltb cfg.max_remote_tx_ms (env.now - c.active_tx_started_at)
        then stopped ws r (stop_browser_tx r c)
        else if not (is_tx_frame frame)
        then (r, closed ws (codes "invalid tx audio frame") ∷ [])
        else tx_audio_to ws c frame
            (usable r c (lookup (scoped c.user_id c.active_tx_device_id) r.devices)) r
