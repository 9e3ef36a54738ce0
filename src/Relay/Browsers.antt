-- ===== src/Relay/Browsers.antt =====
-- What browsers ask of the relay: sendDeviceList, selectDevice and routeBrowserCommand of
-- apps/relay/index.js. The client of a socket is passed beside the relay, whose map `clients` holds it.
pub mod Guard
use voxhf.Relay.Access.{is_browser, can_client_access_device}
use voxhf.Relay.Transmit.{clear_browser_tx, find_device, start_browser_tx, stop_tx_if}
use voxhf.Relay.Devices.{same_type, snapshot_types}
use voxhf.Dict.{values, lookup}
use voxhf.Protocol.Types.{browser, spelling, MessageType}
use voxhf.Protocol.Message.{envelope}
use voxhf.Relay.{
  public_device, scoped, create_message, send, is_empty, set_client, refuse, Outcome, Relay, Effect,
  Client, Device, Config, Env,
}
use voxhf.Json.{get, str, Bindings}
use voxhf.Prelude.{
  ◌++◌, ◌&&◌, text_eq, not, codes, if◌then◌else◌, Option, List, Text, ◌∷◌, [], none, some, true,
  false,
}

-- A validated message.
pub record Incoming : Type 0 where
  pub id : Text
  pub type : MessageType
  pub payload : Bindings

-- The object that is sent on.
abbrev pub whole : Incoming → Bindings
whole m = envelope (str m.id) m.type m.payload

module _ (env : Env) where
  abbrev pub send_held : Text → Option Bindings → List Effect
  send_held ws none = []
  send_held ws (some m) = send env ws m

  -- The loop of sendCachedDeviceState
  abbrev pub send_cached : Text → List MessageType → Device → List Effect
  send_cached ws [] d = []
  send_cached ws (t ∷ ts) d =
      send_held ws (lookup (spelling t) d.last_messages) ++ send_cached ws ts d

  unfoldable pub send_cached_device_state : Text → Device → List Effect
  send_cached_device_state ws d = send_cached ws snapshot_types d

  module _ (cfg : Config) where
    abbrev pub listed : Text → Client → Relay → List Device → List Effect
    listed ws c r [] = []
    listed ws c r (d ∷ ds) =
        let rest = listed ws c r ds in
        if text_eq d.user_id c.user_id && can_client_access_device cfg r c d.device_id
        then send env ws (
            create_message env MessageType.device_state (public_device d)
              (codes "device-list-" ++ d.device_id))
          ++ rest
        else rest

    unfoldable pub send_device_list : Text → Client → Relay → Outcome
    send_device_list ws c r = (r, listed ws c r (values r.devices))

    -- The end of selectDevice, with the device.
    unfoldable pub select_found : Text → Client → Text → Device → Relay → Outcome
    select_found ws c id d r =
        let (c', effects) =
          stop_tx_if env
            (not (is_empty c.active_tx_device_id) && not (text_eq c.active_tx_device_id id)) r c in
        (
          set_client ws (record c' { selected_device_id = id }) r,
          effects
              ++ (send env ws (
                    create_message env MessageType.device_state (public_device d)
                      (codes "selected-" ++ id))
                  ++ send_cached_device_state ws d),
        )

    abbrev pub select_in : Text → Client → Text → Option Device → Relay → Outcome
    select_in ws c id none r =
        refuse env ws (codes "device-not-found") (codes "Device is not online") [] r
    select_in ws c id (some d) r =
        if not (can_client_access_device cfg r c id)
        then refuse env ws (codes "pairing-required")
            (codes "Enter the pairing code shown by VoxHF on the Altitude PC") [] r
        else select_found ws c id d r

    unfoldable pub select_device : Text → Client → Text → Relay → Outcome
    select_device ws c id r =
        if not (is_browser c)
        then refuse env ws (codes "invalid-source")
            (codes "Only browser clients can select devices") [] r
        else select_in ws c id (lookup (scoped c.user_id id) r.devices) r

    abbrev pub tx_after : Incoming → Text → Client → Client
    tx_after m device_id c =
        if same_type m.type MessageType.tx_start
        then start_browser_tx env device_id (get (codes "com") m.payload) c
        else if same_type m.type MessageType.tx_stop
        then clear_browser_tx c
        else c

    abbrev pub route_error : Text → Text → Text → Incoming → Relay → Outcome
    route_error ws code text m = refuse env ws code text (codes "route-error-" ++ m.id)

    -- The end of routeBrowserCommand, with the device.
    unfoldable pub forward_command : Text → Client → Incoming → Device → Relay → Outcome
    forward_command ws c m d r =
        (set_client ws (tx_after m d.device_id c) r, send env d.socket (whole m))

    abbrev pub not_selected : Text → Incoming → Relay → Outcome
    not_selected ws m =
        route_error ws (codes "device-not-selected")
          (codes "Select an online device before sending commands") m

    abbrev pub route_to : Text → Client → Incoming → Option Device → Relay → Outcome
    route_to ws c m none r = not_selected ws m r
    route_to ws c m (some d) r =
        if not (can_client_access_device cfg r c d.device_id)
        then route_error ws (codes "pairing-required")
            (codes "Pair this browser before sending commands") m r
        else if not (d.online && env.is_open d.socket)
        then not_selected ws m r
        else forward_command ws c m d r

    unfoldable pub route_browser_command : Text → Client → Incoming → Relay → Outcome
    route_browser_command ws c m r =
        if not (is_browser c)
        then route_error ws (codes "invalid-source")
            (spelling m.type ++ codes " is only routable from browser clients") m r
        else route_to ws c m (find_device r c.user_id c.selected_device_id) r
