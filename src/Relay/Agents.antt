-- ===== src/Relay/Agents.antt =====
-- What agents ask of the relay: registerAgent, routeAgentUpdate,
-- routeAgentAudio, broadcastDeviceState, removeClient of
-- apps/relay/index.js.
use voxhf.Protocol.Version.{compare_versions, is_less}
use voxhf.Relay.Transmit.{stop_browser_tx}
use voxhf.Relay.Codes.{delete_pairing_codes_for_device}
use voxhf.Relay.Devices.{remember_device_snapshot}
use voxhf.Relay.Access.{can_client_access_device, is_browser, is_agent}
use voxhf.Protocol.Types.{spelling, MessageType}
use voxhf.Relay.Browsers.{whole, Incoming}
use voxhf.Dict.{remove, lookup, insert, Dict}
use voxhf.Watchdog.{agent_online, agent_offline}
use voxhf.Relay.{
  public_device, set_client, refuse, closing_later, send_binary, relay_error, on_timer, send,
  scoped, is_empty, create_message, Outcome, Effect, TimerEffect, Device, Config, Relay, Env,
  Client,
}
use voxhf.Json.{bool, str, get, Value, Bindings}
use voxhf.Prelude.{
  true, ◌||◌, ◌++◌, ◌&&◌, map, ℕ, text_eq, not, if◌then◌else◌, codes, Bool, Text, String, Option,
  List, ◌∷◌, [], none, some, false,
}

-- `message.payload.key`, for a key that holds a string or nothing
abbrev pub text_or_empty : Value → Text
text_or_empty (str s) = s
text_or_empty _ = []

abbrev pub text_field : String → Bindings → Text
text_field key payload = text_or_empty (get (codes key) payload)

abbrev pub version_or : Text → Option Device → Text
version_or version none = version
version_or version (some d) = if is_empty version then d.agent_version else version

abbrev pub messages_or_new : Option Device → Dict Bindings
messages_or_new none = []
messages_or_new (some d) = d.last_messages

-- The browsers that routeAgentUpdate and routeAgentAudio send to.
abbrev pub watches : Text → Text → Client → Bool
watches user id c = text_eq c.user_id user && is_browser c && text_eq c.selected_device_id id

-- Effects for each client that passes a test, in the order of the map.
abbrev pub for_clients : (Client → Bool) → (Text → List Effect) → Dict Client → List Effect
for_clients test f [] = []
for_clients test f ((ws, c) ∷ m) =
    let rest = for_clients test f m in if test c then f ws ++ rest else rest

abbrev pub timer_effects : List TimerEffect → List Effect
timer_effects = map on_timer

-- Whether a device is the one that this socket announced.
abbrev pub is_current : Text → Option Device → Bool
is_current ws none = false
is_current ws (some d) = text_eq d.socket ws

module _ (env : Env) (cfg : Config) where
  -- broadcastDeviceState, on what it reads of the device
  unfoldable pub broadcast_device_state : Text → Text → Bindings → Relay → List Effect
  broadcast_device_state user id shown r =
      for_clients
        (λ c. text_eq c.user_id user && (is_browser c && can_client_access_device cfg r c id))
        (λ ws.
          send env ws (create_message env MessageType.device_state shown (codes "device-" ++ id)))
        r.clients

  abbrev pub version_refused : Text → Bool
  version_refused version =
      not (is_empty cfg.minimum_agent_version)
      && (is_empty version
          || is_less
              (compare_versions cfg.trim cfg.locale_compare version cfg.minimum_agent_version))

  abbrev pub agent_device : Text → Client → Text → Text → Incoming → Option Device → Device
  agent_device ws c id key m existing = record {
    key = key;
    user_id = c.user_id;
    device_id = id;
    device_name = text_field "deviceName" m.payload;
    agent_version = version_or (text_field "agentVersion" m.payload) existing;
    online = true;
    socket = ws;
    last_messages = messages_or_new existing;
  }

  -- `if (client.deviceKey && client.deviceKey !== key) devices.delete(client.deviceKey)`
  abbrev pub without_old : Client → Text → Dict Device → Dict Device
  without_old c key m =
      if not (is_empty c.device_key) && not (text_eq c.device_key key)
      then remove c.device_key m
      else m

  -- registerAgent, with the device's id
  unfoldable pub register_device : Text → Client → Text → Incoming → Relay → Outcome
  register_device ws c id m r =
      let key = scoped c.user_id id in
      let d = agent_device ws c id key m (lookup key r.devices) in
      let (w, timers) = agent_online cfg.watchdog_options key r.watchdog in
      let c' = record c { device_key = key; device_id = id; device_name = d.device_name } in
      let r' =
        set_client ws c'
          (record r { devices = insert key d (without_old c key r.devices); watchdog = w }) in
      (
        r',
        timer_effects timers
            ++ (send env ws (
                  create_message env MessageType.device_state
                    ((codes "deviceId", str id)
                      ∷ (codes "deviceName", str d.device_name)
                      ∷ (codes "online", bool true)
                      ∷ [])
                    (codes "device-" ++ m.id))
                ++ broadcast_device_state c.user_id id (public_device d) r'),
      )

  abbrev pub announced_id : Incoming → Text
  announced_id m =
      let id = text_field "deviceId" m.payload in if is_empty id then env.fresh_device_id else id

  unfoldable pub register_agent : Text → Client → Incoming → Relay → Outcome
  register_agent ws c m r =
      if version_refused (text_field "agentVersion" m.payload)
      then (
        r,
        send env ws (
              relay_error env (codes "agent-update-required")
                (codes "VoxHF " ++ (cfg.minimum_agent_version ++ codes " or newer is required."))
                (codes "agent-version-" ++ m.id))
            ++ (closing_later ws (codes "agent update required") ∷ []),
      )
      else register_device ws c (announced_id m) m r

  abbrev pub remembered : Client → Incoming → Option Device → Relay → Relay
  remembered c m none r = r
  remembered c m (some d) r = record r {
    devices = insert c.device_key (remember_device_snapshot m.type (whole m) d) r.devices;
  }

  unfoldable pub route_agent_update : Text → Client → Incoming → Relay → Outcome
  route_agent_update ws c m r =
      if not (is_agent c) || is_empty c.device_id
      then refuse env ws (codes "invalid-source")
          (spelling m.type ++ codes " requires an announced agent device")
          (codes "route-error-" ++ m.id) r
      else (
        remembered c m (lookup c.device_key r.devices) r,
        for_clients (watches c.user_id c.device_id) (λ target. send env target (whole m)) r.clients,
      )

  unfoldable pub route_agent_audio : Text → Client → List ℕ → Relay → Outcome
  route_agent_audio ws c frame r =
      if not (is_current ws (lookup c.device_key r.devices)) then (r, []) else (
        r,
        for_clients (watches c.user_id c.device_id) (λ target. send_binary env target frame)
            r.clients,
      )

  abbrev pub offline_device : Client → Bindings
  offline_device c =
      (codes "deviceId", str c.device_id)
      ∷ (
        codes "deviceName",
        str (if is_empty c.device_name then codes "Unknown device" else c.device_name),
      )
      ∷ (codes "online", bool false)
      ∷ []

  -- The end of removeClient, for the agent that its device knows.
  unfoldable pub remove_agent : Client → Relay → Outcome
  remove_agent c r =
      let (w, timers, armed) =
        agent_offline cfg.watchdog_options env.now env.timer_handle c.device_key r.watchdog in
      let r' =
        delete_pairing_codes_for_device c.user_id c.device_id
          (record r { devices = remove c.device_key r.devices; watchdog = w }) in
      (
        r',
        timer_effects timers ++ broadcast_device_state c.user_id c.device_id (offline_device c) r',
      )

  abbrev pub tx_stopped : Relay → Client → List Effect
  tx_stopped r c =
      if is_browser c && not (is_empty c.active_tx_device_id)
      then (stop_browser_tx env r c).1
      else []

  abbrev pub remove_found : Text → Option Client → Relay → Outcome
  remove_found ws none r = (r, [])
  remove_found ws (some c) r =
      let stops = tx_stopped r c in
      if not (is_agent c) || is_empty c.device_id
      then (r, stops)
      else if not (is_current ws (lookup c.device_key r.devices))
      then (r, stops)
      else let (r', effects) = remove_agent c r in (r', stops ++ effects)

  unfoldable pub remove_client : Text → Relay → Outcome
  remove_client ws r =
      remove_found ws (lookup ws r.clients) (record r { clients = remove ws r.clients })
