-- ===== src/Relay/Tickets.antt =====
-- The watchdog's side of apps/relay/index.js: handleAgentWatchdogMessage, and the onFired that the relay
-- gives createAgentWatchdog.
use voxhf.Relay.Access.{is_agent}
use voxhf.Dict.{lookup}
use voxhf.Relay.Devices.{same_type}
use voxhf.Protocol.Types.{MessageType}
use voxhf.Relay.Browsers.{Incoming}
use voxhf.Protocol.Shape.{fail, ok, Result}
use voxhf.Relay.Agents.{is_current, timer_effects, text_field}
use voxhf.Relay.{
  refuse, relay_error, send, is_empty, Effect, Outcome, create_message, Device, Config, Client,
  Relay, Env,
}
use voxhf.Json.{str, get, bindings, obj, Value, Bindings}
use voxhf.Prelude.{
  ◌||◌, ◌++◌, ltb, not, if◌then◌else◌, codes, List, Bool, ℕ, Text, Option, ◌∷◌, [], none, some,
  true, false,
}
use voxhf.Watchdog.{disarm, commit, stage, Watchdog, Ticket, Payload, Effect as TimerEffect}

abbrev pub current_device : Relay → Client → Option Device
current_device r c = if is_empty c.device_key then none else lookup c.device_key r.devices

abbrev pub watchdog_ticket : Bindings → Ticket
watchdog_ticket t = record {
  device_id = text_field "deviceId" t;
  endpoint = text_field "endpoint" t;
  expires_at = text_field "expiresAt" t;
  authorization = text_field "authorization" t;
  content_encoding = text_field "contentEncoding" t;
  body = text_field "body" t;
}

abbrev pub bindings_of : Value → Bindings
bindings_of (obj fs) = bindings fs
bindings_of _ = []

abbrev pub watchdog_payload : Bindings → Payload
watchdog_payload p = record {
  session_id = text_field "sessionId" p;
  batch_id = text_field "batchId" p;
  ticket = watchdog_ticket (bindings_of (get (codes "ticket") p));
}

module _ (env : Env) (cfg : Config) where
  abbrev pub fired_message : Text → Bindings
  fired_message session =
      create_message env MessageType.agent_watchdog_fired ((codes "sessionId", str session) ∷ [])
        (codes "watchdog-fired-" ++ env.now_base36)

  abbrev pub watchdog_result : Text → Result ℕ → List Effect
  watchdog_result ws (ok n) = []
  watchdog_result ws (fail error) =
      send env ws (relay_error env (codes "watchdog-invalid") error [])

  abbrev pub watchdog_staged : Text → Relay → Watchdog × Result ℕ → Outcome
  watchdog_staged ws r (w, result) = (record r { watchdog = w }, watchdog_result ws result)

  abbrev pub watchdog_committed : Text → Relay → Watchdog × List TimerEffect × Result ℕ → Outcome
  watchdog_committed ws r (w, timers, result) =
      (record r { watchdog = w }, timer_effects timers ++ watchdog_result ws result)

  abbrev pub watchdog_disarmed : Text → Text → Relay → Watchdog × List TimerEffect × Bool → Outcome
  watchdog_disarmed ws session r (w, timers, fired) = (
    record r { watchdog = w },
    timer_effects timers ++ (if fired then send env ws (fired_message session) else []),
  )

  abbrev pub watchdog_request : Text → Client → Incoming → Relay → Outcome
  watchdog_request ws c m r =
      let p = watchdog_payload m.payload in
      let o = cfg.watchdog_options in
      if same_type m.type MessageType.agent_watchdog_ticket
      then watchdog_staged ws r (stage o env.now c.device_key p r.watchdog)
      else if same_type m.type MessageType.agent_watchdog_commit
      then watchdog_committed ws r
          (commit o env.now c.device_key p.session_id p.batch_id r.watchdog)
      else watchdog_disarmed ws p.session_id r
          (disarm o env.now c.device_key p.session_id r.watchdog)

  unfoldable pub handle_agent_watchdog_message : Text → Client → Incoming → Relay → Outcome
  handle_agent_watchdog_message ws c m r =
      if not (is_agent c) || not (is_current ws (current_device r c))
      then refuse env ws (codes "watchdog-unavailable")
          (codes "Agent must announce itself before configuring the watchdog") [] r
      else watchdog_request ws c m r

  -- The watchdog's onFired; the result is what it reports.
  abbrev pub fired_at : Text → Option Device → Bool × List Effect
  fired_at session none = (false, [])
  fired_at session (some d) =
      if env.is_open d.socket
      then (true, send env d.socket (fired_message session))
      else (false, [])

  unfoldable pub on_fired : Text → Text → ℕ → Relay → Bool × List Effect
  on_fired device_key session sent_count r =
      if ltb sent_count 1 then (false, []) else fired_at session (lookup device_key r.devices)
