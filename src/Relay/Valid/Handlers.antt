-- ===== src/Relay/Valid/Handlers.antt =====
-- The requests of browsers, and the requests that change nothing of the devices, keep the maps of
-- apps/relay/index.js in step.
use voxhf.Watchdog.{disarm, commit, stage}
use voxhf.Relay.Agents.{is_current}
use voxhf.Protocol.Types.{MessageType}
use voxhf.Relay.Devices.{same_type}
use voxhf.Relay.Access.{
  can_client_access_device, is_browser, is_agent, browser_authorization_key, revoked,
  revoke_browser_authorization, authorize_browser,
}
use voxhf.Relay.Tickets.{
  watchdog_disarmed, watchdog_committed, watchdog_staged, watchdog_payload, watchdog_request,
  current_device, handle_agent_watchdog_message,
}
use voxhf.Relay.Codes.{
  confirm_found, delete_pairing_codes_for_device, purge_expired_pairing_codes,
  generate_pairing_code, issue_code, refresh_pairing_code, pair, confirm_pairing,
}
use voxhf.Relay.Browsers.{
  select_in, route_to, tx_after, select_found, select_device, route_browser_command,
  forward_command, Incoming,
}
use voxhf.Relay.Revoke.{revoke_pairing, revoke_found, deselect}
use voxhf.Relay.Valid.{set_client-IsValid, IsValid, SameAgent}
use voxhf.Relay.Transmit.{
  is_tx_frame, find_device, tx_audio_to, stop_tx_if, stopped, handle_browser_tx_audio,
  clear_browser_tx, stop_browser_tx, start_browser_tx,
}
use voxhf.Dict.{lookup}
use voxhf.Relay.{
  refuse, scoped, Pairing, is_empty, Effect, Device, Outcome, Relay, Client, Config, Env,
}
use voxhf.Prelude.{
  if◌then◌else◌, codes, ◌-◌, ◌∙◌, ltb, ◌||◌, ◌&&◌, ap, ℕ, text_eq, not, by_if, Option, List, Bool,
  Text, [], none, some, ◌≡◌, refl,
}

module _ (env : Env) (cfg : Config) (ws : Text) (c : Client) (r : Relay) where
  abbrev pub Keeps : Outcome → Type 0
  Keeps o = IsValid o.0

  stop_tx_if-SameAgent : (test : Bool) → SameAgent c (stop_tx_if env test r c).0
  unfolding stop_browser_tx clear_browser_tx
  stop_tx_if-SameAgent test =
      by_if (λ (o : Client × List Effect). SameAgent c o.0) test (λ h. (refl, refl, refl, refl))
        (λ h. (refl, refl, refl, refl))

  tx_after-SameAgent : (m : Incoming) (id : Text) → SameAgent c (tx_after env cfg m id c)
  unfolding start_browser_tx clear_browser_tx
  tx_after-SameAgent m id =
      by_if (SameAgent c) (same_type m.type MessageType.tx_start) (λ h. (refl, refl, refl, refl))
        λ h.
          by_if (SameAgent c) (same_type m.type MessageType.tx_stop) (λ h. (refl, refl, refl, refl))
            (λ h. (refl, refl, refl, refl))

  deselect-SameAgent :
      (id : Text) (c' : Client) → SameAgent c c' → SameAgent c (deselect env cfg id c')
  deselect-SameAgent id c' s =
      by_if (SameAgent c) (text_eq c'.selected_device_id id) (λ h. s) (λ h. s)

  module _ (here : lookup ws r.clients ≡ some c) (v : IsValid r) where
    select_found-IsValid : (id : Text) (d : Device) → Keeps (select_found env cfg ws c id d r)
    unfolding select_found
    select_found-IsValid id d =
        let test = not (is_empty c.active_tx_device_id) && not (text_eq c.active_tx_device_id id) in
        set_client-IsValid ws c _ r here (stop_tx_if-SameAgent test) v

    select_in-IsValid : (id : Text) (o : Option Device) → Keeps (select_in env cfg ws c id o r)
    select_in-IsValid id none = v
    select_in-IsValid id (some d) =
        by_if Keeps (not (can_client_access_device cfg r c id)) (λ h. v)
          (λ h. select_found-IsValid id d)

    pub select_device-IsValid : (id : Text) → Keeps (select_device env cfg ws c id r)
    unfolding select_device
    select_device-IsValid id =
        by_if Keeps (not (is_browser c)) (λ h. v)
          (λ h. select_in-IsValid id (lookup (scoped c.user_id id) r.devices))

    route_to-IsValid : (m : Incoming) (o : Option Device) → Keeps (route_to env cfg ws c m o r)
    unfolding forward_command
    route_to-IsValid m none = v
    route_to-IsValid m (some d) =
        by_if Keeps (not (can_client_access_device cfg r c d.device_id)) (λ h. v)
          λ h.
            by_if Keeps (not (d.online && env.is_open d.socket)) (λ h. v)
              (λ h. set_client-IsValid ws c _ r here (tx_after-SameAgent m d.device_id) v)

    pub route_browser_command-IsValid :
        (m : Incoming) → Keeps (route_browser_command env cfg ws c m r)
    unfolding route_browser_command
    route_browser_command-IsValid m =
        by_if Keeps (not (is_browser c)) (λ h. v)
          (λ h. route_to-IsValid m (find_device r c.user_id c.selected_device_id))

    stopped-IsValid : Keeps (stopped env cfg ws r (stop_browser_tx env r c))
    unfolding stop_browser_tx clear_browser_tx
    stopped-IsValid = set_client-IsValid ws c _ r here (refl, refl, refl, refl) v

    tx_audio_to-IsValid :
        (frame : List ℕ) (o : Option Device) → Keeps (tx_audio_to env cfg ws c frame o r)
    tx_audio_to-IsValid frame none = stopped-IsValid
    tx_audio_to-IsValid frame (some d) = v

    pub handle_browser_tx_audio-IsValid :
        (frame : List ℕ) → Keeps (handle_browser_tx_audio env cfg ws c frame r)
    unfolding handle_browser_tx_audio
    handle_browser_tx_audio-IsValid frame =
        by_if Keeps
          (is_empty c.active_tx_device_id
            || not (text_eq c.active_tx_device_id c.selected_device_id))
          (λ h. v)
          λ on.
            by_if Keeps (ltb cfg.max_remote_tx_ms (env.now - c.active_tx_started_at))
              (λ h. stopped-IsValid)
              λ time.
                by_if Keeps (not (is_tx_frame frame)) (λ h. v) (λ h. tx_audio_to-IsValid frame _)

    revoked-IsValid :
        (key id : Text) (o : Option (List Text))
        → IsValid (revoked cfg key id r o).0 × ((revoked cfg key id r o).0.clients ≡ r.clients)
    revoked-IsValid key id none = (v, refl)
    revoked-IsValid key id (some ids) = (v, refl)

    revoke_found-IsValid : (id : Text) → Keeps (revoke_found env cfg ws c id r)
    unfolding revoke_found revoke_browser_authorization
    revoke_found-IsValid id =
        let key = browser_authorization_key cfg c.user_id c.browser_id in
        let (v', same) = revoked-IsValid key id (lookup key r.authorizations) in
        set_client-IsValid ws c _ (revoked cfg key id r (lookup key r.authorizations)).0
          (ap (lookup ws) same ∙ here)
          (deselect-SameAgent id _ (stop_tx_if-SameAgent (text_eq c.active_tx_device_id id))) v'

    pub revoke_pairing-IsValid : (id : Text) → Keeps (revoke_pairing env cfg ws c id r)
    unfolding revoke_pairing
    revoke_pairing-IsValid id =
        by_if Keeps (not (is_browser c)) (λ h. v)
          λ b.
            by_if Keeps (is_empty c.browser_id || not (can_client_access_device cfg r c id))
              (λ h. v) (λ h. revoke_found-IsValid id)

    confirm_found-IsValid :
        (code : Text) (o : Option (Pairing × Device))
        → Keeps (confirm_found env cfg ws c code o (purge_expired_pairing_codes env.now r))
    unfolding pair authorize_browser purge_expired_pairing_codes
    confirm_found-IsValid code none = v
    confirm_found-IsValid code (some (p, d)) =
        set_client-IsValid ws c (record c { selected_device_id = p.device_id }) r here
          (refl, refl, refl, refl) v

    pub confirm_pairing-IsValid : (value : Text) → Keeps (confirm_pairing env cfg ws c value r)
    unfolding confirm_pairing
    confirm_pairing-IsValid value =
        by_if Keeps (not (is_browser c)) (λ h. v)
          λ b. by_if Keeps (is_empty c.browser_id) (λ h. v) λ n. confirm_found-IsValid _ _

    issue_code-IsValid :
        (c' : Client) (code : Text)
        → Keeps (
            issue_code env cfg ws c code
              (generate_pairing_code env cfg
                (delete_pairing_codes_for_device c'.user_id c'.device_id r)).1)
    unfolding issue_code generate_pairing_code purge_expired_pairing_codes
        delete_pairing_codes_for_device
    issue_code-IsValid c' code = v

    pub refresh_pairing_code-IsValid : Keeps (refresh_pairing_code env cfg ws c r)
    unfolding refresh_pairing_code
    refresh_pairing_code-IsValid =
        let cleared = delete_pairing_codes_for_device c.user_id c.device_id r in
        let (code, r') = generate_pairing_code env cfg cleared in
        let issued = issue_code env cfg ws c code r' in
        let text = codes "Agent must announce itself before requesting a pairing code" in
        let refusal = refuse env ws (codes "pairing-unavailable") text [] r in
        let unannounced = not (is_agent c) || is_empty c.device_id in
        by_if Keeps (not cfg.require_pairing) {y = if unannounced then refusal else issued} (λ h. v)
          (λ h.
            by_if Keeps unannounced {x = refusal} {y = issued} (λ h'. v)
              (λ e. issue_code-IsValid c code))

    watchdog_request-IsValid : (m : Incoming) → Keeps (watchdog_request env cfg ws c m r)
    watchdog_request-IsValid m =
        let p = watchdog_payload m.payload in
        let o = cfg.watchdog_options in
        let staged = watchdog_staged env cfg ws r (stage o env.now c.device_key p r.watchdog) in
        let committed =
          watchdog_committed env cfg ws r
            (commit o env.now c.device_key p.session_id p.batch_id r.watchdog) in
        let disarmed =
          watchdog_disarmed env cfg ws p.session_id r
            (disarm o env.now c.device_key p.session_id r.watchdog) in
        let is_commit = same_type m.type MessageType.agent_watchdog_commit in
        by_if Keeps (same_type m.type MessageType.agent_watchdog_ticket) {x = staged}
          {y = if is_commit then committed else disarmed} (λ h. v)
          (λ h. by_if Keeps is_commit {x = committed} {y = disarmed} (λ h'. v) (λ h'. v))

    pub handle_agent_watchdog_message-IsValid :
        (m : Incoming) → Keeps (handle_agent_watchdog_message env cfg ws c m r)
    unfolding handle_agent_watchdog_message
    handle_agent_watchdog_message-IsValid m =
        by_if Keeps (not (is_agent c) || not (is_current ws (current_device r c)))
          {y = watchdog_request env cfg ws c m r} (λ h. v) (λ e. watchdog_request-IsValid m)
