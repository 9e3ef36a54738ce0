-- ===== src/Relay/Valid/Trace.antt =====
-- The maps of apps/relay/index.js stay in step through connections, messages, audio and disconnections
-- in any order.
use voxhf.Dict.Laws.{lookup-insert}
use voxhf.Relay.Messages.Forward.{incoming-validated}
use voxhf.Relay.Access.{is_agent, is_browser}
use voxhf.Relay.Transmit.{handle_browser_tx_audio}
use voxhf.Protocol.Shape.Laws.{or_fail-eq-ok, unless-eq-ok}
use voxhf.Protocol.Shape.{fail, ok, Result}
use voxhf.Protocol.Message.{max_json_message_bytes, parse_remote_json}
use voxhf.Relay.Devices.{
  should_rate_limit_browser_command, same_type, agent_watchdog_types, browser_to_agent_types,
  agent_to_browser_types, has_type,
}
use voxhf.Relay.Agents.{
  watches, for_clients, is_current, route_agent_audio, text_field, route_agent_update,
}
use voxhf.Relay.Valid.Handlers.{
  handle_browser_tx_audio-IsValid, route_browser_command-IsValid,
  handle_agent_watchdog_message-IsValid, select_device-IsValid, revoke_pairing-IsValid,
  confirm_pairing-IsValid, refresh_pairing_code-IsValid,
}
use voxhf.Relay.Tickets.{handle_agent_watchdog_message}
use voxhf.Relay.Valid.Announce.{route_agent_update-IsValid, register_agent-IsValid}
use voxhf.Dict.{lookup}
use voxhf.Relay.Valid.{set_client-IsValid, IsValid}
use voxhf.Json.{Bindings}
use voxhf.Relay.Messages.{
  count_of, rate_limit_text, rate_limit_code, next_rate, accepted, incoming, in_pairings,
  in_commands, validated, in_messages, Bucket, on_text, limit_pairings, limit_commands,
  handle_binary_message, allow_rate, not_routed, route_by_set, handle_message,
}
use voxhf.Relay.Browsers.{route_browser_command, Incoming, send_device_list}
use voxhf.Relay.{
  send_binary, refuse, set_client, closed, Rate, Outcome, is_empty, Relay, Client, Config, Env,
}
use voxhf.Protocol.Types.{same_source, MessageType, Source, source_rules, allows}
use voxhf.Prelude.{
  text_eq_refl, ltb, ◌||◌, ◌==◌, length, ◌&&◌, sym, codes, byte_length, leb, subst, not, ℕ, List,
  by_if, if◌then◌else◌, arith, Text, ◌∷◌, [], some, true, false, ◌≡◌, refl,
}

hello-agent :
    (s : Source) → allows MessageType.agent_hello s ≡ true → same_source s Source.agent ≡ true
unfolding allows source_rules
hello-agent Source.browser a = absurd (ground arith)
hello-agent Source.agent a = refl
hello-agent Source.relay a = absurd (ground arith)

parsed-allowed :
    (cfg : Config) (text : Text) (source : Source) (q : Bindings)
    → parse_remote_json cfg.parse_url cfg.parse_json text (some source) ≡ ok q
    → (m : Incoming) × (incoming q ≡ some m) × (allows m.type source ≡ true)
unfolding parse_remote_json
parsed-allowed cfg text source q e =
    let (short, e1) = unless-eq-ok (leb (byte_length text) max_json_message_bytes) _ _ e in
    let (v, parsed, e2) = or_fail-eq-ok (cfg.parse_json text) _ _ e1 in
    let (m, read, same, a) = incoming-validated cfg.parse_url v (some source) e2 in (m, read, a)

module _ (env : Env) (cfg : Config) (ws : Text) where
  list-IsValid : (c : Client) (r : Relay) → IsValid r → IsValid (send_device_list env cfg ws c r).0
  unfolding send_device_list
  list-IsValid c r v = v

  routed-IsValid :
      (c : Client) (r : Relay) (m : Incoming)
      → lookup ws r.clients ≡ some c
      → IsValid r
      → IsValid (route_by_set env cfg ws c m r).0
  routed-IsValid c r m here v =
      let P : Outcome → Type 0 = λ o. IsValid o.0 in
      let tickets = handle_agent_watchdog_message env cfg ws c m r in
      let command = route_browser_command env cfg ws c m r in
      let update = route_agent_update env cfg ws c m r in
      let error = not_routed env cfg ws c m r in
      let is_update = has_type m.type agent_to_browser_types in
      let is_command = has_type m.type browser_to_agent_types in
      let later = if is_update then update else error in
      by_if P (has_type m.type agent_watchdog_types) {x = tickets}
        {y = if is_command then command else later}
        (λ h. handle_agent_watchdog_message-IsValid env cfg ws c r here v m)
        (λ h.
          by_if P is_command {x = command} {y = later}
            (λ h. route_browser_command-IsValid env cfg ws c r here v m)
            (λ h.
              by_if P is_update {x = update} {y = error}
                (λ h. route_agent_update-IsValid env cfg ws c r here v m) (λ h. v)))

  handle-IsValid :
      (c : Client) (r : Relay) (id : Text) (type : MessageType) (p : Bindings)
      → lookup ws r.clients ≡ some c
      → IsValid r
      → allows type c.source ≡ true
      → is_empty env.fresh_device_id ≡ false
      → IsValid (handle_message env cfg ws c (record { id = id; type = type; payload = p }) r).0
  unfolding handle_message
  handle-IsValid c r id MessageType.ping p here v a f = v
  handle-IsValid c r id MessageType.agent_hello p here v a f =
      register_agent-IsValid env cfg ws c r here v
        (record { id = id; type = MessageType.agent_hello; payload = p }) (hello-agent c.source a) f
  handle-IsValid c r id MessageType.pairing_begin p here v a f =
      refresh_pairing_code-IsValid env cfg ws c r here v
  handle-IsValid c r id MessageType.pairing_confirm p here v a f =
      confirm_pairing-IsValid env cfg ws c r here v (text_field "code" p)
  handle-IsValid c r id MessageType.pairing_revoke p here v a f =
      revoke_pairing-IsValid env cfg ws c r here v (text_field "deviceId" p)
  handle-IsValid c r id MessageType.device_list p here v a f = list-IsValid c r v
  handle-IsValid c r id MessageType.device_select p here v a f =
      select_device-IsValid env cfg ws c r here v (text_field "deviceId" p)
  handle-IsValid c r id other p here v a f =
      routed-IsValid c r (record { id = id; type = other; payload = p }) here v

  -- What allowRate leaves to do, with the connection's new entry, or its error.
  allow-IsValid :
      (c : Client) (r : Relay) (bucket : Bucket) (limit : ℕ) (next : Client → Relay → Outcome)
      → lookup ws r.clients ≡ some c
      → IsValid r
      → ((rate : Rate) (r' : Relay)
          → lookup ws r'.clients ≡ some (record c { rate = rate })
          → IsValid r'
          → IsValid (next (record c { rate = rate }) r').0)
      → IsValid (allow_rate env cfg ws c bucket limit next r).0
  unfolding allow_rate
  allow-IsValid c r bucket limit next here v h =
      let rate = next_rate cfg.rate_window_ms env.now bucket c.rate in
      let c' : Client = record c { rate = rate } in
      let r' = set_client ws c' r in
      let v' = set_client-IsValid ws c c' r here (refl, refl, refl, refl) v in
      let error = refuse env ws (rate_limit_code bucket) (rate_limit_text bucket) [] r' in
      by_if (λ (o : Outcome). IsValid o.0) (leb (count_of bucket rate) limit) {x = next c' r'}
        {y = error}
        (λ e. h rate r' (rw (lookup-insert ws ws c' r.clients, text_eq_refl ws) refl) v') (λ e. v')

  module _ (fresh : is_empty env.fresh_device_id ≡ false) where
    pairings-IsValid :
        (m : Incoming) (c : Client) (r : Relay)
        → lookup ws r.clients ≡ some c
        → IsValid r
        → allows m.type c.source ≡ true
        → IsValid (limit_pairings env cfg ws m c r).0
    pairings-IsValid m c r here v a =
        let next = λ (c' : Client). handle_message env cfg ws c' m in
        by_if (λ (o : Outcome). IsValid o.0) (same_type m.type MessageType.pairing_confirm)
          {x = allow_rate env cfg ws c in_pairings cfg.max_pairing_attempts next r}
          {y = handle_message env cfg ws c m r}
          (λ e.
            allow-IsValid c r in_pairings cfg.max_pairing_attempts next here v (λ rate r' here' v'.
              handle-IsValid (record c { rate = rate }) r' m.id m.type m.payload here' v' a fresh))
          (λ e. handle-IsValid c r m.id m.type m.payload here v a fresh)

    commands-IsValid :
        (m : Incoming) (c : Client) (r : Relay)
        → lookup ws r.clients ≡ some c
        → IsValid r
        → allows m.type c.source ≡ true
        → IsValid (limit_commands env cfg ws m c r).0
    commands-IsValid m c r here v a =
        let next = limit_pairings env cfg ws m in
        by_if (λ (o : Outcome). IsValid o.0) (should_rate_limit_browser_command m.type)
          {x = allow_rate env cfg ws c in_commands cfg.max_commands next r}
          {y = limit_pairings env cfg ws m c r}
          (λ e.
            allow-IsValid c r in_commands cfg.max_commands next here v
              (λ rate r' here' v'. pairings-IsValid m (record c { rate = rate }) r' here' v' a))
          (λ e. pairings-IsValid m c r here v a)

    validated-IsValid :
        (text : Text) (c : Client) (r : Relay) (result : Result Bindings)
        → parse_remote_json cfg.parse_url cfg.parse_json text (some c.source) ≡ result
        → lookup ws r.clients ≡ some c
        → IsValid r
        → IsValid (validated env cfg ws c result r).0
    validated-IsValid text c r (fail error) e here v = v
    validated-IsValid text c r (ok q) e here v =
        let (m, read, a) = parsed-allowed cfg text c.source q e in
        subst (λ o. IsValid (accepted env cfg ws c o r).0) (sym read)
          (commands-IsValid m c r here v a)

    pub on_text-IsValid :
        (text : Text) (c : Client) (r : Relay)
        → lookup ws r.clients ≡ some c
        → IsValid r
        → IsValid (on_text env cfg ws c text r).0
    unfolding on_text
    on_text-IsValid text c r here v =
        allow-IsValid c r in_messages cfg.max_messages
          (λ c'.
            validated env cfg ws c'
              (parse_remote_json cfg.parse_url cfg.parse_json text (some c'.source)))
          here v
          (λ rate r' here' v'. validated-IsValid text (record c { rate = rate }) r' _ refl here' v')

  audio-IsValid :
      (frame : List ℕ) (c : Client) (r : Relay)
      → IsValid r
      → IsValid (route_agent_audio env cfg ws c frame r).0
  unfolding route_agent_audio
  audio-IsValid frame c r v =
      by_if (λ (o : Outcome). IsValid o.0) (not (is_current ws (lookup c.device_key r.devices)))
        {x = (r, [])}
        {y = (
          r,
          for_clients (watches c.user_id c.device_id) (λ target. send_binary env target frame)
              r.clients,
        )}
        (λ h. v) (λ h. v)

  pub binary-IsValid :
      (frame : List ℕ) (c : Client) (r : Relay)
      → lookup ws r.clients ≡ some c
      → IsValid r
      → IsValid (handle_binary_message env cfg ws c frame r).0
  unfolding handle_binary_message
  binary-IsValid frame c r here v =
      let P : Outcome → Type 0 = λ o. IsValid o.0 in
      let agents = route_agent_audio env cfg ws c frame r in
      let browsers = handle_browser_tx_audio env cfg ws c frame r in
      let neither : Outcome = (r, closed ws (codes "unsupported binary source") ∷ []) in
      let wrong_size : Outcome = (r, closed ws (codes "invalid audio frame size") ∷ []) in
      let of_browser = if is_browser c then browsers else neither in
      let announced = is_agent c && not (is_empty c.device_id) in
      by_if P (length frame == 0 || ltb cfg.max_audio_frame_bytes (length frame)) {x = wrong_size}
        {y = if announced then agents else of_browser} (λ h. v)
        (λ h.
          by_if P announced {x = agents} {y = of_browser} (λ h'. audio-IsValid frame c r v)
            (λ h'.
              by_if P (is_browser c) {x = browsers} {y = neither}
                (λ b. handle_browser_tx_audio-IsValid env cfg ws c r here v frame) (λ b. v)))
