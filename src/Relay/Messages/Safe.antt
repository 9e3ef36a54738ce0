-- ===== src/Relay/Messages/Safe.antt =====
-- The `message` callback of apps/relay/index.js on any text that a browser sends.
use voxhf.Protocol.Message.Laws.{validate_remote_message_idempotent}
use voxhf.Protocol.Snapshot.{object}
use voxhf.Relay.Messages.Forward.{incoming-validated}
use voxhf.Protocol.Shape.Laws.{or_fail-eq-ok, unless-eq-ok}
use voxhf.Relay.Devices.{should_rate_limit_browser_command, same_type}
use voxhf.Dict.{insert, Dict}
use voxhf.Relay.Messages.Reach.{
  routed-Reach, select-Reach, list-Reach, revoke-Reach, confirm-Reach, refresh-Reach, send-Reach,
  Reach-rated, Reach, AcceptedAgain,
}
use voxhf.Relay.Access.{is_agent}
use voxhf.Relay.Browsers.{Incoming}
use voxhf.Protocol.Shape.{fail, ok, Result}
use voxhf.Protocol.Types.{Source, MessageType, allows}
use voxhf.Json.{Bindings}
use voxhf.Relay.Messages.{
  accepted, count_of, next_rate, in_pairings, in_commands, validated, limit_pairings,
  limit_commands, in_messages, incoming, Bucket, allow_rate, on_text, handle_message,
}
use voxhf.Protocol.Message.{validate_remote_message, max_json_message_bytes, parse_remote_json}
use voxhf.Relay.{Rate, Outcome, Client, Relay, Config, Env}
use voxhf.Prelude.{
  sym, subst, byte_length, arith, All-weaken, leb, by_if, ℕ, All, Text, some, true, false, ◌≡◌,
  refl,
}

module _ (env : Env) (cfg : Config) (ws : Text) where
  handle-Reach :
      (r : Relay) (c : Client) (id : Text) (type : MessageType) (p : Bindings)
      → is_agent c ≡ false
      → allows type Source.browser ≡ true
      → AcceptedAgain cfg (record { id = id; type = type; payload = p })
      → All
          (Reach env cfg ws r c)
          (handle_message env cfg ws c (record { id = id; type = type; payload = p }) r).1
  unfolding handle_message allows
  handle-Reach r c id MessageType.ping p b a again = send-Reach env cfg ws r c _
  handle-Reach r c id MessageType.agent_hello p b a again = absurd (ground arith)
  handle-Reach r c id MessageType.pairing_begin p b a again = refresh-Reach env cfg ws r c b
  handle-Reach r c id MessageType.pairing_confirm p b a again = confirm-Reach env cfg ws r c _
  handle-Reach r c id MessageType.pairing_revoke p b a again = revoke-Reach env cfg ws r c _
  handle-Reach r c id MessageType.device_list p b a again = list-Reach env cfg ws r c
  handle-Reach r c id MessageType.device_select p b a again = select-Reach env cfg ws r c _
  handle-Reach r c id other p b a again =
      routed-Reach env cfg ws r c (record { id = id; type = other; payload = p }) b again

  module _ (r : Relay) (c : Client) where
    -- What allowRate leaves to do, or its error.
    allow-Reach :
        (bucket : Bucket) (limit : ℕ) (next : Client → Relay → Outcome)
        → ((rate : Rate) (cs : Dict Client)
            → All
                (Reach env cfg ws (record r { clients = cs }) (record c { rate = rate }))
                (next (record c { rate = rate }) (record r { clients = cs })).1)
        → All (Reach env cfg ws r c) (allow_rate env cfg ws c bucket limit next r).1
    unfolding allow_rate
    allow-Reach bucket limit next h =
        let rate = next_rate cfg.rate_window_ms env.now bucket c.rate in
        let c' : Client = record c { rate = rate } in
        let cs = insert ws c' r.clients in
        by_if (λ (o : Outcome). All (Reach env cfg ws r c) o.1) (leb (count_of bucket rate) limit)
          (λ e.
            All-weaken (Reach env cfg ws (record r { clients = cs }) c') (Reach env cfg ws r c) _
              (λ x y. Reach-rated env cfg ws r c cs rate x y) (h rate cs))
          (λ e. send-Reach env cfg ws r c _)

  limit_pairings-Reach :
      (r : Relay) (c : Client) (m : Incoming)
      → is_agent c ≡ false
      → allows m.type Source.browser ≡ true
      → AcceptedAgain cfg m
      → All (Reach env cfg ws r c) (limit_pairings env cfg ws m c r).1
  limit_pairings-Reach r c m b a again =
      by_if (λ (o : Outcome). All (Reach env cfg ws r c) o.1)
        (same_type m.type MessageType.pairing_confirm)
        (λ e.
          allow-Reach r c in_pairings cfg.max_pairing_attempts
            (λ c'. handle_message env cfg ws c' m)
            (λ rate cs.
              handle-Reach (record r { clients = cs }) (record c { rate = rate }) m.id m.type
                m.payload b a again))
        (λ e. handle-Reach r c m.id m.type m.payload b a again)

  limit_commands-Reach :
      (r : Relay) (c : Client) (m : Incoming)
      → is_agent c ≡ false
      → allows m.type Source.browser ≡ true
      → AcceptedAgain cfg m
      → All (Reach env cfg ws r c) (limit_commands env cfg ws m c r).1
  limit_commands-Reach r c m b a again =
      by_if (λ (o : Outcome). All (Reach env cfg ws r c) o.1)
        (should_rate_limit_browser_command m.type)
        (λ e. allow-Reach r c in_commands cfg.max_commands (limit_pairings env cfg ws m) (λ rate cs.
          limit_pairings-Reach (record r { clients = cs }) (record c { rate = rate }) m b a again))
        (λ e. limit_pairings-Reach r c m b a again)

  validated-Reach :
      (r : Relay) (c : Client) (result : Result Bindings)
      → is_agent c ≡ false
      → ((q : Bindings)
          → result ≡ ok q
          → (m : Incoming) × (incoming q ≡ some m)
            × (allows m.type Source.browser ≡ true)
            × AcceptedAgain cfg m)
      → All (Reach env cfg ws r c) (validated env cfg ws c result r).1
  validated-Reach r c (fail error) b h = send-Reach env cfg ws r c _
  validated-Reach r c (ok q) b h =
      let (m, read, a, again) = h q refl in
      subst (λ o. All (Reach env cfg ws r c) (accepted env cfg ws c o r).1) (sym read)
        (limit_commands-Reach r c m b a again)

  parsed-facts :
      (text : Text) (q : Bindings)
      → parse_remote_json cfg.parse_url cfg.parse_json text (some Source.browser) ≡ ok q
      → (m : Incoming) × (incoming q ≡ some m)
        × (allows m.type Source.browser ≡ true)
        × AcceptedAgain cfg m
  unfolding parse_remote_json
  parsed-facts text q e =
      let (short, e1) = unless-eq-ok (leb (byte_length text) max_json_message_bytes) _ _ e in
      let (v, parsed, e2) = or_fail-eq-ok (cfg.parse_json text) _ _ e1 in
      let (m, read, same, a) = incoming-validated cfg.parse_url v (some Source.browser) e2 in
      (
        m,
        read,
        a,
        subst (λ x. validate_remote_message cfg.parse_url (object x) (some Source.browser) ≡ ok x)
            (sym same)
            (validate_remote_message_idempotent cfg.parse_url (some Source.browser) v e2),
      )

  -- Whatever text a browser sends, every effect is an answer to its own socket, a change of its own
  -- pairings, a stop of its own transmission at the device that it transmits to, or one command of
  -- the allow-list, which the agent's validation accepts unchanged, to the device that the browser
  -- selected, which is online and which the browser may use.
  pub on_text-Reach :
      (r : Relay) (c : Client) (text : Text)
      → c.source ≡ Source.browser
      → All (Reach env cfg ws r c) (on_text env cfg ws c text r).1
  unfolding on_text
  on_text-Reach r c text source =
      allow-Reach r c in_messages cfg.max_messages
        (λ c'.
          validated env cfg ws c'
            (parse_remote_json cfg.parse_url cfg.parse_json text (some c'.source)))
        (λ rate cs.
          validated-Reach (record r { clients = cs }) (record c { rate = rate })
            (parse_remote_json cfg.parse_url cfg.parse_json text (some c.source)) (rw source refl)
            (λ q e. parsed-facts text q (rw source at e)))
