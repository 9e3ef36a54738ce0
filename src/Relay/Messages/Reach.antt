-- ===== src/Relay/Messages/Reach.antt =====
-- What one message of a browser makes apps/relay/index.js send, whatever the message is.
use voxhf.Relay.Messages.{route_by_set}
use voxhf.Relay.Tickets.{current_device, handle_agent_watchdog_message}
use voxhf.Relay.Revoke.{revoke_pairing, revoke_found}
use voxhf.Relay.Codes.{
  purge_expired_pairing_codes, confirm_found, refresh_pairing_code, pair, confirm_pairing,
}
use voxhf.Relay.Agents.{is_current, route_agent_update}
use voxhf.Relay.Devices.{
  agent_to_browser_types, agent_watchdog_types, browser_to_agent_types, has_type, snapshot_types,
}
use voxhf.Protocol.Shape.{ok}
use voxhf.Relay.Browsers.Guard.{route_browser_command_guarded, Forwarded, All-send, Answer}
use voxhf.Protocol.Types.{spelling, Source, MessageType}
use voxhf.Relay.Transmit.{tx_stop_message, stop_tx_at, stop_tx_if, find_device, stop_browser_tx}
use voxhf.Json.{Bindings}
use voxhf.Dict.{values, lookup, Dict}
use voxhf.Protocol.Snapshot.{object}
use voxhf.Relay.Access.{
  dropped_if, revoked, browser_authorization_key, revoke_browser_authorization, authorize_browser,
  is_agent, is_browser, authorized, can_client_access_device,
}
use voxhf.Protocol.Message.{validate_remote_message}
use voxhf.Relay.Browsers.{
  send_held, send_device_list, route_browser_command, send_cached, select_in, listed, select_found,
  whole, send_cached_device_state, select_device, Incoming,
}
use voxhf.Relay.{
  is_empty, Pairing, scoped, sent, dropped_pairing, stored_pairing, send, Rate, Device, Outcome,
  Effect, Client, Relay, Env, Config,
}
use voxhf.Prelude.{
  arith, ◌||◌, All-weaken, ◌&&◌, text_eq, not, ◌⊎◌, by_if, All-append, ◌++◌, Bool, Option, List,
  All, Text, ◌∷◌, [], none, some, true, false, ◌≡◌, refl, inl, inr,
}

-- What the receiving agent's own validation says of a forwarded message.
abbrev pub AcceptedAgain : Config → Incoming → Type 0
AcceptedAgain cfg m =
    validate_remote_message cfg.parse_url (object (whole m)) (some Source.browser) ≡ ok (whole m)

module _ (env : Env) (cfg : Config) (ws : Text) where
  -- The effects that a message of a browser may have: an answer to its own socket, a change of its
  -- own pairings, the end of its own transmission at the device that it transmits to, and a command
  -- of the allow-list, which the agent's validation accepts as it is, to a device that it may use.
  pub data Reach (r : Relay) (c : Client) (e : Effect) : Type 0 where
    answers : Answer ws e → Reach r c e
    stores :
        (id : Text)
        → (e ≡ stored_pairing c.user_id c.browser_id id)
          ⊎ (e ≡ dropped_pairing c.user_id c.browser_id id)
        → Reach r c e
    stops :
        (d : Device)
        → find_device r c.user_id c.active_tx_device_id ≡ some d
        → e ≡ sent d.socket (tx_stop_message env)
        → Reach r c e
    forwards :
        (m : Incoming)
        → has_type m.type browser_to_agent_types ≡ true
        → AcceptedAgain cfg m
        → Forwarded env cfg r c m e
        → Reach r c e

  -- Counting a message changes nothing of this.
  pub Reach-rated :
      (r : Relay) (c : Client) (cs : Dict Client) (rate : Rate) (e : Effect)
      → Reach (record r { clients = cs }) (record c { rate = rate }) e
      → Reach r c e
  unfolding can_client_access_device authorized
  Reach-rated r c cs rate e (answers a) = answers a
  Reach-rated r c cs rate e (stores id s) = stores id s
  Reach-rated r c cs rate e (stops d found s) = stops d found s
  Reach-rated r c cs rate e (forwards m listed ok_again (d, u, s)) = forwards m listed ok_again (
    d,
    record {
      selected = u.selected;
      online = u.online;
      opened = u.opened;
      accessible = u.accessible;
    },
    s,
  )

  module _ (r : Relay) (c : Client) where
    pub send-Reach : (b : Bindings) → All (Reach r c) (send env ws b)
    send-Reach b = All-send (Reach r c) env ws b (answers (b, refl))

    stop_tx-Reach :
        (o : Option Device)
        → find_device r c.user_id c.active_tx_device_id ≡ o
        → All (Reach r c) (stop_tx_at env o)
    stop_tx-Reach none e = tt
    stop_tx-Reach (some d) e =
        by_if (All (Reach r c)) (d.online && env.is_open d.socket)
          (λ h. All-send (Reach r c) env d.socket _ (stops d e refl)) (λ h. tt)

    stop_tx_if-Reach : (test : Bool) → All (Reach r c) (stop_tx_if env test r c).1
    unfolding stop_browser_tx
    stop_tx_if-Reach test =
        by_if (λ (o : Client × List Effect). All (Reach r c) o.1) test
          (λ h. stop_tx-Reach (find_device r c.user_id c.active_tx_device_id) refl) (λ h. tt)

    held-Reach : (o : Option Bindings) → All (Reach r c) (send_held env ws o)
    held-Reach none = tt
    held-Reach (some m) = send-Reach m

    cached-Reach : (ts : List MessageType) (d : Device) → All (Reach r c) (send_cached env ws ts d)
    cached-Reach [] d = tt
    cached-Reach (t ∷ ts) d =
        All-append (Reach r c) (send_held env ws (lookup (spelling t) d.last_messages)) _
          (held-Reach (lookup (spelling t) d.last_messages)) (cached-Reach ts d)

    shown-Reach :
        (b : Bindings) (d : Device)
        → All (Reach r c) (send env ws b ++ send_cached_device_state env ws d)
    unfolding send_cached_device_state
    shown-Reach b d =
        All-append (Reach r c) (send env ws b) _ (send-Reach b) (cached-Reach snapshot_types d)

    listed-Reach : (ds : List Device) → All (Reach r c) (listed env cfg ws c r ds)
    listed-Reach [] = tt
    listed-Reach (d ∷ ds) =
        by_if (All (Reach r c))
          (text_eq d.user_id c.user_id && can_client_access_device cfg r c d.device_id)
          (λ h. All-append (Reach r c) (send env ws _) _ (send-Reach _) (listed-Reach ds))
          (λ h. listed-Reach ds)

    abbrev pub Reaches : Outcome → Type 0
    Reaches o = All (Reach r c) o.1

    select_found-Reach : (id : Text) (d : Device) → Reaches (select_found env cfg ws c id d r)
    unfolding select_found
    select_found-Reach id d =
        let switching =
          not (is_empty c.active_tx_device_id) && not (text_eq c.active_tx_device_id id) in
        All-append (Reach r c) (stop_tx_if env switching r c).1 _ (stop_tx_if-Reach switching)
          (shown-Reach _ d)

    select_in-Reach : (id : Text) (o : Option Device) → Reaches (select_in env cfg ws c id o r)
    select_in-Reach id none = send-Reach _
    select_in-Reach id (some d) =
        by_if Reaches (not (can_client_access_device cfg r c id)) (λ h. send-Reach _)
          (λ h. select_found-Reach id d)

    pub select-Reach : (id : Text) → Reaches (select_device env cfg ws c id r)
    unfolding select_device
    select-Reach id =
        by_if Reaches (not (is_browser c)) (λ h. send-Reach _)
          (λ b. select_in-Reach id (lookup (scoped c.user_id id) r.devices))

    pub list-Reach : Reaches (send_device_list env cfg ws c r)
    unfolding send_device_list
    list-Reach = listed-Reach (values r.devices)

    revoke_found-Reach : (id : Text) → Reaches (revoke_found env cfg ws c id r)
    unfolding revoke_found revoke_browser_authorization
    revoke_found-Reach id =
        let key = browser_authorization_key cfg c.user_id c.browser_id in
        let changed = (revoked cfg key id r (lookup key r.authorizations)).1 in
        let mine = text_eq c.active_tx_device_id id in
        All-append (Reach r c) (stop_tx_if env mine r c).1 _ (stop_tx_if-Reach mine) (
          All-append (Reach r c) (dropped_if cfg changed c.user_id c.browser_id id) _
            (by_if (All (Reach r c)) changed (λ h. (stores id (inr refl), tt)) (λ h. tt))
            (send-Reach _))

    pub revoke-Reach : (id : Text) → Reaches (revoke_pairing env cfg ws c id r)
    unfolding revoke_pairing
    revoke-Reach id =
        by_if Reaches (not (is_browser c)) (λ h. send-Reach _)
          λ b.
            by_if Reaches (is_empty c.browser_id || not (can_client_access_device cfg r c id))
              (λ h. send-Reach _) (λ h. revoke_found-Reach id)

    pair-Reach :
        (code : Text) (p : Pairing) (d : Device) (r' : Relay)
        → Reaches (pair env cfg ws c code p d r')
    unfolding pair authorize_browser
    pair-Reach code p d r' = (stores p.device_id (inl refl), shown-Reach _ d)

    confirm_found-Reach :
        (code : Text) (o : Option (Pairing × Device)) (r' : Relay)
        → Reaches (confirm_found env cfg ws c code o r')
    confirm_found-Reach code none r' = send-Reach _
    confirm_found-Reach code (some (p, d)) r' = pair-Reach code p d r'

    pub confirm-Reach : (value : Text) → Reaches (confirm_pairing env cfg ws c value r)
    unfolding confirm_pairing
    confirm-Reach value =
        by_if Reaches (not (is_browser c)) (λ h. send-Reach _)
          λ b.
            by_if Reaches (is_empty c.browser_id) (λ h. send-Reach _)
              λ n. confirm_found-Reach _ _ (purge_expired_pairing_codes env.now r)

    -- Requests that only an agent can make.
    pub refresh-Reach : is_agent c ≡ false → Reaches (refresh_pairing_code env cfg ws c r)
    unfolding refresh_pairing_code
    refresh-Reach b =
        by_if Reaches (not cfg.require_pairing) (λ h. tt)
          λ h.
            by_if Reaches (not (is_agent c) || is_empty c.device_id) (λ h. send-Reach _)
              (λ e. absurd (ground (arith, e, b)))

    watchdog-Reach :
        (m : Incoming)
        → is_agent c ≡ false
        → Reaches (handle_agent_watchdog_message env cfg ws c m r)
    unfolding handle_agent_watchdog_message
    watchdog-Reach m b =
        by_if Reaches (not (is_agent c) || not (is_current ws (current_device r c)))
          (λ h. send-Reach _) (λ e. absurd (ground (arith, e, b)))

    update-Reach :
        (m : Incoming) → is_agent c ≡ false → Reaches (route_agent_update env cfg ws c m r)
    unfolding route_agent_update
    update-Reach m b =
        by_if Reaches (not (is_agent c) || is_empty c.device_id) (λ h. send-Reach _)
          (λ e. absurd (ground (arith, e, b)))

    command-Reach :
        (m : Incoming)
        → has_type m.type browser_to_agent_types ≡ true
        → AcceptedAgain cfg m
        → Reaches (route_browser_command env cfg ws c m r)
    command-Reach m listed again =
        All-weaken (λ e. Answer ws e ⊎ Forwarded env cfg r c m e) (Reach r c) _ (λ e s. reached e s)
          (route_browser_command_guarded env cfg r c ws m).0
      where
        reached : (e : Effect) → Answer ws e ⊎ Forwarded env cfg r c m e → Reach r c e
        reached e (inl a) = answers a
        reached e (inr f) = forwards m listed again f

    pub routed-Reach :
        (m : Incoming)
        → is_agent c ≡ false
        → AcceptedAgain cfg m
        → Reaches (route_by_set env cfg ws c m r)
    routed-Reach m b again =
        by_if Reaches (has_type m.type agent_watchdog_types) (λ h. watchdog-Reach m b)
          λ h.
            by_if Reaches (has_type m.type browser_to_agent_types) (λ l. command-Reach m l again)
              λ l.
                by_if Reaches (has_type m.type agent_to_browser_types) (λ k. update-Reach m b)
                  (λ k. send-Reach _)
