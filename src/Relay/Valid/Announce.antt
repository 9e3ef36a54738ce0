-- ===== src/Relay/Valid/Announce.antt =====
-- registerAgent, routeAgentUpdate and routeAgentAudio of apps/relay/index.js keep the maps in step.
use voxhf.Relay.Valid.Agents.{not_here, kept-Others}
use voxhf.Dict.Laws.{lookup-insert}
use voxhf.Json.{Bindings}
use voxhf.Relay.Access.{is_agent}
use voxhf.Protocol.Types.{spelling, MessageType}
use voxhf.Relay.Devices.{snapshot_types, has_type, remember_device_snapshot}
use voxhf.Relay.Browsers.{whole, Incoming}
use voxhf.Relay.Agents.{
  version_refused, watches, for_clients, without_old, text_field, remembered, announced_id,
  agent_device, route_agent_update, register_device, register_agent,
}
use voxhf.Relay.Valid.{Announced, IsValid}
use voxhf.Dict.{insert, lookup}
use voxhf.Relay.{
  Outcome, closing_later, relay_error, send, scoped, is_empty, Device, Relay, Client, Config, Env,
}
use voxhf.Prelude.{
  ◌∙◌, ◌||◌, sym, not, ap, text_eq_iff, subst, ◌++◌, text_eq_refl, some_inj, codes, by_if,
  Bool-cases, text_eq, Option, Text, ◌∷◌, [], none, some, true, false, ◌≡◌, refl, inl, inr,
}

-- A device of another socket stays announced when this socket's entry changes.
pub old-Announced :
    (r : Relay) (ws : Text) (c' : Client) (k : Text) (d : Device)
    → Announced r.clients k d
    → text_eq ws d.socket ≡ false
    → Announced (insert ws c' r.clients) k d
old-Announced r ws c' k d a other = record {
  key = a.key;
  named = a.named;
  owner = a.owner;
  connected = rw (lookup-insert ws d.socket c' r.clients, other) a.connected;
  agent = a.agent;
  owner_key = a.owner_key;
  owner_user = a.owner_user;
  owner_device = a.owner_device;
}

module _ (env : Env) (cfg : Config) (ws : Text) (c : Client) (r : Relay)
    (here : lookup ws r.clients ≡ some c) (v : IsValid r) where
  abbrev announcing : Text → Incoming → Client
  announcing id m = record c {
    device_key = scoped c.user_id id;
    device_id = id;
    device_name = text_field "deviceName" m.payload;
  }

  abbrev new_device : Text → Incoming → Device
  new_device id m =
      agent_device env cfg ws c id (scoped c.user_id id) m (lookup (scoped c.user_id id) r.devices)

  new-Announced :
      (id : Text) (m : Incoming)
      → is_agent c ≡ true
      → is_empty id ≡ false
      → Announced (insert ws (announcing id m) r.clients) (scoped c.user_id id) (new_device id m)
  new-Announced id m agent named = record {
    key = refl;
    named = named;
    owner = announcing id m;
    connected = rw (lookup-insert ws ws (announcing id m) r.clients, text_eq_refl ws) refl;
    agent = agent;
    owner_key = refl;
    owner_user = refl;
    owner_device = refl;
  }

  register_device-IsValid :
      (id : Text) (m : Incoming)
      → is_agent c ≡ true
      → is_empty id ≡ false
      → IsValid (register_device env cfg ws c id m r).0
  unfolding register_device
  register_device-IsValid id m agent named k d e =
      let key = scoped c.user_id id in
      let rest = without_old env cfg c key r.devices in
      elim (Bool-cases (text_eq key k)) [
        | inl same ↦
            let new = some_inj (rw (lookup-insert key k (new_device id m) rest, same) at e) in
            subst (λ x. Announced (insert ws (announcing id m) r.clients) x d)
              ((text_eq_iff key k).0 same)
              (subst (Announced (insert ws (announcing id m) r.clients) key) new
                (new-Announced id m agent named))
        | inr other ↦
            let left = rw (lookup-insert key k (new_device id m) rest, other) at e in
            let (held, apart) = kept-Others ws c r here v env cfg key k d other left in
            old-Announced r ws (announcing id m) k d (v k d held) (not_here ws c r here v d apart)
      ]

  announced_id-named :
      (m : Incoming)
      → is_empty env.fresh_device_id ≡ false
      → is_empty (announced_id env cfg m) ≡ false
  announced_id-named m fresh =
      by_if (λ t. is_empty t ≡ false) (is_empty (text_field "deviceId" m.payload)) (λ h. fresh)
        (λ h. h)

  pub register_agent-IsValid :
      (m : Incoming)
      → is_agent c ≡ true
      → is_empty env.fresh_device_id ≡ false
      → IsValid (register_agent env cfg ws c m r).0
  unfolding register_agent
  register_agent-IsValid m agent fresh =
      let refusal =
        send env ws (
          relay_error env (codes "agent-update-required")
            (codes "VoxHF " ++ (cfg.minimum_agent_version ++ codes " or newer is required."))
            (codes "agent-version-" ++ m.id))
        ++ (closing_later ws (codes "agent update required") ∷ []) in
      by_if (λ (o : Outcome). IsValid o.0)
        (version_refused env cfg (text_field "agentVersion" m.payload)) {x = (r, refusal)}
        {y = register_device env cfg ws c (announced_id env cfg m) m r} (λ h. v)
        (λ h. register_device-IsValid (announced_id env cfg m) m agent (announced_id-named m fresh))

  remember-Announced :
      (type : MessageType) (b : Bindings) (k : Text) (d : Device)
      → Announced r.clients k d
      → Announced r.clients k (remember_device_snapshot type b d)
  unfolding remember_device_snapshot
  remember-Announced type b k d a =
      by_if (Announced r.clients k) (has_type type snapshot_types)
        {x = record d { last_messages = insert (spelling type) b d.last_messages }} {y = d}
        (λ h. record {
          key = a.key;
          named = a.named;
          owner = a.owner;
          connected = a.connected;
          agent = a.agent;
          owner_key = a.owner_key;
          owner_user = a.owner_user;
          owner_device = a.owner_device;
        })
        (λ h. a)

  remembered-IsValid :
      (m : Incoming) (o : Option Device)
      → lookup c.device_key r.devices ≡ o
      → IsValid (remembered env cfg c m o r)
  remembered-IsValid m none e k d' e' = v k d' e'
  remembered-IsValid m (some d) e k d' e' =
      let new = remember_device_snapshot m.type (whole m) d in
      elim (Bool-cases (text_eq c.device_key k)) [
        | inl same ↦
            let is_new = some_inj (rw (lookup-insert c.device_key k new r.devices, same) at e') in
            let at_k = (text_eq_iff c.device_key k).0 same in
            subst (Announced r.clients k) is_new (
              remember-Announced m.type (whole m) k d
                (v k d (ap (λ t. lookup t r.devices) (sym at_k) ∙ e)))
        | inr other ↦ v k d' (rw (lookup-insert c.device_key k new r.devices, other) at e')
      ]

  pub route_agent_update-IsValid : (m : Incoming) → IsValid (route_agent_update env cfg ws c m r).0
  unfolding route_agent_update
  route_agent_update-IsValid m =
      let error = send env ws (
        relay_error env (codes "invalid-source")
          (spelling m.type ++ codes " requires an announced agent device")
          (codes "route-error-" ++ m.id)) in
      let sends =
        for_clients (watches c.user_id c.device_id) (λ target. send env target (whole m))
          r.clients in
      by_if (λ (o : Outcome). IsValid o.0) (not (is_agent c) || is_empty c.device_id)
        {x = (r, error)} {y = (remembered env cfg c m (lookup c.device_key r.devices) r, sends)}
        (λ h. v) (λ h. remembered-IsValid m (lookup c.device_key r.devices) refl)
