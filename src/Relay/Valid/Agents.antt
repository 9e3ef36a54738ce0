-- ===== src/Relay/Valid/Agents.antt =====
-- The announcements, the updates and the end of agents keep the maps of apps/relay/index.js in step.
use voxhf.Relay.Codes.{delete_pairing_codes_for_device}
use voxhf.Dict.Laws.{lookup-remove}
use voxhf.Relay.Agents.{
  remove_found, tx_stopped, is_current, without_old, remove_agent, remove_client,
}
use voxhf.Relay.Access.{is_agent}
use voxhf.Relay.Valid.{IsValid, Announced}
use voxhf.Dict.{Dict, remove, lookup}
use voxhf.Relay.{Outcome, Config, Env, scoped, Device, is_empty, Relay, Client}
use voxhf.Prelude.{
  if◌then◌else◌, by_if, ◌++◌, ◌||◌, ◌&&◌, text_eq_iff, not, arith, Bool-cases, subst, ap, ◌∙◌, sym,
  some_inj, text_eq, Text, ◌∷◌, [], some, true, false, ◌≡◌, inl, inr,
}

scoped-not-empty : (user id : Text) → is_empty (scoped user id) ≡ false
scoped-not-empty [] id = ground arith
scoped-not-empty (c ∷ user) id = ground arith

-- A device of another socket stays announced when this socket's connection is gone.
pub stays :
    (ws : Text) (r : Relay) (k : Text) (d : Device)
    → Announced r.clients k d
    → text_eq ws d.socket ≡ false
    → Announced (remove ws r.clients) k d
stays ws r k d a other = record {
  key = a.key;
  named = a.named;
  owner = a.owner;
  connected = rw (lookup-remove ws d.socket r.clients, other) a.connected;
  agent = a.agent;
  owner_key = a.owner_key;
  owner_user = a.owner_user;
  owner_device = a.owner_device;
}

-- removeClient takes the devices of the socket with it.
module _ (ws : Text) (c : Client) (r : Relay) (here : lookup ws r.clients ≡ some c)
    (v : IsValid r) where
  owner-is :
      (k : Text) (d : Device)
      → lookup k r.devices ≡ some d
      → d.socket ≡ ws
      → (c.device_key ≡ k) × (is_agent c ≡ true) × (is_empty c.device_id ≡ false)
  owner-is k d e at_ws =
      let a = v k d e in
      let mine : a.owner ≡ c =
        some_inj (sym a.connected ∙ (ap (λ t. lookup t r.clients) at_ws ∙ here)) in
      (
        subst (λ (x : Client). x.device_key ≡ k) mine a.owner_key,
        subst (λ (x : Client). is_agent x ≡ true) mine a.agent,
        subst (λ t. is_empty t ≡ false) (sym a.owner_device ∙ ap (λ (x : Client). x.device_id) mine)
            a.named,
      )

  pub not_here : (d : Device) → (d.socket ≡ ws → ⊥) → text_eq ws d.socket ≡ false
  not_here d apart = elim (Bool-cases (text_eq ws d.socket)) [
    | inl same ↦ absurd (apart (sym ((text_eq_iff ws d.socket).0 same)))
    | inr other ↦ other
  ]

  -- Devices that are left, and belong to other sockets.
  abbrev Others : Dict Device → Type 0
  Others devices =
      (k : Text) (d : Device)
      → lookup k devices ≡ some d
      → (lookup k r.devices ≡ some d) × (d.socket ≡ ws → ⊥)

  apart-Announced :
      (devices : Dict Device)
      → Others devices
      → (k : Text) (d : Device) → lookup k devices ≡ some d
      → Announced (remove ws r.clients) k d
  apart-Announced devices left k d e =
      let (held, apart) = left k d e in stays ws r k d (v k d held) (not_here d apart)

  no_agent-Others : not (is_agent c) || is_empty c.device_id ≡ true → Others r.devices
  no_agent-Others h k d e = (
    e,
    λ at_ws.
        let (key, agent, named) = owner-is k d e at_ws in absurd (ground (arith, h, agent, named)),
  )

  superseded-Others : not (is_current ws (lookup c.device_key r.devices)) ≡ true → Others r.devices
  superseded-Others h k d e = (
    e,
    λ at_ws.
        let (key, agent, named) = owner-is k d e at_ws in
        let found = ap (λ t. lookup t r.devices) key ∙ e in
        let same = (text_eq_iff d.socket ws).1 at_ws in
        let current : is_current ws (lookup c.device_key r.devices) ≡ true =
          subst (λ o. is_current ws o ≡ true) (sym found) same in
        absurd (ground (arith, h, current)),
  )

  removed-Others : Others (remove c.device_key r.devices)
  removed-Others k d e = elim (Bool-cases (text_eq c.device_key k)) [
    | inl same ↦ absurd (ground (arith, lookup-remove c.device_key k r.devices, same, e))
    | inr other ↦
        let held = rw (lookup-remove c.device_key k r.devices, other) at e in
        (
          held,
          λ at_ws.
              let (key, agent, named) = owner-is k d held at_ws in
              let same = (text_eq_iff c.device_key k).1 key in absurd (ground (arith, same, other)),
        )
  ]

  -- After removeClient no device is left whose socket is gone.
  pub remove_client-IsValid : (env : Env) (cfg : Config) → IsValid (remove_client env cfg ws r).0
  unfolding remove_client remove_agent delete_pairing_codes_for_device
  remove_client-IsValid env cfg =
      let r' : Relay = record r { clients = remove ws r.clients } in
      let stops = tx_stopped env cfg r' c in
      let out = remove_agent env cfg c r' in
      let gone : Outcome = (out.0, stops ++ out.1) in
      let current = is_current ws (lookup c.device_key r.devices) in
      subst (λ o. IsValid (remove_found env cfg ws o r').0) (sym here)
        (by_if (λ (o : Outcome). IsValid o.0) (not (is_agent c) || is_empty c.device_id)
          {x = (r', stops)} {y = if not current then (r', stops) else gone}
          (λ h. apart-Announced r.devices (no_agent-Others h))
          (λ h.
            by_if (λ (o : Outcome). IsValid o.0) (not current) {x = (r', stops)} {y = gone}
              (λ e. apart-Announced r.devices (superseded-Others e))
              (λ e. apart-Announced (remove c.device_key r.devices) removed-Others)))

  -- The devices that another socket announced, when this one announces `key`.
  pub kept-Others :
      (env : Env) (cfg : Config) (key k : Text) (d : Device)
      → text_eq key k ≡ false
      → lookup k (without_old env cfg c key r.devices) ≡ some d
      → (lookup k r.devices ≡ some d) × (d.socket ≡ ws → ⊥)
  kept-Others env cfg key k d other e =
      elim (Bool-cases (not (is_empty c.device_key) && not (text_eq c.device_key key))) [
        | inl moved ↦ removed-Others k d (rw moved at e)
        | inr same_place ↦
            let held = rw same_place at e in
            (
              held,
              λ at_ws.
                  let (at_k, agent, named) = owner-is k d held at_ws in
                  let full = scoped-not-empty d.user_id d.device_id in
                  let filled =
                    subst (λ t. is_empty t ≡ false) (sym (at_k ∙ (v k d held).key)) full in
                  let to_key =
                    (text_eq_iff c.device_key key).0 (ground (arith, same_place, filled)) in
                  let same = (text_eq_iff key k).1 (sym to_key ∙ at_k) in
                  absurd (ground (arith, same, other)),
            )
      ]
