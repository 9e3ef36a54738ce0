-- ===== src/Relay/Valid/Run.antt =====
-- The maps `clients` and `devices` of apps/relay/index.js after any sequence of events.
use voxhf.Relay.Messages.{handle_binary_message, on_text}
use voxhf.Relay.Valid.Announce.{old-Announced}
use voxhf.Relay.Valid.Agents.{stays, remove_client-IsValid}
use voxhf.Relay.Valid.Trace.{binary-IsValid, on_text-IsValid}
use voxhf.Watchdog.{initial}
use voxhf.Relay.Valid.{Announced, IsValid}
use voxhf.Relay.Connection.{new_client, Decision, connection}
use voxhf.Relay.Agents.{remove_found, remove_client}
use voxhf.Dict.{remove, lookup}
use voxhf.Relay.{is_empty, Client, Env, Device, Relay, Config}
use voxhf.Prelude.{
  ap, ◌∙◌, ℕ, sym, List, text_eq_iff, subst, Bool-cases, text_eq, arith, Option-cases, Text, [],
  none, some, false, ◌≡◌, inl, inr,
}

abbrev pub empty_relay : Relay
empty_relay = record {
  clients = [];
  devices = [];
  pairing_codes = [];
  authorizations = [];
  watchdog = initial;
}

-- One event of a socket: it connects, a text or a binary message arrives while `clients` has an entry
-- for it, or it is gone. closeClientsForUser, closeAgentClientsForUser and closeBrowserSessionClients
-- call removeClient on a socket that is still closing; a message that such a socket delivers late,
-- with no entry any more, is no step.
pub data Step (cfg : Config) (r : Relay) : Relay → Type 0 where
  connects :
      (env : Env) (ws : Text) (d : Decision)
      → lookup ws r.clients ≡ none
      → Step cfg r (connection cfg env ws d r).0
  texts :
      (env : Env) (ws text : Text) (c : Client)
      → is_empty env.fresh_device_id ≡ false
      → lookup ws r.clients ≡ some c
      → Step cfg r (on_text env cfg ws c text r).0
  binaries :
      (env : Env) (ws : Text) (frame : List ℕ) (c : Client)
      → lookup ws r.clients ≡ some c
      → Step cfg r (handle_binary_message env cfg ws c frame r).0
  leaves : (env : Env) (ws : Text) → Step cfg r (remove_client env cfg ws r).0

pub data Reachable (cfg : Config) : Relay → Type 0 where
  at_start : Reachable cfg empty_relay
  after : (r r' : Relay) → Reachable cfg r → Step cfg r r' → Reachable cfg r'

-- A socket with no entry holds no device.
elsewhere :
    (ws : Text) (r : Relay) (k : Text) (d : Device)
    → lookup ws r.clients ≡ none
    → Announced r.clients k d
    → text_eq ws d.socket ≡ false
elsewhere ws r k d unknown a = elim (Bool-cases (text_eq ws d.socket)) [
  | inr other ↦ other
  | inl same ↦
      let at_ws = (text_eq_iff ws d.socket).0 same in
      absurd (ground (arith, sym unknown ∙ (ap (λ t. lookup t r.clients) at_ws ∙ a.connected)))
]

module _ (cfg : Config) where
  connection-IsValid :
      (env : Env) (ws : Text) (x : Decision) (r : Relay)
      → lookup ws r.clients ≡ none
      → IsValid r
      → IsValid (connection cfg env ws x r).0
  unfolding connection
  connection-IsValid env ws x r unknown v k d e =
      old-Announced r ws (new_client env.now x) k d (v k d e) (elsewhere ws r k d unknown (v k d e))

  leaves-IsValid :
      (env : Env) (ws : Text) (r : Relay) → IsValid r → IsValid (remove_client env cfg ws r).0
  unfolding remove_client
  leaves-IsValid env ws r v = elim (Option-cases (lookup ws r.clients)) [
    | inr (c, here) ↦ remove_client-IsValid ws c r here v env cfg
    | inl unknown ↦
        subst
          (λ o. IsValid (remove_found env cfg ws o (record r { clients = remove ws r.clients })).0)
          (sym unknown) (λ k d e. stays ws r k d (v k d e) (elsewhere ws r k d unknown (v k d e)))
  ]

  event-IsValid : {r r' : Relay} → Step cfg r r' → IsValid r → IsValid r'
  event-IsValid {r} (connects env ws d unknown) v = connection-IsValid env ws d r unknown v
  event-IsValid {r} (texts env ws text c fresh here) v =
      on_text-IsValid env cfg ws fresh text c r here v
  event-IsValid {r} (binaries env ws frame c here) v = binary-IsValid env cfg ws frame c r here v
  event-IsValid {r} (leaves env ws) v = leaves-IsValid env ws r v

  -- Whatever connects, sends while it has an entry in `clients`, and disconnects, in any order, each
  -- device that the relay holds stands under the key of its user and its id, and its socket has an
  -- entry, of an agent of that user, that announced this device last.
  pub reachable-Announced :
      {r : Relay}
      → Reachable cfg r
      → (k : Text) (d : Device) → lookup k r.devices ≡ some d
      → Announced r.clients k d
  unfolding lookup
  reachable-Announced at_start k d e = absurd (ground arith)
  reachable-Announced (after r r' h step) k d e = event-IsValid step (reachable-Announced h) k d e
