-- ===== src/Relay/Revoke.antt =====
-- How a browser loses a device: revokePairing, and disconnectRevokedPairingClients for the
-- administrator, in apps/relay/index.js.
pub mod Laws
use voxhf.Json.{str}
use voxhf.Protocol.Types.{MessageType}
use voxhf.Relay.Access.{
  can_client_access_device, browser_authorization_key, revoke_browser_authorization, is_browser,
}
use voxhf.Relay.Transmit.{stop_tx_if}
use voxhf.Dict.{Dict}
use voxhf.Relay.{
  create_message, set_client, send, refuse, is_empty, Effect, Outcome, Relay, Client, Config, Env,
}
use voxhf.Prelude.{
  true, ◌||◌, codes, ◌++◌, ◌&&◌, text_eq, not, if◌then◌else◌, List, Bool, Text, ◌∷◌, [], none, some,
  false,
}

module _ (env : Env) (cfg : Config) where
  -- `if (client.selectedDeviceId === deviceId) client.selectedDeviceId = ''`
  abbrev pub deselect : Text → Client → Client
  deselect id c =
      if text_eq c.selected_device_id id then record c { selected_device_id = [] } else c

  -- The end of revokePairing.
  unfoldable pub revoke_found : Text → Client → Text → Relay → Outcome
  revoke_found ws c id r =
      let (c', effects) = stop_tx_if env (text_eq c.active_tx_device_id id) r c in
      let (r', more) = revoke_browser_authorization cfg c.user_id c.browser_id id r in
      (
        set_client ws (deselect id c') r',
        effects
            ++ (more
                ++ send env ws (
                    create_message env MessageType.pairing_revoked ((codes "deviceId", str id) ∷ [])
                      (codes "revoked-" ++ id))),
      )

  unfoldable pub revoke_pairing : Text → Client → Text → Relay → Outcome
  revoke_pairing ws c id r =
      if not (is_browser c)
      then refuse env ws (codes "invalid-source")
          (codes "Only browser clients can revoke browser pairing") [] r
      else if is_empty c.browser_id || not (can_client_access_device cfg r c id)
      then refuse env ws (codes "pairing-not-found")
          (codes "This browser is not paired with that agent") [] r
      else revoke_found ws c id r

  -- One round of disconnectRevokedPairingClients.
  abbrev pub revoked_client : Text → Text → Text → Client → Bool
  revoked_client user browser_hash id c =
      text_eq c.user_id user
      && is_browser c
      && not (is_empty c.browser_id)
      && text_eq (browser_authorization_key cfg user c.browser_id) browser_hash

  abbrev pub disconnect_one : Text → Text → Client → Relay → Client × List Effect
  disconnect_one id ws c r =
      let (c', effects) = stop_tx_if env (text_eq c.active_tx_device_id id) r c in
      (
        deselect id c',
        effects
            ++ send env ws (
                create_message env MessageType.pairing_revoked ((codes "deviceId", str id) ∷ [])
                  (codes "admin-revoked-" ++ id)),
      )

  abbrev pub disconnect_each : Text → Text → Text → Relay → Dict Client → Dict Client × List Effect
  disconnect_each user browser_hash id r [] = ([], [])
  disconnect_each user browser_hash id r ((ws, c) ∷ m) =
      let (rest, more) = disconnect_each user browser_hash id r m in
      let (c', effects) = disconnect_one id ws c r in
      if revoked_client user browser_hash id c
      then ((ws, c') ∷ rest, effects ++ more)
      else ((ws, c) ∷ rest, more)

  unfoldable pub disconnect_revoked_pairing_clients : Text → Text → Text → Relay → Outcome
  disconnect_revoked_pairing_clients user browser_hash id r =
      let (cs, effects) = disconnect_each user browser_hash id r r.clients in
      (record r { clients = cs }, effects)
