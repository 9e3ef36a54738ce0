-- ===== src/Relay/Codes.antt =====
-- Pairing codes: refreshPairingCode, confirmPairing, generatePairingCode, normalizePairingCode,
-- purgeExpiredPairingCodes and deletePairingCodesForDevice of apps/relay/index.js.
pub mod Once
pub mod Fresh
use voxhf.Relay.Browsers.{send_cached_device_state}
use voxhf.Json.{str}
use voxhf.Protocol.Types.{MessageType}
use voxhf.Relay.Access.{is_browser, is_agent, authorize_browser}
use voxhf.Dict.{remove, insert, lookup, keep_values, Dict}
use voxhf.Relay.{
  public_device, create_message, set_client, send, scoped, is_empty, refuse, Outcome, Device,
  Client, Relay, Pairing, Config, Env,
}
use voxhf.Prelude.{
  true, drop, ◌++◌, codes, ◌+◌, ◌&&◌, take, leb, is_digit, ◌||◌, text_eq, not, length, is_none, ltb,
  is_upper, Option, Bool, if◌then◌else◌, List, ℕ, Text, ◌∷◌, [], none, some, false,
}

unfoldable pub purge_expired_pairing_codes : ℕ → Relay → Relay
purge_expired_pairing_codes now r = record r {
  pairing_codes = keep_values (λ p. not (leb p.expires_at_ms now)) r.pairing_codes;
}

abbrev pub of_device : Text → Text → Pairing → Bool
of_device user id p = text_eq p.user_id user && text_eq p.device_id id

unfoldable pub delete_pairing_codes_for_device : Text → Text → Relay → Relay
delete_pairing_codes_for_device user id r = record r {
  pairing_codes = keep_values (λ p. not (of_device user id p)) r.pairing_codes;
}

-- The first candidate that no code of the map is.
abbrev pub first_unused : Text → List Text → Dict Pairing → Text
first_unused last [] m = last
first_unused last (code ∷ rest) m =
    if is_none (lookup code m) then code else first_unused last rest m

-- raw.length > 3 ? `${raw.slice(0, 3)}-${raw.slice(3)}` : raw
abbrev pub dashed : Text → Text
dashed raw = if ltb 3 (length raw) then take 3 raw ++ (b'-' ∷ drop 3 raw) else raw

-- `replace(/[^A-Z0-9]/g, '')`
abbrev pub only_code_chars : Text → Text
only_code_chars [] = []
only_code_chars (c ∷ s) =
    if is_upper c || is_digit c then c ∷ only_code_chars s else only_code_chars s

module _ (env : Env) (cfg : Config) where
  -- The code, after at most 20 attempts, and the relay without the codes that have run out.
  unfoldable pub generate_pairing_code : Relay → Text × Relay
  generate_pairing_code r =
      let r' = purge_expired_pairing_codes env.now r in
      (first_unused env.last_code (take 20 env.fresh_codes) r'.pairing_codes, r')

  unfoldable pub normalize_pairing_code : Text → Text
  normalize_pairing_code value = dashed (only_code_chars (cfg.to_upper value))

  -- The end of refreshPairingCode, with the new code.
  unfoldable pub issue_code : Text → Client → Text → Relay → Outcome
  issue_code ws c code r =
      let expires = env.now + cfg.pairing_code_ttl_ms in
      let p : Pairing = record {
        user_id = c.user_id;
        device_id = c.device_id;
        expires_at_ms = expires;
      } in
      (
        record r { pairing_codes = insert code p r.pairing_codes },
        send env ws (
            create_message env MessageType.pairing_code
              ((codes "code", str code) ∷ (codes "expiresAt", str (cfg.iso expires)) ∷ [])
              (codes "pairing-" ++ c.device_id)),
      )

  unfoldable pub refresh_pairing_code : Text → Client → Relay → Outcome
  refresh_pairing_code ws c r =
      if not cfg.require_pairing
      then (r, [])
      else if not (is_agent c) || is_empty c.device_id
      then refuse env ws (codes "pairing-unavailable")
          (codes "Agent must announce itself before requesting a pairing code") [] r
      else let (code, r') =
          generate_pairing_code (delete_pairing_codes_for_device c.user_id c.device_id r) in
        issue_code ws c code r'

  -- The pairing that a code stands for and its device, when confirmPairing accepts it.
  abbrev pub online_device : Pairing → Option Device → Option (Pairing × Device)
  online_device p none = none
  online_device p (some d) = if d.online then some (p, d) else none

  abbrev pub pairing_found : Text → Relay → Option Pairing → Option (Pairing × Device)
  pairing_found user r none = none
  pairing_found user r (some p) =
      if text_eq p.user_id user
      then online_device p (lookup (scoped user p.device_id) r.devices)
      else none

  -- The end of confirmPairing, with the pairing and its device.
  unfoldable pub pair : Text → Client → Text → Pairing → Device → Relay → Outcome
  pair ws c code p d r =
      let (r', effects) = authorize_browser cfg c.user_id c.browser_id p.device_id r in
      let r'' = record r' { pairing_codes = remove code r'.pairing_codes } in
      (
        set_client ws (record c { selected_device_id = p.device_id }) r'',
        effects
            ++ (send env ws (
                  create_message env MessageType.device_state (public_device d)
                    (codes "paired-" ++ p.device_id))
                ++ send_cached_device_state env ws d),
      )

  abbrev pub confirm_found : Text → Client → Text → Option (Pairing × Device) → Relay → Outcome
  confirm_found ws c code none r =
      refuse env ws (codes "pairing-invalid") (codes "Pairing code is invalid or expired") [] r
  confirm_found ws c code (some (p, d)) r = pair ws c code p d r

  unfoldable pub confirm_pairing : Text → Client → Text → Relay → Outcome
  confirm_pairing ws c value r =
      if not (is_browser c)
      then refuse env ws (codes "invalid-source") (codes "Only browser clients can confirm pairing")
          [] r
      else if is_empty c.browser_id
      then refuse env ws (codes "browser-id-required")
          (codes "This browser does not have a remote browser id") [] r
      else let r' = purge_expired_pairing_codes env.now r in
        let code = normalize_pairing_code value in
        confirm_found ws c code (pairing_found c.user_id r' (lookup code r'.pairing_codes)) r'
