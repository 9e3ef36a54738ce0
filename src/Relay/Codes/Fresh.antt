-- ===== src/Relay/Codes/Fresh.antt =====
-- What refreshPairingCode of apps/relay/index.js leaves of an agent's codes.
use voxhf.Json.{str}
use voxhf.Dict.Laws.{lookup-insert, count-keep-le, count-insert-le}
use voxhf.Protocol.Types.{MessageType}
use voxhf.Relay.Access.{is_agent}
use voxhf.Relay.Codes.{
  purge_expired_pairing_codes, delete_pairing_codes_for_device, issue_code, generate_pairing_code,
  first_unused, of_device, refresh_pairing_code,
}
use voxhf.Relay.{
  refuse, create_message, send, is_empty, Pairing, Relay, Outcome, Client, Config, Env,
}
use voxhf.Dict.{insert, lookup, Dict, keep_values, count_values}
use voxhf.Prelude.{
  take, text_eq_refl, if◌then◌else◌, by_if, ◌||◌, ◌++◌, codes, ◌≤◌, ◌+◌, leb, arith, not, Text,
  Bool, ◌∷◌, [], some, true, false, ◌≡◌, refl,
}

count-keep_not {ℓ} :
    {V : Type ℓ} (test : V → Bool) (m : Dict V)
    → count_values test (keep_values (λ v. not (test v)) m) ≡ 0
unfolding count_values keep_values
count-keep_not test [] = refl
count-keep_not test ((k, v) ∷ m) = ground (arith, count-keep_not test m)

module _ (env : Env) (cfg : Config) (ws : Text) (c : Client) where
  -- The code that the agent is sent is one that the relay holds, for this agent and for its time.
  pub record Issued (o : Outcome) : Type 0 where
    pub code : Text
    pub pairing : Pairing
    pub held : lookup code o.0.pairing_codes ≡ some pairing
    pub user : pairing.user_id ≡ c.user_id
    pub device : pairing.device_id ≡ c.device_id
    pub expires : pairing.expires_at_ms ≡ env.now + cfg.pairing_code_ttl_ms
    pub told :
        o.1
        ≡ send env ws (
            create_message env MessageType.pairing_code
              ((codes "code", str code)
                ∷ (codes "expiresAt", str (cfg.iso pairing.expires_at_ms))
                ∷ [])
              (codes "pairing-" ++ c.device_id))

  module _ (r : Relay) where
    abbrev cleared : Dict Pairing
    cleared = keep_values (λ p. not (of_device c.user_id c.device_id p)) r.pairing_codes

    abbrev left : Dict Pairing
    left = keep_values (λ p. not (leb p.expires_at_ms env.now)) cleared

    abbrev new_pairing : Pairing
    new_pairing = record {
      user_id = c.user_id;
      device_id = c.device_id;
      expires_at_ms = env.now + cfg.pairing_code_ttl_ms;
    }

    abbrev chosen : Text
    chosen = first_unused env.last_code (take 20 env.fresh_codes) left

    abbrev new_outcome : Outcome
    new_outcome =
        let out =
          generate_pairing_code env cfg (delete_pairing_codes_for_device c.user_id c.device_id r) in
        issue_code env cfg ws c out.0 out.1

    abbrev FewIssued : Outcome → Type 0
    FewIssued o = (count_values (of_device c.user_id c.device_id) o.0.pairing_codes ≤ 1) × Issued o

    few_left : count_values (of_device c.user_id c.device_id) (insert chosen new_pairing left) ≤ 1
    few_left =
        let mine = of_device c.user_id c.device_id in
        omega (
          arith,
          count-insert-le mine chosen new_pairing left,
          count-keep-le mine (λ p. not (leb p.expires_at_ms env.now)) cleared,
          count-keep_not mine r.pairing_codes,
        )

    new-FewIssued : FewIssued new_outcome
    unfolding issue_code generate_pairing_code purge_expired_pairing_codes
        delete_pairing_codes_for_device
    new-FewIssued = (
      few_left,
      record {
        code = chosen;
        pairing = new_pairing;
        held = rw (lookup-insert chosen chosen new_pairing left, text_eq_refl chosen) refl;
        user = refl;
        device = refl;
        expires = refl;
        told = refl;
      },
    )

    -- When pairing is required and an announced agent asks for a code, the relay holds no other code
    -- of this agent's device afterwards, and it holds the one that it sends to the agent, for as long
    -- as it says.
    pub refresh_pairing_code_one :
        cfg.require_pairing ≡ true
        → is_agent c ≡ true
        → is_empty c.device_id ≡ false
        → (count_values
              (of_device c.user_id c.device_id)
              (refresh_pairing_code env cfg ws c r).0.pairing_codes
            ≤ 1)
          × Issued (refresh_pairing_code env cfg ws c r)
    unfolding refresh_pairing_code
    refresh_pairing_code_one required agent named =
        let text = codes "Agent must announce itself before requesting a pairing code" in
        let refusal = refuse env ws (codes "pairing-unavailable") text [] r in
        let unannounced = not (is_agent c) || is_empty c.device_id in
        by_if FewIssued (not cfg.require_pairing) {x = (r, [])}
          {y = if unannounced then refusal else new_outcome}
          (λ h. absurd (ground (arith, h, required)))
          (λ h.
            by_if FewIssued unannounced {x = refusal} {y = new_outcome}
              (λ h'. absurd (ground (arith, h', agent, named))) (λ h'. new-FewIssued))
