-- ===== src/Protocol/Payload/Idempotent.antt =====
-- Whatever its type, an accepted payload is accepted again, unchanged.
use voxhf.Json.Laws.{bindings-of_bindings}
use voxhf.Protocol.Shape.Same.{require_shape_idempotent}
use voxhf.Protocol.Checks.{is_token_like}
use voxhf.Protocol.Snapshot.Idempotent.{
  validate_unicom_timer_state_canonical, validate_chat_history_idempotent,
}
use voxhf.Protocol.Weather.Idempotent.{validate_weather_state_idempotent}
use voxhf.Protocol.Snapshot.Stations.{validate_stations_state_idempotent}
use voxhf.Protocol.Shape.Laws.{>>=-eq-ok, or_fail-eq-ok, only-eq-ok, unless-eq-ok, ok-injective}
use voxhf.Protocol.Types.{MessageType}
use voxhf.Protocol.Snapshot.{object, as_object, validate_chat_message}
use voxhf.Json.{Value, get, Bindings}
use voxhf.Protocol.Shape.{require_shape, in_keys, unexpected, ok, no_extra_payload}
use voxhf.Protocol.Payload.{ticket_shape, validate_payload, validate_agent_watchdog_ticket}
use voxhf.Url.{Url}
use voxhf.Prelude.{true, subst, [], codes, arith, ◌∷◌, text_eq, Option, Text, ◌≡◌}

module _ (parse_url : Text → Option Url) where
  ticket_accepted :
      (session batch : Value) (r : Bindings)
      → is_token_like session ≡ true
      → is_token_like batch ≡ true
      → require_shape r (ticket_shape parse_url) [] ≡ ok r
      → validate_agent_watchdog_ticket parse_url (
          (codes "sessionId", session) ∷ (codes "batchId", batch) ∷ (codes "ticket", object r) ∷ [])
        ≡ ok (
            (codes "sessionId", session)
            ∷ (codes "batchId", batch)
            ∷ (codes "ticket", object r)
            ∷ [])
  unfolding validate_agent_watchdog_ticket get text_eq unexpected in_keys
  ticket_accepted session batch r s b again = rw (s, b, bindings-of_bindings, again)

  ticket_idempotent :
      (p : Bindings) {q : Bindings}
      → validate_agent_watchdog_ticket parse_url p ≡ ok q
      → validate_agent_watchdog_ticket parse_url q ≡ ok q
  unfolding validate_agent_watchdog_ticket
  ticket_idempotent p e =
      let session = get (codes "sessionId") p in
      let batch = get (codes "batchId") p in
      let (s, h1) = unless-eq-ok (is_token_like session) _ _ (only-eq-ok _ p _ e).1 in
      let (b, h2) = unless-eq-ok (is_token_like batch) _ _ h1 in
      let (t, found, h3) = or_fail-eq-ok (as_object (get (codes "ticket") p)) _ _ h2 in
      let (r, fits, last) = >>=-eq-ok (require_shape t (ticket_shape parse_url) []) _ h3 in
      subst (λ x. validate_agent_watchdog_ticket parse_url x ≡ ok x) (ok-injective last)
        (ticket_accepted session batch r s b
          (require_shape_idempotent t (ticket_shape parse_url) [] fits))

  no_extra_idempotent :
      (p : Bindings) {q : Bindings} → no_extra_payload p ≡ ok q → no_extra_payload q ≡ ok q
  unfolding no_extra_payload
  no_extra_idempotent [] e = rw (← ok-injective e)
  no_extra_idempotent (f ∷ p) e = absurd (ground arith)

  -- For every message type, a payload that the validator has accepted and normalized is accepted
  -- again, unchanged.
  pub validate_payload_idempotent :
      (type : MessageType) (p : Bindings) {q : Bindings}
      → validate_payload parse_url type p ≡ ok q
      → validate_payload parse_url type q ≡ ok q
  unfolding validate_payload validate_chat_message
  validate_payload_idempotent MessageType.ping p e = no_extra_idempotent p e
  validate_payload_idempotent MessageType.pong p e = no_extra_idempotent p e
  validate_payload_idempotent MessageType.device_list p e = no_extra_idempotent p e
  validate_payload_idempotent MessageType.chat_history_request p e = no_extra_idempotent p e
  validate_payload_idempotent MessageType.xpdr_ident p e = no_extra_idempotent p e
  validate_payload_idempotent MessageType.unicom_timer_start p e = no_extra_idempotent p e
  validate_payload_idempotent MessageType.unicom_timer_cancel p e = no_extra_idempotent p e
  validate_payload_idempotent MessageType.tx_stop p e = no_extra_idempotent p e
  validate_payload_idempotent MessageType.monitor_stop p e = no_extra_idempotent p e
  validate_payload_idempotent MessageType.stations_state p e =
      validate_stations_state_idempotent p e
  validate_payload_idempotent MessageType.weather_state p e = validate_weather_state_idempotent p e
  validate_payload_idempotent MessageType.chat_history p e = validate_chat_history_idempotent p e
  validate_payload_idempotent MessageType.agent_watchdog_ticket p e = ticket_idempotent p e
  validate_payload_idempotent MessageType.unicom_timer_state p e =
      (validate_unicom_timer_state_canonical p e).1
  validate_payload_idempotent type p e = require_shape_idempotent p _ _ e
