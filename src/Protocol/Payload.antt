-- ===== src/Protocol/Payload.antt =====
-- validatePayload: the payload that each message type may carry.
pub mod Idempotent
use voxhf.Prelude.{Bool, true, false, not, ◌&&◌, Option, none, some, List, [], ◌∷◌, Text, codes}
use voxhf.Json.{Value, Bindings, get}
use voxhf.Url.{Url}
use voxhf.Protocol.Types.{MessageType}
use voxhf.Protocol.Shape.{
  Result, ok, fail, ◌>>=◌, unless, or_fail, only, Shape, invalid_field, no_extra_payload,
  require_shape,
}
use voxhf.Protocol.Checks.{
  is_token_like, is_short_text, is_boolean, is_version_text, is_pairing_code, is_iso_like,
  is_user_id, is_url_text, is_text_body, is_callsign, is_flight_plan_status, is_sample_rate,
  is_squawk, is_xpdr_mode, is_com, is_frequency, is_station_name, is_recipient, is_push_endpoint,
  is_push_key, is_push_app_url, is_subscription_count, is_watchdog_authorization,
  is_watchdog_content_encoding, is_watchdog_body, is_weather_kind, is_icao, is_weather_source,
  is_weather_role, is_plain_object,
}
use voxhf.Protocol.Snapshot.{
  as_object, object, validate_chat_message, validate_chat_history, validate_unicom_timer_state,
  validate_stations_state,
}
use voxhf.Protocol.Weather.{validate_weather_state}

module _ (parse_url : Text → Option Url) where
  abbrev pub ticket_shape : Shape
  ticket_shape =
      (codes "deviceId", is_token_like)
      ∷ (codes "endpoint", is_push_endpoint parse_url)
      ∷ (codes "expiresAt", is_iso_like)
      ∷ (codes "authorization", is_watchdog_authorization)
      ∷ (codes "contentEncoding", is_watchdog_content_encoding)
      ∷ (codes "body", is_watchdog_body)
      ∷ []

  unfoldable pub validate_agent_watchdog_ticket : Bindings → Result Bindings
  validate_agent_watchdog_ticket payload =
      let session = get (codes "sessionId") payload in
      let batch = get (codes "batchId") payload in
      only (codes "sessionId" ∷ codes "batchId" ∷ codes "ticket" ∷ []) payload (
        unless (is_token_like session) (invalid_field (codes "sessionId")) (
          unless (is_token_like batch) (invalid_field (codes "batchId")) (
            or_fail (as_object (get (codes "ticket") payload)) (invalid_field (codes "ticket")) λ t.
              require_shape t ticket_shape [] >>= λ q. ok (
                (codes "sessionId", session)
                ∷ (codes "batchId", batch)
                ∷ (codes "ticket", object q)
                ∷ []))))

  unfoldable pub validate_payload : MessageType → Bindings → Result Bindings
  validate_payload MessageType.ping payload = no_extra_payload payload
  validate_payload MessageType.pong payload = no_extra_payload payload
  validate_payload MessageType.device_list payload = no_extra_payload payload
  validate_payload MessageType.chat_history_request payload = no_extra_payload payload
  validate_payload MessageType.xpdr_ident payload = no_extra_payload payload
  validate_payload MessageType.unicom_timer_start payload = no_extra_payload payload
  validate_payload MessageType.unicom_timer_cancel payload = no_extra_payload payload
  validate_payload MessageType.tx_stop payload = no_extra_payload payload
  validate_payload MessageType.monitor_stop payload = no_extra_payload payload
  validate_payload MessageType.device_select payload =
      require_shape payload ((codes "deviceId", is_token_like) ∷ []) []
  validate_payload MessageType.device_state payload =
      require_shape payload
        ((codes "deviceId", is_token_like)
          ∷ (codes "deviceName", is_short_text)
          ∷ (codes "online", is_boolean)
          ∷ [])
        ((codes "agentVersion", is_version_text) ∷ [])
  validate_payload MessageType.pairing_begin payload =
      require_shape payload ((codes "deviceName", is_short_text) ∷ [])
        ((codes "agentVersion", is_version_text) ∷ [])
  validate_payload MessageType.pairing_code payload =
      require_shape payload
        ((codes "code", is_pairing_code) ∷ (codes "expiresAt", is_iso_like) ∷ []) []
  validate_payload MessageType.pairing_confirm payload =
      require_shape payload ((codes "code", is_pairing_code) ∷ []) []
  validate_payload MessageType.pairing_revoke payload =
      require_shape payload ((codes "deviceId", is_token_like) ∷ []) []
  validate_payload MessageType.pairing_revoked payload =
      require_shape payload ((codes "deviceId", is_token_like) ∷ []) []
  validate_payload MessageType.relay_identity payload =
      require_shape payload ((codes "userId", is_user_id) ∷ []) (
        (codes "userName", is_short_text)
        ∷ (codes "relayVersion", is_version_text)
        ∷ (codes "recommendedAgentVersion", is_version_text)
        ∷ (codes "minimumAgentVersion", is_version_text)
        ∷ (codes "downloadUrl", is_url_text parse_url)
        ∷ [])
  validate_payload MessageType.relay_error payload =
      require_shape payload ((codes "code", is_short_text) ∷ (codes "message", is_text_body) ∷ [])
        []
  validate_payload MessageType.agent_hello payload =
      require_shape payload ((codes "deviceName", is_short_text) ∷ [])
        ((codes "deviceId", is_token_like) ∷ (codes "agentVersion", is_version_text) ∷ [])
  validate_payload MessageType.agent_status payload =
      require_shape payload ((codes "connected", is_boolean) ∷ []) (
        (codes "callsign", is_callsign)
        ∷ (codes "flightPlanStatus", is_flight_plan_status)
        ∷ (codes "webTxEnabled", is_boolean)
        ∷ (codes "txReady", is_boolean)
        ∷ (codes "txSampleRate", is_sample_rate)
        ∷ (codes "squawk", is_squawk)
        ∷ (codes "xpdrMode", is_xpdr_mode)
        ∷ (codes "agentVersion", is_version_text)
        ∷ [])
  validate_payload MessageType.radio_set payload =
      require_shape payload ((codes "com", is_com) ∷ (codes "freq", is_frequency) ∷ [])
        ((codes "station", is_station_name) ∷ [])
  validate_payload MessageType.radio_state payload =
      require_shape payload ((codes "com1", is_frequency) ∷ (codes "com2", is_frequency) ∷ [])
        ((codes "station1", is_station_name) ∷ (codes "station2", is_station_name) ∷ [])
  validate_payload MessageType.stations_state payload = validate_stations_state payload
  validate_payload MessageType.weather_state payload = validate_weather_state payload
  validate_payload MessageType.chat_send payload =
      require_shape payload ((codes "recipient", is_recipient) ∷ (codes "text", is_text_body) ∷ [])
        []
  validate_payload MessageType.chat_message payload = validate_chat_message payload
  validate_payload MessageType.chat_history payload = validate_chat_history payload
  validate_payload MessageType.notification_subscribe payload =
      require_shape payload
        ((codes "endpoint", is_push_endpoint parse_url)
          ∷ (codes "p256dh", is_push_key)
          ∷ (codes "auth", is_push_key)
          ∷ (codes "deviceId", is_token_like)
          ∷ (codes "deviceName", is_short_text)
          ∷ (codes "appUrl", is_push_app_url parse_url)
          ∷ [])
        ((codes "notifyIvaoConnected", is_boolean) ∷ (codes "notifyAgentOffline", is_boolean) ∷ [])
  validate_payload MessageType.notification_unsubscribe payload =
      require_shape payload ((codes "endpoint", is_push_endpoint parse_url) ∷ []) []
  validate_payload MessageType.notification_state payload =
      require_shape payload
        ((codes "available", is_boolean)
          ∷ (codes "vapidPublicKey", is_push_key)
          ∷ (codes "subscriptionCount", is_subscription_count)
          ∷ [])
        []
  validate_payload MessageType.agent_watchdog_ticket payload =
      validate_agent_watchdog_ticket payload
  validate_payload MessageType.agent_watchdog_commit payload =
      require_shape payload
        ((codes "sessionId", is_token_like) ∷ (codes "batchId", is_token_like) ∷ []) []
  validate_payload MessageType.agent_watchdog_disarm payload =
      require_shape payload ((codes "sessionId", is_token_like) ∷ []) []
  validate_payload MessageType.agent_watchdog_fired payload =
      require_shape payload ((codes "sessionId", is_token_like) ∷ []) []
  validate_payload MessageType.unicom_timer_state payload = validate_unicom_timer_state payload
  validate_payload MessageType.unicom_timer_expired payload =
      require_shape payload ((codes "expiredAt", is_iso_like) ∷ []) []
  validate_payload MessageType.weather_request payload =
      require_shape payload ((codes "kind", is_weather_kind) ∷ (codes "icao", is_icao) ∷ [])
        ((codes "source", is_weather_source) ∷ (codes "role", is_weather_role) ∷ [])
  validate_payload MessageType.atis_request payload =
      require_shape payload ((codes "callsign", is_station_name) ∷ []) []
  validate_payload MessageType.xpdr_set_squawk payload =
      require_shape payload ((codes "code", is_squawk) ∷ []) []
  validate_payload MessageType.xpdr_set_mode payload =
      require_shape payload ((codes "mode", is_xpdr_mode) ∷ []) []
  validate_payload MessageType.tx_start payload =
      require_shape payload ((codes "com", is_com) ∷ []) []
  validate_payload MessageType.monitor_start payload =
      require_shape payload ((codes "com", is_com) ∷ []) []
