-- ===== src/Relay/Devices.antt =====
-- The sets of message types that apps/relay/index.js routes, and the snapshots that it keeps of a
-- device.
use voxhf.Dict.{insert}
use voxhf.Relay.{Device}
use voxhf.Json.{Bindings}
use voxhf.Prelude.{not, if◌then◌else◌, ◌&&◌, text_eq, any, Bool, List, ◌∷◌, []}
use voxhf.Protocol.Types.{
  spelling, MessageType, agent_status, radio_state, stations_state, weather_state, chat_message,
  chat_history, notification_state, unicom_timer_state, unicom_timer_expired, radio_set, chat_send,
  chat_history_request, notification_subscribe, notification_unsubscribe, unicom_timer_start,
  unicom_timer_cancel, weather_request, atis_request, xpdr_set_squawk, xpdr_set_mode, xpdr_ident,
  tx_start, tx_stop, monitor_start, monitor_stop, agent_watchdog_ticket, agent_watchdog_commit,
  agent_watchdog_disarm,
}

abbrev pub same_type : MessageType → MessageType → Bool
same_type a b = text_eq (spelling a) (spelling b)

abbrev pub has_type : MessageType → List MessageType → Bool
has_type t ts = any (same_type t) ts

-- BROWSER_TO_AGENT_TYPES
abbrev pub browser_to_agent_types : List MessageType
browser_to_agent_types =
    radio_set ∷ chat_send ∷ chat_history_request ∷ notification_subscribe ∷ notification_unsubscribe
    ∷ unicom_timer_start ∷ unicom_timer_cancel ∷ weather_request ∷ atis_request ∷ xpdr_set_squawk
    ∷ xpdr_set_mode ∷ xpdr_ident ∷ tx_start ∷ tx_stop ∷ monitor_start ∷ monitor_stop ∷ []

-- AGENT_TO_BROWSER_TYPES
abbrev pub agent_to_browser_types : List MessageType
agent_to_browser_types =
    agent_status ∷ radio_state ∷ stations_state ∷ weather_state ∷ chat_message ∷ chat_history
    ∷ notification_state ∷ unicom_timer_state ∷ unicom_timer_expired ∷ []

-- AGENT_WATCHDOG_TYPES
abbrev pub agent_watchdog_types : List MessageType
agent_watchdog_types = agent_watchdog_ticket ∷ agent_watchdog_commit ∷ agent_watchdog_disarm ∷ []

-- The types that rememberDeviceSnapshot keeps and sendCachedDeviceState sends.
abbrev pub snapshot_types : List MessageType
snapshot_types =
    agent_status ∷ radio_state ∷ stations_state ∷ weather_state ∷ notification_state
    ∷ unicom_timer_state ∷ []

unfoldable pub remember_device_snapshot : MessageType → Bindings → Device → Device
remember_device_snapshot type message d =
    if has_type type snapshot_types
    then record d { last_messages = insert (spelling type) message d.last_messages }
    else d

-- shouldRateLimitBrowserCommand
unfoldable pub should_rate_limit_browser_command : MessageType → Bool
should_rate_limit_browser_command type =
    has_type type browser_to_agent_types
    && not (same_type type tx_start)
    && not (same_type type tx_stop)
