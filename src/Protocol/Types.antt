-- ===== src/Protocol/Types.antt =====
-- Message types, their sources and the source rules: MESSAGE_SOURCES, MESSAGE_TYPES, SOURCE_RULES
-- and isKnownType of packages/protocol/index.js.
use voxhf.Prelude.{
  Bool, true, false, Option, none, some, List, [], ◌∷◌, Text, codes, text_eq, any, if◌then◌else◌,
}

pub data Source : Type 0 where
  browser agent relay : Source

pub data MessageType : Type 0 where
  ping pong device_list device_select device_state : MessageType
  pairing_begin pairing_code pairing_confirm pairing_revoke pairing_revoked : MessageType
  relay_identity relay_error agent_hello agent_status radio_set : MessageType
  radio_state stations_state weather_state chat_send chat_message : MessageType
  chat_history_request chat_history notification_subscribe notification_unsubscribe
        notification_state :
      MessageType
  agent_watchdog_ticket agent_watchdog_commit agent_watchdog_disarm agent_watchdog_fired
        unicom_timer_start :
      MessageType
  unicom_timer_cancel unicom_timer_state unicom_timer_expired weather_request atis_request :
      MessageType
  xpdr_set_squawk xpdr_set_mode xpdr_ident tx_start tx_stop : MessageType
  monitor_start monitor_stop : MessageType

-- The values of MESSAGE_TYPES.
abbrev pub spelling : MessageType → Text
spelling ping = codes "ping"
spelling pong = codes "pong"
spelling device_list = codes "device.list"
spelling device_select = codes "device.select"
spelling device_state = codes "device.state"
spelling pairing_begin = codes "pairing.begin"
spelling pairing_code = codes "pairing.code"
spelling pairing_confirm = codes "pairing.confirm"
spelling pairing_revoke = codes "pairing.revoke"
spelling pairing_revoked = codes "pairing.revoked"
spelling relay_identity = codes "relay.identity"
spelling relay_error = codes "relay.error"
spelling agent_hello = codes "agent.hello"
spelling agent_status = codes "agent.status"
spelling radio_set = codes "radio.set"
spelling radio_state = codes "radio.state"
spelling stations_state = codes "stations.state"
spelling weather_state = codes "weather.state"
spelling chat_send = codes "chat.send"
spelling chat_message = codes "chat.message"
spelling chat_history_request = codes "chat.history.request"
spelling chat_history = codes "chat.history"
spelling notification_subscribe = codes "notification.subscribe"
spelling notification_unsubscribe = codes "notification.unsubscribe"
spelling notification_state = codes "notification.state"
spelling agent_watchdog_ticket = codes "agent.watchdog.ticket"
spelling agent_watchdog_commit = codes "agent.watchdog.commit"
spelling agent_watchdog_disarm = codes "agent.watchdog.disarm"
spelling agent_watchdog_fired = codes "agent.watchdog.fired"
spelling unicom_timer_start = codes "unicom.timer.start"
spelling unicom_timer_cancel = codes "unicom.timer.cancel"
spelling unicom_timer_state = codes "unicom.timer.state"
spelling unicom_timer_expired = codes "unicom.timer.expired"
spelling weather_request = codes "weather.request"
spelling atis_request = codes "atis.request"
spelling xpdr_set_squawk = codes "xpdr.setSquawk"
spelling xpdr_set_mode = codes "xpdr.setMode"
spelling xpdr_ident = codes "xpdr.ident"
spelling tx_start = codes "tx.start"
spelling tx_stop = codes "tx.stop"
spelling monitor_start = codes "monitor.start"
spelling monitor_stop = codes "monitor.stop"

abbrev pub message_types : List MessageType
message_types =
    ping ∷ pong ∷ device_list ∷ device_select ∷ device_state ∷ pairing_begin ∷ pairing_code
    ∷ pairing_confirm ∷ pairing_revoke ∷ pairing_revoked ∷ relay_identity ∷ relay_error
    ∷ agent_hello ∷ agent_status ∷ radio_set ∷ radio_state ∷ stations_state ∷ weather_state
    ∷ chat_send ∷ chat_message ∷ chat_history_request ∷ chat_history ∷ notification_subscribe
    ∷ notification_unsubscribe ∷ notification_state ∷ agent_watchdog_ticket ∷ agent_watchdog_commit
    ∷ agent_watchdog_disarm ∷ agent_watchdog_fired ∷ unicom_timer_start ∷ unicom_timer_cancel
    ∷ unicom_timer_state ∷ unicom_timer_expired ∷ weather_request ∷ atis_request ∷ xpdr_set_squawk
    ∷ xpdr_set_mode ∷ xpdr_ident ∷ tx_start ∷ tx_stop ∷ monitor_start ∷ monitor_stop ∷ []

abbrev pub find_type : Text → List MessageType → Option MessageType
find_type s [] = none
find_type s (t ∷ ts) = if text_eq s (spelling t) then some t else find_type s ts

-- isKnownType, which also says which type it is.
unfoldable pub known_type : Text → Option MessageType
unfolding text_eq
known_type s = find_type s message_types

unfoldable pub source_rules : MessageType → List Source
source_rules ping = browser ∷ agent ∷ relay ∷ []
source_rules pong = browser ∷ agent ∷ relay ∷ []
source_rules device_list = browser ∷ []
source_rules device_select = browser ∷ []
source_rules device_state = relay ∷ []
source_rules pairing_begin = agent ∷ []
source_rules pairing_code = relay ∷ []
source_rules pairing_confirm = browser ∷ []
source_rules pairing_revoke = browser ∷ []
source_rules pairing_revoked = relay ∷ []
source_rules relay_identity = relay ∷ []
source_rules relay_error = relay ∷ []
source_rules agent_hello = agent ∷ []
source_rules agent_status = agent ∷ []
source_rules radio_set = browser ∷ []
source_rules radio_state = agent ∷ []
source_rules stations_state = agent ∷ []
source_rules weather_state = agent ∷ []
source_rules chat_send = browser ∷ []
source_rules chat_message = agent ∷ []
source_rules chat_history_request = browser ∷ []
source_rules chat_history = agent ∷ []
source_rules notification_subscribe = browser ∷ []
source_rules notification_unsubscribe = browser ∷ []
source_rules notification_state = agent ∷ []
source_rules agent_watchdog_ticket = agent ∷ []
source_rules agent_watchdog_commit = agent ∷ []
source_rules agent_watchdog_disarm = agent ∷ []
source_rules agent_watchdog_fired = relay ∷ []
source_rules unicom_timer_start = browser ∷ []
source_rules unicom_timer_cancel = browser ∷ []
source_rules unicom_timer_state = agent ∷ []
source_rules unicom_timer_expired = agent ∷ []
source_rules weather_request = browser ∷ []
source_rules atis_request = browser ∷ []
source_rules xpdr_set_squawk = browser ∷ []
source_rules xpdr_set_mode = browser ∷ []
source_rules xpdr_ident = browser ∷ []
source_rules tx_start = browser ∷ []
source_rules tx_stop = browser ∷ []
source_rules monitor_start = browser ∷ []
source_rules monitor_stop = browser ∷ []

abbrev pub same_source : Source → Source → Bool
same_source browser browser = true
same_source agent agent = true
same_source relay relay = true
same_source _ _ = false

-- SOURCE_RULES[type].includes(source)
unfoldable pub allows : MessageType → Source → Bool
unfolding source_rules
allows t s = any (same_source s) (source_rules t)
