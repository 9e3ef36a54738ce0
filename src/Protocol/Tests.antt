-- ===== src/Protocol/Tests.antt =====
-- Runs of the protocol code, and the theorems at concrete inputs.
use voxhf.Protocol.Snapshot.Idempotent.{Messages}
use voxhf.Protocol.Weather.{
  normalize_flight_plan, normalize_entry_fields, normalize_weather_entry, normalize_slot_fields,
  normalize_weather_slot, normalize_weather, validate_weather_state,
}
use voxhf.Protocol.Payload.Idempotent.{validate_payload_idempotent}
use voxhf.Protocol.Message.Laws.{
  validate_remote_message_iff, validate_remote_message_idempotent, Accepts,
}
use voxhf.Url.{Url}
use voxhf.Protocol.Shape.Same.{require_shape_iff, require_shape-SameFields}
use voxhf.Protocol.Bounds.{chat_send_bounded, chat_history_bounded, sources_exclusive}
use voxhf.Protocol.Types.{browser, allows, MessageType, known_type, agent}
use voxhf.Protocol.Snapshot.Timer.{validate_unicom_timer_state_iff, TimerPayload}
use voxhf.Protocol.Snapshot.{
  station_fields, station_valid, normalize_station, read_stations, validate_stations_state,
  validate_chat_history, read_messages, validate_chat_message, chat_optional, timer_fields, object,
  chat_required, validate_unicom_timer_state,
}
use voxhf.Protocol.Shape.Laws.{Fits, SameFields}
use voxhf.Protocol.Shape.{
  no_extra_payload, read_optional, read_required, unexpected, in_keys, fail, ok, require_shape,
}
use voxhf.Protocol.Payload.{validate_payload}
use voxhf.Protocol.Message.{parse_remote_json, envelope, validate_remote_message}
use voxhf.Protocol.Checks.{
  is_icao, is_shortish_text, is_flight_plan_status, is_coordinate, is_station_name, is_boolean,
  id_char, repeats, is_direction, is_id, is_iso_like, is_short_text, is_text_body, is_frequency,
  is_com, is_recipient, max_text_bytes, is_version_text,
}
use voxhf.Json.{
  elems, Elems, bindings, nil, of_list, null, cons, put, fin, end, bool, arr, str, obj, num, has,
  get, field, Value, Fields, Bindings,
}
use voxhf.Prelude.{
  ◌||◌, not, byte_length, ◌↔◌, none, length, false, [], ◌≤◌, ◌∷◌, true, some, arith, codes, Option,
  text_eq, Text, List, ◌≡◌, refl,
}

checks : Unit {0}
unfolding text_eq has get put in_keys unexpected read_required read_optional require_shape
    byte_length no_extra_payload is_com is_frequency is_recipient is_text_body is_short_text
    is_iso_like is_id is_direction repeats id_char is_boolean is_version_text
checks = tt

program : Unit {0}
unfolding checks validate_payload validate_remote_message parse_remote_json known_type allows
    validate_chat_message read_messages validate_chat_history
program = tt

abbrev no_url : Text → Option Url
no_url s = none

abbrev one : Value
one = num (fin false 1 0)

abbrev radio_message : Fields
radio_message =
    field (codes "payload")
      (obj (field (codes "freq") (str (codes "118.700")) (field (codes "com") one end)))
      (field (codes "type") (str (codes "radio.set")) (
        field (codes "extra") null
          (field (codes "v") one (field (codes "id") (str (codes "m-1")) end))))

-- The normalized payload lists the fields in the order of the shape.
abbrev radio_accepted : Bindings
radio_accepted =
    envelope (str (codes "m-1")) MessageType.radio_set
      ((codes "com", one) ∷ (codes "freq", str (codes "118.700")) ∷ [])

radio_set_runs :
    validate_remote_message no_url (obj radio_message) (some browser) ≡ ok radio_accepted
unfolding program
radio_set_runs = refl

agent_refused :
    validate_remote_message no_url (obj radio_message) (some agent)
    ≡ fail (codes "message type radio.set is not allowed from agent")
unfolding program
agent_refused = refl

versions :
    (is_version_text (str (codes "v0.14.2-beta.1")) ≡ true)
    × (is_version_text (str (codes "1")) ≡ false)
    × (is_version_text (str (codes "1.2.3.4.5")) ≡ false)
    × (is_version_text (str (codes "1.2-")) ≡ false)
unfolding program
versions = (refl, refl, refl, refl)

validate_remote_message_idempotent_example :
    validate_remote_message no_url (object radio_accepted) (some browser) ≡ ok radio_accepted
validate_remote_message_idempotent_example =
    validate_remote_message_idempotent no_url (some browser) (obj radio_message) radio_set_runs

validate_remote_message_iff_example :
    (validate_remote_message no_url (obj radio_message) (some browser) ≡ ok radio_accepted) ↔ (
      (fs : Fields) × (obj radio_message ≡ obj fs)
      × Accepts no_url (some browser) (bindings fs) radio_accepted)
validate_remote_message_iff_example =
    validate_remote_message_iff no_url (some browser) (obj radio_message) radio_accepted

sources_exclusive_example : agent ≡ agent
unfolding program
sources_exclusive_example =
    sources_exclusive MessageType.chat_message agent agent (ground arith) (ground arith) refl refl

abbrev greeting : Bindings
greeting =
    (codes "text", str (codes "hello"))
    ∷ (codes "timestamp", str (codes "2026-01-02T03:04:05Z"))
    ∷ (codes "sender", str (codes "LIRF_TWR"))
    ∷ (codes "recipient", str (codes "AZA123"))
    ∷ []

abbrev greeting_accepted : Bindings
greeting_accepted =
    (codes "sender", str (codes "LIRF_TWR"))
    ∷ (codes "recipient", str (codes "AZA123"))
    ∷ (codes "text", str (codes "hello"))
    ∷ (codes "timestamp", str (codes "2026-01-02T03:04:05Z"))
    ∷ []

greeting_runs : require_shape greeting chat_required chat_optional ≡ ok greeting_accepted
unfolding program
greeting_runs = refl

require_shape-SameFields_example : SameFields greeting greeting_accepted
require_shape-SameFields_example =
    require_shape-SameFields greeting chat_required chat_optional greeting_runs

require_shape_iff_example :
    ((q : Bindings) × (require_shape greeting chat_required chat_optional ≡ ok q))
    ↔ Fits greeting chat_required chat_optional
require_shape_iff_example = require_shape_iff greeting chat_required chat_optional

abbrev history : Bindings
history = (codes "messages", arr (cons (object greeting) nil)) ∷ []

abbrev history_accepted : Bindings
history_accepted = (codes "messages", arr (cons (object greeting_accepted) nil)) ∷ []

history_runs : validate_payload no_url MessageType.chat_history history ≡ ok history_accepted
unfolding program
history_runs = refl

chat_history_bounded_example :
    (vs : Elems) × (qs : List Value) × (get (codes "messages") history ≡ arr vs)
    × (history_accepted ≡ (codes "messages", arr (of_list qs)) ∷ [])
    × (length qs ≤ 50)
    × (length qs ≡ length (elems vs))
    × Messages (elems vs) qs
chat_history_bounded_example = chat_history_bounded no_url history history_runs

abbrev command : Bindings
command = (codes "recipient", str (codes "*")) ∷ (codes "text", str (codes "hi")) ∷ []

command_runs : validate_payload no_url MessageType.chat_send command ≡ ok command
unfolding program
command_runs = refl

chat_send_bounded_example :
    (text : Text) × (get (codes "text") command ≡ str text)
    × (1 ≤ length text)
    × (byte_length text ≤ max_text_bytes)
    × (is_recipient (get (codes "recipient") command) ≡ true)
    × ((k : Text)
        → (not (has k command) || in_keys k (codes "recipient" ∷ codes "text" ∷ [])) ≡ true)
chat_send_bounded_example = chat_send_bounded no_url command command_runs

abbrev timer_payload : Bindings
timer_payload = (codes "active", bool false) ∷ []

timer_runs : validate_unicom_timer_state timer_payload ≡ ok timer_payload
unfolding program validate_unicom_timer_state timer_fields
timer_runs = refl

validate_unicom_timer_state_iff_example :
    (validate_unicom_timer_state timer_payload ≡ ok timer_payload)
    ↔ TimerPayload timer_payload timer_payload
validate_unicom_timer_state_iff_example =
    validate_unicom_timer_state_iff timer_payload timer_payload

validate_payload_idempotent_example :
    validate_payload no_url MessageType.chat_history history_accepted ≡ ok history_accepted
validate_payload_idempotent_example =
    validate_payload_idempotent no_url MessageType.chat_history history history_runs

-- Empty fields of a station and of a weather slot come out as empty texts.
abbrev tower : Value
tower = obj (
    field (codes "callsign") (str (codes "LIRF_TWR"))
      (field (codes "lat") (num (fin false 83 1)) (field (codes "voice") (str []) end)))

abbrev tower_accepted : Value
tower_accepted = object (
    (codes "callsign", str (codes "LIRF_TWR"))
    ∷ (codes "freq", str [])
    ∷ (codes "lat", num (fin false 83 1))
    ∷ (codes "voice", str [])
    ∷ [])

abbrev stations : Bindings
stations = (codes "stations", arr (cons tower nil)) ∷ []

abbrev stations_accepted : Bindings
stations_accepted = (codes "stations", arr (cons tower_accepted nil)) ∷ []

stations_runs : validate_stations_state stations ≡ ok stations_accepted
unfolding program validate_stations_state read_stations normalize_station station_valid
    station_fields is_station_name is_coordinate is_shortish_text
stations_runs = refl

abbrev weather : Bindings
weather = (codes "flightPlanStatus", str (codes "filed")) ∷ []

abbrev no_slot : Value
no_slot = object ((codes "icao", str []) ∷ (codes "metar", null) ∷ (codes "taf", null) ∷ [])

abbrev weather_accepted : Bindings
weather_accepted =
    (codes "flightPlanStatus", str (codes "filed"))
    ∷ (
      codes "flightPlan",
      object (
          (codes "departure", str [])
          ∷ (codes "destination", str [])
          ∷ (codes "alternate", str [])
          ∷ []),
    )
    ∷ (
      codes "weatherState",
      object ((codes "departure", no_slot) ∷ (codes "destination", no_slot) ∷ []),
    )
    ∷ []

weather_runs : validate_weather_state weather ≡ ok weather_accepted
unfolding program validate_weather_state normalize_weather normalize_weather_slot
    normalize_slot_fields normalize_weather_entry normalize_entry_fields normalize_flight_plan
    is_flight_plan_status is_icao
weather_runs = refl
