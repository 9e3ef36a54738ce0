-- ===== src/Protocol/Snapshot.antt =====
-- The payload validators with loops or rules of their own: chat, the UNICOM timer, stations and
-- weather. A payload is a plain object here, as validateRemoteMessage has tested, so that the
-- tests of isPlainObject(payload) that the source repeats always pass.
use voxhf.Prelude.{
  ℕ, Bool, true, false, not, ◌&&◌, ◌||◌, Option, none, some, List, [], ◌∷◌, ◌++◌, Text, codes,
  text_eq, length, leb, ◌==◌, if◌then◌else◌, ◌>>=◌ as bind,
}
pub mod Idempotent
pub mod Timer
pub mod Stations
use voxhf.Json.{
  Value, undefined, null, bool, arr, obj, str, end, elems, of_list, Bindings, bindings, of_bindings,
  get, has, truthy, or_default, is_defined, is_text,
}
use voxhf.Protocol.Shape.{
  or_fail, Result, ok, fail, ◌>>=◌, unless, Shape, unexpected, in_keys, only, invalid_field,
  require_shape,
}
use voxhf.Protocol.Checks.{
  is_plain_object, is_short_text, is_text_body, is_iso_like, is_direction, is_id, is_boolean,
  is_own_position, is_station_name, is_frequency, is_coordinate, is_shortish_text,
  is_flight_plan_status, is_icao,
}

-- The properties of a plain object.
abbrev pub as_object : Value → Option Bindings
as_object (obj fs) = some (bindings fs)
as_object _ = none

abbrev pub object : Bindings → Value
object b = obj (of_bindings b)

abbrev pub chat_required : Shape
chat_required =
    (codes "sender", is_short_text)
    ∷ (codes "recipient", is_short_text)
    ∷ (codes "text", is_text_body)
    ∷ (codes "timestamp", is_iso_like)
    ∷ []

abbrev pub chat_optional : Shape
chat_optional = (codes "direction", is_direction) ∷ (codes "messageId", is_id) ∷ []

unfoldable pub validate_chat_message : Bindings → Result Bindings
validate_chat_message payload = require_shape payload chat_required chat_optional

-- The loop of validateChatHistory.
unfoldable pub read_messages : List Value → Result (List Value)
read_messages [] = ok []
read_messages (v ∷ vs) = elim (as_object v) [
  | none ↦ fail (codes "invalid chat history message")
  | some m ↦ do q ← validate_chat_message m; qs ← read_messages vs; ok (object q ∷ qs)
]

abbrev pub chat_history_messages : Value → Result Bindings
chat_history_messages (arr vs) =
    if leb (length (elems vs)) 50
    then (do qs ← read_messages (elems vs); ok ((codes "messages", arr (of_list qs)) ∷ []))
    else fail (invalid_field (codes "messages"))
chat_history_messages _ = fail (invalid_field (codes "messages"))

abbrev pub history_stop : Option Text → Result Bindings → Result Bindings
history_stop none rest = rest
history_stop (some k) rest = fail (codes "invalid chat history payload")

unfoldable pub validate_chat_history : Bindings → Result Bindings
validate_chat_history payload =
    history_stop (unexpected (codes "messages" ∷ []) payload)
      (chat_history_messages (get (codes "messages") payload))

abbrev pub timer_keys : List Text
timer_keys = codes "active" ∷ codes "startedAt" ∷ codes "expiresAt" ∷ []

-- The tests of validateUnicomTimerState, on the number of properties and on the three.
unfoldable pub timer_fields : ℕ → Value → Value → Value → Result Bindings
timer_fields size active started expires =
    unless (is_boolean active) (invalid_field (codes "active")) (
      if truthy active
      then unless (is_iso_like started) (invalid_field (codes "startedAt")) (
          unless (is_iso_like expires) (invalid_field (codes "expiresAt")) (
            ok (
              (codes "active", bool true)
              ∷ (codes "startedAt", started)
              ∷ (codes "expiresAt", expires)
              ∷ [])))
      else unless (size == 1) (codes "inactive timer payload must contain only active")
          (ok ((codes "active", bool false) ∷ [])))

unfoldable pub validate_unicom_timer_state : Bindings → Result Bindings
validate_unicom_timer_state payload = only timer_keys payload (
    timer_fields (length payload) (get (codes "active") payload) (get (codes "startedAt") payload)
      (get (codes "expiresAt") payload))

-- `if (!test) return null; …`
abbrev pub require {ℓ} : {A : Type ℓ} → Bool → Option A → Option A
require true rest = rest
require false rest = none

-- `for (const key of Object.keys(value)) if (!allowed.has(key)) return null; …`
abbrev pub null_at {ℓ} : {A : Type ℓ} → Option Text → Option A → Option A
null_at none rest = rest
null_at (some k) rest = none

-- `if (value !== undefined) normalized[key] = value`
abbrev pub when_defined : Text → Value → Value → Bindings → Bindings
when_defined key test value rest = if is_defined test then (key, value) ∷ rest else rest

abbrev pub empty_text : Value
empty_text = str []

abbrev pub station_keys : List Text
station_keys = codes "callsign" ∷ codes "freq" ∷ codes "lat" ∷ codes "lon" ∷ codes "voice" ∷ []

-- The tests of normalizeStationSnapshot, on the five properties.
unfoldable pub station_valid : Value → Value → Value → Value → Value → Bool
station_valid callsign freq lat lon voice =
    is_station_name callsign
    && truthy callsign
    && (not (is_defined freq) || is_text [] freq || is_frequency freq)
    && (not (is_defined lat) || is_coordinate 90 lat)
    && (not (is_defined lon) || is_coordinate 180 lon)
    && (not (is_defined voice) || is_text [] voice || is_shortish_text voice 256)

-- The object that it builds.
unfoldable pub station_fields : Value → Value → Value → Value → Value → Bindings
station_fields callsign freq lat lon voice =
    (codes "callsign", callsign)
    ∷ (codes "freq", or_default freq empty_text)
    ∷ when_defined (codes "lat") lat lat (
        when_defined (codes "lon") lon lon
          (when_defined (codes "voice") voice (or_default voice empty_text) []))

unfoldable pub normalize_station : Bindings → Option Bindings
normalize_station b =
    let callsign = get (codes "callsign") b in
    let freq = get (codes "freq") b in
    let lat = get (codes "lat") b in
    let lon = get (codes "lon") b in
    let voice = get (codes "voice") b in
    null_at (unexpected station_keys b) (
      require (station_valid callsign freq lat lon voice)
        (some (station_fields callsign freq lat lon voice)))

-- The loop of validateStationsState.
unfoldable pub read_stations : List Value → Result (List Value)
read_stations [] = ok []
read_stations (v ∷ vs) =
    or_fail (bind (as_object v) normalize_station) (codes "invalid station snapshot")
      λ q. read_stations vs >>= λ qs. ok (object q ∷ qs)

abbrev pub station_list : Value → Result Value
station_list (arr vs) =
    if leb (length (elems vs)) 250
    then (do qs ← read_stations (elems vs); ok (arr (of_list qs)))
    else fail (invalid_field (codes "stations"))
station_list _ = fail (invalid_field (codes "stations"))

-- `{ lat: p.lat, lon: p.lon }` of an own position.
abbrev pub own_position : Value → Value
own_position (obj fs) = object (
    (codes "lat", get (codes "lat") (bindings fs))
    ∷ (codes "lon", get (codes "lon") (bindings fs))
    ∷ [])
own_position v = v

unfoldable pub validate_stations_state : Bindings → Result Bindings
validate_stations_state payload =
    let own = get (codes "ownPosition") payload in
    only (codes "stations" ∷ codes "ownPosition" ∷ []) payload do
      stations ← station_list (get (codes "stations") payload)
      if has (codes "ownPosition") payload
          then unless (is_own_position own) (invalid_field (codes "ownPosition"))
              (ok ((codes "stations", stations) ∷ (codes "ownPosition", own_position own) ∷ []))
          else ok ((codes "stations", stations) ∷ [])
