-- ===== src/Protocol/Weather.antt =====
-- validateWeatherState and the normalizers of flight plan and weather snapshots.
pub mod Idempotent
use voxhf.Prelude.{
  ◌>>=◌, Bool, true, false, not, ◌&&◌, ◌||◌, Option, none, some, List, [], ◌∷◌, Text, codes,
  if◌then◌else◌,
}
use voxhf.Json.{Value, undefined, null, obj, end, Bindings, get, truthy, or_default, is_defined}
use voxhf.Protocol.Shape.{or_fail, Result, ok, fail, unless, unexpected, only, invalid_field}
use voxhf.Protocol.Checks.{is_iso_like, is_shortish_text, is_flight_plan_status, is_icao}
use voxhf.Protocol.Snapshot.{as_object, object, require, null_at, empty_text}

-- `!value || isIcao(value)`
abbrev pub icao_or_falsy : Value → Bool
icao_or_falsy v = not (truthy v) || is_icao v

abbrev pub plan_keys : List Text
plan_keys = codes "departure" ∷ codes "destination" ∷ codes "alternate" ∷ []

-- The object that normalizeFlightPlanSnapshot and normalizeWeatherSlot return.
abbrev pub plan_fields : Value → Value → Value → Bindings
plan_fields departure destination alternate =
    (codes "departure", departure)
    ∷ (codes "destination", destination)
    ∷ (codes "alternate", alternate)
    ∷ []

unfoldable pub normalize_flight_plan : Bindings → Option Bindings
normalize_flight_plan b =
    let departure = or_default (get (codes "departure") b) empty_text in
    let destination = or_default (get (codes "destination") b) empty_text in
    let alternate = or_default (get (codes "alternate") b) empty_text in
    null_at (unexpected plan_keys b) (
      require (icao_or_falsy departure && icao_or_falsy destination && icao_or_falsy alternate)
        (some (plan_fields departure destination alternate)))

abbrev pub entry_keys : List Text
entry_keys = codes "text" ∷ codes "receivedAt" ∷ codes "source" ∷ []

abbrev pub entry_fields : Value → Value → Value → Bindings
entry_fields text received source =
    (codes "text", text) ∷ (codes "receivedAt", received) ∷ (codes "source", source) ∷ []

unfoldable pub normalize_entry_fields : Bindings → Option Bindings
normalize_entry_fields b =
    let text = get (codes "text") b in
    let received = get (codes "receivedAt") b in
    let source = get (codes "source") b in
    null_at (unexpected entry_keys b) (
      require
        (is_shortish_text text 4096
          && is_iso_like received
          && (not (is_defined source) || is_shortish_text source 64))
        (some (entry_fields text received (or_default source empty_text))))

abbrev pub object_or_null : Option Bindings → Value
object_or_null none = null
object_or_null (some b) = object b

-- normalizeWeatherEntry; it returns `null` for `null` and `undefined`, and for what is not valid.
unfoldable pub normalize_weather_entry : Value → Value
normalize_weather_entry entry = elim (as_object entry) [
  | none ↦ null
  | some b ↦ object_or_null (normalize_entry_fields b)
]

abbrev pub slot_keys : List Text
slot_keys = codes "icao" ∷ codes "metar" ∷ codes "taf" ∷ []

abbrev pub slot_fields : Value → Value → Value → Bindings
slot_fields icao metar taf = (codes "icao", icao) ∷ (codes "metar", metar) ∷ (codes "taf", taf) ∷ []

unfoldable pub normalize_slot_fields : Bindings → Option Bindings
normalize_slot_fields b =
    let icao = or_default (get (codes "icao") b) empty_text in
    let metar = normalize_weather_entry (get (codes "metar") b) in
    let taf = normalize_weather_entry (get (codes "taf") b) in
    null_at (unexpected slot_keys b) (
      require
        (icao_or_falsy icao
          && (not (truthy (get (codes "metar") b)) || truthy metar)
          && (not (truthy (get (codes "taf") b)) || truthy taf))
        (some (slot_fields icao metar taf)))

abbrev pub empty_object : Value
empty_object = obj end

-- normalizeWeatherSlot(value || {})
unfoldable pub normalize_weather_slot : Value → Option Bindings
normalize_weather_slot v = as_object (or_default v empty_object) >>= normalize_slot_fields

abbrev pub weather_keys : List Text
weather_keys = codes "departure" ∷ codes "destination" ∷ []

unfoldable pub normalize_weather : Bindings → Option Bindings
normalize_weather b = null_at (unexpected weather_keys b) do
  departure ← normalize_weather_slot (get (codes "departure") b)
  destination ← normalize_weather_slot (get (codes "destination") b)
  some ((codes "departure", object departure) ∷ (codes "destination", object destination) ∷ [])

unfoldable pub validate_weather_state : Bindings → Result Bindings
validate_weather_state payload =
    let status = get (codes "flightPlanStatus") payload in
    let plan = or_default (get (codes "flightPlan") payload) empty_object in
    let weather = or_default (get (codes "weatherState") payload) empty_object in
    only (codes "flightPlanStatus" ∷ codes "flightPlan" ∷ codes "weatherState" ∷ []) payload (
      unless (is_flight_plan_status status) (invalid_field (codes "flightPlanStatus")) (
        or_fail (as_object plan >>= normalize_flight_plan) (invalid_field (codes "flightPlan")) λ p.
          or_fail (as_object weather >>= normalize_weather) (invalid_field (codes "weatherState"))
            λ w. ok (
              (codes "flightPlanStatus", status)
              ∷ (codes "flightPlan", object p)
              ∷ (codes "weatherState", object w)
              ∷ [])))
