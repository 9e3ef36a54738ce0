-- ===== src/Protocol/Weather/Idempotent.antt =====
-- Weather payloads pass a second time, unchanged.
use voxhf.Protocol.Shape.Laws.{ok-injective, or_fail-eq-ok, only-eq-ok, unless-eq-ok}
use voxhf.Json.Laws.{bindings-of_bindings}
use voxhf.Protocol.Snapshot.Stations.{null_at-eq-some, require-eq-some}
use voxhf.Protocol.Snapshot.{as_object, object, empty_text}
use voxhf.Protocol.Shape.{ok, in_keys, unexpected}
use voxhf.Protocol.Weather.{
  empty_object, weather_keys, slot_keys, validate_weather_state, normalize_weather_slot,
  normalize_weather, entry_keys, entry_fields, object_or_null, slot_fields, normalize_weather_entry,
  normalize_slot_fields, plan_keys, plan_fields, icao_or_falsy, normalize_flight_plan,
  normalize_entry_fields,
}
use voxhf.Protocol.Checks.{is_flight_plan_status, is_iso_like, is_shortish_text}
use voxhf.Json.{
  truthy, bindings, obj, null, undefined, str, is_defined, or_default, get, Bindings, Value,
}
use voxhf.Prelude.{
  ◌>>=◌ as bind, bind-eq-some, none, Option, codes, some_inj, subst, ◌&&◌, true, ◌||◌, text_eq,
  some, not, arith, byte_length, ◌≡◌, refl, [], ◌∷◌,
}

or_default_twice : (v d : Value) → or_default (or_default v d) d ≡ or_default v d
or_default_twice v d = ground arith

-- A flight plan as normalizeFlightPlanSnapshot returns it.
data FlightPlan : Bindings → Type 0 where
  plan :
      (u v w : Value)
      → or_default u empty_text ≡ u
      → or_default v empty_text ≡ v
      → or_default w empty_text ≡ w
      → (icao_or_falsy u && icao_or_falsy v && icao_or_falsy w) ≡ true
      → FlightPlan (plan_fields u v w)

normalize-FlightPlan :
    (b : Bindings) {q : Bindings} → normalize_flight_plan b ≡ some q → FlightPlan q
unfolding normalize_flight_plan
normalize-FlightPlan b e =
    let u = or_default (get (codes "departure") b) empty_text in
    let v = or_default (get (codes "destination") b) empty_text in
    let w = or_default (get (codes "alternate") b) empty_text in
    let (valid, same) =
      require-eq-some (icao_or_falsy u && icao_or_falsy v && icao_or_falsy w)
        (some (plan_fields u v w)) (null_at-eq-some (unexpected plan_keys b) _ e).1 in
    subst FlightPlan (some_inj same) (
      plan u v w (or_default_twice (get (codes "departure") b) empty_text)
        (or_default_twice (get (codes "destination") b) empty_text)
        (or_default_twice (get (codes "alternate") b) empty_text) valid)

FlightPlan-accepted : {q : Bindings} → FlightPlan q → normalize_flight_plan q ≡ some q
unfolding normalize_flight_plan get text_eq unexpected in_keys
FlightPlan-accepted (plan u v w x y z valid) = rw (x, y, z, valid)

source_kept :
    (v : Value)
    → (not (is_defined v) || is_shortish_text v 64) ≡ true
    → is_shortish_text (or_default v empty_text) 64 ≡ true
unfolding is_shortish_text byte_length
source_kept undefined h = refl
source_kept (str []) h = refl
source_kept (str (c ∷ s)) h = h
source_kept _ h = cc

-- A report as normalizeWeatherEntry returns it, or `null`.
data Entry : Value → Type 0 where
  missing : Entry null
  report :
      (t r s : Value)
      → or_default s empty_text ≡ s
      → (is_shortish_text t 4096 && is_iso_like r && is_shortish_text s 64) ≡ true
      → Entry (object (entry_fields t r s))

normalize_entry_fields-Entry :
    (b : Bindings) (o : Option Bindings) → normalize_entry_fields b ≡ o → Entry (object_or_null o)
unfolding normalize_entry_fields
normalize_entry_fields-Entry b none e = missing
normalize_entry_fields-Entry b (some q) e =
    let t = get (codes "text") b in
    let r = get (codes "receivedAt") b in
    let s = get (codes "source") b in
    let (valid, same) =
      require-eq-some
        (is_shortish_text t 4096 && is_iso_like r && (not (is_defined s) || is_shortish_text s 64))
        (some (entry_fields t r (or_default s empty_text)))
        (null_at-eq-some (unexpected entry_keys b) _ e).1 in
    subst (λ x. Entry (object x)) (some_inj same)
      (report t r (or_default s empty_text) (or_default_twice s empty_text)
        (ground (arith, source_kept s)))

normalize-Entry : (v : Value) → Entry (normalize_weather_entry v)
unfolding normalize_weather_entry
normalize-Entry (obj fs) = normalize_entry_fields-Entry (bindings fs) _ refl
normalize-Entry _ = missing

defined_of_shortish : (s : Value) → is_shortish_text s 64 ≡ true → is_defined s ≡ true
unfolding is_shortish_text
defined_of_shortish undefined h = cc
defined_of_shortish _ h = refl

Entry-accepted : {v : Value} → Entry v → normalize_weather_entry v ≡ v
unfolding normalize_weather_entry normalize_entry_fields get text_eq unexpected in_keys
Entry-accepted missing = refl
Entry-accepted (report t r s same valid) =
    let fits : (is_shortish_text t 4096
          && is_iso_like r
          && (not (is_defined s) || is_shortish_text s 64))
        ≡ true =
      ground arith in
    rw (fits, same)

-- A slot as normalizeWeatherSlot returns it.
data Slot : Bindings → Type 0 where
  slot :
      (i m t : Value)
      → or_default i empty_text ≡ i
      → icao_or_falsy i ≡ true
      → Entry m
      → Entry t
      → Slot (slot_fields i m t)

Slot-accepted : {q : Bindings} → Slot q → normalize_slot_fields q ≡ some q
unfolding normalize_slot_fields get text_eq unexpected in_keys
Slot-accepted (slot i m t same valid me te) =
    let fits : (icao_or_falsy i && (not (truthy m) || truthy m) && (not (truthy t) || truthy t))
        ≡ true =
      ground arith in
    rw (same, Entry-accepted me, Entry-accepted te, fits)

normalize_slot_fields-Slot :
    (b : Bindings) {q : Bindings} → normalize_slot_fields b ≡ some q → Slot q
unfolding normalize_slot_fields
normalize_slot_fields-Slot b e =
    let i = or_default (get (codes "icao") b) empty_text in
    let m = normalize_weather_entry (get (codes "metar") b) in
    let t = normalize_weather_entry (get (codes "taf") b) in
    let (valid, same) =
      require-eq-some
        (icao_or_falsy i
          && (not (truthy (get (codes "metar") b)) || truthy m)
          && (not (truthy (get (codes "taf") b)) || truthy t))
        (some (slot_fields i m t)) (null_at-eq-some (unexpected slot_keys b) _ e).1 in
    subst Slot (some_inj same) (
      slot i m t (or_default_twice (get (codes "icao") b) empty_text) (ground arith)
        (normalize-Entry (get (codes "metar") b)) (normalize-Entry (get (codes "taf") b)))

normalize_weather_slot-Slot :
    (v : Value) {q : Bindings} → normalize_weather_slot v ≡ some q → Slot q
unfolding normalize_weather_slot
normalize_weather_slot-Slot v e =
    let (b, found, rest) =
      bind-eq-some (as_object (or_default v empty_object)) normalize_slot_fields e in
    normalize_slot_fields-Slot b rest

normalize_weather_slot_accepted :
    {q : Bindings} → Slot q → normalize_weather_slot (object q) ≡ some q
unfolding normalize_weather_slot
normalize_weather_slot_accepted s = rw (bindings-of_bindings, Slot-accepted s)

data Weather : Bindings → Type 0 where
  weather :
      {d e : Bindings}
      → Slot d
      → Slot e
      → Weather ((codes "departure", object d) ∷ (codes "destination", object e) ∷ [])

normalize-Weather : (b : Bindings) {q : Bindings} → normalize_weather b ≡ some q → Weather q
unfolding normalize_weather
normalize-Weather b h =
    let (d, first, rest) =
      bind-eq-some (normalize_weather_slot (get (codes "departure") b)) _
        (null_at-eq-some (unexpected weather_keys b) _ h).1 in
    let (e, second, last) =
      bind-eq-some (normalize_weather_slot (get (codes "destination") b)) _ rest in
    subst Weather (some_inj last) (
      weather (normalize_weather_slot-Slot (get (codes "departure") b) first)
        (normalize_weather_slot-Slot (get (codes "destination") b) second))

Weather-accepted : {q : Bindings} → Weather q → normalize_weather q ≡ some q
unfolding normalize_weather get text_eq unexpected in_keys
Weather-accepted (weather d e) =
    rw (normalize_weather_slot_accepted d, normalize_weather_slot_accepted e)

data WeatherState : Bindings → Type 0 where
  state :
      {s : Value} {p w : Bindings}
      → is_flight_plan_status s ≡ true
      → FlightPlan p
      → Weather w
      → WeatherState (
          (codes "flightPlanStatus", s)
          ∷ (codes "flightPlan", object p)
          ∷ (codes "weatherState", object w)
          ∷ [])

validate-WeatherState :
    (p : Bindings) {q : Bindings} → validate_weather_state p ≡ ok q → WeatherState q
unfolding validate_weather_state
validate-WeatherState p h =
    let s = get (codes "flightPlanStatus") p in
    let flight = or_default (get (codes "flightPlan") p) empty_object in
    let weather = or_default (get (codes "weatherState") p) empty_object in
    let (valid, h1) = unless-eq-ok (is_flight_plan_status s) _ _ (only-eq-ok _ p _ h).1 in
    let (f, first, h2) = or_fail-eq-ok (bind (as_object flight) normalize_flight_plan) _ _ h1 in
    let (w, second, h3) = or_fail-eq-ok (bind (as_object weather) normalize_weather) _ _ h2 in
    let (fb, _, plan_found) = bind-eq-some (as_object flight) normalize_flight_plan first in
    let (wb, _, weather_found) = bind-eq-some (as_object weather) normalize_weather second in
    subst WeatherState (ok-injective h3)
      (state valid (normalize-FlightPlan fb plan_found) (normalize-Weather wb weather_found))

WeatherState-accepted : {q : Bindings} → WeatherState q → validate_weather_state q ≡ ok q
unfolding validate_weather_state get text_eq unexpected in_keys
WeatherState-accepted (state s p w) =
    rw (s, bindings-of_bindings, FlightPlan-accepted p, bindings-of_bindings, Weather-accepted w)

-- An accepted weather payload is accepted again, unchanged.
pub validate_weather_state_idempotent :
    (p : Bindings) {q : Bindings}
    → validate_weather_state p ≡ ok q
    → validate_weather_state q ≡ ok q
validate_weather_state_idempotent p e = WeatherState-accepted (validate-WeatherState p e)
