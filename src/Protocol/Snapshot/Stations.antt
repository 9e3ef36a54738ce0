-- ===== src/Protocol/Snapshot/Stations.antt =====
-- Station payloads: the bound on their number, and that they pass a second time, unchanged.
use voxhf.Protocol.Shape.Laws.{only-eq-ok, >>=-eq-ok, ok-injective}
use voxhf.Json.Laws.{elems-of_list, bindings-of_bindings}
use voxhf.Protocol.Shape.{ok, in_keys, unexpected}
use voxhf.Protocol.Checks.{is_own_position}
use voxhf.Protocol.Snapshot.{
  own_position, validate_stations_state, station_list, object, read_stations, normalize_station,
  station_keys, null_at, empty_text, require, station_valid, station_fields,
}
use voxhf.Json.{
  elems, of_list, has, arr, bindings, obj, undefined, Bindings, is_defined, or_default, get, Value,
}
use voxhf.Prelude.{
  Bool-cases, leb, ◌≤◌, subst, inr, inl, suc, ap, Option-cases, some_inj, length, if◌then◌else◌,
  false, arith, codes, true, none, some, text_eq, Text, Option, Bool, ◌≡◌, refl, List, [], ◌∷◌,
}

pub null_at-eq-some {ℓ} :
    {A : Type ℓ} (k : Option Text) (r : Option A) {a : A}
    → null_at k r ≡ some a
    → (k ≡ none) × (r ≡ some a)
null_at-eq-some none r h = (refl, h)
null_at-eq-some (some k) r h = cc

pub require-eq-some {ℓ} :
    {A : Type ℓ} (b : Bool) (r : Option A) {a : A}
    → require b r ≡ some a
    → (b ≡ true) × (r ≡ some a)
require-eq-some true r h = (refl, h)
require-eq-some false r h = cc

-- The values that a station snapshot keeps for an optional text.
abbrev kept : Value → Value
kept v = if is_defined v then or_default v empty_text else v

undefined_of : (v : Value) → is_defined v ≡ false → v ≡ undefined
undefined_of undefined h = refl
undefined_of _ h = cc

kept_facts :
    (v : Value)
    → (is_defined (kept v) ≡ is_defined v)
      × (or_default (kept v) empty_text ≡ or_default v empty_text)
      × (kept (kept v) ≡ kept v)
kept_facts v = (ground arith, ground arith, ground arith)

station_valid_again :
    (c f la lo v : Value)
    → station_valid c f la lo v ≡ true
    → station_valid c (or_default f empty_text) la lo (kept v) ≡ true
unfolding station_valid text_eq
station_valid_again c f la lo v h = ground (arith, undefined_of v)

station_fields_again :
    (c f la lo v : Value)
    → station_fields c (or_default f empty_text) la lo (kept v) ≡ station_fields c f la lo v
unfolding station_fields
station_fields_again c f la lo v = ground (arith, kept_facts v)

module _ (c f la lo v : Value) where
  station_fields_read :
      (get (codes "callsign") (station_fields c f la lo v) ≡ c)
      × (get (codes "freq") (station_fields c f la lo v) ≡ or_default f empty_text)
      × (get (codes "lat") (station_fields c f la lo v) ≡ la)
      × (get (codes "lon") (station_fields c f la lo v) ≡ lo)
      × (get (codes "voice") (station_fields c f la lo v) ≡ kept v)
  unfolding station_fields get text_eq
  station_fields_read = (
    refl,
    refl,
    ground (arith, undefined_of la),
    ground (arith, undefined_of lo, undefined_of la),
    ground (arith, undefined_of v, undefined_of la),
  )

  station_fields_keys : unexpected station_keys (station_fields c f la lo v) ≡ none
  unfolding station_fields unexpected in_keys text_eq
  station_fields_keys = ground arith

pub normalize_station_idempotent :
    (b : Bindings) {q : Bindings} → normalize_station b ≡ some q → normalize_station q ≡ some q
unfolding normalize_station
normalize_station_idempotent b {q} e =
    go (get (codes "callsign") b) (get (codes "freq") b) (get (codes "lat") b) (get (codes "lon") b)
      (get (codes "voice") b) (null_at-eq-some (unexpected station_keys b) _ e).1
  where
    go :
        (c f la lo v : Value)
        → require (station_valid c f la lo v) (some (station_fields c f la lo v)) ≡ some q
        → normalize_station q ≡ some q
    go c f la lo v h =
        let (valid, same) = require-eq-some (station_valid c f la lo v) _ h in
        let (r1, r2, r3, r4, r5) = station_fields_read c f la lo v in
        subst (λ x. normalize_station x ≡ some x) (some_inj same)
          (rw
            (
              station_fields_keys c f la lo v,
              r1,
              r2,
              r3,
              r4,
              r5,
              station_valid_again c f la lo v valid,
              station_fields_again c f la lo v,
            )
            refl)

read_stations-cons :
    (q : Bindings) (qs : List Value)
    → normalize_station q ≡ some q
    → read_stations qs ≡ ok qs
    → read_stations (object q ∷ qs) ≡ ok (object q ∷ qs)
unfolding read_stations
read_stations-cons q qs e f = rw (bindings-of_bindings, e, f)

read_stations_parts :
    (v : Value) (vs : List Value) {qs : List Value}
    → read_stations (v ∷ vs) ≡ ok qs
    → (b : Bindings) × (q : Bindings) × (rest : List Value) × (normalize_station b ≡ some q)
      × (read_stations vs ≡ ok rest)
      × (object q ∷ rest ≡ qs)
unfolding read_stations
read_stations_parts (obj fs) vs e = elim (Option-cases (normalize_station (bindings fs))) [
  | inl miss ↦ absurd (ground arith)
  | inr (q, hit) ↦
      let (rest, first, last) =
        >>=-eq-ok (read_stations vs) (λ r. ok (object q ∷ r)) (rw hit at e) in
      (bindings fs, q, rest, hit, first, ok-injective last)
]
read_stations_parts v vs e = absurd (ground arith)

pub read_stations_idempotent :
    (vs : List Value) {qs : List Value}
    → read_stations vs ≡ ok qs
    → (read_stations qs ≡ ok qs) × (length qs ≡ length vs)
unfolding read_stations
read_stations_idempotent [] e = rw (← ok-injective e) (refl, refl)
read_stations_idempotent (v ∷ vs) e =
    let (b, q, rest, hit, first, last) = read_stations_parts v vs e in
    let (again, size) = read_stations_idempotent vs first in
    rw (← last) (read_stations-cons q rest (normalize_station_idempotent b hit) again, ap suc size)

-- An accepted list of stations holds at most 250 of them, and is accepted again unchanged.
data Stations : Value → Type 0 where
  listed :
      (qs : List Value) → length qs ≤ 250 → read_stations qs ≡ ok qs → Stations (arr (of_list qs))

station_list-Stations : (v : Value) {r : Value} → station_list v ≡ ok r → Stations r
station_list-Stations (arr vs) e = elim (Bool-cases (leb (length (elems vs)) 250)) [
  | inl few ↦
      let (qs, read, same) = >>=-eq-ok (read_stations (elems vs)) _ (rw few at e) in
      let (again, size) = read_stations_idempotent (elems vs) read in
      subst Stations (ok-injective same) (listed qs (ground arith) again)
  | inr many ↦ absurd (ground arith)
]
station_list-Stations v e = absurd (ground arith)

Stations-station_list : {r : Value} → Stations r → station_list r ≡ ok r
Stations-station_list (listed qs few again) =
    let small : leb (length qs) 250 ≡ true = ground arith in rw (elems-of_list, small, again)

own_position_again :
    (v : Value)
    → is_own_position v ≡ true
    → (is_own_position (own_position v) ≡ true) × (own_position (own_position v) ≡ own_position v)
unfolding is_own_position get text_eq
own_position_again (obj fs) h = (h, refl)
own_position_again _ h = cc

-- What validateStationsState returns.
data StationsState : Bindings → Type 0 where
  without : {s : Value} → Stations s → StationsState ((codes "stations", s) ∷ [])
  with_own :
      {s own : Value}
      → Stations s
      → is_own_position own ≡ true
      → own_position own ≡ own
      → StationsState ((codes "stations", s) ∷ (codes "ownPosition", own) ∷ [])

validate-StationsState :
    (p : Bindings) {q : Bindings} → validate_stations_state p ≡ ok q → StationsState q
unfolding validate_stations_state
validate-StationsState p {q} e =
    let (s, first, last) =
      >>=-eq-ok (station_list (get (codes "stations") p)) _ (only-eq-ok _ p _ e).1 in
    let st = station_list-Stations (get (codes "stations") p) first in
    let own = get (codes "ownPosition") p in
    elim (Bool-cases (has (codes "ownPosition") p)) [
      | inl held ↦ elim (Bool-cases (is_own_position own)) [
        | inl valid ↦
            let (again, same) = own_position_again own valid in
            subst StationsState (ok-injective (rw (held, valid) at last)) (with_own st again same)
        | inr invalid ↦ absurd (ground arith)
      ]
      | inr out ↦ subst StationsState (ok-injective (rw out at last)) (without st)
    ]

StationsState-accepted : {q : Bindings} → StationsState q → validate_stations_state q ≡ ok q
unfolding validate_stations_state get has text_eq unexpected in_keys
StationsState-accepted (without s) = rw (Stations-station_list s)
StationsState-accepted (with_own s valid same) = rw (Stations-station_list s, valid, same)

-- An accepted stations payload is accepted again, unchanged.
pub validate_stations_state_idempotent :
    (p : Bindings) {q : Bindings}
    → validate_stations_state p ≡ ok q
    → validate_stations_state q ≡ ok q
validate_stations_state_idempotent p e = StationsState-accepted (validate-StationsState p e)
