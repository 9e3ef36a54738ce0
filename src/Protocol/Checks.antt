-- ===== src/Protocol/Checks.antt =====
-- The field validators of packages/protocol/index.js. Each regular expression is read as the walk
-- over the code units that it stands for.
use voxhf.Prelude.{
  ℕ, zero, suc, ◌+◌, ◌*◌, ◌-◌, Bool, true, false, not, ◌&&◌, ◌||◌, Option, none, some, List, [],
  ◌∷◌, Text, codes, text_eq, byte_length, is_digit, is_upper, is_alnum, length, all, any, leb, ◌==◌,
  if◌then◌else◌,
}
use voxhf.Json.{
  Value, bool, num, str, obj, bindings, get, is_text, equals, is_integer, at_least, at_most,
  at_least_minus, is_finite,
}
use voxhf.Url.{Url}

-- `/^[class]{lo,hi}$/`
unfoldable pub repeats : (ℕ → Bool) → ℕ → ℕ → Text → Bool
repeats class lo hi s = all class s && leb lo (length s) && leb (length s) hi

-- `typeof value === 'string' && test(value)`
abbrev pub text_and : (Text → Bool) → Value → Bool
text_and test (str s) = test s
text_and test _ = false

-- isPlainObject
unfoldable pub is_plain_object : Value → Bool
is_plain_object (obj fs) = true
is_plain_object _ = false

-- The class [A-Za-z0-9._:-].
unfoldable pub id_char : ℕ → Bool
id_char c = is_alnum c || c == b'.' || c == b'_' || c == b':' || c == b'-'

unfoldable pub is_id : Value → Bool
unfolding repeats id_char
is_id = text_and (repeats id_char 1 96)

unfoldable pub is_token_like : Value → Bool
unfolding repeats id_char
is_token_like = text_and (repeats id_char 8 160)

unfoldable pub is_user_id : Value → Bool
unfolding repeats
is_user_id = text_and (repeats (λ c. is_alnum c || c == b'.' || c == b'_' || c == b'-') 2 48)

unfoldable pub is_pairing_code : Value → Bool
unfolding repeats
is_pairing_code = text_and (repeats (λ c. is_upper c || is_digit c || c == b'-') 6 32)

abbrev pub max_text_bytes : ℕ
max_text_bytes = 1024

unfoldable pub is_short_text : Value → Bool
is_short_text = text_and λ s. leb 1 (length s) && leb (byte_length s) 128

unfoldable pub is_text_body : Value → Bool
is_text_body = text_and λ s. leb 1 (length s) && leb (byte_length s) max_text_bytes

unfoldable pub is_shortish_text : Value → ℕ → Bool
is_shortish_text v max_bytes = text_and (λ s. leb (byte_length s) max_bytes) v

-- The longest prefix of digits dropped: `[0-9]+` has matched if it is shorter than the text.
skip_digits : Text → Text
skip_digits [] = []
skip_digits (c ∷ s) = if is_digit c then skip_digits s else c ∷ s

-- `(?:[-+][A-Za-z0-9.:-]+)?$`
version_suffix : Text → Bool
version_suffix [] = true
version_suffix (c ∷ s) =
    (c == b'-' || c == b'+')
    && leb 1 (length s)
    && all (λ d. is_alnum d || d == b'.' || d == b':' || d == b'-') s

-- `(?:\.[0-9]+){lo,hi}` with at most `hi` groups left, then the suffix. A group begins with a dot,
-- which no suffix does, so that the longest match is the only one.
version_groups : ℕ → Bool → Text → Bool
version_groups hi enough [] = enough
version_groups zero enough (c ∷ s) = enough && version_suffix (c ∷ s)
version_groups (suc hi) enough (c ∷ s) =
    let rest = version_groups hi true (skip_digits s) in
    if c == b'.'
    then leb (length (skip_digits s) + 1) (length s) && rest
    else enough && version_suffix (c ∷ s)

drop_v : Text → Text
drop_v [] = []
drop_v (c ∷ s) = if c == b'v' then s else c ∷ s

unfoldable pub is_version_text : Value → Bool
unfolding skip_digits version_suffix version_groups drop_v
is_version_text = text_and λ s.
    let t = drop_v s in
    leb (length (skip_digits t) + 1) (length t)
    && version_groups 3 false (skip_digits t)
    && leb (byte_length s) 48

module _ (parse_url : Text → Option Url) where
  -- `try { test(new URL(value)) } catch { false }`
  abbrev pub url_and : (Url → Bool) → Text → Bool
  url_and test s = elim (parse_url s) [ none ↦ false | some u ↦ test u ]

  unfoldable pub is_url_text : Value → Bool
  unfolding text_eq
  is_url_text = text_and λ s.
      leb (byte_length s) 512
      && url_and (λ u. text_eq u.protocol (codes "https:") || text_eq u.protocol (codes "http:")) s

  unfoldable pub is_push_endpoint : Value → Bool
  unfolding text_eq
  is_push_endpoint =
      text_and λ s. leb (byte_length s) 4096 && url_and (λ u. text_eq u.protocol (codes "https:")) s

  unfoldable pub is_push_app_url : Value → Bool
  unfolding text_eq
  is_push_app_url = text_and λ s.
      leb (byte_length s) 512
      && url_and
          (λ u.
            let loopback =
              any (text_eq u.hostname)
                (codes "localhost" ∷ codes "127.0.0.1" ∷ codes "[::1]" ∷ []) in
            text_eq u.protocol (codes "https:") || (text_eq u.protocol (codes "http:") && loopback))
          s

-- The class [A-Za-z0-9_-] of base64url.
abbrev pub base64url_char : ℕ → Bool
base64url_char c = is_alnum c || c == b'_' || c == b'-'

unfoldable pub is_push_key : Value → Bool
is_push_key = text_and λ s. leb 8 (length s) && leb (length s) 512 && all base64url_char s

abbrev pub no_line_break : Text → Bool
no_line_break = all λ c. not (c == 13 || c == 10)

unfoldable pub is_watchdog_authorization : Value → Bool
is_watchdog_authorization =
    text_and λ s. leb 16 (length s) && leb (byte_length s) 4096 && no_line_break s

unfoldable pub is_watchdog_content_encoding : Value → Bool
unfolding text_eq
is_watchdog_content_encoding = is_text (codes "aes128gcm")

unfoldable pub is_watchdog_body : Value → Bool
is_watchdog_body =
    text_and λ s. leb 16 (length s) && leb (byte_length s) (24 * 1024) && all base64url_char s

unfoldable pub is_boolean : Value → Bool
is_boolean (bool b) = true
is_boolean _ = false

-- `Number.isInteger(value) && value >= lo && value <= hi`
abbrev pub integer_in : ℕ → ℕ → Value → Bool
integer_in lo hi (num x) = is_integer x && at_least x lo && at_most x hi
integer_in lo hi _ = false

unfoldable pub is_subscription_count : Value → Bool
is_subscription_count = integer_in 0 32

unfoldable pub is_sample_rate : Value → Bool
is_sample_rate = integer_in 8000 48000

unfoldable pub is_com : Value → Bool
is_com (num x) = equals x 1 || equals x 2
is_com _ = false

abbrev pub digit : ℕ → ℕ
digit c = c - b'0'

-- isFrequency. The numbers with three decimals from 100 to 199.999 are told apart by doubles and
-- keep their order, so that the comparisons are those of the thousandths.
unfoldable pub is_frequency : Value → Bool
is_frequency (str (a ∷ b ∷ c ∷ d ∷ e ∷ f ∷ g ∷ [])) =
    let khz =
      100_000 + digit b * 10_000 + digit c * 1000 + digit e * 100 + digit f * 10 + digit g in
    a == b'1'
    && d == b'.'
    && all is_digit (b ∷ c ∷ e ∷ f ∷ g ∷ [])
    && leb 118_000 khz
    && leb khz 136_975
is_frequency _ = false

unfoldable pub is_station_name : Value → Bool
unfolding repeats
is_station_name = text_and λ s.
    length s == 0
    || repeats (λ c. is_upper c || is_digit c || c == b'_' || c == b' ' || c == b'-') 1 32 s

unfoldable pub is_recipient : Value → Bool
unfolding text_eq repeats
is_recipient = text_and λ s.
    text_eq s (codes "*")
    || elim s [ [] ↦ false | c ∷ t ↦ c == b'@' && repeats is_digit 5 5 t ]
    || repeats (λ c. is_upper c || is_digit c || c == b'_') 2 16 s

unfoldable pub is_callsign : Value → Bool
unfolding repeats
is_callsign = text_and (repeats (λ c. is_upper c || is_digit c) 2 16)

-- `value === a || value === b || …`
abbrev one_of : List Text → Value → Bool
one_of options (str s) = any (text_eq s) options
one_of options _ = false

unfoldable pub is_flight_plan_status : Value → Bool
unfolding text_eq
is_flight_plan_status = one_of (codes "filed" ∷ codes "missing" ∷ [])

unfoldable pub is_weather_kind : Value → Bool
unfolding text_eq
is_weather_kind = one_of (codes "metar" ∷ codes "taf" ∷ [])

unfoldable pub is_weather_source : Value → Bool
unfolding text_eq
is_weather_source = one_of (codes "manual" ∷ codes "panel" ∷ codes "auto" ∷ [])

unfoldable pub is_weather_role : Value → Bool
unfolding text_eq
is_weather_role = one_of (codes "departure" ∷ codes "destination" ∷ [])

unfoldable pub is_icao : Value → Bool
unfolding repeats
is_icao = text_and (repeats is_upper 4 4)

-- isCoordinate(value, -bound, bound)
unfoldable pub is_coordinate : ℕ → Value → Bool
is_coordinate bound (num x) = is_finite x && at_least_minus x bound && at_most x bound
is_coordinate bound _ = false

unfoldable pub is_own_position : Value → Bool
unfolding is_coordinate get text_eq
is_own_position (obj fs) =
    is_coordinate 90 (get (codes "lat") (bindings fs))
    && is_coordinate 180 (get (codes "lon") (bindings fs))
is_own_position _ = false

unfoldable pub is_direction : Value → Bool
unfolding text_eq
is_direction = one_of (codes "incoming" ∷ codes "outgoing" ∷ [])

unfoldable pub is_squawk : Value → Bool
unfolding repeats
is_squawk = text_and (repeats (λ c. leb b'0' c && leb c b'7') 4 4)

unfoldable pub is_xpdr_mode : Value → Bool
unfolding text_eq
is_xpdr_mode = one_of (codes "stby" ∷ codes "alt" ∷ [])

unfoldable pub is_iso_like : Value → Bool
is_iso_like (str (a ∷ b ∷ c ∷ d ∷ e ∷ f ∷ g ∷ h ∷ i ∷ j ∷ k ∷ rest)) =
    all is_digit (a ∷ b ∷ c ∷ d ∷ f ∷ g ∷ i ∷ j ∷ []) && e == b'-' && h == b'-' && k == b'T'
is_iso_like _ = false
