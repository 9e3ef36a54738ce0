-- ===== src/VoiceRouter/Endpoint.antt =====
-- getEndpoint: the local address of a voice server, and what its two transports report.
use voxhf.Dict.{insert, lookup, count_values}
use voxhf.VoiceRouter.{byte_at, Router, Route}
use voxhf.Prelude.{
  ◌%◌, ◌/◌, is_digit, ◌||◌, ◌>>=◌, ◌+◌, ◌++◌, ◌&&◌, text_eq, not, length, leb, false, ◌==◌, ltb,
  is_some, is_lower, codes, if◌then◌else◌, Option, List, Bool, ℕ, Text, ◌∷◌, [], none, some,
}

abbrev pub max_servers : ℕ
max_servers = 32

-- A number below 1000, as a template literal prints it.
abbrev pub decimal : ℕ → Text
decimal n =
    if ltb n 10
    then (48 + n) ∷ []
    else if ltb n 100
    then (48 + n / 10) ∷ (48 + n % 10) ∷ []
    else (48 + n / 100) ∷ (48 + (n / 10) % 10) ∷ (48 + n % 10) ∷ []

abbrev pub label_char : ℕ → Bool
label_char c = is_lower c || is_digit c || c == b'-'

abbrev pub skip_while : (ℕ → Bool) → Text → Text
skip_while class [] = []
skip_while class (c ∷ s) = if class c then skip_while class s else c ∷ s

abbrev pub starts_ts : Text → Option Text
starts_ts (a ∷ b ∷ c ∷ s) = if a == b't' && b == b's' && c == b'-' then some s else none
starts_ts _ = none

abbrev pub starts_dot : Text → Option Text
starts_dot (c ∷ s) = if c == b'.' then some s else none
starts_dot [] = none

-- `class+`
abbrev pub some_of : (ℕ → Bool) → Text → Option Text
some_of class s =
    if ltb (length (skip_while class s)) (length s) then some (skip_while class s) else none

-- `/^ts-\d+\.[a-z0-9-]+\.ivao\.aero$/`. A dot ends the digits and the label, so that the longest match
-- of each is the only one.
unfoldable pub supported_host : Text → Bool
supported_host s = is_some (
    starts_ts s >>= some_of is_digit >>= starts_dot >>= some_of label_char >>= λ rest.
    if text_eq rest (codes ".ivao.aero") then some rest else none)

-- The promise: rejected with a message, rejected with the failure of the route, or the address once
-- both transports listen.
pub data Outcome : Type 0 where
  rejected : Text → Outcome
  failed_before : Outcome
  promised : Text → Outcome

abbrev pub has_address : Text → Route → Bool
has_address address route = text_eq route.address address

abbrev pub new_route : Text → Route
new_route address = record { address = address; remaining = 2; settled = false; failed = false }

abbrev pub of_existing : Route → Outcome
of_existing route = if route.failed then failed_before else promised route.address

module _ (sha256 : Text → List ℕ) where
  abbrev pub address_of : Text → Text
  address_of host =
      let hash = sha256 host in
      codes "127."
      ++ (decimal (64 + byte_at 0 hash % 64)
          ++ (b'.' ∷ (decimal (byte_at 1 hash) ++ (b'.' ∷ decimal (1 + byte_at 2 hash % 254)))))

  module _ {Target : Type 0} where
    -- The end of getEndpoint, for a host that has no route.
    unfoldable pub open_route : Text → Router Target → Router Target × Outcome
    open_route host r =
        let address = address_of host in
        if leb max_servers (length r.routes)
        then (r, rejected (codes "TS2 endpoint limit reached"))
        else if leb 1 (count_values (has_address address) r.routes)
        then (r, rejected (codes "TS2 local endpoint address collision"))
        else (record r { routes = insert host (new_route address) r.routes }, promised address)

    abbrev pub find_route : Text → Router Target → Option Route → Router Target × Outcome
    find_route host r none = open_route host r
    find_route host r (some route) = (r, of_existing route)

    -- getEndpoint, on the trimmed host in lower case.
    unfoldable pub get_endpoint : Text → Router Target → Router Target × Outcome
    get_endpoint host r =
        if not (supported_host host)
        then (r, rejected (codes "Unsupported IVAO TS2 hostname"))
        else if r.closed
        then (r, rejected (codes "TS2 router is closed"))
        else find_route host r (lookup host r.routes)
