-- ===== src/VoiceRouter.antt =====
-- proxy/ts2-voice-router.js: which TS2 voice server is active, and which packets of the pilot's client
-- reach the rest of the proxy. A route is known by its host, as `routes` holds one for each and drops
-- none. A packet is its list of bytes. trim, toLowerCase and SHA-256 are parameters, and so is the
-- type of targets. Sockets and timers are not modelled; what the code asks of them is an effect.
pub mod Endpoint
pub mod Session
pub mod Reserved
pub mod Listeners
pub mod Failed
mod Tests
use voxhf.Dict.{Dict}
use voxhf.Prelude.{
  all, not, length, ◌||◌, ◌==◌, ◌*◌, ◌&&◌, zero, text_eq, leb, is_none, drop, ◌+◌, ◌++◌, take, suc,
  if◌then◌else◌, codes, Bool, ℕ, false, Text, Option, List, ◌∷◌, [], none, some,
}

pub record Route : Type 0 where
  pub address : Text
  -- transports that are not listening yet
  pub remaining : ℕ
  pub settled : Bool
  pub failed : Bool

pub record Router (Target : Type 0) : Type 0 where
  pub routes : Dict Route
  pub active : Option Text
  pub active_key : Text
  pub active_target : Option Target
  pub session_bytes : Option (List ℕ)
  pub closed : Bool

pub data Effect : Type 0 where
  -- active.proxy.stopVoiceDecoder()
  stop_decoder : Text → Effect
  -- options.onSessionReset(reason)
  session_reset : Text → Effect
  -- options.onClientPacket(packet, scopedKey)
  forwarded : List ℕ → Text → Effect
  -- options.onClientClose(scopedKey, reason)
  client_closed : Text → Text → Effect
  -- route.proxy.resetUdpClients(reason)
  reset_clients : Text → Text → Effect
  -- route.proxy.close(reason)
  close_proxy : Text → Text → Effect

abbrev pub byte_at : ℕ → List ℕ → ℕ
byte_at n [] = 0
byte_at zero (b ∷ bs) = b
byte_at (suc n) (b ∷ bs) = byte_at n bs

-- packet.readUInt16LE(0) and packet.readUInt16LE(2)
abbrev pub class_of : List ℕ → ℕ
class_of packet = byte_at 0 packet + 256 * byte_at 1 packet

abbrev pub subtype_of : List ℕ → ℕ
subtype_of packet = byte_at 2 packet + 256 * byte_at 3 packet

-- packet.subarray(4, 12)
abbrev pub seed_of : List ℕ → List ℕ
seed_of packet = take 8 (drop 4 packet)

unfoldable pub is_login : List ℕ → Bool
is_login packet = leb 16 (length packet) && class_of packet == 0xBEF4 && subtype_of packet == 0x0003

unfoldable pub is_setup : List ℕ → Bool
is_setup packet = class_of packet == 0xBEF0 && subtype_of packet == 0x0005

unfoldable pub is_seed_packet : List ℕ → Bool
is_seed_packet packet =
    is_setup packet
    || class_of packet == 0xBEF2
    || (class_of packet == 0xBEF1 && subtype_of packet == 0)
    || (class_of packet == 0xBEF4 && subtype_of packet == 1)

abbrev pub scoped_key : Text → Text → Text
scoped_key address key = address ++ (b'/' ∷ key)

-- `value === host`, for `active`
abbrev pub is_host : Text → Option Text → Bool
is_host host none = false
is_host host (some h) = text_eq h host

abbrev pub stop_active : Option Text → List Effect
stop_active none = []
stop_active (some host) = stop_decoder host ∷ []

-- `sessionBytes && packet.subarray(4, 12).equals(sessionBytes)`
abbrev pub in_session : List ℕ → Option (List ℕ) → Bool
in_session packet none = false
in_session packet (some bytes) = text_eq (seed_of packet) bytes

abbrev pub for_routes : (Text → Effect) → Dict Route → List Effect
for_routes f [] = []
for_routes f ((host, route) ∷ routes) = f host ∷ for_routes f routes

module _ {Target : Type 0} where
  abbrev pub initial : Router Target
  initial = record {
    routes = [];
    active = none;
    active_key = [];
    active_target = none;
    session_bytes = none;
    closed = false;
  }

  unfoldable pub clear_active : Text → Router Target → Router Target × List Effect
  clear_active reason r = (
    record r { active = none; active_key = []; active_target = none; session_bytes = none },
    stop_active r.active ++ (session_reset reason ∷ []),
  )

  -- The login branch of onClientPacket.
  unfoldable pub on_login : Text → Text → Target → Router Target → Router Target × List Effect
  on_login host key target r =
      let (cleared, effects) = clear_active (codes "voice connection changed") r in
      (
        record cleared { active = some host; active_key = key; active_target = some target },
        effects,
      )

  -- `!sessionBytes && activeKey === scopedKey && setup`, and a seed that is not zero
  abbrev pub may_learn : Text → List ℕ → Router Target → Bool
  may_learn key packet r =
      is_none r.session_bytes
      && text_eq r.active_key key
      && is_setup packet
      && not (all (λ b. b == 0) (seed_of packet))

  unfoldable pub learn_seed : Text → List ℕ → Router Target → Router Target
  learn_seed key packet r =
      if may_learn key packet r then record r { session_bytes = some (seed_of packet) } else r

  unfoldable pub pass_on : Text → Target → List ℕ → Router Target → Router Target × List Effect
  pass_on key target packet r =
      if is_seed_packet packet && in_session packet r.session_bytes
      then (record r { active_key = key; active_target = some target }, forwarded packet key ∷ [])
      else (r, [])

  -- What follows the login branch.
  unfoldable pub on_packet :
      Text → Text → Target → List ℕ → Router Target → Router Target × List Effect
  on_packet host key target packet r =
      if is_host host r.active && leb 16 (length packet)
      then pass_on key target packet (learn_seed key packet r)
      else (r, [])

  abbrev pub after : List Effect → Router Target × List Effect → Router Target × List Effect
  after effects (r, more) = (r, effects ++ more)

  -- onClientPacket of the route of `host`, whose scoped key is `key`.
  unfoldable pub on_client_packet :
      Text → Text → Target → List ℕ → Router Target → Router Target × List Effect
  on_client_packet host key target packet r =
      let (logged, effects) = on_login host key target r in
      if is_login packet
      then after effects (on_packet host key target packet logged)
      else on_packet host key target packet r

  unfoldable pub on_client_close : Text → Text → Text → Router Target → Router Target × List Effect
  on_client_close host key reason r =
      let (cleared, effects) = clear_active reason r in
      if is_host host r.active && text_eq r.active_key key
      then (cleared, effects ++ (client_closed key reason ∷ []))
      else (r, client_closed key reason ∷ [])

  unfoldable pub reset_udp_clients : Text → Router Target → Router Target × List Effect
  reset_udp_clients reason r =
      let (cleared, effects) = clear_active reason r in
      (cleared, effects ++ for_routes (λ host. reset_clients host reason) r.routes)
