-- ===== src/Protocol/Message.antt =====
-- validateRemoteMessage and parseRemoteJson: the envelope.
pub mod Laws
use voxhf.Protocol.Payload.{validate_payload}
use voxhf.Protocol.Checks.{is_id}
use voxhf.Protocol.Snapshot.{object, as_object}
use voxhf.Protocol.Shape.{◌>>=◌, ok, unless, or_fail, Result}
use voxhf.Url.{Url}
use voxhf.Protocol.Types.{spelling, relay, allows, known_type, agent, browser, Source, MessageType}
use voxhf.Json.{get, undefined, fin, equals, str, num, end, obj, Bindings, Value}
use voxhf.Prelude.{
  byte_length, ◌∷◌, leb, ◌++◌, none, false, some, true, [], codes, Option, Bool, ◌*◌, Text, ℕ,
}

-- REMOTE_PROTOCOL_VERSION and MAX_JSON_MESSAGE_BYTES.
abbrev pub remote_protocol_version : ℕ
remote_protocol_version = 1

abbrev pub max_json_message_bytes : ℕ
max_json_message_bytes = 64 * 1024

abbrev pub is_version : Value → Bool
is_version (num x) = equals x remote_protocol_version
is_version _ = false

-- The type that a value names: isKnownType, on a value.
abbrev pub type_of : Value → Option MessageType
type_of (str s) = known_type s
type_of _ = none

abbrev pub source_text : Source → Text
source_text browser = codes "browser"
source_text agent = codes "agent"
source_text relay = codes "relay"

-- `options.source && !allowedSources.includes(options.source)`
abbrev pub source_allowed : MessageType → Option Source → Bool
source_allowed type none = true
source_allowed type (some source) = allows type source

abbrev pub source_error : MessageType → Option Source → Text
source_error type none = []
source_error type (some source) =
    codes "message type "
    ++ (spelling type ++ (codes " is not allowed from " ++ source_text source))

-- `message.payload === undefined ? {} : message.payload`
abbrev pub payload_or_empty : Value → Value
payload_or_empty undefined = obj end
payload_or_empty v = v

abbrev pub envelope : Value → MessageType → Bindings → Bindings
envelope id type payload =
    (codes "v", num (fin false remote_protocol_version 0))
    ∷ (codes "id", id)
    ∷ (codes "type", str (spelling type))
    ∷ (codes "payload", object payload)
    ∷ []

module _ (parse_url : Text → Option Url) where
  unfoldable pub validate_remote_message : Value → Option Source → Result Bindings
  validate_remote_message message source =
      or_fail (as_object message) (codes "message must be an object") λ m.
        unless (is_version (get (codes "v") m)) (codes "unsupported protocol version") (
          unless (is_id (get (codes "id") m)) (codes "invalid message id") (
            or_fail (type_of (get (codes "type") m)) (codes "unknown message type") λ type.
              unless (source_allowed type source) (source_error type source) (
                or_fail (as_object (payload_or_empty (get (codes "payload") m)))
                  (codes "payload must be an object")
                  λ payload. validate_payload parse_url type payload >>= λ q.
                    ok (envelope (get (codes "id") m) type q))))

  -- JSON.parse is the platform's; `none` is the SyntaxError it throws.
  unfoldable pub parse_remote_json : (Text → Option Value) → Text → Option Source → Result Bindings
  parse_remote_json parse_json text source =
      unless (leb (byte_length text) max_json_message_bytes) (codes "message too large") (
        or_fail (parse_json text) (codes "invalid json")
          λ value. validate_remote_message value source)
