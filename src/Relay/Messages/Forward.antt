-- ===== src/Relay/Messages/Forward.antt =====
-- What a validated message is, as apps/relay/index.js reads it, and that what the relay passes on to an
-- agent is what the protocol accepts.
use voxhf.Json.Laws.{bindings-of_bindings}
use voxhf.Relay.Browsers.{whole, Incoming}
use voxhf.Protocol.Message.Laws.{validate_remote_message_iff, known_type-spelling}
use voxhf.Protocol.Shape.{ok}
use voxhf.Protocol.Types.{Source, MessageType}
use voxhf.Protocol.Message.{source_allowed, envelope, validate_remote_message}
use voxhf.Url.{Url}
use voxhf.Json.{bindings, Bindings, str, get, Value}
use voxhf.Relay.Messages.{incoming}
use voxhf.Protocol.Checks.{is_id}
use voxhf.Prelude.{Text, subst, codes, arith, text_eq, Option, some, true, ◌≡◌, refl}

is_id-str : (v : Value) → is_id v ≡ true → (s : Text) × (v ≡ str s)
unfolding is_id
is_id-str (str s) h = (s, refl)
is_id-str _ h = absurd (ground arith)

incoming-envelope :
    (id : Text) (type : MessageType) (p : Bindings)
    → incoming (envelope (str id) type p) ≡ some (record { id = id; type = type; payload = p })
unfolding incoming get text_eq
incoming-envelope id type p = rw (known_type-spelling type, bindings-of_bindings p) refl

module _ (parse_url : Text → Option Url) where
  -- A message that the protocol accepts is read as what it is.
  pub incoming-validated :
      (v : Value) (source : Option Source) {b : Bindings}
      → validate_remote_message parse_url v source ≡ ok b
      → (m : Incoming) × (incoming b ≡ some m)
        × (whole m ≡ b)
        × (source_allowed m.type source ≡ true)
  incoming-validated v source {b} e =
      let (fs, is_object, a) = (validate_remote_message_iff parse_url source v b).0 e in
      let (id, named) = is_id-str (get (codes "id") (bindings fs)) a.id in
      let m : Incoming = record { id = id; type = a.type; payload = a.normalized } in
      let same : whole m ≡ b = subst (λ x. envelope x a.type a.normalized ≡ b) named a.result in
      (
        m,
        subst (λ x. incoming x ≡ some m) same (incoming-envelope id a.type a.normalized),
        same,
        a.allowed,
      )
