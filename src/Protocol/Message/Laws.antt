-- ===== src/Protocol/Message/Laws.antt =====
-- What an accepted message is, and that it is accepted again.
use voxhf.Json.Laws.{bindings-of_bindings}
use voxhf.Protocol.Payload.{validate_payload}
use voxhf.Protocol.Payload.Idempotent.{validate_payload_idempotent}
use voxhf.Protocol.Checks.{is_id}
use voxhf.Protocol.Snapshot.{as_object, object}
use voxhf.Protocol.Shape.Laws.{ok-injective, >>=-eq-ok, or_fail-eq-ok, unless-eq-ok}
use voxhf.Protocol.Shape.{ok}
use voxhf.Url.{Url}
use voxhf.Protocol.Message.{
  payload_or_empty, envelope, source_allowed, is_version, validate_remote_message, type_of,
}
use voxhf.Json.{obj, get, bindings, Fields, Bindings, str, Value}
use voxhf.Protocol.Types.{find_type, message_types, Source, spelling, MessageType, known_type}
use voxhf.Prelude.{
  sym, [], inr, text_eq_iff, some_inj, inl, Bool-cases, ◌∷◌, true, subst, ◌↔◌, text_eq, codes, ap,
  Option, List, Text, some, ◌≡◌, refl,
}

pub known_type-spelling : (type : MessageType) → known_type (spelling type) ≡ some type
unfolding known_type
known_type-spelling MessageType.ping = refl
known_type-spelling _ = refl

-- When a message is accepted, said without the order of the tests.
pub record Accepts (parse_url : Text → Option Url) (source : Option Source) (m q : Bindings)
    : Type 0 where
  pub type : MessageType
  pub payload : Bindings
  pub normalized : Bindings
  pub version : is_version (get (codes "v") m) ≡ true
  pub id : is_id (get (codes "id") m) ≡ true
  pub named : get (codes "type") m ≡ str (spelling type)
  pub allowed : source_allowed type source ≡ true
  pub object_payload : as_object (payload_or_empty (get (codes "payload") m)) ≡ some payload
  pub valid : validate_payload parse_url type payload ≡ ok normalized
  pub result : envelope (get (codes "id") m) type normalized ≡ q

find_type_sound :
    (s : Text) (ts : List MessageType) {t : MessageType} → find_type s ts ≡ some t → s ≡ spelling t
find_type_sound s [] e = cc
find_type_sound s (t ∷ ts) e = elim (Bool-cases (text_eq s (spelling t))) [
  | inl same ↦
      subst (λ x. s ≡ spelling x) (some_inj (rw same at e)) ((text_eq_iff s (spelling t)).0 same)
  | inr other ↦ find_type_sound s ts (rw other at e)
]

type_of_sound : (v : Value) {t : MessageType} → type_of v ≡ some t → v ≡ str (spelling t)
unfolding known_type
type_of_sound (str s) e = ap str (find_type_sound s message_types e)
type_of_sound _ e = cc

module _ (parse_url : Text → Option Url) (source : Option Source) where
  parts_of_ok :
      (fs : Fields) {q : Bindings}
      → validate_remote_message parse_url (obj fs) source ≡ ok q
      → Accepts parse_url source (bindings fs) q
  unfolding validate_remote_message
  parts_of_ok fs e =
      let m = bindings fs in
      let (v, h1) = unless-eq-ok (is_version (get (codes "v") m)) _ _ e in
      let (i, h2) = unless-eq-ok (is_id (get (codes "id") m)) _ _ h1 in
      let (type, named, h3) = or_fail-eq-ok (type_of (get (codes "type") m)) _ _ h2 in
      let (a, h4) = unless-eq-ok (source_allowed type source) _ _ h3 in
      let (p, found, h5) =
        or_fail-eq-ok (as_object (payload_or_empty (get (codes "payload") m))) _ _ h4 in
      let (r, valid, last) = >>=-eq-ok (validate_payload parse_url type p) _ h5 in
      record {
        type = type;
        payload = p;
        normalized = r;
        version = v;
        id = i;
        named = type_of_sound (get (codes "type") m) named;
        allowed = a;
        object_payload = found;
        valid = valid;
        result = ok-injective last;
      }

  ok_of_parts :
      (fs : Fields) {q : Bindings}
      → Accepts parse_url source (bindings fs) q
      → validate_remote_message parse_url (obj fs) source ≡ ok q
  unfolding validate_remote_message
  ok_of_parts fs a = rw (
    a.version,
    a.id,
    a.named,
    known_type-spelling a.type,
    a.allowed,
    a.object_payload,
    a.valid,
    a.result,
  )

  object_of_ok :
      (v : Value) {q : Bindings}
      → validate_remote_message parse_url v source ≡ ok q
      → (fs : Fields) × (v ≡ obj fs) × Accepts parse_url source (bindings fs) q
  unfolding validate_remote_message
  object_of_ok (obj fs) e = (fs, refl, parts_of_ok fs e)
  object_of_ok _ e = cc

  -- A message is accepted exactly when it is an object with protocol version 1, a valid id, a
  -- known type that the source may send, and a payload that the type's validator accepts; the
  -- result is the envelope of these four and nothing else.
  pub validate_remote_message_iff :
      (v : Value) (q : Bindings)
      → (validate_remote_message parse_url v source ≡ ok q)
        ↔ ((fs : Fields) × (v ≡ obj fs) × Accepts parse_url source (bindings fs) q)
  validate_remote_message_iff v q = (
    object_of_ok v,
    λ (fs, is_object, a).
        subst (λ x. validate_remote_message parse_url x source ≡ ok q) (sym is_object)
          (ok_of_parts fs a),
  )

  envelope-Accepts :
      (id : Value) (type : MessageType) (p : Bindings)
      → is_id id ≡ true
      → source_allowed type source ≡ true
      → validate_payload parse_url type p ≡ ok p
      → validate_remote_message parse_url (object (envelope id type p)) source
        ≡ ok (envelope id type p)
  unfolding validate_remote_message get text_eq
  envelope-Accepts id type p i a valid =
      rw (bindings-of_bindings, i, known_type-spelling type, a, valid)

  -- A message that one hop has accepted and rebuilt is accepted by the next hop, unchanged.
  pub validate_remote_message_idempotent :
      (v : Value) {q : Bindings}
      → validate_remote_message parse_url v source ≡ ok q
      → validate_remote_message parse_url (object q) source ≡ ok q
  unfolding validate_remote_message
  validate_remote_message_idempotent (obj fs) e =
      let a = parts_of_ok fs e in
      subst (λ x. validate_remote_message parse_url (object x) source ≡ ok x) a.result
        (envelope-Accepts (get (codes "id") (bindings fs)) a.type a.normalized a.id a.allowed
          (validate_payload_idempotent parse_url a.type a.payload a.valid))
  validate_remote_message_idempotent _ e = cc
