-- ===== src/Protocol/Bounds.antt =====
-- Who may send what, and how large an accepted payload can be.
use voxhf.Protocol.Snapshot.Idempotent.{
  read_messages-Messages, Messages, read_messages-length, validate_chat_history_parts,
}
use voxhf.Protocol.Shape.Same.{require_shape_iff, require_shape_idempotent}
use voxhf.Protocol.Payload.{validate_payload}
use voxhf.Url.{Url}
use voxhf.Json.{Elems, elems, of_list, has, arr, get, Bindings, str, Value}
use voxhf.Protocol.Types.{Source, MessageType, allows}
use voxhf.Protocol.Shape.{in_keys, ok, Shape}
use voxhf.Protocol.Checks.{max_text_bytes, is_recipient, is_text_body}
use voxhf.Prelude.{
  ◌||◌, not, arith, byte_length, List, length, ◌≤◌, [], ◌≢◌, ◌∷◌, true, codes, Option, Text, ◌≡◌,
  refl,
}

-- No type but `ping` and `pong` may come from two different sources, so that a browser cannot speak
-- for an agent, nor either of them for the relay.
pub sources_exclusive :
    (type : MessageType) (s t : Source)
    → type ≢ MessageType.ping
    → type ≢ MessageType.pong
    → allows type s ≡ true
    → allows type t ≡ true
    → s ≡ t
unfolding allows
sources_exclusive MessageType.ping s t np nq h k = absurd (np refl)
sources_exclusive MessageType.pong s t np nq h k = absurd (nq refl)
sources_exclusive type s t np nq h k = ground arith

abbrev chat_send_shape : Shape
chat_send_shape = (codes "recipient", is_recipient) ∷ (codes "text", is_text_body) ∷ []

text_body_bounds :
    (v : Value)
    → is_text_body v ≡ true
    → (text : Text) × (v ≡ str text) × (1 ≤ length text) × (byte_length text ≤ max_text_bytes)
unfolding is_text_body
text_body_bounds (str s) h = (s, refl, ground arith, ground arith)
text_body_bounds _ h = cc

module _ (parse_url : Text → Option Url) where
  -- An accepted chat history has one property, a list of at most 50 messages, as many as the
  -- payload's list has. Each stands in the place of the payload's message, is what the validator of
  -- chat messages makes of it, and passes this validator again unchanged.
  pub chat_history_bounded :
      (p : Bindings) {q : Bindings}
      → validate_payload parse_url MessageType.chat_history p ≡ ok q
      → (vs : Elems) × (qs : List Value) × (get (codes "messages") p ≡ arr vs)
        × (q ≡ (codes "messages", arr (of_list qs)) ∷ [])
        × (length qs ≤ 50)
        × (length qs ≡ length (elems vs))
        × Messages (elems vs) qs
  unfolding validate_payload
  chat_history_bounded p e =
      let (vs, qs, found, few, read, same) = validate_chat_history_parts p e in
      (
        vs,
        qs,
        found,
        same,
        omega (arith, few, read_messages-length (elems vs) read),
        read_messages-length (elems vs) read,
        read_messages-Messages (elems vs) read,
      )

  -- An accepted chat command has exactly a recipient and a text, and the text takes from 1 to 1024
  -- bytes of UTF-8.
  pub chat_send_bounded :
      (p : Bindings) {q : Bindings}
      → validate_payload parse_url MessageType.chat_send p ≡ ok q
      → (text : Text) × (get (codes "text") q ≡ str text)
        × (1 ≤ length text)
        × (byte_length text ≤ max_text_bytes)
        × (is_recipient (get (codes "recipient") q) ≡ true)
        × ((k : Text) → (not (has k q) || in_keys k (codes "recipient" ∷ codes "text" ∷ [])) ≡ true)
  unfolding validate_payload
  chat_send_bounded p {q} e =
      let again = require_shape_idempotent p chat_send_shape [] e in
      let fits = (require_shape_iff q chat_send_shape []).0 (q, again) in
      let (text, found, low, high) =
        text_body_bounds (get (codes "text") q) fits.all_required.1.0.1 in
      (text, found, low, high, fits.all_required.0.1, λ k. ground (arith, fits.allowed k))
