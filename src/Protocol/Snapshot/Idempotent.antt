-- ===== src/Protocol/Snapshot/Idempotent.antt =====
-- Chat history, timer and station payloads pass their validators a second time, unchanged.
use voxhf.Protocol.Checks.{is_iso_like, is_boolean}
use voxhf.Protocol.Shape.{ok, in_keys, unexpected}
use voxhf.Json.{Fields, bool, bindings, obj, elems, Value, Bindings, of_list, arr, get, Elems}
use voxhf.Json.Laws.{elems-of_list, bindings-of_bindings}
use voxhf.Protocol.Shape.Same.{require_shape_idempotent}
use voxhf.Protocol.Shape.Laws.{only-eq-ok, >>=-eq-ok, ok-injective}
use voxhf.Protocol.Snapshot.{
  timer_keys, timer_fields, chat_history_messages, object, chat_optional,
  validate_unicom_timer_state, validate_chat_message, validate_chat_history, read_messages,
  chat_required,
}
use voxhf.Prelude.{
  ◌==◌, subst, ℕ, false, true, inr, sym, leb→le, inl, leb, Bool-cases, ◌≤◌, text_eq, codes, suc,
  arith, ap, length, ◌≡◌, refl, List, [], ◌∷◌,
}

validate_chat_message_idempotent :
    (p : Bindings) {q : Bindings} → validate_chat_message p ≡ ok q → validate_chat_message q ≡ ok q
unfolding validate_chat_message
validate_chat_message_idempotent p e = require_shape_idempotent p chat_required chat_optional e

read_messages-cons :
    (q : Bindings) (qs : List Value)
    → validate_chat_message q ≡ ok q
    → read_messages qs ≡ ok qs
    → read_messages (object q ∷ qs) ≡ ok (object q ∷ qs)
unfolding read_messages
read_messages-cons q qs e f = rw (bindings-of_bindings, e, f)

pub read_messages_idempotent :
    (vs : List Value) {qs : List Value} → read_messages vs ≡ ok qs → read_messages qs ≡ ok qs
unfolding read_messages
read_messages_idempotent [] e = rw (← ok-injective e)
read_messages_idempotent (obj fs ∷ vs) e =
    let (q, first, rest) = >>=-eq-ok (validate_chat_message (bindings fs)) _ e in
    let (qs', second, last) = >>=-eq-ok (read_messages vs) _ rest in
    rw (← ok-injective last) (
      read_messages-cons q qs' (validate_chat_message_idempotent (bindings fs) first)
        (read_messages_idempotent vs second))
read_messages_idempotent (v ∷ vs) e = absurd (ground arith)

-- Each value of the first list is a chat message, and the second list has in its place the message
-- that the validator made of it.
pub data Messages : List Value → List Value → Type 0 where
  no_more : Messages [] []
  message :
      (fs : Fields) (q : Bindings) (vs qs : List Value)
      → validate_chat_message (bindings fs) ≡ ok q
      → validate_chat_message q ≡ ok q
      → Messages vs qs
      → Messages (obj fs ∷ vs) (object q ∷ qs)

pub read_messages-Messages :
    (vs : List Value) {qs : List Value} → read_messages vs ≡ ok qs → Messages vs qs
unfolding read_messages
read_messages-Messages [] e = subst (Messages []) (ok-injective e) no_more
read_messages-Messages (obj fs ∷ vs) e =
    let (q, first, rest) = >>=-eq-ok (validate_chat_message (bindings fs)) _ e in
    let (qs', second, last) = >>=-eq-ok (read_messages vs) _ rest in
    subst (Messages (obj fs ∷ vs)) (ok-injective last) (
      message fs q vs qs' first (validate_chat_message_idempotent (bindings fs) first)
        (read_messages-Messages vs second))
read_messages-Messages (v ∷ vs) e = absurd (ground arith)

pub read_messages-length :
    (vs : List Value) {qs : List Value} → read_messages vs ≡ ok qs → length qs ≡ length vs
unfolding read_messages
read_messages-length [] e = rw (← ok-injective e)
read_messages-length (obj fs ∷ vs) e =
    let (q, first, rest) = >>=-eq-ok (validate_chat_message (bindings fs)) _ e in
    let (qs', second, last) = >>=-eq-ok (read_messages vs) _ rest in
    rw (← ok-injective last) (ap suc (read_messages-length vs second))
read_messages-length (v ∷ vs) e = absurd (ground arith)

pub validate_chat_history_parts :
    (p : Bindings) {q : Bindings}
    → validate_chat_history p ≡ ok q
    → (vs : Elems) × (qs : List Value) × (get (codes "messages") p ≡ arr vs)
      × (length (elems vs) ≤ 50)
      × (read_messages (elems vs) ≡ ok qs)
      × (q ≡ (codes "messages", arr (of_list qs)) ∷ [])
unfolding validate_chat_history
validate_chat_history_parts p {q} e = go (get (codes "messages") p) (ground arith)
  where
    go :
        (v : Value)
        → chat_history_messages v ≡ ok q
        → (vs : Elems) × (qs : List Value) × (v ≡ arr vs)
          × (length (elems vs) ≤ 50)
          × (read_messages (elems vs) ≡ ok qs)
          × (q ≡ (codes "messages", arr (of_list qs)) ∷ [])
    go (arr vs) h = elim (Bool-cases (leb (length (elems vs)) 50)) [
      | inl few ↦
          let (qs, read, same) = >>=-eq-ok (read_messages (elems vs)) _ (rw few at h) in
          (vs, qs, refl, leb→le _ _ few, read, sym (ok-injective same))
      | inr many ↦ absurd (ground arith)
    ]
    go v h = absurd (ground arith)

pub validate_chat_history_idempotent :
    (p : Bindings) {q : Bindings} → validate_chat_history p ≡ ok q → validate_chat_history q ≡ ok q
unfolding validate_chat_history unexpected in_keys text_eq get
validate_chat_history_idempotent p e =
    let (vs, qs, found, few, read, same) = validate_chat_history_parts p e in
    let again = read_messages_idempotent (elems vs) read in
    let small : leb (length qs) 50 ≡ true = ground (arith, read_messages-length (elems vs) read) in
    rw (same, elems-of_list, small, again)

-- What an accepted timer payload becomes: one field when inactive, three when active.
pub data TimerState : Bindings → Type 0 where
  inactive : TimerState ((codes "active", bool false) ∷ [])
  running :
      (started expires : Value)
      → is_iso_like started ≡ true
      → is_iso_like expires ≡ true
      → TimerState (
          (codes "active", bool true)
          ∷ (codes "startedAt", started)
          ∷ (codes "expiresAt", expires)
          ∷ [])

timer_fields-TimerState :
    (size : ℕ) (active started expires : Value) {q : Bindings}
    → timer_fields size active started expires ≡ ok q
    → TimerState q
unfolding timer_fields is_boolean
timer_fields-TimerState size (bool true) started expires e =
    elim (Bool-cases (is_iso_like started)) [
      | inl s ↦ elim (Bool-cases (is_iso_like expires)) [
        | inl t ↦ subst TimerState (ok-injective (rw (s, t) at e)) (running started expires s t)
        | inr t ↦ absurd (ground arith)
      ]
      | inr s ↦ absurd (ground arith)
    ]
timer_fields-TimerState size (bool false) started expires e = elim (Bool-cases (size == 1)) [
  | inl s ↦ subst TimerState (ok-injective (rw s at e)) inactive
  | inr s ↦ absurd (ground arith)
]
timer_fields-TimerState size v started expires e = absurd (ground arith)

pub TimerState-accepted : {q : Bindings} → TimerState q → validate_unicom_timer_state q ≡ ok q
unfolding validate_unicom_timer_state timer_fields unexpected in_keys text_eq get is_boolean
TimerState-accepted inactive = refl
TimerState-accepted (running started expires s t) = rw (s, t)

-- An accepted timer payload is accepted again, unchanged.
pub validate_unicom_timer_state_canonical :
    (p : Bindings) {q : Bindings}
    → validate_unicom_timer_state p ≡ ok q
    → TimerState q × (validate_unicom_timer_state q ≡ ok q)
unfolding validate_unicom_timer_state
validate_unicom_timer_state_canonical p e =
    let state = timer_fields-TimerState _ _ _ _ (only-eq-ok timer_keys p _ e).1 in
    (state, TimerState-accepted state)
