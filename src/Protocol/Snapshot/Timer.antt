-- ===== src/Protocol/Snapshot/Timer.antt =====
-- The timer payload of packages/protocol/index.js: exactly which payloads validateUnicomTimerState
-- accepts.
use voxhf.Protocol.Shape.Laws.{
  no_unexpected, ok-injective, unless-eq-ok, found_unexpected, only-eq-ok,
}
use voxhf.Protocol.Snapshot.Idempotent.{inactive, TimerState-accepted}
use voxhf.Protocol.Shape.{unexpected, in_keys, ok}
use voxhf.Protocol.Checks.{is_iso_like, is_boolean}
use voxhf.Protocol.Snapshot.{timer_keys, validate_unicom_timer_state, timer_fields}
use voxhf.Json.{undefined, has, bool, Value, get, Bindings}
use voxhf.Prelude.{
  sym, ==_iff, ◌==◌, text_eq_iff, ap₂, text_eq, subst, Bool-cases, Option-cases, arith, ◌↔◌, length,
  codes, Text, List, ◌∷◌, [], refl, ◌≡◌, none, true, false, inl, inr,
}

-- Which timer payloads are accepted, and as what: `active: false` alone, or `active: true` with its
-- two timestamps and nothing else.
pub data TimerPayload : Bindings → Bindings → Type 0 where
  stopped : TimerPayload ((codes "active", bool false) ∷ []) ((codes "active", bool false) ∷ [])
  running_until :
      (p : Bindings) (started expires : Value)
      → ((k : Text) → has k p ≡ true → in_keys k timer_keys ≡ true)
      → get (codes "active") p ≡ bool true
      → get (codes "startedAt") p ≡ started
      → get (codes "expiresAt") p ≡ expires
      → is_iso_like started ≡ true
      → is_iso_like expires ≡ true
      → TimerPayload p (
          (codes "active", bool true)
          ∷ (codes "startedAt", started)
          ∷ (codes "expiresAt", expires)
          ∷ [])

only_active :
    (p : Bindings)
    → length p ≡ 1
    → get (codes "active") p ≡ bool false
    → p ≡ (codes "active", bool false) ∷ []
unfolding get
only_active [] n e = absurd (ground arith)
only_active ((k, v) ∷ f ∷ p) n e = absurd (ground arith)
only_active ((k, v) ∷ []) n e = elim (Bool-cases (text_eq k (codes "active"))) [
  | inl same ↦ ap₂ (λ x y. (x, y) ∷ []) ((text_eq_iff k (codes "active")).0 same) (rw same at e)
  | inr other ↦ absurd (no_false (rw other at e))
]
  where
    no_false : undefined ≡ bool false → ⊥
    no_false e = cc

timer_fields-TimerPayload :
    (p : Bindings) (active : Value) {q : Bindings}
    → unexpected timer_keys p ≡ none
    → get (codes "active") p ≡ active
    → timer_fields (length p) active (get (codes "startedAt") p) (get (codes "expiresAt") p) ≡ ok q
    → TimerPayload p q
unfolding timer_fields is_boolean
timer_fields-TimerPayload p (bool true) {q} known found e =
    let started = get (codes "startedAt") p in
    let expires = get (codes "expiresAt") p in
    let (s, e') = unless-eq-ok (is_iso_like started) _ _ e in
    let (t, e'') = unless-eq-ok (is_iso_like expires) _ _ e' in
    subst (TimerPayload p) (ok-injective e'') (
      running_until p started expires (λ k h. ground (arith, h, no_unexpected timer_keys p known k))
        found refl refl s t)
timer_fields-TimerPayload p (bool false) {q} known found e =
    let (single, e') = unless-eq-ok (length p == 1) _ _ e in
    let whole = only_active p ((==_iff (length p) 1).0 single) found in
    subst (λ x. TimerPayload x q) (sym whole)
      (subst (TimerPayload ((codes "active", bool false) ∷ [])) (ok-injective e') stopped)
timer_fields-TimerPayload p v known found e = absurd (ground arith)

none-unexpected :
    (allowed : List Text) (p : Bindings)
    → ((k : Text) → has k p ≡ true → in_keys k allowed ≡ true)
    → unexpected allowed p ≡ none
none-unexpected allowed p known = elim (Option-cases (unexpected allowed p)) [
  | inl e ↦ e
  | inr (k, e) ↦
      let (held, other) = found_unexpected allowed p k e in
      absurd (ground (arith, known k held, other))
]

TimerPayload-accepted : {p q : Bindings} → TimerPayload p q → validate_unicom_timer_state p ≡ ok q
unfolding validate_unicom_timer_state timer_fields is_boolean
TimerPayload-accepted stopped = TimerState-accepted inactive
TimerPayload-accepted (running_until p started expires known active s t iso_s iso_t) =
    rw (none-unexpected timer_keys p known, active, s, t, iso_s, iso_t) refl

-- A timer payload is accepted exactly when it is `{ active: false }` alone, so that no timestamp
-- outlives a cancellation, or when it has `active: true`, its two timestamps and no other property;
-- the result has these properties and no other.
pub validate_unicom_timer_state_iff :
    (p q : Bindings) → (validate_unicom_timer_state p ≡ ok q) ↔ TimerPayload p q
unfolding validate_unicom_timer_state
validate_unicom_timer_state_iff p q = (
  λ e.
      let (known, fields) = only-eq-ok timer_keys p _ e in
      timer_fields-TimerPayload p (get (codes "active") p) known refl fields,
  TimerPayload-accepted,
)
