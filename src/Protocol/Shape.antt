-- ===== src/Protocol/Shape.antt =====
-- ok, fail, noExtraPayload and requireShape of packages/protocol/index.js.
pub mod Laws
pub mod Same
use voxhf.Prelude.{
  ◌≡◌, refl, Bool, true, false, not, ◌&&◌, ◌||◌, Option, none, some, List, [], ◌∷◌, ◌++◌, Text,
  codes, text_eq, if◌then◌else◌,
}
use voxhf.Json.{Value, Bindings, has, get, put}

-- `ok(payload)` and `fail(error)`.
pub data Result {ℓ} (A : Type ℓ) : Type ℓ where
  ok : A → Result A
  fail : Text → Result A

infixl 5 ◌>>=◌
abbrev pub ◌>>=◌ {ℓ κ} : {A : Type ℓ} {B : Type κ} → Result A → (A → Result B) → Result B
ok a >>= f = f a
fail e >>= f = fail e

-- `if (!test) return fail(error); …`
abbrev pub unless {ℓ} : {A : Type ℓ} → Bool → Text → Result A → Result A
unless true error rest = rest
unless false error rest = fail error

-- `if (!normalized) return fail(error); …`
abbrev pub or_fail {ℓ κ} : {A : Type ℓ} {B : Type κ} → Option A → Text → (A → Result B) → Result B
or_fail none error rest = fail error
or_fail (some a) error rest = rest a

abbrev pub Validator : Type 0
Validator = Value → Bool

-- `{ key: validator, … }`
abbrev pub Shape : Type 0
Shape = List (Text × Validator)

abbrev pub names : Shape → List Text
names [] = []
names ((key, validator) ∷ shape) = key ∷ names shape

-- `allowed.has(key)`
unfoldable pub in_keys : Text → List Text → Bool
in_keys k [] = false
in_keys k (j ∷ js) = text_eq j k || in_keys k js

-- The first key of the payload that is not allowed.
unfoldable pub unexpected : List Text → Bindings → Option Text
unexpected allowed [] = none
unexpected allowed ((k, v) ∷ b) = if in_keys k allowed then unexpected allowed b else some k

abbrev pub stop_at {ℓ} : {A : Type ℓ} → Option Text → Result A → Result A
stop_at none rest = rest
stop_at (some k) rest = fail (codes "unexpected payload field: " ++ k)

-- `for (const key of Object.keys(payload)) if (!allowed.has(key)) return fail(…); …`
abbrev pub only {ℓ} : {A : Type ℓ} → List Text → Bindings → Result A → Result A
only allowed payload rest = stop_at (unexpected allowed payload) rest

abbrev pub invalid_field : Text → Text
invalid_field key = codes "invalid payload field: " ++ key

unfoldable pub no_extra_payload : Bindings → Result Bindings
no_extra_payload [] = ok []
no_extra_payload (f ∷ payload) = fail (codes "payload must be empty")

-- The loop over the required fields.
unfoldable pub read_required : Shape → Bindings → Bindings → Result Bindings
read_required [] payload normalized = ok normalized
read_required ((key, validator) ∷ shape) payload normalized =
    unless (has key payload) (codes "missing payload field: " ++ key) (
      unless (validator (get key payload)) (invalid_field key)
        (read_required shape payload (put key (get key payload) normalized)))

-- The loop over the optional fields.
unfoldable pub read_optional : Shape → Bindings → Bindings → Result Bindings
read_optional [] payload normalized = ok normalized
read_optional ((key, validator) ∷ shape) payload normalized =
    let skipped = read_optional shape payload normalized in
    let taken =
      unless (validator (get key payload)) (invalid_field key)
        (read_optional shape payload (put key (get key payload) normalized)) in
    if has key payload then taken else skipped

unfoldable pub require_shape : Bindings → Shape → Shape → Result Bindings
require_shape payload required optional =
    only (names required ++ names optional) payload (
      read_required required payload [] >>= λ normalized. read_optional optional payload normalized)
