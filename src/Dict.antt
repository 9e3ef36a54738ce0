-- ===== src/Dict.antt =====
-- A JavaScript Map with string keys, in insertion order. A new key goes to the end; a key that is
-- there keeps its place.
pub mod Laws
use voxhf.Prelude.{some, ◌+◌, text_eq, none, if◌then◌else◌, [], ◌∷◌, Option, Text, List, Bool, ℕ}

abbrev pub Dict {ℓ} : Type ℓ → Type ℓ
Dict V = List (Text × V)

module _ {ℓ} {V : Type ℓ} where
  -- `map.get(key)`
  unfoldable pub lookup : Text → Dict V → Option V
  lookup k [] = none
  lookup k ((j, v) ∷ m) = if text_eq j k then some v else lookup k m

  -- `map.set(key, value)`
  unfoldable pub insert : Text → V → Dict V → Dict V
  insert k v [] = (k, v) ∷ []
  insert k v ((j, w) ∷ m) = if text_eq j k then (k, v) ∷ m else (j, w) ∷ insert k v m

  -- `map.delete(key)`
  unfoldable pub remove : Text → Dict V → Dict V
  remove k [] = []
  remove k ((j, w) ∷ m) = if text_eq j k then remove k m else (j, w) ∷ remove k m

  -- `for (const [key, value] of map.entries()) if (!keep(value)) map.delete(key)`
  unfoldable pub keep_values : (V → Bool) → Dict V → Dict V
  keep_values keep [] = []
  keep_values keep ((j, w) ∷ m) = if keep w then (j, w) ∷ keep_values keep m else keep_values keep m

  -- How many values pass a test.
  unfoldable pub count_values : (V → Bool) → Dict V → ℕ
  count_values test [] = 0
  count_values test ((j, w) ∷ m) = if test w then 1 + count_values test m else count_values test m

  abbrev pub values : Dict V → List V
  values [] = []
  values ((j, w) ∷ m) = w ∷ values m
