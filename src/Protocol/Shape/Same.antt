-- ===== src/Protocol/Shape/Same.antt =====
-- requireShape as a whole: exactly which payloads it accepts, and that it keeps every field.
use voxhf.Prelude.{
  codes, ◌≡◌, refl, sym, ap, ◌↔◌, inl, inr, true, none, List, [], ◌∷◌, ◌++◌, arith, Text,
  Option-cases,
}
use voxhf.Json.{Bindings, has, get, put}
use voxhf.Json.Laws.{get_of_not_has}
use voxhf.Protocol.Shape.{
  invalid_field, ok, unless, Shape, names, unexpected, read_required, read_optional, require_shape,
}
use voxhf.Protocol.Shape.Laws.{
  in_keys-append, no_unexpected, found_unexpected, SameFields, read_required-Agrees,
  read_optional-Agrees, read_required-has, read_optional-has, Fits, read_required_sound,
  read_optional_sound, read_required_complete, read_optional_complete, >>=-eq-ok, only-eq-ok,
}

not-has-nil : (j : Text) → has j [] ≡ true → ⊥
unfolding has
not-has-nil j h = cc

module _ (p : Bindings) (required optional : Shape) where
  require_shape_parts :
      {q : Bindings}
      → require_shape p required optional ≡ ok q
      → (m : Bindings) × (unexpected (names required ++ names optional) p ≡ none)
        × (read_required required p [] ≡ ok m)
        × (read_optional optional p m ≡ ok q)
  unfolding require_shape
  require_shape_parts e =
      let (none_left, rest) = only-eq-ok (names required ++ names optional) p _ e in
      let (m, first, second) = >>=-eq-ok (read_required required p []) _ rest in
      (m, none_left, first, second)

  require_shape-has :
      {q : Bindings} (k : Text) → require_shape p required optional ≡ ok q → has k q ≡ has k p
  unfolding has
  require_shape-has {q} k e =
      let (m, none_left, first, second) = require_shape_parts e in
      let agrees =
        read_optional-Agrees optional p m q
          (read_required-Agrees required p [] m (λ j h. absurd (not-has-nil j h)) first) second in
      ground (
        arith,
        agrees k,
        no_unexpected _ p none_left k,
        in_keys-append k (names required) (names optional),
        read_required-has required p [] m k first,
        read_optional-has optional p m q k second,
      )

  -- The normalized payload has the fields of the payload, each with the same value, and no other.
  pub require_shape-SameFields :
      {q : Bindings} → require_shape p required optional ≡ ok q → SameFields p q
  require_shape-SameFields {q} e k =
      let (m, none_left, first, second) = require_shape_parts e in
      let agrees =
        read_optional-Agrees optional p m q
          (read_required-Agrees required p [] m (λ j h. absurd (not-has-nil j h)) first) second in
      (
        sym (require_shape-has k e),
        ground (arith, agrees k, require_shape-has k e, get_of_not_has k p, get_of_not_has k q),
      )

  require_shape-Fits :
      {q : Bindings} → require_shape p required optional ≡ ok q → Fits p required optional
  require_shape-Fits {q} e =
      let (m, none_left, first, second) = require_shape_parts e in
      record {
        allowed = no_unexpected _ p none_left;
        all_required = read_required_sound required p [] m first;
        all_optional = read_optional_sound optional p m q second;
      }

  Fits-require_shape :
      Fits p required optional → (q : Bindings) × (require_shape p required optional ≡ ok q)
  unfolding require_shape
  Fits-require_shape f =
      let (m, first) = read_required_complete required p [] f.all_required in
      let (q, second) = read_optional_complete optional p m f.all_optional in
      (
        q,
        elim (Option-cases (unexpected (names required ++ names optional) p)) [
          | inl none_left ↦ rw (none_left, first) second
          | inr (k, found) ↦ absurd (ground (arith, f.allowed k, found_unexpected _ p k found))
        ],
      )

  -- requireShape accepts exactly the payloads that fit the shape.
  pub require_shape_iff :
      ((q : Bindings) × (require_shape p required optional ≡ ok q)) ↔ Fits p required optional
  require_shape_iff = (λ a. require_shape-Fits a.1, Fits-require_shape)

read_required_same :
    (s : Shape) (p q acc : Bindings)
    → SameFields p q
    → read_required s p acc ≡ read_required s q acc
unfolding read_required
read_required_same [] p q acc h = refl
read_required_same ((key, validator) ∷ s) p q acc h =
    rw ((h key).0, (h key).1)
      (ap
        (λ r.
          unless (has key q) (codes "missing payload field: " ++ key)
            (unless (validator (get key q)) (invalid_field key) r))
        (read_required_same s p q (put key (get key q) acc) h))

read_optional_same :
    (s : Shape) (p q acc : Bindings)
    → SameFields p q
    → read_optional s p acc ≡ read_optional s q acc
unfolding read_optional
read_optional_same [] p q acc h = refl
read_optional_same ((key, validator) ∷ s) p q acc h =
    rw ((h key).0, (h key).1)
      (ground (
        arith,
        read_optional_same s p q (put key (get key q) acc) h,
        read_optional_same s p q acc h,
      ))

unexpected_same :
    (allowed : List Text) (p q : Bindings)
    → SameFields p q
    → unexpected allowed p ≡ none
    → unexpected allowed q ≡ none
unexpected_same allowed p q h e = elim (Option-cases (unexpected allowed q)) [
  | inl done ↦ done
  | inr (k, found) ↦
      let (held, out) = found_unexpected allowed q k found in
      absurd (ground (arith, no_unexpected allowed p e k, h k))
]

-- A normalized payload passes the same shape again, unchanged.
pub require_shape_idempotent :
    (p : Bindings) (required optional : Shape) {q : Bindings}
    → require_shape p required optional ≡ ok q
    → require_shape q required optional ≡ ok q
unfolding require_shape
require_shape_idempotent p required optional {q} e =
    let same = require_shape-SameFields p required optional e in
    let (m, none_left, first, second) = require_shape_parts p required optional e in
    rw
      (
        unexpected_same _ p q same none_left,
        ← read_required_same required p q [] same,
        first,
        ← read_optional_same optional p q m same,
      )
      second
