-- ===== src/Protocol/Shape/Laws.antt =====
-- What requireShape accepts, and what it returns.
use voxhf.Prelude.{
  inr, inl, ◌≡◌, refl, Bool, true, false, ◌&&◌, ◌||◌, Option, none, some, List, [], ◌∷◌, ◌++◌,
  arith, Text, text_eq_iff, text_eq_refl, Bool-cases, Option-cases, All,
}
use voxhf.Json.{Bindings, has, get, put}
use voxhf.Json.Laws.{get-put, has-put}
use voxhf.Protocol.Shape.{
  or_fail, Result, ok, fail, ◌>>=◌, unless, Shape, names, in_keys, unexpected, only, read_required,
  read_optional, Validator,
}

pub in_keys-append :
    (k : Text) (js ls : List Text) → in_keys k (js ++ ls) ≡ (in_keys k js || in_keys k ls)
unfolding in_keys
in_keys-append k [] ls = refl
in_keys-append k (j ∷ js) ls = ground (arith, in_keys-append k js ls)

pub no_unexpected :
    (allowed : List Text) (b : Bindings)
    → unexpected allowed b ≡ none
    → (k : Text) → has k b ≡ true
    → in_keys k allowed ≡ true
unfolding unexpected has
no_unexpected allowed [] e k h = ground arith
no_unexpected allowed ((j, v) ∷ b) e k h =
    ground
      (arith, no_unexpected allowed b, text_eq_iff j k, no_unexpected allowed b (ground arith) k)

pub found_unexpected :
    (allowed : List Text) (b : Bindings) (k : Text)
    → unexpected allowed b ≡ some k
    → (has k b ≡ true) × (in_keys k allowed ≡ false)
unfolding unexpected has
found_unexpected allowed [] k e = ground arith
found_unexpected allowed ((j, v) ∷ b) k e =
    ground (arith, text_eq_refl j, found_unexpected allowed b k)

-- Two objects with the same properties, whatever their order.
abbrev pub SameFields : Bindings → Bindings → Type 0
SameFields p q = (k : Text) → (has k p ≡ has k q) × (get k p ≡ get k q)

-- What is written so far was read from the payload.
abbrev pub Agrees : Bindings → Bindings → Type 0
Agrees p acc = (k : Text) → has k acc ≡ true → (has k p ≡ true) × (get k acc ≡ get k p)

put-Agrees :
    (key : Text) (p acc : Bindings)
    → has key p ≡ true
    → Agrees p acc
    → Agrees p (put key (get key p) acc)
put-Agrees key p acc h a k held =
    ground
      (arith, get-put key k (get key p) acc, has-put key k (get key p) acc, text_eq_iff key k, a k)

pub read_required-Agrees :
    (s : Shape) (p acc q : Bindings) → Agrees p acc → read_required s p acc ≡ ok q → Agrees p q
unfolding read_required
read_required-Agrees [] p acc q a e = ground arith
read_required-Agrees ((key, validator) ∷ s) p acc q a e = elim (Bool-cases (has key p)) [
  | inl h ↦
      read_required-Agrees s p (put key (get key p) acc) q (put-Agrees key p acc h a) (ground arith)
  | inr h ↦ absurd (ground arith)
]

pub read_optional-Agrees :
    (s : Shape) (p acc q : Bindings) → Agrees p acc → read_optional s p acc ≡ ok q → Agrees p q
unfolding read_optional
read_optional-Agrees [] p acc q a e = ground arith
read_optional-Agrees ((key, validator) ∷ s) p acc q a e = elim (Bool-cases (has key p)) [
  | inl h ↦
      read_optional-Agrees s p (put key (get key p) acc) q (put-Agrees key p acc h a) (ground arith)
  | inr h ↦ read_optional-Agrees s p acc q a (ground arith)
]

pub read_required-has :
    (s : Shape) (p acc q : Bindings) (k : Text)
    → read_required s p acc ≡ ok q
    → has k q ≡ (in_keys k (names s) || has k acc)
unfolding read_required in_keys
read_required-has [] p acc q k e = ground arith
read_required-has ((key, validator) ∷ s) p acc q k e =
    ground
      (arith, has-put key k (get key p) acc, read_required-has s p (put key (get key p) acc) q k)

pub read_optional-has :
    (s : Shape) (p acc q : Bindings) (k : Text)
    → read_optional s p acc ≡ ok q
    → has k q ≡ ((in_keys k (names s) && has k p) || has k acc)
unfolding read_optional in_keys
read_optional-has [] p acc q k e = ground arith
read_optional-has ((key, validator) ∷ s) p acc q k e = elim (Bool-cases (has key p)) [
  | inl h ↦ ground (
    arith,
    has-put key k (get key p) acc,
    text_eq_iff key k,
    read_optional-has s p (put key (get key p) acc) q k (ground arith),
  )
  | inr h ↦ ground (arith, text_eq_iff key k, read_optional-has s p acc q k (ground arith))
]

-- When a payload has the shape, said without the loops: no other field, every required field there
-- and valid, every optional field valid where it is there.
pub record Fits (p : Bindings) (required optional : Shape) : Type 0 where
  pub allowed : (k : Text) → has k p ≡ true → in_keys k (names required ++ names optional) ≡ true
  pub all_required :
      All (λ (f : Text × Validator). (has f.0 p ≡ true) × (f.1 (get f.0 p) ≡ true)) required
  pub all_optional :
      All (λ (f : Text × Validator). has f.0 p ≡ true → f.1 (get f.0 p) ≡ true) optional

pub read_required_sound :
    (s : Shape) (p acc q : Bindings)
    → read_required s p acc ≡ ok q
    → All (λ (f : Text × Validator). (has f.0 p ≡ true) × (f.1 (get f.0 p) ≡ true)) s
unfolding read_required
read_required_sound [] p acc q e = tt
read_required_sound ((key, validator) ∷ s) p acc q e = (
  (ground arith, ground arith),
  read_required_sound s p (put key (get key p) acc) q (ground arith),
)

pub read_optional_sound :
    (s : Shape) (p acc q : Bindings)
    → read_optional s p acc ≡ ok q
    → All (λ (f : Text × Validator). has f.0 p ≡ true → f.1 (get f.0 p) ≡ true) s
unfolding read_optional
read_optional_sound [] p acc q e = tt
read_optional_sound ((key, validator) ∷ s) p acc q e = elim (Bool-cases (has key p)) [
  | inl h ↦ (λ _. ground arith, read_optional_sound s p (put key (get key p) acc) q (ground arith))
  | inr h ↦ (λ g. absurd (ground arith), read_optional_sound s p acc q (ground arith))
]

pub read_required_complete :
    (s : Shape) (p acc : Bindings)
    → All (λ (f : Text × Validator). (has f.0 p ≡ true) × (f.1 (get f.0 p) ≡ true)) s
    → (q : Bindings) × (read_required s p acc ≡ ok q)
unfolding read_required
read_required_complete [] p acc a = (acc, refl)
read_required_complete ((key, validator) ∷ s) p acc ((h, v), a) =
    let (q, e) = read_required_complete s p (put key (get key p) acc) a in (q, ground arith)

pub read_optional_complete :
    (s : Shape) (p acc : Bindings)
    → All (λ (f : Text × Validator). has f.0 p ≡ true → f.1 (get f.0 p) ≡ true) s
    → (q : Bindings) × (read_optional s p acc ≡ ok q)
unfolding read_optional
read_optional_complete [] p acc a = (acc, refl)
read_optional_complete ((key, validator) ∷ s) p acc (v, a) = elim (Bool-cases (has key p)) [
  | inl h ↦
      let (q, e) = read_optional_complete s p (put key (get key p) acc) a in
      (q, ground (arith, v h))
  | inr h ↦ let (q, e) = read_optional_complete s p acc a in (q, ground arith)
]

-- Inversion of a successful chain.
pub >>=-eq-ok {ℓ κ} :
    {A : Type ℓ} {B : Type κ} (r : Result A) (f : A → Result B) {b : B}
    → (r >>= f) ≡ ok b
    → (a : A) × (r ≡ ok a) × (f a ≡ ok b)
>>=-eq-ok (ok a) f h = (a, refl, h)
>>=-eq-ok (fail e) f h = cc

-- A loop over the keys that lets the rest succeed has found no other key.
pub only-eq-ok {ℓ} :
    {A : Type ℓ} (allowed : List Text) (p : Bindings) (r : Result A) {a : A}
    → only allowed p r ≡ ok a
    → (unexpected allowed p ≡ none) × (r ≡ ok a)
only-eq-ok allowed p r h = elim (Option-cases (unexpected allowed p)) [
  | inl e ↦ (e, rw e at h)
  | inr (k, e) ↦ absurd (ground arith)
]

pub ok-injective {ℓ} : {A : Type ℓ} {a b : A} → ok a ≡ ok b → a ≡ b
ok-injective e = cc

pub unless-eq-ok {ℓ} :
    {A : Type ℓ} (test : Bool) (error : Text) (r : Result A) {a : A}
    → unless test error r ≡ ok a
    → (test ≡ true) × (r ≡ ok a)
unless-eq-ok true error r h = (refl, h)
unless-eq-ok false error r h = cc

pub or_fail-eq-ok {ℓ κ} :
    {A : Type ℓ} {B : Type κ} (o : Option A) (error : Text) (f : A → Result B) {b : B}
    → or_fail o error f ≡ ok b
    → (a : A) × (o ≡ some a) × (f a ≡ ok b)
or_fail-eq-ok none error f h = cc
or_fail-eq-ok (some a) error f h = (a, refl, h)
