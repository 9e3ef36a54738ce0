-- ===== src/PilotCore/Fuel.antt =====
-- The fuel of the decoder is no limit: as many steps as there are bytes give what any more would.
use voxhf.Json.{Bindings}
use voxhf.PilotCore.Decode.{
  unsupported, sized_dict, sized_array, nothing, big_endian, sized_text, signed, unsigned, float,
  boolean, dict, array, text, negative, small, set_property, kind_of, Kind, read_text, read_kind,
  read_items, read_fields, read_dict, read_array, read_value, Read, take_bytes, Platform,
}
use voxhf.Prelude.{
  length-drop, inr, ◌∙◌, inl, leb, ap, ◌>>=◌, arith, Bool-cases, ◌≤◌, length, Option, List, ℕ, ◌∷◌,
  [], none, some, refl, ◌≡◌, zero, suc,
}

-- What a result leaves is at most `n` bytes long.
abbrev Within {ℓ} : {A : Type ℓ} → ℕ → Option (A × List ℕ) → Type 0
Within n none = Unit
Within n (some a) = length a.1 ≤ n

abbrev Same {ℓ} : {A : Type ℓ} → ℕ → Option (A × List ℕ) → Option (A × List ℕ) → Type ℓ
Same n m m' = (m ≡ m') × Within n m

bind-Same {ℓ κ} :
    {A : Type ℓ} {B : Type κ} (n : ℕ) (m m' : Option (A × List ℕ))
    (f g : A × List ℕ → Option (B × List ℕ))
    → Same n m m'
    → ((a : A × List ℕ) → length a.1 ≤ n → Same n (f a) (g a))
    → Same n (m >>= f) (m' >>= g)
bind-Same n none m' f g s h = (ap (λ x. x >>= g) s.0, tt)
bind-Same n (some a) m' f g s h = ((h a s.1).0 ∙ ap (λ x. x >>= g) s.0, (h a s.1).1)

take_bytes-Same :
    (n k : ℕ) (bs : List ℕ) → length bs ≤ n → Same n (take_bytes k bs) (take_bytes k bs)
unfolding take_bytes
take_bytes-Same n k bs le = elim (Bool-cases (leb k (length bs))) [
  | inl fits ↦ rw fits (refl, omega (arith, length-drop k bs))
  | inr short ↦ rw short (refl, tt)
]

module _ (n : ℕ) (r r' : Read) (same : (bs : List ℕ) → length bs ≤ n → Same n (r bs) (r' bs)) where
  read_items-Same :
      (k : ℕ) (bs : List ℕ) → length bs ≤ n → Same n (read_items r k bs) (read_items r' k bs)
  unfolding read_items
  read_items-Same zero bs le = (refl, le)
  read_items-Same (suc k) bs le = bind-Same n (r bs) (r' bs) _ _ (same bs le) λ a la.
      bind-Same n (read_items r k a.1) (read_items r' k a.1) _ _ (read_items-Same k a.1 la)
        λ b lb. (refl, lb)

  read_array-Same :
      (k : ℕ) (bs : List ℕ) → length bs ≤ n → Same n (read_array r k bs) (read_array r' k bs)
  unfolding read_array
  read_array-Same k bs le = elim (Bool-cases (leb k 256)) [
    | inl few ↦ rw few (
        bind-Same n (read_items r k bs) (read_items r' k bs) _ _ (read_items-Same k bs le)
          λ a la. (refl, la))
    | inr many ↦ rw many (refl, tt)
  ]

  module _ (p : Platform) where
    read_fields-Same :
        (k : ℕ) (value : Bindings) (bs : List ℕ)
        → length bs ≤ n
        → Same n (read_fields p r k value bs) (read_fields p r' k value bs)
    unfolding read_fields
    read_fields-Same zero value bs le = (refl, le)
    read_fields-Same (suc k) value bs le = bind-Same n (r bs) (r' bs) _ _ (same bs le) λ a la.
        bind-Same n (r a.1) (r' a.1) _ _ (same a.1 la)
          λ b lb. read_fields-Same k (set_property (p.to_text a.0) b.0 value) b.1 lb

    read_dict-Same :
        (k : ℕ) (bs : List ℕ) → length bs ≤ n → Same n (read_dict p r k bs) (read_dict p r' k bs)
    unfolding read_dict
    read_dict-Same k bs le = elim (Bool-cases (leb k 256)) [
      | inl few ↦ rw few (
          bind-Same n (read_fields p r k [] bs) (read_fields p r' k [] bs) _ _
            (read_fields-Same k [] bs le) λ a la. (refl, la))
      | inr many ↦ rw many (refl, tt)
    ]

    read_text-Same :
        (k : ℕ) (bs : List ℕ) → length bs ≤ n → Same n (read_text p k bs) (read_text p k bs)
    unfolding read_text
    read_text-Same k bs le =
        bind-Same n (take_bytes k bs) (take_bytes k bs) _ _ (take_bytes-Same n k bs le)
          λ a la. (refl, la)

    -- Bytes of a fixed number, and what is made of them.
    sized-Same {ℓ} :
        {B : Type ℓ} (k : ℕ) (bs : List ℕ) (f g : List ℕ × List ℕ → Option (B × List ℕ))
        → length bs ≤ n
        → ((a : List ℕ × List ℕ) → length a.1 ≤ n → Same n (f a) (g a))
        → Same n (take_bytes k bs >>= f) (take_bytes k bs >>= g)
    sized-Same k bs f g le h =
        bind-Same n (take_bytes k bs) (take_bytes k bs) f g (take_bytes-Same n k bs le) h

    read_kind-Same :
        (kind : Kind) (bs : List ℕ)
        → length bs ≤ n
        → Same n (read_kind p r kind bs) (read_kind p r' kind bs)
    unfolding read_kind
    read_kind-Same (small k) bs le = (refl, le)
    read_kind-Same (negative k) bs le = (refl, le)
    read_kind-Same (text k) bs le = read_text-Same k bs le
    read_kind-Same (array k) bs le = read_array-Same k bs le
    read_kind-Same (dict k) bs le = read_dict-Same k bs le
    read_kind-Same nothing bs le = (refl, le)
    read_kind-Same (boolean b) bs le = (refl, le)
    read_kind-Same (float size) bs le = sized-Same size bs _ _ le λ a la. (refl, la)
    read_kind-Same (unsigned size) bs le = sized-Same size bs _ _ le λ a la. (refl, la)
    read_kind-Same (signed size) bs le = sized-Same size bs _ _ le λ a la. (refl, la)
    read_kind-Same (sized_text size) bs le =
        sized-Same size bs _ _ le λ a la. read_text-Same (big_endian 0 a.0) a.1 la
    read_kind-Same sized_array bs le =
        sized-Same 2 bs _ _ le λ a la. read_array-Same (big_endian 0 a.0) a.1 la
    read_kind-Same sized_dict bs le =
        sized-Same 2 bs _ _ le λ a la. read_dict-Same (big_endian 0 a.0) a.1 la
    read_kind-Same unsupported bs le = (refl, tt)

Within-weaken {ℓ} :
    {A : Type ℓ} (n k : ℕ) (m : Option (A × List ℕ)) → n ≤ k → Within n m → Within k m
Within-weaken n k none le h = tt
Within-weaken n k (some a) le h = omega arith

module _ (p : Platform) where
  read_value-Same :
      (n f g : ℕ) (bs : List ℕ)
      → n ≤ f
      → n ≤ g
      → length bs ≤ n
      → Same n (read_value p f bs) (read_value p g bs)
  unfolding read_value
  read_value-Same n zero zero [] lf lg le = (refl, tt)
  read_value-Same n zero (suc g) [] lf lg le = (refl, tt)
  read_value-Same n (suc f) zero [] lf lg le = (refl, tt)
  read_value-Same n (suc f) (suc g) [] lf lg le = (refl, tt)
  read_value-Same n zero g (m ∷ bs) lf lg le = absurd (omega arith)
  read_value-Same n (suc f) zero (m ∷ bs) lf lg le = absurd (omega arith)
  read_value-Same n (suc f) (suc g) (m ∷ bs) lf lg le =
      let deeper =
        read_kind-Same (length bs) (read_value p f) (read_value p g)
          (λ cs lc. read_value-Same (length bs) f g cs (omega arith) (omega arith) lc) p (kind_of m)
          bs (omega arith) in
      (deeper.0, Within-weaken (length bs) n _ (omega arith) deeper.1)

  -- With any fuel that is at least the number of bytes, the reader does the same.
  read_value-enough :
      (fuel : ℕ) (bs : List ℕ)
      → length bs ≤ fuel
      → read_value p fuel bs ≡ read_value p (length bs) bs
  read_value-enough fuel bs le =
      (read_value-Same (length bs) fuel (length bs) bs le (omega arith) (omega arith)).0
