-- ===== src/Dict/Laws.antt =====
-- Laws of a map, in the form that has no side condition.
use voxhf.Dict.{values, Dict, remove, lookup, keep_values, insert, count_values}
use voxhf.Prelude.{
  true, some_inj, subst, inr, inl, text_eq_iff, Bool-cases, ◌∷◌, [], none, ◌+◌, text_eq, arith, ◌≤◌,
  some, length, if◌then◌else◌, false, All, Text, Bool, ◌≡◌, refl,
}

module _ {ℓ} {V : Type ℓ} where
  pub lookup-insert :
      (k j : Text) (v : V) (m : Dict V)
      → lookup j (insert k v m) ≡ (if text_eq k j then some v else lookup j m)
  unfolding lookup insert
  lookup-insert k j v [] = refl
  lookup-insert k j v ((i, w) ∷ m) =
      ground (arith, text_eq_iff k j, text_eq_iff i k, text_eq_iff i j, lookup-insert k j v m)

  pub lookup-remove :
      (k j : Text) (m : Dict V) → lookup j (remove k m) ≡ (if text_eq k j then none else lookup j m)
  unfolding lookup remove
  lookup-remove k j [] = ground arith
  lookup-remove k j ((i, w) ∷ m) =
      ground (arith, text_eq_iff k j, text_eq_iff i k, text_eq_iff i j, lookup-remove k j m)

  pub count-insert-le :
      (test : V → Bool) (k : Text) (v : V) (m : Dict V)
      → count_values test (insert k v m) ≤ count_values test m + 1
  unfolding count_values insert
  count-insert-le test k v [] = ground arith
  count-insert-le test k v ((i, w) ∷ m) = ground (arith, count-insert-le test k v m)

  -- A value that replaces one of the same kind changes no count.
  pub count-insert_same :
      (test : V → Bool) (k : Text) (v w : V) (m : Dict V)
      → lookup k m ≡ some w
      → test v ≡ test w
      → count_values test (insert k v m) ≡ count_values test m
  unfolding count_values insert lookup
  count-insert_same test k v w [] h e = absurd (ground arith)
  count-insert_same test k v w ((i, x) ∷ m) h e = ground (arith, count-insert_same test k v w m)

  pub count-insert_new :
      (test : V → Bool) (k : Text) (v : V) (m : Dict V)
      → test v ≡ false
      → count_values test (insert k v m) ≤ count_values test m
  unfolding count_values insert
  count-insert_new test k v [] h = ground arith
  count-insert_new test k v ((i, x) ∷ m) h = ground (arith, count-insert_new test k v m)

  pub count-keep-le :
      (test keep : V → Bool) (m : Dict V)
      → count_values test (keep_values keep m) ≤ count_values test m
  unfolding count_values keep_values
  count-keep-le test keep [] = omega arith
  count-keep-le test keep ((i, x) ∷ m) = ground (arith, count-keep-le test keep m)

  pub length-insert :
      (k : Text) (v : V) (m : Dict V)
      → length (insert k v m) ≡ (elim (lookup k m) [ none ↦ length m + 1 | some w ↦ length m ])
  unfolding insert lookup
  length-insert k v [] = refl
  length-insert k v ((i, x) ∷ m) = ground (arith, length-insert k v m)

  pub All-insert {κ} :
      (P : V → Type κ) (k : Text) (v : V) (m : Dict V)
      → All P (values m)
      → P v
      → All P (values (insert k v m))
  unfolding insert
  All-insert P k v [] h p = (p, tt)
  All-insert P k v ((i, x) ∷ m) h p = elim (Bool-cases (text_eq i k)) [
    | inl e ↦ rw e (p, h.1)
    | inr e ↦ rw e (h.0, All-insert P k v m h.1 p)
  ]

  pub All-keep {κ} :
      (P : V → Type κ) (keep : V → Bool) (m : Dict V)
      → All P (values m)
      → All P (values (keep_values keep m))
  unfolding keep_values
  All-keep P keep [] h = tt
  All-keep P keep ((i, x) ∷ m) h = elim (Bool-cases (keep x)) [
    | inl e ↦ rw e (h.0, All-keep P keep m h.1)
    | inr e ↦ rw e (All-keep P keep m h.1)
  ]

  pub All-remove {κ} :
      (P : V → Type κ) (k : Text) (m : Dict V) → All P (values m) → All P (values (remove k m))
  unfolding remove
  All-remove P k [] h = tt
  All-remove P k ((i, x) ∷ m) h = elim (Bool-cases (text_eq i k)) [
    | inl e ↦ rw e (All-remove P k m h.1)
    | inr e ↦ rw e (h.0, All-remove P k m h.1)
  ]

  pub All-lookup {κ} :
      (P : V → Type κ) (k : Text) (m : Dict V) {v : V}
      → All P (values m)
      → lookup k m ≡ some v
      → P v
  unfolding lookup
  All-lookup P k [] h e = absurd (ground arith)
  All-lookup P k ((i, x) ∷ m) h e = elim (Bool-cases (text_eq i k)) [
    | inl same ↦ subst P (some_inj (rw same at e)) h.0
    | inr other ↦ All-lookup P k m h.1 (rw other at e)
  ]

  pub lookup-keep_none :
      (k : Text) (keep : V → Bool) (m : Dict V)
      → lookup k m ≡ none
      → lookup k (keep_values keep m) ≡ none
  unfolding lookup keep_values
  lookup-keep_none k keep [] h = refl
  lookup-keep_none k keep ((i, x) ∷ m) h = ground (arith, lookup-keep_none k keep m)

  pub lookup-keep_some :
      (k : Text) (keep : V → Bool) (m : Dict V) {v : V}
      → lookup k (keep_values keep m) ≡ some v
      → keep v ≡ true
  unfolding lookup keep_values
  lookup-keep_some k keep [] e = absurd (ground arith)
  lookup-keep_some k keep ((i, w) ∷ m) {v} e = elim (Bool-cases (keep w)) [
    | inr dropped ↦ lookup-keep_some k keep m (rw dropped at e)
    | inl kept ↦ elim (Bool-cases (text_eq i k)) [
      | inl same ↦ subst (λ x. keep x ≡ true) (some_inj (rw (kept, same) at e)) kept
      | inr other ↦ lookup-keep_some k keep m (rw (kept, other) at e)
    ]
  ]
