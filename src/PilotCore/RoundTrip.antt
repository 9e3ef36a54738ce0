-- ===== src/PilotCore/RoundTrip.antt =====
-- Decoding what the encoder wrote.
use voxhf.Json.{
  nil, null, elems, undefined, cons, Elems, obj, arr, bool, Number, str, Value, fin, num,
}
use voxhf.PilotCore.Encode.{
  encode_items, natural_of, encode_number, with_header, join, encode, encode_text, big_endian4,
  big_endian2, encode_natural,
}
use voxhf.PilotCore.Decode.{
  decode, read_array, read_items, read_text, text, small, big_endian, array, Platform, read_kind,
  special_kind, kind_of, read_value, take_bytes,
}
use mathlib.Core.List.{append_assoc, append-nil}
use voxhf.Prelude.{
  take-append, drop-append, length-append, zero, suc, ◌/◌, ◌==◌, ◌^◌, if◌then◌else◌, ◌≢◌, ◌%◌, Bool,
  sym, ◌≤◌, Text, Option, some_inj, inr, subst, inl, ◌+◌, ltb, Bool-cases, refl, ◌≡◌, ap, false,
  arith, true, leb, ◌++◌, length, ℕ, List, ◌∷◌, [], none, some,
}

take_bytes-append :
    (xs ys : List ℕ) (n : ℕ) → n ≡ length xs → take_bytes n (xs ++ ys) ≡ some (xs, ys)
unfolding take_bytes
take_bytes-append xs ys n e =
    let fits : leb n (length (xs ++ ys)) ≡ true = ground (arith, length-append xs ys) in
    rw (fits, e, take-append xs ys, drop-append xs ys)

kind_of-small : (n : ℕ) → ltb n 128 ≡ true → kind_of n ≡ small n
unfolding kind_of
kind_of-small n h = ground arith

kind_of-text : (n : ℕ) → ltb n 32 ≡ true → kind_of (160 + n) ≡ text n
unfolding kind_of
kind_of-text n h = ground arith

kind_of-array : (n : ℕ) → leb 16 n ≡ false → kind_of (144 + n) ≡ array n
unfolding kind_of
kind_of-array n h = ground arith

module _ (p : Platform) (fuel : ℕ) (rest : List ℕ) where
  -- Reading `bs` yields `v` and leaves what comes after.
  abbrev Reads : List ℕ → Value → Type 0
  Reads bs v = read_value p (suc fuel) (bs ++ rest) ≡ some (v, rest)

  decoded_at : {bs cs : List ℕ} (v : Value) → some cs ≡ some bs → Reads cs v → Reads bs v
  decoded_at v e r = subst (λ x. Reads x v) (some_inj e) r

  small-Reads : (n : ℕ) → ltb n 128 ≡ true → Reads (n ∷ []) (num (fin false n 0))
  unfolding read_value read_kind
  small-Reads n h = rw (kind_of-small n h)

  byte-Reads : (n : ℕ) → Reads (204 ∷ n ∷ []) (num (fin false n 0))
  unfolding read_value read_kind kind_of special_kind take_bytes
  byte-Reads n = ground arith

  word-Reads : (n : ℕ) → Reads (205 ∷ big_endian2 n) (num (fin false n 0))
  unfolding read_value read_kind kind_of special_kind
  word-Reads n =
      let same : big_endian 0 (big_endian2 n) ≡ n = omega arith in
      rw (take_bytes-append (big_endian2 n) rest 2 refl, same)

  long-Reads : (n : ℕ) → Reads (206 ∷ big_endian4 n) (num (fin false n 0))
  unfolding read_value read_kind kind_of special_kind
  long-Reads n =
      let same : big_endian 0 (big_endian4 n) ≡ n = omega arith in
      rw (take_bytes-append (big_endian4 n) rest 4 refl, same)

  natural-Reads :
      (n : ℕ) {bs : List ℕ} → encode_natural n ≡ some bs → Reads bs (num (fin false n 0))
  unfolding encode_natural
  natural-Reads n e = elim (Bool-cases (ltb n 128)) [
    | inl h ↦ decoded_at _ (rw h at e) (small-Reads n h)
    | inr h ↦ elim (Bool-cases (leb n 255)) [
      | inl k ↦ decoded_at _ (rw (h, k) at e) (byte-Reads n)
      | inr k ↦ elim (Bool-cases (leb n 65535)) [
        | inl l ↦ decoded_at _ (rw (h, k, l) at e) (word-Reads n)
        | inr l ↦ elim (Bool-cases (leb n 4294967295)) [
          | inl m ↦ decoded_at _ (rw (h, k, l, m) at e) (long-Reads n)
          | inr m ↦ absurd (ground arith)
        ]
      ]
    ]
  ]

  module _ (body : List ℕ) where
    -- The text that the bytes of `body` are.
    abbrev Spelled : List ℕ → Type 0
    Spelled bs = Reads bs (str (p.of_utf8 body))

    short-Reads : ltb (length body) 32 ≡ true → Spelled ((160 + length body) ∷ body)
    unfolding read_value read_kind read_text
    short-Reads h =
        rw (kind_of-text (length body) h, take_bytes-append body rest (length body) refl)

    byte_text-Reads : Spelled (217 ∷ length body ∷ body)
    unfolding read_value read_kind kind_of special_kind read_text
    byte_text-Reads =
        let same : big_endian 0 (length body ∷ []) ≡ length body = omega arith in
        rw (
          take_bytes-append (length body ∷ []) (body ++ rest) 1 refl,
          same,
          take_bytes-append body rest (length body) refl,
        )

    word_text-Reads : Spelled (218 ∷ (big_endian2 (length body) ++ body))
    unfolding read_value read_kind kind_of special_kind read_text
    word_text-Reads =
        let same : big_endian 0 (big_endian2 (length body)) ≡ length body = omega arith in
        rw (
          take_bytes-append (big_endian2 (length body)) (body ++ rest) 2 refl,
          same,
          take_bytes-append body rest (length body) refl,
        )

    text-Reads : {bs : List ℕ} → encode_text body ≡ some bs → Spelled bs
    unfolding encode_text
    text-Reads e = elim (Bool-cases (ltb (length body) 32)) [
      | inl h ↦ decoded_at _ (rw h at e) (short-Reads h)
      | inr h ↦ elim (Bool-cases (leb (length body) 255)) [
        | inl k ↦ decoded_at _ (rw (h, k) at e) byte_text-Reads
        | inr k ↦ elim (Bool-cases (leb (length body) 65535)) [
          | inl l ↦ decoded_at _ (rw (h, k, l) at e) word_text-Reads
          | inr l ↦ absurd (ground arith)
        ]
      ]
    ]

join_parts :
    (a b : Option (List ℕ)) {bs : List ℕ}
    → join a b ≡ some bs
    → (x y : List ℕ) × (a ≡ some x) × (b ≡ some y) × (x ++ y ≡ bs)
join_parts none b e = cc
join_parts (some x) none e = cc
join_parts (some x) (some y) e = (x, y, refl, refl, some_inj e)

header_parts :
    (n : ℕ) (body : Option (List ℕ)) {bs : List ℕ}
    → with_header n body ≡ some bs
    → (x : List ℕ) × (body ≡ some x) × (leb 16 n ≡ false) × ((144 + n) ∷ x ≡ bs)
header_parts n none e = cc
header_parts n (some x) e = elim (Bool-cases (leb 16 n)) [
  | inl h ↦ absurd (ground arith)
  | inr h ↦ (x, refl, h, some_inj (rw h at e))
]

module _ (to_utf8 : Text → List ℕ) (p : Platform) where
  -- Numbers are naturals, and the texts survive UTF-8: -0 comes back as 0, and a lone surrogate as
  -- U+FFFD.
  unfoldable mutual
    pub Plain : Value → Type 0
    Plain undefined = Unit
    Plain null = Unit
    Plain (bool b) = Unit
    Plain (num x) = (n : ℕ) × (x ≡ fin false n 0)
    Plain (str s) = p.of_utf8 (to_utf8 s) ≡ s
    Plain (arr vs) = PlainItems vs
    Plain (obj fs) = Unit

    pub PlainItems : Elems → Type 0
    PlainItems nil = Unit
    PlainItems (cons v vs) = Plain v × PlainItems vs

  natural_of_nat : (n : ℕ) → natural_of (fin false n 0) ≡ some n
  natural_of_nat n =
      let whole : (n % 2 ^ 0 == 0) ≡ true = ground arith in
      let same : n / 2 ^ 0 ≡ n = omega arith in rw (whole, same)

  number-Reads :
      (fuel : ℕ) (rest : List ℕ) (x : Number) {bs : List ℕ} (n : ℕ)
      → x ≡ fin false n 0
      → encode_number (natural_of x) ≡ some bs
      → Reads p fuel rest bs (num x)
  number-Reads fuel rest x {bs} n same e =
      subst (λ y. Reads p fuel rest bs (num y)) (sym same)
        (natural-Reads p fuel rest n (rw (same, natural_of_nat n) at e))

  null-Reads : (fuel : ℕ) (rest : List ℕ) → Reads p fuel rest (192 ∷ []) null
  unfolding read_value read_kind kind_of special_kind
  null-Reads fuel rest = refl

  bool-Reads :
      (fuel : ℕ) (rest : List ℕ) (b : Bool)
      → Reads p fuel rest ((if b then 195 else 194) ∷ []) (bool b)
  unfolding read_value read_kind kind_of special_kind
  bool-Reads fuel rest true = refl
  bool-Reads fuel rest false = refl

  array-Reads :
      (fuel : ℕ) (rest x : List ℕ) (vs : Elems)
      → leb 16 (length (elems vs)) ≡ false
      → read_items (read_value p fuel) (length (elems vs)) (x ++ rest) ≡ some (vs, rest)
      → Reads p fuel rest ((144 + length (elems vs)) ∷ x) (arr vs)
  unfolding read_value read_kind read_array
  array-Reads fuel rest x vs few items =
      let small : leb (length (elems vs)) 256 ≡ true = ground arith in
      rw (kind_of-array (length (elems vs)) few, small, items)

  natural-nonempty : (n : Option ℕ) → encode_number n ≢ some []
  unfolding encode_natural
  natural-nonempty none e = cc
  natural-nonempty (some n) e = ground arith

  text-nonempty : (body : List ℕ) → encode_text body ≢ some []
  unfolding encode_text
  text-nonempty body e = ground arith

  encode-nonempty : (v : Value) → encode to_utf8 v ≢ some []
  unfolding encode
  encode-nonempty undefined e = cc
  encode-nonempty null e = cc
  encode-nonempty (bool false) e = cc
  encode-nonempty (bool true) e = cc
  encode-nonempty (num x) e = natural-nonempty (natural_of x) e
  encode-nonempty (str s) e = text-nonempty (to_utf8 s) e
  encode-nonempty (arr vs) e =
      let (x, body, few, shape) = header_parts (length (elems vs)) (encode_items to_utf8 vs) e in cc
  encode-nonempty (obj fs) e = cc

  some_byte : (v : Value) (x : List ℕ) → encode to_utf8 v ≡ some x → length x ≢ 0
  some_byte v [] e le = encode-nonempty v e
  some_byte v (b ∷ x) e le = ground arith

  items_step :
      (v : Value) (vs : Elems) (fuel : ℕ) (rest x y : List ℕ)
      → Reads p fuel (y ++ rest) x v
      → read_items (read_value p (suc fuel)) (length (elems vs)) (y ++ rest) ≡ some (vs, rest)
      → read_items (read_value p (suc fuel)) (suc (length (elems vs))) ((x ++ y) ++ rest)
        ≡ some (cons v vs, rest)
  unfolding read_items
  items_step v vs fuel rest x y first others = rw (append_assoc x y rest, first, others)

  mutual
    unfolding encode Plain read_items

    decoded_back :
        (v : Value) (fuel : ℕ) (rest : List ℕ) {bs : List ℕ}
        → Plain v
        → encode to_utf8 v ≡ some bs
        → length bs ≤ suc fuel
        → Reads p fuel rest bs v
    decoded_back undefined fuel rest h e le = cc
    decoded_back null fuel rest h e le = decoded_at p fuel rest null e (null-Reads fuel rest)
    decoded_back (bool false) fuel rest h e le =
        decoded_at p fuel rest (bool false) e (bool-Reads fuel rest false)
    decoded_back (bool true) fuel rest h e le =
        decoded_at p fuel rest (bool true) e (bool-Reads fuel rest true)
    decoded_back (num x) fuel rest h e le = number-Reads fuel rest x h.0 h.1 e
    decoded_back (str s) fuel rest {bs} h e le =
        subst (λ t. Reads p fuel rest bs (str t)) h (text-Reads p fuel rest (to_utf8 s) e)
    decoded_back (arr vs) fuel rest h e le =
        let (x, body, few, shape) = header_parts (length (elems vs)) (encode_items to_utf8 vs) e in
        decoded_at p fuel rest (arr vs) (ap some shape) (
          array-Reads fuel rest x vs few
            (items_back vs fuel rest h body (omega (arith, ap length shape))))
    decoded_back (obj fs) fuel rest h e le = cc

    items_back :
        (vs : Elems) (fuel : ℕ) (rest : List ℕ) {bs : List ℕ}
        → PlainItems vs
        → encode_items to_utf8 vs ≡ some bs
        → length bs ≤ fuel
        → read_items (read_value p fuel) (length (elems vs)) (bs ++ rest) ≡ some (vs, rest)
    items_back nil fuel rest h e le =
        subst (λ x. read_items (read_value p fuel) 0 (x ++ rest) ≡ some (nil, rest)) (some_inj e)
          refl
    items_back (cons v vs) zero rest h e le =
        let (x, y, first, others, both) =
          join_parts (encode to_utf8 v) (encode_items to_utf8 vs) e in
        absurd (some_byte v x first (omega (arith, ap length both, length-append x y)))
    items_back (cons v vs) (suc fuel) rest {bs} h e le =
        let (x, y, first, others, both) =
          join_parts (encode to_utf8 v) (encode_items to_utf8 vs) e in
        let sizes = length-append x y in
        let all_bytes = ap length both in
        subst
          (λ b.
            read_items (read_value p (suc fuel)) (suc (length (elems vs))) (b ++ rest)
            ≡ some (cons v vs, rest))
          both
          (items_step v vs fuel rest x y (decoded_back v fuel (y ++ rest) h.0 first (omega arith))
            (items_back vs (suc fuel) rest h.1 others (omega arith)))

  -- Whatever the encoder accepts of plain values, the decoder reads back: the same value, and the
  -- whole of the bytes.
  pub decode-encode :
      (v : Value) {bs : List ℕ} → Plain v → encode to_utf8 v ≡ some bs → decode p bs ≡ some v
  unfolding decode
  decode-encode v {bs = []} h e = absurd (encode-nonempty v e)
  decode-encode v {bs = b ∷ bs} h e =
      let read = decoded_back v (length bs) [] h e (omega arith) in
      rw (rw (append-nil (b ∷ bs)) at read)
