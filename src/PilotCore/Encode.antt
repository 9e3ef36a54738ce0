-- ===== src/PilotCore/Encode.antt =====
-- encodeMessagePack and makeMessagePackFrame. `none` is the RangeError or TypeError that they throw.
use voxhf.Prelude.{
  zero, ◌==◌, ◌+◌, true, ◌^◌, ltb, leb, false, ◌/◌, ◌%◌, length, if◌then◌else◌, ℕ, Text, Option,
  List, ◌∷◌, [], ◌++◌, none, some,
}
use voxhf.Json.{
  Value, undefined, null, bool, num, str, arr, obj, Elems, nil, cons, Number, fin, elems,
}

-- writeUInt16BE and writeUInt32BE.
abbrev pub big_endian2 : ℕ → List ℕ
big_endian2 n = n / 256 ∷ n % 256 ∷ []

-- writeUInt32LE
abbrev pub little_endian4 : ℕ → List ℕ
little_endian4 n = n % 256 ∷ (n / 256) % 256 ∷ (n / 65536) % 256 ∷ n / 16777216 ∷ []

abbrev pub big_endian4 : ℕ → List ℕ
big_endian4 n = n / 16777216 ∷ (n / 65536) % 256 ∷ (n / 256) % 256 ∷ n % 256 ∷ []

-- The value of a number that passes `Number.isInteger(value) && value >= 0`; -0 is one.
abbrev pub natural_of : Number → Option ℕ
natural_of (fin false n k) = if n % 2 ^ k == 0 then some (n / 2 ^ k) else none
natural_of (fin true zero k) = some 0
natural_of _ = none

unfoldable pub encode_natural : ℕ → Option (List ℕ)
encode_natural n =
    if ltb n 128
    then some (n ∷ [])
    else if leb n 255
    then some (204 ∷ n ∷ [])
    else if leb n 65535
    then some (205 ∷ big_endian2 n)
    else if leb n 4294967295
    then some (206 ∷ big_endian4 n)
    else none

-- A string whose UTF-8 bytes are `body`. The marker `0xa0 | length` of a length below 32 is a sum.
unfoldable pub encode_text : List ℕ → Option (List ℕ)
encode_text body =
    if ltb (length body) 32
    then some ((160 + length body) ∷ body)
    else if leb (length body) 255
    then some (217 ∷ length body ∷ body)
    else if leb (length body) 65535
    then some (218 ∷ (big_endian2 (length body) ++ body))
    else none

abbrev pub with_header : ℕ → Option (List ℕ) → Option (List ℕ)
with_header n none = none
with_header n (some body) = if leb 16 n then none else some ((144 + n) ∷ body)

abbrev pub join : Option (List ℕ) → Option (List ℕ) → Option (List ℕ)
join none rest = none
join (some a) none = none
join (some a) (some b) = some (a ++ b)

abbrev pub encode_number : Option ℕ → Option (List ℕ)
encode_number none = none
encode_number (some n) = encode_natural n

module _ (to_utf8 : Text → List ℕ) where
  unfoldable mutual
    pub encode : Value → Option (List ℕ)
    encode undefined = none
    encode null = some (192 ∷ [])
    encode (bool false) = some (194 ∷ [])
    encode (bool true) = some (195 ∷ [])
    encode (num x) = encode_number (natural_of x)
    encode (str s) = encode_text (to_utf8 s)
    encode (arr vs) = with_header (length (elems vs)) (encode_items vs)
    encode (obj fs) = none

    pub encode_items : Elems → Option (List ℕ)
    encode_items nil = some []
    encode_items (cons v vs) = join (encode v) (encode_items vs)

  abbrev pub framed : Option (List ℕ) → Option (List ℕ)
  framed none = none
  framed (some body) = some (little_endian4 (length body) ++ body)

  unfoldable pub make_message_pack_frame : Value → Value → Option (List ℕ)
  make_message_pack_frame type payload = framed (encode (arr (cons type (cons payload nil))))
