-- ===== src/PilotCore/Decode.antt =====
-- decodeMessagePack. A reader takes the bytes that are left and returns a value with the bytes after
-- it; `none` is the RangeError or TypeError that the source throws. An object keeps its keys in the
-- order in which they are set.
use voxhf.Prelude.{
  ◌%◌, ◌/◌, drop, ◌^◌, ◌-◌, true, take, codes, ◌>>=◌, ◌==◌, ◌+◌, zero, text_eq, ltb, length, leb,
  false, ◌*◌, suc, if◌then◌else◌, Option, Bool, ℕ, Text, List, ◌∷◌, [], none, some,
}
use voxhf.Json.{
  of_bindings, Value, null, bool, num, str, arr, obj, Elems, nil, cons, Number, fin, Bindings, put,
}

-- What a marker announces. A size in a constructor is the size of the count or number that follows.
pub data Kind : Type 0 where
  small : ℕ → Kind
  negative : ℕ → Kind
  text : ℕ → Kind
  array : ℕ → Kind
  dict : ℕ → Kind
  nothing : Kind
  boolean : Bool → Kind
  float : ℕ → Kind
  unsigned : ℕ → Kind
  signed : ℕ → Kind
  sized_text : ℕ → Kind
  sized_array : Kind
  sized_dict : Kind
  unsupported : Kind

-- The `switch` of `read`.
unfoldable pub special_kind : ℕ → Kind
special_kind m =
    if m == 192
    then nothing
    else if m == 194
    then boolean false
    else if m == 195
    then boolean true
    else if m == 202
    then float 4
    else if m == 203
    then float 8
    else if m == 204
    then unsigned 1
    else if m == 205
    then unsigned 2
    else if m == 206
    then unsigned 4
    else if m == 208
    then signed 1
    else if m == 209
    then signed 2
    else if m == 210
    then signed 4
    else if m == 217
    then sized_text 1
    else if m == 218
    then sized_text 2
    else if m == 220
    then sized_array
    else if m == 222
    then sized_dict
    else unsupported

-- `(marker & 0xe0) === 0xa0` is marker / 32 = 5, and `(marker & 0xf0) === 0x90` is marker / 16 = 9.
unfoldable pub kind_of : ℕ → Kind
kind_of m =
    if leb m 127
    then small m
    else if leb 224 m
    then negative (256 - m)
    else if m / 32 == 5
    then text (m % 32)
    else if m / 16 == 9
    then array (m % 16)
    else if m / 16 == 8
    then dict (m % 16)
    else special_kind m

-- requireBytes, and the bytes.
unfoldable pub take_bytes : ℕ → List ℕ → Option (List ℕ × List ℕ)
take_bytes n bs = if leb n (length bs) then some (take n bs, drop n bs) else none

-- readUInt8, readUInt16BE and readUInt32BE, on as many bytes.
abbrev pub big_endian : ℕ → List ℕ → ℕ
big_endian acc [] = acc
big_endian acc (b ∷ bs) = big_endian (acc * 256 + b) bs

-- readInt8, readInt16BE and readInt32BE.
abbrev pub two_complement : ℕ → ℕ → Number
two_complement size n =
    if ltb n (2 ^ (8 * size - 1)) then fin false n 0 else fin true (2 ^ (8 * size) - n) 0

abbrev pub Read : Type 0
Read = List ℕ → Option (Value × List ℕ)

unfoldable pub read_items : Read → ℕ → List ℕ → Option (Elems × List ℕ)
read_items read zero bs = some (nil, bs)
read_items read (suc n) bs =
    read bs >>= λ a. read_items read n a.1 >>= λ r. some (cons a.0 r.0, r.1)

-- readArray
unfoldable pub read_array : Read → ℕ → List ℕ → Option (Value × List ℕ)
read_array read n bs =
    if leb n 256 then (read_items read n bs >>= λ r. some (arr r.0, r.1)) else none

-- `value[key] = item`: the key `__proto__` sets the prototype, which is no property. The keys stay in
-- the order in which they came, where JavaScript lists those that spell an array index first.
abbrev pub set_property : Text → Value → Bindings → Bindings
set_property key item value = if text_eq key (codes "__proto__") then value else put key item value

-- Buffer.toString('utf8'), readFloatBE or readDoubleBE, and String(value).
pub record Platform : Type 0 where
  pub of_utf8 : List ℕ → Text
  pub read_float : List ℕ → Number
  pub to_text : Value → Text

module _ (p : Platform) where
  -- The loop of readMap.
  unfoldable pub read_fields : Read → ℕ → Bindings → List ℕ → Option (Bindings × List ℕ)
  read_fields read zero value bs = some (value, bs)
  read_fields read (suc n) value bs = read bs >>= λ k.
      read k.1 >>= λ v. read_fields read n (set_property (p.to_text k.0) v.0 value) v.1

  unfoldable pub read_dict : Read → ℕ → List ℕ → Option (Value × List ℕ)
  read_dict read n bs =
      if leb n 256
      then (read_fields read n [] bs >>= λ r. some (obj (of_bindings r.0), r.1))
      else none

  unfoldable pub read_text : ℕ → List ℕ → Option (Value × List ℕ)
  read_text n bs = take_bytes n bs >>= λ r. some (str (p.of_utf8 r.0), r.1)

  -- What follows the marker.
  unfoldable pub read_kind : Read → Kind → List ℕ → Option (Value × List ℕ)
  read_kind read (small n) bs = some (num (fin false n 0), bs)
  read_kind read (negative n) bs = some (num (fin true n 0), bs)
  read_kind read (text n) bs = read_text n bs
  read_kind read (array n) bs = read_array read n bs
  read_kind read (dict n) bs = read_dict read n bs
  read_kind read nothing bs = some (null, bs)
  read_kind read (boolean b) bs = some (bool b, bs)
  read_kind read (float size) bs = take_bytes size bs >>= λ r. some (num (p.read_float r.0), r.1)
  read_kind read (unsigned size) bs =
      take_bytes size bs >>= λ r. some (num (fin false (big_endian 0 r.0) 0), r.1)
  read_kind read (signed size) bs =
      take_bytes size bs >>= λ r. some (num (two_complement size (big_endian 0 r.0)), r.1)
  read_kind read (sized_text size) bs = take_bytes size bs >>= λ r. read_text (big_endian 0 r.0) r.1
  read_kind read sized_array bs = take_bytes 2 bs >>= λ r. read_array read (big_endian 0 r.0) r.1
  read_kind read sized_dict bs = take_bytes 2 bs >>= λ r. read_dict read (big_endian 0 r.0) r.1
  read_kind read unsupported bs = none

  -- `read`. The fuel bounds the depth; as many steps as there are bytes are enough.
  unfoldable pub read_value : ℕ → Read
  read_value zero bs = none
  read_value (suc fuel) [] = none
  read_value (suc fuel) (m ∷ bs) = read_kind (read_value fuel) (kind_of m) bs

  abbrev pub whole : Value × List ℕ → Option Value
  whole (v, []) = some v
  whole (v, b ∷ bs) = none

  unfoldable pub decode : List ℕ → Option Value
  decode bs = read_value (length bs) bs >>= whole
