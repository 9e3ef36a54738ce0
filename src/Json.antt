-- ===== src/Json.antt =====
-- The JavaScript values that packages/protocol/index.js reads: what JSON.parse returns, and
-- `undefined` for a property that is not there. The fields of an object stand in the order of
-- Object.keys. A number is exact: `fin neg n k` is n / 2 ^ k with its sign, as every finite double
-- is; the code compares numbers and computes none.
pub mod Laws
use voxhf.Prelude.{
  ℕ, ◌+◌, ◌*◌, ◌%◌, ◌^◌, ◌<◌, ◌≡◌, refl, Bool, true, false, not, ◌&&◌, ◌||◌, Option, none, some,
  List, [], ◌∷◌, Text, text_eq, leb, ◌==◌, if◌then◌else◌,
}

pub data Number : Type 0 where
  fin : Bool → ℕ → ℕ → Number
  infinite : Bool → Number
  nan : Number

mutual
  pub data Value : Type 0 where
    undefined : Value
    null : Value
    bool : Bool → Value
    num : Number → Value
    str : Text → Value
    arr : Elems → Value
    obj : Fields → Value

  pub data Elems : Type 0 where
    nil : Elems
    cons : Value → Elems → Elems

  pub data Fields : Type 0 where
    end : Fields
    field : Text → Value → Fields → Fields

abbrev pub elems : Elems → List Value
elems nil = []
elems (cons v vs) = v ∷ elems vs

abbrev pub of_list : List Value → Elems
of_list [] = nil
of_list (v ∷ vs) = cons v (of_list vs)

abbrev pub Bindings : Type 0
Bindings = List (Text × Value)

abbrev pub bindings : Fields → Bindings
bindings end = []
bindings (field k v fs) = (k, v) ∷ bindings fs

abbrev pub of_bindings : Bindings → Fields
of_bindings [] = end
of_bindings ((k, v) ∷ b) = field k v (of_bindings b)

-- `key in o`, for keys that Object.prototype does not have.
unfoldable pub has : Text → Bindings → Bool
has k [] = false
has k ((j, v) ∷ b) = text_eq j k || has k b

-- `o[key]`
unfoldable pub get : Text → Bindings → Value
get k [] = undefined
get k ((j, v) ∷ b) = if text_eq j k then v else get k b

-- `o[key] = v`
unfoldable pub put : Text → Value → Bindings → Bindings
put k v [] = (k, v) ∷ []
put k v ((j, w) ∷ b) = if text_eq j k then (k, v) ∷ b else (j, w) ∷ put k v b

abbrev pub keys : Bindings → List Text
keys [] = []
keys ((k, v) ∷ b) = k ∷ keys b

abbrev pub number_truthy : Number → Bool
number_truthy (fin neg n k) = not (n == 0)
number_truthy (infinite neg) = true
number_truthy nan = false

-- `Boolean(v)`
abbrev pub truthy : Value → Bool
truthy undefined = false
truthy null = false
truthy (bool b) = b
truthy (num x) = number_truthy x
truthy (str []) = false
truthy (str (c ∷ s)) = true
truthy (arr vs) = true
truthy (obj fs) = true

-- `v || d`
abbrev pub or_default : Value → Value → Value
or_default v d = if truthy v then v else d

-- `v !== undefined`
abbrev pub is_defined : Value → Bool
is_defined undefined = false
is_defined _ = true

-- `v === t` for a string literal t
abbrev pub is_text : Text → Value → Bool
is_text t (str s) = text_eq s t
is_text t _ = false

-- Tests of a number against natural bounds: `x === n`, Number.isInteger(x), `x >= n`, `x <= n`,
-- `x >= -n`.
abbrev pub equals : Number → ℕ → Bool
equals (fin false n k) m = n == m * 2 ^ k
equals (fin true n k) m = m == 0 && n == 0
equals _ m = false

abbrev pub is_integer : Number → Bool
is_integer (fin neg n k) = n % 2 ^ k == 0
is_integer _ = false

abbrev pub at_least : Number → ℕ → Bool
at_least (fin false n k) m = leb (m * 2 ^ k) n
at_least (fin true n k) m = m == 0 && n == 0
at_least (infinite neg) m = not neg
at_least nan m = false

abbrev pub at_most : Number → ℕ → Bool
at_most (fin false n k) m = leb n (m * 2 ^ k)
at_most (fin true n k) m = true
at_most (infinite neg) m = neg
at_most nan m = false

abbrev pub at_least_minus : Number → ℕ → Bool
at_least_minus (fin false n k) m = true
at_least_minus (fin true n k) m = leb n (m * 2 ^ k)
at_least_minus (infinite neg) m = not neg
at_least_minus nan m = false

abbrev pub is_finite : Number → Bool
is_finite (fin neg n k) = true
is_finite _ = false
