-- ===== src/Protocol/Version.antt =====
-- normalizeVersionText, parseVersion and compareVersions of packages/protocol/index.js. trim and
-- localeCompare are parameters, and the numbers of a version are exact.
use voxhf.Prelude.{
  true, false, is_digit, ◌||◌, ◌-◌, ◌&&◌, length, ◌==◌, ◌+◌, text_eq, ltb, leb, is_alnum, ◌*◌,
  if◌then◌else◌, Option, Bool, ℕ, Text, List, ◌∷◌, [], none, some, zero, suc,
}

-- The sign of a comparison.
pub data Order : Type 0 where
  less equal greater : Order

pub record Version : Type 0 where
  pub parts : List ℕ
  pub prerelease : Text

-- The longest prefix of a class, and what follows it.
abbrev pub take_while : (ℕ → Bool) → Text → Text
take_while class [] = []
take_while class (c ∷ s) = if class c then c ∷ take_while class s else []

abbrev pub drop_while : (ℕ → Bool) → Text → Text
drop_while class [] = []
drop_while class (c ∷ s) = if class c then drop_while class s else c ∷ s

-- Number(digits)
abbrev pub number_of : ℕ → Text → ℕ
number_of acc [] = acc
number_of acc (c ∷ s) = number_of (acc * 10 + (c - 48)) s

-- `\.[0-9]+`, the number and what follows it
abbrev pub dot_number : Text → Option (ℕ × Text)
dot_number [] = none
dot_number (c ∷ s) =
    if c == b'.' && leb 1 (length (take_while is_digit s))
    then some (number_of 0 (take_while is_digit s), drop_while is_digit s)
    else none

-- As many groups as there are, up to `n`.
abbrev pub dot_numbers : ℕ → Text → List ℕ × Text
dot_numbers zero s = ([], s)
dot_numbers (suc n) s = elim (dot_number s) [
  | none ↦ ([], s)
  | some (k, rest) ↦ let (ks, last) = dot_numbers n rest in (k ∷ ks, last)
]

abbrev pub prerelease_char : ℕ → Bool
prerelease_char c = is_alnum c || c == b'.' || c == b':' || c == b'-'

-- `(?:-([A-Za-z0-9.:-]+))?`
abbrev pub prerelease_of : Text → Text
prerelease_of [] = []
prerelease_of (c ∷ s) = if c == b'-' then take_while prerelease_char s else []

-- `while (parts.length < 4) parts.push(0)`
abbrev pub pad : ℕ → List ℕ → List ℕ
pad zero ns = ns
pad (suc n) [] = 0 ∷ pad n []
pad (suc n) (k ∷ ns) = k ∷ pad n ns

abbrev pub drop_v : Text → Text
drop_v [] = []
drop_v (c ∷ s) = if c == b'v' || c == b'V' then s else c ∷ s

abbrev pub version_of : ℕ → List ℕ × Text → Option Version
version_of major ([], rest) = none
version_of major (minor ∷ others, rest) =
    some (record { parts = pad 4 (major ∷ minor ∷ others); prerelease = prerelease_of rest })

abbrev pub compare_parts : List ℕ → List ℕ → Order
compare_parts [] bs = equal
compare_parts (a ∷ rest_a) [] = equal
compare_parts (a ∷ rest_a) (b ∷ rest_b) =
    if ltb a b then less else if ltb b a then greater else compare_parts rest_a rest_b

abbrev pub or_else : Order → Order → Order
or_else equal other = other
or_else less other = less
or_else greater other = greater

module _ (trim : Text → Text) (locale_compare : Text → Text → Order) where
  abbrev pub normalize_version_text : Text → Text
  normalize_version_text value = drop_v (trim value)

  unfoldable pub parse_version : Text → Option Version
  parse_version value =
      let s = normalize_version_text value in
      if leb 1 (length (take_while is_digit s))
      then version_of (number_of 0 (take_while is_digit s)) (dot_numbers 3 (drop_while is_digit s))
      else none

  abbrev pub compare_prereleases : Text → Text → Order
  compare_prereleases left right =
      if text_eq left right
      then equal
      else if length left == 0
      then greater
      else if length right == 0
      then less
      else locale_compare left right

  abbrev pub compare_parsed : Option Version → Option Version → Order
  compare_parsed none right = equal
  compare_parsed (some left) none = equal
  compare_parsed (some left) (some right) =
      or_else (compare_parts left.parts right.parts)
        (compare_prereleases left.prerelease right.prerelease)

  unfoldable pub compare_versions : Text → Text → Order
  compare_versions left right = compare_parsed (parse_version left) (parse_version right)

-- `order < 0`
abbrev pub is_less : Order → Bool
is_less less = true
is_less equal = false
is_less greater = false
