-- ===== src/Prelude/Strings.antt =====
-- A JavaScript string is the list of its UTF-16 code units.
use Prim.Native.Nat.{ℕ, ◌+◌}
use Prim.Native.Char.{code}
use Prim.Native.String.{String}
use mathlib.Core.Path.{◌≡◌, refl}
use mathlib.Core.Logic.{◌↔◌}
use mathlib.Core.Bool.{Bool, true, false, ◌&&◌, ◌||◌}
use mathlib.Core.List.{List, [], ◌∷◌}
use native.Mathlib.Omega.{arith}
use voxhf.Prelude.Tests.{ltb, leb, ◌==◌, if◌then◌else◌}

abbrev pub Text : Type 0
Text = List ℕ

-- A literal of the program; all of them are ASCII.
abbrev pub codes : String → Text
codes String.[] = []
codes (String.◌∷◌ c s) = code c ∷ codes s

-- `===` on strings.
unfoldable pub text_eq : Text → Text → Bool
text_eq [] [] = true
text_eq (a ∷ s) (b ∷ t) = a == b && text_eq s t
text_eq _ _ = false

text_eq_sound : (s t : Text) → text_eq s t ≡ true → s ≡ t
unfolding text_eq
text_eq_sound [] [] h = refl
text_eq_sound (a ∷ s) (b ∷ t) h = ground (arith, text_eq_sound s t)
text_eq_sound _ _ h = ground arith

pub text_eq_refl : (s : Text) → text_eq s s ≡ true
unfolding text_eq
text_eq_refl [] = refl
text_eq_refl (a ∷ s) = ground (arith, text_eq_refl s)

text_eq_complete : (s t : Text) → s ≡ t → text_eq s t ≡ true
text_eq_complete s t e = ground (arith, text_eq_refl s)

pub text_eq_iff : (s t : Text) → (text_eq s t ≡ true) ↔ (s ≡ t)
text_eq_iff s t = (text_eq_sound s t, text_eq_complete s t)

unfoldable pub is_high_surrogate : ℕ → Bool
is_high_surrogate u = leb 0xd800 u && ltb u 0xdc00

unfoldable pub is_low_surrogate : ℕ → Bool
is_low_surrogate u = leb 0xdc00 u && ltb u 0xe000

-- `Buffer.byteLength(s, 'utf8')`: a surrogate pair takes four bytes, and a lone surrogate is
-- written as U+FFFD, which takes three.
unfoldable pub byte_length : Text → ℕ
unfolding is_high_surrogate is_low_surrogate
byte_length [] = 0
byte_length (u ∷ []) = if ltb u 0x80 then 1 else if ltb u 0x800 then 2 else 3
byte_length (u ∷ v ∷ s) =
    let pair = 4 + byte_length s in
    let rest = byte_length (v ∷ s) in
    if is_high_surrogate u && is_low_surrogate v
    then pair
    else if ltb u 0x80
    then 1 + rest
    else if ltb u 0x800
    then 2 + rest
    else 3 + rest

-- Character classes of the program's regular expressions.
abbrev pub is_digit : ℕ → Bool
is_digit c = leb b'0' c && leb c b'9'

abbrev pub is_upper : ℕ → Bool
is_upper c = leb b'A' c && leb c b'Z'

abbrev pub is_lower : ℕ → Bool
is_lower c = leb b'a' c && leb c b'z'

abbrev pub is_alnum : ℕ → Bool
is_alnum c = is_upper c || is_lower c || is_digit c
