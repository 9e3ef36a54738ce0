-- ===== src/PilotCore/Tests.antt =====
-- Runs of the codec and of the reader, and their theorems at concrete inputs.
use voxhf.PilotCore.Stream.{stream, push_all-stream, messages-push_all}
use voxhf.PilotCore.RoundTrip.{decode-encode, Plain}
use voxhf.PilotCore.Frames.{push, drain, next, push_all, messages}
use voxhf.PilotCore.Encode.{encode_text, make_message_pack_frame, encode_natural, encode}
use voxhf.PilotCore.Decode.{
  read_value, read_kind, read_text, read_dict, read_fields, read_array, read_items, take_bytes,
  kind_of, special_kind, decode, Platform,
}
use voxhf.Json.{str, nil, fin, cons, num, nan, arr, Value}
use voxhf.Prelude.{
  true, false, drop, codes, arith, take, ℕ, Text, List, ◌∷◌, [], none, some, refl, ◌≡◌,
}

-- A platform for texts of ASCII, without floating-point numbers.
abbrev same_text : Text → List ℕ
same_text s = s

abbrev ascii : Platform
ascii = record { of_utf8 = λ bs. bs; read_float = λ bs. nan; to_text = λ v. codes "key" }

program : Unit {0}
unfolding encode_natural encode_text encode make_message_pack_frame special_kind kind_of take_bytes
    read_items read_array read_fields read_dict read_text read_kind read_value decode next drain
    push push_all
program = tt

abbrev int : ℕ → Value
int n = num (fin false n 0)

-- setCom of COM2 to 122.800 MHz: 0x1800, [2, 122800].
abbrev tune : Value
tune = arr (cons (int 6144) (cons (arr (cons (int 2) (cons (int 122800) nil))) nil))

abbrev tune_bytes : List ℕ
tune_bytes = 146 ∷ 205 ∷ 24 ∷ 0 ∷ 146 ∷ 2 ∷ 206 ∷ 0 ∷ 1 ∷ 223 ∷ 176 ∷ []

abbrev squawk : Value
squawk = arr (cons (int 256) (cons (str (codes "0421")) nil))

abbrev squawk_bytes : List ℕ
squawk_bytes = 146 ∷ 205 ∷ 1 ∷ 0 ∷ 164 ∷ 48 ∷ 52 ∷ 50 ∷ 49 ∷ []

tune_runs : encode same_text tune ≡ some tune_bytes
unfolding program
tune_runs = refl

squawk_runs : encode same_text squawk ≡ some squawk_bytes
unfolding program
squawk_runs = refl

frame_runs :
    make_message_pack_frame same_text (int 5633) (arr nil)
    ≡ some (5 ∷ 0 ∷ 0 ∷ 0 ∷ 146 ∷ 205 ∷ 22 ∷ 1 ∷ 144 ∷ [])
unfolding program
frame_runs = refl

-- -1, 300 and 16-bit -2; a truncated value and a trailing byte are refused.
decode_runs :
    (decode ascii (255 ∷ []) ≡ some (num (fin true 1 0)))
    × (decode ascii (205 ∷ 1 ∷ 44 ∷ []) ≡ some (int 300))
    × (decode ascii (209 ∷ 255 ∷ 254 ∷ []) ≡ some (num (fin true 2 0)))
    × (decode ascii (205 ∷ 1 ∷ []) ≡ none)
    × (decode ascii (1 ∷ 2 ∷ []) ≡ none)
unfolding program
decode_runs = (refl, refl, refl, refl, refl)

tune-Plain : Plain same_text ascii tune
unfolding Plain
tune-Plain = ((6144, refl), (((2, refl), ((122800, refl), tt)), tt))

squawk-Plain : Plain same_text ascii squawk
unfolding Plain
squawk-Plain = ((256, refl), (refl, tt))

decode-encode_example : decode ascii tune_bytes ≡ some tune
decode-encode_example = decode-encode same_text ascii tune tune-Plain tune_runs

-- The two messages in three chunks, the second of which is empty.
abbrev chunks : List (List ℕ)
chunks =
    take 7 (stream (tune_bytes ∷ squawk_bytes ∷ []))
    ∷ []
    ∷ drop 7 (stream (tune_bytes ∷ squawk_bytes ∷ []))
    ∷ []

push_all-stream_example : push_all chunks [] ≡ (tune_bytes ∷ squawk_bytes ∷ [], [])
push_all-stream_example =
    push_all-stream (tune_bytes ∷ squawk_bytes ∷ []) chunks
      ((omega arith, omega arith), ((omega arith, omega arith), tt)) refl

messages-push_all_example : messages (decode ascii) (push_all chunks []).0 ≡ tune ∷ squawk ∷ []
messages-push_all_example =
    messages-push_all same_text ascii (tune ∷ squawk ∷ []) (tune_bytes ∷ squawk_bytes ∷ []) chunks
      (tune-Plain, (squawk-Plain, tt)) (tune_runs, (squawk_runs, tt))
      ((omega arith, omega arith), ((omega arith, omega arith), tt)) refl
