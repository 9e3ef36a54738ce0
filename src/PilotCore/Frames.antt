-- ===== src/PilotCore/Frames.antt =====
-- createMessagePackFrameReader: messages out of a stream that arrives in chunks of any size.
use voxhf.Json.{Value}
use voxhf.Prelude.{
  ◌||◌, drop, take, ltb, length, ◌+◌, ◌++◌, ◌*◌, suc, if◌then◌else◌, Option, ℕ, List, ◌∷◌, [], none,
  some,
}

-- MAX_PILOT_CORE_FRAME_BYTES
abbrev pub max_frame_bytes : ℕ
max_frame_bytes = 1024 * 1024

-- readUInt32LE
abbrev pub read_little_endian4 : ℕ → ℕ → ℕ → ℕ → ℕ
read_little_endian4 a b c d = a + 256 * b + 65536 * c + 16777216 * d

-- What the reader does with the bytes behind a header that announces `n` bytes.
pub data Next : Type 0 where
  -- the length is out of bounds: everything is dropped
  reset : Next
  -- the frame is not complete
  wait : Next
  frame : Next

unfoldable pub next : ℕ → List ℕ → Next
next n bs =
    if ltb n 1 || ltb max_frame_bytes n then reset else if ltb (length bs) n then wait else frame

abbrev pub cons_body : List ℕ → List (List ℕ) × List ℕ → List (List ℕ) × List ℕ
cons_body body (bodies, pending) = (body ∷ bodies, pending)

-- One turn of the loop on the bytes `all_bytes`; `rest` is what the loop does behind the frame.
abbrev pub turn : Next → List ℕ → List ℕ → List (List ℕ) × List ℕ → List (List ℕ) × List ℕ
turn reset all_bytes body rest = ([], [])
turn wait all_bytes body rest = ([], all_bytes)
turn frame all_bytes body rest = cons_body body rest

-- The `while` loop: the bodies that it passes to the decoder, in order, and what is pending after it.
-- Every turn takes at least five bytes, so that as many steps as there are bytes are enough.
unfoldable pub drain : ℕ → List ℕ → List (List ℕ) × List ℕ
drain (suc fuel) (a ∷ b ∷ c ∷ d ∷ bs) =
    let n = read_little_endian4 a b c d in
    turn (next n bs) (a ∷ b ∷ c ∷ d ∷ bs) (take n bs) (drain fuel (drop n bs))
drain fuel pending = ([], pending)

-- One call of `push`.
unfoldable pub push : List ℕ → List ℕ → List (List ℕ) × List ℕ
push pending [] = ([], pending)
push pending (c ∷ chunk) = let bytes = pending ++ (c ∷ chunk) in drain (length bytes) bytes

-- The calls for a list of chunks.
abbrev pub then_push :
    (List ℕ → List (List ℕ) × List ℕ) → List (List ℕ) × List ℕ → List (List ℕ) × List ℕ
then_push rest (bodies, pending) = (bodies ++ (rest pending).0, (rest pending).1)

unfoldable pub push_all : List (List ℕ) → List ℕ → List (List ℕ) × List ℕ
push_all [] pending = ([], pending)
push_all (chunk ∷ chunks) pending = then_push (push_all chunks) (push pending chunk)

-- `try { onMessage(decodeMessagePack(body)) } catch {}`
abbrev pub heard : Option Value → List Value → List Value
heard none rest = rest
heard (some v) rest = v ∷ rest

-- The messages of the bodies that decode; the others are skipped.
abbrev pub messages : (List ℕ → Option Value) → List (List ℕ) → List Value
messages decode [] = []
messages decode (body ∷ bodies) = heard (decode body) (messages decode bodies)
