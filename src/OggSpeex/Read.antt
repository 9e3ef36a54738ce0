-- ===== src/OggSpeex/Read.antt =====
-- OggPacketReader. The state is what lies between two pages: the pieces of a packet that is not
-- complete, and how many packets were; the buffer stands beside it.
use voxhf.OggSpeex.Write.{magic}
use voxhf.Framing.{flatten, ahead_read}
use voxhf.Prelude.{
  leb, ◌&&◌, length, text_eq, ltb, drop, ◌+◌, ◌++◌, take, if◌then◌else◌, ℕ, List, ◌∷◌, [], zero,
  suc,
}

pub record Reader : Type 0 where
  pub pending : List (List ℕ)
  pub count : ℕ

abbrev pub new_reader : Reader
new_reader = record { pending = []; count = 0 }

-- The packet that a short segment completes, if it is passed on: the first two are Speex headers.
abbrev pub passed_on : ℕ → List ℕ → List (List ℕ)
passed_on count packet = if ltb 2 count && leb 1 (length packet) then packet ∷ [] else []

-- The `for` over the lacing values, with the data that is left.
unfoldable pub feed : List ℕ → List ℕ → Reader → Reader × List (List ℕ)
feed [] left r = (r, [])
feed (len ∷ segs) left r =
    let pieces = r.pending ++ (take len left ∷ []) in
    let count = r.count + 1 in
    let more = feed segs (drop len left) (record r { pending = pieces }) in
    let next = feed segs (drop len left) (record { pending = []; count = count }) in
    if ltb len 255 then (next.0, passed_on count (flatten pieces) ++ next.1) else more

-- `buffer.indexOf('OggS')`, and the buffer from there; the empty list when there is none.
unfoldable pub from_magic : List ℕ → List ℕ
from_magic [] = []
from_magic (a ∷ bs) =
    let later = from_magic bs in if text_eq (take 4 (a ∷ bs)) magic then a ∷ bs else later

abbrev pub sum : List ℕ → ℕ
sum [] = 0
sum (n ∷ ns) = n + sum ns

-- `buffer[n]`
abbrev pub byte_at : ℕ → List ℕ → ℕ
byte_at n [] = 0
byte_at zero (b ∷ bs) = b
byte_at (suc n) (b ∷ bs) = byte_at n bs

-- What stands at the front of a buffer that begins with the magic.
pub data Front : Type 0 where
  wait : Front
  page_at : List ℕ → List ℕ → List ℕ → Front

unfoldable pub front : List ℕ → Front
front buffer =
    let count = byte_at 26 buffer in
    let table = take count (drop 27 buffer) in
    let behind = drop count (drop 27 buffer) in
    if ltb (length buffer) 27
    then wait
    else if ltb (length buffer) (27 + count)
    then wait
    else if ltb (length behind) (sum table)
    then wait
    else page_at table (take (sum table) behind) (drop (sum table) behind)

abbrev pub turn :
    Front
    → List ℕ
    → Reader
    → (List ℕ → Reader → Reader × List (List ℕ) × List ℕ)
    → Reader × List (List ℕ) × List ℕ
turn wait buffer r loop = (r, [], buffer)
turn (page_at table payload rest) buffer r loop =
    let (r', packets) = feed table payload r in ahead_read packets (loop rest r')

-- The `while` loop of `push`: the reader, the packets passed on, and the buffer. Every turn but the
-- last takes a page, so that as many steps as there are bytes are enough.
unfoldable pub drain : ℕ → Reader → List ℕ → Reader × List (List ℕ) × List ℕ
drain zero r buffer = (r, [], buffer)
drain (suc fuel) r buffer =
    let found = from_magic buffer in
    let continued = turn (front found) found r (λ rest r'. drain fuel r' rest) in
    if ltb (length buffer) 27 then (r, [], buffer) else continued
