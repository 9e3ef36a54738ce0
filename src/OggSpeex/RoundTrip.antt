-- ===== src/OggSpeex/RoundTrip.antt =====
-- What the writer writes, the reader reads.
use voxhf.Framing.{split_at, Reads, ahead_read}
use voxhf.OggSpeex.Pages.{feed_laced, sum-segments, length-segments, packet_done}
use voxhf.OggSpeex.Write.{little_endian, segments, magic, page_bytes}
use voxhf.OggSpeex.Read.{turn, feed, sum, drain, byte_at, page_at, wait, front, from_magic, Reader}
use voxhf.Prelude.{
  sym, ltb→lt, ap, inr, inl, drop-append, ◌∙◌, take-append, Bool-cases, lt→ltb, length-append, ◌≤◌,
  true, false, ◌+◌, drop, take, ltb, if◌then◌else◌, arith, ◌<◌, ◌++◌, ◌%◌, text_eq, ℕ, length, List,
  ◌∷◌, [], zero, suc, refl, ◌≡◌,
}
use mathlib.Core.List.{append_assoc, append-nil}

-- A page as `page` lays it out.
pub record Page : Type 0 where
  pub crc : ℕ
  pub payload : List ℕ
  pub flags : ℕ
  pub granule : ℕ
  pub serial : ℕ
  pub seq : ℕ

abbrev pub bytes_of : Page → List ℕ
bytes_of q = page_bytes q.crc q.payload q.flags q.granule q.serial q.seq

-- A page whose lacing values are counted by one byte.
abbrev pub Fits : Page → Type 0
Fits q = length q.payload < 65025

abbrev pub read_page : Page → Reader → Reader × List (List ℕ)
read_page q r = packet_done q.payload r

abbrev table_of : Page → List ℕ
table_of q = segments (length q.payload)

-- The first 27 bytes.
abbrev header_of : Page → List ℕ
header_of q =
    magic
    ++ (0 ∷ q.flags ∷ [])
    ++ little_endian 8 q.granule
    ++ little_endian 4 q.serial
    ++ little_endian 4 q.seq
    ++ little_endian 4 q.crc
    ++ (length (table_of q) % 256 ∷ [])

bytes_of-split :
    (q : Page) (rest : List ℕ)
    → bytes_of q ++ rest ≡ header_of q ++ (table_of q ++ (q.payload ++ rest))
unfolding page_bytes
bytes_of-split q rest = rw (append_assoc (table_of q) q.payload rest) refl

few_segments : (q : Page) → Fits q → length (table_of q) % 256 ≡ length (table_of q)
few_segments q h = omega (arith, length-segments (length q.payload))

from_magic-header : (q : Page) (z : List ℕ) → from_magic (header_of q ++ z) ≡ header_of q ++ z
unfolding from_magic text_eq
from_magic-header q z = refl

front-table :
    (buffer table z : List ℕ)
    → 27 + length table ≤ length buffer
    → byte_at 26 buffer ≡ length table
    → drop 27 buffer ≡ table ++ z
    → front buffer ≡ (
        if ltb (length z) (sum table)
        then wait
        else page_at table (take (sum table) z) (drop (sum table) z))
unfolding front
front-table buffer table z long count behind =
    let enough : ltb (length buffer) 27 ≡ false = ground arith in
    let whole : ltb (length buffer) (27 + length table) ≡ false = ground arith in
    rw (count, behind, take-append table z, drop-append table z, enough, whole)

front-wait : (buffer : List ℕ) → length buffer < 27 + byte_at 26 buffer → front buffer ≡ wait
unfolding front
front-wait buffer less =
    let short : ltb (length buffer) (27 + byte_at 26 buffer) ≡ true = lt→ltb _ _ less in
    elim (Bool-cases (ltb (length buffer) 27)) [
      | inl tiny ↦ rw tiny
      | inr enough ↦ rw (enough, short)
    ]

drain-front :
    (fuel : ℕ) (r : Reader) (buffer : List ℕ)
    → 27 ≤ length buffer
    → from_magic buffer ≡ buffer
    → drain (suc fuel) r buffer ≡ turn (front buffer) buffer r (λ rest r'. drain fuel r' rest)
unfolding drain
drain-front fuel r buffer long here =
    let enough : ltb (length buffer) 27 ≡ false = ground arith in rw (here, enough)

drain-tiny : (fuel : ℕ) (r : Reader) (x : List ℕ) → length x < 27 → drain fuel r x ≡ (r, [], x)
unfolding drain
drain-tiny zero r x less = refl
drain-tiny (suc fuel) r x less = rw (lt→ltb _ _ less)

drain-waiting :
    (fuel : ℕ) (r : Reader) (x : List ℕ)
    → 27 ≤ length x
    → from_magic x ≡ x
    → front x ≡ wait
    → drain fuel r x ≡ (r, [], x)
unfolding drain
drain-waiting zero r x long here waits = refl
drain-waiting (suc fuel) r x long here waits = drain-front fuel r x long here ∙ rw waits refl

segments_feed : (q : Page) (r : Reader) → feed (table_of q) q.payload r ≡ packet_done q.payload r
unfolding segments
segments_feed q r = feed_laced (length q.payload) q.payload r (omega arith)

length_of_page : (q : Page) → length (bytes_of q) ≡ 27 + (length (table_of q) + length q.payload)
length_of_page q =
    ap length (sym (append-nil (bytes_of q)) ∙ bytes_of-split q [])
    ∙ omega (arith, length-append (table_of q) (q.payload ++ []), length-append q.payload [])

module _ (q : Page) (h : Fits q) where
  -- The front of a buffer that begins with the header.
  header-count : (z : List ℕ) → byte_at 26 (header_of q ++ z) ≡ length (table_of q)
  header-count z = few_segments q h

  front-page :
      (rest : List ℕ)
      → front (header_of q ++ (table_of q ++ (q.payload ++ rest)))
        ≡ page_at (table_of q) q.payload rest
  front-page rest =
      let size = sum-segments (length q.payload) in
      let enough : ltb (length (q.payload ++ rest)) (length q.payload) ≡ false =
        ground (arith, length-append q.payload rest) in
      front-table (header_of q ++ (table_of q ++ (q.payload ++ rest))) (table_of q)
        (q.payload ++ rest) (omega (arith, length-append (table_of q) (q.payload ++ rest)))
        (header-count (table_of q ++ (q.payload ++ rest))) refl
      ∙ rw (size, enough, take-append q.payload rest, drop-append q.payload rest) refl

  drain-page :
      (fuel : ℕ) (r : Reader) (rest : List ℕ)
      → drain (suc fuel) r (bytes_of q ++ rest)
        ≡ ahead_read (read_page q r).1 (drain fuel (read_page q r).0 rest)
  drain-page fuel r rest =
      let z = table_of q ++ (q.payload ++ rest) in
      rw (bytes_of-split q rest) (
        drain-front fuel r (header_of q ++ z) (omega arith) (from_magic-header q z)
        ∙ rw (front-page rest, segments_feed q r) refl)

  -- What stands behind the header is no page yet.
  front-part :
      (z y rest : List ℕ)
      → z ++ y ≡ table_of q ++ (q.payload ++ rest)
      → length z < length (table_of q) + length q.payload
      → front (header_of q ++ z) ≡ wait
  front-part z y rest e less = elim (Bool-cases (ltb (length z) (length (table_of q)))) [
    | inl tiny ↦ front-wait (header_of q ++ z) (omega (arith, ltb→lt _ _ tiny, few_segments q h))
    | inr more ↦
        let (z', same, after) = split_at (table_of q) (q.payload ++ rest) z y e (ground arith) in
        let size = sum-segments (length q.payload) in
        let short : ltb (length z') (length q.payload) ≡ true =
          lt→ltb _ _ (omega (arith, ap length same, length-append (table_of q) z')) in
        rw same (
          front-table (header_of q ++ (table_of q ++ z')) (table_of q) z'
            (omega (arith, length-append (table_of q) z')) (header-count (table_of q ++ z')) refl
          ∙ rw (size, short) refl)
  ]

  drain-part :
      (fuel : ℕ) (r : Reader) (x y rest : List ℕ)
      → x ++ y ≡ bytes_of q ++ rest
      → length x < length (bytes_of q)
      → drain fuel r x ≡ (r, [], x)
  drain-part fuel r x y rest e less = elim (Bool-cases (ltb (length x) 27)) [
    | inl tiny ↦ drain-tiny fuel r x (ltb→lt _ _ tiny)
    | inr more ↦
        let z = table_of q ++ (q.payload ++ rest) in
        let (z', same, after) =
          split_at (header_of q) z x y (e ∙ bytes_of-split q rest) (ground arith) in
        let sizes = length_of_page q in
        rw same (
          drain-waiting fuel r (header_of q ++ z') (omega arith) (from_magic-header q z')
            (front-part z' y rest after (omega (arith, ap length same))))
  ]

pub ogg-Reads : Reads bytes_of Fits read_page drain
unfolding drain
ogg-Reads = record {
  some_byte = λ q h. omega (arith, length_of_page q);
  takes = λ fuel r q rest h. drain-page q h fuel r rest;
  waits = λ fuel r q x y rest h e less. drain-part q h fuel r x y rest e less;
  idle = λ fuel r. drain-tiny fuel r [] (omega arith);
}
