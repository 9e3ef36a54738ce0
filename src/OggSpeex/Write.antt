-- ===== src/OggSpeex/Write.antt =====
-- OggSpeexWriter. `none` is the RangeError of a Buffer write whose number does not fit.
use Prim.Native.Nat.{bit_xor, bit_and}
use voxhf.Prelude.{
  ◌>>=◌, ◌&&◌, ◌^◌, ◌==◌, ◌/◌, ltb, leb, codes, ◌-◌, ◌+◌, ◌++◌, ◌*◌, ◌%◌, length, if◌then◌else◌, ℕ,
  Option, List, ◌∷◌, [], none, some, zero, suc,
}

-- writeUIntLE and writeBigInt64LE, in as many bytes, the lowest first.
abbrev pub little_endian : ℕ → ℕ → List ℕ
little_endian zero n = []
little_endian (suc size) n = n % 256 ∷ little_endian size (n / 256)

abbrev pub zeros : ℕ → List ℕ
zeros zero = []
zeros (suc n) = 0 ∷ zeros n

-- One step of the table's inner loop.
unfoldable pub crc_shift : ℕ → ℕ
crc_shift r = if leb 0x80000000 r then bit_xor (r * 2 % 2 ^ 32) 0x04c11db7 else r * 2

abbrev pub crc_steps : ℕ → ℕ → ℕ
crc_steps zero r = r
crc_steps (suc n) r = crc_steps n (crc_shift r)

-- CRC32_OGG[i]
unfoldable pub crc_table : ℕ → ℕ
unfolding crc_shift
crc_table i = crc_steps 8 (i * 2 ^ 24)

-- The loop of oggCrc.
unfoldable pub crc_loop : ℕ → List ℕ → ℕ
crc_loop crc [] = crc
crc_loop crc (b ∷ bs) =
    crc_loop (bit_xor (crc * 256 % 2 ^ 32) (crc_table (bit_and (bit_xor (crc / 2 ^ 24) b) 0xff))) bs

unfoldable pub ogg_crc : List ℕ → ℕ
ogg_crc page = crc_loop 0 page

pub record Writer : Type 0 where
  pub sample_rate : ℕ
  pub frames_per_packet : ℕ
  pub serial : ℕ
  pub seq : ℕ
  pub granule : ℕ

unfoldable pub frame_size : ℕ → ℕ
frame_size rate = if rate == 16000 then 320 else if rate == 32000 then 640 else 160

-- new OggSpeexWriter(sampleRate, framesPerPacket), with a random serial number
abbrev pub new_writer : ℕ → ℕ → ℕ → Writer
new_writer rate frames serial = record {
  sample_rate = rate;
  frames_per_packet = frames;
  serial = serial;
  seq = 0;
  granule = 0;
}

-- `for (let left = data.length; left >= 255; left -= 255) segments.push(255)`, on fuel: every turn
-- takes 255.
unfoldable pub full_segments : ℕ → ℕ → List ℕ
full_segments zero left = []
full_segments (suc fuel) left =
    let rest = full_segments fuel (left - 255) in if leb 255 left then 255 ∷ rest else []

unfoldable pub segments : ℕ → List ℕ
segments size = full_segments size size ++ (size % 255 ∷ [])

abbrev pub magic : List ℕ
magic = b'O' ∷ b'g' ∷ b'g' ∷ b'S' ∷ []

-- The page with `crc` in its checksum field. `page[26] = segments.length` keeps the low byte.
unfoldable pub page_bytes : ℕ → List ℕ → ℕ → ℕ → ℕ → ℕ → List ℕ
page_bytes crc payload flags granule serial seq =
    let table = segments (length payload) in
    magic
    ++ (0 ∷ flags ∷ [])
    ++ little_endian 8 granule
    ++ little_endian 4 serial
    ++ little_endian 4 seq
    ++ little_endian 4 crc
    ++ (length table % 256 ∷ [])
    ++ table
    ++ payload

unfoldable pub page : List ℕ → ℕ → ℕ → Writer → Option (List ℕ × Writer)
page payload flags granule w =
    let blank = page_bytes 0 payload flags granule w.serial w.seq in
    if ltb granule (2 ^ 63) && ltb w.seq (2 ^ 32)
    then some (
      page_bytes (ogg_crc blank) payload flags granule w.serial w.seq,
      record w { seq = w.seq + 1 },
    )
    else none

-- The identification packet; a rate or a frame count beyond 32 bits is the RangeError of
-- writeUInt32LE.
unfoldable pub speex_header : Writer → List ℕ
speex_header w =
    let mode = if w.sample_rate == 32000 then 2 else if w.sample_rate == 16000 then 1 else 0 in
    codes "Speex   1.2.1"
    ++ zeros 15
    ++ little_endian 4 1
    ++ little_endian 4 80
    ++ little_endian 4 w.sample_rate
    ++ little_endian 4 mode
    ++ little_endian 4 4
    ++ little_endian 4 1
    ++ little_endian 4 (2 ^ 32 - 1)
    ++ little_endian 4 (frame_size w.sample_rate)
    ++ little_endian 4 0
    ++ little_endian 4 w.frames_per_packet
    ++ zeros 12

-- The comment packet.
abbrev pub speex_comment : List ℕ
speex_comment = little_endian 4 5 ++ (codes "VoxHF" ++ little_endian 4 0)

unfoldable pub headers : Writer → Option (List ℕ × Writer)
headers w =
    if ltb w.sample_rate (2 ^ 32) && ltb w.frames_per_packet (2 ^ 32)
    then (page (speex_header w) 0x02 0 w >>= λ a.
        page speex_comment 0x00 0 a.1 >>= λ b. some (a.0 ++ b.0, b.1))
    else none

unfoldable pub frame : List ℕ → Writer → Option (List ℕ × Writer)
frame payload w =
    let next = w.granule + frame_size w.sample_rate * w.frames_per_packet in
    page payload 0x00 next (record w { granule = next })

-- A stream: the headers, then a frame for each packet.
abbrev pub write_frames : List (List ℕ) → Writer → Option (List ℕ × Writer)
write_frames [] w = some ([], w)
write_frames (packet ∷ packets) w =
    frame packet w >>= λ a. write_frames packets a.1 >>= λ b. some (a.0 ++ b.0, b.1)

abbrev pub write_stream : List (List ℕ) → Writer → Option (List ℕ × Writer)
write_stream packets w = headers w >>= λ a. write_frames packets a.1 >>= λ b. some (a.0 ++ b.0, b.1)
