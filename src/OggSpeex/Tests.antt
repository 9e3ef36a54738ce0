-- ===== src/OggSpeex/Tests.antt =====
-- Runs of the writer and the reader, and their theorem at a concrete stream.
use voxhf.OggSpeex.Speech.{push_all-write_stream}
use voxhf.OggSpeex.Read.{front, from_magic, feed, new_reader, drain}
use voxhf.OggSpeex.Write.{
  crc_loop, crc_shift, crc_table, frame, headers, speex_header, page, page_bytes, full_segments,
  new_writer, frame_size, write_stream, segments, ogg_crc, Writer,
}
use voxhf.Framing.{push_all, flatten}
use mathlib.Core.List.{append-nil}
use voxhf.Prelude.{
  ◌∙◌, ap, arith, drop, ◌++◌, take, none, ℕ, take-append-drop, text_eq, Option, List, ◌∷◌, [], refl,
  ◌≡◌, some,
}

program : Unit {0}
unfolding text_eq frame_size full_segments segments page_bytes page speex_header headers frame feed
    from_magic front drain
program = tt

abbrev packets : List (List ℕ)
packets = (1 ∷ 2 ∷ 3 ∷ []) ∷ (4 ∷ []) ∷ []

abbrev writer : Writer
writer = new_writer 16000 2 7

abbrev text_of : Option (List ℕ × Writer) → List ℕ × Writer
text_of none = ([], writer)
text_of (some out) = out

abbrev written : List ℕ × Writer
written = text_of (write_stream packets writer)

write_runs : write_stream packets writer ≡ some written
unfolding program
write_runs = refl

-- The checksums of single bytes, and the lacing values of 510.
crc_runs : (ogg_crc (1 ∷ []) ≡ 0x04c11db7) × (ogg_crc (255 ∷ []) ≡ 0xb1f740b4)
unfolding crc_table crc_shift crc_loop ogg_crc
crc_runs = (refl, refl)

lacing_runs : segments 510 ≡ 255 ∷ 255 ∷ 0 ∷ []
unfolding program
lacing_runs = refl

abbrev chunks : List (List ℕ)
chunks = take 100 written.0 ∷ [] ∷ drop 100 written.0 ∷ []

cut_at : (n : ℕ) (bs : List ℕ) → flatten (take n bs ∷ [] ∷ drop n bs ∷ []) ≡ bs
cut_at n bs = ap (λ l. take n bs ++ l) (append-nil (drop n bs)) ∙ take-append-drop n bs

push_all-write_stream_example :
    let (r, heard, rest) = push_all drain chunks new_reader [] in (heard ≡ packets) × (rest ≡ [])
push_all-write_stream_example =
    push_all-write_stream packets chunks writer
      ((omega arith, omega arith), ((omega arith, omega arith), tt)) write_runs
      (cut_at 100 written.0)
