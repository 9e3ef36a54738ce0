-- ===== src/OggSpeex/Speech.antt =====
-- A stream of the writer, read in chunks.
use voxhf.OggSpeex.Read.{drain, new_reader}
use voxhf.Framing.{push_all-handle_all, push_all, flatten, handle_all, stream}
use voxhf.OggSpeex.RoundTrip.{ogg-Reads, read_page, bytes_of, Fits, Page}
use voxhf.OggSpeex.Write.{
  write_stream, page_bytes, ogg_crc, speex_comment, speex_header, write_frames, Writer, page,
  headers, frame,
}
use voxhf.Prelude.{
  leb, inr, inl, arith, ◌&&◌, true, ◌^◌, ◌+◌, subst, ◌∙◌, ◌<◌, some_inj, ltb, bind-eq-some, ◌>>=◌,
  sym, length, ap₂, ap, Bool-cases, ◌≤◌, ◌++◌, some, Option, All, ℕ, List, ◌∷◌, [], refl, ◌≡◌,
}
use mathlib.Core.List.{append_assoc, append-nil}

-- A packet that the reader passes on whole: not empty, and short enough for one page.
abbrev pub Speech : List ℕ → Type 0
Speech packet = (1 ≤ length packet) × (length packet < 65025)

abbrev payloads : List Page → List (List ℕ)
payloads [] = []
payloads (q ∷ qs) = q.payload ∷ payloads qs

-- Bytes that are pages with these payloads.
record Written (packets : List (List ℕ)) (bs : List ℕ) : Type 0 where
  pages : List Page
  same_bytes : bs ≡ stream bytes_of pages
  same_payloads : payloads pages ≡ packets

page-Written :
    (payload : List ℕ) (flags granule : ℕ) (w : Writer) {out : List ℕ × Writer}
    → page payload flags granule w ≡ some out
    → Written (payload ∷ []) out.0
unfolding page
page-Written payload flags granule w e =
    elim (Bool-cases (ltb granule (2 ^ 63) && ltb w.seq (2 ^ 32))) [
      | inl fits ↦
          let q : Page = record {
            crc = ogg_crc (page_bytes 0 payload flags granule w.serial w.seq);
            payload = payload;
            flags = flags;
            granule = granule;
            serial = w.serial;
            seq = w.seq;
          } in
          let same = some_inj (rw fits at e) in
          record {
            pages = q ∷ [];
            same_bytes = sym (ap (λ x. x.0) same) ∙ sym (append-nil (bytes_of q));
            same_payloads = refl;
          }
      | inr not_fits ↦ absurd (ground arith)
    ]

stream-append :
    (xs ys : List Page) → stream bytes_of (xs ++ ys) ≡ stream bytes_of xs ++ stream bytes_of ys
stream-append [] ys = refl
stream-append (q ∷ xs) ys =
    ap (λ l. bytes_of q ++ l) (stream-append xs ys)
    ∙ sym (append_assoc (bytes_of q) (stream bytes_of xs) (stream bytes_of ys))

payloads-append : (xs ys : List Page) → payloads (xs ++ ys) ≡ payloads xs ++ payloads ys
payloads-append [] ys = refl
payloads-append (q ∷ xs) ys = ap (◌∷◌ q.payload) (payloads-append xs ys)

Written-append :
    {ps rs : List (List ℕ)} {xs ys : List ℕ}
    → Written ps xs
    → Written rs ys
    → Written (ps ++ rs) (xs ++ ys)
Written-append a b = record {
  pages = a.pages ++ b.pages;
  same_bytes = ap₂ (λ x y. x ++ y) a.same_bytes b.same_bytes ∙ sym (stream-append a.pages b.pages);
  same_payloads =
      payloads-append a.pages b.pages ∙ ap₂ (λ x y. x ++ y) a.same_payloads b.same_payloads;
}

-- What two writes in a row have written.
both-Written :
    (ps rs : List (List ℕ)) (first : Option (List ℕ × Writer))
    (second : Writer → Option (List ℕ × Writer)) {out : List ℕ × Writer}
    → ((a : List ℕ × Writer) → first ≡ some a → Written ps a.0)
    → ((w : Writer) (b : List ℕ × Writer) → second w ≡ some b → Written rs b.0)
    → (first >>= λ a. second a.1 >>= λ b. some (a.0 ++ b.0, b.1)) ≡ some out
    → Written (ps ++ rs) out.0
both-Written ps rs first second f g e =
    let (a, ea, rest) = bind-eq-some first _ e in
    let (b, eb, last) = bind-eq-some (second a.1) _ rest in
    subst (λ x. Written (ps ++ rs) x) (ap (λ x. x.0) (some_inj last))
      (Written-append (f a ea) (g a.1 b eb))

write_frames-Written :
    (packets : List (List ℕ)) (w : Writer) {out : List ℕ × Writer}
    → write_frames packets w ≡ some out
    → Written packets out.0
unfolding frame
write_frames-Written [] w e = record {
  pages = [];
  same_bytes = sym (ap (λ x. x.0) (some_inj e));
  same_payloads = refl;
}
write_frames-Written (packet ∷ packets) w e =
    both-Written (packet ∷ []) packets _ (write_frames packets)
      (λ a ea. page-Written packet 0x00 _ _ ea) (λ w' b eb. write_frames-Written packets w' eb) e

headers-Written :
    (w : Writer) {out : List ℕ × Writer}
    → headers w ≡ some out
    → Written (speex_header w ∷ speex_comment ∷ []) out.0
unfolding headers
headers-Written w e =
    elim (Bool-cases (ltb w.sample_rate (2 ^ 32) && ltb w.frames_per_packet (2 ^ 32))) [
      | inl fits ↦
          both-Written (speex_header w ∷ []) (speex_comment ∷ []) _ (page speex_comment 0x00 0)
            (λ a ea. page-Written (speex_header w) 0x02 0 w ea)
            (λ w' b eb. page-Written speex_comment 0x00 0 w' eb) (rw fits at e)
      | inr not_fits ↦ absurd (ground arith)
    ]

-- After the two headers every page passes its payload on.
frames_pass :
    (pages : List Page) (count : ℕ)
    → 2 ≤ count
    → All Speech (payloads pages)
    → (handle_all read_page pages (record { pending = []; count = count })).1 ≡ payloads pages
frames_pass [] count two h = refl
frames_pass (q ∷ pages) count two h =
    let later : ltb 2 (count + 1) ≡ true = ground arith in
    let some_bytes : leb 1 (length q.payload) ≡ true = ground (arith, h.0.0) in
    rw (later, some_bytes) (ap (◌∷◌ q.payload) (frames_pass pages (count + 1) (omega arith) h.1))

pages-Fits : (pages : List Page) → All Speech (payloads pages) → All Fits pages
pages-Fits [] h = tt
pages-Fits (q ∷ pages) h = (h.0.1, pages-Fits pages h.1)

-- The two headers are not passed on.
spoken :
    (pages : List Page) (first second : List ℕ) (packets : List (List ℕ))
    → payloads pages ≡ first ∷ second ∷ packets
    → length first < 65025
    → length second < 65025
    → All Speech packets
    → All Fits pages × ((handle_all read_page pages new_reader).1 ≡ packets)
spoken [] first second packets e a b h = cc
spoken (q ∷ []) first second packets e a b h = cc
spoken (q ∷ q' ∷ pages) first second packets e a b h =
    let rest : payloads pages ≡ packets = ground arith in
    let one : q.payload ≡ first = ground arith in
    let two : q'.payload ≡ second = ground arith in
    let speech : All Speech (payloads pages) = rw rest h in
    (
      (omega (arith, ap length one), (omega (arith, ap length two), pages-Fits pages speech)),
      frames_pass pages 2 (omega arith) speech ∙ rest,
    )

header_size : (w : Writer) → length (speex_header w) < 65025
unfolding speex_header
header_size w = omega arith

-- Speex packets that the writer turns into an Ogg stream come out of the reader as they went in, once
-- each and in order and without the two headers, however the stream is cut into chunks, and the reader
-- keeps nothing back. A packet takes from 1 to 65024 bytes.
pub push_all-write_stream :
    (packets chunks : List (List ℕ)) (w : Writer) {out : List ℕ × Writer}
    → All Speech packets
    → write_stream packets w ≡ some out
    → flatten chunks ≡ out.0
    → let (r, heard, rest) = push_all drain chunks new_reader [] in (heard ≡ packets) × (rest ≡ [])
push_all-write_stream packets chunks w h e cut =
    let written =
      both-Written (speex_header w ∷ speex_comment ∷ []) packets (headers w) (write_frames packets)
        (λ a ea. headers-Written w ea) (λ w' b eb. write_frames-Written packets w' eb) e in
    let (fits, heard) =
      spoken written.pages (speex_header w) speex_comment packets written.same_payloads
        (header_size w) (omega arith) h in
    let (same, rest) =
      push_all-handle_all bytes_of Fits read_page drain ogg-Reads written.pages chunks new_reader
        fits (cut ∙ written.same_bytes) in
    (ap (λ x. x.1) (sym same) ∙ heard, rest)
