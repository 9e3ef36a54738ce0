-- ===== src/PilotCore/Stream.antt =====
-- A stream of frames that arrives in chunks.
use voxhf.PilotCore.RoundTrip.{decode-encode, Plain}
use voxhf.PilotCore.Decode.{decode, Platform}
use voxhf.Json.{Value}
use voxhf.PilotCore.Encode.{encode, little_endian4}
use voxhf.PilotCore.Frames.{
  messages, push_all, push, wait, frame, cons_body, read_little_endian4, max_frame_bytes, drain,
  next,
}
use mathlib.Core.List.{append_assoc, append-nil}
use voxhf.Prelude.{
  false, true, Text, inr, inl, ltb, ap, Bool-cases, ◌∙◌, sym, zero, ◌+◌, ap₂, All, drop-append,
  take-append, length-append, ◌/◌, arith, ◌<◌, ◌%◌, suc, ◌≤◌, ◌++◌, length, ℕ, List, ◌∷◌, [], some,
  refl, ◌≡◌,
}

abbrev pub framed_bytes : List ℕ → List ℕ
framed_bytes body = little_endian4 (length body) ++ body

abbrev pub stream : List (List ℕ) → List ℕ
stream [] = []
stream (body ∷ bodies) = framed_bytes body ++ stream bodies

-- A body that the reader takes.
abbrev pub Framable : List ℕ → Type 0
Framable body = (1 ≤ length body) × (length body ≤ max_frame_bytes)

abbrev pub flatten : List (List ℕ) → List ℕ
flatten [] = []
flatten (chunk ∷ chunks) = chunk ++ flatten chunks

length_read :
    (body : List ℕ) (n : ℕ)
    → n ≡ length body
    → Framable body
    → read_little_endian4 (n % 256) ((n / 256) % 256) ((n / 65536) % 256) (n / 16777216) ≡ n
length_read body n e h = omega (arith, h.1)

next-frame : (n : ℕ) (bs : List ℕ) → 1 ≤ n → n ≤ max_frame_bytes → n ≤ length bs → next n bs ≡ frame
unfolding next
next-frame n bs low high enough = ground arith

next-wait : (n : ℕ) (bs : List ℕ) → 1 ≤ n → n ≤ max_frame_bytes → length bs < n → next n bs ≡ wait
unfolding next
next-wait n bs low high short = ground arith

drain-frame :
    (fuel : ℕ) (body rest : List ℕ)
    → Framable body
    → drain (suc fuel) (framed_bytes body ++ rest) ≡ cons_body body (drain fuel rest)
unfolding drain
drain-frame fuel body rest h =
    let n = length body in
    let enough : n ≤ length (body ++ rest) = omega (arith, length-append body rest) in
    rw (
      length_read body n refl h,
      next-frame n (body ++ rest) h.0 h.1 enough,
      take-append body rest,
      drop-append body rest,
    )

-- The first frame is not complete in `x`.
drain-incomplete :
    (fuel : ℕ) (x y body rest : List ℕ)
    → Framable body
    → x ++ y ≡ framed_bytes body ++ rest
    → length x < 4 + length body
    → drain fuel x ≡ ([], x)
unfolding drain
drain-incomplete zero x y body rest h e short = refl
drain-incomplete (suc fuel) [] y body rest h e short = refl
drain-incomplete (suc fuel) (a ∷ []) y body rest h e short = refl
drain-incomplete (suc fuel) (a ∷ b ∷ []) y body rest h e short = refl
drain-incomplete (suc fuel) (a ∷ b ∷ c ∷ []) y body rest h e short = refl
drain-incomplete (suc fuel) (a ∷ b ∷ c ∷ d ∷ bs) y body rest h e short =
    let same : read_little_endian4 a b c d ≡ length body =
      ground (arith, length_read body (length body) refl h) in
    rw (same, next-wait (length body) bs h.0 h.1 (omega arith))

-- A list that begins like `xs ++ ys` and is at least as long as `xs` begins with `xs`.
split_at :
    (xs ys x y : List ℕ)
    → x ++ y ≡ xs ++ ys
    → length xs ≤ length x
    → (z : List ℕ) × (x ≡ xs ++ z) × (z ++ y ≡ ys)
split_at [] ys x y e le = (x, refl, e)
split_at (u ∷ xs) ys [] y e le = absurd (omega arith)
split_at (u ∷ xs) ys (v ∷ x) y e le =
    let (z, same, after) = split_at xs ys x y (ground arith) (omega arith) in
    let heads : v ≡ u = ground arith in (z, ap₂ (◌∷◌) heads same, after)

-- No frame of `left` is complete in `pending`.
abbrev Short : List (List ℕ) → List ℕ → Type 0
Short [] pending = Unit
Short (body ∷ left) pending = length pending < 4 + length body

-- What draining the beginning `x` of a stream, with `y` to come, has done.
record Drained (bodies : List (List ℕ)) (y : List ℕ) (out : List (List ℕ) × List ℕ) : Type 0 where
  left : List (List ℕ)
  split : bodies ≡ out.0 ++ left
  to_come : out.1 ++ y ≡ stream left
  short : Short left out.1
  fits : All Framable left

cons-Drained :
    (body : List ℕ) (bodies : List (List ℕ)) (y : List ℕ) (out : List (List ℕ) × List ℕ)
    → Drained bodies y out
    → Drained (body ∷ bodies) y (cons_body body out)
cons-Drained body bodies y (done, pending) d = record {
  left = d.left;
  split = ap (◌∷◌ body) d.split;
  to_come = d.to_come;
  short = d.short;
  fits = d.fits;
}

drain-nil : (fuel : ℕ) → drain fuel [] ≡ ([], [])
unfolding drain
drain-nil zero = refl
drain-nil (suc fuel) = refl

drain-Drained :
    (bodies : List (List ℕ)) (fuel : ℕ) (x y : List ℕ)
    → All Framable bodies
    → x ++ y ≡ stream bodies
    → length x ≤ fuel
    → Drained bodies y (drain fuel x)
drain-Drained [] fuel [] y h e le =
    rw (drain-nil fuel) (record { left = []; split = refl; to_come = e; short = tt; fits = tt })
drain-Drained [] fuel (a ∷ x) y h e le = absurd (ground arith)
drain-Drained (body ∷ bodies) zero x y h e le =
    rw (drain-incomplete zero x y body (stream bodies) h.0 e (omega (arith, h.0.0)))
      (record { left = body ∷ bodies; split = refl; to_come = e; short = omega arith; fits = h })
drain-Drained (body ∷ bodies) (suc fuel) x y h e le =
    elim (Bool-cases (ltb (length x) (4 + length body))) [
      | inl less ↦
          let short : length x < 4 + length body = ground arith in
          rw (drain-incomplete (suc fuel) x y body (stream bodies) h.0 e short)
            (record { left = body ∷ bodies; split = refl; to_come = e; short = short; fits = h })
      | inr more ↦
          let (z, same, after) =
            split_at (framed_bytes body) (stream bodies) x y e (ground arith) in
          let sizes = length-append (framed_bytes body) z in
          rw (same, drain-frame fuel body z h.0)
            (cons-Drained body bodies y (drain fuel z)
              (drain-Drained bodies fuel z y h.1 after (omega (arith, ap length same))))
    ]

push-Drained :
    (bodies : List (List ℕ)) (pending chunk y : List ℕ)
    → All Framable bodies
    → Short bodies pending
    → pending ++ (chunk ++ y) ≡ stream bodies
    → Drained bodies y (push pending chunk)
unfolding push
push-Drained bodies pending [] y h short e = record {
  left = bodies;
  split = refl;
  to_come = e;
  short = short;
  fits = h;
}
push-Drained bodies pending (c ∷ chunk) y h short e =
    drain-Drained bodies (length (pending ++ (c ∷ chunk))) (pending ++ (c ∷ chunk)) y h
      (append_assoc pending (c ∷ chunk) y ∙ e) (omega arith)

push_all-Drained :
    (chunks : List (List ℕ)) (bodies : List (List ℕ)) (pending : List ℕ)
    → All Framable bodies
    → Short bodies pending
    → pending ++ flatten chunks ≡ stream bodies
    → Drained bodies [] (push_all chunks pending)
unfolding push_all
push_all-Drained [] bodies pending h short e = record {
  left = bodies;
  split = refl;
  to_come = e;
  short = short;
  fits = h;
}
push_all-Drained (chunk ∷ chunks) bodies pending h short e =
    let d = push-Drained bodies pending chunk (flatten chunks) h short e in
    let r = push_all-Drained chunks d.left (push pending chunk).1 d.fits d.short d.to_come in
    record {
      left = r.left;
      split =
          d.split
          ∙ ap (λ l. (push pending chunk).0 ++ l) r.split
          ∙ sym (
              append_assoc (push pending chunk).0 (push_all chunks (push pending chunk).1).0
                r.left);
      to_come = r.to_come;
      short = r.short;
      fits = r.fits;
    }

nothing_left :
    (left : List (List ℕ)) (pending : List ℕ)
    → Short left pending
    → pending ++ [] ≡ stream left
    → (left ≡ []) × (pending ≡ [])
nothing_left [] pending short e = (refl, sym (append-nil pending) ∙ e)
nothing_left (body ∷ left) pending short e =
    absurd (omega (arith, ap length e, length-append pending [], length-append body (stream left)))

Short-nil : (bodies : List (List ℕ)) → Short bodies []
Short-nil [] = tt
Short-nil (body ∷ bodies) = omega arith

-- However a stream of frames of a permitted size, from 1 byte to 1 MiB, is cut into chunks, the
-- reader passes on the body of each frame, once and in order, and keeps nothing back.
pub push_all-stream :
    (bodies chunks : List (List ℕ))
    → All Framable bodies
    → flatten chunks ≡ stream bodies
    → push_all chunks [] ≡ (bodies, [])
push_all-stream bodies chunks h e =
    let d = push_all-Drained chunks bodies [] h (Short-nil bodies) e in
    let (all_done, empty) = nothing_left d.left (push_all chunks []).1 d.short d.to_come in
    let delivered : (push_all chunks []).0 ≡ bodies =
      sym (d.split ∙ ap (λ l. (push_all chunks []).0 ++ l) all_done ∙ append-nil _) in
    ap₂ (λ a b. (a, b)) delivered empty

-- Each body is what the encoder wrote for the value at its place.
abbrev pub Written : (Text → List ℕ) → List Value → List (List ℕ) → Type 0
Written to_utf8 [] [] = Unit
Written to_utf8 (v ∷ vs) (body ∷ bodies) =
    (encode to_utf8 v ≡ some body) × Written to_utf8 vs bodies
Written to_utf8 [] (body ∷ bodies) = true ≡ false
Written to_utf8 (v ∷ vs) [] = true ≡ false

module _ (to_utf8 : Text → List ℕ) (p : Platform) where
  messages_of :
      (vs : List Value) (bodies : List (List ℕ))
      → All (Plain to_utf8 p) vs
      → Written to_utf8 vs bodies
      → messages (decode p) bodies ≡ vs
  messages_of [] [] h w = refl
  messages_of (v ∷ vs) (body ∷ bodies) h w =
      rw (decode-encode to_utf8 p v h.0 w.0, messages_of vs bodies h.1 w.1)
  messages_of [] (body ∷ bodies) h w = absurd (ground arith)
  messages_of (v ∷ vs) [] h w = absurd (ground arith)

  -- Messages that the encoder has written, sent as frames of a permitted size and cut into chunks in
  -- any way, come out of the reader as they went in, once each and in order.
  pub messages-push_all :
      (vs : List Value) (bodies chunks : List (List ℕ))
      → All (Plain to_utf8 p) vs
      → Written to_utf8 vs bodies
      → All Framable bodies
      → flatten chunks ≡ stream bodies
      → messages (decode p) (push_all chunks []).0 ≡ vs
  messages-push_all vs bodies chunks h w fits e =
      rw (push_all-stream bodies chunks fits e) (messages_of vs bodies h w)
