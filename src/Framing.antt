-- ===== src/Framing.antt =====
-- A reader of frames from a stream that arrives in chunks: what any reader owes whose loop takes whole
-- frames off the front of its buffer and waits for the rest of one that is not complete.
use voxhf.Prelude.{
  inr, inl, ltb, length-append, ap₂, ap, Bool-cases, ◌∙◌, ◌<◌, sym, arith, ◌≤◌, ◌++◌, length, All,
  ℕ, List, ◌∷◌, [], refl, ◌≡◌, zero, suc,
}
use mathlib.Core.List.{append_assoc, append-nil}

abbrev pub flatten : List (List ℕ) → List ℕ
flatten [] = []
flatten (chunk ∷ chunks) = chunk ++ flatten chunks

-- A list that begins like `xs ++ ys` and is at least as long as `xs` begins with `xs`.
pub split_at :
    (xs ys x y : List ℕ)
    → x ++ y ≡ xs ++ ys
    → length xs ≤ length x
    → (z : List ℕ) × (x ≡ xs ++ z) × (z ++ y ≡ ys)
split_at [] ys x y e le = (x, refl, e)
split_at (u ∷ xs) ys [] y e le = absurd (omega arith)
split_at (u ∷ xs) ys (v ∷ x) y e le =
    let (z, same, after) = split_at xs ys x y (ground arith) (omega arith) in
    let heads : v ≡ u = ground arith in (z, ap₂ (◌∷◌) heads same, after)

module _ {State Out : Type 0} where
  abbrev pub ahead : List Out → State × List Out → State × List Out
  ahead before (s, outs) = (s, before ++ outs)

  abbrev pub ahead_read : List Out → State × List Out × List ℕ → State × List Out × List ℕ
  ahead_read before (s, outs, rest) = (s, before ++ outs, rest)

  ahead-append :
      (xs ys : List Out) (t : State × List Out) → ahead xs (ahead ys t) ≡ ahead (xs ++ ys) t
  ahead-append xs ys (s, outs) = ap (λ zs. (s, zs)) (sym (append_assoc xs ys outs))

  ahead-nil :
      (t : State × List Out) (s : State) (xs : List Out) → t ≡ (s, []) → ahead xs t ≡ (s, xs)
  ahead-nil t s xs e = rw e (ap (λ zs. (s, zs)) (append-nil xs))

module _ {State Out Frame : Type 0} (handle : Frame → State → State × List Out) where
  -- The specification: the frames, one after the other.
  abbrev pub handle_all : List Frame → State → State × List Out
  handle_all [] s = (s, [])
  handle_all (f ∷ fs) s = let (s', outs) = handle f s in ahead outs (handle_all fs s')

module _ {Frame : Type 0} (bytes : Frame → List ℕ) where
  abbrev pub stream : List Frame → List ℕ
  stream [] = []
  stream (f ∷ fs) = bytes f ++ stream fs

module _ {State Out : Type 0} (drain : ℕ → State → List ℕ → State × List Out × List ℕ) where
  -- One chunk behind what is in the buffer.
  abbrev pub push : State → List ℕ → List ℕ → State × List Out × List ℕ
  push s buffer chunk = drain (length (buffer ++ chunk)) s (buffer ++ chunk)

  abbrev pub push_all : List (List ℕ) → State → List ℕ → State × List Out × List ℕ
  push_all [] s buffer = (s, [], buffer)
  push_all (chunk ∷ chunks) s buffer =
      let (s', outs, buffer') = push s buffer chunk in ahead_read outs (push_all chunks s' buffer')

-- What the loop owes: it handles a frame that is complete, and waits for one that is not.
pub record Reads {State Out Frame : Type 0} (bytes : Frame → List ℕ) (Ok : Frame → Type 0)
    (handle : Frame → State → State × List Out)
    (drain : ℕ → State → List ℕ → State × List Out × List ℕ) : Type 0 where
  pub some_byte : (f : Frame) → Ok f → 1 ≤ length (bytes f)
  pub takes :
      (fuel : ℕ) (s : State) (f : Frame) (rest : List ℕ)
      → Ok f
      → drain (suc fuel) s (bytes f ++ rest)
        ≡ ahead_read (handle f s).1 (drain fuel (handle f s).0 rest)
  pub waits :
      (fuel : ℕ) (s : State) (f : Frame) (x y rest : List ℕ)
      → Ok f
      → x ++ y ≡ bytes f ++ rest
      → length x < length (bytes f)
      → drain fuel s x ≡ (s, [], x)
  pub idle : (fuel : ℕ) (s : State) → drain fuel s [] ≡ (s, [], [])

module _ {State Out Frame : Type 0} (bytes : Frame → List ℕ) (Ok : Frame → Type 0)
    (handle : Frame → State → State × List Out)
    (drain : ℕ → State → List ℕ → State × List Out × List ℕ)
    (reads : Reads bytes Ok handle drain) where
  -- No frame of `left` is complete in `buffer`.
  abbrev Short : List Frame → List ℕ → Type 0
  Short [] buffer = Unit
  Short (f ∷ left) buffer = length buffer < length (bytes f)

  -- What reading the beginning of a stream, with `y` to come, has done.
  record Done (frames : List Frame) (s : State) (y : List ℕ) (out : State × List Out × List ℕ)
      : Type 0 where
    left : List Frame
    same : handle_all handle frames s ≡ ahead out.1 (handle_all handle left out.0)
    to_come : out.2 ++ y ≡ stream bytes left
    short : Short left out.2
    fits : All Ok left

  stopped :
      (frames : List Frame) (s : State) (x y : List ℕ)
      → All Ok frames
      → x ++ y ≡ stream bytes frames
      → Short frames x
      → Done frames s y (s, [], x)
  stopped frames s x y h e short = record {
    left = frames;
    same = refl;
    to_come = e;
    short = short;
    fits = h;
  }

  Done-ahead :
      (f : Frame) (frames : List Frame) (s : State) (y : List ℕ) (out : State × List Out × List ℕ)
      → Done frames (handle f s).0 y out
      → Done (f ∷ frames) s y (ahead_read (handle f s).1 out)
  Done-ahead f frames s y (s', outs, rest) d = record {
    left = d.left;
    same =
        ap (ahead (handle f s).1) d.same
        ∙ ahead-append (handle f s).1 outs (handle_all handle d.left s');
    to_come = d.to_come;
    short = d.short;
    fits = d.fits;
  }

  drain-Done :
      (frames : List Frame) (fuel : ℕ) (s : State) (x y : List ℕ)
      → All Ok frames
      → x ++ y ≡ stream bytes frames
      → length x ≤ fuel
      → Done frames s y (drain fuel s x)
  drain-Done [] fuel s [] y h e le = rw (reads.idle fuel s) (stopped [] s [] y tt e tt)
  drain-Done [] fuel s (a ∷ x) y h e le = absurd (ground arith)
  drain-Done (f ∷ frames) zero s x y h e le =
      let short : length x < length (bytes f) = omega (arith, reads.some_byte f h.0) in
      rw (reads.waits zero s f x y (stream bytes frames) h.0 e short)
        (stopped (f ∷ frames) s x y h e short)
  drain-Done (f ∷ frames) (suc fuel) s x y h e le =
      elim (Bool-cases (ltb (length x) (length (bytes f)))) [
        | inl less ↦
            let short : length x < length (bytes f) = ground arith in
            rw (reads.waits (suc fuel) s f x y (stream bytes frames) h.0 e short)
              (stopped (f ∷ frames) s x y h e short)
        | inr more ↦
            let (z, same, after) = split_at (bytes f) (stream bytes frames) x y e (ground arith) in
            rw (same, reads.takes fuel s f z h.0)
              (Done-ahead f frames s y (drain fuel (handle f s).0 z) (
                drain-Done frames fuel (handle f s).0 z y h.1 after (
                  omega (arith, ap length same, length-append (bytes f) z, reads.some_byte f h.0))))
      ]

  push_all-Done :
      (chunks : List (List ℕ)) (frames : List Frame) (s : State) (buffer : List ℕ)
      → All Ok frames
      → Short frames buffer
      → buffer ++ flatten chunks ≡ stream bytes frames
      → Done frames s [] (push_all drain chunks s buffer)
  push_all-Done [] frames s buffer h short e = stopped frames s buffer [] h e short
  push_all-Done (chunk ∷ chunks) frames s buffer h short e =
      let all_bytes = buffer ++ chunk in
      let d =
        drain-Done frames (length all_bytes) s all_bytes (flatten chunks) h
          (append_assoc buffer chunk (flatten chunks) ∙ e) (omega arith) in
      let out = push drain s buffer chunk in
      let r = push_all-Done chunks d.left out.0 out.2 d.fits d.short d.to_come in
      record {
        left = r.left;
        same =
            d.same
            ∙ ap (ahead out.1) r.same
            ∙ ahead-append out.1 (push_all drain chunks out.0 out.2).1
                (handle_all handle r.left (push_all drain chunks out.0 out.2).0);
        to_come = r.to_come;
        short = r.short;
        fits = r.fits;
      }

  nothing_left :
      (left : List Frame) (buffer : List ℕ)
      → Short left buffer
      → buffer ++ [] ≡ stream bytes left
      → (left ≡ []) × (buffer ≡ [])
  nothing_left [] buffer short e = (refl, sym (append-nil buffer) ∙ e)
  nothing_left (f ∷ left) buffer short e = absurd (
      omega
        (arith, ap length e, length-append buffer [], length-append (bytes f) (stream bytes left)))

  Short-nil : (frames : List Frame) → All Ok frames → Short frames []
  Short-nil [] h = tt
  Short-nil (f ∷ frames) h = reads.some_byte f h.0

  -- However the stream is cut into chunks, the reader does what handling the frames in order does, and
  -- keeps nothing back.
  pub push_all-handle_all :
      (frames : List Frame) (chunks : List (List ℕ)) (s : State)
      → All Ok frames
      → flatten chunks ≡ stream bytes frames
      → let (s', outs, rest) = push_all drain chunks s [] in
        (handle_all handle frames s ≡ (s', outs)) × (rest ≡ [])
  push_all-handle_all frames chunks s h e =
      let d = push_all-Done chunks frames s [] h (Short-nil frames h) e in
      let out = push_all drain chunks s [] in
      let (all_done, empty) = nothing_left d.left out.2 d.short d.to_come in
      let last : handle_all handle d.left out.0 ≡ (out.0, []) =
        ap (λ l. handle_all handle l out.0) all_done in
      (d.same ∙ ahead-nil _ out.0 out.1 last, empty)
