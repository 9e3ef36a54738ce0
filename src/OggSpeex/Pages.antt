-- ===== src/OggSpeex/Pages.antt =====
-- The lacing values of a page, and what the reader makes of a page.
use voxhf.Framing.{flatten}
use voxhf.OggSpeex.Write.{segments, full_segments}
use voxhf.OggSpeex.Read.{passed_on, sum, Reader, feed}
use voxhf.Prelude.{
  lt→ltb, true, take-append-drop, ltb, length-drop, ◌<◌, drop, ◌-◌, leb→le, inr, inl, sym, leb, ◌∙◌,
  ◌%◌, length-append, Bool-cases, ◌/◌, ◌+◌, ◌++◌, arith, ap, ◌≤◌, take, length, ℕ, List, ◌∷◌, [],
  zero, suc, refl, ◌≡◌,
}
use mathlib.Core.List.{append_assoc, append-nil}

full_segments-length : (fuel n : ℕ) → n ≤ fuel → length (full_segments fuel n) ≡ n / 255
unfolding full_segments
full_segments-length zero n le = omega arith
full_segments-length (suc fuel) n le = elim (Bool-cases (leb 255 n)) [
  | inl full ↦
      rw full (omega (arith, leb→le 255 n full, full_segments-length fuel (n - 255) (omega arith)))
  | inr short ↦ rw short (ground arith)
]

sum-append : (xs ys : List ℕ) → sum (xs ++ ys) ≡ sum xs + sum ys
sum-append [] ys = omega arith
sum-append (x ∷ xs) ys = omega (arith, sum-append xs ys)

sum-full_segments : (fuel n : ℕ) → n ≤ fuel → sum (full_segments fuel n) + n % 255 ≡ n
unfolding full_segments
sum-full_segments zero n le = omega arith
sum-full_segments (suc fuel) n le = elim (Bool-cases (leb 255 n)) [
  | inl full ↦
      rw full (omega (arith, leb→le 255 n full, sum-full_segments fuel (n - 255) (omega arith)))
  | inr short ↦ rw short (ground arith)
]

-- The lacing values add up to the size, and there is one more than full segments.
pub sum-segments : (n : ℕ) → sum (segments n) ≡ n
unfolding segments
sum-segments n =
    omega
      (arith, sum-append (full_segments n n) (n % 255 ∷ []), sum-full_segments n n (omega arith))

pub length-segments : (n : ℕ) → length (segments n) ≡ n / 255 + 1
unfolding segments
length-segments n = omega (
  arith,
  length-append (full_segments n n) (n % 255 ∷ []),
  full_segments-length n n (omega arith),
)

flatten-snoc :
    (pieces : List (List ℕ)) (x : List ℕ) → flatten (pieces ++ (x ∷ [])) ≡ flatten pieces ++ x
flatten-snoc [] x = append-nil x
flatten-snoc (p ∷ pieces) x =
    ap (λ l. p ++ l) (flatten-snoc pieces x) ∙ sym (append_assoc p (flatten pieces) x)

take_all : (xs : List ℕ) → take (length xs) xs ≡ xs
take_all [] = refl
take_all (x ∷ xs) = ap (◌∷◌ x) (take_all xs)

-- A whole packet, behind the pieces that are pending.
abbrev pub packet_done : List ℕ → Reader → Reader × List (List ℕ)
packet_done payload r = (
  record { pending = []; count = r.count + 1 },
  passed_on (r.count + 1) (flatten r.pending ++ payload),
)

feed_last :
    (payload : List ℕ) (r : Reader)
    → length payload < 255
    → feed (length payload % 255 ∷ []) payload r ≡ packet_done payload r
unfolding feed
feed_last payload r less =
    let same : length payload % 255 ≡ length payload = omega arith in
    let small : ltb (length payload) 255 ≡ true = lt→ltb (length payload) 255 less in
    rw (same, small, take_all payload, flatten-snoc r.pending payload, append-nil)

-- The pieces of a full segment and of what follows it make up the packet.
packet_done-split :
    (payload : List ℕ) (r : Reader)
    → packet_done (drop 255 payload) (record r { pending = r.pending ++ (take 255 payload ∷ []) })
      ≡ packet_done payload r
packet_done-split payload r = rw (
  flatten-snoc r.pending (take 255 payload),
  append_assoc (flatten r.pending) (take 255 payload) (drop 255 payload),
  take-append-drop 255 payload,
)

pub feed_laced :
    (fuel : ℕ) (payload : List ℕ) (r : Reader)
    → length payload ≤ fuel
    → feed (full_segments fuel (length payload) ++ (length payload % 255 ∷ [])) payload r
      ≡ packet_done payload r
unfolding feed full_segments
feed_laced zero payload r le = feed_last payload r (omega arith)
feed_laced (suc fuel) payload r le = elim (Bool-cases (leb 255 (length payload))) [
  | inl full ↦
      let size : length payload - 255 ≡ length (drop 255 payload) = sym (length-drop 255 payload) in
      let rest : length payload % 255 ≡ length (drop 255 payload) % 255 =
        omega (arith, leb→le 255 _ full, size) in
      let r' = record r { pending = r.pending ++ (take 255 payload ∷ []) } in
      rw (full, size, rest)
        (feed_laced fuel (drop 255 payload) r' (omega (arith, size)) ∙ packet_done-split payload r)
  | inr short ↦ rw short (feed_last payload r (ground arith))
]
