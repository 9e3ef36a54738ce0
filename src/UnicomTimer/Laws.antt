-- ===== src/UnicomTimer/Laws.antt =====
-- The invariant of the timer, and what becomes of a callback that has been overtaken.
use voxhf.Json.{fin, Number}
use voxhf.UnicomTimer.{
  inactive, is_active, active, Timer, start, normalize_duration, expire, cancel,
}
use native.Mathlib.Nat.{pow-suc, le-div_iff_mul-le}
use voxhf.Prelude.{
  zero, ◌/◌, suc, leb→le, inr, false, ◌<◌, inl, ◌^◌, ◌+◌, ◌||◌, ◌*◌, ◌==◌, some, leb, not, ◌≤◌,
  none, arith, Bool-cases, ℕ, ◌≡◌, refl,
}

-- A handle is kept exactly while the countdown runs, and the deadline is the start and the duration.
pub data IsValid (duration : ℕ) (t : Timer) : Type 0 where
  idle : t.timer_id ≡ none → t.state ≡ inactive → IsValid duration t
  counting :
      (handle started : ℕ)
      → t.timer_id ≡ some handle
      → t.state ≡ active started (started + duration)
      → 0 < t.generation
      → IsValid duration t

pub start-IsValid :
    (duration now handle : ℕ) (t : Timer) → IsValid duration (start duration now handle t).0
unfolding start
start-IsValid duration now handle t = counting handle now refl refl (omega arith)

pub cancel-IsValid : (duration : ℕ) (t : Timer) → IsValid duration (cancel t).0
unfolding cancel
cancel-IsValid duration t = idle refl refl

pub expire-IsValid :
    (duration expected : ℕ) (t : Timer)
    → IsValid duration t
    → IsValid duration (expire expected t).0
unfolding expire
expire-IsValid duration expected t v =
    elim (Bool-cases (not (expected == t.generation) || not (is_active t.state))) [
      | inl stale ↦ rw stale v
      | inr fires ↦ rw fires (idle refl refl)
    ]

pow_pos : (k : ℕ) → 0 < 2 ^ k
pow_pos zero = omega arith
pow_pos (suc k) = rw pow-suc (omega (arith, pow_pos k))

le_div_mul : (n d : ℕ) → 0 < d → 1000 * d ≤ n → 1000 ≤ (2 * n + d) / (2 * d)
le_div_mul n d pos h = (le-div_iff_mul-le (omega arith)).1 (omega arith)

-- A normalized duration is at least one second.
normalize_duration-ge : (x : Number) → 1000 ≤ normalize_duration x
unfolding normalize_duration
normalize_duration-ge (fin false n k) = elim (Bool-cases (leb (1000 * 2 ^ k) n)) [
  | inl long ↦ rw long (le_div_mul n (2 ^ k) (pow_pos k) (leb→le _ _ long))
  | inr short ↦ rw short (omega arith)
]
normalize_duration-ge _ = omega arith
