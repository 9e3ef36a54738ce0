-- ===== src/UnicomTimer.antt =====
-- proxy/unicom-timer.js: the three-minute UNICOM reminder of the local agent. An instant is a number
-- of milliseconds, where the source keeps its ISO text. The clock's value and the handle that
-- setTimer returns are arguments; handles are truthy, as setTimeout's are. What an operation asks
-- of its surroundings is the list of its effects, in order.
pub mod Laws
pub mod Trace
mod Tests
use voxhf.Json.{fin, Number}
use voxhf.Prelude.{
  ◌/◌, ◌∷◌, ◌^◌, ◌==◌, ◌++◌, true, some, not, leb, ◌||◌, ◌+◌, if◌then◌else◌, false, [], ◌*◌, none,
  Option, List, Bool, ℕ,
}

abbrev pub default_duration_ms : ℕ
default_duration_ms = 3 * 60 * 1000

-- normalizeDuration(value), on the number that Number(value) gives. Math.round(x) is the floor of
-- x + 1/2.
unfoldable pub normalize_duration : Number → ℕ
normalize_duration (fin false n k) =
    if leb (1000 * 2 ^ k) n then (2 * n + 2 ^ k) / (2 * 2 ^ k) else default_duration_ms
normalize_duration _ = default_duration_ms

pub data State : Type 0 where
  inactive : State
  active : ℕ → ℕ → State

pub record Timer : Type 0 where
  pub timer_id : Option ℕ
  pub generation : ℕ
  pub state : State

pub data Effect : Type 0 where
  clear_timer : ℕ → Effect
  -- setTimer(() => expire(generation), durationMs)
  set_timer : ℕ → ℕ → Effect
  on_state : State → Effect
  on_expired : ℕ → Effect

abbrev pub initial : Timer
initial = record { timer_id = none; generation = 0; state = inactive }

-- `state.active`
abbrev pub is_active : State → Bool
is_active inactive = false
is_active (active started expires) = true

abbrev pub expires_at : State → ℕ
expires_at inactive = 0
expires_at (active started expires) = expires

-- `if (timerId) clearTimer(timerId)`
abbrev pub clear : Option ℕ → List Effect
clear none = []
clear (some id) = clear_timer id ∷ []

abbrev pub is_set : Option ℕ → Bool
is_set none = false
is_set (some id) = true

unfoldable pub start : ℕ → ℕ → ℕ → Timer → Timer × List Effect
start duration now handle t =
    let next = t.generation + 1 in
    let running = active now (now + duration) in
    (
      record { timer_id = some handle; generation = next; state = running },
      clear t.timer_id ++ (set_timer next duration ∷ on_state running ∷ []),
    )

unfoldable pub cancel : Timer → Timer × List Effect
cancel t =
    let changed = is_active t.state || is_set t.timer_id in
    (
      record { timer_id = none; generation = t.generation + 1; state = inactive },
      clear t.timer_id ++ (if changed then on_state inactive ∷ [] else []),
    )

-- expire(expectedGeneration); the handler that it awaits can change nothing here, and its errors
-- are logged.
unfoldable pub expire : ℕ → Timer → Timer × List Effect × Bool
expire expected t =
    if not (expected == t.generation) || not (is_active t.state) then (t, [], false) else (
      record t { timer_id = none; state = inactive },
      on_state inactive ∷ on_expired (expires_at t.state) ∷ [],
      true,
    )
