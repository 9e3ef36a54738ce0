-- ===== src/UnicomTimer/Tests.antt =====
-- Runs of the timer, and its theorems at concrete inputs.
use voxhf.Json.{fin}
use voxhf.UnicomTimer.Trace.{
  expiries-run-le, cancelled, starts, fired, pending, expire-run_stale, started, step, Event, run,
  expiries,
}
use voxhf.UnicomTimer.{
  on_expired, clear_timer, inactive, set_timer, on_state, cancel, active, initial, start,
  normalize_duration, expire, Timer,
}
use voxhf.Prelude.{◌∷◌, ◌+◌, false, some, [], ◌≤◌, List, ◌≡◌, refl}

abbrev busy : List Event
busy = started 100 7 ∷ started 200 8 ∷ fired 1 ∷ fired 2 ∷ fired 2 ∷ cancelled ∷ []

program : Unit {0}
unfolding run step start cancel expire normalize_duration
program = tt

restart_runs :
    (run 1000 busy initial).1
    ≡ set_timer 1 1000
      ∷ on_state (active 100 1100)
      ∷ clear_timer 7
      ∷ set_timer 2 1000
      ∷ on_state (active 200 1200)
      ∷ on_state inactive
      ∷ on_expired 1200
      ∷ []
unfolding program
restart_runs = refl

-- 1500.5 ms
rounding_runs : normalize_duration (fin false 3001 1) ≡ 1501
unfolding program
rounding_runs = refl

abbrev running : Timer
running = record { timer_id = some 8; generation = 2; state = active 200 1200 }

expire-run_stale_example :
    let t =
      (run 1000 busy (step 1000 (started 60 6) (run 1000 (started 50 5 ∷ []) initial).0).0).0 in
    expire 1 t ≡ (t, [], false)
unfolding program
expire-run_stale_example =
    expire-run_stale 1000 (started 50 5 ∷ []) (started 60 6) busy initial 1 refl tt

expiries-run-le_example :
    expiries (run 1000 busy initial).1 + pending (run 1000 busy initial).0
    ≤ starts busy + pending initial
expiries-run-le_example = expiries-run-le 1000 busy initial
