-- ===== src/Watchdog/Trace.antt =====
-- Every state that the relay's watchdog can reach.
use voxhf.Watchdog.Preserved.{
  fire_finish-IsValid, fire_begin-IsValid, agent_offline-IsValid, disarm-IsValid, commit-IsValid,
  stage-IsValid,
}
use voxhf.Watchdog.Valid.{clear_active_timer-IsValid, IsValid}
use voxhf.Watchdog.{
  fire_finish, fire_begin, agent_offline, disarm, initial, commit, stage, dispose, Receipt,
  of_device, agent_online, Watchdog, Payload, Options,
}
use voxhf.Dict.{count_values}
use voxhf.Prelude.{arith, Bool, ◌≤◌, List, Text, ◌∷◌, [], ℕ}

-- One synchronous piece of work. `finished` is the part of `fire` after its `await`, which other
-- work may precede, with any receipt and any number of deliveries.
pub data Event : Type 0 where
  staged : ℕ → Text → Payload → Event
  committed : ℕ → Text → Text → Text → Event
  disarming : ℕ → Text → Text → Event
  online : Text → Event
  offline : ℕ → ℕ → Text → Event
  firing : ℕ → Text → Text → ℕ → Event
  finished : ℕ → Text → Receipt → ℕ → Bool → Event
  disposed : Event

no_batches :
    (device : Text) (o : Options) → count_values (of_device device) [] ≤ o.max_batches_per_device
unfolding count_values
no_batches device o = omega arith

module _ (o : Options) where
  unfoldable pub step : Event → Watchdog → Watchdog
  step (staged now device p) w = (stage o now device p w).0
  step (committed now device session batch_id) w = (commit o now device session batch_id w).0
  step (disarming now device session) w = (disarm o now device session w).0
  step (online device) w = (agent_online o device w).0
  step (offline now handle device) w = (agent_offline o now handle device w).0
  step (firing now device session expected) w = (fire_begin o now device session expected w).0
  step (finished now device r sent reported) w = fire_finish o now device r sent reported w
  step disposed w = (dispose w).0

  unfoldable pub run : List Event → Watchdog → Watchdog
  run [] w = w
  run (e ∷ es) w = run es (step e w)

  step-IsValid : (e : Event) (w : Watchdog) → IsValid o w → IsValid o (step e w)
  unfolding step agent_online dispose
  step-IsValid (staged now device p) w v = stage-IsValid o now device p w v
  step-IsValid (committed now device session batch_id) w v =
      commit-IsValid o now device session batch_id w v
  step-IsValid (disarming now device session) w v = disarm-IsValid o now device session w v
  step-IsValid (online device) w v = clear_active_timer-IsValid o device w v
  step-IsValid (offline now handle device) w v = agent_offline-IsValid o now handle device w v
  step-IsValid (firing now device session expected) w v =
      fire_begin-IsValid o now device session expected w v
  step-IsValid (finished now device r sent reported) w v =
      fire_finish-IsValid o now device r sent reported w v
  step-IsValid disposed w v = record {
    few_batches = λ d. no_batches d o;
    few_tickets = tt;
    armed = tt;
  }

  run_from : (es : List Event) (w : Watchdog) → IsValid o w → IsValid o (run es w)
  unfolding run
  run_from [] w v = v
  run_from (e ∷ es) w v = run_from es (step e w) (step-IsValid e w v)

  -- In whatever order agents connect, stage, commit, disarm, drop and callbacks fire, no device has
  -- more pending batches than the limit, no batch and no armed device has more tickets than the
  -- limit, and an armed device has at least one.
  pub run-IsValid : (es : List Event) → IsValid o (run es initial)
  run-IsValid es =
      run_from es initial
        (record { few_batches = λ d. no_batches d o; few_tickets = tt; armed = tt })
