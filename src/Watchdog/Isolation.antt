-- ===== src/Watchdog/Isolation.antt =====
-- What an operation on one device leaves alone: other devices, and a newer session.
use voxhf.Dict.Laws.{lookup-remove, lookup-insert}
use voxhf.Dict.{remove, insert, lookup, Dict}
use voxhf.Watchdog.{
  armed, batch_key, still_expected, committable, delivered, delete_device_batches, may_disarm,
  disarm_active, commit_batch, can_go_offline, begin_fire, fire_begin, without_timer, agent_online,
  agent_offline, commit, Active, cleanup, collect_receipt, clear_active_timer, Watchdog,
  disarm_current, disarm, Options,
}
use voxhf.Prelude.{
  text_eq_iff, ◌==◌, arith, length, Bool-cases, ◌≢◌, some, inr, inl, Option-cases, false, text_eq,
  Text, ◌≡◌, refl, ◌∷◌, [], ℕ,
}

lookup-insert_ne {ℓ} :
    {V : Type ℓ} (k j : Text) (v : V) (m : Dict V)
    → text_eq k j ≡ false
    → lookup j (insert k v m) ≡ lookup j m
lookup-insert_ne k j v m h = rw (lookup-insert k j v m, h)

lookup-remove_ne {ℓ} :
    {V : Type ℓ} (k j : Text) (m : Dict V)
    → text_eq k j ≡ false
    → lookup j (remove k m) ≡ lookup j m
lookup-remove_ne k j m h = rw (lookup-remove k j m, h)

nonempty : (s : Text) → s ≢ [] → (length s == 0) ≡ false
nonempty [] h = absurd (h refl)
nonempty (c ∷ s) h = ground arith

module _ (device other : Text) (apart : text_eq device other ≡ false) where
  clear_active_timer_other :
      (w : Watchdog) → lookup other (clear_active_timer device w).0.active ≡ lookup other w.active
  unfolding clear_active_timer
  clear_active_timer_other w = elim (Option-cases (lookup device w.active)) [
    | inl out ↦ rw out
    | inr (a, found) ↦ elim (Option-cases a.offline_timer) [
      | inl idle ↦ rw (found, idle)
      | inr (handle, set) ↦
          rw (found, set) (lookup-insert_ne device other (without_timer a) w.active apart)
    ]
  ]

module _ (o : Options) where
  collect_receipt-active :
      (device session : Text) (w : Watchdog)
      → (collect_receipt o device session w).0.active ≡ w.active
  unfolding collect_receipt
  collect_receipt-active device session w =
      elim (Bool-cases (delivered o session (lookup device w.fired))) [
        | inl found ↦ rw found
        | inr missing ↦ rw missing
      ]

  -- A session that is not the armed one, and is not empty, disarms nothing and stops no timer.
  pub disarm_other_session :
      (now : ℕ) (device session : Text) (w : Watchdog) (a : Active)
      → lookup device w.active ≡ some a
      → session ≢ []
      → a.session_id ≢ session
      → (lookup device (disarm o now device session w).0.active ≡ some a)
        × ((disarm o now device session w).1 ≡ [])
  unfolding disarm disarm_current cleanup
  disarm_other_session now device session w a found some_session different =
      let foreign : may_disarm o session (some a) ≡ false =
        ground (arith, text_eq_iff a.session_id session, nonempty session) in
      rw (found, foreign, collect_receipt-active device session (cleanup o now w)) (found, refl)

module _ (o : Options) (device other : Text) (apart : text_eq device other ≡ false) where
  commit_other :
      (now : ℕ) (session batch_id : Text) (w : Watchdog)
      → lookup other (commit o now device session batch_id w).0.active ≡ lookup other w.active
  unfolding commit commit_batch delete_device_batches cleanup
  commit_other now session batch_id w =
      let w' = cleanup o now w in
      elim (Option-cases (committable o session (lookup (batch_key device batch_id) w'.batches))) [
        | inl refused ↦ rw (refused, commit)
        | inr (b, found) ↦
            rw
              (
                found,
                commit,
                lookup-insert_ne device other (armed o b) (clear_active_timer device w').0.active
                    apart,
              )
              (clear_active_timer_other device other apart w')
      ]

  disarm_current_other :
      (session : Text) (w : Watchdog)
      → lookup other (disarm_current o device session w).0.active ≡ lookup other w.active
  unfolding disarm_current disarm_active delete_device_batches
  disarm_current_other session w =
      elim (Bool-cases (may_disarm o session (lookup device w.active))) [
        | inl may ↦
            rw (may, lookup-remove_ne device other (clear_active_timer device w).0.active apart)
              (clear_active_timer_other device other apart w)
        | inr foreign ↦ rw foreign
      ]

  disarm_other :
      (now : ℕ) (session : Text) (w : Watchdog)
      → lookup other (disarm o now device session w).0.active ≡ lookup other w.active
  unfolding disarm cleanup
  disarm_other now session w =
      let w' = cleanup o now w in
      rw (collect_receipt-active o device session (disarm_current o device session w').0)
        (disarm_current_other session w')

  agent_offline_other :
      (now handle : ℕ) (w : Watchdog)
      → lookup other (agent_offline o now handle device w).0.active ≡ lookup other w.active
  unfolding agent_offline cleanup
  agent_offline_other now handle w =
      elim (Option-cases (can_go_offline o (lookup device w.active))) [
        | inl refused ↦ rw (refused, agent_offline)
        | inr (a, found) ↦
            rw (found, agent_offline) (lookup-insert_ne device other _ w.active apart)
      ]

  fire_begin_other :
      (now expected : ℕ) (session : Text) (w : Watchdog)
      → lookup other (fire_begin o now device session expected w).0.active ≡ lookup other w.active
  unfolding fire_begin begin_fire delete_device_batches
  fire_begin_other now expected session w =
      elim (Option-cases (still_expected o session expected (lookup device w.active))) [
        | inl refused ↦ rw (refused, fire_begin)
        | inr (a, found) ↦ rw (found, fire_begin) (lookup-remove_ne device other w.active apart)
      ]

  -- A commit, a disarming, a disconnection, a reconnection or a firing callback of one device leaves
  -- what is armed for any other device as it was: its session, its tickets, its timer and the
  -- generation that its callback waits for.
  pub others_unchanged :
      (w : Watchdog) (now handle expected : ℕ) (session batch_id : Text)
      → (lookup other (commit o now device session batch_id w).0.active ≡ lookup other w.active)
        × (lookup other (disarm o now device session w).0.active ≡ lookup other w.active)
        × (lookup other (agent_offline o now handle device w).0.active ≡ lookup other w.active)
        × (lookup other (agent_online o device w).0.active ≡ lookup other w.active)
        × (lookup other (fire_begin o now device session expected w).0.active
            ≡ lookup other w.active)
  unfolding agent_online
  others_unchanged w now handle expected session batch_id = (
    commit_other now session batch_id w,
    disarm_other now session w,
    agent_offline_other now handle w,
    clear_active_timer_other device other apart w,
    fire_begin_other now expected session w,
  )
