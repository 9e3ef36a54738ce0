-- ===== src/UnicomTimer/Trace.antt =====
-- Runs of the timer: any sequence of starts, cancellations and callbacks, late callbacks included.
use voxhf.UnicomTimer.{
  set_timer, inactive, on_state, is_set, is_active, cancel, start, on_expired, expire, clear, Timer,
  Effect,
}
use voxhf.Prelude.{
  ◌||◌, ◌∙◌, inr, any-append, sym, inl, ◌==◌, or_true, Option-cases, any, true, Bool, none, false,
  ◌<◌, some, arith, [], ◌≤◌, ◌∷◌, ◌+◌, ◌++◌, if◌then◌else◌, ℕ, Option, List, ◌≡◌, refl,
}

pub data Event : Type 0 where
  -- at an instant, with the handle that setTimer returns
  started : ℕ → ℕ → Event
  cancelled : Event
  -- a callback that was set for a generation
  fired : ℕ → Event

-- Whether an effect sets a callback for a generation.
abbrev pub sets : ℕ → Effect → Bool
sets g (set_timer h duration) = h == g
sets g _ = false

nothing_set :
    (g : ℕ) (t : Timer)
    → any (sets g) (
        clear t.timer_id
        ++ (if is_active t.state || is_set t.timer_id then on_state inactive ∷ [] else []))
      ≡ false
nothing_set g t = elim (Option-cases t.timer_id) [
  | inl idle ↦ rw idle (notified (is_active t.state || false))
  | inr (id, set) ↦ rw set (notified (is_active t.state || true))
]
  where
    notified : (b : Bool) → any (sets g) (if b then on_state inactive ∷ [] else []) ≡ false
    notified b = ground arith

module _ (duration : ℕ) where
  unfoldable pub step : Event → Timer → Timer × List Effect
  step (started now handle) t = start duration now handle t
  step cancelled t = cancel t
  step (fired expected) t = let (t', effects, done) = expire expected t in (t', effects)

  unfoldable pub run : List Event → Timer → Timer × List Effect
  run [] t = (t, [])
  run (e ∷ es) t =
      let (t', before) = step e t in let (t'', after) = run es t' in (t'', before ++ after)

  step-generation-le : (e : Event) (t : Timer) → t.generation ≤ (step e t).0.generation
  unfolding step start cancel expire
  step-generation-le (started now handle) t = omega arith
  step-generation-le cancelled t = omega arith
  step-generation-le (fired expected) t = ground arith

  run-generation-le : (es : List Event) (t : Timer) → t.generation ≤ (run es t).0.generation
  unfolding run
  run-generation-le [] t = omega arith
  run-generation-le (e ∷ es) t =
      omega (arith, step-generation-le e t, run-generation-le es (step e t).0)

  -- A callback for a generation that is over is ignored.
  expire-old :
      (es : List Event) (t : Timer) (g : ℕ)
      → g < t.generation
      → expire g (run es t).0 ≡ ((run es t).0, [], false)
  unfolding expire
  expire-old es t g h = ground (arith, run-generation-le es t)

  step-set-le :
      (e : Event) (t : Timer) (g : ℕ)
      → any (sets g) (step e t).1 ≡ true
      → g ≤ (step e t).0.generation
  unfolding step start cancel expire
  step-set-le (started now handle) t g h = elim (Option-cases t.timer_id) [
    | inl idle ↦ ground (arith, rw idle at h)
    | inr (id, set) ↦ ground (arith, rw set at h)
  ]
  step-set-le cancelled t g h = absurd (ground (arith, nothing_set g t, h))
  step-set-le (fired expected) t g h = ground (arith, h)

  run-set-le :
      (es : List Event) (t : Timer) (g : ℕ)
      → any (sets g) (run es t).1 ≡ true
      → g ≤ (run es t).0.generation
  unfolding run
  run-set-le [] t g h = absurd (ground arith)
  run-set-le (e ∷ es) t g h =
      let t' = (step e t).0 in
      elim (or_true (any (sets g) (step e t).1) (any (sets g) (run es t').1)
        (sym (any-append (sets g) (step e t).1 (run es t').1) ∙ h)) [
          | inl now ↦ omega (arith, step-set-le e t g now, run-generation-le es t')
          | inr later ↦ run-set-le es t' g later
        ]

  abbrev Ends : Event → Type 0
  Ends (started now handle) = Unit
  Ends cancelled = Unit
  Ends (fired expected) = ⊥

  step-Ends : (e : Event) (t : Timer) → Ends e → t.generation < (step e t).0.generation
  unfolding step start cancel
  step-Ends (started now handle) t h = omega arith
  step-Ends cancelled t h = omega arith
  step-Ends (fired expected) t h = absurd h

  -- A callback that was set before a start or a cancellation is ignored, whatever has happened before
  -- and since.
  pub expire-run_stale :
      (before : List Event) (e : Event) (since : List Event) (t : Timer) (g : ℕ)
      → any (sets g) (run before t).1 ≡ true
      → Ends e
      → let t' = (run since (step e (run before t).0).0).0 in expire g t' ≡ (t', [], false)
  expire-run_stale before e since t g set ends =
      expire-old since (step e (run before t).0).0 g
        (omega (arith, run-set-le before t g set, step-Ends e (run before t).0 ends))

abbrev pub is_started : Event → ℕ
is_started (started now handle) = 1
is_started _ = 0

abbrev pub is_expiry : Effect → ℕ
is_expiry (on_expired at) = 1
is_expiry _ = 0

abbrev pub starts : List Event → ℕ
starts [] = 0
starts (e ∷ es) = is_started e + starts es

abbrev pub expiries : List Effect → ℕ
expiries [] = 0
expiries (e ∷ es) = is_expiry e + expiries es

expiries-append : (es fs : List Effect) → expiries (es ++ fs) ≡ expiries es + expiries fs
expiries-append [] fs = omega arith
expiries-append (e ∷ es) fs = omega (arith, expiries-append es fs)

abbrev pub pending : Timer → ℕ
pending t = if is_active t.state then 1 else 0

expiries-clear : (o : Option ℕ) → expiries (clear o) ≡ 0
expiries-clear none = refl
expiries-clear (some id) = refl

expiries-notify : (b : Bool) → expiries (if b then on_state inactive ∷ [] else []) ≡ 0
expiries-notify true = refl
expiries-notify false = refl

module _ (duration : ℕ) where
  step_budget :
      (e : Event) (t : Timer)
      → expiries (step duration e t).1 + pending (step duration e t).0 ≤ is_started e + pending t
  unfolding step start cancel expire
  step_budget (started now handle) t =
      omega (arith, expiries-append (clear t.timer_id), expiries-clear t.timer_id)
  step_budget cancelled t = omega (
    arith,
    expiries-append (clear t.timer_id),
    expiries-clear t.timer_id,
    expiries-notify (is_active t.state || is_set t.timer_id),
  )
  step_budget (fired expected) t = ground arith

  -- However starts, cancellations and callbacks interleave, there is at most one expiry for each
  -- start.
  pub expiries-run-le :
      (es : List Event) (t : Timer)
      → expiries (run duration es t).1 + pending (run duration es t).0 ≤ starts es + pending t
  unfolding run
  expiries-run-le [] t = omega arith
  expiries-run-le (e ∷ es) t =
      let t' = (step duration e t).0 in
      omega (
        arith,
        expiries-append (step duration e t).1 (run duration es t').1,
        step_budget e t,
        expiries-run-le es t',
      )
