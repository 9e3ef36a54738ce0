-- ===== src/Relay/Messages/Rates.antt =====
-- How many messages allowRate of apps/relay/index.js lets pass: its three buckets share one window,
-- which any of them begins anew.
use voxhf.Dict.Laws.{lookup-insert}
use voxhf.Json.{Bindings}
use voxhf.Dict.{insert, lookup}
use voxhf.Relay.{send, Env, Outcome, Relay, closed, Client, Effect, Config, Rate}
use voxhf.Relay.Messages.{
  rated, counted, in_pairings, in_commands, in_messages, count_of, create_rate_state, Bucket,
  next_rate, allow_rate,
}
use voxhf.Prelude.{
  ◌&&◌, text_eq_refl, none, some, Option, ap, ◌∙◌, Text, Bool, All-weaken, Bool-cases, sym, subst,
  arith, ◌*◌, ◌-◌, ◌+◌, leb, ltb, if◌then◌else◌, All, List, ◌≤◌, ℕ, ◌∷◌, [], true, false, ◌≡◌, refl,
  inl, inr,
}

abbrev pub same_bucket : Bucket → Bucket → Bool
same_bucket in_messages in_messages = true
same_bucket in_commands in_commands = true
same_bucket in_pairings in_pairings = true
same_bucket _ _ = false

abbrev one_if : Bool → ℕ
one_if b = if b then 1 else 0

-- The continuation leaves a mark that no refusal leaves.
abbrev pub mark : Text → Client → Relay → Outcome
mark ws c r = (r, closed ws [] ∷ [])

abbrev pub marks : List Effect → ℕ
marks [] = 0
marks (closed ws reason ∷ effects) = 1 + marks effects
marks (_ ∷ effects) = marks effects

abbrev pub limit_of : Config → Bucket → ℕ
limit_of cfg in_messages = cfg.max_messages
limit_of cfg in_commands = cfg.max_commands
limit_of cfg in_pairings = cfg.max_pairing_attempts

same_bucket_eq : (a b : Bucket) → same_bucket a b ≡ true → a ≡ b
same_bucket_eq in_messages in_messages h = refl
same_bucket_eq in_commands in_commands h = refl
same_bucket_eq in_pairings in_pairings h = refl
same_bucket_eq in_messages in_commands h = cc
same_bucket_eq in_messages in_pairings h = cc
same_bucket_eq in_commands in_messages h = cc
same_bucket_eq in_commands in_pairings h = cc
same_bucket_eq in_pairings in_messages h = cc
same_bucket_eq in_pairings in_commands h = cc

count-counted :
    (a b : Bucket) (rate : Rate)
    → count_of a (counted b rate) ≡ count_of a rate + one_if (same_bucket a b)
count-counted in_messages in_messages rate = refl
count-counted in_commands in_commands rate = refl
count-counted in_pairings in_pairings rate = refl
count-counted in_messages in_commands rate = omega arith
count-counted in_messages in_pairings rate = omega arith
count-counted in_commands in_messages rate = omega arith
count-counted in_commands in_pairings rate = omega arith
count-counted in_pairings in_messages rate = omega arith
count-counted in_pairings in_commands rate = omega arith

start-counted : (b : Bucket) (rate : Rate) → (counted b rate).window_start_ms ≡ rate.window_start_ms
start-counted in_messages rate = refl
start-counted in_commands rate = refl
start-counted in_pairings rate = refl

count-create : (a : Bucket) (now : ℕ) → count_of a (create_rate_state now) ≡ 0
unfolding create_rate_state
count-create in_messages now = refl
count-create in_commands now = refl
count-create in_pairings now = refl

count-next :
    (a : Bucket) (window now : ℕ) (b : Bucket) (rate : Rate)
    → ltb window (now - rate.window_start_ms) ≡ false
    → (count_of a (next_rate window now b rate) ≡ count_of a rate + one_if (same_bucket a b))
      × ((next_rate window now b rate).window_start_ms ≡ rate.window_start_ms)
unfolding next_rate
count-next a window now b rate e = rw e (count-counted a b rate, start-counted b rate)

count-next_new :
    (a : Bucket) (window now : ℕ) (b : Bucket) (rate : Rate)
    → ltb window (now - rate.window_start_ms) ≡ true
    → (count_of a (next_rate window now b rate) ≡ one_if (same_bucket a b))
      × ((next_rate window now b rate).window_start_ms ≡ now)
unfolding next_rate create_rate_state
count-next_new a window now b rate e =
    let counted_once = count-counted a b (create_rate_state now) in
    let nothing = count-create a now in
    rw e (omega (arith, counted_once, nothing), start-counted b (create_rate_state now))

module _ (cfg : Config) (ws : Text) where
  -- A message of `ws` that allowRate counts in `b`, of the client that `clients` holds.
  abbrev pub of_entry : Env → Bucket → Option Client → Relay → Outcome
  of_entry env b none r = (r, [])
  of_entry env b (some c) r = allow_rate env cfg ws c b (limit_of cfg b) (mark ws) r

  abbrev pub attempt : Env → Bucket → Relay → Outcome
  attempt env b r = of_entry env b (lookup ws r.clients) r

  -- How many messages of bucket `a` pass among those of all buckets.
  unfoldable pub passed : Bucket → List (Env × Bucket) → Relay → ℕ
  passed a [] r = 0
  passed a ((env, b) ∷ es) r =
      let out = attempt env b r in
      let rest = passed a es out.0 in if same_bucket a b then marks out.1 + rest else rest

  abbrev pub Between : ℕ → ℕ → Env × Bucket → Type 0
  Between from upto (env, b) = (from ≤ env.now) × (env.now ≤ upto)

  marks-send : (env : Env) (to : Text) (message : Bindings) → marks (send env to message) ≡ 0
  marks-send env to message = elim (Bool-cases (env.is_open to)) [
    | inl up ↦ rw up refl
    | inr down ↦ rw down refl
  ]

  -- The rate that allowRate leaves for the socket, and whether it goes on.
  record Counted (env : Env) (b : Bucket) (c : Client) (out : Outcome) : Type 0 where
    client : Client
    held : lookup ws out.0.clients ≡ some client
    rate : client.rate ≡ next_rate cfg.rate_window_ms env.now b c.rate
    marked : marks out.1 ≡ one_if (leb (count_of b client.rate) (limit_of cfg b))

  allow_rate-Counted :
      (env : Env) (b : Bucket) (c : Client) (r : Relay)
      → Counted env b c (allow_rate env cfg ws c b (limit_of cfg b) (mark ws) r)
  unfolding allow_rate
  allow_rate-Counted env b c r =
      let c' = rated env cfg c (next_rate cfg.rate_window_ms env.now b c.rate) in
      let there : lookup ws (insert ws c' r.clients) ≡ some c' =
        ground (arith, lookup-insert ws ws c' r.clients, text_eq_refl ws) in
      elim (Bool-cases (leb (count_of b c'.rate) (limit_of cfg b))) [
        | inl within ↦
            rw within (record { client = c'; held = there; rate = refl; marked = rw within refl })
        | inr beyond ↦ rw beyond (record {
          client = c';
          held = there;
          rate = refl;
          marked = rw beyond (marks-send env ws _);
        })
      ]

  attempt-Counted :
      (env : Env) (b : Bucket) (c : Client) (r : Relay)
      → lookup ws r.clients ≡ some c
      → Counted env b c (attempt env b r)
  attempt-Counted env b c r held = rw held (allow_rate-Counted env b c r)

  marks-same :
      (a b : Bucket) (env : Env) (c : Client) (out : Outcome) (k : Counted env b c out)
      → same_bucket a b ≡ true
      → marks out.1 ≡ one_if (leb (count_of a k.client.rate) (limit_of cfg a))
  marks-same a b env c out k same =
      subst (λ x. marks out.1 ≡ one_if (leb (count_of x k.client.rate) (limit_of cfg x)))
        (sym (same_bucket_eq a b same)) k.marked

  -- One attempt adds at most one, and none when the count is beyond the limit.
  passed-cons :
      (a b : Bucket) (env : Env) (es : List (Env × Bucket)) (c : Client) (r : Relay)
      → (k : Counted env b c (attempt env b r))
      → passed a ((env, b) ∷ es) r
        ≤ one_if (same_bucket a b && leb (count_of a k.client.rate) (limit_of cfg a))
          + passed a es (attempt env b r).0
  unfolding passed
  passed-cons a b env es c r k = elim (Bool-cases (same_bucket a b)) [
    | inl same ↦ let m = marks-same a b env c (attempt env b r) k same in rw (same, m) (omega arith)
    | inr other ↦ rw other (omega arith)
  ]

  -- In a window that is not over, no more pass than its count leaves.
  passed-le_rest :
      (a : Bucket) (es : List (Env × Bucket)) (c : Client) (r : Relay)
      → lookup ws r.clients ≡ some c
      → All (Between 0 (c.rate.window_start_ms + cfg.rate_window_ms)) es
      → passed a es r ≤ limit_of cfg a - count_of a c.rate
  unfolding passed
  passed-le_rest a [] c r held h = omega arith
  passed-le_rest a ((env, b) ∷ es) c r held ((after, before), hs) =
      let k = attempt-Counted env b c r held in
      let window = cfg.rate_window_ms in
      let (count, start) = count-next a window env.now b c.rate (ground (arith, before)) in
      let count' : count_of a k.client.rate ≡ count_of a c.rate + one_if (same_bucket a b) =
        ap (count_of a) k.rate ∙ count in
      let start' : k.client.rate.window_start_ms ≡ c.rate.window_start_ms =
        ap (λ (x : Rate). x.window_start_ms) k.rate ∙ start in
      let ih =
        passed-le_rest a es k.client (attempt env b r).0 k.held
          (subst (λ s. All (Between 0 (s + window)) es) (sym start') hs) in
      let one = passed-cons a b env es c r k in ground (arith, one, ih, count')

  -- From a time on, within one window's length: at most one new window begins.
  passed-le_both :
      (a : Bucket) (from : ℕ) (es : List (Env × Bucket)) (c : Client) (r : Relay)
      → lookup ws r.clients ≡ some c
      → All (Between from (from + cfg.rate_window_ms)) es
      → passed a es r ≤ (limit_of cfg a - count_of a c.rate) + limit_of cfg a
  unfolding passed
  passed-le_both a from [] c r held h = omega arith
  passed-le_both a from ((env, b) ∷ es) c r held ((after, before), hs) =
      let k = attempt-Counted env b c r held in
      let window = cfg.rate_window_ms in
      let one = passed-cons a b env es c r k in
      elim (Bool-cases (ltb window (env.now - c.rate.window_start_ms))) [
        | inr same ↦
            let count' : count_of a k.client.rate ≡ count_of a c.rate + one_if (same_bucket a b) =
              ap (count_of a) k.rate ∙ (count-next a window env.now b c.rate same).0 in
            let ih = passed-le_both a from es k.client (attempt env b r).0 k.held hs in
            ground (arith, one, ih, count')
        | inl over ↦
            let (count, start) = count-next_new a window env.now b c.rate over in
            let count' : count_of a k.client.rate ≡ one_if (same_bucket a b) =
              ap (count_of a) k.rate ∙ count in
            let start' : k.client.rate.window_start_ms ≡ env.now =
              ap (λ (x : Rate). x.window_start_ms) k.rate ∙ start in
            let near =
              All-weaken (Between from (from + window)) (Between 0 (env.now + window)) es
                (λ x i. (omega arith, omega (arith, i.1, after))) hs in
            let rest =
              passed-le_rest a es k.client (attempt env b r).0 k.held
                (subst (λ s. All (Between 0 (s + window)) es) (sym start') near) in
            ground (arith, one, rest, count')
      ]

  -- Of the messages of a socket that allowRate counts in one bucket in an interval as long as the
  -- window, no more than twice the limit of the bucket pass, whatever was counted before and however
  -- messages of the other buckets, which share the window, come between.
  pub passed-le :
      (a : Bucket) (from : ℕ) (es : List (Env × Bucket)) (c : Client) (r : Relay)
      → lookup ws r.clients ≡ some c
      → All (Between from (from + cfg.rate_window_ms)) es
      → passed a es r ≤ 2 * limit_of cfg a
  passed-le a from es c r held h = omega (arith, passed-le_both a from es c r held h)
