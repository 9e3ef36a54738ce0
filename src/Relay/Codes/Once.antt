-- ===== src/Relay/Codes/Once.antt =====
-- What a pairing code is good for: confirmPairing of apps/relay/index.js.
use voxhf.Relay.Access.Laws.{has_id-added}
use voxhf.Dict.Laws.{lookup-keep_some, lookup-keep_none, lookup-remove}
use voxhf.Relay.Codes.{
  online_device, confirm_found, pairing_found, pair, confirm_pairing, purge_expired_pairing_codes,
  normalize_pairing_code,
}
use voxhf.Relay.Browsers.Guard.{Answer, All-send}
use voxhf.Relay.Access.{browser_authorization_key, has_id, authorize_browser, is_browser}
use voxhf.Relay.{scoped, Device, Pairing, is_empty, refuse, Outcome, Relay, Client, Env, Config}
use voxhf.Dict.{keep_values, lookup}
use voxhf.Prelude.{
  ◌||◌, ◌&&◌, if-eq-some, ◌∙◌, text_eq_iff, sym, by_if, ap, text_eq_refl, ◌⊎◌, leb, not, Option,
  ◌<◌, some_inj, subst, text_eq, arith, All, Text, [], none, some, true, false, ◌≡◌, refl, inl, inr,
}

module _ (env : Env) (cfg : Config) where
  online_device-facts :
      (q : Pairing) (o : Option Device) (p : Pairing) (d : Device)
      → online_device env cfg q o ≡ some (p, d)
      → (o ≡ some d) × (q ≡ p) × (d.online ≡ true)
  online_device-facts q none p d e = absurd (ground arith)
  online_device-facts q (some x) p d e =
      let (online, e') = if-eq-some x.online e in
      let same = some_inj e' in
      (
        ap (λ (y : Pairing × Device). some y.1) same,
        ap (λ (y : Pairing × Device). y.0) same,
        subst (λ (y : Device). y.online ≡ true) (ap (λ (z : Pairing × Device). z.1) same) online,
      )

  -- A code that is not there cannot be used.
  no_code :
      (r : Relay) {k k' : Text} {p : Pairing}
      → lookup k r.pairing_codes ≡ none
      → k ≡ k'
      → lookup k' (purge_expired_pairing_codes env.now r).pairing_codes ≡ some p
      → ⊥
  unfolding purge_expired_pairing_codes
  no_code r {k} {p = p} gone same held =
      let kept =
        lookup-keep_none k (λ (q : Pairing). not (leb q.expires_at_ms env.now)) r.pairing_codes
          gone in
      let there =
        subst
          (λ x.
            lookup x
              (keep_values (λ (q : Pairing). not (leb q.expires_at_ms env.now)) r.pairing_codes)
            ≡ some p)
          (sym same) held in
      ground (arith, kept, there)

module _ (cfg : Config) where
  -- A confirmation that changes no authorization and only answers the socket that asked.
  abbrev pub Refused : Text → Relay → Outcome → Type 0
  Refused ws r o = (o.0.authorizations ≡ r.authorizations) × All (Answer ws) o.1

  module _ (env : Env) (ws : Text) (c : Client) (value : Text) (r : Relay) where
    -- A confirmation that pairs.
    pub record Paired (o : Outcome) : Type 0 where
      pub asker : is_browser c ≡ true
      pub named : is_empty c.browser_id ≡ false
      pub pairing : Pairing
      pub device : Device
      pub held :
          lookup
            (normalize_pairing_code env cfg value)
            (purge_expired_pairing_codes env.now r).pairing_codes
          ≡ some pairing
      pub unexpired : env.now < pairing.expires_at_ms
      pub owner : pairing.user_id ≡ c.user_id
      pub known : lookup (scoped c.user_id pairing.device_id) r.devices ≡ some device
      pub online : device.online ≡ true
      pub added :
          (key id : Text)
          → has_id id (lookup key o.0.authorizations) ≡ (
              has_id id (lookup key r.authorizations)
              || (text_eq (browser_authorization_key cfg c.user_id c.browser_id) key
                  && text_eq id pairing.device_id))
      pub used_up : lookup (normalize_pairing_code env cfg value) o.0.pairing_codes ≡ none

    refuse-Refused :
        (code text : Text) (r' : Relay)
        → r'.authorizations ≡ r.authorizations
        → Refused ws r (refuse env ws code text [] r')
    refuse-Refused code text r' e = (e, All-send (Answer ws) env ws _ (_, refl))

    purge-authorizations : (purge_expired_pairing_codes env.now r).authorizations ≡ r.authorizations
    unfolding purge_expired_pairing_codes
    purge-authorizations = refl

    purge-unexpired :
        (k : Text) {p : Pairing}
        → lookup k (purge_expired_pairing_codes env.now r).pairing_codes ≡ some p
        → env.now < p.expires_at_ms
    unfolding purge_expired_pairing_codes
    purge-unexpired k {p} e =
        let kept =
          lookup-keep_some k (λ (q : Pairing). not (leb q.expires_at_ms env.now)) r.pairing_codes
            e in
        ground (arith, kept)

    purge-devices : (purge_expired_pairing_codes env.now r).devices ≡ r.devices
    unfolding purge_expired_pairing_codes
    purge-devices = refl

    authorize-purge :
        (id : Text)
        → (authorize_browser cfg c.user_id c.browser_id id
            (purge_expired_pairing_codes env.now r)).0.authorizations
          ≡ (authorize_browser cfg c.user_id c.browser_id id r).0.authorizations
    unfolding authorize_browser purge_expired_pairing_codes
    authorize-purge id = refl

    pair-authorizations :
        (code : Text) (p : Pairing) (d : Device) (r' : Relay)
        → (pair env cfg ws c code p d r').0.authorizations
          ≡ (authorize_browser cfg c.user_id c.browser_id p.device_id r').0.authorizations
    unfolding pair
    pair-authorizations code p d r' = refl

    pair-used_up :
        (code : Text) (p : Pairing) (d : Device) (r' : Relay)
        → lookup code (pair env cfg ws c code p d r').0.pairing_codes ≡ none
    unfolding pair authorize_browser
    pair-used_up code p d r' = rw (lookup-remove code code r'.pairing_codes, text_eq_refl code) refl

    pairing_found-facts :
        (r' : Relay) (o : Option Pairing) (p : Pairing) (d : Device)
        → pairing_found env cfg c.user_id r' o ≡ some (p, d)
        → (o ≡ some p)
          × (p.user_id ≡ c.user_id)
          × (lookup (scoped c.user_id p.device_id) r'.devices ≡ some d)
          × (d.online ≡ true)
    pairing_found-facts r' none p d e = absurd (ground arith)
    pairing_found-facts r' (some q) p d e =
        let (owner, e') = if-eq-some (text_eq q.user_id c.user_id) e in
        let (known, same, online) =
          online_device-facts env cfg q (lookup (scoped c.user_id q.device_id) r'.devices) p d e' in
        (
          ap some same,
          subst (λ (x : Pairing). x.user_id ≡ c.user_id) same
              ((text_eq_iff q.user_id c.user_id).0 owner),
          subst (λ (x : Pairing). lookup (scoped c.user_id x.device_id) r'.devices ≡ some d) same
              known,
          online,
        )

    confirm_found-cases :
        (o : Option (Pairing × Device))
        → pairing_found env cfg c.user_id (purge_expired_pairing_codes env.now r) (
            lookup
              (normalize_pairing_code env cfg value)
              (purge_expired_pairing_codes env.now r).pairing_codes)
          ≡ o
        → is_browser c ≡ true
        → is_empty c.browser_id ≡ false
        → Refused ws r (
            confirm_found env cfg ws c
              (normalize_pairing_code env cfg value)
              o
              (purge_expired_pairing_codes env.now r))
          ⊎ Paired (
              confirm_found env cfg ws c
                (normalize_pairing_code env cfg value)
                o
                (purge_expired_pairing_codes env.now r))
    confirm_found-cases none e b n =
        inl (refuse-Refused _ _ (purge_expired_pairing_codes env.now r) purge-authorizations)
    confirm_found-cases (some (p, d)) e b n =
        let code = normalize_pairing_code env cfg value in
        let r' = purge_expired_pairing_codes env.now r in
        let (held, owner, known, online) =
          pairing_found-facts r' (lookup code r'.pairing_codes) p d e in
        inr (record {
          asker = b;
          named = n;
          pairing = p;
          device = d;
          held = held;
          unexpired = purge-unexpired code held;
          owner = owner;
          known = subst (λ m. lookup (scoped c.user_id p.device_id) m ≡ some d) purge-devices known;
          online = online;
          added = λ key id.
              ap (λ m. has_id id (lookup key m))
                (pair-authorizations code p d r' ∙ authorize-purge p.device_id)
              ∙ has_id-added cfg c.user_id c.browser_id p.device_id key id r;
          used_up = pair-used_up code p d r';
        })

    -- A confirmation is refused and changes no authorization, or it comes from a browser with an id,
    -- the code is one that was issued, has not run out and belongs to the browser's user, and the
    -- device it was issued for is online. Then this device is added to the entry of the browser, no
    -- other entry of browserAuthorizations changes for any device, and the code is gone.
    pub confirm_pairing_cases :
        Refused ws r (confirm_pairing env cfg ws c value r)
        ⊎ Paired (confirm_pairing env cfg ws c value r)
    unfolding confirm_pairing
    confirm_pairing_cases =
        let Either : Outcome → Type 0 = λ o. Refused ws r o ⊎ Paired o in
        by_if Either (not (is_browser c)) (λ h. inl (refuse-Refused _ _ r refl))
          λ b.
            by_if Either (is_empty c.browser_id) (λ h. inl (refuse-Refused _ _ r refl))
              λ n. confirm_found-cases _ refl (ground arith) n

  -- Of two confirmations with the same code, by whatever sockets and browsers and at whatever times,
  -- the second is refused if the first was not, when nothing comes between them.
  pub confirm_pairing_once :
      (env env' : Env) (ws ws' : Text) (c c' : Client) (value value' : Text) (r : Relay)
      → normalize_pairing_code env cfg value ≡ normalize_pairing_code env' cfg value'
      → Refused ws r (confirm_pairing env cfg ws c value r)
        ⊎ Refused ws'
            (confirm_pairing env cfg ws c value r).0
            (confirm_pairing env' cfg ws' c' value' (confirm_pairing env cfg ws c value r).0)
  confirm_pairing_once env env' ws ws' c c' value value' r same =
      let r' = (confirm_pairing env cfg ws c value r).0 in
      elim (confirm_pairing_cases env ws c value r) [
        | inl refused ↦ inl refused
        | inr first ↦ elim (confirm_pairing_cases env' ws' c' value' r') [
          | inl refused ↦ inr refused
          | inr second ↦ absurd (no_code env' cfg r' first.used_up same second.held)
        ]
      ]
