-- ===== src/Relay/Revoke/Laws.antt =====
-- What revokePairing of apps/relay/index.js leaves of a browser's access.
use voxhf.Dict.Laws.{lookup-insert, lookup-remove}
use voxhf.Relay.Access.Laws.{can_client_access_device-authorized, has_id-revoked}
use voxhf.Dict.{Dict, lookup}
use voxhf.Relay.Access.{
  delete_id, set_or_delete, revoked, owned_by_other, unscoped_browser_authorization_key,
  default_user_id, browser_authorization_key, is_browser, has_id, authorized,
  revoke_browser_authorization, can_client_access_device,
}
use voxhf.Relay.Revoke.{revoke_pairing, revoke_found}
use voxhf.Relay.{scoped, Outcome, is_empty, Relay, Client, Config, Env}
use voxhf.Prelude.{
  [], ◌∷◌, ◌∙◌, none, arith, ap, some, Option, List, sym, subst, text_eq, Text, true, false, ◌≡◌,
  refl,
}

module _ (env : Env) (cfg : Config) where
  revoke_found-has_id :
      (ws : Text) (c : Client) (id : Text) (r : Relay)
      → has_id id (
          lookup
            (browser_authorization_key cfg c.user_id c.browser_id)
            (revoke_found env cfg ws c id r).0.authorizations)
        ≡ false
  unfolding revoke_found revoke_browser_authorization
  revoke_found-has_id ws c id r =
      has_id-revoked cfg (browser_authorization_key cfg c.user_id c.browser_id) id r _ refl

  revoke_pairing-found :
      (ws : Text) (c : Client) (id : Text) (r : Relay)
      → is_browser c ≡ true
      → is_empty c.browser_id ≡ false
      → can_client_access_device cfg r c id ≡ true
      → revoke_pairing env cfg ws c id r ≡ revoke_found env cfg ws c id r
  unfolding revoke_pairing
  revoke_pairing-found ws c id r b named may = rw (b, named, may) refl

  after_revoke-authorized :
      (ws : Text) (c c' : Client) (id : Text) (r : Relay)
      → text_eq c.user_id default_user_id ≡ false
      → c'.user_id ≡ c.user_id
      → c'.browser_id ≡ c.browser_id
      → authorized cfg (revoke_found env cfg ws c id r).0 c' id ≡ false
  unfolding authorized
  after_revoke-authorized ws c c' id r other u n =
      rw (u, n, revoke_found-has_id ws c id r, other) refl

  -- When pairing is required, a browser without a session gives up a device it may use, and its user
  -- is not the default one, then no connection of that browser without a session may use the device
  -- any more.
  pub revoke_pairing_denies :
      (ws : Text) (c c' : Client) (id : Text) (r : Relay)
      → cfg.require_pairing ≡ true
      → is_browser c ≡ true
      → is_empty c.browser_id ≡ false
      → can_client_access_device cfg r c id ≡ true
      → text_eq c.user_id default_user_id ≡ false
      → is_browser c' ≡ true
      → c'.by_session ≡ false
      → c'.user_id ≡ c.user_id
      → c'.browser_id ≡ c.browser_id
      → can_client_access_device cfg (revoke_pairing env cfg ws c id r).0 c' id ≡ false
  revoke_pairing_denies ws c c' id r required b named may other b' s' u' n' =
      subst (λ (o : Outcome). can_client_access_device cfg o.0 c' id ≡ false)
        (sym (revoke_pairing-found ws c id r b named may))
        (can_client_access_device-authorized cfg (revoke_found env cfg ws c id r).0 c' id required
          b' s' (after_revoke-authorized ws c c' id r other u' n'))

  set_or_delete-other :
      (key k : Text) (ids : List Text) (m : Dict (List Text))
      → text_eq key k ≡ false
      → lookup k (set_or_delete cfg key ids m) ≡ lookup k m
  set_or_delete-other key k [] m other = rw (lookup-remove key k m, other) refl
  set_or_delete-other key k (id ∷ ids) m other = rw (lookup-insert key k (id ∷ ids) m, other) refl

  revoked-other :
      (key k id : Text) (r : Relay) (o : Option (List Text))
      → text_eq key k ≡ false
      → lookup k (revoked cfg key id r o).0.authorizations ≡ lookup k r.authorizations
  revoked-other key k id r none other = refl
  revoked-other key k id r (some ids) other =
      set_or_delete-other key k (delete_id id ids) r.authorizations other

  revoked-devices :
      (key id : Text) (r : Relay) (o : Option (List Text))
      → (revoked cfg key id r o).0.devices ≡ r.devices
  revoked-devices key id r none = refl
  revoked-devices key id r (some ids) = refl

  unscoped_access :
      (r : Relay) (c : Client) (id : Text)
      → is_browser c ≡ true
      → is_empty c.browser_id ≡ false
      → text_eq c.user_id default_user_id ≡ true
      → has_id id (lookup (unscoped_browser_authorization_key cfg c.browser_id) r.authorizations)
        ≡ true
      → owned_by_other c.user_id (lookup (scoped c.user_id id) r.devices) ≡ false
      → can_client_access_device cfg r c id ≡ true
  unfolding can_client_access_device authorized
  unscoped_access r c id b named by_default held mine =
      ground (arith, b, named, by_default, held, mine)

  -- A browser of the default user that is paired under the older key, which has no user in it, keeps
  -- its access when it gives up the pairing: revokePairing changes only the entry of the newer key.
  pub revoke_pairing_unscoped :
      (ws : Text) (c : Client) (id : Text) (r : Relay)
      → is_browser c ≡ true
      → is_empty c.browser_id ≡ false
      → text_eq c.user_id default_user_id ≡ true
      → has_id id (lookup (unscoped_browser_authorization_key cfg c.browser_id) r.authorizations)
        ≡ true
      → owned_by_other c.user_id (lookup (scoped c.user_id id) r.devices) ≡ false
      → text_eq
          (browser_authorization_key cfg c.user_id c.browser_id)
          (unscoped_browser_authorization_key cfg c.browser_id)
        ≡ false
      → can_client_access_device cfg (revoke_pairing env cfg ws c id r).0 c id ≡ true
  unfolding revoke_found revoke_browser_authorization
  revoke_pairing_unscoped ws c id r b named by_default held mine apart =
      let key = browser_authorization_key cfg c.user_id c.browser_id in
      let old_key = unscoped_browser_authorization_key cfg c.browser_id in
      let entry = lookup key r.authorizations in
      let may = unscoped_access r c id b named by_default held mine in
      subst (λ (o : Outcome). can_client_access_device cfg o.0 c id ≡ true)
        (sym (revoke_pairing-found ws c id r b named may))
        (unscoped_access (revoke_found env cfg ws c id r).0 c id b named by_default
          (ap (has_id id) (revoked-other key old_key id r entry apart) ∙ held)
          (ap (λ m. owned_by_other c.user_id (lookup (scoped c.user_id id) m))
              (revoked-devices key id r entry)
            ∙ mine))
