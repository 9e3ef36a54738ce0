-- ===== src/Relay/Access/Laws.antt =====
-- What authorizeBrowser and revokeBrowserAuthorization of apps/relay/index.js do to the devices that a
-- browser may use.
use voxhf.Protocol.Types.{same_source, Source}
use voxhf.Dict.Laws.{lookup-insert, lookup-remove}
use voxhf.Dict.{lookup, Dict}
use voxhf.Relay.Access.{
  owned_by_other, authorized, is_browser, can_client_access_device, ids_or_new, set_or_delete,
  revoked, browser_authorization_key, has_id, contains, authorize_browser, delete_id, add_id,
}
use voxhf.Relay.{is_empty, scoped, Client, Relay, Config}
use voxhf.Prelude.{
  ◌||◌, ◌∙◌, sym, subst, ap, inl, inr, ◌&&◌, Bool-cases, Bool, text_eq_refl, ◌++◌, text_eq_iff,
  by_if, arith, Option, text_eq, List, Text, ◌∷◌, [], none, some, true, false, ◌≡◌, refl,
}

or_false : (b : Bool) → b ≡ (b || false)
or_false true = refl
or_false false = refl

text_eq_sym : (a b : Text) → text_eq a b ≡ text_eq b a
text_eq_sym a b = ground (arith, text_eq_iff a b, text_eq_iff b a)

contains-snoc : (id : Text) (ids : List Text) → contains id (ids ++ (id ∷ [])) ≡ true
contains-snoc id [] = ground (arith, text_eq_refl id)
contains-snoc id (j ∷ ids) = ground (arith, contains-snoc id ids)

contains-add_id : (id : Text) (ids : List Text) → contains id (add_id id ids) ≡ true
unfolding add_id
contains-add_id id ids =
    by_if (λ x. contains id x ≡ true) (contains id ids) (λ h. h) (λ h. contains-snoc id ids)

contains-append_one :
    (id j : Text) (ids : List Text)
    → contains id (ids ++ (j ∷ [])) ≡ (contains id ids || text_eq id j)
contains-append_one id j [] = ground arith
contains-append_one id j (i ∷ ids) = ground (arith, contains-append_one id j ids)

-- The members after an addition.
contains-add_one :
    (id j : Text) (ids : List Text) → contains id (add_id j ids) ≡ (contains id ids || text_eq id j)
unfolding add_id
contains-add_one id j ids =
    by_if (λ x. contains id x ≡ (contains id ids || text_eq id j)) (contains j ids)
      (λ held. elim (Bool-cases (text_eq id j)) [
        | inr other ↦ ground (arith, other)
        | inl same ↦
            let here = subst (λ x. contains x ids ≡ true) (sym ((text_eq_iff id j).0 same)) held in
            ground (arith, here)
      ])
      (λ new. contains-append_one id j ids)

contains-ids_or_new :
    (id : Text) (o : Option (List Text)) → contains id (ids_or_new o) ≡ has_id id o
contains-ids_or_new id none = refl
contains-ids_or_new id (some ids) = refl

contains-delete_id : (id : Text) (ids : List Text) → contains id (delete_id id ids) ≡ false
unfolding delete_id
contains-delete_id id [] = refl
contains-delete_id id (j ∷ ids) =
    by_if (λ x. contains id x ≡ false) (text_eq id j) (λ h. contains-delete_id id ids)
      (λ h. ground (arith, contains-delete_id id ids))

module _ (cfg : Config) where
  has_id-set_or_delete :
      (id key : Text) (ids : List Text) (m : Dict (List Text))
      → has_id id (lookup key (set_or_delete cfg key (delete_id id ids) m)) ≡ false
  has_id-set_or_delete id key ids m = set_found (delete_id id ids) (contains-delete_id id ids)
    where
      set_found :
          (left : List Text)
          → contains id left ≡ false
          → has_id id (lookup key (set_or_delete cfg key left m)) ≡ false
      set_found [] h = rw (lookup-remove key key m, text_eq_refl key) refl
      set_found (j ∷ left) h = rw (lookup-insert key key (j ∷ left) m, text_eq_refl key) h

  -- After a revocation the entry of the browser does not hold the device.
  pub has_id-revoked :
      (key id : Text) (r : Relay) (o : Option (List Text))
      → lookup key r.authorizations ≡ o
      → has_id id (lookup key (revoked cfg key id r o).0.authorizations) ≡ false
  has_id-revoked key id r none e = rw e refl
  has_id-revoked key id r (some ids) e = has_id-set_or_delete id key ids r.authorizations

  pub has_id-authorize_browser :
      (user browser_id id : Text) (r : Relay)
      → has_id id (
          lookup
            (browser_authorization_key cfg user browser_id)
            (authorize_browser cfg user browser_id id r).0.authorizations)
        ≡ true
  unfolding authorize_browser
  has_id-authorize_browser user browser_id id r =
      let key = browser_authorization_key cfg user browser_id in
      let ids = add_id id (ids_or_new (lookup key r.authorizations)) in
      rw (lookup-insert key key ids r.authorizations, text_eq_refl key)
        (contains-add_id id (ids_or_new (lookup key r.authorizations)))

  browser_not_agent :
      (s : Source) → same_source s Source.browser ≡ true → same_source s Source.agent ≡ false
  browser_not_agent Source.browser h = refl
  browser_not_agent Source.agent h = absurd (ground arith)
  browser_not_agent Source.relay h = refl

  -- A browser without a session uses only what browserAuthorizations says.
  pub can_client_access_device-authorized :
      (r : Relay) (c : Client) (id : Text)
      → cfg.require_pairing ≡ true
      → is_browser c ≡ true
      → c.by_session ≡ false
      → authorized cfg r c id ≡ false
      → can_client_access_device cfg r c id ≡ false
  unfolding can_client_access_device
  can_client_access_device-authorized r c id required b s without =
      by_if (λ x. x ≡ false) (owned_by_other c.user_id (lookup (scoped c.user_id id) r.devices))
        (λ h. refl)
        (λ h.
          rw (without, required, browser_not_agent c.source b, b, s)
            (by_if (λ x. x ≡ false) (is_empty c.browser_id) (λ e. refl) (λ e. refl)))

  -- What authorizeBrowser adds, and that it adds nothing else.
  pub has_id-added :
      (user browser_id device_id key id : Text) (r : Relay)
      → has_id id (lookup key (authorize_browser cfg user browser_id device_id r).0.authorizations)
        ≡ (has_id id (lookup key r.authorizations)
            || (text_eq (browser_authorization_key cfg user browser_id) key
                && text_eq id device_id))
  unfolding authorize_browser
  has_id-added user browser_id device_id key id r =
      let mine = browser_authorization_key cfg user browser_id in
      let old = ids_or_new (lookup mine r.authorizations) in
      elim (Bool-cases (text_eq mine key)) [
        | inr other ↦
            rw (lookup-insert mine key (add_id device_id old) r.authorizations, other)
              (or_false (has_id id (lookup key r.authorizations)))
        | inl same ↦
            let at_key = ap (λ x. lookup x r.authorizations) ((text_eq_iff mine key).0 same) in
            rw (lookup-insert mine key (add_id device_id old) r.authorizations, same)
              (contains-add_one id device_id old
                ∙ ap (λ b. b || text_eq id device_id)
                    (contains-ids_or_new id (lookup mine r.authorizations) ∙ ap (has_id id) at_key))
      ]
