-- ===== src/Relay/Access.antt =====
-- Which browser may use which device: canClientAccessDevice, authorizeBrowser,
-- revokeBrowserAuthorization and the keys of browserAuthorizations in apps/relay/index.js.
pub mod Laws
use voxhf.Protocol.Types.{same_source, Source}
use voxhf.Dict.{remove, insert, lookup, Dict}
use voxhf.Relay.{
  stored_pairing, is_empty, dropped_pairing, Outcome, Effect, scoped, Relay, Device, Config, Client,
}
use voxhf.Prelude.{
  ◌||◌, ◌++◌, ◌&&◌, text_eq, not, if◌then◌else◌, any, codes, List, Bool, Text, Option, ◌∷◌, [],
  none, some, true, false,
}

-- DEFAULT_USER_ID
abbrev pub default_user_id : Text
default_user_id = codes "default"

abbrev pub contains : Text → List Text → Bool
contains id ids = any (text_eq id) ids

-- `set.add(id)` and `set.delete(id)`
unfoldable pub add_id : Text → List Text → List Text
add_id id ids = if contains id ids then ids else ids ++ (id ∷ [])

unfoldable pub delete_id : Text → List Text → List Text
delete_id id [] = []
delete_id id (j ∷ ids) = if text_eq id j then delete_id id ids else j ∷ delete_id id ids

-- `map.get(key)?.has(id) === true`
abbrev pub has_id : Text → Option (List Text) → Bool
has_id id none = false
has_id id (some ids) = contains id ids

abbrev pub ids_or_new : Option (List Text) → List Text
ids_or_new none = []
ids_or_new (some ids) = ids

abbrev pub owned_by_other : Text → Option Device → Bool
owned_by_other user none = false
owned_by_other user (some d) = not (text_eq d.user_id user)

abbrev pub is_browser : Client → Bool
is_browser c = same_source c.source Source.browser

abbrev pub is_agent : Client → Bool
is_agent c = same_source c.source Source.agent

module _ (cfg : Config) where
  abbrev pub browser_authorization_key : Text → Text → Text
  browser_authorization_key user browser_id = cfg.sha256 (scoped user browser_id)

  abbrev pub unscoped_browser_authorization_key : Text → Text
  unscoped_browser_authorization_key browser_id = cfg.sha256 browser_id

  -- What browserAuthorizations says of a browser and a device.
  unfoldable pub authorized : Relay → Client → Text → Bool
  authorized r c id =
      has_id id (lookup (browser_authorization_key c.user_id c.browser_id) r.authorizations)
      || (text_eq c.user_id default_user_id
          && has_id id (lookup (unscoped_browser_authorization_key c.browser_id) r.authorizations))

  unfoldable pub can_client_access_device : Relay → Client → Text → Bool
  can_client_access_device r c id =
      if owned_by_other c.user_id (lookup (scoped c.user_id id) r.devices)
      then false
      else if not cfg.require_pairing
      then true
      else if is_agent c && text_eq c.device_id id
      then true
      else if is_browser c && c.by_session
      then true
      else if not (is_browser c) || is_empty c.browser_id
      then false
      else authorized r c id

  unfoldable pub authorize_browser : Text → Text → Text → Relay → Outcome
  authorize_browser user browser_id device_id r =
      let key = browser_authorization_key user browser_id in
      let ids = add_id device_id (ids_or_new (lookup key r.authorizations)) in
      (
        record r { authorizations = insert key ids r.authorizations },
        stored_pairing user browser_id device_id ∷ [],
      )

  -- `if (existing.size) map.set(key, existing); else map.delete(key)`
  abbrev pub set_or_delete : Text → List Text → Dict (List Text) → Dict (List Text)
  set_or_delete key [] m = remove key m
  set_or_delete key (id ∷ ids) m = insert key (id ∷ ids) m

  abbrev pub revoked : Text → Text → Relay → Option (List Text) → Relay × Bool
  revoked key device_id r none = (r, false)
  revoked key device_id r (some ids) = (
    record r { authorizations = set_or_delete key (delete_id device_id ids) r.authorizations },
    true,
  )

  unfoldable pub revoke_browser_authorization_by_hash : Text → Text → Relay → Relay × Bool
  revoke_browser_authorization_by_hash browser_hash device_id r =
      revoked browser_hash device_id r (lookup browser_hash r.authorizations)

  abbrev pub dropped_if : Bool → Text → Text → Text → List Effect
  dropped_if changed user browser_id device_id =
      if changed then dropped_pairing user browser_id device_id ∷ [] else []

  -- The code tells the store only when there was an entry for the browser.
  unfoldable pub revoke_browser_authorization : Text → Text → Text → Relay → Outcome
  revoke_browser_authorization user browser_id device_id r =
      let key = browser_authorization_key user browser_id in
      let (r', changed) = revoked key device_id r (lookup key r.authorizations) in
      (r', dropped_if changed user browser_id device_id)
