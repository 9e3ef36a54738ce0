-- ===== src/Relay/Valid.antt =====
-- What the maps `devices` and `clients` of apps/relay/index.js say of each other.
pub mod Agents
pub mod Announce
pub mod Handlers
pub mod Trace
pub mod Run
use voxhf.Protocol.Types.{Source, same_source}
use voxhf.Dict.Laws.{lookup-insert}
use voxhf.Relay.Access.{is_agent}
use voxhf.Dict.{insert, lookup, Dict}
use voxhf.Relay.{is_empty, set_client, scoped, Device, Relay, Client}
use voxhf.Prelude.{
  subst, text_eq_iff, ap, ◌∙◌, text_eq, sym, Bool-cases, ◌⊎◌, some_inj, Text, ◌∷◌, [], none, some,
  true, false, ◌≡◌, refl, inl, inr,
}

-- A device is known by its user and its id, and its socket is the connection of an agent of that user
-- that announced it last.
pub record Announced (clients : Dict Client) (k : Text) (d : Device) : Type 0 where
  pub key : k ≡ scoped d.user_id d.device_id
  pub named : is_empty d.device_id ≡ false
  pub owner : Client
  pub connected : lookup d.socket clients ≡ some owner
  pub agent : is_agent owner ≡ true
  pub owner_key : owner.device_key ≡ k
  pub owner_user : owner.user_id ≡ d.user_id
  pub owner_device : owner.device_id ≡ d.device_id

abbrev pub IsValid : Relay → Type 0
IsValid r = (k : Text) (d : Device) → lookup k r.devices ≡ some d → Announced r.clients k d

-- A client that is the same agent as before.
abbrev pub SameAgent : Client → Client → Type 0
SameAgent c c' =
    (c'.source ≡ c.source)
    × (c'.user_id ≡ c.user_id)
    × (c'.device_key ≡ c.device_key)
    × (c'.device_id ≡ c.device_id)

module _ (ws : Text) (c : Client) where
  -- The entry of a socket, when a socket's entry is replaced.
  insert-cases :
      (c' : Client) (m : Dict Client) (target : Text) {o : Client}
      → lookup target m ≡ some o
      → ((target ≡ ws) × (lookup target (insert ws c' m) ≡ some c'))
        ⊎ (lookup target (insert ws c' m) ≡ some o)
  insert-cases c' m target {o} e = elim (Bool-cases (text_eq ws target)) [
    | inl same ↦
        inl (sym ((text_eq_iff ws target).0 same), rw (lookup-insert ws target c' m, same) refl)
    | inr other ↦ inr (rw (lookup-insert ws target c' m, other) e)
  ]

  pub set_client-IsValid :
      (c' : Client) (r : Relay)
      → lookup ws r.clients ≡ some c
      → SameAgent c c'
      → IsValid r
      → IsValid (set_client ws c' r)
  set_client-IsValid c' r here same v k d e =
      let a = v k d e in
      elim (insert-cases c' r.clients d.socket a.connected) [
        | inr there ↦ record {
          key = a.key;
          named = a.named;
          owner = a.owner;
          connected = there;
          agent = a.agent;
          owner_key = a.owner_key;
          owner_user = a.owner_user;
          owner_device = a.owner_device;
        }
        | inl (at_ws, there) ↦
            let mine : a.owner ≡ c =
              some_inj (sym a.connected ∙ (ap (λ t. lookup t r.clients) at_ws ∙ here)) in
            record {
              key = a.key;
              named = a.named;
              owner = c';
              connected = there;
              agent =
                  subst (λ s. same_source s Source.agent ≡ true) (sym same.0)
                    (subst (λ (x : Client). is_agent x ≡ true) mine a.agent);
              owner_key = same.2 ∙ (sym (ap (λ (x : Client). x.device_key) mine) ∙ a.owner_key);
              owner_user = same.1 ∙ (sym (ap (λ (x : Client). x.user_id) mine) ∙ a.owner_user);
              owner_device =
                  same.3 ∙ (sym (ap (λ (x : Client). x.device_id) mine) ∙ a.owner_device);
            }
      ]
