-- ===== src/Relay/Browsers/Guard.antt =====
-- Where routeBrowserCommand of apps/relay/index.js sends a command.
use voxhf.Relay.Transmit.{find_device}
use voxhf.Relay.Access.{can_client_access_device, is_browser}
use voxhf.Relay.Browsers.{
  route_to, whole, route_error, route_browser_command, forward_command, Incoming,
}
use voxhf.Json.{Bindings}
use voxhf.Relay.{Outcome, send, Device, Client, sent, Relay, Config, Env, Effect}
use voxhf.Prelude.{
  arith, ◌&&◌, not, ◌⊎◌, by_if, Option, All, Text, ◌∷◌, [], none, some, true, ◌≡◌, refl, inl, inr,
}

-- An answer to the socket that asked.
abbrev pub Answer : Text → Effect → Type 0
Answer ws e = (b : Bindings) × (e ≡ sent ws b)

pub All-send :
    (P : Effect → Type 0) (env : Env) (ws : Text) (b : Bindings)
    → P (sent ws b)
    → All P (send env ws b)
All-send P env ws b p = by_if (All P) (env.is_open ws) (λ h. (p, tt)) (λ h. tt)

module _ (env : Env) (cfg : Config) (r : Relay) (c : Client) where
  -- The device that the browser selected, when the browser may use it now.
  pub record Usable (d : Device) : Type 0 where
    pub selected : find_device r c.user_id c.selected_device_id ≡ some d
    pub online : d.online ≡ true
    pub opened : env.is_open d.socket ≡ true
    pub accessible : can_client_access_device cfg r c d.device_id ≡ true

  -- A command that goes to the device of a browser.
  abbrev pub Forwarded : Incoming → Effect → Type 0
  Forwarded m e = (d : Device) × Usable d × (e ≡ sent d.socket (whole m))

  abbrev Guarded : Text → Incoming → Outcome → Type 0
  Guarded ws m o = All (λ e. Answer ws e ⊎ Forwarded m e) o.1

  refused-Guarded :
      (ws code text : Text) (m : Incoming) → Guarded ws m (route_error env cfg ws code text m r)
  refused-Guarded ws code text m = All-send _ env ws _ (inl (_, refl))

  route_to-Guarded :
      (ws : Text) (m : Incoming) (o : Option Device)
      → find_device r c.user_id c.selected_device_id ≡ o
      → Guarded ws m (route_to env cfg ws c m o r)
  unfolding forward_command
  route_to-Guarded ws m none found = refused-Guarded ws _ _ m
  route_to-Guarded ws m (some d) found =
      by_if (Guarded ws m) (not (can_client_access_device cfg r c d.device_id))
        (λ refused. refused-Guarded ws _ _ m)
        (λ may.
          by_if (Guarded ws m) (not (d.online && env.is_open d.socket))
            (λ gone. refused-Guarded ws _ _ m)
            (λ here. All-send _ env d.socket _ (
              inr (
                d,
                record {
                  selected = found;
                  online = ground arith;
                  opened = ground arith;
                  accessible = ground arith;
                },
                refl,
              ))))

  route_command-Guarded :
      (ws : Text) (m : Incoming) → Guarded ws m (route_browser_command env cfg ws c m r)
  unfolding route_browser_command
  route_command-Guarded ws m =
      by_if (Guarded ws m) (not (is_browser c)) (λ refused. refused-Guarded ws _ _ m)
        (λ asked. route_to-Guarded ws m (find_device r c.user_id c.selected_device_id) refl)

  route_command-Usable :
      (ws : Text) (m : Incoming) (d : Device)
      → is_browser c ≡ true
      → Usable d
      → (route_browser_command env cfg ws c m r).1 ≡ sent d.socket (whole m) ∷ []
  unfolding route_browser_command forward_command
  route_command-Usable ws m d b u = rw (b, u.selected, u.accessible, u.online, u.opened) refl

  -- Whatever a socket asks, a command goes only to the device that the browser selected, while that
  -- is online, its socket is open and the browser may use it; everything else is an answer to the
  -- socket that asked. To such a device a browser's command goes unchanged, once, and with no answer.
  pub route_browser_command_guarded :
      (ws : Text) (m : Incoming)
      → All (λ e. Answer ws e ⊎ Forwarded m e) (route_browser_command env cfg ws c m r).1
        × ((d : Device)
            → is_browser c ≡ true
            → Usable d
            → (route_browser_command env cfg ws c m r).1 ≡ sent d.socket (whole m) ∷ [])
  route_browser_command_guarded ws m =
      (route_command-Guarded ws m, λ d b u. route_command-Usable ws m d b u)
