-- ===== src/VoiceRouter/Failed.antt =====
-- A route that has failed stays failed, and its address is not given out again.
use voxhf.VoiceRouter.Endpoint.{
  has_address, max_servers, Outcome, find_route, promised, supported_host, get_endpoint, open_route,
  new_route, address_of,
}
use voxhf.VoiceRouter.Session.{packet_in, client_gone, udp_reset, step}
use voxhf.VoiceRouter.Session
use voxhf.Dict.Laws.{lookup-insert}
use voxhf.VoiceRouter.Listeners.{
  listening, heard_from, fail_route, failed_route, fail_found, clear_if_active,
}
use voxhf.Dict.{count_values, insert, lookup, Dict}
use voxhf.VoiceRouter.{
  on_login, is_login, reset_udp_clients, learn_seed, pass_on, on_client_close, on_packet,
  on_client_packet, is_host, Effect, Router, Route, clear_active,
}
use voxhf.Prelude.{
  length, ◌∙◌, some_inj, leb, ◌∷◌, none, Option-cases, ◌&&◌, sym, subst, [], text_eq_iff, codes,
  text_eq, not, ◌≢◌, ◌==◌, ℕ, false, Bool, if◌then◌else◌, text_eq_refl, inr, inl, arith, true,
  Bool-cases, List, Text, some, refl, ◌≡◌,
}

by_test {ℓ κ} :
    {A : Type ℓ} (P : A → Type κ) (test : Bool) (x y : A)
    → (test ≡ true → P x)
    → P y
    → P (if test then x else y)
by_test P true x y p q = p refl
by_test P false x y p q = q

heard_from-failed : (route : Route) → route.failed ≡ true → (heard_from route).failed ≡ true
heard_from-failed route h =
    by_test (λ (x : Route). x.failed ≡ true) route.settled _ _ (λ up. h)
      (by_test (λ (x : Route). x.failed ≡ true) (route.remaining == 1) _ _ (λ last. h) h)

-- The route of `host` has failed.
record Failing (host : Text) (routes : Dict Route) : Type 0 where
  route : Route
  held : lookup host routes ≡ some route
  failed : route.failed ≡ true

-- The route of `host`, whenever `h` is this host.
Failing-insert :
    (host h : Text) (v : Route) (m : Dict Route)
    → Failing host m
    → ((route : Route) → lookup h m ≡ some route → route.failed ≡ true → v.failed ≡ true)
    → Failing host (insert h v m)
Failing-insert host h v m f keeps = elim (Bool-cases (text_eq h host)) [
  | inr other ↦ record {
    route = f.route;
    held = ground (arith, lookup-insert h host v m, f.held, other);
    failed = f.failed;
  }
  | inl same ↦
      let e : h ≡ host = (text_eq_iff h host).0 same in
      record {
        route = v;
        held = ground (arith, lookup-insert h host v m, same);
        failed = keeps f.route (subst (λ k. lookup k m ≡ some f.route) (sym e) f.held) f.failed;
      }
]

insert_failed :
    (host : Text) (v : Route) (m : Dict Route) → v.failed ≡ true → Failing host (insert host v m)
insert_failed host v m h = record {
  route = v;
  held = ground (arith, lookup-insert host host v m, text_eq_refl host);
  failed = h;
}

-- What can happen to the router: getEndpoint is asked for a host, a transport of a host listens or
-- fails, or a call of a proxy comes in.
pub data Event (Target : Type 0) : Type 0 where
  asked listens fails : Text → Event Target
  received : Session.Event Target → Event Target

module _ {Target : Type 0} where
  clear_active-routes :
      (reason : Text) (r : Router Target) → (clear_active reason r).0.routes ≡ r.routes
  unfolding clear_active
  clear_active-routes reason r = refl

  clear_if_active-routes :
      (h : Text) (r : Router Target) → (clear_if_active h r).0.routes ≡ r.routes
  clear_if_active-routes h r = elim (Bool-cases (is_host h r.active)) [
    | inl here ↦ rw here (clear_active-routes (codes "voice endpoint failed") r)
    | inr other ↦ rw other refl
  ]

  -- A call of a proxy changes no route.
  on_packet-routes :
      (h key : Text) (target : Target) (packet : List ℕ) (r : Router Target)
      → (on_packet h key target packet r).0.routes ≡ r.routes
  unfolding on_packet pass_on learn_seed
  on_packet-routes h key target packet r = ground arith

  on_login-routes :
      (h key : Text) (target : Target) (r : Router Target)
      → (on_login h key target r).0.routes ≡ r.routes
  unfolding on_login clear_active
  on_login-routes h key target r = refl

  step-routes : (e : Session.Event Target) (r : Router Target) → (step e r).routes ≡ r.routes
  unfolding step on_client_packet on_client_close reset_udp_clients
  step-routes (packet_in h key target packet) r = elim (Bool-cases (is_login packet)) [
    | inl login ↦
        let logged = on_login h key target r in
        rw (login, step, on_packet-routes h key target packet logged.0)
          (on_login-routes h key target r)
    | inr other ↦ rw (other, step) (on_packet-routes h key target packet r)
  ]
  step-routes (client_gone h key reason) r =
      elim (Bool-cases (is_host h r.active && text_eq r.active_key key)) [
        | inl here ↦ rw (here, step) (clear_active-routes reason r)
        | inr other ↦ rw (other, step) refl
      ]
  step-routes (udp_reset reason) r = clear_active-routes reason r

  fail_found-Failing :
      (host h : Text) (r : Router Target) (route : Route)
      → Failing host (insert h (failed_route route) r.routes)
      → (route.failed ≡ true → Failing host r.routes)
      → Failing host (fail_found h (some route) r).0.routes
  fail_found-Failing host h r route f before =
      let marked = record r { routes = insert h (failed_route route) r.routes } in
      let Kept : Router Target × List Effect → Type 0 = λ out. Failing host out.0.routes in
      by_test Kept route.failed _ _ before (
        by_test Kept route.settled _ _
          (λ up. subst (Failing host) (sym (clear_if_active-routes h marked)) f) f)

  fail_route-Failing :
      (host : Text) (r : Router Target) (route : Route)
      → lookup host r.routes ≡ some route
      → Failing host (fail_route host r).0.routes
  unfolding fail_route
  fail_route-Failing host r route held = rw held (
      fail_found-Failing host host r route (insert_failed host (failed_route route) r.routes refl)
        (λ failed. record { route = route; held = held; failed = failed }))

  fail_route-keeps :
      (host h : Text) (r : Router Target)
      → Failing host r.routes
      → Failing host (fail_route h r).0.routes
  unfolding fail_route
  fail_route-keeps host h r f = elim (Option-cases (lookup h r.routes)) [
    | inl new ↦ rw new f
    | inr (route, held) ↦ rw held (
        fail_found-Failing host h r route
          (Failing-insert host h (failed_route route) r.routes f (λ old there failed. refl))
          (λ failed. f))
  ]

  listening-keeps :
      (host h : Text) (r : Router Target)
      → Failing host r.routes
      → Failing host (listening h r).routes
  unfolding listening
  listening-keeps host h r f = elim (Option-cases (lookup h r.routes)) [
    | inl new ↦ rw new f
    | inr (route, held) ↦ rw held (
        Failing-insert host h (heard_from route) r.routes f (λ old there failed.
          heard_from-failed route
            (subst (λ (x : Route). x.failed ≡ true) (some_inj (sym there ∙ held)) failed)))
  ]

  module _ (sha256 : Text → List ℕ) where
    open_route-keeps :
        (host h : Text) (r : Router Target)
        → Failing host r.routes
        → lookup h r.routes ≡ none
        → Failing host (open_route sha256 h r).0.routes
    unfolding open_route
    open_route-keeps host h r f new =
        let Kept : Router Target × Outcome → Type 0 = λ out. Failing host out.0.routes in
        by_test Kept (leb max_servers (length r.routes)) _ _ (λ full. f)
          (by_test Kept (leb 1 (count_values (has_address (address_of sha256 h)) r.routes)) _ _
            (λ taken. f)
            (Failing-insert host h (new_route (address_of sha256 h)) r.routes f
              (λ old there failed. absurd (ground (arith, there, new)))))

    get_endpoint-keeps :
        (host h : Text) (r : Router Target)
        → Failing host r.routes
        → Failing host (get_endpoint sha256 h r).0.routes
    unfolding get_endpoint
    get_endpoint-keeps host h r f =
        let Kept : Router Target × Outcome → Type 0 = λ out. Failing host out.0.routes in
        by_test Kept (not (supported_host h)) _ _ (λ other. f)
          (by_test Kept r.closed _ _ (λ shut. f) found)
      where
        found : Failing host (find_route sha256 h r (lookup h r.routes)).0.routes
        found = elim (Option-cases (lookup h r.routes)) [
          | inl new ↦ rw new (open_route-keeps host h r f new)
          | inr (route, held) ↦ rw held f
        ]

    -- The router after one event.
    unfoldable pub next : Event Target → Router Target → Router Target
    next (asked h) r = (get_endpoint sha256 h r).0
    next (listens h) r = listening h r
    next (fails h) r = (fail_route h r).0
    next (received e) r = step e r

    unfoldable pub after : List (Event Target) → Router Target → Router Target
    after [] r = r
    after (e ∷ es) r = after es (next e r)

    next-keeps :
        (host : Text) (e : Event Target) (r : Router Target)
        → Failing host r.routes
        → Failing host (next e r).routes
    unfolding next
    next-keeps host (asked h) r f = get_endpoint-keeps host h r f
    next-keeps host (listens h) r f = listening-keeps host h r f
    next-keeps host (fails h) r f = fail_route-keeps host h r f
    next-keeps host (received e) r f = subst (Failing host) (sym (step-routes e r)) f

    after-keeps :
        (host : Text) (es : List (Event Target)) (r : Router Target)
        → Failing host r.routes
        → Failing host (after es r).routes
    unfolding after
    after-keeps host [] r f = f
    after-keeps host (e ∷ es) r f = after-keeps host es (next e r) (next-keeps host e r f)

    get_endpoint-Failing :
        (host a : Text) (r : Router Target)
        → Failing host r.routes
        → (get_endpoint sha256 host r).1 ≢ promised a
    unfolding get_endpoint
    get_endpoint-Failing host a r f =
        let Denied : Router Target × Outcome → Type 0 = λ out. out.1 ≢ promised a in
        by_test Denied (not (supported_host host)) _ _ (λ h e. cc)
          (by_test Denied r.closed _ _ (λ h e. cc) failed_denied)
      where
        failed_denied : (find_route sha256 host r (lookup host r.routes)).1 ≢ promised a
        failed_denied = rw (f.held, f.failed) (λ e. cc)

    -- Once the route of a host has failed, getEndpoint never promises an address for this host again,
    -- whatever hosts are asked for, listen or fail and whatever packets, closed clients and resets
    -- come in until then, in any order.
    pub fail_route-denied :
        (host a : Text) (es : List (Event Target)) (r : Router Target) (route : Route)
        → lookup host r.routes ≡ some route
        → (get_endpoint sha256 host (after es (fail_route host r).0)).1 ≢ promised a
    fail_route-denied host a es r route held =
        get_endpoint-Failing host a (after es (fail_route host r).0)
          (after-keeps host es (fail_route host r).0 (fail_route-Failing host r route held))
