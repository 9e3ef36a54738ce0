-- ===== src/VoiceRouter/Listeners.antt =====
-- What the two transports of a route report, and its timeout: `fail` and `listening`. A route that has
-- failed keeps its place in `routes`.
use voxhf.Dict.{lookup, insert}
use voxhf.VoiceRouter.{close_proxy, clear_active, is_host, Effect, Router, Route}
use voxhf.Prelude.{
  codes, ◌++◌, ◌-◌, ◌==◌, List, true, if◌then◌else◌, Option, Text, ◌∷◌, [], none, some,
}

abbrev pub failed_route : Route → Route
failed_route route = record route { settled = true; failed = true }

-- `settled || --remaining !== 0`, and what is done otherwise. `remaining` is positive until the route
-- is settled.
abbrev pub heard_from : Route → Route
heard_from route =
    if route.settled
    then route
    else if route.remaining == 1
    then record route { remaining = 0; settled = true }
    else record route { remaining = route.remaining - 1 }

module _ {Target : Type 0} where
  -- `clearIfActive()`
  abbrev pub clear_if_active : Text → Router Target → Router Target × List Effect
  clear_if_active host r =
      if is_host host r.active then clear_active (codes "voice endpoint failed") r else (r, [])

  abbrev pub and_close : Text → Router Target × List Effect → Router Target × List Effect
  and_close host (r, effects) =
      (r, effects ++ (close_proxy host (codes "voice endpoint failed") ∷ []))

  abbrev pub fail_found : Text → Option Route → Router Target → Router Target × List Effect
  fail_found host none r = (r, [])
  fail_found host (some route) r =
      let marked = record r { routes = insert host (failed_route route) r.routes } in
      if route.failed
      then (r, [])
      else if route.settled
      then and_close host (clear_if_active host marked)
      else and_close host (marked, [])

  -- `fail` of the route of `host`.
  unfoldable pub fail_route : Text → Router Target → Router Target × List Effect
  fail_route host r = fail_found host (lookup host r.routes) r

  abbrev pub listening_found : Text → Option Route → Router Target → Router Target
  listening_found host none r = r
  listening_found host (some route) r = record r {
    routes = insert host (heard_from route) r.routes;
  }

  unfoldable pub listening : Text → Router Target → Router Target
  listening host r = listening_found host (lookup host r.routes) r
