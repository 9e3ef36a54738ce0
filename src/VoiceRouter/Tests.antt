-- ===== src/VoiceRouter/Tests.antt =====
-- Runs of the router, and its theorems at concrete inputs.
use voxhf.VoiceRouter.Failed.{fail_route-denied, listens, asked, received, fails, after}
use voxhf.VoiceRouter.Failed
use voxhf.VoiceRouter.Listeners.{fail_route}
use voxhf.VoiceRouter.Session.{
  step, run-keeps, on_client_packet-session, packet_in, NoLogin, run, forwards, Event,
}
use voxhf.VoiceRouter.Reserved.{get_endpoint-Reserved, Reserved}
use voxhf.VoiceRouter.Endpoint.{
  open_route, promised, new_route, has_address, supported_host, get_endpoint,
}
use voxhf.VoiceRouter.{
  reset_udp_clients, on_client_close, on_packet, pass_on, learn_seed, on_login, clear_active,
  is_seed_packet, is_setup, seed_of, is_login, initial, on_client_packet, Router,
}
use voxhf.Dict.{insert, lookup, count_values}
use voxhf.Prelude.{
  ◌≢◌, ◌≤◌, ◌++◌, false, ◌⊎◌, ℕ, true, codes, arith, text_eq, Text, List, All, ◌∷◌, [], none, some,
  refl, ◌≡◌,
}

program : Unit {0}
unfolding text_eq is_login is_setup is_seed_packet clear_active on_login learn_seed pass_on
    on_packet on_client_packet on_client_close reset_udp_clients step run supported_host open_route
    get_endpoint lookup insert count_values
program = tt

abbrev seed : List ℕ
seed = 9 ∷ 8 ∷ 7 ∷ 6 ∷ 5 ∷ 4 ∷ 3 ∷ 2 ∷ []

abbrev zeros : List ℕ
zeros = 0 ∷ 0 ∷ 0 ∷ 0 ∷ 0 ∷ 0 ∷ 0 ∷ 0 ∷ []

abbrev tail : List ℕ
tail = 0 ∷ 0 ∷ 0 ∷ 0 ∷ []

abbrev login : List ℕ
login = 244 ∷ 190 ∷ 3 ∷ 0 ∷ (zeros ++ tail)

abbrev setup : List ℕ
setup = 240 ∷ 190 ∷ 5 ∷ 0 ∷ (seed ++ tail)

abbrev rome : Text
rome = codes "ts-1.eu.ivao.aero"

abbrev paris : Text
paris = codes "ts-2.eu.ivao.aero"

abbrev flow : Text
flow = codes "127.1.2.3/flow"

abbrev Happening : Type 0
Happening = Event ℕ

-- A login, then the packet that gives the session its seed.
abbrev opening : List Happening
opening = packet_in rome flow 1 login ∷ packet_in rome flow 1 setup ∷ []

abbrev talking : Router ℕ
talking = record {
  routes = [];
  active = some rome;
  active_key = flow;
  active_target = some 1;
  session_bytes = some seed;
  closed = false;
}

opening_runs : run opening initial ≡ talking
unfolding program
opening_runs = refl

setup_passes : forwards (on_client_packet rome flow 1 setup talking).1 ≡ true
unfolding program
setup_passes = refl

on_client_packet-session_example :
    let r' = (on_client_packet rome flow 1 setup talking).0 in
    (r'.active ≡ some rome)
    × (r'.active_key ≡ flow)
    × (r'.active_target ≡ some 1)
    × (r'.session_bytes ≡ some (seed_of setup))
on_client_packet-session_example = on_client_packet-session rome flow 1 setup talking setup_passes

abbrev late : List Happening
late = packet_in paris flow 2 setup ∷ packet_in rome flow 1 setup ∷ []

late-NoLogin : All NoLogin late
unfolding program
late-NoLogin = (refl, (refl, tt))

run-keeps_example :
    ((run late talking).active ≡ talking.active) ⊎ ((run late talking).active ≡ none)
run-keeps_example = run-keeps late talking late-NoLogin

abbrev digest : Text → List ℕ
digest host = 1 ∷ 2 ∷ 3 ∷ []

endpoint_runs : (get_endpoint digest rome talking).1 ≡ promised (codes "127.65.2.4")
unfolding program
endpoint_runs = refl

hosts :
    (supported_host rome ≡ true)
    × (supported_host (codes "ts-1.eu.ivao.aero.example") ≡ false)
    × (supported_host (codes "ts-.eu.ivao.aero") ≡ false)
unfolding program
hosts = (refl, refl, refl)

abbrev with_paris : Router ℕ
with_paris = record talking { routes = (paris, new_route (codes "127.64.0.1")) ∷ [] }

one_at_most : (a : Text) → count_values (has_address a) with_paris.routes ≤ 1
unfolding count_values
one_at_most a = ground arith

with_paris-Reserved : Reserved digest with_paris
with_paris-Reserved = record { few = omega arith; distinct = one_at_most }

paris_found : lookup paris with_paris.routes ≡ some (new_route (codes "127.64.0.1"))
unfolding program
paris_found = refl

get_endpoint-Reserved_example :
    Reserved digest (get_endpoint digest rome with_paris).0
    × (lookup paris (get_endpoint digest rome with_paris).0.routes
        ≡ some (new_route (codes "127.64.0.1")))
get_endpoint-Reserved_example =
    get_endpoint-Reserved digest rome paris with_paris with_paris-Reserved paris_found

-- Paris is heard from and asked for, then Rome, where a packet comes in and which fails.
abbrev later : List (Failed.Event ℕ)
later =
    listens paris
    ∷ asked paris
    ∷ asked rome
    ∷ listens rome
    ∷ received (packet_in rome (codes "k") 1 [])
    ∷ fails rome
    ∷ []

fail_route-denied_example :
    (get_endpoint digest paris (after digest later (fail_route paris with_paris).0)).1
    ≢ promised (codes "127.65.2.4")
fail_route-denied_example =
    fail_route-denied digest paris (codes "127.65.2.4") later with_paris
      (new_route (codes "127.64.0.1")) paris_found
