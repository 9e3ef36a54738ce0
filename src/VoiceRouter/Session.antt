-- ===== src/VoiceRouter/Session.antt =====
-- Which packets pass, and when the active server changes.
use voxhf.VoiceRouter.{
  reset_udp_clients, clear_active, on_login, on_client_close, is_login, on_client_packet, may_learn,
  close_proxy, reset_clients, client_closed, session_reset, stop_decoder, is_seed_packet, forwarded,
  seed_of, is_host, in_session, Effect, pass_on, on_packet, learn_seed, Router,
}
use voxhf.Prelude.{
  text_eq, Option-cases, ◌⊎◌, All, ◌∙◌, inr, length, arith, leb, inl, ◌&&◌, text_eq_iff, sym, ◌||◌,
  false, ap, Bool-cases, ◌++◌, true, Bool, ℕ, Option, Text, List, ◌∷◌, [], none, some, refl, ◌≡◌,
}

abbrev pub forwards : List Effect → Bool
forwards [] = false
forwards (forwarded packet key ∷ effects) = true
forwards (_ ∷ effects) = forwards effects

forwards-append : (xs ys : List Effect) → forwards (xs ++ ys) ≡ (forwards xs || forwards ys)
forwards-append [] ys = refl
forwards-append (forwarded packet key ∷ xs) ys = refl
forwards-append (stop_decoder host ∷ xs) ys = forwards-append xs ys
forwards-append (session_reset reason ∷ xs) ys = forwards-append xs ys
forwards-append (client_closed key reason ∷ xs) ys = forwards-append xs ys
forwards-append (reset_clients host reason ∷ xs) ys = forwards-append xs ys
forwards-append (close_proxy host reason ∷ xs) ys = forwards-append xs ys

is_host_eq : (host : Text) (active : Option Text) → is_host host active ≡ true → active ≡ some host
is_host_eq host none h = cc
is_host_eq host (some k) h = ap some ((text_eq_iff k host).0 h)

in_session_eq :
    (packet : List ℕ) (bytes : Option (List ℕ))
    → in_session packet bytes ≡ true
    → bytes ≡ some (seed_of packet)
in_session_eq packet none h = cc
in_session_eq packet (some bytes) h = ap some (sym ((text_eq_iff (seed_of packet) bytes).0 h))

-- What can happen to the router, one call at a time.
pub data Event (Target : Type 0) : Type 0 where
  packet_in : Text → Text → Target → List ℕ → Event Target
  client_gone : Text → Text → Text → Event Target
  udp_reset : Text → Event Target

module _ {Target : Type 0} where
  -- The state in which a packet of an active route passed.
  record Passed (host key : Text) (target : Target) (packet : List ℕ) (r : Router Target)
      : Type 0 where
    active : r.active ≡ some host
    key_held : r.active_key ≡ key
    target_held : r.active_target ≡ some target
    session : r.session_bytes ≡ some (seed_of packet)

  learn_seed-active :
      (key : Text) (packet : List ℕ) (r : Router Target)
      → (learn_seed key packet r).active ≡ r.active
  unfolding learn_seed
  learn_seed-active key packet r = elim (Bool-cases (may_learn key packet r)) [
    | inl new ↦ rw new
    | inr old ↦ rw old
  ]

  pass_on-Passed :
      (host key : Text) (target : Target) (packet : List ℕ) (r : Router Target)
      → r.active ≡ some host
      → forwards (pass_on key target packet r).1 ≡ true
      → Passed host key target packet (pass_on key target packet r).0
  unfolding pass_on
  pass_on-Passed host key target packet r a h =
      elim (Bool-cases (is_seed_packet packet && in_session packet r.session_bytes)) [
        | inl passes ↦ rw passes (record {
          active = a;
          key_held = refl;
          target_held = refl;
          session = in_session_eq packet r.session_bytes (ground arith);
        })
        | inr refused ↦ absurd (ground arith)
      ]

  on_packet-Passed :
      (host key : Text) (target : Target) (packet : List ℕ) (r : Router Target)
      → forwards (on_packet host key target packet r).1 ≡ true
      → Passed host key target packet (on_packet host key target packet r).0
  unfolding on_packet
  on_packet-Passed host key target packet r h =
      elim (Bool-cases (is_host host r.active && leb 16 (length packet))) [
        | inl here ↦ rw here (
            pass_on-Passed host key target packet (learn_seed key packet r)
              (learn_seed-active key packet r ∙ is_host_eq host r.active (ground arith))
              (rw here at h))
        | inr other ↦ absurd (ground arith)
      ]

  on_login-quiet :
      (host key : Text) (target : Target) (r : Router Target)
      → forwards (on_login host key target r).1 ≡ false
  unfolding on_login clear_active
  on_login-quiet host key target r = elim (Option-cases r.active) [
    | inl idle ↦ rw idle refl
    | inr (h, talking) ↦ rw talking refl
  ]

  on_client_packet-Passed :
      (host key : Text) (target : Target) (packet : List ℕ) (r : Router Target)
      → forwards (on_client_packet host key target packet r).1 ≡ true
      → Passed host key target packet (on_client_packet host key target packet r).0
  unfolding on_client_packet
  on_client_packet-Passed host key target packet r h = elim (Bool-cases (is_login packet)) [
    | inl login ↦
        let logged = on_login host key target r in
        let rest = on_packet host key target packet logged.0 in
        let joined : forwards (logged.1 ++ rest.1) ≡ true = rw login at h in
        rw login (
          on_packet-Passed host key target packet logged.0
            (ground (arith, forwards-append logged.1 rest.1, on_login-quiet host key target r)))
    | inr other ↦ rw other (on_packet-Passed host key target packet r (rw other at h))
  ]

  -- A packet reaches the rest of the proxy only from the route that is active, and only if its bytes
  -- 4 to 11 are those of the session; its flow and its target are then the active ones.
  pub on_client_packet-session :
      (host key : Text) (target : Target) (packet : List ℕ) (r : Router Target)
      → forwards (on_client_packet host key target packet r).1 ≡ true
      → let r' = (on_client_packet host key target packet r).0 in
        (r'.active ≡ some host)
        × (r'.active_key ≡ key)
        × (r'.active_target ≡ some target)
        × (r'.session_bytes ≡ some (seed_of packet))
  on_client_packet-session host key target packet r h =
      let p = on_client_packet-Passed host key target packet r h in
      (p.active, p.key_held, p.target_held, p.session)

  pass_on-active :
      (key : Text) (target : Target) (packet : List ℕ) (r : Router Target)
      → (pass_on key target packet r).0.active ≡ r.active
  unfolding pass_on
  pass_on-active key target packet r =
      elim (Bool-cases (is_seed_packet packet && in_session packet r.session_bytes)) [
        | inl passes ↦ rw passes
        | inr refused ↦ rw refused
      ]

  on_packet-active :
      (host key : Text) (target : Target) (packet : List ℕ) (r : Router Target)
      → (on_packet host key target packet r).0.active ≡ r.active
  unfolding on_packet
  on_packet-active host key target packet r =
      elim (Bool-cases (is_host host r.active && leb 16 (length packet))) [
        | inl here ↦ rw here (
            pass_on-active key target packet (learn_seed key packet r)
            ∙ learn_seed-active key packet r)
        | inr other ↦ rw other
      ]

  unfoldable pub step : Event Target → Router Target → Router Target
  step (packet_in host key target packet) r = (on_client_packet host key target packet r).0
  step (client_gone host key reason) r = (on_client_close host key reason r).0
  step (udp_reset reason) r = (reset_udp_clients reason r).0

  unfoldable pub run : List (Event Target) → Router Target → Router Target
  run [] r = r
  run (e ∷ es) r = run es (step e r)

  abbrev pub NoLogin : Event Target → Type 0
  NoLogin (packet_in host key target packet) = is_login packet ≡ false
  NoLogin _ = Unit

  step-keeps :
      (e : Event Target) (r : Router Target)
      → NoLogin e
      → ((step e r).active ≡ r.active) ⊎ ((step e r).active ≡ none)
  unfolding step on_client_packet on_client_close reset_udp_clients clear_active
  step-keeps (packet_in host key target packet) r h =
      inl (rw (h, step) (on_packet-active host key target packet r))
  step-keeps (client_gone host key reason) r h =
      elim (Bool-cases (is_host host r.active && text_eq r.active_key key)) [
        | inl here ↦ inr (rw (here, step))
        | inr other ↦ inl (rw (other, step))
      ]
  step-keeps (udp_reset reason) r h = inr refl

  -- Without a login, no packet, however late, makes another server active: the active one stays, or
  -- there is none any more.
  pub run-keeps :
      (es : List (Event Target)) (r : Router Target)
      → All NoLogin es
      → ((run es r).active ≡ r.active) ⊎ ((run es r).active ≡ none)
  unfolding run
  run-keeps [] r h = inl refl
  run-keeps (e ∷ es) r h = elim (run-keeps es (step e r) h.1) [
    | inr gone ↦ inr gone
    | inl kept ↦ elim (step-keeps e r h.0) [
      | inl same ↦ inl (kept ∙ same)
      | inr gone ↦ inr (kept ∙ gone)
    ]
  ]
