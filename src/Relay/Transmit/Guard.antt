-- ===== src/Relay/Transmit/Guard.antt =====
-- Where handleBrowserTxAudio of apps/relay/index.js sends a frame.
use voxhf.Relay.Access.{can_client_access_device}
use voxhf.Dict.{lookup}
use voxhf.Relay.Browsers.Guard.{All-send}
use voxhf.Json.{Bindings}
use voxhf.Relay.Transmit.{
  usable, tx_audio_to, handle_browser_tx_audio, stop_tx_at, find_device, tx_packet_magic, stopped,
  stop_browser_tx, is_tx_frame,
}
use voxhf.Relay.{
  is_empty, scoped, send, sent_audio, Outcome, Effect, Device, Client, Relay, Config, Env,
}
use voxhf.Prelude.{
  ◌-◌, ltb→lt, ltb, text_eq, length-drop, ◌||◌, take-append-drop, not, arith, subst, Bool, take,
  text_eq_iff, ap, and_true, ◌&&◌, length, ◌+◌, drop, by_if, ◌≤◌, ◌++◌, ◌≢◌, All, Text, Option, ℕ,
  List, [], none, some, true, false, ◌≡◌, refl,
}

not-false : (b : Bool) → not b ≡ false → b ≡ true
not-false b h = ground arith

is_tx_frame-marked :
    (frame : List ℕ)
    → is_tx_frame frame ≡ true
    → (frame ≡ tx_packet_magic ++ drop 4 frame) × (1 ≤ length (drop 4 frame))
is_tx_frame-marked frame h =
    let (long, same) = and_true (ltb 4 (length frame)) (text_eq (take 4 frame) tx_packet_magic) h in
    (
      subst (λ x. x ≡ tx_packet_magic ++ drop 4 frame) (take-append-drop 4 frame)
          (ap (λ x. x ++ drop 4 frame) ((text_eq_iff (take 4 frame) tx_packet_magic).0 same)),
      omega (arith, length-drop 4 frame, ltb→lt 4 (length frame) long),
    )

module _ (env : Env) (cfg : Config) (r : Relay) (c : Client) (frame : List ℕ) where
  -- What holds when a browser's audio goes on to a device: the transmission runs, to the device that
  -- is selected, within its time, the browser may use that device, and the frame is marked.
  pub record OnAir (d : Device) (samples : List ℕ) : Type 0 where
    pub running : c.active_tx_device_id ≢ []
    pub selected : c.active_tx_device_id ≡ c.selected_device_id
    pub in_time : env.now ≤ c.active_tx_started_at + cfg.max_remote_tx_ms
    pub found : lookup (scoped c.user_id c.active_tx_device_id) r.devices ≡ some d
    pub online : d.online ≡ true
    pub opened : env.is_open d.socket ≡ true
    pub accessible : can_client_access_device cfg r c d.device_id ≡ true
    pub marked : frame ≡ tx_packet_magic ++ samples
    pub some_samples : 1 ≤ length samples

  -- An effect of a frame: no audio, or the samples to the device.
  abbrev pub OnAirOnly : Effect → Type 0
  OnAirOnly (sent_audio target samples) = (d : Device) × OnAir d samples × (target ≡ d.socket)
  OnAirOnly _ = Unit

  abbrev Guarded : Outcome → Type 0
  Guarded o = All OnAirOnly o.1

  send-OnAirOnly : (ws : Text) (b : Bindings) → All OnAirOnly (send env ws b)
  send-OnAirOnly ws b = All-send OnAirOnly env ws b tt

  stop_at-Guarded : (o : Option Device) → All OnAirOnly (stop_tx_at env o)
  stop_at-Guarded none = tt
  stop_at-Guarded (some d) =
      by_if (All OnAirOnly) (d.online && env.is_open d.socket) (λ h. send-OnAirOnly d.socket _)
        (λ h. tt)

  stop-Guarded : (ws : Text) → Guarded (stopped env cfg ws r (stop_browser_tx env r c))
  unfolding stop_browser_tx
  stop-Guarded ws = stop_at-Guarded (find_device r c.user_id c.active_tx_device_id)

  -- The tests before the device is looked up.
  record Admitted : Type 0 where
    running : c.active_tx_device_id ≢ []
    selected : c.active_tx_device_id ≡ c.selected_device_id
    in_time : env.now ≤ c.active_tx_started_at + cfg.max_remote_tx_ms
    marked : frame ≡ tx_packet_magic ++ drop 4 frame
    some_samples : 1 ≤ length (drop 4 frame)

  audio_to-Guarded :
      (ws : Text) (o : Option Device)
      → lookup (scoped c.user_id c.active_tx_device_id) r.devices ≡ o
      → Admitted
      → Guarded (tx_audio_to env cfg ws c frame (usable env cfg r c o) r)
  audio_to-Guarded ws none found a = stop-Guarded ws
  audio_to-Guarded ws (some d) found a =
      by_if (λ x. Guarded (tx_audio_to env cfg ws c frame x r))
        (d.online && env.is_open d.socket && can_client_access_device cfg r c d.device_id)
        (λ may.
          by_if (All OnAirOnly) (env.is_open d.socket)
            (λ o. (
              (
                d,
                record {
                  running = a.running;
                  selected = a.selected;
                  in_time = a.in_time;
                  found = found;
                  online = ground arith;
                  opened = ground arith;
                  accessible = ground arith;
                  marked = a.marked;
                  some_samples = a.some_samples;
                },
                refl,
              ),
              tt,
            ))
            (λ h. tt))
        (λ refused. stop-Guarded ws)

  not_empty : (s : Text) → is_empty s ≡ false → s ≢ []
  not_empty s h e = ground (arith, e)

  -- Audio of a browser reaches a socket only as the samples of a marked frame that has some, at the
  -- device to which the browser transmits, while that device is also the selected one, the
  -- transmission is within its time, the device is online with an open socket and the browser may
  -- use it.
  pub handle_browser_tx_audio_guarded :
      (ws : Text) → All OnAirOnly (handle_browser_tx_audio env cfg ws c frame r).1
  unfolding handle_browser_tx_audio
  handle_browser_tx_audio_guarded ws =
      by_if Guarded
        (is_empty c.active_tx_device_id || not (text_eq c.active_tx_device_id c.selected_device_id))
        (λ h. tt)
        λ on.
          by_if Guarded (ltb cfg.max_remote_tx_ms (env.now - c.active_tx_started_at))
            (λ h. stop-Guarded ws)
            λ time.
              by_if Guarded (not (is_tx_frame frame)) (λ h. (tt, tt))
                λ is_tx.
                  let marks = is_tx_frame-marked frame (not-false _ is_tx) in
                  audio_to-Guarded ws _ refl (record {
                    running = not_empty c.active_tx_device_id (ground arith);
                    selected =
                        (text_eq_iff c.active_tx_device_id c.selected_device_id).0 (ground arith);
                    in_time = ground arith;
                    marked = marks.0;
                    some_samples = marks.1;
                  })
