-- ===== src/Relay/Connection.antt =====
-- A new connection of apps/relay/index.js: its entry, and what it is sent first. The upgrade has decided
-- who it is.
use voxhf.Relay.Messages.{create_rate_state}
use voxhf.Json.{str, undefined, Bindings}
use voxhf.Relay.{create_message, send, is_empty, set_client, Outcome, Relay, Env, Client, Config}
use voxhf.Protocol.Types.{MessageType, Source}
use voxhf.Prelude.{◌++◌, if◌then◌else◌, codes, Bool, Text, ℕ, ◌∷◌, []}

-- What authorizeUpgrade lets through.
pub record Decision : Type 0 where
  pub source : Source
  pub user_id : Text
  pub user_name : Text
  pub by_session : Bool
  pub browser_id : Text

abbrev pub new_client : ℕ → Decision → Client
new_client now d = record {
  source = d.source;
  user_id = d.user_id;
  by_session = d.by_session;
  browser_id = d.browser_id;
  device_id = [];
  device_key = [];
  device_name = [];
  selected_device_id = [];
  active_tx_device_id = [];
  active_tx_com = undefined;
  active_tx_started_at = 0;
  rate = create_rate_state now;
}

module _ (cfg : Config) where
  abbrev pub identity : Decision → Bindings
  identity d =
      (codes "userId", str d.user_id)
      ∷ (codes "userName", str (if is_empty d.user_name then d.user_id else d.user_name))
      ∷ (codes "relayVersion", str cfg.app_version)
      ∷ (codes "recommendedAgentVersion", str cfg.recommended_agent_version)
      ∷ ((if is_empty cfg.minimum_agent_version
            then []
            else (codes "minimumAgentVersion", str cfg.minimum_agent_version) ∷ [])
          ++ ((codes "downloadUrl", str cfg.update_download_url) ∷ []))

  -- The `connection` callback; `env.fresh_id` is the connection's id.
  unfoldable pub connection : Env → Text → Decision → Relay → Outcome
  connection env ws d r = (
    set_client ws (new_client env.now d) r,
    send env ws (create_message env MessageType.pong [] (codes "welcome-" ++ env.fresh_id))
        ++ send env ws (
            create_message env MessageType.relay_identity (identity d)
              (codes "identity-" ++ env.fresh_id)),
  )
