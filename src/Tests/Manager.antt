-- ===== src/Tests/Manager.antt =====
-- The tunnel's manager on concrete agents.
use lem.Base.{◌≡◌, ◌↔◌, refl, true, some, Result, ok, err, client_error, [], ◌∷◌, if◌then◌else◌}
use lem.Text.{Text}
use lem.Text.Methods.{lit, ends_with, replace, replace_from, starts_with}
use lem.Tunnel.Manager.{
  connected, TunnelAgent, AuthState, TunnelManager, initial, is_running, signal_url_of, start,
  get_status, is_connected,
}
use lem.Tunnel.Manager.Enabled.{
  starts, stops, moves, run, has_agent, mode, run-enabled, start-once, get_status-relay,
  signal_url_of-ends,
}

abbrev pub agent : Text → TunnelAgent
agent url = record {
  state = connected;
  data_channel_state = lit "open";
  connection_mode = lit "relay";
  signal_url = url;
}

abbrev login : AuthState
login = record {
  jwt_token = lit "t";
  device_id = lit "d";
  signaling_url = lit "https://signal.lem.gg";
}

abbrev pub joins : Text → Text → Text → TunnelAgent × Result (Unit {0})
joins url device_id token = (agent url, ok tt)

abbrev fails : Text → Text → Text → TunnelAgent × Result (Unit {0})
fails url device_id token = (agent url, err (client_error 1))

abbrev pub running : TunnelManager
running = record { agent = some (agent (lit "wss://signal.lem.gg/signal")); is_enabled = true }

signal_url_of_test : signal_url_of (lit "https://signal.lem.gg") ≡ lit "wss://signal.lem.gg/signal"
unfolding signal_url_of replace replace_from ends_with starts_with
signal_url_of_test = refl

signal_url_of-ends_test :
    ends_with (lit "/signal") (signal_url_of (lit "https://signal.lem.gg")) ≡ true
signal_url_of-ends_test = signal_url_of-ends (lit "https://signal.lem.gg")

run-enabled_test :
    (run
      (starts joins (some login) ∷ moves (λ a. a) ∷ stops ∷ starts fails (some login) ∷ [])
      initial).is_enabled
    ≡ has_agent (
        run
          (starts joins (some login) ∷ moves (λ a. a) ∷ stops ∷ starts fails (some login) ∷ [])
          initial)
run-enabled_test =
    run-enabled
      (starts joins (some login) ∷ moves (λ a. a) ∷ stops ∷ starts fails (some login) ∷ [])

start-once_test :
    start fails (some login) running
    ≡ (if is_running running.agent then (ok tt, running) else (err (client_error 1), initial))
start-once_test = start-once fails login (client_error 1) running refl

get_status-relay_test :
    (mode (get_status (some login) running) ≡ lit "relay-ws")
    ↔ ((is_connected running ≡ true) × (lit "relay" ≡ lit "relay"))
get_status-relay_test =
    get_status-relay login (agent (lit "wss://signal.lem.gg/signal")) running refl
