-- ===== src/EndToEnd/Status.antt =====
-- server/app/tunnel/manager.py over server/app/tunnel/webrtc_client.py: what the status shows of the
-- agent that the manager started.
use lem.Base.{
  ℕ, ◌≡◌, refl, ap, ◌∙◌, true, false, none, some, List, [], ◌∷◌, length, Result, ok, err, Exn, All,
  arith, seq_eq, nat_beq,
}
use lem.Text.{Text}
use lem.Text.Methods.{lit, truthy, ends_with, starts_with}
use lem.Tunnel.Manager
use lem.Tunnel.Manager.Enabled.{signal_url_of-ends}
use lem.Tunnel.Manager.{
  ConnectionState, connecting, connected, number, AuthState, TunnelManager, is_running,
  signal_url_of, Status, active, get_status,
}
use lem.Tunnel.Agent.State
use lem.Tunnel.Agent.State.{Mode, webrtc, relay, get_data_channel_state, is_connected}
use lem.Tunnel.Agent.Reconnect.{
  Outcome, answered, Ending, returns, cancelled, raises, begin_reconnect, connect,
  connect_signaling, wake,
}
use lem.Tunnel.Agent.Messages.{or_else}
use lem.Tunnel.Agent.Fallback.{IsReady, Fails, wakes, wakes-falls_back}

-- `get_connection_mode`
abbrev pub mode_text : Mode → Text
mode_text webrtc = lit "webrtc"
mode_text relay = lit "relay"

-- What the manager asks an agent for.
abbrev pub view : State.TunnelAgent → Manager.TunnelAgent
view a = record {
  state = a.state;
  data_channel_state = get_data_channel_state a;
  connection_mode = mode_text a.connection_mode;
  signal_url = or_else a.signal_url [];
}

-- How awaiting a coroutine ends.
abbrev pub ended : Ending → Result (Unit {0})
ended returns = ok tt
ended cancelled = err (Exn.foreign 0)
ended (raises e) = err e

module _ (openwebui : Result Text) (local_server_url relay_url : Text) (outcome : Outcome) where
  -- A new agent that connects.
  abbrev pub made : Text → Text → Text → Ending × State.TunnelAgent
  made url device_id token =
      connect url device_id token none none outcome
        (State.init openwebui local_server_url relay_url)

  abbrev pub connects_with : Text → Text → Text → Manager.TunnelAgent × Result (Unit {0})
  connects_with url device_id token =
      (view (made url device_id token).1, ended (made url device_id token).0)

module _ (openwebui : Result Text) (local_server_url relay_url device_id token : Text) (n : ℕ)
    (url : Text) (url_given : truthy url ≡ true) (device_given : truthy device_id ≡ true)
    (token_given : truthy token ≡ true) where
  abbrev joined : State.TunnelAgent
  joined = (made openwebui local_server_url relay_url (answered n) url device_id token).1

  joined-returns :
      (made openwebui local_server_url relay_url (answered n) url device_id token).0 ≡ returns
  unfolding connect connect_signaling State.init State.set_state
  joined-returns = ground (arith, url_given, device_given, token_given)

  joined-fields :
      (joined.state ≡ connecting)
      × (joined.connection_mode ≡ webrtc)
      × (get_data_channel_state joined ≡ lit "none")
      × (joined.webrtc_attempts ≡ 0)
      × (joined.max_webrtc_attempts ≡ 3)
  unfolding connect connect_signaling State.init State.set_state get_data_channel_state
  joined-fields = ground (arith, url_given, device_given, token_given)

  reconnecting-IsReady : truthy relay_url ≡ true → IsReady (begin_reconnect joined)
  unfolding connect connect_signaling State.init State.set_state begin_reconnect
  reconnecting-IsReady r = record {
    sleeps = ground (arith, url_given, device_given, token_given);
    goes_on = ground (arith, url_given, device_given, token_given);
    complete = ground (arith, url_given, device_given, token_given);
    relayed = ground (arith, url_given, device_given, token_given, r);
  }

  reconnecting-attempts :
      ((begin_reconnect joined).webrtc_attempts ≡ 0)
      × ((begin_reconnect joined).max_webrtc_attempts ≡ 3)
  unfolding connect connect_signaling State.init State.set_state begin_reconnect
  reconnecting-attempts = ground (arith, url_given, device_given, token_given)

ends_with-truthy : (t : Text) → ends_with (lit "/signal") t ≡ true → truthy t ≡ true
unfolding ends_with starts_with
ends_with-truthy [] h = cc
ends_with-truthy (c ∷ cs) h = refl

signal_url_of-truthy : (url : Text) → truthy (signal_url_of url) ≡ true
signal_url_of-truthy url = ends_with-truthy (signal_url_of url) (signal_url_of-ends url)

start-joins :
    (connect : Text → Text → Text → Manager.TunnelAgent × Result (Unit {0})) (auth : AuthState)
    (m : TunnelManager)
    → is_running m.agent ≡ false
    → (connect (signal_url_of auth.signaling_url) auth.device_id auth.jwt_token).1 ≡ ok tt
    → Manager.start connect (some auth) m ≡ (
      ok tt,
      record m {
        agent = some (connect (signal_url_of auth.signaling_url) auth.device_id auth.jwt_token).0;
        is_enabled = true;
      },
    )
unfolding Manager.start
start-joins connect auth m idle e = rw (idle, e) refl

shown_connecting :
    (auth : AuthState) (a : State.TunnelAgent) (m : TunnelManager)
    → a.state ≡ connecting
    → a.connection_mode ≡ webrtc
    → get_data_channel_state a ≡ lit "none"
    → get_status (some auth) (record m { agent = some (view a); is_enabled = true })
      ≡ active (lit "connecting") auth.device_id connecting (lit "none") (lit "webrtc")
unfolding get_status
shown_connecting auth a m s w d = rw (d, s, w) refl

connected-state : (s : ConnectionState) → nat_beq (number s) 2 ≡ true → s ≡ connected
connected-state ConnectionState.disconnected h = cc
connected-state connecting h = cc
connected-state connected h = refl
connected-state ConnectionState.failed h = cc
connected-state ConnectionState.closed h = cc

shown_over_relay :
    (auth : AuthState) (a : State.TunnelAgent) (m : TunnelManager)
    → a.connection_mode ≡ relay
    → is_connected a ≡ true
    → get_status (some auth) (record m { agent = some (view a) })
      ≡ active (lit "relay-ws") auth.device_id connected (get_data_channel_state a) (lit "relay")
unfolding get_status is_connected
shown_over_relay auth a m r c = let s = connected-state a.state c in rw (s, r) refl

module _ (openwebui : Result Text) (local_server_url relay_url : Text) (n : ℕ)
    (auth : AuthState) where
  abbrev pub started : State.TunnelAgent
  started =
      (made openwebui local_server_url relay_url (answered n) (signal_url_of auth.signaling_url)
        auth.device_id auth.jwt_token).1

  -- The agent behind a broken signaling WebSocket and the sleeps that follow.
  abbrev pub fallen_back : List Outcome → ℕ → State.TunnelAgent
  fallen_back outcomes k =
      wake openwebui (answered k) (wakes openwebui outcomes (begin_reconnect started))

  -- A manager without a running agent starts one, for a login whose device and token are given, and
  -- the signaling server lets it in: the tunnel is enabled and shown as connecting. Then the
  -- signaling WebSocket breaks, the server refuses the agent three times, or does not answer in time,
  -- and the relay answers next: the tunnel is shown as connected over the relay.
  pub start-falls_back :
      (outcomes : List Outcome) (k : ℕ) (m : TunnelManager)
      → is_running m.agent ≡ false
      → truthy auth.device_id ≡ true
      → truthy auth.jwt_token ≡ true
      → truthy relay_url ≡ true
      → All Fails outcomes
      → length outcomes ≡ 3
      → let r =
          Manager.start
            (connects_with openwebui local_server_url relay_url (answered n))
            (some auth)
            m in
        let a = fallen_back outcomes k in
        (r ≡ (ok tt, record m { agent = some (view started); is_enabled = true }))
        × (get_status (some auth) r.1
            ≡ active (lit "connecting") auth.device_id connecting (lit "none") (lit "webrtc"))
        × (get_status (some auth) (record r.1 { agent = some (view a) })
            ≡ active
                (lit "relay-ws")
                auth.device_id
                connected
                (get_data_channel_state a)
                (lit "relay"))
  unfolding get_status
  start-falls_back outcomes k m idle device_given token_given relay_given fails three =
      let url = signal_url_of auth.signaling_url in
      let url_given = signal_url_of-truthy auth.signaling_url in
      let done =
        joined-returns openwebui local_server_url relay_url auth.device_id auth.jwt_token n url
          url_given device_given token_given in
      let fields =
        joined-fields openwebui local_server_url relay_url auth.device_id auth.jwt_token n url
          url_given device_given token_given in
      let counts =
        reconnecting-attempts openwebui local_server_url relay_url auth.device_id auth.jwt_token n
          url url_given device_given token_given in
      let ready =
        reconnecting-IsReady openwebui local_server_url relay_url auth.device_id auth.jwt_token n
          url url_given device_given token_given relay_given in
      let over =
        wakes-falls_back openwebui outcomes k (begin_reconnect started) ready fails
          (omega (arith, counts.0, counts.1, three)) in
      let joins =
        start-joins (connects_with openwebui local_server_url relay_url (answered n)) auth m idle
          (ap ended done) in
      (
        joins,
        ap (λ r. get_status (some auth) r.1) joins
            ∙ shown_connecting auth started m fields.0 fields.1 fields.2,
        shown_over_relay auth (fallen_back outcomes k) m over.0 over.1,
      )
