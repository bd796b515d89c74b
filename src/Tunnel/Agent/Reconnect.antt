-- ===== src/Tunnel/Agent/Reconnect.antt =====
-- server/app/tunnel/webrtc_client.py: connecting, reconnection and the fallback to the relay. A
-- reconnection sleeps between two steps; several of them can be under way at once.
use lem.Base.{
  ℕ, suc, zero, ◌*◌, min, Bool, true, false, ◌&&◌, Option, none, some, List, [], ◌∷◌, ◌++◌, ltb,
  if◌then◌else◌, Result, ok, err, Exn, not_set,
}
use lem.Text.{Text}
use lem.Text.Methods.{truthy}
use lem.Tunnel.HttpProxy
use lem.Tunnel.HttpProxy.{absent, opened}
use lem.Tunnel.WsProxy.State
use lem.Tunnel.Manager.{connecting, connected, failed, closed}
use lem.Tunnel.RelayClient
use lem.Tunnel.RelayClient.{
  RelayClient, RelayConnectionState, open_socket, drop_socket, drop_session, given,
}
use lem.Tunnel.Agent.State.{
  TunnelAgent, IceServer, default_ice_servers, relay, webrtc, set_state, reset_webrtc_state,
}

-- `_handle_reconnect` up to its sleep, with `immediate=False`
unfoldable pub begin_reconnect : TunnelAgent → TunnelAgent
begin_reconnect a =
    if a.should_reconnect
    then record a { asleep = suc a.asleep; slept = a.slept ++ a.reconnect_delay ∷ [] }
    else a

-- Not `not self.signal_url or not self.device_id or not self.token`
abbrev pub has_parameters : TunnelAgent → Bool
has_parameters a = given a.signal_url && (given a.device_id && given a.token)

-- A new peer connection.
abbrev pub new_pc : TunnelAgent → TunnelAgent
new_pc a = record a { pc = some a.next_pc; next_pc = suc a.next_pc }

-- How the attempt to open a WebSocket ends: with a socket, with an exception, or not within the time
-- that `wait_for` gives it.
pub data Outcome : Type 0 where
  answered : ℕ → Outcome
  raised : Exn → Outcome
  timed_out : Outcome

-- How a coroutine ends: it returns, it raises, or it is cancelled by `wait_for`.
pub data Ending : Type 0 where
  returns cancelled : Ending
  raises : Exn → Ending

signaled_by : Outcome → TunnelAgent → Ending × TunnelAgent
unfolding set_state
signaled_by (answered n) a = (returns, record a { ws = open_socket n })
signaled_by (raised e) a = (raises e, set_state failed a)
signaled_by timed_out a = (cancelled, a)

-- `_connect_signaling`; the old session is closed, and a new one takes its place.
unfoldable pub connect_signaling : Outcome → TunnelAgent → Ending × TunnelAgent
unfolding signaled_by
connect_signaling outcome a =
    if has_parameters a
    then signaled_by outcome (record (set_state connecting a) { ws_session = opened })
    else (raises not_set, a)

abbrev or_default : Option (List IceServer) → List IceServer
or_default none = default_ice_servers
or_default (some servers) = servers

-- `connect`
unfoldable pub connect :
    Text
    → Text
    → Text
    → Option Text
    → Option (List IceServer)
    → Outcome
    → TunnelAgent
    → Ending × TunnelAgent
unfolding connect_signaling
connect signal_url device_id token target_device_id ice_servers outcome a =
    connect_signaling outcome (record (new_pc a) {
      signal_url = some signal_url;
      device_id = some device_id;
      token = some token;
      target_device_id = target_device_id;
      ice_servers = or_default ice_servers;
      http_proxy = HttpProxy.start a.http_proxy;
      ws_proxy = State.start a.ws_proxy;
    })

-- `_reconnect_full`: errors of the closing are caught.
unfoldable pub reconnect_full : Outcome → TunnelAgent → Ending × TunnelAgent
unfolding connect_signaling
reconnect_full outcome a =
    if has_parameters a
    then connect_signaling outcome
        (new_pc (record a { ws = drop_socket a.ws; ws_session = drop_session a.ws_session }))
    else (raises not_set, a)

-- The `try` around `wait_for`, and what catches its exceptions.
unfoldable pub after_webrtc : Ending × TunnelAgent → TunnelAgent
unfolding begin_reconnect
after_webrtc (returns, a) = record a {
  webrtc_attempts = 0;
  connection_mode = webrtc;
  reconnect_delay = 2;
}
after_webrtc (cancelled, a) = begin_reconnect a
after_webrtc (raises e, a) = begin_reconnect a

-- `_on_relay_state_change`: a reconnection is created as a task.
unfoldable pub on_relay_state_change : RelayConnectionState → TunnelAgent → TunnelAgent
on_relay_state_change RelayConnectionState.failed a = record a { starting = suc a.starting }
on_relay_state_change RelayConnectionState.closed_ a = record a { starting = suc a.starting }
on_relay_state_change s a = a

-- The callback gets the states that the client notes from here on.
unfoldable pub notify_all : List RelayConnectionState → TunnelAgent → TunnelAgent
unfolding on_relay_state_change
notify_all [] a = a
notify_all (s ∷ states) a = notify_all states (on_relay_state_change s a)

unfoldable pub after_relay : Result (Unit {0}) → TunnelAgent → TunnelAgent
unfolding begin_reconnect set_state
after_relay (ok u) a = record (set_state connected (record a { connection_mode = relay })) {
  reconnect_delay = 2;
}
after_relay (err e) a = begin_reconnect a

unfoldable pub begun : ℕ → TunnelAgent → TunnelAgent
begun zero a = a
begun (suc n) a = begin_reconnect (record a { starting = n })

-- A created reconnection gets to run.
unfoldable pub begin_task : TunnelAgent → TunnelAgent
unfolding begun
begin_task a = begun a.starting a

-- `pc.connectionState`, as far as it is told apart.
pub data PcState : Type 0 where
  pc_connected pc_failed pc_closed pc_other : PcState

module _ (openwebui : Result Text) where
  -- The new relay client, connected or not.
  abbrev pub relay_for : Text → Text → Result ℕ → TunnelAgent → Result (Unit {0}) × RelayClient
  relay_for device_id token answer a =
      RelayClient.connect a.relay_url device_id token answer
        (RelayClient.init openwebui a.http_proxy.local_server_url)

  unfoldable pub fall_back : Option Text → Option Text → Result ℕ → TunnelAgent → TunnelAgent
  unfolding after_relay notify_all
  fall_back (some device_id) (some token) answer a =
      let made = relay_for device_id token answer a in
      if truthy device_id && truthy token
      then after_relay made.0 (notify_all made.1.notified (record a { relay_client = some made.1 }))
      else begin_reconnect a
  fall_back _ _ answer a = begin_reconnect a

  -- `_try_relay_fallback`, and what catches its exception: the device's identifier is the session.
  unfoldable pub try_relay_fallback : Result ℕ → TunnelAgent → TunnelAgent
  unfolding fall_back
  try_relay_fallback answer a = fall_back a.device_id a.token answer a

  abbrev pub relay_answer : Outcome → Result ℕ
  relay_answer (answered n) = ok n
  relay_answer (raised e) = err e
  relay_answer timed_out = err (Exn.foreign 0)

  -- One attempt more, with no WebRTC state.
  abbrev pub counted : TunnelAgent → TunnelAgent
  counted a = reset_webrtc_state (record a { webrtc_attempts = suc a.webrtc_attempts })

  -- `_handle_reconnect` behind its sleep.
  unfoldable pub attempt : Outcome → TunnelAgent → TunnelAgent
  unfolding after_webrtc
  attempt outcome a =
      if ltb a.webrtc_attempts a.max_webrtc_attempts
      then after_webrtc (reconnect_full outcome (counted a))
      else try_relay_fallback (relay_answer outcome) a

  -- With `immediate=True` there is no sleep.
  unfoldable pub reconnect_now : Outcome → TunnelAgent → TunnelAgent
  reconnect_now outcome a = if a.should_reconnect then attempt outcome a else a

  unfoldable pub woken : Outcome → ℕ → TunnelAgent → TunnelAgent
  woken outcome zero a = a
  woken outcome (suc n) a =
      attempt outcome (record a {
        asleep = n;
        reconnect_delay = min (a.reconnect_delay * 2) a.max_reconnect_delay;
      })

  -- The sleep of a reconnection is over.
  unfoldable pub wake : Outcome → TunnelAgent → TunnelAgent
  unfolding woken
  wake outcome a = woken outcome a.asleep a

  unfoldable pub on_state : Bool → PcState → Outcome → TunnelAgent → TunnelAgent
  unfolding reconnect_now
  on_state again pc_connected outcome a = set_state connected a
  on_state again pc_failed outcome a = begin_reconnect (set_state failed a)
  on_state true pc_closed outcome a = reconnect_now outcome (set_state closed a)
  on_state false pc_closed outcome a = begin_reconnect (set_state closed a)
  on_state again pc_other outcome a = a

  -- `if self.pc is None: return`
  unfoldable pub changed : Option ℕ → Bool → PcState → Outcome → TunnelAgent → TunnelAgent
  changed none again s outcome a = a
  changed (some n) again s outcome a = on_state again s outcome a

  -- `on_connectionstatechange`; `again` is whether `_reconnect_full` made the handler. Only then is
  -- the reconnection from a closed connection immediate.
  unfoldable pub on_connectionstatechange : Bool → PcState → Outcome → TunnelAgent → TunnelAgent
  unfolding changed
  on_connectionstatechange again s outcome a = changed a.pc again s outcome a
