-- ===== src/Tunnel/Agent/Signaled.antt =====
-- What does not send over the signaling WebSocket: the messages that were sent stay.
use lem.Base.{
  ℕ, zero, suc, ◌≡◌, refl, ◌∙◌, Bool, true, false, ◌&&◌, Option, none, some, List, [], ◌∷◌, if-both,
  Result, ok, err, arith, ltb, min, ◌*◌,
}
use lem.Text.{Text, Bytes}
use lem.Text.Methods.{truthy}
use lem.Json.{Json}
use lem.Tunnel.Router.{Urllib}
use lem.Tunnel.HttpProxy
use lem.Tunnel.WsProxy.State
use lem.Tunnel.Manager.{ConnectionState, connected, closed, failed}
use lem.Tunnel.RelayClient.{RelayConnectionState}
use lem.Tunnel.Agent.State.{
  TunnelAgent, Channel, IceServer, set_state, reset_webrtc_state, send_frame, send_data, disconnect,
  relay,
}
use lem.Tunnel.Agent.Reconnect.{
  Outcome, Ending, returns, cancelled, raises, begin_reconnect, connect_signaling, connect,
  reconnect_full, after_webrtc, on_relay_state_change, notify_all, after_relay, try_relay_fallback,
  fall_back, on_state, woken, begun, changed, relay_for, relay_answer, counted, attempt,
  reconnect_now, wake, begin_task, PcState, pc_connected, pc_failed, pc_closed, pc_other,
  on_connectionstatechange,
}
use lem.Tunnel.Agent.Messages.{create_data_channel, handle_datachannel_message}

-- The messages to the signaling server are the same.
abbrev pub Silent : TunnelAgent → TunnelAgent → Type 0
Silent b a = b.signaled ≡ a.signaled

pub begin_reconnect-Silent : (a : TunnelAgent) → Silent (begin_reconnect a) a
unfolding begin_reconnect
begin_reconnect-Silent a = if-both (λ b. Silent b a) a.should_reconnect refl refl

set_state-Silent : (s : ConnectionState) (a : TunnelAgent) → Silent (set_state s a) a
unfolding set_state
set_state-Silent s a = if-both (λ b. Silent b a) _ refl refl

pub connect-Silent :
    (url device_id token : Text) (target : Option Text) (servers : Option (List IceServer))
    (outcome : Outcome) (a : TunnelAgent)
    → Silent (connect url device_id token target servers outcome a).1 a
unfolding connect connect_signaling set_state
connect-Silent url device_id token target servers outcome a = ground arith

reconnect_full-Silent :
    (outcome : Outcome) (a : TunnelAgent) → Silent (reconnect_full outcome a).1 a
unfolding reconnect_full connect_signaling set_state
reconnect_full-Silent outcome a = ground arith

after_webrtc-Silent : (e : Ending × TunnelAgent) → Silent (after_webrtc e) e.1
unfolding after_webrtc
after_webrtc-Silent (returns, a) = refl
after_webrtc-Silent (cancelled, a) = begin_reconnect-Silent a
after_webrtc-Silent (raises x, a) = begin_reconnect-Silent a

pub on_relay_state_change-Silent :
    (s : RelayConnectionState) (a : TunnelAgent) → Silent (on_relay_state_change s a) a
unfolding on_relay_state_change
on_relay_state_change-Silent s a = ground arith

notify_all-Silent : (ss : List RelayConnectionState) (a : TunnelAgent) → Silent (notify_all ss a) a
unfolding notify_all
notify_all-Silent [] a = refl
notify_all-Silent (s ∷ ss) a =
    notify_all-Silent ss (on_relay_state_change s a) ∙ on_relay_state_change-Silent s a

after_relay-Silent : (r : Result (Unit {0})) (a : TunnelAgent) → Silent (after_relay r a) a
unfolding after_relay
after_relay-Silent (err e) a = begin_reconnect-Silent a
after_relay-Silent (ok u) a = set_state-Silent connected (record a { connection_mode = relay })

pub create_data_channel-Silent :
    (c : Channel) (a : TunnelAgent) → Silent (create_data_channel c a).1 a
unfolding create_data_channel
create_data_channel-Silent c a = ground arith

pub send_frame-Silent :
    (takes : Bytes → Result (Unit {0})) (frame_bytes : Bytes) (a : TunnelAgent)
    → Silent (send_frame takes frame_bytes a) a
unfolding send_frame
send_frame-Silent takes frame_bytes a = ground arith

pub send_data-Silent : (bytes : Bytes) (a : TunnelAgent) → Silent (send_data bytes a).1 a
unfolding send_data
send_data-Silent bytes a = ground arith

pub disconnect-Silent :
    {V : Type 0} (world : State.World V) (a : TunnelAgent) → Silent (disconnect world a) a
unfolding disconnect set_state
disconnect-Silent world a = ground arith

pub handle_datachannel_message-Silent :
    (json : Json) (lib : Urllib) (http_world : HttpProxy.World json.Value)
    (ws_world : State.World json.Value) (frame_bytes : Bytes) (a : TunnelAgent)
    → Silent (handle_datachannel_message json lib http_world ws_world frame_bytes a) a
unfolding handle_datachannel_message
handle_datachannel_message-Silent json lib http_world ws_world frame_bytes a = ground arith

module _ (openwebui : Result Text) where
  fall_back-Silent :
      (device_id token : Option Text) (answer : Result ℕ) (a : TunnelAgent)
      → Silent (fall_back openwebui device_id token answer a) a
  unfolding fall_back
  fall_back-Silent none token answer a = begin_reconnect-Silent a
  fall_back-Silent (some device_id) none answer a = begin_reconnect-Silent a
  fall_back-Silent (some device_id) (some token) answer a =
      let made = relay_for openwebui device_id token answer a in
      if-both (λ b. Silent b a) (truthy device_id && truthy token)
        (after_relay-Silent made.0
            (notify_all made.1.notified (record a { relay_client = some made.1 }))
          ∙ notify_all-Silent made.1.notified (record a { relay_client = some made.1 }))
        (begin_reconnect-Silent a)

  attempt-Silent : (outcome : Outcome) (a : TunnelAgent) → Silent (attempt openwebui outcome a) a
  unfolding attempt reset_webrtc_state try_relay_fallback
  attempt-Silent outcome a =
      let b = counted openwebui a in
      if-both (λ c. Silent c a) (ltb a.webrtc_attempts a.max_webrtc_attempts)
        (after_webrtc-Silent (reconnect_full outcome b) ∙ reconnect_full-Silent outcome b)
        (fall_back-Silent a.device_id a.token (relay_answer openwebui outcome) a)

  woken-Silent :
      (outcome : Outcome) (k : ℕ) (a : TunnelAgent) → Silent (woken openwebui outcome k a) a
  unfolding woken
  woken-Silent outcome zero a = refl
  woken-Silent outcome (suc k) a =
      attempt-Silent outcome (record a {
        asleep = k;
        reconnect_delay = min (a.reconnect_delay * 2) a.max_reconnect_delay;
      })

  begun-Silent : (k : ℕ) (a : TunnelAgent) → Silent (begun k a) a
  unfolding begun
  begun-Silent zero a = refl
  begun-Silent (suc k) a = begin_reconnect-Silent (record a { starting = k })

  on_state-Silent :
      (again : Bool) (s : PcState) (outcome : Outcome) (a : TunnelAgent)
      → Silent (on_state openwebui again s outcome a) a
  unfolding on_state reconnect_now
  on_state-Silent again pc_connected outcome a = set_state-Silent connected a
  on_state-Silent again pc_failed outcome a =
      begin_reconnect-Silent (set_state failed a) ∙ set_state-Silent failed a
  on_state-Silent true pc_closed outcome a =
      let b = set_state closed a in
      if-both (λ c. Silent c a) b.should_reconnect
        (attempt-Silent outcome b ∙ set_state-Silent closed a) (set_state-Silent closed a)
  on_state-Silent false pc_closed outcome a =
      begin_reconnect-Silent (set_state closed a) ∙ set_state-Silent closed a
  on_state-Silent again pc_other outcome a = refl

  changed-Silent :
      (pc : Option ℕ) (again : Bool) (s : PcState) (outcome : Outcome) (a : TunnelAgent)
      → Silent (changed openwebui pc again s outcome a) a
  unfolding changed
  changed-Silent none again s outcome a = refl
  changed-Silent (some n) again s outcome a = on_state-Silent again s outcome a

  pub wake-Silent : (outcome : Outcome) (a : TunnelAgent) → Silent (wake openwebui outcome a) a
  unfolding wake
  wake-Silent outcome a = woken-Silent outcome a.asleep a

  pub begin_task-Silent : (a : TunnelAgent) → Silent (begin_task a) a
  unfolding begin_task
  begin_task-Silent a = begun-Silent a.starting a

  pub on_connectionstatechange-Silent :
      (again : Bool) (s : PcState) (outcome : Outcome) (a : TunnelAgent)
      → Silent (on_connectionstatechange openwebui again s outcome a) a
  unfolding on_connectionstatechange
  on_connectionstatechange-Silent again s outcome a = changed-Silent a.pc again s outcome a
