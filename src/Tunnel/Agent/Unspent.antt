-- ===== src/Tunnel/Agent/Unspent.antt =====
-- How long the agent stays with WebRTC while the signaling server lets it in.
use lem.Base.{
  ℕ, zero, suc, ◌≡◌, refl, sym, subst, ap, ◌∙◌, Bool, true, false, ◌&&◌, Option, none, some, List,
  [], ◌∷◌, if-both, Result, ok, err, arith, All, ltb, if◌then◌else◌,
}
use lem.Text.{Text, Bytes}
use lem.Text.Methods.{truthy}
use lem.Json.{Json}
use lem.Tunnel.Router.{Urllib}
use lem.Tunnel.HttpProxy
use lem.Tunnel.WsProxy.State
use lem.Tunnel.Manager.{closed}
use lem.Tunnel.Agent.State.{TunnelAgent, webrtc, Signal, set_state, reset_webrtc_state}
use lem.Tunnel.Agent.Reconnect.{
  Outcome, answered, raised, timed_out, Ending, returns, cancelled, raises, begin_reconnect,
  has_parameters, connect_signaling, reconnect_full, after_webrtc, counted, try_relay_fallback,
  relay_answer, attempt, reconnect_now, on_state, woken, wake, begun, begin_task, changed, PcState,
  pc_connected, pc_failed, pc_closed, pc_other, on_connectionstatechange,
}
use lem.Tunnel.Agent.Messages.{Peer, OutcomeOf}
use lem.Tunnel.Agent.Requests.{process_signaling_message}
use lem.Tunnel.Agent.Untimed.{
  Timing, Tasks, timing, set_state-timing, create_data_channel-timing, on_icecandidate-timing,
  send_frame-timing, send_data-timing, disconnect-timing, process_signaling_message-timing,
  handle_datachannel_message-timing,
}
use lem.Tunnel.Agent.Paced.{connect-pace, on_relay_state_change-timing, reconnect_full-timing}
use lem.Tunnel.Agent.Runs.{
  Step, connects, receives, breaks, begins, disconnects, wakes, pc_changes, relay_changes, gathers,
  opens_channel, gets_frame, sends_frame, sends_data, step, caught, run,
}

-- No attempt is counted, the mode is WebRTC, and the parameters are given.
pub record IsUnspent (a : TunnelAgent) : Type 0 where
  pub attempts : a.webrtc_attempts ≡ 0
  pub max_attempts : a.max_webrtc_attempts ≡ 3
  pub mode : a.connection_mode ≡ webrtc
  pub complete : has_parameters a ≡ true

abbrev IsAnswered : Outcome → Type 0
IsAnswered (answered n) = Unit
IsAnswered o = ⊥

-- The signaling server lets the agent in whenever it reconnects; `connect` may be called again, with
-- parameters that are not empty. All else is free: peer connections may fail or close, and the
-- signaling WebSocket may break, at any time.
abbrev pub LetsIn : Step → Type 0
LetsIn (connects url device_id token target servers outcome) =
    (truthy url && (truthy device_id && truthy token)) ≡ true
LetsIn (wakes outcome) = IsAnswered outcome
LetsIn (pc_changes again s outcome) = IsAnswered outcome
LetsIn s = Unit

IsUnspent-by :
    (a b : TunnelAgent) (c : Bool) {t : Tasks}
    → timing b ≡ record (timing a) { complete = c; tasks = t }
    → c ≡ true
    → IsUnspent a
    → IsUnspent b
IsUnspent-by a b c e h u = record {
  attempts = ap Timing.attempts e ∙ u.attempts;
  max_attempts = ap Timing.max_attempts e ∙ u.max_attempts;
  mode = ap Timing.mode e ∙ u.mode;
  complete = ap Timing.complete e ∙ h;
}

kept_by :
    (a b : TunnelAgent) {t : Tasks}
    → timing b ≡ record (timing a) { tasks = t }
    → IsUnspent a
    → IsUnspent b
kept_by a b e u = IsUnspent-by a b (timing a).complete e u.complete u

begin_reconnect-IsUnspent : (a : TunnelAgent) → IsUnspent a → IsUnspent (begin_reconnect a)
unfolding begin_reconnect
begin_reconnect-IsUnspent a u =
    if-both IsUnspent a.should_reconnect
      (record {
        attempts = u.attempts;
        max_attempts = u.max_attempts;
        mode = u.mode;
        complete = u.complete;
      })
      u

reconnect_full-returns :
    (n : ℕ) (a : TunnelAgent)
    → has_parameters a ≡ true
    → (reconnect_full (answered n) a).0 ≡ returns
unfolding reconnect_full connect_signaling set_state
reconnect_full-returns n a h = ground (arith, h)

after_webrtc-IsUnspent :
    (r : Ending × TunnelAgent)
    → r.0 ≡ returns
    → r.1.max_webrtc_attempts ≡ 3
    → has_parameters r.1 ≡ true
    → IsUnspent (after_webrtc r)
unfolding after_webrtc
after_webrtc-IsUnspent (returns, a) e m c = record {
  attempts = refl;
  max_attempts = m;
  mode = refl;
  complete = c;
}
after_webrtc-IsUnspent (cancelled, a) e m c = cc
after_webrtc-IsUnspent (raises x, a) e m c = cc

some_left : (a : TunnelAgent) → IsUnspent a → ltb a.webrtc_attempts a.max_webrtc_attempts ≡ true
some_left a u = ground (arith, u.attempts, u.max_attempts)

module _ (openwebui : Result Text) where
  attempt-IsUnspent :
      (outcome : Outcome) (a : TunnelAgent)
      → IsAnswered outcome
      → IsUnspent a
      → IsUnspent (attempt openwebui outcome a)
  unfolding attempt reset_webrtc_state
  attempt-IsUnspent (answered n) a o u =
      let b = counted openwebui a in
      let r = reconnect_full (answered n) b in
      let same = reconnect_full-timing (answered n) b in
      subst
        (λ t. IsUnspent (
          if t
          then after_webrtc r
          else try_relay_fallback openwebui (relay_answer openwebui (answered n)) a))
        (sym (some_left a u))
        (after_webrtc-IsUnspent r (reconnect_full-returns n b u.complete)
          (ap Timing.max_attempts same ∙ u.max_attempts) (ap Timing.complete same ∙ u.complete))
  attempt-IsUnspent (raised e) a o u = absurd o
  attempt-IsUnspent timed_out a o u = absurd o

  woken-IsUnspent :
      (outcome : Outcome) (k : ℕ) (a : TunnelAgent)
      → IsAnswered outcome
      → IsUnspent a
      → IsUnspent (woken openwebui outcome k a)
  unfolding woken
  woken-IsUnspent outcome zero a o u = u
  woken-IsUnspent outcome (suc k) a o u = attempt-IsUnspent outcome _ o (record {
    attempts = u.attempts;
    max_attempts = u.max_attempts;
    mode = u.mode;
    complete = u.complete;
  })

  begun-IsUnspent : (k : ℕ) (a : TunnelAgent) → IsUnspent a → IsUnspent (begun k a)
  unfolding begun
  begun-IsUnspent zero a u = u
  begun-IsUnspent (suc k) a u =
      begin_reconnect-IsUnspent _ (kept_by a (record a { starting = k }) refl u)

  on_state-IsUnspent :
      (again : Bool) (s : PcState) (outcome : Outcome) (a : TunnelAgent)
      → IsAnswered outcome
      → IsUnspent a
      → IsUnspent (on_state openwebui again s outcome a)
  unfolding on_state reconnect_now
  on_state-IsUnspent again pc_connected outcome a o u = kept_by a _ (set_state-timing _ a) u
  on_state-IsUnspent again pc_failed outcome a o u =
      begin_reconnect-IsUnspent _ (kept_by a _ (set_state-timing _ a) u)
  on_state-IsUnspent true pc_closed outcome a o u =
      let b = set_state closed a in
      let v = kept_by a b (set_state-timing closed a) u in
      if-both IsUnspent b.should_reconnect (attempt-IsUnspent outcome b o v) v
  on_state-IsUnspent false pc_closed outcome a o u =
      begin_reconnect-IsUnspent _ (kept_by a _ (set_state-timing _ a) u)
  on_state-IsUnspent again pc_other outcome a o u = u

  changed-IsUnspent :
      (pc : Option ℕ) (again : Bool) (s : PcState) (outcome : Outcome) (a : TunnelAgent)
      → IsAnswered outcome
      → IsUnspent a
      → IsUnspent (changed openwebui pc again s outcome a)
  unfolding changed
  changed-IsUnspent none again s outcome a o u = u
  changed-IsUnspent (some n) again s outcome a o u = on_state-IsUnspent again s outcome a o u

module _ (openwebui : Result Text) (accepts : Signal → Result (Unit {0})) (peer : Peer)
    (json : Json) (lib : Urllib) (http_world : HttpProxy.World json.Value)
    (ws_world : State.World json.Value) (takes : Bytes → Result (Unit {0})) where
  abbrev happens : Step → TunnelAgent → TunnelAgent
  happens = step openwebui accepts peer json lib http_world ws_world takes

  caught-IsUnspent :
      (r : OutcomeOf (Unit {0}))
      → IsUnspent r.1
      → IsUnspent (caught openwebui accepts peer json lib http_world ws_world takes r)
  unfolding caught
  caught-IsUnspent (ok u, a) p = p
  caught-IsUnspent (err e, a) p = begin_reconnect-IsUnspent a p

  step-IsUnspent : (s : Step) (a : TunnelAgent) → LetsIn s → IsUnspent a → IsUnspent (happens s a)
  unfolding step begin_task wake on_connectionstatechange
  step-IsUnspent (connects url device_id token target servers outcome) a h u =
      IsUnspent-by a _ (truthy url && (truthy device_id && truthy token))
        (connect-pace url device_id token target servers outcome a) h u
  step-IsUnspent (receives m answer) a h u =
      let done = process_signaling_message openwebui accepts peer m answer a in
      caught-IsUnspent done
        (kept_by a done.1 (process_signaling_message-timing openwebui accepts peer m answer a) u)
  step-IsUnspent breaks a h u = begin_reconnect-IsUnspent a u
  step-IsUnspent begins a h u = begun-IsUnspent openwebui a.starting a u
  step-IsUnspent disconnects a h u = kept_by a _ (disconnect-timing ws_world a) u
  step-IsUnspent (wakes outcome) a h u = woken-IsUnspent openwebui outcome a.asleep a h u
  step-IsUnspent (pc_changes again s outcome) a h u =
      changed-IsUnspent openwebui a.pc again s outcome a h u
  step-IsUnspent (relay_changes s) a h u = kept_by a _ (on_relay_state_change-timing s a) u
  step-IsUnspent (gathers c) a h u = kept_by a _ (on_icecandidate-timing accepts c a) u
  step-IsUnspent (opens_channel c) a h u = kept_by a _ (create_data_channel-timing c a) u
  step-IsUnspent (gets_frame b) a h u =
      kept_by a _ (handle_datachannel_message-timing json lib http_world ws_world b a) u
  step-IsUnspent (sends_frame b) a h u = kept_by a _ (send_frame-timing takes b a) u
  step-IsUnspent (sends_data b) a h u = kept_by a _ (send_data-timing b a) u

  -- Take an agent in WebRTC mode that has its parameters and no counted attempt. As long as each
  -- reconnection's attempt comes to its end before the agent's next step, the signaling server lets
  -- the agent in at each, and `connect` is called only with parameters that are not empty, it stays
  -- so: however often the peer connection fails or closes, and however often the signaling
  -- WebSocket breaks, no attempt is counted in the end, and the mode is never the relay.
  pub run-stays_webrtc :
      (steps : List Step) (a : TunnelAgent)
      → All LetsIn steps
      → IsUnspent a
      → IsUnspent (run openwebui accepts peer json lib http_world ws_world takes steps a)
  unfolding run
  run-stays_webrtc [] a h u = u
  run-stays_webrtc (s ∷ steps) a (h, hs) u =
      run-stays_webrtc steps (happens s a) hs (step-IsUnspent s a h u)
