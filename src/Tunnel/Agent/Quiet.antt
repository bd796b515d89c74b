-- ===== src/Tunnel/Agent/Quiet.antt =====
-- What is left to do behind `disconnect`: the reconnections that are under way come to an end.
use lem.Base.{
  ℕ, ◌+◌, ◌-◌, ◌*◌, ◌≤◌, ◌≡◌, refl, sym, subst, ap, ◌∙◌, List, [], ◌∷◌, Result, ok, err, arith, min,
}
use lem.Text.{Text, Bytes}
use lem.Json.{Json}
use lem.Tunnel.Router.{Urllib}
use lem.Tunnel.HttpProxy
use lem.Tunnel.WsProxy.State
use lem.Tunnel.Agent.State.{TunnelAgent, Signal, disconnect}
use lem.Tunnel.Agent.Reconnect.{wake, begin_task, on_connectionstatechange}
use lem.Tunnel.Agent.Messages.{Peer, OutcomeOf}
use lem.Tunnel.Agent.Requests.{process_signaling_message}
use lem.Tunnel.Agent.Untimed.{
  Timing, create_data_channel-timing, on_icecandidate-timing, send_frame-timing, send_data-timing,
  disconnect-timing, process_signaling_message-timing, handle_datachannel_message-timing,
}
use lem.Tunnel.Agent.Paced.{connect-pace, failures}
use lem.Tunnel.Agent.Runs.{
  Step, connects, receives, breaks, begins, disconnects, wakes, pc_changes, relay_changes, gathers,
  opens_channel, gets_frame, sends_frame, sends_data, step, caught, run,
}
use lem.Tunnel.Agent.Resting.{
  Rests, by_tasks, by_timing, begin_reconnect-Rests, more, on_relay_state_change-Rests, woken-Rests,
  begun-Rests, changed-Rests,
}

-- What is left to do: a sleeping reconnection still has an attempt before it, and that one may start
-- another one.
unfoldable pub left_to_do : TunnelAgent → ℕ
left_to_do a = 2 * a.asleep + a.starting

-- A step that carries a reconnection on.
unfoldable pub carries : Step → TunnelAgent → ℕ
carries (wakes outcome) a = min 1 a.asleep
carries begins a = min 1 a.starting
carries s a = 0

-- A relay client that reports its failure from outside of a reconnection.
unfoldable pub report : Step → ℕ
report (relay_changes s) = failures s
report s = 0

unfoldable pub reports : List Step → ℕ
unfolding report
reports [] = 0
reports (s ∷ steps) = report s + reports steps

module _ (openwebui : Result Text) (accepts : Signal → Result (Unit {0})) (peer : Peer)
    (json : Json) (lib : Urllib) (http_world : HttpProxy.World json.Value)
    (ws_world : State.World json.Value) (takes : Bytes → Result (Unit {0})) where
  abbrev happens : Step → TunnelAgent → TunnelAgent
  happens = step openwebui accepts peer json lib http_world ws_world takes

  abbrev runs : List Step → TunnelAgent → TunnelAgent
  runs = run openwebui accepts peer json lib http_world ws_world takes

  -- How many steps of a run carry a reconnection on.
  unfoldable pub carried : List Step → TunnelAgent → ℕ
  unfolding carries
  carried [] a = 0
  carried (s ∷ steps) a = carries s a + carried steps (happens s a)

  caught-Rests :
      (n : ℕ) (slept : List ℕ) (r : OutcomeOf (Unit {0}))
      → Rests n slept r.1
      → Rests n slept (caught openwebui accepts peer json lib http_world ws_world takes r)
  unfolding caught
  caught-Rests n slept (ok u, a) p = p
  caught-Rests n slept (err e, a) p = begin_reconnect-Rests a p

  same : (n : ℕ) (slept : List ℕ) (a : TunnelAgent) → Rests n slept a → Rests (n + 0 - 0) slept a
  same n slept a r = more n (n + 0 - 0) slept a (omega arith) r

  step-Rests :
      (s : Step) (n : ℕ) (slept : List ℕ) (a : TunnelAgent)
      → Rests n slept a
      → Rests (n + report s - carries s a) slept (happens s a)
  unfolding step begin_task wake on_connectionstatechange report carries
  step-Rests (connects url device_id token target servers outcome) n slept a r =
      let e = connect-pace url device_id token target servers outcome a in
      same n slept _ (by_tasks a _ (ap Timing.tasks e) (ap Timing.slept e) r)
  step-Rests (receives m answer) n slept a r =
      let done = process_signaling_message openwebui accepts peer m answer a in
      same n slept _ (
        caught-Rests n slept done (
          by_timing a done.1 (process_signaling_message-timing openwebui accepts peer m answer a)
            r))
  step-Rests breaks n slept a r = same n slept _ (begin_reconnect-Rests a r)
  step-Rests begins n slept a r =
      more (n - min 1 a.starting) (n + 0 - min 1 a.starting) slept _ (omega arith)
        (begun-Rests openwebui slept a.starting n a refl r)
  step-Rests disconnects n slept a r = same n slept _ (
      let e = disconnect-timing ws_world a in
      record {
        allowed = ap (λ (t : Timing). t.tasks.allowed) e;
        left = subst (λ (t : Timing). 2 * t.tasks.asleep + t.tasks.starting ≤ n) (sym e) r.left;
        slept_lem = ap Timing.slept e ∙ r.slept_lem;
      })
  step-Rests (wakes outcome) n slept a r =
      more (n - min 1 a.asleep) (n + 0 - min 1 a.asleep) slept _ (omega arith)
        (woken-Rests openwebui slept outcome a.asleep n a refl r)
  step-Rests (pc_changes again s outcome) n slept a r =
      same n slept _ (changed-Rests openwebui slept a.pc again s outcome n a r)
  step-Rests (relay_changes s) n slept a r =
      more (failures s + n) (n + failures s - 0) slept _ (omega arith)
        (on_relay_state_change-Rests s n slept a r)
  step-Rests (gathers c) n slept a r =
      same n slept _ (by_timing a _ (on_icecandidate-timing accepts c a) r)
  step-Rests (opens_channel c) n slept a r =
      same n slept _ (by_timing a _ (create_data_channel-timing c a) r)
  step-Rests (gets_frame b) n slept a r =
      same n slept _
        (by_timing a _ (handle_datachannel_message-timing json lib http_world ws_world b a) r)
  step-Rests (sends_frame b) n slept a r =
      same n slept _ (by_timing a _ (send_frame-timing takes b a) r)
  step-Rests (sends_data b) n slept a r = same n slept _ (by_timing a _ (send_data-timing b a) r)

  carries-le : (s : Step) (a : TunnelAgent) → carries s a ≤ 2 * a.asleep + a.starting
  unfolding carries
  carries-le s a = ground arith

  run-Rests :
      (steps : List Step) (slept : List ℕ) (a : TunnelAgent)
      → Rests (left_to_do a) slept a
      → (carried steps a + left_to_do (runs steps a) ≤ left_to_do a + reports steps)
        × ((runs steps a).slept ≡ slept)
  unfolding run carried left_to_do reports
  run-Rests [] slept a r = (omega arith, r.slept_lem)
  run-Rests (s ∷ steps) slept a r =
      let b = happens s a in
      let q = step-Rests s (left_to_do a) slept a r in
      let rest =
        run-Rests steps slept b
          (record { allowed = q.allowed; left = omega arith; slept_lem = q.slept_lem }) in
      (omega (arith, rest.0, q.left, carries-le s a), rest.1)

  -- Behind `disconnect`, whatever the servers, the peer, the relay and the callers do, in whatever
  -- order: no reconnection begins to sleep any more, and those under way come to an end. With twice
  -- the sleeping ones and the starting ones, and one for each failure that a relay client reports
  -- on its own, counted before, there are no more wake-ups and starts of reconnections than that,
  -- and what is left under way is at most the rest.
  pub run-winds_down :
      (steps : List Step) (a : TunnelAgent)
      → (carried steps (disconnect ws_world a) + left_to_do (runs steps (disconnect ws_world a))
          ≤ left_to_do a + reports steps)
        × ((runs steps (disconnect ws_world a)).slept ≡ a.slept)
  unfolding left_to_do
  run-winds_down steps a =
      let e = disconnect-timing ws_world a in
      let b = disconnect ws_world a in
      let left = ap (λ (t : Timing). 2 * t.tasks.asleep + t.tasks.starting) e in
      let rest = run-Rests steps a.slept b (record {
        allowed = ap (λ (t : Timing). t.tasks.allowed) e;
        left = omega arith;
        slept_lem = ap Timing.slept e;
      }) in
      (omega (arith, rest.0, left), rest.1)
