-- ===== src/Tunnel/Agent/Fallback.antt =====
-- When the agent turns to the relay, and what failures lead to.
use lem.Base.{
  ℕ, zero, suc, ◌≤◌, ◌<◌, ◌≡◌, ◌≢◌, refl, sym, subst, Bool, true, List, [], ◌∷◌, ◌+◌, Result, Exn,
  arith, All, lt→ltb, ap, ◌∙◌, length, map,
}
use lem.Text.{Text}
use lem.Text.Methods.{truthy}
use lem.Tunnel.RelayClient
use lem.Tunnel.Agent.State.{TunnelAgent, relay, set_state, reset_webrtc_state, is_connected}
use lem.Tunnel.Agent.Reconnect.{
  Ending, returns, cancelled, raises, counted, Outcome, answered, raised, timed_out,
  begin_reconnect, has_parameters, connect_signaling, reconnect_full, after_webrtc, notify_all,
  on_relay_state_change, after_relay, try_relay_fallback, fall_back, attempt, wake, woken,
}

-- A reconnection is asleep, may go on, and has what it needs, for the relay too.
pub record IsReady (a : TunnelAgent) : Type 0 where
  pub sleeps : 0 < a.asleep
  pub goes_on : a.should_reconnect ≡ true
  pub complete : has_parameters a ≡ true
  pub relayed : truthy a.relay_url ≡ true

-- Reconnections that sleep, and those that are created and have not run.
abbrev pub pending : TunnelAgent → ℕ
pending a = a.asleep + a.starting

-- What decides how reconnecting goes on.
record Standing : Type 0 where
  pub asleep : ℕ
  pub starting : ℕ
  pub goes_on : Bool
  pub complete : Bool
  pub relay_url : Text
  pub attempts : ℕ
  pub max_attempts : ℕ

abbrev standing : TunnelAgent → Standing
standing a = record {
  asleep = a.asleep;
  starting = a.starting;
  goes_on = a.should_reconnect;
  complete = has_parameters a;
  relay_url = a.relay_url;
  attempts = a.webrtc_attempts;
  max_attempts = a.max_webrtc_attempts;
}

reconnect_full-standing :
    (outcome : Outcome) (a : TunnelAgent) → standing (reconnect_full outcome a).1 ≡ standing a
unfolding reconnect_full connect_signaling set_state
reconnect_full-standing outcome a = ground arith

-- The signaling server does not let the agent in, or not in time.
abbrev pub Fails : Outcome → Type 0
Fails (answered n) = ⊥
Fails (raised e) = Unit
Fails timed_out = Unit

after_webrtc-fails :
    (r : Ending × TunnelAgent) → r.0 ≢ returns → after_webrtc r ≡ begin_reconnect r.1
unfolding after_webrtc
after_webrtc-fails (returns, a) h = absurd (h refl)
after_webrtc-fails (cancelled, a) h = refl
after_webrtc-fails (raises e, a) h = refl

reconnect_full-Fails :
    (outcome : Outcome) (a : TunnelAgent) → Fails outcome → (reconnect_full outcome a).0 ≢ returns
unfolding reconnect_full connect_signaling
reconnect_full-Fails (answered n) a f returned = absurd f
reconnect_full-Fails (raised e) a f returned = ground (arith, returned)
reconnect_full-Fails timed_out a f returned = ground (arith, returned)

begin_reconnect-standing :
    (a : TunnelAgent)
    → a.should_reconnect ≡ true
    → standing (begin_reconnect a) ≡ record (standing a) { asleep = suc a.asleep }
unfolding begin_reconnect
begin_reconnect-standing a h = ground (arith, h)

module _ (openwebui : Result Text) where
  -- A failed attempt over WebRTC is counted, and another sleep begins.
  attempt-Fails :
      (outcome : Outcome) (a : TunnelAgent)
      → Fails outcome
      → a.should_reconnect ≡ true
      → a.webrtc_attempts < a.max_webrtc_attempts
      → standing (attempt openwebui outcome a)
        ≡ record (standing a) { asleep = suc a.asleep; attempts = suc a.webrtc_attempts }
  unfolding attempt reset_webrtc_state
  attempt-Fails outcome a f g h =
      let b = counted openwebui a in
      let r = reconnect_full outcome b in
      rw (lt→ltb a.webrtc_attempts a.max_webrtc_attempts h) (
        ap standing (after_webrtc-fails r (reconnect_full-Fails outcome b f))
        ∙ begin_reconnect-standing r.1 (ap Standing.goes_on (reconnect_full-standing outcome b) ∙ g)
        ∙ ap (λ (s : Standing). record s { asleep = suc s.asleep })
            (reconnect_full-standing outcome b))

  woken-Fails :
      (outcome : Outcome) (k : ℕ) (a : TunnelAgent)
      → Fails outcome
      → 0 < k
      → a.should_reconnect ≡ true
      → a.webrtc_attempts < a.max_webrtc_attempts
      → standing (woken openwebui outcome k a)
        ≡ record (standing a) { asleep = k; attempts = suc a.webrtc_attempts }
  unfolding woken
  woken-Fails outcome zero a f s g h = absurd (omega (arith, s))
  woken-Fails outcome (suc k) a f s g h = attempt-Fails outcome _ f g h

  signal_failed :
      (outcome : Outcome) (a : TunnelAgent)
      → Fails outcome
      → IsReady a
      → a.webrtc_attempts < a.max_webrtc_attempts
      → standing (wake openwebui outcome a)
        ≡ record (standing a) { attempts = suc a.webrtc_attempts }
  unfolding wake
  signal_failed outcome a f r h = woken-Fails outcome a.asleep a f r.sleeps r.goes_on h

  abbrev pub failing : Exn → TunnelAgent → TunnelAgent
  failing e a = wake openwebui (raised e) a

  -- The relay is tried, and fails: one reconnection more than before.
  relay_failed-pending :
      (e : Exn) (a : TunnelAgent)
      → IsReady a
      → a.max_webrtc_attempts ≤ a.webrtc_attempts
      → pending (failing e a) ≡ suc (pending a)
  unfolding wake attempt try_relay_fallback fall_back RelayClient.connect RelayClient.init
      RelayClient.set_state notify_all on_relay_state_change after_relay begin_reconnect
  relay_failed-pending e a r h = ground (arith, r.sleeps, r.goes_on, r.complete, r.relayed, h)

  relay_failed-sleeps :
      (e : Exn) (a : TunnelAgent)
      → IsReady a
      → a.max_webrtc_attempts ≤ a.webrtc_attempts
      → (failing e a).asleep ≡ a.asleep
  unfolding wake attempt try_relay_fallback fall_back RelayClient.connect RelayClient.init
      RelayClient.set_state notify_all on_relay_state_change after_relay begin_reconnect
  relay_failed-sleeps e a r h = ground (arith, r.sleeps, r.goes_on, r.complete, r.relayed, h)

  relay_failed-same :
      (e : Exn) (a : TunnelAgent)
      → a.max_webrtc_attempts ≤ a.webrtc_attempts
      → ((failing e a).should_reconnect ≡ a.should_reconnect)
        × (has_parameters (failing e a) ≡ has_parameters a)
        × ((failing e a).relay_url ≡ a.relay_url)
        × ((failing e a).webrtc_attempts ≡ a.webrtc_attempts)
        × ((failing e a).max_webrtc_attempts ≡ a.max_webrtc_attempts)
  unfolding wake attempt try_relay_fallback fall_back RelayClient.connect RelayClient.init
      RelayClient.set_state notify_all on_relay_state_change after_relay begin_reconnect
  relay_failed-same e a h = (
    ground (arith, h),
    ground (arith, h),
    ground (arith, h),
    ground (arith, h),
    ground (arith, h),
  )

  -- The relay is tried, and answers.
  relay_answers :
      (n : ℕ) (a : TunnelAgent)
      → IsReady a
      → a.max_webrtc_attempts ≤ a.webrtc_attempts
      → let b = wake openwebui (answered n) a in
        (b.connection_mode ≡ relay) × (is_connected b ≡ true) × (b.asleep + 1 ≡ a.asleep)
  unfolding wake attempt try_relay_fallback fall_back RelayClient.connect RelayClient.init
      RelayClient.set_state notify_all on_relay_state_change after_relay set_state is_connected
  relay_answers n a r h = (
    ground (arith, r.sleeps, r.goes_on, r.complete, r.relayed, h),
    ground (arith, r.sleeps, r.goes_on, r.complete, r.relayed, h),
    ground (arith, r.sleeps, r.goes_on, r.complete, r.relayed, h),
  )

  -- Several sleeps end, one after the other.
  unfoldable pub wakes : List Outcome → TunnelAgent → TunnelAgent
  wakes [] a = a
  wakes (outcome ∷ outcomes) a = wakes outcomes (wake openwebui outcome a)

  IsReady-by :
      (a b : TunnelAgent) (k : ℕ)
      → standing b ≡ record (standing a) { attempts = k }
      → IsReady a
      → IsReady b
  IsReady-by a b k e r = record {
    sleeps = subst (λ (s : Standing). 0 < s.asleep) (sym e) r.sleeps;
    goes_on = ap Standing.goes_on e ∙ r.goes_on;
    complete = ap Standing.complete e ∙ r.complete;
    relayed = ap (λ (s : Standing). truthy s.relay_url) e ∙ r.relayed;
  }

  -- A reconnection is asleep, reconnecting is allowed, and the parameters are given. When the
  -- signaling server then refuses the agent, or does not answer in time, as often as the agent has
  -- attempts left, and the relay answers next, the agent is connected, over the relay.
  pub wakes-falls_back :
      (outcomes : List Outcome) (n : ℕ) (a : TunnelAgent)
      → IsReady a
      → All Fails outcomes
      → a.webrtc_attempts + length outcomes ≡ a.max_webrtc_attempts
      → let b = wake openwebui (answered n) (wakes outcomes a) in
        (b.connection_mode ≡ relay) × (is_connected b ≡ true)
  unfolding wakes
  wakes-falls_back [] n a r f e =
      let done = relay_answers n a r (omega (arith, e)) in (done.0, done.1)
  wakes-falls_back (outcome ∷ outcomes) n a r (f, fs) e =
      let b = wake openwebui outcome a in
      let tried = signal_failed outcome a f r (omega (arith, e)) in
      wakes-falls_back outcomes n b (IsReady-by a b (suc a.webrtc_attempts) tried r) fs
        (omega (arith, e, ap Standing.attempts tried, ap Standing.max_attempts tried))

  -- A reconnection is asleep, reconnecting is allowed, and the parameters are given. With no attempt
  -- left, each time that the relay refuses the agent there is one reconnection more under way than
  -- before.
  pub wakes-multiplies :
      (es : List Exn) (a : TunnelAgent)
      → IsReady a
      → a.max_webrtc_attempts ≤ a.webrtc_attempts
      → pending (wakes (map raised es) a) ≡ pending a + length es
  unfolding wakes
  wakes-multiplies [] a r h = omega arith
  wakes-multiplies (e ∷ es) a r h =
      let same = relay_failed-same e a h in
      let b = failing e a in
      omega (
        arith,
        relay_failed-pending e a r h,
        wakes-multiplies es b
            (record {
              sleeps = subst (λ (k : ℕ). 0 < k) (sym (relay_failed-sleeps e a r h)) r.sleeps;
              goes_on = same.0 ∙ r.goes_on;
              complete = same.1 ∙ r.complete;
              relayed = ap truthy same.2 ∙ r.relayed;
            })
            (omega (arith, h, same.3, same.4)),
      )
