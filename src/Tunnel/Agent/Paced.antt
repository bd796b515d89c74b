-- ===== src/Tunnel/Agent/Paced.antt =====
-- Reconnecting keeps the agent's attempts, its delay and its sleeps in bounds.
use lem.Base.{
  ℕ, zero, suc, ◌+◌, ◌≤◌, ◌≡◌, refl, sym, subst, Bool, true, false, ◌&&◌, Option, none, some, List,
  [], ◌∷◌, ◌++◌, ◌*◌, if-both, Result, ok, err, arith, All, min, ltb, Bool-cases, inl, inr,
}
use lem.Text.{Text}
use lem.Text.Methods.{truthy}
use lem.Tunnel.Manager.{connected, closed}
use lem.Tunnel.RelayClient.{RelayConnectionState, failed, closed_}
use lem.Tunnel.Agent.State.{TunnelAgent, Mode, IceServer, set_state, reset_webrtc_state, relay}
use lem.Tunnel.Agent.Reconnect.{
  Outcome, Ending, returns, cancelled, raises, begin_reconnect, connect_signaling, connect,
  reconnect_full, after_webrtc, on_relay_state_change, notify_all, after_relay, try_relay_fallback,
  fall_back, on_state, woken, begun, changed, relay_for, relay_answer, counted, attempt,
  reconnect_now, wake, begin_task, PcState, pc_connected, pc_failed, pc_closed, pc_other,
  on_connectionstatechange,
}
use lem.Tunnel.Agent.Untimed.{Timing, Tasks, timing, tasks_of, set_state-timing}

-- A sleep of two seconds at least, and of a minute at most.
abbrev InRange : ℕ → Type 0
InRange d = (2 ≤ d) × (d ≤ 60)

-- Not more than three attempts, and a delay and sleeps in range.
pub record IsPaced (a : TunnelAgent) : Type 0 where
  pub attempts : a.webrtc_attempts ≤ 3
  pub max_attempts : a.max_webrtc_attempts ≡ 3
  pub delay : InRange a.reconnect_delay
  pub max_delay : a.max_reconnect_delay ≡ 60
  pub slept : All InRange a.slept

-- The mode, the parameters and the tasks do not matter.
pub by_pace :
    (a b : TunnelAgent) (m : Mode) (c : Bool) {t : Tasks}
    → timing b ≡ record (timing a) { mode = m; complete = c; tasks = t }
    → IsPaced a
    → IsPaced b
by_pace a b m c e p = record {
  attempts = subst (λ (t : Timing). t.attempts ≤ 3) (sym e) p.attempts;
  max_attempts = subst (λ (t : Timing). t.max_attempts ≡ 3) (sym e) p.max_attempts;
  delay = subst (λ (t : Timing). InRange t.delay) (sym e) p.delay;
  max_delay = subst (λ (t : Timing). t.max_delay ≡ 60) (sym e) p.max_delay;
  slept = subst (λ (t : Timing). All InRange t.slept) (sym e) p.slept;
}

pub by_timing :
    (a b : TunnelAgent) {t : Tasks}
    → timing b ≡ record (timing a) { tasks = t }
    → IsPaced a
    → IsPaced b
by_timing a b e p = by_pace a b a.connection_mode (timing a).complete e p

-- The delay may become any in range.
IsPaced-with :
    (a : TunnelAgent) (d : ℕ) → InRange d → IsPaced a → IsPaced (record a { reconnect_delay = d })
IsPaced-with a d h p = record {
  attempts = p.attempts;
  max_attempts = p.max_attempts;
  delay = h;
  max_delay = p.max_delay;
  slept = p.slept;
}

pub two : InRange 2
two = (omega arith, omega arith)

All-snoc : (ds : List ℕ) (d : ℕ) → All InRange ds → InRange d → All InRange (ds ++ d ∷ [])
All-snoc [] d all p = (p, tt)
All-snoc (e ∷ ds) d (q, all) p = (q, All-snoc ds d all p)

pub begin_reconnect-Paced : (a : TunnelAgent) → IsPaced a → IsPaced (begin_reconnect a)
unfolding begin_reconnect
begin_reconnect-Paced a p =
    if-both IsPaced a.should_reconnect
      (record {
        attempts = p.attempts;
        max_attempts = p.max_attempts;
        delay = p.delay;
        max_delay = p.max_delay;
        slept = All-snoc a.slept a.reconnect_delay p.slept p.delay;
      })
      p

pub connect_signaling-timing :
    (outcome : Outcome) (a : TunnelAgent) → timing (connect_signaling outcome a).1 ≡ timing a
unfolding connect_signaling set_state
connect_signaling-timing outcome a = ground arith

-- The parameters that `connect` sets.
pub connect-pace :
    (url device_id token : Text) (target : Option Text) (servers : Option (List IceServer))
    (outcome : Outcome) (a : TunnelAgent)
    → timing (connect url device_id token target servers outcome a).1
      ≡ record (timing a) { complete = truthy url && (truthy device_id && truthy token) }
unfolding connect connect_signaling set_state
connect-pace url device_id token target servers outcome a = ground arith

pub reconnect_full-timing :
    (outcome : Outcome) (a : TunnelAgent) → timing (reconnect_full outcome a).1 ≡ timing a
unfolding reconnect_full connect_signaling set_state
reconnect_full-timing outcome a = ground arith

after_webrtc-Paced : (r : Ending × TunnelAgent) → IsPaced r.1 → IsPaced (after_webrtc r)
unfolding after_webrtc
after_webrtc-Paced (returns, a) p = record {
  attempts = omega arith;
  max_attempts = p.max_attempts;
  delay = two;
  max_delay = p.max_delay;
  slept = p.slept;
}
after_webrtc-Paced (cancelled, a) p = begin_reconnect-Paced a p
after_webrtc-Paced (raises e, a) p = begin_reconnect-Paced a p

-- The states of the relay client that start a reconnection.
abbrev pub failures : RelayConnectionState → ℕ
failures failed = 1
failures closed_ = 1
failures s = 0

pub on_relay_state_change-timing :
    (s : RelayConnectionState) (a : TunnelAgent)
    → timing (on_relay_state_change s a)
      ≡ record (timing a) { tasks = record (tasks_of a) { starting = failures s + a.starting } }
unfolding on_relay_state_change
on_relay_state_change-timing s a = ground arith

notify_all-Paced :
    (ss : List RelayConnectionState) (a : TunnelAgent) → IsPaced a → IsPaced (notify_all ss a)
unfolding notify_all
notify_all-Paced [] a p = p
notify_all-Paced (s ∷ ss) a p =
    notify_all-Paced ss _ (by_timing _ _ (on_relay_state_change-timing s a) p)

after_relay-Paced :
    (r : Result (Unit {0})) (a : TunnelAgent) → IsPaced a → IsPaced (after_relay r a)
unfolding after_relay
after_relay-Paced (err e) a p = begin_reconnect-Paced a p
after_relay-Paced (ok u) a p =
    let b = set_state connected (record a { connection_mode = relay }) in
    IsPaced-with b 2 two (
      by_pace a b relay (timing a).complete
        (set_state-timing connected (record a { connection_mode = relay })) p)

module _ (openwebui : Result Text) where
  fall_back-Paced :
      (device_id token : Option Text) (answer : Result ℕ) (a : TunnelAgent)
      → IsPaced a
      → IsPaced (fall_back openwebui device_id token answer a)
  unfolding fall_back
  fall_back-Paced none token answer a p = begin_reconnect-Paced a p
  fall_back-Paced (some device_id) none answer a p = begin_reconnect-Paced a p
  fall_back-Paced (some device_id) (some token) answer a p =
      let made = relay_for openwebui device_id token answer a in
      if-both IsPaced (truthy device_id && truthy token)
        (after_relay-Paced made.0 _ (
          notify_all-Paced made.1.notified _
            (by_timing a (record a { relay_client = some made.1 }) refl p)))
        (begin_reconnect-Paced a p)

  attempt-Paced :
      (outcome : Outcome) (a : TunnelAgent) → IsPaced a → IsPaced (attempt openwebui outcome a)
  unfolding attempt reset_webrtc_state try_relay_fallback
  attempt-Paced outcome a p = elim (Bool-cases (ltb a.webrtc_attempts a.max_webrtc_attempts)) [
    | inl h ↦ rw h (
        after_webrtc-Paced (reconnect_full outcome (counted openwebui a)) (
          by_timing (counted openwebui a) (reconnect_full outcome (counted openwebui a)).1
            (reconnect_full-timing outcome (counted openwebui a)) (more h)))
    | inr h ↦ rw h (fall_back-Paced a.device_id a.token (relay_answer openwebui outcome) a p)
  ]
    where
      more : ltb a.webrtc_attempts a.max_webrtc_attempts ≡ true → IsPaced (counted openwebui a)
      more h = record {
        attempts = ground (arith, p.attempts, p.max_attempts, h);
        max_attempts = p.max_attempts;
        delay = p.delay;
        max_delay = p.max_delay;
        slept = p.slept;
      }

  woken-Paced :
      (outcome : Outcome) (k : ℕ) (a : TunnelAgent)
      → IsPaced a
      → IsPaced (woken openwebui outcome k a)
  unfolding woken
  woken-Paced outcome zero a p = p
  woken-Paced outcome (suc k) a p = attempt-Paced outcome _ (
      by_timing (record a { reconnect_delay = min (a.reconnect_delay * 2) a.max_reconnect_delay }) _
        refl (IsPaced-with a _ (doubled a p) p))
    where
      doubled :
          (a : TunnelAgent)
          → IsPaced a
          → InRange (min (a.reconnect_delay * 2) a.max_reconnect_delay)
      doubled a p = (
        omega (arith, p.delay.0, p.delay.1, p.max_delay),
        omega (arith, p.delay.0, p.delay.1, p.max_delay),
      )

  begun-Paced : (k : ℕ) (a : TunnelAgent) → IsPaced a → IsPaced (begun k a)
  unfolding begun
  begun-Paced zero a p = p
  begun-Paced (suc k) a p = begin_reconnect-Paced _ (by_timing a (record a { starting = k }) refl p)

  on_state-Paced :
      (again : Bool) (s : PcState) (outcome : Outcome) (a : TunnelAgent)
      → IsPaced a
      → IsPaced (on_state openwebui again s outcome a)
  unfolding on_state reconnect_now
  on_state-Paced again pc_connected outcome a p = by_timing _ _ (set_state-timing _ a) p
  on_state-Paced again pc_failed outcome a p =
      begin_reconnect-Paced _ (by_timing _ _ (set_state-timing _ a) p)
  on_state-Paced true pc_closed outcome a p =
      let b = set_state closed a in
      let q = by_timing a b (set_state-timing closed a) p in
      if-both IsPaced b.should_reconnect (attempt-Paced outcome b q) q
  on_state-Paced false pc_closed outcome a p =
      begin_reconnect-Paced _ (by_timing _ _ (set_state-timing _ a) p)
  on_state-Paced again pc_other outcome a p = p

  changed-Paced :
      (pc : Option ℕ) (again : Bool) (s : PcState) (outcome : Outcome) (a : TunnelAgent)
      → IsPaced a
      → IsPaced (changed openwebui pc again s outcome a)
  unfolding changed
  changed-Paced none again s outcome a p = p
  changed-Paced (some n) again s outcome a p = on_state-Paced again s outcome a p

  pub wake-Paced :
      (outcome : Outcome) (a : TunnelAgent) → IsPaced a → IsPaced (wake openwebui outcome a)
  unfolding wake
  wake-Paced outcome a p = woken-Paced outcome a.asleep a p

  pub begin_task-Paced : (a : TunnelAgent) → IsPaced a → IsPaced (begin_task a)
  unfolding begin_task
  begin_task-Paced a p = begun-Paced a.starting a p

  pub on_connectionstatechange-Paced :
      (again : Bool) (s : PcState) (outcome : Outcome) (a : TunnelAgent)
      → IsPaced a
      → IsPaced (on_connectionstatechange openwebui again s outcome a)
  unfolding on_connectionstatechange
  on_connectionstatechange-Paced again s outcome a p = changed-Paced a.pc again s outcome a p
