-- ===== src/Tunnel/Agent/Resting.antt =====
-- While reconnecting is not allowed: what each operation leaves of the reconnections under way.
use lem.Base.{
  ℕ, zero, suc, ◌+◌, ◌-◌, ◌*◌, ◌≤◌, ◌≡◌, refl, sym, subst, ap, ◌∙◌, Bool, true, false, ◌&&◌, Option,
  none, some, List, [], ◌∷◌, if-both, Result, ok, err, arith, min, ltb, if◌then◌else◌,
}
use lem.Text.{Text}
use lem.Text.Methods.{truthy}
use lem.Tunnel.Manager.{connected, closed}
use lem.Tunnel.RelayClient
use lem.Tunnel.RelayClient.{RelayConnectionState}
use lem.Tunnel.Agent.State.{TunnelAgent, set_state, reset_webrtc_state, relay}
use lem.Tunnel.Agent.Reconnect.{
  Outcome, Ending, returns, cancelled, raises, begin_reconnect, reconnect_full, after_webrtc,
  on_relay_state_change, notify_all, after_relay, try_relay_fallback, fall_back, on_state, woken,
  begun, changed, relay_for, relay_answer, counted, attempt, reconnect_now, PcState, pc_connected,
  pc_failed, pc_closed, pc_other,
}
use lem.Tunnel.Agent.Untimed.{Timing, Tasks, timing, tasks_of, set_state-timing}
use lem.Tunnel.Agent.Paced.{failures, on_relay_state_change-timing, reconnect_full-timing}

-- Reconnecting is not allowed, at most `n` is left to do, and no sleep was begun.
pub record Rests (n : ℕ) (slept : List ℕ) (a : TunnelAgent) : Type 0 where
  pub allowed : a.should_reconnect ≡ false
  pub left : 2 * a.asleep + a.starting ≤ n
  pub slept_lem : a.slept ≡ slept

begin_reconnect-off : (a : TunnelAgent) → a.should_reconnect ≡ false → begin_reconnect a ≡ a
unfolding begin_reconnect
begin_reconnect-off a h = ground (arith, h)

module _ {n : ℕ} {slept : List ℕ} where
  pub by_tasks :
      (a b : TunnelAgent)
      → tasks_of b ≡ tasks_of a
      → b.slept ≡ a.slept
      → Rests n slept a
      → Rests n slept b
  by_tasks a b e f r = record {
    allowed = ap Tasks.allowed e ∙ r.allowed;
    left = subst (λ (t : Tasks). 2 * t.asleep + t.starting ≤ n) (sym e) r.left;
    slept_lem = f ∙ r.slept_lem;
  }

  pub by_timing : (a b : TunnelAgent) → timing b ≡ timing a → Rests n slept a → Rests n slept b
  by_timing a b e r = by_tasks a b (ap Timing.tasks e) (ap Timing.slept e) r

  pub begin_reconnect-Rests :
      (a : TunnelAgent) → Rests n slept a → Rests n slept (begin_reconnect a)
  begin_reconnect-Rests a r = subst (Rests n slept) (sym (begin_reconnect-off a r.allowed)) r

  after_webrtc-Rests :
      (e : Ending × TunnelAgent) → Rests n slept e.1 → Rests n slept (after_webrtc e)
  unfolding after_webrtc
  after_webrtc-Rests (returns, a) r = by_tasks a _ refl refl r
  after_webrtc-Rests (cancelled, a) r = begin_reconnect-Rests a r
  after_webrtc-Rests (raises x, a) r = begin_reconnect-Rests a r

  after_relay-Rests :
      (o : Result (Unit {0})) (a : TunnelAgent) → Rests n slept a → Rests n slept (after_relay o a)
  unfolding after_relay
  after_relay-Rests (err e) a r = begin_reconnect-Rests a r
  after_relay-Rests (ok u) a r =
      let b : TunnelAgent = record a { connection_mode = relay } in
      by_tasks (set_state connected b) _ refl refl (
        by_timing b (set_state connected b) (set_state-timing connected b)
          (by_tasks a b refl refl r))

pub more : (n m : ℕ) (slept : List ℕ) (a : TunnelAgent) → n ≤ m → Rests n slept a → Rests m slept a
more n m slept a h r = record {
  allowed = r.allowed;
  left = omega (arith, r.left);
  slept_lem = r.slept_lem;
}

pub on_relay_state_change-Rests :
    (s : RelayConnectionState) (n : ℕ) (slept : List ℕ) (a : TunnelAgent)
    → Rests n slept a
    → Rests (failures s + n) slept (on_relay_state_change s a)
on_relay_state_change-Rests s n slept a r =
    let e = on_relay_state_change-timing s a in
    record {
      allowed = ap (λ (t : Timing). t.tasks.allowed) e ∙ r.allowed;
      left =
          subst (λ (t : Timing). 2 * t.tasks.asleep + t.tasks.starting ≤ failures s + n) (sym e)
            (omega (arith, r.left));
      slept_lem = ap Timing.slept e ∙ r.slept_lem;
    }

all_failures : List RelayConnectionState → ℕ
all_failures [] = 0
all_failures (s ∷ ss) = failures s + all_failures ss

notify_all-Rests :
    (ss : List RelayConnectionState) (n : ℕ) (slept : List ℕ) (a : TunnelAgent)
    → Rests n slept a
    → Rests (all_failures ss + n) slept (notify_all ss a)
unfolding notify_all all_failures
notify_all-Rests [] n slept a r = more n (0 + n) slept a (omega arith) r
notify_all-Rests (s ∷ ss) n slept a r =
    more (all_failures ss + (failures s + n)) (failures s + all_failures ss + n) slept _
      (omega arith)
      (notify_all-Rests ss (failures s + n) slept _ (on_relay_state_change-Rests s n slept a r))

relay_for-failures :
    (openwebui : Result Text) (device_id token : Text) (answer : Result ℕ) (a : TunnelAgent)
    → all_failures (relay_for openwebui device_id token answer a).1.notified ≤ 1
unfolding all_failures RelayClient.connect RelayClient.init RelayClient.set_state
relay_for-failures openwebui device_id token answer a = ground arith

module _ (openwebui : Result Text) (n : ℕ) (slept : List ℕ) where
  fall_back-Rests :
      (device_id token : Option Text) (answer : Result ℕ) (a : TunnelAgent)
      → Rests n slept a
      → Rests (n + 1) slept (fall_back openwebui device_id token answer a)
  unfolding fall_back
  fall_back-Rests none token answer a r =
      more n (n + 1) slept _ (omega arith) (begin_reconnect-Rests a r)
  fall_back-Rests (some device_id) none answer a r =
      more n (n + 1) slept _ (omega arith) (begin_reconnect-Rests a r)
  fall_back-Rests (some device_id) (some token) answer a r =
      let made = relay_for openwebui device_id token answer a in
      let b : TunnelAgent = record a { relay_client = some made.1 } in
      if-both (Rests (n + 1) slept) (truthy device_id && truthy token)
        (after_relay-Rests made.0 (notify_all made.1.notified b) (
          more (all_failures made.1.notified + n) (n + 1) slept (notify_all made.1.notified b)
            (omega (arith, relay_for-failures openwebui device_id token answer a))
            (notify_all-Rests made.1.notified n slept b (by_tasks a b refl refl r))))
        (more n (n + 1) slept _ (omega arith) (begin_reconnect-Rests a r))

  attempt-Rests :
      (outcome : Outcome) (a : TunnelAgent)
      → Rests n slept a
      → Rests (n + 1) slept (attempt openwebui outcome a)
  unfolding attempt reset_webrtc_state try_relay_fallback
  attempt-Rests outcome a r =
      let b = counted openwebui a in
      let done = reconnect_full outcome b in
      if-both (Rests (n + 1) slept) (ltb a.webrtc_attempts a.max_webrtc_attempts)
        (more n (n + 1) slept (after_webrtc done) (omega arith) (
          after_webrtc-Rests done
            (by_timing b done.1 (reconnect_full-timing outcome b) (by_tasks a b refl refl r))))
        (fall_back-Rests a.device_id a.token (relay_answer openwebui outcome) a r)

module _ (openwebui : Result Text) (slept : List ℕ) where
  pub woken-Rests :
      (outcome : Outcome) (k n : ℕ) (a : TunnelAgent)
      → a.asleep ≡ k
      → Rests n slept a
      → Rests (n - min 1 k) slept (woken openwebui outcome k a)
  unfolding woken
  woken-Rests outcome zero n a e r = more n (n - min 1 zero) slept a (omega arith) r
  woken-Rests outcome (suc k) n a e r =
      let b : TunnelAgent = record a {
        asleep = k;
        reconnect_delay = min (a.reconnect_delay * 2) a.max_reconnect_delay;
      } in
      more (n - 2 + 1) (n - min 1 (suc k)) slept (attempt openwebui outcome b)
        (omega (arith, r.left, e))
        (attempt-Rests openwebui (n - 2) slept outcome b (record {
          allowed = r.allowed;
          left = omega (arith, r.left, e);
          slept_lem = r.slept_lem;
        }))

  pub begun-Rests :
      (k n : ℕ) (a : TunnelAgent)
      → a.starting ≡ k
      → Rests n slept a
      → Rests (n - min 1 k) slept (begun k a)
  unfolding begun
  begun-Rests zero n a e r = more n (n - min 1 zero) slept a (omega arith) r
  begun-Rests (suc k) n a e r =
      begin_reconnect-Rests (record a { starting = k })
        (record { allowed = r.allowed; left = omega (arith, r.left, e); slept_lem = r.slept_lem })

  on_state-Rests :
      (again : Bool) (s : PcState) (outcome : Outcome) (n : ℕ) (a : TunnelAgent)
      → Rests n slept a
      → Rests n slept (on_state openwebui again s outcome a)
  unfolding on_state reconnect_now
  on_state-Rests again pc_connected outcome n a r = by_timing a _ (set_state-timing _ a) r
  on_state-Rests again pc_failed outcome n a r =
      begin_reconnect-Rests _ (by_timing a _ (set_state-timing _ a) r)
  on_state-Rests true pc_closed outcome n a r =
      let b = set_state closed a in
      let q = by_timing a b (set_state-timing closed a) r in
      subst (λ t. Rests n slept (if t then attempt openwebui outcome b else b)) (sym q.allowed) q
  on_state-Rests false pc_closed outcome n a r =
      begin_reconnect-Rests _ (by_timing a _ (set_state-timing _ a) r)
  on_state-Rests again pc_other outcome n a r = r

  pub changed-Rests :
      (pc : Option ℕ) (again : Bool) (s : PcState) (outcome : Outcome) (n : ℕ) (a : TunnelAgent)
      → Rests n slept a
      → Rests n slept (changed openwebui pc again s outcome a)
  unfolding changed
  changed-Rests none again s outcome n a r = r
  changed-Rests (some i) again s outcome n a r = on_state-Rests again s outcome n a r
