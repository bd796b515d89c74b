-- ===== src/Tunnel/Manager/Enabled.antt =====
-- server/app/tunnel/manager.py: when the tunnel counts as enabled, and what its status says.
use lem.Base.{
  ◌-◌, ◌≡◌, ◌↔◌, refl, ap, ◌∙◌, Bool, true, false, ◌&&◌, Option, none, some, List, [], ◌∷◌, ◌++◌,
  if◌then◌else◌, if-both, nat_beq, nat_beq_refl, Result, ok, err, Exn, ◌==◌, seq_eq, seq_beq_sound,
  seq_beq_complete, arith, length, drop, length-append, drop-length, Bool-cases, inl, inr,
}
use lem.Text.{Text}
use lem.Text.Methods.{lit, starts_with, ends_with, replace}
use lem.Tunnel.Manager.{
  ConnectionState, disconnected, connecting, connected, failed, closed, TunnelAgent, AuthState,
  TunnelManager, initial, number, is_running, signal_url_of, settled, start_with, start, stop,
  enable, disable, Status, logged_out, idle, active, mode_of, get_status, status_of, is_connected,
}

starts_with_refl : (p : Text) → starts_with p p ≡ true
unfolding starts_with
starts_with_refl [] = refl
starts_with_refl (x ∷ xs) = ground (arith, nat_beq_refl x, starts_with_refl xs)

ends_with-append : (s suffix : Text) → ends_with suffix (s ++ suffix) ≡ true
unfolding ends_with
ends_with-append s suffix =
    let e : drop (length (s ++ suffix) - length suffix) (s ++ suffix) ≡ suffix =
      ap (λ n. drop n (s ++ suffix)) (omega (arith, length-append s suffix))
      ∙ drop-length s suffix in
    rw e (ground (arith, starts_with_refl suffix, nat_beq_refl (length suffix)))

with_path-ends :
    (url : Text)
    → ends_with
        (lit "/signal")
        (if ends_with (lit "/signal") url then url else url ++ lit "/signal")
      ≡ true
with_path-ends url = elim (Bool-cases (ends_with (lit "/signal") url)) [
  | inl e ↦ rw (e, e)
  | inr e ↦ rw (e, ends_with-append url (lit "/signal"))
]

-- Whatever address was stored at the login, the URL that an agent is to connect to ends with the
-- path of the signaling endpoint.
pub signal_url_of-ends : (url : Text) → ends_with (lit "/signal") (signal_url_of url) ≡ true
unfolding signal_url_of
signal_url_of-ends url =
    with_path-ends
      (replace (lit "https://") (lit "wss://") (replace (lit "http://") (lit "ws://") url))

abbrev pub has_agent : TunnelManager → Bool
has_agent m = elim m.agent [ none ↦ false | some agent ↦ true ]

-- The calls of the manager, and a change of its agent's state.
pub data Op : Type 0 where
  starts : (Text → Text → Text → TunnelAgent × Result (Unit {0})) → Option AuthState → Op
  enables :
      (Text → Text → Text → TunnelAgent × Result (Unit {0}))
      → Option AuthState
      → Option AuthState
      → Op
  stops disables : Op
  moves : (TunnelAgent → TunnelAgent) → Op

unfoldable pub step : Op → TunnelManager → TunnelManager
step (starts connect auth) m = (start connect auth m).1
step (enables connect auth later) m = (enable connect auth later m).1
step stops m = stop m
step disables m = disable m
step (moves f) m = elim m.agent [ none ↦ m | some agent ↦ record m { agent = some (f agent) } ]

unfoldable pub run : List Op → TunnelManager → TunnelManager
run [] m = m
run (op ∷ ops) m = run ops (step op m)

settled-agrees :
    (joined : TunnelAgent) (r : Result (Unit {0})) (m : TunnelManager)
    → (settled joined r m).1.is_enabled ≡ has_agent (settled joined r m).1
unfolding settled
settled-agrees joined (ok u) m = refl
settled-agrees joined (err e) m = refl

start_with-agrees :
    (connect : Text → Text → Text → TunnelAgent × Result (Unit {0})) (auth : Option AuthState)
    (m : TunnelManager)
    → m.is_enabled ≡ has_agent m
    → (start_with connect auth m).1.is_enabled ≡ has_agent (start_with connect auth m).1
unfolding start_with
start_with-agrees connect none m e = e
start_with-agrees connect (some auth) m e =
    settled-agrees (connect (signal_url_of auth.signaling_url) auth.device_id auth.jwt_token).0
      (connect (signal_url_of auth.signaling_url) auth.device_id auth.jwt_token).1 m

start-agrees :
    (connect : Text → Text → Text → TunnelAgent × Result (Unit {0})) (auth : Option AuthState)
    (m : TunnelManager)
    → m.is_enabled ≡ has_agent m
    → (start connect auth m).1.is_enabled ≡ has_agent (start connect auth m).1
unfolding start
start-agrees connect auth m e =
    if-both (λ (r : Result (Unit {0}) × TunnelManager). r.1.is_enabled ≡ has_agent r.1)
      (is_running m.agent) e (start_with-agrees connect auth m e)

step-agrees :
    (op : Op) (m : TunnelManager)
    → m.is_enabled ≡ has_agent m
    → (step op m).is_enabled ≡ has_agent (step op m)
unfolding step stop enable
step-agrees (starts connect auth) m e = start-agrees connect auth m e
step-agrees (enables connect none later) m e = e
step-agrees (enables connect (some auth) later) m e = start-agrees connect later m e
step-agrees stops m e = ground (arith, e)
step-agrees disables m e = ground (arith, e)
step-agrees (moves f) m e = ground (arith, e)

run-agrees :
    (ops : List Op) (m : TunnelManager)
    → m.is_enabled ≡ has_agent m
    → (run ops m).is_enabled ≡ has_agent (run ops m)
unfolding run
run-agrees [] m e = e
run-agrees (op ∷ ops) m e = run-agrees ops (step op m) (step-agrees op m e)

-- However the manager is started, stopped, enabled and disabled, with connections that succeed or
-- fail and agents that change their state, the tunnel counts as enabled exactly while there is an
-- agent.
pub run-enabled : (ops : List Op) → (run ops initial).is_enabled ≡ has_agent (run ops initial)
run-enabled ops = run-agrees ops initial refl

-- With a login and a connection that raises, starting does nothing while an agent runs, in any
-- state but `DISCONNECTED`; otherwise it raises the same and leaves no agent.
pub start-once :
    (connect : Text → Text → Text → TunnelAgent × Result (Unit {0})) (auth : AuthState) (e : Exn)
    (m : TunnelManager)
    → (connect (signal_url_of auth.signaling_url) auth.device_id auth.jwt_token).1 ≡ err e
    → start connect (some auth) m ≡ (if is_running m.agent then (ok tt, m) else (err e, initial))
unfolding start start_with settled
start-once connect auth e m raises = rw raises

-- The entry `mode` of the status.
abbrev pub mode : Status → Text
mode logged_out = lit "offline"
mode (idle device_id) = lit "offline"
mode (active m device_id state channel connection) = m

relay-mode :
    (s : ConnectionState) (m : Text)
    → ((if nat_beq (number s) 2 && m == lit "relay" then lit "relay-ws" else mode_of s)
        ≡ lit "relay-ws")
      ↔ ((nat_beq (number s) 2 ≡ true) × (m ≡ lit "relay"))
relay-mode disconnected m = ((λ h. cc), (λ h. cc))
relay-mode connecting m = ((λ h. cc), (λ h. cc))
relay-mode connected m = elim (Bool-cases (m == lit "relay")) [
  | inl e ↦ rw e ((λ h. (refl, seq_beq_sound m (lit "relay") e)), (λ h. refl))
  | inr e ↦ rw e ((λ h. cc), (λ h. absurd (cc (e, seq_beq_complete m (lit "relay") h.1))))
]
relay-mode failed m = ((λ h. cc), (λ h. cc))
relay-mode closed m = ((λ h. cc), (λ h. cc))

-- With a login and an agent, the status says `relay-ws` exactly if the agent is connected and its
-- connection mode is the relay.
pub get_status-relay :
    (auth : AuthState) (agent : TunnelAgent) (m : TunnelManager)
    → m.agent ≡ some agent
    → (mode (get_status (some auth) m) ≡ lit "relay-ws")
      ↔ ((is_connected m ≡ true) × (agent.connection_mode ≡ lit "relay"))
unfolding get_status status_of is_connected
get_status-relay auth agent m has = rw has (relay-mode agent.state agent.connection_mode)
