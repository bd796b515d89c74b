-- ===== src/Tests/Agent.antt =====
-- The tunnel agent on concrete runs.
use lem.Base.{
  ◌≡◌, refl, true, false, ◌&&◌, none, some, List, [], ◌∷◌, ◌++◌, ◌+◌, ◌≤◌, map, if◌then◌else◌, ◌==◌,
  seq_eq, Result, ok, err, client_error, arith,
}
use lem.Base.Dict.{lookup}
use lem.Text.{Text}
use lem.Text.Methods.{lit}
use lem.Tunnel.RelayClient
use lem.Tunnel.RelayClient.{open_socket}
use lem.Tunnel.Agent.State.{TunnelAgent, init, disconnect, relay, connect_ack, is_connected}
use lem.Tunnel.Agent.Reconnect.{answered, raised, timed_out, pc_failed, wake}
use lem.Tunnel.Agent.Messages.{Peer, offered}
use lem.Tunnel.Agent.Requests.{handle_connect_request, session_client}
use lem.Tunnel.Agent.Runs
use lem.Tunnel.Agent.Runs.{Step, connects, receives, breaks, begins, disconnects, pc_changes}
use lem.Tunnel.Agent.Paced.{IsPaced}
use lem.Tunnel.Agent.Bounds.{run-bounded}
use lem.Tunnel.Agent.Quiet.{left_to_do, carried, reports, run-winds_down}
use lem.Tunnel.Agent.Unspent.{IsUnspent, run-stays_webrtc}
use lem.Tunnel.Agent.Fallback.{IsReady, pending, wakes, wakes-falls_back, wakes-multiplies}
use lem.Tunnel.Agent.Sessions.{relay_request, takes_all, request-acknowledges}
use lem.Tests.Fixtures.{headers_json, plain_urls}
use lem.Tests.Http.{world}
use lem.Tests.Ws.{upstream}

abbrev pub no_client : Result Text
no_client = err (client_error 9)

-- A peer connection that takes everything.
abbrev pub peer : Peer
peer = record {
  takes = λ n call. ok tt;
  offers = λ n. ok (record { sdp = lit "o"; kind = lit "offer" });
  answers = λ n. ok (record { sdp = lit "a"; kind = lit "answer" });
}

-- Connected to the signaling server over socket 4, and with a reconnection that is asleep.
unfoldable pub agent : TunnelAgent
unfolding init
agent = record (init no_client (lit "http://localhost:5142") (lit "ws://relay")) {
  signal_url = some (lit "ws://signal");
  device_id = some (lit "d");
  token = some (lit "t");
  ws = open_socket 4;
  pc = some 0;
  asleep = 1;
}

-- A login, a broken peer connection, two wakes without the signaling server, and an offer.
abbrev story : List Step
story =
    connects (lit "ws://signal") (lit "d") (lit "t") none none (answered 4)
    ∷ pc_changes false pc_failed timed_out
    ∷ Step.wakes timed_out
    ∷ Step.wakes (raised (client_error 1))
    ∷ receives (offered (some (lit "p")) (record { sdp = none; kind = none })) (ok 5)
    ∷ []

run-bounded_example : IsPaced (
    Runs.run no_client takes_all peer headers_json plain_urls world upstream
      (λ b. ok tt)
      story
      (init no_client (lit "http://localhost:5142") (lit "ws://relay")))
run-bounded_example =
    run-bounded no_client takes_all peer headers_json plain_urls world upstream (λ b. ok tt)
      (lit "http://localhost:5142") (lit "ws://relay") story

agent-IsReady : IsReady agent
unfolding agent
agent-IsReady = record { sleeps = omega arith; goes_on = refl; complete = refl; relayed = refl }

wakes-falls_back_example :
    ((wake no_client (answered 6) (
        wakes no_client
          (raised (client_error 1) ∷ timed_out ∷ timed_out ∷ [])
          agent)).connection_mode
      ≡ relay)
    × (is_connected (
          wake no_client
            (answered 6)
            (wakes no_client (raised (client_error 1) ∷ timed_out ∷ timed_out ∷ []) agent))
        ≡ true)
unfolding agent
wakes-falls_back_example =
    wakes-falls_back no_client (raised (client_error 1) ∷ timed_out ∷ timed_out ∷ []) 6 agent
      agent-IsReady (tt, (tt, (tt, tt))) refl

abbrev spent : TunnelAgent
spent = record agent { webrtc_attempts = 3 }

spent-IsReady : IsReady spent
unfolding agent
spent-IsReady = record { sleeps = omega arith; goes_on = refl; complete = refl; relayed = refl }

wakes-multiplies_example :
    pending (wakes no_client (map raised (client_error 1 ∷ client_error 1 ∷ [])) spent) ≡ 1 + 2
unfolding agent
wakes-multiplies_example =
    wakes-multiplies no_client (client_error 1 ∷ client_error 1 ∷ []) spent spent-IsReady
      (omega arith)

abbrev failures : List Step
failures =
    pc_changes false pc_failed (answered 5)
    ∷ Step.wakes (answered 5)
    ∷ pc_changes true pc_failed (answered 6)
    ∷ Step.wakes (answered 6)
    ∷ breaks
    ∷ Step.wakes (answered 7)
    ∷ []

run-stays_webrtc_example : IsUnspent (
    Runs.run no_client takes_all peer headers_json plain_urls world upstream
      (λ b. ok tt)
      failures
      agent)
unfolding agent
run-stays_webrtc_example =
    run-stays_webrtc no_client takes_all peer headers_json plain_urls world upstream (λ b. ok tt)
      failures agent (tt, (tt, (tt, (tt, (tt, (tt, tt))))))
      (record { attempts = refl; max_attempts = refl; mode = refl; complete = refl })

-- Behind the end: one wake-up whose relay connection fails, the start of the reconnection that this
-- made, and a wake-up with nothing to wake.
abbrev afterwards : List Step
afterwards = Step.wakes (raised (client_error 1)) ∷ begins ∷ Step.wakes timed_out ∷ []

run-winds_down_example :
    (carried no_client takes_all peer headers_json plain_urls world upstream
          (λ b. ok tt)
          afterwards
          (disconnect upstream agent)
        + left_to_do (
            Runs.run no_client takes_all peer headers_json plain_urls world upstream
              (λ b. ok tt)
              afterwards
              (disconnect upstream agent))
      ≤ left_to_do agent + reports afterwards)
    × ((Runs.run no_client takes_all peer headers_json plain_urls world upstream
          (λ b. ok tt)
          afterwards
          (disconnect upstream agent)).slept
        ≡ agent.slept)
run-winds_down_example =
    run-winds_down no_client takes_all peer headers_json plain_urls world upstream (λ b. ok tt)
      afterwards agent

request-acknowledges_example :
    ((handle_connect_request no_client takes_all
        (relay_request (lit "p") (lit "s") none)
        (ok 8)
        agent).1.signaled
      ≡ [] ++ connect_ack (lit "p") (lit "relay") (some (lit "s")) (lit "connected") ∷ [])
    × ((j : Text)
        → lookup j
            (handle_connect_request no_client takes_all
              (relay_request (lit "p") (lit "s") none)
              (ok 8)
              agent).1.relay_sessions
          ≡ (if lit "s" == j && true
              then some
                  (session_client no_client takes_all
                    (relay_request (lit "p") (lit "s") none)
                    (lit "s")
                    (ok 8)
                    agent).1
              else none))
unfolding agent lookup RelayClient.connect RelayClient.init RelayClient.set_state
    RelayClient.is_connected
request-acknowledges_example =
    request-acknowledges no_client (lit "p") (lit "s") none (ok 8) 4 agent refl refl refl
