-- ===== src/Tests/EndToEnd.antt =====
-- Requests that pass over the relay, on concrete values.
use lem.Base.{
  ◌≡◌, ◌++◌, arith, refl, List, [], ◌∷◌, map, true, some, none, Result, client_error, ok, All,
}
use lem.Text.{Text, Bytes}
use lem.Text.Methods.{lit}
use lem.Tunnel.HttpFrame.{deserialize_response}
use lem.RelayServer.Session
use lem.RelayServer.Session.{
  RelaySession, Direction, client_to_server, server_to_client, exchange, on_event,
}
use lem.RelayServer.Exchange.{all_pass, frames}
use lem.EndToEnd.Relayed.{
  Call, IsServed, delivered, opposite, outcome_of, handle_messages-answers, relayed-answers,
}
use lem.Base.Dict.{lookup}
use lem.Signaling.Message.{str, Message, Parsed, object, Outgoing, ack, connect_ack_received}
use lem.Signaling.Schemas.{
  Kind, notification, forwarded, is_received, is_sent, is_received-notification,
}
use lem.Signaling.Connections.{Connections, World}
use lem.Signaling.Endpoint.{on_text}
use lem.Tunnel.Agent.State.{connect_ack, init}
use lem.EndToEnd.Handshake.{
  asked_for, told_status, after_request, notice, request_of, ack_message, request-acknowledged,
}
use lem.EndToEnd.Typed.{IsFitFrom, run-IsFitFrom}
use lem.Tunnel.Agent.Runs
use lem.Tunnel.Agent.Runs.{Step, connects, receives}
use lem.Tunnel.Agent.Reconnect.{answered}
use lem.Tunnel.Agent.Messages.{connect_request}
use lem.Tunnel.Agent.Sessions.{relay_request, takes_all}
use lem.Tunnel.Manager
use lem.Tunnel.Manager.{AuthState, initial, get_status, active, connecting, connected}
use lem.Tunnel.Agent.State.{get_data_channel_state}
use lem.Tunnel.Agent.Reconnect.{Outcome, raised, timed_out}
use lem.EndToEnd.Status.{view, connects_with, started, fallen_back, start-falls_back}
use lem.Tests.Agent.{peer, agent, no_client}
use lem.Tests.Fixtures.{Headers, headers_json, plain_urls}
use lem.Tests.Frames.{request_bytes, request-written, request}
use lem.Tests.Http.{proxy, world, reply, routed, replied}
use lem.Tests.Ws.{upstream}
use lem.Tests.Relay.{client}

-- The server joined second.
abbrev session : RelaySession
unfolding Session.init
session = record (Session.init (lit "s")) { client_ws = some 1; server_ws = some 2 }

abbrev call : Call Headers
call = record {
  frame = request;
  frame_bytes = request_bytes;
  target = lit "http://localhost:5142";
  reply = reply;
}

-- A request, and its reply.
abbrev traffic : List (Direction × Bytes)
traffic = (client_to_server, request_bytes) ∷ (server_to_client, reply) ∷ []

call-IsServed : IsServed headers_json plain_urls world upstream (λ b. ok tt) proxy.router call
call-IsServed = record {
  written = request-written;
  routed = routed;
  replied = replied;
  taken = refl;
}

relayed-answers_example :
    (map
        (deserialize_response headers_json)
        (delivered (opposite client_to_server) (exchange (all_pass traffic) session))
      ≡ map
          (λ (c : Call Headers).
            ok (outcome_of headers_json plain_urls world upstream (λ b. ok tt) c))
          (call ∷ []))
    × (map
          (λ (c : Call Headers).
            (outcome_of headers_json plain_urls world upstream (λ b. ok tt) c).request_id)
          (call ∷ [])
        ≡ map (λ (c : Call Headers). c.frame.request_id) (call ∷ []))
unfolding exchange on_event frames session
relayed-answers_example =
    relayed-answers headers_json plain_urls world upstream (λ b. ok tt) client_to_server traffic
      (call ∷ []) 4 session client refl refl refl refl refl (call-IsServed, tt) refl
      (handle_messages-answers headers_json plain_urls world upstream (λ b. ok tt) (call ∷ []) 4
        client refl refl (call-IsServed, tt))

-- Peer `p` on socket 1 asks device `d` on socket 2 for the relay session `s`.
abbrev asks : Message
asks =
    (lit "type", str (lit "connect-request"))
    ∷ (lit "target_device_id", str (lit "d"))
    ∷ (lit "preferred_transport", str (lit "relay"))
    ∷ (lit "relay_session_id", str (lit "s"))
    ∷ []

abbrev both : Connections
both = record { active_connections = (lit "p", 1) ∷ (lit "d", 2) ∷ []; sent = []; closed = [] }

abbrev status : Text
status = told_status no_client (lit "ws://r") (lit "p") (lit "s") (ok 8) agent

-- The empty text stands for the request, and all others for the acknowledgement.
abbrev parses : Text → Parsed
parses [] = object asks
parses (c ∷ cs) = object (ack_message (lit "p") (lit "relay") (some (lit "s")) status)

abbrev willing : World
willing ws out = true

request-acknowledged_example :
    ((on_text (lit "ws://r") willing parses (lit "p") 1 [] both).1.sent
      ≡ []
        ++ (2, notice (lit "ws://r") (lit "p") (lit "s"))
          ∷ (1, Outgoing.reply (ack (str (lit "d"))))
          ∷ [])
    × (request_of (notice (lit "ws://r") (lit "p") (lit "s"))
        ≡ some (asked_for (lit "ws://r") (lit "p") (lit "s")))
    × ((after_request no_client (lit "ws://r") (lit "p") (lit "s") (ok 8) agent).signaled
        ≡ agent.signaled ++ connect_ack (lit "p") (lit "relay") (some (lit "s")) status ∷ [])
    × ((on_text
          (lit "ws://r")
          willing
          parses
          (lit "d")
          2
          (b'a' ∷ [])
          (on_text (lit "ws://r") willing parses (lit "p") 1 [] both).1).1.sent
        ≡ (on_text (lit "ws://r") willing parses (lit "p") 1 [] both).1.sent
          ++ (1, connect_ack_received (lit "d") (str (lit "relay")) (str (lit "s")) (str status))
            ∷ (2, Outgoing.reply (ack (str (lit "p"))))
            ∷ [])
unfolding lookup agent
request-acknowledged_example =
    request-acknowledged (lit "ws://r") willing parses (λ ws out. refl) no_client (lit "p")
      (lit "d") (lit "s") 1 2 [] (b'a' ∷ []) asks (ok 8) 4 both agent refl refl refl refl refl refl
      refl refl refl refl (omega arith) refl (omega arith)

-- A login, a request for a relay session and one to use WebRTC.
abbrev asked_twice : List Step
asked_twice =
    connects (lit "ws://signal") (lit "d") (lit "t") none none (answered 4)
    ∷ receives (connect_request (relay_request (lit "p") (lit "s") none)) (ok 8)
    ∷ receives
        (connect_request (record {
          from_device_id = some (lit "q");
          preferred_transport = none;
          relay_session_id = none;
          relay_url = none;
        }))
        (ok 8)
    ∷ []

run-IsFitFrom_example :
    All
      (IsFitFrom (lit "ws://r") (lit "d"))
      (Runs.run no_client takes_all peer headers_json plain_urls world upstream
        (λ b. ok tt)
        asked_twice
        (init no_client (lit "http://localhost:5142") (lit "ws://relay"))).signaled
run-IsFitFrom_example =
    run-IsFitFrom no_client takes_all peer headers_json plain_urls world upstream (λ b. ok tt)
      (lit "http://localhost:5142") (lit "ws://relay") (lit "ws://r") (lit "d") asked_twice

is_received-notification_example :
    (n : Message) × (notification (forwarded (lit "ws://r") (lit "p") asks) ≡ some n)
    × (is_received Kind.request n ≡ is_sent Kind.request asks)
unfolding lookup
is_received-notification_example =
    is_received-notification (lit "ws://r") (lit "p") (lit "d") Kind.request asks refl refl

abbrev stored_login : AuthState
stored_login = record {
  jwt_token = lit "t";
  device_id = lit "d";
  signaling_url = lit "https://signal";
}

-- The signaling server is down, slow and down again.
abbrev refusals : List Outcome
refusals = raised (client_error 1) ∷ timed_out ∷ raised (client_error 2) ∷ []

abbrev joins : Text → Text → Text → Manager.TunnelAgent × Result (Unit {0})
joins = connects_with no_client (lit "http://localhost:5142") (lit "ws://r") (answered 4)

start-falls_back_example :
    (Manager.start joins (some stored_login) initial ≡ (
      ok tt,
      record initial {
        agent =
            some (
              view (started no_client (lit "http://localhost:5142") (lit "ws://r") 4 stored_login));
        is_enabled = true;
      },
    ))
    × (get_status (some stored_login) (Manager.start joins (some stored_login) initial).1
        ≡ active (lit "connecting") (lit "d") connecting (lit "none") (lit "webrtc"))
    × (get_status (some stored_login) (record (Manager.start joins (some stored_login) initial).1 {
      agent = some (
          view (
            fallen_back no_client
              (lit "http://localhost:5142")
              (lit "ws://r")
              4
              stored_login
              refusals
              9));
    })
        ≡ active
            (lit "relay-ws")
            (lit "d")
            connected
            (get_data_channel_state (
              fallen_back no_client
                (lit "http://localhost:5142")
                (lit "ws://r")
                4
                stored_login
                refusals
                9))
            (lit "relay"))
start-falls_back_example =
    start-falls_back no_client (lit "http://localhost:5142") (lit "ws://r") 4 stored_login refusals
      9 initial refl refl refl refl (tt, (tt, (tt, tt))) refl
