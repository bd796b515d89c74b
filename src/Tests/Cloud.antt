-- ===== src/Tests/Cloud.antt =====
-- The relay server and the signaling server on concrete runs.
use lem.Base.{
  seq_beq, ℕ, map, ◌≢◌, ◌≡◌, refl, true, false, Option, none, some, List, [], ◌∷◌, ◌++◌, ◌==◌,
  seq_eq, nat_eq, if◌then◌else◌, ok, arith,
}
use lem.Base.Dict.{lookup, put, remove}
use lem.Text.{Text, Bytes}
use lem.Text.Methods.{lit}
use lem.RelayServer.Session.{
  RelaySession, Direction, client_to_server, server_to_client, passes, ends, init, add_connection,
  is_ready, close, on_event, exchange,
}
use lem.RelayServer.Exchange.{
  all_pass, exchange-forwards, exchange-ends, join_all, join_all-sides, frames, total,
}
use lem.RelayServer.Manager.{
  Manager, Handler, watching, Step, joins, resumes, meets, start, run, step, resume, join, admit,
  get_or_create_session, update, remove_session,
}
use lem.RelayServer.Manager.Sides.{IsIsolated}
use lem.RelayServer.Manager.Life.{served_session, run-serves}
use lem.RelayServer.Manager.Isolation.{AllNew, run-IsIsolated}
use lem.RelayServer.Manager.Stale.{stale_handler_closes}
use lem.Signaling.Message.{
  str, Message, Parsed, object, ack, not_connected, Outgoing, reply, outgoing,
}
use lem.Signaling.Connections.{Connections, World, connect, disconnect}
use lem.Signaling.Endpoint.{Auth, on_text, endpoint, verify_token_and_device}
use lem.Signaling.Endpoint.Routing.{on_text-routes, on_text-misses, named, named-outgoing}
use lem.Signaling.Endpoint.Eviction.{refused_evicts, replaced_evicts, reconnected}

abbrev session : RelaySession
unfolding init
session = record (init (lit "s")) { client_ws = some 1; server_ws = some 2 }

abbrev traffic : List (Direction × Bytes)
traffic = (client_to_server, 1 ∷ 2 ∷ []) ∷ (server_to_client, 3 ∷ []) ∷ []

exchange-forwards_test : exchange (all_pass traffic) session ≡ record session {
  to_server = session.to_server ++ frames client_to_server traffic;
  to_client = session.to_client ++ frames server_to_client traffic;
  bytes_client_to_server = 2;
  bytes_server_to_client = 1;
}
unfolding init frames total
exchange-forwards_test = exchange-forwards traffic session refl

exchange-ends_test :
    exchange
      (all_pass traffic ++ (ends client_to_server ∷ passes server_to_client (4 ∷ []) ∷ []))
      session
    ≡ record session {
      to_server = session.to_server ++ frames client_to_server traffic;
      to_client = session.to_client ++ frames server_to_client traffic;
      bytes_client_to_server = 2;
      bytes_server_to_client = 1;
      closed = true;
      closes = session.closes ++ (1 ∷ 2 ∷ []);
    }
unfolding init frames total
exchange-ends_test =
    exchange-ends traffic client_to_server (passes server_to_client (4 ∷ []) ∷ []) session 1 2 refl
      refl refl

join_all-sides_test :
    (join_all (1 ∷ 2 ∷ 3 ∷ []) (init (lit "s"))
      ≡ record (init (lit "s")) { client_ws = some 1; server_ws = some 2 })
    × ((add_connection 1 (init (lit "s"))).1 ≡ false)
    × ((add_connection 2 (add_connection 1 (init (lit "s"))).0).1 ≡ true)
    × (add_connection 4 (join_all (1 ∷ 2 ∷ 3 ∷ []) (init (lit "s")))
        ≡ (join_all (1 ∷ 2 ∷ 3 ∷ []) (init (lit "s")), false))
unfolding init
join_all-sides_test = join_all-sides 1 2 4 (3 ∷ []) (init (lit "s")) refl refl

-- Two clients are joined and their session ends; the handler that forwards leaves, two other clients
-- are joined under the same identifier, and the end of the handler that watches is due.
abbrev schedule : List Step
schedule =
    joins 1 (lit "s") true
    ∷ joins 2 (lit "s") true
    ∷ resumes 1
    ∷ meets 0 (ends client_to_server)
    ∷ resumes 2
    ∷ joins 3 (lit "s") true
    ∷ joins 4 (lit "s") true
    ∷ []

abbrev reached : Manager
unfolding run step join admit start get_or_create_session resume update remove_session lookup put
    remove init add_connection is_ready close on_event
reached = run schedule start

schedule-AllNew : AllNew schedule start
unfolding run step join admit start get_or_create_session resume update remove_session lookup put
    remove init add_connection is_ready close on_event
schedule-AllNew = (refl, (refl, (tt, (tt, (tt, (refl, (refl, tt)))))))

run-IsIsolated_example : IsIsolated (run schedule start)
run-IsIsolated_example = run-IsIsolated schedule schedule-AllNew

one_apart : ◌≢◌ {A = ℕ} 1 2
one_apart e = absurd (omega (arith, e))

abbrev served : Manager
served =
    run
      (joins 1 (lit "s") true
        ∷ joins 2 (lit "s") true
        ∷ resumes 1
        ∷ (map (meets start.next_ref) (all_pass traffic ++ ends server_to_client ∷ [])
            ++ (resumes 2 ∷ resumes 1 ∷ [])))
      start

start_free : lookup (lit "s") start.sessions ≡ none
unfolding start lookup
start_free = refl

run-serves_example :
    (lookup (lit "s") served.sessions ≡ none)
    × (lookup 1 served.handlers ≡ none)
    × (lookup 2 served.handlers ≡ none)
    × (lookup start.next_ref served.objects
        ≡ some (served_session 1 2 (lit "s") start one_apart start_free traffic))
run-serves_example = run-serves 1 2 (lit "s") start one_apart start_free traffic server_to_client

abbrev or_init : Option RelaySession → RelaySession
or_init none = session
or_init (some s) = s

abbrev watcher : Handler
watcher = record { session_id = lit "s"; session = 0; phase = watching }

abbrev old : RelaySession
unfolding run step join admit start get_or_create_session resume update remove_session lookup put
    remove init add_connection is_ready close on_event
old = or_init (lookup 0 reached.objects)

abbrev young : RelaySession
unfolding run step join admit start get_or_create_session resume update remove_session lookup put
    remove init add_connection is_ready close on_event
young = or_init (lookup 1 reached.objects)

reached_lookups :
    (lookup 1 reached.handlers ≡ some watcher)
    × (lookup 0 reached.objects ≡ some old)
    × (old.closed ≡ true)
    × (lookup (lit "s") reached.sessions ≡ some 1)
    × (lookup 1 reached.objects ≡ some young)
unfolding run step join admit start get_or_create_session resume update remove_session lookup put
    remove init add_connection is_ready close on_event
reached_lookups = (refl, refl, refl, refl, refl)

-- The second session is open and forwards when it is closed.
young_open : (young.closed ≡ false) × (young.forwarding_started ≡ true)
unfolding run step join admit start get_or_create_session resume update remove_session lookup put
    remove init add_connection is_ready close on_event
young_open = (refl, refl)

stale_handler_closes_example :
    (lookup (lit "s") (resume 1 reached).sessions ≡ none)
    × (lookup 1 (resume 1 reached).objects ≡ some (close young))
stale_handler_closes_example =
    stale_handler_closes 1 watcher old young 1 reached reached_lookups.0 refl reached_lookups.1
      reached_lookups.2 reached_lookups.3 reached_lookups.4

abbrev message : Message
message =
    (lit "type", str (lit "offer"))
    ∷ (lit "target_device_id", str (lit "b"))
    ∷ (lit "sender_device_id", str (lit "mallory"))
    ∷ []

abbrev parse : Text → Parsed
parse text = object message

-- Device `a` on socket 1 and device `b` on socket 2.
abbrev devices : Connections
devices = record { active_connections = (lit "a", 1) ∷ (lit "b", 2) ∷ []; sent = []; closed = [] }

abbrev alone : Connections
alone = record { active_connections = (lit "a", 1) ∷ []; sent = []; closed = [] }

abbrev willing : World
willing ws out = true

message-type : lookup (lit "type") message ≡ some (str (lit "offer"))
unfolding lookup
message-type = refl

message-target : lookup (lit "target_device_id") message ≡ some (str (lit "b"))
unfolding lookup
message-target = refl

abbrev to_b : Outgoing
to_b = outgoing (lit "ws://r") (lit "a") (str (lit "offer")) message

on_text-routes_test :
    on_text (lit "ws://r") willing parse (lit "a") 1 [] devices
    ≡ (true, record devices { sent = (2, to_b) ∷ (1, reply (ack (str (lit "b")))) ∷ [] })
on_text-routes_test =
    on_text-routes (lit "ws://r") willing parse (lit "a") 1 [] devices message (str (lit "offer"))
      (lit "b") 2 refl message-type message-target (omega arith) (unfold lookup in refl) refl refl

on_text-misses_test :
    on_text (lit "ws://r") willing parse (lit "a") 1 [] alone
    ≡ (true, record alone { sent = (1, reply (not_connected (str (lit "b")))) ∷ [] })
on_text-misses_test =
    on_text-misses (lit "ws://r") willing parse (lit "a") 1 [] alone message (str (lit "offer"))
      (lit "b") refl message-type message-target (omega arith) (unfold lookup in refl) refl

named-outgoing_test : named to_b ≡ some (str (lit "a"))
named-outgoing_test = named-outgoing (lit "ws://r") (lit "a") (str (lit "offer")) message

-- Every token is user 7's, who owns device `a` alone.
abbrev auth : Auth
auth = record { user_of = λ token. ok (some 7); owns = λ user device. device == lit "a" }

abbrev evicted : Connections
evicted = endpoint auth (lit "ws://r") willing parse (lit "t") (lit "b") 5 (λ s. s) [] devices

refused_evicts_example :
    (lookup (lit "b") evicted.active_connections
      ≡ (if seq_beq (lit "b") (lit "b") then none else lookup (lit "b") devices.active_connections))
    × (evicted.closed ≡ (5, 1008) ∷ [])
    × (evicted.sent ≡ [])
refused_evicts_example =
    refused_evicts auth (lit "ws://r") willing parse (lit "t") (lit "b") 5 (λ s. s) [] devices
      (lit "b") (unfold verify_token_and_device in refl)

abbrev nobody : Connections
nobody = record { active_connections = []; sent = []; closed = [] }

abbrev twice : Connections
twice =
    reconnected auth (lit "ws://r") willing parse (lit "t") (lit "a") 1 2 (λ s. s) (λ s. s) nobody

replaced_evicts_example :
    (lookup (lit "a") twice.active_connections ≡ none)
    × (twice.closed ≡ (1, 1008) ∷ [])
    × (lookup (lit "a") (connect (disconnect (lit "a")) (lit "a") 2 devices).active_connections
        ≡ some 2)
replaced_evicts_example =
    replaced_evicts auth (lit "ws://r") willing parse (lit "t") (lit "a") 1 2 (λ s. s) (λ s. s)
      nobody devices (unfold verify_token_and_device in refl) (unfold lookup in refl) refl
      (λ t. refl) (λ t. refl)
