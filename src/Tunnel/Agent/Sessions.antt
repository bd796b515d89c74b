-- ===== src/Tunnel/Agent/Sessions.antt =====
-- Requests to connect: relay sessions and acknowledgements.
use lem.Base.{
  ℕ, ◌≡◌, Bool, true, false, ◌&&◌, Option, some, [], ◌∷◌, ◌++◌, if◌then◌else◌, ◌==◌, seq_eq, Result,
  ok, err, arith,
}
use lem.Base.Dict.{lookup, lookup-put}
use lem.Text.{Text}
use lem.Text.Methods.{lit, truthy}
use lem.Tunnel.RelayClient
use lem.Tunnel.RelayClient.{RelayClient, open_socket}
use lem.Tunnel.Agent.State.{TunnelAgent, Signal, connect_ack, send_signaling_message}
use lem.Tunnel.Agent.Messages.{ConnectRequest, send_connect_ack, or_else}
use lem.Tunnel.Agent.Requests.{handle_connect_request, session_client}

abbrev is_ok {ℓ} : {A : Type ℓ} → Result A → Bool
is_ok (ok a) = true
is_ok (err e) = false

-- A request of `from` to use the relay, in the session `session_id`.
abbrev pub relay_request : Text → Text → Option Text → ConnectRequest
relay_request from session_id url = record {
  from_device_id = some from;
  preferred_transport = some (lit "relay");
  relay_session_id = some session_id;
  relay_url = url;
}

abbrev pub takes_all : Signal → Result (Unit {0})
takes_all s = ok tt

connect-is_ok :
    (url session_id token : Text) (answer : Result ℕ) (openwebui : Result Text) (local : Text)
    → RelayClient.is_connected
        (RelayClient.connect url session_id token answer (RelayClient.init openwebui local)).1
      ≡ is_ok (RelayClient.connect url session_id token answer (RelayClient.init openwebui local)).0
unfolding RelayClient.connect RelayClient.init RelayClient.set_state RelayClient.is_connected
connect-is_ok url session_id token answer openwebui local = ground arith

-- The signaling WebSocket is open and takes messages. Upon a request for a relay session that names
-- the requesting device and the session, one message is sent: it tells that device that it is
-- connected if the new relay client is, and that the attempt failed otherwise. The client is the
-- session's from then on if it is connected, and all other sessions stay.
pub request-acknowledges :
    (openwebui : Result Text) (from session_id : Text) (url : Option Text) (answer : Result ℕ)
    (n : ℕ) (a : TunnelAgent)
    → truthy from ≡ true
    → truthy session_id ≡ true
    → a.ws ≡ open_socket n
    → let r = relay_request from session_id url in
      let client = (session_client openwebui takes_all r session_id answer a).1 in
      let joined = RelayClient.is_connected client in
      let b = (handle_connect_request openwebui takes_all r answer a).1 in
      (b.signaled
        ≡ a.signaled
          ++ connect_ack from
              (lit "relay")
              (some session_id)
              (if joined then lit "connected" else lit "failed")
            ∷ [])
      × ((j : Text)
          → lookup j b.relay_sessions
            ≡ (if session_id == j && joined then some client else lookup j a.relay_sessions))
unfolding handle_connect_request send_connect_ack send_signaling_message
request-acknowledges openwebui from session_id url answer n a f s w =
    let made =
      session_client openwebui takes_all (relay_request from session_id url) session_id answer a in
    let same =
      connect-is_ok (or_else url a.relay_url) session_id (or_else a.token []) answer openwebui
        a.http_proxy.local_server_url in
    (
      ground (arith, f, s, w, same),
      λ j. ground (arith, f, s, w, same, lookup-put session_id j made.1 a.relay_sessions),
    )
