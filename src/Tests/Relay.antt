-- ===== src/Tests/Relay.antt =====
-- The relay client on concrete requests and reconnections.
use lem.Base.{◌≡◌, refl, true, false, some, [], ◌∷◌, ◌++◌, ok, err, client_error, not_connected}
use lem.Text.Methods.{lit}
use lem.Tunnel.HttpProxy.{opened}
use lem.Tunnel.RelayClient.{
  RelayClient, connected, open_socket, is_connected, disconnect, send, handle_reconnect,
  handle_relay_message,
}
use lem.Tunnel.RelayClient.Reconnect.{
  Recovered, failing, succeeds, backoff, undone, handle_reconnect-recovers, disconnect-stops,
  disconnect_is_undone,
}
use lem.Tunnel.RelayClient.Answers.{handle_relay_message-answers}
use lem.Tests.Fixtures.{headers_json, plain_urls}
use lem.Tests.Frames.{request_bytes, request-written, request}
use lem.Tests.Http.{proxy, world, reply, routed, replied}
use lem.Tests.Ws.{stored, upstream}

-- A client that is connected over socket 4.
abbrev pub client : RelayClient
client = record {
  relay_url = some (lit "ws://relay");
  session_id = some (lit "s");
  token = some (lit "t");
  ws = open_socket 4;
  ws_session = opened;
  http_proxy = proxy;
  ws_proxy = stored;
  state = connected;
  should_reconnect = true;
  reconnect_delay = 2;
  max_reconnect_delay = 60;
  sent = [];
  notified = [];
  slept = [];
  tasks = 4 ∷ [];
}

backoff_test :
    backoff 2 60 0 (
      client_error 0
      ∷ client_error 0
      ∷ client_error 0
      ∷ client_error 0
      ∷ client_error 0
      ∷ client_error 0
      ∷ [])
    ≡ 2 ∷ 4 ∷ 8 ∷ 16 ∷ 32 ∷ 60 ∷ 60 ∷ []
unfolding backoff
backoff_test = refl

handle_reconnect-recovers_example :
    Recovered 5
      ([] ++ backoff 2 60 0 (client_error 0 ∷ client_error 1 ∷ []))
      (handle_reconnect (failing (client_error 0 ∷ client_error 1 ∷ []) ++ succeeds 5 ∷ []) client)
handle_reconnect-recovers_example =
    handle_reconnect-recovers (client_error 0 ∷ client_error 1 ∷ []) 5 [] client refl refl refl refl

disconnect-stops_test :
    (is_connected (disconnect upstream client) ≡ false)
    × (send (λ b. ok tt) (1 ∷ []) (disconnect upstream client)
        ≡ (err not_connected, disconnect upstream client))
    × (handle_reconnect (succeeds 5 ∷ []) (disconnect upstream client) ≡ disconnect upstream client)
disconnect-stops_test = disconnect-stops upstream client (λ b. ok tt) (1 ∷ []) (succeeds 5 ∷ [])

disconnect_is_undone_example :
    (is_connected (undone upstream 5 [] client) ≡ true)
    × ((undone upstream 5 [] client).ws ≡ open_socket 5)
    × ((undone upstream 5 [] client).should_reconnect ≡ false)
disconnect_is_undone_example = disconnect_is_undone upstream 5 [] client refl refl

handle_relay_message-answers_test :
    handle_relay_message headers_json plain_urls world upstream (λ b. ok tt) request_bytes client
    ≡ record client { sent = [] ++ (4, reply) ∷ [] }
handle_relay_message-answers_test =
    handle_relay_message-answers headers_json plain_urls world upstream (λ b. ok tt) request
      request_bytes reply (lit "http://localhost:5142") 4 client refl request-written routed replied
      refl refl
