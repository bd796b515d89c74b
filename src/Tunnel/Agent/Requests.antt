-- ===== src/Tunnel/Agent/Requests.antt =====
-- server/app/tunnel/webrtc_client.py: what a message of the signaling server does, and the loop that
-- reads them.
use lem.Base.{
  ℕ, ◌&&◌, ◌||◌, none, some, List, [], ◌∷◌, if◌then◌else◌, ◌==◌, seq_eq, Result, ok, err,
}
use lem.Base.Dict.{put}
use lem.Text.{Text}
use lem.Text.Methods.{lit}
use lem.Tunnel.RelayClient
use lem.Tunnel.RelayClient.{RelayClient, Socket, no_socket, open_socket, shut_socket, given}
use lem.Tunnel.Agent.State.{TunnelAgent, Signal}
use lem.Tunnel.Agent.Reconnect.{begin_reconnect}
use lem.Tunnel.Agent.Messages.{
  OutcomeOf, or_else, Peer, Message, ConnectRequest, confirmed, error, ack, other, offered,
  answered, ice, connect_request, set_remote_description, add_ice_candidate, on_offer, described,
  send_connect_ack,
}

-- What `async for msg in self.ws` meets: a text, which is JSON or not, with the answer that a
-- relay gives; the two types that end the loop; an exception of the iteration; another type; and
-- what other coroutines do meanwhile.
pub data Incoming : Type 0 where
  text : Result Message → Result ℕ → Incoming
  closes errs raises passed_over : Incoming
  others : (TunnelAgent → TunnelAgent) → Incoming

module _ (openwebui : Result Text) (accepts : Signal → Result (Unit {0})) where
  abbrev pub transport_of : ConnectRequest → Text
  transport_of r = or_else r.preferred_transport (lit "auto")

  -- The new relay client of a session, connected or not.
  abbrev pub session_client :
      ConnectRequest → Text → Result ℕ → TunnelAgent → Result (Unit {0}) × RelayClient
  session_client r session_id answer a =
      RelayClient.connect (or_else r.relay_url a.relay_url) session_id (or_else a.token []) answer
        (RelayClient.init openwebui a.http_proxy.local_server_url)

  -- What catches an exception of the `try`: the failure is told.
  or_failed : Text → Text → OutcomeOf (Unit {0}) → OutcomeOf (Unit {0})
  or_failed from_device_id session_id (ok u, a) = (ok u, a)
  or_failed from_device_id session_id (err e, a) =
      send_connect_ack accepts from_device_id (lit "relay") (some session_id) (lit "failed") a

  established : Text → Text → Result (Unit {0}) × RelayClient → TunnelAgent → OutcomeOf (Unit {0})
  established from_device_id session_id (err e, client) a = (err e, a)
  established from_device_id session_id (ok u, client) a =
      send_connect_ack accepts from_device_id (lit "relay") (some session_id) (lit "connected")
        (record a { relay_sessions = put session_id client a.relay_sessions })

  request_from : Text → ConnectRequest → Result ℕ → TunnelAgent → OutcomeOf (Unit {0})
  unfolding or_failed established
  request_from from_device_id r answer a =
      let session_id = or_else r.relay_session_id [] in
      if transport_of r == lit "relay" && given r.relay_session_id
      then or_failed from_device_id session_id
          (established from_device_id session_id (session_client r session_id answer a) a)
      else if transport_of r == lit "webrtc" || transport_of r == lit "auto"
      then send_connect_ack accepts from_device_id (lit "webrtc") none (lit "connecting") a
      else (ok tt, a)

  -- `_handle_connect_request`; `answer` is what opening the relay's WebSocket gives.
  unfoldable pub handle_connect_request :
      ConnectRequest → Result ℕ → TunnelAgent → OutcomeOf (Unit {0})
  unfolding request_from
  handle_connect_request r answer a =
      if given r.from_device_id
      then request_from (or_else r.from_device_id []) r answer a
      else (ok tt, a)

  module _ (peer : Peer) where
    -- `_process_signaling_message`
    unfoldable pub process_signaling_message :
        Message → Result ℕ → TunnelAgent → OutcomeOf (Unit {0})
    process_signaling_message confirmed answer a = (ok tt, a)
    process_signaling_message error answer a = (ok tt, a)
    process_signaling_message ack answer a = (ok tt, a)
    process_signaling_message other answer a = (ok tt, a)
    process_signaling_message (offered sender p) answer a = on_offer peer accepts sender p a
    process_signaling_message (answered p) answer a =
        set_remote_description peer (described (lit "answer") p) a
    process_signaling_message (ice c) answer a = add_ice_candidate peer c a
    process_signaling_message (connect_request r) answer a = handle_connect_request r answer a

    -- The `except` around the loop.
    unfoldable pub caught : OutcomeOf (Unit {0}) → TunnelAgent → TunnelAgent
    caught (ok u, a) rest = rest
    caught (err e, a) rest = begin_reconnect a

    unfoldable pub process_text : Result Message → Result ℕ → TunnelAgent → OutcomeOf (Unit {0})
    unfolding process_signaling_message
    process_text (err e) answer a = (err e, a)
    process_text (ok m) answer a = process_signaling_message m answer a

    unfoldable pub read_loop : List Incoming → TunnelAgent → TunnelAgent
    unfolding caught process_text
    read_loop [] a = a
    read_loop (text m answer ∷ ms) a =
        let done = process_text m answer a in let rest = read_loop ms done.1 in caught done rest
    read_loop (closes ∷ ms) a = a
    read_loop (errs ∷ ms) a = begin_reconnect a
    read_loop (raises ∷ ms) a = begin_reconnect a
    read_loop (passed_over ∷ ms) a = read_loop ms a
    read_loop (others f ∷ ms) a = read_loop ms (f a)

    -- `_handle_signaling_messages`
    unfoldable pub handle_signaling_messages : List Incoming → TunnelAgent → TunnelAgent
    unfolding read_loop
    handle_signaling_messages ms a = elim a.ws [
      | no_socket ↦ a
      | open_socket n ↦ read_loop ms a
      | shut_socket n ↦ read_loop ms a
    ]
