-- ===== src/EndToEnd/Handshake.antt =====
-- cloud/signaling/app/api/signal.py and server/app/tunnel/webrtc_client.py together: a peer asks a
-- device for a relay session, and is told how that went.
use lem.Base.{
  ℕ, ◌≤◌, ◌≡◌, refl, sym, ap, subst, ◌∙◌, true, Option, none, some, [], ◌∷◌, ◌++◌, length,
  append_assoc, seq_eq, if◌then◌else◌, Result,
}
use lem.Base.Dict.{lookup}
use lem.Text.{Text}
use lem.Text.Methods.{lit, truthy}
use lem.Signaling.Message.{
  Value, str, null, Message, Parsed, object, Outgoing, reply, ack, connect_request_received,
  connect_ack_received, outgoing,
}
use lem.Signaling.Connections.{Connections, World}
use lem.Signaling.Endpoint.{on_text}
use lem.Signaling.Endpoint.Routing.{on_text-routes}
use lem.Tunnel.RelayClient
use lem.Tunnel.RelayClient.{open_socket}
use lem.Tunnel.Agent.State.{TunnelAgent, connect_ack}
use lem.Tunnel.Agent.Messages.{ConnectRequest}
use lem.Tunnel.Agent.Requests.{handle_connect_request, session_client}
use lem.Tunnel.Agent.Sessions.{relay_request, takes_all, request-acknowledges}

abbrev as_text : Value → Option Text
as_text (str t) = some t
as_text v = none

-- What the agent reads from the notification of a request.
abbrev pub request_of : Outgoing → Option ConnectRequest
request_of (connect_request_received sender transport session_id url) = some (record {
  from_device_id = some sender;
  preferred_transport = as_text transport;
  relay_session_id = as_text session_id;
  relay_url = some url;
})
request_of out = none

abbrev or_null : Option Text → Value
or_null none = null
or_null (some t) = str t

-- The object that `_send_connect_ack` sends.
abbrev pub ack_message : Text → Text → Option Text → Text → Message
ack_message target transport session_id status =
    (lit "type", str (lit "connect-ack"))
    ∷ (lit "target_device_id", str target)
    ∷ (lit "transport", str transport)
    ∷ (lit "relay_session_id", or_null session_id)
    ∷ (lit "status", str status)
    ∷ []

outgoing-request :
    (relay_url sender session_id : Text) (m : Message)
    → lookup (lit "preferred_transport") m ≡ some (str (lit "relay"))
    → lookup (lit "relay_session_id") m ≡ some (str session_id)
    → outgoing relay_url sender (str (lit "connect-request")) m
      ≡ connect_request_received sender (str (lit "relay")) (str session_id) relay_url
unfolding outgoing
outgoing-request relay_url sender session_id m t s = rw (t, s)

outgoing-ack :
    (relay_url sender target session_id status : Text)
    → outgoing relay_url sender
        (str (lit "connect-ack"))
        (ack_message target (lit "relay") (some session_id) status)
      ≡ connect_ack_received sender (str (lit "relay")) (str session_id) (str status)
unfolding outgoing lookup
outgoing-ack relay_url sender target session_id status = refl

ack-type :
    (target session_id status : Text)
    → lookup (lit "type") (ack_message target (lit "relay") (some session_id) status)
      ≡ some (str (lit "connect-ack"))
unfolding lookup
ack-type target session_id status = refl

ack-target :
    (target session_id status : Text)
    → lookup (lit "target_device_id") (ack_message target (lit "relay") (some session_id) status)
      ≡ some (str target)
unfolding lookup
ack-target target session_id status = refl

-- The notification of the request, and what the agent is to read from it.
abbrev pub notice : Text → Text → Text → Outgoing
notice relay_url peer session_id =
    connect_request_received peer (str (lit "relay")) (str session_id) relay_url

abbrev pub asked_for : Text → Text → Text → ConnectRequest
asked_for relay_url peer session_id = relay_request peer session_id (some relay_url)

module _ (openwebui : Result Text) (relay_url peer session_id : Text) (answer : Result ℕ)
    (a : TunnelAgent) where
  -- What the agent tells the peer: whether its relay client for the session is connected.
  abbrev pub told_status : Text
  told_status =
      if RelayClient.is_connected
        (session_client openwebui takes_all (asked_for relay_url peer session_id) session_id answer
          a).1
      then lit "connected"
      else lit "failed"

  abbrev pub after_request : TunnelAgent
  after_request =
      (handle_connect_request openwebui takes_all (asked_for relay_url peer session_id) answer a).1

module _ (relay_url : Text) (world : World) (loads : Text → Parsed)
    (takes : (ws : ℕ) (out : Outgoing) → world ws out ≡ true) (openwebui : Result Text)
    (peer device session_id : Text) (peer_ws device_ws : ℕ) where
  sent-routes :
      (sender text target : Text) (m : Message) (kind : Value) (out : Outgoing) (ws ws' : ℕ)
      (s : Connections)
      → loads text ≡ object m
      → lookup (lit "type") m ≡ some kind
      → lookup (lit "target_device_id") m ≡ some (str target)
      → length text ≤ 65536
      → lookup target s.active_connections ≡ some ws'
      → outgoing relay_url sender kind m ≡ out
      → on_text relay_url world loads sender ws text s
        ≡ (true, record s { sent = s.sent ++ (ws', out) ∷ (ws, reply (ack (str target))) ∷ [] })
  sent-routes sender text target m kind out ws ws' s parsed has_kind has_target small there shape =
      on_text-routes relay_url world loads sender ws text s m kind target ws' parsed has_kind
        has_target small there (takes _ _) (takes _ _)
      ∙ ap
          (λ (o : Outgoing). (
            true,
            record s { sent = (s.sent ++ (ws', o) ∷ []) ++ (ws, reply (ack (str target))) ∷ [] },
          ))
          shape
      ∙ ap (λ x. (true, record s { sent = x }))
          (append_assoc s.sent ((ws', out) ∷ []) ((ws, reply (ack (str target))) ∷ []))

  -- A peer and a device are connected to the signaling server, whose sockets take what they are
  -- sent, and the peer asks the device for a relay session that it names. Then the device gets the
  -- request, with the relay's URL and the peer as the server verified it, and the peer the
  -- acknowledgement of that. The device's agent reads it as that request, and sends one message. When
  -- that comes to the server in turn, the peer gets the outcome, from the device: connected if the
  -- agent's new relay client is, and failed otherwise.
  pub request-acknowledged :
      (asked told : Text) (m : Message) (answer : Result ℕ) (n : ℕ) (s : Connections)
      (a : TunnelAgent)
      → lookup peer s.active_connections ≡ some peer_ws
      → lookup device s.active_connections ≡ some device_ws
      → truthy peer ≡ true
      → truthy session_id ≡ true
      → a.ws ≡ open_socket n
      → loads asked ≡ object m
      → lookup (lit "type") m ≡ some (str (lit "connect-request"))
      → lookup (lit "target_device_id") m ≡ some (str device)
      → lookup (lit "preferred_transport") m ≡ some (str (lit "relay"))
      → lookup (lit "relay_session_id") m ≡ some (str session_id)
      → length asked ≤ 65536
      → loads told
        ≡ object (
            ack_message peer
              (lit "relay")
              (some session_id)
              (told_status openwebui relay_url peer session_id answer a))
      → length told ≤ 65536
      → let status = told_status openwebui relay_url peer session_id answer a in
        let first = (on_text relay_url world loads peer peer_ws asked s).1 in
        (first.sent
          ≡ s.sent
            ++ (device_ws, notice relay_url peer session_id)
              ∷ (peer_ws, reply (ack (str device)))
              ∷ [])
        × (request_of (notice relay_url peer session_id)
            ≡ some (asked_for relay_url peer session_id))
        × ((after_request openwebui relay_url peer session_id answer a).signaled
            ≡ a.signaled ++ connect_ack peer (lit "relay") (some session_id) status ∷ [])
        × ((on_text relay_url world loads device device_ws told first).1.sent
            ≡ first.sent
              ++ (
                peer_ws,
                connect_ack_received device (str (lit "relay")) (str session_id) (str status),
              )
                ∷ (device_ws, reply (ack (str peer)))
                ∷ [])
  request-acknowledged asked told m answer n s a at_peer at_device named session up parsed kind
        target transport id small parsed' small' =
      let status = told_status openwebui relay_url peer session_id answer a in
      let routed =
        sent-routes peer asked device m _ (notice relay_url peer session_id) peer_ws device_ws s
          parsed kind target small at_device
          (outgoing-request relay_url peer session_id m transport id) in
      (
        ap (λ x. x.1.sent) routed,
        refl,
        (request-acknowledges openwebui peer session_id (some relay_url) answer n a named session
            up).0,
        subst
            (λ x.
              (on_text relay_url world loads device device_ws told x.1).1.sent
              ≡ x.1.sent
                ++ (
                  peer_ws,
                  connect_ack_received device (str (lit "relay")) (str session_id) (str status),
                )
                  ∷ (device_ws, reply (ack (str peer)))
                  ∷ [])
            (sym routed)
            (ap (λ x. x.1.sent)
              (sent-routes device told peer
                (ack_message peer (lit "relay") (some session_id) status) (str (lit "connect-ack"))
                (connect_ack_received device (str (lit "relay")) (str session_id) (str status))
                device_ws peer_ws
                (record s {
                  sent =
                      s.sent
                      ++ (device_ws, notice relay_url peer session_id)
                        ∷ (peer_ws, reply (ack (str device)))
                        ∷ [];
                })
                parsed' (ack-type peer session_id status) (ack-target peer session_id status) small'
                at_peer (outgoing-ack relay_url device peer session_id status))),
      )
