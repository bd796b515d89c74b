-- ===== src/Signaling/Endpoint/Routing.antt =====
-- cloud/signaling/app/api/signal.py: who gets what when a text arrives.
use lem.Base.{
  ℕ, ◌≤◌, ◌≡◌, Bool, true, Option, none, some, [], ◌∷◌, ◌++◌, length, seq_eq, arith, ge→ltb,
}
use lem.Base.Dict.{lookup, contains-found, lookup-put}
use lem.Text.{Text}
use lem.Text.Methods.{lit}
use lem.Signaling.Message.{
  Value, str, Message, Parsed, object, ack, not_connected, Outgoing, reply,
  connect_request_received, connect_ack_received, routed, outgoing,
}
use lem.Signaling.Connections.{Connections, World, send_json}
use lem.Signaling.Endpoint.{on_text, deliver, delivered, answer}

module _ (relay_url : Text) (world : World) (loads : Text → Parsed) (sender : Text) (websocket : ℕ)
    (text : Text) (s : Connections) where
  -- The state with one object more sent.
  abbrev pub with_sent : ℕ → Outgoing → Connections → Connections
  with_sent ws out t = record t { sent = t.sent ++ (ws, out) ∷ [] }

  abbrev handled : Bool × Connections
  handled = on_text relay_url world loads sender websocket text s

  -- A well-formed message of at most 64 KB to a connected device: the device's socket gets its
  -- rewritten form, once, and the sender gets the acknowledgement, if both sockets take what they
  -- are sent; no one else gets anything, the table of connections stays, and the loop goes on.
  pub on_text-routes :
      (message : Message) (kind : Value) (target : Text) (ws : ℕ)
      → loads text ≡ object message
      → lookup (lit "type") message ≡ some kind
      → lookup (lit "target_device_id") message ≡ some (str target)
      → length text ≤ 65536
      → lookup target s.active_connections ≡ some ws
      → world ws (outgoing relay_url sender kind message) ≡ true
      → world websocket (reply (ack (str target))) ≡ true
      → on_text relay_url world loads sender websocket text s ≡ (
        true,
        with_sent websocket
            (reply (ack (str target)))
            (with_sent ws (outgoing relay_url sender kind message) s),
      )
  unfolding on_text send_json
  on_text-routes message kind target ws parsed has_kind has_target small there takes acks =
      rw (parsed, contains-found _ _ message has_kind, contains-found _ _ message has_target)
        (rw (ge→ltb 65536 (length text) small, has_kind, has_target)
          (rw (there, deliver) (rw (takes, delivered) (rw (acks, answer)))))

  -- A well-formed message of at most 64 KB to a device that is not connected: nothing is sent but
  -- the error to the sender, if its socket takes it, and the loop goes on.
  pub on_text-misses :
      (message : Message) (kind : Value) (target : Text)
      → loads text ≡ object message
      → lookup (lit "type") message ≡ some kind
      → lookup (lit "target_device_id") message ≡ some (str target)
      → length text ≤ 65536
      → lookup target s.active_connections ≡ none
      → world websocket (reply (not_connected (str target))) ≡ true
      → on_text relay_url world loads sender websocket text s
        ≡ (true, with_sent websocket (reply (not_connected (str target))) s)
  unfolding on_text send_json
  on_text-misses message kind target parsed has_kind has_target small missing tells =
      rw (parsed, contains-found _ _ message has_kind, contains-found _ _ message has_target)
        (rw (ge→ltb 65536 (length text) small, has_kind, has_target)
          (rw (missing, deliver) (rw (tells, answer))))

-- The device that a routed object names as its sender.
abbrev pub named : Outgoing → Option Value
named (connect_request_received sender _ _ _) = some (str sender)
named (connect_ack_received sender _ _ _) = some (str sender)
named (routed message) = lookup (lit "sender_device_id") message
named (reply r) = none

-- Whatever a client writes into its message, also a `sender_device_id` of its own, the object that
-- is sent to the target names the device that the client was verified as.
pub named-outgoing :
    (relay_url sender : Text) (kind : Value) (message : Message)
    → named (outgoing relay_url sender kind message) ≡ some (str sender)
unfolding outgoing
named-outgoing relay_url sender kind message =
    ground
      (arith, lookup-put (lit "sender_device_id") (lit "sender_device_id") (str sender) message)
