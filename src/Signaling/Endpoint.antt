-- ===== src/Signaling/Endpoint.antt =====
-- cloud/signaling/app/api/signal.py: `websocket_signal_endpoint`. Token decoding and the device
-- table are arguments, and so is whether a socket takes what is sent.
pub mod Routing
pub mod Eviction
pub mod Verify
use lem.Base.{
  ℕ, ◌*◌, Bool, true, false, not, ◌&&◌, Option, none, some, List, [], ◌∷◌, ltb, length,
  if◌then◌else◌, seq_eq, Result, ok, err,
}
use lem.Base.Dict.{lookup, contains}
use lem.Text.{Text}
use lem.Text.Methods.{lit}
use lem.Signaling.Message.{
  Value, str, atom, nested, null, Message, Parsed, invalid, scalar, container, object, Reply,
  connected, ack, invalid_format, too_large, invalid_json, internal_error, not_connected, Outgoing,
  reply, outgoing, get_or,
}
use lem.Signaling.Connections.{Connections, World, close_socket, connect, disconnect, send_json}

-- `decode_access_token(token).get("user_id")`, and whether the table has the device for the user.
pub record Auth : Type 0 where
  pub user_of : Text → Result (Option ℕ)
  pub owns : ℕ → Text → Bool

owner : Auth → Text → Result (Option ℕ) → Bool
owner auth device_id (err e) = false
owner auth device_id (ok none) = false
owner auth device_id (ok (some user_id)) = auth.owns user_id device_id

-- `verify_token_and_device`: false where it raises ValueError
unfoldable pub verify_token_and_device : Auth → Text → Text → Bool
unfolding owner
verify_token_and_device auth token device_id = owner auth device_id (auth.user_of token)

-- What the body of the inner `try` comes to: it raised, or it sent its answer.
pub data Outcome : Type 0 where
  raised answered : Connections → Outcome

module _ (relay_url : Text) (world : World) (loads : Text → Parsed) (sender : Text)
    (websocket : ℕ) where
  answer_with : Bool × Connections → Outcome
  answer_with (true, s) = answered s
  answer_with (false, s) = raised s

  -- `await websocket.send_json(...)` to the sender itself
  answer : Reply → Connections → Outcome
  unfolding answer_with
  answer r s = answer_with (send_json world websocket (reply r) s)

  delivered : Value → Bool × Connections → Outcome
  unfolding answer
  delivered target (true, s) = answer (ack target) s
  delivered target (false, s) = raised s

  deliver : Value → Outgoing → Option ℕ → Connections → Outcome
  unfolding delivered
  deliver target out none s = answer (not_connected target) s
  deliver target out (some ws) s = delivered target (send_json world ws out s)

  -- `send_message`: a list or an object as the target raises, for it is no key
  send_message : Value → Outgoing → Connections → Outcome
  unfolding deliver
  send_message (str target) out s = deliver (str target) out (lookup target s.active_connections) s
  send_message (atom n) out s = deliver (atom n) out none s
  send_message (nested n) out s = raised s

  check_size : Text → Message → Connections → Outcome
  unfolding send_message
  check_size text message s =
      if ltb (64 * 1024) (length text)
      then answer too_large s
      else send_message (get_or message (lit "target_device_id") null)
          (outgoing relay_url sender (get_or message (lit "type") null) message) s

  unfoldable pub process : Text → Parsed → Connections → Outcome
  unfolding check_size
  process text invalid s = answer invalid_json s
  process text scalar s = raised s
  process text (container true) s =
      if ltb (64 * 1024) (length text) then answer too_large s else raised s
  process text (container false) s = answer invalid_format s
  process text (object message) s =
      if contains (lit "type") message && contains (lit "target_device_id") message
      then check_size text message s
      else answer invalid_format s

  -- Behind an exception of the inner `try`: the loop goes on unless the error cannot be sent either.
  -- For text that is no JSON the answer is itself sent by an `except` arm.
  recovered : Parsed → Outcome → Bool × Connections
  recovered p (answered s) = (true, s)
  recovered invalid (raised s) = (false, s)
  recovered p (raised s) = send_json world websocket (reply internal_error) s

  -- One turn of the loop; false where it is left.
  unfoldable pub on_text : Text → Connections → Bool × Connections
  unfolding process recovered
  on_text text s = recovered (loads text) (process text (loads text) s)

-- What happens to the endpoint: a text arrives, or other endpoints change the connections.
pub data Event : Type 0 where
  receives : Text → Event
  others : (Connections → Connections) → Event

module _ (auth : Auth) (relay_url : Text) (world : World) (loads : Text → Parsed) where
  -- The loop, until the events are over or an answer cannot be sent.
  unfoldable pub serve : Text → ℕ → List Event → Connections → Connections
  serve sender websocket [] s = s
  serve sender websocket (others f ∷ es) s = serve sender websocket es (f s)
  serve sender websocket (receives text ∷ es) s =
      let (goes, s') = on_text relay_url world loads sender websocket text s in
      let rest = serve sender websocket es s' in if goes then rest else s'

  confirmed : Text → ℕ → List Event → Bool × Connections → Connections
  unfolding serve
  confirmed sender websocket es (true, s) = serve sender websocket es s
  confirmed sender websocket es (false, s) = s

  -- `websocket_signal_endpoint`; the `finally` disconnects the device on every way out.
  -- `meanwhile` belongs to its `connect`.
  unfoldable pub endpoint :
      Text → Text → ℕ → (Connections → Connections) → List Event → Connections → Connections
  unfolding confirmed
  endpoint token device_id websocket meanwhile es s =
      let joined = connect meanwhile device_id websocket s in
      let session =
        confirmed device_id websocket es
          (send_json world websocket (reply (connected device_id)) joined) in
      disconnect device_id (
        if verify_token_and_device auth token device_id
        then session
        else close_socket websocket 1008 s)
