-- ===== src/Signaling/Schemas.antt =====
-- cloud/signaling/app/models/schemas.py: the messages of the relay coordination, as pydantic checks
-- them. The signaling endpoint itself does not use these classes.
use lem.Base.{
  ◌≡◌, Bool, true, false, ◌&&◌, ◌||◌, Option, none, some, List, [], ◌∷◌, ◌==◌, nat_beq, seq_eq,
  arith,
}
use lem.Base.Dict.{lookup}
use lem.Text.{Text}
use lem.Text.Methods.{lit}
use lem.Signaling.Message.{
  Value, str, atom, nested, null, Message, Outgoing, connect_request_received, connect_ack_received,
  get_or, outgoing,
}

-- `str`, `str | None` and `Literal[...]`
abbrev is_text : Value → Bool
is_text (str t) = true
is_text v = false

abbrev is_text_or_null : Value → Bool
is_text_or_null (str t) = true
is_text_or_null (atom n) = nat_beq n 0
is_text_or_null (nested n) = false

among : List Text → Text → Bool
among [] t = false
among (x ∷ xs) t = t == x || among xs t

literal : List Text → Value → Bool
unfolding among
literal ts (str t) = among ts t
literal ts v = false

-- A field without a default, and one with a default that fits.
abbrev required : (Value → Bool) → Option Value → Bool
required test none = false
required test (some v) = test v

abbrev optional : (Value → Bool) → Option Value → Bool
optional test none = true
optional test (some v) = test v

abbrev preferences : List Text
preferences = lit "webrtc" ∷ lit "relay" ∷ lit "auto" ∷ []

abbrev transports : List Text
transports = lit "webrtc" ∷ lit "relay" ∷ []

abbrev statuses : List Text
statuses = lit "connecting" ∷ lit "connected" ∷ lit "failed" ∷ []

-- `ConnectRequest`
unfoldable pub is_connect_request : Message → Bool
unfolding literal
is_connect_request m =
    required (literal (lit "connect-request" ∷ [])) (lookup (lit "type") m)
    && required is_text (lookup (lit "target_device_id") m)
    && optional (literal preferences) (lookup (lit "preferred_transport") m)
    && optional is_text_or_null (lookup (lit "relay_session_id") m)

-- `ConnectRequestReceived`
unfoldable pub is_connect_request_received : Message → Bool
unfolding literal
is_connect_request_received m =
    required (literal (lit "connect-request-received" ∷ [])) (lookup (lit "type") m)
    && required is_text (lookup (lit "from_device_id") m)
    && required (literal preferences) (lookup (lit "preferred_transport") m)
    && optional is_text_or_null (lookup (lit "relay_session_id") m)
    && optional is_text_or_null (lookup (lit "relay_url") m)

-- `ConnectAck`
unfoldable pub is_connect_ack : Message → Bool
unfolding literal
is_connect_ack m =
    required (literal (lit "connect-ack" ∷ [])) (lookup (lit "type") m)
    && required is_text (lookup (lit "target_device_id") m)
    && required (literal transports) (lookup (lit "transport") m)
    && optional is_text_or_null (lookup (lit "relay_session_id") m)
    && required (literal statuses) (lookup (lit "status") m)

-- `ConnectAckReceived`
unfoldable pub is_connect_ack_received : Message → Bool
unfolding literal
is_connect_ack_received m =
    required (literal (lit "connect-ack-received" ∷ [])) (lookup (lit "type") m)
    && required is_text (lookup (lit "from_device_id") m)
    && required (literal transports) (lookup (lit "transport") m)
    && optional is_text_or_null (lookup (lit "relay_session_id") m)
    && required (literal statuses) (lookup (lit "status") m)

-- The two notifications, as objects.
abbrev pub notification : Outgoing → Option Message
notification (connect_request_received sender transport session_id url) = some (
    (lit "type", str (lit "connect-request-received"))
    ∷ (lit "from_device_id", str sender)
    ∷ (lit "preferred_transport", transport)
    ∷ (lit "relay_session_id", session_id)
    ∷ (lit "relay_url", str url)
    ∷ [])
notification (connect_ack_received sender transport session_id status) = some (
    (lit "type", str (lit "connect-ack-received"))
    ∷ (lit "from_device_id", str sender)
    ∷ (lit "transport", transport)
    ∷ (lit "relay_session_id", session_id)
    ∷ (lit "status", status)
    ∷ [])
notification out = none

abbrev pub forwarded : Text → Text → Message → Outgoing
forwarded relay_url sender m = outgoing relay_url sender (get_or m (lit "type") null) m

-- The two messages of the coordination, the schemas of what is sent and of what is received.
pub data Kind : Type 0 where
  request acknowledgement : Kind

abbrev pub type_of : Kind → Text
type_of request = lit "connect-request"
type_of acknowledgement = lit "connect-ack"

abbrev pub is_sent : Kind → Message → Bool
is_sent request m = is_connect_request m
is_sent acknowledgement m = is_connect_ack m

abbrev pub is_received : Kind → Message → Bool
is_received request m = is_connect_request_received m
is_received acknowledgement m = is_connect_ack_received m

-- A message of the coordination, to a target that is a text, fits its schema if and only if the
-- notification that the endpoint makes of it fits that of the notification: what does not fit is
-- forwarded all the same.
pub is_received-notification :
    (relay_url sender target : Text) (kind : Kind) (m : Message)
    → lookup (lit "type") m ≡ some (str (type_of kind))
    → lookup (lit "target_device_id") m ≡ some (str target)
    → (n : Message) × (notification (forwarded relay_url sender m) ≡ some n)
      × (is_received kind n ≡ is_sent kind m)
unfolding outgoing is_connect_request is_connect_request_received is_connect_ack
    is_connect_ack_received lookup
is_received-notification relay_url sender target request m t d = (
  (lit "type", str (lit "connect-request-received"))
      ∷ (lit "from_device_id", str sender)
      ∷ (lit "preferred_transport", get_or m (lit "preferred_transport") (str (lit "auto")))
      ∷ (lit "relay_session_id", get_or m (lit "relay_session_id") null)
      ∷ (lit "relay_url", str relay_url)
      ∷ [],
  ground (arith, t),
  ground (arith, t, d),
)
is_received-notification relay_url sender target acknowledgement m t d = (
  (lit "type", str (lit "connect-ack-received"))
      ∷ (lit "from_device_id", str sender)
      ∷ (lit "transport", get_or m (lit "transport") null)
      ∷ (lit "relay_session_id", get_or m (lit "relay_session_id") null)
      ∷ (lit "status", get_or m (lit "status") null)
      ∷ [],
  ground (arith, t),
  ground (arith, t, d),
)
