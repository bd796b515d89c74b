-- ===== src/Signaling/Message.antt =====
-- cloud/signaling/app/api/signal.py: the messages that the endpoint reads, routes and answers.
use lem.Base.{ℕ, Bool, Option, none, some, seq_eq, if◌then◌else◌, ◌==◌}
use lem.Base.Dict.{Dict, lookup, put}
use lem.Text.{Text}
use lem.Text.Methods.{lit}

-- A JSON value, as far as the endpoint tells values apart: texts; other values that can be a
-- dictionary's key (`null` is the first of them); and lists and objects, which cannot.
pub data Value : Type 0 where
  str : Text → Value
  atom nested : ℕ → Value

abbrev pub null : Value
null = atom 0

abbrev pub Message : Type 0
Message = Dict Text Value

-- What `json.loads` makes of the received text: no JSON; a number, a boolean or null, for which
-- `in` raises; a text or a list, with whether both words are `in` it; or an object.
pub data Parsed : Type 0 where
  invalid : Parsed
  scalar : Parsed
  container : Bool → Parsed
  object : Message → Parsed

pub data Reply : Type 0 where
  connected : Text → Reply
  ack : Value → Reply
  invalid_format too_large invalid_json internal_error : Reply
  not_connected : Value → Reply

-- A JSON object that the server sends.
pub data Outgoing : Type 0 where
  reply : Reply → Outgoing
  connect_request_received : Text → Value → Value → Text → Outgoing
  connect_ack_received : Text → Value → Value → Value → Outgoing
  routed : Message → Outgoing

abbrev or_value : Option Value → Value → Value
or_value none d = d
or_value (some v) d = v

-- `message.get(key, d)`
abbrev pub get_or : Message → Text → Value → Value
get_or message key d = or_value (lookup key message) d

abbrev is_str : Value → Text → Bool
is_str (str s) t = s == t
is_str _ t = Bool.false

-- What the target gets: the two messages of the relay coordination are rewritten, all others are
-- routed with the sender's identifier set.
unfoldable pub outgoing : Text → Text → Value → Message → Outgoing
outgoing relay_url sender msg_type message =
    if is_str msg_type (lit "connect-request")
    then connect_request_received sender
        (get_or message (lit "preferred_transport") (str (lit "auto")))
        (get_or message (lit "relay_session_id") null) relay_url
    else if is_str msg_type (lit "connect-ack")
    then connect_ack_received sender (get_or message (lit "transport") null)
        (get_or message (lit "relay_session_id") null) (get_or message (lit "status") null)
    else routed (put (lit "sender_device_id") (str sender) message)
