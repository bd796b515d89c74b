-- ===== src/Signaling/Connections.antt =====
-- cloud/signaling/app/api/signal.py: `class ConnectionManager`. Sockets are named by numbers.
use lem.Base.{ℕ, Bool, true, false, Option, none, some, List, [], ◌∷◌, ◌++◌, if◌then◌else◌, seq_eq}
use lem.Base.Dict.{Dict, lookup, put, remove}
use lem.Text.{Text}
use lem.Signaling.Message.{Outgoing}

-- `sent` and `closed` record what the sockets took: each object sent, and each `close` with its
-- code.
pub record Connections : Type 0 where
  pub active_connections : Dict Text ℕ
  pub sent : List (ℕ × Outgoing)
  pub closed : List (ℕ × ℕ)

-- Whether `send_json` succeeds on a socket.
abbrev pub World : Type 0
World = ℕ → Outgoing → Bool

unfoldable pub close_socket : ℕ → ℕ → Connections → Connections
close_socket websocket code s = record s { closed = s.closed ++ (websocket, code) ∷ [] }

replace_old : Option ℕ → Connections → Connections
unfolding close_socket
replace_old none s = s
replace_old (some old) s = close_socket old 1008 s

-- `connect`: an older connection of the device is closed, as a policy violation, and replaced.
-- `meanwhile` is what other endpoints do while that socket closes and the new one is accepted.
unfoldable pub connect : (Connections → Connections) → Text → ℕ → Connections → Connections
unfolding replace_old
connect meanwhile device_id websocket s =
    let s' = meanwhile (replace_old (lookup device_id s.active_connections) s) in
    record s' { active_connections = put device_id websocket s'.active_connections }

-- `disconnect`: removing what is not there changes nothing.
unfoldable pub disconnect : Text → Connections → Connections
disconnect device_id s = record s { active_connections = remove device_id s.active_connections }

-- `websocket.send_json`: false where it raises
unfoldable pub send_json : World → ℕ → Outgoing → Connections → Bool × Connections
send_json world websocket message s =
    if world websocket message
    then (true, record s { sent = s.sent ++ (websocket, message) ∷ [] })
    else (false, s)
