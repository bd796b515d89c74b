-- ===== src/Tunnel/WsProxy/Relay.antt =====
-- server/app/tunnel/ws_proxy.py: `_relay_upstream_messages`, the task of one connection.
pub mod Paired
pub mod Fidelity
use lem.Base.{
  ℕ, zero, suc, List, [], ◌∷◌, ◌++◌, Option, none, some, Result, ok, err, Exn, ◌>>=◌, nat_eq,
}
use lem.Base.Dict.{lookup, remove}
use lem.Text.{Text, Bytes, encode}
use lem.Text.Methods.{lit}
use lem.Tunnel.WsFrame.{WsDataFrame, WsCloseFrame, serialize_ws_data, serialize_ws_close}
use lem.Tunnel.WsFrame.Opcode
use lem.Tunnel.WsProxy.State.{WsProxyHandler, World, send_close}

-- What `async for msg in ws` meets: a message by its type, where `closed` carries
-- `ws.close_code`; an exception of the iteration, or the task's cancellation; and what other tasks
-- do to the state in between.
pub data Event : Type 0 where
  text : Text → Event
  binary ping pong : Bytes → Event
  closed : Option ℕ → Event
  error : Event
  raised : Exn → Event
  cancelled : Event
  others : (WsProxyHandler → WsProxyHandler) → Event

-- The loop goes on, or the task is at its `finally`.
pub data Flow : Type 0 where
  goes stops : WsProxyHandler → Flow

-- `ws.close_code or 1000`
abbrev pub close_code_or : Option ℕ → ℕ
close_code_or none = 1000
close_code_or (some zero) = 1000
close_code_or (some (suc n)) = suc n

module _ {V : Type 0} (world : World V) (conn_id : ℕ) where
  open world use {send_frame, message_of}

  data_bytes : ℕ → Bytes → Result Bytes
  data_bytes opcode payload =
      serialize_ws_data (record { connection_id = conn_id; opcode = opcode; payload = payload })

  -- `except Exception as e`
  failed : Exn → WsProxyHandler → Flow
  failed e h = stops (send_close world conn_id 1006 (lit "Relay error: " ++ message_of e) h)

  sent_frame : Bytes → Result (Unit {0}) → WsProxyHandler → Flow
  unfolding failed
  sent_frame bytes (ok _) h = goes (record h { sent = h.sent ++ bytes ∷ [] })
  sent_frame bytes (err e) h = failed e h

  -- `frame_data = serialize_...(...)` and `await self.send_frame(frame_data)` inside the `try`
  unfoldable pub send : Result Bytes → WsProxyHandler → Flow
  unfolding sent_frame
  send (ok bytes) h = sent_frame bytes (send_frame bytes) h
  send (err e) h = failed e h

  -- `break` behind a CLOSE frame
  last : Flow → Flow
  last (goes h) = stops h
  last (stops h) = stops h

  close_bytes : ℕ → Text → Result Bytes
  close_bytes code reason =
      serialize_ws_close (record { connection_id = conn_id; close_code = code; reason = reason })

  unfoldable pub on_event : Event → WsProxyHandler → Flow
  unfolding send last data_bytes close_bytes failed
  on_event (text s) h = send (encode s >>= λ payload. data_bytes Opcode.text payload) h
  on_event (binary payload) h = send (data_bytes Opcode.binary payload) h
  on_event (ping payload) h = send (data_bytes Opcode.ping payload) h
  on_event (pong payload) h = send (data_bytes Opcode.pong payload) h
  on_event (closed code) h =
      last (send (close_bytes (close_code_or code) (lit "Server closed connection")) h)
  on_event error h = last (send (close_bytes 1006 (lit "Upstream error")) h)
  on_event (raised e) h = failed e h
  on_event cancelled h = stops h
  on_event (others f) h = goes (f h)

  unfoldable pub relay_loop : List Event → WsProxyHandler → WsProxyHandler
  relay_loop [] h = h
  relay_loop (e ∷ es) h = elim (on_event e h) [ goes h' ↦ relay_loop es h' | stops h' ↦ h' ]

  -- `finally`
  unfoldable pub clean_up : WsProxyHandler → WsProxyHandler
  clean_up h = record h {
    connections = remove conn_id h.connections;
    relay_tasks = remove conn_id h.relay_tasks;
  }

  relay_on : List Event → Option ℕ → WsProxyHandler → WsProxyHandler
  relay_on events none h = h
  relay_on events (some ws) h = clean_up (relay_loop events h)

  unfoldable pub relay_upstream_messages : List Event → WsProxyHandler → WsProxyHandler
  unfolding relay_on
  relay_upstream_messages events h = relay_on events (lookup conn_id h.connections) h
