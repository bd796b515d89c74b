-- ===== src/Tunnel/WsProxy/Connect/Effects.antt =====
-- server/app/tunnel/ws_proxy.py: what the client's frames do to the upstream connections.
use lem.Base.{
  ℕ, ◌≡◌, ◌∙◌, ap, true, false, [], ◌∷◌, ◌++◌, ◌==◌, nat_eq, if◌then◌else◌, none, some, ok, arith,
  Option-cases, nat_beq_iff, append-nil, inl, inr,
}
use lem.Base.Dict.{lookup, contains, lookup-remove}
use lem.Text.{Bytes, encode}
use lem.Text.RoundTrip.{decode-encode}
use lem.Json.{Json}
use lem.Tunnel.HttpProxy.{is_absent}
use lem.Tunnel.Router.{Urllib}
use lem.Tunnel.WsFrame.{
  WsConnectFrame, WsDataFrame, WsCloseFrame, serialize_ws_connect, serialize_ws_data,
  serialize_ws_close,
}
use lem.Tunnel.WsFrame.Connect.{deserialize-serialize_ws_connect}
use lem.Tunnel.WsFrame.Data.{deserialize-serialize_ws_data}
use lem.Tunnel.WsFrame.Close.{deserialize-serialize_ws_close}
use lem.Tunnel.WsFrame.Opcode
use lem.Tunnel.WsProxy.State.{
  Call, send_str, send_bytes, ping, pong, close, WsProxyHandler, World, on_socket,
}
use lem.Tunnel.WsProxy.Connect.{
  store, dial, dialled, connect_frame, handle_connect, send_text, forward, data_frame, handle_data,
  cancel, forget, closed, close_with, close_known, close_frame, handle_close,
}

-- The call on the upstream socket that a DATA frame asks for.
abbrev pub Asks : WsDataFrame → Call → Type 0
Asks f (send_str s) = (f.opcode ≡ Opcode.text) × (encode s ≡ ok f.payload)
Asks f (send_bytes b) = (f.opcode ≡ Opcode.binary) × (f.payload ≡ b)
Asks f (ping b) = (f.opcode ≡ Opcode.ping) × (f.payload ≡ b)
Asks f (pong b) = (f.opcode ≡ Opcode.pong) × (f.payload ≡ b)
Asks f _ = ⊥

on_socket-ok :
    {V : Type 0} (world : World V) (c : Call) (ws : ℕ) (h : WsProxyHandler)
    → world.call ws c ≡ ok tt
    → on_socket world ws c h ≡ record h { upstream = h.upstream ++ (ws, c) ∷ [] }
unfolding on_socket
on_socket-ok world c ws h called = ground (arith, called)

module _ (json : Json) (lib : Urllib) (world : World json.Value) where
  forward-Asks :
      (f : WsDataFrame) (c : Call) (ws : ℕ) (h : WsProxyHandler)
      → Asks f c
      → forward json lib world f (some ws) h ≡ on_socket world ws c h
  unfolding forward send_text
  forward-Asks f (send_str s) ws h (o, e) = rw o (rw (decode-encode s f.payload e))
  forward-Asks f (send_bytes b) ws h (o, e) = rw o (rw e)
  forward-Asks f (ping b) ws h (o, e) = rw o (rw e)
  forward-Asks f (pong b) ws h (o, e) = rw o (rw e)
  forward-Asks f _ ws h a = absurd a

  -- A DATA frame that a client wrote makes exactly the call that it asks for, with its own text or
  -- bytes, on the socket that is stored for its connection, if the socket takes the call; nothing
  -- else changes.
  pub handle_data-forwards :
      (f : WsDataFrame) (c : Call) (bytes junk : Bytes) (ws : ℕ) (h : WsProxyHandler)
      → serialize_ws_data f ≡ ok bytes
      → Asks f c
      → lookup f.connection_id h.connections ≡ some ws
      → world.call ws c ≡ ok tt
      → handle_data json lib world (bytes ++ junk) h
        ≡ record h { upstream = h.upstream ++ (ws, c) ∷ [] }
  unfolding handle_data
  handle_data-forwards f c bytes junk ws h w a stored called =
      rw (deserialize-serialize_ws_data f bytes junk w, data_frame)
        (rw (stored, forward) (forward-Asks f c ws h a ∙ on_socket-ok world c ws h called))

  -- A CONNECT frame that a client wrote, answered by a socket, stores that socket and a new relay
  -- task under the frame's connection.
  pub handle_connect-stores :
      (f : WsConnectFrame json.Value) (bytes junk : Bytes) (ws : ℕ) (h : WsProxyHandler)
      → is_absent h.session ≡ false
      → serialize_ws_connect json f ≡ ok bytes
      → dial json lib world h f ≡ ok ws
      → handle_connect json lib world (bytes ++ junk) h
        ≡ (ok tt, store json lib world f.connection_id ws (world.meanwhile h))
  unfolding handle_connect
  handle_connect-stores f bytes junk ws h opened w d =
      rw (opened, handle_connect)
        (rw (deserialize-serialize_ws_connect json f bytes junk w, connect_frame) (rw (d, dialled)))

  forget-lookup :
      (id k : ℕ) (h : WsProxyHandler)
      → contains id h.connections ≡ true
      → (lookup k (forget json lib world id h).connections
          ≡ (if id == k then none else lookup k h.connections))
        × (lookup k (forget json lib world id h).relay_tasks
            ≡ (if id == k then none else lookup k h.relay_tasks))
  unfolding forget
  forget-lookup id k h there = elim (Option-cases (lookup id h.relay_tasks)) [
    | inl e ↦
        rw (there, forget)
          (rw (e, cancel) (lookup-remove id k h.connections, ground (arith, nat_beq_iff id k, e)))
    | inr (task, e) ↦
        rw (there, forget)
          (rw (e, cancel) (lookup-remove id k h.connections, lookup-remove id k h.relay_tasks))
  ]

  -- What the tasks that run during the closing leave behind.
  abbrev pub left : WsCloseFrame → Bytes → ℕ → WsProxyHandler → WsProxyHandler
  left f reason ws h =
      world.meanwhile (record h { upstream = h.upstream ++ (ws, close f.close_code reason) ∷ [] })

  handle_close-eq :
      (f : WsCloseFrame) (reason bytes junk : Bytes) (ws : ℕ) (h : WsProxyHandler)
      → serialize_ws_close f ≡ ok bytes
      → encode f.reason ≡ ok reason
      → lookup f.connection_id h.connections ≡ some ws
      → world.call ws (close f.close_code reason) ≡ ok tt
      → handle_close json lib world (bytes ++ junk) h
        ≡ forget json lib world f.connection_id (left f reason ws h)
  unfolding handle_close
  handle_close-eq f reason bytes junk ws h w e stored called =
      rw (deserialize-serialize_ws_close f bytes junk w, close_frame)
        (rw (stored, close_known)
          (rw (e, close_with)
            (rw (called, closed)
              (ap (λ x. forget json lib world f.connection_id (world.meanwhile x))
                (on_socket-ok world (close f.close_code reason) ws h called)))))

  -- A CLOSE frame that a client wrote, for a stored connection whose socket takes the closing:
  -- the socket is closed with the frame's code and reason, the connection and its task are removed,
  -- and all others stay as the tasks that ran meanwhile left them. These are taken to have left the
  -- connection itself stored.
  pub handle_close-closes :
      (f : WsCloseFrame) (reason bytes junk : Bytes) (ws : ℕ) (h : WsProxyHandler)
      → serialize_ws_close f ≡ ok bytes
      → encode f.reason ≡ ok reason
      → lookup f.connection_id h.connections ≡ some ws
      → world.call ws (close f.close_code reason) ≡ ok tt
      → contains f.connection_id (left f reason ws h).connections ≡ true
      → (k : ℕ)
      → (lookup k (handle_close json lib world (bytes ++ junk) h).connections
          ≡ (if f.connection_id == k then none else lookup k (left f reason ws h).connections))
        × (lookup k (handle_close json lib world (bytes ++ junk) h).relay_tasks
            ≡ (if f.connection_id == k then none else lookup k (left f reason ws h).relay_tasks))
  handle_close-closes f reason bytes junk ws h w e stored called there k =
      rw (handle_close-eq f reason bytes junk ws h w e stored called)
        (forget-lookup f.connection_id k (left f reason ws h) there)

  pub handle_data-unknown :
      (f : WsDataFrame) (bytes : Bytes) (h : WsProxyHandler)
      → serialize_ws_data f ≡ ok bytes
      → lookup f.connection_id h.connections ≡ none
      → handle_data json lib world bytes h ≡ h
  unfolding handle_data
  handle_data-unknown f bytes h w missing =
      rw (rw (append-nil bytes) at (deserialize-serialize_ws_data f bytes [] w), data_frame)
        (rw missing)
