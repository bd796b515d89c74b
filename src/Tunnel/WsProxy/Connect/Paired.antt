-- ===== src/Tunnel/WsProxy/Connect/Paired.antt =====
-- server/app/tunnel/ws_proxy.py: the frame handlers keep the two tables paired.
use lem.Base.{
  ℕ, ◌≡◌, refl, sym, ◌∙◌, Option, none, some, Result, ok, err, arith, nat_eq, Bool-cases, if-both,
  nat_beq, nat_beq_iff, Result-cases, inl, inr,
}
use lem.Base.Dict.{lookup, remove, contains, contains-put, contains-remove}
use lem.Text.{Text, Bytes, encode, decode}
use lem.Json.{Json}
use lem.Tunnel.HttpProxy.{is_absent}
use lem.Tunnel.Router.{Urllib}
use lem.Tunnel.WsFrame.{
  WsConnectFrame, WsDataFrame, WsCloseFrame, deserialize_ws_connect, deserialize_ws_data,
  deserialize_ws_close,
}
use lem.Tunnel.WsFrame.Opcode
use lem.Tunnel.WsProxy.State.{Call, send_bytes, ping, pong, WsProxyHandler, World, on_socket}
use lem.Tunnel.WsProxy.Connect.{
  store, dialled, connect_frame, handle_connect, send_text, forward, data_frame, handle_data,
  cancel, forget, closed, close_with, close_known, close_frame, handle_close,
}
use lem.Tunnel.WsProxy.Paired.{
  IsPaired, KeepsPaired, SameTables-IsPaired, on_socket-SameTables, send_close-SameTables,
}

module _ (json : Json) (lib : Urllib) (world : World json.Value) where
  store-IsPaired :
      (id ws : ℕ) (h : WsProxyHandler) → IsPaired h → IsPaired (store json lib world id ws h)
  unfolding store
  store-IsPaired id ws h p = record {
    same = λ k.
        contains-put id k ws h.connections
        ∙ (rw (p.same k) (sym (contains-put id k h.next_task h.relay_tasks)));
  }

  on_socket-IsPaired :
      (ws : ℕ) (c : Call) (h : WsProxyHandler) → IsPaired h → IsPaired (on_socket world ws c h)
  on_socket-IsPaired ws c h = SameTables-IsPaired (on_socket-SameTables world ws c h)

  send_text-IsPaired :
      (ws : ℕ) (r : Result Text) (h : WsProxyHandler)
      → IsPaired h
      → IsPaired (send_text json lib world ws r h)
  unfolding send_text
  send_text-IsPaired ws (ok t) h p = on_socket-IsPaired ws _ h p
  send_text-IsPaired ws (err e) h p = p

  forward-IsPaired :
      (frame : WsDataFrame) (o : Option ℕ) (h : WsProxyHandler)
      → IsPaired h
      → IsPaired (forward json lib world frame o h)
  unfolding forward
  forward-IsPaired frame none h p = p
  forward-IsPaired frame (some ws) h p =
      if-both IsPaired (nat_beq frame.opcode Opcode.text)
        (send_text-IsPaired ws (decode frame.payload) h p)
        (if-both IsPaired (nat_beq frame.opcode Opcode.binary)
          (on_socket-IsPaired ws (send_bytes frame.payload) h p)
          (if-both IsPaired (nat_beq frame.opcode Opcode.ping)
            (on_socket-IsPaired ws (ping frame.payload) h p)
            (if-both IsPaired (nat_beq frame.opcode Opcode.pong)
              (on_socket-IsPaired ws (pong frame.payload) h p) p)))

  -- `handle_data` leaves the pairing.
  pub handle_data-IsPaired :
      (bytes : Bytes) (h : WsProxyHandler)
      → IsPaired h
      → IsPaired (handle_data json lib world bytes h)
  unfolding handle_data
  handle_data-IsPaired bytes h p = elim (Result-cases (deserialize_ws_data bytes)) [
    | inl (frame, e) ↦ rw (e, data_frame) (forward-IsPaired frame _ h p)
    | inr (e, q) ↦ rw (q, data_frame) p
  ]

  cancel-IsPaired :
      (id : ℕ) (o : Option ℕ) (h : WsProxyHandler)
      → lookup id h.relay_tasks ≡ o
      → IsPaired h
      → IsPaired (cancel json lib world id o (record h { connections = remove id h.connections }))
  unfolding cancel contains
  cancel-IsPaired id none h e p = record {
    same = λ k. ground (arith, contains-remove id k h.connections, p.same k, nat_beq_iff id k, e);
  }
  cancel-IsPaired id (some task) h e p = record {
    same = λ k.
        contains-remove id k h.connections
        ∙ (rw (p.same k) (sym (contains-remove id k h.relay_tasks)));
  }

  module _ (keeps : KeepsPaired world.meanwhile) where
    dialled-IsPaired :
        (id : ℕ) (d : Result ℕ) (h : WsProxyHandler)
        → IsPaired h
        → IsPaired (dialled json lib world id d h)
    unfolding dialled
    dialled-IsPaired id (ok ws) h p = store-IsPaired id ws _ (keeps h p)
    dialled-IsPaired id (err e) h p =
        SameTables-IsPaired (send_close-SameTables world id 1006 _ (world.meanwhile h)) (keeps h p)

    connect_frame-IsPaired :
        (r : Result (WsConnectFrame json.Value)) (h : WsProxyHandler)
        → IsPaired h
        → IsPaired (connect_frame json lib world r h)
    unfolding connect_frame
    connect_frame-IsPaired (ok frame) h p = dialled-IsPaired frame.connection_id _ h p
    connect_frame-IsPaired (err e) h p = p

    -- `handle_connect` keeps the pairing, if the tasks that run meanwhile do.
    pub handle_connect-IsPaired :
        (bytes : Bytes) (h : WsProxyHandler)
        → IsPaired h
        → IsPaired (handle_connect json lib world bytes h).1
    unfolding handle_connect
    handle_connect-IsPaired bytes h p = elim (Bool-cases (is_absent h.session)) [
      | inl e ↦ rw (e, handle_connect) p
      | inr e ↦
          rw (e, handle_connect) (connect_frame-IsPaired (deserialize_ws_connect json bytes) h p)
    ]

    forget-IsPaired :
        (id : ℕ) (h : WsProxyHandler) → IsPaired h → IsPaired (forget json lib world id h)
    unfolding forget
    forget-IsPaired id h p = elim (Bool-cases (contains id h.connections)) [
      | inl e ↦ rw (e, forget) (cancel-IsPaired id _ h refl p)
      | inr e ↦ rw (e, forget) p
    ]

    closed-IsPaired :
        (frame : WsCloseFrame) (ws : ℕ) (reason : Bytes) (r : Result (Unit {0}))
        (h : WsProxyHandler)
        → IsPaired h
        → IsPaired (closed json lib world frame ws reason r h)
    unfolding closed
    closed-IsPaired frame ws reason (ok u) h p =
        forget-IsPaired frame.connection_id _ (keeps _ (on_socket-IsPaired ws _ h p))
    closed-IsPaired frame ws reason (err e) h p = keeps h p

    close_known-IsPaired :
        (frame : WsCloseFrame) (o : Option ℕ) (r : Result Bytes) (h : WsProxyHandler)
        → encode frame.reason ≡ r
        → IsPaired h
        → IsPaired (close_known json lib world frame o h)
    unfolding close_known close_with
    close_known-IsPaired frame none r h e p = p
    close_known-IsPaired frame (some ws) (ok reason) h e p =
        rw (e, close_with) (closed-IsPaired frame ws reason _ h p)
    close_known-IsPaired frame (some ws) (err x) h e p = rw (e, close_with) p

    -- `handle_close` keeps the pairing, if the tasks that run meanwhile do.
    pub handle_close-IsPaired :
        (bytes : Bytes) (h : WsProxyHandler)
        → IsPaired h
        → IsPaired (handle_close json lib world bytes h)
    unfolding handle_close
    handle_close-IsPaired bytes h p = elim (Result-cases (deserialize_ws_close bytes)) [
      | inl (frame, e) ↦ rw (e, close_frame) (close_known-IsPaired frame _ _ h refl p)
      | inr (e, q) ↦ rw (q, close_frame) p
    ]
