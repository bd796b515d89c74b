-- ===== src/Tunnel/WsProxy/Reuse.antt =====
-- server/app/tunnel/ws_proxy.py: a connection identifier that is used again while it is in use.
use lem.Base.{ℕ, ◌≡◌, refl, ap, ◌∙◌, false, [], ◌∷◌, append-nil, nat_eq, none, some, ok}
use lem.Base.Dict.{lookup, lookup-remove, beq_refl}
use lem.Text.{Bytes}
use lem.Json.{Json}
use lem.Tunnel.HttpProxy.{is_absent}
use lem.Tunnel.Router.{Urllib}
use lem.Tunnel.WsFrame.{WsConnectFrame, WsDataFrame, serialize_ws_connect, serialize_ws_data}
use lem.Tunnel.WsProxy.State.{WsProxyHandler, World}
use lem.Tunnel.WsProxy.Connect.{handle_connect, handle_data, store, dial}
use lem.Tunnel.WsProxy.Connect.Effects.{handle_connect-stores, handle_data-unknown}
use lem.Tunnel.WsProxy.Relay.{others, clean_up, relay_upstream_messages}
use lem.Tunnel.WsProxy.Relay.Fidelity.{relay-others}

module _ (json : Json) (lib : Urllib) (world task_world : World json.Value) (h : WsProxyHandler)
    (f : WsConnectFrame json.Value) (bytes : Bytes) where
  -- The first connection's relay task, during which the client connects again under the same
  -- identifier, and at the end of which the first upstream server is gone.
  pub reconnected : WsProxyHandler
  reconnected =
      relay_upstream_messages task_world f.connection_id
        (others (λ s. (handle_connect json lib world bytes s).1) ∷ []) h

  reconnected-eq :
      (first second : ℕ)
      → is_absent h.session ≡ false
      → lookup f.connection_id h.connections ≡ some first
      → serialize_ws_connect json f ≡ ok bytes
      → dial json lib world h f ≡ ok second
      → reconnected
        ≡ clean_up task_world f.connection_id
            (store json lib world f.connection_id second (world.meanwhile h))
  unfolding reconnected
  reconnected-eq first second opened stored w d =
      relay-others task_world f.connection_id first _ h stored
      ∙ ap (λ r. clean_up task_world f.connection_id r.1)
          (rw (append-nil bytes) at
            (handle_connect-stores json lib world f bytes [] second h opened w d))

  removed_conn :
      (id ws : ℕ)
      → lookup id
          (clean_up task_world id (store json lib world id ws (world.meanwhile h))).connections
        ≡ none
  unfolding clean_up
  removed_conn id ws = rw lookup-remove (rw beq_refl)

  removed_task :
      (id ws : ℕ)
      → lookup id
          (clean_up task_world id (store json lib world id ws (world.meanwhile h))).relay_tasks
        ≡ none
  unfolding clean_up
  removed_task id ws = rw lookup-remove (rw beq_refl)

  kept_calls :
      (id ws : ℕ)
      → (clean_up task_world id (store json lib world id ws (world.meanwhile h))).upstream
        ≡ (world.meanwhile h).upstream
  unfolding clean_up store
  kept_calls id ws = refl

  -- If the client connects again under the identifier of a stored connection, and the second
  -- dialling succeeds, the first task's end removes the second connection: no call is made on any
  -- socket, so the second one is not closed, no task for it is left, and a DATA frame that the
  -- client writes for it afterwards is dropped.
  pub reused_id_orphans :
      (first second : ℕ) (d : WsDataFrame) (data_bytes : Bytes)
      → is_absent h.session ≡ false
      → lookup f.connection_id h.connections ≡ some first
      → serialize_ws_connect json f ≡ ok bytes
      → dial json lib world h f ≡ ok second
      → serialize_ws_data d ≡ ok data_bytes
      → d.connection_id ≡ f.connection_id
      → (lookup f.connection_id reconnected.connections ≡ none)
        × (lookup f.connection_id reconnected.relay_tasks ≡ none)
        × (reconnected.upstream ≡ (world.meanwhile h).upstream)
        × (handle_data json lib world data_bytes reconnected ≡ reconnected)
  reused_id_orphans first second d data_bytes opened stored w dials written same =
      let e = reconnected-eq first second opened stored w dials in
      let gone : lookup f.connection_id reconnected.connections ≡ none =
        rw e (removed_conn f.connection_id second) in
      (
        gone,
        rw e (removed_task f.connection_id second),
        rw e (kept_calls f.connection_id second),
        handle_data-unknown json lib world d data_bytes reconnected written (rw same gone),
      )
