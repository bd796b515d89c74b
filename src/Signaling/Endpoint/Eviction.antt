-- ===== src/Signaling/Endpoint/Eviction.antt =====
-- cloud/signaling/app/api/signal.py: the `finally` of an endpoint, and the connection that another
-- endpoint has stored for the same device.
use lem.Base.{
  ℕ, ◌≡◌, refl, ap, ◌∙◌, true, false, none, some, List, ◌∷◌, [], ◌++◌, seq_eq, ◌==◌, if◌then◌else◌,
}
use lem.Base.Dict.{Dict, lookup, remove, lookup-remove, put, put_self, beq_refl}
use lem.Text.{Text}
use lem.Signaling.Message.{Parsed, reply, connected}
use lem.Signaling.Connections.{Connections, World, connect, disconnect, close_socket, send_json}
use lem.Signaling.Endpoint.{Auth, Event, others, serve, verify_token_and_device, endpoint}

-- Whoever asks for a device with a token that is not accepted is refused, and the device's own
-- connection is unregistered all the same: it is no longer found, though its socket was not closed.
-- The other devices' connections stay.
pub refused_evicts :
    (auth : Auth) (relay_url : Text) (world : World) (loads : Text → Parsed) (token device : Text)
    (websocket : ℕ) (meanwhile : Connections → Connections) (es : List Event) (s : Connections)
    (k : Text)
    → verify_token_and_device auth token device ≡ false
    → (lookup k
          (endpoint auth relay_url world loads token device websocket meanwhile es
            s).active_connections
        ≡ (if device == k then none else lookup k s.active_connections))
      × ((endpoint auth relay_url world loads token device websocket meanwhile es s).closed
          ≡ s.closed ++ (websocket, 1008) ∷ [])
      × ((endpoint auth relay_url world loads token device websocket meanwhile es s).sent ≡ s.sent)
unfolding endpoint disconnect close_socket
refused_evicts auth relay_url world loads token device websocket meanwhile es s k refused =
    rw refused (lookup-remove device k s.active_connections, refl, refl)

lookup_self : (k : Text) (d : Dict Text ℕ) → lookup k (remove k d) ≡ none
lookup_self k d = rw lookup-remove (rw beq_refl)

-- What other endpoints do closes no socket.
abbrev pub ClosesNone : (Connections → Connections) → Type 0
ClosesNone f = (t : Connections) → (f t).closed ≡ t.closed

module _ (auth : Auth) (relay_url : Text) (world : World) (loads : Text → Parsed)
    (token device : Text) (old young : ℕ) (before between : Connections → Connections)
    (s : Connections) where
  -- The device's endpoint, during which the device connects again on another socket; other
  -- endpoints go on while either is accepted.
  pub reconnected : Connections
  reconnected =
      endpoint auth relay_url world loads token device old before
        (others (connect between device young) ∷ []) s

  -- If the token is accepted, the device was not connected before, its old socket takes the
  -- confirmation, and the device connects again before the old endpoint ends, with other endpoints at
  -- work during either connection that close no socket: then the old socket is closed and replaced,
  -- and the old endpoint's end unregisters the new socket, which is not closed. If the old endpoint
  -- ends earlier, after its socket is closed and before the new one is stored, then that is found.
  pub replaced_evicts :
      (t : Connections)
      → verify_token_and_device auth token device ≡ true
      → lookup device s.active_connections ≡ none
      → world old (reply (connected device)) ≡ true
      → ClosesNone before
      → ClosesNone between
      → (lookup device reconnected.active_connections ≡ none)
        × (reconnected.closed ≡ s.closed ++ (old, 1008) ∷ [])
        × (lookup device (connect (disconnect device) device young t).active_connections
            ≡ some young)
  unfolding reconnected endpoint serve connect disconnect send_json close_socket
  replaced_evicts t valid free sends quiet quiet' =
      let stored = put_self device old (before s).active_connections in
      let joined : Connections = record (before s) {
        active_connections = put device old (before s).active_connections;
        sent = (before s).sent ++ (old, reply (connected device)) ∷ [];
      } in
      (
        lookup_self device _,
        rw valid (
            rw free (
              rw sends (
                rw stored (
                  quiet' (close_socket old 1008 joined)
                  ∙ ap (λ c. c ++ (old, 1008) ∷ []) (quiet s))))),
        put_self device young _,
      )
