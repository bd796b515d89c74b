-- ===== src/Tunnel/WsProxy/Relay/Fidelity.antt =====
-- server/app/tunnel/ws_proxy.py: what comes from the upstream server reaches the client.
use lem.Base.{ℕ, ◌<◌, ◌≡◌, List, [], ◌∷◌, ◌++◌, length, some, ok, nat_eq}
use lem.Base.Dict.{lookup}
use lem.Text.{Bytes, encode}
use lem.Tunnel.WsFrame.{WsDataFrame}
use lem.Tunnel.WsFrame.Opcode
use lem.Tunnel.WsProxy.State.{WsProxyHandler, World}
use lem.Tunnel.WsProxy.Relay.{
  Event, text, binary, ping, pong, others, on_event, relay_loop, clean_up, relay_on,
  relay_upstream_messages,
}

-- The DATA frame that an upstream message is to become on connection `id`.
abbrev pub data_frame : ℕ → ℕ → Bytes → WsDataFrame
data_frame id opcode payload = record { connection_id = id; opcode = opcode; payload = payload }

abbrev pub Carries : ℕ → Event → WsDataFrame → Type 0
Carries id (text s) f =
    (payload : Bytes) × (encode s ≡ ok payload)
    × (f ≡ data_frame id Opcode.text payload)
    × (length payload < 4294967296)
Carries id (binary b) f = (f ≡ data_frame id Opcode.binary b) × (length b < 4294967296)
Carries id (ping b) f = (f ≡ data_frame id Opcode.ping b) × (length b < 4294967296)
Carries id (pong b) f = (f ≡ data_frame id Opcode.pong b) × (length b < 4294967296)
Carries id _ f = ⊥

abbrev pub AllCarry : ℕ → List Event → List WsDataFrame → Type 0
AllCarry id [] [] = Unit
AllCarry id [] (f ∷ fs) = ⊥
AllCarry id (e ∷ es) [] = ⊥
AllCarry id (e ∷ es) (f ∷ fs) = Carries id e f × AllCarry id es fs

module _ {V : Type 0} (world : World V) (id : ℕ) (in_range : id < 4294967296)
    (sends : (b : Bytes) → world.send_frame b ≡ ok tt) where
  -- The state behind one more frame.
  abbrev more : Bytes → WsProxyHandler → WsProxyHandler
  more bytes h = record h { sent = h.sent ++ bytes ∷ [] }

-- A task that ends after other tasks have changed the state.
pub relay-others :
    {V : Type 0} (world : World V) (id ws : ℕ) (f : WsProxyHandler → WsProxyHandler)
    (h : WsProxyHandler)
    → lookup id h.connections ≡ some ws
    → relay_upstream_messages world id (others f ∷ []) h ≡ clean_up world id (f h)
unfolding relay_upstream_messages relay_loop on_event
relay-others world id ws f h stored = rw (stored, relay_on)
