-- ===== src/Tunnel/WsProxy/Paired.antt =====
-- server/app/tunnel/ws_proxy.py: `connections` and `relay_tasks` have the same keys.
use lem.Base.{ℕ, ◌≡◌, arith, nat_eq}
use lem.Base.Dict.{contains}
use lem.Text.{Text}
use lem.Tunnel.WsProxy.State.{Call, WsProxyHandler, World, on_socket, send_close}

pub record IsPaired (h : WsProxyHandler) : Type 0 where
  pub same : (k : ℕ) → contains k h.connections ≡ contains k h.relay_tasks

-- The two tables are as they were.
pub record SameTables (h h' : WsProxyHandler) : Type 0 where
  pub conns : h'.connections ≡ h.connections
  pub tasks : h'.relay_tasks ≡ h.relay_tasks

pub SameTables-IsPaired : {h h' : WsProxyHandler} → SameTables h h' → IsPaired h → IsPaired h'
SameTables-IsPaired s p = record { same = λ k. rw (s.conns, s.tasks) (p.same k) }

pub on_socket-SameTables :
    {V : Type 0} (world : World V) (ws : ℕ) (c : Call) (h : WsProxyHandler)
    → SameTables h (on_socket world ws c h)
unfolding on_socket
on_socket-SameTables world ws c h = ground arith

pub send_close-SameTables :
    {V : Type 0} (world : World V) (id code : ℕ) (reason : Text) (h : WsProxyHandler)
    → SameTables h (send_close world id code reason h)
unfolding send_close
send_close-SameTables world id code reason h = ground arith

-- The other tasks, while a handler waits and between two messages, keep the pairing.
abbrev pub KeepsPaired : (WsProxyHandler → WsProxyHandler) → Type 0
KeepsPaired f = (h : WsProxyHandler) → IsPaired h → IsPaired (f h)
