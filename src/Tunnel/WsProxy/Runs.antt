-- ===== src/Tunnel/WsProxy/Runs.antt =====
-- server/app/tunnel/ws_proxy.py: any sequence of calls, each with its own world.
use lem.Base.{ℕ, refl, List, [], ◌∷◌, All}
use lem.Text.{Bytes}
use lem.Json.{Json}
use lem.Tunnel.Router.{RequestRouter, Urllib}
use lem.Tunnel.WsProxy.State.{WsProxyHandler, World, init, start, stop, stop-ends}
use lem.Tunnel.WsProxy.Connect.{handle_connect, handle_data, handle_close}
use lem.Tunnel.WsProxy.Connect.Paired.{
  handle_connect-IsPaired, handle_data-IsPaired, handle_close-IsPaired,
}
use lem.Tunnel.WsProxy.Relay.{Event, relay_upstream_messages}
use lem.Tunnel.WsProxy.Relay.Paired.{EventKeeps, relay-IsPaired}
use lem.Tunnel.WsProxy.Paired.{IsPaired, KeepsPaired}

-- The entry points of the handler.
pub data Op (V : Type 0) : Type 0 where
  starts : Op V
  connects datas closes : World V → Bytes → Op V
  relays : World V → ℕ → List Event → Op V
  stops : World V → Op V

module _ (json : Json) (lib : Urllib) where
  pub step : Op json.Value → WsProxyHandler → WsProxyHandler
  step starts h = start h
  step (connects world bytes) h = (handle_connect json lib world bytes h).1
  step (datas world bytes) h = handle_data json lib world bytes h
  step (closes world bytes) h = handle_close json lib world bytes h
  step (relays world id events) h = relay_upstream_messages world id events h
  step (stops world) h = stop world h

  pub run : List (Op json.Value) → WsProxyHandler → WsProxyHandler
  run [] h = h
  run (op ∷ ops) h = run ops (step op h)

  -- The tasks that run in between keep the pairing.
  abbrev pub OpKeeps : Op json.Value → Type 0
  OpKeeps starts = Unit
  OpKeeps (connects world bytes) = KeepsPaired world.meanwhile
  OpKeeps (datas world bytes) = Unit
  OpKeeps (closes world bytes) = KeepsPaired world.meanwhile
  OpKeeps (relays world id events) = All EventKeeps events
  OpKeeps (stops world) = KeepsPaired world.meanwhile

  step-IsPaired :
      (op : Op json.Value) (h : WsProxyHandler) → OpKeeps op → IsPaired h → IsPaired (step op h)
  unfolding step start
  step-IsPaired starts h k p = record { same = p.same }
  step-IsPaired (connects world bytes) h k p = handle_connect-IsPaired json lib world k bytes h p
  step-IsPaired (datas world bytes) h k p = handle_data-IsPaired json lib world bytes h p
  step-IsPaired (closes world bytes) h k p = handle_close-IsPaired json lib world k bytes h p
  step-IsPaired (relays world id events) h k p = relay-IsPaired world id events h k p
  step-IsPaired (stops world) h k p =
      stop-ends world IsPaired k (λ g s q. record { same = q.same })
        (λ g. record { same = λ i. refl }) h

  run_keeps :
      (ops : List (Op json.Value)) (h : WsProxyHandler)
      → All OpKeeps ops
      → IsPaired h
      → IsPaired (run ops h)
  unfolding run
  run_keeps [] h k p = p
  run_keeps (op ∷ ops) h (k, ks) p = run_keeps ops (step op h) ks (step-IsPaired op h k p)

  -- After any sequence of starts, frames, relay tasks and stops, whatever the upstream servers and
  -- the channel answer, a connection is stored if and only if a relay task is stored for it. The
  -- tasks that run while a call waits are taken to keep this too: while a socket is connected or
  -- closed, while the HTTP session closes, and between the messages of a relay task. A DATA frame
  -- and the CLOSE frame for a failed connection are the last things that their calls send; the
  -- CLOSE frame of a relay task is sent in one step with the task's end.
  pub run-IsPaired :
      (router : RequestRouter) (ops : List (Op json.Value))
      → All OpKeeps ops
      → IsPaired (run ops (init router))
  unfolding init
  run-IsPaired router ops k = run_keeps ops _ k (record { same = λ i. refl })
