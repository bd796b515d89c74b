-- ===== src/Tunnel/WsProxy/Relay/Paired.antt =====
-- server/app/tunnel/ws_proxy.py: a relay task keeps the two tables paired.
use lem.Base.{
  ℕ, ◌≡◌, sym, ◌∙◌, List, [], ◌∷◌, Result, ok, err, arith, nat_eq, All, Option-cases, inl, inr,
}
use lem.Base.Dict.{lookup, contains-remove}
use lem.Text.{Bytes}
use lem.Text.Methods.{lit}
use lem.Tunnel.WsProxy.State.{WsProxyHandler, World}
use lem.Tunnel.WsProxy.Paired.{IsPaired, KeepsPaired, SameTables-IsPaired, send_close-SameTables}
use lem.Tunnel.WsProxy.Relay.{
  Event, text, binary, ping, pong, closed, error, raised, cancelled, others, Flow, goes, stops,
  close_bytes, close_code_or, failed, sent_frame, send, last, on_event, relay_loop, clean_up,
  relay_on, relay_upstream_messages,
}

-- What other tasks do between two messages keeps the pairing.
abbrev pub EventKeeps : Event → Type 0
EventKeeps (others f) = KeepsPaired f
EventKeeps _ = Unit

abbrev state_of : Flow → WsProxyHandler
state_of (goes h) = h
state_of (stops h) = h

module _ {V : Type 0} (world : World V) (id : ℕ) where
  failed-IsPaired :
      (e : _) (h : WsProxyHandler) → IsPaired h → IsPaired (state_of (failed world id e h))
  unfolding failed
  failed-IsPaired e h p = SameTables-IsPaired (send_close-SameTables world id 1006 _ h) p

  sent_frame-IsPaired :
      (bytes : Bytes) (r : Result (Unit {0})) (h : WsProxyHandler)
      → IsPaired h
      → IsPaired (state_of (sent_frame world id bytes r h))
  unfolding sent_frame
  sent_frame-IsPaired bytes (ok u) h p = record { same = p.same }
  sent_frame-IsPaired bytes (err e) h p = failed-IsPaired e h p

  send-IsPaired :
      (r : Result Bytes) (h : WsProxyHandler) → IsPaired h → IsPaired (state_of (send world id r h))
  unfolding send
  send-IsPaired (ok bytes) h p = sent_frame-IsPaired bytes _ h p
  send-IsPaired (err e) h p = failed-IsPaired e h p

  last-IsPaired : (f : Flow) → IsPaired (state_of f) → IsPaired (state_of (last world id f))
  unfolding last
  last-IsPaired (goes h) p = p
  last-IsPaired (stops h) p = p

  on_event-IsPaired :
      (e : Event) (h : WsProxyHandler)
      → EventKeeps e
      → IsPaired h
      → IsPaired (state_of (on_event world id e h))
  unfolding on_event
  on_event-IsPaired (text s) h k p = send-IsPaired _ h p
  on_event-IsPaired (binary payload) h k p = send-IsPaired _ h p
  on_event-IsPaired (ping payload) h k p = send-IsPaired _ h p
  on_event-IsPaired (pong payload) h k p = send-IsPaired _ h p
  on_event-IsPaired (closed code) h k p =
      let bytes = close_bytes world id (close_code_or code) (lit "Server closed connection") in
      last-IsPaired (send world id bytes h) (send-IsPaired bytes h p)
  on_event-IsPaired error h k p =
      let bytes = close_bytes world id 1006 (lit "Upstream error") in
      last-IsPaired (send world id bytes h) (send-IsPaired bytes h p)
  on_event-IsPaired (raised e) h k p = failed-IsPaired e h p
  on_event-IsPaired cancelled h k p = p
  on_event-IsPaired (others f) h k p = k h p

  clean_up-IsPaired : (h : WsProxyHandler) → IsPaired h → IsPaired (clean_up world id h)
  unfolding clean_up
  clean_up-IsPaired h p = record {
    same = λ k.
        contains-remove id k h.connections
        ∙ (rw (p.same k) (sym (contains-remove id k h.relay_tasks)));
  }

  -- What the loop makes of one event: it goes on with the rest, or it is over.
  next : List Event → Flow → WsProxyHandler
  next es (goes h) = relay_loop world id es h
  next es (stops h) = h

  relay_loop-cons :
      (e : Event) (es : List Event) (h : WsProxyHandler)
      → relay_loop world id (e ∷ es) h ≡ next es (on_event world id e h)
  unfolding relay_loop next
  relay_loop-cons e es h = ground arith

  next-IsPaired :
      (es : List Event) (f : Flow)
      → ((h : WsProxyHandler) → IsPaired h → IsPaired (relay_loop world id es h))
      → IsPaired (state_of f)
      → IsPaired (next es f)
  unfolding next
  next-IsPaired es (goes h) ih p = ih h p
  next-IsPaired es (stops h) ih p = p

  relay_loop-IsPaired :
      (es : List Event) (h : WsProxyHandler)
      → All EventKeeps es
      → IsPaired h
      → IsPaired (relay_loop world id es h)
  relay_loop-IsPaired [] h k p = unfold relay_loop in p
  relay_loop-IsPaired (e ∷ es) h (k, ks) p = rw (relay_loop-cons e es h) (
      next-IsPaired es (on_event world id e h) (λ h' p'. relay_loop-IsPaired es h' ks p')
        (on_event-IsPaired e h k p))

  -- A relay task keeps the pairing, from its start to its clean-up.
  pub relay-IsPaired :
      (es : List Event) (h : WsProxyHandler)
      → All EventKeeps es
      → IsPaired h
      → IsPaired (relay_upstream_messages world id es h)
  unfolding relay_upstream_messages
  relay-IsPaired es h k p = elim (Option-cases (lookup id h.connections)) [
    | inl e ↦ rw (e, relay_on) p
    | inr (ws, e) ↦ rw (e, relay_on) (clean_up-IsPaired _ (relay_loop-IsPaired es h k p))
  ]
