-- ===== src/EndToEnd/Fitting.antt =====
-- server/app/tunnel/webrtc_client.py: what each operation of the agent sends fits its schema.
use lem.Base.{
  ℕ, ◌≡◌, refl, sym, subst, true, Option, none, some, List, [], ◌∷◌, ◌++◌, ◌⊎◌, inl, inr, if-both,
  Result, ok, err, arith, All, seq_eq,
}
use lem.Base.Dict.{lookup}
use lem.Text.{Text}
use lem.Text.Methods.{lit}
use lem.Tunnel.RelayClient.{given}
use lem.Signaling.Schemas.{is_connect_ack}
use lem.Tunnel.Agent.State.{
  TunnelAgent, Candidate, Description, Signal, connect_ack, send_signaling_message,
}
use lem.Tunnel.Agent.Messages.{
  OutcomeOf, and_then, or_else, Peer, Payload, CandidateDict, ConnectRequest, Message, confirmed,
  error, ack, other, offered, answered, ice, connect_request, create_answer, set_remote_description,
  add_ice_candidate, on_offer, on_icecandidate, send_connect_ack, described,
}
use lem.Tunnel.Agent.Requests.{handle_connect_request, process_signaling_message}
use lem.Tunnel.Agent.Signaled.{Silent}
use lem.EndToEnd.Handshake.{ack_message}

-- An acknowledgement fits `ConnectAck`; this says nothing of the other messages.
abbrev pub IsFit : Signal → Type 0
IsFit (connect_ack target transport session_id status) =
    is_connect_ack (ack_message target transport session_id status) ≡ true
IsFit m = Unit

abbrev pub Sound : TunnelAgent → Type 0
Sound a = All IsFit a.signaled

All-snoc : (ms : List Signal) (m : Signal) → All IsFit ms → IsFit m → All IsFit (ms ++ m ∷ [])
All-snoc [] m all p = (p, tt)
All-snoc (x ∷ ms) m (q, all) p = (q, All-snoc ms m all p)

pub silent : {bs cs : List Signal} → bs ≡ cs → All IsFit cs → All IsFit bs
silent e p = subst (All IsFit) (sym e) p

sends :
    {bs : List Signal} (cs : List Signal) (m : Signal)
    → bs ≡ cs ++ m ∷ []
    → IsFit m
    → All IsFit cs
    → All IsFit bs
sends cs m e f p = subst (All IsFit) (sym e) (All-snoc cs m p f)

module _ (accepts : Signal → Result (Unit {0})) where
  send-cases :
      (m : Signal) (a : TunnelAgent)
      → ((send_signaling_message accepts m a).1.signaled ≡ a.signaled)
        ⊎ ((send_signaling_message accepts m a).1.signaled ≡ a.signaled ++ m ∷ [])
  unfolding send_signaling_message
  send-cases m a = ground arith

  send-Sound :
      (m : Signal) (a : TunnelAgent)
      → IsFit m
      → Sound a
      → Sound (send_signaling_message accepts m a).1
  send-Sound m a f p = elim (send-cases m a) [
    | inl e ↦ silent e p
    | inr e ↦ sends a.signaled m e f p
  ]

  and_then-Sound :
      {A B : Type 0} (r : OutcomeOf A) (next : A → TunnelAgent → OutcomeOf B)
      → Sound r.1
      → ((x : A) (b : TunnelAgent) → Sound b → Sound (next x b).1)
      → Sound (and_then r next).1
  and_then-Sound (err e, a) next p f = p
  and_then-Sound (ok x, a) next p f = f x a p

  connecting_fits :
      (target : Text)
      → is_connect_ack (ack_message target (lit "webrtc") none (lit "connecting")) ≡ true
  unfolding is_connect_ack lookup
  connecting_fits target = refl

  connected_fits :
      (target session_id : Text)
      → is_connect_ack (ack_message target (lit "relay") (some session_id) (lit "connected")) ≡ true
  unfolding is_connect_ack lookup
  connected_fits target session_id = refl

  failed_fits :
      (target session_id : Text)
      → is_connect_ack (ack_message target (lit "relay") (some session_id) (lit "failed")) ≡ true
  unfolding is_connect_ack lookup
  failed_fits target session_id = refl

  request-cases :
      (openwebui : Result Text) (r : ConnectRequest) (answer : Result ℕ) (a : TunnelAgent)
      → let b = (handle_connect_request openwebui accepts r answer a).1 in
        let target = or_else r.from_device_id [] in
        let session_id = or_else r.relay_session_id [] in
        (b.signaled ≡ a.signaled)
        ⊎ ((b.signaled
              ≡ a.signaled ++ connect_ack target (lit "webrtc") none (lit "connecting") ∷ [])
            ⊎ ((b.signaled
                  ≡ a.signaled
                    ++ connect_ack target (lit "relay") (some session_id) (lit "connected") ∷ [])
                ⊎ (b.signaled
                    ≡ a.signaled
                      ++ connect_ack target (lit "relay") (some session_id) (lit "failed") ∷ [])))
  unfolding handle_connect_request send_connect_ack send_signaling_message
  request-cases openwebui r answer a = ground arith

  request-Sound :
      (openwebui : Result Text) (r : ConnectRequest) (answer : Result ℕ) (a : TunnelAgent)
      → Sound a
      → Sound (handle_connect_request openwebui accepts r answer a).1
  request-Sound openwebui r answer a p =
      let target = or_else r.from_device_id [] in
      let session_id = or_else r.relay_session_id [] in
      elim (request-cases openwebui r answer a) [
        | inl e ↦ silent e p
        | inr (inl e) ↦ sends a.signaled _ e (connecting_fits target) p
        | inr (inr (inl e)) ↦ sends a.signaled _ e (connected_fits target session_id) p
        | inr (inr (inr e)) ↦ sends a.signaled _ e (failed_fits target session_id) p
      ]

  create_answer-Silent :
      (peer : Peer) (d : Description) (a : TunnelAgent) → Silent (create_answer peer d a).1 a
  unfolding create_answer
  create_answer-Silent peer d a = ground arith

  set_remote_description-Silent :
      (peer : Peer) (d : Description) (a : TunnelAgent)
      → Silent (set_remote_description peer d a).1 a
  unfolding set_remote_description
  set_remote_description-Silent peer d a = ground arith

  add_ice_candidate-Silent :
      (peer : Peer) (c : CandidateDict) (a : TunnelAgent) → Silent (add_ice_candidate peer c a).1 a
  unfolding add_ice_candidate
  add_ice_candidate-Silent peer c a = ground arith

  on_offer-Sound :
      (peer : Peer) (sender : Option Text) (d : Payload) (a : TunnelAgent)
      → Sound a
      → Sound (on_offer peer accepts sender d a).1
  unfolding on_offer
  on_offer-Sound peer sender d a p =
      let b : TunnelAgent = record a { peer_device_id = some (or_else sender []) } in
      let offer = described (lit "offer") d in
      if-both (λ (r : OutcomeOf (Unit {0})). Sound r.1) (given sender)
        (and_then-Sound (create_answer peer offer b) _
          (silent (create_answer-Silent peer offer b) p)
          (λ x c q. send-Sound (Signal.answer (or_else sender []) x) c tt q))
        (and_then-Sound (create_answer peer offer a) _
          (silent (create_answer-Silent peer offer a) p) (λ x c q. q))

  pub on_icecandidate-Sound :
      (c : Option Candidate) (a : TunnelAgent) → Sound a → Sound (on_icecandidate accepts c a).1
  unfolding on_icecandidate
  on_icecandidate-Sound none a p = p
  on_icecandidate-Sound (some c) a p =
      if-both (λ (r : OutcomeOf (Unit {0})). Sound r.1) _
        (send-Sound (Signal.ice_candidate _ c) a tt p) p

  pub process-Sound :
      (openwebui : Result Text) (peer : Peer) (m : Message) (answer : Result ℕ) (a : TunnelAgent)
      → Sound a
      → Sound (process_signaling_message openwebui accepts peer m answer a).1
  unfolding process_signaling_message
  process-Sound openwebui peer confirmed answer a p = p
  process-Sound openwebui peer error answer a p = p
  process-Sound openwebui peer ack answer a p = p
  process-Sound openwebui peer other answer a p = p
  process-Sound openwebui peer (offered sender d) answer a p = on_offer-Sound peer sender d a p
  process-Sound openwebui peer (answered d) answer a p =
      silent (set_remote_description-Silent peer (described (lit "answer") d) a) p
  process-Sound openwebui peer (ice c) answer a p = silent (add_ice_candidate-Silent peer c a) p
  process-Sound openwebui peer (connect_request r) answer a p = request-Sound openwebui r answer a p
