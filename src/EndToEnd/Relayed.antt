-- ===== src/EndToEnd/Relayed.antt =====
-- cloud/relay/app/core/session_manager.py and server/app/tunnel/relay_client.py together: HTTP
-- requests of a peer, forwarded by a session of the relay, answered by the relay client of the local
-- server, and forwarded back.
use lem.Base.{
  ℕ, ◌≡◌, refl, sym, ap, ◌∙◌, false, List, [], ◌∷◌, ◌++◌, map, append-nil, append_assoc,
  append-cancel_left, Result, ok, All,
}
use lem.Text.{Text, Bytes}
use lem.Json.{Json}
use lem.Tunnel.Router.{Urllib, RequestRouter, route}
use lem.Tunnel.HttpFrame.{
  HttpRequestFrame, HttpResponseFrame, serialize_request, serialize_response, deserialize_response,
}
use lem.Tunnel.HttpProxy
use lem.Tunnel.HttpProxy.{is_absent}
use lem.Tunnel.HttpProxy.Correlation.{outcome, handle_request-answers}
use lem.Tunnel.WsProxy.State
use lem.Tunnel.RelayClient.{RelayClient, open_socket, binary, handle_messages, read_loop}
use lem.Tunnel.RelayClient.Answers.{handle_relay_message-answers}
use lem.RelayServer.Session.{RelaySession, Direction, client_to_server, server_to_client, exchange}
use lem.RelayServer.Exchange.{frames, all_pass, exchange-forwards}

-- The side that joined first is the session's client, whoever it is.
abbrev pub opposite : Direction → Direction
opposite client_to_server = server_to_client
opposite server_to_client = client_to_server

-- The frames that the session handed on in a direction.
abbrev pub delivered : Direction → RelaySession → List Bytes
delivered client_to_server s = s.to_server
delivered server_to_client s = s.to_client

delivered-exchange :
    (d : Direction) (fs : List (Direction × Bytes)) (s : RelaySession)
    → s.closed ≡ false
    → delivered d (exchange (all_pass fs) s) ≡ delivered d s ++ frames d fs
delivered-exchange client_to_server fs s open_ =
    ap RelaySession.to_server (exchange-forwards fs s open_)
delivered-exchange server_to_client fs s open_ =
    ap RelaySession.to_client (exchange-forwards fs s open_)

-- A request, the bytes of its frame, where it is routed to, and the bytes of the reply.
pub record Call (V : Type 0) : Type 0 where
  pub frame : HttpRequestFrame V
  pub frame_bytes : Bytes
  pub target : Text
  pub reply : Bytes

module _ (json : Json) (lib : Urllib) (http_world : HttpProxy.World json.Value)
    (ws_world : State.World json.Value) (takes : Bytes → Result (Unit {0})) where
  open json use {Value}

  -- The frame can be written, it has a route, and the frame of the target's answer can be written and
  -- is taken by the socket.
  pub record IsServed (router : RequestRouter) (call : Call Value) : Type 0 where
    pub written : serialize_request json call.frame ≡ ok call.frame_bytes
    pub routed : route lib router call.frame.path ≡ ok call.target
    pub replied :
        serialize_response json (outcome json lib http_world call.target call.frame) ≡ ok call.reply
    pub taken : takes call.reply ≡ ok tt

  abbrev pub replies : ℕ → List (Call Value) → List (ℕ × Bytes)
  replies n calls = map (λ (call : Call Value). (n, call.reply)) calls

  abbrev pub requests : List (Call Value) → List Bytes
  requests calls = map Call.frame_bytes calls

  abbrev pub reads : List Bytes → RelayClient → RelayClient
  reads frames c = handle_messages json lib http_world ws_world takes (map binary frames) c

  -- The relay client answers one request after the other.
  read_loop-answers :
      (calls : List (Call Value)) (n : ℕ) (c : RelayClient)
      → is_absent c.http_proxy.session ≡ false
      → c.ws ≡ open_socket n
      → All (IsServed c.http_proxy.router) calls
      → read_loop json lib http_world ws_world takes (map binary (requests calls)) c
        ≡ record c { sent = c.sent ++ replies n calls }
  unfolding read_loop
  read_loop-answers [] n c started up served =
      ap (λ s. record c { sent = s }) (sym (append-nil c.sent))
  read_loop-answers (call ∷ calls) n c started up (first, others) =
      let c' : RelayClient = record c { sent = c.sent ++ (n, call.reply) ∷ [] } in
      ap (read_loop json lib http_world ws_world takes (map binary (requests calls))) (
        handle_relay_message-answers json lib http_world ws_world takes call.frame call.frame_bytes
          call.reply call.target n c started first.written first.routed first.replied up
          first.taken)
      ∙ read_loop-answers calls n c' started up others
      ∙ ap (λ s. record c { sent = s })
          (append_assoc c.sent ((n, call.reply) ∷ []) (replies n calls))

  pub handle_messages-answers :
      (calls : List (Call Value)) (n : ℕ) (c : RelayClient)
      → is_absent c.http_proxy.session ≡ false
      → c.ws ≡ open_socket n
      → All (IsServed c.http_proxy.router) calls
      → (reads (requests calls) c).sent ≡ c.sent ++ replies n calls
  unfolding handle_messages
  handle_messages-answers calls n c started up served =
      rw (up, handle_messages) (ap RelayClient.sent (read_loop-answers calls n c started up served))

  map-snd :
      (n : ℕ) (bs : List Bytes) → map (λ (x : ℕ × Bytes). x.1) (map (λ (b : Bytes). (n, b)) bs) ≡ bs
  map-snd n [] = refl
  map-snd n (b ∷ bs) = ap (λ t. b ∷ t) (map-snd n bs)

  map-replies :
      (n : ℕ) (calls : List (Call Value))
      → map (λ (x : ℕ × Bytes). x.1) (replies n calls) ≡ map Call.reply calls
  map-replies n [] = refl
  map-replies n (call ∷ calls) = ap (λ t. call.reply ∷ t) (map-replies n calls)

  -- The outcome of a call at its target.
  abbrev pub outcome_of : Call Value → HttpResponseFrame Value
  outcome_of call = outcome json lib http_world call.target call.frame

  reply-reads :
      (c : RelayClient) (call : Call Value)
      → is_absent c.http_proxy.session ≡ false
      → IsServed c.http_proxy.router call
      → (deserialize_response json call.reply ≡ ok (outcome_of call))
        × ((outcome_of call).request_id ≡ call.frame.request_id)
  reply-reads c call started s =
      let (answered, reads_back, own) =
        handle_request-answers json lib http_world c.http_proxy call.frame call.frame_bytes []
          started s.written call.target call.reply s.routed s.replied in
      (reads_back, own)

  replies-read :
      (c : RelayClient) (calls : List (Call Value))
      → is_absent c.http_proxy.session ≡ false
      → All (IsServed c.http_proxy.router) calls
      → (map (deserialize_response json) (map Call.reply calls)
          ≡ map (λ (call : Call Value). ok (outcome_of call)) calls)
        × (map (λ (call : Call Value). (outcome_of call).request_id) calls
            ≡ map (λ (call : Call Value). call.frame.request_id) calls)
  replies-read c [] started served = (refl, refl)
  replies-read c (call ∷ calls) started (s, rest) =
      let here = reply-reads c call started s in
      let later = replies-read c calls started rest in (cc, cc)

  -- A session that is open and has handed on nothing yet, and a connected relay client with a started
  -- HTTP proxy at one of its sides, whichever joined first. The other side writes requests that the
  -- client can serve, the client reads what the session hands on to it, and the client's side of the
  -- session carries the frames that the client then sends, however the two directions interleave. Then
  -- the other side gets one reply for each request, in their order, which reads as the outcome of that
  -- request at its target, with its identifier.
  pub relayed-answers :
      (d : Direction) (fs : List (Direction × Bytes)) (calls : List (Call Value)) (n : ℕ)
      (s : RelaySession) (c : RelayClient)
      → s.closed ≡ false
      → delivered d s ≡ []
      → delivered (opposite d) s ≡ []
      → is_absent c.http_proxy.session ≡ false
      → c.ws ≡ open_socket n
      → All (IsServed c.http_proxy.router) calls
      → frames d fs ≡ requests calls
      → (reads (delivered d (exchange (all_pass fs) s)) c).sent
        ≡ c.sent ++ map (λ (b : Bytes). (n, b)) (frames (opposite d) fs)
      → (map (deserialize_response json) (delivered (opposite d) (exchange (all_pass fs) s))
          ≡ map (λ (call : Call Value). ok (outcome_of call)) calls)
        × (map (λ (call : Call Value). (outcome_of call).request_id) calls
            ≡ map (λ (call : Call Value). call.frame.request_id) calls)
  relayed-answers d fs calls n s c open_ none_yet none_back started up served asked sent =
      let handed = delivered-exchange d fs s open_ ∙ ap (λ t. t ++ frames d fs) none_yet ∙ asked in
      let all_sent =
        sym sent
        ∙ ap (λ t. (reads t c).sent) handed
        ∙ handle_messages-answers calls n c started up served in
      let back =
        sym (map-snd n (frames (opposite d) fs))
        ∙ ap (map (λ (x : ℕ × Bytes). x.1)) (
            append-cancel_left c.sent (map (λ (b : Bytes). (n, b)) (frames (opposite d) fs))
              (replies n calls) all_sent)
        ∙ map-replies n calls in
      let arrived =
        delivered-exchange (opposite d) fs s open_
        ∙ ap (λ t. t ++ frames (opposite d) fs) none_back
        ∙ back in
      let (read, own) = replies-read c calls started served in
      (ap (map (deserialize_response json)) arrived ∙ read, own)
