-- ===== src/Tunnel/RelayClient/Answers.antt =====
-- server/app/tunnel/relay_client.py: a request that comes over the relay is answered over it.
use lem.Base.{
  ℕ, ◌≡◌, sym, ◌∙◌, ap, subst, append-nil, false, some, [], ◌∷◌, ◌++◌, Result, ok, ◌>>=◌,
}
use lem.Text.{Text, Bytes}
use lem.Json.{Json}
use lem.Tunnel.Router.{Urllib, route}
use lem.Tunnel.HttpFrame.{HttpRequestFrame, serialize_request, serialize_response}
use lem.Tunnel.HttpFrame.Response.{serialize_response-type}
use lem.Tunnel.HttpProxy
use lem.Tunnel.HttpProxy.{is_absent, handle_request}
use lem.Tunnel.HttpProxy.Correlation.{outcome, handle_request-answers}
use lem.Tunnel.WsProxy.State
use lem.Tunnel.Dispatcher.{dispatch}
use lem.Tunnel.Frame.{Frame}
use lem.Tunnel.Dispatcher.Routes.{dispatch-written}
use lem.Tunnel.RelayClient.{
  RelayClient, open_socket, send, send_on, reply_with, handle_relay_message,
}

module _ (json : Json) (lib : Urllib) (http_world : HttpProxy.World json.Value)
    (ws_world : State.World json.Value) (takes : Bytes → Result (Unit {0})) where
  replied :
      (n b : ℕ) (bs : Bytes) (c : RelayClient)
      → c.ws ≡ open_socket n
      → takes (b ∷ bs) ≡ ok tt
      → reply_with json lib http_world ws_world takes (ok (some (b ∷ bs))) c
        ≡ record c { sent = c.sent ++ (n, b ∷ bs) ∷ [] }
  unfolding reply_with send send_on
  replied n b bs c up taken = ap (λ s. (send_on takes (b ∷ bs) s c).1) up ∙ rw (taken, send_on)

  -- A written request frame that arrives over the relay, with a started HTTP proxy and a route: the
  -- frame of the request's outcome, if it can be written and the socket takes it, is sent over the
  -- open socket, and nothing else changes.
  pub handle_relay_message-answers :
      (frame : HttpRequestFrame json.Value) (frame_bytes reply : Bytes) (target : Text) (n : ℕ)
      (c : RelayClient)
      → is_absent c.http_proxy.session ≡ false
      → serialize_request json frame ≡ ok frame_bytes
      → route lib c.http_proxy.router frame.path ≡ ok target
      → serialize_response json (outcome json lib http_world target frame) ≡ ok reply
      → c.ws ≡ open_socket n
      → takes reply ≡ ok tt
      → handle_relay_message json lib http_world ws_world takes frame_bytes c
        ≡ record c { sent = c.sent ++ (n, reply) ∷ [] }
  unfolding handle_relay_message
  handle_relay_message-answers frame frame_bytes reply target n c started written routed out up
        taken =
      let (rest, shape) =
        serialize_response-type json (outcome json lib http_world target frame) reply out in
      let (answered, _, _) =
        handle_request-answers json lib http_world c.http_proxy frame frame_bytes [] started written
          target reply routed out in
      let there : dispatch json lib http_world ws_world c.http_proxy frame_bytes c.ws_proxy
          ≡ (ok (some reply), c.ws_proxy) =
        subst
          (λ x.
            dispatch json lib http_world ws_world c.http_proxy x c.ws_proxy
            ≡ (ok (some reply), c.ws_proxy))
          (append-nil frame_bytes)
          (dispatch-written json lib http_world ws_world c.http_proxy c.ws_proxy frame_bytes []
              (Frame.http_request frame) written
            ∙ ap (λ (r : Result Bytes). ((r >>= λ y. ok (some y)), c.ws_proxy)) answered) in
      ap (λ x. reply_with json lib http_world ws_world takes x.0 (record c { ws_proxy = x.1 }))
        there
      ∙ subst
          (λ x.
            takes x ≡ ok tt
            → reply_with json lib http_world ws_world takes (ok (some x)) c
              ≡ record c { sent = c.sent ++ (n, x) ∷ [] })
          (sym shape) (replied n 2 rest c up) taken
