-- ===== src/Tunnel/HttpProxy/Correlation.antt =====
-- server/app/tunnel/http_proxy.py: which request a reply says that it answers.
use lem.Base.{
  ℕ, ◌+◌, ◌/◌, ◌≤◌, ◌≡◌, ◌↔◌, refl, ap, ◌∙◌, false, [], ◌++◌, length, take, arith, Result, ok, err,
  Exn, ◌>>=◌, append-nil, append_assoc,
}
use lem.Text.{Text, Bytes}
use lem.Json.{Json}
use lem.Wire.{pack_u8, pack_u32, unpack_u32}
use lem.Tunnel.FrameType
use lem.Tunnel.HttpFrame.{
  HttpRequestFrame, HttpResponseFrame, serialize_request, serialize_response, deserialize_response,
}
use lem.Tunnel.HttpFrame.Request.{deserialize-serialize_request, serialize_request-head}
use lem.Tunnel.HttpFrame.Response.{deserialize-serialize_response}
use lem.Tunnel.Router.{Urllib, route}
use lem.Tunnel.HttpProxy.{
  HttpProxyHandler, World, Request, Response, is_absent, response_frame, error_frame,
  error_request_id, answer, forward_request, handle_request, body_of,
}

-- The first four bytes of a request frame: its type, and the upper half of its identifier.
frame_head :
    (id : ℕ) (type_bytes id_bytes rest : Bytes)
    → pack_u8 FrameType.http_request ≡ ok type_bytes
    → pack_u32 id ≡ ok id_bytes
    → (unpack_u32 (take 4 (type_bytes ++ (id_bytes ++ rest))) ≡ ok (16777216 + id / 256))
      × (4 ≤ length (type_bytes ++ (id_bytes ++ rest)))
unfolding pack_u8 pack_u32 unpack_u32
frame_head id type_bytes id_bytes rest ht hi = ground arith

module _ (json : Json) (lib : Urllib) (world : World json.Value) where
  open json use {Value}
  open world use {request}

  id-response_frame :
      (id : ℕ) (r : Result (Response Value)) → (response_frame json lib world id r).request_id ≡ id
  unfolding response_frame
  id-response_frame id (ok r) = refl
  id-response_frame id (err e) = ground arith

  -- What `_forward_request` asks the target for.
  abbrev pub request_to : Text → HttpRequestFrame Value → Request Value
  request_to target frame = record {
    method = frame.method;
    url = target ++ frame.path;
    headers = frame.headers;
    body = body_of json lib world frame.body;
  }

  -- The reply that the target's answer to it makes.
  abbrev pub outcome : Text → HttpRequestFrame Value → HttpResponseFrame Value
  outcome target frame =
      response_frame json lib world frame.request_id (request (request_to target frame))

  head_id :
      (xs : Bytes) {n : ℕ}
      → (unpack_u32 (take 4 xs) ≡ ok n) × (4 ≤ length xs)
      → error_request_id json lib world xs ≡ n
  unfolding error_request_id
  head_id xs (e, l) = ground (arith, e)

  module _ (h : HttpProxyHandler) (frame : HttpRequestFrame Value) (bytes junk : Bytes)
      (opened : is_absent h.session ≡ false)
      (written : serialize_request json frame ≡ ok bytes) where
    answer-written :
        answer json lib world h (bytes ++ junk)
        ≡ (forward_request json lib world h frame >>= λ r. serialize_response json r)
    unfolding answer
    answer-written = rw (deserialize-serialize_request json frame bytes junk written)

    -- In a started proxy, a request frame that a client wrote, whatever follows it, and whose route is
    -- found is forwarded to the route's target with its own method, path, headers and body. The
    -- reply, if it can be written, reads back as the outcome's frame, with the request's identifier.
    pub handle_request-answers :
        (target : Text) (reply : Bytes)
        → route lib h.router frame.path ≡ ok target
        → serialize_response json (outcome target frame) ≡ ok reply
        → (handle_request json lib world h (bytes ++ junk) ≡ ok reply)
          × (deserialize_response json reply ≡ ok (outcome target frame))
          × ((outcome target frame).request_id ≡ frame.request_id)
    unfolding handle_request forward_request
    handle_request-answers target reply routed replied = (
      rw opened (
          rw answer-written
            (rw (opened, forward_request) (rw (routed, forward_request) (rw replied)))),
      rw (← append-nil reply) (deserialize-serialize_response json _ reply [] replied),
      id-response_frame frame.request_id (request (request_to target frame)),
    )

    -- The error reply takes the frame's first four bytes for the identifier; the first of them
    -- is the frame type, so the identifier is another one for all requests but one.
    pub error_request_id-request :
        error_request_id json lib world (bytes ++ junk) ≡ 16777216 + frame.request_id / 256
    unfolding error_request_id
    error_request_id-request =
        let (t, id, rest, et, eid, e) = serialize_request-head json frame bytes written in
        let shape : bytes ++ junk ≡ t ++ (id ++ (rest ++ junk)) =
          ap (λ x. x ++ junk) e
          ∙ (append_assoc t (id ++ rest) junk ∙ ap (λ x. t ++ x) (append_assoc id rest junk)) in
        ap (error_request_id json lib world) shape
        ∙ head_id _ (frame_head frame.request_id t id (rest ++ junk) et eid)

    -- In a started proxy, where the route of a written request fails and the error frame can be
    -- written, the reply is that frame, and it reads back with an identifier that is the request's
    -- if and only if that is 16843009.
    pub handle_request-misattributes :
        (e : Exn) (reply : Bytes)
        → route lib h.router frame.path ≡ err e
        → serialize_response json (error_frame json lib world (bytes ++ junk) e) ≡ ok reply
        → (handle_request json lib world h (bytes ++ junk) ≡ ok reply)
          × (deserialize_response json reply ≡ ok (error_frame json lib world (bytes ++ junk) e))
          × (((error_frame json lib world (bytes ++ junk) e).request_id ≡ frame.request_id)
              ↔ (frame.request_id ≡ 16843009))
    unfolding handle_request forward_request error_frame
    handle_request-misattributes e reply failed replied = (
      rw opened
          (rw answer-written (rw (opened, forward_request) (rw (failed, forward_request) replied))),
      rw (← append-nil reply) (deserialize-serialize_response json _ reply [] replied),
      (
        (λ same. omega (arith, error_request_id-request)),
        (λ same. omega (arith, error_request_id-request)),
      ),
    )
