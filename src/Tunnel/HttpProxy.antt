-- ===== src/Tunnel/HttpProxy.antt =====
-- server/app/tunnel/http_proxy.py: an HTTP request frame is answered by a response frame. What
-- aiohttp answers to a request is an argument, and so is the text of an exception.
pub mod Correlation
use lem.Base.{
  ℕ, ◌≤◌, Bool, true, false, Option, none, some, List, [], ◌∷◌, ◌++◌, leb, length, take,
  if◌then◌else◌, Result, ok, err, Exn, not_started, client_error, ◌>>=◌,
}
use lem.Text.{Text, Bytes}
use lem.Text.Methods.{lit, rstrip, truthy}
use lem.Json.{Json}
use lem.Wire.{unpack_u32}
use lem.Tunnel.HttpFrame.{
  HttpRequestFrame, HttpResponseFrame, deserialize_request, serialize_response,
}
use lem.Tunnel.Router.{Urllib, RequestRouter, route}

-- `self.session`: an `aiohttp.ClientSession`, once started.
pub data Session : Type 0 where
  absent opened closed : Session

pub record HttpProxyHandler : Type 0 where
  pub local_server_url : Text
  pub router : RequestRouter
  pub session : Session

-- `HTTPProxyHandler.__init__`, with a router
unfoldable pub init : Text → RequestRouter → HttpProxyHandler
init local_server_url router = record {
  local_server_url = rstrip b'/' local_server_url;
  router = router;
  session = absent;
}

unfoldable pub start : HttpProxyHandler → HttpProxyHandler
start h = record h { session = opened }

abbrev close_session : Session → Session
close_session opened = absent
close_session s = s

unfoldable pub stop : HttpProxyHandler → HttpProxyHandler
stop h = record h { session = close_session h.session }

-- What is handed to `session.request`, and what comes back.
pub record Request (V : Type 0) : Type 0 where
  pub method : Text
  pub url : Text
  pub headers : V
  pub body : Option Text

pub record Response (V : Type 0) : Type 0 where
  pub status : ℕ
  pub headers : V
  pub body : Text

-- The rest of the world during one request.
pub record World (V : Type 0) : Type 0 where
  pub request : Request V → Result (Response V)
  pub message_of : Exn → Text

-- `self.session is None`
abbrev pub is_absent : Session → Bool
is_absent absent = true
is_absent s = false

module _ (json : Json) (lib : Urllib) (world : World json.Value) where
  open json use {Value, of_dict}
  open world use {request, message_of}

  abbrev json_headers : Value
  json_headers = of_dict ((lit "Content-Type", lit "application/json") ∷ [])

  -- `{"error": "..."}`
  abbrev error_body : Text → Exn → Text
  error_body what e = lit "{\"error\": \"" ++ (what ++ (message_of e ++ lit "\"}"))

  abbrev body_of : Text → Option Text
  body_of body = if truthy body then some body else none

  -- The outcome of the request, as a response frame: the three arms of the `try`.
  unfoldable pub response_frame : ℕ → Result (Response Value) → HttpResponseFrame Value
  response_frame request_id (ok response) = record {
    request_id = request_id;
    status_code = response.status;
    headers = response.headers;
    body = response.body;
  }
  response_frame request_id (err (client_error n)) = record {
    request_id = request_id;
    status_code = 502;
    headers = json_headers;
    body = error_body (lit "Bad Gateway: ") (client_error n);
  }
  response_frame request_id (err e) = record {
    request_id = request_id;
    status_code = 500;
    headers = json_headers;
    body = error_body (lit "Internal Server Error: ") e;
  }

  -- `_forward_request`
  unfoldable pub forward_request :
      HttpProxyHandler → HttpRequestFrame Value → Result (HttpResponseFrame Value)
  forward_request h frame = if is_absent h.session then err not_started else do
    target_url ← route lib h.router frame.path
    ok (
        response_frame frame.request_id (
          request (record {
            method = frame.method;
            url = target_url ++ frame.path;
            headers = frame.headers;
            body = body_of frame.body;
          })))

  abbrev id_or_zero : Result ℕ → ℕ
  id_or_zero (ok id) = id
  id_or_zero (err e) = 0

  -- The identifier that the error reply carries.
  unfoldable pub error_request_id : Bytes → ℕ
  error_request_id frame_bytes =
      if leb 4 (length frame_bytes) then id_or_zero (unpack_u32 (take 4 frame_bytes)) else 0

  unfoldable pub error_frame : Bytes → Exn → HttpResponseFrame Value
  error_frame frame_bytes e = record {
    request_id = error_request_id frame_bytes;
    status_code = 500;
    headers = json_headers;
    body = error_body (lit "Internal proxy error: ") e;
  }

  -- The body of the `try`.
  unfoldable pub answer : HttpProxyHandler → Bytes → Result Bytes
  answer h frame_bytes = do
    request_frame ← deserialize_request json frame_bytes
    response ← forward_request h request_frame
    serialize_response json response

  or_error : Bytes → Result Bytes → Result Bytes
  or_error frame_bytes (ok reply) = ok reply
  or_error frame_bytes (err e) = serialize_response json (error_frame frame_bytes e)

  -- `handle_request`
  unfoldable pub handle_request : HttpProxyHandler → Bytes → Result Bytes
  unfolding or_error
  handle_request h frame_bytes =
      if is_absent h.session then err not_started else or_error frame_bytes (answer h frame_bytes)
