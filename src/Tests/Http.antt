-- ===== src/Tests/Http.antt =====
-- The HTTP proxy and the dispatcher on concrete requests.
use lem.Base.{seq_eq, ℕ, ◌≡◌, ◌↔◌, refl, none, [], ◌∷◌, ◌++◌, ok, err, foreign}
use lem.Base.Dict.{lookup}
use lem.Text.{Text, Bytes, encode, encode_char}
use lem.Text.Methods.{lit, rstrip}
use lem.Wire.{pack_u8, pack_u16, pack_u32, unpack_u32}
use lem.Tunnel.Router.{Urllib, RequestRouter, route, or_empty, create_router_with_client_discovery}
use lem.Tunnel.Router.Targets.{IsTarget, route-targets}
use lem.Tunnel.HttpFrame.{serialize_request, serialize_response, deserialize_response}
use lem.Tunnel.HttpProxy.{
  Session, HttpProxyHandler, World, response_frame, handle_request, error_frame, error_request_id,
}
use lem.Tunnel.HttpProxy.Correlation.{outcome, handle_request-answers, handle_request-misattributes}
use lem.Tests.Fixtures.{Headers, content_type, headers_json, plain_urls, bytes_of}
use lem.Tests.Frames.{request, request_bytes, request-written}

abbrev pub router : RequestRouter
router = record { local_server_url = lit "http://localhost:5142"; get_client_url = λ id. none }

abbrev pub proxy : HttpProxyHandler
proxy = record {
  local_server_url = lit "http://localhost:5142";
  router = router;
  session = Session.opened;
}

-- A target that answers every request.
abbrev pub world : World Headers
world = record {
  request = λ r. ok (record { status = 200; headers = content_type; body = lit "fine" });
  message_of = λ e. lit "?";
}

-- A parser that refuses every URL.
abbrev no_urls : Urllib
no_urls = record { urlparse = λ t. err (foreign 2); parse_qs = λ t. [] }

pub routed : route plain_urls router (lit "/v1/é") ≡ ok (lit "http://localhost:5142")
unfolding route lookup
routed = refl

abbrev pub reply : Bytes
unfolding serialize_response response_frame encode encode_char pack_u8 pack_u16 pack_u32
reply = bytes_of (
    serialize_response headers_json
      (outcome headers_json plain_urls world (lit "http://localhost:5142") request))

pub replied :
    serialize_response headers_json
      (outcome headers_json plain_urls world (lit "http://localhost:5142") request)
    ≡ ok reply
unfolding reply
replied = refl

handle_request-answers_example :
    (handle_request headers_json plain_urls world proxy (request_bytes ++ []) ≡ ok reply)
    × (deserialize_response headers_json reply
        ≡ ok (outcome headers_json plain_urls world (lit "http://localhost:5142") request))
    × ((outcome headers_json plain_urls world (lit "http://localhost:5142") request).request_id
        ≡ 258)
handle_request-answers_example =
    handle_request-answers headers_json plain_urls world proxy request request_bytes [] refl
      request-written (lit "http://localhost:5142") reply routed replied

abbrev refusal : Bytes
unfolding serialize_request serialize_response error_frame error_request_id unpack_u32 encode
    encode_char pack_u8 pack_u16 pack_u32
refusal = bytes_of (
    serialize_response headers_json
      (error_frame headers_json no_urls world (request_bytes ++ []) (foreign 2)))

refused :
    serialize_response headers_json
      (error_frame headers_json no_urls world (request_bytes ++ []) (foreign 2))
    ≡ ok refusal
unfolding refusal
refused = refl

unrouted : route no_urls router (lit "/v1/é") ≡ err (foreign 2)
unfolding route
unrouted = refl

handle_request-misattributes_example :
    (handle_request headers_json no_urls world proxy (request_bytes ++ []) ≡ ok refusal)
    × (deserialize_response headers_json refusal
        ≡ ok (error_frame headers_json no_urls world (request_bytes ++ []) (foreign 2)))
    × (((error_frame headers_json no_urls world (request_bytes ++ []) (foreign 2)).request_id ≡ 258)
        ↔ (◌≡◌ {A = ℕ} 258 16843009))
handle_request-misattributes_example =
    handle_request-misattributes headers_json no_urls world proxy request request_bytes [] refl
      request-written (foreign 2) refusal unrouted refused

-- What the identifier 258 becomes.
misattributed : error_request_id headers_json no_urls world request_bytes ≡ 16777217
unfolding error_request_id unpack_u32 serialize_request encode encode_char pack_u8 pack_u16 pack_u32
misattributed = refl

-- A query that names the client `openwebui`.
abbrev client_urls : Urllib
client_urls = record {
  urlparse = λ t. ok (record { path = t; query = [] });
  parse_qs = λ t. (lit "client", lit "openwebui" ∷ []) ∷ [];
}

route-targets_example :
    (target : Text) × (route client_urls
        (create_router_with_client_discovery
          (ok (lit "http://127.0.0.1:33801"))
          (lit "http://localhost:5142/"))
        (lit "/")
      ≡ ok target)
    × IsTarget
        (rstrip b'/' (lit "http://localhost:5142/"))
        (ok (lit "http://127.0.0.1:33801"))
        (or_empty (lookup (lit "client") (client_urls.parse_qs [])))
        target
route-targets_example =
    route-targets (lit "http://localhost:5142/") (ok (lit "http://127.0.0.1:33801")) client_urls
      (lit "/") (record { path = lit "/"; query = [] }) refl
