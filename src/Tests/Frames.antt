-- ===== src/Tests/Frames.antt =====
-- Frames of each kind, written, read back, and cut off.
use lem.Base.{
  ◌≡◌, ◌≢◌, refl, sym, [], ◌∷◌, ◌++◌, take, drop, take-drop, ok, err, Part, insufficient,
  unicode_error,
}
use lem.Text.{Bytes, encode, encode_char, decode, decode_byte}
use lem.Text.RoundTrip.{decode-encode}
use lem.Text.Methods.{lit}
use lem.Wire.{pack_u8, pack_u16, pack_u32}
use lem.Tunnel.HttpFrame.{
  HttpRequestFrame, HttpResponseFrame, serialize_request, serialize_response, deserialize_request,
  deserialize_response,
}
use lem.Tunnel.HttpFrame.Request.{deserialize-serialize_request, deserialize_request-cut}
use lem.Tunnel.HttpFrame.Response.{deserialize-serialize_response, deserialize_response-cut}
use lem.Tunnel.WsFrame.{
  WsConnectFrame, WsDataFrame, WsCloseFrame, serialize_ws_connect, serialize_ws_data,
  serialize_ws_close, deserialize_ws_connect, deserialize_ws_data, deserialize_ws_close,
}
use lem.Tunnel.WsFrame.Connect.{deserialize-serialize_ws_connect, deserialize_ws_connect-cut}
use lem.Tunnel.WsFrame.Data.{deserialize-serialize_ws_data, deserialize_ws_data-cut}
use lem.Tunnel.WsFrame.Close.{deserialize-serialize_ws_close, deserialize_ws_close-cut}
use lem.Tunnel.Frame.{Frame, deserialize_like, deserialize-serialize, deserialize-cut}
use lem.Tests.Fixtures.{Headers, empty, content_type, headers_json, bytes_of}

abbrev pub request : HttpRequestFrame Headers
request = record {
  request_id = 258;
  method = lit "GET";
  path = lit "/v1/é";
  headers = empty;
  body = [];
}

abbrev pub request_bytes : Bytes
unfolding serialize_request encode encode_char pack_u8 pack_u16 pack_u32
request_bytes = bytes_of (serialize_request headers_json request)

pub request-written : serialize_request headers_json request ≡ ok request_bytes
unfolding request_bytes
request-written = refl

deserialize-serialize_request_test :
    deserialize_request headers_json (request_bytes ++ (7 ∷ 7 ∷ [])) ≡ ok request
deserialize-serialize_request_test =
    deserialize-serialize_request headers_json request request_bytes (7 ∷ 7 ∷ []) request-written

request-long : drop 9 request_bytes ≢ []
unfolding request_bytes
request-long e = cc

deserialize_request-cut_test :
    (part : Part) × (deserialize_request headers_json (take 9 request_bytes)
      ≡ err (insufficient part))
deserialize_request-cut_test =
    deserialize_request-cut headers_json request request_bytes (take 9 request_bytes)
      (drop 9 request_bytes) request-written (sym (take-drop 9 request_bytes)) request-long

abbrev response : HttpResponseFrame Headers
response = record { request_id = 258; status_code = 200; headers = content_type; body = lit "{}" }

abbrev response_bytes : Bytes
unfolding serialize_response encode encode_char pack_u8 pack_u16 pack_u32
response_bytes = bytes_of (serialize_response headers_json response)

response-written : serialize_response headers_json response ≡ ok response_bytes
unfolding response_bytes
response-written = refl

deserialize-serialize_response_test :
    deserialize_response headers_json (response_bytes ++ (7 ∷ 7 ∷ [])) ≡ ok response
deserialize-serialize_response_test =
    deserialize-serialize_response headers_json response response_bytes (7 ∷ 7 ∷ [])
      response-written

response-long : drop 9 response_bytes ≢ []
unfolding response_bytes
response-long e = cc

deserialize_response-cut_test :
    (part : Part) × (deserialize_response headers_json (take 9 response_bytes)
      ≡ err (insufficient part))
deserialize_response-cut_test =
    deserialize_response-cut headers_json response response_bytes (take 9 response_bytes)
      (drop 9 response_bytes) response-written (sym (take-drop 9 response_bytes)) response-long

abbrev pub connect : WsConnectFrame Headers
connect = record { connection_id = 3; url = lit "/ws"; headers = empty }

abbrev pub connect_bytes : Bytes
unfolding serialize_ws_connect encode encode_char pack_u8 pack_u16 pack_u32
connect_bytes = bytes_of (serialize_ws_connect headers_json connect)

pub connect-written : serialize_ws_connect headers_json connect ≡ ok connect_bytes
unfolding connect_bytes
connect-written = refl

deserialize-serialize_ws_connect_test :
    deserialize_ws_connect headers_json (connect_bytes ++ (7 ∷ 7 ∷ [])) ≡ ok connect
deserialize-serialize_ws_connect_test =
    deserialize-serialize_ws_connect headers_json connect connect_bytes (7 ∷ 7 ∷ []) connect-written

connect-long : drop 9 connect_bytes ≢ []
unfolding connect_bytes
connect-long e = cc

deserialize_ws_connect-cut_test :
    (part : Part) × (deserialize_ws_connect headers_json (take 9 connect_bytes)
      ≡ err (insufficient part))
deserialize_ws_connect-cut_test =
    deserialize_ws_connect-cut headers_json connect connect_bytes (take 9 connect_bytes)
      (drop 9 connect_bytes) connect-written (sym (take-drop 9 connect_bytes)) connect-long

abbrev pub data_frame : WsDataFrame
data_frame = record { connection_id = 3; opcode = 1; payload = b'h' ∷ b'i' ∷ [] }

abbrev pub data_frame_bytes : Bytes
unfolding serialize_ws_data pack_u8 pack_u32
data_frame_bytes = bytes_of (serialize_ws_data data_frame)

pub data_frame-written : serialize_ws_data data_frame ≡ ok data_frame_bytes
unfolding data_frame_bytes
data_frame-written = refl

deserialize-serialize_ws_data_test :
    deserialize_ws_data (data_frame_bytes ++ (7 ∷ 7 ∷ [])) ≡ ok data_frame
deserialize-serialize_ws_data_test =
    deserialize-serialize_ws_data data_frame data_frame_bytes (7 ∷ 7 ∷ []) data_frame-written

data_frame-long : drop 9 data_frame_bytes ≢ []
unfolding data_frame_bytes
data_frame-long e = cc

deserialize_ws_data-cut_test :
    (part : Part) × (deserialize_ws_data (take 9 data_frame_bytes) ≡ err (insufficient part))
deserialize_ws_data-cut_test =
    deserialize_ws_data-cut data_frame data_frame_bytes (take 9 data_frame_bytes)
      (drop 9 data_frame_bytes) data_frame-written (sym (take-drop 9 data_frame_bytes))
      data_frame-long

abbrev pub close_frame : WsCloseFrame
close_frame = record { connection_id = 3; close_code = 1000; reason = lit "bye" }

abbrev pub close_frame_bytes : Bytes
unfolding serialize_ws_close encode encode_char pack_u8 pack_u16 pack_u32
close_frame_bytes = bytes_of (serialize_ws_close close_frame)

pub close_frame-written : serialize_ws_close close_frame ≡ ok close_frame_bytes
unfolding close_frame_bytes
close_frame-written = refl

deserialize-serialize_ws_close_test :
    deserialize_ws_close (close_frame_bytes ++ (7 ∷ 7 ∷ [])) ≡ ok close_frame
deserialize-serialize_ws_close_test =
    deserialize-serialize_ws_close close_frame close_frame_bytes (7 ∷ 7 ∷ []) close_frame-written

close_frame-long : drop 9 close_frame_bytes ≢ []
unfolding close_frame_bytes
close_frame-long e = cc

deserialize_ws_close-cut_test :
    (part : Part) × (deserialize_ws_close (take 9 close_frame_bytes) ≡ err (insufficient part))
deserialize_ws_close-cut_test =
    deserialize_ws_close-cut close_frame close_frame_bytes (take 9 close_frame_bytes)
      (drop 9 close_frame_bytes) close_frame-written (sym (take-drop 9 close_frame_bytes))
      close_frame-long

-- "é€😀" in UTF-8.
decode-encode_test :
    decode (0xc3 ∷ 0xa9 ∷ 0xe2 ∷ 0x82 ∷ 0xac ∷ 0xf0 ∷ 0x9f ∷ 0x98 ∷ 0x80 ∷ [])
    ≡ ok (0xe9 ∷ 0x20ac ∷ 0x1f600 ∷ [])
unfolding encode encode_char
decode-encode_test = decode-encode (0xe9 ∷ 0x20ac ∷ 0x1f600 ∷ []) _ refl

overlong_refused : decode (0xc0 ∷ 0x80 ∷ []) ≡ err unicode_error
unfolding decode decode_byte
overlong_refused = refl

surrogate_refused : decode (0xed ∷ 0xa0 ∷ 0x80 ∷ []) ≡ err unicode_error
unfolding decode decode_byte
surrogate_refused = refl

deserialize-serialize_example :
    deserialize_like headers_json (Frame.http_request request) (request_bytes ++ (7 ∷ 7 ∷ []))
    ≡ ok (Frame.http_request request)
deserialize-serialize_example =
    deserialize-serialize headers_json (Frame.http_request request) request_bytes (7 ∷ 7 ∷ [])
      request-written

deserialize-cut_example :
    (part : Part) × (deserialize_like headers_json
        (Frame.http_request request)
        (take 9 request_bytes)
      ≡ err (insufficient part))
deserialize-cut_example =
    deserialize-cut headers_json (Frame.http_request request) request_bytes (take 9 request_bytes)
      (drop 9 request_bytes) request-written (sym (take-drop 9 request_bytes)) request-long
