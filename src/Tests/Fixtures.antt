-- ===== src/Tests/Fixtures.antt =====
-- Concrete values for what the program takes from elsewhere: a JSON encoder for two header
-- objects, and URLs without a query.
use lem.Base.{
  ◌<◌, ◌≡◌, refl, List, [], ◌∷◌, ◌==◌, seq_eq, if◌then◌else◌, Result, ok, err, json_error, All,
  arith,
}
use lem.Text.{Text, Bytes}
use lem.Text.Methods.{lit}
use lem.Json.{Json}
use lem.Tunnel.Router.{Urllib}

pub data Headers : Type 0 where
  empty content_type : Headers

abbrev to_text : Headers → Text
to_text empty = lit "{}"
to_text content_type = lit "{\"Content-Type\": \"application/json\"}"

abbrev of_text : Text → Result Headers
of_text t =
    if t == to_text empty
    then ok empty
    else if t == to_text content_type
    then ok content_type
    else err json_error

abbrev of_pairs : List (Text × Text) → Headers
of_pairs [] = empty
of_pairs (x ∷ xs) = content_type

pub of_text-to_text : (v : Headers) → of_text (to_text v) ≡ ok v
of_text-to_text empty = refl
of_text-to_text content_type = refl

pub to_text-IsAscii : (v : Headers) → All (λ c. c < 128) (to_text v)
to_text-IsAscii empty = omega arith
to_text-IsAscii content_type = omega arith

abbrev pub headers_json : Json
headers_json = record {
  Value = Headers;
  of_dict = of_pairs;
  dumps = to_text;
  loads = of_text;
  loads-dumps = of_text-to_text;
  dumps-IsAscii = to_text-IsAscii;
}

abbrev pub plain_urls : Urllib
plain_urls = record { urlparse = λ t. ok (record { path = t; query = [] }); parse_qs = λ t. [] }

-- The bytes of a frame that can be written.
abbrev pub bytes_of : Result Bytes → Bytes
bytes_of (ok bytes) = bytes
bytes_of (err e) = []
