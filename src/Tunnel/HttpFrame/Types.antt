-- ===== src/Tunnel/HttpFrame/Types.antt =====
-- server/app/tunnel/http_frame.py: the two frame types.
use lem.Base.{ℕ}
use lem.Text.{Text}

-- `V` is what the JSON headers decode to.
pub record HttpRequestFrame (V : Type 0) : Type 0 where
  pub request_id : ℕ
  pub method : Text
  pub path : Text
  pub headers : V
  pub body : Text

pub record HttpResponseFrame (V : Type 0) : Type 0 where
  pub request_id : ℕ
  pub status_code : ℕ
  pub headers : V
  pub body : Text
