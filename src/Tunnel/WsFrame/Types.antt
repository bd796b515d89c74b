-- ===== src/Tunnel/WsFrame/Types.antt =====
-- server/app/tunnel/ws_frame.py: the three frame types.
use lem.Base.{ℕ}
use lem.Text.{Text, Bytes}

pub record WsConnectFrame (V : Type 0) : Type 0 where
  pub connection_id : ℕ
  pub url : Text
  pub headers : V

pub record WsDataFrame : Type 0 where
  pub connection_id : ℕ
  pub opcode : ℕ
  pub payload : Bytes

pub record WsCloseFrame : Type 0 where
  pub connection_id : ℕ
  pub close_code : ℕ
  pub reason : Text
