-- ===== src/Tunnel/FrameType.antt =====
-- server/app/tunnel/http_frame.py: `class FrameType(IntEnum)`.
use lem.Base.{ℕ}

abbrev pub http_request : ℕ
http_request = 0x01

abbrev pub http_response : ℕ
http_response = 0x02

abbrev pub ws_connect : ℕ
ws_connect = 0x10

abbrev pub ws_data : ℕ
ws_data = 0x11

abbrev pub ws_close : ℕ
ws_close = 0x12
