-- ===== src/Tunnel/WsFrame/Opcode.antt =====
-- server/app/tunnel/ws_frame.py: `class WSOpcode(IntEnum)`.
use lem.Base.{ℕ}

abbrev pub continuation : ℕ
continuation = 0x00

abbrev pub text : ℕ
text = 0x01

abbrev pub binary : ℕ
binary = 0x02

abbrev pub close : ℕ
close = 0x08

abbrev pub ping : ℕ
ping = 0x09

abbrev pub pong : ℕ
pong = 0x0a
