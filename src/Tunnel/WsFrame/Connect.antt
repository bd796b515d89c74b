-- ===== src/Tunnel/WsFrame/Connect.antt =====
-- server/app/tunnel/ws_frame.py: CONNECT: what was written is read back
use lem.Base.{
  ◌≡◌, ◌≢◌, refl, sym, [], ◌∷◌, ◌++◌, length, ok, err, insufficient, Part, bind-elim, subst,
  ok-injective,
}
use lem.Text.{Bytes, encode}
use lem.Json.{Json}
use lem.Tunnel.FrameType
use lem.Tunnel.WsFrame.Types.{WsConnectFrame}
use lem.Tunnel.WsFrame.Print.{serialize_ws_connect}
use lem.Tunnel.WsFrame.Parse.{read_ws_connect, deserialize_ws_connect}
use lem.Wire.{pack_u8, pack_u16, pack_u32, join}
use lem.Wire.Words.{pack_u8-bytes}
use lem.Wire.Codec.{
  Reads, Reads-bind, Reads-pure, Reads-lift, Reads-check, Reads-read_u8, Reads-read_u16,
  Reads-read_u32, Reads-read_text, run-Reads, run-cut,
}

module _ (json : Json) (frame : WsConnectFrame json.Value) where
  open json use {dumps, loads-dumps}

  module _ (url_bytes headers_bytes frame_type connection_id url_len headers_len : Bytes)
      (e1 : encode frame.url ≡ ok url_bytes) (e2 : encode (dumps frame.headers) ≡ ok headers_bytes)
      (e3 : pack_u8 FrameType.ws_connect ≡ ok frame_type)
      (e4 : pack_u32 frame.connection_id ≡ ok connection_id)
      (e5 : pack_u16 (length url_bytes) ≡ ok url_len)
      (e6 : pack_u32 (length headers_bytes) ≡ ok headers_len) where
    Reads-parts :
        Reads
          (read_ws_connect json)
          (join
            (frame_type ∷ connection_id ∷ url_len ∷ url_bytes ∷ headers_len ∷ headers_bytes ∷ []))
          frame
    unfolding read_ws_connect
    Reads-parts = Reads-bind _ _ _ _ (Reads-read_u8 _ _ frame_type e3) (
        Reads-bind _ _ _ _ (Reads-check _ refl) (
          Reads-bind _ _ _ _ (Reads-read_u32 _ _ connection_id e4) (
            Reads-bind _ _ _ _ (Reads-read_u16 _ _ url_len e5) (
              Reads-bind _ _ _ _ (Reads-read_text _ _ url_bytes e1) (
                Reads-bind _ _ _ _ (Reads-read_u32 _ _ headers_len e6) (
                  Reads-bind _ _ _ _ (Reads-read_text _ _ headers_bytes e2) (
                    Reads-bind _ _ _ _ (Reads-lift _ (loads-dumps frame.headers))
                      (Reads-pure _))))))))

  Reads-ws_connect :
      (bytes : Bytes)
      → serialize_ws_connect json frame ≡ ok bytes
      → Reads (read_ws_connect json) bytes frame
  unfolding serialize_ws_connect
  Reads-ws_connect bytes h = bind-elim _ _ h λ url_bytes e1 h. bind-elim _ _ h λ headers_bytes e2 h.
      bind-elim _ _ h λ frame_type e3 h. bind-elim _ _ h λ connection_id e4 h.
        bind-elim _ _ h λ url_len e5 h. bind-elim _ _ h λ headers_len e6 h.
          subst (λ (x : Bytes). Reads (read_ws_connect json) x frame) (ok-injective h)
            (Reads-parts url_bytes headers_bytes frame_type connection_id url_len headers_len e1 e2
              e3 e4 e5 e6)

  -- A CONNECT frame that could be written is what reading its bytes gives, whatever
  -- follows them.
  pub deserialize-serialize_ws_connect :
      (bytes junk : Bytes)
      → serialize_ws_connect json frame ≡ ok bytes
      → deserialize_ws_connect json (bytes ++ junk) ≡ ok frame
  unfolding deserialize_ws_connect
  deserialize-serialize_ws_connect bytes junk h =
      run-Reads (read_ws_connect json) bytes (Reads-ws_connect bytes h) junk

  -- A CONNECT frame that is cut off anywhere is refused with
  -- `Insufficient data for ...`.
  pub deserialize_ws_connect-cut :
      (bytes kept lost : Bytes)
      → serialize_ws_connect json frame ≡ ok bytes
      → bytes ≡ kept ++ lost
      → lost ≢ []
      → (part : Part) × (deserialize_ws_connect json kept ≡ err (insufficient part))
  unfolding deserialize_ws_connect
  deserialize_ws_connect-cut bytes kept lost h e ne =
      run-cut (read_ws_connect json) bytes (Reads-ws_connect bytes h) kept lost e ne

  -- The first byte of the frame is its type.
  pub serialize_ws_connect-type :
      (bytes : Bytes)
      → serialize_ws_connect json frame ≡ ok bytes
      → (rest : Bytes) × (bytes ≡ FrameType.ws_connect ∷ rest)
  unfolding serialize_ws_connect
  serialize_ws_connect-type bytes h = bind-elim (encode frame.url) _ h λ ub ub_eq h.
      bind-elim (encode (dumps frame.headers)) _ h λ hb hb_eq h.
        bind-elim (pack_u8 FrameType.ws_connect) _ h λ t t_eq h.
          bind-elim (pack_u32 frame.connection_id) _ h λ id id_eq h.
            bind-elim (pack_u16 (length ub)) _ h λ ul ul_eq h.
              bind-elim (pack_u32 (length hb)) _ h λ hl hl_eq h. (
                join (id ∷ ul ∷ ub ∷ hl ∷ hb ∷ []),
                rw (pack_u8-bytes FrameType.ws_connect t t_eq) at (sym (ok-injective h)),
              )
