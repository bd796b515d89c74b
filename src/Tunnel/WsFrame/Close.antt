-- ===== src/Tunnel/WsFrame/Close.antt =====
-- server/app/tunnel/ws_frame.py: CLOSE: what was written is read back
use lem.Base.{
  ◌≡◌, ◌≢◌, refl, sym, [], ◌∷◌, ◌++◌, length, ok, err, insufficient, Part, bind-elim, subst,
  ok-injective,
}
use lem.Text.{Bytes, encode}
use lem.Tunnel.FrameType
use lem.Tunnel.WsFrame.Types.{WsCloseFrame}
use lem.Tunnel.WsFrame.Print.{serialize_ws_close}
use lem.Tunnel.WsFrame.Parse.{read_ws_close, deserialize_ws_close}
use lem.Wire.{pack_u8, pack_u16, pack_u32, join}
use lem.Wire.Words.{pack_u8-bytes}
use lem.Wire.Codec.{
  Reads, Reads-bind, Reads-pure, Reads-check, Reads-read_u8, Reads-read_u16, Reads-read_u32,
  Reads-read_text, run-Reads, run-cut,
}

module _ (frame : WsCloseFrame) where
  module _ (reason_bytes frame_type connection_id close_code reason_len : Bytes)
      (e1 : encode frame.reason ≡ ok reason_bytes) (e2 : pack_u8 FrameType.ws_close ≡ ok frame_type)
      (e3 : pack_u32 frame.connection_id ≡ ok connection_id)
      (e4 : pack_u16 frame.close_code ≡ ok close_code)
      (e5 : pack_u16 (length reason_bytes) ≡ ok reason_len) where
    Reads-parts :
        Reads read_ws_close
          (join (frame_type ∷ connection_id ∷ close_code ∷ reason_len ∷ reason_bytes ∷ []))
          frame
    unfolding read_ws_close
    Reads-parts = Reads-bind _ _ _ _ (Reads-read_u8 _ _ frame_type e2) (
        Reads-bind _ _ _ _ (Reads-check _ refl) (
          Reads-bind _ _ _ _ (Reads-read_u32 _ _ connection_id e3) (
            Reads-bind _ _ _ _ (Reads-read_u16 _ _ close_code e4) (
              Reads-bind _ _ _ _ (Reads-read_u16 _ _ reason_len e5)
                (Reads-bind _ _ _ _ (Reads-read_text _ _ reason_bytes e1) (Reads-pure _))))))

  Reads-ws_close :
      (bytes : Bytes) → serialize_ws_close frame ≡ ok bytes → Reads read_ws_close bytes frame
  unfolding serialize_ws_close
  Reads-ws_close bytes h = bind-elim _ _ h λ reason_bytes e1 h. bind-elim _ _ h λ frame_type e2 h.
      bind-elim _ _ h λ connection_id e3 h. bind-elim _ _ h λ close_code e4 h.
        bind-elim _ _ h λ reason_len e5 h.
          subst (λ (x : Bytes). Reads read_ws_close x frame) (ok-injective h)
            (Reads-parts reason_bytes frame_type connection_id close_code reason_len e1 e2 e3 e4 e5)

  -- A CLOSE frame that could be written is what reading its bytes gives, whatever
  -- follows them.
  pub deserialize-serialize_ws_close :
      (bytes junk : Bytes)
      → serialize_ws_close frame ≡ ok bytes
      → deserialize_ws_close (bytes ++ junk) ≡ ok frame
  unfolding deserialize_ws_close
  deserialize-serialize_ws_close bytes junk h =
      run-Reads read_ws_close bytes (Reads-ws_close bytes h) junk

  -- A CLOSE frame that is cut off anywhere is refused with
  -- `Insufficient data for ...`.
  pub deserialize_ws_close-cut :
      (bytes kept lost : Bytes)
      → serialize_ws_close frame ≡ ok bytes
      → bytes ≡ kept ++ lost
      → lost ≢ []
      → (part : Part) × (deserialize_ws_close kept ≡ err (insufficient part))
  unfolding deserialize_ws_close
  deserialize_ws_close-cut bytes kept lost h e ne =
      run-cut read_ws_close bytes (Reads-ws_close bytes h) kept lost e ne

  -- The first byte of the frame is its type.
  pub serialize_ws_close-type :
      (bytes : Bytes)
      → serialize_ws_close frame ≡ ok bytes
      → (rest : Bytes) × (bytes ≡ FrameType.ws_close ∷ rest)
  unfolding serialize_ws_close
  serialize_ws_close-type bytes h = bind-elim (encode frame.reason) _ h λ rb rb_eq h.
      bind-elim (pack_u8 FrameType.ws_close) _ h λ t t_eq h.
        bind-elim (pack_u32 frame.connection_id) _ h λ id id_eq h.
          bind-elim (pack_u16 frame.close_code) _ h λ cc_bytes cc_bytes_eq h.
            bind-elim (pack_u16 (length rb)) _ h λ rl rl_eq h. (
              join (id ∷ cc_bytes ∷ rl ∷ rb ∷ []),
              rw (pack_u8-bytes FrameType.ws_close t t_eq) at (sym (ok-injective h)),
            )
