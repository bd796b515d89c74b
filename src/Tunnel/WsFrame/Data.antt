-- ===== src/Tunnel/WsFrame/Data.antt =====
-- server/app/tunnel/ws_frame.py: DATA: what was written is read back
use lem.Base.{
  arith, ◌<◌, ◌≡◌, ◌≢◌, refl, sym, [], ◌∷◌, ◌++◌, length, ok, err, insufficient, Part, bind-elim,
  subst, ok-injective,
}
use lem.Text.{Bytes}
use lem.Tunnel.FrameType
use lem.Tunnel.WsFrame.Types.{WsDataFrame}
use lem.Tunnel.WsFrame.Print.{serialize_ws_data}
use lem.Tunnel.WsFrame.Parse.{read_ws_data, deserialize_ws_data}
use lem.Wire.{pack_u8, pack_u32, join}
use lem.Wire.Words.{pack_u8-bytes, pack_u8-total, pack_u32-total}
use lem.Wire.Codec.{
  Reads, Reads-bind, Reads-pure, Reads-check, Reads-read_u8, Reads-read_u32, Reads-read_bytes,
  run-Reads, run-cut,
}

module _ (frame : WsDataFrame) where
  module _ (frame_type connection_id opcode payload_len : Bytes)
      (e1 : pack_u8 FrameType.ws_data ≡ ok frame_type)
      (e2 : pack_u32 frame.connection_id ≡ ok connection_id) (e3 : pack_u8 frame.opcode ≡ ok opcode)
      (e4 : pack_u32 (length frame.payload) ≡ ok payload_len) where
    Reads-parts :
        Reads read_ws_data
          (join (frame_type ∷ connection_id ∷ opcode ∷ payload_len ∷ frame.payload ∷ []))
          frame
    unfolding read_ws_data
    Reads-parts = Reads-bind _ _ _ _ (Reads-read_u8 _ _ frame_type e1) (
        Reads-bind _ _ _ _ (Reads-check _ refl) (
          Reads-bind _ _ _ _ (Reads-read_u32 _ _ connection_id e2) (
            Reads-bind _ _ _ _ (Reads-read_u8 _ _ opcode e3) (
              Reads-bind _ _ _ _ (Reads-read_u32 _ _ payload_len e4)
                (Reads-bind _ _ _ _ (Reads-read_bytes _ _ frame.payload refl) (Reads-pure _))))))

  Reads-ws_data :
      (bytes : Bytes) → serialize_ws_data frame ≡ ok bytes → Reads read_ws_data bytes frame
  unfolding serialize_ws_data
  Reads-ws_data bytes h = bind-elim _ _ h λ frame_type e1 h. bind-elim _ _ h λ connection_id e2 h.
      bind-elim _ _ h λ opcode e3 h. bind-elim _ _ h λ payload_len e4 h.
        subst (λ (x : Bytes). Reads read_ws_data x frame) (ok-injective h)
          (Reads-parts frame_type connection_id opcode payload_len e1 e2 e3 e4)

  -- A DATA frame that could be written is what reading its bytes gives, whatever
  -- follows them.
  pub deserialize-serialize_ws_data :
      (bytes junk : Bytes)
      → serialize_ws_data frame ≡ ok bytes
      → deserialize_ws_data (bytes ++ junk) ≡ ok frame
  unfolding deserialize_ws_data
  deserialize-serialize_ws_data bytes junk h =
      run-Reads read_ws_data bytes (Reads-ws_data bytes h) junk

  -- A DATA frame that is cut off anywhere is refused with
  -- `Insufficient data for ...`.
  pub deserialize_ws_data-cut :
      (bytes kept lost : Bytes)
      → serialize_ws_data frame ≡ ok bytes
      → bytes ≡ kept ++ lost
      → lost ≢ []
      → (part : Part) × (deserialize_ws_data kept ≡ err (insufficient part))
  unfolding deserialize_ws_data
  deserialize_ws_data-cut bytes kept lost h e ne =
      run-cut read_ws_data bytes (Reads-ws_data bytes h) kept lost e ne

  -- The first byte of the frame is its type.
  pub serialize_ws_data-type :
      (bytes : Bytes)
      → serialize_ws_data frame ≡ ok bytes
      → (rest : Bytes) × (bytes ≡ FrameType.ws_data ∷ rest)
  unfolding serialize_ws_data
  serialize_ws_data-type bytes h = bind-elim (pack_u8 FrameType.ws_data) _ h λ t t_eq h.
      bind-elim (pack_u32 frame.connection_id) _ h λ id id_eq h.
        bind-elim (pack_u8 frame.opcode) _ h λ op op_eq h.
          bind-elim (pack_u32 (length frame.payload)) _ h λ pl pl_eq h. (
            join (id ∷ op ∷ pl ∷ frame.payload ∷ []),
            rw (pack_u8-bytes FrameType.ws_data t t_eq) at (sym (ok-injective h)),
          )

-- A frame whose fields fit their places can be written.
pub serialize_ws_data-total :
    (frame : WsDataFrame)
    → frame.connection_id < 4294967296
    → frame.opcode < 256
    → length frame.payload < 4294967296
    → (bytes : Bytes) × (serialize_ws_data frame ≡ ok bytes)
unfolding serialize_ws_data
serialize_ws_data-total frame hc ho hl =
    let (t, et) = pack_u8-total FrameType.ws_data (omega arith) in
    let (id, ei) = pack_u32-total frame.connection_id hc in
    let (op, eo) = pack_u8-total frame.opcode ho in
    let (n, en) = pack_u32-total (length frame.payload) hl in
    (join (t ∷ id ∷ op ∷ n ∷ frame.payload ∷ []), rw et (rw ei (rw eo (rw en))))
