-- ===== src/Tunnel/HttpFrame/Request.antt =====
-- server/app/tunnel/http_frame.py: request: what was written is read back
use lem.Base.{
  ◌≡◌, ◌≢◌, refl, sym, [], ◌∷◌, ◌++◌, length, ok, err, insufficient, Part, bind-elim, subst,
  ok-injective,
}
use lem.Text.{Bytes, encode}
use lem.Json.{Json}
use lem.Tunnel.FrameType
use lem.Tunnel.HttpFrame.Types.{HttpRequestFrame}
use lem.Tunnel.HttpFrame.Print.{serialize_request}
use lem.Tunnel.HttpFrame.Parse.{read_request, deserialize_request}
use lem.Wire.{pack_u8, pack_u16, pack_u32, join}
use lem.Wire.Words.{pack_u8-bytes}
use lem.Wire.Codec.{
  Reads, Reads-bind, Reads-pure, Reads-lift, Reads-check, Reads-read_u8, Reads-read_u16,
  Reads-read_u32, Reads-read_text, run-Reads, run-cut,
}

module _ (json : Json) (frame : HttpRequestFrame json.Value) where
  open json use {dumps, loads-dumps}

  module _
      (method_bytes path_bytes headers_bytes body_bytes frame_type request_id method_len path_len
        headers_len body_len : Bytes)
      (e1 : encode frame.method ≡ ok method_bytes) (e2 : encode frame.path ≡ ok path_bytes)
      (e3 : encode (dumps frame.headers) ≡ ok headers_bytes)
      (e4 : encode frame.body ≡ ok body_bytes) (e5 : pack_u8 FrameType.http_request ≡ ok frame_type)
      (e6 : pack_u32 frame.request_id ≡ ok request_id)
      (e7 : pack_u16 (length method_bytes) ≡ ok method_len)
      (e8 : pack_u16 (length path_bytes) ≡ ok path_len)
      (e9 : pack_u32 (length headers_bytes) ≡ ok headers_len)
      (e10 : pack_u32 (length body_bytes) ≡ ok body_len) where
    Reads-parts :
        Reads
          (read_request json)
          (join (
            frame_type ∷ request_id ∷ method_len ∷ method_bytes ∷ path_len ∷ path_bytes
            ∷ headers_len ∷ headers_bytes ∷ body_len ∷ body_bytes ∷ []))
          frame
    unfolding read_request
    Reads-parts = Reads-bind _ _ _ _ (Reads-read_u8 _ _ frame_type e5) (
        Reads-bind _ _ _ _ (Reads-check _ refl) (
          Reads-bind _ _ _ _ (Reads-read_u32 _ _ request_id e6) (
            Reads-bind _ _ _ _ (Reads-read_u16 _ _ method_len e7) (
              Reads-bind _ _ _ _ (Reads-read_text _ _ method_bytes e1) (
                Reads-bind _ _ _ _ (Reads-read_u16 _ _ path_len e8) (
                  Reads-bind _ _ _ _ (Reads-read_text _ _ path_bytes e2) (
                    Reads-bind _ _ _ _ (Reads-read_u32 _ _ headers_len e9) (
                      Reads-bind _ _ _ _ (Reads-read_text _ _ headers_bytes e3) (
                        Reads-bind _ _ _ _ (Reads-lift _ (loads-dumps frame.headers)) (
                          Reads-bind _ _ _ _ (Reads-read_u32 _ _ body_len e10) (
                            Reads-bind _ _ _ _ (Reads-read_text _ _ body_bytes e4)
                              (Reads-pure _))))))))))))

  Reads-request :
      (bytes : Bytes)
      → serialize_request json frame ≡ ok bytes
      → Reads (read_request json) bytes frame
  unfolding serialize_request
  Reads-request bytes h = bind-elim _ _ h λ method_bytes e1 h. bind-elim _ _ h λ path_bytes e2 h.
      bind-elim _ _ h λ headers_bytes e3 h. bind-elim _ _ h λ body_bytes e4 h.
        bind-elim _ _ h λ frame_type e5 h. bind-elim _ _ h λ request_id e6 h.
          bind-elim _ _ h λ method_len e7 h. bind-elim _ _ h λ path_len e8 h.
            bind-elim _ _ h λ headers_len e9 h. bind-elim _ _ h λ body_len e10 h.
              subst (λ (x : Bytes). Reads (read_request json) x frame) (ok-injective h)
                (Reads-parts method_bytes path_bytes headers_bytes body_bytes frame_type request_id
                  method_len path_len headers_len body_len e1 e2 e3 e4 e5 e6 e7 e8 e9 e10)

  -- A request frame that could be written is what reading its bytes gives, whatever
  -- follows them.
  pub deserialize-serialize_request :
      (bytes junk : Bytes)
      → serialize_request json frame ≡ ok bytes
      → deserialize_request json (bytes ++ junk) ≡ ok frame
  unfolding deserialize_request
  deserialize-serialize_request bytes junk h =
      run-Reads (read_request json) bytes (Reads-request bytes h) junk

  -- A request frame that is cut off anywhere is refused with
  -- `Insufficient data for ...`.
  pub deserialize_request-cut :
      (bytes kept lost : Bytes)
      → serialize_request json frame ≡ ok bytes
      → bytes ≡ kept ++ lost
      → lost ≢ []
      → (part : Part) × (deserialize_request json kept ≡ err (insufficient part))
  unfolding deserialize_request
  deserialize_request-cut bytes kept lost h e ne =
      run-cut (read_request json) bytes (Reads-request bytes h) kept lost e ne

  -- The frame begins with its type and its identifier.
  pub serialize_request-head :
      (bytes : Bytes)
      → serialize_request json frame ≡ ok bytes
      → (t : Bytes) × (id : Bytes) × (rest : Bytes) × (pack_u8 FrameType.http_request ≡ ok t)
        × (pack_u32 frame.request_id ≡ ok id)
        × (bytes ≡ t ++ (id ++ rest))
  unfolding serialize_request
  serialize_request-head bytes h = bind-elim (encode frame.method) _ h λ mb e1 h.
      bind-elim (encode frame.path) _ h λ pb e2 h.
        bind-elim (encode (dumps frame.headers)) _ h λ hb e3 h.
          bind-elim (encode frame.body) _ h λ bb e4 h.
            bind-elim (pack_u8 FrameType.http_request) _ h λ t e5 h.
              bind-elim (pack_u32 frame.request_id) _ h λ id e6 h.
                bind-elim (pack_u16 (length mb)) _ h λ ml e7 h.
                  bind-elim (pack_u16 (length pb)) _ h λ pl e8 h.
                    bind-elim (pack_u32 (length hb)) _ h λ hl e9 h.
                      bind-elim (pack_u32 (length bb)) _ h λ bl e10 h. (
                        t,
                        id,
                        join (ml ∷ mb ∷ pl ∷ pb ∷ hl ∷ hb ∷ bl ∷ bb ∷ []),
                        e5,
                        e6,
                        sym (ok-injective h),
                      )

  -- The first byte of the frame is its type.
  pub serialize_request-type :
      (bytes : Bytes)
      → serialize_request json frame ≡ ok bytes
      → (rest : Bytes) × (bytes ≡ FrameType.http_request ∷ rest)
  unfolding serialize_request
  serialize_request-type bytes h = bind-elim (encode frame.method) _ h λ mb mb_eq h.
      bind-elim (encode frame.path) _ h λ pb pb_eq h.
        bind-elim (encode (dumps frame.headers)) _ h λ hb hb_eq h.
          bind-elim (encode frame.body) _ h λ bb bb_eq h.
            bind-elim (pack_u8 FrameType.http_request) _ h λ t t_eq h.
              bind-elim (pack_u32 frame.request_id) _ h λ id id_eq h.
                bind-elim (pack_u16 (length mb)) _ h λ ml ml_eq h.
                  bind-elim (pack_u16 (length pb)) _ h λ pl pl_eq h.
                    bind-elim (pack_u32 (length hb)) _ h λ hl hl_eq h.
                      bind-elim (pack_u32 (length bb)) _ h λ bl bl_eq h. (
                        join (id ∷ ml ∷ mb ∷ pl ∷ pb ∷ hl ∷ hb ∷ bl ∷ bb ∷ []),
                        rw (pack_u8-bytes FrameType.http_request t t_eq) at (sym (ok-injective h)),
                      )
