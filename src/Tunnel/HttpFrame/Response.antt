-- ===== src/Tunnel/HttpFrame/Response.antt =====
-- server/app/tunnel/http_frame.py: response: what was written is read back
use lem.Base.{
  ◌≡◌, ◌≢◌, refl, sym, [], ◌∷◌, ◌++◌, length, ok, err, insufficient, Part, bind-elim, subst,
  ok-injective,
}
use lem.Text.{Bytes, encode}
use lem.Json.{Json}
use lem.Tunnel.FrameType
use lem.Tunnel.HttpFrame.Types.{HttpResponseFrame}
use lem.Tunnel.HttpFrame.Print.{serialize_response}
use lem.Tunnel.HttpFrame.Parse.{read_response, deserialize_response}
use lem.Wire.{pack_u8, pack_u16, pack_u32, join}
use lem.Wire.Words.{pack_u8-bytes}
use lem.Wire.Codec.{
  Reads, Reads-bind, Reads-pure, Reads-lift, Reads-check, Reads-read_u8, Reads-read_u16,
  Reads-read_u32, Reads-read_text, run-Reads, run-cut,
}

module _ (json : Json) (frame : HttpResponseFrame json.Value) where
  open json use {dumps, loads-dumps}

  module _ (headers_bytes body_bytes frame_type request_id status_code headers_len body_len : Bytes)
      (e1 : encode (dumps frame.headers) ≡ ok headers_bytes)
      (e2 : encode frame.body ≡ ok body_bytes)
      (e3 : pack_u8 FrameType.http_response ≡ ok frame_type)
      (e4 : pack_u32 frame.request_id ≡ ok request_id)
      (e5 : pack_u16 frame.status_code ≡ ok status_code)
      (e6 : pack_u32 (length headers_bytes) ≡ ok headers_len)
      (e7 : pack_u32 (length body_bytes) ≡ ok body_len) where
    Reads-parts :
        Reads
          (read_response json)
          (join (
            frame_type ∷ request_id ∷ status_code ∷ headers_len ∷ headers_bytes ∷ body_len
            ∷ body_bytes ∷ []))
          frame
    unfolding read_response
    Reads-parts = Reads-bind _ _ _ _ (Reads-read_u8 _ _ frame_type e3) (
        Reads-bind _ _ _ _ (Reads-check _ refl) (
          Reads-bind _ _ _ _ (Reads-read_u32 _ _ request_id e4) (
            Reads-bind _ _ _ _ (Reads-read_u16 _ _ status_code e5) (
              Reads-bind _ _ _ _ (Reads-read_u32 _ _ headers_len e6) (
                Reads-bind _ _ _ _ (Reads-read_text _ _ headers_bytes e1) (
                  Reads-bind _ _ _ _ (Reads-lift _ (loads-dumps frame.headers)) (
                    Reads-bind _ _ _ _ (Reads-read_u32 _ _ body_len e7)
                      (Reads-bind _ _ _ _ (Reads-read_text _ _ body_bytes e2) (Reads-pure _)))))))))

  Reads-response :
      (bytes : Bytes)
      → serialize_response json frame ≡ ok bytes
      → Reads (read_response json) bytes frame
  unfolding serialize_response
  Reads-response bytes h = bind-elim _ _ h λ headers_bytes e1 h. bind-elim _ _ h λ body_bytes e2 h.
      bind-elim _ _ h λ frame_type e3 h. bind-elim _ _ h λ request_id e4 h.
        bind-elim _ _ h λ status_code e5 h. bind-elim _ _ h λ headers_len e6 h.
          bind-elim _ _ h λ body_len e7 h.
            subst (λ (x : Bytes). Reads (read_response json) x frame) (ok-injective h)
              (Reads-parts headers_bytes body_bytes frame_type request_id status_code headers_len
                body_len e1 e2 e3 e4 e5 e6 e7)

  -- A response frame that could be written is what reading its bytes gives, whatever
  -- follows them.
  pub deserialize-serialize_response :
      (bytes junk : Bytes)
      → serialize_response json frame ≡ ok bytes
      → deserialize_response json (bytes ++ junk) ≡ ok frame
  unfolding deserialize_response
  deserialize-serialize_response bytes junk h =
      run-Reads (read_response json) bytes (Reads-response bytes h) junk

  -- A response frame that is cut off anywhere is refused with
  -- `Insufficient data for ...`.
  pub deserialize_response-cut :
      (bytes kept lost : Bytes)
      → serialize_response json frame ≡ ok bytes
      → bytes ≡ kept ++ lost
      → lost ≢ []
      → (part : Part) × (deserialize_response json kept ≡ err (insufficient part))
  unfolding deserialize_response
  deserialize_response-cut bytes kept lost h e ne =
      run-cut (read_response json) bytes (Reads-response bytes h) kept lost e ne

  -- The first byte of the frame is its type.
  pub serialize_response-type :
      (bytes : Bytes)
      → serialize_response json frame ≡ ok bytes
      → (rest : Bytes) × (bytes ≡ FrameType.http_response ∷ rest)
  unfolding serialize_response
  serialize_response-type bytes h = bind-elim (encode (dumps frame.headers)) _ h λ hb hb_eq h.
      bind-elim (encode frame.body) _ h λ bb bb_eq h.
        bind-elim (pack_u8 FrameType.http_response) _ h λ t t_eq h.
          bind-elim (pack_u32 frame.request_id) _ h λ id id_eq h.
            bind-elim (pack_u16 frame.status_code) _ h λ sc sc_eq h.
              bind-elim (pack_u32 (length hb)) _ h λ hl hl_eq h.
                bind-elim (pack_u32 (length bb)) _ h λ bl bl_eq h. (
                  join (id ∷ sc ∷ hl ∷ hb ∷ bl ∷ bb ∷ []),
                  rw (pack_u8-bytes FrameType.http_response t t_eq) at (sym (ok-injective h)),
                )
