-- ===== src/Video/Packet/Bounds.antt =====
-- encode.rs: PassthroughDecoder on a packet from anywhere.
use win_xtend.Prelude.{ℕ, ◌*◌, ◌≡◌, true, arith, List, length, drop}
use win_xtend.Prelude.Results.{ok, >>=-eq-ok, map_err-eq-ok}
use win_xtend.Video.Frame.{
  RawFrame, row_bytes, packed, new_frame, bytes_needed, is_packed, packed_len,
}
use win_xtend.Video.Frame.Rows.{IsFrame, new_frame-IsFrame}
use win_xtend.Video.Packet.{
  PayloadFormat, raw_bgra, zstd_bgra, parse, header_len, header_packed_len, Zstd, decompress_zstd,
  pixels_of, sized, decode_packet, geometry,
}

sized-length :
    (expected : ℕ) (bytes out : List ℕ) → sized expected bytes ≡ ok out → length out ≡ expected
sized-length expected bytes out h = ground arith

packed_shape :
    (width height : ℕ) (pixels : List ℕ) (time : ℕ) (f : RawFrame)
    → packed width height pixels time ≡ ok f
    → IsFrame f
      × (f.width ≡ width)
      × (f.height ≡ height)
      × (f.pixels ≡ pixels)
      × (f.stride ≡ row_bytes width)
unfolding packed new_frame bytes_needed
packed_shape width height pixels time f h =
    let shape : (f.width ≡ width)
        × (f.height ≡ height)
        × (f.pixels ≡ pixels)
        × (f.stride ≡ row_bytes width) =
      (ground arith, ground arith, ground arith, ground arith) in
    (
      new_frame-IsFrame width height (row_bytes width) pixels time f h,
      shape.0,
      shape.1,
      shape.2,
      shape.3,
    )

full :
    (f : RawFrame) (width height : ℕ) (pixels : List ℕ)
    → f.width ≡ width
    → f.height ≡ height
    → f.pixels ≡ pixels
    → f.stride ≡ row_bytes width
    → length pixels ≡ width * 4 * height
    → (is_packed f ≡ true) × (length f.pixels ≡ packed_len f)
unfolding is_packed packed_len
full f width height pixels w h p s n =
    let count : length f.pixels ≡ f.width * 4 * f.height = rw (w, h, p) n in
    (ground (arith, count, s, w), count)

module _ (z : Zstd) where
  pixels_of-length :
      (format : PayloadFormat) (payload : List ℕ) (expected : ℕ) (out : List ℕ)
      → pixels_of z format payload expected ≡ ok out
      → length out ≡ expected
  pixels_of-length raw_bgra payload expected out h = sized-length expected payload out h
  pixels_of-length zstd_bgra payload expected out h =
      let (bytes, _, e) = >>=-eq-ok (decompress_zstd z payload expected) _ h in
      sized-length expected bytes out e

  -- Whatever bytes a packet has, a frame that comes of them meets all that `RawFrame::new` asks, is
  -- without padding, and holds exactly the bytes of its picture.
  pub decode_packet-IsFrame :
      (packet : List ℕ) (f : RawFrame)
      → decode_packet z packet ≡ ok f
      → IsFrame f × ((is_packed f ≡ true) × (length f.pixels ≡ packed_len f))
  unfolding decode_packet
  decode_packet-IsFrame packet f h =
      let (header, _, h₁) = >>=-eq-ok (parse packet) _ h in
      let (pixels, e, h₂) =
        >>=-eq-ok (pixels_of z header.format (drop header_len packet) (header_packed_len header)) _
          h₁ in
      let s =
        packed_shape header.width header.height pixels header.timestamp f
          (map_err-eq-ok geometry _ h₂) in
      (
        s.0,
        full f header.width header.height pixels s.1 s.2 s.3 s.4
            (pixels_of-length header.format _ _ pixels e),
      )
