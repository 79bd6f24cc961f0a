-- ===== src/Video/Packet/Passthrough.antt =====
-- encode.rs: PassthroughEncoder, and PassthroughDecoder on what it wrote.
use win_xtend.Prelude.{
  ℕ, ◌+◌, ◌*◌, ◌-◌, ◌<◌, ◌≤◌, ◌≡◌, refl, sym, ap, ◌∙◌, Bool, true, false, arith, Option, none, some,
  List, [], ◌++◌, length, drop, if◌then◌else◌, inl, inr, ◌⊎◌, some_inj,
}
use native.Mathlib.Nat.{mul-suc}
use win_xtend.Prelude.Int.{ℤ}
use win_xtend.Prelude.Results.{Result, ok, err, map_err, ◌>>=◌}
use win_xtend.Net.Control.{Text}
use win_xtend.Agent.Clipboard.{Compression, uncompressed, zstd}
use win_xtend.Video.Frame.{
  RawFrame, row_bytes, packed, new_frame, bytes_needed, is_packed, packed_len, to_packed_bytes,
  bytes_per_pixel, max_frame_pixels,
}
use win_xtend.Video.Frame.Rows.{
  IsFrame, picture, to_packed_bytes-picture, to_packed_bytes_lem, new_frame-IsFrame,
}
use win_xtend.Video.Packet.{
  PacketHeader, write_to, micros, header_len, header_packed_len, Zstd, PassthroughEncoder,
  EncodedPacket, EncodeError, compress_zstd, decompress_zstd, payload_of, pixels_of, sized,
  header_of, encode, decode_packet, backend, unavailable,
}
use win_xtend.Video.Packet.Header.{IsHeader, parse-write_to}

-- The bytes of a picture, row by row, and their bound.
whole : (width height : ℕ) → 0 < height → width * 4 * (height - 1) + width * 4 ≡ width * 4 * height
whole width height h =
    sym (mul-suc (width * 4) (height - 1)) ∙ ap (λ (t : ℕ). width * 4 * t) (omega arith)

small : (width height : ℕ) → width * height ≤ max_frame_pixels → width * 4 * height ≤ 268435456
small width height b = grind arith

-- A picture without padding is a frame.
packed_lem :
    (width height : ℕ) (pixels : List ℕ) (time : ℕ)
    → 0 < width
    → 0 < height
    → width * height ≤ max_frame_pixels
    → length pixels ≡ width * bytes_per_pixel * height
    → packed width height pixels time
      ≡ ok (record {
        width = width;
        height = height;
        stride = row_bytes width;
        pixels = pixels;
        timestamp = time;
      })
unfolding packed new_frame bytes_needed
packed_lem width height pixels time w h b n =
    ground (arith, n, whole width height h, small width height b)

-- The frame as the viewer gets it: without padding, its time in whole microseconds.
abbrev pub received : RawFrame → List ℕ → RawFrame
received f bytes = record {
  width = f.width;
  height = f.height;
  stride = row_bytes f.width;
  pixels = bytes;
  timestamp = micros f.timestamp * 1000;
}

to_packed_bytes-received :
    (f : RawFrame) (bytes : List ℕ)
    → length bytes ≡ packed_len f
    → to_packed_bytes (received f bytes) ≡ some bytes
unfolding to_packed_bytes is_packed packed_len
to_packed_bytes-received f bytes n = ground (arith, n)

drop-write_to : (h : PacketHeader) (rest : List ℕ) → drop header_len (write_to h [] ++ rest) ≡ rest
unfolding write_to
drop-write_to h rest = refl

sized_lem :
    (bytes : List ℕ) (expected : ℕ) → length bytes ≡ expected → sized expected bytes ≡ ok bytes
sized_lem bytes expected n = ground (arith, n)

abbrev packet_of : PassthroughEncoder → RawFrame → List ℕ → EncodedPacket
packet_of e f payload = record {
  width = f.width;
  height = f.height;
  timestamp = f.timestamp;
  keyframe = true;
  bytes = write_to (header_of e f) [] ++ payload;
}

module _ (z : Zstd) where
  -- What the encoder relies on in zstd: a payload that it made is inflated to what it was made of
  -- when the ceiling is the size of that.
  abbrev pub Inflates : Type 0
  Inflates =
      (bytes packed_bytes : List ℕ) (level : ℤ)
      → z.bulk_compress bytes level ≡ ok packed_bytes
      → z.bulk_decompress packed_bytes (length bytes) ≡ ok bytes

  -- What the decoder does with a packet whose header and pixels are in order.
  decode_pixels :
      (h : PacketHeader) (payload pixels : List ℕ)
      → IsHeader h
      → pixels_of z h.format payload (header_packed_len h) ≡ ok pixels
      → length pixels ≡ header_packed_len h
      → decode_packet z (write_to h [] ++ payload)
        ≡ ok (record {
          width = h.width;
          height = h.height;
          stride = row_bytes h.width;
          pixels = pixels;
          timestamp = micros h.timestamp * 1000;
        })
  unfolding decode_packet
  decode_pixels h payload pixels v e n =
      rw
        (
          parse-write_to h payload v,
          drop-write_to h payload,
          e,
          packed_lem h.width h.height pixels (micros h.timestamp * 1000) v.wide v.high v.bounded n,
        )
        refl

  -- zstd is not compiled in, or refused the picture.
  abbrev pub ZstdFails : PassthroughEncoder → RawFrame → EncodeError → Type 0
  ZstdFails e f x =
      (e.compression ≡ zstd)
      × (((z.available ≡ false) × (x ≡ unavailable zstd))
          ⊎ ((z.available ≡ true)
              × (reason : Text) × (z.bulk_compress (picture f) e.level ≡ err reason)
              × (x ≡ backend reason)))

  -- What was encoded is decoded to the frame without its padding; only zstd can fail.
  pub Reads :
      PassthroughEncoder → RawFrame → Option (Result EncodeError (Option EncodedPacket)) → Type 0
  Reads e f none = ⊥
  Reads e f (some (err x)) = ZstdFails e f x
  Reads e f (some (ok none)) = ⊥
  Reads e f (some (ok (some p))) =
      (to_packed_bytes f ≡ some (picture f))
      × (decode_packet z p.bytes ≡ ok (received f (picture f)))
      × (to_packed_bytes (received f (picture f)) ≡ some (picture f))

  raw_Reads :
      (e : PassthroughEncoder) (f : RawFrame) (payload : List ℕ)
      → IsFrame f
      → length (picture f) ≡ packed_len f
      → pixels_of z (header_of e f).format payload (packed_len f) ≡ ok (picture f)
      → Reads e f (some (ok (some (packet_of e f payload))))
  unfolding Reads packed_len
  raw_Reads e f payload v n px = (
    to_packed_bytes-picture f v,
    decode_pixels (header_of e f) payload (picture f)
        (record { wide = v.wide; high = v.high; bounded = v.bounded }) px n,
    to_packed_bytes-received f (picture f) n,
  )

  zstd_Reads :
      Inflates
      → (level : ℤ) (f : RawFrame) (on : Bool) (r : Result Text (List ℕ)) → IsFrame f
      → length (picture f) ≡ packed_len f
      → z.available ≡ on
      → z.bulk_compress (picture f) level ≡ r
      → let e : PassthroughEncoder = record { compression = zstd; level = level } in
        Reads e f (
          some (
            (if on then map_err backend r else err (unavailable zstd)) >>= λ payload.
            ok (some (packet_of e f payload))))
  unfolding Reads
  zstd_Reads inflates level f false r v n a c = (refl, inl (a, refl))
  zstd_Reads inflates level f true (err x) v n a c = (refl, inr (a, x, c, refl))
  zstd_Reads inflates level f true (ok payload) v n a c =
      raw_Reads (record { compression = zstd; level = level }) f payload v n
        (unfold decompress_zstd in
          rw (a, ← n, inflates (picture f) payload level c)
            (sized_lem (picture f) (length (picture f)) refl))

  kind_Reads :
      Inflates
      → (c : Compression) (level : ℤ) (f : RawFrame) → IsFrame f
      → length (picture f) ≡ packed_len f
      → let e : PassthroughEncoder = record { compression = c; level = level } in
        Reads e f
          (some (payload_of z e (picture f) >>= λ payload. ok (some (packet_of e f payload))))
  unfolding compress_zstd
  kind_Reads inflates uncompressed level f v n =
      raw_Reads (record { compression = uncompressed; level = level }) f (picture f) v n
        (sized_lem (picture f) (packed_len f) n)
  kind_Reads inflates zstd level f v n =
      zstd_Reads inflates level f z.available (z.bulk_compress (picture f) level) v n refl refl

  -- Encoding a frame that `RawFrame::new` made does not panic. It fails only if the encoder
  -- compresses, and zstd is not compiled in or refused the picture, and then with that error. The
  -- packet that it gives is decoded to a frame with the same width and height, the first bytes of
  -- each row as its pixels, as many as a row's pixels have and without padding, and the time cut to
  -- whole microseconds. zstd is taken to inflate what it compressed, under a ceiling of the
  -- original's size.
  pub encode-Reads :
      (e : PassthroughEncoder) (width height stride : ℕ) (pixels : List ℕ) (timestamp : ℕ)
      (f : RawFrame)
      → Inflates
      → new_frame width height stride pixels timestamp ≡ ok f
      → Reads e f (encode z e f)
  unfolding encode
  encode-Reads e width height stride pixels timestamp f inflates made =
      let v = new_frame-IsFrame width height stride pixels timestamp f made in
      let (bytes, b, n) = to_packed_bytes_lem f v in
      let same = some_inj (sym b ∙ to_packed_bytes-picture f v) in
      rw (encode, to_packed_bytes-picture f v)
        (kind_Reads inflates e.compression e.level f v (ap length (sym same) ∙ n))
