-- ===== src/Header/RoundTrip.antt =====
-- Encoding then decoding a frame, and decoding then encoding one: shared/ts/src/header.ts.
use streammix.Common.{
  ℕ, ◌%◌, ◌^◌, ◌≤◌, ◌<◌, ◌≡◌, true, false, ◌||◌, List, ◌++◌, length, arith, if◌then◌else◌, ap, ◌∙◌,
}
use streammix.Common.Int.{pos, negsuc, wrap}
use streammix.Common.Number.{Number, num, num_lt, to_uint, finite, nan, pos_inf, neg_inf}
use streammix.Errors
use streammix.Errors.{Result, ok, thrown, ◌>>=◌}
use streammix.Header.{Frame, frame_buffer, encode_frame, decode_frame, known_types, has}
use streammix.Header.Layout.{
  header, frame_buffer_lem, get-header-length, get-header_seq, get-header_timestamp, length-header,
  differs-header, byte_at-header_type, byte_at-header_track, byte_at-header_flags, payload-header,
}

-- The frame whose fields are what the stores of `encodeFrame` keep of those of `f`: a fraction is cut
-- off, and NaN becomes 0.
pub stored : Frame → Frame
stored f = record {
  type = num (to_uint 8 f.type);
  track = num (to_uint 8 f.track);
  flags = num (to_uint 8 f.flags);
  seq = num (to_uint 32 f.seq);
  timestamp_ms = pos (wrap 64 f.timestamp_ms);
  payload = f.payload;
}

-- The guard on the track leaves a slot, whatever the number.
track_guard : (x : Number) → (num_lt x (num 0) || num_lt (num 8) x) ≡ false → to_uint 8 x ≤ 8
track_guard nan h = omega arith
track_guard pos_inf h = cc
track_guard neg_inf h = cc
track_guard (finite (pos n) g) h = ground arith
track_guard (finite (negsuc n) g) h = cc

-- What a successful encoding has passed, and what it returns.
pub encode_frame_guards :
    (f : Frame) (bytes : List ℕ)
    → encode_frame f ≡ ok bytes
    → (length f.payload ≤ 4096) × (to_uint 8 f.track ≤ 8) × (bytes ≡ header f ++ f.payload)
unfolding encode_frame
encode_frame_guards f bytes h = ground (arith, track_guard f.track, frame_buffer_lem f)

decode_frame-header :
    (f : Frame)
    → length f.payload ≤ 4096
    → to_uint 8 f.track ≤ 8
    → decode_frame (header f ++ f.payload) ≡ (
        if has known_types (to_uint 8 f.type)
        then ok (stored f)
        else thrown
            (record { message = Errors.unknown_type (to_uint 8 f.type); code = Errors.bad_type }))
unfolding decode_frame stored
decode_frame-header f h k =
    rw
      (
        differs-header f,
        get-header-length f h,
        get-header_seq f,
        get-header_timestamp f,
        byte_at-header_type f,
        byte_at-header_track f,
        byte_at-header_flags f,
        payload-header f,
        length-header f,
      )
      (ground arith)

-- What `encodeFrame` returns, for a frame of any numbers, NaN and fractions among them: `decodeFrame`
-- takes it, and returns the stored fields, exactly when the type's byte is a known one. Of any other
-- type it is refused as BAD_TYPE.
pub decode_frame-encode_frame :
    (f : Frame) (bytes : List ℕ)
    → encode_frame f ≡ ok bytes
    → decode_frame bytes ≡ (
        if has known_types (to_uint 8 f.type)
        then ok (stored f)
        else thrown
            (record { message = Errors.unknown_type (to_uint 8 f.type); code = Errors.bad_type }))
decode_frame-encode_frame f bytes e =
    let (short, slot, same) = encode_frame_guards f bytes e in
    rw same (decode_frame-header f short slot)

-- A frame of natural numbers.
abbrev pub frame_of : ℕ → ℕ → ℕ → ℕ → ℕ → List ℕ → Frame
frame_of type track flags seq timestamp_ms payload = record {
  type = num type;
  track = num track;
  flags = num flags;
  seq = num seq;
  timestamp_ms = pos timestamp_ms;
  payload = payload;
}

known-lt : (type : ℕ) → has known_types type ≡ true → type < 256
unfolding has
known-lt type h = ground arith

module _ (type track flags seq timestamp_ms : ℕ) (payload : List ℕ) where
  stored-frame_of :
      type < 256
      → track ≤ 8
      → flags < 256
      → seq < 2 ^ 32
      → timestamp_ms < 2 ^ 64
      → stored (frame_of type track flags seq timestamp_ms payload)
        ≡ frame_of type track flags seq timestamp_ms payload
  unfolding stored
  stored-frame_of a b c d e = ground arith

  pub encode_frame-frame_of :
      track ≤ 8
      → flags < 256
      → seq < 2 ^ 32
      → timestamp_ms < 2 ^ 64
      → length payload ≤ 4096
      → encode_frame (frame_of type track flags seq timestamp_ms payload)
        ≡ ok (frame_buffer (frame_of type track flags seq timestamp_ms payload))
  unfolding encode_frame
  encode_frame-frame_of slot byte a b short = ground arith

  -- A frame with a known type, a slot of at most 8, and fields and payload within their widths is
  -- encoded, and decoding gives back the same frame.
  pub encode_then_decode :
      has known_types type ≡ true
      → track ≤ 8
      → flags < 256
      → seq < 2 ^ 32
      → timestamp_ms < 2 ^ 64
      → length payload ≤ 4096
      → (encode_frame (frame_of type track flags seq timestamp_ms payload) >>= decode_frame)
        ≡ ok (frame_of type track flags seq timestamp_ms payload)
  encode_then_decode known slot byte a b short =
      let f = frame_of type track flags seq timestamp_ms payload in
      let byte_of_type : type % 256 ≡ type = omega (arith, known-lt type known) in
      rw (encode_frame-frame_of slot byte a b short, frame_buffer_lem f)
        (decode_frame-header f short (omega arith)
          ∙ rw (byte_of_type, known) (ap ok (stored-frame_of (known-lt type known) slot byte a b)))

  pub decode_frame-frame_buffer :
      has known_types type ≡ true
      → track ≤ 8
      → flags < 256
      → seq < 2 ^ 32
      → timestamp_ms < 2 ^ 64
      → length payload ≤ 4096
      → decode_frame (frame_buffer (frame_of type track flags seq timestamp_ms payload))
        ≡ ok (frame_of type track flags seq timestamp_ms payload)
  decode_frame-frame_buffer known slot byte a b short =
      rw (encode_frame-frame_of slot byte a b short) at
        (encode_then_decode known slot byte a b short)
