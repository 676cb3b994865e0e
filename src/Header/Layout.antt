-- ===== src/Header/Layout.antt =====
-- The bytes of an encoded frame, in order: shared/ts/src/header.ts.
use Prim.Native.Nat.add
use streammix.Common.{
  ℕ, ◌≤◌, zero, suc, ap, ◌∙◌, ◌+◌, ◌≡◌, refl, false, take, drop, take_all, List, [], ◌∷◌, ◌++◌,
  length, arith,
}
use streammix.Common.Bytes.{zeros, overlay, be_bytes, get_be, be_from-be_bytes}
use streammix.Common.Int.{wrap, wrap-lt}
use streammix.Common.Number.{to_integer, to_uint}
use streammix.Header.{Frame, frame_buffer, differs, byte_at}
use streammix.Constants.{magic}

-- The 21 bytes of the header.
unfoldable pub header : Frame → List ℕ
header f =
    0x53
    ∷ 0x4d
    ∷ 0x58
    ∷ 0x31
    ∷ to_uint 8 f.type
    ∷ to_uint 8 f.track
    ∷ to_uint 8 f.flags
    ∷ (be_bytes 2 (length f.payload)
        ++ (be_bytes 4 (to_uint 32 f.seq) ++ be_bytes 8 (wrap 64 f.timestamp_ms)))

overlay-zeros : (bs : List ℕ) → overlay (zeros (length bs)) bs ≡ bs
overlay-zeros [] = refl
overlay-zeros (b ∷ bs) = ap (λ t. b ∷ t) (overlay-zeros bs)

zeros-add : (n m : ℕ) → zeros (n + m) ≡ zeros n ++ zeros m
zeros-add zero m = ap zeros (add.zero m)
zeros-add (suc n) m = ap zeros (add.suc n m) ∙ ap (λ t. 0 ∷ t) (zeros-add n m)

-- The stores leave no gap: the buffer is the header and then the payload.
pub frame_buffer_lem : (f : Frame) → frame_buffer f ≡ header f ++ f.payload
unfolding frame_buffer header be_bytes
frame_buffer_lem f = rw zeros-add (ap (λ t. header f ++ t) (overlay-zeros f.payload))

-- What `decodeFrame` reads at the offsets 7, 9 and 13.
module _ (f : Frame) where
  pub get-header-length :
      length f.payload ≤ 4096 → get_be 2 (header f ++ f.payload) 7 ≡ length f.payload
  unfolding header be_bytes
  get-header-length h = be_from-be_bytes 2 (length f.payload) (omega arith)

  pub get-header_seq : get_be 4 (header f ++ f.payload) 9 ≡ to_uint 32 f.seq
  unfolding header be_bytes
  get-header_seq = be_from-be_bytes 4 (to_uint 32 f.seq) (wrap-lt 32 (to_integer f.seq))

  pub get-header_timestamp : get_be 8 (header f ++ f.payload) 13 ≡ wrap 64 f.timestamp_ms
  unfolding header be_bytes
  get-header_timestamp = be_from-be_bytes 8 (wrap 64 f.timestamp_ms) (wrap-lt 64 f.timestamp_ms)

  -- The length, the magic, the three single bytes and the payload.
  pub length-header : length (header f ++ f.payload) ≡ 21 + length f.payload
  unfolding header be_bytes
  length-header = omega arith

  pub differs-header : differs magic (header f ++ f.payload) ≡ false
  unfolding header
  differs-header = refl

  pub byte_at-header_type : byte_at (header f ++ f.payload) 4 ≡ to_uint 8 f.type
  unfolding header
  byte_at-header_type = refl

  pub byte_at-header_track : byte_at (header f ++ f.payload) 5 ≡ to_uint 8 f.track
  unfolding header
  byte_at-header_track = refl

  pub byte_at-header_flags : byte_at (header f ++ f.payload) 6 ≡ to_uint 8 f.flags
  unfolding header
  byte_at-header_flags = refl

  pub payload-header : take (length f.payload) (drop 21 (header f ++ f.payload)) ≡ f.payload
  unfolding header be_bytes
  payload-header = take_all (length f.payload) f.payload (omega arith)
