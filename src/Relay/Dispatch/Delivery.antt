-- ===== src/Relay/Dispatch/Delivery.antt =====
-- What a publisher encodes reaches the callbacks of extension/src/relay/client.ts, and what reaches them
-- keeps to the protocol.
use streammix.Common.{
  ℕ, ◌^◌, ◌≤◌, ◌<◌, ◌≡◌, refl, ap, ◌∙◌, true, List, [], Option, none, some, length,
}
use streammix.Common.Number.{num}
use streammix.Constants.MessageType
use streammix.Errors.{Result, ok, thrown}
use streammix.Header.{Frame, encode_frame, frame_buffer, known_types, has}
use streammix.Header.RoundTrip.{frame_of, encode_frame-frame_of, decode_frame-frame_buffer}
use streammix.Json.{JsonText, IsReadBack, object}
use streammix.Messages.{encode_json_fits}
use streammix.Messages.TrackList.{
  TrackInfo, track_list_fields, encode_track_list, decode_track_list,
}
use streammix.Messages.TrackList.WellFormed.{AreTracks, decode_track_list-encode_track_list}
use streammix.Relay.Dispatch.{
  RelayEvent, on_track_list, on_audio, dispatch, handle_message, dispatch_decoded,
}

abbrev pub handle_encoded : JsonText → Result (List ℕ) → Option RelayEvent
handle_encoded json (ok bytes) = handle_message json bytes
handle_encoded json (thrown e) = none

-- Encoding a frame and handling the bytes.
abbrev pub deliver : JsonText → Frame → Option RelayEvent
deliver json frame = handle_encoded json (encode_frame frame)

module _ (json : JsonText) (track flags seq timestamp_ms : ℕ) (payload : List ℕ) where
  -- The bytes of a frame that the protocol allows are handled as the frame itself.
  pub handle_message-frame_buffer :
      (type : ℕ)
      → has known_types type ≡ true
      → track ≤ 8
      → flags < 256
      → seq < 2 ^ 32
      → timestamp_ms < 2 ^ 64
      → length payload ≤ 4096
      → handle_message json (frame_buffer (frame_of type track flags seq timestamp_ms payload))
        ≡ dispatch json (frame_of type track flags seq timestamp_ms payload)
  unfolding handle_message
  handle_message-frame_buffer type known slot byte a b short = ap (dispatch_decoded json) (
      decode_frame-frame_buffer type track flags seq timestamp_ms payload known slot byte a b short)

  deliver-dispatch :
      (type : ℕ)
      → has known_types type ≡ true
      → track ≤ 8
      → flags < 256
      → seq < 2 ^ 32
      → timestamp_ms < 2 ^ 64
      → length payload ≤ 4096
      → deliver json (frame_of type track flags seq timestamp_ms payload)
        ≡ dispatch json (frame_of type track flags seq timestamp_ms payload)
  deliver-dispatch type known slot byte a b short =
      ap (handle_encoded json)
        (encode_frame-frame_of type track flags seq timestamp_ms payload slot byte a b short)
      ∙ handle_message-frame_buffer type known slot byte a b short

  -- An encoded audio frame, with a track of at most 8 and fields and payload within their widths, reaches
  -- `onAudio` with its track and its frame as they were sent.
  pub deliver_audio :
      track ≤ 8
      → flags < 256
      → seq < 2 ^ 32
      → timestamp_ms < 2 ^ 64
      → length payload ≤ 4096
      → deliver json (frame_of MessageType.audio_opus track flags seq timestamp_ms payload)
        ≡ some (
            on_audio
              (num track)
              (frame_of MessageType.audio_opus track flags seq timestamp_ms payload))
  deliver_audio slot byte a b short =
      deliver-dispatch MessageType.audio_opus (unfold has in refl) slot byte a b short
      ∙ (unfold dispatch in refl)

  -- A list of at most 8 tracks that the protocol allows, encoded by `encodeTrackList` and sent in an encoded
  -- frame with a track of at most 8 and fields within their widths, reaches `onTrackList` as it was sent,
  -- if its JSON text gives the object back.
  pub deliver-track_list :
      (ts : List TrackInfo)
      → AreTracks [] ts
      → length ts ≤ 8
      → IsReadBack json (object (track_list_fields ts))
      → encode_track_list json ts ≡ ok payload
      → track ≤ 8
      → flags < 256
      → seq < 2 ^ 32
      → timestamp_ms < 2 ^ 64
      → deliver json (frame_of MessageType.track_list track flags seq timestamp_ms payload)
        ≡ some (on_track_list ts)
  deliver-track_list ts tracks few back sent slot byte a b =
      let (fits, text) =
        encode_json_fits json (object (track_list_fields ts)) {bytes = payload}
          (unfold encode_track_list in sent) in
      let decoded : decode_track_list json payload ≡ ok ts =
        rw sent at (decode_track_list-encode_track_list json ts tracks few back (rw text fits)) in
      deliver-dispatch MessageType.track_list (unfold has in refl) slot byte a b fits
      ∙ (unfold dispatch in rw decoded refl)
