-- ===== src/Examples/Payloads.antt =====
-- Payloads: examples for the codecs of the messages.
use streammix.Common.{ℕ, ◌≤◌, List, [], ◌∷◌, ◌≡◌, refl, arith}
use streammix.Common.Number.{num}
use streammix.Common.Text.{text}
use streammix.Errors.{ok, ◌>>=◌}
use streammix.Categories.{is_valid_slug, slug_re, is_slug_char, is_preset_category}
use streammix.Json.{JsonText, Fields}
use streammix.Messages.{decode_json, str_field}
use streammix.Messages.TrackList.{
  TrackInfo, encode_track_list, decode_track_list, decode_tracks, decode_track, track_list_fields,
}
use streammix.Messages.TrackList.WellFormed.{
  AreTracks, decode_track_list_sound, decode_track_list-encode_track_list,
}
use streammix.Messages.TrackList.UnknownCategory.{
  IsKnownCategory, decode_track_list_unknown_category,
}
use streammix.Messages.Hello.{
  HelloPayload, stereo, hello_fields, decode_hello, decode_hello_sound, Announces,
}
use streammix.Messages.Codes.{Carries}
use streammix.Messages.Codes.Decoders.{decoders-Carries}
use streammix.Messages.TrackMeta.{decode_track_meta}
use streammix.Messages.Stats.{decode_stats}
use streammix.Messages.SubTracks.{decode_sub_tracks}
use streammix.Messages.ErrorMessage.{decode_error}
use streammix.Messages.Fingerprint.{decode_fingerprint}
use streammix.Common.Bytes.{zeros}
use streammix.Errors.{bad_payload, too_large}
use streammix.Examples.Sample.{
  sample_text, codec_of, game_track, sample_tracks, sample_tracks-AreTracks,
}

abbrev track_codec : JsonText
track_codec = codec_of (track_list_fields sample_tracks)

sample_track_list : decode_track_list track_codec sample_text ≡ ok sample_tracks
unfolding decode_track_list decode_json decode_tracks decode_track str_field is_valid_slug slug_re
    is_slug_char is_preset_category
sample_track_list = refl

decode_track_list_sound_example : AreTracks [] sample_tracks × (2 ≤ 8)
decode_track_list_sound_example =
    decode_track_list_sound track_codec sample_text sample_tracks sample_track_list

decode_track_list-encode_track_list_example :
    (encode_track_list track_codec sample_tracks >>= decode_track_list track_codec)
    ≡ ok sample_tracks
decode_track_list-encode_track_list_example =
    decode_track_list-encode_track_list track_codec sample_tracks sample_tracks-AreTracks
      (omega arith) refl (omega arith)

-- A category of a later version of the protocol.
abbrev camera_track : TrackInfo
camera_track = record {
  id = num 3;
  slug = text "cam";
  category = text "camera";
  label = text "Cam";
}

abbrev camera_codec : JsonText
camera_codec = codec_of (track_list_fields (game_track ∷ camera_track ∷ []))

camera_unknown : ¬ IsKnownCategory camera_track
unfolding is_preset_category
camera_unknown h = ground arith

decode_track_list_unknown_category_example :
    ¬ ((us : List TrackInfo) × (decode_track_list camera_codec sample_text ≡ ok us))
decode_track_list_unknown_category_example =
    decode_track_list_unknown_category camera_codec sample_text (game_track ∷ []) [] camera_track
      (unfold decode_json in refl) camera_unknown

abbrev hello : HelloPayload
hello = record { client = text "streammix-obs/0.1"; channels = stereo }

decode_hello_sound_example :
    (obj : Fields) × (decode_json (codec_of (hello_fields hello)) sample_text ≡ ok obj)
    × Announces obj hello
decode_hello_sound_example =
    decode_hello_sound (codec_of (hello_fields hello)) sample_text hello
      (unfold decode_hello decode_json str_field in refl)

-- One byte too many.
abbrev long_text : List ℕ
long_text = zeros 4097

decoders-Carries_example :
    Carries too_large (decode_hello track_codec long_text)
    × Carries too_large (decode_track_list track_codec long_text)
    × Carries too_large (decode_track_meta track_codec long_text)
    × Carries too_large (decode_stats track_codec long_text)
    × Carries too_large (decode_sub_tracks track_codec long_text)
    × Carries too_large (decode_error track_codec long_text)
    × Carries bad_payload (decode_fingerprint long_text)
decoders-Carries_example = decoders-Carries track_codec long_text
