-- ===== src/Messages/Codes/Decoders.antt =====
-- The codes of the errors that the decoders of shared/ts/src/messages.ts throw.
use streammix.Common.{
  ℕ, refl, not, List, [], Option, none, some, length, ltb, ◌==◌, if◌then◌else◌, Bool-cases, inl,
  inr,
}
use streammix.Common.Text.{text}
use streammix.Constants.{max_track_slot}
use streammix.Errors.{Result, Code, bad_payload, too_large, malformed, is_error_code, ◌>>=◌}
use streammix.Json.{Json, Fields, JsonText, object, prop, members, count_items, is_number, is_text}
use streammix.Messages.{max_json_bytes, decode_json, require_object}
use streammix.Messages.ErrorMessage.{decode_error}
use streammix.Messages.Fingerprint.{decode_fingerprint}
use streammix.Messages.Hello.{decode_hello}
use streammix.Messages.Stats.{decode_stats}
use streammix.Messages.SubTracks.{decode_sub_tracks}
use streammix.Messages.TrackList.{decode_track_list}
use streammix.Messages.TrackMeta.{decode_track_meta, read_track_meta}
use streammix.Messages.Codes.{
  Carries, >>=-Carries, throw_if-Carries, require_members-Carries, require_items-Carries,
  require_channels-Carries, str_field-Carries, num_field-Carries, optional_field-Carries,
  require_https-Carries, decode_tracks-Carries, decode_ids-Carries,
}

-- The code that a rejected payload of JSON text has: that of its length, if it is too long.
abbrev pub code_for : List ℕ → Code
code_for buf = if ltb max_json_bytes (length buf) then too_large else bad_payload

require_object-Carries : (v : Option Json) → Carries bad_payload (require_object v)
require_object-Carries none = refl
require_object-Carries (some (object fields)) = tt
require_object-Carries (some _) = refl

module _ (json : JsonText) (buf : List ℕ) where
  decode_json-Carries {ℓ} :
      {A : Type ℓ} (k : Fields → Result A)
      → ((obj : Fields) → Carries bad_payload (k obj))
      → Carries (code_for buf) (decode_json json buf >>= k)
  unfolding decode_json
  decode_json-Carries k rest = elim (Bool-cases (ltb max_json_bytes (length buf))) [
    | inl long ↦ rw long refl
    | inr fits ↦ rw fits (
        >>=-Carries (require_object (json.parse buf)) k bad_payload
          (require_object-Carries (json.parse buf)) rest)
  ]

  -- Whatever the bytes and whatever the JSON parser makes of them: what a decoder of a JSON payload throws
  -- has the code TOO_LARGE if the payload has more than 4096 bytes, and BAD_PAYLOAD if it has not; and the
  -- decoder of fingerprints throws nothing but BAD_PAYLOAD.
  pub decoders-Carries :
      Carries (code_for buf) (decode_hello json buf)
      × Carries (code_for buf) (decode_track_list json buf)
      × Carries (code_for buf) (decode_track_meta json buf)
      × Carries (code_for buf) (decode_stats json buf)
      × Carries (code_for buf) (decode_sub_tracks json buf)
      × Carries (code_for buf) (decode_error json buf)
      × Carries bad_payload (decode_fingerprint buf)
  unfolding decode_hello decode_track_list decode_track_meta read_track_meta decode_stats
      decode_sub_tracks decode_error decode_fingerprint
  decoders-Carries = (
    decode_json-Carries _ λ obj.
        throw_if-Carries bad_payload (not (is_number (prop (text "version") obj) 1))
          (malformed "hello.version") _
          (>>=-Carries _ _ bad_payload (str_field-Carries obj "client" 128) λ client.
            >>=-Carries _ _ bad_payload
              (require_members-Carries "hello.audio" (members (prop (text "audio") obj)))
              λ audio.
                throw_if-Carries bad_payload
                  (not (is_text (prop (text "codec") audio) (text "opus")))
                  (malformed "hello.audio.codec") _
                  (throw_if-Carries bad_payload
                    (not (is_number (prop (text "sample_rate") audio) 48000))
                    (malformed "hello.audio.sample_rate") _
                    (>>=-Carries _ _ bad_payload
                      (require_channels-Carries (prop (text "channels") audio))
                      λ channels.
                        throw_if-Carries bad_payload
                          (not (is_number (prop (text "frame_ms") audio) 20))
                          (malformed "hello.audio.frame_ms") _ tt))),
    decode_json-Carries _ λ obj.
        >>=-Carries _ _ bad_payload
          (require_items-Carries "track_list.tracks" (prop (text "tracks") obj))
          λ tracks.
            throw_if-Carries bad_payload (ltb max_track_slot (count_items tracks))
              (malformed "track_list too many tracks") _ (decode_tracks-Carries [] tracks),
    decode_json-Carries _ λ obj.
        >>=-Carries _ _ bad_payload
          (optional_field-Carries obj "title" 256 (prop (text "title") obj))
          λ title.
            >>=-Carries _ _ bad_payload
              (optional_field-Carries obj "artist" 256 (prop (text "artist") obj))
              λ artist.
                >>=-Carries _ _ bad_payload
                  (optional_field-Carries obj "album_art_url" 1024
                    (prop (text "album_art_url") obj))
                  λ url. >>=-Carries _ _ bad_payload (require_https-Carries url) λ art. tt,
    decode_json-Carries _ λ obj. >>=-Carries _ _ bad_payload (num_field-Carries obj "uptime_s") λ a.
        >>=-Carries _ _ bad_payload (num_field-Carries obj "packets_sent") λ b.
          >>=-Carries _ _ bad_payload (num_field-Carries obj "subscribers")
            λ c. >>=-Carries _ _ bad_payload (num_field-Carries obj "tracks_active") λ d. tt,
    decode_json-Carries _ λ obj.
        >>=-Carries _ _ bad_payload (require_items-Carries "sub_tracks" (prop (text "tracks") obj))
          λ ids.
            throw_if-Carries bad_payload (ltb max_track_slot (count_items ids))
              (malformed "sub_tracks too many") _ (decode_ids-Carries [] ids),
    decode_json-Carries _ λ obj.
        >>=-Carries _ _ bad_payload (str_field-Carries obj "code" 32) λ code.
          throw_if-Carries bad_payload (not (is_error_code code)) (malformed "error.code") _
            (>>=-Carries _ _ bad_payload (str_field-Carries obj "message" 512) λ message. tt),
    throw_if-Carries bad_payload (not (length buf == 10)) (malformed "fingerprint length") _ tt,
  )
