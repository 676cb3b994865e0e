-- ===== src/Tools/Watching.antt =====
-- tools/mock-subscriber/src/main.ts on the messages of tools/mock-publisher/src/main.ts.
use streammix.Common.{
  ℕ, ◌+◌, ◌*◌, ◌^◌, ◌≤◌, ◌<◌, ◌≡◌, refl, ap, ◌∙◌, Bool, true, List, [], ◌∷◌, ◌++◌, map, length,
  if◌then◌else◌, arith, All,
}
use streammix.Common.Bytes.{be_bytes}
use streammix.Common.Int.{pos}
use streammix.Common.Number.{Number, num}
use streammix.Common.Text.{Text, text, text_eq}
use streammix.Constants.MessageType
use streammix.Errors.{ok}
use streammix.Header.{Frame, decode_frame, frame_buffer, has}
use streammix.Header.RoundTrip.{decode_frame-frame_buffer}
use streammix.Json.{JsonText, IsReadBack, object}
use streammix.Messages.{max_json_bytes}
use streammix.Messages.Fingerprint.{encode_fingerprint}
use streammix.Messages.Hello.{hello_fields}
use streammix.Messages.TrackList.{track_list_fields}
use streammix.Tools.Publisher.{Publisher, hello, tracks, info_of, hash_of, Tick, audio, fingerprint}
use streammix.Tools.Publisher.Sending.{IsTick, frames_of, bytes_from}
use streammix.Tools.Publisher.Stream.{
  publish, publish-sent, hello_frame, list_frame, tracks_decoded,
}
use streammix.Tools.Subscriber.{
  Counts, on_message, on_messages, on_decoded, lines_of, count_of, name_in, track_line, listed,
}
use streammix.Tools.Subscriber.Counts.{counts_for, occurrences, on_messages-count_of}

abbrev pub audio_ticks : List Tick → ℕ
audio_ticks [] = 0
audio_ticks (audio now fill ∷ ts) = audio_ticks ts + 1
audio_ticks (fingerprint now draw ∷ ts) = audio_ticks ts

abbrev pub fingerprint_ticks : List Tick → ℕ
fingerprint_ticks [] = 0
fingerprint_ticks (audio now fill ∷ ts) = fingerprint_ticks ts
fingerprint_ticks (fingerprint now draw ∷ ts) = fingerprint_ticks ts + 1

abbrev pub under : Text → Text → ℕ → ℕ
under own name n = if text_eq own name then n else 0

abbrev IsHeard : Frame → Type 0
IsHeard frame = decode_frame (frame_buffer frame) ≡ ok frame

IsHeard-frames_of : (seq : ℕ) (t : Tick) → seq < 2 ^ 32 → IsTick t → All IsHeard (frames_of t seq)
IsHeard-frames_of seq (audio now fill) a (b, long) =
    let heard = λ (id : ℕ) (slot : id ≤ 8).
      decode_frame-frame_buffer MessageType.audio_opus id 0 seq now (fill id) (unfold has in refl)
        slot (omega arith) a b (omega (arith, long id)) in
    (heard 1 (omega arith), (heard 2 (omega arith), (heard 3 (omega arith), tt)))
IsHeard-frames_of seq (fingerprint now draw) a (b, wide) =
    let heard = λ (id : ℕ) (slot : id ≤ 8).
      decode_frame-frame_buffer MessageType.fingerprint id 0 seq now
        (encode_fingerprint (record { hash = pos (hash_of (draw id)); window_ms = num 1000 }))
        (unfold has in refl) slot (omega arith) a b
        (unfold encode_fingerprint be_bytes in omega arith) in
    (heard 1 (omega arith), (heard 2 (omega arith), (heard 3 (omega arith), tt)))

sum_under :
    (t : Tick) (ts : List Tick) (a b name : Text)
    → (under a name (3 * audio_ticks (t ∷ [])) + under b name (3 * fingerprint_ticks (t ∷ [])))
        + (under a name (3 * audio_ticks ts) + under b name (3 * fingerprint_ticks ts))
      ≡ under a name (3 * audio_ticks (t ∷ ts)) + under b name (3 * fingerprint_ticks (t ∷ ts))
sum_under (audio now fill) ts a b name = ground arith
sum_under (fingerprint now draw) ts a b name = ground arith

module _ (json : JsonText) (hex : Number → Text) (summarize : Bool) (name : Text) where
  abbrev named : List Frame → ℕ
  named [] = 0
  named (frame ∷ frames) = counts_for json hex summarize name (ok frame) + named frames

  occurrences-append :
      (frames : List Frame) (rest : List (List ℕ))
      → All IsHeard frames
      → occurrences json hex summarize name (map frame_buffer frames ++ rest)
        ≡ named frames + occurrences json hex summarize name rest
  occurrences-append [] rest all_heard = omega arith
  occurrences-append (frame ∷ frames) rest (heard, all_heard) =
      rw heard (omega (arith, occurrences-append frames rest all_heard))

  named-frames_of :
      (seq : ℕ) (t : Tick)
      → named (frames_of t seq)
        ≡ under (text "AudioOpus") name (3 * audio_ticks (t ∷ []))
          + under (text "Fingerprint") name (3 * fingerprint_ticks (t ∷ []))
  unfolding name_in
  named-frames_of seq (audio now fill) = ground arith
  named-frames_of seq (fingerprint now draw) = ground arith

  occurrences-bytes_from :
      (seq : ℕ) (ts : List Tick)
      → seq + length ts ≤ 2 ^ 32
      → All IsTick ts
      → occurrences json hex summarize name (bytes_from seq ts)
        ≡ under (text "AudioOpus") name (3 * audio_ticks ts)
          + under (text "Fingerprint") name (3 * fingerprint_ticks ts)
  occurrences-bytes_from seq [] a ok_ticks = ground arith
  occurrences-bytes_from seq (t ∷ ts) a (b, bs) =
      occurrences-append (frames_of t seq) (bytes_from (seq + 1) ts)
        (IsHeard-frames_of seq t (omega arith) b)
      ∙ rw (named-frames_of seq t, occurrences-bytes_from (seq + 1) ts (omega arith) bs)
          (sum_under t ts (text "AudioOpus") (text "Fingerprint") name)

-- What the subscriber counts under a name, of the publisher's messages of the opening and of the ticks.
abbrev pub published_as : Text → List Tick → ℕ
published_as name ts =
    under (text "Hello") name 1
    + (under (text "TrackList") name 1
        + (under (text "AudioOpus") name (3 * audio_ticks ts)
            + under (text "Fingerprint") name (3 * fingerprint_ticks ts)))

abbrev IsQuiet : JsonText → (Number → Text) → Frame → Type 0
IsQuiet json hex frame = lines_of json hex true frame ≡ []

module _ (json : JsonText) (hex : Number → Text) where
  on_messages-append :
      (frames : List Frame) (rest : List (List ℕ)) (counts : Counts)
      → All IsHeard frames
      → All (IsQuiet json hex) frames
      → (counts' : Counts) × ((on_messages json hex true (map frame_buffer frames ++ rest) counts).1
          ≡ (on_messages json hex true rest counts').1)
  unfolding on_messages on_message
  on_messages-append [] rest counts all_heard all_quiet = (counts, refl)
  on_messages-append (frame ∷ frames) rest counts (heard, all_heard) (quiet, all_quiet) =
      let (counts', same) =
        on_messages-append frames rest (on_decoded json hex true (ok frame) counts).0 all_heard
          all_quiet in
      (counts', rw (heard, quiet) same)

  IsQuiet-frames_of : (seq : ℕ) (t : Tick) → All (IsQuiet json hex) (frames_of t seq)
  unfolding lines_of
  IsQuiet-frames_of seq (audio now fill) = (refl, (refl, (refl, tt)))
  IsQuiet-frames_of seq (fingerprint now draw) = (refl, (refl, (refl, tt)))

  quiet_ticks :
      (seq : ℕ) (ts : List Tick) (counts : Counts)
      → seq + length ts ≤ 2 ^ 32
      → All IsTick ts
      → (on_messages json hex true (bytes_from seq ts) counts).1 ≡ []
  unfolding on_messages
  quiet_ticks seq [] counts a ok_ticks = refl
  quiet_ticks seq (t ∷ ts) counts a (b, bs) =
      let (counts', same) =
        on_messages-append (frames_of t seq) (bytes_from (seq + 1) ts) counts
          (IsHeard-frames_of seq t (omega arith) b) (IsQuiet-frames_of seq t) in
      same ∙ quiet_ticks (seq + 1) ts counts' (omega arith) bs

-- Less than 2 ^ 32 ticks of the publisher tool, in any order, and the JSON texts of its HELLO and track
-- list within 4096 bytes, the track list's giving the object back. Then nothing is thrown; and the subscriber
-- tool, handed every message as it was sent, counts one HELLO, one track list, three audio frames for each
-- tick of audio and three fingerprints for each other tick, and nothing under any other name; and unless it
-- runs with `--verbose`, what it prints on these messages is one line with the ids and slugs of the tracks.
pub publish-on_messages :
    (json : JsonText) (hex : Number → Text) (summarize : Bool) (name : Text) (now later : ℕ)
    (ts : List Tick)
    → now < 2 ^ 64
    → later < 2 ^ 64
    → length ts < 2 ^ 32
    → All IsTick ts
    → length (json.stringify (object (hello_fields hello))) ≤ max_json_bytes
    → IsReadBack json (object (track_list_fields (map info_of tracks)))
    → length (json.stringify (object (track_list_fields (map info_of tracks)))) ≤ max_json_bytes
    → (p : Publisher) × (publish json now later ts ≡ ok p)
      × (count_of (on_messages json hex summarize p.sent []).0 name ≡ published_as name ts)
      × ((on_messages json hex true p.sent []).1 ≡ track_line (listed (map info_of tracks)) ∷ [])
unfolding lines_of name_in on_messages on_message
publish-on_messages json hex summarize name now later ts a b few ticks fits back fits' =
    let f1 = hello_frame json now later a b fits back fits' in
    let f2 = list_frame json now later a b fits back fits' in
    let heard1 : IsHeard f1 =
      decode_frame-frame_buffer MessageType.hello 0 0 0 now
        (json.stringify (object (hello_fields hello))) (unfold has in refl) (omega arith)
        (omega arith) (omega arith) a fits in
    let heard2 : IsHeard f2 =
      decode_frame-frame_buffer MessageType.track_list 0 0 1 later
        (json.stringify (object (track_list_fields (map info_of tracks)))) (unfold has in refl)
        (omega arith) (omega arith) (omega arith) b fits' in
    let (p, run, sent) = publish-sent json now later a b fits back fits' ts few ticks in
    let counted : occurrences json hex summarize name p.sent ≡ published_as name ts = rw sent (
      occurrences-append json hex summarize name (f1 ∷ f2 ∷ []) (bytes_from 1 ts)
        (heard1, (heard2, tt))
      ∙ rw (occurrences-bytes_from json hex summarize name 1 ts (omega arith) ticks)
          (omega arith)) in
    (
      p,
      run,
      on_messages-count_of json hex summarize name p.sent ∙ counted,
      rw (sent, heard1, heard2, tracks_decoded json now later a b fits back fits')
          (ap (λ lines. track_line (listed (map info_of tracks)) ∷ lines)
            (quiet_ticks json hex 1 ts _ (omega arith) ticks)),
    )
