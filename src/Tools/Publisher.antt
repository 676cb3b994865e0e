-- ===== src/Tools/Publisher.antt =====
-- tools/mock-publisher/src/main.ts: what the tool sends. The connection, the clock and the random numbers
-- are the runtime's: a tick carries what they gave. What a handler throws ends the process.
pub mod Arguments
pub mod Sending
pub mod Delivery
pub mod Stream
pub mod Limits
pub mod Lanes
pub mod Playback
use streammix.Common.{
  ℕ, ◌+◌, ◌*◌, ◌^◌, Bool, true, false, List, [], ◌∷◌, ◌++◌, map, ◌==◌, if◌then◌else◌,
}
use streammix.Common.Int.{pos}
use streammix.Common.Number.{num}
use streammix.Common.Text.{Text, text}
use streammix.Constants.{control_track}
use streammix.Constants.MessageType
use streammix.Errors.{Result, ok, thrown, ◌>>=◌}
use streammix.Header.{encode_frame}
use streammix.Header.RoundTrip.{frame_of}
use streammix.Json.{JsonText}
use streammix.Messages.Fingerprint.{encode_fingerprint}
use streammix.Messages.Hello.{HelloPayload, stereo, encode_hello}
use streammix.Messages.TrackList.{TrackInfo, encode_track_list}

-- An element of `TRACKS`.
pub record Track : Type 0 where
  pub id : ℕ
  pub slug : Text
  pub category : Text
  pub label : Text

abbrev pub tracks : List Track
tracks =
    record { id = 1; slug = text "mic"; category = text "mic"; label = text "Microphone" }
    ∷ record { id = 2; slug = text "game"; category = text "game"; label = text "Game" }
    ∷ record { id = 3; slug = text "music"; category = text "music"; label = text "Spotify" }
    ∷ []

abbrev pub info_of : Track → TrackInfo
info_of t = record { id = num t.id; slug = t.slug; category = t.category; label = t.label }

-- `seq` has a number for every track, the timers run or not, and `sent` is what `ws.send` was given.
pub record Publisher : Type 0 where
  pub seq : ℕ → ℕ
  pub timer : Bool
  pub fp_timer : Bool
  pub sent : List (List ℕ)

unfoldable pub new_publisher : Publisher
new_publisher = record { seq = λ id. 0; timer = false; fp_timer = false; sent = [] }

-- `send(frame)`, of a frame without `flags`.
unfoldable pub send : ℕ → ℕ → ℕ → ℕ → List ℕ → Publisher → Result Publisher
send type track seq timestamp_ms payload p = do
  bytes ← encode_frame (frame_of type track 0 seq timestamp_ms payload)
  ok (record p { sent = p.sent ++ (bytes ∷ []) })

abbrev pub hello : HelloPayload
hello = record { client = text "mock-publisher/0.0.1"; channels = stereo }

-- `ws.on("open")`, where the clock gives `now` and then `later`.
unfoldable pub on_open : JsonText → ℕ → ℕ → Publisher → Result Publisher
on_open json now later p = do
  payload ← encode_hello json hello
  p ← send MessageType.hello control_track 0 now payload p
  payload ← encode_track_list json (map info_of tracks)
  p ← send MessageType.track_list control_track 1 later payload p
  ok (record p { timer = true; fp_timer = true })

-- `seq[id] = seq[id] + 1`
unfoldable pub count_up : ℕ → Publisher → Publisher
count_up id p = record p { seq = λ n. if id == n then p.seq id + 1 else p.seq n }

-- The loop of the first interval; `fill id` are the random bytes for the track.
unfoldable pub send_audio : ℕ → (ℕ → List ℕ) → List Track → Publisher → Result Publisher
unfolding count_up
send_audio now fill [] p = ok p
send_audio now fill (t ∷ ts) p = do
  let p = count_up t.id p
  p ← send MessageType.audio_opus t.id (p.seq t.id) now (fill t.id) p
  send_audio now fill ts p

-- Two random numbers of 31 bits in one hash.
abbrev pub hash_of : ℕ × ℕ → ℕ
hash_of (high, low) = high * 2 ^ 32 + low

-- The loop of the second interval.
unfoldable pub send_fingerprints : ℕ → (ℕ → ℕ × ℕ) → List Track → Publisher → Result Publisher
unfolding count_up
send_fingerprints now draw [] p = ok p
send_fingerprints now draw (t ∷ ts) p = do
  let p = count_up t.id p
  let payload =
      encode_fingerprint (record { hash = pos (hash_of (draw t.id)); window_ms = num 1000 })
  p ← send MessageType.fingerprint t.id (p.seq t.id) now payload p
  send_fingerprints now draw ts p

-- An interval that is due: the time, and the random bytes or numbers for each track.
pub data Tick : Type 0 where
  audio : ℕ → (ℕ → List ℕ) → Tick
  fingerprint : ℕ → (ℕ → ℕ × ℕ) → Tick

unfoldable pub tick : Tick → Publisher → Result Publisher
tick (audio now fill) p = if p.timer then send_audio now fill tracks p else ok p
tick (fingerprint now draw) p = if p.fp_timer then send_fingerprints now draw tracks p else ok p

-- The ticks from the first to the last, in whatever order the two intervals fall due.
unfoldable pub tick_all : List Tick → Publisher → Result Publisher
tick_all [] p = ok p
tick_all (t ∷ ts) p = tick t p >>= tick_all ts

-- `ws.on("close")`: both intervals are cleared.
unfoldable pub on_close : Publisher → Publisher
on_close p = record p { timer = false; fp_timer = false }
