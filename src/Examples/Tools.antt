-- ===== src/Examples/Tools.antt =====
-- The command-line tools on concrete inputs.
use streammix.Common.{ℕ, ◌≡◌, refl, false, true, List, [], ◌∷◌, none, some, map, arith, All}
use streammix.Common.Bytes.{zeros}
use streammix.Common.Int.{pos}
use streammix.Common.Number.{Number, num}
use streammix.Common.Text.{Text, text}
use streammix.Errors
use streammix.Errors.{ok, thrown}
use streammix.Json.{JsonText}
use streammix.Messages.TrackList.{track_list_fields}
use streammix.Relay.Dispatch.{on_track_list}
use streammix.Tools.Publisher.{Publisher, info_of, tracks, Tick, audio, fingerprint, tick}
use streammix.Tools.Publisher.Delivery.{received, calls_from}
use streammix.Tools.Publisher.Sending.{IsTick}
use streammix.Tools.Publisher.Limits.{tick_exhausted}
use streammix.Tools.Publisher.Stream.{publish, publish-received}
use streammix.Tools.Publisher.Playback.{publish-feed}
use streammix.Content.{new_mixer}
use streammix.Content.Feed.{feed}
use streammix.Examples.Mixing.{page}
use streammix.Tools.Subscriber.{on_messages, count_of, track_line, listed}
use streammix.Tools.Watching.{publish-on_messages}
use streammix.Examples.Sample.{codec_of}

abbrev json : JsonText
json = codec_of (track_list_fields (map info_of tracks))

abbrev silence : ℕ → List ℕ
silence id = zeros 64

abbrev later_ticks : List Tick
later_ticks = audio 40 silence ∷ fingerprint 1000 (λ id. (7, 9)) ∷ audio 1020 silence ∷ []

abbrev ticks : List Tick
ticks = audio 20 silence ∷ later_ticks

ticks-AreTicks : All IsTick ticks
ticks-AreTicks = (
  (omega arith, λ id. refl),
  ((omega arith, λ id. refl), ((omega arith, λ id. omega arith), ((omega arith, λ id. refl), tt))),
)

publish-received_example :
    (p : Publisher) × (publish json 0 1 ticks ≡ ok p)
    × (received json p ≡ none ∷ some (on_track_list (map info_of tracks)) ∷ calls_from 1 ticks)
publish-received_example =
    publish-received json 0 1 ticks (omega arith) (omega arith) (omega arith) ticks-AreTicks
      (omega arith) refl (omega arith)

-- The mixer of a page on whose preferences nothing depends.
publish-feed_example :
    (p : Publisher) × (publish json 0 1 ticks ≡ ok p)
    × ((feed page (received json p) (new_mixer page)).1
        ≡ (text "mic", pos 0)
          ∷ (text "game", pos 0)
          ∷ (text "music", pos 0)
          ∷ (text "mic", pos 20000)
          ∷ (text "game", pos 20000)
          ∷ (text "music", pos 20000)
          ∷ (text "mic", pos 60000)
          ∷ (text "game", pos 60000)
          ∷ (text "music", pos 60000)
          ∷ [])
publish-feed_example =
    publish-feed json 0 1 20 silence later_ticks page (omega arith) (omega arith) (omega arith)
      ticks-AreTicks (omega arith) refl (omega arith) refl

abbrev worn : Publisher
worn = record { seq = λ id. 4294967295; timer = true; fp_timer = true; sent = [] }

tick_exhausted_example :
    tick (audio 20 silence) worn
    ≡ thrown
        (record { message = Errors.seq_out_of_range (num 4294967296); code = Errors.bad_payload })
tick_exhausted_example =
    tick_exhausted 4294967295 (audio 20 silence) worn (omega arith, λ id. refl)
      (record { timer = refl; fp_timer = refl; mic = refl; game = refl; music = refl }) refl

abbrev hex : Number → Text
hex n = text "63"

-- An audio frame, three bytes of noise, and another audio frame.
abbrev messages : List (List ℕ)
messages =
    (0x53 ∷ 0x4d ∷ 0x58 ∷ 0x31 ∷ 3 ∷ 2 ∷ 0 ∷ 0 ∷ 0 ∷ 0 ∷ 0 ∷ 1 ∷ 7 ∷ zeros 8)
    ∷ (1 ∷ 2 ∷ 3 ∷ [])
    ∷ (0x53 ∷ 0x4d ∷ 0x58 ∷ 0x31 ∷ 3 ∷ 1 ∷ 0 ∷ 0 ∷ 0 ∷ 0 ∷ 0 ∷ 1 ∷ 8 ∷ zeros 8)
    ∷ []

publish-on_messages_example :
    (p : Publisher) × (publish json 0 1 ticks ≡ ok p)
    × (count_of (on_messages json hex false p.sent []).0 (text "AudioOpus") ≡ 9)
    × ((on_messages json hex true p.sent []).1 ≡ track_line (listed (map info_of tracks)) ∷ [])
publish-on_messages_example =
    publish-on_messages json hex false (text "AudioOpus") 0 1 ticks (omega arith) (omega arith)
      (omega arith) ticks-AreTicks (omega arith) refl (omega arith)
