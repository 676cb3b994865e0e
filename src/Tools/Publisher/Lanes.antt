-- ===== src/Tools/Publisher/Lanes.antt =====
-- The lanes of extension/src/content/index.ts while tools/mock-publisher/src/main.ts sends.
use streammix.Common.{ℕ, ◌^◌, ◌<◌, ◌≡◌, refl, ◌∙◌, List, ◌∷◌, ◌++◌, map, Option, none, some, arith}
use streammix.Common.Assoc.{get, set, get-set}
use streammix.Common.Number.{Number, num, to_uint}
use streammix.Common.Text.{Text, text}
use streammix.Audio.Decoder.{Lane, decode}
use streammix.Content
use streammix.Content.{
  Mixer, Page, AudioLane, new_mixer, get_id, set_id, apply_track_list, index_tracks, drop_missing,
  take_new, take_track, open_lane, ensure_lane, decode_in,
}
use streammix.Content.Feed.{feed, on_event}
use streammix.Relay.Dispatch.{RelayEvent, on_track_list}
use streammix.Tools.Publisher.{tracks, info_of, audio, fingerprint}
use streammix.Tools.Publisher.Delivery.{calls_of}

-- The slug has a lane whose decoder is in the state `d`.
abbrev pub HasLane : Text → Lane → Mixer → Type 0
HasLane slug d m =
    (entry : ℕ) × (get slug m.audio_lanes ≡ some (record { decoder = d; entry = entry }))

-- The three tracks are indexed, and each has a lane in the state `d`.
pub record IsTuned (d : Lane) (m : Mixer) : Type 0 where
  pub mic_id : get_id (num 1) m.id_to_slug ≡ some (text "mic")
  pub game_id : get_id (num 2) m.id_to_slug ≡ some (text "game")
  pub music_id : get_id (num 3) m.id_to_slug ≡ some (text "music")
  pub mic : HasLane (text "mic") d m
  pub game : HasLane (text "game") d m
  pub music : HasLane (text "music") d m

abbrev after : Text → ℕ → Lane → ℕ → Mixer → Mixer
after slug entry d seq m = record m {
  audio_lanes = set slug (record { decoder = (decode d seq).0; entry = entry }) m.audio_lanes;
}

module _ (page : Page) where
  ensure_lane_known :
      (slug : Text) (lane : AudioLane) (m : Mixer)
      → get slug m.audio_lanes ≡ some lane
      → ensure_lane page slug m ≡ m
  unfolding ensure_lane
  ensure_lane_known slug lane m e = rw (ensure_lane, e) refl

  decode_in_known :
      (slug : Text) (d : Lane) (entry seq : ℕ) (m : Mixer)
      → get slug m.audio_lanes ≡ some (record { decoder = d; entry = entry })
      → decode_in page slug seq m ≡ (after slug entry d seq m, some (slug, (decode d seq).1))
  unfolding decode_in
  decode_in_known slug d entry seq m e = rw (decode_in, e) refl

  on_audio-HasLane :
      (id : Number) (slug : Text) (d : Lane) (entry seq : ℕ) (m : Mixer)
      → get_id id m.id_to_slug ≡ some slug
      → get slug m.audio_lanes ≡ some (record { decoder = d; entry = entry })
      → Content.on_audio page id seq m ≡ (after slug entry d seq m, some (slug, (decode d seq).1))
  unfolding Content.on_audio
  on_audio-HasLane id slug d entry seq m known lane =
      rw (Content.on_audio, known, ensure_lane_known slug _ m lane)
        (decode_in_known slug d entry seq m lane)

  -- One tick of audio: a chunk for each track, all with the timestamp that the tick's number gives.
  pub feed-calls_of :
      (now seq : ℕ) (fill : ℕ → List ℕ) (rest : List (Option RelayEvent)) (d : Lane) (m : Mixer)
      → seq < 2 ^ 32
      → IsTuned d m
      → (m' : Mixer) × IsTuned (decode d seq).0 m'
        × ((feed page (calls_of (audio now fill) seq ++ rest) m).1
            ≡ (text "mic", (decode d seq).1)
              ∷ (text "game", (decode d seq).1)
              ∷ (text "music", (decode d seq).1)
              ∷ (feed page rest m').1)
  unfolding feed on_event
  feed-calls_of now seq fill rest d m a tuned =
      let same : to_uint 32 (num seq) ≡ seq = omega arith in
      let (e1, mic) = tuned.mic in
      let (e2, game) = tuned.game in
      let (e3, music) = tuned.music in
      let m1 = after (text "mic") e1 d seq m in
      let m2 = after (text "game") e2 d seq m1 in
      let m3 = after (text "music") e3 d seq m2 in
      let other = λ (k s : Text) (e : ℕ) (n : Mixer).
        get-set k s (record { decoder = (decode d seq).0; entry = e }) n.audio_lanes in
      (
        m3,
        record {
          mic_id = tuned.mic_id;
          game_id = tuned.game_id;
          music_id = tuned.music_id;
          mic = (
            e1,
            other (text "music") (text "mic") e3 m2
                ∙ other (text "game") (text "mic") e2 m1
                ∙ other (text "mic") (text "mic") e1 m,
          );
          game = (
            e2,
            other (text "music") (text "game") e3 m2 ∙ other (text "game") (text "game") e2 m1,
          );
          music = (e3, other (text "music") (text "music") e3 m2);
        },
        rw
            (
              same,
              on_audio-HasLane (num 1) (text "mic") d e1 seq m tuned.mic_id mic,
              on_audio-HasLane (num 2) (text "game") d e2 seq m1 tuned.game_id
                  (other (text "mic") (text "game") e1 m ∙ game),
              on_audio-HasLane (num 3) (text "music") d e3 seq m2 tuned.music_id (
                  other (text "game") (text "music") e2 m1
                  ∙ other (text "mic") (text "music") e1 m
                  ∙ music),
            )
            refl,
      )

  pub feed_list :
      (calls : List (Option RelayEvent)) (m : Mixer)
      → (feed page (none ∷ some (on_track_list (map info_of tracks)) ∷ calls) m).1
        ≡ (feed page calls (Content.on_track_list page (map info_of tracks) m)).1
  unfolding feed on_event
  feed_list calls m = refl

  pub feed-fingerprints :
      (now seq : ℕ) (draw : ℕ → ℕ × ℕ) (rest : List (Option RelayEvent)) (m : Mixer)
      → (feed page (calls_of (fingerprint now draw) seq ++ rest) m).1 ≡ (feed page rest m).1
  unfolding feed on_event
  feed-fingerprints now seq draw rest m = refl
