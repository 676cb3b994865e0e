-- ===== src/Tools/Publisher/Playback.antt =====
-- From tools/mock-publisher/src/main.ts to the decoders of extension/src/content/index.ts.
use streammix.Common.{
  ℕ, ◌+◌, ◌*◌, ◌^◌, ◌≤◌, ◌<◌, ◌≡◌, refl, subst, ap, ◌∙◌, true, List, [], ◌∷◌, map, none, some,
  length, arith, All,
}
use streammix.Common.Assoc.{get, set, has}
use streammix.Common.Int.{ℤ, pos}
use streammix.Common.Text.{Text, text}
use streammix.Audio.Decoder.{Lane, new_lane, decode, frame_duration_us}
use streammix.Content
use streammix.Audio.Graph.{
  entry_node_for, build_graph, add_track, new_track, set_track_gain, set_broadcast_gain,
  set_offset_ms,
}
use streammix.Content.{
  Mixer, Page, AudioLane, new_mixer, get_id, set_id, apply_track_list, index_tracks, drop_missing,
  take_new, take_track, open_lane, ensure_lane, decode_in,
}
use streammix.Content.Feed.{feed}
use streammix.Relay.Dispatch.{on_track_list}
use streammix.Tools.Publisher.Lanes.{IsTuned, feed-calls_of, feed_list, feed-fingerprints}
use streammix.Errors.{ok}
use streammix.Json.{JsonText, IsReadBack, object}
use streammix.Messages.{max_json_bytes}
use streammix.Messages.Hello.{hello_fields}
use streammix.Messages.TrackList.{track_list_fields}
use streammix.Tools.Publisher.Stream.{publish, publish-received}
use streammix.Tools.Publisher.{Publisher, hello, tracks, info_of, Tick, audio, fingerprint}
use streammix.Tools.Publisher.Delivery.{received, calls_from}
use streammix.Tools.Publisher.Sending.{IsTick}

-- The chunks that a viewer's decoders get: for the audio of each tick one for each track, at 20 ms for
-- every tick before, of either interval.
abbrev pub played : ℕ → List Tick → List (Text × ℤ)
played before [] = []
played before (audio now fill ∷ ts) =
    (text "mic", pos (before * frame_duration_us))
    ∷ (text "game", pos (before * frame_duration_us))
    ∷ (text "music", pos (before * frame_duration_us))
    ∷ played (before + 1) ts
played before (fingerprint now draw ∷ ts) = played (before + 1) ts

abbrev lane_at : ℕ → ℕ → Lane
lane_at first last = record { base_seq = some first; last_seq = some last }

decode_next :
    (first last before : ℕ)
    → last ≤ first + before
    → decode (lane_at first last) (first + before)
      ≡ (lane_at first (first + before), pos (before * frame_duration_us))
unfolding decode
decode_next first last before h = ground arith

module _ (page : Page) where
  feed-calls_from :
      (first last before : ℕ) (ts : List Tick) (m : Mixer)
      → last ≤ first + before
      → first + before + length ts ≤ 2 ^ 32
      → IsTuned (lane_at first last) m
      → (feed page (calls_from (first + before) ts) m).1 ≡ played before ts
  feed-calls_from first last before [] m h few tuned = unfold feed in refl
  feed-calls_from first last before (fingerprint now draw ∷ ts) m h few tuned =
      let next : first + before + 1 ≡ first + (before + 1) = omega arith in
      feed-fingerprints page now (first + before) draw (calls_from (first + before + 1) ts) m
      ∙ rw next (feed-calls_from first last (before + 1) ts m (omega arith) (omega arith) tuned)
  feed-calls_from first last before (audio now fill ∷ ts) m h few tuned =
      let next : first + before + 1 ≡ first + (before + 1) = omega arith in
      let d = lane_at first last in
      let step = decode_next first last before h in
      let (m', tuned', chunks) =
        feed-calls_of page now (first + before) fill (calls_from (first + (before + 1)) ts) d m
          (omega arith) tuned in
      let tuned_next : IsTuned (lane_at first (first + before)) m' =
        subst (λ x. IsTuned x m') (ap (λ x. x.0) step) tuned' in
      let rest : (feed page (calls_from (first + (before + 1)) ts) m').1 ≡ played (before + 1) ts =
        feed-calls_from first (first + before) (before + 1) ts m' (omega arith) (omega arith)
          tuned_next in
      rw next (chunks ∙ rw (step, rest) refl)

  -- The track list of the tool opens three lanes in a fresh mixer.
  new_mixer-IsTuned :
      page.has_audio_decoder ≡ true
      → IsTuned new_lane (Content.on_track_list page (map info_of tracks) (new_mixer page))
  unfolding new_mixer Content.on_track_list apply_track_list index_tracks drop_missing take_new
      take_track ensure_lane open_lane entry_node_for build_graph add_track new_track set_track_gain
      set_broadcast_gain set_offset_ms get set has set_id get_id
  new_mixer-IsTuned there = record {
    mic_id = rw there refl;
    game_id = rw there refl;
    music_id = rw there refl;
    mic = (7, rw there refl);
    game = (9, rw there refl);
    music = (11, rw there refl);
  }

  calls-played :
      (first : ℕ) (fill : ℕ → List ℕ) (ts : List Tick)
      → page.has_audio_decoder ≡ true
      → length ts + 1 < 2 ^ 32
      → (feed page
          (none ∷ some (on_track_list (map info_of tracks)) ∷ calls_from 1 (audio first fill ∷ ts))
          (new_mixer page)).1
        ≡ played 0 (audio first fill ∷ ts)
  unfolding decode
  calls-played first fill ts there few =
      let m0 = Content.on_track_list page (map info_of tracks) (new_mixer page) in
      let (m1, tuned, chunks) =
        feed-calls_of page first 1 fill (calls_from 2 ts) new_lane m0 (omega arith)
          (new_mixer-IsTuned there) in
      let rest : (feed page (calls_from 2 ts) m1).1 ≡ played 1 ts =
        feed-calls_from 1 1 1 ts m1 (omega arith) (omega (arith, few)) tuned in
      feed_list page (calls_from 1 (audio first fill ∷ ts)) (new_mixer page) ∙ chunks ∙ rw rest refl

-- From the publisher tool to the viewer's decoders: less than 2 ^ 32 ticks of its intervals, the first one
-- of audio, and the JSON texts as `publish-received` asks for. Then nothing is thrown; in a page with an
-- audio decoder, whatever its preferences, every audio frame of every tick goes to the decoder of its own
-- track's slug, in the order of sending and no other chunk with it; and its timestamp is 20 ms times the
-- number of ticks of either interval before, so that every fingerprint shifts the audio behind it by 20 ms.
pub publish-feed :
    (json : JsonText) (now later first : ℕ) (fill : ℕ → List ℕ) (ts : List Tick) (page : Page)
    → now < 2 ^ 64
    → later < 2 ^ 64
    → length ts + 1 < 2 ^ 32
    → All IsTick (audio first fill ∷ ts)
    → length (json.stringify (object (hello_fields hello))) ≤ max_json_bytes
    → IsReadBack json (object (track_list_fields (map info_of tracks)))
    → length (json.stringify (object (track_list_fields (map info_of tracks)))) ≤ max_json_bytes
    → page.has_audio_decoder ≡ true
    → (p : Publisher) × (publish json now later (audio first fill ∷ ts) ≡ ok p)
      × ((feed page (received json p) (new_mixer page)).1 ≡ played 0 (audio first fill ∷ ts))
publish-feed json now later first fill ts page a b few ticks fits back fits' there =
    let (p, run, heard) =
      publish-received json now later (audio first fill ∷ ts) a b (omega (arith, few)) ticks fits
        back fits' in
    (
      p,
      run,
      ap (λ calls. (feed page calls (new_mixer page)).1) heard
          ∙ calls-played page first fill ts there few,
    )
