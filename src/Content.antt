-- ===== src/Content.antt =====
-- extension/src/content/index.ts: the mixer that `mount` closes over, and what the relay's events and the
-- panel's callbacks do to it. Each event runs to its end before the next. The panel shows copies of the
-- mixer's values, set by `mixer.$set` at the end of each event, and is left out. The browser's decoders
-- take every chunk here; Sound has those that fail, and the schedulers.
pub mod Panel
pub mod Events
pub mod Mounting
pub mod Heard
pub mod Feed
pub mod Saved
pub mod Sound
pub mod Staying
pub mod Inherited
use streammix.Common.{
  ℕ, ◌*◌, ◌^◌, Bool, false, not, List, [], ◌∷◌, Option, none, some, if◌then◌else◌,
}
use streammix.Common.Assoc.{get, set, has, delete}
use streammix.Common.Int.{ℤ, pos}
use streammix.Common.Number.{Number, num, nan, finite, num_eq}
use streammix.Common.Text.{Text, text_eq, includes}
use streammix.Audio.Decoder.{Lane, new_lane, decode}
use streammix.Audio.Graph.{
  Graph, half, build_graph, add_track, remove_track, entry_node_for, set_track_gain,
  set_broadcast_gain, set_offset_ms, destroy,
}
use streammix.Messages.TrackList.{TrackInfo}
use streammix.Store.{ChannelSetting, Prefs, object_prototype, effective_setting}

-- `AudioLane`: what the decoder keeps, and the node that the scheduler plays into. A lane that is closed
-- is dropped with all that it holds.
pub record AudioLane : Type 0 where
  pub decoder : Lane
  pub entry : ℕ

-- The variables of `mount`. A value of `gains` or `muted` is `none` where it is `undefined`.
pub record Mixer : Type 0 where
  pub graph : Graph
  pub tracks : List TrackInfo
  pub gains : List (Text × Option Number)
  pub muted : List (Text × Option Bool)
  pub settings : List (Text × ChannelSetting)
  pub audio_lanes : List (Text × AudioLane)
  pub broadcast_gain : Number
  pub offset_ms : Number
  pub id_to_slug : List (Number × Text)

-- The double 0.2.
abbrev pub one_fifth : Number
one_fifth = finite (pos 0) (7205759403792794 * 2 ^ 1019)

-- `x ? 0 : …` of a value that may be `undefined`.
abbrev pub truthy : Option Bool → Bool
truthy none = false
truthy (some b) = b

-- A number handed on where the value may be `undefined`: `Number.isFinite` takes neither it nor NaN.
abbrev pub number_or_nan : Option Number → Number
number_or_nan none = nan
number_or_nan (some v) = v

-- `o[slug]` as a truth value. Where `o` has no such key, what every object inherits is truthy.
unfoldable pub is_muted : List (Text × Option Bool) → Text → Bool
is_muted muted slug = elim (get slug muted) [
  | some b ↦ truthy b
  | none ↦ includes object_prototype slug
]

-- `gains[slug] ?? 0.5`, where what every object inherits is no finite number.
unfoldable pub gain_of : List (Text × Option Number) → Text → Number
gain_of gains slug = elim (get slug gains) [
  | some (some v) ↦ v
  | some none ↦ half
  | none ↦ if includes object_prototype slug then nan else half
]

abbrev pub audible : ChannelSetting → Number
audible eff = if truthy eff.muted then num 0 else number_or_nan eff.gain

abbrev pub slugs : List TrackInfo → List Text
slugs [] = []
slugs (t ∷ ts) = t.slug ∷ slugs ts

-- `idToSlug.set(id, slug)` and `idToSlug.get(id)`
unfoldable pub set_id : Number → Text → List (Number × Text) → List (Number × Text)
set_id id slug [] = (id, slug) ∷ []
set_id id slug ((i, s) ∷ m) =
    let rest = (i, s) ∷ set_id id slug m in if num_eq i id then (i, slug) ∷ m else rest

unfoldable pub get_id : Number → List (Number × Text) → Option Text
get_id id [] = none
get_id id ((i, s) ∷ m) = if num_eq i id then some s else get_id id m

abbrev pub index_from : List (Number × Text) → List TrackInfo → List (Number × Text)
index_from m [] = m
index_from m (t ∷ ts) = index_from (set_id t.id t.slug m) ts

unfoldable pub index_tracks : List TrackInfo → Mixer → Mixer
index_tracks incoming m = record m { id_to_slug = index_from [] incoming }

-- The body of the first loop of `applyTrackList`, and the loop.
unfoldable pub drop_track : Text → Mixer → Mixer
drop_track slug m = record m {
  audio_lanes = delete slug m.audio_lanes;
  graph = remove_track slug m.graph;
  gains = delete slug m.gains;
  muted = delete slug m.muted;
  settings = delete slug m.settings;
}

unfoldable pub drop_missing : List Text → List TrackInfo → Mixer → Mixer
drop_missing incoming [] m = m
drop_missing incoming (t ∷ ts) m =
    drop_missing incoming ts (if includes incoming t.slug then m else drop_track t.slug m)

-- What `mount` has loaded, whether the browser has an `AudioDecoder`, and the quotient by 1000.
pub record Page : Type 0 where
  pub channel_id : Text
  pub global_prefs : Prefs
  pub streamer_prefs : Prefs
  pub has_audio_decoder : Bool
  pub thousandth : Number → Number

module _ (page : Page) where
  -- The mixer before the first event.
  unfoldable pub new_mixer : Mixer
  new_mixer = record {
    graph = set_offset_ms page.thousandth (num 0) (set_broadcast_gain one_fifth build_graph);
    tracks = [];
    gains = [];
    muted = [];
    settings = [];
    audio_lanes = [];
    broadcast_gain = one_fifth;
    offset_ms = num 0;
    id_to_slug = [];
  }

  -- `ensureLane` where the slug has no lane.
  unfoldable pub open_lane : Text → Mixer → Mixer
  open_lane slug m = elim (entry_node_for m.graph slug) [
    | none ↦ m
    | some entry ↦
        if page.has_audio_decoder
        then record m {
          audio_lanes = set slug (record { decoder = new_lane; entry = entry }) m.audio_lanes;
        }
        else m
  ]

  unfoldable pub ensure_lane : Text → Mixer → Mixer
  ensure_lane slug m = elim (get slug m.audio_lanes) [ some lane ↦ m | none ↦ open_lane slug m ]

  -- The body of the second loop of `applyTrackList`, up to `ensureLane`.
  abbrev pub provision : TrackInfo → Mixer → Mixer
  provision t m =
      let eff = effective_setting t.slug t.category page.streamer_prefs page.global_prefs in
      record m {
        settings = set t.slug eff m.settings;
        gains = set t.slug eff.gain m.gains;
        muted = set t.slug eff.muted m.muted;
        graph = set_track_gain t.slug (audible eff) (add_track t.slug m.graph).0;
      }

  -- That body, and the loop.
  unfoldable pub take_track : TrackInfo → Mixer → Mixer
  take_track t m = ensure_lane t.slug (provision t m)

  unfoldable pub take_new : List TrackInfo → Mixer → Mixer
  take_new [] m = m
  take_new (t ∷ ts) m = take_new ts (if has t.slug m.settings then m else take_track t m)

  unfoldable pub apply_track_list : List TrackInfo → Mixer → Mixer
  apply_track_list incoming m =
      record (take_new incoming (drop_missing (slugs incoming) m.tracks m)) { tracks = incoming }

  -- `onTrackList`
  unfoldable pub on_track_list : List TrackInfo → Mixer → Mixer
  on_track_list incoming m = apply_track_list incoming (index_tracks incoming m)

  -- `lane.decoder.decode(frame.payload, frame.seq)`: the lane's new state, and the slug and timestamp of
  -- the chunk that goes to the decoder.
  unfoldable pub decode_in : Text → ℕ → Mixer → Mixer × Option (Text × ℤ)
  decode_in slug seq m = elim (get slug m.audio_lanes) [
    | none ↦ (m, none)
    | some lane ↦
        let (decoder, timestamp) = decode lane.decoder seq in
        (
          record m { audio_lanes = set slug (record lane { decoder = decoder }) m.audio_lanes },
          some (slug, timestamp),
        )
  ]

  -- `onAudio` of a frame that `decodeFrame` returned with the sequence number `seq`. No slug of a track
  -- list is empty, so `!slug` is a missing entry.
  unfoldable pub on_audio : Number → ℕ → Mixer → Mixer × Option (Text × ℤ)
  on_audio track_id seq m = elim (get_id track_id m.id_to_slug) [
    | none ↦ (m, none)
    | some slug ↦ decode_in slug seq (ensure_lane slug m)
  ]

-- `destroy()` of the active state, behind `relay.close()`: all lanes are closed.
unfoldable pub destroy_active : Mixer → Mixer
destroy_active m = record m { audio_lanes = []; graph = destroy m.graph }
