-- ===== src/Examples/Mixing.antt =====
-- The mixer of the content script on concrete events.
use streammix.Common.{false, ◌≡◌, refl, some, true, List, [], ◌∷◌}
use streammix.Common.Number.{num, nan}
use streammix.Common.Text.{text}
use streammix.Content.{Page, Mixer, new_mixer, on_track_list, on_audio}
use streammix.Content.Events.Playing.{on_audio-on_track_list}
use streammix.Common.Int.{ℤ}
use streammix.Content.Events.{
  Event, track_list, audio, change, mute_toggle, solo_toggle, broadcast_change, offset_change,
  reset, handle_all,
}
use streammix.Content.Events.Invariant.{IsMixing, handle_all-new_mixer}
use streammix.Common.Assoc.{get, set, has}
use streammix.Store.{ChannelSetting, effective_setting, property, load_streamer}
use streammix.Common.Text.{includes}
use streammix.Content.{slugs}
use streammix.Messages.TrackList.{TrackInfo}
use streammix.Content.Inherited.{on_track_list_inherited}
use streammix.Content.Staying.{Stays, on_track_list-Stays}
use streammix.Content.Saved.{effective_setting-on_save_streamer}
use streammix.Audio.Graph.{half}
use streammix.Content.Panel.{on_save_streamer}
use streammix.Content.{
  apply_track_list, index_tracks, drop_missing, take_new, take_track, ensure_lane, open_lane,
  is_muted, gain_of,
}
use streammix.Content.Events.{handle}
use streammix.Content.Panel.{on_change, on_mute_toggle}
use streammix.Content.Heard.{wanted}
use streammix.Content.Heard.Levels.{IsLevel}
use streammix.Content.Heard.LevelRuns.{handle_all_levels}
use streammix.Content.Heard.Runs.{handle_all_heard}
use streammix.Audio.Graph.Values.{user_value}
use streammix.Audio.Graph.{
  entry_node_for, build_graph, add_track, new_track, set_track_gain, set_broadcast_gain,
  set_offset_ms, clamp01,
}
use streammix.Examples.Sample.{game_track, sample_tracks-AreTracks, pad_track, sample_tracks}

abbrev pub page : Page
page = record {
  channel_id = text "twitch:someone";
  global_prefs = [];
  streamer_prefs = [];
  has_audio_decoder = true;
  thousandth = λ ms. num 0;
}

abbrev events : List Event
events =
    track_list sample_tracks
    ∷ audio (num 2) 7
    ∷ change (text "game") nan
    ∷ mute_toggle (text "game")
    ∷ solo_toggle (text "drum-pad")
    ∷ broadcast_change (num 3)
    ∷ offset_change (num 0)
    ∷ track_list (pad_track ∷ [])
    ∷ reset
    ∷ audio (num 1) 8
    ∷ []

handle_all-new_mixer_example : IsMixing (handle_all page events (new_mixer page))
handle_all-new_mixer_example = handle_all-new_mixer page events

abbrev earlier : Mixer
earlier = handle_all page (track_list (game_track ∷ []) ∷ audio (num 1) 0 ∷ []) (new_mixer page)

on_audio-on_track_list_example :
    (timestamp : ℤ) × ((on_audio page (num 2) 7 (on_track_list page sample_tracks earlier)).1
      ≡ some (text "drum-pad", timestamp))
on_audio-on_track_list_example =
    on_audio-on_track_list page (game_track ∷ []) [] pad_track 7 earlier refl
      sample_tracks-AreTracks
      (handle_all-new_mixer page (track_list (game_track ∷ []) ∷ audio (num 1) 0 ∷ []))

handle_all_levels_example :
    IsLevel page.thousandth
      (handle_all page events (new_mixer page)).graph
      (handle_all page events (new_mixer page)).broadcast_gain
      (handle_all page events (new_mixer page)).offset_ms
handle_all_levels_example = handle_all_levels page events

abbrev muting : List Event
muting =
    track_list sample_tracks ∷ change (text "game") (num 3) ∷ mute_toggle (text "drum-pad") ∷ []

-- The gain of 3 is heard as 1.
game_heard :
    (user_value (handle_all page muting (new_mixer page)).graph (text "game") ≡ some (num 1))
    × (user_value (handle_all page muting (new_mixer page)).graph (text "drum-pad") ≡ some (num 0))
unfolding handle_all handle new_mixer on_track_list apply_track_list index_tracks drop_missing
    take_new take_track ensure_lane open_lane entry_node_for build_graph add_track new_track
    set_track_gain set_broadcast_gain set_offset_ms clamp01 user_value on_change on_mute_toggle
    is_muted gain_of effective_setting property get set has
game_heard = (refl, refl)

handle_all_heard_example :
    num 1
    ≡ wanted
        (handle_all page muting (new_mixer page)).gains
        (handle_all page muting (new_mixer page)).muted
        (text "game")
handle_all_heard_example =
    handle_all_heard page muting (text "game") (num 1) (λ key s e. unfold get in cc)
      (λ key s e. unfold get in cc) (((refl, refl), ((refl, refl), tt)), (tt, (tt, tt)))
      game_heard.0

abbrev kept : ChannelSetting
kept = record { gain = some half; muted = some true; permanently_off = some false }

abbrev muted_page : Mixer
muted_page = handle_all page muting (new_mixer page)

kept_setting : get (text "drum-pad") muted_page.settings ≡ some kept
unfolding handle_all handle new_mixer on_track_list apply_track_list index_tracks drop_missing
    take_new take_track ensure_lane open_lane entry_node_for build_graph add_track new_track
    set_track_gain set_offset_ms set_broadcast_gain on_change on_mute_toggle is_muted
    effective_setting property get set has
kept_setting = refl

effective_setting-on_save_streamer_example :
    effective_setting
      (text "drum-pad")
      (text "custom")
      (load_streamer (on_save_streamer page muted_page (some [])) (text "twitch:someone"))
      []
    ≡ kept
effective_setting-on_save_streamer_example =
    effective_setting-on_save_streamer page muted_page [] pad_track [] kept kept_setting

pad_listed : includes (slugs muted_page.tracks) (text "drum-pad") ≡ true
unfolding handle_all handle new_mixer on_track_list apply_track_list index_tracks drop_missing
    take_new take_track ensure_lane open_lane entry_node_for build_graph add_track new_track
    set_track_gain set_offset_ms set_broadcast_gain on_change on_mute_toggle is_muted
    effective_setting property get set has
pad_listed = refl

-- The game's track goes, the pad's stays.
on_track_list-Stays_example :
    Stays (text "drum-pad") muted_page (on_track_list page (pad_track ∷ []) muted_page)
on_track_list-Stays_example =
    on_track_list-Stays page (pad_track ∷ []) (text "drum-pad") muted_page
      (handle_all-new_mixer page muting) pad_listed refl

abbrev constructor_track : TrackInfo
constructor_track = record {
  id = num 3;
  slug = text "constructor";
  category = text "game";
  label = text "Constructor";
}

constructor_absent : includes (slugs muted_page.tracks) (text "constructor") ≡ false
unfolding handle_all handle new_mixer on_track_list apply_track_list index_tracks drop_missing
    take_new take_track ensure_lane open_lane entry_node_for build_graph add_track new_track
    set_track_gain set_offset_ms set_broadcast_gain on_change on_mute_toggle is_muted
    effective_setting property get set has
constructor_absent = refl

on_track_list_inherited_example :
    (gain_of
        (on_track_list page (pad_track ∷ constructor_track ∷ []) muted_page).gains
        (text "constructor")
      ≡ half)
    × (is_muted
          (on_track_list page (pad_track ∷ constructor_track ∷ []) muted_page).muted
          (text "constructor")
        ≡ false)
    × (user_value
          (on_track_list page (pad_track ∷ constructor_track ∷ []) muted_page).graph
          (text "constructor")
        ≡ some (num 0))
on_track_list_inherited_example =
    on_track_list_inherited page (pad_track ∷ constructor_track ∷ []) (text "constructor")
      muted_page (handle_all-new_mixer page muting) refl (unfold get in refl) constructor_absent
      refl
