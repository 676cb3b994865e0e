-- ===== src/Examples/Sounding.antt =====
-- The lanes of the mixer with a decoder and a scheduler on concrete acts.
use streammix.Common.{◌≡◌, refl, true, List, [], ◌∷◌, ◌++◌, map, Option, none, some}
use streammix.Common.Assoc.{get, set, has, delete}
use streammix.Common.Number.{num}
use streammix.Common.Text.{Text, text, includes}
use streammix.Audio.Decoder.{new_lane, decode, decode_all}
use streammix.Audio.Decoder.Faults.{
  Input, packet, fails, closes, run_lane, run_lane-create_opus_decoder,
}
use streammix.Audio.Decoder.Opus.{
  CodecState, unconfigured, configured, closed, WebCodecs, OpusLane, create_opus_decoder,
  decode_packet, on_decoder_error,
}
use streammix.Audio.Scheduler
use streammix.Audio.Scheduler.{lists, enqueue, new_scheduler}
use streammix.Audio.Graph.{
  entry_node_for, build_graph, add_track, new_track, set_track_gain, set_broadcast_gain,
  set_offset_ms, remove_track,
}
use streammix.Content
use streammix.Content.{
  index_tracks, drop_missing, get_id, set_id, new_mixer, slugs, decode_in, open_lane,
}
use streammix.Content.Events
use streammix.Content.Events.{Event, track_list, audio, mute_toggle}
use streammix.Content.Sound
use streammix.Content.Sound.{
  Voice, Stage, new_stage, close_voice, silence, take_new, take_track, ensure_voice, open_voice,
  decode_voice, handle, on_audio, on_track_list,
}
use streammix.Content.Sound.Acts.{
  Act, event, output, ended, failure, act, act_all, on_output, on_failure, destroy_active,
}
use streammix.Content.Sound.Listed.{after, act_all-playing, playing-destroy_active}
use streammix.Content.Sound.Open.{time_of, on_audio-act_all}
use streammix.Content.Sound.Runs.{events_of}
use streammix.Content.Sound.Failed.{HasFailed, on_audio-on_failure}
use streammix.Store.{effective_setting, property}
use streammix.Examples.Mixing.{page}
use streammix.Examples.Playback.{clock}
use streammix.Examples.Sample.{sample_tracks, pad_track}

-- A decoder that is its state.
abbrev configure_state : CodecState → Option CodecState
configure_state closed = none
configure_state _ = some configured

abbrev decode_state : CodecState → Option CodecState
decode_state configured = some configured
decode_state _ = none

abbrev close_state : CodecState → Option CodecState
close_state closed = none
close_state _ = some closed

decode_state_configured :
    (d : CodecState)
    → d ≡ configured
    → (d' : CodecState) × (decode_state d ≡ some d') × (d' ≡ configured)
decode_state_configured d e = (configured, rw e refl, refl)

decode_state_closed : (d : CodecState) → d ≡ closed → decode_state d ≡ none
decode_state_closed d e = rw e refl

close_state_configured :
    (d : CodecState)
    → d ≡ configured
    → (d' : CodecState) × (close_state d ≡ some d') × (d' ≡ closed)
close_state_configured d e = (closed, rw e refl, refl)

close_state_closed : (d : CodecState) → d ≡ closed → close_state d ≡ none
close_state_closed d e = rw e refl

abbrev codecs : WebCodecs
codecs = record {
  Decoder = CodecState;
  new_decoder = unconfigured;
  state = λ d. d;
  configure = configure_state;
  decode_chunk = λ t d. decode_state d;
  close_decoder = close_state;
  fault = λ d. closed;
  configure-new_decoder = (configured, refl, refl);
  decode_chunk_configured = λ t d e. decode_state_configured d e;
  decode_chunk_closed = λ t d e. decode_state_closed d e;
  close_decoder_configured = close_state_configured;
  close_decoder_closed = close_state_closed;
  state-fault = λ d. refl;
}

abbrev inputs : List Input
inputs = packet 5 ∷ packet 6 ∷ fails ∷ packet 7 ∷ closes ∷ packet 8 ∷ []

run_lane-create_opus_decoder_example :
    (o : OpusLane codecs) × (create_opus_decoder codecs true ≡ some o)
    × (run_lane codecs inputs o ≡ map some (decode_all new_lane (5 ∷ 6 ∷ [])) ++ (none ∷ none ∷ []))
run_lane-create_opus_decoder_example = run_lane-create_opus_decoder codecs inputs

abbrev acts : List (Act clock codecs)
acts =
    event (track_list sample_tracks)
    ∷ event (audio (num 2) 7)
    ∷ output (text "drum-pad") 0
    ∷ event (mute_toggle (text "drum-pad"))
    ∷ output (text "drum-pad") 1
    ∷ ended (text "drum-pad") 0
    ∷ event (track_list (pad_track ∷ []))
    ∷ []

second_sounds : lists ((after clock codecs page acts).playing 1) 1 ≡ true
unfolding act_all act handle on_track_list index_tracks Content.Sound.drop_missing
    Content.Sound.drop_track close_voice silence take_new take_track ensure_voice open_voice
    create_opus_decoder Content.Sound.ensure_lane Content.ensure_lane open_lane Content.drop_track
    on_audio decode_voice decode_packet decode decode_in on_output Content.Sound.Acts.on_ended
    enqueue Scheduler.on_ended Scheduler.close get_id set_id Events.handle
    Content.Panel.on_mute_toggle new_mixer entry_node_for remove_track build_graph add_track
    new_track set_track_gain set_broadcast_gain set_offset_ms effective_setting property get set has
    delete
second_sounds = refl

act_all-playing_example :
    (slug : Text) × (v : Voice clock codecs) × (get slug (after clock codecs page acts).voices
      ≡ some v)
    × (v.number ≡ 1)
    × (lists v.scheduler.live_sources 1 ≡ true)
    × (includes (slugs (after clock codecs page acts).mixer.tracks) slug ≡ true)
    × (entry_node_for (after clock codecs page acts).mixer.graph slug ≡ some v.destination)
act_all-playing_example = act_all-playing clock codecs page acts 1 1 second_sounds

playing-destroy_active_example :
    (destroy_active clock codecs (after clock codecs page acts)).playing 1 ≡ []
playing-destroy_active_example = playing-destroy_active clock codecs page acts 1

on_audio-act_all_example :
    (on_audio clock codecs page
      (num 2)
      9
      (act_all clock codecs page acts (new_stage clock codecs page))).1
    ≡ time_of
        (Content.on_audio page
          (num 2)
          9
          (Events.handle_all page (events_of clock codecs acts) (new_mixer page))).1
on_audio-act_all_example =
    on_audio-act_all clock codecs page acts (num 2) 9 (tt, (tt, (tt, (tt, (tt, (tt, (tt, tt)))))))

abbrev tuned : Stage clock codecs
tuned = after clock codecs page (event (track_list sample_tracks) ∷ [])

abbrev pad_voice : Voice clock codecs
pad_voice = record {
  opus = record { lane = new_lane; decoder = configured };
  scheduler = new_scheduler clock;
  destination = 9;
  number = 1;
}

abbrev later : List (Act clock codecs)
later =
    event (audio (num 2) 7)
    ∷ event (mute_toggle (text "game"))
    ∷ event (track_list (pad_track ∷ []))
    ∷ event (audio (num 2) 8)
    ∷ []

pad_has_voice : get (text "drum-pad") tuned.voices ≡ some pad_voice
unfolding act_all act handle on_track_list index_tracks Content.Sound.drop_missing
    Content.Sound.drop_track close_voice silence take_new take_track ensure_voice open_voice
    create_opus_decoder Content.Sound.ensure_lane Content.ensure_lane open_lane Content.drop_track
    on_audio decode_voice decode_packet decode decode_in on_output Content.Sound.Acts.on_ended
    enqueue Scheduler.on_ended Scheduler.close get_id set_id Events.handle
    Content.Panel.on_mute_toggle new_mixer entry_node_for remove_track build_graph add_track
    new_track set_track_gain set_broadcast_gain set_offset_ms effective_setting property get set has
    delete
pad_has_voice = refl

pad_is_named :
    get_id
      (num 2)
      (act_all clock codecs page later
        (on_failure clock codecs (text "drum-pad") tuned)).mixer.id_to_slug
    ≡ some (text "drum-pad")
unfolding on_failure on_decoder_error act_all act handle on_track_list index_tracks
    Content.Sound.drop_missing Content.Sound.drop_track close_voice silence take_new take_track
    ensure_voice open_voice create_opus_decoder Content.Sound.ensure_lane Content.ensure_lane
    open_lane Content.drop_track on_audio decode_voice decode_packet decode decode_in on_output
    Content.Sound.Acts.on_ended enqueue Scheduler.on_ended Scheduler.close get_id set_id
    Events.handle Content.Panel.on_mute_toggle new_mixer entry_node_for remove_track build_graph
    add_track new_track set_track_gain set_broadcast_gain set_offset_ms effective_setting property
    get set has delete
pad_is_named = refl

on_audio-on_failure_example :
    HasFailed clock codecs
      (text "drum-pad")
      (act_all clock codecs page later (on_failure clock codecs (text "drum-pad") tuned)).voices
    × ((on_audio clock codecs page
          (num 2)
          9
          (act_all clock codecs page later (on_failure clock codecs (text "drum-pad") tuned))).1
        ≡ none)
on_audio-on_failure_example =
    on_audio-on_failure clock codecs (text "drum-pad") page pad_voice tuned later (num 2) 9
      pad_has_voice (tt, (tt, (refl, (tt, tt)))) pad_is_named
