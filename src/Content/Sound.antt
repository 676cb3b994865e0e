-- ===== src/Content/Sound.antt =====
-- extension/src/content/index.ts: the lanes of the mixer with their decoders and schedulers, and the sources
-- that sound. A scheduler is the number of its creation, and a source one of its numbers. Content has the
-- mixer itself; here every event also does what it does to the decoders and the schedulers.
pub mod Acts
pub mod Owned
pub mod Lanes
pub mod Runs
pub mod Listed
pub mod Carried
pub mod Failed
pub mod Open
use streammix.Common.{ℕ, ◌+◌, List, [], ◌∷◌, Option, none, some, ◌==◌, if◌then◌else◌}
use streammix.Common.Assoc.{get, set, has, delete}
use streammix.Common.Int.{ℤ}
use streammix.Common.Number.{Number}
use streammix.Common.Text.{Text, includes}
use streammix.Audio.Decoder.Opus.{WebCodecs, OpusLane, create_opus_decoder, decode_packet}
use streammix.Audio.Graph.{entry_node_for}
use streammix.Audio.Scheduler
use streammix.Audio.Scheduler.{AudioClock, Scheduler, new_scheduler, remove}
use streammix.Messages.TrackList.{TrackInfo}
use streammix.Content
use streammix.Content.{Mixer, Page, slugs, new_mixer, index_tracks, provision, get_id, decode_in}
use streammix.Content.Events
use streammix.Content.Events.{Event}

-- The sources of each scheduler that sound.
abbrev pub Playing : Type 0
Playing = ℕ → List ℕ

abbrev pub put : ℕ → List ℕ → Playing → Playing
put n ids playing = λ k. if n == k then ids else playing k

-- `s.stop()` for each of the sources.
abbrev pub stop_all : List ℕ → List ℕ → List ℕ
stop_all [] playing = playing
stop_all (id ∷ ids) playing = stop_all ids (remove id playing)

module _ (clock : AudioClock) (codecs : WebCodecs) where
  -- `AudioLane`: the scheduler's `destination`, and its number.
  pub record Voice : Type 0 where
    pub opus : OpusLane codecs
    pub scheduler : Scheduler clock
    pub destination : ℕ
    pub number : ℕ

  pub record Stage : Type 0 where
    pub mixer : Mixer
    pub voices : List (Text × Voice)
    pub created : ℕ
    pub playing : Playing

  abbrev pub live : Voice → List ℕ
  live v = v.scheduler.live_sources

  -- `lane.scheduler.close()`. The decoder, closed with it, calls back no more.
  unfoldable pub silence : Voice → Playing → Playing
  silence v playing =
      put v.number (stop_all (Scheduler.close clock v.scheduler).1 (playing v.number)) playing

  -- `lane?.decoder.close()`, `lane?.scheduler.close()` and `audioLanes.delete(slug)`.
  unfoldable pub close_voice : Text → Stage → Stage
  close_voice slug s = elim (get slug s.voices) [
    | none ↦ s
    | some v ↦ record s { voices = delete slug s.voices; playing = silence v s.playing }
  ]

  -- The body of the first loop of `applyTrackList`, and the loop.
  unfoldable pub drop_track : Text → Stage → Stage
  drop_track slug s = record (close_voice slug s) { mixer = Content.drop_track slug s.mixer }

  unfoldable pub drop_missing : List Text → List TrackInfo → Stage → Stage
  drop_missing incoming [] s = s
  drop_missing incoming (t ∷ ts) s =
      drop_missing incoming ts (if includes incoming t.slug then s else drop_track t.slug s)

  module _ (page : Page) where
    abbrev pub new_stage : Stage
    new_stage = record { mixer = new_mixer page; voices = []; created = 0; playing = λ n. [] }

    abbrev pub voice_of : ℕ → ℕ → OpusLane codecs → Voice
    voice_of entry number o = record {
      opus = o;
      scheduler = new_scheduler clock;
      destination = entry;
      number = number;
    }

    -- `ensureLane` where the slug has no lane: a scheduler and a decoder for its entry node. Where there
    -- is no decoder, the scheduler is dropped again.
    unfoldable pub open_voice : Text → Stage → Stage
    open_voice slug s = elim (entry_node_for s.mixer.graph slug) [
      | none ↦ s
      | some entry ↦ elim (create_opus_decoder codecs page.has_audio_decoder) [
        | none ↦ s
        | some o ↦ record s {
          voices = set slug (voice_of entry s.created o) s.voices;
          created = s.created + 1;
        }
      ]
    ]

    unfoldable pub ensure_voice : Text → Stage → Stage
    ensure_voice slug s = elim (get slug s.voices) [ some v ↦ s | none ↦ open_voice slug s ]

    unfoldable pub ensure_lane : Text → Stage → Stage
    ensure_lane slug s = record (ensure_voice slug s) {
      mixer = Content.ensure_lane page slug s.mixer;
    }

    -- The body of the second loop of `applyTrackList`, and the loop.
    unfoldable pub take_track : TrackInfo → Stage → Stage
    take_track t s = ensure_lane t.slug (record s { mixer = provision page t s.mixer })

    unfoldable pub take_new : List TrackInfo → Stage → Stage
    take_new [] s = s
    take_new (t ∷ ts) s = take_new ts (if has t.slug s.mixer.settings then s else take_track t s)

    abbrev pub with_tracks : List TrackInfo → Stage → Stage
    with_tracks incoming s = record s { mixer = record s.mixer { tracks = incoming } }

    -- `onTrackList`
    unfoldable pub on_track_list : List TrackInfo → Stage → Stage
    on_track_list incoming s =
        let indexed = record s { mixer = index_tracks incoming s.mixer } in
        with_tracks incoming
          (take_new incoming (drop_missing (slugs incoming) s.mixer.tracks indexed))

    -- `lane.decoder.decode(frame.payload, frame.seq)`: the timestamp of the chunk, or `none` where it throws.
    unfoldable pub decode_voice : Text → ℕ → Stage → Stage × Option ℤ
    decode_voice slug seq s = elim (get slug s.voices) [
      | none ↦ (s, none)
      | some v ↦
          let (o, result) = decode_packet codecs seq v.opus in
          (
            record s {
              voices = set slug (record v { opus = o }) s.voices;
              mixer = (decode_in page slug seq s.mixer).0;
            },
            result,
          )
    ]

    -- `onAudio`
    unfoldable pub on_audio : Number → ℕ → Stage → Stage × Option ℤ
    on_audio track_id seq s = elim (get_id track_id s.mixer.id_to_slug) [
      | none ↦ (s, none)
      | some slug ↦ decode_voice slug seq (ensure_lane slug s)
    ]

    -- The relay's and the panel's events. The panel's leave the lanes alone.
    unfoldable pub handle : Event → Stage → Stage
    handle (Event.track_list incoming) s = on_track_list incoming s
    handle (Event.audio track_id seq) s = (on_audio track_id seq s).0
    handle (Event.change slug v) s = record s {
      mixer = Events.handle page (Event.change slug v) s.mixer;
    }
    handle (Event.mute_toggle slug) s = record s {
      mixer = Events.handle page (Event.mute_toggle slug) s.mixer;
    }
    handle (Event.solo_toggle slug) s = record s {
      mixer = Events.handle page (Event.solo_toggle slug) s.mixer;
    }
    handle (Event.broadcast_change v) s = record s {
      mixer = Events.handle page (Event.broadcast_change v) s.mixer;
    }
    handle (Event.offset_change ms) s = record s {
      mixer = Events.handle page (Event.offset_change ms) s.mixer;
    }
    handle Event.reset s = record s { mixer = Events.handle page Event.reset s.mixer }
