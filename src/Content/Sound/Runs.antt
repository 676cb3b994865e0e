-- ===== src/Content/Sound/Runs.antt =====
-- Runs of the mixer of extension/src/content/index.ts with its decoders, schedulers and sources.
use streammix.Common.{
  ℕ, ◌≡◌, refl, ap, ◌∙◌, sym, Bool, List, [], ◌∷◌, Option, some, arith, Option-cases, Bool-cases,
  inl, inr, if◌then◌else◌, ◌==◌,
}
use streammix.Common.Assoc.{get, set, has, map_values-set, set-eq_self}
use streammix.Common.Number.{Number}
use streammix.Common.Text.{Text, includes}
use streammix.Audio.Decoder.Opus.{WebCodecs, on_decoder_error}
use streammix.Audio.Scheduler
use streammix.Audio.Scheduler.{AudioClock, enqueue, remove, lists}
use streammix.Messages.TrackList.{TrackInfo}
use streammix.Content
use streammix.Content.{Mixer, Page, slugs, new_mixer, index_tracks, provision, get_id}
use streammix.Content.Events
use streammix.Content.Events.{Event}
use streammix.Content.Panel.{
  on_change, on_mute_toggle, solo_tracks, on_solo_toggle, on_broadcast_change, on_offset_change,
  reset_tracks, on_reset,
}
use streammix.Content.Sound.{
  Voice, Stage, new_stage, drop_track, drop_missing, ensure_lane, take_track, take_new,
  on_track_list, decode_voice, on_audio, handle, Playing,
}
use streammix.Content.Sound.Acts.{
  Act, event, output, ended, failure, on_output, on_ended, on_failure, act, act_all,
}
use streammix.Content.Sound.Lanes.{
  erase, IsStaged, Becomes, drop_track-Becomes, ensure_lane-Becomes, decode_voice-Becomes,
  get-audio_lanes_known,
}
use streammix.Content.Sound.Owned.{IsOwned-set}

solo_tracks_lanes :
    (slug : Text) (ts : List TrackInfo) (muted : List (Text × Option Bool)) (m : Mixer)
    → (solo_tracks slug ts muted m).audio_lanes ≡ m.audio_lanes
unfolding solo_tracks
solo_tracks_lanes slug [] muted m = refl
solo_tracks_lanes slug (t ∷ ts) muted m = solo_tracks_lanes slug ts _ _

reset_tracks_lanes :
    (page : Page) (ts : List TrackInfo) (gains : List (Text × Option Number))
    (muted : List (Text × Option Bool)) (m : Mixer)
    → (reset_tracks page ts gains muted m).audio_lanes ≡ m.audio_lanes
unfolding reset_tracks
reset_tracks_lanes page [] gains muted m = refl
reset_tracks_lanes page (t ∷ ts) gains muted m = reset_tracks_lanes page ts _ _ _

module _ (clock : AudioClock) (codecs : WebCodecs) where
  -- The relay's and the panel's events among the acts.
  abbrev pub events_of : List (Act clock codecs) → List Event
  events_of [] = []
  events_of (event e ∷ acts) = e ∷ events_of acts
  events_of (output slug now ∷ acts) = events_of acts
  events_of (ended slug id ∷ acts) = events_of acts
  events_of (failure slug ∷ acts) = events_of acts

  Becomes-map :
      (f : Stage clock codecs → Stage clock codecs) (g : Mixer → Mixer) (s : Stage clock codecs)
      (m : Mixer)
      → ((t : Stage clock codecs)
          → IsStaged clock codecs t
          → Becomes clock codecs (f t) (g t.mixer))
      → Becomes clock codecs s m
      → Becomes clock codecs (f s) (g m)
  Becomes-map f g s m step (same, st) = let (after, st') = step s st in (after ∙ ap g same, st')

  drop_missing-Becomes :
      (incoming : List Text) (ts : List TrackInfo) (s : Stage clock codecs)
      → IsStaged clock codecs s
      → Becomes clock codecs
          (drop_missing clock codecs incoming ts s)
          (Content.drop_missing incoming ts s.mixer)
  unfolding drop_missing Content.drop_missing
  drop_missing-Becomes incoming [] s st = (refl, st)
  drop_missing-Becomes incoming (t ∷ ts) s st = elim (Bool-cases (includes incoming t.slug)) [
    | inl stays ↦
        rw (stays, drop_missing, Content.drop_missing) (drop_missing-Becomes incoming ts s st)
    | inr goes ↦
        rw (goes, drop_missing, Content.drop_missing)
          (Becomes-map (drop_missing clock codecs incoming ts) (Content.drop_missing incoming ts)
            (drop_track clock codecs t.slug s) (Content.drop_track t.slug s.mixer)
            (drop_missing-Becomes incoming ts) (drop_track-Becomes clock codecs t.slug s st))
  ]

  module _ (slug : Text) (s : Stage clock codecs) (st : IsStaged clock codecs s) where
    -- The lane of the slug goes on, with other live sources.
    update-Becomes :
        (v v' : Voice clock codecs) (playing' : Playing)
        → get slug s.voices ≡ some v
        → v'.number ≡ v.number
        → erase clock codecs v' ≡ erase clock codecs v
        → ((n : ℕ)
            → playing' n ≡ (if v'.number == n then v'.scheduler.live_sources else s.playing n))
        → Becomes clock codecs
            (record s { voices = set slug v' s.voices; playing = playing' })
            s.mixer
    update-Becomes v v' playing' known number same now = (
      refl,
      record {
        agrees =
            map_values-set (erase clock codecs) slug v' s.voices
            ∙ rw (same, st.agrees)
                (set-eq_self slug (erase clock codecs v) s.mixer.audio_lanes
                  (get-audio_lanes_known clock codecs slug s st v known));
        sound =
            IsOwned-set clock codecs s.voices s.created s.playing st.sound slug v' v playing' known
              number now;
      },
    )

    on_output-Becomes :
        (now : clock.Time) → Becomes clock codecs (on_output clock codecs slug now s) s.mixer
    unfolding on_output enqueue
    on_output-Becomes now = elim (Option-cases (get slug s.voices)) [
      | inl unknown ↦ rw (unknown, on_output) (refl, st)
      | inr (v, known) ↦
          rw (known, on_output)
            (update-Becomes v (record v { scheduler = (enqueue clock now v.scheduler).0 }) _ known
              refl refl (λ n. rw (st.sound.owned slug v known) refl))
    ]

    on_ended-Becomes : (id : ℕ) → Becomes clock codecs (on_ended clock codecs slug id s) s.mixer
    unfolding on_ended Scheduler.on_ended
    on_ended-Becomes id = elim (Option-cases (get slug s.voices)) [
      | inl unknown ↦ rw (unknown, on_ended) (refl, st)
      | inr (v, known) ↦
          rw (known, on_ended)
            (update-Becomes v (record v { scheduler = Scheduler.on_ended clock id v.scheduler }) _
              known refl refl (λ n. rw (st.sound.owned slug v known) refl))
    ]

    on_failure-Becomes : Becomes clock codecs (on_failure clock codecs slug s) s.mixer
    unfolding on_failure on_decoder_error
    on_failure-Becomes = elim (Option-cases (get slug s.voices)) [
      | inl unknown ↦ rw (unknown, on_failure) (refl, st)
      | inr (v, known) ↦
          rw (known, on_failure)
            (update-Becomes v (record v { opus = on_decoder_error codecs v.opus }) s.playing known
              refl refl (λ n. ground (arith, st.sound.owned slug v known)))
    ]

  -- A change of the mixer that leaves its lanes alone.
  panel-Becomes :
      (m : Mixer) (s : Stage clock codecs)
      → m.audio_lanes ≡ s.mixer.audio_lanes
      → IsStaged clock codecs s
      → Becomes clock codecs (record s { mixer = m }) m
  panel-Becomes m s same st = (refl, record { agrees = st.agrees ∙ sym same; sound = st.sound })

  module _ (page : Page) where
    take_track-Becomes :
        (t : TrackInfo) (s : Stage clock codecs)
        → IsStaged clock codecs s
        → Becomes clock codecs
            (take_track clock codecs page t s)
            (Content.take_track page t s.mixer)
    unfolding take_track Content.take_track
    take_track-Becomes t s st =
        ensure_lane-Becomes clock codecs t.slug (record s { mixer = provision page t s.mixer })
          (record { agrees = st.agrees; sound = st.sound }) page

    take_new-Becomes :
        (ts : List TrackInfo) (s : Stage clock codecs)
        → IsStaged clock codecs s
        → Becomes clock codecs (take_new clock codecs page ts s) (Content.take_new page ts s.mixer)
    unfolding take_new Content.take_new
    take_new-Becomes [] s st = (refl, st)
    take_new-Becomes (t ∷ ts) s st = elim (Bool-cases (has t.slug s.mixer.settings)) [
      | inl known ↦ rw (known, take_new, Content.take_new) (take_new-Becomes ts s st)
      | inr new ↦
          rw (new, take_new, Content.take_new)
            (Becomes-map (take_new clock codecs page ts) (Content.take_new page ts)
              (take_track clock codecs page t s) (Content.take_track page t s.mixer)
              (take_new-Becomes ts) (take_track-Becomes t s st))
    ]

    on_track_list-Becomes :
        (incoming : List TrackInfo) (s : Stage clock codecs)
        → IsStaged clock codecs s
        → Becomes clock codecs
            (on_track_list clock codecs page incoming s)
            (Content.on_track_list page incoming s.mixer)
    unfolding on_track_list Content.on_track_list Content.apply_track_list index_tracks
    on_track_list-Becomes incoming s st =
        let indexed = record s { mixer = index_tracks incoming s.mixer } in
        let (same, st') =
          Becomes-map (take_new clock codecs page incoming) (Content.take_new page incoming)
            (drop_missing clock codecs (slugs incoming) s.mixer.tracks indexed)
            (Content.drop_missing (slugs incoming) s.mixer.tracks indexed.mixer)
            (take_new-Becomes incoming)
            (drop_missing-Becomes (slugs incoming) s.mixer.tracks indexed
              (record { agrees = st.agrees; sound = st.sound })) in
        (
          ap (λ (m : Mixer). record m { tracks = incoming }) same,
          record { agrees = st'.agrees; sound = st'.sound },
        )

    on_audio-Becomes :
        (track_id : Number) (seq : ℕ) (s : Stage clock codecs)
        → IsStaged clock codecs s
        → Becomes clock codecs
            (on_audio clock codecs page track_id seq s).0
            (Content.on_audio page track_id seq s.mixer).0
    unfolding on_audio Content.on_audio
    on_audio-Becomes track_id seq s st = elim (Option-cases (get_id track_id s.mixer.id_to_slug)) [
      | inl unknown ↦ rw (unknown, on_audio, Content.on_audio) (refl, st)
      | inr (slug, known) ↦
          rw (known, on_audio, Content.on_audio)
            (Becomes-map (λ t. (decode_voice clock codecs page slug seq t).0)
              (λ m. (Content.decode_in page slug seq m).0) (ensure_lane clock codecs page slug s)
              (Content.ensure_lane page slug s.mixer)
              (λ t st'. decode_voice-Becomes clock codecs slug t st' page seq)
              (ensure_lane-Becomes clock codecs slug s st page))
    ]

    handle-Becomes :
        (e : Event) (s : Stage clock codecs)
        → IsStaged clock codecs s
        → Becomes clock codecs (handle clock codecs page e s) (Events.handle page e s.mixer)
    unfolding handle Events.handle on_change on_mute_toggle on_solo_toggle on_broadcast_change
        on_offset_change on_reset
    handle-Becomes (Event.track_list incoming) s st = on_track_list-Becomes incoming s st
    handle-Becomes (Event.audio track_id seq) s st = on_audio-Becomes track_id seq s st
    handle-Becomes (Event.change slug v) s st = panel-Becomes _ s refl st
    handle-Becomes (Event.mute_toggle slug) s st = panel-Becomes _ s refl st
    handle-Becomes (Event.solo_toggle slug) s st =
        panel-Becomes _ s (solo_tracks_lanes slug s.mixer.tracks [] s.mixer) st
    handle-Becomes (Event.broadcast_change v) s st = panel-Becomes _ s refl st
    handle-Becomes (Event.offset_change ms) s st = panel-Becomes _ s refl st
    handle-Becomes Event.reset s st =
        panel-Becomes _ s (reset_tracks_lanes page s.mixer.tracks [] [] s.mixer) st

    -- The mixer after an act.
    abbrev mixer_after : Act clock codecs → Mixer → Mixer
    mixer_after (event e) m = Events.handle page e m
    mixer_after (output slug now) m = m
    mixer_after (ended slug id) m = m
    mixer_after (failure slug) m = m

    act-Becomes :
        (a : Act clock codecs) (s : Stage clock codecs)
        → IsStaged clock codecs s
        → Becomes clock codecs (act clock codecs page a s) (mixer_after a s.mixer)
    unfolding act
    act-Becomes (event e) s st = handle-Becomes e s st
    act-Becomes (output slug now) s st = on_output-Becomes slug s st now
    act-Becomes (ended slug id) s st = on_ended-Becomes slug s st id
    act-Becomes (failure slug) s st = on_failure-Becomes slug s st

    pub act_all-Becomes :
        (acts : List (Act clock codecs)) (s : Stage clock codecs)
        → IsStaged clock codecs s
        → Becomes clock codecs
            (act_all clock codecs page acts s)
            (Events.handle_all page (events_of acts) s.mixer)
    unfolding act_all Events.handle_all
    act_all-Becomes [] s st = (refl, st)
    act_all-Becomes (a ∷ acts) s st =
        let (same, st') = act-Becomes a s st in
        let (after, st'') = act_all-Becomes acts (act clock codecs page a s) st' in
        (after ∙ run_from a acts s.mixer (act clock codecs page a s).mixer same, st'')
      where
        run_from :
            (a : Act clock codecs) (acts : List (Act clock codecs)) (m m' : Mixer)
            → m' ≡ mixer_after a m
            → Events.handle_all page (events_of acts) m'
              ≡ Events.handle_all page (events_of (a ∷ acts)) m
        run_from (event e) acts m m' same = ap (Events.handle_all page (events_of acts)) same
        run_from (output slug now) acts m m' same =
            ap (Events.handle_all page (events_of acts)) same
        run_from (ended slug id) acts m m' same = ap (Events.handle_all page (events_of acts)) same
        run_from (failure slug) acts m m' same = ap (Events.handle_all page (events_of acts)) same

    pub new_stage-IsStaged : IsStaged clock codecs (new_stage clock codecs page)
    unfolding new_mixer get
    new_stage-IsStaged = record {
      agrees = refl;
      sound = record {
        unique = tt;
        owned = λ slug v h. cc;
        number = λ slug v h. cc;
        apart = λ a b v w h k e. cc;
        still = λ n nobody. refl;
      };
    }
