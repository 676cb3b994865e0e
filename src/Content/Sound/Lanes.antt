-- ===== src/Content/Sound/Lanes.antt =====
-- The lanes of extension/src/content/index.ts with their decoders and schedulers, beside the lanes of the
-- mixer in Content.
use streammix.Common.{
  ℕ, ◌≡◌, refl, ap, ◌∙◌, sym, none, some, arith, Option-cases, Bool-cases, inl, inr,
}
use streammix.Common.Assoc.{
  get, delete, map_values, get-map_values, map_values-set, map_values-delete, delete-eq_self,
}
use streammix.Common.Text.{Text}
use streammix.Audio.Decoder.Opus.{
  WebCodecs, create_opus_decoder, decode_packet, create_opus_decoder-IsOpen, lane-decode_packet,
}
use streammix.Audio.Graph.{entry_node_for}
use streammix.Audio.Scheduler.{AudioClock}
use streammix.Content
use streammix.Content.{AudioLane, Mixer, Page, decode_in}
use streammix.Content.Sound.{
  Voice, Stage, voice_of, close_voice, open_voice, ensure_voice, ensure_lane, drop_track,
  decode_voice,
}
use streammix.Content.Sound.Owned.{IsOwned, IsOwned-set, IsOwned-open, IsOwned-delete}

module _ (clock : AudioClock) (codecs : WebCodecs) where
  -- What Content keeps of a lane.
  abbrev pub erase : Voice clock codecs → AudioLane
  erase v = record { decoder = v.opus.lane; entry = v.destination }

  pub record IsStaged (s : Stage clock codecs) : Type 0 where
    pub agrees : map_values erase s.voices ≡ s.mixer.audio_lanes
    pub sound : IsOwned clock codecs s.voices s.created s.playing

  -- What an operation makes of a stage: the mixer that Content has, and a stage as before.
  abbrev pub Becomes : Stage clock codecs → Mixer → Type 0
  Becomes s m = (s.mixer ≡ m) × IsStaged s

  module _ (slug : Text) (s : Stage clock codecs) (st : IsStaged s) where
    pub get-audio_lanes_known :
        (v : Voice clock codecs)
        → get slug s.voices ≡ some v
        → get slug s.mixer.audio_lanes ≡ some (erase v)
    get-audio_lanes_known v known =
        ap (get slug) (sym st.agrees) ∙ get-map_values erase slug s.voices ∙ rw known refl

    pub get-audio_lanes_unknown : get slug s.voices ≡ none → get slug s.mixer.audio_lanes ≡ none
    get-audio_lanes_unknown unknown =
        ap (get slug) (sym st.agrees) ∙ get-map_values erase slug s.voices ∙ rw unknown refl

    pub drop_track-Becomes :
        Becomes (drop_track clock codecs slug s) (Content.drop_track slug s.mixer)
    unfolding drop_track Content.drop_track close_voice
    drop_track-Becomes = elim (Option-cases (get slug s.voices)) [
      | inl unknown ↦
          rw (unknown, close_voice)
            (
              refl,
              record {
                agrees =
                    st.agrees
                    ∙ sym
                        (delete-eq_self slug s.mixer.audio_lanes (get-audio_lanes_unknown unknown));
                sound = st.sound;
              },
            )
      | inr (v, known) ↦
          rw (known, close_voice)
            (
              refl,
              record {
                agrees = map_values-delete erase slug s.voices ∙ ap (delete slug) st.agrees;
                sound =
                    IsOwned-delete clock codecs s.voices s.created s.playing st.sound slug v known;
              },
            )
    ]

    open-Becomes :
        (page : Page)
        → get slug s.voices ≡ none
        → Becomes
            (record (open_voice clock codecs page slug s) {
              mixer = Content.open_lane page slug s.mixer;
            })
            (Content.open_lane page slug s.mixer)
    unfolding open_voice Content.open_lane create_opus_decoder
    open-Becomes page unknown = elim (Option-cases (entry_node_for s.mixer.graph slug)) [
      | inl no_entry ↦ rw (no_entry, open_voice, Content.open_lane) (refl, st)
      | inr (entry, found) ↦ elim (Bool-cases page.has_audio_decoder) [
        | inr old ↦ rw (found, open_voice, Content.open_lane, old) (refl, st)
        | inl there ↦
            let (o, made, fresh, ready) = create_opus_decoder-IsOpen codecs in
            let v = voice_of clock codecs page entry s.created o in
            rw (found, open_voice, Content.open_lane, there, made)
              (
                refl,
                record {
                  agrees = map_values-set erase slug v s.voices ∙ rw (fresh, st.agrees) refl;
                  sound =
                      IsOwned-open clock codecs s.voices s.created s.playing st.sound slug v unknown
                        refl refl;
                },
              )
      ]
    ]

    pub ensure_lane-Becomes :
        (page : Page)
        → Becomes (ensure_lane clock codecs page slug s) (Content.ensure_lane page slug s.mixer)
    unfolding ensure_lane ensure_voice Content.ensure_lane
    ensure_lane-Becomes page = elim (Option-cases (get slug s.voices)) [
      | inr (v, known) ↦
          rw (known, ensure_voice, get-audio_lanes_known v known, Content.ensure_lane) (refl, st)
      | inl unknown ↦
          rw (unknown, ensure_voice, get-audio_lanes_unknown unknown, Content.ensure_lane)
            (open-Becomes page unknown)
    ]

    pub decode_voice-Becomes :
        (page : Page) (seq : ℕ)
        → Becomes (decode_voice clock codecs page slug seq s).0 (decode_in page slug seq s.mixer).0
    unfolding decode_voice decode_in
    decode_voice-Becomes page seq = elim (Option-cases (get slug s.voices)) [
      | inl unknown ↦
          rw (unknown, decode_voice, get-audio_lanes_unknown unknown, decode_in) (refl, st)
      | inr (v, known) ↦
          let o = (decode_packet codecs seq v.opus).0 in
          let v' = record v { opus = o } in
          rw (known, decode_voice, get-audio_lanes_known v known, decode_in)
            (
              refl,
              record {
                agrees =
                    map_values-set erase slug v' s.voices
                    ∙ rw (lane-decode_packet codecs seq v.opus, st.agrees) refl;
                sound =
                    IsOwned-set clock codecs s.voices s.created s.playing st.sound slug v' v
                      s.playing known refl (λ n. ground (arith, st.sound.owned slug v known));
              },
            )
    ]
