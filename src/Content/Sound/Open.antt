-- ===== src/Content/Sound/Open.antt =====
-- The lanes of extension/src/content/index.ts while no decoder fails.
use streammix.Common.{
  ℕ, ◌≡◌, refl, sym, ap, subst, ◌∙◌, List, Option, none, some, arith, Option-cases, inl, inr, All,
  All-mono,
}
use streammix.Common.Assoc.{get, set, get-set, get-delete}
use streammix.Common.Int.{ℤ}
use streammix.Common.Number.{Number}
use streammix.Common.Text.{Text}
use streammix.Audio.Decoder.Opus.{
  WebCodecs, IsOpen, decode_packet-IsOpen, create_opus_decoder-eq_some,
}
use streammix.Audio.Scheduler.{AudioClock}
use streammix.Content
use streammix.Content.{Page, slugs, get_id, new_mixer, decode_in}
use streammix.Content.Events
use streammix.Content.Events.{Event}
use streammix.Content.Sound.{Voice, Stage, new_stage, ensure_lane, decode_voice, on_audio}
use streammix.Content.Sound.Acts.{Act, event, failure, act_all}
use streammix.Content.Sound.Carried.{IsCarried, Permits, ensure_lane_carries, act_all_carries}
use streammix.Content.Sound.Lanes.{
  IsStaged, ensure_lane-Becomes, get-audio_lanes_known, get-audio_lanes_unknown,
}
use streammix.Content.Sound.Runs.{events_of, act_all-Becomes, new_stage-IsStaged}

-- The timestamp of a chunk that went to a decoder.
abbrev pub time_of : Option (Text × ℤ) → Option ℤ
time_of none = none
time_of (some (slug, timestamp)) = some timestamp

module _ (clock : AudioClock) (codecs : WebCodecs) where
  -- Every decoder is configured.
  abbrev pub AllOpen : List (Text × Voice clock codecs) → Type 0
  AllOpen voices =
      (slug : Text) (v : Voice clock codecs) → get slug voices ≡ some v → IsOpen codecs v.opus

  abbrev pub NoFailure : Act clock codecs → Type 0
  NoFailure (failure slug) = ⊥
  NoFailure _ = Unit {0}

  AllOpen-set :
      (k : Text) (w : Voice clock codecs) (voices : List (Text × Voice clock codecs))
      → IsOpen codecs w.opus
      → AllOpen voices
      → AllOpen (set k w voices)
  AllOpen-set k w voices here h slug v found = ground (arith, get-set k slug w voices, h slug v)

  abbrev Anyone : Text → Type 0
  Anyone k = Unit {0}

  module _ (page : Page) where
    AllOpen-IsCarried : IsCarried clock codecs page AllOpen Anyone ⊥
    AllOpen-IsCarried = record {
      moved = λ k w w' voices known same h.
          AllOpen-set k w' voices (subst (λ o. IsOpen codecs o) (sym same) (h k w known)) h;
      decoded = λ k seq w voices known h.
          AllOpen-set k _ voices (decode_packet-IsOpen codecs seq w.opus (h k w known)).0 h;
      opened = λ k entry number o voices new made h.
          AllOpen-set k _ voices (create_opus_decoder-eq_some codecs page.has_audio_decoder o made)
            h;
      dropped =
          λ k voices leaves h slug v found. h slug v (ground (arith, get-delete k slug voices));
      failed = λ k w voices fails known h. absurd fails;
    }

    NoFailure-Permits : (a : Act clock codecs) → NoFailure a → Permits clock codecs page Anyone ⊥ a
    NoFailure-Permits (event (Event.track_list incoming)) fine = λ k missing. tt
    NoFailure-Permits _ fine = fine

    decode_voice-decode_in :
        (slug : Text) (seq : ℕ) (s : Stage clock codecs)
        → IsStaged clock codecs s
        → AllOpen s.voices
        → (decode_voice clock codecs page slug seq s).1
          ≡ time_of (decode_in page slug seq s.mixer).1
    unfolding decode_voice decode_in
    decode_voice-decode_in slug seq s st all_open = elim (Option-cases (get slug s.voices)) [
      | inl unknown ↦
          rw
            (
              unknown,
              decode_voice,
              get-audio_lanes_unknown clock codecs slug s st unknown,
              decode_in,
            )
            refl
      | inr (v, known) ↦
          rw (known, decode_voice, get-audio_lanes_known clock codecs slug s st v known, decode_in)
            (decode_packet-IsOpen codecs seq v.opus (all_open slug v known)).2
    ]

    on_audio-time_of :
        (track_id : Number) (seq : ℕ) (s : Stage clock codecs)
        → IsStaged clock codecs s
        → AllOpen s.voices
        → (on_audio clock codecs page track_id seq s).1
          ≡ time_of (Content.on_audio page track_id seq s.mixer).1
    unfolding on_audio Content.on_audio
    on_audio-time_of track_id seq s st all_open =
        elim (Option-cases (get_id track_id s.mixer.id_to_slug)) [
          | inl unknown ↦ rw (unknown, on_audio, Content.on_audio) refl
          | inr (slug, named) ↦
              let s' = ensure_lane clock codecs page slug s in
              let (same, st') = ensure_lane-Becomes clock codecs slug s st page in
              rw (named, on_audio, Content.on_audio)
                (decode_voice-decode_in slug seq s' st' (
                    ensure_lane_carries clock codecs page AllOpen Anyone ⊥ AllOpen-IsCarried slug s
                      all_open)
                  ∙ ap (λ m. time_of (decode_in page slug seq m).1) same)
        ]

    -- As long as no decoder fails, whatever the relay, the panel and the browser have done: an audio frame
    -- gives the browser's decoder exactly the chunk that Content's mixer says, with its timestamp, and
    -- nothing where that says nothing.
    pub on_audio-act_all :
        (acts : List (Act clock codecs)) (track_id : Number) (seq : ℕ)
        → All NoFailure acts
        → (on_audio clock codecs page track_id seq
            (act_all clock codecs page acts (new_stage clock codecs page))).1
          ≡ time_of
              (Content.on_audio page track_id seq
                (Events.handle_all page (events_of clock codecs acts) (new_mixer page))).1
    on_audio-act_all acts track_id seq fine =
        let s = act_all clock codecs page acts (new_stage clock codecs page) in
        let (same, st) =
          act_all-Becomes clock codecs page acts (new_stage clock codecs page)
            (new_stage-IsStaged clock codecs page) in
        let all_open : AllOpen s.voices =
          act_all_carries clock codecs page AllOpen Anyone ⊥ AllOpen-IsCarried acts
            (new_stage clock codecs page) (All-mono NoFailure-Permits acts fine)
            (λ slug v h. unfold get in cc) in
        on_audio-time_of track_id seq s st all_open
        ∙ ap (λ m. time_of (Content.on_audio page track_id seq m).1) same
