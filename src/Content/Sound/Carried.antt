-- ===== src/Content/Sound/Carried.antt =====
-- What the acts of extension/src/content/index.ts carry on from lane to lane: a predicate of the lanes that
-- each way of changing one lane keeps is kept by every act.
use streammix.Common.{
  ℕ, ◌≡◌, refl, false, List, [], ◌∷◌, none, some, Option-cases, Bool-cases, inl, inr, All,
}
use streammix.Common.Assoc.{get, set, delete, has}
use streammix.Common.Number.{Number}
use streammix.Common.Text.{Text, includes}
use streammix.Audio.Decoder.Opus.{
  WebCodecs, OpusLane, create_opus_decoder, decode_packet, on_decoder_error,
}
use streammix.Audio.Graph.{entry_node_for}
use streammix.Audio.Scheduler.{AudioClock}
use streammix.Messages.TrackList.{TrackInfo}
use streammix.Content.{Page, slugs, get_id, index_tracks, provision}
use streammix.Content.Events.{Event}
use streammix.Content.Sound.{
  Voice, Stage, voice_of, close_voice, drop_track, drop_missing, open_voice, ensure_voice,
  ensure_lane, take_track, take_new, on_track_list, decode_voice, on_audio, handle,
}
use streammix.Content.Sound.Acts.{
  Act, event, output, ended, failure, on_output, on_ended, on_failure, act, act_all,
}

module _ (clock : AudioClock) (codecs : WebCodecs) (page : Page) where
  -- `P` goes on where a lane plays, decodes or opens, where one of `Leaves` is dropped, and, if `Fails`,
  -- where the decoder of one fails.
  pub record IsCarried (P : List (Text × Voice clock codecs) → Type 0) (Leaves : Text → Type 0)
      (Fails : Type 0) : Type 0 where
    pub moved :
        (k : Text) (w w' : Voice clock codecs) (voices : List (Text × Voice clock codecs))
        → get k voices ≡ some w
        → w'.opus ≡ w.opus
        → P voices
        → P (set k w' voices)
    pub decoded :
        (k : Text) (seq : ℕ) (w : Voice clock codecs) (voices : List (Text × Voice clock codecs))
        → get k voices ≡ some w
        → P voices
        → P (set k (record w { opus = (decode_packet codecs seq w.opus).0 }) voices)
    pub opened :
        (k : Text) (entry number : ℕ) (o : OpusLane codecs)
        (voices : List (Text × Voice clock codecs))
        → get k voices ≡ none
        → create_opus_decoder codecs page.has_audio_decoder ≡ some o
        → P voices
        → P (set k (voice_of clock codecs page entry number o) voices)
    pub dropped :
        (k : Text) (voices : List (Text × Voice clock codecs))
        → Leaves k
        → P voices
        → P (delete k voices)
    pub failed :
        (k : Text) (w : Voice clock codecs) (voices : List (Text × Voice clock codecs))
        → Fails
        → get k voices ≡ some w
        → P voices
        → P (set k (record w { opus = on_decoder_error codecs w.opus }) voices)

  -- What a predicate is carried over.
  abbrev pub Permits : (Text → Type 0) → Type 0 → Act clock codecs → Type 0
  Permits Leaves Fails (event (Event.track_list incoming)) =
      (k : Text) → includes (slugs incoming) k ≡ false → Leaves k
  Permits Leaves Fails (failure k) = Fails
  Permits Leaves Fails _ = Unit {0}

  module _ (P : List (Text × Voice clock codecs) → Type 0) (Leaves : Text → Type 0) (Fails : Type 0)
      (c : IsCarried P Leaves Fails) where
    drop_track_carries :
        (k : Text) (s : Stage clock codecs)
        → Leaves k
        → P s.voices
        → P (drop_track clock codecs k s).voices
    unfolding drop_track close_voice
    drop_track_carries k s leaves h = elim (Option-cases (get k s.voices)) [
      | inl unknown ↦ rw (unknown, close_voice) h
      | inr (w, known) ↦ rw (known, close_voice) (c.dropped k s.voices leaves h)
    ]

    drop_missing_carries :
        (incoming : List Text) (ts : List TrackInfo) (s : Stage clock codecs)
        → ((k : Text) → includes incoming k ≡ false → Leaves k)
        → P s.voices
        → P (drop_missing clock codecs incoming ts s).voices
    unfolding drop_missing
    drop_missing_carries incoming [] s leaves h = h
    drop_missing_carries incoming (t ∷ ts) s leaves h =
        elim (Bool-cases (includes incoming t.slug)) [
          | inl listed ↦ rw (listed, drop_missing) (drop_missing_carries incoming ts s leaves h)
          | inr missing ↦
              rw (missing, drop_missing)
                (drop_missing_carries incoming ts (drop_track clock codecs t.slug s) leaves
                  (drop_track_carries t.slug s (leaves t.slug missing) h))
        ]

    pub ensure_lane_carries :
        (k : Text) (s : Stage clock codecs)
        → P s.voices
        → P (ensure_lane clock codecs page k s).voices
    unfolding ensure_lane ensure_voice open_voice
    ensure_lane_carries k s h = elim (Option-cases (get k s.voices)) [
      | inr (w, known) ↦ rw (known, ensure_voice) h
      | inl new ↦ elim (Option-cases (entry_node_for s.mixer.graph k)) [
        | inl no_entry ↦ rw (new, ensure_voice, no_entry, open_voice) h
        | inr (entry, there) ↦
            elim (Option-cases (create_opus_decoder codecs page.has_audio_decoder)) [
              | inl threw ↦ rw (new, ensure_voice, there, open_voice, threw) h
              | inr (o, made) ↦
                  rw (new, ensure_voice, there, open_voice, made)
                    (c.opened k entry s.created o s.voices new made h)
            ]
      ]
    ]

    take_new_carries :
        (ts : List TrackInfo) (s : Stage clock codecs)
        → P s.voices
        → P (take_new clock codecs page ts s).voices
    unfolding take_new take_track
    take_new_carries [] s h = h
    take_new_carries (t ∷ ts) s h = elim (Bool-cases (has t.slug s.mixer.settings)) [
      | inl known ↦ rw (known, take_new) (take_new_carries ts s h)
      | inr new ↦
          rw (new, take_new)
            (take_new_carries ts (take_track clock codecs page t s)
              (ensure_lane_carries t.slug (record s { mixer = provision page t s.mixer }) h))
    ]

    on_audio_carries :
        (track_id : Number) (seq : ℕ) (s : Stage clock codecs)
        → P s.voices
        → P (on_audio clock codecs page track_id seq s).0.voices
    unfolding on_audio decode_voice
    on_audio_carries track_id seq s h = elim (Option-cases (get_id track_id s.mixer.id_to_slug)) [
      | inl unknown ↦ rw (unknown, on_audio) h
      | inr (k, named) ↦
          let s' = ensure_lane clock codecs page k s in
          let h' = ensure_lane_carries k s h in
          elim (Option-cases (get k s'.voices)) [
            | inl unknown ↦ rw (named, on_audio, unknown, decode_voice) h'
            | inr (w, known) ↦
                rw (named, on_audio, known, decode_voice) (c.decoded k seq w s'.voices known h')
          ]
    ]

    act_carries :
        (a : Act clock codecs) (s : Stage clock codecs)
        → Permits Leaves Fails a
        → P s.voices
        → P (act clock codecs page a s).voices
    unfolding act handle on_track_list index_tracks on_output on_ended on_failure
    act_carries (event (Event.track_list incoming)) s leaves h = take_new_carries incoming _ (
        drop_missing_carries (slugs incoming) s.mixer.tracks
          (record s { mixer = index_tracks incoming s.mixer }) leaves h)
    act_carries (event (Event.audio track_id seq)) s ok h = on_audio_carries track_id seq s h
    act_carries (event (Event.change k v)) s ok h = h
    act_carries (event (Event.mute_toggle k)) s ok h = h
    act_carries (event (Event.solo_toggle k)) s ok h = h
    act_carries (event (Event.broadcast_change v)) s ok h = h
    act_carries (event (Event.offset_change ms)) s ok h = h
    act_carries (event Event.reset) s ok h = h
    act_carries (output k now) s ok h = elim (Option-cases (get k s.voices)) [
      | inl unknown ↦ rw (unknown, on_output) h
      | inr (w, known) ↦ rw (known, on_output) (c.moved k w _ s.voices known refl h)
    ]
    act_carries (ended k id) s ok h = elim (Option-cases (get k s.voices)) [
      | inl unknown ↦ rw (unknown, on_ended) h
      | inr (w, known) ↦ rw (known, on_ended) (c.moved k w _ s.voices known refl h)
    ]
    act_carries (failure k) s fails h = elim (Option-cases (get k s.voices)) [
      | inl unknown ↦ rw (unknown, on_failure) h
      | inr (w, known) ↦ rw (known, on_failure) (c.failed k w s.voices fails known h)
    ]

    pub act_all_carries :
        (acts : List (Act clock codecs)) (s : Stage clock codecs)
        → All (Permits Leaves Fails) acts
        → P s.voices
        → P (act_all clock codecs page acts s).voices
    unfolding act_all
    act_all_carries [] s permitted h = h
    act_all_carries (a ∷ acts) s (first, rest) h =
        act_all_carries acts (act clock codecs page a s) rest (act_carries a s first h)
