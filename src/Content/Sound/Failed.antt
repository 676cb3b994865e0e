-- ===== src/Content/Sound/Failed.antt =====
-- A lane of extension/src/content/index.ts whose decoder has failed.
use streammix.Common.{
  ℕ, ◌≡◌, refl, sym, ap, subst, ◌∙◌, true, false, List, none, some, some-eq, arith, Bool-cases, inl,
  inr, All, All-mono,
}
use streammix.Common.Assoc.{get, set, get-set, get-delete}
use streammix.Common.Number.{Number}
use streammix.Common.Text.{Text, text_eq, text_eq_iff, text_eq_refl, includes}
use streammix.Audio.Decoder.Opus.{WebCodecs, IsClosed, decode_packet-IsClosed, on_decoder_error}
use streammix.Audio.Scheduler.{AudioClock}
use streammix.Content.{Page, slugs, get_id}
use streammix.Content.Events.{Event}
use streammix.Content.Sound.{Voice, Stage, decode_voice, on_audio}
use streammix.Content.Sound.Acts.{Act, event, on_failure, act_all}
use streammix.Content.Sound.Carried.{IsCarried, Permits, ensure_lane_carries, act_all_carries}

module _ (clock : AudioClock) (codecs : WebCodecs) (slug : Text) where
  -- The slug has a lane, and its decoder is closed.
  abbrev pub HasFailed : List (Text × Voice clock codecs) → Type 0
  HasFailed voices = (v : Voice clock codecs) × (get slug voices ≡ some v) × IsClosed codecs v.opus

  -- A track list that still has the slug, or any other act.
  abbrev pub Spares : Act clock codecs → Type 0
  Spares (event (Event.track_list incoming)) = includes (slugs incoming) slug ≡ true
  Spares _ = Unit {0}

  HasFailed-set :
      (k : Text) (w : Voice clock codecs) (voices : List (Text × Voice clock codecs))
      → (k ≡ slug → IsClosed codecs w.opus)
      → HasFailed voices
      → HasFailed (set k w voices)
  HasFailed-set k w voices closed (v, found, gone) = elim (Bool-cases (text_eq k slug)) [
    | inl here ↦ (w, rw (get-set k slug w voices, here) refl, closed ((text_eq_iff k slug).0 here))
    | inr elsewhere ↦ (v, rw (get-set k slug w voices, elsewhere) found, gone)
  ]

  failed_voice :
      (k : Text) (w : Voice clock codecs) (voices : List (Text × Voice clock codecs))
      → get k voices ≡ some w
      → k ≡ slug
      → HasFailed voices
      → IsClosed codecs w.opus
  failed_voice k w voices known same (v, found, gone) =
      let one : v ≡ w = some-eq (sym found ∙ ap (λ j. get j voices) (sym same) ∙ known) in
      subst (λ u. IsClosed codecs u.opus) one gone

  on_failure_fails :
      (v : Voice clock codecs) (s : Stage clock codecs)
      → get slug s.voices ≡ some v
      → HasFailed (on_failure clock codecs slug s).voices
  unfolding on_failure on_decoder_error
  on_failure_fails v s known =
      let w = record v { opus = on_decoder_error codecs v.opus } in
      rw (known, on_failure)
        (
          w,
          get-set slug slug w s.voices ∙ rw (text_eq_refl slug) refl,
          codecs.state-fault v.opus.decoder,
        )

  module _ (page : Page) where
    abbrev Elsewhere : Text → Type 0
    Elsewhere k = text_eq k slug ≡ false

    HasFailed-IsCarried : IsCarried clock codecs page HasFailed Elsewhere (Unit {0})
    unfolding on_decoder_error
    HasFailed-IsCarried = record {
      moved = λ k w w' voices known same h.
          HasFailed-set k w' voices
            (λ e. subst (λ o. IsClosed codecs o) (sym same) (failed_voice k w voices known e h)) h;
      decoded = λ k seq w voices known h.
          HasFailed-set k _ voices
            (λ e. (decode_packet-IsClosed codecs seq w.opus (failed_voice k w voices known e h)).0)
            h;
      opened = λ k entry number o voices new made h.
          HasFailed-set k _ voices (λ e. absurd (cc (sym new ∙ ap (λ j. get j voices) e ∙ h.1))) h;
      dropped = λ k voices elsewhere h. (h.0, rw (get-delete k slug voices, elsewhere) h.1, h.2);
      failed = λ k w voices fails known h.
          HasFailed-set k _ voices (λ e. codecs.state-fault w.opus.decoder) h;
    }

    Spares-Permits :
        (a : Act clock codecs) → Spares a → Permits clock codecs page Elsewhere (Unit {0}) a
    Spares-Permits (event (Event.track_list incoming)) stays =
        λ k missing. ground (arith, text_eq_iff k slug)
    Spares-Permits _ spared = spared

    on_audio_failed :
        (track_id : Number) (seq : ℕ) (s : Stage clock codecs)
        → HasFailed s.voices
        → get_id track_id s.mixer.id_to_slug ≡ some slug
        → (on_audio clock codecs page track_id seq s).1 ≡ none
    unfolding on_audio decode_voice
    on_audio_failed track_id seq s h named =
        let (v, found, gone) =
          ensure_lane_carries clock codecs page HasFailed Elsewhere (Unit {0}) HasFailed-IsCarried
            slug s h in
        rw (named, on_audio, found, decode_voice) (decode_packet-IsClosed codecs seq v.opus gone).1

    -- Once the decoder of a track's lane has failed, and while no track list comes that leaves the track
    -- out, whatever else happens, the lane stays and its decoder stays closed; and an audio frame of an
    -- id that stands for the track gives its decoder nothing: `decode` throws for each of them.
    pub on_audio-on_failure :
        (v : Voice clock codecs) (s : Stage clock codecs) (acts : List (Act clock codecs))
        (track_id : Number) (seq : ℕ)
        → get slug s.voices ≡ some v
        → All Spares acts
        → get_id track_id
            (act_all clock codecs page acts (on_failure clock codecs slug s)).mixer.id_to_slug
          ≡ some slug
        → HasFailed (act_all clock codecs page acts (on_failure clock codecs slug s)).voices
          × ((on_audio clock codecs page track_id seq
                (act_all clock codecs page acts (on_failure clock codecs slug s))).1
              ≡ none)
    on_audio-on_failure v s acts track_id seq known spared named =
        let still =
          act_all_carries clock codecs page HasFailed Elsewhere (Unit {0}) HasFailed-IsCarried acts
            (on_failure clock codecs slug s) (All-mono Spares-Permits acts spared)
            (on_failure_fails v s known) in
        (still, on_audio_failed track_id seq _ still named)
