-- ===== src/Content/Sound/Acts.antt =====
-- extension/src/content/index.ts: what the browser's decoders and sources do to the lanes, and runs of that
-- and of the mixer's events.
use streammix.Common.{ℕ, List, [], ◌∷◌, ◌++◌, none, some}
use streammix.Common.Assoc.{get, set}
use streammix.Common.Text.{Text}
use streammix.Audio.Decoder.Opus.{WebCodecs, on_decoder_error}
use streammix.Audio.Scheduler
use streammix.Audio.Scheduler.{AudioClock, enqueue, remove}
use streammix.Content
use streammix.Content.{Page}
use streammix.Content.Events.{Event}
use streammix.Content.Sound.{Playing, put, Voice, Stage, silence, handle}

module _ (clock : AudioClock) (codecs : WebCodecs) where
  -- The loop of `destroy()`.
  unfoldable pub silence_all : List (Text × Voice clock codecs) → Playing → Playing
  silence_all [] playing = playing
  silence_all ((slug, v) ∷ voices) playing = silence_all voices (silence clock codecs v playing)

  -- `destroy()` of the active state.
  unfoldable pub destroy_active : Stage clock codecs → Stage clock codecs
  destroy_active s = record s {
    mixer = Content.destroy_active s.mixer;
    voices = [];
    playing = silence_all s.voices s.playing;
  }

  -- `scheduler.enqueue(buf)` at the time `now`, for a buffer that the decoder of the slug gave.
  unfoldable pub on_output : Text → clock.Time → Stage clock codecs → Stage clock codecs
  on_output slug now s = elim (get slug s.voices) [
    | none ↦ s
    | some v ↦ record s {
      voices = set slug (record v { scheduler = (enqueue clock now v.scheduler).0 }) s.voices;
      playing = put v.number (s.playing v.number ++ (v.scheduler.created ∷ [])) s.playing;
    }
  ]

  -- A source of the slug's scheduler has played to its end: `src.onended`.
  unfoldable pub on_ended : Text → ℕ → Stage clock codecs → Stage clock codecs
  on_ended slug id s = elim (get slug s.voices) [
    | none ↦ s
    | some v ↦ record s {
      voices = set slug (record v { scheduler = Scheduler.on_ended clock id v.scheduler }) s.voices;
      playing = put v.number (remove id (s.playing v.number)) s.playing;
    }
  ]

  -- The decoder of the slug fails.
  unfoldable pub on_failure : Text → Stage clock codecs → Stage clock codecs
  on_failure slug s = elim (get slug s.voices) [
    | none ↦ s
    | some v ↦ record s {
      voices = set slug (record v { opus = on_decoder_error codecs v.opus }) s.voices;
    }
  ]

  -- What may happen to the mixer: an event of the relay or the panel, and what the browser's decoders and
  -- sources do.
  pub data Act : Type 0 where
    event : Event → Act
    output : Text → clock.Time → Act
    ended : Text → ℕ → Act
    failure : Text → Act

  module _ (page : Page) where
    unfoldable pub act : Act → Stage clock codecs → Stage clock codecs
    act (event e) s = handle clock codecs page e s
    act (output slug now) s = on_output slug now s
    act (ended slug id) s = on_ended slug id s
    act (failure slug) s = on_failure slug s

    -- The acts from the first to the last.
    unfoldable pub act_all : List Act → Stage clock codecs → Stage clock codecs
    act_all [] s = s
    act_all (a ∷ acts) s = act_all acts (act a s)
