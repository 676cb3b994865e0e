-- ===== src/Content/Sound/Listed.antt =====
-- What sounds of the mixer of extension/src/content/index.ts, and of which track.
use streammix.Common.{
  ℕ, ◌≡◌, ◌≢◌, ◌⊎◌, ap, ◌∙◌, sym, subst, true, List, [], ◌∷◌, some, arith, Bool-cases, inl, inr,
  ◌==◌,
}
use streammix.Common.Assoc.{get, delete, has-get, delete-eq_self, map_values, IsMap}
use streammix.Common.Text.{Text, text_eq_iff, text_eq_refl, includes}
use streammix.Audio.Decoder.Opus.{WebCodecs}
use streammix.Audio.Graph.{entry_node_for}
use streammix.Audio.Scheduler.{AudioClock, lists}
use streammix.Content.{Page, slugs, new_mixer}
use streammix.Content.Events
use streammix.Content.Events.Invariant.{IsMixing, handle_all-new_mixer}
use streammix.Content.Events.Keys.{is_some}
use streammix.Content.Sound.{Playing, Voice, Stage, new_stage, silence}
use streammix.Content.Sound.Acts.{Act, act_all, silence_all, destroy_active}
use streammix.Content.Sound.Lanes.{erase, IsStaged, get-audio_lanes_known}
use streammix.Content.Sound.Owned.{IsOwned, IsOwned-delete}
use streammix.Content.Sound.Runs.{events_of, act_all-Becomes, new_stage-IsStaged}

module _ (clock : AudioClock) (codecs : WebCodecs) where
  -- The lane with a given scheduler, or that there is none.
  owner_of :
      (voices : List (Text × Voice clock codecs)) (n : ℕ)
      → IsMap voices
      → ((slug : Text) × (v : Voice clock codecs) × (get slug voices ≡ some v) × (v.number ≡ n))
        ⊎ ((slug : Text) (v : Voice clock codecs) → get slug voices ≡ some v → v.number ≢ n)
  unfolding get
  owner_of [] n unique = inr (λ slug v h. cc)
  owner_of ((k, v) ∷ voices) n (new, unique) = elim (Bool-cases (v.number == n)) [
    | inl mine ↦ inl (k, v, ground (arith, text_eq_refl k), ground arith)
    | inr other ↦ elim (owner_of voices n unique) [
      | inl (slug, w, found, same) ↦
          inl (slug, w, ground (arith, text_eq_iff k slug, has-get k voices), same)
      | inr nobody ↦ inr (λ slug w h e. ground (arith, nobody slug w))
    ]
  ]

  silence_all_lem :
      (voices : List (Text × Voice clock codecs)) (created : ℕ) (playing : Playing)
      → IsOwned clock codecs voices created playing
      → IsOwned clock codecs [] created (silence_all clock codecs voices playing)
  unfolding silence_all
  silence_all_lem [] created playing o = o
  silence_all_lem ((k, v) ∷ voices) created playing o =
      let known : get k ((k, v) ∷ voices) ≡ some v = unfold get in ground (arith, text_eq_refl k) in
      let rest : delete k ((k, v) ∷ voices) ≡ voices =
        unfold delete in
        ground (arith, text_eq_refl k, delete-eq_self k voices, o.unique, has-get k voices) in
      silence_all_lem voices created (silence clock codecs v playing) (
        subst (λ vs. IsOwned clock codecs vs created (silence clock codecs v playing)) rest
          (IsOwned-delete clock codecs ((k, v) ∷ voices) created playing o k v known))

  -- A source that sounds, and the lane that it belongs to.
  playing_owner :
      (s : Stage clock codecs) (n id : ℕ)
      → IsStaged clock codecs s
      → IsMixing s.mixer
      → lists (s.playing n) id ≡ true
      → (slug : Text) × (v : Voice clock codecs) × (get slug s.voices ≡ some v)
        × (v.number ≡ n)
        × (lists v.scheduler.live_sources id ≡ true)
        × (includes (slugs s.mixer.tracks) slug ≡ true)
        × (entry_node_for s.mixer.graph slug ≡ some v.destination)
  playing_owner s n id st x sounds = elim (owner_of s.voices n st.sound.unique) [
    | inr nobody ↦ absurd (cc (ap (λ ids. lists ids id) (st.sound.still n nobody)))
    | inl (slug, v, found, same) ↦
        let owned : s.playing n ≡ v.scheduler.live_sources =
          ap s.playing (sym same) ∙ st.sound.owned slug v found in
        let entry : entry_node_for s.mixer.graph slug ≡ some v.destination =
          x.fits.lanes slug (erase clock codecs v)
            (get-audio_lanes_known clock codecs slug s st v found) in
        (
          slug,
          v,
          found,
          same,
          ap (λ ids. lists ids id) (sym owned) ∙ sounds,
          sym (x.listed slug) ∙ x.fits.keys slug ∙ ap is_some entry,
          entry,
        )
  ]

  module _ (page : Page) where
    -- The stage after these acts.
    abbrev pub after : List (Act clock codecs) → Stage clock codecs
    after acts = act_all clock codecs page acts (new_stage clock codecs page)

    -- Whatever the relay, the panel and the browser do, the mixer is the one that Content has after the
    -- events of the relay and the panel, and its lanes have the numbers and the entry nodes of Content's.
    pub act_all-handle_all :
        (acts : List (Act clock codecs))
        → ((after acts).mixer
            ≡ Events.handle_all page (events_of clock codecs acts) (new_mixer page))
          × (map_values (erase clock codecs) (after acts).voices
              ≡ (Events.handle_all page (events_of clock codecs acts) (new_mixer page)).audio_lanes)
    act_all-handle_all acts =
        let (same, st) =
          act_all-Becomes clock codecs page acts (new_stage clock codecs page)
            (new_stage-IsStaged clock codecs page) in
        (same, st.agrees ∙ ap (λ m. m.audio_lanes) same)

    -- Whatever the relay, the panel and the browser have done, each source that sounds was started by the
    -- scheduler of a lane, which lists it as live; the lane's slug is that of a track of the last track list,
    -- and it plays into the entry node that the audio graph has for it.
    pub act_all-playing :
        (acts : List (Act clock codecs)) (n id : ℕ)
        → lists ((after acts).playing n) id ≡ true
        → (slug : Text) × (v : Voice clock codecs) × (get slug (after acts).voices ≡ some v)
          × (v.number ≡ n)
          × (lists v.scheduler.live_sources id ≡ true)
          × (includes (slugs (after acts).mixer.tracks) slug ≡ true)
          × (entry_node_for (after acts).mixer.graph slug ≡ some v.destination)
    act_all-playing acts n id sounds =
        let (same, st) =
          act_all-Becomes clock codecs page acts (new_stage clock codecs page)
            (new_stage-IsStaged clock codecs page) in
        let mixing : IsMixing (after acts).mixer =
          subst IsMixing (sym same) (handle_all-new_mixer page (events_of clock codecs acts)) in
        playing_owner (after acts) n id st mixing sounds

    -- `destroy()`, whatever the relay, the panel and the browser have done before: nothing sounds.
    pub playing-destroy_active :
        (acts : List (Act clock codecs)) (n : ℕ)
        → (destroy_active clock codecs (after acts)).playing n ≡ []
    unfolding destroy_active
    playing-destroy_active acts n =
        let s = after acts in
        let (same, st) =
          act_all-Becomes clock codecs page acts (new_stage clock codecs page)
            (new_stage-IsStaged clock codecs page) in
        (silence_all_lem s.voices s.created s.playing st.sound).still n
          (λ slug v h. unfold get in cc)
