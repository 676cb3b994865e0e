-- ===== src/Content/Events/Invariant.antt =====
-- What holds of the mixer of extension/src/content/index.ts after any events.
use streammix.Common.{ℕ, ◌≡◌, refl, sym, ap, ◌∙◌, List, [], ◌∷◌, arith, Option-cases, inl, inr}
use streammix.Common.Assoc.{get, has, get-set}
use streammix.Common.Number.{Number, num}
use streammix.Common.Text.{Text, text_eq_iff, includes}
use streammix.Audio.Decoder.{decode}
use streammix.Audio.Graph.{build_graph, set_broadcast_gain, set_offset_ms, entry_node_for}
use streammix.Audio.Graph.Wiring.{IsWired-build_graph}
use streammix.Audio.Graph.Routing.{set_broadcast_gain-IsWired, set_offset_ms-IsWired}
use streammix.Content.{
  Mixer, Page, slugs, one_fifth, new_mixer, open_lane, ensure_lane, decode_in, on_audio, get_id,
}
use streammix.Content.Panel.{
  on_change, on_mute_toggle, on_solo_toggle, on_broadcast_change, on_offset_change, on_reset,
}
use streammix.Content.Events.{
  Event, track_list, audio, change, mute_toggle, solo_toggle, broadcast_change, offset_change,
  reset, handle, handle_all,
}
use streammix.Content.Events.Keys.{
  Fits, IsListed, ensure_lane-Fits, ensure_lane_settings, on_track_list-Fits,
  on_track_list-IsListed,
}
use streammix.Content.Events.Keeps.{
  Keeps, Keeps-Fits, Keeps-IsListed, Keeps-on_change, Keeps-on_mute_toggle, Keeps-solo_tracks,
  Keeps-reset_tracks, Keeps-on_broadcast_change, Keeps-on_offset_change,
}

Fits-decode_in :
    (page : Page) (slug : Text) (seq : ℕ) (m : Mixer) → Fits m → Fits (decode_in page slug seq m).0
unfolding decode_in
Fits-decode_in page slug seq m f = elim (Option-cases (get slug m.audio_lanes)) [
  | inl unknown ↦ rw (unknown, decode_in) f
  | inr (lane, known) ↦
      rw (known, decode_in)
        (record {
          keys = f.keys;
          lanes = λ s l h. ground (
            arith,
            get-set slug s (record lane { decoder = (decode lane.decoder seq).0 }) m.audio_lanes,
            text_eq_iff slug s,
            f.lanes slug lane known,
            f.lanes s l,
          );
          wired = f.wired;
        })
]

decode_in_rest :
    (page : Page) (slug : Text) (seq : ℕ) (m : Mixer)
    → ((decode_in page slug seq m).0.settings ≡ m.settings)
      × ((decode_in page slug seq m).0.tracks ≡ m.tracks)
unfolding decode_in
decode_in_rest page slug seq m = elim (Option-cases (get slug m.audio_lanes)) [
  | inl unknown ↦ rw (unknown, decode_in) (refl, refl)
  | inr (lane, known) ↦ rw (known, decode_in) (refl, refl)
]

-- The slugs of the settings, of the graph and of the track list are the same, each lane plays into the
-- entry node of its slug, and the routing stands.
pub record IsMixing (m : Mixer) : Type 0 where
  pub fits : Fits m
  pub listed : IsListed m

IsMixing-Keeps : (m m' : Mixer) → Keeps m m' → IsMixing m → IsMixing m'
IsMixing-Keeps m m' k x = record {
  fits = Keeps-Fits m m' k x.fits;
  listed = Keeps-IsListed m m' k x.listed;
}

module _ (page : Page) where
  ensure_lane_tracks : (slug : Text) (m : Mixer) → (ensure_lane page slug m).tracks ≡ m.tracks
  unfolding ensure_lane open_lane
  ensure_lane_tracks slug m = elim (Option-cases (get slug m.audio_lanes)) [
    | inr (lane, known) ↦ rw (known, ensure_lane) refl
    | inl new ↦
        rw (new, ensure_lane)
          (elim (Option-cases (entry_node_for m.graph slug)) [
            | inl unknown ↦ rw (unknown, open_lane) refl
            | inr (entry, found) ↦ rw (found, open_lane) (ground arith)
          ])
  ]

  IsMixing-on_audio :
      (track_id : Number) (seq : ℕ) (m : Mixer)
      → IsMixing m
      → IsMixing (on_audio page track_id seq m).0
  unfolding on_audio
  IsMixing-on_audio track_id seq m x = elim (Option-cases (get_id track_id m.id_to_slug)) [
    | inl unknown ↦ rw (unknown, on_audio) x
    | inr (slug, known) ↦
        let m' = ensure_lane page slug m in
        let (settings, tracks) = decode_in_rest page slug seq m' in
        rw (known, on_audio)
          (record {
            fits = Fits-decode_in page slug seq m' (ensure_lane-Fits page slug m x.fits);
            listed = λ s.
                ap (has s) (settings ∙ ensure_lane_settings page slug m)
                ∙ x.listed s
                ∙ ap (λ ts. includes (slugs ts) s) (sym (tracks ∙ ensure_lane_tracks slug m));
          })
  ]

  pub IsMixing-handle : (e : Event) (m : Mixer) → IsMixing m → IsMixing (handle page e m)
  unfolding handle on_solo_toggle on_broadcast_change on_offset_change on_reset
  IsMixing-handle (track_list incoming) m x = record {
    fits = on_track_list-Fits page incoming m x.fits;
    listed = on_track_list-IsListed page incoming m x.listed;
  }
  IsMixing-handle (audio track_id seq) m x = IsMixing-on_audio track_id seq m x
  IsMixing-handle (change slug v) m x =
      IsMixing-Keeps m (on_change slug v m) (Keeps-on_change slug v m) x
  IsMixing-handle (mute_toggle slug) m x =
      IsMixing-Keeps m (on_mute_toggle slug m) (Keeps-on_mute_toggle slug m) x
  IsMixing-handle (solo_toggle slug) m x =
      IsMixing-Keeps m (on_solo_toggle slug m) (Keeps-solo_tracks slug m.tracks [] m) x
  IsMixing-handle (broadcast_change v) m x =
      IsMixing-Keeps m (on_broadcast_change v m) (Keeps-on_broadcast_change v m) x
  IsMixing-handle (offset_change ms) m x =
      IsMixing-Keeps m (on_offset_change page ms m) (Keeps-on_offset_change page ms m) x
  IsMixing-handle reset m x =
      IsMixing-Keeps m (on_reset page m)
        (Keeps-reset_tracks page m.tracks [] [] m (λ s h. x.listed s ∙ h)) x

  IsMixing-handle_all : (es : List Event) (m : Mixer) → IsMixing m → IsMixing (handle_all page es m)
  unfolding handle_all
  IsMixing-handle_all [] m x = x
  IsMixing-handle_all (e ∷ es) m x =
      IsMixing-handle_all es (handle page e m) (IsMixing-handle e m x)

  pub IsMixing-new_mixer : IsMixing (new_mixer page)
  unfolding new_mixer has get entry_node_for set_offset_ms set_broadcast_gain build_graph
  IsMixing-new_mixer = record {
    fits = record {
      keys = λ s. refl;
      lanes = λ s lane h. cc;
      wired =
          set_offset_ms-IsWired page.thousandth (num 0) (set_broadcast_gain one_fifth build_graph)
            (set_broadcast_gain-IsWired one_fifth build_graph IsWired-build_graph);
    };
    listed = λ s. refl;
  }

  -- After any track lists, audio frames and calls of the panel, in any order: the slugs with a setting,
  -- the slugs with an entry node in the audio graph and the slugs of the last track list are the same,
  -- every lane plays into the entry node of its slug, and the routing of the graph stands.
  pub handle_all-new_mixer : (es : List Event) → IsMixing (handle_all page es (new_mixer page))
  handle_all-new_mixer es = IsMixing-handle_all es (new_mixer page) IsMixing-new_mixer
