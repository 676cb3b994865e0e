-- ===== src/Ui/MixerPanel/Clicks.antt =====
-- What a row of extension/src/ui/Mixer.svelte shows after a click or a move of a slider.
use streammix.Common.{
  ◌≡◌, refl, ◌∙◌, Bool, true, false, not, List, [], ◌∷◌, Option, some, if◌then◌else◌, arith,
}
use streammix.Common.Assoc.{get, set, get-set}
use streammix.Common.Number.{Number, num}
use streammix.Common.Text.{Text, text_eq, text_eq_iff, includes}
use streammix.Audio.Graph.{set_track_gain}
use streammix.Content.{Mixer, Page, is_muted, gain_of, slugs, truthy}
use streammix.Content.Events.{handle}
use streammix.Content.Panel.{on_mute_toggle, on_solo_toggle, solo_tracks}
use streammix.Messages.TrackList.{TrackInfo}
use streammix.Ui.MixerPanel.{Row, title_of, row_of, click_icon}

-- What the loop of `onSoloToggle` leaves in `nextMuted`.
pub get-solo_tracks :
    (slug s : Text) (ts : List TrackInfo) (muted : List (Text × Option Bool)) (m : Mixer)
    → get s (solo_tracks slug ts muted m).muted
      ≡ (if includes (slugs ts) s then some (some (not (text_eq s slug))) else get s muted)
unfolding solo_tracks
get-solo_tracks slug s [] muted m = refl
get-solo_tracks slug s (t ∷ ts) muted m =
    let silent = not (text_eq t.slug slug) in
    get-solo_tracks slug s ts (set t.slug (some silent) muted) (record m {
      graph = set_track_gain t.slug (if silent then num 0 else gain_of m.gains t.slug) m.graph;
    })
    ∙ ground (arith, get-set t.slug s (some silent) muted, text_eq_iff t.slug s)

pub solo_tracks_gains :
    (slug : Text) (ts : List TrackInfo) (muted : List (Text × Option Bool)) (m : Mixer)
    → (solo_tracks slug ts muted m).gains ≡ m.gains
unfolding solo_tracks
solo_tracks_gains slug [] muted m = refl
solo_tracks_gains slug (t ∷ ts) muted m =
    let silent = not (text_eq t.slug slug) in
    solo_tracks_gains slug ts (set t.slug (some silent) muted) (record m {
      graph = set_track_gain t.slug (if silent then num 0 else gain_of m.gains t.slug) m.graph;
    })

pub is_muted_known :
    (s : Text) (muted : List (Text × Option Bool)) (b : Option Bool)
    → get s muted ≡ some b
    → is_muted muted s ≡ truthy b
unfolding is_muted
is_muted_known s muted b e = rw (is_muted, e) refl

-- The row, muted or not.
abbrev pub shown_muted : Bool → Row → Row
shown_muted muted r = record r { muted = muted; title = title_of muted }

-- Whether a row is muted after a click on the icon of the row `slug`.
abbrev pub muted_by : Bool → Text → Row → Bool
muted_by true slug r = not (text_eq r.slug slug)
muted_by false slug r = if text_eq r.slug slug then not r.muted else r.muted

module _ (page : Page) (percent : Number → Number) where
  -- After a plain click on the icon of a row, that row is muted exactly if it was not, and every other row
  -- is as it was. After a Shift+click, of the rows that are listed every other row is muted and that row is
  -- not, whatever was muted before: a second Shift+click reverts nothing. The rest of each row stays.
  pub row_of-click_icon :
      (shift_key : Bool) (slug : Text) (t : TrackInfo) (m : Mixer)
      → includes (slugs m.tracks) t.slug ≡ true
      → row_of percent (handle page (click_icon shift_key slug) m) t
        ≡ shown_muted (muted_by shift_key slug (row_of percent m t)) (row_of percent m t)
  unfolding row_of handle click_icon on_mute_toggle on_solo_toggle
  row_of-click_icon true slug t m listed =
      let muted : is_muted (on_solo_toggle slug m).muted t.slug ≡ not (text_eq t.slug slug) =
        is_muted_known t.slug (on_solo_toggle slug m).muted (some (not (text_eq t.slug slug)))
          (get-solo_tracks slug t.slug m.tracks [] m ∙ rw listed refl) in
      rw (muted, solo_tracks_gains slug m.tracks [] m) refl
  row_of-click_icon false slug t m listed =
      let next = not (is_muted m.muted slug) in
      let muted : is_muted (set slug (some next) m.muted) t.slug ≡ (
          if text_eq t.slug slug then not (is_muted m.muted t.slug) else is_muted m.muted t.slug) =
        unfold is_muted in
        ground (
          arith,
          get-set slug t.slug (some next) m.muted,
          text_eq_iff slug t.slug,
          text_eq_iff t.slug slug,
        ) in
      rw muted refl
